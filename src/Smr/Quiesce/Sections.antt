-- ===== src/Smr/Quiesce/Sections.antt =====
-- `bi_enter` and `bi_exit` as a reader's calls (libs/bi/bi_smr.c).
use bi_project.Base.{ℕ, ◌+◌, ◌<◌, ◌≡◌, refl, ◌≢◌, true, false, arith}
use bi_project.Smr.Quiesce.{tsc_mod, Parsec, parsec_struct_init, ps_in_lib, bi_enter, bi_exit}

-- A reader is outside at first, inside after `bi_enter` at a positive time, outside again after
-- `bi_exit` unless the time is the last that fits, and no other core changes.
pub enter-exit :
    (cache : ℕ → Parsec) (core t : ℕ)
    → 0 < t
    → t < tsc_mod
    → (ps_in_lib parsec_struct_init ≡ false)
      × (ps_in_lib (bi_enter cache core t core) ≡ true)
      × ((bi_enter cache core t core).time_in ≡ t)
      × (t + 1 < tsc_mod → ps_in_lib (bi_exit (bi_enter cache core t) core core) ≡ false)
      × ((other : ℕ) → core ≢ other → bi_exit (bi_enter cache core t) core other ≡ cache other)
unfolding parsec_struct_init ps_in_lib bi_enter bi_exit
enter-exit cache core t pos small = (refl, ground arith, ground arith, ground arith, ground arith)
