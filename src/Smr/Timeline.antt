-- ===== src/Smr/Timeline.antt =====
-- The readers of all nodes and the writer over time (libs/bi/bi_smr.c): each reader enters and leaves
-- in its node's own `parsec_time_cache`; the server of a node copies that to the shared memory now and
-- then, by `bi_time_flush`; the writer sees the copies only. All read one clock, and sections of one
-- core do not nest.
pub mod Safety
use bi_project.Base.{
  ltb, leb, ◌==◌, if◌then◌else◌, Bool-cases, ltb→lt, ltb→le, lt→ltb, le→ltb, leb→le, leb→lt, le→leb,
  ==→eq, ==→ne, eq→==, ne→==, tests, length, length-append, All, All-append, All-mono, has, update,
  update_self, update_ne, ℕ, zero, suc, ◌+◌, ◌-◌, ◌*◌, ◌/◌, ◌%◌, ◌^◌, ◌≤◌, ◌<◌, ◌≡◌, refl, sym, ap,
  ap₂, ◌∙◌, ◌≢◌, ◌↔◌, ◌⊎◌, inl, inr, Bool, true, false, not, ◌&&◌, ◌||◌, Option, none, some, List,
  [], ◌∷◌, ◌++◌, map, append_assoc, append-nil, arith,
}
use bi_project.Smr.Quiesce.{
  tsc_mod, Parsec, parsec_struct_init, ps_in_lib, Readers, bi_enter, bi_exit, bi_time_flush,
}

-- The clock, the caches of the nodes, what the shared memory holds, and the time of each node's last
-- copy.
pub record World : Type 0 where
  pub now : ℕ
  pub caches : ℕ → ℕ → Parsec
  pub shared : Readers
  pub copied : ℕ → ℕ

-- Nobody is inside, and nothing is copied yet. The writer runs on node `curr`.
abbrev pub start : (curr tot_cpu tot_core : ℕ) → World
start curr tot_cpu tot_core = record {
  now = 0;
  caches = λ n c. parsec_struct_init;
  shared = record {
    curr = curr;
    tot_cpu = tot_cpu;
    tot_core = tot_core;
    parsec_times = λ n c. parsec_struct_init;
  };
  copied = λ n. 0;
}

-- What can happen next: the clock goes on, core `c` of node `n` enters or leaves, or the server of
-- node `n` copies the time stamps.
pub data Step : World → World → Type 0 where
  tick : (w : World) (t : ℕ) → w.now ≤ t → t < tsc_mod → Step w (record w { now = t })
  enter :
      (w : World) (n c : ℕ)
      → 0 < w.now
      → ps_in_lib (w.caches n c) ≡ false
      → Step w (record w { caches = update w.caches n (bi_enter (w.caches n) c w.now) })
  leave :
      (w : World) (n c : ℕ)
      → ps_in_lib (w.caches n c) ≡ true
      → Step w (record w { caches = update w.caches n (bi_exit (w.caches n) c) })
  copy :
      (w : World) (n : ℕ)
      → Step w (record w {
        shared = bi_time_flush n (w.caches n) w.shared;
        copied = update w.copied n w.now;
      })

pub data Reach (s : World) : World → Type 0 where
  here : Reach s s
  next : {t u : World} → Reach s t → Step t u → Reach s u
