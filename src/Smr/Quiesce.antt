-- ===== src/Smr/Quiesce.antt =====
-- Parallel sections and quiescence (libs/bi/bi_smr.c, include/bi_smr.h): when a reader is inside the
-- library, and up to which time nobody is.
pub mod Bounds
pub mod Sections
use bi_project.Base.{
  ltb, leb, ◌==◌, if◌then◌else◌, Bool-cases, ltb→lt, ltb→le, lt→ltb, le→ltb, leb→le, leb→lt, ==→eq,
  ==→ne, eq→==, ne→==, tests, length, length-append, All, All-append, All-mono, has, update,
  update_self, update_ne, ℕ, zero, suc, ◌+◌, ◌-◌, ◌*◌, ◌/◌, ◌%◌, ◌^◌, ◌≤◌, ◌<◌, ◌≡◌, refl, sym, ap,
  ap₂, ◌∙◌, ◌≢◌, ◌↔◌, ◌⊎◌, inl, inr, Bool, true, false, not, ◌&&◌, ◌||◌, Option, none, some, List,
  [], ◌∷◌, ◌++◌, map, append_assoc, append-nil, arith,
}

-- `ps_tsc_t` and `uint64_t` are 64 bits wide.
abbrev pub tsc_mod : ℕ
tsc_mod = 2 ^ 64

-- FLUSH_GRACE_PERIOD, five times QUISE_FLUSH_PERIOD
abbrev pub flush_grace_period : ℕ
flush_grace_period = 5 * 2000000

-- `struct parsec`
pub record Parsec : Type 0 where
  pub time_in : ℕ
  pub time_out : ℕ

unfoldable pub parsec_struct_init : Parsec
parsec_struct_init = record { time_in = 0; time_out = 1 }

unfoldable pub ps_in_lib : Parsec → Bool
ps_in_lib ps = leb ps.time_out ps.time_in

-- What `bi_quiesce_smr` reads: the node that it runs on, the numbers of nodes and cores in use, and
-- the time stamps that the memory holds once the stale cache lines are flushed.
pub record Readers : Type 0 where
  pub curr : ℕ
  pub tot_cpu : ℕ
  pub tot_core : ℕ
  pub parsec_times : ℕ → ℕ → Parsec

-- The inner loop of `bi_quiesce_smr` over the cores `j` to `j + left` of a node.
unfoldable pub core_loop : Readers → (cpu left j min_known_qsc : ℕ) → ℕ
unfolding ps_in_lib
core_loop rs cpu zero j min_known_qsc = min_known_qsc
core_loop rs cpu (suc left) j min_known_qsc =
    let t = rs.parsec_times cpu j in
    core_loop rs cpu left (j + 1)
      (if ps_in_lib t && ltb t.time_in min_known_qsc then t.time_in else min_known_qsc)

-- The outer loop over the nodes: round `i` looks at node `(curr + i) % tot_cpu`.
unfoldable pub node_loop : Readers → (left i min_known_qsc : ℕ) → ℕ
unfolding core_loop
node_loop rs zero i min_known_qsc = min_known_qsc
node_loop rs (suc left) i min_known_qsc =
    node_loop rs left (i + 1)
      (core_loop rs ((rs.curr + i) % rs.tot_cpu) rs.tot_core 0 min_known_qsc)

unfoldable pub bi_quiesce_smr : Readers → ℕ → ℕ
unfolding node_loop
bi_quiesce_smr rs time = node_loop rs rs.tot_cpu 0 time

-- `uint64_t` subtraction wraps.
pub bi_quiesce_cache : ℕ → ℕ
bi_quiesce_cache time = (time + tsc_mod - flush_grace_period) % tsc_mod

pub bi_quiesce : Readers → ℕ → ℕ
bi_quiesce rs time = bi_quiesce_cache (bi_quiesce_smr rs time)

-- `bi_enter` on a core, at the reading `curr_time` of the clock; the argument is
-- `parsec_time_cache`.
unfoldable pub bi_enter : (ℕ → Parsec) → (core curr_time : ℕ) → ℕ → Parsec
bi_enter cache core curr_time =
    update cache core
      (record { time_in = curr_time; time_out = (curr_time + tsc_mod - 1) % tsc_mod })

unfoldable pub bi_exit : (ℕ → Parsec) → (core : ℕ) → ℕ → Parsec
bi_exit cache core =
    update cache core (record (cache core) { time_out = ((cache core).time_in + 1) % tsc_mod })

-- The copy of a node's `parsec_time_cache` to the shared memory.
unfoldable pub bi_time_flush : (node : ℕ) → (ℕ → Parsec) → Readers → Readers
bi_time_flush node cache rs = record rs { parsec_times = update rs.parsec_times node cache }
