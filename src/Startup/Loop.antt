-- ===== src/Startup/Loop.antt =====
-- The loop of `bi_server_run` (libs/bi/bi_init.c): now and then the server of a node copies its time
-- stamps, flushes its cache and reclaims. All servers read one clock, so that the refresh of the
-- shared clock changes nothing; the messages are Rpc's; `flush_fn` and `update_fn` are the caller's.
pub mod Timely
use bi_project.Base.{
  ltb, leb, ◌==◌, if◌then◌else◌, Bool-cases, ltb→lt, ltb→le, lt→ltb, le→ltb, leb→le, leb→lt, le→leb,
  ==→eq, ==→ne, eq→==, ne→==, tests, length, length-append, All, All-append, All-mono, has, update,
  update_self, update_ne, ℕ, zero, suc, ◌+◌, ◌-◌, ◌*◌, ◌/◌, ◌%◌, ◌^◌, ◌≤◌, ◌<◌, ◌≡◌, refl, sym, ap,
  ap₂, ◌∙◌, ◌≢◌, ◌↔◌, ◌⊎◌, inl, inr, Bool, true, false, not, ◌&&◌, ◌||◌, Option, none, some, List,
  [], ◌∷◌, ◌++◌, map, append_assoc, append-nil, arith,
}
use bi_project.Base.Run.{◌>>=◌, ◌>>◌, check}
use bi_project.Smr.Ring.{QuiesItem, QscRing}
use bi_project.Smr.LocalCache.{QscLocalCache}
use bi_project.Smr.Quiesce.{tsc_mod, Readers, bi_time_flush}
use bi_project.Smr.Reclaim.{Reclaimed, bi_smr_reclaim}
use bi_project.Smr.Flush.{bi_smr_flush}
use bi_project.Smr.Timeline.{World, start, Step}

-- QUISE_FLUSH_PERIOD
abbrev pub quise_flush_period : ℕ
quise_flush_period = 2000000

-- The clock and the time stamps, and for each node the variable `flush_prev` of its server, the
-- reading of the clock in its last round, and its local cache with its ring.
pub record Servers : Type 0 where
  pub world : World
  pub flush_prev : ℕ → ℕ
  pub seen : ℕ → ℕ
  pub stores : ℕ → QscLocalCache

-- The world after a node's `bi_time_flush`
abbrev pub copied_by : ℕ → World → World
copied_by node w = record w {
  shared = bi_time_flush node (w.caches node) w.shared;
  copied = update w.copied node w.now;
}

-- The end of a round that is due: what the reclamation took, and what it leaves.
abbrev pub reclaimed_by :
    (node : ℕ) → Servers → QscLocalCache → Reclaimed → List QuiesItem × Servers
reclaimed_by node s lc out = (
  out.taken,
  record s {
    world = copied_by node s.world;
    flush_prev = update s.flush_prev node s.world.now;
    seen = update s.seen node s.world.now;
    stores = update s.stores node (record lc { ql = out.ring });
  },
)

-- The stamps that the reclamation of a round reads
abbrev pub readers_of : (node : ℕ) → Servers → Readers
readers_of node s = record ((copied_by node s.world).shared) { curr = node }

abbrev pub reclaim_of :
    (node : ℕ) → Servers → ℕ × List (ℕ × ℕ) × QscLocalCache → Option (List QuiesItem × Servers)
reclaim_of node s flushed =
    bi_smr_reclaim (readers_of node s) s.world.now flushed.2.ql
    >>= (λ out. some (reclaimed_by node s flushed.2 out))

-- The calls of a round that is due, with the items that it takes out of use: `bi_time_flush`,
-- `bi_smr_flush` and `bi_smr_reclaim`
pub due_round : (tsc : ℕ → ℕ) → (node : ℕ) → Servers → Option (List QuiesItem × Servers)
due_round tsc node s =
    bi_smr_flush tsc (λ n. (s.stores n).ql) node (readers_of node s).tot_cpu (s.stores node)
    >>= reclaim_of node s

-- One round of the loop. The difference of the clock's readings wraps.
pub server_round : (tsc : ℕ → ℕ) → (node : ℕ) → Servers → Option (List QuiesItem × Servers)
unfolding due_round
server_round tsc node s =
    let curr = s.world.now in
    if ltb quise_flush_period ((curr + tsc_mod - s.flush_prev node) % tsc_mod)
    then due_round tsc node s
    else some ([], record s { seen = update s.seen node curr })

-- The states that the nodes come to when the rounds of each server are at most `gap` cycles apart. Readers
-- enter and leave, and writers fill the local caches, at any time.
pub data Runs (gap tot_cpu tot_core : ℕ) : Servers → Type 0 where
  boots :
      (stores : ℕ → QscLocalCache)
      → Runs gap tot_cpu tot_core (record {
        world = start 0 tot_cpu tot_core;
        flush_prev = λ n. 0;
        seen = λ n. 0;
        stores = stores;
      })
  acts :
      (s : Servers) (w : World)
      → Runs gap tot_cpu tot_core s
      → Step s.world w
      → ((n : ℕ) → n < tot_cpu → w.now ≤ s.seen n + gap)
      → Runs gap tot_cpu tot_core (record s { world = w })
  frees :
      (s : Servers) (stores : ℕ → QscLocalCache)
      → Runs gap tot_cpu tot_core s
      → Runs gap tot_cpu tot_core (record s { stores = stores })
  serves :
      (tsc : ℕ → ℕ) (node : ℕ) (s s' : Servers) (taken : List QuiesItem)
      → node < tot_cpu
      → Runs gap tot_cpu tot_core s
      → server_round tsc node s ≡ some (taken, s')
      → Runs gap tot_cpu tot_core s'
