-- ===== src/Startup/Tests.antt =====
-- The start barrier and the servers' loop on concrete inputs.
use bi_project.Base.{
  ltb, All, has, update, ℕ, ◌+◌, ◌-◌, ◌%◌, ◌<◌, ◌≡◌, refl, true, some, List, [], ◌∷◌, arith,
}
use bi_project.Smr.Ring.{QuiesItem, qsc_ring_len}
use bi_project.Smr.Ring.Fifo.{IsRing}
use bi_project.Smr.LocalCache.{QscLocalCache}
use bi_project.Smr.Quiesce.{
  tsc_mod, parsec_struct_init, ps_in_lib, core_loop, node_loop, bi_quiesce_smr, bi_enter,
  bi_time_flush,
}
use bi_project.Smr.Timeline.{start, tick, enter}
use bi_project.Startup.{serve, before_start, barrier_step, schedule}
use bi_project.Startup.Barrier.{HasStarted, barrier_holds}
use bi_project.Startup.Barrier.Fair.{IsRound, rounds_of, barrier_ends}
use bi_project.Startup.Loop.{
  quise_flush_period, Servers, readers_of, server_round, Runs, boots, acts, frees, serves,
}
use bi_project.Startup.Loop.Timely.{due-ends, server_reclaims_safely}

-- Node 1 arrives, node 0 sees it and raises its own bar, and node 1 goes on.
serves_last : (schedule 2 (1 ∷ (0 ∷ (0 ∷ (1 ∷ [])))) before_start).phases 1 ≡ serve
unfolding schedule barrier_step before_start
serves_last = refl

barrier_holds_example :
    ((schedule 2 (1 ∷ (0 ∷ (0 ∷ (1 ∷ [])))) before_start).phases 0 ≡ serve)
    × ((m : ℕ) → m < 2 → HasStarted (schedule 2 (1 ∷ (0 ∷ (0 ∷ (1 ∷ [])))) before_start) m)
barrier_holds_example =
    barrier_holds 2 (1 ∷ (0 ∷ (0 ∷ (1 ∷ [])))) 1 (omega arith)
      (omega arith, (omega arith, (omega arith, (omega arith, tt)))) serves_last

-- Both nodes in turn
abbrev both : List ℕ
both = 0 ∷ (1 ∷ [])

both-IsRound : IsRound 2 both
both-IsRound = ((omega arith, (omega arith, tt)), in_both)
  where
    in_both : (n : ℕ) → n < 2 → has n both ≡ true
    in_both n lt = ground arith

barrier_ends_example :
    (rounds_of 2 (both ∷ (both ∷ (both ∷ (both ∷ [])))) (schedule 2 (1 ∷ []) before_start)).phases 1
    ≡ serve
barrier_ends_example =
    barrier_ends 2 (1 ∷ []) (both ∷ (both ∷ (both ∷ (both ∷ [])))) (omega arith) (omega arith, tt)
      (both-IsRound, (both-IsRound, (both-IsRound, (both-IsRound, tt)))) (omega arith) 1
      (omega arith)

-- Each node's ring has an item that was freed at 100.
abbrev store : QscLocalCache
store = record {
  m = λ i. 0;
  sz = λ i. 0;
  ql = record { head = 3; tail = 4; ring = λ i. record { mh = 4096; sz = 64; tsc_free = 100 } };
  cnt = 0;
}

store-IsRing : IsRing store.ql
store-IsRing = record { head_in = omega arith; tail_in = omega arith }

store-len : qsc_ring_len store.ql ≡ 1
unfolding qsc_ring_len
store-len = refl

abbrev booted : Servers
booted = record {
  world = record (start 0 2 2) { now = 7000000 };
  flush_prev = λ n. 0;
  seen = λ n. 0;
  stores = λ n. store;
}

booted-Runs : Runs 7999999 2 2 booted
booted-Runs =
    acts _ _ (boots (λ n. store)) (tick (start 0 2 2) 7000000 (omega arith) (omega arith))
      (λ n lt. omega arith)

-- A server's round that is due, with fresh rings behind it.
abbrev after : ℕ → Servers → Servers
after node s = record s {
  world = record (s.world) {
    shared = bi_time_flush node (s.world.caches node) s.world.shared;
    copied = update s.world.copied node s.world.now;
  };
  flush_prev = update s.flush_prev node s.world.now;
  seen = update s.seen node s.world.now;
  stores = λ n. store;
}

after-Runs :
    (node : ℕ) (s : Servers)
    → node < 2
    → ltb quise_flush_period ((s.world.now + tsc_mod - s.flush_prev node) % tsc_mod) ≡ true
    → s.stores ≡ (λ n. store)
    → Runs 7999999 2 2 s
    → Runs 7999999 2 2 (after node s)
after-Runs node s lt due same r =
    let (lc, out, _, _, done) =
      due-ends (λ i. 7000000) node s due (λ n. rw same store-IsRing)
        (rw same (omega (arith, store-len))) in
    frees _ (λ n. store) (serves (λ i. 7000000) node s _ _ lt r done)

-- Both servers had a round, a reader of node 1 entered, and time went on.
abbrev entered : Servers
entered =
    let s = after 1 (after 0 booted) in
    let w = s.world in
    record s { world = record w { caches = update w.caches 1 (bi_enter (w.caches 1) 0 7000000) } }

abbrev busy : Servers
busy = let w = entered.world in record entered { world = record w { now = 14000000 } }

busy-Runs : Runs 7999999 2 2 busy
unfolding ps_in_lib parsec_struct_init
busy-Runs =
    let r =
      after-Runs 1 (after 0 booted) (omega arith) refl refl
        (after-Runs 0 booted (omega arith) refl refl booted-Runs) in
    let r' =
      acts _ entered.world r (enter (after 1 (after 0 booted)).world 1 0 (omega arith) refl)
        (λ n lt. ground arith) in
    acts _ busy.world r' (tick entered.world 14000000 (omega arith) (omega arith))
      (λ n lt. ground arith)

quiesce_busy : bi_quiesce_smr (readers_of 0 busy) 14000000 ≡ 14000000
unfolding ps_in_lib core_loop node_loop bi_quiesce_smr bi_enter bi_time_flush parsec_struct_init
quiesce_busy = refl

server_reclaims_safely_example :
    (taken : List QuiesItem) × (s' : Servers) × (server_round (λ i. 14000000) 0 busy
      ≡ some (taken, s'))
    × Runs 7999999 2 2 s'
    × All
        (λ a.
          (n c : ℕ)
          → n < 2
          → c < 2
          → ps_in_lib (busy.world.caches n c) ≡ true
          → a.tsc_free < (busy.world.caches n c).time_in)
        taken
server_reclaims_safely_example =
    server_reclaims_safely 7999999 2 2 busy (λ i. 14000000) 0 busy-Runs (omega arith) (omega arith)
      (λ n. store-IsRing) (omega (arith, store-len)) (omega (arith, quiesce_busy))
