-- ===== src/Startup/Loop/Timely.antt =====
-- The servers copy the time stamps often enough, so that what they reclaim is out of use.
use bi_project.Base.{
  ltb, ◌==◌, Bool-cases, ltb→le, ==→eq, All, update, ℕ, ◌+◌, ◌-◌, ◌%◌, ◌≤◌, ◌<◌, ◌≡◌, refl, sym, ap,
  ◌∙◌, inl, inr, true, false, some, List, [], arith,
}
use mathlib.Core.Option.{some-injective}
use bi_project.Base.Run.{>>=-eq-some}
use bi_project.Smr.Ring.{QuiesItem, max_qui_ring_len, qsc_ring_len}
use bi_project.Smr.Ring.Fifo.{IsRing}
use bi_project.Smr.LocalCache.{QscLocalCache}
use bi_project.Smr.Quiesce.{tsc_mod, flush_grace_period, ps_in_lib, bi_quiesce_smr}
use bi_project.Smr.Reclaim.{Reclaimed, bi_smr_reclaim}
use bi_project.Smr.Reclaim.Expired.{reclaim-expired}
use bi_project.Smr.Flush.{bi_smr_flush}
use bi_project.Smr.Flush.Complete.{smr_flush-all}
use bi_project.Smr.Timeline.{World, start, Step, tick, enter, leave, copy, Reach, here, next}
use bi_project.Smr.Timeline.Safety.{reclaim_after_readers}
use bi_project.Startup.Loop.{
  quise_flush_period, Servers, copied_by, readers_of, reclaim_of, reclaimed_by, due_round,
  server_round, Runs, boots, acts, frees, serves,
}

-- The times of the last rounds and copies, with the clock.
record IsTimely (gap tot_cpu tot_core : ℕ) (s : Servers) : Type 0 where
  reach : Reach (start 0 tot_cpu tot_core) s.world
  small : s.world.now < tsc_mod
  flushed : (n : ℕ) → s.flush_prev n ≤ s.world.copied n
  past : (n : ℕ) → (s.flush_prev n ≤ s.world.now) × (s.seen n ≤ s.world.now)
  recent : (n : ℕ) → s.seen n ≤ s.flush_prev n + quise_flush_period
  soon : (n : ℕ) → n < tot_cpu → s.world.now ≤ s.seen n + gap

-- The clock and the copies after a step
Step-times :
    {w w' : World}
    → Step w w'
    → w.now < tsc_mod
    → (w.now ≤ w'.now)
      × (w'.now < tsc_mod)
      × ((n t : ℕ) → t ≤ w.copied n → t ≤ w.now → t ≤ w'.copied n)
Step-times (tick w t on small) lt = (on, small, λ n t le past. le)
Step-times (enter w n c pos outside) lt = (omega arith, lt, λ n t le past. le)
Step-times (leave w n c inside) lt = (omega arith, lt, λ n t le past. le)
Step-times (copy w n) lt = (omega arith, lt, λ m t le past. newer w.copied n m w.now t le past)
  where
    newer : (f : ℕ → ℕ) (n m now t : ℕ) → t ≤ f m → t ≤ now → t ≤ update f n now m
    newer f n m now t le past = ground arith

-- A time that is written for one node
at_most : (f : ℕ → ℕ) (n m v t : ℕ) → f m ≤ t → v ≤ t → update f n v m ≤ t
at_most f n m v t le le' = ground arith

both_written : (f g : ℕ → ℕ) (n m v d : ℕ) → f m ≤ g m + d → update f n v m ≤ update g n v m + d
both_written f g n m v d le = ground arith

latest : (f : ℕ → ℕ) (n m v d : ℕ) → v ≤ f m + d → v ≤ update f n v m + d
latest f n m v d le = ground arith

-- What a round that is due leaves
due-result :
    (tsc : ℕ → ℕ) (node : ℕ) (s s' : Servers) (taken : List QuiesItem)
    → due_round tsc node s ≡ some (taken, s')
    → (lc : QscLocalCache) × (s' ≡ record s {
      world = copied_by node s.world;
      flush_prev = update s.flush_prev node s.world.now;
      seen = update s.seen node s.world.now;
      stores = update s.stores node lc;
    })
unfolding due_round
due-result tsc node s s' taken e =
    let (flushed, _, e') =
      >>=-eq-some
        (bi_smr_flush tsc (λ n. (s.stores n).ql) node (readers_of node s).tot_cpu (s.stores node))
        (reclaim_of node s) e in
    let (out, _, e'') =
      >>=-eq-some (bi_smr_reclaim (readers_of node s) s.world.now flushed.2.ql)
        (λ out. some (reclaimed_by node s flushed.2 out)) e' in
    (
      record (flushed.2) { ql = out.ring },
      sym (ap (λ x. x.1) (some-injective (reclaimed_by node s flushed.2 out) (taken, s') e'')),
    )

due-IsTimely :
    (gap tot_cpu tot_core node : ℕ) (s : Servers) (lc : QscLocalCache)
    → IsTimely gap tot_cpu tot_core s
    → IsTimely gap tot_cpu tot_core (record s {
      world = copied_by node s.world;
      flush_prev = update s.flush_prev node s.world.now;
      seen = update s.seen node s.world.now;
      stores = update s.stores node lc;
    })
due-IsTimely gap tot_cpu tot_core node s lc i = record {
  reach = next i.reach (copy s.world node);
  small = i.small;
  flushed = λ n. omega (
    arith,
    both_written s.flush_prev s.world.copied node n s.world.now 0 (omega (arith, i.flushed n)),
  );
  past = λ n. (
    at_most s.flush_prev node n s.world.now s.world.now (i.past n).0 (omega arith),
    at_most s.seen node n s.world.now s.world.now (i.past n).1 (omega arith),
  );
  recent = λ n. both_written s.seen s.flush_prev node n s.world.now quise_flush_period (i.recent n);
  soon = λ n lt. latest s.seen node n s.world.now gap (i.soon n lt);
}

-- A round that is not due
idle-IsTimely :
    (gap tot_cpu tot_core node : ℕ) (s : Servers)
    → ltb quise_flush_period ((s.world.now + tsc_mod - s.flush_prev node) % tsc_mod) ≡ false
    → IsTimely gap tot_cpu tot_core s
    → IsTimely gap tot_cpu tot_core (record s { seen = update s.seen node s.world.now })
idle-IsTimely gap tot_cpu tot_core node s idle i = record {
  reach = i.reach;
  small = i.small;
  flushed = i.flushed;
  past =
      λ n. ((i.past n).0, at_most s.seen node n s.world.now s.world.now (i.past n).1 (omega arith));
  recent = λ n. elim (Bool-cases (node == n)) [
    | inl e ↦
        rw (e, sym (==→eq node n e))
          (within s.world.now (s.flush_prev node) (i.past node).0 i.small (ltb→le _ _ idle))
    | inr ne ↦ rw ne (i.recent n)
  ];
  soon = λ n lt. latest s.seen node n s.world.now gap (i.soon n lt);
}
  where
    within :
        (now prev : ℕ)
        → prev ≤ now
        → now < tsc_mod
        → (now + tsc_mod - prev) % tsc_mod ≤ quise_flush_period
        → now ≤ prev + quise_flush_period
    within now prev le small close = omega arith

Runs-IsTimely :
    {gap tot_cpu tot_core : ℕ} {s : Servers}
    → Runs gap tot_cpu tot_core s
    → IsTimely gap tot_cpu tot_core s
unfolding server_round
Runs-IsTimely (boots stores) = record {
  reach = here;
  small = omega arith;
  flushed = λ n. omega arith;
  past = λ n. (omega arith, omega arith);
  recent = λ n. omega arith;
  soon = λ n lt. omega arith;
}
Runs-IsTimely (acts s w r st soon) =
    let i = Runs-IsTimely r in
    let (on, small, newer) = Step-times st i.small in
    record {
      reach = next i.reach st;
      small = small;
      flushed = λ n. newer n (s.flush_prev n) (i.flushed n) (i.past n).0;
      past = λ n. (omega (arith, on, (i.past n).0), omega (arith, on, (i.past n).1));
      recent = i.recent;
      soon = soon;
    }
Runs-IsTimely (frees s stores r) =
    let i = Runs-IsTimely r in
    record {
      reach = i.reach;
      small = i.small;
      flushed = i.flushed;
      past = i.past;
      recent = i.recent;
      soon = i.soon;
    }
Runs-IsTimely {gap} {tot_cpu} {tot_core} (serves tsc node s s' taken lt r e) =
    let i = Runs-IsTimely r in
    elim (Bool-cases
      (ltb quise_flush_period ((s.world.now + tsc_mod - s.flush_prev node) % tsc_mod))) [
        | inl due ↦
            let (lc, same) = due-result tsc node s s' taken (rw due at e) in
            rw same (due-IsTimely gap tot_cpu tot_core node s lc i)
        | inr idle ↦
            let kept : List QuiesItem × Servers =
              ([], record s { seen = update s.seen node s.world.now }) in
            let same = ap (λ x. x.1) (some-injective kept (taken, s') (rw idle at e)) in
            rw (sym same) (idle-IsTimely gap tot_cpu tot_core node s idle i)
      ]

-- A due round ends, with well formed rings and room in the node's own.
pub due-ends :
    (tsc : ℕ → ℕ) (node : ℕ) (s : Servers)
    → ltb quise_flush_period ((s.world.now + tsc_mod - s.flush_prev node) % tsc_mod) ≡ true
    → ((n : ℕ) → IsRing (s.stores n).ql)
    → let lc = s.stores node in
      qsc_ring_len lc.ql + lc.cnt < max_qui_ring_len
      → (lc : QscLocalCache) × (out : Reclaimed) × IsRing lc.ql
        × (bi_smr_reclaim (readers_of node s) s.world.now lc.ql ≡ some out)
        × (server_round tsc node s ≡ some (reclaimed_by node s lc out))
unfolding server_round due_round
due-ends tsc node s due rings room =
    let (lc, v, _, _, flushed) =
      smr_flush-all tsc (λ n. (s.stores n).ql) node (readers_of node s).tot_cpu (s.stores node)
        rings (rings node) room in
    let (out, taken, _, _, _, _) = (reclaim-expired (readers_of node s) s.world.now lc.ql v).0 in
    (lc, out, v, taken, rw (due, flushed, taken) refl)

-- Let readers enter and leave, writers fill the caches and the servers of all nodes run their
-- rounds, on one clock, from a start with nobody inside; sections of one core do not nest, and the
-- rounds of a server are so close that they and the flush period are less than a grace period. When
-- the rings are well formed, the local cache fits in its ring and the quiescent time that it
-- computes is at least a grace period, the next round of any server ends, the run goes on with it,
-- and every item that it takes out of use was freed before each reader that is inside on a core in
-- use entered, also one whose entry is not yet in the shared memory.
pub server_reclaims_safely :
    (gap tot_cpu tot_core : ℕ) (s : Servers) (tsc : ℕ → ℕ) (node : ℕ)
    → Runs gap tot_cpu tot_core s
    → quise_flush_period + gap < flush_grace_period
    → node < tot_cpu
    → ((n : ℕ) → IsRing (s.stores n).ql)
    → let lc = s.stores node in
      qsc_ring_len lc.ql + lc.cnt < max_qui_ring_len
      → flush_grace_period ≤ bi_quiesce_smr (readers_of node s) s.world.now
      → (taken : List QuiesItem) × (s' : Servers) × (server_round tsc node s ≡ some (taken, s'))
        × Runs gap tot_cpu tot_core s'
        × All
            (λ a.
              (n c : ℕ)
              → n < tot_cpu
              → c < tot_core
              → ps_in_lib (s.world.caches n c) ≡ true
              → a.tsc_free < (s.world.caches n c).time_in)
            taken
unfolding server_round
server_reclaims_safely gap tot_cpu tot_core s tsc node r period lt rings room late =
    let i = Runs-IsTimely r in
    elim (Bool-cases
      (ltb quise_flush_period ((s.world.now + tsc_mod - s.flush_prev node) % tsc_mod))) [
        | inr idle ↦
            let kept : Servers = record s { seen = update s.seen node s.world.now } in
            let done : server_round tsc node s ≡ some ([], kept) = rw idle refl in
            ([], kept, done, serves tsc node s kept [] lt r done, tt)
        | inl due ↦
            let (lc, out, v, taken, done) = due-ends tsc node s due rings room in
            let i' = due-IsTimely gap tot_cpu tot_core node s lc i in
            let (out', taken', safe) =
              reclaim_after_readers 0 tot_cpu tot_core (copied_by node s.world) node lc.ql i'.reach
                lt v late
                (λ n below. omega (arith, period, i'.flushed n, i'.recent n, i'.soon n below)) in
            let same = ap (λ r. r.taken) (some-injective out' out (sym taken' ∙ taken)) in
            let (took, s') = reclaimed_by node s lc out in
            (took, s', done, serves tsc node s s' took lt r done, rw same at safe)
      ]
