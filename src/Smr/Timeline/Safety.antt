-- ===== src/Smr/Timeline/Safety.antt =====
-- No object is handed back while a reader that can hold it is inside (libs/bi/bi_smr.c).
use bi_project.Base.{
  ◌==◌, Bool-cases, ==→eq, All, All-mono, update, ℕ, ◌+◌, ◌-◌, ◌%◌, ◌≤◌, ◌<◌, ◌≡◌, refl, ◌∙◌, ◌⊎◌,
  inl, inr, true, some, arith,
}
use bi_project.Smr.Ring.{QscRing}
use bi_project.Smr.Ring.Fifo.{IsRing, contents}
use bi_project.Smr.Quiesce.{
  tsc_mod, flush_grace_period, Parsec, ps_in_lib, bi_enter, bi_exit, bi_time_flush, bi_quiesce,
  bi_quiesce_smr, Readers,
}
use bi_project.Smr.Quiesce.Bounds.{quiesce_grace}
use bi_project.Smr.Reclaim.{Reclaimed, bi_smr_reclaim}
use bi_project.Smr.Reclaim.Expired.{expired, expired-due, reclaim-expired}
use bi_project.Smr.Timeline.{World, start, Step, tick, enter, leave, copy, Reach, here, next}

-- A reader that is inside is known to the shared memory with its entry time, or has entered since the
-- last copy.
abbrev Known : (seen own : Parsec) (copied : ℕ) → Type 0
Known seen own copied =
    ps_in_lib own ≡ true
    → ((ps_in_lib seen ≡ true) × (seen.time_in ≡ own.time_in)) ⊎ (copied ≤ own.time_in)

record IsKnown (w : World) : Type 0 where
  past : (n : ℕ) → w.copied n ≤ w.now
  clock : w.now < tsc_mod
  known : (n c : ℕ) → Known (w.shared.parsec_times n c) (w.caches n c) (w.copied n)

-- After a change of one core's stamps the others are known as before.
change-Known :
    (w : World) (i j : ℕ) (p : Parsec)
    → IsKnown w
    → Known (w.shared.parsec_times i j) p (w.copied i)
    → (n c : ℕ)
    → Known
        (w.shared.parsec_times n c)
        (update w.caches i (update (w.caches i) j p) n c)
        (w.copied n)
change-Known w i j p k new n c = elim (Bool-cases (i == n)) [
  | inr ne ↦ rw ne (k.known n c)
  | inl e ↦
      rw (e, ==→eq i n e)
        (elim (Bool-cases (j == c)) [
          | inr ne ↦ rw ne (k.known n c)
          | inl e' ↦ let new' = rw (==→eq i n e, ==→eq j c e') at new in rw e' new'
        ])
]

own_enter :
    (cache : ℕ → Parsec) (c t : ℕ)
    → bi_enter cache c t
      ≡ update cache c (record { time_in = t; time_out = (t + tsc_mod - 1) % tsc_mod })
unfolding bi_enter
own_enter cache c t = refl

own_exit :
    (cache : ℕ → Parsec) (c : ℕ)
    → bi_exit cache c
      ≡ update cache c (record (cache c) { time_out = ((cache c).time_in + 1) % tsc_mod })
unfolding bi_exit
own_exit cache c = refl

-- `bi_time_flush` makes the node's own stamps the ones that the memory holds.
copy-Known :
    (w : World) (i : ℕ)
    → IsKnown w
    → (n c : ℕ)
    → Known
        ((bi_time_flush i (w.caches i) w.shared).parsec_times n c)
        (w.caches n c)
        (update w.copied i w.now n)
unfolding bi_time_flush
copy-Known w i k n c = elim (Bool-cases (i == n)) [
  | inr ne ↦ rw ne (k.known n c)
  | inl e ↦ rw (e, ==→eq i n e) (λ inside. inl (inside, refl))
]

Step-IsKnown : {w w' : World} → Step w w' → IsKnown w → IsKnown w'
Step-IsKnown (tick w t on small) k = record {
  past = λ n. omega (arith, k.past n);
  clock = small;
  known = k.known;
}
Step-IsKnown (enter w n c pos outside) k = record {
  past = k.past;
  clock = k.clock;
  known = rw (own_enter (w.caches n) c w.now) (change-Known w n c _ k (λ inside. inr (k.past n)));
}
Step-IsKnown (leave w n c inside) k = record {
  past = k.past;
  clock = k.clock;
  known = rw (own_exit (w.caches n) c) (change-Known w n c _ k (λ still. k.known n c inside));
}
Step-IsKnown (copy w n) k = record {
  past = λ j. elim (Bool-cases (n == j)) [ inl e ↦ rw e (omega arith) | inr ne ↦ rw ne (k.past j) ];
  clock = k.clock;
  known = copy-Known w n k;
}

start-IsKnown : (curr tot_cpu tot_core : ℕ) → IsKnown (start curr tot_cpu tot_core)
start-IsKnown curr tot_cpu tot_core = record {
  past = λ n. omega arith;
  clock = omega arith;
  known = λ n c inside. inl (inside, refl);
}

Reach-IsKnown : {s w : World} → IsKnown s → Reach s w → IsKnown w
Reach-IsKnown k here = k
Reach-IsKnown k (next r st) = Step-IsKnown st (Reach-IsKnown k r)

Step-nodes :
    {w w' : World}
    → Step w w'
    → (w'.shared.curr ≡ w.shared.curr)
      × (w'.shared.tot_cpu ≡ w.shared.tot_cpu)
      × (w'.shared.tot_core ≡ w.shared.tot_core)
unfolding bi_time_flush
Step-nodes (tick w t on small) = (refl, refl, refl)
Step-nodes (enter w n c pos outside) = (refl, refl, refl)
Step-nodes (leave w n c inside) = (refl, refl, refl)
Step-nodes (copy w n) = (refl, refl, refl)

Reach-nodes :
    {s w : World}
    → Reach s w
    → (w.shared.curr ≡ s.shared.curr)
      × (w.shared.tot_cpu ≡ s.shared.tot_cpu)
      × (w.shared.tot_core ≡ s.shared.tot_core)
Reach-nodes here = (refl, refl, refl)
Reach-nodes (next r st) =
    let (a, b, c) = Reach-nodes r in let (a', b', c') = Step-nodes st in (a' ∙ a, b' ∙ b, c' ∙ c)

-- When every node in use has copied less than a grace period ago, each item that a writer's
-- reclamation takes was freed before each reader that is inside entered.
pub reclaim_after_readers :
    (curr tot_cpu tot_core : ℕ) (w : World) (node : ℕ) (ql : QscRing)
    → Reach (start curr tot_cpu tot_core) w
    → node < tot_cpu
    → IsRing ql
    → let rs : Readers = record (w.shared) { curr = node } in
      flush_grace_period ≤ bi_quiesce_smr rs w.now
      → ((n : ℕ) → n < tot_cpu → w.now < w.copied n + flush_grace_period)
      → (out : Reclaimed) × (bi_smr_reclaim rs w.now ql ≡ some out)
        × All
            (λ a.
              (n c : ℕ)
              → n < tot_cpu
              → c < tot_core
              → ps_in_lib (w.caches n c) ≡ true
              → a.tsc_free < (w.caches n c).time_in)
            out.taken
reclaim_after_readers curr tot_cpu tot_core w node ql r cur v late timely =
    let k = Reach-IsKnown (start-IsKnown curr tot_cpu tot_core) r in
    let (out, done, taken, _, _, _) = (reclaim-expired rs w.now ql v).0 in
    (
      out,
      done,
      rw taken (
          All-mono (λ a. a.tsc_free ≤ bi_quiesce rs w.now) _
            (expired (bi_quiesce rs w.now) (contents ql))
            (λ a due n c lt core inside. omega (arith, due, before k n c lt core inside))
            (expired-due (bi_quiesce rs w.now) (contents ql))),
    )
  where
    rs : Readers
    rs = record (w.shared) { curr = node }

    before :
        IsKnown w
        → (n c : ℕ) → n < tot_cpu
        → c < tot_core
        → ps_in_lib (w.caches n c) ≡ true
        → bi_quiesce rs w.now < (w.caches n c).time_in
    before k n c lt core inside =
        let (curr_same, cpu_same, core_same) = Reach-nodes r in
        let (whole, below) = quiesce_grace rs w.now (rw cpu_same cur) k.clock late in
        elim (k.known n c inside) [
          | inl (seen, same) ↦
              omega (arith, below n c (rw cpu_same lt) (rw core_same core) seen, same)
          | inr since ↦ omega (arith, whole, timely n lt, since)
        ]
