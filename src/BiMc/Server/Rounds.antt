-- ===== src/BiMc/Server/Rounds.antt =====
-- The rounds of `mc_server_start` (mc_code/bi_mc/memcache.c): the periodic tasks and the messages on
-- a server that keeps its invariant.
use bi_project.BiMc.{grace, QscRing, Env, Node, mem_smr_reclaim}
use bi_project.BiMc.Laws.{Laws}
use bi_project.BiMc.Ring.{IsQueue}
use bi_project.BiMc.Ring.Expired.{IsQuiescing, ReclaimsTo, mem_smr_reclaim-expired}
use bi_project.BiMc.Ring.Reclaim.{Distinct, released, released-append}
use bi_project.BiMc.Ring.Lists.{All-left, All-right, All-both, Distinct-right, Distinct-apart}
use bi_project.BiMc.Keys.Serving.{IsServing}
use bi_project.BiMc.Server.{
  hash_flush_period, mem_balance_period, McMsg, mc_hashtbl_flush, Loop, since, flush_task,
  balance_task, receive, round,
}
use bi_project.BiMc.Server.Flush.{mc_hashtbl_flush-both}
use bi_project.Base.{
  ltb, Bool-cases, length, All, All-append, All-mono, ℕ, ◌+◌, ◌-◌, ◌*◌, ◌^◌, ◌≤◌, ◌<◌, ◌≡◌, refl,
  sym, ap, ◌∙◌, ◌≢◌, inl, inr, Option, some, List, [], ◌++◌, append_assoc, arith,
}
use bi_project.Base.Run.{if_true, if_false, bind_some}

apart_from : (q : List ℕ) (a : ℕ) → All (λ c. c ≢ a) q → All (λ c. a ≢ c) q
apart_from q a h = All-mono _ _ q (λ c ne e. ne (sym e)) h

module _ {L : Type 0} (env : Env L) (curr base : ℕ) (laws : Laws env curr base) where
  -- The state `n'` after reclamations: the first of the objects in the queue went back to the
  -- allocator, each when the grace time since it was freed was over; the table and all objects are as
  -- they were.
  unfoldable pub Later : (n n' : Node L) → (q : List ℕ) → Type 0
  Later n n' q =
      (freed rest : List ℕ) × (q ≡ freed ++ rest)
      × IsServing env curr base laws n' rest
      × (n'.objs ≡ n.objs)
      × (n'.table ≡ n.table)
      × (n'.lists ≡ released env base freed n.lists)
      × (n.ticks ≤ n'.ticks)
      × All (λ a. (k : ℕ) × (k ≤ n'.ticks) × ((n.objs a).tsc_free + grace ≤ env.tsc k)) freed

  reclaim-Later :
      (n : Node L) (q : List ℕ)
      → IsServing env curr base laws n q
      → grace ≤ env.tsc n.ticks
      → env.tsc n.ticks < 2 ^ 64
      → (r : ℕ × Node L) × (mem_smr_reclaim env curr n ≡ some r) × Later n (r.1) q
  unfolding IsServing IsQuiescing ReclaimsTo Later
  reclaim-Later n q (h, links, unique) le lt =
      let (freed, rest, ql, l, st, k, split, done, hq, old, waits, count, hb, back, keep, later) =
        mem_smr_reclaim-expired env curr base laws n q h le lt in
      let dis : Distinct (freed ++ rest) = rw split at h.1 in
      let held : All (laws.Held n.lists) (freed ++ rest) = rw split at h.2 in
      let keeps =
        (λ (q' : List ℕ) (hs : All (laws.Held n.lists) q')
            (ne : All (λ b. All (λ a. b ≢ a) freed) q').
          All-both (laws.Held n.lists) (λ b. All (λ a. b ≢ a) freed) (laws.Held l) q' keep hs ne) in
      (
        (env.objmem * length freed, record n { qsc_list = ql; lists = l; status = st; ticks = k }),
        done,
        (
          freed,
          rest,
          split,
          (
            (
              hq,
              Distinct-right freed rest dis,
              keeps rest (All-right (laws.Held n.lists) freed rest held)
                  (Distinct-apart freed rest dis),
              hb,
              count,
            ),
            λ b.
                All-mono _ _ (n.table b)
                  (λ a lk.
                    let out : All (λ c. c ≢ a) (freed ++ rest) = rw split at lk.5 in
                    (
                      lk.0,
                      keep a lk.1 (apart_from freed a (All-left (λ c. c ≢ a) freed rest out)),
                      lk.2,
                      lk.3,
                      lk.4,
                      All-right (λ c. c ≢ a) freed rest out,
                    ))
                  (links b),
            unique,
          ),
          refl,
          refl,
          back,
          later,
          All-mono _ _ freed (λ a h. (n.ticks, later, h)) old,
        ),
      )

  Later-refl : (n : Node L) (q : List ℕ) → IsServing env curr base laws n q → Later n n q
  unfolding Later
  Later-refl n q h = ([], q, refl, h, refl, refl, refl, omega arith, tt)

  -- The queue that is left
  queue_left : (n n' : Node L) (q : List ℕ) → Later n n' q → List ℕ
  unfolding Later
  queue_left n n' q l = l.1

  left-IsServing :
      (n n' : Node L) (q : List ℕ) (l : Later n n' q)
      → IsServing env curr base laws n' (queue_left n n' q l)
  unfolding Later queue_left
  left-IsServing n n' q l = l.3

  Later-tick :
      (n n' : Node L) (q : List ℕ) → Later (record n { ticks = n.ticks + 1 }) n' q → Later n n' q
  unfolding Later
  Later-tick n n' q (freed, rest, split, h, same_o, same_t, back, ticks, old) =
      (freed, rest, split, h, same_o, same_t, back, omega arith, old)

  Later-trans :
      (n m p : Node L) (q : List ℕ) (l : Later n m q) → Later m p (queue_left n m q l) → Later n p q
  unfolding Later queue_left
  Later-trans n m p q (freed, rest, split, h, same_o, same_t, back, ticks, old)
        (freed', rest', split', h', same_o', same_t', back', ticks', old') =
      (
        freed ++ freed',
        rest',
        split ∙ ap (λ x. freed ++ x) split' ∙ sym (append_assoc freed freed' rest'),
        h',
        same_o' ∙ same_o,
        same_t' ∙ same_t,
        back'
            ∙ ap (released env base freed') back
            ∙ sym (released-append env base freed freed' n.lists),
        omega arith,
        All-append _ freed freed'
            (All-mono _ _ freed (λ a x. (x.0, (let y = x.1 in omega arith), x.2)) old)
            (rw same_o at old'),
      )

  flushes_ring :
      (n' n : Node L) (q : List ℕ) (other : QscRing) (p : List ℕ)
      → Later n n' q
      → IsQueue other p
      → (f : ℕ × List (ℕ × List ℕ)) × (mc_hashtbl_flush n'.objs n'.table n'.qsc_list other ≡ some f)
  unfolding Later IsServing IsQuiescing
  flushes_ring n' n q other p (freed, rest, split, h, same_o, same_t, back, ticks, old) hp =
      (_, mc_hashtbl_flush-both n'.objs n'.table n'.qsc_list other rest p h.0.0 hp)

  -- What a task leaves
  TaskTo : Loop L → List ℕ → Option (Loop L) → Type 0
  TaskTo s q r = (s' : Loop L) × (r ≡ some s') × Later s.node s'.node q × (s'.e ≡ s.e)

  flush_task-TaskTo :
      (time : ℕ) (other : QscRing) (p : List ℕ) (s : Loop L) (q : List ℕ)
      → IsServing env curr base laws s.node q
      → IsQueue other p
      → grace ≤ env.tsc s.node.ticks
      → env.tsc s.node.ticks < 2 ^ 64
      → TaskTo s q (flush_task env curr time other s)
  unfolding TaskTo flush_task
  flush_task-TaskTo time other p s q h hp le lt =
      elim (Bool-cases (ltb hash_flush_period (time - since s.prev0 time))) [
        | inr early ↦ (
          record s { prev0 = since s.prev0 time },
          if_false _ _ early,
          Later-refl s.node q h,
          refl,
        )
        | inl due ↦
            let (r, done, later) = reclaim-Later s.node q h le lt in
            let (f, flushed) = flushes_ring (r.1) s.node q other p later hp in
            (
              record s { node = r.1; prev0 = time; num = s.num + f.0; db = s.db + 1 },
              if_true _ _ due ∙ bind_some _ done ∙ bind_some _ flushed,
              later,
              refl,
            )
      ]

  balance_task-TaskTo :
      (time : ℕ) (s : Loop L) (q : List ℕ)
      → IsServing env curr base laws s.node q
      → grace ≤ env.tsc s.node.ticks
      → env.tsc s.node.ticks < 2 ^ 64
      → TaskTo s q (balance_task env curr time s)
  unfolding TaskTo balance_task
  balance_task-TaskTo time s q h le lt =
      elim (Bool-cases (ltb mem_balance_period (time - since s.prev1 time))) [
        | inr early ↦ (
          record s { prev1 = since s.prev1 time },
          if_false _ _ early,
          Later-refl s.node q h,
          refl,
        )
        | inl due ↦
            let (r, done, later) = reclaim-Later s.node q h le lt in
            (record s { node = r.1; prev1 = time }, if_true _ _ due ∙ bind_some _ done, later, refl)
      ]

  -- The state of a round when it looks for a message
  unfoldable pub TasksTo :
      (other : QscRing) → Option McMsg → (ret : McMsg) → Loop L → List ℕ → Type 0
  TasksTo other rcv ret s q =
      (s' : Loop L) × (round env curr other rcv ret s ≡ receive env curr rcv ret s')
      × Later s.node s'.node q
      × (s'.e ≡ s.e)

  -- On a server of bi_mc that keeps its invariant, with well formed rings and a clock past the
  -- grace time, the periodic tasks of a round, whichever are due, never stop; they keep the
  -- invariant, the table and all objects, and give back to the allocator only the first objects of
  -- the ring, each when the grace time since it was freed was over, in order; nothing else changes
  -- the allocator's state.
  pub round-TasksTo :
      (other : QscRing) (p : List ℕ) (rcv : Option McMsg) (ret : McMsg) (s : Loop L) (q : List ℕ)
      → IsServing env curr base laws s.node q
      → IsQueue other p
      → ((k : ℕ) → (grace ≤ env.tsc k) × (env.tsc k < 2 ^ 64))
      → TasksTo other rcv ret s q
  unfolding TasksTo TaskTo round IsServing IsQuiescing
  round-TasksTo other p rcv ret s q h hp clock =
      let s0 = record s { node = record (s.node) { ticks = s.node.ticks + 1 } } in
      let time = env.tsc s.node.ticks in
      let (s1, done1, later1, e1) =
        flush_task-TaskTo time other p s0 q h hp (clock s0.node.ticks).0 (clock s0.node.ticks).1 in
      let (s2, done2, later2, e2) =
        balance_task-TaskTo time s1 (queue_left s0.node s1.node q later1)
          (left-IsServing s0.node s1.node q later1) (clock s1.node.ticks).0
          (clock s1.node.ticks).1 in
      (
        s2,
        bind_some _ done1 ∙ bind_some _ done2,
        Later-tick s.node s2.node q (Later-trans s0.node s1.node s2.node q later1 later2),
        e2 ∙ e1,
      )
