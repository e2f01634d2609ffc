-- ===== src/Smr/Reclaim/Expired.antt =====
-- A reclamation takes the items at the front of the ring whose time has come (libs/bi/bi_smr.c).
use bi_project.Base.{
  ltb, if◌then◌else◌, Bool-cases, ltb→lt, ltb→le, length, All, All-mono, ℕ, zero, suc, ◌+◌, ◌≤◌,
  ◌<◌, ◌≡◌, refl, ap, inl, inr, Option, some, List, [], ◌∷◌, arith,
}
use bi_project.Smr.Ring.{QuiesItem, QscRing, max_qui_ring_len, qsc_ring_dequeue}
use bi_project.Smr.Ring.Fifo.{IsRing, contents, dequeue_refines, length-contents, len-lt}
use bi_project.Smr.Quiesce.{
  Readers, bi_quiesce, bi_quiesce_cache, flush_grace_period, tsc_mod, bi_quiesce_smr,
}
use bi_project.Smr.Quiesce.Bounds.{InLib, quiesce_grace}
use bi_project.Smr.Reclaim.{reclaim_until, Reclaimed, reclaim_loop, bi_smr_reclaim, bi_wlog_reclaim}

-- The items from the front of the list that were freed at `qsc` or before, and the others.
abbrev pub expired : ℕ → List QuiesItem → List QuiesItem
expired qsc [] = []
expired qsc (a ∷ l) = if ltb qsc a.tsc_free then [] else a ∷ expired qsc l

abbrev pub unexpired : ℕ → List QuiesItem → List QuiesItem
unexpired qsc [] = []
unexpired qsc (a ∷ l) = if ltb qsc a.tsc_free then a ∷ l else unexpired qsc l

-- The list `l` is split into what is taken and what stays in the ring.
abbrev pub TakesExpired : ℕ → List QuiesItem → Option Reclaimed → Type 0
TakesExpired qsc l r =
    (out : Reclaimed) × (r ≡ some out)
    × (out.taken ≡ expired qsc l)
    × (contents out.ring ≡ unexpired qsc l)
    × (out.count ≡ length (expired qsc l))
    × IsRing out.ring

reclaim_loop-expired :
    (fuel qsc i : ℕ) (ql : QscRing) (l : List QuiesItem)
    → IsRing ql
    → contents ql ≡ l
    → length l < fuel
    → (out : Reclaimed) × (reclaim_loop fuel qsc i ql ≡ some out)
      × (out.taken ≡ expired qsc l)
      × (contents out.ring ≡ unexpired qsc l)
      × (out.count ≡ i + length (expired qsc l))
      × IsRing out.ring
unfolding reclaim_loop
reclaim_loop-expired zero qsc i ql l v e enough = absurd (omega arith)
reclaim_loop-expired (suc fuel) qsc i ql [] v e enough =
    let (peeked, _, _, _) = dequeue_refines ql v in
    (
      record { count = i; taken = []; ring = ql },
      rw (peeked, e, reclaim_loop),
      refl,
      e,
      omega arith,
      v,
    )
reclaim_loop-expired (suc fuel) qsc i ql (a ∷ l) v e enough =
    let (peeked, _, popped, v') = dequeue_refines ql v in
    elim (Bool-cases (ltb qsc a.tsc_free)) [
      | inl late ↦ rw late (
        record { count = i; taken = []; ring = ql },
        rw (peeked, e, late, reclaim_loop),
        refl,
        e,
        omega arith,
        v,
      )
      | inr due ↦
          let (out, done, taken, stays, count, v2) =
            reclaim_loop-expired fuel qsc (i + 1) (qsc_ring_dequeue ql).1 l v' (rw (popped, e))
              (omega arith) in
          rw due (
            record out { taken = a ∷ out.taken },
            rw (peeked, e, due, done, reclaim_loop),
            ap (λ m. a ∷ m) taken,
            stays,
            omega arith,
            v2,
          )
    ]

reclaim_until-expired :
    (qsc : ℕ) (ql : QscRing) (l : List QuiesItem)
    → IsRing ql
    → contents ql ≡ l
    → TakesExpired qsc l (reclaim_until qsc ql)
unfolding reclaim_until
reclaim_until-expired qsc ql [] v e =
    let (peeked, _, _, _) = dequeue_refines ql v in
    (record { count = 0; taken = []; ring = ql }, rw (peeked, e, reclaim_until), refl, e, refl, v)
reclaim_until-expired qsc ql (a ∷ l) v e =
    let (peeked, _, _, _) = dequeue_refines ql v in
    let (out, done, taken, stays, count, v') =
      reclaim_loop-expired max_qui_ring_len qsc 0 ql (a ∷ l) v e
        (omega (arith, ap length e, length-contents ql, len-lt ql)) in
    (out, rw (peeked, e, reclaim_until) done, taken, stays, omega (arith, count), v')

-- On a well formed ring, `bi_smr_reclaim` and `bi_wlog_reclaim` end, and take exactly the items at
-- the front of the ring that were freed at the quiescent time or before, return their number and
-- leave the rest in order.
pub reclaim-expired :
    (rs : Readers) (now : ℕ) (ql : QscRing)
    → IsRing ql
    → TakesExpired (bi_quiesce rs now) (contents ql) (bi_smr_reclaim rs now ql)
      × TakesExpired (bi_quiesce_cache now) (contents ql) (bi_wlog_reclaim now ql)
unfolding bi_smr_reclaim bi_wlog_reclaim
reclaim-expired rs now ql v = (
  reclaim_until-expired (bi_quiesce rs now) ql (contents ql) v refl,
  reclaim_until-expired (bi_quiesce_cache now) ql (contents ql) v refl,
)

pub expired-due : (qsc : ℕ) (l : List QuiesItem) → All (λ a. a.tsc_free ≤ qsc) (expired qsc l)
expired-due qsc [] = tt
expired-due qsc (a ∷ l) = elim (Bool-cases (ltb qsc a.tsc_free)) [
  | inl late ↦ rw late tt
  | inr due ↦ rw due (ltb→le _ _ due, expired-due qsc l)
]

-- On a well formed ring and a node in use, `bi_smr_reclaim` ends, and for each item that it hands
-- back to the slabs every reader that is inside the library on a core in use entered at least a
-- grace period after the item was freed; the clock is 64 bits wide and the quiescent time is not
-- within a grace period of its zero.
pub smr_reclaim_safe :
    (rs : Readers) (now : ℕ) (ql : QscRing)
    → IsRing ql
    → rs.curr < rs.tot_cpu
    → now < tsc_mod
    → flush_grace_period ≤ bi_quiesce_smr rs now
    → (out : Reclaimed) × (bi_smr_reclaim rs now ql ≡ some out)
      × All
          (λ a.
            (n c : ℕ)
            → n < rs.tot_cpu
            → c < rs.tot_core
            → InLib rs n c
            → a.tsc_free + flush_grace_period ≤ (rs.parsec_times n c).time_in)
          out.taken
smr_reclaim_safe rs now ql v cur small late =
    let (out, done, taken, _, _, _) = (reclaim-expired rs now ql v).0 in
    let (_, below) = quiesce_grace rs now cur small late in
    (
      out,
      done,
      rw taken (
          All-mono (λ a. a.tsc_free ≤ bi_quiesce rs now) _
            (expired (bi_quiesce rs now) (contents ql))
            (λ a due n c lt core inside. omega (arith, below n c lt core inside, due))
            (expired-due (bi_quiesce rs now) (contents ql))),
    )

-- The items are in the order of their time stamps.
abbrev pub Ordered : List QuiesItem → Type 0
Ordered [] = Unit
Ordered (a ∷ l) = All (λ b. a.tsc_free ≤ b.tsc_free) l × Ordered l

unexpired-late :
    (qsc : ℕ) (l : List QuiesItem) → Ordered l → All (λ a. qsc < a.tsc_free) (unexpired qsc l)
unexpired-late qsc [] o = tt
unexpired-late qsc (a ∷ l) o = elim (Bool-cases (ltb qsc a.tsc_free)) [
  | inl late ↦ rw late (
    ltb→lt _ _ late,
    All-mono (λ b. a.tsc_free ≤ b.tsc_free) (λ b. qsc < b.tsc_free) l
        (λ b le. omega (arith, le, ltb→lt _ _ late)) o.0,
  )
  | inr due ↦ rw due (unexpired-late qsc l o.1)
]

-- On a well formed ring with the items in the order of their time stamps, `bi_smr_reclaim` leaves
-- no item in the ring that was freed at the quiescent time or before.
pub smr_reclaim_complete :
    (rs : Readers) (now : ℕ) (ql : QscRing)
    → IsRing ql
    → Ordered (contents ql)
    → (out : Reclaimed) × (bi_smr_reclaim rs now ql ≡ some out)
      × All (λ a. bi_quiesce rs now < a.tsc_free) (contents out.ring)
smr_reclaim_complete rs now ql v o =
    let (out, done, _, stays, _, _) = (reclaim-expired rs now ql v).0 in
    (out, done, rw stays (unexpired-late (bi_quiesce rs now) (contents ql) o))
