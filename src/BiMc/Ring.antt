-- ===== src/BiMc/Ring.antt =====
-- The quiescence ring of mc_code/bi_mc/memcache.c as a queue of objects: what its operations and the
-- reclamation do to the queue.
pub mod Reclaim
pub mod Lists
pub mod Expired
pub mod Free
use bi_project.BiMc.{quis_num, QscRing, qsc_ring_peek, qsc_ring_dequeue, ring_put, ring_full}
use bi_project.Base.{
  ltb, leb, ◌==◌, if◌then◌else◌, Bool-cases, ltb→lt, ltb→le, lt→ltb, le→ltb, leb→le, leb→lt, le→leb,
  ==→eq, ==→ne, eq→==, ne→==, tests, length, length-append, All, All-append, All-mono, has, update,
  update_self, update_ne, ℕ, zero, suc, ◌+◌, ◌-◌, ◌*◌, ◌/◌, ◌%◌, ◌^◌, ◌≤◌, ◌<◌, ◌≡◌, refl, sym, ap,
  ap₂, ◌∙◌, ◌≢◌, ◌↔◌, ◌⊎◌, inl, inr, Bool, true, false, not, ◌&&◌, ◌||◌, Option, none, some, List,
  [], ◌∷◌, ◌++◌, map, append_assoc, append-nil, arith,
}

-- From slot `h` on stand the objects of the queue.
abbrev pub Queued : (ℕ → ℕ) → (h : ℕ) → List ℕ → Type 0
Queued r h [] = Unit
Queued r h (a ∷ q) = (r h ≡ a) × (a ≢ 0) × Queued r ((h + 1) % quis_num) q

-- The ring is well formed and holds the queue `q`: the slots outside the queue are null, and one of
-- them is always left.
unfoldable pub IsQueue : QscRing → List ℕ → Type 0
IsQueue ql q =
    (ql.head < quis_num)
    × (length q < quis_num)
    × (ql.tail ≡ (ql.head + length q) % quis_num)
    × Queued ql.ring ql.head q
    × ((d : ℕ) → length q ≤ d → d < quis_num → ql.ring ((ql.head + d) % quis_num) ≡ 0)

-- A write outside the queue leaves it.
Queued-update :
    (r : ℕ → ℕ) (h j x : ℕ) (q : List ℕ)
    → ((d : ℕ) → d < length q → (h + d) % quis_num ≢ j)
    → h < quis_num
    → Queued r h q
    → Queued (update r j x) h q
Queued-update r h j x [] out lt hq = tt
Queued-update r h j x (a ∷ q) out lt (e, nz, hq) = (
  update_ne r j h x (λ same. out 0 (omega arith) (omega arith)) ∙ e,
  nz,
  Queued-update r ((h + 1) % quis_num) j x q (λ d ld same. out (d + 1) (omega arith) (omega arith))
      (omega arith) hq,
)

Queued-snoc :
    (r : ℕ → ℕ) (h m : ℕ) (q : List ℕ)
    → h < quis_num
    → m ≢ 0
    → Queued r h q
    → r ((h + length q) % quis_num) ≡ m
    → Queued r h (q ++ (m ∷ []))
Queued-snoc r h m [] lt nz hq e = (ap r (omega arith) ∙ e, nz, tt)
Queued-snoc r h m (a ∷ q) lt nz (ea, na, hq) e =
    (ea, na, Queued-snoc r ((h + 1) % quis_num) m q (omega arith) nz hq (ap r (omega arith) ∙ e))

-- The head of the queue is what `qsc_ring_peek` gives, and 0 when there is none.
pub peek-nil : (ql : QscRing) → IsQueue ql [] → qsc_ring_peek ql ≡ 0
unfolding qsc_ring_peek IsQueue
peek-nil ql (lt, room, tl, hq, nulls) =
    ap ql.ring (omega arith) ∙ nulls 0 (omega arith) (omega arith)

pub peek-cons : (ql : QscRing) (a : ℕ) (q : List ℕ) → IsQueue ql (a ∷ q) → qsc_ring_peek ql ≡ a
unfolding qsc_ring_peek IsQueue
peek-cons ql a q (lt, room, tl, (e, nz, hq), nulls) = e

pub IsQueue-nonzero : (ql : QscRing) (a : ℕ) (q : List ℕ) → IsQueue ql (a ∷ q) → a ≢ 0
unfolding IsQueue
IsQueue-nonzero ql a q (lt, room, tl, (e, nz, hq), nulls) = nz

-- `qsc_ring_dequeue` takes the head of the queue away.
pub dequeue-IsQueue :
    (ql : QscRing) (a : ℕ) (q : List ℕ) → IsQueue ql (a ∷ q) → IsQueue ((qsc_ring_dequeue ql).1) q
unfolding qsc_ring_dequeue IsQueue
dequeue-IsQueue ql a q (lt, room, tl, (e, nz, hq), nulls) =
    let some_there : (ql.ring ql.head == 0) ≡ false = ne→== _ _ (λ z. nz (sym e ∙ z)) in
    rw some_there (
      omega arith,
      omega arith,
      omega arith,
      Queued-update ql.ring ((ql.head + 1) % quis_num) ql.head 0 q
          (λ d ld same. absurd (omega arith)) (omega arith) hq,
      λ d ld small. elim (Bool-cases (ql.head == ((ql.head + 1) % quis_num + d) % quis_num)) [
        | inl same ↦ rw same refl
        | inr other ↦ rw other (
            ap ql.ring (omega arith) ∙ nulls (d + 1) (omega arith) (omega (tests, ==→ne _ _ other)))
      ],
    )

-- A ring that is not full takes one object more at its end.
pub put-IsQueue :
    (ql : QscRing) (m : ℕ) (q : List ℕ)
    → IsQueue ql q
    → m ≢ 0
    → ring_full ql ≡ false
    → IsQueue (ring_put ql m) (q ++ (m ∷ []))
unfolding ring_put ring_full IsQueue
put-IsQueue ql m q (lt, room, tl, hq, nulls) nz free =
    let longer : length (q ++ (m ∷ [])) ≡ length q + 1 = length-append q (m ∷ []) in
    let fits : ql.head ≢ (ql.tail + 1) % quis_num = ==→ne _ _ free in
    (
      lt,
      omega arith,
      omega arith,
      Queued-snoc (update ql.ring ql.tail m) ql.head m q lt nz
          (Queued-update ql.ring ql.head ql.tail m q (λ d ld same. absurd (omega arith)) lt hq)
          (rw (← tl) (update_self ql.ring ql.tail m)),
      λ d ld small.
          update_ne ql.ring ql.tail ((ql.head + d) % quis_num) m (omega arith)
          ∙ nulls d (omega arith) small,
    )

-- The ring is full exactly when the queue has `quis_num - 1` objects.
pub full-length :
    (ql : QscRing) (q : List ℕ) → IsQueue ql q → (ring_full ql ≡ true) ↔ (length q + 1 ≡ quis_num)
unfolding ring_full IsQueue
full-length ql q (lt, room, tl, hq, nulls) =
    (λ e. let same = ==→eq _ _ e in omega arith, λ e. eq→== _ _ (omega arith))

pub IsQueue-length : (ql : QscRing) (q : List ℕ) → IsQueue ql q → length q < quis_num
unfolding IsQueue
IsQueue-length ql q (lt, room, tl, hq, nulls) = room
