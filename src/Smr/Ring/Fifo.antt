-- ===== src/Smr/Ring/Fifo.antt =====
-- A ring of libs/bi/bi_smr.c behaves as the queue of the items between its head and its tail.
use bi_project.Base.{
  ◌==◌, Bool-cases, ==→eq, ==→ne, eq→==, ne→==, tests, length, update, update_self, update_ne, ℕ,
  zero, suc, ◌+◌, ◌-◌, ◌%◌, ◌≤◌, ◌<◌, ◌≡◌, refl, sym, ap, ap₂, ◌∙◌, ◌≢◌, inl, inr, Option, none,
  some, List, [], ◌∷◌, ◌++◌, map, append_assoc, append-nil, arith,
}
use bi_project.Smr.Ring.{
  qsc_ring_dequeue, qsc_ring_peek, qsc_ring_struct_init, flush_loop, qsc_ring_flush, QuiesItem,
  max_qui_ring_len, QscRing, qsc_ring_len, enqueue_loop, qsc_ring_enqueue_batch,
}

pub record IsRing (ql : QscRing) : Type 0 where
  pub head_in : ql.head < max_qui_ring_len
  pub tail_in : ql.tail < max_qui_ring_len

-- The `n` items from slot `h` on, going round at the end of the array.
abbrev pub items : (ℕ → QuiesItem) → ℕ → ℕ → List QuiesItem
items r h zero = []
items r h (suc n) = r h ∷ items r ((h + 1) % max_qui_ring_len) n

unfoldable pub contents : QscRing → List QuiesItem
unfolding qsc_ring_len
contents ql = items ql.ring ql.head (qsc_ring_len ql)

-- What a batch adds: rounds `i` to `i + left`.
abbrev pub batch_items : (m sz tsc : ℕ → ℕ) (i left : ℕ) → List QuiesItem
batch_items m sz tsc i zero = []
batch_items m sz tsc i (suc left) =
    record { mh = m i; sz = sz i; tsc_free = tsc i } ∷ batch_items m sz tsc (i + 1) left

pub length-items : (r : ℕ → QuiesItem) (h n : ℕ) → length (items r h n) ≡ n
length-items r h zero = refl
length-items r h (suc n) = ap suc (length-items r ((h + 1) % max_qui_ring_len) n)

items-snoc :
    (r : ℕ → QuiesItem) (h n : ℕ)
    → h < max_qui_ring_len
    → items r h (suc n) ≡ items r h n ++ (r ((h + n) % max_qui_ring_len) ∷ [])
items-snoc r h zero lt = ap (λ k. r k ∷ []) (omega arith)
items-snoc r h (suc n) lt =
    ap (λ l. r h ∷ l)
      (items-snoc r ((h + 1) % max_qui_ring_len) n (omega arith)
        ∙ ap (λ k. items r ((h + 1) % max_qui_ring_len) n ++ (r k ∷ [])) (omega arith))

-- A write behind the last item leaves the items.
items-update :
    (r : ℕ → QuiesItem) (h n j : ℕ) (x : QuiesItem) (d : ℕ)
    → h < max_qui_ring_len
    → n + d < max_qui_ring_len
    → j ≡ (h + (n + d)) % max_qui_ring_len
    → items (update r j x) h n ≡ items r h n
items-update r h zero j x d lt room e = refl
items-update r h (suc n) j x d lt room e =
    ap₂ ◌∷◌ (update_ne r j h x (omega arith)) (
      items-update r ((h + 1) % max_qui_ring_len) n j x d (omega arith) (omega arith) (omega arith))

-- A write just behind the last item appends.
items-write :
    (r : ℕ → QuiesItem) (h n j : ℕ) (x : QuiesItem)
    → h < max_qui_ring_len
    → n < max_qui_ring_len
    → j ≡ (h + n) % max_qui_ring_len
    → items (update r j x) h (suc n) ≡ items r h n ++ (x ∷ [])
items-write r h n j x lt room e =
    items-snoc (update r j x) h n lt
    ∙ ap₂ (λ l y. l ++ (y ∷ [])) (items-update r h n j x 0 lt (omega arith) (omega arith))
        (rw (← e) (update_self r j x))

enqueue_loop-items :
    (m sz tsc : ℕ → ℕ) (left i j n : ℕ) (ql : QscRing)
    → ql.head < max_qui_ring_len
    → j ≡ (ql.head + n) % max_qui_ring_len
    → n + left < max_qui_ring_len
    → (ql' : QscRing) × (enqueue_loop m sz tsc left i j ql ≡ some ql')
      × (ql'.head ≡ ql.head)
      × (ql'.tail ≡ (ql.head + (n + left)) % max_qui_ring_len)
      × (items ql'.ring ql.head (n + left) ≡ items ql.ring ql.head n ++ batch_items m sz tsc i left)
unfolding enqueue_loop
enqueue_loop-items m sz tsc zero i j n ql lt e room = (
  record ql { tail = j },
  refl,
  refl,
  omega arith,
  ap (items ql.ring ql.head) (omega arith) ∙ sym (append-nil (items ql.ring ql.head n)),
)
enqueue_loop-items m sz tsc (suc left) i j n ql lt e room =
    let x : QuiesItem = record { mh = m i; sz = sz i; tsc_free = tsc i } in
    let ql1 : QscRing = record ql { ring = update ql.ring j x } in
    let (ql', done, hd, tl, its) =
      enqueue_loop-items m sz tsc left (i + 1) ((j + 1) % max_qui_ring_len) (suc n) ql1 lt
        (omega arith) (omega arith) in
    (
      ql',
      rw (ne→== ql.head ((j + 1) % max_qui_ring_len) (omega arith)) done,
      hd,
      omega arith,
      ap (items ql'.ring ql.head) (omega arith)
          ∙ its
          ∙ ap (λ l. l ++ batch_items m sz tsc (i + 1) left)
              (items-write ql.ring ql.head n j x lt (omega arith) e)
          ∙ append_assoc (items ql.ring ql.head n) (x ∷ []) (batch_items m sz tsc (i + 1) left),
    )

-- With less room than items in the batch the loop meets the assertion.
enqueue_loop-full :
    (m sz tsc : ℕ → ℕ) (left i j n : ℕ) (ql : QscRing)
    → ql.head < max_qui_ring_len
    → j ≡ (ql.head + n) % max_qui_ring_len
    → n < max_qui_ring_len
    → max_qui_ring_len ≤ n + left
    → enqueue_loop m sz tsc left i j ql ≡ none
unfolding enqueue_loop
enqueue_loop-full m sz tsc zero i j n ql lt e small big = absurd (omega arith)
enqueue_loop-full m sz tsc (suc left) i j n ql lt e small big =
    elim (Bool-cases (ql.head == (j + 1) % max_qui_ring_len)) [
      | inl full ↦ rw full
      | inr free ↦ rw free (
          enqueue_loop-full m sz tsc left (i + 1) ((j + 1) % max_qui_ring_len) (suc n)
            (record ql { ring = update ql.ring j _ }) lt (omega arith)
            (omega (tests, ==→ne _ _ free)) (omega arith))
    ]

pub length-contents : (ql : QscRing) → length (contents ql) ≡ qsc_ring_len ql
unfolding qsc_ring_len contents
length-contents ql = length-items ql.ring ql.head (qsc_ring_len ql)

pub len-lt : (ql : QscRing) → qsc_ring_len ql < max_qui_ring_len
unfolding qsc_ring_len contents
len-lt ql = omega arith

-- On a well formed ring, `qsc_ring_enqueue_batch` appends the whole batch in order and keeps the
-- ring well formed if a slot stays free, and else stops at its assertion.
pub enqueue_batch-append :
    (ql : QscRing) (m sz tsc : ℕ → ℕ) (batch : ℕ)
    → IsRing ql
    → (qsc_ring_len ql + batch < max_qui_ring_len
        → (ql' : QscRing) × (qsc_ring_enqueue_batch ql m sz tsc batch ≡ some ql')
          × IsRing ql'
          × (contents ql' ≡ contents ql ++ batch_items m sz tsc 0 batch))
      × (max_qui_ring_len ≤ qsc_ring_len ql + batch
          → qsc_ring_enqueue_batch ql m sz tsc batch ≡ none)
unfolding qsc_ring_enqueue_batch qsc_ring_len contents
enqueue_batch-append ql m sz tsc batch v = (fits, overflows)
  where
    fits :
        qsc_ring_len ql + batch < max_qui_ring_len
        → (ql' : QscRing) × (qsc_ring_enqueue_batch ql m sz tsc batch ≡ some ql')
          × IsRing ql'
          × (contents ql' ≡ contents ql ++ batch_items m sz tsc 0 batch)
    fits room =
        let (ql', done, hd, tl, its) =
          enqueue_loop-items m sz tsc batch 0 ql.tail (qsc_ring_len ql) ql v.head_in
            (omega (arith, v.head_in, v.tail_in)) room in
        (
          ql',
          done,
          record { head_in = rw hd v.head_in; tail_in = omega arith },
          ap₂ (items ql'.ring) hd (omega (arith, v.head_in)) ∙ its,
        )

    overflows :
        max_qui_ring_len ≤ qsc_ring_len ql + batch → qsc_ring_enqueue_batch ql m sz tsc batch ≡ none
    overflows big =
        enqueue_loop-full m sz tsc batch 0 ql.tail (qsc_ring_len ql) ql v.head_in
          (omega (arith, v.head_in, v.tail_in)) (omega arith) big

-- The queue that a ring stands for, taken from the front.
abbrev pub front : List QuiesItem → Option QuiesItem
front [] = none
front (x ∷ xs) = some x

abbrev pub rest : List QuiesItem → List QuiesItem
rest [] = []
rest (x ∷ xs) = xs

items-pos :
    (r : ℕ → QuiesItem) (h n : ℕ)
    → n ≢ 0
    → items r h n ≡ r h ∷ items r ((h + 1) % max_qui_ring_len) (n - 1)
items-pos r h zero ne = absurd (ne refl)
items-pos r h (suc n) ne = ap (λ k. items r h (suc k)) (omega arith)

contents-empty : (ql : QscRing) → IsRing ql → ql.head ≡ ql.tail → contents ql ≡ []
unfolding qsc_ring_len contents
contents-empty ql v e =
    let none_left : qsc_ring_len ql ≡ 0 = omega (arith, v.head_in) in
    ap (items ql.ring ql.head) none_left

contents-cons :
    (ql : QscRing)
    → IsRing ql
    → ql.head ≢ ql.tail
    → contents ql
      ≡ ql.ring ql.head ∷ contents (record ql { head = (ql.head + 1) % max_qui_ring_len })
unfolding qsc_ring_len contents
contents-cons ql v ne =
    items-pos ql.ring ql.head (qsc_ring_len ql) (omega (arith, v.head_in, v.tail_in))
    ∙ ap (λ k. ql.ring ql.head ∷ items ql.ring ((ql.head + 1) % max_qui_ring_len) k)
        (omega (arith, v.head_in, v.tail_in))

-- On a well formed ring, `qsc_ring_peek` and `qsc_ring_dequeue` return the oldest item or null
-- exactly when there is none, and the dequeue removes it and keeps the ring well formed.
pub dequeue_refines :
    (ql : QscRing)
    → IsRing ql
    → (qsc_ring_peek ql ≡ front (contents ql))
      × ((qsc_ring_dequeue ql).0 ≡ front (contents ql))
      × (contents (qsc_ring_dequeue ql).1 ≡ rest (contents ql))
      × IsRing (qsc_ring_dequeue ql).1
unfolding qsc_ring_peek qsc_ring_dequeue
dequeue_refines ql v = elim (Bool-cases (ql.head == ql.tail)) [
  | inl e ↦ let nil = contents-empty ql v (==→eq _ _ e) in rw (e, nil) (refl, refl, refl, v)
  | inr ne ↦
      rw (ne, contents-cons ql v (==→ne _ _ ne))
        (refl, refl, refl, record { head_in = omega arith; tail_in = v.tail_in })
]

-- The range that a flush invalidates for an item.
abbrev pub range : QuiesItem → ℕ × ℕ
range x = (x.mh, x.sz)

flush_loop-items :
    (fuel i n : ℕ) (ql : QscRing)
    → i < max_qui_ring_len
    → ql.tail < max_qui_ring_len
    → n < max_qui_ring_len
    → n < fuel
    → ql.tail ≡ (i + n) % max_qui_ring_len
    → flush_loop fuel i ql ≡ some (map range (items ql.ring i n))
unfolding flush_loop
flush_loop-items zero i n ql lt tl small enough e = absurd (omega arith)
flush_loop-items (suc fuel) i zero ql lt tl small enough e = rw (eq→== i ql.tail (omega arith))
flush_loop-items (suc fuel) i (suc n) ql lt tl small enough e = rw (
  ne→== i ql.tail (omega arith),
  flush_loop-items fuel ((i + 1) % max_qui_ring_len) n ql (omega arith) tl (omega arith)
      (omega arith) (omega arith),
)

-- On a well formed ring, `qsc_ring_flush` ends and flushes the range of each item in the ring, in
-- order, and no other.
pub ring_flush-contents :
    (ql : QscRing) → IsRing ql → qsc_ring_flush ql ≡ some (map range (contents ql))
unfolding qsc_ring_flush qsc_ring_len contents
ring_flush-contents ql v =
    flush_loop-items max_qui_ring_len ql.head (qsc_ring_len ql) ql v.head_in v.tail_in (omega arith)
      (omega arith) (omega (arith, v.head_in, v.tail_in))

-- `qsc_ring_struct_init` leaves a well formed ring with nothing in it.
pub struct_init-empty :
    (p : QscRing) → IsRing (qsc_ring_struct_init p) × (contents (qsc_ring_struct_init p) ≡ [])
unfolding qsc_ring_struct_init qsc_ring_len contents
struct_init-empty p = (record { head_in = omega arith; tail_in = omega arith }, refl)

-- The two flushes count a ring's items by the same sum with its terms in another order.
pub count-ring_len :
    (ql : QscRing)
    → (max_qui_ring_len + ql.tail - ql.head) % max_qui_ring_len ≡ length (contents ql)
unfolding qsc_ring_len contents
count-ring_len ql = omega (arith, length-contents ql)
