-- ===== src/Assoc/Lookup.antt =====
-- What `assoc_find` finds after an insertion and after a deletion.
use mathlib.Core.Option.{some-injective}
use bi_project.Base.{
  ◌==◌, if◌then◌else◌, Bool-cases, ==→eq, length, All, update, update_self, update_ne, ℕ, zero, suc,
  ◌+◌, ◌<◌, ◌≡◌, refl, sym, ap, ◌∙◌, ◌≢◌, inl, inr, Bool, true, false, ◌&&◌, none, some, List, [],
  ◌∷◌, arith,
}
use bi_project.Assoc.{
  Item, HashTable, bucket, memeq, same_key, find_loop, assoc_find, assoc_insert, delete_loop,
  assoc_delete,
}

-- After `assoc_insert` a lookup in the bucket of the item under its key finds the item, and every
-- other lookup finds what it found before.
pub find-insert :
    (hashpower : ℕ) (table : HashTable) (it : Item) (hv : ℕ) (key : ℕ → ℕ) (nkey hv' : ℕ)
    → assoc_find hashpower (assoc_insert hashpower table it hv) key nkey hv' ≡ (
        if (bucket hashpower hv == bucket hashpower hv') && same_key key nkey it
        then some it
        else assoc_find hashpower table key nkey hv')
unfolding assoc_find assoc_insert find_loop
find-insert hashpower table it hv key nkey hv' =
    elim (Bool-cases (bucket hashpower hv == bucket hashpower hv')) [
      | inl e ↦ rw (e, ==→eq _ _ e) refl
      | inr ne ↦ rw ne refl
    ]

-- The chain has at most one item under the key.
abbrev pub Once : (key : ℕ → ℕ) → (nkey : ℕ) → List Item → Type 0
Once key nkey [] = Unit
Once key nkey (it ∷ chain) =
    (same_key key nkey it ≡ true → find_loop key nkey chain ≡ none) × Once key nkey chain

delete_loop-finds :
    (key : ℕ → ℕ) (nkey : ℕ) (chain : List Item) (it : Item)
    → Once key nkey chain
    → find_loop key nkey chain ≡ some it
    → (chain' : List Item) × (delete_loop key nkey chain ≡ some chain')
      × (find_loop key nkey chain' ≡ none)
      × (length chain ≡ length chain' + 1)
unfolding find_loop delete_loop
delete_loop-finds key nkey [] it once found = absurd (ground arith)
delete_loop-finds key nkey (x ∷ chain) it (alone, once) found =
    elim (Bool-cases (same_key key nkey x)) [
      | inl e ↦ rw e (chain, refl, alone e, omega arith)
      | inr ne ↦
          let found' : find_loop key nkey chain ≡ some it = rw ne at found in
          let (chain', done, gone, shorter) = delete_loop-finds key nkey chain it once found' in
          rw (ne, done) (x ∷ chain', refl, rw ne gone, omega (arith, shorter))
    ]

-- When a lookup finds an item and its bucket holds no other under the key, `assoc_delete` succeeds,
-- the lookup then finds nothing, one item fewer is in the bucket, and the lookups in other buckets
-- are unchanged.
pub find-delete :
    (hashpower : ℕ) (table : HashTable) (key : ℕ → ℕ) (nkey hv : ℕ) (it : Item)
    → Once key nkey (table (bucket hashpower hv))
    → assoc_find hashpower table key nkey hv ≡ some it
    → (table' : HashTable) × (assoc_delete hashpower table key nkey hv ≡ some table')
      × (assoc_find hashpower table' key nkey hv ≡ none)
      × (length (table (bucket hashpower hv)) ≡ length (table' (bucket hashpower hv)) + 1)
      × ((key' : ℕ → ℕ) (nkey' hv' : ℕ)
          → bucket hashpower hv ≢ bucket hashpower hv'
          → assoc_find hashpower table' key' nkey' hv' ≡ assoc_find hashpower table key' nkey' hv')
unfolding assoc_find assoc_delete
find-delete hashpower table key nkey hv it once found =
    let b = bucket hashpower hv in
    let (chain', done, gone, shorter) = delete_loop-finds key nkey (table b) it once found in
    let at_b : update table b chain' b ≡ chain' = update_self table b chain' in
    (
      update table b chain',
      rw done refl,
      ap (find_loop key nkey) at_b ∙ gone,
      shorter ∙ ap (λ c. length c + 1) (sym at_b),
      λ key' nkey' hv' other.
          ap (find_loop key' nkey') (update_ne table b (bucket hashpower hv') chain' other),
    )

-- The item found is one of its bucket.
find_loop-All :
    (P : Item → Type 0) (key : ℕ → ℕ) (nkey : ℕ) (chain : List Item) (it : Item)
    → All P chain
    → find_loop key nkey chain ≡ some it
    → P it
unfolding find_loop
find_loop-All P key nkey [] it h e = absurd (ground arith)
find_loop-All P key nkey (x ∷ chain) it (hx, h) e = elim (Bool-cases (same_key key nkey x)) [
  | inl same ↦ rw (some-injective x it (rw same at e)) at hx
  | inr other ↦ find_loop-All P key nkey chain it h (rw other at e)
]

find_loop-nkey :
    (key : ℕ → ℕ) (nkey : ℕ) (chain : List Item) (it : Item)
    → find_loop key nkey chain ≡ some it
    → it.nkey ≡ nkey
unfolding find_loop
find_loop-nkey key nkey [] it e = absurd (ground arith)
find_loop-nkey key nkey (x ∷ chain) it e = elim (Bool-cases (same_key key nkey x)) [
  | inr ne ↦ find_loop-nkey key nkey chain it (rw ne at e)
  | inl same ↦
      let here : x ≡ it = some-injective x it (rw same at e) in
      ap (λ y. y.nkey) (sym here)
      ∙ sym (==→eq nkey x.nkey (left_true (nkey == x.nkey) (memeq key x.key nkey) same))
]
  where
    left_true : (a b : Bool) → (a && b) ≡ true → a ≡ true
    left_true true b e = refl
    left_true false b e = e

-- The item that a lookup finds has the size of the key.
pub find-nkey :
    (hashpower : ℕ) (table : HashTable) (key : ℕ → ℕ) (nkey hv : ℕ) (it : Item)
    → assoc_find hashpower table key nkey hv ≡ some it
    → it.nkey ≡ nkey
unfolding assoc_find
find-nkey hashpower table key nkey hv it e =
    find_loop-nkey key nkey (table (bucket hashpower hv)) it e

pub find-All :
    (P : Item → Type 0) (hashpower : ℕ) (table : HashTable) (key : ℕ → ℕ) (nkey hv : ℕ) (it : Item)
    → ((b : ℕ) → All P (table b))
    → assoc_find hashpower table key nkey hv ≡ some it
    → P it
unfolding assoc_find
find-All P hashpower table key nkey hv it h e =
    find_loop-All P key nkey (table (bucket hashpower hv)) it (h (bucket hashpower hv)) e

pub insert-All :
    (P : Item → Type 0) (hashpower : ℕ) (table : HashTable) (it : Item) (hv b : ℕ)
    → All P (table b)
    → P it
    → All P (assoc_insert hashpower table it hv b)
unfolding assoc_insert
insert-All P hashpower table it hv b h new = elim (Bool-cases (bucket hashpower hv == b)) [
  | inl e ↦ rw (e, ==→eq _ _ e) (new, h)
  | inr ne ↦ rw ne h
]

-- Keys that agree on their bytes find the same item.
memeq-agree : (a b k : ℕ → ℕ) (n : ℕ) → ((i : ℕ) → i < n → a i ≡ b i) → memeq a k n ≡ memeq b k n
memeq-agree a b k zero h = refl
memeq-agree a b k (suc n) h =
    rw (memeq-agree a b k n (λ i lt. h i (omega arith)), h n (omega arith))

find_loop-agree :
    (a b : ℕ → ℕ) (n : ℕ) (chain : List Item)
    → ((i : ℕ) → i < n → a i ≡ b i)
    → find_loop a n chain ≡ find_loop b n chain
unfolding find_loop
find_loop-agree a b n [] h = refl
find_loop-agree a b n (it ∷ chain) h =
    rw (find_loop-agree a b n chain h, memeq-agree a b it.key n h)

pub find-agree :
    (hashpower : ℕ) (table : HashTable) (a b : ℕ → ℕ) (n hv : ℕ)
    → ((i : ℕ) → i < n → a i ≡ b i)
    → assoc_find hashpower table a n hv ≡ assoc_find hashpower table b n hv
unfolding assoc_find
find-agree hashpower table a b n hv h = find_loop-agree a b n (table (bucket hashpower hv)) h
