-- ===== src/Malloc/Classes.antt =====
-- The size classes of libs/mem/bi_malloc.c.
use bi_project.Base.{
  ltb, leb, ◌==◌, if◌then◌else◌, Bool-cases, ltb→lt, leb→le, ==→eq, ==→ne, ℕ, zero, suc, ◌+◌, ◌-◌,
  ◌*◌, ◌/◌, ◌%◌, ◌^◌, ◌≤◌, ◌<◌, ◌≡◌, refl, ap, ◌∙◌, ◌⊎◌, inl, inr, Bool, true, false, ◌&&◌, arith,
}
use bi_project.Malloc.{
  mem_block_size, min_small_size, max_small_size, word, index_loop, get_index, get_size,
}

-- The class of a size, from the number `b` of whole units of 64 bytes below it.
abbrev class_of : ℕ → ℕ
class_of b = index_loop 64 b 0

-- What the table below checks of the class of `b`: it is below 10, its size is at most 512 units,
-- holds `b + 1` of them and, if `b` is positive, no more than `2 b`, and is itself in the class.
class_test : ℕ → Bool
class_test b =
    ltb (class_of b) 10
    && (leb (2 ^ class_of b) 512
        && (leb (b + 1) (2 ^ class_of b)
            && (leb (2 ^ class_of b) (if b == 0 then 1 else 2 * b)
                && (class_of (2 ^ class_of b - 1) == class_of b))))

-- The rows `b` to `b + left` of the table.
rows : (left b : ℕ) → Bool
unfolding class_test
rows zero b = true
rows (suc left) b = let others = rows left (b + 1) in if class_test b then others else false

class_table : rows 512 0 ≡ true
unfolding rows class_test index_loop
class_table = refl

row_of_table :
    (b left first : ℕ) → first ≤ b → b < first + left → rows left first ≡ true → class_test b ≡ true
unfolding rows
row_of_table b zero first low high all = absurd (omega arith)
row_of_table b (suc left) first low high all = elim (Bool-cases (class_test first)) [
  | inr bad ↦ absurd (ground (arith, bad))
  | inl good ↦
      let later : rows left (first + 1) ≡ true = rw good at all in
      elim (Bool-cases (first == b)) [
        | inl here ↦ rw (==→eq first b here) at good
        | inr further ↦
            row_of_table b left (first + 1) (omega (arith, ==→ne first b further)) (omega arith)
              later
      ]
]

split : (a b : Bool) → (a && b) ≡ true → (a ≡ true) × (b ≡ true)
split true b h = (refl, h)
split false b h = absurd (ground arith)

record ClassFacts (b : ℕ) : Type 0 where
  few : class_of b < 10
  top : 2 ^ class_of b ≤ 512
  enough : b + 1 ≤ 2 ^ class_of b
  tight : 2 ^ class_of b ≤ (if b == 0 then 1 else 2 * b)
  own : class_of (2 ^ class_of b - 1) ≡ class_of b

class_facts : (b : ℕ) → b < 512 → ClassFacts b
unfolding class_test
class_facts b lt =
    let (few, r1) = split _ _ (row_of_table b 512 0 (omega arith) lt class_table) in
    let (top, r2) = split _ _ r1 in
    let (enough, r3) = split _ _ r2 in
    let (tight, own) = split _ _ r3 in
    record {
      few = ltb→lt _ _ few;
      top = leb→le _ _ top;
      enough = leb→le _ _ enough;
      tight = leb→le _ _ tight;
      own = ==→eq _ _ own;
    }

get_index-class :
    (size : ℕ) → 0 < size → size ≤ max_small_size → get_index size ≡ class_of ((size - 1) / 64)
unfolding get_index
get_index-class size pos small =
    let units : (size + word - 1) % word % mem_block_size / 2 ^ 6 ≡ (size - 1) / 64 = omega arith in
    ap class_of units

-- Each size from 1 to the largest small one has one of ten classes, whose block meets it, is the
-- smallest or less than twice the size, and belongs to the same class.
pub get_size-bounds :
    (size : ℕ)
    → 0 < size
    → size ≤ max_small_size
    → (get_index size < 10)
      × (size ≤ get_size size)
      × (get_size size ≤ max_small_size)
      × ((get_size size ≡ min_small_size) ⊎ (get_size size < 2 * size))
      × (get_index (get_size size) ≡ get_index size)
unfolding get_size
get_size-bounds size pos small =
    let b = (size - 1) / 64 in
    let w = 2 ^ class_of b in
    let f = class_facts b (omega arith) in
    let positive : 0 < 64 * w = omega (arith, f.enough) in
    let units : (64 * w - 1) / 64 ≡ w - 1 = omega (arith, f.enough) in
    rw (get_index-class size pos small) (
      f.few,
      omega (arith, f.enough),
      omega (arith, f.top),
      tight b w f.tight (omega (arith, f.enough)) (omega arith),
      get_index-class (64 * w) positive (omega (arith, f.top)) ∙ ap class_of units ∙ f.own,
    )
  where
    tight :
        (b w : ℕ)
        → w ≤ (if b == 0 then 1 else 2 * b)
        → 1 ≤ w
        → (0 < b → 64 * (2 * b) < 2 * size)
        → (min_small_size * w ≡ min_small_size) ⊎ (min_small_size * w < 2 * size)
    tight b w h one lt = elim (Bool-cases (b == 0)) [
      | inl e ↦ inl (let h' : w ≤ 1 = rw e at h in omega arith)
      | inr ne ↦
          inr (
            omega
              (arith, lt (omega (arith, ==→ne b 0 ne)), (let h' : w ≤ 2 * b = rw ne at h in h')))
    ]
