-- ===== src/Mc/TwoPhase/Text.antt =====
-- `strncmp` and `strncpy` of the C library, on buffers of bytes.
use bi_project.Base.{
  ltb, ◌==◌, if◌then◌else◌, lt→ltb, eq→==, ne→==, ℕ, zero, suc, ◌+◌, ◌≤◌, ◌<◌, ◌≡◌, refl, ◌∙◌, ◌≢◌,
  Bool, true, false, ◌||◌, arith,
}

abbrev pub Bytes : Type 0
Bytes = ℕ → ℕ

-- `strncmp(a, b, left) == 0`, from byte `i` on
pub strncmp_eq : (a b : Bytes) → (left i : ℕ) → Bool
strncmp_eq a b zero i = true
strncmp_eq a b (suc left) i =
    let rest = strncmp_eq a b left (i + 1) in
    if a i == b i then (if a i == 0 then true else rest) else false

-- Whether one of the first `n` bytes is zero.
pub has_nul : Bytes → (n : ℕ) → Bool
has_nul a zero = false
has_nul a (suc n) = has_nul a n || (a n == 0)

-- `strncpy`: behind a zero byte the rest is filled with zeros.
pub strncpy : (dst src : Bytes) → (n : ℕ) → Bytes
unfolding has_nul
strncpy dst src n i = if ltb i n then (if has_nul src i then 0 else src i) else dst i

-- The first `n` bytes are not zero.
abbrev pub NoNul : Bytes → (n : ℕ) → Type 0
NoNul a n = (i : ℕ) → i < n → a i ≢ 0

has_nul-no : (a : Bytes) (n i : ℕ) → NoNul a n → i ≤ n → has_nul a i ≡ false
unfolding has_nul
has_nul-no a n zero h le = refl
has_nul-no a n (suc i) h le =
    rw (has_nul-no a n i h (omega arith), ne→== (a i) 0 (h i (omega arith)))

-- A key is copied as it is, and compares as equal with any copy.
pub strncpy-byte : (dst src : Bytes) (n i : ℕ) → NoNul src n → i < n → strncpy dst src n i ≡ src i
unfolding strncpy
strncpy-byte dst src n i h lt = rw (lt→ltb i n lt, has_nul-no src n i h (omega arith))

pub strncmp-copy :
    (src copy : Bytes) (n left i : ℕ)
    → NoNul src n
    → ((j : ℕ) → j < n → copy j ≡ src j)
    → i + left ≤ n
    → strncmp_eq src copy left i ≡ true
unfolding strncmp_eq
strncmp-copy src copy n zero i h same le = refl
strncmp-copy src copy n (suc left) i h same le =
    rw (same i (omega arith), eq→== (src i) (src i) refl, ne→== (src i) 0 (h i (omega arith)))
      (strncmp-copy src copy n left (i + 1) h same (omega arith))

-- A key does not compare as equal with an entry that is free.
pub strncmp-free :
    (key entry : Bytes) (n : ℕ)
    → 0 < n
    → NoNul key n
    → entry 0 ≡ 0
    → strncmp_eq key entry n 0 ≡ false
unfolding strncmp_eq
strncmp-free key entry zero pos h e = absurd (omega arith)
strncmp-free key entry (suc n) pos h e =
    let other : key 0 ≢ entry 0 = λ same. h 0 (omega arith) (same ∙ e) in
    rw (ne→== (key 0) (entry 0) other)
