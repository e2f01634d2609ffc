-- ===== src/BiMc/Table/Chain.antt =====
-- Chains of mc_code/bi_mc/assoc.c: keys, lookups, and the replacement of an item.
use bi_project.BiMc.{Bytes, Object}
use bi_project.Assoc.{memeq}
use bi_project.BiMc.Table.{same_key, find_loop}
use bi_project.Base.{
  ◌==◌, if◌then◌else◌, Bool-cases, ==→eq, ==→ne, eq→==, tests, All, ℕ, zero, suc, ◌<◌, ◌≡◌, refl,
  sym, ◌∙◌, ◌≢◌, inl, inr, Bool, true, false, ◌&&◌, List, [], ◌∷◌, arith,
}

-- The key of the object is the first `n` bytes of `k`.
abbrev pub SameKey : (k : Bytes) → (n : ℕ) → Object → Type 0
SameKey k n o = (n ≡ o.nkey) × ((i : ℕ) → i < n → k i ≡ o.key i)

memeq-bytes : (a b : Bytes) (n : ℕ) → memeq a b n ≡ true → (i : ℕ) → i < n → a i ≡ b i
memeq-bytes a b zero h i lt = absurd (omega arith)
memeq-bytes a b (suc n) h i lt = elim (Bool-cases (i == n)) [
  | inl e ↦ rw (==→eq _ _ e) (==→eq _ _ (and_right _ _ h))
  | inr ne ↦ memeq-bytes a b n (and_left _ _ h) i (omega (tests, ==→ne _ _ ne))
]
  where
    and_left : (x y : Bool) → x && y ≡ true → x ≡ true
    and_left x y e = ground arith

    and_right : (x y : Bool) → x && y ≡ true → y ≡ true
    and_right x y e = ground arith

bytes-memeq : (a b : Bytes) (n : ℕ) → ((i : ℕ) → i < n → a i ≡ b i) → memeq a b n ≡ true
bytes-memeq a b zero h = refl
bytes-memeq a b (suc n) h =
    rw (bytes-memeq a b n (λ i lt. h i (omega arith)), h n (omega arith)) (eq→== (b n) (b n) refl)

pub same_key-SameKey : (k : Bytes) (n : ℕ) (o : Object) → same_key k n o ≡ true → SameKey k n o
same_key-SameKey k n o h = elim (Bool-cases (n == o.nkey)) [
  | inl e ↦ (==→eq _ _ e, memeq-bytes k o.key n (rw e at h))
  | inr ne ↦ absurd (true_false (rw ne at h))
]
  where
    true_false : false ≡ true → ⊥
    true_false e = ground arith

pub SameKey-same_key : (k : Bytes) (n : ℕ) (o : Object) → SameKey k n o → same_key k n o ≡ true
SameKey-same_key k n o (e, h) = rw (eq→== _ _ e) (bytes-memeq k o.key n h)

pub same_key_refl : (o : Object) → same_key o.key o.nkey o ≡ true
same_key_refl o = SameKey-same_key o.key o.nkey o (refl, λ i lt. refl)

-- Two objects with equal keys
pub same_key-sym : (o p : Object) → same_key o.key o.nkey p ≡ true → same_key p.key p.nkey o ≡ true
same_key-sym o p h =
    let (e, b) = same_key-SameKey o.key o.nkey p h in
    SameKey-same_key p.key p.nkey o (sym e, λ i lt. sym (b i (omega arith)))

same_key_trans :
    (k : Bytes) (n : ℕ) (o p : Object)
    → same_key k n o ≡ true
    → same_key o.key o.nkey p ≡ true
    → same_key k n p ≡ true
same_key_trans k n o p h g =
    let (e, b) = same_key-SameKey k n o h in
    let (e', b') = same_key-SameKey o.key o.nkey p g in
    SameKey-same_key k n p (e ∙ e', λ i lt. b i lt ∙ b' i (omega arith))

-- A key that is that of an object finds what the object's key finds.
pub same_key-agree :
    (k : Bytes) (n : ℕ) (o p : Object)
    → same_key k n o ≡ true
    → same_key k n p ≡ same_key o.key o.nkey p
same_key-agree k n o p h = elim (Bool-cases (same_key o.key o.nkey p)) [
  | inl yes_p ↦ same_key_trans k n o p h yes_p ∙ sym yes_p
  | inr no_p ↦ elim (Bool-cases (same_key k n p)) [
    | inr no_k ↦ no_k ∙ sym no_p
    | inl yes_k ↦
        let (e, b) = same_key-SameKey k n o h in
        let (e', b') = same_key-SameKey k n p yes_k in
        yes_k
        ∙ sym (
            SameKey-same_key o.key o.nkey p
              (sym e ∙ e', λ i lt. sym (b i (omega arith)) ∙ b' i (omega arith)))
  ]
]

-- No two objects of the chain have the same key.
abbrev pub Unique : (ℕ → Object) → List ℕ → Type 0
Unique objs [] = Unit
Unique objs (a ∷ chain) =
    All (λ d. same_key ((objs a).key) ((objs a).nkey) (objs d) ≡ false) chain × Unique objs chain

pub find_loop-agree :
    (objs : ℕ → Object) (k : Bytes) (n : ℕ) (o : Object) (chain : List ℕ)
    → same_key k n o ≡ true
    → find_loop objs k n chain ≡ find_loop objs o.key o.nkey chain
unfolding find_loop
find_loop-agree objs k n o [] h = refl
find_loop-agree objs k n o (a ∷ chain) h =
    rw (find_loop-agree objs k n o chain h, same_key-agree k n o (objs a) h) refl

-- What a lookup does not find is not there.
pub find_loop-none :
    (objs : ℕ → Object) (k : Bytes) (n : ℕ) (chain : List ℕ)
    → All (λ a. a ≢ 0) chain
    → find_loop objs k n chain ≡ 0
    → All (λ d. same_key k n (objs d) ≡ false) chain
unfolding find_loop
find_loop-none objs k n [] nz e = tt
find_loop-none objs k n (a ∷ chain) (na, nz) e = elim (Bool-cases (same_key k n (objs a))) [
  | inl same ↦ absurd (na (rw same at e))
  | inr other ↦ (other, find_loop-none objs k n chain nz (rw other at e))
]

-- What a lookup finds has the key, and is in the chain.
pub find_loop-same :
    (P : ℕ → Type 0) (objs : ℕ → Object) (k : Bytes) (n : ℕ) (chain : List ℕ)
    → All P chain
    → find_loop objs k n chain ≢ 0
    → (same_key k n (objs (find_loop objs k n chain)) ≡ true) × P (find_loop objs k n chain)
unfolding find_loop
find_loop-same P objs k n [] h ne = absurd (ne refl)
find_loop-same P objs k n (a ∷ chain) (ha, h) ne = elim (Bool-cases (same_key k n (objs a))) [
  | inl same ↦ rw same (same, ha)
  | inr other ↦ rw other (find_loop-same P objs k n chain h (rw other at ne))
]

-- Two states of memory show the same key of an object.
abbrev pub Keyed : (o p : Object) → Type 0
Keyed o p = (o.nkey ≡ p.nkey) × (o.key ≡ p.key)

pub find_loop-change :
    (objs objs' : ℕ → Object) (k : Bytes) (n : ℕ) (chain : List ℕ)
    → All (λ d. Keyed (objs d) (objs' d)) chain
    → find_loop objs' k n chain ≡ find_loop objs k n chain
unfolding find_loop
find_loop-change objs objs' k n [] h = refl
find_loop-change objs objs' k n (a ∷ chain) ((en, ek), h) =
    rw (find_loop-change objs objs' k n chain h, en, ek) refl

pub Unique-change :
    (objs objs' : ℕ → Object) (chain : List ℕ)
    → All (λ d. Keyed (objs d) (objs' d)) chain
    → Unique objs chain
    → Unique objs' chain
Unique-change objs objs' [] h u = tt
Unique-change objs objs' (a ∷ chain) ((en, ek), h) (other, u) =
    (others chain h other, Unique-change objs objs' chain h u)
  where
    others :
        (c : List ℕ)
        → All (λ d. Keyed (objs d) (objs' d)) c
        → All (λ d. same_key ((objs a).key) ((objs a).nkey) (objs d) ≡ false) c
        → All (λ d. same_key ((objs' a).key) ((objs' a).nkey) (objs' d) ≡ false) c
    others [] ks os = tt
    others (d ∷ c) ((dn, dk), ks) (o, os) = (rw (en, ek, dn, dk) at o, others c ks os)

pub find_loop-cons :
    (objs : ℕ → Object) (k : Bytes) (n a : ℕ) (chain : List ℕ)
    → find_loop objs k n (a ∷ chain)
      ≡ (if same_key k n (objs a) then a else find_loop objs k n chain)
unfolding find_loop
find_loop-cons objs k n a chain = refl
