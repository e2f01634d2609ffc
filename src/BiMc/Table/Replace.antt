-- ===== src/BiMc/Table/Replace.antt =====
-- What `assoc_replace` of mc_code/bi_mc/assoc.c does to a chain without two equal keys.
use bi_project.BiMc.{Bytes, Object}
use bi_project.BiMc.Table.{same_key, find_loop, replace_loop}
use bi_project.BiMc.Table.Chain.{Unique, same_key_refl, same_key-sym, same_key-agree}
use bi_project.Base.{
  Bool-cases, All, ℕ, ◌≡◌, refl, sym, ap, ◌∙◌, ◌≢◌, inl, inr, Bool, true, false, List, [], ◌∷◌,
  arith,
}

pub not_both : {b : Bool} → b ≡ true → b ≡ false → ⊥
not_both {b} t f = ground arith

-- The new item stands for the one that the key finds, which is gone.
pub replace-All :
    (P : ℕ → Type 0) (objs : ℕ → Object) (k : Bytes) (n new : ℕ) (chain : List ℕ)
    → Unique objs chain
    → same_key k n (objs (find_loop objs k n chain)) ≡ true
    → All (λ d. d ≢ find_loop objs k n chain → P d) chain
    → P new
    → All P (replace_loop objs k n new chain)
unfolding find_loop replace_loop
replace-All P objs k n new [] u found h hn = tt
replace-All P objs k n new (a ∷ chain) (other, u) found (ha, h) hn =
    elim (Bool-cases (same_key k n (objs a))) [
      | inl same ↦
          let h' : All (λ d. d ≢ a → P d) chain = rw same at h in rw same (hn, rest chain other h')
      | inr differs ↦
          let found' : same_key k n (objs (find_loop objs k n chain)) ≡ true =
            rw differs at found in
          let ha' : a ≢ find_loop objs k n chain → P a = rw differs at ha in
          rw differs (
            ha' (λ e. not_both found' (ap (λ x. same_key k n (objs x)) (sym e) ∙ differs)),
            replace-All P objs k n new chain u found' (rw differs at h) hn,
          )
    ]
  where
    rest :
        (c : List ℕ)
        → All (λ d. same_key ((objs a).key) ((objs a).nkey) (objs d) ≡ false) c
        → All (λ d. d ≢ a → P d) c
        → All P c
    rest [] os hs = tt
    rest (d ∷ c) (o, os) (hd, hs) = (
      hd (λ e.
          not_both (same_key_refl (objs a))
            (ap (λ x. same_key ((objs a).key) ((objs a).nkey) (objs x)) (sym e) ∙ o)),
      rest c os hs,
    )

-- A key that is not that of the chain's objects is not that of the changed chain's.
replace_others :
    (objs : ℕ → Object) (k : Bytes) (n new : ℕ) (o : Object) (chain : List ℕ)
    → same_key o.key o.nkey (objs new) ≡ false
    → All (λ d. same_key o.key o.nkey (objs d) ≡ false) chain
    → All (λ d. same_key o.key o.nkey (objs d) ≡ false) (replace_loop objs k n new chain)
unfolding replace_loop
replace_others objs k n new o [] hn h = tt
replace_others objs k n new o (a ∷ chain) hn (ha, h) = elim (Bool-cases (same_key k n (objs a))) [
  | inl same ↦ rw same (hn, h)
  | inr differs ↦ rw differs (ha, replace_others objs k n new o chain hn h)
]

pub replace-Unique :
    (objs : ℕ → Object) (k : Bytes) (n new : ℕ) (chain : List ℕ)
    → Unique objs chain
    → same_key k n (objs new) ≡ true
    → Unique objs (replace_loop objs k n new chain)
unfolding replace_loop
replace-Unique objs k n new [] u hn = tt
replace-Unique objs k n new (a ∷ chain) (other, u) hn = elim (Bool-cases (same_key k n (objs a))) [
  | inl same ↦ rw same (as_new chain same other, u)
  | inr differs ↦ rw differs (
    replace_others objs k n new (objs a) chain (apart differs) other,
    replace-Unique objs k n new chain u hn,
  )
]
  where
    as_new :
        (c : List ℕ)
        → same_key k n (objs a) ≡ true
        → All (λ d. same_key ((objs a).key) ((objs a).nkey) (objs d) ≡ false) c
        → All (λ d. same_key ((objs new).key) ((objs new).nkey) (objs d) ≡ false) c
    as_new [] same os = tt
    as_new (d ∷ c) same (o, os) = (
      sym (same_key-agree k n (objs new) (objs d) hn)
          ∙ same_key-agree k n (objs a) (objs d) same
          ∙ o,
      as_new c same os,
    )

    apart :
        same_key k n (objs a) ≡ false → same_key ((objs a).key) ((objs a).nkey) (objs new) ≡ false
    apart differs = elim (Bool-cases (same_key ((objs a).key) ((objs a).nkey) (objs new))) [
      | inr no_new ↦ no_new
      | inl both ↦ absurd (
          not_both
            (same_key-agree k n (objs new) (objs a) hn ∙ same_key-sym (objs a) (objs new) both)
            differs)
    ]

-- The key finds the new item.
pub replace-find :
    (objs : ℕ → Object) (k : Bytes) (n new : ℕ) (chain : List ℕ)
    → find_loop objs k n chain ≢ 0
    → same_key k n (objs new) ≡ true
    → find_loop objs k n (replace_loop objs k n new chain) ≡ new
unfolding find_loop replace_loop
replace-find objs k n new [] found hn = absurd (found refl)
replace-find objs k n new (a ∷ chain) found hn = elim (Bool-cases (same_key k n (objs a))) [
  | inl same ↦ rw (same, hn) refl
  | inr differs ↦ rw (differs, differs) (replace-find objs k n new chain (rw differs at found) hn)
]

-- Another key finds what it found.
pub replace-find_other :
    (objs : ℕ → Object) (k k' : Bytes) (n n' new : ℕ) (chain : List ℕ)
    → same_key k n (objs new) ≡ true
    → same_key k' n' (objs new) ≡ false
    → find_loop objs k' n' (replace_loop objs k n new chain) ≡ find_loop objs k' n' chain
unfolding find_loop replace_loop
replace-find_other objs k k' n n' new [] hn ne = refl
replace-find_other objs k k' n n' new (a ∷ chain) hn ne =
    elim (Bool-cases (same_key k n (objs a))) [
      | inl same ↦ rw (same, ne, different same) refl
      | inr differs ↦ rw (differs, replace-find_other objs k k' n n' new chain hn ne) refl
    ]
  where
    different : same_key k n (objs a) ≡ true → same_key k' n' (objs a) ≡ false
    different same = elim (Bool-cases (same_key k' n' (objs a))) [
      | inr no_a ↦ no_a
      | inl yes_a ↦ absurd (
          not_both
            (same_key-agree k' n' (objs a) (objs new) yes_a
              ∙ sym (same_key-agree k n (objs a) (objs new) same)
              ∙ hn)
            ne)
    ]
