-- ===== src/BiMc/Table/Delete.antt =====
-- What `assoc_delete` of mc_code/bi_mc/assoc.c does to a chain without two equal keys.
use bi_project.BiMc.{Bytes, Object}
use bi_project.BiMc.Table.{same_key, delete_loop}
use bi_project.BiMc.Table.Chain.{Unique, same_key_refl, same_key-agree}
use bi_project.BiMc.Table.Replace.{not_both}
use bi_project.Base.{
  ◌==◌, Bool-cases, ==→eq, ==→ne, ne→==, All, has, ℕ, ◌≡◌, sym, ap, ◌∙◌, ◌≢◌, inl, inr, true, false,
  ◌||◌, some, List, [], ◌∷◌, arith,
}
use bi_project.Base.Run.{if_true, if_false, bind_some}

-- The chain `chain'` is `chain` without `a`.
unfoldable pub Without : (ℕ → Object) → (a : ℕ) → (chain chain' : List ℕ) → Type 1
Without objs a chain chain' =
    ((P : ℕ → Type 0) → All P chain → All P chain')
    × Unique objs chain'
    × All (λ d. d ≢ a) chain'
    × ((d : ℕ) → d ≢ a → has d chain' ≡ has d chain)

-- Keys apart from that of `a` are not `a`.
apart :
    (objs : ℕ → Object) (x a : ℕ) (chain : List ℕ)
    → x ≡ a
    → All (λ d. same_key ((objs x).key) ((objs x).nkey) (objs d) ≡ false) chain
    → All (λ d. d ≢ a) chain
apart objs x a [] e h = tt
apart objs x a (d ∷ chain) e (hd, h) = (
  λ da.
      not_both (same_key_refl (objs x))
        (ap (λ y. same_key ((objs x).key) ((objs x).nkey) (objs y)) (e ∙ sym da) ∙ hd),
  apart objs x a chain e h,
)

has_All : (P : ℕ → Type 0) (a : ℕ) (chain : List ℕ) → has a chain ≡ true → All P chain → P a
has_All P a [] e h = absurd (ground arith)
has_All P a (x ∷ chain) e (hx, h) = elim (Bool-cases (x == a)) [
  | inl same ↦ rw (==→eq _ _ same) at hx
  | inr other ↦ has_All P a chain (rw other at e) h
]

pub delete_loop-Without :
    (objs : ℕ → Object) (k : Bytes) (n a : ℕ) (chain : List ℕ)
    → same_key k n (objs a) ≡ true
    → Unique objs chain
    → has a chain ≡ true
    → (chain' : List ℕ) × (delete_loop objs k n chain ≡ some chain') × Without objs a chain chain'
unfolding delete_loop Without
delete_loop-Without objs k n a [] same u e = absurd (ground arith)
delete_loop-Without objs k n a (x ∷ chain) same (other, u) e = elim (Bool-cases (x == a)) [
  | inl here ↦
      let xa = ==→eq _ _ here in
      let hit : same_key k n (objs x) ≡ true = ap (λ y. same_key k n (objs y)) xa ∙ same in
      (
        chain,
        if_true _ _ hit,
        (
          λ P h. h.1,
          u,
          apart objs x a chain xa other,
          λ d ne. sym (ap (λ t. t || has d chain) (ne→== x d (λ xd. ne (sym xd ∙ xa)))),
        ),
      )
  | inr there ↦
      let e' : has a chain ≡ true = rw there at e in
      let miss_a : same_key ((objs x).key) ((objs x).nkey) (objs a) ≡ false =
        has_All (λ d. same_key ((objs x).key) ((objs x).nkey) (objs d) ≡ false) a chain e' other in
      let (chain', done, (sub, u', out, keeps)) = delete_loop-Without objs k n a chain same u e' in
      elim (Bool-cases (same_key k n (objs x))) [
        | inl hit ↦ absurd (not_both (sym (same_key-agree k n (objs x) (objs a) hit) ∙ same) miss_a)
        | inr miss ↦ (
          x ∷ chain',
          if_false _ _ miss ∙ bind_some _ done,
          (
            λ P h. (h.0, sub P h.1),
            (sub (λ d. same_key ((objs x).key) ((objs x).nkey) (objs d) ≡ false) other, u'),
            (==→ne _ _ there, out),
            λ d ne. ap (λ t. (x == d) || t) (keeps d ne),
          ),
        )
      ]
]
