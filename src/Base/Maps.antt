-- ===== src/Base/Maps.antt =====
-- An array or a memory, as a function of its index or address.
use Prim.Native.Nat.{ℕ}
use mathlib.Core.Path.{◌≡◌, refl, ap, ◌∙◌}
use mathlib.Core.Logic.{◌≢◌, inl, inr}
use native.Mathlib.Omega.{arith}
use bi_project.Base.Tests.{◌==◌, if◌then◌else◌, Bool-cases, ==→eq}

module _ {ℓ} {A : Type ℓ} where
  abbrev pub update : (ℕ → A) → ℕ → A → ℕ → A
  update f i v j = if i == j then v else f j

  pub update_self : (f : ℕ → A) (i : ℕ) (v : A) → update f i v i ≡ v
  update_self f i v = ground arith

  pub update_ne : (f : ℕ → A) (i j : ℕ) (v : A) → i ≢ j → update f i v j ≡ f j
  update_ne f i j v h = ground arith

  -- The last of two writes to one place stands, and a write of what was there changes nothing.
  pub update_twice : (f : ℕ → A) (i : ℕ) (v w : A) → update (update f i v) i w ≡ update f i w
  update_twice f i v w k j = both j k
    where
      both : (j : ℕ) → update (update f i v) i w j ≡ update f i w j
      both j = elim (Bool-cases (i == j)) [ inl e ↦ rw e refl | inr ne ↦ rw ne refl ]

  pub update_back : (f : ℕ → A) (i : ℕ) (v w : A) → w ≡ f i → update (update f i v) i w ≡ f
  update_back f i v w e k j = both j k
    where
      both : (j : ℕ) → update (update f i v) i w j ≡ f j
      both j = elim (Bool-cases (i == j)) [
        | inl same ↦ rw same (e ∙ ap f (==→eq i j same))
        | inr ne ↦ rw ne refl
      ]
