-- ===== src/BiMc/Keys/Serving.antt =====
-- The invariant of a server of mc_code/bi_mc: its ring and its table.
use bi_project.BiMc.{Object, Env, Node}
use bi_project.BiMc.Laws.{Laws}
use bi_project.BiMc.Table.{bucket}
use bi_project.BiMc.Table.Chain.{Keyed, Unique}
use bi_project.BiMc.Items.{flags}
use bi_project.BiMc.Ring.Expired.{IsQuiescing}
use bi_project.Base.{
  ◌==◌, Bool-cases, ==→eq, All, update, update_ne, ℕ, ◌≡◌, refl, sym, ◌≢◌, inl, inr, Bool, true,
  false, List, [], ◌∷◌,
}

-- What holds of all objects holds of a chain's.
pub All-of : (P : ℕ → Type 0) → ((a : ℕ) → P a) → (q : List ℕ) → All P q
All-of P f [] = tt
All-of P f (a ∷ q) = (f a, All-of P f q)

-- A new flag leaves the keys.
pub flags-Keyed : (objs : ℕ → Object) (a : ℕ) (v : Bool) (d : ℕ) → Keyed (objs d) (flags objs a v d)
flags-Keyed objs a v d = elim (Bool-cases (a == d)) [
  | inl e ↦ rw (e, ==→eq _ _ e) (refl, refl)
  | inr ne ↦ rw ne (refl, refl)
]

module _ {L : Type 0} (env : Env L) (curr base : ℕ) (laws : Laws env curr base) where
  -- An item of the chain of bucket `b`: it is handed out, linked, and not in the queue `q`.
  abbrev pub Linked : (ℕ → Object) → L → List ℕ → (b a : ℕ) → Type 0
  Linked objs l q b a =
      (a ≢ 0)
      × laws.Held l a
      × ((objs a).linked ≡ true)
      × ((objs a).slabbed ≡ false)
      × (bucket ((objs a).hv) ≡ b)
      × All (λ c. c ≢ a) q

  -- The ring holds the queue `q`, each chain holds linked items of its bucket that do not wait in the
  -- ring, and no two of them have the same key.
  unfoldable pub IsServing : Node L → List ℕ → Type 0
  IsServing n q =
      IsQuiescing env curr base laws n q
      × ((b : ℕ) → All (Linked n.objs n.lists q b) (n.table b))
      × ((b : ℕ) → Unique n.objs (n.table b))

  -- An object that is handed out and stands neither in the ring nor in the table
  abbrev pub Fresh : Node L → List ℕ → ℕ → Type 0
  Fresh n q a =
      (a ≢ 0) × laws.Held n.lists a × All (λ c. c ≢ a) q × ((b : ℕ) → All (λ c. c ≢ a) (n.table b))

  -- A write to an object outside the chain leaves its items linked.
  pub Linked-update :
      (objs : ℕ → Object) (l : L) (q : List ℕ) (b a : ℕ) (o : Object) (chain : List ℕ)
      → All (λ c. c ≢ a) chain
      → All (Linked objs l q b) chain
      → All (Linked (update objs a o) l q b) chain
  Linked-update objs l q b a o [] ne h = tt
  Linked-update objs l q b a o (c ∷ chain) (nc, ne) (hc, h) =
      (rw (update_ne objs a c o (λ e. nc (sym e))) hc, Linked-update objs l q b a o chain ne h)

  pub Unique-update :
      (objs : ℕ → Object) (a : ℕ) (o : Object) (chain : List ℕ)
      → All (λ c. c ≢ a) chain
      → All (λ d. Keyed (objs d) (update objs a o d)) chain
  Unique-update objs a o [] ne = tt
  Unique-update objs a o (c ∷ chain) (nc, ne) =
      (rw (update_ne objs a c o (λ e. nc (sym e))) (refl, refl), Unique-update objs a o chain ne)
