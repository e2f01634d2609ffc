-- ===== src/Slab/RingList/Chains.antt =====
-- A ring list as the list of its nodes: appending at the end and taking the first.
use bi_project.Base.{
  eq→==, ne→==, All, All-append, All-mono, update_self, update_ne, ℕ, ◌≡◌, sym, ◌∙◌, ◌≢◌, true,
  false, List, [], ◌∷◌, ◌++◌, arith,
}
use bi_project.Slab.RingList.{
  Links, ps_list_ll_init, ps_list_ll_empty, ps_list_ll_add, ps_list_ll_rem,
}

-- The links lead from `a` through the nodes of the list to `b`, and back.
abbrev pub Linked : Links → (a : ℕ) → List ℕ → (b : ℕ) → Type 0
Linked ls a [] b = (ls.n a ≡ b) × (ls.p b ≡ a)
Linked ls a (x ∷ l) b = (ls.n a ≡ x) × (ls.p x ≡ a) × Linked ls x l b

-- The nodes are different ones.
abbrev pub Unique : List ℕ → Type 0
Unique [] = Unit
Unique (x ∷ l) = All (λ y. x ≢ y) l × Unique l

-- The list with the head `h` has these nodes.
abbrev pub IsList : Links → (h : ℕ) → List ℕ → Type 0
IsList ls h l = Linked ls h l h × Unique (h ∷ l)

abbrev last : ℕ → List ℕ → ℕ
last a [] = a
last a (x ∷ l) = last x l

last-All : (P : ℕ → Type 0) (a : ℕ) (l : List ℕ) → P a → All P l → P (last a l)
last-All P a [] pa h = pa
last-All P a (x ∷ l) pa h = last-All P x l h.0 h.1

Linked-last :
    (ls : Links) (a : ℕ) (l : List ℕ) (b : ℕ)
    → Linked ls a l b
    → (ls.p b ≡ last a l) × (ls.n (last a l) ≡ b)
Linked-last ls a [] b h = (h.1, h.0)
Linked-last ls a (x ∷ l) b h = Linked-last ls x l b h.2

-- Links that agree on the nodes lead through the same ones.
Linked-agree :
    (ls ls' : Links) (a : ℕ) (l : List ℕ) (b : ℕ)
    → ls'.n a ≡ ls.n a
    → All (λ x. (ls'.n x ≡ ls.n x) × (ls'.p x ≡ ls.p x)) l
    → ls'.p b ≡ ls.p b
    → Linked ls a l b
    → Linked ls' a l b
Linked-agree ls ls' a [] b na all pb h = (na ∙ h.0, pb ∙ h.1)
Linked-agree ls ls' a (x ∷ l) b na (here, all) pb h =
    (na ∙ h.0, here.1 ∙ h.1, Linked-agree ls ls' x l b here.0 all pb h.2)

-- A node goes behind the last one.
Linked-snoc :
    (ls ls' : Links) (a : ℕ) (l : List ℕ) (b new : ℕ)
    → ls'.n new ≡ b
    → ls'.n (last a l) ≡ new
    → ls'.p new ≡ last a l
    → ls'.p b ≡ new
    → ((x : ℕ) → x ≢ last a l → x ≢ new → ls'.n x ≡ ls.n x)
    → ((x : ℕ) → x ≢ b → x ≢ new → ls'.p x ≡ ls.p x)
    → Unique (a ∷ l)
    → a ≢ new
    → All (λ x. (x ≢ new) × (x ≢ b)) l
    → Linked ls a l b
    → Linked ls' a (l ++ (new ∷ [])) b
Linked-snoc ls ls' a [] b new nn nl pn pb same_n same_p u ne all h = (nl, pn, (nn, pb))
Linked-snoc ls ls' a (x ∷ l) b new nn nl pn pb same_n same_p u ne (here, all) h = (
  same_n a (last-All (λ y. a ≢ y) x l u.0.0 u.0.1) ne ∙ h.0,
  same_p x here.1 here.0 ∙ h.1,
  Linked-snoc ls ls' x l b new nn nl pn pb same_n same_p u.1 here.0 all h.2,
)

Unique-snoc : (l : List ℕ) (new : ℕ) → Unique l → All (λ x. x ≢ new) l → Unique (l ++ (new ∷ []))
Unique-snoc [] new u all = (tt, tt)
Unique-snoc (x ∷ l) new u (ne, all) =
    (All-append (λ y. x ≢ y) l (new ∷ []) u.0 (ne, tt), Unique-snoc l new u.1 all)

-- The links after an addition behind node `t`, which `b` follows
module _ (ls : Links) (t new b : ℕ) (ne : t ≢ new) (ne' : b ≢ new) (follows : ls.n t ≡ b) where
  abbrev added : Links
  added = ps_list_ll_add ls t new

  added-new : (added.n new ≡ b) × (added.p new ≡ t)
  unfolding ps_list_ll_add
  added-new = (ground (arith, follows), ground (arith, follows))

  added-ends : (added.n t ≡ new) × (added.p b ≡ new)
  unfolding ps_list_ll_add
  added-ends = (ground (arith, follows), ground (arith, follows))

  added-others :
      ((x : ℕ) → x ≢ t → x ≢ new → added.n x ≡ ls.n x)
      × ((x : ℕ) → x ≢ b → x ≢ new → added.p x ≡ ls.p x)
  unfolding ps_list_ll_add
  added-others = (λ x o o'. ground (arith, follows), λ x o o'. ground (arith, follows))

-- A node that is not in the list goes to its end.
pub append-IsList :
    (ls : Links) (h : ℕ) (l : List ℕ) (new : ℕ)
    → IsList ls h l
    → All (λ x. x ≢ new) (h ∷ l)
    → IsList (ps_list_ll_add ls (ls.p h) new) h (l ++ (new ∷ []))
append-IsList ls h l new (links, u) (ne, all) =
    let (end, closes) = Linked-last ls h l h links in
    let t = last h l in
    let t≢new : t ≢ new = last-All (λ x. x ≢ new) h l ne all in
    let (nn, pn) = added-new ls t new h t≢new ne closes in
    let (nl, pb) = added-ends ls t new h t≢new ne closes in
    let (same_n, same_p) = added-others ls t new h t≢new ne closes in
    rw end (
      Linked-snoc ls (ps_list_ll_add ls t new) h l h new nn nl pn pb same_n same_p u ne
          (both_differ l all u.0) links,
      Unique-snoc (h ∷ l) new u (ne, all),
    )
  where
    both_differ :
        (l : List ℕ) → All (λ x. x ≢ new) l → All (λ y. h ≢ y) l → All (λ x. (x ≢ new) × (x ≢ h)) l
    both_differ [] a b = tt
    both_differ (x ∷ l) a b = ((a.0, λ e. b.0 (sym e)), both_differ l a.1 b.1)

-- The links after node `x` between `h` and `y` is removed
module _ (ls : Links) (h x y : ℕ) (ne : x ≢ h) (ne' : x ≢ y) (before : ls.p x ≡ h)
    (behind : ls.n x ≡ y) where
  abbrev removed : Links
  removed = ps_list_ll_rem ls x

  removed-ends : (removed.n h ≡ y) × (removed.p y ≡ h) × (removed.n x ≡ x)
  unfolding ps_list_ll_rem
  removed-ends = (
    ground (arith, before, behind),
    ground (arith, before, behind),
    ground (arith, before, behind),
  )

  removed-others :
      ((z : ℕ) → z ≢ h → z ≢ x → removed.n z ≡ ls.n z)
      × ((z : ℕ) → z ≢ y → z ≢ x → removed.p z ≡ ls.p z)
  unfolding ps_list_ll_rem
  removed-others =
      (λ z o o'. ground (arith, before, behind), λ z o o'. ground (arith, before, behind))

-- The first node is taken out, and is alone then.
pub first-IsList :
    (ls : Links) (h x : ℕ) (l : List ℕ)
    → IsList ls h (x ∷ l)
    → (ls.n h ≡ x) × IsList (ps_list_ll_rem ls x) h l × ((ps_list_ll_rem ls x).n x ≡ x)
first-IsList ls h x [] ((to, back, (on, up)), u) =
    let ne : x ≢ h = λ e. u.0.0 (sym e) in
    let (nh, ph, alone) = removed-ends ls h x h ne ne back on in (to, ((nh, ph), (tt, tt)), alone)
first-IsList ls h x (y ∷ l) ((to, back, (on, up, links)), u) =
    let ne : x ≢ h = λ e. u.0.0 (sym e) in
    let ne' : x ≢ y = u.1.0.0 in
    let (nh, py, alone) = removed-ends ls h x y ne ne' back on in
    let (same_n, same_p) = removed-others ls h x y ne ne' back on in
    (
      to,
      (
        (
          nh,
          py,
          Linked-agree ls (ps_list_ll_rem ls x) y l h
              (same_n y (λ e. u.0.1.0 (sym e)) (λ e. ne' (sym e)))
              (agree l u.0.1.1 u.1.0.1 u.1.1.0 same_n same_p) (same_p h u.0.1.0 (λ e. ne (sym e)))
              links,
        ),
        (u.0.1, u.1.1),
      ),
      alone,
    )
  where
    agree :
        (l : List ℕ)
        → All (λ z. h ≢ z) l
        → All (λ z. x ≢ z) l
        → All (λ z. y ≢ z) l
        → ((z : ℕ) → z ≢ h → z ≢ x → (ps_list_ll_rem ls x).n z ≡ ls.n z)
        → ((z : ℕ) → z ≢ y → z ≢ x → (ps_list_ll_rem ls x).p z ≡ ls.p z)
        → All (λ z. ((ps_list_ll_rem ls x).n z ≡ ls.n z) × ((ps_list_ll_rem ls x).p z ≡ ls.p z)) l
    agree [] a b c f g = tt
    agree (z ∷ l) a b c f g = (
      (f z (λ e. a.0 (sym e)) (λ e. b.0 (sym e)), g z (λ e. c.0 (sym e)) (λ e. b.0 (sym e))),
      agree l a.1 b.1 c.1 f g,
    )

-- Whether a list is empty shows in the head.
pub empty-IsList :
    (ls : Links) (h : ℕ) (l : List ℕ)
    → IsList ls h l
    → ps_list_ll_empty ls h ≡ (elim l [ [] ↦ true | x ∷ rest ↦ false ])
unfolding ps_list_ll_empty
empty-IsList ls h [] (links, u) = eq→== (ls.n h) h links.0
empty-IsList ls h (x ∷ l) (links, u) = ne→== (ls.n h) h (λ e. u.0.0 (sym e ∙ links.0))

-- An empty list, and a node that is set up beside a list
pub init-IsList : (ls : Links) (h : ℕ) → IsList (ps_list_ll_init ls h) h []
unfolding ps_list_ll_init
init-IsList ls h = ((update_self ls.n h h, update_self ls.p h h), (tt, tt))

pub init-other-IsList :
    (ls : Links) (h : ℕ) (l : List ℕ) (new : ℕ)
    → IsList ls h l
    → All (λ x. x ≢ new) (h ∷ l)
    → IsList (ps_list_ll_init ls new) h l
unfolding ps_list_ll_init
init-other-IsList ls h l new (links, u) (ne, all) = (
  Linked-agree ls (ps_list_ll_init ls new) h l h (update_ne ls.n new h new (λ e. ne (sym e)))
      (All-mono (λ x. x ≢ new) _ l
        (λ x other. (
          update_ne ls.n new x new (λ e. other (sym e)),
          update_ne ls.p new x new (λ e. other (sym e)),
        ))
        all)
      (update_ne ls.p new h new (λ e. ne (sym e))) links,
  u,
)
