-- ===== src/Tree/Balance.antt =====
-- `mkBalanced` of rb_tree/cbtree.c: whichever way it goes, it builds the same pairs.
use bi_project.Base.{
  ltb, ◌==◌, Bool-cases, ltb→lt, ltb→le, eq→==, length, ℕ, ◌+◌, ◌*◌, ◌^◌, ◌≤◌, ◌<◌, ◌≡◌, refl, ap,
  ◌∙◌, inl, inr, Bool, true, false, Option, some, ◌∷◌, ◌++◌, arith,
}
use bi_project.Tree.Nodes.{bind-some, Kv, Tree, null, node, Store, M}
use bi_project.Tree.{
  node_size, ptr, mk_balanced_l, mk_balanced_r, weight, Side, at_left, at_right, in_place, keep,
  rotated, mk_balanced,
}
use bi_project.Tree.Spec.{
  Room, mk_then, free_then, inorder, count, IsSized, one_if, occ, Builds, node_size-count,
  live-next, fresh, after, fresh-IsSized,
}
use bi_project.Tree.Rotate.{single_l-Builds, double_l-Builds, single_r-Builds, double_r-Builds}

-- In place, the child that is not replaced is still the child of `cur`.
abbrev pub Unchanged : (cl cr left right : Tree) → Side → (inplace : Bool) → Type 0
Unchanged cl cr left right at_left true = cr ≡ right
Unchanged cl cr left right at_right true = cl ≡ left
Unchanged cl cr left right _ false = Unit

module _ (left : Tree) (kv : Kv) (s : Store) (hl : IsSized left) where
  mk_balanced_l-Builds :
      (right : Tree)
      → IsSized right
      → count left + count right < 2 ^ 29
      → 2 ≤ count left + count right
      → weight * count left < count right
      → Room 3 s
      → Builds
          (inorder left ++ (kv ∷ inorder right))
          (λ x. occ x left + occ x right)
          3
          s
          (mk_balanced_l left right kv s)
  unfolding mk_balanced_l
  mk_balanced_l-Builds null hr small two heavy room = absurd (omega arith)
  mk_balanced_l-Builds (node b null rr rz rkv) hr small two heavy room =
      elim (Bool-cases (ltb (node_size null) (node_size rr))) [
        | inl e ↦ rw e (single_l-Builds left kv s hl b null rr rz rkv hr small room)
        | inr e ↦
            absurd (omega (arith, ltb→le _ _ e, node_size-count null tt, node_size-count rr hr.2))
      ]
  mk_balanced_l-Builds (node b (node c cl cr cz ckv) rr rz rkv) hr small two heavy room =
      elim (Bool-cases (ltb (node_size (node c cl cr cz ckv)) (node_size rr))) [
        | inl e ↦
            rw e (single_l-Builds left kv s hl b (node c cl cr cz ckv) rr rz rkv hr small room)
        | inr e ↦ rw e (double_l-Builds left kv s hl b c cl cr rr cz rz ckv rkv hr small room)
      ]

module _ (right : Tree) (kv : Kv) (s : Store) (hr : IsSized right) where
  mk_balanced_r-Builds :
      (left : Tree)
      → IsSized left
      → count left + count right < 2 ^ 29
      → 2 ≤ count left + count right
      → weight * count right < count left
      → Room 3 s
      → Builds
          (inorder left ++ (kv ∷ inorder right))
          (λ x. occ x left + occ x right)
          3
          s
          (mk_balanced_r left right kv s)
  unfolding mk_balanced_r
  mk_balanced_r-Builds null hl small two heavy room = absurd (omega arith)
  mk_balanced_r-Builds (node b ll null lz lkv) hl small two heavy room =
      elim (Bool-cases (ltb (node_size null) (node_size ll))) [
        | inl e ↦ rw e (single_r-Builds right kv s hr b ll null lz lkv hl small room)
        | inr e ↦
            absurd (omega (arith, ltb→le _ _ e, node_size-count null tt, node_size-count ll hl.1))
      ]
  mk_balanced_r-Builds (node b ll (node c cl cr cz ckv) lz lkv) hl small two heavy room =
      elim (Bool-cases (ltb (node_size (node c cl cr cz ckv)) (node_size ll))) [
        | inl e ↦
            rw e (single_r-Builds right kv s hr b ll (node c cl cr cz ckv) lz lkv hl small room)
        | inr e ↦ rw e (double_r-Builds right kv s hr b c ll cl cr cz lz ckv lkv hl small room)
      ]

module _ (left right : Tree) (kv : Kv) (s : Store) (hl : IsSized left) (hr : IsSized right)
    (small : count left + count right < 2 ^ 29) (room : Room 4 s) where
  -- What `mkBalanced` builds of its children and the pair of `cur`.
  abbrev Joins : (ℕ → ℕ) → Option (Tree × Store) → Type 0
  Joins cur r =
      Builds (inorder left ++ (kv ∷ inorder right)) (λ x. cur x + (occ x left + occ x right)) 4 s r

  -- The updated `cur`, whether or not the pointer to the new child had to be written.
  updated :
      {r : Option (Tree × Store)} (a : ℕ) (s' : Store)
      → s'.made ≡ s.made
      → s'.freed ≡ s.freed
      → s'.supply ≡ s.supply
      → r ≡ some (fresh a left right kv, s')
      → Joins (λ x. one_if (a == x)) r
  updated a s' made freed supply e = record {
    tree = fresh a left right kv;
    store = s';
    done = e;
    holds = refl;
    sized = fresh-IsSized a left right kv hl hr (omega arith);
    balances = λ x. rw (made, freed) (omega arith);
    spends = (omega (arith, made), omega (arith, ap length freed), supply);
  }

  in_place-Joins :
      (a : ℕ) (cl cr : Tree) (replace : Side)
      → Unchanged cl cr left right replace true
      → Joins (λ x. one_if (a == x)) (in_place a cl cr left right kv replace s)
  unfolding in_place
  in_place-Joins a cl cr at_left same =
      rw (same, eq→== (ptr right) (ptr right) refl)
        (elim (Bool-cases (ptr cl == ptr left)) [
          | inl e ↦ rw e (updated a s refl refl refl refl)
          | inr ne ↦ rw ne (updated a _ refl refl refl refl)
        ])
  in_place-Joins a cl cr at_right same =
      rw (same, eq→== (ptr left) (ptr left) refl)
        (elim (Bool-cases (ptr cr == ptr right)) [
          | inl e ↦ rw e (updated a s refl refl refl refl)
          | inr ne ↦ rw ne (updated a _ refl refl refl refl)
        ])

  keep-Joins :
      (a : ℕ) (cl cr : Tree) (replace : Side) (inplace : Bool)
      → Unchanged cl cr left right replace inplace
      → Joins (λ x. one_if (a == x)) (keep a cl cr left right kv replace inplace s)
  unfolding keep
  keep-Joins a cl cr replace true same = in_place-Joins a cl cr replace same
  keep-Joins a cl cr replace false same = record {
    tree = fresh s.made left right kv;
    store = after s (s.made + 1) (a ∷ s.freed);
    done =
        mk_then left right kv _ s (omega (arith, room.0))
        ∙ free_then a _ (after s (s.made + 1) s.freed) (omega (arith, room.1));
    holds = refl;
    sized = fresh-IsSized s.made left right kv hl hr (omega arith);
    balances = λ x. omega (arith, live-next x s);
    spends = (omega arith, omega arith, refl);
  }

  rotated-Joins :
      (a : ℕ) (rotate : M Tree)
      → Builds (inorder left ++ (kv ∷ inorder right)) (λ x. occ x left + occ x right) 3 s (rotate s)
      → Joins (λ x. one_if (a == x)) (rotated a rotate s)
  unfolding rotated
  rotated-Joins a rotate b = record {
    tree = b.tree;
    store = record (b.store) { freed = a ∷ b.store.freed };
    done = bind-some rotate _ s b.done ∙ free_then a _ b.store (omega (arith, room.1, b.spends.1));
    holds = b.holds;
    sized = b.sized;
    balances = λ x. omega (arith, b.balances x);
    spends = (omega (arith, b.spends.0), omega (arith, b.spends.1), b.spends.2);
  }

  -- `mkBalanced` of a node `a` whose new child is one of `left` and `right` builds the pairs of both
  -- and of `a`, of the nodes of both, `a` and new nodes, without a null dereference.
  pub mk_balanced-Joins :
      (a : ℕ) (cl cr : Tree) (replace : Side) (inplace : Bool)
      → Unchanged cl cr left right replace inplace
      → Joins (λ x. one_if (a == x)) (mk_balanced a cl cr left right kv replace inplace s)
  unfolding mk_balanced
  mk_balanced-Joins a cl cr replace inplace same =
      let room3 : Room 3 s = (omega (arith, room.0), omega (arith, room.1)) in
      let nl = node_size-count left hl in
      let nr = node_size-count right hr in
      elim (Bool-cases (ltb (node_size left + node_size right) 2)) [
        | inl few ↦ rw few (keep-Joins a cl cr replace inplace same)
        | inr many ↦ rw many (elim (Bool-cases (ltb (weight * node_size left) (node_size right))) [
          | inl heavy ↦ rw heavy (
              rotated-Joins a (mk_balanced_l left right kv) (
                mk_balanced_l-Builds left kv s hl right hr small
                  (omega (arith, nl, nr, ltb→le _ _ many)) (omega (arith, nl, nr, ltb→lt _ _ heavy))
                  room3))
          | inr light ↦
              rw light (elim (Bool-cases (ltb (weight * node_size right) (node_size left))) [
                | inl heavy ↦ rw heavy (
                    rotated-Joins a (mk_balanced_r left right kv) (
                      mk_balanced_r-Builds right kv s hr left hl small
                        (omega (arith, nl, nr, ltb→le _ _ many))
                        (omega (arith, nl, nr, ltb→lt _ _ heavy)) room3))
                | inr even ↦ rw even (keep-Joins a cl cr replace inplace same)
              ])
        ])
      ]
