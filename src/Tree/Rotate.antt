-- ===== src/Tree/Rotate.antt =====
-- The rotations of rb_tree/cbtree.c.
use bi_project.Base.{ℕ, ◌+◌, ◌^◌, ◌<◌, ◌≡◌, refl, sym, ◌∙◌, List, ◌∷◌, ◌++◌, append_assoc, arith}
use bi_project.Tree.Nodes.{Kv, Tree, node, Store}
use bi_project.Tree.{single_l, double_l, single_r, double_r}
use bi_project.Tree.Spec.{
  mk_then, free_then, Room, inorder, count, IsSized, occ, Builds, live-next, fresh, after,
  fresh-IsSized,
}

-- Two pairs of brackets moved: the pairs of a double rotation.
regroup :
    (a b c d : List Kv) (x y z : Kv)
    → (a ++ (x ∷ b)) ++ (y ∷ (c ++ (z ∷ d))) ≡ a ++ (x ∷ ((b ++ (y ∷ c)) ++ (z ∷ d)))
regroup a b c d x y z = simp append_assoc

module _ (left : Tree) (kv : Kv) (s : Store) (sized : IsSized left) where
  pub single_l-Builds :
      (b : ℕ) (rl rr : Tree) (rz : ℕ) (rkv : Kv)
      → IsSized (node b rl rr rz rkv)
      → count left + count (node b rl rr rz rkv) < 2 ^ 29
      → Room 3 s
      → Builds
          (inorder left ++ (kv ∷ inorder (node b rl rr rz rkv)))
          (λ x. occ x left + occ x (node b rl rr rz rkv))
          3
          s
          (single_l left (node b rl rr rz rkv) kv s)
  unfolding single_l
  single_l-Builds b rl rr rz rkv (_, hl, hr) small (memory, buffer) = record {
    tree = fresh (s.made + 1) (fresh s.made left rl kv) rr rkv;
    store = after s (s.made + 1 + 1) (b ∷ s.freed);
    done =
        mk_then left rl kv _ s (omega arith)
        ∙ mk_then (fresh s.made left rl kv) rr rkv _ (after s (s.made + 1) s.freed) (omega arith)
        ∙ free_then b _ (after s (s.made + 1 + 1) s.freed) (omega arith);
    holds = append_assoc (inorder left) (kv ∷ inorder rl) (rkv ∷ inorder rr);
    sized =
        fresh-IsSized (s.made + 1) (fresh s.made left rl kv) rr rkv
          (fresh-IsSized s.made left rl kv sized hl (omega arith)) hr (omega arith);
    balances = λ x. omega (arith, live-next x s, live-next x (after s (s.made + 1) s.freed));
    spends = (omega arith, omega arith, refl);
  }

  pub double_l-Builds :
      (b c : ℕ) (cl cr rr : Tree) (cz rz : ℕ) (ckv rkv : Kv)
      → IsSized (node b (node c cl cr cz ckv) rr rz rkv)
      → count left + count (node b (node c cl cr cz ckv) rr rz rkv) < 2 ^ 29
      → Room 3 s
      → Builds
          (inorder left ++ (kv ∷ inorder (node b (node c cl cr cz ckv) rr rz rkv)))
          (λ x. occ x left + occ x (node b (node c cl cr cz ckv) rr rz rkv))
          3
          s
          (double_l left (node b (node c cl cr cz ckv) rr rz rkv) kv s)
  unfolding double_l
  double_l-Builds b c cl cr rr cz rz ckv rkv (_, (_, hcl, hcr), hr) small (memory, buffer) =
      let inner = fresh s.made left cl kv in
      let outer = fresh (s.made + 1) cr rr rkv in
      record {
        tree = fresh (s.made + 1 + 1) inner outer ckv;
        store = after s (s.made + 1 + 1 + 1) (b ∷ c ∷ s.freed);
        done =
            mk_then left cl kv _ s (omega arith)
            ∙ mk_then cr rr rkv _ (after s (s.made + 1) s.freed) (omega arith)
            ∙ mk_then inner outer ckv _ (after s (s.made + 1 + 1) s.freed) (omega arith)
            ∙ free_then c _ (after s (s.made + 1 + 1 + 1) s.freed) (omega arith)
            ∙ free_then b _ (after s (s.made + 1 + 1 + 1) (c ∷ s.freed)) (omega arith);
        holds = regroup (inorder left) (inorder cl) (inorder cr) (inorder rr) kv ckv rkv;
        sized =
            fresh-IsSized (s.made + 1 + 1) inner outer ckv
              (fresh-IsSized s.made left cl kv sized hcl (omega arith))
              (fresh-IsSized (s.made + 1) cr rr rkv hcr hr (omega arith)) (omega arith);
        balances = λ x. omega (
          arith,
          live-next x s,
          live-next x (after s (s.made + 1) s.freed),
          live-next x (after s (s.made + 1 + 1) s.freed),
        );
        spends = (omega arith, omega arith, refl);
      }

module _ (right : Tree) (kv : Kv) (s : Store) (sized : IsSized right) where
  pub single_r-Builds :
      (b : ℕ) (ll lr : Tree) (lz : ℕ) (lkv : Kv)
      → IsSized (node b ll lr lz lkv)
      → count (node b ll lr lz lkv) + count right < 2 ^ 29
      → Room 3 s
      → Builds
          (inorder (node b ll lr lz lkv) ++ (kv ∷ inorder right))
          (λ x. occ x (node b ll lr lz lkv) + occ x right)
          3
          s
          (single_r (node b ll lr lz lkv) right kv s)
  unfolding single_r
  single_r-Builds b ll lr lz lkv (_, hl, hr) small (memory, buffer) = record {
    tree = fresh (s.made + 1) ll (fresh s.made lr right kv) lkv;
    store = after s (s.made + 1 + 1) (b ∷ s.freed);
    done =
        mk_then lr right kv _ s (omega arith)
        ∙ mk_then ll (fresh s.made lr right kv) lkv _ (after s (s.made + 1) s.freed) (omega arith)
        ∙ free_then b _ (after s (s.made + 1 + 1) s.freed) (omega arith);
    holds = sym (append_assoc (inorder ll) (lkv ∷ inorder lr) (kv ∷ inorder right));
    sized =
        fresh-IsSized (s.made + 1) ll (fresh s.made lr right kv) lkv hl
          (fresh-IsSized s.made lr right kv hr sized (omega arith)) (omega arith);
    balances = λ x. omega (arith, live-next x s, live-next x (after s (s.made + 1) s.freed));
    spends = (omega arith, omega arith, refl);
  }

  pub double_r-Builds :
      (b c : ℕ) (ll cl cr : Tree) (cz lz : ℕ) (ckv lkv : Kv)
      → IsSized (node b ll (node c cl cr cz ckv) lz lkv)
      → count (node b ll (node c cl cr cz ckv) lz lkv) + count right < 2 ^ 29
      → Room 3 s
      → Builds
          (inorder (node b ll (node c cl cr cz ckv) lz lkv) ++ (kv ∷ inorder right))
          (λ x. occ x (node b ll (node c cl cr cz ckv) lz lkv) + occ x right)
          3
          s
          (double_r (node b ll (node c cl cr cz ckv) lz lkv) right kv s)
  unfolding double_r
  double_r-Builds b c ll cl cr cz lz ckv lkv (_, hl, (_, hcl, hcr)) small (memory, buffer) =
      let inner = fresh s.made ll cl lkv in
      let outer = fresh (s.made + 1) cr right kv in
      record {
        tree = fresh (s.made + 1 + 1) inner outer ckv;
        store = after s (s.made + 1 + 1 + 1) (b ∷ c ∷ s.freed);
        done =
            mk_then ll cl lkv _ s (omega arith)
            ∙ mk_then cr right kv _ (after s (s.made + 1) s.freed) (omega arith)
            ∙ mk_then inner outer ckv _ (after s (s.made + 1 + 1) s.freed) (omega arith)
            ∙ free_then c _ (after s (s.made + 1 + 1 + 1) s.freed) (omega arith)
            ∙ free_then b _ (after s (s.made + 1 + 1 + 1) (c ∷ s.freed)) (omega arith);
        holds = simp append_assoc;
        sized =
            fresh-IsSized (s.made + 1 + 1) inner outer ckv
              (fresh-IsSized s.made ll cl lkv hl hcl (omega arith))
              (fresh-IsSized (s.made + 1) cr right kv hcr sized (omega arith)) (omega arith);
        balances = λ x. omega (
          arith,
          live-next x s,
          live-next x (after s (s.made + 1) s.freed),
          live-next x (after s (s.made + 1 + 1) s.freed),
        );
        spends = (omega arith, omega arith, refl);
      }
