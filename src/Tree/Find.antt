-- ===== src/Tree/Find.antt =====
-- `TreeBB_Find` of rb_tree/cbtree.c.
use bi_project.Base.{
  ltb, ◌==◌, Bool-cases, ltb→lt, ltb→le, ==→eq, ==→ne, ℕ, ◌≡◌, refl, inl, inr, arith,
}
use bi_project.Tree.Nodes.{Tree, null, node}
use bi_project.Tree.{tree_bb_find}
use bi_project.Tree.Spec.{inorder}
use bi_project.Tree.Items.{Sorted, lookup, Sorted-split, lookup-left, lookup-right, lookup-here}

-- In a tree in the order of its keys, `TreeBB_Find` finds the pair with the key exactly when the
-- tree holds one.
pub find-lookup :
    (t : Tree) (needle : ℕ) → Sorted (inorder t) → tree_bb_find t needle ≡ lookup needle (inorder t)
unfolding tree_bb_find
find-lookup null needle ho = refl
find-lookup (node a l r z kv) needle ho =
    let (sl, below, above, sr) = Sorted-split (inorder l) kv (inorder r) ho in
    elim (Bool-cases (kv.key == needle)) [
      | inl e ↦ rw (e, lookup-here needle kv (inorder l) (inorder r) (==→eq _ _ e) below)
      | inr ne ↦ rw ne (elim (Bool-cases (ltb needle kv.key)) [
        | inl lt ↦
            rw (lt, lookup-left needle kv (inorder l) (inorder r) (ltb→lt _ _ lt) above)
              (find-lookup l needle sl)
        | inr ge ↦
            rw
              (
                ge,
                lookup-right needle kv (inorder l) (inorder r)
                    (omega (arith, ltb→le _ _ ge, ==→ne _ _ ne)) below,
              )
              (find-lookup r needle sr)
      ])
    ]
