-- ===== src/Tree/Tests.antt =====
-- The tree of rb_tree/cbtree.c on concrete inputs.
use bi_project.Base.{ℕ, ◌*◌, ◌≡◌, refl, some, [], arith}
use bi_project.Tree.Nodes.{Kv, Tree, null, node, Store}
use bi_project.Tree.Spec.{IsOwned, inorder, IsSized, occ, Balances}
use bi_project.Tree.Items.{Sorted, insert_item, delete_item, lookup}
use bi_project.Tree.{tree_bb_insert, tree_bb_delete, tree_bb_find}
use bi_project.Tree.Insert.{insert_correct}
use bi_project.Tree.Delete.{delete_correct, value_of}
use bi_project.Tree.Find.{find-lookup}

abbrev pair : ℕ → Kv
pair k = record { key = k; value = k * 10 }

-- The keys 1, 2, 3, 4: a further key behind them makes the tree turn.
abbrev four : Tree
four =
    node 0 (node 1 null null 1 (pair 1)) (node 2 null (node 3 null null 1 (pair 4)) 2 (pair 3)) 4
      (pair 2)

abbrev made_four : Store
made_four = record { made = 4; supply = 100; freed = []; published = [] }

four-IsSized : IsSized four
four-IsSized = (refl, (refl, tt, tt), (refl, tt, (refl, tt, tt)))

four-Sorted : Sorted (inorder four)
four-Sorted = (
  (omega arith, (omega arith, (omega arith, tt))),
  ((omega arith, (omega arith, tt)), ((omega arith, tt), (tt, tt))),
)

four-IsOwned : IsOwned four made_four
four-IsOwned x = ground arith

insert_correct_example :
    (t' : Tree) × (s' : Store) × (tree_bb_insert four 5 50 made_four ≡ some (t', s'))
    × (inorder t' ≡ insert_item (record { key = 5; value = 50 }) (inorder four))
    × Sorted (inorder t')
    × IsSized t'
    × IsOwned t' s'
    × Balances (λ x. occ x four) t' made_four s'
insert_correct_example =
    insert_correct four 5 50 made_four four-IsSized four-Sorted (omega arith)
      (omega arith, omega arith) four-IsOwned

delete_correct_example :
    (t' : Tree) × (s' : Store) × (tree_bb_delete four 2 made_four
      ≡ some ((value_of (lookup 2 (inorder four)), t'), s'))
    × (inorder t' ≡ delete_item 2 (inorder four))
    × Sorted (inorder t')
    × IsSized t'
    × IsOwned t' s'
    × Balances (λ x. occ x four) t' made_four s'
delete_correct_example =
    delete_correct four 2 made_four four-IsSized four-Sorted (omega arith)
      (omega arith, omega arith) four-IsOwned

find-lookup_example : tree_bb_find four 3 ≡ lookup 3 (inorder four)
find-lookup_example = find-lookup four 3 four-Sorted
