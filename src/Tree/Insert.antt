-- ===== src/Tree/Insert.antt =====
-- `TreeBB_Insert` of rb_tree/cbtree.c.
use bi_project.Base.{
  ltb, ◌==◌, Bool-cases, ltb→lt, ltb→le, lt→ltb, length, ℕ, ◌+◌, ◌*◌, ◌^◌, ◌≤◌, ◌<◌, ◌≡◌, refl, sym,
  ap, ◌∙◌, inl, inr, true, some, ◌∷◌, ◌++◌, arith,
}
use bi_project.Base.Run.{if_true}
use bi_project.Tree.Nodes.{root, Kv, Tree, null, node, Store, bind-some}
use bi_project.Tree.{at_left, at_right, insert, mk_node, set_root, tree_bb_insert, ptr}
use bi_project.Tree.Spec.{
  height_left, height_right, Room-below, Room-turn, Spends-turn, Room, height, IsOwned,
  Balances-IsOwned, inorder, count, IsSized, occ, Balances, Builds, live-next, fresh, after,
  fresh-IsSized, length-inorder,
}
use bi_project.Tree.Items.{
  Sorted, insert_item, Sorted-split, insert_item-left, insert_item-right, insert_item-here,
  Sorted-insert, length-insert,
}
use bi_project.Tree.Balance.{mk_balanced-Joins}

count-insert :
    (kv : Kv) (t t' : Tree) → inorder t' ≡ insert_item kv (inorder t) → count t' ≤ count t + 1
count-insert kv t t' e =
    omega (arith, ap length e, length-inorder t, length-inorder t', length-insert kv (inorder t))

insert-Builds :
    (t : Tree) (kv : Kv) (s : Store)
    → IsSized t
    → Sorted (inorder t)
    → count t + 1 < 2 ^ 29
    → Room (4 * height t + 1) s
    → Builds (insert_item kv (inorder t)) (λ x. occ x t) (4 * height t + 1) s (insert t kv s)
unfolding insert mk_node
insert-Builds null kv s hs ho small room = record {
  tree = fresh s.made null null kv;
  store = after s (s.made + 1) s.freed;
  done = if_true _ _ (lt→ltb s.made s.supply (omega (arith, room.0)));
  holds = refl;
  sized = fresh-IsSized s.made null null kv tt tt (omega arith);
  balances = λ x. omega (arith, live-next x s);
  spends = (omega arith, omega arith, refl);
}
insert-Builds (node a l r z kv0) kv s (hz, hl, hr) ho small room =
    let (sl, below, above, sr) = Sorted-split (inorder l) kv0 (inorder r) ho in
    elim (Bool-cases (ltb kv.key kv0.key)) [
      | inl lt ↦
          let ih = insert-Builds l kv s hl sl (omega arith) (
            Room-below (height l) (height (node a l r z kv0)) 1 s (height_left a l r z kv0) room) in
          let j =
            mk_balanced-Joins ih.tree r kv0 ih.store ih.sized hr
              (omega (arith, count-insert kv l ih.tree ih.holds))
              (Room-turn (height l) (height (node a l r z kv0)) 1 s ih.store
                (height_left a l r z kv0) room ih.spends)
              a l r at_left true refl in
          rw lt (record {
            tree = j.tree;
            store = j.store;
            done = bind-some (insert l kv) _ s ih.done ∙ j.done;
            holds =
                j.holds
                ∙ ap (λ xs. xs ++ (kv0 ∷ inorder r)) ih.holds
                ∙ sym (insert_item-left kv kv0 (inorder l) (inorder r) (ltb→lt _ _ lt));
            sized = j.sized;
            balances = λ x. omega (arith, j.balances x, ih.balances x);
            spends =
                Spends-turn (height l) (height (node a l r z kv0)) 1 s ih.store j.store
                  (height_left a l r z kv0) ih.spends j.spends;
          })
      | inr ge ↦ rw ge (elim (Bool-cases (ltb kv0.key kv.key)) [
        | inl gt ↦
            let ih = insert-Builds r kv s hr sr (omega arith) (
              Room-below (height r) (height (node a l r z kv0)) 1 s (height_right a l r z kv0)
                room) in
            let j =
              mk_balanced-Joins l ih.tree kv0 ih.store hl ih.sized
                (omega (arith, count-insert kv r ih.tree ih.holds))
                (Room-turn (height r) (height (node a l r z kv0)) 1 s ih.store
                  (height_right a l r z kv0) room ih.spends)
                a l r at_right true refl in
            rw gt (record {
              tree = j.tree;
              store = j.store;
              done = bind-some (insert r kv) _ s ih.done ∙ j.done;
              holds =
                  j.holds
                  ∙ ap (λ xs. inorder l ++ (kv0 ∷ xs)) ih.holds
                  ∙ sym (insert_item-right kv kv0 (inorder l) (inorder r) (ltb→lt _ _ gt) below);
              sized = j.sized;
              balances = λ x. omega (arith, j.balances x, ih.balances x);
              spends =
                  Spends-turn (height r) (height (node a l r z kv0)) 1 s ih.store j.store
                    (height_right a l r z kv0) ih.spends j.spends;
            })
        | inr le ↦ rw le (record {
          tree = node a l r z kv0;
          store = s;
          done = refl;
          holds = sym (
              insert_item-here kv kv0 (inorder l) (inorder r)
                (omega (arith, ltb→le _ _ ge, ltb→le _ _ le)) below);
          sized = (hz, hl, hr);
          balances = λ x. refl;
          spends = (omega arith, omega arith, refl);
        })
      ])
    ]

-- On a sorted tree of fewer than 2 ^ 29 - 1 nodes with right sizes, each of its nodes and of the
-- nodes that wait in the buffer of freed nodes being allocated and there once, with memory and room
-- in that buffer for four times the height of the tree and one node more: `TreeBB_Insert` ends
-- without a fault or a failed assertion, adds the pair unless the key is there, keeps the order and
-- the sizes, each node is again there once, and no node, old or new, is lost from the tree and the
-- buffer.
pub insert_correct :
    (t : Tree) (key value : ℕ) (s : Store)
    → IsSized t
    → Sorted (inorder t)
    → count t + 1 < 2 ^ 29
    → Room (4 * height t + 1) s
    → IsOwned t s
    → (t' : Tree) × (s' : Store) × (tree_bb_insert t key value s ≡ some (t', s'))
      × (inorder t' ≡ insert_item (record { key = key; value = value }) (inorder t))
      × Sorted (inorder t')
      × IsSized t'
      × IsOwned t' s'
      × Balances (λ x. occ x t) t' s s'
unfolding tree_bb_insert set_root
insert_correct t key value s hs ho small room own =
    let kv : Kv = record { key = key; value = value } in
    let b = insert-Builds t kv s hs ho small room in
    elim (Bool-cases (ptr t == ptr b.tree)) [
      | inl e ↦ (
        b.tree,
        b.store,
        bind-some (insert t kv) _ s b.done ∙ rw e,
        b.holds,
        rw (b.holds) (Sorted-insert kv (inorder t) ho),
        b.sized,
        Balances-IsOwned t b.tree s b.store b.balances own,
        b.balances,
      )
      | inr ne ↦ (
        b.tree,
        record (b.store) { published = root ∷ b.store.published },
        bind-some (insert t kv) _ s b.done ∙ rw ne,
        b.holds,
        rw (b.holds) (Sorted-insert kv (inorder t) ho),
        b.sized,
        Balances-IsOwned t b.tree s b.store b.balances own,
        b.balances,
      )
    ]
