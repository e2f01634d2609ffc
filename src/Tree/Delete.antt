-- ===== src/Tree/Delete.antt =====
-- `TreeBB_Delete` of rb_tree/cbtree.c.
use bi_project.Base.{
  ltb, ◌==◌, Bool-cases, ltb→lt, ltb→le, ne→==, length, ℕ, suc, ◌+◌, ◌*◌, ◌^◌, ◌≤◌, ◌<◌, ◌≡◌, refl,
  sym, ap, ◌∙◌, inl, inr, true, false, Option, none, some, ◌∷◌, ◌++◌, append-nil, arith,
}
use bi_project.Tree.Nodes.{Kv, Tree, null, node, Store, bind-some, root}
use bi_project.Tree.{
  at_left, at_right, ptr, mk_balanced, delete_min, delete_root, delete, set_root, tree_bb_delete,
}
use bi_project.Tree.Spec.{
  height_left, height_right, Room-below, Room-turn, Spends-turn, Room, Spends, free_then, height,
  IsOwned, Balances-IsOwned, inorder, count, IsSized, one_if, occ, occ_freed, live, Balances,
  Builds, length-inorder,
}
use bi_project.Tree.Items.{
  Sorted, delete_item, lookup, Sorted-split, delete_item-left, delete_item-right, delete_item-here,
  lookup-left, lookup-right, lookup-here, Sorted-delete, length-delete,
}
use bi_project.Tree.Balance.{mk_balanced-Joins}

suc-ne_zero : (n : ℕ) → (suc n == 0) ≡ false
suc-ne_zero n = ne→== (suc n) 0 (omega arith)

-- The outcome of `deleteMin`: the least pair and its node leave the tree.
record TakesMin (t : Tree) (s : Store) (r : Option ((ℕ × Kv × Tree) × Store)) : Type 0 where
  addr : ℕ
  kv : Kv
  tree : Tree
  store : Store
  done : r ≡ some ((addr, kv, tree), store)
  holds : inorder t ≡ kv ∷ inorder tree
  sized : IsSized tree
  balances :
      (x : ℕ)
      → one_if (addr == x) + occ x tree + occ_freed x store.freed + live x s
        ≡ occ x t + occ_freed x s.freed + live x store
  spends : Spends (4 * height t + 0) s store

count-min : (t t' : Tree) (kv : Kv) → inorder t ≡ kv ∷ inorder t' → count t ≡ suc (count t')
count-min t t' kv e = omega (arith, ap length e, length-inorder t, length-inorder t')

count-delete : (k : ℕ) (t t' : Tree) → inorder t' ≡ delete_item k (inorder t) → count t' ≤ count t
count-delete k t t' e =
    omega (arith, ap length e, length-inorder t, length-inorder t', length-delete k (inorder t))

delete_min-TakesMin :
    (a : ℕ) (l r : Tree) (z : ℕ) (kv : Kv) (s : Store)
    → IsSized (node a l r z kv)
    → count (node a l r z kv) < 2 ^ 29
    → Room (4 * height (node a l r z kv) + 0) s
    → TakesMin (node a l r z kv) s (delete_min (node a l r z kv) s)
unfolding delete_min
delete_min-TakesMin a null r z kv s (_, hl, hr) small room = record {
  addr = a;
  kv = kv;
  tree = r;
  store = s;
  done = refl;
  holds = refl;
  sized = hr;
  balances = λ x. omega arith;
  spends = (omega arith, omega arith, refl);
}
delete_min-TakesMin a (node b bl br bz bkv) r z kv s (_, hl, hr) small room =
    let ih = delete_min-TakesMin b bl br bz bkv s hl (omega arith) (
      Room-below (height (node b bl br bz bkv)) (height (node a (node b bl br bz bkv) r z kv)) 0 s
        (height_left a (node b bl br bz bkv) r z kv) room) in
    let j =
      mk_balanced-Joins ih.tree r kv ih.store ih.sized hr
        (omega (arith, count-min (node b bl br bz bkv) ih.tree ih.kv ih.holds))
        (Room-turn (height (node b bl br bz bkv)) (height (node a (node b bl br bz bkv) r z kv)) 0 s
          ih.store (height_left a (node b bl br bz bkv) r z kv) room ih.spends)
        a (node b bl br bz bkv) r at_left false tt in
    record {
      addr = ih.addr;
      kv = ih.kv;
      tree = j.tree;
      store = j.store;
      done = rw (suc-ne_zero b) (
          bind-some (delete_min (node b bl br bz bkv)) _ s ih.done
          ∙ bind-some (mk_balanced a (node b bl br bz bkv) r ih.tree r kv at_left false) _ ih.store
              j.done);
      holds = ap (λ xs. xs ++ (kv ∷ inorder r)) ih.holds ∙ ap (λ xs. ih.kv ∷ xs) (sym j.holds);
      sized = j.sized;
      balances = λ x. omega (arith, j.balances x, ih.balances x);
      spends =
          Spends-turn (height (node b bl br bz bkv)) (height (node a (node b bl br bz bkv) r z kv))
            0 s ih.store j.store (height_left a (node b bl br bz bkv) r z kv) ih.spends j.spends;
    }

delete_root-Builds :
    (a : ℕ) (l r : Tree) (s : Store)
    → IsSized l
    → IsSized r
    → count l + count r < 2 ^ 29
    → Room (4 * height r + 5) s
    → Builds
        (inorder l ++ inorder r)
        (λ x. one_if (a == x) + (occ x l + occ x r))
        (4 * height r + 5)
        s
        (delete_root a l r s)
unfolding delete_root
delete_root-Builds a null r s hl hr small room = record {
  tree = r;
  store = record s { freed = a ∷ s.freed };
  done = free_then a _ s (omega (arith, room.1));
  holds = refl;
  sized = hr;
  balances = λ x. omega arith;
  spends = (omega arith, omega arith, refl);
}
delete_root-Builds a (node b bl br bz bkv) null s hl hr small room = record {
  tree = node b bl br bz bkv;
  store = record s { freed = a ∷ s.freed };
  done = free_then a _ s (omega (arith, room.1)) ∙ rw (suc-ne_zero b) refl;
  holds = sym (append-nil (inorder (node b bl br bz bkv)));
  sized = hl;
  balances = λ x. omega arith;
  spends = (omega arith, omega arith, refl);
}
delete_root-Builds a (node b bl br bz bkv) (node c cl cr cz ckv) s hl hr small room =
    let l = node b bl br bz bkv in
    let r = node c cl cr cz ckv in
    let s1 = record s { freed = a ∷ s.freed } in
    let m =
      delete_min-TakesMin c cl cr cz ckv s1 hr (omega arith)
        (omega (arith, room.0), omega (arith, room.1)) in
    let j =
      mk_balanced-Joins l m.tree m.kv m.store hl m.sized
        (omega (arith, count-min r m.tree m.kv m.holds))
        (omega (arith, room.0, m.spends.0, m.spends.2), omega (arith, room.1, m.spends.1)) m.addr
        null null at_right false tt in
    record {
      tree = j.tree;
      store = j.store;
      done =
          free_then a _ s (omega (arith, room.1))
          ∙ rw (suc-ne_zero b, suc-ne_zero c) (bind-some (delete_min r) _ s1 m.done ∙ j.done);
      holds = j.holds ∙ ap (λ xs. inorder l ++ xs) (sym m.holds);
      sized = j.sized;
      balances = λ x. omega (arith, j.balances x, m.balances x);
      spends = (
        omega (arith, j.spends.0, m.spends.0),
        omega (arith, j.spends.1, m.spends.1),
        j.spends.2 ∙ m.spends.2,
      );
    }

-- The value of a pair that was found.
abbrev pub value_of : Option Kv → Option ℕ
value_of none = none
value_of (some kv) = some kv.value

-- The outcome of `delete`.
record Deletes (key : ℕ) (t : Tree) (s : Store) (r : Option ((Option ℕ × Tree) × Store))
    : Type 0 where
  tree : Tree
  store : Store
  done : r ≡ some ((value_of (lookup key (inorder t)), tree), store)
  holds : inorder tree ≡ delete_item key (inorder t)
  sized : IsSized tree
  balances : Balances (λ x. occ x t) tree s store
  spends : Spends (4 * height t + 1) s store

delete-Deletes :
    (t : Tree) (key : ℕ) (s : Store)
    → IsSized t
    → Sorted (inorder t)
    → count t < 2 ^ 29
    → Room (4 * height t + 1) s
    → Deletes key t s (delete t key s)
unfolding delete
delete-Deletes null key s hs ho small room = record {
  tree = null;
  store = s;
  done = refl;
  holds = refl;
  sized = tt;
  balances = λ x. refl;
  spends = (omega arith, omega arith, refl);
}
delete-Deletes (node a l r z kv) key s (hz, hl, hr) ho small room =
    let (sl, below, above, sr) = Sorted-split (inorder l) kv (inorder r) ho in
    elim (Bool-cases (ltb key kv.key)) [
      | inl lt ↦
          let ih =
            delete-Deletes l key s hl sl (omega arith) (
              Room-below (height l) (height (node a l r z kv)) 1 s (height_left a l r z kv) room) in
          let j =
            mk_balanced-Joins ih.tree r kv ih.store ih.sized hr
              (omega (arith, count-delete key l ih.tree ih.holds))
              (Room-turn (height l) (height (node a l r z kv)) 1 s ih.store (height_left a l r z kv)
                room ih.spends)
              a l r at_left true refl in
          rw lt (record {
            tree = j.tree;
            store = j.store;
            done = rw (lookup-left key kv (inorder l) (inorder r) (ltb→lt _ _ lt) above) (
                bind-some (delete l key) _ s ih.done
                ∙ bind-some (mk_balanced a l r ih.tree r kv at_left true) _ ih.store j.done);
            holds =
                j.holds
                ∙ ap (λ xs. xs ++ (kv ∷ inorder r)) ih.holds
                ∙ sym (delete_item-left key kv (inorder l) (inorder r) (ltb→lt _ _ lt) above);
            sized = j.sized;
            balances = λ x. omega (arith, j.balances x, ih.balances x);
            spends =
                Spends-turn (height l) (height (node a l r z kv)) 1 s ih.store j.store
                  (height_left a l r z kv) ih.spends j.spends;
          })
      | inr ge ↦ rw ge (elim (Bool-cases (ltb kv.key key)) [
        | inl gt ↦
            let ih = delete-Deletes r key s hr sr (omega arith) (
              Room-below (height r) (height (node a l r z kv)) 1 s (height_right a l r z kv)
                room) in
            let j =
              mk_balanced-Joins l ih.tree kv ih.store hl ih.sized
                (omega (arith, count-delete key r ih.tree ih.holds))
                (Room-turn (height r) (height (node a l r z kv)) 1 s ih.store
                  (height_right a l r z kv) room ih.spends)
                a l r at_right true refl in
            rw gt (record {
              tree = j.tree;
              store = j.store;
              done = rw (lookup-right key kv (inorder l) (inorder r) (ltb→lt _ _ gt) below) (
                  bind-some (delete r key) _ s ih.done
                  ∙ bind-some (mk_balanced a l r l ih.tree kv at_right true) _ ih.store j.done);
              holds =
                  j.holds
                  ∙ ap (λ xs. inorder l ++ (kv ∷ xs)) ih.holds
                  ∙ sym (delete_item-right key kv (inorder l) (inorder r) (ltb→lt _ _ gt) below);
              sized = j.sized;
              balances = λ x. omega (arith, j.balances x, ih.balances x);
              spends =
                  Spends-turn (height r) (height (node a l r z kv)) 1 s ih.store j.store
                    (height_right a l r z kv) ih.spends j.spends;
            })
        | inr le ↦
            let same : kv.key ≡ key = omega (arith, ltb→le _ _ ge, ltb→le _ _ le) in
            let b =
              delete_root-Builds a l r s hl hr (omega arith)
                (omega (arith, room.0), omega (arith, room.1)) in
            rw le (record {
              tree = b.tree;
              store = b.store;
              done =
                  rw (lookup-here key kv (inorder l) (inorder r) same below)
                    (bind-some (delete_root a l r) _ s b.done);
              holds = b.holds ∙ sym (delete_item-here key kv (inorder l) (inorder r) same below);
              sized = b.sized;
              balances = λ x. omega (arith, b.balances x);
              spends = (omega (arith, b.spends.0), omega (arith, b.spends.1), b.spends.2);
            })
      ])
    ]

-- On a sorted tree of fewer than 2 ^ 29 nodes with right sizes, each of its nodes and of the nodes
-- that wait in the buffer of freed nodes being allocated and there once, with memory and room in
-- that buffer for four times the height of the tree and one node more: `TreeBB_Delete` ends without
-- a fault or a failed assertion, returns the value of the key, removes that pair only, keeps the
-- order and the sizes, each node is again there once, and no node, old or new, is lost from the
-- tree and the buffer.
pub delete_correct :
    (t : Tree) (key : ℕ) (s : Store)
    → IsSized t
    → Sorted (inorder t)
    → count t < 2 ^ 29
    → Room (4 * height t + 1) s
    → IsOwned t s
    → (t' : Tree) × (s' : Store) × (tree_bb_delete t key s
        ≡ some ((value_of (lookup key (inorder t)), t'), s'))
      × (inorder t' ≡ delete_item key (inorder t))
      × Sorted (inorder t')
      × IsSized t'
      × IsOwned t' s'
      × Balances (λ x. occ x t) t' s s'
unfolding tree_bb_delete set_root
delete_correct t key s hs ho small room own =
    let d = delete-Deletes t key s hs ho small room in
    elim (Bool-cases (ptr t == ptr d.tree)) [
      | inl e ↦ (
        d.tree,
        d.store,
        bind-some (delete t key) _ s d.done ∙ rw e,
        d.holds,
        rw (d.holds) (Sorted-delete key (inorder t) ho),
        d.sized,
        Balances-IsOwned t d.tree s d.store d.balances own,
        d.balances,
      )
      | inr ne ↦ (
        d.tree,
        record (d.store) { published = root ∷ d.store.published },
        bind-some (delete t key) _ s d.done ∙ rw ne,
        d.holds,
        rw (d.holds) (Sorted-delete key (inorder t) ho),
        d.sized,
        Balances-IsOwned t d.tree s d.store d.balances own,
        d.balances,
      )
    ]
