-- ===== src/Tree/Spec.antt =====
-- What a tree of rb_tree/cbtree.c stands for, and what an operation on it promises.
use bi_project.Base.{
  ltb, ◌==◌, if◌then◌else◌, lt→ltb, length, length-append, max, ℕ, ◌+◌, ◌*◌, ◌%◌, ◌^◌, ◌≤◌, ◌<◌,
  ◌≡◌, refl, ◌∙◌, Bool, Option, some, List, [], ◌∷◌, ◌++◌, arith,
}
use bi_project.Tree.Nodes.{M, ◌>>=◌, ◌>>◌, bind-some, Kv, Tree, null, node, Store}
use bi_project.Base.Run.{if_true}
use bi_project.Tree.{max_free_buf_sz, mk_node, free_node, node_size}

-- The pairs in the order of the keys.
abbrev pub inorder : Tree → List Kv
inorder null = []
inorder (node a l r z kv) = inorder l ++ (kv ∷ inorder r)

abbrev pub count : Tree → ℕ
count null = 0
count (node a l r z kv) = 1 + count l + count r

-- Each size field is the number of nodes of its subtree.
abbrev pub IsSized : Tree → Type 0
IsSized null = Unit
IsSized (node a l r z kv) = (z ≡ 1 + count l + count r) × IsSized l × IsSized r

abbrev pub one_if : Bool → ℕ
one_if b = if b then 1 else 0

-- How often the node `x` stands in a tree, and in a list of nodes; 1 if it has been allocated.
abbrev pub occ : ℕ → Tree → ℕ
occ x null = 0
occ x (node a l r z kv) = one_if (a == x) + occ x l + occ x r

abbrev pub occ_freed : ℕ → List ℕ → ℕ
occ_freed x [] = 0
occ_freed x (a ∷ l) = one_if (a == x) + occ_freed x l

abbrev pub live : ℕ → Store → ℕ
live x s = one_if (ltb x s.made)

-- From `s` to `s'` the nodes of `t` and the freed nodes have become those of `own` and the freed and
-- the new nodes: nothing is lost, freed twice, or freed and still in the tree.
abbrev pub Balances : (own : ℕ → ℕ) (t : Tree) (s s' : Store) → Type 0
Balances own t s s' =
    (x : ℕ) → occ x t + occ_freed x s'.freed + live x s ≡ own x + occ_freed x s.freed + live x s'

-- Each node in the tree or in the buffer of freed nodes has been allocated, and is there once.
abbrev pub IsOwned : Tree → Store → Type 0
IsOwned t s = (x : ℕ) → occ x t + occ_freed x s.freed ≤ live x s

-- There is memory for `k` more nodes, and room for `k` more freed ones.
abbrev pub Room : (k : ℕ) → Store → Type 0
Room k s = (s.made + k ≤ s.supply) × (length s.freed + k ≤ max_free_buf_sz)

-- At most `k` nodes are made from `s` to `s'`, and at most `k` freed.
abbrev pub Spends : (k : ℕ) → (s s' : Store) → Type 0
Spends k s s' =
    (s'.made ≤ s.made + k) × (length s'.freed ≤ length s.freed + k) × (s'.supply ≡ s.supply)

abbrev pub height : Tree → ℕ
height null = 0
height (node a l r z kv) = 1 + max (height l) (height r)

pub height_left : (a : ℕ) (l r : Tree) (z : ℕ) (kv : Kv) → height l < height (node a l r z kv)
height_left a l r z kv = omega arith

pub height_right : (a : ℕ) (l r : Tree) (z : ℕ) (kv : Kv) → height r < height (node a l r z kv)
height_right a l r z kv = omega arith

-- The room for a subtree, what it leaves for one turn, and what both spend
pub Room-below : (h' h k : ℕ) (s : Store) → h' < h → Room (4 * h + k) s → Room (4 * h' + k) s
Room-below h' h k s lt room = (omega (arith, room.0), omega (arith, room.1))

pub Room-turn :
    (h' h k : ℕ) (s s' : Store) → h' < h → Room (4 * h + k) s → Spends (4 * h' + k) s s' → Room 4 s'
Room-turn h' h k s s' lt room sp = (omega (arith, room.0, sp.0, sp.2), omega (arith, room.1, sp.1))

pub Spends-turn :
    (h' h k : ℕ) (s s' s'' : Store)
    → h' < h
    → Spends (4 * h' + k) s s'
    → Spends 4 s' s''
    → Spends (4 * h + k) s s''
Spends-turn h' h k s s' s'' lt sp sp' =
    (omega (arith, sp.0, sp'.0), omega (arith, sp.1, sp'.1), sp'.2 ∙ sp.2)

-- A run that ends, in a tree of `items` made of the nodes `own`, and makes and frees at most `k`.
pub record Builds (items : List Kv) (own : ℕ → ℕ) (k : ℕ) (s : Store) (r : Option (Tree × Store))
    : Type 0 where
  pub tree : Tree
  pub store : Store
  pub done : r ≡ some (tree, store)
  pub holds : inorder tree ≡ items
  pub sized : IsSized tree
  pub balances : Balances own tree s store
  pub spends : Spends k s store

pub node_size-count : (t : Tree) → IsSized t → node_size t ≡ count t
unfolding node_size
node_size-count null h = refl
node_size-count (node a l r z kv) h = h.0

pub length-inorder : (t : Tree) → length (inorder t) ≡ count t
length-inorder null = refl
length-inorder (node a l r z kv) =
    omega (arith, length-append (inorder l) (kv ∷ inorder r), length-inorder l, length-inorder r)

-- What is owned stays so.
pub Balances-IsOwned :
    (t t' : Tree) (s s' : Store) → Balances (λ x. occ x t) t' s s' → IsOwned t s → IsOwned t' s'
Balances-IsOwned t t' s s' b own x = omega (arith, b x, own x)

-- A new node is counted once.
pub live-next : (x : ℕ) (s : Store) → one_if (ltb x (s.made + 1)) ≡ live x s + one_if (s.made == x)
live-next x s = ground arith

-- The node that `mkNode` makes, and the store behind it.
abbrev pub fresh : (n : ℕ) (l r : Tree) → Kv → Tree
fresh n l r kv = node n l r ((1 + node_size l + node_size r) % 2 ^ 32) kv

abbrev pub after : Store → (made : ℕ) (freed : List ℕ) → Store
after s n f = record s { made = n; freed = f }

pub fresh-IsSized :
    (n : ℕ) (l r : Tree) (kv : Kv)
    → IsSized l
    → IsSized r
    → count l + count r < 2 ^ 30
    → IsSized (fresh n l r kv)
fresh-IsSized n l r kv hl hr small =
    (omega (arith, node_size-count l hl, node_size-count r hr), hl, hr)

-- One step of a run with memory for a node, and with room for a freed one.
pub mk_then :
    {B : Type 0} (left right : Tree) (kv : Kv) (f : Tree → M B) (s : Store)
    → s.made < s.supply
    → (mk_node left right kv >>= f) s
      ≡ f (fresh s.made left right kv) (after s (s.made + 1) s.freed)
unfolding mk_node
mk_then left right kv f s lt =
    bind-some (mk_node left right kv) f s (if_true _ _ (lt→ltb s.made s.supply lt))

pub free_then :
    {B : Type 0} (a : ℕ) (k : M B) (s : Store)
    → length s.freed < max_free_buf_sz
    → (free_node a >> k) s ≡ k (after s s.made (a ∷ s.freed))
unfolding free_node
free_then a k s lt =
    bind-some (free_node a) (λ x. k) s (if_true _ _ (lt→ltb (length s.freed) max_free_buf_sz lt))
