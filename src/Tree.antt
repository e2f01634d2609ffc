-- ===== src/Tree.antt =====
-- The weight-balanced tree of rb_tree/cbtree.c and rb_tree/cbtree.h. A node carries the number of
-- its allocation, so that an update in place and a new node can be told apart; the store keeps what
-- the operations do besides: the allocations, the nodes given to `TreeBBFreeNode` and the pointers
-- that `bi_publish_pointer` writes. The model is exact for trees of fewer than 2 ^ 29 nodes, where
-- the `int` arithmetic on sizes cannot overflow.
pub mod Nodes
pub mod Spec
pub mod Items
pub mod Rotate
pub mod Balance
pub mod Insert
pub mod Delete
pub mod Find
mod Tests
use bi_project.Base.{
  ltb, leb, ◌==◌, if◌then◌else◌, Bool-cases, ltb→lt, ltb→le, lt→ltb, le→ltb, leb→le, leb→lt, le→leb,
  ==→eq, ==→ne, eq→==, ne→==, tests, length, length-append, All, All-append, All-mono, has, update,
  update_self, update_ne, update_twice, update_back, ℕ, zero, suc, ◌+◌, ◌-◌, ◌*◌, ◌/◌, ◌%◌, ◌^◌,
  ◌≤◌, ◌<◌, ◌≡◌, refl, sym, ap, ap₂, ◌∙◌, ◌≢◌, ◌↔◌, ◌⊎◌, inl, inr, Bool, true, false, not, ◌&&◌,
  ◌||◌, Option, none, some, List, [], ◌∷◌, ◌++◌, map, append_assoc, append-nil, arith,
}
use bi_project.Tree.Nodes.{
  Kv, Tree, null, node, Cell, left_of, right_of, root, Store, M, pure, fault, ◌>>=◌, ◌>>◌, check,
}

-- `nodeSize`
pub node_size : Tree → ℕ
node_size null = 0
node_size (node a l r size kv) = size

-- The pointer to a tree's root, with 0 for the null pointer.
pub ptr : Tree → ℕ
ptr null = 0
ptr (node a l r size kv) = suc a

-- `mkNode`, with its assertion that the allocator finds memory
pub mk_node : (left right : Tree) → Kv → M Tree
unfolding node_size
mk_node left right kv s =
    if ltb s.made s.supply
    then some (
      node s.made left right ((1 + node_size left + node_size right) % 2 ^ 32) kv,
      record s { made = s.made + 1 },
    )
    else none

-- MAX_FREE_BUF_SZ
abbrev pub max_free_buf_sz : ℕ
max_free_buf_sz = 1024

-- `TreeBBFreeNode`, at a node's number, with its assertion that the buffer has room
pub free_node : ℕ → M (Unit {0})
free_node a s =
    if ltb (length s.freed) max_free_buf_sz
    then some (tt, record s { freed = a ∷ s.freed })
    else none

-- `bi_publish_pointer`
pub publish : Cell → M (Unit {0})
publish c s = some (tt, record s { published = c ∷ s.published })

pub single_l : (left right : Tree) → Kv → M Tree
unfolding mk_node free_node
single_l left null kv = fault
single_l left (node b rl rr rz rkv) kv = do
  inner ← mk_node left rl kv
  res ← mk_node inner rr rkv
  free_node b
  pure res

-- C does not fix the order of the two inner calls of `mkNode`; the model makes the left one first.
pub double_l : (left right : Tree) → Kv → M Tree
unfolding mk_node free_node
double_l left (node b (node c cl cr cz ckv) rr rz rkv) kv = do
  inner ← mk_node left cl kv
  outer ← mk_node cr rr rkv
  res ← mk_node inner outer ckv
  free_node c
  free_node b
  pure res
double_l left _ kv = fault

pub single_r : (left right : Tree) → Kv → M Tree
unfolding mk_node free_node
single_r null right kv = fault
single_r (node b ll lr lz lkv) right kv = do
  inner ← mk_node lr right kv
  res ← mk_node ll inner lkv
  free_node b
  pure res

pub double_r : (left right : Tree) → Kv → M Tree
unfolding mk_node free_node
double_r (node b ll (node c cl cr cz ckv) lz lkv) right kv = do
  inner ← mk_node ll cl lkv
  outer ← mk_node cr right kv
  res ← mk_node inner outer ckv
  free_node c
  free_node b
  pure res
double_r _ right kv = fault

pub mk_balanced_l : (left right : Tree) → Kv → M Tree
unfolding single_l double_l
mk_balanced_l left null kv = fault
mk_balanced_l left (node b rl rr rz rkv) kv =
    if ltb (node_size rl) (node_size rr)
    then single_l left (node b rl rr rz rkv) kv
    else double_l left (node b rl rr rz rkv) kv

pub mk_balanced_r : (left right : Tree) → Kv → M Tree
unfolding single_r double_r
mk_balanced_r null right kv = fault
mk_balanced_r (node b ll lr lz lkv) right kv =
    if ltb (node_size lr) (node_size ll)
    then single_r (node b ll lr lz lkv) right kv
    else double_r (node b ll lr lz lkv) right kv

-- WEIGHT
abbrev pub weight : ℕ
weight = 4

-- The parameter `replace` of `mkBalanced`: which child of `cur` is new.
pub data Side : Type 0 where
  at_left at_right : Side

-- The writes of `mkBalanced` into `cur`, whose fields are `a`, `cl`, `cr` and `kv`.
pub in_place : (a : ℕ) (cl cr left right : Tree) → Kv → Side → M Tree
unfolding node_size ptr publish
in_place a cl cr left right kv at_left = do
  check (ptr cr == ptr right)
  if ptr cl == ptr left then pure tt else publish (left_of a)
  pure (node a left cr ((1 + node_size left + node_size right) % 2 ^ 32) kv)
in_place a cl cr left right kv at_right = do
  check (ptr cl == ptr left)
  if ptr cr == ptr right then pure tt else publish (right_of a)
  pure (node a cl right ((1 + node_size left + node_size right) % 2 ^ 32) kv)

-- The label `balanced` of `mkBalanced`
pub keep : (a : ℕ) (cl cr left right : Tree) → Kv → Side → (inplace : Bool) → M Tree
unfolding in_place mk_node free_node
keep a cl cr left right kv replace inplace =
    if inplace
    then in_place a cl cr left right kv replace
    else (do res ← mk_node left right kv; free_node a; pure res)

-- A rotation of `mkBalanced`, after which `cur` is given up
pub rotated : (a : ℕ) → M Tree → M Tree
unfolding free_node
rotated a rotate = do res ← rotate; free_node a; pure res

-- `mkBalanced`, where `cur` is the node `a` with the children `cl` and `cr`
pub mk_balanced : (a : ℕ) (cl cr left right : Tree) → Kv → Side → (inplace : Bool) → M Tree
unfolding node_size keep rotated mk_balanced_l mk_balanced_r
mk_balanced a cl cr left right kv replace inplace =
    let ln = node_size left in
    let rn = node_size right in
    if ltb (ln + rn) 2
    then keep a cl cr left right kv replace inplace
    else if ltb (weight * ln) rn
    then rotated a (mk_balanced_l left right kv)
    else if ltb (weight * rn) ln
    then rotated a (mk_balanced_r left right kv)
    else keep a cl cr left right kv replace inplace

-- `insert`, with INPLACE = 1
pub insert : Tree → Kv → M Tree
unfolding mk_balanced mk_node
insert null kv = mk_node null null kv
insert (node a l r z kv0) kv =
    let go_left : M Tree = (do l' ← insert l kv; mk_balanced a l r l' r kv0 at_left true) in
    let go_right : M Tree = (do r' ← insert r kv; mk_balanced a l r l r' kv0 at_right true) in
    if ltb kv.key kv0.key
    then go_left
    else if ltb kv0.key kv.key
    then go_right
    else pure (node a l r z kv0)

-- The end of `TreeBB_Insert` and `TreeBB_Delete`
pub set_root : (old new : Tree) → M (Unit {0})
unfolding ptr publish
set_root old new = if ptr old == ptr new then pure tt else publish root

pub tree_bb_insert : Tree → (key value : ℕ) → M Tree
unfolding insert set_root
tree_bb_insert tree key value = do
  nroot ← insert tree (record { key = key; value = value })
  set_root tree nroot
  pure nroot

-- `deleteMin`: the number and the pair of the least node, and the tree without it
pub delete_min : Tree → M (ℕ × Kv × Tree)
unfolding mk_balanced ptr
delete_min null = fault
delete_min (node a l r z kv) =
    let deeper : M (ℕ × Kv × Tree) = (do
      (m, mkv, l') ← delete_min l
      t ← mk_balanced a l r l' r kv at_left false
      pure (m, mkv, t)) in
    if ptr l == 0 then pure (a, kv, r) else deeper

-- `delete` at the node that holds the key. (Not in place, `mkBalanced` does not read the children of
-- `cur`, here the least node.)
pub delete_root : (a : ℕ) (l r : Tree) → M Tree
unfolding delete_min ptr free_node mk_balanced
delete_root a l r = do
  free_node a
  let both : M Tree = (do
    (m, mkv, r') ← delete_min r
    mk_balanced m null null l r' mkv at_right false)
  if ptr l == 0 then pure r else if ptr r == 0 then pure l else both

-- `delete`, with the value deleted; `none` is the null pointer.
pub delete : Tree → (key : ℕ) → M (Option ℕ × Tree)
unfolding mk_balanced delete_root
delete null key = pure (none, null)
delete (node a l r z kv) key =
    let go_left : M (Option ℕ × Tree) = (do
      (deleted, l') ← delete l key
      t ← mk_balanced a l r l' r kv at_left true
      pure (deleted, t)) in
    let go_right : M (Option ℕ × Tree) = (do
      (deleted, r') ← delete r key
      t ← mk_balanced a l r l r' kv at_right true
      pure (deleted, t)) in
    let found : M (Option ℕ × Tree) = (do t ← delete_root a l r; pure (some kv.value, t)) in
    if ltb key kv.key then go_left else if ltb kv.key key then go_right else found

pub tree_bb_delete : Tree → (key : ℕ) → M (Option ℕ × Tree)
unfolding delete set_root
tree_bb_delete tree key = do
  (deleted, nroot) ← delete tree key
  set_root tree nroot
  pure (deleted, nroot)

-- The walk of `TreeBB_Find`. (What the source does besides is a check that a cached line is not
-- stale; in the model every read sees the memory.)
pub tree_bb_find : Tree → (needle : ℕ) → Option Kv
tree_bb_find null needle = none
tree_bb_find (node a l r z kv) needle =
    let in_left = tree_bb_find l needle in
    let in_right = tree_bb_find r needle in
    if kv.key == needle then some kv else if ltb needle kv.key then in_left else in_right
