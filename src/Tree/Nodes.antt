-- ===== src/Tree/Nodes.antt =====
-- The nodes of rb_tree/cbtree.h and the state that the operations of rb_tree/cbtree.c thread.
use bi_project.Base.{ℕ, ◌≡◌, Bool, true, false, Option, none, some, List}

-- `struct cb_kv`
pub record Kv : Type 0 where
  pub key : ℕ
  pub value : ℕ

-- `struct TreeBB_Node` and the null pointer; `addr` is the number of the node's allocation.
pub data Tree : Type 0 where
  null : Tree
  node : (addr : ℕ) (left right : Tree) (size : ℕ) (kv : Kv) → Tree

-- The pointers that readers follow: the two fields of a node, and `struct cb_root`.
pub data Cell : Type 0 where
  left_of : ℕ → Cell
  right_of : ℕ → Cell
  root : Cell

-- `made` allocations have been made, of the `supply` that the slab allocator has memory for; `freed` is
-- `free_buf`.
pub record Store : Type 0 where
  pub made : ℕ
  pub supply : ℕ
  pub freed : List ℕ
  pub published : List Cell

-- `none` is a null dereference or a failed assertion.
abbrev pub M : Type 0 → Type 0
M A = Store → Option (A × Store)

abbrev pub pure : {A : Type 0} → A → M A
pure a s = some (a, s)

abbrev pub fault : {A : Type 0} → M A
fault s = none

infixl 5 ◌>>=◌ ◌>>◌
abbrev pub ◌>>=◌ : {A B : Type 0} → M A → (A → M B) → M B
◌>>=◌ m f s = elim (m s) [ none ↦ none | some (a, s') ↦ f a s' ]

abbrev pub ◌>>◌ : {B : Type 0} → M (Unit {0}) → M B → M B
m >> k = m >>= λ _. k

abbrev pub check : Bool → M (Unit {0})
check true s = some (tt, s)
check false s = none

-- A step that ends is followed by the rest.
pub bind-some :
    {A B : Type 0} (m : M A) (f : A → M B) (s : Store) {a : A} {s' : Store}
    → m s ≡ some (a, s')
    → (m >>= f) s ≡ f a s'
bind-some m f s e = rw (e, ◌>>=◌)
