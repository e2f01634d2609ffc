-- ===== src/Tree/Items.antt =====
-- A sorted list of pairs as a finite map: what the operations of rb_tree/cbtree.c are meant to do.
use bi_project.Base.{
  ltb, ◌==◌, if◌then◌else◌, lt→ltb, le→ltb, eq→==, ne→==, length, All, All-mono, ℕ, ◌+◌, ◌≤◌, ◌<◌,
  ◌≡◌, refl, ap, Option, none, some, List, [], ◌∷◌, ◌++◌, arith,
}
use bi_project.Tree.Nodes.{Kv}

abbrev pub Below : ℕ → List Kv → Type 0
Below k = All (λ y. y.key < k)

abbrev pub Above : ℕ → List Kv → Type 0
Above k = All (λ y. k < y.key)

-- The keys increase strictly.
abbrev pub Sorted : List Kv → Type 0
Sorted [] = Unit
Sorted (x ∷ xs) = Above x.key xs × Sorted xs

-- A key that is there keeps its value.
abbrev pub insert_item : Kv → List Kv → List Kv
insert_item kv [] = kv ∷ []
insert_item kv (x ∷ xs) =
    if ltb kv.key x.key
    then kv ∷ x ∷ xs
    else if ltb x.key kv.key
    then x ∷ insert_item kv xs
    else x ∷ xs

abbrev pub delete_item : ℕ → List Kv → List Kv
delete_item k [] = []
delete_item k (x ∷ xs) = if x.key == k then xs else x ∷ delete_item k xs

abbrev pub lookup : ℕ → List Kv → Option Kv
lookup k [] = none
lookup k (x ∷ xs) = if x.key == k then some x else lookup k xs

pub Sorted-split :
    (xs : List Kv) (y : Kv) (ys : List Kv)
    → Sorted (xs ++ (y ∷ ys))
    → Sorted xs × Below y.key xs × Above y.key ys × Sorted ys
Sorted-split [] y ys (h, s) = (tt, tt, h, s)
Sorted-split (x ∷ xs) y ys (h, s) =
    let (sx, bx, ay, sy) = Sorted-split xs y ys s in
    let (hx, lt) = Above-split x.key xs y ys h in ((hx, sx), (lt, bx), ay, sy)
  where
    Above-split :
        (k : ℕ) (xs : List Kv) (y : Kv) (ys : List Kv)
        → Above k (xs ++ (y ∷ ys))
        → Above k xs × (k < y.key)
    Above-split k [] y ys (lt, h) = (tt, lt)
    Above-split k (x ∷ xs) y ys (lt, h) =
        ((lt, (Above-split k xs y ys h).0), (Above-split k xs y ys h).1)

pub insert_item-left :
    (kv y : Kv) (xs ys : List Kv)
    → kv.key < y.key
    → insert_item kv (xs ++ (y ∷ ys)) ≡ insert_item kv xs ++ (y ∷ ys)
insert_item-left kv y [] ys lt = rw (lt→ltb _ _ lt)
insert_item-left kv y (x ∷ xs) ys lt = ground (arith, insert_item-left kv y xs ys)

pub insert_item-right :
    (kv y : Kv) (xs ys : List Kv)
    → y.key < kv.key
    → Below y.key xs
    → insert_item kv (xs ++ (y ∷ ys)) ≡ xs ++ (y ∷ insert_item kv ys)
insert_item-right kv y [] ys lt b = rw (le→ltb kv.key y.key (omega arith), lt→ltb _ _ lt)
insert_item-right kv y (x ∷ xs) ys lt b = ground (arith, insert_item-right kv y xs ys)

pub insert_item-here :
    (kv y : Kv) (xs ys : List Kv)
    → y.key ≡ kv.key
    → Below y.key xs
    → insert_item kv (xs ++ (y ∷ ys)) ≡ xs ++ (y ∷ ys)
insert_item-here kv y [] ys e b =
    rw (le→ltb kv.key y.key (omega arith), le→ltb y.key kv.key (omega arith))
insert_item-here kv y (x ∷ xs) ys e b = ground (arith, insert_item-here kv y xs ys)

pub delete_item-here :
    (k : ℕ) (y : Kv) (xs ys : List Kv)
    → y.key ≡ k
    → Below y.key xs
    → delete_item k (xs ++ (y ∷ ys)) ≡ xs ++ ys
delete_item-here k y [] ys e b = rw (eq→== y.key k e)
delete_item-here k y (x ∷ xs) ys e b = ground (arith, delete_item-here k y xs ys)

pub delete_item-right :
    (k : ℕ) (y : Kv) (xs ys : List Kv)
    → y.key < k
    → Below y.key xs
    → delete_item k (xs ++ (y ∷ ys)) ≡ xs ++ (y ∷ delete_item k ys)
delete_item-right k y [] ys lt b = rw (ne→== y.key k (omega arith))
delete_item-right k y (x ∷ xs) ys lt b = ground (arith, delete_item-right k y xs ys)

delete_item-Above : (k : ℕ) (ys : List Kv) → Above k ys → delete_item k ys ≡ ys
delete_item-Above k [] a = refl
delete_item-Above k (y ∷ ys) a = ground (arith, delete_item-Above k ys)

Above-mono : (k k' : ℕ) (ys : List Kv) → k < k' → Above k' ys → Above k ys
Above-mono k k' ys lt = All-mono (λ y. k' < y.key) (λ y. k < y.key) ys (λ y h. omega arith)

pub delete_item-left :
    (k : ℕ) (y : Kv) (xs ys : List Kv)
    → k < y.key
    → Above y.key ys
    → delete_item k (xs ++ (y ∷ ys)) ≡ delete_item k xs ++ (y ∷ ys)
delete_item-left k y [] ys lt a =
    rw (ne→== y.key k (omega arith))
      (ap (λ l. y ∷ l) (delete_item-Above k ys (Above-mono k y.key ys lt a)))
delete_item-left k y (x ∷ xs) ys lt a = ground (arith, delete_item-left k y xs ys)

lookup-Above : (k : ℕ) (ys : List Kv) → Above k ys → lookup k ys ≡ none
lookup-Above k [] a = refl
lookup-Above k (y ∷ ys) a = ground (arith, lookup-Above k ys)

pub lookup-left :
    (k : ℕ) (y : Kv) (xs ys : List Kv)
    → k < y.key
    → Above y.key ys
    → lookup k (xs ++ (y ∷ ys)) ≡ lookup k xs
lookup-left k y [] ys lt a =
    rw (ne→== y.key k (omega arith)) (lookup-Above k ys (Above-mono k y.key ys lt a))
lookup-left k y (x ∷ xs) ys lt a = ground (arith, lookup-left k y xs ys)

pub lookup-right :
    (k : ℕ) (y : Kv) (xs ys : List Kv)
    → y.key < k
    → Below y.key xs
    → lookup k (xs ++ (y ∷ ys)) ≡ lookup k ys
lookup-right k y [] ys lt b = rw (ne→== y.key k (omega arith))
lookup-right k y (x ∷ xs) ys lt b = ground (arith, lookup-right k y xs ys)

pub lookup-here :
    (k : ℕ) (y : Kv) (xs ys : List Kv)
    → y.key ≡ k
    → Below y.key xs
    → lookup k (xs ++ (y ∷ ys)) ≡ some y
lookup-here k y [] ys e b = rw (eq→== y.key k e)
lookup-here k y (x ∷ xs) ys e b = ground (arith, lookup-here k y xs ys)

-- The two changes keep the order.
Above-insert :
    (k : ℕ) (kv : Kv) (xs : List Kv) → k < kv.key → Above k xs → Above k (insert_item kv xs)
Above-insert k kv [] lt a = (lt, tt)
Above-insert k kv (x ∷ xs) lt a = ground (arith, Above-insert k kv xs)

pub Sorted-insert : (kv : Kv) (xs : List Kv) → Sorted xs → Sorted (insert_item kv xs)
Sorted-insert kv [] s = (tt, tt)
Sorted-insert kv (x ∷ xs) s =
    ground (arith, Sorted-insert kv xs, Above-insert x.key kv xs, Above-mono kv.key x.key xs)

Above-delete : (k d : ℕ) (xs : List Kv) → Above k xs → Above k (delete_item d xs)
Above-delete k d [] a = tt
Above-delete k d (x ∷ xs) a = ground (arith, Above-delete k d xs)

pub Sorted-delete : (d : ℕ) (xs : List Kv) → Sorted xs → Sorted (delete_item d xs)
Sorted-delete d [] s = tt
Sorted-delete d (x ∷ xs) s = ground (arith, Sorted-delete d xs, Above-delete x.key d xs)

pub length-insert : (kv : Kv) (xs : List Kv) → length (insert_item kv xs) ≤ length xs + 1
length-insert kv [] = omega arith
length-insert kv (x ∷ xs) = ground (arith, length-insert kv xs)

pub length-delete : (d : ℕ) (xs : List Kv) → length (delete_item d xs) ≤ length xs
length-delete d [] = omega arith
length-delete d (x ∷ xs) = ground (arith, length-delete d xs)
