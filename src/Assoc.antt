-- ===== src/Assoc.antt =====
-- The hash table of the message-passing memcached: mc_code/mp_mc/servers/assoc.c, and the calls of
-- mc_code/mp_mc/servers/items.c that link items into it.
pub mod Lookup
mod Tests
use bi_project.Base.{
  ltb, leb, ◌==◌, if◌then◌else◌, Bool-cases, ltb→lt, ltb→le, lt→ltb, le→ltb, leb→le, leb→lt, le→leb,
  ==→eq, ==→ne, eq→==, ne→==, tests, length, length-append, All, All-append, All-mono, has, update,
  update_self, update_ne, ℕ, zero, suc, ◌+◌, ◌-◌, ◌*◌, ◌/◌, ◌%◌, ◌^◌, ◌≤◌, ◌<◌, ◌≡◌, refl, sym, ap,
  ap₂, ◌∙◌, ◌≢◌, ◌↔◌, ◌⊎◌, inl, inr, Bool, true, false, not, ◌&&◌, ◌||◌, Option, none, some, List,
  [], ◌∷◌, ◌++◌, map, append_assoc, append-nil, arith,
}
use bi_project.Base.Run.{◌>>=◌, ◌>>◌, check}

-- `item`, as far as the table and its callers use it. The two flags are bits of `it_flags`; a key is
-- its bytes by index, and its length.
pub record Item : Type 0 where
  pub addr : ℕ
  pub nkey : ℕ
  pub key : ℕ → ℕ
  pub linked : Bool
  pub slabbed : Bool

-- `primary_hashtable`: each bucket is its chain of items, in the order of the `h_next` fields.
abbrev pub HashTable : Type 0
HashTable = ℕ → List Item

-- The place of a hash value in a table of `2 ^ hashpower` buckets.
abbrev pub bucket : (hashpower hv : ℕ) → ℕ
bucket hashpower hv = hv % 2 ^ hashpower

-- `memcmp(a, b, n) == 0`, which does not depend on the order of the bytes
abbrev pub memeq : (a b : ℕ → ℕ) → (n : ℕ) → Bool
memeq a b zero = true
memeq a b (suc n) = memeq a b n && (a n == b n)

-- The test of `assoc_find` and `_hashitem_before`
abbrev pub same_key : (key : ℕ → ℕ) → (nkey : ℕ) → Item → Bool
same_key key nkey it = (nkey == it.nkey) && memeq key it.key nkey

-- The walk of `assoc_find`; `none` is the null pointer.
pub find_loop : (key : ℕ → ℕ) → (nkey : ℕ) → List Item → Option Item
find_loop key nkey [] = none
find_loop key nkey (it ∷ chain) =
    let rest = find_loop key nkey chain in if same_key key nkey it then some it else rest

pub assoc_find : (hashpower : ℕ) → HashTable → (key : ℕ → ℕ) → (nkey hv : ℕ) → Option Item
unfolding find_loop
assoc_find hashpower table key nkey hv = find_loop key nkey (table (bucket hashpower hv))

pub assoc_insert : (hashpower : ℕ) → HashTable → Item → (hv : ℕ) → HashTable
assoc_insert hashpower table it hv =
    update table (bucket hashpower hv) (it ∷ table (bucket hashpower hv))

-- The walk of `_hashitem_before`, and the chain without the item that it finds; `none` is the failed
-- assertion of `assoc_delete`.
pub delete_loop : (key : ℕ → ℕ) → (nkey : ℕ) → List Item → Option (List Item)
delete_loop key nkey [] = none
delete_loop key nkey (it ∷ chain) =
    let rest = delete_loop key nkey chain in
    if same_key key nkey it then some chain else (rest >>= (λ c. some (it ∷ c)))

pub assoc_delete : (hashpower : ℕ) → HashTable → (key : ℕ → ℕ) → (nkey hv : ℕ) → Option HashTable
unfolding delete_loop
assoc_delete hashpower table key nkey hv =
    delete_loop key nkey (table (bucket hashpower hv))
    >>= (λ chain. some (update table (bucket hashpower hv) chain))

-- `do_item_link`: the item's flag is set before it goes into the table.
unfoldable pub do_item_link :
    (hashpower : ℕ) → HashTable → Item → (hv : ℕ) → Option (Item × HashTable)
unfolding assoc_insert
do_item_link hashpower table it hv =
    let it' : Item = record it { linked = true } in
    check (not (it.linked || it.slabbed)) >> some (it', assoc_insert hashpower table it' hv)

-- `do_item_unlink`: the item, which then goes to the slab allocator, and the table
pub do_item_unlink : (hashpower : ℕ) → HashTable → Item → (hv : ℕ) → Option (Item × HashTable)
unfolding assoc_delete
do_item_unlink hashpower table it hv =
    check it.linked
    >> (assoc_delete hashpower table it.key it.nkey hv
        >>= (λ table'. check (not it.slabbed) >> some (record it { linked = false }, table')))

-- `do_item_replace`: the old item, which then goes to the slab allocator, the new one and the table
pub do_item_replace :
    (hashpower : ℕ) → HashTable → (old new : Item) → (hv : ℕ) → Option (Item × Item × HashTable)
unfolding assoc_delete assoc_insert
do_item_replace hashpower table old new hv =
    let new' : Item = record new { linked = true } in
    check old.linked
    >> (assoc_delete hashpower table old.key old.nkey hv >>= (λ table'.
        check (not (new.linked || new.slabbed))
        >> (check (not old.slabbed)
            >> some (record old { linked = false }, new', assoc_insert hashpower table' new' hv))))
