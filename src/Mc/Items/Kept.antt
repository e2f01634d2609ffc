-- ===== src/Mc/Items/Kept.antt =====
-- What is stored under a key is what a lookup of the key returns.
use bi_project.Base.{
  leb, le→leb, eq→==, update, update_self, ℕ, zero, suc, ◌+◌, ◌%◌, ◌≤◌, ◌<◌, ◌≡◌, refl, ap, ◌∙◌,
  true, false, Option, none, some, arith,
}
use bi_project.BiMc.Items.{sizeof_item, item_data}
use bi_project.BiMc.Memory.{mc_slab_obj_sz}
use bi_project.Base.Run.{◌>>=◌, check_then, bind_some}
use bi_project.Assoc.{Item, HashTable, bucket, memeq, assoc_find, assoc_insert, do_item_link}
use bi_project.Assoc.Lookup.{find-insert, find-agree}
use bi_project.Mc.Items.{
  twice, hashpower, value_fits, written_over, Bytes, memcpy, Cache, Alloc, item_at, link_new,
  do_item_alloc, do_item_get, set_old, set_new, mc_set_key_ext, mc_get_key_ext,
}

-- The allocator finds memory, at once or when it is asked again after an eviction.
abbrev pub Serves : Alloc → Type 0
Serves alloc = (c : Cache) → (a : ℕ) × (c' : Cache) × (twice alloc (alloc c) ≡ (some a, c'))

-- The size field that an item has after a store: the old one stays.
abbrev pub stored_size : Option Item → (sizes : ℕ → ℕ) → (nbytes : ℕ) → ℕ
stored_size none sizes nbytes = nbytes + 2
stored_size (some old) sizes nbytes = sizes old.addr

-- There is room for a value of `nbytes` bytes in the item that holds the key, or in a new one.
abbrev pub Room : Option Item → (sizes : ℕ → ℕ) → (nkey nbytes : ℕ) → Type 0
Room none sizes nkey nbytes = item_data nkey (nbytes + 2) + nbytes ≤ mc_slab_obj_sz
Room (some old) sizes nkey nbytes = item_data old.nkey (sizes old.addr) + nbytes ≤ mc_slab_obj_sz

memeq_self : (a : Bytes) (n : ℕ) → memeq a a n ≡ true
memeq_self a zero = refl
memeq_self a (suc n) = ground (arith, memeq_self a n)

-- A lookup finds the item just linked.
find-link :
    (table : HashTable) (it : Item) (key : Bytes) (nkey hv : ℕ)
    → it.nkey ≡ nkey
    → it.key ≡ key
    → assoc_find hashpower (assoc_insert hashpower table it hv) key nkey hv ≡ some it
find-link table it key nkey hv e e' =
    find-insert hashpower table it hv key nkey hv
    ∙ rw (
      e,
      e',
      eq→== nkey nkey refl,
      memeq_self key nkey,
      eq→== (bucket hashpower hv) (bucket hashpower hv) refl,
    )

-- What a get returns is what a lookup finds.
pub get-find :
    (c : Cache) (key : Bytes) (nkey hv : ℕ)
    → (mc_get_key_ext c key nkey hv).0 ≡ assoc_find hashpower c.table key nkey hv
unfolding mc_get_key_ext do_item_get
get-find c key nkey hv = by_find (assoc_find hashpower c.table key nkey hv) refl
  where
    by_find :
        (r : Option Item)
        → assoc_find hashpower c.table key nkey hv ≡ r
        → (mc_get_key_ext c key nkey hv).0 ≡ assoc_find hashpower c.table key nkey hv
    by_find none e = rw (e, mc_get_key_ext)
    by_find (some it) e = rw (e, mc_get_key_ext)

pub get-agree :
    (c : Cache) (a b : Bytes) (nkey hv : ℕ)
    → ((i : ℕ) → i < nkey → a i ≡ b i)
    → mc_get_key_ext c a nkey hv ≡ mc_get_key_ext c b nkey hv
unfolding mc_get_key_ext do_item_get
get-agree c a b nkey hv h = rw (mc_get_key_ext, find-agree hashpower c.table a b nkey hv h)

-- What a lookup returns after a store.
pub record Holds (c' : Cache) (key : Bytes) (nkey hv : ℕ) (value : Bytes) (nbytes size : ℕ)
    : Type 0 where
  pub item : Item
  pub found : (mc_get_key_ext c' key nkey hv).0 ≡ some item
  pub bytes : (i : ℕ) → i < nbytes → c'.contents item.addr i ≡ value i
  pub sized : c'.nbytes item.addr ≡ size

pub do_item_get-find :
    (c : Cache) (key : Bytes) (nkey hv : ℕ)
    → do_item_get c key nkey hv ≡ assoc_find hashpower c.table key nkey hv
unfolding do_item_get
do_item_get-find c key nkey hv = refl

get-found :
    (c : Cache) (key : Bytes) (nkey hv : ℕ) (it : Item)
    → assoc_find hashpower c.table key nkey hv ≡ some it
    → (mc_get_key_ext c key nkey hv).0 ≡ some it
unfolding mc_get_key_ext do_item_get
get-found c key nkey hv it e = rw (e, mc_get_key_ext)

copied :
    (f : ℕ → Bytes) (a : ℕ) (value : Bytes) (n i : ℕ)
    → i < n
    → update f a (memcpy (f a) value n) a i ≡ value i
copied f a value n i lt = ground arith

pub old-Holds :
    (c : Cache) (key : Bytes) (nkey hv : ℕ) (value : Bytes) (nbytes : ℕ) (it : Item)
    → assoc_find hashpower c.table key nkey hv ≡ some it
    → Holds (written_over c it value nbytes) key nkey hv value nbytes (c.nbytes it.addr)
old-Holds c key nkey hv value nbytes it e = record {
  item = it;
  found = get-found _ key nkey hv it e;
  bytes = λ i lt. copied c.contents it.addr value nbytes i lt;
  sized = refl;
}

pub old-done :
    (c : Cache) (it : Item) (value : Bytes) (nkey nbytes : ℕ)
    → Room (some it) c.nbytes nkey nbytes
    → set_old c it value nbytes ≡ some (written_over c it value nbytes)
unfolding set_old
old-done c it value nkey nbytes fits = check_then _ (le→leb _ _ fits)

-- A new item with a key and a value that fit it, before its value
pub item_at-done :
    (a : ℕ) (c : Cache) (key : Bytes) (nkey nbytes : ℕ)
    → item_data nkey (nbytes + 2) + nbytes ≤ mc_slab_obj_sz
    → nkey < 256
    → item_at key nkey (nbytes + 2) (some a, c)
      ≡ some (
        some (record { addr = a; nkey = nkey % 256; key = key; linked = false; slabbed = false }),
        record c { nbytes = update c.nbytes a (nbytes + 2) },
      )
unfolding item_at
item_at-done a c key nkey nbytes fits small =
    let key_in : leb (sizeof_item + nkey) mc_slab_obj_sz ≡ true = le→leb _ _ (omega arith) in
    let suffix_in : leb (item_data nkey (nbytes + 2)) mc_slab_obj_sz ≡ true =
      le→leb _ _ (omega arith) in
    check_then _ key_in ∙ check_then _ suffix_in

-- The value of such an item fits.
pub new-fits :
    (c : Cache) (a nkey nbytes : ℕ)
    → item_data nkey (nbytes + 2) + nbytes ≤ mc_slab_obj_sz
    → value_fits (nkey % 256) (update c.nbytes a (nbytes + 2) a) nbytes ≡ true
new-fits c a nkey nbytes fits =
    let same = update_self c.nbytes a (nbytes + 2) in le→leb _ _ (rw same (omega arith))

-- The item that is set up in the memory found goes into the table with its value.
pub link-Holds :
    (got : Option ℕ × Cache) (a : ℕ) (c : Cache)
    → (key : Bytes) (nkey : ℕ) (value : Bytes) (nbytes hv : ℕ) → got ≡ (some a, c)
    → nkey < 256
    → item_data nkey (nbytes + 2) + nbytes ≤ mc_slab_obj_sz
    → (c' : Cache) × ((item_at key nkey (nbytes + 2) got >>= (λ r. link_new value nbytes hv r))
        ≡ some (true, c'))
      × Holds c' key nkey hv value nbytes (nbytes + 2)
unfolding do_item_link link_new
link-Holds got a c key nkey value nbytes hv e small fits =
    let whole : nkey % 256 ≡ nkey = omega arith in
    let it' : Item = record {
      addr = a;
      nkey = nkey % 256;
      key = key;
      linked = true;
      slabbed = false;
    } in
    let c3 : Cache = record c {
      nbytes = update c.nbytes a (nbytes + 2);
      table = assoc_insert hashpower c.table it' hv;
      contents = update c.contents a (memcpy (c.contents a) value nbytes);
    } in
    (
      c3,
      ap (λ once. item_at key nkey (nbytes + 2) once >>= (λ r. link_new value nbytes hv r)) e
          ∙ bind_some _ (item_at-done a c key nkey nbytes fits small)
          ∙ check_then _ (new-fits c a nkey nbytes fits),
      record {
        item = it';
        found = get-found c3 key nkey hv it' (find-link c.table it' key nkey hv whole refl);
        bytes = λ i lt. copied c.contents a value nbytes i lt;
        sized = update_self c.nbytes a (nbytes + 2);
      },
    )

new-Holds :
    (alloc : Alloc) (c : Cache) (key : Bytes) (nkey : ℕ) (value : Bytes) (nbytes hv : ℕ)
    → Serves alloc
    → nkey < 256
    → item_data nkey (nbytes + 2) + nbytes ≤ mc_slab_obj_sz
    → (c' : Cache) × (set_new alloc c key nkey value nbytes hv ≡ some (true, c'))
      × Holds c' key nkey hv value nbytes (nbytes + 2)
unfolding set_new do_item_alloc
new-Holds alloc c key nkey value nbytes hv serves small fits =
    let c1 = record c { status = record (c.status) { alloc = c.status.alloc + 1 } } in
    let (a, c2, e) = serves c1 in
    link-Holds (twice alloc (alloc c1)) a c2 key nkey value nbytes hv e small fits

-- With an allocator that finds memory, and room for the value, a set of a key of fewer than 256
-- bytes succeeds, and a get of the key then finds an item with the bytes stored; the item of a key that was there keeps its
-- size.
pub set-get :
    (alloc : Alloc) (c : Cache) (key : Bytes) (nkey : ℕ) (value : Bytes) (nbytes hv : ℕ)
    → Serves alloc
    → nkey < 256
    → Room (assoc_find hashpower c.table key nkey hv) c.nbytes nkey nbytes
    → (c' : Cache) × (mc_set_key_ext alloc c key nkey value nbytes hv ≡ some (true, c'))
      × Holds c' key nkey hv value nbytes
          (stored_size (assoc_find hashpower c.table key nkey hv) c.nbytes nbytes)
unfolding mc_set_key_ext do_item_get
set-get alloc c key nkey value nbytes hv serves small room =
    by_find (assoc_find hashpower c.table key nkey hv) refl
  where
    by_find :
        (r : Option Item)
        → assoc_find hashpower c.table key nkey hv ≡ r
        → (c' : Cache) × (mc_set_key_ext alloc c key nkey value nbytes hv ≡ some (true, c'))
          × Holds c' key nkey hv value nbytes
              (stored_size (assoc_find hashpower c.table key nkey hv) c.nbytes nbytes)
    by_find none e =
        let c1 = record c { status = record (c.status) { sets = c.status.sets + 1 } } in
        let (c', done, holds) =
          new-Holds alloc c1 key nkey value nbytes hv serves small (rw e at room) in
        rw e (c', rw (e, mc_set_key_ext) done, holds)
    by_find (some it) e =
        let c1 = record c { status = record (c.status) { sets = c.status.sets + 1 } } in
        rw e (
          written_over c1 it value nbytes,
          rw (e, mc_set_key_ext) (bind_some _ (old-done c1 it value nkey nbytes (rw e at room))),
          old-Holds c1 key nkey hv value nbytes it e,
        )
