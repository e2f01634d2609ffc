-- ===== src/Mc/Items.antt =====
-- The items of a memcached server and what is stored in them: mc_code/mp_mc/servers/items.c with
-- `mc_set_key_ext` and `mc_get_key_ext` of server.c beside it. The slab allocator is another
-- project's library; `ps_slab_alloc_item` is a parameter, which may evict items. The layout of an item
-- is that of bi_mc, with pointers of 32 bits; a write beyond the end of an item is a fault, `none`.
-- Nothing gives `slabs_clsid` another value than 0, so its assertion is left out.
pub mod Kept
pub mod Uniform
use bi_project.Base.{
  ltb, leb, ◌==◌, if◌then◌else◌, Bool-cases, ltb→lt, ltb→le, lt→ltb, le→ltb, leb→le, leb→lt, le→leb,
  ==→eq, ==→ne, eq→==, ne→==, tests, length, length-append, All, All-append, All-mono, has, update,
  update_self, update_ne, ℕ, zero, suc, ◌+◌, ◌-◌, ◌*◌, ◌/◌, ◌%◌, ◌^◌, ◌≤◌, ◌<◌, ◌≡◌, refl, sym, ap,
  ap₂, ◌∙◌, ◌≢◌, ◌↔◌, ◌⊎◌, inl, inr, Bool, true, false, not, ◌&&◌, ◌||◌, Option, none, some, List,
  [], ◌∷◌, ◌++◌, map, append_assoc, append-nil, arith,
}
use bi_project.BiMc.Items.{sizeof_item, item_data}
use bi_project.BiMc.Memory.{mc_slab_obj_sz}
use bi_project.Base.Run.{◌>>=◌, ◌>>◌, check}
use bi_project.Assoc.{Item, HashTable, assoc_find, assoc_insert, do_item_link}

-- HASHPOWER_DEFAULT
abbrev pub hashpower : ℕ
hashpower = 22

-- A buffer of bytes, and `memcpy`
abbrev pub Bytes : Type 0
Bytes = ℕ → ℕ

abbrev pub memcpy : (dst src : Bytes) → ℕ → Bytes
memcpy dst src n i = if ltb i n then src i else dst i

-- `struct mc_status`, less `free`, which nothing counts
pub record McStatus : Type 0 where
  pub sets : ℕ
  pub gets : ℕ
  pub alloc : ℕ
  pub confict : ℕ
  pub evict : ℕ

-- The table, the fields of the items that do not stand in it, by the item's address (`nbytes`,
-- `recency` and `ITEM_data`), and the counters.
pub record Cache : Type 0 where
  pub table : HashTable
  pub nbytes : ℕ → ℕ
  pub recency : ℕ → ℕ
  pub contents : ℕ → Bytes
  pub status : McStatus

-- `ps_slab_alloc_item`: the address of a free item, and `none` for the null pointer
abbrev pub Alloc : Type 0
Alloc = Cache → Option ℕ × Cache

-- The calls of `ps_slab_alloc_item` in `do_item_alloc`: a second one follows one that found no memory.
unfoldable pub twice : Alloc → Option ℕ × Cache → Option ℕ × Cache
twice alloc (none, c) = alloc c
twice alloc (some a, c) = (some a, c)

-- The item that `do_item_alloc` sets up, with the writes of its key and its suffix. `nkey` is kept in
-- 8 bits.
pub item_at : (key : Bytes) → (nkey nbytes : ℕ) → Option ℕ × Cache → Option (Option Item × Cache)
item_at key nkey nbytes (none, c) = some (none, c)
item_at key nkey nbytes (some a, c) =
    check (leb (sizeof_item + nkey) mc_slab_obj_sz)
    >> (check (leb (item_data nkey nbytes) mc_slab_obj_sz)
        >> some (
          some (record { addr = a; nkey = nkey % 256; key = key; linked = false; slabbed = false }),
          record c { nbytes = update c.nbytes a nbytes },
        ))

pub do_item_alloc : Alloc → Cache → (key : Bytes) → (nkey nbytes : ℕ) → Option (Option Item × Cache)
unfolding twice item_at
do_item_alloc alloc c key nkey nbytes = item_at key nkey nbytes (twice alloc (alloc c))

-- `do_item_get`
pub do_item_get : Cache → (key : Bytes) → (nkey hv : ℕ) → Option Item
do_item_get c key nkey hv = assoc_find hashpower c.table key nkey hv

-- `do_item_update`
pub do_item_update : Cache → Item → Cache
do_item_update c it = record c {
  recency = if c.recency it.addr == 0 then update c.recency it.addr 1 else c.recency;
}

-- Whether `nbytes` bytes fit where the value of an item stands, behind a key of `nkey` bytes and the
-- suffix for the size field `size`.
abbrev pub value_fits : (nkey size nbytes : ℕ) → Bool
value_fits nkey size nbytes = leb (item_data nkey size + nbytes) mc_slab_obj_sz

-- `mc_set_key_ext` for a key that is there: the bytes are written over the old ones.
abbrev pub written_over : Cache → Item → (value : Bytes) → (nbytes : ℕ) → Cache
written_over c it value nbytes = record c {
  contents = update c.contents it.addr (memcpy (c.contents it.addr) value nbytes);
  status = record (c.status) { confict = c.status.confict + 1 };
}

pub set_old : Cache → Item → (value : Bytes) → (nbytes : ℕ) → Option Cache
set_old c it value nbytes =
    check (value_fits it.nkey (c.nbytes it.addr) nbytes) >> some (written_over c it value nbytes)

-- What `mc_set_key_ext` does with a new item: the outer `none` is a failed assertion or a fault, and `false` the
-- return of -1.
pub link_new : (value : Bytes) → (nbytes hv : ℕ) → Option Item × Cache → Option (Bool × Cache)
link_new value nbytes hv (none, c) = some (false, c)
link_new value nbytes hv (some it, c) =
    check (value_fits it.nkey (c.nbytes it.addr) nbytes)
    >> (do_item_link hashpower c.table it hv >>= (λ r. some (
      true,
      record c {
        table = r.1;
        contents = update c.contents it.addr (memcpy (c.contents it.addr) value nbytes);
      },
    )))

-- `mc_set_key_ext` for a new key, with `item_alloc`
pub set_new :
    Alloc
    → Cache
    → (key : Bytes) → (nkey : ℕ) → (value : Bytes) → (nbytes hv : ℕ) → Option (Bool × Cache)
unfolding do_item_alloc link_new
set_new alloc c key nkey value nbytes hv =
    do_item_alloc alloc (record c { status = record (c.status) { alloc = c.status.alloc + 1 } }) key
      nkey (nbytes + 2)
    >>= (λ r. link_new value nbytes hv r)

pub mc_set_key_ext :
    Alloc
    → Cache
    → (key : Bytes) → (nkey : ℕ) → (value : Bytes) → (nbytes hv : ℕ) → Option (Bool × Cache)
unfolding do_item_get set_old set_new
mc_set_key_ext alloc c key nkey value nbytes hv =
    let c1 = record c { status = record (c.status) { sets = c.status.sets + 1 } } in
    elim (do_item_get c1 key nkey hv) [
      | some it ↦ set_old c1 it value nbytes >>= (λ c2. some (true, c2))
      | none ↦ set_new alloc c1 key nkey value nbytes hv
    ]

pub mc_get_key_ext : Cache → (key : Bytes) → (nkey hv : ℕ) → Option Item × Cache
unfolding do_item_get do_item_update
mc_get_key_ext c key nkey hv =
    let c1 = record c { status = record (c.status) { gets = c.status.gets + 1 } } in
    elim (do_item_get c1 key nkey hv) [
      | none ↦ (none, c1)
      | some it ↦ (some it, do_item_update c1 it)
    ]
