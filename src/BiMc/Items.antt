-- ===== src/BiMc/Items.antt =====
-- The items of mc_code/bi_mc/items.c and the calls that link, unlink and replace them. Nothing gives
-- `slabs_clsid` another value than 0, so its test is left out.
use bi_project.BiMc.{Bytes, Object, Env, Node, parsec_mem_free}
use bi_project.BiMc.Table.{assoc_find, assoc_insert, assoc_delete, assoc_replace}
use bi_project.Base.{
  ltb, if◌then◌else◌, update, ℕ, zero, suc, ◌+◌, ◌-◌, ◌/◌, ◌%◌, Bool, true, false, not, ◌||◌,
  Option, some,
}
use bi_project.Base.Run.{◌>>=◌, ◌>>◌, check}

-- `sizeof(item)`, with pointers of 32 bits
abbrev pub sizeof_item : ℕ
sizeof_item = 36

-- The digits of a number below `10 ^ fuel`
unfoldable pub digits : (fuel n : ℕ) → ℕ
digits zero n = 0
digits (suc fuel) n = let rest = digits fuel (n / 10) in if ltb n 10 then 1 else 1 + rest

-- `item_make_header` with the flags 0: the length of " 0 <size>\r\n", and the size of the item. The
-- key's length is taken in 8 bits.
unfoldable pub item_make_header : (nkey nbytes : ℕ) → ℕ
unfolding digits
item_make_header nkey nbytes = sizeof_item + nkey % 256 + (5 + digits 10 (nbytes - 2)) + nbytes

-- Where the value of an item stands in its object, behind the key and the suffix; `nkey` is the
-- item's own, in 8 bits.
abbrev pub item_data : (nkey nbytes : ℕ) → ℕ
item_data nkey nbytes = sizeof_item + nkey % 256 + 1 + (5 + digits 10 (nbytes - 2))

-- `it_flags` of one object
abbrev pub flags : (ℕ → Object) → (a : ℕ) → (linked : Bool) → ℕ → Object
flags objs a linked = update objs a (record (objs a) { linked = linked })

module _ {L : Type 0} where
  -- `do_item_get`
  unfoldable pub do_item_get : Node L → (key : Bytes) → (nkey hv : ℕ) → ℕ
  do_item_get n key nkey hv = assoc_find n.objs n.table key nkey hv

  -- `do_item_link`, with its assertion
  unfoldable pub do_item_link : (node it hv : ℕ) → Node L → Option (Node L)
  unfolding assoc_insert
  do_item_link node it hv n =
      check (not ((n.objs it).linked || (n.objs it).slabbed))
      >> (assoc_insert node n.table it hv
          >>= (λ table. some (record n { objs = flags n.objs it true; table = table })))

  -- `do_item_remove_free` and `item_free`
  unfoldable pub do_item_remove_free : Env L → (node it : ℕ) → Node L → Option (Node L)
  unfolding parsec_mem_free
  do_item_remove_free env node it n =
      check (not ((n.objs it).slabbed)) >> parsec_mem_free env node it n

  unfoldable pub do_item_unlink : Env L → (node it hv : ℕ) → Node L → Option (Node L)
  unfolding assoc_delete do_item_remove_free
  do_item_unlink env node it hv n =
      check ((n.objs it).linked)
      >> (assoc_delete node (flags n.objs it false) n.table ((n.objs it).key) ((n.objs it).nkey) hv
          >>= (λ table.
              do_item_remove_free env node it
                (record n { objs = flags n.objs it false; table = table })))

  -- The node before `do_item_replace` gives the old item away
  unfoldable pub replaced : (old new hv : ℕ) → Node L → Node L
  unfolding assoc_replace
  replaced old new hv n = record n {
    table = assoc_replace (flags n.objs new true) n.table old new hv;
    objs = flags (flags n.objs new true) old false;
  }

  unfoldable pub do_item_replace : Env L → (node old new hv : ℕ) → Node L → Option (Node L)
  unfolding replaced do_item_remove_free
  do_item_replace env node old new hv n =
      check ((n.objs old).linked)
      >> (check (not ((n.objs new).linked || (n.objs new).slabbed))
          >> do_item_remove_free env node old (replaced old new hv n))
