-- ===== src/BiMc/Keys.antt =====
-- Setting and getting a key on a server: `do_item_alloc` of mc_code/bi_mc/items.c, and
-- `mc_set_key_rcv` and `mc_get_key_ext` of memcache.c. A write beyond the end of an
-- object is a fault here, `none`. The measured latencies are left out.
pub mod Serving
pub mod Put
pub mod Replaced
pub mod Exchange
pub mod Alloc
pub mod Objects
pub mod Sets
use bi_project.BiMc.{Bytes, memcpy, Object, Env, Node}
use bi_project.BiMc.Table.{Chains, assoc_find}
use bi_project.BiMc.Items.{
  sizeof_item, item_data, item_make_header, do_item_get, do_item_link, do_item_replace,
}
use bi_project.BiMc.Memory.{mc_slab_obj_sz, parsec_mem_alloc}
use bi_project.Base.{
  ltb, leb, ◌==◌, if◌then◌else◌, Bool-cases, ltb→lt, ltb→le, lt→ltb, le→ltb, leb→le, leb→lt, le→leb,
  ==→eq, ==→ne, eq→==, ne→==, tests, length, length-append, All, All-append, All-mono, has, update,
  update_self, update_ne, ℕ, zero, suc, ◌+◌, ◌-◌, ◌*◌, ◌/◌, ◌%◌, ◌^◌, ◌≤◌, ◌<◌, ◌≡◌, refl, sym, ap,
  ap₂, ◌∙◌, ◌≢◌, ◌↔◌, ◌⊎◌, inl, inr, Bool, true, false, not, ◌&&◌, ◌||◌, Option, none, some, List,
  [], ◌∷◌, ◌++◌, map, append_assoc, append-nil, arith,
}
use bi_project.Base.Run.{◌>>=◌, ◌>>◌, check}

-- The fields that `do_item_alloc` sets; `nkey` is kept in 8 bits.
abbrev pub set_up : (key : Bytes) → (nkey nbytes : ℕ) → Object → Object
set_up key nkey nbytes o = record o {
  nkey = nkey % 256;
  nbytes = nbytes;
  key = memcpy o.key key nkey;
  linked = false;
  slabbed = false;
}

-- What `mc_set_key_rcv` writes into the new item
abbrev pub filled : (value : Bytes) → (nbytes hv : ℕ) → Object → Object
filled value nbytes hv o = record o { contents = memcpy o.contents value nbytes; hv = hv }

-- What `mc_get_key_ext` returns for the item `it`: the value and its size, `none` for no item.
abbrev pub value_of : (ℕ → Object) → ℕ → Option (Bytes × ℕ)
value_of objs it = if it == 0 then none else some ((objs it).contents, (objs it).nbytes - 2)

module _ {L : Type 0} where
  -- The calls of `parsec_mem_alloc` in `do_item_alloc`: a second one follows one that found no memory.
  unfoldable pub alloc_again : Env L → (node size : ℕ) → ℕ × Node L → Option (ℕ × Node L)
  unfolding parsec_mem_alloc
  alloc_again env node size (a, n) =
      if a == 0 then parsec_mem_alloc env node size n else some (a, n)

  -- The end of `do_item_alloc`, with the writes of the key and the suffix into the object
  unfoldable pub item_at : (key : Bytes) → (nkey nbytes : ℕ) → ℕ × Node L → Option (ℕ × Node L)
  item_at key nkey nbytes (a, n) =
      if a == 0
      then some (0, n)
      else (check (leb (sizeof_item + nkey) mc_slab_obj_sz)
          >> (check (leb (item_data nkey nbytes) mc_slab_obj_sz)
              >> some (a, record n { objs = update n.objs a (set_up key nkey nbytes (n.objs a)) })))

  -- `do_item_alloc`; 0 is the null pointer.
  unfoldable pub do_item_alloc :
      Env L → (node : ℕ) → (key : Bytes) → (nkey nbytes : ℕ) → Node L → Option (ℕ × Node L)
  unfolding parsec_mem_alloc alloc_again item_at item_make_header
  do_item_alloc env node key nkey nbytes n =
      parsec_mem_alloc env node (item_make_header (nkey + 1) nbytes) n >>= (λ r.
        alloc_again env node (item_make_header (nkey + 1) nbytes) r
        >>= (λ r'. item_at key nkey nbytes r'))

  -- `mc_set_key_rcv` with the new item `it`, filled
  unfoldable pub put_item :
      Env L → (node it : ℕ) → (key : Bytes) → (nkey hv : ℕ) → Node L → Option (Node L)
  unfolding do_item_get do_item_link do_item_replace
  put_item env node it key nkey hv n =
      let old = do_item_get n key nkey hv in
      if old == 0
      then do_item_link node it hv n
      else (do_item_replace env node old it hv n >>= (λ n1.
          some (record n1 { status = record (n1.status) { confict = n1.status.confict + 1 } })))

  -- `mc_set_key_rcv` after `do_item_alloc`; the flag is false for the return of -1.
  unfoldable pub set_item :
      Env L
      → (node : ℕ) → (key : Bytes) → (nkey : ℕ) → (value : Bytes) → (nbytes hv : ℕ) → ℕ × Node L
      → Option (Bool × Node L)
  unfolding put_item
  set_item env node key nkey value nbytes hv (it, n) =
      if it == 0
      then some (false, n)
      else (check (leb (item_data nkey (nbytes + 2) + nbytes) mc_slab_obj_sz)
          >> (put_item env node it key nkey hv
                (record n { objs = update n.objs it (filled value nbytes hv (n.objs it)) })
              >>= (λ n1. some (true, n1))))

  unfoldable pub mc_set_key_rcv :
      Env L
      → (node : ℕ) → (key : Bytes) → (nkey : ℕ) → (value : Bytes) → (nbytes hv : ℕ) → Node L
      → Option (Bool × Node L)
  unfolding do_item_alloc set_item
  mc_set_key_rcv env node key nkey value nbytes hv n =
      do_item_alloc env node key nkey (nbytes + 2)
        (record n { status = record (n.status) { sets = n.status.sets + 1 } })
      >>= (λ r. set_item env node key nkey value nbytes hv r)

  -- `mc_get_key_ext`. The reader first looks at the table and the objects that its cache shows,
  -- `seen`; after `assoc_flush` it reads the memory, `n`.
  unfoldable pub mc_get_key_ext :
      (seen : (ℕ → Object) × Chains)
      → Node L
      → (key : Bytes) → (nkey hv : ℕ) → Option (Bytes × ℕ) × Node L
  unfolding do_item_get
  mc_get_key_ext seen n key nkey hv =
      let n1 = record n { status = record (n.status) { gets = n.status.gets + 1 } } in
      let it = assoc_find (seen.0) (seen.1) key nkey hv in
      (if it == 0 then value_of n1.objs (do_item_get n1 key nkey hv) else value_of (seen.0) it, n1)
