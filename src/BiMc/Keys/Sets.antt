-- ===== src/BiMc/Keys/Sets.antt =====
-- `mc_set_key_rcv` and `mc_get_key_ext` of mc_code/bi_mc/memcache.c: what a set changes, and what the
-- readers then get.
use bi_project.BiMc.Keys.Objects.{
  new_object, written, get_memory, get_flushed, new_key, OtherKey, other_key,
}
use bi_project.BiMc.{grace, quis_num, memcpy, Bytes, Object, McStatus, Env, Node}
use mathlib.Core.Path.{subst}
use bi_project.BiMc.{quis_num, grace}
use bi_project.BiMc.Table.{mc_hv2node}
use bi_project.BiMc.Ring.Expired.{IsQuiescing}
use bi_project.BiMc.Keys.Put.{Filled}
use bi_project.BiMc.Keys.Exchange.{put-PutsTo}
use bi_project.BiMc.Keys.Alloc.{AllocsTo, Enough, alloc-AllocsTo, write-IsServing}
use bi_project.BiMc.Keys.{mc_set_key_rcv}
use bi_project.BiMc.Laws.{Laws}
use bi_project.BiMc.Table.{mc_hv2node, bucket, Chains, same_key, assoc_find}
use bi_project.BiMc.Table.Chain.{find_loop-same}
use bi_project.BiMc.Items.{sizeof_item, item_data, item_make_header, do_item_get}
use bi_project.BiMc.Memory.{mc_slab_obj_sz, parsec_mem_alloc}
use bi_project.BiMc.Keys.{
  set_up, mc_set_key_rcv, value_of, alloc_again, item_at, do_item_alloc, put_item, set_item,
  mc_get_key_ext,
}
use bi_project.BiMc.Ring.Expired.{IsQuiescing}
use bi_project.BiMc.Keys.Serving.{IsServing, Fresh}
use bi_project.BiMc.Ring.Expired.{IsQuiescing}
use bi_project.BiMc.Keys.Put.{Filled, PutsTo}
use bi_project.BiMc.Keys.Exchange.{put-PutsTo}
use bi_project.BiMc.Keys.Alloc.{AllocsTo, Enough, alloc-AllocsTo, write-IsServing, write-get}
use bi_project.Base.{
  leb, ◌==◌, lt→ltb, le→leb, ne→==, length, update, update_self, update_ne, ℕ, ◌+◌, ◌-◌, ◌^◌, ◌≤◌,
  ◌<◌, ◌≡◌, refl, sym, ap, ◌∙◌, ◌≢◌, Bool, true, false, Option, some, List, [], ◌∷◌, ◌++◌, arith,
}
use bi_project.Base.Run.{◌>>=◌, if_false, check_then}

module _ {L : Type 0} (env : Env L) (curr base : ℕ) (laws : Laws env curr base) where
  -- `do_item_alloc` and the filling after an allocation of `a`
  alloc_filled :
      (key : Bytes) (nkey : ℕ) (value : Bytes) (nbytes hv : ℕ) (n : Node L) (a : ℕ) (l : L)
      (st : McStatus) (o : Object)
      → a ≢ 0
      → item_make_header (nkey + 1) (nbytes + 2) ≡ mc_slab_obj_sz
      → nkey < 255
      → parsec_mem_alloc env curr mc_slab_obj_sz n
        ≡ some (a, record n { lists = l; status = st; objs = update n.objs a o })
      → (do_item_alloc env curr key nkey (nbytes + 2) n
          >>= (λ r. set_item env curr key nkey value nbytes hv r))
        ≡ (put_item env curr a key nkey hv (record n {
          lists = l;
          status = st;
          objs = update n.objs a (new_object key nkey value nbytes hv o);
        })
            >>= (λ n1. some (true, n1)))
  unfolding do_item_alloc alloc_again item_at set_item item_make_header
  alloc_filled key nkey value nbytes hv n a l st o nz fits short done =
      let there : (a == 0) ≡ false = ne→== a 0 nz in
      let key_in : leb (sizeof_item + nkey) mc_slab_obj_sz ≡ true = le→leb _ _ (omega arith) in
      let suffix_in : leb (item_data nkey (nbytes + 2)) mc_slab_obj_sz ≡ true =
        le→leb _ _ (omega arith) in
      let value_in : leb (item_data nkey (nbytes + 2) + nbytes) mc_slab_obj_sz ≡ true =
        le→leb _ _ (omega arith) in
      let set : ℕ × Node L → Option (Bool × Node L) =
        (λ r. set_item env curr key nkey value nbytes hv r) in
      let item : ℕ × Node L → Option (ℕ × Node L) = (λ r. item_at key nkey (nbytes + 2) r) in
      let sized : ℕ → Option (Bool × Node L) = (λ size.
        (parsec_mem_alloc env curr size n >>= (λ r. alloc_again env curr size r >>= item))
        >>= set) in
      let put : (ℕ → Object) → Option (Bool × Node L) = (λ f.
        put_item env curr a key nkey hv (record n { lists = l; status = st; objs = f })
        >>= (λ n1. some (true, n1))) in
      let got : Node L = record n { lists = l; status = st; objs = update n.objs a o } in
      let placed : item (a, got)
          ≡ some (
            a,
            record got { objs = update got.objs a (set_up key nkey (nbytes + 2) (got.objs a)) },
          ) =
        if_false _ _ there ∙ check_then _ key_in ∙ check_then _ suffix_in in
      ap sized fits
      ∙ ap (λ m. (m >>= (λ r. alloc_again env curr mc_slab_obj_sz r >>= item)) >>= set) done
      ∙ ap (λ m. (m >>= item) >>= set) (if_false _ _ there)
      ∙ ap (λ m. m >>= set) placed
      ∙ if_false _ _ there
      ∙ check_then _ value_in
      ∙ ap put (written key nkey value nbytes hv n.objs a o)

  -- What `mc_get_key_ext` returns has the bytes of the value, and its size.
  abbrev pub Gets : Option (Bytes × ℕ) → (value : Bytes) → (nbytes : ℕ) → Type 0
  Gets r value nbytes =
      (v : Bytes) × (r ≡ some (v, nbytes)) × ((i : ℕ) → i < nbytes → v i ≡ value i)

  -- The state after a set on a server whose ring held the queue `q`: the key gives the new value to
  -- every reader whose cache shows the memory or shows no item under the key; other keys give what
  -- they gave; and an item that was there before waits in the ring, with its value and the time.
  unfoldable pub SetsTo :
      (key : Bytes)
      → (nkey : ℕ) → (value : Bytes) → (nbytes hv : ℕ) → Node L
      → List ℕ
      → Option (Bool × Node L)
      → Type 0
  SetsTo key nkey value nbytes hv n q r =
      let old = do_item_get n key nkey hv in
      (n' : Node L) × (q' : List ℕ) × (r ≡ some (true, n'))
      × IsServing env curr base laws n' q'
      × Gets ((mc_get_key_ext (n'.objs, n'.table) n' key nkey hv).0) value nbytes
      × ((seen : (ℕ → Object) × Chains)
          → assoc_find (seen.0) (seen.1) key nkey hv ≡ 0
          → Gets ((mc_get_key_ext seen n' key nkey hv).0) value nbytes)
      × ((k : Bytes) (m hv' : ℕ)
          → OtherKey k m key nkey
          → (mc_get_key_ext (n'.objs, n'.table) n' k m hv').0
            ≡ (mc_get_key_ext (n.objs, n.table) n k m hv').0)
      × (old ≡ 0 → q' ≡ q)
      × (old ≢ 0
          → (q' ≡ q ++ (old ∷ []))
            × ((n'.objs old).tsc_free ≡ env.tsc n.ticks)
            × ((n'.objs old).contents ≡ (n.objs old).contents))

  value_Gets :
      (objs : ℕ → Object) (a : ℕ) (value : Bytes) (nbytes : ℕ) (old : Bytes)
      → a ≢ 0
      → (objs a).contents ≡ memcpy old value nbytes
      → (objs a).nbytes ≡ nbytes + 2
      → Gets (value_of objs a) value nbytes
  value_Gets objs a value nbytes old nz c b = (
    memcpy old value nbytes,
    if_false _ _ (ne→== a 0 nz) ∙ some_pair c (ap (λ x. x - 2) b ∙ omega arith),
    λ i lt. rw (lt→ltb i nbytes lt) refl,
  )
    where
      some_pair :
          {x y : Bytes} {k m : ℕ}
          → x ≡ y
          → k ≡ m
          → ◌≡◌ {A = Option (Bytes × ℕ)} (some (x, k)) (some (y, m))
      some_pair e e' = rw (e, e') refl

  -- An item that another key finds has the same value.
  value_same :
      (objs objs' : ℕ → Object) (a x : ℕ)
      → x ≢ a
      → ((d : ℕ)
          → d ≢ a
          → ((objs' d).contents ≡ (objs d).contents) × ((objs' d).nbytes ≡ (objs d).nbytes))
      → value_of objs' x ≡ value_of objs x
  value_same objs objs' a x ne same = rw ((same x ne).0, (same x ne).1) refl

  -- A fresh object is not what a lookup finds.
  found_other :
      (n : Node L) (q : List ℕ) (a : ℕ) (k : Bytes) (m hv : ℕ)
      → Fresh env curr base laws n q a
      → do_item_get n k m hv ≢ a
  unfolding do_item_get assoc_find
  found_other n q a k m hv (nz, held, out, fresh) e =
      (find_loop-same (λ d. d ≢ a) n.objs k m (n.table (bucket hv)) (fresh (bucket hv))
          (λ z. nz (sym e ∙ z))).1
        e

  sets :
      (key : Bytes) (nkey : ℕ) (value : Bytes) (nbytes hv : ℕ) (n : Node L) (q : List ℕ) (a : ℕ)
      (l : L) (st : McStatus) (o : Object)
      → nkey < 256
      → Fresh env curr base laws (record n { lists = l; status = st }) q a
      → PutsTo env curr base laws a key nkey hv
          (record n {
            lists = l;
            status = st;
            objs = update n.objs a (new_object key nkey value nbytes hv o);
          })
          q
          (put_item env curr a key nkey hv (record n {
            lists = l;
            status = st;
            objs = update n.objs a (new_object key nkey value nbytes hv o);
          }))
      → SetsTo key nkey value nbytes hv n q (
          put_item env curr a key nkey hv (record n {
            lists = l;
            status = st;
            objs = update n.objs a (new_object key nkey value nbytes hv o);
          })
          >>= (λ n1. some (true, n1)))
  unfolding SetsTo PutsTo do_item_get
  sets key nkey value nbytes hv n q a l st o lt fresh
        (n', q', done, serving, found, cont, size, others, empty, given, values) =
      let nb = record n { lists = l; status = st } in
      let new = new_object key nkey value nbytes hv o in
      let get_nb = write-get env curr base laws nb q a new fresh in
      let at_a : update n.objs a new a ≡ new = update_self n.objs a new in
      let same_values : (d : ℕ)
          → d ≢ a
          → ((n'.objs d).contents ≡ (n.objs d).contents)
            × ((n'.objs d).nbytes ≡ (n.objs d).nbytes) =
        (λ d ne. (
          (values d ne).0 ∙ ap (λ x. x.contents) (update_ne n.objs a d new (λ e. ne (sym e))),
          (values d ne).1 ∙ ap (λ x. x.nbytes) (update_ne n.objs a d new (λ e. ne (sym e))),
        )) in
      let given' =
        subst (λ x. x ≢ 0 → (q' ≡ q ++ (x ∷ [])) × ((n'.objs x).tsc_free ≡ env.tsc n.ticks))
          (get_nb key nkey hv) given in
      let value_n' : Gets (value_of n'.objs a) value nbytes =
        value_Gets n'.objs a value nbytes o.contents fresh.0 (cont ∙ ap (λ x. x.contents) at_a)
          (size ∙ ap (λ x. x.nbytes) at_a) in
      (
        n',
        q',
        rw done refl,
        serving,
        rw (get_memory n' key nkey hv, found) value_n',
        λ seen none_seen. rw (get_flushed seen n' key nkey hv none_seen, found) value_n',
        λ k m hv' differs.
            get_memory n' k m hv'
            ∙ ap (value_of n'.objs) (
                others k m hv'
                  (ap (same_key k m) at_a ∙ other_key k m key nkey value nbytes hv o lt differs)
                ∙ get_nb k m hv')
            ∙ value_same n.objs n'.objs a _ (found_other nb q a k m hv' fresh) same_values
            ∙ sym (get_memory n k m hv'),
        λ z. empty (get_nb key nkey hv ∙ z),
        λ nz. (
          (given' nz).0,
          (given' nz).1,
          (same_values (do_item_get n key nkey hv) (found_other nb q a key nkey hv fresh)).0,
        ),
      )

  -- On a server that keeps its invariant, with memory for an item and room in the ring, a set of a
  -- key of fewer than 255 bytes and a value, which fill an object exactly, succeeds and keeps the
  -- invariant. Then the key gives the value; other keys give what they gave; and the old item, if
  -- there was one, waits in the ring.
  pub mc_set_key_rcv-SetsTo :
      (key : Bytes) (nkey : ℕ) (value : Bytes) (nbytes hv : ℕ) (n : Node L) (q : List ℕ)
      → IsServing env curr base laws n q
      → Enough env curr base laws n
      → item_make_header (nkey + 1) (nbytes + 2) ≡ mc_slab_obj_sz
      → nkey < 255
      → mc_hv2node hv ≡ curr
      → length q + 1 < quis_num
      → grace ≤ env.tsc (n.ticks + 1)
      → env.tsc (n.ticks + 1) < 2 ^ 64
      → SetsTo key nkey value nbytes hv n q (mc_set_key_rcv env curr key nkey value nbytes hv n)
  unfolding mc_set_key_rcv AllocsTo IsServing IsQuiescing
  mc_set_key_rcv-SetsTo key nkey value nbytes hv n q h enough fits lt mine room le lt64 =
      let n0 = record n { status = record (n.status) { sets = n.status.sets + 1 } } in
      let (a, l, st, o, done, h', fresh) = alloc-AllocsTo env curr base laws n0 q h enough in
      let nb = record n { lists = l; status = st } in
      let new = new_object key nkey value nbytes hv o in
      let at_a : update n.objs a new a ≡ new = update_self n.objs a new in
      let ready : Filled env curr base laws (update n.objs a new a) key nkey hv =
        rw at_a (refl, refl, refl, new_key key nkey value nbytes hv o (omega arith)) in
      subst (SetsTo key nkey value nbytes hv n q)
        (sym (alloc_filled key nkey value nbytes hv n0 a l st o fresh.0 fits lt done))
        (sets key nkey value nbytes hv n q a l st o (omega arith) fresh (
          put-PutsTo env curr base laws a key nkey hv (record nb { objs = update n.objs a new }) q
            (write-IsServing env curr base laws nb q a new fresh h') fresh ready mine room le lt64))
