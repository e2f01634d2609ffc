-- ===== src/BiMc/Keys/Alloc.antt =====
-- An allocation on a server of mc_code/bi_mc that needs no eviction: it hands out an object that
-- stands neither in the table nor in the ring.
use bi_project.BiMc.{mc_slab_aoc_sz, page_size, add64, Bytes, Object, McStatus, Env, Node}
use bi_project.BiMc.{fragmentation}
use bi_project.Base.Run.{◌>>=◌, if_false}
use mathlib.Core.Path.{subst}
use bi_project.BiMc.Ring.Expired.{IsQuiescing}
use bi_project.BiMc.Memory.{
  mc_slab_obj_sz, over, find_page, evict_pages, mc_alloc_pages, taken, use_page, alloc_from,
  ps_slab_alloc_item, parsec_mem_alloc,
}
use bi_project.BiMc.Laws.{Laws}
use bi_project.BiMc.Table.{bucket, assoc_find}
use bi_project.BiMc.Table.Chain.{find_loop-change, Unique-change}
use bi_project.BiMc.Items.{do_item_get}
use bi_project.BiMc.Keys.Serving.{IsServing, Fresh, Linked-update, Unique-update}
use bi_project.Base.{
  ne→==, All-mono, update, ℕ, ◌+◌, ◌*◌, ◌/◌, ◌≡◌, refl, sym, ap, ◌∙◌, ◌≢◌, ◌⊎◌, inl, inr, false,
  ◌&&◌, Option, none, some, List,
}

module _ {L : Type 0} (env : Env L) (curr base : ℕ) (laws : Laws env curr base) where
  -- The allocator keeps the objects that are handed out, and the counters of the pages change.
  lists-IsServing :
      (n : Node L) (q : List ℕ) (l : L) (st : McStatus)
      → ((x : ℕ) → laws.Held n.lists x → laws.Held l x)
      → st.base ≡ n.status.base
      → st.quiesce ≡ n.status.quiesce
      → IsServing env curr base laws n q
      → IsServing env curr base laws (record n { lists = l; status = st }) q
  unfolding IsServing IsQuiescing
  lists-IsServing n q l st keep same_b same_q ((hq, dis, held, hb, count), links, unique) = (
    (hq, dis, All-mono _ _ q keep held, same_b ∙ hb, same_q ∙ count),
    λ b. All-mono _ _ (n.table b) (λ a h. (h.0, keep a h.1, h.2, h.3, h.4, h.5)) (links b),
    unique,
  )

  -- A write to a fresh object keeps the invariant, and the lookups.
  pub write-IsServing :
      (n : Node L) (q : List ℕ) (a : ℕ) (o : Object)
      → Fresh env curr base laws n q a
      → IsServing env curr base laws n q
      → IsServing env curr base laws (record n { objs = update n.objs a o }) q
  unfolding IsServing IsQuiescing
  write-IsServing n q a o (nz, held, out, fresh) (hq, links, unique) = (
    hq,
    λ b. Linked-update env curr base laws n.objs n.lists q b a o (n.table b) (fresh b) (links b),
    λ b.
        Unique-change n.objs (update n.objs a o) (n.table b)
          (Unique-update env curr base laws n.objs a o (n.table b) (fresh b)) (unique b),
  )

  pub write-get :
      (n : Node L) (q : List ℕ) (a : ℕ) (o : Object)
      → Fresh env curr base laws n q a
      → (k : Bytes) (m hv : ℕ)
      → do_item_get (record n { objs = update n.objs a o }) k m hv ≡ do_item_get n k m hv
  unfolding do_item_get assoc_find
  write-get n q a o (nz, held, out, fresh) k m hv =
      find_loop-change n.objs (update n.objs a o) k m (n.table (bucket hv))
        (Unique-update env curr base laws n.objs a o (n.table (bucket hv)) (fresh (bucket hv)))

  -- The result of an allocation: a fresh object in a state with the same ring, table and other objects
  unfoldable pub AllocsTo : Node L → List ℕ → Option (ℕ × Node L) → Type 0
  AllocsTo n q r =
      (a : ℕ) × (l : L) × (st : McStatus) × (o : Object) × (r
        ≡ some (a, record n { lists = l; status = st; objs = update n.objs a o }))
      × IsServing env curr base laws (record n { lists = l; status = st }) q
      × Fresh env curr base laws (record n { lists = l; status = st }) q a

  -- An object that was not handed out is fresh.
  taken-AllocsTo :
      (n : Node L) (q : List ℕ) (l : L) (st : McStatus)
      → IsServing env curr base laws (record n { lists = l; status = st }) q
      → (r : ℕ × L) → env.take l ≡ some r
      → AllocsTo n q (taken env (record n { lists = l; status = st }) (some r))
  unfolding AllocsTo taken IsServing IsQuiescing
  taken-AllocsTo n q l st h (a, l') e =
      let (nz, new, held, keep) = laws.take-Fresh l l' a e in
      let not_a = (λ (c : ℕ) (hc : laws.Held l c) (same : c ≡ a). new (rw same at hc)) in
      (
        a,
        l',
        st,
        record (n.objs a) { tsc_free = env.in_use },
        refl,
        lists-IsServing (record n { lists = l; status = st }) q l' st keep refl refl h,
        (
          nz,
          held,
          All-mono _ _ q not_a h.0.2,
          λ b. All-mono _ _ (n.table b) (λ c hc. not_a c hc.1) (h.1 b),
        ),
      )

  -- The state in which `parsec_mem_alloc` asks the allocator
  abbrev pub charged : Node L → Node L
  charged n = record n { status = record (n.status) { used = add64 n.status.used env.objmem } }

  -- The allocator has a free object, or the memory is below the threshold and the bitmap has a page.
  abbrev pub Enough : Node L → Type 0
  Enough n =
      ((r : ℕ × L) × (env.take n.lists ≡ some r))
      ⊎ ((env.take n.lists ≡ none)
          × (over (charged n) ≡ false)
          × ((off : ℕ) × (l : L) × (env.find_set n.lists (mc_slab_aoc_sz / page_size)
                ≡ (some off, l))
              × (n.status.base + off * page_size ≢ 0)))

  -- A page from the bitmap
  page_found :
      (n : Node L) (off : ℕ) (l : L)
      → over n ≡ false
      → env.find_set n.lists (mc_slab_aoc_sz / page_size) ≡ (some off, l)
      → mc_alloc_pages env curr n
        ≡ some (
          n.status.base + off * page_size,
          record n {
            lists = l;
            status = record (n.status) {
              alloc = n.status.alloc + 1;
              used = add64 n.status.used (fragmentation env);
            };
          },
        )
  unfolding mc_alloc_pages evict_pages find_page
  page_found n off l under found =
      let evict = (λ (r : ℕ × Node L). evict_pages env curr (r.1)) in
      let more = (λ (r : ℕ × Node L).
        some (find_page env (env.find_set r.1.lists (mc_slab_aoc_sz / page_size)) (r.1))) in
      ap (λ m. m >>= evict) (if_false _ _ under)
      ∙ if_false _ _ (ap (λ b. b && n.loading) under)
      ∙ ap (λ m. m >>= more) (if_false _ _ under)
      ∙ ap (λ p. some (find_page env p n)) found

  -- An allocation that needs no eviction hands out a fresh object.
  pub alloc-AllocsTo :
      (n : Node L) (q : List ℕ)
      → IsServing env curr base laws n q
      → Enough n
      → AllocsTo n q (parsec_mem_alloc env curr mc_slab_obj_sz n)
  unfolding AllocsTo parsec_mem_alloc ps_slab_alloc_item alloc_from use_page
  alloc-AllocsTo n q h (inl (r, e)) =
      subst (AllocsTo n q) (sym (ap (alloc_from env curr (charged n)) e)) (
        taken-AllocsTo n q n.lists (charged n).status
          (lists-IsServing n q n.lists (charged n).status (λ x hx. hx) refl refl h) r e)
  alloc-AllocsTo n q h (inr (none_free, under, (off, l, found, nz))) =
      let s = n.status.base + off * page_size in
      let (r, takes) = laws.page-takes l s in
      let st = record ((charged n).status) {
        alloc = n.status.alloc + 1;
        used = add64 (add64 n.status.used env.objmem) (fragmentation env);
      } in
      subst (AllocsTo n q)
        (sym (
          ap (alloc_from env curr (charged n)) none_free
          ∙ ap (λ m. m >>= use_page env) (page_found (charged n) off l under found)
          ∙ if_false _ _ (ne→== s 0 nz)
          ∙ ap (taken env (record n { lists = l; status = st })) takes))
        (taken-AllocsTo n q (env.add_page s l) st
          (lists-IsServing n q (env.add_page s l) st
            (λ x hx. laws.page-Held l s x (
              rw (ap (λ p. p.1) found) at
                (laws.find-Held n.lists (mc_slab_aoc_sz / page_size) x hx)))
            refl refl h)
          r takes)
