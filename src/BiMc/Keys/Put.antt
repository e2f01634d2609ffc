-- ===== src/BiMc/Keys/Put.antt =====
-- What a set does to the table and the ring of a server of mc_code/bi_mc, once the item is filled.
use bi_project.BiMc.{Bytes, Object, Env, Node}
use bi_project.BiMc.Ring.Expired.{IsQuiescing}
use bi_project.BiMc.Laws.{Laws}
use bi_project.BiMc.Table.{
  mc_hv2node, mc_hv2node, assoc_find, assoc_insert, bucket, same_key, find_loop,
}
use bi_project.BiMc.Table.Chain.{
  find_loop-cons, find_loop-change, Unique, find_loop-none, Unique-change, same_key-agree,
}
use bi_project.BiMc.Items.{do_item_get, do_item_link, flags}
use bi_project.BiMc.Keys.Serving.{All-of, flags-Keyed, Linked, IsServing, Fresh, Linked-update}
use bi_project.Base.{
  ◌==◌, Bool-cases, ==→eq, eq→==, All, All-mono, update, update_self, update_ne, ℕ, ◌≡◌, refl, sym,
  ap, ◌∙◌, ◌≢◌, inl, inr, true, false, Option, some, List, [], ◌∷◌, ◌++◌,
}

module _ {L : Type 0} (env : Env L) (curr base : ℕ) (laws : Laws env curr base) where
  -- The item `it` is filled for the key and the hash value, and not yet linked.
  abbrev pub Filled : Object → (key : Bytes) → (nkey hv : ℕ) → Type 0
  Filled o key nkey hv =
      (o.linked ≡ false) × (o.slabbed ≡ false) × (o.hv ≡ hv) × (same_key key nkey o ≡ true)

  -- The table after a new item is linked
  do_item_link-Linked :
      (n : Node L) (q : List ℕ) (it hv b : ℕ)
      → IsServing env curr base laws n q
      → Fresh env curr base laws n q it
      → (n.objs it).slabbed ≡ false
      → (n.objs it).hv ≡ hv
      → All
          (Linked env curr base laws (flags n.objs it true) n.lists q b)
          (update n.table (bucket hv) (it ∷ n.table (bucket hv)) b)
  unfolding IsServing
  do_item_link-Linked n q it hv b (hq, links, unique) (nz, held, out, fresh) slab hv_it =
      let old =
        Linked-update env curr base laws n.objs n.lists q b it
          (record (n.objs it) { linked = true }) (n.table b) (fresh b) (links b) in
      elim (Bool-cases (bucket hv == b)) [
        | inr ne ↦ rw ne old
        | inl e ↦
            rw (e, ==→eq _ _ e)
              (
                rw (eq→== it it refl) (nz, held, refl, slab, ap bucket hv_it ∙ ==→eq _ _ e, out),
                old,
              )
      ]

  do_item_link-Unique :
      (n : Node L) (q : List ℕ) (it : ℕ) (key : Bytes) (nkey hv b : ℕ)
      → IsServing env curr base laws n q
      → same_key key nkey (n.objs it) ≡ true
      → All (λ a. a ≢ 0) (n.table (bucket hv))
      → find_loop n.objs key nkey (n.table (bucket hv)) ≡ 0
      → Unique (flags n.objs it true) (update n.table (bucket hv) (it ∷ n.table (bucket hv)) b)
  unfolding IsServing
  do_item_link-Unique n q it key nkey hv b (hq, links, unique) same nz none_found =
      let keyed = flags-Keyed n.objs it true in
      let away = find_loop-none n.objs key nkey (n.table (bucket hv)) nz none_found in
      let all_unique = (λ (c : List ℕ) (u : Unique n.objs c).
        Unique-change n.objs (flags n.objs it true) c (All-of _ keyed c) u) in
      elim (Bool-cases (bucket hv == b)) [
        | inr ne ↦ rw ne (all_unique (n.table b) (unique b))
        | inl e ↦ rw e (
            all_unique (it ∷ n.table (bucket hv)) (
              All-mono _ _ (n.table (bucket hv))
                  (λ d differs. sym (same_key-agree key nkey (n.objs it) (n.objs d) same) ∙ differs)
                  away,
              unique (bucket hv),
            ))
      ]

  -- What is known after `put_item` of `it`, when the queue was `q` and `old` was found under the key:
  -- the key finds the new item with its contents, other keys what they found, and the old item, if
  -- there was one, waits in the ring with the time; all other contents stay.
  unfoldable pub PutsTo :
      (it : ℕ) → (key : Bytes) → (nkey hv : ℕ) → Node L → List ℕ → Option (Node L) → Type 0
  PutsTo it key nkey hv n q r =
      let old = do_item_get n key nkey hv in
      (n' : Node L) × (q' : List ℕ) × (r ≡ some n')
      × IsServing env curr base laws n' q'
      × (do_item_get n' key nkey hv ≡ it)
      × ((n'.objs it).contents ≡ (n.objs it).contents)
      × ((n'.objs it).nbytes ≡ (n.objs it).nbytes)
      × ((k : Bytes) (m hv' : ℕ)
          → same_key k m (n.objs it) ≡ false
          → do_item_get n' k m hv' ≡ do_item_get n k m hv')
      × (old ≡ 0 → q' ≡ q)
      × (old ≢ 0 → (q' ≡ q ++ (old ∷ [])) × ((n'.objs old).tsc_free ≡ env.tsc n.ticks))
      × ((d : ℕ)
          → d ≢ it
          → ((n'.objs d).contents ≡ (n.objs d).contents) × ((n'.objs d).nbytes ≡ (n.objs d).nbytes))

  -- Lookups after a link
  link-find_other :
      (objs : ℕ → Object) (table : ℕ → List ℕ) (it hv : ℕ) (k : Bytes) (m hv' : ℕ)
      → same_key k m (objs it) ≡ false
      → find_loop
          (flags objs it true)
          k
          m
          (update table (bucket hv) (it ∷ table (bucket hv)) (bucket hv'))
        ≡ find_loop objs k m (table (bucket hv'))
  link-find_other objs table it hv k m hv' differs =
      let objs' = flags objs it true in
      let keyed = flags-Keyed objs it true in
      let same_chain = (λ (c : List ℕ). find_loop-change objs objs' k m c (All-of _ keyed c)) in
      elim (Bool-cases (bucket hv == bucket hv')) [
        | inr ne ↦ rw ne (same_chain (table (bucket hv')))
        | inl e ↦
            rw (e, ==→eq _ _ e)
              (find_loop-cons objs' k m it (table (bucket hv'))
                ∙ rw (eq→== it it refl, differs) (same_chain (table (bucket hv'))))
      ]

  link-find_same :
      (objs : ℕ → Object) (table : ℕ → List ℕ) (it hv : ℕ) (k : Bytes) (m : ℕ)
      → same_key k m (objs it) ≡ true
      → find_loop
          (flags objs it true)
          k
          m
          (update table (bucket hv) (it ∷ table (bucket hv)) (bucket hv))
        ≡ it
  link-find_same objs table it hv k m same =
      rw (update_self table (bucket hv) (it ∷ table (bucket hv))) (
        find_loop-cons (flags objs it true) k m it (table (bucket hv))
        ∙ rw (eq→== it it refl, same) refl)

  pub link-PutsTo :
      (it : ℕ) (key : Bytes) (nkey hv : ℕ) (n : Node L) (q : List ℕ)
      → IsServing env curr base laws n q
      → Fresh env curr base laws n q it
      → Filled (n.objs it) key nkey hv
      → mc_hv2node hv ≡ curr
      → do_item_get n key nkey hv ≡ 0
      → PutsTo it key nkey hv n q (do_item_link curr it hv n)
  unfolding PutsTo do_item_link assoc_insert do_item_get assoc_find IsServing IsQuiescing
  link-PutsTo it key nkey hv n q h fresh (lk, slab, hv_it, same) mine none_found =
      let nz = All-mono _ (λ a. a ≢ 0) (n.table (bucket hv)) (λ a lk_a. lk_a.0) (h.1 (bucket hv)) in
      (
        record n {
          objs = flags n.objs it true;
          table = update n.table (bucket hv) (it ∷ n.table (bucket hv));
        },
        q,
        rw (lk, slab, eq→== _ _ mine) refl,
        (
          h.0,
          λ b. do_item_link-Linked n q it hv b h fresh slab hv_it,
          λ b. do_item_link-Unique n q it key nkey hv b h same nz none_found,
        ),
        link-find_same n.objs n.table it hv key nkey same,
        rw (eq→== it it refl) refl,
        rw (eq→== it it refl) refl,
        λ k m hv' differs. link-find_other n.objs n.table it hv k m hv' differs,
        λ z. refl,
        λ there. absurd (there none_found),
        λ d ne. (
          ap (λ o. o.contents) (update_ne n.objs it d _ (λ e. ne (sym e))),
          ap (λ o. o.nbytes) (update_ne n.objs it d _ (λ e. ne (sym e))),
        ),
      )
