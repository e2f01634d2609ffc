-- ===== src/BiMc/Keys/Exchange.antt =====
-- `do_item_replace` of mc_code/bi_mc/items.c within a set, and both cases of a set together.
use bi_project.BiMc.{quis_num, Bytes, Object, Env, Node}
use bi_project.BiMc.Laws.{Laws}
use bi_project.BiMc.Table.{bucket, same_key, find_loop, assoc_find, assoc_replace}
use bi_project.BiMc.Table.Chain.{Keyed, Unique, find_loop-same, find_loop-change, Unique-change}
use bi_project.BiMc.Items.{flags, do_item_get, replaced}
use bi_project.BiMc.Ring.Expired.{IsQuiescing}
use bi_project.BiMc.Ring.Free.{FreesLater}
use bi_project.BiMc.Items.{do_item_remove_free, do_item_replace}
use bi_project.BiMc.{parsec_mem_free, grace}
use bi_project.BiMc.Table.{mc_hv2node}
use bi_project.BiMc.Keys.{put_item}
use bi_project.BiMc.Keys.Put.{link-PutsTo}
use bi_project.BiMc.Ring.Free.{parsec_mem_free-queue}
use mathlib.Core.Path.{subst}
use bi_project.BiMc.Keys.Serving.{All-of, flags-Keyed, Linked, IsServing, Fresh}
use bi_project.BiMc.Keys.Put.{Filled, PutsTo}
use bi_project.BiMc.Keys.Replaced.{
  objs_after, after-Keyed, after_other, after_new, after_old, after_value, chain_after, chain-All,
  chain-Unique, chain-find, chain-find_other,
}
use bi_project.Base.{
  ◌==◌, Bool-cases, ==→eq, ==→ne, length, All, All-append, update, update_self, update_ne, ℕ, ◌+◌,
  ◌^◌, ◌≤◌, ◌<◌, ◌≡◌, refl, sym, ap, ◌∙◌, ◌≢◌, inl, inr, true, false, not, ◌||◌, Option, some, List,
  [], ◌∷◌, ◌++◌,
}
use bi_project.Base.Run.{◌>>=◌, if_true, if_false, check_then}

both_Keyed : (objs : ℕ → Object) (old it t d : ℕ) → Keyed (objs d) (objs_after objs old it t d)
both_Keyed objs old it t d =
    let (x, y) = flags-Keyed objs it true d in
    let (x', y') = after-Keyed objs old it t d in (x ∙ x', y ∙ y')

module _ {L : Type 0} (env : Env L) (curr base : ℕ) (laws : Laws env curr base) where
  -- One linked item other than the old one, after the exchange
  stays_Linked :
      (objs : ℕ → Object) (l l' : L) (q : List ℕ) (b old it t d : ℕ)
      → ((x : ℕ) → laws.Held l x → laws.Held l' x)
      → d ≢ it
      → d ≢ old
      → Linked env curr base laws objs l q b d
      → Linked env curr base laws (objs_after objs old it t) l' (q ++ (old ∷ [])) b d
  stays_Linked objs l l' q b old it t d keep ni not_old (nz, held, lk, slab, at_b, out) =
      rw (after_other objs old it t d ni not_old) (
        nz,
        keep d held,
        lk,
        slab,
        at_b,
        All-append (λ c. c ≢ d) q (old ∷ []) out ((λ e. not_old (sym e)), tt),
      )

  -- The same for a chain
  chain_stays :
      (objs : ℕ → Object) (l l' : L) (q : List ℕ) (b old it t : ℕ) (chain : List ℕ)
      → ((x : ℕ) → laws.Held l x → laws.Held l' x)
      → All (λ d. d ≢ it) chain
      → All (Linked env curr base laws objs l q b) chain
      → All
          (λ d.
            d ≢ old → Linked env curr base laws (objs_after objs old it t) l' (q ++ (old ∷ [])) b d)
          chain
  chain_stays objs l l' q b old it t [] keep ni h = tt
  chain_stays objs l l' q b old it t (d ∷ chain) keep (ni, nis) (hd, h) = (
    λ not_old. stays_Linked objs l l' q b old it t d keep ni not_old hd,
    chain_stays objs l l' q b old it t chain keep nis h,
  )

  -- An item of another bucket is not the old one.
  elsewhere :
      (P : ℕ → Type 0) (objs : ℕ → Object) (l : L) (q : List ℕ) (b old : ℕ) (chain : List ℕ)
      → bucket ((objs old).hv) ≢ b
      → All (Linked env curr base laws objs l q b) chain
      → All (λ d. d ≢ old → P d) chain
      → All P chain
  elsewhere P objs l q b old [] apart h hp = tt
  elsewhere P objs l q b old (d ∷ chain) apart (hd, h) (pd, hp) = (
    pd (λ e. apart (ap (λ x. bucket ((objs x).hv)) (sym e) ∙ hd.4)),
    elsewhere P objs l q b old chain apart h hp,
  )

  module _ (n : Node L) (q : List ℕ) (it : ℕ) (key : Bytes) (nkey hv : ℕ)
      (h : IsServing env curr base laws n q) (fresh : Fresh env curr base laws n q it)
      (ready : Filled env curr base laws (n.objs it) key nkey hv)
      (there : do_item_get n key nkey hv ≢ 0) where
    -- The old item has the key, and is linked.
    old_facts :
        (same_key key nkey (n.objs (do_item_get n key nkey hv)) ≡ true)
        × Linked env curr base laws n.objs n.lists q (bucket hv) (do_item_get n key nkey hv)
        × (do_item_get n key nkey hv ≢ it)
    unfolding do_item_get assoc_find IsServing
    old_facts =
        let chain = n.table (bucket hv) in
        let (same, lk) =
          find_loop-same (Linked env curr base laws n.objs n.lists q (bucket hv)) n.objs key nkey
            chain (h.1 (bucket hv)) there in
        (
          same,
          lk,
          (find_loop-same (λ d. d ≢ it) n.objs key nkey chain (fresh.3 (bucket hv)) there).1,
        )

    -- The table after the exchange
    do_item_replace-Linked :
        (l' : L) (t b : ℕ)
        → ((x : ℕ) → laws.Held n.lists x → laws.Held l' x)
        → All
            (Linked env curr base laws
              (objs_after n.objs (do_item_get n key nkey hv) it t)
              l'
              (q ++ (do_item_get n key nkey hv ∷ []))
              b)
            (update n.table
              (bucket hv)
              (chain_after n.objs (do_item_get n key nkey hv) it (n.table (bucket hv)))
              b)
    unfolding do_item_get assoc_find IsServing
    do_item_replace-Linked l' t b keep =
        let chain = n.table (bucket hv) in
        let (same, lk_old, apart) = old_facts in
        let (lk, slab, hv_it, same_it) = ready in
        let old = do_item_get n key nkey hv in
        let not_old = (λ (e : it ≡ old). apart (sym e)) in
        elim (Bool-cases (bucket hv == b)) [
          | inr ne ↦ rw ne (
              elsewhere _ n.objs n.lists q b old (n.table b) (λ e. ==→ne _ _ ne (sym lk_old.4 ∙ e))
                (h.1 b)
                (chain_stays n.objs n.lists l' q b old it t (n.table b) keep (fresh.3 b) (h.1 b)))
          | inl e ↦
              rw (e, ← ==→eq _ _ e)
                (chain-All n.objs it t key nkey chain there same_it same _ (h.2 (bucket hv))
                  (chain_stays n.objs n.lists l' q (bucket hv) old it t chain keep
                    (fresh.3 (bucket hv)) (h.1 (bucket hv)))
                  (rw (after_new n.objs old it t not_old) (
                    fresh.0,
                    keep it fresh.1,
                    refl,
                    slab,
                    ap bucket hv_it,
                    All-append (λ c. c ≢ it) q (old ∷ []) fresh.2 (apart, tt),
                  )))
        ]

    do_item_replace-Unique :
        (t b : ℕ)
        → Unique (objs_after n.objs (do_item_get n key nkey hv) it t) (
            update n.table
              (bucket hv)
              (chain_after n.objs (do_item_get n key nkey hv) it (n.table (bucket hv)))
              b)
    unfolding do_item_get assoc_find IsServing
    do_item_replace-Unique t b =
        let chain = n.table (bucket hv) in
        let (same, lk_old, apart) = old_facts in
        let old = do_item_get n key nkey hv in
        elim (Bool-cases (bucket hv == b)) [
          | inr ne ↦ rw ne (
              Unique-change n.objs (objs_after n.objs old it t) (n.table b)
                (All-of _
                  (λ d.
                    let (x, y) = flags-Keyed n.objs it true d in
                    let (x', y') = after-Keyed n.objs old it t d in (x ∙ x', y ∙ y'))
                  (n.table b))
                (h.2 b))
          | inl e ↦
              rw e (chain-Unique n.objs it t key nkey chain there ready.3 same (h.2 (bucket hv)))
        ]

    -- The lookups after the exchange
    find_after :
        (t : ℕ)
        → find_loop (objs_after n.objs (do_item_get n key nkey hv) it t) key nkey (
            update n.table
              (bucket hv)
              (chain_after n.objs (do_item_get n key nkey hv) it (n.table (bucket hv)))
              (bucket hv))
          ≡ it
    unfolding do_item_get assoc_find IsServing
    find_after t =
        let chain = n.table (bucket hv) in
        rw
          (update_self n.table (bucket hv)
            (chain_after n.objs (do_item_get n key nkey hv) it chain))
          (chain-find n.objs it t key nkey chain there ready.3 old_facts.0)

    other_after :
        (t : ℕ) (k : Bytes) (m hv' : ℕ)
        → same_key k m (n.objs it) ≡ false
        → find_loop (objs_after n.objs (do_item_get n key nkey hv) it t) k m (
            update n.table
              (bucket hv)
              (chain_after n.objs (do_item_get n key nkey hv) it (n.table (bucket hv)))
              (bucket hv'))
          ≡ find_loop n.objs k m (n.table (bucket hv'))
    unfolding do_item_get assoc_find IsServing
    other_after t k m hv' differs =
        let chain = n.table (bucket hv) in
        let old = do_item_get n key nkey hv in
        elim (Bool-cases (bucket hv == bucket hv')) [
          | inr ne ↦ rw ne (
              find_loop-change n.objs (objs_after n.objs old it t) k m (n.table (bucket hv'))
                (All-of _ (both_Keyed n.objs old it t) (n.table (bucket hv'))))
          | inl e ↦
              rw (e, ← ==→eq _ _ e)
                (chain-find_other n.objs it t key nkey chain there ready.3 old_facts.0 k m differs)
        ]

    exchange-PutsTo :
        (r : Option (Node L))
        → length q + 1 < quis_num
        → FreesLater env curr base laws
            (do_item_get n key nkey hv)
            (replaced (do_item_get n key nkey hv) it hv n)
            q
            r
        → PutsTo env curr base laws it key nkey hv n q (
            r >>= (λ n1.
              some (record n1 { status = record (n1.status) { confict = n1.status.confict + 1 } })))
    unfolding PutsTo FreesLater IsServing IsQuiescing replaced assoc_replace do_item_get assoc_find
    exchange-PutsTo r lt
          (freed, rest, n1, split, done, hq, objs_eq, table_eq, aged, only, back, keep) =
        let old = do_item_get n key nkey hv in
        let t = env.tsc n.ticks in
        let chain = n.table (bucket hv) in
        let (same, lk_old, apart) = old_facts in
        let not_old = (λ (e : it ≡ old). apart (sym e)) in
        let none_freed : freed ≡ [] = only lt in
        let rest_q : rest ≡ q = sym (split ∙ ap (λ f. f ++ rest) none_freed) in
        let keep' = (λ (x : ℕ) (hx : laws.Held n.lists x). keep x hx (rw none_freed tt)) in
        (
          record n1 { status = record (n1.status) { confict = n1.status.confict + 1 } },
          q ++ (old ∷ []),
          rw done refl,
          (
            rw rest_q at hq,
            λ b. rw (objs_eq, table_eq) (do_item_replace-Linked n1.lists t b keep'),
            λ b. rw (objs_eq, table_eq) (do_item_replace-Unique t b),
          ),
          rw (objs_eq, table_eq) (find_after t),
          rw objs_eq (ap (λ o. o.contents) (after_new n.objs old it t not_old)),
          rw objs_eq (ap (λ o. o.nbytes) (after_new n.objs old it t not_old)),
          λ k m hv' differs. rw (objs_eq, table_eq) (other_after t k m hv' differs),
          λ z. absurd (there z),
          λ nz. (refl, rw objs_eq (ap (λ o. o.tsc_free) (after_old n.objs old it t apart))),
          λ d ne. rw objs_eq (after_value n.objs old it t d apart ne),
        )

    -- The calls of `do_item_replace`
    frees_old :
        (t : Option (Node L))
        → parsec_mem_free env curr
            (do_item_get n key nkey hv)
            (replaced (do_item_get n key nkey hv) it hv n)
          ≡ t
        → do_item_replace env curr (do_item_get n key nkey hv) it hv n ≡ t
    unfolding do_item_replace do_item_remove_free replaced
    frees_old t e =
        let (same, lk_old, apart) = old_facts in
        let (lk, slab, hv_it, same_it) = ready in
        let old = do_item_get n key nkey hv in
        let still : (flags (flags n.objs it true) old false old).slabbed ≡ false =
          ap (λ o. o.slabbed) (update_self (flags n.objs it true) old _)
          ∙ ap (λ o. o.slabbed) (update_ne n.objs it old _ (λ x. apart (sym x)))
          ∙ lk_old.3 in
        let unlinked : not ((n.objs it).linked || (n.objs it).slabbed) ≡ true =
          rw (lk, slab) refl in
        check_then _ lk_old.2 ∙ check_then _ unlinked ∙ check_then _ (ap not still) ∙ e

  -- A set of a filled item
  pub put-PutsTo :
      (it : ℕ) (key : Bytes) (nkey hv : ℕ) (n : Node L) (q : List ℕ)
      → IsServing env curr base laws n q
      → Fresh env curr base laws n q it
      → Filled env curr base laws (n.objs it) key nkey hv
      → mc_hv2node hv ≡ curr
      → length q + 1 < quis_num
      → grace ≤ env.tsc (n.ticks + 1)
      → env.tsc (n.ticks + 1) < 2 ^ 64
      → PutsTo env curr base laws it key nkey hv n q (put_item env curr it key nkey hv n)
  unfolding put_item IsServing replaced IsQuiescing
  put-PutsTo it key nkey hv n q h fresh ready mine room le lt =
      elim (Bool-cases (do_item_get n key nkey hv == 0)) [
        | inl none_found ↦
            subst (PutsTo env curr base laws it key nkey hv n q) (sym (if_true _ _ none_found)) (
              link-PutsTo env curr base laws it key nkey hv n q h fresh ready mine
                (==→eq _ _ none_found))
        | inr found ↦
            let there = ==→ne _ _ found in
            let (same, lk_old, apart) = old_facts n q it key nkey hv h fresh ready there in
            let old = do_item_get n key nkey hv in
            subst (PutsTo env curr base laws it key nkey hv n q) (sym (if_false _ _ found)) (
              exchange-PutsTo n q it key nkey hv h fresh ready there _ room (
                subst (FreesLater env curr base laws old (replaced old it hv n) q)
                  (sym (frees_old n q it key nkey hv h fresh ready there _ refl))
                  (parsec_mem_free-queue env curr base laws old (replaced old it hv n) q h.0
                    lk_old.1 lk_old.0 lk_old.5 le lt (inl room))))
      ]
