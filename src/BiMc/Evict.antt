-- ===== src/BiMc/Evict.antt =====
-- The eviction of a slab on a server of mc_code/bi_mc (`slab_evict` of memcache.c): the items leave
-- the table and wait in the ring.
use mathlib.Core.Path.{subst}
use bi_project.BiMc.{quis_num, grace, Object, Env, Node}
use bi_project.BiMc.Laws.{Laws}
use bi_project.BiMc.Table.{bucket, mc_hv2node, same_key, assoc_delete}
use bi_project.BiMc.Table.Chain.{Keyed, Unique, Unique-change, same_key_refl}
use bi_project.BiMc.Table.Delete.{Without, delete_loop-Without}
use bi_project.BiMc.Items.{flags, do_item_unlink, do_item_remove_free}
use bi_project.BiMc.Memory.{evict_loop, slab_evict}
use bi_project.BiMc.Ring.Expired.{IsQuiescing}
use bi_project.BiMc.Ring.Free.{FreesLater, parsec_mem_free-queue}
use bi_project.BiMc.Keys.Serving.{All-of, flags-Keyed, Linked, IsServing}
use bi_project.Base.{
  ◌==◌, if◌then◌else◌, Bool-cases, ==→eq, ==→ne, eq→==, length, length-append, All, All-append, has,
  update, update_self, update_ne, ℕ, zero, suc, ◌+◌, ◌^◌, ◌≤◌, ◌<◌, ◌≡◌, refl, sym, ap, ◌∙◌, ◌≢◌,
  inl, inr, true, false, not, Option, some, List, [], ◌∷◌, ◌++◌, append_assoc, append-nil, arith,
}
use bi_project.Base.Run.{if_true, if_false, check_then, bind_some}

has_item : (P : ℕ → Type 0) (a : ℕ) (chain : List ℕ) → has a chain ≡ true → All P chain → P a
has_item P a [] e h = absurd (ground arith)
has_item P a (x ∷ chain) e (hx, h) = elim (Bool-cases (x == a)) [
  | inl same ↦ rw (==→eq _ _ same) at hx
  | inr other ↦ has_item P a chain (rw other at e) h
]

abbrev counted : {A : Type 0} → A → ℕ → Option (ℕ × A)
counted x e = some (e, x)

-- The objects after an item is unlinked at the time `t`
abbrev pub unlinked : (ℕ → Object) → (a t : ℕ) → ℕ → Object
unlinked objs a t =
    let objs' = flags objs a false in update objs' a (record (objs' a) { tsc_free = t })

unlinked_other : (objs : ℕ → Object) (a t d : ℕ) → d ≢ a → unlinked objs a t d ≡ objs d
unlinked_other objs a t d ne =
    update_ne (flags objs a false) a d _ (λ e. ne (sym e)) ∙ update_ne objs a d _ (λ e. ne (sym e))

unlinked-Keyed : (objs : ℕ → Object) (a t d : ℕ) → Keyed (objs d) (unlinked objs a t d)
unlinked-Keyed objs a t d = elim (Bool-cases (a == d)) [
  | inr ne ↦ rw ne (refl, refl)
  | inl e ↦ rw (e, ==→eq _ _ e, eq→== d d refl) (refl, refl)
]

Without-flags :
    (objs : ℕ → Object) (a : ℕ) (chain chain' : List ℕ)
    → Without (flags objs a false) a chain chain'
    → Without objs a chain chain'
unfolding Without
Without-flags objs a chain chain' (sub, u, out, keeps) = (
  sub,
  Unique-change (flags objs a false) objs chain'
      (All-of _ (λ d. let (e, k) = flags-Keyed objs a false d in (sym e, sym k)) chain') u,
  out,
  keeps,
)

-- The objects in use among `left` objects of the size `m` from `a` on
abbrev pub used_from : (in_use m : ℕ) → (ℕ → Object) → (left a : ℕ) → List ℕ
used_from in_use m objs zero a = []
used_from in_use m objs (suc left) a =
    let rest = used_from in_use m objs left (a + m) in
    if (objs a).tsc_free == in_use then a ∷ rest else rest

module _ {L : Type 0} (env : Env L) (curr base : ℕ) (laws : Laws env curr base) where
  -- The state after an item is unlinked: it waits in the ring, and no other item changes or leaves its
  -- bucket.
  unfoldable pub UnlinksTo : (a : ℕ) → Node L → List ℕ → Option (Node L) → Type 0
  UnlinksTo a n q r =
      (n' : Node L) × (r ≡ some n')
      × IsServing env curr base laws n' (q ++ (a ∷ []))
      × ((d : ℕ) → d ≢ a → n'.objs d ≡ n.objs d)
      × ((b d : ℕ) → d ≢ a → has d (n'.table b) ≡ has d (n.table b))

  -- Items other than the one unlinked stay linked.
  stays_Linked :
      (objs : ℕ → Object) (l l' : L) (q : List ℕ) (b a t : ℕ) (chain : List ℕ)
      → ((x : ℕ) → laws.Held l x → laws.Held l' x)
      → All (λ d. d ≢ a) chain
      → All (Linked env curr base laws objs l q b) chain
      → All (Linked env curr base laws (unlinked objs a t) l' (q ++ (a ∷ [])) b) chain
  stays_Linked objs l l' q b a t [] keep out h = tt
  stays_Linked objs l l' q b a t (d ∷ chain) keep (ne, out) ((nz, held, lk, slab, at_b, away), h) =
      (
        rw (unlinked_other objs a t d ne) (
          nz,
          keep d held,
          lk,
          slab,
          at_b,
          All-append (λ c. c ≢ d) q (a ∷ []) away ((λ e. ne (sym e)), tt),
        ),
        stays_Linked objs l l' q b a t chain keep out h,
      )

  -- An item of another bucket is not the one unlinked.
  elsewhere :
      (objs : ℕ → Object) (l : L) (q : List ℕ) (b a : ℕ) (chain : List ℕ)
      → bucket ((objs a).hv) ≢ b
      → All (Linked env curr base laws objs l q b) chain
      → All (λ d. d ≢ a) chain
  elsewhere objs l q b a [] ne h = tt
  elsewhere objs l q b a (d ∷ chain) ne (hd, h) =
      (λ e. ne (ap (λ x. bucket ((objs x).hv)) (sym e) ∙ hd.4), elsewhere objs l q b a chain ne h)

  module _ (n : Node L) (q : List ℕ) (a t : ℕ) (chain : List ℕ) (l' : L)
      (h : IsServing env curr base laws n q)
      (wo : Without n.objs a (n.table (bucket ((n.objs a).hv))) chain)
      (keep : (x : ℕ) → laws.Held n.lists x → laws.Held l' x) where
    unlink_links :
        (b : ℕ)
        → All
            (Linked env curr base laws (unlinked n.objs a t) l' (q ++ (a ∷ [])) b)
            (update n.table (bucket ((n.objs a).hv)) chain b)
    unfolding IsServing Without
    unlink_links b = elim (Bool-cases (bucket ((n.objs a).hv) == b)) [
      | inr ne ↦ rw ne (
          stays_Linked n.objs n.lists l' q b a t (n.table b) keep
            (elsewhere n.objs n.lists q b a (n.table b) (==→ne _ _ ne) (h.1 b)) (h.1 b))
      | inl e ↦
          rw (e, ← ==→eq _ _ e)
            (stays_Linked n.objs n.lists l' q (bucket ((n.objs a).hv)) a t chain keep wo.2
              (wo.0 _ (h.1 (bucket ((n.objs a).hv)))))
    ]

    unlink-Unique :
        (b : ℕ) → Unique (unlinked n.objs a t) (update n.table (bucket ((n.objs a).hv)) chain b)
    unfolding IsServing Without
    unlink-Unique b =
        let change = (λ (c : List ℕ) (u : Unique n.objs c).
          Unique-change n.objs (unlinked n.objs a t) c (All-of _ (unlinked-Keyed n.objs a t) c)
            u) in
        elim (Bool-cases (bucket ((n.objs a).hv) == b)) [
          | inr ne ↦ rw ne (change (n.table b) (h.2 b))
          | inl e ↦ rw e (change chain wo.1)
        ]

    unlink_has :
        (b d : ℕ)
        → d ≢ a
        → has d (update n.table (bucket ((n.objs a).hv)) chain b) ≡ has d (n.table b)
    unfolding Without
    unlink_has b d ne = elim (Bool-cases (bucket ((n.objs a).hv) == b)) [
      | inr other ↦ rw other refl
      | inl e ↦ rw (e, ← ==→eq _ _ e) (wo.3 d ne)
    ]

  unlink-UnlinksTo :
      (a : ℕ) (n : Node L) (q : List ℕ) (chain : List ℕ) (r : Option (Node L))
      → IsServing env curr base laws n q
      → Without n.objs a (n.table (bucket ((n.objs a).hv))) chain
      → length q + 1 < quis_num
      → FreesLater env curr base laws a
          (record n {
            objs = flags n.objs a false;
            table = update n.table (bucket ((n.objs a).hv)) chain;
          })
          q
          r
      → UnlinksTo a n q r
  unfolding UnlinksTo FreesLater IsServing
  unlink-UnlinksTo a n q chain r h wo lt
        (freed, rest, n1, split, done, hq, objs_eq, table_eq, aged, only, back, keep) =
      let t = env.tsc n.ticks in
      let none_freed : freed ≡ [] = only lt in
      let rest_q : rest ≡ q = sym (split ∙ ap (λ f. f ++ rest) none_freed) in
      let keep' = (λ (x : ℕ) (hx : laws.Held n.lists x). keep x hx (rw none_freed tt)) in
      (
        n1,
        done,
        (
          rw rest_q at hq,
          λ b. rw (objs_eq, table_eq) (unlink_links n q a t chain n1.lists h wo keep' b),
          λ b. rw (objs_eq, table_eq) (unlink-Unique n q a t chain n1.lists h wo keep' b),
        ),
        λ d ne. rw objs_eq (unlinked_other n.objs a t d ne),
        λ b d ne. rw table_eq (unlink_has n q a t chain n1.lists h wo keep' b d ne),
      )

  do_item_unlink-UnlinksTo :
      (a : ℕ) (n : Node L) (q : List ℕ)
      → IsServing env curr base laws n q
      → has a (n.table (bucket ((n.objs a).hv))) ≡ true
      → mc_hv2node ((n.objs a).hv) ≡ curr
      → length q + 1 < quis_num
      → grace ≤ env.tsc (n.ticks + 1)
      → env.tsc (n.ticks + 1) < 2 ^ 64
      → UnlinksTo a n q (do_item_unlink env curr a ((n.objs a).hv) n)
  unfolding do_item_unlink assoc_delete do_item_remove_free IsServing IsQuiescing
  do_item_unlink-UnlinksTo a n q h there mine room le lt =
      let b = bucket ((n.objs a).hv) in
      let chain = n.table b in
      let (nz, held, lk, slab, at_b, out) = has_item _ a chain there (h.1 b) in
      let objs' = flags n.objs a false in
      let same : same_key ((n.objs a).key) ((n.objs a).nkey) (objs' a) ≡ true =
        ap (same_key ((n.objs a).key) ((n.objs a).nkey)) (update_self n.objs a _)
        ∙ same_key_refl (n.objs a) in
      let keyed = All-of _ (flags-Keyed n.objs a false) in
      let (chain', done, wo') =
        delete_loop-Without objs' ((n.objs a).key) ((n.objs a).nkey) a chain same
          (Unique-change n.objs objs' chain (keyed chain) (h.2 b)) there in
      let n2 = record n { objs = objs'; table = update n.table b chain' } in
      let kept : (objs' a).slabbed ≡ false = ap (λ o. o.slabbed) (update_self n.objs a _) ∙ slab in
      subst (UnlinksTo a n q)
        (sym (
          check_then _ lk
          ∙ bind_some _ (check_then _ (eq→== _ _ mine) ∙ bind_some _ done)
          ∙ check_then _ (ap not kept)))
        (unlink-UnlinksTo a n q chain' _ h (Without-flags n.objs a chain chain' wo') room
          (parsec_mem_free-queue env curr base laws a n2 q h.0 held nz out le lt (inl room)))

  -- Each object in use among `left` objects from `a` on is an item of the server, in the table.
  abbrev pub InTable : Node L → (left a : ℕ) → Type 0
  InTable n zero a = Unit
  InTable n (suc left) a =
      ((n.objs a).tsc_free ≡ env.in_use
        → (has a (n.table (bucket ((n.objs a).hv))) ≡ true) × (mc_hv2node ((n.objs a).hv) ≡ curr))
      × InTable n left (a + env.objmem)

  -- What an unlinked item in front leaves
  InTable-after :
      (n n' : Node L) (left a d : ℕ)
      → 0 < env.objmem
      → a < d
      → ((x : ℕ) → x ≢ a → n'.objs x ≡ n.objs x)
      → ((b x : ℕ) → x ≢ a → has x (n'.table b) ≡ has x (n.table b))
      → InTable n left d
      → InTable n' left d
  InTable-after n n' zero a d pos lt same_o same_t h = tt
  InTable-after n n' (suc left) a d pos lt same_o same_t (hd, h) = (
    rw (same_o d (λ e. absurd (omega arith)))
        (λ busy. ((same_t _ d (λ e. absurd (omega arith)) ∙ (hd busy).0), (hd busy).1)),
    InTable-after n n' left a (d + env.objmem) pos (omega arith) same_o same_t h,
  )

  used_from-after :
      (objs objs' : ℕ → Object) (left a d : ℕ)
      → 0 < env.objmem
      → a < d
      → ((x : ℕ) → x ≢ a → objs' x ≡ objs x)
      → used_from env.in_use env.objmem objs' left d ≡ used_from env.in_use env.objmem objs left d
  used_from-after objs objs' zero a d pos lt same = refl
  used_from-after objs objs' (suc left) a d pos lt same =
      rw
        (
          same d (λ e. absurd (omega arith)),
          used_from-after objs objs' left a (d + env.objmem) pos (omega arith) same,
        )
        refl

  -- After an eviction of the objects `out`, with `e` evicted before: they wait in the ring, in order,
  -- and every other item is where it was.
  unfoldable pub EvictsTo :
      (out : List ℕ) → (e : ℕ) → Node L → List ℕ → Option (ℕ × Node L) → Type 0
  EvictsTo out e n q r =
      (n' : Node L) × (r ≡ some (e + length out, n'))
      × IsServing env curr base laws n' (q ++ out)
      × ((b d : ℕ) → All (λ x. d ≢ x) out → has d (n'.table b) ≡ has d (n.table b))

  -- The objects in use of one slab
  abbrev used : Node L → (left a : ℕ) → List ℕ
  used n left a = used_from env.in_use env.objmem n.objs left a

  evict_loop-EvictsTo :
      (left a e : ℕ) (n : Node L) (q : List ℕ)
      → IsServing env curr base laws n q
      → InTable n left a
      → 0 < env.objmem
      → length q + left < quis_num
      → ((k : ℕ) → (grace ≤ env.tsc k) × (env.tsc k < 2 ^ 64))
      → EvictsTo (used n left a) e n q (evict_loop env curr left a e n)
  unfolding EvictsTo evict_loop UnlinksTo
  evict_loop-EvictsTo zero a e n q h inside pos room clock =
      (n, ap (counted n) (omega arith), rw (append-nil q) h, λ b d out. refl)
  evict_loop-EvictsTo (suc left) a e n q h (here, inside) pos room clock =
      let m = env.objmem in
      elim (Bool-cases ((n.objs a).tsc_free == env.in_use)) [
        | inr free ↦
            let (n', done, h', same) =
              evict_loop-EvictsTo left (a + m) e n q h inside pos (omega arith) clock in
            let skip : used n (suc left) a ≡ used n left (a + m) = if_false _ _ free in
            subst (λ out. EvictsTo out e n q (evict_loop env curr (suc left) a e n)) (sym skip)
              (n', if_true _ _ (ap not free) ∙ done, h', same)
        | inl in_use ↦
            let (there, mine) = here (==→eq _ _ in_use) in
            let (n1, done1, h1, same_o, same_t) =
              do_item_unlink-UnlinksTo a n q h there mine (omega arith) (clock (n.ticks + 1)).0
                (clock (n.ticks + 1)).1 in
            let longer = length-append q (a ∷ []) in
            let later : a < a + m = omega arith in
            let (n', done, h', same) =
              evict_loop-EvictsTo left (a + m) (e + 1) n1 (q ++ (a ∷ [])) h1
                (InTable-after n n1 left a (a + m) pos later same_o same_t inside) pos (omega arith)
                clock in
            let first : used n (suc left) a ≡ a ∷ used n1 left (a + m) =
              if_true _ _ in_use
              ∙ ap (λ x. a ∷ x)
                  (sym (used_from-after n.objs n1.objs left a (a + m) pos later same_o)) in
            subst (λ out. EvictsTo out e n q (evict_loop env curr (suc left) a e n)) (sym first)
              (
                n',
                if_false _ _ (ap not in_use)
                    ∙ check_then _ (eq→== _ _ mine)
                    ∙ bind_some _ done1
                    ∙ done
                    ∙ ap (counted n') (omega arith),
                rw (append_assoc q (a ∷ []) (used n1 left (a + m))) at h',
                λ b d out. same b d out.1 ∙ same_t b d out.0,
              )
      ]

  -- On a server of bi_mc that keeps its invariant and with a clock past the grace time, a slab of
  -- the server without free objects, whose objects in use are items in the table and find room in
  -- the ring, is evicted: the invariant holds, exactly these items wait in the ring behind the
  -- others, in order, and every other item stays in its bucket.
  pub slab_evict-EvictsTo :
      (s : ℕ) (n : Node L) (q : List ℕ)
      → IsServing env curr base laws n q
      → (env.slab n.lists s).coreid ≡ curr
      → (env.slab n.lists s).nfree ≡ 0
      → InTable n env.nobjs (env.slab n.lists s).first
      → 0 < env.objmem
      → length q + env.nobjs < quis_num
      → ((k : ℕ) → (grace ≤ env.tsc k) × (env.tsc k < 2 ^ 64))
      → (n' : Node L) × (slab_evict env curr s n ≡ some n')
        × IsServing env curr base laws n' (q ++ used n env.nobjs (env.slab n.lists s).first)
        × ((b d : ℕ)
            → All (λ x. d ≢ x) (used n env.nobjs (env.slab n.lists s).first)
            → has d (n'.table b) ≡ has d (n.table b))
  unfolding slab_evict EvictsTo IsServing IsQuiescing
  slab_evict-EvictsTo s n q h own full inside pos room clock =
      let (n', done, h', same) =
        evict_loop-EvictsTo env.nobjs (env.slab n.lists s).first 0 n q h inside pos room clock in
      (_, check_then _ (eq→== _ _ own) ∙ check_then _ (eq→== _ _ full) ∙ bind_some _ done, h', same)
