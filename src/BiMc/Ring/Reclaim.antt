-- ===== src/BiMc/Ring/Reclaim.antt =====
-- What a reclamation takes from the quiescence ring of mc_code/bi_mc/memcache.c, and that an object
-- enters it behind the others.
use native.Mathlib.Nat.{mul-suc}
use bi_project.BiMc.{
  page_size, mc_slab_aoc_sz, map_max, sub64, Object, McStatus, QscRing, qsc_ring_peek,
  qsc_ring_dequeue, Env, Node, fragmentation, mem_free_pages, give_page, slab_free, reclaim_loop,
}
use bi_project.BiMc.Laws.{Laws}
use bi_project.BiMc.Ring.{IsQueue, peek-nil, peek-cons, IsQueue-nonzero, dequeue-IsQueue}
use bi_project.Base.{
  ltb, ◌==◌, Bool-cases, ltb→lt, ltb→le, eq→==, ne→==, length, All, ℕ, zero, suc, ◌+◌, ◌-◌, ◌*◌,
  ◌/◌, ◌%◌, ◌≤◌, ◌<◌, ◌≡◌, refl, sym, ap, ◌∙◌, ◌≢◌, inl, inr, true, false, Option, none, some, List,
  [], ◌∷◌, ◌++◌, arith,
}

-- No object of the list occurs in it again.
abbrev pub Distinct : List ℕ → Type 0
Distinct [] = Unit
Distinct (a ∷ q) = All (λ b. b ≢ a) q × Distinct q

-- The first object of the list, if any, was freed after `qsc`.
abbrev pub Young : (qsc : ℕ) → (ℕ → Object) → List ℕ → Type 0
Young qsc objs [] = Unit
Young qsc objs (a ∷ q) = qsc < (objs a).tsc_free

abbrev with_bytes : {A : Type 0} → A → ℕ → Option (ℕ × A)
with_bytes x i = some (i, x)

no_bytes : {A : Type 0} (i m : ℕ) (x : A) → with_bytes x i ≡ with_bytes x (i + m * 0)
no_bytes i m x = ap (with_bytes x) (omega arith)

bytes :
    {A : Type 0} (i m k : ℕ) (x : A) → with_bytes x (i + m + m * k) ≡ with_bytes x (i + m * suc k)
bytes i m k x = ap (with_bytes x) (omega (arith, mul-suc m k))

-- What holds of each object, and of each but `a` still holds later, holds of a list without `a`.
All-with :
    (P Q : ℕ → Type 0) (a : ℕ)
    → ((b : ℕ) → P b → b ≢ a → Q b)
    → (q : List ℕ) → All P q
    → All (λ b. b ≢ a) q
    → All Q q
All-with P Q a f [] hp ne = tt
All-with P Q a f (x ∷ q) hp ne = (f x hp.0 ne.0, All-with P Q a f q hp.1 ne.1)

-- The allocator's state when it gives the page group at `s`, if any, back to the free memory.
abbrev pub page_back : {L : Type 0} → Env L → (base : ℕ) → Option ℕ → L → L
page_back env base none l = l
page_back env base (some s) l =
    env.set_contig ((s - base) / page_size) (mc_slab_aoc_sz / page_size) l

-- The allocator's state after each object of the list was given back to it, the first one first.
abbrev pub released : {L : Type 0} → Env L → (base : ℕ) → List ℕ → L → L
released env base [] l = l
released env base (a ∷ q) l =
    released env base q (page_back env base ((env.free_item a l).0) ((env.free_item a l).1))

pub released-append :
    {L : Type 0} (env : Env L) (base : ℕ) (q q' : List ℕ) (l : L)
    → released env base (q ++ q') l ≡ released env base q' (released env base q l)
released-append env base [] q' l = refl
released-append env base (a ∷ q) q' l = released-append env base q q' _

module _ {L : Type 0} (env : Env L) (curr base : ℕ) (laws : Laws env curr base) where
  -- The state after a release: only the allocator's state and the counters of pages and bytes change.
  FreesTo : (a : ℕ) → Node L → Option (Node L) → Type 0
  FreesTo a n r =
      (l : L) × (st : McStatus) × (r ≡ some (record n { lists = l; status = st }))
      × (st.quiesce ≡ n.status.quiesce)
      × (st.base ≡ n.status.base)
      × (l ≡ page_back env base ((env.free_item a n.lists).0) ((env.free_item a n.lists).1))
      × ((b : ℕ) → laws.Held n.lists b → b ≢ a → laws.Held l b)

  give-FreesTo :
      (a : ℕ) (n : Node L) (s : Option ℕ) (l : L)
      → n.status.base ≡ base
      → ((env.free_item a n.lists).0 ≡ s)
      → ((env.free_item a n.lists).1 ≡ l)
      → ((p : ℕ)
          → s ≡ some p
          → (p % page_size == 0) ≡ true
            × (ltb ((p - base) / page_size + mc_slab_aoc_sz / page_size) (map_max * 32) ≡ true))
      → FreesTo a n (give_page env curr s (record n { lists = l }))
  unfolding FreesTo give_page mem_free_pages
  give-FreesTo a n none l hb hs hl ok = (
    l,
    n.status,
    refl,
    refl,
    refl,
    rw (hs, hl) refl,
    λ b held ne. rw (← hl) (laws.free-Held n.lists a b held ne),
  )
  give-FreesTo a n (some s) l hb hs hl ok =
      let (aligned, small) = ok s refl in
      (
        env.set_contig ((s - n.status.base) / page_size) (mc_slab_aoc_sz / page_size) l,
        record (n.status) {
          free = n.status.free + 1;
          used = sub64 n.status.used (fragmentation env);
        },
        rw (hb, aligned, laws.server, small) refl,
        refl,
        refl,
        rw (hs, hl, hb) refl,
        λ b held ne. laws.set-Held l _ _ b (rw (← hl) (laws.free-Held n.lists a b held ne)),
      )

  slab_free-FreesTo :
      (a : ℕ) (n : Node L)
      → n.status.base ≡ base
      → laws.Held n.lists a
      → FreesTo a n (slab_free env curr a n)
  unfolding slab_free
  slab_free-FreesTo a n hb held =
      give-FreesTo a n ((env.free_item a n.lists).0) ((env.free_item a n.lists).1) hb refl refl
        (λ p e. laws.free-page n.lists a p held e)

  loop-young :
      (qsc fuel i a : ℕ) (n : Node L)
      → qsc_ring_peek n.qsc_list ≡ a
      → a ≢ 0
      → ltb qsc ((n.objs a).tsc_free) ≡ true
      → reclaim_loop env curr qsc (suc fuel) i n ≡ some (i, n)
  unfolding reclaim_loop
  loop-young qsc fuel i a n p nz young = rw (p, ne→== a 0 nz, young)

  -- One round that frees the first object
  loop-old :
      (qsc fuel i : ℕ) (n n2 : Node L)
      → qsc_ring_peek n.qsc_list ≢ 0
      → ltb qsc ((n.objs (qsc_ring_peek n.qsc_list)).tsc_free) ≡ false
      → env.coreid n.lists (qsc_ring_peek n.qsc_list) ≡ curr
      → slab_free env curr
          (qsc_ring_peek n.qsc_list)
          (record n { qsc_list = (qsc_ring_dequeue n.qsc_list).1 })
        ≡ some n2
      → reclaim_loop env curr qsc (suc fuel) i n
        ≡ reclaim_loop env curr qsc fuel (i + env.objmem) n2
  unfolding reclaim_loop
  loop-old qsc fuel i n n2 nz old owner done = rw (old, eq→== _ _ owner, done, ne→== _ 0 nz) refl

  -- What the loop does on a ring with the queue `q`: it frees the objects in front that were freed by
  -- `qsc`, and no other.
  unfoldable pub Reclaims : (qsc i : ℕ) → Node L → List ℕ → Option (ℕ × Node L) → Type 0
  Reclaims qsc i n q r =
      (freed rest : List ℕ) × (ql : QscRing) × (l : L) × (st : McStatus) × (q ≡ freed ++ rest)
      × (r
          ≡ some
              (i + env.objmem * length freed, record n { qsc_list = ql; lists = l; status = st }))
      × IsQueue ql rest
      × All (λ a. (n.objs a).tsc_free ≤ qsc) freed
      × Young qsc n.objs rest
      × (st.quiesce ≡ n.status.quiesce)
      × (st.base ≡ n.status.base)
      × (l ≡ released env base freed n.lists)
      × ((b : ℕ) → laws.Held n.lists b → All (λ a. b ≢ a) freed → laws.Held l b)

  pub reclaim_loop-Reclaims :
      (qsc fuel i : ℕ) (n : Node L) (q : List ℕ)
      → IsQueue n.qsc_list q
      → length q < fuel
      → Distinct q
      → All (laws.Held n.lists) q
      → n.status.base ≡ base
      → Reclaims qsc i n q (reclaim_loop env curr qsc fuel i n)
  unfolding Reclaims reclaim_loop FreesTo
  reclaim_loop-Reclaims qsc zero i n q hq lt dis held hb = absurd (omega arith)
  reclaim_loop-Reclaims qsc (suc fuel) i n [] hq lt dis held hb = (
    [],
    [],
    n.qsc_list,
    n.lists,
    n.status,
    refl,
    rw (peek-nil n.qsc_list hq) (no_bytes i env.objmem n),
    hq,
    tt,
    tt,
    refl,
    refl,
    refl,
    λ b hb none_freed. hb,
  )
  reclaim_loop-Reclaims qsc (suc fuel) i n (a ∷ q) hq lt (alone, dis) (held, helds) hb =
      let nz = IsQueue-nonzero n.qsc_list a q hq in
      let p = peek-cons n.qsc_list a q hq in
      elim (Bool-cases (ltb qsc ((n.objs a).tsc_free))) [
        | inl young ↦ (
          [],
          a ∷ q,
          n.qsc_list,
          n.lists,
          n.status,
          refl,
          loop-young qsc fuel i a n (peek-cons n.qsc_list a q hq) nz young
              ∙ no_bytes i env.objmem n,
          hq,
          tt,
          ltb→lt _ _ young,
          refl,
          refl,
          refl,
          λ b hb none_freed. hb,
        )
        | inr old ↦
            let n1 = record n { qsc_list = (qsc_ring_dequeue n.qsc_list).1 } in
            let (l, st, freed_eq, same_q, same_b, back, keep) =
              slab_free-FreesTo (qsc_ring_peek n.qsc_list) n1 hb (rw p held) in
            let n2 = record n1 { lists = l; status = st } in
            let (freed, rest, ql, l', st', split, done, hq', expired, young, q', b', back', keep') =
              reclaim_loop-Reclaims qsc fuel (i + env.objmem) n2 q
                (dequeue-IsQueue n.qsc_list a q hq) (omega arith) dis
                (All-with (laws.Held n.lists) (laws.Held l) a (λ b h ne. keep b h (λ s. ne (s ∙ p)))
                  q helds alone)
                (same_b ∙ hb) in
            (
              a ∷ freed,
              rest,
              ql,
              l',
              st',
              ap (λ x. a ∷ x) split,
              loop-old qsc fuel i n n2 (λ z. nz (sym p ∙ z)) (rw p old)
                    (rw p (laws.owner n.lists a held)) freed_eq
                  ∙ done
                  ∙ bytes i env.objmem (length freed) _,
              hq',
              (ltb→le _ _ old, expired),
              young,
              q' ∙ same_q,
              b' ∙ same_b,
              back'
                  ∙ ap (released env base freed) (
                      back
                      ∙ ap
                          (λ x.
                            page_back env base ((env.free_item x n.lists).0)
                              ((env.free_item x n.lists).1))
                          p),
              λ b h ne. keep' b (keep b h (λ s. ne.0 (s ∙ p))) ne.1,
            )
      ]
