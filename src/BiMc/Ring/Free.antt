-- ===== src/BiMc/Ring/Free.antt =====
-- `parsec_mem_free` of mc_code/bi_mc/memcache.c: how an object enters the quiescence ring, also when
-- the ring is full.
use mathlib.Core.Path.{subst}
use native.Mathlib.Nat.{mul-suc, mul-le-mul_left}
use bi_project.BiMc.Ring.Lists.{
  Distinct-right, All-left, All-right, Distinct-apart, Distinct-snoc, All-both,
}
use bi_project.BiMc.{
  parsec_mem_free, quis_num, grace, add64, Object, McStatus, QscRing, ring_put, ring_full, Env,
  Node, mem_smr_reclaim, qsc_ring_enqueue,
}
use bi_project.BiMc.Laws.{Laws}
use bi_project.BiMc.Ring.{IsQueue, put-IsQueue, full-length, IsQueue-length}
use bi_project.BiMc.Ring.Reclaim.{Distinct, released}
use bi_project.BiMc.Ring.Expired.{IsQuiescing, ReclaimsTo, mem_smr_reclaim-expired, below}
use bi_project.Base.{
  Bool-cases, length, length-append, All, All-append, All-mono, update, update_ne, ℕ, ◌+◌, ◌*◌, ◌^◌,
  ◌≤◌, ◌<◌, ◌≡◌, refl, sym, ap, ◌∙◌, ◌≢◌, ◌⊎◌, inl, inr, true, false, not, Option, some, List, [],
  ◌∷◌, ◌++◌, arith,
}
use bi_project.Base.Run.{◌>>=◌, ◌>>◌, check, if_true, if_false}

-- The first object of the list was freed at least the grace time before `now`.
abbrev pub Ready : (now : ℕ) → (ℕ → Object) → List ℕ → Type 0
Ready now objs [] = ⊥
Ready now objs (a ∷ q) = (objs a).tsc_free + grace ≤ now

quiesce_more :
    (m : ℕ) (q : List ℕ) (a : ℕ)
    → m * quis_num < 2 ^ 64
    → length (q ++ (a ∷ [])) < quis_num
    → add64 (m * length q) m ≡ m * length (q ++ (a ∷ []))
quiesce_more m q a small lt =
    let longer = length-append q (a ∷ []) in
    let le = mul-le-mul_left m (below lt) in
    let sum : m * length (q ++ (a ∷ [])) ≡ m * length q + m =
      ap (λ k. m * k) longer ∙ ap (λ k. m * k) (omega arith) ∙ mul-suc m (length q) in
    omega arith

free_ring :
    (ql : QscRing) (q : List ℕ) → IsQueue ql q → length q + 1 < quis_num → ring_full ql ≡ false
free_ring ql q hq lt = elim (Bool-cases (ring_full ql)) [
  | inl full ↦ let e = (full-length ql q hq).0 full in absurd (omega arith)
  | inr free ↦ free
]

Ready-update :
    (now : ℕ) (objs : ℕ → Object) (a : ℕ) (o : Object) (q : List ℕ)
    → All (λ b. b ≢ a) q
    → Ready now objs q
    → Ready now (update objs a o) q
Ready-update now objs a o [] new h = h
Ready-update now objs a o (x ∷ q) new h = rw (update_ne objs a x o (λ e. new.0 (sym e))) h

module _ {L : Type 0} (env : Env L) (curr base : ℕ) (laws : Laws env curr base) where
  -- The state after `qsc_ring_enqueue` of `a` at the reading `now`, when the queue was `q`: `freed`
  -- went back to the allocator before, which happens only on a full ring.
  EnqueuesTo : (now a : ℕ) → Node L → List ℕ → Option (Node L) → Type 0
  EnqueuesTo now a n q r =
      (freed rest : List ℕ) × (ql : QscRing) × (l : L) × (st : McStatus) × (k : ℕ) × (q
        ≡ freed ++ rest)
      × (r ≡ some (record n { qsc_list = ql; lists = l; status = st; ticks = k }))
      × IsQueue ql (rest ++ (a ∷ []))
      × Distinct (rest ++ (a ∷ []))
      × All (laws.Held l) (rest ++ (a ∷ []))
      × (st.base ≡ base)
      × (st.quiesce ≡ env.objmem * length rest)
      × All (λ b. (n.objs b).tsc_free + grace ≤ now) freed
      × (ring_full n.qsc_list ≡ false → freed ≡ [])
      × (l ≡ released env base freed n.lists)
      × ((b : ℕ) → laws.Held n.lists b → All (λ c. b ≢ c) freed → laws.Held l b)

  -- A ring that a reclamation has made shorter has room.
  has_room :
      (ql : QscRing) (freed rest : List ℕ) (a : ℕ)
      → IsQueue ql rest
      → length (a ∷ freed ++ rest) < quis_num
      → ring_full ql ≡ false
  has_room ql freed rest a hq lt =
      let total = length-append freed rest in
      elim (Bool-cases (ring_full ql)) [
        | inl full ↦ let e = (full-length ql rest hq).0 full in absurd (omega arith)
        | inr free ↦ free
      ]

  put-EnqueuesTo :
      (now a : ℕ) (n : Node L) (q : List ℕ) (r : Option (ℕ × Node L))
      → IsQuiescing env curr base laws n q
      → laws.Held n.lists a
      → a ≢ 0
      → All (λ b. b ≢ a) q
      → ring_full n.qsc_list ≡ true
      → Ready now n.objs q
      → ReclaimsTo env curr base laws now n q r
      → EnqueuesTo now a n q (
          r >>= (λ s.
            check (not (ring_full s.1.qsc_list))
            >> some (record (s.1) { qsc_list = ring_put s.1.qsc_list a })))
  unfolding EnqueuesTo ReclaimsTo IsQuiescing
  put-EnqueuesTo now a n q r (hq, dis, held, hb, count) held_a nz new full ready
        ([], [], ql, l, st, k, split, done, hq', old, waits, count', hb', back, keep, later) =
      absurd (rw split at ready)
  put-EnqueuesTo now a n q r (hq, dis, held, hb, count) held_a nz new full ready
        ([], x ∷ rest, ql, l, st, k, split, done, hq', old, waits, count', hb', back, keep, later) =
      let aged : (n.objs x).tsc_free + grace ≤ now = rw split at ready in absurd (omega arith)
  put-EnqueuesTo now a n q r (hq, dis, held, hb, count) held_a nz new full ready
        (
          x ∷ freed,
          rest,
          ql,
          l,
          st,
          k,
          split,
          done,
          hq',
          old,
          waits,
          count',
          hb',
          back,
          keep,
          later,
        ) =
      let short : length (x ∷ freed ++ rest) < quis_num =
        rw split at (IsQueue-length n.qsc_list q hq) in
      let room = has_room ql freed rest x hq' short in
      let dis' : Distinct ((x ∷ freed) ++ rest) = rw split at dis in
      let held' : All (laws.Held n.lists) ((x ∷ freed) ++ rest) = rw split at held in
      let new' : All (λ b. b ≢ a) ((x ∷ freed) ++ rest) = rw split at new in
      (
        x ∷ freed,
        rest,
        ring_put ql a,
        l,
        st,
        k,
        split,
        rw (done, room) refl,
        put-IsQueue ql a rest hq' nz room,
        Distinct-snoc rest a (Distinct-right (x ∷ freed) rest dis')
            (All-right (λ b. b ≢ a) (x ∷ freed) rest new'),
        All-append (laws.Held l) rest (a ∷ [])
            (All-both (laws.Held n.lists) (λ b. All (λ c. b ≢ c) (x ∷ freed)) (laws.Held l) rest
              keep (All-right (laws.Held n.lists) (x ∷ freed) rest held')
              (Distinct-apart (x ∷ freed) rest dis'))
            (
              keep a held_a (
                  All-mono _ _ (x ∷ freed) (λ b ne e. ne (sym e))
                    (All-left (λ b. b ≢ a) (x ∷ freed) rest new')),
              tt,
            ),
        hb',
        count',
        old,
        λ free. absurd (ground arith),
        back,
        keep,
      )

  enqueue-EnqueuesTo :
      (a : ℕ) (n : Node L) (q : List ℕ)
      → IsQuiescing env curr base laws n q
      → laws.Held n.lists a
      → a ≢ 0
      → All (λ b. b ≢ a) q
      → grace ≤ env.tsc n.ticks
      → env.tsc n.ticks < 2 ^ 64
      → (length q + 1 < quis_num) ⊎ Ready (env.tsc n.ticks) n.objs q
      → EnqueuesTo (env.tsc n.ticks) a n q (qsc_ring_enqueue env curr a n)
  unfolding EnqueuesTo IsQuiescing qsc_ring_enqueue
  enqueue-EnqueuesTo a n q h held_a nz new le lt room = elim (Bool-cases (ring_full n.qsc_list)) [
    | inr free ↦
        let (hq, dis, held, hb, count) = h in
        (
          [],
          q,
          ring_put n.qsc_list a,
          n.lists,
          n.status,
          n.ticks,
          refl,
          if_false _ _ free,
          put-IsQueue n.qsc_list a q hq nz free,
          Distinct-snoc q a dis new,
          All-append (laws.Held n.lists) q (a ∷ []) held (held_a, tt),
          hb,
          count,
          tt,
          λ f. refl,
          refl,
          λ b hb none_freed. hb,
        )
    | inl full ↦
        let same = (full-length n.qsc_list q h.0).0 full in
        let ready : Ready (env.tsc n.ticks) n.objs q = elim room [
          | inl less ↦ absurd (omega arith)
          | inr r ↦ r
        ] in
        subst (EnqueuesTo (env.tsc n.ticks) a n q) (sym (if_true _ _ full)) (
          put-EnqueuesTo (env.tsc n.ticks) a n q (mem_smr_reclaim env curr n) h held_a nz new full
            ready (mem_smr_reclaim-expired env curr base laws n q h le lt))
  ]

  -- The state after `parsec_mem_free` of `a`, when the queue was `q`
  unfoldable pub FreesLater : (a : ℕ) → Node L → List ℕ → Option (Node L) → Type 0
  FreesLater a n q r =
      (freed rest : List ℕ) × (n' : Node L) × (q ≡ freed ++ rest)
      × (r ≡ some n')
      × IsQuiescing env curr base laws n' (rest ++ (a ∷ []))
      × (n'.objs ≡ update n.objs a (record (n.objs a) { tsc_free = env.tsc n.ticks }))
      × (n'.table ≡ n.table)
      × All (λ b. (n.objs b).tsc_free + grace ≤ env.tsc (n.ticks + 1)) freed
      × (length q + 1 < quis_num → freed ≡ [])
      × (n'.lists ≡ released env base freed n.lists)
      × ((b : ℕ) → laws.Held n.lists b → All (λ c. b ≢ c) freed → laws.Held n'.lists b)

  free-FreesLater :
      (a : ℕ) (n : Node L) (q : List ℕ) (r : Option (Node L))
      → IsQuiescing env curr base laws n q
      → All (λ b. b ≢ a) q
      → EnqueuesTo
          (env.tsc (n.ticks + 1))
          a
          (record n {
            objs = update n.objs a (record (n.objs a) { tsc_free = env.tsc n.ticks });
            ticks = n.ticks + 1;
          })
          q
          r
      → FreesLater a n q (
          r >>= (λ n1. some (record n1 {
            status = record (n1.status) { quiesce = add64 n1.status.quiesce env.objmem };
          })))
  unfolding FreesLater EnqueuesTo IsQuiescing
  free-FreesLater a n q r (hq, dis, held, hb, count) new
        (
          freed, rest, ql, l, st, k, split, done, hq', dis', held', hb', count', old, only, back,
          keep,
        ) =
      (
        freed,
        rest,
        record n {
          objs = update n.objs a (record (n.objs a) { tsc_free = env.tsc n.ticks });
          qsc_list = ql;
          lists = l;
          status = record st { quiesce = add64 st.quiesce env.objmem };
          ticks = k;
        },
        split,
        rw done refl,
        (
          hq',
          dis',
          held',
          hb',
          ap (λ x. add64 x env.objmem) count'
              ∙ quiesce_more env.objmem rest a laws.small
                  (IsQueue-length ql (rest ++ (a ∷ [])) hq'),
        ),
        refl,
        refl,
        All-both
            (λ b.
              (update n.objs a (record (n.objs a) { tsc_free = env.tsc n.ticks }) b).tsc_free
                + grace
              ≤ env.tsc (n.ticks + 1))
            (λ b. b ≢ a) (λ b. (n.objs b).tsc_free + grace ≤ env.tsc (n.ticks + 1)) freed
            (λ b h ne. rw (update_ne n.objs a b _ (λ e. ne (sym e))) at h) old
            (All-left (λ b. b ≢ a) freed rest (rw split at new)),
        λ lt. only (free_ring n.qsc_list q hq lt),
        back,
        keep,
      )

  -- On a ring with a queue of distinct objects and a clock past the grace time, with room or with a
  -- first object that was freed at least the grace time ago, `parsec_mem_free` puts an object that
  -- is handed out behind the others, with the time; on a full ring only, objects in front go back
  -- to the allocator before, each after the grace time and in order, and nothing else changes the
  -- allocator's state; `quiesce` counts the bytes in the ring.
  pub parsec_mem_free-queue :
      (a : ℕ) (n : Node L) (q : List ℕ)
      → IsQuiescing env curr base laws n q
      → laws.Held n.lists a
      → a ≢ 0
      → All (λ b. b ≢ a) q
      → grace ≤ env.tsc (n.ticks + 1)
      → env.tsc (n.ticks + 1) < 2 ^ 64
      → (length q + 1 < quis_num) ⊎ Ready (env.tsc (n.ticks + 1)) n.objs q
      → FreesLater a n q (parsec_mem_free env curr a n)
  unfolding parsec_mem_free IsQuiescing
  parsec_mem_free-queue a n q h held nz new le lt room = free-FreesLater a n q _ h new (
      enqueue-EnqueuesTo a
        (record n {
          objs = update n.objs a (record (n.objs a) { tsc_free = env.tsc n.ticks });
          ticks = n.ticks + 1;
        })
        q h held nz new le lt
        (elim room [
          | inl less ↦ inl less
          | inr ready ↦ inr (Ready-update (env.tsc (n.ticks + 1)) n.objs a _ q new ready)
        ]))
