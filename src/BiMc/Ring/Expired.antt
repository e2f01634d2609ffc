-- ===== src/BiMc/Ring/Expired.antt =====
-- The reclamation and the ring of mc_code/bi_mc/memcache.c together: which objects go back to the
-- allocator, and when.
use mathlib.Core.Path.{subst}
use native.Mathlib.Nat.{mul-add, mul-le-mul_left}
use bi_project.BiMc.{
  quis_num, grace, sub64, Object, McStatus, QscRing, qsc_ring_peek, Env, Node, mem_smr_reclaim,
  mem_quiesce, reclaimed,
}
use bi_project.BiMc.Laws.{Laws}
use bi_project.BiMc.Ring.{IsQueue-length, IsQueue, peek-nil, peek-cons, IsQueue-nonzero}
use bi_project.BiMc.Ring.Reclaim.{Distinct, Young, Reclaims, released, reclaim_loop-Reclaims}
use bi_project.Base.{
  ◌==◌, eq→==, ne→==, length, length-append, All, All-mono, ℕ, ◌+◌, ◌*◌, ◌^◌, ◌≤◌, ◌<◌, ◌≡◌, refl,
  sym, ap, ◌∙◌, ◌≢◌, false, Option, some, List, [], ◌∷◌, ◌++◌, arith,
}
use bi_project.Base.Run.{◌>>=◌, if_true, if_false}

-- The first object of the list, if any, was freed less than the grace time before `now`.
abbrev pub Waits : (now : ℕ) → (ℕ → Object) → List ℕ → Type 0
Waits now objs [] = Unit
Waits now objs (a ∷ q) = now < (objs a).tsc_free + grace

Young-Waits :
    (now : ℕ) (objs : ℕ → Object) (q : List ℕ)
    → grace ≤ now
    → now < 2 ^ 64
    → Young (mem_quiesce now) objs q
    → Waits now objs q
Young-Waits now objs [] le lt h = tt
Young-Waits now objs (a ∷ q) le lt h = omega arith

zero_plus : (x : ℕ) → 0 + x ≡ x
zero_plus x = omega arith

pub below : {a b : ℕ} → a < b → a ≤ b
below h = omega arith

quiesce_left :
    (m : ℕ) (freed rest : List ℕ)
    → m * quis_num < 2 ^ 64
    → length (freed ++ rest) < quis_num
    → sub64 (m * length (freed ++ rest)) (m * length freed) ≡ m * length rest
quiesce_left m freed rest small lt =
    let le = mul-le-mul_left m (below lt) in
    let sum : m * length (freed ++ rest) ≡ m * length freed + m * length rest =
      ap (λ k. m * k) (length-append freed rest) ∙ mul-add m (length freed) (length rest) in
    omega arith

module _ {L : Type 0} (env : Env L) (curr base : ℕ) (laws : Laws env curr base) where
  -- What stands in the ring: the queue `q`, of distinct objects that are handed out, and `quiesce`
  -- counts its bytes.
  unfoldable pub IsQuiescing : Node L → List ℕ → Type 0
  IsQuiescing n q =
      IsQueue n.qsc_list q
      × Distinct q
      × All (laws.Held n.lists) q
      × (n.status.base ≡ base)
      × (n.status.quiesce ≡ env.objmem * length q)

  -- The result of a reclamation at the clock reading `now`: `freed` went back to the allocator.
  unfoldable pub ReclaimsTo : (now : ℕ) → Node L → List ℕ → Option (ℕ × Node L) → Type 0
  ReclaimsTo now n q r =
      (freed rest : List ℕ) × (ql : QscRing) × (l : L) × (st : McStatus) × (k : ℕ) × (q
        ≡ freed ++ rest)
      × (r
          ≡ some (
            env.objmem * length freed,
            record n { qsc_list = ql; lists = l; status = st; ticks = k },
          ))
      × IsQueue ql rest
      × All (λ a. (n.objs a).tsc_free + grace ≤ now) freed
      × Waits now n.objs rest
      × (st.quiesce ≡ env.objmem * length rest)
      × (st.base ≡ base)
      × (l ≡ released env base freed n.lists)
      × ((b : ℕ) → laws.Held n.lists b → All (λ a. b ≢ a) freed → laws.Held l b)
      × (n.ticks ≤ k)

  reclaimed-ReclaimsTo :
      (n : Node L) (q : List ℕ) (r : Option (ℕ × Node L))
      → IsQuiescing n q
      → grace ≤ env.tsc n.ticks
      → env.tsc n.ticks < 2 ^ 64
      → Reclaims env curr base laws
          (mem_quiesce (env.tsc n.ticks))
          0
          (record n { ticks = n.ticks + 1 })
          q
          r
      → ReclaimsTo (env.tsc n.ticks) n q (r >>= (λ s. some (reclaimed s)))
  unfolding IsQuiescing ReclaimsTo Reclaims
  reclaimed-ReclaimsTo n q r (hq, dis, held, hb, count) le lt
        (freed, rest, ql, l, st, split, done, hq', old, young, sq, sb, back, keep) =
      (
        freed,
        rest,
        ql,
        l,
        record st {
          used = sub64 st.used (env.objmem * length freed);
          quiesce = sub64 st.quiesce (env.objmem * length freed);
        },
        n.ticks + 1,
        split,
        rw (done, zero_plus (env.objmem * length freed)) refl,
        hq',
        All-mono _ _ freed (λ a h. omega arith) old,
        Young-Waits (env.tsc n.ticks) n.objs rest le lt young,
        ap (λ x. sub64 x (env.objmem * length freed))
              (sq ∙ count ∙ ap (λ x. env.objmem * length x) split)
            ∙ quiesce_left env.objmem freed rest laws.small
                (rw split at (IsQueue-length n.qsc_list q hq)),
        sb ∙ hb,
        back,
        keep,
        omega arith,
      )

  -- On a ring with a queue of distinct objects of the server and a clock past the grace time,
  -- `mem_smr_reclaim` ends and gives exactly the objects at the front that were freed at least the
  -- grace time ago back to the allocator, whose state afterwards is that after each of them was
  -- freed there, in order, with each page that this makes free marked in the bitmap; the others
  -- stay, and `quiesce` counts their bytes.
  pub mem_smr_reclaim-expired :
      (n : Node L) (q : List ℕ)
      → IsQuiescing n q
      → grace ≤ env.tsc n.ticks
      → env.tsc n.ticks < 2 ^ 64
      → ReclaimsTo (env.tsc n.ticks) n q (mem_smr_reclaim env curr n)
  unfolding IsQuiescing ReclaimsTo mem_smr_reclaim
  mem_smr_reclaim-expired n [] (hq, dis, held, hb, count) le lt = (
    [],
    [],
    n.qsc_list,
    n.lists,
    n.status,
    n.ticks,
    refl,
    if_true _ _ (eq→== _ _ (peek-nil n.qsc_list hq)) ∙ ap (λ x. some (x, n)) (omega arith),
    hq,
    tt,
    tt,
    count,
    hb,
    refl,
    λ b h none_freed. h,
    omega arith,
  )
  mem_smr_reclaim-expired n (a ∷ q) h le lt =
      let (hq, dis, held, hb, count) = h in
      let there : (qsc_ring_peek n.qsc_list == 0) ≡ false =
        rw (peek-cons n.qsc_list a q hq) (ne→== a 0 (IsQueue-nonzero n.qsc_list a q hq)) in
      subst (ReclaimsTo (env.tsc n.ticks) n (a ∷ q)) (sym (if_false _ _ there)) (
        reclaimed-ReclaimsTo n (a ∷ q) _ h le lt (
          reclaim_loop-Reclaims env curr base laws (mem_quiesce (env.tsc n.ticks)) quis_num 0
            (record n { ticks = n.ticks + 1 }) (a ∷ q) hq (IsQueue-length n.qsc_list (a ∷ q) hq) dis
            held hb))
