-- ===== src/Smr/LocalCache/Batches.antt =====
-- What a local cache and its ring hold together (libs/bi/bi_smr.c).
use bi_project.Base.{
  ◌==◌, Bool-cases, lt→ltb, ==→ne, tests, update, update_self, update_ne, ℕ, zero, suc, ◌+◌, ◌<◌,
  ◌≡◌, refl, sym, ap, ap₂, ◌∙◌, inl, inr, some, List, [], ◌∷◌, ◌++◌, map, append_assoc, append-nil,
  arith,
}
use bi_project.Smr.Ring.{QuiesItem, qsc_ring_len, max_qui_ring_len}
use bi_project.Smr.Ring.Fifo.{IsRing, contents, batch_items, enqueue_batch-append, range}
use bi_project.Smr.LocalCache.{
  local_cache_queue_sz, QscLocalCache, qsc_local_cache_init, qsc_local_cache_flush,
  qsc_local_cache_put,
}

pub record IsCache (lc : QscLocalCache) : Type 0 where
  pub ring : IsRing lc.ql
  pub room : lc.cnt < local_cache_queue_sz

-- The objects `i` to `i + n` of the cache, which have no time stamp yet.
abbrev pub held : (m sz : ℕ → ℕ) (i n : ℕ) → List (ℕ × ℕ)
held m sz i zero = []
held m sz i (suc n) = (m i, sz i) ∷ held m sz (i + 1) n

-- All objects handed to the cache and not yet taken from its ring, oldest first.
abbrev pub pending : QscLocalCache → List (ℕ × ℕ)
pending lc = map range (contents lc.ql) ++ held lc.m lc.sz 0 lc.cnt

map-append_range : (xs ys : List QuiesItem) → map range (xs ++ ys) ≡ map range xs ++ map range ys
map-append_range [] ys = refl
map-append_range (x ∷ xs) ys = ap (λ l. range x ∷ l) (map-append_range xs ys)

range-batch_items :
    (m sz tsc : ℕ → ℕ) (i n : ℕ) → map range (batch_items m sz tsc i n) ≡ held m sz i n
range-batch_items m sz tsc i zero = refl
range-batch_items m sz tsc i (suc n) =
    ap (λ l. (m i, sz i) ∷ l) (range-batch_items m sz tsc (i + 1) n)

held-update :
    (m sz : ℕ → ℕ) (i n c a b : ℕ)
    → c ≡ i + n
    → held (update m c a) (update sz c b) i (suc n) ≡ held m sz i n ++ ((a, b) ∷ [])
held-update m sz i zero c a b e = ground (arith, update_self m i a, update_self sz i b)
held-update m sz i (suc n) c a b e =
    ap₂ ◌∷◌
      (ap₂ (λ x y. (x, y)) (update_ne m c i a (omega arith)) (update_ne sz c i b (omega arith)))
      (held-update m sz (i + 1) n c a b (omega arith))

-- With room in the well formed ring for all of them, `qsc_local_cache_flush` moves all objects into
-- the ring in order, loses none, returns their number and leaves the cache empty.
pub flush-pending :
    (tsc : ℕ → ℕ) (lc : QscLocalCache)
    → IsRing lc.ql
    → qsc_ring_len lc.ql + lc.cnt < max_qui_ring_len
    → (lc' : QscLocalCache) × (qsc_local_cache_flush tsc lc ≡ some (lc.cnt, lc'))
      × IsCache lc'
      × (lc'.cnt ≡ 0)
      × (contents lc'.ql ≡ contents lc.ql ++ batch_items lc.m lc.sz tsc 0 lc.cnt)
      × (pending lc' ≡ pending lc)
unfolding qsc_local_cache_flush qsc_local_cache_init
flush-pending tsc lc v room =
    let (ql', done, v', its) = (enqueue_batch-append lc.ql lc.m lc.sz tsc lc.cnt v).0 room in
    (
      record lc { ql = ql'; cnt = 0 },
      rw done,
      record { ring = v'; room = omega arith },
      refl,
      its,
      append-nil (map range (contents ql'))
          ∙ ap (map range) its
          ∙ map-append_range (contents lc.ql) (batch_items lc.m lc.sz tsc 0 lc.cnt)
          ∙ ap (λ l. map range (contents lc.ql) ++ l) (range-batch_items lc.m lc.sz tsc 0 lc.cnt),
    )

-- On a well formed cache with room in its ring for a full cache, `qsc_local_cache_put` adds one
-- object behind the pending ones, loses none and keeps the cache below its size.
pub put-pending :
    (tsc : ℕ → ℕ) (lc : QscLocalCache) (buf s : ℕ)
    → IsCache lc
    → qsc_ring_len lc.ql + local_cache_queue_sz < max_qui_ring_len
    → (lc' : QscLocalCache) × (qsc_local_cache_put tsc lc buf s ≡ some lc')
      × IsCache lc'
      × (pending lc' ≡ pending lc ++ ((buf, s) ∷ []))
unfolding qsc_local_cache_put
put-pending tsc lc buf s v room =
    let lc1 : QscLocalCache = record lc {
      m = update lc.m lc.cnt buf;
      sz = update lc.sz lc.cnt s;
      cnt = lc.cnt + 1;
    } in
    let one : lc.cnt + 1 ≡ suc lc.cnt = omega arith in
    let added : pending lc1 ≡ pending lc ++ ((buf, s) ∷ []) =
      ap (λ k. map range (contents lc.ql) ++ held lc1.m lc1.sz 0 k) one
      ∙ ap (λ l. map range (contents lc.ql) ++ l)
          (held-update lc.m lc.sz 0 lc.cnt lc.cnt buf s (omega arith))
      ∙ sym
          (append_assoc (map range (contents lc.ql)) (held lc.m lc.sz 0 lc.cnt) ((buf, s) ∷ [])) in
    rw (lt→ltb lc.cnt local_cache_queue_sz v.room)
      (elim (Bool-cases (lc.cnt + 1 == local_cache_queue_sz)) [
        | inl full ↦
            let (lc', done, v', _, _, same) =
              flush-pending tsc lc1 v.ring (omega (arith, v.room)) in
            rw full (lc', rw done, v', same ∙ added)
        | inr more ↦ rw more (
          lc1,
          refl,
          record { ring = v.ring; room = omega (tests, v.room, ==→ne _ _ more) },
          added,
        )
      ])
