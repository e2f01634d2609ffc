-- ===== src/Smr/Flush/Complete.antt =====
-- A flush misses no object of the rings that it goes over (libs/bi/bi_smr.c).
use bi_project.Base.{
  ◌==◌, Bool-cases, length, length-append, update, ℕ, zero, suc, ◌+◌, ◌-◌, ◌%◌, ◌<◌, ◌≡◌, refl, sym,
  ap, ◌∙◌, inl, inr, some, List, [], ◌∷◌, ◌++◌, map, append_assoc, arith,
}
use bi_project.Smr.Rounds.{round_of}
use bi_project.Smr.Ring.{QscRing, max_qui_ring_len, qsc_ring_len}
use bi_project.Smr.Ring.Fifo.{IsRing, contents, range, ring_flush-contents, count-ring_len}
use bi_project.Smr.LocalCache.{QscLocalCache}
use bi_project.Smr.LocalCache.Batches.{pending, flush-pending}
use bi_project.Smr.Flush.{rings_loop, bi_smr_flush}

-- The ranges in the rings of the nodes that rounds `i` to `i + left` look at, in that order.
abbrev pub ranges_from : (ℕ → QscRing) → (curr tot_cpu left i : ℕ) → List (ℕ × ℕ)
ranges_from rings curr tot_cpu zero i = []
ranges_from rings curr tot_cpu (suc left) i =
    map range (contents (rings ((curr + i) % tot_cpu)))
    ++ ranges_from rings curr tot_cpu left (i + 1)

length-map {ℓ κ} :
    {A : Type ℓ} {B : Type κ} (f : A → B) (xs : List A) → length (map f xs) ≡ length xs
length-map f [] = refl
length-map f (x ∷ xs) = ap suc (length-map f xs)

count_sum :
    (ql : QscRing) (r : ℕ) (more : List (ℕ × ℕ))
    → r + (max_qui_ring_len + ql.tail - ql.head) % max_qui_ring_len + length more
      ≡ r + length (map range (contents ql) ++ more)
count_sum ql r more = omega (
  arith,
  count-ring_len ql,
  length-map range (contents ql),
  length-append (map range (contents ql)) more,
)

rings_loop-ranges :
    (rings : ℕ → QscRing) (curr tot_cpu left i r : ℕ)
    → ((n : ℕ) → IsRing (rings n))
    → rings_loop rings curr tot_cpu left i r
      ≡ some (
        r + length (ranges_from rings curr tot_cpu left i),
        ranges_from rings curr tot_cpu left i,
      )
unfolding rings_loop
rings_loop-ranges rings curr tot_cpu zero i r v = ap (λ k. some (k, [])) (omega arith)
rings_loop-ranges rings curr tot_cpu (suc left) i r v =
    let ql = rings ((curr + i) % tot_cpu) in
    rw (ring_flush-contents ql (v _), rings_loop-ranges rings curr tot_cpu left (i + 1) _ v)
      (ap (λ k. some (k, ranges_from rings curr tot_cpu (suc left) i))
        (count_sum ql r (ranges_from rings curr tot_cpu left (i + 1))))

update-IsRing :
    (rings : ℕ → QscRing) (i : ℕ) (ql : QscRing)
    → ((n : ℕ) → IsRing (rings n))
    → IsRing ql
    → (n : ℕ) → IsRing (update rings i ql n)
update-IsRing rings i ql vs v n = elim (Bool-cases (i == n)) [
  | inl e ↦ rw e v
  | inr ne ↦ rw ne (vs n)
]

-- `smr_flush-ranges` below, with the ring that is left.
pub smr_flush-all :
    (tsc : ℕ → ℕ) (rings : ℕ → QscRing) (curr tot_cpu : ℕ) (smr_cache : QscLocalCache)
    → ((n : ℕ) → IsRing (rings n))
    → IsRing smr_cache.ql
    → qsc_ring_len smr_cache.ql + smr_cache.cnt < max_qui_ring_len
    → (lc : QscLocalCache) × IsRing lc.ql
      × (pending lc ≡ pending smr_cache)
      × (lc.cnt ≡ 0)
      × (bi_smr_flush tsc rings curr tot_cpu smr_cache ≡ (
          let all = ranges_from (update rings curr lc.ql) curr tot_cpu tot_cpu 0 in
          some (length all, all, lc)))
unfolding bi_smr_flush
smr_flush-all tsc rings curr tot_cpu smr_cache vs v room =
    let (lc, done, v', none_left, _, same) = flush-pending tsc smr_cache v room in
    (
      lc,
      v'.ring,
      same,
      none_left,
      rw
          (
            done,
            rings_loop-ranges (update rings curr lc.ql) curr tot_cpu tot_cpu 0 0
                (update-IsRing rings curr lc.ql vs v'.ring),
          )
          (ap (λ k. some (k, ranges_from (update rings curr lc.ql) curr tot_cpu tot_cpu 0, lc))
            zero_sum),
    )
  where
    zero_sum : {n : ℕ} → 0 + n ≡ n
    zero_sum = omega arith

-- With well formed rings and room in the local ring, `bi_smr_flush` empties the local cache into
-- its ring, then flushes the range of each item of each ring and returns their number.
pub smr_flush-ranges :
    (tsc : ℕ → ℕ) (rings : ℕ → QscRing) (curr tot_cpu : ℕ) (smr_cache : QscLocalCache)
    → ((n : ℕ) → IsRing (rings n))
    → IsRing smr_cache.ql
    → qsc_ring_len smr_cache.ql + smr_cache.cnt < max_qui_ring_len
    → (lc : QscLocalCache) × (pending lc ≡ pending smr_cache)
      × (lc.cnt ≡ 0)
      × (bi_smr_flush tsc rings curr tot_cpu smr_cache ≡ (
          let all = ranges_from (update rings curr lc.ql) curr tot_cpu tot_cpu 0 in
          some (length all, all, lc)))
smr_flush-ranges tsc rings curr tot_cpu smr_cache vs v room =
    let (lc, _, same, none_left, done) = smr_flush-all tsc rings curr tot_cpu smr_cache vs v room in
    (lc, same, none_left, done)

ranges_from-split :
    (rings : ℕ → QscRing) (curr tot_cpu left i k : ℕ)
    → k < left
    → (before : List (ℕ × ℕ)) × (after : List (ℕ × ℕ)) × (ranges_from rings curr tot_cpu left i
        ≡ before ++ (map range (contents (rings ((curr + (i + k)) % tot_cpu))) ++ after))
ranges_from-split rings curr tot_cpu zero i k lt = elim lt [ ]
ranges_from-split rings curr tot_cpu (suc left) i zero lt =
    let e : i + 0 ≡ i = omega arith in ([], ranges_from rings curr tot_cpu left (i + 1), rw e refl)
ranges_from-split rings curr tot_cpu (suc left) i (suc k) lt =
    let (before, after, e) = ranges_from-split rings curr tot_cpu left (i + 1) k (omega arith) in
    let here = map range (contents (rings ((curr + i) % tot_cpu))) in
    let next : i + suc k ≡ i + 1 + k = omega arith in
    (
      here ++ before,
      after,
      rw next (
          ap (λ l. here ++ l) e
          ∙ sym (
              append_assoc here before
                (map range (contents (rings ((curr + (i + 1 + k)) % tot_cpu))) ++ after))),
    )

-- The rounds that `bi_smr_flush` makes over the nodes, from a node in use, leave out none: the
-- ranges of each node in use stand among those flushed.
pub smr_flush_covers :
    (rings : ℕ → QscRing) (curr tot_cpu n : ℕ)
    → curr < tot_cpu
    → n < tot_cpu
    → (before : List (ℕ × ℕ)) × (after : List (ℕ × ℕ)) × (ranges_from rings curr tot_cpu tot_cpu 0
        ≡ before ++ (map range (contents (rings n)) ++ after))
smr_flush_covers rings curr tot_cpu n cur lt =
    let (k, hk, e) = round_of curr tot_cpu n cur lt in
    let (before, after, split) = ranges_from-split rings curr tot_cpu tot_cpu 0 k hk in
    let zero_sum : 0 + k ≡ k = omega arith in (before, after, rw (zero_sum, e) at split)
