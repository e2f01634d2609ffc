-- ===== src/Smr/Tests.antt =====
-- The reclamation of libs/bi/bi_smr.c on concrete inputs.
use bi_project.Base.{
  ◌==◌, if◌then◌else◌, length, All, update, ℕ, ◌+◌, ◌≤◌, ◌<◌, ◌≡◌, refl, ◌⊎◌, ◌&&◌, none, some, [],
  ◌∷◌, ◌++◌, arith,
}
use bi_project.Smr.Ring.{
  QuiesItem, QscRing, max_qui_ring_len, qsc_ring_len, qsc_ring_peek, qsc_ring_dequeue,
  qsc_ring_enqueue_batch,
}
use bi_project.Smr.Ring.Fifo.{
  IsRing, contents, batch_items, front, rest, enqueue_batch-append, dequeue_refines,
}
use bi_project.Smr.LocalCache.{QscLocalCache, qsc_local_cache_put}
use bi_project.Smr.LocalCache.Batches.{IsCache, pending, put-pending}
use bi_project.Smr.Quiesce.{
  flush_grace_period, Parsec, ps_in_lib, Readers, core_loop, node_loop, bi_quiesce_smr,
  bi_quiesce_cache, bi_quiesce,
}
use bi_project.Smr.Quiesce.Bounds.{
  InLib, Entered, quiesce_smr_minimum, quiesce_cache_wraps, quiesce_grace,
}
use bi_project.Smr.Reclaim.{Reclaimed, bi_smr_reclaim, bi_wlog_reclaim}
use bi_project.Smr.Reclaim.Expired.{TakesExpired, Ordered, reclaim-expired, smr_reclaim_safe}
use bi_project.Smr.Flush.{bi_smr_flush}
use bi_project.Smr.Flush.Complete.{ranges_from, smr_flush-ranges}

-- Two nodes with two cores each; the first core of node 1 is inside the library since 30000000.
abbrev times : ℕ → ℕ → Parsec
times n c =
    if (n == 1) && (c == 0)
    then record { time_in = 30000000; time_out = 29999999 }
    else record { time_in = 0; time_out = 1 }

abbrev readers : Readers
readers = record { curr = 0; tot_cpu = 2; tot_core = 2; parsec_times = times }

abbrev slot : ℕ → QuiesItem
slot i =
    if i == 0
    then record { mh = 8192; sz = 64; tsc_free = 25000000 }
    else record { mh = 4096; sz = 64; tsc_free = 100 }

-- Two items, on both sides of the end of the array.
abbrev two_items : QscRing
two_items = record { head = 524287; tail = 1; ring = slot }

two_items-IsRing : IsRing two_items
two_items-IsRing = record { head_in = omega arith; tail_in = omega arith }

abbrev stamp : ℕ → ℕ
stamp i = 26000000 + i

quiesce_smr_example_value : bi_quiesce_smr readers 40000000 ≡ 30000000
unfolding ps_in_lib core_loop node_loop bi_quiesce_smr
quiesce_smr_example_value = refl

smr_reclaim_safe_example :
    (out : Reclaimed) × (bi_smr_reclaim readers 40000000 two_items ≡ some out)
    × All
        (λ a.
          (n c : ℕ)
          → n < 2
          → c < 2
          → InLib readers n c
          → a.tsc_free + flush_grace_period ≤ (times n c).time_in)
        out.taken
smr_reclaim_safe_example =
    smr_reclaim_safe readers 40000000 two_items two_items-IsRing (omega arith) (omega arith)
      (omega (arith, quiesce_smr_example_value))

reclaim-expired_example :
    TakesExpired
      (bi_quiesce readers 40000000)
      (contents two_items)
      (bi_smr_reclaim readers 40000000 two_items)
    × TakesExpired
        (bi_quiesce_cache 40000000)
        (contents two_items)
        (bi_wlog_reclaim 40000000 two_items)
reclaim-expired_example = reclaim-expired readers 40000000 two_items two_items-IsRing

two_items-Ordered : Ordered (contents two_items)
unfolding contents qsc_ring_len
two_items-Ordered = ((omega arith, tt), (tt, tt))

quiesce_smr_minimum_example :
    (bi_quiesce_smr readers 40000000 ≤ 40000000)
    × ((n c : ℕ)
        → n < 2
        → c < 2
        → InLib readers n c
        → bi_quiesce_smr readers 40000000 ≤ (times n c).time_in)
    × ((bi_quiesce_smr readers 40000000 ≡ 40000000)
        ⊎ Entered readers (bi_quiesce_smr readers 40000000))
quiesce_smr_minimum_example = quiesce_smr_minimum readers 40000000 (omega arith)

quiesce_cache_wraps_example : 123456789 ≤ bi_quiesce_cache 9999999
quiesce_cache_wraps_example = quiesce_cache_wraps 9999999 123456789 (omega arith) (omega arith)

quiesce_grace_example :
    (bi_quiesce readers 40000000 + flush_grace_period ≤ 40000000)
    × ((n c : ℕ)
        → n < 2
        → c < 2
        → InLib readers n c
        → bi_quiesce readers 40000000 + flush_grace_period ≤ (times n c).time_in)
quiesce_grace_example =
    quiesce_grace readers 40000000 (omega arith) (omega arith)
      (omega (arith, quiesce_smr_example_value))

enqueue_batch-append_example :
    (qsc_ring_len two_items + 3 < max_qui_ring_len
      → (ql' : QscRing) × (qsc_ring_enqueue_batch two_items stamp stamp stamp 3 ≡ some ql')
        × IsRing ql'
        × (contents ql' ≡ contents two_items ++ batch_items stamp stamp stamp 0 3))
    × (max_qui_ring_len ≤ qsc_ring_len two_items + 3
        → qsc_ring_enqueue_batch two_items stamp stamp stamp 3 ≡ none)
enqueue_batch-append_example = enqueue_batch-append two_items stamp stamp stamp 3 two_items-IsRing

dequeue_refines_example :
    (qsc_ring_peek two_items ≡ front (contents two_items))
    × ((qsc_ring_dequeue two_items).0 ≡ front (contents two_items))
    × (contents (qsc_ring_dequeue two_items).1 ≡ rest (contents two_items))
    × IsRing (qsc_ring_dequeue two_items).1
dequeue_refines_example = dequeue_refines two_items two_items-IsRing

two_items-len : qsc_ring_len two_items ≡ 2
unfolding qsc_ring_len
two_items-len = refl

-- A cache that the next object fills.
abbrev full_cache : QscLocalCache
full_cache = record { m = stamp; sz = λ i. 64; ql = two_items; cnt = 4095 }

full_cache-IsCache : IsCache full_cache
full_cache-IsCache = record { ring = two_items-IsRing; room = omega arith }

put-pending_example :
    (lc' : QscLocalCache) × (qsc_local_cache_put stamp full_cache 8192 64 ≡ some lc')
    × IsCache lc'
    × (pending lc' ≡ pending full_cache ++ ((8192, 64) ∷ []))
put-pending_example =
    put-pending stamp full_cache 8192 64 full_cache-IsCache (omega (arith, two_items-len))

abbrev rings : ℕ → QscRing
rings n = two_items

smr_flush-ranges_example :
    (lc : QscLocalCache) × (pending lc ≡ pending full_cache)
    × (lc.cnt ≡ 0)
    × (bi_smr_flush stamp rings 1 2 full_cache
        ≡ (let all = ranges_from (update rings 1 lc.ql) 1 2 2 0 in some (length all, all, lc)))
smr_flush-ranges_example =
    smr_flush-ranges stamp rings 1 2 full_cache (λ n. two_items-IsRing) two_items-IsRing
      (omega (arith, two_items-len))
