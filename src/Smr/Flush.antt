-- ===== src/Smr/Flush.antt =====
-- The flushes of libs/bi/bi_smr.c: of the local caches into the rings, and of the objects in the
-- rings of all nodes out of a reader's cache.
pub mod Complete
use bi_project.Base.{
  ltb, leb, ◌==◌, if◌then◌else◌, Bool-cases, ltb→lt, ltb→le, lt→ltb, le→ltb, leb→le, leb→lt, ==→eq,
  ==→ne, eq→==, ne→==, tests, length, length-append, All, All-append, All-mono, has, update,
  update_self, update_ne, ℕ, zero, suc, ◌+◌, ◌-◌, ◌*◌, ◌/◌, ◌%◌, ◌^◌, ◌≤◌, ◌<◌, ◌≡◌, refl, sym, ap,
  ap₂, ◌∙◌, ◌≢◌, ◌↔◌, ◌⊎◌, inl, inr, Bool, true, false, not, ◌&&◌, ◌||◌, Option, none, some, List,
  [], ◌∷◌, ◌++◌, map, append_assoc, append-nil, arith,
}
use bi_project.Base.Run.{◌>>=◌, ◌>>◌}
use bi_project.Smr.Ring.{QscRing, max_qui_ring_len, qsc_ring_flush}
use bi_project.Smr.LocalCache.{
  QscLocalCache, qsc_local_cache_init, qsc_local_cache_alloc, qsc_local_cache_flush,
}

-- NUM_CORE_PER_NODE
abbrev pub num_core_per_node : ℕ
num_core_per_node = 18

-- `smr_cache` and `wlog_cache[]`
pub record QscCaches : Type 0 where
  pub smr : QscLocalCache
  pub wlog : ℕ → QscLocalCache

-- A loop over the caches `i` to `i + left` that does the same to each.
pub each_wlog :
    (QscLocalCache → QscLocalCache) → (left i : ℕ) → (ℕ → QscLocalCache) → ℕ → QscLocalCache
each_wlog f zero i caches = caches
each_wlog f (suc left) i caches = each_wlog f left (i + 1) (update caches i (f (caches i)))

pub bi_wlog_cache_init : (ℕ → QscLocalCache) → ℕ → QscLocalCache
unfolding each_wlog
bi_wlog_cache_init caches = each_wlog qsc_local_cache_init num_core_per_node 0 caches

-- `bi_smr_cache_init` and `bi_wlog_cache_init`
pub bi_qsc_cache_init : QscCaches → QscCaches
unfolding bi_wlog_cache_init
bi_qsc_cache_init cs = record {
  smr = qsc_local_cache_init cs.smr;
  wlog = bi_wlog_cache_init cs.wlog;
}

-- The arrays come from `malloc`; `quies` is the node's ring and `wlog_rings` has one for each core.
alloc_loop :
    (m sz : ℕ → ℕ → ℕ)
    → (wlog_rings : ℕ → QscRing) → (left i : ℕ) → (ℕ → QscLocalCache)
    → ℕ
    → QscLocalCache
alloc_loop m sz wlog_rings zero i caches = caches
alloc_loop m sz wlog_rings (suc left) i caches =
    alloc_loop m sz wlog_rings left (i + 1)
      (update caches i (qsc_local_cache_alloc (m i) (sz i) (wlog_rings i)))

pub bi_qsc_cache_alloc :
    (m0 sz0 : ℕ → ℕ) (m sz : ℕ → ℕ → ℕ) → QscRing → (ℕ → QscRing) → QscCaches → QscCaches
unfolding alloc_loop
bi_qsc_cache_alloc m0 sz0 m sz quies wlog_rings cs = record {
  smr = qsc_local_cache_alloc m0 sz0 quies;
  wlog = alloc_loop m sz wlog_rings num_core_per_node 0 cs.wlog;
}

-- `bi_wlog_cache_flush`
pub bi_wlog_cache_flush :
    (ℕ → ℕ) → (cid : ℕ) → (ℕ → QscLocalCache) → Option (ℕ × (ℕ → QscLocalCache))
bi_wlog_cache_flush tsc cid caches =
    qsc_local_cache_flush tsc (caches cid) >>= (λ r. some (r.0, update caches cid r.1))

-- The loop of `bi_qsc_cache_flush` over the cores `i` to `i + left`. The clock that core `i` reads is
-- `tsc i`.
pub cache_flush_loop :
    (ℕ → ℕ → ℕ) → (left i r : ℕ) → (ℕ → QscLocalCache) → Option (ℕ × (ℕ → QscLocalCache))
unfolding bi_wlog_cache_flush
cache_flush_loop tsc zero i r caches = some (r, caches)
cache_flush_loop tsc (suc left) i r caches =
    bi_wlog_cache_flush (tsc i) i caches
    >>= (λ out. cache_flush_loop tsc left (i + 1) (r + out.0) out.1)

pub bi_qsc_cache_flush : (ℕ → ℕ) → (ℕ → ℕ → ℕ) → (tot_core : ℕ) → QscCaches → Option (ℕ × QscCaches)
unfolding cache_flush_loop
bi_qsc_cache_flush tsc0 tsc tot_core cs = do
  out ← qsc_local_cache_flush tsc0 cs.smr
  all ← cache_flush_loop tsc tot_core 0 out.0 cs.wlog
  some (all.0, record { smr = out.1; wlog = all.1 })

-- The last loop of `bi_smr_flush` and `bi_wlog_flush`: the rings of the nodes `(curr + i) % tot_cpu`
-- to `(curr + i + left) % tot_cpu`. Returns `r` and the flushed ranges, in order. The rings are those
-- that the memory holds: the loop before it invalidates this node's copies.
pub rings_loop : (ℕ → QscRing) → (curr tot_cpu left i r : ℕ) → Option (ℕ × List (ℕ × ℕ))
rings_loop rings curr tot_cpu zero i r = some (r, [])
rings_loop rings curr tot_cpu (suc left) i r =
    let ql = rings ((curr + i) % tot_cpu) in
    let more =
      rings_loop rings curr tot_cpu left (i + 1)
        (r + (max_qui_ring_len + ql.tail - ql.head) % max_qui_ring_len) in
    qsc_ring_flush ql >>= (λ flushed. more >>= (λ out. some (out.0, flushed ++ out.1)))

-- `bi_smr_flush` on node `curr`: the local cache goes to the node's own ring, `rings curr`, first.
pub bi_smr_flush :
    (ℕ → ℕ)
    → (ℕ → QscRing)
    → (curr tot_cpu : ℕ) → QscLocalCache
    → Option (ℕ × List (ℕ × ℕ) × QscLocalCache)
unfolding rings_loop
bi_smr_flush tsc rings curr tot_cpu smr_cache = do
  cached ← qsc_local_cache_flush tsc smr_cache
  out ← rings_loop (update rings curr cached.1.ql) curr tot_cpu tot_cpu 0 0
  some (out.0, out.1, cached.1)

-- `bi_wlog_flush` on core `cid`: the rings of that core on all nodes but this one.
pub bi_wlog_flush :
    (ℕ → ℕ)
    → (ℕ → QscRing)
    → (curr tot_cpu cid : ℕ) → (ℕ → QscLocalCache)
    → Option (ℕ × List (ℕ × ℕ) × (ℕ → QscLocalCache))
unfolding rings_loop bi_wlog_cache_flush
bi_wlog_flush tsc rings curr tot_cpu cid wlog_cache = do
  cached ← bi_wlog_cache_flush tsc cid wlog_cache
  out ← rings_loop (update rings curr (cached.1 cid).ql) curr tot_cpu (tot_cpu - 1) 1 0
  some (out.0, out.1, cached.1)
