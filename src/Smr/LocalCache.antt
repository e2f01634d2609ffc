-- ===== src/Smr/LocalCache.antt =====
-- `struct qsc_local_cache` (libs/bi/bi_smr.c): the objects that a writer has freed, or the ranges
-- that it has written, and that are not yet in its ring.
pub mod Batches
use bi_project.Base.{
  ltb, leb, ◌==◌, if◌then◌else◌, Bool-cases, ltb→lt, ltb→le, lt→ltb, le→ltb, leb→le, leb→lt, ==→eq,
  ==→ne, eq→==, ne→==, tests, length, length-append, All, All-append, All-mono, has, update,
  update_self, update_ne, ℕ, zero, suc, ◌+◌, ◌-◌, ◌*◌, ◌/◌, ◌%◌, ◌^◌, ◌≤◌, ◌<◌, ◌≡◌, refl, sym, ap,
  ap₂, ◌∙◌, ◌≢◌, ◌↔◌, ◌⊎◌, inl, inr, Bool, true, false, not, ◌&&◌, ◌||◌, Option, none, some, List,
  [], ◌∷◌, ◌++◌, map, append_assoc, append-nil, arith,
}
use bi_project.Base.Run.{◌>>=◌, ◌>>◌, check}
use bi_project.Smr.Ring.{QscRing, qsc_ring_enqueue_batch}

-- LOCAL_CACHE_QUEUE_SZ
abbrev pub local_cache_queue_sz : ℕ
local_cache_queue_sz = 4096

-- `struct qsc_local_cache`, with the ring that `ql` points to. A ring is the target of one cache
-- only: `bi_qsc_cache_alloc` gives each cache a ring of its own.
pub record QscLocalCache : Type 0 where
  pub m : ℕ → ℕ
  pub sz : ℕ → ℕ
  pub ql : QscRing
  pub cnt : ℕ

pub qsc_local_cache_init : QscLocalCache → QscLocalCache
qsc_local_cache_init lc = record lc { cnt = 0 }

-- The arrays that `malloc` returns are `m` and `sz`.
pub qsc_local_cache_alloc : (m sz : ℕ → ℕ) → QscRing → QscLocalCache
unfolding qsc_local_cache_init
qsc_local_cache_alloc m sz ql = qsc_local_cache_init (record { m = m; sz = sz; ql = ql; cnt = 0 })

-- Returns the number of objects moved. The clock reads `tsc i` for the `i`-th of them.
pub qsc_local_cache_flush : (ℕ → ℕ) → QscLocalCache → Option (ℕ × QscLocalCache)
unfolding qsc_local_cache_init
qsc_local_cache_flush tsc lc = do
  ql ← qsc_ring_enqueue_batch lc.ql lc.m lc.sz tsc lc.cnt
  some (lc.cnt, qsc_local_cache_init (record lc { ql = ql }))

pub qsc_local_cache_put : (ℕ → ℕ) → QscLocalCache → (buf s : ℕ) → Option QscLocalCache
qsc_local_cache_put tsc lc buf s =
    let lc1 : QscLocalCache = record lc {
      m = update lc.m lc.cnt buf;
      sz = update lc.sz lc.cnt s;
      cnt = lc.cnt + 1;
    } in
    let flushed : Option QscLocalCache = qsc_local_cache_flush tsc lc1 >>= (λ r. some r.1) in
    check (ltb lc.cnt local_cache_queue_sz)
    >> (if lc.cnt + 1 == local_cache_queue_sz then flushed else some lc1)
