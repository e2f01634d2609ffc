-- ===== src/Smr/Reclaim.antt =====
-- `bi_smr_free`, `bi_smr_reclaim`, `bi_wlog_free` and `bi_wlog_reclaim` (libs/bi/bi_smr.c).
pub mod Expired
use bi_project.Base.{
  ltb, leb, ◌==◌, if◌then◌else◌, Bool-cases, ltb→lt, ltb→le, lt→ltb, le→ltb, leb→le, leb→lt, ==→eq,
  ==→ne, eq→==, ne→==, tests, length, length-append, All, All-append, All-mono, has, update,
  update_self, update_ne, ℕ, zero, suc, ◌+◌, ◌-◌, ◌*◌, ◌/◌, ◌%◌, ◌^◌, ◌≤◌, ◌<◌, ◌≡◌, refl, sym, ap,
  ap₂, ◌∙◌, ◌≢◌, ◌↔◌, ◌⊎◌, inl, inr, Bool, true, false, not, ◌&&◌, ◌||◌, Option, none, some, List,
  [], ◌∷◌, ◌++◌, map, append_assoc, append-nil, arith,
}
use bi_project.Base.Run.{◌>>=◌, ◌>>◌, check}
use bi_project.Smr.Ring.{QuiesItem, QscRing, max_qui_ring_len, qsc_ring_peek, qsc_ring_dequeue}
use bi_project.Smr.LocalCache.{QscLocalCache, qsc_local_cache_put}
use bi_project.Smr.Quiesce.{Readers, bi_quiesce, bi_quiesce_cache}

-- sizeof(struct ps_mheader), which is packed
abbrev pub sizeof_mheader : ℕ
sizeof_mheader = 24

-- `__ps_mhead_get` and `__ps_mhead_mem` of include/bi_slab.h
unfoldable pub mhead_get : ℕ → ℕ
mhead_get mem = mem - sizeof_mheader

unfoldable pub mhead_mem : ℕ → ℕ
mhead_mem h = h + sizeof_mheader

-- SLAB_FREE
abbrev pub slab_free : ℕ
slab_free = 1

-- The headers that `bi_smr_free` reads and writes: the `type` field of the header at an address and
-- `bi_slab_objmem` of the slab to which it belongs.
pub record Headers : Type 0 where
  pub type : ℕ → ℕ
  pub objmem : ℕ → ℕ

-- `__ps_mhead_setfree`
pub mhead_setfree : Headers → ℕ → Headers
mhead_setfree hs h = record hs { type = update hs.type h slab_free }

-- `smr_cache` is the local cache. The assertion refuses the null pointer.
pub bi_smr_free :
    (tsc : ℕ → ℕ) → Headers → QscLocalCache → (buf : ℕ) → Option (Headers × QscLocalCache)
unfolding mhead_get mhead_setfree
bi_smr_free tsc hs smr_cache buf =
    let m = mhead_get buf in
    check (not (buf == 0))
    >> (qsc_local_cache_put tsc smr_cache m (hs.objmem m) >>= (λ lc. some (mhead_setfree hs m, lc)))

-- `wlog_cache[cid]`
pub bi_wlog_free :
    (tsc : ℕ → ℕ) → (wlog_cache : ℕ → QscLocalCache) → (buf sz cid : ℕ) → Option (ℕ → QscLocalCache)
bi_wlog_free tsc wlog_cache buf sz cid =
    check (not (buf == 0))
    >> (qsc_local_cache_put tsc (wlog_cache cid) buf sz >>= (λ lc. some (update wlog_cache cid lc)))

-- What a reclamation leaves: the number of items taken, the items, in order, and the ring.
pub record Reclaimed : Type 0 where
  pub count : ℕ
  pub taken : List QuiesItem
  pub ring : QscRing

-- The loop of both reclamations, with `i` items taken before: it ends at an empty ring or at an item
-- that was freed after `qsc`. On fuel; `none` means that the fuel ran out.
pub reclaim_loop : ℕ → (qsc i : ℕ) → QscRing → Option Reclaimed
reclaim_loop zero qsc i ql = none
reclaim_loop (suc fuel) qsc i ql =
    let rest = reclaim_loop fuel qsc (i + 1) (qsc_ring_dequeue ql).1 in
    elim (qsc_ring_peek ql) [
      | none ↦ some (record { count = i; taken = []; ring = ql })
      | some a ↦
          if ltb qsc a.tsc_free
          then some (record { count = i; taken = []; ring = ql })
          else (rest >>= (λ r. some (record r { taken = a ∷ r.taken })))
    ]

-- What both reclamations do with the ring once the quiescent time is known: the early return at an
-- empty ring, and the loop.
pub reclaim_until : (qsc : ℕ) → QscRing → Option Reclaimed
unfolding reclaim_loop
reclaim_until qsc ql = elim (qsc_ring_peek ql) [
  | none ↦ some (record { count = 0; taken = []; ring = ql })
  | some a ↦ reclaim_loop max_qui_ring_len qsc 0 ql
]

-- `bi_smr_reclaim` at the reading `now` of the clock. Each item taken goes to
-- `bi_slab_free (mhead_mem a.mh)`, in this order (`slab_frees`).
pub bi_smr_reclaim : Readers → (now : ℕ) → QscRing → Option Reclaimed
unfolding reclaim_until
bi_smr_reclaim rs now ql = reclaim_until (bi_quiesce rs now) ql

-- The arguments of `bi_slab_free`.
pub slab_frees : List QuiesItem → List ℕ
unfolding mhead_mem
slab_frees [] = []
slab_frees (a ∷ as') = mhead_mem a.mh ∷ slab_frees as'

pub bi_wlog_reclaim : (now : ℕ) → QscRing → Option Reclaimed
unfolding reclaim_until
bi_wlog_reclaim now ql = reclaim_until (bi_quiesce_cache now) ql
