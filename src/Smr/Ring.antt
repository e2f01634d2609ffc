-- ===== src/Smr/Ring.antt =====
-- `struct bi_qsc_ring` with its operations (libs/bi/bi_smr.c, include/bi_smr.h). The pad bytes and
-- the cache-line write-backs have no part in the values and are left out.
pub mod Fifo
use bi_project.Base.{
  ltb, leb, ◌==◌, if◌then◌else◌, Bool-cases, ltb→lt, ltb→le, lt→ltb, le→ltb, leb→le, leb→lt, ==→eq,
  ==→ne, eq→==, ne→==, tests, length, length-append, All, All-append, All-mono, has, update,
  update_self, update_ne, ℕ, zero, suc, ◌+◌, ◌-◌, ◌*◌, ◌/◌, ◌%◌, ◌^◌, ◌≤◌, ◌<◌, ◌≡◌, refl, sym, ap,
  ap₂, ◌∙◌, ◌≢◌, ◌↔◌, ◌⊎◌, inl, inr, Bool, true, false, not, ◌&&◌, ◌||◌, Option, none, some, List,
  [], ◌∷◌, ◌++◌, map, append_assoc, append-nil, arith,
}
use bi_project.Base.Run.{◌>>=◌, ◌>>◌, check}

-- `struct quies_item`
pub record QuiesItem : Type 0 where
  pub mh : ℕ
  pub sz : ℕ
  pub tsc_free : ℕ

-- MAX_QUI_RING_LEN
abbrev pub max_qui_ring_len : ℕ
max_qui_ring_len = 128 * 4096

-- `struct bi_qsc_ring`. Each index that the code uses is below `max_qui_ring_len`.
pub record QscRing : Type 0 where
  pub head : ℕ
  pub tail : ℕ
  pub ring : ℕ → QuiesItem

-- qsc_ring_struct_init
pub qsc_ring_struct_init : QscRing → QscRing
qsc_ring_struct_init p = record p { head = 0; tail = 0 }

unfoldable pub qsc_ring_len : QscRing → ℕ
qsc_ring_len ql = (ql.tail + max_qui_ring_len - ql.head) % max_qui_ring_len

-- `none` is the null pointer.
pub qsc_ring_peek : QscRing → Option QuiesItem
qsc_ring_peek ql = if ql.head == ql.tail then none else some (ql.ring ql.head)

pub qsc_ring_dequeue : QscRing → Option QuiesItem × QscRing
qsc_ring_dequeue ql =
    if ql.head == ql.tail
    then (none, ql)
    else (some (ql.ring ql.head), record ql { head = (ql.head + 1) % max_qui_ring_len })

-- The loop of `qsc_ring_enqueue_batch`: `left` rounds stay, `i` are done and `j` is the next slot.
-- The reading of the clock in round `i` is `tsc i`. The test `assert(0)` in the full case stops.
pub enqueue_loop : (m sz tsc : ℕ → ℕ) (left i j : ℕ) → QscRing → Option QscRing
enqueue_loop m sz tsc zero i j ql = some (record ql { tail = j })
enqueue_loop m sz tsc (suc left) i j ql =
    let item : QuiesItem = record { mh = m i; sz = sz i; tsc_free = tsc i } in
    let rest =
      enqueue_loop m sz tsc left (i + 1) ((j + 1) % max_qui_ring_len)
        (record ql { ring = update ql.ring j item }) in
    if ql.head == (j + 1) % max_qui_ring_len then none else rest

pub qsc_ring_enqueue_batch : QscRing → (m sz tsc : ℕ → ℕ) → ℕ → Option QscRing
unfolding enqueue_loop
qsc_ring_enqueue_batch ql m sz tsc batch = enqueue_loop m sz tsc batch 0 ql.tail ql

-- The loop of `qsc_ring_flush` from slot `i`: the ranges that it flushes, in order. On fuel;
-- `none` means that the fuel ran out. (The prefetch is a hint to the processor.)
pub flush_loop : ℕ → ℕ → QscRing → Option (List (ℕ × ℕ))
flush_loop zero i ql = none
flush_loop (suc fuel) i ql =
    let rest = flush_loop fuel ((i + 1) % max_qui_ring_len) ql in
    if i == ql.tail
    then some []
    else (do flushed ← rest; some (((ql.ring i).mh, (ql.ring i).sz) ∷ flushed))

pub qsc_ring_flush : QscRing → Option (List (ℕ × ℕ))
unfolding flush_loop
qsc_ring_flush ql = flush_loop max_qui_ring_len ql.head ql
