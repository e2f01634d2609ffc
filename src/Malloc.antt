-- ===== src/Malloc.antt =====
-- The allocator of libs/mem/bi_malloc.c. A free list is the list of its blocks, in the order in which
-- the `next` fields link them. The lock of a list is held over each call, so that a
-- compare-and-swap on a list cannot fail; the one on `bump_addr` repeats until it succeeds.
pub mod Classes
pub mod Reuse
mod Tests
use bi_project.Base.{
  ltb, leb, ◌==◌, if◌then◌else◌, Bool-cases, ltb→lt, ltb→le, lt→ltb, le→ltb, leb→le, leb→lt, le→leb,
  ==→eq, ==→ne, eq→==, ne→==, tests, length, length-append, All, All-append, All-mono, has, update,
  update_self, update_ne, ℕ, zero, suc, ◌+◌, ◌-◌, ◌*◌, ◌/◌, ◌%◌, ◌^◌, ◌≤◌, ◌<◌, ◌≡◌, refl, sym, ap,
  ap₂, ◌∙◌, ◌≢◌, ◌↔◌, ◌⊎◌, inl, inr, Bool, true, false, not, ◌&&◌, ◌||◌, Option, none, some, List,
  [], ◌∷◌, ◌++◌, map, append_assoc, append-nil, arith,
}
use bi_project.Base.Run.{◌>>=◌, ◌>>◌, check}

-- MEM_BLOCK_SIZE, __MIN_SMALL_SIZE, __MAX_SMALL_SIZE, NUM_FREE_LIST and sizeof(__alloc_t)
abbrev pub mem_block_size : ℕ
mem_block_size = 16 * 4096

-- `__SMALL_NR`
abbrev pub small_nr : ℕ → ℕ
small_nr i = mem_block_size / i

abbrev pub min_small_size : ℕ
min_small_size = small_nr 1024

abbrev pub max_small_size : ℕ
max_small_size = small_nr 2

abbrev pub num_free_list : ℕ
num_free_list = 32

abbrev pub sizeof_alloc : ℕ
sizeof_alloc = 24

abbrev pub word : ℕ
word = 2 ^ 64

-- The loop of `get_index`. On fuel: a word is 0 after 64 shifts.
pub index_loop : (fuel size idx : ℕ) → ℕ
index_loop zero size idx = idx
index_loop (suc fuel) size idx =
    let more = index_loop fuel (size / 2) (idx + 1) in if size == 0 then idx else more

-- The mask is MEM_BLOCK_SIZE - 1, all ones.
pub get_index : ℕ → ℕ
get_index size = index_loop 64 ((size + word - 1) % word % mem_block_size / 2 ^ 6) 0

-- GET_SIZE
pub get_size : ℕ → ℕ
get_size s = min_small_size * 2 ^ get_index s

-- What the allocator keeps: `bump_addr`, `end_addr`, the free lists by lock and class, and the `size`
-- and `lid` fields of the headers.
pub record Arena : Type 0 where
  pub bump_addr : ℕ
  pub end_addr : ℕ
  pub small_mem : ℕ → ℕ → List ℕ
  pub size : ℕ → ℕ
  pub lid : ℕ → ℕ

abbrev pub set_list : Arena → (lid idx : ℕ) → List ℕ → Arena
set_list a lid idx l = record a {
  small_mem = update a.small_mem lid (update (a.small_mem lid) idx l);
}

-- `do_mmap`, with its assertion
pub do_mmap : Arena → (size : ℕ) → Option (ℕ × Arena)
do_mmap a size =
    check (ltb (a.bump_addr + size) a.end_addr)
    >> some (a.bump_addr, record a { bump_addr = a.bump_addr + size })

pub small_free : Arena → (block size lid : ℕ) → Option Arena
small_free a block size lid =
    check (ltb lid num_free_list)
    >> some (set_list a lid (get_index size) (block ∷ a.small_mem lid (get_index size)))

-- The blocks that a new chunk is cut into, from the address `p` on.
pub cut : (p size n : ℕ) → List ℕ
cut p size zero = []
cut p size (suc n) = p ∷ cut (p + size) size n

pub small_malloc : Arena → (size lid : ℕ) → Option (ℕ × Arena)
small_malloc a size lid =
    let idx = get_index size in
    check (ltb lid num_free_list) >> elim (a.small_mem lid idx) [
      | [] ↦
          (do_mmap a mem_block_size >>= (λ r. some (
            r.0,
            set_list r.1 lid idx
                (cut (r.0 + size) size (small_nr size - 1) ++ r.1.small_mem lid idx),
          )))
      | p ∷ rest ↦ some (p, set_list a lid idx rest)
    ]

-- `BLOCK_START` and `BLOCK_RET`
abbrev pub block_start : ℕ → ℕ
block_start b = b - sizeof_alloc

abbrev pub block_ret : ℕ → ℕ
block_ret b = b + sizeof_alloc

-- A block above the small sizes is never reused.
pub bi_free : Arena → (ptr : ℕ) → Option Arena
bi_free a ptr =
    let block = block_start ptr in
    let size = a.size block in
    if ptr == 0
    then some a
    else (check (not (size == 0))
        >> (if leb size max_small_size then small_free a block size (a.lid block) else some a))

-- The block and its size, before the header is written
pub take_block : Arena → (lid size : ℕ) → Option (ℕ × ℕ × Arena)
take_block a lid size =
    if leb size max_small_size
    then (small_malloc a (get_size size) lid >>= (λ r. some (get_size size, r.0, r.1)))
    else (do_mmap a size >>= (λ r. some (size, r.0, r.1)))

-- `bi_malloc` on core `core`
pub bi_malloc : Arena → (core size : ℕ) → Option (ℕ × Arena)
bi_malloc a core size = do
  let total = (size + sizeof_alloc) % word
  let lid = core % num_free_list
  got ← take_block a lid total
  check (leb total got.0)
  check (not (got.1 == 0))
  some (
    block_ret got.1,
    record (got.2) { size = update got.2.size got.1 got.0; lid = update got.2.lid got.1 lid },
  )

-- `bi_malloc_init`, where `start` is `get_malloc_start_addr` and `len` is the area's size
pub bi_malloc_init : (start : ℕ) → Arena → Arena
bi_malloc_init start a = record a {
  bump_addr = start;
  end_addr = start + 1024 * 1024 * (80 * 1024);
  small_mem = λ lid idx. [];
}
