-- ===== src/BiMc.antt =====
-- memcached on the library, mc_code/bi_mc: the memory of a server and its quiescence ring
-- (memcache.c). What other projects' code gives is an argument, `Env`: the parsec slab allocator,
-- the bitmap of pages and the clock. An object is named by the address of its item, its header
-- (`struct ps_mheader`) included; 0 is the null pointer. A server is one of two nodes.
pub mod Laws
pub mod Ring
pub mod Table
pub mod Items
pub mod Memory
pub mod Keys
pub mod Evict
pub mod Server
pub mod Client
pub mod Start
mod Tests
use bi_project.Base.{
  ltb, leb, ◌==◌, if◌then◌else◌, Bool-cases, ltb→lt, ltb→le, lt→ltb, le→ltb, leb→le, leb→lt, le→leb,
  ==→eq, ==→ne, eq→==, ne→==, tests, length, length-append, All, All-append, All-mono, has, update,
  update_self, update_ne, ℕ, zero, suc, ◌+◌, ◌-◌, ◌*◌, ◌/◌, ◌%◌, ◌^◌, ◌≤◌, ◌<◌, ◌≡◌, refl, sym, ap,
  ap₂, ◌∙◌, ◌≢◌, ◌↔◌, ◌⊎◌, inl, inr, Bool, true, false, not, ◌&&◌, ◌||◌, Option, none, some, List,
  [], ◌∷◌, ◌++◌, map, append_assoc, append-nil, arith,
}
use bi_project.Base.Run.{◌>>=◌, ◌>>◌, check}

-- QUIS_NUM, PAGE_SIZE, MC_SLAB_AOC_SZ, NUM_NODE/2
abbrev pub quis_num : ℕ
quis_num = 11264

abbrev pub page_size : ℕ
page_size = 4096

abbrev pub mc_slab_aoc_sz : ℕ
mc_slab_aoc_sz = 4 * page_size

abbrev pub num_server : ℕ
num_server = 2

-- MAP_MAX: the words of a bitmap of 580 MB of pages
abbrev pub map_max : ℕ
map_max = ((1024 * 1024 * 580) / (page_size / 4 * 32 * page_size) + 1) * page_size / 4

-- MC_HASH_FLUSH_PEROID + MAX_MC_HASH_TIME
abbrev pub grace : ℕ
grace = 90000000 + 1054438 * 2

-- A buffer of bytes, and `memcpy`
abbrev pub Bytes : Type 0
Bytes = ℕ → ℕ

abbrev pub memcpy : (dst src : Bytes) → ℕ → Bytes
memcpy dst src n i = if ltb i n then src i else dst i

-- 64-bit addition and subtraction
abbrev pub add64 : ℕ → ℕ → ℕ
add64 a b = (a + b) % 2 ^ 64

abbrev pub sub64 : ℕ → ℕ → ℕ
sub64 a b = (a + (2 ^ 64 - b)) % 2 ^ 64

-- `tsc_free` of the header and the item behind it. The two flags are bits of `it_flags`.
pub record Object : Type 0 where
  pub tsc_free : ℕ
  pub hv : ℕ
  pub nkey : ℕ
  pub nbytes : ℕ
  pub key : Bytes
  pub contents : Bytes
  pub linked : Bool
  pub slabbed : Bool

-- `struct mc_status`; `base` is that of `trac`.
pub record McStatus : Type 0 where
  pub target : ℕ
  pub used : ℕ
  pub quiesce : ℕ
  pub gets : ℕ
  pub sets : ℕ
  pub alloc : ℕ
  pub free : ℕ
  pub confict : ℕ
  pub evict : ℕ
  pub base : ℕ

-- `struct ps_qsc_ring`
pub record QscRing : Type 0 where
  pub head : ℕ
  pub tail : ℕ
  pub ring : ℕ → ℕ

-- `struct ps_slab`, as far as the eviction reads it: `first` is the first object behind it.
pub record Slab : Type 0 where
  pub coreid : ℕ
  pub nfree : ℕ
  pub memsz : ℕ
  pub first : ℕ

-- What the code calls of the slab library, with its state `L`, of the bitmap, and the clock.
-- `objmem` and `nobjs` are `ps_slab_objmem_item()` and `ps_slab_nobjs_item()`. `take` is an
-- allocation from the free objects, `add_page` hands a new page to the allocator; `free_item` also
-- gives the page that the allocator gives back. `el`, `fl` and `next` are the lists of slabs, with
-- 0 behind none. `tsc k` is the `k`-th reading of the clock.
pub record Env (L : Type 0) : Type 0 where
  pub objmem : ℕ
  pub nobjs : ℕ
  pub in_use : ℕ
  pub take : L → Option (ℕ × L)
  pub add_page : ℕ → L → L
  pub free_item : ℕ → L → Option ℕ × L
  pub coreid : L → ℕ → ℕ
  pub el : L → ℕ
  pub fl : L → ℕ
  pub next : L → ℕ → ℕ
  pub slab : L → ℕ → Slab
  pub find_set : L → ℕ → Option ℕ × L
  pub set_contig : ℕ → ℕ → L → L
  pub tsc : ℕ → ℕ

-- What a server works on: its `status` and `qsc_list`, the table (each bucket its chain, in the order
-- of the `h_next` fields), the objects by address, the state of the slab allocator and of the bitmap,
-- the flag `loading`, and the number of readings of the clock.
pub record Node (L : Type 0) : Type 0 where
  pub status : McStatus
  pub qsc_list : QscRing
  pub table : ℕ → List ℕ
  pub objs : ℕ → Object
  pub lists : L
  pub loading : Bool
  pub ticks : ℕ

-- mc_status_init
pub mc_status_init : McStatus → (target : ℕ) → McStatus
mc_status_init p target = record p {
  target = target;
  used = 0;
  quiesce = 0;
  gets = 0;
  sets = 0;
  alloc = 0;
  free = 0;
  confict = 0;
  evict = 0;
}

pub qsc_ring_peek : QscRing → ℕ
qsc_ring_peek ql = ql.ring ql.head

pub qsc_ring_dequeue : QscRing → ℕ × QscRing
qsc_ring_dequeue ql = if ql.ring ql.head == 0 then (0, ql) else (
  ql.ring ql.head,
  record ql { ring = update ql.ring ql.head 0; head = (ql.head + 1) % quis_num },
)

-- The end of `qsc_ring_enqueue`
pub ring_put : QscRing → ℕ → QscRing
ring_put ql m = record ql { ring = update ql.ring ql.tail m; tail = (ql.tail + 1) % quis_num }

-- The test for the full ring
unfoldable pub ring_full : QscRing → Bool
ring_full ql = ql.head == (ql.tail + 1) % quis_num

-- `mem_quiesce` at the reading `now`
abbrev pub mem_quiesce : (now : ℕ) → ℕ
mem_quiesce now = sub64 now grace

module _ {L : Type 0} where
  -- SLAB_FRAGMENTATION
  unfoldable pub fragmentation : Env L → ℕ
  fragmentation env = mc_slab_aoc_sz - env.nobjs * env.objmem

  -- `mem_free_pages`, with its assertions; the pages of a server stand behind its base.
  unfoldable pub mem_free_pages : Env L → (curr s sz : ℕ) → Node L → Option (Node L)
  unfolding fragmentation
  mem_free_pages env curr s sz n =
      let off = (s - n.status.base) / page_size in
      check (s % page_size == 0)
      >> (check (ltb curr num_server)
          >> (check (ltb (off + sz / page_size) (map_max * 32))
              >> some (record n {
                lists = env.set_contig off (sz / page_size) n.lists;
                status = record (n.status) {
                  free = n.status.free + 1;
                  used = sub64 n.status.used (fragmentation env);
                };
              })))

  -- The call of `mem_free_pages` by the slab library
  pub give_page : Env L → (curr : ℕ) → Option ℕ → Node L → Option (Node L)
  unfolding mem_free_pages
  give_page env curr none n = some n
  give_page env curr (some s) n = mem_free_pages env curr s mc_slab_aoc_sz n

  -- `ps_slab_free_coreid_item`
  pub slab_free : Env L → (curr a : ℕ) → Node L → Option (Node L)
  unfolding give_page
  slab_free env curr a n =
      give_page env curr ((env.free_item a n.lists).0)
        (record n { lists = (env.free_item a n.lists).1 })

  -- The loop of `mem_smr_reclaim`, with the bytes `i` freed so far. On fuel; `none` is a failed
  -- assertion, or that the fuel ran out.
  pub reclaim_loop : Env L → (curr qsc fuel i : ℕ) → Node L → Option (ℕ × Node L)
  unfolding qsc_ring_peek qsc_ring_dequeue slab_free
  reclaim_loop env curr qsc zero i n = none
  reclaim_loop env curr qsc (suc fuel) i n =
      let a = qsc_ring_peek n.qsc_list in
      if a == 0
      then some (i, n)
      else if ltb qsc ((n.objs a).tsc_free)
      then some (i, n)
      else (check (env.coreid n.lists a == curr)
          >> (slab_free env curr a (record n { qsc_list = (qsc_ring_dequeue n.qsc_list).1 })
              >>= (λ n1. reclaim_loop env curr qsc fuel (i + env.objmem) n1)))

  -- The end of `mem_smr_reclaim`
  abbrev pub reclaimed : ℕ × Node L → ℕ × Node L
  reclaimed (i, n) = (
    i,
    record n {
      status = record (n.status) {
        used = sub64 n.status.used i;
        quiesce = sub64 n.status.quiesce i;
      };
    },
  )

  pub mem_smr_reclaim : Env L → (curr : ℕ) → Node L → Option (ℕ × Node L)
  unfolding qsc_ring_peek reclaim_loop
  mem_smr_reclaim env curr n =
      if qsc_ring_peek n.qsc_list == 0
      then some (0, n)
      else (reclaim_loop env curr (mem_quiesce (env.tsc n.ticks)) quis_num 0
            (record n { ticks = n.ticks + 1 })
          >>= (λ r. some (reclaimed r)))

  -- `qsc_ring_enqueue`, with its assertion that a full ring has room after a reclamation
  pub qsc_ring_enqueue : Env L → (curr m : ℕ) → Node L → Option (Node L)
  unfolding ring_full ring_put mem_smr_reclaim
  qsc_ring_enqueue env curr m n =
      if ring_full n.qsc_list
      then (mem_smr_reclaim env curr n >>= (λ r.
          check (not (ring_full r.1.qsc_list))
          >> some (record (r.1) { qsc_list = ring_put r.1.qsc_list m })))
      else some (record n { qsc_list = ring_put n.qsc_list m })

  -- `parsec_mem_free`: `__ps_mhead_setfree` writes the time into the header.
  pub parsec_mem_free : Env L → (curr a : ℕ) → Node L → Option (Node L)
  unfolding qsc_ring_enqueue
  parsec_mem_free env curr a n =
      qsc_ring_enqueue env curr a (record n {
        objs = update n.objs a (record (n.objs a) { tsc_free = env.tsc n.ticks });
        ticks = n.ticks + 1;
      })
      >>= (λ n1. some (record n1 {
        status = record (n1.status) { quiesce = add64 n1.status.quiesce env.objmem };
      }))
