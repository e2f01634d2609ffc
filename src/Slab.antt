-- ===== src/Slab.antt =====
-- The slab allocator: libs/bi/bi_slab.c, include/bi_slab.h and the free pages of
-- libs/mem/mem_mgr.c. A slab is named by the address of its page, where its `struct ps_slab` stands.
pub mod RingList
pub mod Reuse
mod Tests
use bi_project.Base.{
  ltb, leb, ◌==◌, if◌then◌else◌, Bool-cases, ltb→lt, ltb→le, lt→ltb, le→ltb, leb→le, leb→lt, le→leb,
  ==→eq, ==→ne, eq→==, ne→==, tests, length, length-append, All, All-append, All-mono, has, update,
  update_self, update_ne, ℕ, zero, suc, ◌+◌, ◌-◌, ◌*◌, ◌/◌, ◌%◌, ◌^◌, ◌≤◌, ◌<◌, ◌≡◌, refl, sym, ap,
  ap₂, ◌∙◌, ◌≢◌, ◌↔◌, ◌⊎◌, inl, inr, Bool, true, false, not, ◌&&◌, ◌||◌, Option, none, some, List,
  [], ◌∷◌, ◌++◌, map, append_assoc, append-nil, arith,
}
use bi_project.Base.Run.{◌>>=◌, ◌>>◌, check}
use bi_project.Smr.Reclaim.{sizeof_mheader, mhead_get, mhead_mem}
use bi_project.Slab.RingList.{
  Links, ps_list_ll_init, ps_list_ll_empty, ps_list_ll_add, ps_list_ll_rem,
}

-- CACHE_LINE, MEM_MGR_OBJ_SZ and sizeof(struct ps_slab), two cache lines
abbrev pub cache_line : ℕ
cache_line = 64

abbrev pub allocsz : ℕ
allocsz = 1024 * 1024

abbrev pub headoff : ℕ
headoff = 128

-- What the memory holds: the headers (`type`, `slab`, `next`, where 0 is null), the slabs (`nfree`,
-- `memsz`, `freelist`, the links of `list`, `mem_item`) and the free items of the page allocator, as
-- their list in order, with their addresses.
pub record Memory : Type 0 where
  pub type : ℕ → ℕ
  pub slab : ℕ → ℕ
  pub next : ℕ → ℕ
  pub nfree : ℕ → ℕ
  pub memsz : ℕ → ℕ
  pub freelist : ℕ → ℕ
  pub list : Links
  pub mem_item : ℕ → ℕ
  pub free_mem : List ℕ
  pub mem_addr : ℕ → ℕ

-- `struct ps_slab_info`; `fl` and `el` are 0 when the list is empty.
pub record SlabInfo : Type 0 where
  pub fl : ℕ
  pub el : ℕ
  pub nodeid : ℕ
  pub obj_sz : ℕ
  pub nslabs : ℕ

-- `__ps_slab_objmemsz`, with PS_RNDUP
pub objmemsz : (obj_sz : ℕ) → ℕ
objmemsz obj_sz = (obj_sz + sizeof_mheader + cache_line - 1) / cache_line * cache_line

-- `__ps_slab_max_nobjs`
pub max_nobjs : (obj_sz : ℕ) → ℕ
unfolding objmemsz
max_nobjs obj_sz = (allocsz - headoff) / objmemsz obj_sz

-- `__slab_freelist_rem`: the list's pointer and the links afterwards
pub slab_freelist_rem : Links → (fl s : ℕ) → ℕ × Links
slab_freelist_rem ls fl s =
    (if fl == s then (if ps_list_ll_empty ls s then 0 else ls.n s) else fl, ps_list_ll_rem ls s)

-- `__slab_freelist_add`, with its assertions
pub slab_freelist_add : Links → (fl s : ℕ) → Option (ℕ × Links)
slab_freelist_add ls fl s =
    check (ps_list_ll_empty ls s)
    >> (check (not (s == fl)) >> some (s, (if fl == 0 then ls else ps_list_ll_add ls fl s)))

-- The loop of `__ps_slab_init`, from the header `alloc` on; `prev` is the one before it.
pub slab_init_loop : (s size left alloc prev : ℕ) → Memory → Memory
slab_init_loop s size zero alloc prev mem = mem
slab_init_loop s size (suc left) alloc prev mem =
    slab_init_loop s size left (alloc + size) alloc (record mem {
      slab = update mem.slab alloc s;
      type = update mem.type alloc 0;
      next = update mem.next prev alloc;
    })

-- `__ps_slab_init`. (Its last assertion compares addresses; the loop ends inside the page.)
pub slab_init : SlabInfo → (s : ℕ) → Memory → Option (SlabInfo × Memory)
unfolding max_nobjs objmemsz slab_init_loop slab_freelist_add
slab_init si s mem =
    let n = max_nobjs si.obj_sz in
    let first = s + headoff in
    let mem1 = slab_init_loop s (objmemsz si.obj_sz) n first first (record mem {
      nfree = update mem.nfree s n;
      memsz = update mem.memsz s allocsz;
      freelist = update mem.freelist s first;
    }) in
    check (leb (first + n * objmemsz si.obj_sz) (s + allocsz))
    >> (slab_freelist_add (ps_list_ll_init mem1.list s) si.fl s
        >>= (λ r. some (record si { fl = r.0 }, record mem1 { list = r.1 })))

-- `mem_mgr_alloc` and `mem_mgr_free`: the item taken from the front, and put back at the end
pub mem_mgr_alloc : (sz : ℕ) → Memory → Option (ℕ × Memory)
mem_mgr_alloc sz mem =
    check (sz == allocsz)
    >> elim mem.free_mem [ [] ↦ none | item ∷ items ↦ some (item, record mem { free_mem = items }) ]

pub mem_mgr_free : (buf : ℕ) → Memory → Memory
mem_mgr_free buf mem = record mem { free_mem = mem.free_mem ++ (buf ∷ []) }

-- `ps_slab_defalloc`
pub slab_defalloc : (sz : ℕ) → Memory → Option (ℕ × Memory)
unfolding mem_mgr_alloc
slab_defalloc sz mem = do
  r ← mem_mgr_alloc sz mem
  let s = r.1.mem_addr r.0
  check (not (s == 0))
  some (s, record (r.1) { mem_item = update r.1.mem_item s r.0 })

-- `ps_slab_deffree`
pub slab_deffree : (s : ℕ) → Memory → Memory
unfolding mem_mgr_free
slab_deffree s mem = mem_mgr_free (mem.mem_item s) mem

-- The first part of `__ps_slab_mem_alloc`: a slab with a free object, a new one if there is none
pub slab_ready : SlabInfo → Memory → Option (SlabInfo × Memory)
unfolding slab_defalloc slab_init
slab_ready si mem =
    let fresh : Option (SlabInfo × Memory) = (do
      d ← slab_defalloc allocsz mem
      r ← slab_init si d.0 d.1
      some (record (r.0) { nslabs = r.0.nslabs + 1 }, r.1)) in
    if si.fl == 0 then fresh else some (si, mem)

-- `__ps_slab_mem_alloc` at the reading `tsc` of the clock
pub slab_mem_alloc : (tsc : ℕ) → SlabInfo → Memory → Option (ℕ × SlabInfo × Memory)
unfolding slab_ready slab_freelist_rem slab_freelist_add
slab_mem_alloc tsc si mem = do
  check (leb (si.obj_sz + headoff) allocsz)
  ready ← slab_ready si mem
  let s = ready.0.fl
  let h = ready.1.freelist s
  check (not (h == 0))
  let mem1 : Memory = record (ready.1) {
    freelist = update ready.1.freelist s (ready.1.next h);
    nfree = update ready.1.nfree s ((ready.1.nfree s + 2 ^ 64 - 1) % 2 ^ 64);
    next = update ready.1.next h 0;
    type = update ready.1.type h tsc;
  }
  let taken = slab_freelist_rem mem1.list ready.0.fl s
  let last : Option (ℕ × SlabInfo × Memory) = slab_freelist_add taken.1 ready.0.el s >>= (λ r.
      some (mhead_mem h, record (ready.0) { fl = taken.0; el = r.0 }, record mem1 { list = r.1 }))
  if mem1.nfree s == 0 then last else some (mhead_mem h, ready.0, mem1)

-- `__ps_slab_mem_free` on node `me`
pub slab_mem_free : (me buf : ℕ) → SlabInfo → Memory → Option (SlabInfo × Memory)
unfolding slab_freelist_rem slab_freelist_add slab_deffree max_nobjs objmemsz
slab_mem_free me buf si mem =
    let h = mhead_get buf in
    let s = mem.slab h in
    let mem1 : Memory = record mem {
      freelist = update mem.freelist s h;
      next = update mem.next h (mem.freelist s);
      nfree = update mem.nfree s (mem.nfree s + 1);
    } in
    let from_fl = slab_freelist_rem mem1.list si.fl s in
    let from_el = slab_freelist_rem mem1.list si.el s in
    let back : Option (SlabInfo × Memory) =
      slab_freelist_add from_el.1 si.fl s
      >>= (λ r. some (record si { fl = r.0; el = from_el.0 }, record mem1 { list = r.1 })) in
    check (not (s == 0))
    >> (check (leb (objmemsz si.obj_sz + headoff) allocsz)
        >> (check (si.nodeid == me)
            >> (if mem1.nfree s == max_nobjs si.obj_sz
                then some (
                  record si { fl = from_fl.0; nslabs = (si.nslabs + 2 ^ 64 - 1) % 2 ^ 64 },
                  slab_deffree s (record mem1 { list = from_fl.1 }),
                )
                else if mem1.nfree s == 1
                then back
                else some (si, mem1))))

-- `bi_slab_create`, with `bi_slab_init`, on node `me`
pub bi_slab_create : (me obj_sz : ℕ) → Option SlabInfo
unfolding objmemsz
bi_slab_create me obj_sz =
    check (ltb (objmemsz obj_sz) allocsz)
    >> some (record { fl = 0; el = 0; nodeid = me; obj_sz = obj_sz; nslabs = 0 })

-- `bi_slab_alloc` and `bi_slab_free`
pub bi_slab_alloc : (me tsc : ℕ) → SlabInfo → Memory → Option (ℕ × SlabInfo × Memory)
unfolding slab_mem_alloc
bi_slab_alloc me tsc si mem = check (si.nodeid == me) >> slab_mem_alloc tsc si mem

pub bi_slab_free : (me buf : ℕ) → SlabInfo → Memory → Option (SlabInfo × Memory)
unfolding slab_mem_free
bi_slab_free me buf si mem = check (not (buf == 0)) >> slab_mem_free me buf si mem
