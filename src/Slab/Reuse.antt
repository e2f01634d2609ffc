-- ===== src/Slab/Reuse.antt =====
-- A freed object is the next one that its slab gives out (libs/bi/bi_slab.c).
use bi_project.Base.{
  le→leb, eq→==, ne→==, update, update_self, update_twice, update_back, ℕ, ◌+◌, ◌-◌, ◌%◌, ◌^◌, ◌≤◌,
  ◌<◌, ◌≡◌, refl, ap, ◌∙◌, ◌≢◌, some, arith,
}
use bi_project.Smr.Reclaim.{sizeof_mheader, mhead_get, mhead_mem}
use bi_project.Slab.{
  SlabInfo, Memory, allocsz, headoff, objmemsz, max_nobjs, bi_slab_alloc, bi_slab_free,
  slab_mem_alloc, slab_mem_free, slab_ready,
}

-- The object at `buf` belongs to the slab `s`, which some objects of are free and, with this one,
-- not all; and the slab is the first of the list `fl`.
pub record IsUsed (me : ℕ) (si : SlabInfo) (mem : Memory) (s buf : ℕ) : Type 0 where
  pub owner : mem.slab (mhead_get buf) ≡ s
  pub first : si.fl ≡ s
  pub real : s ≢ 0
  pub header : sizeof_mheader < buf
  pub home : si.nodeid ≡ me
  pub fits : objmemsz si.obj_sz + headoff ≤ allocsz
  pub room : si.obj_sz + headoff ≤ allocsz
  pub some_free : 0 < mem.nfree s
  pub not_all : mem.nfree s + 1 < max_nobjs si.obj_sz
  pub counted : mem.nfree s < 2 ^ 32

-- The memory after the object at `buf` of the slab `s` is freed, and after it is taken again.
abbrev after_free : (s buf : ℕ) → Memory → Memory
after_free s buf mem = record mem {
  freelist = update mem.freelist s (mhead_get buf);
  next = update mem.next (mhead_get buf) (mem.freelist s);
  nfree = update mem.nfree s (mem.nfree s + 1);
}

abbrev after_alloc : (tsc s h : ℕ) → Memory → Memory
after_alloc tsc s h mem = record mem {
  freelist = update mem.freelist s (mem.next h);
  nfree = update mem.nfree s ((mem.nfree s + 2 ^ 64 - 1) % 2 ^ 64);
  next = update mem.next h 0;
  type = update mem.type h tsc;
}

free_used :
    (me s buf : ℕ) (si : SlabInfo) (mem : Memory)
    → IsUsed me si mem s buf
    → bi_slab_free me buf si mem ≡ some (si, after_free s buf mem)
unfolding bi_slab_free slab_mem_free
free_used me s buf si mem u = rw (
  ne→== buf 0 (omega (arith, u.header)),
  u.owner,
  ne→== s 0 u.real,
  le→leb (objmemsz si.obj_sz + headoff) allocsz u.fits,
  u.home,
  eq→== me me refl,
  eq→== s s refl,
  ne→== (mem.nfree s + 1) (max_nobjs si.obj_sz) (omega (arith, u.not_all)),
  ne→== (mem.nfree s + 1) 1 (omega (arith, u.some_free)),
)

alloc_first :
    (me tsc s h : ℕ) (si : SlabInfo) (mem : Memory)
    → si.nodeid ≡ me
    → si.fl ≡ s
    → s ≢ 0
    → si.obj_sz + headoff ≤ allocsz
    → mem.freelist s ≡ h
    → h ≢ 0
    → 1 < mem.nfree s
    → mem.nfree s < 2 ^ 64
    → bi_slab_alloc me tsc si mem ≡ some (mhead_mem h, si, after_alloc tsc s h mem)
unfolding bi_slab_alloc slab_mem_alloc slab_ready
alloc_first me tsc s h si mem home first real room top full many small = rw (
  home,
  eq→== me me refl,
  le→leb (si.obj_sz + headoff) allocsz room,
  first,
  ne→== s 0 real,
  top,
  ne→== h 0 full,
  eq→== s s refl,
  ne→== ((mem.nfree s + 2 ^ 64 - 1) % 2 ^ 64) 0 (omega arith),
)

-- The memory after both: only the freed object's header has changed.
abbrev pub given_out : (tsc h : ℕ) → Memory → Memory
given_out tsc h mem = record mem { next = update mem.next h 0; type = update mem.type h tsc }

restored :
    (tsc s buf : ℕ) (mem : Memory)
    → (after_free s buf mem).next (mhead_get buf) ≡ mem.freelist s
    → ((after_free s buf mem).nfree s + 2 ^ 64 - 1) % 2 ^ 64 ≡ mem.nfree s
    → after_alloc tsc s (mhead_get buf) (after_free s buf mem) ≡ given_out tsc (mhead_get buf) mem
restored tsc s buf mem top count i =
    let h = mhead_get buf in
    record mem {
      freelist = update_back mem.freelist s h _ top i;
      nfree = update_back mem.nfree s (mem.nfree s + 1) _ count i;
      next = update_twice mem.next h (mem.freelist s) 0 i;
      type = update mem.type h tsc;
    }

-- An object freed into a slab that has free objects and keeps one in use is the next one that this
-- slab, first in its list, gives out; the whole memory (the chains of free objects, the counts, the
-- lists of slabs and the pages) and the lists are then what they were, but for the time and the
-- link in the object's own header.
pub slab-free-alloc :
    (me tsc s buf : ℕ) (si : SlabInfo) (mem : Memory)
    → IsUsed me si mem s buf
    → (mem1 : Memory) × (bi_slab_free me buf si mem ≡ some (si, mem1))
      × (mem1.nfree s ≡ mem.nfree s + 1)
      × (bi_slab_alloc me tsc si mem1 ≡ some (buf, si, given_out tsc (mhead_get buf) mem))
unfolding mhead_get mhead_mem
slab-free-alloc me tsc s buf si mem u =
    let h = mhead_get buf in
    let mem1 = after_free s buf mem in
    let count1 : mem1.nfree s ≡ mem.nfree s + 1 = update_self mem.nfree s (mem.nfree s + 1) in
    let top1 : mem1.freelist s ≡ h = update_self mem.freelist s h in
    let next1 : mem1.next h ≡ mem.freelist s = update_self mem.next h (mem.freelist s) in
    let count2 : (mem1.nfree s + 2 ^ 64 - 1) % 2 ^ 64 ≡ mem.nfree s =
      omega (arith, count1, u.counted) in
    let whole : mhead_mem h ≡ buf = omega (arith, u.header) in
    (
      mem1,
      free_used me s buf si mem u,
      count1,
      alloc_first me tsc s h si mem1 u.home u.first u.real u.room top1 (omega (arith, u.header))
            (omega (arith, count1, u.some_free)) (omega (arith, count1, u.counted))
          ∙ ap (λ b. some (b, si, after_alloc tsc s h mem1)) whole
          ∙ ap (λ (m : Memory). some (buf, si, m)) (restored tsc s buf mem next1 count2),
    )
