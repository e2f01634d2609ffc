-- ===== src/Slab/Tests.antt =====
-- The slab allocator of libs/bi/bi_slab.c on concrete inputs.
use bi_project.Base.{◌+◌, ◌≡◌, refl, some, [], arith}
use bi_project.Slab.{mhead_get, SlabInfo, Memory, bi_slab_alloc, bi_slab_free, max_nobjs, objmemsz}
use bi_project.Slab.Reuse.{IsUsed, given_out, slab-free-alloc}

-- One slab of objects of 100 bytes at 8192, of which five are free; the object at 9000 is not.
abbrev info : SlabInfo
info = record { fl = 8192; el = 0; nodeid = 2; obj_sz = 100; nslabs = 1 }

abbrev memory : Memory
memory = record {
  type = λ h. 0;
  slab = λ h. 8192;
  next = λ h. h + 128;
  nfree = λ s. 5;
  memsz = λ s. 1048576;
  freelist = λ s. 8320;
  list = record { n = λ x. x; p = λ x. x };
  mem_item = λ s. 0;
  free_mem = [];
  mem_addr = λ i. 0;
}

in_use : IsUsed 2 info memory 8192 9000
unfolding objmemsz max_nobjs
in_use = record {
  owner = refl;
  first = refl;
  real = λ e. omega arith;
  header = omega arith;
  home = refl;
  fits = omega arith;
  room = omega arith;
  some_free = omega arith;
  not_all = omega arith;
  counted = omega arith;
}

slab-free-alloc_example :
    (mem1 : Memory) × (bi_slab_free 2 9000 info memory ≡ some (info, mem1))
    × (mem1.nfree 8192 ≡ 5 + 1)
    × (bi_slab_alloc 2 77 info mem1 ≡ some (9000, info, given_out 77 (mhead_get 9000) memory))
slab-free-alloc_example = slab-free-alloc 2 77 8192 9000 info memory in_use
