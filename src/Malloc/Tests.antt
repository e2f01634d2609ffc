-- ===== src/Malloc/Tests.antt =====
-- The allocator of libs/mem/bi_malloc.c on concrete inputs.
use bi_project.Base.{ℕ, ◌+◌, ◌%◌, ◌≤◌, ◌≡◌, refl, some, [], ◌∷◌, arith}
use bi_project.Malloc.{
  Arena, get_size, get_index, sizeof_alloc, num_free_list, mem_block_size, bi_malloc, bi_free,
  block_ret, index_loop,
}
use bi_project.Malloc.Reuse.{malloc_chunk, free-malloc, Apart}

get_size_100 : get_size 100 ≡ 128
unfolding get_size get_index index_loop
get_size_100 = refl

-- An area of 1 MB with no free block.
abbrev new_area : Arena
new_area = record {
  bump_addr = 4096;
  end_addr = 4096 + 1048576;
  small_mem = λ lid idx. [];
  size = λ b. 0;
  lid = λ b. 0;
}

malloc_chunk_example :
    (a' : Arena) × (bi_malloc new_area 3 100 ≡ some (block_ret 4096, a'))
    × (a'.bump_addr ≡ 4096 + mem_block_size)
    × (a'.size 4096 ≡ get_size (100 + sizeof_alloc))
    × (100 + sizeof_alloc ≤ get_size (100 + sizeof_alloc))
    × Apart
        (get_size (100 + sizeof_alloc))
        4096
        a'.bump_addr
        (4096 ∷ a'.small_mem (3 % num_free_list) (get_index (get_size (100 + sizeof_alloc))))
malloc_chunk_example = malloc_chunk new_area 3 100 (omega arith) refl (omega arith) (omega arith)

-- A block of 128 bytes at 4096, given out before to core 3.
abbrev used_area : Arena
used_area = record {
  bump_addr = 69632;
  end_addr = 4096 + 1048576;
  small_mem = λ lid idx. [];
  size = λ b. 128;
  lid = λ b. 3;
}

free-malloc_example :
    (a1 : Arena) × (a2 : Arena) × (bi_free used_area 4120 ≡ some a1)
    × (bi_malloc a1 3 100 ≡ some (4120, a2))
    × (a2.bump_addr ≡ 69632)
    × ((l i : ℕ) → a2.small_mem l i ≡ used_area.small_mem l i)
unfolding get_size get_index index_loop
free-malloc_example = free-malloc used_area 3 100 4120 (omega arith) (omega arith) refl refl
