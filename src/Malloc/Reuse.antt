-- ===== src/Malloc/Reuse.antt =====
-- `bi_malloc` and `bi_free` of libs/mem/bi_malloc.c: a block freed is the next one given out, and a new
-- chunk is cut into blocks that do not overlap.
use bi_project.Base.{
  lt→ltb, le→leb, eq→==, ne→==, update, update_self, ℕ, zero, suc, ◌+◌, ◌-◌, ◌*◌, ◌%◌, ◌≤◌, ◌<◌,
  ◌≡◌, refl, ap, ◌∙◌, some, List, [], ◌∷◌, ◌++◌, append-nil, arith,
}
use bi_project.Malloc.{
  mem_block_size, small_nr, max_small_size, num_free_list, sizeof_alloc, word, get_index, get_size,
  Arena, set_list, do_mmap, small_free, cut, small_malloc, block_start, block_ret, bi_free,
  bi_malloc, take_block,
}
use bi_project.Malloc.Classes.{get_size-bounds}

-- The blocks of `size` bytes follow one another without overlap, from `lo` to at most `hi`.
abbrev pub Apart : (size lo hi : ℕ) → List ℕ → Type 0
Apart size lo hi [] = lo ≤ hi
Apart size lo hi (p ∷ ps) = (lo ≤ p) × Apart size (p + size) hi ps

cut-Apart : (p size n hi : ℕ) → p + n * size ≤ hi → Apart size p hi (cut p size n)
unfolding cut
cut-Apart p size zero hi le = omega arith
cut-Apart p size (suc n) hi le = (omega arith, cut-Apart (p + size) size n hi (omega arith))

rounds : (n need all : ℕ) → n * need ≤ all → need ≤ all → need + (n - 1) * need ≤ all
rounds zero need all fits one = omega arith
rounds (suc n) need all fits one = let less : suc n - 1 ≡ n = omega arith in rw less (omega arith)

-- As many blocks as a chunk is cut into fit in it.
chunk_room :
    (need p : ℕ)
    → 0 < need
    → need ≤ max_small_size
    → p + need + (small_nr need - 1) * need ≤ p + mem_block_size
chunk_room need p pos top =
    let fits : small_nr need * need ≤ mem_block_size = omega arith in
    omega (arith, rounds (small_nr need) need mem_block_size fits (omega arith))

lid_in : (core : ℕ) → core % num_free_list < num_free_list
lid_in core = omega arith

small_malloc-pop :
    (a : Arena) (size lid p : ℕ) (rest : List ℕ)
    → lid < num_free_list
    → a.small_mem lid (get_index size) ≡ p ∷ rest
    → small_malloc a size lid ≡ some (p, set_list a lid (get_index size) rest)
unfolding small_malloc
small_malloc-pop a size lid p rest lt e = rw (lt→ltb lid num_free_list lt, e)

small_malloc-chunk :
    (a : Arena) (size lid : ℕ)
    → lid < num_free_list
    → a.small_mem lid (get_index size) ≡ []
    → a.bump_addr + mem_block_size < a.end_addr
    → small_malloc a size lid
      ≡ some (
        a.bump_addr,
        set_list
            (record a { bump_addr = a.bump_addr + mem_block_size })
            lid
            (get_index size)
            (cut (a.bump_addr + size) size (small_nr size - 1)),
      )
unfolding small_malloc do_mmap
small_malloc-chunk a size lid lt e room =
    let blocks = cut (a.bump_addr + size) size (small_nr size - 1) in
    rw (lt→ltb lid num_free_list lt, e, lt→ltb (a.bump_addr + mem_block_size) a.end_addr room)
      (ap
        (λ l. some (
          a.bump_addr,
          set_list (record a { bump_addr = a.bump_addr + mem_block_size }) lid (get_index size) l,
        ))
        (ap (λ l. blocks ++ l) e ∙ append-nil blocks))

-- A request that a small block meets, with the block that `__small_malloc` returns.
malloc-small :
    (a a' : Arena) (core size p : ℕ)
    → size + sizeof_alloc ≤ max_small_size
    → 0 < p
    → small_malloc a (get_size (size + sizeof_alloc)) (core % num_free_list) ≡ some (p, a')
    → bi_malloc a core size
      ≡ some (
        block_ret p,
        record a' {
          size = update a'.size p (get_size (size + sizeof_alloc));
          lid = update a'.lid p (core % num_free_list);
        },
      )
unfolding bi_malloc take_block
malloc-small a a' core size p small pos e =
    let whole : (size + sizeof_alloc) % word ≡ size + sizeof_alloc = omega arith in
    let (_, enough, _, _, _) = get_size-bounds (size + sizeof_alloc) (omega arith) small in
    rw (
      whole,
      le→leb (size + sizeof_alloc) max_small_size small,
      e,
      le→leb (size + sizeof_alloc) (get_size (size + sizeof_alloc)) enough,
      ne→== p 0 (omega arith),
    )

-- With no free block of the class, a request for a small block and room for a chunk in the area,
-- whose pointer is not null, `bi_malloc` cuts a new chunk into blocks that do not overlap and do
-- not leave the chunk, returns the first and records its size, which meets the request.
pub malloc_chunk :
    (a : Arena) (core size : ℕ)
    → size + sizeof_alloc ≤ max_small_size
    → a.small_mem (core % num_free_list) (get_index (get_size (size + sizeof_alloc))) ≡ []
    → 0 < a.bump_addr
    → a.bump_addr + mem_block_size < a.end_addr
    → (a' : Arena) × (bi_malloc a core size ≡ some (block_ret a.bump_addr, a'))
      × (a'.bump_addr ≡ a.bump_addr + mem_block_size)
      × (a'.size a.bump_addr ≡ get_size (size + sizeof_alloc))
      × (size + sizeof_alloc ≤ get_size (size + sizeof_alloc))
      × Apart (get_size (size + sizeof_alloc)) a.bump_addr a'.bump_addr (
          a.bump_addr
          ∷ a'.small_mem (core % num_free_list) (get_index (get_size (size + sizeof_alloc))))
malloc_chunk a core size small empty pos room =
    let need = get_size (size + sizeof_alloc) in
    let lid = core % num_free_list in
    let (_, enough, top, _, _) = get_size-bounds (size + sizeof_alloc) (omega arith) small in
    let blocks = cut (a.bump_addr + need) need (small_nr need - 1) in
    let a1 : Arena =
      set_list (record a { bump_addr = a.bump_addr + mem_block_size }) lid (get_index need)
        blocks in
    let apart : Apart need (a.bump_addr + need) (a.bump_addr + mem_block_size) blocks =
      cut-Apart (a.bump_addr + need) need (small_nr need - 1) (a.bump_addr + mem_block_size)
        (chunk_room need a.bump_addr (omega (arith, enough)) top) in
    (
      record a1 { size = update a1.size a.bump_addr need; lid = update a1.lid a.bump_addr lid },
      malloc-small a a1 core size a.bump_addr small pos
          (small_malloc-chunk a need lid (lid_in core) empty room),
      refl,
      update_self a1.size a.bump_addr need,
      enough,
      rw (eq→== lid lid refl, eq→== (get_index need) (get_index need) refl) (omega arith, apart),
    )

-- A list that is extended and then taken back is the old one.
put_back :
    (f : ℕ → ℕ → List ℕ) (lid idx p l i : ℕ)
    → update
        (update f lid (update (f lid) idx (p ∷ f lid idx)))
        lid
        (update (update f lid (update (f lid) idx (p ∷ f lid idx)) lid) idx (f lid idx))
        l
        i
      ≡ f l i
put_back f lid idx p l i = ground arith

-- A small block that is freed, and whose header has the class of the request and the list of the
-- core, is the one that the next request of its class on its core gets, and the free lists are then
-- what they were.
pub free-malloc :
    (a : Arena) (core size ptr : ℕ)
    → sizeof_alloc < ptr
    → size + sizeof_alloc ≤ max_small_size
    → a.size (block_start ptr) ≡ get_size (size + sizeof_alloc)
    → a.lid (block_start ptr) ≡ core % num_free_list
    → (a1 : Arena) × (a2 : Arena) × (bi_free a ptr ≡ some a1)
      × (bi_malloc a1 core size ≡ some (ptr, a2))
      × (a2.bump_addr ≡ a.bump_addr)
      × ((l i : ℕ) → a2.small_mem l i ≡ a.small_mem l i)
unfolding bi_free small_free
free-malloc a core size ptr pos small own owner =
    let need = get_size (size + sizeof_alloc) in
    let lid = core % num_free_list in
    let idx = get_index need in
    let block = block_start ptr in
    let a1 : Arena = set_list a lid idx (block ∷ a.small_mem lid idx) in
    let left : Arena = set_list a1 lid idx (a.small_mem lid idx) in
    let a2 : Arena = record left {
      size = update left.size block need;
      lid = update left.lid block lid;
    } in
    let (_, enough, top, _, _) = get_size-bounds (size + sizeof_alloc) (omega arith) small in
    let top_block : a1.small_mem lid idx ≡ block ∷ a.small_mem lid idx =
      rw (eq→== lid lid refl, eq→== idx idx refl) in
    let back : block_ret block ≡ ptr = omega arith in
    (
      a1,
      a2,
      rw (
        ne→== ptr 0 (omega arith),
        own,
        owner,
        ne→== need 0 (omega (arith, enough)),
        le→leb need max_small_size top,
        lt→ltb lid num_free_list (lid_in core),
      ),
      malloc-small a1 left core size block small (omega arith)
            (small_malloc-pop a1 need lid block (a.small_mem lid idx) (lid_in core) top_block)
          ∙ ap (λ k. some (k, a2)) back,
      refl,
      λ l i. put_back a.small_mem lid idx block l i,
    )
