-- ===== src/BiMc/Memory.antt =====
-- How a server of mc_code/bi_mc/memcache.c gets memory for an item: the pages, and the eviction of
-- items when the memory runs out.
use bi_project.BiMc.{page_size, mc_slab_aoc_sz, add64, Env, Node, mem_smr_reclaim, fragmentation}
use bi_project.BiMc.Table.{mc_hv2node}
use bi_project.BiMc.Items.{do_item_unlink}
use bi_project.Base.{
  ltb, ◌==◌, if◌then◌else◌, update, ℕ, zero, suc, ◌+◌, ◌*◌, ◌/◌, ◌%◌, ◌^◌, Bool, not, ◌&&◌, Option,
  none, some,
}
use bi_project.Base.Run.{◌>>=◌, ◌>>◌, check}

-- MC_SLAB_OBJ_SZ
abbrev pub mc_slab_obj_sz : ℕ
mc_slab_obj_sz = 94

module _ {L : Type 0} where
  -- The loop of `slab_evict`, from the object `a` on, with `e` items evicted so far
  unfoldable pub evict_loop : Env L → (curr left a e : ℕ) → Node L → Option (ℕ × Node L)
  unfolding do_item_unlink
  evict_loop env curr zero a e n = some (e, n)
  evict_loop env curr (suc left) a e n =
      if not ((n.objs a).tsc_free == env.in_use)
      then evict_loop env curr left (a + env.objmem) e n
      else (check (mc_hv2node ((n.objs a).hv) == curr)
          >> (do_item_unlink env curr a ((n.objs a).hv) n
              >>= (λ n1. evict_loop env curr left (a + env.objmem) (e + 1) n1)))

  unfoldable pub slab_evict : Env L → (curr s : ℕ) → Node L → Option (Node L)
  unfolding evict_loop
  slab_evict env curr s n =
      let sl = env.slab n.lists s in
      check (sl.coreid == curr)
      >> (check (sl.nfree == 0)
          >> (evict_loop env curr env.nobjs sl.first 0 n >>= (λ r.
              some (record (r.1) {
                status = record (r.1.status) { evict = r.1.status.evict + r.0 };
              }))))

  -- A loop of `mc_mem_evict` from the slab `s`, with `i` pages so far; each slab has a page at least,
  -- so `npages` rounds are enough. `none` is a failed assertion, or that the rounds ran out.
  pub evict_slabs : Env L → (curr npages fuel i s : ℕ) → Node L → Option (ℕ × Node L)
  unfolding slab_evict
  evict_slabs env curr npages zero i s n =
      if ltb i npages && not (s == 0) then none else some (i, n)
  evict_slabs env curr npages (suc fuel) i s n =
      if ltb i npages && not (s == 0)
      then (slab_evict env curr s n >>= (λ n1.
          evict_slabs env curr npages fuel (i + (env.slab n.lists s).memsz / page_size)
            (env.next n1.lists s) n1))
      else some (i, n)

  pub mc_mem_evict : Env L → (curr npages : ℕ) → Node L → Option (ℕ × Node L)
  unfolding evict_slabs
  mc_mem_evict env curr npages n =
      evict_slabs env curr npages npages 0 (env.el n.lists) n
      >>= (λ r. evict_slabs env curr npages npages (r.0) (env.fl r.1.lists) (r.1))

  -- The test `used*100 > target*MC_MEM_EVICT_THOLD`, in 64 bits
  unfoldable pub over : Node L → Bool
  over n = ltb (n.status.target * 99 % 2 ^ 64) (n.status.used * 100 % 2 ^ 64)

  -- The end of `mc_alloc_pages`: the place that the bitmap gives, and 0 for the null pointer
  unfoldable pub find_page : Env L → Option ℕ × L → Node L → ℕ × Node L
  unfolding fragmentation
  find_page env (none, l) n = (0, record n { lists = l })
  find_page env (some off, l) n = (
    n.status.base + off * page_size,
    record n {
      lists = l;
      status = record (n.status) {
        alloc = n.status.alloc + 1;
        used = add64 n.status.used (fragmentation env);
      };
    },
  )

  -- `mc_alloc_pages` after the reclamation
  unfoldable pub evict_pages : Env L → (curr : ℕ) → Node L → Option (ℕ × Node L)
  unfolding over mc_mem_evict find_page
  evict_pages env curr n =
      if over n && n.loading
      then some (0, n)
      else ((if over n then mc_mem_evict env curr 1 n else some (0, n)) >>= (λ r.
          some (find_page env (env.find_set r.1.lists (mc_slab_aoc_sz / page_size)) (r.1))))

  -- `mc_alloc_pages` for a slab. (`mc_print_status` only prints.)
  unfoldable pub mc_alloc_pages : Env L → (curr : ℕ) → Node L → Option (ℕ × Node L)
  unfolding over mem_smr_reclaim evict_pages
  mc_alloc_pages env curr n =
      (if over n then mem_smr_reclaim env curr n else some (0, n))
      >>= (λ r. evict_pages env curr (r.1))

  -- An object that the allocator hands out is in use.
  unfoldable pub taken : Env L → Node L → Option (ℕ × L) → Option (ℕ × Node L)
  taken env n none = none
  taken env n (some (a, l)) = some (
    a,
    record n { lists = l; objs = update n.objs a (record (n.objs a) { tsc_free = env.in_use }) },
  )

  -- A new page, if there is one, gives an object.
  unfoldable pub use_page : Env L → ℕ × Node L → Option (ℕ × Node L)
  unfolding taken
  use_page env (s, n) =
      if s == 0 then some (0, n) else taken env n (env.take (env.add_page s n.lists))

  -- The two cases of an allocation
  unfoldable pub alloc_from : Env L → (curr : ℕ) → Node L → Option (ℕ × L) → Option (ℕ × Node L)
  unfolding mc_alloc_pages taken use_page
  alloc_from env curr n (some r) = taken env n (some r)
  alloc_from env curr n none = mc_alloc_pages env curr n >>= use_page env

  -- `ps_slab_alloc_item`: the library asks `mc_alloc_pages` for a page when it has no free object.
  unfoldable pub ps_slab_alloc_item : Env L → (curr : ℕ) → Node L → Option (ℕ × Node L)
  unfolding alloc_from
  ps_slab_alloc_item env curr n = alloc_from env curr n (env.take n.lists)

  -- `parsec_mem_alloc`, with its assertion on the size
  unfoldable pub parsec_mem_alloc : Env L → (node size : ℕ) → Node L → Option (ℕ × Node L)
  unfolding ps_slab_alloc_item
  parsec_mem_alloc env node size n =
      check (size == mc_slab_obj_sz)
      >> ps_slab_alloc_item env node
          (record n { status = record (n.status) { used = add64 n.status.used env.objmem } })
