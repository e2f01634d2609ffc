-- ===== src/BiMc/Start.antt =====
-- The start of a server of mc_code/bi_mc: `mc_init` of memcache.c with `assoc_init`, for one node.
-- The other tables and the message buffers that it allocates are left out.
use bi_project.BiMc.{
  page_size, num_server, map_max, Object, McStatus, Env, Node, mc_status_init, mem_free_pages,
}
use bi_project.BiMc.Laws.{Laws}
use bi_project.BiMc.Ring.{IsQueue}
use bi_project.BiMc.Ring.Expired.{IsQuiescing}
use bi_project.BiMc.Keys.Serving.{IsServing}
use bi_project.Base.{
  lt→ltb, eq→==, ℕ, ◌+◌, ◌-◌, ◌*◌, ◌/◌, ◌%◌, ◌<◌, ◌≡◌, refl, ◌∙◌, true, false, Option, some, [],
  arith,
}
use bi_project.Base.Run.{◌>>=◌, check_then, bind_some}

-- INIT_MEM_SZ
abbrev pub init_mem_sz : ℕ
init_mem_sz = 1024 * 1024 * 580 / num_server

-- `status` after the `memset`, with the base of the memory
abbrev pub zero_status : (base : ℕ) → McStatus
zero_status base = record {
  target = 0;
  used = 0;
  quiesce = 0;
  gets = 0;
  sets = 0;
  alloc = 0;
  free = 0;
  confict = 0;
  evict = 0;
  base = base;
}

module _ {L : Type 0} where
  -- The node before its memory is handed over: an empty ring and an empty table
  abbrev pub cleared : (base : ℕ) → (ℕ → Object) → (l : L) → (ticks : ℕ) → Node L
  cleared base objs l ticks = record {
    status = zero_status base;
    qsc_list = record { head = 0; tail = 0; ring = λ i. 0 };
    table = λ b. [];
    objs = objs;
    lists = l;
    loading = false;
    ticks = ticks;
  }

  -- `mc_init` of node `curr`; `l` is the state of the slab allocator and of the bitmap, and `addr` the
  -- area that `alloc_pages` gives.
  pub mc_init : Env L → (curr base addr : ℕ) → (ℕ → Object) → L → (ticks : ℕ) → Option (Node L)
  unfolding mem_free_pages mc_status_init
  mc_init env curr base addr objs l ticks =
      mem_free_pages env curr addr init_mem_sz (cleared base objs l ticks)
      >>= (λ n. some (record n { status = mc_status_init n.status init_mem_sz; loading = true }))

  -- With the areas of the nodes one behind the other, on pages, the start ends; the server keeps its
  -- invariant, with an empty ring, may use its area, and is loading.
  pub mc_init-IsServing :
      (env : Env L) (curr base : ℕ) (laws : Laws env curr base) (objs : ℕ → Object) (l : L)
      (ticks : ℕ)
      → base % page_size ≡ 0
      → curr < num_server
      → (n : Node L) × (mc_init env curr base (base + curr * init_mem_sz) objs l ticks ≡ some n)
        × IsServing env curr base laws n []
        × (n.status.target ≡ init_mem_sz)
        × (n.status.used ≡ 0)
        × (n.loading ≡ true)
  unfolding mc_init mem_free_pages mc_status_init IsServing IsQuiescing IsQueue
  mc_init-IsServing env curr base laws objs l ticks aligned lt =
      let on_page : (base + curr * init_mem_sz) % page_size ≡ 0 = omega arith in
      let fits : (base + curr * init_mem_sz - base) / page_size + init_mem_sz / page_size
          < map_max * 32 =
        omega arith in
      (
        _,
        bind_some _ (
            check_then _ (eq→== _ _ on_page)
            ∙ check_then _ laws.server
            ∙ check_then _ (lt→ltb _ _ fits)),
        (
          ((omega arith, omega arith, refl, tt, λ d le small. refl), tt, tt, refl, omega arith),
          λ b. tt,
          λ b. tt,
        ),
        refl,
        refl,
        refl,
      )
