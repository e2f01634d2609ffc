-- ===== src/Layout/Tests.antt =====
-- The layout of libs/mem/mem_mgr.c on concrete sizes.
use bi_project.Base.{
  ◌==◌, if◌then◌else◌, ℕ, ◌+◌, ◌*◌, ◌≤◌, ◌<◌, ◌≡◌, refl, ◌⊎◌, none, some, List, [], ◌∷◌, ◌++◌,
  arith,
}
use bi_project.Rpc.Queue.{MsgQueue}
use bi_project.Smr.Ring.{QscRing}
use bi_project.Smr.Quiesce.{Parsec, parsec_struct_init}
use bi_project.Layout.{
  Sizes, mem_mgr_obj_num, mem_mgr_obj_sz, num_core, num_nodes, init_global_memory,
}
use bi_project.Layout.Pages.{Pages, mem_mgr_init, mem_mgr_alloc, mem_mgr_free}
use bi_project.Layout.Pages.Order.{AreFree, pages_from, pages_queue, mem_mgr_init-pages}
use bi_project.Layout.Areas.{Empty, table, place, global_memory-places}

abbrev sizes : Sizes
sizes = record {
  mem_layout = 12345;
  msg_queue = 3072;
  parsec = 128;
  qsc_ring = 12583168;
  test_objs = 64000;
  free_mem_list = 1966080;
  rcu_block = 9216;
}

abbrev queue : ℕ → MsgQueue
queue a = record { ring = λ i. record { size = 0; use_flag = 1; content = λ b. 0 } }

abbrev stamps : ℕ → Parsec
stamps a = record { time_in = 5; time_out = 5 }

abbrev objects : ℕ → QscRing
objects a = record { head = 3; tail = 4; ring = λ i. record { mh = 0; sz = 0; tsc_free = 0 } }

global_memory-places_example :
    let l = (init_global_memory sizes 4096 999424 queue stamps objects).0 in
    (l.parsec_area + table 128 ≤ l.quies_area)
    × (l.wlog_area + table 12583168 ≤ l.test_obj_area)
    × ((n c : ℕ)
        → n < num_nodes
        → c < num_core
        → (l.parsec_times n c ≡ place l.parsec_area 128 n c)
          × (l.parsecs (l.parsec_times n c) ≡ parsec_struct_init)
          × (l.wlog_rings n c ≡ place l.wlog_area 12583168 n c)
          × Empty (l.rings (l.wlog_rings n c)))
global_memory-places_example =
    global_memory-places sizes 4096 999424 queue stamps objects (omega arith) (omega arith)

-- Page 3 is free.
abbrev pages : Pages
pages = record {
  links = record {
    n = λ x. if x == 0 then 3 else if x == 3 then 0 else x;
    p = λ x. if x == 0 then 3 else if x == 3 then 0 else x;
  };
  addr = λ x. 1048576 * x;
}

abbrev one_page : List ℕ
one_page = 3 ∷ []

pages_queue_example :
    AreFree (mem_mgr_free 5 pages) (one_page ++ (5 ∷ []))
    × ((mem_mgr_alloc mem_mgr_obj_sz pages ≡ none) × (one_page ≡ [])
        ⊎ (x : ℕ) × (rest : List ℕ) × (s' : Pages) × (one_page ≡ x ∷ rest)
          × (mem_mgr_alloc mem_mgr_obj_sz pages ≡ some (x, s'))
          × AreFree s' rest
          × (s'.addr ≡ pages.addr))
pages_queue_example =
    pages_queue pages one_page 5 ((refl, refl, (refl, refl)), (((λ e. omega arith), tt), (tt, tt)))
      ((λ e. omega arith), ((λ e. omega arith), tt))

mem_mgr_init-pages_example :
    AreFree (mem_mgr_init 8192 pages) (pages_from 0 mem_mgr_obj_num)
    × ((k : ℕ)
        → k < mem_mgr_obj_num
        → (mem_mgr_init 8192 pages).addr (k + 1) ≡ 8192 + k * mem_mgr_obj_sz)
mem_mgr_init-pages_example = mem_mgr_init-pages 8192 pages
