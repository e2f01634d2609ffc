-- ===== src/Layout/Areas.antt =====
-- The areas that `init_global_memory` of libs/mem/mem_mgr.c lays out.
use bi_project.Base.{ℕ, ◌+◌, ◌*◌, ◌≤◌, ◌<◌, ◌≡◌, refl, [], arith}
use bi_project.Rpc.Queue.{MsgQueue}
use bi_project.Smr.Ring.{QscRing, qsc_ring_struct_init}
use bi_project.Smr.Ring.Fifo.{IsRing, contents, struct_init-empty}
use bi_project.Smr.Quiesce.{Parsec, parsec_struct_init}
use bi_project.Layout.{
  Sizes, PerCoreInfo, num_core, num_nodes, init_parsec_times, init_wlogs_rings, init_quies_rings,
  round_up_to_page, init_global_memory,
}
use bi_project.Layout.Tables.{fill_table-places}

round_up-le : (x : ℕ) → x ≤ round_up_to_page x
unfolding round_up_to_page
round_up-le x = omega arith

-- A ring of objects with nothing in it.
abbrev pub Empty : QscRing → Type 0
Empty q = IsRing q × (contents q ≡ [])

-- The size of a table of structs of `size` bytes.
abbrev pub table : ℕ → ℕ
table size = num_nodes * (num_core * size)

-- The place of the struct for core `c` of node `n` in the table at `area`.
abbrev pub place : (area size n c : ℕ) → ℕ
place area size n c = area + n * (num_core * size) + c * size

parsec_places :
    (z : Sizes) (p : PerCoreInfo Parsec)
    → 0 < z.parsec
    → let q = init_parsec_times z p in
      (q.addr ≡ p.addr + table z.parsec)
      × ((n c : ℕ)
          → n < num_nodes
          → c < num_core
          → (q.info n c ≡ place p.addr z.parsec n c) × (q.memory (q.info n c) ≡ parsec_struct_init))
unfolding init_parsec_times
parsec_places z p pos =
    fill_table-places (λ x. parsec_struct_init) (λ x. x ≡ parsec_struct_init) (λ x. refl) z.parsec
      pos p

wlog_places :
    (z : Sizes) (p : PerCoreInfo QscRing)
    → 0 < z.qsc_ring
    → let q = init_wlogs_rings z p in
      (q.addr ≡ p.addr + table z.qsc_ring)
      × ((n c : ℕ)
          → n < num_nodes
          → c < num_core
          → (q.info n c ≡ place p.addr z.qsc_ring n c) × Empty (q.memory (q.info n c)))
unfolding init_wlogs_rings
wlog_places z p pos =
    fill_table-places qsc_ring_struct_init Empty struct_init-empty z.qsc_ring pos p

-- With structs of a positive size, `init_global_memory` gives each core of each node its own place
-- for its time stamps and its log, in areas that end before the next ones start; the time stamps
-- are those of a reader outside and the logs are empty.
pub global_memory-places :
    (z : Sizes) (global_memory malloc_area : ℕ) (queues : ℕ → MsgQueue) (parsecs : ℕ → Parsec)
    (rings : ℕ → QscRing)
    → 0 < z.parsec
    → 0 < z.qsc_ring
    → let l = (init_global_memory z global_memory malloc_area queues parsecs rings).0 in
      (l.parsec_area + table z.parsec ≤ l.quies_area)
      × (l.wlog_area + table z.qsc_ring ≤ l.test_obj_area)
      × ((n c : ℕ)
          → n < num_nodes
          → c < num_core
          → (l.parsec_times n c ≡ place l.parsec_area z.parsec n c)
            × (l.parsecs (l.parsec_times n c) ≡ parsec_struct_init)
            × (l.wlog_rings n c ≡ place l.wlog_area z.qsc_ring n c)
            × Empty (l.rings (l.wlog_rings n c)))
unfolding init_global_memory
global_memory-places z global_memory malloc_area queues parsecs rings pos_p pos_q =
    let l = (init_global_memory z global_memory malloc_area queues parsecs rings).0 in
    let (end_t, t) =
      parsec_places z (record { info = λ n c. 0; memory = parsecs; addr = l.parsec_area }) pos_p in
    let r1 = (init_quies_rings z (λ n. 0) rings l.quies_area).1 in
    let (end_w, w) =
      wlog_places z (record { info = λ n c. 0; memory = r1; addr = l.wlog_area }) pos_q in
    (
      rw end_t (round_up-le (l.parsec_area + table z.parsec)),
      rw end_w (round_up-le (l.wlog_area + table z.qsc_ring)),
      λ n c in_n in_c.
          let (at, made) = t n c in_n in_c in
          let (at_w, made_w) = w n c in_n in_c in (at, made, at_w, made_w),
    )
