-- ===== src/Layout.antt =====
-- The layout of the shared memory and its free pages: libs/mem/mem_mgr.c and include/mem_mgr.h.
-- Sizes of structs that a C compiler fixes are a parameter, `Sizes`.
pub mod Tables
pub mod Areas
pub mod Pages
mod Tests
use bi_project.Base.{
  ltb, leb, ◌==◌, if◌then◌else◌, Bool-cases, ltb→lt, ltb→le, lt→ltb, le→ltb, leb→le, leb→lt, le→leb,
  ==→eq, ==→ne, eq→==, ne→==, tests, length, length-append, All, All-append, All-mono, has, update,
  update_self, update_ne, ℕ, zero, suc, ◌+◌, ◌-◌, ◌*◌, ◌/◌, ◌%◌, ◌^◌, ◌≤◌, ◌<◌, ◌≡◌, refl, sym, ap,
  ap₂, ◌∙◌, ◌≢◌, ◌↔◌, ◌⊎◌, inl, inr, Bool, true, false, not, ◌&&◌, ◌||◌, Option, none, some, List,
  [], ◌∷◌, ◌++◌, map, append_assoc, append-nil, arith,
}
use bi_project.Base.Run.{◌>>=◌, ◌>>◌, check}
use bi_project.Rpc.Queue.{MsgQueue, msg_queue_struct_init}
use bi_project.Smr.Ring.{QscRing, qsc_ring_struct_init}
use bi_project.Smr.Quiesce.{Parsec, parsec_struct_init}

-- NUM_NODES, NUM_CORE_PER_NODE, PAGE_SIZE, MEM_MGR_OBJ_SZ and MEM_MGR_OBJ_NUM
abbrev pub num_nodes : ℕ
num_nodes = 4

abbrev pub num_core : ℕ
num_core = 18

abbrev pub page_size : ℕ
page_size = 4096

abbrev pub mem_mgr_obj_sz : ℕ
mem_mgr_obj_sz = 1024 * 1024

abbrev pub mem_mgr_obj_num : ℕ
mem_mgr_obj_num = 80 * 1024

-- The sizes of the structs, and of the area of the test objects.
pub record Sizes : Type 0 where
  pub mem_layout : ℕ
  pub msg_queue : ℕ
  pub parsec : ℕ
  pub qsc_ring : ℕ
  pub test_objs : ℕ
  pub free_mem_list : ℕ
  pub rcu_block : ℕ

-- `round_up_to_page`
pub round_up_to_page : ℕ → ℕ
round_up_to_page x = (x + page_size - 1) / page_size * page_size

-- A `struct Per_core_info` that a loop fills, the structs of one kind in the memory, by address, and
-- the next free address.
pub record PerCoreInfo (S : Type 0) : Type 0 where
  pub info : ℕ → ℕ → ℕ
  pub memory : ℕ → S
  pub addr : ℕ

-- The inner loop of the three functions that fill a `struct Per_core_info`: the cores `j` to
-- `j + left` of node `i`. They differ in the struct's size and its initialisation.
pub fill_row : {S : Type 0} → (S → S) → (size i left j : ℕ) → PerCoreInfo S → PerCoreInfo S
fill_row init size i zero j p = p
fill_row init size i (suc left) j p = fill_row init size i left (j + 1) (record {
  info = update p.info i (update (p.info i) j p.addr);
  memory = update p.memory p.addr (init (p.memory p.addr));
  addr = p.addr + size;
})

-- The outer loop over the nodes `i` to `i + left`.
pub fill_table : {S : Type 0} → (S → S) → (size left i : ℕ) → PerCoreInfo S → PerCoreInfo S
unfolding fill_row
fill_table init size zero i p = p
fill_table init size (suc left) i p =
    fill_table init size left (i + 1) (fill_row init size i num_core 0 p)

-- `__init_rpc_rings`, `__init_parsec_times` and `__init_wlogs_rings`
pub init_rpc_rings : Sizes → PerCoreInfo MsgQueue → PerCoreInfo MsgQueue
unfolding fill_table
init_rpc_rings z p = fill_table msg_queue_struct_init z.msg_queue num_nodes 0 p

pub init_parsec_times : Sizes → PerCoreInfo Parsec → PerCoreInfo Parsec
unfolding fill_table
init_parsec_times z p = fill_table (λ x. parsec_struct_init) z.parsec num_nodes 0 p

pub init_wlogs_rings : Sizes → PerCoreInfo QscRing → PerCoreInfo QscRing
unfolding fill_table
init_wlogs_rings z p = fill_table qsc_ring_struct_init z.qsc_ring num_nodes 0 p

-- A `struct Per_node_info` that a loop fills, and the next free address. The loop that
-- `__init_mem_free_lists` and `__init_mem_start_addr` share.
pub addr_loop : (size left i : ℕ) → (ℕ → ℕ) → (addr : ℕ) → (ℕ → ℕ) × ℕ
addr_loop size zero i info addr = (info, addr)
addr_loop size (suc left) i info addr =
    addr_loop size left (i + 1) (update info i addr) (addr + size)

pub init_mem_free_lists : Sizes → (ℕ → ℕ) → ℕ → (ℕ → ℕ) × ℕ
unfolding addr_loop
init_mem_free_lists z info addr = addr_loop z.free_mem_list num_nodes 0 info addr

pub init_mem_start_addr : (ℕ → ℕ) → ℕ → (ℕ → ℕ) × ℕ
unfolding addr_loop
init_mem_start_addr info addr = addr_loop (mem_mgr_obj_sz * mem_mgr_obj_num) num_nodes 0 info addr

-- `__init_quies_rings`, with the rings in the memory by address
pub quies_loop :
    (size left i : ℕ) → (ℕ → ℕ) → (ℕ → QscRing) → (addr : ℕ) → (ℕ → ℕ) × (ℕ → QscRing) × ℕ
quies_loop size zero i info memory addr = (info, memory, addr)
quies_loop size (suc left) i info memory addr =
    quies_loop size left (i + 1) (update info i addr)
      (update memory addr (qsc_ring_struct_init (memory addr))) (addr + size)

pub init_quies_rings : Sizes → (ℕ → ℕ) → (ℕ → QscRing) → ℕ → (ℕ → ℕ) × (ℕ → QscRing) × ℕ
unfolding quies_loop
init_quies_rings z info memory addr = quies_loop z.qsc_ring num_nodes 0 info memory addr

-- The loops of `init_global_memory` over the four servers: the ring tables `i` to `i + left`.
pub rpc_loop :
    Sizes
    → (left i : ℕ) → (ℕ → ℕ → ℕ → ℕ)
    → (ℕ → MsgQueue)
    → (addr : ℕ) → (ℕ → ℕ → ℕ → ℕ) × (ℕ → MsgQueue) × ℕ
unfolding init_rpc_rings
rpc_loop z zero i rings memory addr = (rings, memory, addr)
rpc_loop z (suc left) i rings memory addr =
    let p = init_rpc_rings z (record { info = rings i; memory = memory; addr = addr }) in
    rpc_loop z left (i + 1) (update rings i p.info) p.memory p.addr

-- `struct Mem_layout` (the clock, the barriers, the locks and the magic string apart), with the
-- structs that stand in the areas.
pub record MemLayout : Type 0 where
  pub rpc_area : ℕ
  pub parsec_area : ℕ
  pub quies_area : ℕ
  pub wlog_area : ℕ
  pub test_obj_area : ℕ
  pub mem_list_area : ℕ
  pub rcu_area : ℕ
  pub data_area : ℕ
  pub send_rings : ℕ → ℕ → ℕ → ℕ
  pub recv_rings : ℕ → ℕ → ℕ → ℕ
  pub parsec_times : ℕ → ℕ → ℕ
  pub quies_rings : ℕ → ℕ
  pub wlog_rings : ℕ → ℕ → ℕ
  pub mem_free_lists : ℕ → ℕ
  pub mem_start_addr : ℕ → ℕ
  pub malloc_start_addr : ℕ → ℕ
  pub queues : ℕ → MsgQueue
  pub parsecs : ℕ → Parsec
  pub rings : ℕ → QscRing

-- `init_global_memory`, at `global_memory` and with `malloc_area`: the layout, and the end of the
-- data area. The `memset` zeroes each table first.
pub init_global_memory :
    Sizes
    → (global_memory malloc_area : ℕ) → (ℕ → MsgQueue)
    → (ℕ → Parsec)
    → (ℕ → QscRing)
    → MemLayout × ℕ
unfolding round_up_to_page rpc_loop init_parsec_times init_quies_rings init_wlogs_rings
    init_mem_free_lists init_mem_start_addr
init_global_memory z global_memory malloc_area queues parsecs rings =
    let rpc = round_up_to_page (global_memory + z.mem_layout) in
    let (send, q1, a1) = rpc_loop z num_nodes 0 (λ s n c. 0) queues rpc in
    let (recv, q2, a2) = rpc_loop z num_nodes 0 (λ s n c. 0) q1 a1 in
    let parsec = round_up_to_page a2 in
    let times = init_parsec_times z (record { info = λ n c. 0; memory = parsecs; addr = parsec }) in
    let quies = round_up_to_page times.addr in
    let (quies_info, r1, a3) = init_quies_rings z (λ n. 0) rings quies in
    let wlog = round_up_to_page a3 in
    let logs = init_wlogs_rings z (record { info = λ n c. 0; memory = r1; addr = wlog }) in
    let test_objs = round_up_to_page logs.addr in
    let mem_lists = round_up_to_page (test_objs + z.test_objs) in
    let (lists, a4) = init_mem_free_lists z (λ n. 0) mem_lists in
    let rcu = round_up_to_page a4 in
    let data_start = round_up_to_page (rcu + z.rcu_block) in
    let (starts, a5) = init_mem_start_addr (λ n. 0) data_start in
    (
      record {
        rpc_area = rpc;
        parsec_area = parsec;
        quies_area = quies;
        wlog_area = wlog;
        test_obj_area = test_objs;
        mem_list_area = mem_lists;
        rcu_area = rcu;
        data_area = data_start;
        send_rings = send;
        recv_rings = recv;
        parsec_times = times.info;
        quies_rings = quies_info;
        wlog_rings = logs.info;
        mem_free_lists = lists;
        mem_start_addr = starts;
        malloc_start_addr = (init_mem_start_addr (λ n. 0) malloc_area).0;
        queues = q2;
        parsecs = times.memory;
        rings = logs.memory;
      },
      a5,
    )
