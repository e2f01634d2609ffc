-- ===== src/Lib.antt =====
-- BI: bounded-incoherence memory reclamation, a tree, message rings and an allocator for machines
-- whose nodes share memory without coherent caches.
--
-- The parts and their files.
--
-- - Smr: libs/bi/bi_smr.c with include/bi_smr.h. A writer hands freed objects (`bi_smr_free`) and
--   modified ranges (`bi_wlog_free`) to a local cache (Smr/LocalCache: `struct qsc_local_cache`),
--   which moves them in batches into a ring in shared memory (Smr/Ring: `struct bi_qsc_ring`).
--   Readers enter and leave the library (Smr/Quiesce: `bi_enter`, `bi_exit`), and `bi_quiesce`
--   computes from their time stamps up to which time a freed object is out of use. `bi_smr_reclaim`
--   and `bi_wlog_reclaim` (Smr/Reclaim) take the old items from a ring; `bi_smr_flush` and
--   `bi_wlog_flush` (Smr/Flush) flush the items of all rings from a reader's cache. The theorems
--   stand in Smr/Ring/Fifo, Smr/LocalCache/Batches, Smr/Quiesce/Bounds, Smr/Quiesce/Sections,
--   Smr/Reclaim/Expired and Smr/Flush/Complete; Smr/Rounds has the order in which the loops visit
--   the nodes. Smr/Timeline runs the readers, the servers of the nodes and the writer together, as
--   a step relation.
-- - Tree: rb_tree/cbtree.c and rb_tree/cbtree.h, the weight-balanced tree that is updated under
--   readers. Tree has the operations, under the C names in small letters (`mk_balanced` is
--   `mkBalanced`); Tree/Nodes the nodes and the state they thread: allocations, nodes given up and
--   published pointers; Tree/Spec and Tree/Items what a tree stands for; Tree/Rotate, Tree/Balance,
--   Tree/Insert, Tree/Delete and Tree/Find the proofs.
-- - Rpc: libs/rpc/rpc.c, include/rpc.h and the ring selectors of include/mem_mgr.h. Rpc/Queue has
--   one message ring, Rpc the four calls and the polling of a server; Rpc/Queue/Fifo, Rpc/Endpoints
--   and Rpc/Polling the proofs.
-- - Malloc: libs/mem/bi_malloc.c. Malloc has the operations, Malloc/Classes and Malloc/Reuse the
--   proofs.
-- - Layout: libs/mem/mem_mgr.c and include/mem_mgr.h, where the shared structs stand. Layout/Tables
--   has the loops over nodes and cores, Layout/Areas the areas; Layout/Pages is the free list of
--   pages, Layout/Pages/Order its proofs.
-- - Slab: libs/bi/bi_slab.c with include/bi_slab.h, on the ring lists of include/ps_list.h
--   (Slab/RingList, and Slab/RingList/Chains for lists of any length). A reclamation hands its
--   objects back to it. Slab/Reuse has the proofs.
-- - Assoc: mc_code/mp_mc/servers/assoc.c and the calls of items.c beside it that link items; the
--   theorems are in Assoc/Lookup.
-- - Startup: `bi_server_run` of libs/bi/bi_init.c. Startup has the barrier at which the nodes wait
--   for each other, Startup/Loop the rounds of the servers, which put Smr/Timeline, Smr/Flush and
--   Smr/Reclaim together. The proofs are in Startup/Barrier, Startup/Barrier/Turns,
--   Startup/Barrier/Fair and Startup/Loop/Timely.
-- - Mc: the memcached variants below mc_code. Mc/Queue is the message rings of mp_mc/share/rpc.h,
--   the same in 2pc_mc, with the positions that lie stale in the caches of the two ends. Mc/Items
--   is mp_mc/servers/items.c with `mc_set_key_ext` and `mc_get_key_ext` of server.c, Mc/Server the
--   rounds of its `event_loop`, Mc/Client the two requests of mp_mc/clients/client.c. Mc/TwoPhase
--   is 2pc_mc/servers/server.c: the log of prepared updates, the rounds of a server and the
--   exchange between the two. The theorems are in Mc/Queue/Fifo, Mc/Queue/Poll, Mc/Items/Kept,
--   Mc/Items/Uniform, Mc/Server/Requests, Mc/Client/Calls, Mc/TwoPhase/Commit and
--   Mc/TwoPhase/Replicas.
-- - BiMc: memcached on the library, mc_code/bi_mc, as configured. BiMc has the quiescence ring of
--   memcache.c, its reclamation and the pages; BiMc/Table is assoc.c, BiMc/Items items.c,
--   BiMc/Memory the eviction and the allocation, BiMc/Keys `mc_set_key_rcv` and `mc_get_key_ext`,
--   BiMc/Server the rounds of `mc_server_start`, BiMc/Client the calls of a client and BiMc/Start
--   the start of a node. What other projects give (the slab library, the bitmap, the clock) is the
--   record `Env`, and BiMc/Laws is what is relied on. A reader has its own view of the table until
--   it flushes. The proofs are in BiMc/Evict, in the modules below BiMc/Ring (the queue), BiMc/Table
--   (the chains), BiMc/Keys (BiMc/Keys/Serving is the invariant) and BiMc/Server, and beside the
--   definitions of BiMc/Client and BiMc/Start.
-- - Base: Boolean tests, lists, arrays as functions, and runs that an assertion may stop (`none`).
--
-- Numbers. Unsigned arithmetic of 64 bits that can wrap is written with its modulus; `int` indices
-- stay below the sizes of their arrays. Addresses are numbers, and an array is a function of its
-- index. A failed `assert`, a null dereference, a division by 0 and a write beyond the end of an item
-- are `none`. The sizes of the items, of MC_SLAB_OBJ_SZ = 94 bytes, are those with pointers of 32 bits,
-- with which the fixed key and value just fit.
--
-- Fuel. `reclaim_loop` and `flush_loop` get MAX_QUI_RING_LEN, one more than a ring can hold, and
-- the theorems on them state that this is enough. `index_loop` gets 64: a word is 0 after 64
-- shifts. `recv_loop` takes its fuel as a parameter: a receive that spins ends only when a message
-- comes, and the parameter `env` is what the sender does before each round. `exchange` gets 6: five
-- rounds of the servers and the end. A poll of Mc/Queue has one round for each node. In
-- BiMc the reclamation and the flush get QUIS_NUM, one more than the ring can hold, and an eviction
-- the number of pages that it is to free.
--
-- Not modelled: cache write-backs, invalidations, fences and prefetches, which change no value
-- (each operation reads what the memory holds, but for the stale positions of Mc/Queue and the
-- copied time stamps of Smr/Timeline); the code that prints; locks and the barriers of
-- initialisation; the rest of the start-up code and RCU; in a round of a server the refresh of
-- the shared clock (all nodes read one) and the callbacks; of the memcached variants in Mc the
-- start-up and the eviction that makes room (the slab allocator there is another project's, and
-- a parameter), in BiMc the balance of memory between the nodes, which is compiled out, that the
-- flush of a bucket reaches only the lines of its links (a reader that flushed reads the
-- memory), the two pages that messages of 2pc_mc alternate between, and the loops of the clients
-- over a trace; tests and benchmarks. The tree's update of a node in place is one step: what a
-- reader sees in the middle of it is not modelled, nor does `TreeBB_Find` meet a stale cache
-- line. The allocator is modelled for callers that hold the lock of their list.
pub mod Base
pub mod Smr
pub mod Tree
pub mod Rpc
pub mod Malloc
pub mod Layout
pub mod Slab
pub mod Assoc
pub mod Mc
pub mod Startup
pub mod BiMc
