-- ===== src/Rpc.antt =====
-- The calls of libs/rpc/rpc.c: which ring and which position each takes, and the order in which a
-- server polls its clients.
pub mod Queue
pub mod Endpoints
pub mod Polling
mod Tests
use bi_project.Base.{
  ltb, leb, ◌==◌, if◌then◌else◌, Bool-cases, ltb→lt, ltb→le, lt→ltb, le→ltb, leb→le, leb→lt, ==→eq,
  ==→ne, eq→==, ne→==, tests, length, length-append, All, All-append, All-mono, has, update,
  update_self, update_ne, ℕ, zero, suc, ◌+◌, ◌-◌, ◌*◌, ◌/◌, ◌%◌, ◌^◌, ◌≤◌, ◌<◌, ◌≡◌, refl, sym, ap,
  ap₂, ◌∙◌, ◌≢◌, ◌↔◌, ◌⊎◌, inl, inr, Bool, true, false, not, ◌&&◌, ◌||◌, Option, none, some, List,
  [], ◌∷◌, ◌++◌, map, append_assoc, append-nil, arith,
}
use bi_project.Base.Run.{◌>>=◌, ◌>>◌, check}
use bi_project.Rpc.Queue.{max_msg_size, Bytes, MsgQueue, rpc_send_ext, Received, rpc_recv_ext}

-- An array `[NUM_NODES][NUM_CORE_PER_NODE]`
abbrev pub PerCore : Type 0 → Type 0
PerCore A = ℕ → ℕ → A

abbrev pub put : {A : Type 0} → PerCore A → (n c : ℕ) → A → PerCore A
put f n c v = update f n (update (f n) c v)

-- The rings in `struct Mem_layout`: for each server node, one for each client core.
pub record Rings : Type 0 where
  pub send_rings : ℕ → PerCore MsgQueue
  pub recv_rings : ℕ → PerCore MsgQueue

-- `struct local_pos`
pub record LocalPos : Type 0 where
  pub head : PerCore ℕ
  pub tail : PerCore ℕ

-- What a process keeps: its node, the positions and the client that it polls next.
pub record Process : Type 0 where
  pub node_id : ℕ
  pub snt_pos : LocalPos
  pub rcv_pos : LocalPos
  pub svr_node : ℕ
  pub svr_core : ℕ

-- `rpc_init_global`
pub rpc_init_global : Process → Process
rpc_init_global p = record p {
  snt_pos = record { head = λ n c. 0; tail = λ n c. 0 };
  rcv_pos = record { head = λ n c. 0; tail = λ n c. 0 };
  svr_node = 0;
  svr_core = 0;
}

-- `get_send_ring`, `get_recv_ring` and their variants for servers, of include/mem_mgr.h, on node `me`
pub get_send_ring : Rings → (me core nid : ℕ) → MsgQueue
get_send_ring g me core nid = g.send_rings nid me core

pub get_recv_ring : Rings → (me core nid : ℕ) → MsgQueue
get_recv_ring g me core nid = g.recv_rings nid me core

pub get_send_ring_server : Rings → (me nid cid : ℕ) → MsgQueue
get_send_ring_server g me nid cid = g.recv_rings me nid cid

pub get_recv_ring_server : Rings → (me nid cid : ℕ) → MsgQueue
get_recv_ring_server g me nid cid = g.send_rings me nid cid

-- `rpc_send` of core `core`, to the server on `node`
pub rpc_send : Rings → Process → (core node : ℕ) → Bytes → (size : ℕ) → Option (Rings × Process)
unfolding get_send_ring
rpc_send g p core node buf size =
    let (q, pos) =
      rpc_send_ext (get_send_ring g p.node_id core node) (p.snt_pos.head node core) buf size in
    check (ltb size max_msg_size)
    >> some (
      record g { send_rings = update g.send_rings node (put (g.send_rings node) p.node_id core q) },
      record p { snt_pos = record (p.snt_pos) { head = put p.snt_pos.head node core pos } },
    )

-- `rpc_recv` of core `core`, from the server on `node`
pub rpc_recv :
    ℕ
    → (env : ℕ → MsgQueue → MsgQueue) → Rings
    → Process
    → (core node : ℕ) → Bytes
    → (spin : Bool) → Option (ℕ × Bytes × Rings × Process)
unfolding get_recv_ring
rpc_recv fuel env g p core node buf spin = do
  r ←
      rpc_recv_ext fuel env (get_recv_ring g p.node_id core node) (p.rcv_pos.tail node core) buf
        spin
  some (
    r.ret_sz,
    r.buf,
    record g {
      recv_rings = update g.recv_rings node (put (g.recv_rings node) p.node_id core r.queue);
    },
    record p { rcv_pos = record (p.rcv_pos) { tail = put p.rcv_pos.tail node core r.pos } },
  )

-- `rpc_send_server`, to core `cid` of node `nid`
pub rpc_send_server :
    Rings → Process → (nid cid : ℕ) → Bytes → (size : ℕ) → Option (Rings × Process)
unfolding get_send_ring_server
rpc_send_server g p nid cid buf size =
    let (q, pos) =
      rpc_send_ext (get_send_ring_server g p.node_id nid cid) (p.rcv_pos.head nid cid) buf size in
    check (ltb size max_msg_size)
    >> some (
      record g {
        recv_rings = update g.recv_rings p.node_id (put (g.recv_rings p.node_id) nid cid q);
      },
      record p { rcv_pos = record (p.rcv_pos) { head = put p.rcv_pos.head nid cid pos } },
    )

-- `__advance_recv_id`, with `nn` nodes and `nc` cores in use. (The flush at the start of each round
-- is a cache operation.)
pub advance_recv_id : (nn nc : ℕ) → Process → Process
advance_recv_id nn nc p =
    if (p.svr_core + 1) % nc == 0
    then record p { svr_core = 0; svr_node = (p.svr_node + 1) % nn }
    else record p { svr_core = p.svr_core + 1 }

-- `rpc_recv_server`: the size, the message, the sender's node and core, and the state. The loop of
-- `rpc_recv_ext` makes one round here.
pub rpc_recv_server :
    (nn nc : ℕ) → Rings → Process → Bytes → Option (ℕ × Bytes × ℕ × ℕ × Rings × Process)
unfolding get_recv_ring_server advance_recv_id
rpc_recv_server nn nc g p buf = do
  r ←
      rpc_recv_ext 1 (λ k q. q) (get_recv_ring_server g p.node_id p.svr_node p.svr_core)
        (p.snt_pos.tail p.svr_node p.svr_core) buf false
  some (
    r.ret_sz,
    r.buf,
    p.svr_node,
    p.svr_core,
    record g {
      send_rings =
          update g.send_rings p.node_id
            (put (g.send_rings p.node_id) p.svr_node p.svr_core r.queue);
    },
    advance_recv_id nn nc (record p {
      snt_pos = record (p.snt_pos) { tail = put p.snt_pos.tail p.svr_node p.svr_core r.pos };
    }),
  )
