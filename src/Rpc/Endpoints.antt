-- ===== src/Rpc/Endpoints.antt =====
-- The two ends of a channel of libs/rpc/rpc.c meet in one ring.
use bi_project.Base.{
  lt→ltb, eq→==, length, update, ℕ, zero, suc, ◌+◌, ◌<◌, ◌≡◌, refl, sym, ap, ◌∙◌, some, List, [],
  ◌∷◌, arith,
}
use bi_project.Rpc.{Rings, Process, rpc_send, rpc_recv_server, advance_recv_id, put}
use bi_project.Rpc.Queue.{max_msg_size, Bytes, rpc_send_ext}
use bi_project.Rpc.Queue.Fifo.{Carries, bytes, send-appends, poll-delivers}

length-bytes : (b : Bytes) (i n : ℕ) → length (bytes b i n) ≡ n
length-bytes b i zero = refl
length-bytes b i (suc n) = ap suc (length-bytes b (i + 1) n)

first_of_list : {A : Type 0} → A → List A → A
first_of_list a [] = a
first_of_list a (x ∷ xs) = x

-- Two messages that are equal as lists of bytes have the same size.
sizes_of_message :
    (b b' : Bytes) (n n' : ℕ)
    → ◌≡◌ {A = List (List ℕ)} (bytes b 0 n ∷ []) (bytes b' 0 n' ∷ [])
    → (n ≡ n') × (bytes b 0 n ≡ bytes b' 0 n')
unfolding first_of_list
sizes_of_message b b' n n' e =
    let same : bytes b 0 n ≡ bytes b' 0 n' = ap (first_of_list []) e in
    (omega (arith, ap length same, length-bytes b 0 n, length-bytes b' 0 n'), same)

-- A message of a proper size that a client core sends to a server, with none under way, is the one
-- the server receives when it next polls that core: same bytes and size, and the sender is named.
pub send-recv_server :
    (g : Rings) (client server : Process) (core nn nc : ℕ) (buf buf' : Bytes) (size : ℕ)
    → Carries
        (g.send_rings server.node_id client.node_id core)
        (client.snt_pos.head server.node_id core)
        (server.snt_pos.tail client.node_id core)
        0
    → 0 < size
    → size < max_msg_size
    → let polling = record server { svr_node = client.node_id; svr_core = core } in
      (g1 : Rings) × (client' : Process) × (g2 : Rings) × (server' : Process) × (got : Bytes)
      × (rpc_send g client core server.node_id buf size ≡ some (g1, client'))
      × (rpc_recv_server nn nc g1 polling buf'
          ≡ some (size, got, client.node_id, core, g2, server'))
      × (bytes got 0 size ≡ bytes buf 0 size)
unfolding rpc_send rpc_recv_server
send-recv_server g client server core nn nc buf buf' size c pos small =
    let me = server.node_id in
    let from = client.node_id in
    let snt = client.snt_pos.head me core in
    let rcv = server.snt_pos.tail from core in
    let q = g.send_rings me from core in
    let sent = rpc_send_ext q snt buf size in
    let (carried, msgs) = send-appends q snt rcv 0 buf size c (omega arith) pos small in
    let (r, done, _, took) = poll-delivers (λ k q. q) 0 sent.0 sent.1 rcv 1 buf' carried in
    let (oldest, _) = took 0 refl in
    let (same_size, same) = sizes_of_message r.buf buf r.ret_sz size (oldest ∙ msgs) in
    let g1 : Rings = record g {
      send_rings = update g.send_rings me (put (g.send_rings me) from core sent.0);
    } in
    let server1 : Process = record server {
      svr_node = from;
      svr_core = core;
      snt_pos = record (server.snt_pos) { tail = put server.snt_pos.tail from core r.pos };
    } in
    (
      g1,
      record client {
        snt_pos = record (client.snt_pos) { head = put client.snt_pos.head me core sent.1 };
      },
      record g1 { send_rings = update g1.send_rings me (put (g1.send_rings me) from core r.queue) },
      advance_recv_id nn nc server1,
      r.buf,
      rw (lt→ltb size max_msg_size small),
      rw (eq→== me me refl, eq→== from from refl, eq→== core core refl, done) (rw same_size),
      ap (bytes r.buf 0) (sym same_size) ∙ same,
    )
