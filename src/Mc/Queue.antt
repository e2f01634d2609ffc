-- ===== src/Mc/Queue.antt =====
-- The message rings of mc_code/mp_mc/share/rpc.h, which mc_code/2pc_mc/share/rpc.h has again. A ring has
-- one sender and one receiver, on two nodes without coherent caches: each keeps the position that it
-- last read of the other (`cc_load_int`) and reads the memory again (`non_cc_load_int`) only when
-- that makes the ring look full, or empty. The positions stand in cache lines of their own.
pub mod Fifo
pub mod Poll
use bi_project.Base.{
  ltb, leb, ◌==◌, if◌then◌else◌, Bool-cases, ltb→lt, ltb→le, lt→ltb, le→ltb, leb→le, leb→lt, le→leb,
  ==→eq, ==→ne, eq→==, ne→==, tests, length, length-append, All, All-append, All-mono, has, update,
  update_self, update_ne, ℕ, zero, suc, ◌+◌, ◌-◌, ◌*◌, ◌/◌, ◌%◌, ◌^◌, ◌≤◌, ◌<◌, ◌≡◌, refl, sym, ap,
  ap₂, ◌∙◌, ◌≢◌, ◌↔◌, ◌⊎◌, inl, inr, Bool, true, false, not, ◌&&◌, ◌||◌, Option, none, some, List,
  [], ◌∷◌, ◌++◌, map, append_assoc, append-nil, arith,
}

-- MSG_NUM
abbrev pub msg_num : ℕ
msg_num = 8

-- `struct msg_meta`
pub record Meta : Type 0 where
  pub size : ℕ
  pub off : ℕ

-- `struct msg_queue`, with the head in the sender's cache and the tail in the receiver's.
pub record McQueue : Type 0 where
  pub head : ℕ
  pub tail : ℕ
  pub ring : ℕ → Meta
  pub head_seen : ℕ
  pub tail_seen : ℕ

-- The end of `msg_enqueue`
pub push : McQueue → Meta → McQueue
push q entry = record q { ring = update q.ring q.tail entry; tail = (q.tail + 1) % msg_num }

-- Whether the entry was taken: C returns 0, or -1 for a full ring.
pub msg_enqueue : McQueue → Meta → Bool × McQueue
unfolding push
msg_enqueue q entry =
    let delta = (q.tail + 1) % msg_num in
    let reloaded : McQueue = record q { head_seen = q.head } in
    if delta == q.head_seen
    then (if delta == q.head then (false, reloaded) else (true, push reloaded entry))
    else (true, push q entry)

-- The end of `msg_dequeue`
pub pull : McQueue → Option Meta × McQueue
pull q = (some (q.ring q.head), record q { head = (q.head + 1) % msg_num })

-- `none` is the return of -1 for an empty ring.
pub msg_dequeue : McQueue → Option Meta × McQueue
unfolding pull
msg_dequeue q =
    let reloaded : McQueue = record q { tail_seen = q.tail } in
    if q.head == q.tail_seen
    then (if q.head == q.tail then (none, reloaded) else pull reloaded)
    else pull q

-- A cache line that is dropped, and read again later: the positions become those of the memory.
pub refresh_sender : McQueue → McQueue
refresh_sender q = record q { head_seen = q.head }

pub refresh_receiver : McQueue → McQueue
refresh_receiver q = record q { tail_seen = q.tail }

-- NUM_NODE
abbrev pub num_node : ℕ
num_node = 4

-- `struct msg_pool`: the ring in which node `n` receives from node `m` is `pool n m`.
abbrev pub Pool : Type 0
Pool = ℕ → ℕ → McQueue

abbrev pub set_queue : Pool → (n m : ℕ) → McQueue → Pool
set_queue pool n m q = update pool n (update (pool n) m q)

-- `rpc_send`: the message at offset `off` of the pool. (The delay before it has no effect.)
pub rpc_send : Pool → (caller recv_node size off : ℕ) → Bool × Pool
unfolding msg_enqueue
rpc_send pool caller recv_node size off =
    let (sent, q) = msg_enqueue (pool recv_node caller) (record { size = size; off = off }) in
    (sent, set_queue pool recv_node caller q)

-- `rpc_recv_ext` without spinning: the offset of the message, and `none` for the null pointer
pub rpc_recv_ext : Pool → (caller rcv : ℕ) → Option ℕ × Pool
unfolding msg_dequeue
rpc_recv_ext pool caller rcv =
    let (meta, q) = msg_dequeue (pool caller rcv) in
    (elim meta [ none ↦ none | some m ↦ some m.off ], set_queue pool caller rcv q)

-- The inner loop of `rpc_recv`, from node `i` on. On fuel: `num_node` rounds reach `caller` again.
pub recv_loop : (fuel : ℕ) → Pool → (caller i : ℕ) → Option ℕ × Pool
unfolding rpc_recv_ext
recv_loop zero pool caller i = (none, pool)
recv_loop (suc fuel) pool caller i =
    let (addr, pool') = rpc_recv_ext pool caller i in
    let rest = recv_loop fuel pool' caller ((i + 1) % num_node) in
    if i == caller then (none, pool) else elim addr [ none ↦ rest | some a ↦ (some a, pool') ]

-- One round of the outer loop of `rpc_recv`; with `spin` the caller repeats it until it finds a
-- message.
pub rpc_recv : Pool → (caller : ℕ) → Option ℕ × Pool
unfolding recv_loop
rpc_recv pool caller = recv_loop num_node pool caller ((caller + 1) % num_node)
