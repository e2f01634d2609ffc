-- ===== src/Rpc/Queue.antt =====
-- One message ring between a client core and a server: `struct msg_queue` of include/rpc.h with
-- `rpc_send_ext` and `rpc_recv_ext` of libs/rpc/rpc.c. The write-backs and invalidations make the
-- two sides see one memory; the model has that memory.
pub mod Fifo
use bi_project.Base.{
  ltb, leb, ◌==◌, if◌then◌else◌, Bool-cases, ltb→lt, ltb→le, lt→ltb, le→ltb, leb→le, leb→lt, ==→eq,
  ==→ne, eq→==, ne→==, tests, length, length-append, All, All-append, All-mono, has, update,
  update_self, update_ne, ℕ, zero, suc, ◌+◌, ◌-◌, ◌*◌, ◌/◌, ◌%◌, ◌^◌, ◌≤◌, ◌<◌, ◌≡◌, refl, sym, ap,
  ap₂, ◌∙◌, ◌≢◌, ◌↔◌, ◌⊎◌, inl, inr, Bool, true, false, not, ◌&&◌, ◌||◌, Option, none, some, List,
  [], ◌∷◌, ◌++◌, map, append_assoc, append-nil, arith,
}
use bi_project.Base.Run.{◌>>=◌, ◌>>◌, check}

-- MAX_MSG_SIZE and MSG_NUM
abbrev pub max_msg_size : ℕ
max_msg_size = 256

abbrev pub msg_num : ℕ
msg_num = 8

-- A buffer of bytes.
abbrev pub Bytes : Type 0
Bytes = ℕ → ℕ

-- `memcpy`
abbrev pub memcpy : (dst src : Bytes) → ℕ → Bytes
memcpy dst src n i = if ltb i n then src i else dst i

-- `struct msg_node`; the fields of its `meta` come first.
pub record MsgNode : Type 0 where
  pub size : ℕ
  pub use_flag : ℕ
  pub content : Bytes

-- `struct msg_queue`
pub record MsgQueue : Type 0 where
  pub ring : ℕ → MsgNode

init_loop : (left i : ℕ) → MsgQueue → MsgQueue
init_loop zero i p = p
init_loop (suc left) i p =
    init_loop left (i + 1)
      (record p { ring = update p.ring i (record (p.ring i) { use_flag = 0 }) })

pub msg_queue_struct_init : MsgQueue → MsgQueue
unfolding init_loop
msg_queue_struct_init p = init_loop msg_num 0 p

-- Returns the queue and `*pos`; the C function always returns 0.
pub rpc_send_ext : MsgQueue → (pos : ℕ) → (buf : Bytes) → (size : ℕ) → MsgQueue × ℕ
rpc_send_ext q pos buf size =
    let cur = pos % msg_num in
    let mn = q.ring cur in
    (
      record q {
        ring =
            update q.ring cur
              (record { size = size; use_flag = 1; content = memcpy mn.content buf size });
      },
      cur + 1,
    )

-- What one round of the loop of `rpc_recv_ext` leaves.
pub record Received : Type 0 where
  pub ret_sz : ℕ
  pub queue : MsgQueue
  pub pos : ℕ
  pub buf : Bytes

-- A round at slot `cur`: without a message it changes nothing.
pub recv_round : MsgQueue → (cur pos : ℕ) → Bytes → Received
recv_round q cur pos buf =
    let mn = q.ring cur in
    if mn.use_flag == 0 then record { ret_sz = 0; queue = q; pos = pos; buf = buf } else record {
      ret_sz = mn.size;
      queue = record q { ring = update q.ring cur (record mn { size = 0; use_flag = 0 }) };
      pos = cur + 1;
      buf = memcpy buf mn.content mn.size;
    }

-- The loop of `rpc_recv_ext`. With `spin` it polls until a round returns a message; in between, the
-- sender may change the queue, `env k` before round `k`. On fuel; `none` means that it ran out.
pub recv_loop :
    ℕ
    → (env : ℕ → MsgQueue → MsgQueue) → (k : ℕ) → MsgQueue
    → (cur pos : ℕ) → Bytes
    → (spin : Bool) → Option Received
unfolding recv_round
recv_loop zero env k q cur pos buf spin = none
recv_loop (suc fuel) env k q cur pos buf spin =
    let r = recv_round (env k q) cur pos buf in
    let again = recv_loop fuel env (k + 1) r.queue cur r.pos r.buf spin in
    if (r.ret_sz == 0) && spin then again else some r

-- `rpc_recv_ext`, with the assertion on the size at its end
pub rpc_recv_ext :
    ℕ
    → (env : ℕ → MsgQueue → MsgQueue) → MsgQueue
    → (pos : ℕ) → Bytes
    → (spin : Bool) → Option Received
unfolding recv_loop
rpc_recv_ext fuel env q pos buf spin = do
  r ← recv_loop fuel env 0 q (pos % msg_num) pos buf spin
  check (ltb r.ret_sz max_msg_size)
  some r
