-- ===== src/BiMc/Server.antt =====
-- The rounds of `mc_server_start` (mc_code/bi_mc/memcache.c) with the two periodic tasks and the
-- messages, as configured: the memory of a node is not balanced. `kernel_flush` and the measured
-- times are left out, and the assertion that a reply finds room is left to the rings.
pub mod Flush
pub mod Rounds
pub mod Replies
use bi_project.BiMc.{quis_num, num_server, Bytes, Object, QscRing, Env, Node, mem_smr_reclaim}
use bi_project.BiMc.Table.{Chains, assoc_flush_opt}
use bi_project.BiMc.Keys.{mc_set_key_rcv}
use bi_project.Base.{
  ltb, leb, ◌==◌, if◌then◌else◌, Bool-cases, ltb→lt, ltb→le, lt→ltb, le→ltb, leb→le, leb→lt, le→leb,
  ==→eq, ==→ne, eq→==, ne→==, tests, length, length-append, All, All-append, All-mono, has, update,
  update_self, update_ne, ℕ, zero, suc, ◌+◌, ◌-◌, ◌*◌, ◌/◌, ◌%◌, ◌^◌, ◌≤◌, ◌<◌, ◌≡◌, refl, sym, ap,
  ap₂, ◌∙◌, ◌≢◌, ◌↔◌, ◌⊎◌, inl, inr, Bool, true, false, not, ◌&&◌, ◌||◌, Option, none, some, List,
  [], ◌∷◌, ◌++◌, map, append_assoc, append-nil, arith,
}
use bi_project.Base.Run.{◌>>=◌, ◌>>◌, check}

-- MC_HASH_FLUSH_PEROID, MC_MEM_BALANCE_PEROID
abbrev pub hash_flush_period : ℕ
hash_flush_period = 90000000

abbrev pub mem_balance_period : ℕ
mem_balance_period = 10000000

-- `mc_message_t`
pub data McMessage : Type 0 where
  mc_msg_get mc_msg_set mc_msg_get_ok mc_msg_get_fail mc_msg_set_ok mc_msg_set_fail : McMessage
  mc_mem_req mc_mem_reply mc_begin mc_exit : McMessage

-- `struct mc_msg`, with the bytes that its pointers lead to
pub record McMsg : Type 0 where
  pub type : McMessage
  pub id : ℕ
  pub nkey : ℕ
  pub nbytes : ℕ
  pub hv : ℕ
  pub key : Bytes
  pub value : Bytes

-- The loop of `qsc_ring_flush` from slot `i`: each object that it flushes, with the objects of its
-- bucket that it flushes too. On fuel; `none` means that the fuel ran out.
pub flush_loop : (ℕ → Object) → Chains → (fuel i : ℕ) → QscRing → Option (List (ℕ × List ℕ))
flush_loop objs table zero i ql = none
flush_loop objs table (suc fuel) i ql =
    let rest = flush_loop objs table fuel ((i + 1) % quis_num) ql in
    let s = ql.ring i in
    if i == ql.tail
    then some []
    else if s == 0
    then rest
    else (rest >>= (λ f. some ((s, assoc_flush_opt table ((objs s).hv) s) ∷ f)))

pub qsc_ring_flush : (ℕ → Object) → Chains → QscRing → Option (List (ℕ × List ℕ))
unfolding flush_loop
qsc_ring_flush objs table ql = flush_loop objs table quis_num ql.head ql

-- The length of a ring, as `mc_hashtbl_flush` counts it
pub ring_length : QscRing → ℕ
ring_length ql = (quis_num + ql.tail - ql.head) % quis_num

-- `mc_hashtbl_flush` of the rings of the two nodes: the number of objects, and what it flushes
pub mc_hashtbl_flush :
    (ℕ → Object) → Chains → (first second : QscRing) → Option (ℕ × List (ℕ × List ℕ))
unfolding ring_length qsc_ring_flush
mc_hashtbl_flush objs table first second = qsc_ring_flush objs table first >>= (λ f.
    qsc_ring_flush objs table second
    >>= (λ f'. some (ring_length first + ring_length second, f ++ f')))

-- The variables of the loop; `e` is whether it goes on, `num` is `no`, and `db` counts the flushes.
pub record Loop (L : Type 0) : Type 0 where
  pub node : Node L
  pub prev0 : ℕ
  pub prev1 : ℕ
  pub e : Bool
  pub num : ℕ
  pub db : ℕ

-- A variable that is still 0 takes the time.
abbrev pub since : (prev curr : ℕ) → ℕ
since prev curr = if prev == 0 then curr else prev

-- The message that `mc_set_key_ext` sends
unfoldable pub set_request :
    (caller : ℕ) → (key : Bytes) → (nkey : ℕ) → (value : Bytes) → (nbytes hv : ℕ) → McMsg
set_request caller key nkey value nbytes hv = record {
  type = mc_msg_set;
  id = caller;
  nkey = nkey;
  nbytes = nbytes;
  hv = hv;
  key = key;
  value = value;
}

abbrev pub is_set_ok : McMessage → Bool
is_set_ok mc_msg_set_ok = true
is_set_ok _ = false

-- The assertions of `mc_set_key_ext` on the reply
unfoldable pub set_returns : (node : ℕ) → McMsg → Option (Unit {0})
set_returns node ret = check (ret.id == node) >> check (is_set_ok ret.type)

module _ {L : Type 0} where
  -- The first task, at the time `curr`; `other` is the ring of the other node.
  unfoldable pub flush_task : Env L → (cur curr : ℕ) → (other : QscRing) → Loop L → Option (Loop L)
  unfolding mem_smr_reclaim mc_hashtbl_flush
  flush_task env cur curr other s =
      let prev = since s.prev0 curr in
      if ltb hash_flush_period (curr - prev)
      then (mem_smr_reclaim env cur s.node >>= (λ r.
          mc_hashtbl_flush r.1.objs r.1.table r.1.qsc_list other >>= (λ f.
            some (record s { node = r.1; prev0 = curr; num = s.num + f.0; db = s.db + 1 }))))
      else some (record s { prev0 = prev })

  -- The end of `mc_server_start`: it divides by `db` and by `no`, and `none` is a division by 0.
  unfoldable pub server_end : Loop L → Option (Unit {0})
  server_end s = check (not (s.db == 0)) >> check (not (s.num == 0))

  -- The second task; `mc_mem_balance` returns at once.
  unfoldable pub balance_task : Env L → (cur curr : ℕ) → Loop L → Option (Loop L)
  unfolding mem_smr_reclaim
  balance_task env cur curr s =
      let prev = since s.prev1 curr in
      if ltb mem_balance_period (curr - prev)
      then (mem_smr_reclaim env cur s.node >>= (λ r. some (record s { node = r.1; prev1 = curr })))
      else some (record s { prev1 = prev })

  -- The cases of the messages; the second component is the reply and its receiver. `mc_mem_sent` and
  -- `mc_mem_recv` stop at once.
  unfoldable pub on_set :
      Env L → (cur : ℕ) → McMsg → (ret : McMsg) → Loop L → Option (Loop L × Option (ℕ × McMsg))
  unfolding mc_set_key_rcv
  on_set env cur rcv ret s =
      check (leb num_server rcv.id)
      >> (mc_set_key_rcv env cur rcv.key rcv.nkey rcv.value rcv.nbytes rcv.hv s.node >>= (λ r.
          check (r.0)
          >> some (
            record s { node = r.1 },
            some (rcv.id, record ret { id = cur; type = mc_msg_set_ok }),
          )))

  unfoldable pub handle :
      Env L → (cur : ℕ) → McMsg → (ret : McMsg) → Loop L → Option (Loop L × Option (ℕ × McMsg))
  unfolding on_set
  handle env cur rcv ret s = elim rcv.type [
    | mc_msg_set ↦ on_set env cur rcv ret s
    | mc_mem_req ↦ check (rcv.id == 1 - cur) >> none
    | mc_mem_reply ↦ check (rcv.id == 1 - cur) >> none
    | mc_exit ↦ check (leb num_server rcv.id) >> some (record s { e = false }, none)
    | mc_msg_get ↦ none
    | _ ↦ some (s, none)
  ]

  -- `rpc_recv` may find no message.
  unfoldable pub receive :
      Env L
      → (cur : ℕ) → Option McMsg
      → (ret : McMsg) → Loop L
      → Option (Loop L × Option (ℕ × McMsg))
  unfolding handle
  receive env cur none ret s = some (s, none)
  receive env cur (some rcv) ret s = handle env cur rcv ret s

  -- One round of the loop of `mc_server_start`
  unfoldable pub round :
      Env L
      → (cur : ℕ) → (other : QscRing) → Option McMsg
      → (ret : McMsg) → Loop L
      → Option (Loop L × Option (ℕ × McMsg))
  unfolding flush_task balance_task receive
  round env cur other rcv ret s =
      let curr = env.tsc s.node.ticks in
      flush_task env cur curr other
        (record s { node = record (s.node) { ticks = s.node.ticks + 1 } })
      >>= (λ s1. balance_task env cur curr s1 >>= (λ s2. receive env cur rcv ret s2))
