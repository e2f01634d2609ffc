-- ===== src/Mc/Tests.antt =====
-- The memcached variants on concrete inputs.
use bi_project.Base.{
  ◌==◌, if◌then◌else◌, Bool-cases, length, ℕ, ◌+◌, ◌-◌, ◌*◌, ◌%◌, ◌<◌, ◌≡◌, refl, ◌⊎◌, inl, inr,
  true, false, ◌&&◌, none, some, [], ◌∷◌, ◌++◌, arith,
}
use bi_project.Mc.Queue.{num_node, msg_num, Meta, McQueue, Pool, msg_enqueue, msg_dequeue, rpc_recv}
use bi_project.Mc.Queue.Fifo.{IsQueue, queued, enqueue_refines, dequeue-takes}
use bi_project.Mc.Queue.Poll.{IsPool, Looks, recv_polls}
use bi_project.Mc.Items.{Bytes, Cache, Alloc, McStatus}
use bi_project.Mc.TwoPhase.{
  McMsg, mc_msg_set, mc_msg_set_ok, mc_msg_prepare, Server, exchange, on_set, on_prepare,
}
use bi_project.Mc.TwoPhase.Commit.{Provides}
use bi_project.Mc.Client.Calls.{full-Room}
use bi_project.Mc.TwoPhase.Replicas.{
  HasRoom, ProperKey, Replica, two_phase_replicates, set-prepare_conflict,
}

-- Two messages around the end of the ring; both ends have read stale positions.
abbrev two_messages : McQueue
two_messages = record {
  head = 7;
  tail = 1;
  ring = λ i. record { size = 128; off = 4096 * i };
  head_seen = 2;
  tail_seen = 0;
}

two_messages-IsQueue : IsQueue two_messages
two_messages-IsQueue = record {
  head_in = omega arith;
  tail_in = omega arith;
  head_seen_in = omega arith;
  tail_seen_in = omega arith;
  sender = omega arith;
  receiver = omega arith;
}

abbrev entry : Meta
entry = record { size = 256; off = 65536 }

enqueue_refines_example :
    IsQueue (msg_enqueue two_messages entry).1
    × (((msg_enqueue two_messages entry).0 ≡ true)
          × (length (queued two_messages) < msg_num - 1)
          × (queued (msg_enqueue two_messages entry).1 ≡ queued two_messages ++ (entry ∷ []))
        ⊎ ((msg_enqueue two_messages entry).0 ≡ false)
          × (length (queued two_messages) ≡ msg_num - 1)
          × (queued (msg_enqueue two_messages entry).1 ≡ queued two_messages))
enqueue_refines_example = enqueue_refines two_messages entry two_messages-IsQueue

dequeue-takes_example :
    IsQueue (msg_dequeue two_messages).1
    × (((msg_dequeue two_messages).0 ≡ none)
          × (queued two_messages ≡ [])
          × (queued (msg_dequeue two_messages).1 ≡ [])
        ⊎ (m : Meta) × ((msg_dequeue two_messages).0 ≡ some m)
          × (queued two_messages ≡ m ∷ queued (msg_dequeue two_messages).1))
dequeue-takes_example = dequeue-takes two_messages two_messages-IsQueue

abbrev empty : McQueue
empty = record {
  head = 3;
  tail = 3;
  ring = λ i. record { size = 0; off = 0 };
  head_seen = 3;
  tail_seen = 3;
}

empty-IsQueue : IsQueue empty
empty-IsQueue = record {
  head_in = omega arith;
  tail_in = omega arith;
  head_seen_in = omega arith;
  tail_seen_in = omega arith;
  sender = omega arith;
  receiver = omega arith;
}

-- Node 0 has messages from node 3 only.
abbrev pool : Pool
pool n m = if (n == 0) && (m == 3) then two_messages else empty

pool-IsPool : IsPool pool
pool-IsPool n m = elim (Bool-cases ((n == 0) && (m == 3))) [
  | inl e ↦ rw e two_messages-IsQueue
  | inr e ↦ rw e empty-IsQueue
]

recv_polls_example :
    IsPool (rpc_recv pool 0).1
    × Looks pool 0 ((0 + 1) % num_node) (num_node - 1) (rpc_recv pool 0).1 (rpc_recv pool 0).0
recv_polls_example = recv_polls pool 0 pool-IsPool (omega arith)

abbrev key : Bytes
key i = 107 + i

abbrev value : Bytes
value i = 200 + i

abbrev counters : McStatus
counters = record { sets = 0; gets = 0; alloc = 0; confict = 0; evict = 0 }

-- A cache without items.
abbrev cache : Cache
cache = record {
  table = λ b. [];
  nbytes = λ a. 0;
  recency = λ a. 0;
  contents = λ a i. 0;
  status = counters;
}

-- The allocator gives out the item at 4096.
abbrev alloc : Alloc
alloc c = (some 4096, c)

abbrev servers : ℕ → Server
servers n = record {
  cur_node = n;
  client_id = 0;
  loading = false;
  running = true;
  log = λ i b. 0;
  cache = cache;
}

alloc-Provides : Provides alloc
alloc-Provides c = (4096, c, refl)

-- A client of node 1 stores the value.
abbrev set_request : McMsg
set_request = record {
  type = mc_msg_set;
  id = 3;
  hv = 77;
  nkey = 16;
  key = key;
  nbytes = 32;
  value = value;
}

proper : ProperKey set_request
proper = (omega arith, omega arith, λ i lt. omega arith)

has_room : (n : ℕ) → HasRoom (servers n) set_request
has_room n = full-Room cache key 16 77 0 (λ b. tt) (omega arith)

two_phase_replicates_example :
    (servers' : ℕ → Server) × (reply : McMsg) × (exchange 6 alloc servers set_request 1 set_request
      ≡ some (servers', 3, reply))
    × (reply.type ≡ mc_msg_set_ok)
    × Replica set_request (servers 1) (servers' 1) 1
    × Replica set_request (servers 0) (servers' 0) 0
two_phase_replicates_example =
    two_phase_replicates alloc servers set_request set_request 1 (omega arith) (refl, (refl, refl))
      (refl, (refl, refl)) alloc-Provides proper (has_room 1) (has_room 0) refl refl

set-prepare_conflict_example :
    (s' : Server) × (on_set (servers 1) set_request
      ≡ some (s', some (0, record set_request { type = mc_msg_prepare; id = 1 })))
    × (on_prepare s' (record set_request { type = mc_msg_prepare; id = 0 }) ≡ none)
set-prepare_conflict_example =
    set-prepare_conflict (servers 1) set_request
      (record set_request { type = mc_msg_prepare; id = 0 }) 1 (refl, (refl, refl)) (omega arith)
      proper refl refl
