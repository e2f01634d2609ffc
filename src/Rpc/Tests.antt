-- ===== src/Rpc/Tests.antt =====
-- The message rings of libs/rpc/rpc.c on concrete inputs.
use bi_project.Base.{
  ltb, ◌==◌, if◌then◌else◌, eq→==, ne→==, ℕ, zero, suc, ◌+◌, ◌%◌, ◌<◌, ◌≡◌, refl, ◌≢◌, true, some,
  [], ◌∷◌, ◌++◌, arith,
}
use bi_project.Rpc.Queue.{Bytes, MsgNode, MsgQueue, msg_num, rpc_send_ext, Received, rpc_recv_ext}
use bi_project.Rpc.Queue.Fifo.{
  Carries, bytes, messages, waited, send-appends, spin-delivers, send-overruns,
}
use bi_project.Rpc.{Rings, LocalPos, Process, rpc_send, rpc_recv_server}
use bi_project.Rpc.Endpoints.{send-recv_server}

abbrev hello : Bytes
hello i = 104 + i

abbrev blank : Bytes
blank i = 0

abbrev idle_node : MsgNode
idle_node = record { size = 0; use_flag = 0; content = blank }

abbrev hello_node : MsgNode
hello_node = record { size = 5; use_flag = 1; content = hello }

-- No message, and one message in slot 7 that goes to a receiver at position 7.
abbrev idle_queue : MsgQueue
idle_queue = record { ring = λ i. idle_node }

abbrev hello_queue : MsgQueue
hello_queue = record { ring = λ i. if i == 7 then hello_node else idle_node }

abbrev full_queue : MsgQueue
full_queue = record { ring = λ i. hello_node }

idle_queue-Carries : Carries idle_queue 0 0 0
idle_queue-Carries = record {
  fits = omega arith;
  sender = refl;
  full = λ k lt. elim lt [ ];
  free = λ k le lt. refl;
}

hello_queue-Carries : Carries hello_queue 0 7 1
hello_queue-Carries = record {
  fits = omega arith;
  sender = refl;
  full = λ k lt.
      let first : (7 + k) % msg_num ≡ 7 = omega arith in
      rw (eq→== _ _ first) (refl, omega arith, omega arith);
  free =
      λ k le lt. let other : (7 + k) % msg_num ≢ 7 = λ e. omega arith in rw (ne→== _ _ other) refl;
}

full_queue-Carries : Carries full_queue 3 3 8
full_queue-Carries = record {
  fits = omega arith;
  sender = refl;
  full = λ k lt. (refl, omega arith, omega arith);
  free = λ k le lt. absurd (omega arith);
}

-- The sender's message arrives in the third round.
abbrev late : ℕ → MsgQueue → MsgQueue
late k q = if ltb k 2 then q else hello_queue

send-appends_example :
    Carries (rpc_send_ext hello_queue 0 hello 9).0 (rpc_send_ext hello_queue 0 hello 9).1 7 2
    × (messages (rpc_send_ext hello_queue 0 hello 9).0.ring 7 2
        ≡ messages hello_queue.ring 7 1 ++ (bytes hello 0 9 ∷ []))
send-appends_example =
    send-appends hello_queue 0 7 1 hello 9 hello_queue-Carries (omega arith) (omega arith)
      (omega arith)

late_quiet : (i : ℕ) → i < 2 → ((waited late 0 (suc i) idle_queue).ring (7 % msg_num)).use_flag ≡ 0
late_quiet zero lt = refl
late_quiet (suc zero) lt = refl
late_quiet (suc (suc i)) lt = absurd (omega arith)

spin-delivers_example :
    (r : Received) × (rpc_recv_ext 3 late idle_queue 7 blank true ≡ some r)
    × (bytes r.buf 0 r.ret_sz ∷ messages r.queue.ring r.pos 0
        ≡ messages (waited late 0 3 idle_queue).ring 7 1)
    × Carries r.queue 0 r.pos 0
spin-delivers_example =
    spin-delivers late 2 3 idle_queue 0 7 0 blank (omega arith) late_quiet hello_queue-Carries

send-overruns_example :
    messages (rpc_send_ext full_queue 3 hello 9).0.ring 3 msg_num
    ≡ bytes hello 0 9 ∷ messages full_queue.ring 4 7
send-overruns_example = send-overruns full_queue 3 3 hello 9 full_queue-Carries

abbrev rings : Rings
rings = record { send_rings = λ s n c. idle_queue; recv_rings = λ s n c. idle_queue }

abbrev at_zero : LocalPos
at_zero = record { head = λ n c. 0; tail = λ n c. 0 }

abbrev process : ℕ → Process
process n = record { node_id = n; snt_pos = at_zero; rcv_pos = at_zero; svr_node = 1; svr_core = 3 }

send-recv_server_example :
    let polling = record (process 0) { svr_node = 1; svr_core = 3 } in
    (g1 : Rings) × (client' : Process) × (g2 : Rings) × (server' : Process) × (got : Bytes)
    × (rpc_send rings (process 1) 3 0 hello 5 ≡ some (g1, client'))
    × (rpc_recv_server 2 4 g1 polling blank ≡ some (5, got, 1, 3, g2, server'))
    × (bytes got 0 5 ≡ bytes hello 0 5)
send-recv_server_example =
    send-recv_server rings (process 1) (process 0) 3 2 4 hello blank 5 idle_queue-Carries
      (omega arith) (omega arith)
