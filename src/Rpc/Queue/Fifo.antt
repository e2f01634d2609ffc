-- ===== src/Rpc/Queue/Fifo.antt =====
-- A message ring of libs/rpc/rpc.c carries its messages in order while at most `msg_num` of them are
-- under way.
use bi_project.Base.{
  ◌==◌, Bool-cases, lt→ltb, ==→eq, ==→ne, eq→==, ne→==, update, update_self, update_ne, ℕ, zero,
  suc, ◌+◌, ◌-◌, ◌%◌, ◌≤◌, ◌<◌, ◌≡◌, refl, ap, ap₂, ◌∙◌, ◌≢◌, inl, inr, true, false, some, List, [],
  ◌∷◌, ◌++◌, arith,
}
use bi_project.Rpc.Queue.{
  init_loop, rpc_recv_ext, msg_queue_struct_init, max_msg_size, msg_num, Bytes, memcpy, MsgNode,
  MsgQueue, rpc_send_ext, Received, recv_round, recv_loop,
}

-- The first `n` bytes from `i` on.
abbrev pub bytes : Bytes → (i n : ℕ) → List ℕ
bytes b i zero = []
bytes b i (suc n) = b i ∷ bytes b (i + 1) n

-- The message that a slot carries.
abbrev pub message : MsgNode → List ℕ
message mn = bytes mn.content 0 mn.size

-- The messages of the `n` slots from `p` on, going round.
abbrev pub messages : (ℕ → MsgNode) → (p n : ℕ) → List (List ℕ)
messages r p zero = []
messages r p (suc n) = message (r (p % msg_num)) ∷ messages r (p + 1) n

-- Of the slots from the receiver's position on, the first `n` carry a message of a proper size and
-- the others none; the sender's position is behind them.
pub record Carries (q : MsgQueue) (snt rcv n : ℕ) : Type 0 where
  pub fits : n ≤ msg_num
  pub sender : snt % msg_num ≡ (rcv + n) % msg_num
  pub full :
      (k : ℕ)
      → k < n
      → let mn = q.ring ((rcv + k) % msg_num) in
        (mn.use_flag ≡ 1) × (0 < mn.size) × (mn.size < max_msg_size)
  pub free : (k : ℕ) → n ≤ k → k < msg_num → (q.ring ((rcv + k) % msg_num)).use_flag ≡ 0

bytes-memcpy :
    (dst src : Bytes) (n i left : ℕ)
    → i + left ≤ n
    → bytes (memcpy dst src n) i left ≡ bytes src i left
bytes-memcpy dst src n i zero le = refl
bytes-memcpy dst src n i (suc left) le =
    rw (lt→ltb i n (omega arith))
      (ap (λ l. src i ∷ l) (bytes-memcpy dst src n (i + 1) left (omega arith)))

messages-cong :
    (r r' : ℕ → MsgNode) (p p' n : ℕ)
    → ((k : ℕ) → k < n → message (r ((p + k) % msg_num)) ≡ message (r' ((p' + k) % msg_num)))
    → messages r p n ≡ messages r' p' n
messages-cong r r' p p' zero same = refl
messages-cong r r' p p' (suc n) same =
    let zero_p : p + 0 ≡ p = omega arith in
    let zero_p' : p' + 0 ≡ p' = omega arith in
    ap₂ ◌∷◌ (rw (zero_p, zero_p') at (same 0 (omega arith)))
      (messages-cong r r' (p + 1) (p' + 1) n later)
  where
    later :
        (k : ℕ)
        → k < n
        → message (r ((p + 1 + k) % msg_num)) ≡ message (r' ((p' + 1 + k) % msg_num))
    later k lt =
        let e : p + suc k ≡ p + 1 + k = omega arith in
        let e' : p' + suc k ≡ p' + 1 + k = omega arith in rw (e, e') at (same (suc k) (omega arith))

messages-snoc :
    (r : ℕ → MsgNode) (p n : ℕ)
    → messages r p (suc n) ≡ messages r p n ++ (message (r ((p + n) % msg_num)) ∷ [])
messages-snoc r p zero =
    let e : p ≡ p + 0 = omega arith in ap (λ k. message (r (k % msg_num)) ∷ []) e
messages-snoc r p (suc n) =
    let e : p + 1 + n ≡ p + suc n = omega arith in
    ap (λ l. message (r (p % msg_num)) ∷ l)
      (messages-snoc r (p + 1) n
        ∙ ap (λ k. messages r (p + 1) n ++ (message (r (k % msg_num)) ∷ [])) e)

-- A message of a proper size that finds room is carried by the ring behind the others, with exactly
-- the bytes sent.
pub send-appends :
    (q : MsgQueue) (snt rcv n : ℕ) (buf : Bytes) (size : ℕ)
    → Carries q snt rcv n
    → n < msg_num
    → 0 < size
    → size < max_msg_size
    → Carries (rpc_send_ext q snt buf size).0 (rpc_send_ext q snt buf size).1 rcv (suc n)
      × (messages (rpc_send_ext q snt buf size).0.ring rcv (suc n)
          ≡ messages q.ring rcv n ++ (bytes buf 0 size ∷ []))
unfolding rpc_send_ext
send-appends q snt rcv n buf size c room pos small = (
  record { fits = omega arith; sender = omega (arith, c.sender); full = full; free = free },
  appended,
)
  where
    new : MsgNode
    new = record {
      size = size;
      use_flag = 1;
      content = memcpy (q.ring (snt % msg_num)).content buf size;
    }

    other :
        (k : ℕ)
        → k < msg_num
        → k ≢ n
        → update q.ring (snt % msg_num) new ((rcv + k) % msg_num) ≡ q.ring ((rcv + k) % msg_num)
    other k lt ne =
        update_ne q.ring (snt % msg_num) ((rcv + k) % msg_num) new (omega (arith, c.sender))

    same : update q.ring (snt % msg_num) new ((rcv + n) % msg_num) ≡ new
    same = rw (← c.sender) (update_self q.ring (snt % msg_num) new)

    full :
        (k : ℕ)
        → k < suc n
        → let mn = update q.ring (snt % msg_num) new ((rcv + k) % msg_num) in
          (mn.use_flag ≡ 1) × (0 < mn.size) × (mn.size < max_msg_size)
    full k lt = elim (Bool-cases (k == n)) [
      | inl e ↦ rw (==→eq k n e, same) (refl, pos, small)
      | inr ne ↦ rw (other k (omega arith) (==→ne k n ne)) (c.full k (omega (arith, ==→ne k n ne)))
    ]

    free :
        (k : ℕ)
        → suc n ≤ k
        → k < msg_num
        → (update q.ring (snt % msg_num) new ((rcv + k) % msg_num)).use_flag ≡ 0
    free k le lt = rw (other k lt (omega arith)) (c.free k (omega arith) lt)

    appended :
        messages (update q.ring (snt % msg_num) new) rcv (suc n)
        ≡ messages q.ring rcv n ++ (bytes buf 0 size ∷ [])
    appended =
        messages-snoc (update q.ring (snt % msg_num) new) rcv n
        ∙ ap₂ (λ l m. l ++ (m ∷ []))
            (messages-cong (update q.ring (snt % msg_num) new) q.ring rcv rcv n
              (λ k lt. rw (other k (omega arith) (omega arith))))
            (rw same (bytes-memcpy (q.ring (snt % msg_num)).content buf size 0 size (omega arith)))

-- What a receive promises of the oldest message: it is the one delivered, with its size, and the
-- others stay.
record Delivers (q : MsgQueue) (snt rcv n : ℕ) (r : Received) : Type 0 where
  pub oldest : bytes r.buf 0 r.ret_sz ∷ messages r.queue.ring r.pos n ≡ messages q.ring rcv (suc n)
  pub carries : Carries r.queue snt r.pos n
  pub positive : 0 < r.ret_sz
  pub bounded : r.ret_sz < max_msg_size

-- A receive of the message at the receiver's slot, seen from the slots behind it.
module _ (q : MsgQueue) (snt rcv n : ℕ) (c : Carries q snt rcv (suc n)) where
  taken_node : MsgNode
  taken_node = record (q.ring (rcv % msg_num)) { size = 0; use_flag = 0 }

  taken : ℕ → MsgNode
  taken = update q.ring (rcv % msg_num) taken_node

  next_slot : (k : ℕ) → (rcv % msg_num + 1 + k) % msg_num ≡ (rcv + suc k) % msg_num
  next_slot k = omega arith

  taken-next :
      (k : ℕ)
      → suc k < msg_num
      → taken ((rcv % msg_num + 1 + k) % msg_num) ≡ q.ring ((rcv + suc k) % msg_num)
  unfolding taken
  taken-next k lt =
      rw (next_slot k)
        (update_ne q.ring (rcv % msg_num) ((rcv + suc k) % msg_num) taken_node (omega arith))

  taken-first : (k : ℕ) → suc k ≡ msg_num → (taken ((rcv % msg_num + 1 + k) % msg_num)).use_flag ≡ 0
  unfolding taken taken_node
  taken-first k e =
      let back : (rcv % msg_num + 1 + k) % msg_num ≡ rcv % msg_num = omega arith in
      rw (back, update_self q.ring (rcv % msg_num) taken_node)

  taken-Carries : Carries (record { ring = taken }) snt (rcv % msg_num + 1) n
  taken-Carries = record {
    fits = omega (arith, c.fits);
    sender = omega (arith, c.sender);
    full = λ k lt. rw (taken-next k (omega (arith, c.fits))) (c.full (suc k) (omega arith));
    free = free;
  }
    where
      free :
          (k : ℕ) → n ≤ k → k < msg_num → (taken ((rcv % msg_num + 1 + k) % msg_num)).use_flag ≡ 0
      free k le lt = elim (Bool-cases (suc k == msg_num)) [
        | inl e ↦ taken-first k (==→eq (suc k) msg_num e)
        | inr ne ↦
            let inside : suc k < msg_num = omega (arith, ==→ne (suc k) msg_num ne) in
            rw (taken-next k inside) (c.free (suc k) (omega arith) inside)
      ]

  taken-messages : messages taken (rcv % msg_num + 1) n ≡ messages q.ring (rcv + 1) n
  taken-messages = messages-cong taken q.ring (rcv % msg_num + 1) (rcv + 1) n λ k lt.
      (let e : rcv + 1 + k ≡ rcv + suc k = omega arith in
        rw (taken-next k (omega (arith, c.fits)), e))

  recv_round-Delivers : (buf : Bytes) → Delivers q snt rcv n (recv_round q (rcv % msg_num) rcv buf)
  unfolding recv_round taken taken_node
  recv_round-Delivers buf =
      let zero_rcv : rcv + 0 ≡ rcv = omega arith in
      let (used, pos, small) = rw zero_rcv at (c.full 0 (omega arith)) in
      let mn = q.ring (rcv % msg_num) in
      rw (ne→== mn.use_flag 0 (omega arith)) (record {
        oldest =
            ap₂ ◌∷◌ (bytes-memcpy buf mn.content mn.size 0 mn.size (omega arith)) taken-messages;
        carries = taken-Carries;
        positive = pos;
        bounded = small;
      })

-- The queue before round `j + k` when no round before it took a message: the sender's changes.
abbrev pub waited : (env : ℕ → MsgQueue → MsgQueue) → (j k : ℕ) → MsgQueue → MsgQueue
waited env j zero q = q
waited env j (suc k) q = waited env (j + 1) k (env j q)

recv_loop-arrives :
    (env : ℕ → MsgQueue → MsgQueue) (k fuel j : ℕ) (q : MsgQueue) (snt rcv n : ℕ) (buf : Bytes)
    → k < fuel
    → ((i : ℕ) → i < k → ((waited env j (suc i) q).ring (rcv % msg_num)).use_flag ≡ 0)
    → Carries (waited env j (suc k) q) snt rcv (suc n)
    → (r : Received) × (recv_loop fuel env j q (rcv % msg_num) rcv buf true ≡ some r)
      × Delivers (waited env j (suc k) q) snt rcv n r
unfolding recv_loop
recv_loop-arrives env k zero j q snt rcv n buf lt quiet c = elim lt [ ]
recv_loop-arrives env zero (suc fuel) j q snt rcv n buf lt quiet c =
    let d = recv_round-Delivers (env j q) snt rcv n c buf in
    (
      recv_round (env j q) (rcv % msg_num) rcv buf,
      rw (
          ne→== (recv_round (env j q) (rcv % msg_num) rcv buf).ret_sz 0
            (omega (arith, d.positive))),
      d,
    )
recv_loop-arrives env (suc k) (suc fuel) j q snt rcv n buf lt quiet c =
    let idle : ((env j q).ring (rcv % msg_num)).use_flag ≡ 0 = quiet 0 (omega arith) in
    let (r, done, d) =
      recv_loop-arrives env k fuel (j + 1) (env j q) snt rcv n buf (omega arith)
        (λ i small. quiet (suc i) (omega arith)) c in
    (r, rw (eq→== ((env j q).ring (rcv % msg_num)).use_flag 0 idle) done, d)

-- A receive that spins ends in the first round in which a message is there, with enough fuel for
-- that round, and delivers the oldest message whole; the others stay, in order.
pub spin-delivers :
    (env : ℕ → MsgQueue → MsgQueue) (k fuel : ℕ) (q : MsgQueue) (snt rcv n : ℕ) (buf : Bytes)
    → k < fuel
    → ((i : ℕ) → i < k → ((waited env 0 (suc i) q).ring (rcv % msg_num)).use_flag ≡ 0)
    → Carries (waited env 0 (suc k) q) snt rcv (suc n)
    → (r : Received) × (rpc_recv_ext fuel env q rcv buf true ≡ some r)
      × (bytes r.buf 0 r.ret_sz ∷ messages r.queue.ring r.pos n
          ≡ messages (waited env 0 (suc k) q).ring rcv (suc n))
      × Carries r.queue snt r.pos n
unfolding rpc_recv_ext
spin-delivers env k fuel q snt rcv n buf lt quiet c =
    let (r, done, d) = recv_loop-arrives env k fuel 0 q snt rcv n buf lt quiet c in
    (r, rw (done, lt→ltb r.ret_sz max_msg_size d.bounded), d.oldest, d.carries)

-- On a ring that carries messages, or none, a receive that does not spin ends after one round: it
-- delivers the oldest message if there is one, and else returns 0 and changes nothing.
pub poll-delivers :
    (env : ℕ → MsgQueue → MsgQueue) (fuel : ℕ) (q : MsgQueue) (snt rcv n : ℕ) (buf : Bytes)
    → Carries (env 0 q) snt rcv n
    → (r : Received) × (rpc_recv_ext (suc fuel) env q rcv buf false ≡ some r)
      × (n ≡ 0 → r ≡ record { ret_sz = 0; queue = env 0 q; pos = rcv; buf = buf })
      × ((m : ℕ)
          → n ≡ suc m
          → (bytes r.buf 0 r.ret_sz ∷ messages r.queue.ring r.pos m
              ≡ messages (env 0 q).ring rcv (suc m))
            × Carries r.queue snt r.pos m)
unfolding rpc_recv_ext recv_loop
poll-delivers env fuel q snt rcv zero buf c =
    let zero_rcv : rcv + 0 ≡ rcv = omega arith in
    let idle : ((env 0 q).ring (rcv % msg_num)).use_flag ≡ 0 =
      rw zero_rcv at (c.free 0 (omega arith) (omega arith)) in
    (
      record { ret_sz = 0; queue = env 0 q; pos = rcv; buf = buf },
      rw (eq→== ((env 0 q).ring (rcv % msg_num)).use_flag 0 idle),
      λ e. refl,
      λ m e. absurd (omega arith),
    )
poll-delivers env fuel q snt rcv (suc n) buf c =
    let d = recv_round-Delivers (env 0 q) snt rcv n c buf in
    let r = recv_round (env 0 q) (rcv % msg_num) rcv buf in
    (
      r,
      rw (ne→== r.ret_sz 0 (omega (arith, d.positive)), lt→ltb r.ret_sz max_msg_size d.bounded),
      λ e. absurd (omega arith),
      λ m e. (let same : n ≡ m = omega arith in (rw same at d.oldest, rw same at d.carries)),
    )

init_loop-clears :
    (left i : ℕ) (p : MsgQueue)
    → ((x : ℕ) → x < i → (p.ring x).use_flag ≡ 0)
    → (x : ℕ) → x < i + left
    → ((init_loop left i p).ring x).use_flag ≡ 0
unfolding init_loop
init_loop-clears zero i p cleared x lt = cleared x (omega arith)
init_loop-clears (suc left) i p cleared x lt =
    init_loop-clears left (i + 1) _
      (λ y small. elim (Bool-cases (i == y)) [
        | inl e ↦ rw e
        | inr ne ↦ rw ne (cleared y (omega (arith, ==→ne i y ne)))
      ])
      x (omega arith)

-- `msg_queue_struct_init` leaves a ring that carries no message, whatever was there.
pub struct_init-Carries : (p : MsgQueue) → Carries (msg_queue_struct_init p) 0 0 0
unfolding msg_queue_struct_init
struct_init-Carries p = record {
  fits = omega arith;
  sender = refl;
  full = λ k lt. elim lt [ ];
  free = λ k le lt.
      init_loop-clears msg_num 0 p (λ x small. elim small [ ]) ((0 + k) % msg_num) (omega arith);
}

-- With MSG_NUM messages under way a further send takes the place of the oldest one, which is lost:
-- the ring holds the new message in its stead, before the others.
pub send-overruns :
    (q : MsgQueue) (snt rcv : ℕ) (buf : Bytes) (size : ℕ)
    → Carries q snt rcv msg_num
    → messages (rpc_send_ext q snt buf size).0.ring rcv msg_num
      ≡ bytes buf 0 size ∷ messages q.ring (rcv + 1) (msg_num - 1)
unfolding rpc_send_ext
send-overruns q snt rcv buf size c =
    let mn = q.ring (snt % msg_num) in
    let new : MsgNode = record {
      size = size;
      use_flag = 1;
      content = memcpy mn.content buf size;
    } in
    let at_rcv : snt % msg_num ≡ rcv % msg_num = omega (arith, c.sender) in
    ap₂ ◌∷◌
      (rw (at_rcv, eq→== (rcv % msg_num) (rcv % msg_num) refl)
        (bytes-memcpy (q.ring (rcv % msg_num)).content buf size 0 size (omega arith)))
      (messages-cong (update q.ring (snt % msg_num) new) q.ring (rcv + 1) (rcv + 1) (msg_num - 1)
        (λ k lt. rw (
          update_ne q.ring (snt % msg_num) ((rcv + 1 + k) % msg_num) new
            (omega (arith, c.sender)))))
