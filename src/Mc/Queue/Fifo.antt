-- ===== src/Mc/Queue/Fifo.antt =====
-- A ring holds a list of messages, whatever the two sides have in their caches.
use bi_project.Base.{
  ◌==◌, Bool-cases, ==→eq, ==→ne, length, update, update_self, update_ne, ℕ, zero, suc, ◌+◌, ◌-◌,
  ◌%◌, ◌≤◌, ◌<◌, ◌≡◌, refl, ap, ap₂, ◌∙◌, ◌⊎◌, inl, inr, true, false, none, some, List, [], ◌∷◌,
  ◌++◌, arith,
}
use bi_project.Mc.Queue.{
  msg_num, Meta, McQueue, push, pull, msg_enqueue, msg_dequeue, refresh_sender, refresh_receiver,
}

-- The number of messages, and how far what each side has seen is behind.
abbrev pub len : McQueue → ℕ
len q = (q.tail + msg_num - q.head) % msg_num

abbrev pub behind_head : McQueue → ℕ
behind_head q = (q.head + msg_num - q.head_seen) % msg_num

abbrev pub behind_tail : McQueue → ℕ
behind_tail q = (q.tail + msg_num - q.tail_seen) % msg_num

-- What the sender has seen of the head is old, but the tail has not passed it; what the receiver
-- has seen of the tail is not older than the head.
pub record IsQueue (q : McQueue) : Type 0 where
  pub head_in : q.head < msg_num
  pub tail_in : q.tail < msg_num
  pub head_seen_in : q.head_seen < msg_num
  pub tail_seen_in : q.tail_seen < msg_num
  pub sender : behind_head q + len q < msg_num
  pub receiver : behind_tail q ≤ len q

-- The `n` messages from slot `h` on.
abbrev pub slots : (ℕ → Meta) → (h n : ℕ) → List Meta
slots r h zero = []
slots r h (suc n) = r h ∷ slots r ((h + 1) % msg_num) n

abbrev pub queued : McQueue → List Meta
queued q = slots q.ring q.head (len q)

-- A write behind the last message leaves the messages.
slots-update :
    (r : ℕ → Meta) (h n d j : ℕ) (x : Meta)
    → h < msg_num
    → n + d < msg_num
    → j ≡ (h + (n + d)) % msg_num
    → slots (update r j x) h n ≡ slots r h n
slots-update r h zero d j x lt room e = refl
slots-update r h (suc n) d j x lt room e =
    ap₂ ◌∷◌ (update_ne r j h x (omega arith))
      (slots-update r ((h + 1) % msg_num) n d j x (omega arith) (omega arith) (omega arith))

slots-snoc :
    (r : ℕ → Meta) (h n : ℕ)
    → h < msg_num
    → slots r h (suc n) ≡ slots r h n ++ (r ((h + n) % msg_num) ∷ [])
slots-snoc r h zero lt = ap (λ k. r k ∷ []) (omega arith)
slots-snoc r h (suc n) lt =
    let e : ((h + 1) % msg_num + n) % msg_num ≡ (h + suc n) % msg_num = omega arith in
    ap (λ l. r h ∷ l)
      (slots-snoc r ((h + 1) % msg_num) n (omega arith)
        ∙ ap (λ k. slots r ((h + 1) % msg_num) n ++ (r k ∷ [])) e)

-- The new entry stands behind the others, if there is room.
push-queued :
    (q : McQueue) (entry : Meta)
    → q.head < msg_num
    → q.tail < msg_num
    → len q + 1 < msg_num
    → (len (push q entry) ≡ len q + 1) × (queued (push q entry) ≡ queued q ++ (entry ∷ []))
unfolding push
push-queued q entry hd tl room =
    let more : len (push q entry) ≡ len q + 1 = omega arith in
    let more' : len (push q entry) ≡ suc (len q) = omega arith in
    let at_tail : q.tail ≡ (q.head + (len q + 0)) % msg_num = omega arith in
    let at_end : (q.head + len q) % msg_num ≡ q.tail = omega arith in
    let ring' = update q.ring q.tail entry in
    let kept : slots ring' q.head (len q) ≡ slots q.ring q.head (len q) =
      slots-update q.ring q.head (len q) 0 q.tail entry hd (omega arith) at_tail in
    let last : ring' ((q.head + len q) % msg_num) ≡ entry =
      ap ring' at_end ∙ update_self q.ring q.tail entry in
    (
      more,
      ap (slots ring' q.head) more'
          ∙ slots-snoc ring' q.head (len q) hd
          ∙ ap₂ (λ xs x. xs ++ (x ∷ [])) kept last,
    )

-- The oldest entry is taken.
pull-queued :
    (q : McQueue)
    → q.head < msg_num
    → q.tail < msg_num
    → 0 < len q
    → (len q ≡ len (pull q).1 + 1) × (queued q ≡ q.ring q.head ∷ queued (pull q).1)
unfolding pull
pull-queued q hd tl some_left =
    let fewer : len q ≡ len (pull q).1 + 1 = omega arith in
    let fewer' : len q ≡ suc (len (pull q).1) = omega arith in
    (fewer, ap (slots q.ring q.head) fewer')

length-slots : (r : ℕ → Meta) (h n : ℕ) → length (slots r h n) ≡ n
length-slots r h zero = refl
length-slots r h (suc n) = ap suc (length-slots r ((h + 1) % msg_num) n)

push-IsQueue :
    (q : McQueue) (entry : Meta)
    → IsQueue q
    → behind_head q + len q + 1 < msg_num
    → IsQueue (push q entry)
unfolding push
push-IsQueue q entry v room = record {
  head_in = v.head_in;
  tail_in = omega arith;
  head_seen_in = v.head_seen_in;
  tail_seen_in = v.tail_seen_in;
  sender = omega (arith, room, v.head_in, v.tail_in);
  receiver = omega (arith, room, v.receiver, v.head_in, v.tail_in, v.tail_seen_in);
}

pull-IsQueue : (q : McQueue) → IsQueue q → behind_tail q < len q → IsQueue (pull q).1
unfolding pull
pull-IsQueue q v more = record {
  head_in = omega arith;
  tail_in = v.tail_in;
  head_seen_in = v.head_seen_in;
  tail_seen_in = v.tail_seen_in;
  sender = omega (arith, more, v.sender, v.head_in, v.tail_in, v.head_seen_in);
  receiver = omega (arith, more, v.head_in, v.tail_in);
}

-- To read a position again, at any time, keeps the ring well formed.
pub refresh_sender-IsQueue : (q : McQueue) → IsQueue q → IsQueue (refresh_sender q)
unfolding refresh_sender
refresh_sender-IsQueue q v = record {
  head_in = v.head_in;
  tail_in = v.tail_in;
  head_seen_in = v.head_in;
  tail_seen_in = v.tail_seen_in;
  sender = omega (arith, v.head_in, v.tail_in);
  receiver = v.receiver;
}

pub refresh_receiver-IsQueue : (q : McQueue) → IsQueue q → IsQueue (refresh_receiver q)
unfolding refresh_receiver
refresh_receiver-IsQueue q v = record {
  head_in = v.head_in;
  tail_in = v.tail_in;
  head_seen_in = v.head_seen_in;
  tail_seen_in = v.tail_in;
  sender = v.sender;
  receiver = omega (arith, v.head_in, v.tail_in);
}

-- On a well formed ring, however old the positions in the caches of both ends are, `msg_enqueue`
-- keeps it well formed and either appends the message or, exactly when MSG_NUM - 1 messages are
-- there, refuses it and changes no message.
pub enqueue_refines :
    (q : McQueue) (entry : Meta)
    → IsQueue q
    → IsQueue (msg_enqueue q entry).1
      × (((msg_enqueue q entry).0 ≡ true)
            × (length (queued q) < msg_num - 1)
            × (queued (msg_enqueue q entry).1 ≡ queued q ++ (entry ∷ []))
          ⊎ ((msg_enqueue q entry).0 ≡ false)
            × (length (queued q) ≡ msg_num - 1)
            × (queued (msg_enqueue q entry).1 ≡ queued q))
unfolding msg_enqueue refresh_sender
enqueue_refines q entry v =
    let full = (q.tail + 1) % msg_num in
    let seen : McQueue = record q { head_seen = q.head } in
    let shown = length-slots q.ring q.head (len q) in
    elim (Bool-cases (full == q.head_seen)) [
      | inr open_seen ↦
          let ne = ==→ne _ _ open_seen in
          let room : len q + 1 < msg_num =
            omega (arith, v.sender, v.head_in, v.tail_in, v.head_seen_in) in
          rw open_seen (
            push-IsQueue q entry v (omega (arith, v.sender, v.head_in, v.tail_in, v.head_seen_in)),
            inl (refl, omega (arith, shown), (push-queued q entry v.head_in v.tail_in room).1),
          )
      | inl e ↦ rw e (elim (Bool-cases (full == q.head)) [
        | inr free ↦
            let ne = ==→ne _ _ free in
            let room : len q + 1 < msg_num = omega (arith, v.head_in, v.tail_in) in
            rw free (
              push-IsQueue seen entry (refresh_sender-IsQueue q v)
                  (omega (arith, v.head_in, v.tail_in)),
              inl (refl, omega (arith, shown), (push-queued seen entry v.head_in v.tail_in room).1),
            )
        | inl e' ↦
            let all = ==→eq _ _ e' in
            rw e' (
              refresh_sender-IsQueue q v,
              inr (refl, omega (arith, shown, v.head_in, v.tail_in), refl),
            )
      ])
    ]

-- On a well formed ring, however old the positions in the caches of both ends are, `msg_dequeue`
-- keeps it well formed and either takes the oldest message or reports that there is none, and then
-- there is none.
pub dequeue-takes :
    (q : McQueue)
    → IsQueue q
    → IsQueue (msg_dequeue q).1
      × (((msg_dequeue q).0 ≡ none) × (queued q ≡ []) × (queued (msg_dequeue q).1 ≡ [])
          ⊎ (m : Meta) × ((msg_dequeue q).0 ≡ some m) × (queued q ≡ m ∷ queued (msg_dequeue q).1))
unfolding msg_dequeue refresh_receiver
dequeue-takes q v =
    let seen : McQueue = record q { tail_seen = q.tail } in
    elim (Bool-cases (q.head == q.tail_seen)) [
      | inr more ↦
          let ne = ==→ne _ _ more in
          let some_left : behind_tail q < len q =
            omega (arith, v.receiver, v.head_in, v.tail_in, v.tail_seen_in) in
          rw more (
            pull-IsQueue q v some_left,
            inr (q.ring q.head, refl, (pull-queued q v.head_in v.tail_in (omega arith)).1),
          )
      | inl e ↦ rw e (elim (Bool-cases (q.head == q.tail)) [
        | inr more ↦
            let ne = ==→ne _ _ more in
            let some_left : behind_tail seen < len q = omega (arith, v.head_in, v.tail_in) in
            rw more (
              pull-IsQueue seen (refresh_receiver-IsQueue q v) some_left,
              inr (q.ring q.head, refl, (pull-queued seen v.head_in v.tail_in (omega arith)).1),
            )
        | inl e' ↦
            let all = ==→eq _ _ e' in
            let nothing : len q ≡ 0 = omega (arith, v.head_in) in
            let empty : queued q ≡ [] = ap (slots q.ring q.head) nothing in
            rw e' (refresh_receiver-IsQueue q v, inl (refl, empty, empty))
      ])
    ]
