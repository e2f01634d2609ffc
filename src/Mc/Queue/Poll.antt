-- ===== src/Mc/Queue/Poll.antt =====
-- A node that looks for a message asks the others in turn (mc_code/mp_mc/share/rpc.h).
use bi_project.Base.{
  ◌==◌, Bool-cases, ==→eq, eq→==, ne→==, ℕ, zero, suc, ◌+◌, ◌-◌, ◌%◌, ◌<◌, ◌≡◌, refl, sym, ap, ◌∙◌,
  ◌≢◌, ◌⊎◌, inl, inr, Option, none, some, [], ◌∷◌, arith,
}
use bi_project.Mc.Queue.{
  num_node, Meta, McQueue, Pool, msg_dequeue, set_queue, rpc_recv_ext, recv_loop, rpc_recv,
}
use bi_project.Mc.Queue.Fifo.{IsQueue, queued, dequeue-takes}

abbrev pub IsPool : Pool → Type 0
IsPool pool = (n m : ℕ) → IsQueue (pool n m)

-- What node `caller` has of its looking into the rings from `i` on, `d` of them: nothing, and all of
-- these are empty; or the oldest message of the first that is not.
pub data Looks (pool : Pool) (caller i d : ℕ) (pool' : Pool) : Option ℕ → Type 0 where
  idle :
      ((k : ℕ) → k < d → queued (pool caller ((i + k) % num_node)) ≡ [])
      → ((n m : ℕ) → queued (pool' n m) ≡ queued (pool n m))
      → Looks pool caller i d pool' none
  takes :
      (k : ℕ) (msg : Meta)
      → k < d
      → queued (pool caller ((i + k) % num_node)) ≡ msg ∷ queued (pool' caller ((i + k) % num_node))
      → ((j : ℕ) → j < k → queued (pool caller ((i + j) % num_node)) ≡ [])
      → ((n m : ℕ)
          → (n ≢ caller) ⊎ (m ≢ (i + k) % num_node)
          → queued (pool' n m) ≡ queued (pool n m))
      → Looks pool caller i d pool' (some msg.off)

-- What one ring gives.
data Asks (pool : Pool) (caller i : ℕ) (pool' : Pool) : Option ℕ → Type 0 where
  nothing :
      queued (pool caller i) ≡ []
      → ((n m : ℕ) → queued (pool' n m) ≡ queued (pool n m))
      → Asks pool caller i pool' none
  gives :
      (msg : Meta)
      → queued (pool caller i) ≡ msg ∷ queued (pool' caller i)
      → ((n m : ℕ) → (n ≢ caller) ⊎ (m ≢ i) → queued (pool' n m) ≡ queued (pool n m))
      → Asks pool caller i pool' (some msg.off)

-- A ring that is written back.
set_queue_self : (pool : Pool) (n m : ℕ) (q : McQueue) → set_queue pool n m q n m ≡ q
set_queue_self pool n m q = ground arith

set_queue_other :
    (pool : Pool) (n m : ℕ) (q : McQueue) (n' m' : ℕ)
    → (n' ≢ n) ⊎ (m' ≢ m)
    → set_queue pool n m q n' m' ≡ pool n' m'
set_queue_other pool n m q n' m' (inl ne) = ground arith
set_queue_other pool n m q n' m' (inr ne) = ground arith

set_queue-IsPool :
    (pool : Pool) (n m : ℕ) (q : McQueue) → IsPool pool → IsQueue q → IsPool (set_queue pool n m q)
set_queue-IsPool pool n m q p v n' m' = elim (Bool-cases (n == n')) [
  | inr ne ↦ rw ne (p n' m')
  | inl e ↦ rw e (elim (Bool-cases (m == m')) [ inr ne ↦ rw ne (p n m') | inl e' ↦ rw e' v ])
]

-- A write of a ring with the same messages changes no ring's messages.
same_queued :
    (pool : Pool) (n m : ℕ) (q : McQueue)
    → queued q ≡ queued (pool n m)
    → (n' m' : ℕ) → queued (set_queue pool n m q n' m') ≡ queued (pool n' m')
same_queued pool n m q same n' m' = elim (Bool-cases (n == n')) [
  | inr ne ↦ rw ne refl
  | inl e ↦
      rw (e, ==→eq n n' e)
        (elim (Bool-cases (m == m')) [
          | inr ne ↦ rw ne refl
          | inl e' ↦ let same' = rw (==→eq n n' e, ==→eq m m' e') at same in rw e' same'
        ])
]

recv_ext-Asks :
    (pool : Pool) (caller i : ℕ)
    → IsPool pool
    → let r = rpc_recv_ext pool caller i in IsPool r.1 × Asks pool caller i r.1 r.0
unfolding rpc_recv_ext
recv_ext-Asks pool caller i p =
    let q = pool caller i in
    let (v, cases) = dequeue-takes q (p caller i) in
    (
      set_queue-IsPool pool caller i (msg_dequeue q).1 p v,
      elim cases [
        | inl (no_msg, empty, empty') ↦
            rw (no_msg, rpc_recv_ext)
              (nothing empty (same_queued pool caller i (msg_dequeue q).1 (empty' ∙ sym empty)))
        | inr (msg, got, taken) ↦
            rw (got, rpc_recv_ext)
              (gives msg
                (taken
                  ∙ ap (λ x. msg ∷ queued x) (sym (set_queue_self pool caller i (msg_dequeue q).1)))
                (λ n m other.
                  ap queued (set_queue_other pool caller i (msg_dequeue q).1 n m other)))
      ],
    )

-- The ring `j + 1` places on is `j` places on from the next.
next_ring : (i j : ℕ) → ((i + 1) % num_node + j) % num_node ≡ (i + suc j) % num_node
next_ring i j = omega arith

-- An empty ring before the others.
skip :
    {pool pool' pool'' : Pool} {caller i d : ℕ} {r : Option ℕ}
    → i < num_node
    → queued (pool caller i) ≡ []
    → ((n m : ℕ) → queued (pool' n m) ≡ queued (pool n m))
    → Looks pool' caller ((i + 1) % num_node) d pool'' r
    → Looks pool caller i (suc d) pool'' r
skip {pool} {pool'} {caller = caller} {i} {d} lt empty same (idle others kept) =
    idle front (λ n m. kept n m ∙ same n m)
  where
    front : (k : ℕ) → k < suc d → queued (pool caller ((i + k) % num_node)) ≡ []
    front zero small =
        let e : (i + 0) % num_node ≡ i = omega arith in ap (λ j. queued (pool caller j)) e ∙ empty
    front (suc k) small =
        ap (λ j. queued (pool caller j)) (sym (next_ring i k))
        ∙ sym (same caller (((i + 1) % num_node + k) % num_node))
        ∙ others k (omega arith)
skip {pool} {pool'} {pool''} {caller} {i} {d} lt empty same (takes k msg small took before kept) =
    takes (suc k) msg (omega arith) taken front
      (λ n m other. kept n m (rw (next_ring i k) other) ∙ same n m)
  where
    taken :
        queued (pool caller ((i + suc k) % num_node))
        ≡ msg ∷ queued (pool'' caller ((i + suc k) % num_node))
    taken = sym (same caller ((i + suc k) % num_node)) ∙ (rw (next_ring i k) at took)

    front : (j : ℕ) → j < suc k → queued (pool caller ((i + j) % num_node)) ≡ []
    front zero less =
        let e : (i + 0) % num_node ≡ i = omega arith in ap (λ j. queued (pool caller j)) e ∙ empty
    front (suc j) less =
        ap (λ j. queued (pool caller j)) (sym (next_ring i j))
        ∙ sym (same caller (((i + 1) % num_node + j) % num_node))
        ∙ before j (omega arith)

-- One ring is asked, and the others only if it is empty.
then_loop :
    {pool pool' : Pool} {caller i d : ℕ} {addr : Option ℕ} (rest : Option ℕ × Pool)
    → i < num_node
    → IsPool pool'
    → Asks pool caller i pool' addr
    → IsPool rest.1 × Looks pool' caller ((i + 1) % num_node) d rest.1 rest.0
    → let r : Option ℕ × Pool = elim addr [ none ↦ rest | some a ↦ (some a, pool') ] in
      IsPool r.1 × Looks pool caller i (suc d) r.1 r.0
then_loop rest lt p (nothing empty same) (p', looks) = (p', skip lt empty same looks)
then_loop {pool} {pool'} {caller} {i} rest lt p (gives msg took kept) looks =
    let e : i ≡ (i + 0) % num_node = omega arith in
    (
      p,
      takes 0 msg (omega arith) (rw e at took) (λ j less. absurd (omega arith))
          (λ n m other. kept n m (rw e other)),
    )

recv_loop-Looks :
    (fuel : ℕ) (pool : Pool) (caller i d : ℕ)
    → IsPool pool
    → caller < num_node
    → i < num_node
    → (i + d) % num_node ≡ caller
    → d < fuel
    → d < num_node
    → let r = recv_loop fuel pool caller i in IsPool r.1 × Looks pool caller i d r.1 r.0
unfolding recv_loop
recv_loop-Looks zero pool caller i d p own lt e enough small = absurd (omega arith)
recv_loop-Looks (suc fuel) pool caller i zero p own lt e enough small =
    let stop : i ≡ caller = omega arith in
    rw (eq→== i caller stop) (p, idle (λ k less. absurd (omega arith)) (λ n m. refl))
recv_loop-Looks (suc fuel) pool caller i (suc d) p own lt e enough small =
    let (p', asks) = recv_ext-Asks pool caller i p in
    let next = (rpc_recv_ext pool caller i).1 in
    rw (ne→== i caller (omega arith)) (
      then_loop (recv_loop fuel next caller ((i + 1) % num_node)) lt p' asks (
        recv_loop-Looks fuel next caller ((i + 1) % num_node) d p' own (omega arith) (omega arith)
          (omega arith) (omega arith)))

-- On a pool of well formed rings, one round of `rpc_recv` asks the rings of the other nodes in
-- turn, from the next node on: it takes the oldest message of the first that has one and leaves all
-- else, or reports nothing when all three are empty.
pub recv_polls :
    (pool : Pool) (caller : ℕ)
    → IsPool pool
    → caller < num_node
    → let r = rpc_recv pool caller in
      IsPool r.1 × Looks pool caller ((caller + 1) % num_node) (num_node - 1) r.1 r.0
unfolding rpc_recv
recv_polls pool caller p own =
    recv_loop-Looks num_node pool caller ((caller + 1) % num_node) 3 p own (omega arith)
      (omega arith) (omega arith) (omega arith)
