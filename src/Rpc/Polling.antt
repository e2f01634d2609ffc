-- ===== src/Rpc/Polling.antt =====
-- The order in which `rpc_recv_server` of libs/rpc/rpc.c polls the clients.
use bi_project.Base.{
  ◌==◌, if◌then◌else◌, Bool-cases, ==→eq, ==→ne, eq→==, ne→==, ℕ, ◌+◌, ◌-◌, ◌*◌, ◌%◌, ◌<◌, ◌≡◌, ap,
  inl, inr, arith,
}
use native.Mathlib.Nat.{mod-eq_of_lt}
use bi_project.Rpc.{Process, advance_recv_id}

-- The place of a client in the order.
abbrev pub place : (nc : ℕ) → Process → ℕ
place nc p = p.svr_node * nc + p.svr_core

mod_self : (n : ℕ) → 0 < n → n % n ≡ 0
mod_self n pos = grind arith

last_place : (i nc node nn : ℕ) → i + 1 ≡ nc → node + 1 ≡ nn → node * nc + i + 1 ≡ nn * nc
last_place i nc node nn e e' = rw (← e, ← e') (omega arith)

next_node : (i nc node : ℕ) → i + 1 ≡ nc → node * nc + i + 1 ≡ (node + 1) * nc
next_node i nc node e = rw (← e) (omega arith)

inside_place : (i nc node nn : ℕ) → i + 1 < nc → node < nn → node * nc + i + 1 < nn * nc
inside_place i nc node nn lt lt' = grind arith

before_last : (nc node nn : ℕ) → 0 < nc → node + 1 < nn → (node + 1) * nc < nn * nc
before_last nc node nn pos lt =
    let more : nn ≡ node + 2 + (nn - node - 2) = omega arith in
    omega (arith, ap (λ (k : ℕ). k * nc) more)

-- With the client polled among those in use, `__advance_recv_id` goes to the next client core by
-- core and node by node, and from the last back to the first.
pub advance_round_robin :
    (nn nc : ℕ) (p : Process)
    → p.svr_node < nn
    → p.svr_core < nc
    → ((advance_recv_id nn nc p).svr_node < nn)
      × ((advance_recv_id nn nc p).svr_core < nc)
      × (place nc (advance_recv_id nn nc p)
          ≡ (if place nc p + 1 == nn * nc then 0 else place nc p + 1))
unfolding advance_recv_id
advance_round_robin nn nc p node core = elim (Bool-cases (p.svr_core + 1 == nc)) [
  | inl last ↦
      let e : p.svr_core + 1 ≡ nc = ==→eq _ _ last in
      rw (e, mod_self nc (omega arith))
        (elim (Bool-cases (p.svr_node + 1 == nn)) [
          | inl end ↦
              let e' : p.svr_node + 1 ≡ nn = ==→eq _ _ end in
              rw
                (
                  e',
                  mod_self nn (omega arith),
                  eq→== (place nc p + 1) (nn * nc) (last_place p.svr_core nc p.svr_node nn e e'),
                )
                (omega arith, omega arith, omega arith)
          | inr more ↦
              let lt : p.svr_node + 1 < nn = omega (arith, ==→ne _ _ more) in
              let next = next_node p.svr_core nc p.svr_node e in
              rw
                (
                  mod-eq_of_lt lt,
                  ne→== (place nc p + 1) (nn * nc)
                      (omega (arith, next, before_last nc p.svr_node nn (omega arith) lt)),
                )
                (lt, omega arith, omega (arith, next))
        ])
  | inr inner ↦
      let lt : p.svr_core + 1 < nc = omega (arith, ==→ne _ _ inner) in
      rw
        (
          mod-eq_of_lt lt,
          ne→== (p.svr_core + 1) 0 (omega arith),
          ne→== (place nc p + 1) (nn * nc)
              (omega (arith, inside_place p.svr_core nc p.svr_node nn lt node)),
        )
        (node, lt, omega arith)
]
