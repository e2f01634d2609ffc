-- ===== src/Smr/Rounds.antt =====
-- The loops of libs/bi/bi_smr.c over the nodes start behind the node that runs them, "so that not all
-- hammer core 0": round `i` is for node `(curr + i) % tot_cpu`.
use bi_project.Base.{ℕ, ◌+◌, ◌-◌, ◌%◌, ◌<◌, ◌≡◌, arith}
use native.Mathlib.Nat.{mod-eq_of_lt, mod-eq-sub-mod}
use native.Mathlib.Decide.{dec_lt}

-- Going round from `curr` meets every node.
pub round_of :
    (curr tot_cpu n : ℕ)
    → curr < tot_cpu
    → n < tot_cpu
    → (k : ℕ) × (k < tot_cpu) × ((curr + k) % tot_cpu ≡ n)
round_of curr tot_cpu n cur lt = elim (dec_lt n curr) [
  | yes before ↦
      let over : curr + (n + tot_cpu - curr) ≡ n + tot_cpu = omega arith in
      let back : (n + tot_cpu) % tot_cpu ≡ (n + tot_cpu - tot_cpu) % tot_cpu =
        mod-eq-sub-mod (omega arith) in
      let same : n + tot_cpu - tot_cpu ≡ n = omega arith in
      (n + tot_cpu - curr, omega arith, rw (over, back, same) (mod-eq_of_lt lt))
  | no after ↦
      let over : curr + (n - curr) ≡ n = omega arith in
      (n - curr, omega arith, rw over (mod-eq_of_lt lt))
]
