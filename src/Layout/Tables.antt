-- ===== src/Layout/Tables.antt =====
-- Where the loops of libs/mem/mem_mgr.c put the structs.
use bi_project.Base.{
  eq→==, ne→==, update, update_ne, ℕ, zero, suc, ◌+◌, ◌*◌, ◌<◌, ◌≡◌, refl, sym, ap, ◌∙◌, ◌≢◌, arith,
}
use bi_project.Layout.{PerCoreInfo, num_core, num_nodes, fill_row, fill_table}

module _ {S : Type 0} (init : S → S) (P : S → Type 0) (ready : (s : S) → P (init s)) (size : ℕ)
    (pos : 0 < size) where
  -- What the inner loop leaves.
  record Row (i left j : ℕ) (p q : PerCoreInfo S) : Type 0 where
    behind : q.addr ≡ p.addr + left * size
    placed :
        (k : ℕ)
        → k < left
        → (q.info i (j + k) ≡ p.addr + k * size) × P (q.memory (p.addr + k * size))
    before : (c : ℕ) → c < j → q.info i c ≡ p.info i c
    others : (n c : ℕ) → n ≢ i → q.info n c ≡ p.info n c
    below : (a : ℕ) → a < p.addr → q.memory a ≡ p.memory a

  fill_row-Row : (i left j : ℕ) (p : PerCoreInfo S) → Row i left j p (fill_row init size i left j p)
  unfolding fill_row
  fill_row-Row i zero j p = record {
    behind = omega arith;
    placed = λ k lt. absurd (omega arith);
    before = λ c lt. refl;
    others = λ n c ne. refl;
    below = λ a lt. refl;
  }
  fill_row-Row i (suc left) j p =
      let r = fill_row-Row i left (j + 1) p' in
      record {
        behind = omega (arith, r.behind);
        placed = placed r;
        before =
            λ c lt. r.before c (omega arith) ∙ rw (eq→== i i refl, ne→== j c (omega arith)) refl;
        others = λ n c ne. r.others n c ne ∙ rw (ne→== i n (λ e. ne (sym e))) refl;
        below = λ a lt. r.below a (omega arith) ∙ update_ne p.memory p.addr a _ (omega arith);
      }
    where
      p' : PerCoreInfo S
      p' = record {
        info = update p.info i (update (p.info i) j p.addr);
        memory = update p.memory p.addr (init (p.memory p.addr));
        addr = p.addr + size;
      }

      q : PerCoreInfo S
      q = fill_row init size i left (j + 1) p'

      placed :
          Row i left (j + 1) p' q
          → (k : ℕ) → k < suc left
          → (q.info i (j + k) ≡ p.addr + k * size) × P (q.memory (p.addr + k * size))
      placed r zero lt =
          let e : j + 0 ≡ j = omega arith in
          let e' : p.addr + 0 * size ≡ p.addr = omega arith in
          let here : q.info i j ≡ p.addr =
            r.before j (omega arith) ∙ rw (eq→== i i refl, eq→== j j refl) refl in
          let made : P (q.memory p.addr) =
            rw (r.below p.addr (omega arith), eq→== p.addr p.addr refl) (ready (p.memory p.addr)) in
          rw (e, e') (here, made)
      placed r (suc k) lt =
          let e : j + suc k ≡ j + 1 + k = omega arith in
          let e' : p.addr + suc k * size ≡ p.addr + size + k * size = omega arith in
          rw (e, e') (r.placed k (omega arith))

  -- What the outer loop leaves.
  record Table (left i : ℕ) (p q : PerCoreInfo S) : Type 0 where
    behind : q.addr ≡ p.addr + left * (num_core * size)
    placed :
        (k c : ℕ)
        → k < left
        → c < num_core
        → (q.info (i + k) c ≡ p.addr + k * (num_core * size) + c * size)
          × P (q.memory (p.addr + k * (num_core * size) + c * size))
    before : (n c : ℕ) → n < i → q.info n c ≡ p.info n c
    below : (a : ℕ) → a < p.addr → q.memory a ≡ p.memory a

  last_in_row : (c : ℕ) → c < num_core → c * size < num_core * size
  last_in_row c lt = grind arith

  fill_table-Table :
      (left i : ℕ) (p : PerCoreInfo S) → Table left i p (fill_table init size left i p)
  unfolding fill_table
  fill_table-Table zero i p = record {
    behind = omega arith;
    placed = λ k c lt. absurd (omega arith);
    before = λ n c lt. refl;
    below = λ a lt. refl;
  }
  fill_table-Table (suc left) i p =
      let t = fill_table-Table left (i + 1) p' in
      record {
        behind = omega (arith, t.behind, r.behind);
        placed = placed t;
        before = λ n c lt. t.before n c (omega arith) ∙ r.others n c (omega arith);
        below = λ a lt. t.below a (omega (arith, r.behind)) ∙ r.below a lt;
      }
    where
      p' : PerCoreInfo S
      p' = fill_row init size i num_core 0 p

      r : Row i num_core 0 p p'
      r = fill_row-Row i num_core 0 p

      q : PerCoreInfo S
      q = fill_table init size left (i + 1) p'

      placed :
          Table left (i + 1) p' q
          → (k c : ℕ) → k < suc left
          → c < num_core
          → (q.info (i + k) c ≡ p.addr + k * (num_core * size) + c * size)
            × P (q.memory (p.addr + k * (num_core * size) + c * size))
      placed t zero c lt in_row =
          let (at, made) = r.placed c in_row in
          let e : i + 0 ≡ i = omega arith in
          let e' : p.addr + 0 * (num_core * size) + c * size ≡ p.addr + c * size = omega arith in
          let kept : q.memory (p.addr + c * size) ≡ p'.memory (p.addr + c * size) =
            t.below (p.addr + c * size) (omega (arith, r.behind, last_in_row c in_row)) in
          let zero_c : c ≡ 0 + c = omega arith in
          let row_at : p'.info i c ≡ p.addr + c * size = ap (p'.info i) zero_c ∙ at in
          rw (e, e') (t.before i c (omega arith) ∙ row_at, rw kept made)
      placed t (suc k) c lt in_row =
          let e : i + suc k ≡ i + 1 + k = omega arith in
          let e' : p.addr + suc k * (num_core * size) + c * size
              ≡ p'.addr + k * (num_core * size) + c * size =
            omega (arith, r.behind) in
          rw (e, e') (t.placed k c (omega arith) in_row)

  -- A whole table.
  pub fill_table-places :
      (p : PerCoreInfo S)
      → ((fill_table init size num_nodes 0 p).addr ≡ p.addr + num_nodes * (num_core * size))
        × ((n c : ℕ)
            → n < num_nodes
            → c < num_core
            → ((fill_table init size num_nodes 0 p).info n c
                ≡ p.addr + n * (num_core * size) + c * size)
              × P (
                  (fill_table init size num_nodes 0 p).memory
                    ((fill_table init size num_nodes 0 p).info n c)))
  fill_table-places p =
      let q = fill_table init size num_nodes 0 p in
      let t = fill_table-Table num_nodes 0 p in
      (
        t.behind,
        λ n c in_n in_c.
            let (at, made) = t.placed n c in_n in_c in
            let zero_n : n ≡ 0 + n = omega arith in
            let place_at : q.info n c ≡ p.addr + n * (num_core * size) + c * size =
              ap (λ k. q.info k c) zero_n ∙ at in
            (place_at, rw place_at made),
      )
