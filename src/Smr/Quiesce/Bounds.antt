-- ===== src/Smr/Quiesce/Bounds.antt =====
-- `bi_quiesce_smr` is a minimum over all readers (libs/bi/bi_smr.c).
use bi_project.Base.{
  ltb, ◌==◌, if◌then◌else◌, Bool-cases, ==→eq, ==→ne, ℕ, zero, suc, ◌+◌, ◌-◌, ◌%◌, ◌≤◌, ◌<◌, ◌≡◌,
  refl, ◌∙◌, ◌⊎◌, inl, inr, true, ◌&&◌, arith,
}
use bi_project.Smr.Rounds.{round_of}
use bi_project.Smr.Quiesce.{
  tsc_mod, flush_grace_period, Parsec, ps_in_lib, Readers, core_loop, node_loop, bi_quiesce_smr,
  bi_quiesce_cache, bi_quiesce,
}

-- The reader on core `c` of node `n` is inside the library.
abbrev pub InLib : Readers → (n c : ℕ) → Type 0
InLib rs n c = ps_in_lib (rs.parsec_times n c) ≡ true

-- What one round of the inner loop makes of the minimum `m`.
abbrev seen : Parsec → ℕ → ℕ
seen t m = if ps_in_lib t && ltb t.time_in m then t.time_in else m

seen-le : (t : Parsec) (m : ℕ) → seen t m ≤ m
unfolding ps_in_lib
seen-le t m = ground arith

seen-le-time_in : (t : Parsec) (m : ℕ) → ps_in_lib t ≡ true → seen t m ≤ t.time_in
unfolding ps_in_lib
seen-le-time_in t m inside = ground arith

seen-cases : (t : Parsec) (m : ℕ) → (seen t m ≡ m) ⊎ ((ps_in_lib t ≡ true) × (seen t m ≡ t.time_in))
unfolding ps_in_lib
seen-cases t m = ground arith

module _ (rs : Readers) where
  core_loop-le : (cpu left j m : ℕ) → core_loop rs cpu left j m ≤ m
  unfolding core_loop
  core_loop-le cpu zero j m = omega arith
  core_loop-le cpu (suc left) j m =
      let t = rs.parsec_times cpu j in
      omega (arith, seen-le t m, core_loop-le cpu left (j + 1) (seen t m))

  core_loop-le-time_in :
      (cpu left j m c : ℕ)
      → j ≤ c
      → c < j + left
      → InLib rs cpu c
      → core_loop rs cpu left j m ≤ (rs.parsec_times cpu c).time_in
  unfolding core_loop
  core_loop-le-time_in cpu zero j m c lo hi inside = absurd (omega arith)
  core_loop-le-time_in cpu (suc left) j m c lo hi inside =
      let t = rs.parsec_times cpu j in
      elim (Bool-cases (c == j)) [
        | inl e ↦
            let same : c ≡ j = ==→eq c j e in
            rw same (
              omega (
                arith,
                seen-le-time_in t m (rw same at inside),
                core_loop-le cpu left (j + 1) (seen t m),
              ))
        | inr ne ↦
            core_loop-le-time_in cpu left (j + 1) (seen t m) c (omega (arith, ==→ne c j ne))
              (omega arith) inside
      ]

  node_loop-le : (left i m : ℕ) → node_loop rs left i m ≤ m
  unfolding node_loop
  node_loop-le zero i m = omega arith
  node_loop-le (suc left) i m =
      let cpu = (rs.curr + i) % rs.tot_cpu in
      omega (
        arith,
        core_loop-le cpu rs.tot_core 0 m,
        node_loop-le left (i + 1) (core_loop rs cpu rs.tot_core 0 m),
      )

  node_loop-le-time_in :
      (left i m k c : ℕ)
      → i ≤ k
      → k < i + left
      → c < rs.tot_core
      → InLib rs ((rs.curr + k) % rs.tot_cpu) c
      → node_loop rs left i m ≤ (rs.parsec_times ((rs.curr + k) % rs.tot_cpu) c).time_in
  unfolding node_loop
  node_loop-le-time_in zero i m k c lo hi core inside = absurd (omega arith)
  node_loop-le-time_in (suc left) i m k c lo hi core inside =
      let cpu = (rs.curr + i) % rs.tot_cpu in
      let m' = core_loop rs cpu rs.tot_core 0 m in
      elim (Bool-cases (k == i)) [
        | inl e ↦
            let same : k ≡ i = ==→eq k i e in
            rw same (
              omega (
                arith,
                core_loop-le-time_in cpu rs.tot_core 0 m c (omega arith) (omega arith)
                    (rw same at inside),
                node_loop-le left (i + 1) m',
              ))
        | inr ne ↦
            node_loop-le-time_in left (i + 1) m' k c (omega (arith, ==→ne k i ne)) (omega arith)
              core inside
      ]

  -- Some reader inside the library entered at time `r`.
  abbrev pub Entered : ℕ → Type 0
  Entered r =
      (n : ℕ) × (c : ℕ) × (c < rs.tot_core) × InLib rs n c × (r ≡ (rs.parsec_times n c).time_in)

  core_loop-cases :
      (cpu left j m : ℕ)
      → j + left ≤ rs.tot_core
      → (core_loop rs cpu left j m ≡ m) ⊎ Entered (core_loop rs cpu left j m)
  unfolding core_loop
  core_loop-cases cpu zero j m fit = inl refl
  core_loop-cases cpu (suc left) j m fit =
      let t = rs.parsec_times cpu j in
      elim (core_loop-cases cpu left (j + 1) (seen t m) (omega arith)) [
        | inr found ↦ inr found
        | inl e ↦ elim (seen-cases t m) [
          | inl kept ↦ inl (e ∙ kept)
          | inr (inside, new) ↦ inr (cpu, j, omega arith, inside, e ∙ new)
        ]
      ]

  node_loop-cases : (left i m : ℕ) → (node_loop rs left i m ≡ m) ⊎ Entered (node_loop rs left i m)
  unfolding node_loop
  node_loop-cases zero i m = inl refl
  node_loop-cases (suc left) i m =
      let cpu = (rs.curr + i) % rs.tot_cpu in
      elim (node_loop-cases left (i + 1) (core_loop rs cpu rs.tot_core 0 m)) [
        | inr found ↦ inr found
        | inl e ↦ elim (core_loop-cases cpu rs.tot_core 0 m (omega arith)) [
          | inl kept ↦ inl (e ∙ kept)
          | inr (n, c, lt, inside, new) ↦ inr (n, c, lt, inside, e ∙ new)
        ]
      ]

  -- On a node in use, `bi_quiesce_smr` is at most the time given and each entry time of a reader
  -- inside the library, and is one of them.
  pub quiesce_smr_minimum :
      (time : ℕ)
      → rs.curr < rs.tot_cpu
      → (bi_quiesce_smr rs time ≤ time)
        × ((n c : ℕ)
            → n < rs.tot_cpu
            → c < rs.tot_core
            → InLib rs n c
            → bi_quiesce_smr rs time ≤ (rs.parsec_times n c).time_in)
        × ((bi_quiesce_smr rs time ≡ time) ⊎ Entered (bi_quiesce_smr rs time))
  unfolding bi_quiesce_smr
  quiesce_smr_minimum time cur =
      (node_loop-le rs.tot_cpu 0 time, below, node_loop-cases rs.tot_cpu 0 time)
    where
      below :
          (n c : ℕ)
          → n < rs.tot_cpu
          → c < rs.tot_core
          → InLib rs n c
          → bi_quiesce_smr rs time ≤ (rs.parsec_times n c).time_in
      below n c lt core inside =
          let (k, hk, e) = round_of rs.curr rs.tot_cpu n cur lt in
          let at_k : InLib rs ((rs.curr + k) % rs.tot_cpu) c = rw e inside in
          rw e at (node_loop-le-time_in rs.tot_cpu 0 time k c (omega arith) (omega arith) core at_k)

-- Without wrap-around `bi_quiesce_cache` goes back by the grace period.
pub quiesce_cache-sub :
    (time : ℕ)
    → flush_grace_period ≤ time
    → time < tsc_mod
    → bi_quiesce_cache time ≡ time - flush_grace_period
unfolding bi_quiesce_cache
quiesce_cache-sub time lo hi = omega arith

-- At a time within a grace period of the zero of the clock, `bi_quiesce_cache` returns at least
-- every time stamp up to a grace period below 2 ^ 64.
pub quiesce_cache_wraps :
    (time stamp : ℕ)
    → time < flush_grace_period
    → stamp ≤ tsc_mod - flush_grace_period
    → stamp ≤ bi_quiesce_cache time
unfolding bi_quiesce_cache
quiesce_cache_wraps time stamp lo hi = omega arith

-- On a node in use and with a clock of 64 bits, `bi_quiesce` is a grace period before the time
-- given and before each entry of a reader inside the library, if none of these times is within a
-- grace period of the zero of the clock.
pub quiesce_grace :
    (rs : Readers) (time : ℕ)
    → rs.curr < rs.tot_cpu
    → time < tsc_mod
    → flush_grace_period ≤ bi_quiesce_smr rs time
    → (bi_quiesce rs time + flush_grace_period ≤ time)
      × ((n c : ℕ)
          → n < rs.tot_cpu
          → c < rs.tot_core
          → InLib rs n c
          → bi_quiesce rs time + flush_grace_period ≤ (rs.parsec_times n c).time_in)
unfolding bi_quiesce
quiesce_grace rs time cur small late =
    let (le, below, _) = quiesce_smr_minimum rs time cur in
    let back = quiesce_cache-sub (bi_quiesce_smr rs time) late (omega arith) in
    (omega arith, λ n c lt core inside. omega (arith, below n c lt core inside))
