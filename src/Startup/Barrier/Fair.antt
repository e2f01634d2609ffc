-- ===== src/Startup/Barrier/Fair.antt =====
-- Schedules in which every node has its turns bring all nodes through the start barrier.
use bi_project.Base.{
  length, All, has, ℕ, zero, suc, ◌+◌, ◌-◌, ◌≤◌, ◌<◌, ◌≡◌, refl, inl, inr, true, List, [], ◌∷◌,
  arith,
}
use bi_project.Startup.{Phase, scan, arrive, wait, serve, Nodes, before_start, schedule}
use bi_project.Startup.Barrier.{
  Fits, IsStarting, InUse, start-IsStarting, schedule-IsStarting, here-Fits,
}
use bi_project.Startup.Barrier.Turns.{
  Stays, schedule-Stays, visit, step-bars, AllUp, AllUp-Stays, Seen, first-Seen, Seen-Stays,
  AllUp-Seen-Stays, Serves-Stays, open-serves, turn-raises,
}

-- A round: a schedule in which each node has a turn at least.
abbrev pub IsRound : (ntot : ℕ) → List ℕ → Type 0
IsRound ntot l = InUse ntot l × ((n : ℕ) → n < ntot → has n l ≡ true)

module _ (ntot : ℕ) (pos : 1 ≤ ntot) (l : List ℕ) (round : IsRound ntot l) (s : Nodes)
    (i : IsStarting ntot s) where
  round-AllUp : AllUp ntot (schedule ntot l s)
  round-AllUp n ge lt =
      visit ntot n (λ s. Unit) (λ s. s.bars n ≡ true) (λ k s lt i p. tt)
        (λ k s lt i up. step-bars ntot k s (s.phases k) n up)
        (λ s i p. turn-raises ntot n s (s.phases n) refl ge i) l s round.0 (round.1 n lt) i tt

  round-Seen : (nd : ℕ) → AllUp ntot s → Seen nd s → Seen (nd + 1) (schedule ntot l s)
  round-Seen nd all seen =
      visit ntot 0 (λ s. AllUp ntot s × Seen nd s) (Seen (nd + 1)) (AllUp-Seen-Stays ntot nd)
        (Seen-Stays ntot (nd + 1)) (λ s i p. (first-Seen ntot nd s (s.phases 0) refl i p.1).1 p.0) l
        s round.0 (round.1 0 pos) i (all, seen)

  round-serves : s.bars 0 ≡ true → (n : ℕ) → n < ntot → (schedule ntot l s).phases n ≡ serve
  round-serves up n lt =
      visit ntot n (λ s. s.bars 0 ≡ true) (λ s. s.phases n ≡ serve)
        (λ k s lt i up. step-bars ntot k s (s.phases k) 0 up) (Serves-Stays ntot n)
        (λ s i up. open-serves ntot n s (s.phases n) refl lt i up) l s round.0 (round.1 n lt) i up

-- Rounds, one after the other
abbrev pub rounds_of : (ntot : ℕ) → List (List ℕ) → Nodes → Nodes
rounds_of ntot [] s = s
rounds_of ntot (l ∷ ls) s = rounds_of ntot ls (schedule ntot l s)

rounds-Stays :
    (ntot : ℕ) (P : Nodes → Type 0)
    → Stays ntot P
    → (ls : List (List ℕ)) (s : Nodes) → All (IsRound ntot) ls
    → IsStarting ntot s
    → P s
    → P (rounds_of ntot ls s)
rounds-Stays ntot P keep [] s rs i p = p
rounds-Stays ntot P keep (l ∷ ls) s (r, rs) i p =
    rounds-Stays ntot P keep ls (schedule ntot l s) rs (schedule-IsStarting ntot l s r.0 i)
      (schedule-Stays ntot P keep l s r.0 i p)

-- With the bar of node 0 up, one round is enough.
up-serves :
    (ntot : ℕ)
    → 1 ≤ ntot
    → (ls : List (List ℕ)) (s : Nodes) → All (IsRound ntot) ls
    → 0 < length ls
    → IsStarting ntot s
    → s.bars 0 ≡ true
    → (n : ℕ) → n < ntot
    → (rounds_of ntot ls s).phases n ≡ serve
up-serves ntot pos [] s rs len i up n lt = absurd (omega arith)
up-serves ntot pos (l ∷ ls) s (r, rs) len i up n lt =
    rounds-Stays ntot (λ s. s.phases n ≡ serve) (Serves-Stays ntot n) ls (schedule ntot l s) rs
      (schedule-IsStarting ntot l s r.0 i) (round-serves ntot pos l r s i up n lt)

-- Node 0 has seen all bars only when it has raised its own.
Seen-up : (ntot : ℕ) (s : Nodes) → IsStarting ntot s → Seen (ntot + 1) s → s.bars 0 ≡ true
unfolding Fits
Seen-up ntot s i (inl here) = (here-Fits ntot 0 s serve here i).1
Seen-up ntot s i (inr (k, here, le)) =
    let below = (here-Fits ntot 0 s (scan k) here i).2 in absurd (omega (arith, below))

-- With the other bars up, `left + 2` rounds are enough for a node 0 that has `left` bars to see.
rounds-serve :
    (ntot : ℕ)
    → 1 ≤ ntot
    → (left nd : ℕ) (ls : List (List ℕ)) (s : Nodes) → All (IsRound ntot) ls
    → left + 1 < length ls
    → nd + left ≡ ntot
    → IsStarting ntot s
    → AllUp ntot s
    → Seen nd s
    → (n : ℕ) → n < ntot
    → (rounds_of ntot ls s).phases n ≡ serve
rounds-serve ntot pos left nd [] s rs len sum i all seen n lt = absurd (omega arith)
rounds-serve ntot pos zero nd (l ∷ ls) s (r, rs) len sum i all seen n lt =
    let i' = schedule-IsStarting ntot l s r.0 i in
    let whole : nd ≡ ntot = omega (arith, sum) in
    let up =
      Seen-up ntot (schedule ntot l s) i' (rw whole at (round-Seen ntot pos l r s i nd all seen)) in
    up-serves ntot pos ls (schedule ntot l s) rs (omega (arith, len)) i' up n lt
rounds-serve ntot pos (suc left) nd (l ∷ ls) s (r, rs) len sum i all seen n lt =
    rounds-serve ntot pos left (nd + 1) ls (schedule ntot l s) rs (omega (arith, len))
      (omega (arith, sum)) (schedule-IsStarting ntot l s r.0 i)
      (schedule-Stays ntot (AllUp ntot) (AllUp-Stays ntot) l s r.0 i all)
      (round-Seen ntot pos l r s i nd all seen) n lt

-- Whatever the nodes did before, `ntot + 2` rounds in each of which every node has at least one
-- turn, in any order, bring every node through the start barrier into its loop.
pub barrier_ends :
    (ntot : ℕ) (l : List ℕ) (ls : List (List ℕ))
    → 1 ≤ ntot
    → InUse ntot l
    → All (IsRound ntot) ls
    → ntot + 2 ≤ length ls
    → (n : ℕ) → n < ntot
    → (rounds_of ntot ls (schedule ntot l before_start)).phases n ≡ serve
unfolding Fits
barrier_ends ntot l [] pos u rs len n lt = absurd (omega arith)
barrier_ends ntot l (l' ∷ ls) pos u (r, rs) len n lt =
    let s = schedule ntot l before_start in
    let i = schedule-IsStarting ntot l before_start u (start-IsStarting ntot pos) in
    let s' = schedule ntot l' s in
    let i' = schedule-IsStarting ntot l' s r.0 i in
    rounds-serve ntot pos (ntot - 1) 1 ls s' rs (omega (arith, len)) (omega arith) i'
      (round-AllUp ntot pos l' r s i) (seen s' i' (s'.phases 0) refl) n lt
  where
    seen : (s' : Nodes) → IsStarting ntot s' → (p : Phase) → s'.phases 0 ≡ p → Seen 1 s'
    seen s' i' (scan k) here = inr (k, here, (here-Fits ntot 0 s' (scan k) here i').1)
    seen s' i' arrive here = absurd ((here-Fits ntot 0 s' arrive here i').0 refl)
    seen s' i' wait here = absurd ((here-Fits ntot 0 s' wait here i').0 refl)
    seen s' i' serve here = inl here
