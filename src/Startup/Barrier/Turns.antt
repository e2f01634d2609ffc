-- ===== src/Startup/Barrier/Turns.antt =====
-- What the turns of the nodes at the start barrier keep, and what they bring about.
use bi_project.Base.{
  ltb, ◌==◌, Bool-cases, ltb→lt, ==→eq, ==→ne, has, update_self, update_ne, ℕ, ◌+◌, ◌≤◌, ◌<◌, ◌≡◌,
  refl, sym, ap, ◌∙◌, ◌≢◌, ◌⊎◌, inl, inr, true, List, [], ◌∷◌, arith,
}
use bi_project.Startup.{Phase, scan, arrive, wait, serve, Nodes, barrier_step, schedule}
use bi_project.Startup.Barrier.{
  Fits, IsStarting, InUse, step-IsStarting, here-Fits, both, scan-serves, raised,
}

-- The step of a node in its phase
abbrev pub turn : (ntot node : ℕ) → Nodes → Nodes
turn ntot node s = barrier_step ntot node s (s.phases node)

-- A property that every step keeps
abbrev pub Stays : (ntot : ℕ) → (Nodes → Type 0) → Type 0
Stays ntot P = (k : ℕ) (s : Nodes) → k < ntot → IsStarting ntot s → P s → P (turn ntot k s)

pub schedule-Stays :
    (ntot : ℕ) (P : Nodes → Type 0)
    → Stays ntot P
    → (l : List ℕ) (s : Nodes) → InUse ntot l
    → IsStarting ntot s
    → P s
    → P (schedule ntot l s)
unfolding schedule
schedule-Stays ntot P keep [] s u i p = p
schedule-Stays ntot P keep (k ∷ l) s (lt, u) i p =
    schedule-Stays ntot P keep l (turn ntot k s) u (step-IsStarting ntot k s (s.phases k) refl lt i)
      (keep k s lt i p)

-- What a step of a node brings about, holds behind each schedule that has the node.
pub visit :
    (ntot node : ℕ) (P Q : Nodes → Type 0)
    → Stays ntot P
    → Stays ntot Q
    → ((s : Nodes) → IsStarting ntot s → P s → Q (turn ntot node s))
    → (l : List ℕ) (s : Nodes) → InUse ntot l
    → has node l ≡ true
    → IsStarting ntot s
    → P s
    → Q (schedule ntot l s)
unfolding schedule
visit ntot node P Q keepP keepQ moves [] s u h i p = absurd (ground (arith, h))
visit ntot node P Q keepP keepQ moves (k ∷ l) s (lt, u) h i p =
    let i' = step-IsStarting ntot k s (s.phases k) refl lt i in
    elim (Bool-cases (k == node)) [
      | inl e ↦
          schedule-Stays ntot Q keepQ l (turn ntot k s) u i'
            (rw (sym (==→eq k node e)) at (moves s i p))
      | inr ne ↦
          visit ntot node P Q keepP keepQ moves l (turn ntot k s) u (rw ne at h) i'
            (keepP k s lt i p)
    ]

-- A bar that is up stays up.
pub step-bars :
    (ntot node : ℕ) (s : Nodes) (p : Phase) (m : ℕ)
    → s.bars m ≡ true
    → (barrier_step ntot node s p).bars m ≡ true
unfolding barrier_step
step-bars ntot node s (scan nd) m e = elim (Bool-cases (ltb nd ntot)) [
  | inl more ↦ elim (Bool-cases (s.bars nd)) [
    | inl up ↦ rw (more, up) e
    | inr down ↦ rw (more, down) e
  ]
  | inr over ↦ rw over (raised s.bars 0 m e)
]
step-bars ntot node s arrive m e = raised s.bars node m e
step-bars ntot node s wait m e = elim (Bool-cases (s.bars 0)) [
  | inl up ↦ rw up e
  | inr down ↦ rw down e
]
step-bars ntot node s serve m e = e

-- A node changes its own phase only.
pub step-other :
    (ntot node : ℕ) (s : Nodes) (p : Phase) (m : ℕ)
    → node ≢ m
    → (barrier_step ntot node s p).phases m ≡ s.phases m
unfolding barrier_step
step-other ntot node s (scan nd) m ne = elim (Bool-cases (ltb nd ntot)) [
  | inl more ↦ elim (Bool-cases (s.bars nd)) [
    | inl up ↦ rw (more, up) (update_ne s.phases node m (scan (nd + 1)) ne)
    | inr down ↦ rw (more, down)
  ]
  | inr over ↦ rw over (update_ne s.phases node m serve ne)
]
step-other ntot node s arrive m ne = update_ne s.phases node m wait ne
step-other ntot node s wait m ne = elim (Bool-cases (s.bars 0)) [
  | inl up ↦ rw up (update_ne s.phases node m serve ne)
  | inr down ↦ rw down
]
step-other ntot node s serve m ne = refl

-- The bars of all nodes but the first are up.
abbrev pub AllUp : (ntot : ℕ) → Nodes → Type 0
AllUp ntot s = (n : ℕ) → 1 ≤ n → n < ntot → s.bars n ≡ true

pub AllUp-Stays : (ntot : ℕ) → Stays ntot (AllUp ntot)
AllUp-Stays ntot k s lt i all n pos below = step-bars ntot k s (s.phases k) n (all n pos below)

-- Node 0 has seen the bars below `nd`.
abbrev pub Seen : (nd : ℕ) → Nodes → Type 0
Seen nd s = (s.phases 0 ≡ serve) ⊎ (k : ℕ) × (s.phases 0 ≡ scan k) × (nd ≤ k)

-- The bar that a node waits for
abbrev pub looks_at : Phase → ℕ
looks_at (scan nd) = nd
looks_at arrive = 0
looks_at wait = 0
looks_at serve = 0

pub scan-Seen : (nd k : ℕ) (s : Nodes) → s.phases 0 ≡ scan k → Seen nd s → nd ≤ k
scan-Seen nd k s here (inl e) = absurd (scan-serves k (s.phases 0) here e)
scan-Seen nd k s here (inr (k', e, le)) =
    let same : k' ≡ k = ap looks_at (sym e ∙ here) in omega arith

-- A step of node 0: it has seen as much as before, and one bar more when all are up.
pub first-Seen :
    (ntot nd : ℕ) (s : Nodes) (p : Phase)
    → s.phases 0 ≡ p
    → IsStarting ntot s
    → Seen nd s
    → Seen nd (barrier_step ntot 0 s p) × (AllUp ntot s → Seen (nd + 1) (barrier_step ntot 0 s p))
unfolding barrier_step Fits
first-Seen ntot nd s (scan k) here i seen =
    let le = scan-Seen nd k s here seen in
    let ge = (here-Fits ntot 0 s (scan k) here i).1 in
    elim (Bool-cases (ltb k ntot)) [
      | inl more ↦ elim (Bool-cases (s.bars k)) [
        | inl up ↦
            rw (more, up)
              (
                inr (k + 1, update_self s.phases 0 (scan (k + 1)), omega arith),
                λ all. inr (k + 1, update_self s.phases 0 (scan (k + 1)), omega arith),
              )
        | inr down ↦
            rw (more, down)
              (
                inr (k, here, le),
                λ all. absurd (both (s.bars k) (all k ge (ltb→lt k ntot more)) down),
              )
      ]
      | inr over ↦
          rw over (inl (update_self s.phases 0 serve), λ all. inl (update_self s.phases 0 serve))
    ]
first-Seen ntot nd s arrive here i seen = absurd ((here-Fits ntot 0 s arrive here i).0 refl)
first-Seen ntot nd s wait here i seen = absurd ((here-Fits ntot 0 s wait here i).0 refl)
first-Seen ntot nd s serve here i seen = (inl here, λ all. inl here)

pub Seen-Stays : (ntot nd : ℕ) → Stays ntot (Seen nd)
Seen-Stays ntot nd k s lt i seen = elim (Bool-cases (k == 0)) [
  | inl e ↦ rw (==→eq k 0 e) (first-Seen ntot nd s (s.phases 0) refl i seen).0
  | inr ne ↦ rw (step-other ntot k s (s.phases k) 0 (==→ne k 0 ne)) seen
]

pub AllUp-Seen-Stays : (ntot nd : ℕ) → Stays ntot (λ s. AllUp ntot s × Seen nd s)
AllUp-Seen-Stays ntot nd k s lt i (all, seen) =
    (AllUp-Stays ntot k s lt i all, Seen-Stays ntot nd k s lt i seen)

-- A node that serves goes on to serve.
pub Serves-Stays : (ntot n : ℕ) → Stays ntot (λ s. s.phases n ≡ serve)
unfolding barrier_step
Serves-Stays ntot n k s lt i here = elim (Bool-cases (k == n)) [
  | inl e ↦ rw (==→eq k n e, here) here
  | inr ne ↦ step-other ntot k s (s.phases k) n (==→ne k n ne) ∙ here
]

-- With the bar of node 0 up, a node serves after one step.
pub open-serves :
    (ntot n : ℕ) (s : Nodes) (p : Phase)
    → s.phases n ≡ p
    → n < ntot
    → IsStarting ntot s
    → s.bars 0 ≡ true
    → (barrier_step ntot n s p).phases n ≡ serve
unfolding barrier_step Fits
open-serves ntot n s (scan nd) here lt i up =
    let z = (here-Fits ntot n s (scan nd) here i).0 in
    absurd (scan-serves nd (s.phases 0) (rw z at here) (i.opened up).0)
open-serves ntot n s arrive here lt i up =
    absurd (both (s.bars n) ((i.opened up).1 n lt) (here-Fits ntot n s arrive here i).1)
open-serves ntot n s wait here lt i up = rw up (update_self s.phases n serve)
open-serves ntot n s serve here lt i up = here

-- A node's own bar is up after its first step.
pub turn-raises :
    (ntot n : ℕ) (s : Nodes) (p : Phase)
    → s.phases n ≡ p
    → 1 ≤ n
    → IsStarting ntot s
    → (barrier_step ntot n s p).bars n ≡ true
unfolding barrier_step Fits
turn-raises ntot n s (scan nd) here pos i =
    let z = (here-Fits ntot n s (scan nd) here i).0 in absurd (omega arith)
turn-raises ntot n s arrive here pos i = update_self s.bars n true
turn-raises ntot n s wait here pos i = step-bars ntot n s wait n (here-Fits ntot n s wait here i).1
turn-raises ntot n s serve here pos i = (here-Fits ntot n s serve here i).0
