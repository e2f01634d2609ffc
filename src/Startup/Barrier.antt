-- ===== src/Startup/Barrier.antt =====
-- No node serves before all have started, and a fair schedule brings all to serve.
pub mod Turns
pub mod Fair
use bi_project.Base.{
  ltb, leb, ◌==◌, if◌then◌else◌, Bool-cases, ltb→lt, ltb→le, lt→ltb, le→ltb, leb→le, leb→lt, le→leb,
  ==→eq, ==→ne, eq→==, ne→==, tests, length, length-append, All, All-append, All-mono, has, update,
  update_self, update_ne, ℕ, zero, suc, ◌+◌, ◌-◌, ◌*◌, ◌/◌, ◌%◌, ◌^◌, ◌≤◌, ◌<◌, ◌≡◌, refl, sym, ap,
  ap₂, ◌∙◌, ◌≢◌, ◌↔◌, ◌⊎◌, inl, inr, Bool, true, false, not, ◌&&◌, ◌||◌, Option, none, some, List,
  [], ◌∷◌, ◌++◌, map, append_assoc, append-nil, arith,
}
use bi_project.Startup.{
  Phase, scan, arrive, wait, serve, Nodes, first_phase, before_start, barrier_step, schedule,
}

-- What the phase of a node tells of the bars.
pub Fits : (ntot node : ℕ) → (ℕ → Bool) → Phase → Type 0
Fits ntot node bars (scan nd) =
    (node ≡ 0) × (1 ≤ nd) × (nd ≤ ntot) × ((n : ℕ) → 1 ≤ n → n < nd → bars n ≡ true)
Fits ntot node bars arrive = (node ≢ 0) × (bars node ≡ false)
Fits ntot node bars wait = (node ≢ 0) × (bars node ≡ true)
Fits ntot node bars serve = (bars node ≡ true) × (bars 0 ≡ true)

pub record IsStarting (ntot : ℕ) (s : Nodes) : Type 0 where
  pub fits : (n : ℕ) → Fits ntot n s.bars (s.phases n)
  pub opened : s.bars 0 ≡ true → (s.phases 0 ≡ serve) × ((n : ℕ) → n < ntot → s.bars n ≡ true)

pub start-IsStarting : (ntot : ℕ) → 1 ≤ ntot → IsStarting ntot before_start
unfolding before_start Fits
start-IsStarting ntot pos = record { fits = at_first; opened = λ e. absurd (ground arith) }
  where
    at_first : (n : ℕ) → Fits ntot n (λ n. false) (first_phase n)
    at_first n = elim (Bool-cases (n == 0)) [
      | inl e ↦ rw e (==→eq n 0 e, omega arith, pos, λ n ge lt. absurd (omega arith))
      | inr ne ↦ rw ne (==→ne n 0 ne, refl)
    ]

-- A bar that goes up leaves what the phases of the other nodes tell.
Fits-raised :
    (ntot n : ℕ) (bars bars' : ℕ → Bool) (p : Phase)
    → bars' n ≡ bars n
    → ((m : ℕ) → bars m ≡ true → bars' m ≡ true)
    → Fits ntot n bars p
    → Fits ntot n bars' p
unfolding Fits
Fits-raised ntot n bars bars' (scan nd) same up (z, ge, le, seen) =
    (z, ge, le, λ m pos lt. up m (seen m pos lt))
Fits-raised ntot n bars bars' arrive same up (z, shut) = (z, same ∙ shut)
Fits-raised ntot n bars bars' wait same up (z, yes') = (z, up n yes')
Fits-raised ntot n bars bars' serve same up (yes', open') = (up n yes', up 0 open')

-- A node moves on, and perhaps raises its bar.
moved-IsStarting :
    (ntot node : ℕ) (s : Nodes) (bars' : ℕ → Bool) (p : Phase)
    → IsStarting ntot s
    → ((n : ℕ) → node ≢ n → bars' n ≡ s.bars n)
    → ((m : ℕ) → s.bars m ≡ true → bars' m ≡ true)
    → Fits ntot node bars' p
    → (bars' 0 ≡ true → (update s.phases node p 0 ≡ serve) × ((n : ℕ) → n < ntot → bars' n ≡ true))
    → IsStarting ntot (record { bars = bars'; phases = update s.phases node p })
moved-IsStarting ntot node s bars' p i same up now opened' = record {
  fits = λ n. elim (Bool-cases (node == n)) [
    | inl e ↦ rw e (rw (==→eq node n e) at now)
    | inr ne ↦
        rw ne
          (Fits-raised ntot n s.bars bars' (s.phases n) (same n (==→ne node n ne)) up (i.fits n))
  ];
  opened = opened';
}

pub raised : (bars : ℕ → Bool) (node m : ℕ) → bars m ≡ true → update bars node true m ≡ true
raised bars node m e = ground arith

pub scan-serves : (nd : ℕ) (p : Phase) → p ≡ scan nd → p ≢ serve
scan-serves nd p e e' = absurd (ground (arith, e, e'))

pub here-Fits :
    (ntot node : ℕ) (s : Nodes) (p : Phase)
    → s.phases node ≡ p
    → IsStarting ntot s
    → Fits ntot node s.bars p
here-Fits ntot node s p here i = rw here at (i.fits node)

pub both : (b : Bool) → b ≡ true → b ≢ false
both b e e' = absurd (ground (arith, e, e'))

seen_next :
    (s : Nodes) (nd n : ℕ)
    → s.bars nd ≡ true
    → (n < nd → s.bars n ≡ true)
    → n < nd + 1
    → s.bars n ≡ true
seen_next s nd n up seen below = elim (Bool-cases (nd == n)) [
  | inl e ↦ rw (==→eq nd n e) at up
  | inr ne ↦ seen (let other = ==→ne nd n ne in omega arith)
]

first_or : (bars : ℕ → Bool) (n : ℕ) → (1 ≤ n → bars n ≡ true) → update bars 0 true n ≡ true
first_or bars zero h = update_self bars 0 true
first_or bars (suc n) h = update_ne bars 0 (suc n) true (λ e. omega arith) ∙ h (omega arith)

pub step-IsStarting :
    (ntot node : ℕ) (s : Nodes) (p : Phase)
    → s.phases node ≡ p
    → node < ntot
    → IsStarting ntot s
    → IsStarting ntot (barrier_step ntot node s p)
unfolding barrier_step Fits
step-IsStarting ntot node s (scan nd) here lt i =
    let (z, ge, le, seen) = here-Fits ntot node s (scan nd) here i in
    elim (Bool-cases (ltb nd ntot)) [
      | inl more ↦ elim (Bool-cases (s.bars nd)) [
        | inl up ↦
            rw (more, up)
              (moved-IsStarting ntot node s s.bars (scan (nd + 1)) i (λ n ne. refl) (λ m e. e)
                (
                  z,
                  omega arith,
                  omega (arith, ltb→lt nd ntot more),
                  λ n pos below. seen_next s nd n up (λ lt. seen n pos lt) below,
                )
                (λ e. absurd (scan-serves nd (s.phases 0) (rw z at here) (i.opened e).0)))
        | inr down ↦ rw (more, down) i
      ]
      | inr over ↦ rw over (
          moved-IsStarting ntot node s (update s.bars 0 true) serve i
            (λ n ne. update_ne s.bars 0 n true (λ e. ne (z ∙ e))) (raised s.bars 0)
            (rw z (update_self s.bars 0 true), update_self s.bars 0 true)
            (λ e. (
              rw z (update_self s.phases 0 serve),
              λ n below.
                  first_or s.bars n (λ pos. seen n pos (omega (arith, ltb→le nd ntot over, below))),
            )))
    ]
step-IsStarting ntot node s arrive here lt i =
    let (z, shut) = here-Fits ntot node s arrive here i in
    moved-IsStarting ntot node s (update s.bars node true) wait i
      (λ n ne. update_ne s.bars node n true ne) (raised s.bars node)
      (z, update_self s.bars node true)
      (λ e.
        absurd (
          both (s.bars node) ((i.opened (sym (update_ne s.bars node 0 true z) ∙ e)).1 node lt)
            shut))
step-IsStarting ntot node s wait here lt i =
    let (z, up') = here-Fits ntot node s wait here i in
    elim (Bool-cases (s.bars 0)) [
      | inl up ↦ rw up (
          moved-IsStarting ntot node s s.bars serve i (λ n ne. refl) (λ m e. e) (up', up)
            (λ e. (update_ne s.phases node 0 serve z ∙ (i.opened e).0, (i.opened e).1)))
      | inr down ↦ rw down i
    ]
step-IsStarting ntot node s serve here lt i = i

-- The nodes of a schedule are nodes in use.
abbrev pub InUse : (ntot : ℕ) → List ℕ → Type 0
InUse ntot l = All (λ node. node < ntot) l

pub schedule-IsStarting :
    (ntot : ℕ) (l : List ℕ) (s : Nodes)
    → InUse ntot l
    → IsStarting ntot s
    → IsStarting ntot (schedule ntot l s)
unfolding schedule
schedule-IsStarting ntot [] s u i = i
schedule-IsStarting ntot (node ∷ l) s (lt, u) i =
    schedule-IsStarting ntot l (barrier_step ntot node s (s.phases node)) u
      (step-IsStarting ntot node s (s.phases node) refl lt i)

-- A node has started when it waits for node 0 behind its raised bar, or serves.
abbrev pub HasStarted : Nodes → (node : ℕ) → Type 0
HasStarted s node = (s.phases node ≡ wait) ⊎ (s.phases node ≡ serve)

raised-HasStarted :
    (ntot node : ℕ) (s : Nodes) (p : Phase)
    → s.phases node ≡ p
    → IsStarting ntot s
    → (s.phases 0 ≡ serve)
    → s.bars node ≡ true
    → HasStarted s node
unfolding Fits
raised-HasStarted ntot node s (scan nd) here i open' up =
    let z = (here-Fits ntot node s (scan nd) here i).0 in
    absurd (scan-serves nd (s.phases 0) (rw z at here) open')
raised-HasStarted ntot node s arrive here i open' up =
    absurd (both (s.bars node) up (here-Fits ntot node s arrive here i).1)
raised-HasStarted ntot node s wait here i open' up = inl here
raised-HasStarted ntot node s serve here i open' up = inr here

-- After any schedule of the nodes from the start, when one node is in its loop, node 0 is in its
-- loop too, and every node has started: it waits behind its raised bar or is in its loop.
pub barrier_holds :
    (ntot : ℕ) (l : List ℕ) (n : ℕ)
    → 1 ≤ ntot
    → InUse ntot l
    → let s = schedule ntot l before_start in
      s.phases n ≡ serve → (s.phases 0 ≡ serve) × ((m : ℕ) → m < ntot → HasStarted s m)
unfolding Fits
barrier_holds ntot l n pos u serves =
    let s = schedule ntot l before_start in
    let i = schedule-IsStarting ntot l before_start u (start-IsStarting ntot pos) in
    let (first, all) = i.opened (here-Fits ntot n s serve serves i).1 in
    (first, λ m lt. raised-HasStarted ntot m s (s.phases m) refl i first (all m lt))
