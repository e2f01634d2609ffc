-- ===== src/Startup.antt =====
-- The start of the nodes and the loop of their servers: libs/bi/bi_init.c. Each node has a word in
-- the shared memory, its bar; a node's accesses to bars are written back, and read again from memory.
pub mod Barrier
pub mod Loop
mod Tests
use bi_project.Base.{
  ltb, leb, ◌==◌, if◌then◌else◌, Bool-cases, ltb→lt, ltb→le, lt→ltb, le→ltb, leb→le, leb→lt, le→leb,
  ==→eq, ==→ne, eq→==, ne→==, tests, length, length-append, All, All-append, All-mono, has, update,
  update_self, update_ne, ℕ, zero, suc, ◌+◌, ◌-◌, ◌*◌, ◌/◌, ◌%◌, ◌^◌, ◌≤◌, ◌<◌, ◌≡◌, refl, sym, ap,
  ap₂, ◌∙◌, ◌≢◌, ◌↔◌, ◌⊎◌, inl, inr, Bool, true, false, not, ◌&&◌, ◌||◌, Option, none, some, List,
  [], ◌∷◌, ◌++◌, map, append_assoc, append-nil, arith,
}

-- Where a node is in `bi_server_run`: node 0 waits for the bar of node `nd`, another node arrives
-- and then waits for the bar of node 0; at last the node is in its loop.
pub data Phase : Type 0 where
  scan : (nd : ℕ) → Phase
  arrive wait serve : Phase

-- The bars (`global_layout->bars`), which are cleared at the start, and the nodes.
pub record Nodes : Type 0 where
  pub bars : ℕ → Bool
  pub phases : ℕ → Phase

abbrev pub first_phase : ℕ → Phase
first_phase node = if node == 0 then scan 1 else arrive

pub before_start : Nodes
before_start = record { bars = λ n. false; phases = first_phase }

-- What a node does next: one test of a loop of the start barrier, or one write.
pub barrier_step : (ntot node : ℕ) → Nodes → Phase → Nodes
barrier_step ntot node s (scan nd) =
    if ltb nd ntot
    then (if s.bars nd then record s { phases = update s.phases node (scan (nd + 1)) } else s)
    else record s { bars = update s.bars 0 true; phases = update s.phases node serve }
barrier_step ntot node s arrive = record s {
  bars = update s.bars node true;
  phases = update s.phases node wait;
}
barrier_step ntot node s wait =
    if s.bars 0 then record s { phases = update s.phases node serve } else s
barrier_step ntot node s serve = s

-- The nodes of a schedule move one after the other.
pub schedule : (ntot : ℕ) → List ℕ → Nodes → Nodes
unfolding barrier_step
schedule ntot [] s = s
schedule ntot (node ∷ l) s = schedule ntot l (barrier_step ntot node s (s.phases node))
