-- ===== src/BiMc/Tests.antt =====
-- Concrete servers of mc_code/bi_mc on which the theorems are applied: a small allocator, a server
-- with one key in its table, and one with two objects in its ring.
use mathlib.Core.Option.{some-injective}
use bi_project.BiMc.{
  quis_num, Bytes, Object, McStatus, QscRing, Env, Node, mem_smr_reclaim, parsec_mem_free,
}
use bi_project.BiMc.Memory.{slab_evict}
use bi_project.BiMc.Evict.{slab_evict-EvictsTo}
use bi_project.BiMc.Client.{SetThenGet, mc_set_key-mc_get_key}
use bi_project.BiMc.Laws.{Laws}
use bi_project.BiMc.Table.Chain.{Unique}
use bi_project.BiMc.Items.{item_make_header}
use bi_project.BiMc.Memory.{mc_slab_obj_sz}
use bi_project.BiMc.Ring.{IsQueue}
use bi_project.BiMc.Ring.Expired.{IsQuiescing, ReclaimsTo, mem_smr_reclaim-expired}
use bi_project.BiMc.Ring.Free.{FreesLater, parsec_mem_free-queue}
use bi_project.BiMc.Keys.Serving.{Linked, IsServing}
use bi_project.BiMc.Server.{McMsg, mc_exit, Loop, mc_hashtbl_flush, set_request, handle}
use bi_project.BiMc.Server.Flush.{flushes, mc_hashtbl_flush-both}
use bi_project.BiMc.Server.Rounds.{TasksTo, round-TasksTo}
use bi_project.BiMc.Server.Replies.{RepliesTo, set-RepliesTo}
use bi_project.Base.{
  ◌==◌, if◌then◌else◌, Bool-cases, ==→eq, ne→==, All, has, ℕ, suc, ◌+◌, ◌%◌, ◌≤◌, ◌≡◌, refl, sym,
  ap, ◌≢◌, inl, inr, Bool, true, false, none, some, List, [], ◌∷◌, ◌++◌, arith,
}

-- An allocator that hands out the next number each time
abbrev counter : Env ℕ
counter = record {
  objmem = 128;
  nobjs = 2;
  in_use = 0;
  take = λ l. some (suc l, suc l);
  add_page = λ s l. l;
  free_item = λ a l. (none, l);
  coreid = λ l a. 0;
  el = λ l. 0;
  fl = λ l. 0;
  next = λ l s. 0;
  slab = λ l s. record { coreid = 0; nfree = 0; memsz = 16384; first = 1 };
  find_set = λ l k. (none, l);
  set_contig = λ off k l. l;
  tsc = λ k. 100000000 + k % 1000;
}

no_page : (s : ℕ) → none ≡ some s → ⊥
no_page s e = ground arith

abbrev counter_laws : Laws counter 0 0
counter_laws = record {
  Held = λ l a. a ≤ l;
  server = refl;
  small = omega arith;
  owner = λ l a h. refl;
  take-Fresh = λ l l' a e.
      let next : (suc l, suc l) ≡ (a, l') = some-injective (suc l, suc l) (a, l') e in
      let first : suc l ≡ a = ap (λ p. p.0) next in
      let second : suc l ≡ l' = ap (λ p. p.1) next in
      ((λ z. absurd (omega arith)), (λ h. omega arith), omega arith, λ b h. omega arith);
  page-takes = λ l s. ((suc l, suc l), refl);
  page-Held = λ l s b h. h;
  free-Held = λ l a b h ne. h;
  free-page = λ l a s h e. absurd (no_page s e);
  find-Held = λ l k b h. h;
  set-Held = λ l off k b h. h;
}

abbrev bytes : ℕ → Bytes
bytes c i = c

abbrev object : (tsc_free : ℕ) → (linked : Bool) → Object
object t linked = record {
  tsc_free = t;
  hv = 0;
  nkey = 16;
  nbytes = 34;
  key = bytes 7;
  contents = bytes 1;
  linked = linked;
  slabbed = false;
}

abbrev status : (quiesce : ℕ) → McStatus
status quiesce = record {
  target = 1000000;
  used = 1000;
  quiesce = quiesce;
  gets = 0;
  sets = 0;
  alloc = 0;
  free = 0;
  confict = 0;
  evict = 0;
  base = 0;
}

abbrev empty_ring : QscRing
empty_ring = record { head = 0; tail = 0; ring = λ i. 0 }

-- Two objects wait; the first was freed long ago.
abbrev two_ring : QscRing
two_ring = record { head = 0; tail = 2; ring = λ i. if i == 0 then 2 else if i == 1 then 3 else 0 }

-- Object 1 is in the table.
abbrev one_key : QscRing → (quiesce : ℕ) → Node ℕ
one_key ring quiesce = record {
  status = status quiesce;
  qsc_list = ring;
  table = λ b. if b == 0 then 1 ∷ [] else [];
  objs = λ a.
      if a == 1 then object 0 true else if a == 2 then object 1000 false else object 99999999 false;
  lists = 4;
  loading = false;
  ticks = 0;
}

empty-IsQueue : IsQueue empty_ring []
unfolding IsQueue
empty-IsQueue = (omega arith, omega arith, refl, tt, λ d le lt. refl)

two-IsQueue : IsQueue two_ring (2 ∷ 3 ∷ [])
unfolding IsQueue
two-IsQueue = (
  omega arith,
  omega arith,
  refl,
  (refl, (λ e. absurd (omega arith)), (refl, (λ e. absurd (omega arith)), tt)),
  λ d le lt.
      let small : (0 + d) % quis_num ≡ d = omega arith in
      let not_0 : d ≢ 0 = omega arith in
      let not_1 : d ≢ 1 = omega arith in rw (small, ne→== d 0 not_0, ne→== d 1 not_1) refl,
)

-- The table of both servers
one-Linked :
    (ring : QscRing) (quiesce : ℕ) (q : List ℕ)
    → All (λ c. c ≢ 1) q
    → (b : ℕ)
    → All
        (Linked counter 0 0 counter_laws (one_key ring quiesce).objs 4 q b)
        (if b == 0 then 1 ∷ [] else [])
one-Linked ring quiesce q out b = elim (Bool-cases (b == 0)) [
  | inr ne ↦ rw ne tt
  | inl e ↦
      rw e (((λ z. absurd (omega arith)), omega arith, refl, refl, sym (==→eq _ _ e), out), tt)
]

one-Unique : (objs : ℕ → Object) (b : ℕ) → Unique objs (if b == 0 then 1 ∷ [] else [])
one-Unique objs b = elim (Bool-cases (b == 0)) [ inr ne ↦ rw ne tt | inl e ↦ rw e (tt, tt) ]

empty-IsServing : IsServing counter 0 0 counter_laws (one_key empty_ring 0) []
unfolding IsServing IsQuiescing
empty-IsServing = (
  (empty-IsQueue, tt, tt, refl, refl),
  one-Linked empty_ring 0 [] tt,
  one-Unique (one_key empty_ring 0).objs,
)

two-IsQuiescing : IsQuiescing counter 0 0 counter_laws (one_key two_ring 256) (2 ∷ 3 ∷ [])
unfolding IsQuiescing
two-IsQuiescing = (
  two-IsQueue,
  (((λ e. absurd (omega arith)), tt), (tt, tt)),
  (omega arith, (omega arith, tt)),
  refl,
  refl,
)

two-IsServing : IsServing counter 0 0 counter_laws (one_key two_ring 256) (2 ∷ 3 ∷ [])
unfolding IsServing
two-IsServing = (
  two-IsQuiescing,
  one-Linked two_ring 256 (2 ∷ 3 ∷ [])
      ((λ e. absurd (omega arith)), ((λ e. absurd (omega arith)), tt)),
  one-Unique (one_key two_ring 256).objs,
)

abbrev message : McMsg
message = record {
  type = mc_exit;
  id = 2;
  nkey = 0;
  nbytes = 0;
  hv = 0;
  key = bytes 0;
  value = bytes 0;
}

abbrev loop : QscRing → (quiesce : ℕ) → Loop ℕ
loop ring quiesce = record {
  node = one_key ring quiesce;
  prev0 = 1;
  prev1 = 1;
  e = true;
  num = 0;
  db = 0;
}

sizes : item_make_header (16 + 1) (32 + 2) ≡ mc_slab_obj_sz
unfolding item_make_header
sizes = refl

mem_smr_reclaim-expired_example :
    ReclaimsTo counter 0 0 counter_laws 100000000
      (one_key two_ring 256)
      (2 ∷ 3 ∷ [])
      (mem_smr_reclaim counter 0 (one_key two_ring 256))
mem_smr_reclaim-expired_example =
    mem_smr_reclaim-expired counter 0 0 counter_laws (one_key two_ring 256) (2 ∷ 3 ∷ [])
      two-IsQuiescing (omega arith) (omega arith)

parsec_mem_free-queue_example :
    FreesLater counter 0 0 counter_laws 4
      (one_key two_ring 256)
      (2 ∷ 3 ∷ [])
      (parsec_mem_free counter 0 4 (one_key two_ring 256))
parsec_mem_free-queue_example =
    parsec_mem_free-queue counter 0 0 counter_laws 4 (one_key two_ring 256) (2 ∷ 3 ∷ [])
      two-IsQuiescing (omega arith) (λ e. absurd (omega arith))
      ((λ e. absurd (omega arith)), ((λ e. absurd (omega arith)), tt)) (omega arith) (omega arith)
      (inl (omega arith))

mc_hashtbl_flush-both_example :
    mc_hashtbl_flush (one_key two_ring 256).objs (one_key two_ring 256).table two_ring empty_ring
    ≡ some (2, flushes (one_key two_ring 256).objs (one_key two_ring 256).table (2 ∷ 3 ∷ []))
mc_hashtbl_flush-both_example =
    mc_hashtbl_flush-both (one_key two_ring 256).objs (one_key two_ring 256).table two_ring
      empty_ring (2 ∷ 3 ∷ []) [] two-IsQueue empty-IsQueue

round-TasksTo_example :
    TasksTo counter 0 0 counter_laws empty_ring
      (some message)
      message
      (loop two_ring 256)
      (2 ∷ 3 ∷ [])
round-TasksTo_example =
    round-TasksTo counter 0 0 counter_laws empty_ring [] (some message) message (loop two_ring 256)
      (2 ∷ 3 ∷ []) two-IsServing empty-IsQueue (λ k. (omega arith, omega arith))

set-RepliesTo_example :
    RepliesTo counter 0 0 counter_laws 2
      (bytes 7)
      16
      (bytes 9)
      32
      0
      (loop two_ring 256)
      (2 ∷ 3 ∷ [])
      (handle counter 0 (set_request 2 (bytes 7) 16 (bytes 9) 32 0) message (loop two_ring 256))
set-RepliesTo_example =
    set-RepliesTo counter 0 0 counter_laws 2 (bytes 7) 16 (bytes 9) 32 0 message (loop two_ring 256)
      (2 ∷ 3 ∷ []) (omega arith) two-IsServing (inl ((5, 5), refl)) sizes (omega arith) refl
      (omega arith) (omega arith) (omega arith)

-- The slab of object 1, which is in the table, and of an object that is not in use
slab_evict-EvictsTo_example :
    (n' : Node ℕ) × (slab_evict counter 0 4096 (one_key two_ring 256) ≡ some n')
    × IsServing counter 0 0 counter_laws n' ((2 ∷ 3 ∷ []) ++ (1 ∷ []))
    × ((b d : ℕ)
        → All (λ x. d ≢ x) (1 ∷ [])
        → has d (n'.table b) ≡ has d ((one_key two_ring 256).table b))
slab_evict-EvictsTo_example =
    slab_evict-EvictsTo counter 0 0 counter_laws 4096 (one_key two_ring 256) (2 ∷ 3 ∷ [])
      two-IsServing refl refl ((λ e. (refl, refl)), ((λ e. absurd (omega arith)), tt)) (omega arith)
      (omega arith) (λ k. (omega arith, omega arith))

mc_set_key-mc_get_key_example :
    SetThenGet counter 0 0 counter_laws
      (λ key nkey. 5)
      2
      (bytes 7)
      16
      32
      message
      (loop two_ring 256)
mc_set_key-mc_get_key_example =
    mc_set_key-mc_get_key counter 0 0 counter_laws (λ key nkey. 5) 2 (bytes 7) 16 32 message
      (loop two_ring 256) (2 ∷ 3 ∷ []) (omega arith) refl two-IsServing (inl ((5, 5), refl)) sizes
      (omega arith) (omega arith) (omega arith) (omega arith)
