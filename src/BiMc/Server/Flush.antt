-- ===== src/BiMc/Server/Flush.antt =====
-- The flush of the quiescence rings (mc_code/bi_mc/memcache.c): which objects it reaches.
use bi_project.Base.Run.{if_true, if_false}
use bi_project.BiMc.{quis_num, Object, QscRing}
use bi_project.BiMc.Table.{Chains, assoc_flush_opt}
use bi_project.BiMc.Ring.{Queued, IsQueue}
use bi_project.BiMc.Server.{flush_loop, qsc_ring_flush, ring_length, mc_hashtbl_flush}
use bi_project.Base.{
  ◌==◌, eq→==, ne→==, length, ℕ, zero, suc, ◌+◌, ◌%◌, ◌<◌, ◌≡◌, refl, sym, ◌∙◌, false, some, List,
  [], ◌∷◌, ◌++◌, arith,
}

-- What `qsc_ring_flush` flushes for each object of the queue
abbrev pub flushes : (ℕ → Object) → Chains → List ℕ → List (ℕ × List ℕ)
flushes objs table [] = []
flushes objs table (a ∷ q) = (a, assoc_flush_opt table ((objs a).hv) a) ∷ flushes objs table q

flush_loop-flushes :
    (objs : ℕ → Object) (table : Chains) (fuel h : ℕ) (ql : QscRing) (q : List ℕ)
    → h < quis_num
    → length q < fuel
    → length q < quis_num
    → ql.tail ≡ (h + length q) % quis_num
    → Queued ql.ring h q
    → flush_loop objs table fuel h ql ≡ some (flushes objs table q)
unfolding flush_loop
flush_loop-flushes objs table zero h ql q lt enough small tl hq = absurd (omega arith)
flush_loop-flushes objs table (suc fuel) h ql [] lt enough small tl hq =
    let ends : h ≡ ql.tail = omega arith in if_true _ _ (eq→== _ _ ends)
flush_loop-flushes objs table (suc fuel) h ql (a ∷ q) lt enough small tl (e, nz, hq) =
    let more : (h == ql.tail) ≡ false = ne→== _ _ (λ z. omega arith) in
    let there : (ql.ring h == 0) ≡ false = ne→== _ _ (λ z. nz (sym e ∙ z)) in
    let rest =
      flush_loop-flushes objs table fuel ((h + 1) % quis_num) ql q (omega arith) (omega arith)
        (omega arith) (omega arith) hq in
    if_false _ _ more ∙ if_false _ _ there ∙ rw (rest, e) refl

-- On a well formed ring `qsc_ring_flush` ends, and flushes each object of the queue, in order.
pub qsc_ring_flush-flushes :
    (objs : ℕ → Object) (table : Chains) (ql : QscRing) (q : List ℕ)
    → IsQueue ql q
    → qsc_ring_flush objs table ql ≡ some (flushes objs table q)
unfolding qsc_ring_flush IsQueue
qsc_ring_flush-flushes objs table ql q (lt, room, tl, hq, nulls) =
    flush_loop-flushes objs table quis_num ql.head ql q lt room room tl hq

ring_length-length : (ql : QscRing) (q : List ℕ) → IsQueue ql q → ring_length ql ≡ length q
unfolding ring_length IsQueue
ring_length-length ql q (lt, room, tl, hq, nulls) = omega arith

-- With well formed rings, `mc_hashtbl_flush` ends; it counts the objects that wait in the rings of
-- both nodes and flushes each of them, in order, with the bucket that still holds it, if one does.
pub mc_hashtbl_flush-both :
    (objs : ℕ → Object) (table : Chains) (first second : QscRing) (p q : List ℕ)
    → IsQueue first p
    → IsQueue second q
    → mc_hashtbl_flush objs table first second
      ≡ some (length p + length q, flushes objs table p ++ flushes objs table q)
unfolding mc_hashtbl_flush
mc_hashtbl_flush-both objs table first second p q hp hq =
    rw
      (
        qsc_ring_flush-flushes objs table first p hp,
        qsc_ring_flush-flushes objs table second q hq,
        ring_length-length first p hp,
        ring_length-length second q hq,
      )
      refl
