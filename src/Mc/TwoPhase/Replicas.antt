-- ===== src/Mc/TwoPhase/Replicas.antt =====
-- A set of a key at one server reaches both, and the client is told when both have it.
use bi_project.Base.{
  leb, ◌==◌, le→leb, eq→==, update, update_self, update_ne, ℕ, suc, ◌+◌, ◌-◌, ◌≤◌, ◌<◌, ◌≡◌, refl,
  sym, ap, ◌∙◌, ◌≢◌, Bool, true, false, Option, none, some, arith,
}
use bi_project.Assoc.{assoc_find}
use bi_project.Mc.Items.{hashpower, Alloc}
use bi_project.Mc.Items.Kept.{Room, stored_size, Holds}
use bi_project.Mc.TwoPhase.{
  key_length, ◌>>◌, check, Log, McMsg, McMessage, mc_msg_set, mc_msg_prepare, mc_msg_prepare_ok,
  mc_msg_commit, mc_msg_commit_ok, mc_msg_set_ok, Server, Sent, handle, exchange, on_set,
  on_prepare, on_prepare_ok, on_commit, on_commit_ok,
}
use bi_project.Mc.TwoPhase.Commit.{
  Idle, Provides, prepared, commit-Idle, commit-Logged, prepared-Logged, update-Holds,
}
use bi_project.Mc.TwoPhase.Text.{NoNul}

-- The server of a node, with no update that is prepared.
abbrev pub Ready : Server → (node : ℕ) → Type 0
Ready s node = (s.cur_node ≡ node) × Idle s.log

-- The key of a message: some bytes, none of which is zero, no more than `struct commit_log` has room for.
abbrev pub ProperKey : McMsg → Type 0
ProperKey msg = (0 < msg.nkey) × (msg.nkey ≤ key_length) × NoNul msg.key msg.nkey

-- The value of the message fits into the item that holds the key, or into a new one.
abbrev pub HasRoom : Server → McMsg → Type 0
HasRoom s msg =
    Room (assoc_find hashpower s.cache.table msg.key msg.nkey msg.hv) s.cache.nbytes msg.nkey
      msg.nbytes

-- A server after the value of the message is stored in it.
abbrev pub Replica : McMsg → (before after : Server) → (node : ℕ) → Type 0
Replica msg s s' node =
    Ready s' node
    × Holds s'.cache msg.key msg.nkey msg.hv msg.value msg.nbytes (
        stored_size (assoc_find hashpower s.cache.table msg.key msg.nkey msg.hv) s.cache.nbytes
          msg.nbytes)

-- The server after its first part of an update
abbrev after_set : Server → McMsg → Server
after_set s msg =
    let c = s.cache in
    record s {
      client_id = msg.id;
      log = prepared s.log msg.key msg.nkey;
      cache = record c { status = record (c.status) { sets = c.status.sets + 1 } };
    }

abbrev after_prepare : Server → McMsg → Server
after_prepare s msg = record s { log = prepared s.log msg.key msg.nkey }

-- The message that carries the update on
abbrev passed : McMsg → McMessage → (node : ℕ) → McMsg
passed msg type node = record msg { type = type; id = node }

set_round :
    (s : Server) (msg : McMsg) (n : ℕ)
    → Ready s n
    → msg.nkey ≤ key_length
    → 2 ≤ msg.id
    → on_set s msg ≡ some (after_set s msg, some (1 - n, passed msg mc_msg_prepare n))
unfolding on_set
set_round s msg n (here, idle) short le =
    rw (le→leb 2 msg.id le, commit-Idle s.log msg.key msg.nkey idle short, here)

prepare_round :
    (s : Server) (msg : McMsg) (m : ℕ)
    → Ready s m
    → msg.nkey ≤ key_length
    → msg.id ≡ 1 - m
    → on_prepare s msg ≡ some (after_prepare s msg, some (1 - m, passed msg mc_msg_prepare_ok m))
unfolding on_prepare
prepare_round s msg m (here, idle) short from =
    rw (here, from, eq→== (1 - m) (1 - m) refl, commit-Idle s.log msg.key msg.nkey idle short)

prepare_ok_round :
    (alloc : Alloc) (s : Server) (log : Log) (msg : McMsg) (n : ℕ)
    → Provides alloc
    → ProperKey msg
    → s.cur_node ≡ n
    → Idle log
    → s.log ≡ prepared log msg.key msg.nkey
    → msg.id ≡ 1 - n
    → HasRoom s msg
    → (s' : Server) × (on_prepare_ok alloc s msg
        ≡ some (s', some (1 - n, passed msg mc_msg_commit n)))
      × (s'.client_id ≡ s.client_id)
      × Replica msg s s' n
unfolding on_prepare_ok
prepare_ok_round alloc s log msg n serves (pos, small, clean) here idle logged from room =
    let (log', c', done, idle', holds) =
      update-Holds alloc log s.cache msg.key msg.nkey msg.value msg.nbytes msg.hv serves pos small
        clean idle room in
    (
      record s { log = log'; cache = c' },
      rw (here, from, eq→== (1 - n) (1 - n) refl, logged, done),
      refl,
      ((here, idle'), holds),
    )

commit_round :
    (alloc : Alloc) (s : Server) (log : Log) (msg page : McMsg) (m : ℕ)
    → Provides alloc
    → ProperKey msg
    → s.cur_node ≡ m
    → Idle log
    → s.log ≡ prepared log msg.key msg.nkey
    → msg.id ≡ 1 - m
    → HasRoom s msg
    → (s' : Server) × (on_commit alloc s msg page
        ≡ some (s', some (1 - m, passed page mc_msg_commit_ok m)))
      × Replica msg s s' m
unfolding on_commit
commit_round alloc s log msg page m serves (pos, small, clean) here idle logged from room =
    let (log', c', done, idle', holds) =
      update-Holds alloc log s.cache msg.key msg.nkey msg.value msg.nbytes msg.hv serves pos small
        clean idle room in
    (
      record s { log = log'; cache = c' },
      rw (here, from, eq→== (1 - m) (1 - m) refl, logged, done),
      ((here, idle'), holds),
    )

commit_ok_round :
    (s : Server) (msg page : McMsg) (n : ℕ)
    → s.cur_node ≡ n
    → s.client_id ≡ n + 2
    → msg.id ≡ 1 - n
    → on_commit_ok s msg page ≡ some (s, some (n + 2, passed page mc_msg_set_ok n))
unfolding on_commit_ok
commit_ok_round s msg page n here client from =
    rw (here, from, client, eq→== (1 - n) (1 - n) refl, eq→== (n + 2) (n + 2) refl)

-- One round at a server, and the end at a client
round :
    (fuel : ℕ) (alloc : Alloc) (servers : ℕ → Server) (page : McMsg) (node : ℕ) (msg : McMsg)
    → (s' : Server) (m : ℕ) (msg' : McMsg) → node < 2
    → handle alloc (servers node) msg page ≡ some (s', some (m, msg'))
    → exchange (suc fuel) alloc servers page node msg
      ≡ exchange fuel alloc (update servers node s') page m msg'
unfolding exchange
round fuel alloc servers page node msg s' m msg' lt e = rw (below, e)
  where
    below : leb 2 node ≡ false
    below = ground arith

to_client :
    (fuel : ℕ) (alloc : Alloc) (servers : ℕ → Server) (page : McMsg) (node : ℕ) (msg : McMsg)
    → 2 ≤ node
    → exchange (suc fuel) alloc servers page node msg ≡ some (servers, node, msg)
unfolding exchange
to_client fuel alloc servers page node msg le = rw (le→leb 2 node le)

under :
    (servers : ℕ → Server) (i j : ℕ) (a b : Server) → i ≢ j → update (update servers i a) j b i ≡ a
under servers i j a b ne =
    update_ne (update servers i a) j i b (λ e. ne (sym e)) ∙ update_self servers i a

-- When both servers have no update under way, the allocator gives memory, the key has 1 to 16
-- bytes, none of them zero, and the value fits, at each server, into the item that holds the key or
-- into a new one, a set that a client of server `n` sends makes the five rounds of the servers end
-- without a failed assertion (that a ring has room is not in the model), and the client is told of
-- success; then both servers find the value under the key, with the size of the item that held it
-- before, if one did, and have no update under way.
pub two_phase_replicates :
    (alloc : Alloc) (servers : ℕ → Server) (page msg : McMsg) (n : ℕ)
    → n < 2
    → Ready (servers n) n
    → Ready (servers (1 - n)) (1 - n)
    → Provides alloc
    → ProperKey msg
    → HasRoom (servers n) msg
    → HasRoom (servers (1 - n)) msg
    → msg.type ≡ mc_msg_set
    → msg.id ≡ n + 2
    → (servers' : ℕ → Server) × (reply : McMsg) × (exchange 6 alloc servers page n msg
        ≡ some (servers', n + 2, reply))
      × (reply.type ≡ mc_msg_set_ok)
      × Replica msg (servers n) (servers' n) n
      × Replica msg (servers (1 - n)) (servers' (1 - n)) (1 - n)
unfolding handle
two_phase_replicates alloc servers page msg n small here there serves proper room_n room_m is_set
      from =
    let m : ℕ = 1 - n in
    let n≢m : n ≢ m = λ e. omega arith in
    let back : 1 - m ≡ n = omega arith in
    let s1 = after_set (servers n) msg in
    let msg1 = passed msg mc_msg_prepare n in
    let t1 = after_prepare (servers m) msg1 in
    let msg2 = passed msg1 mc_msg_prepare_ok m in
    let (s2, e2, client, kept_n) =
      prepare_ok_round alloc s1 (servers n).log msg2 n serves proper here.0 here.1 refl refl
        room_n in
    let msg3 = passed msg2 mc_msg_commit n in
    let (t2, e3, kept_m) =
      commit_round alloc t1 (servers m).log msg3 page m serves proper there.0 there.1 refl
        (sym back) room_m in
    let msg4 = passed page mc_msg_commit_ok m in
    let e4 = commit_ok_round s2 msg4 page n kept_n.0.0 (client ∙ from) refl in
    let w1 = update servers n s1 in
    let w2 = update w1 m t1 in
    let w3 = update w2 n s2 in
    let w4 = update w3 m t2 in
    let w5 = update w4 n s2 in
    let m<2 : m < 2 = omega arith in
    let r1 =
      round 5 alloc servers page n msg s1 m msg1 small
        (rw is_set (set_round (servers n) msg n here proper.1 (omega arith))) in
    let r2 = round 4 alloc w1 page m msg1 t1 (1 - m) msg2 m<2 (
      rw (update_ne servers n m s1 n≢m)
        (prepare_round (servers m) msg1 m there proper.1 (sym back))) in
    let r3 = round 3 alloc w2 page n msg2 s2 m msg3 small (rw (under servers n m s1 t1 n≢m) e2) in
    let r4 =
      round 2 alloc w3 page m msg3 t2 (1 - m) msg4 m<2
        (rw (under w1 m n t1 s2 (λ e. n≢m (sym e))) e3) in
    let r5 =
      round 1 alloc w4 page n msg4 s2 (n + 2) (passed page mc_msg_set_ok n) small
        (rw (under w2 n m s2 t2 n≢m) e4) in
    let r6 = to_client 0 alloc w5 page (n + 2) (passed page mc_msg_set_ok n) (omega arith) in
    let at_n : w5 n ≡ s2 = update_self w4 n s2 in
    let at_m : w5 m ≡ t2 = under w3 m n t2 s2 (λ e. n≢m (sym e)) in
    (
      w5,
      passed page mc_msg_set_ok n,
      r1
          ∙ r2
          ∙ ap (λ x. exchange 4 alloc w2 page x msg2) back
          ∙ r3
          ∙ r4
          ∙ ap (λ x. exchange 2 alloc w4 page x msg4) back
          ∙ r5
          ∙ r6,
      refl,
      rw at_n kept_n,
      rw at_m kept_m,
    )

-- A server without an update under way accepts a set of a key of 1 to 16 bytes, none of them zero;
-- if the other server then asks it to prepare the same key, an assertion fails and it stops.
pub set-prepare_conflict :
    (s : Server) (msg other : McMsg) (n : ℕ)
    → Ready s n
    → 2 ≤ msg.id
    → ProperKey msg
    → other.key ≡ msg.key
    → other.nkey ≡ msg.nkey
    → (s' : Server) × (on_set s msg
        ≡ some (s', some (1 - n, record msg { type = mc_msg_prepare; id = n })))
      × (on_prepare s' other ≡ none)
unfolding on_prepare
set-prepare_conflict s msg other n ready le (pos, small, clean) same_key same_nkey = (
  after_set s msg,
  set_round s msg n ready small le,
  rw
      (
        same_key,
        same_nkey,
        commit-Logged (prepared s.log msg.key msg.nkey) msg.key msg.nkey ready.1.0
            (prepared-Logged s.log msg.key msg.nkey pos small clean),
      )
      (stops (other.id == 1 - s.cur_node) _ refl),
)
  where
    stops : (b : Bool) (r : Option (Server × Sent)) → r ≡ none → (check b >> r) ≡ none
    stops true r e = e
    stops false r e = refl
