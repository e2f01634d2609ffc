-- ===== src/Mc/TwoPhase.antt =====
-- The servers of the two-phase-commit memcached: mc_code/2pc_mc/servers/server.c, as the repository
-- configures it (KEY_SKEW is not defined, so nothing is evicted). Two servers, 0 and 1, hold the same
-- keys; a message is a value here, in the page in which it stands until it is read. The items are
-- those of the message-passing variant; `ps_slab_alloc_item` is a parameter.
pub mod Text
pub mod Commit
pub mod Replicas
use bi_project.Base.{
  ltb, leb, ◌==◌, if◌then◌else◌, Bool-cases, ltb→lt, ltb→le, lt→ltb, le→ltb, leb→le, leb→lt, le→leb,
  ==→eq, ==→ne, eq→==, ne→==, tests, length, length-append, All, All-append, All-mono, has, update,
  update_self, update_ne, update_twice, update_back, ℕ, zero, suc, ◌+◌, ◌-◌, ◌*◌, ◌/◌, ◌%◌, ◌^◌,
  ◌≤◌, ◌<◌, ◌≡◌, refl, sym, ap, ap₂, ◌∙◌, ◌≢◌, ◌↔◌, ◌⊎◌, inl, inr, Bool, true, false, not, ◌&&◌,
  ◌||◌, Option, none, some, List, [], ◌∷◌, ◌++◌, map, append_assoc, append-nil, arith,
}
use bi_project.Base.Run.{◌>>=◌, ◌>>◌, check}
use bi_project.Assoc.{Item}
use bi_project.Mc.Items.{
  Bytes, memcpy, Alloc, Cache, item_at, link_new, set_old, do_item_get, mc_get_key_ext,
}
use bi_project.Mc.TwoPhase.Text.{strncmp_eq, strncpy}

-- `log_key[]`: the bytes of each `struct commit_log`, which is a cache line: `key`, of KEY_LENGTH bytes,
-- and behind it the pointer `it`. A free entry starts with a zero byte.
abbrev pub Log : Type 0
Log = ℕ → Bytes

abbrev pub key_length : ℕ
key_length = 16

abbrev pub sizeof_commit_log : ℕ
sizeof_commit_log = 64

-- `sizeof(item *)`
abbrev pub sizeof_pointer : ℕ
sizeof_pointer = 4

-- The write of the null pointer to `it`, which it is without KEY_SKEW
abbrev pub clear_it : Bytes → Bytes
clear_it entry b = if leb key_length b && ltb b (key_length + sizeof_pointer) then 0 else entry b

-- What the loop of `mc_commit` finds.
pub data Scan : Type 0 where
  conflict : Scan
  slot : Option ℕ → Scan

-- The loop of `mc_commit` over the entries `i` to `i + left`; `w` is the last free entry so far.
pub commit_loop : Log → (key : Bytes) → (nkey left i : ℕ) → (w : Option ℕ) → Scan
commit_loop log key nkey zero i w = slot w
commit_loop log key nkey (suc left) i w =
    let as_free = commit_loop log key nkey left (i + 1) (some i) in
    let as_taken = commit_loop log key nkey left (i + 1) w in
    if log i 0 == 0 then as_free else (if strncmp_eq key (log i) nkey 0 then conflict else as_taken)

-- What `mc_commit` returns, and the log; the outer `none` is the failed assertion that an entry is
-- free, or a key that runs over the end of the entry.
pub mc_commit : Log → (key : Bytes) → (nkey : ℕ) → Option (ℕ × Log)
unfolding commit_loop
mc_commit log key nkey = elim (commit_loop log key nkey 2 0 none) [
  | conflict ↦ some (1, log)
  | slot none ↦ none
  | slot (some w) ↦
      check (leb nkey sizeof_commit_log)
      >> some (0, update log w (clear_it (strncpy (log w) key nkey)))
]

-- The loop of `mc_update`: the first entry that holds the key
pub update_loop : Log → (key : Bytes) → (nkey left i : ℕ) → Option ℕ
update_loop log key nkey zero i = none
update_loop log key nkey (suc left) i =
    let rest = update_loop log key nkey left (i + 1) in
    if strncmp_eq key (log i) nkey 0 then some i else rest

-- `mc_set_key_ext`. `none` is a failed assertion, or the endless loop that follows when there is no
-- memory. `do_item_alloc` asks for memory once here.
pub mc_set_key_ext :
    Alloc → Cache → (key : Bytes) → (nkey : ℕ) → (value : Bytes) → (nbytes hv : ℕ) → Option Cache
mc_set_key_ext alloc c key nkey value nbytes hv = elim (do_item_get c key nkey hv) [
  | some it ↦ set_old c it value nbytes
  | none ↦ (do
    item ←
        item_at key nkey (nbytes + 2)
          (alloc (record c { status = record (c.status) { alloc = c.status.alloc + 1 } }))
    r ← link_new value nbytes hv item
    check r.0
    some r.1)
]

-- `mc_update`: the entry is freed, and the value stored.
pub mc_update :
    Alloc
    → Log
    → Cache
    → (key : Bytes) → (nkey : ℕ) → (value : Bytes) → (nbytes hv : ℕ) → Option (Log × Cache)
unfolding update_loop mc_set_key_ext
mc_update alloc log c key nkey value nbytes hv = do
  i ← update_loop log key nkey 2 0
  c' ← mc_set_key_ext alloc c key nkey value nbytes hv
  some (update log i (update (log i) 0 0), c')

-- `mc_message_t`, less the two types that the servers do not use
pub data McMessage : Type 0 where
  mc_msg_get mc_msg_set mc_msg_get_ok mc_msg_get_fail mc_msg_set_ok mc_msg_set_fail : McMessage
  mc_msg_prepare mc_msg_prepare_ok mc_msg_commit mc_msg_commit_ok mc_begin mc_exit : McMessage

-- `struct mc_msg`, with the key and the value that its offsets lead to
pub record McMsg : Type 0 where
  pub type : McMessage
  pub id : ℕ
  pub hv : ℕ
  pub nkey : ℕ
  pub key : Bytes
  pub nbytes : ℕ
  pub value : Bytes

-- The state of a server, and whether its loop runs (`e`).
pub record Server : Type 0 where
  pub cur_node : ℕ
  pub client_id : ℕ
  pub loading : Bool
  pub running : Bool
  pub log : Log
  pub cache : Cache

-- A message to a node.
abbrev pub Sent : Type 0
Sent = Option (ℕ × McMsg)

-- The cases of `event_loop`. The page of a reply is `page`, whose bytes stay where nothing is written.
pub on_get : Server → McMsg → (page : McMsg) → Option (Server × Sent)
on_get s msg page =
    let got = mc_get_key_ext s.cache msg.key msg.nkey msg.hv in
    let s' : Server = record s { cache = got.1 } in
    check (leb 2 msg.id) >> elim got.0 [
      | some it ↦
          let n = s'.cache.nbytes it.addr - 2 in
          some (
            s',
            some (
              msg.id,
              record page {
                type = mc_msg_get_ok;
                id = s.cur_node;
                nbytes = n;
                value = memcpy page.value (s'.cache.contents it.addr) n;
              },
            ),
          )
      | none ↦
          some
            (s', some (msg.id, record page { type = mc_msg_get_fail; id = s.cur_node; nbytes = 0 }))
    ]

pub on_set : Server → McMsg → Option (Server × Sent)
unfolding mc_commit
on_set s msg = do
  check (leb 2 msg.id)
  r ← mc_commit s.log msg.key msg.nkey
  check (r.0 == 0)
  let c = s.cache
  some (
    record s {
      client_id = msg.id;
      log = r.1;
      cache = record c { status = record (c.status) { sets = c.status.sets + 1 } };
    },
    some (1 - s.cur_node, record msg { type = mc_msg_prepare; id = s.cur_node }),
  )

pub on_prepare : Server → McMsg → Option (Server × Sent)
unfolding mc_commit
on_prepare s msg = do
  check (msg.id == 1 - s.cur_node)
  r ← mc_commit s.log msg.key msg.nkey
  check (r.0 == 0)
  some (
    record s { log = r.1 },
    some (msg.id, record msg { type = mc_msg_prepare_ok; id = s.cur_node }),
  )

pub on_prepare_ok : Alloc → Server → McMsg → Option (Server × Sent)
unfolding mc_update
on_prepare_ok alloc s msg = do
  check (msg.id == 1 - s.cur_node)
  r ← mc_update alloc s.log s.cache msg.key msg.nkey msg.value msg.nbytes msg.hv
  some (
    record s { log = r.0; cache = r.1 },
    some (msg.id, record msg { type = mc_msg_commit; id = s.cur_node }),
  )

pub on_commit : Alloc → Server → McMsg → (page : McMsg) → Option (Server × Sent)
unfolding mc_update
on_commit alloc s msg page = do
  check (msg.id == 1 - s.cur_node)
  r ← mc_update alloc s.log s.cache msg.key msg.nkey msg.value msg.nbytes msg.hv
  some (
    record s { log = r.0; cache = r.1 },
    some (msg.id, record page { type = mc_msg_commit_ok; id = s.cur_node }),
  )

pub on_commit_ok : Server → McMsg → (page : McMsg) → Option (Server × Sent)
on_commit_ok s msg page = do
  check (msg.id == 1 - s.cur_node)
  check (s.client_id == s.cur_node + 2)
  some (s, some (s.client_id, record page { type = mc_msg_set_ok; id = s.cur_node }))

-- One round of `event_loop`. The assertions that a message finds room are left to the ring.
pub handle : Alloc → Server → McMsg → (page : McMsg) → Option (Server × Sent)
unfolding on_get on_set on_prepare on_prepare_ok on_commit on_commit_ok
handle alloc s msg page = elim msg.type [
  | mc_msg_get ↦ on_get s msg page
  | mc_msg_set ↦ on_set s msg
  | mc_msg_prepare ↦ on_prepare s msg
  | mc_msg_prepare_ok ↦ on_prepare_ok alloc s msg
  | mc_msg_commit ↦ on_commit alloc s msg page
  | mc_msg_commit_ok ↦ on_commit_ok s msg page
  | mc_begin ↦ some (record s { loading = false }, none)
  | mc_exit ↦ some (record s { running = false }, none)
  | _ ↦ some (s, none)
]

-- The exchange that a message starts among the servers, until a message leaves for a client. On
-- fuel; `none` means that it ran out, or that a server stopped, or answered nothing.
pub exchange :
    (fuel : ℕ)
    → Alloc
    → (ℕ → Server)
    → (page : McMsg) → (node : ℕ) → McMsg
    → Option ((ℕ → Server) × ℕ × McMsg)
unfolding handle
exchange zero alloc servers page node msg = none
exchange (suc fuel) alloc servers page node msg =
    if leb 2 node
    then some (servers, node, msg)
    else (handle alloc (servers node) msg page >>= (λ r. elim r.1 [
      | none ↦ none
      | some m ↦ exchange fuel alloc (update servers node r.0) page m.0 m.1
    ]))
