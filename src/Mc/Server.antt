-- ===== src/Mc/Server.antt =====
-- The server of the message-passing memcached: `event_loop` of mc_code/mp_mc/servers/server.c, with
-- KEY_SKEW defined as the repository has it. A message is a value here, in the page in which it
-- stands until it is read.
pub mod Requests
use bi_project.Base.{
  ltb, leb, ◌==◌, if◌then◌else◌, Bool-cases, ltb→lt, ltb→le, lt→ltb, le→ltb, leb→le, leb→lt, le→leb,
  ==→eq, ==→ne, eq→==, ne→==, tests, length, length-append, All, All-append, All-mono, has, update,
  update_self, update_ne, ℕ, zero, suc, ◌+◌, ◌-◌, ◌*◌, ◌/◌, ◌%◌, ◌^◌, ◌≤◌, ◌<◌, ◌≡◌, refl, sym, ap,
  ap₂, ◌∙◌, ◌≢◌, ◌↔◌, ◌⊎◌, inl, inr, Bool, true, false, not, ◌&&◌, ◌||◌, Option, none, some, List,
  [], ◌∷◌, ◌++◌, map, append_assoc, append-nil, arith,
}
use bi_project.Base.Run.{◌>>=◌, ◌>>◌, check}
use bi_project.Mc.Items.{Bytes, memcpy, Alloc, Cache, mc_set_key_ext, mc_get_key_ext}

-- `mc_message_t`
pub data McMessage : Type 0 where
  mc_msg_get mc_msg_set mc_msg_get_ok mc_msg_get_fail mc_msg_set_ok mc_msg_set_fail : McMessage
  mc_mem_req mc_mem_reply mc_begin mc_exit : McMessage

-- `struct mc_msg`, with the key and the value that its offsets lead to; `has_data` is whether the
-- field `data` is not null.
pub record McMsg : Type 0 where
  pub type : McMessage
  pub id : ℕ
  pub hv : ℕ
  pub nkey : ℕ
  pub key : Bytes
  pub nbytes : ℕ
  pub has_data : Bool
  pub value : Bytes

-- The state of a server, and whether its loop runs (`e`).
pub record Server : Type 0 where
  pub cur_node : ℕ
  pub loading : Bool
  pub running : Bool
  pub cache : Cache

-- A message to a node
abbrev pub Sent : Type 0
Sent = Option (ℕ × McMsg)

-- The reply to a set, by what `mc_set_key_ext` returns.
pub set_reply : Server → McMsg → (ret : McMsg) → Bool × Cache → Option (Server × Sent)
set_reply s msg ret (true, c) =
    some (record s { cache = c }, some (msg.id, record ret { type = mc_msg_set_ok }))
set_reply s msg ret (false, c) =
    check s.loading
    >> some (record s { cache = c }, some (msg.id, record ret { type = mc_msg_set_fail }))

-- The cases of `event_loop`; `ret` is the page of the reply, with the sender set.
pub on_set : Alloc → Server → McMsg → (ret : McMsg) → Option (Server × Sent)
unfolding set_reply
on_set alloc s msg ret = do
  check (leb 2 msg.id)
  r ← mc_set_key_ext alloc s.cache msg.key msg.nkey msg.value msg.nbytes msg.hv
  set_reply s msg ret r

pub on_get : Server → McMsg → (ret : McMsg) → Option (Server × Sent)
on_get s msg ret =
    let got = mc_get_key_ext s.cache msg.key msg.nkey msg.hv in
    let s' : Server = record s { cache = got.1 } in
    check (leb 2 msg.id) >> elim got.0 [
      | some it ↦
          let n = s'.cache.nbytes it.addr - 2 in
          some (
            s',
            some (
              msg.id,
              record ret {
                type = mc_msg_get_ok;
                nbytes = n;
                has_data = true;
                value = memcpy ret.value (s'.cache.contents it.addr) n;
              },
            ),
          )
      | none ↦
          some
            (s', some (msg.id, record ret { type = mc_msg_get_fail; nbytes = 0; has_data = false }))
    ]

-- One round of `event_loop`; the assertion that the reply finds room is left to the ring.
pub handle : Alloc → Server → McMsg → (page : McMsg) → Option (Server × Sent)
unfolding on_set on_get
handle alloc s msg page =
    let ret : McMsg = record page { id = s.cur_node } in
    elim msg.type [
      | mc_msg_set ↦ on_set alloc s msg ret
      | mc_msg_get ↦ on_get s msg ret
      | mc_begin ↦ some (record s { loading = false }, none)
      | mc_exit ↦ some (record s { running = false }, none)
      | _ ↦ some (s, none)
    ]
