-- ===== src/Mc/Client.antt =====
-- A client of the message-passing memcached: the requests of mc_code/mp_mc/clients/client.c, together
-- with the server's round that answers them. That the rings carry a message is Mc/Queue. The hash
-- function is another project's; it is a parameter.
pub mod Calls
mod Tests
use bi_project.Base.{
  ltb, leb, ◌==◌, if◌then◌else◌, Bool-cases, ltb→lt, ltb→le, lt→ltb, le→ltb, leb→le, leb→lt, le→leb,
  ==→eq, ==→ne, eq→==, ne→==, tests, length, length-append, All, All-append, All-mono, has, update,
  update_self, update_ne, ℕ, zero, suc, ◌+◌, ◌-◌, ◌*◌, ◌/◌, ◌%◌, ◌^◌, ◌≤◌, ◌<◌, ◌≡◌, refl, sym, ap,
  ap₂, ◌∙◌, ◌≢◌, ◌↔◌, ◌⊎◌, inl, inr, Bool, true, false, not, ◌&&◌, ◌||◌, Option, none, some, List,
  [], ◌∷◌, ◌++◌, map, append_assoc, append-nil, arith,
}
use bi_project.Base.Run.{◌>>=◌, ◌>>◌, check}
use bi_project.Mc.Items.{hashpower, Bytes, memcpy, Alloc}
use bi_project.Mc.Server.{
  McMessage, mc_msg_get, mc_msg_set, mc_msg_get_ok, mc_msg_get_fail, mc_msg_set_ok, mc_msg_set_fail,
  McMsg, Server, handle,
}

-- KEY_LENGTH, V_LENGTH, PAGE_SIZE, and the size of `struct mc_msg` with pointers of 64 bits
abbrev pub key_length : ℕ
key_length = 16

abbrev pub v_length : ℕ
v_length = 32

abbrev pub page_size : ℕ
page_size = 4096

abbrev pub sizeof_mc_msg : ℕ
sizeof_mc_msg = 48

-- The byte `'$'`, with which every value of the benchmark begins.
abbrev pub dollar : ℕ
dollar = 36

-- The server of a hash value. `tot` is one less than a power of two, so that the mask is a remainder.
abbrev pub hv2node : ℕ → ℕ
hv2node hv = let tot = 2 ^ hashpower - 1 in if ltb (tot / 2) (hv % (tot + 1)) then 1 else 0

-- The servers after a server's answer to the message, and the answer, whose page is `page`; `none`
-- when a server stops, or sends nothing to the node that asks.
pub answer :
    Alloc → (ℕ → Server) → (page : McMsg) → (node : ℕ) → McMsg → Option ((ℕ → Server) × McMsg)
answer alloc servers page node msg = handle alloc (servers node) msg page >>= (λ r. elim r.1 [
  | none ↦ none
  | some m ↦ check (m.0 == msg.id) >> some (update servers node r.0, m.1)
])

-- The requests, written into the page `old`
abbrev pub get_msg :
    (hash : Bytes → ℕ → ℕ) → (old : McMsg) → (cur_node : ℕ) → (key : Bytes) → (nkey : ℕ) → McMsg
get_msg hash old cur_node key nkey = record old {
  type = mc_msg_get;
  id = cur_node;
  hv = hash key nkey;
  nkey = nkey;
  key = memcpy old.key key nkey;
}

abbrev pub set_msg :
    (hash : Bytes → ℕ → ℕ)
    → (old : McMsg) → (cur_node : ℕ) → (key : Bytes) → (nkey : ℕ) → (value : Bytes) → (nbytes : ℕ)
    → McMsg
set_msg hash old cur_node key nkey value nbytes = record old {
  type = mc_msg_set;
  id = cur_node;
  hv = hash key key_length;
  nkey = nkey;
  key = memcpy old.key key nkey;
  nbytes = nbytes;
  has_data = true;
  value = memcpy old.value value nbytes;
}

-- What `client_get_key` makes of the answer: `true` is the return of 0, and `false` of -1.
pub get_result : (node : ℕ) → McMsg → Option Bool
get_result node msg = check (msg.id == node) >> elim msg.type [
  | mc_msg_get_ok ↦
      check (msg.nbytes == v_length)
      >> (check msg.has_data >> (check (msg.value 0 == dollar) >> some true))
  | mc_msg_get_fail ↦ check (msg.nbytes == 0) >> (check (not msg.has_data) >> some false)
  | _ ↦ none
]

pub client_get_key :
    (hash : Bytes → ℕ → ℕ)
    → Alloc
    → (ℕ → Server)
    → (old page : McMsg) → (cur_node : ℕ) → (key : Bytes) → (nkey : ℕ)
    → Option (Bool × (ℕ → Server))
unfolding answer get_result
client_get_key hash alloc servers old page cur_node key nkey = do
  check (ltb (sizeof_mc_msg + nkey) page_size)
  let node = hv2node (hash key nkey)
  r ← answer alloc servers page node (get_msg hash old cur_node key nkey)
  found ← get_result node r.1
  some (found, r.0)

-- What `client_set_key` makes of the answer
pub set_result : (node : ℕ) → McMsg → Option Bool
set_result node msg =
    check (msg.id == node)
    >> elim msg.type [ mc_msg_set_ok ↦ some true | mc_msg_set_fail ↦ some false | _ ↦ none ]

pub client_set_key :
    (hash : Bytes → ℕ → ℕ)
    → Alloc
    → (ℕ → Server)
    → (old page : McMsg) → (cur_node : ℕ) → (key : Bytes) → (nkey : ℕ) → (value : Bytes)
    → (nbytes : ℕ) → Option (Bool × (ℕ → Server))
unfolding answer set_result
client_set_key hash alloc servers old page cur_node key nkey value nbytes = do
  check (ltb (sizeof_mc_msg + nkey + nbytes) page_size)
  let node = hv2node (hash key key_length)
  r ← answer alloc servers page node (set_msg hash old cur_node key nkey value nbytes)
  stored ← set_result node r.1
  some (stored, r.0)
