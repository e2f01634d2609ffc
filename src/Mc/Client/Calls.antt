-- ===== src/Mc/Client/Calls.antt =====
-- The calls of the clients succeed on the servers that they fill, and a get returns what a set stored.
use bi_project.Base.{
  ltb, ◌==◌, Bool-cases, lt→ltb, ==→eq, eq→==, update, update_self, ℕ, ◌+◌, ◌-◌, ◌≤◌, ◌<◌, ◌≡◌,
  refl, sym, ap, ◌∙◌, inl, inr, Bool, true, false, Option, none, some, arith,
}
use bi_project.BiMc.Items.{digits}
use bi_project.Assoc.Lookup.{find-All, find-nkey, find-agree}
use bi_project.Assoc.{Item, assoc_find}
use bi_project.Mc.Items.{hashpower, Bytes, memcpy, Alloc, Cache, mc_get_key_ext}
use bi_project.Mc.Items.Kept.{Room, Serves, stored_size, Holds, get-agree, get-find}
use bi_project.Mc.Items.Uniform.{Uniform, KeepsUniform, IsFull, get-Uniform}
use bi_project.Mc.Server.{McMsg, mc_msg_get_ok, mc_msg_get_fail, Server, handle}
use bi_project.Mc.Server.Requests.{set-served, get-found, get-missed}
use bi_project.Mc.Client.{
  key_length, v_length, page_size, sizeof_mc_msg, dollar, hv2node, answer, get_msg, set_msg,
  get_result, set_result, client_get_key, client_set_key,
}

-- Both servers have their numbers, and hold values of the clients only.
abbrev pub IsServing : (ℕ → Server) → Type 0
IsServing servers =
    (n : ℕ) → n < 2 → ((servers n).cur_node ≡ n) × Uniform (servers n).cache v_length dollar

node_in : (hv : ℕ) → hv2node hv < 2
node_in hv = ground arith

answer-sent :
    (alloc : Alloc) (servers : ℕ → Server) (page : McMsg) (node : ℕ) (msg : McMsg)
    → (s' : Server) (m : McMsg) → handle alloc (servers node) msg page ≡ some (s', some (msg.id, m))
    → answer alloc servers page node msg ≡ some (update servers node s', m)
unfolding answer
answer-sent alloc servers page node msg s' m e = rw (e, eq→== msg.id msg.id refl)

update-IsServing :
    (servers : ℕ → Server) (node : ℕ) (c : Cache)
    → IsServing servers
    → node < 2
    → Uniform c v_length dollar
    → IsServing (update servers node (record (servers node) { cache = c }))
update-IsServing servers node c w lt u n n<2 = elim (Bool-cases (node == n)) [
  | inl e ↦ rw e ((rw (==→eq node n e) (w n n<2).0), u)
  | inr ne ↦ rw ne (w n n<2)
]

memcpy_in : (dst src : Bytes) (n i : ℕ) → i < n → memcpy dst src n i ≡ src i
memcpy_in dst src n i lt = rw (lt→ltb i n lt)

-- The size field of what a set leaves
stored-full :
    (c : Cache) (key : Bytes) (nkey hv n first : ℕ)
    → Uniform c n first
    → stored_size (assoc_find hashpower c.table key nkey hv) c.nbytes n ≡ n + 2
stored-full c key nkey hv n first u = by_find (assoc_find hashpower c.table key nkey hv) refl
  where
    by_find :
        (r : Option Item)
        → assoc_find hashpower c.table key nkey hv ≡ r
        → stored_size (assoc_find hashpower c.table key nkey hv) c.nbytes n ≡ n + 2
    by_find none e = rw e
    by_find (some it) e = rw e (find-All (IsFull c n first) hashpower c.table key nkey hv it u e).0

-- A value of the fixed size fits into an item of a key of the clients, old or new.
pub full-Room :
    (c : Cache) (key : Bytes) (nkey hv first : ℕ)
    → Uniform c v_length first
    → nkey ≤ key_length
    → Room (assoc_find hashpower c.table key nkey hv) c.nbytes nkey v_length
unfolding digits
full-Room c key nkey hv first u small = by_find (assoc_find hashpower c.table key nkey hv) refl
  where
    by_find :
        (r : Option Item)
        → assoc_find hashpower c.table key nkey hv ≡ r
        → Room (assoc_find hashpower c.table key nkey hv) c.nbytes nkey v_length
    by_find none e = rw e (omega arith)
    by_find (some it) e =
        let size = (find-All (IsFull c v_length first) hashpower c.table key nkey hv it u e).0 in
        let same = find-nkey hashpower c.table key nkey hv it e in
        rw e (rw (size, same) (omega arith))

-- The answer to a get of a full item
get_result-ok :
    (node : ℕ) (page : McMsg) (f : Bytes) (n : ℕ)
    → n ≡ v_length
    → f 0 ≡ dollar
    → get_result node (record page {
      id = node;
      type = mc_msg_get_ok;
      nbytes = n;
      has_data = true;
      value = memcpy page.value f n;
    })
      ≡ some true
unfolding get_result
get_result-ok node page f n size head = rw (eq→== node node refl, size, head)

get_result-fail :
    (node : ℕ) (page : McMsg)
    → get_result node
        (record page { id = node; type = mc_msg_get_fail; nbytes = 0; has_data = false })
      ≡ some false
unfolding get_result
get_result-fail node page = rw (eq→== node node refl)

module _ (hash : Bytes → ℕ → ℕ) (alloc : Alloc) where
  set-call :
      (servers : ℕ → Server) (old page : McMsg) (cur_node : ℕ) (key : Bytes) (nkey : ℕ)
      (value : Bytes)
      → Serves alloc
      → KeepsUniform alloc v_length dollar
      → IsServing servers
      → 2 ≤ cur_node
      → nkey ≤ key_length
      → value 0 ≡ dollar
      → (c : Cache) × (client_set_key hash alloc servers old page cur_node key nkey value v_length
          ≡ (let node = hv2node (hash key key_length) in
              some (true, update servers node (record (servers node) { cache = c }))))
        × Uniform c v_length dollar
        × Holds c
            (memcpy old.key key nkey)
            nkey
            (hash key key_length)
            (memcpy old.value value v_length)
            v_length
            (v_length + 2)
  unfolding client_set_key set_result
  set-call servers old page cur_node key nkey value serves keeps w client small head =
      let node = hv2node (hash key key_length) in
      let msg = set_msg hash old cur_node key nkey value v_length in
      let (c, done, u, holds) =
        set-served alloc (servers node) msg page dollar serves keeps
          (w node (node_in (hash key key_length))).1 refl client (omega arith) (omega arith) head
          (full-Room (servers node).cache msg.key nkey msg.hv dollar
            (w node (node_in (hash key key_length))).1 small) in
      let kept =
        stored-full (servers node).cache msg.key nkey msg.hv v_length dollar
          (w node (node_in msg.hv)).1 in
      let fits : ltb (sizeof_mc_msg + nkey + v_length) page_size ≡ true =
        lt→ltb _ _ (omega arith) in
      let there = answer-sent alloc servers page node msg _ _ done in
      (c, rw (fits, there, eq→== _ _ (w node (node_in msg.hv)).0), u, rw kept at holds)

  -- The servers after a get
  abbrev served :
      (ℕ → Server) → (old : McMsg) → (cur_node : ℕ) → (key : Bytes) → (nkey : ℕ) → ℕ → Server
  served servers old cur_node key nkey =
      let node = hv2node (hash key nkey) in
      let msg = get_msg hash old cur_node key nkey in
      update servers node (record (servers node) {
        cache = (mc_get_key_ext (servers node).cache msg.key nkey msg.hv).1;
      })

  served-IsServing :
      (servers : ℕ → Server) (old : McMsg) (cur_node : ℕ) (key : Bytes) (nkey : ℕ)
      → IsServing servers
      → IsServing (served servers old cur_node key nkey)
  served-IsServing servers old cur_node key nkey w =
      let node = hv2node (hash key nkey) in
      let msg = get_msg hash old cur_node key nkey in
      let u = (w node (node_in msg.hv)).1 in
      update-IsServing servers node _ w (node_in msg.hv)
        (get-Uniform (servers node).cache msg.key nkey msg.hv v_length dollar u).0

  get-hit :
      (servers : ℕ → Server) (old page : McMsg) (cur_node : ℕ) (key : Bytes) (nkey : ℕ) (it : Item)
      → IsServing servers
      → 2 ≤ cur_node
      → nkey < 256
      → let node = hv2node (hash key nkey) in
        let msg = get_msg hash old cur_node key nkey in
        let after = served servers old cur_node key nkey in
        (mc_get_key_ext (servers node).cache msg.key nkey msg.hv).0 ≡ some it
        → (reply : McMsg) × (answer alloc servers page node msg ≡ some (after, reply))
          × (client_get_key hash alloc servers old page cur_node key nkey ≡ some (true, after))
          × ((i : ℕ) → i < v_length → reply.value i ≡ (servers node).cache.contents it.addr i)
  unfolding client_get_key
  get-hit servers old page cur_node key nkey it w client small found =
      let node = hv2node (hash key nkey) in
      let msg = get_msg hash old cur_node key nkey in
      let got = mc_get_key_ext (servers node).cache msg.key nkey msg.hv in
      let (here, u) = w node (node_in msg.hv) in
      let (_, sizes, values, full) =
        get-Uniform (servers node).cache msg.key nkey msg.hv v_length dollar u in
      let (size, head) = full it found in
      let n = got.1.nbytes it.addr - 2 in
      let n≡ : n ≡ v_length = rw sizes (omega (arith, size)) in
      let sent =
        answer-sent alloc servers page node msg _ _
          (get-found alloc (servers node) msg page it refl client found) in
      let fits : ltb (sizeof_mc_msg + nkey) page_size ≡ true = lt→ltb _ _ (omega arith) in
      let ok = get_result-ok node page (got.1.contents it.addr) n n≡ (rw values head) in
      (
        _,
        sent,
        rw (fits, sent, here, ok),
        λ i lt.
            memcpy_in page.value (got.1.contents it.addr) n i (omega (arith, n≡, lt))
            ∙ ap (λ f. f it.addr i) values,
      )

  get-miss :
      (servers : ℕ → Server) (old page : McMsg) (cur_node : ℕ) (key : Bytes) (nkey : ℕ)
      → IsServing servers
      → 2 ≤ cur_node
      → nkey < 256
      → let node = hv2node (hash key nkey) in
        let msg = get_msg hash old cur_node key nkey in
        (mc_get_key_ext (servers node).cache msg.key nkey msg.hv).0 ≡ none
        → client_get_key hash alloc servers old page cur_node key nkey
          ≡ some (false, served servers old cur_node key nkey)
  unfolding client_get_key
  get-miss servers old page cur_node key nkey w client small missed =
      let node = hv2node (hash key nkey) in
      let msg = get_msg hash old cur_node key nkey in
      let sent =
        answer-sent alloc servers page node msg _ _
          (get-missed alloc (servers node) msg page refl client missed) in
      let fits : ltb (sizeof_mc_msg + nkey) page_size ≡ true = lt→ltb _ _ (omega arith) in
      rw (fits, sent, (w node (node_in msg.hv)).0, get_result-fail node page)

-- Whether the server of a key has an item under it
abbrev pub holds_key : (hash : Bytes → ℕ → ℕ) → (ℕ → Server) → (key : Bytes) → (nkey : ℕ) → Bool
holds_key hash servers key nkey =
    let hv = hash key nkey in
    elim (assoc_find hashpower (servers (hv2node hv)).cache.table key nkey hv) [
      | none ↦ false
      | some it ↦ true
    ]

-- On servers that hold values of the clients only, with an allocator that finds memory and keeps
-- them so, `client_set_key` with a value of the fixed size that begins with a dollar sign returns
-- success, and `client_get_key` returns whether the server of the key has an item under it, both
-- for keys of at most the fixed size: no write leaves an item, no assertion of a client or a server
-- fails but, perhaps, that a ring has room or that `slabs_clsid` is 0, which are not in the model,
-- and the servers still hold such values only.
pub calls-IsServing :
    (hash : Bytes → ℕ → ℕ) (alloc : Alloc) (servers : ℕ → Server)
    → (old page : McMsg) (cur_node : ℕ) (key : Bytes) (nkey : ℕ) (value : Bytes) → Serves alloc
    → KeepsUniform alloc v_length dollar
    → IsServing servers
    → 2 ≤ cur_node
    → nkey ≤ key_length
    → value 0 ≡ dollar
    → ((servers' : ℕ → Server) × (client_set_key hash alloc servers old page cur_node key nkey value
            v_length
          ≡ some (true, servers'))
        × IsServing servers')
      × ((servers' : ℕ → Server) × (client_get_key hash alloc servers old page cur_node key nkey
            ≡ some (holds_key hash servers key nkey, servers'))
          × IsServing servers')
calls-IsServing hash alloc servers old page cur_node key nkey value serves keeps w client small
      head =
    (set, by_find (mc_get_key_ext (servers node).cache msg.key nkey msg.hv).0 refl)
  where
    node : ℕ
    node = hv2node (hash key nkey)

    msg : McMsg
    msg = get_msg hash old cur_node key nkey

    looked :
        (mc_get_key_ext (servers node).cache msg.key nkey msg.hv).0
        ≡ assoc_find hashpower (servers node).cache.table key nkey (hash key nkey)
    looked =
        get-find (servers node).cache msg.key nkey msg.hv
        ∙ find-agree hashpower (servers node).cache.table msg.key key nkey msg.hv
            (λ i lt. memcpy_in old.key key nkey i lt)

    set :
        (servers' : ℕ → Server) × (client_set_key hash alloc servers old page cur_node key nkey
            value v_length
          ≡ some (true, servers'))
        × IsServing servers'
    set =
        let (c, done, u, _) =
          set-call hash alloc servers old page cur_node key nkey value serves keeps w client small
            head in
        (_, done, update-IsServing servers _ c w (node_in (hash key key_length)) u)

    by_find :
        (r : Option Item)
        → (mc_get_key_ext (servers node).cache msg.key nkey msg.hv).0 ≡ r
        → (servers' : ℕ → Server) × (client_get_key hash alloc servers old page cur_node key nkey
            ≡ some (holds_key hash servers key nkey, servers'))
          × IsServing servers'
    by_find none e = (
      served hash alloc servers old cur_node key nkey,
      rw (holds_key, sym looked ∙ e)
          (get-miss hash alloc servers old page cur_node key nkey w client (omega arith) e),
      served-IsServing hash alloc servers old cur_node key nkey w,
    )
    by_find (some it) e = (
      served hash alloc servers old cur_node key nkey,
      rw (holds_key, sym looked ∙ e)
          (get-hit hash alloc servers old page cur_node key nkey it w client (omega arith) e).2,
      served-IsServing hash alloc servers old cur_node key nkey w,
    )

-- On servers that hold values of the clients only, with an allocator that finds memory and keeps
-- them so, `client_set_key` returns success for a key and a value of the fixed sizes, and then
-- `client_get_key` of any client for the key returns success, the answer having the bytes stored.
pub set_then_get :
    (hash : Bytes → ℕ → ℕ) (alloc : Alloc) (servers : ℕ → Server)
    → (old page : McMsg) (cur_node : ℕ) → (old' page' : McMsg) (cur_node' : ℕ) → (key value : Bytes)
    → Serves alloc
    → KeepsUniform alloc v_length dollar
    → IsServing servers
    → 2 ≤ cur_node
    → 2 ≤ cur_node'
    → value 0 ≡ dollar
    → (servers' servers'' : ℕ → Server) × (reply : McMsg) × (client_set_key hash alloc servers old
          page cur_node key key_length value v_length
        ≡ some (true, servers'))
      × (answer alloc servers' page'
            (hv2node (hash key key_length))
            (get_msg hash old' cur_node' key key_length)
          ≡ some (servers'', reply))
      × (client_get_key hash alloc servers' old' page' cur_node' key key_length
          ≡ some (true, servers''))
      × ((i : ℕ) → i < v_length → reply.value i ≡ value i)
set_then_get hash alloc servers old page cur_node old' page' cur_node' key value serves keeps w
      client client' head =
    let hv = hash key key_length in
    let node = hv2node hv in
    let (c, done, u, holds) =
      set-call hash alloc servers old page cur_node key key_length value serves keeps w client
        (omega arith) head in
    let stored : Server = record (servers node) { cache = c } in
    let servers' = update servers node stored in
    let at_node : servers' node ≡ stored = update_self servers node stored in
    let w' = update-IsServing servers node c w (node_in hv) u in
    let same : (i : ℕ)
        → i < key_length
        → memcpy old'.key key key_length i ≡ memcpy old.key key key_length i =
      λ i lt.
        memcpy_in old'.key key key_length i lt ∙ sym (memcpy_in old.key key key_length i lt) in
    let found =
      ap (λ s. (mc_get_key_ext s.cache (memcpy old'.key key key_length) key_length hv).0) at_node
      ∙ ap (λ r. r.0) (get-agree c _ _ key_length hv same)
      ∙ holds.found in
    let (reply, sent, got, bytes) =
      get-hit hash alloc servers' old' page' cur_node' key key_length holds.item w' client'
        (omega arith) found in
    (
      servers',
      _,
      reply,
      done,
      sent,
      got,
      λ i lt.
          bytes i lt
          ∙ ap (λ s. s.cache.contents holds.item.addr i) at_node
          ∙ holds.bytes i lt
          ∙ memcpy_in old.value value v_length i lt,
    )
