-- ===== src/BiMc/Client.antt =====
-- The calls of a client of mc_code/bi_mc (memcache.c): `mc_set_key`, `mc_get_key` and
-- `mc_disconnect`, with the pages that it shares. The hash function is another project's.
use mathlib.Core.Option.{some-injective}
use mathlib.Core.Path.{subst}
use bi_project.BiMc.{quis_num, grace, num_server, Bytes, memcpy, Object, Env, Node}
use bi_project.BiMc.Laws.{Laws}
use bi_project.BiMc.Table.{Chains, mc_hv2node, assoc_find}
use bi_project.BiMc.Items.{item_make_header}
use bi_project.BiMc.Memory.{mc_slab_obj_sz}
use bi_project.BiMc.Keys.{mc_get_key_ext}
use bi_project.BiMc.Keys.Serving.{IsServing}
use bi_project.BiMc.Keys.Alloc.{Enough}
use bi_project.BiMc.Keys.Sets.{SetsTo}
use bi_project.BiMc.Server.{mc_exit, McMsg, Loop, set_request, set_returns, server_end, handle}
use bi_project.BiMc.Server.Replies.{RepliesTo, set-RepliesTo}
use bi_project.Base.{
  ◌==◌, if◌then◌else◌, lt→ltb, le→leb, eq→==, ne→==, length, ℕ, ◌+◌, ◌^◌, ◌≤◌, ◌<◌, ◌≡◌, refl, sym,
  ap, ◌∙◌, ◌≢◌, ◌⊎◌, inl, inr, Bool, true, false, not, Option, none, some, List,
}
use bi_project.Base.Run.{◌>>◌, check, if_false, check_then}

-- MC_LOADING
abbrev pub mc_loading : ℕ
mc_loading = 99

-- The bytes behind the key in the page
abbrev pub page_value : (page : Bytes) → (nkey : ℕ) → Bytes
page_value page nkey i = page (nkey + i)

-- `mc_set_key`: the server that gets the message, and the message
pub mc_set_key :
    (hash : Bytes → ℕ → ℕ) → (caller : ℕ) → (page : Bytes) → (nkey nbytes : ℕ) → ℕ × McMsg
unfolding set_request
mc_set_key hash caller page nkey nbytes = (
  mc_hv2node (hash page nkey),
  set_request caller page nkey (page_value page nkey) nbytes (hash page nkey),
)

-- The end of `mc_get_key`: the page `ret` with the value; `none` is the null pointer.
pub returned : (ret : Bytes) → Option (Bytes × ℕ) → Option Bytes
returned ret none = none
returned ret (some (value, nbyte)) = some (memcpy ret value nbyte)

pub mc_get_key :
    {L : Type 0}
    → (hash : Bytes → ℕ → ℕ) → (page ret : Bytes) → (nkey : ℕ) → (seen : (ℕ → Object) × Chains)
    → Node L
    → Option Bytes × Node L
unfolding returned mc_get_key_ext
mc_get_key hash page ret nkey seen n = (
  returned ret ((mc_get_key_ext seen n page nkey (hash page nkey)).0),
  (mc_get_key_ext seen n page nkey (hash page nkey)).1,
)

-- `mc_disconnect`: the flag `loading` afterwards, and the message, with its receiver
pub mc_disconnect :
    (caller server : ℕ) → (msg : McMsg) → (loading : Bool) → Bool × Option (ℕ × McMsg)
mc_disconnect caller server msg loading =
    if server == mc_loading
    then (false, none)
    else (loading, some (server, record msg { type = mc_exit; id = caller }))

state_is :
    {L : Type 0} (m m' : Node L)
    → ◌≡◌ {A = Option (Bool × Node L)} (some (true, m)) (some (true, m'))
    → m' ≡ m
state_is m m' e = sym (ap (λ p. p.1) (some-injective (true, m) (true, m') e))

second : {p q : Bool × Option (ℕ × McMsg)} → p ≡ q → p.1 ≡ q.1
second e = ap (λ x. x.1) e

stops : (b : Bool) (r : Option (Unit {0})) → r ≡ none → (check b >> r) ≡ none
stops true r e = e
stops false r e = refl

divides : {L : Type 0} (t : Loop L) → (t.db ≡ 0) ⊎ (t.num ≡ 0) → server_end t ≡ none
unfolding server_end
divides t (inl z) = rw (eq→== t.db 0 z) refl
divides t (inr z) =
    stops (not (t.db == 0)) (check (not (t.num == 0))) (ap (λ b. check (not b)) (eq→== t.num 0 z))

module _ {L : Type 0} (env : Env L) (curr base : ℕ) (laws : Laws env curr base) where
  -- What a client knows after `mc_set_key`: the server of the key answers as the client asserts, each
  -- `mc_get_key` of the same page that finds no stale item returns the value, and the server keeps its
  -- invariant and goes on until a client disconnects.
  unfoldable pub SetThenGet :
      (hash : Bytes → ℕ → ℕ)
      → (caller : ℕ) → (page : Bytes) → (nkey nbytes : ℕ) → (ret : McMsg) → Loop L
      → Type 0
  SetThenGet hash caller page nkey nbytes ret s =
      let sent = mc_set_key hash caller page nkey nbytes in
      (s' : Loop L) × (reply : McMsg) × (sent.0 ≡ curr)
      × (handle env curr (sent.1) ret s ≡ some (s', some (caller, reply)))
      × (set_returns (sent.0) reply ≡ some tt)
      × ((seen : (ℕ → Object) × Chains) (out : Bytes)
          → assoc_find (seen.0) (seen.1) page nkey (hash page nkey) ≡ 0
          → (got : Bytes) × ((mc_get_key hash page out nkey seen s'.node).0 ≡ some got)
            × ((i : ℕ) → i < nbytes → got i ≡ page (nkey + i)))
      × ((q' : List ℕ) × IsServing env curr base laws s'.node q')
      × (s'.e ≡ s.e)
      × ((server : ℕ) (msg : McMsg) (loading : Bool)
          → server ≢ mc_loading
          → (m : McMsg) × ((mc_disconnect caller server msg loading).1 ≡ some (server, m))
            × (handle env curr m ret s' ≡ some (record s' { e = false }, none))
            × (s.db ≢ 0 → s.num ≢ 0 → server_end (record s' { e = false }) ≡ some tt)
            × ((s.db ≡ 0) ⊎ (s.num ≡ 0) → server_end (record s' { e = false }) ≡ none))

  then_gets :
      (hash : Bytes → ℕ → ℕ) (caller : ℕ) (page : Bytes) (nkey nbytes : ℕ) (ret : McMsg)
      (s : Loop L) (q : List ℕ)
      → num_server ≤ caller
      → mc_hv2node (hash page nkey) ≡ curr
      → RepliesTo env curr base laws caller page nkey
          (page_value page nkey)
          nbytes
          (hash page nkey)
          s
          q
          (handle env curr
            (set_request caller page nkey (page_value page nkey) nbytes (hash page nkey))
            ret
            s)
      → SetThenGet hash caller page nkey nbytes ret s
  unfolding SetThenGet RepliesTo SetsTo mc_set_key mc_get_key returned mc_disconnect handle
      server_end
  then_gets hash caller page nkey nbytes ret s q le mine
        (
          s',
          reply,
          done,
          ok,
          (n', q', same, serving, gets, flushed, others, empty, given),
          runs,
          same_db,
          same_num,
        ) =
      (
        s',
        reply,
        mine,
        done,
        subst (λ x. set_returns x reply ≡ some tt) (sym mine) ok,
        λ seen out none_seen.
            let (v, got, bytes) = flushed seen none_seen in
            (
              memcpy out v nbytes,
              ap (returned out) (read_now v seen s'.node n' (state_is s'.node n' same) got),
              λ i lt. rw (lt→ltb i nbytes lt) (bytes i lt),
            ),
        (q', subst (λ x. IsServing env curr base laws x q') (state_is s'.node n' same) serving),
        runs,
        λ server msg loading ne. (
          record msg { type = mc_exit; id = caller },
          second (if_false _ _ (ne→== _ _ ne)),
          check_then _ (le→leb _ _ le),
          λ ndb nnum.
              check_then _ (ap not (ne→== _ _ (λ z. ndb (sym same_db ∙ z))))
              ∙ ap (λ b. check (not b)) (ne→== _ _ (λ z. nnum (sym same_num ∙ z))),
          λ zero_one. elim zero_one [
            | inl z ↦ divides (record s' { e = false }) (inl (same_db ∙ z))
            | inr z ↦ divides (record s' { e = false }) (inr (same_num ∙ z))
          ],
        ),
      )
    where
      read_now :
          (v : Bytes) (seen : (ℕ → Object) × Chains) (m m' : Node L)
          → m' ≡ m
          → (mc_get_key_ext seen m' page nkey (hash page nkey)).0 ≡ some (v, nbytes)
          → (mc_get_key_ext seen m page nkey (hash page nkey)).0 ≡ some (v, nbytes)
      read_now v seen m m' e got =
          subst (λ x. (mc_get_key_ext seen x page nkey (hash page nkey)).0 ≡ some (v, nbytes)) e got

  -- For a client and the server of its key, which keeps its invariant and has memory for an item
  -- without eviction and room in its ring, with a key of fewer than 255 bytes that with the value
  -- fills an object exactly, and a clock past the grace time: the message of `mc_set_key` is
  -- answered as the client asserts, each `mc_get_key` of the page by a reader whose cache shows no
  -- item under the key returns the bytes of the value, the server keeps its invariant and its loop
  -- goes on; the message of `mc_disconnect` ends the loop, and then the server returns when a flush
  -- was made and an object flushed before, and stops at a division by 0 when not.
  pub mc_set_key-mc_get_key :
      (hash : Bytes → ℕ → ℕ) (caller : ℕ) (page : Bytes) (nkey nbytes : ℕ) (ret : McMsg)
      (s : Loop L) (q : List ℕ)
      → num_server ≤ caller
      → mc_hv2node (hash page nkey) ≡ curr
      → IsServing env curr base laws s.node q
      → Enough env curr base laws s.node
      → item_make_header (nkey + 1) (nbytes + 2) ≡ mc_slab_obj_sz
      → nkey < 255
      → length q + 1 < quis_num
      → grace ≤ env.tsc (s.node.ticks + 1)
      → env.tsc (s.node.ticks + 1) < 2 ^ 64
      → SetThenGet hash caller page nkey nbytes ret s
  mc_set_key-mc_get_key hash caller page nkey nbytes ret s q le mine h enough fits lt room late
        lt64 =
      then_gets hash caller page nkey nbytes ret s q le mine (
        set-RepliesTo env curr base laws caller page nkey (page_value page nkey) nbytes
          (hash page nkey) ret s q le h enough fits lt mine room late lt64)
