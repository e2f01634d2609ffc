-- ===== src/BiMc/Server/Replies.antt =====
-- A set by a client of mc_code/bi_mc, from the message to the reply.
use bi_project.BiMc.{quis_num, grace, num_server, Bytes, Env}
use bi_project.BiMc.Laws.{Laws}
use bi_project.BiMc.Table.{mc_hv2node}
use bi_project.BiMc.Items.{item_make_header}
use bi_project.BiMc.Memory.{mc_slab_obj_sz}
use bi_project.BiMc.Keys.{mc_set_key_rcv}
use bi_project.BiMc.Keys.Serving.{IsServing}
use bi_project.BiMc.Keys.Alloc.{Enough}
use bi_project.BiMc.Keys.Sets.{SetsTo, mc_set_key_rcv-SetsTo}
use bi_project.BiMc.Server.{mc_msg_set_ok, McMsg, Loop, set_request, set_returns, on_set, handle}
use bi_project.Base.{
  le→leb, eq→==, length, ℕ, ◌+◌, ◌^◌, ◌≤◌, ◌<◌, ◌≡◌, refl, ◌∙◌, true, Option, some, List,
}
use bi_project.Base.Run.{check_then, bind_some}

module _ {L : Type 0} (env : Env L) (curr base : ℕ) (laws : Laws env curr base) where
  -- The server's reply to a set goes to the caller, passes the caller's assertions, and the server's
  -- state is that after the set.
  unfoldable pub RepliesTo :
      (caller : ℕ)
      → (key : Bytes) → (nkey : ℕ) → (value : Bytes) → (nbytes hv : ℕ) → Loop L
      → List ℕ
      → Option (Loop L × Option (ℕ × McMsg))
      → Type 0
  RepliesTo caller key nkey value nbytes hv s q r =
      (s' : Loop L) × (reply : McMsg) × (r ≡ some (s', some (caller, reply)))
      × (set_returns curr reply ≡ some tt)
      × SetsTo env curr base laws key nkey value nbytes hv s.node q (some (true, s'.node))
      × (s'.e ≡ s.e)
      × (s'.db ≡ s.db)
      × (s'.num ≡ s.num)

  answers :
      (caller : ℕ) (key : Bytes) (nkey : ℕ) (value : Bytes) (nbytes hv : ℕ) (ret : McMsg)
      (s : Loop L) (q : List ℕ)
      → num_server ≤ caller
      → SetsTo env curr base laws key nkey value nbytes hv s.node q
          (mc_set_key_rcv env curr key nkey value nbytes hv s.node)
      → RepliesTo caller key nkey value nbytes hv s q
          (handle env curr (set_request caller key nkey value nbytes hv) ret s)
  unfolding RepliesTo SetsTo handle on_set set_request set_returns
  answers caller key nkey value nbytes hv ret s q le
        (n', q', done, serving, gets, flushed, others, empty, given) =
      (
        record s { node = n' },
        record ret { id = curr; type = mc_msg_set_ok },
        check_then _ (le→leb _ _ le) ∙ bind_some _ done,
        rw (eq→== curr curr refl) refl,
        (n', q', refl, serving, gets, flushed, others, empty, given),
        refl,
        refl,
        refl,
      )

  -- On a server of bi_mc that keeps its invariant, with memory for an item without eviction, room
  -- in the ring, a key of fewer than 255 bytes that with the value fills an object exactly, a key
  -- of the node and a clock past the grace time, a client's set is answered and the reply passes
  -- the client's assertions. Then a get of the key by a reader whose cache shows the memory, or no
  -- item under the key, returns the value; a get of another key from memory returns what it
  -- returned; the invariant holds; and an item that was there before waits in the ring, with its
  -- value and the time.
  pub set-RepliesTo :
      (caller : ℕ) (key : Bytes) (nkey : ℕ) (value : Bytes) (nbytes hv : ℕ) (ret : McMsg)
      (s : Loop L) (q : List ℕ)
      → num_server ≤ caller
      → IsServing env curr base laws s.node q
      → Enough env curr base laws s.node
      → item_make_header (nkey + 1) (nbytes + 2) ≡ mc_slab_obj_sz
      → nkey < 255
      → mc_hv2node hv ≡ curr
      → length q + 1 < quis_num
      → grace ≤ env.tsc (s.node.ticks + 1)
      → env.tsc (s.node.ticks + 1) < 2 ^ 64
      → RepliesTo caller key nkey value nbytes hv s q
          (handle env curr (set_request caller key nkey value nbytes hv) ret s)
  set-RepliesTo caller key nkey value nbytes hv ret s q le h enough fits lt mine room late lt64 =
      answers caller key nkey value nbytes hv ret s q le (
        mc_set_key_rcv-SetsTo env curr base laws key nkey value nbytes hv s.node q h enough fits lt
          mine room late lt64)
