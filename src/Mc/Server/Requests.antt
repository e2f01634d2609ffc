-- ===== src/Mc/Server/Requests.antt =====
-- What a server of the message-passing memcached answers.
use bi_project.Base.{le→leb, ℕ, ◌-◌, ◌≤◌, ◌<◌, ◌≡◌, sym, ap, ◌∙◌, true, false, none, some}
use mathlib.Core.Option.{some-injective}
use bi_project.Assoc.{Item, assoc_find}
use bi_project.Mc.Items.{hashpower, memcpy, Alloc, Cache, mc_get_key_ext}
use bi_project.Mc.Items.Kept.{Room, Serves, stored_size, Holds, set-get}
use bi_project.Mc.Items.Uniform.{Uniform, KeepsUniform, set-Uniform}
use bi_project.Mc.Server.{
  set_reply, mc_msg_set, mc_msg_get, mc_msg_set_ok, mc_msg_get_ok, mc_msg_get_fail, McMsg, Server,
  on_set, on_get, handle,
}

-- A set is answered with success, the value is stored, and the cache stays uniform.
pub set-served :
    (alloc : Alloc) (s : Server) (msg page : McMsg) (first : ℕ)
    → Serves alloc
    → KeepsUniform alloc msg.nbytes first
    → Uniform s.cache msg.nbytes first
    → msg.type ≡ mc_msg_set
    → 2 ≤ msg.id
    → msg.nkey < 256
    → 0 < msg.nbytes
    → msg.value 0 ≡ first
    → Room
        (assoc_find hashpower s.cache.table msg.key msg.nkey msg.hv)
        s.cache.nbytes
        msg.nkey
        msg.nbytes
    → (c : Cache) × (handle alloc s msg page
        ≡ some (
          record s { cache = c },
          some (msg.id, record page { id = s.cur_node; type = mc_msg_set_ok }),
        ))
      × Uniform c msg.nbytes first
      × Holds c msg.key msg.nkey msg.hv msg.value msg.nbytes (
          stored_size
            (assoc_find hashpower s.cache.table msg.key msg.nkey msg.hv)
            s.cache.nbytes
            msg.nbytes)
unfolding handle on_set set_reply
set-served alloc s msg page first serves keeps u is_set client small pos head room =
    let (c, done, holds) =
      set-get alloc s.cache msg.key msg.nkey msg.value msg.nbytes msg.hv serves small room in
    let (r, done', u') =
      set-Uniform alloc s.cache msg.key msg.nkey msg.value msg.nbytes msg.hv first keeps pos head u
        small room in
    let same : r ≡ (true, c) = some-injective r (true, c) (sym done' ∙ done) in
    (c, rw (is_set, le→leb 2 msg.id client, done), rw (ap (λ x. x.1) same) at u', holds)

-- The answer to a get.
pub get-found :
    (alloc : Alloc) (s : Server) (msg page : McMsg) (it : Item)
    → msg.type ≡ mc_msg_get
    → 2 ≤ msg.id
    → let got = mc_get_key_ext s.cache msg.key msg.nkey msg.hv in
      got.0 ≡ some it
      → let n = got.1.nbytes it.addr - 2 in
        handle alloc s msg page
        ≡ some (
          record s { cache = got.1 },
          some (
            msg.id,
            record page {
              id = s.cur_node;
              type = mc_msg_get_ok;
              nbytes = n;
              has_data = true;
              value = memcpy page.value (got.1.contents it.addr) n;
            },
          ),
        )
unfolding handle on_get
get-found alloc s msg page it is_get client found = rw (is_get, le→leb 2 msg.id client, found)

pub get-missed :
    (alloc : Alloc) (s : Server) (msg page : McMsg)
    → msg.type ≡ mc_msg_get
    → 2 ≤ msg.id
    → let got = mc_get_key_ext s.cache msg.key msg.nkey msg.hv in
      got.0 ≡ none
      → handle alloc s msg page
        ≡ some (
          record s { cache = got.1 },
          some (
            msg.id,
            record page { id = s.cur_node; type = mc_msg_get_fail; nbytes = 0; has_data = false },
          ),
        )
unfolding handle on_get
get-missed alloc s msg page is_get client missed = rw (is_get, le→leb 2 msg.id client, missed)
