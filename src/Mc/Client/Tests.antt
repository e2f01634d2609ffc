-- ===== src/Mc/Client/Tests.antt =====
-- The client and the server of the message-passing memcached on concrete inputs.
use bi_project.Base.{ℕ, ◌+◌, ◌*◌, ◌<◌, ◌≡◌, refl, true, false, some, [], arith}
use bi_project.Mc.Items.{Bytes, Cache, Alloc, twice, McStatus}
use bi_project.Mc.Items.Kept.{Serves}
use bi_project.Mc.Items.Uniform.{KeepsUniform}
use bi_project.Mc.Server.{McMsg, mc_begin, Server}
use bi_project.Mc.Client.{
  key_length, v_length, dollar, hv2node, answer, get_msg, client_get_key, client_set_key,
}
use bi_project.Mc.Client.Calls.{IsServing, holds_key, calls-IsServing, set_then_get}

abbrev key : Bytes
key i = 107 + i

abbrev counters : McStatus
counters = record { sets = 0; gets = 0; alloc = 0; confict = 0; evict = 0 }

-- A cache without items.
abbrev cache : Cache
cache = record {
  table = λ b. [];
  nbytes = λ a. 0;
  recency = λ a. 0;
  contents = λ a i. 0;
  status = counters;
}

-- The allocator gives out the item at 4096.
abbrev alloc : Alloc
alloc c = (some 4096, c)

alloc-Serves : Serves alloc
unfolding twice
alloc-Serves c = (4096, c, refl)

abbrev page : McMsg
page = record {
  type = mc_begin;
  id = 0;
  hv = 0;
  nkey = 0;
  key = λ i. 0;
  nbytes = 0;
  has_data = false;
  value = λ i. 0;
}

abbrev servers : ℕ → Server
servers n = record { cur_node = n; loading = false; running = true; cache = cache }

servers-IsServing : IsServing servers
servers-IsServing n lt = (refl, λ b. tt)

-- The bytes of the benchmark's values
abbrev dollars : Bytes
dollars i = dollar

abbrev hash : Bytes → ℕ → ℕ
hash k n = k 0 * 65599 + n

alloc-KeepsUniform : KeepsUniform alloc v_length dollar
unfolding twice
alloc-KeepsUniform c u = u

calls-IsServing_example :
    ((servers' : ℕ → Server) × (client_set_key hash alloc servers page page 2 key 16 dollars
          v_length
        ≡ some (true, servers'))
      × IsServing servers')
    × ((servers' : ℕ → Server) × (client_get_key hash alloc servers page page 2 key 16
          ≡ some (holds_key hash servers key 16, servers'))
        × IsServing servers')
calls-IsServing_example =
    calls-IsServing hash alloc servers page page 2 key 16 dollars alloc-Serves alloc-KeepsUniform
      servers-IsServing (omega arith) (omega arith) refl

set_then_get_example :
    (servers' servers'' : ℕ → Server) × (reply : McMsg) × (client_set_key hash alloc servers page
        page 2 key key_length dollars v_length
      ≡ some (true, servers'))
    × (answer alloc servers' page
          (hv2node (hash key key_length))
          (get_msg hash page 3 key key_length)
        ≡ some (servers'', reply))
    × (client_get_key hash alloc servers' page page 3 key key_length ≡ some (true, servers''))
    × ((i : ℕ) → i < v_length → reply.value i ≡ dollars i)
set_then_get_example =
    set_then_get hash alloc servers page page 2 page page 3 key dollars alloc-Serves
      alloc-KeepsUniform servers-IsServing (omega arith) (omega arith) refl
