-- ===== src/BiMc/Table.antt =====
-- The hash table of mc_code/bi_mc/assoc.c. The write-backs and flushes of cache lines are left out
-- but for the lists of what `assoc_flush` and `assoc_flush_opt` flush.
pub mod Chain
pub mod Replace
pub mod Delete
use bi_project.BiMc.{num_server, Bytes, Object}
use bi_project.Assoc.{memeq}
use bi_project.Base.{
  ltb, leb, ◌==◌, if◌then◌else◌, Bool-cases, ltb→lt, ltb→le, lt→ltb, le→ltb, leb→le, leb→lt, le→leb,
  ==→eq, ==→ne, eq→==, ne→==, tests, length, length-append, All, All-append, All-mono, has, update,
  update_self, update_ne, ℕ, zero, suc, ◌+◌, ◌-◌, ◌*◌, ◌/◌, ◌%◌, ◌^◌, ◌≤◌, ◌<◌, ◌≡◌, refl, sym, ap,
  ap₂, ◌∙◌, ◌≢◌, ◌↔◌, ◌⊎◌, inl, inr, Bool, true, false, not, ◌&&◌, ◌||◌, Option, none, some, List,
  [], ◌∷◌, ◌++◌, map, append_assoc, append-nil, arith,
}
use bi_project.Base.Run.{◌>>=◌, ◌>>◌, check}

-- HASHPOWER_DEFAULT
abbrev pub hashpower : ℕ
hashpower = 22

-- Each bucket is its chain of objects, in the order of the `h_next` fields.
abbrev pub Chains : Type 0
Chains = ℕ → List ℕ

-- `hv & hashmask(hashpower)`
abbrev pub bucket : (hv : ℕ) → ℕ
bucket hv = hv % 2 ^ hashpower

-- `__mc_hv2node`
abbrev pub mc_hv2node : (hv : ℕ) → ℕ
mc_hv2node hv = if ltb ((2 ^ hashpower - 1) / num_server) (bucket hv) then 1 else 0

-- The test of `assoc_find` and `_hashitem_before`
abbrev pub same_key : (key : Bytes) → (nkey : ℕ) → Object → Bool
same_key key nkey o = (nkey == o.nkey) && memeq key o.key nkey

-- The walk of `assoc_find`; 0 is the null pointer.
pub find_loop : (ℕ → Object) → (key : Bytes) → (nkey : ℕ) → List ℕ → ℕ
find_loop objs key nkey [] = 0
find_loop objs key nkey (a ∷ chain) =
    let rest = find_loop objs key nkey chain in if same_key key nkey (objs a) then a else rest

unfoldable pub assoc_find : (ℕ → Object) → Chains → (key : Bytes) → (nkey hv : ℕ) → ℕ
unfolding find_loop
assoc_find objs table key nkey hv = find_loop objs key nkey (table (bucket hv))

-- `assoc_insert`, with its assertion
unfoldable pub assoc_insert : (node : ℕ) → Chains → (it hv : ℕ) → Option Chains
assoc_insert node table it hv =
    check (mc_hv2node hv == node) >> some (update table (bucket hv) (it ∷ table (bucket hv)))

-- The walk of `_hashitem_before`, and the chain without the item that it finds, if it finds one
pub delete_loop : (ℕ → Object) → (key : Bytes) → (nkey : ℕ) → List ℕ → Option (List ℕ)
delete_loop objs key nkey [] = none
delete_loop objs key nkey (a ∷ chain) =
    let rest = delete_loop objs key nkey chain in
    if same_key key nkey (objs a) then some chain else (rest >>= (λ c. some (a ∷ c)))

-- `assoc_delete`, with its two assertions
unfoldable pub assoc_delete :
    (node : ℕ) → (ℕ → Object) → Chains → (key : Bytes) → (nkey hv : ℕ) → Option Chains
unfolding delete_loop
assoc_delete node objs table key nkey hv =
    check (mc_hv2node hv == node)
    >> (delete_loop objs key nkey (table (bucket hv))
        >>= (λ chain. some (update table (bucket hv) chain)))

-- `assoc_replace`: the walk, and `new` in the place of the item that it finds
pub replace_loop : (ℕ → Object) → (key : Bytes) → (nkey new : ℕ) → List ℕ → List ℕ
replace_loop objs key nkey new [] = []
replace_loop objs key nkey new (a ∷ chain) =
    let rest = replace_loop objs key nkey new chain in
    if same_key key nkey (objs a) then new ∷ chain else a ∷ rest

unfoldable pub assoc_replace : (ℕ → Object) → Chains → (old new hv : ℕ) → Chains
unfolding replace_loop
assoc_replace objs table old new hv =
    update table (bucket hv)
      (replace_loop objs ((objs old).key) ((objs old).nkey) new (table (bucket hv)))

-- The objects whose links `assoc_flush` flushes, and `assoc_flush_opt` likewise
unfoldable pub assoc_flush : Chains → (hv : ℕ) → List ℕ
assoc_flush table hv = table (bucket hv)

unfoldable pub assoc_flush_opt : Chains → (hv it : ℕ) → List ℕ
unfolding assoc_flush
assoc_flush_opt table hv it = if has it (table (bucket hv)) then assoc_flush table hv else []
