-- ===== src/BiMc/Keys/Objects.antt =====
-- A new object of mc_code/bi_mc/memcache.c as a set fills it, its key, and what a reader gets.
use bi_project.BiMc.{Bytes, Object, Node}
use bi_project.BiMc.Table.{Chains, same_key, assoc_find}
use bi_project.BiMc.Table.Chain.{same_key-SameKey, SameKey-same_key}
use bi_project.BiMc.Items.{do_item_get}
use bi_project.BiMc.Keys.{set_up, filled, value_of, mc_get_key_ext}
use bi_project.Base.Run.{if_true, if_false}
use bi_project.Base.{
  ◌==◌, Bool-cases, lt→ltb, eq→==, update, update_self, update_twice, ℕ, ◌+◌, ◌<◌, ◌≡◌, refl, ap,
  ◌∙◌, inl, inr, true, false, arith,
}

-- An object as `mc_set_key_rcv` fills it
abbrev pub new_object :
    (key : Bytes) → (nkey : ℕ) → (value : Bytes) → (nbytes hv : ℕ) → Object → Object
new_object key nkey value nbytes hv o = filled value nbytes hv (set_up key nkey (nbytes + 2) o)

-- The three writes to a new object
pub written :
    (key : Bytes) (nkey : ℕ) (value : Bytes) (nbytes hv : ℕ) (objs : ℕ → Object) (a : ℕ)
    (o : Object)
    → (let objs1 = update objs a o in
        let objs2 = update objs1 a (set_up key nkey (nbytes + 2) (objs1 a)) in
        update objs2 a (filled value nbytes hv (objs2 a)))
      ≡ update objs a (new_object key nkey value nbytes hv o)
written key nkey value nbytes hv objs a o =
    let objs1 = update objs a o in
    let objs2 = update objs1 a (set_up key nkey (nbytes + 2) (objs1 a)) in
    let first : objs1 a ≡ o = update_self objs a o in
    let second : objs2 a ≡ set_up key nkey (nbytes + 2) o =
      update_self objs1 a _ ∙ ap (set_up key nkey (nbytes + 2)) first in
    ap (λ x. update objs2 a (filled value nbytes hv x)) second
    ∙ update_twice objs1 a _ _
    ∙ update_twice objs a _ _

-- `mc_get_key_ext` when the reader's cache shows the memory
pub get_memory :
    {L : Type 0} (n : Node L) (k : Bytes) (m hv : ℕ)
    → (mc_get_key_ext (n.objs, n.table) n k m hv).0 ≡ value_of n.objs (do_item_get n k m hv)
unfolding mc_get_key_ext do_item_get
get_memory n k m hv = elim (Bool-cases (assoc_find n.objs n.table k m hv == 0)) [
  | inl e ↦ if_true _ _ e
  | inr ne ↦ if_false _ _ ne
]

-- `mc_get_key_ext` when the reader's cache does not show the key
pub get_flushed :
    {L : Type 0} (seen : (ℕ → Object) × Chains) (n : Node L) (k : Bytes) (m hv : ℕ)
    → assoc_find (seen.0) (seen.1) k m hv ≡ 0
    → (mc_get_key_ext seen n k m hv).0 ≡ value_of n.objs (do_item_get n k m hv)
unfolding mc_get_key_ext do_item_get
get_flushed seen n k m hv e = if_true _ _ (eq→== _ _ e)

pub new_key :
    (key : Bytes) (nkey : ℕ) (value : Bytes) (nbytes hv : ℕ) (o : Object)
    → nkey < 256
    → same_key key nkey (new_object key nkey value nbytes hv o) ≡ true
new_key key nkey value nbytes hv o lt =
    SameKey-same_key key nkey (new_object key nkey value nbytes hv o)
      (omega arith, λ i small. rw (lt→ltb i nkey small) refl)

-- The keys differ.
abbrev pub OtherKey : (k : Bytes) → (m : ℕ) → (key : Bytes) → (nkey : ℕ) → Type 0
OtherKey k m key nkey = (m ≡ nkey) × ((i : ℕ) → i < m → k i ≡ key i) → ⊥

pub other_key :
    (k : Bytes) (m : ℕ) (key : Bytes) (nkey : ℕ) (value : Bytes) (nbytes hv : ℕ) (o : Object)
    → nkey < 256
    → OtherKey k m key nkey
    → same_key k m (new_object key nkey value nbytes hv o) ≡ false
other_key k m key nkey value nbytes hv o lt differs =
    elim (Bool-cases (same_key k m (new_object key nkey value nbytes hv o))) [
      | inr other ↦ other
      | inl same ↦
          let (e, b) = same_key-SameKey k m (new_object key nkey value nbytes hv o) same in
          absurd (
            differs (
              omega arith,
              λ i small.
                  b i small ∙ (let lt_i : i < nkey = omega arith in rw (lt→ltb i nkey lt_i) refl),
            ))
    ]
