-- ===== src/Slab/RingList.antt =====
-- The ring lists of include/ps_list.h: a node's two links, by the node's address.
pub mod Chains
use bi_project.Base.{◌==◌, update, ℕ, ◌≡◌, ◌≢◌, Bool, true, arith}

-- `struct ps_list`, at each address
pub record Links : Type 0 where
  pub n : ℕ → ℕ
  pub p : ℕ → ℕ

-- `ps_list_ll_init`
pub ps_list_ll_init : Links → (l : ℕ) → Links
ps_list_ll_init ls l = record { n = update ls.n l l; p = update ls.p l l }

-- `ps_list_ll_empty`
pub ps_list_ll_empty : Links → (l : ℕ) → Bool
ps_list_ll_empty ls l = ls.n l == l

-- `ps_list_ll_add`: its four writes, in order
pub ps_list_ll_add : Links → (l new : ℕ) → Links
ps_list_ll_add ls l new =
    let n1 = update ls.n new (ls.n l) in
    let p1 = update ls.p new l in
    let n2 = update n1 l new in record { n = n2; p = update p1 (n2 new) new }

-- `ps_list_ll_rem`: its four writes, in order
pub ps_list_ll_rem : Links → (l : ℕ) → Links
ps_list_ll_rem ls l =
    let p1 = update ls.p (ls.n l) (ls.p l) in
    let n1 = update ls.n (p1 l) (ls.n l) in record { n = update n1 l l; p = update p1 l l }

-- To add a node behind another one in a list and to remove it again leaves every other link as it
-- was and the node alone.
pub add-rem :
    (ls : Links) (l new : ℕ)
    → l ≢ new
    → ls.n l ≢ new
    → ls.p (ls.n l) ≡ l
    → let back = ps_list_ll_rem (ps_list_ll_add ls l new) new in
      (ps_list_ll_empty back new ≡ true)
      × ((x : ℕ) → x ≢ new → (back.n x ≡ ls.n x) × (back.p x ≡ ls.p x))
unfolding ps_list_ll_rem ps_list_ll_add ps_list_ll_empty
add-rem ls l new ne ne' two_way =
    (ground arith, λ x other. (ground (arith, two_way), ground (arith, two_way)))
