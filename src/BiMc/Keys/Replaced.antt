-- ===== src/BiMc/Keys/Replaced.antt =====
-- A set on a server of mc_code/bi_mc that finds an item under the key: the new item takes its place,
-- and the old one goes to the quiescence ring.
use bi_project.BiMc.{Bytes, Object}
use bi_project.BiMc.Table.{same_key, find_loop, replace_loop}
use bi_project.BiMc.Table.Chain.{
  Keyed, Unique, find_loop-change, find_loop-agree, Unique-change, same_key-agree, same_key_refl,
}
use bi_project.BiMc.Table.Replace.{replace-All, replace-Unique, replace-find, replace-find_other}
use bi_project.BiMc.Items.{flags}
use bi_project.BiMc.Keys.Serving.{All-of, flags-Keyed}
use bi_project.Base.{
  ◌==◌, Bool-cases, ==→eq, ==→ne, All, update, update_self, update_ne, ℕ, ◌≡◌, refl, sym, ap, ◌∙◌,
  ◌≢◌, inl, inr, true, false, List,
}

-- The objects after `do_item_replace`: the flag of the new item, that of the old one, and the time.
abbrev pub linked_new : (ℕ → Object) → (it : ℕ) → ℕ → Object
linked_new objs it = flags objs it true

abbrev pub objs_after : (ℕ → Object) → (old it t : ℕ) → ℕ → Object
objs_after objs old it t =
    let objs' = flags (linked_new objs it) old false in
    update objs' old (record (objs' old) { tsc_free = t })

update-Keyed :
    (objs : ℕ → Object) (a : ℕ) (o : Object)
    → Keyed (objs a) o
    → (d : ℕ) → Keyed (objs d) (update objs a o d)
update-Keyed objs a o k d = elim (Bool-cases (a == d)) [
  | inl e ↦ rw (e, ← ==→eq _ _ e) k
  | inr ne ↦ rw ne (refl, refl)
]

pub after-Keyed :
    (objs : ℕ → Object) (old it t d : ℕ) → Keyed (linked_new objs it d) (objs_after objs old it t d)
after-Keyed objs old it t d =
    let objs1 = linked_new objs it in
    let objs2 = flags objs1 old false in
    let (a, b) = flags-Keyed objs1 old false d in
    let (a', b') = update-Keyed objs2 old (record (objs2 old) { tsc_free = t }) (refl, refl) d in
    (a ∙ a', b ∙ b')

-- Other objects are as they were, and the new item is linked.
pub after_other :
    (objs : ℕ → Object) (old it t d : ℕ) → d ≢ it → d ≢ old → objs_after objs old it t d ≡ objs d
after_other objs old it t d ni not_old =
    let objs1 = linked_new objs it in
    let objs2 = flags objs1 old false in
    update_ne objs2 old d _ (λ e. not_old (sym e))
    ∙ update_ne objs1 old d _ (λ e. not_old (sym e))
    ∙ update_ne objs it d _ (λ e. ni (sym e))

pub after_new :
    (objs : ℕ → Object) (old it t : ℕ)
    → it ≢ old
    → objs_after objs old it t it ≡ record (objs it) { linked = true }
after_new objs old it t not_old =
    let objs1 = linked_new objs it in
    let objs2 = flags objs1 old false in
    update_ne objs2 old it _ (λ e. not_old (sym e))
    ∙ update_ne objs1 old it _ (λ e. not_old (sym e))
    ∙ update_self objs it _

at_time : ℕ → Object → Object
at_time t o = record o { tsc_free = t }

given_away : ℕ → Object → Object
given_away t o = record o { linked = false; tsc_free = t }

pub after_old :
    (objs : ℕ → Object) (old it t : ℕ)
    → old ≢ it
    → objs_after objs old it t old ≡ record (objs old) { linked = false; tsc_free = t }
unfolding at_time given_away
after_old objs old it t ne =
    let objs1 = linked_new objs it in
    let objs2 = flags objs1 old false in
    update_self objs2 old _
    ∙ ap (at_time t) (update_self objs1 old _)
    ∙ ap (given_away t) (update_ne objs it old _ (λ e. ne (sym e)))

-- The values of all objects but the new one are as they were.
pub after_value :
    (objs : ℕ → Object) (old it t d : ℕ)
    → old ≢ it
    → d ≢ it
    → ((objs_after objs old it t d).contents ≡ (objs d).contents)
      × ((objs_after objs old it t d).nbytes ≡ (objs d).nbytes)
unfolding given_away
after_value objs old it t d apart ne = elim (Bool-cases (d == old)) [
  | inr not_old ↦
      let same = after_other objs old it t d ne (==→ne _ _ not_old) in
      (ap (λ o. o.contents) same, ap (λ o. o.nbytes) same)
  | inl e ↦
      let same = after_old objs old it t apart in
      rw (==→eq _ _ e) (ap (λ o. o.contents) same, ap (λ o. o.nbytes) same)
]

-- The chain after `assoc_replace`
abbrev pub chain_after : (ℕ → Object) → (old it : ℕ) → List ℕ → List ℕ
chain_after objs old it chain =
    let objs1 = linked_new objs it in
    replace_loop objs1 ((objs1 old).key) ((objs1 old).nkey) it chain

module _ (objs : ℕ → Object) (it t : ℕ) (key : Bytes) (nkey : ℕ) (chain : List ℕ)
    (there : find_loop objs key nkey chain ≢ 0) (same_it : same_key key nkey (objs it) ≡ true)
    (same_old : same_key key nkey (objs (find_loop objs key nkey chain)) ≡ true) where
  objs1 : ℕ → Object
  objs1 = linked_new objs it

  old : ℕ
  old = find_loop objs key nkey chain

  keyed1 : (d : ℕ) → Keyed (objs d) (objs1 d)
  unfolding objs1
  keyed1 d = flags-Keyed objs it true d

  same1 : (d : ℕ) → same_key key nkey (objs d) ≡ true → same_key key nkey (objs1 d) ≡ true
  same1 d h = let (a, b) = keyed1 d in rw (← a, ← b) h

  -- The key of the old item finds it, also when the new item's flag is set.
  finds_old : find_loop objs1 ((objs1 old).key) ((objs1 old).nkey) chain ≡ old
  unfolding old
  finds_old =
      sym (find_loop-agree objs1 key nkey (objs1 old) chain (same1 old same_old))
      ∙ find_loop-change objs objs1 key nkey chain (All-of _ keyed1 chain)

  new_has_key : same_key ((objs1 old).key) ((objs1 old).nkey) (objs1 it) ≡ true
  unfolding old
  new_has_key =
      sym (same_key-agree key nkey (objs1 old) (objs1 it) (same1 old same_old)) ∙ same1 it same_it

  pub chain-All :
      (P : ℕ → Type 0)
      → Unique objs chain
      → All (λ d. d ≢ find_loop objs key nkey chain → P d) chain
      → P it
      → All P (chain_after objs (find_loop objs key nkey chain) it chain)
  unfolding objs1 old
  chain-All P u h hn =
      replace-All P objs1 ((objs1 old).key) ((objs1 old).nkey) it chain
        (Unique-change objs objs1 chain (All-of _ keyed1 chain) u)
        (rw finds_old (same_key_refl (objs1 old))) (rw finds_old h) hn

  pub chain-Unique :
      Unique objs chain
      → Unique
          (objs_after objs (find_loop objs key nkey chain) it t)
          (chain_after objs (find_loop objs key nkey chain) it chain)
  unfolding objs1 old
  chain-Unique u =
      Unique-change objs1 (objs_after objs old it t) _ (All-of _ (after-Keyed objs old it t) _) (
        replace-Unique objs1 ((objs1 old).key) ((objs1 old).nkey) it chain
          (Unique-change objs objs1 chain (All-of _ keyed1 chain) u) new_has_key)

  pub chain-find :
      find_loop
        (objs_after objs (find_loop objs key nkey chain) it t)
        key
        nkey
        (chain_after objs (find_loop objs key nkey chain) it chain)
      ≡ it
  unfolding objs1 old
  chain-find =
      find_loop-change objs1 (objs_after objs old it t) key nkey _
        (All-of _ (after-Keyed objs old it t) _)
      ∙ find_loop-agree objs1 key nkey (objs1 old) _ (same1 old same_old)
      ∙ replace-find objs1 ((objs1 old).key) ((objs1 old).nkey) it chain
          (λ z. there (sym finds_old ∙ z)) new_has_key

  pub chain-find_other :
      (k : Bytes) (m : ℕ)
      → same_key k m (objs it) ≡ false
      → find_loop
          (objs_after objs (find_loop objs key nkey chain) it t)
          k
          m
          (chain_after objs (find_loop objs key nkey chain) it chain)
        ≡ find_loop objs k m chain
  unfolding objs1 old
  chain-find_other k m differs =
      find_loop-change objs1 (objs_after objs old it t) k m _
        (All-of _ (after-Keyed objs old it t) _)
      ∙ replace-find_other objs1 ((objs1 old).key) k ((objs1 old).nkey) m it chain new_has_key
          (let (a, b) = keyed1 it in rw (← a, ← b) differs)
      ∙ find_loop-change objs objs1 k m chain (All-of _ keyed1 chain)
