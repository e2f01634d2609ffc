-- ===== src/Mc/Items/Uniform.antt =====
-- The caches in which every value has the size that the clients store and begins with the same byte,
-- and what a set and a get do to them.
use bi_project.Base.{
  All, All-mono, update, update_self, ℕ, ◌+◌, ◌%◌, ◌≤◌, ◌<◌, ◌≡◌, refl, ◌∙◌, Bool, true, false,
  Option, none, some, arith,
}
use mathlib.Core.Option.{some-injective}
use bi_project.Base.Run.{◌>>=◌, bind_some, check_then}
use bi_project.BiMc.Items.{item_data}
use bi_project.BiMc.Memory.{mc_slab_obj_sz}
use bi_project.Mc.Items.Kept.{Room, old-done, item_at-done, new-fits}
use bi_project.Assoc.{Item, assoc_find, assoc_insert, do_item_link}
use bi_project.Assoc.Lookup.{find-All, insert-All}
use bi_project.Mc.Items.{
  hashpower, Bytes, memcpy, written_over, twice, Alloc, Cache, item_at, link_new, set_new,
  do_item_alloc, mc_set_key_ext, mc_get_key_ext, do_item_get, do_item_update,
}

-- An item of the size `n + 2` whose value begins with the byte `first`.
abbrev pub IsFull : Cache → (n first : ℕ) → Item → Type 0
IsFull c n first it = (c.nbytes it.addr ≡ n + 2) × (c.contents it.addr 0 ≡ first)

abbrev pub Uniform : Cache → (n first : ℕ) → Type 0
Uniform c n first = (b : ℕ) → All (IsFull c n first) (c.table b)

-- An allocator that keeps the caches uniform: an eviction takes items out of the table.
abbrev pub KeepsUniform : Alloc → (n first : ℕ) → Type 0
KeepsUniform alloc n first =
    (c : Cache) → Uniform c n first → Uniform (twice alloc (alloc c)).1 n first

-- A value of `n` bytes, written to one item, leaves every full item full.
write-head :
    (f : ℕ → Bytes) (n first a b : ℕ) (value : Bytes)
    → 0 < n
    → value 0 ≡ first
    → f b 0 ≡ first
    → update f a (memcpy (f a) value n) b 0 ≡ first
write-head f n first a b value pos head old = ground arith

set_old-Uniform :
    (c : Cache) (n first : ℕ) (it : Item) (value : Bytes)
    → 0 < n
    → value 0 ≡ first
    → Uniform c n first
    → Uniform (written_over c it value n) n first
set_old-Uniform c n first it value pos head u b =
    All-mono (IsFull c n first) (IsFull (written_over c it value n) n first) (c.table b)
      (λ x full. (full.0, write-head c.contents n first it.addr x.addr value pos head full.1)) (u b)

-- What a set of a new key makes of the memory found, if any.
link-Uniform :
    (got : Option ℕ × Cache) (key : Bytes) (nkey : ℕ) (value : Bytes) (n hv first : ℕ)
    → 0 < n
    → value 0 ≡ first
    → Uniform got.1 n first
    → nkey < 256
    → item_data nkey (n + 2) + n ≤ mc_slab_obj_sz
    → (r : Bool × Cache) × ((item_at key nkey (n + 2) got >>= (λ s. link_new value n hv s))
        ≡ some r)
      × Uniform r.1 n first
unfolding link_new item_at do_item_link
link-Uniform (none, c) key nkey value n hv first pos head u small fits = ((false, c), refl, u)
link-Uniform (some a, c) key nkey value n hv first pos head u small fits =
    let it : Item = record {
      addr = a;
      nkey = nkey % 256;
      key = key;
      linked = true;
      slabbed = false;
    } in
    let c' : Cache = record c {
      nbytes = update c.nbytes a (n + 2);
      table = assoc_insert hashpower c.table it hv;
      contents = update c.contents a (memcpy (c.contents a) value n);
    } in
    let kept : (b : ℕ) → All (IsFull c' n first) (c.table b) = λ b.
      All-mono (IsFull c n first) (IsFull c' n first) (c.table b)
        (λ x full. (
          sized c.nbytes a x.addr (n + 2) full.0,
          write-head c.contents n first a x.addr value pos head full.1,
        ))
        (u b) in
    let own : IsFull c' n first it =
      (update_self c.nbytes a (n + 2), fresh c.contents a value n first pos head) in
    (
      (true, c'),
      bind_some _ (item_at-done a c key nkey n fits small)
          ∙ check_then _ (new-fits c a nkey n fits),
      λ b. insert-All (IsFull c' n first) hashpower c.table it hv b (kept b) own,
    )
  where
    sized : (f : ℕ → ℕ) (a b v : ℕ) → f b ≡ v → update f a v b ≡ v
    sized f a b v e = ground arith

    fresh :
        (f : ℕ → Bytes) (a : ℕ) (value : Bytes) (n first : ℕ)
        → 0 < n
        → value 0 ≡ first
        → update f a (memcpy (f a) value n) a 0 ≡ first
    fresh f a value n first pos head = ground arith

-- A set of such a value ends, and keeps the cache uniform.
pub set-Uniform :
    (alloc : Alloc) (c : Cache) (key : Bytes) (nkey : ℕ) (value : Bytes) (n hv first : ℕ)
    → KeepsUniform alloc n first
    → 0 < n
    → value 0 ≡ first
    → Uniform c n first
    → nkey < 256
    → Room (assoc_find hashpower c.table key nkey hv) c.nbytes nkey n
    → (r : Bool × Cache) × (mc_set_key_ext alloc c key nkey value n hv ≡ some r)
      × Uniform r.1 n first
unfolding mc_set_key_ext do_item_get set_new do_item_alloc
set-Uniform alloc c key nkey value n hv first keeps pos head u small room =
    by_find (assoc_find hashpower c.table key nkey hv) refl
  where
    by_find :
        (r : Option Item)
        → assoc_find hashpower c.table key nkey hv ≡ r
        → (r : Bool × Cache) × (mc_set_key_ext alloc c key nkey value n hv ≡ some r)
          × Uniform r.1 n first
    by_find none e =
        let c1 = record c {
          status = record (c.status) { sets = c.status.sets + 1; alloc = c.status.alloc + 1 };
        } in
        let (r, done, u') =
          link-Uniform (twice alloc (alloc c1)) key nkey value n hv first pos head (keeps c1 u)
            small (rw e at room) in
        (r, rw (e, mc_set_key_ext) done, u')
    by_find (some it) e =
        let c1 = record c { status = record (c.status) { sets = c.status.sets + 1 } } in
        (
          (true, written_over c1 it value n),
          rw (e, mc_set_key_ext) (bind_some _ (old-done c1 it value nkey n (rw e at room))),
          set_old-Uniform c1 n first it value pos head u,
        )

-- A get keeps the cache uniform, and what it finds is full.
pub get-Uniform :
    (c : Cache) (key : Bytes) (nkey hv n first : ℕ)
    → Uniform c n first
    → let r = mc_get_key_ext c key nkey hv in
      Uniform r.1 n first
      × (r.1.nbytes ≡ c.nbytes)
      × (r.1.contents ≡ c.contents)
      × ((it : Item) → r.0 ≡ some it → IsFull c n first it)
unfolding mc_get_key_ext do_item_get do_item_update
get-Uniform c key nkey hv n first u = by_find (assoc_find hashpower c.table key nkey hv) refl
  where
    by_find :
        (r : Option Item)
        → assoc_find hashpower c.table key nkey hv ≡ r
        → let r = mc_get_key_ext c key nkey hv in
          Uniform r.1 n first
          × (r.1.nbytes ≡ c.nbytes)
          × (r.1.contents ≡ c.contents)
          × ((it : Item) → r.0 ≡ some it → IsFull c n first it)
    by_find none e = rw (e, mc_get_key_ext) (u, refl, refl, λ it h. absurd (ground arith))
    by_find (some it) e =
        rw (e, mc_get_key_ext)
          (
            u,
            refl,
            refl,
            λ x h.
                rw (some-injective it x h) at
                  (find-All (IsFull c n first) hashpower c.table key nkey hv it u e),
          )
