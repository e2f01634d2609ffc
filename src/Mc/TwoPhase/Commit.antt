-- ===== src/Mc/TwoPhase/Commit.antt =====
-- The log of the prepared updates: what an update of a key does to it, from an idle log.
use bi_project.Base.{
  leb, le→leb, eq→==, ne→==, update, ℕ, ◌+◌, ◌≤◌, ◌<◌, ◌≡◌, refl, sym, ◌∙◌, ◌≢◌, true, false,
  Option, none, some, arith,
}
use bi_project.Base.Run.{check_then}
use bi_project.Assoc.{Item, assoc_find}
use bi_project.Mc.Items.{hashpower, Bytes, Alloc, Cache, item_at, link_new, written_over}
use bi_project.Mc.Items.Kept.{
  Room, old-done, stored_size, Holds, do_item_get-find, link-Holds, old-Holds,
}
use bi_project.Mc.TwoPhase.{
  ◌>>=◌, ◌>>◌, check, key_length, sizeof_commit_log, clear_it, mc_update, slot, mc_commit, conflict,
  update_loop, commit_loop, Log, mc_set_key_ext,
}
use bi_project.Mc.TwoPhase.Text.{
  strncmp_eq, strncpy, NoNul, strncpy-byte, strncmp-copy, strncmp-free,
}

-- Both entries are free.
abbrev pub Idle : Log → Type 0
Idle log = (log 0 0 ≡ 0) × (log 1 0 ≡ 0)

-- The log in which the key is prepared, when it was idle.
abbrev pub prepared : Log → (key : Bytes) → (nkey : ℕ) → Log
prepared log key nkey = update log 1 (clear_it (strncpy (log 1) key nkey))

scan-Idle :
    (log : Log) (key : Bytes) (nkey : ℕ)
    → Idle log
    → commit_loop log key nkey 2 0 none ≡ slot (some 1)
unfolding commit_loop
scan-Idle log key nkey (free0, free1) = rw (eq→== (log 0 0) 0 free0, eq→== (log 1 0) 0 free1)

pub commit-Idle :
    (log : Log) (key : Bytes) (nkey : ℕ)
    → Idle log
    → nkey ≤ key_length
    → mc_commit log key nkey ≡ some (0, prepared log key nkey)
unfolding mc_commit
commit-Idle log key nkey idle short =
    let fits : leb nkey sizeof_commit_log ≡ true = le→leb _ _ (omega arith) in
    rw (mc_commit, scan-Idle log key nkey idle) (check_then _ fits)

-- The entry does not look free, and it compares as equal with the key.
abbrev pub Logged : Bytes → (key : Bytes) → (nkey : ℕ) → Type 0
Logged entry key nkey = (entry 0 ≢ 0) × (strncmp_eq key entry nkey 0 ≡ true)

-- The pointer of an entry stands behind a key of the fixed size.
logged-byte :
    (old key : Bytes) (nkey i : ℕ)
    → nkey ≤ key_length
    → NoNul key nkey
    → i < nkey
    → clear_it (strncpy old key nkey) i ≡ key i
logged-byte old key nkey i short clean lt =
    let before : leb key_length i ≡ false = ground arith in
    rw before (strncpy-byte old key nkey i clean lt)

pub prepared-Logged :
    (log : Log) (key : Bytes) (nkey : ℕ)
    → 0 < nkey
    → nkey ≤ key_length
    → NoNul key nkey
    → Logged (clear_it (strncpy (log 1) key nkey)) key nkey
prepared-Logged log key nkey pos short clean = (
  λ z. clean 0 pos (sym (logged-byte (log 1) key nkey 0 short clean pos) ∙ z),
  strncmp-copy key (clear_it (strncpy (log 1) key nkey)) nkey nkey 0 clean
      (λ i lt. logged-byte (log 1) key nkey i short clean lt) (omega arith),
)

scan-Logged :
    (log : Log) (key : Bytes) (nkey : ℕ)
    → log 0 0 ≡ 0
    → Logged (log 1) key nkey
    → commit_loop log key nkey 2 0 none ≡ conflict
unfolding commit_loop
scan-Logged log key nkey free (taken, same) =
    rw (eq→== (log 0 0) 0 free, ne→== (log 1 0) 0 taken, same)

-- A key that is prepared cannot be prepared again.
pub commit-Logged :
    (log : Log) (key : Bytes) (nkey : ℕ)
    → log 0 0 ≡ 0
    → Logged (log 1) key nkey
    → mc_commit log key nkey ≡ some (1, log)
unfolding mc_commit
commit-Logged log key nkey free logged = rw (mc_commit, scan-Logged log key nkey free logged)

find-prepared :
    (log : Log) (key : Bytes) (nkey : ℕ)
    → 0 < nkey
    → nkey ≤ key_length
    → NoNul key nkey
    → log 0 0 ≡ 0
    → update_loop (prepared log key nkey) key nkey 2 0 ≡ some 1
unfolding update_loop
find-prepared log key nkey pos short clean free =
    rw (
      strncmp-free key (log 0) nkey pos clean free,
      (prepared-Logged log key nkey pos short clean).1,
    )

-- The allocator finds memory when it is asked.
abbrev pub Provides : Alloc → Type 0
Provides alloc = (c : Cache) → (a : ℕ) × (c' : Cache) × (alloc c ≡ (some a, c'))

linked :
    (value : Bytes) (nbytes hv : ℕ) (c' : Cache) (m : Option (Option Item × Cache))
    → (m >>= (λ r. link_new value nbytes hv r)) ≡ some (true, c')
    → (m >>= (λ r. link_new value nbytes hv r >>= (λ s. check s.0 >> some s.1))) ≡ some c'
linked value nbytes hv c' none e = absurd (ground arith)
linked value nbytes hv c' (some r) e = rw e refl

-- The store of a server that finds its allocator serving
set-Holds :
    (alloc : Alloc) (c : Cache) (key : Bytes) (nkey : ℕ) (value : Bytes) (nbytes hv : ℕ)
    → Provides alloc
    → nkey < 256
    → Room (assoc_find hashpower c.table key nkey hv) c.nbytes nkey nbytes
    → (c' : Cache) × (mc_set_key_ext alloc c key nkey value nbytes hv ≡ some c')
      × Holds c' key nkey hv value nbytes
          (stored_size (assoc_find hashpower c.table key nkey hv) c.nbytes nbytes)
unfolding mc_set_key_ext
set-Holds alloc c key nkey value nbytes hv serves small room =
    by_find (assoc_find hashpower c.table key nkey hv) refl
  where
    by_find :
        (r : Option Item)
        → assoc_find hashpower c.table key nkey hv ≡ r
        → (c' : Cache) × (mc_set_key_ext alloc c key nkey value nbytes hv ≡ some c')
          × Holds c' key nkey hv value nbytes
              (stored_size (assoc_find hashpower c.table key nkey hv) c.nbytes nbytes)
    by_find none e =
        let c1 = record c { status = record (c.status) { alloc = c.status.alloc + 1 } } in
        let (a, c2, got) = serves c1 in
        let (c', done, holds) =
          link-Holds (alloc c1) a c2 key nkey value nbytes hv got small (rw e at room) in
        rw e (
          c',
          rw (mc_set_key_ext, do_item_get-find c key nkey hv, e)
              (linked value nbytes hv c' (item_at key nkey (nbytes + 2) (alloc c1)) done),
          holds,
        )
    by_find (some it) e = rw e (
      written_over c it value nbytes,
      rw (mc_set_key_ext, do_item_get-find c key nkey hv, e)
          (old-done c it value nkey nbytes (rw e at room)),
      old-Holds c key nkey hv value nbytes it e,
    )

-- A prepared update frees its entry and stores its value.
pub update-Holds :
    (alloc : Alloc) (log : Log) (c : Cache)
    → (key : Bytes) (nkey : ℕ) (value : Bytes) (nbytes hv : ℕ) → Provides alloc
    → 0 < nkey
    → nkey ≤ key_length
    → NoNul key nkey
    → Idle log
    → Room (assoc_find hashpower c.table key nkey hv) c.nbytes nkey nbytes
    → (log' : Log) × (c' : Cache) × (mc_update alloc
          (prepared log key nkey)
          c
          key
          nkey
          value
          nbytes
          hv
        ≡ some (log', c'))
      × Idle log'
      × Holds c' key nkey hv value nbytes
          (stored_size (assoc_find hashpower c.table key nkey hv) c.nbytes nbytes)
unfolding mc_update
update-Holds alloc log c key nkey value nbytes hv serves pos short clean (free0, free1) room =
    let p = prepared log key nkey in
    let (c', done, holds) = set-Holds alloc c key nkey value nbytes hv serves (omega arith) room in
    (
      update p 1 (update (p 1) 0 0),
      c',
      rw (mc_update, find-prepared log key nkey pos short clean free0, done),
      (free0, refl),
      holds,
    )
