-- ===== src/Layout/Pages/Order.antt =====
-- The free pages are a queue.
use bi_project.Base.{
  All, All-append, All-mono, update, update_self, update_ne, ℕ, zero, suc, ◌+◌, ◌*◌, ◌≤◌, ◌<◌, ◌≡◌,
  refl, ap, ◌∙◌, ◌≢◌, ◌⊎◌, inl, inr, none, some, List, [], ◌∷◌, ◌++◌, append_assoc, append-nil,
  arith,
}
use bi_project.Layout.{mem_mgr_obj_sz, mem_mgr_obj_num}
use bi_project.Layout.Pages.{Pages, append, init_pages, mem_mgr_init, mem_mgr_alloc, mem_mgr_free}
use bi_project.Slab.RingList.{ps_list_ll_init, ps_list_ll_rem}
use bi_project.Slab.RingList.Chains.{
  IsList, append-IsList, first-IsList, empty-IsList, init-IsList, init-other-IsList,
}

-- The free pages, oldest first
abbrev pub AreFree : Pages → List ℕ → Type 0
AreFree s l = IsList s.links 0 l

-- When the free list of a node has certain pages, `mem_mgr_free` puts a page that is none of them
-- behind them, and `mem_mgr_alloc` of the size of a page takes the first, changing no address, or
-- stops at its assertion when there is none.
pub pages_queue :
    (s : Pages) (l : List ℕ) (buf : ℕ)
    → AreFree s l
    → All (λ x. x ≢ buf) (0 ∷ l)
    → AreFree (mem_mgr_free buf s) (l ++ (buf ∷ []))
      × ((mem_mgr_alloc mem_mgr_obj_sz s ≡ none) × (l ≡ [])
          ⊎ (x : ℕ) × (rest : List ℕ) × (s' : Pages) × (l ≡ x ∷ rest)
            × (mem_mgr_alloc mem_mgr_obj_sz s ≡ some (x, s'))
            × AreFree s' rest
            × (s'.addr ≡ s.addr))
unfolding mem_mgr_free append mem_mgr_alloc
pages_queue s [] buf free fresh = (
  append-IsList s.links 0 [] buf free fresh,
  inl (rw (empty-IsList s.links 0 [] free) refl, refl),
)
pages_queue s (x ∷ l) buf free fresh =
    let (to, rest, _) = first-IsList s.links 0 x l free in
    (
      append-IsList s.links 0 (x ∷ l) buf free fresh,
      inr (
        x,
        l,
        record s { links = ps_list_ll_rem s.links x },
        refl,
        rw (empty-IsList s.links 0 (x ∷ l) free, to) refl,
        rest,
        refl,
      ),
    )

-- The nodes of the pages `i` to `i + n`
abbrev pub pages_from : (i n : ℕ) → List ℕ
pages_from i zero = []
pages_from i (suc n) = (i + 1) ∷ pages_from (i + 1) n

next_places :
    (f : ℕ → ℕ) (i addr left : ℕ)
    → f (i + 1) ≡ addr
    → ((k : ℕ) → k < left → f (i + 1 + k + 1) ≡ addr + mem_mgr_obj_sz + k * mem_mgr_obj_sz)
    → (k : ℕ) → k < suc left
    → f (i + k + 1) ≡ addr + k * mem_mgr_obj_sz
next_places f i addr left first others zero lt =
    let same : i + 0 + 1 ≡ i + 1 = omega arith in
    let none_before : addr ≡ addr + 0 * mem_mgr_obj_sz = omega arith in
    ap f same ∙ first ∙ none_before
next_places f i addr left first others (suc k) lt =
    let same : i + suc k + 1 ≡ i + 1 + k + 1 = omega arith in
    let sum : addr + mem_mgr_obj_sz + k * mem_mgr_obj_sz ≡ addr + suc k * mem_mgr_obj_sz =
      omega arith in
    ap f same ∙ others k (omega arith) ∙ sum

-- The loop puts its pages behind the others, with their addresses, and writes no other address.
init_pages-AreFree :
    (left i addr : ℕ) (s : Pages) (l : List ℕ)
    → AreFree s l
    → All (λ x. x ≤ i) l
    → AreFree (init_pages left i addr s) (l ++ pages_from i left)
      × ((k : ℕ)
          → k < left
          → (init_pages left i addr s).addr (i + k + 1) ≡ addr + k * mem_mgr_obj_sz)
      × ((k : ℕ) → k ≤ i → (init_pages left i addr s).addr k ≡ s.addr k)
unfolding init_pages append
init_pages-AreFree zero i addr s l free small =
    (rw (append-nil l) free, (λ k lt. absurd (omega arith)), λ k le. refl)
init_pages-AreFree (suc left) i addr s l free small =
    let node = i + 1 in
    let fresh : All (λ x. x ≢ node) (0 ∷ l) =
      ((λ e. omega arith), All-mono (λ x. x ≤ i) (λ x. x ≢ node) l (λ x le e. omega arith) small) in
    let s' : Pages = record {
      links = append (ps_list_ll_init s.links node) node;
      addr = update s.addr node addr;
    } in
    let free' : AreFree s' (l ++ (node ∷ [])) =
      append-IsList (ps_list_ll_init s.links node) 0 l node
        (init-other-IsList s.links 0 l node free fresh) fresh in
    let small' : All (λ x. x ≤ node) (l ++ (node ∷ [])) =
      All-append (λ x. x ≤ node) l (node ∷ [])
        (All-mono (λ x. x ≤ i) (λ x. x ≤ node) l (λ x le. omega arith) small) (omega arith, tt) in
    let (all, places, kept) =
      init_pages-AreFree left node (addr + mem_mgr_obj_sz) s' (l ++ (node ∷ [])) free' small' in
    (
      rw (append_assoc l (node ∷ []) (pages_from node left)) at all,
      next_places (init_pages left node (addr + mem_mgr_obj_sz) s').addr i addr left
          (kept node (omega arith) ∙ update_self s.addr node addr) places,
      λ k le. kept k (omega arith) ∙ update_ne s.addr node k addr (λ e. omega arith),
    )

-- Whatever the links were, `mem_mgr_init` leaves MEM_MGR_OBJ_NUM free pages, in order, whose
-- addresses follow each other from the start of the area in steps of MEM_MGR_OBJ_SZ.
pub mem_mgr_init-pages :
    (start : ℕ) (s : Pages)
    → AreFree (mem_mgr_init start s) (pages_from 0 mem_mgr_obj_num)
      × ((k : ℕ)
          → k < mem_mgr_obj_num
          → (mem_mgr_init start s).addr (k + 1) ≡ start + k * mem_mgr_obj_sz)
unfolding mem_mgr_init
mem_mgr_init-pages start s =
    let (free, places, _) =
      init_pages-AreFree mem_mgr_obj_num 0 start (record s { links = ps_list_ll_init s.links 0 }) []
        (init-IsList s.links 0) tt in
    (free, λ k lt. from_zero (mem_mgr_init start s).addr k _ (places k lt))
  where
    from_zero : (f : ℕ → ℕ) (k v : ℕ) → f (0 + k + 1) ≡ v → f (k + 1) ≡ v
    from_zero f k v e = let same : k + 1 ≡ 0 + k + 1 = omega arith in ap f same ∙ e
