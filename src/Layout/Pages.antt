-- ===== src/Layout/Pages.antt =====
-- The pages of a node, which its slabs and chunks are made of: `mem_mgr_init`, `mem_mgr_alloc` and
-- `mem_mgr_free` of libs/mem/mem_mgr.c. The head of the list is node 0, and the item of page `i` of
-- `lh->mems` is node `i + 1`.
pub mod Order
use bi_project.Base.{
  ltb, leb, ◌==◌, if◌then◌else◌, Bool-cases, ltb→lt, ltb→le, lt→ltb, le→ltb, leb→le, leb→lt, le→leb,
  ==→eq, ==→ne, eq→==, ne→==, tests, length, length-append, All, All-append, All-mono, has, update,
  update_self, update_ne, ℕ, zero, suc, ◌+◌, ◌-◌, ◌*◌, ◌/◌, ◌%◌, ◌^◌, ◌≤◌, ◌<◌, ◌≡◌, refl, sym, ap,
  ap₂, ◌∙◌, ◌≢◌, ◌↔◌, ◌⊎◌, inl, inr, Bool, true, false, not, ◌&&◌, ◌||◌, Option, none, some, List,
  [], ◌∷◌, ◌++◌, map, append_assoc, append-nil, arith,
}
use bi_project.Base.Run.{◌>>=◌, ◌>>◌, check}
use bi_project.Layout.{mem_mgr_obj_sz, mem_mgr_obj_num}
use bi_project.Slab.RingList.{
  Links, ps_list_ll_init, ps_list_ll_empty, ps_list_ll_add, ps_list_ll_rem,
}

-- `free_mem_head` with the links of the items, and their field `addr`
pub record Pages : Type 0 where
  pub links : Links
  pub addr : ℕ → ℕ

-- `ps_list_head_append_d`
pub append : Links → (node : ℕ) → Links
append ls node = ps_list_ll_add ls (ls.p 0) node

-- The loop of `mem_mgr_init` over the pages `i` to `i + left`
pub init_pages : (left i addr : ℕ) → Pages → Pages
unfolding append
init_pages zero i addr s = s
init_pages (suc left) i addr s = init_pages left (i + 1) (addr + mem_mgr_obj_sz) (record {
  links = append (ps_list_ll_init s.links (i + 1)) (i + 1);
  addr = update s.addr (i + 1) addr;
})

-- `mem_mgr_init` on pages from `start` on, whatever was there; `bi_malloc_init` is Malloc's. Its
-- assertion that the area is not null is left out: the layout places the areas behind its headers.
pub mem_mgr_init : (start : ℕ) → Pages → Pages
unfolding init_pages
mem_mgr_init start s =
    init_pages mem_mgr_obj_num 0 start (record s { links = ps_list_ll_init s.links 0 })

-- `none` is a failed assertion.
pub mem_mgr_alloc : (sz : ℕ) → Pages → Option (ℕ × Pages)
mem_mgr_alloc sz s =
    let ret = s.links.n 0 in
    check (sz == mem_mgr_obj_sz)
    >> (check (not (ps_list_ll_empty s.links 0))
        >> some (ret, record s { links = ps_list_ll_rem s.links ret }))

pub mem_mgr_free : (buf : ℕ) → Pages → Pages
unfolding append
mem_mgr_free buf s = record s { links = append s.links buf }
