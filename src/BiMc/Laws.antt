-- ===== src/BiMc/Laws.antt =====
-- What mc_code/bi_mc relies on in the slab allocator and the bitmap of pages, which are other
-- projects' code.
use bi_project.BiMc.{quis_num, page_size, mc_slab_aoc_sz, num_server, map_max, Env}
use bi_project.Base.{ltb, ◌==◌, ℕ, ◌+◌, ◌-◌, ◌*◌, ◌/◌, ◌%◌, ◌^◌, ◌<◌, ◌≡◌, ◌≢◌, true, some}

-- `Held l a` means that in state `l` the object `a` is handed out. An object handed out belongs to
-- the server, and only its own release ends that; an allocation hands out an object that was not; a
-- page that gets empty is one of the server's; the objects of a full ring are less than 2^64 bytes; a new page has an object to hand out.
pub record Laws {L : Type 0} (env : Env L) (curr base : ℕ) : Type 1 where
  pub Held : L → ℕ → Type 0
  pub server : ltb curr num_server ≡ true
  pub small : env.objmem * quis_num < 2 ^ 64
  pub owner : (l : L) (a : ℕ) → Held l a → env.coreid l a ≡ curr
  pub take-Fresh :
      (l l' : L) (a : ℕ)
      → env.take l ≡ some (a, l')
      → (a ≢ 0) × (Held l a → ⊥) × Held l' a × ((b : ℕ) → Held l b → Held l' b)
  pub page-takes : (l : L) (s : ℕ) → (r : ℕ × L) × (env.take (env.add_page s l) ≡ some r)
  pub page-Held : (l : L) (s b : ℕ) → Held l b → Held (env.add_page s l) b
  pub free-Held : (l : L) (a b : ℕ) → Held l b → b ≢ a → Held ((env.free_item a l).1) b
  pub free-page :
      (l : L) (a s : ℕ)
      → Held l a
      → (env.free_item a l).0 ≡ some s
      → ((s % page_size == 0) ≡ true)
        × (ltb ((s - base) / page_size + mc_slab_aoc_sz / page_size) (map_max * 32) ≡ true)
  pub find-Held : (l : L) (k b : ℕ) → Held l b → Held ((env.find_set l k).1) b
  pub set-Held : (l : L) (off k b : ℕ) → Held l b → Held (env.set_contig off k l) b
