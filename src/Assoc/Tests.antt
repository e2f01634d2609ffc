-- ===== src/Assoc/Tests.antt =====
-- The hash table on concrete inputs.
use bi_project.Base.{
  ◌==◌, if◌then◌else◌, length, ℕ, ◌+◌, ◌≡◌, refl, ◌≢◌, true, false, none, some, [], ◌∷◌, arith,
}
use bi_project.Assoc.{Item, HashTable, bucket, assoc_find, assoc_delete, find_loop}
use bi_project.Assoc.Lookup.{find-delete, Once}

abbrev first_key : ℕ → ℕ
first_key i = 97 + i

abbrev other_key : ℕ → ℕ
other_key i = 65 + i

abbrev first : Item
first = record { addr = 4096; nkey = 3; key = first_key; linked = true; slabbed = false }

abbrev second : Item
second = record { addr = 8192; nkey = 3; key = other_key; linked = true; slabbed = false }

-- Both items in bucket 5.
abbrev table : HashTable
table b = if b == 5 then second ∷ first ∷ [] else []

once : Once first_key 3 (table (bucket 10 1029))
unfolding find_loop
once = ((λ e. absurd (ground arith)), ((λ e. refl), tt))

found : assoc_find 10 table first_key 3 1029 ≡ some first
unfolding assoc_find find_loop
found = refl

find-delete_example :
    (table' : HashTable) × (assoc_delete 10 table first_key 3 1029 ≡ some table')
    × (assoc_find 10 table' first_key 3 1029 ≡ none)
    × (length (table (bucket 10 1029)) ≡ length (table' (bucket 10 1029)) + 1)
    × ((key' : ℕ → ℕ) (nkey' hv' : ℕ)
        → bucket 10 1029 ≢ bucket 10 hv'
        → assoc_find 10 table' key' nkey' hv' ≡ assoc_find 10 table key' nkey' hv')
find-delete_example = find-delete 10 table first_key 3 1029 first once found
