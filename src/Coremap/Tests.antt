-- ===== src/Coremap/Tests.antt =====
-- Instances of the coremap's theorems.
use harvard_os.Prelude.{
  ℕ, ◌+◌, ◌*◌, ◌^◌, ◌<◌, ◌≡◌, ◌≢◌, ◌⊎◌, refl, none, some, List, [], ◌∷◌, ◌++◌, map, length, arith,
}
use harvard_os.Coremap.{
  Entry, Memory, page_address, getppages, has_run, skip_used, alloc_kpages, free_kpages,
}
use harvard_os.Coremap.Runs.{Stops}
use harvard_os.Coremap.Pages.{IsReady, FirstRun, taken, getppages_lem, free_kpages-alloc_kpages}

abbrev used_page : Entry
used_page = record { allocated = 1; continuous = 1; space = 0; pe_ptr = 0 }

abbrev free_page : Entry
free_page = record { allocated = 0; continuous = 0; space = 0; pe_ptr = 0 }

-- A page in use, two free, one in use, three free.
abbrev holes : Memory
holes = record {
  firstpaddr = 16 * 4096;
  lastpaddr = 24 * 4096;
  numofpage = 7;
  free_pages_str = 17 * 4096;
  coremap_str = some (2 ^ 31 + 16 * 4096);
  entries = used_page ∷ free_page ∷ free_page ∷ used_page ∷ free_page ∷ free_page ∷ free_page ∷ [];
}

holes-IsReady : IsReady holes
holes-IsReady = record {
  addr = 2 ^ 31 + 16 * 4096;
  made = refl;
  number = refl;
  above = omega arith;
  below = omega arith;
}

-- Three free pages in a row are there, but not in the first run.
getppages_misses : getppages 3 holes ≡ some (0, holes)
unfolding getppages has_run skip_used
getppages_misses = refl

getppages_lem_example :
    (pre run post : List Entry) × FirstRun holes pre run post
    × (((length run ≡ 2)
          × (getppages 2 holes
              ≡ some (
                page_address holes (length pre),
                record holes { entries = pre ++ (taken 2 run ++ post) },
              )))
        ⊎ ((length run < 2) × Stops 0 post × (getppages 2 holes ≡ some (0, holes))))
getppages_lem_example = getppages_lem 2 holes holes-IsReady (omega arith)

free_kpages-alloc_kpages_example :
    (alloc_kpages 2 holes ≡ some (0, holes))
    ⊎ ((addr : ℕ) × (m1 m2 : Memory) × (alloc_kpages 2 holes ≡ some (addr, m1))
        × (addr ≢ 0)
        × (free_kpages addr m1 ≡ some m2)
        × (map Entry.allocated m2.entries ≡ map Entry.allocated holes.entries))
free_kpages-alloc_kpages_example = free_kpages-alloc_kpages 2 holes holes-IsReady (omega arith)

abbrev before : Memory
before = record holes { coremap_str = none; entries = [] }
