-- ===== src/AddrSpace/Tests.antt =====
-- Instances of the theorems on a process's memory.
use harvard_os.Prelude.{
  update_at, ℕ, ◌+◌, ◌*◌, ◌^◌, ◌%◌, ◌≡◌, ◌⊎◌, refl, ◌-◌, none, some, [], ◌∷◌, replicate, arith,
}
use harvard_os.Coremap.{Entry, Memory, page_address}
use harvard_os.Coremap.Pages.{IsReady}
use harvard_os.AddrSpace.{AddrSpace, Table, translate, minus_one, sys_sbrk}
use harvard_os.AddrSpace.Tlb.{Vm}
use harvard_os.AddrSpace.Translate.{Outcome, map_page_lem}
use harvard_os.AddrSpace.Regions.{HeapFits, sys_sbrk_lem}

abbrev some_page : Entry
some_page = record { allocated = 1; continuous = 1; space = 0; pe_ptr = 0 }

abbrev no_page : Entry
no_page = record { allocated = 0; continuous = 0; space = 0; pe_ptr = 0 }

-- A page in use and four free ones.
abbrev ram : Memory
ram = record {
  firstpaddr = 16 * 4096;
  lastpaddr = 22 * 4096;
  numofpage = 5;
  free_pages_str = 17 * 4096;
  coremap_str = some (2 ^ 31 + 16 * 4096);
  entries = some_page ∷ no_page ∷ no_page ∷ no_page ∷ no_page ∷ [];
}

ram-IsReady : IsReady ram
ram-IsReady = record {
  addr = 2 ^ 31 + 16 * 4096;
  made = refl;
  number = refl;
  above = omega arith;
  below = omega arith;
}

-- Page 3 of the first 4 MB is mapped to the first page of the coremap.
abbrev first_table : Table
first_table =
    update_at (λ j. record { valid = 0; page_address = 0; coremap_ptr = none }) 3
      (record { valid = 1; page_address = 17 * 4096; coremap_ptr = some 0 })

abbrev process : AddrSpace
process = record {
  v = 0;
  eostack = 2 ^ 31;
  heap_start = 8192;
  heap_end = 8192;
  as_npages1 = 1;
  as_vbase1 = 4096;
  as_npages2 = 0;
  as_vbase2 = 0;
  lvone = update_at (λ i. none) 0 (some first_table);
}

abbrev vm : Vm
vm = record { space = some process; memory = ram; tlb = replicate 64 (2 ^ 31, 512); curspl = 0 }

page_three : translate process 12288 ≡ some (some (17 * 4096))
unfolding translate
page_three = refl

process-HeapFits : HeapFits process
process-HeapFits = record { ordered = omega arith; bounded = omega arith; room = omega arith }

map_page_lem_example : Outcome 9 4096 process ram
map_page_lem_example = map_page_lem 9 4096 process ram ram-IsReady (omega arith)

abbrev top : ℕ
top = 2 ^ 31 - 4096

sys_sbrk_lem_example :
    (sys_sbrk 100 process ≡ (minus_one, process))
    ⊎ ((as1 : AddrSpace) × (sys_sbrk 100 process ≡ (8192, as1))
        × HeapFits as1
        × (as1.heap_start ≡ 8192)
        × (as1.heap_end ≡ (8192 + 100) % 2 ^ 32))
sys_sbrk_lem_example = sys_sbrk_lem 100 process process-HeapFits (omega arith)

abbrev empty_process : AddrSpace
empty_process = record process { as_vbase1 = 0; as_npages1 = 0; heap_start = 0; heap_end = 0 }
