-- ===== src/Coremap.antt =====
-- os161/kern/arch/mips/mips/ram.c, vm/vm.c (all but vm_fault) and allocate_physical_page of
-- userprog/mem.c: physical memory before and after the coremap is set up. Addresses are 32-bit,
-- with their wrap-around written out.
pub mod Runs
pub mod Pages
pub mod Boot
mod Tests
use harvard_os.Prelude.{
  ℕ, zero, suc, ◌+◌, ◌-◌, ◌*◌, ◌/◌, ◌%◌, ◌^◌, Bool, true, false, not, Option, none, some, List, [],
  ◌∷◌, ◌++◌, ltb, leb, ◌==◌, if◌then◌else◌, length, take, drop, ◌>>=◌, ◌>>◌, assert, word_mod,
}

abbrev pub page_size : ℕ
page_size = 4096

abbrev pub mips_kseg0 : ℕ
mips_kseg0 = 2 ^ 31

-- `struct coremap_entry`: 0 in `space` (the source's `as`) and in `pe_ptr` is NULL.
pub record Entry : Type 0 where
  pub allocated : ℕ
  pub continuous : ℕ
  pub space : ℕ
  pub pe_ptr : ℕ

-- The globals of ram.c and of `struct coremap`; `entries` is what the memory at `coremap_str`
-- holds, one entry for each page there is.
pub record Memory : Type 0 where
  pub firstpaddr : ℕ
  pub lastpaddr : ℕ
  pub numofpage : ℕ
  pub free_pages_str : ℕ
  pub coremap_str : Option ℕ
  pub entries : List Entry

-- The machine's memory size and the end of the kernel image are the arguments.
pub ram_bootstrap : ℕ → ℕ → Memory → Memory
ram_bootstrap ramsize firstfree m = record m {
  lastpaddr = if ltb (508 * 1024 * 1024) ramsize then 508 * 1024 * 1024 else ramsize;
  firstpaddr = (firstfree + word_mod - mips_kseg0) % word_mod;
}

pub ram_stealmem : ℕ → Memory → ℕ × Memory
ram_stealmem npages m =
    let size = npages * page_size % word_mod in
    if ltb m.lastpaddr ((m.firstpaddr + size) % word_mod)
    then (0, m)
    else (m.firstpaddr, record m { firstpaddr = (m.firstpaddr + size) % word_mod })

pub ram_getsize : Memory → ℕ × ℕ
ram_getsize m = (m.firstpaddr, m.lastpaddr)

-- `addr & PAGE_FRAME`
abbrev pub page_frame : ℕ → ℕ
page_frame addr = addr / page_size * page_size

abbrev pub paddr_to_kvaddr : ℕ → ℕ
paddr_to_kvaddr paddr = (paddr + mips_kseg0) % word_mod

abbrev pub kvaddr_to_paddr : ℕ → ℕ
kvaddr_to_paddr vaddr = (vaddr + word_mod - mips_kseg0) % word_mod

-- An entry takes 16 bytes. The source does not write the entries: `held` is what memory holds.
pub vm_bootstrap : List Entry → Memory → Memory
vm_bootstrap held m =
    let (start, end) = ram_getsize m in
    let coremap_str = page_frame start in
    let freepages = (page_frame end + word_mod - coremap_str) % word_mod / page_size in
    let coremap_pages = freepages * 16 % word_mod / 4096 + 1 in
    let numofpage = (freepages + word_mod - coremap_pages) % word_mod in
    record m {
      numofpage = numofpage;
      free_pages_str = (coremap_str + coremap_pages * 4096) % word_mod;
      coremap_str = some (paddr_to_kvaddr start);
      entries = take numofpage held;
    }

-- The first loop of `getppages`: how many entries it passes.
pub skip_used : List Entry → ℕ
skip_used [] = 0
skip_used (e ∷ es) = if e.allocated == 1 then suc (skip_used es) else 0

-- The second loop, from the entry it starts at: whether it counts `npages` free entries.
pub has_run : ℕ → ℕ → List Entry → Bool
has_run npages counter [] = false
has_run npages counter (e ∷ es) =
    let rest = has_run npages (counter + 1) es in
    if e.allocated == 0 then (if leb npages (counter + 1) then true else rest) else false

-- `freepgstart->continuous = npages;`
pub start_run : ℕ → List Entry → List Entry
start_run npages [] = []
start_run npages (e ∷ es) = record e { continuous = npages } ∷ es

-- `allocated = state` in so many entries: no result past the last.
pub mark_pages : ℕ → ℕ → List Entry → Option (List Entry)
mark_pages state zero es = some es
mark_pages state (suc n) [] = none
mark_pages state (suc n) (e ∷ es) =
    mark_pages state n es >>= λ rest. some (record e { allocated = state } ∷ rest)

-- The address of the page that an entry stands for.
abbrev pub page_address : Memory → ℕ → ℕ
page_address m i = (m.free_pages_str + i * 4096) % word_mod

pub getppages : ℕ → Memory → Option (ℕ × Memory)
getppages npages m = (elim m.coremap_str [
  | none ↦ some (ram_stealmem npages m)
  | some addr ↦
      let i = skip_used m.entries in
      let marked = mark_pages 1 npages (start_run npages (drop i m.entries)) in
      if has_run npages 0 (drop i m.entries)
      then (marked >>= λ run.
          some (page_address m i, record m { entries = take i m.entries ++ run }))
      else some (0, m)
])

pub alloc_kpages : ℕ → Memory → Option (ℕ × Memory)
alloc_kpages npages m = do
  got ← getppages npages m
  some (if got.0 == 0 then 0 else paddr_to_kvaddr got.0, got.1)

-- The loop of `free_kpages` and the reset of `continuous`, from the entry of the page on.
pub release : List Entry → Option (List Entry)
release [] = none
release (e ∷ es) = do es' ← mark_pages 0 e.continuous (e ∷ es); some (start_run 0 es')

-- No result outside the coremap.
pub free_kpages : ℕ → Memory → Option Memory
free_kpages addr m =
    let i = (kvaddr_to_paddr addr + word_mod - m.free_pages_str) % word_mod / 4096 in
    assert (ltb i (length m.entries))
    >> (release (drop i m.entries) >>= λ es. some (record m { entries = take i m.entries ++ es }))

-- `allocate_physical_page`: the index of the entry, `none` for the result -1.
pub allocate_physical_page : List Entry → Option (ℕ × List Entry)
allocate_physical_page [] = none
allocate_physical_page (e ∷ es) =
    let rest = (allocate_physical_page es >>= λ found. some (suc found.0, e ∷ found.1)) in
    if e.allocated == 0 then some (0, record e { allocated = 1 } ∷ es) else rest
