-- ===== src/AddrSpace.antt =====
-- os161/kern/vm/addrspace.c, incStack and incHeap of userprog/mem.c, and sys_sbrk of
-- arch/mips/mips/syscall.c: a process's memory. An address space and a page entry are pointed to
-- by numbers; a second-level table is a function of the index, the first-level table too, with no
-- result past its 512 entries. `none` also stands for an assert that fails and for a panic.
pub mod Translate
pub mod Tlb
pub mod Fault
pub mod Regions
mod Tests
use harvard_os.Prelude.{
  ℕ, zero, suc, ◌+◌, ◌-◌, ◌*◌, ◌/◌, ◌%◌, ◌^◌, Bool, true, false, not, ◌&&◌, ◌||◌, Option, none,
  some, List, [], ◌∷◌, ltb, leb, ◌==◌, if◌then◌else◌, length, get_elem?, set, replicate, ◌>>=◌,
  ◌>>◌, assert, word_mod, update_at,
}
use harvard_os.Errno.{einval, efault, enomem, eunimp}
use harvard_os.Coremap.{
  Entry, Memory, page_size, page_frame, page_address, alloc_kpages, allocate_physical_page,
}

abbrev pub userstack : ℕ
userstack = 2 ^ 31

-- `stack_size`, `heap_size` and `malloc_limit` of arch/mips/include/vm.h
abbrev pub stack_size : ℕ
stack_size = 5242880

abbrev pub heap_size : ℕ
heap_size = 5242880

abbrev pub malloc_limit : ℕ
malloc_limit = 131072

-- the `int` -1 as a word
abbrev pub minus_one : ℕ
minus_one = 2 ^ 32 - 1

-- `struct page_entry`: `coremap_ptr` is the index of the coremap entry.
pub record PageEntry : Type 0 where
  pub valid : ℕ
  pub page_address : ℕ
  pub coremap_ptr : Option ℕ

abbrev pub Table : Type 0
Table = ℕ → PageEntry

-- `struct addrspace`: `eostack` holds the bits of the `int`; 0 in `v` is NULL.
pub record AddrSpace : Type 0 where
  pub v : ℕ
  pub eostack : ℕ
  pub heap_start : ℕ
  pub heap_end : ℕ
  pub as_npages1 : ℕ
  pub as_vbase1 : ℕ
  pub as_npages2 : ℕ
  pub as_vbase2 : ℕ
  pub lvone : ℕ → Option Table

-- `as_create` on the memory that kmalloc returns, which keeps what it held in `heap_end` and in the
-- first-level table.
pub as_create : Option AddrSpace → Option AddrSpace
as_create none = none
as_create (some held) = some (record held {
  as_vbase1 = 0;
  as_npages1 = 0;
  as_vbase2 = 0;
  as_npages2 = 0;
  heap_start = 0;
  v = 0;
  eostack = 0;
})

-- `heap_start` and `heap_end` behind a new region.
abbrev push_heap : ℕ → AddrSpace → AddrSpace
push_heap end as_ =
    if ltb as_.heap_start end then record as_ { heap_start = end; heap_end = end } else as_

-- The permissions are not used.
unfoldable pub as_define_region : AddrSpace → ℕ → ℕ → ℕ → ℕ × AddrSpace
as_define_region as_ vaddr sz counter =
    let base = page_frame vaddr in
    let size = page_frame (((sz + vaddr % page_size) % word_mod + page_size - 1) % word_mod) in
    let npages = size / page_size in
    let end = (base + size) % word_mod in
    if counter == 0 && as_.as_vbase1 == 0
    then (0, push_heap end (record as_ { as_vbase1 = base; as_npages1 = npages }))
    else if counter == 1 && as_.as_vbase2 == 0
    then (0, push_heap end (record as_ { as_vbase2 = base; as_npages2 = npages }))
    else (eunimp, as_)

-- The reference that is taken on the vnode is not modelled.
unfoldable pub as_prepare_load : AddrSpace → ℕ → Option (ℕ × AddrSpace)
as_prepare_load as_ v = assert (as_.v == 0) >> some (0, record as_ { v = v })

unfoldable pub as_complete_load : AddrSpace → ℕ
as_complete_load as_ = 0

-- The result, the stack pointer, and the address space.
pub as_define_stack : AddrSpace → ℕ × ℕ × AddrSpace
as_define_stack as_ = (0, userstack, record as_ { eostack = userstack })

-- `held` as for `as_create`; `none` for the copy on an error.
pub as_copy : Option AddrSpace → AddrSpace → ℕ × Option AddrSpace
as_copy held old = (elim (as_create held) [
  | none ↦ (enomem, none)
  | some new ↦ (
    0,
    some (record new {
      as_vbase1 = old.as_vbase1;
      as_npages1 = old.as_npages1;
      as_vbase2 = old.as_vbase2;
      as_npages2 = old.as_npages2;
    }),
  )
])

-- `L1Tindex` and `L2Tindex`
abbrev pub l1_index : ℕ → ℕ
l1_index faultaddress = faultaddress / 2 ^ 22

abbrev pub l2_index : ℕ → ℕ
l2_index faultaddress = faultaddress / 2 ^ 12 % 2 ^ 10

abbrev empty_table : Table
empty_table j = record { valid = 0; page_address = 0; coremap_ptr = none }

-- The end of `incStack` and of `incHeap`: the page of coremap entry `i` goes into the tables. The
-- field `page_address` has 20 bits. `self` is the address space's address, and the page entry's
-- is made of its indices.
pub link_page : ℕ → ℕ → ℕ → Table → AddrSpace → Memory → Option (AddrSpace × Memory)
link_page self fault i table as_ m =
    let l1 = l1_index fault in
    let l2 = l2_index fault in
    let pe : PageEntry = record {
      valid = 1;
      page_address = page_address m i % 2 ^ 20;
      coremap_ptr = some i;
    } in
    get_elem? m.entries i >>= λ e. some (
      record as_ { lvone = update_at as_.lvone l1 (some (update_at table l2 pe)) },
      record m {
        entries =
            set m.entries i
              (record e { space = self; pe_ptr = 1 + l1 * 2 ^ 10 + l2; continuous = 1 });
      },
    )

-- What `incStack` and `incHeap` share: the result, the physical address, and the new state. A
-- second-level table takes two pages of kernel memory.
pub map_page : ℕ → ℕ → AddrSpace → Memory → Option (ℕ × ℕ × AddrSpace × Memory)
map_page self fault as_ m = (elim (allocate_physical_page m.entries) [
  | none ↦ some (minus_one, 0, as_, m)
  | some (i, entries) ↦
      let m1 = record m { entries = entries } in
      assert (ltb (l1_index fault) 512) >> (elim (as_.lvone (l1_index fault)) [
        | some table ↦
            (link_page self fault i table as_ m1 >>= λ done.
            some (0, page_address m1 i, done.0, done.1))
        | none ↦
            (alloc_kpages 2 m1 >>= λ got. (elim (got.0 == 0) [
              | true ↦ some (enomem, 0, as_, got.1)
              | false ↦
                  (link_page self fault i empty_table as_ got.1 >>= λ done.
                  some (0, page_address m1 i, done.0, done.1))
            ]))
      ])
])

pub inc_heap : ℕ → ℕ → AddrSpace → Memory → Option (ℕ × ℕ × AddrSpace × Memory)
inc_heap self fault as_ m = map_page self fault as_ m

-- The end of the stack moves down by a page wherever the fault was; its wrap-around is that of
-- the machine.
pub inc_stack : ℕ → ℕ → AddrSpace → Memory → Option (ℕ × ℕ × AddrSpace × Memory)
inc_stack self fault as_ m = map_page self fault as_ m >>= λ (result, paddr, as1, m1). some (
  result,
  paddr,
  (if result == 0
      then record as1 { eostack = (as1.eostack + word_mod - page_size) % word_mod }
      else as1),
  m1,
)

-- The second-level table's answer: 20 bits of an address, `none` where there is none.
abbrev pub lookup : Option Table → ℕ → Option ℕ
lookup none l2 = none
lookup (some table) l2 = if (table l2).valid == 0 then none else some (table l2).page_address

-- The translation in the page tables.
pub translate : AddrSpace → ℕ → Option (Option ℕ)
translate as_ fault =
    assert (ltb (l1_index fault) 512) >> some (lookup (as_.lvone (l1_index fault)) (l2_index fault))

-- `sys_sbrk` of the `int` with these bits: the old end of the heap, or -1.
pub sys_sbrk : ℕ → AddrSpace → ℕ × AddrSpace
sys_sbrk size as_ =
    let newheap = (as_.heap_end + size) % word_mod in
    if ltb size (2 ^ 31) && leb malloc_limit size
    then (minus_one, as_)
    else if ltb heap_size ((newheap + word_mod - as_.heap_start) % word_mod)
    then (minus_one, as_)
    else (as_.heap_end, record as_ { heap_end = newheap })

-- The body of the inner loop of `as_destroy`: the coremap entry of a page is free again.
pub free_page : Option ℕ → List Entry → Option (List Entry)
free_page none es = some es
free_page (some i) es = get_elem? es i >>= λ e.
    some (set es i (record { allocated = 0; continuous = 0; space = 0; pe_ptr = 0 }))

pub free_table : ℕ → ℕ → Table → List Entry → Option (List Entry)
free_table zero j table es = some es
free_table (suc rounds) j table es =
    free_page (table j).coremap_ptr es >>= λ es'. free_table rounds (j + 1) table es'

pub free_tables : ℕ → ℕ → AddrSpace → List Entry → Option (List Entry)
free_tables zero i as_ es = some es
free_tables (suc rounds) i as_ es =
    (elim (as_.lvone i) [ none ↦ some es | some table ↦ free_table 1024 0 table es ]) >>= λ es'.
    free_tables rounds (i + 1) as_ es'

-- `as_destroy`: the pages go back to the coremap. The tables are not looked at again, and those of
-- the second level are not freed. The reference on the vnode is not modelled.
pub as_destroy : AddrSpace → Memory → Option Memory
as_destroy as_ m = free_tables 512 0 as_ m.entries >>= λ es. some (record m { entries = es })
