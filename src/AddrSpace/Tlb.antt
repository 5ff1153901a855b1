-- ===== src/AddrSpace/Tlb.antt =====
-- vm_fault of os161/kern/vm/vm.c, and as_activate of vm/addrspace.c: the slots of the TLB.
use harvard_os.Prelude.{
  ℕ, zero, suc, ◌+◌, ◌-◌, ◌*◌, ◌/◌, ◌%◌, ◌^◌, Bool, true, false, not, ◌&&◌, ◌||◌, Option, none,
  some, List, [], ◌∷◌, leb, ◌==◌, if◌then◌else◌, set, ◌>>=◌, ◌>>◌, assert, word_mod,
}
use harvard_os.Errno.{einval, efault}
use harvard_os.Coremap.{Memory, page_size, page_frame}
use harvard_os.AddrSpace.{AddrSpace, userstack, stack_size, inc_heap, inc_stack, translate}

-- `position` of `vm_fault`: which of the two regions a fault belongs to.
pub data Region : Type 0 where
  stack heap nowhere : Region

unfoldable pub position : AddrSpace → ℕ → Region
position as_ fault =
    let limit : Region =
      if leb stack_size ((userstack + word_mod - as_.eostack) % word_mod) then stack else nowhere in
    let near : Region =
      if leb fault userstack && leb ((as_.eostack + word_mod - page_size) % word_mod) fault
      then stack
      else limit in
    if leb as_.heap_start fault && leb fault as_.heap_end then heap else near

unfoldable pub grow : Region → ℕ → ℕ → AddrSpace → Memory → Option (ℕ × ℕ × AddrSpace × Memory)
grow stack self fault as_ m = inc_stack self fault as_ m
grow heap self fault as_ m = inc_heap self fault as_ m
grow nowhere self fault as_ m = some (1, 0, as_, m)

-- A TLB slot: its high and its low word.
abbrev pub Tlb : Type 0
Tlb = List (ℕ × ℕ)

abbrev pub tlblo_valid : ℕ → Bool
tlblo_valid elo = elo / 512 % 2 == 1

-- One of the two loops of `vm_fault`: a free slot takes the entry.
unfoldable pub fill_tlb : ℕ × ℕ → Tlb → Option Tlb
fill_tlb entry [] = none
fill_tlb entry (old ∷ tlb) =
    let rest = (fill_tlb entry tlb >>= λ tlb'. some (old ∷ tlb')) in
    if tlblo_valid old.1 then rest else some (entry ∷ tlb)

-- `TLBHI_INVALID(number)` and `TLBLO_INVALID()`
abbrev pub invalid_slot : ℕ → ℕ × ℕ
invalid_slot number = ((2 ^ 19 + number) * 2 ^ 12, 0)

-- The end of `vm_fault`: the translation goes into a free slot, or into a random one.
unfoldable pub load_tlb : ℕ → ℕ → ℕ → Tlb → ℕ × Tlb
load_tlb random fault paddr tlb =
    let entry : ℕ × ℕ = (fault, paddr + 1024 + 512) in
    let number = random % 64 in
    let cleared = set tlb number (invalid_slot number) in
    elim (fill_tlb entry tlb) [
      | some tlb' ↦ (0, tlb')
      | none ↦ (elim (fill_tlb entry cleared) [ some tlb' ↦ (0, tlb') | none ↦ (efault, cleared) ])
    ]

pub invalidate_from : ℕ → ℕ → Tlb → Tlb
invalidate_from zero i tlb = tlb
invalidate_from (suc rounds) i tlb = invalidate_from rounds (i + 1) (set tlb i (invalid_slot i))

pub as_activate : Tlb → Tlb
as_activate tlb = invalidate_from 64 0 tlb

-- What a fault can change.
pub record Vm : Type 0 where
  pub space : Option AddrSpace
  pub memory : Memory
  pub tlb : Tlb
  pub curspl : ℕ

-- The end of `vm_fault`, with the translation found.
unfoldable pub finish : ℕ → ℕ → ℕ → Vm → Option (ℕ × Vm)
finish random fault paddr vm =
    assert (page_frame paddr == paddr)
    >> (let (result, tlb) = load_tlb random fault paddr vm.tlb in
        some (result, record vm { tlb = tlb }))

-- `vm_fault` with an address space: the page tables, then a new page.
unfoldable pub fault_in : ℕ → ℕ → ℕ → AddrSpace → Vm → Option (ℕ × Vm)
fault_in random self fault as_ vm = translate as_ fault >>= λ found. (elim found [
  | some paddr ↦ finish random fault paddr vm
  | none ↦
      (grow (position as_ fault) self fault as_ vm.memory >>= λ (result, paddr, as1, m1).
      (let vm1 = record vm { space = some as1; memory = m1 } in
        elim (result == 0) [ true ↦ finish random fault paddr vm1 | false ↦ some (efault, vm1) ]))
])

-- The rest of `vm_fault`, on the current thread's address space.
unfoldable pub fault_on : ℕ → ℕ → ℕ → Option AddrSpace → Vm → Option (ℕ × Vm)
fault_on random self fault none vm = some (efault, record vm { curspl = 15 })
fault_on random self fault (some as_) vm = fault_in random self fault as_ vm

-- `vm_fault`; `self` is the address of the current thread's address space. It runs at `splhigh()`,
-- and where it returns for lack of an address space it does not go back to the old level.
unfoldable pub vm_fault : ℕ → ℕ → ℕ → ℕ → Vm → Option (ℕ × Vm)
vm_fault random self faulttype faultaddress vm =
    assert (not (faulttype == 2)) >> (elim (faulttype == 0 || faulttype == 1) [
      | false ↦ some (einval, vm)
      | true ↦ fault_on random self (page_frame faultaddress) vm.space vm
    ])
