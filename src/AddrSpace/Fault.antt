-- ===== src/AddrSpace/Fault.antt =====
-- vm_fault: the TLB entry that a fault leaves, and the page that it maps.
use harvard_os.Prelude.{
  ℕ, zero, suc, ◌+◌, ◌%◌, ◌<◌, ◌≡◌, refl, sym, ap, ◌∙◌, ◌⊎◌, inl, inr, true, none, some, [], ◌∷◌,
  arith, ◌==◌, ==_iff, Bool-cases, length, length-set, get_elem?, get_elem?-set_self, set, ◌>>=◌,
  assert-true,
}
use harvard_os.Coremap.{page_frame}
use harvard_os.AddrSpace.{AddrSpace, translate}
use harvard_os.AddrSpace.Tlb.{
  Tlb, tlblo_valid, fill_tlb, invalid_slot, load_tlb, finish, fault_in, fault_on, Vm, vm_fault,
}

AllBusy : Tlb → Type 0
AllBusy [] = Unit
AllBusy (x ∷ tlb) = (tlblo_valid x.1 ≡ true) × AllBusy tlb

AllBusy-get :
    (tlb : Tlb) (n : ℕ) (x : ℕ × ℕ)
    → AllBusy tlb
    → get_elem? tlb n ≡ some x
    → tlblo_valid x.1 ≡ true
unfolding AllBusy
AllBusy-get [] n x all e = cc
AllBusy-get (y ∷ tlb) zero x (here, all) e =
    let same : y ≡ x = cc in ap (λ z. tlblo_valid z.1) (sym same) ∙ here
AllBusy-get (y ∷ tlb) (suc n) x (here, all) e = AllBusy-get tlb n x all e

-- The TLB holds the entry in some slot.
pub record Loaded (entry : ℕ × ℕ) (tlb : Tlb) : Type 0 where
  pub slot : ℕ
  pub there : get_elem? tlb slot ≡ some entry
  pub slots : length tlb ≡ 64

fill_tlb_lem :
    (entry : ℕ × ℕ) (tlb : Tlb)
    → ((fill_tlb entry tlb ≡ none) × AllBusy tlb)
      ⊎ ((tlb' : Tlb) × (k : ℕ) × (fill_tlb entry tlb ≡ some tlb')
          × (get_elem? tlb' k ≡ some entry)
          × (length tlb' ≡ length tlb))
unfolding fill_tlb AllBusy
fill_tlb_lem entry [] = inl (refl, tt)
fill_tlb_lem entry (x ∷ tlb) = elim (Bool-cases (tlblo_valid x.1)) [
  | inr free ↦ inr (entry ∷ tlb, 0, rw free, refl, refl)
  | inl busy ↦ (elim (fill_tlb_lem entry tlb) [
    | inl (missed, all) ↦ inl (rw (busy, missed, ◌>>=◌), (busy, all))
    | inr (tlb', k, e, there, n) ↦ inr (x ∷ tlb', suc k, rw (busy, e, ◌>>=◌), there, ap suc n)
  ])
]

-- The TLB has a slot for the entry at last, so that the error behind the two loops never comes.
load_tlb_lem :
    (random fault paddr : ℕ) (tlb : Tlb)
    → length tlb ≡ 64
    → (tlb' : Tlb) × (load_tlb random fault paddr tlb ≡ (0, tlb'))
      × Loaded (fault, paddr + 1024 + 512) tlb'
unfolding load_tlb
load_tlb_lem random fault paddr tlb n =
    let entry : ℕ × ℕ = (fault, paddr + 1024 + 512) in
    let number = random % 64 in
    let cleared = set tlb number (invalid_slot number) in
    elim (fill_tlb_lem entry tlb) [
      | inr (tlb', k, e, there, long) ↦
          (tlb', rw (load_tlb, e), record { slot = k; there = there; slots = long ∙ n })
      | inl (missed, all) ↦ (elim (fill_tlb_lem entry cleared) [
        | inr (tlb', k, e, there, long) ↦ (
          tlb',
          rw (load_tlb, missed, e),
          record {
            slot = k;
            there = there;
            slots = long ∙ length-set tlb number (invalid_slot number) ∙ n;
          },
        )
        | inl (_, busy) ↦
            let hole = get_elem?-set_self tlb number (invalid_slot number) (omega (arith, n)) in
            let wrong = AllBusy-get cleared number (invalid_slot number) busy hole in cc
      ])
    ]

finish_lem :
    (random fault paddr : ℕ) (vm : Vm)
    → length vm.tlb ≡ 64
    → page_frame paddr ≡ paddr
    → (tlb' : Tlb) × (finish random fault paddr vm ≡ some (0, record vm { tlb = tlb' }))
      × Loaded (fault, paddr + 1024 + 512) tlb'
unfolding finish
finish_lem random fault paddr vm n aligned =
    let (tlb', e, l) = load_tlb_lem random fault paddr vm.tlb n in
    (
      tlb',
      assert-true (page_frame paddr == paddr) _ ((==_iff (page_frame paddr) paddr).1 aligned)
          ∙ rw e,
      l,
    )

-- The branches of `vm_fault`, each on its condition.
vm_fault-space :
    (random self faulttype fault : ℕ) (as_ : AddrSpace) (vm : Vm)
    → vm.space ≡ some as_
    → faulttype < 2
    → vm_fault random self faulttype fault vm ≡ fault_in random self (page_frame fault) as_ vm
unfolding vm_fault fault_on
vm_fault-space random self zero fault as_ vm has kind =
    ap (λ o. fault_on random self (page_frame fault) o vm) has
vm_fault-space random self (suc zero) fault as_ vm has kind =
    ap (λ o. fault_on random self (page_frame fault) o vm) has
vm_fault-space random self (suc (suc t)) fault as_ vm has kind = absurd (omega arith)

fault_in-found :
    (random self page paddr : ℕ) (as_ : AddrSpace) (vm : Vm)
    → translate as_ page ≡ some (some paddr)
    → fault_in random self page as_ vm ≡ finish random page paddr vm
unfolding fault_in
fault_in-found random self page paddr as_ vm found = rw (found, ◌>>=◌)

-- A read or a write of a page that is mapped to an aligned address loads its translation into the
-- TLB, whatever the TLB held, and changes nothing else.
pub vm_fault-mapped :
    (random self faulttype fault paddr : ℕ) (as_ : AddrSpace) (vm : Vm)
    → vm.space ≡ some as_
    → faulttype < 2
    → length vm.tlb ≡ 64
    → translate as_ (page_frame fault) ≡ some (some paddr)
    → page_frame paddr ≡ paddr
    → (tlb' : Tlb) × (vm_fault random self faulttype fault vm ≡ some (0, record vm { tlb = tlb' }))
      × Loaded (page_frame fault, paddr + 1024 + 512) tlb'
vm_fault-mapped random self faulttype fault paddr as_ vm has kind n found aligned =
    let (tlb', e, l) = finish_lem random (page_frame fault) paddr vm n aligned in
    (
      tlb',
      vm_fault-space random self faulttype fault as_ vm has kind
          ∙ fault_in-found random self (page_frame fault) paddr as_ vm found
          ∙ e,
      l,
    )
