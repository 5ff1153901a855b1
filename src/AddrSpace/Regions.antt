-- ===== src/AddrSpace/Regions.antt =====
-- The bounds of the heap: as_define_region puts it behind the segments, sys_sbrk moves its end.
use harvard_os.Prelude.{
  ℕ, ◌+◌, ◌-◌, ◌*◌, ◌/◌, ◌%◌, ◌^◌, ◌≤◌, ◌<◌, ◌≡◌, refl, ◌⊎◌, inl, inr, true, false, ◌&&◌, arith,
  ltb, leb, ◌==◌, ==_iff, Bool-cases, ltb→lt, word_mod,
}
use harvard_os.Coremap.{page_frame, page_size}
use harvard_os.AddrSpace.{AddrSpace, heap_size, malloc_limit, minus_one, sys_sbrk, as_define_region}

ltb→le : (a b : ℕ) → ltb a b ≡ false → b ≤ a
ltb→le a b h = ground arith

-- The heap is no bigger than it may be, and ends within the address space.
pub record HeapFits (as_ : AddrSpace) : Type 0 where
  pub ordered : as_.heap_start ≤ as_.heap_end
  pub bounded : as_.heap_end ≤ as_.heap_start + heap_size
  pub room : as_.heap_start + heap_size < 2 ^ 32

-- `sys_sbrk` of any `int`, negative ones included, returns -1 and changes nothing, or returns the old end
-- of the heap and leaves one that still fits.
pub sys_sbrk_lem :
    (size : ℕ) (as_ : AddrSpace)
    → HeapFits as_
    → size < 2 ^ 32
    → (sys_sbrk size as_ ≡ (minus_one, as_))
      ⊎ ((as1 : AddrSpace) × (sys_sbrk size as_ ≡ (as_.heap_end, as1))
          × HeapFits as1
          × (as1.heap_start ≡ as_.heap_start)
          × (as1.heap_end ≡ (as_.heap_end + size) % 2 ^ 32))
unfolding sys_sbrk
sys_sbrk_lem size as_ h word =
    let newheap = (as_.heap_end + size) % word_mod in
    elim (Bool-cases (ltb size (2 ^ 31) && leb malloc_limit size)) [
      | inl big ↦ inl (rw big)
      | inr small ↦
          (elim (Bool-cases (ltb heap_size ((newheap + word_mod - as_.heap_start) % word_mod))) [
            | inl over ↦ inl (rw (small, over))
            | inr within ↦ inr (
              record as_ { heap_end = newheap },
              rw (small, within),
              (let below =
                    ltb→le heap_size ((newheap + word_mod - as_.heap_start) % word_mod) within in
                  record {
                    ordered = omega (arith, below, h.room, h.bounded, h.ordered);
                    bounded = omega (arith, below, h.room, h.bounded, h.ordered);
                    room = h.room;
                  }),
              refl,
              refl,
            )
          ])
    ]

-- A region: from a page boundary at or before `vaddr` to one at or behind its end, and the heap
-- starts behind it.
pub record Covers (as_ : AddrSpace) (vaddr sz base npages : ℕ) : Type 0 where
  pub from : base ≤ vaddr
  pub to : vaddr + sz ≤ base + npages * 4096
  pub tight : base + npages * 4096 < vaddr + sz + 4096
  pub behind : base + npages * 4096 ≤ as_.heap_start

-- The first segment of a program is covered by pages, and the heap starts behind it and no earlier
-- than before.
pub as_define_region-first :
    (as_ : AddrSpace) (vaddr sz : ℕ)
    → as_.as_vbase1 ≡ 0
    → vaddr + sz + 4096 < 2 ^ 32
    → (as1 : AddrSpace) × (as_define_region as_ vaddr sz 0 ≡ (0, as1))
      × Covers as1 vaddr sz as1.as_vbase1 as1.as_npages1
      × (as_.heap_start ≤ as1.heap_start)
unfolding as_define_region
as_define_region-first as_ vaddr sz fresh low =
    let base = page_frame vaddr in
    let size = page_frame (((sz + vaddr % page_size) % word_mod + page_size - 1) % word_mod) in
    let end = (base + size) % word_mod in
    let new = record as_ { as_vbase1 = base; as_npages1 = size / page_size } in
    let null : (as_.as_vbase1 == 0) ≡ true = (==_iff as_.as_vbase1 0).1 fresh in
    elim (Bool-cases (ltb as_.heap_start end)) [
      | inl push ↦ (
        record new { heap_start = end; heap_end = end },
        rw (null, push),
        record {
          from = omega arith;
          to = omega (arith, low);
          tight = omega (arith, low);
          behind = omega (arith, low);
        },
        omega (arith, ltb→lt as_.heap_start end push),
      )
      | inr keep ↦ (
        new,
        rw (null, keep),
        record {
          from = omega arith;
          to = omega (arith, low);
          tight = omega (arith, low);
          behind = omega (arith, low, ltb→le as_.heap_start end keep);
        },
        omega arith,
      )
    ]

-- Only the first two regions of a program are taken.
pub as_define_region-counter :
    (as_ : AddrSpace) (vaddr sz counter : ℕ)
    → (as_define_region as_ vaddr sz counter).0 ≡ 0
    → counter < 2
unfolding as_define_region
as_define_region-counter as_ vaddr sz counter h = ground arith
