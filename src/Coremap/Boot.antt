-- ===== src/Coremap/Boot.antt =====
-- The coremap that vm_bootstrap sets up, and the memory that ram.c hands out before it.
use harvard_os.Prelude.{
  ℕ, ◌+◌, ◌^◌, ◌*◌, ◌%◌, ◌≤◌, ◌<◌, ◌≡◌, refl, List, arith, length, length-take, ltb, ◌⊎◌, inl, inr,
  Bool-cases, ltb→lt,
}
use harvard_os.Coremap.{Entry, Memory, page_frame, ram_getsize, ram_stealmem, vm_bootstrap}
use harvard_os.Coremap.Pages.{IsReady}

-- With page-aligned memory of two pages or more below 508 MB, `vm_bootstrap` leaves a coremap whose
-- entries end where the pages that it manages start, and those pages end where memory ends.
pub vm_bootstrap_lem :
    (held : List Entry) (m : Memory) (first pages : ℕ)
    → m.firstpaddr ≡ first * 4096
    → page_frame m.lastpaddr ≡ (first + pages) * 4096
    → 2 ≤ pages
    → (first + pages) * 4096 ≤ 508 * 1024 * 1024
    → pages ≤ length held
    → IsReady (vm_bootstrap held m)
      × (m.firstpaddr + (vm_bootstrap held m).numofpage * 16 ≤ (vm_bootstrap held m).free_pages_str)
      × ((vm_bootstrap held m).free_pages_str + (vm_bootstrap held m).numofpage * 4096
          ≡ page_frame m.lastpaddr)
unfolding vm_bootstrap ram_getsize
vm_bootstrap_lem held m first pages lo hi two low memory = (
  record {
    addr = _;
    made = refl;
    number = omega (arith, lo, hi, memory, length-take (vm_bootstrap held m).numofpage held);
    above = omega (arith, lo, hi);
    below = omega (arith, lo, hi);
  },
  omega (arith, lo, hi),
  omega (arith, lo, hi),
)

-- What `ram_stealmem` hands out lies between the memory it handed out before and the end of memory,
-- and it will not be handed out again; if there is not so much, it returns 0.
pub ram_stealmem_lem :
    (npages : ℕ) (m : Memory)
    → npages * 4096 + m.firstpaddr < 2 ^ 32
    → ((m.lastpaddr < m.firstpaddr + npages * 4096) × (ram_stealmem npages m ≡ (0, m)))
      ⊎ ((m.firstpaddr + npages * 4096 ≤ m.lastpaddr)
          × (ram_stealmem npages m
              ≡ (m.firstpaddr, record m { firstpaddr = m.firstpaddr + npages * 4096 })))
unfolding ram_stealmem
ram_stealmem_lem npages m h =
    let same : (m.firstpaddr + npages * 4096 % 2 ^ 32) % 2 ^ 32 ≡ m.firstpaddr + npages * 4096 =
      omega (arith, h) in
    elim (Bool-cases (ltb m.lastpaddr (m.firstpaddr + npages * 4096))) [
      | inl over ↦ inl (ltb→lt m.lastpaddr (m.firstpaddr + npages * 4096) over, rw (same, over))
      | inr fits ↦ inr (ground arith, rw (same, fits))
    ]
