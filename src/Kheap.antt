-- ===== src/Kheap.antt =====
-- os161/kern/lib/kheap.c: the kernel heap. Small blocks come from pages of blocks of one size, whose
-- free blocks are linked by their first words; the rest are whole pages of vm.c. A linked list of
-- pagerefs is the list of their indices in the table. Interrupts are off throughout. `none` is a
-- panic.
pub mod Chain
pub mod Page
pub mod Fresh
pub mod Serves
mod Tests
use Prim.Native.Nat.{bit_and, bit_or}
use harvard_os.Prelude.{
  ℕ, zero, suc, ◌+◌, ◌-◌, ◌*◌, ◌/◌, ◌%◌, ◌^◌, Bool, true, false, not, ◌&&◌, Option, none, some,
  List, [], ◌∷◌, ltb, leb, ◌==◌, if◌then◌else◌, length, get_or, set, get_elem?, ◌>>=◌, ◌>>◌, assert,
  word_mod, update_at,
}
use harvard_os.Coremap.{Memory, alloc_kpages, free_kpages}

abbrev pub page_size : ℕ
page_size = 4096

abbrev pub nsizes : ℕ
nsizes = 8

abbrev pub sizes : ℕ → ℕ
sizes blktype = 2 ^ (blktype + 4)

abbrev pub largest_subpage_size : ℕ
largest_subpage_size = 2048

abbrev pub invalid_offset : ℕ
invalid_offset = 65535

-- `struct pageref`, less its two links.
pub record Pageref : Type 0 where
  pub pageaddr_and_blocktype : ℕ
  pub freelist_offset : ℕ
  pub nfree : ℕ

abbrev pub pr_pageaddr : Pageref → ℕ
pr_pageaddr pr = pr.pageaddr_and_blocktype / page_size * page_size

abbrev pub pr_blocktype : Pageref → ℕ
pr_blocktype pr = pr.pageaddr_and_blocktype % page_size

-- `MKPAB`: the two parts have no bit in common.
abbrev pub mkpab : ℕ → ℕ → ℕ
mkpab pa blk = pa / page_size * page_size + blk % page_size

-- The globals of the file, the words of the heap's pages (`next` of a free block), and the physical
-- memory that pages come from.
pub record Heap : Type 0 where
  pub pagerefs : ℕ → Pageref
  pub pagerefs_inuse : List ℕ
  pub sizebases : ℕ → List ℕ
  pub allbase : List ℕ
  pub words : ℕ → ℕ
  pub kernel : Memory

-- `for (i=0; i<len/sizeof(u_int32_t); i++)` for the rounds left, at the word's address.
pub fill_from : ℕ → ℕ → (ℕ → ℕ) → ℕ → ℕ
fill_from zero ptr words = words
fill_from (suc rounds) ptr words = fill_from rounds (ptr + 4) (update_at words ptr 3735928559)

pub fill_deadbeef : ℕ → ℕ → (ℕ → ℕ) → ℕ → ℕ
fill_deadbeef vptr len words = fill_from (len / 4) vptr words

-- The inner loop of `allocpageref`: the first clear bit of a word from `j` on.
pub clear_bit : ℕ → ℕ → ℕ → Option ℕ
clear_bit zero j w = none
clear_bit (suc rounds) j w = if bit_and w (2 ^ j) == 0 then some j else clear_bit rounds (j + 1) w

-- The index of the pageref, or the null pointer, and the words in use.
pub alloc_pageref_from : ℕ → ℕ → List ℕ → Option (Option ℕ × List ℕ)
alloc_pageref_from zero i inuse = some (none, inuse)
alloc_pageref_from (suc rounds) i inuse =
    let w = get_or inuse i 0 in
    elim (w == 4294967295) [
      | true ↦ alloc_pageref_from rounds (i + 1) inuse
      | false ↦ (clear_bit 32 0 w >>= λ j. some (some (i * 32 + j), set inuse i (bit_or w (2 ^ j))))
    ]

pub allocpageref : Heap → Option (Option ℕ × Heap)
allocpageref h = alloc_pageref_from 8 0 h.pagerefs_inuse >>= λ (pr, inuse).
    some (pr, record h { pagerefs_inuse = inuse })

pub freepageref : ℕ → Heap → Option Heap
freepageref p h =
    let w = get_or h.pagerefs_inuse (p / 32) 0 in
    assert (ltb p 256)
    >> assert (not (bit_and w (2 ^ (p % 32)) == 0))
    >> some (record h {
      pagerefs_inuse = set h.pagerefs_inuse (p / 32) (bit_and w (4294967295 - 2 ^ (p % 32)));
    })

-- `for (guy = &base; *guy; guy = &(*guy)->next)`: the first that is `pr` is unlinked.
pub unlink : ℕ → List ℕ → List ℕ
unlink pr [] = []
unlink pr (guy ∷ guys) = elim (guy == pr) [ true ↦ guys | false ↦ guy ∷ unlink pr guys ]

pub remove_lists : ℕ → ℕ → Heap → Option Heap
remove_lists pr blktype h =
    assert (ltb blktype nsizes)
    >> some (record h {
      sizebases = update_at h.sizebases blktype (unlink pr (h.sizebases blktype));
      allbase = unlink pr h.allbase;
    })

-- `for (i=0; i<NSIZES; i++)` for the rounds left.
pub blocktype_from : ℕ → ℕ → ℕ → Option ℕ
blocktype_from zero i sz = none
blocktype_from (suc rounds) i sz =
    if leb sz (sizes i) then some i else blocktype_from rounds (i + 1) sz

pub blocktype : ℕ → Option ℕ
blocktype sz = blocktype_from nsizes 0 sz

-- From the label `doalloc` on, on the page of `pr`: the block, and what `pr` is then.
pub pop_block : Pageref → (ℕ → ℕ) → Option (ℕ × Pageref)
pop_block pr words =
    let prpage = pr_pageaddr pr in
    let retptr = (prpage + pr.freelist_offset) % word_mod in
    let fl = words retptr in
    let nfree = (pr.nfree + 65535) % 65536 in
    assert (ltb pr.freelist_offset page_size) >> (elim (fl == 0) [
      | false ↦
          assert (ltb 0 nfree)
          >> assert (ltb ((fl + word_mod - prpage) % word_mod) page_size)
          >> some (
            retptr,
            record pr { nfree = nfree; freelist_offset = (fl + word_mod - prpage) % word_mod },
          )
      | true ↦
          assert (nfree == 0)
          >> some (retptr, record pr { nfree = nfree; freelist_offset = invalid_offset })
    ])

pub take_from : ℕ → Heap → Option (ℕ × Heap)
take_from p h = pop_block (h.pagerefs p) h.words >>= λ (ptr, pr).
    some (ptr, record h { pagerefs = update_at h.pagerefs p pr })

-- The first page on the list that has a free block.
pub page_with_room : ℕ → List ℕ → Heap → Option (Option ℕ)
page_with_room blktype [] h = some none
page_with_room blktype (p ∷ ps) h =
    let rest = page_with_room blktype ps h in
    assert (pr_blocktype (h.pagerefs p) == blktype)
    >> (elim (ltb 0 (h.pagerefs p).nfree) [ true ↦ some (some p) | false ↦ rest ])

-- `for (i=1; i<pr->nfree; i++)` for the rounds left: every block links to the one below it.
pub link_from : ℕ → ℕ → ℕ → ℕ → (ℕ → ℕ) → ℕ → ℕ
link_from zero i fla size words = words
link_from (suc rounds) i fla size words =
    link_from rounds (suc i) fla size (update_at words (fla + i * size) (fla + (i - 1) * size))

-- A page of free blocks.
pub fresh_words : ℕ → ℕ → (ℕ → ℕ) → ℕ → ℕ
fresh_words prpage size words =
    link_from (page_size / size - 1) 1 prpage size (update_at words prpage 0)

pub fresh_pageref : ℕ → ℕ → Pageref
fresh_pageref prpage blktype =
    let nfree = page_size / sizes blktype in
    record {
      pageaddr_and_blocktype = mkpab prpage blktype;
      freelist_offset = (nfree - 1) * sizes blktype;
      nfree = nfree;
    }

pub new_page : ℕ → ℕ → ℕ → Heap → Heap
new_page p prpage blktype h = record h {
  pagerefs = update_at h.pagerefs p (fresh_pageref prpage blktype);
  words = fresh_words prpage (sizes blktype) h.words;
  sizebases = update_at h.sizebases blktype (p ∷ h.sizebases blktype);
  allbase = p ∷ h.allbase;
}

-- When no page has room: the null pointer where a pageref or a page is missing.
pub alloc_in_new_page : ℕ → Heap → Option (ℕ × Heap)
alloc_in_new_page blktype h = allocpageref h >>= λ (pr, h1). (elim pr [
  | none ↦ some (0, h1)
  | some p ↦
      (alloc_kpages 1 h1.kernel >>= λ (prpage, kernel).
      (let h2 = record h1 { kernel = kernel } in
        elim (prpage == 0) [
          | true ↦ (freepageref p h2 >>= λ h3. some (0, h3))
          | false ↦ take_from p (new_page p prpage blktype h2)
        ]))
])

pub subpage_kmalloc : ℕ → Heap → Option (ℕ × Heap)
subpage_kmalloc sz h = blocktype sz >>= λ blktype.
    page_with_room blktype (h.sizebases blktype) h >>= λ found. (elim found [
      | some p ↦ take_from p h
      | none ↦ alloc_in_new_page blktype h
    ])

-- The page that an address lies in.
pub page_of : ℕ → List ℕ → Heap → Option (Option ℕ)
page_of ptraddr [] h = some none
page_of ptraddr (p ∷ ps) h =
    let pr = h.pagerefs p in
    let prpage = pr_pageaddr pr in
    let rest = page_of ptraddr ps h in
    assert (ltb (pr_blocktype pr) nsizes)
    >> (elim (leb prpage ptraddr && ltb ptraddr (prpage + page_size)) [
      | true ↦ some (some p)
      | false ↦ rest
    ])

-- The block back on the free list of its page.
pub push_block : ℕ → Pageref → (ℕ → ℕ) → Pageref × (ℕ → ℕ)
push_block offset pr words =
    let prpage = pr_pageaddr pr in
    let fla = prpage + offset in
    let filled = fill_deadbeef fla (sizes (pr_blocktype pr)) words in
    (
      record pr { freelist_offset = offset; nfree = (pr.nfree + 1) % 65536 },
      update_at filled fla
          (if pr.freelist_offset == invalid_offset then 0 else prpage + pr.freelist_offset),
    )

-- A page whose blocks are all free is given back.
pub drop_page : ℕ → Heap → Option Heap
drop_page p h =
    let pr = h.pagerefs p in
    remove_lists p (pr_blocktype pr) h >>= λ h1.
    free_kpages (pr_pageaddr pr) h1.kernel >>= λ kernel.
    freepageref p (record h1 { kernel = kernel })

pub free_in_page : ℕ → ℕ → Heap → Option Heap
free_in_page ptraddr p h =
    let pr = h.pagerefs p in
    let offset = ptraddr - pr_pageaddr pr in
    let size = sizes (pr_blocktype pr) in
    let (pr1, words1) = push_block offset pr h.words in
    let h1 = record h { pagerefs = update_at h.pagerefs p pr1; words = words1 } in
    assert (ltb offset page_size && (offset % size == 0))
    >> assert (leb pr1.nfree (page_size / size))
    >> (elim (pr1.nfree == page_size / size) [ true ↦ drop_page p h1 | false ↦ some h1 ])

-- `false` is the source's -1: the address lies in none of the pages.
pub subpage_kfree : ℕ → Heap → Option (Bool × Heap)
subpage_kfree ptr h = page_of ptr h.allbase h >>= λ found. (elim found [
  | none ↦ some (false, h)
  | some p ↦ (free_in_page ptr p h >>= λ h1. some (true, h1))
])

pub kmalloc : ℕ → Heap → Option (ℕ × Heap)
kmalloc sz h = elim (leb largest_subpage_size sz) [
  | false ↦ subpage_kmalloc sz h
  | true ↦
      (alloc_kpages ((sz + page_size - 1) % word_mod / page_size) h.kernel >>= λ (address, kernel).
      some (address, record h { kernel = kernel }))
]

pub kfree : ℕ → Heap → Option Heap
kfree ptr h = elim (ptr == 0) [
  | true ↦ some h
  | false ↦
      (subpage_kfree ptr h >>= λ (freed, h1). (elim freed [
        | true ↦ some h1
        | false ↦
            assert (ptr % page_size == 0)
            >> (free_kpages ptr h1.kernel >>= λ kernel. some (record h1 { kernel = kernel }))
      ]))
]
