-- ===== src/Kheap/Page.antt =====
-- A page of small blocks as a stack of its free blocks.
use harvard_os.Prelude.{
  ℕ, zero, suc, ◌+◌, ◌-◌, ◌*◌, ◌%◌, ◌^◌, ◌≤◌, ◌<◌, ◌≡◌, refl, sym, ap, subst, inl, inr, true, false,
  some, List, [], ◌∷◌, arith, ltb, lt→ltb, ◌==◌, ==_iff, ne→==, if◌then◌else◌, length, Bool-cases,
  update_at, update_at_self, word_mod,
}
use native.Mathlib.Nat.{pow-suc}
use harvard_os.Kheap.{
  Pageref, page_size, sizes, pr_pageaddr, pr_blocktype, invalid_offset, fill_deadbeef, pop_block,
  push_block,
}
use harvard_os.Kheap.Chain.{
  IsChain, NotIn, Distinct, InPage, fill_deadbeef-SameOutside, update-SameOutside, IsChain-frame,
}

-- Where the free list starts.
abbrev pub start : Pageref → ℕ
start pr = if pr.freelist_offset == invalid_offset then 0 else pr_pageaddr pr + pr.freelist_offset

-- The page's free blocks are the ones with these numbers, in this order.
pub record IsPage (pr : Pageref) (words : ℕ → ℕ) (blocks : List ℕ) : Type 0 where
  pub placed : 0 < pr_pageaddr pr
  pub in_memory : pr_pageaddr pr + 4096 ≤ 2 ^ 32
  pub count : pr.nfree ≡ length blocks
  pub offset_small : pr.freelist_offset < 65536
  pub few : length blocks ≤ 256
  pub chain : IsChain (pr_pageaddr pr) (sizes (pr_blocktype pr)) words (start pr) blocks
  pub in_page : InPage (sizes (pr_blocktype pr)) blocks
  pub distinct : Distinct blocks

-- A page with a free block has its number as the offset.
offset_is :
    (pr : Pageref) (words : ℕ → ℕ) (q : ℕ) (qs : List ℕ)
    → IsPage pr words (q ∷ qs)
    → pr.freelist_offset ≡ q * sizes (pr_blocktype pr)
offset_is pr words q qs h =
    let (e, rest) = h.chain in
    elim (Bool-cases (pr.freelist_offset == invalid_offset)) [
      | inl t ↦ let z = rw t at e in absurd (omega (arith, z, h.placed))
      | inr f ↦ let z = rw f at e in omega (arith, z)
    ]

pow_pos : (n : ℕ) → 0 < 2 ^ n
pow_pos zero = omega arith
pow_pos (suc n) = omega (arith, pow-suc 2 n, pow_pos n)

pub size_pos : (t : ℕ) → 0 < sizes t
size_pos t = pow_pos (t + 4)

-- kmalloc takes the first free block of the page, and the others stay.
pub pop_block-IsPage :
    (pr : Pageref) (words : ℕ → ℕ) (q : ℕ) (qs : List ℕ)
    → IsPage pr words (q ∷ qs)
    → (pr1 : Pageref) × (pop_block pr words
        ≡ some (pr_pageaddr pr + q * sizes (pr_blocktype pr), pr1))
      × (pr1.pageaddr_and_blocktype ≡ pr.pageaddr_and_blocktype)
      × IsPage pr1 words qs
unfolding pop_block
pop_block-IsPage pr words q qs h = popped qs h
  where
    page : ℕ
    page = pr_pageaddr pr

    size : ℕ
    size = sizes (pr_blocktype pr)

    small : (qs : List ℕ) → IsPage pr words (q ∷ qs) → ltb pr.freelist_offset page_size ≡ true
    small qs h =
        lt→ltb pr.freelist_offset page_size
          (omega (arith, offset_is pr words q qs h, h.in_page.0, size_pos (pr_blocktype pr)))

    ret :
        (qs : List ℕ)
        → IsPage pr words (q ∷ qs)
        → (pr_pageaddr pr + pr.freelist_offset) % word_mod
          ≡ pr_pageaddr pr + q * sizes (pr_blocktype pr)
    ret qs h =
        omega
          (arith, offset_is pr words q qs h, h.in_page.0, h.in_memory, size_pos (pr_blocktype pr))

    left : (qs : List ℕ) → IsPage pr words (q ∷ qs) → (pr.nfree + 65535) % 65536 ≡ length qs
    left qs h = omega (arith, h.count, h.few)

    popped :
        (qs : List ℕ)
        → IsPage pr words (q ∷ qs)
        → (pr1 : Pageref) × (pop_block pr words
            ≡ some (pr_pageaddr pr + q * sizes (pr_blocktype pr), pr1))
          × (pr1.pageaddr_and_blocktype ≡ pr.pageaddr_and_blocktype)
          × IsPage pr1 words qs
    popped [] h =
        let last : (words (pr_pageaddr pr + q * sizes (pr_blocktype pr)) == 0) ≡ true =
          (==_iff (words (pr_pageaddr pr + q * sizes (pr_blocktype pr))) 0).1 h.chain.1 in
        (
          record pr { nfree = 0; freelist_offset = invalid_offset },
          rw (pop_block, small [] h, ret [] h, last, left [] h, ret [] h) refl,
          refl,
          record {
            placed = h.placed;
            in_memory = h.in_memory;
            count = refl;
            offset_small = omega arith;
            few = omega arith;
            chain = refl;
            in_page = tt;
            distinct = tt;
          },
        )
    popped (c ∷ qs) h =
        let next = h.chain.1.0 in
        let nonzero : (words (pr_pageaddr pr + q * sizes (pr_blocktype pr)) == 0) ≡ false =
          ne→== (words (pr_pageaddr pr + q * sizes (pr_blocktype pr))) 0
            (λ z. omega (arith, z, next, h.placed)) in
        let offset1 : (words (pr_pageaddr pr + q * sizes (pr_blocktype pr))
                + word_mod
                - pr_pageaddr pr)
              % word_mod
            ≡ c * sizes (pr_blocktype pr) =
          omega (arith, next, h.in_memory, h.in_page.1.0) in
        let inside : ltb (c * sizes (pr_blocktype pr)) page_size ≡ true =
          lt→ltb (c * sizes (pr_blocktype pr)) page_size
            (omega (arith, h.in_page.1.0, size_pos (pr_blocktype pr))) in
        let valid_offset : (c * sizes (pr_blocktype pr) == invalid_offset) ≡ false =
          ne→== (c * sizes (pr_blocktype pr)) invalid_offset
            (λ e. omega (arith, e, h.in_page.1.0)) in
        (
          record pr { nfree = length (c ∷ qs); freelist_offset = c * sizes (pr_blocktype pr) },
          rw
              (
                pop_block,
                small (c ∷ qs) h,
                ret (c ∷ qs) h,
                nonzero,
                left (c ∷ qs) h,
                ret (c ∷ qs) h,
                offset1,
                inside,
                lt→ltb 0 (length (c ∷ qs)) (omega arith),
              )
              refl,
          refl,
          record {
            placed = h.placed;
            in_memory = h.in_memory;
            count = refl;
            offset_small = omega (arith, h.in_page.1.0);
            few = omega (arith, h.few);
            chain = (rw valid_offset refl, h.chain.1.1);
            in_page = h.in_page.1;
            distinct = h.distinct.1;
          },
        )

-- kfree puts a block that is not free in front.
pub push_block-IsPage :
    (pr : Pageref) (words : ℕ → ℕ) (q : ℕ) (qs : List ℕ)
    → IsPage pr words qs
    → q * sizes (pr_blocktype pr) + sizes (pr_blocktype pr) ≤ 4096
    → NotIn q qs
    → length qs < 256
    → IsPage
        (push_block (q * sizes (pr_blocktype pr)) pr words).0
        (push_block (q * sizes (pr_blocktype pr)) pr words).1
        (q ∷ qs)
unfolding push_block
push_block-IsPage pr words q qs h fits other room =
    let size = sizes (pr_blocktype pr) in
    let fla = pr_pageaddr pr + q * size in
    let filled = fill_deadbeef fla size words in
    let v =
      if pr.freelist_offset == invalid_offset then 0 else pr_pageaddr pr + pr.freelist_offset in
    let pos = size_pos (pr_blocktype pr) in
    let filled_ok =
      IsChain-frame (pr_pageaddr pr) size q (start pr) qs words filled pos
        (fill_deadbeef-SameOutside fla size words) other h.chain in
    let linked_ok =
      IsChain-frame (pr_pageaddr pr) size q (start pr) qs filled (update_at filled fla v) pos
        (update-SameOutside fla size v filled pos) other filled_ok in
    let valid_offset : (q * size == invalid_offset) ≡ false =
      ne→== (q * size) invalid_offset (λ e. omega (arith, e, fits)) in
    record {
      placed = h.placed;
      in_memory = h.in_memory;
      count = omega (arith, h.count, room);
      offset_small = omega (arith, fits);
      few = omega (arith, room);
      chain = (
        rw valid_offset refl,
        subst (λ a. IsChain (pr_pageaddr pr) size (update_at filled fla v) a qs)
            (sym (update_at_self filled fla v)) linked_ok,
      );
      in_page = (fits, h.in_page);
      distinct = (other, h.distinct);
    }

-- The first block of the free list of a page, which kmalloc takes off it, and which kfree puts back
-- on it: the page has the same free blocks again, in the same order. Whether kfree then gives the
-- page back is not part of it.
pub push_block-pop_block :
    (pr : Pageref) (words : ℕ → ℕ) (q : ℕ) (qs : List ℕ)
    → IsPage pr words (q ∷ qs)
    → (pr1 : Pageref) × (pop_block pr words
        ≡ some (pr_pageaddr pr + q * sizes (pr_blocktype pr), pr1))
      × IsPage pr1 words qs
      × IsPage
          (push_block (q * sizes (pr_blocktype pr1)) pr1 words).0
          (push_block (q * sizes (pr_blocktype pr1)) pr1 words).1
          (q ∷ qs)
push_block-pop_block pr words q qs h =
    let (pr1, ran, same, rest) = pop_block-IsPage pr words q qs h in
    let size : sizes (pr_blocktype pr1) ≡ sizes (pr_blocktype pr) =
      ap (λ a. sizes (a % 4096)) same in
    let fits = subst (λ s. q * s + s ≤ 4096) (sym size) h.in_page.0 in
    (pr1, ran, rest, push_block-IsPage pr1 words q qs rest fits h.distinct.0 (omega (arith, h.few)))
