-- ===== src/Kheap/Fresh.antt =====
-- A new page of small blocks.
use harvard_os.Prelude.{
  ℕ, zero, suc, ◌+◌, ◌-◌, ◌*◌, ◌/◌, ◌%◌, ◌^◌, ◌≤◌, ◌<◌, ◌≡◌, refl, sym, subst, false, arith, ◌==◌,
  ne→==, update_at,
}
use harvard_os.Kheap.{sizes, pr_pageaddr, pr_blocktype, invalid_offset, fresh_words, fresh_pageref}
use harvard_os.Kheap.Chain.{
  IsChain, first_block, down_from, Distinct-down_from, InPage-down_from, length-down_from,
  link_from_lem,
}
use harvard_os.Kheap.Page.{IsPage, size_pos}

-- The blocks of a size fill the page.
blocks_fill :
    (t : ℕ)
    → t < 8
    → (0 < 4096 / sizes t)
      × (4096 / sizes t * sizes t ≡ 4096)
      × (4096 / sizes t ≤ 256)
      × ((4096 / sizes t - 1) * sizes t + sizes t ≡ 4096)
blocks_fill zero h = (omega arith, refl, omega arith, refl)
blocks_fill (suc zero) h = (omega arith, refl, omega arith, refl)
blocks_fill (suc (suc zero)) h = (omega arith, refl, omega arith, refl)
blocks_fill (suc (suc (suc zero))) h = (omega arith, refl, omega arith, refl)
blocks_fill (suc (suc (suc (suc zero)))) h = (omega arith, refl, omega arith, refl)
blocks_fill (suc (suc (suc (suc (suc zero))))) h = (omega arith, refl, omega arith, refl)
blocks_fill (suc (suc (suc (suc (suc (suc zero)))))) h = (omega arith, refl, omega arith, refl)
blocks_fill (suc (suc (suc (suc (suc (suc (suc zero))))))) h =
    (omega arith, refl, omega arith, refl)
blocks_fill (suc (suc (suc (suc (suc (suc (suc (suc t)))))))) h = absurd (omega (arith, h))

fresh-IsChain :
    (prpage t : ℕ) (words : ℕ → ℕ)
    → t < 8
    → IsChain prpage
        (sizes t)
        (fresh_words prpage (sizes t) words)
        (prpage + (4096 / sizes t - 1) * sizes t)
        (down_from (4096 / sizes t))
unfolding fresh_words
fresh-IsChain prpage t words small =
    let words0 : ℕ → ℕ = update_at words prpage 0 in
    let n = 4096 / sizes t in
    let base = first_block prpage (sizes t) words in
    let pred : 0 + (n - 1) ≡ n - 1 = omega arith in
    let again : suc (n - 1) ≡ n = omega (arith, (blocks_fill t small).0) in
    subst
      (λ k.
        IsChain prpage (sizes t) (fresh_words prpage (sizes t) words) (prpage + (n - 1) * sizes t)
          (down_from k))
      again
      (subst
        (λ k.
          IsChain prpage (sizes t) (fresh_words prpage (sizes t) words) (prpage + k * sizes t)
            (down_from (suc k)))
        pred (link_from_lem (n - 1) 0 prpage (sizes t) words0 (size_pos t) base))

-- A new page has all its blocks free, the last one first.
pub fresh-IsPage :
    (prpage blktype : ℕ) (words : ℕ → ℕ)
    → 0 < prpage
    → prpage % 4096 ≡ 0
    → prpage + 4096 ≤ 2 ^ 32
    → blktype < 8
    → IsPage
        (fresh_pageref prpage blktype)
        (fresh_words prpage (sizes blktype) words)
        (down_from (4096 / sizes blktype))
unfolding fresh_pageref
fresh-IsPage prpage blktype words pos aligned fits small =
    let n = 4096 / sizes blktype in
    let (some_blocks, all, few, last) = blocks_fill blktype small in
    let addr : pr_pageaddr (fresh_pageref prpage blktype) ≡ prpage =
      omega (arith, aligned, small) in
    let type : pr_blocktype (fresh_pageref prpage blktype) ≡ blktype =
      omega (arith, aligned, small) in
    let offset : ((n - 1) * sizes blktype == invalid_offset) ≡ false =
      ne→== ((n - 1) * sizes blktype) invalid_offset (λ e. omega (arith, e, last)) in
    record {
      placed = omega (arith, addr, pos);
      in_memory = omega (arith, addr, fits);
      count = sym (length-down_from n);
      offset_small = omega (arith, last);
      few = omega (arith, length-down_from n, few);
      chain = rw (addr, type, offset) (fresh-IsChain prpage blktype words small);
      in_page = rw type (InPage-down_from n (sizes blktype) (omega (arith, all)));
      distinct = Distinct-down_from n;
    }
