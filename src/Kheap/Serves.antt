-- ===== src/Kheap/Serves.antt =====
-- kmalloc of a small block from a page that has room.
use harvard_os.Prelude.{
  ℕ, zero, suc, ◌+◌, ◌*◌, ◌≤◌, ◌<◌, ◌≡◌, refl, ap, subst, ◌∙◌, false, some, List, [], ◌∷◌, ◌++◌,
  arith, leb, leb→le, lt→ltb, le→ltb, ==_iff, Bool-cases, inl, inr, ◌>>=◌, update_at,
}
use harvard_os.Kheap.{
  Pageref, Heap, sizes, pr_pageaddr, pr_blocktype, blocktype_from, blocktype, take_from,
  page_with_room, subpage_kmalloc, kmalloc,
}
use harvard_os.Kheap.Page.{IsPage, pop_block-IsPage}

-- The size class that a request falls into holds it.
blocktype_from-fits : (rounds i sz t : ℕ) → blocktype_from rounds i sz ≡ some t → sz ≤ sizes t
unfolding blocktype_from
blocktype_from-fits zero i sz t e = absurd cc
blocktype_from-fits (suc rounds) i sz t e = elim (Bool-cases (leb sz (sizes i))) [
  | inl le ↦
      let same : some i ≡ some t = rw (blocktype_from, le) at e in
      let class : i ≡ t = cc in subst (λ k. sz ≤ sizes k) class (leb→le sz (sizes i) le)
  | inr gt ↦ blocktype_from-fits rounds (i + 1) sz t (rw (blocktype_from, gt) at e)
]

-- Pages of one size, none with a free block.
unfoldable pub AllFull : Heap → ℕ → List ℕ → Type 0
AllFull h t [] = Unit
AllFull h t (p ∷ ps) =
    (pr_blocktype (h.pagerefs p) ≡ t) × ((h.pagerefs p).nfree ≡ 0) × AllFull h t ps

page_with_room_lem :
    (h : Heap) (t p : ℕ) (before after : List ℕ)
    → AllFull h t before
    → pr_blocktype (h.pagerefs p) ≡ t
    → 0 < (h.pagerefs p).nfree
    → page_with_room t (before ++ (p ∷ after)) h ≡ some (some p)
unfolding page_with_room AllFull
page_with_room_lem h t p [] after full e pos =
    rw
      (
        page_with_room,
        (==_iff (pr_blocktype (h.pagerefs p)) t).1 e,
        lt→ltb 0 (h.pagerefs p).nfree pos,
      )
      refl
page_with_room_lem h t p (b ∷ before) after (e0, z, full) e pos =
    rw
      (
        page_with_room,
        (==_iff (pr_blocktype (h.pagerefs b)) t).1 e0,
        le→ltb 0 (h.pagerefs b).nfree (omega (arith, z)),
      )
      (page_with_room_lem h t p before after full e pos)

-- A request below 2048 bytes is served from the first page of its size that has a free block: the
-- block is large enough, and of the heap only that page changes, which has the other free blocks.
pub kmalloc-room :
    (sz t p q : ℕ) (h : Heap) (before after qs : List ℕ)
    → sz < 2048
    → blocktype sz ≡ some t
    → h.sizebases t ≡ before ++ (p ∷ after)
    → AllFull h t before
    → pr_blocktype (h.pagerefs p) ≡ t
    → IsPage (h.pagerefs p) h.words (q ∷ qs)
    → (pr1 : Pageref) × (kmalloc sz h
        ≡ some (
          pr_pageaddr (h.pagerefs p) + q * sizes (pr_blocktype (h.pagerefs p)),
          record h { pagerefs = update_at h.pagerefs p pr1 },
        ))
      × (sz ≤ sizes t)
      × IsPage pr1 h.words qs
unfolding kmalloc subpage_kmalloc take_from blocktype
kmalloc-room sz t p q h before after qs small class list full type page =
    let (pr1, popped, _, rest) = pop_block-IsPage (h.pagerefs p) h.words q qs page in
    let found : page_with_room t (h.sizebases t) h ≡ some (some p) =
      ap (λ ps. page_with_room t ps h) list
      ∙ page_with_room_lem h t p before after full type (omega (arith, page.count)) in
    let test : leb 2048 sz ≡ false = ground (arith, small) in
    (
      pr1,
      rw (kmalloc, test, subpage_kmalloc, class, ◌>>=◌, found, ◌>>=◌, take_from, popped) refl,
      blocktype_from-fits 8 0 sz t class,
      rest,
    )
