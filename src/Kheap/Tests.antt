-- ===== src/Kheap/Tests.antt =====
-- A page of two blocks, a run of kmalloc on it, and instances of its theorems.
use harvard_os.Prelude.{ℕ, ◌+◌, ◌*◌, ◌^◌, ◌≡◌, refl, none, some, ◌≤◌, update_at, [], ◌∷◌, arith}
use harvard_os.Kheap.{
  Heap, kmalloc, Pageref, sizes, pr_pageaddr, pr_blocktype, pop_block, push_block, fresh_words,
  fresh_pageref, blocktype, blocktype_from,
}
use harvard_os.Kheap.Chain.{down_from}
use harvard_os.Kheap.Page.{IsPage, push_block-pop_block}
use harvard_os.Kheap.Serves.{AllFull, kmalloc-room}
use harvard_os.Kheap.Fresh.{fresh-IsPage}

abbrev address : ℕ
address = 2 ^ 31 + 16 * 4096

abbrev test_pageref : Pageref
test_pageref = fresh_pageref address 7

abbrev test_words : ℕ → ℕ
test_words = fresh_words address (sizes 7) (λ a. 0)

-- The size classes of three requests.
blocktype_runs : (blocktype 16 ≡ some 0) × (blocktype 17 ≡ some 1) × (blocktype 2047 ≡ some 7)
unfolding blocktype blocktype_from
blocktype_runs = (refl, refl, refl)

test-IsPage : IsPage test_pageref test_words (1 ∷ 0 ∷ [])
unfolding down_from
test-IsPage =
    fresh-IsPage address 7 (λ a. 0) (omega arith) (omega arith) (omega arith) (omega arith)

push_block-pop_block_example :
    (pr1 : Pageref) × (pop_block test_pageref test_words
      ≡ some (pr_pageaddr test_pageref + 1 * sizes (pr_blocktype test_pageref), pr1))
    × IsPage pr1 test_words (0 ∷ [])
    × IsPage
        (push_block (1 * sizes (pr_blocktype pr1)) pr1 test_words).0
        (push_block (1 * sizes (pr_blocktype pr1)) pr1 test_words).1
        (1 ∷ 0 ∷ [])
push_block-pop_block_example = push_block-pop_block test_pageref test_words 1 (0 ∷ []) test-IsPage

-- One page of the largest size, and no page to be had from vm.c.
abbrev test_heap : Heap
test_heap = record {
  pagerefs = λ p. test_pageref;
  pagerefs_inuse = 1 ∷ 0 ∷ 0 ∷ 0 ∷ 0 ∷ 0 ∷ 0 ∷ 0 ∷ [];
  sizebases = λ t. 0 ∷ [];
  allbase = 0 ∷ [];
  words = test_words;
  kernel = record {
    firstpaddr = 0;
    lastpaddr = 0;
    numofpage = 0;
    free_pages_str = 0;
    coremap_str = none;
    entries = [];
  };
}

none_before : AllFull test_heap 7 []
unfolding AllFull
none_before = tt

test_type : pr_blocktype test_pageref ≡ 7
unfolding fresh_pageref
test_type = refl

test_class : blocktype 2000 ≡ some 7
unfolding blocktype blocktype_from
test_class = refl

kmalloc-room_example :
    (pr1 : Pageref) × (kmalloc 2000 test_heap
      ≡ some (
        pr_pageaddr test_pageref + 1 * sizes (pr_blocktype test_pageref),
        record test_heap { pagerefs = update_at test_heap.pagerefs 0 pr1 },
      ))
    × (2000 ≤ sizes 7)
    × IsPage pr1 test_words (0 ∷ [])
kmalloc-room_example =
    kmalloc-room 2000 7 0 1 test_heap [] [] (0 ∷ []) (omega arith) test_class refl none_before
      test_type test-IsPage
