-- ===== src/Bitmap/Tests.antt =====
-- Runs of the bitmap operations, and instances of their theorems.
use harvard_os.Prelude.{
  ℕ, zero, suc, ◌<◌, get_or, ◌≡◌, refl, ◌⊎◌, true, false, not, ◌||◌, some, [], ◌∷◌, arith, ◌==◌,
}
use harvard_os.Prelude.Bits.{bit, holds_under, holds_under-at}
use harvard_os.Bitmap.{
  Bitmap, bitmap_create, bitmap_alloc, bitmap_mark, bitmap_isset, mark_over, store_word, alloc_from,
  alloc_in_word, find_offset,
}
use harvard_os.Bitmap.Marks.{marked, IsValid, bitmap_mark_lem, bitmap_isset_lem}
use harvard_os.Bitmap.Alloc.{Took, NoSpace, bitmap_alloc_lem}

create_ten : bitmap_create true true 10 ≡ some (some (record { nbits = 10; v = 0 ∷ 0xfc ∷ [] }))
unfolding bitmap_create mark_over store_word
create_ten = refl

abbrev ten : Bitmap
ten = record { nbits = 10; v = 0xff ∷ 0xfd ∷ [] }

alloc_ten : bitmap_alloc ten ≡ some (0, some 9, record { nbits = 10; v = 0xff ∷ 0xff ∷ [] })
unfolding bitmap_alloc alloc_from alloc_in_word find_offset store_word
alloc_ten = refl

-- Every bit of `ten`: 9 alone is clear.
ten_table : holds_under (λ i. i == 9 || marked ten i) 16 ≡ true
unfolding holds_under bit
ten_table = refl

ten-bytes : (k : ℕ) → get_or ten.v k 0 < 256
ten-bytes zero = omega arith
ten-bytes (suc zero) = omega arith
ten-bytes (suc (suc k)) = omega arith

ten-IsValid : IsValid ten
ten-IsValid = record {
  fits = omega arith;
  words = refl;
  bytes = ten-bytes;
  over = λ i past room.
      ground (arith, holds_under-at (λ k. k == 9 || marked ten k) 16 i (omega arith) ten_table);
}

ten-clear : marked ten 9 ≡ false
unfolding bit
ten-clear = refl

ten-set : marked ten 3 ≡ true
unfolding bit
ten-set = refl

bitmap_alloc_lem_example : Took ten 0 (bitmap_alloc ten) ⊎ NoSpace ten 0 (bitmap_alloc ten)
bitmap_alloc_lem_example = bitmap_alloc_lem ten ten-IsValid

bitmap_mark_lem_example :
    (b' : Bitmap) × (bitmap_mark ten 9 ≡ some b')
    × IsValid b'
    × ((j : ℕ) → marked b' j ≡ (9 == j || marked ten j))
bitmap_mark_lem_example = bitmap_mark_lem ten ten-IsValid 9 (omega arith) ten-clear

bitmap_isset_lem_example : (r : ℕ) × (bitmap_isset ten 9 ≡ some r) × ((r == 0) ≡ not (marked ten 9))
bitmap_isset_lem_example = bitmap_isset_lem ten ten-IsValid 9 (omega arith)
