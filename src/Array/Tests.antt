-- ===== src/Array/Tests.antt =====
-- Runs of the array operations, and instances of their theorems.
use harvard_os.Prelude.{ℕ, ◌≡◌, refl, true, none, some, [], ◌∷◌, arith, set}
use harvard_os.Array.{
  Array, array_getguy, array_preallocate, array_setsize, array_setguy, array_add, array_remove,
  grow_max, copy_guys, write_slot,
}
use harvard_os.Array.Resize.{IsValid, contents, array_getguy_lem, Grown, array_preallocate_lem}
use harvard_os.Array.Edit.{array_setguy_lem, array_remove_lem}

abbrev two_guys : Array ℕ
two_guys = record { num = 2; max = 2; v = some (some 5 ∷ some 6 ∷ []) }

two_guys-IsValid : IsValid two_guys
two_guys-IsValid = record { within = omega arith; block = refl; small = omega arith }

-- A full array of two grows to six slots.
array_add_grows :
    array_add true two_guys 7
    ≡ some (
      0,
      record { num = 3; max = 6; v = some (some 5 ∷ some 6 ∷ some 7 ∷ none ∷ none ∷ none ∷ []) },
    )
unfolding array_add array_setsize array_preallocate grow_max copy_guys write_slot
array_add_grows = refl

array_getguy_lem_example : array_getguy two_guys 1 ≡ some (some 6)
array_getguy_lem_example = array_getguy_lem two_guys 1 two_guys-IsValid

array_preallocate_lem_example :
    (b : Array ℕ) × (array_preallocate true two_guys 9 ≡ some (0, b)) × Grown 9 two_guys b
array_preallocate_lem_example = array_preallocate_lem two_guys 9 two_guys-IsValid (omega arith)

array_setguy_lem_example :
    (b : Array ℕ) × (array_setguy two_guys 1 9 ≡ some b)
    × IsValid b
    × (contents b ≡ set (contents two_guys) 1 (some 9))
array_setguy_lem_example = array_setguy_lem two_guys 1 9 two_guys-IsValid (omega arith)

array_remove_lem_example :
    (b : Array ℕ) × (array_remove two_guys 0 ≡ some b)
    × IsValid b
    × (contents b ≡ some 6 ∷ [])
    × (b.max ≡ 2)
array_remove_lem_example = array_remove_lem two_guys 0 two_guys-IsValid (omega arith)
