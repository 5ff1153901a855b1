-- ===== src/Prelude/Bits.antt =====
-- Single bits of a byte: laws of the bit operations, checked at every byte and offset.
use Prim.Native.Nat.{ℕ, zero, suc, ◌-◌, ◌^◌, ◌<◌, bit_and, bit_or}
use mathlib.Core.Path.{◌≡◌, refl}
use mathlib.Core.Bool.{Bool, true, false, not, ◌&&◌, ◌||◌}
use mathlib.Core.Logic.{inl, inr}
use native.Mathlib.Decide.{dec_lt}
use native.Mathlib.Omega.{arith}
use harvard_os.Prelude.Tests.{Bool-cases, if◌then◌else◌, ◌==◌, ltb, ltb→lt}

-- Does a test hold of every number under a bound? It is settled by running it.
unfoldable pub holds_under : (ℕ → Bool) → ℕ → Bool
holds_under test zero = true
holds_under test (suc top) = if test top then holds_under test top else false

pub holds_under-at :
    (test : ℕ → Bool) (top k : ℕ) → k < top → holds_under test top ≡ true → test k ≡ true
unfolding holds_under
holds_under-at test zero k small all = elim small [ ]
holds_under-at test (suc top) k small all = elim (Bool-cases (test top)) [
  | inl here ↦
      let rest : holds_under test top ≡ true = rw here at all in
      elim (dec_lt k top) [
        | yes below ↦ holds_under-at test top k below rest
        | no last ↦ let e : k ≡ top = omega arith in rw e here
      ]
  | inr fails ↦ ground arith
]

holds_under_all :
    (test : ℕ → Bool) (top : ℕ) → ((k : ℕ) → k < top → test k ≡ true) → holds_under test top ≡ true
unfolding holds_under
holds_under_all test zero h = refl
holds_under_all test (suc top) h =
    rw (h top (omega arith)) (holds_under_all test top (λ k small. h k (omega arith)))

abbrev same : Bool → Bool → Bool
same true b = b
same false b = not b

same→eq : (a b : Bool) → same a b ≡ true → a ≡ b
same→eq true b h = ground arith
same→eq false b h = ground arith

-- `1 << o` in a byte, and the source's test of that bit.
abbrev pub mask : ℕ → ℕ
mask o = 2 ^ o

unfoldable pub bit : ℕ → ℕ → Bool
bit w o = not (bit_and w (mask o) == 0)

-- The source's test, from the bit.
pub test-bit : (w o : ℕ) {b : Bool} → bit w o ≡ b → (bit_and w (mask o) == 0) ≡ not b
unfolding bit
test-bit w o h = ground arith

pub bit-test : (w o : ℕ) {b : Bool} → (bit_and w (mask o) == 0) ≡ b → bit w o ≡ not b
unfolding bit
bit-test w o h = ground arith

abbrev set_bit : ℕ → ℕ → ℕ → Bool
set_bit w o p = same (bit (bit_or w (mask o)) p) (o == p || bit w p)

abbrev clear_bit : ℕ → ℕ → ℕ → Bool
clear_bit w o p = same (bit (bit_and w (255 - mask o)) p) (not (o == p) && bit w p)

abbrev set_ok : ℕ → ℕ → Bool
set_ok w o = ltb (bit_or w (mask o)) 256 && holds_under (set_bit w o) 8

abbrev clear_ok : ℕ → ℕ → Bool
clear_ok w o = ltb (bit_and w (255 - mask o)) 256 && holds_under (clear_bit w o) 8

abbrev undo_ok : ℕ → ℕ → Bool
undo_ok w o = bit w o || (bit_and (bit_or w (mask o)) (255 - mask o) == w)

entries_ok : ℕ → Bool
unfolding holds_under bit
entries_ok w = holds_under (λ o. set_ok w o && (clear_ok w o && undo_ok w o)) 8

table : holds_under entries_ok 256 ≡ true
unfolding holds_under bit entries_ok
table = refl

is_full : ℕ → Bool
unfolding holds_under bit
is_full w = w == 255 || not (holds_under (bit w) 8)

full_table : holds_under is_full 256 ≡ true
unfolding holds_under bit is_full
full_table = refl

and-left : (a b : Bool) → (a && b) ≡ true → a ≡ true
and-left true b h = refl
and-left false b h = h

and-right : (a b : Bool) → (a && b) ≡ true → b ≡ true
and-right true b h = h
and-right false b h = ground arith

module _ (w o : ℕ) (byte : w < 256) (offset : o < 8) where
  entry : (set_ok w o && (clear_ok w o && undo_ok w o)) ≡ true
  unfolding entries_ok
  entry =
      holds_under-at (λ k. set_ok w k && (clear_ok w k && undo_ok w k)) 8 o offset
        (holds_under-at entries_ok 256 w byte table)

  set_entry : set_ok w o ≡ true
  set_entry = and-left (set_ok w o) (clear_ok w o && undo_ok w o) entry

  late_entry : (clear_ok w o && undo_ok w o) ≡ true
  late_entry = and-right (set_ok w o) (clear_ok w o && undo_ok w o) entry

  clear_entry : clear_ok w o ≡ true
  clear_entry = and-left (clear_ok w o) (undo_ok w o) late_entry

  undo_entry : undo_ok w o ≡ true
  undo_entry = and-right (clear_ok w o) (undo_ok w o) late_entry

  pub bit_or-lt : bit_or w (mask o) < 256
  bit_or-lt = ltb→lt (bit_or w (mask o)) 256 (and-left _ (holds_under (set_bit w o) 8) set_entry)

  pub bit-bit_or : (p : ℕ) → p < 8 → bit (bit_or w (mask o)) p ≡ (o == p || bit w p)
  bit-bit_or p h = same→eq (bit (bit_or w (mask o)) p) (o == p || bit w p) (
      holds_under-at (set_bit w o) 8 p h
        (and-right (ltb (bit_or w (mask o)) 256) (holds_under (set_bit w o) 8) set_entry))

  pub bit_and-lt : bit_and w (255 - mask o) < 256
  bit_and-lt =
      ltb→lt (bit_and w (255 - mask o)) 256 (and-left _ (holds_under (clear_bit w o) 8) clear_entry)

  pub bit-bit_and : (p : ℕ) → p < 8 → bit (bit_and w (255 - mask o)) p ≡ (not (o == p) && bit w p)
  bit-bit_and p h = same→eq (bit (bit_and w (255 - mask o)) p) (not (o == p) && bit w p) (
      holds_under-at (clear_bit w o) 8 p h (
        and-right (ltb (bit_and w (255 - mask o)) 256) (holds_under (clear_bit w o) 8) clear_entry))

  -- Setting a clear bit and clearing it again gives the byte back.
  pub bit_and-bit_or : bit w o ≡ false → bit_and (bit_or w (mask o)) (255 - mask o) ≡ w
  bit_and-bit_or h = ground (arith, undo_entry)

-- A byte with all bits set is 0xff.
pub eq-all_bits : (w : ℕ) → w < 256 → holds_under (bit w) 8 ≡ true → w ≡ 255
unfolding is_full
eq-all_bits w h all = ground (arith, holds_under-at is_full 256 w h full_table)

pub bit-zero : (p : ℕ) → p < 8 → bit 0 p ≡ false
unfolding bit holds_under
bit-zero p h = ground (arith, holds_under-at (λ o. not (bit 0 o)) 8 p h refl)

pub bit-all_bits : (p : ℕ) → p < 8 → bit 255 p ≡ true
unfolding bit holds_under
bit-all_bits p h = holds_under-at (bit 255) 8 p h refl

pub all_bits_set : (w : ℕ) → w < 256 → ((p : ℕ) → p < 8 → bit w p ≡ true) → w ≡ 255
all_bits_set w h all = eq-all_bits w h (holds_under_all (bit w) 8 all)
