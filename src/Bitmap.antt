-- ===== src/Bitmap.antt =====
-- os161/kern/lib/bitmap.c: the bitmap of a disk's blocks, a byte to eight bits.
-- `mem` says of each kmalloc in turn whether it succeeds.
pub mod Marks
pub mod Alloc
pub mod Create
mod Tests
use Prim.Native.Nat.{bit_and, bit_or}
use harvard_os.Prelude.{
  ℕ, zero, suc, ◌+◌, ◌-◌, ◌*◌, ◌/◌, ◌%◌, Bool, true, false, not, ◌&&◌, Option, none, some, List,
  ltb, ◌==◌, if◌then◌else◌, length, get_elem?, set, replicate, ◌>>=◌, ◌>>◌, assert, word_mod,
}
use harvard_os.Prelude.Bits.{mask, bit}
use harvard_os.Errno.{enospc}

-- `struct bitmap`
pub record Bitmap : Type 0 where
  pub nbits : ℕ
  pub v : List ℕ

-- `DIVROUNDUP(nbits, BITS_PER_WORD)` in u_int32_t
abbrev pub div_round_up : ℕ → ℕ
div_round_up nbits = (nbits + 7) % word_mod / 8

-- `v[ix] = w`: no result outside the block.
pub store_word : List ℕ → ℕ → ℕ → Option (List ℕ)
store_word v ix w = if ltb ix (length v) then some (set v ix w) else none

-- `for (; j<BITS_PER_WORD; j++) v[ix] |= ((WORD_TYPE)1 << j);` for the rounds left.
pub mark_over : ℕ → ℕ → ℕ → List ℕ → Option (List ℕ)
mark_over zero j ix v = some v
mark_over (suc rounds) j ix v = do
  w ← get_elem? v ix
  v' ← store_word v ix (bit_or w (mask j))
  mark_over rounds (j + 1) ix v'

-- Outside, a failed assert; inside, the null pointer.
pub bitmap_create : Bool → Bool → ℕ → Option (Option Bitmap)
bitmap_create mem_b mem_v nbits =
    let words = div_round_up nbits in
    let ix = words - 1 in
    let overbits = nbits - ix * 8 in
    if not (mem_b && mem_v)
    then some none
    else if ltb (nbits / 8) words
    then (assert (nbits / 8 == ix)
        >> assert (ltb 0 overbits && ltb overbits 8)
        >> (mark_over (8 - overbits) overbits ix (replicate words 0) >>= λ v.
            some (some (record { nbits = nbits; v = v }))))
    else some (some (record { nbits = nbits; v = replicate words 0 }))

pub bitmap_getdata : Bitmap → List ℕ
bitmap_getdata b = b.v

-- The inner loop of `bitmap_alloc`: the first clear bit of a word from `offset` on.
pub find_offset : ℕ → ℕ → ℕ → Option ℕ
find_offset zero offset w = none
find_offset (suc rounds) offset w =
    if bit_and w (mask offset) == 0 then some offset else find_offset rounds (offset + 1) w

-- What `bitmap_alloc` hands back: its result, what it stored through `index`, and the bitmap.
abbrev pub Allocated : Type 0
Allocated = ℕ × Option ℕ × Bitmap

-- The body of the outer loop at a word that is not full; `none` is its `assert(0)` too.
pub alloc_in_word : Bitmap → ℕ → ℕ → Option Allocated
alloc_in_word b ix w = do
  offset ← find_offset 8 0 w
  v ← store_word b.v ix (bit_or w (mask offset))
  assert (ltb (ix * 8 + offset) b.nbits)
  some (0, some (ix * 8 + offset), record b { v = v })

-- `for (; ix<maxix; ix++)` for the rounds left.
pub alloc_from : ℕ → ℕ → Bitmap → Option Allocated
alloc_from zero ix b = some (enospc, none, b)
alloc_from (suc rounds) ix b = do
  w ← get_elem? b.v ix
  elim (w == 255) [ true ↦ alloc_from rounds (ix + 1) b | false ↦ alloc_in_word b ix w ]

pub bitmap_alloc : Bitmap → Option Allocated
bitmap_alloc b = alloc_from (div_round_up b.nbits) 0 b

-- `bitmap_translate`: the word of a bit, and its mask.
abbrev pub bitmap_translate : ℕ → ℕ × ℕ
bitmap_translate bitno = (bitno / 8, mask (bitno % 8))

pub bitmap_mark : Bitmap → ℕ → Option Bitmap
bitmap_mark b index = do
  assert (ltb index b.nbits)
  w ← get_elem? b.v (bitmap_translate index).0
  assert (bit_and w (bitmap_translate index).1 == 0)
  v ← store_word b.v (bitmap_translate index).0 (bit_or w (bitmap_translate index).1)
  some (record b { v = v })

-- `&= ~mask` on a byte is `&` with 255 - mask.
pub bitmap_unmark : Bitmap → ℕ → Option Bitmap
bitmap_unmark b index = do
  assert (ltb index b.nbits)
  w ← get_elem? b.v (bitmap_translate index).0
  assert (not (bit_and w (bitmap_translate index).1 == 0))
  v ← store_word b.v (bitmap_translate index).0 (bit_and w (255 - (bitmap_translate index).1))
  some (record b { v = v })

-- Nonzero iff the bit is set; no result for a read outside the block.
pub bitmap_isset : Bitmap → ℕ → Option ℕ
bitmap_isset b index = do
  w ← get_elem? b.v (bitmap_translate index).0
  some (bit_and w (bitmap_translate index).1)
