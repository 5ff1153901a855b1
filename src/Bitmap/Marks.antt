-- ===== src/Bitmap/Marks.antt =====
-- The set of marked bits that a bitmap stands for, and how a mark, an unmark and a test act on it.
use Prim.Native.Nat.{bit_and, bit_or}
use harvard_os.Prelude.{
  ℕ, ◌+◌, ◌-◌, ◌/◌, ◌%◌, ◌≤◌, ◌<◌, ◌≡◌, refl, ap, ◌∙◌, Bool, true, false, not, ◌&&◌, ◌||◌, none,
  some, List, arith, lt→ltb, ◌==◌, Bool-cases, inl, inr, if◌then◌else◌, length, get_elem?, get_or,
  set, length-set, set-set, set-get_or, get_elem?-set_self, get_or-set_self, get_or-set_ne,
  get_elem?-eq-get_or, ◌>>=◌, word_mod,
}
use native.Mathlib.Decide.{ℕ_discrete}
use harvard_os.Prelude.Bits.{
  mask, bit, test-bit, bit_or-lt, bit_and-lt, bit-bit_or, bit-bit_and, bit_and-bit_or,
}
use harvard_os.Bitmap.{Bitmap, div_round_up, store_word, bitmap_mark, bitmap_unmark, bitmap_isset}

-- Is bit `i` set? Past the words no bit is.
abbrev pub marked : Bitmap → ℕ → Bool
marked b i = bit (get_or b.v (i / 8) 0) (i % 8)

-- The representation invariant: as many words as the bits need, each a byte, and the bits of the
-- last word past `nbits` set.
pub record IsValid (b : Bitmap) : Type 0 where
  pub fits : b.nbits + 7 < word_mod
  pub words : length b.v ≡ div_round_up b.nbits
  pub bytes : (k : ℕ) → get_or b.v k 0 < 256
  pub over : (i : ℕ) → b.nbits ≤ i → i / 8 < length b.v → marked b i ≡ true

pub word_in : (b : Bitmap) → IsValid b → (i : ℕ) → i < b.nbits → i / 8 < length b.v
word_in b v i h = omega (arith, v.words, v.fits)

pub store_word-eq-some :
    (v : List ℕ) (ix w : ℕ) → ix < length v → store_word v ix w ≡ some (set v ix w)
unfolding store_word
store_word-eq-some v ix w h = rw (lt→ltb ix (length v) h)

module _ (b : Bitmap) (v : IsValid b) (i : ℕ) (inside : i < b.nbits) where
  abbrev word : ℕ
  word = get_or b.v (i / 8) 0

  abbrev rewritten : ℕ → Bitmap
  rewritten w = record b { v = set b.v (i / 8) w }

  -- A word written anew changes the bits of that word alone.
  marked-rewritten :
      (w j : ℕ) → marked (rewritten w) j ≡ (if i / 8 == j / 8 then bit w (j % 8) else marked b j)
  marked-rewritten w j = elim (Bool-cases (i / 8 == j / 8)) [
    | inl t ↦
        let e : i / 8 ≡ j / 8 = ground arith in
        let here : get_or (set b.v (i / 8) w) (j / 8) 0 ≡ w =
          rw (← e) (get_or-set_self b.v (i / 8) w 0 (word_in b v i inside)) in
        rw (here, t)
    | inr f ↦ rw (get_or-set_ne b.v (i / 8) (j / 8) w 0 (ground arith), f)
  ]

  byte_rewritten : (w : ℕ) → w < 256 → (k : ℕ) → get_or (set b.v (i / 8) w) k 0 < 256
  byte_rewritten w h k = elim (ℕ_discrete (i / 8) k) [
    | yes e ↦
        let here : get_or (set b.v (i / 8) w) k 0 ≡ w =
          rw (← e) (get_or-set_self b.v (i / 8) w 0 (word_in b v i inside)) in
        rw here h
    | no ne ↦ rw (get_or-set_ne b.v (i / 8) k w 0 ne) (v.bytes k)
  ]

  -- Setting bit `i` of its word marks `i` and nothing else.
  pub marked-set :
      (j : ℕ) → marked (rewritten (bit_or word (mask (i % 8)))) j ≡ (i == j || marked b j)
  marked-set j = ground (
    arith,
    marked-rewritten (bit_or word (mask (i % 8))) j,
    bit-bit_or word (i % 8) (v.bytes (i / 8)) (omega arith) (j % 8) (omega arith),
    ap (λ k. bit (get_or b.v k 0) (j % 8)) {x = i / 8} {y = j / 8},
  )

  -- Clearing bit `i` of its word unmarks `i` and nothing else.
  marked-clear :
      (j : ℕ)
      → marked (rewritten (bit_and word (255 - mask (i % 8)))) j ≡ (not (i == j) && marked b j)
  marked-clear j = ground (
    arith,
    marked-rewritten (bit_and word (255 - mask (i % 8))) j,
    bit-bit_and word (i % 8) (v.bytes (i / 8)) (omega arith) (j % 8) (omega arith),
    ap (λ k. bit (get_or b.v k 0) (j % 8)) {x = i / 8} {y = j / 8},
  )

  rewritten-IsValid :
      (w : ℕ)
      → w < 256
      → ((j : ℕ) → b.nbits ≤ j → marked b j ≡ true → marked (rewritten w) j ≡ true)
      → IsValid (rewritten w)
  rewritten-IsValid w byte keep = record {
    fits = v.fits;
    words = length-set b.v (i / 8) w ∙ v.words;
    bytes = byte_rewritten w byte;
    over =
        λ j past room. keep j past (v.over j past (omega (arith, room, length-set b.v (i / 8) w)));
  }

  pub set-IsValid : IsValid (rewritten (bit_or word (mask (i % 8))))
  set-IsValid =
      rewritten-IsValid (bit_or word (mask (i % 8)))
        (bit_or-lt word (i % 8) (v.bytes (i / 8)) (omega arith))
        (λ j past m. ground (arith, marked-set j))

  pub word_read : get_elem? b.v (i / 8) ≡ some word
  word_read = get_elem?-eq-get_or b.v (i / 8) 0 (word_in b v i inside)

  -- `bitmap_mark` marks a clear bit, and no other bit changes.
  pub bitmap_mark_lem :
      marked b i ≡ false
      → (b' : Bitmap) × (bitmap_mark b i ≡ some b')
        × IsValid b'
        × ((j : ℕ) → marked b' j ≡ (i == j || marked b j))
  unfolding bitmap_mark
  bitmap_mark_lem clear = (
    rewritten (bit_or word (mask (i % 8))),
    rw (
      lt→ltb i b.nbits inside,
      word_read,
      test-bit word (i % 8) clear,
      store_word-eq-some b.v (i / 8) (bit_or word (mask (i % 8))) (word_in b v i inside),
    ),
    set-IsValid,
    marked-set,
  )

  -- Marking a bit that is set stops the kernel, and so does unmarking a clear one.
  pub bitmap_mark_set : marked b i ≡ true → bitmap_mark b i ≡ none
  unfolding bitmap_mark
  bitmap_mark_set full = rw (lt→ltb i b.nbits inside, word_read, test-bit word (i % 8) full)

  pub bitmap_unmark_clear : marked b i ≡ false → bitmap_unmark b i ≡ none
  unfolding bitmap_unmark
  bitmap_unmark_clear clear = rw (lt→ltb i b.nbits inside, word_read, test-bit word (i % 8) clear)

  -- `bitmap_unmark` clears a set bit, and no other bit changes.
  pub bitmap_unmark_lem :
      marked b i ≡ true
      → (b' : Bitmap) × (bitmap_unmark b i ≡ some b')
        × IsValid b'
        × ((j : ℕ) → marked b' j ≡ (not (i == j) && marked b j))
        × (b'.nbits ≡ b.nbits)
  unfolding bitmap_unmark
  bitmap_unmark_lem full = (
    rewritten (bit_and word (255 - mask (i % 8))),
    rw (
      lt→ltb i b.nbits inside,
      word_read,
      test-bit word (i % 8) full,
      store_word-eq-some b.v (i / 8) (bit_and word (255 - mask (i % 8))) (word_in b v i inside),
    ),
    rewritten-IsValid (bit_and word (255 - mask (i % 8)))
        (bit_and-lt word (i % 8) (v.bytes (i / 8)) (omega arith))
        (λ j past m. ground (arith, marked-clear j)),
    marked-clear,
    refl,
  )

  -- `bitmap_isset` gives zero exactly if the bit is clear.
  pub bitmap_isset_lem : (r : ℕ) × (bitmap_isset b i ≡ some r) × ((r == 0) ≡ not (marked b i))
  unfolding bitmap_isset
  bitmap_isset_lem = (bit_and word (mask (i % 8)), rw word_read, test-bit word (i % 8) refl)

-- Unmarking what was marked gives the bitmap back, byte for byte.
pub bitmap_unmark-bitmap_mark :
    (b : Bitmap) (i : ℕ)
    → IsValid b
    → i < b.nbits
    → marked b i ≡ false
    → (bitmap_mark b i >>= λ b'. bitmap_unmark b' i) ≡ some b
unfolding bitmap_mark bitmap_unmark
bitmap_unmark-bitmap_mark b i v inside clear = rw (
  lt→ltb i b.nbits inside,
  word_read b v i inside,
  test-bit w (i % 8) clear,
  store_word-eq-some b.v (i / 8) w' here,
  lt→ltb i b.nbits inside,
  get_elem?-set_self b.v (i / 8) w' here,
  test-bit w' (i % 8) set_now,
  store_word-eq-some (set b.v (i / 8) w') (i / 8) (bit_and w' (255 - mask (i % 8)))
      (omega (arith, here, length-set b.v (i / 8) w')),
  set-set b.v (i / 8) w' (bit_and w' (255 - mask (i % 8))),
  bit_and-bit_or w (i % 8) (v.bytes (i / 8)) (omega arith) clear,
  set-get_or b.v (i / 8) 0,
)
  where
    w : ℕ
    w = get_or b.v (i / 8) 0

    w' : ℕ
    w' = bit_or w (mask (i % 8))

    here : i / 8 < length b.v
    here = word_in b v i inside

    set_now : bit w' (i % 8) ≡ true
    set_now =
        ground (arith, bit-bit_or w (i % 8) (v.bytes (i / 8)) (omega arith) (i % 8) (omega arith))
