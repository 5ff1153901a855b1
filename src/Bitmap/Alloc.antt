-- ===== src/Bitmap/Alloc.antt =====
-- `bitmap_alloc` takes the first clear bit, or says that there is none.
use Prim.Native.Nat.{bit_and, bit_or}
use harvard_os.Prelude.{
  ℕ, zero, suc, ◌+◌, ◌*◌, ◌/◌, ◌%◌, ◌≤◌, ◌<◌, ◌≡◌, refl, sym, ◌∙◌, ◌≢◌, ◌⊎◌, true, false, ◌||◌,
  Option, none, some, arith, lt→ltb, ◌==◌, Bool-cases, inl, inr, length, get_or, set,
  get_elem?-eq-get_or, ◌>>=◌,
}
use native.Mathlib.Decide.{dec_lt}
use harvard_os.Errno.{enospc}
use harvard_os.Prelude.Bits.{mask, bit, bit-test, bit-all_bits, all_bits_set}
use harvard_os.Bitmap.{
  Bitmap, div_round_up, Allocated, find_offset, alloc_in_word, alloc_from, bitmap_alloc,
}
use harvard_os.Bitmap.Marks.{marked, IsValid, store_word-eq-some, set-IsValid, marked-set}

-- The first clear bit of a word from `offset` on, or none.
abbrev Found : ℕ → ℕ → Option ℕ → Type 0
Found offset w r =
    ((o : ℕ) × (r ≡ some o)
      × (offset ≤ o)
      × (o < 8)
      × (bit w o ≡ false)
      × ((p : ℕ) → offset ≤ p → p < o → bit w p ≡ true))
    ⊎ ((r ≡ none) × ((p : ℕ) → offset ≤ p → p < 8 → bit w p ≡ true))

find_offset_lem :
    (rounds offset w : ℕ) → offset + rounds ≡ 8 → Found offset w (find_offset rounds offset w)
unfolding find_offset
find_offset_lem zero offset w e = inr (refl, λ p h k. absurd (omega arith))
find_offset_lem (suc rounds) offset w e = elim (Bool-cases (bit_and w (mask offset) == 0)) [
  | inl clear ↦ inl (
    offset,
    rw clear,
    omega arith,
    omega arith,
    bit-test w offset clear,
    λ p h k. absurd (omega arith),
  )
  | inr full ↦
      rw full (later (bit-test w offset full) (find_offset_lem rounds (offset + 1) w (omega arith)))
]
  where
    later :
        bit w offset ≡ true
        → Found (offset + 1) w (find_offset rounds (offset + 1) w)
        → Found offset w (find_offset rounds (offset + 1) w)
    later here (inl (o, r, le, lt, clear, before)) = inl (
      o,
      r,
      omega arith,
      lt,
      clear,
      λ p h k. elim (dec_lt offset p) [
        | yes past ↦ before p (omega arith) k
        | no first ↦ let same : p ≡ offset = omega arith in rw same here
      ],
    )
    later here (inr (r, all)) = inr (
      r,
      λ p h k. elim (dec_lt offset p) [
        | yes past ↦ all p (omega arith) k
        | no first ↦ let same : p ≡ offset = omega arith in rw same here
      ],
    )

-- What `bitmap_alloc` did: it marked the first clear bit from `start` on, or found none.
pub record Took (b : Bitmap) (start : ℕ) (r : Option Allocated) : Type 0 where
  pub index : ℕ
  pub after : Bitmap
  pub result : r ≡ some (0, some index, after)
  pub inside : index < b.nbits
  pub same_size : after.nbits ≡ b.nbits
  pub clear : marked b index ≡ false
  pub first : (j : ℕ) → start ≤ j → j < index → marked b j ≡ true
  pub valid : IsValid after
  pub marks : (j : ℕ) → marked after j ≡ (index == j || marked b j)

pub record NoSpace (b : Bitmap) (start : ℕ) (r : Option Allocated) : Type 0 where
  pub result : r ≡ some (enospc, none, b)
  pub full : (j : ℕ) → start ≤ j → j < b.nbits → marked b j ≡ true

true-ne-false : {A : Type 0} → true ≡ false → A
true-ne-false e = cc

module _ (b : Bitmap) (v : IsValid b) where
  taken :
      (ix o : ℕ)
      → ix < length b.v
      → find_offset 8 0 (get_or b.v ix 0) ≡ some o
      → o < 8
      → bit (get_or b.v ix 0) o ≡ false
      → ((p : ℕ) → 0 ≤ p → p < o → bit (get_or b.v ix 0) p ≡ true)
      → Took b (ix * 8) (alloc_in_word b ix (get_or b.v ix 0))
  unfolding alloc_in_word
  taken ix o room found lt clear before = record {
    index = i;
    after = record b { v = set b.v ix w' };
    result = rw (found, store_word-eq-some b.v ix w' room, lt→ltb i b.nbits inside);
    inside = inside;
    same_size = refl;
    clear = clear_i;
    first = λ j h k.
        let at_word : j / 8 ≡ ix = omega arith in
        rw at_word (before (j % 8) (omega arith) (omega arith));
    valid = rw (to_ix, to_o) at (set-IsValid b v i inside);
    marks = λ j. rw (to_ix, to_o) at (marked-set b v i inside j);
  }
    where
      i : ℕ
      i = ix * 8 + o

      w' : ℕ
      w' = bit_or (get_or b.v ix 0) (mask o)

      to_ix : i / 8 ≡ ix
      to_ix = omega arith

      to_o : i % 8 ≡ o
      to_o = omega arith

      clear_i : marked b i ≡ false
      clear_i = rw (to_ix, to_o) clear

      inside : i < b.nbits
      inside = elim (dec_lt i b.nbits) [
        | yes h ↦ h
        | no h ↦ true-ne-false (sym (v.over i (omega arith) (omega arith)) ∙ clear_i)
      ]

  alloc_in_word-Took :
      (ix : ℕ)
      → ix < length b.v
      → get_or b.v ix 0 ≢ 255
      → Took b (ix * 8) (alloc_in_word b ix (get_or b.v ix 0))
  unfolding alloc_in_word
  alloc_in_word-Took ix room ne = elim (find_offset_lem 8 0 (get_or b.v ix 0) refl) [
    | inr (_, all) ↦
        absurd (ne (all_bits_set (get_or b.v ix 0) (v.bytes ix) (λ p h. all p (omega arith) h)))
    | inl (o, found, _, lt, clear, before) ↦ taken ix o room found lt clear before
  ]

  -- The outer loop, from word `ix` on.
  alloc_from_lem :
      (rounds ix : ℕ)
      → ix + rounds ≡ length b.v
      → Took b (ix * 8) (alloc_from rounds ix b) ⊎ NoSpace b (ix * 8) (alloc_from rounds ix b)
  unfolding alloc_from
  alloc_from_lem zero ix e =
      inr (record { result = refl; full = λ j h k. absurd (omega (arith, v.words, v.fits)) })
  alloc_from_lem (suc rounds) ix e = elim (Bool-cases (get_or b.v ix 0 == 255)) [
    | inl full ↦
        rw (get_elem?-eq-get_or b.v ix 0 (omega arith), ◌>>=◌, full)
          (skip rounds ix (ground arith) (alloc_from_lem rounds (ix + 1) (omega arith)))
    | inr open' ↦
        rw (get_elem?-eq-get_or b.v ix 0 (omega arith), ◌>>=◌, open')
          (inl (alloc_in_word-Took ix (omega arith) (ground arith)))
  ]
    where
      word_full :
          (ix' j : ℕ) → get_or b.v ix' 0 ≡ 255 → ix' * 8 ≤ j → j < (ix' + 1) * 8 → marked b j ≡ true
      word_full ix' j full h k =
          let at_word : j / 8 ≡ ix' = omega arith in
          rw (at_word, full) (bit-all_bits (j % 8) (omega arith))

      skip :
          (rounds' ix' : ℕ)
          → get_or b.v ix' 0 ≡ 255
          → Took b ((ix' + 1) * 8) (alloc_from rounds' (ix' + 1) b)
            ⊎ NoSpace b ((ix' + 1) * 8) (alloc_from rounds' (ix' + 1) b)
          → Took b (ix' * 8) (alloc_from rounds' (ix' + 1) b)
            ⊎ NoSpace b (ix' * 8) (alloc_from rounds' (ix' + 1) b)
      skip rounds' ix' full (inl t) = inl (record {
        index = t.index;
        after = t.after;
        result = t.result;
        inside = t.inside;
        same_size = t.same_size;
        clear = t.clear;
        first = λ j h k. elim (dec_lt j ((ix' + 1) * 8)) [
          | yes here ↦ word_full ix' j full h here
          | no past ↦ t.first j (omega arith) k
        ];
        valid = t.valid;
        marks = t.marks;
      })
      skip rounds' ix' full (inr n) = inr (record {
        result = n.result;
        full = λ j h k. elim (dec_lt j ((ix' + 1) * 8)) [
          | yes here ↦ word_full ix' j full h here
          | no past ↦ n.full j (omega arith) k
        ];
      })

  -- `bitmap_alloc` marks the first clear bit below `nbits` and returns its index; if all bits are
  -- set it returns ENOSPC and leaves the bitmap alone. Its asserts never fail.
  pub bitmap_alloc_lem : Took b 0 (bitmap_alloc b) ⊎ NoSpace b 0 (bitmap_alloc b)
  unfolding bitmap_alloc
  bitmap_alloc_lem = alloc_from_lem (div_round_up b.nbits) 0 (omega (arith, v.words))
