-- ===== src/Bitmap/Create.antt =====
-- `bitmap_create` gives a bitmap with every bit clear.
use Prim.Native.Nat.{bit_or}
use harvard_os.Prelude.{
  ℕ, zero, suc, ◌+◌, ◌-◌, ◌*◌, ◌/◌, ◌%◌, ◌≤◌, ◌<◌, ◌≡◌, refl, sym, ap, ◌∙◌, ◌≢◌, true, false, not,
  ◌&&◌, ◌||◌, some, List, arith, ltb, lt→ltb, ◌==◌, Bool-cases, inl, inr, length, get_or, set,
  replicate, length-replicate, length-set, get_or-set_self, get_or-set_ne, get_elem?-eq-get_or,
  ◌>>=◌, word_mod,
}
use native.Mathlib.Decide.{ℕ_discrete}
use harvard_os.Prelude.Bits.{mask, bit, bit_or-lt, bit-bit_or, bit-zero}
use harvard_os.Bitmap.{Bitmap, div_round_up, mark_over, bitmap_create}
use harvard_os.Bitmap.Marks.{marked, IsValid, store_word-eq-some}

-- What the loop over the leftover bits leaves, started at offset `j` of word `ix` of `v`.
record Over (rounds j ix : ℕ) (v v' : List ℕ) : Type 0 where
  len : length v' ≡ length v
  others : (k : ℕ) → k ≢ ix → get_or v' k 0 ≡ get_or v k 0
  byte : get_or v' ix 0 < 256
  bits :
      (p : ℕ)
      → p < 8
      → bit (get_or v' ix 0) p ≡ ((not (ltb p j) && ltb p (j + rounds)) || bit (get_or v ix 0) p)

mark_over_lem :
    (rounds j ix : ℕ) (v : List ℕ)
    → j + rounds ≤ 8
    → ix < length v
    → get_or v ix 0 < 256
    → (v' : List ℕ) × (mark_over rounds j ix v ≡ some v') × Over rounds j ix v v'
unfolding mark_over
mark_over_lem zero j ix v h room byte =
    (v, refl, record { len = refl; others = λ k ne. refl; byte = byte; bits = λ p k. ground arith })
mark_over_lem (suc rounds) j ix v h room byte =
    let w : ℕ = bit_or (get_or v ix 0) (mask j) in
    let here : get_or (set v ix w) ix 0 ≡ w = get_or-set_self v ix w 0 room in
    let (v', e, o) =
      mark_over_lem rounds (j + 1) ix (set v ix w) (omega arith)
        (omega (arith, room, length-set v ix w))
        (rw here (bit_or-lt (get_or v ix 0) j byte (omega arith))) in
    (
      v',
      rw (get_elem?-eq-get_or v ix 0 room, ◌>>=◌, store_word-eq-some v ix w room) e,
      record {
        len = o.len ∙ length-set v ix w;
        others = λ k ne. o.others k ne ∙ get_or-set_ne v ix k w 0 (λ q. ne (sym q));
        byte = o.byte;
        bits = λ p k. ground (
          arith,
          o.bits p k,
          ap (λ x. bit x p) here,
          bit-bit_or (get_or v ix 0) j byte (omega arith) p k,
        );
      },
    )

zero_words : (n k : ℕ) → get_or {A = ℕ} (replicate n 0) k 0 ≡ 0
zero_words zero k = refl
zero_words (suc n) zero = refl
zero_words (suc n) (suc k) = zero_words n k

ltb-false : (a b : ℕ) → ltb a b ≡ false → b ≤ a
ltb-false a b h = ground arith

created_part :
    (nbits : ℕ)
    → nbits + 7 < word_mod
    → nbits / 8 < div_round_up nbits
    → (b : Bitmap) × (bitmap_create true true nbits ≡ some (some b))
      × IsValid b
      × (b.nbits ≡ nbits)
      × ((j : ℕ) → j < nbits → marked b j ≡ false)
unfolding bitmap_create
created_part nbits fits part =
    let (v, e, o) =
      mark_over_lem (8 - overbits) overbits ix zeros (omega arith)
        (omega (arith, length-replicate {A = ℕ} words 0)) (rw zero_words (omega arith)) in
    (
      record { nbits = nbits; v = v },
      rw (
        lt→ltb (nbits / 8) words part,
        at_ix,
        lt→ltb 0 overbits some_over,
        lt→ltb overbits 8 few_over,
        e,
      ),
      record {
        fits = fits;
        words = o.len ∙ length-replicate {A = ℕ} words 0;
        bytes = λ k. elim (ℕ_discrete k ix) [
          | yes q ↦ rw q o.byte
          | no q ↦ rw (o.others k q, zero_words words k) (omega arith)
        ];
        over = λ i past room.
            let last : i / 8 ≡ ix = omega (arith, o.len, length-replicate {A = ℕ} words 0) in
            rw last (o.bits (i % 8) (omega arith) ∙ ground arith);
      },
      refl,
      λ j h. elim (ℕ_discrete (j / 8) ix) [
        | yes q ↦ rw q (
            o.bits (j % 8) (omega arith)
            ∙ ground (
              arith,
              zero_words words ix,
              ap (λ w. bit w (j % 8)) (zero_words words ix),
              bit-zero (j % 8) (omega arith),
            ))
        | no q ↦ rw (o.others (j / 8) q, zero_words words (j / 8)) (bit-zero (j % 8) (omega arith))
      ],
    )
  where
    words : ℕ
    words = div_round_up nbits

    ix : ℕ
    ix = words - 1

    overbits : ℕ
    overbits = nbits - ix * 8

    zeros : List ℕ
    zeros = replicate words 0

    at_ix : (nbits / 8 == ix) ≡ true
    at_ix = ground arith

    some_over : 0 < overbits
    some_over = omega arith

    few_over : overbits < 8
    few_over = omega arith

-- If both allocations succeed, `bitmap_create` returns a valid bitmap of `nbits` bits, all clear.
pub bitmap_create_lem :
    (nbits : ℕ)
    → nbits + 7 < word_mod
    → (b : Bitmap) × (bitmap_create true true nbits ≡ some (some b))
      × IsValid b
      × (b.nbits ≡ nbits)
      × ((j : ℕ) → j < nbits → marked b j ≡ false)
unfolding bitmap_create
bitmap_create_lem nbits fits = elim (Bool-cases (ltb (nbits / 8) words)) [
  | inl part ↦ created_part nbits fits (ground arith)
  | inr whole ↦ (
    record { nbits = nbits; v = replicate words 0 },
    rw whole,
    record {
      fits = fits;
      words = length-replicate {A = ℕ} words 0;
      bytes = λ k. rw zero_words (omega arith);
      over = λ i past room.
          absurd
            (omega (arith, ltb-false (nbits / 8) words whole, length-replicate {A = ℕ} words 0));
    },
    refl,
    λ j h. rw zero_words (bit-zero (j % 8) (omega arith)),
  )
]
  where
    words : ℕ
    words = div_round_up nbits
