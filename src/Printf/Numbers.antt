-- ===== src/Printf/Numbers.antt =====
-- The numbers that __pf_printnum writes.
use harvard_os.Prelude.{
  ℕ, zero, suc, ◌+◌, ◌-◌, ◌*◌, ◌/◌, ◌%◌, ◌<◌, ◌≤◌, ◌≡◌, refl, ◌⊎◌, inl, inr, some, List, [], ◌∷◌,
  ltb, get_or, length, word_mod, arith, Bool-cases, le→ltb,
}
use native.Mathlib.Nat.{div-lt_iff_lt-mul}
use harvard_os.Printf.{digits, convert, number_buf_size}

abbrev power : ℕ → ℕ → ℕ
power base zero = 1
power base (suc n) = power base n * base

-- With room for the digits of the number the loop ends inside the buffer.
convert_room :
    (n base xnum : ℕ) (behind : List ℕ)
    → 0 < base
    → xnum < power base (suc n)
    → (x : List ℕ) × (convert (suc n) base xnum behind ≡ some x)
      × (length x ≤ suc n + length behind)
unfolding convert
convert_room zero base xnum behind pos h =
    let q = (div-lt_iff_lt-mul {k = base} {x = xnum} {y = 1} pos).1 h in
    (
      get_or digits (xnum % base) 0 ∷ behind,
      rw (le→ltb 0 (xnum / base) (omega arith)) refl,
      omega arith,
    )
convert_room (suc n) base xnum behind pos h = elim (Bool-cases (ltb 0 (xnum / base))) [
  | inr done ↦ (get_or digits (xnum % base) 0 ∷ behind, rw done refl, omega arith)
  | inl more ↦
      let q = (div-lt_iff_lt-mul {k = base} {x = xnum} {y = power base (suc n)} pos).1 h in
      let (x, e, l) =
        convert_room n base (xnum / base) (get_or digits (xnum % base) 0 ∷ behind) pos q in
      (x, rw more e, omega arith)
]

-- The digits and their null lie in the buffer of `number_buf_size` bytes.
abbrev pub Fits : ℕ → ℕ → Type 0
Fits base num =
    (x : List ℕ) × (convert (number_buf_size - 1) base num [] ≡ some x)
    × (length x < number_buf_size)

room-Fits : (base num : ℕ) → 0 < base → num < power base 11 → Fits base num
room-Fits base num pos h = let (x, e, l) = convert_room 10 base num [] pos h in (x, e, omega arith)

-- The buffer holds every number of 32 bits in the three bases, with its null, and nothing is
-- written in front of it.
pub convert-Fits :
    (base num : ℕ) → (base ≡ 8) ⊎ ((base ≡ 10) ⊎ (base ≡ 16)) → num < word_mod → Fits base num
convert-Fits base num (inl e) small = rw e (room-Fits 8 num (omega arith) (omega arith))
convert-Fits base num (inr (inl e)) small = rw e (room-Fits 10 num (omega arith) (omega arith))
convert-Fits base num (inr (inr e)) small = rw e (room-Fits 16 num (omega arith) (omega arith))
