-- ===== src/Libc/Atoi.antt =====
-- atoi on a text of decimal digits.
use harvard_os.Prelude.{
  ℕ, ◌+◌, ◌-◌, ◌*◌, ◌%◌, ◌<◌, ◌≡◌, refl, Bool, true, false, none, some, List, [], ◌∷◌, ◌==◌, ==_iff,
  ne→==, length, Option-cases, inl, inr, word_mod, arith, every_below, every_below_lem,
}
use harvard_os.Libc.{strchr, digits, skip_blanks, atoi_sign, atoi_digits, atoi}

is_value : ℕ → Bool
is_value d = elim (strchr digits (48 + d)) [
  | none ↦ false
  | some found ↦ length digits - length found == d
]

is_value_table : every_below 10 is_value ≡ true
unfolding is_value strchr every_below
is_value_table = refl

absurd_test {ℓ} : {A : Type ℓ} → false ≡ true → A
absurd_test h = cc

-- One round of the loop.
pub atoi_digits-digit :
    (d : ℕ) (s : List ℕ) (val : ℕ)
    → d < 10
    → atoi_digits ((48 + d) ∷ s) val ≡ atoi_digits s ((val * 10 + d) % word_mod)
unfolding atoi_digits is_value
atoi_digits-digit d s val h =
    let t = every_below_lem 10 is_value d is_value_table h in
    elim (Option-cases (strchr digits (48 + d))) [
      | inl e ↦ absurd_test (rw (is_value, e) at t)
      | inr (found, e) ↦
          let v = (==_iff (length digits - length found) d).0 (rw (is_value, e) at t) in
          rw (atoi_digits, e, v) refl
    ]

skip-digit : (d : ℕ) (s : List ℕ) → skip_blanks ((48 + d) ∷ s) ≡ (48 + d) ∷ s
unfolding skip_blanks
skip-digit d s =
    rw (skip_blanks, ne→== (48 + d) 32 (omega arith), ne→== (48 + d) 9 (omega arith)) refl

sign-digit : (d : ℕ) (s : List ℕ) → d < 10 → atoi_sign ((48 + d) ∷ s) ≡ (false, (48 + d) ∷ s)
unfolding atoi_sign
sign-digit d s h = rw (ne→== (48 + d) 45 (omega arith), ne→== (48 + d) 43 (omega arith)) refl

pub atoi-digit : (d : ℕ) (s : List ℕ) → d < 10 → atoi ((48 + d) ∷ s) ≡ atoi_digits ((48 + d) ∷ s) 0
unfolding atoi
atoi-digit d s h = rw (skip-digit d s, sign-digit d s h) refl

pub atoi-minus : (s : List ℕ) → atoi (45 ∷ s) ≡ (word_mod - atoi_digits s 0) % word_mod
unfolding atoi skip_blanks atoi_sign
atoi-minus s = refl

pub atoi_digits-nil : (val : ℕ) → atoi_digits [] val ≡ val
unfolding atoi_digits
atoi_digits-nil val = refl
