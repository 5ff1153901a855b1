-- ===== src/Libc/Strings.antt =====
-- strcmp, strchr and strrchr: what they find.
use harvard_os.Prelude.{
  ℕ, ◌≡◌, refl, sym, ap, subst, ◌≢◌, ◌↔◌, ◌⊎◌, inl, inr, Bool, true, false, none, some, List, [],
  ◌∷◌, ◌++◌, ==_iff, ne→==, if◌then◌else◌, length, arith,
}
use native.Mathlib.Decide.{ℕ_discrete}
use harvard_os.Libc.{below, same, above, char_lt, strcmp, strchr, strlen}

not_same : {A : Type 0} (b : Bool) → (if b then above else below) ≡ same → A
not_same true e = cc
not_same false e = cc

strcmp_refl : (a : List ℕ) → strcmp a a ≡ same
unfolding strcmp
strcmp_refl [] = refl
strcmp_refl (c ∷ s) = rw (strcmp, (==_iff c c).1 refl) (strcmp_refl s)

strcmp-eq : (a b : List ℕ) → strcmp a b ≡ same → a ≡ b
unfolding strcmp
strcmp-eq [] [] h = refl
strcmp-eq [] (d ∷ t) h = not_same (char_lt d 0) h
strcmp-eq (c ∷ s) [] h = not_same (char_lt 0 c) h
strcmp-eq (c ∷ s) (d ∷ t) h = elim (ℕ_discrete c d) [
  | no ne ↦ not_same (char_lt d c) (rw (strcmp, ne→== c d ne) at h)
  | yes e ↦ let rest = strcmp-eq s t (rw (strcmp, (==_iff c d).1 e) at h) in cc
]

-- strcmp finds two strings the same exactly if they are equal.
pub strcmp-same : (a b : List ℕ) → (strcmp a b ≡ same) ↔ (a ≡ b)
strcmp-same a b = (strcmp-eq a b, λ e. subst (λ t. strcmp a t ≡ same) e (strcmp_refl a))

-- No character of a string before the null is `ch`.
abbrev pub Lacks : ℕ → List ℕ → Type 0
Lacks ch [] = Unit
Lacks ch (c ∷ s) = (c ≢ ch) × Lacks ch s

-- strchr finds the first of a character that is not the null, if there is one.
pub strchr_lem :
    (s : List ℕ) (ch : ℕ)
    → ch ≢ 0
    → ((before after : List ℕ) × (strchr s ch ≡ some (ch ∷ after))
        × (s ≡ before ++ (ch ∷ after))
        × Lacks ch before)
      ⊎ ((strchr s ch ≡ none) × Lacks ch s)
unfolding strchr
strchr_lem [] ch nz = inr (rw (ne→== 0 ch (λ e. nz (sym e))) refl, tt)
strchr_lem (c ∷ s) ch nz = elim (ℕ_discrete c ch) [
  | yes e ↦ inl ([], s, rw (strchr, (==_iff c ch).1 e, e) refl, rw e refl, tt)
  | no ne ↦ elim (strchr_lem s ch nz) [
    | inl (before, after, found, split, lacks) ↦
        inl (c ∷ before, after, rw (strchr, ne→== c ch ne) found, ap (◌∷◌ c) split, (ne, lacks))
    | inr (missing, lacks) ↦ inr (rw (strchr, ne→== c ch ne) missing, (ne, lacks))
  ]
]

pub strlen-length : (s : List ℕ) → strlen s ≡ length s
unfolding strlen
strlen-length [] = refl
strlen-length (c ∷ s) = omega (arith, strlen-length s)
