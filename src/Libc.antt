-- ===== src/Libc.antt =====
-- os161/lib/libc: the functions on strings and memory that the kernel and the programs share. A string
-- is the list of its characters before the null that ends it, which are bytes and not 0.
pub mod Memory
pub mod Strings
pub mod Atoi
mod Tests
use harvard_os.Prelude.{
  ℕ, zero, suc, ◌+◌, ◌-◌, ◌*◌, ◌%◌, Bool, true, false, not, ◌&&◌, ◌||◌, Option, none, some, List,
  [], ◌∷◌, ◌++◌, ltb, ◌==◌, if◌then◌else◌, length, get_or, word_mod,
}

pub strlen : List ℕ → ℕ
strlen [] = 0
strlen (c ∷ s) = strlen s + 1

-- The three results of `strcmp`: -1, 0 and 1.
pub data Sign : Type 0 where
  below same above : Sign

-- `<` of two values of char.
abbrev pub char_lt : ℕ → ℕ → Bool
char_lt a b = ltb ((a + 128) % 256) ((b + 128) % 256)

unfoldable pub strcmp : List ℕ → List ℕ → Sign
strcmp [] [] = same
strcmp [] (d ∷ t) = if char_lt d 0 then above else below
strcmp (c ∷ s) [] = if char_lt 0 c then above else below
strcmp (c ∷ s) (d ∷ t) = elim (c == d) [
  | true ↦ strcmp s t
  | false ↦ if char_lt d c then above else below
]

-- A pointer into the string is the rest of it from there.
unfoldable pub strchr : List ℕ → ℕ → Option (List ℕ)
strchr [] ch = if 0 == ch then some [] else none
strchr (c ∷ s) ch = elim (c == ch) [ true ↦ some (c ∷ s) | false ↦ strchr s ch ]

-- From the last character on, `i` of them and the null left.
pub strrchr_from : ℕ → List ℕ → ℕ → Option ℕ
strrchr_from zero s ch = none
strrchr_from (suc i) s ch = elim (get_or s i 0 == ch) [
  | true ↦ some i
  | false ↦ strrchr_from i s ch
]

-- The index of the character.
pub strrchr : List ℕ → ℕ → Option ℕ
strrchr s ch = strrchr_from (strlen s + 1) s ch

pub is_sep : List ℕ → ℕ → Bool
is_sep seps c = elim (strchr seps c) [ none ↦ false | some found ↦ true ]

-- The two loops of `strtok_r`.
pub skip_seps : List ℕ → List ℕ → List ℕ
skip_seps seps [] = []
skip_seps seps (c ∷ s) = elim (is_sep seps c) [ true ↦ skip_seps seps s | false ↦ c ∷ s ]

-- The word, and what is left from its end on.
pub skip_word : List ℕ → List ℕ → List ℕ × List ℕ
skip_word seps [] = ([], [])
skip_word seps (c ∷ s) = elim (is_sep seps c) [
  | true ↦ ([], c ∷ s)
  | false ↦ (c ∷ (skip_word seps s).0, (skip_word seps s).1)
]

-- Past the separator that ended the word, or the null pointer.
pub after_word : List ℕ → Option (List ℕ)
after_word [] = none
after_word (c ∷ s) = some s

pub strtok_from : List ℕ → List ℕ → Option (List ℕ) × Option (List ℕ)
strtok_from seps head = elim (skip_seps seps head) [
  | [] ↦ (none, none)
  | c ∷ s ↦ (some (skip_word seps (c ∷ s)).0, after_word (skip_word seps (c ∷ s)).1)
]

-- The word and the new context; a `string` starts over.
pub strtok_r : Option (List ℕ) → List ℕ → Option (List ℕ) → Option (List ℕ) × Option (List ℕ)
strtok_r (some string) seps context = strtok_from seps string
strtok_r none seps none = (none, none)
strtok_r none seps (some head) = strtok_from seps head

abbrev pub digits : List ℕ
digits = 48 ∷ 49 ∷ 50 ∷ 51 ∷ 52 ∷ 53 ∷ 54 ∷ 55 ∷ 56 ∷ 57 ∷ []

pub skip_blanks : List ℕ → List ℕ
skip_blanks [] = []
skip_blanks (c ∷ s) = elim (c == 32 || c == 9) [ true ↦ skip_blanks s | false ↦ c ∷ s ]

pub atoi_sign : List ℕ → Bool × List ℕ
atoi_sign [] = (false, [])
atoi_sign (c ∷ s) = if c == 45 then (true, s) else if c == 43 then (false, s) else (false, c ∷ s)

-- The last loop, on an unsigned value.
pub atoi_digits : List ℕ → ℕ → ℕ
atoi_digits [] val = val
atoi_digits (c ∷ s) val = elim (strchr digits c) [
  | none ↦ val
  | some found ↦ atoi_digits s ((val * 10 + (length digits - length found)) % word_mod)
]

-- The result as a word.
pub atoi : List ℕ → ℕ
atoi s =
    let (neg, rest) = atoi_sign (skip_blanks s) in
    let val = atoi_digits rest 0 in if neg then (word_mod - val) % word_mod else val
