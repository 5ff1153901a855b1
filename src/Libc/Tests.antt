-- ===== src/Libc/Tests.antt =====
-- Runs of the functions on strings, and instances of the theorems.
use harvard_os.Prelude.{◌+◌, ◌≡◌, refl, none, some, [], ◌∷◌}
use harvard_os.Libc.{
  strchr, strtok_r, strtok_from, skip_seps, skip_word, is_sep, after_word, atoi, atoi_sign,
  atoi_digits, skip_blanks, strrchr, strrchr_from, strlen,
}
use harvard_os.Libc.Memory.{memmove, moved_at, memmove-moved_at}

-- " -42"
atoi_run : atoi (32 ∷ 45 ∷ 52 ∷ 50 ∷ []) ≡ 4294967254
unfolding atoi atoi_sign atoi_digits skip_blanks strchr
atoi_run = refl

-- ",ab,c" at the commas
strtok_r_run :
    strtok_r (some (44 ∷ 97 ∷ 98 ∷ 44 ∷ 99 ∷ [])) (44 ∷ []) none
    ≡ (some (97 ∷ 98 ∷ []), some (99 ∷ []))
unfolding strtok_r strtok_from skip_seps skip_word is_sep after_word strchr
strtok_r_run = refl

strrchr_run : strrchr (97 ∷ 98 ∷ 97 ∷ []) 97 ≡ some 2
unfolding strrchr strrchr_from strlen
strrchr_run = refl

-- Two overlapping regions, each way.
memmove-moved_at_example : memmove 10 8 5 (λ a. a + 3) ≡ moved_at 10 8 5 (λ a. a + 3)
memmove-moved_at_example = memmove-moved_at 10 8 5 (λ a. a + 3)
