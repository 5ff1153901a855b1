-- ===== src/Printf/Tests.antt =====
-- Runs of printf, and instances of the theorems.
use harvard_os.Prelude.{
  ◌%◌, length, word_mod, ◌-◌, ◌≡◌, refl, inl, none, some, [], ◌∷◌, ◌++◌, take, ltb, if◌then◌else◌,
  arith, ◌>>=◌,
}
use harvard_os.Libc.{strchr}
use harvard_os.Printf.{
  Arg, convert, vprintf, send_all, start, pf_send, print_int, print_text, print_char, pf_getnum,
  next_word, pf_setbase, pf_printnum, pf_printstuff, pf_fill, pf_print, pf_endfield, pf_modifier,
  widen,
}
use harvard_os.Printf.Numbers.{convert-Fits, Fits}
use harvard_os.Printf.Decimal.{atoi-vprintf, Prints}
use harvard_os.Printf.Snprintf.{vsnprintf}
use harvard_os.Printf.Snprintf.Buffer.{vsnprintf_lem, stored}

-- "%4d|%#x" of -7 and 255
field_run :
    vprintf ◌++◌ []
      (b'%' ∷ b'4' ∷ b'd' ∷ b'|' ∷ b'%' ∷ b'#' ∷ b'x' ∷ [])
      (Arg.word 4294967289 ∷ Arg.word 255 ∷ [])
    ≡ some (9, b' ' ∷ b' ' ∷ b'-' ∷ b'7' ∷ b'|' ∷ b'0' ∷ b'x' ∷ b'f' ∷ b'f' ∷ [])
unfolding vprintf send_all start pf_send print_int print_text print_char pf_getnum next_word
    pf_setbase pf_printnum pf_printstuff pf_fill pf_print pf_endfield pf_modifier widen convert
    strchr
field_run = refl

-- A format without its argument.
missing_run : vprintf ◌++◌ [] (b'%' ∷ b's' ∷ []) [] ≡ none
unfolding vprintf send_all start pf_send print_text pf_endfield strchr
missing_run = refl

vsnprintf_lem_example : vsnprintf (λ j. j) 100 3 (b'%' ∷ b'd' ∷ []) (Arg.word 1234 ∷ []) ≡ (
    vprintf ◌++◌ [] (b'%' ∷ b'd' ∷ []) (Arg.word 1234 ∷ []) >>= λ (chars, out). some (
      length out % word_mod,
      (if ltb 0 3 then stored (λ j. j) 100 (take (3 - 1) out ++ (0 ∷ [])) else λ j. j),
    ))
vsnprintf_lem_example = vsnprintf_lem (λ j. j) 100 3 (b'%' ∷ b'd' ∷ []) (Arg.word 1234 ∷ [])

atoi-vprintf_example : Prints 4294967254
atoi-vprintf_example = atoi-vprintf 4294967254 (omega arith) (omega arith)

convert-Fits_example : Fits 8 4294967295
convert-Fits_example = convert-Fits 8 4294967295 (inl refl) (omega arith)
