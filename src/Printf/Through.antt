-- ===== src/Printf/Through.antt =====
-- A change of what the caller's function works on goes through the whole of __vprintf.
use harvard_os.Prelude.{
  ℕ, zero, suc, ◌≡◌, refl, ap, ◌∙◌, Bool, true, false, Option, none, some, List, [], ◌∷◌, arith,
  ◌>>=◌, if◌then◌else◌, Option-cases, Bool-cases, inl, inr, ◌==◌, ◌-◌, ◌%◌,
}
use harvard_os.Printf.{
  Pf, Arg, pf_endfield, widen, pf_modifier, next_word, pf_getnum, pf_setbase, pf_print, pf_fill,
  pf_printstuff, pf_printnum, print_text, print_char, print_int, pf_send, send_all, vprintf,
  convert, start, null_text, one_char, number_buf_size,
}

module _ {C D : Type 0} (sendc : C → List ℕ → C) (sendd : D → List ℕ → D) (h : C → D)
    (commutes : (c : C) (s : List ℕ) → h (sendc c s) ≡ sendd (h c) s) where
  abbrev through : Pf C → Pf D
  through pf = record {
    clientdata = h pf.clientdata;
    ap = pf.ap;
    charcount = pf.charcount;
    in_pct = pf.in_pct;
    size = pf.size;
    num = pf.num;
    sign = pf.sign;
    spacing = pf.spacing;
    rightspc = pf.rightspc;
    fillchar = pf.fillchar;
    base = pf.base;
    baseprefix = pf.baseprefix;
    altformat = pf.altformat;
  }

  pf_print-through :
      (pf : Pf C) (s : List ℕ) → pf_print sendd (through pf) s ≡ through (pf_print sendc pf s)
  unfolding pf_print
  pf_print-through pf s = rw (commutes pf.clientdata s) refl

  pf_fill-through :
      (pf : Pf C) (spc : ℕ) → pf_fill sendd (through pf) spc ≡ through (pf_fill sendc pf spc)
  unfolding pf_fill
  pf_fill-through pf zero = refl
  pf_fill-through pf (suc spc) =
      ap (λ q. pf_fill sendd q spc) (pf_print-through pf (pf.fillchar ∷ []))
      ∙ pf_fill-through (pf_print sendc pf (pf.fillchar ∷ [])) spc

  through-if :
      (b : Bool) (x y : Pf C) → (if b then through x else through y) ≡ through (if b then x else y)
  through-if true x y = refl
  through-if false x y = refl

  pf_printstuff-through :
      (pf : Pf C) (prefix prefix2 stuff : List ℕ)
      → pf_printstuff sendd (through pf) prefix prefix2 stuff
        ≡ through (pf_printstuff sendc pf prefix prefix2 stuff)
  unfolding pf_printstuff
  pf_printstuff-through pf prefix prefix2 stuff =
      simp (pf_fill-through, pf_print-through, through-if)

  pf_printnum-through :
      (pf : Pf C)
      → pf_printnum sendd (through pf) ≡ (pf_printnum sendc pf >>= λ q. some (through q))
  unfolding pf_printnum
  pf_printnum-through pf = elim (Option-cases (convert (number_buf_size - 1) pf.base pf.num [])) [
    | inl e ↦ rw e refl
    | inr (x, e) ↦ rw e (ap some (pf_printstuff-through pf _ _ x))
  ]

  pf_modifier-through :
      (pf : Pf C) (ch : ℕ)
      → pf_modifier (through pf) ch ≡ (pf_modifier pf ch >>= λ q. some (through q))
  unfolding pf_modifier widen
  pf_modifier-through pf ch = ground arith

  pf_getnum-through :
      (pf : Pf C) (ch : ℕ) → pf_getnum (through pf) ch ≡ (pf_getnum pf ch >>= λ q. some (through q))
  unfolding pf_getnum
  pf_getnum-through pf ch = ground arith

  print_end-through :
      (pf : Pf C) (stuff : List ℕ)
      → ◌≡◌ {A = Option (Pf D)}
          (some (pf_endfield (pf_printstuff sendd (through pf) [] [] stuff)))
          (some (through (pf_endfield (pf_printstuff sendc pf [] [] stuff))))
  unfolding pf_endfield
  print_end-through pf stuff = ap (λ q. some (pf_endfield q)) (pf_printstuff-through pf [] [] stuff)

  print_text-through :
      (pf : Pf C) (args : List Arg)
      → print_text sendd (through pf) args ≡ (print_text sendc pf args >>= λ q. some (through q))
  unfolding print_text
  print_text-through pf [] = refl
  print_text-through pf (Arg.word n ∷ rest) = refl
  print_text-through pf (Arg.text none ∷ rest) =
      print_end-through (record pf { ap = rest }) null_text
  print_text-through pf (Arg.text (some s) ∷ rest) = print_end-through (record pf { ap = rest }) s

  print_char-through :
      (pf : Pf C) (ch : ℕ)
      → print_char sendd (through pf) ch ≡ (print_char sendc pf ch >>= λ q. some (through q))
  unfolding print_char
  print_char-through pf ch = elim (Bool-cases (ch == b'c')) [
    | inr other ↦ rw other (print_end-through pf (one_char ch))
    | inl char ↦ rw char (elim (Option-cases (next_word pf.ap)) [
      | inl e ↦ rw e refl
      | inr ((n, rest), e) ↦ rw e (print_end-through (record pf { ap = rest }) (one_char (n % 256)))
    ])
  ]

  setbase_print :
      (pf : Pf C) (ch : ℕ)
      → pf_printnum sendd (pf_setbase (through pf) ch)
        ≡ (pf_printnum sendc (pf_setbase pf ch) >>= λ q. some (through q))
  unfolding pf_setbase
  setbase_print pf ch = pf_printnum-through (pf_setbase pf ch)

  print_int-through :
      (pf : Pf C) (ch : ℕ)
      → print_int sendd (through pf) ch ≡ (print_int sendc pf ch >>= λ q. some (through q))
  unfolding print_int pf_endfield
  print_int-through pf ch = elim (Option-cases (pf_getnum pf ch)) [
    | inl e ↦ rw (pf_getnum-through pf ch, e) refl
    | inr (pf1, e) ↦
        rw (pf_getnum-through pf ch, e)
          (elim (Option-cases (pf_printnum sendc (pf_setbase pf1 ch))) [
            | inl f ↦ rw (setbase_print pf1 ch, f) refl
            | inr (pf2, f) ↦ rw (setbase_print pf1 ch, f) refl
          ])
  ]

  pf_send-through :
      (pf : Pf C) (ch : ℕ)
      → pf_send sendd (through pf) ch ≡ (pf_send sendc pf ch >>= λ q. some (through q))
  unfolding pf_send
  pf_send-through pf ch = ground (
    arith,
    pf_print-through pf (ch ∷ []),
    pf_modifier-through pf ch,
    print_int-through pf ch,
    print_text-through pf pf.ap,
    print_char-through pf ch,
  )

  send_all-through :
      (format : List ℕ) (pf : Pf C)
      → send_all sendd format (through pf) ≡ (send_all sendc format pf >>= λ q. some (through q))
  unfolding send_all
  send_all-through [] pf = refl
  send_all-through (ch ∷ format) pf = elim (Option-cases (pf_send sendc pf ch)) [
    | inl e ↦ rw (pf_send-through pf ch, e) refl
    | inr (pf1, e) ↦ rw (pf_send-through pf ch, e) (send_all-through format pf1)
  ]

  pub vprintf-through :
      (c : C) (format : List ℕ) (args : List Arg)
      → vprintf sendd (h c) format args
        ≡ (vprintf sendc c format args >>= λ (count, c'). some (count, h c'))
  unfolding vprintf start pf_endfield
  vprintf-through c format args = elim (Option-cases (send_all sendc format (start c args))) [
    | inl e ↦ rw (send_all-through format (start c args), e) refl
    | inr (pf, e) ↦ rw (send_all-through format (start c args), e) refl
  ]
