-- ===== src/Printf/Decimal.antt =====
-- %d against atoi.
use harvard_os.Prelude.{
  ℕ, zero, suc, ◌+◌, ◌-◌, ◌*◌, ◌/◌, ◌%◌, ◌<◌, ◌≡◌, refl, ap, ◌∙◌, ◌≢◌, inl, inr, Bool, true, false,
  some, List, [], ◌∷◌, ◌++◌, ltb, leb, ◌==◌, if◌then◌else◌, get_or, length, word_mod, int_limit,
  arith, Bool-cases, every_below, every_below_lem, ltb→lt, ==_iff, ne→==,
}
use harvard_os.Libc.{atoi, atoi_digits, strchr}
use harvard_os.Libc.Atoi.{atoi_digits-digit, atoi_digits-nil, atoi-digit, atoi-minus}
use harvard_os.Printf.{
  Arg, Pf, digits, convert, vprintf, send_all, start, pf_send, print_int, pf_getnum, next_word,
  pf_setbase, pf_printnum, pf_printstuff, pf_print, pf_endfield,
}
use harvard_os.Printf.Numbers.{convert-Fits}

digit_table : every_below 10 (λ d. get_or digits d 0 == 48 + d) ≡ true
unfolding every_below
digit_table = refl

digits_lem : (d : ℕ) → d < 10 → get_or digits d 0 ≡ 48 + d
digits_lem d h =
    (==_iff (get_or digits d 0) (48 + d)).0
      (every_below_lem 10 (λ d. get_or digits d 0 == 48 + d) d digit_table h)

digit_step :
    (xnum : ℕ) (behind : List ℕ)
    → xnum < word_mod
    → atoi_digits (get_or digits (xnum % 10) 0 ∷ behind) (xnum / 10) ≡ atoi_digits behind xnum
digit_step xnum behind h = rw (digits_lem (xnum % 10) (omega arith)) (
    atoi_digits-digit (xnum % 10) behind (xnum / 10) (omega arith)
    ∙ ap (atoi_digits behind)
        (let e : (xnum / 10 * 10 + xnum % 10) % word_mod ≡ xnum = omega arith in e))

-- The loop of atoi reads back the digits that the loop of __pf_printnum wrote.
atoi_digits-convert :
    (slots xnum : ℕ) (behind x : List ℕ)
    → xnum < word_mod
    → convert slots 10 xnum behind ≡ some x
    → atoi_digits x 0 ≡ atoi_digits behind xnum
unfolding convert
atoi_digits-convert zero xnum behind x h e = cc
atoi_digits-convert (suc slots) xnum behind x h e = elim (Bool-cases (ltb 0 (xnum / 10))) [
  | inl more ↦
      atoi_digits-convert slots (xnum / 10) _ x (omega arith) (rw (convert, more) at e)
      ∙ digit_step xnum behind h
  | inr done ↦
      let z : xnum / 10 ≡ 0 = ground arith in
      let d = digit_step xnum behind h in
      let x' : some (get_or digits (xnum % 10) 0 ∷ behind) ≡ some x = rw (convert, done) at e in
      let d' : atoi_digits (get_or digits (xnum % 10) 0 ∷ behind) 0 ≡ atoi_digits behind xnum =
        rw z at d in
      cc
]

abbrev Digits : List ℕ → Type 0
Digits x = (d : ℕ) × (s : List ℕ) × (d < 10) × (x ≡ (48 + d) ∷ s)

convert-Digits :
    (slots xnum : ℕ) (behind x : List ℕ) → convert slots 10 xnum behind ≡ some x → Digits x
unfolding convert
convert-Digits zero xnum behind x e = cc
convert-Digits (suc slots) xnum behind x e = elim (Bool-cases (ltb 0 (xnum / 10))) [
  | inl more ↦ convert-Digits slots (xnum / 10) _ x (rw (convert, more) at e)
  | inr done ↦
      let g = digits_lem (xnum % 10) (omega arith) in
      let x' : some (get_or digits (xnum % 10) 0 ∷ behind) ≡ some x = rw (convert, done) at e in
      (xnum % 10, behind, omega arith, cc)
]

module _ {C : Type 0} (sendfunc : C → List ℕ → C) where
  -- Without a field width.
  pf_printstuff-plain :
      (pf : Pf C) (prefix prefix2 stuff : List ℕ)
      → pf.spacing ≡ 0
      → pf_printstuff sendfunc pf prefix prefix2 stuff
        ≡ pf_print sendfunc (pf_print sendfunc (pf_print sendfunc pf prefix) prefix2) stuff
  unfolding pf_printstuff
  pf_printstuff-plain pf prefix prefix2 stuff h = ground arith

-- What %d prints of a word, less its sign.
abbrev pub Prints : ℕ → Type 0
Prints n =
    (x : List ℕ) × (vprintf ◌++◌ [] (b'%' ∷ b'd' ∷ []) (Arg.word n ∷ []) ≡ some (length x, x))
    × (atoi x ≡ n)

in_format : ℕ → Bool → Pf (List ℕ)
in_format n neg = record (start [] []) { in_pct = true; sign = neg; num = n }

abbrev sign_text : Bool → List ℕ
sign_text neg = if neg then b'-' ∷ [] else []

prints_all :
    (num : ℕ) (neg : Bool) (x : List ℕ)
    → length x < 12
    → let q = pf_printstuff ◌++◌ (pf_setbase (in_format num neg) b'd') (sign_text neg) [] x in
      (q.clientdata ≡ sign_text neg ++ x) × (q.charcount ≡ length (sign_text neg ++ x))
unfolding pf_setbase in_format start pf_endfield pf_print
prints_all num true x l =
    let e = pf_printstuff-plain ◌++◌ (pf_setbase (in_format num true) b'd') (b'-' ∷ []) [] x refl in
    (ap Pf.clientdata e, ap Pf.charcount e ∙ omega arith)
prints_all num false x l =
    let e = pf_printstuff-plain ◌++◌ (pf_setbase (in_format num false) b'd') [] [] x refl in
    (ap Pf.clientdata e, ap Pf.charcount e ∙ omega arith)

-- After the argument is taken.
print_signed :
    (num : ℕ) (neg : Bool)
    → num < word_mod
    → (x : List ℕ) × Digits x
      × (atoi_digits x 0 ≡ num)
      × (q : Pf (List ℕ)) × (pf_printnum ◌++◌ (pf_setbase (in_format num neg) b'd') ≡ some q)
      × (q.clientdata ≡ sign_text neg ++ x)
      × (q.charcount ≡ length (sign_text neg ++ x))
unfolding pf_printnum pf_setbase in_format start pf_endfield
print_signed num neg h =
    let (x, e, l) = convert-Fits 10 num (inr (inl refl)) h in
    let (c, k) = prints_all num neg x l in
    (
      x,
      convert-Digits 11 num [] x e,
      atoi_digits-convert 11 num [] x h e ∙ atoi_digits-nil num,
      pf_printstuff ◌++◌ (pf_setbase (in_format num neg) b'd') (sign_text neg) [] x,
      rw e refl,
      c,
      k,
    )

-- The whole format.
decimal-lem :
    (n num : ℕ) (neg : Bool) (q : Pf (List ℕ))
    → pf_getnum (record (start [] (Arg.word n ∷ [])) { in_pct = true }) b'd'
      ≡ some (in_format num neg)
    → pf_printnum ◌++◌ (pf_setbase (in_format num neg) b'd') ≡ some q
    → vprintf ◌++◌ [] (b'%' ∷ b'd' ∷ []) (Arg.word n ∷ []) ≡ some (q.charcount, q.clientdata)
unfolding vprintf send_all pf_send print_int start pf_endfield strchr in_format
decimal-lem n num neg q g e = rw (print_int, g, e) refl

atoi-Digits : {x : List ℕ} → Digits x → atoi x ≡ atoi_digits x 0
atoi-Digits (d, s, small, e) = rw e (atoi-digit d s small)

module _ (n : ℕ) where
  getnum_positive :
      n < int_limit
      → pf_getnum (record (start [] (Arg.word n ∷ [])) { in_pct = true }) b'd'
        ≡ some (in_format n false)
  unfolding pf_getnum next_word start pf_endfield in_format
  getnum_positive h =
      let m : n % word_mod ≡ n = omega arith in
      let b : leb int_limit n ≡ false = ground arith in rw (m, b) refl

  getnum_negative :
      int_limit < n
      → n < word_mod
      → pf_getnum (record (start [] (Arg.word n ∷ [])) { in_pct = true }) b'd'
        ≡ some (in_format (word_mod - n) true)
  unfolding pf_getnum next_word start pf_endfield in_format
  getnum_negative h small =
      let m : n % word_mod ≡ n = omega arith in
      let b : leb int_limit n ≡ true = ground arith in
      rw (m, b, ne→== n int_limit (omega arith)) refl

  positive : n < int_limit → Prints n
  positive h =
      let (x, ds, value, q, e, c, k) = print_signed n false (omega arith) in
      (x, decimal-lem n n false q (getnum_positive h) e ∙ rw (c, k) refl, atoi-Digits ds ∙ value)

  negative : int_limit < n → n < word_mod → Prints n
  negative h small =
      let (x, ds, value, q, e, c, k) = print_signed (word_mod - n) true (omega arith) in
      (
        b'-' ∷ x,
        decimal-lem n (word_mod - n) true q (getnum_negative h small) e ∙ rw (c, k) refl,
        atoi-minus x ∙ rw value (omega arith),
      )

-- atoi reads a number back that %d printed, negative ones included; the count is that of its
-- characters. The least `int` is excluded, since its negation overflows.
pub atoi-vprintf : (n : ℕ) → n < word_mod → n ≢ int_limit → Prints n
atoi-vprintf n small ne = elim (Bool-cases (ltb n int_limit)) [
  | inl pos ↦ positive n (ltb→lt _ _ pos)
  | inr neg ↦ negative n (ground arith) small
]
