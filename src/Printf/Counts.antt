-- ===== src/Printf/Counts.antt =====
-- What __vprintf counts: the characters that it sends.
use harvard_os.Prelude.{
  ℕ, zero, suc, ◌%◌, ◌≡◌, refl, sym, ap, ◌∙◌, Bool, true, false, not, ◌&&◌, Option, none, some,
  List, [], ◌∷◌, ◌++◌, arith, ◌>>=◌, assert, if◌then◌else◌, ◌==◌, length, length-append, word_mod,
}
use harvard_os.Printf.{
  Pf, Arg, pf_endfield, widen, pf_modifier, pf_getnum, pf_setbase, pf_print, pf_fill, pf_printstuff,
  pf_printnum, print_text, print_char, print_int, pf_send, send_all, vprintf, start, null_text,
  one_char, among, modifiers, int_types,
}

-- The count is that of the characters that were sent, as a word counts them.
record Counted (pf : Pf (List ℕ)) : Type 0 where
  pub count : pf.charcount ≡ length pf.clientdata % word_mod

AllCounted : Option (Pf (List ℕ)) → Type 0
AllCounted none = Unit
AllCounted (some pf) = Counted pf

nothing : AllCounted none
unfolding AllCounted
nothing = tt

just : (pf : Pf (List ℕ)) → Counted pf → AllCounted (some pf)
unfolding AllCounted
just pf h = h

if-Counted : (b : Bool) (x y : Pf (List ℕ)) → Counted x → Counted y → Counted (if b then x else y)
if-Counted true x y h k = h
if-Counted false x y h k = k

if-AllCounted :
    (b : Bool) (x y : Option (Pf (List ℕ)))
    → AllCounted x
    → AllCounted y
    → AllCounted (if b then x else y)
if-AllCounted true x y h k = h
if-AllCounted false x y h k = k

bind-AllCounted :
    (m : Option (Pf (List ℕ))) (k : Pf (List ℕ) → Option (Pf (List ℕ)))
    → AllCounted m
    → ((pf : Pf (List ℕ)) → Counted pf → AllCounted (k pf))
    → AllCounted (m >>= k)
unfolding AllCounted
bind-AllCounted none k h next = tt
bind-AllCounted (some pf) k h next = next pf h

any-AllCounted :
    {A : Type 0}
    → (m : Option A) (k : A → Option (Pf (List ℕ))) → ((x : A) → AllCounted (k x))
    → AllCounted (m >>= k)
any-AllCounted none k h = nothing
any-AllCounted (some x) k h = h x

pf_print-Counted : (pf : Pf (List ℕ)) (s : List ℕ) → Counted pf → Counted (pf_print ◌++◌ pf s)
unfolding pf_print
pf_print-Counted pf s h = record { count = omega (arith, h.count, length-append pf.clientdata s) }

pf_fill-Counted : (pf : Pf (List ℕ)) (spc : ℕ) → Counted pf → Counted (pf_fill ◌++◌ pf spc)
unfolding pf_fill
pf_fill-Counted pf zero h = h
pf_fill-Counted pf (suc spc) h =
    pf_fill-Counted (pf_print ◌++◌ pf (pf.fillchar ∷ [])) spc
      (pf_print-Counted pf (pf.fillchar ∷ []) h)

pf_printstuff-Counted :
    (pf : Pf (List ℕ)) (prefix prefix2 stuff : List ℕ)
    → Counted pf
    → Counted (pf_printstuff ◌++◌ pf prefix prefix2 stuff)
unfolding pf_printstuff
pf_printstuff-Counted pf prefix prefix2 stuff h =
    let fill = λ (b : Bool) (q : Pf (List ℕ)) (n : ℕ) (k : Counted q).
      if-Counted b (pf_fill ◌++◌ q n) q (pf_fill-Counted q n k) k in
    fill _ _ _ (
      pf_print-Counted _ stuff
        (fill _ _ _ (pf_print-Counted _ prefix2 (pf_print-Counted _ prefix (fill _ pf _ h)))))

pf_printnum-Counted : (pf : Pf (List ℕ)) → Counted pf → AllCounted (pf_printnum ◌++◌ pf)
unfolding pf_printnum
pf_printnum-Counted pf h = any-AllCounted _ _ (λ x. just _ (pf_printstuff-Counted pf _ _ x h))

widen-Counted : (width : ℕ) (pf : Pf (List ℕ)) → Counted pf → AllCounted (widen width pf)
unfolding widen
widen-Counted width pf h = if-AllCounted _ _ _ (just _ (record { count = h.count })) nothing

-- A step that touches neither the count nor the characters.
abbrev Same : Pf (List ℕ) → Option (Pf (List ℕ)) → Type 0
Same pf m =
    (pf1 : Pf (List ℕ))
    → m ≡ some pf1
    → (pf1.charcount ≡ pf.charcount) × (pf1.clientdata ≡ pf.clientdata)

Same-AllCounted :
    (pf : Pf (List ℕ)) (m : Option (Pf (List ℕ))) → Counted pf → Same pf m → AllCounted m
Same-AllCounted pf none h same = nothing
Same-AllCounted pf (some pf1) h same =
    let (a, b) = same pf1 refl in
    just pf1 (record { count = a ∙ h.count ∙ ap (λ l. length l % word_mod) (sym b) })

pf_modifier-Counted : (pf : Pf (List ℕ)) (ch : ℕ) → Counted pf → AllCounted (pf_modifier pf ch)
unfolding pf_modifier widen
pf_modifier-Counted pf ch h = Same-AllCounted pf (pf_modifier pf ch) h (λ pf1 e. ground (arith, e))

pf_getnum-Counted : (pf : Pf (List ℕ)) (ch : ℕ) → Counted pf → AllCounted (pf_getnum pf ch)
unfolding pf_getnum
pf_getnum-Counted pf ch h = Same-AllCounted pf (pf_getnum pf ch) h (λ pf1 e. ground (arith, e))

pf_setbase-Counted : (pf : Pf (List ℕ)) (ch : ℕ) → Counted pf → Counted (pf_setbase pf ch)
unfolding pf_setbase
pf_setbase-Counted pf ch h = record { count = h.count }

pf_endfield-Counted : (pf : Pf (List ℕ)) → Counted pf → Counted (pf_endfield pf)
unfolding pf_endfield
pf_endfield-Counted pf h = record { count = h.count }

stuff-Counted :
    (pf : Pf (List ℕ)) (rest : List Arg) (s : List ℕ)
    → Counted pf
    → AllCounted (some (pf_endfield (pf_printstuff ◌++◌ (record pf { ap = rest }) [] [] s)))
stuff-Counted pf rest s h = just _ (
    pf_endfield-Counted _
      (pf_printstuff-Counted (record pf { ap = rest }) [] [] s (record { count = h.count })))

print_text-Counted :
    (pf : Pf (List ℕ)) (args : List Arg) → Counted pf → AllCounted (print_text ◌++◌ pf args)
unfolding print_text
print_text-Counted pf [] h = nothing
print_text-Counted pf (Arg.word n ∷ rest) h = nothing
print_text-Counted pf (Arg.text none ∷ rest) h = stuff-Counted pf rest null_text h
print_text-Counted pf (Arg.text (some s) ∷ rest) h = stuff-Counted pf rest s h

print_char-Counted : (pf : Pf (List ℕ)) (ch : ℕ) → Counted pf → AllCounted (print_char ◌++◌ pf ch)
unfolding print_char
print_char-Counted pf ch h =
    if-AllCounted _ _ _
      (any-AllCounted {A = ℕ × List Arg} _ _ (λ x. stuff-Counted pf x.1 (one_char (x.0 % 256)) h))
      (stuff-Counted pf pf.ap (one_char ch) h)

print_int-Counted : (pf : Pf (List ℕ)) (ch : ℕ) → Counted pf → AllCounted (print_int ◌++◌ pf ch)
unfolding print_int
print_int-Counted pf ch h = bind-AllCounted _ _ (pf_getnum-Counted pf ch h) (λ pf1 h1.
    bind-AllCounted _ _ (pf_printnum-Counted _ (pf_setbase-Counted pf1 ch h1))
      (λ pf2 h2. just _ (pf_endfield-Counted pf2 h2)))

pf_send-Counted : (pf : Pf (List ℕ)) (ch : ℕ) → Counted pf → AllCounted (pf_send ◌++◌ pf ch)
unfolding pf_send
pf_send-Counted pf ch h = any-AllCounted (assert (not (ch == 0))) _ (λ x.
    if-AllCounted (not pf.in_pct && not (ch == b'%')) _ _ (just _ (pf_print-Counted pf (ch ∷ []) h))
      (if-AllCounted (not pf.in_pct) _ _
        (just (record pf { in_pct = true }) (record { count = h.count }))
        (if-AllCounted (among modifiers ch) _ _ (pf_modifier-Counted pf ch h) (
          if-AllCounted (among int_types ch) _ _ (print_int-Counted pf ch h) (
            if-AllCounted (ch == b's') _ _ (print_text-Counted pf pf.ap h)
              (print_char-Counted pf ch h))))))

send_all-Counted :
    (format : List ℕ) (pf : Pf (List ℕ)) → Counted pf → AllCounted (send_all ◌++◌ format pf)
unfolding send_all
send_all-Counted [] pf h = just pf h
send_all-Counted (ch ∷ format) pf h =
    bind-AllCounted _ _ (pf_send-Counted pf ch h) (λ pf1 h1. send_all-Counted format pf1 h1)

start-Counted : (args : List Arg) → Counted (start [] args)
unfolding start
start-Counted args = pf_endfield-Counted _ (record { count = refl })

-- The characters that vprintf sends, with the count of a word for the result.
abbrev pub recounted : Option (ℕ × List ℕ) → Option (ℕ × List ℕ)
recounted none = none
recounted (some p) = some (length p.1 % word_mod, p.1)

-- The count of vprintf is the number of the characters that it sends.
pub vprintf-recounted :
    (format : List ℕ) (args : List Arg)
    → vprintf ◌++◌ [] format args ≡ recounted (vprintf ◌++◌ [] format args)
unfolding vprintf AllCounted
vprintf-recounted format args =
    counted (send_all ◌++◌ format (start [] args))
      (send_all-Counted format (start [] args) (start-Counted args))
  where
    counted :
        (m : Option (Pf (List ℕ)))
        → AllCounted m
        → (m >>= λ pf. some (pf.charcount, pf.clientdata))
          ≡ recounted (m >>= λ pf. some (pf.charcount, pf.clientdata))
    counted none h = refl
    counted (some pf) h = ap (λ n. some (n, pf.clientdata)) h.count
