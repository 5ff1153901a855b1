-- ===== src/Printf.antt =====
-- os161/lib/libc/__printf.c: the engine of printf, which the kernel and the programs share. It hands
-- what it prints to a function of the caller. `long`, `int` and a pointer are words of 32 bits.
pub mod Numbers
pub mod Decimal
pub mod Through
pub mod Counts
pub mod Snprintf
mod Tests
use harvard_os.Prelude.{
  ℕ, zero, suc, ◌+◌, ◌-◌, ◌*◌, ◌/◌, ◌%◌, Bool, true, false, not, ◌&&◌, ◌||◌, Option, none, some,
  List, [], ◌∷◌, ltb, leb, ◌==◌, if◌then◌else◌, get_or, length, ◌>>=◌, ◌>>◌, assert, int_limit,
  word_mod,
}
use harvard_os.Libc.{strchr}

-- An argument: a number or a pointer, or a string, which may be NULL.
pub data Arg : Type 0 where
  word : ℕ → Arg
  text : Option (List ℕ) → Arg

pub data Size : Type 0 where
  intsz longsz : Size

-- `clientdata` is what the caller's function works on.
pub record Pf (C : Type 0) : Type 0 where
  pub clientdata : C
  pub ap : List Arg
  pub charcount : ℕ
  pub in_pct : Bool
  pub size : Size
  pub num : ℕ
  pub sign : Bool
  pub spacing : ℕ
  pub rightspc : Bool
  pub fillchar : ℕ
  pub base : ℕ
  pub baseprefix : Bool
  pub altformat : Bool

-- Room for a `long` in base 8, the null and one more.
abbrev pub number_buf_size : ℕ
number_buf_size = 4 * 8 / 3 + 2

abbrev pub digits : List ℕ
digits =
    b'0' ∷ b'1' ∷ b'2' ∷ b'3' ∷ b'4' ∷ b'5' ∷ b'6' ∷ b'7' ∷ b'8' ∷ b'9' ∷ b'a' ∷ b'b' ∷ b'c' ∷ b'd'
    ∷ b'e' ∷ b'f' ∷ []

-- The loop over the digits, from right to left, with `slots` bytes of the buffer left of them.
pub convert : ℕ → ℕ → ℕ → List ℕ → Option (List ℕ)
convert zero base xnum behind = none
convert (suc slots) base xnum behind =
    let x = get_or digits (xnum % base) 0 ∷ behind in
    let rest = convert slots base (xnum / base) x in if ltb 0 (xnum / base) then rest else some x

-- A signed value of `int` or `long` that cannot be negated overflows.
abbrev pub negate : ℕ → Option ℕ
negate signednum = if signednum == int_limit then none else some (word_mod - signednum)

abbrev pub among : List ℕ → ℕ → Bool
among chars ch = elim (strchr chars ch) [ none ↦ false | some found ↦ true ]

-- "#-ql0123456789" and "doupx"
abbrev pub modifiers : List ℕ
modifiers =
    b'#' ∷ b'-' ∷ b'q' ∷ b'l' ∷ b'0' ∷ b'1' ∷ b'2' ∷ b'3' ∷ b'4' ∷ b'5' ∷ b'6' ∷ b'7' ∷ b'8' ∷ b'9'
    ∷ []

abbrev pub int_types : List ℕ
int_types = b'd' ∷ b'o' ∷ b'u' ∷ b'p' ∷ b'x' ∷ []

abbrev pub null_text : List ℕ
null_text = b'(' ∷ b'n' ∷ b'u' ∷ b'l' ∷ b'l' ∷ b')' ∷ []

-- A string of one character, which is empty if that is the null.
abbrev pub one_char : ℕ → List ℕ
one_char c = if c == 0 then [] else c ∷ []

-- va_arg of a word; a string there is no result.
pub next_word : List Arg → Option (ℕ × List Arg)
next_word [] = none
next_word (Arg.text s ∷ rest) = none
next_word (Arg.word n ∷ rest) = some (n % word_mod, rest)

module _ {C : Type 0} where
  pub pf_endfield : Pf C → Pf C
  pf_endfield pf = record pf {
    in_pct = false;
    size = Size.intsz;
    num = 0;
    sign = false;
    spacing = 0;
    rightspc = false;
    fillchar = b' ';
    base = 0;
    baseprefix = false;
    altformat = false;
  }

  -- The field width is an `int`.
  pub widen : ℕ → Pf C → Option (Pf C)
  widen width pf = if ltb width int_limit then some (record pf { spacing = width }) else none

  pub pf_modifier : Pf C → ℕ → Option (Pf C)
  pf_modifier pf ch =
      if ch == b'#'
      then some (record pf { altformat = true })
      else if ch == b'-'
      then some (record pf { rightspc = true })
      else if ch == b'l' || ch == b'q'
      then some (record pf { size = Size.longsz })
      else if ch == b'0'
      then (if ltb 0 pf.spacing
          then widen (pf.spacing * 10) pf
          else some (record pf { fillchar = b'0' }))
      else (assert (ltb b'0' ch && leb ch b'9') >> widen (pf.spacing * 10 + (ch - b'0')) pf)

  pub pf_getnum : Pf C → ℕ → Option (Pf C)
  pf_getnum pf ch = do
    (n, rest) ← next_word pf.ap
    if ch == b'd' && leb int_limit n
        then (negate n >>= λ num. some (record pf { ap = rest; sign = true; num = num }))
        else some (record pf { ap = rest; num = n })

  pub pf_setbase : Pf C → ℕ → Pf C
  pf_setbase pf ch = record pf {
    base =
        if ch == b'd' || ch == b'u'
        then 10
        else if ch == b'x' || ch == b'p'
        then 16
        else if ch == b'o'
        then 8
        else pf.base;
    baseprefix = pf.altformat || ch == b'p' || pf.baseprefix;
  }

  pub start : C → List Arg → Pf C
  start clientdata ap = pf_endfield (record {
    clientdata = clientdata;
    ap = ap;
    charcount = 0;
    in_pct = false;
    size = Size.intsz;
    num = 0;
    sign = false;
    spacing = 0;
    rightspc = false;
    fillchar = 0;
    base = 0;
    baseprefix = false;
    altformat = false;
  })

  module _ (sendfunc : C → List ℕ → C) where
    pub pf_print : Pf C → List ℕ → Pf C
    pf_print pf txt = record pf {
      clientdata = sendfunc pf.clientdata txt;
      charcount = (pf.charcount + length txt) % word_mod;
    }

    pub pf_fill : Pf C → ℕ → Pf C
    pf_fill pf zero = pf
    pf_fill pf (suc spc) = pf_fill (pf_print pf (pf.fillchar ∷ [])) spc

    pub pf_printstuff : Pf C → List ℕ → List ℕ → List ℕ → Pf C
    pf_printstuff pf prefix prefix2 stuff =
        let len = length prefix + length prefix2 + length stuff in
        let spc = if ltb len pf.spacing then pf.spacing - len else 0 in
        let zeros = pf.fillchar == b'0' in
        let pf1 = if ltb 0 spc && not pf.rightspc && not zeros then pf_fill pf spc else pf in
        let pf2 = pf_print (pf_print pf1 prefix) prefix2 in
        let pf3 = if ltb 0 spc && not pf.rightspc && zeros then pf_fill pf2 spc else pf2 in
        let pf4 = pf_print pf3 stuff in if ltb 0 spc && pf.rightspc then pf_fill pf4 spc else pf4

    pub pf_printnum : Pf C → Option (Pf C)
    pf_printnum pf = convert (number_buf_size - 1) pf.base pf.num [] >>= λ x.
        let bprefix =
          if pf.baseprefix && pf.base == 16
          then b'0' ∷ b'x' ∷ []
          else if pf.baseprefix && pf.base == 8
          then b'0' ∷ []
          else [] in
        let sprefix = if pf.sign then b'-' ∷ [] else [] in some (pf_printstuff pf sprefix bprefix x)

    -- %s, with the arguments that are left.
    pub print_text : Pf C → List Arg → Option (Pf C)
    print_text pf [] = none
    print_text pf (Arg.word n ∷ rest) = none
    print_text pf (Arg.text none ∷ rest) =
        some (pf_endfield (pf_printstuff (record pf { ap = rest }) [] [] null_text))
    print_text pf (Arg.text (some s) ∷ rest) =
        some (pf_endfield (pf_printstuff (record pf { ap = rest }) [] [] s))

    pub print_char : Pf C → ℕ → Option (Pf C)
    print_char pf ch =
        if ch == b'c'
        then (next_word pf.ap >>= λ (n, rest).
            some (pf_endfield (pf_printstuff (record pf { ap = rest }) [] [] (one_char (n % 256)))))
        else some (pf_endfield (pf_printstuff pf [] [] (one_char ch)))

    pub print_int : Pf C → ℕ → Option (Pf C)
    print_int pf ch = do
      pf1 ← pf_getnum pf ch
      pf2 ← pf_printnum (pf_setbase pf1 ch)
      some (pf_endfield pf2)

    pub pf_send : Pf C → ℕ → Option (Pf C)
    pf_send pf ch =
        assert (not (ch == 0))
        >> (if not pf.in_pct && not (ch == b'%')
            then some (pf_print pf (ch ∷ []))
            else if not pf.in_pct
            then some (record pf { in_pct = true })
            else if among modifiers ch
            then pf_modifier pf ch
            else if among int_types ch
            then print_int pf ch
            else if ch == b's'
            then print_text pf pf.ap
            else print_char pf ch)

    pub send_all : List ℕ → Pf C → Option (Pf C)
    send_all [] pf = some pf
    send_all (ch ∷ format) pf = pf_send pf ch >>= send_all format

    -- The count, and what the caller's function made.
    pub vprintf : C → List ℕ → List Arg → Option (ℕ × C)
    vprintf clientdata format ap =
        send_all format (start clientdata ap) >>= λ pf. some (pf.charcount, pf.clientdata)
