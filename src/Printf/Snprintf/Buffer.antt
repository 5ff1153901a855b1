-- ===== src/Printf/Snprintf/Buffer.antt =====
-- vsnprintf against a description of the whole buffer.
use harvard_os.Prelude.{
  ℕ, zero, suc, ◌+◌, ◌-◌, ◌<◌, ◌≤◌, ◌≡◌, refl, sym, ap, ◌∙◌, fun_ext, ◌&&◌, Option, none, ◌%◌,
  word_mod, some, List, [], ◌∷◌, ◌++◌, ltb, leb, if◌then◌else◌, update_at, get_or, take, length,
  length-append, length-take, min, arith, ◌>>=◌, Option-cases, inl, inr, le→ltb, ne→==, lt→ltb,
}
use native.Mathlib.Decide.{dec_lt}
use mathlib.Core.List.{append_assoc, append-nil}
use harvard_os.Printf.{Arg, vprintf}
use harvard_os.Printf.Snprintf.{Snp, store_char, snprintf_send, vsnprintf}
use harvard_os.Printf.Counts.{recounted, vprintf-recounted}
use harvard_os.Printf.Through.{vprintf-through}

-- The memory with `str` at `buf`.
pub stored : (ℕ → ℕ) → ℕ → List ℕ → ℕ → ℕ
stored memory buf str j =
    if leb buf j && ltb j (buf + length str) then get_or str (j - buf) 0 else memory j

get_or-snoc_last : (xs : List ℕ) (c : ℕ) → get_or (xs ++ (c ∷ [])) (length xs) 0 ≡ c
get_or-snoc_last [] c = refl
get_or-snoc_last (x ∷ xs) c = get_or-snoc_last xs c

get_or-snoc : (xs : List ℕ) (c i : ℕ) → i < length xs → get_or (xs ++ (c ∷ [])) i 0 ≡ get_or xs i 0
get_or-snoc [] c i h = absurd (omega arith)
get_or-snoc (x ∷ xs) c zero h = refl
get_or-snoc (x ∷ xs) c (suc i) h = get_or-snoc xs c i (omega arith)

take_all : (n : ℕ) (xs : List ℕ) → length xs ≤ n → take n xs ≡ xs
take_all zero [] h = refl
take_all zero (x ∷ xs) h = absurd (omega arith)
take_all (suc n) [] h = refl
take_all (suc n) (x ∷ xs) h = ap (◌∷◌ x) (take_all n xs (omega arith))

take_front : (n : ℕ) (xs ys : List ℕ) → n ≤ length xs → take n (xs ++ ys) ≡ take n xs
take_front zero xs ys h = refl
take_front (suc n) [] ys h = absurd (omega arith)
take_front (suc n) (x ∷ xs) ys h = ap (◌∷◌ x) (take_front n xs ys (omega arith))

module _ (memory : ℕ → ℕ) (buf : ℕ) where
  stored-nil : stored memory buf [] ≡ memory
  unfolding stored
  stored-nil = fun_ext λ j. ground arith

  stored-snoc :
      (str : List ℕ) (c : ℕ)
      → update_at (stored memory buf str) (buf + length str) c ≡ stored memory buf (str ++ (c ∷ []))
  unfolding stored
  stored-snoc str c = fun_ext λ j. ground (
    arith,
    length-append str (c ∷ []),
    get_or-snoc_last str c,
    get_or-snoc str c (j - buf),
    ap (λ i. get_or (str ++ (c ∷ [])) i 0) (let e : j - buf ≡ j - buf = refl in e),
  )

  module _ (buflen : ℕ) where
    abbrev holding : List ℕ → Snp
    holding out = record {
      memory = stored memory buf (take buflen out);
      buf = buf;
      buflen = buflen;
      bufpos = min buflen (length out);
    }

    store_char-holding :
        (out : List ℕ) (c : ℕ) → holding (out ++ (c ∷ [])) ≡ store_char (holding out) c
    unfolding store_char
    store_char-holding out c = elim (dec_lt (length out) buflen) [
      | yes room ↦
          let e = length-append out (c ∷ []) in
          let m : min buflen (length out) ≡ length out = omega arith in
          let m' : min buflen (length (out ++ (c ∷ []))) ≡ length out + 1 = omega arith in
          let r : length out < buflen = room in
          rw
            (
              take_all buflen (out ++ (c ∷ [])) (omega arith),
              take_all buflen out (omega arith),
              m,
              m',
              lt→ltb _ _ r,
              stored-snoc out c,
            )
            refl
      | no full ↦
          let e = length-append out (c ∷ []) in
          let m : min buflen (length out) ≡ buflen = omega arith in
          let m' : min buflen (length (out ++ (c ∷ []))) ≡ buflen = omega arith in
          rw
            (
              take_front buflen out (c ∷ []) (omega arith),
              m,
              m',
              le→ltb buflen buflen (omega arith),
            )
            refl
    ]

    holding-append : (out str : List ℕ) → holding (out ++ str) ≡ snprintf_send (holding out) str
    unfolding snprintf_send
    holding-append out [] = ap holding (append-nil out)
    holding-append out (c ∷ str) =
        ap holding (sym (append_assoc out (c ∷ []) str))
        ∙ holding-append (out ++ (c ∷ [])) str
        ∙ ap (λ s. snprintf_send s str) (store_char-holding out c)

    holding-nil : holding [] ≡ record { memory = memory; buf = buf; buflen = buflen; bufpos = 0 }
    holding-nil =
        let m : min buflen 0 ≡ 0 = omega arith in
        rw (take_all buflen [] (omega arith), stored-nil, m) refl

    -- What vprintf makes of an empty buffer.
    vprintf-holding :
        (fmt : List ℕ) (args : List Arg)
        → vprintf snprintf_send
            (record { memory = memory; buf = buf; buflen = buflen; bufpos = 0 })
            fmt
            args
          ≡ (vprintf ◌++◌ [] fmt args >>= λ (chars, out). some (chars, holding out))
    vprintf-holding fmt args =
        ap (λ snp. vprintf snprintf_send snp fmt args) (sym holding-nil)
        ∙ vprintf-through ◌++◌ snprintf_send holding holding-append [] fmt args

    end-stored :
        (out : List ℕ)
        → update_at (stored memory buf (take buflen out)) (buf + min buflen (length out)) 0
          ≡ stored memory buf (take buflen out ++ (0 ∷ []))
    end-stored out = rw (← length-take buflen out) (stored-snoc (take buflen out) 0)

  pred : (n : ℕ) → suc n - 1 ≡ n
  pred n = omega arith

  stores :
      (len : ℕ) (fmt : List ℕ) (args : List Arg)
      → vsnprintf memory buf len fmt args ≡ (
          vprintf ◌++◌ [] fmt args >>= λ (chars, out). some (
            chars,
            (if ltb 0 len then stored memory buf (take (len - 1) out ++ (0 ∷ [])) else memory),
          ))
  unfolding vsnprintf
  stores zero fmt args = elim (Option-cases (vprintf ◌++◌ [] fmt args)) [
    | inl e ↦ rw (vprintf-holding 0 fmt args, e) refl
    | inr ((chars, out), e) ↦
        rw (vprintf-holding 0 fmt args, e) (ap (λ m. some (chars, m)) stored-nil)
  ]
  stores (suc n) fmt args = elim (Option-cases (vprintf ◌++◌ [] fmt args)) [
    | inl e ↦
        rw
          (
            pred n,
            ne→== (suc n) 0 (omega arith),
            lt→ltb 0 (suc n) (omega arith),
            vprintf-holding n fmt args,
            e,
          )
          refl
    | inr ((chars, out), e) ↦
        rw
          (
            pred n,
            ne→== (suc n) 0 (omega arith),
            lt→ltb 0 (suc n) (omega arith),
            vprintf-holding n fmt args,
            e,
          )
          (ap (λ m. some (chars, m)) (end-stored n out))
  ]

  -- vsnprintf stores the first len - 1 characters that the format prints and a null, and leaves the
  -- rest of the memory alone; it returns the count of all of them, as a word. With len 0 it stores
  -- nothing, and it has no result exactly if __vprintf has none.
  pub vsnprintf_lem :
      (len : ℕ) (fmt : List ℕ) (args : List Arg)
      → vsnprintf memory buf len fmt args ≡ (
          vprintf ◌++◌ [] fmt args >>= λ (chars, out). some (
            length out % word_mod,
            (if ltb 0 len then stored memory buf (take (len - 1) out ++ (0 ∷ [])) else memory),
          ))
  vsnprintf_lem len fmt args =
      stores len fmt args
      ∙ ap (λ m. bind m (ending len)) (vprintf-recounted fmt args)
      ∙ recount (vprintf ◌++◌ [] fmt args)
    where
      ending : ℕ → ℕ × List ℕ → Option (ℕ × (ℕ → ℕ))
      ending n p =
          some (p.0, (if ltb 0 n then stored memory buf (take (n - 1) p.1 ++ (0 ∷ [])) else memory))

      bind : Option (ℕ × List ℕ) → (ℕ × List ℕ → Option (ℕ × (ℕ → ℕ))) → Option (ℕ × (ℕ → ℕ))
      bind m k = m >>= k

      recount :
          (m : Option (ℕ × List ℕ))
          → bind (recounted m) (ending len) ≡ (
              m >>= λ (chars, out). some (
                length out % word_mod,
                (if ltb 0 len then stored memory buf (take (len - 1) out ++ (0 ∷ [])) else memory),
              ))
      recount none = refl
      recount (some p) = refl
