-- ===== src/Uio/Delivers.antt =====
-- What a read delivers to a kernel data block, moved in one piece or as zeros.
use harvard_os.Prelude.{
  ℕ, zero, suc, ◌+◌, ◌-◌, ◌≤◌, ◌<◌, ◌≡◌, refl, sym, ap, subst, ◌∙◌, some, List, [], ◌∷◌, ◌++◌,
  arith, ltb, lt→ltb, if◌then◌else◌, take, replicate,
}
use mathlib.Core.List.{append-nil, append_assoc}
use harvard_os.Uio.{Rw, uio_read, Uio, copy, advance, uiomove, zeros_loop, is_read, uiomovezeros}
use harvard_os.Uio.Moves.{Fits, moved_all, uiomove_lem, sub_word-le}

-- The uio after `n` bytes have been delivered, which are appended to those it has.
pub record Delivers (n : ℕ) (bytes : List ℕ) (uio uio1 : Uio) : Type 0 where
  pub bytes_are : uio1.moved ≡ uio.moved ++ bytes
  pub len : uio1.iov_len ≡ uio.iov_len - n
  pub resid : uio1.uio_resid ≡ uio.uio_resid - n
  pub offset : uio1.uio_offset ≡ uio.uio_offset + n
  pub segment : uio1.uio_segflg ≡ uio.uio_segflg
  pub space : uio1.uio_space ≡ uio.uio_space
  pub direction : uio1.uio_rw ≡ uio.uio_rw

pub Delivers-trans :
    (n k : ℕ) (bytes more : List ℕ) (uio uio1 uio2 : Uio)
    → Delivers n bytes uio uio1
    → Delivers k more uio1 uio2
    → Delivers (n + k) (bytes ++ more) uio uio2
Delivers-trans n k bytes more uio uio1 uio2 d e = record {
  bytes_are = e.bytes_are ∙ ap (λ l. l ++ more) d.bytes_are ∙ append_assoc uio.moved bytes more;
  len = omega (arith, e.len, d.len);
  resid = omega (arith, e.resid, d.resid);
  offset = omega (arith, e.offset, d.offset);
  segment = e.segment ∙ d.segment;
  space = e.space ∙ d.space;
  direction = e.direction ∙ d.direction;
}

copy-read :
    (n : ℕ) (buf : List ℕ) (rw : Rw) (uio : Uio)
    → rw ≡ uio_read
    → copy rw n buf uio ≡ copy uio_read n buf uio
copy-read n buf rw uio e = ap (λ r. copy r n buf uio) e

-- uiomove on a read delivers the first bytes of the buffer.
pub uiomove-Delivers :
    (n : ℕ) (buf : List ℕ) (uio : Uio)
    → 0 < n
    → Fits n uio
    → uio.uio_rw ≡ uio_read
    → (uiomove buf n uio ≡ some (0, buf, (moved_all n buf uio).1))
      × Delivers n (take n buf) uio (moved_all n buf uio).1
unfolding copy
uiomove-Delivers n buf uio pos f r = (
  uiomove_lem n buf uio pos f
      ∙ ap (λ c. some (0, c.0, advance n (copy uio.uio_rw n buf uio).1))
          (copy-read n buf uio.uio_rw uio r),
  subst (λ c. Delivers n (take n buf) uio (advance n c.1)) (sym (copy-read n buf uio.uio_rw uio r))
      (record {
        bytes_are = refl;
        len = refl;
        resid = sub_word-le uio.uio_resid n f.wanted f.small;
        offset = refl;
        segment = refl;
        space = refl;
        direction = refl;
      }),
)

-- The same room, less what was delivered.
pub still-Fits :
    (n k : ℕ) (bytes : List ℕ) (uio uio1 : Uio)
    → Delivers k bytes uio uio1
    → Fits (k + n) uio
    → Fits n uio1
still-Fits n k bytes uio uio1 d f = record {
  kernel = d.segment ∙ f.kernel;
  space = d.space ∙ f.space;
  room = omega (arith, d.len, f.room);
  wanted = omega (arith, d.resid, f.wanted);
  small = omega (arith, d.resid, f.small);
}

pub less-Fits : (n k : ℕ) (uio : Uio) → n ≤ k → Fits k uio → Fits n uio
less-Fits n k uio h f = record {
  kernel = f.kernel;
  space = f.space;
  room = omega (arith, h, f.room);
  wanted = omega (arith, h, f.wanted);
  small = f.small;
}

take-replicate : (n k : ℕ) → n ≤ k → take {A = ℕ} n (replicate k 0) ≡ replicate n 0
take-replicate zero k h = refl
take-replicate (suc n) zero h = absurd (omega (arith, h))
take-replicate (suc n) (suc k) h = ap (◌∷◌ 0) (take-replicate n k (omega (arith, h)))

replicate-add : (n k : ℕ) → replicate {A = ℕ} n 0 ++ replicate k 0 ≡ replicate (n + k) 0
replicate-add zero k = ap (λ m. replicate m 0) (omega arith)
replicate-add (suc n) k =
    let e : suc (n + k) ≡ suc n + k = omega arith in
    ap (◌∷◌ 0) (replicate-add n k) ∙ ap (λ m. replicate m 0) e

pub nothing : (uio : Uio) → Delivers 0 [] uio uio
nothing uio = record {
  bytes_are = sym (append-nil uio.moved);
  len = omega arith;
  resid = omega arith;
  offset = omega arith;
  segment = refl;
  space = refl;
  direction = refl;
}

-- What one round moves.
abbrev zeros_amount : ℕ → ℕ
zeros_amount n = if ltb n 16 then n else 16

zeros_amount-pos : (n : ℕ) → 0 < zeros_amount (suc n)
zeros_amount-pos n = ground arith

zeros_amount-le : (n : ℕ) → zeros_amount n ≤ n
zeros_amount-le n = ground arith

zeros_amount-small : (n : ℕ) → zeros_amount n ≤ 16
zeros_amount-small n = ground arith

all_zeros :
    (n amt : ℕ) (uio uio2 : Uio)
    → amt ≤ n
    → amt ≤ 16
    → Delivers (amt + (n - amt)) (take amt (replicate 16 0) ++ replicate (n - amt) 0) uio uio2
    → Delivers n (replicate n 0) uio uio2
all_zeros n amt uio uio2 h small d =
    let e : amt + (n - amt) ≡ n = omega (arith, h) in
    let bytes : take {A = ℕ} amt (replicate 16 0) ++ replicate (n - amt) 0 ≡ replicate n 0 =
      ap (λ l. l ++ replicate (n - amt) 0) (take-replicate amt 16 small)
      ∙ replicate-add amt (n - amt)
      ∙ ap (λ m. replicate m 0) e in
    rw (bytes, e) at d

-- The loop of uiomovezeros delivers zeros.
pub zeros_loop-Delivers :
    (rounds n : ℕ) (uio : Uio)
    → n ≤ rounds
    → Fits n uio
    → uio.uio_rw ≡ uio_read
    → (uio1 : Uio) × (zeros_loop rounds n uio ≡ some (0, uio1))
      × Delivers n (replicate n 0) uio uio1
unfolding zeros_loop
zeros_loop-Delivers zero zero uio h f r = (uio, refl, nothing uio)
zeros_loop-Delivers zero (suc n) uio h f r = absurd (omega (arith, h))
zeros_loop-Delivers (suc rounds) zero uio h f r = (uio, refl, nothing uio)
zeros_loop-Delivers (suc rounds) (suc n) uio h f r =
    let amt = zeros_amount (suc n) in
    let pos = zeros_amount-pos n in
    let le = zeros_amount-le (suc n) in
    let uio1 = (moved_all amt (replicate 16 0) uio).1 in
    let (ran, first) =
      uiomove-Delivers amt (replicate 16 0) uio pos (less-Fits amt (suc n) uio le f) r in
    let rest_fits =
      still-Fits (suc n - amt) amt (take amt (replicate 16 0)) uio uio1 first
        (less-Fits (amt + (suc n - amt)) (suc n) uio (omega (arith, le)) f) in
    let (uio2, ran2, second) =
      zeros_loop-Delivers rounds (suc n - amt) uio1 (omega (arith, h, pos)) rest_fits
        (first.direction ∙ r) in
    (
      uio2,
      rw (zeros_loop, lt→ltb 0 (suc n) (omega arith), ran) ran2,
      all_zeros (suc n) amt uio uio2 le (zeros_amount-small (suc n)) (
          Delivers-trans amt (suc n - amt) (take amt (replicate 16 0)) (replicate (suc n - amt) 0)
            uio uio1 uio2 first second),
    )

pub uiomovezeros-Delivers :
    (n : ℕ) (uio : Uio)
    → Fits n uio
    → uio.uio_rw ≡ uio_read
    → (uio1 : Uio) × (uiomovezeros n uio ≡ some (0, uio1)) × Delivers n (replicate n 0) uio uio1
unfolding uiomovezeros
uiomovezeros-Delivers n uio f r =
    let (uio1, ran, d) = zeros_loop-Delivers n n uio (omega arith) f r in
    (uio1, rw (uiomovezeros, ap is_read r) ran, d)

-- A read leaves the kernel's buffer as it was.
pub moved_all-read :
    (n : ℕ) (buf : List ℕ) (uio : Uio) → uio.uio_rw ≡ uio_read → (moved_all n buf uio).0 ≡ buf
unfolding copy
moved_all-read n buf uio r = ap (λ c. c.0) (copy-read n buf uio.uio_rw uio r)
