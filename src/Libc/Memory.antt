-- ===== src/Libc/Memory.antt =====
-- os161/lib/libc/memcpy.c and memmove.c: copies in a memory of bytes, by words of four where both
-- addresses and the length allow it.
use harvard_os.Prelude.{
  ℕ, zero, suc, ◌+◌, ◌-◌, ◌*◌, ◌/◌, ◌%◌, ◌≤◌, ◌≡◌, refl, ◌∙◌, fun_ext, ap, ◌⊎◌, Bool, true, ◌&&◌,
  arith, ltb, leb, ◌==◌, if◌then◌else◌, Bool-cases, ltb→lt, inl, inr,
}

-- `*d = *s` for a value of `size` bytes: it is loaded, then stored.
pub assign : ℕ → ℕ → ℕ → (ℕ → ℕ) → ℕ → ℕ
assign size d s m x = if leb d x && ltb x (d + size) then m (s + (x - d)) else m x

-- The loop of `memcpy` at byte `o`, and those of `memmove`, for the rounds left.
pub copy_up : ℕ → ℕ → ℕ → ℕ → ℕ → (ℕ → ℕ) → ℕ → ℕ
copy_up zero size o d s m = m
copy_up (suc rounds) size o d s m =
    copy_up rounds size (o + size) d s (assign size (d + o) (s + o) m)

pub copy_down : ℕ → ℕ → ℕ → ℕ → (ℕ → ℕ) → ℕ → ℕ
copy_down zero size d s m = m
copy_down (suc i) size d s m = copy_down i size d s (assign size (d + i * size) (s + i * size) m)

pub by_words : ℕ → ℕ → ℕ → Bool
by_words dst src len = dst % 4 == 0 && src % 4 == 0 && len % 4 == 0

pub memcpy : ℕ → ℕ → ℕ → (ℕ → ℕ) → ℕ → ℕ
memcpy dst src len m =
    if by_words dst src len then copy_up (len / 4) 4 0 dst src m else copy_up len 1 0 dst src m

pub memmove : ℕ → ℕ → ℕ → (ℕ → ℕ) → ℕ → ℕ
memmove dst src len m =
    if ltb dst src
    then memcpy dst src len m
    else if by_words dst src len
    then copy_down (len / 4) 4 dst src m
    else copy_down len 1 dst src m

-- The copy of a whole region at once.
pub moved_at : ℕ → ℕ → ℕ → (ℕ → ℕ) → ℕ → ℕ
moved_at dst src len m x = if leb dst x && ltb x (dst + len) then m (src + (x - dst)) else m x

module _ (m : ℕ → ℕ) (x : ℕ) where
  same_cell : (y z : ℕ) → y ≡ z → m y ≡ m z
  same_cell y z e = ap m e

  -- The first cells, then the rest above them.
  up_step :
      (size n a b : ℕ)
      → a ≤ b
      → moved_at (a + size) (b + size) n (assign size a b m) x ≡ moved_at a b (size + n) m x
  unfolding moved_at assign
  up_step size n a b h =
      let e = same_cell (b + size + (x - (a + size))) (b + (x - a)) in ground arith

  -- The last cells, then the rest below them.
  down_step :
      (size n a b : ℕ)
      → b ≤ a
      → moved_at a b n (assign size (a + n) (b + n) m) x ≡ moved_at a b (size + n) m x
  unfolding moved_at assign
  down_step size n a b h = let e = same_cell (b + n + (x - (a + n))) (b + (x - a)) in ground arith

no_cells : (a b n : ℕ) (m : ℕ → ℕ) (x : ℕ) → n ≡ 0 → m x ≡ moved_at a b n m x
unfolding moved_at
no_cells a b n m x e = ground arith

-- One word more.
more :
    (rounds size a b : ℕ) (m : ℕ → ℕ) (x : ℕ)
    → moved_at a b (size + rounds * size) m x ≡ moved_at a b (suc rounds * size) m x
more rounds size a b m x =
    ap (λ n. moved_at a b n m x)
      (let e : size + rounds * size ≡ suc rounds * size = grind arith in e)

copy_up_lem :
    (rounds size o d s : ℕ) (m : ℕ → ℕ) (x : ℕ)
    → d ≤ s
    → copy_up rounds size o d s m x ≡ moved_at (d + o) (s + o) (rounds * size) m x
unfolding copy_up
copy_up_lem zero size o d s m x h = no_cells (d + o) (s + o) (0 * size) m x (omega arith)
copy_up_lem (suc rounds) size o d s m x h =
    let m1 = assign size (d + o) (s + o) m in
    let shift : moved_at (d + (o + size)) (s + (o + size)) (rounds * size) m1 x
        ≡ moved_at (d + o + size) (s + o + size) (rounds * size) m1 x =
      rw
        (
          let e : d + (o + size) ≡ d + o + size = omega arith in e,
          let e : s + (o + size) ≡ s + o + size = omega arith in e,
        )
        refl in
    copy_up_lem rounds size (o + size) d s m1 x h
    ∙ shift
    ∙ up_step m x size (rounds * size) (d + o) (s + o) (omega (arith, h))
    ∙ more rounds size (d + o) (s + o) m x

copy_from_start :
    (rounds size d s : ℕ) (m : ℕ → ℕ) (x : ℕ)
    → d ≤ s
    → copy_up rounds size 0 d s m x ≡ moved_at d s (rounds * size) m x
copy_from_start rounds size d s m x h =
    let d0 : d + 0 ≡ d = omega arith in
    let s0 : s + 0 ≡ s = omega arith in rw (d0, s0) at (copy_up_lem rounds size 0 d s m x h)

copy_down_lem :
    (i size d s : ℕ) (m : ℕ → ℕ) (x : ℕ)
    → s ≤ d
    → copy_down i size d s m x ≡ moved_at d s (i * size) m x
unfolding copy_down
copy_down_lem zero size d s m x h = no_cells d s (0 * size) m x (omega arith)
copy_down_lem (suc i) size d s m x h =
    copy_down_lem i size d s (assign size (d + i * size) (s + i * size) m) x h
    ∙ down_step m x size (i * size) d s h
    ∙ more i size d s m x

-- The number of bytes of the words.
by_words-len : (dst src len : ℕ) → by_words dst src len ≡ true → len / 4 * 4 ≡ len
unfolding by_words
by_words-len dst src len h = ground arith

pub memcpy_lem :
    (dst src len : ℕ) (m : ℕ → ℕ) (x : ℕ)
    → dst ≤ src
    → memcpy dst src len m x ≡ moved_at dst src len m x
unfolding memcpy
memcpy_lem dst src len m x h = elim (Bool-cases (by_words dst src len)) [
  | inl words ↦ rw words (
      copy_from_start (len / 4) 4 dst src m x h
      ∙ ap (λ n. moved_at dst src n m x) (by_words-len dst src len words))
  | inr bytes ↦
      rw bytes
        (copy_from_start len 1 dst src m x h ∙ ap (λ n. moved_at dst src n m x) (omega arith))
]

down_lem :
    (dst src len : ℕ) (m : ℕ → ℕ) (x : ℕ)
    → src ≤ dst
    → (if by_words dst src len then copy_down (len / 4) 4 dst src m else copy_down len 1 dst src m)
        x
      ≡ moved_at dst src len m x
down_lem dst src len m x h = elim (Bool-cases (by_words dst src len)) [
  | inl words ↦ rw words (
      copy_down_lem (len / 4) 4 dst src m x h
      ∙ ap (λ n. moved_at dst src n m x) (by_words-len dst src len words))
  | inr bytes ↦
      rw bytes (copy_down_lem len 1 dst src m x h ∙ ap (λ n. moved_at dst src n m x) (omega arith))
]

-- memmove is the copy of the whole region at once, however the two regions overlap, and on both of
-- its directions, by words and by bytes.
pub memmove-moved_at :
    (dst src len : ℕ) (m : ℕ → ℕ) → memmove dst src len m ≡ moved_at dst src len m
unfolding memmove
memmove-moved_at dst src len m = fun_ext (λ x. elim (Bool-cases (ltb dst src)) [
  | inl before ↦ rw before (memcpy_lem dst src len m x (omega (arith, ltb→lt dst src before)))
  | inr after ↦ rw after (down_lem dst src len m x (ground arith))
])

-- The same for a region above the source that it does not overlap.
up_step_above :
    (m : ℕ → ℕ) (x size n a b : ℕ)
    → b + (size + n) ≤ a
    → moved_at (a + size) (b + size) n (assign size a b m) x ≡ moved_at a b (size + n) m x
unfolding moved_at assign
up_step_above m x size n a b h =
    let e = same_cell m x (b + size + (x - (a + size))) (b + (x - a)) in ground arith

copy_up_above :
    (rounds size o d s : ℕ) (m : ℕ → ℕ) (x : ℕ)
    → s + (o + rounds * size) ≤ d
    → copy_up rounds size o d s m x ≡ moved_at (d + o) (s + o) (rounds * size) m x
unfolding copy_up
copy_up_above zero size o d s m x h = no_cells (d + o) (s + o) (0 * size) m x (omega arith)
copy_up_above (suc rounds) size o d s m x h =
    let m1 = assign size (d + o) (s + o) m in
    let e : size + rounds * size ≡ suc rounds * size = grind arith in
    let d1 : d + (o + size) ≡ d + o + size = omega arith in
    let s1 : s + (o + size) ≡ s + o + size = omega arith in
    let shift : moved_at (d + (o + size)) (s + (o + size)) (rounds * size) m1 x
        ≡ moved_at (d + o + size) (s + o + size) (rounds * size) m1 x =
      rw (d1, s1) refl in
    copy_up_above rounds size (o + size) d s m1 x (omega (arith, h, e))
    ∙ shift
    ∙ up_step_above m x size (rounds * size) (d + o) (s + o) (omega (arith, h, e))
    ∙ more rounds size (d + o) (s + o) m x

copy_above_start :
    (rounds size d s : ℕ) (m : ℕ → ℕ) (x : ℕ)
    → s + rounds * size ≤ d
    → copy_up rounds size 0 d s m x ≡ moved_at d s (rounds * size) m x
copy_above_start rounds size d s m x h =
    let d0 : d + 0 ≡ d = omega arith in
    let s0 : s + 0 ≡ s = omega arith in
    rw (d0, s0) at (copy_up_above rounds size 0 d s m x (omega (arith, h)))

-- memcpy to a region that lies above the source.
memcpy_above :
    (dst src len : ℕ) (m : ℕ → ℕ) (x : ℕ)
    → src + len ≤ dst
    → memcpy dst src len m x ≡ moved_at dst src len m x
unfolding memcpy
memcpy_above dst src len m x h = elim (Bool-cases (by_words dst src len)) [
  | inl words ↦
      let all = by_words-len dst src len words in
      rw words (
        copy_above_start (len / 4) 4 dst src m x (omega (arith, h, all))
        ∙ ap (λ n. moved_at dst src n m x) all)
  | inr bytes ↦ rw bytes (
      copy_above_start len 1 dst src m x (omega (arith, h))
      ∙ ap (λ n. moved_at dst src n m x) (omega arith))
]

-- memcpy between regions that do not overlap.
pub memcpy_disjoint :
    (dst src len : ℕ) (m : ℕ → ℕ)
    → (src + len ≤ dst) ⊎ (dst + len ≤ src)
    → memcpy dst src len m ≡ moved_at dst src len m
memcpy_disjoint dst src len m (inl h) = fun_ext (λ x. memcpy_above dst src len m x h)
memcpy_disjoint dst src len m (inr h) = fun_ext (λ x. memcpy_lem dst src len m x (omega (arith, h)))
