-- ===== src/Uio/Moves.antt =====
-- One call of uiomove that fits: what moves, and the counters.
use harvard_os.Prelude.{
  ℕ, zero, suc, ◌+◌, ◌-◌, ◌^◌, ◌≤◌, ◌<◌, ◌≡◌, refl, ap, ◌∙◌, ◌⊎◌, ◌≢◌, true, ==_iff, some, List, [],
  ◌∷◌, ◌++◌, arith, lt→ltb, take, drop, ◌>>=◌,
}
use harvard_os.Uio.{
  uio_read, Seg, sysspace, is_right_space, Uio, sub_word, next_copy, copy, advance, wants,
  round_size, move_loop, uiomove, mk_kuio,
}

-- A kernel data block with room for `n` more bytes.
pub record Fits (n : ℕ) (uio : Uio) : Type 0 where
  pub kernel : uio.uio_segflg ≡ sysspace
  pub space : uio.uio_space ≡ 0
  pub room : n ≤ uio.iov_len
  pub wanted : n ≤ uio.uio_resid
  pub small : uio.uio_resid < 2 ^ 32

pub sub_word-le : (a b : ℕ) → b ≤ a → a < 2 ^ 32 → sub_word a b ≡ a - b
sub_word-le a b h small = omega (arith, h, small)

-- The move of all `n` bytes at once, in either direction.
abbrev pub moved_all : ℕ → List ℕ → Uio → List ℕ × Uio
moved_all n buf uio = ((copy uio.uio_rw n buf uio).0, advance n (copy uio.uio_rw n buf uio).1)

take-drop-id {ℓ} : {A : Type ℓ} (n : ℕ) (xs : List A) → take n xs ++ drop n xs ≡ xs
take-drop-id zero xs = refl
take-drop-id (suc n) [] = refl
take-drop-id (suc n) (x ∷ xs) = ap (◌∷◌ x) (take-drop-id n xs)

minus_self : (n : ℕ) → n - n ≡ 0
minus_self n = omega arith

-- After the last byte the loop ends.
move_loop_end :
    (rounds : ℕ) (buf : List ℕ) (uio : Uio) → move_loop rounds 0 buf uio ≡ some (0, buf, uio)
unfolding move_loop wants
move_loop_end zero buf uio = refl
move_loop_end (suc rounds) buf uio = refl

next_copy-kernel :
    (seg : Seg) (copies : List (ℕ × ℕ)) → seg ≡ sysspace → next_copy seg copies ≡ ((0, 0), copies)
unfolding next_copy
next_copy-kernel seg copies e = ap (λ x. next_copy x copies) e

is_right_space-kernel :
    (seg : Seg) (space vmspace : ℕ)
    → seg ≡ sysspace
    → space ≡ 0
    → is_right_space seg space vmspace ≡ true
unfolding is_right_space
is_right_space-kernel seg space vmspace e z =
    ap (λ x. is_right_space x space vmspace) e ∙ (==_iff space 0).1 z

round_size-Fits : (n : ℕ) (uio : Uio) → Fits n uio → round_size n uio ≡ n
unfolding round_size
round_size-Fits n uio f = ground (arith, f.room)

wants-Fits : (n : ℕ) (uio : Uio) → Fits n uio → 0 < n → wants n uio ≡ true
unfolding wants
wants-Fits n uio f pos = rw (lt→ltb 0 n pos) (lt→ltb 0 uio.uio_resid (omega (arith, f.wanted)))

-- `uiomove` of a kernel block that fits moves all its bytes in one round, and counts them.
pub uiomove_lem :
    (n : ℕ) (buf : List ℕ) (uio : Uio)
    → 0 < n
    → Fits n uio
    → uiomove buf n uio ≡ some (0, (moved_all n buf uio).0, (moved_all n buf uio).1)
unfolding uiomove move_loop
uiomove_lem zero buf uio pos f = absurd (omega arith)
uiomove_lem (suc n) buf uio pos f =
    let size = round_size-Fits (suc n) uio f in
    let copied = next_copy-kernel uio.uio_segflg uio.copies f.kernel in
    rw
      (
        uiomove,
        is_right_space-kernel uio.uio_segflg uio.uio_space uio.t_vmspace f.kernel f.space,
        move_loop,
        wants-Fits (suc n) uio f (omega arith),
        size,
        lt→ltb 0 (suc n) (omega arith),
        copied,
        size,
        copied,
        minus_self (suc n),
        move_loop_end,
        ◌>>=◌,
      )
      (ap (λ b. some (0, b, (moved_all (suc n) buf uio).1))
        (take-drop-id (suc n) (copy uio.uio_rw (suc n) buf uio).0))

-- A move out of a kernel block and a move back into one with the same bytes: what was read is what
-- the buffer held, and the buffer that a write leaves starts with the bytes of the block.
pub uiomove-read :
    (n : ℕ) (buf : List ℕ) (pos : ℕ)
    → 0 < n
    → n < 2 ^ 32
    → (uio : Uio) × (uiomove buf n (mk_kuio [] n pos uio_read) ≡ some (0, buf, uio))
      × (uio.moved ≡ take n buf)
      × (uio.uio_resid ≡ 0)
      × (uio.uio_offset ≡ pos + n)
unfolding mk_kuio copy
uiomove-read n buf pos p small = (
  advance n (copy uio_read n buf (mk_kuio [] n pos uio_read)).1,
  uiomove_lem n buf (mk_kuio [] n pos uio_read) p (record {
    kernel = refl;
    space = refl;
    room = omega arith;
    wanted = omega arith;
    small = small;
  }),
  refl,
  omega (arith, small),
  refl,
)

-- A uio that has not moved: all but the results of copies to come is as it was.
abbrev pub Unmoved : Uio → Uio → Type 0
Unmoved uio uio1 =
    (uio1.iov_data ≡ uio.iov_data)
    × (uio1.moved ≡ uio.moved)
    × (uio1.iov_len ≡ uio.iov_len)
    × (uio1.uio_resid ≡ uio.uio_resid)
    × (uio1.uio_offset ≡ uio.uio_offset)

-- The result of the next copy to or from a process.
abbrev pub first_result : List (ℕ × ℕ) → ℕ
first_result [] = 0
first_result (c ∷ copies) = c.0

-- The three outcomes of `uiomove`: all is moved, nothing was wanted, or a copy has failed.
abbrev pub Moved : ℕ → List ℕ → Uio → ℕ → List ℕ → Uio → Type 0
Moved n buf uio result buf1 uio1 =
    ((result ≡ 0)
      × ((uio.uio_segflg ≡ sysspace) ⊎ (first_result uio.copies ≡ 0))
      × (buf1 ≡ (moved_all n buf uio).0)
      × (uio1.iov_len ≡ uio.iov_len - n)
      × (uio1.uio_resid ≡ sub_word uio.uio_resid n)
      × (uio1.uio_offset ≡ uio.uio_offset + n))
    ⊎ ((result ≡ 0) × (buf1 ≡ buf) × (uio1 ≡ uio) × ((n ≡ 0) ⊎ (uio.uio_resid ≡ 0)))
    ⊎ ((result ≢ 0)
        × (uio.uio_segflg ≢ sysspace)
        × ((part : ℕ) × (uio.copies ≡ (result, part) ∷ uio1.copies))
        × Unmoved uio uio1)
