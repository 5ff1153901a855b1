-- ===== src/Array/Edit.antt =====
-- `array_setguy`, `array_add` and `array_remove` of array.c on the array's contents.
use harvard_os.Prelude.{
  ℕ, zero, suc, ◌+◌, ◌-◌, ◌^◌, ◌≤◌, ◌<◌, ◌≡◌, refl, ap, ◌∙◌, Bool, true, Option, some, List, [],
  ◌∷◌, ◌++◌, arith, lt→ltb, le→leb, ◌⊎◌, min, length, set, take, drop, length-set, length-take,
  length-append, length-drop, take-set, take-set_end,
}
use harvard_os.Array.{Array, slots, array_setguy, array_add, array_remove, move_down}
use harvard_os.Array.Grow.{write_slot-eq-some}
use harvard_os.Array.Resize.{IsValid, contents, array_setsize_lem}

module _ {ℓ} {A : Type ℓ} where
  take-append_left : (k : ℕ) (xs ys : List A) → k ≤ length xs → take k (take k xs ++ ys) ≡ take k xs
  take-append_left zero xs ys h = refl
  take-append_left (suc k) [] ys h = absurd (omega arith)
  take-append_left (suc k) (x ∷ xs) ys h = ap (◌∷◌ x) (take-append_left k xs ys (omega arith))

  -- Moving the `k` entries behind entry `i` down by one takes entry `i` out of the first `suc m`.
  moved_down :
      (i k m : ℕ) (b : List A)
      → m ≡ i + k
      → suc m ≤ length b
      → take m (take i b ++ (take k (drop (suc i) b) ++ drop m b))
        ≡ take i (take (suc m) b) ++ drop (suc i) (take (suc m) b)
  moved_down i k m [] e h = absurd (omega arith)
  moved_down zero k m (x ∷ xs) e h =
      let same : m ≡ k = omega arith in
      rw same (take-append_left k xs (drop k (x ∷ xs)) (omega arith))
  moved_down (suc i) k zero (x ∷ xs) e h = absurd (omega arith)
  moved_down (suc i) k (suc m) (x ∷ xs) e h =
      ap (◌∷◌ x) (moved_down i k m xs (omega arith) (omega arith))

  closed_gap :
      (b : List A) (n i k : ℕ)
      → n ≡ suc (i + k)
      → n ≤ length b
      → take (n - 1) (take i b ++ (take k (drop (i + 1) b) ++ drop (i + k) b))
        ≡ take i (take n b) ++ drop (i + 1) (take n b)
  closed_gap b n i k all h =
      let one : i + 1 ≡ suc i = omega arith in
      let last : n - 1 ≡ i + k = omega arith in
      rw (one, last, all) (moved_down i k (i + k) b refl (omega arith))

module _ {ℓ} {V : Type ℓ} where
  -- On a valid array `array_setguy` replaces one entry of the contents.
  pub array_setguy_lem :
      (a : Array V) (i : ℕ) (x : V)
      → IsValid a
      → i < a.num
      → (b : Array V) × (array_setguy a i x ≡ some b)
        × IsValid b
        × (contents b ≡ set (contents a) i (some x))
  unfolding array_setguy
  array_setguy_lem a i x v h = (
    record a { v = some (set (slots a) i (some x)) },
    rw (
      le→leb a.num a.max v.within,
      lt→ltb i a.num h,
      write_slot-eq-some (slots a) i (some x) (omega (arith, v.block, v.within)),
    ),
    record {
      within = v.within;
      block = length-set (slots a) i (some x) ∙ v.block;
      small = v.small;
    },
    take-set a.num (slots a) i (some x),
  )

  -- `array_add` appends the guy if there is room or kmalloc gives it.
  pub array_add_lem :
      (mem : Bool) (a : Array V) (x : V)
      → IsValid a
      → a.num + 1 < 2 ^ 29
      → (mem ≡ true) ⊎ (a.num + 1 ≤ a.max)
      → (b : Array V) × (array_add mem a x ≡ some (0, b))
        × IsValid b
        × (contents b ≡ contents a ++ (some x ∷ []))
        × (a.max ≤ b.max)
  unfolding array_add
  array_add_lem mem a x v small got =
      let (c, e, g) = array_setsize_lem mem a (a.num + 1) v small got in
      let room : a.num < length (slots c) =
        omega (arith, g.valid.block, g.valid.within, g.new_num) in
      (
        record c { v = some (set (slots c) a.num (some x)) },
        rw (e, write_slot-eq-some (slots c) a.num (some x) room),
        record {
          within = g.valid.within;
          block = length-set (slots c) a.num (some x) ∙ g.valid.block;
          small = g.valid.small;
        },
        ap (λ k. take k (set (slots c) a.num (some x))) {y = suc a.num} (omega (arith, g.new_num))
            ∙ take-set_end a.num (slots c) (some x) room
            ∙ ap (λ l. l ++ (some x ∷ [])) (rw min_suc at g.kept),
        g.no_less (omega arith),
      )
    where
      min_suc : min a.num (a.num + 1) ≡ a.num
      min_suc = omega arith

  -- `array_remove` takes one entry out and closes the gap.
  pub array_remove_lem :
      (a : Array V) (i : ℕ)
      → IsValid a
      → i < a.num
      → (b : Array V) × (array_remove a i ≡ some b)
        × IsValid b
        × (contents b ≡ take i (contents a) ++ drop (i + 1) (contents a))
        × (b.max ≡ a.max)
  unfolding array_remove move_down
  array_remove_lem a i v h = (
    record a { num = a.num - 1; v = some moved },
    rw (le→leb a.num a.max v.within, lt→ltb i a.num h, moves),
    record { within = omega arith; block = size; small = v.small },
    closed,
    refl,
  )
    where
      k : ℕ
      k = a.num - (i + 1)

      moved : List (Option V)
      moved = take i (slots a) ++ (take k (drop (i + 1) (slots a)) ++ drop (i + k) (slots a))

      moves : move_down (slots a) i k ≡ some moved
      moves = rw (move_down, le→leb (i + 1 + k) (length (slots a)) (omega (arith, v.block)))

      size : length moved ≡ a.max
      size = omega (
        arith,
        v.block,
        length-append (take i (slots a))
            (take k (drop (i + 1) (slots a)) ++ drop (i + k) (slots a)),
        length-append (take k (drop (i + 1) (slots a))) (drop (i + k) (slots a)),
        length-take i (slots a),
        length-take k (drop (i + 1) (slots a)),
        length-drop (i + 1) (slots a),
        length-drop (i + k) (slots a),
      )

      closed : take (a.num - 1) moved ≡ take i (contents a) ++ drop (i + 1) (contents a)
      closed = closed_gap (slots a) a.num i k (omega arith) (omega (arith, v.block))
