-- ===== src/Array/Grow.antt =====
-- `grow_max` and `copy_guys` of array.c: the new capacity, and what the copy loop leaves.
use harvard_os.Prelude.{
  ℕ, zero, suc, ◌+◌, ◌*◌, ◌/◌, ◌%◌, ◌^◌, ◌≤◌, ◌<◌, ◌≡◌, refl, Option, none, some, List, arith, ltb,
  lt→ltb, Bool-cases, inl, inr, length, get_elem?, get_or, set, length-set, get_elem?-set_self,
  get_elem?-set_ne, get_elem?-eq-get_or, length-replicate, ◌∙◌, sym, word_mod,
}
use native.Mathlib.Decide.{dec_lt}
use harvard_os.Array.{grow_max, write_slot, copy_guys, fresh_block}

-- Each round adds two at least, so `nguys` rounds are enough, and below 2 ^ 29 nothing overflows.
pub grow_max_total :
    (rounds nguys newmax : ℕ)
    → nguys ≤ newmax + 2 * rounds
    → nguys < 2 ^ 29
    → newmax < 2 ^ 30
    → (m : ℕ) × (grow_max rounds nguys newmax ≡ some m) × (nguys ≤ m) × (newmax ≤ m) × (m < 2 ^ 30)
unfolding grow_max
grow_max_total zero nguys newmax h small top =
    (newmax, ground arith, omega arith, omega arith, omega arith)
grow_max_total (suc rounds) nguys newmax h small top = elim (Bool-cases (ltb newmax nguys)) [
  | inl more ↦
      let (m, e, p, q, r) =
        grow_max_total rounds nguys ((newmax + 1) * 2) (ground arith) small (ground arith) in
      (m, ground arith, p, omega arith, r)
  | inr done ↦ (newmax, ground arith, ground arith, omega arith, top)
]

pub length-fresh_block {ℓ} : (V : Type ℓ) (m : ℕ) → m < 2 ^ 30 → length (fresh_block {V = V} m) ≡ m
length-fresh_block V m h = length-replicate {A = Option V} (m * 4 % word_mod / 4) none ∙ omega arith

module _ {ℓ} {V : Type ℓ} where
  pub write_slot-eq-some :
      (b : List (Option V)) (i : ℕ) (x : Option V)
      → i < length b
      → write_slot b i x ≡ some (set b i x)
  unfolding write_slot
  write_slot-eq-some b i x h = rw (lt→ltb i (length b) h)

  -- What the copy loop has done: the slots from `i` to `i + rounds` are those of `old`, and the
  -- rest of `new` is as it was.
  pub copy_guys_lem :
      (rounds i : ℕ) (old new : List (Option V))
      → i + rounds ≤ length old
      → i + rounds ≤ length new
      → (b : List (Option V)) × (copy_guys rounds i old new ≡ some b)
        × (length b ≡ length new)
        × ((j : ℕ) → j < i → get_elem? b j ≡ get_elem? new j)
        × ((j : ℕ) → i ≤ j → j < i + rounds → get_elem? b j ≡ get_elem? old j)
  unfolding copy_guys
  copy_guys_lem zero i old new p q = (new, refl, refl, λ j h. refl, λ j h k. absurd (omega arith))
  copy_guys_lem (suc rounds) i old new p q =
      let (b, e, len, before, copied) =
        copy_guys_lem rounds (i + 1) old (set new i here) (omega arith)
          (omega (arith, length-set new i here)) in
      (
        b,
        rw
            (
              get_elem?-eq-get_or old i none (omega arith),
              write_slot-eq-some new i here (omega arith),
            )
            e,
        len ∙ length-set new i here,
        (λ j h. before j (omega arith) ∙ get_elem?-set_ne new i j here (omega arith)),
        λ j h k. elim (dec_lt i j) [
          | yes later ↦ copied j (omega arith) (omega arith)
          | no same ↦ here_copied b before j (omega arith)
        ],
      )
    where
      here : Option V
      here = get_or old i none

      here_copied :
          (b : List (Option V))
          → ((j : ℕ) → j < i + 1 → get_elem? b j ≡ get_elem? (set new i here) j)
          → (j : ℕ) → j ≡ i
          → get_elem? b j ≡ get_elem? old j
      here_copied b before j e = rw e (
          before i (omega arith)
          ∙ get_elem?-set_self new i here (omega arith)
          ∙ sym (get_elem?-eq-get_or old i none (omega arith)))
