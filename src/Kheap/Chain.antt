-- ===== src/Kheap/Chain.antt =====
-- The free list of a page: blocks that link to each other by their first words.
use harvard_os.Prelude.{
  ℕ, zero, suc, ◌+◌, ◌-◌, ◌*◌, ◌/◌, ◌≤◌, ◌<◌, ◌≡◌, refl, sym, ap, subst, ◌∙◌, ◌≢◌, ◌⊎◌, inl, inr,
  List, [], ◌∷◌, arith, length, update_at, update_at_self, update_at_other,
}
use native.Mathlib.Decide.{dec_lt}
use native.Mathlib.Nat.{suc-mul}
use harvard_os.Kheap.{fill_from, fill_deadbeef, link_from}

-- The blocks of the list are the page's with these numbers, from the address `fla` on.
abbrev pub IsChain : ℕ → ℕ → (ℕ → ℕ) → ℕ → List ℕ → Type 0
IsChain page size words fla [] = fla ≡ 0
IsChain page size words fla (q ∷ qs) =
    (fla ≡ page + q * size) × IsChain page size words (words (page + q * size)) qs

abbrev pub NotIn : ℕ → List ℕ → Type 0
NotIn q [] = Unit
NotIn q (c ∷ qs) = (q ≢ c) × NotIn q qs

abbrev pub Distinct : List ℕ → Type 0
Distinct [] = Unit
Distinct (q ∷ qs) = NotIn q qs × Distinct qs

-- Every block lies in the page.
abbrev pub InPage : ℕ → List ℕ → Type 0
InPage size [] = Unit
InPage size (q ∷ qs) = (q * size + size ≤ 4096) × InPage size qs

-- Multiples of a size lie at least that size apart.
next_multiple : (size q d : ℕ) → q * size + size ≤ (q + suc d) * size
next_multiple size q zero =
    let e : (q + 1) * size ≡ q * size + size = grind arith in omega (arith, e)
next_multiple size q (suc d) =
    let e : (q + suc (suc d)) * size ≡ (q + suc d) * size + size = grind arith in
    omega (arith, e, next_multiple size q d)

pub multiple_lt : (size q c : ℕ) → q < c → q * size + size ≤ c * size
multiple_lt size q c h =
    let e : q + suc (c - q - 1) ≡ c = omega arith in
    subst (λ m. q * size + size ≤ m * size) e (next_multiple size q (c - q - 1))

pub apart : (size q c : ℕ) → q ≢ c → (q * size + size ≤ c * size) ⊎ (c * size + size ≤ q * size)
apart size q c ne = elim (dec_lt q c) [
  | yes h ↦ inl (multiple_lt size q c h)
  | no h ↦ inr (multiple_lt size c q (omega arith))
]

-- The words of a block are the only ones that change.
abbrev pub SameOutside : ℕ → ℕ → (ℕ → ℕ) → (ℕ → ℕ) → Type 0
SameOutside ptr len words words1 = (a : ℕ) → (a < ptr) ⊎ (ptr + len ≤ a) → words1 a ≡ words a

fill_from_outside :
    (rounds ptr : ℕ) (words : ℕ → ℕ)
    → SameOutside ptr (4 * rounds) words (fill_from rounds ptr words)
unfolding fill_from
fill_from_outside zero ptr words a h = refl
fill_from_outside (suc rounds) ptr words a h =
    fill_from_outside rounds (ptr + 4) (update_at words ptr 3735928559) a (shift h)
    ∙ update_at_other words ptr a 3735928559 (apart_from h)
  where
    shift : (a < ptr) ⊎ (ptr + 4 * suc rounds ≤ a) → (a < ptr + 4) ⊎ (ptr + 4 + 4 * rounds ≤ a)
    shift (inl l) = inl (omega arith)
    shift (inr r) = inr (omega arith)

    apart_from : (a < ptr) ⊎ (ptr + 4 * suc rounds ≤ a) → a ≢ ptr
    apart_from (inl l) e = omega (arith, l, e)
    apart_from (inr r) e = omega (arith, r, e)

pub fill_deadbeef-SameOutside :
    (ptr len : ℕ) (words : ℕ → ℕ) → SameOutside ptr len words (fill_deadbeef ptr len words)
unfolding fill_deadbeef
fill_deadbeef-SameOutside ptr len words a (inl l) = fill_from_outside (len / 4) ptr words a (inl l)
fill_deadbeef-SameOutside ptr len words a (inr r) =
    fill_from_outside (len / 4) ptr words a (inr (omega arith))

-- A chain does not look at a block that is not in it.
pub IsChain-frame :
    (page size q fla : ℕ) (qs : List ℕ) (words words1 : ℕ → ℕ)
    → 0 < size
    → SameOutside (page + q * size) size words words1
    → NotIn q qs
    → IsChain page size words fla qs
    → IsChain page size words1 fla qs
IsChain-frame page size q fla [] words words1 pos same other h = h
IsChain-frame page size q fla (c ∷ qs) words words1 pos same (ne, other) (e, h) =
    let rest =
      IsChain-frame page size q (words (page + c * size)) qs words words1 pos same other h in
    (
      e,
      subst (λ a. IsChain page size words1 a qs)
          (sym (same (page + c * size) (outside (apart size q c ne)))) rest,
    )
  where
    outside :
        (q * size + size ≤ c * size) ⊎ (c * size + size ≤ q * size)
        → (page + c * size < page + q * size) ⊎ (page + q * size + size ≤ page + c * size)
    outside (inl l) = inr (omega arith)
    outside (inr r) = inl (omega arith)

-- The blocks below a number, the last one first.
unfoldable pub down_from : ℕ → List ℕ
down_from zero = []
down_from (suc k) = k ∷ down_from k

pub NotIn-down_from : (k q : ℕ) → k ≤ q → NotIn q (down_from k)
unfolding down_from
NotIn-down_from zero q h = tt
NotIn-down_from (suc k) q h = ((λ e. omega (arith, h, e)), NotIn-down_from k q (omega arith))

pub Distinct-down_from : (k : ℕ) → Distinct (down_from k)
unfolding down_from
Distinct-down_from zero = tt
Distinct-down_from (suc k) = (NotIn-down_from k k (omega arith), Distinct-down_from k)

pub InPage-down_from : (k size : ℕ) → k * size ≤ 4096 → InPage size (down_from k)
unfolding down_from
InPage-down_from zero size h = tt
InPage-down_from (suc k) size h =
    let e : suc k * size ≡ k * size + size = suc-mul k size in
    (omega (arith, e, h), InPage-down_from k size (omega (arith, e, h)))

pub length-down_from : (k : ℕ) → length (down_from k) ≡ k
unfolding down_from
length-down_from zero = refl
length-down_from (suc k) = ap suc (length-down_from k)

pub update-SameOutside :
    (ptr len v : ℕ) (words : ℕ → ℕ) → 0 < len → SameOutside ptr len words (update_at words ptr v)
update-SameOutside ptr len v words pos a (inl l) =
    update_at_other words ptr a v (λ e. omega (arith, l, e))
update-SameOutside ptr len v words pos a (inr r) =
    update_at_other words ptr a v (λ e. omega (arith, r, e, pos))

-- One round of the loop that links a new page.
one_more :
    (page size i : ℕ) (words : ℕ → ℕ)
    → 0 < size
    → IsChain page size words (page + i * size) (down_from (suc i))
    → IsChain page size
        (update_at words (page + suc i * size) (page + (suc i - 1) * size))
        (page + suc i * size)
        (down_from (suc (suc i)))
unfolding down_from
one_more page size i words pos h =
    let words1 : ℕ → ℕ = update_at words (page + suc i * size) (page + (suc i - 1) * size) in
    let back : suc i - 1 ≡ i = omega arith in
    let link : words1 (page + suc i * size) ≡ page + i * size =
      update_at_self words (page + suc i * size) (page + (suc i - 1) * size)
      ∙ ap (λ k. page + k * size) back in
    let framed =
      IsChain-frame page size (suc i) (page + i * size) (down_from (suc i)) words words1 pos
        (update-SameOutside (page + suc i * size) size (page + (suc i - 1) * size) words pos)
        (NotIn-down_from (suc i) (suc i) (omega arith)) h in
    (refl, subst (λ a. IsChain page size words1 a (down_from (suc i))) (sym link) framed)

-- The loop that links a new page makes the chain of its blocks.
pub link_from_lem :
    (rounds i page size : ℕ) (words : ℕ → ℕ)
    → 0 < size
    → IsChain page size words (page + i * size) (down_from (suc i))
    → IsChain page size
        (link_from rounds (suc i) page size words)
        (page + (i + rounds) * size)
        (down_from (suc (i + rounds)))
unfolding link_from
link_from_lem zero i page size words pos h =
    let e : i ≡ i + 0 = omega arith in
    subst (λ k. IsChain page size words (page + k * size) (down_from (suc k))) e h
link_from_lem (suc rounds) i page size words pos h =
    let e : suc i + rounds ≡ i + suc rounds = omega arith in
    let words1 : ℕ → ℕ = update_at words (page + suc i * size) (page + (suc i - 1) * size) in
    subst
      (λ k.
        IsChain page size (link_from rounds (suc (suc i)) page size words1) (page + k * size)
          (down_from (suc k)))
      e (link_from_lem rounds (suc i) page size words1 pos (one_more page size i words pos h))

-- The first block of a page, which ends the chain.
pub first_block :
    (page size : ℕ) (words : ℕ → ℕ)
    → IsChain page size (update_at words page 0) (page + 0 * size) (down_from 1)
unfolding down_from
first_block page size words =
    let e : page ≡ page + 0 * size = omega arith in
    (refl, subst (λ a. update_at words page 0 a ≡ 0) e (update_at_self words page 0))
