-- ===== src/Queue/Window.antt =====
-- The guys of a ring buffer, oldest first, and the two ways in which they change.
use harvard_os.Prelude.{
  ℕ, zero, suc, ◌+◌, ◌-◌, ◌%◌, ◌^◌, ◌≤◌, ◌<◌, ◌≡◌, refl, ap, ◌≢◌, Option, none, List, [], ◌∷◌, ◌++◌,
  arith, ltb, leb, if◌then◌else◌, length, get_or, set, get_or-set_self, get_or-set_ne,
}
use native.Mathlib.Nat.{mod-eq_of_lt, mod-eq-sub-mod}
use native.Mathlib.Decide.{dec_lt}
use harvard_os.Queue.{Queue}

-- An index that has run at most once past the end, brought back.
abbrev pub wrap : ℕ → ℕ → ℕ
wrap cap k = if ltb k cap then k else k - cap

pub mod-eq-wrap : (cap k : ℕ) → k < cap + cap → k % cap ≡ wrap cap k
mod-eq-wrap cap k h = elim (dec_lt k cap) [
  | yes p ↦ ground (arith, mod-eq_of_lt {n = k} {m = cap} p)
  | no p ↦ ground (
    arith,
    mod-eq-sub-mod {n = k} {m = cap} (omega arith),
    mod-eq_of_lt {n = k - cap} {m = cap} (omega arith),
  )
]

module _ {ℓ} {V : Type ℓ} where
  -- The `n` slots from index `h` on, going round at `cap`.
  abbrev pub window : List (Option V) → ℕ → ℕ → ℕ → List (Option V)
  window b cap h zero = []
  window b cap h (suc n) = get_or b h none ∷ window b cap (wrap cap (h + 1)) n

  pub length-window : (b : List (Option V)) (cap h n : ℕ) → length (window b cap h n) ≡ n
  length-window b cap h zero = refl
  length-window b cap h (suc n) = ap suc (length-window b cap (wrap cap (h + 1)) n)

  -- Writing just past a window that does not fill the ring extends it.
  pub window-set :
      (b : List (Option V)) (cap n h i : ℕ) (x : Option V)
      → cap ≤ length b
      → h < cap
      → n < cap
      → i ≡ wrap cap (h + n)
      → window (set b i x) cap h (suc n) ≡ window b cap h n ++ (x ∷ [])
  window-set b cap zero h i x len hh hn e =
      let here : i ≡ h = ground arith in rw (here, get_or-set_self b h x none (omega arith))
  window-set b cap (suc n) h i x len hh hn e =
      let apart : i ≢ h = ground arith in
      rw (get_or-set_ne b i h x none apart) (
        ap (◌∷◌ (get_or b h none)) (
          window-set b cap n (wrap cap (h + 1)) i x len (ground arith) (omega arith)
            (ground arith)))

  -- How many guys a queue holds, and which.
  abbrev pub count : Queue V → ℕ
  count q =
      if leb q.nextread q.nextwrite
      then q.nextwrite - q.nextread
      else q.nextwrite + q.size - q.nextread

  abbrev pub contents : Queue V → List (Option V)
  contents q = window q.slots q.size q.nextread (count q)

  pub length-contents : (q : Queue V) → length (contents q) ≡ count q
  length-contents q = length-window q.slots q.size q.nextread (count q)

-- The representation invariant of `struct queue`.
pub record IsValid {ℓ} {V : Type ℓ} (q : Queue V) : Type 0 where
  pub nonempty : 0 < q.size
  pub small : q.size < 2 ^ 30
  pub block : length q.slots ≡ q.size
  pub write_in : q.nextwrite < q.size
  pub read_in : q.nextread < q.size
