-- ===== src/Array.antt =====
-- os161/kern/lib/array.c: the resizeable array of void pointers, operation by operation.
-- An index is a number from 0 on (the source's asserts refuse a negative one). A slot that was
-- never written holds `none`. Where the source calls kmalloc, `mem` says whether it succeeds.
pub mod Grow
pub mod Resize
pub mod Edit
mod Tests
use harvard_os.Prelude.{
  ℕ, zero, suc, ◌+◌, ◌-◌, ◌*◌, ◌/◌, ◌%◌, Bool, true, false, ◌&&◌, Option, none, some, List, [], ◌∷◌,
  ◌++◌, ltb, leb, ◌==◌, if◌then◌else◌, length, get_elem?, get_or, set, take, drop, replicate, ◌>>=◌,
  ◌>>◌, assert, int_limit, word_mod,
}
use harvard_os.Errno.{enomem}

-- `struct array`; `v` is `none` for the null pointer.
pub record Array {ℓ} (V : Type ℓ) : Type ℓ where
  pub num : ℕ
  pub max : ℕ
  pub v : Option (List (Option V))

-- `while (nguys > newmax) newmax = (newmax+1)*2;`, with the number of rounds bounded.
pub grow_max : ℕ → ℕ → ℕ → Option ℕ
grow_max zero nguys newmax = if ltb newmax nguys then none else some newmax
grow_max (suc rounds) nguys newmax =
    let rest = grow_max rounds nguys ((newmax + 1) * 2) in
    if ltb newmax nguys
    then (if ltb ((newmax + 1) * 2) int_limit then rest else none)
    else some newmax

module _ {ℓ} {V : Type ℓ} where
  -- The slots that `v` points to.
  abbrev pub slots : Array V → List (Option V)
  slots a = elim a.v [ none ↦ [] | some b ↦ b ]

  -- A block of `newmax * sizeof(void *)` bytes, with the product's wrap-around.
  abbrev pub fresh_block : ℕ → List (Option V)
  fresh_block newmax = replicate (newmax * 4 % word_mod / 4) none

  -- `*p = guy` for slot `i` of a block; outside the block there is no result.
  pub write_slot : List (Option V) → ℕ → Option V → Option (List (Option V))
  write_slot b i x = if ltb i (length b) then some (set b i x) else none

  -- `for (; i<num; i++) newv[i] = a->v[i];` for the rounds left.
  pub copy_guys : ℕ → ℕ → List (Option V) → List (Option V) → Option (List (Option V))
  copy_guys zero i old new = some new
  copy_guys (suc rounds) i old new = do
    x ← get_elem? old i
    new' ← write_slot new i x
    copy_guys rounds (i + 1) old new'

  pub array_create : Bool → Option (Array V)
  array_create mem = if mem then some (record { num = 0; max = 0; v = none }) else none

  abbrev pub array_getnum : Array V → ℕ
  array_getnum a = a.num

  pub array_getguy : Array V → ℕ → Option (Option V)
  array_getguy a index = do
    assert (leb a.num a.max)
    assert (ltb index a.num)
    get_elem? (slots a) index

  pub array_preallocate : Bool → Array V → ℕ → Option (ℕ × Array V)
  array_preallocate mem a nguys = do
    assert (leb a.num a.max)
    newmax ← grow_max nguys nguys a.max
    if mem
        then (copy_guys a.num 0 (slots a) (fresh_block newmax) >>= λ newv.
            some (0, record a { max = newmax; v = some newv }))
        else some (enomem, a)

  -- The end of `array_setsize` after a reallocation: an error is handed on, else the size is set.
  abbrev set_num : ℕ → ℕ × Array V → Option (ℕ × Array V)
  set_num nguys (result, a) =
      if result == 0 then some (0, record a { num = nguys }) else some (result, a)

  abbrev is_null : Option (List (Option V)) → Bool
  is_null none = true
  is_null (some b) = false

  pub array_setsize : Bool → Array V → ℕ → Option (ℕ × Array V)
  array_setsize mem a nguys = do
    assert (leb a.num a.max)
    if ltb a.max nguys
        then (array_preallocate mem a nguys >>= set_num nguys)
        else if nguys == 0 && ltb 16 a.max
        then (if is_null a.v then none else some (0, record { num = nguys; max = 0; v = none }))
        else some (0, record a { num = nguys })

  pub array_setguy : Array V → ℕ → V → Option (Array V)
  array_setguy a index ptr = do
    assert (leb a.num a.max)
    assert (ltb index a.num)
    b ← write_slot (slots a) index (some ptr)
    some (record a { v = some b })

  -- The end of `array_add`: an error is handed on, else the guy goes into slot `ix`.
  abbrev add_at : ℕ → V → ℕ × Array V → Option (ℕ × Array V)
  add_at ix guy (result, a) =
      if result == 0
      then (write_slot (slots a) ix (some guy) >>= λ b. some (0, record a { v = some b }))
      else some (result, a)

  pub array_add : Bool → Array V → V → Option (ℕ × Array V)
  array_add mem a guy = array_setsize mem a (a.num + 1) >>= add_at a.num guy

  -- `memmove(v+index, v+index+1, nmove words)`: no result outside the block.
  pub move_down : List (Option V) → ℕ → ℕ → Option (List (Option V))
  move_down b index nmove =
      if leb (index + 1 + nmove) (length b)
      then some (take index b ++ (take nmove (drop (index + 1) b) ++ drop (index + nmove) b))
      else none

  pub array_remove : Array V → ℕ → Option (Array V)
  array_remove a index = do
    assert (leb a.num a.max)
    assert (ltb index a.num)
    b ← move_down (slots a) index (a.num - (index + 1))
    some (record a { num = a.num - 1; v = some b })
