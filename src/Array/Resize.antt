-- ===== src/Array/Resize.antt =====
-- The array's contents, and what changing its size does to them, errors included.
use harvard_os.Prelude.{
  ℕ, ◌^◌, ◌≤◌, ◌<◌, ◌≡◌, refl, sym, ◌∙◌, Bool, true, false, Option, none, some, List, [], arith,
  ltb, ◌==◌, lt→ltb, le→ltb, le→leb, Bool-cases, inl, inr, ◌⊎◌, ◌&&◌, min, length, get_elem?, take,
  get_elem?-eq-none, get_elem?-take, length-take, take-ext,
}
use harvard_os.Errno.{enomem}
use harvard_os.Array.{
  Array, slots, fresh_block, array_getguy, array_preallocate, array_setsize, is_null,
}
use harvard_os.Array.Grow.{grow_max_total, copy_guys_lem, length-fresh_block}

min_zero : (n : ℕ) → min n 0 ≡ 0
min_zero n = omega arith

module _ {ℓ} {V : Type ℓ} where
  -- The representation invariant: `v` points to `max` slots, and `num` of them are in use.
  pub record IsValid (a : Array V) : Type 0 where
    pub within : a.num ≤ a.max
    pub block : length (slots a) ≡ a.max
    pub small : a.max < 2 ^ 30

  abbrev pub contents : Array V → List (Option V)
  contents a = take a.num (slots a)

  pub length-contents : (a : Array V) → IsValid a → length (contents a) ≡ a.num
  length-contents a v = length-take a.num (slots a) ∙ omega arith

  -- On a valid array `array_getguy` reads the contents, and outside them its assert fails.
  pub array_getguy_lem :
      (a : Array V) (i : ℕ) → IsValid a → array_getguy a i ≡ get_elem? (contents a) i
  unfolding array_getguy
  array_getguy_lem a i v = elim (Bool-cases (ltb i a.num)) [
    | inl inside ↦
        rw (le→leb a.num a.max v.within, inside)
          (sym (get_elem?-take a.num (slots a) i (ground arith)))
    | inr outside ↦
        rw (le→leb a.num a.max v.within, outside)
          (sym (get_elem?-eq-none (contents a) i (ground (arith, length-contents a v))))
  ]

  -- What an array offers a caller who asked for room for `nguys`.
  pub record Grown (nguys : ℕ) (a b : Array V) : Type ℓ where
    pub valid : IsValid b
    pub kept : contents b ≡ contents a
    pub same_num : b.num ≡ a.num
    pub room : nguys ≤ b.max
    pub no_less : a.max ≤ b.max

  -- If kmalloc succeeds, `array_preallocate` makes room and keeps the contents.
  pub array_preallocate_lem :
      (a : Array V) (nguys : ℕ)
      → IsValid a
      → nguys < 2 ^ 29
      → (b : Array V) × (array_preallocate true a nguys ≡ some (0, b)) × Grown nguys a b
  unfolding array_preallocate
  array_preallocate_lem a nguys v small =
      let (m, em, p, q, r) = grow_max_total nguys nguys a.max (omega arith) small v.small in
      let (b, eb, len, before, copied) =
        copy_guys_lem a.num 0 (slots a) (fresh_block m) (omega (arith, v.block))
          (omega (arith, length-fresh_block V m r)) in
      let len' : length b ≡ m = len ∙ length-fresh_block V m r in
      (
        record a { max = m; v = some b },
        rw (le→leb a.num a.max v.within, em, eb),
        record {
          valid = record { within = omega arith; block = len'; small = r };
          kept =
              take-ext a.num b (slots a) (omega arith) (omega (arith, v.block))
                (λ i h. copied i (omega arith) (omega arith));
          same_num = refl;
          room = p;
          no_less = q;
        },
      )

  -- If kmalloc fails, `array_preallocate` returns ENOMEM and leaves the array alone.
  pub array_preallocate-enomem :
      (a : Array V) (nguys : ℕ)
      → IsValid a
      → nguys < 2 ^ 29
      → array_preallocate false a nguys ≡ some (enomem, a)
  unfolding array_preallocate
  array_preallocate-enomem a nguys v small =
      let (m, em, _, _, _) = grow_max_total nguys nguys a.max (omega arith) small v.small in
      rw (le→leb a.num a.max v.within, em)

  not_null :
      (o : Option (List (Option V))) {m : ℕ}
      → m < length (elim o [ none ↦ [] | some b ↦ b ])
      → is_null o ≡ false
  not_null none h = absurd (omega arith)
  not_null (some b) h = refl

  -- What `array_setsize` leaves: the new size, and the guys that both sizes have.
  pub record Resized (nguys : ℕ) (a b : Array V) : Type ℓ where
    pub valid : IsValid b
    pub new_num : b.num ≡ nguys
    pub kept : take (min a.num nguys) (slots b) ≡ take (min a.num nguys) (slots a)
    pub no_less : 0 < nguys → a.max ≤ b.max

  array_setsize_grow :
      (mem : Bool) (a : Array V) (nguys : ℕ)
      → IsValid a
      → nguys < 2 ^ 29
      → a.max < nguys
      → (mem ≡ true) ⊎ (nguys ≤ a.max)
      → (b : Array V) × (array_setsize mem a nguys ≡ some (0, b)) × Resized nguys a b
  unfolding array_setsize
  array_setsize_grow mem a nguys v small more (inr fits) = absurd (omega arith)
  array_setsize_grow mem a nguys v small more (inl got) =
      let (b, e, g) = array_preallocate_lem a nguys v small in
      let same : min a.num nguys ≡ b.num = omega (arith, v.within, g.same_num) in
      (
        record b { num = nguys },
        rw (le→leb a.num a.max v.within, lt→ltb a.max nguys more, got, e),
        record {
          valid = record { within = g.room; block = g.valid.block; small = g.valid.small };
          new_num = refl;
          kept = rw (same, g.same_num) (rw g.same_num at g.kept);
          no_less = λ h. g.no_less;
        },
      )

  array_setsize_clear :
      (mem : Bool) (a : Array V) (nguys : ℕ)
      → IsValid a
      → nguys ≡ 0
      → 16 < a.max
      → (b : Array V) × (array_setsize mem a nguys ≡ some (0, b)) × Resized nguys a b
  unfolding array_setsize
  array_setsize_clear mem a nguys v zero' big = (
    record { num = nguys; max = 0; v = none },
    rw (
      le→leb a.num a.max v.within,
      le→ltb a.max nguys (omega arith),
      zero',
      lt→ltb 16 a.max big,
      not_null a.v {m = 16} (omega (arith, v.block)),
    ),
    record {
      valid = record { within = omega arith; block = refl; small = omega arith };
      new_num = refl;
      kept = rw (zero', min_zero a.num);
      no_less = λ h. absurd (omega arith);
    },
  )

  -- `array_setsize` succeeds if it needs no memory or gets it.
  pub array_setsize_lem :
      (mem : Bool) (a : Array V) (nguys : ℕ)
      → IsValid a
      → nguys < 2 ^ 29
      → (mem ≡ true) ⊎ (nguys ≤ a.max)
      → (b : Array V) × (array_setsize mem a nguys ≡ some (0, b)) × Resized nguys a b
  unfolding array_setsize
  array_setsize_lem mem a nguys v small got = elim (Bool-cases (ltb a.max nguys)) [
    | inl grow ↦ array_setsize_grow mem a nguys v small (ground arith) got
    | inr fits ↦ elim (Bool-cases (nguys == 0 && ltb 16 a.max)) [
      | inl drop_all ↦ array_setsize_clear mem a nguys v (ground arith) (ground arith)
      | inr keep ↦ (
        record a { num = nguys },
        rw (le→leb a.num a.max v.within, fits, keep),
        record {
          valid = record { within = ground arith; block = v.block; small = v.small };
          new_num = refl;
          kept = refl;
          no_less = λ h. omega arith;
        },
      )
    ]
  ]
