-- ===== src/Queue/Refine.antt =====
-- A valid queue behaves as the list of its guys, oldest first, which grows without bound while
-- kmalloc succeeds.
use harvard_os.Prelude.{
  ℕ, suc, ◌+◌, ◌%◌, ◌^◌, ◌≤◌, ◌<◌, ◌≡◌, refl, sym, ap, ◌∙◌, ◌↔◌, ◌⊎◌, Bool, true, false, Option,
  none, some, [], ◌∷◌, ◌++◌, arith, ltb, lt→ltb, le→ltb, ◌==◌, Bool-cases, inl, inr, length, get_or,
  get_elem?-eq-get_or,
}
use native.Mathlib.Decide.{dec_lt}
use harvard_os.Errno.{enomem}
use harvard_os.Queue.{Queue, q_empty, addtail_depth, q_addtail, q_preallocate, q_remhead}
use harvard_os.Queue.Window.{wrap, mod-eq-wrap, window, count, contents, length-contents, IsValid}
use harvard_os.Queue.Grow.{
  HasRoom, nextnext-full, addtail_depth-HasRoom, write_tail_lem, AddsTail, Grown, q_grow_lem,
  q_grow-enomem,
}

module _ {ℓ} {V : Type ℓ} where
  pub q_addtail-AddsTail : (mem : Bool) → AddsTail (q_addtail {V = V} mem)
  unfolding q_addtail
  q_addtail-AddsTail mem q ptr v r = addtail_depth-HasRoom 1 mem q ptr v r

  count-of_kept : (q q' : Queue V) → contents q' ≡ contents q → count q' ≡ count q
  count-of_kept q q' e = omega (arith, ap length e, length-contents q, length-contents q')

  pub count-lt-size : (q : Queue V) → IsValid q → count q < q.size
  count-lt-size q v = ground (arith, v.write_in, v.read_in)

  -- `q_addtail` puts the pointer behind the others if there is room or kmalloc gives it, in a ring
  -- of fewer than 2^29 - 1 slots; a full ring grows first, and its guys keep their order.
  pub q_addtail_lem :
      (mem : Bool) (q : Queue V) (ptr : Option V)
      → IsValid q
      → q.size + 1 < 2 ^ 29
      → (mem ≡ true) ⊎ HasRoom q
      → (q' : Queue V) × (q_addtail mem q ptr ≡ some (0, q'))
        × IsValid q'
        × (contents q' ≡ contents q ++ (ptr ∷ []))
        × (q.size ≤ q'.size)
  unfolding q_addtail addtail_depth
  q_addtail_lem mem q ptr v small (inr room) =
      let (q', e, a) = addtail_depth-HasRoom 1 mem q ptr v room in
      (q', e, a.valid, a.appended, omega (arith, a.same_size))
  q_addtail_lem mem q ptr v small (inl got) = elim (dec_lt (count q + 1) q.size) [
    | yes room ↦
        let (q', e, a) = addtail_depth-HasRoom 1 mem q ptr v room in
        (q', e, a.valid, a.appended, omega (arith, a.same_size))
    | no full ↦
        let (q1, e1, g) =
          q_grow_lem (addtail_depth 1 true) (addtail_depth-HasRoom 0 true) q (q.size + 1) v small in
        let (q2, e2, a) =
          write_tail_lem q1 ptr g.valid
            (omega (arith, count-of_kept q q1 g.kept, g.enough, count-lt-size q v)) in
        (
          q2,
          rw (got, lt→ltb 0 q.size v.nonempty, nextnext-full q v (omega (arith, full)), e1) e2,
          a.valid,
          a.appended ∙ ap (λ l. l ++ (ptr ∷ [])) g.kept,
          omega (arith, a.same_size, g.no_less),
        )
  ]

  -- Without memory a full queue refuses the pointer and stays as it was.
  pub q_addtail-enomem :
      (q : Queue V) (ptr : Option V)
      → IsValid q
      → q.size + 1 < 2 ^ 29
      → ¬ HasRoom q
      → q_addtail false q ptr ≡ some (enomem, q)
  unfolding q_addtail addtail_depth
  q_addtail-enomem q ptr v small full = rw (
    lt→ltb 0 q.size v.nonempty,
    nextnext-full q v (omega (arith, full)),
    q_grow-enomem (addtail_depth 1 false) q (q.size + 1) v small,
  )

  -- `q_remhead` takes the oldest pointer; on an empty queue its assert fails.
  pub q_remhead_lem :
      (q : Queue V)
      → IsValid q
      → ((contents q ≡ []) × (q_remhead q ≡ none))
        ⊎ ((ptr : Option V) × (q' : Queue V) × (contents q ≡ ptr ∷ contents q')
            × (q_remhead q ≡ some (ptr, q'))
            × IsValid q'
            × (q'.size ≡ q.size))
  unfolding q_remhead q_empty
  q_remhead_lem q v = elim (Bool-cases (q.nextwrite == q.nextread)) [
    | inl e ↦
        let nothing : count q ≡ 0 = ground arith in
        inl (rw nothing refl, rw (lt→ltb 0 q.size v.nonempty, e))
    | inr e ↦
        let next : (q.nextread + 1) % q.size ≡ wrap q.size (q.nextread + 1) =
          mod-eq-wrap q.size (q.nextread + 1) (omega (arith, v.read_in)) in
        let q' : Queue V = record q { nextread = (q.nextread + 1) % q.size } in
        let ptr : Option V = get_or q.slots q.nextread none in
        let counted : count q ≡ suc (count q') = ground (arith, v.read_in, v.write_in, next) in
        inr (
          ptr,
          q',
          rw counted (ap (λ r. ptr ∷ window q.slots q.size r (count q')) (sym next)),
          rw (
            lt→ltb 0 q.size v.nonempty,
            e,
            get_elem?-eq-get_or q.slots q.nextread none (omega (arith, v.block, v.read_in)),
          ),
          record {
            nonempty = v.nonempty;
            small = v.small;
            block = v.block;
            write_in = v.write_in;
            read_in = omega (arith, v.nonempty);
          },
          refl,
        )
  ]

  -- `q_empty` tells whether any guys are left.
  pub q_empty_lem : (q : Queue V) → IsValid q → (q_empty q ≡ true) ↔ (contents q ≡ [])
  unfolding q_empty
  q_empty_lem q v = (
    (λ e. let nothing : count q ≡ 0 = ground arith in rw nothing refl),
    λ e. ground (arith, v.read_in, v.write_in, length-contents q, ap length e),
  )

  -- `q_preallocate` leaves a ring of at least `size` slots with the same guys.
  pub q_preallocate_lem :
      (q : Queue V) (size : ℕ)
      → IsValid q
      → size < 2 ^ 29
      → (q' : Queue V) × (q_preallocate true q size ≡ some (0, q')) × Grown size q q'
  unfolding q_preallocate
  q_preallocate_lem q size v small = elim (Bool-cases (ltb q.size size)) [
    | inl more ↦
        let (q', e, g) = q_grow_lem (q_addtail true) (q_addtail-AddsTail true) q size v small in
        (q', rw (lt→ltb 0 q.size v.nonempty, more) e, g)
    | inr fits ↦ (
      q,
      rw (lt→ltb 0 q.size v.nonempty, fits),
      record { valid = v; kept = refl; enough = ground arith; no_less = omega arith },
    )
  ]

  -- A ring of `size` slots that `q_preallocate` finds large enough holds `size - 1` guys: without
  -- memory it refuses one more.
  pub q_preallocate_short :
      (q : Queue V) (ptr : Option V)
      → IsValid q
      → q.size + 1 < 2 ^ 29
      → length (contents q) + 1 ≡ q.size
      → (q_preallocate false q q.size ≡ some (0, q)) × (q_addtail false q ptr ≡ some (enomem, q))
  unfolding q_preallocate
  q_preallocate_short q ptr v small full = (
    rw (lt→ltb 0 q.size v.nonempty, le→ltb q.size q.size (omega arith)),
    q_addtail-enomem q ptr v small (λ room. omega (arith, room, full, length-contents q)),
  )
