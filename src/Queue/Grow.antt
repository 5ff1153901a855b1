-- ===== src/Queue/Grow.antt =====
-- `q_addtail` where there is room, and what `q_grow` carries over into the new block.
use harvard_os.Prelude.{
  ℕ, zero, suc, ◌+◌, ◌-◌, ◌*◌, ◌/◌, ◌%◌, ◌^◌, ◌≤◌, ◌<◌, ◌≡◌, refl, sym, ap, ◌∙◌, Bool, true, false,
  Option, none, some, List, [], ◌∷◌, ◌++◌, arith, ltb, leb, lt→ltb, ◌==◌, Bool-cases, inl, inr,
  if◌then◌else◌, length, get_or, set, length-set, get_elem?-eq-get_or, length-append,
  length-replicate, word_mod,
}
use mathlib.Core.List.{append-nil, append_assoc}
use harvard_os.Errno.{enomem}
use harvard_os.Queue.{
  Queue, grow_size, fresh_queue, move_guys, q_grow, write_tail, nextnext, addtail_depth,
}
use harvard_os.Queue.Window.{
  wrap, mod-eq-wrap, window, window-set, count, contents, length-contents, IsValid,
}

-- The way from index `i` of a ring round to index `j`.
abbrev pub distance : ℕ → ℕ → ℕ → ℕ
distance size i j = if leb i j then j - i else j + size - i

module _ {ℓ} {V : Type ℓ} where
  -- There is room for one more guy; one slot of the ring always stays free.
  abbrev pub HasRoom : Queue V → Type 0
  HasRoom q = count q + 1 < q.size

  -- `q'` is `q` with `ptr` at the tail.
  pub record Added (ptr : Option V) (q q' : Queue V) : Type ℓ where
    pub valid : IsValid q'
    pub appended : contents q' ≡ contents q ++ (ptr ∷ [])
    pub same_size : q'.size ≡ q.size

  pub count-Added : {ptr : Option V} {q q' : Queue V} → Added ptr q q' → count q' ≡ count q + 1
  count-Added {ptr} {q} {q'} a = omega (
    arith,
    length-contents q,
    length-contents q',
    ap length a.appended,
    length-append (contents q) (ptr ∷ []),
  )

  pub nextnext-eq-wrap : (q : Queue V) → IsValid q → nextnext q ≡ wrap q.size (q.nextwrite + 1)
  nextnext-eq-wrap q v =
      mod-eq-wrap q.size (q.nextwrite + 1) (omega (arith, v.write_in, v.nonempty))

  -- The test of `q_addtail` says whether the ring is full.
  pub nextnext-HasRoom : (q : Queue V) → IsValid q → HasRoom q → (nextnext q == q.nextread) ≡ false
  nextnext-HasRoom q v r = rw (nextnext-eq-wrap q v) (ground (arith, v.write_in, v.read_in))

  pub nextnext-full :
      (q : Queue V) → IsValid q → q.size ≤ count q + 1 → (nextnext q == q.nextread) ≡ true
  nextnext-full q v r = rw (nextnext-eq-wrap q v) (ground (arith, v.write_in, v.read_in))

  pub write_tail_lem :
      (q : Queue V) (ptr : Option V)
      → IsValid q
      → HasRoom q
      → (q' : Queue V) × (write_tail q ptr (nextnext q) ≡ some (0, q')) × Added ptr q q'
  unfolding write_tail
  write_tail_lem q ptr v r =
      let next : ℕ = nextnext q in
      let q' : Queue V = record q { nextwrite = next; slots = set q.slots q.nextwrite ptr } in
      let counted : count q' ≡ suc (count q) = ground (arith, nextnext-eq-wrap q v) in
      (
        q',
        rw (lt→ltb q.nextwrite (length q.slots) (omega (arith, v.write_in, v.block))),
        record {
          valid = record {
            nonempty = v.nonempty;
            small = v.small;
            block = length-set q.slots q.nextwrite ptr ∙ v.block;
            write_in = omega (arith, v.nonempty);
            read_in = v.read_in;
          };
          appended = rw counted (
              window-set q.slots q.size (count q) q.nextread q.nextwrite ptr
                (omega (arith, v.block)) v.read_in (omega arith) (ground arith));
          same_size = refl;
        },
      )

  pub addtail_depth-HasRoom :
      (depth : ℕ) (mem : Bool) (q : Queue V) (ptr : Option V)
      → IsValid q
      → HasRoom q
      → (q' : Queue V) × (addtail_depth (suc depth) mem q ptr ≡ some (0, q')) × Added ptr q q'
  unfolding addtail_depth
  addtail_depth-HasRoom depth mem q ptr v r =
      let (q', e, a) = write_tail_lem q ptr v r in
      (q', rw (lt→ltb 0 q.size v.nonempty, nextnext-HasRoom q v r) e, a)

  -- What `q_addtail` does on a ring with room.
  abbrev pub AddsTail : (Queue V → Option V → Option (ℕ × Queue V)) → Type ℓ
  AddsTail addtail =
      (q : Queue V) (ptr : Option V)
      → IsValid q
      → HasRoom q
      → (q' : Queue V) × (addtail q ptr ≡ some (0, q')) × Added ptr q q'

  -- The copy loop appends the guys that are left in the old block, in order.
  pub move_guys_lem :
      (addtail : Queue V → Option V → Option (ℕ × Queue V))
      → AddsTail addtail
      → (rounds n i onw osize : ℕ) (old : List (Option V)) (q : Queue V) → IsValid q
      → i < osize
      → onw < osize
      → osize ≤ length old
      → n ≡ distance osize i onw
      → n ≤ rounds
      → count q + n < q.size
      → (q' : Queue V) × (move_guys addtail rounds i onw osize old q ≡ some q')
        × IsValid q'
        × (contents q' ≡ contents q ++ window old osize i n)
        × (q'.size ≡ q.size)
  unfolding move_guys
  move_guys_lem addtail adds zero zero i onw osize old q v hi hw len e fuel room =
      (q, ground arith, v, sym (append-nil (contents q)), refl)
  move_guys_lem addtail adds (suc rounds) zero i onw osize old q v hi hw len e fuel room =
      let stop : (i == onw) ≡ true = ground arith in
      (q, rw stop, v, sym (append-nil (contents q)), refl)
  move_guys_lem addtail adds zero (suc n) i onw osize old q v hi hw len e fuel room =
      absurd (omega arith)
  move_guys_lem addtail adds (suc rounds) (suc n) i onw osize old q v hi hw len e fuel room =
      let more : (i == onw) ≡ false = ground arith in
      let x : Option V = get_or old i none in
      let (q1, e1, a) = adds q x v (omega arith) in
      let next : (i + 1) % osize ≡ wrap osize (i + 1) = mod-eq-wrap osize (i + 1) (omega arith) in
      let (q2, e2, v2, c2, s2) =
        move_guys_lem addtail adds rounds n (wrap osize (i + 1)) onw osize old q1 a.valid
          (ground arith) hw len (ground arith) (omega arith)
          (omega (arith, count-Added a, a.same_size)) in
      (
        q2,
        rw (more, get_elem?-eq-get_or old i none (omega arith), e1, next) e2,
        v2,
        c2
            ∙ ap (λ l. l ++ window old osize (wrap osize (i + 1)) n) a.appended
            ∙ append_assoc (contents q) (x ∷ []) (window old osize (wrap osize (i + 1)) n),
        s2 ∙ a.same_size,
      )

-- The new size is at least the one that was asked for, and below 2 ^ 30 for a target below 2 ^ 29.
pub grow_size_total :
    (rounds nsize targetsize : ℕ)
    → 0 < nsize
    → targetsize ≤ nsize + rounds
    → targetsize < 2 ^ 29
    → nsize < 2 ^ 30
    → (m : ℕ) × (grow_size rounds nsize targetsize ≡ some m)
      × (targetsize ≤ m)
      × (nsize ≤ m)
      × (m < 2 ^ 30)
unfolding grow_size
grow_size_total zero nsize targetsize pos h small top =
    (nsize, ground arith, omega arith, omega arith, top)
grow_size_total (suc rounds) nsize targetsize pos h small top =
    elim (Bool-cases (ltb nsize targetsize)) [
      | inl more ↦
          let (m, e, p, q, r) =
            grow_size_total rounds (nsize * 2) targetsize (omega arith) (ground arith) small
              (ground arith) in
          (m, ground arith, p, omega arith, r)
      | inr done ↦ (nsize, ground arith, ground arith, omega arith, top)
    ]

module _ {ℓ} {V : Type ℓ} where
  pub fresh_queue-IsValid : (m : ℕ) → 0 < m → m < 2 ^ 30 → IsValid (fresh_queue {V = V} m)
  fresh_queue-IsValid m pos small = record {
    nonempty = pos;
    small = small;
    block = length-replicate {A = Option V} (m * 4 % word_mod / 4) none ∙ omega arith;
    write_in = pos;
    read_in = pos;
  }

  -- `q'` holds the guys of `q` in a ring of at least `targetsize` slots.
  pub record Grown (targetsize : ℕ) (q q' : Queue V) : Type ℓ where
    pub valid : IsValid q'
    pub kept : contents q' ≡ contents q
    pub enough : targetsize ≤ q'.size
    pub no_less : q.size ≤ q'.size

  -- `q_grow` keeps the guys and their order, if kmalloc succeeds.
  pub q_grow_lem :
      (addtail : Queue V → Option V → Option (ℕ × Queue V))
      → AddsTail addtail
      → (q : Queue V) (targetsize : ℕ) → IsValid q
      → targetsize < 2 ^ 29
      → (q' : Queue V) × (q_grow addtail true q targetsize ≡ some (0, q')) × Grown targetsize q q'
  unfolding q_grow
  q_grow_lem addtail adds q targetsize v small =
      let (m, em, p, le, r) =
        grow_size_total targetsize q.size targetsize v.nonempty (omega arith) small v.small in
      let new : Queue V = fresh_queue m in
      let (q', e, v', c, s) =
        move_guys_lem addtail adds q.size (count q) q.nextread q.nextwrite q.size q.slots new
          (fresh_queue-IsValid m (omega (arith, v.nonempty)) r) v.read_in v.write_in
          (omega (arith, v.block)) refl (ground (arith, v.read_in, v.write_in))
          (ground (arith, v.read_in, v.write_in)) in
      (q', rw (em, e), record { valid = v'; kept = c; enough = omega arith; no_less = omega arith })

  -- Out of memory: ENOMEM, and the queue as it was.
  pub q_grow-enomem :
      (addtail : Queue V → Option V → Option (ℕ × Queue V)) (q : Queue V) (targetsize : ℕ)
      → IsValid q
      → targetsize < 2 ^ 29
      → q_grow addtail false q targetsize ≡ some (enomem, q)
  unfolding q_grow
  q_grow-enomem addtail q targetsize v small =
      let (m, em, _, _, _) =
        grow_size_total targetsize q.size targetsize v.nonempty (omega arith) small v.small in
      rw em
