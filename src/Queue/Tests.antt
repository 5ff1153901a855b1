-- ===== src/Queue/Tests.antt =====
-- Runs of the queue operations, and instances of their theorems.
use harvard_os.Prelude.{ℕ, ◌≤◌, ◌≡◌, refl, ◌↔◌, inl, true, false, none, some, [], ◌∷◌, arith}
use harvard_os.Errno.{enomem}
use harvard_os.Queue.{
  Queue, q_empty, q_addtail, q_preallocate, addtail_depth, q_grow, grow_size, move_guys, write_tail,
}
use harvard_os.Queue.Window.{contents, IsValid}
use harvard_os.Queue.Refine.{q_addtail_lem, q_empty_lem, q_preallocate_short}

-- Three guys, 5 6 7, round the end of a ring of four slots: it is full.
abbrev full_ring : Queue ℕ
full_ring = record {
  size = 4;
  nextwrite = 1;
  nextread = 2;
  slots = some 7 ∷ none ∷ some 5 ∷ some 6 ∷ [];
}

full_ring-IsValid : IsValid full_ring
full_ring-IsValid = record {
  nonempty = omega arith;
  small = omega arith;
  block = refl;
  write_in = omega arith;
  read_in = omega arith;
}

addtail_grows :
    q_addtail true full_ring (some 8)
    ≡ some (
      0,
      record {
        size = 8;
        nextwrite = 4;
        nextread = 0;
        slots = some 5 ∷ some 6 ∷ some 7 ∷ some 8 ∷ none ∷ none ∷ none ∷ none ∷ [];
      },
    )
unfolding q_addtail addtail_depth q_grow grow_size move_guys write_tail
addtail_grows = refl

q_addtail_lem_example :
    (q' : Queue ℕ) × (q_addtail true full_ring (some 8) ≡ some (0, q'))
    × IsValid q'
    × (contents q' ≡ some 5 ∷ some 6 ∷ some 7 ∷ some 8 ∷ [])
    × (4 ≤ q'.size)
q_addtail_lem_example =
    q_addtail_lem true full_ring (some 8) full_ring-IsValid (omega arith) (inl refl)

q_empty_lem_example : (q_empty full_ring ≡ true) ↔ (contents full_ring ≡ [])
q_empty_lem_example = q_empty_lem full_ring full_ring-IsValid

q_preallocate_short_example :
    (q_preallocate false full_ring 4 ≡ some (0, full_ring))
    × (q_addtail false full_ring (some 8) ≡ some (enomem, full_ring))
q_preallocate_short_example =
    q_preallocate_short full_ring (some 8) full_ring-IsValid (omega arith) refl
