-- ===== src/Coremap/Runs.antt =====
-- What the two loops of getppages find: the entries in use in front, the free run behind them.
use harvard_os.Prelude.{
  ℕ, suc, ◌+◌, ◌<◌, ◌≡◌, ◌≢◌, refl, ap, ◌⊎◌, inl, inr, true, false, some, List, [], ◌∷◌, ◌++◌, map,
  arith, leb, ◌==◌, ==_iff, Bool-cases, length, take, drop, ◌>>=◌,
}
use harvard_os.Coremap.{Entry, skip_used, has_run, mark_pages}

-- Every entry of the list is in this state.
abbrev pub AllIn : ℕ → List Entry → Type 0
AllIn state [] = Unit
AllIn state (e ∷ es) = (e.allocated ≡ state) × AllIn state es

-- The list does not start with an entry in this state.
abbrev pub Stops : ℕ → List Entry → Type 0
Stops state [] = Unit
Stops state (e ∷ es) = e.allocated ≢ state

ne→== : (a b : ℕ) → (a == b) ≡ false → a ≢ b
ne→== a b h same = ground arith

-- The entries in use in front of the first that is not.
pub skip_used_lem :
    (es : List Entry)
    → (pre rest : List Entry) × (es ≡ pre ++ rest)
      × AllIn 1 pre
      × Stops 1 rest
      × (skip_used es ≡ length pre)
unfolding skip_used
skip_used_lem [] = ([], [], refl, tt, tt, refl)
skip_used_lem (e ∷ es) = elim (Bool-cases (e.allocated == 1)) [
  | inl used ↦
      let (pre, rest, split, all, stops, n) = skip_used_lem es in
      (
        e ∷ pre,
        rest,
        ap (◌∷◌ e) split,
        ((==_iff e.allocated 1).0 used, all),
        stops,
        rw used (ap suc n),
      )
  | inr unused ↦ ([], e ∷ es, refl, tt, ne→== e.allocated 1 unused, rw unused)
]

-- The free entries that the second loop passes: as many as asked for, or all there are up to the
-- next entry that is not free.
pub has_run_lem :
    (npages counter : ℕ) (es : List Entry)
    → counter < npages
    → (run post : List Entry) × (es ≡ run ++ post)
      × AllIn 0 run
      × (((has_run npages counter es ≡ true) × (counter + length run ≡ npages))
          ⊎ ((has_run npages counter es ≡ false) × (counter + length run < npages) × Stops 0 post))
unfolding has_run
has_run_lem npages counter [] h = ([], [], refl, tt, inr (refl, omega arith, tt))
has_run_lem npages counter (e ∷ es) h = elim (Bool-cases (e.allocated == 0)) [
  | inr unfree ↦ ([], e ∷ es, refl, tt, inr (rw unfree, omega arith, ne→== e.allocated 0 unfree))
  | inl free ↦ elim (Bool-cases (leb npages (counter + 1))) [
    | inl enough ↦ (
      e ∷ [],
      es,
      refl,
      ((==_iff e.allocated 0).0 free, tt),
      inl (rw (free, enough), ground arith),
    )
    | inr more ↦
        let (run, post, split, all, ends) = has_run_lem npages (counter + 1) es (ground arith) in
        (
          e ∷ run,
          post,
          ap (◌∷◌ e) split,
          ((==_iff e.allocated 0).0 free, all),
          elim ends [
            | inl (found, n) ↦ inl (rw (free, more) found, omega (arith, n))
            | inr (missed, n, stops) ↦ inr (rw (free, more) missed, omega (arith, n), stops)
          ],
        )
  ]
]

pub take-prefix : (pre rest : List Entry) → take (length pre) (pre ++ rest) ≡ pre
take-prefix [] rest = refl
take-prefix (e ∷ pre) rest = ap (◌∷◌ e) (take-prefix pre rest)

pub drop-prefix : (pre rest : List Entry) → drop (length pre) (pre ++ rest) ≡ rest
drop-prefix [] rest = refl
drop-prefix (e ∷ pre) rest = drop-prefix pre rest

abbrev pub with_state : ℕ → Entry → Entry
with_state state e = record e { allocated = state }

-- Marking exactly the entries of a prefix.
pub mark_pages-prefix :
    (state : ℕ) (run post : List Entry)
    → mark_pages state (length run) (run ++ post) ≡ some (map (with_state state) run ++ post)
unfolding mark_pages
mark_pages-prefix state [] post = refl
mark_pages-prefix state (e ∷ run) post = rw (mark_pages-prefix state run post, ◌>>=◌)

-- An entry that is marked as it is stays as it is.
pub map_mark-AllIn :
    (state other : ℕ) (run : List Entry)
    → AllIn state run
    → map (with_state state) (map (with_state other) run) ≡ run
map_mark-AllIn state other [] all = refl
map_mark-AllIn state other (e ∷ run) (here, all) =
    let rest = map_mark-AllIn state other run all in rw (rest, ← here)

pub length-map {ℓ κ} :
    {A : Type ℓ} {B : Type κ} (f : A → B) (xs : List A) → length (map f xs) ≡ length xs
length-map f [] = refl
length-map f (x ∷ xs) = ap suc (length-map f xs)
