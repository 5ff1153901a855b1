-- ===== src/Sfs/Pool/Loads.antt =====
-- The table of vnodes under sfs_loadvnode.
use harvard_os.Prelude.{
  ℕ, ◌+◌, ◌≡◌, ◌≢◌, ◌⊎◌, inl, inr, refl, ap, true, false, ◌&&◌, ◌||◌, Option, none, some, List, [],
  ◌∷◌, ◌++◌, ◌==◌, ==_iff, ne→==, ◌>>=◌, Bool-cases, Option-cases, arith,
}
use mathlib.Core.Option
use native.Mathlib.Decide.{ℕ_discrete}
use harvard_os.Sfs.{SfsFs, sfs_rblock, sfs_bused}
use harvard_os.Sfs.Words.{bytes_words}
use harvard_os.Sfs.Inode.{Inode, SfsVnode, words_inode}
use harvard_os.Sfs.Pool.{
  Loaded, Pool, LoadMem, find_loaded, force_type, enter_vnode, load_inode, read_inode,
  sfs_loadvnode, sfs_type_inval, sfs_type_file, sfs_type_dir,
}

-- No vnode is of the inode.
abbrev pub Fresh : ℕ → List Loaded → Type 0
Fresh ino [] = Unit
Fresh ino (l ∷ ls) = (l.sv.sv_ino ≢ ino) × Fresh ino ls

-- The vnode of the inode with one more reference.
abbrev pub Bumped : ℕ → ℕ → List Loaded → List Loaded → Type 0
Bumped ino ptr vnodes vnodes' =
    (before after : List Loaded) × (l : Loaded) × (vnodes ≡ before ++ (l ∷ after))
    × (vnodes' ≡ before ++ (record l { refcount = l.refcount + 1 } ∷ after))
    × (l.sv.sv_ino ≡ ino)
    × (l.ptr ≡ ptr)

-- A new vnode at the end, with one reference.
abbrev pub Entered : ℕ → ℕ → List Loaded → List Loaded → Type 0
Entered ino ptr vnodes vnodes' =
    Fresh ino vnodes
    × ((sv : SfsVnode) × (vnodes' ≡ vnodes ++ (record { ptr = ptr; refcount = 1; sv = sv } ∷ []))
        × (sv.sv_ino ≡ ino))

-- What find_loaded tells of the table.
abbrev Found : ℕ → List Loaded → Option (Option (ℕ × List Loaded)) → Type 0
Found ino ls none = Unit
Found ino ls (some none) = Fresh ino ls
Found ino ls (some (some p)) = Bumped ino p.0 ls p.1

behind :
    (ino : ℕ) (l : Loaded) (ls : List Loaded) (m : Option (Option (ℕ × List Loaded)))
    → l.sv.sv_ino ≢ ino
    → Found ino ls m
    → Found ino (l ∷ ls) (m >>= λ found. some (Option.map (λ (ptr, rest). (ptr, l ∷ rest)) found))
behind ino l ls none ne h = tt
behind ino l ls (some none) ne h = (ne, h)
behind ino l ls (some (some p)) ne (before, after, k, e, e', i, q) =
    (l ∷ before, after, k, ap (◌∷◌ l) e, ap (◌∷◌ l) e', i, q)

find_loaded-Found :
    (ino forcetype : ℕ) (ls : List Loaded) (sfs : SfsFs)
    → Found ino ls (find_loaded ino forcetype ls sfs)
unfolding find_loaded
find_loaded-Found ino forcetype [] sfs = tt
find_loaded-Found ino forcetype (l ∷ ls) sfs = elim (Option-cases (sfs_bused l.sv.sv_ino sfs)) [
  | inl e ↦ rw (find_loaded, e) tt
  | inr (false, e) ↦ rw (find_loaded, e) tt
  | inr (true, e) ↦ elim (ℕ_discrete l.sv.sv_ino ino) [
    | no ne ↦
        rw (find_loaded, e, ne→== l.sv.sv_ino ino ne)
          (behind ino l ls (find_loaded ino forcetype ls sfs) ne
            (find_loaded-Found ino forcetype ls sfs))
    | yes q ↦ elim (Bool-cases (forcetype == sfs_type_inval)) [
      | inr f ↦ rw (find_loaded, e, (==_iff l.sv.sv_ino ino).1 q, f) tt
      | inl f ↦
          rw (find_loaded, e, (==_iff l.sv.sv_ino ino).1 q, f) ([], ls, l, refl, refl, q, refl)
    ]
  ]
]

-- What sfs_loadvnode does to the table.
abbrev pub Loads : ℕ → List Loaded → Option (ℕ × ℕ × Pool) → Type 0
Loads ino vnodes none = Unit
Loads ino vnodes (some p) =
    ((p.0 ≡ 0) × Bumped ino p.1 vnodes p.2.vnodes)
    ⊎ (((p.0 ≡ 0) × Entered ino p.1 vnodes p.2.vnodes) ⊎ ((p.0 ≢ 0) × (p.2.vnodes ≡ vnodes)))

enter_vnode-Loads :
    (ino ptr : ℕ) (mem : LoadMem) (sv : SfsVnode) (pool : Pool)
    → Fresh ino pool.vnodes
    → sv.sv_ino ≡ ino
    → Loads ino pool.vnodes (enter_vnode ptr mem sv pool)
unfolding enter_vnode
enter_vnode-Loads ino ptr mem sv pool fresh e =
    elim (Bool-cases (sv.sv_i.sfi_type == sfs_type_file || sv.sv_i.sfi_type == sfs_type_dir)) [
      | inr bad ↦ rw bad tt
      | inl good ↦ rw good (elim (Bool-cases (mem.lock_ok && mem.array_ok)) [
        | inl room ↦ rw room (inr (inl (refl, (fresh, (sv, refl, e)))))
        | inr full ↦ rw full (inr (inr (omega arith, refl)))
      ])
    ]

force_type-ino :
    (ino forcetype : ℕ) (i : Inode) (sv : SfsVnode)
    → force_type ino forcetype i ≡ some sv
    → sv.sv_ino ≡ ino
unfolding force_type
force_type-ino ino forcetype i sv h = ground arith

read_inode-Loads :
    (ino forcetype : ℕ) (mem : LoadMem) (ptr result : ℕ) (bytes : List ℕ) (sfs1 : SfsFs)
    (pool : Pool)
    → Fresh ino pool.vnodes
    → Loads ino pool.vnodes (read_inode ino forcetype mem ptr (result, bytes, sfs1) pool)
unfolding read_inode
read_inode-Loads ino forcetype mem ptr result bytes sfs1 pool fresh = elim (ℕ_discrete result 0) [
  | no ne ↦ rw (read_inode, ne→== result 0 ne) (inr (inr (ne, refl)))
  | yes z ↦
      rw (read_inode, (==_iff result 0).1 z)
        (elim (Option-cases (force_type ino forcetype (words_inode (bytes_words bytes)))) [
          | inl g ↦ rw g tt
          | inr (sv, g) ↦ rw g (
              enter_vnode-Loads ino ptr mem sv (record pool { sfs = sfs1 }) fresh
                (force_type-ino ino forcetype _ sv g))
        ])
]

load_inode-Loads :
    (ino forcetype : ℕ) (mem : LoadMem) (o : Option ℕ) (pool : Pool)
    → Fresh ino pool.vnodes
    → Loads ino pool.vnodes (load_inode ino forcetype mem o pool)
unfolding load_inode
load_inode-Loads ino forcetype mem none pool fresh = inr (inr (omega arith, refl))
load_inode-Loads ino forcetype mem (some ptr) pool fresh =
    elim (Option-cases (sfs_bused ino pool.sfs)) [
      | inl e ↦ rw e tt
      | inr (false, e) ↦ rw e tt
      | inr (true, e) ↦ rw e (elim (Option-cases (sfs_rblock ino pool.sfs)) [
        | inl f ↦ rw f tt
        | inr ((result, bytes, sfs1), f) ↦
            rw f (read_inode-Loads ino forcetype mem ptr result bytes sfs1 pool fresh)
      ])
    ]

-- sfs_loadvnode that returns 0 either adds a reference to the one vnode of the inode that it finds,
-- or enters a new one, with one reference, where there was none; with an error the table is as it was.
pub sfs_loadvnode-Loads :
    (ino forcetype : ℕ) (mem : LoadMem) (pool : Pool)
    → Loads ino pool.vnodes (sfs_loadvnode ino forcetype mem pool)
unfolding sfs_loadvnode
sfs_loadvnode-Loads ino forcetype mem pool =
    found (find_loaded ino forcetype pool.vnodes pool.sfs)
      (find_loaded-Found ino forcetype pool.vnodes pool.sfs)
  where
    found :
        (m : Option (Option (ℕ × List Loaded)))
        → Found ino pool.vnodes m
        → Loads ino pool.vnodes (
            m >>= λ f. (elim f [
              | some (ptr, vnodes) ↦ some (0, ptr, record pool { vnodes = vnodes })
              | none ↦ load_inode ino forcetype mem mem.vnode_ptr pool
            ]))
    found none h = tt
    found (some none) h = load_inode-Loads ino forcetype mem mem.vnode_ptr pool h
    found (some (some p)) h = inl (refl, h)
