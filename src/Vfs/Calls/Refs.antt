-- ===== src/Vfs/Calls/Refs.antt =====
-- The references on vnodes: each call gives back those that it takes.
use harvard_os.Prelude.{
  ℕ, ◌+◌, ◌%◌, ◌≡◌, Bool, true, false, not, Option, none, some, List, ◌==◌, ◌>>=◌, Bool-cases, inl,
  inr, arith,
}
use harvard_os.Vfs.{Got, got, err, FsOps, Vfs}
use harvard_os.Vfs.Devices.Names.{HaveDevices}
use harvard_os.Vfs.Lookup.{name_max, vfs_lookparent}
use harvard_os.Vfs.Lookup.Refs.{
  CountsRefs, Ledger, counted, counted-CountsRefs, one, held, Holds, Starts, StartsAt, give_back,
  vfs_lookup-Starts, vfs_lookparent-StartsAt,
}
use harvard_os.Vfs.Calls.{
  create_at, truncate_open, open_vnode, find_or_create, vfs_open, with_both, rename_to, rename_from,
  vfs_rename, o_creat, o_excl, o_trunc, same_fs,
}

module _ {W : Type 0} (ops : FsOps W) (refs : W → ℕ → ℕ) (laws : CountsRefs ops refs) where
  create_at-Holds :
      (w : W) (excl : Bool) (dir : Got) (name : List ℕ) (w1 : W)
      → Holds ops refs laws w dir w1
      → let (g, w2) = create_at ops excl (dir, name, w1) in Holds ops refs laws w g w2
  unfolding create_at
  create_at-Holds w excl (err result) name w1 h = h
  create_at-Holds w excl (got dir) name w1 h =
      give_back ops refs laws w (ops.vop_creat dir name excl w1).1 dir
        (held (ops.vop_creat dir name excl w1).0)
        (λ u. omega (arith, laws.creat_refs dir name excl w1 u, h u))

  find_or_create-Starts :
      (path : List ℕ) (openflags : ℕ) (v : Vfs W)
      → HaveDevices v.knowndevs
      → Starts ops refs laws v.world (find_or_create ops path openflags v)
  unfolding find_or_create
  find_or_create-Starts path openflags v h = elim (Bool-cases (o_creat openflags)) [
    | inr e ↦ rw e (vfs_lookup-Starts ops refs laws path v h)
    | inl e ↦ rw e (
        made (vfs_lookparent ops path (name_max + 1) v)
          (vfs_lookparent-StartsAt ops refs laws path (name_max + 1) v h))
  ]
    where
      made :
          (m : Option (Got × List ℕ × W))
          → StartsAt ops refs laws v.world m
          → Starts ops refs laws v.world (m >>= λ p. some (create_at ops (o_excl openflags) p))
      made none k = tt
      made (some (g, name, w)) k = create_at-Holds v.world (o_excl openflags) g name w k

  truncate_open-Holds :
      (w : W) (canwrite : Bool) (vn : ℕ) (w1 : W)
      → Holds ops refs laws w (got vn) w1
      → let (g, w2) = truncate_open ops canwrite vn w1 in Holds ops refs laws w g w2
  unfolding truncate_open
  truncate_open-Holds w false vn w1 h =
      give_back ops refs laws w (ops.vop_decopen vn w1) vn (λ u. 0)
        (λ u. omega (arith, laws.decopen_refs vn w1 u, h u))
  truncate_open-Holds w true vn w1 h =
      let (result, w2) = ops.vop_truncate vn 0 w1 in
      elim (Bool-cases ((ops.vop_truncate vn 0 w1).0 == 0)) [
        | inl e ↦ rw e (λ u. omega (arith, laws.truncate_refs vn 0 w1 u, h u))
        | inr e ↦ rw e (
            give_back ops refs laws w (ops.vop_decopen vn w2) vn (λ u. 0)
              (λ u. omega (arith, laws.decopen_refs vn w2 u, laws.truncate_refs vn 0 w1 u, h u)))
      ]

  open_vnode-Holds :
      (w : W) (openflags : ℕ) (canwrite : Bool) (file : Got) (w1 : W)
      → Holds ops refs laws w file w1
      → let (g, w2) = open_vnode ops openflags canwrite (file, w1) in Holds ops refs laws w g w2
  unfolding open_vnode
  open_vnode-Holds w openflags canwrite (err result) w1 h = h
  open_vnode-Holds w openflags canwrite (got vn) w1 h =
      let w2 = (ops.vop_open vn openflags w1).1 in
      let opened = λ (u : ℕ). laws.open_refs vn openflags w1 u in
      let counted = λ (u : ℕ). laws.incopen_refs vn w2 u in
      elim (Bool-cases ((ops.vop_open vn openflags w1).0 == 0)) [
        | inr e ↦
            rw e (give_back ops refs laws w w2 vn (λ u. 0) (λ u. omega (arith, opened u, h u)))
        | inl e ↦ rw e (elim (Bool-cases (o_trunc openflags)) [
          | inl t ↦ rw t (
              truncate_open-Holds w canwrite vn (ops.vop_incopen vn w2)
                (λ u. omega (arith, counted u, opened u, h u)))
          | inr t ↦ rw t (λ u. omega (arith, counted u, opened u, h u))
        ])
      ]

  open_counts :
      (path : List ℕ) (openflags : ℕ) (v : Vfs W)
      → HaveDevices v.knowndevs
      → Starts ops refs laws v.world (vfs_open ops path openflags v)
  unfolding vfs_open
  open_counts path openflags v h = elim (Bool-cases (openflags % 4 == 3)) [
    | inl e ↦ rw e (λ u. omega arith)
    | inr e ↦
        rw e
          (opened (find_or_create ops path openflags v) (find_or_create-Starts path openflags v h))
  ]
    where
      opened :
          (m : Option (Got × W))
          → Starts ops refs laws v.world m
          → Starts ops refs laws v.world
              (m >>= λ p. some (open_vnode ops openflags (not (openflags % 4 == 0)) p))
      opened none k = tt
      opened (some (g, w)) k = open_vnode-Holds v.world openflags (not (openflags % 4 == 0)) g w k

  -- No count is changed.
  abbrev pub Keeps : W → Option (ℕ × W) → Type 0
  Keeps w none = Unit
  Keeps w (some p) = (u : ℕ) → refs p.1 u ≡ refs w u

  with_both-Keeps :
      (w w1 : W) (first second : ℕ) (call : W → ℕ × W)
      → ((u : ℕ) → refs w1 u ≡ refs w u + one first u + one second u)
      → ((w' : W) (u : ℕ) → refs (call w').1 u ≡ refs w' u)
      → Keeps w (some (with_both ops first second call w1))
  unfolding with_both
  with_both-Keeps w w1 first second call h keeps =
      let both = λ (w2 : W) (k : (u : ℕ) → refs w2 u ≡ refs w1 u).
        give_back ops refs laws w (ops.vop_decref second w2) first (λ u. 0)
          (λ u. omega (
            arith,
            give_back ops refs laws w w2 second (one first) (λ u'. omega (arith, k u', h u')) u,
          )) in
      elim (Bool-cases (same_fs (ops.vn_fs first) (ops.vn_fs second))) [
        | inl e ↦ rw e (λ u. omega (arith, both (call w1).1 (keeps w1) u))
        | inr e ↦ rw e (λ u. omega (arith, both w1 (λ u'. omega arith) u))
      ]

  rename_to-Keeps :
      (w w1 : W) (olddir : ℕ) (oldname : List ℕ) (new : Got) (newname : List ℕ) (w2 : W)
      → ((u : ℕ) → refs w1 u ≡ refs w u + one olddir u)
      → Holds ops refs laws w1 new w2
      → Keeps w (some (rename_to ops olddir oldname (new, newname, w2)))
  unfolding rename_to
  rename_to-Keeps w w1 olddir oldname (err result) newname w2 h k = λ u.
      omega
        (arith, give_back ops refs laws w w2 olddir (λ u'. 0) (λ u'. omega (arith, k u', h u')) u)
  rename_to-Keeps w w1 olddir oldname (got newdir) newname w2 h k =
      with_both-Keeps w w2 olddir newdir (ops.vop_rename olddir oldname newdir newname)
        (λ u. omega (arith, k u, h u)) (λ w' u. laws.rename_refs olddir oldname newdir newname w' u)

  rename_from-Keeps :
      (old : Got) (oldname : List ℕ) (w1 : W) (newpath : List ℕ) (v : Vfs W)
      → HaveDevices v.knowndevs
      → Holds ops refs laws v.world old w1
      → Keeps v.world (rename_from ops (old, oldname, w1) newpath v)
  unfolding rename_from
  rename_from-Keeps (err result) oldname w1 newpath v devs h = λ u. omega (arith, h u)
  rename_from-Keeps (got olddir) oldname w1 newpath v devs h =
      renamed (vfs_lookparent ops newpath (name_max + 1) (record v { world = w1 })) (
        vfs_lookparent-StartsAt ops refs laws newpath (name_max + 1) (record v { world = w1 }) devs)
    where
      renamed :
          (m : Option (Got × List ℕ × W))
          → StartsAt ops refs laws w1 m
          → Keeps v.world (m >>= λ new. some (rename_to ops olddir oldname new))
      renamed none k = tt
      renamed (some (g, newname, w2)) k = rename_to-Keeps v.world w1 olddir oldname g newname w2 h k

  rename_counts :
      (oldpath newpath : List ℕ) (v : Vfs W)
      → HaveDevices v.knowndevs
      → Keeps v.world (vfs_rename ops oldpath newpath v)
  unfolding vfs_rename
  rename_counts oldpath newpath v devs =
      renamed (vfs_lookparent ops oldpath (name_max + 1) v)
        (vfs_lookparent-StartsAt ops refs laws oldpath (name_max + 1) v devs)
    where
      renamed :
          (m : Option (Got × List ℕ × W))
          → StartsAt ops refs laws v.world m
          → Keeps v.world (m >>= λ old. rename_from ops old newpath v)
      renamed none k = tt
      renamed (some (g, oldname, w1)) k = rename_from-Keeps g oldname w1 newpath v devs k

-- Whatever the file systems do, if vfs_open returns, and each known device that answers to its name
-- is not NULL, the references that were handed out to it and not given back with VOP_DECREF are one
-- more on the vnode that it hands back, and none with an error.
pub vfs_open-Starts :
    {W : Type 0}
    → (ops : FsOps W) (path : List ℕ) (openflags : ℕ) (v : Vfs (W × Ledger))
    → HaveDevices v.knowndevs
    → Starts {W = W × Ledger}
        (counted ops)
        (λ s. s.1)
        (counted-CountsRefs ops)
        v.world
        (vfs_open (counted ops) path openflags v)
vfs_open-Starts ops path openflags v h =
    open_counts (counted ops) (λ s. s.1) (counted-CountsRefs ops) path openflags v h

-- Whatever the file systems do, if vfs_rename returns, with whatever result, and each known device
-- that answers to its name is not NULL, it has given back with VOP_DECREF just the references that
-- were handed out to it.
pub vfs_rename-Keeps :
    {W : Type 0}
    → (ops : FsOps W) (oldpath newpath : List ℕ) (v : Vfs (W × Ledger)) → HaveDevices v.knowndevs
    → Keeps {W = W × Ledger}
        (counted ops)
        (λ s. s.1)
        (counted-CountsRefs ops)
        v.world
        (vfs_rename (counted ops) oldpath newpath v)
vfs_rename-Keeps ops oldpath newpath v h =
    rename_counts (counted ops) (λ s. s.1) (counted-CountsRefs ops) oldpath newpath v h
