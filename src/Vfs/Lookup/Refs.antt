-- ===== src/Vfs/Lookup/Refs.antt =====
-- The references on vnodes: the translation of a path gives back those that it takes.
use harvard_os.Prelude.{
  ℕ, zero, suc, ◌+◌, ◌-◌, ◌≤◌, ◌≡◌, refl, Bool, Option, none, some, List, ◌==◌, ==_iff,
  if◌then◌else◌, ◌>>=◌, Bool-cases, Option-cases, inl, inr, arith,
}
use harvard_os.Libc.{strlen}
use harvard_os.Vfs.{Got, got, err, FsOps, Vfs, KnownDev}
use harvard_os.Vfs.Devices.{vfs_getroot}
use harvard_os.Vfs.Devices.Names.{Answer, HaveDevices, find, table, respond, vfs_getroot_lem}
use harvard_os.Vfs.Lookup.{
  Mark, colon, slash, neither, vfs_getcurdir, current_root, held_or_enoent, with_subpath,
  getdevice_at, getdevice, first_mark, vfs_lookup, vfs_lookparent, lookup_from, lookparent_from,
}

-- One reference on a vnode.
abbrev pub one : ℕ → ℕ → ℕ
one vn u = if u == vn then 1 else 0

abbrev pub held : Got → ℕ → ℕ
held (err result) u = 0
held (got vn) u = one vn u

-- What a count `refs` of the references of each vnode has to obey.
pub record CountsRefs {W : Type 0} (ops : FsOps W) (refs : W → ℕ → ℕ) : Type 0 where
  pub incref_refs : (vn : ℕ) (w : W) (u : ℕ) → refs (ops.vop_incref vn w) u ≡ refs w u + one vn u
  pub decref_refs :
      (vn : ℕ) (w : W) (u : ℕ) → 1 ≤ refs w vn → refs (ops.vop_decref vn w) u + one vn u ≡ refs w u
  pub getroot_refs :
      (fs : ℕ) (w : W) (u : ℕ)
      → refs (ops.fsop_getroot fs w).1 u ≡ refs w u + one (ops.fsop_getroot fs w).0 u
  pub lookup_refs :
      (vn : ℕ) (s : List ℕ) (w : W) (u : ℕ)
      → refs (ops.vop_lookup vn s w).1 u ≡ refs w u + held (ops.vop_lookup vn s w).0 u
  pub lookparent_refs :
      (vn : ℕ) (s : List ℕ) (n : ℕ) (w : W) (u : ℕ)
      → refs (ops.vop_lookparent vn s n w).2 u ≡ refs w u + held (ops.vop_lookparent vn s n w).0 u
  pub creat_refs :
      (vn : ℕ) (s : List ℕ) (b : Bool) (w : W) (u : ℕ)
      → refs (ops.vop_creat vn s b w).1 u ≡ refs w u + held (ops.vop_creat vn s b w).0 u
  pub open_refs : (vn n : ℕ) (w : W) (u : ℕ) → refs (ops.vop_open vn n w).1 u ≡ refs w u
  pub incopen_refs : (vn : ℕ) (w : W) (u : ℕ) → refs (ops.vop_incopen vn w) u ≡ refs w u
  pub decopen_refs : (vn : ℕ) (w : W) (u : ℕ) → refs (ops.vop_decopen vn w) u ≡ refs w u
  pub truncate_refs : (vn n : ℕ) (w : W) (u : ℕ) → refs (ops.vop_truncate vn n w).1 u ≡ refs w u
  pub rename_refs :
      (d : ℕ) (s : List ℕ) (e : ℕ) (t : List ℕ) (w : W) (u : ℕ)
      → refs (ops.vop_rename d s e t w).1 u ≡ refs w u

-- How many references on each vnode have been handed out and not yet given back.
abbrev pub Ledger : Type 0
Ledger = ℕ → ℕ

abbrev gains : Got → Ledger → Ledger
gains g n u = n u + held g u

abbrev loses : ℕ → Ledger → Ledger
loses vn n u = n u - one vn u

-- Any file systems and vnodes, with a ledger beside their state: VOP_INCREF and each vnode that
-- FSOP_GETROOT, VOP_LOOKUP, VOP_LOOKPARENT and VOP_CREAT hand back are written in, and each call of
-- VOP_DECREF is written off, whatever it does.
abbrev pub counted : {W : Type 0} → FsOps W → FsOps (W × Ledger)
counted {W} ops = record {
  fsop_getvolname = ops.fsop_getvolname;
  fsop_getroot = λ fs s. (let (vn, w) = ops.fsop_getroot fs s.0 in (vn, (w, gains (got vn) s.1)));
  fsop_sync = λ fs s. (let (result, w) = ops.fsop_sync fs s.0 in (result, (w, s.1)));
  fsop_unmount = λ fs s. (let (result, w) = ops.fsop_unmount fs s.0 in (result, (w, s.1)));
  dev_create_vnode = λ dev s. (let (vn, w) = ops.dev_create_vnode dev s.0 in (vn, (w, s.1)));
  vop_incref = λ vn s. (ops.vop_incref vn s.0, gains (got vn) s.1);
  vop_decref = λ vn s. (ops.vop_decref vn s.0, loses vn s.1);
  vop_incopen = λ vn s. (ops.vop_incopen vn s.0, s.1);
  vop_decopen = λ vn s. (ops.vop_decopen vn s.0, s.1);
  vn_fs = ops.vn_fs;
  vop_gettype =
      λ vn s. (let (result, mode, w) = ops.vop_gettype vn s.0 in (result, mode, (w, s.1)));
  vop_open = λ vn n s. (let (result, w) = ops.vop_open vn n s.0 in (result, (w, s.1)));
  vop_truncate = λ vn n s. (let (result, w) = ops.vop_truncate vn n s.0 in (result, (w, s.1)));
  vop_lookup = λ vn path s. (let (g, w) = ops.vop_lookup vn path s.0 in (g, (w, gains g s.1)));
  vop_lookparent = λ vn path n s.
      (let (g, name, w) = ops.vop_lookparent vn path n s.0 in (g, name, (w, gains g s.1)));
  vop_creat =
      λ vn name excl s. (let (g, w) = ops.vop_creat vn name excl s.0 in (g, (w, gains g s.1)));
  vop_remove = λ vn name s. (let (result, w) = ops.vop_remove vn name s.0 in (result, (w, s.1)));
  vop_rename =
      λ d name e new s. (let (result, w) = ops.vop_rename d name e new s.0 in (result, (w, s.1)));
  vop_link = λ d name vn s. (let (result, w) = ops.vop_link d name vn s.0 in (result, (w, s.1)));
  vop_symlink =
      λ d name to s. (let (result, w) = ops.vop_symlink d name to s.0 in (result, (w, s.1)));
  vop_mkdir = λ d name s. (let (result, w) = ops.vop_mkdir d name s.0 in (result, (w, s.1)));
  vop_rmdir = λ d name s. (let (result, w) = ops.vop_rmdir d name s.0 in (result, (w, s.1)));
}

written_off : (n : Ledger) (vn u : ℕ) → 1 ≤ n vn → loses vn n u + one vn u ≡ n u
written_off n vn u h = ground arith

-- The ledger obeys the laws for all file systems, without a condition.
pub counted-CountsRefs :
    {W : Type 0} → (ops : FsOps W) → CountsRefs {W = W × Ledger} (counted ops) (λ s. s.1)
counted-CountsRefs ops = record {
  incref_refs = λ vn s u. refl;
  decref_refs = λ vn s u h. written_off s.1 vn u h;
  getroot_refs = λ fs s u. refl;
  lookup_refs = λ vn path s u. refl;
  lookparent_refs = λ vn path n s u. refl;
  creat_refs = λ vn name excl s u. refl;
  open_refs = λ vn n s u. refl;
  incopen_refs = λ vn s u. refl;
  decopen_refs = λ vn s u. refl;
  truncate_refs = λ vn n s u. refl;
  rename_refs = λ d name e new s u. refl;
}

module _ {W : Type 0} (ops : FsOps W) (refs : W → ℕ → ℕ) (laws : CountsRefs ops refs) where
  -- What is held more than before.
  abbrev pub Holds : W → Got → W → Type 0
  Holds w g w' = (u : ℕ) → refs w' u ≡ refs w u + held g u

  one_self : (vn : ℕ) → one vn vn ≡ 1
  one_self vn = rw ((==_iff vn vn).1 refl) refl

  -- A reference that is held is given back.
  pub give_back :
      (w w1 : W) (vn : ℕ) (n : ℕ → ℕ)
      → ((u : ℕ) → refs w1 u ≡ refs w u + one vn u + n u)
      → (u : ℕ) → refs (ops.vop_decref vn w1) u ≡ refs w u + n u
  give_back w w1 vn n h u =
      omega (arith, laws.decref_refs vn w1 u (omega (arith, h vn, one_self vn)), h u)

  lookup_from-Holds :
      (w : W) (start : Got) (subpath : List ℕ) (w1 : W)
      → Holds w start w1
      → Holds w (lookup_from ops (start, subpath, w1)).0 (lookup_from ops (start, subpath, w1)).1
  unfolding lookup_from
  lookup_from-Holds w (err result) subpath w1 h = h
  lookup_from-Holds w (got vn) subpath w1 h = elim (Bool-cases (strlen subpath == 0)) [
    | inl e ↦ rw e h
    | inr e ↦ rw e (
        give_back w (ops.vop_lookup vn subpath w1).1 vn (held (ops.vop_lookup vn subpath w1).0)
          (λ u. omega (arith, laws.lookup_refs vn subpath w1 u, h u)))
  ]

  lookparent_from-Holds :
      (w : W) (start : Got) (subpath : List ℕ) (w1 : W) (buflen : ℕ)
      → Holds w start w1
      → let (g, buf, w2) = lookparent_from ops (start, subpath, w1) buflen in Holds w g w2
  unfolding lookparent_from
  lookparent_from-Holds w (err result) subpath w1 buflen h = h
  lookparent_from-Holds w (got vn) subpath w1 buflen h = elim (Bool-cases (strlen subpath == 0)) [
    | inl e ↦ rw e (give_back w w1 vn (λ u. 0) (λ u. omega (arith, h u)))
    | inr e ↦ rw e (
        give_back w (ops.vop_lookparent vn subpath buflen w1).2 vn
          (held (ops.vop_lookparent vn subpath buflen w1).0)
          (λ u. omega (arith, laws.lookparent_refs vn subpath buflen w1 u, h u)))
  ]

  -- Whatever is handed back is held.
  abbrev pub Starts : W → Option (Got × W) → Type 0
  Starts w none = Unit
  Starts w (some p) = Holds w p.0 p.1

  held_or_enoent-Holds :
      (o : Option ℕ) (w : W) → let (g, w1) = held_or_enoent ops o w in Holds w g w1
  held_or_enoent-Holds none w u = omega arith
  held_or_enoent-Holds (some vn) w u = laws.incref_refs vn w u

  current_root-Starts :
      (w : W) (g : Got) (w1 : W) → Holds w g w1 → Starts w (current_root ops (g, w1))
  unfolding current_root
  current_root-Starts w (err result) w1 h = h
  current_root-Starts w (got vn) w1 h = elim (Option-cases (ops.vn_fs vn)) [
    | inl e ↦ rw e tt
    | inr (fs, e) ↦ rw e (
        give_back w (ops.fsop_getroot fs w1).1 vn (one (ops.fsop_getroot fs w1).0)
          (λ u. omega (arith, laws.getroot_refs fs w1 u, h u)))
  ]

  respond-Holds : (a : Option Answer) (w : W) → let (g, w1) = respond ops a w in Holds w g w1
  unfolding respond
  respond-Holds none w u = omega arith
  respond-Holds (some Answer.unmounted) w u = omega arith
  respond-Holds (some (Answer.root fs)) w u = laws.getroot_refs fs w u
  respond-Holds (some (Answer.self vn)) w u = laws.incref_refs vn w u

  vfs_getroot-Starts :
      (devs : List KnownDev) (name : List ℕ) (w : W)
      → HaveDevices devs
      → Starts w (vfs_getroot ops devs name w)
  vfs_getroot-Starts devs name w h =
      rw (vfs_getroot_lem ops devs name w h) (respond-Holds (find (table ops devs) name) w)

  -- A path from where it starts.
  abbrev pub StartsAt : W → Option (Got × List ℕ × W) → Type 0
  StartsAt w none = Unit
  StartsAt w (some p) = Holds w p.0 p.2

  with_subpath-StartsAt :
      (subpath : List ℕ) (w : W) (m : Option (Got × W))
      → Starts w m
      → StartsAt w (with_subpath ops subpath m)
  with_subpath-StartsAt subpath w none h = tt
  with_subpath-StartsAt subpath w (some p) h = h

  getdevice_at-StartsAt :
      (mark : Mark) (path : List ℕ) (v : Vfs W)
      → HaveDevices v.knowndevs
      → StartsAt v.world (getdevice_at ops mark path v)
  unfolding getdevice_at vfs_getcurdir
  getdevice_at-StartsAt neither path v h = held_or_enoent-Holds v.t_cwd v.world
  getdevice_at-StartsAt (slash zero) path v h = held_or_enoent-Holds v.bootfs_vnode v.world
  getdevice_at-StartsAt (slash (suc i)) path v h = held_or_enoent-Holds v.t_cwd v.world
  getdevice_at-StartsAt (colon zero) path v h =
      with_subpath-StartsAt _ v.world _
        (current_root-Starts v.world _ _ (held_or_enoent-Holds v.t_cwd v.world))
  getdevice_at-StartsAt (colon (suc i)) path v h =
      with_subpath-StartsAt _ v.world _ (vfs_getroot-Starts v.knowndevs _ v.world h)

  -- vfs_lookup hands back a vnode with one more reference on it and changes no other count; an
  -- error changes none.
  pub vfs_lookup-Starts :
      (path : List ℕ) (v : Vfs W) → HaveDevices v.knowndevs → Starts v.world (vfs_lookup ops path v)
  unfolding vfs_lookup getdevice
  vfs_lookup-Starts path v h =
      found (getdevice_at ops (first_mark path 0) path v) (getdevice_at-StartsAt _ path v h)
    where
      found :
          (m : Option (Got × List ℕ × W))
          → StartsAt v.world m
          → Starts v.world (m >>= λ start. some (lookup_from ops start))
      found none k = tt
      found (some (g, subpath, w)) k = lookup_from-Holds v.world g subpath w k

  -- The same of vfs_lookparent.
  pub vfs_lookparent-StartsAt :
      (path : List ℕ) (buflen : ℕ) (v : Vfs W)
      → HaveDevices v.knowndevs
      → StartsAt v.world (vfs_lookparent ops path buflen v)
  unfolding vfs_lookparent getdevice
  vfs_lookparent-StartsAt path buflen v h =
      found (getdevice_at ops (first_mark path 0) path v) (getdevice_at-StartsAt _ path v h)
    where
      found :
          (m : Option (Got × List ℕ × W))
          → StartsAt v.world m
          → StartsAt v.world (m >>= λ start. some (lookparent_from ops start buflen))
      found none k = tt
      found (some (g, subpath, w)) k = lookparent_from-Holds v.world g subpath w buflen k
