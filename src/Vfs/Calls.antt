-- ===== src/Vfs/Calls.antt =====
-- os161/kern/fs/vfs/vfspath.c: the calls on paths.
pub mod Refs
use harvard_os.Prelude.{
  ℕ, ◌+◌, ◌/◌, ◌%◌, Bool, true, false, not, ◌&&◌, ◌||◌, Option, none, some, List, ◌==◌,
  if◌then◌else◌, ◌>>=◌,
}
use harvard_os.Errno.{einval, exdev}
use harvard_os.Vfs.{Got, got, err, FsOps, Vfs}
use harvard_os.Vfs.Lookup.{name_max, vfs_lookup, vfs_lookparent}

-- O_CREAT, O_EXCL and O_TRUNC of the flags.
abbrev pub o_creat : ℕ → Bool
o_creat openflags = openflags / 4 % 2 == 1

abbrev pub o_excl : ℕ → Bool
o_excl openflags = openflags / 8 % 2 == 1

abbrev pub o_trunc : ℕ → Bool
o_trunc openflags = openflags / 16 % 2 == 1

-- Both file systems, if both vnodes have one and it is the same.
abbrev pub same_fs : Option ℕ → Option ℕ → Bool
same_fs none b = false
same_fs (some a) none = false
same_fs (some a) (some b) = a == b

module _ {W : Type 0} (ops : FsOps W) where
  open ops use {
    vop_decref, vop_incopen, vop_decopen, vop_open, vop_truncate, vop_creat, vop_remove, vop_rename,
    vop_link, vop_symlink, vop_mkdir, vop_rmdir, vn_fs,
  }

  -- O_CREAT: the file is made in its directory.
  pub create_at : Bool → Got × List ℕ × W → Got × W
  create_at excl (err result, name, w) = (err result, w)
  create_at excl (got dir, name, w) =
      let (vn, w1) = vop_creat dir name excl w in (vn, vop_decref dir w1)

  -- O_TRUNC of a file that is open.
  pub truncate_open : Bool → ℕ → W → Got × W
  truncate_open canwrite vn w =
      let (result, w1) = if canwrite then vop_truncate vn 0 w else (einval, w) in
      if not (result == 0) then (err result, vop_decref vn (vop_decopen vn w1)) else (got vn, w1)

  -- From the vnode on.
  pub open_vnode : ℕ → Bool → Got × W → Got × W
  open_vnode openflags canwrite (err result, w) = (err result, w)
  open_vnode openflags canwrite (got vn, w) =
      let (result, w1) = vop_open vn openflags w in
      if not (result == 0)
      then (err result, vop_decref vn w1)
      else (let w2 = vop_incopen vn w1 in
          if o_trunc openflags then truncate_open canwrite vn w2 else (got vn, w2))

  pub find_or_create : List ℕ → ℕ → Vfs W → Option (Got × W)
  find_or_create path openflags v =
      if o_creat openflags
      then (vfs_lookparent ops path (name_max + 1) v >>= λ parent.
          some (create_at (o_excl openflags) parent))
      else vfs_lookup ops path v

  -- O_ACCMODE is 0 to read, 1 to write, 2 for both.
  pub vfs_open : List ℕ → ℕ → Vfs W → Option (Got × W)
  vfs_open path openflags v =
      let how = openflags % 4 in
      if how == 3
      then some (err einval, v.world)
      else (find_or_create path openflags v >>= λ file.
          some (open_vnode openflags (not (how == 0)) file))

  pub vfs_close : ℕ → Vfs W → Vfs W
  vfs_close vn v = record v { world = vop_decref vn (vop_decopen vn v.world) }

  -- A call on the last name in its directory, as vfs_remove, vfs_symlink, vfs_mkdir and vfs_rmdir
  -- make it.
  pub in_parent : (ℕ → List ℕ → W → ℕ × W) → Got × List ℕ × W → ℕ × W
  in_parent call (err result, name, w) = (result, w)
  in_parent call (got dir, name, w) =
      let (result, w1) = call dir name w in (result, vop_decref dir w1)

  abbrev on_parent : (ℕ → List ℕ → W → ℕ × W) → List ℕ → Vfs W → Option (ℕ × W)
  on_parent call path v =
      vfs_lookparent ops path (name_max + 1) v >>= λ parent. some (in_parent call parent)

  pub vfs_remove : List ℕ → Vfs W → Option (ℕ × W)
  vfs_remove path v = on_parent vop_remove path v

  pub vfs_symlink : List ℕ → List ℕ → Vfs W → Option (ℕ × W)
  vfs_symlink contents path v = on_parent (λ dir name. vop_symlink dir name contents) path v

  pub vfs_mkdir : List ℕ → Vfs W → Option (ℕ × W)
  vfs_mkdir path v = on_parent vop_mkdir path v

  pub vfs_rmdir : List ℕ → Vfs W → Option (ℕ × W)
  vfs_rmdir path v = on_parent vop_rmdir path v

  -- With two vnodes held, the first of which is given back last.
  pub with_both : ℕ → ℕ → (W → ℕ × W) → W → ℕ × W
  with_both first second call w =
      if same_fs (vn_fs first) (vn_fs second)
      then (let (result, w1) = call w in (result, vop_decref first (vop_decref second w1)))
      else (exdev, vop_decref first (vop_decref second w))

  pub rename_to : ℕ → List ℕ → Got × List ℕ × W → ℕ × W
  rename_to olddir oldname (err result, newname, w) = (result, vop_decref olddir w)
  rename_to olddir oldname (got newdir, newname, w) =
      with_both olddir newdir (vop_rename olddir oldname newdir newname) w

  pub rename_from : Got × List ℕ × W → List ℕ → Vfs W → Option (ℕ × W)
  rename_from (err result, oldname, w) newpath v = some (result, w)
  rename_from (got olddir, oldname, w) newpath v =
      vfs_lookparent ops newpath (name_max + 1) (record v { world = w }) >>= λ new.
      some (rename_to olddir oldname new)

  pub vfs_rename : List ℕ → List ℕ → Vfs W → Option (ℕ × W)
  vfs_rename oldpath newpath v =
      vfs_lookparent ops oldpath (name_max + 1) v >>= λ old. rename_from old newpath v

  pub link_to : ℕ → Got × List ℕ × W → ℕ × W
  link_to oldfile (err result, newname, w) = (result, vop_decref oldfile w)
  link_to oldfile (got newdir, newname, w) =
      with_both oldfile newdir (vop_link newdir newname oldfile) w

  pub link_from : Got × W → List ℕ → Vfs W → Option (ℕ × W)
  link_from (err result, w) newpath v = some (result, w)
  link_from (got oldfile, w) newpath v =
      vfs_lookparent ops newpath (name_max + 1) (record v { world = w }) >>= λ new.
      some (link_to oldfile new)

  pub vfs_link : List ℕ → List ℕ → Vfs W → Option (ℕ × W)
  vfs_link oldpath newpath v = vfs_lookup ops oldpath v >>= λ old. link_from old newpath v
