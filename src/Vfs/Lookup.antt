-- ===== src/Vfs/Lookup.antt =====
-- os161/kern/fs/vfs/vfslookup.c and vfscwd.c: where a path starts, the translation of paths, the boot
-- file system and the current directory. Each result is none for a failed assert.
pub mod Forms
pub mod Bootfs
pub mod Refs
use harvard_os.Prelude.{
  ℕ, zero, suc, ◌+◌, ◌-◌, ◌/◌, ◌%◌, Bool, true, false, not, ◌&&◌, Option, none, some, List, [], ◌∷◌,
  ◌++◌, ltb, ◌==◌, if◌then◌else◌, ◌>>=◌, ◌>>◌, assert, take, drop,
}
use harvard_os.Errno.{einval, enoent, enotdir}
use harvard_os.Libc.{strlen, strchr}
use harvard_os.Vfs.{Got, got, err, FsOps, Vfs}
use harvard_os.Vfs.Devices.{vfs_getroot}

-- The first colon or slash of a path.
pub data Mark : Type 0 where
  colon slash : ℕ → Mark
  neither : Mark

pub first_mark : List ℕ → ℕ → Mark
first_mark [] i = neither
first_mark (c ∷ path) i =
    if c == b':' then colon i else if c == b'/' then slash i else first_mark path (i + 1)

pub skip_slashes : List ℕ → List ℕ
skip_slashes [] = []
skip_slashes (c ∷ path) = elim (c == b'/') [ true ↦ skip_slashes path | false ↦ c ∷ path ]

-- S_ISDIR
abbrev pub is_dir : ℕ → Bool
is_dir mode = mode / 4096 % 8 == 2

-- The names of vfs_setbootfs are cut to fit a buffer of NAME_MAX + 1 bytes.
abbrev pub name_max : ℕ
name_max = 255

module _ {W : Type 0} (ops : FsOps W) where
  open ops use {
    fsop_getroot, vop_incref, vop_decref, vop_gettype, vn_fs, vop_lookup, vop_lookparent,
  }

  -- The vnode, if there is one, with one more reference.
  abbrev pub held_or_enoent : Option ℕ → W → Got × W
  held_or_enoent none w = (err enoent, w)
  held_or_enoent (some vn) w = (got vn, vop_incref vn w)

  pub vfs_getcurdir : Vfs W → Got × W
  vfs_getcurdir v = held_or_enoent v.t_cwd v.world

  -- `:path`, from the root of the file system of the current directory.
  pub current_root : Got × W → Option (Got × W)
  current_root (err result, w) = some (err result, w)
  current_root (got vn, w) =
      vn_fs vn >>= λ fs. (let (start, w1) = fsop_getroot fs w in some (got start, vop_decref vn w1))

  abbrev pub with_subpath : List ℕ → Option (Got × W) → Option (Got × List ℕ × W)
  with_subpath subpath m = m >>= λ (start, w). some (start, subpath, w)

  -- What getdevice does with the place of the mark.
  pub getdevice_at : Mark → List ℕ → Vfs W → Option (Got × List ℕ × W)
  getdevice_at neither path v = with_subpath path (some (vfs_getcurdir v))
  getdevice_at (slash zero) path v =
      with_subpath (skip_slashes (drop 1 path)) (some (held_or_enoent v.bootfs_vnode v.world))
  getdevice_at (slash (suc i)) path v = with_subpath path (some (vfs_getcurdir v))
  getdevice_at (colon zero) path v =
      with_subpath (skip_slashes (drop 1 path)) (current_root (vfs_getcurdir v))
  getdevice_at (colon (suc i)) path v =
      with_subpath (skip_slashes (drop (suc i + 1) path))
        (vfs_getroot ops v.knowndevs (take (suc i) path) v.world)

  pub getdevice : List ℕ → Vfs W → Option (Got × List ℕ × W)
  getdevice path v = getdevice_at (first_mark path 0) path v

  pub lookparent_from : Got × List ℕ × W → ℕ → Got × List ℕ × W
  lookparent_from (err result, subpath, w) buflen = (err result, [], w)
  lookparent_from (got startvn, subpath, w) buflen =
      let (parent, buf, w1) =
        if strlen subpath == 0
        then (err einval, [], w)
        else vop_lookparent startvn subpath buflen w in
      (parent, buf, vop_decref startvn w1)

  -- The parent, and the last name of the path.
  pub vfs_lookparent : List ℕ → ℕ → Vfs W → Option (Got × List ℕ × W)
  vfs_lookparent path buflen v = getdevice path v >>= λ start. some (lookparent_from start buflen)

  pub lookup_from : Got × List ℕ × W → Got × W
  lookup_from (err result, subpath, w) = (err result, w)
  lookup_from (got startvn, subpath, w) =
      if strlen subpath == 0
      then (got startvn, w)
      else (let (found, w1) = vop_lookup startvn subpath w in (found, vop_decref startvn w1))

  pub vfs_lookup : List ℕ → Vfs W → Option (Got × W)
  vfs_lookup path v = getdevice path v >>= λ start. some (lookup_from start)

  abbrev drop_old : Option ℕ → W → W
  drop_old none w = w
  drop_old (some old) w = vop_decref old w

  pub vfs_setcurdir : ℕ → Vfs W → ℕ × Vfs W
  vfs_setcurdir dir v =
      let (result, vtype, w) = vop_gettype dir v.world in
      if not (result == 0)
      then (result, record v { world = w })
      else if not (is_dir vtype)
      then (enotdir, record v { world = w })
      else (0, record v { world = drop_old v.t_cwd (vop_incref dir w); t_cwd = some dir })

  pub vfs_clearcurdir : Vfs W → ℕ × Vfs W
  vfs_clearcurdir v = (0, record v { world = drop_old v.t_cwd v.world; t_cwd = none })

  pub chdir_to : Got → Vfs W → ℕ × Vfs W
  chdir_to (err result) v = (result, v)
  chdir_to (got vn) v =
      let (result, v1) = vfs_setcurdir vn v in
      (result, record v1 { world = vop_decref vn v1.world })

  pub vfs_chdir : List ℕ → Vfs W → Option (ℕ × Vfs W)
  vfs_chdir path v =
      vfs_lookup path v >>= λ (found, w). some (chdir_to found (record v { world = w }))

  pub change_bootfs : Option ℕ → Vfs W → Vfs W
  change_bootfs newguy v = record v {
    world = drop_old v.bootfs_vnode v.world;
    bootfs_vnode = newguy;
  }

  pub bootfs_from : Got × W → Vfs W → ℕ × Vfs W
  bootfs_from (err result, w) v = (result, record v { world = w })
  bootfs_from (got newguy, w) v = (0, change_bootfs (some newguy) (record v { world = w }))

  -- From the name with its colon on.
  pub set_boot_dir : List ℕ → Vfs W → Option (ℕ × Vfs W)
  set_boot_dir tmp v = vfs_chdir tmp v >>= λ (result, v1).
      (if not (result == 0) then some (result, v1) else some (bootfs_from (vfs_getcurdir v1) v1))

  -- With what strchr finds of a colon.
  pub set_boot_name : Option (List ℕ) → List ℕ → Vfs W → Option (ℕ × Vfs W)
  set_boot_name none tmp v = set_boot_dir (tmp ++ (b':' ∷ [])) v
  set_boot_name (some s) tmp v = if ltb 0 (strlen s) then some (einval, v) else set_boot_dir tmp v

  pub vfs_setbootfs : List ℕ → Vfs W → Option (ℕ × Vfs W)
  vfs_setbootfs fsname v =
      let tmp = take (name_max - 1) fsname in set_boot_name (strchr tmp b':') tmp v

  pub vfs_clearbootfs : Vfs W → Vfs W
  vfs_clearbootfs v = change_bootfs none v
