-- ===== src/Vfs/Mounts.antt =====
-- os161/kern/fs/vfs/vfslist.c: mounting and unmounting. A known device is named by its place in the list.
pub mod Trips
use harvard_os.Prelude.{
  ℕ, zero, suc, ◌+◌, Bool, true, false, not, ◌&&◌, ◌||◌, Option, none, some, List, [], ◌∷◌, ◌==◌,
  if◌then◌else◌, ◌>>=◌, ◌>>◌, assert, get_elem?, set,
}
use mathlib.Core.Option
use harvard_os.Errno.{einval, enodev, ebusy}
use harvard_os.Vfs.{Got, got, err, FsOps, KnownDev, Vfs, equal}
use harvard_os.Vfs.Devices.{is_null}

-- The place of the mountable device with the name.
unfoldable pub findmount : List KnownDev → List ℕ → Option ℕ
findmount [] devname = none
findmount (kd ∷ devs) devname = elim (not (is_null kd.kd_rawname) && equal devname kd.kd_name) [
  | true ↦ some 0
  | false ↦ Option.map suc (findmount devs devname)
]

-- `kd->kd_fs = fs` of the device at a place.
unfoldable pub set_fs : List KnownDev → ℕ → Option ℕ → List KnownDev
set_fs [] i fs = []
set_fs (kd ∷ devs) zero fs = record kd { kd_fs = fs } ∷ devs
set_fs (kd ∷ devs) (suc i) fs = kd ∷ set_fs devs i fs

module _ {W : Type 0} (ops : FsOps W) where
  open ops use {fsop_sync, fsop_unmount}

  -- What the file system's function made.
  unfoldable pub mount_made : ℕ → Vfs W → Got × W → ℕ × Vfs W
  mount_made i v (err result, w) = (result, record v { world = w })
  mount_made i v (got fs, w) =
      (0, record v { world = w; knowndevs = set_fs v.knowndevs i (some fs) })

  -- With the device that findmount found.
  unfoldable pub mount_at : (Option ℕ → W → Got × W) → ℕ → KnownDev → Vfs W → Option (ℕ × Vfs W)
  mount_at mountfunc i kd v =
      if not (is_null kd.kd_fs)
      then some (ebusy, v)
      else (assert (not (is_null kd.kd_rawname))
          >> (assert (not (is_null kd.kd_device))
              >> some (mount_made i v (mountfunc kd.kd_device v.world))))

  -- `mountfunc` sets the file system up on a device.
  unfoldable pub vfs_mount : List ℕ → (Option ℕ → W → Got × W) → Vfs W → Option (ℕ × Vfs W)
  vfs_mount devname mountfunc v = elim (findmount v.knowndevs devname) [
    | none ↦ some (enodev, v)
    | some i ↦ get_elem? v.knowndevs i >>= λ kd. mount_at mountfunc i kd v
  ]

  -- The file system is written out and given up.
  pub unmount_fs : ℕ → ℕ → Vfs W → ℕ × Vfs W
  unmount_fs i fs v =
      let (result, w) = fsop_sync fs v.world in
      if not (result == 0)
      then (result, record v { world = w })
      else (let (result1, w1) = fsop_unmount fs w in
          if not (result1 == 0)
          then (result1, record v { world = w1 })
          else (0, record v { world = w1; knowndevs = set_fs v.knowndevs i none }))

  pub unmount_at : ℕ → KnownDev → Option ℕ → Vfs W → Option (ℕ × Vfs W)
  unmount_at i kd none v = some (einval, v)
  unmount_at i kd (some fs) v =
      assert (not (is_null kd.kd_rawname))
      >> (assert (not (is_null kd.kd_device)) >> some (unmount_fs i fs v))

  pub vfs_unmount : List ℕ → Vfs W → Option (ℕ × Vfs W)
  vfs_unmount devname v = elim (findmount v.knowndevs devname) [
    | none ↦ some (enodev, v)
    | some i ↦ get_elem? v.knowndevs i >>= λ kd. unmount_at i kd kd.kd_fs v
  ]

  -- FSOP_UNMOUNT of vfs_unmountall, which keeps the file system on any error.
  abbrev last_unmount : KnownDev → ℕ → W → KnownDev × W
  last_unmount kd fs w =
      let (result, w1) = fsop_unmount fs w in
      if not (result == 0) then (kd, w1) else (record kd { kd_fs = none }, w1)

  -- A round of vfs_unmountall, with the second try of FSOP_SYNC.
  pub unmount_one : KnownDev → Option (List ℕ) → Option ℕ → W → KnownDev × W
  unmount_one kd none fs w = (kd, w)
  unmount_one kd (some rawname) none w = (kd, w)
  unmount_one kd (some rawname) (some fs) w =
      let (result, w1) = fsop_sync fs w in
      if not (result == 0)
      then (let (result1, w2) = fsop_sync fs w1 in
          if not (result1 == 0) then (kd, w2) else last_unmount kd fs w2)
      else last_unmount kd fs w1

  pub unmount_list : List KnownDev → W → List KnownDev × W
  unmount_list [] w = ([], w)
  unmount_list (kd ∷ devs) w =
      let (kd1, w1) = unmount_one kd kd.kd_rawname kd.kd_fs w in
      let (devs1, w2) = unmount_list devs w1 in (kd1 ∷ devs1, w2)

  pub vfs_unmountall : Vfs W → ℕ × Vfs W
  vfs_unmountall v =
      let (devs, w) = unmount_list v.knowndevs v.world in
      (0, record v { world = w; knowndevs = devs })
