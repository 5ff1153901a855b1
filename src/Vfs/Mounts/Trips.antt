-- ===== src/Vfs/Mounts/Trips.antt =====
-- vfs_mount and vfs_unmount one after the other.
use harvard_os.Prelude.{◌⊎◌, ℕ, ◌≡◌, ◌≢◌, false, Option, none, some, List, get_elem?}
use mathlib.Core.Option
use harvard_os.Vfs.{FsOps, KnownDev, Vfs}
use harvard_os.Vfs.Devices.{is_null}
use harvard_os.Vfs.Mounts.{findmount, set_fs}

abbrev Zeroed : {B : Type 0} → ℕ → B → B → Type 0
Zeroed {B} n x y = ◌≡◌ {A = Option (ℕ × B)} (some (n, x)) (some (0, y))

module _ {W : Type 0} (ops : FsOps W) where
  open ops use {fsop_sync, fsop_unmount}

  -- What a mount that returned 0 did.
  abbrev Mounted : List ℕ → Vfs W → Vfs W → Type 0
  Mounted devname v v1 =
      (i fs : ℕ) × (kd : KnownDev) × (w : W) × (findmount v.knowndevs devname ≡ some i)
      × (get_elem? v.knowndevs i ≡ some kd)
      × (kd.kd_fs ≡ none)
      × (is_null kd.kd_rawname ≡ false)
      × (is_null kd.kd_device ≡ false)
      × (v1 ≡ record v { world = w; knowndevs = set_fs v.knowndevs i (some fs) })

  -- vfs_unmount of a file system in world `w`, by the answers of FSOP_SYNC and FSOP_UNMOUNT: the
  -- first error is the result and the devices stay as in `v1`, or they are again those of `v`.
  abbrev pub Unmounted : ℕ → Vfs W → Vfs W → Option (ℕ × Vfs W) → Type 0
  Unmounted fs v v1 outcome =
      let (result, w) = fsop_sync fs v1.world in
      let (result1, w1) = fsop_unmount fs w in
      ((result ≢ 0) × (outcome ≡ some (result, record v1 { world = w })))
      ⊎ ((result ≡ 0) × (result1 ≢ 0) × (outcome ≡ some (result1, record v1 { world = w1 })))
      ⊎ ((result ≡ 0) × (result1 ≡ 0) × (outcome ≡ some (0, record v { world = w1 })))

  module _ (devname : List ℕ) (v : Vfs W) (i fs : ℕ) (kd : KnownDev) (w : W)
      (e : findmount v.knowndevs devname ≡ some i) (f : get_elem? v.knowndevs i ≡ some kd)
      (g : kd.kd_fs ≡ none) (r : is_null kd.kd_rawname ≡ false)
      (d : is_null kd.kd_device ≡ false) where
    abbrev mounted : Vfs W
    mounted = record v { world = w; knowndevs = set_fs v.knowndevs i (some fs) }
