-- ===== src/Vfs/Devices.antt =====
-- os161/kern/fs/vfs/vfslist.c: the list of the named devices. Each call holds knowndevs_lock from its
-- first look at the list to its last, so no other call stands between.
pub mod Names
pub mod Adds
use harvard_os.Prelude.{
  ℕ, Bool, true, false, not, ◌&&◌, ◌||◌, Option, none, some, List, [], ◌∷◌, ◌++◌, ◌==◌,
  if◌then◌else◌, ◌>>=◌, ◌>>◌, assert,
}
use harvard_os.Errno.{einval, enomem, enxio, enodev, ebusy, eexist}
use harvard_os.Vfs.{Got, got, err, FsOps, KnownDev, Vfs, equal}

abbrev pub is_null : {A : Type 0} → Option A → Bool
is_null none = true
is_null (some a) = false

-- `kd_fs`, when it is the file system.
abbrev is_fs : Option ℕ → ℕ → Bool
is_fs none fs = false
is_fs (some f) fs = f == fs

raw : List ℕ
raw = b'r' ∷ b'a' ∷ b'w' ∷ []

pub mkrawname : List ℕ → List ℕ
mkrawname name = name ++ raw

pub samestring : Option (List ℕ) → Option (List ℕ) → Bool
samestring none b = false
samestring (some a) none = false
samestring (some a) (some b) = equal a b

pub samestring3 : Option (List ℕ) → Option (List ℕ) → Option (List ℕ) → Option (List ℕ) → Bool
samestring3 a b c d = samestring a b || samestring a c || samestring a d

-- `a != NULL && !strcmp(a, b)`
abbrev named : Option (List ℕ) → List ℕ → Bool
named none b = false
named (some a) b = equal a b

-- What each step of vfs_doadd that asks for memory gets.
pub record AddMem : Type 0 where
  pub name_ok : Bool
  pub rawname_ok : Bool
  pub kd_ok : Bool
  pub array_ok : Bool

module _ {W : Type 0} (ops : FsOps W) where
  open ops use {
    fsop_getvolname, fsop_getroot, fsop_sync, fsop_unmount, dev_create_vnode, vop_incref,
  }

  abbrev pub volname_of : Option ℕ → Option (List ℕ)
  volname_of none = none
  volname_of (some fs) = fsop_getvolname fs

  -- The device itself.
  abbrev device_vnode : KnownDev → W → Option (Option (Got × W))
  device_vnode kd w = some (some (got kd.kd_vnode, vop_incref kd.kd_vnode w))

  -- The rest of a round, once the tests on the file system have failed.
  pub getroot_device : KnownDev → List ℕ → W → Option (Option (Got × W))
  getroot_device kd devname w =
      if equal kd.kd_name devname
      then (assert (is_null kd.kd_fs)
          >> (assert (is_null kd.kd_rawname)
              >> (assert (not (is_null kd.kd_device)) >> device_vnode kd w)))
      else if named kd.kd_rawname devname
      then (assert (not (is_null kd.kd_device)) >> device_vnode kd w)
      else some none

  abbrev root_of : ℕ → W → Option (Option (Got × W))
  root_of fs w = some (some (got (fsop_getroot fs w).0, (fsop_getroot fs w).1))

  -- One round of the loop of vfs_getroot; `some none` goes on.
  pub getroot_round : KnownDev → Option ℕ → List ℕ → W → Option (Option (Got × W))
  getroot_round kd (some fs) devname w =
      if equal kd.kd_name devname || named (fsop_getvolname fs) devname
      then root_of fs w
      else getroot_device kd devname w
  getroot_round kd none devname w =
      if not (is_null kd.kd_rawname) && equal kd.kd_name devname
      then some (some (err enxio, w))
      else getroot_device kd devname w

  pub vfs_getroot : List KnownDev → List ℕ → W → Option (Got × W)
  vfs_getroot [] devname w = some (err enodev, w)
  vfs_getroot (kd ∷ devs) devname w = getroot_round kd kd.kd_fs devname w >>= λ found. elim found [
    | some answer ↦ some answer
    | none ↦ vfs_getroot devs devname w
  ]

  pub vfs_getdevname : List KnownDev → ℕ → Option (List ℕ)
  vfs_getdevname [] fs = none
  vfs_getdevname (kd ∷ devs) fs =
      if is_fs kd.kd_fs fs then some kd.kd_name else vfs_getdevname devs fs

  pub badnames : List KnownDev → Option (List ℕ) → Option (List ℕ) → Option (List ℕ) → Bool
  badnames [] n1 n2 n3 = false
  badnames (kd ∷ devs) n1 n2 n3 =
      samestring3 (volname_of kd.kd_fs) n1 n2 n3
      || samestring3 kd.kd_rawname n1 n2 n3
      || samestring3 (some kd.kd_name) n1 n2 n3
      || badnames devs n1 n2 n3

  -- From the lock on.
  pub add_known : KnownDev → Bool → Vfs W → ℕ × Vfs W
  add_known kd array_ok v =
      if badnames v.knowndevs (some kd.kd_name) kd.kd_rawname (volname_of kd.kd_fs)
      then (eexist, v)
      else if array_ok
      then (0, record v { knowndevs = v.knowndevs ++ (kd ∷ []) })
      else (enomem, v)

  -- With the vnode that dev_create_vnode made, if it made one.
  pub add_vnode : List ℕ → Bool → Option ℕ → Option ℕ → AddMem → Option ℕ → Vfs W → ℕ × Vfs W
  add_vnode dname mountable dev fs mem none v = (enomem, v)
  add_vnode dname mountable dev fs mem (some vnode) v =
      if mem.kd_ok
      then add_known
          (record {
            kd_name = dname;
            kd_rawname = if mountable then some (mkrawname dname) else none;
            kd_device = dev;
            kd_vnode = vnode;
            kd_fs = fs;
          })
          mem.array_ok v
      else (enomem, v)

  pub vfs_doadd : List ℕ → Bool → Option ℕ → Option ℕ → AddMem → Vfs W → ℕ × Vfs W
  vfs_doadd dname mountable dev fs mem v =
      if not mem.name_ok || (mountable && not mem.rawname_ok)
      then (enomem, v)
      else (let (vnode, w) = dev_create_vnode dev v.world in
          add_vnode dname mountable dev fs mem vnode (record v { world = w }))

  pub vfs_adddev : List ℕ → ℕ → Bool → AddMem → Vfs W → ℕ × Vfs W
  vfs_adddev devname dev mountable mem v = vfs_doadd devname mountable (some dev) none mem v

  pub vfs_addfs : List ℕ → ℕ → AddMem → Vfs W → ℕ × Vfs W
  vfs_addfs devname fs mem v = vfs_doadd devname false none (some fs) mem v

  -- The loop of vfs_sync.
  pub sync_all : List KnownDev → W → W
  sync_all [] w = w
  sync_all (kd ∷ devs) w = sync_all devs (elim kd.kd_fs [ none ↦ w | some fs ↦ (fsop_sync fs w).1 ])

  pub vfs_sync : Vfs W → ℕ × Vfs W
  vfs_sync v = (0, record v { world = sync_all v.knowndevs v.world })
