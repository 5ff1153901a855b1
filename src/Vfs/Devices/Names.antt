-- ===== src/Vfs/Devices/Names.antt =====
-- The names of the devices as one table.
use harvard_os.Prelude.{
  ℕ, ◌≡◌, refl, Bool, true, not, ◌&&◌, ◌||◌, Option, none, some, List, [], ◌∷◌, ◌++◌, if◌then◌else◌,
  Bool-cases, Option-cases, inl, inr, arith,
}
use harvard_os.Errno.{enxio, enodev}
use harvard_os.Vfs.{Got, got, err, FsOps, KnownDev, equal}
use harvard_os.Vfs.Devices.{is_null, getroot_device, getroot_round, vfs_getroot}

-- What a name stands for: the root of a file system, a device, or one that needs a mount.
pub data Answer : Type 0 where
  root self : ℕ → Answer
  unmounted : Answer

abbrev pub Table : Type 0
Table = List (List ℕ × Answer)

-- A device that answers to a name by itself is not NULL.
abbrev pub has_device : KnownDev → Bool
has_device kd = not (is_null kd.kd_device) || (not (is_null kd.kd_fs) && is_null kd.kd_rawname)

abbrev pub HaveDevices : List KnownDev → Type 0
HaveDevices [] = Unit
HaveDevices (kd ∷ devs) = (has_device kd ≡ true) × HaveDevices devs

abbrev pub entry : Option (List ℕ) → Answer → Table
entry none a = []
entry (some name) a = (name, a) ∷ []

unfoldable pub find : Table → List ℕ → Option Answer
find [] devname = none
find ((name, a) ∷ rest) devname = if equal name devname then some a else find rest devname

pub find-append :
    (t u : Table) (devname : List ℕ)
    → find (t ++ u) devname ≡ elim (find t devname) [ some a ↦ some a | none ↦ find u devname ]
unfolding find
find-append [] u devname = refl
find-append ((name, a) ∷ t) u devname = elim (Bool-cases (equal name devname)) [
  | inl e ↦ rw e refl
  | inr e ↦ rw e (find-append t u devname)
]

abbrev known : List ℕ → Option (List ℕ) → Option ℕ → ℕ → Option ℕ → KnownDev
known name rawname device vnode fs = record {
  kd_name = name;
  kd_rawname = rawname;
  kd_device = device;
  kd_vnode = vnode;
  kd_fs = fs;
}

module _ {W : Type 0} (ops : FsOps W) where
  open ops use {fsop_getvolname, fsop_getroot, vop_incref}

  -- The name, the name of the volume and the raw name, in the order of the tests.
  abbrev pub names_by : List ℕ → Option (List ℕ) → ℕ → Option ℕ → Table
  names_by name rawname vnode (some fs) =
      (name, root fs) ∷ (entry (fsop_getvolname fs) (root fs) ++ entry rawname (self vnode))
  names_by name none vnode none = (name, self vnode) ∷ []
  names_by name (some rawname) vnode none = (name, unmounted) ∷ (rawname, self vnode) ∷ []

  unfoldable pub names_of : KnownDev → Table
  names_of kd = names_by kd.kd_name kd.kd_rawname kd.kd_vnode kd.kd_fs

  unfoldable pub table : List KnownDev → Table
  table [] = []
  table (kd ∷ devs) = names_of kd ++ table devs

  abbrev pub reply : Answer → W → Got × W
  reply (root fs) w = (got (fsop_getroot fs w).0, (fsop_getroot fs w).1)
  reply (self vnode) w = (got vnode, vop_incref vnode w)
  reply unmounted w = (err enxio, w)

  unfoldable pub respond : Option Answer → W → Got × W
  respond none w = (err enodev, w)
  respond (some a) w = reply a w

  abbrev told : Option Answer → W → Option (Got × W)
  told none w = none
  told (some a) w = some (reply a w)

  device-by :
      (name : List ℕ) (rawname : Option (List ℕ)) (device : Option ℕ) (vnode : ℕ) (fs : Option ℕ)
      (devname : List ℕ) (w : W)
      → has_device (known name rawname device vnode fs) ≡ true
      → getroot_round ops (known name rawname device vnode fs) fs devname w
        ≡ some (told (find (names_of (known name rawname device vnode fs)) devname) w)
  unfolding getroot_round getroot_device find names_of
  device-by name none none vnode none devname w h = cc
  device-by name none (some d) vnode none devname w h = ground arith
  device-by name (some r) none vnode none devname w h = cc
  device-by name (some r) (some d) vnode none devname w h = ground arith
  device-by name none device vnode (some f) devname w h = elim (Option-cases (fsop_getvolname f)) [
    | inl e ↦ rw e (ground arith)
    | inr (vol, e) ↦ rw e (ground arith)
  ]
  device-by name (some r) none vnode (some f) devname w h = cc
  device-by name (some r) (some d) vnode (some f) devname w h =
      elim (Option-cases (fsop_getvolname f)) [
        | inl e ↦ rw e (ground arith)
        | inr (vol, e) ↦ rw e (ground arith)
      ]

  -- vfs_getroot answers by the first entry of the table for the name, without a panic, and is
  -- ENODEV for a name that is not in it.
  pub vfs_getroot_lem :
      (devs : List KnownDev) (devname : List ℕ) (w : W)
      → HaveDevices devs
      → vfs_getroot ops devs devname w ≡ some (respond (find (table devs) devname) w)
  unfolding vfs_getroot table respond find
  vfs_getroot_lem [] devname w h = refl
  vfs_getroot_lem (kd ∷ devs) devname w h =
      rw
        (
          device-by kd.kd_name kd.kd_rawname kd.kd_device kd.kd_vnode kd.kd_fs devname w h.0,
          find-append (names_of kd) (table devs) devname,
        )
        (elim (Option-cases (find (names_of kd) devname)) [
          | inl e ↦ rw e (vfs_getroot_lem devs devname w h.1)
          | inr (a, e) ↦ rw e refl
        ])
