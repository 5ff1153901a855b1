-- ===== src/Vfs/Tests.antt =====
-- Runs of the VFS layer on a small world of reference counts, and instances of the theorems.
use harvard_os.Prelude.{
  ℕ, ◌+◌, ◌-◌, ◌≡◌, refl, true, false, Option, none, some, [], ◌∷◌, ◌++◌, arith,
}
use harvard_os.Errno.{einval}
use harvard_os.Vfs.{Got, got, FsOps, KnownDev, Vfs}
use harvard_os.Vfs.Devices.{AddMem, vfs_getroot, vfs_doadd}
use harvard_os.Vfs.Devices.Names.{find, table, respond, vfs_getroot_lem}
use harvard_os.Vfs.Devices.Adds.{Outcome, vfs_doadd_lem}
use harvard_os.Vfs.Lookup.{getdevice, vfs_setbootfs}
use harvard_os.Vfs.Lookup.Forms.{Form, written, start_of, getdevice-start_of}
use harvard_os.Vfs.Lookup.Bootfs.{vfs_setbootfs-colon}
use harvard_os.Vfs.Lookup.Refs.{Ledger, counted, counted-CountsRefs, one, Starts}
use harvard_os.Vfs.Calls.{vfs_open, vfs_rename}
use harvard_os.Vfs.Calls.Refs.{Keeps, vfs_open-Starts, vfs_rename-Keeps}

abbrev World : Type 0
World = ℕ → ℕ

abbrev plus : ℕ → World → World
plus vn w u = w u + one vn u

abbrev minus : ℕ → World → World
minus vn w u = w u - one vn u

-- The root of file system f is vnode f, every name is vnode 7, and all else succeeds.
abbrev small_ops : FsOps World
small_ops = record {
  fsop_getvolname = λ fs. some (b'v' ∷ []);
  fsop_getroot = λ fs w. (fs, plus fs w);
  fsop_sync = λ fs w. (0, w);
  fsop_unmount = λ fs w. (0, w);
  dev_create_vnode = λ dev w. (some 9, w);
  vop_incref = plus;
  vop_decref = minus;
  vop_incopen = λ vn w. w;
  vop_decopen = λ vn w. w;
  vn_fs = λ vn. some 1;
  vop_gettype = λ vn w. (0, 8192, w);
  vop_open = λ vn n w. (0, w);
  vop_truncate = λ vn n w. (0, w);
  vop_lookup = λ vn s w. (got 7, plus 7 w);
  vop_lookparent = λ vn s n w. (got 7, s, plus 7 w);
  vop_creat = λ vn s b w. (got 7, plus 7 w);
  vop_remove = λ vn s w. (0, w);
  vop_rename = λ d s e t w. (0, w);
  vop_link = λ d s v w. (0, w);
  vop_symlink = λ d s t w. (0, w);
  vop_mkdir = λ d s w. (0, w);
  vop_rmdir = λ d s w. (0, w);
}

-- A disk "d", which can be mounted on.
abbrev disk : KnownDev
disk = record {
  kd_name = b'd' ∷ [];
  kd_rawname = some (b'd' ∷ b'r' ∷ b'a' ∷ b'w' ∷ []);
  kd_device = some 3;
  kd_vnode = 4;
  kd_fs = none;
}

abbrev one_disk : Vfs World
one_disk = record { world = λ u. 2; knowndevs = disk ∷ []; bootfs_vnode = none; t_cwd = some 5 }

abbrev enough : AddMem
enough = record { name_ok = true; rawname_ok = true; kd_ok = true; array_ok = true }

vfs_getroot_lem_example :
    vfs_getroot small_ops (disk ∷ []) (b'd' ∷ b'r' ∷ b'a' ∷ b'w' ∷ []) (λ u. 2)
    ≡ some (
        respond small_ops
          (find (table small_ops (disk ∷ [])) (b'd' ∷ b'r' ∷ b'a' ∷ b'w' ∷ []))
          (λ u. 2))
vfs_getroot_lem_example =
    vfs_getroot_lem small_ops (disk ∷ []) (b'd' ∷ b'r' ∷ b'a' ∷ b'w' ∷ []) (λ u. 2) (refl, tt)

vfs_doadd_lem_example :
    Outcome small_ops
      (b'e' ∷ [])
      false
      (some 6)
      none
      (disk ∷ [])
      (vfs_doadd small_ops (b'e' ∷ []) false (some 6) none enough one_disk)
vfs_doadd_lem_example = vfs_doadd_lem small_ops (b'e' ∷ []) false (some 6) none enough one_disk

-- "d://f"
getdevice-start_of_example :
    getdevice small_ops (written (Form.device b'd' [] 2 (b'f' ∷ []))) one_disk
    ≡ start_of small_ops (Form.device b'd' [] 2 (b'f' ∷ [])) one_disk
getdevice-start_of_example =
    getdevice-start_of small_ops (Form.device b'd' [] 2 (b'f' ∷ [])) one_disk (omega arith)

-- "d:"
vfs_setbootfs-colon_example :
    vfs_setbootfs small_ops ((b'd' ∷ []) ++ (b':' ∷ [])) one_disk ≡ some (einval, one_disk)
vfs_setbootfs-colon_example = vfs_setbootfs-colon small_ops (b'd' ∷ []) [] one_disk (omega arith)

-- The disk and an empty ledger.
abbrev counted_disk : Vfs (World × Ledger)
counted_disk = record {
  world = ((λ u. 2), (λ u. 0));
  knowndevs = disk ∷ [];
  bootfs_vnode = none;
  t_cwd = some 5;
}

vfs_open-Starts_example :
    Starts {W = World × Ledger}
      (counted small_ops)
      (λ s. s.1)
      (counted-CountsRefs small_ops)
      counted_disk.world
      (vfs_open (counted small_ops) (b'f' ∷ []) 21 counted_disk)
vfs_open-Starts_example = vfs_open-Starts small_ops (b'f' ∷ []) 21 counted_disk (refl, tt)

vfs_rename-Keeps_example :
    Keeps {W = World × Ledger}
      (counted small_ops)
      (λ s. s.1)
      (counted-CountsRefs small_ops)
      counted_disk.world
      (vfs_rename (counted small_ops) (b'f' ∷ []) (b'g' ∷ []) counted_disk)
vfs_rename-Keeps_example =
    vfs_rename-Keeps small_ops (b'f' ∷ []) (b'g' ∷ []) counted_disk (refl, tt)

-- File system 8 on the disk.
abbrev mounted : Vfs World
mounted = record one_disk { knowndevs = record disk { kd_fs = some 8 } ∷ [] }

mount_8 : Option ℕ → World → Got × World
mount_8 dev w = (got 8, w)
