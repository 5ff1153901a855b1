-- ===== src/Vfs.antt =====
-- os161/kern/fs/vfs: what the VFS layer keeps, and what it calls of file systems and vnodes.
pub mod Vnode
pub mod Devices
pub mod Mounts
pub mod Lookup
pub mod Calls
mod Tests
use harvard_os.Prelude.{ℕ, Bool, true, false, Option, List}
use harvard_os.Libc.{Sign, same, below, above, strcmp}

-- A vnode that a call hands back, or its error number.
pub data Got : Type 0 where
  got : ℕ → Got
  err : ℕ → Got

-- The calls of a file system and of a vnode, through their tables of functions, on a state `W` of
-- all of them. A device, a file system and a vnode are numbers.
pub record FsOps (W : Type 0) : Type 0 where
  pub fsop_getvolname : ℕ → Option (List ℕ)
  pub fsop_getroot : ℕ → W → ℕ × W
  pub fsop_sync : ℕ → W → ℕ × W
  pub fsop_unmount : ℕ → W → ℕ × W
  pub dev_create_vnode : Option ℕ → W → Option ℕ × W
  pub vop_incref : ℕ → W → W
  pub vop_decref : ℕ → W → W
  pub vop_incopen : ℕ → W → W
  pub vop_decopen : ℕ → W → W
  pub vn_fs : ℕ → Option ℕ
  pub vop_gettype : ℕ → W → ℕ × ℕ × W
  pub vop_open : ℕ → ℕ → W → ℕ × W
  pub vop_truncate : ℕ → ℕ → W → ℕ × W
  pub vop_lookup : ℕ → List ℕ → W → Got × W
  pub vop_lookparent : ℕ → List ℕ → ℕ → W → Got × List ℕ × W
  pub vop_creat : ℕ → List ℕ → Bool → W → Got × W
  pub vop_remove : ℕ → List ℕ → W → ℕ × W
  pub vop_rename : ℕ → List ℕ → ℕ → List ℕ → W → ℕ × W
  pub vop_link : ℕ → List ℕ → ℕ → W → ℕ × W
  pub vop_symlink : ℕ → List ℕ → List ℕ → W → ℕ × W
  pub vop_mkdir : ℕ → List ℕ → W → ℕ × W
  pub vop_rmdir : ℕ → List ℕ → W → ℕ × W

-- `struct knowndev`, with NULL as `none`.
pub record KnownDev : Type 0 where
  pub kd_name : List ℕ
  pub kd_rawname : Option (List ℕ)
  pub kd_device : Option ℕ
  pub kd_vnode : ℕ
  pub kd_fs : Option ℕ

-- The globals of vfslist.c and vfslookup.c, and the directory of the thread.
pub record Vfs (W : Type 0) : Type 0 where
  pub world : W
  pub knowndevs : List KnownDev
  pub bootfs_vnode : Option ℕ
  pub t_cwd : Option ℕ

-- `!strcmp(a, b)`
abbrev pub equal : List ℕ → List ℕ → Bool
equal a b = elim (strcmp a b) [ Sign.same ↦ true | Sign.below ↦ false | Sign.above ↦ false ]
