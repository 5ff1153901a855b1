-- ===== src/Sfs/Bmap/Refine.antt =====
-- sfs_bmap against the map that a file stands for.
use harvard_os.Prelude.{
  ℕ, ◌+◌, ◌-◌, ◌/◌, ◌≤◌, ◌<◌, ◌≡◌, refl, Bool, false, some, List, length, arith, lt→ltb, le→ltb,
}
use native.Mathlib.Decide.{dec_lt}
use harvard_os.Errno.{einval}
use harvard_os.Lhd.Sectors.{read_disk}
use harvard_os.Sfs.{SfsFs}
use harvard_os.Sfs.Inode.{Inode, SfsVnode}
use harvard_os.Sfs.Alloc.{IsFs}
use harvard_os.Sfs.Bmap.Indirect.{indirect-lookup}
use harvard_os.Sfs.Bmap.{sfs_bmap, bmap_indirect}
use harvard_os.Sfs.Bmap.Mapping.{entry, file_map, IsFile}
use harvard_os.Sfs.Bmap.Direct.{bmap_direct-lookup}

past :
    (i : Inode) (sectors : ℕ → List ℕ) (b : ℕ)
    → ¬ (b < 15)
    → file_map i sectors b ≡ entry i.sfi_indirect sectors (b - 15)
unfolding file_map
past i sectors b high = rw (le→ltb b 15 (omega arith)) refl

-- Without DOALLOC, sfs_bmap on a block within the reach of an inode, on a disk without errors, hands
-- back the disk block that the file has there, 0 for a hole, and neither the file nor the free map nor
-- a sector changes.
pub sfs_bmap-lookup :
    (fileblock : ℕ) (sv : SfsVnode) (sfs : SfsFs)
    → IsFs sfs
    → IsFile sv sfs
    → fileblock < 15 + 128
    → (buf : List ℕ) × (sfs_bmap fileblock false sv sfs
        ≡ some (
          0,
          file_map sv.sv_i sfs.sfs_device.sectors fileblock,
          sv,
          record sfs { sfs_device = read_disk buf sfs.sfs_device },
        ))
      × (length buf ≡ 512)
unfolding sfs_bmap
sfs_bmap-lookup fileblock sv sfs v f h = elim (dec_lt fileblock 15) [
  | yes low ↦ (
    sfs.sfs_device.lh_buf,
    rw (sfs_bmap, lt→ltb fileblock 15 low) (bmap_direct-lookup fileblock sv sfs v f low),
    v.disk.buffer,
  )
  | no high ↦
      let (buf, ran, len) = indirect-lookup sv sfs v f (fileblock - 15) (omega arith) in
      (
        buf,
        rw
            (
              sfs_bmap,
              le→ltb fileblock 15 (omega arith),
              past sv.sv_i sfs.sfs_device.sectors fileblock high,
            )
            ran,
        len,
      )
]

-- Past the reach of an inode sfs_bmap is EINVAL and changes nothing.
pub sfs_bmap-einval :
    (fileblock : ℕ) (doalloc : Bool) (sv : SfsVnode) (sfs : SfsFs)
    → 15 + 128 ≤ fileblock
    → sfs_bmap fileblock doalloc sv sfs ≡ some (einval, 0, sv, sfs)
unfolding sfs_bmap bmap_indirect
sfs_bmap-einval fileblock doalloc sv sfs h =
    rw
      (
        sfs_bmap,
        le→ltb fileblock 15 (omega arith),
        bmap_indirect,
        lt→ltb 0 ((fileblock - 15) / 128) (omega arith),
      )
      refl
