-- ===== src/Sfs.antt =====
-- os161/kern/fs/sfs: the simple file system on a LAMEbus disk. Here: sfs_io.c, and the blocks of
-- sfs_vnode.c up to sfs_bmap. A block is a list of 512 bytes, a word in it four bytes, the high one
-- first; the static buffers that blocks are read into are values. `none` is a panic.
pub mod Words
pub mod Inode
pub mod Blocks
pub mod Retries
pub mod Alloc
pub mod Bmap
pub mod File
pub mod Dir
pub mod Truncate
pub mod Pool
pub mod Files
mod Tests
use harvard_os.Prelude.{
  ℕ, zero, suc, ◌+◌, ◌-◌, ◌*◌, ◌/◌, ◌%◌, Bool, true, false, not, ◌&&◌, ◌||◌, Option, none, some,
  List, [], ◌∷◌, ◌++◌, ltb, leb, ◌==◌, if◌then◌else◌, length, get_or, set, replicate, ◌>>=◌, ◌>>◌,
  assert,
}
use harvard_os.Errno.{einval, eio}
use harvard_os.Bitmap.{Bitmap, bitmap_alloc, bitmap_unmark, bitmap_isset}
use harvard_os.Uio.{Uio, uio_read, uio_write, mk_kuio}
use harvard_os.Lhd.{Disk, lhd_io}

-- The constants of include/kern/sfs.h
abbrev pub sfs_blocksize : ℕ
sfs_blocksize = 512

abbrev pub sfs_ndirect : ℕ
sfs_ndirect = 15

abbrev pub sfs_dbperidb : ℕ
sfs_dbperidb = 128

-- `struct sfs_fs`, less the abstract file system and the table of vnodes; of the super block only
-- the number of blocks is kept.
pub record SfsFs : Type 0 where
  pub sp_nblocks : ℕ
  pub sfs_superdirty : Bool
  pub sfs_device : Disk
  pub sfs_freemap : Bitmap
  pub sfs_freemapdirty : Bool

-- `sfs_rwblock` with so many attempts left.
pub attempts : ℕ → Uio → Disk → Option (ℕ × Uio × Disk)
attempts zero uio d = lhd_io uio d >>= λ (result, uio1, d1).
    assert (not (result == einval)) >> some (result, uio1, d1)
attempts (suc left) uio d = lhd_io uio d >>= λ (result, uio1, d1).
    assert (not (result == einval))
    >> (elim (result == eio) [ true ↦ attempts left uio1 d1 | false ↦ some (result, uio1, d1) ])

-- The first attempt and ten more.
pub sfs_rwblock : Uio → SfsFs → Option (ℕ × Uio × SfsFs)
sfs_rwblock uio sfs = attempts 10 uio sfs.sfs_device >>= λ (result, uio1, d).
    some (result, uio1, record sfs { sfs_device = d })

-- The result, what was read, and the file system.
pub sfs_rblock : ℕ → SfsFs → Option (ℕ × List ℕ × SfsFs)
sfs_rblock block sfs =
    sfs_rwblock (mk_kuio [] sfs_blocksize (block * sfs_blocksize) uio_read) sfs
    >>= λ (result, uio, sfs1). some (result, uio.moved, sfs1)

pub sfs_wblock : List ℕ → ℕ → SfsFs → Option (ℕ × SfsFs)
sfs_wblock bytes block sfs =
    sfs_rwblock (mk_kuio bytes sfs_blocksize (block * sfs_blocksize) uio_write) sfs
    >>= λ (result, uio, sfs1). some (result, sfs1)

pub sfs_clearblock : ℕ → SfsFs → Option (ℕ × SfsFs)
sfs_clearblock block sfs = sfs_wblock (replicate sfs_blocksize 0) block sfs

-- The result, the block, and the file system.
pub sfs_balloc : SfsFs → Option (ℕ × ℕ × SfsFs)
sfs_balloc sfs = bitmap_alloc sfs.sfs_freemap >>= λ (result, index, freemap). (elim index [
  | none ↦ some (result, 0, record sfs { sfs_freemap = freemap })
  | some block ↦
      assert (ltb block sfs.sp_nblocks)
      >> (sfs_clearblock block (record sfs { sfs_freemap = freemap; sfs_freemapdirty = true })
          >>= λ (cleared, sfs1). some (cleared, block, sfs1))
])

pub sfs_bfree : ℕ → SfsFs → Option SfsFs
sfs_bfree block sfs = bitmap_unmark sfs.sfs_freemap block >>= λ freemap.
    some (record sfs { sfs_freemap = freemap; sfs_freemapdirty = true })

pub sfs_bused : ℕ → SfsFs → Option Bool
sfs_bused block sfs =
    assert (ltb block sfs.sp_nblocks)
    >> (bitmap_isset sfs.sfs_freemap block >>= λ bit. some (not (bit == 0)))
