-- ===== src/Sfs/File.antt =====
-- os161/kern/fs/sfs/sfs_vnode.c: reads and writes of a file, from sfs_partialio to sfs_io. Offsets are
-- not negative, which sfs_tryseek checks.
pub mod Reads
use harvard_os.Prelude.{
  ℕ, zero, suc, ◌+◌, ◌-◌, ◌*◌, ◌/◌, ◌%◌, ◌^◌, Bool, true, false, not, ◌&&◌, Option, some, List,
  ◌++◌, ltb, leb, ◌==◌, if◌then◌else◌, take, drop, replicate, ◌>>=◌, ◌>>◌, assert, word_mod,
}
use harvard_os.Uio.{Rw, uio_read, uio_write, Uio, sub_word, uiomove, uiomovezeros}
use harvard_os.Sfs.{SfsFs, sfs_blocksize, sfs_rwblock, sfs_rblock, sfs_wblock}
use harvard_os.Sfs.Inode.{SfsVnode}
use harvard_os.Sfs.Bmap.{sfs_bmap}

abbrev pub is_write : Rw → Bool
is_write uio_read = false
is_write uio_write = true

-- What every operation hands back.
abbrev pub Done : Type 0
Done = ℕ × Uio × SfsVnode × SfsFs

-- The buffer before the move: the block, or zeros where none is mapped.
pub load_block : ℕ → Rw → SfsFs → Option (ℕ × List ℕ × SfsFs)
load_block diskblock rw sfs = elim (diskblock == 0) [
  | true ↦ assert (not (is_write rw)) >> some (0, replicate sfs_blocksize 0, sfs)
  | false ↦ sfs_rblock diskblock sfs
]

-- The move, and on a write the block back.
pub move_block : ℕ → ℕ → ℕ → List ℕ → Uio → SfsVnode → SfsFs → Option Done
move_block diskblock skipstart len iobuf uio sv sfs =
    uiomove (drop skipstart iobuf) len uio >>= λ (result, buf, uio1).
    (elim (result == 0 && is_write uio.uio_rw) [
      | false ↦ some (result, uio1, sv, sfs)
      | true ↦
          (sfs_wblock (take skipstart iobuf ++ buf) diskblock sfs >>= λ (written, sfs1).
          some (written, uio1, sv, sfs1))
    ])

pub sfs_partialio : ℕ → ℕ → Uio → SfsVnode → SfsFs → Option Done
sfs_partialio skipstart len uio sv sfs =
    assert (leb (skipstart + len) sfs_blocksize)
    >> (sfs_bmap (uio.uio_offset / sfs_blocksize) (is_write uio.uio_rw) sv sfs
        >>= λ (result, diskblock, sv1, sfs1). (elim (result == 0) [
          | false ↦ some (result, uio, sv1, sfs1)
          | true ↦
              (load_block diskblock uio.uio_rw sfs1 >>= λ (loaded, iobuf, sfs2).
              (elim (loaded == 0) [
                | false ↦ some (loaded, uio, sv1, sfs2)
                | true ↦ move_block diskblock skipstart len iobuf uio sv1 sfs2
              ]))
        ]))

-- The whole block straight between the disk and the uio, whose offset and residue are the disk's
-- meanwhile.
pub disk_io : ℕ → Uio → SfsVnode → SfsFs → Option Done
disk_io diskblock uio sv sfs =
    let diskoff = diskblock * sfs_blocksize in
    assert (leb sfs_blocksize uio.uio_resid)
    >> (sfs_rwblock (record uio { uio_offset = diskoff; uio_resid = sfs_blocksize }) sfs
        >>= λ (result, uio1, sfs1). some (
          result,
          record uio1 {
            uio_offset = (uio1.uio_offset - diskoff) + uio.uio_offset;
            uio_resid = (sub_word uio1.uio_resid sfs_blocksize + uio.uio_resid) % word_mod;
          },
          sv,
          sfs1,
        ))

pub sfs_blockio : Uio → SfsVnode → SfsFs → Option Done
sfs_blockio uio sv sfs =
    sfs_bmap (uio.uio_offset / sfs_blocksize) (is_write uio.uio_rw) sv sfs
    >>= λ (result, diskblock, sv1, sfs1). (elim (result == 0) [
      | false ↦ some (result, uio, sv1, sfs1)
      | true ↦ elim (diskblock == 0) [
        | true ↦
            assert (not (is_write uio.uio_rw))
            >> (uiomovezeros sfs_blocksize uio >>= λ (moved, uio1). some (moved, uio1, sv1, sfs1))
        | false ↦ disk_io diskblock uio sv1 sfs1
      ]
    ])

-- `<` of two values of off_t, as words.
abbrev pub off_lt : ℕ → ℕ → Bool
off_lt a b = ltb ((a + 2 ^ 31) % word_mod) ((b + 2 ^ 31) % word_mod)

-- What a read asks for past the end of the file.
pub extra_resid : Uio → ℕ → ℕ
extra_resid uio size =
    let endpos = (uio.uio_offset + uio.uio_resid) % word_mod in
    if off_lt size endpos then sub_word endpos size else 0

-- `for (i=0; i<nblocks; i++)` for the rounds left.
pub whole_blocks : ℕ → Uio → SfsVnode → SfsFs → Option Done
whole_blocks zero uio sv sfs = some (0, uio, sv, sfs)
whole_blocks (suc rounds) uio sv sfs = sfs_blockio uio sv sfs >>= λ (result, uio1, sv1, sfs1).
    (elim (result == 0) [
      | false ↦ some (result, uio1, sv1, sfs1)
      | true ↦ whole_blocks rounds uio1 sv1 sfs1
    ])

pub leading_block : Uio → SfsVnode → SfsFs → Option Done
leading_block uio sv sfs =
    let skip = uio.uio_offset % sfs_blocksize in
    let len = sfs_blocksize - skip in
    elim (skip == 0) [
      | true ↦ some (0, uio, sv, sfs)
      | false ↦ sfs_partialio skip (if ltb uio.uio_resid len then uio.uio_resid else len) uio sv sfs
    ]

pub trailing_block : Uio → SfsVnode → SfsFs → Option Done
trailing_block uio sv sfs =
    assert (ltb uio.uio_resid sfs_blocksize) >> (elim (ltb 0 uio.uio_resid) [
      | true ↦ sfs_partialio 0 uio.uio_resid uio sv sfs
      | false ↦ some (0, uio, sv, sfs)
    ])

-- After a part that succeeded.
abbrev pub and_then : Done → (Uio → SfsVnode → SfsFs → Option Done) → Option Done
and_then (result, uio, sv, sfs) next = elim (result == 0) [
  | true ↦ next uio sv sfs
  | false ↦ some (result, uio, sv, sfs)
]

pub aligned_blocks : Uio → SfsVnode → SfsFs → Option Done
aligned_blocks uio sv sfs = elim (uio.uio_resid == 0) [
  | true ↦ some (0, uio, sv, sfs)
  | false ↦
      assert (uio.uio_offset % sfs_blocksize == 0)
      >> (whole_blocks (uio.uio_resid / sfs_blocksize) uio sv sfs >>= λ out.
          and_then out trailing_block)
]

pub all_blocks : Uio → SfsVnode → SfsFs → Option Done
all_blocks uio sv sfs = leading_block uio sv sfs >>= λ out. and_then out aligned_blocks

-- The label `out`.
pub finish_io : ℕ → Done → Done
finish_io extraresid (result, uio, sv, sfs) = (
  result,
  record uio { uio_resid = (uio.uio_resid + extraresid) % word_mod },
  (if is_write uio.uio_rw && off_lt sv.sv_i.sfi_size uio.uio_offset
      then record sv { sv_i = record sv.sv_i { sfi_size = uio.uio_offset }; sv_dirty = true }
      else sv),
  sfs,
)

pub read_io : Uio → SfsVnode → SfsFs → Option Done
read_io uio sv sfs =
    let size = sv.sv_i.sfi_size in
    let extra = extra_resid uio size in
    if not (off_lt uio.uio_offset size)
    then some (0, uio, sv, sfs)
    else assert (ltb extra uio.uio_resid)
      >> (all_blocks (record uio { uio_resid = uio.uio_resid - extra }) sv sfs >>= λ out.
          some (finish_io extra out))

pub sfs_io : Uio → SfsVnode → SfsFs → Option Done
sfs_io uio sv sfs = elim uio.uio_rw [
  | uio_read ↦ read_io uio sv sfs
  | uio_write ↦ (all_blocks uio sv sfs >>= λ out. some (finish_io 0 out))
]
