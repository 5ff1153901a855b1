-- ===== src/Sfs/File/Reads.antt =====
-- Reads of whole blocks: sfs_blockio and its loop against the contents of a file.
use harvard_os.Prelude.{
  ℕ, zero, suc, ◌+◌, ◌-◌, ◌*◌, ◌/◌, ◌%◌, ◌≤◌, ◌<◌, ◌≡◌, refl, ap, subst, ◌∙◌, true, false, Option,
  some, List, [], ◌++◌, arith, ltb, leb, le→leb, ◌==◌, if◌then◌else◌, length, replicate, Bool-cases,
  inl, inr, ◌>>=◌, word_mod,
}
use harvard_os.Uio.{Rw, uio_read, Uio, sub_word}
use harvard_os.Uio.Moves.{Fits, moved_all}
use harvard_os.Uio.Delivers.{
  Delivers, nothing, Delivers-trans, moved_all-read, still-Fits, less-Fits, uiomove-Delivers,
  uiomovezeros-Delivers,
}
use harvard_os.Lhd.Sectors.{OneSector, read_disk, lhd_io-read}
use harvard_os.Sfs.{SfsFs, sfs_rwblock}
use harvard_os.Sfs.Inode.{SfsVnode}
use harvard_os.Sfs.Blocks.{attempts-succeeds, take-all}
use harvard_os.Sfs.Alloc.{IsFs, Used}
use harvard_os.Sfs.Bmap.Mapping.{file_map, IsFile}
use harvard_os.Sfs.Bmap.Refine.{sfs_bmap-lookup}
use harvard_os.Sfs.File.{is_write, disk_io, sfs_blockio, whole_blocks}

-- What a file holds in one of its blocks: a hole reads as zeros.
pub contents : SfsVnode → SfsFs → ℕ → List ℕ
contents sv sfs fileblock =
    let block = file_map sv.sv_i sfs.sfs_device.sectors fileblock in
    if block == 0 then replicate 512 0 else sfs.sfs_device.sectors block

-- A file system with another sector in the buffer of its disk.
abbrev pub buffered : List ℕ → SfsFs → SfsFs
buffered buf sfs = record sfs { sfs_device = read_disk buf sfs.sfs_device }

buffered-IsFs : (buf : List ℕ) (sfs : SfsFs) → length buf ≡ 512 → IsFs sfs → IsFs (buffered buf sfs)
buffered-IsFs buf sfs n v = record {
  disk = record { buffer = n; whole = v.disk.whole; disk_size = v.disk.disk_size };
  healthy = v.healthy;
  map = v.map;
  on_disk = v.on_disk;
  bits = v.bits;
  nonempty = v.nonempty;
  beyond = v.beyond;
  reserved = v.reserved;
}

buffered-IsFile :
    (buf : List ℕ) (sv : SfsVnode) (sfs : SfsFs) → IsFile sv sfs → IsFile sv (buffered buf sfs)
buffered-IsFile buf sv sfs f = record {
  directs = f.directs;
  direct_used = f.direct_used;
  indirect_used = f.indirect_used;
  entries_used = f.entries_used;
}

-- A block of the disk straight to the uio.
disk_io-Delivers :
    (block : ℕ) (uio : Uio) (sv : SfsVnode) (sfs : SfsFs)
    → IsFs sfs
    → block < sfs.sp_nblocks
    → Fits 512 uio
    → uio.uio_rw ≡ uio_read
    → (uio1 : Uio) × (disk_io block uio sv sfs
        ≡ some (0, uio1, sv, buffered (sfs.sfs_device.sectors block) sfs))
      × Delivers 512 (sfs.sfs_device.sectors block) uio uio1
unfolding disk_io sfs_rwblock
disk_io-Delivers block uio sv sfs v h f r =
    let d = sfs.sfs_device in
    let uio0 : Uio = record uio { uio_offset = block * 512; uio_resid = 512 } in
    let fits0 : Fits 512 uio0 = record {
      kernel = f.kernel;
      space = f.space;
      room = f.room;
      wanted = omega arith;
      small = omega arith;
    } in
    let one : OneSector block uio0 d = record {
      fits = fits0;
      at_sector = refl;
      one = refl;
      on_disk = omega (arith, h, v.on_disk);
      disk_size = v.disk.disk_size;
    } in
    let (moved, got) = uiomove-Delivers 512 (d.sectors block) uio0 (omega arith) fits0 r in
    let uio2 = (moved_all 512 (d.sectors block) uio0).1 in
    let reads =
      attempts-succeeds 10 uio0 uio2 d (read_disk (moved_all 512 (d.sectors block) uio0).0 d)
        (lhd_io-read block uio0 d one r v.healthy) in
    let enough : leb 512 uio.uio_resid ≡ true = le→leb 512 uio.uio_resid f.wanted in
    let uio1 : Uio = record uio2 {
      uio_offset = (uio2.uio_offset - block * 512) + uio.uio_offset;
      uio_resid = (sub_word uio2.uio_resid 512 + uio.uio_resid) % word_mod;
    } in
    (
      uio1,
      rw (disk_io, enough, sfs_rwblock, reads)
          (ap (λ b. some (0, uio1, sv, buffered b sfs))
            (moved_all-read 512 (d.sectors block) uio0 r)),
      record {
        bytes_are =
            got.bytes_are
            ∙ ap (λ l. uio.moved ++ l) (take-all 512 (d.sectors block) (v.disk.whole block));
        len = got.len;
        resid = omega (arith, got.resid, f.wanted, f.small);
        offset = omega (arith, got.offset);
        segment = got.segment;
        space = got.space;
        direction = got.direction;
      },
    )

file_map-Used :
    (sv : SfsVnode) (sfs : SfsFs) (fileblock : ℕ)
    → IsFile sv sfs
    → Used sfs (file_map sv.sv_i sfs.sfs_device.sectors fileblock)
unfolding file_map
file_map-Used sv sfs fileblock f = elim (Bool-cases (ltb fileblock 15)) [
  | inl t ↦ rw t (f.direct_used fileblock)
  | inr g ↦ rw g (f.entries_used (fileblock - 15))
]

not_write : (rw : Rw) → rw ≡ uio_read → is_write rw ≡ false
not_write rw e = ap is_write e

-- What a read of blocks comes to: the bytes, and a file system with another sector in the buffer.
pub record ReadsBlocks (n : ℕ) (bytes : List ℕ) (uio : Uio) (sv : SfsVnode) (sfs : SfsFs)
    (out : Option (ℕ × Uio × SfsVnode × SfsFs)) : Type 0 where
  pub after : Uio
  pub buf : List ℕ
  pub ran : out ≡ some (0, after, sv, buffered buf sfs)
  pub whole : length buf ≡ 512
  pub delivered : Delivers n bytes uio after

-- A read of one whole block of a file delivers its contents, zeros for a hole.
sfs_blockio-ReadsBlocks :
    (fileblock : ℕ) (uio : Uio) (sv : SfsVnode) (sfs : SfsFs)
    → IsFs sfs
    → IsFile sv sfs
    → fileblock < 15 + 128
    → uio.uio_offset ≡ fileblock * 512
    → Fits 512 uio
    → uio.uio_rw ≡ uio_read
    → ReadsBlocks 512 (contents sv sfs fileblock) uio sv sfs (sfs_blockio uio sv sfs)
unfolding sfs_blockio contents
sfs_blockio-ReadsBlocks fileblock uio sv sfs v f h at fits r =
    let (buf, mapped, len) = sfs_bmap-lookup fileblock sv sfs v f h in
    let block = file_map sv.sv_i sfs.sfs_device.sectors fileblock in
    let off : uio.uio_offset / 512 ≡ fileblock = omega (arith, at) in
    let sfs1 = buffered buf sfs in
    let v1 = buffered-IsFs buf sfs len v in
    elim (Bool-cases (block == 0)) [
      | inl t ↦
          let (uio1, ran, d) = uiomovezeros-Delivers 512 uio fits r in
          record {
            after = uio1;
            buf = buf;
            ran =
                rw
                  (
                    sfs_blockio,
                    not_write uio.uio_rw r,
                    off,
                    mapped,
                    ◌>>=◌,
                    t,
                    not_write uio.uio_rw r,
                    ran,
                  )
                  refl;
            whole = len;
            delivered = rw t d;
          }
      | inr g ↦
          let (uio1, ran, d) =
            disk_io-Delivers block uio sv sfs1 v1 (file_map-Used sv sfs fileblock f).0 fits r in
          record {
            after = uio1;
            buf = sfs.sfs_device.sectors block;
            ran = rw (sfs_blockio, not_write uio.uio_rw r, off, mapped, ◌>>=◌, g) ran;
            whole = v.disk.whole block;
            delivered = rw g d;
          }
    ]

-- The contents of the blocks of a file from one on.
pub all_contents : ℕ → SfsVnode → SfsFs → ℕ → List ℕ
all_contents zero sv sfs fileblock = []
all_contents (suc n) sv sfs fileblock =
    contents sv sfs fileblock ++ all_contents n sv sfs (fileblock + 1)

all_contents-buffered :
    (n : ℕ) (sv : SfsVnode) (sfs : SfsFs) (buf : List ℕ) (fileblock : ℕ)
    → all_contents n sv (buffered buf sfs) fileblock ≡ all_contents n sv sfs fileblock
unfolding all_contents contents
all_contents-buffered zero sv sfs buf fileblock = refl
all_contents-buffered (suc n) sv sfs buf fileblock =
    ap (λ l. contents sv sfs fileblock ++ l) (all_contents-buffered n sv sfs buf (fileblock + 1))

-- The loop of sfs_io over whole blocks, on a read into a kernel buffer within the reach of the inode,
-- on a disk without errors, returns 0 and delivers what the file holds in these blocks, in order,
-- zeros for its holes; the uio has moved on by as much, and the file and the disk are as before.
pub whole_blocks-ReadsBlocks :
    (n fileblock : ℕ) (uio : Uio) (sv : SfsVnode) (sfs : SfsFs)
    → IsFs sfs
    → IsFile sv sfs
    → fileblock + n ≤ 15 + 128
    → uio.uio_offset ≡ fileblock * 512
    → Fits (n * 512) uio
    → uio.uio_rw ≡ uio_read
    → ReadsBlocks (n * 512) (all_contents n sv sfs fileblock) uio sv sfs (whole_blocks n uio sv sfs)
unfolding whole_blocks all_contents
whole_blocks-ReadsBlocks zero fileblock uio sv sfs v f h at fits r = record {
  after = uio;
  buf = sfs.sfs_device.lh_buf;
  ran = refl;
  whole = v.disk.buffer;
  delivered = nothing uio;
}
whole_blocks-ReadsBlocks (suc n) fileblock uio sv sfs v f h at fits r =
    let one =
      sfs_blockio-ReadsBlocks fileblock uio sv sfs v f (omega (arith, h)) at
        (less-Fits 512 (suc n * 512) uio (omega arith) fits) r in
    let d = one.delivered in
    let sfs1 = buffered one.buf sfs in
    let rest_fits =
      still-Fits (n * 512) 512 (contents sv sfs fileblock) uio one.after d
        (less-Fits (512 + n * 512) (suc n * 512) uio (omega arith) fits) in
    let rest =
      whole_blocks-ReadsBlocks n (fileblock + 1) one.after sv sfs1
        (buffered-IsFs one.buf sfs one.whole v) (buffered-IsFile one.buf sv sfs f)
        (omega (arith, h)) (omega (arith, at, d.offset)) rest_fits (d.direction ∙ r) in
    let both =
      Delivers-trans 512 (n * 512) (contents sv sfs fileblock)
        (all_contents n sv sfs1 (fileblock + 1)) uio one.after rest.after d rest.delivered in
    let same = all_contents-buffered n sv sfs one.buf (fileblock + 1) in
    let all : 512 + n * 512 ≡ suc n * 512 = omega arith in
    record {
      after = rest.after;
      buf = rest.buf;
      ran = rw (whole_blocks, one.ran) rest.ran;
      whole = rest.whole;
      delivered =
          subst (λ l. Delivers (suc n * 512) (contents sv sfs fileblock ++ l) uio rest.after) same
            (subst
              (λ k.
                Delivers k (contents sv sfs fileblock ++ all_contents n sv sfs1 (fileblock + 1)) uio
                  rest.after)
              all both);
    }
