-- ===== src/Sfs/Blocks.antt =====
-- sfs_rblock and sfs_wblock on a disk without errors, and one attempt on any disk.
use harvard_os.Prelude.{
  ℕ, zero, suc, ◌*◌, ◌^◌, ◌≤◌, ◌<◌, ◌≡◌, refl, ap, some, List, [], ◌∷◌, ◌++◌, arith, length, take,
  drop,
}
use mathlib.Core.List.{append-nil}
use harvard_os.Errno.{eio}
use harvard_os.Uio.{Rw, uio_read, uio_write, Uio, copy, mk_kuio}
use harvard_os.Uio.Moves.{moved_all}
use harvard_os.Lhd.{Disk, lhd_io}
use harvard_os.Lhd.Sectors.{OneSector, read_disk, written_disk, lhd_io-read, lhd_io-write}
use harvard_os.Sfs.{SfsFs, attempts, sfs_rwblock, sfs_rblock, sfs_wblock}

-- A disk of whole sectors, small enough that the offset of a byte is an off_t.
pub record IsDisk (d : Disk) : Type 0 where
  pub buffer : length d.lh_buf ≡ 512
  pub whole : (b : ℕ) → length (d.sectors b) ≡ 512
  pub disk_size : d.d_blocks ≤ 2 ^ 22

pub take-all {ℓ} : {A : Type ℓ} (n : ℕ) (xs : List A) → length xs ≡ n → take n xs ≡ xs
take-all zero [] e = refl
take-all zero (x ∷ xs) e = absurd (omega arith)
take-all (suc n) [] e = absurd (omega arith)
take-all (suc n) (x ∷ xs) e = ap (◌∷◌ x) (take-all n xs (omega arith))

pub drop-all {ℓ} : {A : Type ℓ} (n : ℕ) (xs : List A) → length xs ≡ n → drop n xs ≡ []
drop-all zero [] e = refl
drop-all zero (x ∷ xs) e = absurd (omega arith)
drop-all (suc n) [] e = absurd (omega arith)
drop-all (suc n) (x ∷ xs) e = drop-all n xs (omega arith)

-- The uio of a block is one for a whole sector.
pub kuio-OneSector :
    (bytes : List ℕ) (block : ℕ) (rw : Rw) (d : Disk)
    → block < d.d_blocks
    → d.d_blocks ≤ 2 ^ 22
    → OneSector block (mk_kuio bytes 512 (block * 512) rw) d
unfolding mk_kuio
kuio-OneSector bytes block rw d h small = record {
  fits = record {
    kernel = refl;
    space = refl;
    room = omega arith;
    wanted = omega arith;
    small = omega arith;
  };
  at_sector = refl;
  one = refl;
  on_disk = h;
  disk_size = small;
}

-- An attempt that succeeds is the last one.
pub attempts-succeeds :
    (left : ℕ) (uio uio1 : Uio) (d d1 : Disk)
    → lhd_io uio d ≡ some (0, uio1, d1)
    → attempts left uio d ≡ some (0, uio1, d1)
unfolding attempts
attempts-succeeds zero uio uio1 d d1 e = rw e refl
attempts-succeeds (suc left) uio uio1 d d1 e = rw e refl

-- One that fails with EIO is followed by the next.
pub attempts-fails :
    (left : ℕ) (uio uio1 : Uio) (d d1 : Disk)
    → lhd_io uio d ≡ some (eio, uio1, d1)
    → attempts (suc left) uio d ≡ attempts left uio1 d1
unfolding attempts
attempts-fails left uio uio1 d d1 e = rw (attempts, e) refl

-- Reading a block of a disk without errors hands back the sector; only the buffer changes.
pub sfs_rblock_lem :
    (block : ℕ) (sfs : SfsFs)
    → IsDisk sfs.sfs_device
    → sfs.sfs_device.results ≡ []
    → block < sfs.sfs_device.d_blocks
    → sfs_rblock block sfs
      ≡ some (
        0,
        sfs.sfs_device.sectors block,
        record sfs { sfs_device = read_disk (sfs.sfs_device.sectors block) sfs.sfs_device },
      )
unfolding sfs_rblock sfs_rwblock mk_kuio copy
sfs_rblock_lem block sfs v e h =
    let d = sfs.sfs_device in
    let uio = mk_kuio [] 512 (block * 512) uio_read in
    let reads =
      attempts-succeeds 10 uio (moved_all 512 (d.sectors block) uio).1 d
        (read_disk (d.sectors block) d)
        (lhd_io-read block uio d (kuio-OneSector [] block uio_read d h v.disk_size) refl e) in
    rw (sfs_rblock, sfs_rwblock, reads, take-all 512 (d.sectors block) (v.whole block)) refl

-- Writing a block of a disk without errors stores it in the sector.
pub sfs_wblock_lem :
    (bytes : List ℕ) (block : ℕ) (sfs : SfsFs)
    → length bytes ≡ 512
    → IsDisk sfs.sfs_device
    → sfs.sfs_device.results ≡ []
    → block < sfs.sfs_device.d_blocks
    → sfs_wblock bytes block sfs
      ≡ some (0, record sfs { sfs_device = written_disk block bytes sfs.sfs_device })
unfolding sfs_wblock sfs_rwblock mk_kuio copy
sfs_wblock_lem bytes block sfs n v e h =
    let d = sfs.sfs_device in
    let uio = mk_kuio bytes 512 (block * 512) uio_write in
    let buf : take 512 bytes ++ drop 512 d.lh_buf ≡ bytes =
      rw (take-all 512 bytes n, drop-all 512 d.lh_buf v.buffer) (append-nil bytes) in
    let writes =
      attempts-succeeds 10 uio (moved_all 512 d.lh_buf uio).1 d
        (written_disk block (take 512 bytes ++ drop 512 d.lh_buf) d)
        (lhd_io-write block uio d (kuio-OneSector bytes block uio_write d h v.disk_size) refl e) in
    rw (sfs_wblock, sfs_rwblock, writes)
      (ap (λ b. some (0, record sfs { sfs_device = written_disk block b d })) buf)
