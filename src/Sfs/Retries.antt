-- ===== src/Sfs/Retries.antt =====
-- The retries of sfs_rwblock on a disk with errors.
use harvard_os.Prelude.{
  ℕ, zero, suc, ◌+◌, ◌*◌, ◌≤◌, ◌<◌, ◌≡◌, refl, ap, ◌∙◌, ◌≢◌, ◌⊎◌, inl, inr, some, List, [], ◌∷◌,
  ◌++◌, arith, length, take, drop, replicate,
}
use mathlib.Core.List.{append-nil}
use native.Mathlib.Decide.{ℕ_discrete}
use harvard_os.Errno.{eio}
use harvard_os.Uio.{uio_read, uio_write, Uio, copy, mk_kuio}
use harvard_os.Uio.Moves.{moved_all}
use harvard_os.Lhd.{Disk}
use harvard_os.Lhd.Sectors.{
  OneSector, read_disk, lhd_io-read, lhd_io-read_fails, lhd_io-write_fails, lhd_io-nothing,
}
use harvard_os.Sfs.{SfsFs, attempts, sfs_rwblock, sfs_rblock, sfs_wblock}
use harvard_os.Sfs.Blocks.{
  IsDisk, take-all, drop-all, kuio-OneSector, attempts-succeeds, attempts-fails,
}

-- A write whose first attempt fails with EIO is reported as a success, without an error left, and
-- has not been written: the retry finds the uio used up, asks the disk for no sector and succeeds.
pub sfs_wblock-lost :
    (bytes : List ℕ) (block : ℕ) (rs : List ℕ) (sfs : SfsFs)
    → length bytes ≡ 512
    → IsDisk sfs.sfs_device
    → sfs.sfs_device.results ≡ eio ∷ rs
    → block < sfs.sfs_device.d_blocks
    → sfs_wblock bytes block sfs
      ≡ some
          (0, record sfs { sfs_device = record (read_disk bytes sfs.sfs_device) { results = rs } })
unfolding sfs_wblock sfs_rwblock mk_kuio copy
sfs_wblock-lost bytes block rs sfs n v e h =
    let d = sfs.sfs_device in
    let uio = mk_kuio bytes 512 (block * 512) uio_write in
    let buf : take 512 bytes ++ drop 512 d.lh_buf ≡ bytes =
      rw (take-all 512 bytes n, drop-all 512 d.lh_buf v.buffer) (append-nil bytes) in
    let uio1 = (moved_all 512 d.lh_buf uio).1 in
    let d1 = record d { lh_buf = (moved_all 512 d.lh_buf uio).0; results = rs } in
    let first = attempts-fails 9 uio uio1 d d1 (
      lhd_io-write_fails block eio rs uio d (kuio-OneSector bytes block uio_write d h v.disk_size)
        refl e (λ z. absurd (omega (arith, z)))) in
    let second = attempts-succeeds 9 uio1 uio1 d1 d1 (
      lhd_io-nothing (block + 1) uio1 d1 (omega arith) (omega arith) (omega (arith, h))
        v.disk_size) in
    rw (sfs_wblock, sfs_rwblock, first ∙ second)
      (ap (λ b. some (0, record sfs { sfs_device = record (read_disk b d) { results = rs } })) buf)

eio_ne : eio ≢ 0
eio_ne z = absurd (omega (arith, z))

again :
    (sector : ℕ) (uio : Uio) (d : Disk) (rs : List ℕ)
    → OneSector sector uio d
    → OneSector sector uio (record d { results = rs })
again sector uio d rs one = record {
  fits = one.fits;
  at_sector = one.at_sector;
  one = one.one;
  on_disk = one.on_disk;
  disk_size = one.disk_size;
}

-- A read that fails has moved nothing, so the next attempt is the same read.
attempts_read :
    (k left sector : ℕ) (uio : Uio) (d : Disk)
    → k ≤ left
    → OneSector sector uio d
    → uio.uio_rw ≡ uio_read
    → d.results ≡ replicate k eio
    → attempts left uio d
      ≡ some (
        0,
        (moved_all 512 (d.sectors sector) uio).1,
        record d { lh_buf = (moved_all 512 (d.sectors sector) uio).0; results = [] },
      )
attempts_read zero left sector uio d h one r e =
    attempts-succeeds left uio (moved_all 512 (d.sectors sector) uio).1 d
      (read_disk (moved_all 512 (d.sectors sector) uio).0 d) (lhd_io-read sector uio d one r e)
    ∙ ap
        (λ rs. some (
          0,
          (moved_all 512 (d.sectors sector) uio).1,
          record d { lh_buf = (moved_all 512 (d.sectors sector) uio).0; results = rs },
        ))
        e
attempts_read (suc k) zero sector uio d h one r e = absurd (omega arith)
attempts_read (suc k) (suc left) sector uio d h one r e =
    let d1 = record d { results = replicate k eio } in
    attempts-fails left uio uio d d1
      (lhd_io-read_fails sector eio (replicate k eio) uio d one r e eio_ne)
    ∙ attempts_read k left sector uio d1 (omega arith) (again sector uio d (replicate k eio) one) r
        refl

-- When every attempt fails, the result is that of the last one.
attempts-eio :
    (left sector : ℕ) (rs : List ℕ) (uio : Uio) (d : Disk)
    → OneSector sector uio d
    → uio.uio_rw ≡ uio_read
    → d.results ≡ replicate left eio ++ (eio ∷ rs)
    → attempts left uio d ≡ some (eio, uio, record d { results = rs })
unfolding attempts
attempts-eio zero sector rs uio d one r e =
    rw (lhd_io-read_fails sector eio rs uio d one r e eio_ne) refl
attempts-eio (suc left) sector rs uio d one r e =
    let more = replicate left eio ++ (eio ∷ rs) in
    let d1 = record d { results = more } in
    attempts-fails left uio uio d d1 (lhd_io-read_fails sector eio more uio d one r e eio_ne)
    ∙ attempts-eio left sector rs uio d1 (again sector uio d more one) r refl

sfs_rblock-succeeds :
    (k block : ℕ) (sfs : SfsFs)
    → IsDisk sfs.sfs_device
    → block < sfs.sfs_device.d_blocks
    → k ≤ 10
    → sfs.sfs_device.results ≡ replicate k eio
    → sfs_rblock block sfs
      ≡ some (
        0,
        sfs.sfs_device.sectors block,
        record sfs {
          sfs_device = record (read_disk (sfs.sfs_device.sectors block) sfs.sfs_device) {
            results = [];
          };
        },
      )
unfolding sfs_rblock sfs_rwblock mk_kuio copy
sfs_rblock-succeeds k block sfs v h le e =
    let d = sfs.sfs_device in
    let uio = mk_kuio [] 512 (block * 512) uio_read in
    let one = kuio-OneSector [] block uio_read d h v.disk_size in
    rw
      (
        sfs_rblock,
        sfs_rwblock,
        attempts_read k 10 block uio d le one refl e,
        take-all 512 (d.sectors block) (v.whole block),
      )
      refl

sfs_rblock-eio :
    (block : ℕ) (rs : List ℕ) (sfs : SfsFs)
    → IsDisk sfs.sfs_device
    → block < sfs.sfs_device.d_blocks
    → sfs.sfs_device.results ≡ replicate 10 eio ++ (eio ∷ rs)
    → sfs_rblock block sfs
      ≡ some (eio, [], record sfs { sfs_device = record sfs.sfs_device { results = rs } })
unfolding sfs_rblock sfs_rwblock mk_kuio copy
sfs_rblock-eio block rs sfs v h e =
    let d = sfs.sfs_device in
    let uio = mk_kuio [] 512 (block * 512) uio_read in
    let one = kuio-OneSector [] block uio_read d h v.disk_size in
    rw (sfs_rblock, sfs_rwblock, attempts-eio 10 block rs uio d one refl e) refl

-- With `k` EIO results to come, at most eleven, a read of a block of the disk hands the block back
-- if they are ten at most, and is itself EIO if they are eleven.
pub sfs_rblock-retries :
    (k block : ℕ) (sfs : SfsFs)
    → IsDisk sfs.sfs_device
    → block < sfs.sfs_device.d_blocks
    → k ≤ 11
    → sfs.sfs_device.results ≡ replicate k eio
    → ((k ≤ 10)
        × (sfs_rblock block sfs
            ≡ some (
              0,
              sfs.sfs_device.sectors block,
              record sfs {
                sfs_device = record (read_disk (sfs.sfs_device.sectors block) sfs.sfs_device) {
                  results = [];
                };
              },
            )))
      ⊎ ((k ≡ 11)
          × (sfs_rblock block sfs
              ≡ some (eio, [], record sfs { sfs_device = record sfs.sfs_device { results = [] } })))
sfs_rblock-retries k block sfs v h le e = elim (ℕ_discrete k 11) [
  | yes all ↦ inr (all, sfs_rblock-eio block [] sfs v h (e ∙ ap (λ n. replicate n eio) all))
  | no few ↦
      let ten : k ≤ 10 = omega (arith, few) in inl (ten, sfs_rblock-succeeds k block sfs v h ten e)
]
