-- ===== src/Lhd/Sectors.antt =====
-- lhd_io for one sector: on a disk without errors, and on one that fails.
use harvard_os.Prelude.{
  ℕ, ◌+◌, ◌*◌, ◌/◌, ◌%◌, ◌^◌, ◌≤◌, ◌<◌, ◌≡◌, refl, sym, ap, subst, ◌∙◌, ◌≢◌, false, not, ◌||◌, some,
  List, [], ◌∷◌, arith, ltb, ◌==◌, ◌>>=◌, update_at, ne→==, word_mod,
}
use harvard_os.Uio.{Uio, uio_read, uio_write}
use harvard_os.Uio.Moves.{Fits, moved_all, uiomove_lem}
use harvard_os.Lhd.{Disk, take_result, write_sector, read_sector, one_sector, sector_loop, lhd_io}

-- A uio for one whole sector of the disk.
pub record OneSector (sector : ℕ) (uio : Uio) (d : Disk) : Type 0 where
  pub fits : Fits 512 uio
  pub at_sector : uio.uio_offset ≡ sector * 512
  pub one : uio.uio_resid ≡ 512
  pub on_disk : sector < d.d_blocks
  pub disk_size : d.d_blocks ≤ 2 ^ 22

aligned :
    (uio : Uio) (sector : ℕ)
    → uio.uio_offset ≡ sector * 512
    → uio.uio_resid ≡ 512
    → (not (uio.uio_offset % 512 == 0) || not (uio.uio_resid % 512 == 0)) ≡ false
aligned uio sector e f = ground (arith, e, f)

in_range : (sector n : ℕ) → sector < n → n ≤ 2 ^ 22 → ltb n ((sector + 1) % word_mod) ≡ false
in_range sector n h small = ground (arith, h, small)

-- No range check refuses it.
pub lhd_io-OneSector :
    (sector : ℕ) (uio : Uio) (d : Disk)
    → OneSector sector uio d
    → lhd_io uio d ≡ sector_loop 1 sector uio d
unfolding lhd_io
lhd_io-OneSector sector uio d h =
    let off : uio.uio_offset / 512 ≡ sector = omega (arith, h.at_sector) in
    let len : uio.uio_resid / 512 ≡ 1 = omega (arith, h.one) in
    rw
      (
        aligned uio sector h.at_sector h.one,
        off,
        len,
        in_range sector d.d_blocks h.on_disk h.disk_size,
      )
      refl

no_more_results : (d : Disk) → d.results ≡ [] → take_result d ≡ (0, d)
unfolding take_result
no_more_results d e =
    subst (λ rs. take_result (record d { results = rs }) ≡ (0, record d { results = rs })) (sym e)
      refl

next_result :
    (r : ℕ) (rs : List ℕ) (d : Disk)
    → d.results ≡ r ∷ rs
    → take_result d ≡ (r, record d { results = rs })
unfolding take_result
next_result r rs d e =
    subst (λ l. take_result (record d { results = l }) ≡ (r, record d { results = rs })) (sym e)
      refl

one_sector-read :
    (sector : ℕ) (uio : Uio) (d : Disk)
    → uio.uio_rw ≡ uio_read
    → one_sector sector uio d ≡ read_sector sector uio d
unfolding one_sector
one_sector-read sector uio d e =
    ap
      (λ rw. elim rw [
        | uio_read ↦ read_sector sector uio d
        | uio_write ↦ write_sector sector uio d
      ])
      e

one_sector-write :
    (sector : ℕ) (uio : Uio) (d : Disk)
    → uio.uio_rw ≡ uio_write
    → one_sector sector uio d ≡ write_sector sector uio d
unfolding one_sector
one_sector-write sector uio d e =
    ap
      (λ rw. elim rw [
        | uio_read ↦ read_sector sector uio d
        | uio_write ↦ write_sector sector uio d
      ])
      e

-- The disk after a read and after a write.
abbrev pub read_disk : List ℕ → Disk → Disk
read_disk buf d = record d { lh_buf = buf }

abbrev pub written_disk : ℕ → List ℕ → Disk → Disk
written_disk sector buf d = record d { lh_buf = buf; sectors = update_at d.sectors sector buf }

-- A read without an error delivers the sector.
pub lhd_io-read :
    (sector : ℕ) (uio : Uio) (d : Disk)
    → OneSector sector uio d
    → uio.uio_rw ≡ uio_read
    → d.results ≡ []
    → lhd_io uio d
      ≡ some (
        0,
        (moved_all 512 (d.sectors sector) uio).1,
        read_disk (moved_all 512 (d.sectors sector) uio).0 d,
      )
unfolding sector_loop read_sector
lhd_io-read sector uio d h r e =
    lhd_io-OneSector sector uio d h
    ∙ rw
        (
          sector_loop,
          one_sector-read sector uio d r,
          read_sector,
          no_more_results d e,
          no_more_results d e,
          uiomove_lem 512 (d.sectors sector) uio (omega arith) h.fits,
        )
        refl

-- One with an error hands back the result, and nothing has moved.
pub lhd_io-read_fails :
    (sector r : ℕ) (rs : List ℕ) (uio : Uio) (d : Disk)
    → OneSector sector uio d
    → uio.uio_rw ≡ uio_read
    → d.results ≡ r ∷ rs
    → r ≢ 0
    → lhd_io uio d ≡ some (r, uio, record d { results = rs })
unfolding sector_loop read_sector
lhd_io-read_fails sector r rs uio d h rd e ne =
    let next = next_result r rs d e in
    lhd_io-OneSector sector uio d h
    ∙ rw
        (
          sector_loop,
          one_sector-read sector uio d rd,
          read_sector,
          next,
          ne→== r 0 ne,
          next,
          ◌>>=◌,
          ne→== r 0 ne,
          next,
        )
        refl

-- And a write stores it.
pub lhd_io-write :
    (sector : ℕ) (uio : Uio) (d : Disk)
    → OneSector sector uio d
    → uio.uio_rw ≡ uio_write
    → d.results ≡ []
    → lhd_io uio d
      ≡ some
          (0, (moved_all 512 d.lh_buf uio).1, written_disk sector (moved_all 512 d.lh_buf uio).0 d)
unfolding sector_loop write_sector
lhd_io-write sector uio d h r e =
    let buf = (moved_all 512 d.lh_buf uio).0 in
    lhd_io-OneSector sector uio d h
    ∙ rw
        (
          sector_loop,
          one_sector-write sector uio d r,
          write_sector,
          uiomove_lem 512 d.lh_buf uio (omega arith) h.fits,
          ◌>>=◌,
          no_more_results (record d { lh_buf = buf }) e,
          no_more_results (record d { lh_buf = buf }) e,
        )
        refl

-- A write that fails has moved its data to the buffer all the same, and left the sectors alone.
pub lhd_io-write_fails :
    (sector r : ℕ) (rs : List ℕ) (uio : Uio) (d : Disk)
    → OneSector sector uio d
    → uio.uio_rw ≡ uio_write
    → d.results ≡ r ∷ rs
    → r ≢ 0
    → lhd_io uio d
      ≡ some (
        r,
        (moved_all 512 d.lh_buf uio).1,
        record d { lh_buf = (moved_all 512 d.lh_buf uio).0; results = rs },
      )
unfolding sector_loop write_sector
lhd_io-write_fails sector r rs uio d h w e ne =
    let buf = (moved_all 512 d.lh_buf uio).0 in
    lhd_io-OneSector sector uio d h
    ∙ rw
        (
          sector_loop,
          one_sector-write sector uio d w,
          write_sector,
          uiomove_lem 512 d.lh_buf uio (omega arith) h.fits,
          ◌>>=◌,
          next_result r rs (record d { lh_buf = buf }) e,
          ne→== r 0 ne,
          next_result r rs (record d { lh_buf = buf }) e,
          ne→== r 0 ne,
          next_result r rs (record d { lh_buf = buf }) e,
        )
        refl

-- A uio with nothing left to move, at a sector of the disk or just after it, asks for no sector.
pub lhd_io-nothing :
    (sector : ℕ) (uio : Uio) (d : Disk)
    → uio.uio_offset ≡ sector * 512
    → uio.uio_resid ≡ 0
    → sector ≤ d.d_blocks
    → d.d_blocks ≤ 2 ^ 22
    → lhd_io uio d ≡ some (0, uio, d)
unfolding lhd_io sector_loop
lhd_io-nothing sector uio d e f h small =
    let tests : (not (uio.uio_offset % 512 == 0) || not (uio.uio_resid % 512 == 0)) ≡ false =
      ground (arith, e, f) in
    let off : uio.uio_offset / 512 ≡ sector = omega (arith, e) in
    let len : uio.uio_resid / 512 ≡ 0 = omega (arith, f) in
    let range : ltb d.d_blocks ((sector + 0) % word_mod) ≡ false = ground (arith, h, small) in
    rw (tests, off, len, range) refl
