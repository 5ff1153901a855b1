-- ===== src/Lhd.antt =====
-- os161/kern/dev/lamebus/lhd.c: lhd_io, the sector I/O of the LAMEbus disk. What the interrupt handler
-- stores in lh_result for each operation is a parameter; a failed operation leaves the sector as
-- it was. The semaphores that keep other threads out and wait for the interrupt are not modelled.
pub mod Sectors
use harvard_os.Prelude.{
  ℕ, zero, suc, ◌+◌, ◌/◌, ◌%◌, Bool, true, false, not, ◌||◌, Option, none, some, List, [], ◌∷◌, ltb,
  ◌==◌, if◌then◌else◌, ◌>>=◌, ◌>>◌, word_mod, update_at,
}
use harvard_os.Errno.{einval}
use harvard_os.Uio.{Uio, uio_read, uio_write, uiomove}

-- `LHD_SECTSIZE`
abbrev pub lhd_sectsize : ℕ
lhd_sectsize = 512

-- The disk behind `struct lhd_softc`: its sectors, the on-card buffer, and the results of the
-- operations to come, 0 where the list has ended.
pub record Disk : Type 0 where
  pub d_blocks : ℕ
  pub sectors : ℕ → List ℕ
  pub lh_buf : List ℕ
  pub results : List ℕ

pub take_result : Disk → ℕ × Disk
take_result d = elim d.results [ [] ↦ (0, d) | r ∷ rs ↦ (r, record d { results = rs }) ]

-- One sector of the loop, on a write: the data goes to the buffer, and from there to the disk.
pub write_sector : ℕ → Uio → Disk → Option (ℕ × Uio × Disk)
write_sector sector uio d = uiomove d.lh_buf lhd_sectsize uio >>= λ (moved, buf, uio1).
    (let d1 = record d { lh_buf = buf } in
      elim (moved == 0) [
        | false ↦ some (moved, uio1, d1)
        | true ↦
            (let (result, d2) = take_result d1 in
              elim (result == 0) [
                | false ↦ some (result, uio1, d2)
                | true ↦ some (0, uio1, record d2 { sectors = update_at d2.sectors sector buf })
              ])
      ])

-- And on a read.
pub read_sector : ℕ → Uio → Disk → Option (ℕ × Uio × Disk)
read_sector sector uio d =
    let (result, d1) = take_result d in
    elim (result == 0) [
      | false ↦ some (result, uio, d1)
      | true ↦
          (uiomove (d1.sectors sector) lhd_sectsize uio >>= λ (moved, buf, uio1).
          some (moved, uio1, record d1 { lh_buf = buf }))
    ]

pub one_sector : ℕ → Uio → Disk → Option (ℕ × Uio × Disk)
one_sector sector uio d = elim uio.uio_rw [
  | uio_read ↦ read_sector sector uio d
  | uio_write ↦ write_sector sector uio d
]

pub sector_loop : ℕ → ℕ → Uio → Disk → Option (ℕ × Uio × Disk)
sector_loop zero sector uio d = some (0, uio, d)
sector_loop (suc len) sector uio d = one_sector sector uio d >>= λ (result, uio1, d1).
    (elim (result == 0) [
      | false ↦ some (result, uio1, d1)
      | true ↦ sector_loop len (sector + 1) uio1 d1
    ])

pub lhd_io : Uio → Disk → Option (ℕ × Uio × Disk)
lhd_io uio d =
    let sector = uio.uio_offset / lhd_sectsize in
    let len = uio.uio_resid / lhd_sectsize in
    if not (uio.uio_offset % lhd_sectsize == 0) || not (uio.uio_resid % lhd_sectsize == 0)
    then some (einval, uio, d)
    else if ltb d.d_blocks ((sector + len) % word_mod)
    then some (einval, uio, d)
    else sector_loop len sector uio d
