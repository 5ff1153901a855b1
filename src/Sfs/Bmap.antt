-- ===== src/Sfs/Bmap.antt =====
-- os161/kern/fs/sfs/sfs_vnode.c: sfs_bmap, which finds the disk block of a block of a file. The block
-- handed back with an error is 0; no caller reads it.
pub mod Mapping
pub mod Direct
pub mod Slot
pub mod Indirect
pub mod Refine
use harvard_os.Prelude.{
  ℕ, ◌+◌, ◌-◌, ◌*◌, ◌/◌, ◌%◌, Bool, true, false, not, ◌&&◌, Option, none, some, List, ltb, ◌==◌,
  if◌then◌else◌, get_or, set, replicate, ◌>>=◌, ◌>>◌, assert,
}
use harvard_os.Errno.{einval}
use harvard_os.Sfs.{SfsFs, sfs_ndirect, sfs_dbperidb, sfs_rblock, sfs_wblock, sfs_balloc, sfs_bused}
use harvard_os.Sfs.Words.{words_bytes, bytes_words}
use harvard_os.Sfs.Inode.{SfsVnode}

abbrev pub Mapped : Type 0
Mapped = ℕ × ℕ × SfsVnode × SfsFs

-- The end of both halves: a block that the free map has as free is a panic.
pub hand_back : ℕ → SfsVnode → SfsFs → Option Mapped
hand_back block sv sfs = elim (block == 0) [
  | true ↦ some (0, block, sv, sfs)
  | false ↦ (sfs_bused block sfs >>= λ used. assert used >> some (0, block, sv, sfs))
]

abbrev pub set_direct : ℕ → ℕ → SfsVnode → SfsVnode
set_direct fileblock block sv = record sv {
  sv_i = record sv.sv_i { sfi_direct = set sv.sv_i.sfi_direct fileblock block };
  sv_dirty = true;
}

pub bmap_direct : ℕ → Bool → SfsVnode → SfsFs → Option Mapped
bmap_direct fileblock doalloc sv sfs =
    let block = get_or sv.sv_i.sfi_direct fileblock 0 in
    elim (block == 0 && doalloc) [
      | false ↦ hand_back block sv sfs
      | true ↦
          (sfs_balloc sfs >>= λ (result, block1, sfs1). (elim (result == 0) [
            | false ↦ some (result, 0, sv, sfs1)
            | true ↦ hand_back block1 (set_direct fileblock block1 sv) sfs1
          ]))
    ]

-- Once the indirect block is in the buffer.
pub bmap_slot : ℕ → Bool → ℕ → List ℕ → SfsVnode → SfsFs → Option Mapped
bmap_slot idoff doalloc idblock idbuf sv sfs =
    let block = get_or idbuf idoff 0 in
    elim (block == 0 && doalloc) [
      | false ↦ hand_back block sv sfs
      | true ↦
          (sfs_balloc sfs >>= λ (result, block1, sfs1). (elim (result == 0) [
            | false ↦ some (result, 0, sv, sfs1)
            | true ↦
                (sfs_wblock (words_bytes (set idbuf idoff block1)) idblock sfs1
                  >>= λ (written, sfs2). (elim (written == 0) [
                    | false ↦ some (written, 0, sv, sfs2)
                    | true ↦ hand_back block1 sv sfs2
                  ]))
          ]))
    ]

abbrev pub set_indirect : ℕ → SfsVnode → SfsVnode
set_indirect block sv = record sv {
  sv_i = record sv.sv_i { sfi_indirect = block };
  sv_dirty = true;
}

-- A fresh indirect block, and one that is loaded.
pub bmap_fresh : ℕ → SfsVnode → SfsFs → Option Mapped
bmap_fresh idoff sv sfs = sfs_balloc sfs >>= λ (result, idblock, sfs1). (elim (result == 0) [
  | false ↦ some (result, 0, sv, sfs1)
  | true ↦ bmap_slot idoff true idblock (replicate sfs_dbperidb 0) (set_indirect idblock sv) sfs1
])

pub bmap_load : ℕ → Bool → SfsVnode → SfsFs → Option Mapped
bmap_load idoff doalloc sv sfs = sfs_rblock sv.sv_i.sfi_indirect sfs >>= λ (result, bytes, sfs1).
    (elim (result == 0) [
      | false ↦ some (result, 0, sv, sfs1)
      | true ↦ bmap_slot idoff doalloc sv.sv_i.sfi_indirect (bytes_words bytes) sv sfs1
    ])

pub bmap_indirect : ℕ → Bool → SfsVnode → SfsFs → Option Mapped
bmap_indirect fileblock doalloc sv sfs =
    let idnum = fileblock / sfs_dbperidb in
    let idoff = fileblock % sfs_dbperidb in
    elim (ltb 0 idnum) [
      | true ↦ some (einval, 0, sv, sfs)
      | false ↦ elim (sv.sv_i.sfi_indirect == 0) [
        | false ↦ bmap_load idoff doalloc sv sfs
        | true ↦ elim doalloc [ false ↦ some (0, 0, sv, sfs) | true ↦ bmap_fresh idoff sv sfs ]
      ]
    ]

pub sfs_bmap : ℕ → Bool → SfsVnode → SfsFs → Option Mapped
sfs_bmap fileblock doalloc sv sfs = elim (ltb fileblock sfs_ndirect) [
  | true ↦ bmap_direct fileblock doalloc sv sfs
  | false ↦ bmap_indirect (fileblock - sfs_ndirect) doalloc sv sfs
]
