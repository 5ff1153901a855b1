-- ===== src/Sfs/Truncate.antt =====
-- os161/kern/fs/sfs/sfs_vnode.c: sfs_truncate, which frees the blocks past the new end of a file.
pub mod Frees
use harvard_os.Prelude.{
  ℕ, zero, suc, ◌+◌, ◌-◌, ◌/◌, Bool, true, false, not, ◌&&◌, ◌||◌, Option, none, some, List, [],
  ◌∷◌, ltb, ◌==◌, if◌then◌else◌, ◌>>=◌, ◌>>◌,
}
use harvard_os.Sfs.{
  SfsFs, sfs_blocksize, sfs_ndirect, sfs_dbperidb, sfs_rblock, sfs_wblock, sfs_bfree,
}
use harvard_os.Sfs.Words.{words_bytes, bytes_words}
use harvard_os.Sfs.Inode.{Inode, SfsVnode}

-- `DIVROUNDUP(len, SFS_BLOCKSIZE)`
abbrev pub blocks_of : ℕ → ℕ
blocks_of len = (len + sfs_blocksize - 1) / sfs_blocksize

-- One of the two loops, over the block numbers from index `i` on: which of them to free is `past`.
-- Afterwards the numbers, whether one was freed, and the file system.
pub free_from : (ℕ → Bool) → ℕ → List ℕ → SfsFs → Option (List ℕ × Bool × SfsFs)
free_from past i [] sfs = some ([], false, sfs)
free_from past i (block ∷ blocks) sfs = elim (past i && not (block == 0)) [
  | true ↦
      (sfs_bfree block sfs >>= λ sfs1.
      free_from past (i + 1) blocks sfs1 >>= λ (rest, dirty, sfs2). some (0 ∷ rest, true, sfs2))
  | false ↦
      (free_from past (i + 1) blocks sfs >>= λ (rest, dirty, sfs1).
      some (block ∷ rest, dirty, sfs1))
]

-- `i >= blocklen`
abbrev pub direct_past : ℕ → ℕ → Bool
direct_past blocklen i = not (ltb i blocklen)

-- `blocklen < baseblock+j`
abbrev pub indirect_past : ℕ → ℕ → Bool
indirect_past blocklen j = ltb blocklen (sfs_ndirect + j)

pub any_nonzero : List ℕ → Bool
any_nonzero [] = false
any_nonzero (block ∷ blocks) = not (block == 0) || any_nonzero blocks

pub free_direct : ℕ → SfsVnode → SfsFs → Option (SfsVnode × SfsFs)
free_direct blocklen sv sfs =
    free_from (direct_past blocklen) 0 sv.sv_i.sfi_direct sfs >>= λ (direct, dirty, sfs1). some (
      record sv { sv_i = record sv.sv_i { sfi_direct = direct }; sv_dirty = sv.sv_dirty || dirty },
      sfs1,
    )

-- After the loop over the indirect block.
pub keep_indirect : List ℕ → Bool → SfsVnode → SfsFs → Option (ℕ × SfsVnode × SfsFs)
keep_indirect idbuf iddirty sv sfs = elim (any_nonzero idbuf) [
  | false ↦
      (sfs_bfree sv.sv_i.sfi_indirect sfs >>= λ sfs1.
      some (0, record sv { sv_i = record sv.sv_i { sfi_indirect = 0 }; sv_dirty = true }, sfs1))
  | true ↦ elim iddirty [
    | false ↦ some (0, sv, sfs)
    | true ↦
        (sfs_wblock (words_bytes idbuf) sv.sv_i.sfi_indirect sfs >>= λ (result, sfs1).
        some (result, sv, sfs1))
  ]
]

pub free_indirect : ℕ → SfsVnode → SfsFs → Option (ℕ × SfsVnode × SfsFs)
free_indirect blocklen sv sfs =
    let highblock = sfs_ndirect + sfs_dbperidb - 1 in
    elim (ltb blocklen highblock && not (sv.sv_i.sfi_indirect == 0)) [
      | false ↦ some (0, sv, sfs)
      | true ↦
          (sfs_rblock sv.sv_i.sfi_indirect sfs >>= λ (result, bytes, sfs1). (elim (result == 0) [
            | false ↦ some (result, sv, sfs1)
            | true ↦
                (free_from (indirect_past blocklen) 0 (bytes_words bytes) sfs1
                  >>= λ (idbuf, iddirty, sfs2). keep_indirect idbuf iddirty sv sfs2)
          ]))
    ]

pub sfs_truncate : ℕ → SfsVnode → SfsFs → Option (ℕ × SfsVnode × SfsFs)
sfs_truncate len sv sfs = free_direct (blocks_of len) sv sfs >>= λ (sv1, sfs1).
    free_indirect (blocks_of len) sv1 sfs1 >>= λ (result, sv2, sfs2). (elim (result == 0) [
      | false ↦ some (result, sv2, sfs2)
      | true ↦
          some (0, record sv2 { sv_i = record sv2.sv_i { sfi_size = len }; sv_dirty = true }, sfs2)
    ])
