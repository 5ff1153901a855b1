-- ===== src/Sfs/Bmap/Mapping.antt =====
-- sfs_bmap against the map from the blocks of a file to those of the disk that the inode and the
-- indirect block stand for.
use harvard_os.Prelude.{
  ℕ, suc, ◌-◌, ◌^◌, ◌<◌, ◌≡◌, refl, ap, ◌≢◌, ◌⊎◌, inl, inr, false, ◌||◌, Option, some, List, [],
  ◌∷◌, arith, ltb, ◌==◌, if◌then◌else◌, length, get_or, Bool-cases, update_at, update_at_other,
}
use harvard_os.Errno.{enospc}
use harvard_os.Bitmap.Marks.{marked}
use harvard_os.Sfs.{SfsFs}
use harvard_os.Sfs.Words.{bytes_words, AllWords}
use harvard_os.Sfs.Inode.{Inode, SfsVnode}
use harvard_os.Sfs.Alloc.{IsFs, Used, sfs_bused_lem}
use harvard_os.Sfs.Bmap.{hand_back}

-- The entries of the indirect block; there are none if there is no such block.
unfoldable pub entry : ℕ → (ℕ → List ℕ) → ℕ → ℕ
entry indirect sectors k = if indirect == 0 then 0 else get_or (bytes_words (sectors indirect)) k 0

-- The disk block of a block of the file, 0 for a hole.
unfoldable pub file_map : Inode → (ℕ → List ℕ) → ℕ → ℕ
file_map i sectors fileblock =
    if ltb fileblock 15
    then get_or i.sfi_direct fileblock 0
    else entry i.sfi_indirect sectors (fileblock - 15)

-- Every block that the file refers to is one of the disk's and marked.
pub record IsFile (sv : SfsVnode) (sfs : SfsFs) : Type 0 where
  pub directs : length sv.sv_i.sfi_direct ≡ 15
  pub direct_used : (i : ℕ) → Used sfs (get_or sv.sv_i.sfi_direct i 0)
  pub indirect_used : Used sfs sv.sv_i.sfi_indirect
  pub entries_used : (k : ℕ) → Used sfs (entry sv.sv_i.sfi_indirect sfs.sfs_device.sectors k)

-- A block in use is handed back as it is, and so is 0.
pub hand_back_lem :
    (block : ℕ) (sv : SfsVnode) (sfs : SfsFs)
    → IsFs sfs
    → Used sfs block
    → hand_back block sv sfs ≡ some (0, block, sv, sfs)
unfolding hand_back
hand_back_lem block sv sfs v (h, m) = elim (Bool-cases (block == 0)) [
  | inl t ↦ rw (hand_back, t) refl
  | inr g ↦ rw (hand_back, g, sfs_bused_lem sfs v block h, m) refl
]

pub all_words : (ws : List ℕ) → ((k : ℕ) → get_or ws k 0 < 2 ^ 32) → AllWords ws
all_words [] h = tt
all_words (w ∷ ws) h = (h 0, all_words ws (λ k. h (suc k)))

module _ (sv : SfsVnode) (sfs : SfsFs) where
  -- What sfs_bmap with DOALLOC may do to a file and its file system: it gives the block of the file a
  -- block of the disk, the one it had or a free one, or it finds the disk full; no other block of the
  -- file changes.
  pub record Maps (fileblock : ℕ) (out : Option (ℕ × ℕ × SfsVnode × SfsFs)) : Type 0 where
    pub result : ℕ
    pub block : ℕ
    pub file : SfsVnode
    pub after : SfsFs
    pub ran : out ≡ some (result, block, file, after)
    pub valid_fs : IsFs after
    pub valid_file : IsFile file after
    pub others :
        (j : ℕ)
        → j ≢ fileblock
        → file_map file.sv_i after.sfs_device.sectors j ≡ file_map sv.sv_i sfs.sfs_device.sectors j
    pub outcome :
        ((result ≡ 0)
          × (block ≢ 0)
          × (file_map file.sv_i after.sfs_device.sectors fileblock ≡ block)
          × ((file_map sv.sv_i sfs.sfs_device.sectors fileblock ≡ block)
              ⊎ ((file_map sv.sv_i sfs.sfs_device.sectors fileblock ≡ 0)
                  × (marked sfs.sfs_freemap block ≡ false))))
        ⊎ ((result ≡ enospc)
            × (file_map file.sv_i after.sfs_device.sectors fileblock
                ≡ file_map sv.sv_i sfs.sfs_device.sectors fileblock))

-- Writing a block that the file does not use as its indirect block leaves its map alone.
pub entry_other :
    (indirect block : ℕ) (sectors : ℕ → List ℕ) (bytes : List ℕ) (k : ℕ)
    → indirect ≢ block
    → entry indirect (update_at sectors block bytes) k ≡ entry indirect sectors k
unfolding entry
entry_other indirect block sectors bytes k ne =
    rw (update_at_other sectors block indirect bytes ne) refl

-- Blocks in use stay in use when one more is marked.
pub still-Used :
    (sfs sfs1 : SfsFs) (block b : ℕ)
    → sfs1.sp_nblocks ≡ sfs.sp_nblocks
    → ((j : ℕ) → marked sfs1.sfs_freemap j ≡ (block == j || marked sfs.sfs_freemap j))
    → Used sfs b
    → Used sfs1 b
still-Used sfs sfs1 block b n marks (h, m) = (omega (arith, n, h), ground (arith, marks b, m))

pub now-Used :
    (sfs sfs1 : SfsFs) (block : ℕ)
    → sfs1.sp_nblocks ≡ sfs.sp_nblocks
    → ((j : ℕ) → marked sfs1.sfs_freemap j ≡ (block == j || marked sfs.sfs_freemap j))
    → block < sfs.sp_nblocks
    → Used sfs1 block
now-Used sfs sfs1 block n marks h = (omega (arith, n, h), ground (arith, marks block))

-- A block that is free is none of those in use.
pub Used-ne-fresh :
    (sfs : SfsFs) (b block : ℕ) → Used sfs b → marked sfs.sfs_freemap block ≡ false → b ≢ block
Used-ne-fresh sfs b block (h, m) fresh e =
    let same : marked sfs.sfs_freemap b ≡ marked sfs.sfs_freemap block =
      ap (marked sfs.sfs_freemap) e in
    absurd cc
