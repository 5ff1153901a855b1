-- ===== src/Sfs/Truncate/Frees.antt =====
-- The loops of sfs_truncate: which blocks they free.
use harvard_os.Prelude.{
  ℕ, zero, suc, ◌+◌, ◌*◌, ◌<◌, ◌≡◌, refl, sym, ap, ◌∙◌, ◌≢◌, ◌⊎◌, inl, inr, Bool, true, false, not,
  ◌&&◌, some, List, [], ◌∷◌, arith, fun_ext, leb, ltb, ◌==◌, ==_iff, if◌then◌else◌, get_or,
  Bool-cases, ne→==,
}
use harvard_os.Bitmap.{Bitmap, bitmap_unmark}
use harvard_os.Bitmap.Marks.{marked, IsValid, bitmap_unmark_lem}
use harvard_os.Sfs.{SfsFs, sfs_bfree}
use harvard_os.Sfs.Inode.{SfsVnode}
use harvard_os.Sfs.Truncate.{
  blocks_of, free_from, direct_past, free_direct, free_indirect, sfs_truncate,
}

-- Block numbers that can be freed one after the other: each is a hole, or a marked block that does
-- not come again.
abbrev pub Freeable : Bitmap → List ℕ → Type 0
Freeable b [] = Unit
Freeable b (block ∷ blocks) =
    ((block ≡ 0)
      ⊎ ((block < b.nbits) × (marked b block ≡ true) × ((k : ℕ) → get_or blocks k 0 ≢ block)))
    × Freeable b blocks

-- What a loop has done to the numbers and to the free map.
pub record Frees (past : ℕ → Bool) (i : ℕ) (blocks : List ℕ) (sfs : SfsFs) : Type 0 where
  pub out : List ℕ
  pub dirty : Bool
  pub freemap : Bitmap
  pub freemapdirty : Bool
  pub ran :
      free_from past i blocks sfs
      ≡ some (out, dirty, record sfs { sfs_freemap = freemap; sfs_freemapdirty = freemapdirty })
  pub valid : IsValid freemap
  pub cleared : (k : ℕ) → get_or out k 0 ≡ (if past (i + k) then 0 else get_or blocks k 0)
  pub freed :
      (k : ℕ)
      → past (i + k) ≡ true
      → get_or blocks k 0 ≢ 0
      → marked freemap (get_or blocks k 0) ≡ false
  pub kept :
      (j : ℕ)
      → ((k : ℕ) → past (i + k) ≡ true → get_or blocks k 0 ≢ 0 → get_or blocks k 0 ≢ j)
      → marked freemap j ≡ marked sfs.sfs_freemap j

-- The rest can be freed after one block that is not among it.
still_freeable :
    (b b1 : Bitmap) (block : ℕ) (blocks : List ℕ)
    → b1.nbits ≡ b.nbits
    → ((j : ℕ) → marked b1 j ≡ (not (block == j) && marked b j))
    → ((k : ℕ) → get_or blocks k 0 ≢ block)
    → Freeable b blocks
    → Freeable b1 blocks
still_freeable b b1 block [] n marks other h = tt
still_freeable b b1 block (c ∷ blocks) n marks other (inl z, h) =
    (inl z, still_freeable b b1 block blocks n marks (λ k. other (suc k)) h)
still_freeable b b1 block (c ∷ blocks) n marks other (inr (lt, m, once), h) = (
  inr (omega (arith, n, lt), ground (arith, marks c, m, other 0), once),
  still_freeable b b1 block blocks n marks (λ k. other (suc k)) h,
)

shift : (past : ℕ → Bool) (i k : ℕ) → past (i + 1 + k) ≡ past (i + suc k)
shift past i k = ap past (omega arith)

from_start : (past : ℕ → Bool) (i : ℕ) → past (i + 0) ≡ past i
from_start past i = ap past (omega arith)

contradiction : (p z : Bool) → (p && not z) ≡ false → p ≡ true → z ≡ false → ⊥
contradiction p z e f g = cc

module _ (past : ℕ → Bool) (i block : ℕ) (blocks : List ℕ) (sfs : SfsFs) where
  -- A block that stays, or a hole.
  skips :
      (past i && not (block == 0)) ≡ false
      → Frees past (i + 1) blocks sfs
      → Frees past i (block ∷ blocks) sfs
  unfolding free_from
  skips stay t = record {
    out = block ∷ t.out;
    dirty = t.dirty;
    freemap = t.freemap;
    freemapdirty = t.freemapdirty;
    ran = rw (free_from, stay, t.ran) refl;
    valid = t.valid;
    cleared = cleared;
    freed = freed;
    kept = λ j h. t.kept j (λ k p. h (suc k) (sym (shift past i k) ∙ p));
  }
    where
      cleared :
          (k : ℕ)
          → get_or (block ∷ t.out) k 0 ≡ (if past (i + k) then 0 else get_or (block ∷ blocks) k 0)
      cleared zero = rw (from_start past i) (ground (arith, stay))
      cleared (suc k) = rw (← shift past i k) (t.cleared k)

      freed :
          (k : ℕ)
          → past (i + k) ≡ true
          → get_or (block ∷ blocks) k 0 ≢ 0
          → marked t.freemap (get_or (block ∷ blocks) k 0) ≡ false
      freed zero p nz =
          let e = from_start past i in
          let f = ne→== block 0 nz in
          absurd (contradiction (past i) (block == 0) stay (sym e ∙ p) f)
      freed (suc k) p nz = t.freed k (shift past i k ∙ p) nz

  frees :
      (past i && not (block == 0)) ≡ true
      → (b1 : Bitmap) → bitmap_unmark sfs.sfs_freemap block ≡ some b1
      → ((j : ℕ) → marked b1 j ≡ (not (block == j) && marked sfs.sfs_freemap j))
      → ((k : ℕ) → get_or blocks k 0 ≢ block)
      → Frees past (i + 1) blocks (record sfs { sfs_freemap = b1; sfs_freemapdirty = true })
      → Frees past i (block ∷ blocks) sfs
  unfolding free_from sfs_bfree
  frees go b1 e marks once t = record {
    out = 0 ∷ t.out;
    dirty = true;
    freemap = t.freemap;
    freemapdirty = t.freemapdirty;
    ran = rw (free_from, go, sfs_bfree, e, t.ran) refl;
    valid = t.valid;
    cleared = cleared;
    freed = freed;
    kept = λ j h.
        t.kept j (λ k p. h (suc k) (sym (shift past i k) ∙ p))
        ∙ others j (h 0 (from_start past i ∙ both.0) both.1);
  }
    where
      both : (past i ≡ true) × (block ≢ 0)
      both = ground (arith, go)

      others : (j : ℕ) → block ≢ j → marked b1 j ≡ marked sfs.sfs_freemap j
      others j ne = rw (marks j, ne→== block j ne) refl

      cleared :
          (k : ℕ)
          → get_or (0 ∷ t.out) k 0 ≡ (if past (i + k) then 0 else get_or (block ∷ blocks) k 0)
      cleared zero = rw (from_start past i, both.0) refl
      cleared (suc k) = rw (← shift past i k) (t.cleared k)

      freed :
          (k : ℕ)
          → past (i + k) ≡ true
          → get_or (block ∷ blocks) k 0 ≢ 0
          → marked t.freemap (get_or (block ∷ blocks) k 0) ≡ false
      freed zero p nz =
          t.kept block (λ k p' nz'. once k) ∙ rw (marks block, (==_iff block block).1 refl) refl
      freed (suc k) p nz = t.freed k (shift past i k ∙ p) nz

-- A loop over blocks that can be freed frees those that are past, sets their numbers to 0, keeps the
-- other numbers, and marks or unmarks nothing else. It never panics.
pub free_from_lem :
    (past : ℕ → Bool) (i : ℕ) (blocks : List ℕ) (sfs : SfsFs)
    → IsValid sfs.sfs_freemap
    → Freeable sfs.sfs_freemap blocks
    → Frees past i blocks sfs
unfolding free_from
free_from_lem past i [] sfs v h = record {
  out = [];
  dirty = false;
  freemap = sfs.sfs_freemap;
  freemapdirty = sfs.sfs_freemapdirty;
  ran = refl;
  valid = v;
  cleared = λ k. elim (Bool-cases (past (i + k))) [ inl t ↦ rw t refl | inr f ↦ rw f refl ];
  freed = λ k p nz. absurd (nz refl);
  kept = λ j h. refl;
}
free_from_lem past i (block ∷ blocks) sfs v (inl z, h) =
    let test : (past i && not (block == 0)) ≡ false = ground (arith, z) in
    skips past i block blocks sfs test (free_from_lem past (i + 1) blocks sfs v h)
free_from_lem past i (block ∷ blocks) sfs v (inr (lt, m, once), h) =
    elim (Bool-cases (past i && not (block == 0))) [
      | inr stay ↦ skips past i block blocks sfs stay (free_from_lem past (i + 1) blocks sfs v h)
      | inl go ↦
          let (b1, e, valid, marks, n) = bitmap_unmark_lem sfs.sfs_freemap v block lt m in
          let sfs1 : SfsFs = record sfs { sfs_freemap = b1; sfs_freemapdirty = true } in
          frees past i block blocks sfs go b1 e marks once (
            free_from_lem past (i + 1) blocks sfs1 valid
              (still_freeable sfs.sfs_freemap b1 block blocks n marks once h))
    ]

-- The block with this number starts at the new end or past it.
abbrev pub starts_past : ℕ → ℕ → Bool
starts_past len k = leb len (k * 512)

-- The test of the source by the first byte of the block.
direct_past-starts_past : (len : ℕ) → direct_past (blocks_of len) ≡ starts_past len
direct_past-starts_past len = fun_ext λ k. ground arith

-- Cutting a file without an indirect block to `len` bytes, when its blocks are marked and all
-- different, sets its size, frees the direct blocks that start at byte `len` or behind it, and keeps
-- the others and every other mark of the free map.
pub sfs_truncate-direct :
    (len : ℕ) (sv : SfsVnode) (sfs : SfsFs)
    → IsValid sfs.sfs_freemap
    → Freeable sfs.sfs_freemap sv.sv_i.sfi_direct
    → sv.sv_i.sfi_indirect ≡ 0
    → (t : Frees (starts_past len) 0 sv.sv_i.sfi_direct sfs) × (sfs_truncate len sv sfs
        ≡ some (
          0,
          record sv {
            sv_i = record sv.sv_i { sfi_size = len; sfi_direct = t.out };
            sv_dirty = true;
          },
          record sfs { sfs_freemap = t.freemap; sfs_freemapdirty = t.freemapdirty },
        ))
unfolding sfs_truncate free_direct free_indirect
sfs_truncate-direct len sv sfs v h z =
    let t = free_from_lem (starts_past len) 0 sv.sv_i.sfi_direct sfs v h in
    let no_block : (ltb (blocks_of len) 142 && not (sv.sv_i.sfi_indirect == 0)) ≡ false =
      ground (arith, z) in
    let ran =
      ap (λ past. free_from past 0 sv.sv_i.sfi_direct sfs) (direct_past-starts_past len) ∙ t.ran in
    (t, rw (sfs_truncate, free_direct, ran, free_indirect, no_block) refl)
