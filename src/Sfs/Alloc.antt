-- ===== src/Sfs/Alloc.antt =====
-- Allocation of disk blocks, and the invariant of a mounted file system that it preserves.
use harvard_os.Prelude.{
  ℕ, ◌≤◌, ◌<◌, ◌≡◌, refl, ap, ◌⊎◌, inl, inr, Bool, true, false, not, ◌||◌, some, List, [], arith,
  lt→ltb, ◌==◌, length, replicate, Bool-cases, update_at,
}
use native.Mathlib.Decide.{dec_lt}
use harvard_os.Errno.{enospc}
use harvard_os.Bitmap.{Bitmap, bitmap_alloc}
use harvard_os.Bitmap.Marks.{marked, IsValid, bitmap_isset_lem}
use harvard_os.Bitmap.Alloc.{Took, bitmap_alloc_lem}
use harvard_os.Lhd.Sectors.{read_disk, written_disk}
use harvard_os.Sfs.{SfsFs, sfs_clearblock, sfs_balloc, sfs_bused}
use harvard_os.Sfs.Blocks.{IsDisk, sfs_wblock_lem}

-- A mounted file system on a disk without errors: every block past its end is marked, and so is
-- block 0, the super block's.
pub record IsFs (sfs : SfsFs) : Type 0 where
  pub disk : IsDisk sfs.sfs_device
  pub healthy : sfs.sfs_device.results ≡ []
  pub map : IsValid sfs.sfs_freemap
  pub on_disk : sfs.sp_nblocks ≤ sfs.sfs_device.d_blocks
  pub bits : sfs.sp_nblocks ≤ sfs.sfs_freemap.nbits
  pub nonempty : 0 < sfs.sp_nblocks
  pub beyond :
      (i : ℕ) → sfs.sp_nblocks ≤ i → i < sfs.sfs_freemap.nbits → marked sfs.sfs_freemap i ≡ true
  pub reserved : marked sfs.sfs_freemap 0 ≡ true

abbrev pub Used : SfsFs → ℕ → Type 0
Used sfs block = (block < sfs.sp_nblocks) × (marked sfs.sfs_freemap block ≡ true)

pub length-update_at :
    (f : ℕ → List ℕ) (i n : ℕ) (xs : List ℕ)
    → length xs ≡ n
    → ((b : ℕ) → length (f b) ≡ n)
    → (b : ℕ) → length (update_at f i xs b) ≡ n
length-update_at f i n xs e h b = elim (Bool-cases (b == i)) [ inl t ↦ rw t e | inr g ↦ rw g (h b) ]

-- A file system after a write of one block, and after a read.
pub written-IsFs :
    (sfs : SfsFs) (block : ℕ) (bytes : List ℕ)
    → length bytes ≡ 512
    → IsFs sfs
    → IsFs (record sfs { sfs_device = written_disk block bytes sfs.sfs_device })
written-IsFs sfs block bytes e v = record {
  disk = record {
    buffer = e;
    whole = length-update_at sfs.sfs_device.sectors block 512 bytes e v.disk.whole;
    disk_size = v.disk.disk_size;
  };
  healthy = v.healthy;
  map = v.map;
  on_disk = v.on_disk;
  bits = v.bits;
  nonempty = v.nonempty;
  beyond = v.beyond;
  reserved = v.reserved;
}

pub read-IsFs :
    (sfs : SfsFs) (block : ℕ)
    → IsFs sfs
    → IsFs (record sfs { sfs_device = read_disk (sfs.sfs_device.sectors block) sfs.sfs_device })
read-IsFs sfs block v = record {
  disk = record { buffer = v.disk.whole block; whole = v.disk.whole; disk_size = v.disk.disk_size };
  healthy = v.healthy;
  map = v.map;
  on_disk = v.on_disk;
  bits = v.bits;
  nonempty = v.nonempty;
  beyond = v.beyond;
  reserved = v.reserved;
}

not-not : (b : Bool) → not (not b) ≡ b
not-not true = refl
not-not false = refl

-- What a successful sfs_balloc has done.
pub record Allocates (sfs : SfsFs) : Type 0 where
  pub block : ℕ
  pub freemap : Bitmap
  pub result :
      sfs_balloc sfs
      ≡ some (
        0,
        block,
        record sfs {
          sfs_freemap = freemap;
          sfs_freemapdirty = true;
          sfs_device = written_disk block (replicate 512 0) sfs.sfs_device;
        },
      )
  pub fresh : marked sfs.sfs_freemap block ≡ false
  pub inside : block < sfs.sp_nblocks
  pub valid : IsFs (record sfs {
    sfs_freemap = freemap;
    sfs_freemapdirty = true;
    sfs_device = written_disk block (replicate 512 0) sfs.sfs_device;
  })
  pub marks : (j : ℕ) → marked freemap j ≡ (block == j || marked sfs.sfs_freemap j)

-- A full file system: the error, and nothing has changed.
pub record IsFull (sfs : SfsFs) : Type 0 where
  pub result : sfs_balloc sfs ≡ some (enospc, 0, sfs)
  pub full : (j : ℕ) → j < sfs.sp_nblocks → marked sfs.sfs_freemap j ≡ true

module _ (sfs : SfsFs) (v : IsFs sfs) where
  marked-kept :
      (t : Took sfs.sfs_freemap 0 (bitmap_alloc sfs.sfs_freemap)) (j : ℕ)
      → marked sfs.sfs_freemap j ≡ true
      → marked t.after j ≡ true
  marked-kept t j e = ground (arith, t.marks j, e)

  took_inside :
      (t : Took sfs.sfs_freemap 0 (bitmap_alloc sfs.sfs_freemap)) → t.index < sfs.sp_nblocks
  took_inside t = elim (dec_lt t.index sfs.sp_nblocks) [
    | yes h ↦ h
    | no h ↦ let m = v.beyond t.index (omega arith) t.inside in let c = t.clear in absurd cc
  ]

  -- The bitmap keeps its size.
  allocated :
      (t : Took sfs.sfs_freemap 0 (bitmap_alloc sfs.sfs_freemap))
      → t.after.nbits ≡ sfs.sfs_freemap.nbits
      → Allocates sfs
  unfolding sfs_balloc sfs_clearblock
  allocated t n =
      let sfs1 = record sfs { sfs_freemap = t.after; sfs_freemapdirty = true } in
      let valid1 : IsFs sfs1 = record {
        disk = v.disk;
        healthy = v.healthy;
        map = t.valid;
        on_disk = v.on_disk;
        bits = omega (arith, n, v.bits);
        nonempty = v.nonempty;
        beyond = λ i h k. marked-kept t i (v.beyond i h (omega (arith, n, k)));
        reserved = marked-kept t 0 v.reserved;
      } in
      let inside = took_inside t in
      record {
        block = t.index;
        freemap = t.after;
        result =
            rw
              (
                sfs_balloc,
                t.result,
                lt→ltb t.index sfs.sp_nblocks inside,
                sfs_wblock_lem (replicate 512 0) t.index sfs1 refl v.disk v.healthy
                    (omega (arith, inside, v.on_disk)),
              )
              refl;
        fresh = t.clear;
        inside = inside;
        valid = written-IsFs sfs1 t.index (replicate 512 0) refl valid1;
        marks = t.marks;
      }

  -- sfs_balloc marks and clears a free block, or says that there is none. It never panics.
  pub sfs_balloc_lem : Allocates sfs ⊎ IsFull sfs
  unfolding sfs_balloc
  sfs_balloc_lem = elim (bitmap_alloc_lem sfs.sfs_freemap v.map) [
    | inl t ↦ inl (allocated t t.same_size)
    | inr n ↦ inr (record {
      result = rw (sfs_balloc, n.result) refl;
      full = λ j h. n.full j (omega arith) (omega (arith, h, v.bits));
    })
  ]

  pub sfs_bused_lem :
      (block : ℕ)
      → block < sfs.sp_nblocks
      → sfs_bused block sfs ≡ some (marked sfs.sfs_freemap block)
  unfolding sfs_bused
  sfs_bused_lem block h =
      let (bit, e, test) =
        bitmap_isset_lem sfs.sfs_freemap v.map block (omega (arith, h, v.bits)) in
      rw (sfs_bused, lt→ltb block sfs.sp_nblocks h, e, test)
        (ap some (not-not (marked sfs.sfs_freemap block)))
