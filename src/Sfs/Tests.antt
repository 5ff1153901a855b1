-- ===== src/Sfs/Tests.antt =====
-- A small file system, runs of the operations on it, and instances of their theorems.
use harvard_os.Prelude.{
  ◌≤◌, ℕ, zero, suc, ◌<◌, ◌≡◌, refl, sym, subst, ◌≢◌, inl, inr, true, false, some, List, [], ◌∷◌,
  arith, get_or, replicate, ◌*◌, ◌⊎◌, none,
}
use harvard_os.Errno.{eio}
use harvard_os.Prelude.Bits.{bit}
use harvard_os.Bitmap.{Bitmap}
use harvard_os.Bitmap.Marks.{marked, IsValid}
use harvard_os.Lhd.{Disk}
use harvard_os.Sfs.Dir.{bytes_dir, dir_bytes, look_at, new_entry, Search}
use harvard_os.Sfs.Dir.Entries.{look_at-new_entry}
use harvard_os.Uio.{Uio, uio_read, mk_kuio}
use harvard_os.Sfs.File.{whole_blocks}
use harvard_os.Sfs.File.Reads.{ReadsBlocks, all_contents, whole_blocks-ReadsBlocks}
use harvard_os.Lhd.Sectors.{read_disk}
use harvard_os.Sfs.{SfsFs, sfs_rblock, sfs_wblock}
use harvard_os.Sfs.Words.{get_or-replicate}
use harvard_os.Sfs.Inode.{Inode, SfsVnode}
use harvard_os.Sfs.Blocks.{IsDisk}
use harvard_os.Sfs.Retries.{sfs_wblock-lost, sfs_rblock-retries}
use harvard_os.Sfs.Alloc.{IsFs, Used}
use harvard_os.Sfs.Bmap.Mapping.{entry, IsFile}
use harvard_os.Sfs.Pool.{Pool, LoadMem, sfs_loadvnode}
use harvard_os.Sfs.Pool.Loads.{Loads, sfs_loadvnode-Loads}
use harvard_os.Sfs.Truncate.{sfs_truncate}
use harvard_os.Sfs.Truncate.Frees.{starts_past, Freeable, Frees, sfs_truncate-direct}

-- Eight blocks, the first four of them in use.
abbrev test_map : Bitmap
test_map = record { nbits = 8; v = 15 ∷ [] }

abbrev test_disk : List ℕ → Disk
test_disk results = record {
  d_blocks = 8;
  sectors = λ b. replicate 512 0;
  lh_buf = replicate 512 0;
  results = results;
}

abbrev test_sfs : List ℕ → SfsFs
test_sfs results = record {
  sp_nblocks = 8;
  sfs_superdirty = false;
  sfs_device = test_disk results;
  sfs_freemap = test_map;
  sfs_freemapdirty = false;
}

-- A file of one block, block 3 of the disk.
abbrev test_inode : Inode
test_inode = record {
  sfi_size = 512;
  sfi_type = 1;
  sfi_linkcount = 1;
  sfi_direct = 3 ∷ replicate 14 0;
  sfi_indirect = 0;
  sfi_waste = replicate 110 0;
}

abbrev test_vnode : SfsVnode
test_vnode = record { sv_i = test_inode; sv_ino = 2; sv_dirty = false }

test_bytes : (k : ℕ) → get_or test_map.v k 0 < 256
test_bytes zero = omega arith
test_bytes (suc k) = omega arith

test_map-IsValid : IsValid test_map
test_map-IsValid = record {
  fits = omega arith;
  words = refl;
  bytes = test_bytes;
  over = λ i past room. absurd (omega (arith, past, room));
}

test_disk-IsDisk : (results : List ℕ) → IsDisk (test_disk results)
test_disk-IsDisk results = record { buffer = refl; whole = λ b. refl; disk_size = omega arith }

zero_marked : marked test_map 0 ≡ true
unfolding bit
zero_marked = refl

three_marked : marked test_map 3 ≡ true
unfolding bit
three_marked = refl

test_sfs-IsFs : IsFs (test_sfs [])
test_sfs-IsFs = record {
  disk = test_disk-IsDisk [];
  healthy = refl;
  map = test_map-IsValid;
  on_disk = omega arith;
  bits = omega arith;
  nonempty = omega arith;
  beyond = λ i h k. absurd (omega (arith, h, k));
  reserved = zero_marked;
}

zero_Used : Used (test_sfs []) 0
zero_Used = (omega arith, zero_marked)

test_direct : (i : ℕ) → Used (test_sfs []) (get_or test_inode.sfi_direct i 0)
test_direct zero = (omega arith, three_marked)
test_direct (suc i) = subst (Used (test_sfs [])) (sym (get_or-replicate 14 i)) zero_Used

test_entries : (k : ℕ) → Used (test_sfs []) (entry 0 (test_disk []).sectors k)
unfolding entry
test_entries k = zero_Used

test_vnode-IsFile : IsFile test_vnode (test_sfs [])
test_vnode-IsFile = record {
  directs = refl;
  direct_used = test_direct;
  indirect_used = zero_Used;
  entries_used = test_entries;
}

sfs_wblock-lost_example :
    sfs_wblock (replicate 512 7) 5 (test_sfs (eio ∷ []))
    ≡ some (
      0,
      record (test_sfs (eio ∷ [])) {
        sfs_device = record (read_disk (replicate 512 7) (test_disk (eio ∷ []))) { results = [] };
      },
    )
sfs_wblock-lost_example =
    sfs_wblock-lost (replicate 512 7) 5 [] (test_sfs (eio ∷ [])) refl (test_disk-IsDisk (eio ∷ []))
      refl (omega arith)

-- Eleven EIO results.
abbrev failing : List ℕ
failing = replicate 11 eio

sfs_rblock-retries_example :
    ((11 ≤ 10)
      × (sfs_rblock 5 (test_sfs failing)
          ≡ some (
            0,
            replicate 512 0,
            record (test_sfs failing) {
              sfs_device = record (read_disk (replicate 512 0) (test_disk failing)) {
                results = [];
              };
            },
          )))
    ⊎ (◌≡◌ {A = ℕ} 11 11
        × (sfs_rblock 5 (test_sfs failing)
            ≡ some (
              eio,
              [],
              record (test_sfs failing) {
                sfs_device = record (test_disk failing) { results = [] };
              },
            )))
sfs_rblock-retries_example =
    sfs_rblock-retries 11 5 (test_sfs failing) (test_disk-IsDisk failing) (omega arith)
      (omega arith) refl

abbrev ab : List ℕ
ab = 97 ∷ 98 ∷ []

abbrev abc : List ℕ
abc = 97 ∷ 98 ∷ 99 ∷ []

abbrev nothing_yet : Search
nothing_yet = record { found = none; emptyslot = none }

-- "ab" in slot 4, looked for as "abc".
look_at-new_entry_example :
    ((ab ≡ abc)
      × (look_at abc 4 (bytes_dir (dir_bytes (new_entry ab 7))) nothing_yet
          ≡ some (record nothing_yet { found = some (4, 7) })))
    ⊎ ((ab ≢ abc)
        × (look_at abc 4 (bytes_dir (dir_bytes (new_entry ab 7))) nothing_yet ≡ some nothing_yet))
look_at-new_entry_example =
    look_at-new_entry ab abc 7 4 nothing_yet (omega arith)
      ((λ e. omega (arith, e)), ((λ e. omega (arith, e)), tt)) (λ e. omega (arith, e)) (omega arith)
      refl

nonzero : (k : ℕ) → get_or {A = ℕ} (replicate 14 0) k 0 ≢ 3
nonzero k e = omega (arith, e, get_or-replicate 14 k)

holes : (n : ℕ) → Freeable test_map (replicate n 0)
holes zero = tt
holes (suc n) = (inl refl, holes n)

test_Freeable : Freeable test_map test_inode.sfi_direct
test_Freeable = (inr (omega arith, three_marked, nonzero), holes 14)

sfs_truncate-direct_example :
    (t : Frees (starts_past 0) 0 test_inode.sfi_direct (test_sfs [])) × (sfs_truncate 0 test_vnode
        (test_sfs [])
      ≡ some (
        0,
        record test_vnode {
          sv_i = record test_inode { sfi_size = 0; sfi_direct = t.out };
          sv_dirty = true;
        },
        record (test_sfs []) { sfs_freemap = t.freemap; sfs_freemapdirty = t.freemapdirty },
      ))
sfs_truncate-direct_example =
    sfs_truncate-direct 0 test_vnode (test_sfs []) test_map-IsValid test_Freeable refl

-- A buffer of two blocks.
abbrev test_uio : Uio
test_uio = mk_kuio [] 1024 0 uio_read

whole_blocks-ReadsBlocks_example :
    ReadsBlocks
      (2 * 512)
      (all_contents 2 test_vnode (test_sfs []) 0)
      test_uio
      test_vnode
      (test_sfs [])
      (whole_blocks 2 test_uio test_vnode (test_sfs []))
unfolding mk_kuio
whole_blocks-ReadsBlocks_example =
    whole_blocks-ReadsBlocks 2 0 test_uio test_vnode (test_sfs []) test_sfs-IsFs test_vnode-IsFile
      (omega arith) refl
      (record {
        kernel = refl;
        space = refl;
        room = omega arith;
        wanted = omega arith;
        small = omega arith;
      })
      refl

-- A table with one vnode, the one that is loaded.
abbrev test_pool : Pool
test_pool = record {
  sfs = test_sfs [];
  vnodes = record { ptr = 100; refcount = 1; sv = test_vnode } ∷ [];
}

abbrev test_mem : LoadMem
test_mem = record { vnode_ptr = some 200; lock_ok = true; array_ok = true }

sfs_loadvnode-Loads_example : Loads 2 test_pool.vnodes (sfs_loadvnode 2 0 test_mem test_pool)
sfs_loadvnode-Loads_example = sfs_loadvnode-Loads 2 0 test_mem test_pool
