-- ===== src/Sfs/Bmap/Indirect.antt =====
-- sfs_bmap on the blocks past the direct ones.
use harvard_os.Prelude.{
  ℕ, ◌+◌, ◌-◌, ◌/◌, ◌%◌, ◌<◌, ◌≡◌, refl, sym, ap, subst, ◌∙◌, ◌≢◌, ◌⊎◌, inl, inr, Bool, true, false,
  some, List, arith, ltb, le→ltb, ◌==◌, ==_iff, get_or, length, replicate, update_at_self, ne→==,
}
use native.Mathlib.Decide.{ℕ_discrete}
use harvard_os.Errno.{enospc}
use harvard_os.Bitmap.Marks.{marked}
use harvard_os.Lhd.Sectors.{read_disk}
use harvard_os.Sfs.{SfsFs}
use harvard_os.Sfs.Words.{bytes_words, zero_words, get_or-replicate}
use harvard_os.Sfs.Inode.{SfsVnode}
use harvard_os.Sfs.Blocks.{sfs_rblock_lem}
use harvard_os.Sfs.Alloc.{IsFs, Used, Allocates, IsFull, read-IsFs, sfs_balloc_lem}
use harvard_os.Sfs.Bmap.Slot.{entry_is, slot_lookup, slot-Maps}
use harvard_os.Sfs.Bmap.{bmap_slot, set_indirect, bmap_fresh, bmap_load, bmap_indirect}
use harvard_os.Sfs.Bmap.Mapping.{entry, file_map, IsFile, Maps, now-Used}
use harvard_os.Sfs.Bmap.Direct.{after_alloc, fresh_nonzero, alloc-IsFile}

module _ (sv : SfsVnode) (sfs : SfsFs) (v : IsFs sfs) (f : IsFile sv sfs) where
  -- Once the indirect block has been read.
  abbrev pub loaded : SfsFs
  loaded = record sfs {
    sfs_device = read_disk (sfs.sfs_device.sectors sv.sv_i.sfi_indirect) sfs.sfs_device;
  }

  loaded-IsFile : IsFile sv loaded
  loaded-IsFile = record {
    directs = f.directs;
    direct_used = f.direct_used;
    indirect_used = f.indirect_used;
    entries_used = f.entries_used;
  }

  load_ran :
      (idoff : ℕ) (doalloc : Bool)
      → bmap_load idoff doalloc sv sfs
        ≡ bmap_slot idoff doalloc sv.sv_i.sfi_indirect
            (bytes_words (sfs.sfs_device.sectors sv.sv_i.sfi_indirect))
            sv
            loaded
  unfolding bmap_load
  load_ran idoff doalloc =
      rw
        (
          bmap_load,
          sfs_rblock_lem sv.sv_i.sfi_indirect sfs v.disk v.healthy
              (omega (arith, f.indirect_used.0, v.on_disk)),
        )
        refl

  load-Maps :
      (idoff : ℕ)
      → idoff < 128
      → sv.sv_i.sfi_indirect ≢ 0
      → Maps sv sfs (15 + idoff) (bmap_load idoff true sv sfs)
  load-Maps idoff h ne =
      let m = slot-Maps idoff sv loaded (read-IsFs sfs sv.sv_i.sfi_indirect v) loaded-IsFile h ne in
      record {
        result = m.result;
        block = m.block;
        file = m.file;
        after = m.after;
        ran = load_ran idoff true ∙ m.ran;
        valid_fs = m.valid_fs;
        valid_file = m.valid_file;
        others = m.others;
        outcome = m.outcome;
      }

  -- The indirect block just allocated has no entries yet.
  module _ (a : Allocates sfs) (none_yet : sv.sv_i.sfi_indirect ≡ 0) where
    abbrev sv1 : SfsVnode
    sv1 = set_indirect a.block sv

    abbrev sfs1 : SfsFs
    sfs1 = after_alloc sfs a

    empty_buf : bytes_words (sfs1.sfs_device.sectors a.block) ≡ replicate 128 0
    empty_buf =
        ap bytes_words (update_at_self sfs.sfs_device.sectors a.block (replicate 512 0))
        ∙ zero_words

    empty_entry : (k : ℕ) → entry a.block sfs1.sfs_device.sectors k ≡ 0
    empty_entry k =
        entry_is a.block sfs1.sfs_device.sectors k (fresh_nonzero sfs v a)
        ∙ ap (λ ws. get_or ws k 0) empty_buf
        ∙ get_or-replicate 128 k

    old_entry : (k : ℕ) → entry sv.sv_i.sfi_indirect sfs.sfs_device.sectors k ≡ 0
    unfolding entry
    old_entry k = rw none_yet refl

    fresh-IsFile : IsFile sv1 sfs1
    fresh-IsFile =
        let f1 = alloc-IsFile sv sfs a f in
        record {
          directs = f.directs;
          direct_used = f1.direct_used;
          indirect_used = now-Used sfs sfs1 a.block refl a.marks a.inside;
          entries_used =
              λ k. subst (Used sfs1) (sym (empty_entry k)) (a.valid.nonempty, a.valid.reserved);
        }

    fresh-file_map :
        (j : ℕ)
        → file_map sv1.sv_i sfs1.sfs_device.sectors j ≡ file_map sv.sv_i sfs.sfs_device.sectors j
    unfolding file_map
    fresh-file_map j = rw (empty_entry (j - 15), old_entry (j - 15)) refl

    fresh-Maps : (idoff : ℕ) → idoff < 128 → Maps sv sfs (15 + idoff) (bmap_fresh idoff sv sfs)
    unfolding bmap_fresh
    fresh-Maps idoff h =
        let m = slot-Maps idoff sv1 sfs1 a.valid fresh-IsFile h (fresh_nonzero sfs v a) in
        record {
          result = m.result;
          block = m.block;
          file = m.file;
          after = m.after;
          ran =
              rw (bmap_fresh, a.result)
                (ap (λ ws. bmap_slot idoff true a.block ws sv1 sfs1) (sym empty_buf) ∙ m.ran);
          valid_fs = m.valid_fs;
          valid_file = m.valid_file;
          others = λ j ne. m.others j ne ∙ fresh-file_map j;
          outcome = outcome m.outcome;
        }
      where
        outcome :
            {block : ℕ} {result : ℕ} {now : ℕ}
            → ((result ≡ 0)
                × (block ≢ 0)
                × (now ≡ block)
                × ((file_map sv1.sv_i sfs1.sfs_device.sectors (15 + idoff) ≡ block)
                    ⊎ ((file_map sv1.sv_i sfs1.sfs_device.sectors (15 + idoff) ≡ 0)
                        × (marked sfs1.sfs_freemap block ≡ false))))
              ⊎ ((result ≡ enospc) × (now ≡ file_map sv1.sv_i sfs1.sfs_device.sectors (15 + idoff)))
            → ((result ≡ 0)
                × (block ≢ 0)
                × (now ≡ block)
                × ((file_map sv.sv_i sfs.sfs_device.sectors (15 + idoff) ≡ block)
                    ⊎ ((file_map sv.sv_i sfs.sfs_device.sectors (15 + idoff) ≡ 0)
                        × (marked sfs.sfs_freemap block ≡ false))))
              ⊎ ((result ≡ enospc) × (now ≡ file_map sv.sv_i sfs.sfs_device.sectors (15 + idoff)))
        outcome (inl (r, nz, n, inl was)) =
            inl (r, nz, n, inl (sym (fresh-file_map (15 + idoff)) ∙ was))
        outcome {block = block} (inl (r, nz, n, inr (was, free))) = inl (
          r,
          nz,
          n,
          inr (sym (fresh-file_map (15 + idoff)) ∙ was, ground (arith, a.marks block, free)),
        )
        outcome (inr (r, n)) = inr (r, n ∙ fresh-file_map (15 + idoff))

  no_room-Maps : (idoff : ℕ) → IsFull sfs → Maps sv sfs (15 + idoff) (bmap_fresh idoff sv sfs)
  unfolding bmap_fresh
  no_room-Maps idoff n = record {
    result = enospc;
    block = 0;
    file = sv;
    after = sfs;
    ran = rw (bmap_fresh, n.result) refl;
    valid_fs = v;
    valid_file = f;
    others = λ j ne. refl;
    outcome = inr (refl, refl);
  }

  in_block : (idoff : ℕ) → idoff < 128 → (ltb 0 (idoff / 128) ≡ false) × (idoff % 128 ≡ idoff)
  in_block idoff h = (le→ltb 0 (idoff / 128) (omega arith), omega arith)

  pub indirect-Maps :
      (idoff : ℕ) → idoff < 128 → Maps sv sfs (15 + idoff) (bmap_indirect idoff true sv sfs)
  unfolding bmap_indirect
  indirect-Maps idoff h =
      let (one, off) = in_block idoff h in
      elim (ℕ_discrete sv.sv_i.sfi_indirect 0) [
        | no ne ↦
            rw (bmap_indirect, one, ne→== sv.sv_i.sfi_indirect 0 ne, off) (load-Maps idoff h ne)
        | yes z ↦
            let test : (sv.sv_i.sfi_indirect == 0) ≡ true = (==_iff sv.sv_i.sfi_indirect 0).1 z in
            rw (bmap_indirect, one, test, off)
              (elim (sfs_balloc_lem sfs v) [
                | inl a ↦ fresh-Maps a z idoff h
                | inr n ↦ no_room-Maps idoff n
              ])
      ]

  -- Without DOALLOC.
  pub indirect-lookup :
      (idoff : ℕ)
      → idoff < 128
      → (buf : List ℕ) × (bmap_indirect idoff false sv sfs
          ≡ some (
            0,
            entry sv.sv_i.sfi_indirect sfs.sfs_device.sectors idoff,
            sv,
            record sfs { sfs_device = read_disk buf sfs.sfs_device },
          ))
        × (length buf ≡ 512)
  unfolding bmap_indirect entry
  indirect-lookup idoff h =
      let (one, off) = in_block idoff h in
      elim (ℕ_discrete sv.sv_i.sfi_indirect 0) [
        | no ne ↦ (
          sfs.sfs_device.sectors sv.sv_i.sfi_indirect,
          rw (bmap_indirect, one, ne→== sv.sv_i.sfi_indirect 0 ne, off, load_ran idoff false)
              (slot_lookup idoff sv loaded (read-IsFs sfs sv.sv_i.sfi_indirect v) loaded-IsFile h
                ne),
          v.disk.whole sv.sv_i.sfi_indirect,
        )
        | yes z ↦
            let test : (sv.sv_i.sfi_indirect == 0) ≡ true = (==_iff sv.sv_i.sfi_indirect 0).1 z in
            (sfs.sfs_device.lh_buf, rw (bmap_indirect, one, test) refl, v.disk.buffer)
      ]
