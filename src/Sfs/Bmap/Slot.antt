-- ===== src/Sfs/Bmap/Slot.antt =====
-- A slot of the indirect block, once that block is in the buffer.
use harvard_os.Prelude.{
  ℕ, ◌+◌, ◌-◌, ◌<◌, ◌≡◌, refl, sym, ap, subst, ◌∙◌, ◌≢◌, inl, inr, Bool, true, false, some, List,
  arith, ltb, lt→ltb, le→ltb, ◌==◌, length, get_or, set, length-set, get_or-set_self, get_or-set_ne,
  Bool-cases, update_at_self, ne→==,
}
use native.Mathlib.Decide.{dec_lt, ℕ_discrete}
use harvard_os.Errno.{enospc}
use harvard_os.Lhd.Sectors.{written_disk}
use harvard_os.Sfs.{SfsFs}
use harvard_os.Sfs.Words.{
  words_bytes, bytes_words, AllWords, bytes_words-words_bytes, length-words_bytes,
  length-bytes_words,
}
use harvard_os.Sfs.Inode.{Inode, SfsVnode}
use harvard_os.Sfs.Blocks.{sfs_wblock_lem}
use harvard_os.Sfs.Alloc.{IsFs, Used, Allocates, IsFull, written-IsFs, sfs_balloc_lem}
use harvard_os.Sfs.Bmap.{bmap_slot}
use harvard_os.Sfs.Bmap.Mapping.{
  entry, file_map, IsFile, hand_back_lem, all_words, Maps, still-Used, now-Used,
}
use harvard_os.Sfs.Bmap.Direct.{after_alloc, fresh_nonzero}

pub entry_is :
    (indirect : ℕ) (sectors : ℕ → List ℕ) (k : ℕ)
    → indirect ≢ 0
    → entry indirect sectors k ≡ get_or (bytes_words (sectors indirect)) k 0
unfolding entry
entry_is indirect sectors k ne = rw (ne→== indirect 0 ne) refl

pub map_indirect :
    (i : Inode) (sectors : ℕ → List ℕ) (k : ℕ)
    → file_map i sectors (15 + k) ≡ entry i.sfi_indirect sectors k
unfolding file_map
map_indirect i sectors k =
    let past : ltb (15 + k) 15 ≡ false = le→ltb (15 + k) 15 (omega arith) in
    let back : (15 + k) - 15 ≡ k = omega arith in rw (past, back) refl

-- The indirect block in the buffer, and the file whose it is.
module _ (idoff : ℕ) (sv : SfsVnode) (sfs : SfsFs) (v : IsFs sfs) (f : IsFile sv sfs)
    (h : idoff < 128) (ne : sv.sv_i.sfi_indirect ≢ 0) where
  abbrev pub idblock : ℕ
  idblock = sv.sv_i.sfi_indirect

  abbrev pub idbuf : List ℕ
  idbuf = bytes_words (sfs.sfs_device.sectors idblock)

  here : entry idblock sfs.sfs_device.sectors idoff ≡ get_or idbuf idoff 0
  here = entry_is idblock sfs.sfs_device.sectors idoff ne

  slot-Used : (k : ℕ) → Used sfs (get_or idbuf k 0)
  slot-Used k = subst (Used sfs) (entry_is idblock sfs.sfs_device.sectors k ne) (f.entries_used k)

  length-idbuf : length idbuf ≡ 128
  length-idbuf = length-bytes_words 128 (sfs.sfs_device.sectors idblock) (v.disk.whole idblock)

  slot_mapped :
      (doalloc : Bool)
      → get_or idbuf idoff 0 ≢ 0
      → bmap_slot idoff doalloc idblock idbuf sv sfs ≡ some (0, get_or idbuf idoff 0, sv, sfs)
  unfolding bmap_slot
  slot_mapped doalloc nz =
      rw (bmap_slot, ne→== (get_or idbuf idoff 0) 0 nz)
        (hand_back_lem (get_or idbuf idoff 0) sv sfs v (slot-Used idoff))

  pub slot_lookup :
      bmap_slot idoff false idblock idbuf sv sfs ≡ some (0, get_or idbuf idoff 0, sv, sfs)
  unfolding bmap_slot
  slot_lookup = elim (Bool-cases (get_or idbuf idoff 0 == 0)) [
    | inl t ↦ rw (bmap_slot, t) (hand_back_lem (get_or idbuf idoff 0) sv sfs v (slot-Used idoff))
    | inr g ↦ rw (bmap_slot, g) (hand_back_lem (get_or idbuf idoff 0) sv sfs v (slot-Used idoff))
  ]

  module _ (a : Allocates sfs) where
    abbrev new_buf : List ℕ
    new_buf = set idbuf idoff a.block

    abbrev sfs1 : SfsFs
    sfs1 = after_alloc sfs a

    abbrev sfs2 : SfsFs
    sfs2 = record sfs1 { sfs_device = written_disk idblock (words_bytes new_buf) sfs1.sfs_device }

    new_slot : (k : ℕ) → Used sfs1 (get_or new_buf k 0)
    new_slot k = elim (ℕ_discrete idoff k) [
      | yes e ↦
          let at_k : get_or new_buf k 0 ≡ a.block =
            rw (← e) (get_or-set_self idbuf idoff a.block 0 (omega (arith, h, length-idbuf))) in
          rw at_k (now-Used sfs sfs1 a.block refl a.marks a.inside)
      | no other ↦
          rw (get_or-set_ne idbuf idoff k a.block 0 other)
            (still-Used sfs sfs1 a.block (get_or idbuf k 0) refl a.marks (slot-Used k))
    ]

    new_words : AllWords new_buf
    new_words = all_words new_buf (λ k. omega (arith, (new_slot k).0, v.on_disk, v.disk.disk_size))

    new_length : length (words_bytes new_buf) ≡ 512
    new_length =
        omega (arith, length-words_bytes new_buf, length-set idbuf idoff a.block, length-idbuf)

    new_entry : (k : ℕ) → entry idblock sfs2.sfs_device.sectors k ≡ get_or new_buf k 0
    new_entry k =
        entry_is idblock sfs2.sfs_device.sectors k ne
        ∙ ap (λ bytes. get_or (bytes_words bytes) k 0)
            (update_at_self sfs1.sfs_device.sectors idblock (words_bytes new_buf))
        ∙ ap (λ ws. get_or ws k 0) (bytes_words-words_bytes new_buf new_words)

    new_IsFile : IsFile sv sfs2
    new_IsFile =
        let used : (b : ℕ) → Used sfs b → Used sfs2 b =
          λ b u. still-Used sfs sfs1 a.block b refl a.marks u in
        record {
          directs = f.directs;
          direct_used = λ i. used (get_or sv.sv_i.sfi_direct i 0) (f.direct_used i);
          indirect_used = used idblock f.indirect_used;
          entries_used = λ k. subst (Used sfs2) (sym (new_entry k)) (new_slot k);
        }

    slot_ran :
        get_or idbuf idoff 0 ≡ 0
        → bmap_slot idoff true idblock idbuf sv sfs ≡ some (0, a.block, sv, sfs2)
    unfolding bmap_slot
    slot_ran z =
        rw
          (
            bmap_slot,
            z,
            a.result,
            sfs_wblock_lem (words_bytes new_buf) idblock sfs1 new_length a.valid.disk
                a.valid.healthy (omega (arith, f.indirect_used.0, v.on_disk)),
          )
          (hand_back_lem a.block sv sfs2
            (written-IsFs sfs1 idblock (words_bytes new_buf) new_length a.valid)
            (now-Used sfs sfs1 a.block refl a.marks a.inside))

    other_entry :
        (j : ℕ)
        → j ≢ 15 + idoff
        → file_map sv.sv_i sfs2.sfs_device.sectors j ≡ file_map sv.sv_i sfs.sfs_device.sectors j
    unfolding file_map
    other_entry j other = elim (dec_lt j 15) [
      | yes low ↦ rw (lt→ltb j 15 low) refl
      | no high ↦ rw (le→ltb j 15 (omega arith)) (
          new_entry (j - 15)
          ∙ get_or-set_ne idbuf idoff (j - 15) a.block 0 (λ e. other (omega arith))
          ∙ sym (entry_is idblock sfs.sfs_device.sectors (j - 15) ne))
    ]

    slot_allocates :
        get_or idbuf idoff 0 ≡ 0
        → Maps sv sfs (15 + idoff) (bmap_slot idoff true idblock idbuf sv sfs)
    slot_allocates z = record {
      result = 0;
      block = a.block;
      file = sv;
      after = sfs2;
      ran = slot_ran z;
      valid_fs = written-IsFs sfs1 idblock (words_bytes new_buf) new_length a.valid;
      valid_file = new_IsFile;
      others = other_entry;
      outcome = inl (
        refl,
        fresh_nonzero sfs v a,
        map_indirect sv.sv_i sfs2.sfs_device.sectors idoff
            ∙ new_entry idoff
            ∙ get_or-set_self idbuf idoff a.block 0 (omega (arith, h, length-idbuf)),
        inr (map_indirect sv.sv_i sfs.sfs_device.sectors idoff ∙ here ∙ z, a.fresh),
      );
    }

  slot_full :
      get_or idbuf idoff 0 ≡ 0
      → IsFull sfs
      → Maps sv sfs (15 + idoff) (bmap_slot idoff true idblock idbuf sv sfs)
  unfolding bmap_slot
  slot_full z n = record {
    result = enospc;
    block = 0;
    file = sv;
    after = sfs;
    ran = rw (bmap_slot, z, n.result) refl;
    valid_fs = v;
    valid_file = f;
    others = λ j other. refl;
    outcome = inr (refl, refl);
  }

  pub slot-Maps : Maps sv sfs (15 + idoff) (bmap_slot idoff true idblock idbuf sv sfs)
  slot-Maps = elim (ℕ_discrete (get_or idbuf idoff 0) 0) [
    | no nz ↦
        let mapped = map_indirect sv.sv_i sfs.sfs_device.sectors idoff ∙ here in
        record {
          result = 0;
          block = get_or idbuf idoff 0;
          file = sv;
          after = sfs;
          ran = slot_mapped true nz;
          valid_fs = v;
          valid_file = f;
          others = λ j other. refl;
          outcome = inl (refl, nz, mapped, inl mapped);
        }
    | yes z ↦ elim (sfs_balloc_lem sfs v) [ inl a ↦ slot_allocates a z | inr n ↦ slot_full z n ]
  ]
