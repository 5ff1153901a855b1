-- ===== src/Sfs/Bmap/Direct.antt =====
-- The direct blocks of a file.
use harvard_os.Prelude.{
  ℕ, ◌-◌, ◌<◌, ◌≡◌, refl, sym, ◌∙◌, ◌≢◌, inl, inr, true, false, some, arith, lt→ltb, ◌==◌, length,
  get_or, set, length-set, get_or-set_self, get_or-set_ne, replicate, Bool-cases, ne→==,
}
use native.Mathlib.Decide.{ℕ_discrete}
use harvard_os.Errno.{enospc}
use harvard_os.Lhd.Sectors.{written_disk}
use harvard_os.Sfs.{SfsFs}
use harvard_os.Sfs.Inode.{SfsVnode}
use harvard_os.Sfs.Alloc.{IsFs, Used, Allocates, IsFull, sfs_balloc_lem}
use harvard_os.Sfs.Bmap.{hand_back, set_direct, bmap_direct}
use harvard_os.Sfs.Bmap.Mapping.{
  entry, file_map, IsFile, hand_back_lem, Maps, entry_other, still-Used, now-Used, Used-ne-fresh,
}

-- The file system after an allocation.
abbrev pub after_alloc : (sfs : SfsFs) → Allocates sfs → SfsFs
after_alloc sfs a = record sfs {
  sfs_freemap = a.freemap;
  sfs_freemapdirty = true;
  sfs_device = written_disk a.block (replicate 512 0) sfs.sfs_device;
}

pub fresh_nonzero : (sfs : SfsFs) → IsFs sfs → (a : Allocates sfs) → a.block ≢ 0
fresh_nonzero sfs v a e = Used-ne-fresh sfs 0 a.block (v.nonempty, v.reserved) a.fresh (sym e)

-- An allocation leaves the file as it is.
pub alloc-IsFile :
    (sv : SfsVnode) (sfs : SfsFs) (a : Allocates sfs)
    → IsFile sv sfs
    → IsFile sv (after_alloc sfs a)
alloc-IsFile sv sfs a f =
    let used = λ (b : ℕ). still-Used sfs (after_alloc sfs a) a.block b refl a.marks in
    record {
      directs = f.directs;
      direct_used = λ i. used (get_or sv.sv_i.sfi_direct i 0) (f.direct_used i);
      indirect_used = used sv.sv_i.sfi_indirect f.indirect_used;
      entries_used = λ k.
          rw
            (entry_other sv.sv_i.sfi_indirect a.block sfs.sfs_device.sectors (replicate 512 0) k
              (Used-ne-fresh sfs sv.sv_i.sfi_indirect a.block f.indirect_used a.fresh))
            (used (entry sv.sv_i.sfi_indirect sfs.sfs_device.sectors k) (f.entries_used k));
    }

pub alloc-file_map :
    (sv : SfsVnode) (sfs : SfsFs) (a : Allocates sfs)
    → IsFile sv sfs
    → (j : ℕ)
    → file_map sv.sv_i (after_alloc sfs a).sfs_device.sectors j
      ≡ file_map sv.sv_i sfs.sfs_device.sectors j
unfolding file_map
alloc-file_map sv sfs a f j =
    rw
      (entry_other sv.sv_i.sfi_indirect a.block sfs.sfs_device.sectors (replicate 512 0) (j - 15)
        (Used-ne-fresh sfs sv.sv_i.sfi_indirect a.block f.indirect_used a.fresh))
      refl

module _ (fileblock block : ℕ) (sv : SfsVnode) (sfs : SfsFs) where
  set-Used :
      length sv.sv_i.sfi_direct ≡ 15
      → fileblock < 15
      → (i : ℕ) → Used sfs (get_or sv.sv_i.sfi_direct i 0)
      → Used sfs block
      → Used sfs (get_or (set sv.sv_i.sfi_direct fileblock block) i 0)
  set-Used n h i u b = elim (ℕ_discrete fileblock i) [
    | yes e ↦
        let here : get_or (set sv.sv_i.sfi_direct fileblock block) i 0 ≡ block =
          rw (← e) (get_or-set_self sv.sv_i.sfi_direct fileblock block 0 (omega (arith, n, h))) in
        rw here b
    | no ne ↦ rw (get_or-set_ne sv.sv_i.sfi_direct fileblock i block 0 ne) u
  ]

  -- A direct block set to one in use.
  set_direct-IsFile :
      fileblock < 15 → IsFile sv sfs → Used sfs block → IsFile (set_direct fileblock block sv) sfs
  set_direct-IsFile h f u = record {
    directs = length-set sv.sv_i.sfi_direct fileblock block ∙ f.directs;
    direct_used = λ i. set-Used f.directs h i (f.direct_used i) u;
    indirect_used = f.indirect_used;
    entries_used = f.entries_used;
  }

  set_direct_self :
      fileblock < 15
      → length sv.sv_i.sfi_direct ≡ 15
      → file_map (set_direct fileblock block sv).sv_i sfs.sfs_device.sectors fileblock ≡ block
  unfolding file_map
  set_direct_self h n =
      rw
        (
          lt→ltb fileblock 15 h,
          get_or-set_self sv.sv_i.sfi_direct fileblock block 0 (omega (arith, n, h)),
        )
        refl

  set_direct-other :
      (j : ℕ)
      → j ≢ fileblock
      → file_map (set_direct fileblock block sv).sv_i sfs.sfs_device.sectors j
        ≡ file_map sv.sv_i sfs.sfs_device.sectors j
  unfolding file_map
  set_direct-other j ne =
      rw (get_or-set_ne sv.sv_i.sfi_direct fileblock j block 0 (λ e. ne (sym e))) refl

module _ (fileblock : ℕ) (sv : SfsVnode) (sfs : SfsFs) (v : IsFs sfs) (f : IsFile sv sfs)
    (h : fileblock < 15) where
  here_map :
      file_map sv.sv_i sfs.sfs_device.sectors fileblock ≡ get_or sv.sv_i.sfi_direct fileblock 0
  unfolding file_map
  here_map = rw (lt→ltb fileblock 15 h) refl

  allocates :
      get_or sv.sv_i.sfi_direct fileblock 0 ≡ 0
      → (a : Allocates sfs) → Maps sv sfs fileblock (bmap_direct fileblock true sv sfs)
  unfolding bmap_direct
  allocates hole a =
      let sfs1 = after_alloc sfs a in
      let sv1 = set_direct fileblock a.block sv in
      let used1 = now-Used sfs sfs1 a.block refl a.marks a.inside in
      let file1 = alloc-IsFile sv sfs a f in
      record {
        result = 0;
        block = a.block;
        file = sv1;
        after = sfs1;
        ran = rw (bmap_direct, hole, a.result) (hand_back_lem a.block sv1 sfs1 a.valid used1);
        valid_fs = a.valid;
        valid_file = set_direct-IsFile fileblock a.block sv sfs1 h file1 used1;
        others =
            λ j ne. set_direct-other fileblock a.block sv sfs1 j ne ∙ alloc-file_map sv sfs a f j;
        outcome = inl (
          refl,
          fresh_nonzero sfs v a,
          set_direct_self fileblock a.block sv sfs1 h f.directs,
          inr (here_map ∙ hole, a.fresh),
        );
      }

  full :
      get_or sv.sv_i.sfi_direct fileblock 0 ≡ 0
      → IsFull sfs
      → Maps sv sfs fileblock (bmap_direct fileblock true sv sfs)
  unfolding bmap_direct
  full hole n = record {
    result = enospc;
    block = 0;
    file = sv;
    after = sfs;
    ran = rw (bmap_direct, hole, n.result) refl;
    valid_fs = v;
    valid_file = f;
    others = λ j ne. refl;
    outcome = inr (refl, refl);
  }

  mapped :
      get_or sv.sv_i.sfi_direct fileblock 0 ≢ 0
      → Maps sv sfs fileblock (bmap_direct fileblock true sv sfs)
  unfolding bmap_direct
  mapped ne = record {
    result = 0;
    block = get_or sv.sv_i.sfi_direct fileblock 0;
    file = sv;
    after = sfs;
    ran =
        rw (bmap_direct, ne→== (get_or sv.sv_i.sfi_direct fileblock 0) 0 ne)
          (hand_back_lem (get_or sv.sv_i.sfi_direct fileblock 0) sv sfs v
            (f.direct_used fileblock));
    valid_fs = v;
    valid_file = f;
    others = λ j ne. refl;
    outcome = inl (refl, ne, here_map, inl here_map);
  }

  -- With DOALLOC.
  pub bmap_direct-Maps : Maps sv sfs fileblock (bmap_direct fileblock true sv sfs)
  bmap_direct-Maps = elim (ℕ_discrete (get_or sv.sv_i.sfi_direct fileblock 0) 0) [
    | no ne ↦ mapped ne
    | yes hole ↦ elim (sfs_balloc_lem sfs v) [ inl a ↦ allocates hole a | inr n ↦ full hole n ]
  ]

  -- Without.
  pub bmap_direct-lookup :
      bmap_direct fileblock false sv sfs
      ≡ some (0, file_map sv.sv_i sfs.sfs_device.sectors fileblock, sv, sfs)
  unfolding bmap_direct
  bmap_direct-lookup = elim (Bool-cases (get_or sv.sv_i.sfi_direct fileblock 0 == 0)) [
    | inl t ↦ rw (here_map, bmap_direct, t) handed
    | inr g ↦ rw (here_map, bmap_direct, g) handed
  ]
    where
      handed :
          hand_back (get_or sv.sv_i.sfi_direct fileblock 0) sv sfs
          ≡ some (0, get_or sv.sv_i.sfi_direct fileblock 0, sv, sfs)
      handed =
          hand_back_lem (get_or sv.sv_i.sfi_direct fileblock 0) sv sfs v (f.direct_used fileblock)
