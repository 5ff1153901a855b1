-- ===== src/Sfs/Files.antt =====
-- os161/kern/fs/sfs/sfs_vnode.c: the calls on the names of a directory, from sfs_lookonce to sfs_lookup.
-- `dir` and `file` are addresses of vnodes.
use harvard_os.Prelude.{
  ℕ, ◌+◌, ◌-◌, ◌%◌, ◌^◌, Bool, true, false, not, ◌&&◌, ◌||◌, Option, some, List, ltb, ◌==◌,
  if◌then◌else◌, ◌>>=◌, ◌>>◌, assert,
}
use harvard_os.Errno.{enoent, eexist, enotdir, enametoolong}
use harvard_os.Libc.{strlen}
use harvard_os.Sfs.{SfsFs}
use harvard_os.Sfs.Inode.{SfsVnode}
use harvard_os.Sfs.Dir.{sfs_dir_findname, sfs_dir_link, sfs_dir_unlink}
use harvard_os.Sfs.Pool.{
  Pool, LoadMem, change, loaded_at, sfs_loadvnode, sfs_makeobj, vop_decref, sfs_type_inval,
  sfs_type_file, sfs_type_dir, sfs_root_location,
}

-- A call on the vnode at an address.
pub at_vnode :
    {A : Type 0}
    → ℕ
    → (SfsVnode → SfsFs → Option (ℕ × A × SfsVnode × SfsFs))
    → Pool
    → Option (ℕ × A × Pool)
at_vnode ptr call pool = loaded_at ptr pool.vnodes >>= λ l.
    (call l.sv pool.sfs >>= λ (result, a, sv, sfs).
    some (
      result,
      a,
      record { sfs = sfs; vnodes = change ptr (λ k. record k { sv = sv }) pool.vnodes },
    ))

abbrev unlink_at : ℕ → ℕ → Pool → Option (ℕ × Pool)
unlink_at dir slot pool =
    at_vnode dir
      (λ sv sfs.
        sfs_dir_unlink slot sv sfs >>= λ (result, sv1, sfs1). some (result, slot, sv1, sfs1))
      pool
    >>= λ (result, slot1, pool1). some (result, pool1)

-- `sfi_linkcount++` and `--`, of 16 bits, and the mark that the inode has changed.
pub set_links : (ℕ → ℕ) → Bool → ℕ → Pool → Pool
set_links f mark ptr pool = record pool {
  vnodes =
      change ptr
        (λ l. record l {
          sv = record l.sv {
            sv_i = record l.sv.sv_i { sfi_linkcount = f l.sv.sv_i.sfi_linkcount };
            sv_dirty = mark || l.sv.sv_dirty;
          };
        })
        pool.vnodes;
}

abbrev one_more : ℕ → ℕ
one_more n = (n + 1) % 2 ^ 16

abbrev one_less : ℕ → ℕ
one_less n = (n + 2 ^ 16 - 1) % 2 ^ 16

abbrev links_of : ℕ → Pool → Option ℕ
links_of ptr pool = loaded_at ptr pool.vnodes >>= λ l. some l.sv.sv_i.sfi_linkcount

-- The result, the vnode and the slot, and the table.
pub sfs_lookonce : ℕ → List ℕ → LoadMem → Pool → Option (ℕ × (ℕ × ℕ) × Pool)
sfs_lookonce dir name mem pool =
    at_vnode dir (sfs_dir_findname name) pool >>= λ (result, search, pool1). (elim (result == 0) [
      | false ↦ some (result, (0, 0), pool1)
      | true ↦ search.found >>= λ (slot, ino).
          (sfs_loadvnode ino sfs_type_inval mem pool1 >>= λ (result1, ptr, pool2).
          (elim (result1 == 0) [
            | false ↦ some (result1, (0, slot), pool2)
            | true ↦ links_of ptr pool2 >>= λ links.
                (assert (not (links == 0)) >> some (0, (ptr, slot), pool2))
          ]))
    ])

-- The directory, and the name.
pub sfs_lookparent : ℕ → List ℕ → ℕ → Pool → Option (ℕ × List ℕ × Pool)
sfs_lookparent dir path buflen pool = loaded_at dir pool.vnodes >>= λ l.
    (if not (l.sv.sv_i.sfi_type == sfs_type_dir)
      then some (enotdir, path, pool)
      else if ltb buflen (strlen path + 1)
      then some (enametoolong, path, pool)
      else some (
        0,
        path,
        record pool {
          vnodes = change dir (λ k. record k { refcount = k.refcount + 1 }) pool.vnodes;
        },
      ))

pub sfs_lookup : ℕ → List ℕ → LoadMem → Pool → Option (ℕ × ℕ × Pool)
sfs_lookup dir path mem pool = loaded_at dir pool.vnodes >>= λ l.
    (if not (l.sv.sv_i.sfi_type == sfs_type_dir)
      then some (enotdir, 0, pool)
      else (sfs_lookonce dir path mem pool >>= λ (result, (ptr, slot), pool1).
          some (result, ptr, pool1)))

-- The file is made and entered in the directory.
pub make_file : ℕ → List ℕ → LoadMem → Pool → Option (ℕ × ℕ × Pool)
make_file dir name mem pool = sfs_makeobj sfs_type_file mem pool >>= λ (result, newguy, pool1).
    (elim (result == 0) [
      | false ↦ some (result, 0, pool1)
      | true ↦ loaded_at newguy pool1.vnodes >>= λ l.
          (at_vnode dir (sfs_dir_link name l.sv.sv_ino) pool1 >>= λ (result1, slot, pool2).
          (elim (result1 == 0) [
            | false ↦ vop_decref newguy pool2 >>= λ pool3. some (result1, 0, pool3)
            | true ↦ some (0, newguy, set_links one_more true newguy pool2)
          ]))
    ])

pub sfs_creat : ℕ → List ℕ → Bool → LoadMem → Pool → Option (ℕ × ℕ × Pool)
sfs_creat dir name excl mem pool =
    at_vnode dir (sfs_dir_findname name) pool >>= λ (result, search, pool1).
    (if not (result == 0) && not (result == enoent)
      then some (result, 0, pool1)
      else if (result == 0) && excl
      then some (eexist, 0, pool1)
      else if result == 0
      then (search.found >>= λ (slot, ino). sfs_loadvnode ino sfs_type_inval mem pool1)
      else make_file dir name mem pool1)

-- Both vnodes are of this file system.
pub sfs_link : ℕ → List ℕ → ℕ → Pool → Option (ℕ × Pool)
sfs_link dir name file pool = loaded_at file pool.vnodes >>= λ f.
    (at_vnode dir (sfs_dir_link name f.sv.sv_ino) pool >>= λ (result, slot, pool1).
    (if not (result == 0)
      then some (result, pool1)
      else some (0, set_links one_more true file pool1)))

-- The link count of the file after its entry is gone, which must not have been 0.
abbrev one_link_less : ℕ → Pool → Option Pool
one_link_less ptr pool =
    links_of ptr pool >>= λ n. (assert (ltb 0 n) >> some (set_links one_less true ptr pool))

pub sfs_remove : ℕ → List ℕ → LoadMem → Pool → Option (ℕ × Pool)
sfs_remove dir name mem pool = sfs_lookonce dir name mem pool >>= λ (result, (victim, slot), pool1).
    (elim (result == 0) [
      | false ↦ some (result, pool1)
      | true ↦ unlink_at dir slot pool1 >>= λ (result1, pool2).
          ((elim (result1 == 0) [ false ↦ some pool2 | true ↦ one_link_less victim pool2 ])
            >>= λ pool3. (vop_decref victim pool3 >>= λ pool4. some (result1, pool4)))
    ])

-- From the new entry on: the old one goes, or the new one again.
pub move_entry : ℕ → ℕ → ℕ → ℕ → Pool → Option (ℕ × Pool)
move_entry dir g1 slot1 slot2 pool = unlink_at dir slot1 pool >>= λ (result, pool1).
    (elim (result == 0) [
      | true ↦
          one_link_less g1 pool1 >>= λ pool2. (vop_decref g1 pool2 >>= λ pool3. some (0, pool3))
      | false ↦ unlink_at dir slot2 pool1 >>= λ (result2, pool2).
          (assert (result2 == 0)
            >> (vop_decref g1 (set_links one_less false g1 pool2) >>= λ pool3.
                some (result, pool3)))
    ])

-- Both directories are the root directory.
pub sfs_rename : ℕ → List ℕ → List ℕ → LoadMem → Pool → Option (ℕ × Pool)
sfs_rename dir n1 n2 mem pool = loaded_at dir pool.vnodes >>= λ d.
    (assert (d.sv.sv_ino == sfs_root_location)
      >> (sfs_lookonce dir n1 mem pool >>= λ (result, (g1, slot1), pool1). (elim (result == 0) [
        | false ↦ some (result, pool1)
        | true ↦ loaded_at g1 pool1.vnodes >>= λ g.
            (assert (g.sv.sv_i.sfi_type == sfs_type_file)
              >> (at_vnode dir (sfs_dir_link n2 g.sv.sv_ino) pool1 >>= λ (result1, slot2, pool2).
                  (elim (result1 == 0) [
                    | false ↦ vop_decref g1 pool2 >>= λ pool3. some (result1, pool3)
                    | true ↦ move_entry dir g1 slot1 slot2 (set_links one_more true g1 pool2)
                  ])))
      ])))
