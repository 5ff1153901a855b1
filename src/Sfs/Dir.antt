-- ===== src/Sfs/Dir.antt =====
-- os161/kern/fs/sfs/sfs_vnode.c: directories, files of 64-byte entries. A name is the list of its
-- characters. What a function stores through a null pointer its caller ignores.
pub mod Entries
use harvard_os.Prelude.{
  ℕ, zero, suc, ◌+◌, ◌-◌, ◌*◌, ◌/◌, ◌%◌, Bool, true, false, not, Option, none, some, List, [], ◌∷◌,
  ◌++◌, ltb, ◌==◌, if◌then◌else◌, take, drop, get_or, replicate, ◌>>=◌, ◌>>◌, assert,
}
use harvard_os.Errno.{enoent, eexist, enametoolong}
use harvard_os.Libc.{Sign, below, same, above, strlen, strcmp}
use harvard_os.Uio.{uio_read, uio_write, mk_kuio}
use harvard_os.Sfs.{SfsFs}
use harvard_os.Sfs.Words.{words_bytes, bytes_words}
use harvard_os.Sfs.Inode.{SfsVnode}
use harvard_os.Sfs.File.{sfs_io}

abbrev pub sfs_namelen : ℕ
sfs_namelen = 60

-- `sizeof(struct sfs_dir)`
abbrev pub dir_size : ℕ
dir_size = 64

-- `SFS_TYPE_DIR` and `SFS_NOINO`
abbrev pub sfs_type_dir : ℕ
sfs_type_dir = 2

abbrev pub sfs_noino : ℕ
sfs_noino = 0

-- `struct sfs_dir`
pub record SfsDir : Type 0 where
  pub sfd_ino : ℕ
  pub sfd_name : List ℕ

pub dir_bytes : SfsDir → List ℕ
dir_bytes sd = words_bytes (sd.sfd_ino ∷ []) ++ sd.sfd_name

pub bytes_dir : List ℕ → SfsDir
bytes_dir bytes = record {
  sfd_ino = get_or (bytes_words (take 4 bytes)) 0 0;
  sfd_name = drop 4 bytes;
}

pub sfs_readdir : ℕ → SfsVnode → SfsFs → Option (ℕ × SfsDir × SfsVnode × SfsFs)
sfs_readdir slot sv sfs =
    sfs_io (mk_kuio [] dir_size (slot * dir_size) uio_read) sv sfs >>= λ (result, ku, sv1, sfs1).
    (elim (result == 0) [
      | false ↦ some (result, bytes_dir ku.moved, sv1, sfs1)
      | true ↦ assert (not (ltb 0 ku.uio_resid)) >> some (0, bytes_dir ku.moved, sv1, sfs1)
    ])

pub sfs_writedir : SfsDir → ℕ → SfsVnode → SfsFs → Option (ℕ × SfsVnode × SfsFs)
sfs_writedir sd slot sv sfs =
    sfs_io (mk_kuio (dir_bytes sd) dir_size (slot * dir_size) uio_write) sv sfs
    >>= λ (result, ku, sv1, sfs1). (elim (result == 0) [
      | false ↦ some (result, sv1, sfs1)
      | true ↦ assert (not (ltb 0 ku.uio_resid)) >> some (0, sv1, sfs1)
    ])

pub sfs_dir_nentries : SfsVnode → Option ℕ
sfs_dir_nentries sv =
    assert (sv.sv_i.sfi_type == sfs_type_dir)
    >> assert (sv.sv_i.sfi_size % dir_size == 0)
    >> some (sv.sv_i.sfi_size / dir_size)

-- The characters of a field up to its null; the last one counts as a null.
pub field_string : ℕ → List ℕ → List ℕ
field_string zero field = []
field_string (suc n) [] = []
field_string (suc n) (c ∷ field) = elim (c == 0) [ true ↦ [] | false ↦ c ∷ field_string n field ]

pub is_same : Sign → Bool
is_same below = false
is_same same = true
is_same above = false

-- What the search has found so far: the slot and the inode number, and the last free slot.
pub record Search : Type 0 where
  pub found : Option (ℕ × ℕ)
  pub emptyslot : Option ℕ

pub is_none : Option (ℕ × ℕ) → Bool
is_none none = true
is_none (some x) = false

-- One entry of the loop.
pub look_at : List ℕ → ℕ → SfsDir → Search → Option Search
look_at name i tsd search = elim (tsd.sfd_ino == sfs_noino) [
  | true ↦ some (record search { emptyslot = some i })
  | false ↦ elim (is_same (strcmp (field_string (sfs_namelen - 1) tsd.sfd_name) name)) [
    | false ↦ some search
    | true ↦ assert (is_none search.found) >> some (record search { found = some (i, tsd.sfd_ino) })
  ]
]

-- `for (i=0; i<nentries; i++)` for the rounds left.
pub search_from :
    ℕ → ℕ → List ℕ → Search → SfsVnode → SfsFs → Option (ℕ × Search × SfsVnode × SfsFs)
search_from zero i name search sv sfs =
    some ((if is_none search.found then enoent else 0), search, sv, sfs)
search_from (suc rounds) i name search sv sfs = sfs_readdir i sv sfs >>= λ (result, tsd, sv1, sfs1).
    (elim (result == 0) [
      | false ↦ some (result, search, sv1, sfs1)
      | true ↦
          (look_at name i tsd search >>= λ search1.
          search_from rounds (i + 1) name search1 sv1 sfs1)
    ])

pub sfs_dir_findname : List ℕ → SfsVnode → SfsFs → Option (ℕ × Search × SfsVnode × SfsFs)
sfs_dir_findname name sv sfs = sfs_dir_nentries sv >>= λ nentries.
    search_from nentries 0 name (record { found = none; emptyslot = none }) sv sfs

-- `bzero` of an entry, and `strcpy` of the name into it.
pub new_entry : List ℕ → ℕ → SfsDir
new_entry name ino = record {
  sfd_ino = ino;
  sfd_name = name ++ replicate (sfs_namelen - strlen name) 0;
}

pub free_slot : Option ℕ → SfsVnode → Option ℕ
free_slot none sv = sfs_dir_nentries sv
free_slot (some slot) sv = some slot

-- The result, the slot, and the directory.
pub sfs_dir_link : List ℕ → ℕ → SfsVnode → SfsFs → Option (ℕ × ℕ × SfsVnode × SfsFs)
sfs_dir_link name ino sv sfs = sfs_dir_findname name sv sfs >>= λ (result, search, sv1, sfs1).
    (elim (result == 0) [
      | true ↦ some (eexist, 0, sv1, sfs1)
      | false ↦ elim (result == enoent) [
        | false ↦ some (result, 0, sv1, sfs1)
        | true ↦ elim (ltb sfs_namelen (strlen name + 1)) [
          | true ↦ some (enametoolong, 0, sv1, sfs1)
          | false ↦
              (free_slot search.emptyslot sv1 >>= λ slot.
              sfs_writedir (new_entry name ino) slot sv1 sfs1 >>= λ (written, sv2, sfs2).
              some (written, slot, sv2, sfs2))
        ]
      ]
    ])

pub sfs_dir_unlink : ℕ → SfsVnode → SfsFs → Option (ℕ × SfsVnode × SfsFs)
sfs_dir_unlink slot sv sfs = sfs_writedir (new_entry [] sfs_noino) slot sv sfs
