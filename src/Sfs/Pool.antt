-- ===== src/Sfs/Pool.antt =====
-- os161/kern/fs/sfs/sfs_vnode.c: the table of the vnodes in memory, loading and reclaiming. A vnode is
-- named by its address. Their calls through the tables of functions are those of sfs_fileops and
-- sfs_dirops, by the type of the inode.
pub mod Loads
use harvard_os.Prelude.{
  ℕ, ◌+◌, ◌-◌, Bool, true, false, not, ◌&&◌, ◌||◌, Option, none, some, List, [], ◌∷◌, ◌++◌, ltb,
  ◌==◌, if◌then◌else◌, ◌>>=◌, ◌>>◌, assert,
}
use mathlib.Core.Option
use harvard_os.Errno.{enomem, ebusy, eisdir}
use harvard_os.Sfs.{SfsFs, sfs_rblock, sfs_balloc, sfs_bfree, sfs_bused}
use harvard_os.Sfs.Words.{bytes_words}
use harvard_os.Sfs.Inode.{Inode, SfsVnode, words_inode, sfs_sync_inode}
use harvard_os.Sfs.Truncate.{sfs_truncate}

abbrev pub sfs_type_inval : ℕ
sfs_type_inval = 0

abbrev pub sfs_type_file : ℕ
sfs_type_file = 1

abbrev pub sfs_type_dir : ℕ
sfs_type_dir = 2

abbrev pub sfs_root_location : ℕ
sfs_root_location = 1

-- A vnode with its address and the count of its references.
pub record Loaded : Type 0 where
  pub ptr : ℕ
  pub refcount : ℕ
  pub sv : SfsVnode

-- The file system and its table `sfs_vnodes`.
pub record Pool : Type 0 where
  pub sfs : SfsFs
  pub vnodes : List Loaded

-- What sfs_loadvnode gets when it asks for memory: the address of a vnode, a lock and a slot.
pub record LoadMem : Type 0 where
  pub vnode_ptr : Option ℕ
  pub lock_ok : Bool
  pub array_ok : Bool

-- The change of a vnode at an address.
pub change : ℕ → (Loaded → Loaded) → List Loaded → List Loaded
change ptr f [] = []
change ptr f (l ∷ ls) = if l.ptr == ptr then f l ∷ ls else l ∷ change ptr f ls

pub loaded_at : ℕ → List Loaded → Option Loaded
loaded_at ptr [] = none
loaded_at ptr (l ∷ ls) = if l.ptr == ptr then some l else loaded_at ptr ls

-- The loop over the table: the vnode of the inode, with one more reference.
pub find_loaded : ℕ → ℕ → List Loaded → SfsFs → Option (Option (ℕ × List Loaded))
find_loaded ino forcetype [] sfs = some none
find_loaded ino forcetype (l ∷ ls) sfs = sfs_bused l.sv.sv_ino sfs >>= λ used.
    (assert used >> (elim (l.sv.sv_ino == ino) [
      | true ↦
          assert (forcetype == sfs_type_inval)
          >> some (some (l.ptr, record l { refcount = l.refcount + 1 } ∷ ls))
      | false ↦ find_loaded ino forcetype ls sfs >>= λ found.
          some (Option.map (λ (ptr, rest). (ptr, l ∷ rest)) found)
    ]))

-- The inode that was read, with its type set for a new object.
pub force_type : ℕ → ℕ → Inode → Option SfsVnode
force_type ino forcetype i =
    if forcetype == sfs_type_inval
    then some (record { sv_i = i; sv_ino = ino; sv_dirty = false })
    else (assert (i.sfi_type == sfs_type_inval)
        >> some
            (record { sv_i = record i { sfi_type = forcetype }; sv_ino = ino; sv_dirty = true }))

-- From the choice of the function table on.
pub enter_vnode : ℕ → LoadMem → SfsVnode → Pool → Option (ℕ × ℕ × Pool)
enter_vnode ptr mem sv pool =
    assert (sv.sv_i.sfi_type == sfs_type_file || sv.sv_i.sfi_type == sfs_type_dir)
    >> (if mem.lock_ok && mem.array_ok
        then some (
          0,
          ptr,
          record pool {
            vnodes = pool.vnodes ++ (record { ptr = ptr; refcount = 1; sv = sv } ∷ []);
          },
        )
        else some (enomem, 0, pool))

-- With the block of the inode, if it was read.
pub read_inode : ℕ → ℕ → LoadMem → ℕ → ℕ × List ℕ × SfsFs → Pool → Option (ℕ × ℕ × Pool)
read_inode ino forcetype mem ptr (result, bytes, sfs1) pool = elim (result == 0) [
  | false ↦ some (result, 0, record pool { sfs = sfs1 })
  | true ↦ force_type ino forcetype (words_inode (bytes_words bytes)) >>= λ sv.
      enter_vnode ptr mem sv (record pool { sfs = sfs1 })
]

-- An inode that is not in the table.
pub load_inode : ℕ → ℕ → LoadMem → Option ℕ → Pool → Option (ℕ × ℕ × Pool)
load_inode ino forcetype mem none pool = some (enomem, 0, pool)
load_inode ino forcetype mem (some ptr) pool = sfs_bused ino pool.sfs >>= λ used.
    (assert used
      >> (sfs_rblock ino pool.sfs >>= λ block. read_inode ino forcetype mem ptr block pool))

-- The result, the address of the vnode, and the table.
pub sfs_loadvnode : ℕ → ℕ → LoadMem → Pool → Option (ℕ × ℕ × Pool)
sfs_loadvnode ino forcetype mem pool = find_loaded ino forcetype pool.vnodes pool.sfs >>= λ found.
    (elim found [
      | some (ptr, vnodes) ↦ some (0, ptr, record pool { vnodes = vnodes })
      | none ↦ load_inode ino forcetype mem mem.vnode_ptr pool
    ])

pub sfs_getroot : LoadMem → Pool → Option (ℕ × Pool)
sfs_getroot mem pool =
    sfs_loadvnode sfs_root_location sfs_type_inval mem pool >>= λ (result, ptr, pool1).
    (assert (result == 0) >> some (ptr, pool1))

pub sfs_makeobj : ℕ → LoadMem → Pool → Option (ℕ × ℕ × Pool)
sfs_makeobj type mem pool = sfs_balloc pool.sfs >>= λ (result, ino, sfs1). (elim (result == 0) [
  | false ↦ some (result, 0, record pool { sfs = sfs1 })
  | true ↦ sfs_loadvnode ino type mem (record pool { sfs = sfs1 })
])

-- A vnode and the file system after a call on them.
abbrev stored : ℕ → Pool → ℕ × SfsVnode × SfsFs → ℕ × Pool
stored ptr pool after = (
  after.0,
  record { sfs = after.2; vnodes = change ptr (λ l. record l { sv = after.1 }) pool.vnodes },
)

-- VOP_TRUNCATE to 0, which a directory refuses.
pub erase : Loaded → Pool → Option (ℕ × Pool)
erase l pool =
    if l.sv.sv_i.sfi_type == sfs_type_dir
    then some (eisdir, pool)
    else (sfs_truncate 0 l.sv pool.sfs >>= λ after. some (stored l.ptr pool after))

-- The table without the vnode.
pub remove_loaded : ℕ → List Loaded → List Loaded
remove_loaded ptr [] = []
remove_loaded ptr (l ∷ ls) = if l.ptr == ptr then ls else l ∷ remove_loaded ptr ls

-- The inode is written, and its block freed if no name is left.
pub write_back : ℕ → Pool → Option (ℕ × Pool)
write_back ptr pool = loaded_at ptr pool.vnodes >>= λ l.
    (sfs_sync_inode l.sv pool.sfs >>= λ after. (elim (after.0 == 0) [
      | false ↦ some (stored ptr pool after)
      | true ↦
          (if l.sv.sv_i.sfi_linkcount == 0 then sfs_bfree l.sv.sv_ino after.2 else some after.2)
          >>= λ sfs2. some (0, record { sfs = sfs2; vnodes = remove_loaded ptr pool.vnodes })
    ]))

pub sfs_reclaim : ℕ → Pool → Option (ℕ × Pool)
sfs_reclaim ptr pool = loaded_at ptr pool.vnodes >>= λ l.
    (if not (l.refcount == 1)
      then (assert (ltb 1 l.refcount)
          >> some (
            ebusy,
            record pool {
              vnodes = change ptr (λ k. record k { refcount = k.refcount - 1 }) pool.vnodes;
            },
          ))
      else if l.sv.sv_i.sfi_linkcount == 0
      then (erase l pool >>= λ (result, pool1). (elim (result == 0) [
        | false ↦ some (result, pool1)
        | true ↦ write_back ptr pool1
      ]))
      else write_back ptr pool)

-- VOP_DECREF, whose warning about the result of sfs_reclaim is left out.
pub vop_decref : ℕ → Pool → Option Pool
vop_decref ptr pool = loaded_at ptr pool.vnodes >>= λ l.
    (assert (ltb 0 l.refcount)
      >> (if ltb 1 l.refcount
          then some (record pool {
            vnodes = change ptr (λ k. record k { refcount = k.refcount - 1 }) pool.vnodes;
          })
          else (sfs_reclaim ptr pool >>= λ (result, pool1). some pool1)))
