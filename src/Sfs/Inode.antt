-- ===== src/Sfs/Inode.antt =====
-- os161/kern/fs/sfs/sfs_vnode.c: the inode, as it lies on the disk and as a vnode holds it.
use harvard_os.Prelude.{
  ℕ, zero, suc, ◌+◌, ◌*◌, ◌/◌, ◌%◌, ◌^◌, ◌<◌, ◌≡◌, refl, ap, Bool, true, false, Option, some, List,
  [], ◌∷◌, ◌++◌, arith, ◌==◌, length, take, drop, get_or, ◌>>=◌,
}
use harvard_os.Sfs.{SfsFs, sfs_wblock}
use harvard_os.Sfs.Words.{words_bytes}

-- `struct sfs_inode`
pub record Inode : Type 0 where
  pub sfi_size : ℕ
  pub sfi_type : ℕ
  pub sfi_linkcount : ℕ
  pub sfi_direct : List ℕ
  pub sfi_indirect : ℕ
  pub sfi_waste : List ℕ

-- Its words on the disk: type and link count are the halves of the second one.
pub inode_words : Inode → List ℕ
inode_words i =
    i.sfi_size
    ∷ (i.sfi_type * 2 ^ 16 + i.sfi_linkcount)
    ∷ (i.sfi_direct ++ (i.sfi_indirect ∷ i.sfi_waste))

pub words_inode : List ℕ → Inode
words_inode ws =
    let blocks = drop 2 ws in
    let kinds = get_or ws 1 0 in
    record {
      sfi_size = get_or ws 0 0;
      sfi_type = kinds / 2 ^ 16;
      sfi_linkcount = kinds % 2 ^ 16;
      sfi_direct = take 15 blocks;
      sfi_indirect = get_or blocks 15 0;
      sfi_waste = drop 16 blocks;
    }

-- `struct sfs_vnode`, less the abstract vnode.
pub record SfsVnode : Type 0 where
  pub sv_i : Inode
  pub sv_ino : ℕ
  pub sv_dirty : Bool

pub sfs_sync_inode : SfsVnode → SfsFs → Option (ℕ × SfsVnode × SfsFs)
sfs_sync_inode sv sfs = elim sv.sv_dirty [
  | false ↦ some (0, sv, sfs)
  | true ↦
      (sfs_wblock (words_bytes (inode_words sv.sv_i)) sv.sv_ino sfs >>= λ (result, sfs1).
      (elim (result == 0) [
        | false ↦ some (result, sv, sfs1)
        | true ↦ some (0, record sv { sv_dirty = false }, sfs1)
      ]))
]

-- An inode as the declaration of the structure has it.
pub record IsValid (i : Inode) : Type 0 where
  pub links : i.sfi_linkcount < 2 ^ 16
  pub directs : length i.sfi_direct ≡ 15

pub take-length {ℓ} : {A : Type ℓ} (n : ℕ) (xs ys : List A) → length xs ≡ n → take n (xs ++ ys) ≡ xs
take-length zero [] ys e = refl
take-length zero (x ∷ xs) ys e = absurd (omega arith)
take-length (suc n) [] ys e = absurd (omega arith)
take-length (suc n) (x ∷ xs) ys e = ap (◌∷◌ x) (take-length n xs ys (omega arith))

drop-length {ℓ} :
    {A : Type ℓ} (n : ℕ) (xs : List A) (y : A) (ys : List A)
    → length xs ≡ n
    → drop (suc n) (xs ++ (y ∷ ys)) ≡ ys
drop-length zero [] y ys e = refl
drop-length zero (x ∷ xs) y ys e = absurd (omega arith)
drop-length (suc n) [] y ys e = absurd (omega arith)
drop-length (suc n) (x ∷ xs) y ys e = drop-length n xs y ys (omega arith)

get_or-length {ℓ} :
    {A : Type ℓ} (n : ℕ) (xs : List A) (y d : A) (ys : List A)
    → length xs ≡ n
    → get_or (xs ++ (y ∷ ys)) n d ≡ y
get_or-length zero [] y d ys e = refl
get_or-length zero (x ∷ xs) y d ys e = absurd (omega arith)
get_or-length (suc n) [] y d ys e = absurd (omega arith)
get_or-length (suc n) (x ∷ xs) y d ys e = get_or-length n xs y d ys (omega arith)

-- A valid inode comes back from its words.
pub words_inode-inode_words : (i : Inode) → IsValid i → words_inode (inode_words i) ≡ i
unfolding words_inode inode_words
words_inode-inode_words i v =
    let type_lem : (i.sfi_type * 2 ^ 16 + i.sfi_linkcount) / 2 ^ 16 ≡ i.sfi_type =
      omega (arith, v.links) in
    let links_lem : (i.sfi_type * 2 ^ 16 + i.sfi_linkcount) % 2 ^ 16 ≡ i.sfi_linkcount =
      omega (arith, v.links) in
    let rest = i.sfi_indirect ∷ i.sfi_waste in
    rw
      (
        type_lem,
        links_lem,
        take-length 15 i.sfi_direct rest v.directs,
        get_or-length 15 i.sfi_direct i.sfi_indirect 0 i.sfi_waste v.directs,
        drop-length 15 i.sfi_direct i.sfi_indirect i.sfi_waste v.directs,
      )
      refl
