-- ===== src/Sfs/Dir/Entries.antt =====
-- A directory entry as sfs_dir_link writes it and as sfs_dir_findname reads it.
use harvard_os.Prelude.{
  ℕ, zero, suc, ◌-◌, ◌^◌, ◌≤◌, ◌<◌, ◌≡◌, refl, ap, ◌∙◌, ◌≢◌, ◌⊎◌, inl, inr, true, false, none, some,
  List, [], ◌∷◌, ◌++◌, arith, ne→==, length, drop, replicate,
}
use harvard_os.Libc.{Sign, below, same, above, strlen, strcmp}
use harvard_os.Libc.Strings.{strcmp-same, strlen-length}
use harvard_os.Sfs.Words.{words_bytes, bytes_words-words_bytes, length-words_bytes}
use harvard_os.Sfs.Inode.{take-length}
use harvard_os.Sfs.Dir.{
  SfsDir, dir_bytes, bytes_dir, field_string, is_same, Search, is_none, look_at, new_entry,
}

-- The characters of a name are not the null.
abbrev pub IsName : List ℕ → Type 0
IsName [] = Unit
IsName (c ∷ name) = (c ≢ 0) × IsName name

drop-length {ℓ} : {A : Type ℓ} (n : ℕ) (xs ys : List A) → length xs ≡ n → drop n (xs ++ ys) ≡ ys
drop-length zero [] ys e = refl
drop-length zero (x ∷ xs) ys e = absurd (omega (arith, e))
drop-length (suc n) [] ys e = absurd (omega (arith, e))
drop-length (suc n) (x ∷ xs) ys e = drop-length n xs ys (omega (arith, e))

-- An entry comes back from its bytes.
pub bytes_dir-dir_bytes : (sd : SfsDir) → sd.sfd_ino < 2 ^ 32 → bytes_dir (dir_bytes sd) ≡ sd
unfolding bytes_dir dir_bytes
bytes_dir-dir_bytes sd h =
    let four : length (words_bytes (sd.sfd_ino ∷ [])) ≡ 4 = length-words_bytes (sd.sfd_ino ∷ []) in
    rw
      (
        take-length 4 (words_bytes (sd.sfd_ino ∷ [])) sd.sfd_name four,
        drop-length 4 (words_bytes (sd.sfd_ino ∷ [])) sd.sfd_name four,
        bytes_words-words_bytes (sd.sfd_ino ∷ []) (h, tt),
      )
      refl

field_string-name :
    (n : ℕ) (name zeros : List ℕ)
    → length name ≤ n
    → IsName name
    → field_string n (name ++ (0 ∷ zeros)) ≡ name
unfolding field_string
field_string-name zero [] zeros h v = refl
field_string-name zero (c ∷ name) zeros h v = absurd (omega (arith, h))
field_string-name (suc n) [] zeros h v = refl
field_string-name (suc n) (c ∷ name) zeros h (ne, v) =
    rw (field_string, ne→== c 0 ne)
      (ap (◌∷◌ c) (field_string-name n name zeros (omega (arith, h)) v))

-- The field of a new entry reads as the name.
new_entry-name :
    (name : List ℕ) (ino : ℕ)
    → length name < 60
    → IsName name
    → field_string 59 (new_entry name ino).sfd_name ≡ name
unfolding new_entry
new_entry-name name ino h v =
    let room : 60 - strlen name ≡ suc (59 - length name) = omega (arith, strlen-length name, h) in
    ap (λ k. field_string 59 (name ++ replicate k 0)) room
    ∙ field_string-name 59 name (replicate (59 - length name) 0) (omega (arith, h)) v

new_entry-ino : (name : List ℕ) (ino : ℕ) → (new_entry name ino).sfd_ino ≡ ino
unfolding new_entry
new_entry-ino name ino = refl

Sign-cases : (s : Sign) → ((s ≡ same) × (is_same s ≡ true)) ⊎ ((s ≢ same) × (is_same s ≡ false))
unfolding is_same
Sign-cases below = inr ((λ e. cc), refl)
Sign-cases same = inl (refl, refl)
Sign-cases above = inr ((λ e. cc), refl)

-- The entry that sfs_dir_link makes of a name of at most 59 characters and an inode number, when it
-- is written as bytes and read back, is taken by one step of the search of sfs_dir_findname, which
-- has found nothing so far, for what it looks for, with its slot and inode number, under its name,
-- and passed over under every other name.
pub look_at-new_entry :
    (name wanted : List ℕ) (ino i : ℕ) (sofar : Search)
    → length name < 60
    → IsName name
    → ino ≢ 0
    → ino < 2 ^ 32
    → sofar.found ≡ none
    → ((name ≡ wanted)
        × (look_at wanted i (bytes_dir (dir_bytes (new_entry name ino))) sofar
            ≡ some (record sofar { found = some (i, ino) })))
      ⊎ ((name ≢ wanted)
          × (look_at wanted i (bytes_dir (dir_bytes (new_entry name ino))) sofar ≡ some sofar))
unfolding look_at is_none
look_at-new_entry name wanted ino i sofar h v nz small first =
    let back =
      bytes_dir-dir_bytes (new_entry name ino) (omega (arith, new_entry-ino name ino, small)) in
    let reads = new_entry-name name ino h v in
    let alone : is_none sofar.found ≡ true = ap is_none first in
    elim (Sign-cases (strcmp name wanted)) [
      | inl (e, t) ↦ inl (
        (strcmp-same name wanted).0 e,
        ap (λ e. look_at wanted i e sofar) back
            ∙ rw
                (
                  look_at,
                  new_entry-ino name ino,
                  ne→== ino 0 nz,
                  reads,
                  t,
                  alone,
                  new_entry-ino name ino,
                )
                refl,
      )
      | inr (ne, f) ↦ inr (
        (λ e. ne ((strcmp-same name wanted).1 e)),
        ap (λ e. look_at wanted i e sofar) back
            ∙ rw (look_at, new_entry-ino name ino, ne→== ino 0 nz, reads, f) refl,
      )
    ]
