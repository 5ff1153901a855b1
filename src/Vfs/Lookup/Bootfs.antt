-- ===== src/Vfs/Lookup/Bootfs.antt =====
-- vfs_setbootfs on a name with a colon.
use harvard_os.Prelude.{
  ℕ, zero, suc, ◌-◌, ◌<◌, ◌≡◌, refl, ap, some, List, [], ◌∷◌, ◌++◌, ne→==, ==_iff, lt→ltb, take,
  length, arith,
}
use native.Mathlib.Decide.{ℕ_discrete}
use harvard_os.Errno.{einval}
use harvard_os.Libc.{strchr, strlen}
use harvard_os.Libc.Strings.{strlen-length}
use harvard_os.Vfs.{FsOps, Vfs}
use harvard_os.Vfs.Lookup.{name_max, vfs_setbootfs, set_boot_name}

colon_found :
    (n : ℕ) (before after : List ℕ)
    → length before < n
    → (s : List ℕ) × (strchr (take n (before ++ (b':' ∷ after))) b':' ≡ some (b':' ∷ s))
unfolding strchr
colon_found zero before after h = absurd (omega arith)
colon_found (suc n) [] after h = (take n after, refl)
colon_found (suc n) (c ∷ before) after h = elim (ℕ_discrete c b':') [
  | yes e ↦ (
    take n (before ++ (b':' ∷ after)),
    rw (strchr, (==_iff c b':').1 e) (ap (λ d. some (d ∷ take n (before ++ (b':' ∷ after)))) e),
  )
  | no ne ↦
      let (s, found) = colon_found n before after (omega arith) in
      (s, rw (strchr, ne→== c b':' ne) found)
]

-- vfs_setbootfs refuses every name that has a colon in the part that it looks at, also one at the
-- end, and changes nothing.
pub vfs_setbootfs-colon :
    {W : Type 0} (ops : FsOps W) (before after : List ℕ) (v : Vfs W)
    → length before < name_max - 1
    → vfs_setbootfs ops (before ++ (b':' ∷ after)) v ≡ some (einval, v)
unfolding vfs_setbootfs set_boot_name
vfs_setbootfs-colon ops before after v h =
    let (s, found) = colon_found (name_max - 1) before after h in
    let l = strlen-length (b':' ∷ s) in rw (found, lt→ltb 0 (strlen (b':' ∷ s)) (omega arith)) refl
