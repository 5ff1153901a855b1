-- ===== src/Vfs/Lookup/Forms.antt =====
-- The four forms of a path against getdevice.
use harvard_os.Prelude.{
  ℕ, zero, suc, ◌+◌, ◌≡◌, ◌≢◌, refl, ap, ◌∙◌, Option, none, some, replicate, Option-cases, inl, inr,
  ◌>>=◌, List, [], ◌∷◌, ◌++◌, ne→==, take, drop, length, arith,
}
use harvard_os.Errno.{enoent}
use harvard_os.Vfs.{Got, got, err, FsOps, Vfs}
use harvard_os.Vfs.Devices.{vfs_getroot}
use harvard_os.Vfs.Lookup.{
  colon, slash, neither, first_mark, skip_slashes, vfs_getcurdir, current_root, held_or_enoent,
  with_subpath, getdevice_at, getdevice,
}

-- No character is a colon or a slash.
abbrev pub Plain : List ℕ → Type 0
Plain [] = Unit
Plain (c ∷ s) = (c ≢ b':') × (c ≢ b'/') × Plain s

-- name, name/rest, device:rest, /rest and :rest; a first character that is given apart makes a
-- name that is not empty, and the number says how many slashes stand in front of the last rest.
pub data Form : Type 0 where
  bare : List ℕ → Form
  relative : ℕ → List ℕ → List ℕ → Form
  device : ℕ → List ℕ → ℕ → List ℕ → Form
  rooted current : ℕ → List ℕ → Form

-- `n` slashes and the rest.
abbrev pub slashes : ℕ → List ℕ → List ℕ
slashes n rest = replicate n b'/' ++ rest

pub written : Form → List ℕ
written (bare name) = name
written (relative c name rest) = (c ∷ name) ++ (b'/' ∷ rest)
written (device c name n rest) = (c ∷ name) ++ (b':' ∷ slashes n rest)
written (rooted n rest) = b'/' ∷ slashes n rest
written (current n rest) = b':' ∷ slashes n rest

-- It does not start with a slash.
abbrev pub Slashless : List ℕ → Type 0
Slashless [] = Unit
Slashless (c ∷ rest) = c ≢ b'/'

abbrev pub Proper : Form → Type 0
Proper (bare name) = Plain name
Proper (relative c name rest) = Plain (c ∷ name)
Proper (device c name n rest) = Plain (c ∷ name) × Slashless rest
Proper (rooted n rest) = Slashless rest
Proper (current n rest) = Slashless rest

mark-Plain : (name : List ℕ) (i : ℕ) → Plain name → first_mark name i ≡ neither
unfolding first_mark
mark-Plain [] i h = refl
mark-Plain (c ∷ name) i (a, b, h) =
    rw (first_mark, ne→== c b':' a, ne→== c b'/' b) (mark-Plain name (i + 1) h)

mark_slash :
    (name rest : List ℕ) (i : ℕ)
    → Plain name
    → first_mark (name ++ (b'/' ∷ rest)) i ≡ slash (i + length name)
unfolding first_mark
mark_slash [] rest i h = ap slash (omega arith)
mark_slash (c ∷ name) rest i (a, b, h) =
    rw (first_mark, ne→== c b':' a, ne→== c b'/' b)
      (mark_slash name rest (i + 1) h ∙ ap slash (omega arith))

mark_colon :
    (name rest : List ℕ) (i : ℕ)
    → Plain name
    → first_mark (name ++ (b':' ∷ rest)) i ≡ colon (i + length name)
unfolding first_mark
mark_colon [] rest i h = ap colon (omega arith)
mark_colon (c ∷ name) rest i (a, b, h) =
    rw (first_mark, ne→== c b':' a, ne→== c b'/' b)
      (mark_colon name rest (i + 1) h ∙ ap colon (omega arith))

slash_first : (rest : List ℕ) → first_mark (b'/' ∷ rest) 0 ≡ slash 0
unfolding first_mark
slash_first rest = refl

colon_first : (rest : List ℕ) → first_mark (b':' ∷ rest) 0 ≡ colon 0
unfolding first_mark
colon_first rest = refl

skip_slashes-slashes :
    (n : ℕ) (rest : List ℕ) → Slashless rest → skip_slashes (slashes n rest) ≡ rest
unfolding skip_slashes
skip_slashes-slashes zero [] h = refl
skip_slashes-slashes zero (c ∷ rest) h = rw (skip_slashes, ne→== c b'/' h) refl
skip_slashes-slashes (suc n) rest h = skip_slashes-slashes n rest h

take-front : (xs ys : List ℕ) → take (length xs) (xs ++ ys) ≡ xs
take-front [] ys = refl
take-front (x ∷ xs) ys = ap (◌∷◌ x) (take-front xs ys)

drop-front : (xs ys : List ℕ) (y : ℕ) → drop (suc (length xs)) (xs ++ (y ∷ ys)) ≡ ys
drop-front [] ys y = refl
drop-front (x ∷ xs) ys y = drop-front xs ys y

module _ {W : Type 0} (ops : FsOps W) where
  open ops use {fsop_getroot, vop_incref, vop_decref, vn_fs}

  -- The vnode with a reference, or ENOENT.
  from_vnode : Option ℕ → List ℕ → Vfs W → Option (Got × List ℕ × W)
  from_vnode none path v = some (err enoent, path, v.world)
  from_vnode (some vn) path v = some (got vn, path, vop_incref vn v.world)

  -- The root of the file system of the vnode, on which the reference is given back.
  from_root : Option ℕ → List ℕ → Vfs W → Option (Got × List ℕ × W)
  from_root none path v = some (err enoent, path, v.world)
  from_root (some vn) path v = vn_fs vn >>= λ fs.
      (let (root, w) = fsop_getroot fs (vop_incref vn v.world) in
        some (got root, path, vop_decref vn w))

  -- Where each form starts, and the path from there.
  pub start_of : Form → Vfs W → Option (Got × List ℕ × W)
  start_of (bare name) v = from_vnode v.t_cwd name v
  start_of (relative c name rest) v = from_vnode v.t_cwd ((c ∷ name) ++ (b'/' ∷ rest)) v
  start_of (device c name n rest) v =
      vfs_getroot ops v.knowndevs (c ∷ name) v.world >>= λ (start, w). some (start, rest, w)
  start_of (rooted n rest) v = from_vnode v.bootfs_vnode rest v
  start_of (current n rest) v = from_root v.t_cwd rest v

  held_or_enoent-from :
      (o : Option ℕ) (path : List ℕ) (v : Vfs W)
      → with_subpath ops path (some (held_or_enoent ops o v.world)) ≡ from_vnode o path v
  unfolding from_vnode
  held_or_enoent-from none path v = refl
  held_or_enoent-from (some vn) path v = refl

  current_root-from :
      (o : Option ℕ) (path : List ℕ) (v : Vfs W)
      → with_subpath ops path (current_root ops (held_or_enoent ops o v.world)) ≡ from_root o path v
  unfolding from_root current_root
  current_root-from none path v = refl
  current_root-from (some vn) path v = elim (Option-cases (vn_fs vn)) [
    | inl e ↦ rw e refl
    | inr (fs, e) ↦ rw e refl
  ]

  -- getdevice takes each form of a path apart, whose names have no colon and no slash and whose rest
  -- behind the slashes does not start with one: device:rest
  -- starts where vfs_getroot says that the device starts, /rest at the boot file system, :rest at
  -- the root of the file system of the current directory, each with all slashes in front of the
  -- rest taken off; and any other path starts, whole, at the current directory. Without a boot file
  -- system or a current directory it is ENOENT.
  pub getdevice-start_of :
      (f : Form) (v : Vfs W) → Proper f → getdevice ops (written f) v ≡ start_of f v
  unfolding getdevice getdevice_at vfs_getcurdir written start_of
  getdevice-start_of (bare name) v h = rw (mark-Plain name 0 h) (held_or_enoent-from v.t_cwd name v)
  getdevice-start_of (relative c name rest) v h =
      let e : first_mark ((c ∷ name) ++ (b'/' ∷ rest)) 0 ≡ slash (suc (length name)) =
        mark_slash (c ∷ name) rest 0 h ∙ ap slash (omega arith) in
      rw e (held_or_enoent-from v.t_cwd ((c ∷ name) ++ (b'/' ∷ rest)) v)
  getdevice-start_of (device c name n rest) v (h, s) =
      let after = slashes n rest in
      let e : first_mark ((c ∷ name) ++ (b':' ∷ after)) 0 ≡ colon (suc (length name)) =
        mark_colon (c ∷ name) after 0 h ∙ ap colon (omega arith) in
      let l : suc (length name) + 1 ≡ suc (suc (length name)) = omega arith in
      rw
        (
          e,
          l,
          take-front name (b':' ∷ after),
          drop-front name after b':',
          skip_slashes-slashes n rest s,
        )
        refl
  getdevice-start_of (rooted n rest) v s =
      rw (slash_first (slashes n rest), skip_slashes-slashes n rest s)
        (held_or_enoent-from v.bootfs_vnode rest v)
  getdevice-start_of (current n rest) v s =
      rw (colon_first (slashes n rest), skip_slashes-slashes n rest s)
        (current_root-from v.t_cwd rest v)
