-- ===== src/Vfs/Devices/Adds.antt =====
-- New names: badnames against the table, and vfs_doadd.
use harvard_os.Prelude.{
  ◌≢◌, ℕ, ◌≡◌, refl, sym, ap, ◌∙◌, Bool, true, false, not, ◌&&◌, ◌||◌, Option, none, some, List, [],
  ◌∷◌, ◌++◌, if◌then◌else◌, Bool-cases, Option-cases, ◌⊎◌, inl, inr, arith,
}
use mathlib.Core.List.{append-nil, append_assoc}
use harvard_os.Libc.{Sign, strcmp}
use harvard_os.Libc.Strings.{strcmp-same}
use harvard_os.Vfs.{FsOps, KnownDev, Vfs, equal}
use harvard_os.Vfs.Devices.{
  AddMem, samestring, samestring3, volname_of, badnames, mkrawname, add_known, add_vnode, vfs_doadd,
}
use harvard_os.Vfs.Devices.Names.{
  Table, Answer, root, self, unmounted, find, find-append, names_of, names_by, table, entry,
}

-- One of the three names that are looked for.
abbrev Among : List ℕ → Option (List ℕ) → Option (List ℕ) → Option (List ℕ) → Type 0
Among n n1 n2 n3 = (n1 ≡ some n) ⊎ ((n2 ≡ some n) ⊎ (n3 ≡ some n))

or_false : (a b : Bool) → (a || b) ≡ false → (a ≡ false) × (b ≡ false)
or_false true b h = (h, cc)
or_false false b h = (refl, h)

samestring3-Among :
    (a n : List ℕ) (n1 n2 n3 : Option (List ℕ))
    → samestring3 (some a) n1 n2 n3 ≡ false
    → Among n n1 n2 n3
    → equal a n ≡ false
unfolding samestring3 samestring
samestring3-Among a n n1 n2 n3 h (inl e) = let h' = rw e at h in ground arith
samestring3-Among a n n1 n2 n3 h (inr (inl e)) = let h' = rw e at h in ground arith
samestring3-Among a n n1 n2 n3 h (inr (inr e)) = let h' = rw e at h in ground arith

is_same :
    (s : Sign)
    → elim s [ Sign.same ↦ true | Sign.below ↦ false | Sign.above ↦ false ] ≡ true
    → s ≡ Sign.same
is_same Sign.same h = refl
is_same Sign.below h = cc
is_same Sign.above h = cc

equal-eq : (a b : List ℕ) → equal a b ≡ true → a ≡ b
equal-eq a b h = (strcmp-same a b).0 (is_same (strcmp a b) h)

find-nil : {A : Type 0} (n : List ℕ) (a : Answer) → find [] n ≡ some a → A
unfolding find
find-nil n a h = cc

find-cons :
    (name : List ℕ) (b : Answer) (t : Table) (n : List ℕ) (a : Answer)
    → find ((name, b) ∷ t) n ≡ some a
    → (name ≡ n) ⊎ (find t n ≡ some a)
unfolding find
find-cons name b t n a h = elim (Bool-cases (equal name n)) [
  | inl e ↦ inl (equal-eq name n e)
  | inr e ↦ inr (rw e at h)
]

find-entry_cons :
    (name : Option (List ℕ)) (b : Answer) (t : Table) (n : List ℕ) (a : Answer)
    → find (entry name b ++ t) n ≡ some a
    → (name ≡ some n) ⊎ (find t n ≡ some a)
find-entry_cons none b t n a h = inr h
find-entry_cons (some name) b t n a h = elim (find-cons name b t n a h) [
  | inl e ↦ inl (ap some e)
  | inr e ↦ inr e
]

in_entry :
    (name : Option (List ℕ)) (b : Answer) (n : List ℕ) (a : Answer)
    → find (entry name b) n ≡ some a
    → name ≡ some n
in_entry none b n a h = find-nil n a h
in_entry (some name) b n a h = elim (find-cons name b [] n a h) [
  | inl e ↦ ap some e
  | inr e ↦ find-nil n a e
]

module _ {W : Type 0} (ops : FsOps W) where
  open ops use {fsop_getvolname}

  find-entry :
      (old : Option (List ℕ)) (a : Answer) (n : List ℕ) (n1 n2 n3 : Option (List ℕ))
      → samestring3 old n1 n2 n3 ≡ false
      → Among n n1 n2 n3
      → find (entry old a) n ≡ none
  unfolding find
  find-entry none a n n1 n2 n3 h m = refl
  find-entry (some old) a n n1 n2 n3 h m = rw (samestring3-Among old n n1 n2 n3 h m) refl

  names-by :
      (name : List ℕ) (rawname : Option (List ℕ)) (vnode : ℕ) (fs : Option ℕ) (n : List ℕ)
      (n1 n2 n3 : Option (List ℕ))
      → samestring3 (volname_of ops fs) n1 n2 n3 ≡ false
      → samestring3 rawname n1 n2 n3 ≡ false
      → samestring3 (some name) n1 n2 n3 ≡ false
      → Among n n1 n2 n3
      → find (names_by ops name rawname vnode fs) n ≡ none
  unfolding find
  names-by name none vnode none n n1 n2 n3 v r h m = rw (samestring3-Among name n n1 n2 n3 h m) refl
  names-by name (some raw) vnode none n n1 n2 n3 v r h m =
      rw (samestring3-Among name n n1 n2 n3 h m, samestring3-Among raw n n1 n2 n3 r m) refl
  names-by name rawname vnode (some fs) n n1 n2 n3 v r h m =
      rw
        (
          samestring3-Among name n n1 n2 n3 h m,
          find-append (entry (fsop_getvolname fs) (root fs)) (entry rawname (self vnode)) n,
          find-entry (fsop_getvolname fs) (root fs) n n1 n2 n3 v m,
          find-entry rawname (self vnode) n n1 n2 n3 r m,
        )
        refl

  -- No known name is one of those that badnames let pass.
  badnames-find :
      (devs : List KnownDev) (n : List ℕ) (n1 n2 n3 : Option (List ℕ))
      → badnames ops devs n1 n2 n3 ≡ false
      → Among n n1 n2 n3
      → find (table ops devs) n ≡ none
  unfolding badnames table find names_of
  badnames-find [] n n1 n2 n3 h m = refl
  badnames-find (kd ∷ devs) n n1 n2 n3 h m =
      let vol = samestring3 (volname_of ops kd.kd_fs) n1 n2 n3 in
      let raw = samestring3 kd.kd_rawname n1 n2 n3 in
      let name = samestring3 (some kd.kd_name) n1 n2 n3 in
      let rest = badnames ops devs n1 n2 n3 in
      let (h1, h3) = or_false ((vol || raw) || name) rest h in
      let (h2, k) = or_false (vol || raw) name h1 in
      let (v, r) = or_false vol raw h2 in
      rw
        (
          find-append (names_of ops kd) (table ops devs) n,
          names-by kd.kd_name kd.kd_rawname kd.kd_vnode kd.kd_fs n n1 n2 n3 v r k m,
        )
        (badnames-find devs n n1 n2 n3 h3 m)

  -- A name in a device's own part of the table is one of its three.
  find-by :
      (name : List ℕ) (rawname : Option (List ℕ)) (vnode : ℕ) (fs : Option ℕ) (n : List ℕ)
      (a : Answer)
      → find (names_by ops name rawname vnode fs) n ≡ some a
      → Among n (some name) rawname (volname_of ops fs)
  find-by name none vnode none n a h = elim (find-cons name (self vnode) [] n a h) [
    | inl e ↦ inl (ap some e)
    | inr e ↦ find-nil n a e
  ]
  find-by name (some raw) vnode none n a h =
      elim (find-cons name unmounted ((raw, self vnode) ∷ []) n a h) [
        | inl e ↦ inl (ap some e)
        | inr e ↦ elim (find-cons raw (self vnode) [] n a e) [
          | inl e' ↦ inr (inl (ap some e'))
          | inr e' ↦ find-nil n a e'
        ]
      ]
  find-by name rawname vnode (some fs) n a h = elim (find-cons name (root fs) _ n a h) [
    | inl e ↦ inl (ap some e)
    | inr e ↦ elim (find-entry_cons (fsop_getvolname fs) (root fs) _ n a e) [
      | inl e' ↦ inr (inr e')
      | inr e' ↦ inr (inl (in_entry rawname (self vnode) n a e'))
    ]
  ]

  -- What the table says once a device has been added.
  abbrev pub Adds : KnownDev → List KnownDev → List KnownDev → Type 0
  Adds kd devs devs' =
      (devs' ≡ devs ++ (kd ∷ []))
      × ((n : List ℕ)
          → find (table ops devs') n
            ≡ elim (find (names_of ops kd) n) [ some a ↦ some a | none ↦ find (table ops devs) n ])

  table-append :
      (devs more : List KnownDev) → table ops (devs ++ more) ≡ table ops devs ++ table ops more
  unfolding table
  table-append [] more = refl
  table-append (kd ∷ devs) more =
      ap (λ t. names_of ops kd ++ t) (table-append devs more)
      ∙ sym (append_assoc (names_of ops kd) (table ops devs) (table ops more))

  adds :
      (kd : KnownDev) (devs : List KnownDev)
      → badnames ops devs (some kd.kd_name) kd.kd_rawname (volname_of ops kd.kd_fs) ≡ false
      → Adds kd devs (devs ++ (kd ∷ []))
  unfolding table names_of
  adds kd devs fresh = (
    refl,
    λ n.
        rw
          (
            table-append devs (kd ∷ []),
            append-nil (names_of ops kd),
            find-append (table ops devs) (names_of ops kd) n,
          )
          (elim (Option-cases (find (names_of ops kd) n)) [
            | inl e ↦ elim (Option-cases (find (table ops devs) n)) [
              | inl f ↦ rw (f, e, f) refl
              | inr (b, f) ↦ rw (f, e, f) refl
            ]
            | inr (a, e) ↦
                let m = find-by kd.kd_name kd.kd_rawname kd.kd_vnode kd.kd_fs n a e in
                rw (e, badnames-find devs n _ _ _ fresh m, e) refl
          ]),
  )

  abbrev pub new_device : List ℕ → Bool → Option ℕ → ℕ → Option ℕ → KnownDev
  new_device dname mountable dev vnode fs = record {
    kd_name = dname;
    kd_rawname = if mountable then some (mkrawname dname) else none;
    kd_device = dev;
    kd_vnode = vnode;
    kd_fs = fs;
  }

  abbrev pub Outcome : List ℕ → Bool → Option ℕ → Option ℕ → List KnownDev → ℕ × Vfs W → Type 0
  Outcome dname mountable dev fs devs after =
      ((after.0 ≡ 0)
        × ((vnode : ℕ) × Adds (new_device dname mountable dev vnode fs) devs after.1.knowndevs))
      ⊎ ((after.0 ≢ 0) × (after.1.knowndevs ≡ devs))

  add_vnode-Outcome :
      (dname : List ℕ) (mountable : Bool) (dev fs : Option ℕ) (mem : AddMem) (o : Option ℕ)
      (v : Vfs W)
      → Outcome dname mountable dev fs v.knowndevs (add_vnode ops dname mountable dev fs mem o v)
  unfolding add_vnode add_known
  add_vnode-Outcome dname mountable dev fs mem none v = inr (omega arith, refl)
  add_vnode-Outcome dname mountable dev fs mem (some vnode) v =
      let kd = new_device dname mountable dev vnode fs in
      let bad = badnames ops v.knowndevs (some dname) kd.kd_rawname (volname_of ops fs) in
      elim (Bool-cases mem.kd_ok) [
        | inr no_kd ↦ rw no_kd (inr (omega arith, refl))
        | inl has_kd ↦ rw has_kd (elim (Bool-cases bad) [
          | inl taken ↦ rw taken (inr (omega arith, refl))
          | inr fresh ↦ rw fresh (elim (Bool-cases mem.array_ok) [
            | inr full ↦ rw full (inr (omega arith, refl))
            | inl room ↦ rw room (inl (refl, (vnode, adds kd v.knowndevs fresh)))
          ])
        ])
      ]

  -- vfs_doadd that returns 0 adds one device: its names, that of its volume included, stand for
  -- it from then on, and every other name for what it stood for. An error leaves the list alone.
  pub vfs_doadd_lem :
      (dname : List ℕ) (mountable : Bool) (dev fs : Option ℕ) (mem : AddMem) (v : Vfs W)
      → Outcome dname mountable dev fs v.knowndevs (vfs_doadd ops dname mountable dev fs mem v)
  unfolding vfs_doadd
  vfs_doadd_lem dname mountable dev fs mem v =
      elim (Bool-cases (not mem.name_ok || (mountable && not mem.rawname_ok))) [
        | inl short ↦ rw short (inr (omega arith, refl))
        | inr enough ↦ rw enough (
            add_vnode-Outcome dname mountable dev fs mem (ops.dev_create_vnode dev v.world).0
              (record v { world = (ops.dev_create_vnode dev v.world).1 }))
      ]
