-- ===== src/Copyinout/Bounds.antt =====
-- copyin and copyout touch only addresses of the process, on every branch.
use harvard_os.Prelude.{
  ℕ, ◌+◌, ◌^◌, ◌≤◌, ◌<◌, ◌≡◌, refl, ◌∙◌, ◌⊎◌, inl, inr, Bool, true, false, not, arith, ◌==◌,
  if◌then◌else◌, Bool-cases, ==_iff, ap,
}
use native.Mathlib.Decide.{dec_lt}
use harvard_os.Errno.{efault}
use harvard_os.Libc.Memory.{memcpy, moved_at, memcpy_disjoint}
use harvard_os.Copyinout.{copycheck, any_fault, copyin, copyout}

-- A region of the process: some bytes, all below USERTOP.
pub record InUser (ptr len : ℕ) : Type 0 where
  pub some_bytes : 0 < len
  pub below : ptr + len ≤ 2 ^ 31

module _ (ptr len : ℕ) (p : ptr < 2 ^ 32) (l : len < 2 ^ 32) where
  -- The check passes a region of the process whole.
  pub copycheck-InUser : InUser ptr len → copycheck ptr len ≡ (0, len)
  unfolding copycheck
  copycheck-InUser u = ground (arith, u.some_bytes, u.below, p, l)

  -- Any other region fails the check, or is cut short.
  pub copycheck-fails :
      (len ≡ 0) ⊎ (2 ^ 31 < ptr + len)
      → ((copycheck ptr len).0 ≡ efault)
        ⊎ (((copycheck ptr len).0 ≡ 0) × (((copycheck ptr len).1 == len) ≡ false))
  unfolding copycheck
  copycheck-fails (inl z) = ground (arith, z, p)
  copycheck-fails (inr h) = ground (arith, h, p, l)

-- The three outcomes of a copy with the process's region at `ptr`: all is copied, the access faults,
-- or the region is not the process's and nothing is touched.
pub Outcome : ℕ → ℕ → (ℕ → Bool) → (ℕ → ℕ) → (ℕ → ℕ) → (ℕ → ℕ) → ℕ × (ℕ → ℕ) → Type 0
Outcome ptr len fault left copied m out =
    (InUser ptr len × (any_fault len ptr fault ≡ false) × (out ≡ (0, copied)))
    ⊎ (InUser ptr len × (any_fault len ptr fault ≡ true) × (out ≡ (efault, left)))
    ⊎ (¬ (InUser ptr len) × (out ≡ (efault, m)))

InUser-cases : (ptr len : ℕ) → InUser ptr len ⊎ ((len ≡ 0) ⊎ (2 ^ 31 < ptr + len))
InUser-cases ptr len = elim (dec_lt 0 len) [
  | no z ↦ inr (inl (omega arith))
  | yes pos ↦ elim (dec_lt (2 ^ 31) (ptr + len)) [
    | yes over ↦ inr (inr over)
    | no below ↦ inl (record { some_bytes = pos; below = omega arith })
  ]
]

not-InUser : (ptr len : ℕ) → (len ≡ 0) ⊎ (2 ^ 31 < ptr + len) → ¬ (InUser ptr len)
not-InUser ptr len (inl z) u = omega (arith, z, u.some_bytes)
not-InUser ptr len (inr o) u = omega (arith, o, u.below)

-- The body that copyin and copyout share, with the copy itself.
shared :
    (ptr len : ℕ) (fault : ℕ → Bool) (left copied m : ℕ → ℕ)
    → ptr < 2 ^ 32
    → len < 2 ^ 32
    → Outcome ptr len fault left copied m (
        if not ((copycheck ptr len).0 == 0)
        then ((copycheck ptr len).0, m)
        else if not ((copycheck ptr len).1 == len)
        then (efault, m)
        else if any_fault len ptr fault
        then (efault, left)
        else (0, copied))
unfolding Outcome
shared ptr len fault left copied m p l = elim (InUser-cases ptr len) [
  | inl u ↦
      let same : (len == len) ≡ true = (==_iff len len).1 refl in
      let passes = copycheck-InUser ptr len p l u in
      elim (Bool-cases (any_fault len ptr fault)) [
        | inl t ↦ inr (inl (u, t, rw (passes, same, t) refl))
        | inr f ↦ inl (u, f, rw (passes, same, f) refl)
      ]
  | inr bad ↦ inr (
      inr (
        not-InUser ptr len bad,
        (elim (copycheck-fails ptr len p l bad) [
          | inl e ↦ rw e refl
          | inr (z, short) ↦ rw (z, short) refl
        ]),
      ))
]

-- The copy is only looked at for a region of the process.
same_copy :
    (ptr len : ℕ) (fault : ℕ → Bool) (left copied copied1 m : ℕ → ℕ) (out : ℕ × (ℕ → ℕ))
    → (InUser ptr len → copied ≡ copied1)
    → Outcome ptr len fault left copied m out
    → Outcome ptr len fault left copied1 m out
unfolding Outcome
same_copy ptr len fault left copied copied1 m out h (inl (u, f, e)) =
    inl (u, f, e ∙ ap (λ c. (0, c)) (h u))
same_copy ptr len fault left copied copied1 m out h (inr rest) = inr rest

-- copyin into the kernel reads the region of the process and nothing else: it copies all of it; or an
-- access faults; or the region is empty or not below USERTOP, and the memory stays as it was. In the
-- last two cases the result is EFAULT.
pub copyin-Outcome :
    (usersrc dest len : ℕ) (fault : ℕ → Bool) (left m : ℕ → ℕ)
    → usersrc < 2 ^ 32
    → len < 2 ^ 32
    → 2 ^ 31 ≤ dest
    → Outcome usersrc len fault left
        (moved_at dest usersrc len m)
        m
        (copyin usersrc dest len fault left m)
unfolding copyin
copyin-Outcome usersrc dest len fault left m p l apart =
    same_copy usersrc len fault left (memcpy dest usersrc len m) (moved_at dest usersrc len m) m
      (copyin usersrc dest len fault left m)
      (λ u. memcpy_disjoint dest usersrc len m (inl (omega (arith, u.below, apart))))
      (shared usersrc len fault left (memcpy dest usersrc len m) m p l)

-- copyout from the kernel, likewise.
pub copyout-Outcome :
    (src userdest len : ℕ) (fault : ℕ → Bool) (left m : ℕ → ℕ)
    → userdest < 2 ^ 32
    → len < 2 ^ 32
    → 2 ^ 31 ≤ src
    → Outcome userdest len fault left
        (moved_at userdest src len m)
        m
        (copyout src userdest len fault left m)
unfolding copyout
copyout-Outcome src userdest len fault left m p l apart =
    same_copy userdest len fault left (memcpy userdest src len m) (moved_at userdest src len m) m
      (copyout src userdest len fault left m)
      (λ u. memcpy_disjoint userdest src len m (inr (omega (arith, u.below, apart))))
      (shared userdest len fault left (memcpy userdest src len m) m p l)
