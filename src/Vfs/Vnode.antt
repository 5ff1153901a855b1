-- ===== src/Vfs/Vnode.antt =====
-- os161/kern/fs/vfs/vnode.c: the counts of a vnode. The lock of the counts is held from their first use to
-- their last; VOP_RECLAIM and VOP_CLOSE are parameters, which return an error number.
use harvard_os.Prelude.{
  ℕ, zero, suc, ◌+◌, ◌-◌, ◌<◌, ◌≡◌, refl, ap, ◌∙◌, Bool, Option, none, some, ltb, ◌==◌,
  if◌then◌else◌, ◌>>=◌, ◌>>◌, assert, int_limit, lt→ltb, arith,
}
use harvard_os.Errno.{enomem}

pub record Vnode : Type 0 where
  pub vn_refcount : ℕ
  pub vn_opencount : ℕ
  pub vn_fs : Option ℕ
  pub vn_data : Option ℕ

-- `lock_ok` is whether lock_create gets memory.
pub vnode_init : Option ℕ → Option ℕ → Bool → Vnode → ℕ × Vnode
vnode_init fs fsdata lock_ok vn =
    if lock_ok
    then (0, record { vn_refcount = 1; vn_opencount = 0; vn_fs = fs; vn_data = fsdata })
    else (enomem, record vn { vn_refcount = 1; vn_opencount = 0 })

pub vnode_kill : Vnode → Option Vnode
vnode_kill vn =
    assert (vn.vn_refcount == 1)
    >> (assert (vn.vn_opencount == 0)
        >> some (record { vn_refcount = 0; vn_opencount = 0; vn_fs = none; vn_data = none }))

abbrev incremented : ℕ → Option ℕ
incremented n = if ltb (n + 1) int_limit then some (n + 1) else none

pub vnode_incref : Vnode → Option Vnode
vnode_incref vn = incremented vn.vn_refcount >>= λ n. some (record vn { vn_refcount = n })

pub vnode_incopen : Vnode → Option Vnode
vnode_incopen vn = incremented vn.vn_opencount >>= λ n. some (record vn { vn_opencount = n })

module _ (vop : Vnode → ℕ × Vnode) where
  -- With VOP_RECLAIM.
  pub vnode_decref : Vnode → Option Vnode
  vnode_decref vn =
      assert (ltb 0 vn.vn_refcount)
      >> some (
          if ltb 1 vn.vn_refcount
          then record vn { vn_refcount = vn.vn_refcount - 1 }
          else (vop vn).1)

  -- With VOP_CLOSE.
  pub vnode_decopen : Vnode → Option Vnode
  vnode_decopen vn =
      assert (ltb 0 vn.vn_opencount)
      >> (let vn1 = record vn { vn_opencount = vn.vn_opencount - 1 } in
          some (if ltb 0 vn1.vn_opencount then vn1 else (vop vn1).1))

abbrev times : ℕ → (Vnode → Option Vnode) → Vnode → Option Vnode
times zero f vn = some vn
times (suc n) f vn = f vn >>= times n f

one_incref :
    (vn : Vnode)
    → vn.vn_refcount + 1 < int_limit
    → vnode_incref vn ≡ some (record vn { vn_refcount = vn.vn_refcount + 1 })
unfolding vnode_incref
one_incref vn h = rw (lt→ltb _ _ h) refl

one_decref :
    (vop : Vnode → ℕ × Vnode) (n : ℕ) (vn : Vnode)
    → 0 < vn.vn_refcount
    → vnode_decref vop (record vn { vn_refcount = vn.vn_refcount + suc n })
      ≡ some (record vn { vn_refcount = vn.vn_refcount + n })
unfolding vnode_decref
one_decref vop n vn pos =
    let e : vn.vn_refcount + suc n - 1 ≡ vn.vn_refcount + n = omega arith in
    rw
      (
        lt→ltb 0 (vn.vn_refcount + suc n) (omega arith),
        lt→ltb 1 (vn.vn_refcount + suc n) (omega arith),
        e,
      )
      refl

times-incref :
    (n : ℕ) (vn : Vnode)
    → vn.vn_refcount + n < int_limit
    → times n vnode_incref vn ≡ some (record vn { vn_refcount = vn.vn_refcount + n })
times-incref zero vn small = let e : vn.vn_refcount + 0 ≡ vn.vn_refcount = omega arith in rw e refl
times-incref (suc n) vn small =
    let e : vn.vn_refcount + 1 + n ≡ vn.vn_refcount + suc n = omega arith in
    rw (one_incref vn (omega arith)) (
      times-incref n (record vn { vn_refcount = vn.vn_refcount + 1 }) (omega arith)
      ∙ ap (λ k. some (record vn { vn_refcount = k })) e)

times-decref :
    (vop : Vnode → ℕ × Vnode) (n : ℕ) (vn : Vnode)
    → 0 < vn.vn_refcount
    → times n (vnode_decref vop) (record vn { vn_refcount = vn.vn_refcount + n }) ≡ some vn
times-decref vop zero vn pos =
    let e : vn.vn_refcount + 0 ≡ vn.vn_refcount = omega arith in rw e refl
times-decref vop (suc n) vn pos = rw (one_decref vop n vn pos) (times-decref vop n vn pos)

-- While the first reference is kept, as many VOP_DECREFs as VOP_INCREFs leave the vnode as it was,
-- and VOP_RECLAIM is not called.
pub vnode_decref-vnode_incref :
    (vop : Vnode → ℕ × Vnode) (n : ℕ) (vn : Vnode)
    → 0 < vn.vn_refcount
    → vn.vn_refcount + n < int_limit
    → (times n vnode_incref vn >>= times n (vnode_decref vop)) ≡ some vn
vnode_decref-vnode_incref vop n vn pos small =
    rw (times-incref n vn small) (times-decref vop n vn pos)
