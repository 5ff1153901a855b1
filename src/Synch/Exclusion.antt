-- ===== src/Synch/Exclusion.antt =====
-- Threads that take and release one lock, in any order: each step is a part of lock_acquire or of
-- lock_release that no other thread interrupts.
use harvard_os.Prelude.{
  ℕ, ◌≡◌, ◌≢◌, refl, sym, ap, ◌∙◌, ◌⊎◌, inl, inr, Option, none, some, update_at, ==_iff, ◌==◌,
  Bool-cases, arith,
}
use harvard_os.Synch.{Lock, lock_test, released}

-- Where a thread is: outside, asleep in `lock_acquire`, or between `lock_acquire` and `lock_release`.
pub data Place : Type 0 where
  outside waiting critical : Place

pub record System : Type 0 where
  pub lock : Lock
  pub place : ℕ → Place

-- A thread that is outside or was woken runs the test of the loop, and gets the lock or sleeps; one
-- that is between the two calls releases the lock.
pub data Step (s : System) : System → Type 0 where
  enter :
      (t : ℕ) (l : Lock)
      → s.place t ≢ critical
      → lock_test (some t) s.lock ≡ some l
      → Step s (record { lock = l; place = update_at s.place t critical })
  wait :
      (t : ℕ)
      → s.place t ≢ critical
      → lock_test (some t) s.lock ≡ none
      → Step s (record { lock = s.lock; place = update_at s.place t waiting })
  leave :
      (t : ℕ)
      → s.place t ≡ critical
      → Step s (record { lock = released s.lock; place = update_at s.place t outside })

-- The systems that steps lead to from a free lock with every thread outside.
pub data Reachable : System → Type 0 where
  start : Reachable (record { lock = record { held = 0; pointer = none }; place = λ t. outside })
  more : (s s' : System) → Reachable s → Step s s' → Reachable s'

-- The lock is free and nobody is between the calls, or its owner alone is.
IsSafe : System → Type 0
IsSafe s =
    ((s.lock.held ≡ 0) × ((t : ℕ) → s.place t ≢ critical))
    ⊎ ((owner : ℕ) × (s.lock.held ≡ 1)
        × (s.lock.pointer ≡ some owner)
        × ((t : ℕ) → s.place t ≡ critical → t ≡ owner))

-- A thread that went elsewhere is not between the calls, and the others have not moved.
moved :
    (place : ℕ → Place) (t u : ℕ) (p : Place)
    → p ≢ critical
    → update_at place t p u ≡ critical
    → (u ≢ t) × (place u ≡ critical)
moved place t u p off e = elim (Bool-cases (u == t)) [
  | inl same ↦ absurd (off (rw same at e))
  | inr apart ↦ ((λ h. ground arith), rw apart at e)
]

entered :
    (place : ℕ → Place) (t u : ℕ)
    → update_at place t critical u ≡ critical
    → (u ≡ t) ⊎ (place u ≡ critical)
entered place t u e = elim (Bool-cases (u == t)) [
  | inl same ↦ inl ((==_iff u t).0 same)
  | inr apart ↦ inr (rw apart at e)
]

lock_test-some :
    (cur : Option ℕ) (l l' : Lock)
    → lock_test cur l ≡ some l'
    → (l.held ≡ 0) × (l'.held ≡ 1) × (l'.pointer ≡ cur)
unfolding lock_test
lock_test-some cur l l' e = elim (Bool-cases (l.held == 0)) [
  | inl free ↦
      let same : some (record { held = 1; pointer = cur }) ≡ some l' = rw free at e in
      ((==_iff l.held 0).0 free, cc, cc)
  | inr busy ↦ (let wrong : none ≡ some l' = rw busy at e in cc)
]

-- A free lock goes to the thread that tests it.
pub lock_test-free :
    (cur : Option ℕ) (l : Lock)
    → l.held ≡ 0
    → lock_test cur l ≡ some (record { held = 1; pointer = cur })
unfolding lock_test
lock_test-free cur l free = rw ((==_iff l.held 0).1 free)

Step-IsSafe : (s s' : System) → Step s s' → IsSafe s → IsSafe s'
unfolding IsSafe
Step-IsSafe s s' (enter t l apart e) (inl (free, empty)) =
    let (_, one, ptr) = lock_test-some (some t) s.lock l e in
    inr (
      t,
      one,
      ptr,
      λ u c. elim (entered s.place t u c) [ inl same ↦ same | inr old ↦ absurd (empty u old) ],
    )
Step-IsSafe s s' (enter t l apart e) (inr (owner, one, _, _)) =
    let (free, _, _) = lock_test-some (some t) s.lock l e in absurd (omega (arith, free, one))
Step-IsSafe s s' (wait t apart e) (inl (free, empty)) =
    inl (free, λ u c. empty u (moved s.place t u waiting (λ h. cc) c).1)
Step-IsSafe s s' (wait t apart e) (inr (owner, one, ptr, only)) =
    inr (owner, one, ptr, λ u c. only u (moved s.place t u waiting (λ h. cc) c).1)
Step-IsSafe s s' (leave t here) (inl (free, empty)) = absurd (empty t here)
Step-IsSafe s s' (leave t here) (inr (owner, one, ptr, only)) = inl (
  refl,
  λ u c.
      let (apart, there) = moved s.place t u outside (λ h. cc) c in
      apart (only u there ∙ sym (only t here)),
)

Reachable-IsSafe : (s : System) → Reachable s → IsSafe s
unfolding IsSafe
Reachable-IsSafe s start = inl (refl, λ t h. cc)
Reachable-IsSafe s (more before s' r step) = Step-IsSafe before s step (Reachable-IsSafe before r)

-- Whatever the order of the steps, if only the thread that has the lock releases it, two threads are never between `lock_acquire` and `lock_release`
-- at a time, and the lock is held and names the thread that is.
pub mutual_exclusion :
    (s : System) (t u : ℕ)
    → Reachable s
    → s.place t ≡ critical
    → s.place u ≡ critical
    → (t ≡ u) × (s.lock.held ≡ 1) × (s.lock.pointer ≡ some t)
unfolding IsSafe
mutual_exclusion s t u r ct cu = elim (Reachable-IsSafe s r) [
  | inl (free, empty) ↦ absurd (empty t ct)
  | inr (owner, one, ptr, only) ↦
      (only t ct ∙ sym (only u cu), one, ptr ∙ ap some (sym (only t ct)))
]
