-- ===== src/Synch.antt =====
-- os161/kern/thread/synch.c: semaphores, locks and condition variables, over the thread system.
-- A primitive is used as a sleep address, a number. A call that blocks is modelled up to its
-- `thread_sleep`; a `resume` function is what it does when its thread runs again.
pub mod Wakes
pub mod Wait
pub mod Exclusion
mod Tests
use harvard_os.Prelude.{
  ℕ, zero, suc, ◌+◌, ◌-◌, ◌^◌, Bool, true, false, not, Option, none, some, List, [], ◌∷◌, ltb, leb,
  ◌==◌, if◌then◌else◌, ◌>>=◌, ◌>>◌, assert, int_limit,
}
use harvard_os.Thread.{Threads, spl_high, thread_wakeup, wakeup_single_thread, thread_hassleepers}
use harvard_os.Thread.Context.{thread_sleep, thread_sleep_return}

-- How a call on a primitive `A` comes back: it slept, or it is done.
pub data Outcome {ℓ} (A : Type ℓ) : Type ℓ where
  blocked done : A → Threads → Outcome A

-- `splhigh()` and `splx(spl)`
abbrev pub splhigh : Threads → Threads
splhigh s = record s { curspl = spl_high }

abbrev pub splx : ℕ → Threads → Threads
splx spl s = record s { curspl = spl }

-- `struct semaphore`
pub record Semaphore : Type 0 where
  pub count : ℕ

-- Whether the two kmallocs succeed; `none` for NULL.
pub sem_create : Bool → Bool → ℕ → Option Semaphore
sem_create mem1 mem2 initial_count =
    if mem1 then (if mem2 then some (record { count = initial_count }) else none) else none

pub sem_destroy : ℕ → Threads → Option Threads
sem_destroy addr s = do
  sleepers ← thread_hassleepers addr (splhigh s)
  assert (not sleepers)
  some s

-- The loop of `P` from its test on, at level `spl` when it is done.
pub sem_p_loop : Bool → List ℕ → ℕ → ℕ → Semaphore → Threads → Option (Outcome Semaphore)
sem_p_loop mem interrupts addr spl sem s =
    let slept = (thread_sleep mem interrupts addr s >>= λ s'. some (blocked sem s')) in
    if sem.count == 0
    then slept
    else some (done (record sem { count = sem.count - 1 }) (splx spl s))

pub sem_p : Bool → List ℕ → ℕ → Semaphore → Threads → Option (Outcome Semaphore)
sem_p mem interrupts addr sem s =
    assert (not s.in_interrupt) >> sem_p_loop mem interrupts addr s.curspl sem (splhigh s)

pub sem_p_resume : Bool → List ℕ → ℕ → ℕ → Semaphore → Threads → Option (Outcome Semaphore)
sem_p_resume mem interrupts addr spl sem s =
    thread_sleep_return s >>= λ s'. sem_p_loop mem interrupts addr spl sem s'

pub sem_v : Bool → ℕ → Semaphore → Threads → Option (Semaphore × Threads)
sem_v mem addr sem s = do
  assert (ltb (sem.count + 1) int_limit)
  s' ← thread_wakeup mem addr (splhigh s)
  some (record sem { count = sem.count + 1 }, splx s.curspl s')

-- `struct lock`, less its name and `bowl_num`, which is not read here; `none` in `pointer` is NULL.
pub record Lock : Type 0 where
  pub held : ℕ
  pub pointer : Option ℕ

-- On the memory that kmalloc returns, which keeps what it held.
pub lock_create : Option Lock → Bool → Option Lock
lock_create none mem = none
lock_create (some held) mem = if mem then some held else none

abbrev pub same_thread : Option ℕ → Option ℕ → Bool
same_thread none none = true
same_thread none (some u) = false
same_thread (some t) none = false
same_thread (some t) (some u) = t == u

pub lock_do_i_hold : Lock → Threads → Bool
lock_do_i_hold l s = same_thread l.pointer s.curthread

-- The test of `lock_acquire`'s loop and what follows it: `none` while the lock is held.
pub lock_test : Option ℕ → Lock → Option Lock
lock_test cur l = if l.held == 0 then some (record { held = 1; pointer = cur }) else none

pub acquire_loop : Bool → List ℕ → ℕ → ℕ → Lock → Threads → Option (Outcome Lock)
acquire_loop mem interrupts addr spl l s = (elim (lock_test s.curthread l) [
  | some l' ↦ some (done l' (splx spl s))
  | none ↦ (thread_sleep mem interrupts addr s >>= λ s'. some (blocked l s'))
])

pub lock_acquire : Bool → List ℕ → ℕ → Lock → Threads → Option (Outcome Lock)
lock_acquire mem interrupts addr l s =
    assert (not (lock_do_i_hold l s)) >> acquire_loop mem interrupts addr s.curspl l (splhigh s)

pub acquire_resume : Bool → List ℕ → ℕ → ℕ → Lock → Threads → Option (Outcome Lock)
acquire_resume mem interrupts addr spl l s =
    thread_sleep_return s >>= λ s'. acquire_loop mem interrupts addr spl l s'

-- The lock that `lock_release` leaves, whoever holds it.
abbrev pub released : Lock → Lock
released l = record { held = 0; pointer = none }

pub lock_release : Bool → ℕ → Lock → Threads → Option (Lock × Threads)
lock_release mem addr l s =
    thread_wakeup mem addr (splhigh s) >>= λ s'. some (released l, splx s.curspl s')

-- `cv_wait` up to its `thread_sleep`.
pub cv_wait : Bool → List ℕ → ℕ → ℕ → Lock → Threads → Option (Lock × Threads)
cv_wait mem interrupts cv addr l s =
    assert (lock_do_i_hold l s)
    >> (lock_release mem addr l (splhigh s) >>= λ out.
        thread_sleep mem interrupts cv out.1 >>= λ s'. some (out.0, s'))

-- Its end, from the wakeup on: `lock_acquire`, and at last the level `spl`.
pub cv_wait_resume : Bool → List ℕ → ℕ → ℕ → Lock → Threads → Option (Outcome Lock)
cv_wait_resume mem interrupts addr spl l s = thread_sleep_return s >>= λ s'.
    assert (not (lock_do_i_hold l s')) >> acquire_loop mem interrupts addr spl l (splhigh s')

pub cv_signal : Bool → ℕ → Threads → Option Threads
cv_signal mem cv s = wakeup_single_thread mem cv (splhigh s) >>= λ s'. some (splx s.curspl s')

pub cv_broadcast : Bool → ℕ → Threads → Option Threads
cv_broadcast mem cv s = thread_wakeup mem cv (splhigh s) >>= λ s'. some (splx s.curspl s')
