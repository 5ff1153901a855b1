-- ===== src/Synch/Wakes.antt =====
-- The primitives on the sleeping and the runnable threads.
use harvard_os.Prelude.{
  ℕ, ◌+◌, ◌-◌, ◌^◌, ◌<◌, ◌≡◌, refl, ap, ◌∙◌, Bool, true, false, not, none, some, List, [], ◌∷◌,
  ◌++◌, arith, ◌==◌, lt→ltb, ne→==, ==_iff, ◌>>=◌, assert-true, int_limit,
}
use harvard_os.Thread.{Threads, update}
use harvard_os.Thread.Sleep.{
  Rep, Frame, on, off, first, but_first, thread_wakeup_lem, wakeup_single_thread_lem,
}
use harvard_os.Thread.Context.Live.{Live, thread_sleep_lem}
use harvard_os.Synch.{
  blocked, done, splhigh, splx, Semaphore, sem_p, sem_p_loop, sem_v, Lock, lock_test, same_thread,
  lock_do_i_hold, lock_acquire, acquire_loop, lock_release, released, cv_signal,
}

-- `V` adds one to the count and wakes all that sleep on the semaphore, and nobody else; the
-- interrupt level is what it was.
pub sem_v_lem :
    (mem : Bool) (addr : ℕ) (sem : Semaphore) (s : Threads) (sleeping runnable : List ℕ)
    → Rep (splhigh s) sleeping runnable
    → sem.count + 1 < 2 ^ 31
    → (s' : Threads) × (sem_v mem addr sem s
        ≡ some (record { count = sem.count + 1 }, splx s.curspl s'))
      × Rep s' (off s addr sleeping) (runnable ++ on s addr sleeping)
      × Frame (splhigh s) s'
unfolding sem_v
sem_v_lem mem addr sem s sleeping runnable r small =
    let (s', e, r', f) = thread_wakeup_lem mem addr (splhigh s) sleeping runnable r in
    (s', rw (lt→ltb (sem.count + 1) int_limit small, ◌>>=◌, e), r', f)

sem_p-suc :
    (mem : Bool) (interrupts : List ℕ) (addr n : ℕ) (s : Threads)
    → s.in_interrupt ≡ false
    → sem_p mem interrupts addr (record { count = n + 1 }) s ≡ some (done (record { count = n }) s)
unfolding sem_p sem_p_loop
sem_p-suc mem interrupts addr n s calm =
    let left : n + 1 - 1 ≡ n = omega arith in
    assert-true (not s.in_interrupt) _ (ap not calm)
    ∙ rw (ne→== (n + 1) 0 (λ h. omega (arith, h)), left)

-- A `P` after a `V`, before any other thread runs, does not sleep and gives the count back.
pub sem_p-sem_v :
    (mem : Bool) (addr : ℕ) (sem : Semaphore) (s : Threads) (sleeping runnable : List ℕ)
    → Rep (splhigh s) sleeping runnable
    → sem.count + 1 < 2 ^ 31
    → s.in_interrupt ≡ false
    → (sem1 : Semaphore) × (s1 : Threads) × (sem_v mem addr sem s ≡ some (sem1, s1))
      × (sem_p mem [] addr sem1 s1 ≡ some (done sem s1))
sem_p-sem_v mem addr sem s sleeping runnable r small calm =
    let (s', e, r', f) = sem_v_lem mem addr sem s sleeping runnable r small in
    (
      record { count = sem.count + 1 },
      splx s.curspl s',
      e,
      sem_p-suc mem [] addr sem.count (splx s.curspl s') (f.in_interrupt ∙ calm),
    )

-- `P` on a count of 0 puts the current thread to sleep on the semaphore, and the first runnable
-- thread runs.
pub sem_p-blocks :
    (mem : Bool) (addr : ℕ) (s : Threads) (cur next : ℕ) (sleeping runnable dead : List ℕ)
    → Live (splhigh s) cur sleeping (next ∷ runnable) dead
    → s.in_interrupt ≡ false
    → (s' : Threads) × (sem_p mem [] addr (record { count = 0 }) s
        ≡ some (blocked (record { count = 0 }) s'))
      × Live s' next (sleeping ++ (cur ∷ [])) runnable dead
      × (s'.sleepaddr ≡ update s.sleepaddr cur addr)
unfolding sem_p sem_p_loop
sem_p-blocks mem addr s cur next sleeping runnable dead l calm =
    let (s', e, l', a) =
      thread_sleep_lem mem addr (splhigh s) cur next sleeping runnable dead l calm in
    (s', assert-true (not s.in_interrupt) _ (ap not calm) ∙ rw (e, ◌>>=◌), l', a)

-- `lock_release` frees the lock, whoever holds it, and wakes all that sleep on it, and nobody else.
pub lock_release_lem :
    (mem : Bool) (addr : ℕ) (l : Lock) (s : Threads) (sleeping runnable : List ℕ)
    → Rep (splhigh s) sleeping runnable
    → (s' : Threads) × (lock_release mem addr l s
        ≡ some (record { held = 0; pointer = none }, splx s.curspl s'))
      × Rep s' (off s addr sleeping) (runnable ++ on s addr sleeping)
      × Frame (splhigh s) s'
unfolding lock_release
lock_release_lem mem addr l s sleeping runnable r =
    let (s', e, r', f) = thread_wakeup_lem mem addr (splhigh s) sleeping runnable r in
    (s', rw (e, ◌>>=◌), r', f)

-- `cv_signal` wakes the thread that has waited the longest, if there is one, and nobody else.
pub cv_signal_lem :
    (mem : Bool) (cv : ℕ) (s : Threads) (sleeping runnable : List ℕ)
    → Rep (splhigh s) sleeping runnable
    → (s' : Threads) × (cv_signal mem cv s ≡ some (splx s.curspl s'))
      × Rep s'
          (but_first (λ t. s.sleepaddr t == cv) sleeping)
          (runnable ++ first (λ t. s.sleepaddr t == cv) sleeping)
      × Frame (splhigh s) s'
unfolding cv_signal
cv_signal_lem mem cv s sleeping runnable r =
    let (s', e, r', f) = wakeup_single_thread_lem mem cv (splhigh s) sleeping runnable r in
    (s', rw (e, ◌>>=◌), r', f)

-- A `lock_acquire` by the same thread after its `lock_release`, before any other thread runs, does
-- not sleep, and the thread holds the lock.
pub lock_acquire-lock_release :
    (mem : Bool) (addr cur : ℕ) (l : Lock) (s : Threads) (sleeping runnable : List ℕ)
    → Rep (splhigh s) sleeping runnable
    → s.curthread ≡ some cur
    → (l1 l2 : Lock) × (s1 : Threads) × (lock_release mem addr l s ≡ some (l1, s1))
      × (lock_acquire mem [] addr l1 s1 ≡ some (done l2 s1))
      × (l2.held ≡ 1)
      × (lock_do_i_hold l2 s1 ≡ true)
unfolding lock_acquire acquire_loop lock_test lock_do_i_hold
lock_acquire-lock_release mem addr cur l s sleeping runnable r here =
    let (s', e, r', f) = lock_release_lem mem addr l s sleeping runnable r in
    let now : s'.curthread ≡ some cur = f.curthread ∙ here in
    (
      released l,
      record { held = 1; pointer = some cur },
      splx s.curspl s',
      e,
      assert-true (not (same_thread none s'.curthread)) _ (ap (λ o. not (same_thread none o)) now)
          ∙ ap (λ o. some (done (record { held = 1; pointer = o }) (splx s.curspl s'))) now,
      refl,
      rw (now, (==_iff cur cur).1 refl),
    )
