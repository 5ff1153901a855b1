-- ===== src/Synch/Wait.antt =====
-- cv_wait of os161/kern/thread/synch.c, up to its sleep.
use harvard_os.Prelude.{
  ℕ, ◌+◌, ◌≡◌, refl, sym, ap, ◌∙◌, subst, inl, inr, Bool, true, false, none, some, List, [], ◌∷◌,
  ◌++◌, arith, ◌==◌, ==_iff, length, length-append, Bool-cases, ◌>>=◌, assert-true,
}
use harvard_os.Thread.{Threads, update}
use harvard_os.Thread.Sleep.{Holds, Rep, Frame, on, off}
use harvard_os.Thread.Context.Live.{Live, thread_sleep_lem}
use harvard_os.Synch.{splhigh, Lock, lock_do_i_hold, same_thread, cv_wait}
use harvard_os.Synch.Wakes.{lock_release_lem}

length-off :
    (s : Threads) (addr : ℕ) (ts : List ℕ)
    → length (off s addr ts) + length (on s addr ts) ≡ length ts
length-off s addr [] = omega arith
length-off s addr (t ∷ ts) = elim (Bool-cases (s.sleepaddr t == addr)) [
  | inl hit ↦ rw hit (omega (arith, length-off s addr ts))
  | inr miss ↦ rw miss (omega (arith, length-off s addr ts))
]

Live-Rep :
    (s : Threads) (cur : ℕ) (sleeping runnable dead : List ℕ)
    → Live s cur sleeping runnable dead
    → Rep s sleeping runnable
Live-Rep s cur sleeping runnable dead l = record {
  high = l.high;
  asleep = l.asleep;
  queued = l.queued;
  room = omega (arith, l.counted, l.run_room);
}

-- A wakeup keeps every thread.
Live-woken :
    (s s1 : Threads) (addr cur next : ℕ) (sleeping runnable rest dead : List ℕ)
    → Live s cur sleeping runnable dead
    → Rep s1 (off s addr sleeping) (runnable ++ on s addr sleeping)
    → Frame s s1
    → runnable ++ on s addr sleeping ≡ next ∷ rest
    → Live s1 cur (off s addr sleeping) (next ∷ rest) dead
Live-woken s s1 addr cur next sleeping runnable rest dead l r f order =
    let now = rw order at r in
    record {
      high = r.high;
      current = f.curthread ∙ l.current;
      asleep = r.asleep;
      queued = now.queued;
      buried = subst (λ a. Holds a dead) (sym f.zombies) l.buried;
      counted = omega (
        arith,
        f.numthreads,
        l.counted,
        length-off s addr sleeping,
        length-append runnable (on s addr sleeping),
        ap length order,
      );
      sleep_room = omega (arith, f.numthreads, f.sleepers_max, l.sleep_room);
      run_room = omega (arith, f.numthreads, f.runqueue_size, l.run_room);
      few = omega (arith, f.numthreads, l.few);
    }

Live-splhigh :
    (s : Threads) (cur : ℕ) (sleeping runnable dead : List ℕ)
    → Live s cur sleeping runnable dead
    → Live (splhigh s) cur sleeping runnable dead
Live-splhigh s cur sleeping runnable dead l = record {
  high = omega arith;
  current = l.current;
  asleep = l.asleep;
  queued = l.queued;
  buried = l.buried;
  counted = l.counted;
  sleep_room = l.sleep_room;
  run_room = l.run_room;
  few = l.few;
}

-- `cv_wait` by the thread that has the lock frees it, makes all that sleep on it runnable, puts the
-- thread to sleep on the condition variable behind the other sleepers, and runs the first runnable
-- one: no wakeup comes between the release and the sleep. Nobody else moves.
pub cv_wait_lem :
    (mem : Bool) (cv addr : ℕ) (l : Lock) (s : Threads) (cur next : ℕ)
    (sleeping runnable rest dead : List ℕ)
    → Live (splhigh s) cur sleeping runnable dead
    → l.pointer ≡ some cur
    → s.in_interrupt ≡ false
    → runnable ++ on s addr sleeping ≡ next ∷ rest
    → (s' : Threads) × (cv_wait mem [] cv addr l s ≡ some (record { held = 0; pointer = none }, s'))
      × Live s' next (off s addr sleeping ++ (cur ∷ [])) rest dead
      × (s'.sleepaddr ≡ update s.sleepaddr cur cv)
unfolding cv_wait lock_do_i_hold
cv_wait_lem mem cv addr l s cur next sleeping runnable rest dead live mine calm order =
    let high = splhigh s in
    let (s1, e, r, f) =
      lock_release_lem mem addr l high sleeping runnable
        (Live-Rep high cur sleeping runnable dead live) in
    let woken = Live-woken high s1 addr cur next sleeping runnable rest dead live r f order in
    let ready = Live-splhigh s1 cur (off s addr sleeping) (next ∷ rest) dead woken in
    let (s', e', live', a) =
      thread_sleep_lem mem cv (splhigh s1) cur next (off s addr sleeping) rest dead ready
        (f.in_interrupt ∙ calm) in
    let holds : same_thread l.pointer s.curthread ≡ true =
      ap (λ o. same_thread o s.curthread) mine
      ∙ ap (same_thread (some cur)) live.current
      ∙ (==_iff cur cur).1 refl in
    (
      s',
      assert-true (same_thread l.pointer s.curthread) _ holds ∙ rw (e, ◌>>=◌, e'),
      live',
      a ∙ ap (λ g. update g cur cv) f.sleepaddr,
    )
