-- ===== src/Thread.antt =====
-- os161/kern/thread/thread.c: the sleepers, the zombies, the run queue and the switch between
-- threads. A thread is a number, and so is a sleep address (0 for NULL). `mem` says whether the
-- kmallocs of a call succeed. The magic number at the bottom of a thread's stack is not modelled.
pub mod Sleep
pub mod Context
mod Tests
use harvard_os.Prelude.{
  ℕ, zero, suc, ◌+◌, ◌-◌, Bool, true, false, not, ◌&&◌, Option, none, some, List, [], ◌∷◌, ◌++◌,
  ltb, leb, ◌==◌, if◌then◌else◌, ◌>>=◌, ◌>>◌, assert,
}
use harvard_os.Array.{
  Array, array_getnum, array_getguy, array_setsize, array_preallocate, array_add, array_remove,
}
use harvard_os.Scheduler.{
  RunQueue, scheduler_preallocate, scheduler_killall, scheduler, make_runnable,
}

-- The globals of thread.c and spl.c, `t_sleepaddr` of every thread, the threads that have been
-- freed by `thread_destroy`, and those with an address space still to be cleaned up.
pub record Threads : Type 0 where
  pub curthread : Option ℕ
  pub sleepers : Array ℕ
  pub zombies : Array ℕ
  pub runqueue : RunQueue
  pub sleepaddr : ℕ → ℕ
  pub numthreads : ℕ
  pub curspl : ℕ
  pub in_interrupt : Bool
  pub destroyed : List ℕ

abbrev pub spl_high : ℕ
spl_high = 15

-- `threadstate_t`, without the state that no call asks for
pub data NextState : Type 0 where
  ready sleep zomb : NextState

-- `t->t_sleepaddr = addr;`
abbrev pub update : (ℕ → ℕ) → ℕ → ℕ → ℕ → ℕ
update f t a u = if u == t then a else f u

-- A slot of an array that is used as a thread: no result for garbage.
abbrev pub guy_at : Array ℕ → ℕ → Option ℕ
guy_at a i = array_getguy a i >>= λ guy. guy

-- `make_runnable` with the assert on its result that each caller makes.
pub wake : Bool → Threads → ℕ → Option Threads
wake mem s t = do
  made ← make_runnable s.curspl mem s.runqueue t
  assert (made.0 == 0)
  some (record s { runqueue = made.1 })

-- `array_remove(sleepers, i); ... make_runnable(t);`
pub wake_at : Bool → Threads → ℕ → ℕ → Option Threads
wake_at mem s i t = do
  sleepers ← array_remove s.sleepers i
  wake mem (record s { sleepers = sleepers }) t

-- The loop of `thread_wakeup` from index `i` on. After a removal `i--` and `i++` cancel. Each
-- round passes a sleeper or removes one, so as many rounds as sleepers are enough.
pub wakeup_from : ℕ → Bool → ℕ → ℕ → Threads → Option Threads
wakeup_from zero mem addr i s = if ltb i (array_getnum s.sleepers) then none else some s
wakeup_from (suc rounds) mem addr i s =
    let rest : Option Threads =
      (guy_at s.sleepers i >>= λ t. (elim (s.sleepaddr t == addr) [
        | true ↦ (wake_at mem s i t >>= λ s'. wakeup_from rounds mem addr i s')
        | false ↦ wakeup_from rounds mem addr (i + 1) s
      ])) in
    if ltb i (array_getnum s.sleepers) then rest else some s

pub thread_wakeup : Bool → ℕ → Threads → Option Threads
thread_wakeup mem addr s =
    assert (ltb 0 s.curspl) >> wakeup_from (array_getnum s.sleepers) mem addr 0 s

-- The loop of `wakeup_single_thread`: it breaks at the first sleeper that it wakes.
pub single_from : ℕ → Bool → ℕ → ℕ → Threads → Option Threads
single_from zero mem addr i s = if ltb i (array_getnum s.sleepers) then none else some s
single_from (suc rounds) mem addr i s =
    let rest : Option Threads =
      (guy_at s.sleepers i >>= λ t. (elim (s.sleepaddr t == addr) [
        | true ↦ wake_at mem s i t
        | false ↦ single_from rounds mem addr (i + 1) s
      ])) in
    if ltb i (array_getnum s.sleepers) then rest else some s

pub wakeup_single_thread : Bool → ℕ → Threads → Option Threads
wakeup_single_thread mem addr s =
    assert (ltb 0 s.curspl) >> single_from (array_getnum s.sleepers) mem addr 0 s

-- The same loop once more in the source.
pub thread_single_wakeup : Bool → ℕ → Threads → Option Threads
thread_single_wakeup mem addr s =
    assert (ltb 0 s.curspl) >> single_from (array_getnum s.sleepers) mem addr 0 s

pub hassleepers_from : ℕ → ℕ → ℕ → Threads → Option Bool
hassleepers_from zero addr i s = if ltb i (array_getnum s.sleepers) then none else some false
hassleepers_from (suc rounds) addr i s =
    let rest : Option Bool =
      (guy_at s.sleepers i >>= λ t. (elim (s.sleepaddr t == addr) [
        | true ↦ some true
        | false ↦ hassleepers_from rounds addr (i + 1) s
      ])) in
    if ltb i (array_getnum s.sleepers) then rest else some false

pub thread_hassleepers : ℕ → Threads → Option Bool
thread_hassleepers addr s =
    assert (ltb 0 s.curspl) >> hassleepers_from (array_getnum s.sleepers) addr 0 s
