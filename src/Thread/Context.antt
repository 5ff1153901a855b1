-- ===== src/Thread/Context.antt =====
-- The rest of thread.c: the context switch and its callers, the zombies, and thread creation.
-- A call that switches away is modelled up to the switch; what it does when its thread runs again
-- is a function of its own.
pub mod Live
pub mod Fork
use harvard_os.Prelude.{
  ℕ, zero, suc, ◌+◌, ◌-◌, Bool, true, false, not, Option, none, some, List, [], ◌∷◌, ltb, ◌==◌,
  if◌then◌else◌, ◌>>=◌, ◌>>◌, assert,
}
use harvard_os.Array.{Array, array_getnum, array_setsize, array_preallocate, array_add}
use harvard_os.Queue.{q_empty}
use harvard_os.Scheduler.{
  RunQueue, scheduler_preallocate, scheduler_killall, scheduler, make_runnable,
}
use harvard_os.Thread.{
  Threads, NextState, ready, sleep, zomb, spl_high, update, guy_at, wake, thread_wakeup,
}

abbrev is_current : Option ℕ → ℕ → Bool
is_current none t = false
is_current (some cur) t = cur == t

-- `thread_destroy`, which must not free the current thread. Its asserts on `t_vmspace` and `t_cwd`
-- are not modelled.
pub thread_destroy : Threads → ℕ → Option Threads
thread_destroy s z =
    assert (not (is_current s.curthread z)) >> some (record s { destroyed = z ∷ s.destroyed })

-- The loop of `exorcise`.
pub destroy_from : ℕ → ℕ → Threads → Option Threads
destroy_from zero i s = if ltb i (array_getnum s.zombies) then none else some s
destroy_from (suc rounds) i s =
    let rest : Option Threads =
      (guy_at s.zombies i >>= λ z.
      assert (not (is_current s.curthread z))
      >> (thread_destroy s z >>= λ s'. destroy_from rounds (i + 1) s')) in
    if ltb i (array_getnum s.zombies) then rest else some s

pub exorcise : Threads → Option Threads
exorcise s = do
  assert (ltb 0 s.curspl)
  s' ← destroy_from (array_getnum s.zombies) 0 s
  sized ← array_setsize false s'.zombies 0
  assert (sized.0 == 0)
  some (record s' { zombies = sized.1 })

-- `thread_killall` drops the sleepers.
pub thread_killall : Threads → Option Threads
thread_killall s = do
  assert (ltb 0 s.curspl)
  sized ← array_setsize false s.sleepers 0
  assert (sized.0 == 0)
  some (record s { sleepers = sized.1 })

pub thread_panic : Threads → Option Threads
thread_panic s = do
  assert (ltb 0 s.curspl)
  s' ← thread_killall s
  dropped ← scheduler_killall s'.curspl s'.runqueue
  some (record s' { runqueue = dropped.1 })

-- The part of `mi_switch` that puts the current thread on the list of its next state.
pub stash : Bool → NextState → ℕ → Threads → Option Threads
stash mem ready cur s = wake mem s cur
stash mem sleep cur s = do
  added ← array_add mem s.sleepers cur
  assert (added.0 == 0)
  some (record s { sleepers = added.1 })
stash mem zomb cur s = do
  added ← array_add mem s.zombies cur
  assert (added.0 == 0)
  some (record s { zombies = added.1 })

-- The idle loop of `scheduler`, over the whole state: each interrupt wakes the sleepers on an
-- address. The list says on which, in order.
pub idle : Bool → List ℕ → Threads → Option Threads
idle mem [] s = some s
idle mem (addr ∷ later) s =
    let rest = (thread_wakeup mem addr s >>= λ s'. idle mem later s') in
    if q_empty s.runqueue then rest else some s

-- `mi_switch` up to `md_switch`, with the next thread current.
pub mi_switch : Bool → List ℕ → NextState → Threads → Option Threads
mi_switch mem interrupts nextstate s = assert (ltb 0 s.curspl) >> (elim s.curthread [
  | none ↦ some s
  | some cur ↦
      (stash mem nextstate cur (record s { curthread = none }) >>= λ s1.
      idle mem interrupts s1 >>= λ s2. scheduler s2.curspl mem [] s2.runqueue >>= λ next.
      some (record s2 { curthread = some next.0; runqueue = next.1 }))
])

-- `thread_yield` up to the switch; `sleepers` is never NULL here.
pub thread_yield : Bool → List ℕ → Threads → Option Threads
thread_yield mem interrupts s = mi_switch mem interrupts ready (record s { curspl = spl_high })

-- `thread_sleep` up to the switch, and its end.
pub thread_sleep : Bool → List ℕ → ℕ → Threads → Option Threads
thread_sleep mem interrupts addr s = do
  assert (not s.in_interrupt)
  cur ← s.curthread
  mi_switch mem interrupts sleep (record s { sleepaddr = update s.sleepaddr cur addr })

pub thread_sleep_return : Threads → Option Threads
thread_sleep_return s = do
  cur ← s.curthread
  some (record s { sleepaddr = update s.sleepaddr cur 0 })

-- `thread_exit` from `splhigh()` on, the address space and the directory apart.
pub exit_switch : Bool → List ℕ → Threads → Option Threads
exit_switch mem interrupts s = do
  assert (ltb 0 s.numthreads)
  mi_switch mem interrupts zomb (record s { curspl = spl_high; numthreads = s.numthreads - 1 })

-- One `array_preallocate` of `thread_fork`, on the table that `put` writes back.
abbrev prealloc : Bool → Array ℕ → ℕ → (Array ℕ → Threads) → Option (ℕ × Threads)
prealloc mem a n put = array_preallocate mem a n >>= λ done. some (done.0, put done.1)

-- A step of `thread_fork` runs if the one before it returned zero.
abbrev and_then : Option (ℕ × Threads) → (Threads → Option (ℕ × Threads)) → Option (ℕ × Threads)
and_then m next = m >>= λ done. if done.0 == 0 then next done.1 else some done

-- The atomic part of `thread_fork`, from `splhigh()` to `splx(s)`, for a thread `newguy` that is
-- ready but for that. On a failure the tables that have grown stay as they are.
pub fork_tables : Bool → Bool → Bool → Bool → ℕ → Threads → Option (ℕ × Threads)
fork_tables mem1 mem2 mem3 mem4 newguy s =
    and_then (prealloc mem1 s.sleepers (s.numthreads + 1) (λ a. record s { sleepers = a })) λ s1.
      and_then (prealloc mem2 s1.zombies (s1.numthreads + 1) (λ a. record s1 { zombies = a })) λ s2.
        and_then
          (scheduler_preallocate s2.curspl mem3 s2.runqueue (s2.numthreads + 1) >>= λ done.
            some (done.0, record s2 { runqueue = done.1 }))
          λ s3.
            and_then
              (make_runnable s3.curspl mem4 s3.runqueue newguy >>= λ done.
                some (done.0, record s3 { runqueue = done.1 }))
              λ s4. some (0, record s4 { numthreads = s4.numthreads + 1 })

pub thread_fork : Bool → Bool → Bool → Bool → ℕ → Threads → Option (ℕ × Threads)
thread_fork mem1 mem2 mem3 mem4 newguy s =
    fork_tables mem1 mem2 mem3 mem4 newguy (record s { curspl = spl_high }) >>= λ done.
    some (done.0, record done.1 { curspl = s.curspl })
