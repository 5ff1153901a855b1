-- ===== src/Scheduler.antt =====
-- os161/kern/thread/scheduler.c: the round-robin run queue. A thread is named by a number.
-- `curspl` is the interrupt level that the asserts read; `mem` says whether a kmalloc succeeds.
pub mod RoundRobin
mod Tests
use harvard_os.Prelude.{
  ℕ, zero, suc, ◌+◌, ◌%◌, Bool, true, false, not, Option, none, some, List, [], ◌∷◌, ltb, ◌==◌,
  if◌then◌else◌, ◌>>=◌, ◌>>◌, assert,
}
use harvard_os.Queue.{
  Queue, q_create, q_empty, q_addtail, q_preallocate, q_remhead, q_getstart, q_getend, q_getsize,
  q_getguy,
}

-- A pointer that was read out of the run queue is used as a thread: no result for garbage.
abbrev pub RunQueue : Type 0
RunQueue = Queue ℕ

-- Out of memory is a panic here.
pub scheduler_bootstrap : Bool → Option RunQueue
scheduler_bootstrap mem = q_create mem 32

pub scheduler_preallocate : ℕ → Bool → RunQueue → ℕ → Option (ℕ × RunQueue)
scheduler_preallocate curspl mem runqueue nthreads = do
  assert (ltb 0 curspl)
  q_preallocate mem runqueue nthreads

-- The loop of `scheduler_killall`: the dropped threads in order, and the queue that is left. As
-- many rounds as the ring has slots are enough.
pub drop_all : ℕ → RunQueue → Option (List ℕ × RunQueue)
drop_all zero q = if q_empty q then some ([], q) else none
drop_all (suc rounds) q =
    let rest : Option (List ℕ × RunQueue) =
      (q_remhead q >>= λ out.
      out.0 >>= λ t. drop_all rounds out.1 >>= λ dropped. some (t ∷ dropped.0, dropped.1)) in
    if q_empty q then some ([], q) else rest

pub scheduler_killall : ℕ → RunQueue → Option (List ℕ × RunQueue)
scheduler_killall curspl q = assert (ltb 0 curspl) >> drop_all (q_getsize q) q

pub make_runnable : ℕ → Bool → RunQueue → ℕ → Option (ℕ × RunQueue)
make_runnable curspl mem q t = assert (ltb 0 curspl) >> q_addtail mem q (some t)

-- What the interrupt handlers of one `cpu_idle` make runnable, in order.
pub interrupt : ℕ → Bool → RunQueue → List ℕ → Option RunQueue
interrupt curspl mem q [] = some q
interrupt curspl mem q (t ∷ ts) = do
  made ← make_runnable curspl mem q t
  assert (made.0 == 0)
  interrupt curspl mem made.1 ts

-- `scheduler`: idle until the queue holds a thread, and take the first. The list says what the
-- interrupts of each round bring; where it ends on an empty queue the source waits on, and there
-- is no result.
pub scheduler : ℕ → Bool → List (List ℕ) → RunQueue → Option (ℕ × RunQueue)
scheduler curspl mem [] q =
    assert (ltb 0 curspl)
    >> (if q_empty q then none else (q_remhead q >>= λ out. out.0 >>= λ t. some (t, out.1)))
scheduler curspl mem (woken ∷ later) q =
    let rest = (interrupt curspl mem q woken >>= λ q'. scheduler curspl mem later q') in
    assert (ltb 0 curspl)
    >> (if q_empty q then rest else (q_remhead q >>= λ out. out.0 >>= λ t. some (t, out.1)))

-- The loop of `print_run_queue`: the threads that it prints.
pub walk : ℕ → ℕ → RunQueue → Option (List ℕ)
walk zero i q = if i == q_getend q then some [] else none
walk (suc rounds) i q =
    let rest : Option (List ℕ) =
      (q_getguy q i >>= λ guy.
      guy >>= λ t. walk rounds ((i + 1) % q_getsize q) q >>= λ ts. some (t ∷ ts)) in
    if i == q_getend q then some [] else rest

pub print_run_queue : RunQueue → Option (List ℕ)
print_run_queue q = walk (q_getsize q) (q_getstart q) q
