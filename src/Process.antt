-- ===== src/Process.antt =====
-- The process table: main/process_create.c, the process calls of os161/kern/arch/mips/mips/syscall.c
-- and the first loop of thread_exit in thread/thread.c. A process structure is its entry of the
-- table; a call that would sleep for the process lock has no result here, as one whose assert fails.
pub mod Table
pub mod Reap
mod Tests
use harvard_os.Prelude.{
  ℕ, zero, suc, ◌+◌, ◌-◌, Bool, true, false, not, ◌&&◌, ◌||◌, Option, none, some, ltb, ◌==◌,
  if◌then◌else◌, ◌>>=◌, ◌>>◌, assert, update_at,
}
use harvard_os.Errno.{einval, efault, ebadf}
use harvard_os.Synch.{Lock, lock_test, released}

-- `PROCESS_RUNNING`, `PROCESS_STOP`, `MINPID` and `MAXPID` of include/thread.h
abbrev pub process_running : ℕ
process_running = 1

abbrev pub process_stop : ℕ
process_stop = 0

abbrev pub minpid : ℕ
minpid = 101

abbrev pub maxpid : ℕ
maxpid = 500

-- `struct process`, without its thread and its condition variable
pub record Process : Type 0 where
  pub status : ℕ
  pub exitcode : ℕ
  pub pid : ℕ
  pub ppid : ℕ

-- `array_table`
abbrev pub Table : Type 0
Table = ℕ → Option Process

-- The table and `process_lock`.
pub record Processes : Type 0 where
  pub table : Table
  pub lock : Lock

-- The loop of `next_pid` from `i` on; `none` for -1.
pub next_from : ℕ → ℕ → Table → Option ℕ
next_from zero i table = none
next_from (suc rounds) i table = elim (table i) [
  | none ↦ some i
  | some p ↦ next_from rounds (i + 1) table
]

pub next_pid : Table → Option ℕ
next_pid table = next_from (maxpid - minpid) minpid table

-- `get_process`, whose loop stops at `pid`.
pub get_process : Table → ℕ → Option Process
get_process table pid = if ltb maxpid pid || ltb pid minpid then none else table pid

-- `init_process` once the lock is there; `mem1` and `mem2` for kmalloc and cv_create. The first
-- part of a result is the pid, `none` for NULL.
pub init_process : Bool → Bool → Processes → Option ℕ × Processes
init_process mem1 mem2 s =
    if mem1 && mem2
    then (
      some minpid,
      record s {
        table = update_at s.table minpid (
            some
              (record { status = process_running; exitcode = 0; pid = minpid; ppid = minpid - 1 }));
      },
    )
    else (none, s)

-- `child_process` in thread `cur` of process `parent`. Where there is no pid left the source
-- returns with the lock.
pub child_process : Bool → Bool → ℕ → ℕ → Processes → Option (Option ℕ × Processes)
child_process mem1 mem2 cur parent s =
    if mem1 && mem2
    then (lock_test (some cur) s.lock >>= λ lock. (elim (next_pid s.table) [
      | none ↦ some (none, record s { lock = lock })
      | some pid ↦ some (
        some pid,
        record {
          table =
              update_at s.table pid (
                some (record { status = process_running; exitcode = 0; pid = pid; ppid = parent }));
          lock = released lock;
        },
      )
    ]))
    else some (none, s)

-- The loop of `thread_exit` from `i` on; `j` numbers are in `n`, which has room for 20.
pub reap_from : ℕ → ℕ → ℕ → ℕ → Table → Option Table
reap_from zero i j parent table = some table
reap_from (suc rounds) i j parent table = elim (table i) [
  | none ↦ reap_from rounds (i + 1) j parent table
  | some p ↦ (elim (p.ppid == parent && p.status == process_stop) [
    | false ↦ reap_from rounds (i + 1) j parent table
    | true ↦ assert (ltb j 20) >> reap_from rounds (i + 1) (j + 1) parent (update_at table i none)
  ])
]

-- `thread_exit` up to its `lock_release`.
pub reap_children : ℕ → Processes → Option Processes
reap_children parent s = do
  assert (not (ltb parent minpid) && not (ltb maxpid parent))
  table ← reap_from 400 minpid 0 parent s.table
  some (record { table = table; lock = released s.lock })

-- `sys__exit` of process `self` in thread `cur`, up to the end of its process: what the thread
-- system does then is `exit_switch`, and whom it wakes `cv_signal`.
pub sys_exit : ℕ → ℕ → ℕ → Processes → Option Processes
sys_exit cur self exitcode s = do
  p ← s.table self
  lock ← lock_test (some cur) s.lock
  reap_children self (record {
    table = update_at s.table self (some (record p { status = process_stop; exitcode = exitcode }));
    lock = lock;
  })

-- How `sys_waitpid` comes back: an error, asleep in `cv_wait`, or with the status and the pid.
pub data Waited : Type 0 where
  failed : ℕ → Waited
  asleep : Waited
  stopped : ℕ → ℕ → Waited

-- `sys_waitpid` of process `self` in thread `cur`; `status` tells whether the pointer is not NULL.
pub sys_waitpid : ℕ → ℕ → ℕ → Bool → ℕ → Processes → Option (Waited × Processes)
sys_waitpid cur self pid status options s =
    if not (options == 0)
    then some (failed einval, s)
    else if not status
    then some (failed efault, s)
    else (elim (get_process s.table pid) [
      | none ↦ some (failed efault, s)
      | some child ↦
          (lock_test (some cur) s.lock >>= λ lock.
          (if not (child.ppid == self)
            then some (failed einval, record s { lock = released lock })
            else if child.status == process_stop
            then some
                (stopped child.exitcode child.pid, record s { lock = released (released lock) })
            else some (asleep, record s { lock = released lock })))
    ])

-- The end of `sys_waitpid` after `cv_wait`, which comes back with the lock.
pub sys_waitpid_resume : ℕ → Processes → Option (Waited × Processes)
sys_waitpid_resume pid s = s.table pid >>= λ child.
    some (stopped child.exitcode child.pid, record s { lock = released (released s.lock) })

-- `sys_getpid` of the current thread's process
pub sys_getpid : ℕ → ℕ
sys_getpid self = self
