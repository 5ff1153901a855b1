-- ===== src/Process/Tests.antt =====
-- Instances of the theorems on the process table.
use harvard_os.Prelude.{ℕ, ◌≤◌, ◌<◌, ◌≡◌, ◌≢◌, ◌⊎◌, refl, true, none, some, arith, update_at}
use harvard_os.Process.{
  Process, Processes, process_running, get_process, child_process, sys_exit, stopped, sys_waitpid,
}
use harvard_os.Process.Table.{child_process_lem}
use harvard_os.Process.Reap.{stopped_children, sys_waitpid-sys_exit}

-- Process 101 has the children 102, which has stopped, and 103, which runs.
abbrev child : Process
child = record { status = 1; exitcode = 0; pid = 103; ppid = 101 }

abbrev family : Processes
family = record {
  table =
      update_at
        (update_at
          (update_at (λ k. none) 101
            (some (record { status = 1; exitcode = 0; pid = 101; ppid = 100 })))
          102 (some (record { status = 0; exitcode = 7; pid = 102; ppid = 101 })))
        103 (some child);
  lock = record { held = 0; pointer = none };
}

child_process_lem_example :
    (((k : ℕ) → 101 ≤ k → k < 500 → family.table k ≢ none)
      × ((s' : Processes) × (child_process true true 4 103 family ≡ some (none, s'))
          × (s'.lock.held ≡ 1)))
    ⊎ ((pid : ℕ) × (s' : Processes) × (child_process true true 4 103 family ≡ some (some pid, s'))
        × (101 ≤ pid)
        × (pid < 500)
        × (family.table pid ≡ none)
        × (get_process s'.table pid
            ≡ some (record { status = process_running; exitcode = 0; pid = pid; ppid = 103 }))
        × ((k : ℕ) → k ≢ pid → s'.table k ≡ family.table k)
        × (s'.lock.held ≡ 0))
child_process_lem_example = child_process_lem 4 103 family refl

one_stopped : stopped_children 400 101 101 family.table ≡ 1
unfolding stopped_children
one_stopped = refl

none_stopped :
    stopped_children 400 101 103
      (update_at family.table 103 (some (record child { status = 0; exitcode = 9 })))
    ≡ 0
unfolding stopped_children
none_stopped = refl

sys_waitpid-sys_exit_example :
    (s1 s2 : Processes) × (sys_exit 4 103 9 family ≡ some s1)
    × (sys_waitpid 5 101 103 true 0 s1 ≡ some (stopped 9 103, s2))
    × (s2.lock.held ≡ 0)
sys_waitpid-sys_exit_example =
    sys_waitpid-sys_exit 4 5 103 101 9 child family refl refl refl (λ h. omega (arith, h))
      (omega arith) (omega arith) refl (omega (arith, none_stopped))
