-- ===== src/Process/Table.antt =====
-- next_pid and child_process: which pids are in use.
use harvard_os.Prelude.{
  ℕ, zero, suc, ◌+◌, ◌≤◌, ◌<◌, ◌≡◌, ◌≢◌, refl, sym, ap, ◌∙◌, ◌⊎◌, inl, inr, true, none, some, arith,
  ◌==◌, ==_iff, ◌>>=◌, Bool-cases, Option-cases, update_at, update_at_self, update_at_other, le→ltb,
}
use harvard_os.Synch.Exclusion.{lock_test-free}
use harvard_os.Process.{
  Process, Table, Processes, process_running, next_from, next_pid, get_process, child_process,
}

-- Every pid of the range has a process.
taken_from :
    (table : Table) (i k : ℕ) (p : Process)
    → table i ≡ some p
    → i ≤ k
    → (i + 1 ≤ k → table k ≢ none)
    → table k ≢ none
taken_from table i k p full low rest e = elim (Bool-cases (k == i)) [
  | inl same ↦ let here : table i ≡ none = ap table (sym ((==_iff k i).0 same)) ∙ e in cc
  | inr apart ↦ rest (ground arith) e
]

next_from_lem :
    (rounds i : ℕ) (table : Table)
    → ((next_from rounds i table ≡ none) × ((k : ℕ) → i ≤ k → k < i + rounds → table k ≢ none))
      ⊎ ((pid : ℕ) × (next_from rounds i table ≡ some pid)
          × (i ≤ pid)
          × (pid < i + rounds)
          × (table pid ≡ none))
unfolding next_from
next_from_lem zero i table = inl (refl, λ k low high. absurd (omega arith))
next_from_lem (suc rounds) i table = elim (Option-cases (table i)) [
  | inl empty ↦ inr (i, rw (next_from, empty), omega arith, omega arith, empty)
  | inr (p, full) ↦ (elim (next_from_lem rounds (i + 1) table) [
    | inl (missed, all) ↦ inl (
      rw (next_from, full, missed),
      λ k low high. taken_from table i k p full low (λ more. all k more (omega arith)),
    )
    | inr (pid, found, low, high, free) ↦
        inr (pid, rw (next_from, full, found), omega arith, omega arith, free)
  ])
]

-- With the process lock free and memory there, `child_process` gives the child a pid of its own
-- from 101 to 499, where `get_process` finds it with its parent's pid, leaves the other processes alone and frees the
-- lock; or all these pids are in use, it fails, and the lock stays taken.
pub child_process_lem :
    (cur parent : ℕ) (s : Processes)
    → s.lock.held ≡ 0
    → (((k : ℕ) → 101 ≤ k → k < 500 → s.table k ≢ none)
        × ((s' : Processes) × (child_process true true cur parent s ≡ some (none, s'))
            × (s'.lock.held ≡ 1)))
      ⊎ ((pid : ℕ) × (s' : Processes) × (child_process true true cur parent s ≡ some (some pid, s'))
          × (101 ≤ pid)
          × (pid < 500)
          × (s.table pid ≡ none)
          × (get_process s'.table pid
              ≡ some (record { status = process_running; exitcode = 0; pid = pid; ppid = parent }))
          × ((k : ℕ) → k ≢ pid → s'.table k ≡ s.table k)
          × (s'.lock.held ≡ 0))
unfolding child_process next_pid get_process
child_process_lem cur parent s free =
    let tested = lock_test-free (some cur) s.lock free in
    elim (next_from_lem 399 101 s.table) [
      | inl (missed, all) ↦ inl (
        (λ k low high. all k low (omega arith)),
        (
          record s { lock = record { held = 1; pointer = some cur } },
          rw (tested, ◌>>=◌, missed),
          refl,
        ),
      )
      | inr (pid, found, low, high, unused) ↦
          let new : Process = record {
            status = process_running;
            exitcode = 0;
            pid = pid;
            ppid = parent;
          } in
          inr (
            pid,
            record {
              table = update_at s.table pid (some new);
              lock = record { held = 0; pointer = none };
            },
            rw (tested, ◌>>=◌, found),
            low,
            omega (arith, high),
            unused,
            rw (le→ltb 500 pid (omega arith), le→ltb pid 101 low)
                (update_at_self s.table pid (some new)),
            (λ k apart. update_at_other s.table pid k (some new) apart),
            refl,
          )
    ]
