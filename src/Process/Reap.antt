-- ===== src/Process/Reap.antt =====
-- thread_exit's loop over the table, and the exit code that waitpid then finds.
use harvard_os.Prelude.{
  ℕ, zero, suc, ◌+◌, ◌≤◌, ◌<◌, ◌≡◌, ◌≢◌, refl, sym, ap, ◌∙◌, inl, inr, Bool, true, false, ◌&&◌,
  Option, none, some, arith, ◌==◌, ==_iff, ne→==, lt→ltb, if◌then◌else◌, ◌>>=◌, Bool-cases,
  Option-cases, update_at, update_at_self, update_at_other, le→ltb,
}
use harvard_os.Synch.{released}
use harvard_os.Synch.Exclusion.{lock_test-free}
use harvard_os.Process.{
  Process, Table, Processes, process_stop, get_process, reap_from, reap_children, sys_exit, stopped,
  sys_waitpid,
}

abbrev is_reaped : ℕ → Process → Bool
is_reaped parent p = p.ppid == parent && p.status == process_stop

-- What is left of an entry: nothing of a stopped child of `parent`.
abbrev pub left : ℕ → Option Process → Option Process
left parent none = none
left parent (some p) = if is_reaped parent p then none else some p

-- How many entries from `i` on are stopped children of `parent`.
unfoldable pub stopped_children : ℕ → ℕ → ℕ → Table → ℕ
stopped_children zero i parent table = 0
stopped_children (suc rounds) i parent table =
    (elim (table i) [ none ↦ 0 | some p ↦ if is_reaped parent p then 1 else 0 ])
    + stopped_children rounds (i + 1) parent table

-- The table after the loop, against the one before it.
record Reaped (rounds i parent : ℕ) (table0 table table' : Table) : Type 0 where
  pub inside : (k : ℕ) → i ≤ k → k < i + rounds → table' k ≡ left parent (table0 k)
  pub before : (k : ℕ) → k < i → table' k ≡ table k

extend :
    (rounds i parent : ℕ) (table0 table table1 table' : Table)
    → Reaped rounds (i + 1) parent table0 table1 table'
    → table1 i ≡ left parent (table0 i)
    → ((k : ℕ) → k < i → table1 k ≡ table k)
    → Reaped (suc rounds) i parent table0 table table'
extend rounds i parent table0 table table1 table' r here same = record {
  inside = λ k low high. elim (Bool-cases (k == i)) [
    | inl now ↦
        let e = (==_iff k i).0 now in
        ap table' e ∙ r.before i (omega arith) ∙ here ∙ ap (λ j. left parent (table0 j)) (sym e)
    | inr later ↦ r.inside k (ground arith) (omega arith)
  ];
  before = λ k low. r.before k (omega arith) ∙ same k low;
}

reap_from_lem :
    (rounds i j parent : ℕ) (table0 table : Table)
    → ((k : ℕ) → i ≤ k → table k ≡ table0 k)
    → j + stopped_children rounds i parent table0 ≤ 20
    → (table' : Table) × (reap_from rounds i j parent table ≡ some table')
      × Reaped rounds i parent table0 table table'
unfolding reap_from stopped_children
reap_from_lem zero i j parent table0 table same few =
    (table, refl, record { inside = λ k low high. absurd (omega arith); before = λ k low. refl })
reap_from_lem (suc rounds) i j parent table0 table same few =
    let now = same i (omega arith) in
    elim (Option-cases (table0 i)) [
      | inl empty ↦
          let (table', e, r) =
            reap_from_lem rounds (i + 1) j parent table0 table (λ k low. same k (omega arith))
              (omega (arith, rw (stopped_children, empty) at few)) in
          (
            table',
            rw (reap_from, now ∙ empty) e,
            extend rounds i parent table0 table table table' r (rw empty (now ∙ empty))
                (λ k low. refl),
          )
      | inr (p, full) ↦ (elim (Bool-cases (is_reaped parent p)) [
        | inr kept ↦
            let (table', e, r) =
              reap_from_lem rounds (i + 1) j parent table0 table (λ k low. same k (omega arith))
                (omega (arith, rw (stopped_children, full, kept) at few)) in
            (
              table',
              rw (reap_from, now ∙ full, kept) e,
              extend rounds i parent table0 table table table' r (rw (full, kept) (now ∙ full))
                  (λ k low. refl),
            )
        | inl gone ↦
            let room = rw (stopped_children, full, gone) at few in
            let (table', e, r) =
              reap_from_lem rounds (i + 1) (j + 1) parent table0 (update_at table i none)
                (λ k low.
                  update_at_other table i k none (λ h. omega (arith, h, low))
                  ∙ same k (omega arith))
                (omega (arith, room)) in
            (
              table',
              rw (reap_from, now ∙ full, gone, lt→ltb j 20 (omega (arith, room))) e,
              extend rounds i parent table0 table (update_at table i none) table' r
                  (rw (full, gone) (update_at_self table i none))
                  (λ k low. update_at_other table i k none (λ h. omega (arith, h, low))),
            )
      ])
    ]

-- If at most 20 children of the process have stopped, the loop of `thread_exit` ends, within its
-- array: those children are gone, every other process with a pid from 101 to 500 stays, and the
-- lock is free.
pub reap_children_lem :
    (parent : ℕ) (s : Processes)
    → 101 ≤ parent
    → parent ≤ 500
    → stopped_children 400 101 parent s.table ≤ 20
    → (s' : Processes) × (reap_children parent s ≡ some s')
      × ((k : ℕ) → 101 ≤ k → k ≤ 500 → s'.table k ≡ left parent (s.table k))
      × (s'.lock.held ≡ 0)
unfolding reap_children
reap_children_lem parent s low high few =
    let (table', e, r) =
      reap_from_lem 400 101 0 parent s.table s.table (λ k h. refl) (omega (arith, few)) in
    (
      record { table = table'; lock = released s.lock },
      rw (le→ltb parent 101 low, le→ltb 500 parent high, e, ◌>>=◌),
      (λ k l h. r.inside k l (omega arith)),
      refl,
    )

-- The parent's `waitpid` after the child's `_exit` does not sleep and gives the exit code and the
-- pid, if at most 20 children of the child have stopped and nobody has the lock.
pub sys_waitpid-sys_exit :
    (cur waiter self parent code : ℕ) (p : Process) (s : Processes)
    → s.table self ≡ some p
    → p.pid ≡ self
    → p.ppid ≡ parent
    → self ≢ parent
    → 101 ≤ self
    → self ≤ 500
    → s.lock.held ≡ 0
    → stopped_children 400 101 self
        (update_at s.table self (some (record p { status = process_stop; exitcode = code })))
      ≤ 20
    → (s1 s2 : Processes) × (sys_exit cur self code s ≡ some s1)
      × (sys_waitpid waiter parent self true 0 s1 ≡ some (stopped code self, s2))
      × (s2.lock.held ≡ 0)
unfolding sys_exit sys_waitpid get_process
sys_waitpid-sys_exit cur waiter self parent code p s has named child apart low high free few =
    let dead : Process = record p { status = process_stop; exitcode = code } in
    let s0 : Processes = record {
      table = update_at s.table self (some dead);
      lock = record { held = 1; pointer = some cur };
    } in
    let (s1, e, entries, unlocked) = reap_children_lem self s0 low high few in
    let other : (p.ppid == self) ≡ false = ne→== p.ppid self (λ h. apart (sym h ∙ child)) in
    let kept : left self (some dead) ≡ some dead = rw other in
    let there : s1.table self ≡ some dead =
      entries self low high ∙ ap (left self) (update_at_self s.table self (some dead)) ∙ kept in
    let mine : (p.ppid == parent) ≡ true = (==_iff p.ppid parent).1 child in
    (
      s1,
      record s1 { lock = record { held = 0; pointer = none } },
      rw (has, ◌>>=◌, lock_test-free (some cur) s.lock free, e),
      rw (
        le→ltb 500 self high,
        le→ltb self 101 low,
        there,
        lock_test-free (some waiter) s1.lock unlocked,
        ◌>>=◌,
        mine,
        ← named,
      ),
      refl,
    )
