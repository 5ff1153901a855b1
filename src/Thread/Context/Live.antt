-- ===== src/Thread/Context/Live.antt =====
-- What the switch, `thread_sleep`, `thread_yield`, `thread_exit` and
-- `thread_fork` do to the sleeping, the runnable and the dead threads.
use harvard_os.Prelude.{
  ℕ, suc, ◌+◌, ◌-◌, ◌^◌, ◌≤◌, ◌<◌, ◌≡◌, refl, sym, ap, ◌∙◌, Bool, false, not, none, some, List, [],
  ◌∷◌, ◌++◌, arith, lt→ltb, length, length-append, inr, ◌>>=◌, assert-true,
}
use mathlib.Core.List.{map-append}
use harvard_os.Array.{Array, array_add}
use harvard_os.Array.Edit.{array_add_lem}
use harvard_os.Scheduler.RoundRobin.{
  Shows, make_runnable-Shows, make_runnable-short, scheduler_first,
}
use harvard_os.Thread.{Threads, spl_high, update, wake}
use harvard_os.Thread.Sleep.{Holds, num-Holds}
use harvard_os.Thread.Context.{mi_switch, stash, idle, thread_sleep, thread_yield, exit_switch}

-- The current thread, the sleeping, the runnable and the dead ones, with the tables big enough for
-- as many threads as there are.
pub record Live (s : Threads) (cur : ℕ) (sleeping runnable dead : List ℕ) : Type 0 where
  pub high : 0 < s.curspl
  pub current : s.curthread ≡ some cur
  pub asleep : Holds s.sleepers sleeping
  pub queued : Shows s.runqueue runnable
  pub buried : Holds s.zombies dead
  pub counted : s.numthreads ≡ suc (length sleeping + length runnable)
  pub sleep_room : s.numthreads ≤ s.sleepers.max
  pub run_room : s.numthreads ≤ s.runqueue.size
  pub few : s.numthreads + 1 < 2 ^ 29

-- A table with a free slot takes a thread at its end, and needs no memory.
array_add-Holds :
    (mem : Bool) (a : Array ℕ) (ts : List ℕ) (t : ℕ)
    → Holds a ts
    → length ts + 1 ≤ a.max
    → length ts + 1 < 2 ^ 29
    → (b : Array ℕ) × (array_add mem a t ≡ some (0, b)) × Holds b (ts ++ (t ∷ [])) × (a.max ≤ b.max)
array_add-Holds mem a ts t h room few =
    let n = num-Holds a ts h in
    let (b, e, v, c, m) =
      array_add_lem mem a t h.valid (omega (arith, n)) (inr (omega (arith, n))) in
    (
      b,
      e,
      record {
        valid = v;
        guys = c ∙ ap (λ l. l ++ (some t ∷ [])) h.guys ∙ sym (map-append some ts (t ∷ []));
      },
      m,
    )

idle-nil : (mem : Bool) (s : Threads) → idle mem [] s ≡ some s
unfolding idle
idle-nil mem s = refl

-- `thread_sleep` puts the current thread to sleep on the address, behind the other sleepers, and
-- the first runnable thread runs; nobody else moves. It needs no memory.
pub thread_sleep_lem :
    (mem : Bool) (addr : ℕ) (s : Threads) (cur next : ℕ) (sleeping runnable dead : List ℕ)
    → Live s cur sleeping (next ∷ runnable) dead
    → s.in_interrupt ≡ false
    → (s' : Threads) × (thread_sleep mem [] addr s ≡ some s')
      × Live s' next (sleeping ++ (cur ∷ [])) runnable dead
      × (s'.sleepaddr ≡ update s.sleepaddr cur addr)
unfolding thread_sleep mi_switch stash
thread_sleep_lem mem addr s cur next sleeping runnable dead l calm =
    let (b, eb, h, m) =
      array_add-Holds mem s.sleepers sleeping cur l.asleep (omega (arith, l.counted, l.sleep_room))
        (omega (arith, l.counted, l.few)) in
    let (q, eq, sh, z) = scheduler_first s.curspl mem [] s.runqueue next runnable l.high l.queued in
    let added = length-append sleeping (cur ∷ []) in
    (
      record s {
        curthread = some next;
        sleepers = b;
        runqueue = q;
        sleepaddr = update s.sleepaddr cur addr;
      },
      assert-true (not s.in_interrupt) _ (ap not calm)
          ∙ rw (l.current, ◌>>=◌, lt→ltb 0 s.curspl l.high, eb, idle-nil, eq),
      record {
        high = l.high;
        current = refl;
        asleep = h;
        queued = sh;
        buried = l.buried;
        counted = omega (arith, l.counted, added);
        sleep_room = omega (arith, l.sleep_room);
        run_room = omega (arith, l.run_room, z);
        few = l.few;
      },
      refl,
    )

-- `thread_yield` puts the current thread behind the other runnable ones, and the first runs, itself
-- if there is no other. It needs no memory while the ring has a slot for every thread to spare.
pub thread_yield_lem :
    (mem : Bool) (s : Threads) (cur next : ℕ) (sleeping runnable rest dead : List ℕ)
    → Live s cur sleeping runnable dead
    → s.numthreads < s.runqueue.size
    → runnable ++ (cur ∷ []) ≡ next ∷ rest
    → (s' : Threads) × (thread_yield mem [] s ≡ some s') × Live s' next sleeping rest dead
unfolding thread_yield mi_switch stash wake
thread_yield_lem mem s cur next sleeping runnable rest dead l room order =
    let (q, eq, sh, z) =
      make_runnable-Shows spl_high mem s.runqueue cur runnable (omega arith) l.queued
        (omega (arith, l.counted)) in
    let (q2, e2, sh2, z2) =
      scheduler_first spl_high mem [] q next rest (omega arith) (rw order at sh) in
    (
      record s { curspl = spl_high; curthread = some next; runqueue = q2 },
      rw (l.current, ◌>>=◌, eq, idle-nil, e2),
      record {
        high = omega arith;
        current = refl;
        asleep = l.asleep;
        queued = sh2;
        buried = l.buried;
        counted = omega (arith, l.counted, ap length order, length-append runnable (cur ∷ []));
        sleep_room = l.sleep_room;
        run_room = omega (arith, l.run_room, z, z2);
        few = l.few;
      },
    )

-- With exactly as many slots as threads, all of them runnable, and no memory, `thread_yield` fails
-- the assert on `make_runnable` that thread_fork's preallocation is there to keep.
pub thread_yield_short :
    (s : Threads) (cur : ℕ) (runnable dead : List ℕ)
    → Live s cur [] runnable dead
    → s.numthreads ≡ s.runqueue.size
    → thread_yield false [] s ≡ none
unfolding thread_yield mi_switch stash wake
thread_yield_short s cur runnable dead l short = rw (
  l.current,
  ◌>>=◌,
  make_runnable-short spl_high s.runqueue cur runnable (omega arith) l.queued
      (omega (arith, l.counted, short)) (omega (arith, l.few, short)),
)

-- `thread_exit` puts the current thread on the zombie list, and the first runnable thread runs.
pub exit_switch_lem :
    (mem : Bool) (s : Threads) (cur next : ℕ) (sleeping runnable dead : List ℕ)
    → Live s cur sleeping (next ∷ runnable) dead
    → length dead < s.zombies.max
    → length dead + 1 < 2 ^ 29
    → (s' : Threads) × (exit_switch mem [] s ≡ some s')
      × Live s' next sleeping runnable (dead ++ (cur ∷ []))
      × (s'.numthreads + 1 ≡ s.numthreads)
unfolding exit_switch mi_switch stash
exit_switch_lem mem s cur next sleeping runnable dead l room few =
    let (b, eb, h, m) = array_add-Holds mem s.zombies dead cur l.buried (omega arith) few in
    let (q, eq, sh, z) =
      scheduler_first spl_high mem [] s.runqueue next runnable (omega arith) l.queued in
    (
      record s {
        curspl = spl_high;
        numthreads = s.numthreads - 1;
        curthread = some next;
        zombies = b;
        runqueue = q;
      },
      rw (lt→ltb 0 s.numthreads (omega (arith, l.counted)), l.current, ◌>>=◌, eb, idle-nil, eq),
      record {
        high = omega arith;
        current = refl;
        asleep = l.asleep;
        queued = sh;
        buried = h;
        counted = omega (arith, l.counted);
        sleep_room = omega (arith, l.sleep_room);
        run_room = omega (arith, l.run_room, z);
        few = omega (arith, l.few);
      },
      omega (arith, l.counted),
    )
