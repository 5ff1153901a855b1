-- ===== src/Thread/Context/Fork.antt =====
-- thread_fork: the new thread is runnable, and the tables have room for one thread more.
use harvard_os.Prelude.{
  ℕ, ◌+◌, ◌^◌, ◌≤◌, ◌<◌, ◌≡◌, refl, ◌∙◌, true, some, List, [], ◌∷◌, ◌++◌, arith, length-append,
  ◌>>=◌,
}
use harvard_os.Array.{Array, array_preallocate}
use harvard_os.Array.Resize.{array_preallocate_lem}
use harvard_os.Scheduler.RoundRobin.{make_runnable-Shows, scheduler_preallocate_lem}
use harvard_os.Thread.{Threads, spl_high}
use harvard_os.Thread.Sleep.{Holds}
use harvard_os.Thread.Context.{fork_tables, thread_fork}
use harvard_os.Thread.Context.Live.{Live}

array_preallocate-Holds :
    (a : Array ℕ) (ts : List ℕ) (nguys : ℕ)
    → Holds a ts
    → nguys < 2 ^ 29
    → (b : Array ℕ) × (array_preallocate true a nguys ≡ some (0, b)) × Holds b ts × (nguys ≤ b.max)
array_preallocate-Holds a ts nguys h small =
    let (b, e, g) = array_preallocate_lem a nguys h.valid small in
    (b, e, record { valid = g.valid; guys = g.kept ∙ h.guys }, g.room)

-- With memory, `thread_fork` puts the new thread behind the other runnable ones, counts it, and
-- leaves tables with room for every thread, so that each may sleep or die without memory.
pub thread_fork_lem :
    (newguy : ℕ) (s : Threads) (cur : ℕ) (sleeping runnable dead : List ℕ)
    → Live (record s { curspl = spl_high }) cur sleeping runnable dead
    → s.numthreads + 2 < 2 ^ 29
    → (s' : Threads) × (thread_fork true true true true newguy s ≡ some (0, s'))
      × Live (record s' { curspl = spl_high }) cur sleeping (runnable ++ (newguy ∷ [])) dead
      × (s'.numthreads ≤ s'.zombies.max)
      × (s'.curspl ≡ s.curspl)
unfolding thread_fork fork_tables
thread_fork_lem newguy s cur sleeping runnable dead l few =
    let n = s.numthreads + 1 in
    let (a, ea, ha, ma) =
      array_preallocate-Holds s.sleepers sleeping n l.asleep (omega (arith, few)) in
    let (z, ez, hz, mz) = array_preallocate-Holds s.zombies dead n l.buried (omega (arith, few)) in
    let (q, eq, sq, mq) =
      scheduler_preallocate_lem spl_high s.runqueue n runnable l.high l.queued
        (omega (arith, few)) in
    let (q2, e2, s2, m2) =
      make_runnable-Shows spl_high true q newguy runnable l.high sq
        (omega (arith, mq, l.counted)) in
    let added = length-append runnable (newguy ∷ []) in
    (
      record s { sleepers = a; zombies = z; runqueue = q2; numthreads = n },
      rw (ea, ◌>>=◌, ez, eq, e2),
      record {
        high = l.high;
        current = l.current;
        asleep = ha;
        queued = s2;
        buried = hz;
        counted = omega (arith, l.counted, added);
        sleep_room = ma;
        run_room = omega (arith, mq, m2);
        few = omega (arith, few);
      },
      mz,
      refl,
    )
