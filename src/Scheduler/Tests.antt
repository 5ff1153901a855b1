-- ===== src/Scheduler/Tests.antt =====
-- Instances of the run queue's theorems.
use harvard_os.Prelude.{◌≡◌, refl, true, none, some, [], ◌∷◌, arith}
use harvard_os.Scheduler.{RunQueue, scheduler}
use harvard_os.Scheduler.RoundRobin.{Shows, scheduler_first, scheduler_idles}

-- Threads 5, 6 and 7 round the end of a ring of four slots.
abbrev three_ready : RunQueue
three_ready = record {
  size = 4;
  nextwrite = 1;
  nextread = 2;
  slots = some 7 ∷ none ∷ some 5 ∷ some 6 ∷ [];
}

three_ready-Shows : Shows three_ready (5 ∷ 6 ∷ 7 ∷ [])
three_ready-Shows = record {
  valid = record {
    nonempty = omega arith;
    small = omega arith;
    block = refl;
    write_in = omega arith;
    read_in = omega arith;
  };
  guys = refl;
}

abbrev none_ready : RunQueue
none_ready = record three_ready { nextwrite = 2 }

none_ready-Shows : Shows none_ready []
none_ready-Shows = record {
  valid = record {
    nonempty = omega arith;
    small = omega arith;
    block = refl;
    write_in = omega arith;
    read_in = omega arith;
  };
  guys = refl;
}

scheduler_first_example :
    (q' : RunQueue) × (scheduler 15 true [] three_ready ≡ some (5, q'))
    × Shows q' (6 ∷ 7 ∷ [])
    × (q'.size ≡ 4)
scheduler_first_example =
    scheduler_first 15 true [] three_ready 5 (6 ∷ 7 ∷ []) (omega arith) three_ready-Shows

scheduler_idles_example :
    (q' : RunQueue) × (scheduler 15 true ([] ∷ [] ∷ (8 ∷ 9 ∷ []) ∷ []) none_ready ≡ some (8, q'))
    × Shows q' (9 ∷ [])
    × (q'.size ≡ 4)
scheduler_idles_example =
    scheduler_idles 15 true 2 [] none_ready 8 (9 ∷ []) (omega arith) none_ready-Shows (omega arith)
