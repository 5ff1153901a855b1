-- ===== src/Synch/Tests.antt =====
-- Instances of the theorems on the synchronization primitives.
use harvard_os.Prelude.{ℕ, ◌≡◌, refl, true, false, none, some, [], ◌∷◌, replicate, arith, update_at}
use harvard_os.Thread.{Threads, update}
use harvard_os.Thread.Sleep.{Holds, Rep}
use harvard_os.Thread.Context.Live.{Live}
use harvard_os.Scheduler.RoundRobin.{Shows}
use harvard_os.Synch.{splhigh, Semaphore, Lock, lock_test, cv_wait}
use harvard_os.Synch.Wait.{cv_wait_lem}
use harvard_os.Synch.Exclusion.{
  outside, critical, System, Reachable, start, more, enter, mutual_exclusion,
}

-- Threads 5, 6 and 7 sleep, 6 on address 200 and the others on 100; 8 is runnable; 1 runs, at
-- level 0.
abbrev calm : Threads
calm = record {
  curthread = some 1;
  sleepers = record {
    num = 3;
    max = 6;
    v = some (some 5 ∷ some 6 ∷ some 7 ∷ none ∷ none ∷ none ∷ []);
  };
  zombies = record { num = 0; max = 2; v = some (none ∷ none ∷ []) };
  runqueue = record { size = 8; nextwrite = 1; nextread = 0; slots = some 8 ∷ replicate 7 none };
  sleepaddr = update (λ t. 100) 6 200;
  numthreads = 5;
  curspl = 0;
  in_interrupt = false;
  destroyed = [];
}

calm-asleep : Holds calm.sleepers (5 ∷ 6 ∷ 7 ∷ [])
calm-asleep = record {
  valid = record { block = refl; within = omega arith; small = omega arith };
  guys = refl;
}

calm-queued : Shows calm.runqueue (8 ∷ [])
calm-queued = record {
  valid = record {
    nonempty = omega arith;
    small = omega arith;
    block = refl;
    write_in = omega arith;
    read_in = omega arith;
  };
  guys = refl;
}

calm-Rep : Rep (splhigh calm) (5 ∷ 6 ∷ 7 ∷ []) (8 ∷ [])
calm-Rep = record {
  high = omega arith;
  asleep = calm-asleep;
  queued = calm-queued;
  room = omega arith;
}

calm-Live : Live (splhigh calm) 1 (5 ∷ 6 ∷ 7 ∷ []) (8 ∷ []) []
calm-Live = record {
  high = omega arith;
  current = refl;
  asleep = calm-asleep;
  queued = calm-queued;
  buried = record {
    valid = record { block = refl; within = omega arith; small = omega arith };
    guys = refl;
  };
  counted = refl;
  sleep_room = omega arith;
  run_room = omega arith;
  few = omega arith;
}

abbrev two : Semaphore
two = record { count = 2 }

abbrev mine : Lock
mine = record { held = 1; pointer = some 1 }

cv_wait_lem_example :
    (s' : Threads) × (cv_wait true [] 300 100 mine calm
      ≡ some (record { held = 0; pointer = none }, s'))
    × Live s' 8 (6 ∷ 1 ∷ []) (5 ∷ 7 ∷ []) []
    × (s'.sleepaddr ≡ update calm.sleepaddr 1 300)
cv_wait_lem_example =
    cv_wait_lem true 300 100 mine calm 1 8 (5 ∷ 6 ∷ 7 ∷ []) (8 ∷ []) (5 ∷ 7 ∷ []) [] calm-Live refl
      refl refl

abbrev at_start : System
at_start = record { lock = record { held = 0; pointer = none }; place = λ t. outside }

first_test : lock_test (some 4) at_start.lock ≡ some (record { held = 1; pointer = some 4 })
unfolding lock_test
first_test = refl

abbrev taken_once : System
taken_once = record {
  lock = record { held = 1; pointer = some 4 };
  place = update_at at_start.place 4 critical;
}

entered_once : Reachable taken_once
entered_once =
    more at_start taken_once start
      (enter 4 (record { held = 1; pointer = some 4 }) (λ e. cc) first_test)

abbrev fourth : ℕ
fourth = 4

mutual_exclusion_example :
    (fourth ≡ fourth) × (taken_once.lock.held ≡ 1) × (taken_once.lock.pointer ≡ some fourth)
mutual_exclusion_example = mutual_exclusion taken_once 4 4 entered_once refl refl
