-- ===== src/Thread/Tests.antt =====
-- Instances of the thread system's theorems.
use harvard_os.Prelude.{◌≡◌, refl, true, false, none, some, [], ◌∷◌, replicate, arith}
use harvard_os.Scheduler.RoundRobin.{Shows}
use harvard_os.Thread.{Threads, thread_wakeup, update}
use harvard_os.Thread.Sleep.{Holds, Rep, Frame, thread_wakeup_lem}
use harvard_os.Thread.Context.{thread_sleep, thread_yield}
use harvard_os.Thread.Context.Live.{Live, thread_sleep_lem, thread_yield_short}

-- Threads 5, 6 and 7 sleep, 6 on address 200 and the others on 100; 8 is runnable; 1 runs.
abbrev busy : Threads
busy = record {
  curthread = some 1;
  sleepers = record {
    num = 3;
    max = 6;
    v = some (some 5 ∷ some 6 ∷ some 7 ∷ none ∷ none ∷ none ∷ []);
  };
  zombies = record { num = 0; max = 2; v = some (none ∷ none ∷ []) };
  runqueue = record { size = 8; nextwrite = 1; nextread = 0; slots = some 8 ∷ replicate 7 none };
  sleepaddr = update (λ t. 100) 6 200;
  numthreads = 5;
  curspl = 15;
  in_interrupt = false;
  destroyed = [];
}

busy-asleep : Holds busy.sleepers (5 ∷ 6 ∷ 7 ∷ [])
busy-asleep = record {
  valid = record { block = refl; within = omega arith; small = omega arith };
  guys = refl;
}

busy-queued : Shows busy.runqueue (8 ∷ [])
busy-queued = record {
  valid = record {
    nonempty = omega arith;
    small = omega arith;
    block = refl;
    write_in = omega arith;
    read_in = omega arith;
  };
  guys = refl;
}

busy-Rep : Rep busy (5 ∷ 6 ∷ 7 ∷ []) (8 ∷ [])
busy-Rep = record {
  high = omega arith;
  asleep = busy-asleep;
  queued = busy-queued;
  room = omega arith;
}

busy-Live : Live busy 1 (5 ∷ 6 ∷ 7 ∷ []) (8 ∷ []) []
busy-Live = record {
  high = omega arith;
  current = refl;
  asleep = busy-asleep;
  queued = busy-queued;
  buried = record {
    valid = record { block = refl; within = omega arith; small = omega arith };
    guys = refl;
  };
  counted = refl;
  sleep_room = omega arith;
  run_room = omega arith;
  few = omega arith;
}

thread_wakeup_lem_example :
    (s' : Threads) × (thread_wakeup true 100 busy ≡ some s')
    × Rep s' (6 ∷ []) (8 ∷ 5 ∷ 7 ∷ [])
    × Frame busy s'
thread_wakeup_lem_example = thread_wakeup_lem true 100 busy (5 ∷ 6 ∷ 7 ∷ []) (8 ∷ []) busy-Rep

thread_sleep_lem_example :
    (s' : Threads) × (thread_sleep false [] 300 busy ≡ some s')
    × Live s' 8 (5 ∷ 6 ∷ 7 ∷ 1 ∷ []) [] []
    × (s'.sleepaddr ≡ update busy.sleepaddr 1 300)
thread_sleep_lem_example = thread_sleep_lem false 300 busy 1 8 (5 ∷ 6 ∷ 7 ∷ []) [] [] busy-Live refl

-- Four threads, one of them current, and a ring of four slots.
abbrev tight : Threads
tight = record busy {
  sleepers = record { num = 0; max = 4; v = some (replicate 4 none) };
  runqueue = record {
    size = 4;
    nextwrite = 3;
    nextread = 0;
    slots = some 5 ∷ some 6 ∷ some 7 ∷ none ∷ [];
  };
  numthreads = 4;
}

tight-Live : Live tight 1 [] (5 ∷ 6 ∷ 7 ∷ []) []
tight-Live = record {
  high = omega arith;
  current = refl;
  asleep = record {
    valid = record { block = refl; within = omega arith; small = omega arith };
    guys = refl;
  };
  queued = record {
    valid = record {
      nonempty = omega arith;
      small = omega arith;
      block = refl;
      write_in = omega arith;
      read_in = omega arith;
    };
    guys = refl;
  };
  buried = record {
    valid = record { block = refl; within = omega arith; small = omega arith };
    guys = refl;
  };
  counted = refl;
  sleep_room = omega arith;
  run_room = omega arith;
  few = omega arith;
}

thread_yield_short_example : thread_yield false [] tight ≡ none
thread_yield_short_example = thread_yield_short tight 1 (5 ∷ 6 ∷ 7 ∷ []) [] tight-Live refl
