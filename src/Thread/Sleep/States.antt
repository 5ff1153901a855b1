-- ===== src/Thread/Sleep/States.antt =====
-- The sleepers and the runnable threads of thread.c as lists, and one of them that wakes up.
use harvard_os.Prelude.{
  ℕ, suc, ◌+◌, ◌<◌, ◌≡◌, refl, ap, ◌∙◌, Bool, true, false, not, Option, some, List, [], ◌∷◌, ◌++◌,
  map, arith, ltb, ◌==◌, lt→ltb, le→ltb, if◌then◌else◌, length, length-append, get_elem?, take,
  drop, ◌>>=◌,
}
use native.Mathlib.Numerals.{add-one}
use harvard_os.Array.{Array, array_remove}
use harvard_os.Array.Resize
use harvard_os.Array.Resize.{length-contents, array_getguy_lem}
use harvard_os.Array.Edit.{array_remove_lem}
use harvard_os.Scheduler.RoundRobin.{Shows, length-map-some, make_runnable-Shows}
use harvard_os.Thread.{Threads, guy_at, wake, wake_at}

-- The array is valid and holds these threads, in this order.
pub record Holds (a : Array ℕ) (ts : List ℕ) : Type 0 where
  pub valid : Resize.IsValid a
  pub guys : Resize.contents a ≡ map some ts

pub num-Holds : (a : Array ℕ) (ts : List ℕ) → Holds a ts → a.num ≡ length ts
num-Holds a ts h = omega (arith, length-contents a h.valid, ap length h.guys, length-map-some ts)

get_elem?-middle :
    (pre post : List ℕ) (t : ℕ)
    → get_elem? (map {B = Option ℕ} some (pre ++ (t ∷ post))) (length pre) ≡ some (some t)
get_elem?-middle [] post t = refl
get_elem?-middle (p ∷ pre) post t = get_elem?-middle pre post t

cut_middle :
    (pre post : List ℕ) (t : ℕ)
    → let all = map {B = Option ℕ} some (pre ++ (t ∷ post)) in
      take (length pre) all ++ drop (suc (length pre)) all ≡ map some (pre ++ post)
cut_middle [] post t = refl
cut_middle (p ∷ pre) post t = ap (◌∷◌ (some p)) (cut_middle pre post t)

module _ (a : Array ℕ) (pre post : List ℕ) (t : ℕ) (h : Holds a (pre ++ (t ∷ post))) where
  pub guy_at-Holds : guy_at a (length pre) ≡ some t
  guy_at-Holds = rw (array_getguy_lem a (length pre) h.valid, h.guys, get_elem?-middle pre post t)

  pub array_remove-Holds :
      (b : Array ℕ) × (array_remove a (length pre) ≡ some b)
      × Holds b (pre ++ post)
      × (b.max ≡ a.max)
  array_remove-Holds =
      let (b, e, v, c, m) =
        array_remove_lem a (length pre) h.valid
          (omega (arith, num-Holds a (pre ++ (t ∷ post)) h, length-append pre (t ∷ post))) in
      (b, e, record { valid = v; guys = c ∙ rw (h.guys, add-one) (cut_middle pre post t) }, m)

-- The threads of a list that pass a test, in order.
abbrev pub select : (ℕ → Bool) → List ℕ → List ℕ
select p [] = []
select p (t ∷ ts) = if p t then t ∷ select p ts else select p ts

-- The threads of a list that sleep on `addr`, and the others.
abbrev pub on : Threads → ℕ → List ℕ → List ℕ
on s addr = select (λ t. s.sleepaddr t == addr)

abbrev pub off : Threads → ℕ → List ℕ → List ℕ
off s addr = select (λ t. not (s.sleepaddr t == addr))

-- Interrupts are off, these threads sleep, and these are runnable; the run queue has slots for all
-- of them, so that no wakeup needs memory.
pub record Rep (s : Threads) (sleeping runnable : List ℕ) : Type 0 where
  pub high : 0 < s.curspl
  pub asleep : Holds s.sleepers sleeping
  pub queued : Shows s.runqueue runnable
  pub room : length sleeping + length runnable < s.runqueue.size

-- A wakeup changes the sleepers and the run queue alone, and neither's capacity.
pub record Frame (s s' : Threads) : Type 0 where
  pub curthread : s'.curthread ≡ s.curthread
  pub zombies : s'.zombies ≡ s.zombies
  pub sleepaddr : s'.sleepaddr ≡ s.sleepaddr
  pub numthreads : s'.numthreads ≡ s.numthreads
  pub curspl : s'.curspl ≡ s.curspl
  pub in_interrupt : s'.in_interrupt ≡ s.in_interrupt
  pub destroyed : s'.destroyed ≡ s.destroyed
  pub sleepers_max : s'.sleepers.max ≡ s.sleepers.max
  pub runqueue_size : s'.runqueue.size ≡ s.runqueue.size

pub Frame-trans : {s t u : Threads} → Frame s t → Frame t u → Frame s u
Frame-trans f g = record {
  curthread = g.curthread ∙ f.curthread;
  zombies = g.zombies ∙ f.zombies;
  sleepaddr = g.sleepaddr ∙ f.sleepaddr;
  numthreads = g.numthreads ∙ f.numthreads;
  curspl = g.curspl ∙ f.curspl;
  in_interrupt = g.in_interrupt ∙ f.in_interrupt;
  destroyed = g.destroyed ∙ f.destroyed;
  sleepers_max = g.sleepers_max ∙ f.sleepers_max;
  runqueue_size = g.runqueue_size ∙ f.runqueue_size;
}

pub Frame-refl : (s : Threads) → Frame s s
Frame-refl s = record {
  curthread = refl;
  zombies = refl;
  sleepaddr = refl;
  numthreads = refl;
  curspl = refl;
  in_interrupt = refl;
  destroyed = refl;
  sleepers_max = refl;
  runqueue_size = refl;
}

-- One sleeper moves to the end of the run queue.
pub wake_at-Rep :
    (mem : Bool) (s : Threads) (pre post runnable : List ℕ) (t : ℕ)
    → Rep s (pre ++ (t ∷ post)) runnable
    → (s' : Threads) × (wake_at mem s (length pre) t ≡ some s')
      × Rep s' (pre ++ post) (runnable ++ (t ∷ []))
      × Frame s s'
unfolding wake_at wake
wake_at-Rep mem s pre post runnable t r =
    let (b, e, h, m) = array_remove-Holds s.sleepers pre post t r.asleep in
    let all = length-append pre (t ∷ post) in
    let (q, eq, sh, z) =
      make_runnable-Shows s.curspl mem s.runqueue t runnable r.high r.queued
        (omega (arith, r.room, all)) in
    (
      record s { sleepers = b; runqueue = q },
      rw (e, ◌>>=◌, eq),
      record {
        high = r.high;
        asleep = h;
        queued = sh;
        room =
            omega (arith, r.room, all, length-append pre post, length-append runnable (t ∷ []), z);
      },
      record {
        curthread = refl;
        zombies = refl;
        sleepaddr = refl;
        numthreads = refl;
        curspl = refl;
        in_interrupt = refl;
        destroyed = refl;
        sleepers_max = m;
        runqueue_size = z;
      },
    )

pub index_in :
    (s : Threads) (pre post runnable : List ℕ) (t : ℕ)
    → Rep s (pre ++ (t ∷ post)) runnable
    → ltb (length pre) s.sleepers.num ≡ true
index_in s pre post runnable t r =
    lt→ltb (length pre) s.sleepers.num (
      omega
        (arith, num-Holds s.sleepers (pre ++ (t ∷ post)) r.asleep, length-append pre (t ∷ post)))

pub index_out :
    (s : Threads) (pre runnable : List ℕ)
    → Rep s (pre ++ []) runnable
    → ltb (length pre) s.sleepers.num ≡ false
index_out s pre runnable r =
    le→ltb (length pre) s.sleepers.num
      (omega (arith, num-Holds s.sleepers (pre ++ []) r.asleep, length-append pre []))
