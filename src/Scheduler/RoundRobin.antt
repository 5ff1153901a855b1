-- ===== src/Scheduler/RoundRobin.antt =====
-- The run queue as the list of the runnable threads, first come first served.
use harvard_os.Prelude.{
  ◌^◌, ℕ, zero, suc, ◌+◌, ◌%◌, ◌≤◌, ◌<◌, ◌≡◌, refl, sym, ap, ◌∙◌, Bool, true, false, Option, none,
  some, List, [], ◌∷◌, ◌++◌, map, arith, ◌==◌, lt→ltb, length, length-append, replicate,
  get_elem?-eq-get_or, Bool-cases, inl, inr, ◌>>=◌,
}
use mathlib.Core.List.{map-append, append-nil, append_assoc}
use harvard_os.Errno.{enomem}
use harvard_os.Queue.{q_empty, q_remhead, q_getguy}
use harvard_os.Queue.Window.{wrap, mod-eq-wrap, window, count, contents, length-contents, IsValid}
use harvard_os.Queue.Grow.{distance}
use harvard_os.Queue.Refine.{
  q_addtail-AddsTail, q_addtail-enomem, q_remhead_lem, q_empty_lem, q_preallocate_lem,
  count-lt-size,
}
use harvard_os.Scheduler.{
  RunQueue, scheduler_preallocate, drop_all, scheduler_killall, make_runnable, interrupt, scheduler,
  walk, print_run_queue,
}

pub length-map-some : (ts : List ℕ) → length (map {B = Option ℕ} some ts) ≡ length ts
length-map-some [] = refl
length-map-some (t ∷ ts) = ap suc (length-map-some ts)

-- The queue is valid and holds these threads, in this order.
pub record Shows (q : RunQueue) (ts : List ℕ) : Type 0 where
  pub valid : IsValid q
  pub guys : contents q ≡ map some ts

pub count-Shows : (q : RunQueue) (ts : List ℕ) → Shows q ts → count q ≡ length ts
count-Shows q ts s = omega (arith, length-contents q, ap length s.guys, length-map-some ts)

cons-injective : {x y : Option ℕ} {xs ys : List (Option ℕ)} → x ∷ xs ≡ y ∷ ys → (x ≡ y) × (xs ≡ ys)
cons-injective e = (cc, cc)

pub q_remhead-Shows :
    (q : RunQueue) (t : ℕ) (ts : List ℕ)
    → Shows q (t ∷ ts)
    → (q' : RunQueue) × (q_remhead q ≡ some (some t, q')) × Shows q' ts × (q'.size ≡ q.size)
q_remhead-Shows q t ts s = elim (q_remhead_lem q s.valid) [
  | inl (e, _) ↦ absurd (omega (arith, ap length (sym e ∙ s.guys)))
  | inr (ptr, q', e, r, v, z) ↦
      let (same, rest) = cons-injective (sym e ∙ s.guys) in
      (q', rw (← same) r, record { valid = v; guys = rest }, z)
]

pub q_empty-nil : (q : RunQueue) → Shows q [] → q_empty q ≡ true
q_empty-nil q s = (q_empty_lem q s.valid).1 s.guys

pub q_empty-cons : (q : RunQueue) (t : ℕ) (ts : List ℕ) → Shows q (t ∷ ts) → q_empty q ≡ false
q_empty-cons q t ts s = elim (Bool-cases (q_empty q)) [
  | inl e ↦ absurd (omega (arith, ap length (sym ((q_empty_lem q s.valid).0 e) ∙ s.guys)))
  | inr e ↦ e
]

-- `scheduler_preallocate` keeps the runnable threads.
pub scheduler_preallocate_lem :
    (curspl : ℕ) (q : RunQueue) (nthreads : ℕ) (ts : List ℕ)
    → 0 < curspl
    → Shows q ts
    → nthreads < 2 ^ 29
    → (q' : RunQueue) × (scheduler_preallocate curspl true q nthreads ≡ some (0, q'))
      × Shows q' ts
      × (nthreads ≤ q'.size)
unfolding scheduler_preallocate
scheduler_preallocate_lem curspl q nthreads ts high s small =
    let (q', e, g) = q_preallocate_lem q nthreads s.valid small in
    (q', rw (lt→ltb 0 curspl high) e, record { valid = g.valid; guys = g.kept ∙ s.guys }, g.enough)

-- With a slot to spare `make_runnable` puts the thread last and needs no memory.
pub make_runnable-Shows :
    (curspl : ℕ) (mem : Bool) (q : RunQueue) (t : ℕ) (ts : List ℕ)
    → 0 < curspl
    → Shows q ts
    → length ts + 1 < q.size
    → (q' : RunQueue) × (make_runnable curspl mem q t ≡ some (0, q'))
      × Shows q' (ts ++ (t ∷ []))
      × (q'.size ≡ q.size)
unfolding make_runnable
make_runnable-Shows curspl mem q t ts high s room =
    let (q', e, a) =
      q_addtail-AddsTail mem q (some t) s.valid (omega (arith, count-Shows q ts s)) in
    (
      q',
      rw (lt→ltb 0 curspl high) e,
      record {
        valid = a.valid;
        guys = a.appended ∙ ap (λ l. l ++ (some t ∷ [])) s.guys ∙ sym (map-append some ts (t ∷ []));
      },
      a.same_size,
    )

-- Without a slot to spare and without memory it returns ENOMEM.
pub make_runnable-short :
    (curspl : ℕ) (q : RunQueue) (t : ℕ) (ts : List ℕ)
    → 0 < curspl
    → Shows q ts
    → length ts + 1 ≡ q.size
    → q.size + 1 < 2 ^ 29
    → make_runnable curspl false q t ≡ some (enomem, q)
unfolding make_runnable
make_runnable-short curspl q t ts high s full small = rw (lt→ltb 0 curspl high) (
    q_addtail-enomem q (some t) s.valid small
      (λ room. omega (arith, room, full, count-Shows q ts s)))

-- The interrupts of an idle round put the woken threads behind the others, in order.
pub interrupt-Shows :
    (curspl : ℕ) (mem : Bool) (q : RunQueue) (ts woken : List ℕ)
    → 0 < curspl
    → Shows q ts
    → length ts + length woken < q.size
    → (q' : RunQueue) × (interrupt curspl mem q woken ≡ some q')
      × Shows q' (ts ++ woken)
      × (q'.size ≡ q.size)
unfolding interrupt
interrupt-Shows curspl mem q ts [] high s room =
    (q, refl, record { valid = s.valid; guys = rw (append-nil ts) s.guys }, refl)
interrupt-Shows curspl mem q ts (t ∷ woken) high s room =
    let (q1, e1, s1, z1) = make_runnable-Shows curspl mem q t ts high s (omega arith) in
    let (q2, e2, s2, z2) =
      interrupt-Shows curspl mem q1 (ts ++ (t ∷ [])) woken high s1
        (omega (arith, length-append ts (t ∷ []))) in
    (q2, rw e1 e2, rw (append_assoc ts (t ∷ []) woken) at s2, z2 ∙ z1)

-- A nonempty run queue is served at once, from its front.
pub scheduler_first :
    (curspl : ℕ) (mem : Bool) (later : List (List ℕ)) (q : RunQueue) (t : ℕ) (ts : List ℕ)
    → 0 < curspl
    → Shows q (t ∷ ts)
    → (q' : RunQueue) × (scheduler curspl mem later q ≡ some (t, q'))
      × Shows q' ts
      × (q'.size ≡ q.size)
unfolding scheduler
scheduler_first curspl mem [] q t ts high s =
    let (q', e, s', z) = q_remhead-Shows q t ts s in
    (q', rw (lt→ltb 0 curspl high, q_empty-cons q t ts s, e), s', z)
scheduler_first curspl mem (woken ∷ later) q t ts high s =
    let (q', e, s', z) = q_remhead-Shows q t ts s in
    (q', rw (lt→ltb 0 curspl high, q_empty-cons q t ts s, e), s', z)

interrupt-nil : (curspl : ℕ) (mem : Bool) (q : RunQueue) → interrupt curspl mem q [] ≡ some q
unfolding interrupt
interrupt-nil curspl mem q = refl

-- On an empty run queue the scheduler idles through the rounds that wake nobody, and takes the
-- first thread that an interrupt makes runnable; the others woken with it wait in order.
pub scheduler_idles :
    (curspl : ℕ) (mem : Bool) (quiet : ℕ) (later : List (List ℕ)) (q : RunQueue) (t : ℕ)
    (ts : List ℕ)
    → 0 < curspl
    → Shows q []
    → suc (length ts) < q.size
    → (q' : RunQueue) × (scheduler curspl mem (replicate quiet [] ++ ((t ∷ ts) ∷ later)) q
        ≡ some (t, q'))
      × Shows q' ts
      × (q'.size ≡ q.size)
unfolding scheduler
scheduler_idles curspl mem zero later q t ts high s room =
    let (q1, e1, s1, z1) = interrupt-Shows curspl mem q [] (t ∷ ts) high s (omega arith) in
    let (q2, e2, s2, z2) = scheduler_first curspl mem later q1 t ts high s1 in
    (q2, rw (lt→ltb 0 curspl high, q_empty-nil q s, e1) e2, s2, z2 ∙ z1)
scheduler_idles curspl mem (suc quiet) later q t ts high s room =
    let (q2, e2, s2, z2) = scheduler_idles curspl mem quiet later q t ts high s room in
    (q2, rw (lt→ltb 0 curspl high, q_empty-nil q s) (rw interrupt-nil e2), s2, z2)

drop_all-Shows :
    (rounds : ℕ) (q : RunQueue) (ts : List ℕ)
    → Shows q ts
    → length ts ≤ rounds
    → (q' : RunQueue) × (drop_all rounds q ≡ some (ts, q')) × Shows q' []
unfolding drop_all
drop_all-Shows zero q [] s h = (q, rw (q_empty-nil q s), s)
drop_all-Shows zero q (t ∷ ts) s h = absurd (omega arith)
drop_all-Shows (suc rounds) q [] s h = (q, rw (q_empty-nil q s), s)
drop_all-Shows (suc rounds) q (t ∷ ts) s h =
    let (q1, e1, s1, z1) = q_remhead-Shows q t ts s in
    let (q2, e2, s2) = drop_all-Shows rounds q1 ts s1 (omega arith) in
    (q2, rw (q_empty-cons q t ts s, e1, ◌>>=◌, e2), s2)

-- `scheduler_killall` drops every runnable thread, in order, and leaves the queue empty.
pub scheduler_killall_lem :
    (curspl : ℕ) (q : RunQueue) (ts : List ℕ)
    → 0 < curspl
    → Shows q ts
    → (q' : RunQueue) × (scheduler_killall curspl q ≡ some (ts, q')) × Shows q' []
unfolding scheduler_killall
scheduler_killall_lem curspl q ts high s =
    let (q', e, s') =
      drop_all-Shows q.size q ts s (omega (arith, count-Shows q ts s, count-lt-size q s.valid)) in
    (q', rw (lt→ltb 0 curspl high) e, s')

walk_lem :
    (rounds n i : ℕ) (q : RunQueue) (ts : List ℕ)
    → IsValid q
    → i < q.size
    → n ≡ distance q.size i q.nextwrite
    → n ≤ rounds
    → window q.slots q.size i n ≡ map some ts
    → walk rounds i q ≡ some ts
unfolding walk q_getguy
walk_lem zero zero i q [] v hi e fuel shown =
    let stop : (i == q.nextwrite) ≡ true = ground (arith, v.write_in) in rw stop
walk_lem (suc rounds) zero i q [] v hi e fuel shown =
    let stop : (i == q.nextwrite) ≡ true = ground (arith, v.write_in) in rw stop
walk_lem rounds zero i q (t ∷ ts) v hi e fuel shown = absurd (omega (arith, ap length shown))
walk_lem zero (suc n) i q ts v hi e fuel shown = absurd (omega arith)
walk_lem (suc rounds) (suc n) i q [] v hi e fuel shown = absurd (omega (arith, ap length shown))
walk_lem (suc rounds) (suc n) i q (t ∷ ts) v hi e fuel shown =
    let more : (i == q.nextwrite) ≡ false = ground (arith, v.write_in) in
    let (here, rest) = cons-injective shown in
    let next : (i + 1) % q.size ≡ wrap q.size (i + 1) = mod-eq-wrap q.size (i + 1) (omega arith) in
    let later =
      walk_lem rounds n (wrap q.size (i + 1)) q ts v (ground arith) (ground (arith, v.write_in))
        (omega arith) rest in
    rw (
      more,
      lt→ltb i q.size hi,
      get_elem?-eq-get_or q.slots i none (omega (arith, v.block)),
      here,
      next,
      later,
    )

-- `print_run_queue` prints the runnable threads in the order in which they will run.
pub print_run_queue_lem : (q : RunQueue) (ts : List ℕ) → Shows q ts → print_run_queue q ≡ some ts
unfolding print_run_queue
print_run_queue_lem q ts s =
    walk_lem q.size (count q) q.nextread q ts s.valid s.valid.read_in refl
      (omega (arith, count-lt-size q s.valid)) s.guys
