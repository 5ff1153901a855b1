-- ===== src/Thread/Sleep.antt =====
-- What wakes up: `thread_wakeup`, `wakeup_single_thread` and `thread_hassleepers` on the list of
-- the sleepers and the list of the runnable threads.
mod States
pub use States.*
use harvard_os.Prelude.{
  ℕ, zero, suc, ◌+◌, ◌≤◌, ◌<◌, ◌≡◌, refl, ap, ◌∙◌, Bool, true, false, not, Option, some, List, [],
  ◌∷◌, ◌++◌, map, arith, ltb, ◌==◌, lt→ltb, le→ltb, if◌then◌else◌, length, length-append, get_elem?,
  take, drop, Bool-cases, inl, inr, ◌>>=◌,
}
use mathlib.Core.List.{append-nil, append_assoc}
use native.Mathlib.Numerals.{add-one}
use harvard_os.Array.{Array, array_remove}
use harvard_os.Array.Resize
use harvard_os.Array.Resize.{length-contents, array_getguy_lem}
use harvard_os.Array.Edit.{array_remove_lem}
use harvard_os.Scheduler.RoundRobin.{Shows, length-map-some, make_runnable-Shows}
use harvard_os.Thread.{
  Threads, guy_at, wake, wake_at, wakeup_from, thread_wakeup, single_from, wakeup_single_thread,
  hassleepers_from, thread_hassleepers,
}

hit_step :
    (s s1 s2 : Threads) (pre post runnable : List ℕ) (t addr : ℕ)
    → s1.sleepaddr ≡ s.sleepaddr
    → (s.sleepaddr t == addr) ≡ true
    → Rep s2 (pre ++ off s1 addr post) ((runnable ++ (t ∷ [])) ++ on s1 addr post)
    → Rep s2 (pre ++ off s addr (t ∷ post)) (runnable ++ on s addr (t ∷ post))
hit_step s s1 s2 pre post runnable t addr same hit r =
    rw hit (rw (same, append_assoc runnable (t ∷ []) (on s addr post)) at r)

miss_step :
    (s s2 : Threads) (pre post runnable : List ℕ) (t addr : ℕ)
    → (s.sleepaddr t == addr) ≡ false
    → Rep s2 ((pre ++ (t ∷ [])) ++ off s addr post) (runnable ++ on s addr post)
    → Rep s2 (pre ++ off s addr (t ∷ post)) (runnable ++ on s addr (t ∷ post))
miss_step s s2 pre post runnable t addr miss r =
    rw miss (rw (append_assoc pre (t ∷ []) (off s addr post)) at r)

wakeup_from-Rep :
    (rounds : ℕ) (mem : Bool) (addr : ℕ) (s : Threads) (pre post runnable : List ℕ)
    → length post ≤ rounds
    → Rep s (pre ++ post) runnable
    → (s' : Threads) × (wakeup_from rounds mem addr (length pre) s ≡ some s')
      × Rep s' (pre ++ off s addr post) (runnable ++ on s addr post)
      × Frame s s'
unfolding wakeup_from
wakeup_from-Rep zero mem addr s pre [] runnable h r =
    (s, rw (index_out s pre runnable r), rw (append-nil runnable) r, Frame-refl s)
wakeup_from-Rep zero mem addr s pre (t ∷ post) runnable h r = absurd (omega arith)
wakeup_from-Rep (suc rounds) mem addr s pre [] runnable h r =
    (s, rw (index_out s pre runnable r), rw (append-nil runnable) r, Frame-refl s)
wakeup_from-Rep (suc rounds) mem addr s pre (t ∷ post) runnable h r =
    elim (Bool-cases (s.sleepaddr t == addr)) [
      | inl hit ↦
          let (s1, e1, r1, f1) = wake_at-Rep mem s pre post runnable t r in
          let (s2, e2, r2, f2) =
            wakeup_from-Rep rounds mem addr s1 pre post (runnable ++ (t ∷ [])) (omega arith) r1 in
          (
            s2,
            rw
                (
                  index_in s pre post runnable t r,
                  guy_at-Holds s.sleepers pre post t r.asleep,
                  ◌>>=◌,
                  hit,
                  e1,
                )
                e2,
            hit_step s s1 s2 pre post runnable t addr f1.sleepaddr hit r2,
            Frame-trans f1 f2,
          )
      | inr miss ↦
          let (s2, e2, r2, f2) =
            wakeup_from-Rep rounds mem addr s (pre ++ (t ∷ [])) post runnable (omega arith)
              (rw (append_assoc pre (t ∷ []) post) r) in
          (
            s2,
            rw
                (
                  index_in s pre post runnable t r,
                  guy_at-Holds s.sleepers pre post t r.asleep,
                  ◌>>=◌,
                  miss,
                )
                (rw (length-append pre (t ∷ [])) at e2),
            miss_step s s2 pre post runnable t addr miss r2,
            f2,
          )
    ]

-- `thread_wakeup` makes every thread that sleeps on `addr` runnable, behind those that were and in
-- the order in which they went to sleep; the others sleep on. It needs no memory.
pub thread_wakeup_lem :
    (mem : Bool) (addr : ℕ) (s : Threads) (sleeping runnable : List ℕ)
    → Rep s sleeping runnable
    → (s' : Threads) × (thread_wakeup mem addr s ≡ some s')
      × Rep s' (off s addr sleeping) (runnable ++ on s addr sleeping)
      × Frame s s'
unfolding thread_wakeup
thread_wakeup_lem mem addr s sleeping runnable r =
    let (s', e, r', f) =
      wakeup_from-Rep s.sleepers.num mem addr s [] sleeping runnable
        (omega (arith, num-Holds s.sleepers sleeping r.asleep)) r in
    (s', rw (lt→ltb 0 s.curspl r.high) e, r', f)

-- The first thread of a list that passes a test, as a list of one at most, and the others.
abbrev pub first : (ℕ → Bool) → List ℕ → List ℕ
first p [] = []
first p (t ∷ ts) = if p t then t ∷ [] else first p ts

abbrev pub but_first : (ℕ → Bool) → List ℕ → List ℕ
but_first p [] = []
but_first p (t ∷ ts) = if p t then ts else t ∷ but_first p ts

single_from-Rep :
    (rounds : ℕ) (mem : Bool) (addr : ℕ) (s : Threads) (pre post runnable : List ℕ)
    → length post ≤ rounds
    → Rep s (pre ++ post) runnable
    → (s' : Threads) × (single_from rounds mem addr (length pre) s ≡ some s')
      × Rep s'
          (pre ++ but_first (λ t. s.sleepaddr t == addr) post)
          (runnable ++ first (λ t. s.sleepaddr t == addr) post)
      × Frame s s'
unfolding single_from
single_from-Rep zero mem addr s pre [] runnable h r =
    (s, rw (index_out s pre runnable r), rw (append-nil runnable) r, Frame-refl s)
single_from-Rep zero mem addr s pre (t ∷ post) runnable h r = absurd (omega arith)
single_from-Rep (suc rounds) mem addr s pre [] runnable h r =
    (s, rw (index_out s pre runnable r), rw (append-nil runnable) r, Frame-refl s)
single_from-Rep (suc rounds) mem addr s pre (t ∷ post) runnable h r =
    elim (Bool-cases (s.sleepaddr t == addr)) [
      | inl hit ↦
          let (s1, e1, r1, f1) = wake_at-Rep mem s pre post runnable t r in
          (
            s1,
            rw
                (
                  index_in s pre post runnable t r,
                  guy_at-Holds s.sleepers pre post t r.asleep,
                  ◌>>=◌,
                  hit,
                )
                e1,
            rw hit r1,
            f1,
          )
      | inr miss ↦
          let (s2, e2, r2, f2) =
            single_from-Rep rounds mem addr s (pre ++ (t ∷ [])) post runnable (omega arith)
              (rw (append_assoc pre (t ∷ []) post) r) in
          (
            s2,
            rw
                (
                  index_in s pre post runnable t r,
                  guy_at-Holds s.sleepers pre post t r.asleep,
                  ◌>>=◌,
                  miss,
                )
                (rw (length-append pre (t ∷ [])) at e2),
            rw miss (
                rw (append_assoc pre (t ∷ []) (but_first (λ u. s.sleepaddr u == addr) post)) at r2),
            f2,
          )
    ]

-- `wakeup_single_thread` makes the thread runnable that has slept on `addr` the longest, if there
-- is one; the others sleep on.
pub wakeup_single_thread_lem :
    (mem : Bool) (addr : ℕ) (s : Threads) (sleeping runnable : List ℕ)
    → Rep s sleeping runnable
    → (s' : Threads) × (wakeup_single_thread mem addr s ≡ some s')
      × Rep s'
          (but_first (λ t. s.sleepaddr t == addr) sleeping)
          (runnable ++ first (λ t. s.sleepaddr t == addr) sleeping)
      × Frame s s'
unfolding wakeup_single_thread
wakeup_single_thread_lem mem addr s sleeping runnable r =
    let (s', e, r', f) =
      single_from-Rep s.sleepers.num mem addr s [] sleeping runnable
        (omega (arith, num-Holds s.sleepers sleeping r.asleep)) r in
    (s', rw (lt→ltb 0 s.curspl r.high) e, r', f)

abbrev pub is_nonempty : List ℕ → Bool
is_nonempty [] = false
is_nonempty (t ∷ ts) = true

hassleepers_from-Rep :
    (rounds : ℕ) (addr : ℕ) (s : Threads) (pre post runnable : List ℕ)
    → length post ≤ rounds
    → Rep s (pre ++ post) runnable
    → hassleepers_from rounds addr (length pre) s ≡ some (is_nonempty (on s addr post))
unfolding hassleepers_from
hassleepers_from-Rep zero addr s pre [] runnable h r = rw (index_out s pre runnable r)
hassleepers_from-Rep zero addr s pre (t ∷ post) runnable h r = absurd (omega arith)
hassleepers_from-Rep (suc rounds) addr s pre [] runnable h r = rw (index_out s pre runnable r)
hassleepers_from-Rep (suc rounds) addr s pre (t ∷ post) runnable h r =
    elim (Bool-cases (s.sleepaddr t == addr)) [
      | inl hit ↦ rw (
        index_in s pre post runnable t r,
        guy_at-Holds s.sleepers pre post t r.asleep,
        ◌>>=◌,
        hit,
      )
      | inr miss ↦
          let later =
            hassleepers_from-Rep rounds addr s (pre ++ (t ∷ [])) post runnable (omega arith)
              (rw (append_assoc pre (t ∷ []) post) r) in
          rw
            (
              index_in s pre post runnable t r,
              guy_at-Holds s.sleepers pre post t r.asleep,
              ◌>>=◌,
              miss,
            )
            (rw (length-append pre (t ∷ [])) at later)
    ]

-- `thread_hassleepers` tells whether any thread sleeps on `addr`.
pub thread_hassleepers_lem :
    (addr : ℕ) (s : Threads) (sleeping runnable : List ℕ)
    → Rep s sleeping runnable
    → thread_hassleepers addr s ≡ some (is_nonempty (on s addr sleeping))
unfolding thread_hassleepers
thread_hassleepers_lem addr s sleeping runnable r = rw (lt→ltb 0 s.curspl r.high) (
    hassleepers_from-Rep s.sleepers.num addr s [] sleeping runnable
      (omega (arith, num-Holds s.sleepers sleeping r.asleep)) r)
