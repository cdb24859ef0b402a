-- ===== src/Scheduler/Tick.antt =====
-- `schedule_tick` of kernel/scheduler.c: which thread runs next, and what becomes of the ring.
use toutatis.Common.{
  ℕ, zero, suc, ◌+◌, ◌-◌, ◌%◌, ◌^◌, ◌<◌, ◌≡◌, ◌≢◌, sym, ◌∙◌, ap, inl, inr, arith, List, [], ◌∷◌,
  ◌++◌, append-nil, append_assoc, ◌==◌, if◌then◌else◌, ◌||◌, true, false, some, length, Bool-cases,
}
use toutatis.Common.Store.{update}
use toutatis.Scheduler.{
  Sched, Thread, next_of, prev_of, ready, running, is_sleep, is_finished, unschedule_thread,
  destroy_thread, leave, enter, skip_sleeping, next_ready_thread, schedule_tick,
}
use toutatis.Scheduler.Ring.{NotIn, Linked, Linked-same}
use toutatis.Scheduler.Links.{IsRing, IsRing-turn, unschedule_thread-IsRing}

-- All of these threads sleep.
abbrev pub AllSleep : Sched → List ℕ → Type 0
AllSleep s [] = Unit
AllSleep s (x ∷ xs) = (is_sleep (s.threads x).state ≡ true) × AllSleep s xs

-- A ring can be entered at any member.
pub IsRing-enter :
    (s : Sched) (c x : ℕ) (ys zs : List ℕ) → IsRing s c (ys ++ x ∷ zs) → IsRing s x (zs ++ c ∷ ys)
IsRing-enter s c x [] zs r = IsRing-turn s c x zs r
IsRing-enter s c x (y ∷ ys) zs r =
    let turned : IsRing s y ((ys ++ x ∷ zs) ++ c ∷ []) = IsRing-turn s c y (ys ++ x ∷ zs) r in
    let split : IsRing s y (ys ++ x ∷ (zs ++ c ∷ [])) =
      rw (append_assoc ys (x ∷ zs) (c ∷ [])) at turned in
    rw (append_assoc zs (c ∷ []) (y ∷ ys)) at (IsRing-enter s y x ys (zs ++ c ∷ []) split)

-- Two states with the same links have the same rings.
pub IsRing-same :
    (s t : Sched) (c : ℕ) (xs : List ℕ)
    → ((y : ℕ) → next_of t y ≡ next_of s y)
    → ((y : ℕ) → prev_of t y ≡ prev_of s y)
    → IsRing s c xs
    → IsRing t c xs
IsRing-same s t c xs n p (l, d, z) =
    (Linked-same (next_of s) (prev_of s) (next_of t) (prev_of t) n p c c xs l, d, z)

-- The search finds the first thread that does not sleep.
skip_sleeping-first :
    (fuel : ℕ) (s : Sched) (a b x : ℕ) (ys zs : List ℕ)
    → Linked (next_of s) (prev_of s) a (ys ++ x ∷ zs) b
    → NotIn 0 (ys ++ x ∷ zs)
    → AllSleep s ys
    → is_sleep (s.threads x).state ≡ false
    → length ys < fuel
    → skip_sleeping fuel s (next_of s a) ≡ some x
unfolding skip_sleeping
skip_sleeping-first zero s a b x ys zs l z sl aw h = absurd (omega arith)
skip_sleeping-first (suc fuel) s a b x [] zs l z sl aw h = rw l.0 (ground arith)
skip_sleeping-first (suc fuel) s a b x (y ∷ ys) zs l z sl aw h =
    rw l.0 (ground (arith, skip_sleeping-first fuel s y b x ys zs l.2 z.1 sl.1 aw (omega arith)))

module _ (s : Sched) (old_esp cycles : ℕ) where
  leave-links :
      is_finished (s.threads s.current_thread).state ≡ false
      → (y : ℕ)
      → (next_of (leave s old_esp cycles) y ≡ next_of s y)
        × (prev_of (leave s old_esp cycles) y ≡ prev_of s y)
  unfolding leave update
  leave-links h y = (ground arith, ground arith)

  leave_finished-links :
      is_finished (s.threads s.current_thread).state ≡ true
      → (y : ℕ)
      → (next_of (leave s old_esp cycles) y ≡ next_of (unschedule_thread s s.current_thread) y)
        × (prev_of (leave s old_esp cycles) y ≡ prev_of (unschedule_thread s s.current_thread) y)
  unfolding leave destroy_thread
  leave_finished-links h y =
      rw h (destroyed (unschedule_thread s s.current_thread) s.current_thread y)
    where
      destroyed :
          (t : Sched) (c y : ℕ)
          → (next_of (destroy_thread t c) y ≡ next_of t y)
            × (prev_of (destroy_thread t c) y ≡ prev_of t y)
      destroyed t c y = (ground arith, ground arith)

enter-links :
    (s : Sched) (x y : ℕ)
    → (next_of (enter s x) y ≡ next_of s y) × (prev_of (enter s x) y ≡ prev_of s y)
unfolding enter update
enter-links s x y = (ground arith, ground arith)

-- The ring behind the next thread `x`, with the thread that was running, if it is not finished, at the
-- place that it had.
abbrev pub after : Sched → List ℕ → List ℕ → List ℕ
after s ys zs =
    if is_finished (s.threads s.current_thread).state then zs ++ ys else zs ++ s.current_thread ∷ ys

unscheduled :
    (s : Sched) (x : ℕ) (ys zs : List ℕ)
    → s.current_thread ≢ s.kernel_thread
    → IsRing s s.current_thread (ys ++ x ∷ zs)
    → IsRing (unschedule_thread s s.current_thread) x (zs ++ ys)
unscheduled s x [] zs k r = rw append-nil (unschedule_thread-IsRing s s.current_thread x zs k r)
unscheduled s x (y ∷ ys) zs k r =
    IsRing-enter (unschedule_thread s s.current_thread) y x ys zs
      (unschedule_thread-IsRing s s.current_thread y (ys ++ x ∷ zs) k r)

leave-IsRing :
    (s : Sched) (old_esp cycles x : ℕ) (ys zs : List ℕ)
    → IsRing s s.current_thread (ys ++ x ∷ zs)
    → (is_finished (s.threads s.current_thread).state ≡ true → s.current_thread ≢ s.kernel_thread)
    → IsRing (leave s old_esp cycles) x (after s ys zs)
leave-IsRing s old_esp cycles x ys zs r k =
    elim (Bool-cases (is_finished (s.threads s.current_thread).state)) [
      | inr going ↦ rw going (
          IsRing-same s (leave s old_esp cycles) x (zs ++ s.current_thread ∷ ys)
            (λ y. (leave-links s old_esp cycles going y).0)
            (λ y. (leave-links s old_esp cycles going y).1)
            (IsRing-enter s s.current_thread x ys zs r))
      | inl done ↦ rw done (
          IsRing-same (unschedule_thread s s.current_thread) (leave s old_esp cycles) x (zs ++ ys)
            (λ y. (leave_finished-links s old_esp cycles done y).0)
            (λ y. (leave_finished-links s old_esp cycles done y).1)
            (unscheduled s x ys zs (k done) r))
    ]

module _ (fuel : ℕ) (s : Sched) (old_esp start now end : ℕ) where
  abbrev elapsed : ℕ
  elapsed =
      (now + 2 ^ 64 - (if s.old_cycles_count == 0 then start else s.old_cycles_count)) % 2 ^ 64

  tick-switch :
      (x : ℕ)
      → next_ready_thread fuel s ≡ some x
      → x ≢ 0
      → x ≢ s.current_thread
      → schedule_tick fuel s old_esp start now end
        ≡ some (
          ((leave s old_esp elapsed).threads x).esp,
          record (enter (leave s old_esp elapsed) x) { old_cycles_count = end },
        )
  unfolding schedule_tick
  tick-switch x e nz nc =
      let t : (x == 0 || x == s.current_thread) ≡ false = ground arith in
      rw (e, schedule_tick) (rw t)

leave-thread :
    (s : Sched) (old_esp cycles x : ℕ)
    → x ≢ s.current_thread
    → (((leave s old_esp cycles).threads x).esp ≡ (s.threads x).esp)
unfolding leave unschedule_thread destroy_thread update
leave-thread s old_esp cycles x ne = ground arith

leave-saved :
    (s : Sched) (old_esp cycles : ℕ)
    → is_finished (s.threads s.current_thread).state ≡ false
    → (((leave s old_esp cycles).threads s.current_thread).esp ≡ old_esp)
      × (((leave s old_esp cycles).threads s.current_thread).state ≡ ready)
unfolding leave update
leave-saved s old_esp cycles h = (ground arith, ground arith)

enter-other : (s : Sched) (x c : ℕ) → c ≢ x → (enter s x).threads c ≡ s.threads c
unfolding enter update
enter-other s x c ne = ground arith

enter_self :
    (s : Sched) (x : ℕ)
    → ((enter s x).current_thread ≡ x)
      × (((enter s x).threads x).state ≡ running)
      × ((enter s x).esp0 ≡ (s.threads x).esp)
unfolding enter update
enter_self s x = (ground arith, ground arith, ground arith)

pub member-ne : (c x : ℕ) (ys zs : List ℕ) → NotIn c (ys ++ x ∷ zs) → c ≢ x
member-ne c x [] zs n = n.0
member-ne c x (y ∷ ys) zs n = member-ne c x ys zs n.1

-- The outcome of a switch from the state `s` to the thread `x`.
pub record Switched (s : Sched) (old_esp x : ℕ) (ys zs : List ℕ) (out : ℕ × Sched) : Type 0 where
  pub resumes : out.0 ≡ (s.threads x).esp
  pub kernel_stack : out.1.esp0 ≡ (s.threads x).esp
  pub current : out.1.current_thread ≡ x
  pub runs : (out.1.threads x).state ≡ running
  pub saved :
      is_finished (s.threads s.current_thread).state ≡ false
      → ((out.1.threads s.current_thread).esp ≡ old_esp)
        × ((out.1.threads s.current_thread).state ≡ ready)
  pub ring : IsRing out.1 x (after s ys zs)

-- A tick in a ring where some thread `x` behind sleeping threads `ys` is awake: the search ends, and
-- `x` runs next from its saved stack pointer. The thread that was running keeps its place in the ring,
-- with its stack pointer saved and the state ready, or leaves the ring if it is finished. The finished
-- thread must not be the kernel thread.
pub schedule_tick-Switched :
    (fuel : ℕ) (s : Sched) (old_esp start now end x : ℕ) (ys zs : List ℕ)
    → IsRing s s.current_thread (ys ++ x ∷ zs)
    → AllSleep s ys
    → is_sleep (s.threads x).state ≡ false
    → length ys < fuel
    → (is_finished (s.threads s.current_thread).state ≡ true → s.current_thread ≢ s.kernel_thread)
    → (out : ℕ × Sched) × (schedule_tick fuel s old_esp start now end ≡ some out)
      × Switched s old_esp x ys zs out
schedule_tick-Switched fuel s old_esp start now end x ys zs r sl aw enough k =
    let c = s.current_thread in
    let cx : c ≢ x = member-ne c x ys zs r.1.0 in
    let x0 : 0 ≢ x = member-ne 0 x ys zs r.2.1 in
    let s1 = leave s old_esp (elapsed fuel s old_esp start now end) in
    let found : next_ready_thread fuel s ≡ some x = search_found in
    let (cur, run, stack) = enter_self s1 x in
    let esp_same =
      leave-thread s old_esp (elapsed fuel s old_esp start now end) x (λ e. cx (sym e)) in
    (
      ((s1.threads x).esp, record (enter s1 x) { old_cycles_count = end }),
      tick-switch fuel s old_esp start now end x found (λ e. x0 (sym e)) (λ e. cx (sym e)),
      record {
        resumes = esp_same;
        kernel_stack = stack ∙ esp_same;
        current = cur;
        runs = run;
        saved = λ going.
            let (esp_saved, is_ready) =
              leave-saved s old_esp (elapsed fuel s old_esp start now end) going in
            let same = enter-other s1 x c cx in
            (
              ap (λ (t : Thread). t.esp) same ∙ esp_saved,
              ap (λ (t : Thread). t.state) same ∙ is_ready,
            );
        ring =
            IsRing-same s1 (record (enter s1 x) { old_cycles_count = end }) x (after s ys zs)
              (λ y. (enter-links s1 x y).0) (λ y. (enter-links s1 x y).1)
              (leave-IsRing s old_esp (elapsed fuel s old_esp start now end) x ys zs r k);
      },
    )
  where
    search_found : next_ready_thread fuel s ≡ some x
    search_found =
        unfold next_ready_thread in
        let c0 : (s.current_thread == 0) ≡ false =
          let n : 0 ≢ s.current_thread = r.2.0 in ground arith in
        rw c0 (
          skip_sleeping-first fuel s s.current_thread s.current_thread x ys zs r.0 r.2.1 sl aw
            enough)
