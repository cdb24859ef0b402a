-- ===== src/Scheduler/Links.antt =====
-- `schedule_thread` and `unschedule_thread` of kernel/scheduler.c on the ring of threads.
use toutatis.Common.{ℕ, ◌≡◌, ◌≢◌, sym, ◌∙◌, arith, List, [], ◌∷◌, ◌++◌, ◌==◌, if◌then◌else◌, false}
use toutatis.Common.Store.{update}
use toutatis.Scheduler.{
  Sched, TaskState, next_of, prev_of, ready, schedule_thread, unschedule_thread, set_next, set_prev,
  set_state,
}
use toutatis.Scheduler.Ring.{
  NotIn, Distinct, Linked, Linked-insert, Linked-remove, Linked-turn, last-ne,
}

-- The threads `c`, then `xs` in order, then `c` again.
abbrev pub IsRing : Sched → ℕ → List ℕ → Type 0
IsRing s c xs = Linked (next_of s) (prev_of s) c xs c × Distinct (c ∷ xs) × NotIn 0 (c ∷ xs)

NotIn-append : (a b : ℕ) (xs : List ℕ) → NotIn a xs → a ≢ b → NotIn a (xs ++ b ∷ [])
NotIn-append a b [] n ne = (ne, tt)
NotIn-append a b (x ∷ xs) n ne = (n.0, NotIn-append a b xs n.1 ne)

Distinct-append : (b : ℕ) (xs : List ℕ) → Distinct xs → NotIn b xs → Distinct (xs ++ b ∷ [])
Distinct-append b [] d n = (tt, tt)
Distinct-append b (x ∷ xs) d n =
    (NotIn-append x b xs d.0 (λ e. n.0 (sym e)), Distinct-append b xs d.1 n.1)

NotIn-drop_last : (a b : ℕ) (xs : List ℕ) → NotIn a (xs ++ b ∷ []) → NotIn a xs
NotIn-drop_last a b [] n = tt
NotIn-drop_last a b (x ∷ xs) n = (n.0, NotIn-drop_last a b xs n.1)

-- Entering a ring at its second member.
pub IsRing-turn :
    (s : Sched) (c x : ℕ) (xs : List ℕ) → IsRing s c (x ∷ xs) → IsRing s x (xs ++ c ∷ [])
IsRing-turn s c x xs (l, d, z) = (
  Linked-turn (next_of s) (prev_of s) c x xs l,
  Distinct-append c (x ∷ xs) d.1 d.0,
  NotIn-append 0 c (x ∷ xs) z.1 z.0,
)

state-set_next : (s : Sched) (p q y : ℕ) → ((set_next s p q).threads y).state ≡ (s.threads y).state
unfolding set_next update
state-set_next s p q y = ground arith

state-set_prev : (s : Sched) (p q y : ℕ) → ((set_prev s p q).threads y).state ≡ (s.threads y).state
unfolding set_prev update
state-set_prev s p q y = ground arith

state-set_state : (s : Sched) (p : ℕ) (st : TaskState) → ((set_state s p st).threads p).state ≡ st
unfolding set_state update
state-set_state s p st = ground arith

module _ (s : Sched) (th : ℕ) where
  next-schedule :
      th ≢ 0
      → s.kernel_thread ≢ 0
      → th ≢ s.current_thread
      → (y : ℕ)
      → next_of (schedule_thread s th) y ≡ (
          if y == prev_of s s.current_thread
          then th
          else (if y == th then s.current_thread else next_of s y))
  unfolding schedule_thread update
  next-schedule h k n y = ground arith

  prev-schedule :
      th ≢ 0
      → s.kernel_thread ≢ 0
      → th ≢ s.current_thread
      → (y : ℕ)
      → prev_of (schedule_thread s th) y ≡ (
          if y == s.current_thread
          then th
          else (if y == th then prev_of s s.current_thread else prev_of s y))
  unfolding schedule_thread update
  prev-schedule h k n y = ground arith

  current-schedule :
      th ≢ 0 → s.kernel_thread ≢ 0 → (schedule_thread s th).current_thread ≡ s.current_thread
  unfolding schedule_thread
  current-schedule h k = ground arith

  state-schedule : th ≢ 0 → s.kernel_thread ≢ 0 → ((schedule_thread s th).threads th).state ≡ ready
  unfolding schedule_thread
  state-schedule h k =
      let a : (th == 0) ≡ false = ground arith in
      let b : (s.kernel_thread == 0) ≡ false = ground arith in
      let c = s.current_thread in
      let s1 = set_next (set_state s th ready) th 0 in
      let s2 = set_prev s1 th 0 in
      let s3 = set_prev s2 th (prev_of s2 c) in
      let s4 = set_next s3 th c in
      let s5 = set_next s4 (prev_of s4 c) th in
      rw (a, b)
        (state-set_prev s5 c th th
          ∙ state-set_next s4 (prev_of s4 c) th th
          ∙ state-set_next s3 th c th
          ∙ state-set_prev s2 th (prev_of s2 c) th
          ∙ state-set_prev s1 th 0 th
          ∙ state-set_next (set_state s th ready) th 0 th
          ∙ state-set_state s th ready)

  -- Once there is a kernel thread, a thread that is not in the ring goes in at its end, just before the
  -- current thread, which stays the current one; the new thread is ready.
  pub schedule_thread-IsRing :
      (xs : List ℕ)
      → th ≢ 0
      → s.kernel_thread ≢ 0
      → NotIn th (s.current_thread ∷ xs)
      → IsRing s s.current_thread xs
      → IsRing (schedule_thread s th) s.current_thread (xs ++ th ∷ [])
        × ((schedule_thread s th).current_thread ≡ s.current_thread)
        × (((schedule_thread s th).threads th).state ≡ ready)
  schedule_thread-IsRing xs h k out (l, d, z) = (
    (
      Linked-insert (next_of s) (prev_of s) (next_of (schedule_thread s th))
          (prev_of (schedule_thread s th)) s.current_thread th (next-schedule h k out.0)
          (prev-schedule h k out.0) s.current_thread xs l d d.0 out out.0,
      Distinct-append th (s.current_thread ∷ xs) d out,
      NotIn-append 0 th (s.current_thread ∷ xs) z (λ e. h (sym e)),
    ),
    current-schedule h k,
    state-schedule h k,
  )

  -- The first thread makes a ring of one, and is both the kernel thread and the current one.
  pub schedule_thread-first :
      th ≢ 0
      → s.kernel_thread ≡ 0
      → IsRing (schedule_thread s th) th []
        × ((schedule_thread s th).kernel_thread ≡ th)
        × ((schedule_thread s th).current_thread ≡ th)
  unfolding schedule_thread update
  schedule_thread-first h k =
      (((ground arith, ground arith), (tt, tt), (λ e. h (sym e), tt)), ground arith, ground arith)

  next-unschedule :
      th ≢ 0
      → th ≢ s.kernel_thread
      → prev_of s th ≢ 0
      → (y : ℕ)
      → next_of (unschedule_thread s th) y
        ≡ (if y == prev_of s th then next_of s th else next_of s y)
  unfolding unschedule_thread update
  next-unschedule h k p y = ground arith

  prev-unschedule :
      th ≢ 0
      → th ≢ s.kernel_thread
      → prev_of s th ≢ 0
      → prev_of s th ≢ th
      → next_of s th ≢ 0
      → (y : ℕ)
      → prev_of (unschedule_thread s th) y
        ≡ (if y == next_of s th then prev_of s th else prev_of s y)
  unfolding unschedule_thread update
  prev-unschedule h k p pt n y = ground arith

  -- Any thread of a ring of two or more, save the kernel thread, can be taken out: what is left is the
  -- ring of the others in the same order, entered at the thread behind it.
  pub unschedule_thread-IsRing :
      (x : ℕ) (xs : List ℕ)
      → th ≢ s.kernel_thread
      → IsRing s th (x ∷ xs)
      → IsRing (unschedule_thread s th) x xs
  unschedule_thread-IsRing x xs k (l, d, z) =
      let h : th ≢ 0 = λ e. z.0 (sym e) in
      let n0 : next_of s th ≢ 0 = λ e. z.1.0 (sym e ∙ l.0) in
      let p0 : prev_of s th ≢ 0 = last-ne (next_of s) (prev_of s) x th 0 xs l.2 z.1 in
      let pt : prev_of s th ≢ th = last-ne (next_of s) (prev_of s) x th th xs l.2 d.0 in
      (
        Linked-remove (next_of s) (prev_of s) (next_of (unschedule_thread s th))
            (prev_of (unschedule_thread s th)) th (next-unschedule h k p0)
            (prev-unschedule h k p0 pt n0) x x xs (Linked-turn (next_of s) (prev_of s) th x xs l)
            d.1 d.1.0,
        d.1,
        z.1,
      )
