-- ===== src/Scheduler/Registered.antt =====
-- `schedule_thread` of kernel/scheduler.c: the stack pointers of the threads.
use toutatis.Common.{ℕ, ◌≡◌, refl, sym, ◌∙◌, ap, inl, inr, ◌==◌, Bool-cases}
use toutatis.Common.Store.{update, update-cases}
use toutatis.Scheduler.{
  Thread, Sched, TaskState, ready, set_next, set_prev, set_state, prev_of, insert_before,
  schedule_thread,
}

abbrev SameEsp : Sched → Sched → Type 0
SameEsp s s' = (q : ℕ) → (s'.threads q).esp ≡ (s.threads q).esp

update-esp :
    (s : ℕ → Thread) (p : ℕ) (th : Thread)
    → th.esp ≡ (s p).esp
    → (q : ℕ) → (update s p th q).esp ≡ (s q).esp
update-esp s p th h q = elim (update-cases s p q th) [
  | inl (e, u) ↦ ap (λ m. m.esp) u ∙ h ∙ ap (λ x. (s x).esp) (sym e)
  | inr (ne, u) ↦ ap (λ m. m.esp) u
]

set_next-esp : (s : Sched) (p v : ℕ) → SameEsp s (set_next s p v)
unfolding set_next
set_next-esp s p v = update-esp s.threads p _ refl

set_prev-esp : (s : Sched) (p v : ℕ) → SameEsp s (set_prev s p v)
unfolding set_prev
set_prev-esp s p v = update-esp s.threads p _ refl

set_state-esp : (s : Sched) (p : ℕ) (st : TaskState) → SameEsp s (set_state s p st)
unfolding set_state
set_state-esp s p st = update-esp s.threads p _ refl

insert_before-esp : (s : Sched) (th c : ℕ) → SameEsp s (insert_before s th c)
insert_before-esp s th c =
    let s1 = set_prev s th (prev_of s c) in
    let s2 = set_next s1 th c in
    let s3 = set_next s2 (prev_of s2 c) th in
    λ q.
      set_prev-esp s3 c th q
      ∙ set_next-esp s2 (prev_of s2 c) th q
      ∙ set_next-esp s1 th c q
      ∙ set_prev-esp s th (prev_of s c) q

-- A thread that is registered keeps its stack pointer, as all others do.
pub schedule_thread-esp :
    (s : Sched) (th q : ℕ) → ((schedule_thread s th).threads q).esp ≡ (s.threads q).esp
unfolding schedule_thread
schedule_thread-esp s th q =
    let s1 = set_state s th ready in
    let s2 = set_next s1 th 0 in
    let s3 = set_prev s2 th 0 in
    let bare : (s3.threads q).esp ≡ (s.threads q).esp =
      set_prev-esp s2 th 0 q ∙ set_next-esp s1 th 0 q ∙ set_state-esp s th ready q in
    elim (Bool-cases (th == 0)) [
      | inl z ↦ rw z refl
      | inr n ↦ elim (Bool-cases (s.kernel_thread == 0)) [
        | inl z ↦
            let s4 : Sched = record s3 { kernel_thread = th; current_thread = th } in
            rw (n, z) (set_next-esp (set_prev s4 th th) th th q ∙ set_prev-esp s4 th th q ∙ bare)
        | inr m ↦ rw (n, m) (insert_before-esp s3 th s.current_thread q ∙ bare)
      ]
    ]
