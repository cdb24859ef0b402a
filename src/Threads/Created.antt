-- ===== src/Threads/Created.antt =====
-- `create_thread` of kernel/thread.c.
use toutatis.Common.{
  ℕ, ◌≡◌, ◌⊎◌, inl, inr, refl, arith, Bool, true, ◌&&◌, ◌||◌, List, [], ◌∷◌, ◌==◌, Bool-cases,
}
use toutatis.Threads.{Tasks, data_segment, code_segment, eflags, create_thread}

-- What a new thread finds on its kernel stack, in the order in which it is taken off: four data
-- segments, seven registers, the interrupt number and the error code, the entry, the code segment and
-- the flags, and then two words `next` and `last`.
abbrev pub context : Bool → Bool → ℕ → ℕ → ℕ → List ℕ
context user vm entry next last =
    data_segment user
    ∷ data_segment user
    ∷ data_segment user
    ∷ data_segment user
    ∷ 0
    ∷ 0
    ∷ 0
    ∷ 0
    ∷ 0
    ∷ 0
    ∷ 0
    ∷ 0
    ∷ 0
    ∷ entry
    ∷ code_segment user
    ∷ eflags user vm
    ∷ next
    ∷ last
    ∷ []

module _ (thread kstack ustack exit kernel_directory : ℕ) (t : Tasks)
    (process entry args priority : ℕ) (user vm : Bool) where
  -- A thread with no place, and one without a stack that it needs, are given up: the result is 0, no
  -- number is taken, no word of a stack is written, and no memory is given back.
  pub create_thread-refused :
      (thread ≡ 0) ⊎ ((kstack ≡ 0) ⊎ ((user ≡ true) × (ustack ≡ 0)))
      → let (id, t1) =
          create_thread thread kstack ustack exit kernel_directory t process entry args priority
            user vm in
        (id ≡ 0)
        × (t1.last_thread_id ≡ t.last_thread_id)
        × (t1.words ≡ t.words)
        × (t1.sched.freed ≡ t.sched.freed)
        × (t1.sched.num_threads ≡ t.sched.num_threads)
  unfolding create_thread
  create_thread-refused h = elim (Bool-cases (thread == 0)) [
    | inl z ↦ rw z (refl, refl, refl, refl, refl)
    | inr n ↦
        let missing : kstack == 0 || (user && ustack == 0) ≡ true = ground arith in
        rw (n, missing) (refl, refl, refl, refl, refl)
  ]
