-- ===== src/Lock/Sequential.antt =====
-- Calls of `iol_notify` and `iol_task_run` one after the other.
use c_web_socket_pico_w_test.Base.{
  ℕ, zero, suc, ◌<◌, ◌≡◌, refl, ◌∙◌, Bool, true, false, some, Bool-cases, inl, inr, arith,
}
use c_web_socket_pico_w_test.Lock.{Lock, continue, task_run}

lt_of_le : {a b c : ℕ} → a < b → b < suc c → a < c
lt_of_le h k = omega arith

module _ {ℓ} {U : Type ℓ} (resume : ℕ → U → ℕ × U) (check_reason : U → ℕ → ℕ → Bool) where
  -- Nothing is left to do: the lock is free, and the task waits for what has not come up.
  pub record IsSettled (lock : Lock) (user : U) : Type ℓ where
    pub free : lock.locked ≡ false
    pub waits : check_reason user lock.waiting_reason lock.active_err ≡ false

  -- One round of the loop on a free lock.
  round : Lock → U → Lock × U
  round lock user =
      let (reason, user') = resume lock.active_err user in
      (record { waiting_reason = reason; active_err = lock.active_err; locked = false }, user')

  more_to_do : Lock → U → Bool
  more_to_do lock user = check_reason user lock.waiting_reason lock.active_err

  continue-more :
      (fuel : ℕ) (lock : Lock) (user : U)
      → lock.locked ≡ false
      → more_to_do (round lock user).0 (round lock user).1 ≡ true
      → continue resume check_reason (suc fuel) lock user
        ≡ continue resume check_reason fuel (round lock user).0 (round lock user).1
  unfolding continue round more_to_do
  continue-more fuel lock user free more = ground arith

  continue-done :
      (fuel : ℕ) (lock : Lock) (user : U)
      → lock.locked ≡ false
      → more_to_do (round lock user).0 (round lock user).1 ≡ false
      → continue resume check_reason (suc fuel) lock user ≡ some (round lock user)
  unfolding continue round more_to_do
  continue-done fuel lock user free done = ground arith

  -- The lock behind the first part of a task.
  yielded : ℕ → Lock
  yielded reason = record { waiting_reason = reason; active_err = 0; locked = false }

  task_run-more :
      (fuel : ℕ) (run : U → ℕ × U) (user : U)
      → check_reason (run user).1 (run user).0 0 ≡ true
      → task_run resume check_reason fuel run user
        ≡ continue resume check_reason fuel (yielded (run user).0) (run user).1
  unfolding task_run yielded
  task_run-more fuel run user more = ground arith

  task_run-done :
      (fuel : ℕ) (run : U → ℕ × U) (user : U)
      → check_reason (run user).1 (run user).0 0 ≡ false
      → task_run resume check_reason fuel run user ≡ some (yielded (run user).0, (run user).1)
  unfolding task_run yielded
  task_run-done fuel run user done = ground arith

  -- With the error `err`, each run of the task that leaves its next reason ready has used up some of
  -- what it waits for.
  abbrev pub Progress : ℕ → (U → ℕ) → Type ℓ
  Progress err measure =
      (user : U)
      → check_reason (resume err user).1 (resume err user).0 err ≡ true
      → measure (resume err user).1 < measure user

  module _ (measure : U → ℕ) where
    continue-settles :
        (fuel : ℕ) (lock : Lock) (user : U)
        → Progress lock.active_err measure
        → lock.locked ≡ false
        → measure user < fuel
        → (lock' : Lock) × (user' : U) × (continue resume check_reason fuel lock user
            ≡ some (lock', user'))
          × IsSettled lock' user'
          × (lock'.active_err ≡ lock.active_err)
    unfolding round more_to_do
    continue-settles zero lock user progress free h = absurd (omega arith)
    continue-settles (suc fuel) lock user progress free h =
        elim (Bool-cases (more_to_do (round lock user).0 (round lock user).1)) [
          | inl more ↦
              let less : measure (round lock user).1 < fuel = lt_of_le (progress user more) h in
              let (lock', user', e, settled, same) =
                continue-settles fuel (round lock user).0 (round lock user).1 progress refl less in
              (lock', user', continue-more fuel lock user free more ∙ e, settled, same)
          | inr done ↦ (
            (round lock user).0,
            (round lock user).1,
            continue-done fuel lock user free done,
            record { free = refl; waits = done },
            refl,
          )
        ]

    -- `iol_task_run`, whatever the lock held before: with more fuel than the measure of what the
    -- first part of the task leaves, it ends with the lock free, no error stored, and the task
    -- waiting for something that has not come up.
    pub task_run-settles :
        (fuel : ℕ) (run : U → ℕ × U) (user : U)
        → Progress 0 measure
        → measure (run user).1 < fuel
        → (lock' : Lock) × (user' : U) × (task_run resume check_reason fuel run user
            ≡ some (lock', user'))
          × IsSettled lock' user'
          × (lock'.active_err ≡ 0)
    task_run-settles fuel run user progress h =
        elim (Bool-cases (check_reason (run user).1 (run user).0 0)) [
          | inl more ↦
              let (lock', user', e, settled, kept) =
                continue-settles fuel (yielded (run user).0) (run user).1
                  (unfold yielded in progress) (unfold yielded in refl) h in
              (
                lock',
                user',
                task_run-more fuel run user more ∙ e,
                settled,
                kept ∙ unfold yielded in refl,
              )
          | inr done ↦ (
            yielded (run user).0,
            (run user).1,
            task_run-done fuel run user done,
            record { free = unfold yielded in refl; waits = unfold yielded in done },
            unfold yielded in refl,
          )
        ]
