-- ===== src/Lock.antt =====
-- iol_lock.c and iol_lock.h: the lock that resumes a waiting task when its reason comes up.
-- The task itself (sub_task.S switches to its stack) and `check_reason` are parameters: `resume`
-- runs the task with an argument until it yields a reason, or ends and returns one.
pub mod Sequential
pub mod Steps
pub mod Invariant
pub mod Watched
pub mod Wakeup
mod Examples
use c_web_socket_pico_w_test.Base.{
  ℕ, zero, suc, Bool, true, false, Option, none, some, ◌==◌, not, if◌then◌else◌,
}

-- `IOL_YIELD_REASON_END`.
abbrev pub yield_reason_end : ℕ
yield_reason_end = 0

-- The fields of `iol_lock_obj` that change; `waiting_task`, `user_obj` and `check_reason` are set
-- once.
pub record Lock : Type 0 where
  pub waiting_reason : ℕ
  pub active_err : ℕ
  pub locked : Bool

-- `iol_unlock`.
unfoldable pub unlock : Lock → Lock
unlock lock = record lock { locked = false }

-- `iol_trylock`, where `entered` is what `mutex_try_enter` returns.
unfoldable pub trylock : Bool → Lock → Bool × Lock
trylock entered lock =
    if entered
    then (if lock.locked then (false, lock) else (true, record lock { locked = true }))
    else (false, lock)

module _ {ℓ} {U : Type ℓ} (resume : ℕ → U → ℕ × U) (check_reason : U → ℕ → ℕ → Bool) where
  -- The loop of `iol_continue`, with nobody else in the mutex; `none` if it does not end within the
  -- fuel.
  unfoldable pub continue : ℕ → Lock → U → Option (Lock × U)
  unfolding trylock unlock
  continue zero lock user = none
  continue (suc fuel) lock user =
      let (got, held) = trylock true lock in
      let (reason, user') = resume held.active_err user in
      let free = unlock (record held { waiting_reason = reason }) in
      let again = continue fuel free user' in
      if got
      then (if check_reason user' free.waiting_reason free.active_err
          then again
          else some (free, user'))
      else some (lock, user)

  -- `iol_notify`; nobody uses its result.
  unfoldable pub notify : ℕ → Lock → U → ℕ → ℕ → Option (Lock × U)
  unfolding continue
  notify fuel lock user reason err =
      if lock.waiting_reason == reason
      then continue fuel (if err == 0 then lock else record lock { active_err = err }) user
      else some (lock, user)

  -- `iol_task_run`; `run` is the first part of the task, up to its first yield or its end.
  unfoldable pub task_run : ℕ → (U → ℕ × U) → U → Option (Lock × U)
  unfolding continue trylock unlock
  task_run fuel run user =
      let fresh : Lock = record { waiting_reason = 0; active_err = 0; locked = false } in
      let (_, held) = trylock true fresh in
      let (reason, user') = run user in
      let free = unlock (record held { waiting_reason = reason }) in
      if check_reason user' free.waiting_reason free.active_err
      then continue fuel free user'
      else some (free, user')
