-- ===== src/Lock/Steps.antt =====
-- `iol_notify`, `iol_continue` and `iol_task_run` on several cores and in interrupts at once: each
-- context goes through the code in small steps, and the steps interleave. The contexts are numbered.
-- Each access to `locked`, to the mutex and to a field that is stored is a step of its own; the call
-- of `check_reason`, and a run of the task, is one step.
use native.Mathlib.Decide.{ℕ_discrete}
use mathlib.Core.Logic.{ite}
use c_web_socket_pico_w_test.Base.{
  ℕ, ◌≡◌, ◌≢◌, ◌⊎◌, Bool, true, false, ◌||◌, Option, none, some, List, [], ◌∷◌, ◌==◌, if◌then◌else◌,
}
use c_web_socket_pico_w_test.Lock.{Lock}

-- Where a context stands.
pub data Pc : Type 0 where
  -- outside of the lock's code
  idle : Pc
  -- at the start of `iol_notify(lock, reason, err)`
  calling : ℕ → ℕ → Pc
  -- behind the test of `waiting_reason`, before `active_err` is stored
  noting : ℕ → Pc
  -- before `mutex_try_enter`; behind it, before `locked` is read
  trying inside : Pc
  -- `locked` was read and was false; it is stored; `mutex_exit` comes next
  seen_free taken : Pc
  -- `locked` was read and was true; `mutex_exit` comes next
  refused : Pc
  -- the task runs; it has yielded or returned a reason; the reason is stored
  running : Pc
  storing : ℕ → Pc
  unlocking : Pc
  -- behind `iol_unlock`, before `check_reason`
  checking : Pc

abbrev pub contains : List ℕ → ℕ → Bool
contains [] w = false
contains (r ∷ rs) w = r == w || contains rs w

abbrev pub update {ℓ} : {A : Type ℓ} → (ℕ → A) → ℕ → A → ℕ → A
update f i a j = ite (ℕ_discrete i j) a (f j)

module _ {ℓ} (U : Type ℓ) where
  -- The lock, what the task and the callbacks share, and who is in `global_core_lock`.
  pub record Shared : Type ℓ where
    pub lock : Lock
    pub user : U
    pub mutex : Option ℕ

-- `fails` tells whether `mutex_try_enter` may fail.
module _ {ℓ} {U : Type ℓ} (check_reason : U → ℕ → ℕ → Bool) (fails : Bool) where
  -- What the task would be told to wait on for is there.
  abbrev pub ready : Shared U → Bool
  ready s = check_reason s.user s.lock.waiting_reason s.lock.active_err

  -- The steps of context `i` in the code of the lock.
  pub data Move (i : ℕ) (s : Shared U) : Pc → Shared U → Pc → Type ℓ where
    skip : {reason err : ℕ} → s.lock.waiting_reason ≢ reason → Move i s (calling reason err) s idle
    accept :
        {reason err : ℕ}
        → s.lock.waiting_reason ≡ reason
        → Move i s (calling reason err) s (noting err)
    note :
        {err : ℕ}
        → Move i s
            (noting err)
            (record s {
              lock = record s.lock { active_err = if err == 0 then s.lock.active_err else err };
            })
            trying
    enter : s.mutex ≡ none → Move i s trying (record s { mutex = some i }) inside
    miss : {k : ℕ} → fails ≡ true → s.mutex ≡ some k → Move i s trying s idle
    see_free : s.lock.locked ≡ false → Move i s inside s seen_free
    see_taken : s.lock.locked ≡ true → Move i s inside s refused
    take : Move i s seen_free (record s { lock = record s.lock { locked = true } }) taken
    leave : Move i s taken (record s { mutex = none }) running
    give_up : Move i s refused (record s { mutex = none }) idle
    -- The task does what it likes with the shared data, and yields or returns any reason.
    yield : (user' : U) (reason : ℕ) → Move i s running (record s { user = user' }) (storing reason)
    store :
        {reason : ℕ}
        → Move i s
            (storing reason)
            (record s { lock = record s.lock { waiting_reason = reason } })
            unlocking
    release : Move i s unlocking (record s { lock = record s.lock { locked = false } }) checking
    again : ready s ≡ true → Move i s checking s trying
    stop : ready s ≡ false → Move i s checking s idle

  -- Each context stands somewhere, and its callback has notifications to make, with one error.
  pub record System : Type ℓ where
    pub shared : Shared U
    pub pc : ℕ → Pc
    pub reasons : ℕ → List ℕ
    pub err : ℕ → ℕ

  -- A step of a context: in the lock's code; or a callback changes the shared data; or it makes the
  -- next of its notifications. What comes up by the change is among the reasons that it notifies.
  pub data Step (s : System) : System → Type ℓ where
    pick :
        (i : ℕ) {t : Shared U} {p : Pc}
        → Move i s.shared (s.pc i) t p
        → Step s (record s { shared = t; pc = update s.pc i p })
    arrive :
        (i : ℕ) (user' : U) (reasons : List ℕ) (err : ℕ)
        → s.pc i ≡ idle
        → s.reasons i ≡ []
        → ((w e : ℕ)
            → check_reason user' w e ≡ true
            → (check_reason s.shared.user w e ≡ true) ⊎ (contains reasons w ≡ true))
        → Step s (record s {
          shared = record s.shared { user = user' };
          reasons = update s.reasons i reasons;
          err = update s.err i err;
        })
    call :
        (i reason : ℕ) (rest : List ℕ)
        → s.pc i ≡ idle
        → s.reasons i ≡ reason ∷ rest
        → Step s (record s {
          pc = update s.pc i (calling reason (s.err i));
          reasons = update s.reasons i rest;
        })

  -- `iol_task_run` has set the fields and is about to take the lock; no other context is under way.
  abbrev pub start : U → System
  start user = record {
    shared = record {
      lock = record { waiting_reason = 0; active_err = 0; locked = false };
      user = user;
      mutex = none;
    };
    pc = update (λ _. idle) 0 trying;
    reasons = λ _. [];
    err = λ _. 0;
  }

  pub data Reach (user : U) : System → Type ℓ where
    begin : Reach user (start user)
    next : {s t : System} → Reach user s → Step s t → Reach user t

infixl 20 ◌▹◌
abbrev pub ◌▹◌ {ℓ} :
    {U : Type ℓ} {check_reason : U → ℕ → ℕ → Bool} {fails : Bool} {user : U}
    {s t : System check_reason fails}
    → Reach check_reason fails user s
    → Step check_reason fails s t
    → Reach check_reason fails user t
r ▹ st = next r st
