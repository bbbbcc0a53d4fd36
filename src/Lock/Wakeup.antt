-- ===== src/Lock/Wakeup.antt =====
-- What the lock promises when notifications come at any time, and what it does not.
use native.Mathlib.Decide.{ℕ_discrete}
use c_web_socket_pico_w_test.Base.{
  ℕ, zero, suc, ◌≡◌, ◌⊎◌, inl, refl, Bool, true, false, none, List, [], ◌∷◌, arith,
}
use c_web_socket_pico_w_test.Lock.Steps.{
  idle, contains, accept, note, enter, miss, see_free, see_taken, take, leave, give_up, yield,
  store, release, again, stop, System, pick, arrive, call, Reach, begin, ◌▹◌,
}
use c_web_socket_pico_w_test.Lock.Invariant.{holding, Reach-Inv}

from-three : (P : ℕ → Type 0) → P 0 → P 1 → P 2 → ((n : ℕ) → P (suc (suc (suc n)))) → (i : ℕ) → P i
from-three P a b c rest zero = a
from-three P a b c rest (suc zero) = b
from-three P a b c rest (suc (suc zero)) = c
from-three P a b c rest (suc (suc (suc n))) = rest n

module _ {ℓ} {U : Type ℓ} (check_reason : U → ℕ → ℕ → Bool) where
  -- In every reachable state at most one context has the lock: the task is never continued while it
  -- runs, however many callbacks come and however the steps of the contexts interleave. The callbacks
  -- notify each reason that they make ready.
  pub mutual_exclusion :
      (fails : Bool) (user : U) (s : System check_reason fails)
      → Reach check_reason fails user s
      → (i j : ℕ) → holding (s.pc i) ≡ true
      → holding (s.pc j) ≡ true
      → i ≡ j
  mutual_exclusion fails user s r = (Reach-Inv check_reason fails r).one_holder

  nothing_new :
      (user : U) (reasons : List ℕ) (w e : ℕ)
      → check_reason user w e ≡ true
      → (check_reason user w e ≡ true) ⊎ (contains reasons w ≡ true)
  nothing_new user reasons w e h = inl h

  -- A wake-up can be lost. Context 1 continues the task; what the task waits for comes up by the
  -- callback of context 2, which reads `locked` while the task still runs; before it leaves the
  -- mutex, context 1 unlocks, sees that there is more to do, fails in `mutex_try_enter` and gives up,
  -- and so does context 2. In the end no context is in the lock's code or has a notification to make,
  -- the lock and the mutex are free, and the reason that the task waits for is there.
  pub lost_wakeup :
      (user user' : U) (reason : ℕ)
      → check_reason user reason 0 ≡ false
      → check_reason user' reason 0 ≡ true
      → ((w e : ℕ)
          → check_reason user' w e ≡ true
          → (check_reason user w e ≡ true) ⊎ (contains (reason ∷ []) w ≡ true))
      → (s : System check_reason true) × Reach check_reason true user s
        × ((i : ℕ) → (s.pc i ≡ idle) × (s.reasons i ≡ []))
        × (s.shared.lock.locked ≡ false)
        × (s.shared.mutex ≡ none)
        × (check_reason s.shared.user s.shared.lock.waiting_reason s.shared.lock.active_err ≡ true)
  unfolding ℕ_discrete
  lost_wakeup user user' reason wait there only = (
    _,
    begin
        ▹ pick 0 (enter refl)
        ▹ pick 0 (see_free refl)
        ▹ pick 0 take
        ▹ pick 0 leave
        ▹ pick 0 (yield user reason)
        ▹ pick 0 store
        ▹ pick 0 release
        ▹ pick 0 (stop wait)
        ▹ arrive 1 user (reason ∷ []) 0 refl refl (nothing_new user (reason ∷ []))
        ▹ call 1 reason [] refl refl
        ▹ pick 1 (accept refl)
        ▹ pick 1 note
        ▹ pick 1 (enter refl)
        ▹ pick 1 (see_free refl)
        ▹ pick 1 take
        ▹ pick 1 leave
        ▹ arrive 2 user' (reason ∷ []) 0 refl refl only
        ▹ call 2 reason [] refl refl
        ▹ pick 2 (accept refl)
        ▹ pick 2 note
        ▹ pick 2 (enter refl)
        ▹ pick 2 (see_taken refl)
        ▹ pick 1 (yield user' reason)
        ▹ pick 1 store
        ▹ pick 1 release
        ▹ pick 1 (again there)
        ▹ pick 1 (miss {k = 2} refl refl)
        ▹ pick 2 give_up,
    from-three _ (refl, refl) (refl, refl) (refl, refl) (λ n. (ground arith, ground arith)),
    refl,
    refl,
    there,
  )
