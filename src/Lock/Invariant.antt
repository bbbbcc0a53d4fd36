-- ===== src/Lock/Invariant.antt =====
-- What holds between any two steps of the contexts.
use c_web_socket_pico_w_test.Base.{ℕ, ◌≡◌, refl, Bool, true, false, some, arith, ◌==◌}
use c_web_socket_pico_w_test.Lock.Steps.{
  Pc, idle, calling, inside, seen_free, taken, refused, running, storing, unlocking, update, Shared,
  Move, enter, see_free, take, leave, give_up, yield, store, release, System, Step, pick, arrive,
  call, start, Reach, begin, next,
}

-- The context has the lock.
abbrev pub holding : Pc → Bool
holding taken = true
holding running = true
holding (storing _) = true
holding unlocking = true
holding _ = false

-- The context is between `mutex_try_enter` and `mutex_exit`.
abbrev pub entered : Pc → Bool
entered inside = true
entered seen_free = true
entered taken = true
entered refused = true
entered _ = false

-- The context will still see whether the awaited reason `w` has come up.
abbrev pub watching_pc : ℕ → Pc → Bool
watching_pc w idle = false
watching_pc w (calling reason _) = reason == w
watching_pc w refused = false
watching_pc w _ = true

module _ {ℓ} {U : Type ℓ} (check_reason : U → ℕ → ℕ → Bool) (fails : Bool) where
  pub record Inv (s : Shared U) (pc : ℕ → Pc) : Type ℓ where
    pub holder_locked : (i : ℕ) → holding (pc i) ≡ true → s.lock.locked ≡ true
    pub one_holder : (i j : ℕ) → holding (pc i) ≡ true → holding (pc j) ≡ true → i ≡ j
    pub locked_held : s.lock.locked ≡ true → (i : ℕ) × (holding (pc i) ≡ true)
    pub free_seen : (i : ℕ) → pc i ≡ seen_free → s.lock.locked ≡ false
    pub entered_mutex : (i : ℕ) → entered (pc i) ≡ true → s.mutex ≡ some i
    pub mutex_entered : (i : ℕ) → s.mutex ≡ some i → entered (pc i) ≡ true

  module _ {s : Shared U} {pc : ℕ → Pc} (inv : Inv s pc) (i : ℕ) where
    Move-holder_locked :
        {p p' : Pc} {t : Shared U}
        → Move check_reason fails i s p t p'
        → pc i ≡ p
        → (j : ℕ) → holding (update pc i p' j) ≡ true
        → t.lock.locked ≡ true
    Move-holder_locked release e j h = ground (arith, inv.one_holder i j)
    Move-holder_locked mv e j h = ground (arith, inv.holder_locked j, inv.holder_locked i)

    Move-one_holder :
        {p p' : Pc} {t : Shared U}
        → Move check_reason fails i s p t p'
        → pc i ≡ p
        → (j k : ℕ) → holding (update pc i p' j) ≡ true
        → holding (update pc i p' k) ≡ true
        → j ≡ k
    Move-one_holder take e j k h h' =
        ground
          (arith, inv.free_seen i, inv.holder_locked j, inv.holder_locked k, inv.one_holder j k)
    Move-one_holder mv e j k h h' =
        ground (arith, inv.one_holder j k, inv.one_holder i k, inv.one_holder j i)

    Move-locked_held :
        {p p' : Pc} {t : Shared U}
        → Move check_reason fails i s p t p'
        → pc i ≡ p
        → t.lock.locked ≡ true
        → (j : ℕ) × (holding (update pc i p' j) ≡ true)
    Move-locked_held take e h = (i, ground arith)
    Move-locked_held leave e h = (i, ground arith)
    Move-locked_held release e h = absurd (ground arith)
    Move-locked_held (yield user' reason) e h = (i, ground arith)
    Move-locked_held store e h = (i, ground arith)
    Move-locked_held mv e h = let (j, held) = inv.locked_held h in (j, ground arith)

    Move-free_seen :
        {p p' : Pc} {t : Shared U}
        → Move check_reason fails i s p t p'
        → pc i ≡ p
        → (j : ℕ) → update pc i p' j ≡ seen_free
        → t.lock.locked ≡ false
    Move-free_seen take e j h = ground (arith, inv.entered_mutex i, inv.entered_mutex j)
    Move-free_seen (see_free free) e j h = free
    Move-free_seen mv e j h = ground (arith, inv.free_seen j)

    Move-entered_mutex :
        {p p' : Pc} {t : Shared U}
        → Move check_reason fails i s p t p'
        → pc i ≡ p
        → (j : ℕ) → entered (update pc i p' j) ≡ true
        → t.mutex ≡ some j
    Move-entered_mutex (enter out) e j h = ground (arith, inv.entered_mutex j)
    Move-entered_mutex leave e j h = ground (arith, inv.entered_mutex j, inv.entered_mutex i)
    Move-entered_mutex give_up e j h = ground (arith, inv.entered_mutex j, inv.entered_mutex i)
    Move-entered_mutex mv e j h = ground (arith, inv.entered_mutex j, inv.entered_mutex i)

    Move-mutex_entered :
        {p p' : Pc} {t : Shared U}
        → Move check_reason fails i s p t p'
        → pc i ≡ p
        → (j : ℕ) → t.mutex ≡ some j
        → entered (update pc i p' j) ≡ true
    Move-mutex_entered (enter out) e j h = ground arith
    Move-mutex_entered leave e j h = absurd (ground arith)
    Move-mutex_entered give_up e j h = absurd (ground arith)
    Move-mutex_entered mv e j h = ground (arith, inv.mutex_entered j)

    Move-Inv :
        {p p' : Pc} {t : Shared U}
        → Move check_reason fails i s p t p'
        → pc i ≡ p
        → Inv t (update pc i p')
    Move-Inv mv e = record {
      holder_locked = Move-holder_locked mv e;
      one_holder = Move-one_holder mv e;
      locked_held = Move-locked_held mv e;
      free_seen = Move-free_seen mv e;
      entered_mutex = Move-entered_mutex mv e;
      mutex_entered = Move-mutex_entered mv e;
    }

  start-Inv :
      (user : U) → Inv (start check_reason fails user).shared (start check_reason fails user).pc
  start-Inv user = record {
    holder_locked = λ i h. ground arith;
    one_holder = λ i j h k. absurd (ground arith);
    locked_held = λ h. absurd (ground arith);
    free_seen = λ i h. ground arith;
    entered_mutex = λ i h. absurd (ground arith);
    mutex_entered = λ i h. absurd (ground arith);
  }

  -- A callback that starts its next notification is in no part that the invariant is about.
  call-Inv :
      (s : System check_reason fails) (i reason err : ℕ)
      → s.pc i ≡ idle
      → Inv s.shared s.pc
      → Inv s.shared (update s.pc i (calling reason err))
  call-Inv s i reason err out inv = record {
    holder_locked = λ j h. ground (arith, inv.holder_locked j);
    one_holder = λ j k h h'. ground (arith, inv.one_holder j k);
    locked_held = λ h. let (j, held) = inv.locked_held h in (j, ground arith);
    free_seen = λ j h. ground (arith, inv.free_seen j);
    entered_mutex = λ j h. ground (arith, inv.entered_mutex j);
    mutex_entered = λ j h. ground (arith, inv.mutex_entered j);
  }

  Step-Inv :
      {s t : System check_reason fails}
      → Step check_reason fails s t
      → Inv s.shared s.pc
      → Inv t.shared t.pc
  Step-Inv (pick i mv) inv = Move-Inv inv i mv refl
  Step-Inv (arrive i user' reasons err out none_left only) inv = record {
    holder_locked = inv.holder_locked;
    one_holder = inv.one_holder;
    locked_held = inv.locked_held;
    free_seen = inv.free_seen;
    entered_mutex = inv.entered_mutex;
    mutex_entered = inv.mutex_entered;
  }
  Step-Inv {s = s} (call i reason rest out more) inv = call-Inv s i reason (s.err i) out inv

  pub Reach-Inv :
      {user : U} {s : System check_reason fails}
      → Reach check_reason fails user s
      → Inv s.shared s.pc
  Reach-Inv {user} begin = start-Inv user
  Reach-Inv (next r st) = Step-Inv st (Reach-Inv r)
