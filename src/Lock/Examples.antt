-- ===== src/Lock/Examples.antt =====
-- A task that eats one unit of input at a run and waits for reason 1, and small schedules.
use native.Mathlib.Decide.{ℕ_discrete}
use c_web_socket_pico_w_test.Base.{
  ℕ, ◌-◌, ◌≡◌, ◌&&◌, refl, Bool, true, false, none, some, inr, List, [], codes, arith, ltb, ◌==◌,
}
use c_web_socket_pico_w_test.Con.{Con, reason_read}
use c_web_socket_pico_w_test.Lock.{Lock, notify}
use c_web_socket_pico_w_test.Lock.Steps.{
  Pc, idle, inside, seen_free, taken, running, update, enter, see_free, take, leave, System, pick,
  start, Reach, begin, ◌▹◌,
}
use c_web_socket_pico_w_test.Lock.Wakeup.{mutual_exclusion, lost_wakeup}

abbrev eat : ℕ → ℕ → ℕ × ℕ
eat err input = (1, input - 1)

abbrev has_input : ℕ → ℕ → ℕ → Bool
has_input input reason err = reason == 1 && ltb 0 input

abbrev waiting : Lock
waiting = record { waiting_reason = 1; active_err = 0; locked = false }

notify_runs : notify eat has_input 9 waiting 3 1 0 ≡ some (waiting, 0)
unfolding notify
notify_runs = refl

-- A task that takes all bytes that have come in and waits for more, with `ws_check_reason`.
abbrev take_all : ℕ → Con (List ℕ) → ℕ × Con (List ℕ)
take_all err con = (reason_read, record con { p_current = none })

abbrev con_with_bytes : Con (List ℕ)
con_with_bytes = record {
  printed_circuit_board = none;
  p_current = some (codes "GET");
  recved_current = 0;
  notify_ack = false;
  active_err = 0;
}

abbrev for_bytes : Lock
for_bytes = record { waiting_reason = reason_read; active_err = 0; locked = false }

-- The first run of the task, up to the point where it waits for input.
abbrev after_first_run : System has_input false
after_first_run = record {
  shared = record { lock = waiting; user = 0; mutex = none };
  pc =
      update
        (update
          (update
            (update
              (update
                (update (update (update (start has_input false 0).pc 0 inside) 0 seen_free) 0 taken)
                0 running)
              0 (Pc.storing 1))
            0 Pc.unlocking)
          0 Pc.checking)
        0 idle;
  reasons = λ _. [];
  err = λ _. 0;
}

abbrev at_work : System has_input true
at_work = record {
  shared = record {
    lock = record { waiting_reason = 0; active_err = 0; locked = true };
    user = 0;
    mutex = none;
  };
  pc =
      update (update (update (update (start has_input true 0).pc 0 inside) 0 seen_free) 0 taken) 0
        running;
  reasons = λ _. [];
  err = λ _. 0;
}

mutual_exclusion_example : ◌≡◌ {A = ℕ} 0 0
unfolding ℕ_discrete
mutual_exclusion_example =
    mutual_exclusion has_input true 0 at_work
      (begin ▹ pick 0 (enter refl) ▹ pick 0 (see_free refl) ▹ pick 0 take ▹ pick 0 leave) 0 0 refl
      refl

lost_wakeup_example :
    (s : System has_input true) × Reach has_input true 0 s
    × ((i : ℕ) → (s.pc i ≡ idle) × (s.reasons i ≡ []))
    × (s.shared.lock.locked ≡ false)
    × (s.shared.mutex ≡ none)
    × (has_input s.shared.user s.shared.lock.waiting_reason s.shared.lock.active_err ≡ true)
lost_wakeup_example = lost_wakeup has_input 0 1 1 refl refl (λ w e h. inr (ground arith))
