-- ===== src/Lock/Watched.antt =====
-- Who will still look, as long as `mutex_try_enter` does not fail.
use c_web_socket_pico_w_test.Base.{ℕ, ◌≡◌, inl, inr, refl, Bool, true, false, ◌||◌, List, arith}
use c_web_socket_pico_w_test.Lock.Steps.{
  Pc, contains, update, Shared, ready, Move, skip, miss, see_taken, give_up, stop, System, Step,
  pick, arrive, call, Reach, begin, next,
}
use c_web_socket_pico_w_test.Lock.Invariant.{watching_pc, Inv, Reach-Inv}

abbrev pub watching : ℕ → Pc → List ℕ → Bool
watching w p reasons = watching_pc w p || contains reasons w

module _ {ℓ} {U : Type ℓ} (check_reason : U → ℕ → ℕ → Bool) where
  -- A reason that is there is watched for.
  abbrev pub Watched : System check_reason false → Type 0
  Watched s =
      ready check_reason false s.shared ≡ true
      → (i : ℕ) × (watching s.shared.lock.waiting_reason (s.pc i) (s.reasons i) ≡ true)

  Move-Watched :
      (s : System check_reason false) (i : ℕ) {p p' : Pc} {t : Shared U}
      → Inv check_reason false s.shared s.pc
      → Move check_reason false i s.shared p t p'
      → s.pc i ≡ p
      → Watched s
      → ready check_reason false t ≡ true
      → (j : ℕ) × (watching t.lock.waiting_reason (update s.pc i p' j) (s.reasons j) ≡ true)
  Move-Watched s i inv (skip other) e watched h = let (j, w) = watched h in (j, ground arith)
  Move-Watched s i inv (see_taken held) e watched h =
      let (j, w) = inv.locked_held held in (j, ground arith)
  Move-Watched s i inv give_up e watched h = let (j, w) = watched h in (j, ground arith)
  Move-Watched s i inv (miss may taken) e watched h = absurd (ground arith)
  Move-Watched s i inv (stop not_ready) e watched h = absurd (ground arith)
  Move-Watched s i inv mv e watched h = (i, ground arith)

  Step-Watched :
      {s t : System check_reason false}
      → Inv check_reason false s.shared s.pc
      → Step check_reason false s t
      → Watched s
      → Watched t
  Step-Watched {s = s} inv (pick i mv) watched h = Move-Watched s i inv mv refl watched h
  Step-Watched {s = s} inv (arrive i user' reasons err out none_left only) watched h =
      elim (only s.shared.lock.waiting_reason s.shared.lock.active_err h) [
        | inl before ↦ let (j, w) = watched before in (j, ground arith)
        | inr told ↦ (i, ground arith)
      ]
  Step-Watched {s = s} inv (call i reason rest out more) watched h =
      let (j, w) = watched h in (j, ground arith)

  pub Reach-Watched :
      {user : U} {s : System check_reason false} → Reach check_reason false user s → Watched s
  Reach-Watched {user} begin = λ h. (0, ground arith)
  Reach-Watched (next r st) = Step-Watched (Reach-Inv check_reason false r) st (Reach-Watched r)
