-- ===== src/Base/Table.antt =====
-- Facts about small numbers by trying each of them.
use Prim.Native.Nat.{ℕ, zero, suc, ◌<◌}
use mathlib.Core.Path.{◌≡◌, ap}
use native.Mathlib.Decide.{ℕ_discrete}
use mathlib.Core.Bool.{Bool, true, ◌&&◌}
use native.Mathlib.Omega.{arith}

-- `test` passes at every number below `n`.
unfoldable pub passes : ℕ → (ℕ → Bool) → Bool
passes zero test = true
passes (suc n) test = test n && passes n test

pub passes-at : (n : ℕ) (test : ℕ → Bool) (x : ℕ) → passes n test ≡ true → x < n → test x ≡ true
unfolding passes
passes-at zero test x h lt = elim lt [ ]
passes-at (suc n) test x h lt = elim (ℕ_discrete x n) [
  | yes e ↦ ground (arith, ap test e)
  | no ne ↦ ground (arith, passes-at n test x)
]
