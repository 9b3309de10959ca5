-- ===== src/Prelude/Ascends.antt =====
-- A test whether the first values of a function ascend.
use Prim.Native.Nat.{ℕ, zero, suc, ◌≤◌, ◌<◌}
use mathlib.Core.Path.{◌≡◌}
use mathlib.Core.Logic.{◌≢◌, inl, inr}
use mathlib.Core.Bool.{Bool, true, ◌&&◌}
use native.Mathlib.Omega.{arith}
use mgtag.Prelude.Tests.{leb, ◌==◌, Bool-cases}

unfoldable pub ascends_test : (ℕ → ℕ) → ℕ → Bool
ascends_test key zero = true
ascends_test key (suc zero) = true
ascends_test key (suc (suc m)) =
    let rest = ascends_test key (suc m) in leb (key m) (key (suc m)) && rest

pub ascends_test-Ascends :
    (key : ℕ → ℕ) (m : ℕ) → ascends_test key m ≡ true → (a b : ℕ) → a ≤ b → b < m → key a ≤ key b
unfolding ascends_test
ascends_test-Ascends key zero h a b l u = absurd (omega arith)
ascends_test-Ascends key (suc zero) h a b l u =
    let same : a ≡ b = omega arith in rw same (omega arith)
ascends_test-Ascends key (suc (suc m)) h a b l u =
    let next : key m ≤ key (suc m) = ground arith in
    let rest = ascends_test-Ascends key (suc m) (ground arith) in
    elim (Bool-cases (b == suc m)) [
      | inl last ↦
          let b_last : b ≡ suc m = ground arith in
          elim (Bool-cases (a == suc m)) [
            | inl first ↦ let a_last : a ≡ suc m = ground arith in rw (b_last, a_last) (omega arith)
            | inr first ↦
                let before : a ≢ suc m = ground arith in
                rw b_last (omega (arith, rest a m (omega arith) (omega arith)))
          ]
      | inr last ↦ let before : b ≢ suc m = ground arith in rest a b l (omega arith)
    ]
