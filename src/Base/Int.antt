-- ===== src/Base/Int.antt =====
-- Signed machine integers as the program reads them: a sign and a magnitude.
use Prim.Native.Nat.{ℕ}
use mathlib.Core.Bool.{Bool, true, false}
use project_db.Base.Tests.{ltb, leb}

-- `negsuc n` is -(n + 1).
pub data ℤ : Type 0 where
  pos : ℕ → ℤ
  negsuc : ℕ → ℤ

-- `z < n` and `n < z` for a bound `n` that is not negative.
abbrev pub below : ℤ → ℕ → Bool
below (pos k) n = ltb k n
below (negsuc k) n = true

abbrev pub above : ℤ → ℕ → Bool
above (pos k) n = ltb n k
above (negsuc k) n = false

-- `z <= 0`
abbrev pub not_positive : ℤ → Bool
not_positive (pos k) = leb k 0
not_positive (negsuc k) = true
