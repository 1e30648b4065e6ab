-- ===== src/Common/Int.antt =====
-- Signed integers over the native numbers.
use Prim.Native.Nat.{ℕ, suc, ◌+◌, ◌-◌}
use mathlib.Core.Option.{Option, none, some}
use insider_threat_detection.Common.Tests.{leb, if◌then◌else◌}

-- `negsuc n` is -(n + 1).
pub data ℤ : Type 0 where
  pos : ℕ → ℤ
  negsuc : ℕ → ℤ

-- A number moved by a signed amount; `none` if it would fall below 0.
abbrev pub shift : ℕ → ℤ → Option ℕ
shift n (pos k) = some (n + k)
shift n (negsuc k) = if leb (suc k) n then some (n - suc k) else none
