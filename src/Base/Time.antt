-- ===== src/Base/Time.antt =====
-- `time.Time` as nanoseconds since 1970 and `time.Duration` as a signed number of nanoseconds.
use Prim.Native.Nat.{ℕ, suc, ◌+◌, ◌-◌, ◌*◌, ◌/◌, ◌^◌}
use mathlib.Core.Bool.{Bool, false}
use dataset_service.Base.Tests.{ltb}

-- `negsuc n` is -(n + 1).
pub data ℤ : Type 0 where
  pos : ℕ → ℤ
  negsuc : ℕ → ℤ

-- `0 < d`
abbrev pub is_positive : ℤ → Bool
is_positive (pos n) = ltb 0 n
is_positive (negsuc n) = false

-- `t.Add(d)`; no time of the program lies before 1970.
abbrev pub add_duration : ℕ → ℤ → ℕ
add_duration t (pos n) = t + n
add_duration t (negsuc n) = t - suc n

abbrev pub second : ℕ
second = 10 ^ 9

abbrev pub minute : ℕ
minute = 60 * second

-- `t.Unix()`
abbrev pub unix : ℕ → ℕ
unix t = t / second

-- `time.Unix(s, 0)`
abbrev pub from_unix : ℕ → ℕ
from_unix s = s * second
