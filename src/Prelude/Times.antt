-- ===== src/Prelude/Times.antt =====
-- An instant is a number of nanoseconds after the zero `time.Time`, which is 0.
use Prim.Native.Nat.{ℕ}

abbrev pub Time : Type 0
Time = ℕ
