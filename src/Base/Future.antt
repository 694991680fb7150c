-- ===== src/Base/Future.antt =====
-- `core::task`: what the poll of a future returns. A waker is the number of what it wakes.
use Prim.Native.Nat.{ℕ}
use mathlib.Core.Bool.{Bool}
use openoscamp_2025s.Base.Tests.{◌==◌}

pub data Poll {ℓ} (A : Type ℓ) : Type ℓ where
  ready : A → Poll A
  pending : Poll A

-- `LocalWaker::will_wake`
abbrev pub will_wake : ℕ → ℕ → Bool
will_wake w v = w == v
