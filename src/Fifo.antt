-- ===== src/Fifo.antt =====
-- What a queue of evering/src/uring.rs promises: a bounded first-in first-out list, oldest first.
use openoscamp_2025s.Base.{ℕ, Option, none, some, List, [], ◌∷◌, ◌++◌, length, ◌==◌, if◌then◌else◌}
use openoscamp_2025s.Base.Fault.{Result, ok, err}

module _ {ℓ} {A : Type ℓ} where
  -- A full queue gives the value back.
  unfoldable pub push : ℕ → List A → A → Result (Unit {0}) A × List A
  push cap xs v = if length xs == cap then (err v, xs) else (ok tt, xs ++ (v ∷ []))

  unfoldable pub pop : List A → Option A × List A
  pop [] = (none, [])
  pop (x ∷ xs) = (some x, xs)

  -- Values are taken from the iterator until it ends or the queue is full.
  unfoldable pub push_all : ℕ → List A → List A → List A × List A
  push_all cap xs [] = ([], xs)
  push_all cap xs (v ∷ vs) =
      let more = push_all cap (xs ++ (v ∷ [])) vs in if length xs == cap then (v ∷ vs, xs) else more
