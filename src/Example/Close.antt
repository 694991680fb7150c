-- ===== src/Example/Close.antt =====
-- The end of a runtime of examples/evering-threaded/src/runtime.rs.
use openoscamp_2025s.Base.{ℕ, List, [], ◌∷◌, ◌≡◌, some}
use openoscamp_2025s.Base.Fault.{Exec}
use openoscamp_2025s.Slab.{Slab}
use openoscamp_2025s.Driver.{RawOp}
use openoscamp_2025s.Op.{Completable}
use openoscamp_2025s.Op.Flight.{World}

module _ (strong : ℕ → ℕ) (release : ℕ → ℕ → Exec (Unit {0})) {P R Ext : Type 0}
    (slab : Slab (RawOp P R Ext)) where
  open slab use {S, get, len}

  module _ {T O : Type 0} (c : Completable T P R Ext O) where
    -- The handles that are held somewhere are alive.
    abbrev pub AreAlive : World S T → List ℕ → Type 0
    AreAlive w [] = Unit {0}
    AreAlive w (id ∷ ids) = ((t : T) × (w.handles id ≡ some t)) × AreAlive w ids
