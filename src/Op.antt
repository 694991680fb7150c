-- ===== src/Op.antt =====
-- evering/src/op.rs: an operation that was submitted, as a future. A `Completable` makes the output
-- from the response, and what is to be recycled when the operation is cancelled.
pub mod Trip
pub mod Capacity
pub mod Flight
mod Tests
use openoscamp_2025s.Base.{ℕ, Bool, true, false, Option, none, some, List, []}
use openoscamp_2025s.Base.Fault.{Exec, done, fault, ◌>>=◌, expect}
use openoscamp_2025s.Slab.{Slab}
use openoscamp_2025s.Base.Future.{Poll, ready, pending}
use openoscamp_2025s.Driver.{Cancellation, RawOp, poll, remove_op}

-- What a type of operations implements; `complete_ext` defaults to `complete`, which forgets the
-- extension.
pub record Completable (T P R Ext O : Type 0) : Type 0 where
  pub complete_ext : T → P → Ext → O
  pub cancel : T → Cancellation R

abbrev pub completable :
    {T P R Ext O : Type 0} → (T → P → O) → (T → Cancellation R) → Completable T P R Ext O
completable complete cancel = record { complete_ext = λ t p e. complete t p; cancel = cancel }

-- `data` is taken out by the first of `poll` (when it is ready) and `drop`.
pub record Op (T : Type 0) : Type 0 where
  pub id : ℕ
  pub payload : Option T

abbrev pub new_op : {T : Type 0} → ℕ → T → Op T
new_op id t = record { id = id; payload = some t }

-- What a spent handle looks like: its data has been given to the output.
abbrev pub spent : {T : Type 0} → ℕ → Op T
spent id = record { id = id; payload = none }

module _ {T P R Ext O : Type 0} (slab : Slab (RawOp P R Ext)) (c : Completable T P R Ext O) where
  open slab use {S}

  -- `Future::poll`
  unfoldable pub poll_op : S → Op T → ℕ → Exec (Poll O × S × Op T)
  poll_op s op waker = poll slab s op.id waker >>= λ r. elim r.0 [
    | pending ↦ done (pending, r.1, op)
    | ready (p, ext) ↦ expect op.payload >>= λ t.
        done (ready (c.complete_ext t p ext), r.1, record op { payload = none })
  ]

  -- The closure that `drop` hands to the driver.
  abbrev pub cancel_data : Op T → Exec (Cancellation R)
  cancel_data op = expect op.payload >>= λ t. done (c.cancel t)

  -- `Drop for Op`
  unfoldable pub drop_op : S → Op T → Exec S
  drop_op s op = remove_op slab s op.id (cancel_data op)
