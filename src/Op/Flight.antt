-- ===== src/Op/Flight.antt =====
-- A client of evering/src/op.rs and driver.rs with any number of operations, as
-- examples/evering-utils/src/runtime.rs drives them: a handle is awaited, and dropped as soon as it is
-- ready, or dropped before; the other side owes one response for each operation that was submitted.
pub mod Step
pub mod Safe
use openoscamp_2025s.Base.{
  ℕ, ◌≡◌, refl, sym, ap, ◌∙◌, Bool, true, false, Option, none, some, List, [], ◌∷◌, ◌==◌, ==_of_eq,
  ==_iff, if◌then◌else◌, Bool-cases, inl, inr, ◌↔◌, ◌⊎◌,
}
use openoscamp_2025s.Base.Fault.{Exec, done, fault, panic, ◌>>=◌, expect, Result, ok, err}
use openoscamp_2025s.Slab.{Slab}
use openoscamp_2025s.Base.Future.{Poll, ready, pending}
use openoscamp_2025s.Driver.{
  Cancellation, Lifecycle, submitted, waiting, completed, cancelled, RawOp, submit, try_submit,
  poll, complete_ext, remove_op, contains, drop_driver, is_completed,
}
use openoscamp_2025s.Driver.Steps.{
  IsOpen, fresh, waited, Differs, Differs-here, submit_lem, complete_open, complete_cancelled,
  remove_open, remove_completed, remove_absent,
}
use openoscamp_2025s.Op.{Completable, Op, new_op, spent, poll_op, drop_op, cancel_data}
use openoscamp_2025s.Op.Trip.{poll_op_open, poll_op_completed}

-- What the client and the other side do.
pub data Act (T P Ext : Type 0) : Type 0 where
  start : Ext → T → Act T P Ext
  start_if_room : Ext → T → Act T P Ext
  await : (id waker : ℕ) → Act T P Ext
  cancel : (id : ℕ) → Act T P Ext
  respond : (id : ℕ) → P → Act T P Ext

abbrev pub put : {A : Type 0} → (ℕ → A) → ℕ → A → ℕ → A
put f id v j = if id == j then v else f j

-- The data of each handle that is alive, and whether a response is owed.
pub record World (S T : Type 0) : Type 0 where
  pub store : S
  pub handles : ℕ → Option T
  pub owed : ℕ → Bool

-- What the entry of an id, its handle and the debt of a response have to do with each other.
pub data Fits {P R Ext T : Type 0} (e : Option (RawOp P R Ext)) (h : Option T) (o : Bool)
    : Type 0 where
  absent : e ≡ none → h ≡ none → o ≡ false → Fits e h o
  flying :
      (op : RawOp P R Ext) (ws : List ℕ) (t : T)
      → e ≡ some op
      → IsOpen op.state ws
      → h ≡ some t
      → o ≡ true
      → Fits e h o
  answered :
      (op : RawOp P R Ext) (p : P) (t : T)
      → e ≡ some op
      → op.state ≡ completed p
      → h ≡ some t
      → o ≡ false
      → Fits e h o
  orphan :
      (op : RawOp P R Ext) (x : Cancellation R)
      → e ≡ some op
      → op.state ≡ cancelled x
      → h ≡ none
      → o ≡ true
      → Fits e h o

module _ {T P R Ext O : Type 0} (slab : Slab (RawOp P R Ext)) (c : Completable T P R Ext O) where
  open slab use {S, get, vacant, get-vacant, every, every_iff}

  abbrev pub started : World S T → S → ℕ → T → World S T
  started w s id t = record {
    store = s;
    handles = put w.handles id (some t);
    owed = put w.owed id true;
  }

  unfoldable pub start_step : World S T → T → Result ℕ Ext × S → World S T
  start_step w t (ok id, s) = started w s id t
  start_step w t (err ext, s) = record w { store = s }

  unfoldable pub await_step : World S T → ℕ → ℕ → Option T → Exec (World S T)
  await_step w id waker none = done w
  await_step w id waker (some t) = poll_op slab c w.store (new_op id t) waker >>= λ r. elim r.0 [
    | pending ↦ done (record w { store = r.1 })
    | ready o ↦ drop_op slab c r.1 r.2 >>= λ s.
        done (record w { store = s; handles = put w.handles id none })
  ]

  unfoldable pub cancel_step : World S T → ℕ → Option T → Exec (World S T)
  cancel_step w id none = done w
  cancel_step w id (some t) = drop_op slab c w.store (new_op id t) >>= λ s.
      done (record w { store = s; handles = put w.handles id none })

  unfoldable pub respond_step : World S T → ℕ → P → Bool → Exec (World S T)
  respond_step w id p false = done w
  respond_step w id p true = complete_ext slab w.store id p >>= λ r.
      done (record w { store = r.1; owed = put w.owed id false })

  unfoldable pub step : World S T → Act T P Ext → Exec (World S T)
  step w (start ext t) = let (id, s) = submit slab w.store ext in done (started w s id t)
  step w (start_if_room ext t) = done (start_step w t (try_submit slab w.store ext))
  step w (await id waker) = await_step w id waker (w.handles id)
  step w (cancel id) = cancel_step w id (w.handles id)
  step w (respond id p) = respond_step w id p (w.owed id)

  unfoldable pub run : World S T → List (Act T P Ext) → Exec (World S T)
  run w [] = done w
  run w (a ∷ rest) = step w a >>= λ w'. run w' rest

  abbrev pub IsFlight : World S T → Type 0
  IsFlight w = (j : ℕ) → Fits (get w.store j) (w.handles j) (w.owed j)
