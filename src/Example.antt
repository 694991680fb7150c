-- ===== src/Example.antt =====
-- examples/evering-threaded/src/runtime.rs and examples/evering-threaded/src/op.rs: the runtime of a
-- thread, its thread-local handle, and the two operations. A runtime is a number; `strong` is the
-- strong count of its `Rc`, and the thread-local `CX` is a weak reference, `none` if it was never set.
pub mod Guard
pub mod Close
pub mod Kinds
mod Tests
use openoscamp_2025s.Base.{
  ℕ, Bool, true, false, not, Option, none, some, List, [], ◌∷◌, ◌==◌, if◌then◌else◌,
}
use openoscamp_2025s.Base.Fault.{Exec, done, fault, panic, ◌>>=◌, ◌>>◌, assert}
use openoscamp_2025s.Slab.{Slab}
use openoscamp_2025s.Driver.{Cancellation, noop, RawOp, drop_driver, is_empty}
use openoscamp_2025s.Op.{Completable, completable}
use openoscamp_2025s.Server.{RqeData, exited, pong}

module _ (strong : ℕ → ℕ) where
  -- `RuntimeHandle::enter`: the new `CX`.
  unfoldable pub enter_runtime : Option ℕ → ℕ → Exec (Option ℕ)
  enter_runtime none rt = done (some rt)
  enter_runtime (some old) rt = if not (strong old == 0) then fault panic else done (some rt)

  -- `RuntimeHandle::get`
  unfoldable pub get_runtime : Option ℕ → Exec ℕ
  get_runtime none = fault panic
  get_runtime (some rt) = if strong rt == 0 then fault panic else done rt

  -- `Runtime::block_on`, of what body does with `CX`; the guard is dropped at its end.
  unfoldable pub block_on_runtime :
      {A : Type 0} → ℕ → (Option ℕ → Exec (A × Option ℕ)) → Option ℕ → Exec (A × Option ℕ)
  block_on_runtime rt body cx = do cx' ← enter_runtime cx rt; r ← body cx'; done (r.0, none)

-- `release` is what `Drop for Op` does to the driver of the runtime that `RuntimeHandle::get` finds.
module _ (strong : ℕ → ℕ) (release : ℕ → ℕ → Exec (Unit {0})) (cx : Option ℕ) where
  -- The drop of the operations that a future holds, one of its steps being `self.driver.get()`.
  unfoldable pub drop_ops : List ℕ → Exec (Unit {0})
  drop_ops [] = done tt
  drop_ops (id ∷ ids) = get_runtime strong cx >>= λ rt. release rt id >> drop_ops ids

  module _ {P R Ext : Type 0} (slab : Slab (RawOp P R Ext)) where
    open slab use {S}

    -- The drop of a runtime's executor, driver and waiting submissions, in this order: `queued` are the
    -- operations of the tasks that are dropped with the queue of the executor, `waiting` those of the
    -- tasks that are dropped with the submissions.
    unfoldable pub drop_fields : List ℕ → List ℕ → S → Exec (Unit {0})
    drop_fields queued waiting s = drop_ops queued >> (drop_driver slab s >> drop_ops waiting)

    -- `Drop for Runtime`, with the strong count of its `Rc`: with operations in flight it is leaked.
    unfoldable pub drop_runtime : ℕ → List ℕ → List ℕ → S → Exec (Unit {0})
    drop_runtime count queued waiting s =
        if not (is_empty slab s)
        then done tt
        else if count == 1
        then drop_fields queued waiting s
        else done tt

    -- `into_sender`: all but the end of the rings is dropped.
    unfoldable pub into_sender : {U : Type 0} → ℕ → U → List ℕ → List ℕ → S → Exec U
    into_sender count u queued waiting s =
        assert (count == 1) >> (drop_fields queued waiting s >> done u)

module _ {V : Type 0} where
  -- `impl Completable for Ping` and `for Exit`, whose `complete` may meet the other response.
  unfoldable pub complete_ping : Unit {0} → RqeData V → Exec V
  complete_ping p exited = fault panic
  complete_ping p (pong token) = done token

  unfoldable pub complete_exit : Unit {0} → RqeData V → Exec (Unit {0})
  complete_exit e exited = done tt
  complete_exit e (pong token) = fault panic

  abbrev pub ping_op : {R Ext : Type 0} → Completable (Unit {0}) (RqeData V) R Ext (Exec V)
  ping_op = completable complete_ping (λ p. noop)

  abbrev pub exit_op : {R Ext : Type 0} → Completable (Unit {0}) (RqeData V) R Ext (Exec (Unit {0}))
  exit_op = completable complete_exit (λ e. noop)
