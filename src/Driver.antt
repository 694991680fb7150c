-- ===== src/Driver.antt =====
-- evering/src/driver.rs: the operations in flight, kept in a slab under their `OpId`s. A `RefCell`
-- that is borrowed for one call only is its content. A `LocalWaker` is the number of the task that it
-- wakes; the wakers that a call wakes are returned.
pub mod Steps
pub mod Room
pub mod Capacity
use openoscamp_2025s.Base.{
  ℕ, Bool, true, false, Option, none, some, List, [], ◌∷◌, ◌==◌, if◌then◌else◌,
}
use openoscamp_2025s.Base.Fault.{Exec, done, fault, panic, ◌>>=◌, assert, expect, Result, ok, err}
use openoscamp_2025s.Base.Future.{Poll, ready, pending, will_wake}
use openoscamp_2025s.Slab.{Slab}

-- `Cancellation` of evering/src/op.rs: what it holds is dropped with it.
pub data Cancellation (R : Type 0) : Type 0 where
  noop : Cancellation R
  recycle : R → Cancellation R

pub data Lifecycle (P R : Type 0) : Type 0 where
  submitted : Lifecycle P R
  waiting : (waker : ℕ) → Lifecycle P R
  completed : P → Lifecycle P R
  cancelled : Cancellation R → Lifecycle P R

pub record RawOp (P R Ext : Type 0) : Type 0 where
  pub state : Lifecycle P R
  pub ext : Ext

abbrev pub is_completed : {P R Ext : Type 0} → RawOp P R Ext → Bool
is_completed op = elim op.state [ completed p ↦ true | _ ↦ false ]

module _ {P R Ext : Type 0} (slab : Slab (RawOp P R Ext)) where
  open slab use {S, vacant, get, insert, update, remove, len, capacity, every}

  abbrev pub new_driver : S
  new_driver = vacant 0

  abbrev pub with_capacity : ℕ → S
  with_capacity n = vacant n

  unfoldable pub is_empty : S → Bool
  is_empty s = len s == 0

  unfoldable pub submit : S → Ext → ℕ × S
  submit s ext = insert s (record { state = submitted; ext = ext })

  unfoldable pub try_submit : S → Ext → Result ℕ Ext × S
  try_submit s ext =
      if len s == capacity s then (err ext, s) else (let (id, s') = submit s ext in (ok id, s'))

  unfoldable pub contains : S → ℕ → Bool
  contains s id = elim (get s id) [ none ↦ false | some op ↦ true ]

  abbrev pub set_state : S → ℕ → RawOp P R Ext → Lifecycle P R → S
  set_state s id op l = update s id (record op { state = l })

  -- The match of `DriverInner::poll`, on the state that `mem::replace` has taken out.
  unfoldable pub poll_state : S → ℕ → ℕ → RawOp P R Ext → Lifecycle P R → Exec (Poll (P × Ext) × S)
  poll_state s id waker op submitted = done (pending, set_state s id op (waiting waker))
  poll_state s id waker op (waiting w) =
      done (pending, set_state s id op (if will_wake w waker then waiting w else waiting waker))
  poll_state s id waker op (completed payload) = do
    r ← expect (remove (set_state s id op submitted) id)
    done (ready (payload, (r.0).ext), r.1)
  poll_state s id waker op (cancelled c) = fault panic

  unfoldable pub poll : S → ℕ → ℕ → Exec (Poll (P × Ext) × S)
  poll s id waker = do op ← expect (get s id); poll_state s id waker op op.state

  unfoldable pub complete_state :
      S → ℕ → P → RawOp P R Ext → Lifecycle P R → Exec (Result (Unit {0}) (P × Ext) × S × List ℕ)
  complete_state s id payload op submitted = done (ok tt, set_state s id op (completed payload), [])
  complete_state s id payload op (waiting waker) =
      done (ok tt, set_state s id op (completed payload), waker ∷ [])
  complete_state s id payload op (completed p) = fault panic
  complete_state s id payload op (cancelled c) = do
    r ← expect (remove (set_state s id op submitted) id)
    done (err (payload, (r.0).ext), r.1, [])

  unfoldable pub complete_ext : S → ℕ → P → Exec (Result (Unit {0}) (P × Ext) × S × List ℕ)
  complete_ext s id payload = do op ← expect (get s id); complete_state s id payload op op.state

  abbrev pub drop_ext : Result (Unit {0}) (P × Ext) → Result (Unit {0}) P
  drop_ext (ok u) = ok u
  drop_ext (err (p, e)) = err p

  unfoldable pub complete : S → ℕ → P → Exec (Result (Unit {0}) P × S × List ℕ)
  complete s id payload = do r ← complete_ext s id payload; done (drop_ext r.0, r.1, r.2)

  -- The callback is run only if the operation has no response yet.
  unfoldable pub remove_state :
      S → ℕ → Exec (Cancellation R) → RawOp P R Ext → Lifecycle P R → Exec S
  remove_state s id callback op submitted = callback >>= λ c. done (set_state s id op (cancelled c))
  remove_state s id callback op (waiting w) =
      callback >>= λ c. done (set_state s id op (cancelled c))
  remove_state s id callback op (completed p) =
      expect (remove (set_state s id op submitted) id) >>= λ r. done r.1
  remove_state s id callback op (cancelled c) = fault panic

  unfoldable pub remove_op : S → ℕ → Exec (Cancellation R) → Exec S
  remove_op s id callback = elim (get s id) [
    | none ↦ done s
    | some op ↦ remove_state s id callback op op.state
  ]

  -- `Drop for DriverInner`
  unfoldable pub drop_driver : S → Exec (Unit {0})
  drop_driver s = assert (every s is_completed)
