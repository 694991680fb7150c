-- ===== src/Runtime.antt =====
-- examples/evering-utils/src/runtime.rs: the runtime that submits operations through a ring, and that
-- completes them from the responses of the other ring. The tasks of the executor are numbers, and so
-- are their wakers; a wake appends to `woken`, the queue of the executor.
pub mod Receive
pub mod Submit
mod Tests
use openoscamp_2025s.Base.{
  ℕ, zero, suc, ◌+◌, Bool, true, false, Option, none, some, List, [], ◌∷◌, ◌++◌,
}
use openoscamp_2025s.Base.Fault.{Exec, done, fault, out_of_fuel, ◌>>=◌, Result, ok, err}
use openoscamp_2025s.Base.Future.{Poll, ready, pending}
use openoscamp_2025s.Slab.{Slab}
use openoscamp_2025s.Driver.{RawOp, try_submit, complete}
use openoscamp_2025s.Op.{Op, new_op}
use openoscamp_2025s.Ring.{Queue, Drain, next}
use openoscamp_2025s.Uring.{Uring, send, recv_bulk}

-- `M` is the region of the rings, `S` the store of the driver.
pub record Runtime (M S : Type 0) : Type 0 where
  pub woken : List ℕ
  pub uring : M
  pub driver : S
  pub pending_submissions : List ℕ

-- `Rqe` of the examples: a response, with the id of its operation.
pub record Rqe (D : Type 0) : Type 0 where
  pub id : ℕ
  pub payload : D

module _ {M S : Type 0} where
  -- `pop_front` and a wake of what it returns
  unfoldable pub wake_one : Runtime M S → Runtime M S
  wake_one rt = elim rt.pending_submissions [
    | [] ↦ rt
    | w ∷ ws ↦ record rt { woken = rt.woken ++ w ∷ []; pending_submissions = ws }
  ]

  abbrev pub wait : Runtime M S → ℕ → Runtime M S
  wait rt waker = record rt { pending_submissions = rt.pending_submissions ++ waker ∷ [] }

  -- A poll of `wait_for_ok`, whose closure is f; an error carries back what the closure has put back.
  unfoldable pub wait_for_ok :
      {A E : Type 0}
      → (Runtime M S → Exec (Result A E × Runtime M S))
      → ℕ
      → Runtime M S
      → Exec (Result A E × Runtime M S)
  wait_for_ok f waker rt =
      f rt >>= λ r. elim r.0 [ ok v ↦ done (ok v, r.1) | err e ↦ done (err e, wait r.1 waker) ]

-- A `for` loop over a `Drain`. The queue is borrowed for the whole of it.
module _ {Y Z : Type 0} where
  unfoldable pub for_each : ℕ → (Y → Z → Exec Z) → Drain → Queue Y → Z → Exec (Queue Y × Z)
  for_each zero body d q z = fault out_of_fuel
  for_each (suc fuel) body d q z = next d q >>= λ r. elim r.0 [
    | none ↦ done (r.2, z)
    | some val ↦ body val z >>= λ z'. for_each fuel body r.1 r.2 z'
  ]

-- Where `submit_ext` waits: for a place in the driver, or for one in the ring.
pub data Submitting (T X Ext : Type 0) : Type 0 where
  reserving : (ext : Ext) (op_data : T) → Submitting T X Ext
  posting : (id : ℕ) (ent : X) (op_data : T) → Submitting T X Ext

module _ {M P R Ext : Type 0} (slab : Slab (RawOp P R Ext)) where
  open slab use {S, vacant}

  -- `Runtime::new`; `size_a` is the number of slots of the ring to the other side.
  unfoldable pub new_runtime : M → ℕ → Runtime M S
  new_runtime uring size_a = record {
    woken = [];
    uring = uring;
    driver = vacant size_a;
    pending_submissions = [];
  }

module _ {M X Y P R Ext T : Type 0} (slab : Slab (RawOp P R Ext)) (u : Uring M X Y)
    (new_entry : ℕ → T → X × T) where
  open slab use {S}

  -- The closures of the two waits.
  unfoldable pub reserve : Ext → Runtime M S → Exec (Result ℕ Ext × Runtime M S)
  reserve ext rt = let (r, s) = try_submit slab rt.driver ext in done (r, record rt { driver = s })

  unfoldable pub post : X → Runtime M S → Exec (Result (Unit {0}) X × Runtime M S)
  post ent rt = send u rt.uring ent >>= λ r. done (r.0, record rt { uring = r.1 })

  -- A poll of `submit_ext`: `err` is where it waits now.
  unfoldable pub poll_posting :
      ℕ → X → T → ℕ → Runtime M S → Exec (Result (Op T) (Submitting T X Ext) × Runtime M S)
  poll_posting id ent t waker rt = wait_for_ok (post ent) waker rt >>= λ r. elim r.0 [
    | ok v ↦ done (ok (new_op id t), r.1)
    | err e ↦ done (err (posting id e t), r.1)
  ]

  unfoldable pub poll_submit :
      Submitting T X Ext → ℕ → Runtime M S → Exec (Result (Op T) (Submitting T X Ext) × Runtime M S)
  poll_submit (posting id ent t) waker rt = poll_posting id ent t waker rt
  poll_submit (reserving ext t) waker rt = wait_for_ok (reserve ext) waker rt >>= λ r. elim r.0 [
    | ok id ↦ (let (ent, t') = new_entry id t in poll_posting id ent t' waker r.1)
    | err e ↦ done (err (reserving e t), r.1)
  ]

-- `RunOn`
module _ {M Y S : Type 0} where
  -- What it does with a response, `complete_rqe` being the closure that it was given: the new store
  -- of the driver, and the wakers that were waked.
  unfoldable pub receive : (Y → S → Exec (S × List ℕ)) → Y → Runtime M S → Exec (Runtime M S)
  receive complete_rqe ent rt =
      let rt' : Runtime M S = wake_one rt in
      complete_rqe ent rt'.driver >>= λ r.
      done (record rt' { driver = r.0; woken = rt'.woken ++ r.1 })

module _ {M X Y S : Type 0} (u : Uring M X Y) where
  -- The loop of `RunOn::poll`, for at most so many responses.
  unfoldable pub receive_all : ℕ → (Y → S → Exec (S × List ℕ)) → Runtime M S → Exec (Runtime M S)
  receive_all fuel complete_rqe rt = recv_bulk u rt.uring >>= λ d.
      for_each fuel (receive complete_rqe) d (u.receiver rt.uring) rt >>= λ r.
      done (record (r.1) { uring = u.put_receiver rt.uring r.0 })

  -- `RunOn::poll`, in the task that is waked by self, of a future whose code is `fut`.
  unfoldable pub poll_run_on :
      {O : Type 0}
      → ℕ
      → (Y → S → Exec (S × List ℕ))
      → (Runtime M S → Exec (Poll O × Runtime M S))
      → ℕ
      → Runtime M S
      → Exec (Poll O × Runtime M S)
  poll_run_on fuel complete_rqe fut self rt = receive_all fuel complete_rqe rt >>= λ rt'.
      fut rt' >>= λ r. elim r.0 [
        | pending ↦ done (pending, record (r.1) { woken = r.1.woken ++ self ∷ [] })
        | ready o ↦ done (ready o, r.1)
      ]

-- `|rqe| _ = rt.driver.complete(rqe.id, rqe.data)` of the runtimes of the examples
module _ {P R Ext : Type 0} (slab : Slab (RawOp P R Ext)) where
  open slab use {S}

  unfoldable pub complete_rqe : Rqe P → S → Exec (S × List ℕ)
  complete_rqe rqe s = complete slab s rqe.id rqe.payload >>= λ r. done (r.1, r.2)
