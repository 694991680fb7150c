-- ===== src/System.antt =====
-- Client and server together, as examples/evering-threaded/src/main.rs runs them: the runtime of
-- examples/evering-utils/src/runtime.rs with its driver, the two rings, and the server. The calls of
-- both sides come in any order; each call of the rings is one step here.
pub mod Safe
pub mod Drain
mod Tests
mod Room
pub mod Sound
mod Typed
mod Fit
mod Entered
mod Client
mod Submit
mod Retry
mod Serve
mod Receive
mod Count
use openoscamp_2025s.Base.{
  ℕ, zero, suc, ◌+◌, ◌≡◌, Bool, true, false, not, Option, none, some, List, [], ◌∷◌, ◌++◌, ◌==◌,
  if◌then◌else◌, map,
}
use openoscamp_2025s.Base.Fault.{Exec, done, fault, ◌>>=◌, Result, ok, err}
use openoscamp_2025s.Base.Future.{Poll, ready, pending}
use openoscamp_2025s.Slab.{Slab}
use openoscamp_2025s.Driver.{Lifecycle, submitted, waiting, completed, cancelled, RawOp}
use openoscamp_2025s.Op.{Completable, Op, new_op, poll_op, drop_op}
use openoscamp_2025s.Op.Flight.{put, IsFlight}
use openoscamp_2025s.Ring.Holds.{Holds}
use openoscamp_2025s.Uring.{RawUring, uring_a, queue_a, queue_b, size_a, size_b}
use openoscamp_2025s.Runtime.{
  Runtime, new_runtime, Rqe, Submitting, reserving, posting, poll_submit, receive_all, complete_rqe,
}
use openoscamp_2025s.Server.{SqeData, RqeData, Sqe, Server, answer, server_round}
use openoscamp_2025s.Server.Round.{count}

-- What the two sides do. `make` is the closure that makes the request of an operation; `token`,
-- `back` and `now` are what a round of the server draws.
pub data Act (D V Ext T : Type 0) : Type 0 where
  submit_ext : (ext : Ext) (op_data : T) (make : ℕ → T → SqeData D × T) (waker : ℕ) → Act D V Ext T
  retry : (i waker : ℕ) → Act D V Ext T
  await : (id waker : ℕ) → Act D V Ext T
  cancel : (id : ℕ) → Act D V Ext T
  take_responses : Act D V Ext T
  serve : (token : D → V) (back now : Bool) → Act D V Ext T

-- `unsent` are the futures of `submit` that have their id and wait for the ring; `handles` has the
-- data of each operation, be it in such a future or in the handle that it has returned.
pub record System (D V Ext T S : Type 0) : Type 0 where
  pub rt : Runtime (RawUring (Sqe D) (Rqe (RqeData V)) Ext) S
  pub handles : ℕ → Option T
  pub unsent : List (Sqe D × T)
  pub local_queue : List (Rqe (RqeData V))
  pub running : Bool

-- One element of a list, and the others.
unfoldable pub pick : {A : Type 0} → ℕ → List A → Option (A × List A)
pick i [] = none
pick zero (x ∷ xs) = some (x, xs)
pick (suc i) (x ∷ xs) = elim (pick i xs) [ none ↦ none | some (y, ys) ↦ some (y, x ∷ ys) ]

abbrev pub entry : {D T : Type 0} → (ℕ → T → SqeData D × T) → ℕ → T → Sqe D × T
entry make id t = (record { id = id; payload = (make id t).0 }, (make id t).1)

abbrev pub unsent_ids : {D T : Type 0} → List (Sqe D × T) → List ℕ
unsent_ids l = map (λ p. p.0.id) l

abbrev pub request_ids : {D : Type 0} → List (Sqe D) → List ℕ
request_ids l = map (λ sqe. sqe.id) l

abbrev pub response_ids : {V : Type 0} → List (Rqe (RqeData V)) → List ℕ
response_ids l = map (λ rqe. rqe.id) l

-- How often an id is in a list.
unfoldable pub tally : ℕ → List ℕ → ℕ
tally j [] = 0
tally j (i ∷ l) = (if i == j then 1 else 0) + tally j l

-- What a poll of a submission returns, with the runtime.
abbrev pub Polled : (D V Ext T S : Type 0) → Type 0
Polled D V Ext T S =
    Result (Op T) (Submitting T (Sqe D) Ext) × Runtime (RawUring (Sqe D) (Rqe (RqeData V)) Ext) S

module _ {D V Ext T S : Type 0} where
  abbrev pub put_driver : System D V Ext T S → S → System D V Ext T S
  put_driver s d = record s { rt = record (s.rt) { driver = d } }

  -- What the first poll of a submission leaves, and what a later one does.
  unfoldable pub begun : System D V Ext T S → Polled D V Ext T S → System D V Ext T S
  begun s (ok op, rt) = record s { rt = rt; handles = put s.handles op.id op.payload }
  begun s (err (posting id ent t), rt) = record s {
    rt = rt;
    handles = put s.handles id (some t);
    unsent = s.unsent ++ (ent, t) ∷ [];
  }
  begun s (err (reserving ext t), rt) = record s { rt = rt }

  unfoldable pub retried : System D V Ext T S → Polled D V Ext T S → System D V Ext T S
  retried s (ok op, rt) = record s { rt = rt }
  retried s (err (posting id ent t), rt) = record s { rt = rt; unsent = s.unsent ++ (ent, t) ∷ [] }
  retried s (err (reserving ext t), rt) = record s { rt = rt }

module _ {D V R Ext T O : Type 0} (slab : Slab (RawOp (RqeData V) R Ext))
    (c : Completable T (RqeData V) R Ext O) where
  open slab use {S, get}

  unfoldable pub retry_step :
      System D V Ext T S → ℕ → Option ((Sqe D × T) × List (Sqe D × T)) → Exec (System D V Ext T S)
  retry_step s waker none = done s
  retry_step s waker (some ((ent, t), rest)) =
      poll_submit slab uring_a (λ id t. (ent, t)) (posting ent.id ent t) waker s.rt >>= λ r.
      done (retried (record s { unsent = rest }) r)

  -- A handle is dropped as soon as it is ready.
  unfoldable pub await_step : System D V Ext T S → ℕ → ℕ → Option T → Exec (System D V Ext T S)
  await_step s id waker none = done s
  await_step s id waker (some t) = poll_op slab c s.rt.driver (new_op id t) waker >>= λ r.
      elim r.0 [
        | pending ↦ done (put_driver s r.1)
        | ready o ↦ drop_op slab c r.1 r.2 >>= λ d.
            done (record (put_driver s d) { handles = put s.handles id none })
      ]

  unfoldable pub cancel_step : System D V Ext T S → ℕ → Option T → Exec (System D V Ext T S)
  cancel_step s id none = done s
  cancel_step s id (some t) = drop_op slab c s.rt.driver (new_op id t) >>= λ d.
      done (record (put_driver s d) { handles = put s.handles id none })

  unfoldable pub serve_step :
      System D V Ext T S → (D → V) → Bool → Bool → Bool → Exec (System D V Ext T S)
  serve_step s token back now false = done s
  serve_step s token back now true =
      server_round token back now (record { rq = s.rt.uring; local_queue = s.local_queue }) >>= λ r.
      done (record s {
        rt = record (s.rt) { uring = r.1.rq };
        local_queue = r.1.local_queue;
        running = not r.0;
      })

  -- A handle exists only when its submission has returned it. After an exit the server is gone.
  unfoldable pub step : System D V Ext T S → Act D V Ext T → Exec (System D V Ext T S)
  step s (submit_ext ext t make waker) =
      poll_submit slab uring_a (entry make) (reserving ext t) waker s.rt >>= λ r. done (begun s r)
  step s (retry i waker) = retry_step s waker (pick i s.unsent)
  step s (await id waker) =
      if tally id (unsent_ids s.unsent) == 0 then await_step s id waker (s.handles id) else done s
  step s (cancel id) =
      if tally id (unsent_ids s.unsent) == 0 then cancel_step s id (s.handles id) else done s
  step s take_responses =
      receive_all uring_a (size_b s.rt.uring.header) (complete_rqe slab) s.rt >>= λ rt.
      done (record s { rt = rt })
  step s (serve token back now) = serve_step s token back now s.running

  unfoldable pub run : System D V Ext T S → List (Act D V Ext T) → Exec (System D V Ext T S)
  run s [] = done s
  run s (a ∷ rest) = step s a >>= λ s'. run s' rest

  -- Both sides as they begin, over rings that are empty.
  unfoldable pub launch : RawUring (Sqe D) (Rqe (RqeData V)) Ext → System D V Ext T S
  launch m = record {
    rt = new_runtime slab m (size_a m.header);
    handles = λ j. none;
    unsent = [];
    local_queue = [];
    running = true;
  }
