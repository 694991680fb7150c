-- ===== src/Server.antt =====
-- The server of examples/evering-threaded/src/main.rs: it takes a request at a time, keeps the answers
-- in a local queue, and sends all of them at random times. What is drawn at random is an argument:
-- `back` and `now` are the draws of one round, `token` makes the answer to a ping.
pub mod Reply
pub mod Round
pub mod Shuffle
mod Tests
use openoscamp_2025s.Base.{
  ℕ, Bool, true, false, ◌||◌, Option, none, some, List, [], ◌∷◌, ◌++◌, if◌then◌else◌,
}
use openoscamp_2025s.Base.Fault.{Exec, done, fault, panic, ◌>>=◌, Result, ok, err}
use openoscamp_2025s.Uring.{RawUring, uring_b, send, recv}
use openoscamp_2025s.Runtime.{Rqe}

pub data SqeData (D : Type 0) : Type 0 where
  exit : SqeData D
  ping : (delay : D) → SqeData D

pub data RqeData (V : Type 0) : Type 0 where
  exited : RqeData V
  pong : (token : V) → RqeData V

pub record Sqe (D : Type 0) : Type 0 where
  pub id : ℕ
  pub payload : SqeData D

-- The end of the rings, and the answers that are not sent yet.
pub record Server (D V Ext : Type 0) : Type 0 where
  pub rq : RawUring (Sqe D) (Rqe (RqeData V)) Ext
  pub local_queue : List (Rqe (RqeData V))

-- Whether to exit, and the answer.
unfoldable pub answer : {D V : Type 0} → (D → V) → SqeData D → Bool × RqeData V
answer token exit = (true, exited)
answer token (ping delay) = (false, pong (token delay))

-- `push_back` or `push_front`
unfoldable pub enter : {X : Type 0} → Bool → X → List X → List X
enter back x q = if back then q ++ x ∷ [] else x ∷ q

module _ {D V Ext : Type 0} where
  -- The loop that sends; `expect` panics at the first answer that the ring has no room for.
  unfoldable pub send_all :
      List (Rqe (RqeData V))
      → RawUring (Sqe D) (Rqe (RqeData V)) Ext
      → Exec (RawUring (Sqe D) (Rqe (RqeData V)) Ext)
  send_all [] m = done m
  send_all (rqe ∷ rest) m =
      send uring_b m rqe >>= λ r. elim r.0 [ ok v ↦ send_all rest r.1 | err e ↦ fault panic ]

  -- The `if` after a request was taken or not.
  unfoldable pub flush : Bool → Server D V Ext → Exec (Server D V Ext)
  flush go s = elim (s.local_queue) [
    | [] ↦ done s
    | rqe ∷ rest ↦
        if go
        then (send_all (rqe ∷ rest) s.rq >>= λ m. done (record { rq = m; local_queue = [] }))
        else done s
  ]

  -- One round of the loop; it is the last if `true` is returned.
  unfoldable pub server_round :
      (D → V) → Bool → Bool → Server D V Ext → Exec (Bool × Server D V Ext)
  server_round token back now s = recv uring_b s.rq >>= λ r. elim r.0 [
    | none ↦ flush now (record s { rq = r.1 }) >>= λ s'. done (false, s')
    | some sqe ↦
        let (should_exit, reply) = answer token sqe.payload in
        flush (should_exit || now) (record {
          rq = r.1;
          local_queue = enter back (record { id = sqe.id; payload = reply }) s.local_queue;
        })
        >>= λ s'. done (should_exit, s')
  ]
