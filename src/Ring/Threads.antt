-- ===== src/Ring/Threads.antt =====
-- One sender and one receiver of a queue of evering/src/uring.rs as two threads, an access to shared
-- memory at a time, interleaved in any order. The sender runs `enqueue` and `enqueue_bulk`, the
-- receiver `dequeue`, `dequeue_bulk` and `Drain::next`. Accesses take effect in the order of the
-- steps; that a thread sees the other's store no earlier than what the other did before it is what
-- the `Release` and `Acquire` of the code are for.
pub mod Inv
pub mod Sending
pub mod Receiving
pub mod Safety
mod Tests
use openoscamp_2025s.Base.{ℕ, List, [], ◌∷◌, ◌++◌, ◌==◌, if◌then◌else◌}
use openoscamp_2025s.Base.Fault.{Exec, done, ◌>>=◌}
use openoscamp_2025s.Ring.{Queue, inc, write_slot, read_slot, store_head, store_tail}

-- Where the sender stands, with its local variables.
pub data Sender {ℓ} (A : Type ℓ) : Type ℓ where
  idle : Sender A
  started : A → Sender A
  got_tail : (val : A) (tail : ℕ) → Sender A
  got_head : (val : A) (tail head : ℕ) → Sender A
  wrote : (val : A) (tail head : ℕ) → Sender A
  stored : (tail head : ℕ) → Sender A

pub data Receiver {ℓ} (A : Type ℓ) : Type ℓ where
  idle : Receiver A
  got_head : (head : ℕ) → Receiver A
  got_tail : (head tail : ℕ) → Receiver A
  read : (val : A) (head tail : ℕ) → Receiver A
  took : (head tail : ℕ) → Receiver A

-- `sent` and `received` list the values whose offset has been stored.
pub record Threads {ℓ} (A : Type ℓ) : Type ℓ where
  pub queue : Queue A
  pub sender : Sender A
  pub receiver : Receiver A
  pub sent : List A
  pub received : List A

-- `begin v` gives the sender its next value: a new call, or the next of a bulk, which keeps the head
-- that it has read. `again` calls `next` on a drain, which keeps the tail that it has read.
pub data Turn {ℓ} (A : Type ℓ) : Type ℓ where
  begin : A → Turn A
  send recv again : Turn A

module _ {ℓ} {A : Type ℓ} where
  pub begin_step : Sender A → A → Sender A
  begin_step Sender.idle v = Sender.started v
  begin_step (stored tail head) v = Sender.got_head v tail head
  begin_step p v = p

  pub send_step : Queue A → List A → Sender A → Exec (Queue A × Sender A × List A)
  send_step q sent Sender.idle = done (q, Sender.idle, sent)
  send_step q sent (started v) = done (q, Sender.got_tail v q.off.tail, sent)
  send_step q sent (Sender.got_tail v tail) = done (q, Sender.got_head v tail q.off.head, sent)
  send_step q sent (Sender.got_head v tail head) =
      if inc q.off tail == head then done (q, Sender.idle, sent) else (do
        buf ← write_slot q.buf tail v
        done (record q { buf = buf }, wrote v tail head, sent))
  send_step q sent (wrote v tail head) =
      done (store_tail q (inc q.off tail), stored (inc q.off tail) head, sent ++ (v ∷ []))
  send_step q sent (stored tail head) = done (q, Sender.idle, sent)

  pub again_step : Receiver A → Receiver A
  again_step (took head tail) = Receiver.got_tail head tail
  again_step c = c

  pub recv_step : Queue A → List A → Receiver A → Exec (Queue A × Receiver A × List A)
  recv_step q got Receiver.idle = done (q, Receiver.got_head q.off.head, got)
  recv_step q got (Receiver.got_head head) = done (q, Receiver.got_tail head q.off.tail, got)
  recv_step q got (Receiver.got_tail head tail) =
      if head == tail
      then done (q, Receiver.idle, got)
      else (do val ← read_slot q.buf head; done (q, read val head tail, got))
  recv_step q got (read val head tail) =
      done (store_head q (inc q.off head), took (inc q.off head) tail, got ++ (val ∷ []))
  recv_step q got (took head tail) = done (q, Receiver.idle, got)

  pub turn : Threads A → Turn A → Exec (Threads A)
  turn w (begin v) = done (record w { sender = begin_step w.sender v })
  turn w send = send_step w.queue w.sent w.sender >>= λ r.
      done (record w { queue = r.0; sender = r.1; sent = r.2 })
  turn w recv = recv_step w.queue w.received w.receiver >>= λ r.
      done (record w { queue = r.0; receiver = r.1; received = r.2 })
  turn w again = done (record w { receiver = again_step w.receiver })

  pub run : Threads A → List (Turn A) → Exec (Threads A)
  run w [] = done w
  run w (t ∷ ts) = turn w t >>= λ w'. run w' ts
