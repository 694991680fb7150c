-- ===== src/Ring/Threads/Safety.antt =====
-- What the two threads of a queue of evering/src/uring.rs are promised, in whatever order their
-- accesses come.
use openoscamp_2025s.Base.{
  ℕ, ◌^◌, ◌<◌, ◌≡◌, refl, sym, ◌∙◌, ◌≢◌, subst, List, [], ◌∷◌, ◌++◌, arith, length,
}
use openoscamp_2025s.Base.Fault.{Exec, done, done_injective}
use openoscamp_2025s.Ring.{Queue}
use openoscamp_2025s.Ring.Holds.{Holds, wrap_ne}
use openoscamp_2025s.Ring.Threads.{
  Sender, Receiver, Threads, Turn, begin, send, recv, again, begin_step, again_step, turn, run,
}
use openoscamp_2025s.Ring.Threads.Inv.{Inv, SenderKnows, ReceiverKnows, known_pos}
use openoscamp_2025s.Ring.Threads.Sending.{begin_step-knows, send_step-Sends}
use openoscamp_2025s.Ring.Threads.Receiving.{again_step-knows, recv_step-Receives}

module _ {ℓ} {A : Type ℓ} (k : ℕ) where
  abbrev Keeps : Exec (Threads A) → Type ℓ
  Keeps r = (w : Threads A) × (xs : List A) × (r ≡ done w) × Inv k w xs

  turn-Keeps : (w : Threads A) (xs : List A) (t : Turn A) → Inv k w xs → Keeps (turn w t)
  unfolding turn
  turn-Keeps w xs (begin v) i = (
    record w { sender = begin_step w.sender v },
    xs,
    refl,
    record {
      ring = i.ring;
      kept = i.kept;
      sender = begin_step-knows k w.queue (length xs) v w.sender i.sender;
      receiver = i.receiver;
    },
  )
  turn-Keeps w xs send i =
      let (q, p, sent, ys, e, h, kept, knows, other) =
        send_step-Sends k w.queue xs w.sent w.received w.sender i.ring i.kept i.sender in
      (
        record w { queue = q; sender = p; sent = sent },
        ys,
        rw e,
        record { ring = h; kept = kept; sender = knows; receiver = other w.receiver i.receiver },
      )
  turn-Keeps w xs recv i =
      let (q, c, got, ys, e, h, kept, knows, other) =
        recv_step-Receives k w.queue xs w.sent w.received w.receiver i.ring i.kept i.receiver in
      (
        record w { queue = q; receiver = c; received = got },
        ys,
        rw e,
        record { ring = h; kept = kept; sender = other w.sender i.sender; receiver = knows },
      )
  turn-Keeps w xs again i = (
    record w { receiver = again_step w.receiver },
    xs,
    refl,
    record {
      ring = i.ring;
      kept = i.kept;
      sender = i.sender;
      receiver = again_step-knows k w.queue.off.head xs w.receiver i.receiver;
    },
  )

  pub run-Keeps : (ts : List (Turn A)) (w : Threads A) (xs : List A) → Inv k w xs → Keeps (run w ts)
  unfolding run
  run-Keeps [] w xs i = (w, xs, refl, i)
  run-Keeps (t ∷ ts) w xs i =
      let (w1, ys, e1, i1) = turn-Keeps w xs t i in
      let (w2, zs, e2, i2) = run-Keeps ts w1 ys i1 in (w2, zs, rw (e1, e2), i2)

  slots_ne :
      (q : Queue A) (ys : List A) (v : A) (tail head_seen head tail_seen : ℕ)
      → Holds k q ys
      → SenderKnows k q (length ys) (Sender.got_head v tail head_seen)
      → ReceiverKnows k q.off.head ys (Receiver.got_tail head tail_seen)
      → head ≢ tail_seen
      → tail ≢ head
  slots_ne q ys v tail head_seen head tail_seen h (es, b, u) (er, a, u') ne meet =
      let pos : 0 < a.known = known_pos k q ys h tail_seen a (λ f. ne (er ∙ f)) in
      wrap_ne (2 ^ k) q.off.head (length ys) h.head_in (omega (arith, a.inside)) h.room
        (sym h.tail_at ∙ sym es ∙ meet ∙ er)

  -- Both threads stand outside every operation.
  abbrev pub quiet : Queue A → List A → Threads A
  quiet q xs = record {
    queue = q;
    sender = Sender.idle;
    receiver = Receiver.idle;
    sent = xs;
    received = [];
  }

  -- However the accesses of a sender and a receiver are interleaved, from a ring of `2 ^ k` slots
  -- that holds `xs`, none misuses memory; what has been sent, `xs` first, is what has been received
  -- and then the values in the ring, in order, each once, and fewer than `2 ^ k`.
  pub interleaved_fifo :
      (ts : List (Turn A)) (q : Queue A) (xs : List A)
      → Holds k q xs
      → (w : Threads A) × (ys : List A) × (run (quiet q xs) ts ≡ done w)
        × (w.sent ≡ w.received ++ ys)
        × Holds k w.queue ys
  interleaved_fifo ts q xs h =
      let (w, ys, e, i) =
        run-Keeps ts (quiet q xs) xs
          (record { ring = h; kept = refl; sender = tt; receiver = tt }) in
      (w, ys, e, i.kept, i.ring)

  -- Whenever, in a run from a quiet ring, the sender is about to write a slot and the receiver is
  -- about to read one, the two slots differ.
  pub no_data_race :
      (ts : List (Turn A)) (q : Queue A) (xs : List A) (w : Threads A) (v : A)
      (tail head_seen head tail_seen : ℕ)
      → Holds k q xs
      → run (quiet q xs) ts ≡ done w
      → w.sender ≡ Sender.got_head v tail head_seen
      → w.receiver ≡ Receiver.got_tail head tail_seen
      → head ≢ tail_seen
      → tail ≢ head
  no_data_race ts q xs w v tail head_seen head tail_seen h e es er ne =
      let (w', ys, e', i) =
        run-Keeps ts (quiet q xs) xs
          (record { ring = h; kept = refl; sender = tt; receiver = tt }) in
      let same : w' ≡ w = done_injective (sym e' ∙ e) in
      let i' : Inv k w ys = subst (λ u. Inv k u ys) same i in
      slots_ne w.queue ys v tail head_seen head tail_seen i'.ring
        (subst (SenderKnows k w.queue (length ys)) es i'.sender)
        (subst (ReceiverKnows k w.queue.off.head ys) er i'.receiver) ne
