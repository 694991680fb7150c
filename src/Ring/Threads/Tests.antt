-- ===== src/Ring/Threads/Tests.antt =====
-- Two threads on a ring of evering/src/uring.rs, at a concrete schedule.
use openoscamp_2025s.Base.{ℕ, ◌≡◌, ◌≢◌, refl, List, [], ◌∷◌, ◌++◌, arith}
use openoscamp_2025s.Base.Fault.{done}
use openoscamp_2025s.Ring.Holds.{Holds}
use openoscamp_2025s.Ring.Tests.{wrapped, wrapped-Holds}
use openoscamp_2025s.Ring.Threads.{
  Sender, Receiver, Threads, Turn, begin, send, recv, run, begin_step, send_step, recv_step, turn,
}
use openoscamp_2025s.Ring.Threads.Safety.{quiet, interleaved_fifo, no_data_race}

-- The sender stands before its write, the receiver before its read.
abbrev crossing : List (Turn ℕ)
crossing = begin 9 ∷ send ∷ recv ∷ send ∷ recv ∷ []

abbrev crossed : Threads ℕ
crossed = record {
  queue = wrapped;
  sender = Sender.got_head 9 1 3;
  receiver = Receiver.got_tail 3 1;
  sent = 7 ∷ 8 ∷ [];
  received = [];
}

interleaved_fifo_example :
    (w : Threads ℕ) × (ys : List ℕ) × (run (quiet 2 wrapped (7 ∷ 8 ∷ [])) crossing ≡ done w)
    × (w.sent ≡ w.received ++ ys)
    × Holds 2 w.queue ys
interleaved_fifo_example = interleaved_fifo 2 crossing wrapped (7 ∷ 8 ∷ []) wrapped-Holds

no_data_race_example : ◌≢◌ {A = ℕ} 1 3
unfolding run turn begin_step send_step recv_step
no_data_race_example =
    no_data_race 2 crossing wrapped (7 ∷ 8 ∷ []) crossed 9 1 3 3 1 wrapped-Holds refl refl refl
      (omega arith)
