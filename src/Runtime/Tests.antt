-- ===== src/Runtime/Tests.antt =====
-- The runtime of examples/evering-utils on concrete inputs: rings of four slots, and a driver over the
-- sample slab.
use openoscamp_2025s.Base.{ℕ, ◌++◌, drop, ◌+◌, ◌≡◌, refl, Option, none, some, List, [], ◌∷◌, arith}
use openoscamp_2025s.Base.Fault.{done, ◌>>=◌, ok, err}
use openoscamp_2025s.Base.Future.{ready}
use openoscamp_2025s.Slab.Sample.{sample, Store}
use openoscamp_2025s.Driver.{
  recycle, Lifecycle, waiting, completed, RawOp, submit, complete, complete_ext, complete_state,
}
use openoscamp_2025s.Op.{Completable, completable, new_op, spent, poll_op}
use openoscamp_2025s.Fifo.{push}
use openoscamp_2025s.Ring.{Queue}
use openoscamp_2025s.Ring.Holds.{Holds}
use openoscamp_2025s.Uring.{RawUring, Uring, uring_a}
use openoscamp_2025s.Runtime.{
  Runtime, Rqe, reserving, posting, poll_submit, receive, receive_all, complete_rqe, wake_one,
}
use openoscamp_2025s.Runtime.Receive.{fold, answers, receive_all_lem}
use openoscamp_2025s.Runtime.Submit.{poll_posting_lem, poll_reserving_room, wake_lost}

abbrev Entry : Type 0
Entry = RawOp ℕ ℕ ℕ

abbrev adder : Completable ℕ ℕ ℕ ℕ ℕ
adder = completable (λ t p. t + p) (λ t. recycle t)

-- The request is the id and the data.
abbrev new_entry : ℕ → ℕ → (ℕ × ℕ) × ℕ
new_entry id t = ((id, t), t)

-- Two requests are on their way, and the responses 7 and 8 to operations 0 and 1 have come.
abbrev region : RawUring (ℕ × ℕ) (Rqe ℕ) ℕ
region = record {
  header = record {
    off_a = record { head = 0; tail = 2; ring_mask = 3 };
    off_b = record { head = 3; tail = 1; ring_mask = 3 };
    rc = 2;
    ext = 0;
  };
  buf_a = some (0, 5) ∷ some (1, 6) ∷ none ∷ none ∷ [];
  buf_b =
      some (record { id = 1; payload = 8 })
      ∷ none
      ∷ none
      ∷ some (record { id = 0; payload = 7 })
      ∷ [];
}

abbrev u : Uring (RawUring (ℕ × ℕ) (Rqe ℕ) ℕ) (ℕ × ℕ) (Rqe ℕ)
u = uring_a

abbrev at : Lifecycle ℕ ℕ → Entry
at l = record { state = l; ext = 9 }

abbrev two_waiting : List (Option Entry)
two_waiting = some (at (waiting 3)) ∷ some (at (waiting 4)) ∷ []

-- The driver is full, and task 5 waits.
abbrev full : Runtime (RawUring (ℕ × ℕ) (Rqe ℕ) ℕ) (Store Entry)
full = record {
  woken = [];
  uring = region;
  driver = record { cells = two_waiting; spare = 0 };
  pending_submissions = 5 ∷ [];
}

abbrev roomy : Runtime (RawUring (ℕ × ℕ) (Rqe ℕ) ℕ) (Store Entry)
roomy = record full { driver = record { cells = two_waiting; spare = 2 } }

requests-Holds : Holds 2 (u.sender region) ((0, 5) ∷ (1, 6) ∷ [])
requests-Holds = record {
  narrow = omega arith;
  masked = refl;
  storage = refl;
  head_in = omega arith;
  tail_at = refl;
  room = omega arith;
  slots = (refl, (refl, tt));
}

abbrev responses : List (Rqe ℕ)
responses = record { id = 0; payload = 7 } ∷ record { id = 1; payload = 8 } ∷ []

responses-Holds : Holds 2 (u.receiver region) responses
responses-Holds = record {
  narrow = omega arith;
  masked = refl;
  storage = refl;
  head_in = omega arith;
  tail_at = refl;
  room = omega arith;
  slots = (refl, (refl, tt));
}

receive_all_lem_example :
    (q : Queue (Rqe ℕ)) × (receive_all u 4 (complete_rqe (sample Entry)) full ≡ (
      answers (complete_rqe (sample Entry)) responses full.pending_submissions full.driver >>= λ t.
      done (record full {
        woken = full.woken ++ t.1;
        uring = u.put_receiver region q;
        driver = t.0;
        pending_submissions = drop 2 full.pending_submissions;
      })))
    × Holds 2 q []
receive_all_lem_example =
    receive_all_lem u (complete_rqe (sample Entry)) 2 full responses responses-Holds

-- The one that waits is waked, then the tasks of the two operations.
fold_test :
    fold (receive (complete_rqe (sample Entry))) responses full
    ≡ done (record {
      woken = 5 ∷ 3 ∷ 4 ∷ [];
      uring = region;
      driver = record { cells = some (at (completed 7)) ∷ some (at (completed 8)) ∷ []; spare = 0 };
      pending_submissions = [];
    })
unfolding fold receive complete_rqe wake_one complete complete_ext complete_state
fold_test = refl

poll_posting_lem_test :
    (q : Queue (ℕ × ℕ)) × (poll_submit (sample Entry) u new_entry (posting 2 (2, 6) 6) 5 roomy
      ≡ done (ok (new_op 2 6), record roomy { uring = u.put_sender region q }))
    × Holds 2 q ((0, 5) ∷ (1, 6) ∷ (2, 6) ∷ [])
unfolding push
poll_posting_lem_test =
    poll_posting_lem (sample Entry) u new_entry 2 roomy ((0, 5) ∷ (1, 6) ∷ []) 2 (2, 6) 6 5
      requests-Holds

poll_reserving_room_example :
    let (id, s) = submit (sample Entry) roomy.driver 9 in
    (q : Queue (ℕ × ℕ)) × (poll_submit (sample Entry) u new_entry (reserving 9 6) 5 roomy
      ≡ done (ok (new_op id 6), record roomy { driver = s; uring = u.put_sender region q }))
    × Holds 2 q ((0, 5) ∷ (1, 6) ∷ (id, 6) ∷ [])
    × ((sample Entry).get roomy.driver id ≡ none)
unfolding push
poll_reserving_room_example =
    poll_reserving_room (sample Entry) u new_entry 2 roomy ((0, 5) ∷ (1, 6) ∷ []) 9 6 5
      requests-Holds (λ e. omega (arith, e))

wake_lost_example :
    (rt1 rt2 : Runtime (RawUring (ℕ × ℕ) (Rqe ℕ) ℕ) (Store Entry)) × (s : Store Entry) × (receive
        (complete_rqe (sample Entry))
        (record { id = 0; payload = 7 })
        full
      ≡ done rt1)
    × (rt1.woken ≡ 5 ∷ 3 ∷ [])
    × (poll_submit (sample Entry) u new_entry (reserving 9 6) 5 rt1
        ≡ done (err (reserving 9 6), rt2))
    × (rt2.pending_submissions ≡ 5 ∷ [])
    × (rt2.woken ≡ rt1.woken)
    × (poll_op (sample Entry) adder rt2.driver (new_op 0 5) 3 ≡ done (ready 12, s, spent 0))
    × ((sample Entry).len s + 1 ≡ (sample Entry).capacity s)
wake_lost_example =
    wake_lost (sample Entry) u new_entry adder full 0 3 5 (at (waiting 3)) 7 9 6 5 refl refl refl
      refl
