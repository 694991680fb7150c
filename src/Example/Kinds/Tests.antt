-- ===== src/Example/Kinds/Tests.antt =====
-- A ping and an exit of examples/evering-threaded over rings of two and four slots.
use openoscamp_2025s.Base.{
  ℕ, zero, suc, ◌+◌, ◌≡◌, refl, Option, none, some, List, [], ◌∷◌, inl, inr, ◌⊎◌, arith, true,
  false,
}
use openoscamp_2025s.Base.Fault.{Exec, done}
use openoscamp_2025s.Base.Future.{Poll}
use openoscamp_2025s.Slab.Sample.{sample, Store}
use openoscamp_2025s.Driver.{
  RawOp, submitted, completed, try_submit, submit, complete_ext, complete,
}
use openoscamp_2025s.Op.{Op, new_op, poll_op}
use openoscamp_2025s.Op.Flight.{put}
use openoscamp_2025s.Ring.{new_offsets, enqueue, dequeue, dequeue_bulk, next, collect, inc}
use openoscamp_2025s.Uring.{
  RawUring, build, build_header, set_size_a, set_size_b, send, recv, recv_bulk,
}
use openoscamp_2025s.Uring.Build.{sized}
use openoscamp_2025s.Runtime.{
  Rqe, poll_submit, wait_for_ok, reserve, post, poll_posting, new_runtime, receive, receive_all,
  complete_rqe, wake_one,
}
use openoscamp_2025s.Server.{
  Sqe, ping, exit, RqeData, exited, pong, server_round, flush, send_all, answer, enter,
}
use openoscamp_2025s.System.{
  Act, serve, take_responses, System, begun, serve_step, step, run, launch,
}
use openoscamp_2025s.System.Safe.{AreMade}
use openoscamp_2025s.Example.Kinds.{
  Task, task_op, Finds, ping_act, exit_act, kinds, is_ping, no_unreachable,
}

abbrev Entry : Type 0
Entry = RawOp (RqeData ℕ) ℕ ℕ

abbrev double : ℕ → ℕ
double d = d + d

abbrev calls : List (Act ℕ ℕ ℕ Task)
calls =
    ping_act 0 3 7
    ∷ serve double true false
    ∷ exit_act 0 8
    ∷ serve double true false
    ∷ take_responses
    ∷ []

calls-AreMade : AreMade kinds calls
unfolding is_ping
calls-AreMade = ((λ id. refl), (tt, ((λ id. refl), (tt, (tt, tt)))))

abbrev Region : Type 0
Region = RawUring (Sqe ℕ) (Rqe (RqeData ℕ)) ℕ

abbrev fresh_rings : Region
fresh_rings = record {
  header = record {
    off_a = record { head = 0; tail = 0; ring_mask = 1 };
    off_b = record { head = 0; tail = 0; ring_mask = 3 };
    rc = 2;
    ext = 0;
  };
  buf_a = none ∷ none ∷ [];
  buf_b = none ∷ none ∷ none ∷ none ∷ [];
}

build_test : build (sized 1 2 0) ≡ done fresh_rings
unfolding build build_header set_size_a set_size_b new_offsets
    openoscamp_2025s.Base.Bits.is_power_of_two
build_test = refl

-- Both have their response, and both handles are alive.
abbrev reached : System ℕ ℕ ℕ Task (Store Entry)
reached = record {
  rt = record {
    woken = [];
    uring = record {
      header = record {
        off_a = record { head = 0; tail = 0; ring_mask = 1 };
        off_b = record { head = 2; tail = 2; ring_mask = 3 };
        rc = 2;
        ext = 0;
      };
      buf_a =
          some (record { id = 0; payload = ping 3 })
          ∷ some (record { id = 1; payload = exit })
          ∷ [];
      buf_b =
          some (record { id = 0; payload = pong 6 })
          ∷ some (record { id = 1; payload = exited })
          ∷ none
          ∷ none
          ∷ [];
    };
    driver = record {
      cells =
          some (record { state = completed (pong 6); ext = 0 })
          ∷ some (record { state = completed exited; ext = 0 })
          ∷ [];
      spare = 0;
    };
    pending_submissions = [];
  };
  handles = put (put (λ j. none) 0 (some (inl tt))) 1 (some (inr tt));
  unsent = [];
  local_queue = [];
  running = false;
}

reached_test :
    run (sample Entry) task_op (launch (sample Entry) task_op fresh_rings) calls ≡ done reached
unfolding run step launch new_runtime begun serve_step poll_submit wait_for_ok reserve post
    poll_posting try_submit submit send enqueue inc recv dequeue server_round flush send_all answer
    enter receive_all receive complete_rqe complete complete_ext wake_one recv_bulk dequeue_bulk
    next collect openoscamp_2025s.Base.Bits.is_power_of_two openoscamp_2025s.Runtime.for_each
    openoscamp_2025s.Driver.complete_state
reached_test = refl

no_unreachable_example :
    (r : Poll (Exec (ℕ ⊎ Unit {0})) × Store Entry × Op Task) × (poll_op
        (sample Entry)
        task_op
        reached.rt.driver
        (new_op 0 (inl tt))
        7
      ≡ done r)
    × Finds (inl tt) r.0
no_unreachable_example =
    no_unreachable (sample Entry) 1 2 0 calls fresh_rings reached 0 7 (inl tt) (omega arith)
      (omega arith) (omega arith) calls-AreMade build_test reached_test refl
