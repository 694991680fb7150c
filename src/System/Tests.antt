-- ===== src/System/Tests.antt =====
-- Client and server together on concrete inputs: the sample slab, and pings that are answered with
-- twice their delay.
use openoscamp_2025s.Base.{
  ◌⊎◌, ℕ, zero, suc, ◌+◌, ◌*◌, ◌-◌, ◌^◌, ◌≤◌, ◌≡◌, refl, Bool, true, false, Option, none, some,
  List, [], ◌∷◌, arith, length, ==_of_ne, if◌then◌else◌,
}
use openoscamp_2025s.Base.Fault.{done, fault, panic}
use openoscamp_2025s.Slab.Sample.{sample, Store}
use openoscamp_2025s.Driver.{recycle, submitted, completed, RawOp, try_submit, submit, drop_driver}
use openoscamp_2025s.Driver.Steps.{fresh}
use openoscamp_2025s.Op.{Completable, completable}
use openoscamp_2025s.Op.Flight.{Fits, absent, flying}
use openoscamp_2025s.Ring.{enqueue, dequeue, inc}
use openoscamp_2025s.Uring.{RawUring, build, send, recv}
use openoscamp_2025s.Uring.Build.{sized}
use openoscamp_2025s.Runtime.{
  Rqe, poll_submit, wait_for_ok, reserve, post, poll_posting, new_runtime,
}
use openoscamp_2025s.Server.{Sqe, ping, RqeData, server_round, flush, send_all, answer, enter}
use openoscamp_2025s.Server.Round.{count}
use openoscamp_2025s.System.Sound.{HandleFits, EntryFits, IsSystem}
use openoscamp_2025s.System.{
  Act, submit_ext, retry, await, cancel, take_responses, serve, System, begun, serve_step, step,
  run, launch, tally,
}
use openoscamp_2025s.System.Safe.{any_label, system_is_safe}
use openoscamp_2025s.System.Drain.{drain, all_answered}

abbrev Entry : Type 0
Entry = RawOp (RqeData ℕ) ℕ ℕ

abbrev echo : Completable ℕ (RqeData ℕ) ℕ ℕ (RqeData ℕ)
echo = completable (λ t p. p) (λ t. recycle t)

abbrev double : ℕ → ℕ
double d = d * 2

abbrev ask : ℕ → Act ℕ ℕ ℕ ℕ
ask d = submit_ext 0 d (λ id t. (ping t, t)) 7

abbrev Region : Type 0
Region = RawUring (Sqe ℕ) (Rqe (RqeData ℕ)) ℕ

abbrev Machine : Type 0
Machine = System ℕ ℕ ℕ ℕ (Store Entry)

-- The ring of the requests, of two slots, is full when the second operation is submitted.
abbrev busy : List (Act ℕ ℕ ℕ ℕ)
busy =
    ask 3
    ∷ ask 4
    ∷ await 0 7
    ∷ serve double true false
    ∷ retry 0 7
    ∷ cancel 1
    ∷ serve double false true
    ∷ take_responses
    ∷ await 0 7
    ∷ []

system_is_safe_example :
    (m : Region) × (s : Machine) × (h : IsSystem (sample Entry) echo any_label 1 2 s) × (build
        (sized 1 2 0)
      ≡ done m)
    × (run (sample Entry) echo (launch (sample Entry) echo m) busy ≡ done s)
    × (length s.unsent + length h.requests + length s.local_queue + length h.responses
        ≤ (sample Entry).len s.rt.driver)
    × ((sample Entry).len s.rt.driver ≤ 2)
system_is_safe_example =
    system_is_safe (sample Entry) echo 1 2 0 busy (omega arith) (omega arith) (omega arith)

abbrev held : ℕ → Option ℕ
held zero = some 4
held (suc j) = none

abbrev waits : ℕ → Bool
waits zero = true
waits (suc j) = false

abbrev entry : Entry
entry = record { state = submitted; ext = 0 }

-- One request is in its ring.
abbrev asked : Machine
asked = record {
  rt = record {
    woken = [];
    uring = record {
      header = record {
        off_a = record { head = 0; tail = 1; ring_mask = 1 };
        off_b = record { head = 0; tail = 0; ring_mask = 3 };
        rc = 2;
        ext = 0;
      };
      buf_a = some (record { id = 0; payload = ping 4 }) ∷ none ∷ [];
      buf_b = none ∷ none ∷ none ∷ none ∷ [];
    };
    driver = record { cells = some entry ∷ []; spare = 1 };
    pending_submissions = [];
  };
  handles = held;
  unsent = [];
  local_queue = [];
  running = true;
}

asked-IsSystem : IsSystem (sample Entry) echo any_label 1 2 asked
unfolding tally count
asked-IsSystem = record {
  owed = waits;
  requests = record { id = 0; payload = ping 4 } ∷ [];
  responses = [];
  flight = fits;
  each = once;
  holds_a = record {
    narrow = omega arith;
    masked = refl;
    storage = refl;
    head_in = omega arith;
    tail_at = refl;
    room = omega arith;
    slots = (refl, tt);
  };
  holds_b = record {
    narrow = omega arith;
    masked = refl;
    storage = refl;
    head_in = omega arith;
    tail_at = refl;
    room = omega arith;
    slots = tt;
  };
  kind = λ j. true;
  typed = record {
    of_handles = handles_fit;
    of_entries = entries_fit;
    of_unsent = tt;
    of_requests = (refl, tt);
    of_local = tt;
    of_responses = tt;
  };
}
  where
    fits : (j : ℕ) → Fits ((sample Entry).get asked.rt.driver j) (held j) (waits j)
    fits zero = flying entry [] 4 refl (fresh refl) refl refl
    fits (suc j) = absent refl refl refl

    handles_fit : (j : ℕ) → HandleFits (λ (t : ℕ). true) true (held j)
    handles_fit zero = refl
    handles_fit (suc j) = tt

    entries_fit :
        (j : ℕ) → EntryFits (λ (p : RqeData ℕ). true) true ((sample Entry).get asked.rt.driver j)
    entries_fit zero = tt
    entries_fit (suc j) = tt

    once : (j : ℕ) → tally j [] + tally j (0 ∷ []) + 0 + 0 ≡ (if waits j then 1 else 0)
    once zero = refl
    once (suc j) = rw (==_of_ne 0 (suc j) (omega arith)) (omega arith)

all_answered_example :
    (s : Machine) × (run (sample Entry) echo asked (drain double true 1) ≡ done s)
    × ((j : ℕ)
        → (s.handles j ≡ none)
          ⊎ ((op : Entry) × (p : RqeData ℕ) × ((sample Entry).get s.rt.driver j ≡ some op)
              × (op.state ≡ completed p)))
    × (drop_driver (sample Entry) s.rt.driver ≡ done tt)
unfolding asked-IsSystem
all_answered_example =
    all_answered (sample Entry) echo double true any_label 1 2 asked asked-IsSystem ((4, refl), tt)
      refl refl (omega arith)

-- With rings of two slots the driver admits two operations, and the second answer has no room.
abbrev small : Region
small = record {
  header = record {
    off_a = record { head = 0; tail = 0; ring_mask = 1 };
    off_b = record { head = 0; tail = 0; ring_mask = 1 };
    rc = 2;
    ext = 0;
  };
  buf_a = none ∷ none ∷ [];
  buf_b = none ∷ none ∷ [];
}

overflow_test :
    run
      (sample Entry)
      echo
      (launch (sample Entry) echo small)
      (ask 3 ∷ serve double true false ∷ ask 4 ∷ serve double true true ∷ [])
    ≡ fault panic
unfolding run step launch new_runtime begun serve_step poll_submit wait_for_ok reserve post
    poll_posting try_submit submit send enqueue inc recv dequeue server_round flush send_all answer
    enter openoscamp_2025s.Base.Bits.is_power_of_two
overflow_test = refl
