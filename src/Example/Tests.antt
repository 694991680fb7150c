-- ===== src/Example/Tests.antt =====
-- The runtime of examples/evering-threaded on concrete inputs.
use openoscamp_2025s.Base.{ℕ, ◌≡◌, refl, true, false, Option, none, some, List, [], ◌∷◌, arith}
use openoscamp_2025s.Base.Fault.{Exec, done, fault, panic}
use openoscamp_2025s.Slab.Sample.{sample, Store}
use openoscamp_2025s.Driver.{RawOp, waiting, completed, cancelled, noop, drop_driver}
use openoscamp_2025s.Server.{RqeData, pong}
use openoscamp_2025s.Op.Flight.{put, Act, start, await, cancel, respond, World}
use openoscamp_2025s.Example.{
  block_on_runtime, drop_fields, drop_ops, into_sender, complete_ping, complete_exit,
}
use openoscamp_2025s.Example.Guard.{nested_panics}

-- Every runtime has one reference.
abbrev strong : ℕ → ℕ
strong rt = 1

abbrev body : Option ℕ → Exec (ℕ × Option ℕ)
body cx = done (7, cx)

nested_panics_test : block_on_runtime strong 0 (block_on_runtime strong 1 body) none ≡ fault panic
nested_panics_test = nested_panics strong 0 1 body (λ e. omega (arith, e))

complete_test :
    (complete_ping {V = ℕ} tt (pong 5) ≡ done 5) × (complete_exit {V = ℕ} tt (pong 5) ≡ fault panic)
unfolding complete_ping complete_exit
complete_test = (refl, refl)

abbrev sender : ℕ
sender = 9

abbrev Entry : Type 0
Entry = RawOp (RqeData ℕ) ℕ ℕ

-- One ping is answered and not awaited again, the other was dropped before its answer.
abbrev calls : List (Act (Unit {0}) (RqeData ℕ) ℕ)
calls = start 0 tt ∷ start 0 tt ∷ await 0 3 ∷ respond 0 (pong 5) ∷ cancel 1 ∷ []

abbrev left : World (Store Entry) (Unit {0})
left = record {
  store = record {
    cells =
        some (record { state = completed (pong 5); ext = 0 })
        ∷ some (record { state = cancelled noop; ext = 0 })
        ∷ [];
    spare = 0;
  };
  handles = put (put (put (λ j. none) 0 (some tt)) 1 (some tt)) 1 none;
  owed = put (put (put (λ j. false) 0 true) 1 true) 0 false;
}

-- What a drop of an operation would do to another runtime.
abbrev release : ℕ → ℕ → Exec (Unit {0})
release rt id = done tt

into_sender_test :
    into_sender strong release none
      (sample Entry)
      1
      sender
      []
      []
      (record { cells = some (record { state = waiting 3; ext = 0 }) ∷ []; spare = 0 })
    ≡ fault panic
unfolding into_sender drop_fields drop_ops drop_driver
into_sender_test = refl
