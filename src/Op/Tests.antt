-- ===== src/Op/Tests.antt =====
-- Tests of evering/src/op.rs and driver.rs: operations on numbers, without an extension, over the
-- sample slab.
use openoscamp_2025s.Base.{
  true, false, ◌↔◌, ◌⊎◌, ℕ, ◌+◌, ◌≡◌, refl, Option, none, some, List, [], ◌∷◌,
}
use openoscamp_2025s.Base.Fault.{done, fault, panic, ok, err}
use openoscamp_2025s.Slab.Sample.{sample, Store}
use openoscamp_2025s.Base.Future.{ready, pending}
use openoscamp_2025s.Driver.{
  recycle, Lifecycle, submitted, waiting, completed, cancelled, RawOp, submit, try_submit, poll,
  poll_state, complete_ext, complete_state, drop_driver, contains,
}
use openoscamp_2025s.Op.{Completable, completable, new_op, spent, poll_op, drop_op}
use openoscamp_2025s.Op.Flight.{Act, start, start_if_room, await, cancel, respond, World, run}
use openoscamp_2025s.Op.Flight.Safe.{fresh_world, calls_are_safe}
use openoscamp_2025s.Op.Trip.{complete_trip, cancel_trip, stale_drop_panics, stale_drop_steals}

abbrev Entry : Type 0
Entry = RawOp ℕ ℕ ℕ

-- The output is the sum of the data and the response; the data is recycled.
abbrev adder : Completable ℕ ℕ ℕ ℕ ℕ
adder = completable (λ t p. t + p) (λ t. recycle t)

abbrev at : Lifecycle ℕ ℕ → Entry
at l = record { state = l; ext = 9 }

abbrev store : List (Option Entry) → Store Entry
store r = record { cells = r; spare = 1 }

-- One operation waits, and one place is left.
abbrev busy : Store Entry
busy = store (some (at (waiting 3)) ∷ [])

try_submit_test :
    try_submit (sample Entry) busy 9
    ≡ (ok 1, record { cells = some (at (waiting 3)) ∷ some (at submitted) ∷ []; spare = 0 })
unfolding try_submit submit
try_submit_test = refl

try_submit_full :
    try_submit (sample Entry) (record busy { spare = 0 }) 9 ≡ (err 9, record busy { spare = 0 })
unfolding try_submit submit
try_submit_full = refl

complete_test :
    complete_ext (sample Entry) busy 0 5
    ≡ done (ok tt, store (some (at (completed 5)) ∷ []), 3 ∷ [])
unfolding complete_ext complete_state
complete_test = refl

drop_driver_test : drop_driver (sample Entry) busy ≡ fault panic
unfolding drop_driver
drop_driver_test = refl

-- The operation of place 0 is ready, and its handle is kept.
abbrev answered : Store Entry
answered = store (some (at (completed 5)) ∷ [])

kept :
    poll_op (sample Entry) adder answered (new_op 0 2) 3
    ≡ done (ready 7, record { cells = none ∷ []; spare = 2 }, spent 0)
unfolding poll_op poll poll_state
kept = refl

same : (submit (sample Entry) (record { cells = none ∷ []; spare = 2 }) 9).0 ≡ 0
unfolding submit
same = refl

stale_drop_panics_test :
    drop_op
      (sample Entry)
      adder
      (submit (sample Entry) (record { cells = none ∷ []; spare = 2 }) 9).1
      (spent 0)
    ≡ fault panic
stale_drop_panics_test =
    stale_drop_panics (sample Entry) adder answered (record { cells = none ∷ []; spare = 2 }) 0 3 2
      7 9 kept same

abbrev empty : Store Entry
empty = record { cells = []; spare = 4 }

stale_drop_steals_example :
    (s2 s3 : Store Entry) × (complete_ext
        (sample Entry)
        (submit (sample Entry) (record { cells = none ∷ []; spare = 2 }) 9).1
        0
        6
      ≡ done (ok tt, s2, []))
    × (drop_op (sample Entry) adder s2 (spent 0) ≡ done s3)
    × (poll_op (sample Entry) adder s3 (new_op 0 8) 3 ≡ fault panic)
stale_drop_steals_example =
    stale_drop_steals (sample Entry) adder answered (record { cells = none ∷ []; spare = 2 }) 0 3 2
      7 9 6 8 kept same

complete_trip_example :
    let (id, s0) = submit (sample Entry) empty 9 in
    (s1 s2 s3 : Store Entry) × (poll_op (sample Entry) adder s0 (new_op id 2) 3
      ≡ done (pending, s1, new_op id 2))
    × (complete_ext (sample Entry) s1 id 5 ≡ done (ok tt, s2, 3 ∷ []))
    × (poll_op (sample Entry) adder s2 (new_op id 2) 4 ≡ done (ready 7, s3, spent id))
    × ((j : ℕ) → (sample Entry).get s3 j ≡ (sample Entry).get empty j)
    × (drop_op (sample Entry) adder s3 (spent id) ≡ done s3)
complete_trip_example = complete_trip (sample Entry) adder empty 9 2 5 3 4

cancel_trip_example :
    let (id, s0) = submit (sample Entry) empty 9 in
    (s1 s2 : Store Entry) × (drop_op (sample Entry) adder s0 (new_op id 2) ≡ done s1)
    × ((sample Entry).get s1 id ≡ some (at (cancelled (recycle 2))))
    × (complete_ext (sample Entry) s1 id 5 ≡ done (err (5, 9), s2, []))
    × ((j : ℕ) → (sample Entry).get s2 j ≡ (sample Entry).get empty j)
cancel_trip_example = cancel_trip (sample Entry) adder empty 9 2 5

-- Two operations: the first is awaited, answered and awaited again, the second is dropped at once.
abbrev calls : List (Act ℕ ℕ ℕ)
calls = start 9 2 ∷ await 0 3 ∷ start_if_room 9 4 ∷ cancel 1 ∷ respond 0 5 ∷ await 0 3 ∷ []

calls_are_safe_example :
    (w : World (Store Entry) ℕ) × (run
        (sample Entry)
        adder
        (fresh_world (sample Entry) adder 4)
        calls
      ≡ done w)
    × ((j : ℕ)
        → (contains (sample Entry) w.store j ≡ true)
          ↔ (((t : ℕ) × (w.handles j ≡ some t)) ⊎ (w.owed j ≡ true)))
    × ((drop_driver (sample Entry) w.store ≡ done tt) ↔ ((j : ℕ) → w.owed j ≡ false))
calls_are_safe_example = calls_are_safe (sample Entry) adder 4 calls
