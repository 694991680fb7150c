-- ===== src/Ring/Tests.antt =====
-- The ring of evering/src/uring.rs on concrete inputs: tests, and the theorems at inputs that meet
-- their hypotheses.
use openoscamp_2025s.Base.{ℕ, ◌≡◌, refl, none, some, [], ◌∷◌, arith}
use openoscamp_2025s.Base.Bits.{is_power_of_two}
use openoscamp_2025s.Base.Fault.{done, fault, panic, ub, ok}
use openoscamp_2025s.Fifo.{push, pop, push_all}
use openoscamp_2025s.Ring.{
  Queue, Drain, new_offsets, inc, len, enqueue, enqueue_bulk, enqueue_loop, dequeue, dequeue_bulk,
  collect, drop_in_place,
}
use openoscamp_2025s.Ring.Holds.{Holds}
use openoscamp_2025s.Ring.Refine.{enqueue_refines, dequeue_refines, len-eq-length}
use openoscamp_2025s.Ring.Bulk.{enqueue_bulk_refines, dequeue_bulk_refines, drop_in_place_lem}

-- 7 and 8, round the end of four slots.
abbrev pub wrapped : Queue ℕ
wrapped = record {
  off = record { head = 3; tail = 1; ring_mask = 3 };
  buf = some 8 ∷ none ∷ some 6 ∷ some 7 ∷ [];
}

pub wrapped-Holds : Holds 2 wrapped (7 ∷ 8 ∷ [])
wrapped-Holds = record {
  narrow = omega arith;
  masked = refl;
  storage = refl;
  head_in = omega arith;
  tail_at = refl;
  room = omega arith;
  slots = (refl, (refl, tt));
}

new_offsets_test :
    (new_offsets 3 ≡ fault panic)
    × (new_offsets 4 ≡ done (record { head = 0; tail = 0; ring_mask = 3 }))
unfolding new_offsets is_power_of_two
new_offsets_test = (refl, refl)

-- A slot that was never written is not read.
dequeue_unwritten :
    dequeue (record wrapped { off = record { head = 1; tail = 2; ring_mask = 3 } }) ≡ fault ub
unfolding dequeue is_power_of_two inc
dequeue_unwritten = refl

enqueue_bulk_test :
    enqueue_bulk wrapped (9 ∷ 10 ∷ [])
    ≡ done (
      1,
      10 ∷ [],
      record {
        off = record { head = 3; tail = 2; ring_mask = 3 };
        buf = some 8 ∷ some 9 ∷ some 6 ∷ some 7 ∷ [];
      },
    )
unfolding enqueue_bulk enqueue_loop is_power_of_two inc
enqueue_bulk_test = refl

enqueue_refines_example :
    (q : Queue ℕ) × (enqueue wrapped 9 ≡ done (ok tt, q)) × Holds 2 q (7 ∷ 8 ∷ 9 ∷ [])
unfolding push
enqueue_refines_example = enqueue_refines 2 wrapped (7 ∷ 8 ∷ []) wrapped-Holds 9

dequeue_refines_example : (q : Queue ℕ) × (dequeue wrapped ≡ done (some 7, q)) × Holds 2 q (8 ∷ [])
unfolding pop
dequeue_refines_example = dequeue_refines 2 wrapped (7 ∷ 8 ∷ []) wrapped-Holds

len-eq-length_example : len wrapped ≡ 2
len-eq-length_example = len-eq-length 2 wrapped (7 ∷ 8 ∷ []) wrapped-Holds

enqueue_bulk_refines_example :
    (q : Queue ℕ) × (enqueue_bulk wrapped (9 ∷ 10 ∷ []) ≡ done (1, 10 ∷ [], q))
    × Holds 2 q (7 ∷ 8 ∷ 9 ∷ [])
unfolding push_all
enqueue_bulk_refines_example =
    enqueue_bulk_refines 2 wrapped (7 ∷ 8 ∷ []) (9 ∷ 10 ∷ []) wrapped-Holds

dequeue_bulk_refines_example :
    (d : Drain) × (q : Queue ℕ) × (dequeue_bulk wrapped ≡ done d)
    × (collect 4 d wrapped ≡ done (7 ∷ 8 ∷ [], q))
    × Holds 2 q []
dequeue_bulk_refines_example = dequeue_bulk_refines 2 wrapped (7 ∷ 8 ∷ []) wrapped-Holds

drop_in_place_lem_example : drop_in_place wrapped ≡ done (7 ∷ 8 ∷ [])
drop_in_place_lem_example = drop_in_place_lem 2 wrapped (7 ∷ 8 ∷ []) wrapped-Holds
