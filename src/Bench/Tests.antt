-- ===== src/Bench/Tests.antt =====
-- The benchmarks on concrete inputs: rings of four slots, and streams that move at most two bytes or
-- one byte at a time.
use openoscamp_2025s.Base.{
  ℕ, zero, suc, ◌+◌, ◌≤◌, ◌<◌, ◌≡◌, ◌⊎◌, inl, inr, refl, false, none, some, List, [], ◌∷◌, ◌++◌,
  length, take, arith,
}
use openoscamp_2025s.Base.Fault.{Exec, done, fault, panic, out_of_fuel, Result, ok, err}
use openoscamp_2025s.Ring.Holds.{Holds}
use openoscamp_2025s.Uring.{RawUring, queue_a, queue_b}
use openoscamp_2025s.Runtime.{Rqe}
use openoscamp_2025s.Server.{Sqe, ping, RqeData, pong}
use openoscamp_2025s.Bench.{BenchServer, bench_round, check_bufdata, make_bufdata}
use openoscamp_2025s.Bench.Order.{pending_list, pongs, bench_round_lem}
use openoscamp_2025s.Bench.Buffers.{check_bufdata_lem}
use openoscamp_2025s.Bench.Stream.{write_all, after_write, read_exact, write_i32, read_i32}
use openoscamp_2025s.Bench.Stream.Flow.{
  Sends, Takes, write_all_lem, read_exact_lem, read_exact_spins,
}

abbrev Region : Type 0
Region = RawUring (Sqe ℕ) (Rqe (RqeData ℕ)) ℕ

-- Two pings have come, the answer to 8 was not taken, and that to 9 is pending.
abbrev region : Region
region = record {
  header = record {
    off_a = record { head = 1; tail = 3; ring_mask = 3 };
    off_b = record { head = 0; tail = 1; ring_mask = 3 };
    rc = 2;
    ext = 0;
  };
  buf_a =
      none
      ∷ some (record { id = 1; payload = ping 5 })
      ∷ some (record { id = 2; payload = ping 6 })
      ∷ none
      ∷ [];
  buf_b = some (record { id = 8; payload = pong 2 }) ∷ none ∷ none ∷ none ∷ [];
}

abbrev busy : BenchServer ℕ ℕ ℕ ℕ
busy = record { rq = region; pending = some (record { id = 9; payload = pong 2 }); work = 0 }

abbrev handle : ℕ → ℕ → Exec ℕ
handle d w = done (w + d)

abbrev requests : List (Sqe ℕ)
requests = record { id = 1; payload = ping 5 } ∷ record { id = 2; payload = ping 6 } ∷ []

requests-Holds : Holds 2 (queue_a region) requests
requests-Holds = record {
  narrow = omega arith;
  masked = refl;
  storage = refl;
  head_in = omega arith;
  tail_at = refl;
  room = omega arith;
  slots = (refl, (refl, tt));
}

answers-Holds : Holds 2 (queue_b region) (record { id = 8; payload = pong 2 } ∷ [])
answers-Holds = record {
  narrow = omega arith;
  masked = refl;
  storage = refl;
  head_in = omega arith;
  tail_at = refl;
  room = omega arith;
  slots = (refl, tt);
}

bench_round_lem_example :
    (s : BenchServer ℕ ℕ ℕ ℕ) × (xs : List (Sqe ℕ)) × (ys : List (Rqe (RqeData ℕ))) × (bench_round
        handle 2 4 busy
      ≡ done (false, s))
    × Holds 2 (queue_a s.rq) xs
    × Holds 2 (queue_b s.rq) ys
    × (ys ++ (pending_list s.pending ++ pongs 2 xs)
        ≡ record { id = 8; payload = pong 2 }
          ∷ record { id = 9; payload = pong 2 }
          ∷ record { id = 1; payload = pong 2 }
          ∷ record { id = 2; payload = pong 2 }
          ∷ [])
    × ((length ys ≡ 3) ⊎ ((xs ≡ []) × (s.pending ≡ none)))
bench_round_lem_example =
    bench_round_lem handle 2 (λ d w. (w + d, refl)) 2 2 busy requests
      (record { id = 8; payload = pong 2 } ∷ []) ((5, refl), ((6, refl), tt)) requests-Holds
      answers-Holds

check_bufdata_lem_example :
    (check_bufdata (λ j. 1) 4 (make_bufdata 4 83) 83 ≡ done tt)
    × (check_bufdata (λ j. 1) 4 (make_bufdata 4 83) 82 ≡ fault panic)
check_bufdata_lem_example =
    check_bufdata_lem (λ j. 1) 4 83 82 (λ j. omega arith) (λ e. omega (arith, e)) (omega arith)

-- A stream that sends at most two bytes at a time; its state is what was sent.
abbrev two_bytes : List ℕ → List ℕ → Result ℕ ℕ × List ℕ
two_bytes c [] = (ok 0, c)
two_bytes c (x ∷ []) = (ok 1, c ++ x ∷ [])
two_bytes c (x ∷ y ∷ rest) = (ok 2, c ++ x ∷ y ∷ [])

two_bytes_send : (c : List ℕ) (b : ℕ) (rest : List ℕ) → Sends two_bytes (λ c. c) c b rest
two_bytes_send c b [] = inr (1, c ++ b ∷ [], refl, omega arith, omega arith, refl)
two_bytes_send c b (x ∷ rest) = inr (2, c ++ b ∷ x ∷ [], refl, omega arith, omega arith, refl)

write_all_lem_example :
    ((c : List ℕ) × (write_all two_bytes 4 [] (5 ∷ 6 ∷ 7 ∷ []) ≡ done (ok tt, c))
      × (c ≡ 5 ∷ 6 ∷ 7 ∷ []))
    ⊎ ((e : ℕ) × (k : ℕ) × (c : List ℕ) × (write_all two_bytes 4 [] (5 ∷ 6 ∷ 7 ∷ [])
          ≡ done (err e, c))
        × (c ≡ take k (5 ∷ 6 ∷ 7 ∷ [])))
write_all_lem_example =
    write_all_lem two_bytes (λ c. c) two_bytes_send 4 [] (5 ∷ 6 ∷ 7 ∷ []) (omega arith)

-- A stream of which a byte is read at a time, and whose end is an error.
abbrev one_byte : List ℕ → ℕ → Result (List ℕ) ℕ × List ℕ
one_byte c zero = (ok [], c)
one_byte [] (suc n) = (err 0, [])
one_byte (x ∷ c) (suc n) = (ok (x ∷ []), c)

one_byte-Takes : (c : List ℕ) (size : ℕ) → 1 ≤ size → Takes one_byte (λ c. c) c size
one_byte-Takes c zero pos = absurd (omega arith)
one_byte-Takes [] (suc n) pos = inl (0, [], refl, refl)
one_byte-Takes (x ∷ c) (suc n) pos = inr (x ∷ [], c, refl, omega arith, omega arith, refl)

read_exact_lem_example :
    ((bs : List ℕ) × (c : List ℕ) × (read_exact one_byte 2 (5 ∷ 6 ∷ 7 ∷ []) 2 []
        ≡ done (ok tt, bs, c))
      × (length bs ≡ 2)
      × (5 ∷ 6 ∷ 7 ∷ [] ≡ bs ++ c))
    ⊎ ((e : ℕ) × (bs : List ℕ) × (c : List ℕ) × (read_exact one_byte 2 (5 ∷ 6 ∷ 7 ∷ []) 2 []
          ≡ done (err e, bs, c))
        × (length bs < 2)
        × (5 ∷ 6 ∷ 7 ∷ [] ≡ bs ++ c))
read_exact_lem_example =
    read_exact_lem one_byte (λ c. c) one_byte-Takes 2 (5 ∷ 6 ∷ 7 ∷ []) 2 [] (omega arith)
      (omega arith)

-- A stream that is at its end: a read returns no bytes.
abbrev ended : ℕ → ℕ → Result (List ℕ) ℕ × ℕ
ended c n = (ok [], c)

read_exact_spins_example : read_exact ended 1000 0 4 [] ≡ fault out_of_fuel
read_exact_spins_example = read_exact_spins ended 0 4 [] (λ n. refl) (omega arith) 1000

i32_test : write_i32 two_bytes 5 [] 305419896 ≡ done (ok tt, 18 ∷ 52 ∷ 86 ∷ 120 ∷ [])
unfolding write_i32 write_all after_write
i32_test = refl

read_i32_test : read_i32 {C = ℕ} {E = ℕ} (ok (18 ∷ 52 ∷ 86 ∷ 120 ∷ []), 0) ≡ done (ok 305419896, 0)
unfolding read_i32
read_i32_test = refl
