-- ===== src/Server/Tests.antt =====
-- The server of examples/evering-threaded on concrete inputs: rings of four slots; a ping is answered
-- with twice its delay.
use openoscamp_2025s.Base.{
  length, length-append, ◌++◌, ℕ, ◌+◌, ◌*◌, ◌≡◌, refl, true, false, none, some, List, [], ◌∷◌,
  arith,
}
use openoscamp_2025s.Base.Fault.{done, fault, panic}
use openoscamp_2025s.Ring.Holds.{Holds}
use openoscamp_2025s.Uring.{RawUring, queue_a, queue_b}
use openoscamp_2025s.Runtime.{Rqe}
use openoscamp_2025s.Server.{Sqe, exit, ping, RqeData, pong, Server, answer, send_all, server_round}
use openoscamp_2025s.Server.Reply.{send_all_lem, send_all_overflow}
use openoscamp_2025s.Server.Round.{count, count-append, server_round_lem}
use openoscamp_2025s.Server.Shuffle.{ipc_round, ipc_round_lem}

abbrev Region : Type 0
Region = RawUring (Sqe ℕ) (Rqe (RqeData ℕ)) ℕ

abbrev reply : ℕ → ℕ → Rqe (RqeData ℕ)
reply id token = record { id = id; payload = pong token }

-- The requests 1 and 2 have come, and the answer to 0 was not taken yet.
abbrev region : Region
region = record {
  header = record {
    off_a = record { head = 1; tail = 3; ring_mask = 3 };
    off_b = record { head = 0; tail = 1; ring_mask = 3 };
    rc = 2;
    ext = 0;
  };
  buf_a =
      none
      ∷ some (record { id = 1; payload = ping 5 })
      ∷ some (record { id = 2; payload = exit })
      ∷ none
      ∷ [];
  buf_b = some (reply 0 7) ∷ none ∷ none ∷ none ∷ [];
}

requests-Holds :
    Holds 2
      (queue_a region)
      (record { id = 1; payload = ping 5 } ∷ record { id = 2; payload = exit } ∷ [])
requests-Holds = record {
  narrow = omega arith;
  masked = refl;
  storage = refl;
  head_in = omega arith;
  tail_at = refl;
  room = omega arith;
  slots = (refl, (refl, tt));
}

answers-Holds : Holds 2 (queue_b region) (reply 0 7 ∷ [])
answers-Holds = record {
  narrow = omega arith;
  masked = refl;
  storage = refl;
  head_in = omega arith;
  tail_at = refl;
  room = omega arith;
  slots = (refl, tt);
}

send_all_lem_test :
    (m : Region) × (send_all (reply 3 1 ∷ reply 4 2 ∷ []) region ≡ done m)
    × Holds 2 (queue_b m) (reply 0 7 ∷ reply 3 1 ∷ reply 4 2 ∷ [])
    × (queue_a m ≡ queue_a region)
send_all_lem_test =
    send_all_lem 2 (reply 3 1 ∷ reply 4 2 ∷ []) region (reply 0 7 ∷ []) answers-Holds (omega arith)

send_all_overflow_example : send_all (reply 3 1 ∷ reply 4 2 ∷ reply 5 3 ∷ []) region ≡ fault panic
send_all_overflow_example =
    send_all_overflow 2 (reply 3 1 ∷ reply 4 2 ∷ reply 5 3 ∷ []) region (reply 0 7 ∷ [])
      answers-Holds (omega arith)

abbrev server : Server ℕ ℕ ℕ
server = record { rq = region; local_queue = reply 9 4 ∷ [] }

server_round_lem_example :
    (s' : Server ℕ ℕ ℕ) × (sent : List (Rqe (RqeData ℕ))) × (server_round
        (λ d. d * 2)
        false
        true
        server
      ≡ done (false, s'))
    × Holds 2 (queue_a s'.rq) (record { id = 2; payload = exit } ∷ [])
    × Holds 2 (queue_b s'.rq) (reply 0 7 ∷ sent)
    × (count 1 sent + count 1 s'.local_queue ≡ 1)
    × (true ≡ true)
unfolding answer count
server_round_lem_example =
    server_round_lem 2 2 (λ d. d * 2) false true server (record { id = 1; payload = ping 5 })
      (record { id = 2; payload = exit } ∷ []) (reply 0 7 ∷ []) 1 requests-Holds answers-Holds
      (omega arith)

-- A shuffle: the first answer goes to the end.
abbrev rotate : List (Rqe (RqeData ℕ)) → List (Rqe (RqeData ℕ))
rotate [] = []
rotate (r ∷ rs) = rs ++ r ∷ []

length-rotate : (q : List (Rqe (RqeData ℕ))) → length (rotate q) ≡ length q
length-rotate [] = refl
length-rotate (r ∷ rs) = omega (arith, length-append rs (r ∷ []))

count-rotate : (j : ℕ) (q : List (Rqe (RqeData ℕ))) → count j (rotate q) ≡ count j q
unfolding count
count-rotate j [] = refl
count-rotate j (r ∷ rs) = omega (arith, count-append j rs (r ∷ []))

ipc_round_lem_example :
    (s' : Server ℕ ℕ ℕ) × (sent : List (Rqe (RqeData ℕ))) × (ipc_round rotate
        (λ d. d * 2)
        true
        server
      ≡ done (false, s'))
    × Holds 2 (queue_a s'.rq) (record { id = 2; payload = exit } ∷ [])
    × Holds 2 (queue_b s'.rq) (reply 0 7 ∷ sent)
    × (count 1 sent + count 1 s'.local_queue ≡ 1)
    × (true ≡ true)
unfolding answer count
ipc_round_lem_example =
    ipc_round_lem rotate length-rotate count-rotate 2 2 (λ d. d * 2) true server
      (record { id = 1; payload = ping 5 }) (record { id = 2; payload = exit } ∷ [])
      (reply 0 7 ∷ []) 1 requests-Holds answers-Holds (omega arith)
