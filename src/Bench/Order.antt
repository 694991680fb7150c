-- ===== src/Bench/Order.antt =====
-- The server of examples/ipc-benchmark/src/evering.rs answers in order, loses nothing, and never
-- panics for want of room.
use openoscamp_2025s.Base.{
  ℕ, zero, suc, ◌-◌, ◌^◌, ◌<◌, ◌≡◌, ◌⊎◌, inl, inr, refl, sym, ◌∙◌, subst, Bool, false, Option, none,
  some, List, [], ◌∷◌, ◌++◌, append_assoc, map, length, arith, ◌==◌, ==_iff, ne_of_test, Bool-cases,
}
use openoscamp_2025s.Base.Fault.{Exec, done, ok}
use openoscamp_2025s.Ring.Holds.{Holds}
use openoscamp_2025s.Uring.{RawUring, queue_a, queue_b, uring_b, send, recv}
use openoscamp_2025s.Runtime.{Rqe}
use openoscamp_2025s.Server.{Sqe, ping, RqeData, pong}
use openoscamp_2025s.Server.Reply.{send_room, send_full, lt_of_le_ne}
use openoscamp_2025s.Server.Round.{recv_lem, recv_empty, AllPings}
use openoscamp_2025s.Bench.{BenchServer, bench_request, bench_loop, bench_round}

abbrev pub pending_list : {A : Type 0} → Option A → List A
pending_list none = []
pending_list (some x) = x ∷ []

-- The answers to pings.
abbrev pub pongs : {D V : Type 0} → V → List (Sqe D) → List (Rqe (RqeData V))
pongs token xs = map (λ sqe. record { id = sqe.id; payload = pong token }) xs

has_room :
    {A : Type 0} (kb : ℕ) (ys : List A)
    → length ys < 2 ^ kb
    → (length ys == 2 ^ kb - 1) ≡ false
    → length ys < 2 ^ kb - 1
has_room kb ys lt f =
    lt_of_le_ne (length ys) (2 ^ kb - 1) (omega (arith, lt)) (ne_of_test (length ys) (2 ^ kb - 1) f)

module _ {D V Ext W : Type 0} (handle : D → W → Exec W) (token : V)
    (works : (d : D) (w : W) → (w' : W) × (handle d w ≡ done w')) where
  -- A round that is not the last leaves the answers that were to be given, in their order, in the
  -- ring, pending or still to be made, and has made as many as it could.
  abbrev pub Answers : ℕ → ℕ → Exec (Bool × BenchServer D V Ext W) → List (Rqe (RqeData V)) → Type 0
  Answers ka kb m owing =
      (s : BenchServer D V Ext W) × (xs : List (Sqe D)) × (ys : List (Rqe (RqeData V))) × (m
        ≡ done (false, s))
      × Holds ka (queue_a s.rq) xs
      × Holds kb (queue_b s.rq) ys
      × (ys ++ (pending_list s.pending ++ pongs token xs) ≡ owing)
      × ((length ys ≡ 2 ^ kb - 1) ⊎ ((xs ≡ []) × (s.pending ≡ none)))

  goes_on :
      (fuel : ℕ) (m m1 m2 : RawUring (Sqe D) (Rqe (RqeData V)) Ext) (w w1 : W) (sqe : Sqe D) (d : D)
      → recv uring_b m ≡ done (some sqe, m1)
      → sqe.payload ≡ ping d
      → handle d w ≡ done w1
      → send uring_b m1 (record { id = sqe.id; payload = pong token }) ≡ done (ok tt, m2)
      → bench_loop handle token (suc fuel) m w ≡ bench_loop handle token fuel m2 w1
  unfolding bench_loop bench_request
  goes_on fuel m m1 m2 w w1 sqe d e1 p worked e2 = rw (e1, p, worked, e2) refl

  loop_lem :
      (ka kb fuel : ℕ) (m : RawUring (Sqe D) (Rqe (RqeData V)) Ext) (w : W) (xs : List (Sqe D))
      (ys : List (Rqe (RqeData V)))
      → length xs < fuel
      → AllPings xs
      → Holds ka (queue_a m) xs
      → Holds kb (queue_b m) ys
      → Answers ka kb (bench_loop handle token fuel m w) (ys ++ pongs token xs)
  unfolding bench_loop bench_request
  loop_lem ka kb zero m w xs ys lt pings ha hb = absurd (omega arith)
  loop_lem ka kb (suc fuel) m w [] ys lt pings ha hb =
      let (m1, e1, ha1, same) = recv_empty ka m ha in
      (
        record { rq = m1; pending = none; work = w },
        [],
        ys,
        rw e1 refl,
        ha1,
        subst (λ q. Holds kb q ys) (sym same) hb,
        refl,
        inr (refl, refl),
      )
  loop_lem ka kb (suc fuel) m w (sqe ∷ xs) ys lt ((d, p), pings) ha hb =
      let (m1, e1, ha1, same) = recv_lem ka m sqe xs ha in
      let hb1 : Holds kb (queue_b m1) ys = subst (λ q. Holds kb q ys) (sym same) hb in
      let (w1, done_work) = works d w in
      let r : Rqe (RqeData V) = record { id = sqe.id; payload = pong token } in
      elim (Bool-cases (length ys == 2 ^ kb - 1)) [
        | inl t ↦
            let full : length ys ≡ 2 ^ kb - 1 = (==_iff (length ys) (2 ^ kb - 1)).0 t in
            let (m2, e2, hb2, same2) = send_full kb m1 ys r hb1 full in
            (
              record { rq = m2; pending = some r; work = w1 },
              xs,
              ys,
              rw (e1, p, done_work, e2) refl,
              subst (λ q. Holds ka q xs) (sym same2) ha1,
              hb2,
              refl,
              inl full,
            )
        | inr f ↦
            let (m2, e2, hb2, same2) = send_room kb m1 ys r hb1 (has_room kb ys hb.room f) in
            let (s, xs', ys', e, ha', hb', order, last) =
              loop_lem ka kb fuel m2 w1 xs (ys ++ r ∷ []) (omega arith) pings
                (subst (λ q. Holds ka q xs) (sym same2) ha1) hb2 in
            (
              s,
              xs',
              ys',
              goes_on fuel m m1 m2 w w1 sqe d e1 p done_work e2 ∙ e,
              ha',
              hb',
              order ∙ append_assoc ys (r ∷ []) (pongs token xs),
              last,
            )
      ]

  round_of :
      (ka kb : ℕ) (m : RawUring (Sqe D) (Rqe (RqeData V)) Ext) (o : Option (Rqe (RqeData V)))
      (w : W) (xs : List (Sqe D)) (ys : List (Rqe (RqeData V)))
      → AllPings xs
      → Holds ka (queue_a m) xs
      → Holds kb (queue_b m) ys
      → Answers ka kb
          (bench_round handle token (2 ^ ka) (record { rq = m; pending = o; work = w }))
          (ys ++ (pending_list o ++ pongs token xs))
  unfolding bench_round
  round_of ka kb m none w xs ys pings ha hb = loop_lem ka kb (2 ^ ka) m w xs ys ha.room pings ha hb
  round_of ka kb m (some r) w xs ys pings ha hb = elim (Bool-cases (length ys == 2 ^ kb - 1)) [
    | inl t ↦
        let full : length ys ≡ 2 ^ kb - 1 = (==_iff (length ys) (2 ^ kb - 1)).0 t in
        let (m1, e1, hb1, same) = send_full kb m ys r hb full in
        (
          record { rq = m1; pending = some r; work = w },
          xs,
          ys,
          rw e1 refl,
          subst (λ q. Holds ka q xs) (sym same) ha,
          hb1,
          refl,
          inl full,
        )
    | inr f ↦
        let (m1, e1, hb1, same) = send_room kb m ys r hb (has_room kb ys hb.room f) in
        let (s, xs', ys', e, ha', hb', order, last) =
          loop_lem ka kb (2 ^ ka) m1 w xs (ys ++ r ∷ []) ha.room pings
            (subst (λ q. Holds ka q xs) (sym same) ha) hb1 in
        (s, xs', ys', rw e1 e, ha', hb', order ∙ append_assoc ys (r ∷ []) (pongs token xs), last)
  ]

  -- A round of the server of the benchmark, with no exit among the requests and a handling of pings
  -- that succeeds, ends within `2 ^ ka` rounds of its inner loop and does not panic. The answers that
  -- the client has not taken, then the one that is pending, then those to the requests in the ring,
  -- are the same list before and after it: they are given in the order of the requests, none is lost
  -- and none is given twice. After it the ring of the answers is full, or nothing is left to answer.
  pub bench_round_lem :
      (ka kb : ℕ) (s : BenchServer D V Ext W) (xs : List (Sqe D)) (ys : List (Rqe (RqeData V)))
      → AllPings xs
      → Holds ka (queue_a s.rq) xs
      → Holds kb (queue_b s.rq) ys
      → Answers ka kb
          (bench_round handle token (2 ^ ka) s)
          (ys ++ (pending_list s.pending ++ pongs token xs))
  bench_round_lem ka kb s xs ys pings ha hb = round_of ka kb s.rq s.pending s.work xs ys pings ha hb
