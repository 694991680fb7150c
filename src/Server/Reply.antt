-- ===== src/Server/Reply.antt =====
-- What the server of examples/evering-threaded/src/main.rs answers, and when it has no room to.
use openoscamp_2025s.Base.{
  ℕ, ◌+◌, ◌-◌, ◌^◌, ◌≤◌, ◌<◌, ◌≡◌, refl, sym, ap, ◌∙◌, List, [], ◌∷◌, ◌++◌, append_assoc,
  append-nil, length, length-append, arith, ◌≢◌, subst, ne_of_test, ==_iff, ◌==◌, ==_of_eq,
  ==_of_ne, Bool-cases, inl, inr,
}
use openoscamp_2025s.Base.Fault.{done, fault, panic, ok, err}
use openoscamp_2025s.Fifo.{push}
use openoscamp_2025s.Ring.Holds.{Holds}
use openoscamp_2025s.Ring.Refine.{enqueue_refines}
use openoscamp_2025s.Uring.{RawUring, queue_a, queue_b, uring_b, send}
use openoscamp_2025s.Runtime.{Rqe}
use openoscamp_2025s.Server.{Sqe, RqeData, send_all}

pub push_room :
    {A : Type 0} (cap : ℕ) (xs : List A) (v : A)
    → length xs ≢ cap
    → push cap xs v ≡ (ok tt, xs ++ v ∷ [])
unfolding push
push_room cap xs v ne = rw (==_of_ne (length xs) cap ne)

pub push_full :
    {A : Type 0} (cap : ℕ) (xs : List A) (v : A) → length xs ≡ cap → push cap xs v ≡ (err v, xs)
unfolding push
push_full cap xs v e = rw (==_of_eq (length xs) cap e)

pub lt_of_le_ne : (a n : ℕ) → a ≤ n → a ≢ n → a < n
lt_of_le_ne a n le ne = ground arith

module _ {D V Ext : Type 0} where
  pub send_room :
      (k : ℕ) (m : RawUring (Sqe D) (Rqe (RqeData V)) Ext) (ys : List (Rqe (RqeData V)))
      (r : Rqe (RqeData V))
      → Holds k (queue_b m) ys
      → length ys < 2 ^ k - 1
      → (m' : RawUring (Sqe D) (Rqe (RqeData V)) Ext) × (send uring_b m r ≡ done (ok tt, m'))
        × Holds k (queue_b m') (ys ++ r ∷ [])
        × (queue_a m' ≡ queue_a m)
  unfolding send
  send_room k m ys r h lt =
      let (q, e, h') = enqueue_refines k (queue_b m) ys h r in
      let pushed = push_room (2 ^ k - 1) ys r (λ z. omega (arith, z)) in
      (
        uring_b.put_sender m q,
        rw e (ap (λ p. done (p.0, uring_b.put_sender m q)) pushed),
        subst (Holds k q) (ap (λ p. p.1) pushed) h',
        refl,
      )

  pub send_full :
      (k : ℕ) (m : RawUring (Sqe D) (Rqe (RqeData V)) Ext) (ys : List (Rqe (RqeData V)))
      (r : Rqe (RqeData V))
      → Holds k (queue_b m) ys
      → length ys ≡ 2 ^ k - 1
      → (m' : RawUring (Sqe D) (Rqe (RqeData V)) Ext) × (send uring_b m r ≡ done (err r, m'))
        × Holds k (queue_b m') ys
        × (queue_a m' ≡ queue_a m)
  unfolding send
  send_full k m ys r h full =
      let (q, e, h') = enqueue_refines k (queue_b m) ys h r in
      let pushed = push_full (2 ^ k - 1) ys r full in
      (
        uring_b.put_sender m q,
        rw e (ap (λ p. done (p.0, uring_b.put_sender m q)) pushed),
        subst (Holds k q) (ap (λ p. p.1) pushed) h',
        refl,
      )

  -- All answers are sent, in order, behind those that the client has not taken, if the ring has room
  -- for them; the ring of the requests is as it was.
  pub send_all_lem :
      (k : ℕ) (rs : List (Rqe (RqeData V))) (m : RawUring (Sqe D) (Rqe (RqeData V)) Ext)
      (ys : List (Rqe (RqeData V)))
      → Holds k (queue_b m) ys
      → length ys + length rs ≤ 2 ^ k - 1
      → (m' : RawUring (Sqe D) (Rqe (RqeData V)) Ext) × (send_all rs m ≡ done m')
        × Holds k (queue_b m') (ys ++ rs)
        × (queue_a m' ≡ queue_a m)
  unfolding send_all
  send_all_lem k [] m ys h fit =
      (m, refl, subst (Holds k (queue_b m)) (sym (append-nil ys)) h, refl)
  send_all_lem k (r ∷ rs) m ys h fit =
      let (m1, e1, h1, a1) = send_room k m ys r h (omega arith) in
      let (m2, e2, h2, a2) =
        send_all_lem k rs m1 (ys ++ r ∷ []) h1 (omega (arith, length-append ys (r ∷ []))) in
      (m2, rw (e1, e2), subst (Holds k (queue_b m2)) (append_assoc ys (r ∷ []) rs) h2, a2 ∙ a1)

  -- If the answers that the client has not taken and those of the local queue are more than the
  -- ring has room for, one slot less than its size, the server panics.
  pub send_all_overflow :
      (k : ℕ) (rs : List (Rqe (RqeData V))) (m : RawUring (Sqe D) (Rqe (RqeData V)) Ext)
      (ys : List (Rqe (RqeData V)))
      → Holds k (queue_b m) ys
      → 2 ^ k ≤ length ys + length rs
      → send_all rs m ≡ fault panic
  unfolding send_all
  send_all_overflow k [] m ys h over = absurd (omega (arith, h.room))
  send_all_overflow k (r ∷ rs) m ys h over = elim (Bool-cases (length ys == 2 ^ k - 1)) [
    | inl t ↦
        let (m1, e1, _, _) = send_full k m ys r h ((==_iff (length ys) (2 ^ k - 1)).0 t) in rw e1
    | inr t ↦
        let room : length ys < 2 ^ k = h.room in
        let ne : length ys ≢ 2 ^ k - 1 = ne_of_test (length ys) (2 ^ k - 1) t in
        let (m1, e1, h1, a1) =
          send_room k m ys r h (lt_of_le_ne (length ys) (2 ^ k - 1) (omega (arith, room)) ne) in
        rw (
          e1,
          send_all_overflow k rs m1 (ys ++ r ∷ []) h1 (omega (arith, length-append ys (r ∷ []))),
        )
  ]
