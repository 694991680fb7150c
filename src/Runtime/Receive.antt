-- ===== src/Runtime/Receive.antt =====
-- The responses that one poll of `RunOn` in examples/evering-utils/src/runtime.rs takes.
use openoscamp_2025s.Base.{
  ℕ, zero, suc, ◌++◌, append_assoc, append-nil, take, drop, length, ◌^◌, ◌≡◌, refl, sym, ap, ◌∙◌,
  Option, none, some, List, [], ◌∷◌, inl, inr,
}
use openoscamp_2025s.Base.Fault.{
  Exec, Fault, done, fault, ◌>>=◌, Exec-cases, done≢fault, done_injective,
}
use openoscamp_2025s.Ring.{Queue, Drain, next, collect}
use openoscamp_2025s.Ring.Holds.{Holds}
use openoscamp_2025s.Ring.Bulk.{dequeue_bulk_refines}
use openoscamp_2025s.Uring.{Uring, recv_bulk}
use openoscamp_2025s.Runtime.{Runtime, wake_one, for_each, receive, receive_all}

-- The body for each of the values in turn.
unfoldable pub fold : {Y Z : Type 0} → (Y → Z → Exec Z) → List Y → Z → Exec Z
fold body [] z = done z
fold body (y ∷ ys) z = body y z >>= λ z'. fold body ys z'

module _ {Y Z : Type 0} (body : Y → Z → Exec Z) where
  abbrev Loops : ℕ → Drain → Queue Y → Type 0
  Loops fuel d q =
      (q' : Queue Y) (xs : List Y) (z : Z)
      → collect fuel d q ≡ done (xs, q')
      → for_each fuel body d q z ≡ (fold body xs z >>= λ z'. done (q', z'))

  loop_step :
      (fuel : ℕ) (d : Drain) (q : Queue Y) (r : Option Y × Drain × Queue Y)
      → next d q ≡ done r
      → ((d' : Drain) (q1 : Queue Y) → Loops fuel d' q1)
      → Loops (suc fuel) d q
  unfolding for_each collect fold
  loop_step fuel d q (none, d', q1) n again q' xs z e =
      let same : ◌≡◌ {A = List Y × Queue Y} ([], q1) (xs, q') = done_injective (rw n at e) in
      rw n (ap (λ (r : List Y × Queue Y). fold body r.0 z >>= λ z'. done (r.1, z')) same)
  loop_step fuel d q (some v, d', q1) n again q' xs z e = elim (Exec-cases (collect fuel d' q1)) [
    | inl ((ys, q2), c) ↦
        let same : ◌≡◌ {A = List Y × Queue Y} (v ∷ ys, q2) (xs, q') =
          done_injective (rw (n, c) at e) in
        rw n (
          taken ys q2 c
          ∙ ap (λ (r : List Y × Queue Y). fold body r.0 z >>= λ z'. done (r.1, z')) same)
    | inr (x, c) ↦ absurd (done≢fault (sym (rw (n, c) at e)))
  ]
    where
      taken :
          (ys : List Y) (q2 : Queue Y)
          → collect fuel d' q1 ≡ done (ys, q2)
          → (body v z >>= λ z'. for_each fuel body d' q1 z')
            ≡ (body v z >>= (λ z'. fold body ys z') >>= λ z'. done (q2, z'))
      taken ys q2 c = elim (Exec-cases (body v z)) [
        | inl (z', b?) ↦ rw b? (again d' q1 q2 ys z' c)
        | inr (x, b?) ↦ rw b?
      ]

  for_each-collect : (fuel : ℕ) (d : Drain) (q : Queue Y) → Loops fuel d q
  unfolding collect
  for_each-collect zero d q q' xs z e = absurd (done≢fault (sym e))
  for_each-collect (suc fuel) d q q' xs z e = elim (Exec-cases (next d q)) [
    | inl (r, n) ↦ loop_step fuel d q r n (for_each-collect fuel) q' xs z e
    | inr (x, n) ↦ absurd (done≢fault (sym (rw n at e)))
  ]

module _ {M X Y S : Type 0} (u : Uring M X Y) (complete_rqe : Y → S → Exec (S × List ℕ)) where
  pub receive_all-fold :
      (k : ℕ) (rt : Runtime M S) (xs : List Y)
      → Holds k (u.receiver rt.uring) xs
      → (q : Queue Y) × (receive_all u (2 ^ k) complete_rqe rt ≡ (
          fold (receive complete_rqe) xs rt >>= λ rt'.
          done (record rt' { uring = u.put_receiver rt.uring q })))
        × Holds k q []
  unfolding receive_all recv_bulk
  receive_all-fold k rt xs h =
      let (d, q, e, c, h') = dequeue_bulk_refines k (u.receiver rt.uring) xs h in
      (
        q,
        rw (e, for_each-collect (receive complete_rqe) (2 ^ k) d (u.receiver rt.uring) q xs rt c)
            (assoc (fold (receive complete_rqe) xs rt) q),
        h',
      )
    where
      pair : Queue Y → Runtime M S → Exec (Queue Y × Runtime M S)
      pair q r = done (q, r)

      assoc :
          (m : Exec (Runtime M S)) (q : Queue Y)
          → (m >>= pair q >>= λ r. done (record (r.1) { uring = u.put_receiver rt.uring r.0 }))
            ≡ (m >>= λ rt'. done (record rt' { uring = u.put_receiver rt.uring q }))
      assoc (done r) q = refl
      assoc (fault x) q = refl

drop_one : {A : Type 0} (n : ℕ) (l : List A) → drop n (drop 1 l) ≡ drop (suc n) l
drop_one zero [] = refl
drop_one (suc n) [] = refl
drop_one n (x ∷ l) = refl

module _ {Y S : Type 0} (complete_rqe : Y → S → Exec (S × List ℕ)) where
  abbrev pub before : List ℕ → S × List ℕ → S × List ℕ
  before l t = (t.0, l ++ t.1)

  -- What the closure does to the driver with the responses in turn, and who is waked: with each
  -- response the oldest of the wakers that are left, and then whom the closure wakes.
  unfoldable pub answers : List Y → List ℕ → S → Exec (S × List ℕ)
  answers [] ws s = done (s, [])
  answers (y ∷ ys) ws s = complete_rqe y s >>= λ r.
      answers ys (drop 1 ws) r.0 >>= λ t. done (before (take 1 ws ++ r.1) t)

  module _ {M : Type 0} where
    abbrev runtime_of : List ℕ → M → S → List ℕ → Runtime M S
    runtime_of woken m s ws = record {
      woken = woken;
      uring = m;
      driver = s;
      pending_submissions = ws;
    }

    receive_done :
        (y : Y) (woken : List ℕ) (m : M) (s : S) (ws : List ℕ) (r : S × List ℕ)
        → complete_rqe y s ≡ done r
        → receive complete_rqe y (runtime_of woken m s ws)
          ≡ done (runtime_of (woken ++ (take 1 ws ++ r.1)) m r.0 (drop 1 ws))
    unfolding receive wake_one
    receive_done y woken m s [] r e = rw e refl
    receive_done y woken m s (w ∷ ws) r e =
        rw e (ap (λ l. done (runtime_of l m r.0 ws)) (append_assoc woken (w ∷ []) r.1))

    receive_fault :
        (y : Y) (woken : List ℕ) (m : M) (s : S) (ws : List ℕ) (x : Fault)
        → complete_rqe y s ≡ fault x
        → receive complete_rqe y (runtime_of woken m s ws) ≡ fault x
    unfolding receive wake_one
    receive_fault y woken m s [] x e = rw e refl
    receive_fault y woken m s (w ∷ ws) x e = rw e refl

    abbrev answered : List ℕ → M → List ℕ → S × List ℕ → Exec (Runtime M S)
    answered woken m ws t = done (runtime_of (woken ++ t.1) m t.0 ws)

    regroup :
        (woken l : List ℕ) (m : M) (n : ℕ) (ws : List ℕ) (t : Exec (S × List ℕ))
        → (t >>= answered (woken ++ l) m (drop n (drop 1 ws)))
          ≡ (t >>= (λ r. done (before l r)) >>= answered woken m (drop (suc n) ws))
    regroup woken l m n ws (fault x) = refl
    regroup woken l m n ws (done t) =
        ap (λ k. done (runtime_of k m t.0 (drop n (drop 1 ws)))) (append_assoc woken l t.1)
        ∙ ap (λ k. done (runtime_of (woken ++ (l ++ t.1)) m t.0 k)) (drop_one n ws)

    fold-receive :
        (ys : List Y) (woken : List ℕ) (m : M) (s : S) (ws : List ℕ)
        → fold (receive complete_rqe) ys (runtime_of woken m s ws)
          ≡ (answers ys ws s >>= answered woken m (drop (length ys) ws))
    unfolding fold answers
    fold-receive [] woken m s ws = ap (λ l. done (runtime_of l m s ws)) (sym (append-nil woken))
    fold-receive (y ∷ ys) woken m s ws = elim (Exec-cases (complete_rqe y s)) [
      | inl (r, e) ↦
          rw (receive_done y woken m s ws r e, e)
            (fold-receive ys (woken ++ (take 1 ws ++ r.1)) m r.0 (drop 1 ws)
              ∙ regroup woken (take 1 ws ++ r.1) m (length ys) ws (answers ys (drop 1 ws) r.0))
      | inr (x, e) ↦ rw (receive_fault y woken m s ws x e, e)
    ]

module _ {M X Y S : Type 0} (u : Uring M X Y) (complete_rqe : Y → S → Exec (S × List ℕ)) where
  -- One poll of `RunOn` takes all responses that are in the ring, in their order, and leaves it empty;
  -- as many rounds as the ring has slots are enough, and only the closure can panic. As many of the
  -- waiting submissions as there are responses are waked, the oldest first, each before the closure
  -- gets its response; those that are left wait on, in their order. Whom the closure wakes is waked,
  -- and what it does to the driver is done.
  pub receive_all_lem :
      (k : ℕ) (rt : Runtime M S) (xs : List Y)
      → Holds k (u.receiver rt.uring) xs
      → (q : Queue Y) × (receive_all u (2 ^ k) complete_rqe rt ≡ (
          answers complete_rqe xs rt.pending_submissions rt.driver >>= λ t. done (record rt {
            woken = rt.woken ++ t.1;
            uring = u.put_receiver rt.uring q;
            driver = t.0;
            pending_submissions = drop (length xs) rt.pending_submissions;
          })))
        × Holds k q []
  receive_all_lem k rt xs h =
      let (q, e, h') = receive_all-fold u complete_rqe k rt xs h in
      let left : List ℕ = drop (length xs) rt.pending_submissions in
      (
        q,
        e
            ∙ ap (λ (m : Exec (Runtime M S)). m >>= put_ring q)
                (fold-receive complete_rqe xs rt.woken rt.uring rt.driver rt.pending_submissions)
            ∙ assoc q left (answers complete_rqe xs rt.pending_submissions rt.driver),
        h',
      )
    where
      put_ring : Queue Y → Runtime M S → Exec (Runtime M S)
      put_ring q r = done (record r { uring = u.put_receiver rt.uring q })

      assoc :
          (q : Queue Y) (left : List ℕ) (m : Exec (S × List ℕ))
          → (m >>= answered complete_rqe rt.woken rt.uring left >>= put_ring q) ≡ (
              m >>= λ t. done (record rt {
                woken = rt.woken ++ t.1;
                uring = u.put_receiver rt.uring q;
                driver = t.0;
                pending_submissions = left;
              }))
      assoc q left (done t) = refl
      assoc q left (fault x) = refl
