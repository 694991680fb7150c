-- ===== src/Server/Shuffle.antt =====
-- The server of examples/evering-ipc/src/main.rs: as that of evering-threaded, but it shuffles the
-- answers before it sends them. `D` is what a ping carries; the writes into its buffer are not modelled.
use openoscamp_2025s.Base.{
  ℕ, ◌+◌, ◌-◌, ◌^◌, ◌≤◌, ◌≡◌, refl, sym, ◌∙◌, subst, Bool, true, false, not, ◌||◌, none, some, List,
  [], ◌∷◌, ◌++◌, append-nil, length, arith, ◌==◌, if◌then◌else◌,
}
use openoscamp_2025s.Base.Fault.{Exec, done, ◌>>=◌}
use openoscamp_2025s.Ring.Holds.{Holds}
use openoscamp_2025s.Uring.{RawUring, queue_a, queue_b, uring_b, recv}
use openoscamp_2025s.Runtime.{Rqe}
use openoscamp_2025s.Server.{Sqe, RqeData, Server, answer, send_all, enter}
use openoscamp_2025s.Server.Reply.{send_all_lem}
use openoscamp_2025s.Server.Round.{count, count-enter, length-enter, is_nil, exit_empties, recv_lem}

module _ {D V Ext : Type 0} (shuffle : List (Rqe (RqeData V)) → List (Rqe (RqeData V))) where
  unfoldable pub flush_shuffled : Bool → Server D V Ext → Exec (Server D V Ext)
  flush_shuffled go s = elim (s.local_queue) [
    | [] ↦ done s
    | rqe ∷ rest ↦
        if go
        then (send_all (shuffle (rqe ∷ rest)) s.rq >>= λ m.
            done (record { rq = m; local_queue = [] }))
        else done s
  ]

  -- One round of the loop; it is the last if `true` is returned.
  unfoldable pub ipc_round : (D → V) → Bool → Server D V Ext → Exec (Bool × Server D V Ext)
  ipc_round token now s = recv uring_b s.rq >>= λ r. elim r.0 [
    | none ↦ flush_shuffled now (record s { rq = r.1 }) >>= λ s'. done (false, s')
    | some sqe ↦
        let (should_exit, reply) = answer token sqe.payload in
        flush_shuffled (should_exit || now) (record {
          rq = r.1;
          local_queue = enter true (record { id = sqe.id; payload = reply }) s.local_queue;
        })
        >>= λ s'. done (should_exit, s')
  ]

  module _ (same_length : (q : List (Rqe (RqeData V))) → length (shuffle q) ≡ length q)
      (same_count : (j : ℕ) (q : List (Rqe (RqeData V))) → count j (shuffle q) ≡ count j q) where
    flush_shuffled_lem :
        (k : ℕ) (go : Bool) (m : RawUring (Sqe D) (Rqe (RqeData V)) Ext) (r : Rqe (RqeData V))
        (rs ys : List (Rqe (RqeData V))) (j : ℕ)
        → Holds k (queue_b m) ys
        → length ys + length (r ∷ rs) ≤ 2 ^ k - 1
        → (m' : RawUring (Sqe D) (Rqe (RqeData V)) Ext) × (sent : List (Rqe (RqeData V)))
          × (flush_shuffled go (record { rq = m; local_queue = r ∷ rs })
              ≡ done (record { rq = m'; local_queue = if go then [] else r ∷ rs }))
          × Holds k (queue_b m') (ys ++ sent)
          × (queue_a m' ≡ queue_a m)
          × (count j sent + count j (if go then [] else r ∷ rs) ≡ count j (r ∷ rs))
    unfolding flush_shuffled count
    flush_shuffled_lem k true m r rs ys j h fit =
        let (m', e, h', a) =
          send_all_lem k (shuffle (r ∷ rs)) m ys h (omega (arith, fit, same_length (r ∷ rs))) in
        (m', shuffle (r ∷ rs), rw e, h', a, omega (arith, same_count j (r ∷ rs)))
    flush_shuffled_lem k false m r rs ys j h fit =
        (m, [], refl, subst (Holds k (queue_b m)) (sym (append-nil ys)) h, refl, omega arith)

    flush_entered :
        (k : ℕ) (go : Bool) (m : RawUring (Sqe D) (Rqe (RqeData V)) Ext)
        (q ys : List (Rqe (RqeData V))) (j : ℕ)
        → 1 ≤ length q
        → Holds k (queue_b m) ys
        → length ys + length q ≤ 2 ^ k - 1
        → (m' : RawUring (Sqe D) (Rqe (RqeData V)) Ext) × (sent : List (Rqe (RqeData V)))
          × (flush_shuffled go (record { rq = m; local_queue = q })
              ≡ done (record { rq = m'; local_queue = if go then [] else q }))
          × Holds k (queue_b m') (ys ++ sent)
          × (queue_a m' ≡ queue_a m)
          × (count j sent + count j (if go then [] else q) ≡ count j q)
    flush_entered k go m [] ys j some_left h fit = absurd (omega arith)
    flush_entered k go m (r ∷ rs) ys j some_left h fit = flush_shuffled_lem k go m r rs ys j h fit

    -- A round of the server of evering-ipc that finds a request takes the oldest one. If the ring has
    -- room for its answer and for all that wait, the round does not panic; what it sends stands
    -- behind the answers that the client has not taken; for each id, what was sent and what is left
    -- are as many as were waiting and one more for the request; after an exit nothing is left.
    pub ipc_round_lem :
        (ka kb : ℕ) (token : D → V) (now : Bool) (s : Server D V Ext) (sqe : Sqe D)
        (xs : List (Sqe D)) (ys : List (Rqe (RqeData V))) (j : ℕ)
        → Holds ka (queue_a s.rq) (sqe ∷ xs)
        → Holds kb (queue_b s.rq) ys
        → length ys + length s.local_queue + 1 ≤ 2 ^ kb - 1
        → (s' : Server D V Ext) × (sent : List (Rqe (RqeData V))) × (ipc_round token now s
            ≡ done ((answer token sqe.payload).0, s'))
          × Holds ka (queue_a s'.rq) xs
          × Holds kb (queue_b s'.rq) (ys ++ sent)
          × (count j sent + count j s'.local_queue
              ≡ count j s.local_queue + (if sqe.id == j then 1 else 0))
          × ((not (answer token sqe.payload).0 || is_nil s'.local_queue) ≡ true)
    unfolding ipc_round
    ipc_round_lem ka kb token now s sqe xs ys j ha hb fit =
        let (m, e, ha', same) = recv_lem ka s.rq sqe xs ha in
        let leave : Bool = (answer token sqe.payload).0 in
        let rqe : Rqe (RqeData V) = record {
          id = sqe.id;
          payload = (answer token sqe.payload).1;
        } in
        let q : List (Rqe (RqeData V)) = enter true rqe s.local_queue in
        let (m', sent, e', hb', same', n) =
          flush_entered kb (leave || now) m q ys j
            (omega (arith, length-enter true rqe s.local_queue))
            (subst (λ b?. Holds kb b? ys) (sym same) hb)
            (omega (arith, fit, length-enter true rqe s.local_queue)) in
        (
          record { rq = m'; local_queue = if leave || now then [] else q },
          sent,
          rw (e, e'),
          subst (λ b?. Holds ka b? xs) (sym same') ha',
          hb',
          n ∙ count-enter j true rqe s.local_queue,
          exit_empties leave now q,
        )
