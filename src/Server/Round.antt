-- ===== src/Server/Round.antt =====
-- One round of the server of examples/evering-threaded/src/main.rs: no request is lost or answered
-- twice.
use openoscamp_2025s.Base.{
  ℕ, ◌+◌, ◌-◌, ◌^◌, ◌≤◌, ◌≡◌, refl, sym, ◌∙◌, subst, Bool, true, false, not, ◌||◌, none, some, List,
  [], ◌∷◌, ◌++◌, append-nil, length, length-append, arith, ◌==◌, if◌then◌else◌,
}
use openoscamp_2025s.Base.Fault.{done}
use openoscamp_2025s.Fifo.{pop}
use openoscamp_2025s.Ring.Holds.{Holds}
use openoscamp_2025s.Ring.Refine.{dequeue_refines}
use openoscamp_2025s.Uring.{RawUring, queue_a, queue_b, uring_b, recv}
use openoscamp_2025s.Runtime.{Rqe}
use openoscamp_2025s.Server.{ping, Sqe, RqeData, Server, answer, flush, enter, server_round}
use openoscamp_2025s.Server.Reply.{send_all_lem}

-- How many of the answers are for the operation j.
unfoldable pub count : {X : Type 0} → ℕ → List (Rqe X) → ℕ
count j [] = 0
count j (r ∷ rs) = (if r.id == j then 1 else 0) + count j rs

abbrev pub is_nil : {X : Type 0} → List X → Bool
is_nil [] = true
is_nil (x ∷ xs) = false

pub count-append :
    {X : Type 0} (j : ℕ) (xs ys : List (Rqe X)) → count j (xs ++ ys) ≡ count j xs + count j ys
unfolding count
count-append j [] ys = omega arith
count-append j (x ∷ xs) ys = omega (arith, count-append j xs ys)

pub count-enter :
    {X : Type 0} (j : ℕ) (back : Bool) (r : Rqe X) (q : List (Rqe X))
    → count j (enter back r q) ≡ count j q + (if r.id == j then 1 else 0)
unfolding count enter
count-enter j true r q = omega (arith, count-append j q (r ∷ []))
count-enter j false r q = omega arith

pub length-enter :
    {X : Type 0} (back : Bool) (x : X) (q : List X) → length (enter back x q) ≡ length q + 1
unfolding enter
length-enter true x q = length-append q (x ∷ [])
length-enter false x q = omega arith

pub count_split :
    {X : Type 0} (j : ℕ) (go : Bool) (q : List (Rqe X))
    → count j (if go then q else []) + count j (if go then [] else q) ≡ count j q
unfolding count
count_split j true q = omega arith
count_split j false q = omega arith

pub exit_empties :
    {X : Type 0} (should_exit now : Bool) (q : List X)
    → (not should_exit || is_nil (if should_exit || now then [] else q)) ≡ true
exit_empties true now q = refl
exit_empties false now q = refl

-- No request asks for the exit.
abbrev pub AllPings : {D : Type 0} → List (Sqe D) → Type 0
AllPings [] = Unit
AllPings {D = D} (sqe ∷ xs) = ((d : D) × (sqe.payload ≡ ping d)) × AllPings xs

-- The answer to a request.
abbrev pub reply : {D V : Type 0} → (D → V) → Sqe D → Rqe (RqeData V)
reply token sqe = record { id = sqe.id; payload = (answer token sqe.payload).1 }

module _ {D V Ext : Type 0} where
  abbrev Flushes :
      ℕ
      → Bool
      → RawUring (Sqe D) (Rqe (RqeData V)) Ext
      → List (Rqe (RqeData V))
      → List (Rqe (RqeData V))
      → Type 0
  Flushes k go m q ys =
      (m' : RawUring (Sqe D) (Rqe (RqeData V)) Ext) × (flush go (record { rq = m; local_queue = q })
        ≡ done (record { rq = m'; local_queue = if go then [] else q }))
      × Holds k (queue_b m') (ys ++ (if go then q else []))
      × (queue_a m' ≡ queue_a m)

  flush_lem :
      (k : ℕ) (go : Bool) (m : RawUring (Sqe D) (Rqe (RqeData V)) Ext)
      (q ys : List (Rqe (RqeData V)))
      → Holds k (queue_b m) ys
      → length ys + length q ≤ 2 ^ k - 1
      → Flushes k go m q ys
  unfolding flush
  flush_lem k true m [] ys h fit =
      (m, refl, subst (Holds k (queue_b m)) (sym (append-nil ys)) h, refl)
  flush_lem k true m (r ∷ rs) ys h fit =
      let (m', e, h', a) = send_all_lem k (r ∷ rs) m ys h fit in (m', rw e, h', a)
  flush_lem k false m [] ys h fit =
      (m, refl, subst (Holds k (queue_b m)) (sym (append-nil ys)) h, refl)
  flush_lem k false m (r ∷ rs) ys h fit =
      (m, refl, subst (Holds k (queue_b m)) (sym (append-nil ys)) h, refl)

  pub recv_lem :
      (k : ℕ) (m : RawUring (Sqe D) (Rqe (RqeData V)) Ext) (sqe : Sqe D) (xs : List (Sqe D))
      → Holds k (queue_a m) (sqe ∷ xs)
      → (m' : RawUring (Sqe D) (Rqe (RqeData V)) Ext) × (recv uring_b m ≡ done (some sqe, m'))
        × Holds k (queue_a m') xs
        × (queue_b m' ≡ queue_b m)
  unfolding recv pop
  recv_lem k m sqe xs h =
      let (q, e, h') = dequeue_refines k (queue_a m) (sqe ∷ xs) h in
      (uring_b.put_receiver m q, rw e, h', refl)

  pub recv_empty :
      (k : ℕ) (m : RawUring (Sqe D) (Rqe (RqeData V)) Ext)
      → Holds k (queue_a m) []
      → (m' : RawUring (Sqe D) (Rqe (RqeData V)) Ext) × (recv uring_b m ≡ done (none, m'))
        × Holds k (queue_a m') []
        × (queue_b m' ≡ queue_b m)
  unfolding recv pop
  recv_empty k m h =
      let (q, e, h') = dequeue_refines k (queue_a m) [] h in
      (uring_b.put_receiver m q, rw e, h', refl)

  -- The local queue with the answer.
  abbrev pub with_reply : (D → V) → Bool → Server D V Ext → Sqe D → List (Rqe (RqeData V))
  with_reply token back s sqe = enter back (reply token sqe) s.local_queue

  -- A round with a request sends the whole local queue, or nothing.
  pub server_round_sends :
      (ka kb : ℕ) (token : D → V) (back now : Bool) (s : Server D V Ext) (sqe : Sqe D)
      (xs : List (Sqe D)) (ys : List (Rqe (RqeData V)))
      → Holds ka (queue_a s.rq) (sqe ∷ xs)
      → Holds kb (queue_b s.rq) ys
      → length ys + length s.local_queue + 1 ≤ 2 ^ kb - 1
      → let go = (answer token sqe.payload).0 || now in
        let q = with_reply token back s sqe in
        (m : RawUring (Sqe D) (Rqe (RqeData V)) Ext) × (server_round token back now s
          ≡ done
              ((answer token sqe.payload).0, record { rq = m; local_queue = if go then [] else q }))
        × Holds ka (queue_a m) xs
        × Holds kb (queue_b m) (ys ++ (if go then q else []))
  unfolding server_round
  server_round_sends ka kb token back now s sqe xs ys ha hb fit =
      let (m, e, ha', same) = recv_lem ka s.rq sqe xs ha in
      let (m', e', hb', same') =
        flush_lem kb ((answer token sqe.payload).0 || now) m (with_reply token back s sqe) ys
          (subst (λ b?. Holds kb b? ys) (sym same) hb)
          (omega (arith, fit, length-enter back (reply token sqe) s.local_queue)) in
      (m', rw (e, e'), subst (λ b?. Holds ka b? xs) (sym same') ha', hb')

  pub server_round_idle :
      (ka kb : ℕ) (token : D → V) (back now : Bool) (s : Server D V Ext)
      (ys : List (Rqe (RqeData V)))
      → Holds ka (queue_a s.rq) []
      → Holds kb (queue_b s.rq) ys
      → length ys + length s.local_queue ≤ 2 ^ kb - 1
      → (m : RawUring (Sqe D) (Rqe (RqeData V)) Ext) × (server_round token back now s
          ≡ done (false, record { rq = m; local_queue = if now then [] else s.local_queue }))
        × Holds ka (queue_a m) []
        × Holds kb (queue_b m) (ys ++ (if now then s.local_queue else []))
  unfolding server_round
  server_round_idle ka kb token back now s ys ha hb fit =
      let (m, e, ha', same) = recv_empty ka s.rq ha in
      let (m', e', hb', same') =
        flush_lem kb now m s.local_queue ys (subst (λ b?. Holds kb b? ys) (sym same) hb) fit in
      (m', rw (e, e'), subst (λ b?. Holds ka b? []) (sym same') ha', hb')

  -- A round that finds a request takes the oldest one. If the ring has room for its answer and for
  -- all that wait, the round does not panic; what it sends stands behind the answers that the client
  -- has not taken; for each id, what was sent and what is left in the local queue are as many as
  -- were in it and one more for the request; and after an exit the local queue is empty.
  pub server_round_lem :
      (ka kb : ℕ) (token : D → V) (back now : Bool) (s : Server D V Ext) (sqe : Sqe D)
      (xs : List (Sqe D)) (ys : List (Rqe (RqeData V))) (j : ℕ)
      → Holds ka (queue_a s.rq) (sqe ∷ xs)
      → Holds kb (queue_b s.rq) ys
      → length ys + length s.local_queue + 1 ≤ 2 ^ kb - 1
      → (s' : Server D V Ext) × (sent : List (Rqe (RqeData V))) × (server_round token back now s
          ≡ done ((answer token sqe.payload).0, s'))
        × Holds ka (queue_a s'.rq) xs
        × Holds kb (queue_b s'.rq) (ys ++ sent)
        × (count j sent + count j s'.local_queue
            ≡ count j s.local_queue + (if sqe.id == j then 1 else 0))
        × ((not (answer token sqe.payload).0 || is_nil s'.local_queue) ≡ true)
  server_round_lem ka kb token back now s sqe xs ys j ha hb fit =
      let leave : Bool = (answer token sqe.payload).0 in
      let q : List (Rqe (RqeData V)) = with_reply token back s sqe in
      let (m, e, ha', hb') = server_round_sends ka kb token back now s sqe xs ys ha hb fit in
      (
        record { rq = m; local_queue = if leave || now then [] else q },
        if leave || now then q else [],
        e,
        ha',
        hb',
        count_split j (leave || now) q ∙ count-enter j back (reply token sqe) s.local_queue,
        exit_empties leave now q,
      )
