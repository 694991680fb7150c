-- ===== src/Runtime/Submit.antt =====
-- The submissions of examples/evering-utils/src/runtime.rs: when they are accepted, where they wait
-- else, and a wake that is lost.
use openoscamp_2025s.Base.{
  ℕ, ◌+◌, ◌-◌, ◌^◌, ◌≡◌, refl, sym, ◌∙◌, ◌≢◌, none, some, List, [], ◌∷◌, ◌++◌, append_assoc,
}
use openoscamp_2025s.Base.Fault.{done, Result, ok, err}
use openoscamp_2025s.Base.Future.{ready}
use openoscamp_2025s.Slab.{Slab}
use openoscamp_2025s.Driver.{RawOp, submitted, waiting, completed, submit, set_state}
use openoscamp_2025s.Driver.Room.{
  try_submit_full, try_submit_room, complete_waiting, set_state-len, set_state-capacity,
  set_state-get, poll_makes_room,
}
use openoscamp_2025s.Op.{Completable, Op, new_op, spent, poll_op}
use openoscamp_2025s.Fifo.{push}
use openoscamp_2025s.Ring.{Queue}
use openoscamp_2025s.Ring.Holds.{Holds}
use openoscamp_2025s.Ring.Refine.{enqueue_refines}
use openoscamp_2025s.Uring.{Uring, send}
use openoscamp_2025s.Runtime.{
  Runtime, wake_one, wait, wait_for_ok, Submitting, reserving, posting, reserve, post, poll_posting,
  poll_submit, receive, complete_rqe,
}

module _ {M X Y P R Ext T : Type 0} (slab : Slab (RawOp P R Ext)) (u : Uring M X Y)
    (new_entry : ℕ → T → X × T) where
  open slab use {S, len, capacity, get, insert_vacant}

  -- How a submission that has its id ends: with its operation, or as one that waits.
  abbrev pub landed :
      ℕ
      → T
      → ℕ
      → Result (Unit {0}) X
      → Runtime M S
      → Result (Op T) (Submitting T X Ext) × Runtime M S
  landed id t waker (ok v) rt = (ok (new_op id t), rt)
  landed id t waker (err ent) rt = (err (posting id ent t), wait rt waker)

  pub posting_ends :
      (rt : Runtime M S) (id : ℕ) (ent : X) (t : T) (waker : ℕ) (o : Result (Unit {0}) X) (m : M)
      → send u rt.uring ent ≡ done (o, m)
      → poll_posting slab u new_entry id ent t waker rt
        ≡ done (landed id t waker o (record rt { uring = m }))
  unfolding poll_posting wait_for_ok post
  posting_ends rt id ent t waker (ok v) m e = rw e
  posting_ends rt id ent t waker (err x) m e = rw e

  pub send_lem :
      (k : ℕ) (m : M) (xs : List X) (ent : X)
      → Holds k (u.sender m) xs
      → (q : Queue X) × (send u m ent ≡ done ((push (2 ^ k - 1) xs ent).0, u.put_sender m q))
        × Holds k q (push (2 ^ k - 1) xs ent).1
  unfolding send
  send_lem k m xs ent h = let (q, e, h') = enqueue_refines k (u.sender m) xs h ent in (q, rw e, h')

  -- A submission that has its id is sent as soon as the ring to the other side has room, and else
  -- waits behind the others with the same entry; the driver is not asked again.
  pub poll_posting_lem :
      (k : ℕ) (rt : Runtime M S) (xs : List X) (id : ℕ) (ent : X) (t : T) (waker : ℕ)
      → Holds k (u.sender rt.uring) xs
      → (q : Queue X) × (poll_submit slab u new_entry (posting id ent t) waker rt
          ≡ done (
              landed id t waker
                (push (2 ^ k - 1) xs ent).0
                (record rt { uring = u.put_sender rt.uring q })))
        × Holds k q (push (2 ^ k - 1) xs ent).1
  unfolding poll_submit
  poll_posting_lem k rt xs id ent t waker h =
      let (q, e, h') = send_lem k rt.uring xs ent h in
      (
        q,
        posting_ends rt id ent t waker (push (2 ^ k - 1) xs ent).0 (u.put_sender rt.uring q) e,
        h',
      )

  -- A new submission, while the driver has room, takes an id that was vacant, and then goes on at
  -- once as a submission that has its id.
  pub poll_reserving_room :
      (k : ℕ) (rt : Runtime M S) (xs : List X) (ext : Ext) (t : T) (waker : ℕ)
      → Holds k (u.sender rt.uring) xs
      → len rt.driver ≢ capacity rt.driver
      → let (id, s) = submit slab rt.driver ext in
        let (ent, t') = new_entry id t in
        (q : Queue X) × (poll_submit slab u new_entry (reserving ext t) waker rt
          ≡ done (
              landed id t' waker
                (push (2 ^ k - 1) xs ent).0
                (record rt { driver = s; uring = u.put_sender rt.uring q })))
        × Holds k q (push (2 ^ k - 1) xs ent).1
        × (get rt.driver id ≡ none)
  unfolding poll_submit wait_for_ok reserve submit
  poll_reserving_room k rt xs ext t waker h room =
      let id : ℕ = (submit slab rt.driver ext).0 in
      let s : S = (submit slab rt.driver ext).1 in
      let (q, e, h') = send_lem k rt.uring xs (new_entry id t).0 h in
      (
        q,
        rw (try_submit_room slab rt.driver ext room) (
            posting_ends (record rt { driver = s }) id (new_entry id t).0 (new_entry id t).1 waker
              (push (2 ^ k - 1) xs (new_entry id t).0).0 (u.put_sender rt.uring q) e),
        h',
        insert_vacant rt.driver (record { state = submitted; ext = ext }),
      )

  -- A new submission, while the driver is full, waits behind the others.
  pub poll_reserving_full :
      (rt : Runtime M S) (ext : Ext) (t : T) (waker : ℕ)
      → len rt.driver ≡ capacity rt.driver
      → poll_submit slab u new_entry (reserving ext t) waker rt
        ≡ done (err (reserving ext t), wait rt waker)
  unfolding poll_submit wait_for_ok reserve
  poll_reserving_full rt ext t waker full = rw (try_submit_full slab rt.driver ext full)

  module _ {O : Type 0} (c : Completable T P R Ext O) where
    -- A wake that is lost. The driver is full and task w waits to submit, alone. The response to the
    -- operation of task v wakes w before v; w is polled first, finds the driver as full as before and
    -- waits again; then v takes its output, which makes room, but w is not waked. No response being
    -- left to come, nothing wakes it later.
    pub wake_lost :
        (rt : Runtime M S) (id v w : ℕ) (op : RawOp P R Ext) (p : P) (ext : Ext) (t t' : T)
        → get rt.driver id ≡ some op
        → op.state ≡ waiting v
        → len rt.driver ≡ capacity rt.driver
        → rt.pending_submissions ≡ w ∷ []
        → (rt1 rt2 : Runtime M S) × (s : S) × (receive
              (complete_rqe slab)
              (record { id = id; payload = p })
              rt
            ≡ done rt1)
          × (rt1.woken ≡ rt.woken ++ w ∷ v ∷ [])
          × (poll_submit slab u new_entry (reserving ext t) w rt1
              ≡ done (err (reserving ext t), rt2))
          × (rt2.pending_submissions ≡ w ∷ [])
          × (rt2.woken ≡ rt1.woken)
          × (poll_op slab c rt2.driver (new_op id t') v
              ≡ done (ready (c.complete_ext t' p op.ext), s, spent id))
          × (len s + 1 ≡ capacity s)
    unfolding receive complete_rqe wake_one poll_op
    wake_lost rt id v w op p ext t t' e l full waits =
        let s1 : S = set_state slab rt.driver id op (completed p) in
        let rt1 : Runtime M S = record rt {
          driver = s1;
          woken = (rt.woken ++ w ∷ []) ++ v ∷ [];
          pending_submissions = [];
        } in
        let full1 : len s1 ≡ capacity s1 =
          set_state-len slab rt.driver id op e (completed p)
          ∙ full
          ∙ sym (set_state-capacity slab rt.driver id op e (completed p)) in
        let (s, r, n, cap) =
          poll_makes_room slab s1 id (record op { state = completed p })
            (set_state-get slab rt.driver id op e (completed p)) v p refl in
        (
          rt1,
          wait rt1 w,
          s,
          rw (waits, complete_waiting slab rt.driver id op e v p l),
          append_assoc rt.woken (w ∷ []) (v ∷ []),
          poll_reserving_full rt1 ext t w full1,
          refl,
          refl,
          rw r,
          n ∙ full1 ∙ sym cap,
        )
