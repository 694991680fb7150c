-- ===== src/System/Submit.antt =====
-- A submission of examples/evering-utils/src/runtime.rs, while requests and responses are on their
-- way: its request is on its way from when it has its id.
use openoscamp_2025s.Base.{
  ==_of_eq, ℕ, ◌-◌, ◌^◌, ◌≡◌, ◌≢◌, refl, ap, ◌∙◌, none, [], ◌∷◌, ◌++◌, ◌==◌, Bool-cases, inl, inr,
  List, arith, length, ==_iff, ne_of_test, subst,
}
use openoscamp_2025s.Base.Fault.{Exec, done, Result}
use openoscamp_2025s.Slab.{Slab}
use openoscamp_2025s.Driver.{RawOp, submit}
use openoscamp_2025s.Driver.Capacity.{submit-capacity}
use openoscamp_2025s.Op.{Completable}
use openoscamp_2025s.Op.Flight.{put}
use openoscamp_2025s.Ring.{Queue}
use openoscamp_2025s.Ring.Holds.{Holds}
use openoscamp_2025s.Uring.{RawUring, uring_a, put_queue_a}
use openoscamp_2025s.Runtime.{Runtime, Rqe, wait}
use openoscamp_2025s.Runtime.Submit.{landed, poll_reserving_room, poll_reserving_full}
use openoscamp_2025s.Server.{Sqe, SqeData, RqeData}
use openoscamp_2025s.Server.Reply.{push_room, push_full}
use openoscamp_2025s.System.Typed.{Labelled-append}
use openoscamp_2025s.System.Sound.{Labels, IsSystem}
use openoscamp_2025s.System.{System, submit_ext, begun, step, entry}
use openoscamp_2025s.System.Count.{tally-last}
use openoscamp_2025s.System.Client.{Steps}
use openoscamp_2025s.System.Entered.{entered, labels_kept, entered-IsSystem}

module _ {D V R Ext T O : Type 0} (slab : Slab (RawOp (RqeData V) R Ext))
    (c : Completable T (RqeData V) R Ext O) where
  open slab use {S, get, len, capacity, capacity-insert}

  module _ {lab : Labels D V T} {ka kb : ℕ} (s : System D V Ext T S)
      (h : IsSystem slab c lab ka kb s) (ext : Ext) (t : T) (make : ℕ → T → SqeData D × T)
      (waker : ℕ) (made : (id : ℕ) → lab.asks (make id t).0 ≡ lab.wants (make id t).1) where
    abbrev new_id : ℕ
    new_id = (submit slab s.rt.driver ext).0

    abbrev request : Sqe D
    request = (entry make new_id t).0

    abbrev op_data : T
    op_data = (entry make new_id t).1

    own : lab.asks request.payload ≡ put h.kind new_id (lab.wants op_data) new_id
    own = made new_id ∙ rw (==_of_eq new_id new_id refl) refl

    -- The ring is full, and the request waits.
    abbrev queued : Queue (Sqe D) → System D V Ext T S
    queued =
        entered slab c s h ext op_data (s.rt.pending_submissions ++ waker ∷ [])
          (s.unsent ++ (request, op_data) ∷ [])

    queued-IsSystem :
        (q : Queue (Sqe D))
        → get s.rt.driver new_id ≡ none
        → Holds ka q h.requests
        → IsSystem slab c lab ka kb (queued q)
    queued-IsSystem q vacant hq =
        let waiting : List ℕ = s.rt.pending_submissions ++ waker ∷ [] in
        let (typed_unsent, typed_xs, _, _) = labels_kept slab c s h ext op_data waiting vacant in
        entered-IsSystem slab c s h ext op_data waiting (s.unsent ++ (request, op_data) ∷ []) q
          h.requests vacant
          (λ j. omega (arith, tally-last (λ (y : Sqe D × T). y.0.id) j s.unsent (request, op_data)))
          hq
          (Labelled-append (λ y. y.0.id) (λ y. lab.asks y.0.payload)
            (put h.kind new_id (lab.wants op_data)) s.unsent ((request, op_data) ∷ []) typed_unsent
            (own, tt))
          typed_xs

    -- The request is sent.
    abbrev sent : Queue (Sqe D) → System D V Ext T S
    sent = entered slab c s h ext op_data s.rt.pending_submissions s.unsent

    sent-IsSystem :
        (q : Queue (Sqe D))
        → get s.rt.driver new_id ≡ none
        → Holds ka q (h.requests ++ request ∷ [])
        → IsSystem slab c lab ka kb (sent q)
    sent-IsSystem q vacant hq =
        let (typed_unsent, typed_xs, _, _) =
          labels_kept slab c s h ext op_data s.rt.pending_submissions vacant in
        entered-IsSystem slab c s h ext op_data s.rt.pending_submissions s.unsent q
          (h.requests ++ request ∷ []) vacant
          (λ j. omega (arith, tally-last (λ (y : Sqe D). y.id) j h.requests request)) hq
          typed_unsent
          (Labelled-append (λ y. y.id) (λ y. lab.asks y.payload)
            (put h.kind new_id (lab.wants op_data)) h.requests (request ∷ []) typed_xs (own, tt))

    submit_room :
        len s.rt.driver ≢ capacity s.rt.driver
        → Steps slab c lab ka kb s (submit_ext ext t make waker)
    unfolding step begun
    submit_room room =
        let cap : ℕ = 2 ^ ka - 1 in
        let (q, e, hq, vacant) =
          poll_reserving_room slab uring_a (entry make) ka s.rt h.requests ext t waker h.holds_a
            room in
        let rt : Runtime (RawUring (Sqe D) (Rqe (RqeData V)) Ext) S = record (s.rt) {
          driver = (submit slab s.rt.driver ext).1;
          uring = put_queue_a s.rt.uring q;
        } in
        let after : Result (Unit {0}) (Sqe D) → Exec (System D V Ext T S) =
          λ x. done (begun s (landed slab uring_a (entry make) new_id op_data waker x rt)) in
        elim (Bool-cases (length h.requests == cap)) [
          | inl f ↦
              let p = push_full cap h.requests request ((==_iff (length h.requests) cap).0 f) in
              (
                queued q,
                rw e (ap (λ x. after x.0) p),
                queued-IsSystem q vacant (subst (Holds ka q) (ap (λ x. x.1) p) hq),
                submit-capacity slab s.rt.driver ext room,
              )
          | inr f ↦
              let p = push_room cap h.requests request (ne_of_test (length h.requests) cap f) in
              (
                sent q,
                rw e (ap (λ x. after x.0) p),
                sent-IsSystem q vacant (subst (Holds ka q) (ap (λ x. x.1) p) hq),
                submit-capacity slab s.rt.driver ext room,
              )
        ]

    pub submit_ext_lem : Steps slab c lab ka kb s (submit_ext ext t make waker)
    unfolding step begun
    submit_ext_lem = elim (Bool-cases (len s.rt.driver == capacity s.rt.driver)) [
      | inl f ↦
          let full : len s.rt.driver ≡ capacity s.rt.driver =
            (==_iff (len s.rt.driver) (capacity s.rt.driver)).0 f in
          (
            record s { rt = wait s.rt waker },
            rw (poll_reserving_full slab uring_a (entry make) s.rt ext t waker full) refl,
            record {
              owed = h.owed;
              requests = h.requests;
              responses = h.responses;
              flight = h.flight;
              each = h.each;
              holds_a = h.holds_a;
              holds_b = h.holds_b;
              kind = h.kind;
              typed = record {
                of_handles = h.typed.of_handles;
                of_entries = h.typed.of_entries;
                of_unsent = h.typed.of_unsent;
                of_requests = h.typed.of_requests;
                of_local = h.typed.of_local;
                of_responses = h.typed.of_responses;
              };
            },
            refl,
          )
      | inr f ↦ submit_room (ne_of_test (len s.rt.driver) (capacity s.rt.driver) f)
    ]
