-- ===== src/System/Retry.antt =====
-- A submission of examples/evering-utils/src/runtime.rs that is polled again while its request waits.
use openoscamp_2025s.Base.{
  ℕ, ◌+◌, ◌-◌, ◌^◌, ◌≡◌, refl, ap, ◌∙◌, some, [], ◌∷◌, ◌++◌, ◌==◌, Bool-cases, Option-cases, inl,
  inr, List, arith, length, ==_iff, ne_of_test, subst,
}
use openoscamp_2025s.Base.Fault.{done}
use openoscamp_2025s.Slab.{Slab}
use openoscamp_2025s.Driver.{RawOp}
use openoscamp_2025s.Op.{Completable}
use openoscamp_2025s.Ring.{Queue}
use openoscamp_2025s.Ring.Holds.{Holds}
use openoscamp_2025s.Uring.{RawUring, uring_a, put_queue_a}
use openoscamp_2025s.Runtime.{Runtime, Rqe}
use openoscamp_2025s.Runtime.Submit.{landed, poll_posting_lem}
use openoscamp_2025s.Server.{Sqe, RqeData}
use openoscamp_2025s.Server.Reply.{push_room, push_full}
use openoscamp_2025s.Server.Round.{count}
use openoscamp_2025s.System.Typed.{Labelled-append, Labelled-pick}
use openoscamp_2025s.System.Sound.{Labels, LabelledUnsent, LabelledRequests, IsSystem}
use openoscamp_2025s.System.{
  System, retry, retried, retry_step, step, tally, unsent_ids, request_ids, pick,
}
use openoscamp_2025s.System.Count.{tally-last, tally-pick}
use openoscamp_2025s.System.Client.{Steps}

module _ {D V R Ext T O : Type 0} (slab : Slab (RawOp (RqeData V) R Ext))
    (c : Completable T (RqeData V) R Ext O) where
  open slab use {S}

  module _ {lab : Labels D V T} {ka kb : ℕ} (s : System D V Ext T S)
      (h : IsSystem slab c lab ka kb s) (waker : ℕ) where
    abbrev left : List (Sqe D × T) → Queue (Sqe D) → List ℕ → System D V Ext T S
    left unsent q waiting = record s {
      rt = record (s.rt) { uring = put_queue_a s.rt.uring q; pending_submissions = waiting };
      unsent = unsent;
    }

    left-IsSystem :
        (unsent : List (Sqe D × T)) (q : Queue (Sqe D)) (waiting : List ℕ) (xs : List (Sqe D))
        → ((j : ℕ)
            → tally j (unsent_ids unsent) + tally j (request_ids xs)
              ≡ tally j (unsent_ids s.unsent) + tally j (request_ids h.requests))
        → Holds ka q xs
        → LabelledUnsent lab h.kind unsent
        → LabelledRequests lab h.kind xs
        → IsSystem slab c lab ka kb (left unsent q waiting)
    left-IsSystem unsent q waiting xs counted holds typed_unsent typed_xs = record {
      owed = h.owed;
      requests = xs;
      responses = h.responses;
      flight = h.flight;
      each = λ j.
          ap (λ (n : ℕ). n + count j s.local_queue + count j h.responses) (counted j) ∙ h.each j;
      holds_a = holds;
      holds_b = h.holds_b;
      kind = h.kind;
      typed = record {
        of_handles = h.typed.of_handles;
        of_entries = h.typed.of_entries;
        of_unsent = typed_unsent;
        of_requests = typed_xs;
        of_local = h.typed.of_local;
        of_responses = h.typed.of_responses;
      };
    }

    retried_lem :
        (i : ℕ) (ent : Sqe D) (t : T) (rest : List (Sqe D × T))
        → pick i s.unsent ≡ some ((ent, t), rest)
        → Steps slab c lab ka kb s (retry i waker)
    unfolding step retry_step retried
    retried_lem i ent t rest picked =
        let cap : ℕ = 2 ^ ka - 1 in
        let (q, e, hq) =
          poll_posting_lem slab uring_a (λ id t. (ent, t)) ka s.rt h.requests ent.id ent t waker
            h.holds_a in
        let rt : Runtime (RawUring (Sqe D) (Rqe (RqeData V)) Ext) S = record (s.rt) {
          uring = put_queue_a s.rt.uring q;
        } in
        let (own, typed_rest) =
          Labelled-pick (λ y. y.0.id) (λ y. lab.asks y.0.payload) h.kind i s.unsent (ent, t) rest
            picked h.typed.of_unsent in
        elim (Bool-cases (length h.requests == cap)) [
          | inl f ↦
              let p = push_full cap h.requests ent ((==_iff (length h.requests) cap).0 f) in
              (
                left (rest ++ (ent, t) ∷ []) q (s.rt.pending_submissions ++ waker ∷ []),
                rw (picked, e)
                    (ap
                      (λ x. done (
                        retried (record s { unsent = rest })
                          (landed slab uring_a (λ id t. (ent, t)) ent.id t waker x.0 rt)))
                      p),
                left-IsSystem (rest ++ (ent, t) ∷ []) q (s.rt.pending_submissions ++ waker ∷ [])
                    h.requests
                    (λ j. omega (
                      arith,
                      tally-last (λ (y : Sqe D × T). y.0.id) j rest (ent, t),
                      tally-pick (λ (y : Sqe D × T). y.0.id) i j s.unsent (ent, t) rest picked,
                    ))
                    (subst (Holds ka q) (ap (λ x. x.1) p) hq)
                    (Labelled-append (λ y. y.0.id) (λ y. lab.asks y.0.payload) h.kind rest
                      ((ent, t) ∷ []) typed_rest (own, tt))
                    h.typed.of_requests,
                refl,
              )
          | inr f ↦
              let p = push_room cap h.requests ent (ne_of_test (length h.requests) cap f) in
              (
                left rest q s.rt.pending_submissions,
                rw (picked, e)
                    (ap
                      (λ x. done (
                        retried (record s { unsent = rest })
                          (landed slab uring_a (λ id t. (ent, t)) ent.id t waker x.0 rt)))
                      p),
                left-IsSystem rest q s.rt.pending_submissions (h.requests ++ ent ∷ [])
                    (λ j. omega (
                      arith,
                      tally-last (λ (y : Sqe D). y.id) j h.requests ent,
                      tally-pick (λ (y : Sqe D × T). y.0.id) i j s.unsent (ent, t) rest picked,
                    ))
                    (subst (Holds ka q) (ap (λ x. x.1) p) hq) typed_rest
                    (Labelled-append (λ y. y.id) (λ y. lab.asks y.payload) h.kind h.requests
                      (ent ∷ []) h.typed.of_requests (own, tt)),
                refl,
              )
        ]

    pub retry_lem : (i : ℕ) → Steps slab c lab ka kb s (retry i waker)
    unfolding step retry_step
    retry_lem i = elim (Option-cases (pick i s.unsent)) [
      | inl e ↦ (s, rw e refl, h, refl)
      | inr (((ent, t), rest), e) ↦ retried_lem i ent t rest e
    ]
