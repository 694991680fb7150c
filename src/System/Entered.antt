-- ===== src/System/Entered.antt =====
-- An operation of examples/evering-utils/src/runtime.rs that has its id now: what was on its way is,
-- and its request.
use mathlib.Core.Option.{none-ne-some}
use openoscamp_2025s.Base.{
  ℕ, ◌+◌, ◌≡◌, refl, sym, ◌∙◌, Bool, true, false, none, some, [], ◌==◌, if◌then◌else◌, Option,
  Bool-cases, inl, inr, List, arith,
}
use openoscamp_2025s.Slab.{Slab}
use openoscamp_2025s.Driver.{submitted, RawOp, submit}
use openoscamp_2025s.Driver.Steps.{fresh, submit_lem}
use openoscamp_2025s.Op.{Completable}
use openoscamp_2025s.Op.Flight.{put, Fits, absent, flying, answered, orphan}
use openoscamp_2025s.Op.Flight.Step.{framed}
use openoscamp_2025s.Ring.{Queue}
use openoscamp_2025s.Ring.Holds.{Holds}
use openoscamp_2025s.Uring.{put_queue_a}
use openoscamp_2025s.Server.{Sqe, RqeData}
use openoscamp_2025s.Server.Round.{count}
use openoscamp_2025s.System.Typed.{Labelled-put}
use openoscamp_2025s.System.Room.{tally-response_ids}
use openoscamp_2025s.System.Sound.{
  Labels, HandleFits, EntryFits, LabelledUnsent, LabelledRequests, LabelledResponses, IsSystem,
}
use openoscamp_2025s.System.{System, tally, unsent_ids, request_ids}
use openoscamp_2025s.System.Count.{newly_owed, swap_sum}

not_owed :
    {P R Ext T : Type 0} (e : Option (RawOp P R Ext)) (t : Option T) (o : Bool)
    → e ≡ none
    → Fits e t o
    → o ≡ false
not_owed e t o v (absent _ _ q) = q
not_owed e t o v (flying op ws u p _ _ _) = absurd (none-ne-some _ (sym v ∙ p))
not_owed e t o v (answered op x u p _ _ _) = absurd (none-ne-some _ (sym v ∙ p))
not_owed e t o v (orphan op x p _ _ _) = absurd (none-ne-some _ (sym v ∙ p))

module _ {D V R Ext T O : Type 0} (slab : Slab (RawOp (RqeData V) R Ext))
    (c : Completable T (RqeData V) R Ext O) where
  open slab use {S, get, len, capacity, capacity-insert}

  module _ {lab : Labels D V T} {ka kb : ℕ} (s : System D V Ext T S)
      (h : IsSystem slab c lab ka kb s) (ext : Ext) (t : T) (waiting : List ℕ) where
    -- An operation that has its id now, its request being sent or waiting.
    abbrev pub entered : List (Sqe D × T) → Queue (Sqe D) → System D V Ext T S
    entered unsent q = record s {
      rt = record (s.rt) {
        driver = (submit slab s.rt.driver ext).1;
        uring = put_queue_a s.rt.uring q;
        pending_submissions = waiting;
      };
      handles = put s.handles (submit slab s.rt.driver ext).0 (some t);
      unsent = unsent;
    }

    -- The id is new, so that it can have the label of its operation.
    abbrev pub labels : ℕ → Bool
    labels = put h.kind (submit slab s.rt.driver ext).0 (lab.wants t)

    pub labels_kept :
        get s.rt.driver (submit slab s.rt.driver ext).0 ≡ none
        → LabelledUnsent lab labels s.unsent
          × LabelledRequests lab labels h.requests
          × LabelledResponses lab labels s.local_queue
          × LabelledResponses lab labels h.responses
    labels_kept vacant =
        let id : ℕ = (submit slab s.rt.driver ext).0 in
        let free : h.owed id ≡ false =
          not_owed (get s.rt.driver id) (s.handles id) (h.owed id) vacant (h.flight id) in
        let absent_id : tally id (unsent_ids s.unsent)
              + tally id (request_ids h.requests)
              + count id s.local_queue
              + count id h.responses
            ≡ 0 =
          h.each id ∙ rw free refl in
        (
          Labelled-put (λ p. p.0.id) (λ p. lab.asks p.0.payload) h.kind id (lab.wants t) s.unsent
              (omega (arith, absent_id)) h.typed.of_unsent,
          Labelled-put (λ sqe. sqe.id) (λ sqe. lab.asks sqe.payload) h.kind id (lab.wants t)
              h.requests (omega (arith, absent_id)) h.typed.of_requests,
          Labelled-put (λ rqe. rqe.id) (λ rqe. lab.gives rqe.payload) h.kind id (lab.wants t)
              s.local_queue (tally-response_ids id s.local_queue ∙ omega (arith, absent_id))
              h.typed.of_local,
          Labelled-put (λ rqe. rqe.id) (λ rqe. lab.gives rqe.payload) h.kind id (lab.wants t)
              h.responses (tally-response_ids id h.responses ∙ omega (arith, absent_id))
              h.typed.of_responses,
        )

    entered_handles :
        (j : ℕ)
        → HandleFits lab.wants (labels j) (put s.handles (submit slab s.rt.driver ext).0 (some t) j)
    entered_handles j = elim (Bool-cases ((submit slab s.rt.driver ext).0 == j)) [
      | inl y ↦ rw y refl
      | inr n ↦ rw n (h.typed.of_handles j)
    ]

    entered_entries :
        (j : ℕ) → EntryFits lab.gives (labels j) (get (submit slab s.rt.driver ext).1 j)
    entered_entries j = elim (Bool-cases ((submit slab s.rt.driver ext).0 == j)) [
      | inl y ↦ rw (submit_lem slab s.rt.driver ext j, y) tt
      | inr n ↦ rw (submit_lem slab s.rt.driver ext j, n) (h.typed.of_entries j)
    ]

    pub entered-IsSystem :
        (unsent : List (Sqe D × T)) (q : Queue (Sqe D)) (xs : List (Sqe D))
        → get s.rt.driver (submit slab s.rt.driver ext).0 ≡ none
        → ((j : ℕ)
            → tally j (unsent_ids unsent) + tally j (request_ids xs)
              ≡ tally j (unsent_ids s.unsent)
                + tally j (request_ids h.requests)
                + (if (submit slab s.rt.driver ext).0 == j then 1 else 0))
        → Holds ka q xs
        → LabelledUnsent lab labels unsent
        → LabelledRequests lab labels xs
        → IsSystem slab c lab ka kb (entered unsent q)
    entered-IsSystem unsent q xs vacant counted holds typed_unsent typed_xs =
        let (_, _, typed_local, typed_ys) = labels_kept vacant in
        let id : ℕ = (submit slab s.rt.driver ext).0 in
        let d : S = (submit slab s.rt.driver ext).1 in
        let op : RawOp (RqeData V) R Ext = record { state = submitted; ext = ext } in
        record {
          owed = put h.owed id true;
          requests = xs;
          responses = h.responses;
          flight =
              framed slab c (record { store = s.rt.driver; handles = s.handles; owed = h.owed }) d
                id (some op) (some t) true h.flight (submit_lem slab s.rt.driver ext)
                (flying op [] t refl (fresh refl) refl refl);
          each = λ j.
              swap_sum (tally j (unsent_ids unsent)) (tally j (request_ids xs))
                (tally j (unsent_ids s.unsent)) (tally j (request_ids h.requests))
                (count j s.local_queue) (count j h.responses) (if id == j then 1 else 0)
                (if put h.owed id true j then 1 else 0) (counted j)
                (newly_owed h.owed id _ j
                  (not_owed (get s.rt.driver id) (s.handles id) (h.owed id) vacant (h.flight id))
                  (h.each j));
          holds_a = holds;
          holds_b = h.holds_b;
          kind = labels;
          typed = record {
            of_handles = entered_handles;
            of_entries = entered_entries;
            of_unsent = typed_unsent;
            of_requests = typed_xs;
            of_local = typed_local;
            of_responses = typed_ys;
          };
        }
