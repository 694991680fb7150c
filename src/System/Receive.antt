-- ===== src/System/Receive.antt =====
-- The client takes the responses: each belongs to an operation that still waits for it.
use openoscamp_2025s.Base.{
  ℕ, ◌+◌, ◌^◌, ◌≡◌, refl, sym, ap, ◌∙◌, subst, Bool, true, false, Option, List, [], ◌∷◌, ◌++◌, ◌==◌,
  ==_of_eq, if◌then◌else◌, arith, inl, inr,
}
use openoscamp_2025s.Base.Fault.{done, Result}
use openoscamp_2025s.Slab.{Slab}
use openoscamp_2025s.Driver.{RawOp, complete, complete_ext}
use openoscamp_2025s.Driver.Capacity.{complete_ext-capacity}
use openoscamp_2025s.Op.{Completable}
use openoscamp_2025s.Op.Flight.{put, IsFlight}
use openoscamp_2025s.Op.Flight.Step.{answer_lem, Answered}
use openoscamp_2025s.Ring.Holds.{pow_pos}
use openoscamp_2025s.Uring.{RawUring, uring_a, put_queue_b, size_b}
use openoscamp_2025s.Runtime.{Runtime, Rqe, wake_one, receive, complete_rqe}
use openoscamp_2025s.Runtime.Receive.{fold, receive_all-fold}
use openoscamp_2025s.Server.{Sqe, RqeData}
use openoscamp_2025s.Server.Round.{count}
use openoscamp_2025s.System.Typed.{EntryFits-differs}
use openoscamp_2025s.System.Sound.{Labels, Labelled, EntryFits, IsSystem}
use openoscamp_2025s.System.{System, take_responses, step, tally, unsent_ids, request_ids}
use openoscamp_2025s.System.Count.{settled, due}
use openoscamp_2025s.System.Client.{Steps}

module _ {M P R Ext : Type 0} (slab : Slab (RawOp P R Ext)) where
  open slab use {S}

  -- A wake does not touch the driver, nor the rings.
  wake_one_keeps :
      (rt : Runtime M S) → ((wake_one rt).driver ≡ rt.driver) × ((wake_one rt).uring ≡ rt.uring)
  unfolding wake_one
  wake_one_keeps rt = of rt.pending_submissions rt refl
    where
      of :
          (ws : List ℕ) (rt : Runtime M S)
          → rt.pending_submissions ≡ ws
          → ((wake_one rt).driver ≡ rt.driver) × ((wake_one rt).uring ≡ rt.uring)
      of [] rt e = rw e (refl, refl)
      of (w ∷ ws) rt e = rw e (refl, refl)

  receive_one :
      (rt : Runtime M S) (rqe : Rqe P) (r : Result (Unit {0}) (P × Ext) × S × List ℕ)
      → complete_ext slab rt.driver rqe.id rqe.payload ≡ done r
      → (rt' : Runtime M S) × (receive (complete_rqe slab) rqe rt ≡ done rt')
        × (rt'.driver ≡ r.1)
        × (rt'.uring ≡ rt.uring)
  unfolding receive complete_rqe complete
  receive_one rt rqe r e =
      let (d, u) = wake_one_keeps rt in
      let woken : Runtime M S = wake_one rt in
      (record woken { driver = r.1; woken = woken.woken ++ r.2 }, rw (d, e) refl, refl, u)

module _ {V R Ext T O : Type 0} (slab : Slab (RawOp (RqeData V) R Ext))
    (c : Completable T (RqeData V) R Ext O) where
  Answered-EntryFits :
      (gives : RqeData V → Bool) (k : Bool) (p : RqeData V) (e : Option (RawOp (RqeData V) R Ext))
      → gives p ≡ k
      → Answered slab c p e
      → EntryFits gives k e
  Answered-EntryFits gives k p e own (inl q) = subst (EntryFits gives k) (sym q) tt
  Answered-EntryFits gives k p e own (inr (op, q)) = subst (EntryFits gives k) (sym q) own

module _ {M V R Ext T O : Type 0} (slab : Slab (RawOp (RqeData V) R Ext))
    (c : Completable T (RqeData V) R Ext O) where
  open slab use {S, get, capacity}

  received :
      (ys : List (Rqe (RqeData V))) (rt : Runtime M S) (handles : ℕ → Option T) (owed : ℕ → Bool)
      (rest : ℕ → ℕ) (gives : RqeData V → Bool) (kind : ℕ → Bool)
      → IsFlight slab c (record { store = rt.driver; handles = handles; owed = owed })
      → ((j : ℕ) → EntryFits gives (kind j) (get rt.driver j))
      → Labelled (λ (rqe : Rqe (RqeData V)). rqe.id) (λ rqe. gives rqe.payload) kind ys
      → ((j : ℕ) → rest j + count j ys ≡ (if owed j then 1 else 0))
      → (rt' : Runtime M S) × (owed' : ℕ → Bool) × (fold (receive (complete_rqe slab)) ys rt
          ≡ done rt')
        × (rt'.uring ≡ rt.uring)
        × IsFlight slab c (record { store = rt'.driver; handles = handles; owed = owed' })
        × ((j : ℕ) → rest j ≡ (if owed' j then 1 else 0))
        × ((j : ℕ) → EntryFits gives (kind j) (get rt'.driver j))
        × (capacity rt'.driver ≡ capacity rt.driver)
  unfolding fold count
  received [] rt handles owed rest gives kind fits entries labels each =
      (rt, owed, refl, refl, fits, λ j. omega (arith, each j), entries, refl)
  received (r ∷ ys) rt handles owed rest gives kind fits entries (own, labels) each =
      let here : rest r.id + ((if r.id == r.id then 1 else 0) + count r.id ys)
          ≡ (if owed r.id then 1 else 0) =
        each r.id in
      let is_due : owed r.id ≡ true =
        due (owed r.id) (rest r.id + count r.id ys)
          (omega (arith, rw (==_of_eq r.id r.id refl) at here)) in
      let (x, ent, e, fits1, differs, left) =
        answer_lem slab c (record { store = rt.driver; handles = handles; owed = owed }) r.id
          r.payload fits is_due (fits r.id) in
      let (rt1, e1, d1, u1) = receive_one slab rt r x e in
      let entries1 : (j : ℕ) → EntryFits gives (kind j) (get x.1 j) =
        EntryFits-differs slab gives kind rt.driver x.1 r.id ent differs
          (Answered-EntryFits slab c gives (kind r.id) r.payload ent own left) entries in
      let (rt2, owed2, e2, u2, fits2, each2, entries2, cap2) =
        received ys rt1 handles (put owed r.id false) rest gives kind
          (subst
            (λ s.
              IsFlight slab c (record { store = s; handles = handles; owed = put owed r.id false }))
            (sym d1) fits1)
          (λ j. subst (λ s. EntryFits gives (kind j) (get s j)) (sym d1) (entries1 j)) labels
          (λ j. settled owed r.id (rest j + count j ys) j (omega (arith, each j))) in
      (
        rt2,
        owed2,
        rw (e1, e2),
        u2 ∙ u1,
        fits2,
        each2,
        entries2,
        cap2 ∙ ap capacity d1 ∙ complete_ext-capacity slab rt.driver r.id r.payload x e,
      )

module _ {D V R Ext T O : Type 0} (slab : Slab (RawOp (RqeData V) R Ext))
    (c : Completable T (RqeData V) R Ext O) where
  open slab use {S, capacity}

  -- All responses are taken, and nothing else of what is on its way changes.
  pub responses_taken :
      {lab : Labels D V T} {ka kb : ℕ} (s : System D V Ext T S) (h : IsSystem slab c lab ka kb s)
      → (rt : Runtime (RawUring (Sqe D) (Rqe (RqeData V)) Ext) S) × (h' : IsSystem slab c lab ka kb
          (record s { rt = rt }))
        × (step slab c s take_responses ≡ done (record s { rt = rt }))
        × (h'.requests ≡ h.requests)
        × (h'.responses ≡ [])
        × (capacity rt.driver ≡ capacity s.rt.driver)
  unfolding step count
  responses_taken {lab = lab} {kb = kb} s h =
      let size : size_b s.rt.uring.header ≡ 2 ^ kb = omega (arith, pow_pos kb, h.holds_b.masked) in
      let (q, e, hq) = receive_all-fold uring_a (complete_rqe slab) kb s.rt h.responses h.holds_b in
      let (rt, owed, e1, u, fits, each, entries, cap) =
        received slab c h.responses s.rt s.handles h.owed
          (λ j.
            tally j (unsent_ids s.unsent)
            + tally j (request_ids h.requests)
            + count j s.local_queue)
          lab.gives h.kind h.flight h.typed.of_entries h.typed.of_responses h.each in
      (
        record rt { uring = put_queue_b s.rt.uring q },
        record {
          owed = owed;
          requests = h.requests;
          responses = [];
          flight = fits;
          each = λ j. omega (arith, each j);
          holds_a = h.holds_a;
          holds_b = hq;
          kind = h.kind;
          typed = record {
            of_handles = h.typed.of_handles;
            of_entries = entries;
            of_unsent = h.typed.of_unsent;
            of_requests = h.typed.of_requests;
            of_local = h.typed.of_local;
            of_responses = tt;
          };
        },
        rw (size, e, e1) refl,
        refl,
        refl,
        cap,
      )

  pub take_responses_lem :
      {lab : Labels D V T} {ka kb : ℕ} (s : System D V Ext T S)
      → IsSystem slab c lab ka kb s
      → Steps slab c lab ka kb s take_responses
  take_responses_lem s h =
      let (rt, h', e, _, _, cap) = responses_taken s h in (record s { rt = rt }, e, h', cap)
