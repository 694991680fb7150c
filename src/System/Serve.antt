-- ===== src/System/Serve.antt =====
-- A round of the server, while the client does not take more operations than the ring of the answers
-- has room for.
use openoscamp_2025s.Base.{
  ℕ, Bool-cases, inl, inr, ◌+◌, ◌-◌, ◌^◌, ◌≤◌, ◌≡◌, refl, ap, ◌∙◌, subst, Bool, true, false, not,
  ◌||◌, List, [], ◌∷◌, ◌++◌, if◌then◌else◌, arith, length,
}
use openoscamp_2025s.Base.Fault.{done}
use openoscamp_2025s.Slab.{Slab}
use openoscamp_2025s.Driver.{RawOp}
use openoscamp_2025s.Op.{Completable}
use openoscamp_2025s.Ring.Holds.{Holds}
use openoscamp_2025s.Uring.{RawUring, queue_a, queue_b}
use openoscamp_2025s.Runtime.{Rqe}
use openoscamp_2025s.Server.{Sqe, RqeData, Server, answer, enter}
use openoscamp_2025s.Server.Round.{
  count, count-append, count_split, count-enter, reply, with_reply, server_round_sends,
  server_round_idle,
}
use openoscamp_2025s.System.Typed.{Labelled-append}
use openoscamp_2025s.System.Sound.{Labels, LabelledRequests, LabelledResponses, IsSystem}
use openoscamp_2025s.System.{System, serve, serve_step, step, tally, request_ids}
use openoscamp_2025s.System.Client.{Steps}
use openoscamp_2025s.System.Fit.{on_its_way_fits}

module _ {D V T : Type 0} (lab : Labels D V T) where
  Labelled-enter :
      (kind : ℕ → Bool) (back : Bool) (r : Rqe (RqeData V)) (q : List (Rqe (RqeData V)))
      → lab.gives r.payload ≡ kind r.id
      → LabelledResponses lab kind q
      → LabelledResponses lab kind (enter back r q)
  unfolding enter
  Labelled-enter kind true r q own a =
      Labelled-append (λ y. y.id) (λ y. lab.gives y.payload) kind q (r ∷ []) a (own, tt)
  Labelled-enter kind false r q own a = (own, a)

  -- What is sent, and what is kept.
  Labelled-split :
      (kind : ℕ → Bool) (go : Bool) (q : List (Rqe (RqeData V)))
      → LabelledResponses lab kind q
      → LabelledResponses lab kind (if go then q else [])
        × LabelledResponses lab kind (if go then [] else q)
  Labelled-split kind true q a = (a, tt)
  Labelled-split kind false q a = (tt, a)

module _ {D V R Ext T O : Type 0} (slab : Slab (RawOp (RqeData V) R Ext))
    (c : Completable T (RqeData V) R Ext O) where
  open slab use {S, get, len, capacity}

  module _ {lab : Labels D V T} {ka kb : ℕ} (s : System D V Ext T S)
      (h : IsSystem slab c lab ka kb s) where
    abbrev pub served :
        RawUring (Sqe D) (Rqe (RqeData V)) Ext → List (Rqe (RqeData V)) → Bool → System D V Ext T S
    served m queue leave = record s {
      rt = record (s.rt) { uring = m };
      local_queue = queue;
      running = not leave;
    }

    served-IsSystem :
        (m : RawUring (Sqe D) (Rqe (RqeData V)) Ext) (xs : List (Sqe D))
        (queue sent : List (Rqe (RqeData V))) (leave : Bool)
        → ((j : ℕ)
            → tally j (request_ids xs) + count j queue + count j sent
              ≡ tally j (request_ids h.requests) + count j s.local_queue)
        → Holds ka (queue_a m) xs
        → Holds kb (queue_b m) (h.responses ++ sent)
        → LabelledRequests lab h.kind xs
        → LabelledResponses lab h.kind queue
        → LabelledResponses lab h.kind sent
        → IsSystem slab c lab ka kb (served m queue leave)
    served-IsSystem m xs queue sent leave counted ha hb typed_xs typed_queue typed_sent = record {
      owed = h.owed;
      requests = xs;
      responses = h.responses ++ sent;
      flight = h.flight;
      each = λ j. omega (arith, h.each j, counted j, count-append j h.responses sent);
      holds_a = ha;
      holds_b = hb;
      kind = h.kind;
      typed = record {
        of_handles = h.typed.of_handles;
        of_entries = h.typed.of_entries;
        of_unsent = h.typed.of_unsent;
        of_requests = typed_xs;
        of_local = typed_queue;
        of_responses =
            Labelled-append (λ y. y.id) (λ y. lab.gives y.payload) h.kind h.responses sent
              h.typed.of_responses typed_sent;
      };
    }

    module _ (token : D → V) (back now : Bool) (room : capacity s.rt.driver ≤ 2 ^ kb - 1)
        (fit : len s.rt.driver ≤ capacity s.rt.driver) where
      -- A round with a request takes the oldest one, and sends the local queue or keeps it.
      pub request_served :
          (sqe : Sqe D) (xs : List (Sqe D))
          → h.requests ≡ sqe ∷ xs
          → let leave = (answer token sqe.payload).0 in
            let queue = enter back (reply token sqe) s.local_queue in
            (m : RawUring (Sqe D) (Rqe (RqeData V)) Ext) × (h' : IsSystem slab c lab ka kb
              (served m (if leave || now then [] else queue) leave))
            × (serve_step slab c s token back now true
                ≡ done (served m (if leave || now then [] else queue) leave))
            × (h'.requests ≡ xs)
      unfolding serve_step served-IsSystem tally
      request_served sqe xs q =
          let server : Server D V Ext = record { rq = s.rt.uring; local_queue = s.local_queue } in
          let leave : Bool = (answer token sqe.payload).0 in
          let queue : List (Rqe (RqeData V)) = with_reply token back server sqe in
          let go : Bool = leave || now in
          let (own, typed_xs) = subst (LabelledRequests lab h.kind) q h.typed.of_requests in
          let (typed_sent, typed_kept) = Labelled-split lab h.kind go queue (
            Labelled-enter lab h.kind back (reply token sqe) s.local_queue
              (lab.gives-answer token sqe.payload ∙ own) h.typed.of_local) in
          let (m, e, ha, hb) =
            server_round_sends ka kb token back now server sqe xs h.responses
              (subst (Holds ka (queue_a s.rt.uring)) q h.holds_a) h.holds_b
              (omega (arith, on_its_way_fits slab c s h, ap length q, room, fit)) in
          (
            m,
            served-IsSystem m xs (if go then [] else queue) (if go then queue else []) leave
                (λ j. omega (
                  arith,
                  count_split j go queue,
                  count-enter j back (reply token sqe) s.local_queue,
                  ap (λ l. tally j (request_ids l)) q,
                ))
                ha hb typed_xs typed_kept typed_sent,
            rw e refl,
            refl,
          )

      -- A round without a request sends the local queue or keeps it.
      pub idle_served :
          h.requests ≡ []
          → (m : RawUring (Sqe D) (Rqe (RqeData V)) Ext) × (h' : IsSystem slab c lab ka kb
              (served m (if now then [] else s.local_queue) false))
            × (serve_step slab c s token back now true
                ≡ done (served m (if now then [] else s.local_queue) false))
            × (h'.requests ≡ [])
      unfolding serve_step served-IsSystem tally
      idle_served q =
          let server : Server D V Ext = record { rq = s.rt.uring; local_queue = s.local_queue } in
          let (typed_sent, typed_kept) =
            Labelled-split lab h.kind now s.local_queue h.typed.of_local in
          let (m, e, ha, hb) =
            server_round_idle ka kb token back now server h.responses
              (subst (Holds ka (queue_a s.rt.uring)) q h.holds_a) h.holds_b
              (omega (arith, on_its_way_fits slab c s h, room, fit)) in
          (
            m,
            served-IsSystem m [] (if now then [] else s.local_queue)
                (if now then s.local_queue else []) false
                (λ j.
                  omega
                    (arith, count_split j now s.local_queue, ap (λ l. tally j (request_ids l)) q))
                ha hb tt typed_kept typed_sent,
            rw e refl,
            refl,
          )

      abbrev Ends : Type 0
      Ends =
          (s' : System D V Ext T S) × (serve_step slab c s token back now true ≡ done s')
          × IsSystem slab c lab ka kb s'
          × (capacity s'.rt.driver ≡ capacity s.rt.driver)

      serve_ends : (xs : List (Sqe D)) → h.requests ≡ xs → Ends
      serve_ends [] q =
          let (m, h', e, _) = idle_served q in
          (served m (if now then [] else s.local_queue) false, e, h', refl)
      serve_ends (sqe ∷ xs) q =
          let leave : Bool = (answer token sqe.payload).0 in
          let queue : List (Rqe (RqeData V)) = enter back (reply token sqe) s.local_queue in
          let (m, h', e, _) = request_served sqe xs q in
          (served m (if leave || now then [] else queue) leave, e, h', refl)

      pub serve_lem : Steps slab c lab ka kb s (serve token back now)
      unfolding step serve_step
      serve_lem = elim (Bool-cases s.running) [
        | inl r ↦ let (s', e, h', kept) = serve_ends h.requests refl in (s', rw r e, h', kept)
        | inr r ↦ (s, rw r refl, h, refl)
      ]
