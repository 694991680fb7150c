-- ===== src/System/Safe.antt =====
-- Client and server together never panic, if the ring of the answers has room for as many operations
-- as the driver admits.
use openoscamp_2025s.Base.{
  ℕ, ◌+◌, ◌-◌, ◌^◌, ◌≤◌, ◌<◌, ◌≡◌, refl, sym, ap, ◌∙◌, subst, true, false, List, [], ◌∷◌, arith,
  length,
}
use openoscamp_2025s.Base.Fault.{done}
use openoscamp_2025s.Slab.{Slab}
use openoscamp_2025s.Driver.{RawOp}
use openoscamp_2025s.Op.{Completable}
use openoscamp_2025s.Op.Flight.{absent}
use openoscamp_2025s.Ring.Holds.{Holds, pow_pos}
use openoscamp_2025s.Uring.{RawUring, queue_a, queue_b, build, size_a}
use openoscamp_2025s.Uring.Build.{sized, build_fresh}
use openoscamp_2025s.Runtime.{Rqe, new_runtime}
use openoscamp_2025s.Server.{Sqe, RqeData}
use openoscamp_2025s.Server.Round.{count}
use openoscamp_2025s.System.Sound.{Labels, EntryFits, IsSystem}
use openoscamp_2025s.System.{
  Act, submit_ext, retry, await, cancel, take_responses, serve, System, run, launch, tally,
}
use openoscamp_2025s.System.Client.{Steps, await_lem, cancel_lem}
use openoscamp_2025s.System.Submit.{submit_ext_lem}
use openoscamp_2025s.System.Retry.{retry_lem}
use openoscamp_2025s.System.Receive.{take_responses_lem}
use openoscamp_2025s.System.Serve.{serve_lem}
use openoscamp_2025s.System.Fit.{on_its_way_fits}

-- The closure of a submission makes a request that goes with the data of its operation.
abbrev pub IsMade : {D V Ext T : Type 0} → Labels D V T → Act D V Ext T → Type 0
IsMade lab (submit_ext ext t make waker) =
    (id : ℕ) → lab.asks (make id t).0 ≡ lab.wants (make id t).1
IsMade lab (retry i waker) = Unit
IsMade lab (await id waker) = Unit
IsMade lab (cancel id) = Unit
IsMade lab take_responses = Unit
IsMade lab (serve token back now) = Unit

abbrev pub AreMade : {D V Ext T : Type 0} → Labels D V T → List (Act D V Ext T) → Type 0
AreMade lab [] = Unit
AreMade lab (a ∷ rest) = IsMade lab a × AreMade lab rest

-- The same label for all.
abbrev pub any_label : {D V T : Type 0} → Labels D V T
any_label = record {
  asks = λ q. true;
  gives = λ p. true;
  wants = λ t. true;
  gives-answer = λ token q. refl;
}

any_label-AreMade : {D V Ext T : Type 0} (acts : List (Act D V Ext T)) → AreMade any_label acts
any_label-AreMade [] = tt
any_label-AreMade (submit_ext ext t make waker ∷ rest) = (λ id. refl, any_label-AreMade rest)
any_label-AreMade (retry i waker ∷ rest) = (tt, any_label-AreMade rest)
any_label-AreMade (await id waker ∷ rest) = (tt, any_label-AreMade rest)
any_label-AreMade (cancel id ∷ rest) = (tt, any_label-AreMade rest)
any_label-AreMade (take_responses ∷ rest) = (tt, any_label-AreMade rest)
any_label-AreMade (serve token back now ∷ rest) = (tt, any_label-AreMade rest)

module _ {D V R Ext T O : Type 0} (slab : Slab (RawOp (RqeData V) R Ext))
    (c : Completable T (RqeData V) R Ext O) where
  open slab use {S, get, len, capacity, vacant, get-vacant, len-le-capacity}

  step_lem :
      {lab : Labels D V T} {ka kb : ℕ} (s : System D V Ext T S) (a : Act D V Ext T)
      → IsMade lab a
      → IsSystem slab c lab ka kb s
      → capacity s.rt.driver ≤ 2 ^ kb - 1
      → Steps slab c lab ka kb s a
  step_lem s (submit_ext ext t make waker) made h room =
      submit_ext_lem slab c s h ext t make waker made
  step_lem s (retry i waker) made h room = retry_lem slab c s h waker i
  step_lem s (await id waker) made h room = await_lem slab c s h id waker
  step_lem s (cancel id) made h room = cancel_lem slab c s h id
  step_lem s take_responses made h room = take_responses_lem slab c s h
  step_lem s (serve token back now) made h room =
      serve_lem slab c s h token back now room (len-le-capacity s.rt.driver)

  pub run_lem :
      {lab : Labels D V T} {ka kb : ℕ} (s : System D V Ext T S) (acts : List (Act D V Ext T))
      → AreMade lab acts
      → IsSystem slab c lab ka kb s
      → capacity s.rt.driver ≤ 2 ^ kb - 1
      → (s' : System D V Ext T S) × (run slab c s acts ≡ done s')
        × IsSystem slab c lab ka kb s'
        × (capacity s'.rt.driver ≡ capacity s.rt.driver)
  unfolding run
  run_lem s [] made h room = (s, refl, h, refl)
  run_lem {kb = kb} s (a ∷ rest) (made1, made) h room =
      let (s1, e1, h1, c1) = step_lem s a made1 h room in
      let (s2, e2, h2, c2) =
        run_lem s1 rest made h1 (subst (λ (n : ℕ). n ≤ 2 ^ kb - 1) (sym c1) room) in
      (s2, rw (e1, e2), h2, c2 ∙ c1)

  launch-IsSystem :
      (lab : Labels D V T) {ka kb : ℕ} (m : RawUring (Sqe D) (Rqe (RqeData V)) Ext)
      → Holds ka (queue_a m) []
      → Holds kb (queue_b m) []
      → IsSystem slab c lab ka kb (launch slab c m)
  unfolding launch new_runtime tally count
  launch-IsSystem lab m ha hb = record {
    owed = λ j. false;
    requests = [];
    responses = [];
    flight = λ j. absent (get-vacant (size_a m.header) j) refl refl;
    each = λ j. omega arith;
    holds_a = ha;
    holds_b = hb;
    kind = λ j. true;
    typed = record {
      of_handles = λ j. tt;
      of_entries = λ j. subst (EntryFits lab.gives true) (sym (get-vacant (size_a m.header) j)) tt;
      of_unsent = tt;
      of_requests = tt;
      of_local = tt;
      of_responses = tt;
    };
  }

  launch-capacity :
      (m : RawUring (Sqe D) (Rqe (RqeData V)) Ext)
      → capacity (launch slab c m).rt.driver ≡ capacity (vacant (size_a m.header))
  unfolding launch new_runtime
  launch-capacity m = refl

  -- On fresh rings, any sequence of calls runs through, and leaves labels as they should be.
  pub run_typed :
      (lab : Labels D V T) (ka kb : ℕ) (e : Ext) (acts : List (Act D V Ext T))
      → ka < 32
      → kb < 32
      → capacity (vacant (2 ^ ka)) ≤ 2 ^ kb - 1
      → AreMade lab acts
      → (m : RawUring (Sqe D) (Rqe (RqeData V)) Ext) × (s : System D V Ext T S) × (h : IsSystem slab
          c lab ka kb s)
        × (build (sized ka kb e) ≡ done m)
        × (run slab c (launch slab c m) acts ≡ done s)
        × (length s.unsent + length h.requests + length s.local_queue + length h.responses
            ≤ len s.rt.driver)
        × (len s.rt.driver ≤ capacity (vacant (2 ^ ka)))
  run_typed lab ka kb e acts la lb room made =
      let (m, b, ha, hb, rc) = build_fresh ka kb e la lb in
      let size : size_a m.header ≡ 2 ^ ka = omega (arith, pow_pos ka, ha.masked) in
      let cap : capacity (launch slab c m).rt.driver ≡ capacity (vacant (2 ^ ka)) =
        launch-capacity m ∙ ap (λ (n : ℕ). capacity (vacant n)) size in
      let (s, r, h, kept) =
        run_lem (launch slab c m) acts made (launch-IsSystem lab m ha hb)
          (subst (λ (n : ℕ). n ≤ 2 ^ kb - 1) (sym cap) room) in
      (
        m,
        s,
        h,
        b,
        r,
        on_its_way_fits slab c s h,
        omega (arith, len-le-capacity s.rt.driver, kept, cap),
      )

  -- For rings of `2 ^ ka` and `2 ^ kb` slots, if a driver that is made for `2 ^ ka` operations has
  -- room for less than `2 ^ kb`: client and server, begun on fresh rings, run through any sequence of
  -- their calls without a panic. Then the rings hold a list of requests and one of responses; an
  -- operation whose response did not come back is exactly once among the requests that wait, the
  -- requests in the ring, the answers in the local queue and the responses in the ring, and no other
  -- id is; and all these together are no more than the entries of the driver, which are no more than
  -- it has room for.
  pub system_is_safe :
      (ka kb : ℕ) (e : Ext) (acts : List (Act D V Ext T))
      → ka < 32
      → kb < 32
      → capacity (vacant (2 ^ ka)) ≤ 2 ^ kb - 1
      → (m : RawUring (Sqe D) (Rqe (RqeData V)) Ext) × (s : System D V Ext T S) × (h : IsSystem slab
          c any_label ka kb s)
        × (build (sized ka kb e) ≡ done m)
        × (run slab c (launch slab c m) acts ≡ done s)
        × (length s.unsent + length h.requests + length s.local_queue + length h.responses
            ≤ len s.rt.driver)
        × (len s.rt.driver ≤ capacity (vacant (2 ^ ka)))
  system_is_safe ka kb e acts la lb room =
      run_typed any_label ka kb e acts la lb room (any_label-AreMade acts)
