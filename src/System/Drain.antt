-- ===== src/System/Drain.antt =====
-- Every operation of a client is answered: the server goes on until the ring of the requests is empty
-- and sends what it has, and the client takes the responses.
use mathlib.Core.Bool.{false≢true}
use openoscamp_2025s.Base.{
  ◌⊎◌, inl, inr, none, ℕ, zero, suc, ◌-◌, ◌^◌, ◌≤◌, ◌≡◌, refl, sym, ap, ◌∙◌, Bool, true, false,
  Option, some, List, [], ◌∷◌, arith, length, if◌then◌else◌,
}
use openoscamp_2025s.Base.Fault.{done}
use openoscamp_2025s.Slab.{Slab}
use openoscamp_2025s.Driver.{RawOp, completed, drop_driver}
use openoscamp_2025s.Op.{Completable}
use openoscamp_2025s.Op.Flight.{Fits, absent, flying, answered, orphan}
use openoscamp_2025s.Op.Flight.Safe.{flight-drop_driver}
use openoscamp_2025s.Server.{Sqe, RqeData, ping, answer}
use openoscamp_2025s.Server.Round.{count, AllPings}
use openoscamp_2025s.System.Sound.{Labels, IsSystem}
use openoscamp_2025s.System.{Act, take_responses, serve, System, step, run, tally, serve_step}
use openoscamp_2025s.System.Receive.{responses_taken}
use openoscamp_2025s.System.Serve.{served, request_served, idle_served}

-- A round for each request, a last one, and then the client's turn; each round sends.
abbrev pub drain : {D V Ext T : Type 0} → (D → V) → Bool → ℕ → List (Act D V Ext T)
drain token back zero = serve token back true ∷ take_responses ∷ []
drain token back (suc n) = serve token back true ∷ drain token back n

some_inj : {A : Type 0} {x y : A} → some x ≡ some y → x ≡ y
some_inj e = cc

ping_stays :
    {D V : Type 0} (token : D → V) (sqe : Sqe D) (d : D)
    → sqe.payload ≡ ping d
    → (answer token sqe.payload).0 ≡ false
unfolding answer
ping_stays token sqe d e = rw e refl

settled_completed :
    {P R Ext T : Type 0} (e : Option (RawOp P R Ext)) (held : Option T) (o : Bool)
    → o ≡ false
    → Fits e held o
    → (held ≡ none) ⊎ ((op : RawOp P R Ext) × (p : P) × (e ≡ some op) × (op.state ≡ completed p))
settled_completed e held o n (absent a b c) = inl b
settled_completed e held o n (flying op ws u a l b c) = absurd (false≢true (sym n ∙ c))
settled_completed e held o n (answered op p u a l b c) = inr (op, p, a, l)
settled_completed e held o n (orphan op x a l b c) = absurd (false≢true (sym n ∙ c))

nothing_owed : (o : Bool) (n : ℕ) → n ≡ 0 → n ≡ (if o then 1 else 0) → o ≡ false
nothing_owed true n z e = absurd (omega arith)
nothing_owed false n z e = refl

module _ {D V R Ext T O : Type 0} (slab : Slab (RawOp (RqeData V) R Ext))
    (c : Completable T (RqeData V) R Ext O) (token : D → V) (back : Bool) where
  open slab use {S, get, capacity, len-le-capacity}

  abbrev Drained : Labels D V T → ℕ → ℕ → System D V Ext T S → ℕ → Type 0
  Drained lab ka kb s n =
      (s' : System D V Ext T S) × (h' : IsSystem slab c lab ka kb s') × (run slab c s
          (drain token back n)
        ≡ done s')
      × ((j : ℕ) → h'.owed j ≡ false)

  -- With everything sent, the client has nothing to wait for when it has taken the responses.
  taken_last :
      {lab : Labels D V T} {ka kb : ℕ} (s : System D V Ext T S) (h : IsSystem slab c lab ka kb s)
      → h.requests ≡ []
      → s.unsent ≡ []
      → s.local_queue ≡ []
      → (s' : System D V Ext T S) × (h' : IsSystem slab c lab ka kb s') × (run slab c s
            (take_responses ∷ [])
          ≡ done s')
        × ((j : ℕ) → h'.owed j ≡ false)
  unfolding run tally count
  taken_last s h r u l =
      let (rt, h', e, r', y', _) = responses_taken slab c s h in
      (
        record s { rt = rt },
        h',
        rw e refl,
        λ j. nothing_owed (h'.owed j) _ (rw (u, r', r, l, y') refl) (h'.each j),
      )

  serve_on :
      (s : System D V Ext T S)
      → s.running ≡ true
      → step slab c s (serve token back true) ≡ serve_step slab c s token back true true
  unfolding step
  serve_on s on = ap (serve_step slab c s token back true) on

  drained :
      {lab : Labels D V T} {ka kb : ℕ} (xs : List (Sqe D)) (s : System D V Ext T S)
      (h : IsSystem slab c lab ka kb s)
      → h.requests ≡ xs
      → AllPings xs
      → s.unsent ≡ []
      → s.running ≡ true
      → capacity s.rt.driver ≤ 2 ^ kb - 1
      → Drained lab ka kb s (length xs)
  unfolding run
  drained [] s h q pings u on room =
      let (m, h1, e, r1) =
        idle_served slab c s h token back true room (len-le-capacity s.rt.driver) q in
      let (s', h', e', owed) = taken_last (served slab c s h m [] false) h1 r1 u refl in
      (s', h', rw (serve_on s on ∙ e) e', owed)
  drained (sqe ∷ xs) s h q ((d, p), pings) u on room =
      let (m, h1, e, r1) =
        request_served slab c s h token back true room (len-le-capacity s.rt.driver) sqe xs q in
      let l : (answer token sqe.payload).0 ≡ false = ping_stays token sqe d p in
      let (s', h', e', owed) = drained xs _ h1 r1 pings u (rw l refl) room in
      (s', h', rw (serve_on s on ∙ e) e', owed)

  -- From any state of client and server in which every submission has sent its request, the server
  -- runs, no request asks it to exit, and the ring of the answers has room for as many operations as
  -- the driver: after a round of the server for each request and one more, each of which draws to
  -- send, and a turn of the client, no call has panicked, each operation whose handle is alive has
  -- its response, and to drop the driver does not panic.
  pub all_answered :
      (lab : Labels D V T) (ka kb : ℕ) (s : System D V Ext T S) (h : IsSystem slab c lab ka kb s)
      → AllPings h.requests
      → s.unsent ≡ []
      → s.running ≡ true
      → capacity s.rt.driver ≤ 2 ^ kb - 1
      → (s' : System D V Ext T S) × (run slab c s (drain token back (length h.requests)) ≡ done s')
        × ((j : ℕ)
            → (s'.handles j ≡ none)
              ⊎ ((op : RawOp (RqeData V) R Ext) × (p : RqeData V) × (get s'.rt.driver j ≡ some op)
                  × (op.state ≡ completed p)))
        × (drop_driver slab s'.rt.driver ≡ done tt)
  all_answered lab ka kb s h pings u on room =
      let (s', h', e, owed) = drained h.requests s h refl pings u on room in
      (
        s',
        e,
        λ j.
            settled_completed (get s'.rt.driver j) (s'.handles j) (h'.owed j) (owed j)
              (h'.flight j),
        (flight-drop_driver slab c
              (record { store = s'.rt.driver; handles = s'.handles; owed = h'.owed }) h'.flight).1
            owed,
      )
