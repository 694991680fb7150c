-- ===== src/System/Sound.antt =====
-- When client and server of examples/evering-threaded are as they should be: what is on its way, and
-- what belongs together.
use openoscamp_2025s.Base.{ℕ, ◌+◌, ◌≡◌, Bool, Option, none, some, List, [], ◌∷◌, if◌then◌else◌}
use openoscamp_2025s.Slab.{Slab}
use openoscamp_2025s.Driver.{Lifecycle, submitted, waiting, completed, cancelled, RawOp}
use openoscamp_2025s.Op.{Completable}
use openoscamp_2025s.Op.Flight.{IsFlight}
use openoscamp_2025s.Ring.Holds.{Holds}
use openoscamp_2025s.Uring.{queue_a, queue_b}
use openoscamp_2025s.Runtime.{Rqe}
use openoscamp_2025s.Server.{SqeData, RqeData, Sqe, answer}
use openoscamp_2025s.Server.Round.{count}
use openoscamp_2025s.System.{System, tally, unsent_ids, request_ids}

-- What tells a request, a response and the data of an operation that belong together: the answer of
-- the server has the label of its request.
pub record Labels (D V T : Type 0) : Type 0 where
  pub asks : SqeData D → Bool
  pub gives : RqeData V → Bool
  pub wants : T → Bool
  pub gives-answer : (token : D → V) (q : SqeData D) → gives (answer token q).1 ≡ asks q

abbrev pub Labelled : {A : Type 0} → (A → ℕ) → (A → Bool) → (ℕ → Bool) → List A → Type 0
Labelled id_of label kind [] = Unit
Labelled id_of label kind (x ∷ xs) = (label x ≡ kind (id_of x)) × Labelled id_of label kind xs

abbrev pub HandleFits : {T : Type 0} → (T → Bool) → Bool → Option T → Type 0
HandleFits wants k none = Unit
HandleFits wants k (some t) = wants t ≡ k

abbrev pub StateFits : {P R : Type 0} → (P → Bool) → Bool → Lifecycle P R → Type 0
StateFits gives k submitted = Unit
StateFits gives k (waiting w) = Unit
StateFits gives k (completed p) = gives p ≡ k
StateFits gives k (cancelled c) = Unit

abbrev pub EntryFits : {P R Ext : Type 0} → (P → Bool) → Bool → Option (RawOp P R Ext) → Type 0
EntryFits gives k none = Unit
EntryFits gives k (some op) = StateFits gives k op.state

module _ {D V T : Type 0} (lab : Labels D V T) (kind : ℕ → Bool) where
  abbrev pub LabelledUnsent : List (Sqe D × T) → Type 0
  LabelledUnsent l = Labelled (λ p. p.0.id) (λ p. lab.asks p.0.payload) kind l

  abbrev pub LabelledRequests : List (Sqe D) → Type 0
  LabelledRequests l = Labelled (λ sqe. sqe.id) (λ sqe. lab.asks sqe.payload) kind l

  abbrev pub LabelledResponses : List (Rqe (RqeData V)) → Type 0
  LabelledResponses l = Labelled (λ rqe. rqe.id) (λ rqe. lab.gives rqe.payload) kind l

module _ {D V R Ext T O : Type 0} (slab : Slab (RawOp (RqeData V) R Ext))
    (c : Completable T (RqeData V) R Ext O) where
  open slab use {S, get}

  -- How often an id is on its way: as a request that waits or was sent, or as a response that waits
  -- or was sent.
  abbrev pub on_its_way : ℕ → System D V Ext T S → List (Sqe D) → List (Rqe (RqeData V)) → ℕ
  on_its_way j s xs ys =
      tally j (unsent_ids s.unsent) + tally j (request_ids xs) + count j s.local_queue + count j ys

  -- Each id has a label, and all that has to do with it has that label.
  pub record IsTyped (lab : Labels D V T) (kind : ℕ → Bool) (s : System D V Ext T S)
      (xs : List (Sqe D)) (ys : List (Rqe (RqeData V))) : Type 0 where
    pub of_handles : (j : ℕ) → HandleFits lab.wants (kind j) (s.handles j)
    pub of_entries : (j : ℕ) → EntryFits lab.gives (kind j) (get s.rt.driver j)
    pub of_unsent : LabelledUnsent lab kind s.unsent
    pub of_requests : LabelledRequests lab kind xs
    pub of_local : LabelledResponses lab kind s.local_queue
    pub of_responses : LabelledResponses lab kind ys

  -- The rings hold the requests and the responses, and each operation without its response is once
  -- on its way; what belongs together has the same label.
  pub record IsSystem (lab : Labels D V T) (ka kb : ℕ) (s : System D V Ext T S) : Type 0 where
    pub owed : ℕ → Bool
    pub requests : List (Sqe D)
    pub responses : List (Rqe (RqeData V))
    pub flight : IsFlight slab c (record { store = s.rt.driver; handles = s.handles; owed = owed })
    pub each : (j : ℕ) → on_its_way j s requests responses ≡ (if owed j then 1 else 0)
    pub holds_a : Holds ka (queue_a s.rt.uring) requests
    pub holds_b : Holds kb (queue_b s.rt.uring) responses
    pub kind : ℕ → Bool
    pub typed : IsTyped lab kind s requests responses
