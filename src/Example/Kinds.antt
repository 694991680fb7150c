-- ===== src/Example/Kinds.antt =====
-- `ping` and `exit` of examples/evering-threaded/src/op.rs, over the runtime, the rings and the
-- server: an operation meets the response of its own kind.
mod Tests
use mathlib.Core.Bool.{false≢true}
use mathlib.Core.Option.{none-ne-some}
use openoscamp_2025s.Base.{
  ℕ, ◌^◌, ◌-◌, ◌≤◌, ◌<◌, ◌≡◌, refl, sym, ◌∙◌, ap, subst, Bool, true, false, Option, none, some,
  List, ◌⊎◌, inl, inr,
}
use openoscamp_2025s.Base.Fault.{Exec, done, ◌>>=◌}
use openoscamp_2025s.Base.Future.{Poll, ready, pending}
use openoscamp_2025s.Slab.{Slab}
use openoscamp_2025s.Driver.{RawOp, noop, completed}
use openoscamp_2025s.Op.{Op, Completable, completable, new_op, spent, poll_op}
use openoscamp_2025s.Op.Flight.{Fits, absent, flying, answered, orphan}
use openoscamp_2025s.Op.Trip.{poll_op_open, poll_op_completed}
use openoscamp_2025s.Uring.{RawUring, build}
use openoscamp_2025s.Uring.Build.{sized}
use openoscamp_2025s.Runtime.{Rqe}
use openoscamp_2025s.Server.{SqeData, ping, exit, RqeData, exited, pong, Sqe, answer}
use openoscamp_2025s.Example.{complete_ping, complete_exit}
use openoscamp_2025s.System.Sound.{Labels, HandleFits, EntryFits, StateFits, IsSystem}
use openoscamp_2025s.System.{Act, submit_ext, System, run, launch}
use openoscamp_2025s.System.Safe.{AreMade, run_typed}

-- `Ping` on the left and `Exit` on the right, as one type of operations.
abbrev pub Task : Type 0
Task = Unit {0} ⊎ Unit {0}

module _ {V : Type 0} where
  unfoldable pub complete_task : Task → RqeData V → Exec (V ⊎ Unit {0})
  complete_task (inl p) r = complete_ping p r >>= λ token. done (inl token)
  complete_task (inr e) r = complete_exit e r >>= λ u. done (inr u)

  abbrev pub task_op : {R Ext : Type 0} → Completable Task (RqeData V) R Ext (Exec (V ⊎ Unit {0}))
  task_op = completable complete_task (λ t. noop)

  -- What an operation may find: that it has to wait, or its own kind of output.
  abbrev pub Finds : Task → Poll (Exec (V ⊎ Unit {0})) → Type 0
  Finds (inl p) r = (r ≡ pending) ⊎ ((token : V) × (r ≡ ready (done (inl token))))
  Finds (inr e) r = (r ≡ pending) ⊎ (r ≡ ready (done (inr tt)))

module _ {D V Ext : Type 0} where
  -- `ping` and `exit`, which submit.
  abbrev pub ping_act : Ext → D → ℕ → Act D V Ext Task
  ping_act ext delay waker = submit_ext ext (inl tt) (λ id t. (ping delay, t)) waker

  abbrev pub exit_act : Ext → ℕ → Act D V Ext Task
  exit_act ext waker = submit_ext ext (inr tt) (λ id t. (exit, t)) waker

unfoldable pub is_ping : {D : Type 0} → SqeData D → Bool
is_ping exit = false
is_ping (ping delay) = true

unfoldable pub is_pong : {V : Type 0} → RqeData V → Bool
is_pong exited = false
is_pong (pong token) = true

abbrev pub is_ping_task : Task → Bool
is_ping_task (inl p) = true
is_ping_task (inr e) = false

-- The server answers in kind.
pub is_pong-answer :
    {D V : Type 0} (token : D → V) (q : SqeData D) → is_pong (answer token q).1 ≡ is_ping q
unfolding is_pong is_ping answer
is_pong-answer token exit = refl
is_pong-answer token (ping delay) = refl

abbrev pub kinds : {D V : Type 0} → Labels D V Task
kinds = record {
  asks = is_ping;
  gives = is_pong;
  wants = is_ping_task;
  gives-answer = is_pong-answer;
}

some_inj : {A : Type 0} {x y : A} → some x ≡ some y → x ≡ y
some_inj e = cc

done_inj : {A : Type 0} {x y : A} → done x ≡ done y → x ≡ y
done_inj e = cc

-- A response of the kind of the operation.
Finds-complete_task :
    {V : Type 0} (t : Task) (p : RqeData V)
    → is_pong p ≡ is_ping_task t
    → Finds t (ready (complete_task t p))
unfolding complete_task complete_ping complete_exit is_pong
Finds-complete_task (inl u) exited e = absurd (false≢true e)
Finds-complete_task (inl u) (pong token) e = inr (token, refl)
Finds-complete_task (inr u) exited e = inr refl
Finds-complete_task (inr u) (pong token) e = absurd (false≢true (sym e))

Finds-pending : (V : Type 0) (t : Task) → Finds {V = V} t pending
Finds-pending V (inl p) = inl refl
Finds-pending V (inr e) = inl refl

module _ {D V R Ext : Type 0} (slab : Slab (RawOp (RqeData V) R Ext)) where
  open slab use {S, get, capacity, vacant}

  -- In a state of client and server, a handle finds what it waits for.
  found :
      {ka kb : ℕ} (s : System D V Ext Task S) (h : IsSystem slab task_op kinds ka kb s)
      (id waker : ℕ) (t : Task)
      → s.handles id ≡ some t
      → Fits (get s.rt.driver id) (s.handles id) (h.owed id)
      → (r : Poll (Exec (V ⊎ Unit {0})) × S × Op Task) × (poll_op slab task_op s.rt.driver
            (new_op id t)
            waker
          ≡ done r)
        × Finds t r.0
  found s h id waker t e (absent a n o) = absurd (none-ne-some _ (sym n ∙ e))
  found s h id waker t e (orphan op x a l n o) = absurd (none-ne-some _ (sym n ∙ e))
  found s h id waker t e (flying op ws u a l q o) =
      let (d, r, _) = poll_op_open slab task_op s.rt.driver id op t ws waker a l in
      ((pending, d, new_op id t), r, Finds-pending V t)
  found s h id waker t e (answered op p u a l q o) =
      let (d, r, _) = poll_op_completed slab task_op s.rt.driver id op t p waker a l in
      let wanted : is_ping_task t ≡ h.kind id =
        subst (HandleFits is_ping_task (h.kind id)) e (h.typed.of_handles id) in
      let given : is_pong p ≡ h.kind id =
        subst (StateFits is_pong (h.kind id)) l
          (subst (EntryFits is_pong (h.kind id)) a (h.typed.of_entries id)) in
      ((ready (complete_task t p), d, spent id), r, Finds-complete_task t p (given ∙ sym wanted))

  -- In whatever state client and server are after any run of calls from fresh rings, if the driver has
  -- room for less than `2 ^ kb` operations and each submission of a Ping makes a ping request and of an
  -- Exit an exit request: to poll a handle that is alive does not panic, a Ping is pending or returns a
  -- token and an Exit is pending or returns; the `unreachable!()` of their `complete` is not reached.
  pub no_unreachable :
      (ka kb : ℕ) (e : Ext) (acts : List (Act D V Ext Task))
      (m : RawUring (Sqe D) (Rqe (RqeData V)) Ext) (s : System D V Ext Task S) (id waker : ℕ)
      (t : Task)
      → ka < 32
      → kb < 32
      → capacity (vacant (2 ^ ka)) ≤ 2 ^ kb - 1
      → AreMade kinds acts
      → build (sized ka kb e) ≡ done m
      → run slab task_op (launch slab task_op m) acts ≡ done s
      → s.handles id ≡ some t
      → (r : Poll (Exec (V ⊎ Unit {0})) × S × Op Task) × (poll_op slab task_op s.rt.driver
            (new_op id t)
            waker
          ≡ done r)
        × Finds t r.0
  no_unreachable ka kb e acts m s id waker t la lb room made built ran held =
      let (m', s', h, built', ran', _, _) =
        run_typed slab task_op kinds ka kb e acts la lb room made in
      let same_m : m' ≡ m = done_inj (sym built' ∙ built) in
      let same : s' ≡ s =
        done_inj
          (sym ran' ∙ ap (λ m. run slab task_op (launch slab task_op m) acts) same_m ∙ ran) in
      let h' : IsSystem slab task_op kinds ka kb s =
        subst (IsSystem slab task_op kinds ka kb) same h in
      found s h' id waker t held (h'.flight id)
