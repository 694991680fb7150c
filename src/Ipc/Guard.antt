-- ===== src/Ipc/Guard.antt =====
-- The futures of `run_on` of examples/evering-ipc/src/runtime.rs in one thread, of any runtimes: which
-- of them has the thread-local `CX`.
use mathlib.Core.Bool.{false≢true}
use openoscamp_2025s.Base.{
  subst, ℕ, ◌≡◌, ◌≢◌, refl, sym, ap, ◌∙◌, ◌⊎◌, inl, inr, ◌↔◌, Option, none, some, List, [], ◌∷◌,
  ◌==◌, ==_iff, ==_of_ne, Bool-cases,
}
use openoscamp_2025s.Base.Fault.{Exec, done, fault, panic, ◌>>=◌, done≢fault, done_injective}
use openoscamp_2025s.Base.Future.{Poll, ready, pending}
use openoscamp_2025s.Op.Flight.{put}
use openoscamp_2025s.Example.{enter_runtime}
use openoscamp_2025s.Ipc.{RunOnState, unstarted, guarded, finished, poll_run_on, drop_run_on}

-- A poll of the i-th future, whose own future returns r and leaves `CX` alone; or its drop.
pub data GuardAct (A : Type 0) : Type 0 where
  poll_at : ℕ → Poll A → GuardAct A
  drop_at : ℕ → GuardAct A

-- A future that was dropped is as one that is finished.
pub record Thread : Type 0 where
  pub states : ℕ → RunOnState
  pub cx : Option ℕ

abbrev pub fresh_thread : Thread
fresh_thread = record { states = λ i. unstarted; cx = none }

state_cases : (x : RunOnState) → (x ≡ unstarted) ⊎ (x ≡ guarded) ⊎ (x ≡ finished)
state_cases unstarted = inl refl
state_cases guarded = inr (inl refl)
state_cases finished = inr (inr refl)

finished≢guarded : finished ≢ guarded
finished≢guarded e = cc

unstarted≢guarded : unstarted ≢ guarded
unstarted≢guarded e = cc

finished≢unstarted : finished ≢ unstarted
finished≢unstarted e = cc

put_ne : (f : ℕ → RunOnState) (i k : ℕ) (v : RunOnState) → i ≢ k → put f i v k ≡ f k
put_ne f i k v n = rw (==_of_ne i k n) refl

put_self : (f : ℕ → RunOnState) (i : ℕ) (v : RunOnState) → put f i v i ≡ v
put_self f i v = rw ((==_iff i i).1 refl) refl

put_at : (f : ℕ → RunOnState) (i k : ℕ) (v : RunOnState) → i ≡ k → put f i v k ≡ v
put_at f i k v e = subst (λ j. put f i v j ≡ v) e (put_self f i v)

-- One that is not guarded now was not the only one that was.
put_free :
    (f : ℕ → RunOnState) (i : ℕ)
    → ((j : ℕ) → f j ≡ guarded → j ≡ i)
    → (j : ℕ) → put f i finished j ≢ guarded
put_free f i only j e = elim (Bool-cases (i == j)) [
  | inl t ↦ finished≢guarded (rw t at e)
  | inr n ↦
      let q : j ≡ i = only j (rw n at e) in absurd (false≢true (sym n ∙ (==_iff i j).1 (sym q)))
]

put_held :
    (f : ℕ → RunOnState) (i k : ℕ) (v : RunOnState)
    → (v ≡ guarded → i ≡ k)
    → ((j : ℕ) → f j ≡ guarded → j ≡ k)
    → (j : ℕ) → put f i v j ≡ guarded
    → j ≡ k
put_held f i k v own only j e = elim (Bool-cases (i == j)) [
  | inl t ↦ sym ((==_iff i j).0 t) ∙ own (rw t at e)
  | inr n ↦ only j (rw n at e)
]

-- `owner i` is the runtime of the i-th future.
module _ (owner : ℕ → ℕ) where
  abbrev pub IsFree : Thread → Type 0
  IsFree w = (w.cx ≡ none) × ((i : ℕ) → w.states i ≢ guarded)

  abbrev pub IsHeld : Thread → ℕ → Type 0
  IsHeld w k =
      (w.cx ≡ some (owner k)) × (w.states k ≡ guarded) × ((i : ℕ) → w.states i ≡ guarded → i ≡ k)

  -- `CX` is empty and no future has a guard, or it has the runtime of the only one that has.
  abbrev pub IsExclusive : Thread → Type 0
  IsExclusive w = IsFree w ⊎ ((k : ℕ) × IsHeld w k)

  abbrev pub Drops : (f : ℕ → RunOnState) (c : Option ℕ) → ℕ → Type 0
  Drops f c i = IsExclusive (record { states = put f i finished; cx = drop_run_on (f i) c })

  drop_other :
      (f : ℕ → RunOnState) (c : Option ℕ) (i : ℕ)
      → f i ≢ guarded
      → drop_run_on (f i) c ≡ c
      → IsExclusive (record { states = f; cx = c })
      → Drops f c i
  drop_other f c i n kept (inl (e, free)) = inl (kept ∙ e, put_free f i (λ j t. absurd (free j t)))
  drop_other f c i n kept (inr (k, (e, g, only))) = inr (
    k,
    (
      kept ∙ e,
      put_ne f i k finished (λ t. n (ap f t ∙ g)) ∙ g,
      put_held f i k finished (λ t. absurd (finished≢guarded t)) only,
    ),
  )

  pub drops :
      (f : ℕ → RunOnState) (c : Option ℕ) (i : ℕ)
      → IsExclusive (record { states = f; cx = c })
      → Drops f c i
  unfolding drop_run_on
  drops f c i x = elim (state_cases (f i)) [
    | inl q ↦ drop_other f c i (λ t. unstarted≢guarded (sym q ∙ t)) (rw q refl) x
    | inr (inr q) ↦ drop_other f c i (λ t. finished≢guarded (sym q ∙ t)) (rw q refl) x
    | inr (inl q) ↦ elim x [
      | inl free ↦ absurd (free.1 i q)
      | inr (k, held) ↦ inl (rw q refl, put_free f i (λ j t. held.2 j t ∙ sym (held.2 i q)))
    ]
  ]

-- The future is finished, or it is to start while some future has a guard.
abbrev pub IsRefused : Thread → ℕ → Type 0
IsRefused w i =
    (w.states i ≡ finished) ⊎ ((w.states i ≡ unstarted) × ((k : ℕ) × (w.states k ≡ guarded)))

guarded_passes : (w : Thread) (i : ℕ) → w.states i ≡ guarded → ¬ IsRefused w i
guarded_passes w i q (inl t) = finished≢guarded (sym t ∙ q)
guarded_passes w i q (inr (t, _)) = unstarted≢guarded (sym t ∙ q)

free_passes :
    (w : Thread) (i : ℕ)
    → w.states i ≡ unstarted
    → ((j : ℕ) → w.states j ≢ guarded)
    → ¬ IsRefused w i
free_passes w i q free (inl t) = finished≢unstarted (sym t ∙ q)
free_passes w i q free (inr (t, (k, g))) = free k g

module _ {A : Type 0} (strong : ℕ → ℕ) (owner : ℕ → ℕ) where
  unfoldable pub step : Thread → GuardAct A → Exec Thread
  step w (poll_at i r) =
      poll_run_on strong (owner i) (λ cx. done (r, cx)) (w.states i) w.cx >>= λ x.
      done (record { states = put w.states i x.1; cx = x.2 })
  step w (drop_at i) =
      done (record { states = put w.states i finished; cx = drop_run_on (w.states i) w.cx })

  unfoldable pub run : Thread → List (GuardAct A) → Exec Thread
  run w [] = done w
  run w (a ∷ rest) = step w a >>= λ w'. run w' rest

  module _ (alive : (i : ℕ) → strong (owner i) ≢ 0) where
    Polls : Thread → ℕ → Poll A → Type 0
    Polls w i r =
        (IsRefused w i × (step w (poll_at i r) ≡ fault panic))
        ⊎ (¬ IsRefused w i
            × ((w' : Thread) × (step w (poll_at i r) ≡ done w') × IsExclusive owner w'))

    poll_guarded :
        (f : ℕ → RunOnState) (c : Option ℕ) (i k : ℕ) (r : Poll A)
        → f i ≡ guarded
        → IsHeld owner (record { states = f; cx = c }) k
        → Polls (record { states = f; cx = c }) i r
    unfolding Polls step poll_run_on
    poll_guarded f c i k pending q (e, g, only) = inr (
      guarded_passes (record { states = f; cx = c }) i q,
      (
        record { states = put f i guarded; cx = c },
        rw q refl,
        inr (k, (e, put_at f i k guarded (only i q), put_held f i k guarded (λ t. only i q) only)),
      ),
    )
    poll_guarded f c i k (ready a) q (e, g, only) = inr (
      guarded_passes (record { states = f; cx = c }) i q,
      (
        record { states = put f i finished; cx = none },
        rw q refl,
        inl (refl, put_free f i (λ j t. only j t ∙ sym (only i q))),
      ),
    )

    poll_unstarted :
        (f : ℕ → RunOnState) (c : Option ℕ) (i : ℕ) (r : Poll A)
        → f i ≡ unstarted
        → IsFree owner (record { states = f; cx = c })
        → Polls (record { states = f; cx = c }) i r
    unfolding Polls step poll_run_on enter_runtime
    poll_unstarted f c i pending q (e, free) = inr (
      free_passes (record { states = f; cx = c }) i q free,
      (
        record { states = put f i guarded; cx = some (owner i) },
        rw (q, e) refl,
        inr (
          i,
          (
            refl,
            put_at f i i guarded refl,
            put_held f i i guarded (λ t. refl) (λ j t. absurd (free j t)),
          ),
        ),
      ),
    )
    poll_unstarted f c i (ready a) q (e, free) = inr (
      free_passes (record { states = f; cx = c }) i q free,
      (
        record { states = put f i finished; cx = none },
        rw (q, e) refl,
        inl (refl, put_free f i (λ j t. absurd (free j t))),
      ),
    )

    poll_excluded :
        (f : ℕ → RunOnState) (c : Option ℕ) (i k : ℕ) (r : Poll A)
        → f i ≡ unstarted
        → IsHeld owner (record { states = f; cx = c }) k
        → step (record { states = f; cx = c }) (poll_at i r) ≡ fault panic
    unfolding step poll_run_on enter_runtime
    poll_excluded f c i k r q (e, g, only) = rw (q, e, ==_of_ne (strong (owner k)) 0 (alive k)) refl

    poll_finished :
        (f : ℕ → RunOnState) (c : Option ℕ) (i : ℕ) (r : Poll A)
        → f i ≡ finished
        → step (record { states = f; cx = c }) (poll_at i r) ≡ fault panic
    unfolding step poll_run_on
    poll_finished f c i r q = rw q refl

    polls : (w : Thread) (i : ℕ) (r : Poll A) → IsExclusive owner w → Polls w i r
    unfolding Polls
    polls w i r x = elim (state_cases (w.states i)) [
      | inr (inr q) ↦ inl (inl q, poll_finished w.states w.cx i r q)
      | inl q ↦ elim x [
        | inl free ↦ poll_unstarted w.states w.cx i r q free
        | inr (k, held) ↦ inl (inr (q, (k, held.1)), poll_excluded w.states w.cx i k r q held)
      ]
      | inr (inl q) ↦ elim x [
        | inl free ↦ absurd (free.1 i q)
        | inr (k, held) ↦ poll_guarded w.states w.cx i k r q held
      ]
    ]

    run-IsExclusive :
        (w w' : Thread) (acts : List (GuardAct A))
        → IsExclusive owner w
        → run w acts ≡ done w'
        → IsExclusive owner w'
    unfolding run step Polls
    run-IsExclusive w w' [] x e = subst (IsExclusive owner) (done_injective e) x
    run-IsExclusive w w' (drop_at i ∷ rest) x e =
        run-IsExclusive _ w' rest (drops owner w.states w.cx i x) e
    run-IsExclusive w w' (poll_at i r ∷ rest) x e = elim (polls w i r x) [
      | inl (_, q) ↦ absurd (done≢fault (sym (rw q at e)))
      | inr (_, (w1, q, x1)) ↦ run-IsExclusive w1 w' rest x1 (rw q at e)
    ]

    -- Whatever futures of `run_on` a thread polls and drops, of runtimes that are alive, and in whatever
    -- order, if no poll has panicked: `CX` is empty and none of them has a guard, or one of them has, the
    -- only one, and `CX` has its runtime. The next poll of a future panics exactly if it is finished, or
    -- it is to start and another one has the guard.
    pub guards_exclude :
        (acts : List (GuardAct A)) (w : Thread) (i : ℕ) (r : Poll A)
        → run fresh_thread acts ≡ done w
        → IsExclusive owner w × ((step w (poll_at i r) ≡ fault panic) ↔ IsRefused w i)
    unfolding Polls
    guards_exclude acts w i r e =
        let x : IsExclusive owner w =
          run-IsExclusive fresh_thread w acts (inl (refl, λ j. unstarted≢guarded)) e in
        (
          x,
          elim (polls w i r x) [
            | inl (n, q) ↦ (λ t. n, λ t. q)
            | inr (n, (w1, q, _)) ↦ (λ t. absurd (done≢fault (sym q ∙ t)), λ t. absurd (n t))
          ],
        )
