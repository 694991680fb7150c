-- ===== src/Driver/Steps.antt =====
-- What each operation of evering/src/driver.rs does to the entry of its `OpId`, and that it leaves
-- every other entry alone.
use openoscamp_2025s.Base.{
  ℕ, ◌≡◌, refl, ap, ◌∙◌, Option, none, some, List, [], ◌∷◌, ◌==◌, ==_of_eq, ==_iff, Bool-cases, inl,
  inr, if◌then◌else◌,
}
use openoscamp_2025s.Base.Fault.{Exec, done, fault, panic, ok, err}
use openoscamp_2025s.Slab.{Slab}
use openoscamp_2025s.Base.Future.{ready, pending}
use openoscamp_2025s.Driver.{
  Cancellation, Lifecycle, submitted, waiting, completed, cancelled, RawOp, submit, poll_state,
  poll, complete_state, complete_ext, remove_state, remove_op, set_state,
}

-- An operation without a response whose handle is alive: who is to be woken, if anybody.
pub data IsOpen {P R : Type 0} (l : Lifecycle P R) : List ℕ → Type 0 where
  fresh : l ≡ submitted → IsOpen l []
  waited : (w : ℕ) → l ≡ waiting w → IsOpen l (w ∷ [])

module _ {P R Ext : Type 0} where
  module _ (slab : Slab (RawOp P R Ext)) where
    open slab use {S, get, insert, update, remove, get-insert, get-update, remove_some}

    -- `s'` is `s` but for the entry of `id`.
    abbrev pub Differs : S → S → ℕ → Option (RawOp P R Ext) → Type 0
    Differs s s' id entry = (j : ℕ) → get s' j ≡ (if id == j then entry else get s j)

    pub Differs-here :
        (s s' : S) (id : ℕ) (entry : Option (RawOp P R Ext))
        → Differs s s' id entry
        → get s' id ≡ entry
    Differs-here s s' id entry d = d id ∙ rw (==_of_eq id id refl)

    pub Differs-trans :
        (s s' s'' : S) (id : ℕ) (e f : Option (RawOp P R Ext))
        → Differs s s' id e
        → Differs s' s'' id f
        → Differs s s'' id f
    Differs-trans s s' s'' id e f d d' j = elim (Bool-cases (id == j)) [
      | inl t ↦ rw (d' j, t)
      | inr t ↦ rw (d' j, t, d j, t)
    ]

    pub submit_lem :
        (s : S) (ext : Ext)
        → Differs s
            (submit slab s ext).1
            (submit slab s ext).0
            (some (record { state = submitted; ext = ext }))
    unfolding submit
    submit_lem s ext = get-insert s (record { state = submitted; ext = ext })

    module _ (s : S) (id : ℕ) (op : RawOp P R Ext) (e : get s id ≡ some op) where
      set_state_lem :
          (l : Lifecycle P R)
          → Differs s (set_state slab s id op l) id (some (record op { state = l }))
      set_state_lem l j = get-update s id op (record op { state = l }) j e

      removed :
          (v : RawOp P R Ext)
          → (s' : S) × (remove (update s id v) id ≡ some (v, s')) × Differs s s' id none
      removed v =
          let d : Differs s (update s id v) id (some v) = λ j. get-update s id op v j e in
          let (s', r, f, _, _) =
            remove_some (update s id v) id v (Differs-here s (update s id v) id (some v) d) in
          (s', r, Differs-trans s (update s id v) s' id (some v) none d f)

      -- A poll of an operation without a response registers the waker.
      pub poll_open :
          (ws : List ℕ) (waker : ℕ)
          → IsOpen op.state ws
          → (s' : S) × (poll slab s id waker ≡ done (pending, s'))
            × Differs s s' id (some (record op { state = waiting waker }))
      unfolding poll poll_state
      poll_open ws waker (fresh l) =
          (set_state slab s id op (waiting waker), rw (e, l), set_state_lem (waiting waker))
      poll_open ws waker (waited w l) =
          let kept : ◌≡◌ {A = Lifecycle P R} (if w == waker then waiting w else waiting waker)
              (waiting waker) =
            elim (Bool-cases (w == waker)) [
              | inl t ↦ rw t (ap waiting ((==_iff w waker).0 t))
              | inr t ↦ rw t
            ] in
          (set_state slab s id op (waiting waker), rw (e, l, kept), set_state_lem (waiting waker))

      -- A poll of a completed operation returns the response and the extension, and gives the id
      -- back.
      pub poll_completed :
          (waker : ℕ) (p : P)
          → op.state ≡ completed p
          → (s' : S) × (poll slab s id waker ≡ done (ready (p, op.ext), s')) × Differs s s' id none
      unfolding poll poll_state
      poll_completed waker p l =
          let (s', r, d) = removed (record op { state = submitted }) in (s', rw (e, l, r), d)

      pub complete_open :
          (ws : List ℕ) (p : P)
          → IsOpen op.state ws
          → (s' : S) × (complete_ext slab s id p ≡ done (ok tt, s', ws))
            × Differs s s' id (some (record op { state = completed p }))
      unfolding complete_ext complete_state
      complete_open ws p (fresh l) =
          (set_state slab s id op (completed p), rw (e, l), set_state_lem (completed p))
      complete_open ws p (waited w l) =
          (set_state slab s id op (completed p), rw (e, l), set_state_lem (completed p))

      pub complete_cancelled :
          (p : P) (c : Cancellation R)
          → op.state ≡ cancelled c
          → (s' : S) × (complete_ext slab s id p ≡ done (err (p, op.ext), s', []))
            × Differs s s' id none
      unfolding complete_ext complete_state
      complete_cancelled p c l =
          let (s', r, d) = removed (record op { state = submitted }) in (s', rw (e, l, r), d)

      found :
          (callback : Exec (Cancellation R))
          → remove_op slab s id callback ≡ remove_state slab s id callback op op.state
      unfolding remove_op
      found callback = rw (e, remove_op)

      pub remove_open :
          (ws : List ℕ) (c : Cancellation R)
          → IsOpen op.state ws
          → (s' : S) × (remove_op slab s id (done c) ≡ done s')
            × Differs s s' id (some (record op { state = cancelled c }))
      unfolding remove_state
      remove_open ws c (fresh l) =
          (set_state slab s id op (cancelled c), found (done c) ∙ rw l, set_state_lem (cancelled c))
      remove_open ws c (waited w l) =
          (set_state slab s id op (cancelled c), found (done c) ∙ rw l, set_state_lem (cancelled c))

      pub remove_completed :
          (callback : Exec (Cancellation R)) (p : P)
          → op.state ≡ completed p
          → (s' : S) × (remove_op slab s id callback ≡ done s') × Differs s s' id none
      unfolding remove_state
      remove_completed callback p l =
          let (s', r, d) = removed (record op { state = submitted }) in
          (s', found callback ∙ rw (l, r), d)

      -- The callback that fails lets `remove` fail, if it is run at all.
      pub remove_open_fault :
          (ws : List ℕ) → IsOpen op.state ws → remove_op slab s id (fault panic) ≡ fault panic
      unfolding remove_state
      remove_open_fault ws (fresh l) = found (fault panic) ∙ rw l
      remove_open_fault ws (waited w l) = found (fault panic) ∙ rw l

    pub remove_absent :
        (s : S) (id : ℕ) (callback : Exec (Cancellation R))
        → get s id ≡ none
        → remove_op slab s id callback ≡ done s
    unfolding remove_op
    remove_absent s id callback e = rw (e, remove_op)
