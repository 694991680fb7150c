-- ===== src/Op/Flight/Step.antt =====
-- A client's calls of evering/src/op.rs and driver.rs, one at a time: each keeps the entries in step
-- with the handles and the responses that are owed.
use mathlib.Core.Bool.{false≢true}
use openoscamp_2025s.Base.{
  ◌⊎◌, ℕ, ◌≡◌, refl, sym, ap, ◌∙◌, subst, Bool, true, false, Option, none, some, List, [], ◌∷◌,
  ◌==◌, ==_iff, Bool-cases, inl, inr,
}
use openoscamp_2025s.Base.Fault.{done, fault, panic, Result, ok, err}
use openoscamp_2025s.Slab.{Slab}
use openoscamp_2025s.Driver.{
  submitted, complete_ext, waiting, completed, cancelled, RawOp, submit, try_submit,
}
use openoscamp_2025s.Driver.Steps.{
  fresh, waited, Differs, Differs-here, submit_lem, complete_open, complete_cancelled, remove_open,
  remove_completed, remove_absent,
}
use openoscamp_2025s.Op.{Completable, drop_op}
use openoscamp_2025s.Op.Trip.{poll_op_open, poll_op_completed}
use openoscamp_2025s.Op.Flight.{
  Act, start, start_if_room, await, cancel, respond, put, World, Fits, absent, flying, answered,
  orphan, started, start_step, await_step, cancel_step, respond_step, step, run, IsFlight,
}

put_self : {A : Type 0} (f : ℕ → A) (id j : ℕ) → put f id (f id) j ≡ f j
put_self f id j = elim (Bool-cases (id == j)) [
  | inl t ↦ rw t (ap f ((==_iff id j).0 t))
  | inr t ↦ rw t
]

module _ {T P R Ext O : Type 0} (slab : Slab (RawOp P R Ext)) (c : Completable T P R Ext O) where
  open slab use {S, get, vacant, get-vacant, every, every_iff}

  -- A call that touches one id keeps the others, whatever it does to the handle and to the debt.
  pub framed :
      (w : World S T) (s : S) (id : ℕ) (e : Option (RawOp P R Ext)) (h : Option T) (o : Bool)
      → IsFlight slab c w
      → Differs slab w.store s id e
      → Fits e h o
      → (j : ℕ) → Fits (get s j) (put w.handles id h j) (put w.owed id o j)
  framed w s id e h o fits d here j = elim (Bool-cases (id == j)) [
    | inl t ↦ rw (d j, t) here
    | inr t ↦ rw (d j, t) (fits j)
  ]

  pub framed_handle :
      (w : World S T) (s : S) (id : ℕ) (e : Option (RawOp P R Ext)) (h : Option T)
      → IsFlight slab c w
      → Differs slab w.store s id e
      → Fits e h (w.owed id)
      → IsFlight slab c (record { store = s; handles = put w.handles id h; owed = w.owed })
  framed_handle w s id e h fits d here j =
      subst (Fits (get s j) (put w.handles id h j)) (put_self w.owed id j)
        (framed w s id e h (w.owed id) fits d here j)

  pub framed_owed :
      (w : World S T) (s : S) (id : ℕ) (e : Option (RawOp P R Ext)) (o : Bool)
      → IsFlight slab c w
      → Differs slab w.store s id e
      → Fits e (w.handles id) o
      → IsFlight slab c (record { store = s; handles = w.handles; owed = put w.owed id o })
  framed_owed w s id e o fits d here j =
      subst (λ h. Fits (get s j) h (put w.owed id o j)) (put_self w.handles id j)
        (framed w s id e (w.handles id) o fits d here j)

  pub framed_entry :
      (w : World S T) (s : S) (id : ℕ) (e : Option (RawOp P R Ext))
      → IsFlight slab c w
      → Differs slab w.store s id e
      → Fits e (w.handles id) (w.owed id)
      → IsFlight slab c (record { store = s; handles = w.handles; owed = w.owed })
  framed_entry w s id e fits d here j =
      subst (λ h. Fits (get s j) h (w.owed j)) (put_self w.handles id j)
        (framed_handle w s id e (w.handles id) fits d here j)

  abbrev Steps : World S T → Act T P Ext → Type 0
  Steps w a = (w' : World S T) × (step slab c w a ≡ done w') × IsFlight slab c w'

  started-IsFlight :
      (w : World S T) (ext : Ext) (t : T)
      → IsFlight slab c w
      → IsFlight slab c (started slab c w (submit slab w.store ext).1 (submit slab w.store ext).0 t)
  started-IsFlight w ext t fits =
      framed w (submit slab w.store ext).1 (submit slab w.store ext).0
        (some (record { state = submitted; ext = ext })) (some t) true fits
        (submit_lem slab w.store ext)
        (flying (record { state = submitted; ext = ext }) [] t refl (fresh refl) refl refl)

  start_if_room_lem :
      (w : World S T) (ext : Ext) (t : T)
      → IsFlight slab c w
      → IsFlight slab c (start_step slab c w t (try_submit slab w.store ext))
  unfolding try_submit start_step
  start_if_room_lem w ext t fits = elim (Bool-cases (slab.len w.store == slab.capacity w.store)) [
    | inl full ↦ rw full fits
    | inr room ↦ rw room (started-IsFlight w ext t fits)
  ]

  await_lem :
      (w : World S T) (id waker : ℕ)
      → IsFlight slab c w
      → Fits (get w.store id) (w.handles id) (w.owed id)
      → Steps w (await id waker)
  unfolding step await_step drop_op
  await_lem w id waker fits (absent e h o) = (w, rw h, fits)
  await_lem w id waker fits (orphan op x e l h o) = (w, rw h, fits)
  await_lem w id waker fits (flying op ws t e l h o) =
      let (s', r, d) = poll_op_open slab c w.store id op t ws waker e l in
      (
        record w { store = s' },
        rw (h, r),
        framed_entry w s' id (some (record op { state = waiting waker })) fits d (
            flying (record op { state = waiting waker }) (waker ∷ []) t refl (waited waker refl) h
              o),
      )
  await_lem w id waker fits (answered op p t e l h o) =
      let (s', r, d) = poll_op_completed slab c w.store id op t p waker e l in
      let q = remove_absent slab s' id (fault panic) (Differs-here slab w.store s' id none d) in
      (
        record w { store = s'; handles = put w.handles id none },
        rw (h, r, q),
        framed_handle w s' id none none fits d (absent refl refl o),
      )

  cancel_lem :
      (w : World S T) (id : ℕ)
      → IsFlight slab c w
      → Fits (get w.store id) (w.handles id) (w.owed id)
      → Steps w (cancel id)
  unfolding step cancel_step drop_op
  cancel_lem w id fits (absent e h o) = (w, rw h, fits)
  cancel_lem w id fits (orphan op x e l h o) = (w, rw h, fits)
  cancel_lem w id fits (flying op ws t e l h o) =
      let (s', r, d) = remove_open slab w.store id op e ws (c.cancel t) l in
      (
        record w { store = s'; handles = put w.handles id none },
        rw (h, r),
        framed_handle w s' id (some (record op { state = cancelled (c.cancel t) })) none fits d
            (orphan (record op { state = cancelled (c.cancel t) }) (c.cancel t) refl refl refl o),
      )
  cancel_lem w id fits (answered op p t e l h o) =
      let (s', r, d) = remove_completed slab w.store id op e (done (c.cancel t)) p l in
      (
        record w { store = s'; handles = put w.handles id none },
        rw (h, r),
        framed_handle w s' id none none fits d (absent refl refl o),
      )

  -- What a response leaves of the entry of its id: nothing, or the operation with the response.
  abbrev pub Answered : P → Option (RawOp P R Ext) → Type 0
  Answered p e =
      (e ≡ none) ⊎ ((op : RawOp P R Ext) × (e ≡ some (record op { state = completed p })))

  -- A response that is owed can be taken.
  pub answer_lem :
      (w : World S T) (id : ℕ) (p : P)
      → IsFlight slab c w
      → w.owed id ≡ true
      → Fits (get w.store id) (w.handles id) (w.owed id)
      → (r : Result (Unit {0}) (P × Ext) × S × List ℕ) × (e : Option (RawOp P R Ext))
        × (complete_ext slab w.store id p ≡ done r)
        × IsFlight slab c (record w { store = r.1; owed = put w.owed id false })
        × Differs slab w.store r.1 id e
        × Answered p e
  answer_lem w id p fits due (absent e h o) = absurd (false≢true (sym o ∙ due))
  answer_lem w id p fits due (answered op q t e l h o) = absurd (false≢true (sym o ∙ due))
  answer_lem w id p fits due (flying op ws t e l h o) =
      let (s', r, d) = complete_open slab w.store id op e ws p l in
      (
        (ok tt, s', ws),
        some (record op { state = completed p }),
        r,
        framed_owed w s' id (some (record op { state = completed p })) false fits d
            (answered (record op { state = completed p }) p t refl refl h refl),
        d,
        inr (op, refl),
      )
  answer_lem w id p fits due (orphan op x e l h o) =
      let (s', r, d) = complete_cancelled slab w.store id op e p x l in
      (
        (err (p, op.ext), s', []),
        none,
        r,
        framed_owed w s' id none false fits d (absent refl h refl),
        d,
        inl refl,
      )

  respond_lem : (w : World S T) (id : ℕ) (p : P) → IsFlight slab c w → Steps w (respond id p)
  unfolding step respond_step
  respond_lem w id p fits = elim (Bool-cases (w.owed id)) [
    | inl due ↦
        let (r, _, e, fits', _, _) = answer_lem w id p fits due (fits id) in
        (record w { store = r.1; owed = put w.owed id false }, rw (due, e), fits')
    | inr none_due ↦ (w, rw none_due, fits)
  ]

  step_lem : (w : World S T) (a : Act T P Ext) → IsFlight slab c w → Steps w a
  unfolding step
  step_lem w (start ext t) fits = (
    started slab c w (submit slab w.store ext).1 (submit slab w.store ext).0 t,
    refl,
    started-IsFlight w ext t fits,
  )
  step_lem w (start_if_room ext t) fits =
      (start_step slab c w t (try_submit slab w.store ext), refl, start_if_room_lem w ext t fits)
  step_lem w (await id waker) fits = await_lem w id waker fits (fits id)
  step_lem w (cancel id) fits = cancel_lem w id fits (fits id)
  step_lem w (respond id p) fits = respond_lem w id p fits

  pub run_lem :
      (w : World S T) (acts : List (Act T P Ext))
      → IsFlight slab c w
      → (w' : World S T) × (run slab c w acts ≡ done w') × IsFlight slab c w'
  unfolding run
  run_lem w [] fits = (w, refl, fits)
  run_lem w (a ∷ rest) fits =
      let (w1, r, fits1) = step_lem w a fits in
      let (w2, r2, fits2) = run_lem w1 rest fits1 in (w2, rw (r, r2), fits2)
