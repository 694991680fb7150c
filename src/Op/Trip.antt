-- ===== src/Op/Trip.antt =====
-- The life of one operation of evering/src/op.rs, as evering/src/driver.md and op.md tell it, and
-- what goes wrong if a finished operation outlives its id.
use openoscamp_2025s.Base.{
  ℕ, ◌≡◌, refl, sym, ap, ◌∙◌, subst, none, some, List, [], ◌∷◌, ◌==◌, ==_iff, Bool-cases, inl, inr,
}
use openoscamp_2025s.Base.Fault.{done, fault, panic, ok, err}
use openoscamp_2025s.Slab.{Slab}
use openoscamp_2025s.Base.Future.{ready, pending}
use openoscamp_2025s.Driver.{
  submitted, waiting, completed, cancelled, RawOp, submit, poll, complete_ext,
}
use openoscamp_2025s.Driver.Steps.{
  IsOpen, fresh, waited, Differs, Differs-here, Differs-trans, submit_lem, poll_open,
  poll_completed, complete_open, complete_cancelled, remove_open, remove_completed,
  remove_open_fault, remove_absent,
}
use openoscamp_2025s.Op.{Completable, new_op, spent, poll_op, drop_op}

module _ {T P R Ext O : Type 0} (slab : Slab (RawOp P R Ext)) (c : Completable T P R Ext O) where
  open slab use {S, get, insert_vacant}

  pub poll_op_open :
      (s : S) (id : ℕ) (op : RawOp P R Ext) (t : T) (ws : List ℕ) (waker : ℕ)
      → get s id ≡ some op
      → IsOpen op.state ws
      → (s' : S) × (poll_op slab c s (new_op id t) waker ≡ done (pending, s', new_op id t))
        × Differs slab s s' id (some (record op { state = waiting waker }))
  unfolding poll_op
  poll_op_open s id op t ws waker e o =
      let (s', r, d) = poll_open slab s id op e ws waker o in (s', rw r, d)

  pub poll_op_completed :
      (s : S) (id : ℕ) (op : RawOp P R Ext) (t : T) (p : P) (waker : ℕ)
      → get s id ≡ some op
      → op.state ≡ completed p
      → (s' : S) × (poll_op slab c s (new_op id t) waker
          ≡ done (ready (c.complete_ext t p op.ext), s', spent id))
        × Differs slab s s' id none
  unfolding poll_op
  poll_op_completed s id op t p waker e l =
      let (s', r, d) = poll_completed slab s id op e waker p l in (s', rw r, d)

  -- An id that was vacant before it was taken is vacant again: the store is as it was.
  restored :
      (s s' : S) (id : ℕ)
      → get s id ≡ none
      → Differs slab s s' id none
      → (j : ℕ) → get s' j ≡ get s j
  restored s s' id v d j = elim (Bool-cases (id == j)) [
    | inl t ↦ d j ∙ rw t (sym v ∙ ap (get s) ((==_iff id j).0 t))
    | inr t ↦ d j ∙ rw t
  ]

  -- An operation that is submitted, polled, completed and polled again: the first poll is pending,
  -- the completion wakes the task that polled and nobody else, and the second poll returns what the
  -- operation makes of its data, the response and the extension. Then no entry of the driver differs
  -- from before, and to drop the spent handle changes nothing.
  pub complete_trip :
      (s : S) (ext : Ext) (t : T) (p : P) (w w' : ℕ)
      → let (id, s0) = submit slab s ext in
        (s1 s2 s3 : S) × (poll_op slab c s0 (new_op id t) w ≡ done (pending, s1, new_op id t))
        × (complete_ext slab s1 id p ≡ done (ok tt, s2, w ∷ []))
        × (poll_op slab c s2 (new_op id t) w' ≡ done (ready (c.complete_ext t p ext), s3, spent id))
        × ((j : ℕ) → get s3 j ≡ get s j)
        × (drop_op slab c s3 (spent id) ≡ done s3)
  unfolding drop_op submit
  complete_trip s ext t p w w' =
      let id : ℕ = (submit slab s ext).0 in
      let s0 : S = (submit slab s ext).1 in
      let v : get s id ≡ none = insert_vacant s (record { state = submitted; ext = ext }) in
      let d0 : Differs slab s s0 id (some (record { state = submitted; ext = ext })) =
        submit_lem slab s ext in
      let (s1, r1, d1) =
        poll_op_open s0 id (record { state = submitted; ext = ext }) t [] w
          (Differs-here slab s s0 id _ d0) (fresh refl) in
      let (s2, r2, d2) =
        complete_open slab s1 id (record { state = waiting w; ext = ext })
          (Differs-here slab s0 s1 id _ d1) (w ∷ []) p (waited w refl) in
      let (s3, r3, d3) =
        poll_op_completed s2 id (record { state = completed p; ext = ext }) t p w'
          (Differs-here slab s1 s2 id _ d2) refl in
      let e01 : Differs slab s s1 id (some (record { state = waiting w; ext = ext })) =
        Differs-trans slab s s0 s1 id _ _ d0 d1 in
      let e12 : Differs slab s s2 id (some (record { state = completed p; ext = ext })) =
        Differs-trans slab s s1 s2 id _ _ e01 d2 in
      let all : Differs slab s s3 id none = Differs-trans slab s s2 s3 id _ _ e12 d3 in
      (
        s1,
        s2,
        s3,
        r1,
        r2,
        r3,
        restored s s3 id v all,
        remove_absent slab s3 id (fault panic) (Differs-here slab s s3 id none all),
      )

  -- An operation whose handle is dropped before its response: its entry stays, with what `cancel`
  -- recycles, until the response comes, which is handed back with the extension and wakes nobody.
  -- Then no entry of the driver differs from before.
  pub cancel_trip :
      (s : S) (ext : Ext) (t : T) (p : P)
      → let (id, s0) = submit slab s ext in
        (s1 s2 : S) × (drop_op slab c s0 (new_op id t) ≡ done s1)
        × (get s1 id ≡ some (record { state = cancelled (c.cancel t); ext = ext }))
        × (complete_ext slab s1 id p ≡ done (err (p, ext), s2, []))
        × ((j : ℕ) → get s2 j ≡ get s j)
  unfolding drop_op submit
  cancel_trip s ext t p =
      let id : ℕ = (submit slab s ext).0 in
      let s0 : S = (submit slab s ext).1 in
      let v : get s id ≡ none = insert_vacant s (record { state = submitted; ext = ext }) in
      let d0 : Differs slab s s0 id (some (record { state = submitted; ext = ext })) =
        submit_lem slab s ext in
      let (s1, r1, d1) =
        remove_open slab s0 id (record { state = submitted; ext = ext })
          (Differs-here slab s s0 id _ d0) [] (c.cancel t) (fresh refl) in
      let (s2, r2, d2) =
        complete_cancelled slab s1 id (record { state = cancelled (c.cancel t); ext = ext })
          (Differs-here slab s0 s1 id _ d1) p (c.cancel t) refl in
      let e01 : Differs slab s s1 id (some (record { state = cancelled (c.cancel t); ext = ext })) =
        Differs-trans slab s s0 s1 id _ _ d0 d1 in
      (
        s1,
        s2,
        r1,
        Differs-here slab s0 s1 id _ d1,
        r2,
        restored s s2 id v (Differs-trans slab s s1 s2 id _ _ e01 d2),
      )

  -- A handle that is kept after it was ready, while the driver gives its id to another operation:
  -- to drop it while that operation has no response panics.
  pub stale_drop_panics :
      (s s1 : S) (id waker : ℕ) (t : T) (o : O) (ext : Ext)
      → poll_op slab c s (new_op id t) waker ≡ done (ready o, s1, spent id)
      → (submit slab s1 ext).0 ≡ id
      → drop_op slab c (submit slab s1 ext).1 (spent id) ≡ fault panic
  unfolding drop_op
  stale_drop_panics s s1 id waker t o ext r same =
      remove_open_fault slab (submit slab s1 ext).1 id (record { state = submitted; ext = ext })
        (Differs-here slab s1 (submit slab s1 ext).1 id _ (
          subst
            (λ k.
              Differs slab s1 (submit slab s1 ext).1 k
                (some (record { state = submitted; ext = ext })))
            same (submit_lem slab s1 ext)))
        [] (fresh refl)

  -- Once the other operation has its response, to drop the kept handle takes that response away, and
  -- the other operation panics when it is polled.
  pub stale_drop_steals :
      (s s1 : S) (id waker : ℕ) (t : T) (o : O) (ext : Ext) (p : P) (t' : T)
      → poll_op slab c s (new_op id t) waker ≡ done (ready o, s1, spent id)
      → (submit slab s1 ext).0 ≡ id
      → (s2 s3 : S) × (complete_ext slab (submit slab s1 ext).1 id p ≡ done (ok tt, s2, []))
        × (drop_op slab c s2 (spent id) ≡ done s3)
        × (poll_op slab c s3 (new_op id t') waker ≡ fault panic)
  unfolding drop_op poll_op poll
  stale_drop_steals s s1 id waker t o ext p t' r same =
      let taken : S = (submit slab s1 ext).1 in
      let d : Differs slab s1 taken id (some (record { state = submitted; ext = ext })) =
        subst (λ k. Differs slab s1 taken k (some (record { state = submitted; ext = ext }))) same
          (submit_lem slab s1 ext) in
      let (s2, r2, d2) =
        complete_open slab taken id (record { state = submitted; ext = ext })
          (Differs-here slab s1 taken id _ d) [] p (fresh refl) in
      let (s3, r3, d3) =
        remove_completed slab s2 id (record { state = completed p; ext = ext })
          (Differs-here slab taken s2 id _ d2) (fault panic) p refl in
      (s2, s3, r2, r3, rw (Differs-here slab s2 s3 id none d3))
