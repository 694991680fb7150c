-- ===== src/Driver/Room.antt =====
-- The room in the store of evering/src/driver.rs: a completed operation holds its place until it is
-- polled.
use openoscamp_2025s.Base.{ℕ, ◌+◌, ◌≡◌, refl, ◌∙◌, ◌≢◌, some, [], ◌∷◌, ==_of_eq, ==_of_ne}
use openoscamp_2025s.Base.Fault.{done, ok, err}
use openoscamp_2025s.Base.Future.{ready}
use openoscamp_2025s.Slab.{Slab}
use openoscamp_2025s.Driver.{
  Lifecycle, submitted, waiting, completed, RawOp, submit, try_submit, poll, poll_state, complete,
  complete_ext, complete_state, set_state,
}

module _ {P R Ext : Type 0} (slab : Slab (RawOp P R Ext)) (s : Slab.S slab) where
  open slab use {
    get, len, capacity, update, remove, get-update, remove_some, len-update, capacity-update,
  }

  pub try_submit_full : (ext : Ext) → len s ≡ capacity s → try_submit slab s ext ≡ (err ext, s)
  unfolding try_submit
  try_submit_full ext full = rw (==_of_eq (len s) (capacity s) full)

  pub try_submit_room :
      (ext : Ext)
      → len s ≢ capacity s
      → try_submit slab s ext ≡ (ok (submit slab s ext).0, (submit slab s ext).1)
  unfolding try_submit
  try_submit_room ext room = rw (==_of_ne (len s) (capacity s) room)

  module _ (id : ℕ) (op : RawOp P R Ext) (e : get s id ≡ some op) where
    pub complete_waiting :
        (v : ℕ) (p : P)
        → op.state ≡ waiting v
        → complete slab s id p ≡ done (ok tt, set_state slab s id op (completed p), v ∷ [])
    unfolding complete complete_ext complete_state
    complete_waiting v p l = rw (e, l)

    pub set_state-len : (l : Lifecycle P R) → len (set_state slab s id op l) ≡ len s
    set_state-len l = len-update s id (record op { state = l })

    pub set_state-capacity : (l : Lifecycle P R) → capacity (set_state slab s id op l) ≡ capacity s
    set_state-capacity l = capacity-update s id (record op { state = l })

    pub set_state-get :
        (l : Lifecycle P R) → get (set_state slab s id op l) id ≡ some (record op { state = l })
    set_state-get l = get-update s id op (record op { state = l }) id e ∙ rw (==_of_eq id id refl)

    -- The poll of a completed operation gives its place back.
    pub poll_makes_room :
        (waker : ℕ) (p : P)
        → op.state ≡ completed p
        → (s' : Slab.S slab) × (poll slab s id waker ≡ done (ready (p, op.ext), s'))
          × (len s' + 1 ≡ len s)
          × (capacity s' ≡ capacity s)
    unfolding poll poll_state
    poll_makes_room waker p l =
        let taken = set_state slab s id op submitted in
        let (s', r, d, n, c) =
          remove_some taken id (record op { state = submitted }) (set_state-get submitted) in
        (s', rw (e, l, r), n ∙ set_state-len submitted, c ∙ set_state-capacity submitted)
