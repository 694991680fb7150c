-- ===== src/Driver/Capacity.antt =====
-- No operation of evering/src/driver.rs on an operation in flight changes the room of the store.
use openoscamp_2025s.Base.{
  ℕ, ◌≡◌, ◌≢◌, refl, sym, ap, ◌∙◌, some, List, inl, inr, Option-cases, ==_of_eq,
}
use openoscamp_2025s.Base.Fault.{
  Exec, done, fault, ◌>>=◌, expect, done_injective, done≢fault, Result,
}
use openoscamp_2025s.Base.Future.{Poll}
use openoscamp_2025s.Slab.{Slab}
use openoscamp_2025s.Driver.{
  Cancellation, Lifecycle, submitted, waiting, completed, cancelled, RawOp, submit, poll_state,
  poll, complete_state, complete_ext, remove_state, remove_op, set_state,
}

module _ {P R Ext : Type 0} (slab : Slab (RawOp P R Ext)) where
  open slab use {
    len, capacity-insert, S, get, capacity, remove, get-update, remove_some, capacity-update,
  }

  -- To take an entry out gives its place back, but keeps the places.
  taken-capacity :
      {B : Type 0} (s : S) (id : ℕ) (op : RawOp P R Ext) (f : RawOp P R Ext × S → Exec B)
      (g : B → S) (b : B)
      → get s id ≡ some op
      → ((r : RawOp P R Ext × S) (b' : B) → f r ≡ done b' → g b' ≡ r.1)
      → (expect (remove (set_state slab s id op submitted) id) >>= f) ≡ done b
      → capacity (g b) ≡ capacity s
  taken-capacity s id op f g b e same q =
      let fresh : RawOp P R Ext = record op { state = submitted } in
      let (s', r, d, n, c) =
        remove_some (set_state slab s id op submitted) id fresh
          (get-update s id op fresh id e ∙ rw (==_of_eq id id refl)) in
      ap capacity (same (fresh, s') b (rw r at q)) ∙ c ∙ capacity-update s id fresh

  pub submit-capacity :
      (s : S) (ext : Ext) → len s ≢ capacity s → capacity (submit slab s ext).1 ≡ capacity s
  unfolding submit
  submit-capacity s ext room = capacity-insert s (record { state = submitted; ext = ext }) room

  module _ (s : S) (id : ℕ) where
    poll_state-capacity :
        (waker : ℕ) (op : RawOp P R Ext) (l : Lifecycle P R) (r : Poll (P × Ext) × S)
        → get s id ≡ some op
        → poll_state slab s id waker op l ≡ done r
        → capacity r.1 ≡ capacity s
    unfolding poll_state
    poll_state-capacity waker op submitted r e q =
        ap (λ (x : Poll (P × Ext) × S). capacity x.1) (sym (done_injective q))
        ∙ capacity-update s id _
    poll_state-capacity waker op (waiting w) r e q =
        ap (λ (x : Poll (P × Ext) × S). capacity x.1) (sym (done_injective q))
        ∙ capacity-update s id _
    poll_state-capacity waker op (completed p) r e q =
        taken-capacity s id op _ (λ (x : Poll (P × Ext) × S). x.1) r e
          (λ x b' h. ap (λ (y : Poll (P × Ext) × S). y.1) (sym (done_injective h))) q
    poll_state-capacity waker op (cancelled c) r e q = absurd (done≢fault (sym q))

    pub poll-capacity :
        (waker : ℕ) (r : Poll (P × Ext) × S)
        → poll slab s id waker ≡ done r
        → capacity r.1 ≡ capacity s
    unfolding poll
    poll-capacity waker r q = elim (Option-cases (get s id)) [
      | inl e ↦ absurd (done≢fault (sym (rw e at q)))
      | inr (op, e) ↦ poll_state-capacity waker op op.state r e (rw e at q)
    ]

    abbrev Completion : Type 0
    Completion = Result (Unit {0}) (P × Ext) × S × List ℕ

    complete_state-capacity :
        (p : P) (op : RawOp P R Ext) (l : Lifecycle P R) (r : Completion)
        → get s id ≡ some op
        → complete_state slab s id p op l ≡ done r
        → capacity r.1 ≡ capacity s
    unfolding complete_state
    complete_state-capacity p op submitted r e q =
        ap (λ (x : Completion). capacity x.1) (sym (done_injective q)) ∙ capacity-update s id _
    complete_state-capacity p op (waiting w) r e q =
        ap (λ (x : Completion). capacity x.1) (sym (done_injective q)) ∙ capacity-update s id _
    complete_state-capacity p op (completed p') r e q = absurd (done≢fault (sym q))
    complete_state-capacity p op (cancelled c) r e q =
        taken-capacity s id op _ (λ (x : Completion). x.1) r e
          (λ x b' h. ap (λ (y : Completion). y.1) (sym (done_injective h))) q

    pub complete_ext-capacity :
        (p : P) (r : Completion) → complete_ext slab s id p ≡ done r → capacity r.1 ≡ capacity s
    unfolding complete_ext
    complete_ext-capacity p r q = elim (Option-cases (get s id)) [
      | inl e ↦ absurd (done≢fault (sym (rw e at q)))
      | inr (op, e) ↦ complete_state-capacity p op op.state r e (rw e at q)
    ]

    cancelled-capacity :
        (callback : Exec (Cancellation R)) (op : RawOp P R Ext) (s' : S)
        → (callback >>= λ c. done (set_state slab s id op (cancelled c))) ≡ done s'
        → capacity s' ≡ capacity s
    cancelled-capacity (done c) op s' q =
        ap capacity (sym (done_injective q)) ∙ capacity-update s id _
    cancelled-capacity (fault x) op s' q = absurd (done≢fault (sym q))

    remove_state-capacity :
        (callback : Exec (Cancellation R)) (op : RawOp P R Ext) (l : Lifecycle P R) (s' : S)
        → get s id ≡ some op
        → remove_state slab s id callback op l ≡ done s'
        → capacity s' ≡ capacity s
    unfolding remove_state
    remove_state-capacity callback op submitted s' e q = cancelled-capacity callback op s' q
    remove_state-capacity callback op (waiting w) s' e q = cancelled-capacity callback op s' q
    remove_state-capacity callback op (completed p) s' e q =
        taken-capacity s id op _ (λ x. x) s' e (λ x b' h. sym (done_injective h)) q
    remove_state-capacity callback op (cancelled c) s' e q = absurd (done≢fault (sym q))

    pub remove_op-capacity :
        (callback : Exec (Cancellation R)) (s' : S)
        → remove_op slab s id callback ≡ done s'
        → capacity s' ≡ capacity s
    unfolding remove_op
    remove_op-capacity callback s' q = elim (Option-cases (get s id)) [
      | inl e ↦ ap capacity (sym (done_injective (rw (e, remove_op) at q)))
      | inr (op, e) ↦ remove_state-capacity callback op op.state s' e (rw (e, remove_op) at q)
    ]
