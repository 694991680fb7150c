-- ===== src/Op/Capacity.antt =====
-- The calls of evering/src/op.rs keep the room of the driver, as those of evering/src/driver.rs do.
use openoscamp_2025s.Base.{ℕ, ◌≡◌, refl, sym, ap, ◌∙◌, Option, none, some, inl, inr}
use openoscamp_2025s.Base.Fault.{done, done_injective, done≢fault, Exec-cases}
use openoscamp_2025s.Base.Future.{Poll, ready, pending}
use openoscamp_2025s.Slab.{Slab}
use openoscamp_2025s.Driver.{RawOp, poll}
use openoscamp_2025s.Driver.Capacity.{poll-capacity, remove_op-capacity}
use openoscamp_2025s.Op.{Completable, Op, poll_op, drop_op, cancel_data}

module _ {T P R Ext O : Type 0} (slab : Slab (RawOp P R Ext)) (c : Completable T P R Ext O) where
  open slab use {S, capacity}

  poll_op-capacity_of :
      (s : S) (op : Op T) (waker : ℕ) (x : Poll (P × Ext)) (s1 : S) (t : Option T)
      (r : Poll O × S × Op T)
      → poll slab s op.id waker ≡ done (x, s1)
      → op.payload ≡ t
      → poll_op slab c s op waker ≡ done r
      → capacity r.1 ≡ capacity s
  unfolding poll_op
  poll_op-capacity_of s op waker pending s1 t r e d q =
      ap (λ (y : Poll O × S × Op T). capacity y.1) (sym (done_injective (rw e at q)))
      ∙ poll-capacity slab s op.id waker (pending, s1) e
  poll_op-capacity_of s op waker (ready x) s1 none r e d q =
      absurd (done≢fault (sym (rw (e, d) at q)))
  poll_op-capacity_of s op waker (ready x) s1 (some t) r e d q =
      ap (λ (y : Poll O × S × Op T). capacity y.1) (sym (done_injective (rw (e, d) at q)))
      ∙ poll-capacity slab s op.id waker (ready x, s1) e

  pub poll_op-capacity :
      (s : S) (op : Op T) (waker : ℕ) (r : Poll O × S × Op T)
      → poll_op slab c s op waker ≡ done r
      → capacity r.1 ≡ capacity s
  unfolding poll_op
  poll_op-capacity s op waker r q = elim (Exec-cases (poll slab s op.id waker)) [
    | inl (x, e) ↦ poll_op-capacity_of s op waker x.0 x.1 op.payload r e refl q
    | inr (x, e) ↦ absurd (done≢fault (sym (rw e at q)))
  ]

  pub drop_op-capacity :
      (s : S) (op : Op T) (s' : S) → drop_op slab c s op ≡ done s' → capacity s' ≡ capacity s
  unfolding drop_op
  drop_op-capacity s op s' q = remove_op-capacity slab s op.id (cancel_data slab c op) s' q
