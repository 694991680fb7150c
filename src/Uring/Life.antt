-- ===== src/Uring/Life.antt =====
-- The life of a connection of evering/src/uring.rs: the two ends send, receive and are dropped in
-- any order, an operation run as a whole. An end that has been dropped does nothing more (it is
-- moved into `drop`).
pub mod Drop
pub mod Keep
pub mod Account
mod Tests
use openoscamp_2025s.Base.{
  ℕ, zero, suc, ◌+◌, ◌-◌, ◌%◌, ◌^◌, ◌≤◌, ◌<◌, ◌≡◌, refl, sym, ap, ◌∙◌, Bool, true, false, Option,
  none, some, List, [], ◌∷◌, ◌++◌, arith, length, append-nil, append_assoc, if◌then◌else◌, ◌==◌,
  ==_of_eq, ==_of_ne, leb,
}
use openoscamp_2025s.Base.Fault.{Exec, done, fault, ◌>>=◌, access, Result, ok, err}
use openoscamp_2025s.Fifo.{push, pop}
use openoscamp_2025s.Ring.{Queue, enqueue, dequeue, drop_in_place}
use openoscamp_2025s.Ring.Holds.{Holds}
use openoscamp_2025s.Ring.Refine.{enqueue_refines, dequeue_refines}
use openoscamp_2025s.Ring.Bulk.{drop_in_place_lem}
use openoscamp_2025s.Uring.{
  Header, RawUring, Uring, queue_a, queue_b, uring_a, uring_b, put_queue_a, put_queue_b, send, recv,
  dispose, drop_end, still_connected,
}

-- The region, who still owns it, and what has become of the values: `lost` are those that were
-- dropped with the region.
pub record World (A B Ext : Type 0) : Type 0 where
  pub region : Option (RawUring A B Ext)
  pub has_a : Bool
  pub has_b : Bool
  pub sent_a : List A
  pub got_a : List A
  pub lost_a : List A
  pub sent_b : List B
  pub got_b : List B
  pub lost_b : List B

-- `send_a` and `recv_a` are calls on the end `UringA`.
pub data Act (A B : Type 0) : Type 0 where
  send_a : A → Act A B
  send_b : B → Act A B
  recv_a recv_b drop_a drop_b : Act A B

abbrev pub logged {ℓ κ} : {A : Type ℓ} {E : Type κ} → List A → Result (Unit {0}) E → A → List A
logged l (ok u) v = l ++ (v ∷ [])
logged l (err e) v = l

abbrev pub noted {ℓ} : {A : Type ℓ} → List A → Option A → List A
noted l none = l
noted l (some v) = l ++ (v ∷ [])

module _ {A B Ext : Type 0} where
  pub act : World A B Ext → Act A B → Exec (World A B Ext)
  act w (send_a v) =
      if w.has_a
      then (do
        m ← access w.region
        r ← send uring_a m v
        done (record w { region = some r.1; sent_a = logged w.sent_a r.0 v }))
      else done w
  act w (send_b v) =
      if w.has_b
      then (do
        m ← access w.region
        r ← send uring_b m v
        done (record w { region = some r.1; sent_b = logged w.sent_b r.0 v }))
      else done w
  act w recv_a =
      if w.has_a
      then (do
        m ← access w.region
        r ← recv uring_a m
        done (record w { region = some r.1; got_b = noted w.got_b r.0 }))
      else done w
  act w recv_b =
      if w.has_b
      then (do
        m ← access w.region
        r ← recv uring_b m
        done (record w { region = some r.1; got_a = noted w.got_a r.0 }))
      else done w
  act w drop_a =
      if w.has_a
      then (do
        m ← access w.region
        r ← drop_end m
        done (record w {
          region = r.2;
          has_a = false;
          lost_a = w.lost_a ++ r.0;
          lost_b = w.lost_b ++ r.1;
        }))
      else done w
  act w drop_b =
      if w.has_b
      then (do
        m ← access w.region
        r ← drop_end m
        done (record w {
          region = r.2;
          has_b = false;
          lost_a = w.lost_a ++ r.0;
          lost_b = w.lost_b ++ r.1;
        }))
      else done w

  pub run : World A B Ext → List (Act A B) → Exec (World A B Ext)
  run w [] = done w
  run w (c ∷ cs) = act w c >>= λ w'. run w' cs

-- Does the end that makes the call still exist?
abbrev pub owner : {A B Ext : Type 0} → World A B Ext → Act A B → Bool
owner w (send_a v) = w.has_a
owner w recv_a = w.has_a
owner w drop_a = w.has_a
owner w (send_b v) = w.has_b
owner w recv_b = w.has_b
owner w drop_b = w.has_b

-- Both ends hold a region that `build` has returned.
abbrev pub start : {A B Ext : Type 0} → RawUring A B Ext → World A B Ext
start m = record {
  region = some m;
  has_a = true;
  has_b = true;
  sent_a = [];
  got_a = [];
  lost_a = [];
  sent_b = [];
  got_b = [];
  lost_b = [];
}

abbrev pub count : Bool → ℕ
count true = 1
count false = 0

module _ {A B Ext : Type 0} (ka kb : ℕ) where
  -- A region that both queues live in.
  pub record Live (w : World A B Ext) (m : RawUring A B Ext) (xs : List A) (ys : List B)
      : Type 0 where
    pub region : w.region ≡ some m
    pub ring_a : Holds ka (queue_a m) xs
    pub ring_b : Holds kb (queue_b m) ys
    pub counted : m.header.rc ≡ count w.has_a + count w.has_b
    pub owned : 1 ≤ m.header.rc
    pub kept_a : w.sent_a ≡ w.got_a ++ xs
    pub kept_b : w.sent_b ≡ w.got_b ++ ys
    pub none_lost : (w.lost_a ≡ []) × (w.lost_b ≡ [])

  pub record Freed (w : World A B Ext) : Type 0 where
    pub region : w.region ≡ none
    pub unowned : (w.has_a ≡ false) × (w.has_b ≡ false)
    pub kept_a : w.sent_a ≡ w.got_a ++ w.lost_a
    pub kept_b : w.sent_b ≡ w.got_b ++ w.lost_b

  pub data IsSound (w : World A B Ext) : Type 0 where
    live : (m : RawUring A B Ext) (xs : List A) (ys : List B) → Live w m xs ys → IsSound w
    freed : Freed w → IsSound w

  abbrev pub Keeps : Exec (World A B Ext) → Type 0
  Keeps r = (w : World A B Ext) × (r ≡ done w) × IsSound w
