-- ===== src/Uring/Life/Drop.antt =====
-- `Drop` of an end of evering/src/uring.rs: the first only counts down, the second frees.
use openoscamp_2025s.Base.{ℕ, ◌+◌, ◌≡◌, none, some, List, [], arith, length, ==_of_eq}
use openoscamp_2025s.Base.Fault.{done, ok, err}
use openoscamp_2025s.Ring.Holds.{Holds, pow_pos}
use openoscamp_2025s.Ring.Bulk.{drop_in_place_lem}
use openoscamp_2025s.Uring.{
  RawUring, queue_a, queue_b, store_rc, dispose, drop_end, still_connected,
}

module _ {A B Ext : Type 0} (ka kb : ℕ) (m : RawUring A B Ext) where
  -- With another owner left, an end gives up its share of the region and drops nothing.
  pub dispose_connected : m.header.rc ≡ 2 → dispose m ≡ done (err still_connected, store_rc m 1)
  unfolding dispose
  dispose_connected e = rw e

  pub drop_end_connected : m.header.rc ≡ 2 → drop_end m ≡ done ([], [], some (store_rc m 1))
  unfolding drop_end
  drop_end_connected e = rw (dispose_connected e)

  module _ (xs : List A) (ys : List B) (ha : Holds ka (queue_a m) xs)
      (hb : Holds kb (queue_b m) ys) where
    -- The last owner drops what both queues hold.
    pub dispose_last : m.header.rc ≡ 1 → dispose m ≡ done (ok (xs, ys), store_rc m 0)
    unfolding dispose
    dispose_last e =
        rw (e, drop_in_place_lem ka (queue_a m) xs ha, drop_in_place_lem kb (queue_b m) ys hb)

    -- The buffers go back with the lengths that they were allocated with.
    pub drop_end_last : m.header.rc ≡ 1 → drop_end m ≡ done (xs, ys, none)
    unfolding drop_end
    drop_end_last e = rw (
      dispose_last e,
      ==_of_eq (length m.buf_a) (m.header.off_a.ring_mask + 1)
          (omega (arith, ha.storage, ha.masked, pow_pos ka)),
      ==_of_eq (length m.buf_b) (m.header.off_b.ring_mask + 1)
          (omega (arith, hb.storage, hb.masked, pow_pos kb)),
    )
