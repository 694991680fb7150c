-- ===== src/Uring/Life/Keep.antt =====
-- Every act on a connection of evering/src/uring.rs succeeds and keeps the account of its values.
use openoscamp_2025s.Base.{
  ℕ, ◌+◌, ◌-◌, ◌^◌, ◌≡◌, refl, sym, ap, ◌∙◌, Bool, true, false, Option, none, some, List, [], ◌∷◌,
  ◌++◌, arith, length, append-nil, append_assoc, inl, inr, Bool-cases, ◌==◌,
}
use openoscamp_2025s.Base.Fault.{done}
use openoscamp_2025s.Fifo.{push, pop}
use openoscamp_2025s.Ring.Refine.{enqueue_refines, dequeue_refines}
use openoscamp_2025s.Uring.{
  RawUring, queue_a, queue_b, put_queue_a, put_queue_b, store_rc, send, recv,
}
use openoscamp_2025s.Uring.Life.{
  World, Act, send_a, send_b, recv_a, recv_b, drop_a, drop_b, act, run, logged, noted, count, owner,
  Live, IsSound, live, freed, Keeps,
}
use openoscamp_2025s.Uring.Life.Drop.{drop_end_connected, drop_end_last}

module _ {T : Type 0} (cap : ℕ) (sent got xs : List T) (e : sent ≡ got ++ xs) where
  logged-push : (v : T) → logged sent (push cap xs v).0 v ≡ got ++ (push cap xs v).1
  unfolding push
  logged-push v = elim (Bool-cases (length xs == cap)) [
    | inl full ↦ rw full e
    | inr space ↦ rw (space, e) (append_assoc got xs (v ∷ []))
  ]

noted-pop :
    {T : Type 0} (sent got xs : List T)
    → sent ≡ got ++ xs
    → sent ≡ noted got (pop xs).0 ++ (pop xs).1
unfolding pop
noted-pop sent got [] e = e
noted-pop sent got (x ∷ xs) e = e ∙ sym (append_assoc got (x ∷ []) xs)

module _ {A B Ext : Type 0} (ka kb : ℕ) (w : World A B Ext) (m : RawUring A B Ext) (xs : List A)
    (ys : List B) (l : Live ka kb w m xs ys) where
  send_a-Keeps : (v : A) → w.has_a ≡ true → Keeps ka kb (act w (send_a v))
  unfolding act send
  send_a-Keeps v own =
      let (q, e, h) = enqueue_refines ka (queue_a m) xs l.ring_a v in
      (
        record w {
          region = some (put_queue_a m q);
          sent_a = logged w.sent_a (push (2 ^ ka - 1) xs v).0 v;
        },
        rw (own, l.region, e),
        live (put_queue_a m q) (push (2 ^ ka - 1) xs v).1 ys (record {
          region = refl;
          ring_a = h;
          ring_b = l.ring_b;
          counted = l.counted;
          owned = l.owned;
          kept_a = logged-push (2 ^ ka - 1) w.sent_a w.got_a xs l.kept_a v;
          kept_b = l.kept_b;
          none_lost = l.none_lost;
        }),
      )

  send_b-Keeps : (v : B) → w.has_b ≡ true → Keeps ka kb (act w (send_b v))
  unfolding act send
  send_b-Keeps v own =
      let (q, e, h) = enqueue_refines kb (queue_b m) ys l.ring_b v in
      (
        record w {
          region = some (put_queue_b m q);
          sent_b = logged w.sent_b (push (2 ^ kb - 1) ys v).0 v;
        },
        rw (own, l.region, e),
        live (put_queue_b m q) xs (push (2 ^ kb - 1) ys v).1 (record {
          region = refl;
          ring_a = l.ring_a;
          ring_b = h;
          counted = l.counted;
          owned = l.owned;
          kept_a = l.kept_a;
          kept_b = logged-push (2 ^ kb - 1) w.sent_b w.got_b ys l.kept_b v;
          none_lost = l.none_lost;
        }),
      )

  recv_a-Keeps : w.has_a ≡ true → Keeps ka kb (act w recv_a)
  unfolding act recv
  recv_a-Keeps own =
      let (q, e, h) = dequeue_refines kb (queue_b m) ys l.ring_b in
      (
        record w { region = some (put_queue_b m q); got_b = noted w.got_b (pop ys).0 },
        rw (own, l.region, e),
        live (put_queue_b m q) xs (pop ys).1 (record {
          region = refl;
          ring_a = l.ring_a;
          ring_b = h;
          counted = l.counted;
          owned = l.owned;
          kept_a = l.kept_a;
          kept_b = noted-pop w.sent_b w.got_b ys l.kept_b;
          none_lost = l.none_lost;
        }),
      )

  recv_b-Keeps : w.has_b ≡ true → Keeps ka kb (act w recv_b)
  unfolding act recv
  recv_b-Keeps own =
      let (q, e, h) = dequeue_refines ka (queue_a m) xs l.ring_a in
      (
        record w { region = some (put_queue_a m q); got_a = noted w.got_a (pop xs).0 },
        rw (own, l.region, e),
        live (put_queue_a m q) (pop xs).1 ys (record {
          region = refl;
          ring_a = h;
          ring_b = l.ring_b;
          counted = l.counted;
          owned = l.owned;
          kept_a = noted-pop w.sent_a w.got_a xs l.kept_a;
          kept_b = l.kept_b;
          none_lost = l.none_lost;
        }),
      )

  -- The world after one end is dropped, with the values that are dropped with the region.
  abbrev gone : Bool → Bool → List A → List B → Option (RawUring A B Ext) → World A B Ext
  gone a b la lb r = record w {
    region = r;
    has_a = a;
    has_b = b;
    lost_a = w.lost_a ++ la;
    lost_b = w.lost_b ++ lb;
  }

  gone_first :
      (a b : Bool) → count a + count b ≡ 1 → IsSound ka kb (gone a b [] [] (some (store_rc m 1)))
  gone_first a b one = live (store_rc m 1) xs ys (record {
    region = refl;
    ring_a = l.ring_a;
    ring_b = l.ring_b;
    counted = sym one;
    owned = omega arith;
    kept_a = l.kept_a;
    kept_b = l.kept_b;
    none_lost = (append-nil w.lost_a ∙ (l.none_lost).0, append-nil w.lost_b ∙ (l.none_lost).1);
  })

  gone_last : (a b : Bool) → a ≡ false → b ≡ false → IsSound ka kb (gone a b xs ys none)
  gone_last a b ea eb = freed (record {
    region = refl;
    unowned = (ea, eb);
    kept_a = l.kept_a ∙ ap (λ t. w.got_a ++ (t ++ xs)) (sym (l.none_lost).0);
    kept_b = l.kept_b ∙ ap (λ t. w.got_b ++ (t ++ ys)) (sym (l.none_lost).1);
  })

  drop_a-Keeps : w.has_a ≡ true → Keeps ka kb (act w drop_a)
  unfolding act
  drop_a-Keeps own = elim (Bool-cases w.has_b) [
    | inl other ↦ (
      gone false w.has_b [] [] (some (store_rc m 1)),
      rw (own, l.region, drop_end_connected ka kb m (rw (own, other) at l.counted)),
      gone_first false w.has_b (rw other),
    )
    | inr alone ↦ (
      gone false w.has_b xs ys none,
      rw (
        own,
        l.region,
        drop_end_last ka kb m xs ys l.ring_a l.ring_b (rw (own, alone) at l.counted),
      ),
      gone_last false w.has_b refl alone,
    )
  ]

  drop_b-Keeps : w.has_b ≡ true → Keeps ka kb (act w drop_b)
  unfolding act
  drop_b-Keeps own = elim (Bool-cases w.has_a) [
    | inl other ↦ (
      gone w.has_a false [] [] (some (store_rc m 1)),
      rw (own, l.region, drop_end_connected ka kb m (rw (own, other) at l.counted)),
      gone_first w.has_a false (rw other),
    )
    | inr alone ↦ (
      gone w.has_a false xs ys none,
      rw (
        own,
        l.region,
        drop_end_last ka kb m xs ys l.ring_a l.ring_b (rw (own, alone) at l.counted),
      ),
      gone_last w.has_a false alone refl,
    )
  ]

  live-Keeps : (c : Act A B) → owner w c ≡ true → Keeps ka kb (act w c)
  live-Keeps (send_a v) own = send_a-Keeps v own
  live-Keeps (send_b v) own = send_b-Keeps v own
  live-Keeps recv_a own = recv_a-Keeps own
  live-Keeps recv_b own = recv_b-Keeps own
  live-Keeps drop_a own = drop_a-Keeps own
  live-Keeps drop_b own = drop_b-Keeps own

module _ {A B Ext : Type 0} where
  act_unowned : (w : World A B Ext) (c : Act A B) → owner w c ≡ false → act w c ≡ done w
  unfolding act
  act_unowned w (send_a v) e = simp e
  act_unowned w (send_b v) e = simp e
  act_unowned w recv_a e = simp e
  act_unowned w recv_b e = simp e
  act_unowned w drop_a e = simp e
  act_unowned w drop_b e = simp e

  freed_owner :
      (w : World A B Ext) (c : Act A B) → w.has_a ≡ false → w.has_b ≡ false → owner w c ≡ false
  freed_owner w (send_a v) a b = a
  freed_owner w (send_b v) a b = b
  freed_owner w recv_a a b = a
  freed_owner w recv_b a b = b
  freed_owner w drop_a a b = a
  freed_owner w drop_b a b = b

module _ {A B Ext : Type 0} (ka kb : ℕ) where
  pub act-Keeps : (w : World A B Ext) (c : Act A B) → IsSound ka kb w → Keeps ka kb (act w c)
  act-Keeps w c (live m xs ys l) = elim (Bool-cases (owner w c)) [
    | inl own ↦ live-Keeps ka kb w m xs ys l c own
    | inr gone_end ↦ (w, act_unowned w c gone_end, live m xs ys l)
  ]
  act-Keeps w c (freed f) =
      (w, act_unowned w c (freed_owner w c (f.unowned).0 (f.unowned).1), freed f)

  pub run-Keeps :
      (cs : List (Act A B)) (w : World A B Ext) → IsSound ka kb w → Keeps ka kb (run w cs)
  unfolding run
  run-Keeps [] w s = (w, refl, s)
  run-Keeps (c ∷ cs) w s =
      let (w1, e1, s1) = act-Keeps w c s in
      let (w2, e2, s2) = run-Keeps cs w1 s1 in (w2, rw (e1, e2), s2)
