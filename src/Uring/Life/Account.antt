-- ===== src/Uring/Life/Account.antt =====
-- What a connection of evering/src/uring.rs promises its users, over any sequence of calls.
use openoscamp_2025s.Base.{
  ℕ, ◌+◌, ◌-◌, ◌^◌, ◌≤◌, ◌<◌, ◌≡◌, refl, sym, ap, ◌∙◌, ◌↔◌, ◌⊎◌, inl, inr, append-nil, Bool, false,
  Option, none, some, List, [], ◌++◌, arith, length,
}
use openoscamp_2025s.Base.Fault.{Exec, done, ◌>>=◌}
use openoscamp_2025s.Uring.{build}
use openoscamp_2025s.Uring.Build.{sized, build_fresh}
use openoscamp_2025s.Uring.Life.{World, Act, run, start, count, IsSound, live, freed, Keeps}
use openoscamp_2025s.Uring.Life.Keep.{run-Keeps}

-- Where the values of one queue of at most `cap` values are: received, still inside, or dropped with
-- the region, in the order in which they were sent.
pub record Placed {T : Type 0} (cap : ℕ) (is_freed : Type 0) (sent got lost : List T) : Type 0 where
  pub inside : List T
  pub kept : sent ≡ got ++ (inside ++ lost)
  pub room : length inside ≤ cap
  pub lost_if_freed : (lost ≡ []) ⊎ is_freed
  pub empty_if_freed : is_freed → inside ≡ []

pub record IsAccounted {A B Ext : Type 0} (ka kb : ℕ) (w : World A B Ext) : Type 0 where
  pub freed_with_owners : (w.region ≡ none) ↔ ((w.has_a ≡ false) × (w.has_b ≡ false))
  pub values_a : Placed (2 ^ ka - 1) (w.region ≡ none) w.sent_a w.got_a w.lost_a
  pub values_b : Placed (2 ^ kb - 1) (w.region ≡ none) w.sent_b w.got_b w.lost_b

some_ne_none : {T : Type 0} {P : Type 0} {o : Option T} (t : T) → o ≡ some t → o ≡ none → P
some_ne_none t e f = cc

unowned : (a b : Bool) → a ≡ false → b ≡ false → count a + count b ≡ 0
unowned a b ea eb = rw (ea, eb)

IsSound-IsAccounted :
    {A B Ext : Type 0} (ka kb : ℕ) (w : World A B Ext) → IsSound ka kb w → IsAccounted ka kb w
IsSound-IsAccounted ka kb w (live m xs ys l) = record {
  freed_with_owners = (
    (λ f. some_ne_none m l.region f),
    λ u. absurd (omega (arith, unowned w.has_a w.has_b u.0 u.1, l.counted, l.owned)),
  );
  values_a = record {
    inside = xs;
    kept =
        l.kept_a ∙ ap (λ t. w.got_a ++ t) (sym (ap (λ t. xs ++ t) (l.none_lost).0 ∙ append-nil xs));
    room = omega (arith, (l.ring_a).room);
    lost_if_freed = inl (l.none_lost).0;
    empty_if_freed = some_ne_none m l.region;
  };
  values_b = record {
    inside = ys;
    kept =
        l.kept_b ∙ ap (λ t. w.got_b ++ t) (sym (ap (λ t. ys ++ t) (l.none_lost).1 ∙ append-nil ys));
    room = omega (arith, (l.ring_b).room);
    lost_if_freed = inl (l.none_lost).1;
    empty_if_freed = some_ne_none m l.region;
  };
}
IsSound-IsAccounted ka kb w (freed f) = record {
  freed_with_owners = ((λ _. f.unowned), λ _. f.region);
  values_a = record {
    inside = [];
    kept = f.kept_a;
    room = omega arith;
    lost_if_freed = inr f.region;
    empty_if_freed = λ _. refl;
  };
  values_b = record {
    inside = [];
    kept = f.kept_b;
    room = omega arith;
    lost_if_freed = inr f.region;
    empty_if_freed = λ _. refl;
  };
}

module _ {A B Ext : Type 0} (ka kb : ℕ) (e : Ext) (ha : ka < 32) (hb : kb < 32) where
  unfoldable pub history : List (Act A B) → Exec (World A B Ext)
  history cs = build (sized ka kb e) >>= λ m. run (start m) cs

  history-Keeps : (cs : List (Act A B)) → Keeps ka kb (history cs)
  unfolding history
  history-Keeps cs =
      let (m, b, ra, rb, two) = build_fresh {A = A} {B = B} ka kb e ha hb in
      let (w, r, s) = run-Keeps ka kb cs (start m) (
        live m [] [] (record {
          region = refl;
          ring_a = ra;
          ring_b = rb;
          counted = two;
          owned = omega (arith, two);
          kept_a = refl;
          kept_b = refl;
          none_lost = (refl, refl);
        })) in
      (w, rw (b, r), s)

  -- No sequence of sends, receives and drops of the two ends, each used until it is dropped, panics
  -- or misuses memory. After it the region is freed exactly if both ends are dropped; the values
  -- sent are those received, then at most `size - 1` that are inside, then those that were dropped
  -- with the region, in order and each once; values are dropped only with the region, and then none
  -- is left inside.
  pub history-IsAccounted :
      (cs : List (Act A B)) → (w : World A B Ext) × (history cs ≡ done w) × IsAccounted ka kb w
  history-IsAccounted cs = let (w, e, s) = history-Keeps cs in (w, e, IsSound-IsAccounted ka kb w s)
