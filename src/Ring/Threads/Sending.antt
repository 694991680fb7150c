-- ===== src/Ring/Threads/Sending.antt =====
-- No access of the sender goes wrong, and each keeps what the two threads know.
use openoscamp_2025s.Base.{
  ℕ, suc, ◌+◌, ◌%◌, ◌^◌, ◌<◌, ◌≡◌, refl, sym, ap, ◌∙◌, some, List, [], ◌∷◌, ◌++◌, append_assoc,
  arith, length, length-append, get_elem?, set, get_elem?-set_self, length-set, ◌==◌, ne_of_test,
  Bool-cases, inl, inr, lt→ltb,
}
use openoscamp_2025s.Base.Fault.{Exec, done}
use openoscamp_2025s.Ring.{Queue, inc, store_tail}
use openoscamp_2025s.Ring.Holds.{Holds, places_ne, Window-set_out, Window-snoc}
use openoscamp_2025s.Ring.Refine.{tail_in, next_tail_lem}
use openoscamp_2025s.Ring.Threads.{Sender, Receiver, started, wrote, stored, begin_step, send_step}
use openoscamp_2025s.Ring.Threads.Inv.{
  SenderKnows, ReceiverKnows, free_slot, IsBehind_self, ReceiverKnows-grow,
}

module _ {ℓ} {A : Type ℓ} (k : ℕ) (q : Queue A) (xs : List A) (h : Holds k q xs) where
  -- The value is in its slot, and the offset is not yet stored.
  abbrev written : A → Queue A
  written v = record q { buf = set q.buf q.off.tail (some v) }

  Holds-written : (v : A) → Holds k (written v) xs
  Holds-written v = record {
    narrow = h.narrow;
    masked = h.masked;
    storage = length-set q.buf q.off.tail (some v) ∙ h.storage;
    head_in = h.head_in;
    tail_at = h.tail_at;
    room = h.room;
    slots =
        Window-set_out q.buf (2 ^ k) q.off.head q.off.tail (some v) xs
          (λ j lt e.
            places_ne (2 ^ k) q.off.head (length xs) j h.head_in lt h.room (sym h.tail_at ∙ e))
          h.head_in h.slots;
  }

  -- Storing the tail after the write shows the value to the receiver.
  Holds-stored :
      (v : A)
      → suc (length xs) < 2 ^ k
      → get_elem? q.buf q.off.tail ≡ some (some v)
      → Holds k (store_tail q (inc q.off q.off.tail)) (xs ++ (v ∷ []))
  Holds-stored v space e = record {
    narrow = h.narrow;
    masked = h.masked;
    storage = h.storage;
    head_in = h.head_in;
    tail_at =
        next_tail_lem k q xs h
        ∙ ap (λ (t : ℕ). (q.off.head + t) % 2 ^ k) (omega (arith, length-append xs (v ∷ [])));
    room = omega (arith, length-append xs (v ∷ []));
    slots = Window-snoc q.buf (2 ^ k) q.off.head v xs h.head_in h.slots (rw h.tail_at at e);
  }

module _ {ℓ} {A : Type ℓ} (k : ℕ) where
  pub begin_step-knows :
      (q : Queue A) (n : ℕ) (v : A) (p : Sender A)
      → SenderKnows k q n p
      → SenderKnows k q n (begin_step p v)
  unfolding begin_step
  begin_step-knows q n v Sender.idle r = tt
  begin_step-knows q n v (stored tail head) r = r
  begin_step-knows q n v (started u) r = r
  begin_step-knows q n v (Sender.got_tail u tail) r = r
  begin_step-knows q n v (Sender.got_head u tail head) r = r
  begin_step-knows q n v (wrote u tail head) r = r

  -- What an access of the sender gives: its new state, beside an untouched receiver.
  abbrev pub Sends :
      Queue A → List A → List A → List A → Exec (Queue A × Sender A × List A) → Type ℓ
  Sends q xs sent got r =
      (q' : Queue A) × (p' : Sender A) × (sent' : List A) × (ys : List A) × (r
        ≡ done (q', p', sent'))
      × Holds k q' ys
      × (sent' ≡ got ++ ys)
      × SenderKnows k q' (length ys) p'
      × ((c : Receiver A) → ReceiverKnows k q.off.head xs c → ReceiverKnows k q'.off.head ys c)

  pub send_step-Sends :
      (q : Queue A) (xs sent got : List A) (p : Sender A)
      → Holds k q xs
      → sent ≡ got ++ xs
      → SenderKnows k q (length xs) p
      → Sends q xs sent got (send_step q sent p)
  unfolding send_step
  send_step-Sends q xs sent got Sender.idle h e r =
      (q, Sender.idle, sent, xs, refl, h, e, tt, λ c s. s)
  send_step-Sends q xs sent got (started v) h e r =
      (q, Sender.got_tail v q.off.tail, sent, xs, refl, h, e, (refl, tt), λ c s. s)
  send_step-Sends q xs sent got (Sender.got_tail v tail) h e (t, u) = (
    q,
    Sender.got_head v tail q.off.head,
    sent,
    xs,
    refl,
    h,
    e,
    (t, IsBehind_self k q xs h, tt),
    λ c s. s,
  )
  send_step-Sends q xs sent got (Sender.got_head v tail head) h e (t, b, u) =
      elim (Bool-cases (inc q.off tail == head)) [
        | inl full ↦ (q, Sender.idle, sent, xs, rw full, h, e, tt, λ c s. s)
        | inr space ↦
            let inside : q.off.tail < length q.buf = rw h.storage (tail_in k q xs h) in
            (
              written k q xs h v,
              wrote v tail head,
              sent,
              xs,
              rw (space, t, lt→ltb q.off.tail (length q.buf) inside),
              Holds-written k q xs h v,
              e,
              (
                t,
                b,
                free_slot k q xs h head b (ne_of_test _ _ (rw t at space)),
                rw t (get_elem?-set_self q.buf q.off.tail (some v) inside),
              ),
              λ c s. s,
            )
      ]
  send_step-Sends q xs sent got (wrote v tail head) h e (t, b, space, w) = (
    store_tail q (inc q.off tail),
    stored (inc q.off tail) head,
    sent ++ (v ∷ []),
    xs ++ (v ∷ []),
    refl,
    rw t (Holds-stored k q xs h v (omega arith) (rw t at w)),
    rw e (append_assoc got xs (v ∷ [])),
    (
      refl,
      record {
        passed = b.passed;
        head_at = b.head_at;
        fits = omega (arith, length-append xs (v ∷ []));
        head_in = b.head_in;
      },
      tt,
    ),
    λ c s. ReceiverKnows-grow k q q.off.head xs v c s,
  )
  send_step-Sends q xs sent got (stored tail head) h e r =
      (q, Sender.idle, sent, xs, refl, h, e, tt, λ c s. s)
