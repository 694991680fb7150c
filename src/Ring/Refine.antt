-- ===== src/Ring/Refine.antt =====
-- One operation at a time, a queue of evering/src/uring.rs is the bounded list of Fifo.antt.
use native.Mathlib.Nat.{mod-lt, mod-add-mod}
use openoscamp_2025s.Base.{
  ℕ, suc, ◌+◌, ◌-◌, ◌%◌, ◌^◌, ◌<◌, ◌≡◌, sym, ap, ◌∙◌, subst, ◌≢◌, some, List, [], ◌∷◌, ◌++◌, arith,
  length, length-append, set, length-set, ◌==◌, ==_of_eq, ==_of_ne, lt→ltb, ℕ_discrete,
}
use openoscamp_2025s.Base.Bits.{bit_and-mask, sub_word}
use openoscamp_2025s.Base.Fault.{done, ok, err}
use openoscamp_2025s.Fifo.{push, pop}
use openoscamp_2025s.Ring.{Queue, inc, store_tail, store_head, enqueue, dequeue, len}
use openoscamp_2025s.Ring.Holds.{
  Window, Holds, pow_pos, pow_le_half, wrap_ne, meet_test, wrap_round, step_add, inc_lem,
  mask_is_power, Window-push, mod_once,
}

module _ {ℓ} {A : Type ℓ} (q : Queue A) where
  -- The queue after a value has been written at the tail and published.
  abbrev pub pushed : A → Queue A
  pushed v = store_tail (record q { buf = set q.buf q.off.tail (some v) }) (inc q.off q.off.tail)

  -- The queue after its oldest value has been read and the slot given back.
  abbrev pub popped : Queue A
  popped = store_head q (inc q.off q.off.head)

module _ {ℓ} {A : Type ℓ} (k : ℕ) (q : Queue A) (xs : List A) (h : Holds k q xs) where
  open h use {narrow, masked, storage, head_in, tail_at, room, slots}

  pub tail_in : q.off.tail < 2 ^ k
  tail_in = rw tail_at (mod-lt (q.off.head + length xs) (pow_pos k))

  pub next_tail_lem : inc q.off q.off.tail ≡ (q.off.head + suc (length xs)) % 2 ^ k
  next_tail_lem =
      inc_lem k q.off q.off.tail narrow masked tail_in
      ∙ ap (λ (t : ℕ). (t + 1) % 2 ^ k) tail_at
      ∙ mod-add-mod (q.off.head + length xs) (2 ^ k) 1
      ∙ ap (λ (t : ℕ). t % 2 ^ k) (omega arith)

  -- The next tail meets the head exactly when all but one slot are taken.
  pub full_test : (inc q.off q.off.tail == q.off.head) ≡ (length xs == 2 ^ k - 1)
  full_test = elim (ℕ_discrete (suc (length xs)) (2 ^ k)) [
    | yes e ↦
        let meets : inc q.off q.off.tail ≡ q.off.head =
          next_tail_lem
          ∙ ap (λ (t : ℕ). (q.off.head + t) % 2 ^ k) e
          ∙ wrap_round (2 ^ k) q.off.head head_in in
        ==_of_eq _ _ meets ∙ sym (==_of_eq (length xs) (2 ^ k - 1) (omega arith))
    | no ne ↦
        let apart : inc q.off q.off.tail ≢ q.off.head = λ e.
          wrap_ne (2 ^ k) q.off.head (suc (length xs)) head_in (omega arith) (omega arith)
            (sym next_tail_lem ∙ e) in
        ==_of_ne _ _ apart ∙ sym (==_of_ne (length xs) (2 ^ k - 1) (omega (arith, pow_pos k)))
  ]

  pub Holds-pushed : (v : A) → length xs ≢ 2 ^ k - 1 → Holds k (pushed q v) (xs ++ (v ∷ []))
  Holds-pushed v space = record {
    narrow = narrow;
    masked = masked;
    storage = length-set q.buf q.off.tail (some v) ∙ storage;
    head_in = head_in;
    tail_at =
        next_tail_lem
        ∙ ap (λ (t : ℕ). (q.off.head + t) % 2 ^ k) (omega (arith, length-append xs (v ∷ [])));
    room = omega (arith, length-append xs (v ∷ []));
    slots = rw tail_at (Window-push q.buf (2 ^ k) q.off.head v xs storage head_in room slots);
  }

  enqueue_full : (v : A) → length xs ≡ 2 ^ k - 1 → enqueue q v ≡ done (err v, q)
  unfolding enqueue
  enqueue_full v e =
      rw (mask_is_power k q.off narrow masked, full_test, ==_of_eq (length xs) (2 ^ k - 1) e)

  enqueue_space : (v : A) → length xs ≢ 2 ^ k - 1 → enqueue q v ≡ done (ok tt, pushed q v)
  unfolding enqueue
  enqueue_space v ne = rw (
    mask_is_power k q.off narrow masked,
    full_test,
    ==_of_ne (length xs) (2 ^ k - 1) ne,
    storage,
    lt→ltb _ _ tail_in,
  )

  -- `len` counts the values.
  pub len-eq-length : len q ≡ length xs
  unfolding len
  len-eq-length =
      rw (masked, bit_and-mask, tail_at)
        (sub_word 32 k ((q.off.head + length xs) % 2 ^ k) q.off.head (length xs) (omega arith)
          (omega (arith, pow_le_half k narrow)) room
          (mod_once (2 ^ k) q.off.head (length xs) head_in room))

  -- A queue is empty exactly when its offsets meet.
  pub empty_test : (q.off.head == q.off.tail) ≡ (length xs == 0)
  empty_test = rw tail_at (meet_test (2 ^ k) q.off.head (length xs) head_in room)

  -- `enqueue` refuses a value, and hands it back, exactly if the queue has `size - 1` values, and
  -- puts it behind them else.
  pub enqueue_refines :
      (v : A)
      → (q' : Queue A) × (enqueue q v ≡ done ((push (2 ^ k - 1) xs v).0, q'))
        × Holds k q' (push (2 ^ k - 1) xs v).1
  unfolding push
  enqueue_refines v = elim (ℕ_discrete (length xs) (2 ^ k - 1)) [
    | yes e ↦ rw (==_of_eq (length xs) (2 ^ k - 1) e) (q, enqueue_full v e, h)
    | no ne ↦
        rw (==_of_ne (length xs) (2 ^ k - 1) ne) (pushed q v, enqueue_space v ne, Holds-pushed v ne)
  ]

module _ {ℓ} {A : Type ℓ} (k : ℕ) (q : Queue A) where
  pub Holds-popped : (x : A) (xs : List A) → Holds k q (x ∷ xs) → Holds k (popped q) xs
  Holds-popped x xs h = record {
    narrow = h.narrow;
    masked = h.masked;
    storage = h.storage;
    head_in = rw next_head (mod-lt (q.off.head + 1) (pow_pos k));
    tail_at =
        h.tail_at
        ∙ sym (step_add (2 ^ k) q.off.head (length xs))
        ∙ ap (λ (t : ℕ). (t + length xs) % 2 ^ k) (sym next_head);
    room = omega (arith, h.room);
    slots = subst (λ t. Window q.buf (2 ^ k) t xs) (sym next_head) (h.slots).1;
  }
    where
      next_head : inc q.off q.off.head ≡ (q.off.head + 1) % 2 ^ k
      next_head = inc_lem k q.off q.off.head h.narrow h.masked h.head_in

  -- `dequeue` takes the oldest value, if there is one.
  pub dequeue_refines :
      (xs : List A)
      → Holds k q xs
      → (q' : Queue A) × (dequeue q ≡ done ((pop xs).0, q')) × Holds k q' (pop xs).1
  unfolding dequeue pop
  dequeue_refines [] h = (q, rw (mask_is_power k q.off h.narrow h.masked, empty_test k q [] h), h)
  dequeue_refines (x ∷ xs) h = (
    popped q,
    rw (
      mask_is_power k q.off h.narrow h.masked,
      empty_test k q (x ∷ xs) h,
      ==_of_ne (suc (length xs)) 0 (omega arith),
      (h.slots).0,
    ),
    Holds-popped x xs h,
  )
