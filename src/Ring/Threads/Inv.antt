-- ===== src/Ring/Threads/Inv.antt =====
-- What the two threads of a queue of evering/src/uring.rs know between their accesses: the sender's
-- head may be behind the ring's, the receiver's tail may be behind, and both are then on the safe side.
use native.Mathlib.Nat.{mod-add-mod}
use openoscamp_2025s.Base.{
  ℕ, suc, ◌+◌, ◌-◌, ◌%◌, ◌^◌, ◌≤◌, ◌<◌, ◌≡◌, sym, ap, ◌∙◌, ◌≢◌, some, List, [], ◌∷◌, ◌++◌, arith,
  length, length-append, get_elem?, ℕ_discrete,
}
use openoscamp_2025s.Ring.{Queue, inc}
use openoscamp_2025s.Ring.Holds.{Holds, wrap_round, first_place, step_add, inc_lem}
use openoscamp_2025s.Ring.Refine.{next_tail_lem, popped}
use openoscamp_2025s.Ring.Threads.{Sender, Receiver, Threads, started, wrote, stored, read, took}

-- The ring's head is at `now`, and it holds `count` values. `head` is that head, or it was before the
-- last `passed` values were taken.
pub record IsBehind (k now count head : ℕ) : Type 0 where
  pub passed : ℕ
  pub head_at : now ≡ (head + passed) % 2 ^ k
  pub fits : passed + count < 2 ^ k
  pub head_in : head < 2 ^ k

-- `tail` is the end of the first `known` values.
pub record IsAhead (k now count tail : ℕ) : Type 0 where
  pub known : ℕ
  pub tail_at : tail ≡ (now + known) % 2 ^ k
  pub inside : known ≤ count

module _ {ℓ} {A : Type ℓ} (k : ℕ) where
  module _ (q : Queue A) (count : ℕ) where
    abbrev pub SenderKnows : Sender A → Type ℓ
    SenderKnows Sender.idle = Unit
    SenderKnows (started v) = Unit
    SenderKnows (Sender.got_tail v tail) = (tail ≡ q.off.tail) × Unit {ℓ}
    SenderKnows (Sender.got_head v tail head) =
        (tail ≡ q.off.tail) × IsBehind k q.off.head count head × Unit {ℓ}
    SenderKnows (wrote v tail head) =
        (tail ≡ q.off.tail)
        × (b : IsBehind k q.off.head count head) × (suc (b.passed + count) < 2 ^ k)
        × (get_elem? q.buf tail ≡ some (some v))
    SenderKnows (stored tail head) =
        (tail ≡ q.off.tail) × IsBehind k q.off.head count head × Unit {ℓ}

  module _ (now : ℕ) (xs : List A) where
    abbrev pub ReceiverKnows : Receiver A → Type ℓ
    ReceiverKnows Receiver.idle = Unit
    ReceiverKnows (Receiver.got_head head) = (head ≡ now) × Unit {ℓ}
    ReceiverKnows (Receiver.got_tail head tail) =
        (head ≡ now) × IsAhead k now (length xs) tail × Unit {ℓ}
    ReceiverKnows (read v head tail) =
        (head ≡ now)
        × (a : IsAhead k now (length xs) tail) × (0 < a.known)
        × (rest : List A) × (xs ≡ v ∷ rest)
    ReceiverKnows (took head tail) = (head ≡ now) × IsAhead k now (length xs) tail × Unit {ℓ}

-- The ring holds `xs`, which is what has been sent and not received.
pub record Inv {ℓ} {A : Type ℓ} (k : ℕ) (w : Threads A) (xs : List A) : Type ℓ where
  pub ring : Holds k w.queue xs
  pub kept : w.sent ≡ w.received ++ xs
  pub sender : SenderKnows k w.queue (length xs) w.sender
  pub receiver : ReceiverKnows k w.queue.off.head xs w.receiver

IsAhead-grow {ℓ} :
    {A : Type ℓ} {k : ℕ} (now : ℕ) (xs : List A) (v : A) (tail : ℕ)
    → IsAhead k now (length xs) tail
    → IsAhead k now (length (xs ++ (v ∷ []))) tail
IsAhead-grow now xs v tail a = record {
  known = a.known;
  tail_at = a.tail_at;
  inside = omega (arith, length-append xs (v ∷ []));
}

module _ {ℓ} {A : Type ℓ} (k : ℕ) (q : Queue A) where
  -- A sender that has not met its head has a free slot before that head.
  pub free_slot :
      (xs : List A) (h : Holds k q xs) (head : ℕ) (b : IsBehind k q.off.head (length xs) head)
      → inc q.off q.off.tail ≢ head
      → suc (b.passed + length xs) < 2 ^ k
  free_slot xs h head b ne = elim (ℕ_discrete (b.passed + suc (length xs)) (2 ^ k)) [
    | yes e ↦
        let meets : inc q.off q.off.tail ≡ head =
          next_tail_lem k q xs h
          ∙ ap (λ (t : ℕ). (t + suc (length xs)) % 2 ^ k) b.head_at
          ∙ mod-add-mod (head + b.passed) (2 ^ k) (suc (length xs))
          ∙ ap (λ (t : ℕ). t % 2 ^ k)
              (let d : head + b.passed + suc (length xs) ≡ head + 2 ^ k = omega arith in d)
          ∙ wrap_round (2 ^ k) head b.head_in in
        absurd (ne meets)
    | no apart ↦ omega arith
  ]

  -- What the sender knows outlasts what the receiver does, and the other way round.
  pub IsBehind-popped :
      (x : A) (xs : List A) (head : ℕ)
      → Holds k q (x ∷ xs)
      → IsBehind k q.off.head (suc (length xs)) head
      → IsBehind k (popped q).off.head (length xs) head
  IsBehind-popped x xs head h b = record {
    passed = suc b.passed;
    head_at =
        inc_lem k q.off q.off.head h.narrow h.masked h.head_in
        ∙ ap (λ (t : ℕ). (t + 1) % 2 ^ k) b.head_at
        ∙ mod-add-mod (head + b.passed) (2 ^ k) 1
        ∙ ap (λ (t : ℕ). t % 2 ^ k)
            (let d : head + b.passed + 1 ≡ head + suc b.passed = omega arith in d);
    fits = omega arith;
    head_in = b.head_in;
  }

  pub IsAhead-popped :
      (x : A) (xs : List A) (tail : ℕ)
      → Holds k q (x ∷ xs)
      → (a : IsAhead k q.off.head (suc (length xs)) tail) → 0 < a.known
      → IsAhead k (popped q).off.head (length xs) tail
  IsAhead-popped x xs tail h a pos = record {
    known = a.known - 1;
    tail_at =
        a.tail_at
        ∙ ap (λ (t : ℕ). (q.off.head + t) % 2 ^ k)
            (let d : a.known ≡ suc (a.known - 1) = omega arith in d)
        ∙ sym (step_add (2 ^ k) q.off.head (a.known - 1))
        ∙ ap (λ (t : ℕ). (t + (a.known - 1)) % 2 ^ k)
            (sym (inc_lem k q.off q.off.head h.narrow h.masked h.head_in));
    inside = omega arith;
  }

  pub IsBehind_self : (xs : List A) → Holds k q xs → IsBehind k q.off.head (length xs) q.off.head
  IsBehind_self xs h = record {
    passed = 0;
    head_at = sym (first_place (2 ^ k) q.off.head h.head_in);
    fits = omega (arith, h.room);
    head_in = h.head_in;
  }

  pub IsAhead_self : (xs : List A) → Holds k q xs → IsAhead k q.off.head (length xs) q.off.tail
  IsAhead_self xs h = record { known = length xs; tail_at = h.tail_at; inside = omega arith }

  -- A receiver that has not met its tail has a value before it.
  pub known_pos :
      (xs : List A) (h : Holds k q xs) (tail : ℕ) (a : IsAhead k q.off.head (length xs) tail)
      → q.off.head ≢ tail
      → 0 < a.known
  known_pos xs h tail a ne = elim (ℕ_discrete a.known 0) [
    | yes e ↦ absurd (
        ne (
          sym (
            a.tail_at
            ∙ ap (λ (t : ℕ). (q.off.head + t) % 2 ^ k) e
            ∙ first_place (2 ^ k) q.off.head h.head_in)))
    | no apart ↦ omega arith
  ]

  -- The receiver's knowledge outlasts a value more, the sender's a value less.
  pub ReceiverKnows-grow :
      (now : ℕ) (xs : List A) (v : A) (c : Receiver A)
      → ReceiverKnows k now xs c
      → ReceiverKnows k now (xs ++ (v ∷ [])) c
  unfolding IsAhead-grow
  ReceiverKnows-grow now xs v Receiver.idle r = r
  ReceiverKnows-grow now xs v (Receiver.got_head head) r = r
  ReceiverKnows-grow now xs v (Receiver.got_tail head tail) (e, a, u) =
      (e, IsAhead-grow now xs v tail a, u)
  ReceiverKnows-grow now xs v (read val head tail) (e, a, pos, rest, f) =
      (e, IsAhead-grow now xs v tail a, pos, rest ++ (v ∷ []), rw f)
  ReceiverKnows-grow now xs v (took head tail) (e, a, u) = (e, IsAhead-grow now xs v tail a, u)

  pub SenderKnows-popped :
      (x : A) (xs : List A) (p : Sender A)
      → Holds k q (x ∷ xs)
      → SenderKnows k q (suc (length xs)) p
      → SenderKnows k (popped q) (length xs) p
  unfolding IsBehind-popped
  SenderKnows-popped x xs Sender.idle h r = r
  SenderKnows-popped x xs (started v) h r = r
  SenderKnows-popped x xs (Sender.got_tail v tail) h r = r
  SenderKnows-popped x xs (Sender.got_head v tail head) h (e, b, u) =
      (e, IsBehind-popped x xs head h b, u)
  SenderKnows-popped x xs (wrote v tail head) h (e, b, space, w) =
      (e, IsBehind-popped x xs head h b, omega arith, w)
  SenderKnows-popped x xs (stored tail head) h (e, b, u) = (e, IsBehind-popped x xs head h b, u)
