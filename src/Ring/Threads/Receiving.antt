-- ===== src/Ring/Threads/Receiving.antt =====
-- No access of the receiver goes wrong, and each keeps what the two threads know.
use openoscamp_2025s.Base.{
  ℕ, suc, ◌<◌, ◌≡◌, refl, sym, ap, ◌∙◌, subst, some, List, [], ◌∷◌, ◌++◌, append_assoc, arith,
  length, get_elem?, ◌==◌, ne_of_test, Bool-cases, inl, inr,
}
use openoscamp_2025s.Base.Fault.{Exec, done}
use openoscamp_2025s.Ring.{Queue, inc, store_head}
use openoscamp_2025s.Ring.Holds.{Holds}
use openoscamp_2025s.Ring.Refine.{Holds-popped}
use openoscamp_2025s.Ring.Threads.{Sender, Receiver, read, took, again_step, recv_step}
use openoscamp_2025s.Ring.Threads.Inv.{
  IsAhead, SenderKnows, ReceiverKnows, IsAhead-popped, IsAhead_self, known_pos, SenderKnows-popped,
}

module _ {ℓ} {A : Type ℓ} (k : ℕ) where
  pub again_step-knows :
      (now : ℕ) (xs : List A) (c : Receiver A)
      → ReceiverKnows k now xs c
      → ReceiverKnows k now xs (again_step c)
  unfolding again_step
  again_step-knows now xs (took head tail) r = r
  again_step-knows now xs Receiver.idle r = r
  again_step-knows now xs (Receiver.got_head head) r = r
  again_step-knows now xs (Receiver.got_tail head tail) r = r
  again_step-knows now xs (read v head tail) r = r

  -- What an access of the receiver gives: its new state, beside an untouched sender.
  abbrev pub Receives :
      Queue A → List A → List A → List A → Exec (Queue A × Receiver A × List A) → Type ℓ
  Receives q xs sent got r =
      (q' : Queue A) × (c' : Receiver A) × (got' : List A) × (ys : List A) × (r
        ≡ done (q', c', got'))
      × Holds k q' ys
      × (sent ≡ got' ++ ys)
      × ReceiverKnows k q'.off.head ys c'
      × ((p : Sender A) → SenderKnows k q (length xs) p → SenderKnows k q' (length ys) p)

  first_value :
      (q : Queue A) (xs : List A)
      → Holds k q xs
      → 0 < length xs
      → (x : A) × (rest : List A) × (xs ≡ x ∷ rest) × (get_elem? q.buf q.off.head ≡ some (some x))
  first_value q [] h pos = absurd (omega arith)
  first_value q (x ∷ rest) h pos = (x, rest, refl, (h.slots).0)

  pub recv_step-Receives :
      (q : Queue A) (xs sent got : List A) (c : Receiver A)
      → Holds k q xs
      → sent ≡ got ++ xs
      → ReceiverKnows k q.off.head xs c
      → Receives q xs sent got (recv_step q got c)
  unfolding recv_step
  recv_step-Receives q xs sent got Receiver.idle h e r =
      (q, Receiver.got_head q.off.head, got, xs, refl, h, e, (refl, tt), λ p s. s)
  recv_step-Receives q xs sent got (Receiver.got_head head) h e (t, u) = (
    q,
    Receiver.got_tail head q.off.tail,
    got,
    xs,
    refl,
    h,
    e,
    (t, IsAhead_self k q xs h, tt),
    λ p s. s,
  )
  recv_step-Receives q xs sent got (Receiver.got_tail head tail) h e (t, a, u) =
      elim (Bool-cases (head == tail)) [
        | inl none_left ↦ (q, Receiver.idle, got, xs, rw none_left, h, e, tt, λ p s. s)
        | inr more ↦
            let pos : 0 < a.known = known_pos k q xs h tail a (ne_of_test _ _ (rw t at more)) in
            let (x, rest, f, w) = first_value q xs h (omega (arith, a.inside)) in
            (q, read x head tail, got, xs, rw (more, t, w), h, e, (t, a, pos, rest, f), λ p s. s)
      ]
  recv_step-Receives q xs sent got (read v head tail) h e (t, a, pos, rest, f) =
      let h' : Holds k q (v ∷ rest) = subst (Holds k q) f h in
      let n : length xs ≡ suc (length rest) = ap length f in
      let a' : IsAhead k q.off.head (suc (length rest)) tail = record {
        known = a.known;
        tail_at = a.tail_at;
        inside = omega (arith, a.inside);
      } in
      (
        store_head q (inc q.off head),
        took (inc q.off head) tail,
        got ++ (v ∷ []),
        rest,
        refl,
        rw t (Holds-popped k q v rest h'),
        e ∙ ap (λ l. got ++ l) f ∙ sym (append_assoc got (v ∷ []) rest),
        (refl, rw t (IsAhead-popped k q v rest tail h' a' pos), tt),
        λ p s. rw t (SenderKnows-popped k q v rest p h' (subst (λ m. SenderKnows k q m p) n s)),
      )
  recv_step-Receives q xs sent got (took head tail) h e r =
      (q, Receiver.idle, got, xs, refl, h, e, tt, λ p s. s)
