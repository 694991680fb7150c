-- ===== src/Ring/Bulk.antt =====
-- The bulk operations of evering/src/uring.rs, and the loop that drops what a queue still holds.
use native.Mathlib.Nat.{mod-lt}
use openoscamp_2025s.Base.{
  ℕ, zero, suc, ◌+◌, ◌-◌, ◌%◌, ◌^◌, ◌≤◌, ◌<◌, ◌≡◌, refl, sym, ap, ◌∙◌, subst, ◌≢◌, false, none,
  some, List, [], ◌∷◌, ◌++◌, arith, length, length-append, get_elem?, ◌==◌, ==_of_eq, ==_of_ne,
  lt→ltb, ℕ_discrete, append-nil,
}
use openoscamp_2025s.Base.Fault.{Exec, done}
use openoscamp_2025s.Fifo.{push_all}
use openoscamp_2025s.Ring.{
  Queue, Drain, inc, enqueue_loop, enqueue_bulk, dequeue_bulk, next, collect, drop_loop,
  drop_in_place,
}
use openoscamp_2025s.Ring.Holds.{
  Window, Holds, meet_test, step_add, first_place, wrap_ne, pow_pos, inc_lem, mask_is_power,
}
use openoscamp_2025s.Ring.Refine.{tail_in, full_test, pushed, popped, Holds-pushed, Holds-popped}

module _ {ℓ} {A : Type ℓ} (k : ℕ) where
  -- What `enqueue_bulk` has done when it stops, started with `n` values sent.
  abbrev Sent : ℕ → List A → List A → Exec (ℕ × List A × Queue A) → Type ℓ
  Sent n xs vals r =
      let (rest, ys) = push_all (2 ^ k - 1) xs vals in
      (q' : Queue A) × (r ≡ done (n + (length vals - length rest), rest, q')) × Holds k q' ys

  length-push_all : (cap : ℕ) (xs vals : List A) → length (push_all cap xs vals).0 ≤ length vals
  unfolding push_all
  length-push_all cap xs [] = omega arith
  length-push_all cap xs (v ∷ vals) = ground (arith, length-push_all cap (xs ++ (v ∷ [])) vals)

  enqueue_loop_lem :
      (vals : List A) (n : ℕ) (q : Queue A) (xs : List A)
      → Holds k q xs
      → Sent n xs vals (enqueue_loop q.off.head q.off.tail n vals q)
  unfolding enqueue_loop push_all
  enqueue_loop_lem [] n q xs h = (q, ap (λ (t : ℕ). done (t, [], q)) (omega arith), h)
  enqueue_loop_lem (v ∷ vals) n q xs h = elim (ℕ_discrete (length xs) (2 ^ k - 1)) [
    | yes e ↦
        rw (full_test k q xs h, ==_of_eq (length xs) (2 ^ k - 1) e)
          (q, ap (λ (t : ℕ). done (t, v ∷ vals, q)) (omega arith), h)
    | no ne ↦
        let (q', e, h') =
          enqueue_loop_lem vals (n + 1) (pushed q v) (xs ++ (v ∷ []))
            (Holds-pushed k q xs h v ne) in
        rw
          (
            full_test k q xs h,
            ==_of_ne (length xs) (2 ^ k - 1) ne,
            h.storage,
            lt→ltb _ _ (tail_in k q xs h),
          )
          (
            q',
            e
                ∙ ap (λ (t : ℕ). done (t, (push_all (2 ^ k - 1) (xs ++ (v ∷ [])) vals).0, q'))
                    (omega (arith, length-push_all (2 ^ k - 1) (xs ++ (v ∷ [])) vals)),
            h',
          )
  ]

  -- `enqueue_bulk` takes values from the iterator in order until it ends or the queue is full, and
  -- returns how many it took.
  pub enqueue_bulk_refines :
      (q : Queue A) (xs vals : List A) → Holds k q xs → Sent 0 xs vals (enqueue_bulk q vals)
  unfolding enqueue_bulk
  enqueue_bulk_refines q xs vals h =
      rw (mask_is_power k q.off h.narrow h.masked) (enqueue_loop_lem vals 0 q xs h)

  -- A drain that has still to go over `xs`; what was sent since it began stays behind them.
  next_end : (d : Drain) (q : Queue A) → d.head ≡ d.tail → next d q ≡ done (none, d, q)
  unfolding next
  next_end d q e = rw (==_of_eq d.head d.tail e)

  abbrev stepped : Drain → Queue A → Drain
  stepped d q = record d { head = inc q.off d.head }

  next_value :
      (d : Drain) (q : Queue A) (x : A)
      → d.head ≢ d.tail
      → d.head ≡ q.off.head
      → get_elem? q.buf q.off.head ≡ some (some x)
      → next d q ≡ done (some x, stepped d q, popped q)
  unfolding next
  next_value d q x ne e w = rw (==_of_ne d.head d.tail ne, e, w)

  collect_lem :
      (xs ys : List A) (fuel : ℕ) (d : Drain) (q : Queue A)
      → length xs < fuel
      → Holds k q (xs ++ ys)
      → d.head ≡ q.off.head
      → d.tail ≡ (q.off.head + length xs) % 2 ^ k
      → (q' : Queue A) × (collect fuel d q ≡ done (xs, q')) × Holds k q' ys
  unfolding collect
  collect_lem xs ys zero d q lt h eh et = absurd (omega arith)
  collect_lem [] ys (suc fuel) d q lt h eh et =
      (q, rw (next_end d q (eh ∙ sym (et ∙ first_place (2 ^ k) q.off.head h.head_in))), h)
  collect_lem (x ∷ xs) ys (suc fuel) d q lt h eh et =
      let apart : d.head ≢ d.tail = λ e.
        wrap_ne (2 ^ k) q.off.head (suc (length xs)) h.head_in (omega arith)
          (omega (arith, h.room, length-append xs ys)) (sym et ∙ sym e ∙ eh) in
      let after : inc q.off q.off.head ≡ (q.off.head + 1) % 2 ^ k =
        inc_lem k q.off q.off.head h.narrow h.masked h.head_in in
      let (q', e, h') =
        collect_lem xs ys fuel (stepped d q) (popped q) (omega arith)
          (Holds-popped k q x (xs ++ ys) h) (ap (inc q.off) eh)
          (et
            ∙ sym (step_add (2 ^ k) q.off.head (length xs))
            ∙ ap (λ (t : ℕ). (t + length xs) % 2 ^ k) (sym after)) in
      (q', rw (next_value d q x apart eh (h.slots).0, e), h')

  -- `dequeue_bulk` and a loop over what it returns take all values of the queue, in order, and
  -- give their slots back.
  pub dequeue_bulk_refines :
      (q : Queue A) (xs : List A)
      → Holds k q xs
      → (d : Drain) × (q' : Queue A) × (dequeue_bulk q ≡ done d)
        × (collect (2 ^ k) d q ≡ done (xs, q'))
        × Holds k q' []
  unfolding dequeue_bulk
  dequeue_bulk_refines q xs h =
      let d : Drain = record { head = q.off.head; tail = q.off.tail } in
      let (q', e, h') =
        collect_lem xs [] (2 ^ k) d q h.room (rw (append-nil xs) h) refl h.tail_at in
      (d, q', rw (mask_is_power k q.off h.narrow h.masked), e, h')

  -- The values of the window from `head` on are dropped in order.
  drop_loop_lem :
      (q : Queue A) (xs : List A) (fuel head tail : ℕ)
      → k < 32
      → q.off.ring_mask ≡ 2 ^ k - 1
      → length xs < fuel
      → head < 2 ^ k
      → length xs < 2 ^ k
      → tail ≡ (head + length xs) % 2 ^ k
      → Window q.buf (2 ^ k) head xs
      → drop_loop fuel q head tail ≡ done xs
  unfolding drop_loop
  drop_loop_lem q xs zero head tail nar msk lt hi room et w = absurd (omega arith)
  drop_loop_lem q [] (suc fuel) head tail nar msk lt hi room et w =
      rw (et, meet_test (2 ^ k) head 0 hi room)
  drop_loop_lem q (x ∷ xs) (suc fuel) head tail nar msk lt hi room et w =
      let after : inc q.off head ≡ (head + 1) % 2 ^ k = inc_lem k q.off head nar msk hi in
      let rest : drop_loop fuel q (inc q.off head) tail ≡ done xs =
        drop_loop_lem q xs fuel (inc q.off head) tail nar msk (omega arith)
          (rw after (mod-lt (head + 1) (pow_pos k))) (omega arith)
          (et
            ∙ sym (step_add (2 ^ k) head (length xs))
            ∙ ap (λ (t : ℕ). (t + length xs) % 2 ^ k) (sym after))
          (subst (λ t. Window q.buf (2 ^ k) t xs) (sym after) w.1) in
      let more : (head == tail) ≡ false = rw et (
        meet_test (2 ^ k) head (suc (length xs)) hi room
        ∙ ==_of_ne (suc (length xs)) 0 (omega arith)) in
      rw (more, w.0, rest)

  -- `drop_in_place` runs the destructor of each value that the queue holds, once and in order.
  pub drop_in_place_lem : (q : Queue A) (xs : List A) → Holds k q xs → drop_in_place q ≡ done xs
  unfolding drop_in_place
  drop_in_place_lem q xs h = rw (mask_is_power k q.off h.narrow h.masked) (
      drop_loop_lem q xs (q.off.ring_mask + 1) q.off.head q.off.tail h.narrow h.masked
        (omega (arith, h.room, h.masked)) h.head_in h.room h.tail_at h.slots)
