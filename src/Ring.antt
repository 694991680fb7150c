-- ===== src/Ring.antt =====
-- The ring of evering/src/uring.rs: `Offsets`, `Queue` and `Drain`, an operation run as a whole.
-- A slot of the buffer is `none` until a value is written to it. What an operation reads or writes
-- outside the buffer, or reads before it was written, is the fault `ub`; a `debug_assert!` is
-- checked, as in a debug build. The module Ring/Threads has the operations an access at a time.
pub mod Holds
pub mod Refine
pub mod Bulk
pub mod Threads
mod Tests
use openoscamp_2025s.Base.{
  ℕ, zero, suc, ◌+◌, ◌-◌, ◌%◌, ◌^◌, bit_and, Bool, Option, none, some, List, [], ◌∷◌, length,
  get_elem?, set, ltb, ◌==◌, if◌then◌else◌,
}
use openoscamp_2025s.Base.Bits.{is_power_of_two}
use openoscamp_2025s.Base.Fault.{
  Exec, done, fault, ub, out_of_fuel, ◌>>=◌, ◌>>◌, assert, access, Result, ok, err,
}

-- `AtomicU32`s and a `u32`.
pub record Offsets : Type 0 where
  pub head : ℕ
  pub tail : ℕ
  pub ring_mask : ℕ

-- `u32::wrapping_add` and `u32::wrapping_sub`
abbrev pub wrapping_add : ℕ → ℕ → ℕ
wrapping_add a b = (a + b) % 2 ^ 32

abbrev pub wrapping_sub : ℕ → ℕ → ℕ
wrapping_sub a b = (a + 2 ^ 32 - b) % 2 ^ 32

-- `size - 1` underflows only where the assertion has failed.
unfoldable pub new_offsets : ℕ → Exec Offsets
new_offsets size = do
  assert (is_power_of_two 32 size)
  done (record { head = 0; tail = 0; ring_mask = size - 1 })

unfoldable pub inc : Offsets → ℕ → ℕ
inc off n = bit_and (wrapping_add n 1) off.ring_mask

-- The offsets that a `Queue` borrows, and the buffer that its pointer names.
pub record Queue {ℓ} (A : Type ℓ) : Type ℓ where
  pub off : Offsets
  pub buf : List (Option A)

-- What is left of the iterator of a `dequeue_bulk`: its own head and tail.
pub record Drain : Type 0 where
  pub head : ℕ
  pub tail : ℕ

-- `debug_assert!((off.ring_mask + 1).is_power_of_two())`
abbrev pub mask_check : Offsets → Exec (Unit {0})
mask_check off = assert (is_power_of_two 32 (off.ring_mask + 1))

module _ {ℓ} {A : Type ℓ} where
  -- `buf.add(i).write(val)`
  abbrev pub write_slot : List (Option A) → ℕ → A → Exec (List (Option A))
  write_slot buf i val = if ltb i (length buf) then done (set buf i (some val)) else fault ub

  -- `buf.add(i).read()`
  abbrev pub read_slot : List (Option A) → ℕ → Exec A
  read_slot buf i = access (get_elem? buf i) >>= access

  abbrev pub store_head : Queue A → ℕ → Queue A
  store_head q n = record q { off = record (q.off) { head = n } }

  abbrev pub store_tail : Queue A → ℕ → Queue A
  store_tail q n = record q { off = record (q.off) { tail = n } }

  unfoldable pub len : Queue A → ℕ
  len q = bit_and (wrapping_sub q.off.tail q.off.head) q.off.ring_mask

  unfoldable pub is_empty : Queue A → Bool
  is_empty q = len q == 0

  -- `Err(val)` hands the value back.
  unfoldable pub enqueue : Queue A → A → Exec (Result (Unit {0}) A × Queue A)
  enqueue q val = do
    mask_check q.off
    let tail = q.off.tail
    let head = q.off.head
    let next_tail = inc q.off tail
    if next_tail == head then done (err val, q) else (do
      buf ← write_slot q.buf tail val
      done (ok tt, store_tail (record q { buf = buf }) next_tail))

  -- The loop of `enqueue_bulk`: `head` is read once, before it; the values left in the iterator are
  -- returned beside the count.
  unfoldable pub enqueue_loop : ℕ → ℕ → ℕ → List A → Queue A → Exec (ℕ × List A × Queue A)
  enqueue_loop head tail n [] q = done (n, [], q)
  enqueue_loop head tail n (val ∷ vals) q =
      let next_tail = inc q.off tail in
      let rest = (do
        buf ← write_slot q.buf tail val
        enqueue_loop head next_tail (n + 1) vals (store_tail (record q { buf = buf }) next_tail)) in
      if next_tail == head then done (n, val ∷ vals, q) else rest

  unfoldable pub enqueue_bulk : Queue A → List A → Exec (ℕ × List A × Queue A)
  enqueue_bulk q vals = do mask_check q.off; enqueue_loop q.off.head q.off.tail 0 vals q

  unfoldable pub dequeue : Queue A → Exec (Option A × Queue A)
  dequeue q = do
    mask_check q.off
    let head = q.off.head
    let tail = q.off.tail
    if head == tail
        then done (none, q)
        else (do val ← read_slot q.buf head; done (some val, store_head q (inc q.off head)))

  unfoldable pub dequeue_bulk : Queue A → Exec Drain
  dequeue_bulk q = do mask_check q.off; done (record { head = q.off.head; tail = q.off.tail })

  -- `Drain::next` reads the slot, stores the shared head, then steps its own.
  unfoldable pub next : Drain → Queue A → Exec (Option A × Drain × Queue A)
  next d q = if d.head == d.tail then done (none, d, q) else (do
    val ← read_slot q.buf d.head
    let next_head = inc q.off d.head
    done (some val, record d { head = next_head }, store_head q next_head))

  -- A `for` loop over a `Drain`: the values in order, and the queue after the last.
  unfoldable pub collect : ℕ → Drain → Queue A → Exec (List A × Queue A)
  collect zero d q = fault out_of_fuel
  collect (suc fuel) d q = next d q >>= λ r. elim r.0 [
    | none ↦ done ([], r.2)
    | some val ↦ collect fuel r.1 r.2 >>= λ s. done (val ∷ s.0, s.1)
  ]

  -- The loop of `Queue::drop_in_place`, with the values whose destructors it runs.
  unfoldable pub drop_loop : ℕ → Queue A → ℕ → ℕ → Exec (List A)
  drop_loop zero q head tail = fault out_of_fuel
  drop_loop (suc fuel) q head tail =
      let rest = (do
        val ← read_slot q.buf head
        vals ← drop_loop fuel q (inc q.off head) tail
        done (val ∷ vals)) in
      if head == tail then done [] else rest

  -- A ring of `ring_mask + 1` slots is gone round in as many rounds.
  unfoldable pub drop_in_place : Queue A → Exec (List A)
  drop_in_place q = do mask_check q.off; drop_loop (q.off.ring_mask + 1) q q.off.head q.off.tail
