-- ===== src/Uring.antt =====
-- The connection of evering/src/uring.rs: `Header`, `RawUring`, the two ends `UringA` and `UringB`
-- behind the `Uring` trait, and `Builder`. The pointers of a `RawUring` name one region of memory,
-- the state here; an operation takes the region and returns it.
pub mod Build
pub mod Life
use openoscamp_2025s.Base.{
  ℕ, ◌+◌, ◌-◌, ◌%◌, ◌^◌, Bool, true, false, not, Option, none, some, List, [], ◌∷◌, length, ltb,
  leb, ◌==◌, if◌then◌else◌, replicate,
}
use openoscamp_2025s.Base.Bits.{is_power_of_two}
use openoscamp_2025s.Base.Fault.{
  Exec, done, fault, ub, ◌>>=◌, ◌>>◌, assert, access, Result, ok, err,
}
use openoscamp_2025s.Ring.{
  Offsets, Queue, Drain, new_offsets, wrapping_sub, enqueue, enqueue_bulk, dequeue, dequeue_bulk,
  drop_in_place, len,
}

pub record Header (Ext : Type 0) : Type 0 where
  pub off_a : Offsets
  pub off_b : Offsets
  pub rc : ℕ
  pub ext : Ext

abbrev pub size_a : {Ext : Type 0} → Header Ext → ℕ
size_a h = h.off_a.ring_mask + 1

abbrev pub size_b : {Ext : Type 0} → Header Ext → ℕ
size_b h = h.off_b.ring_mask + 1

-- What the three pointers of a `RawUring` name.
pub record RawUring (A B Ext : Type 0) : Type 0 where
  pub header : Header Ext
  pub buf_a : List (Option A)
  pub buf_b : List (Option B)

pub data DisposeError : Type 0 where
  still_connected : DisposeError

-- A fresh buffer is not initialised. That its layout is too large for the machine, or that there is no
-- memory for it, is not modelled.
abbrev pub alloc_buffer : {T : Type 0} → ℕ → List (Option T)
alloc_buffer size = replicate size none

-- A buffer is given back with the length that it was allocated with.
abbrev pub dealloc_buffer : {T : Type 0} → List (Option T) → ℕ → Exec (Unit {0})
dealloc_buffer buf size = if length buf == size then done tt else fault ub

-- The `Uring` trait: where an end of type `U` over a region `M` has its queues. A borrowed queue is
-- read from the region, and what was done with it is put back.
pub record Uring (M X Y : Type 0) : Type 0 where
  pub sender : M → Queue X
  pub put_sender : M → Queue X → M
  pub receiver : M → Queue Y
  pub put_receiver : M → Queue Y → M

module _ {A B Ext : Type 0} where
  abbrev pub queue_a : RawUring A B Ext → Queue A
  queue_a m = record { off = m.header.off_a; buf = m.buf_a }

  abbrev pub queue_b : RawUring A B Ext → Queue B
  queue_b m = record { off = m.header.off_b; buf = m.buf_b }

  abbrev pub put_queue_a : RawUring A B Ext → Queue A → RawUring A B Ext
  put_queue_a m q = record m { header = record (m.header) { off_a = q.off }; buf_a = q.buf }

  abbrev pub put_queue_b : RawUring A B Ext → Queue B → RawUring A B Ext
  put_queue_b m q = record m { header = record (m.header) { off_b = q.off }; buf_b = q.buf }

  -- `impl Uring for UringA`
  abbrev pub uring_a : Uring (RawUring A B Ext) A B
  uring_a = record {
    sender = queue_a;
    put_sender = put_queue_a;
    receiver = queue_b;
    put_receiver = put_queue_b;
  }

  -- `impl Uring for UringB`
  abbrev pub uring_b : Uring (RawUring A B Ext) B A
  uring_b = record {
    sender = queue_b;
    put_sender = put_queue_b;
    receiver = queue_a;
    put_receiver = put_queue_a;
  }

  -- The remote end is not dropped.
  unfoldable pub is_connected : RawUring A B Ext → Bool
  is_connected m = ltb 1 m.header.rc

  abbrev pub store_rc : RawUring A B Ext → ℕ → RawUring A B Ext
  store_rc m n = record m { header = record (m.header) { rc = n } }

  -- The values that `dispose` drops are returned with its success.
  unfoldable pub dispose :
      RawUring A B Ext → Exec (Result (List A × List B) DisposeError × RawUring A B Ext)
  dispose m = do
    let rc = m.header.rc
    assert (leb 1 rc)
    let m' = store_rc m (wrapping_sub rc 1)
    if not (rc == 1) then done (err still_connected, m') else (do
      vals_a ← drop_in_place (queue_a m')
      vals_b ← drop_in_place (queue_b m')
      done (ok (vals_a, vals_b), m'))

  -- `into_raw` gives the pointers away, so that what is left is `dispose`.
  abbrev pub dispose_raw :
      RawUring A B Ext → Exec (Result (List A × List B) DisposeError × RawUring A B Ext)
  dispose_raw m = dispose m

  -- `Drop` of either end: `none` is a region that has been freed.
  unfoldable pub drop_end : RawUring A B Ext → Exec (List A × List B × Option (RawUring A B Ext))
  drop_end m = dispose m >>= λ r. elim r.0 [
    | err e ↦ done ([], [], some r.1)
    | ok vals ↦ do
      dealloc_buffer r.1.buf_a (size_a r.1.header)
      dealloc_buffer r.1.buf_b (size_b r.1.header)
      done (vals.0, vals.1, none)
  ]

-- `UringEither`: which end it is, is known only as it runs.
pub data UringEither : Type 0 where
  end_a end_b : UringEither

abbrev pub uring_either : {T Ext : Type 0} → UringEither → Uring (RawUring T T Ext) T T
uring_either end_a = uring_a
uring_either end_b = uring_b

-- The methods that the trait provides.
module _ {M X Y : Type 0} (u : Uring M X Y) where
  unfoldable pub send : M → X → Exec (Result (Unit {0}) X × M)
  send m val = enqueue (u.sender m) val >>= λ r. done (r.0, u.put_sender m r.1)

  unfoldable pub send_bulk : M → List X → Exec (ℕ × List X × M)
  send_bulk m vals = enqueue_bulk (u.sender m) vals >>= λ r. done (r.0, r.1, u.put_sender m r.2)

  unfoldable pub recv : M → Exec (Option Y × M)
  recv m = dequeue (u.receiver m) >>= λ r. done (r.0, u.put_receiver m r.1)

  unfoldable pub recv_bulk : M → Exec Drain
  recv_bulk m = dequeue_bulk (u.receiver m)

-- `Builder`; a size is a `usize`.
pub record Builder (Ext : Type 0) : Type 0 where
  pub size_a : ℕ
  pub size_b : ℕ
  pub ext : Ext

module _ {Ext : Type 0} where
  abbrev pub new_ext : Ext → Builder Ext
  new_ext e = record { size_a = 32; size_b = 32; ext = e }

  unfoldable pub set_size_a : Builder Ext → ℕ → Exec (Builder Ext)
  set_size_a b size = do assert (is_power_of_two 64 size); done (record b { size_a = size })

  unfoldable pub set_size_b : Builder Ext → ℕ → Exec (Builder Ext)
  set_size_b b size = do assert (is_power_of_two 64 size); done (record b { size_b = size })

  -- `size as u32`
  unfoldable pub build_header : Builder Ext → Exec (Header Ext)
  build_header b = do
    off_a ← new_offsets (b.size_a % 2 ^ 32)
    off_b ← new_offsets (b.size_b % 2 ^ 32)
    done (record { off_a = off_a; off_b = off_b; rc = 2; ext = b.ext })

  -- Both ends share the region.
  unfoldable pub build : {A B : Type 0} → Builder Ext → Exec (RawUring A B Ext)
  build b = do
    h ← build_header b
    done (record { header = h; buf_a = alloc_buffer b.size_a; buf_b = alloc_buffer b.size_b })
