-- ===== src/Shm.antt =====
-- examples/evering-ipc/src/shm.rs and examples/evering-ipc/src/shm/boxed.rs: the layout of a shared
-- memory, the translation of pointers, and the handles of a thread. Sizes and addresses are numbers,
-- `usize` sums are checked as in a debug build. The system calls and the allocator `Tlsf` are
-- parameters.
pub mod Align
pub mod Layout
pub mod Share
pub mod Alloc
pub mod Bytes
mod Tests
use openoscamp_2025s.Base.{
  ℕ, zero, suc, ◌+◌, ◌-◌, ◌*◌, ◌^◌, bit_and, Bool, true, false, not, Option, none, some, List, [],
  ◌∷◌, ltb, leb, ◌==◌, if◌then◌else◌,
}
use openoscamp_2025s.Base.Bits.{is_power_of_two}
use openoscamp_2025s.Base.Fault.{
  Exec, done, fault, panic, ◌>>=◌, ◌>>◌, assert, expect, Result, ok, err,
}
use openoscamp_2025s.Uring.{Header, size_a, size_b}

-- `core::alloc::Layout`; also the layout of a type.
pub record MemLayout : Type 0 where
  pub size : ℕ
  pub align : ℕ

-- `Layout::array`: the size may not exceed `isize::MAX` when it is rounded up to the alignment.
abbrev pub layout_array : MemLayout → ℕ → Option MemLayout
layout_array t n =
    if leb (t.size * n) (2 ^ 63 - t.align) then some (record t { size = t.size * n }) else none

unfoldable pub checked_add : ℕ → ℕ → Exec ℕ
checked_add a n = if ltb (a + n) (2 ^ 64) then done (a + n) else fault panic

-- `!(align - 1)` in a `usize`
abbrev pub align_mask : ℕ → ℕ
align_mask align = 2 ^ 64 - 1 - (align - 1)

unfoldable pub align_up : ℕ → ℕ → Exec ℕ
align_up n align = do
  assert (is_power_of_two 64 align)
  s ← checked_add n align
  done (bit_and (s - 1) (align_mask align))

-- `ShmHeader`: `Z` is the state of the allocator.
pub record ShmHeader (Ext Z : Type 0) : Type 0 where
  pub header : Header Ext
  pub buf_a : ℕ
  pub buf_b : ℕ
  pub allocator_taken : Bool
  pub allocator : Z
  pub free_memory : ℕ × ℕ

-- The offsets that `create` calculates: of the two buffers, and of what is free.
unfoldable pub create_offsets : ℕ → MemLayout → MemLayout → ℕ → ℕ → Exec (ℕ × ℕ × ℕ)
create_offsets self_size t_a t_b n_a n_b = do
  layout_a ← expect (layout_array t_a n_a)
  buf_a ← align_up self_size layout_a.align
  cur_a ← checked_add buf_a layout_a.size
  layout_b ← expect (layout_array t_b n_b)
  buf_b ← align_up cur_a layout_b.align
  cur_b ← checked_add buf_b layout_b.size
  done (buf_a, buf_b, cur_b)

-- `shm_mmap`, over the system call
unfoldable pub shm_mmap : {E : Type 0} → (ℕ → Result ℕ E) → ℕ → Exec (Result ℕ E)
shm_mmap mmap len = do assert (not (len == 0)); done (mmap len)

module _ {E Ext Z : Type 0} where
  -- `ShmHeader::create`: what is written at the start of the memory, and its address.
  unfoldable pub create :
      (ftruncate : ℕ → Result (Unit {0}) E)
      → (mmap : ℕ → Result ℕ E) → (new : Z) → (self_size : ℕ) → (t_a t_b : MemLayout) → (size : ℕ)
      → Header Ext
      → Exec (Result (ℕ × ShmHeader Ext Z) E)
  create ftruncate mmap new self_size t_a t_b size header =
      create_offsets self_size t_a t_b (size_a header) (size_b header) >>= λ o.
      assert (ltb o.2 size) >> elim (ftruncate size) [
        | err e ↦ done (err e)
        | ok v ↦ shm_mmap mmap size >>= λ r. elim r [
          | err e ↦ done (err e)
          | ok start ↦ done (
              ok (
                start,
                record {
                  header = header;
                  buf_a = o.0;
                  buf_b = o.1;
                  allocator_taken = false;
                  allocator = new;
                  free_memory = (o.2, size);
                },
              ))
        ]
      ]

-- `ShmHeader::open`
unfoldable pub open_shm : {E : Type 0} → Result ℕ E → (ℕ → Result ℕ E) → ℕ → Exec (Result ℕ E)
open_shm fstat mmap size = elim fstat [
  | err e ↦ done (err e)
  | ok st_size ↦ assert (st_size == size) >> shm_mmap mmap size
]

module _ {Ext Z : Type 0} where
  -- `build_raw_uring`: where the buffers are, in a mapping that begins at start.
  abbrev pub build_raw_uring : ℕ → ShmHeader Ext Z → ℕ × ℕ
  build_raw_uring start h = (start + h.buf_a, start + h.buf_b)

  -- `get_allocator`: the block that is given to the allocator.
  unfoldable pub get_allocator :
      (Z → ℕ → ℕ → Z) → ℕ → ShmHeader Ext Z → Exec ((ℕ × ℕ) × ShmHeader Ext Z)
  get_allocator append start h =
      if h.allocator_taken
      then fault panic
      else (let (data_start, data_end) = h.free_memory in
          let block : ℕ × ℕ = (start + data_start, data_end - data_start) in
          done (
            block,
            record h { allocator_taken = true; allocator = append h.allocator block.0 block.1 },
          ))

-- `get_shm`, of a pointer into the mapping that begins at start
unfoldable pub get_shm : ℕ → ℕ → Exec ℕ
get_shm start addr = do
  assert (ltb start addr)
  assert (not (addr - start == 0))
  done (addr - start)

-- `get_ptr`
abbrev pub get_ptr : ℕ → ℕ → ℕ
get_ptr start shm = start + shm

-- The thread-local cells of boxed.rs: the mapping, and whether the thread has the allocator.
pub record Handles : Type 0 where
  pub shm : Option ℕ
  pub alo : Option ℕ

abbrev pub no_handles : Handles
no_handles = record { shm = none; alo = none }

-- `ShmHandle::init`, which is `init_server`
unfoldable pub init_server : ℕ → Handles → Exec Handles
init_server start th = elim (th.shm) [
  | some m ↦ fault panic
  | none ↦ done (record th { shm = some start })
]

module _ {Ext Z : Type 0} (append : Z → ℕ → ℕ → Z) where
  -- `AloHandle::init`
  unfoldable pub init_allocator : ℕ → ShmHeader Ext Z → Handles → Exec (Handles × ShmHeader Ext Z)
  init_allocator start h th = elim (th.alo) [
    | some m ↦ fault panic
    | none ↦ get_allocator append start h >>= λ r. done (record th { alo = some start }, r.1)
  ]

  unfoldable pub init_client : ℕ → ShmHeader Ext Z → Handles → Exec (Handles × ShmHeader Ext Z)
  init_client start h th = init_server start th >>= λ th'. init_allocator start h th'
