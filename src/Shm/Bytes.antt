-- ===== src/Shm/Bytes.antt =====
-- What the byte slices in the boxes of examples/evering-ipc/src/shm.rs and shm/boxed.rs hold. The bytes
-- of the memory are known by their offsets, which are the same in every mapping; a pointer is an
-- address in the mapping of one process, which begins at `start`.
pub mod Cells
pub mod Pair
use openoscamp_2025s.Base.{
  ℕ, zero, suc, ◌+◌, ◌-◌, Option, none, some, List, [], ◌∷◌, map, length, replicate, ◌==◌,
  if◌then◌else◌,
}
use openoscamp_2025s.Base.Fault.{Exec, done, fault, ◌>>=◌, access}
use openoscamp_2025s.Shm.{MemLayout, get_shm, get_ptr}
use openoscamp_2025s.Shm.Alloc.{Tlsf, ShmBox, new_box, new_slice}

-- A byte of the memory that is not initialised is none.
unfoldable pub write_cells : (ℕ → Option ℕ) → ℕ → List (Option ℕ) → ℕ → Option ℕ
write_cells m a [] j = m j
write_cells m a (b ∷ bs) j = if a == j then b else write_cells m (a + 1) bs j

unfoldable pub read_cells : (ℕ → Option ℕ) → ℕ → ℕ → List (Option ℕ)
read_cells m a zero = []
read_cells m a (suc n) = m a ∷ read_cells m (a + 1) n

unfoldable pub init_bytes : List (Option ℕ) → Exec (List ℕ)
init_bytes [] = done []
init_bytes (o ∷ rest) = do b ← access o; bs ← init_bytes rest; done (b ∷ bs)

abbrev pub byte : MemLayout
byte = record { size = 1; align = 1 }

-- The allocator and the bytes.
pub record Shared (Z : Type 0) : Type 0 where
  pub allocator : Z
  pub cells : ℕ → Option ℕ

-- `ShmToken`, of a slice
pub record ShmToken : Type 0 where
  pub shm : ℕ
  pub layout : MemLayout

module _ (tlsf : Tlsf) (start : ℕ) where
  open tlsf use {Z}

  unfoldable pub filled_slice : Shared Z → List (Option ℕ) → Exec (ShmBox × Shared Z)
  filled_slice w content = do
    r ← new_slice tlsf w.allocator byte (length content)
    done (r.0, record { allocator = r.1; cells = write_cells w.cells (r.0.ptr - start) content })

  -- `alloc_slice_copied`
  unfoldable pub alloc_slice_copied : Shared Z → List ℕ → Exec (ShmBox × Shared Z)
  alloc_slice_copied w src = filled_slice w (map some src)

  -- `alloc_slice_filled`
  unfoldable pub alloc_slice_filled : Shared Z → ℕ → ℕ → Exec (ShmBox × Shared Z)
  alloc_slice_filled w val n = filled_slice w (replicate n (some val))

  -- `new_slice_uninit`
  unfoldable pub new_slice_uninit : Shared Z → ℕ → Exec (ShmBox × Shared Z)
  new_slice_uninit w n = filled_slice w (replicate n none)

  -- `alloc`, of a value of layout t that has the bytes `content`
  unfoldable pub alloc : Shared Z → MemLayout → List (Option ℕ) → Exec (ShmBox × Shared Z)
  alloc w t content = do
    r ← new_box tlsf w.allocator t
    done (r.0, record { allocator = r.1; cells = write_cells w.cells (r.0.ptr - start) content })

-- `Deref for ShmBox`, of a slice that is read as a whole
unfoldable pub deref : ℕ → (ℕ → Option ℕ) → ShmBox → Exec (List ℕ)
deref start cells x = init_bytes (read_cells cells (x.ptr - start) x.layout.size)

-- `ShmBox::as_shm`
unfoldable pub as_shm : ℕ → ShmBox → Exec ShmToken
as_shm start x = do shm ← get_shm start x.ptr; done (record { shm = shm; layout = x.layout })

-- `ShmToken::as_ptr`
unfoldable pub as_ptr : ℕ → ShmToken → ShmBox
as_ptr start t = record { ptr = get_ptr start t.shm; layout = t.layout }

-- `assume_init` and `into_uninit` give the pointer on; what is not initialised shows when it is read.
abbrev pub assume_init : ShmBox → ShmBox
assume_init x = x

abbrev pub into_uninit : ShmBox → ShmBox
into_uninit x = x
