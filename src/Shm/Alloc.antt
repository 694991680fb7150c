-- ===== src/Shm/Alloc.antt =====
-- `Allocator` of examples/evering-ipc/src/shm.rs and `ShmBox` of shm/boxed.rs, over the external
-- `Tlsf`. What a box holds is not modelled, only where it is.
pub mod Apart
pub mod Run
pub mod Bump
mod Tests
use openoscamp_2025s.Base.{
  ℕ, zero, suc, ◌+◌, ◌%◌, ◌≤◌, ◌≡◌, ◌⊎◌, Bool, not, Option, none, some, List, [], ◌∷◌, map, ◌==◌,
  if◌then◌else◌,
}
use openoscamp_2025s.Base.Fault.{Exec, done, fault, ◌>>=◌, ◌>>◌, assert, expect}
use openoscamp_2025s.Shm.{MemLayout, layout_array}

-- A block of n bytes from the address p on, and others that it has no byte in common with.
unfoldable pub IsApart : ℕ → ℕ → List (ℕ × ℕ) → Type 0
IsApart p n [] = Unit {0}
IsApart p n (q ∷ rest) = ((p + n ≤ q.0) ⊎ (q.0 + q.1 ≤ p)) × IsApart p n rest

-- The first block at an address is gone.
unfoldable pub without : ℕ → List (ℕ × ℕ) → List (ℕ × ℕ)
without p [] = []
without p (q ∷ rest) = if q.0 == p then rest else q ∷ without p rest

-- `Tlsf`: the memory that it was given, the blocks that it has handed out, and what it does to them.
pub record Tlsf : Type 1 where
  pub Z : Type 0
  pub allocate : Z → MemLayout → Option (ℕ × Z)
  pub deallocate : Z → (ptr align : ℕ) → Z
  pub pool : Z → ℕ × ℕ
  pub live : Z → List (ℕ × ℕ)
  pub allocate_some :
      (s s' : Z) (l : MemLayout) (p : ℕ)
      → allocate s l ≡ some (p, s')
      → (p % l.align ≡ 0)
        × ((pool s).0 ≤ p)
        × (p + l.size ≤ (pool s).1)
        × IsApart p l.size (live s)
        × (live s' ≡ (p, l.size) ∷ live s)
        × (pool s' ≡ pool s)
  pub live-deallocate : (s : Z) (p n : ℕ) → live (deallocate s p n) ≡ without p (live s)
  pub pool-deallocate : (s : Z) (p n : ℕ) → pool (deallocate s p n) ≡ pool s

-- `ShmBox`, with the layout of what it holds.
pub record ShmBox : Type 0 where
  pub ptr : ℕ
  pub layout : MemLayout

module _ (tlsf : Tlsf) where
  open tlsf use {Z, allocate, deallocate}

  unfoldable pub alloc_raw : Z → MemLayout → Exec (ℕ × Z)
  alloc_raw s layout = assert (not (layout.size == 0)) >> expect (allocate s layout)

  unfoldable pub dealloc_raw : Z → ℕ → MemLayout → Exec Z
  dealloc_raw s ptr layout = assert (not (layout.size == 0)) >> done (deallocate s ptr layout.align)

  -- `alloc_slice_uninit`, and the slices that are filled after it
  unfoldable pub alloc_slice_uninit : Z → MemLayout → ℕ → Exec (MemLayout × ℕ × Z)
  alloc_slice_uninit s t n = do
    layout ← expect (layout_array t n)
    r ← alloc_raw s layout
    done (layout, r.0, r.1)

  -- `ShmBox::new`, `new_uninit`
  unfoldable pub new_box : Z → MemLayout → Exec (ShmBox × Z)
  new_box s t = alloc_raw s t >>= λ r. done (record { ptr = r.0; layout = t }, r.1)

  -- `new_slice_uninit`, `new_slice_copied`, `new_slice_filled`
  unfoldable pub new_slice : Z → MemLayout → ℕ → Exec (ShmBox × Z)
  new_slice s t n = alloc_slice_uninit s t n >>= λ r. done (record { ptr = r.1; layout = r.0 }, r.2)

  -- `Drop for ShmBox`
  unfoldable pub drop_box : Z → ShmBox → Exec Z
  drop_box s x = dealloc_raw s x.ptr x.layout
