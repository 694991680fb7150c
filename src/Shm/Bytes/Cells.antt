-- ===== src/Shm/Bytes/Cells.antt =====
-- Reads and writes of the bytes of a shared memory.
use openoscamp_2025s.Base.{
  ℕ, zero, suc, ◌+◌, ◌≤◌, ◌<◌, ◌≡◌, refl, ap₂, ◌∙◌, Option, some, List, [], ◌∷◌, map, arith, length,
  ◌⊎◌, inl, inr, ==_of_eq, ==_of_ne,
}
use openoscamp_2025s.Base.Fault.{done}
use openoscamp_2025s.Shm.Bytes.{write_cells, read_cells, init_bytes}

write_below :
    (m : ℕ → Option ℕ) (a j : ℕ) (bs : List (Option ℕ)) → j < a → write_cells m a bs j ≡ m j
unfolding write_cells
write_below m a j [] lt = refl
write_below m a j (b ∷ bs) lt =
    rw (==_of_ne a j (λ e. omega (arith, lt, e))) (write_below m (a + 1) j bs (omega arith))

write_above :
    (m : ℕ → Option ℕ) (a j : ℕ) (bs : List (Option ℕ))
    → a + length bs ≤ j
    → write_cells m a bs j ≡ m j
unfolding write_cells
write_above m a j [] le = refl
write_above m a j (b ∷ bs) le =
    rw (==_of_ne a j (λ e. omega (arith, le, e))) (write_above m (a + 1) j bs (omega arith))

-- What is read depends on the bytes that are read only.
read_agrees :
    (m m' : ℕ → Option ℕ) (a n : ℕ)
    → ((j : ℕ) → a ≤ j → j < a + n → m j ≡ m' j)
    → read_cells m a n ≡ read_cells m' a n
unfolding read_cells
read_agrees m m' a zero same = refl
read_agrees m m' a (suc n) same =
    ap₂ (λ x l. x ∷ l) (same a (omega arith) (omega arith))
      (read_agrees m m' (a + 1) n (λ j lo hi. same j (omega arith) (omega arith)))

pub read-write_same :
    (m : ℕ → Option ℕ) (a : ℕ) (bs : List (Option ℕ))
    → read_cells (write_cells m a bs) a (length bs) ≡ bs
unfolding read_cells write_cells
read-write_same m a [] = refl
read-write_same m a (b ∷ bs) =
    ap₂ (λ x l. x ∷ l) (rw (==_of_eq a a refl) refl)
      (read_agrees (write_cells m a (b ∷ bs)) (write_cells m (a + 1) bs) (a + 1) (length bs)
          (λ j lo hi. rw (==_of_ne a j (λ e. omega (arith, lo, e))) refl)
        ∙ read-write_same m (a + 1) bs)

pub read-write_apart :
    (m : ℕ → Option ℕ) (a b n : ℕ) (bs : List (Option ℕ))
    → (b + n ≤ a) ⊎ (a + length bs ≤ b)
    → read_cells (write_cells m a bs) b n ≡ read_cells m b n
read-write_apart m a b n bs (inl before) =
    read_agrees (write_cells m a bs) m b n (λ j lo hi. write_below m a j bs (omega arith))
read-write_apart m a b n bs (inr behind) =
    read_agrees (write_cells m a bs) m b n (λ j lo hi. write_above m a j bs (omega arith))

pub init_bytes-some : (bs : List ℕ) → init_bytes (map some bs) ≡ done bs
unfolding init_bytes
init_bytes-some [] = refl
init_bytes-some (b ∷ bs) = rw (init_bytes-some bs) refl
