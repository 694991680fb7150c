-- ===== src/Shm/Bytes/Pair.antt =====
-- Two blocks of a shared memory that are apart, as the two boxes of a ping.
use openoscamp_2025s.Base.{
  ℕ, ◌+◌, ◌-◌, ◌≤◌, ◌≡◌, sym, ap, ◌∙◌, subst, Option, some, List, map, arith, length, ◌⊎◌, inl, inr,
}
use openoscamp_2025s.Shm.Bytes.{write_cells, read_cells}
use openoscamp_2025s.Shm.Bytes.Cells.{read-write_same, read-write_apart}

-- A write to one block does not show in another, whatever the mapping.
unchanged :
    (cells : ℕ → Option ℕ) (start p n q m : ℕ) (content : List (Option ℕ))
    → start ≤ p
    → start ≤ q
    → n ≡ length content
    → (p + n ≤ q) ⊎ (q + m ≤ p)
    → read_cells (write_cells cells (p - start) content) (q - start) m
      ≡ read_cells cells (q - start) m
unchanged cells start p n q m content sp sq size (inl h) =
    read-write_apart cells (p - start) (q - start) m content (inr (omega arith))
unchanged cells start p n q m content sp sq size (inr h) =
    read-write_apart cells (p - start) (q - start) m content (inl (omega arith))

read_back :
    (cells : ℕ → Option ℕ) (a n : ℕ) (content : List (Option ℕ))
    → n ≡ length content
    → read_cells (write_cells cells a content) a n ≡ content
read_back cells a n content size =
    ap (read_cells (write_cells cells a content) a) size ∙ read-write_same cells a content

abbrev pub made_cells : (start p1 p2 : ℕ) → (ℕ → Option ℕ) → List ℕ → List (Option ℕ) → ℕ → Option ℕ
made_cells start p1 p2 cells src blank =
    write_cells (write_cells cells (p1 - start) (map some src)) (p2 - start) blank

-- Two blocks that are apart: the first is filled, the second is made and later written.
module _ (start p1 n1 p2 n2 : ℕ) (cells : ℕ → Option ℕ) (src letters : List ℕ)
    (blank : List (Option ℕ)) (above1 : start ≤ p1) (above2 : start ≤ p2)
    (size1 : n1 ≡ length (map some src)) (size2 : n2 ≡ length blank)
    (letters_fit : n2 ≡ length (map some letters)) (apart : (p2 + n2 ≤ p1) ⊎ (p1 + n1 ≤ p2)) where
  abbrev pub first_cells : ℕ → Option ℕ
  first_cells = made_cells start p1 p2 cells src blank

  abbrev last_cells : ℕ → Option ℕ
  last_cells = write_cells first_cells (p2 - start) (map some letters)

  first_made : read_cells first_cells (p1 - start) n1 ≡ map some src
  first_made =
      unchanged (write_cells cells (p1 - start) (map some src)) start p2 n2 p1 n1 blank above2
        above1 size2 apart
      ∙ read_back cells (p1 - start) n1 (map some src) size1

  first_served : read_cells last_cells (p1 - start) n1 ≡ map some src
  first_served =
      unchanged first_cells start p2 n2 p1 n1 (map some letters) above2 above1 letters_fit apart
      ∙ first_made

  second_served : read_cells last_cells (p2 - start) n2 ≡ map some letters
  second_served = read_back first_cells (p2 - start) n2 (map some letters) letters_fit

  other_served :
      (q m : ℕ)
      → start ≤ q
      → (p1 + n1 ≤ q) ⊎ (q + m ≤ p1)
      → (p2 + n2 ≤ q) ⊎ (q + m ≤ p2)
      → read_cells last_cells (q - start) m ≡ read_cells cells (q - start) m
  other_served q m above a1 a2 =
      unchanged first_cells start p2 n2 q m (map some letters) above2 above letters_fit a2
      ∙ unchanged (write_cells cells (p1 - start) (map some src)) start p2 n2 q m blank above2 above
          size2 a2
      ∙ unchanged cells start p1 n1 q m (map some src) above1 above size1 a1

  abbrev pub Served : (ℕ → Option ℕ) → Type 0
  Served m =
      (read_cells m (p1 - start) n1 ≡ map some src)
      × (read_cells (write_cells m (p2 - start) (map some letters)) (p1 - start) n1 ≡ map some src)
      × (read_cells (write_cells m (p2 - start) (map some letters)) (p2 - start) n2
          ≡ map some letters)
      × ((q k : ℕ)
          → start ≤ q
          → (p1 + n1 ≤ q) ⊎ (q + k ≤ p1)
          → (p2 + n2 ≤ q) ⊎ (q + k ≤ p2)
          → read_cells (write_cells m (p2 - start) (map some letters)) (q - start) k
            ≡ read_cells cells (q - start) k)

  pub both-Served : (m : ℕ → Option ℕ) → m ≡ first_cells → Served m
  both-Served m e = subst Served (sym e) (first_made, first_served, second_served, other_served)
