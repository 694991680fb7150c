-- ===== src/Shm/Alloc/Apart.antt =====
-- Blocks of memory that have no byte in common, and the boxes of examples/evering-ipc/src/shm/boxed.rs
-- that stand in them.
use mathlib.Core.Option.{none-ne-some}
use openoscamp_2025s.Base.{
  ℕ, ◌+◌, ◌≤◌, ◌<◌, ◌≡◌, sym, ap, ◌∙◌, subst, inl, inr, Option, none, some, List, [], ◌∷◌, map,
  ◌==◌, ==_iff, if◌then◌else◌, Bool-cases, Option-cases,
}
use openoscamp_2025s.Shm.{MemLayout}
use openoscamp_2025s.Shm.Alloc.{IsApart, without, ShmBox}

unfoldable pub AreApart : List (ℕ × ℕ) → Type 0
AreApart [] = Unit {0}
AreApart (q ∷ rest) = IsApart q.0 q.1 rest × AreApart rest

-- Each block is in the memory [lo, hi), and not empty.
unfoldable pub AreInside : ℕ → ℕ → List (ℕ × ℕ) → Type 0
AreInside lo hi [] = Unit {0}
AreInside lo hi (q ∷ rest) = (lo ≤ q.0) × (q.0 + q.1 ≤ hi) × (0 < q.1) × AreInside lo hi rest

pub without-IsApart : (p q n : ℕ) (l : List (ℕ × ℕ)) → IsApart q n l → IsApart q n (without p l)
unfolding IsApart without
without-IsApart p q n [] a = tt
without-IsApart p q n (x ∷ rest) (h, a) = elim (Bool-cases (x.0 == p)) [
  | inl t ↦ rw t a
  | inr t ↦ rw t (h, without-IsApart p q n rest a)
]

pub without-AreApart : (p : ℕ) (l : List (ℕ × ℕ)) → AreApart l → AreApart (without p l)
unfolding AreApart without
without-AreApart p [] a = tt
without-AreApart p (x ∷ rest) (h, a) = elim (Bool-cases (x.0 == p)) [
  | inl t ↦ rw t a
  | inr t ↦ rw t (without-IsApart p x.0 x.1 rest h, without-AreApart p rest a)
]

pub without-AreInside :
    (p lo hi : ℕ) (l : List (ℕ × ℕ)) → AreInside lo hi l → AreInside lo hi (without p l)
unfolding AreInside without
without-AreInside p lo hi [] a = tt
without-AreInside p lo hi (x ∷ rest) (h, h', z, a) = elim (Bool-cases (x.0 == p)) [
  | inl t ↦ rw t a
  | inr t ↦ rw t (h, h', z, without-AreInside p lo hi rest a)
]

abbrev pub block : ShmBox → ℕ × ℕ
block x = (x.ptr, x.layout.size)

-- The first box at an address, and the others.
unfoldable pub find_box : ℕ → List ShmBox → Option (ShmBox × List ShmBox)
find_box p [] = none
find_box p (x ∷ rest) =
    let further : Option (ShmBox × List ShmBox) = elim (find_box p rest) [
      | none ↦ none
      | some r ↦ some (r.0, x ∷ r.1)
    ] in
    if x.ptr == p then some (x, rest) else further

-- What the client does: new boxes, slices, and the drop of the box at an address.
pub data BoxAct : Type 0 where
  make : MemLayout → BoxAct
  make_slice : MemLayout → ℕ → BoxAct
  drop_at : ℕ → BoxAct

pub record Boxes (Z : Type 0) : Type 0 where
  pub allocator : Z
  pub boxes : List ShmBox

-- What is found is at the address, is not empty, and the others are what is left.
pub find_box_lem :
    (p lo hi : ℕ) (l : List ShmBox) (r : ShmBox × List ShmBox)
    → AreInside lo hi (map block l)
    → find_box p l ≡ some r
    → (r.0.ptr ≡ p) × (0 < r.0.layout.size) × (map block r.1 ≡ without p (map block l))
unfolding find_box without AreInside
find_box_lem p lo hi [] r a e = cc
find_box_lem p lo hi (x ∷ rest) r (h, h', z, a) e = elim (Bool-cases (x.ptr == p)) [
  | inl t ↦
      let same : (x, rest) ≡ r = some_inj (rw t at e) in
      let q : x ≡ r.0 = ap (λ (y : ShmBox × List ShmBox). y.0) same in
      let q' : rest ≡ r.1 = ap (λ (y : ShmBox × List ShmBox). y.1) same in
      (
        ap (λ (y : ShmBox). y.ptr) (sym q) ∙ (==_iff x.ptr p).0 t,
        subst (λ (y : ShmBox). 0 < y.layout.size) q z,
        rw t (ap (map block) (sym q')),
      )
  | inr t ↦ elim (Option-cases (find_box p rest)) [
    | inl n ↦ absurd (none-ne-some r (rw (t, n) at e))
    | inr (r', n) ↦
        let (i, z', m) = find_box_lem p lo hi rest r' a n in
        let same : (r'.0, x ∷ r'.1) ≡ r = some_inj (rw (t, n) at e) in
        let q : r'.0 ≡ r.0 = ap (λ (y : ShmBox × List ShmBox). y.0) same in
        let q' : x ∷ r'.1 ≡ r.1 = ap (λ (y : ShmBox × List ShmBox). y.1) same in
        (
          ap (λ (y : ShmBox). y.ptr) (sym q) ∙ i,
          subst (λ (y : ShmBox). 0 < y.layout.size) q z',
          rw t (ap (map block) (sym q') ∙ ap (λ k. block x ∷ k) m),
        )
  ]
]
  where
    some_inj : {X : Type 0} {x y : X} → some x ≡ some y → x ≡ y
    some_inj e = cc
