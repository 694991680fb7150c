-- ===== src/Shm/Alloc/Bump.antt =====
-- An allocator that meets the behaviour which Shm/Alloc.antt states: it goes up through its memory, and
-- hands a block out only if it is seen to be fine. The tests run the boxes on it.
use mathlib.Core.Option.{none-ne-some}
use openoscamp_2025s.Base.{
  ℕ, ◌+◌, ◌*◌, ◌/◌, ◌%◌, ◌≤◌, ◌≡◌, refl, sym, ap, subst, ◌∙◌, ◌⊎◌, Bool, true, false, ◌&&◌, ◌||◌,
  Option, none, some, List, [], ◌∷◌, leb, leb→le, ◌==◌, ==_iff, if◌then◌else◌, Bool-cases, inl, inr,
  arith,
}
use openoscamp_2025s.Shm.{MemLayout}
use openoscamp_2025s.Shm.Alloc.{IsApart, without, Tlsf}

pub record Bump : Type 0 where
  pub memory : ℕ × ℕ
  pub next : ℕ
  pub blocks : List (ℕ × ℕ)

unfoldable pub apart_test : ℕ → ℕ → List (ℕ × ℕ) → Bool
apart_test p n [] = true
apart_test p n (q ∷ rest) = (leb (p + n) q.0 || leb (q.0 + q.1) p) && apart_test p n rest

apart_test_lem : (p n : ℕ) (l : List (ℕ × ℕ)) → apart_test p n l ≡ true → IsApart p n l
unfolding apart_test IsApart
apart_test_lem p n [] e = tt
apart_test_lem p n (q ∷ rest) e = (one, apart_test_lem p n rest (ground arith))
  where
    one : (p + n ≤ q.0) ⊎ (q.0 + q.1 ≤ p)
    one = elim (Bool-cases (leb (p + n) q.0)) [
      | inl t ↦ inl (leb→le (p + n) q.0 t)
      | inr t ↦ inr (ground arith)
    ]

unfoldable pub fine_test : Bump → MemLayout → ℕ → Bool
fine_test s l p =
    (p % l.align == 0)
    && (leb (s.memory.0) p && (leb (p + l.size) (s.memory.1) && apart_test p l.size s.blocks))

unfoldable pub taken : Bump → MemLayout → ℕ → Bump
taken s l p = record s { next = p + l.size; blocks = (p, l.size) ∷ s.blocks }

unfoldable pub place : Bump → MemLayout → ℕ
place s l = (s.next / l.align + 1) * l.align

unfoldable pub allocate_at : Bump → MemLayout → ℕ → Option (ℕ × Bump)
allocate_at s l p = if fine_test s l p then some (p, taken s l p) else none

and_left : (x y : Bool) → (x && y) ≡ true → x ≡ true
and_left true y e = refl
and_left false y e = e

and_right : (x y : Bool) → (x && y) ≡ true → y ≡ true
and_right true y e = e
and_right false y e = cc

fine_lem :
    (s : Bump) (l : MemLayout) (p : ℕ)
    → fine_test s l p ≡ true
    → (p % l.align ≡ 0) × (s.memory.0 ≤ p) × (p + l.size ≤ s.memory.1) × IsApart p l.size s.blocks
unfolding fine_test
fine_lem s l p e =
    let r : (leb (s.memory.0) p && (leb (p + l.size) (s.memory.1) && apart_test p l.size s.blocks))
        ≡ true =
      and_right (p % l.align == 0) _ e in
    let r' : (leb (p + l.size) (s.memory.1) && apart_test p l.size s.blocks) ≡ true =
      and_right (leb (s.memory.0) p) _ r in
    (
      (==_iff (p % l.align) 0).0 (and_left (p % l.align == 0) _ e),
      leb→le (s.memory.0) p (and_left (leb (s.memory.0) p) _ r),
      leb→le (p + l.size) (s.memory.1) (and_left (leb (p + l.size) (s.memory.1)) _ r'),
      apart_test_lem p l.size s.blocks (and_right (leb (p + l.size) (s.memory.1)) _ r'),
    )

some_inj : {X : Type 0} {x y : X} → some x ≡ some y → x ≡ y
some_inj e = cc

pub allocate_at_lem :
    (s s' : Bump) (l : MemLayout) (p q : ℕ)
    → allocate_at s l q ≡ some (p, s')
    → (p % l.align ≡ 0)
      × (s.memory.0 ≤ p)
      × (p + l.size ≤ s.memory.1)
      × IsApart p l.size s.blocks
      × (s'.blocks ≡ (p, l.size) ∷ s.blocks)
      × (s'.memory ≡ s.memory)
unfolding allocate_at taken
allocate_at_lem s s' l p q e = elim (Bool-cases (fine_test s l q)) [
  | inl t ↦
      let same : (q, taken s l q) ≡ (p, s') = some_inj (rw t at e) in
      let at : q ≡ p = ap (λ (r : ℕ × Bump). r.0) same in
      let after : taken s l q ≡ s' = ap (λ (r : ℕ × Bump). r.1) same in
      let (f1, f2, f3, f4) = fine_lem s l p (subst (λ k. fine_test s l k ≡ true) at t) in
      (
        f1,
        f2,
        f3,
        f4,
        ap (λ (r : Bump). r.blocks) (sym after) ∙ ap (λ (k : ℕ). (k, l.size) ∷ s.blocks) at,
        ap (λ (r : Bump). r.memory) (sym after),
      )
  | inr t ↦ absurd (none-ne-some (p, s') (rw t at e))
]

abbrev pub bump : Tlsf
bump = record {
  Z = Bump;
  allocate = λ s l. allocate_at s l (place s l);
  deallocate = λ s p n. record s { blocks = without p s.blocks };
  pool = λ s. s.memory;
  live = λ s. s.blocks;
  allocate_some = λ s s' l p e. allocate_at_lem s s' l p (place s l) e;
  live-deallocate = λ s p n. refl;
  pool-deallocate = λ s p n. refl;
}
