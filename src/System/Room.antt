-- ===== src/System/Room.antt =====
-- The operations on their way are no more than the driver has entries.
use openoscamp_2025s.Base.{
  ℕ, ◌+◌, ◌≤◌, ◌≡◌, refl, ap, Bool, Bool-cases, Option-cases, true, false, suc, Option, none, some,
  List, [], ◌∷◌, ◌++◌, length, arith, ◌==◌, ==_of_eq, if◌then◌else◌, inl, inr, map,
}
use openoscamp_2025s.Slab.{Slab}
use openoscamp_2025s.System.Count.{at_most_one}
use openoscamp_2025s.System.{tally, response_ids}
use openoscamp_2025s.Runtime.{Rqe}
use openoscamp_2025s.Server.{RqeData}
use openoscamp_2025s.Server.Round.{count}

abbrev pub is_some : {A : Type 0} → Option A → Bool
is_some none = false
is_some (some a) = true

pub tally-append : (j : ℕ) (l m : List ℕ) → tally j (l ++ m) ≡ tally j l + tally j m
unfolding tally
tally-append j [] m = omega arith
tally-append j (i ∷ l) m = omega (arith, tally-append j l m)

pub tally-response_ids :
    {V : Type 0} (j : ℕ) (q : List (Rqe (RqeData V))) → tally j (response_ids q) ≡ count j q
unfolding tally count
tally-response_ids j [] = refl
tally-response_ids j (r ∷ q) =
    ap (λ (n : ℕ). (if r.id == j then 1 else 0) + n) (tally-response_ids j q)

pub length-map : {A B : Type 0} (f : A → B) (l : List A) → length (map f l) ≡ length l
length-map f [] = refl
length-map f (x ∷ l) = ap suc (length-map f l)

module _ {T : Type 0} (slab : Slab T) where
  open slab use {S, get, len, remove_some}

  -- Ids that differ and are all in use are no more than the entries.
  pub distinct_fit :
      (l : List ℕ) (s : S)
      → ((j : ℕ) → tally j l ≤ (if is_some (get s j) then 1 else 0))
      → length l ≤ len s
  unfolding tally
  distinct_fit [] s once = omega arith
  distinct_fit (i ∷ l) s once = elim (Option-cases (get s i)) [
    | inl e ↦ absurd (omega (arith, rw (e, ==_of_eq i i refl) at (once i)))
    | inr (v, e) ↦
        let (s', r, d, n, c) = remove_some s i v e in
        omega (arith, n, distinct_fit l s' (λ j. fewer j s' (d j)))
  ]
    where
      fewer :
          (j : ℕ) (s' : S)
          → get s' j ≡ (if i == j then none else get s j)
          → tally j l ≤ (if is_some (get s' j) then 1 else 0)
      fewer j s' d = elim (Bool-cases (i == j)) [
        | inl t ↦ rw (d, t) (omega (arith, rw t at (once j), at_most_one (is_some (get s j))))
        | inr f ↦ rw (d, f) (omega (arith, rw f at (once j)))
      ]
