-- ===== src/System/Count.antt =====
-- How often an id is in the lists of requests and responses.
use mathlib.Core.Option.{none-ne-some}
use openoscamp_2025s.Base.{
  ℕ, zero, suc, ◌+◌, ◌≤◌, ◌≡◌, refl, sym, ap, ◌∙◌, Bool, true, false, some, List, [], ◌∷◌, ◌++◌,
  ◌==◌, if◌then◌else◌, Bool-cases, Option-cases, inl, inr, map, arith, ==_iff,
}
use openoscamp_2025s.Op.Flight.{put}
use openoscamp_2025s.System.{tally, pick}

pub tally-last :
    {A : Type 0} (f : A → ℕ) (j : ℕ) (l : List A) (x : A)
    → tally j (map f (l ++ x ∷ [])) ≡ tally j (map f l) + (if f x == j then 1 else 0)
unfolding tally
tally-last f j [] x = omega arith
tally-last f j (y ∷ l) x = omega (arith, tally-last f j l x)

pub newly_owed :
    (owed : ℕ → Bool) (id : ℕ) (n j : ℕ)
    → owed id ≡ false
    → n ≡ (if owed j then 1 else 0)
    → n + (if id == j then 1 else 0) ≡ (if put owed id true j then 1 else 0)
newly_owed owed id n j not_owed e = elim (Bool-cases (id == j)) [
  | inl t ↦
      let no : owed j ≡ false = ap owed (sym ((==_iff id j).0 t)) ∙ not_owed in
      rw t (omega (arith, rw no at e))
  | inr f ↦ rw f (omega (arith, e))
]

pub swap_sum :
    (a b a' b' l r x o : ℕ) → a + b ≡ a' + b' + x → a' + b' + l + r + x ≡ o → a + b + l + r ≡ o
swap_sum a b a' b' l r x o p q = omega arith

some_inj : {A : Type 0} {x y : A} → some x ≡ some y → x ≡ y
some_inj e = cc

-- The entry that was picked, and those that are left, are the entries there were.
pub tally-pick :
    {A : Type 0} (f : A → ℕ) (i j : ℕ) (l : List A) (x : A) (rest : List A)
    → pick i l ≡ some (x, rest)
    → tally j (map f l) ≡ tally j (map f rest) + (if f x == j then 1 else 0)
unfolding pick tally
tally-pick f i j [] x rest e = absurd (none-ne-some _ e)
tally-pick {A = A} f zero j (y ∷ l) x rest e =
    let p : ◌≡◌ {A = A × List A} (y, l) (x, rest) = some_inj e in
    omega (arith, ap (λ (r : A × List A). tally j (map f r.1) + (if f r.0 == j then 1 else 0)) p)
tally-pick {A = A} f (suc i) j (y ∷ l) x rest e = elim (Option-cases (pick i l)) [
  | inl q ↦ absurd (none-ne-some _ (rw q at e))
  | inr ((z, zs), q) ↦
      let p : ◌≡◌ {A = A × List A} (z, y ∷ zs) (x, rest) = some_inj (rw q at e) in
      omega (
        arith,
        tally-pick f i j l z zs q,
        ap (λ (r : A × List A). tally j (map f r.1) + (if f r.0 == j then 1 else 0)) p,
      )
]

pub at_most_one : (b : Bool) → (if b then 1 else 0) ≤ 1
at_most_one true = omega arith
at_most_one false = omega arith

pub settled :
    (owed : ℕ → Bool) (id n j : ℕ)
    → n + (if id == j then 1 else 0) ≡ (if owed j then 1 else 0)
    → n ≡ (if put owed id false j then 1 else 0)
settled owed id n j e = elim (Bool-cases (id == j)) [
  | inl t ↦ rw t (omega (arith, rw t at e, at_most_one (owed j)))
  | inr f ↦ rw f (omega (arith, rw f at e))
]

-- What is on its way is owed.
pub due : (o : Bool) (n : ℕ) → n + 1 ≡ (if o then 1 else 0) → o ≡ true
due true n e = refl
due false n e = absurd (omega arith)
