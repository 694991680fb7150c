-- ===== src/System/Typed.antt =====
-- What keeps the labels of requests, responses and operations.
use mathlib.Core.Option.{none-ne-some}
use openoscamp_2025s.Base.{
  ℕ, zero, suc, ◌≡◌, refl, sym, ◌∙◌, subst, Bool, false, Option, some, List, [], ◌∷◌, ◌++◌, ◌==◌,
  ==_iff, Bool-cases, Option-cases, inl, inr, map, arith,
}
use openoscamp_2025s.Slab.{Slab}
use openoscamp_2025s.Driver.{RawOp}
use openoscamp_2025s.Driver.Steps.{Differs}
use openoscamp_2025s.Op.Flight.{put}
use openoscamp_2025s.System.Sound.{Labelled, HandleFits, EntryFits}
use openoscamp_2025s.System.{tally, pick}

pub HandleFits-put :
    {T : Type 0} (wants : T → Bool) (kind : ℕ → Bool) (f : ℕ → Option T) (id : ℕ) (v : Option T)
    → HandleFits wants (kind id) v
    → ((j : ℕ) → HandleFits wants (kind j) (f j))
    → (j : ℕ) → HandleFits wants (kind j) (put f id v j)
HandleFits-put wants kind f id v here fits j = elim (Bool-cases (id == j)) [
  | inl t ↦ rw t (subst (λ k. HandleFits wants (kind k) v) ((==_iff id j).0 t) here)
  | inr n ↦ rw n (fits j)
]

module _ {P R Ext : Type 0} (slab : Slab (RawOp P R Ext)) where
  open slab use {S, get}

  pub EntryFits-differs :
      (gives : P → Bool) (kind : ℕ → Bool) (s s' : S) (id : ℕ) (e : Option (RawOp P R Ext))
      → Differs slab s s' id e
      → EntryFits gives (kind id) e
      → ((j : ℕ) → EntryFits gives (kind j) (get s j))
      → (j : ℕ) → EntryFits gives (kind j) (get s' j)
  EntryFits-differs gives kind s s' id e d here fits j = elim (Bool-cases (id == j)) [
    | inl t ↦
        subst (EntryFits gives (kind j)) (sym (d j ∙ rw t refl))
          (subst (λ k. EntryFits gives (kind k) e) ((==_iff id j).0 t) here)
    | inr n ↦ subst (EntryFits gives (kind j)) (sym (d j ∙ rw n refl)) (fits j)
  ]

module _ {A : Type 0} (id_of : A → ℕ) (label : A → Bool) where
  pub Labelled-append :
      (kind : ℕ → Bool) (l m : List A)
      → Labelled id_of label kind l
      → Labelled id_of label kind m
      → Labelled id_of label kind (l ++ m)
  Labelled-append kind [] m a b = b
  Labelled-append kind (x ∷ l) m (h, a) b = (h, Labelled-append kind l m a b)

  pub Labelled-pick :
      (kind : ℕ → Bool) (i : ℕ) (l : List A) (x : A) (rest : List A)
      → pick i l ≡ some (x, rest)
      → Labelled id_of label kind l
      → (label x ≡ kind (id_of x)) × Labelled id_of label kind rest
  unfolding pick
  Labelled-pick kind i [] x rest e a = absurd (none-ne-some _ e)
  Labelled-pick kind zero (y ∷ l) x rest e (h, a) =
      subst (λ (r : A × List A). (label r.0 ≡ kind (id_of r.0)) × Labelled id_of label kind r.1)
        (some_inj e) (h, a)
    where
      some_inj : {B : Type 0} {u v : B} → some u ≡ some v → u ≡ v
      some_inj q = cc
  Labelled-pick kind (suc i) (y ∷ l) x rest e (h, a) = elim (Option-cases (pick i l)) [
    | inl q ↦ absurd (none-ne-some _ (rw q at e))
    | inr ((z, zs), q) ↦
        let (h', a') = Labelled-pick kind i l z zs q a in
        subst (λ (r : A × List A). (label r.0 ≡ kind (id_of r.0)) × Labelled id_of label kind r.1)
          (some_inj (rw q at e)) (h', (h, a'))
  ]
    where
      some_inj : {B : Type 0} {u v : B} → some u ≡ some v → u ≡ v
      some_inj q = cc

  -- A new label of an id that is not in the list.
  pub Labelled-put :
      (kind : ℕ → Bool) (id : ℕ) (b : Bool) (l : List A)
      → tally id (map id_of l) ≡ 0
      → Labelled id_of label kind l
      → Labelled id_of label (put kind id b) l
  unfolding tally
  Labelled-put kind id b [] none_there a = tt
  Labelled-put kind id b (x ∷ l) none_there (h, a) = elim (Bool-cases (id_of x == id)) [
    | inl t ↦ absurd (omega (arith, rw t at none_there))
    | inr n ↦ (rw (swapped (id_of x) n) h, Labelled-put kind id b l (omega (arith, none_there)) a)
  ]
    where
      swapped : (y : ℕ) → (y == id) ≡ false → (id == y) ≡ false
      swapped y n = ground arith
