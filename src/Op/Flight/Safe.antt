-- ===== src/Op/Flight/Safe.antt =====
-- Every sequence of calls of such a client is safe: evering/src/driver.rs never meets an entry that it
-- calls invalid.
use mathlib.Core.Bool.{false≢true}
use mathlib.Core.Option.{none-ne-some}
use openoscamp_2025s.Base.{
  ℕ, ◌≡◌, refl, sym, ap, ◌∙◌, Bool, true, false, none, some, List, inl, inr, ◌↔◌, ◌⊎◌,
}
use openoscamp_2025s.Base.Fault.{done, assert}
use openoscamp_2025s.Slab.{Slab}
use openoscamp_2025s.Driver.{RawOp, contains, drop_driver, is_completed}
use openoscamp_2025s.Driver.Steps.{IsOpen, fresh, waited}
use openoscamp_2025s.Op.{Completable}
use openoscamp_2025s.Op.Flight.{Act, World, Fits, absent, flying, answered, orphan, run, IsFlight}
use openoscamp_2025s.Op.Flight.Step.{run_lem}

passed : {b? : Bool} → assert b? ≡ done tt → b? ≡ true
passed {b? = true} e = refl
passed {b? = false} e = cc

some_inj : {A : Type 0} {x y : A} → some x ≡ some y → x ≡ y
some_inj e = cc

module _ {T P R Ext O : Type 0} (slab : Slab (RawOp P R Ext)) (c : Completable T P R Ext O) where
  open slab use {S, get, vacant, get-vacant, every, every_iff}

  -- An entry is in the driver exactly as long as somebody is still to come for it.
  flight-contains :
      (w : World S T) (j : ℕ)
      → IsFlight slab c w
      → (contains slab w.store j ≡ true) ↔ (((t : T) × (w.handles j ≡ some t)) ⊎ (w.owed j ≡ true))
  unfolding contains
  flight-contains w j fits = elim (fits j) [
    | absent e h o ↦ (
      λ y. absurd (false≢true (sym (rw (e, contains)) ∙ y)),
      λ z. elim z [
        | inl (t, q) ↦ absurd (none-ne-some _ (sym h ∙ q))
        | inr q ↦ absurd (false≢true (sym o ∙ q))
      ],
    )
    | flying op ws t e l h o ↦ (λ y. inr o, λ z. rw (e, contains))
    | answered op p t e l h o ↦ (λ y. inl (t, h), λ z. rw (e, contains))
    | orphan op x e l h o ↦ (λ y. inr o, λ z. rw (e, contains))
  ]

  open_incomplete :
      (op : RawOp P R Ext) (ws : List ℕ) → IsOpen op.state ws → is_completed op ≡ false
  open_incomplete op ws (fresh l) = rw l
  open_incomplete op ws (waited w l) = rw l

  completed_settled :
      (w : World S T) (j : ℕ)
      → ((op : RawOp P R Ext) → get w.store j ≡ some op → is_completed op ≡ true)
      → Fits (get w.store j) (w.handles j) (w.owed j)
      → w.owed j ≡ false
  completed_settled w j all (absent e h o) = o
  completed_settled w j all (flying op ws t e l h o) =
      absurd (false≢true (sym (open_incomplete op ws l) ∙ all op e))
  completed_settled w j all (answered op p t e l h o) = o
  completed_settled w j all (orphan op x e l h o) =
      let q : is_completed op ≡ false = rw l in absurd (false≢true (sym q ∙ all op e))

  settled_completed :
      (w : World S T) (j : ℕ) (v : RawOp P R Ext)
      → w.owed j ≡ false
      → get w.store j ≡ some v
      → Fits (get w.store j) (w.handles j) (w.owed j)
      → is_completed v ≡ true
  settled_completed w j v n g (absent e h o) = absurd (none-ne-some _ (sym e ∙ g))
  settled_completed w j v n g (flying op ws t e l h o) = absurd (false≢true (sym n ∙ o))
  settled_completed w j v n g (answered op p t e l h o) =
      ap is_completed (sym (some_inj (sym e ∙ g))) ∙ rw l
  settled_completed w j v n g (orphan op x e l h o) = absurd (false≢true (sym n ∙ o))

  pub flight-drop_driver :
      (w : World S T)
      → IsFlight slab c w
      → (drop_driver slab w.store ≡ done tt) ↔ ((j : ℕ) → w.owed j ≡ false)
  unfolding drop_driver
  flight-drop_driver w fits = (
    λ r j.
        completed_settled w j (λ op. (every_iff w.store is_completed).0 (passed r) j op) (fits j),
    λ n.
        let q : every w.store is_completed ≡ true =
          (every_iff w.store is_completed).1 (λ j v g. settled_completed w j v (n j) g (fits j)) in
        rw q,
  )

  abbrev pub fresh_world : ℕ → World S T
  fresh_world n = record { store = vacant n; handles = λ j. none; owed = λ j. false }

  -- From an empty driver of any capacity, no sequence of submissions, awaits, drops of handles and
  -- responses panics, if each submission is answered at most once and a handle is dropped when it was
  -- ready. After it an id is in the driver exactly if its handle is alive or its response is owed, and
  -- to drop the driver does not panic exactly if no response is owed.
  pub calls_are_safe :
      (n : ℕ) (acts : List (Act T P Ext))
      → (w : World S T) × (run slab c (fresh_world n) acts ≡ done w)
        × ((j : ℕ)
            → (contains slab w.store j ≡ true)
              ↔ (((t : T) × (w.handles j ≡ some t)) ⊎ (w.owed j ≡ true)))
        × ((drop_driver slab w.store ≡ done tt) ↔ ((j : ℕ) → w.owed j ≡ false))
  calls_are_safe n acts =
      let (w, r, fits) =
        run_lem slab c (fresh_world n) acts (λ j. absent (get-vacant n j) refl refl) in
      (w, r, λ j. flight-contains w j fits, flight-drop_driver w fits)
