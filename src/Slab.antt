-- ===== src/Slab.antt =====
-- The `slab` crate, as evering/src/driver.rs uses it: its operations and their documented behaviour.
pub mod Sample
use openoscamp_2025s.Base.{
  ℕ, zero, suc, ◌+◌, ◌≤◌, ◌≡◌, ◌≢◌, ◌↔◌, Bool, true, Option, none, some, ◌==◌, if◌then◌else◌,
}

-- `update` is a write through `get_mut`; `remove` is `none` where the crate panics.
pub record Slab (T : Type 0) : Type 1 where
  pub S : Type 0
  pub vacant : ℕ → S
  pub get : S → ℕ → Option T
  pub insert : S → T → ℕ × S
  pub update : S → ℕ → T → S
  pub remove : S → ℕ → Option (T × S)
  pub len : S → ℕ
  pub capacity : S → ℕ
  pub every : S → (T → Bool) → Bool
  pub get-vacant : (n k : ℕ) → get (vacant n) k ≡ none
  -- A key that is handed out was not in use.
  pub insert_vacant : (s : S) (v : T) → get s (insert s v).0 ≡ none
  pub get-insert :
      (s : S) (v : T) (j : ℕ)
      → get (insert s v).1 j ≡ (if (insert s v).0 == j then some v else get s j)
  pub get-update :
      (s : S) (k : ℕ) (u v : T) (j : ℕ)
      → get s k ≡ some u
      → get (update s k v) j ≡ (if k == j then some v else get s j)
  pub remove_some :
      (s : S) (k : ℕ) (v : T)
      → get s k ≡ some v
      → (s' : S) × (remove s k ≡ some (v, s'))
        × ((j : ℕ) → get s' j ≡ (if k == j then none else get s j))
        × (len s' + 1 ≡ len s)
        × (capacity s' ≡ capacity s)
  pub len-vacant : (n : ℕ) → len (vacant n) ≡ 0
  pub len-insert : (s : S) (v : T) → len (insert s v).1 ≡ len s + 1
  pub len-update : (s : S) (k : ℕ) (v : T) → len (update s k v) ≡ len s
  pub len-le-capacity : (s : S) → len s ≤ capacity s
  pub capacity-vacant : (n : ℕ) → n ≤ capacity (vacant n)
  pub capacity-insert : (s : S) (v : T) → len s ≢ capacity s → capacity (insert s v).1 ≡ capacity s
  pub capacity-update : (s : S) (k : ℕ) (v : T) → capacity (update s k v) ≡ capacity s
  pub every_iff :
      (s : S) (p : T → Bool)
      → (every s p ≡ true) ↔ ((k : ℕ) (v : T) → get s k ≡ some v → p v ≡ true)
