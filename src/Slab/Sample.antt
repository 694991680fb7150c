-- ===== src/Slab/Sample.antt =====
-- A slab that meets the behaviour which Slab.antt states: the first vacant place of a list, then its
-- end. The tests run the driver on it.
use openoscamp_2025s.Base.{
  ℕ, zero, suc, ◌+◌, ◌-◌, ◌≡◌, refl, ap, Bool, true, ◌&&◌, Option, none, some, List, [], ◌∷◌, arith,
  ◌==◌, if◌then◌else◌,
}
use openoscamp_2025s.Slab.{Slab}

abbrev pub Cells : Type 0 → Type 0
Cells T = List (Option T)

module _ {T : Type 0} where
  abbrev pub get : Cells T → ℕ → Option T
  get [] k = none
  get (o ∷ r) zero = o
  get (o ∷ r) (suc k) = get r k

  abbrev pub insert : Cells T → T → ℕ × Cells T
  insert [] v = (0, some v ∷ [])
  insert (none ∷ r) v = (0, some v ∷ r)
  insert (some u ∷ r) v = let (k, r') = insert r v in (suc k, some u ∷ r')

  abbrev pub update : Cells T → ℕ → T → Cells T
  update [] k v = []
  update (none ∷ r) zero v = none ∷ r
  update (some u ∷ r) zero v = some v ∷ r
  update (o ∷ r) (suc k) v = o ∷ update r k v

  abbrev pub behind : Option T → Option (T × Cells T) → Option (T × Cells T)
  behind o none = none
  behind o (some (v, r)) = some (v, o ∷ r)

  abbrev pub remove : Cells T → ℕ → Option (T × Cells T)
  remove [] k = none
  remove (none ∷ r) zero = none
  remove (some v ∷ r) zero = some (v, none ∷ r)
  remove (o ∷ r) (suc k) = behind o (remove r k)

  abbrev pub count : Cells T → ℕ
  count [] = 0
  count (none ∷ r) = count r
  count (some v ∷ r) = suc (count r)

  abbrev pub every : Cells T → (T → Bool) → Bool
  every [] p = true
  every (none ∷ r) p = every r p
  every (some v ∷ r) p = p v && every r p

  pub insert_vacant : (s : Cells T) (v : T) → get s (insert s v).0 ≡ none
  insert_vacant [] v = refl
  insert_vacant (none ∷ r) v = refl
  insert_vacant (some u ∷ r) v = insert_vacant r v

  pub get-insert :
      (s : Cells T) (v : T) (j : ℕ)
      → get (insert s v).1 j ≡ (if (insert s v).0 == j then some v else get s j)
  get-insert [] v zero = refl
  get-insert [] v (suc j) = ground arith
  get-insert (none ∷ r) v zero = refl
  get-insert (none ∷ r) v (suc j) = ground arith
  get-insert (some u ∷ r) v zero = ground arith
  get-insert (some u ∷ r) v (suc j) = ground (arith, get-insert r v j)

  pub get-update :
      (s : Cells T) (k : ℕ) (u v : T) (j : ℕ)
      → get s k ≡ some u
      → get (update s k v) j ≡ (if k == j then some v else get s j)
  get-update [] k u v j e = cc
  get-update (none ∷ r) zero u v j e = cc
  get-update (some x ∷ r) zero u v zero e = refl
  get-update (some x ∷ r) zero u v (suc j) e = ground arith
  get-update (none ∷ r) (suc k) u v zero e = ground arith
  get-update (none ∷ r) (suc k) u v (suc j) e = ground (arith, get-update r k u v j e)
  get-update (some x ∷ r) (suc k) u v zero e = ground arith
  get-update (some x ∷ r) (suc k) u v (suc j) e = ground (arith, get-update r k u v j e)

  pub len-update : (s : Cells T) (k : ℕ) (v : T) → count (update s k v) ≡ count s
  len-update [] k v = refl
  len-update (none ∷ r) zero v = refl
  len-update (some u ∷ r) zero v = refl
  len-update (none ∷ r) (suc k) v = len-update r k v
  len-update (some u ∷ r) (suc k) v = ap suc (len-update r k v)

  pub len-insert : (s : Cells T) (v : T) → count (insert s v).1 ≡ count s + 1
  len-insert [] v = refl
  len-insert (none ∷ r) v = omega arith
  len-insert (some u ∷ r) v = omega (arith, len-insert r v)

  pub remove_some :
      (s : Cells T) (k : ℕ) (v : T)
      → get s k ≡ some v
      → (s' : Cells T) × (remove s k ≡ some (v, s'))
        × ((j : ℕ) → get s' j ≡ (if k == j then none else get s j))
        × (count s' + 1 ≡ count s)
  remove_some [] k v e = cc
  remove_some (none ∷ r) zero v e = cc
  remove_some (some u ∷ r) zero v e = (none ∷ r, ground arith, here, omega arith)
    where
      here : (j : ℕ) → get (none ∷ r) j ≡ (if 0 == j then none else get (some u ∷ r) j)
      here zero = refl
      here (suc j) = ground arith
  remove_some (none ∷ r) (suc k) v e =
      let (r', q, d, n) = remove_some r k v e in (none ∷ r', ap (behind none) q, there r' d, n)
    where
      there :
          (r' : Cells T)
          → ((j : ℕ) → get r' j ≡ (if k == j then none else get r j))
          → (j : ℕ) → get (none ∷ r') j ≡ (if suc k == j then none else get (none ∷ r) j)
      there r' d zero = ground arith
      there r' d (suc j) = ground (arith, d j)
  remove_some (some u ∷ r) (suc k) v e =
      let (r', q, d, n) = remove_some r k v e in
      (some u ∷ r', ap (behind (some u)) q, there r' d, omega (arith, n))
    where
      there :
          (r' : Cells T)
          → ((j : ℕ) → get r' j ≡ (if k == j then none else get r j))
          → (j : ℕ) → get (some u ∷ r') j ≡ (if suc k == j then none else get (some u ∷ r) j)
      there r' d zero = ground arith
      there r' d (suc j) = ground (arith, d j)

  pub every_all :
      (s : Cells T) (p : T → Bool)
      → every s p ≡ true
      → (k : ℕ) (v : T) → get s k ≡ some v
      → p v ≡ true
  every_all [] p h k v e = cc
  every_all (none ∷ r) p h zero v e = cc
  every_all (none ∷ r) p h (suc k) v e = every_all r p h k v e
  every_all (some u ∷ r) p h zero v e = ground arith
  every_all (some u ∷ r) p h (suc k) v e = every_all r p (ground arith) k v e

  pub all_every :
      (s : Cells T) (p : T → Bool)
      → ((k : ℕ) (v : T) → get s k ≡ some v → p v ≡ true)
      → every s p ≡ true
  all_every [] p h = refl
  all_every (none ∷ r) p h = all_every r p (λ k. h (suc k))
  all_every (some u ∷ r) p h = ground (arith, h 0 u refl, all_every r p (λ k. h (suc k)))

-- `spare` places are allocated beyond those in use.
pub record Store (T : Type 0) : Type 0 where
  pub cells : List (Option T)
  pub spare : ℕ

abbrev pub unstore : {T : Type 0} → ℕ → Option (T × List (Option T)) → Option (T × Store T)
unstore n none = none
unstore n (some (v, r)) = some (v, record { cells = r; spare = n })

abbrev pub sample : (T : Type 0) → Slab T
sample T = record {
  S = Store T;
  vacant = λ n. record { cells = []; spare = n };
  get = λ s k. get s.cells k;
  insert =
      λ s v. ((insert s.cells v).0, record { cells = (insert s.cells v).1; spare = s.spare - 1 });
  update = λ s k v. record { cells = update s.cells k v; spare = s.spare };
  remove = λ s k. unstore (s.spare + 1) (remove s.cells k);
  len = λ s. count s.cells;
  capacity = λ s. count s.cells + s.spare;
  every = λ s p. every s.cells p;
  get-vacant = λ n k. refl;
  insert_vacant = λ s v. insert_vacant s.cells v;
  get-insert = λ s v j. get-insert s.cells v j;
  get-update = λ s k u v j e. get-update s.cells k u v j e;
  remove_some = λ s k v e.
      let (r, q, d, n) = remove_some s.cells k v e in
      (
        record { cells = r; spare = s.spare + 1 },
        ap (unstore (s.spare + 1)) q,
        d,
        n,
        omega (arith, n),
      );
  len-vacant = λ n. refl;
  len-insert = λ s v. len-insert s.cells v;
  len-update = λ s k v. len-update s.cells k v;
  len-le-capacity = λ s. omega arith;
  capacity-vacant = λ n. omega arith;
  capacity-insert = λ s v ne. omega (arith, len-insert s.cells v);
  capacity-update = λ s k v. ap (λ (t : ℕ). t + s.spare) (len-update s.cells k v);
  every_iff = λ s p. (every_all s.cells p, all_every s.cells p);
}
