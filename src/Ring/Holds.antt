-- ===== src/Ring/Holds.antt =====
-- When a queue of evering/src/uring.rs holds the values `xs`, oldest first; the modular arithmetic
-- of its indices.
use native.Mathlib.Nat.{
  mod-lt, mod-add-mod, mod-eq_of_lt, mod-eq-sub-mod, pow-le-pow_right, one-le-pow, add-zero,
  add-mod_right,
}
use openoscamp_2025s.Base.{
  ℕ, zero, suc, ◌+◌, ◌-◌, ◌%◌, ◌^◌, ◌≤◌, ◌<◌, ◌≡◌, sym, ap, ◌∙◌, ◌≢◌, ◌⊎◌, inl, inr, true, Option,
  some, List, [], ◌∷◌, ◌++◌, arith, dec_lt, length, get_elem?, set, get_elem?-set_self,
  get_elem?-set_ne, ◌==◌, ==_of_eq, ==_of_ne,
}
use openoscamp_2025s.Base.Bits.{bit_and-mask, is_power_of_two, is_power_of_two-pow}
use openoscamp_2025s.Ring.{Offsets, Queue, inc}

module _ {ℓ} {A : Type ℓ} where
  -- The slots from index `h` on, going round at `size`, hold the list.
  abbrev pub Window : List (Option A) → ℕ → ℕ → List A → Type ℓ
  Window buf size h [] = Unit
  Window buf size h (x ∷ xs) =
      (get_elem? buf h ≡ some (some x)) × Window buf size ((h + 1) % size) xs

  -- A ring of `2 ^ k` slots that holds `xs`.
  pub record Holds (k : ℕ) (q : Queue A) (xs : List A) : Type ℓ where
    pub narrow : k < 32
    pub masked : q.off.ring_mask ≡ 2 ^ k - 1
    pub storage : length q.buf ≡ 2 ^ k
    pub head_in : q.off.head < 2 ^ k
    pub tail_at : q.off.tail ≡ (q.off.head + length xs) % 2 ^ k
    pub room : length xs < 2 ^ k
    pub slots : Window q.buf (2 ^ k) q.off.head xs

pub pow_pos : (k : ℕ) → 1 ≤ 2 ^ k
pow_pos k = one-le-pow k 2 (omega arith)

pub pow_le_half : (k : ℕ) → k < 32 → 2 ^ k ≤ 2 ^ 31
pow_le_half k h = pow-le-pow_right {n = 2} (omega arith) {i = k} {j = 31} (omega arith)

-- Fewer steps than the ring has slots do not come back to the start.
pub wrap_ne : (s h j : ℕ) → h < s → 0 < j → j < s → (h + j) % s ≢ h
wrap_ne s h j hs pos lt = elim (dec_lt (h + j) s) [
  | yes p ↦ omega (arith, mod-eq_of_lt p)
  | no p ↦ omega (
    arith,
    mod-eq-sub-mod {n = h + j} {m = s} (omega arith),
    mod-eq_of_lt {n = h + j - s} {m = s} (omega arith),
  )
]

-- A place is reached without going round, or after going round once.
pub mod_once : (s h n : ℕ) → h < s → n < s → ((h + n) % s ≡ h + n) ⊎ ((h + n) % s + s ≡ h + n)
mod_once s h n hs ns = elim (dec_lt (h + n) s) [
  | yes p ↦ inl (mod-eq_of_lt p)
  | no p ↦ inr (
      omega (
        arith,
        mod-eq-sub-mod {n = h + n} {m = s} (omega arith),
        mod-eq_of_lt {n = h + n - s} {m = s} (omega arith),
      ))
]

pub wrap_round : (s h : ℕ) → h < s → (h + s) % s ≡ h
wrap_round s h lt = add-mod_right h s ∙ mod-eq_of_lt lt

pub step_add : (s h n : ℕ) → ((h + 1) % s + n) % s ≡ (h + suc n) % s
step_add s h n = mod-add-mod (h + 1) s n ∙ ap (λ (t : ℕ). t % s) (omega arith)

pub first_place : (s h : ℕ) → h < s → (h + 0) % s ≡ h
first_place s h lt = rw add-zero (mod-eq_of_lt lt)

-- Two places of one round differ.
pub places_ne : (s h i j : ℕ) → h < s → j < i → i < s → (h + i) % s ≢ (h + j) % s
places_ne s h i j hs ji is e =
    wrap_ne s ((h + j) % s) (i - j) (mod-lt (h + j) (omega arith)) (omega arith) (omega arith)
      (mod-add-mod (h + j) s (i - j) ∙ ap (λ (t : ℕ). t % s) (omega arith) ∙ e)

-- Offsets that are `n` places apart meet only at no distance.
pub meet_test : (s h n : ℕ) → h < s → n < s → (h == (h + n) % s) ≡ (n == 0)
meet_test s h zero hs ns = ==_of_eq _ _ (sym (first_place s h hs))
meet_test s h (suc n) hs ns =
    ==_of_ne _ _ (λ e. wrap_ne s h (suc n) hs (omega arith) ns (sym e))
    ∙ sym (==_of_ne (suc n) 0 (omega arith))

-- `inc` steps round the ring.
pub inc_lem :
    (k : ℕ) (off : Offsets) (n : ℕ)
    → k < 32
    → off.ring_mask ≡ 2 ^ k - 1
    → n < 2 ^ k
    → inc off n ≡ (n + 1) % 2 ^ k
unfolding inc
inc_lem k off n narrow masked h =
    rw (masked, mod-eq_of_lt {n = n + 1} {m = 2 ^ 32} (omega (arith, pow_le_half k narrow)))
      (bit_and-mask k (n + 1))

pub mask_is_power :
    (k : ℕ) (off : Offsets)
    → k < 32
    → off.ring_mask ≡ 2 ^ k - 1
    → is_power_of_two 32 (off.ring_mask + 1) ≡ true
mask_is_power k off narrow masked =
    let e : off.ring_mask + 1 ≡ 2 ^ k = omega (arith, pow_pos k) in
    rw e (is_power_of_two-pow 32 k narrow)

module _ {ℓ} {A : Type ℓ} where
  -- A write outside the window does not show in it.
  pub Window-set_out :
      (buf : List (Option A)) (s h i : ℕ) (v : Option A) (xs : List A)
      → ((j : ℕ) → j < length xs → i ≢ (h + j) % s)
      → h < s
      → Window buf s h xs
      → Window (set buf i v) s h xs
  Window-set_out buf s h i v [] out lt w = tt
  Window-set_out buf s h i v (x ∷ xs) out lt w = (
    get_elem?-set_ne buf i h v (λ e. out 0 (omega arith) (e ∙ sym (first_place s h lt))) ∙ w.0,
    Window-set_out buf s ((h + 1) % s) i v xs
        (λ j jl e. out (suc j) (omega arith) (e ∙ step_add s h j)) (mod-lt (h + 1) (omega arith))
        w.1,
  )

  pub Window-snoc :
      (buf : List (Option A)) (s h : ℕ) (v : A) (xs : List A)
      → h < s
      → Window buf s h xs
      → get_elem? buf ((h + length xs) % s) ≡ some (some v)
      → Window buf s h (xs ++ (v ∷ []))
  Window-snoc buf s h v [] lt w e = (rw (first_place s h lt) at e, tt)
  Window-snoc buf s h v (x ∷ xs) lt w e =
      (w.0, Window-snoc buf s ((h + 1) % s) v xs (mod-lt (h + 1) (omega arith)) w.1 (rw step_add e))

  -- A write just past the window extends it.
  pub Window-push :
      (buf : List (Option A)) (s h : ℕ) (v : A) (xs : List A)
      → length buf ≡ s
      → h < s
      → length xs < s
      → Window buf s h xs
      → Window (set buf ((h + length xs) % s) (some v)) s h (xs ++ (v ∷ []))
  Window-push buf s h v xs stored lt room w =
      Window-snoc (set buf i (some v)) s h v xs lt
        (Window-set_out buf s h i (some v) xs (λ j jl. places_ne s h (length xs) j lt jl room) lt w)
        (get_elem?-set_self buf i (some v) (rw stored (mod-lt (h + length xs) (omega arith))))
    where
      i : ℕ
      i = (h + length xs) % s
