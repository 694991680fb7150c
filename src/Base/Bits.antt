-- ===== src/Base/Bits.antt =====
-- A mask of low bits, at every width; powers of two.
use Prim.Native.Nat.{
  ℕ, zero, suc, ◌+◌, ◌-◌, ◌*◌, ◌/◌, ◌%◌, ◌^◌, ◌≤◌, ◌<◌, min, bit_and, digits, bit_and-bitwise,
}
use mathlib.Core.Path.{◌≡◌, ap, ◌∙◌}
use mathlib.Core.Logic.{◌⊎◌, inl, inr}
use mathlib.Core.Bool.{Bool, true, false, ◌||◌}
use native.Mathlib.Nat.{
  pow-suc, pow-zero, one-le-pow, add-zero, add-suc, mul-one, mod-mod_of_dvd, add-mul-mod_self_left,
  mod-eq_of_lt,
}
use native.Mathlib.Omega.{arith}
use openoscamp_2025s.Base.Tests.{◌==◌, ==_iff, Bool-cases}

-- An even modulus acts on the digits above the lowest.
mod_double : (p n : ℕ) → 1 ≤ p → n % (p * 2) ≡ n / 2 % p * 2 + n % 2
mod_double p n h = grind arith

-- The digits of a conjunction with `k` ones, with the fuel left free.
digits-mask : (fuel k a : ℕ) → a ≤ fuel → digits (λ _. zero) min fuel a (2 ^ k - 1) ≡ a % 2 ^ k
digits-mask zero k zero h = omega (arith, one-le-pow k 2)
digits-mask zero k (suc a) h = absurd (omega arith)
digits-mask (suc f) k zero h = omega (arith, one-le-pow k 2)
digits-mask (suc f) zero (suc a) h = omega (arith, digits-mask f zero (suc a / 2) (omega arith))
digits-mask (suc f) (suc k) (suc a) h =
    let half : digits (λ _. zero) min f (suc a / 2) (2 ^ k - 1) ≡ suc a / 2 % 2 ^ k =
      digits-mask f k (suc a / 2) (omega arith) in
    let low : (2 ^ suc k - 1) / 2 ≡ 2 ^ k - 1 = omega (arith, pow-suc 2 k, one-le-pow k 2) in
    rw (low, half)
      (omega (
        arith,
        pow-suc 2 k,
        one-le-pow k 2,
        ap (λ (t : ℕ). suc a % t) (pow-suc 2 k),
        mod_double (2 ^ k) (suc a) (one-le-pow k 2 (omega arith)),
      ))

-- `x & mask` with a mask of `k` ones keeps the remainder by `2 ^ k`.
pub bit_and-mask : (k a : ℕ) → bit_and a (2 ^ k - 1) ≡ a % 2 ^ k
bit_and-mask k a = bit_and-bitwise a (2 ^ k - 1) ∙ digits-mask a k a (omega arith)

-- `is_power_of_two` of a word of `w` bits.
unfoldable pub is_power_of_two : ℕ → ℕ → Bool
is_power_of_two zero n = false
is_power_of_two (suc w) n = n == 2 ^ w || is_power_of_two w n

pub is_power_of_two-pow : (w k : ℕ) → k < w → is_power_of_two w (2 ^ k) ≡ true
unfolding is_power_of_two
is_power_of_two-pow zero k h = elim h [ ]
is_power_of_two-pow (suc w) k h = ground (arith, is_power_of_two-pow w k)

pub pow_of_is_power_of_two :
    (w n : ℕ) → is_power_of_two w n ≡ true → (k : ℕ) × (k < w) × (n ≡ 2 ^ k)
unfolding is_power_of_two
pow_of_is_power_of_two zero n h = cc
pow_of_is_power_of_two (suc w) n h = elim (Bool-cases (n == 2 ^ w)) [
  | inl e ↦ (w, omega arith, (==_iff n (2 ^ w)).0 e)
  | inr e ↦ let (k, lt, q) = pow_of_is_power_of_two w n (ground arith) in (k, omega arith, q)
]

pub two-pow-add : (k j : ℕ) → 2 ^ (k + j) ≡ 2 ^ k * 2 ^ j
two-pow-add k zero = rw (add-zero, pow-zero, mul-one)
two-pow-add k (suc j) = omega (
  arith,
  two-pow-add k j,
  ap (λ (t : ℕ). 2 ^ t) (add-suc k j),
  pow-suc 2 (k + j),
  pow-suc 2 j,
  ap (λ (t : ℕ). 2 ^ k * t) (pow-suc 2 j),
)

-- A wider word is a multiple of a narrower one.
pub pow_split : (w k : ℕ) → k ≤ w → (r : ℕ) × (2 ^ w ≡ 2 ^ k + 2 ^ k * r)
pow_split w k h = (
  2 ^ (w - k) - 1,
  omega (
    arith,
    ap (λ (t : ℕ). 2 ^ t) (let e : w ≡ k + (w - k) = omega arith in e),
    two-pow-add k (w - k),
    ap (λ (t : ℕ). 2 ^ k * t)
        (let e : 2 ^ (w - k) ≡ 1 + (2 ^ (w - k) - 1) =
            omega (arith, one-le-pow (w - k) 2 (omega arith)) in
          e),
  ),
)

-- Going through a wider word does not change the remainder.
pub mod_pow_wider : (w k a : ℕ) → k ≤ w → a % 2 ^ w % 2 ^ k ≡ a % 2 ^ k
mod_pow_wider w k a h =
    let (r, e) = pow_split w k h in
    mod-mod_of_dvd (2 ^ k) {b = 2 ^ w} a ∣ (suc r, omega (arith, e)) ∣₁

-- A difference taken through a word of `w` bits, kept to `k` bits.
pub sub_word :
    (w k a b n : ℕ)
    → k ≤ w
    → b ≤ 2 ^ w
    → n < 2 ^ k
    → (a ≡ b + n) ⊎ (a + 2 ^ k ≡ b + n)
    → (a + 2 ^ w - b) % 2 ^ w % 2 ^ k ≡ n
sub_word w k a b n h hb lt (inl e) =
    let (r, s) = pow_split w k h in
    mod_pow_wider w k (a + 2 ^ w - b) h
    ∙ ap (λ (t : ℕ). t % 2 ^ k) (let d : a + 2 ^ w - b ≡ n + 2 ^ k * suc r = omega (arith, s) in d)
    ∙ add-mul-mod_self_left n (2 ^ k) (suc r)
    ∙ mod-eq_of_lt lt
sub_word w k a b n h hb lt (inr e) =
    let (r, s) = pow_split w k h in
    mod_pow_wider w k (a + 2 ^ w - b) h
    ∙ ap (λ (t : ℕ). t % 2 ^ k) (let d : a + 2 ^ w - b ≡ n + 2 ^ k * r = omega (arith, s) in d)
    ∙ add-mul-mod_self_left n (2 ^ k) r
    ∙ mod-eq_of_lt lt

-- The digits of a conjunction with ones from the digit `k` on.
digits-high :
    (fuel w k a : ℕ)
    → a ≤ fuel
    → k ≤ w
    → a < 2 ^ w
    → digits (λ _. zero) min fuel a (2 ^ w - 2 ^ k) ≡ a - a % 2 ^ k
digits-high zero w k zero h le lt = omega (arith, one-le-pow k 2)
digits-high zero w k (suc a) h le lt = absurd (omega arith)
digits-high (suc f) w k zero h le lt = omega (arith, one-le-pow k 2)
digits-high (suc f) w zero (suc a) h le lt =
    digits-mask (suc f) w (suc a) h ∙ mod-eq_of_lt lt ∙ omega (arith)
digits-high (suc f) zero (suc k) (suc a) h le lt = absurd (omega arith)
digits-high (suc f) (suc w) (suc k) (suc a) h le lt =
    let half : digits (λ _. zero) min f (suc a / 2) (2 ^ w - 2 ^ k)
        ≡ suc a / 2 - suc a / 2 % 2 ^ k =
      digits-high f w k (suc a / 2) (omega arith) (omega arith) (omega (arith, pow-suc 2 w)) in
    let low : (2 ^ suc w - 2 ^ suc k) / 2 ≡ 2 ^ w - 2 ^ k =
      omega (arith, pow-suc 2 k, pow-suc 2 w) in
    let even : (2 ^ suc w - 2 ^ suc k) % 2 ≡ 0 = omega (arith, pow-suc 2 k, pow-suc 2 w) in
    rw (low, half, even)
      (omega (
        arith,
        ap (λ (t : ℕ). suc a % t) (pow-suc 2 k),
        mod_double (2 ^ k) (suc a) (one-le-pow k 2 (omega arith)),
      ))

-- `x & !(2 ^ k - 1)` in words of w bits goes down to a multiple of `2 ^ k`.
pub bit_and-high : (w k a : ℕ) → k ≤ w → a < 2 ^ w → bit_and a (2 ^ w - 2 ^ k) ≡ a - a % 2 ^ k
bit_and-high w k a le lt =
    bit_and-bitwise a (2 ^ w - 2 ^ k) ∙ digits-high a w k a (omega arith) le lt
