-- ===== src/Shm/Align.antt =====
-- `align_up` of examples/evering-ipc/src/shm.rs.
use openoscamp_2025s.Base.{
  ℕ, ◌+◌, ◌-◌, ◌*◌, ◌/◌, ◌%◌, ◌^◌, ◌≤◌, ◌<◌, bit_and, ◌≡◌, sym, ap, ◌∙◌, subst, arith,
}
use native.Mathlib.Nat.{one-le-pow, mod-lt, div-add-mod, mul-mod_right}
use openoscamp_2025s.Base.Bits.{is_power_of_two-pow, bit_and-high}
use openoscamp_2025s.Base.Fault.{done}
use openoscamp_2025s.Shm.{checked_add, align_mask, align_up}

pub checked_add_lem : (a n : ℕ) → a + n < 2 ^ 64 → checked_add a n ≡ done (a + n)
unfolding checked_add
checked_add_lem a n lt = ground arith

-- The least multiple of p that is not below n.
pub record IsRoundedUp (p n r : ℕ) : Type 0 where
  pub multiple : r % p ≡ 0
  pub above : n ≤ r
  pub least : r < n + p

-- `align_up` to a power of two, if the sum is a `usize`.
pub align_up_lem :
    (k n : ℕ)
    → k < 64
    → n + 2 ^ k < 2 ^ 64
    → (r : ℕ) × (align_up n (2 ^ k) ≡ done r) × IsRoundedUp (2 ^ k) n r
unfolding align_up
align_up_lem k n lt fit =
    let one : 1 ≤ 2 ^ k = one-le-pow k 2 (omega arith) in
    let s : ℕ = n + 2 ^ k - 1 in
    let low : s % 2 ^ k < 2 ^ k = mod-lt s one in
    let mask : align_mask (2 ^ k) ≡ 2 ^ 64 - 2 ^ k = omega (arith, one) in
    let masked : bit_and s (align_mask (2 ^ k)) ≡ s - s % 2 ^ k =
      ap (bit_and s) mask ∙ bit_and-high 64 k s (omega arith) (omega (arith, fit, one)) in
    let down : s - s % 2 ^ k ≡ 2 ^ k * (s / 2 ^ k) = omega (arith, div-add-mod s (2 ^ k)) in
    (
      s - s % 2 ^ k,
      rw (is_power_of_two-pow 64 k lt, checked_add_lem n (2 ^ k) fit, masked),
      record {
        multiple = ap (λ (t : ℕ). t % 2 ^ k) down ∙ mul-mod_right (2 ^ k) (s / 2 ^ k);
        above = omega (arith, low, one);
        least = omega (arith, one);
      },
    )

pub align_up_to :
    (align k n : ℕ)
    → align ≡ 2 ^ k
    → k < 64
    → n + align < 2 ^ 64
    → (r : ℕ) × (align_up n align ≡ done r) × IsRoundedUp align n r
align_up_to align k n e lt fit =
    let (r, q, h) = align_up_lem k n lt (omega (arith, e)) in
    (r, ap (align_up n) e ∙ q, subst (λ p. IsRoundedUp p n r) (sym e) h)
