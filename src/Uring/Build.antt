-- ===== src/Uring/Build.antt =====
-- What `Builder` of evering/src/uring.rs makes of its sizes.
use native.Mathlib.Nat.{mod-eq_of_lt, mul-mod_right}
use openoscamp_2025s.Base.{
  ℕ, suc, ◌+◌, ◌-◌, ◌*◌, ◌%◌, ◌^◌, ◌≤◌, ◌<◌, ◌≡◌, refl, sym, ap, ◌∙◌, none, [], arith,
  length-replicate, replicate,
}
use openoscamp_2025s.Base.Bits.{is_power_of_two, is_power_of_two-pow, pow_split}
use openoscamp_2025s.Base.Fault.{done, fault, panic}
use openoscamp_2025s.Ring.{Offsets, new_offsets}
use openoscamp_2025s.Ring.Holds.{Holds, pow_pos, pow_le_half}
use openoscamp_2025s.Uring.{RawUring, Builder, queue_a, queue_b, set_size_a, build_header, build}

fresh_offsets : (k : ℕ) → Offsets
fresh_offsets k = record { head = 0; tail = 0; ring_mask = 2 ^ k - 1 }

cast_pow : (k : ℕ) → k < 32 → 2 ^ k % 2 ^ 32 ≡ 2 ^ k
cast_pow k h = mod-eq_of_lt {n = 2 ^ k} {m = 2 ^ 32} (omega (arith, pow_le_half k h))

new_offsets_lem : (k : ℕ) → k < 32 → new_offsets (2 ^ k % 2 ^ 32) ≡ done (fresh_offsets k)
unfolding new_offsets fresh_offsets
new_offsets_lem k h = rw (cast_pow k h, is_power_of_two-pow 32 k h)

abbrev pub sized : {Ext : Type 0} → ℕ → ℕ → Ext → Builder Ext
sized ka kb e = record { size_a = 2 ^ ka; size_b = 2 ^ kb; ext = e }

module _ {A B Ext : Type 0} where
  -- The region that `build` returns for sizes of less than 32 bits.
  pub fresh : ℕ → ℕ → Ext → RawUring A B Ext
  unfolding fresh_offsets
  fresh ka kb e = record {
    header = record { off_a = fresh_offsets ka; off_b = fresh_offsets kb; rc = 2; ext = e };
    buf_a = replicate (2 ^ ka) none;
    buf_b = replicate (2 ^ kb) none;
  }

  pub build_lem :
      (ka kb : ℕ) (e : Ext) → ka < 32 → kb < 32 → build (sized ka kb e) ≡ done (fresh ka kb e)
  unfolding build build_header fresh
  build_lem ka kb e ha hb = rw (new_offsets_lem ka ha, new_offsets_lem kb hb)

Holds-fresh :
    {A : Type 0} (k : ℕ)
    → k < 32
    → Holds {A = A} k (record { off = fresh_offsets k; buf = replicate (2 ^ k) none }) []
unfolding fresh_offsets
Holds-fresh k h = record {
  narrow = h;
  masked = refl;
  storage = length-replicate (2 ^ k) none;
  head_in = omega (arith, pow_pos k);
  tail_at = sym (mod-eq_of_lt {n = 0 + 0} {m = 2 ^ k} (omega (arith, pow_pos k)));
  room = omega (arith, pow_pos k);
  slots = tt;
}

large_cast : (k : ℕ) → 32 ≤ k → 2 ^ k % 2 ^ 32 ≡ 0
large_cast k h =
    let (r, e) = pow_split k 32 h in
    ap (λ (t : ℕ). t % 2 ^ 32) (let d : 2 ^ k ≡ 2 ^ 32 * suc r = omega (arith, e) in d)
    ∙ mul-mod_right (2 ^ 32) (suc r)

no_offsets : new_offsets 0 ≡ fault panic
unfolding new_offsets is_power_of_two
no_offsets = refl

-- For sizes of less than 32 bits `build` makes two empty rings of those sizes, with two owners.
pub build_fresh :
    {A B Ext : Type 0} (ka kb : ℕ) (e : Ext)
    → ka < 32
    → kb < 32
    → (m : RawUring A B Ext) × (build (sized ka kb e) ≡ done m)
      × Holds ka (queue_a m) []
      × Holds kb (queue_b m) []
      × (m.header.rc ≡ 2)
unfolding fresh
build_fresh ka kb e ha hb =
    (fresh ka kb e, build_lem ka kb e ha hb, Holds-fresh ka ha, Holds-fresh kb hb, refl)

-- `size_a` accepts a power of two of 32 bits or more, which `size as u32` then turns into 0, so that
-- the assertion of `Offsets::new` fails.
pub build_too_large :
    {A B Ext : Type 0} (b : Builder Ext) (k : ℕ)
    → 32 ≤ k
    → k < 64
    → (set_size_a b (2 ^ k) ≡ done (record b { size_a = 2 ^ k }))
      × (build {A = A} {B = B} (record b { size_a = 2 ^ k }) ≡ fault panic)
unfolding set_size_a build build_header
build_too_large b k large h = (rw (is_power_of_two-pow 64 k h), rw (large_cast k large, no_offsets))
