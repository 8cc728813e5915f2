-- ===== src/Memory/Align.antt =====
-- memory/allocator.rs: `align_up`, which rounds an offset up by a mask.
use ignis_rs.Base.{
  ℕ, zero, suc, ◌+◌, ◌-◌, ◌*◌, ◌/◌, ◌%◌, ◌^◌, ◌≤◌, ◌<◌, bit_and, ◌≡◌, subst, ap, ◌∙◌, arith, add64,
  sub64, not64, add64-eq-add, sub64-eq-sub, not64_lem,
}
use ignis_rs.Base.Bits.{bit_and_high, bit_and_le, bit_and-complement_ge}
use native.Mathlib.Nat.{
  pow-suc, one-le-pow, zero-add, pow-le-pow_right, mul-sub, mul-mod_left, mod-add-div', mod-lt,
  div-lt_iff_lt-mul,
}

-- `(value + alignment - 1) & !(alignment - 1)` on 64 bits.
unfoldable pub align_up : ℕ → ℕ → ℕ
align_up value alignment = bit_and (sub64 (add64 value alignment) 1) (not64 (sub64 alignment 1))

-- What the code asserts of an alignment (`is_power_of_two` of a 64-bit number).
abbrev pub IsPowerOfTwo : ℕ → Type 0
IsPowerOfTwo a = (k : ℕ) × (k ≤ 63) × (a ≡ 2 ^ k)

pow-add : (k j : ℕ) → 2 ^ k * 2 ^ j ≡ 2 ^ (k + j)
pow-add zero j = omega (arith, ap (λ (t : ℕ). 2 ^ t) (zero-add j))
pow-add (suc k) j =
    omega (arith, pow-suc 2 (k + j), ap (λ (t : ℕ). 2 ^ t) (suc_add k j), pow-add k j, regroup)
  where
    suc_add : (k j : ℕ) → suc k + j ≡ suc (k + j)
    suc_add k j = omega arith

    regroup : 2 ^ suc k * 2 ^ j ≡ 2 * (2 ^ k * 2 ^ j)
    regroup = omega (arith, ap (λ (t : ℕ). t * 2 ^ j) (pow-suc 2 k))

pow_split : (k : ℕ) → k ≤ 63 → 2 ^ k * 2 ^ (64 - k) ≡ 2 ^ 64
pow_split k h = pow-add k (64 - k) ∙ ap (λ (t : ℕ). 2 ^ t) {y = 64} (omega arith)

pow_below : (k : ℕ) → k ≤ 63 → 2 ^ k < 2 ^ 64
pow_below k h = omega (arith, pow-le-pow_right {n = 2} (omega arith) h)

mask_lem : (k : ℕ) → k ≤ 63 → not64 (sub64 (2 ^ k) 1) ≡ 2 ^ k * (2 ^ (64 - k) - 1)
mask_lem k h = omega (
  arith,
  not64_lem (sub64 (2 ^ k) 1),
  sub64-eq-sub (2 ^ k) 1 (one-le-pow k 2 (omega arith)) (pow_below k h),
  one-le-pow k 2,
  mul-sub (2 ^ k) (2 ^ (64 - k)) 1,
  pow_split k h,
)

align_up-pow :
    (v k : ℕ) → k ≤ 63 → v + 2 ^ k < 2 ^ 64 → align_up v (2 ^ k) ≡ (v + 2 ^ k - 1) / 2 ^ k * 2 ^ k
unfolding align_up
align_up-pow v k h fits =
    let some_bit : 1 ≤ 2 ^ k = one-le-pow k 2 (omega arith) in
    rw (add64-eq-add v (2 ^ k) fits, sub64-eq-sub (v + 2 ^ k) 1 (omega arith) fits, mask_lem k h)
      (bit_and_high k (64 - k) (v + 2 ^ k - 1) (rw (pow_split k h) (omega arith)))

-- `(v + p - 1) / p * p` lies between, is a multiple of `p`, and is the least one.
round_up_bounds :
    (v p : ℕ)
    → 1 ≤ p
    → (v ≤ (v + p - 1) / p * p) × ((v + p - 1) / p * p < v + p) × ((v + p - 1) / p * p % p ≡ 0)
round_up_bounds v p h = (
  omega (arith, mod-add-div' (v + p - 1) p, mod-lt (v + p - 1) h),
  omega (arith, mod-add-div' (v + p - 1) p, mod-lt (v + p - 1) h),
  mul-mod_left ((v + p - 1) / p) p,
)

round_up_least : (v p m : ℕ) → 1 ≤ p → v ≤ m * p → (v + p - 1) / p * p ≤ m * p
round_up_least v p m h above =
    let quotient_small : (v + p - 1) / p < m + 1 = (div-lt_iff_lt-mul h).1 (grind arith) in
    grind arith

-- The rounded offset is a multiple of the alignment, at the given offset or less than one
-- alignment above it, for an alignment that is a power of two and a sum that fits 64 bits.
pub align_up_lem :
    (v a : ℕ)
    → IsPowerOfTwo a
    → v + a < 2 ^ 64
    → (v ≤ align_up v a) × (align_up v a < v + a) × (align_up v a % a ≡ 0)
align_up_lem v a (k, h, e) fits =
    rw (e, align_up-pow v k h (omega (arith, fits)))
      (round_up_bounds v (2 ^ k) (one-le-pow k 2 (omega arith)))

-- An alignment that is no power of two may leave a remainder, but the bounds hold of each.
pub align_up_between :
    (v a : ℕ) → 1 ≤ a → v + a < 2 ^ 64 → (v ≤ align_up v a) × (align_up v a < v + a)
unfolding align_up
align_up_between v a some_alignment fits =
    rw
      (
        add64-eq-add v a fits,
        sub64-eq-sub (v + a) 1 (omega (arith, some_alignment)) fits,
        sub64-eq-sub a 1 some_alignment (omega (arith, fits)),
        not64_lem (a - 1),
      )
      (
        omega (
          arith,
          some_alignment,
          bit_and-complement_ge 64 (v + a - 1) (a - 1) (omega (arith, fits)) (omega (arith, fits)),
        ),
        omega (arith, some_alignment, bit_and_le (v + a - 1) (2 ^ 64 - 1 - (a - 1))),
      )

-- No smaller multiple of the alignment is at or above the given offset.
pub align_up_least :
    (v a m : ℕ) → IsPowerOfTwo a → v + a < 2 ^ 64 → v ≤ m * a → align_up v a ≤ m * a
align_up_least v a m (k, h, e) fits above =
    rw (e, align_up-pow v k h (omega (arith, fits)))
      (round_up_least v (2 ^ k) m (one-le-pow k 2 (omega arith))
        (subst (λ (t : ℕ). v ≤ m * t) e above))

pub IsPowerOfTwo-pos : (a : ℕ) → IsPowerOfTwo a → 1 ≤ a
IsPowerOfTwo-pos a (k, h, e) = rw e (one-le-pow k 2 (omega arith))
