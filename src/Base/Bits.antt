-- ===== src/Base/Bits.antt =====
-- `&` and `|` of the native numbers as arithmetic.
use Prim.Native.Nat.{
  ℕ, zero, suc, ◌+◌, ◌-◌, ◌*◌, ◌/◌, ◌%◌, ◌^◌, ◌≤◌, ◌<◌, min, max, bit_and, bit_or,
}
use Prim.Native.Nat.{digits, bitwise, bit_and-bitwise, bit_or-bitwise}
use mathlib.Core.Path.{◌≡◌, refl, sym, ap, ◌∙◌}
use mathlib.Core.Logic.{◌≢◌, ◌↔◌}
use native.Mathlib.Decide.{ℕ_discrete}
use native.Mathlib.Nat.{pow-suc, one-le-pow, div-div-eq-div-mul, mul_comm}
use native.Mathlib.Omega.{arith}

-- Once the fuel covers the first number, more of it changes nothing.
module _ (tail : ℕ → ℕ) (op : ℕ → ℕ → ℕ) where
  one_more : (fuel x y : ℕ) → x ≤ fuel → digits tail op (suc fuel) x y ≡ digits tail op fuel x y
  one_more fuel zero y enough = at_zero fuel
    where
      at_zero : (fuel : ℕ) → digits tail op (suc fuel) 0 y ≡ digits tail op fuel 0 y
      at_zero zero = refl
      at_zero (suc fuel) = refl
  one_more zero (suc x) y enough = absurd (omega (arith, enough))
  one_more (suc fuel) (suc x) y enough =
      ap (λ (t : ℕ). t * 2 + op (suc x % 2) (y % 2))
        (one_more fuel (suc x / 2) (y / 2) (omega (arith, enough)))

  spare : (k fuel x y : ℕ) → x ≤ fuel → digits tail op (k + fuel) x y ≡ digits tail op fuel x y
  spare zero fuel x y enough = ap (λ (t : ℕ). digits tail op t x y) {y = fuel} (omega arith)
  spare (suc k) fuel x y enough =
      ap (λ (t : ℕ). digits tail op t x y) {y = suc (k + fuel)} (omega arith)
      ∙ one_more (k + fuel) x y (omega (arith, enough))
      ∙ spare k fuel x y enough

  -- So the lowest digit can be split off without a fuel, if the tail is the operation with 0.
  split_low :
      ((y : ℕ) → tail y ≡ tail (y / 2) * 2 + op 0 (y % 2))
      → (x y : ℕ) → bitwise tail op x y ≡ bitwise tail op (x / 2) (y / 2) * 2 + op (x % 2) (y % 2)
  split_low law zero y = law y
  split_low law (suc x) y =
      let half : ℕ = suc x / 2 in
      ap (λ (t : ℕ). t * 2 + op (suc x % 2) (y % 2))
        (ap (λ (t : ℕ). digits tail op t half (y / 2)) {y = x - half + half} (omega arith)
          ∙ spare (x - half) half half (y / 2) (omega arith))

pub bit_or_step : (x y : ℕ) → bit_or x y ≡ bit_or (x / 2) (y / 2) * 2 + max (x % 2) (y % 2)
bit_or_step x y = simp bit_or-bitwise (split_low (λ y. y) max (λ y. omega arith) x y)

pub bit_and_step : (x y : ℕ) → bit_and x y ≡ bit_and (x / 2) (y / 2) * 2 + min (x % 2) (y % 2)
bit_and_step x y = simp bit_and-bitwise (split_low (λ y. 0) min (λ y. omega arith) x y)

-- The low digit and the rest of a conjunction and of a disjunction.
pub bit_and_half : (a b : ℕ) → bit_and a b / 2 ≡ bit_and (a / 2) (b / 2)
bit_and_half a b = omega (arith, bit_and_step a b)

pub bit_or_half : (a b : ℕ) → bit_or a b / 2 ≡ bit_or (a / 2) (b / 2)
bit_or_half a b = omega (arith, bit_or_step a b)

bit_and_ones : (j a : ℕ) → a < 2 ^ j → bit_and a (2 ^ j - 1) ≡ a
bit_and_ones zero zero h = refl
bit_and_ones zero (suc a) h = absurd (omega arith)
bit_and_ones (suc j) a h = omega (
  arith,
  pow-suc 2 j,
  one-le-pow j 2,
  bit_and_step a (2 ^ suc j - 1),
  ap (bit_and (a / 2)) (halved j),
  bit_and_ones j (a / 2) (omega (arith, pow-suc 2 j)),
)
  where
    halved : (j : ℕ) → (2 ^ suc j - 1) / 2 ≡ 2 ^ j - 1
    halved j = omega (arith, pow-suc 2 j, one-le-pow j 2)

mul_pow-suc : (q k : ℕ) → 2 ^ suc k * q ≡ 2 * (2 ^ k * q)
mul_pow-suc q k = omega (arith, ap (λ (t : ℕ). t * q) (pow-suc 2 k))

div-two_pow-suc : (k a : ℕ) → a / 2 ^ suc k ≡ a / 2 / 2 ^ k
div-two_pow-suc k a =
    rw (div-div-eq-div-mul a 2 (2 ^ k)) (ap (λ (t : ℕ). a / t) (omega (arith, pow-suc 2 k)))

-- A mask of the `j` bits from `k` on keeps these bits, of a number that has no higher ones.
pub bit_and_high :
    (k j a : ℕ) → a < 2 ^ k * 2 ^ j → bit_and a (2 ^ k * (2 ^ j - 1)) ≡ a / 2 ^ k * 2 ^ k
bit_and_high zero j a h =
    omega (arith, ap (bit_and a) (one_mul (2 ^ j - 1)), bit_and_ones j a (omega arith))
  where
    one_mul : (n : ℕ) → 1 * n ≡ n
    one_mul n = omega arith
bit_and_high (suc k) j a h = omega (
  arith,
  bit_and_step a (2 ^ suc k * (2 ^ j - 1)),
  ap (bit_and (a / 2)) half_mask,
  mul_pow-suc (2 ^ j - 1) k,
  bit_and_high k j (a / 2) (omega (arith, mul_pow-suc (2 ^ j) k)),
  ap (λ (t : ℕ). t * 2 ^ suc k) (div-two_pow-suc k a),
  mul_comm (a / 2 / 2 ^ k) (2 ^ suc k),
  mul_comm (a / 2 / 2 ^ k) (2 ^ k),
  mul_pow-suc (a / 2 / 2 ^ k) k,
)
  where
    half_mask : 2 ^ suc k * (2 ^ j - 1) / 2 ≡ 2 ^ k * (2 ^ j - 1)
    half_mask = omega (arith, mul_pow-suc (2 ^ j - 1) k)

-- Bit `i` of a number.
unfoldable pub bit : ℕ → ℕ → ℕ
bit i w = w / 2 ^ i % 2

bit-zero : (w : ℕ) → bit 0 w ≡ w % 2
unfolding bit
bit-zero w = omega arith

bit-suc : (i w : ℕ) → bit (suc i) w ≡ bit i (w / 2)
unfolding bit
bit-suc i w = ap (λ (t : ℕ). t % 2) (div-two_pow-suc i w)

pub bit-or : (i a b : ℕ) → bit i (bit_or a b) ≡ max (bit i a) (bit i b)
bit-or zero a b = omega (arith, bit-zero, bit_or_step a b)
bit-or (suc i) a b =
    rw (bit-suc i (bit_or a b), bit-suc i a, bit-suc i b, bit_or_half) (bit-or i (a / 2) (b / 2))

pub bit-and : (i a b : ℕ) → bit i (bit_and a b) ≡ min (bit i a) (bit i b)
bit-and zero a b = omega (arith, bit-zero, bit_and_step a b)
bit-and (suc i) a b =
    rw (bit-suc i (bit_and a b), bit-suc i a, bit-suc i b, bit_and_half) (bit-and i (a / 2) (b / 2))

pub bit-le-one : (i w : ℕ) → bit i w ≤ 1
unfolding bit
bit-le-one i w = omega arith

bit-nothing : (i : ℕ) → bit i 0 ≡ 0
bit-nothing zero = omega (arith, bit-zero)
bit-nothing (suc i) = rw (bit-suc i 0) (bit-nothing i)

half-pow : (k : ℕ) → 2 ^ suc k / 2 ≡ 2 ^ k
half-pow k = omega (arith, pow-suc 2 k)

pub bit-pow_self : (i : ℕ) → bit i (2 ^ i) ≡ 1
bit-pow_self zero = omega (arith, bit-zero)
bit-pow_self (suc i) = rw (bit-suc i (2 ^ suc i)) (rw (half-pow i) (bit-pow_self i))

pub bit-pow_ne : (i j : ℕ) → i ≢ j → bit i (2 ^ j) ≡ 0
bit-pow_ne zero zero h = absurd (h refl)
bit-pow_ne (suc i) zero h = rw (bit-suc i 1) (bit-nothing i)
bit-pow_ne zero (suc j) h = omega (arith, bit-zero, pow-suc 2 j)
bit-pow_ne (suc i) (suc j) h =
    rw (bit-suc i (2 ^ suc j)) (rw (half-pow j) (bit-pow_ne i j (λ e. h (ap suc e))))

-- The complement within `n` bits flips each of them.
pub bit-complement : (n i w : ℕ) → w < 2 ^ n → i < n → bit i (2 ^ n - 1 - w) ≡ 1 - bit i w
bit-complement zero i w h l = absurd (omega arith)
bit-complement (suc n) zero w h l = omega (arith, bit-zero, pow-suc 2 n)
bit-complement (suc n) (suc i) w h l =
    rw (bit-suc i (2 ^ suc n - 1 - w), bit-suc i w, half)
      (bit-complement n i (w / 2) (omega (arith, pow-suc 2 n)) (omega arith))
  where
    half : (2 ^ suc n - 1 - w) / 2 ≡ 2 ^ n - 1 - w / 2
    half = omega (arith, pow-suc 2 n, h)

pub bit-zero_number : (i : ℕ) → bit i 0 ≡ 0
bit-zero_number = bit-nothing

-- A number is determined by its bits.
bits_ext_fuel : (n a b : ℕ) → a ≤ n → b ≤ n → ((i : ℕ) → bit i a ≡ bit i b) → a ≡ b
bits_ext_fuel zero a b p q h = omega arith
bits_ext_fuel (suc n) a b p q h = omega (
  arith,
  h 0,
  bit-zero a,
  bit-zero b,
  bits_ext_fuel n (a / 2) (b / 2) (omega arith) (omega arith)
      (λ i. sym (bit-suc i a) ∙ h (suc i) ∙ bit-suc i b),
)

pub bits_ext : (a b : ℕ) → ((i : ℕ) → bit i a ≡ bit i b) → a ≡ b
bits_ext a b = bits_ext_fuel (a + b) a b (omega arith) (omega arith)

-- `a & (1 << i)` tests bit `i`.
pub bit_and-pow_iff : (a i : ℕ) → (bit_and a (2 ^ i) ≡ 0) ↔ (bit i a ≡ 0)
bit_and-pow_iff a i = (clear, zero_mask)
  where
    clear : bit_and a (2 ^ i) ≡ 0 → bit i a ≡ 0
    clear e =
        omega
          (arith, ap (bit i) e, bit-and i a (2 ^ i), bit-pow_self i, bit-nothing i, bit-le-one i a)

    zero_mask : bit i a ≡ 0 → bit_and a (2 ^ i) ≡ 0
    zero_mask e = bits_ext (bit_and a (2 ^ i)) 0 λ k. elim (ℕ_discrete k i) [
      | yes same ↦ omega (
        arith,
        ap (λ (t : ℕ). bit t (bit_and a (2 ^ i))) same,
        bit-and i a (2 ^ i),
        bit-nothing k,
        e,
      )
      | no other ↦ omega (arith, bit-and k a (2 ^ i), bit-pow_ne k i other, bit-nothing k)
    ]

-- `a & w == w` tests that every bit of `w` is set in `a`.
pub bit_and-self_iff : (a w : ℕ) → (bit_and a w ≡ w) ↔ ((i : ℕ) → bit i w ≤ bit i a)
bit_and-self_iff a w = (
  λ e i. omega (arith, ap (bit i) e, bit-and i a w),
  λ h. bits_ext (bit_and a w) w (λ i. omega (arith, bit-and i a w, h i)),
)

bit_and-zero : (a : ℕ) → bit_and a 0 ≡ 0
bit_and-zero a = bits_ext (bit_and a 0) 0 (λ k. omega (arith, bit-and k a 0, bit-nothing k))

pub bit_and-one : (a : ℕ) → bit_and a 1 ≡ a % 2
bit_and-one a = omega (arith, bit_and_step a 1, bit_and-zero (a / 2))

-- A conjunction is at most its first number.
bit_and_le_fuel : (n x y : ℕ) → x ≤ n → bit_and x y ≤ x
bit_and_le_fuel zero x y h =
    let nothing : bit_and 0 y ≡ 0 =
      bits_ext (bit_and 0 y) 0 (λ k. omega (arith, bit-and k 0 y, bit-nothing k)) in
    let e : x ≡ 0 = omega (arith, h) in rw e (omega (arith, nothing))
bit_and_le_fuel (suc n) x y h = elim (ℕ_discrete x 0) [
  | yes e ↦ omega (arith, e, ap (λ (t : ℕ). bit_and t y) e, bit_and_le_fuel n 0 y (omega arith))
  | no ne ↦
      omega (arith, ne, bit_and_step x y, bit_and_le_fuel n (x / 2) (y / 2) (omega (arith, ne, h)))
]

pub bit_and_le : (x y : ℕ) → bit_and x y ≤ x
bit_and_le x y = bit_and_le_fuel x x y (omega arith)

-- Clearing the bits of a number takes away at most this number.
pub bit_and-complement_ge : (n x m : ℕ) → x < 2 ^ n → m < 2 ^ n → x ≤ bit_and x (2 ^ n - 1 - m) + m
bit_and-complement_ge zero x m h l = omega (arith, h)
bit_and-complement_ge (suc n) x m h l = omega (
  arith,
  bit_and_step x (2 ^ suc n - 1 - m),
  ap (bit_and (x / 2)) half,
  pow-suc 2 n,
  one-le-pow n 2,
  h,
  l,
  bit_and-complement_ge n (x / 2) (m / 2) (omega (arith, h, pow-suc 2 n))
      (omega (arith, l, pow-suc 2 n)),
)
  where
    half : (2 ^ suc n - 1 - m) / 2 ≡ 2 ^ n - 1 - m / 2
    half = omega (arith, pow-suc 2 n, l)
