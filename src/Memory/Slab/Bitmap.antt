-- ===== src/Memory/Slab/Bitmap.antt =====
-- memory/slab.rs: the bitmaps of a slab, vectors of 64-bit words with a bit for each slot:
-- `is_allocated`, `set_allocated`, `clear_allocated` and their quarantine twins.
use native.Mathlib.Decide.{ℕ_discrete}
use native.Mathlib.Nat.{pow-le-pow_right}
use ignis_rs.Base.{
  ℕ, ◌-◌, ◌*◌, ◌/◌, ◌%◌, ◌^◌, ◌≤◌, ◌<◌, bit_and, bit_or, ◌≡◌, refl, sym, ap, ◌∙◌, ◌≢◌, Bool, ◌&&◌,
  ◌||◌, not, Option, none, some, List, arith, ◌==◌, length, get_elem?, set, length-set,
  get_elem?-set_self, get_elem?-set_ne, not64, not64_lem,
}
use ignis_rs.Base.Bits.{
  bit, bit-or, bit-and, bit-le-one, bit-pow_self, bit-pow_ne, bit-complement, bit_and-one,
}

-- An index out of range, at which the code panics, reads as 0.
unfoldable pub word_or : Option ℕ → ℕ
word_or none = 0
word_or (some w) = w

unfoldable pub word_of : List ℕ → ℕ → ℕ
unfolding word_or
word_of words slot = word_or (get_elem? words (slot / 64))

-- `(words[slot / 64] >> (slot % 64)) & 1 == 1`.
unfoldable pub is_set : List ℕ → ℕ → Bool
is_set words slot = bit_and (word_of words slot / 2 ^ (slot % 64)) 1 == 1

-- `words[slot / 64] |= 1 << (slot % 64)`.
pub set_bit : List ℕ → ℕ → List ℕ
set_bit words slot = set words (slot / 64) (bit_or (word_of words slot) (2 ^ (slot % 64)))

-- `words[slot / 64] &= !(1 << (slot % 64))`.
pub clear_bit : List ℕ → ℕ → List ℕ
clear_bit words slot =
    set words (slot / 64) (bit_and (word_of words slot) (not64 (2 ^ (slot % 64))))

is_set-bit :
    (words : List ℕ) (slot : ℕ) → is_set words slot ≡ (bit (slot % 64) (word_of words slot) == 1)
unfolding is_set bit
is_set-bit words slot = ap (λ (t : ℕ). t == 1) (bit_and-one (word_of words slot / 2 ^ (slot % 64)))

word_of-set_same :
    (words : List ℕ) (slot j w : ℕ)
    → slot < 64 * length words
    → j / 64 ≡ slot / 64
    → word_of (set words (slot / 64) w) j ≡ w
unfolding word_of
word_of-set_same words slot j w h e =
    rw (e, get_elem?-set_self words (slot / 64) w (omega arith)) refl

word_of-set_other :
    (words : List ℕ) (slot j w : ℕ)
    → j / 64 ≢ slot / 64
    → word_of (set words (slot / 64) w) j ≡ word_of words j
unfolding word_of
word_of-set_other words slot j w ne =
    ap word_or (get_elem?-set_ne words (slot / 64) (j / 64) w (λ e. ne (sym e)))

word_of_same :
    (words : List ℕ) (slot j : ℕ) → j / 64 ≡ slot / 64 → word_of words j ≡ word_of words slot
unfolding word_of
word_of_same words slot j e = ap (λ (t : ℕ). word_or (get_elem? words t)) e

bit_of-complement : (k b : ℕ) → k < 64 → b < 64 → bit k (not64 (2 ^ b)) ≡ 1 - bit k (2 ^ b)
bit_of-complement k b hk hb =
    rw (not64_lem (2 ^ b))
      (bit-complement 64 k (2 ^ b) (omega (arith, pow-le-pow_right {n = 2} (omega arith) below)) hk)
  where
    below : b ≤ 63
    below = omega arith

module _ (words : List ℕ) (slot : ℕ) (h : slot < 64 * length words) (j : ℕ) where
  -- Setting the bit of a slot that the words hold changes that bit alone.
  pub is_set-set_bit : is_set (set_bit words slot) j ≡ (j == slot || is_set words j)
  unfolding set_bit
  is_set-set_bit = elim (ℕ_discrete (j / 64) (slot / 64)) [
    | yes near ↦
        rw
          (
            is_set-bit (set words (slot / 64) (bit_or (word_of words slot) (2 ^ (slot % 64)))) j,
            is_set-bit words j,
            word_of-set_same words slot j (bit_or (word_of words slot) (2 ^ (slot % 64))) h near,
            word_of_same words slot j near,
          )
          (elim (ℕ_discrete (j % 64) (slot % 64)) [
            | yes here ↦
                let same : j ≡ slot = omega arith in
                let one : bit (j % 64) (2 ^ (slot % 64)) ≡ 1 =
                  ap (λ (t : ℕ). bit t (2 ^ (slot % 64))) here ∙ bit-pow_self (slot % 64) in
                ground (
                  arith,
                  same,
                  one,
                  bit-or (j % 64) (word_of words slot) (2 ^ (slot % 64)),
                  bit-le-one (j % 64) (word_of words slot),
                )
            | no apart ↦
                let other : j ≢ slot = λ e. apart (ap (λ (t : ℕ). t % 64) e) in
                ground (
                  arith,
                  other,
                  bit-pow_ne (j % 64) (slot % 64) apart,
                  bit-or (j % 64) (word_of words slot) (2 ^ (slot % 64)),
                  bit-le-one (j % 64) (word_of words slot),
                )
          ])
    | no far ↦
        let other : j ≢ slot = λ e. far (ap (λ (t : ℕ). t / 64) e) in
        rw
          (
            is_set-bit (set words (slot / 64) (bit_or (word_of words slot) (2 ^ (slot % 64)))) j,
            is_set-bit words j,
            word_of-set_other words slot j (bit_or (word_of words slot) (2 ^ (slot % 64))) far,
          )
          (ground (arith, other))
  ]

  -- Clearing the bit of a slot that the words hold changes that bit alone.
  pub is_set-clear_bit : is_set (clear_bit words slot) j ≡ (not (j == slot) && is_set words j)
  unfolding clear_bit
  is_set-clear_bit = elim (ℕ_discrete (j / 64) (slot / 64)) [
    | yes near ↦
        rw
          (
            is_set-bit
                (set words (slot / 64) (bit_and (word_of words slot) (not64 (2 ^ (slot % 64))))) j,
            is_set-bit words j,
            word_of-set_same words slot j (bit_and (word_of words slot) (not64 (2 ^ (slot % 64)))) h
                near,
            word_of_same words slot j near,
          )
          (elim (ℕ_discrete (j % 64) (slot % 64)) [
            | yes here ↦
                let same : j ≡ slot = omega arith in
                let one : bit (j % 64) (2 ^ (slot % 64)) ≡ 1 =
                  ap (λ (t : ℕ). bit t (2 ^ (slot % 64))) here ∙ bit-pow_self (slot % 64) in
                ground (
                  arith,
                  same,
                  one,
                  bit-and (j % 64) (word_of words slot) (not64 (2 ^ (slot % 64))),
                  bit_of-complement (j % 64) (slot % 64) (omega arith) (omega arith),
                  bit-le-one (j % 64) (word_of words slot),
                )
            | no apart ↦
                let other : j ≢ slot = λ e. apart (ap (λ (t : ℕ). t % 64) e) in
                ground (
                  arith,
                  other,
                  bit-pow_ne (j % 64) (slot % 64) apart,
                  bit-and (j % 64) (word_of words slot) (not64 (2 ^ (slot % 64))),
                  bit_of-complement (j % 64) (slot % 64) (omega arith) (omega arith),
                  bit-le-one (j % 64) (word_of words slot),
                )
          ])
    | no far ↦
        let other : j ≢ slot = λ e. far (ap (λ (t : ℕ). t / 64) e) in
        rw
          (
            is_set-bit
                (set words (slot / 64) (bit_and (word_of words slot) (not64 (2 ^ (slot % 64))))) j,
            is_set-bit words j,
            word_of-set_other words slot j (bit_and (word_of words slot) (not64 (2 ^ (slot % 64))))
                far,
          )
          (ground (arith, other))
  ]

pub length-set_bit : (words : List ℕ) (slot : ℕ) → length (set_bit words slot) ≡ length words
unfolding set_bit
length-set_bit words slot = length-set words (slot / 64) _

pub length-clear_bit : (words : List ℕ) (slot : ℕ) → length (clear_bit words slot) ≡ length words
unfolding clear_bit
length-clear_bit words slot = length-set words (slot / 64) _
