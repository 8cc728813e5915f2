-- ===== src/Memory/Slab/New.antt =====
-- memory/slab.rs: the slab that `Slab::new` builds.
use native.Mathlib.Nat.{zero-div}
use ignis_rs.Base.{
  bit_and, ℕ, zero, suc, ◌+◌, ◌/◌, ◌%◌, ◌^◌, ◌<◌, ◌≡◌, refl, sym, ap, Bool, true, false, Option,
  arith, ◌==◌, length, get_elem?, replicate,
}
use ignis_rs.Memory.Slab.Bitmap.{word_or, word_of, is_set}
use ignis_rs.Memory.Slab.Count.{count, member}
use ignis_rs.Memory.Slab.Config.{SlabConfig}
use ignis_rs.Memory.Slab.Invariant.{IsValid}
use ignis_rs.Memory.Slab.{slab_new, is_allocated, is_quarantined, is_free}

length-replicate : (n a : ℕ) → length (replicate n a) ≡ n
length-replicate zero a = refl
length-replicate (suc n) a = omega (arith, length-replicate n a)

word_of_zeros : (n i : ℕ) → word_of (replicate n 0) i ≡ 0
unfolding word_of word_or
word_of_zeros n i = by_index n (i / 64)
  where
    by_index : (n j : ℕ) → word_or (get_elem? (replicate n 0) j) ≡ 0
    by_index zero j = refl
    by_index (suc n) zero = refl
    by_index (suc n) (suc j) = by_index n j

is_set_zeros : (n i : ℕ) → is_set (replicate n 0) i ≡ false
is_set_zeros n i =
    unfold is_set in
    rw (word_of_zeros n i) (ap (λ (t : ℕ). bit_and t 1 == 1) (zero-div (2 ^ (i % 64))))

count_all : (p : ℕ → Bool) (n : ℕ) → ((i : ℕ) → p i ≡ true) → count p n ≡ n
unfolding count
count_all p zero h = refl
count_all p (suc n) h = ground (arith, h n, count_all p n h)

-- A new slab with a number of slots from 1 to 2^31 - 1 is valid: all its slots are free.
pub slab_new-IsValid :
    (memory slab_size slot_size : ℕ) (mapped_base : Option ℕ) (config : SlabConfig) (seed : ℕ)
    → 0 < slab_size / slot_size
    → slab_size / slot_size < 2 ^ 31
    → let s = slab_new memory slab_size slot_size mapped_base config seed in
      IsValid s × ((i : ℕ) → is_free s i ≡ true)
unfolding slab_new is_allocated is_quarantined is_free member
slab_new-IsValid memory slab_size slot_size mapped_base config seed pos small = (
  record {
    sound = record {
      nonempty = omega (arith, pos, small);
      small = omega (arith, small);
      allocated_words = omega (arith, small, length-replicate words 0);
      quarantine_words = omega (arith, small, length-replicate words 0);
      queue_in = tt;
      queue_marked = λ i l. is_set_zeros words i;
      apart = λ i l q. is_set_zeros words i;
      distinct = tt;
      counted = sym (count_all _ (slab_size / slot_size % 2 ^ 32) all_free);
    };
    cooled = omega arith;
  },
  all_free,
)
  where
    words : ℕ
    words = (slab_size / slot_size % 2 ^ 32 + 63) % 2 ^ 32 / 64

    all_free :
        (i : ℕ) → is_free (slab_new memory slab_size slot_size mapped_base config seed) i ≡ true
    all_free i =
        unfold slab_new is_free is_allocated is_quarantined in ground (arith, is_set_zeros words i)
