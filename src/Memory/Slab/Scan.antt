-- ===== src/Memory/Slab/Scan.antt =====
-- memory/slab.rs: what `find_random_free_slot` and `allocate_slot` do.
use native.Mathlib.Nat.{mod-lt, mod-eq_of_lt, mod-eq-sub-mod}
use ignis_rs.Base.{
  ℕ, zero, suc, ◌+◌, ◌-◌, ◌%◌, ◌^◌, ◌≤◌, ◌<◌, ◌≡◌, refl, sym, ap, ◌∙◌, ◌≢◌, inl, inr, Bool, true,
  false, ◌||◌, Option, none, some, arith, ◌==◌, Bool-cases, le_cases, subst,
}
use ignis_rs.Memory.Slab.Count.{count_find, count_zero}
use ignis_rs.Memory.Slab.{
  Slab, rng_bounded, rng_next, is_allocated, is_quarantined, is_free, scan, find_random_free_slot,
  slot_offset, take_slot, taken_slot, allocate_slot,
}
use ignis_rs.Memory.Slab.Invariant.{IsValid, is_allocated-take_slot, take_slot-Sound}

-- A start below the bound.
rng_bounded-lt : (state bound : ℕ) → 0 < bound → (rng_bounded state bound).0 < bound
unfolding rng_bounded
rng_bounded-lt state bound h = ground (arith, mod-lt (rng_next state).0 h)

module _ (s : Slab) (start : ℕ) (small : s.slot_count < 2 ^ 31)
    (inside' : start < s.slot_count) where
  abbrev visited : ℕ → ℕ
  visited offset = (start + offset) % 2 ^ 32 % s.slot_count

  -- The scan gives a free slot, or none of the visited ones is free.
  abbrev Scanned : ℕ → ℕ → Option ℕ → Type 0
  Scanned from to none = (k : ℕ) → from ≤ k → k < to → is_free s (visited k) ≡ false
  Scanned from to (some slot) = (is_free s slot ≡ true) × (slot < s.slot_count)

  widen :
      (left offset : ℕ) (o : Option ℕ)
      → is_free s (visited offset) ≡ false
      → Scanned (offset + 1) (offset + 1 + left) o
      → Scanned offset (offset + suc left) o
  widen left offset none other h = λ k low high. elim (le_cases k offset) [
    | inl first ↦ ap (λ (t : ℕ). is_free s (visited t)) {y = offset} (omega arith) ∙ other
    | inr later ↦ h k (omega arith) (omega arith)
  ]
  widen left offset (some slot) other h = h

  scan-Scanned : (left offset : ℕ) → Scanned offset (offset + left) (scan s start left offset)
  unfolding scan
  scan-Scanned zero offset = λ k low high. absurd (omega arith)
  scan-Scanned (suc left) offset = elim (Bool-cases (is_free s (visited offset))) [
    | inl it ↦ rw (it, Scanned) (it, mod-lt ((start + offset) % 2 ^ 32) (omega arith))
    | inr other ↦
        rw other (
          widen left offset (scan s start left (offset + 1)) other (scan-Scanned left (offset + 1)))
  ]

  -- Every slot is visited.
  visits : (slot : ℕ) → slot < s.slot_count → (k : ℕ) × (k < s.slot_count) × (visited k ≡ slot)
  visits slot l = elim (le_cases start slot) [
    | inl ahead ↦ (
      slot - start,
      omega arith,
      ap (λ (t : ℕ). t % s.slot_count) {y = slot} (omega (arith, small)) ∙ mod-eq_of_lt l,
    )
    | inr behind ↦ (
      slot + s.slot_count - start,
      omega arith,
      ap (λ (t : ℕ). t % s.slot_count) {y = slot + s.slot_count} (omega (arith, small))
          ∙ mod-eq-sub-mod {n = slot + s.slot_count} (omega arith)
          ∙ ap (λ (t : ℕ). t % s.slot_count) {y = slot} (omega arith)
          ∙ mod-eq_of_lt l,
    )
  ]

true≢false : true ≢ false
true≢false e = cc

-- What `allocate_slot` promises: a full slab is left alone; otherwise it gives a slot that was
-- free, marks it and no other, and counts it.
abbrev pub SlotTaken : Slab → ℕ → Bool → Option (ℕ × ℕ) → Slab → Type 0
SlotTaken s user_size right_align none s' =
    (s.free_count ≡ 0) × (s' ≡ s) × ((i : ℕ) → i < s.slot_count → is_free s i ≡ false)
SlotTaken s user_size right_align (some (slot, offset)) s' =
    (slot < s.slot_count)
    × (is_free s slot ≡ true)
    × (offset ≡ slot_offset s slot user_size right_align)
    × ((i : ℕ) → is_allocated s' i ≡ (i == slot || is_allocated s i))
    × (s'.quarantine_fifo ≡ s.quarantine_fifo)
    × (s'.free_count + 1 ≡ s.free_count)
    × IsValid s'

module _ (s : Slab) (v : IsValid s) where
  abbrev start : ℕ
  start = (rng_bounded s.rng s.slot_count).0

  scan_finds :
      0 < s.free_count
      → (slot : ℕ) × (scan s start s.slot_count 0 ≡ some slot)
        × (is_free s slot ≡ true)
        × (slot < s.slot_count)
  scan_finds some_free = go (scan s start s.slot_count 0) refl
    where
      begins : start < s.slot_count
      begins = rng_bounded-lt s.rng s.slot_count v.sound.nonempty

      scanned :
          (o : Option ℕ)
          → scan s start s.slot_count 0 ≡ o
          → Scanned s start v.sound.small begins 0 (0 + s.slot_count) o
      scanned o e =
          subst (Scanned s start v.sound.small begins 0 (0 + s.slot_count)) e
            (scan-Scanned s start v.sound.small begins s.slot_count 0)

      go :
          (o : Option ℕ)
          → scan s start s.slot_count 0 ≡ o
          → (slot : ℕ) × (scan s start s.slot_count 0 ≡ some slot)
            × (is_free s slot ≡ true)
            × (slot < s.slot_count)
      go (some slot) e = let (f, l) = scanned (some slot) e in (slot, e, f, l)
      go none e =
          let (slot, l, f) =
            count_find (is_free s) s.slot_count (omega (arith, v.sound.counted, some_free)) in
          let (k, below, at) = visits s start v.sound.small begins slot l in
          absurd (
            true≢false (
              sym f
              ∙ ap (is_free s) (sym at)
              ∙ scanned none e k (omega arith) (omega (arith, below))))

  -- The state of the generator plays no part in the invariant.
  abbrev reseeded : ℕ → Slab
  reseeded rng = record s { rng = rng }

  reseeded-IsValid : (rng : ℕ) → IsValid (reseeded rng)
  unfolding is_free is_allocated is_quarantined
  reseeded-IsValid rng = record {
    sound = record {
      nonempty = v.sound.nonempty;
      small = v.sound.small;
      allocated_words = v.sound.allocated_words;
      quarantine_words = v.sound.quarantine_words;
      queue_in = v.sound.queue_in;
      queue_marked = v.sound.queue_marked;
      apart = v.sound.apart;
      distinct = v.sound.distinct;
      counted = v.sound.counted;
    };
    cooled = v.cooled;
  }

  module _ (user_size : ℕ) (right_align : Bool) (now caller_hash rng slot : ℕ)
      (l : slot < s.slot_count) (f : is_free s slot ≡ true) (some_free : 0 < s.free_count) where
    taken-SlotTaken :
        SlotTaken s user_size right_align
          (some (slot, slot_offset (reseeded rng) slot user_size right_align))
          (take_slot (reseeded rng) slot now caller_hash)
    unfolding take_slot slot_offset is_free is_allocated is_quarantined
    taken-SlotTaken =
        let v' = (reseeded-IsValid rng).sound in
        (
          l,
          f,
          refl,
          is_allocated-take_slot (reseeded rng) slot now caller_hash s.quarantine_fifo v' l,
          refl,
          omega (arith, some_free),
          record {
            sound = take_slot-Sound (reseeded rng) slot now caller_hash s.quarantine_fifo v' l f;
            cooled = v.cooled;
          },
        )

-- Allocation in a valid slab: either the counter is 0, no slot is free and nothing changes, or a
-- slot is found that was free, wherever the random scan starts; it alone becomes allocated, the
-- counter falls by one, and the slab stays valid.
pub allocate_slot_lem :
    (s : Slab) (user_size : ℕ) (right_align : Bool) (now caller_hash : ℕ)
    → IsValid s
    → let answer = allocate_slot s user_size right_align now caller_hash in
      SlotTaken s user_size right_align answer.0 answer.1
unfolding allocate_slot taken_slot find_random_free_slot
allocate_slot_lem s user_size right_align now caller_hash v =
    elim (Bool-cases (s.free_count == 0)) [
      | inl empty ↦
          let zero' : s.free_count ≡ 0 = ground (arith, empty) in
          rw (empty, SlotTaken)
            (
              zero',
              refl,
              λ i l. count_zero (is_free s) s.slot_count i (sym v.sound.counted ∙ zero') l,
            )
      | inr more ↦
          let some_free : 0 < s.free_count = ground (arith, more) in
          let (slot, found, f, l) = scan_finds s v some_free in
          rw (more, found)
            (taken-SlotTaken s v user_size right_align now caller_hash _ slot l f some_free)
    ]
