-- ===== src/Memory/Slab/Tests.antt =====
-- memory/slab.rs: runs of the slab operations on a small slab.
use ignis_rs.Base.{
  ℕ, zero, suc, ◌+◌, ◌*◌, ◌/◌, ◌%◌, ◌≤◌, ◌<◌, ◌≡◌, ◌≢◌, refl, true, false, ◌&&◌, not, none, some,
  [], ◌∷◌, arith, ◌==◌, leb, ltb,
}
use ignis_rs.Memory.Slab.Config.{default}
use ignis_rs.Memory.Slab.New.{slab_new-IsValid}
use ignis_rs.Memory.Slab.{
  slab_new, Slab, allocate_slot, free_slot, is_allocated, is_quarantined, is_free, slot_offset,
  check_prefix, zero_slot,
}
use ignis_rs.Memory.Slab.Bitmap.{word_of, is_set}
use ignis_rs.Memory.Slab.Count.{count, member}
use ignis_rs.Memory.Slab.Invariant.{IsValid}
use ignis_rs.Memory.Slab.Scan.{SlotTaken, allocate_slot_lem}
use ignis_rs.Memory.Slab.Free.{free_slot_lem}
use ignis_rs.Memory.Slab.Classes.{
  slot_offset_lem, slot_offset_misaligned, check_prefix_lem, Chosen, find_size_class,
  find_size_class_lem,
}

-- Three slots of 256 bytes: the first is allocated, the second cools down.
abbrev three_slots : Slab
three_slots = record {
  memory = 5;
  total_size = 768;
  slot_size = 256;
  slot_count = 3;
  mapped_base = some 4096;
  allocated = 1 ∷ [];
  quarantine = 2 ∷ [];
  quarantine_fifo = 1 ∷ [];
  quarantine_max = 1;
  free_count = 1;
  rng = 42;
  history = none;
}

three_slots-IsValid : IsValid three_slots
unfolding is_allocated is_quarantined is_free is_set word_of count member
three_slots-IsValid = record {
  sound = record {
    nonempty = omega arith;
    small = omega arith;
    allocated_words = omega arith;
    quarantine_words = omega arith;
    queue_in = (omega arith, tt);
    queue_marked = marked;
    apart = alone;
    distinct = (refl, tt);
    counted = refl;
  };
  cooled = omega arith;
}
  where
    marked : (i : ℕ) → i < 3 → is_quarantined three_slots i ≡ member i (1 ∷ [])
    marked zero l = refl
    marked (suc zero) l = refl
    marked (suc (suc zero)) l = refl
    marked (suc (suc (suc i))) l = absurd (omega arith)

    alone :
        (i : ℕ) → i < 3 → is_quarantined three_slots i ≡ true → is_allocated three_slots i ≡ false
    alone zero l q = absurd (ground (arith, q))
    alone (suc zero) l q = refl
    alone (suc (suc zero)) l q = refl
    alone (suc (suc (suc i))) l q = absurd (omega arith)

allocate_slot_lem_example :
    let answer = allocate_slot three_slots 100 true 10 77 in
    SlotTaken three_slots 100 true answer.0 answer.1
allocate_slot_lem_example = allocate_slot_lem three_slots 100 true 10 77 three_slots-IsValid

free_slot_lem_example :
    let (s', bytes') = free_slot three_slots (λ x. 9) 0 true (λ event. 20 + event) 77 in
    IsValid s'
    × ((i : ℕ) → is_allocated s' i ≡ (not (i == 0) && is_allocated three_slots i))
    × (s'.quarantine_fifo ≡ 0 ∷ [])
    × (s'.slot_count ≡ 3)
    × ((x : ℕ)
        → (leb (0 * three_slots.slot_size) x
            && ltb x (0 * three_slots.slot_size + three_slots.slot_size))
          ≡ false
        → bytes' x ≡ 9)
free_slot_lem_example =
    free_slot_lem three_slots (λ x. 9) 0 true (λ event. 20 + event) 77 three_slots-IsValid
      (omega arith) held
  where
    held : is_allocated three_slots 0 ≡ true
    held = unfold is_allocated is_set word_of in refl

slot_offset_lem_example :
    (2 * 256 ≤ slot_offset three_slots 2 100 true)
    × (slot_offset three_slots 2 100 true + 100 ≤ 2 * 256 + 256)
    × (slot_offset three_slots 2 100 true / 256 ≡ 2)
slot_offset_lem_example = slot_offset_lem three_slots 2 100 true (omega arith) (omega arith)

slot_offset_misaligned_example : slot_offset three_slots 2 100 true % 64 ≢ 0
slot_offset_misaligned_example =
    slot_offset_misaligned three_slots 2 100 64 4 refl (omega arith) (omega arith)
      (λ e. absurd (omega (arith, e)))

-- A write of 9 at byte 520 lies before the data of slot 2, which starts at 668.
check_prefix_lem_example :
    (check_prefix three_slots (zero_slot three_slots (λ x. 1) 2 true) 2 100 ≡ 0)
    × (0 < check_prefix three_slots (λ x. 9) 2 100)
check_prefix_lem_example =
    check_prefix_lem three_slots 4096 (λ x. 1) (λ x. 9) 2 100 520 refl (omega arith) (omega arith)
      (λ e. absurd (omega (arith, e)))

find_size_class_lem_example : Chosen 300 64 (find_size_class 300 64)
find_size_class_lem_example = find_size_class_lem 300 64

slab_new-IsValid_example :
    let s = slab_new 5 2097152 4096 (some 4096) default 99 in
    IsValid s × ((i : ℕ) → is_free s i ≡ true)
slab_new-IsValid_example =
    slab_new-IsValid 5 2097152 4096 (some 4096) default 99 (omega arith) (omega arith)
