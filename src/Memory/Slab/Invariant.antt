-- ===== src/Memory/Slab/Invariant.antt =====
-- memory/slab.rs: the invariant of a slab, kept by `allocate_slot` and `free_slot`.
use ignis_rs.Base.{
  ℕ, suc, ◌-◌, ◌*◌, ◌^◌, ◌≤◌, ◌<◌, ◌≡◌, refl, sym, ap, ◌∙◌, inl, inr, true, false, ◌&&◌, ◌||◌, not,
  List, [], ◌∷◌, arith, ltb, ◌==◌, Bool-cases, drop, drop-nil, ltb→lt, All, length,
}
use ignis_rs.Memory.Slab.Bitmap.{is_set-set_bit, is_set-clear_bit, length-set_bit, length-clear_bit}
use ignis_rs.Memory.Slab.Count.{count, count_flip, member, Distinct}
use ignis_rs.Memory.Slab.{Slab, is_allocated, is_quarantined, is_free, take_slot, release, evict}

-- The bitmaps, the counter and a quarantine queue of a slab agree.
pub record Sound (s : Slab) (fifo : List ℕ) : Type 0 where
  pub nonempty : 0 < s.slot_count
  pub small : s.slot_count < 2 ^ 31
  pub allocated_words : s.slot_count ≤ 64 * length s.allocated
  pub quarantine_words : s.slot_count ≤ 64 * length s.quarantine
  pub queue_in : All (λ i. i < s.slot_count) fifo
  pub queue_marked : (i : ℕ) → i < s.slot_count → is_quarantined s i ≡ member i fifo
  pub apart : (i : ℕ) → i < s.slot_count → is_quarantined s i ≡ true → is_allocated s i ≡ false
  pub distinct : Distinct fifo
  pub counted : s.free_count ≡ count (is_free s) s.slot_count

pub record IsValid (s : Slab) : Type 0 where
  pub sound : Sound s s.quarantine_fifo
  pub cooled : length s.quarantine_fifo ≤ s.quarantine_max

module _ (s : Slab) (slot now caller_hash : ℕ) (fifo : List ℕ) (v : Sound s fifo)
    (l : slot < s.slot_count) where
  pub is_allocated-take_slot :
      (i : ℕ) → is_allocated (take_slot s slot now caller_hash) i ≡ (i == slot || is_allocated s i)
  unfolding is_allocated take_slot
  is_allocated-take_slot = is_set-set_bit s.allocated slot (omega (arith, v.allocated_words))

  pub take_slot-Sound : is_free s slot ≡ true → Sound (take_slot s slot now caller_hash) fifo
  unfolding take_slot is_free is_quarantined
  take_slot-Sound f = record {
    nonempty = v.nonempty;
    small = v.small;
    allocated_words = rw (length-set_bit s.allocated slot) v.allocated_words;
    quarantine_words = v.quarantine_words;
    queue_in = v.queue_in;
    queue_marked = v.queue_marked;
    apart = λ i k q. ground (arith, is_allocated-take_slot i, v.apart i k q, f, q);
    distinct = v.distinct;
    counted = omega (
      arith,
      v.counted,
      count_flip (is_free s) (is_free (take_slot s slot now caller_hash)) s.slot_count slot l f
          (ground (arith, is_allocated-take_slot slot))
          (λ i k ne. ground (arith, is_allocated-take_slot i, ne)),
    );
  }

module _ (s : Slab) (evicted now : ℕ) (fifo : List ℕ) (v : Sound s (evicted ∷ fifo)) where
  is_quarantined-release :
      (i : ℕ)
      → is_quarantined (release s evicted now) i ≡ (not (i == evicted) && is_quarantined s i)
  unfolding is_quarantined release
  is_quarantined-release =
      is_set-clear_bit s.quarantine evicted (omega (arith, v.quarantine_words, v.queue_in))

  marked : is_quarantined s evicted ≡ true
  unfolding member
  marked = ground (arith, v.queue_marked evicted v.queue_in.0)

  release-Sound : Sound (release s evicted now) fifo
  unfolding release is_free is_allocated member
  release-Sound = record {
    nonempty = v.nonempty;
    small = v.small;
    allocated_words = v.allocated_words;
    quarantine_words = rw (length-clear_bit s.quarantine evicted) v.quarantine_words;
    queue_in = v.queue_in.1;
    queue_marked =
        λ i k. ground (arith, is_quarantined-release i, v.queue_marked i k, v.distinct.0);
    apart = λ i k q. ground (arith, is_quarantined-release i, v.apart i k, q);
    distinct = v.distinct.1;
    counted = omega (
      arith,
      v.counted,
      count_flip (is_free (release s evicted now)) (is_free s) s.slot_count evicted v.queue_in.0
          (ground (arith, is_quarantined-release evicted, v.apart evicted v.queue_in.0 marked))
          (ground (arith, marked)) (λ i k ne. ground (arith, is_quarantined-release i, ne)),
    );
  }

Sound-queue :
    (s : Slab) (fifo : List ℕ) → Sound s fifo → Sound (record s { quarantine_fifo = fifo }) fifo
unfolding is_allocated is_quarantined is_free
Sound-queue s fifo v = record {
  nonempty = v.nonempty;
  small = v.small;
  allocated_words = v.allocated_words;
  quarantine_words = v.quarantine_words;
  queue_in = v.queue_in;
  queue_marked = v.queue_marked;
  apart = v.apart;
  distinct = v.distinct;
  counted = v.counted;
}

-- What eviction does: the slab keeps the newest slots of the queue, as many as are allowed.
pub record Evicted (s : Slab) (fifo : List ℕ) (s' : Slab) : Type 0 where
  pub valid : IsValid s'
  pub queue : s'.quarantine_fifo ≡ drop (length fifo - s.quarantine_max) fifo
  pub same_allocated : s'.allocated ≡ s.allocated
  pub same_count : s'.slot_count ≡ s.slot_count
  pub same_size : s'.slot_size ≡ s.slot_size
  pub same_max : s'.quarantine_max ≡ s.quarantine_max
  pub same_memory : s'.memory ≡ s.memory

pub evict-Evicted :
    (fifo : List ℕ) (s : Slab) (clock : ℕ → ℕ) → Sound s fifo → Evicted s fifo (evict fifo s clock)
unfolding evict
evict-Evicted [] s clock v = record {
  valid = record { sound = Sound-queue s [] v; cooled = omega arith };
  queue = sym (drop-nil (0 - s.quarantine_max));
  same_allocated = refl;
  same_count = refl;
  same_size = refl;
  same_max = refl;
  same_memory = refl;
}
evict-Evicted (evicted ∷ fifo) s clock v =
    elim (Bool-cases (ltb s.quarantine_max (suc (length fifo)))) [
      | inl full ↦ rw full (
          later (ltb→lt _ _ full) (
            evict-Evicted fifo (release s evicted (clock 0)) (λ event. clock (suc event))
              (release-Sound s evicted (clock 0) fifo v)))
      | inr room ↦ rw room (record {
        valid = record { sound = Sound-queue s (evicted ∷ fifo) v; cooled = ground arith };
        queue = sym (ap (λ (n : ℕ). drop n (evicted ∷ fifo)) {y = 0} (ground arith));
        same_allocated = refl;
        same_count = refl;
        same_size = refl;
        same_max = refl;
        same_memory = refl;
      })
    ]
  where
    later :
        {s' : Slab}
        → s.quarantine_max < suc (length fifo)
        → Evicted (release s evicted (clock 0)) fifo s'
        → Evicted s (evicted ∷ fifo) s'
    later l e =
        unfold release in
        record {
          valid = e.valid;
          queue =
              e.queue
              ∙ sym (
                  ap (λ (n : ℕ). drop n (evicted ∷ fifo)) {y = suc (length fifo - s.quarantine_max)}
                    (omega (arith, l)));
          same_allocated = e.same_allocated;
          same_count = e.same_count;
          same_size = e.same_size;
          same_max = e.same_max;
          same_memory = e.same_memory;
        }
