-- ===== src/Memory/Slab/Free.antt =====
-- memory/slab.rs: what `free_slot` does.
use ignis_rs.Base.{
  ℕ, suc, ◌+◌, ◌-◌, ◌*◌, ◌≤◌, ◌<◌, ◌≡◌, refl, sym, ap, ◌∙◌, ◌≢◌, inl, inr, Bool, none, some, leb,
  true, false, ◌&&◌, ◌||◌, not, Option, List, [], ◌∷◌, ◌++◌, arith, ltb, ◌==◌, Bool-cases, All,
  length, length-append, drop,
}
use ignis_rs.Memory.Slab.Bitmap.{
  is_set, set_bit, clear_bit, is_set-set_bit, is_set-clear_bit, length-set_bit, length-clear_bit,
}
use ignis_rs.Memory.Slab.Count.{count, count_ext, count_flip, member, member-append, Distinct-snoc}
use ignis_rs.Memory.Slab.{
  Slab, SlotHistory, is_allocated, is_quarantined, is_free, cool, zero_slot, zero_mapped, free_slot,
}
use ignis_rs.Memory.Slab.Invariant.{Sound, IsValid, Evicted, evict-Evicted}

All-snoc :
    (n : ℕ) (xs : List ℕ) (i : ℕ) → All (λ j. j < n) xs → i < n → All (λ j. j < n) (xs ++ i ∷ [])
All-snoc n [] i h l = (l, tt)
All-snoc n (x ∷ xs) i h l = (h.0, All-snoc n xs i h.1 l)

module _ (s : Slab) (slot : ℕ) (clock : ℕ → ℕ) (v : IsValid s) (l : slot < s.slot_count)
    (held : is_allocated s slot ≡ true) where
  open s use {slot_count, quarantine_fifo}

  not_queued : member slot quarantine_fifo ≡ false
  not_queued = ground (arith, v.sound.queue_marked slot l, v.sound.apart slot l, held)

  cleared :
      (i : ℕ) → is_set (clear_bit s.allocated slot) i ≡ (not (i == slot) && is_set s.allocated i)
  cleared = is_set-clear_bit s.allocated slot (omega (arith, l, v.sound.allocated_words))

  queued : (i : ℕ) → is_set (set_bit s.quarantine slot) i ≡ (i == slot || is_set s.quarantine i)
  queued = is_set-set_bit s.quarantine slot (omega (arith, l, v.sound.quarantine_words))

  not_quarantined : is_quarantined s slot ≡ false
  not_quarantined = ground (arith, v.sound.apart slot l, held)

  module _ (s' : Slab) (ec : s'.slot_count ≡ s.slot_count)
      (ea : s'.allocated ≡ clear_bit s.allocated slot) where
    allocated' : (i : ℕ) → is_allocated s' i ≡ (not (i == slot) && is_allocated s i)
    unfolding is_allocated
    allocated' i = ap (λ (t : List ℕ). is_set t i) ea ∙ cleared i

    words' : s'.slot_count ≤ 64 * length s'.allocated
    words' =
        omega (arith, ec, ap length ea, length-clear_bit s.allocated slot, v.sound.allocated_words)

    -- With a quarantine: the slot is cleared, marked and queued; the counter stays.
    queued-Sound :
        s'.quarantine ≡ set_bit s.quarantine slot
        → s'.free_count ≡ s.free_count
        → Sound s' (quarantine_fifo ++ slot ∷ [])
    queued-Sound eq ef = record {
      nonempty = omega (arith, ec, v.sound.nonempty);
      small = omega (arith, ec, v.sound.small);
      allocated_words = words';
      quarantine_words =
          omega
            (arith, ec, ap length eq, length-set_bit s.quarantine slot, v.sound.quarantine_words);
      queue_in = rw ec (All-snoc s.slot_count quarantine_fifo slot v.sound.queue_in l);
      queue_marked = λ i k. marked' i (omega (arith, k, ec));
      apart = λ i k q.
          ground (arith, allocated' i, quarantined' i, v.sound.apart i (omega (arith, k, ec)), q);
      distinct = Distinct-snoc quarantine_fifo slot v.sound.distinct not_queued;
      counted =
          ef
          ∙ v.sound.counted
          ∙ count_ext (is_free s) (is_free s') s.slot_count same_free
          ∙ sym (ap (count (is_free s')) ec);
    }
      where
        quarantined' : (i : ℕ) → is_quarantined s' i ≡ (i == slot || is_quarantined s i)
        quarantined' i = unfold is_quarantined in ap (λ (t : List ℕ). is_set t i) eq ∙ queued i

        marked' :
            (i : ℕ)
            → i < s.slot_count
            → is_quarantined s' i ≡ member i (quarantine_fifo ++ slot ∷ [])
        marked' i k =
            rw
              (
                quarantined' i,
                member-append i quarantine_fifo (slot ∷ []),
                v.sound.queue_marked i k,
              )
              (unfold member in ground arith)

        same_free : (i : ℕ) → i < s.slot_count → is_free s i ≡ is_free s' i
        same_free i k = unfold is_free in ground (arith, allocated' i, quarantined' i, held)

    -- Without one: the slot is cleared and counted as free.
    freed-Sound :
        s'.quarantine ≡ s.quarantine → s'.free_count ≡ s.free_count + 1 → Sound s' quarantine_fifo
    freed-Sound eq ef = record {
      nonempty = omega (arith, ec, v.sound.nonempty);
      small = omega (arith, ec, v.sound.small);
      allocated_words = words';
      quarantine_words = omega (arith, ec, ap length eq, v.sound.quarantine_words);
      queue_in = rw ec v.sound.queue_in;
      queue_marked = λ i k. quarantined' i ∙ v.sound.queue_marked i (omega (arith, k, ec));
      apart = λ i k q.
          ground (arith, allocated' i, quarantined' i, v.sound.apart i (omega (arith, k, ec)), q);
      distinct = v.sound.distinct;
      counted = omega (
        arith,
        ef,
        v.sound.counted,
        ap (count (is_free s')) ec,
        count_flip (is_free s') (is_free s) s.slot_count slot l now_free was_held other_free,
      );
    }
      where
        quarantined' : (i : ℕ) → is_quarantined s' i ≡ is_quarantined s i
        quarantined' i = unfold is_quarantined in ap (λ (t : List ℕ). is_set t i) eq

        now_free : is_free s' slot ≡ true
        now_free =
            unfold is_free in ground (arith, allocated' slot, quarantined' slot, not_quarantined)

        was_held : is_free s slot ≡ false
        was_held = unfold is_free in ground (arith, held)

        other_free : (i : ℕ) → i < s.slot_count → i ≢ slot → is_free s' i ≡ is_free s i
        other_free i k ne = unfold is_free in ground (arith, allocated' i, quarantined' i, ne)

  -- The state after the free list of marks is settled, before the queue is.
  abbrev cleared_slab : Option SlotHistory → Slab
  cleared_slab h = record s { allocated = clear_bit s.allocated slot; history = h }

  abbrev queued_slab : Option SlotHistory → Slab
  queued_slab h = record (cleared_slab h) { quarantine = set_bit s.quarantine slot }

  abbrev Result' : Slab → Type 0
  Result' s' =
      IsValid s'
      × ((i : ℕ) → is_allocated s' i ≡ (not (i == slot) && is_allocated s i))
      × (s'.quarantine_fifo
          ≡ drop (length s.quarantine_fifo + 1 - s.quarantine_max) (s.quarantine_fifo ++ slot ∷ []))
      × (s'.slot_count ≡ s.slot_count)

  from_queue :
      (h : Option SlotHistory) (s' : Slab)
      → Evicted (queued_slab h) (quarantine_fifo ++ slot ∷ []) s'
      → Result' s'
  from_queue h s' e = (
    e.valid,
    allocated' s' e.same_count e.same_allocated,
    e.queue
        ∙ ap (λ (n : ℕ). drop (n - s.quarantine_max) (quarantine_fifo ++ slot ∷ []))
            (length-append quarantine_fifo (slot ∷ [])),
    e.same_count,
  )

  empty_queue : (xs : List ℕ) → length xs ≤ 0 → xs ≡ drop (length xs + 1 - 0) (xs ++ slot ∷ [])
  empty_queue [] h = refl
  empty_queue (x ∷ xs) h = absurd (omega arith)

  cool-Result : (h : Option SlotHistory) → Result' (cool (cleared_slab h) slot clock)
  unfolding cool
  cool-Result h = elim (Bool-cases (ltb 0 s.quarantine_max)) [
    | inl keeps ↦
        rw (keeps, Result')
          (from_queue h _ (
            evict-Evicted (quarantine_fifo ++ slot ∷ []) (queued_slab h) clock
              (queued-Sound (queued_slab h) refl refl refl refl)))
    | inr none' ↦
        let zero_max : s.quarantine_max ≡ 0 = ground arith in
        let no_queue : length quarantine_fifo ≤ 0 = omega (arith, zero_max, v.cooled) in
        let s' : Slab = record (cleared_slab h) { free_count = s.free_count + 1 } in
        rw (none', Result')
          (
            record { sound = freed-Sound s' refl refl refl refl; cooled = v.cooled },
            allocated' s' refl refl,
            empty_queue quarantine_fifo no_queue
                ∙ ap
                    (λ (n : ℕ).
                      drop (length quarantine_fifo + 1 - n) (quarantine_fifo ++ slot ∷ []))
                    (sym zero_max),
            refl,
          )
  ]

zero_mapped-outside :
    (s : Slab) (bytes : ℕ → ℕ) (slot x : ℕ) (zero' : Bool)
    → (leb (slot * s.slot_size) x && ltb x (slot * s.slot_size + s.slot_size)) ≡ false
    → (mapped : Option ℕ) → zero_mapped mapped s bytes slot zero' x ≡ bytes x
unfolding zero_mapped zero_slot
zero_mapped-outside s bytes slot x zero' out none = refl
zero_mapped-outside s bytes slot x zero' out (some base) = ground (arith, out)

-- Freeing an allocated slot of a valid slab keeps the slab valid, clears the mark of this slot
-- and no other, and puts the slot at the end of the quarantine queue, from whose front the oldest
-- slots leave once it is longer than allowed. No byte outside the slot is written.
pub free_slot_lem :
    (s : Slab) (bytes : ℕ → ℕ) (slot : ℕ) (zero' : Bool) (clock : ℕ → ℕ) (caller_hash : ℕ)
    → IsValid s
    → slot < s.slot_count
    → is_allocated s slot ≡ true
    → let (s', bytes') = free_slot s bytes slot zero' clock caller_hash in
      IsValid s'
      × ((i : ℕ) → is_allocated s' i ≡ (not (i == slot) && is_allocated s i))
      × (s'.quarantine_fifo
          ≡ drop (length s.quarantine_fifo + 1 - s.quarantine_max) (s.quarantine_fifo ++ slot ∷ []))
      × (s'.slot_count ≡ s.slot_count)
      × ((x : ℕ)
          → (leb (slot * s.slot_size) x && ltb x (slot * s.slot_size + s.slot_size)) ≡ false
          → bytes' x ≡ bytes x)
unfolding free_slot
free_slot_lem s bytes slot zero' clock caller_hash v l held =
    let (valid, marks, queue, same) = cool-Result s slot (λ event. clock (suc event)) v l held _ in
    (valid, marks, queue, same, λ x out. zero_mapped-outside s bytes slot x zero' out s.mapped_base)
