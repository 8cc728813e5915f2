-- ===== src/Memory/Slab.antt =====
-- memory/slab.rs: `Rng`, `SlotHistory` and `Slab`. The bytes of a mapped slab are a function of
-- their own, which the functions that read or write them take. The clock and the hash of the
-- caller's location, which only feed the history, are arguments.
pub mod Bitmap
pub mod Config
pub mod New
pub mod Count
pub mod Invariant
pub mod Free
pub mod Scan
pub mod Classes
mod Tests
use Prim.Native.Nat.{bit_xor}
use ignis_rs.Base.{
  ℕ, zero, suc, ◌+◌, ◌-◌, ◌*◌, ◌/◌, ◌%◌, ◌^◌, ◌≤◌, ◌<◌, Bool, true, false, ◌&&◌, not, Option, none,
  some, List, [], ◌∷◌, ◌++◌, ltb, leb, ◌==◌, if◌then◌else◌, length, get_elem?, replicate, remove_at,
  set,
}
use ignis_rs.Memory.Slab.Bitmap.{is_set, set_bit, clear_bit}
use ignis_rs.Memory.Slab.Config.{SlabConfig}

-- SplitMix64. One step gives the number and the new state.
pub rng_new : ℕ → ℕ
rng_new seed = (seed + 0x9E3779B97F4A7C15) % 2 ^ 64

pub rng_next : ℕ → ℕ × ℕ
rng_next state =
    let s = (state + 0x9E3779B97F4A7C15) % 2 ^ 64 in
    let a = bit_xor s (s / 2 ^ 30) * 0xBF58476D1CE4E5B9 % 2 ^ 64 in
    let b = bit_xor a (a / 2 ^ 27) * 0x94D049BB133111EB % 2 ^ 64 in (bit_xor b (b / 2 ^ 31), s)

-- The cast to 32 bits cuts nothing off, since the remainder is below a 32-bit bound.
pub rng_bounded : ℕ → ℕ → ℕ × ℕ
rng_bounded state bound =
    if bound == 0 then (0, state) else ((rng_next state).0 % bound % 2 ^ 32, (rng_next state).1)

pub data SlotEventKind : Type 0 where
  allocated freed quarantine_exit : SlotEventKind

pub record SlotEvent : Type 0 where
  pub kind : SlotEventKind
  pub timestamp_us : ℕ
  pub caller_hash : ℕ

pub record SlotHistory : Type 0 where
  pub events : List (List SlotEvent)
  pub ring_cap : ℕ

pub history_new : ℕ → ℕ → SlotHistory
history_new slot_count ring_cap = record { events = replicate slot_count []; ring_cap = ring_cap }

ring_or_empty : Option (List SlotEvent) → List SlotEvent
ring_or_empty none = []
ring_or_empty (some ring) = ring

-- The oldest event makes room for the new one once the ring is full.
pub ring_push : List SlotEvent → ℕ → SlotEvent → List SlotEvent
ring_push ring ring_cap event =
    (if leb ring_cap (length ring) then remove_at ring 0 else ring) ++ event ∷ []

pub history_push : SlotHistory → ℕ → SlotEvent → SlotHistory
unfolding ring_or_empty ring_push
history_push h slot event = record h {
  events = set h.events slot (ring_push (ring_or_empty (get_elem? h.events slot)) h.ring_cap event);
}

pub record_event : Option SlotHistory → ℕ → SlotEvent → Option SlotHistory
record_event none slot event = none
record_event (some h) slot event = some (history_push h slot event)

pub record Slab : Type 0 where
  pub memory : ℕ
  pub total_size : ℕ
  pub slot_size : ℕ
  pub slot_count : ℕ
  pub mapped_base : Option ℕ
  pub allocated : List ℕ
  pub quarantine : List ℕ
  pub quarantine_fifo : List ℕ
  pub quarantine_max : ℕ
  pub free_count : ℕ
  pub rng : ℕ
  pub history : Option SlotHistory

-- The part of `Slab::new` that follows the calls of the driver: the memory object is at hand,
-- mapped at `mapped_base` if it is host visible, and `seed` comes from the handle and the clock.
pub slab_new : ℕ → ℕ → ℕ → Option ℕ → SlabConfig → ℕ → Slab
slab_new memory slab_size slot_size mapped_base config seed =
    let slot_count = slab_size / slot_size % 2 ^ 32 in
    let bitmap_words = (slot_count + 63) % 2 ^ 32 / 64 in
    record {
      memory = memory;
      total_size = slab_size;
      slot_size = slot_size;
      slot_count = slot_count;
      mapped_base = mapped_base;
      allocated = replicate bitmap_words 0;
      quarantine = replicate bitmap_words 0;
      quarantine_fifo = [];
      quarantine_max = config.quarantine_slots;
      free_count = slot_count;
      rng = rng_new seed;
      history = if config.slot_history then some (history_new slot_count 8) else none;
    }

pub is_allocated : Slab → ℕ → Bool
is_allocated s slot = is_set s.allocated slot

pub is_quarantined : Slab → ℕ → Bool
is_quarantined s slot = is_set s.quarantine slot

pub is_free : Slab → ℕ → Bool
is_free s slot = not (is_allocated s slot) && not (is_quarantined s slot)

-- `for offset in offset..offset + left`, the sum on 32 bits.
pub scan : Slab → ℕ → ℕ → ℕ → Option ℕ
scan s start zero offset = none
scan s start (suc left) offset =
    let slot = (start + offset) % 2 ^ 32 % s.slot_count in
    let rest = scan s start left (offset + 1) in if is_free s slot then some slot else rest

-- The new state of the generator comes with the slot.
pub find_random_free_slot : Slab → Option ℕ × Slab
find_random_free_slot s =
    let (start, rng) = rng_bounded s.rng s.slot_count in
    if s.free_count == 0 then (none, s) else (scan s start s.slot_count 0, record s { rng = rng })

-- The data stands at the end of its slot, so that an overflow runs into the next prefix.
pub slot_offset : Slab → ℕ → ℕ → Bool → ℕ
slot_offset s slot user_size right_align =
    if right_align && ltb user_size s.slot_size
    then slot * s.slot_size + (s.slot_size - user_size)
    else slot * s.slot_size

pub take_slot : Slab → ℕ → ℕ → ℕ → Slab
take_slot s slot now caller_hash = record s {
  allocated = set_bit s.allocated slot;
  free_count = s.free_count - 1;
  history =
      record_event s.history slot
        (record { kind = allocated; timestamp_us = now; caller_hash = caller_hash });
}

pub taken_slot : ℕ → Bool → ℕ → ℕ → Option ℕ × Slab → Option (ℕ × ℕ) × Slab
taken_slot user_size right_align now caller_hash (none, s) = (none, s)
taken_slot user_size right_align now caller_hash (some slot, s) =
    (some (slot, slot_offset s slot user_size right_align), take_slot s slot now caller_hash)

pub allocate_slot : Slab → ℕ → Bool → ℕ → ℕ → Option (ℕ × ℕ) × Slab
allocate_slot s user_size right_align now caller_hash =
    taken_slot user_size right_align now caller_hash (find_random_free_slot s)

-- The slot that leaves the quarantine.
pub release : Slab → ℕ → ℕ → Slab
release s evicted now = record s {
  quarantine = clear_bit s.quarantine evicted;
  free_count = s.free_count + 1;
  history =
      record_event s.history evicted
        (record { kind = quarantine_exit; timestamp_us = now; caller_hash = 0 });
}

-- `while quarantine_fifo.len() > quarantine_max`, over the queue itself: each round takes its head.
-- The clock gives the time of each event in turn.
pub evict : List ℕ → Slab → (ℕ → ℕ) → Slab
evict [] s clock = record s { quarantine_fifo = [] }
evict (evicted ∷ fifo) s clock =
    let rest = evict fifo (release s evicted (clock 0)) (λ event. clock (suc event)) in
    if ltb s.quarantine_max (suc (length fifo))
    then rest
    else record s { quarantine_fifo = evicted ∷ fifo }

pub cool : Slab → ℕ → (ℕ → ℕ) → Slab
cool s slot clock =
    if ltb 0 s.quarantine_max
    then evict (s.quarantine_fifo ++ slot ∷ [])
        (record s { quarantine = set_bit s.quarantine slot }) clock
    else record s { free_count = s.free_count + 1 }

-- What `free_slot` writes to the bytes of a mapped slab.
pub zero_slot : Slab → (ℕ → ℕ) → ℕ → Bool → ℕ → ℕ
zero_slot s bytes slot zero' x =
    if zero' && (leb (slot * s.slot_size) x && ltb x (slot * s.slot_size + s.slot_size))
    then 0
    else bytes x

-- `if let Some(base) = self.mapped_base`, around it.
pub zero_mapped : Option ℕ → Slab → (ℕ → ℕ) → ℕ → Bool → ℕ → ℕ
zero_mapped none s bytes slot zero' = bytes
zero_mapped (some base) s bytes slot zero' = zero_slot s bytes slot zero'

-- With the bytes of the slab.
pub free_slot : Slab → (ℕ → ℕ) → ℕ → Bool → (ℕ → ℕ) → ℕ → Slab × (ℕ → ℕ)
free_slot s bytes slot zero' clock caller_hash = (
  cool
      (record s {
        allocated = clear_bit s.allocated slot;
        history =
            record_event s.history slot
              (record { kind = freed; timestamp_us = clock 0; caller_hash = caller_hash });
      })
      slot (λ event. clock (suc event)),
  zero_mapped s.mapped_base s bytes slot zero',
)

-- The bytes from `at` that are not zero, `left` of them at most.
pub count_nonzero : (ℕ → ℕ) → ℕ → ℕ → ℕ
count_nonzero bytes zero at = 0
count_nonzero bytes (suc left) at =
    (if bytes at == 0 then 0 else 1) + count_nonzero bytes left (at + 1)

-- How many bytes before the data of a slot are not zero, in a mapped slab.
pub check_prefix : Slab → (ℕ → ℕ) → ℕ → ℕ → ℕ
check_prefix s bytes slot user_size = elim s.mapped_base [
  | none ↦ 0
  | some base ↦
      if leb s.slot_size user_size
      then 0
      else count_nonzero bytes (s.slot_size - user_size) (slot * s.slot_size)
]
