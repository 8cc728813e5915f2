-- ===== src/Memory/Slab/Classes.antt =====
-- memory/slab.rs: `SIZE_CLASSES`, `find_size_class`, and where the data of a slot stands.
use native.Mathlib.Nat.{mul-mod_left, mul-add-mod_self_right, div-eq_of_lt-le, mod-add-div'}
use ignis_rs.Base.{
  ℕ, zero, suc, ◌+◌, ◌-◌, ◌*◌, ◌/◌, ◌%◌, ◌≤◌, ◌<◌, max, ◌≡◌, refl, sym, ap, ◌∙◌, ◌≢◌, inl, inr,
  Bool, true, Option, none, some, List, [], ◌∷◌, arith, leb, if◌then◌else◌, Bool-cases, le_cases,
  get_elem?, ◌⊎◌,
}
use ignis_rs.Memory.Slab.{Slab, slot_offset, zero_slot, check_prefix, count_nonzero}

abbrev pub size_classes : List ℕ
size_classes =
    256 ∷ 512 ∷ 1024 ∷ 2048 ∷ 4096 ∷ 8192 ∷ 16384 ∷ 32768 ∷ 65536 ∷ 131072 ∷ 262144 ∷ 524288
    ∷ 1048576 ∷ []

-- `iter().position(|&sc| sc >= effective)`.
pub position_ge : ℕ → List ℕ → Option ℕ
position_ge effective [] = none
position_ge effective (sc ∷ rest) =
    if leb effective sc
    then some 0
    else elim (position_ge effective rest) [ some i ↦ some (suc i) | none ↦ none ]

pub find_size_class : ℕ → ℕ → Option ℕ
find_size_class size alignment = position_ge (max size alignment) size_classes

-- The first entry of a list that is at least `e`.
abbrev IsFirst : ℕ → List ℕ → Option ℕ → Type 0
IsFirst e xs none = (i sc : ℕ) → get_elem? xs i ≡ some sc → sc < e
IsFirst e xs (some i) =
    (sc : ℕ) × (get_elem? xs i ≡ some sc)
    × (e ≤ sc)
    × ((j smaller : ℕ) → j < i → get_elem? xs j ≡ some smaller → smaller < e)

position_ge-IsFirst : (e : ℕ) (xs : List ℕ) → IsFirst e xs (position_ge e xs)
unfolding position_ge
position_ge-IsFirst e [] = λ i sc h. cc
position_ge-IsFirst e (sc ∷ rest) = elim (Bool-cases (leb e sc)) [
  | inl fits ↦ rw (fits, IsFirst) (sc, refl, ground arith, λ j smaller l h. absurd (omega arith))
  | inr small ↦
      rw (small, IsFirst) (next (position_ge e rest) (ground arith) (position_ge-IsFirst e rest))
]
  where
    next :
        (o : Option ℕ)
        → sc < e
        → IsFirst e rest o
        → IsFirst e (sc ∷ rest) (elim o [ some i ↦ some (suc i) | none ↦ none ])
    next none l h = later
      where
        later : (i x : ℕ) → get_elem? (sc ∷ rest) i ≡ some x → x < e
        later zero x g = ground arith
        later (suc i) x g = h i x g
    next (some i) l (x, g, fits, first) = (x, g, fits, earlier)
      where
        earlier : (j y : ℕ) → j < suc i → get_elem? (sc ∷ rest) j ≡ some y → y < e
        earlier zero y k g = ground arith
        earlier (suc j) y k g = first j y (omega arith) g

-- What `find_size_class` promises of its result.
abbrev pub Chosen : ℕ → ℕ → Option ℕ → Type 0
Chosen size alignment none = (1048576 < size) ⊎ (1048576 < alignment)
Chosen size alignment (some i) =
    (sc : ℕ) × (get_elem? size_classes i ≡ some sc)
    × (size ≤ sc)
    × (alignment ≤ sc)
    × ((j smaller : ℕ)
        → j < i
        → get_elem? size_classes j ≡ some smaller
        → (smaller < size) ⊎ (smaller < alignment))

-- The class found is the smallest that holds both the size and the alignment; none is found
-- exactly for a size or an alignment above the largest class.
pub find_size_class_lem :
    (size alignment : ℕ) → Chosen size alignment (find_size_class size alignment)
unfolding find_size_class
find_size_class_lem size alignment =
    from_first (position_ge (max size alignment) size_classes)
      (position_ge-IsFirst (max size alignment) size_classes)
  where
    from_first :
        (o : Option ℕ) → IsFirst (max size alignment) size_classes o → Chosen size alignment o
    from_first none h = let top : 1048576 < max size alignment = h 12 1048576 refl in grind arith
    from_first (some i) (sc, g, fits, first) = (
      sc,
      g,
      omega arith,
      omega arith,
      λ j smaller l k. let low = first j smaller l k in grind arith,
    )

-- The bytes of an allocation, of a size above 0 and up to the slot size, stand in its slot, and
-- dividing the offset by the slot size, as `free` does, gives the slot back.
pub slot_offset_lem :
    (s : Slab) (slot user_size : ℕ) (right_align : Bool)
    → 0 < user_size
    → user_size ≤ s.slot_size
    → (slot * s.slot_size ≤ slot_offset s slot user_size right_align)
      × (slot_offset s slot user_size right_align + user_size ≤ slot * s.slot_size + s.slot_size)
      × (slot_offset s slot user_size right_align / s.slot_size ≡ slot)
unfolding slot_offset
slot_offset_lem s slot user_size right_align pos fits =
    (low, high, div-eq_of_lt-le s.slot_size low (omega (arith, high, pos)))
  where
    low : slot * s.slot_size ≤ slot_offset s slot user_size right_align
    low = unfold slot_offset in ground arith

    high : slot_offset s slot user_size right_align + user_size ≤ slot * s.slot_size + s.slot_size
    high = unfold slot_offset in ground arith

-- With a right-aligned placement, a size that is no multiple of the alignment gives an offset
-- that is not aligned, though the slots themselves are.
pub slot_offset_misaligned :
    (s : Slab) (slot user_size alignment per_slot : ℕ)
    → s.slot_size ≡ per_slot * alignment
    → 0 < alignment
    → user_size ≤ s.slot_size
    → user_size % alignment ≢ 0
    → slot_offset s slot user_size true % alignment ≢ 0
unfolding slot_offset
slot_offset_misaligned s slot user_size alignment per_slot whole pos fits off e = off (
    sym (mul-add-mod_self_right (at / alignment) alignment user_size)
    ∙ ap (λ (t : ℕ). t % alignment) {y = (slot * per_slot + per_slot) * alignment} exact
    ∙ mul-mod_left (slot * per_slot + per_slot) alignment)
  where
    at : ℕ
    at = slot_offset s slot user_size true

    ends : at + user_size ≡ slot * s.slot_size + s.slot_size
    ends = ground (arith, fits)

    exact : at / alignment * alignment + user_size ≡ (slot * per_slot + per_slot) * alignment
    exact = omega (arith, mod-add-div' at alignment, e, ends, whole, ap (λ (t : ℕ). slot * t) whole)

-- A slot that was zeroed when it was freed has a clean prefix whatever is placed in it next.
count_nonzero-zero :
    (bytes : ℕ → ℕ) (left at : ℕ)
    → ((x : ℕ) → at ≤ x → x < at + left → bytes x ≡ 0)
    → count_nonzero bytes left at ≡ 0
unfolding count_nonzero
count_nonzero-zero bytes zero at h = refl
count_nonzero-zero bytes (suc left) at h = ground (
  arith,
  h at (omega arith) (omega arith),
  count_nonzero-zero bytes left (at + 1) (λ x l k. h x (omega arith) (omega arith)),
)

nonzero-count_nonzero :
    (bytes : ℕ → ℕ) (left at x : ℕ)
    → at ≤ x
    → x < at + left
    → bytes x ≢ 0
    → 0 < count_nonzero bytes left at
unfolding count_nonzero
nonzero-count_nonzero bytes zero at x l k ne = absurd (omega arith)
nonzero-count_nonzero bytes (suc left) at x l k ne = elim (le_cases x at) [
  | inl first ↦
      let ne' : bytes at ≢ 0 = λ e. ne (ap bytes {y = at} (omega arith) ∙ e) in ground (arith, ne')
  | inr later ↦
      omega (arith, nonzero-count_nonzero bytes left (at + 1) x (omega arith) (omega arith) ne)
]

-- In a mapped slab, `free_slot` with zeroing leaves a prefix in which `check_prefix` finds no
-- damage, and from then on it finds damage as soon as some byte of the prefix is not zero.
pub check_prefix_lem :
    (s : Slab) (base : ℕ) (bytes later : ℕ → ℕ) (slot user_size x : ℕ)
    → s.mapped_base ≡ some base
    → slot * s.slot_size ≤ x
    → x < slot * s.slot_size + (s.slot_size - user_size)
    → later x ≢ 0
    → (check_prefix s (zero_slot s bytes slot true) slot user_size ≡ 0)
      × (0 < check_prefix s later slot user_size)
unfolding check_prefix zero_slot
check_prefix_lem s base bytes later slot user_size x mapped low high ne = rw mapped (
  ground (
    arith,
    count_nonzero-zero (zero_slot s bytes slot true) (s.slot_size - user_size) (slot * s.slot_size)
        zeroed,
  ),
  ground (
    arith,
    nonzero-count_nonzero later (s.slot_size - user_size) (slot * s.slot_size) x low high ne,
  ),
)
  where
    zeroed :
        (y : ℕ)
        → slot * s.slot_size ≤ y
        → y < slot * s.slot_size + (s.slot_size - user_size)
        → zero_slot s bytes slot true y ≡ 0
    zeroed y l k = ground arith
