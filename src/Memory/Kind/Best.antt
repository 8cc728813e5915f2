-- ===== src/Memory/Kind/Best.antt =====
-- memory/allocator.rs: which memory type `find_memory_type_index` chooses.
use ignis_rs.Base.{
  ℕ, zero, suc, ◌+◌, ◌^◌, ◌≤◌, ◌<◌, bit_and, bit_or, ◌≡◌, refl, inl, inr, true, not, Option, none,
  some, List, arith, ◌==◌, Bool-cases, le_cases, get_elem?, subst, ◌↔◌, ==_iff,
}
use ignis_rs.Base.Bits.{bit, bit-or, bit-le-one, bit_and-pow_iff, bit_and-self_iff}
use ignis_rs.Memory.Kind.{
  PropertyFlags, MemoryRequirements, MemoryLocation, required_flags, preferred_flags, contains,
  type_contains, suits, first_suiting, find_memory_type_index,
}

-- Every property bit of `wanted` is among `flags`.
abbrev pub Has : ℕ → ℕ → Type 0
Has flags wanted = (k : ℕ) → bit k wanted ≤ bit k flags

-- Type `i` is allowed by the mask of the requirements, and has the wanted properties.
abbrev pub Eligible : List ℕ → ℕ → ℕ → ℕ → Type 0
Eligible memory_types mask wanted i =
    (bit i mask ≡ 1) × (flags : ℕ) × (get_elem? memory_types i ≡ some flags) × Has flags wanted

contains_iff : (flags wanted : ℕ) → (contains flags wanted ≡ true) ↔ Has flags wanted
unfolding contains
contains_iff flags wanted = (
  λ h. (bit_and-self_iff flags wanted).0 ((==_iff _ _).0 h),
  λ h. (==_iff _ _).1 ((bit_and-self_iff flags wanted).1 h),
)

allowed_iff : (mask i : ℕ) → (not (bit_and mask (2 ^ i) == 0) ≡ true) ↔ (bit i mask ≡ 1)
allowed_iff mask i = ground (arith, bit_and-pow_iff mask i, bit-le-one i mask)

type_contains_inv :
    (wanted : ℕ) (o : Option ℕ)
    → type_contains o wanted ≡ true
    → (flags : ℕ) × (o ≡ some flags) × Has flags wanted
unfolding type_contains
type_contains_inv wanted none h = cc
type_contains_inv wanted (some flags) h = (flags, refl, (contains_iff flags wanted).0 h)

module _ (memory_types : List ℕ) (requirements : MemoryRequirements) (wanted : ℕ) where
  abbrev Fine : ℕ → Type 0
  Fine = Eligible memory_types requirements.memory_type_bits wanted

  suits_iff : (i : ℕ) → (suits memory_types requirements wanted i ≡ true) ↔ Fine i
  unfolding suits type_contains
  suits_iff i = (forth, back)
    where
      mask : ℕ
      mask = requirements.memory_type_bits

      forth : suits memory_types requirements wanted i ≡ true → Fine i
      forth h =
          let (flags, found, has) =
            type_contains_inv wanted (get_elem? memory_types i) (ground (arith, h)) in
          ((allowed_iff mask i).0 (ground (arith, h)), flags, found, has)

      back : Fine i → suits memory_types requirements wanted i ≡ true
      back (allowed, flags, found, has) =
          rw ((allowed_iff mask i).1 allowed, found) ((contains_iff flags wanted).1 has)

  -- The lowest eligible index in a range, if there is one.
  abbrev Lowest : ℕ → ℕ → Option ℕ → Type 0
  Lowest from to none = (j : ℕ) → from ≤ j → j < to → ¬ Fine j
  Lowest from to (some i) = Fine i × (from ≤ i) × (i < to) × ((j : ℕ) → from ≤ j → j < i → ¬ Fine j)

  widen :
      (left i : ℕ) (o : Option ℕ)
      → ¬ Fine i
      → Lowest (i + 1) (i + 1 + left) o
      → Lowest i (i + suc left) o
  widen left i none n h = λ j low high. elim (le_cases j i) [
    | inl first ↦ λ g. n (subst Fine (omega arith) g)
    | inr later ↦ h j (omega arith) (omega arith)
  ]
  widen left i (some k) n h = (
    h.0,
    omega (arith, h.1),
    omega (arith, h.2),
    λ j low high. elim (le_cases j i) [
      | inl first ↦ λ g. n (subst Fine (omega arith) g)
      | inr later ↦ h.3 j (omega arith) high
    ],
  )

  first_suiting-Lowest :
      (left i : ℕ) → Lowest i (i + left) (first_suiting memory_types requirements wanted left i)
  unfolding first_suiting
  first_suiting-Lowest zero i = λ j low high. absurd (omega arith)
  first_suiting-Lowest (suc left) i = elim (Bool-cases (suits memory_types requirements wanted i)) [
    | inl it ↦
        rw (it, Lowest)
          ((suits_iff i).0 it, omega arith, omega arith, λ j low high. absurd (omega arith))
    | inr other ↦ rw other (
        widen left i (first_suiting memory_types requirements wanted left (i + 1))
          (λ g. cc ((suits_iff i).1 g, other)) (first_suiting-Lowest left (i + 1)))
  ]

-- What `find_memory_type_index` promises of its result.
abbrev pub IsBest :
    PropertyFlags → ℕ → List ℕ → MemoryRequirements → MemoryLocation → Option ℕ → Type 0
IsBest vk count types requirements location none =
    (j : ℕ)
    → j < count
    → ¬ Eligible types requirements.memory_type_bits (required_flags vk location) j
IsBest vk count types requirements location (some i) =
    (i < count)
    × Eligible types requirements.memory_type_bits (required_flags vk location) i
    × (((j : ℕ)
        → j < count
        → Eligible types requirements.memory_type_bits (required_flags vk location) j
        → Eligible types requirements.memory_type_bits (preferred_flags vk location) j
        → Eligible types requirements.memory_type_bits (preferred_flags vk location) i))

Has-or : (flags r p : ℕ) → Has flags (bit_or r p) ↔ (Has flags r × Has flags p)
Has-or flags r p = (
  λ h. (λ k. omega (arith, bit-or k r p, h k), λ k. omega (arith, bit-or k r p, h k)),
  λ h k. omega (arith, bit-or k r p, h.0 k, h.1 k),
)

module _ (vk : PropertyFlags) (count : ℕ) (types : List ℕ) (requirements : MemoryRequirements)
    (location : MemoryLocation) where
  abbrev required : ℕ
  required = required_flags vk location

  abbrev preferred : ℕ
  preferred = preferred_flags vk location

  from_start :
      (wanted : ℕ)
      → Lowest types requirements wanted 0 count (first_suiting types requirements wanted count 0)
  from_start wanted =
      let e : 0 + count ≡ count = omega arith in
      rw e at (first_suiting-Lowest types requirements wanted count 0)

  -- The second pass counts only where the first finds nothing.
  two_passes :
      (o p : Option ℕ)
      → Lowest types requirements (bit_or required preferred) 0 count o
      → Lowest types requirements required 0 count p
      → IsBest vk count types requirements location (elim o [ some i ↦ some i | none ↦ p ])
  two_passes (some i) p h g =
      let (allowed, flags, found, has) = h.0 in
      let both = (Has-or flags required preferred).0 has in
      (h.2, (allowed, flags, found, both.0), λ j l e f. (allowed, flags, found, both.1))
  two_passes none none h g = λ j l. g j (omega arith) l
  two_passes none (some i) h g = (
    g.2,
    g.0,
    λ j l (_, flags, found, has) (allowed, flags', found', has'). absurd (
        h j (omega arith) l (
          allowed,
          flags,
          found,
          (Has-or flags required preferred).1
              (has, subst (λ (t : ℕ). Has t preferred) (ground arith) has'),
        )),
  )

-- The index is in range, is allowed by the mask, and its type has all required properties; it
-- has the preferred ones too if any such type has them. `none`, the error of the code, means
-- that no type in range is allowed and has the required properties.
pub find_memory_type_index-IsBest :
    (vk : PropertyFlags) (count : ℕ) (types : List ℕ) (requirements : MemoryRequirements)
    (location : MemoryLocation)
    → IsBest vk count types requirements location
        (find_memory_type_index vk count types requirements location)
unfolding find_memory_type_index
find_memory_type_index-IsBest vk count types requirements location =
    two_passes vk count types requirements location _ _
      (from_start vk count types requirements location _)
      (from_start vk count types requirements location _)
