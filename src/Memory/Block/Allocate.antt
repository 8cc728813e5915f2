-- ===== src/Memory/Block/Allocate.antt =====
-- memory/allocator.rs: what `try_region` and `try_allocate_from_block` promise.
use mathlib.Core.Option
use ignis_rs.Base.{
  ℕ, zero, suc, ◌+◌, ◌-◌, ◌%◌, ◌^◌, ◌≤◌, ◌<◌, ◌≡◌, refl, ◌∙◌, true, ◌&&◌, ◌||◌, not, Option, none,
  some, List, ◌∷◌, ◌++◌, arith, ltb, inl, inr, Bool-cases, Option-cases, le_cases, ltb→lt, min,
  length, get_elem?, get_elem?_lt, get_elem?_in, split_at, add64, add64-eq-add, subst,
}
use ignis_rs.Memory.Align.{align_up, align_up_lem, IsPowerOfTwo}
use ignis_rs.Memory.Block.{
  FreeRegion, Block, Allocation, carve, allocation_in, take_region, try_region, try_range,
  try_allocate_from_block,
}
use ignis_rs.Memory.Block.Chain.{IsValid, Chain, inside, covers, Around, Chain-split, covers-append}
use ignis_rs.Memory.Block.Carve.{remains, carve_lem, remains-Chain, covers-remains}

-- A request whose offsets cannot wrap around 64 bits in this block.
pub record Fits (b : Block) (size alignment : ℕ) : Type 0 where
  pub nonempty : 0 < size
  pub aligned : IsPowerOfTwo alignment
  pub no_wrap : b.total_size + alignment + size < 2 ^ 64

-- `a` is a correct answer to a request on block `b`, which becomes `b'`.
pub record Allocated (b : Block) (size alignment mem_type : ℕ) (a : Allocation) (b' : Block)
    : Type 0 where
  pub memory_of_block : a.memory ≡ b.memory
  pub size_asked : a.size ≡ size
  pub type_asked : a.memory_type_index ≡ mem_type
  pub mapped : a.mapped_ptr ≡ Option.map (λ base. base + a.offset) b.mapped_base
  pub is_aligned : a.offset % alignment ≡ 0
  pub in_block : a.offset + size ≤ b.total_size
  pub was_free : (x : ℕ) → inside a.offset size x ≡ true → covers b.free_list x ≡ true
  pub now_free :
      (x : ℕ) → covers b'.free_list x ≡ (covers b.free_list x && not (inside a.offset size x))
  pub valid : IsValid b'
  pub same_memory : b'.memory ≡ b.memory
  pub same_size : b'.total_size ≡ b.total_size
  pub same_base : b'.mapped_base ≡ b.mapped_base

module _ (b : Block) (size alignment mem_type : ℕ) (v : IsValid b) (f : Fits b size alignment) where
  -- What a refusal says of a region.
  abbrev pub TooSmall : FreeRegion → Type 0
  TooSmall r = r.offset + r.size < align_up r.offset alignment + size

  module _ (pre : List FreeRegion) (r : FreeRegion) (post : List FreeRegion)
      (whole : b.free_list ≡ pre ++ r ∷ post) where
    around : Around 0 (suc b.total_size) pre r post
    around =
        Chain-split 0 (suc b.total_size) pre r post (subst (Chain 0 (suc b.total_size)) whole v)

    rounded :
        (r.offset ≤ align_up r.offset alignment)
        × (align_up r.offset alignment < r.offset + alignment)
        × (align_up r.offset alignment % alignment ≡ 0)
    rounded = align_up_lem r.offset alignment f.aligned (omega (arith, around, f.no_wrap))

    test_lem :
        ltb (add64 r.offset r.size) (add64 (align_up r.offset alignment) size)
        ≡ ltb (r.offset + r.size) (align_up r.offset alignment + size)
    test_lem =
        rw
          (
            add64-eq-add r.offset r.size (omega (arith, around, f.no_wrap)),
            add64-eq-add (align_up r.offset alignment) size
                (omega (arith, rounded, around, f.no_wrap)),
          )
          refl

    taken_Allocated :
        align_up r.offset alignment + size ≤ r.offset + r.size
        → Allocated b size alignment mem_type
            (allocation_in b (align_up r.offset alignment) size mem_type)
            (record b {
              free_list = (carve b (length pre) r (align_up r.offset alignment) size).0;
              next_fit = (carve b (length pre) r (align_up r.offset alignment) size).1;
            })
    unfolding allocation_in
    taken_Allocated fits = record {
      memory_of_block = refl;
      size_asked = refl;
      type_asked = refl;
      mapped = refl;
      is_aligned = rounded.2;
      in_block = omega (arith, around);
      was_free = λ x h. rw (whole, covers-append pre (r ∷ post) x) (in_region x h);
      now_free = λ x.
          rw left_over
            (covers-remains b hi pre r post at size whole around small rounded.0 f.nonempty fits x);
      valid =
          rw left_over
            (remains-Chain b hi pre r post at size whole around small rounded.0 f.nonempty fits);
      same_memory = refl;
      same_size = refl;
      same_base = refl;
    }
      where
        hi : ℕ
        hi = suc b.total_size

        at : ℕ
        at = align_up r.offset alignment

        small : hi ≤ 2 ^ 64
        small = omega (arith, f.no_wrap)

        left_over : (carve b (length pre) r at size).0 ≡ remains pre r post at size
        left_over = carve_lem b hi pre r post at size whole around small rounded.0 f.nonempty fits

        in_region : (x : ℕ) → inside at size x ≡ true → (covers pre x || covers (r ∷ post) x) ≡ true
        in_region x h = unfold covers in ground (arith, rounded.0)

  -- One region: it is refused if it is too small, and otherwise it serves the request.
  abbrev Answers : FreeRegion → Option (Allocation × Block) → Type 0
  Answers r none = TooSmall r
  Answers r (some (a, b')) = Allocated b size alignment mem_type a b'

  take_region_lem :
      (pre : List FreeRegion) (r : FreeRegion) (post : List FreeRegion)
      → b.free_list ≡ pre ++ r ∷ post
      → Answers r (take_region b (length pre) r size alignment mem_type)
  unfolding take_region
  take_region_lem pre r post whole =
      elim (Bool-cases (ltb (r.offset + r.size) (align_up r.offset alignment + size))) [
        | inl small ↦ rw (test_lem pre r post whole, small, Answers) (ltb→lt _ _ small)
        | inr large ↦
            rw (test_lem pre r post whole, large, Answers)
              (taken_Allocated pre r post whole (ground arith))
      ]

  try_region_lem :
      (i : ℕ) (r : FreeRegion)
      → get_elem? b.free_list i ≡ some r
      → Answers r (try_region b i size alignment mem_type)
  unfolding try_region
  try_region_lem i r h =
      let (pre, post, whole, at_i) = split_at b.free_list i r h in
      rw (h, Answers)
        (subst (λ (n : ℕ). Answers r (take_region b n r size alignment mem_type)) at_i
          (take_region_lem pre r post whole))

  none-some : (o : Allocation × Block) → some o ≡ none → ⊥
  none-some o e = cc

  try_range-some :
      (left i : ℕ) (a : Allocation) (b' : Block)
      → i + left ≤ length b.free_list
      → try_range b left i size alignment mem_type ≡ some (a, b')
      → Allocated b size alignment mem_type a b'
  unfolding try_range
  try_range-some zero i a b' in_range e = cc
  try_range-some (suc left) i a b' in_range e =
      let (r, found) = get_elem?_lt b.free_list i (omega arith) in
      elim (Option-cases (try_region b i size alignment mem_type)) [
        | inl skipped ↦
            try_range-some left (i + 1) a b' (omega arith) (rw (skipped, try_range) at e)
        | inr ((c, b''), taken) ↦
            let same : try_region b i size alignment mem_type ≡ some (a, b') =
              taken ∙ (rw (taken, try_range) at e) in
            subst (Answers r) same (try_region_lem i r found)
      ]

  try_range-none :
      (left i j : ℕ) (r : FreeRegion)
      → try_range b left i size alignment mem_type ≡ none
      → i ≤ j
      → j < i + left
      → get_elem? b.free_list j ≡ some r
      → TooSmall r
  unfolding try_range
  try_range-none zero i j r e low high found = absurd (omega arith)
  try_range-none (suc left) i j r e low high found =
      elim (Option-cases (try_region b i size alignment mem_type)) [
        | inl skipped ↦ elim (le_cases j i) [
          | inl first ↦ subst (Answers r) skipped (
              try_region_lem i r
                (subst (λ (n : ℕ). get_elem? b.free_list n ≡ some r) (omega arith) found))
          | inr later ↦
              try_range-none left (i + 1) j r (rw (skipped, try_range) at e) (omega arith)
                (omega arith) found
        ]
        | inr (answer, taken) ↦ absurd (none-some answer (rw (taken, try_range) at e))
      ]

  first : ℕ
  first = min b.next_fit (length b.free_list - 1)

  -- A success of `try_allocate_from_block` serves the request.
  pub try_allocate_from_block-some :
      (a : Allocation) (b' : Block)
      → try_allocate_from_block b size alignment mem_type ≡ some (a, b')
      → Allocated b size alignment mem_type a b'
  unfolding try_allocate_from_block first
  try_allocate_from_block-some a b' e =
      ground
        (arith, try_range-some (length b.free_list - first) first a b', try_range-some first 0 a b')

  -- A failure means that every region is too small.
  pub try_allocate_from_block-none :
      (j : ℕ) (r : FreeRegion)
      → try_allocate_from_block b size alignment mem_type ≡ none
      → get_elem? b.free_list j ≡ some r
      → TooSmall r
  unfolding try_allocate_from_block first
  try_allocate_from_block-none j r e found = ground (
    arith,
    try_range-none (length b.free_list - first) first j r,
    try_range-none first 0 j r,
    get_elem?_in b.free_list j r found,
  )
