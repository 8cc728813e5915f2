-- ===== src/Memory/Pool/Serves.antt =====
-- memory/allocator.rs: what `BlockAllocator::allocate` does to the blocks of a pool.
use ignis_rs.Base.{
  ℕ, ◌+◌, ◌*◌, ◌^◌, ◌≤◌, ◌<◌, ◌≡◌, refl, ap, ◌⊎◌, inl, inr, Bool, true, Option, none, some, List,
  [], ◌∷◌, ◌++◌, arith, ltb, Bool-cases, Option-cases, All, subst, ltb→lt,
}
use ignis_rs.Error.{Result, ok, err}
use ignis_rs.Memory.Driver.{Driver}
use ignis_rs.Memory.Block.{Block, Allocation, try_allocate_from_block}
use ignis_rs.Memory.Block.Chain.{IsValid, inside, covers}
use ignis_rs.Memory.Block.Allocate.{Fits, Allocated}
use ignis_rs.Memory.Block.RoundTrip.{try_allocate_from_block_lem, try_allocate_from_block_complete}
use ignis_rs.Memory.Block.History.{fresh_block}
use ignis_rs.Memory.Align.{IsPowerOfTwo}
use ignis_rs.Memory.Pool.{try_blocks, give_whole, serve_new, give_new, allocate_in}
use ignis_rs.Memory.Pool.Supply.{Supplied, Refused, Fresh, allocate_block-Fresh}

-- A block of the pool that can take part in serving a request.
abbrev pub Ready : ℕ → ℕ → Block → Type 0
Ready size alignment b = IsValid b × Fits b size alignment

-- One block answers the request, the others stay as they are.
abbrev pub Reused : List Block → ℕ → ℕ → ℕ → Allocation → List Block → Type 0
Reused blocks size alignment mem_type a blocks' =
    (pre : List Block) × (b : Block) × (b' : Block) × (post : List Block) × (blocks
      ≡ pre ++ b ∷ post)
    × (blocks' ≡ pre ++ b' ∷ post)
    × Allocated b size alignment mem_type a b'

-- No block answers it.
abbrev pub Full : List Block → ℕ → ℕ → ℕ → Type 0
Full blocks size alignment mem_type =
    All (λ b. try_allocate_from_block b size alignment mem_type ≡ none) blocks

-- A fresh block of the usual size answers it; the driver supplies its memory.
abbrev pub Grown :
    List Block → ℕ → ℕ → ℕ → ℕ → (ℕ → Option ℕ → Type 0) → Allocation → List Block → Type 0
Grown blocks block_size size alignment mem_type supplied a blocks' =
    (memory : ℕ) × (base : Option ℕ) × (b' : Block) × (blocks' ≡ blocks ++ b' ∷ [])
    × supplied memory base
    × Allocated (fresh_block memory block_size base) size alignment mem_type a b'

-- A fresh block of just the size asked for is given out whole.
abbrev pub Whole : List Block → ℕ → ℕ → (ℕ → Option ℕ → Type 0) → Allocation → List Block → Type 0
Whole blocks size mem_type supplied a blocks' =
    (memory : ℕ) × (base : Option ℕ) × (blocks'
      ≡ blocks ++ record (fresh_block memory size base) { free_list = [] } ∷ [])
    × supplied memory base
    × (a ≡ record {
      memory = memory;
      offset = 0;
      size = size;
      mapped_ptr = base;
      memory_type_index = mem_type;
    })

-- What a result of `allocate` means for the blocks and the calls of the driver. An error leaves
-- the blocks alone.
module _ (d : Driver) (blocks : List Block) (block_size size alignment mem_type : ℕ)
    (host_visible : Bool) (w : d.World) where
  abbrev pub Outcome : Result Allocation × List Block × d.World → Type 0
  Outcome (err e, blocks', w') =
      (blocks' ≡ blocks)
      × (((block_size < size) × Refused d mem_type host_visible w size e w')
          ⊎ ((size ≤ block_size)
              × Full blocks size alignment mem_type
              × Refused d mem_type host_visible w block_size e w'))
  Outcome (ok a, blocks', w') =
      ((size ≤ block_size) × Reused blocks size alignment mem_type a blocks' × (w' ≡ w))
      ⊎ (((size ≤ block_size)
            × Full blocks size alignment mem_type
            × Grown blocks block_size size alignment mem_type
                (λ memory base. Supplied d mem_type host_visible w block_size memory base w') a
                blocks')
          ⊎ ((block_size < size)
              × Whole blocks size mem_type
                  (λ memory base. Supplied d mem_type host_visible w size memory base w') a
                  blocks'))

module _ (size alignment mem_type : ℕ) where
  abbrev Found : List Block → Option (Allocation × List Block) → Type 0
  Found blocks none = Full blocks size alignment mem_type
  Found blocks (some (a, blocks')) = Reused blocks size alignment mem_type a blocks'

  try_blocks-Found :
      (blocks : List Block)
      → All (Ready size alignment) blocks
      → Found blocks (try_blocks blocks size alignment mem_type)
  unfolding try_blocks
  try_blocks-Found [] ready = tt
  try_blocks-Found (b ∷ blocks) ready =
      elim (Option-cases (try_allocate_from_block b size alignment mem_type)) [
        | inl full ↦
            rw (full, try_blocks, Found)
              (later b blocks full (try_blocks blocks size alignment mem_type)
                (try_blocks-Found blocks ready.1))
        | inr ((a, b'), served) ↦
            rw (served, try_blocks, Found)
              (
                [],
                b,
                b',
                blocks,
                refl,
                refl,
                try_allocate_from_block_lem b size alignment mem_type a b' ready.0.0 ready.0.1
                    served,
              )
      ]
    where
      later :
          (b : Block) (blocks : List Block)
          → try_allocate_from_block b size alignment mem_type ≡ none
          → (o : Option (Allocation × List Block)) → Found blocks o
          → Found (b ∷ blocks) (elim o [ some (a, blocks') ↦ some (a, b ∷ blocks') | none ↦ none ])
      later b blocks full none h = (full, h)
      later b blocks full (some (a, blocks')) (pre, c, c', post, e, e', given) =
          (b ∷ pre, c, c', post, ap (◌∷◌ b) e, ap (◌∷◌ b) e', given)

-- A fresh block has room for every nonempty request of at most its size, with a power of two as
-- alignment, that cannot wrap; the success has all that is promised of one.
pub fresh_block_serves :
    (memory total size alignment mem_type : ℕ) (base : Option ℕ)
    → size ≤ total
    → Fits (fresh_block memory total base) size alignment
    → (a : Allocation) × (b' : Block) × (try_allocate_from_block
          (fresh_block memory total base)
          size
          alignment
          mem_type
        ≡ some (a, b'))
      × Allocated (fresh_block memory total base) size alignment mem_type a b'
fresh_block_serves memory total size alignment mem_type base le f =
    elim (Option-cases
      (try_allocate_from_block (fresh_block memory total base) size alignment mem_type)) [
        | inl full ↦ absurd (
            try_allocate_from_block_complete (fresh_block memory total base) size alignment mem_type
              0 fresh-IsValid f full room)
        | inr ((a, b'), served) ↦ (
          a,
          b',
          served,
          try_allocate_from_block_lem _ size alignment mem_type a b' fresh-IsValid f served,
        )
      ]
  where
    fresh-IsValid : IsValid (fresh_block memory total base)
    fresh-IsValid = unfold fresh_block in (omega arith, omega (arith, f.nonempty), omega arith, tt)

    room :
        (x : ℕ)
        → inside (0 * alignment) size x ≡ true
        → covers (fresh_block memory total base).free_list x ≡ true
    room x h = unfold fresh_block covers in ground arith

module _ (d : Driver) (blocks : List Block) (block_size size alignment mem_type : ℕ)
    (host_visible : Bool) (w : d.World) where
  abbrev Answers : Result Allocation × List Block × d.World → Type 0
  Answers = Outcome d blocks block_size size alignment mem_type host_visible w

  give_whole-Answers :
      (r : Result Block × d.World)
      → block_size < size
      → Fresh d mem_type host_visible w size r
      → Answers (give_whole d blocks size mem_type r)
  unfolding give_whole fresh_block
  give_whole-Answers (err e, w') big refused = (refl, inl (big, refused))
  give_whole-Answers (ok b, w') big (memory, base, e, supplied) =
      rw e (inr (inr (big, (memory, base, refl, supplied, refl))))

  give_new-Answers :
      (r : Result Block × d.World)
      → size ≤ block_size
      → Full blocks size alignment mem_type
      → ((memory : ℕ) (base : Option ℕ) → Fits (fresh_block memory block_size base) size alignment)
      → Fresh d mem_type host_visible w block_size r
      → Answers (give_new d blocks size alignment mem_type r)
  unfolding give_new serve_new
  give_new-Answers (err e, w') le full fits refused = (refl, inr (le, full, refused))
  give_new-Answers (ok b, w') le full fits (memory, base, e, supplied) =
      let (a, b', served, given) =
        fresh_block_serves memory block_size size alignment mem_type base le (fits memory base) in
      rw (e, served) (inr (inl (le, full, (memory, base, b', refl, supplied, given))))

-- `allocate` on the blocks of a pool, all valid, for a nonempty request with a power of two as
-- alignment that cannot wrap in any block. A request of at most the block size is answered by one
-- block of the pool, without a call of the driver, and all others stay as they are; only if none of
-- them answers it, the driver is asked for a memory object of the block size, and a fresh block on it
-- is added at the end that answers it. For a larger request it is asked for one of that size, and a
-- block on it is added and given out whole. A host-visible object is mapped. An error is that of the
-- driver's call for this object or for its mapping, which has failed; then an object that could not
-- be mapped is freed, and the blocks are left as they were.
pub allocate_in-Outcome :
    (d : Driver) (blocks : List Block) (block_size size alignment mem_type : ℕ)
    (host_visible : Bool) (w : d.World)
    → All (Ready size alignment) blocks
    → 0 < size
    → IsPowerOfTwo alignment
    → block_size + alignment + size < 2 ^ 64
    → Outcome d blocks block_size size alignment mem_type host_visible w
        (allocate_in d blocks block_size size alignment mem_type host_visible w)
unfolding allocate_in
allocate_in-Outcome d blocks block_size size alignment mem_type host_visible w ready pos pow fits =
    elim (Bool-cases (ltb block_size size)) [
      | inl big ↦
          rw (big, Outcome)
            (give_whole-Answers d blocks block_size size alignment mem_type host_visible w _
              (ltb→lt _ _ big) (allocate_block-Fresh d mem_type size host_visible w))
      | inr usual ↦ elim (Option-cases (try_blocks blocks size alignment mem_type)) [
        | inl full ↦
            rw (usual, full, Outcome)
              (give_new-Answers d blocks block_size size alignment mem_type host_visible w _
                (ground (arith, usual))
                (subst (Found size alignment mem_type blocks) full
                  (try_blocks-Found size alignment mem_type blocks ready))
                fresh_fits (allocate_block-Fresh d mem_type block_size host_visible w))
        | inr ((a, blocks'), served) ↦
            rw (usual, served, Outcome)
              (inl (
                ground (arith, usual),
                subst (Found size alignment mem_type blocks) served
                    (try_blocks-Found size alignment mem_type blocks ready),
                refl,
              ))
      ]
    ]
  where
    fresh_fits :
        (memory : ℕ) (base : Option ℕ) → Fits (fresh_block memory block_size base) size alignment
    fresh_fits memory base =
        unfold fresh_block in record { nonempty = pos; aligned = pow; no_wrap = fits }
