-- ===== src/Memory/Block/Free.antt =====
-- memory/allocator.rs: `free_in_block` returns a range to the free list and coalesces it.
use ignis_rs.Base.{
  ℕ, suc, ◌+◌, ◌-◌, ◌^◌, ◌≤◌, ◌<◌, ◌≡◌, refl, true, false, ◌||◌, List, [], ◌∷◌, ◌++◌, arith, ◌==◌,
  inl, inr, ◌⊎◌, Bool-cases, ==_iff, lt→==_false, length, get_elem?, add64, sub64, add64-eq-add,
  sub64-eq-sub,
}
use ignis_rs.Memory.Block.{
  FreeRegion, Block, update_at, previous, touches_prev, touches_next, end_of, merge, free_in_list,
  free_in_block,
}
use ignis_rs.Memory.Block.Chain.{
  IsValid, Chain, inside, covers, Chain-weaken, Chain-join, covers-append,
}
use ignis_rs.Memory.Block.Spot.{
  NotFree, spot, get_at, get_after, insert_after, remove_after, update_after, update_prev,
}

-- The new list is a chain that covers the range besides what the old one covers.
abbrev Freed : ℕ → ℕ → ℕ → List FreeRegion → List FreeRegion → Type 0
Freed hi offset size old new =
    Chain 0 hi new × ((x : ℕ) → covers new x ≡ (covers old x || inside offset size x))

module _ (hi offset size : ℕ) (nonempty : 0 < size) (fits : offset + size < hi)
    (small : hi ≤ 2 ^ 64) where
  gap :
      (n : FreeRegion) (post : List FreeRegion)
      → Chain (offset + size) hi (n ∷ post)
      → (n.offset == offset + size) ≡ false
      → Chain (suc (offset + size)) hi (n ∷ post)
  gap n post c e = (ground arith, c.1, c.2, c.3)

  merge_first :
      (post : List FreeRegion)
      → Chain (offset + size) hi post
      → Freed hi offset size post
          (merge false (touches_next (get_elem? post 0) (offset + size)) post 0 offset size)
  unfolding merge touches_next update_at
  merge_first [] c = ((omega arith, nonempty, fits, tt), λ x. unfold covers in ground arith)
  merge_first (n ∷ post) c = elim (Bool-cases (n.offset == offset + size)) [
    | inl touch ↦
        rw (touch, add64-eq-add n.size size (omega arith))
          (
            (
              omega arith,
              omega arith,
              ground arith,
              Chain-weaken _ hi _ hi post c.3 (ground arith) (omega arith),
            ),
            λ x. unfold covers in ground arith,
          )
    | inr apart ↦
        rw apart
          ((omega arith, nonempty, fits, gap n post c apart), λ x. unfold covers in ground arith)
  ]

  module _ (init : List FreeRegion) (p : FreeRegion) (chain : Chain 0 p.offset init)
      (some_size : 0 < p.size) (ends : p.offset + p.size ≤ offset) where
    -- A new region behind `init` that covers what `p` and the range cover.
    joined :
        (r : FreeRegion) (post : List FreeRegion)
        → p.offset ≤ r.offset
        → 0 < r.size
        → r.offset + r.size < hi
        → Chain 0 r.offset init
        → Chain (suc (r.offset + r.size)) hi post
        → Chain 0 hi (init ++ r ∷ post)
    joined r post low pos high c d = Chain-join 0 hi init r post (c, omega arith, pos, high, d)

    merge_prev_only :
        (post : List FreeRegion)
        → Chain (suc (offset + size)) hi post
        → p.offset + p.size ≡ offset
        → Freed hi offset size
            (init ++ p ∷ post)
            (merge true false (init ++ p ∷ post) (suc (length init)) offset size)
    unfolding merge
    merge_prev_only post c e =
        rw
          (
            update_prev p post init (λ r. record r { size = add64 r.size size }),
            add64-eq-add p.size size (omega arith),
          )
          (
            joined _ post (omega arith) (omega arith) (omega arith) chain
                (Chain-weaken _ hi _ hi post c (omega arith) (omega arith)),
            λ x.
                rw
                  (
                    covers-append init (record p { size = p.size + size } ∷ post) x,
                    covers-append init (p ∷ post) x,
                  )
                  (unfold covers in ground arith),
          )

    merge_none :
        (post : List FreeRegion)
        → Chain (suc (offset + size)) hi post
        → p.offset + p.size < offset
        → Freed hi offset size
            (init ++ p ∷ post)
            (merge false false (init ++ p ∷ post) (suc (length init)) offset size)
    unfolding merge
    merge_none post c e = rw (insert_after p post init (record { offset = offset; size = size })) (
      joined p (record { offset = offset; size = size } ∷ post) (omega arith) some_size
          (omega arith) chain (omega arith, nonempty, fits, c),
      λ x.
          rw
            (
              covers-append init (p ∷ record { offset = offset; size = size } ∷ post) x,
              covers-append init (p ∷ post) x,
            )
            (unfold covers in ground arith),
    )

    merge_next_only :
        (n : FreeRegion) (post : List FreeRegion)
        → Chain (offset + size) hi (n ∷ post)
        → n.offset ≡ offset + size
        → p.offset + p.size < offset
        → Freed hi offset size
            (init ++ p ∷ n ∷ post)
            (merge false true (init ++ p ∷ n ∷ post) (suc (length init)) offset size)
    unfolding merge
    merge_next_only n post c e l =
        rw
          (
            update_after p post init n (λ r. record { offset = offset; size = add64 r.size size }),
            add64-eq-add n.size size (omega arith),
          )
          (
            joined p (record { offset = offset; size = n.size + size } ∷ post) (omega arith)
                some_size (omega arith) chain
                (
                  omega arith,
                  omega arith,
                  omega arith,
                  Chain-weaken _ hi _ hi post c.3 (omega arith) (omega arith),
                ),
            λ x.
                rw
                  (
                    covers-append init (p ∷ record { offset = offset; size = n.size + size } ∷ post)
                        x,
                    covers-append init (p ∷ n ∷ post) x,
                  )
                  (unfold covers in ground arith),
          )

    merge_both :
        (n : FreeRegion) (post : List FreeRegion)
        → Chain (offset + size) hi (n ∷ post)
        → n.offset ≡ offset + size
        → p.offset + p.size ≡ offset
        → Freed hi offset size
            (init ++ p ∷ n ∷ post)
            (merge true true (init ++ p ∷ n ∷ post) (suc (length init)) offset size)
    unfolding merge end_of
    merge_both n post c e l =
        rw
          (
            get_after p (n ∷ post) init,
            remove_after p post init n,
            update_prev p post init
                (λ r. record r { size = sub64 (add64 n.offset n.size) r.offset }),
            add64-eq-add n.offset n.size (omega arith),
            sub64-eq-sub (n.offset + n.size) p.offset (omega arith) (omega arith),
          )
          (
            joined _ post (omega arith) (omega arith) (omega arith) chain
                (Chain-weaken _ hi _ hi post c.3 (omega arith) (omega arith)),
            λ x.
                rw
                  (
                    covers-append init (record p { size = n.offset + n.size - p.offset } ∷ post) x,
                    covers-append init (p ∷ n ∷ post) x,
                  )
                  (unfold covers in ground arith),
          )

    ends_cases : (p.offset + p.size ≡ offset) ⊎ (p.offset + p.size < offset)
    ends_cases = grind arith

    merge_after :
        (post : List FreeRegion)
        → Chain (offset + size) hi post
        → Freed hi offset size (init ++ p ∷ post) (
            merge
              (p.offset + p.size == offset)
              (touches_next (get_elem? post 0) (offset + size))
              (init ++ p ∷ post)
              (suc (length init))
              offset
              size)
    unfolding touches_next
    merge_after [] c = elim ends_cases [
      | inl e ↦ rw ((==_iff _ _).1 e) (merge_prev_only [] tt e)
      | inr l ↦ rw (lt→==_false _ _ l) (merge_none [] tt l)
    ]
    merge_after (n ∷ post) c = elim (Bool-cases (n.offset == offset + size)) [
      | inl touch ↦ elim ends_cases [
        | inl e ↦ rw (touch, (==_iff _ _).1 e) (merge_both n post c (ground arith) e)
        | inr l ↦ rw (touch, lt→==_false _ _ l) (merge_next_only n post c (ground arith) l)
      ]
      | inr apart ↦ elim ends_cases [
        | inl e ↦ rw (apart, (==_iff _ _).1 e) (merge_prev_only (n ∷ post) (gap n post c apart) e)
        | inr l ↦ rw (apart, lt→==_false _ _ l) (merge_none (n ∷ post) (gap n post c apart) l)
      ]
    ]

  free_in_list-Freed :
      (rs : List FreeRegion)
      → Chain 0 hi rs
      → NotFree rs offset size
      → Freed hi offset size rs (free_in_list rs offset size)
  unfolding free_in_list previous touches_prev
  free_in_list-Freed rs c taken = elim (spot offset size nonempty 0 hi rs c taken) [
    | inl (pos, rest) ↦ rw (pos, add64-eq-add offset size (omega arith)) (merge_first rs rest)
    | inr (init, p, post, e, pos, chain, low, some_size, ends, rest) ↦
        rw
          (
            pos,
            add64-eq-add offset size (omega arith),
            e,
            get_after p post init,
            get_at p post init,
            add64-eq-add p.offset p.size (omega arith),
          )
          (merge_after init p chain some_size ends post rest)
  ]

-- A range within a block that is not free.
pub record Taken (b : Block) (offset size : ℕ) : Type 0 where
  pub nonempty : 0 < size
  pub within : offset + size ≤ b.total_size
  pub taken : NotFree b.free_list offset size

-- Freeing a range of a valid block that holds no free byte gives a valid block, in which the
-- range is free and every other byte is free exactly if it was; nothing else of the block changes.
pub free_in_block_lem :
    (b : Block) (offset size : ℕ)
    → IsValid b
    → b.total_size < 2 ^ 64
    → Taken b offset size
    → let b' = free_in_block b offset size in
      IsValid b'
      × ((x : ℕ) → covers b'.free_list x ≡ (covers b.free_list x || inside offset size x))
      × (b'.memory ≡ b.memory)
      × (b'.total_size ≡ b.total_size)
      × (b'.mapped_base ≡ b.mapped_base)
      × (b'.next_fit ≡ b.next_fit)
unfolding free_in_block
free_in_block_lem b offset size v small t =
    let (chain, cover) =
      free_in_list-Freed (suc b.total_size) offset size t.nonempty (omega (arith, t.within))
        (omega arith) b.free_list v t.taken in
    (chain, cover, refl, refl, refl, refl)
