-- ===== src/Memory/FrameAlloc/Push.antt =====
-- memory/frame_alloc.rs: what a frame gives out between two resets.
use ignis_rs.Base.{
  ℕ, ◌+◌, ◌*◌, ◌%◌, ◌^◌, ◌≤◌, ◌<◌, max, ◌≡◌, refl, inl, inr, List, [], ◌∷◌, arith, ltb, Bool-cases,
  All, add64, add64-eq-add, ap,
}
use ignis_rs.Error.{invalid_config, Result, ok, err}
use ignis_rs.Memory.Align.{align_up, align_up_lem, align_up_between, align_up_least, IsPowerOfTwo}
use ignis_rs.Memory.FrameAlloc.{FrameBuffer, push_frame}

-- A request that cannot wrap in a frame of this capacity.
abbrev pub Asks : ℕ → ℕ × ℕ → Type 0
Asks capacity (size, alignment) = capacity + max alignment 1 + size < 2 ^ 64

-- A range for the request, in the frame and behind the cursor, up to the new cursor; or none.
abbrev pub Fitted : FrameBuffer → ℕ × ℕ → Result (ℕ × ℕ) → FrameBuffer → Type 0
Fitted f (size, alignment) (err e) f' =
    (f' ≡ f)
    × (e ≡ invalid_config "frame allocator capacity exceeded")
    × (f.capacity < align_up f.cursor (max alignment 1) + size)
Fitted f (size, alignment) (ok (offset, ptr)) f' =
    (f.cursor ≤ offset)
    × (offset < f.cursor + max alignment 1)
    × (offset + size ≤ f.capacity)
    × (ptr ≡ f.mapped + offset)
    × (f' ≡ record f { cursor = offset + size })

-- And it is aligned; there is none only if no aligned range behind the cursor is in the frame.
abbrev pub Pushed : FrameBuffer → ℕ × ℕ → Result (ℕ × ℕ) → FrameBuffer → Type 0
Pushed f (size, alignment) (err e) f' =
    Fitted f (size, alignment) (err e) f'
    × ((m : ℕ) → f.cursor ≤ m * max alignment 1 → f.capacity < m * max alignment 1 + size)
Pushed f (size, alignment) (ok (offset, ptr)) f' =
    Fitted f (size, alignment) (ok (offset, ptr)) f' × (offset % max alignment 1 ≡ 0)

push_frame-Fitted :
    (f : FrameBuffer) (size alignment : ℕ)
    → f.cursor ≤ f.capacity
    → Asks f.capacity (size, alignment)
    → Fitted f (size, alignment) (push_frame f size alignment).0 (push_frame f size alignment).1
unfolding push_frame
push_frame-Fitted f size alignment low fits =
    let (up, near) =
      align_up_between f.cursor (max alignment 1) (omega arith) (omega (arith, low, fits)) in
    let sum =
      add64-eq-add (align_up f.cursor (max alignment 1)) size (omega (arith, near, low, fits)) in
    elim (Bool-cases (ltb f.capacity (add64 (align_up f.cursor (max alignment 1)) size))) [
      | inl full ↦ rw (full, Fitted) (refl, refl, ground (arith, full, sum))
      | inr room ↦
          rw (room, Fitted)
            (up, near, ground (arith, room, sum), refl, ap (λ (c : ℕ). record f { cursor = c }) sum)
    ]

-- One request that cannot wrap, with a power of two as alignment (1 in place of 0), to a frame whose
-- cursor is within its capacity. Either the range that is given is aligned, starts at the cursor or
-- less than one alignment behind it, ends within the capacity, and has the address of its offset in
-- the mapping, and of the frame only the cursor changes, to the end of the range. Or the capacity is
-- exceeded by every aligned range behind the cursor, and the frame stays as it was.
pub push_frame-Pushed :
    (f : FrameBuffer) (size alignment : ℕ)
    → f.cursor ≤ f.capacity
    → IsPowerOfTwo (max alignment 1)
    → Asks f.capacity (size, alignment)
    → Pushed f (size, alignment) (push_frame f size alignment).0 (push_frame f size alignment).1
unfolding push_frame
push_frame-Pushed f size alignment low pow fits =
    let no_wrap : f.cursor + max alignment 1 < 2 ^ 64 = omega (arith, low, fits) in
    let (up, near, whole) = align_up_lem f.cursor (max alignment 1) pow no_wrap in
    let sum =
      add64-eq-add (align_up f.cursor (max alignment 1)) size (omega (arith, near, low, fits)) in
    elim (Bool-cases (ltb f.capacity (add64 (align_up f.cursor (max alignment 1)) size))) [
      | inl full ↦
          rw (full, Pushed)
            (
              (refl, refl, ground (arith, full, sum)),
              λ m above.
                  let least = align_up_least f.cursor (max alignment 1) m pow no_wrap above in
                  ground (arith, full, sum, least),
            )
      | inr room ↦
          rw (room, Pushed)
            (
              (
                up,
                near,
                ground (arith, room, sum),
                refl,
                ap (λ (c : ℕ). record f { cursor = c }) sum,
              ),
              whole,
            )
    ]

-- The results of a sequence of requests to one frame.
unfoldable pub push_each : FrameBuffer → List (ℕ × ℕ) → List (ℕ × Result (ℕ × ℕ))
push_each f [] = []
push_each f ((size, alignment) ∷ requests) =
    let (result, f') = push_frame f size alignment in (size, result) ∷ push_each f' requests

-- The ranges that were given out start at `low` or later, each behind the end of the one before,
-- and end within the capacity.
abbrev pub Apart : ℕ → ℕ → List (ℕ × Result (ℕ × ℕ)) → Type 0
Apart low capacity [] = low ≤ capacity
Apart low capacity ((size, err e) ∷ results) = Apart low capacity results
Apart low capacity ((size, ok (offset, ptr)) ∷ results) =
    (low ≤ offset) × Apart (offset + size) capacity results

-- The ranges that a frame gives out for a sequence of requests that cannot wrap, whatever their
-- alignments are, lie behind each other, so no byte is given out twice, and all end within the capacity.
pub push_each-Apart :
    (f : FrameBuffer) (requests : List (ℕ × ℕ))
    → f.cursor ≤ f.capacity
    → All (Asks f.capacity) requests
    → Apart f.cursor f.capacity (push_each f requests)
unfolding push_each
push_each-Apart f [] low asks = low
push_each-Apart f ((size, alignment) ∷ requests) low asks =
    step (push_frame f size alignment).0 (push_frame f size alignment).1
      (push_frame-Fitted f size alignment low asks.0) (λ f' low'. push_each-Apart f' requests low')
  where
    step :
        (result : Result (ℕ × ℕ)) (f' : FrameBuffer)
        → Fitted f (size, alignment) result f'
        → ((g : FrameBuffer)
            → g.cursor ≤ g.capacity
            → All (Asks g.capacity) requests
            → Apart g.cursor g.capacity (push_each g requests))
        → Apart f.cursor f.capacity ((size, result) ∷ push_each f' requests)
    step (err e) f' (same, exceeded, full) later = rw same (later f low asks.1)
    step (ok (offset, ptr)) f' (up, near, room, at, next) later =
        rw next (up, later (record f { cursor = offset + size }) (omega (arith, room)) asks.1)
