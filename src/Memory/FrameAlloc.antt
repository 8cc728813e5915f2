-- ===== src/Memory/FrameAlloc.antt =====
-- memory/frame_alloc.rs: `FrameAllocator`, after `new`. An index out of range, at which the code
-- panics, gives `none`.
pub mod Push
mod Tests
use ignis_rs.Base.{
  ℕ, zero, suc, ◌+◌, ◌-◌, ◌%◌, max, Bool, true, false, Option, none, some, List, [], ◌∷◌, ltb, ◌==◌,
  if◌then◌else◌, length, get_elem?, set, add64,
}
use mathlib.Core.Option
use ignis_rs.Error.{Error, invalid_config, Result, ok, err}
use ignis_rs.Memory.Align.{align_up}
use ignis_rs.Memory.Block.{Allocation}

pub record FrameBuffer : Type 0 where
  pub buffer : ℕ
  pub memory : Allocation
  pub mapped : ℕ
  pub capacity : ℕ
  pub cursor : ℕ

pub record FrameAllocator : Type 0 where
  pub frames : List FrameBuffer
  pub current : ℕ

-- The remainder by the number of frames panics for no frames.
pub advance : FrameAllocator → Option FrameAllocator
advance s =
    let current = (s.current + 1) % length s.frames in
    elim (get_elem? s.frames current) [
      | none ↦ none
      | some frame ↦ some (record {
        frames = set s.frames current (record frame { cursor = 0 });
        current = current;
      })
    ]

-- `push_bytes` on the current frame. The mask arithmetic of the cursor is that of `align_up`.
pub push_frame : FrameBuffer → ℕ → ℕ → Result (ℕ × ℕ) × FrameBuffer
push_frame frame size alignment =
    let aligned = align_up frame.cursor (max alignment 1) in
    if ltb frame.capacity (add64 aligned size)
    then (err (invalid_config "frame allocator capacity exceeded"), frame)
    else (ok (aligned, frame.mapped + aligned), record frame { cursor = add64 aligned size })

pub push_bytes : FrameAllocator → ℕ → ℕ → Option (Result (ℕ × ℕ) × FrameAllocator)
push_bytes s size alignment = elim (get_elem? s.frames s.current) [
  | none ↦ none
  | some frame ↦
      let (result, frame') = push_frame frame size alignment in
      some (result, record s { frames = set s.frames s.current frame' })
]

pub current_buffer : FrameAllocator → Option ℕ
current_buffer s = Option.map (λ (f : FrameBuffer). f.buffer) (get_elem? s.frames s.current)

-- `saturating_sub`.
pub remaining : FrameAllocator → Option ℕ
remaining s = Option.map (λ (f : FrameBuffer). f.capacity - f.cursor) (get_elem? s.frames s.current)
