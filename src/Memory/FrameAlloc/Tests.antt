-- ===== src/Memory/FrameAlloc/Tests.antt =====
-- memory/frame_alloc.rs: runs on a frame of 1024 bytes.
use ignis_rs.Base.{ℕ, ◌≡◌, refl, some, List, [], ◌∷◌, arith, All, add64, sub64, not64}
use ignis_rs.Error.{ok, err, invalid_config}
use ignis_rs.Memory.Align.{align_up}
use ignis_rs.Memory.FrameAlloc.{FrameBuffer, push_frame}
use ignis_rs.Memory.FrameAlloc.Push.{
  Asks, Pushed, push_frame-Pushed, push_each, Apart, push_each-Apart,
}

abbrev frame : FrameBuffer
frame = record {
  buffer = 3;
  memory = record {
    memory = 1;
    offset = 0;
    size = 1024;
    mapped_ptr = some 4096;
    memory_type_index = 0;
  };
  mapped = 4096;
  capacity = 1024;
  cursor = 10;
}

abbrev requests : List (ℕ × ℕ)
requests = (100, 64) ∷ (2000, 4) ∷ (200, 256) ∷ []

requests-Asks : All (Asks 1024) requests
requests-Asks = (omega arith, (omega arith, (omega arith, tt)))

push_run :
    push_each frame requests
    ≡ (100, ok (64, 4160))
      ∷ (2000, err (invalid_config "frame allocator capacity exceeded"))
      ∷ (200, ok (256, 4352))
      ∷ []
unfolding push_each push_frame align_up add64 sub64 not64
push_run = refl

push_frame-Pushed_example :
    Pushed frame (100, 64) (push_frame frame 100 64).0 (push_frame frame 100 64).1
push_frame-Pushed_example =
    push_frame-Pushed frame 100 64 (omega arith) (6, omega arith, refl) (omega arith)

push_each-Apart_example : Apart 10 1024 (push_each frame requests)
push_each-Apart_example = push_each-Apart frame requests (omega arith) requests-Asks
