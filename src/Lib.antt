-- ===== src/Lib.antt =====
-- ignis: a Vulkan layer in Rust. This library models the parts that keep state of their own, and
-- proves what they rest on.
--
-- The parts. `BlockAllocator` (src/memory/allocator.rs) gives ranges of device memory to buffers
-- and images: it keeps one pool per memory type, a pool is a vector of blocks, a block is one
-- memory object with a vector of free regions. `SlabAllocator` (src/memory/slab.rs) serves small
-- requests from slabs of equal slots instead, with a random choice of the slot and a quarantine
-- for freed ones. `ResourceTracker` (src/tracking/tracker.rs) remembers the layout and the
-- access of every image subresource and buffer, and computes the barrier between two uses.
-- `FrameGraph` (src/framegraph.rs) orders passes by the resources that they declare, and records
-- them through a tracker. `DeletionQueue` (src/tracking/deletion.rs) destroys resources once the device is past their
-- last use. `FrameAllocator` (src/memory/frame_alloc.rs) gives out the bytes of a buffer per
-- frame in order. src/format.rs is a table of formats, with sizes of dispatches and mip chains.
--
-- The files, by the code that they are about:
--   Base              what all modules share: Boolean tests, vectors as lists, 64-bit words, bits,
--                     how often a number occurs in a list (Occurs).
--   Error             src/error.rs: `Error`, `Result`, the wrapper of `context`.
--   Memory/Driver     the calls into the Vulkan driver, a parameter of the model.
--   Memory/Align      src/memory/allocator.rs: `align_up`.
--   Memory/Block      src/memory/allocator.rs: `Block`, `FreeRegion`, `try_region`,
--                     `try_allocate_from_block`, `free_in_block`. Its children: the shape of a free
--                     list (Chain), one region being cut (Carve), the search (Allocate), the place of
--                     a freed range (Spot), freeing (Free), both together (RoundTrip),
--                     histories of both (History).
--   Memory/Kind       src/memory/resources.rs: `MemoryLocation`; src/memory/allocator.rs:
--                     `find_memory_type_index`. Its child Best: which type is chosen.
--   Memory/Pool       src/memory/allocator.rs: `BlockAllocator`, `allocate_block`, `allocate`,
--                     `free`. Its children: what `allocate_block` asks of the driver (Supply), what a
--                     result of `allocate` means for the blocks (Serves).
--   Memory/Slab       src/memory/slab.rs: `Rng`, `SlotHistory`, `Slab` and its functions. Its
--                     children: the bitmaps (Bitmap), `SlabConfig` (Config), counting (Count),
--                     the slab of `Slab::new` (New), the invariant (Invariant),
--                     `allocate_slot` (Scan), `free_slot` (Free), size classes and the place of the
--                     data in a slot (Classes).
--   Memory/Dedicated  src/memory/allocator.rs: `DedicatedAllocator`. Its child Ledger: the memory
--                     objects that it leaves.
--   Memory/Resources  src/memory/resources.rs: `BufferInfo`, `ImageInfo`, `Buffer`, `Image`. Its
--                     children: what is alive before and after (Ledger), what dropping gives back (Drop), a
--                     device for runs (Ideal).
--   Memory/FrameAlloc src/memory/frame_alloc.rs: `FrameAllocator`. Its child Push: the ranges of
--                     a frame.
--   Tracking/Vk       the constants of the Vulkan binding, parameters without any assumption.
--   Tracking/Headers  their values in the Vulkan headers, for runs.
--   Tracking/ImageUsage, Tracking/BufferUsage
--                     src/tracking/tracker.rs: `ImageUsageContext` and `BufferUsageContext`.
--   Tracking/Tracker  src/tracking/tracker.rs: `ResourceTracker`. Its children: the loops over mip
--                     levels and layers (Loops), what a transition leaves (States),
--                     `transition_image` (Images), `transition_mip` (Mips), `transition_buffer`
--                     (Buffers), sequences of calls (History), the commands of the recorder
--                     (Barriers), layouts by image (Layouts).
--   Tracking/Deletion src/tracking/deletion.rs: `DeletionQueue`. Its children: the loops of `poll`
--                     (Loops), what it destroys (Poll).
--   FrameGraph        src/framegraph.rs: the declarations of `FrameGraph`.
--   FrameGraph/Topo   src/framegraph.rs: `topo_sort`. Its children: the loop of Kahn's algorithm
--                     (Kahn), the graph (Graph), the writers of a handle (Writers), their pairs
--                     (Pairs, Readers), the sorted order (Sorted, Order).
--   FrameGraph/Compile
--                     src/framegraph.rs: `compile`. Its children: its loops (Loops), one image or buffer
--                     (Kinds), what the whole leaves on the device (Balance), a compiled graph that
--                     is recorded (Recorded).
--   FrameGraph/Compiled
--                     src/framegraph.rs: `CompiledFrameGraph`, `record_with_tracking`. Its children:
--                     what a device does with commands (Device, Replay), the layouts that it has
--                     (Layouts), the whole recording (Record).
--   Format            src/format.rs. Its child Sizes: what its functions mean.
--   Tracking/Mipmap   src/tracking/mipmap.rs: `generate_mipmaps`. Its child Chain: the layouts after it.
-- A Tests module beside a component runs it on small inputs.
--
-- How the code corresponds. Handles and addresses are natural numbers, a vector is a list, a
-- function that changes its argument returns the new one. Additions and subtractions of 64-bit
-- offsets wrap, as in a release build; the theorems take sums that fit as hypotheses. The `for`
-- loops are structural recursion on the number of rounds that are left; the `while` loop of
-- `free_slot` is recursion on the queue that it shortens. The loop of `topo_sort` has as much fuel
-- as there are passes, which is enough since each round puts out another pass; no other fuel is
-- used. A lock is held from the start of a call to its end, so a call is one step. The clock, the
-- hash of the caller's place and the seed of the generator are arguments. A hash map of the tracker is the function from a key to
-- its value, so the counts of tracked images and buffers are not part of the model.
--
-- Not modelled: the text of reports and messages, the release of all memory on drop, the submission
-- of a frame graph, and the layers above (devices, queues, commands, pipelines, surfaces, shaders,
-- debug tools).
pub mod Base
pub mod Error
pub mod Format
pub mod Memory
pub mod Tracking
pub mod FrameGraph
