-- ===== src/FrameGraph.antt =====
-- framegraph.rs: the declarations of a frame graph. A handle is the index that it wraps, a
-- closure to execute is a number. The feature `tracking` is on, without which a pass declares no
-- access.
pub mod Topo
pub mod Compiled
pub mod Compile
use Prim.Native.String.{String}
use ignis_rs.Base.{ℕ, ◌%◌, ◌^◌, Option, none, some, List, [], ◌∷◌, ◌++◌, bit_or, length}
use ignis_rs.Format.{Format}
use ignis_rs.Memory.Kind.{MemoryLocation}
use ignis_rs.Tracking.Vk.{Vk}
use ignis_rs.Tracking.ImageUsage.{ImageUsageContext}
use ignis_rs.Tracking.BufferUsage.{BufferUsageContext}

pub record ImageDesc : Type 0 where
  pub width : ℕ
  pub height : ℕ
  pub format : Format
  pub usage : ℕ

pub color : Vk → ℕ → ℕ → Format → ImageDesc
color vk width height format = record {
  width = width;
  height = height;
  format = format;
  usage = bit_or vk.image_usage.color_attachment vk.image_usage.sampled;
}

pub depth : Vk → ℕ → ℕ → Format → ImageDesc
depth vk width height format = record {
  width = width;
  height = height;
  format = format;
  usage = vk.image_usage.depth_stencil_attachment;
}

pub record BufferDesc : Type 0 where
  pub size : ℕ
  pub usage : ℕ
  pub location : MemoryLocation

pub data ImageSource : Type 0 where
  transient : ImageDesc → ImageSource
  imported : (handle initial_layout mip_levels array_layers aspect : ℕ) → ImageSource

pub data BufferSource : Type 0 where
  transient : BufferDesc → BufferSource
  imported : (handle : ℕ) → BufferSource

pub record ImageDecl : Type 0 where
  pub name : String
  pub source : ImageSource

pub record BufferDecl : Type 0 where
  pub name : String
  pub source : BufferSource

pub data ImageAccessMode : Type 0 where
  read write : ImageUsageContext → ImageAccessMode

pub data BufferAccessMode : Type 0 where
  read write : BufferUsageContext → BufferAccessMode

pub record PassAccess : Type 0 where
  pub image : List (ℕ × ImageAccessMode)
  pub buffer : List (ℕ × BufferAccessMode)

pub record PassDecl : Type 0 where
  pub name : String
  pub access : PassAccess
  pub execute : Option ℕ

-- The methods of `PassBuilder`, which changes its pass.
access_image : PassDecl → ℕ → ImageAccessMode → PassDecl
access_image pass handle mode = record pass {
  access = record pass.access { image = pass.access.image ++ (handle, mode) ∷ [] };
}

access_buffer : PassDecl → ℕ → BufferAccessMode → PassDecl
access_buffer pass handle mode = record pass {
  access = record pass.access { buffer = pass.access.buffer ++ (handle, mode) ∷ [] };
}

pub reads_image : PassDecl → ℕ → ImageUsageContext → PassDecl
reads_image pass handle usage = access_image pass handle (ImageAccessMode.read usage)

pub writes_image : PassDecl → ℕ → ImageUsageContext → PassDecl
writes_image pass handle usage = access_image pass handle (ImageAccessMode.write usage)

pub reads_buffer : PassDecl → ℕ → BufferUsageContext → PassDecl
reads_buffer pass handle usage = access_buffer pass handle (BufferAccessMode.read usage)

pub writes_buffer : PassDecl → ℕ → BufferUsageContext → PassDecl
writes_buffer pass handle usage = access_buffer pass handle (BufferAccessMode.write usage)

pub install_execute : PassDecl → ℕ → PassDecl
install_execute pass cb = record pass { execute = some cb }

pub record FrameGraph : Type 0 where
  pub images : List ImageDecl
  pub buffers : List BufferDecl
  pub passes : List PassDecl

pub new : FrameGraph
new = record { images = []; buffers = []; passes = [] }

-- A declaration gives the handle, its index on 32 bits, and the new graph.
declare : FrameGraph → String → ImageSource → ℕ × FrameGraph
declare g name source = (
  length g.images % 2 ^ 32,
  record g { images = g.images ++ record { name = name; source = source } ∷ [] },
)

declare_on : FrameGraph → String → BufferSource → ℕ × FrameGraph
declare_on g name source = (
  length g.buffers % 2 ^ 32,
  record g { buffers = g.buffers ++ record { name = name; source = source } ∷ [] },
)

pub declare_image : FrameGraph → String → ImageDesc → ℕ × FrameGraph
declare_image g name desc = declare g name (ImageSource.transient desc)

pub import_image : FrameGraph → String → ℕ → ℕ → ℕ → ℕ → ℕ → ℕ × FrameGraph
import_image g name image initial_layout mip_levels array_layers aspect =
    declare g name (ImageSource.imported image initial_layout mip_levels array_layers aspect)

pub declare_buffer : FrameGraph → String → BufferDesc → ℕ × FrameGraph
declare_buffer g name desc = declare_on g name (BufferSource.transient desc)

pub import_buffer : FrameGraph → String → ℕ → ℕ × FrameGraph
import_buffer g name buffer = declare_on g name (BufferSource.imported buffer)

-- The closure that builds the pass is a function on it.
pub add_pass : FrameGraph → String → (PassDecl → PassDecl) → FrameGraph
add_pass g name build = record g {
  passes =
      g.passes
      ++ build (record { name = name; access = record { image = []; buffer = [] }; execute = none })
        ∷ [];
}
