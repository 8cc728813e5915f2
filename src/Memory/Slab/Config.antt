-- ===== src/Memory/Slab/Config.antt =====
-- memory/slab.rs: `SlabConfig`. A callback for an error is a number.
use ignis_rs.Base.{ℕ, ◌*◌, Bool, true, false}

pub data SlabErrorAction : Type 0 where
  log panic : SlabErrorAction
  callback : ℕ → SlabErrorAction
  ignore : SlabErrorAction

pub record SlabConfig : Type 0 where
  pub slab_size : ℕ
  pub quarantine_slots : ℕ
  pub zero_on_free : Bool
  pub right_align : Bool
  pub detect_overflow : Bool
  pub slot_history : Bool
  pub on_double_free : SlabErrorAction
  pub on_overflow : SlabErrorAction

abbrev pub default_slab_size : ℕ
default_slab_size = 2 * 1024 * 1024

abbrev pub default_quarantine_slots : ℕ
default_quarantine_slots = 64

unfoldable pub default : SlabConfig
default = record {
  slab_size = default_slab_size;
  quarantine_slots = default_quarantine_slots;
  zero_on_free = true;
  right_align = true;
  detect_overflow = true;
  slot_history = false;
  on_double_free = log;
  on_overflow = log;
}

-- The builder methods.
pub with_slab_size : SlabConfig → ℕ → SlabConfig
with_slab_size config size = record config { slab_size = size }

pub with_quarantine_slots : SlabConfig → ℕ → SlabConfig
with_quarantine_slots config n = record config { quarantine_slots = n }

pub with_zero_on_free : SlabConfig → Bool → SlabConfig
with_zero_on_free config enable = record config { zero_on_free = enable }

pub with_right_align : SlabConfig → Bool → SlabConfig
with_right_align config enable = record config { right_align = enable }

pub with_detect_overflow : SlabConfig → Bool → SlabConfig
with_detect_overflow config enable = record config { detect_overflow = enable }

pub with_slot_history : SlabConfig → Bool → SlabConfig
with_slot_history config enable = record config { slot_history = enable }

pub with_on_double_free : SlabConfig → SlabErrorAction → SlabConfig
with_on_double_free config action = record config { on_double_free = action }

pub with_on_overflow : SlabConfig → SlabErrorAction → SlabConfig
with_on_overflow config action = record config { on_overflow = action }

pub production : SlabConfig
production = default

pub debug : SlabConfig
debug = record default { slot_history = true; on_double_free = panic; on_overflow = panic }
