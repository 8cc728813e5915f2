-- ===== src/Memory/Resources/Ideal.antt =====
-- A device and an allocator whose state is the ledger itself, for runs of memory/resources.rs.
use ignis_rs.Base.{
  ℕ, ◌+◌, ◌-◌, ◌<◌, ◌≡◌, refl, sym, ap, subst, inl, inr, Option, none, arith, le_cases,
}
use ignis_rs.Error.{ok}
use ignis_rs.Memory.Block.{Allocation}
use ignis_rs.Memory.Driver.{done}
use ignis_rs.Memory.Resources.{Allocator, Calls, Device}
use ignis_rs.Memory.Resources.Ledger.{
  Resource, is, is_self, range_of, Removes, Allocates, Makes, Documented,
}

abbrev pub Stock : Type 0
Stock = Resource → ℕ

abbrev pub stock : Stock → Resource → ℕ
stock w = w

abbrev gone : Resource → Stock → Stock
gone r w r' = w r' - is r' r

is-eq : (r r' : Resource) → 0 < is r r' → r ≡ r'
is-eq (Resource.buffer h) (Resource.buffer h') p =
    let e : h ≡ h' = ground (arith, p) in ap Resource.buffer e
is-eq (Resource.image h) (Resource.image h') p =
    let e : h ≡ h' = ground (arith, p) in ap Resource.image e
is-eq (Resource.range m o) (Resource.range m' o') p =
    let e : m ≡ m' = ground (arith, p) in
    let e' : o ≡ o' = ground (arith, p) in λ i. Resource.range (e i) (e' i)
is-eq (Resource.buffer h) (Resource.image h') p = absurd (omega (arith, p))
is-eq (Resource.buffer h) (Resource.range m o) p = absurd (omega (arith, p))
is-eq (Resource.image h) (Resource.buffer h') p = absurd (omega (arith, p))
is-eq (Resource.image h) (Resource.range m o) p = absurd (omega (arith, p))
is-eq (Resource.range m o) (Resource.buffer h') p = absurd (omega (arith, p))
is-eq (Resource.range m o) (Resource.image h') p = absurd (omega (arith, p))

gone-Removes : (r : Resource) (w : Stock) → Removes stock r w (gone r w)
gone-Removes r w held r' = elim (le_cases 1 (is r' r)) [
  | inl here ↦
      let e : r ≡ r' = sym (is-eq r' r here) in
      subst (λ (t : Resource). w t - is t r + is t r ≡ w t) e (omega (arith, held, is_self r))
  | inr other ↦ omega (arith, other)
]

abbrev place : Allocation
place = record { memory = 3; offset = 256; size = 64; mapped_ptr = none; memory_type_index = 0 }

abbrev pub supplier : Allocator Stock
supplier = record {
  allocate = λ requirements location w. (ok place, λ r. w r + is r (range_of place));
  free = λ a w. gone (range_of a) w;
}

-- Every handle is 5; a binding gives the code, if there is one.
abbrev calls : (ℕ → Resource) → Option ℕ → Calls Stock
calls kind code = record {
  create = λ w. (done 5, λ r. w r + is r (kind 5));
  requirements = λ handle w. record { size = 64; alignment = 16; memory_type_bits = 1 };
  bind = λ handle memory offset w. (code, w);
  destroy = λ handle w. gone (kind handle) w;
}

abbrev pub device : Option ℕ → Device Stock
device code = record {
  buffers = λ info. calls Resource.buffer code;
  images = λ info. calls Resource.image code;
  destroy_buffer = λ handle w. gone (Resource.buffer handle) w;
  destroy_image = λ handle w. gone (Resource.image handle) w;
}

pub supplier-Allocates : Allocates stock supplier
supplier-Allocates = record {
  allocates = λ requirements location w r. refl;
  frees = λ a w. gone-Removes (range_of a) w;
}

calls-Makes : (kind : ℕ → Resource) (code : Option ℕ) → Makes stock kind (calls kind code)
calls-Makes kind code = record {
  creates = λ w r. refl;
  binds = λ handle memory offset w r. refl;
  destroys = λ handle w. gone-Removes (kind handle) w;
}

pub device-Documented : (code : Option ℕ) → Documented stock (device code)
device-Documented code = record {
  buffers = λ info. calls-Makes Resource.buffer code;
  images = λ info. calls-Makes Resource.image code;
  destroys_buffer = λ handle w. gone-Removes (Resource.buffer handle) w;
  destroys_image = λ handle w. gone-Removes (Resource.image handle) w;
}
