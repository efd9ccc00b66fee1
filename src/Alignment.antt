-- ===== src/Alignment.antt =====
-- include/ps4o/memory.hpp: alignPointer, and the pointers that own aligned storage. A pointer is the
-- number of 64 bits that `std::uintptr_t` makes of it.
pub mod Masks
pub mod Bounds
use Prim.Native.Nat.{bit_and}
use ps4o.Base.{ℕ, ◌+◌, ◌-◌, ◌%◌, ◌^◌}
use ps4o.Config.{digits}

-- `~x` on a word
pub complement : ℕ → ℕ
complement x = 2 ^ digits - 1 - x

-- `v = (v - 1 + alignment) & ~(alignment - 1)`
pub align_pointer : (v alignment : ℕ) → ℕ
unfolding complement
align_pointer v alignment =
    bit_and ((v + (2 ^ digits - 1) + alignment) % 2 ^ digits)
      (complement ((alignment + (2 ^ digits - 1)) % 2 ^ digits))
