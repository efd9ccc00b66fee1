-- ===== src/Alignment/Bounds.antt =====
-- `align_pointer` rounds up to the next multiple of the alignment.
use ps4o.Base.{ℕ, ◌+◌, ◌-◌, ◌*◌, ◌/◌, ◌%◌, ◌^◌, ◌≤◌, ◌<◌, ◌≡◌, ◌∙◌, arith}
use mathlib.Core.Path.{ap₂}
use Prim.Native.Nat.{bit_and}
use ps4o.Config.{digits}
use ps4o.Config.Bounds.{two_pow_pos}
use ps4o.Alignment.{align_pointer, complement}
use ps4o.Alignment.Masks.{bit_and-high_ones}
use native.Mathlib.Nat.{mul-mod_right, mul-div-le, lt-mul-div-succ}

-- For an alignment that is a power of two, and a pointer with room for it above in the address space, the
-- aligned pointer is a multiple of the alignment, not below the pointer, and less than the alignment above.
pub align_pointer_lem :
    (v k : ℕ)
    → k < digits
    → v + 2 ^ k ≤ 2 ^ digits
    → (align_pointer v (2 ^ k) % 2 ^ k ≡ 0)
      × (v ≤ align_pointer v (2 ^ k))
      × (align_pointer v (2 ^ k) < v + 2 ^ k)
unfolding align_pointer complement
align_pointer_lem v k lt room =
    let pos : 0 < 2 ^ k = two_pow_pos k in
    let sum : (v + (2 ^ digits - 1) + 2 ^ k) % 2 ^ digits ≡ v + 2 ^ k - 1 = omega arith in
    let mask : 2 ^ digits - 1 - (2 ^ k + (2 ^ digits - 1)) % 2 ^ digits ≡ 2 ^ digits - 2 ^ k =
      omega arith in
    let down = bit_and-high_ones digits k (v + 2 ^ k - 1) (omega arith) (omega arith) in
    rw (ap₂ bit_and sum mask ∙ down) (
      mul-mod_right (2 ^ k) ((v + 2 ^ k - 1) / 2 ^ k),
      omega (arith, lt-mul-div-succ (v + 2 ^ k - 1) pos, distribute),
      omega (arith, mul-div-le (v + 2 ^ k - 1) (2 ^ k)),
    )
  where
    distribute : 2 ^ k * ((v + 2 ^ k - 1) / 2 ^ k + 1) ≡ 2 ^ k * ((v + 2 ^ k - 1) / 2 ^ k) + 2 ^ k
    distribute = grind arith
