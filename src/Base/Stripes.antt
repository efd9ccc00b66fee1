-- ===== src/Base/Stripes.antt =====
-- Ranges that are cut into stripes of equal length.
use Prim.Native.Nat.{ℕ, zero, suc, ◌+◌, ◌-◌, ◌*◌, ◌/◌, ◌≤◌, ◌<◌}
use native.Mathlib.Omega.{arith}
use native.Mathlib.Nat.{
  div-add-mod, mod-lt, mul-div-le, lt-mul-div-succ, le-div_iff_mul-le, div-mul-le_self,
}

-- `stripe` is large enough for `n` threads, and its multiples tile the numbers.
pub stripe-cover : (n size : ℕ) → 0 < n → size ≤ n * ((size + n - 1) / n)
stripe-cover n size h = omega (arith, div-add-mod (size + n - 1) n, mod-lt (size + n - 1) h)

pub tile : (k s : ℕ) → 0 < s → (s * (k / s) ≤ k) × (k < s * (k / s) + s)
tile k s h = (mul-div-le k s, omega (arith, lt-mul-div-succ k h))

pub tile-lt : (n s i k : ℕ) → k < n * s → s * i ≤ k → i < n
tile-lt n s i k h t = grind arith

pub pos_of_cover : (n s size : ℕ) → 0 < size → size ≤ n * s → 0 < s
pos_of_cover n zero size h c = absurd (omega arith)
pos_of_cover n (suc s) size h c = omega arith

-- The stripe that holds `k` is that of a thread.
pub thread_of : (n size k : ℕ) → 0 < n → k < size → k / ((size + n - 1) / n) < n
thread_of n size k h lt =
    let cover = stripe-cover n size h in
    let pos = pos_of_cover n _ size (omega arith) cover in
    tile-lt n ((size + n - 1) / n) (k / ((size + n - 1) / n)) k (omega arith) (tile k _ pos).0

-- Rounding down is monotone.
pub div_mono : (x y k : ℕ) → 0 < k → x ≤ y → x / k ≤ y / k
div_mono x y k h le = (le-div_iff_mul-le h).1 (omega (arith, div-mul-le_self x k))
