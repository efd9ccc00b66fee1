-- ===== src/Alignment/Masks.antt =====
-- A mask whose low bits are zero rounds down to a multiple of a power of two.
use Prim.Native.Nat.{min, bit_and, digits, bit_and-bitwise}
use ps4o.Base.{ℕ, zero, suc, ◌+◌, ◌-◌, ◌*◌, ◌/◌, ◌%◌, ◌^◌, ◌≤◌, ◌<◌, ◌≡◌, refl, sym, ap, ◌∙◌, arith}
use ps4o.Config.Bounds.{two_pow, two_pow_pos}
use native.Mathlib.Nat.{div-div-eq-div-mul, mul_assoc}

-- The operation as the recursion on binary digits that the native one stands for
abbrev and_digits : ℕ → ℕ → ℕ → ℕ
and_digits n a b = digits (λ b. zero) min n a b

-- Any fuel that is not below the number gives the same digits.
and_digits_enough : (n m a b : ℕ) → a ≤ n → a ≤ m → and_digits n a b ≡ and_digits m a b
and_digits_enough zero zero a b p q = refl
and_digits_enough zero (suc m) zero b p q = refl
and_digits_enough zero (suc m) (suc a) b p q = absurd (omega arith)
and_digits_enough (suc n) zero zero b p q = refl
and_digits_enough (suc n) zero (suc a) b p q = absurd (omega arith)
and_digits_enough (suc n) (suc m) zero b p q = refl
and_digits_enough (suc n) (suc m) (suc a) b p q =
    omega (arith, and_digits_enough n m (suc a / 2) (b / 2) (omega arith) (omega arith))

zero-bit_and : (b : ℕ) → bit_and 0 b ≡ 0
zero-bit_and b = bit_and-bitwise 0 b

-- The lowest digit of a conjunction, and the others
bit_and-digit : (a b : ℕ) → bit_and a b ≡ 2 * bit_and (a / 2) (b / 2) + min (a % 2) (b % 2)
bit_and-digit zero b = omega (arith, zero-bit_and b, zero-bit_and (b / 2))
bit_and-digit (suc a) b = omega (
  arith,
  bit_and-bitwise (suc a) b,
  bit_and-bitwise (suc a / 2) (b / 2),
  and_digits_enough a (suc a / 2) (suc a / 2) (b / 2) (omega arith) (omega arith),
)

-- A mask of ones that is wide enough changes nothing.
bit_and-ones : (w a : ℕ) → a < 2 ^ w → bit_and a (2 ^ w - 1) ≡ a
bit_and-ones zero a h = let e : a ≡ 0 = omega arith in rw e (zero-bit_and (2 ^ 0 - 1))
bit_and-ones (suc w) a h =
    let half : (2 ^ suc w - 1) / 2 ≡ 2 ^ w - 1 = omega (arith, two_pow w, two_pow_pos w) in
    let odd : (2 ^ suc w - 1) % 2 ≡ 1 = omega (arith, two_pow w, two_pow_pos w) in
    omega (
      arith,
      bit_and-digit a (2 ^ suc w - 1),
      ap (bit_and (a / 2)) half,
      odd,
      bit_and-ones w (a / 2) (omega (arith, two_pow w)),
    )

-- A mask of `n` bits, of which the `k` lowest are zero, rounds down to a multiple of `2 ^ k`.
pub bit_and-high_ones :
    (n k a : ℕ) → k ≤ n → a < 2 ^ n → bit_and a (2 ^ n - 2 ^ k) ≡ 2 ^ k * (a / 2 ^ k)
bit_and-high_ones n zero a le h = bit_and-ones n a h ∙ omega arith
bit_and-high_ones zero (suc k) a le h = absurd (omega arith)
bit_and-high_ones (suc n) (suc k) a le h =
    let half : (2 ^ suc n - 2 ^ suc k) / 2 ≡ 2 ^ n - 2 ^ k = omega (arith, two_pow n, two_pow k) in
    let even : (2 ^ suc n - 2 ^ suc k) % 2 ≡ 0 = omega (arith, two_pow n, two_pow k) in
    let twice : 2 ^ suc k ≡ 2 * 2 ^ k = omega (arith, two_pow k) in
    let digit : bit_and a (2 ^ suc n - 2 ^ suc k) ≡ 2 * (2 ^ k * (a / 2 / 2 ^ k)) = omega (
      arith,
      bit_and-digit a (2 ^ suc n - 2 ^ suc k),
      ap (bit_and (a / 2)) half,
      even,
      bit_and-high_ones n k (a / 2) (omega arith) (omega (arith, two_pow n)),
    ) in
    digit
    ∙ ap (λ q. 2 * (2 ^ k * q)) (div-div-eq-div-mul a 2 (2 ^ k))
    ∙ sym (mul_assoc 2 (2 ^ k) (a / (2 * 2 ^ k)))
    ∙ ap (λ t. t * (a / t)) (sym twice)
