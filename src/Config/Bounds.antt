-- ===== src/Config/Bounds.antt =====
-- `log2` is the logarithm rounded down; the number of buckets and the sample stay in their bounds.
use ps4o.Base.{ℕ, zero, suc, ◌+◌, ◌-◌, ◌*◌, ◌^◌, ◌≤◌, ◌<◌, ◌≡◌, ap, arith, le→leb, lt→leb}
use ps4o.Config.{clz, digits, log2}
use native.Mathlib.Nat.{zero-add, suc-add, pow-suc, pow-le-pow_right}
use native.Mathlib.Decide.{dec_le}

pub two_pow : (n : ℕ) → 2 ^ suc n ≡ 2 ^ n + 2 ^ n
two_pow n = omega (arith, pow-suc 2 n)

pub two_pow_mono : {i j : ℕ} → i ≤ j → 2 ^ i ≤ 2 ^ j
two_pow_mono h = pow-le-pow_right {n = 2} (omega arith) h

pub two_pow_pos : (n : ℕ) → 0 < 2 ^ n
two_pow_pos n = omega (arith, two_pow_mono {i = 0} {j = n} (omega arith))

pub two_pow_add : (i j : ℕ) → 2 ^ (i + j) ≡ 2 ^ i * 2 ^ j
two_pow_add zero j = rw zero-add (omega arith)
two_pow_add (suc i) j = rw suc-add (
    omega
      (arith, two_pow (i + j), two_pow i, two_pow_add i j, ap (λ (t : ℕ). t * 2 ^ j) (two_pow i)))

clz_lem :
    (w n : ℕ) → 0 < n → n < 2 ^ w → (l : ℕ) × (clz w n + suc l ≡ w) × (2 ^ l ≤ n) × (n < 2 ^ suc l)
unfolding clz
clz_lem zero n h lt = absurd (omega arith)
clz_lem (suc w) n h lt = elim (dec_le (2 ^ w) n) [
  | yes p ↦ (w, rw (le→leb _ _ p) (omega arith), p, lt)
  | no q ↦
      let (l, e, lo, hi) = clz_lem w n h (omega arith) in
      (l, rw (lt→leb (2 ^ w) n (omega arith)) (omega arith), lo, hi)
]

-- On a word that is not 0, `log2` is the logarithm to base 2, rounded down.
pub log2_bounds : (n : ℕ) → 0 < n → n < 2 ^ digits → (2 ^ log2 n ≤ n) × (n < 2 ^ suc (log2 n))
unfolding log2
log2_bounds n h lt =
    let (l, e, lo, hi) = clz_lem digits n h lt in
    let d : digits - 1 - clz digits n ≡ l = omega arith in rw d (lo, hi)

pub log2-le : (n k : ℕ) → 0 < n → n < 2 ^ digits → n < 2 ^ suc k → log2 n ≤ k
log2-le n k h lt lk = elim (dec_le (log2 n) k) [
  | yes p ↦ p
  | no q ↦
      let up = two_pow_mono {i = suc k} {j = log2 n} (omega arith) in
      absurd (omega (arith, (log2_bounds n h lt).0))
]

pub le-log2 : (n k : ℕ) → 0 < n → n < 2 ^ digits → 2 ^ k ≤ n → k ≤ log2 n
le-log2 n k h lt lk = elim (dec_le k (log2 n)) [
  | yes p ↦ p
  | no q ↦
      let up = two_pow_mono {i = suc (log2 n)} {j = k} (omega arith) in
      absurd (omega (arith, (log2_bounds n h lt).1))
]
