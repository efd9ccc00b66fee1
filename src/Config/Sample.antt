-- ===== src/Config/Sample.antt =====
-- The sizes that the sampling phase computes from the input size.
use ps4o.Base.{
  ℕ, ◌+◌, ◌*◌, ◌/◌, ◌^◌, ◌≤◌, ◌<◌, max, inl, inr, Bool-cases, ltb, arith, le→leb, lt→leb,
}
use ps4o.Config.{
  Config, default_config, digits, log2, single_level_threshold, two_level_threshold,
  oversampling_factor, log_buckets,
}
use ps4o.Config.Bounds.{
  two_pow, two_pow_mono, two_pow_add, two_pow_pos, log2_bounds, log2-le, le-log2,
}
use native.Mathlib.Nat.{le-div_iff_mul-le, div-le_of_le-mul, div-le_self, mul_assoc}
use native.Mathlib.Decide.{dec_le}

-- For an input of at least one base case, of a size and at most a number of buckets that are not 0,
-- the logarithm of the number of buckets is at least 1 and at most the configured maximum.
pub log_buckets_bounds :
    (cfg : Config) (n : ℕ)
    → 0 < cfg.base_case_size
    → 0 < cfg.max_log_buckets
    → cfg.base_case_size ≤ n
    → n < 2 ^ digits
    → (1 ≤ log_buckets cfg n) × (log_buckets cfg n ≤ cfg.max_log_buckets)
unfolding log_buckets
log_buckets_bounds cfg n b m h lt = elim (dec_le n (single_level_threshold cfg)) [
  | yes one ↦ rw (le→leb n (single_level_threshold cfg) one) (
      log2_range (
        log2-le q cfg.max_log_buckets pos fits
          (omega (arith, two_pow k, two_pow_pos k, div-le_of_le-mul cfg.base_case_size one))))
  | no many ↦ elim (dec_le n (two_level_threshold cfg)) [
    | yes two ↦
        rw
          (
            lt→leb n (single_level_threshold cfg) (omega arith),
            le→leb n (two_level_threshold cfg) two,
          )
          (half_range (
            log2-le q (k + k) pos fits (
              omega (
                arith,
                two_pow (k + k),
                two_pow_pos (k + k),
                two_pow_add k k,
                div-le_of_le-mul cfg.base_case_size {m = n} {n = 2 ^ k * 2 ^ k}
                    (omega (arith, mul_assoc cfg.base_case_size (2 ^ k) (2 ^ k))),
              ))))
    | no deep ↦
        rw
          (
            lt→leb n (single_level_threshold cfg) (omega arith),
            lt→leb n (two_level_threshold cfg) (omega arith),
          )
          (m, omega arith)
  ]
]
  where
    k : ℕ
    k = cfg.max_log_buckets

    q : ℕ
    q = n / cfg.base_case_size

    pos : 0 < q
    pos = (le-div_iff_mul-le b).1 (omega arith)

    fits : q < 2 ^ digits
    fits = omega (arith, div-le_self n cfg.base_case_size)

    log2_range : log2 q ≤ k → (1 ≤ max 1 (log2 q)) × (max 1 (log2 q) ≤ k)
    log2_range l = omega arith

    half_range : log2 q ≤ k + k → (1 ≤ max 1 ((log2 q + 1) / 2)) × (max 1 ((log2 q + 1) / 2) ≤ k)
    half_range l = omega arith

oversampling_factor-le :
    (n k : ℕ) → log2 n ≤ k → 5 ≤ k → oversampling_factor default_config n ≤ 20 * k / 100
unfolding oversampling_factor
oversampling_factor-le n k h five = elim (Bool-cases (ltb (20 * log2 n) 100)) [
  | inl e ↦ rw e (omega arith)
  | inr e ↦ rw e (omega arith)
]

product_le : (s p c x : ℕ) → s ≤ c → p ≤ x → s * p ≤ c * x
product_le s p c x h k = grind arith

-- With the default parameters, for an input of more than 32 and fewer than 2 ^ 63 elements, the
-- sample, one element less than the oversampling factor times the number of buckets, is shorter
-- than the input.
pub sample_fits :
    (n : ℕ)
    → 32 < n
    → n < 2 ^ 63
    → oversampling_factor default_config n * 2 ^ log_buckets default_config n ≤ n
unfolding log_buckets
sample_fits n big small = elim (dec_le n 2048) [
  | yes one ↦ rw (le→leb n 2048 one) (
      omega (
        arith,
        product_le step _ 2 q
            (oversampling_factor-le n 11 (log2-le n 11 (omega arith) (omega arith) (omega arith))
              (omega arith))
            (two_power_le (max 1 (log2 q)) (omega (arith, at_least_one))),
      ))
  | no many ↦ elim (dec_le n 262144) [
    | yes two ↦
        rw (lt→leb n 2048 (omega arith), le→leb n 262144 two)
          (omega (
            arith,
            product_le step _ 3 q
                (oversampling_factor-le n 18
                  (log2-le n 18 (omega arith) (omega arith) (omega arith)) (omega arith))
                (two_power_le (max 1 ((log2 q + 1) / 2)) (omega (arith, at_least_one))),
          ))
    | no deep ↦
        rw (lt→leb n 2048 (omega arith), lt→leb n 262144 (omega arith))
          (omega (
            arith,
            product_le step 128 12 128
                (oversampling_factor-le n 62
                  (log2-le n 62 (omega arith) (omega arith) (omega arith)) (omega arith))
                (omega arith),
          ))
  ]
]
  where
    q : ℕ
    q = n / 16

    step : ℕ
    step = oversampling_factor default_config n

    at_least_one : 1 ≤ log2 q
    at_least_one = le-log2 q 1 (omega arith) (omega arith) (omega arith)

    two_power_le : (e : ℕ) → e ≤ log2 q → 2 ^ e ≤ q
    two_power_le e h = omega (arith, two_pow_mono h, (log2_bounds q (omega arith) (omega arith)).0)
