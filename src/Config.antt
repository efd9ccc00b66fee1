-- ===== src/Config.antt =====
-- include/ps4o/config.hpp and include/ps4o/utils.hpp: the parameters of `Config`, the logarithm, and
-- the sizes that they give. A `std::ptrdiff_t` is a number.
pub mod Bounds
pub mod Sample
use ps4o.Base.{ℕ, zero, suc, ◌+◌, ◌-◌, ◌*◌, ◌/◌, ◌^◌, max, Bool, true, bit, if◌then◌else◌, ltb, leb}

-- The template parameters of `Config`, with the element size that `numThreadsFor` reads.
pub record Config : Type 0 where
  pub allow_equal_buckets : Bool
  pub base_case_size : ℕ
  pub base_case_multiplier : ℕ
  pub data_alignment : ℕ
  pub equal_buckets_threshold : ℕ
  pub max_log_buckets : ℕ
  pub oversampling_percent : ℕ
  pub unroll_classifier : ℕ

-- `Config<>`
abbrev pub default_config : Config
default_config = record {
  allow_equal_buckets = true;
  base_case_size = 16;
  base_case_multiplier = 16;
  data_alignment = 4096;
  equal_buckets_threshold = 5;
  max_log_buckets = 7;
  oversampling_percent = 20;
  unroll_classifier = 7;
}

-- `PS4O_BLOCK_SIZE`
abbrev pub block_size : ℕ
block_size = 2048

-- `__builtin_clzl` on a word of `width` bits: the zeros above the highest one.
pub clz : (width n : ℕ) → ℕ
clz zero n = 0
clz (suc width) n = if leb (2 ^ width) n then 0 else suc (clz width n)

-- `std::numeric_limits<unsigned long>::digits`
abbrev pub digits : ℕ
digits = 64

-- The builtin is undefined at 0, where this is 0.
unfoldable pub log2 : ℕ → ℕ
unfolding clz
log2 n = digits - 1 - clz digits n

abbrev pub single_level_threshold : Config → ℕ
single_level_threshold cfg = cfg.base_case_size * 2 ^ cfg.max_log_buckets

abbrev pub two_level_threshold : Config → ℕ
two_level_threshold cfg = single_level_threshold cfg * 2 ^ cfg.max_log_buckets

abbrev pub max_buckets : Config → ℕ
max_buckets cfg = 2 ^ (cfg.max_log_buckets + bit cfg.allow_equal_buckets)

-- The factor as the one call of it reads it, a whole number: the fraction of the quotient is cut off. The
-- code divides in `double`, whose rounding gives another whole number for some percentages, 58 with a
-- logarithm of 50 for one; the default of 20 is not among them.
unfoldable pub oversampling_factor : Config → ℕ → ℕ
oversampling_factor cfg n =
    let f = cfg.oversampling_percent * log2 n in if ltb f 100 then 1 else f / 100

unfoldable pub log_buckets : Config → ℕ → ℕ
log_buckets cfg n =
    if leb n (single_level_threshold cfg)
    then max 1 (log2 (n / cfg.base_case_size))
    else if leb n (two_level_threshold cfg)
    then max 1 ((log2 (n / cfg.base_case_size) + 1) / 2)
    else cfg.max_log_buckets

-- `numThreadsFor` for `n` elements of `size_of` bytes
unfoldable pub num_threads_for : (size_of n max_threads : ℕ) → ℕ
num_threads_for size_of n max_threads =
    let blocks = n * size_of / block_size in if ltb blocks (4 * max_threads) then 1 else max_threads
