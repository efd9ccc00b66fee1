-- ===== src/Examples/Data.antt =====
-- Concrete parameters for the examples: a small configuration, a generator, data.
use ps4o.Base.{
  ℕ, zero, suc, ◌+◌, ◌*◌, ◌%◌, ◌<◌, ◌≡◌, refl, true, none, some, List, [], ◌∷◌, arith, ltb,
  get_elem?, fetch, IsStrictWeak,
}
use native.Mathlib.Nat.{mod-lt}
use ps4o.Config.{Config}
use ps4o.Memory.{RandomSource}
use ps4o.Classifier.{Classifier}
use ps4o.Classifier.Search.{IsBuilt}
use ps4o.Classifier.Classify.{IsLoaded}

-- Base cases of at most two elements, at most four buckets
abbrev pub small_config : Config
small_config = record {
  allow_equal_buckets = true;
  base_case_size = 1;
  base_case_multiplier = 1;
  data_alignment = 8;
  equal_buckets_threshold = 1;
  max_log_buckets = 2;
  oversampling_percent = 20;
  unroll_classifier = 1;
}

pub scramble-lt : (last g : ℕ) → g % suc last < suc last
scramble-lt last g = mod-lt g (omega arith)

abbrev pub scramble : RandomSource ℕ
scramble = record { draw = λ last g. (g % suc last, (g * 5 + 3) % 1009); draw-lt = scramble-lt }

abbrev pub numbers : List ℕ
numbers = 5 ∷ 2 ∷ 9 ∷ 2 ∷ 0 ∷ 7 ∷ 2 ∷ 11 ∷ 4 ∷ 4 ∷ 3 ∷ []

pub ltb-IsStrictWeak : IsStrictWeak ltb
ltb-IsStrictWeak = record { asymm = λ a b h. ground arith; le_trans = λ a b c h k. ground arith }

-- Three splitters, and a classifier with room for them
abbrev pub splitters : List ℕ
splitters = 2 ∷ 5 ∷ 9 ∷ []

abbrev pub loaded : Classifier ℕ
loaded = record {
  storage = none ∷ none ∷ none ∷ none ∷ [];
  sorted_storage = some 2 ∷ some 5 ∷ some 9 ∷ none ∷ [];
  log_buckets = 0;
  num_buckets = 0;
}

loaded_splitters :
    (i : ℕ) → i < 3 → fetch (some 2 ∷ some 5 ∷ some 9 ∷ none ∷ []) i ≡ get_elem? splitters i
loaded_splitters zero h = refl
loaded_splitters (suc zero) h = refl
loaded_splitters (suc (suc zero)) h = refl
loaded_splitters (suc (suc (suc i))) h = absurd (omega arith)

pub loaded-IsLoaded : IsLoaded ltb 2 splitters loaded
loaded-IsLoaded = record {
  ascending = ((refl, (refl, tt)), ((refl, tt), (tt, tt)));
  levels = (omega arith, omega arith);
  full = refl;
  splitters = loaded_splitters;
  room = (omega arith, omega arith);
}

-- What `build` makes of it
abbrev pub built : Classifier ℕ
built = record {
  storage = none ∷ some 5 ∷ some 2 ∷ some 9 ∷ [];
  sorted_storage = some 2 ∷ some 5 ∷ some 9 ∷ some 9 ∷ [];
  log_buckets = 2;
  num_buckets = 4;
}

built_splitters :
    (i : ℕ) → i < 3 → fetch (some 2 ∷ some 5 ∷ some 9 ∷ some 9 ∷ []) i ≡ get_elem? splitters i
built_splitters zero h = refl
built_splitters (suc zero) h = refl
built_splitters (suc (suc zero)) h = refl
built_splitters (suc (suc (suc i))) h = absurd (omega arith)

pub built-IsBuilt : IsBuilt ltb splitters built
built-IsBuilt = record {
  ascending = ((refl, (refl, tt)), ((refl, tt), (tt, tt)));
  levels = (omega arith, omega arith);
  buckets = refl;
  full = refl;
  splitters = built_splitters;
  duplicate = refl;
  tree = (refl, (refl, tt, tt), (refl, tt, tt));
}
