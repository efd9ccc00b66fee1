-- ===== src/Memory.antt =====
-- include/ps4o/memory.hpp: what a sorting thread owns, and the storage that it works on.
use ps4o.Base.{
  ℕ, zero, suc, ◌+◌, ◌-◌, ◌<◌, if◌then◌else◌, ltb, Option, none, some, ◌>>=◌, List, ◌++◌, take,
  drop, replicate, map_option, Cells, fetch, construct, destroy,
}
use ps4o.Config.{Config, max_buckets}
use ps4o.Classifier.{Classifier, empty_classifier, reset}

-- The generator of random bits and `std::uniform_int_distribution(0, last)` on it: a draw and the
-- next state.
pub record RandomSource (G : Type 0) : Type 0 where
  pub draw : (last : ℕ) → G → ℕ × G
  pub draw-lt : (last : ℕ) (g : G) → (draw last g).0 < suc last

-- `LocalData`, without the task queue of the parallel algorithm.
pub record LocalData {ℓ} (A : Type ℓ) (G : Type 0) : Type ℓ where
  pub bucket_start : List ℕ
  pub bucket_size : List ℕ
  pub classifier : Classifier A
  pub random_generator : G

module _ {ℓ} {A : Type ℓ} {G : Type 0} where
  unfoldable pub make_local : Config → G → LocalData A G
  make_local cfg seed = record {
    bucket_start = replicate (max_buckets cfg + 1) 0;
    bucket_size = replicate (max_buckets cfg) 0;
    classifier = empty_classifier cfg;
    random_generator = seed;
  }

  -- `LocalData::reset`
  unfoldable pub reset_local : LocalData A G → Option (LocalData A G)
  reset_local d = do c ← reset d.classifier; some (record d { classifier = c })

-- The range at `begin` and the one at `begin_tmp`
pub record Arrays {ℓ} (A : Type ℓ) : Type ℓ where
  pub src : Cells A
  pub tmp : Cells A

module _ {ℓ} {A : Type ℓ} where
  -- The objects of [start, stop), which must all live
  unfoldable pub read_range : (start stop : ℕ) → Cells A → Option (List A)
  read_range start stop cells = map_option (λ c. c) (take (stop - start) (drop start cells))

  -- The range [start, stop) with other cells
  unfoldable pub splice : (start stop : ℕ) → (middle cells : Cells A) → Cells A
  splice start stop middle cells = take start cells ++ middle ++ drop stop cells

  -- `new (to + i) T(std::move(from[i])); (from + i)->~T();` from index `i` on: the two storages after it
  unfoldable pub relocate : (rounds i : ℕ) (from to : Cells A) → Option (Cells A × Cells A)
  relocate zero i from to = some (from, to)
  relocate (suc rounds) i from to = do
    v ← fetch from i
    to' ← construct to i v
    from' ← destroy from i
    relocate rounds (suc i) from' to'

  -- `std::move(from + i, ..., to + i)`: an assignment wants an object that lives.
  unfoldable pub assign_range : (rounds i : ℕ) (from to : Cells A) → Option (Cells A)
  assign_range zero i from to = some to
  assign_range (suc rounds) i from to = do
    v ← fetch from i
    old ← fetch to i
    to' ← construct to i v
    assign_range rounds (suc i) from to'

  -- `ptr->~value_type()` from index `i` on
  pub destroy_range : (rounds i : ℕ) (cells : Cells A) → Option (Cells A)
  destroy_range zero i cells = some cells
  destroy_range (suc rounds) i cells = do c ← destroy cells i; destroy_range rounds (suc i) c

-- `for (i = first; i < last; i += stride)`, with fuel for its rounds
unfoldable pub for_buckets {ℓ} :
    {S : Type ℓ} (fuel i last stride : ℕ) (body : ℕ → S → Option S) (s : S) → Option S
for_buckets zero i last stride body s = none
for_buckets (suc fuel) i last stride body s =
    let rest = body i s >>= λ t. for_buckets fuel (i + stride) last stride body t in
    if ltb i last then rest else some s
