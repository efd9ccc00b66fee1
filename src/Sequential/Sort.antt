-- ===== src/Sequential/Sort.antt =====
-- `ps4o::sort` with the default parameters, on ranges that one level partitions.
use ps4o.Base.{
  inl, inr, Bool-cases, ℕ, zero, suc, ◌≤◌, ◌<◌, ◌≡◌, refl, max, Bool, true, false, le→leb, lt→leb,
  Option, none, some, List, map, Perm, arith, length, length-perm, length-replicate, replicate,
  Cells, fetch, IsSorted, IsStrictWeak,
}
use native.Mathlib.Decide.{dec_le}
use mathlib.Core.List.Perm
use ps4o.BaseCase.{base_case_sort, sorted_case_sort}
use ps4o.BaseCase.Insertion.{base_case_sort_lem}
use ps4o.BaseCase.Presorted.{sorted_case_sort_lem}
use ps4o.Config.{default_config, oversampling_factor}
use ps4o.Config.Sample.{log_buckets_bounds, sample_fits}
use ps4o.Classifier.{empty_classifier}
use ps4o.Memory.{RandomSource, LocalData, make_local}
use ps4o.Partitioning.Pieces.{values_of}
use ps4o.Sampling.Ready.{IsReady}
use ps4o.Sequential.{sequential, sequential_sorter, sort}
use ps4o.Sequential.LastLevel.{IsSampled, sequential-Sorts}

oversampling_factor-pos : (n : ℕ) → 0 < oversampling_factor default_config n
unfolding oversampling_factor
oversampling_factor-pos n = ground arith

pub default_config-IsSampled : IsSampled default_config
default_config-IsSampled = record {
  base = omega arith;
  few = omega arith;
  unroll = (omega arith, omega arith);
  one = λ n large fits.
      (log_buckets_bounds default_config n (omega arith) (omega arith) (omega arith)
        (omega arith)).0;
  top = λ n large fits.
      (log_buckets_bounds default_config n (omega arith) (omega arith) (omega arith)
        (omega arith)).1;
  shorter = λ n large fits.
      let same : max 1 (oversampling_factor default_config n)
          ≡ oversampling_factor default_config n =
        omega (arith, oversampling_factor-pos n) in
      rw same (sample_fits n (omega arith) (omega arith));
}

module _ {ℓ} {A : Type ℓ} where
  -- No cell of new storage has an object.
  fetch-replicate : (n i : ℕ) → fetch {A = A} (replicate n none) i ≡ none
  fetch-replicate zero i = refl
  fetch-replicate (suc n) zero = refl
  fetch-replicate (suc n) (suc i) = fetch-replicate n i

module _ {ℓ} {A : Type ℓ} {G : Type 0} where
  pub make_local-IsReady :
      (seed : G) → IsReady {A = A} default_config (make_local default_config seed)
  unfolding make_local empty_classifier
  make_local-IsReady seed = record {
    sized = record {
      starts = length-replicate {A = ℕ} 257 0;
      sizes = length-replicate {A = ℕ} 256 0;
      tree = omega (arith, length-replicate {A = Option A} 128 none);
      sorted = omega (arith, length-replicate {A = Option A} 128 none);
    };
    levels = refl;
    tree = fetch-replicate 128;
    sorted = fetch-replicate 128;
  }

module _ {ℓ} {A : Type ℓ} {G : Type 0} (comp : A → A → Bool) (random : RandomSource G)
    (w : IsStrictWeak comp) where
  -- The call of the recursion, and what the sorter reads back
  sorter-large :
      (n : ℕ) (d e : LocalData A G) (vs ws : List A) (tmp : Cells A)
      → length vs ≡ n
      → 32 < n
      → sequential comp random default_config n true d
          (record { src = map some vs; tmp = replicate n none })
        ≡ some (e, record { src = map some ws; tmp = tmp })
      → sequential_sorter comp random default_config false d vs ≡ some (e, ws)
  unfolding sequential_sorter
  sorter-large n d e vs ws tmp len large h =
      rw len (rw (lt→leb n 32 large) (rw h (rw (values_of ws) refl)))

  sorter-small :
      (d : LocalData A G) (vs ws : List A)
      → length vs ≤ 32
      → base_case_sort comp vs ≡ some ws
      → sequential_sorter comp random default_config false d vs ≡ some (d, ws)
  unfolding sequential_sorter
  sorter-small d vs ws small h = rw (le→leb (length vs) 32 small) (rw h refl)

  -- The reusable sorter with the default parameters and without the check for sorted input, on at most
  -- 2048 elements
  sequential_sorter_lem :
      (d : LocalData A G) (vs : List A)
      → IsReady default_config d
      → length vs ≤ 2048
      → (e : LocalData A G) × (ws : List A) × (sequential_sorter comp random default_config false d
            vs
          ≡ some (e, ws))
        × IsSorted comp ws
        × Perm ws vs
  sequential_sorter_lem d vs ready few = elim (dec_le (length vs) 32) [
    | yes small ↦
        let (ws, e, asc, p) = base_case_sort_lem comp w vs in
        (d, ws, sorter-small d vs ws small e, asc, p)
    | no large ↦
        let (e, ws, tmp, eq, k) =
          sequential-Sorts comp random default_config w (length vs) (length vs)
            default_config-IsSampled (omega arith) (omega arith) few d vs
            (replicate (length vs) none) refl (length-replicate {A = Option A} (length vs) none)
            ready in
        (
          e,
          ws,
          sorter-large (length vs) d e vs ws tmp refl (omega arith) eq,
          k.sorted,
          k.same_elements,
        )
  ]

  sort-unsorted :
      (seed : G) (vs ws : List A) (e : LocalData A G)
      → (sorted_case_sort comp vs).sorted ≡ false
      → 256 < length vs
      → sequential_sorter comp random default_config false
          (make_local default_config seed)
          (sorted_case_sort comp vs).range
        ≡ some (e, ws)
      → sort comp random default_config seed vs ≡ some ws
  unfolding sort
  sort-unsorted seed vs ws e unsorted large h =
      rw (unsorted, lt→leb (length vs) 256 large) (rw h refl)

  sort-small :
      (seed : G) (vs ws : List A)
      → (sorted_case_sort comp vs).sorted ≡ false
      → length vs ≤ 256
      → base_case_sort comp (sorted_case_sort comp vs).range ≡ some ws
      → sort comp random default_config seed vs ≡ some ws
  unfolding sort
  sort-small seed vs ws unsorted small h = rw (unsorted, le→leb (length vs) 256 small) h

  sort-sorted :
      (seed : G) (vs : List A)
      → (sorted_case_sort comp vs).sorted ≡ true
      → sort comp random default_config seed vs ≡ some (sorted_case_sort comp vs).range
  unfolding sort
  sort-sorted seed vs h = rw h refl

  -- With a strict weak ordering, `ps4o::sort` with the default parameters sorts every range of at most
  -- 2048 elements, whatever the generator draws: it succeeds and leaves the same elements in ascending
  -- order.
  pub sort_lem :
      (seed : G) (vs : List A)
      → length vs ≤ 2048
      → (ws : List A) × (sort comp random default_config seed vs ≡ some ws)
        × IsSorted comp ws
        × Perm ws vs
  sort_lem seed vs few =
      let (p, up, same) = sorted_case_sort_lem comp w vs in
      let len = length-perm p in
      elim (Bool-cases (sorted_case_sort comp vs).sorted) [
        | inl yes_sorted ↦
            ((sorted_case_sort comp vs).range, sort-sorted seed vs yes_sorted, up yes_sorted, p)
        | inr unsorted ↦ elim (dec_le (length vs) 256) [
          | yes small ↦
              let (ws, e, asc, q) = base_case_sort_lem comp w (sorted_case_sort comp vs).range in
              (ws, sort-small seed vs ws unsorted small e, asc, Perm.trans q p)
          | no large ↦
              let (e, ws, eq, asc, q) =
                sequential_sorter_lem (make_local default_config seed)
                  (sorted_case_sort comp vs).range (make_local-IsReady seed) (omega arith) in
              (ws, sort-unsorted seed vs ws e unsorted (omega arith) eq, asc, Perm.trans q p)
        ]
      ]
