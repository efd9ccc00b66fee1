-- ===== src/Examples/Buckets.antt =====
-- The theorems on the sample and on the parallel treatment of buckets, applied to small inputs.
use ps4o.Base.{
  ℕ, zero, suc, ◌*◌, ◌≤◌, get_elem?, replicate, ◌≡◌, refl, true, none, some, ◌>>=◌, List, [], ◌∷◌,
  map, Perm, arith, ltb,
}
use ps4o.Examples.Data.{small_config, scramble, numbers}
use ps4o.Memory.{Arrays}
use ps4o.Sampling.{select_sample}
use ps4o.Sampling.Select.{select_sample_lem}
use ps4o.Partitioning.{finish_buckets}
use ps4o.Partitioning.{distribute_elements}
use ps4o.Sampling.{Buckets}
use ps4o.ParallelPartitioning.{
  my_begin_of, distribute_threads, thread_parts, work_parts, work_threads,
}
use ps4o.ParallelPartitioning.Boundaries.{IsBoundaries}
use ps4o.ParallelPartitioning.Distributed.{thread_parts-none}
use ps4o.ParallelPartitioning.Even.{ordinary, work_threads-finish_buckets}

select_sample_lem_example :
    (ws : List ℕ) × (h : ℕ) × (select_sample scramble 5 0 11 (map some numbers) 17
      ≡ some (map some ws, h))
    × Perm ws numbers
select_sample_lem_example = select_sample_lem scramble 5 0 11 numbers 17 refl (omega arith)

-- Seven elements in three buckets, behind the distribution
abbrev three_buckets : Arrays ℕ
three_buckets = record {
  src = none ∷ none ∷ none ∷ none ∷ none ∷ none ∷ none ∷ [];
  tmp = some 2 ∷ some 1 ∷ some 4 ∷ some 4 ∷ some 9 ∷ some 8 ∷ some 7 ∷ [];
}

work_threads-finish_buckets_example :
    work_threads ltb small_config (0 ∷ 2 ∷ 4 ∷ 7 ∷ []) true true 2 0 2 (ordinary 3) three_buckets
    ≡ finish_buckets ltb small_config (0 ∷ 2 ∷ 4 ∷ 7 ∷ []) true true (ordinary 3) three_buckets
work_threads-finish_buckets_example =
    work_threads-finish_buckets ltb small_config (0 ∷ 2 ∷ 4 ∷ 7 ∷ []) true true 2 3 three_buckets
      (omega arith)

-- Six buckets of two elements each, and two threads with six elements each
abbrev six_buckets : List ℕ
six_buckets = 0 ∷ 2 ∷ 4 ∷ 6 ∷ 8 ∷ 10 ∷ 12 ∷ []

abbrev with_equality : ℕ → Buckets
with_equality n = record { num_buckets = n; use_equal_buckets = true }

-- Four buckets of two elements each. Of three threads with three elements, three and two, the second
-- begins in bucket 1.
abbrev four_buckets : List ℕ
four_buckets = 0 ∷ 2 ∷ 4 ∷ 6 ∷ 8 ∷ []

four_buckets-holds : (j : ℕ) → j ≤ 4 → get_elem? four_buckets j ≡ some (2 * j)
four_buckets-holds zero le = refl
four_buckets-holds (suc zero) le = refl
four_buckets-holds (suc (suc zero)) le = refl
four_buckets-holds (suc (suc (suc zero))) le = refl
four_buckets-holds (suc (suc (suc (suc zero)))) le = refl
four_buckets-holds (suc (suc (suc (suc (suc j))))) le = absurd (omega arith)

four_buckets-IsBoundaries : IsBoundaries four_buckets 4 (λ j. 2 * j)
four_buckets-IsBoundaries = record {
  holds = four_buckets-holds;
  ascending = λ i j le top. omega arith;
}

abbrev starts_of_threads : List (List ℕ)
starts_of_threads = (0 ∷ 2 ∷ 4 ∷ 6 ∷ []) ∷ (2 ∷ 3 ∷ 4 ∷ 6 ∷ []) ∷ (2 ∷ 4 ∷ 6 ∷ 6 ∷ []) ∷ []

abbrev labels_of_eight : List ℕ
labels_of_eight = 0 ∷ 0 ∷ 1 ∷ 1 ∷ 2 ∷ 2 ∷ 3 ∷ 3 ∷ []

abbrev eight : List ℕ
eight = 2 ∷ 1 ∷ 3 ∷ 3 ∷ 5 ∷ 4 ∷ 8 ∷ 7 ∷ []

eight-distributed :
    distribute_threads 8 3 labels_of_eight 0 starts_of_threads
      (record { src = map some eight; tmp = replicate 8 none })
    ≡ some (record { src = replicate 8 none; tmp = map some eight })
unfolding distribute_threads distribute_elements my_begin_of
eight-distributed = refl

thread_parts-none_example :
    (thread_parts four_buckets (with_equality 4) 8 3 1 >>= λ parts.
    work_parts ltb small_config four_buckets true true parts
      (record { src = replicate 8 none; tmp = map some eight }))
    ≡ none
unfolding my_begin_of
thread_parts-none_example =
    thread_parts-none ltb small_config four_buckets (with_equality 4) (λ j. 2 * j) true true 8 3 1
      labels_of_eight starts_of_threads (record { src = map some eight; tmp = replicate 8 none })
      (record { src = replicate 8 none; tmp = map some eight }) 1 refl four_buckets-IsBoundaries
      eight-distributed (omega arith) (omega arith) refl (omega arith) (omega arith) (omega arith)
