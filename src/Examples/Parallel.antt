-- ===== src/Examples/Parallel.antt =====
-- The theorems on the parallel check and the parallel interface, applied to small inputs.
use ps4o.Base.{ℕ, ◌≡◌, ◌↔◌, refl, true, ltb, arith, List, [], ◌∷◌, IsSorted}
use ps4o.Examples.Data.{small_config, numbers, ltb-IsStrictWeak}
use ps4o.BaseCase.{Access, load_word, store_word, is_sorted}
use ps4o.BaseCase.Stripes.{in_turn, is_sorted_iff, is_sorted-IsSorted}
use ps4o.ParallelSorter.{Schedules, pool_way, threads_way}
use ps4o.ParallelSorter.Ways.{Fits, pool_way-Fits, threads_way-Fits}

is_sorted_iff_example : (is_sorted ltb 64 (in_turn 3 0) 3 numbers ≡ true) ↔ IsSorted ltb numbers
is_sorted_iff_example = is_sorted_iff ltb ltb-IsStrictWeak 64 3 numbers (omega arith)

-- Two threads write one after the other.
abbrev ascending : List ℕ
ascending = 1 ∷ 2 ∷ 4 ∷ 4 ∷ []

abbrev separate : List Access
separate = load_word 0 ∷ store_word 0 ∷ load_word 1 ∷ store_word 1 ∷ []

separate-true : is_sorted ltb 64 separate 2 ascending ≡ true
unfolding in_turn
separate-true =
    (is_sorted_iff ltb ltb-IsStrictWeak 64 2 ascending (omega arith)).1
      ((refl, (refl, (refl, tt))), ((refl, (refl, tt)), ((refl, tt), (tt, tt))))

is_sorted-IsSorted_example : IsSorted ltb ascending
is_sorted-IsSorted_example =
    is_sorted-IsSorted ltb ltb-IsStrictWeak 64 separate 2 ascending (omega arith) separate-true

-- Eleven elements of 2048 bytes each fill eleven blocks, enough for two threads.
abbrev overlapping : Schedules
overlapping = record {
  first = load_word 1 ∷ load_word 0 ∷ store_word 0 ∷ store_word 1 ∷ [];
  second = separate;
}

pool_way-Fits_example :
    Fits ltb small_config 2048 2 numbers (pool_way ltb small_config 2048 64 overlapping 2 numbers)
pool_way-Fits_example =
    pool_way-Fits ltb small_config 2048 ltb-IsStrictWeak 64 overlapping 2 numbers

threads_way-Fits_example :
    Fits ltb small_config 2048 2 numbers
      (threads_way ltb small_config 2048 64 overlapping 2 numbers)
threads_way-Fits_example =
    threads_way-Fits ltb small_config 2048 ltb-IsStrictWeak 64 overlapping 2 numbers
