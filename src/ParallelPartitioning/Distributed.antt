-- ===== src/ParallelPartitioning/Distributed.antt =====
-- A thread whose stripe begins in an equality bucket finds no objects in the input behind the distribution.
use ps4o.Base.{
  ℕ, zero, suc, ◌+◌, ◌-◌, ◌%◌, ◌≤◌, ◌<◌, ◌≡◌, sym, ap, ◌∙◌, Bool, true, some, none, ◌>>=◌,
  >>=-eq-some, List, [], ◌∷◌, arith, length, fetch,
}
use mathlib.Core.Option.{some-injective}
use ps4o.Config.{Config}
use ps4o.Memory.{Arrays}
use ps4o.Sampling.{Buckets}
use ps4o.Partitioning.{distribute_elements}
use ps4o.Partitioning.Dead.{distribute_elements-none, distribute_elements-dead}
use ps4o.ParallelPartitioning.{my_begin_of, distribute_threads, thread_parts, work_parts}
use ps4o.ParallelPartitioning.Boundaries.{IsBoundaries, find_first_lem}
use ps4o.ParallelPartitioning.Equal.{equal_parts-none}

module _ {ℓ} {A : Type ℓ} where
  -- The threads make no object in the input, one after the other,
  distribute_threads-none :
      (n num_threads : ℕ) (oracle : List ℕ) (my_id : ℕ) (starts : List (List ℕ)) (a b : Arrays A)
      (j : ℕ)
      → distribute_threads n num_threads oracle my_id starts a ≡ some b
      → fetch a.src j ≡ none
      → fetch b.src j ≡ none
  unfolding distribute_threads
  distribute_threads-none n t oracle my_id [] a b j h dead =
      ap (λ (x : Arrays A). fetch x.src j) (sym (some-injective a b h)) ∙ dead
  distribute_threads-none n t oracle my_id (s ∷ starts) a b j h dead =
      let (d, ed, h1) =
        >>=-eq-some
          (distribute_elements (my_begin_of n t (my_id + 1) - my_begin_of n t my_id)
            (my_begin_of n t my_id) oracle (record { arrays = a; bucket_start = s }))
          _ h in
      distribute_threads-none n t oracle (my_id + 1) starts d.arrays b j h1
        (distribute_elements-none _ _ oracle _ d j ed dead)

  -- and leave none in the stripe of any of them.
  distribute_threads-dead :
      (n num_threads : ℕ) (oracle : List ℕ) (my_id k : ℕ) (starts : List (List ℕ)) (a b : Arrays A)
      (j : ℕ)
      → distribute_threads n num_threads oracle my_id starts a ≡ some b
      → k < length starts
      → my_begin_of n num_threads (my_id + k) ≤ j
      → j < my_begin_of n num_threads (my_id + k + 1)
      → fetch b.src j ≡ none
  unfolding distribute_threads
  distribute_threads-dead n t oracle my_id k [] a b j h lt lo hi = absurd (omega arith)
  distribute_threads-dead n t oracle my_id zero (s ∷ starts) a b j h lt lo hi =
      let (d, ed, h1) =
        >>=-eq-some
          (distribute_elements (my_begin_of n t (my_id + 1) - my_begin_of n t my_id)
            (my_begin_of n t my_id) oracle (record { arrays = a; bucket_start = s }))
          _ h in
      let first : my_id + 0 ≡ my_id = omega arith in
      let low : my_begin_of n t my_id ≤ j = rw first at lo in
      let high : j < my_begin_of n t (my_id + 1) = rw first at hi in
      distribute_threads-none n t oracle (my_id + 1) starts d.arrays b j h1
        (distribute_elements-dead _ _ oracle _ d j ed low (omega arith))
  distribute_threads-dead n t oracle my_id (suc k) (s ∷ starts) a b j h lt lo hi =
      let (d, ed, h1) =
        >>=-eq-some
          (distribute_elements (my_begin_of n t (my_id + 1) - my_begin_of n t my_id)
            (my_begin_of n t my_id) oracle (record { arrays = a; bucket_start = s }))
          _ h in
      let more : my_id + suc k ≡ my_id + 1 + k = omega arith in
      distribute_threads-dead n t oracle (my_id + 1) k starts d.arrays b j h1 (omega arith)
        (rw more at lo) (rw more at hi)

module _ {ℓ} {A : Type ℓ} (comp : A → A → Bool) (cfg : Config) where
  -- With equality buckets and ascending boundaries, after the threads have distributed the elements of
  -- their stripes, one after the other and whatever the oracle and their starts: if the stripe of a
  -- thread is not empty and begins in an equality bucket before the last two buckets, the thread, taken
  -- first, assigns to an object of the input that the distribution has destroyed, and has undefined
  -- behaviour, on every level.
  pub thread_parts-none :
      (saved : List ℕ) (b : Buckets) (start : ℕ → ℕ) (in_input_array last_level : Bool)
      (n num_threads my_id : ℕ) (oracle : List ℕ) (starts : List (List ℕ)) (a e : Arrays A)
      (first : ℕ)
      → b.use_equal_buckets ≡ true
      → IsBoundaries saved b.num_buckets start
      → distribute_threads n num_threads oracle 0 starts a ≡ some e
      → my_id < length starts
      → my_begin_of n num_threads my_id < my_begin_of n num_threads (my_id + 1)
      → first % 2 ≡ 1
      → first < b.num_buckets - 2
      → start first ≤ my_begin_of n num_threads my_id
      → my_begin_of n num_threads my_id < start (suc first)
      → (thread_parts saved b n num_threads my_id >>= λ parts.
          work_parts comp cfg saved in_input_array last_level parts e)
        ≡ none
  unfolding thread_parts my_begin_of
  thread_parts-none saved b start in_input_array last_level n t my_id oracle starts a e first equal
        h done has some_left odd before lo hi =
      let dead =
        distribute_threads-dead n t oracle 0 my_id starts a e (my_begin_of n t my_id) done has
          (omega arith) (omega arith) in
      let next : first + 1 ≡ suc first = omega arith in
      rw equal (
        equal_parts-none comp cfg saved in_input_array last_level b.num_buckets
          (my_begin_of n t my_id) (my_begin_of n t (my_id + 1)) first (start (suc first)) e
          (find_first_lem saved b.num_buckets start h b.num_buckets first (my_begin_of n t my_id)
            (omega arith) (omega arith) lo hi)
          odd before (rw next (h.holds (suc first) (omega arith))) hi some_left dead)
