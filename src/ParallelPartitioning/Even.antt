-- ===== src/ParallelPartitioning/Even.antt =====
-- The parallel treatment of buckets without equality buckets is the sequential one.
use ps4o.Base.{
  ℕ, zero, suc, ◌+◌, ◌-◌, ◌*◌, ◌/◌, ◌≤◌, ◌<◌, ◌≡◌, refl, sym, ◌∙◌, min, ap, Bool, false, lt→ltb,
  le→ltb, ◌>>=◌, >>=_assoc, >>=-cong, List, [], ◌∷◌, ◌++◌, arith, stripe-cover,
}
use ps4o.Config.{Config}
use ps4o.Memory.{Arrays, for_buckets}
use ps4o.Partitioning.{sort_and_move, finish_buckets}
use ps4o.Sampling.{Buckets}
use ps4o.ParallelPartitioning.{
  Part, sorted, sorted_from, even_parts, thread_parts, work_part, work_parts, work_threads,
}

sorted_from-append :
    (m n first : ℕ) → sorted_from (m + n) first ≡ sorted_from m first ++ sorted_from n (first + m)
unfolding sorted_from
sorted_from-append zero n first =
    let e : 0 + n ≡ n = omega arith in let f : first + 0 ≡ first = omega arith in rw (e, f) refl
sorted_from-append (suc m) n first =
    let e : suc m + n ≡ suc (m + n) = omega arith in
    let f : first + suc m ≡ suc first + m = omega arith in
    rw (e, f) (ap (λ l. sorted first ∷ l) (sorted_from-append m n (suc first)))

-- What thread `i` and those after it leave to do
sorted_from-min :
    (n i s : ℕ)
    → sorted_from (n - min n (i * s)) (min n (i * s))
      ≡ sorted_from (min n ((i + 1) * s) - min n (i * s)) (min n (i * s))
        ++ sorted_from (n - min n ((i + 1) * s)) (min n ((i + 1) * s))
sorted_from-min n i s =
    let le : min n (i * s) ≤ min n ((i + 1) * s) = grind arith in
    let le_n : min n ((i + 1) * s) ≤ n = grind arith in
    let size : n - min n (i * s)
        ≡ (min n ((i + 1) * s) - min n (i * s)) + (n - min n ((i + 1) * s)) =
      omega arith in
    let there : min n (i * s) + (min n ((i + 1) * s) - min n (i * s)) ≡ min n ((i + 1) * s) =
      omega arith in
    ap (λ k. sorted_from k (min n (i * s))) size
    ∙ sorted_from-append (min n ((i + 1) * s) - min n (i * s)) (n - min n ((i + 1) * s))
        (min n (i * s))
    ∙ ap
        (λ k.
          sorted_from (min n ((i + 1) * s) - min n (i * s)) (min n (i * s))
          ++ sorted_from (n - min n ((i + 1) * s)) k)
        there

-- So many buckets, of which none is an equality bucket
abbrev pub ordinary : ℕ → Buckets
ordinary n = record { num_buckets = n; use_equal_buckets = false }

module _ {ℓ} {A : Type ℓ} (comp : A → A → Bool) (cfg : Config) (saved : List ℕ)
    (in_input_array last_level : Bool) where
  work_parts-append :
      (ps qs : List Part) (a : Arrays A)
      → work_parts comp cfg saved in_input_array last_level (ps ++ qs) a ≡ (
          work_parts comp cfg saved in_input_array last_level ps a >>= λ b.
          work_parts comp cfg saved in_input_array last_level qs b)
  unfolding work_parts
  work_parts-append [] qs a = refl
  work_parts-append (p ∷ ps) qs a =
      >>=-cong (work_part comp cfg saved in_input_array last_level p a) _ _
        (λ b h. work_parts-append ps qs b)
      ∙ sym (>>=_assoc (work_part comp cfg saved in_input_array last_level p a) _ _)

  work_parts-sorted_from :
      (rounds fuel first last : ℕ) (a : Arrays A)
      → last ≡ first + rounds
      → rounds < fuel
      → work_parts comp cfg saved in_input_array last_level (sorted_from rounds first) a
        ≡ for_buckets fuel first last 1 (sort_and_move comp cfg saved in_input_array last_level) a
  unfolding work_parts sorted_from for_buckets work_part
  work_parts-sorted_from rounds zero first last a e lt = absurd (omega arith)
  work_parts-sorted_from zero (suc fuel) first last a e lt =
      rw (le→ltb first last (omega arith)) refl
  work_parts-sorted_from (suc rounds) (suc fuel) first last a e lt =
      rw (lt→ltb first last (omega arith)) (
        >>=-cong (sort_and_move comp cfg saved in_input_array last_level first a) _ _ (λ b h.
          work_parts-sorted_from rounds fuel (suc first) last b (omega arith) (omega arith)
          ∙ ap
              (λ i.
                for_buckets fuel i last 1 (sort_and_move comp cfg saved in_input_array last_level)
                  b)
              (omega arith)))

  work_threads-rest :
      (rounds my_id num_threads : ℕ) (n : ℕ) (a : Arrays A)
      → my_id + rounds ≡ num_threads
      → 0 < num_threads
      → work_threads comp cfg saved in_input_array last_level rounds my_id num_threads
          (ordinary n)
          a
        ≡ work_parts comp cfg saved in_input_array last_level
            (sorted_from
              (n - min n (my_id * ((n + num_threads - 1) / num_threads)))
              (min n (my_id * ((n + num_threads - 1) / num_threads))))
            a
  unfolding work_threads work_parts sorted_from thread_parts even_parts
  work_threads-rest zero my_id num_threads n a i h =
      let s : ℕ = (n + num_threads - 1) / num_threads in
      let all : min n (my_id * s) ≡ n =
        let same : my_id ≡ num_threads = omega arith in
        rw same (grind (arith, stripe-cover num_threads n h)) in
      let none_left : n - min n (my_id * s) ≡ 0 = omega (arith, all) in rw none_left refl
  work_threads-rest (suc rounds) my_id num_threads n a i h =
      let s : ℕ = (n + num_threads - 1) / num_threads in
      let next : suc my_id ≡ my_id + 1 = omega arith in
      rw (next, sorted_from-min n my_id s)
        (>>=-cong
            (work_parts comp cfg saved in_input_array last_level (even_parts n num_threads my_id) a)
            _ _ (λ c k. work_threads-rest rounds (my_id + 1) num_threads n c (omega arith) h)
          ∙ sym (work_parts-append (even_parts n num_threads my_id) _ a))

  -- Without equality buckets, the threads of any positive number, one after the other, do to the arrays
  -- what the sequential case does.
  pub work_threads-finish_buckets :
      (num_threads : ℕ) (n : ℕ) (a : Arrays A)
      → 0 < num_threads
      → work_threads comp cfg saved in_input_array last_level num_threads 0 num_threads
          (ordinary n)
          a
        ≡ finish_buckets comp cfg saved in_input_array last_level (ordinary n) a
  unfolding finish_buckets
  work_threads-finish_buckets num_threads n a h =
      let first : min n (0 * ((n + num_threads - 1) / num_threads)) ≡ 0 = grind arith in
      let all : n - 0 ≡ n = omega arith in
      (work_threads-rest num_threads 0 num_threads n a (omega arith) h
        ∙ ap (λ k. work_parts comp cfg saved in_input_array last_level (sorted_from (n - k) k) a)
            first
        ∙ ap (λ k. work_parts comp cfg saved in_input_array last_level (sorted_from k 0) a) all
        ∙ work_parts-sorted_from n (suc n) 0 n a (omega arith) (omega arith))
