-- ===== src/Partitioning/Settle.antt =====
-- The loops of the sequential step over all buckets.
use ps4o.Base.{
  ℕ, zero, suc, ◌+◌, ◌-◌, ◌*◌, ◌%◌, ◌≤◌, ◌<◌, ◌≡◌, refl, sym, ap, ◌∙◌, Bool, true, false, ◌||◌,
  ◌&&◌, bit, ltb, ◌==◌, leb, lt→ltb, le→ltb, some, ◌>>=◌, List, ◌++◌, arith, length, length-append,
  get_elem?, Cells,
}
use mathlib.Core.List.{append_assoc, append-nil}
use ps4o.BaseCase.{base_case_sort}
use ps4o.Config.{Config}
use ps4o.Memory.{Arrays, for_buckets}
use ps4o.Partitioning.{move_bucket, sort_and_move, finish_buckets}
use ps4o.Partitioning.Regions.{join_buckets}
use ps4o.Partitioning.Finish.{progress, IsNext, move_bucket_lem, sort_and_move_lem}

module _ {ℓ} {A : Type ℓ} where
  pub join_snoc :
      (rounds k last : ℕ) (f : ℕ → List A)
      → last ≡ k + rounds
      → join_buckets (suc rounds) k f ≡ join_buckets rounds k f ++ f last
  join_snoc zero k last f e = append-nil (f k) ∙ ap f (omega arith)
  join_snoc (suc rounds) k last f e =
      ap (λ l. f k ++ l) (join_snoc rounds (suc k) last f (omega arith))
      ∙ sym (append_assoc (f k) (join_buckets rounds (suc k) f) (f last))

  module _ (comp : A → A → Bool) (cfg : Config) (saved : List ℕ) (src : Cells A)
      (in_input_array last_level : Bool) (f g : ℕ → List A) where
    -- The boundaries of the buckets `f` have been saved; `g` are the buckets after the step, of which each
    -- is as long. All of them are for the base case.
    pub record Settles (num : ℕ) : Type ℓ where
      pub starts : (j : ℕ) → j ≤ num → get_elem? saved j ≡ some (length (join_buckets j 0 f))
      pub same : (j : ℕ) → length (g j) ≡ length (f j)
      pub small :
          (j : ℕ) → j < num → (last_level || leb (length (f j)) (2 * cfg.base_case_size)) ≡ true

    module _ (num : ℕ) (h : Settles num) where
      -- The storages before bucket `i`
      unfoldable pub storages : ℕ → Arrays A
      storages i = progress in_input_array src (join_buckets i 0 g) (join_buckets (num - i) i f)

      same_join : (j : ℕ) → length (join_buckets j 0 g) ≡ length (join_buckets j 0 f)
      same_join zero = refl
      same_join (suc j) =
          rw (join_snoc j 0 j g (omega arith), join_snoc j 0 j f (omega arith))
            (omega (
              arith,
              length-append (join_buckets j 0 g) (g j),
              length-append (join_buckets j 0 f) (f j),
              same_join j,
              h.same j,
            ))

      IsNext-bucket : (i : ℕ) → i < num → IsNext saved i (join_buckets i 0 g) (f i)
      IsNext-bucket i lt =
          let e : i + 1 ≡ suc i = omega arith in
          record {
            start = h.starts i (omega arith) ∙ ap some (sym (same_join i));
            stop = rw e (
                h.starts (suc i) (omega arith)
                ∙ ap some (
                    ap length (join_snoc i 0 i f (omega arith))
                    ∙ length-append (join_buckets i 0 f) (f i)
                    ∙ ap (λ n. n + length (f i)) (sym (same_join i))));
          }

      split_next :
          (i : ℕ)
          → i < num
          → storages i
            ≡ progress in_input_array src
                (join_buckets i 0 g)
                (f i ++ join_buckets (num - suc i) (suc i) f)
      unfolding storages
      split_next i lt = let e : num - i ≡ suc (num - suc i) = omega arith in rw e refl

      join_next :
          (i : ℕ)
          → progress in_input_array src
              (join_buckets i 0 g ++ g i)
              (join_buckets (num - suc i) (suc i) f)
            ≡ storages (suc i)
      unfolding storages
      join_next i =
          ap (λ l. progress in_input_array src l (join_buckets (num - suc i) (suc i) f))
            (sym (join_snoc i 0 i g (omega arith)))

      pub sort_next :
          (i : ℕ)
          → i < num
          → base_case_sort comp (f i) ≡ some (g i)
          → sort_and_move comp cfg saved in_input_array last_level i (storages i)
            ≡ some (storages (suc i))
      sort_next i lt sorts = rw (split_next i lt) (
          sort_and_move_lem comp cfg saved src in_input_array last_level i (join_buckets i 0 g)
            (f i) (g i) (join_buckets (num - suc i) (suc i) f) (IsNext-bucket i lt) sorts (h.same i)
            (h.small i lt)
          ∙ ap some (join_next i))

      move_next :
          (i : ℕ)
          → i < num
          → g i ≡ f i
          → move_bucket comp cfg saved in_input_array i (storages i) ≡ some (storages (suc i))
      move_next i lt stays = rw (split_next i lt) (
          move_bucket_lem comp cfg saved src in_input_array i (join_buckets i 0 g) (f i)
            (join_buckets (num - suc i) (suc i) f) (IsNext-bucket i lt)
          ∙ ap
              (λ l. some (
                progress in_input_array src (join_buckets i 0 g ++ l)
                  (join_buckets (num - suc i) (suc i) f)))
              (sym stays)
          ∙ ap some (join_next i))

      pub sort_all :
          (rounds i fuel : ℕ)
          → i + rounds ≡ num
          → rounds < fuel
          → ((j : ℕ) → j < num → base_case_sort comp (f j) ≡ some (g j))
          → for_buckets fuel i num 1
              (sort_and_move comp cfg saved in_input_array last_level)
              (storages i)
            ≡ some (storages num)
      unfolding for_buckets
      sort_all rounds i zero e lt sorts = absurd (omega arith)
      sort_all zero i (suc fuel) e lt sorts =
          let last : i ≡ num = omega arith in
          rw (le→ltb i num (omega arith)) (ap (λ k. some (storages k)) last)
      sort_all (suc rounds) i (suc fuel) e lt sorts =
          let next : i + 1 ≡ suc i = omega arith in
          rw (lt→ltb i num (omega arith)) (
            rw (sort_next i (omega arith) (sorts i (omega arith)), next)
              (sort_all rounds (suc i) fuel (omega arith) (omega arith) sorts))

      pub pairs_all :
          (rounds i fuel : ℕ)
          → i + 2 * rounds + 2 ≡ num
          → rounds < fuel
          → ((r : ℕ) → base_case_sort comp (f (i + 2 * r)) ≡ some (g (i + 2 * r)))
          → ((r : ℕ) → r < rounds → g (i + 2 * r + 1) ≡ f (i + 2 * r + 1))
          → for_buckets fuel i
              (num - 2)
              2
              (λ j a. sort_and_move comp cfg saved in_input_array last_level j a >>= λ c.
                move_bucket comp cfg saved in_input_array (j + 1) c)
              (storages i)
            ≡ some (storages (num - 2))
      unfolding for_buckets
      pairs_all rounds i zero e lt sorts stays = absurd (omega arith)
      pairs_all zero i (suc fuel) e lt sorts stays =
          let last : i ≡ num - 2 = omega arith in
          rw (le→ltb i (num - 2) (omega arith)) (ap (λ k. some (storages k)) last)
      pairs_all (suc rounds) i (suc fuel) e lt sorts stays =
          let one : suc i ≡ i + 1 = omega arith in
          let two : suc (i + 1) ≡ i + 2 = omega arith in
          let here : i + 2 * 0 ≡ i = omega arith in
          rw (lt→ltb i (num - 2) (omega arith)) (
            rw (sort_next i (omega arith) (rw here at (sorts 0))) (
              rw one (
                rw (move_next (i + 1) (omega arith) (rw here at (stays 0 (omega arith))), two)
                  (pairs_all rounds (i + 2) fuel (omega arith) (omega arith)
                    (λ r.
                      let shift : i + 2 + 2 * r ≡ i + 2 * suc r = omega arith in
                      rw shift (sorts (suc r)))
                    (λ r less.
                      let shift : i + 2 + 2 * r ≡ i + 2 * suc r = omega arith in
                      rw shift (stays (suc r) (omega arith)))))))

      -- With the equality buckets apart, the step settles all buckets.
      pub finish_buckets_lem :
          (equal : Bool) (m : ℕ)
          → num ≡ suc m * (1 + bit equal)
          → ((j : ℕ)
              → (equal && (j % 2 == 1 && ltb j (num - 2))) ≡ false
              → base_case_sort comp (f j) ≡ some (g j))
          → ((j : ℕ) → (equal && (j % 2 == 1 && ltb j (num - 2))) ≡ true → g j ≡ f j)
          → finish_buckets comp cfg saved in_input_array last_level
              (record { num_buckets = num; use_equal_buckets = equal })
              (storages 0)
            ≡ some (storages num)
      unfolding finish_buckets
      finish_buckets_lem false m n sorts stays =
          sort_all num 0 (suc num) (omega arith) (omega arith) (λ j lt. sorts j refl)
      finish_buckets_lem true m n sorts stays =
          let last : suc (num - 2) ≡ num - 1 = omega arith in
          let end : suc (num - 1) ≡ num = omega arith in
          rw
            (pairs_all m 0 num (omega arith) (omega arith)
              (λ r.
                let even : ((0 + 2 * r) % 2 == 1) ≡ false = ground arith in
                sorts (0 + 2 * r) (rw even refl))
              (λ r lt.
                let odd : ((0 + 2 * r + 1) % 2 == 1) ≡ true = ground arith in
                stays (0 + 2 * r + 1)
                  (rw (odd, lt→ltb (0 + 2 * r + 1) (num - 2) (omega arith)) refl)))
            (let even : ((num - 2) % 2 == 1) ≡ false = ground arith in
              rw (sort_next (num - 2) (omega arith) (sorts (num - 2) (rw even refl)), last)
                (sort_next (num - 1) (omega arith) (
                    sorts (num - 1) (
                      rw (le→ltb (num - 1) (num - 2) (omega arith))
                        (and_false ((num - 1) % 2 == 1))))
                  ∙ ap (λ k. some (storages k)) end))
        where
          and_false : (b : Bool) → (b && false) ≡ false
          and_false true = refl
          and_false false = refl
