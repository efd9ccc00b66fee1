-- ===== src/ParallelPartitioning/Equal.antt =====
-- The parallel treatment of buckets with equality buckets.
use ps4o.Base.{
  ℕ, zero, suc, ◌+◌, ◌-◌, ◌*◌, ◌/◌, ◌%◌, ◌<◌, ◌≡◌, refl, ap, ◌∙◌, min, Bool, true, false, lt→ltb,
  ◌==◌, none, some, ◌>>=◌, >>=-none, >>=_assoc, List, [], ◌∷◌, ◌++◌, arith, Cells, fetch, get_elem?,
}
use mathlib.Core.List.{append-nil}
use ps4o.Config.{Config}
use ps4o.Memory.{Arrays, assign_range}
use ps4o.ParallelPartitioning.{
  Part, sorted, moved, sorted_from, pairs_from, remaining_parts, first_part, find_first, find_last,
  last_part, equal_parts, work_part, work_parts,
}

pairs_from-last :
    (m first : ℕ)
    → pairs_from (suc m) first
      ≡ pairs_from m first ++ sorted (first + 2 * m) ∷ moved (first + 2 * m + 1) ∷ []
unfolding pairs_from
pairs_from-last zero first = let e : first + 2 * 0 ≡ first = omega arith in rw e refl
pairs_from-last (suc m) first =
    let e : first + 2 * suc m ≡ first + 2 + 2 * m = omega arith in
    rw e (ap (λ l. sorted first ∷ moved (first + 1) ∷ l) (pairs_from-last m (first + 2)))

is_even : (n : ℕ) → n % 2 ≡ 0 → (n % 2 == 1) ≡ false
is_even n h = ground arith

is_odd : (n : ℕ) → n % 2 ≡ 1 → (n % 2 == 0) ≡ false
is_odd n h = ground arith

-- A thread whose remaining buckets begin with an ordinary one and end before an equality bucket moves
-- that equality bucket after the last of them, although it is none of them.
pub remaining_parts-overrun :
    (n first last : ℕ)
    → first % 2 ≡ 0
    → last % 2 ≡ 1
    → first < last
    → last < n - 2
    → (rest : List Part) × (remaining_parts n first last
        ≡ rest ++ sorted (last - 1) ∷ moved last ∷ [])
unfolding remaining_parts sorted_from
remaining_parts-overrun n first last even odd lt le =
    let m : ℕ = (last - first) / 2 in
    let rounds : (min last (n - 2) + 1 - first) / 2 ≡ suc m = omega arith in
    let left : last - min last (n - 2) ≡ 0 = omega arith in
    let before : last - 1 ≡ first + 2 * m = omega arith in
    let at : last ≡ first + 2 * m + 1 = omega arith in
    (
      pairs_from m first,
      rw (is_even first even) (
          rw (is_odd last odd, lt→ltb first last lt)
            (rw (rounds, left)
              (append-nil _
                ∙ pairs_from-last m first
                ∙ ap (λ k. pairs_from m first ++ sorted k ∷ moved (first + 2 * m + 1) ∷ [])
                    {x = first + 2 * m} {y = last - 1} (omega arith)
                ∙ ap (λ k. pairs_from m first ++ sorted (last - 1) ∷ moved k ∷ [])
                    {x = first + 2 * m + 1} {y = last} (omega arith)))),
    )

module _ {ℓ} {A : Type ℓ} where
  -- An assignment to an object that does not live
  assign_range-none :
      (rounds i : ℕ) (from to : Cells A)
      → fetch to i ≡ none
      → assign_range (suc rounds) i from to ≡ none
  unfolding assign_range
  assign_range-none rounds i from to h = >>=-none (fetch from i) _ (λ v. rw h refl)

module _ {ℓ} {A : Type ℓ} (comp : A → A → Bool) (cfg : Config) (saved : List ℕ)
    (in_input_array last_level : Bool) where
  -- A thread whose stripe is not empty and begins in an equality bucket before the last two buckets
  -- assigns to the first object of its stripe in the input: if that object does not live any more, the
  -- thread has undefined behaviour, whatever the level and the other boundaries.
  pub equal_parts-none :
      (n my_begin my_end first stop : ℕ) (a : Arrays A)
      → find_first saved my_begin n ≡ some first
      → first % 2 ≡ 1
      → first < n - 2
      → get_elem? saved (first + 1) ≡ some stop
      → my_begin < stop
      → my_begin < my_end
      → fetch a.src my_begin ≡ none
      → (equal_parts saved n my_begin my_end >>= λ parts.
          work_parts comp cfg saved in_input_array last_level parts a)
        ≡ none
  unfolding equal_parts first_part work_parts work_part
  equal_parts-none n my_begin my_end first stop a found odd lt at le ne dead =
      let count : min my_end stop - my_begin ≡ suc (min my_end stop - my_begin - 1) = grind arith in
      let is_equal : (first % 2 == 1) ≡ true = ground arith in
      rw found (
        >>=_assoc (find_last saved (suc n) my_end first) _ _
        ∙ >>=-none (find_last saved (suc n) my_end first) _ (λ last.
          rw (is_equal, lt→ltb first (n - 2) lt)
            (rw at (
              >>=_assoc (last_part saved n my_begin my_end (suc first) last) _ _
              ∙ >>=-none (last_part saved n my_begin my_end (suc first) last) _ (λ q.
                rw
                  (
                    count,
                    assign_range-none (min my_end stop - my_begin - 1) my_begin a.tmp a.src dead,
                  )
                  refl)))))
