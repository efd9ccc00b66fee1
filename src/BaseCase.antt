-- ===== src/BaseCase.antt =====
-- include/ps4o/base_case.hpp: `insertionSort`, `baseCaseSort`, the parallel `isSorted` and
-- `sortedCaseSort`. A range [begin, end) is a list, an iterator its offset from `begin`.
pub mod Insertion
pub mod Neighbours
pub mod Presorted
pub mod Stripes
use ps4o.Base.{
  ◌==◌, ℕ, zero, suc, ◌+◌, ◌-◌, ◌*◌, ◌/◌, min, Bool, true, false, not, if◌then◌else◌, ltb, Option,
  none, some, ◌>>=◌, List, [], ◌∷◌, length, get_elem?, store, take, drop, rev_onto,
}

-- The two halves of a write to one flag of a `std::vector<bool>`
pub data Access : Type 0 where
  load_word : (my_id : ℕ) → Access
  store_word : (my_id : ℕ) → Access

-- The flags of the threads, and what each thread has loaded of them
pub record Flags : Type 0 where
  pub flags : ℕ → Bool
  pub copies : ℕ → ℕ → Bool

-- `std::vector<bool> is_sorted(n)`
abbrev pub no_flags : Flags
no_flags = record { flags = λ i. false; copies = λ i j. false }

-- `std::all_of` over the flags of the threads below `ids`
pub all_flags : (ids : ℕ) → (ℕ → Bool) → Bool
all_flags zero flags = true
all_flags (suc ids) flags = let rest = all_flags ids flags in if flags ids then rest else false

module _ {ℓ} {A : Type ℓ} where
  -- `std::move_backward(begin, begin + it, begin + it + 1)`
  move_backward : (it : ℕ) (a : List A) → Option (List A)
  move_backward zero a = some a
  move_backward (suc it) a = do v ← get_elem? a it; b ← store a (suc it) v; move_backward it b

  -- `*(end - 1)`, for a range that begins with `x`
  last_of : A → List A → A
  last_of x [] = x
  last_of x (y ∷ l) = last_of y l

-- The flag that is returned, with the range as it is left.
pub record SortedCase {ℓ} (A : Type ℓ) : Type ℓ where
  pub sorted : Bool
  pub range : List A

module _ {ℓ} {A : Type ℓ} (comp : A → A → Bool) where
  -- The loop over `cur` and `next`, which has no bounds check: a read before `begin` fails.
  shift_back : (cur : ℕ) (val : A) (a : List A) → Option (List A)
  shift_back zero val a = none
  shift_back (suc next) val a = do
    v ← get_elem? a next
    let further = store a (suc next) v >>= λ b. shift_back next val b
    if comp val v then further else store a (suc next) val

  -- The loop over `it`, with `rounds` elements left.
  insert_from : (rounds it : ℕ) (a : List A) → Option (List A)
  insert_from zero it a = some a
  insert_from (suc rounds) it a = do
    val ← get_elem? a it
    first ← get_elem? a 0
    b ← if comp val first then (move_backward it a >>= λ b. store b 0 val) else shift_back it val a
    insert_from rounds (suc it) b

  pub insertion_sort : List A → Option (List A)
  unfolding insert_from
  insertion_sort [] = none
  insertion_sort (x ∷ xs) = insert_from (length xs) 1 (x ∷ xs)

  pub base_case_sort : List A → Option (List A)
  unfolding insertion_sort
  base_case_sort [] = some []
  base_case_sort (x ∷ xs) = insertion_sort (x ∷ xs)

  -- `std::is_sorted`: no element comes before its predecessor.
  unfoldable pub is_sorted_range : List A → Bool
  is_sorted_range [] = true
  is_sorted_range (x ∷ []) = true
  is_sorted_range (x ∷ y ∷ l) =
      let rest = is_sorted_range (y ∷ l) in if comp y x then false else rest

  -- The loop that looks for an ascent.
  no_ascent : List A → Bool
  no_ascent [] = true
  no_ascent (x ∷ []) = true
  no_ascent (x ∷ y ∷ l) = let rest = no_ascent (y ∷ l) in if comp x y then false else rest

  pub sorted_case_sort : List A → SortedCase A
  unfolding is_sorted_range no_ascent last_of
  sorted_case_sort [] = record { sorted = true; range = [] }
  sorted_case_sort (x ∷ l) =
      if not (comp (last_of x l) x)
      then record { sorted = is_sorted_range (x ∷ l); range = x ∷ l }
      else if no_ascent (x ∷ l)
      then record { sorted = true; range = rev_onto (x ∷ l) [] }
      else record { sorted = false; range = x ∷ l }

  -- What thread `my_id` of `isSorted` finds out: its stripe and the next element after it.
  pub stripe_sorted : (num_threads my_id : ℕ) → List A → Bool
  unfolding is_sorted_range
  stripe_sorted num_threads my_id a =
      let size = length a in
      let stripe = (size + num_threads - 1) / num_threads in
      let my_begin = min (stripe * my_id) size in
      let my_end = min (stripe * (my_id + 1) + 1) size in
      is_sorted_range (take (my_end - my_begin) (drop my_begin a))

  -- One access of a thread to the flags, in a parallel check with `num_threads` threads. A
  -- `std::vector<bool>` packs flags into words of `bits` bits: a thread that sets its own flag stores
  -- those of the same word as it has loaded them.
  pub access : (bits num_threads : ℕ) → List A → Access → Flags → Flags
  unfolding stripe_sorted
  access bits num_threads a (load_word my_id) s = record s {
    copies = λ i. if i == my_id then s.flags else s.copies i;
  }
  access bits num_threads a (store_word my_id) s = record s {
    flags = λ i.
        if i == my_id
        then stripe_sorted num_threads my_id a
        else if i / bits == my_id / bits
        then s.copies my_id i
        else s.flags i;
  }

  pub accesses : (bits num_threads : ℕ) → List A → List Access → Flags → Flags
  unfolding access
  accesses bits num_threads a [] s = s
  accesses bits num_threads a (x ∷ schedule) s =
      accesses bits num_threads a schedule (access bits num_threads a x s)

  -- `isSorted`, with the accesses of all threads in the order of `schedule`
  pub is_sorted : (bits : ℕ) (schedule : List Access) (num_threads : ℕ) → List A → Bool
  unfolding accesses all_flags
  is_sorted bits schedule num_threads a =
      all_flags num_threads (accesses bits num_threads a schedule no_flags).flags
