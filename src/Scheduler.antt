-- ===== src/Scheduler.antt =====
-- include/ps4o/scheduler.hpp: the queue that a thread owns.
pub mod Refinement
use ps4o.Base.{
  ℕ, zero, suc, ◌+◌, ◌-◌, Bool, if◌then◌else◌, ltb, ◌==◌, Option, none, some, ◌>>=◌, List, [], ◌∷◌,
  ◌++◌, length, get_elem?,
}

-- `m_v` and `m_off`
pub record PrivateQueue {ℓ} (A : Type ℓ) : Type ℓ where
  pub v : List A
  pub off : ℕ

module _ {ℓ} {A : Type ℓ} where
  -- The last element of a vector, and the vector without it
  unfoldable pub back : List A → Option A
  back [] = none
  back (x ∷ []) = some x
  back (x ∷ y ∷ l) = back (y ∷ l)

  unfoldable pub pop_back_vector : List A → List A
  pop_back_vector [] = []
  pop_back_vector (x ∷ []) = []
  pop_back_vector (x ∷ y ∷ l) = x ∷ pop_back_vector (y ∷ l)

  -- The constructor
  unfoldable pub empty_queue : PrivateQueue A
  empty_queue = record { v = []; off = 0 }

  -- `push` of a range
  unfoldable pub push : List A → PrivateQueue A → PrivateQueue A
  push es q = record q { v = q.v ++ es }

  unfoldable pub emplace : A → PrivateQueue A → PrivateQueue A
  emplace e q = record q { v = q.v ++ e ∷ [] }

  unfoldable pub size : PrivateQueue A → ℕ
  size q = length q.v - q.off

  unfoldable pub is_empty : PrivateQueue A → Bool
  unfolding size
  is_empty q = size q == 0

  unfoldable pub clear : PrivateQueue A → PrivateQueue A
  clear q = record { v = []; off = 0 }

  -- `if (m_v.size() == m_off) clear();`
  unfoldable pub clear_if_done : PrivateQueue A → PrivateQueue A
  unfolding clear
  clear_if_done q = if length q.v == q.off then clear q else q

  -- `popBack`, with its assertion
  unfoldable pub pop_back : PrivateQueue A → Option (A × PrivateQueue A)
  unfolding clear_if_done
  pop_back q =
      if ltb q.off (length q.v)
      then (back q.v >>= λ e. some (e, clear_if_done (record q { v = pop_back_vector q.v })))
      else none

  -- `popFront`, with its assertion
  unfoldable pub pop_front : PrivateQueue A → Option (A × PrivateQueue A)
  unfolding clear_if_done
  pop_front q =
      if ltb q.off (length q.v)
      then (get_elem? q.v q.off >>= λ e. some (e, clear_if_done (record q { off = q.off + 1 })))
      else none
