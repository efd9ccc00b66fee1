-- ===== src/ParallelPartitioning/Boundaries.antt =====
-- The buckets in which a stripe begins and ends, from the boundaries of the buckets.
use ps4o.Base.{
  ℕ, zero, suc, ◌+◌, ◌-◌, ◌≤◌, ◌<◌, ◌≡◌, refl, ap, lt→ltb, le→ltb, some, List, arith, get_elem?,
}
use native.Mathlib.Decide.{ℕ_discrete, dec_lt}
use ps4o.ParallelPartitioning.{find_first, find_last}

-- The saved boundaries of `n` buckets ascend.
pub record IsBoundaries (saved : List ℕ) (n : ℕ) (start : ℕ → ℕ) : Type 0 where
  pub holds : (j : ℕ) → j ≤ n → get_elem? saved j ≡ some (start j)
  pub ascending : (i j : ℕ) → i ≤ j → j ≤ n → start i ≤ start j

module _ (saved : List ℕ) (n : ℕ) (start : ℕ → ℕ) (h : IsBoundaries saved n start) where
  -- The loop that goes down finds the bucket that contains the begin of the stripe.
  pub find_first_lem :
      (k first my_begin : ℕ)
      → first ≤ k
      → k ≤ n
      → start first ≤ my_begin
      → my_begin < start (suc first)
      → find_first saved my_begin k ≡ some first
  unfolding find_first
  find_first_lem zero first b le top lo hi =
      let e : first ≡ 0 = omega arith in
      let low : start 0 ≤ b = rw (ap start e) at lo in
      rw (h.holds 0 (omega arith)) (rw (le→ltb b (start 0) low, e) refl)
  find_first_lem (suc k) first b le top lo hi = elim (ℕ_discrete first (suc k)) [
    | yes e ↦
        let low : start (suc k) ≤ b = rw (ap start e) at lo in
        rw (h.holds (suc k) top) (rw (le→ltb b (start (suc k)) low, e) refl)
    | no ne ↦
        let up : b < start (suc k) =
          omega (arith, hi, h.ascending (suc first) (suc k) (omega arith) top) in
        rw (h.holds (suc k) top) (
          rw (lt→ltb b (start (suc k)) up)
            (find_first_lem k first b (omega arith) (omega arith) lo hi))
  ]

  -- The loop that goes up finds the first bucket that does not begin before the end of the stripe.
  pub find_last_lem :
      (fuel d p last my_end : ℕ)
      → p + d ≡ last
      → last ≤ n
      → d < fuel
      → (0 < d → start (last - 1) < my_end)
      → my_end ≤ start last
      → find_last saved fuel my_end p ≡ some last
  unfolding find_last
  find_last_lem zero d p last m e le lt below above = absurd (omega arith)
  find_last_lem (suc fuel) zero p last m e le lt below above =
      let same : p ≡ last = omega arith in
      rw same (rw (h.holds last le) (rw (le→ltb (start last) m above) refl))
  find_last_lem (suc fuel) (suc d) p last m e le lt below above =
      let less : start p < m =
        omega (arith, below (omega arith), h.ascending p (last - 1) (omega arith) (omega arith)) in
      rw (h.holds p (omega arith)) (
        rw (lt→ltb (start p) m less) (
          find_last_lem fuel d (suc p) last m (omega arith) le (omega arith)
            (λ pos. below (omega arith)) above))

  -- It finds one if the stripe ends before the last bucket does.
  pub find_last-some :
      (fuel d p my_end : ℕ)
      → p + d ≡ n
      → d < fuel
      → my_end ≤ start n
      → (last : ℕ) × (find_last saved fuel my_end p ≡ some last) × (p ≤ last) × (last ≤ n)
  unfolding find_last
  find_last-some zero d p m e lt above = absurd (omega arith)
  find_last-some (suc fuel) d p m e lt above = elim (dec_lt (start p) m) [
    | yes less ↦
        let more : 0 < d = elim (ℕ_discrete d 0) [
          | yes none_left ↦
              let same : start p ≡ start n = ap start (omega arith) in absurd (omega arith)
          | no ne ↦ omega arith
        ] in
        let (last, found, lo, hi) =
          find_last-some fuel (d - 1) (suc p) m (omega arith) (omega arith) above in
        (last, rw (h.holds p (omega arith)) (rw (lt→ltb (start p) m less) found), omega arith, hi)
    | no ge ↦ (
      p,
      rw (h.holds p (omega arith)) (rw (le→ltb (start p) m (omega arith)) refl),
      omega arith,
      omega arith,
    )
  ]
