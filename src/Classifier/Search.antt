-- ===== src/Classifier/Search.antt =====
-- `descend` in a tree that `build` made finds the rank, so that `classify` finds the bucket.
use ps4o.Base.{
  ℕ, zero, suc, ◌+◌, ◌-◌, ◌*◌, ◌^◌, ◌≤◌, ◌<◌, ◌≡◌, refl, ap, ◌∙◌, Bool, true, false, Bool-cases,
  inl, inr, some, List, arith, length, get_elem?, get_elem?-some, get_elem?-lt, fetch, IsStrictWeak,
  IsSorted, le-lt_trans,
}
use ps4o.Classifier.{Classifier, descend}
use ps4o.Classifier.Rank.{rank, Low, High, rank-eq, IsSorted-get}
use ps4o.Classifier.Tree.{IsTree}
use ps4o.Config.Bounds.{two_pow, two_pow_pos}
use native.Mathlib.Nat.{add-zero}
use native.Mathlib.Decide.{ℕ_discrete}

module _ {ℓ} {A : Type ℓ} (comp : A → A → Bool) where
  -- A classifier after `build` from the splitters `s`.
  pub record IsBuilt (s : List A) (c : Classifier A) : Type ℓ where
    pub ascending : IsSorted comp s
    pub levels : (1 ≤ c.log_buckets) × (c.log_buckets ≤ 8)
    pub buckets : c.num_buckets ≡ 2 ^ c.log_buckets
    pub full : suc (length s) ≡ c.num_buckets
    pub splitters : (i : ℕ) → i < length s → fetch c.sorted_storage i ≡ get_elem? s i
    pub duplicate : fetch c.sorted_storage (length s) ≡ get_elem? s (length s - 1)
    pub tree : IsTree c.sorted_storage c.storage c.log_buckets 1 0

module _ {ℓ} {A : Type ℓ} (comp : A → A → Bool) (w : IsStrictWeak comp) where
  module _ (s : List A) (v : A) (h : IsSorted comp s) where
    Low-intro : (m : ℕ) (x : A) → get_elem? s m ≡ some x → comp x v ≡ true → Low comp s v (suc m)
    Low-intro m x e less i y lt p = elim (ℕ_discrete i m) [
      | yes same ↦ cc
      | no ne ↦ le-lt_trans w y x v (IsSorted-get comp s h i m y x (omega arith) p e) less
    ]

    High-intro : (m : ℕ) (x : A) → get_elem? s m ≡ some x → comp x v ≡ false → High comp s v m
    High-intro m x e ge i y le p = elim (ℕ_discrete m i) [
      | yes same ↦ cc
      | no ne ↦ w.le_trans v x y ge (IsSorted-get comp s h m i x y (omega arith) e p)
    ]

    descend_lem :
        (c : Classifier A) (j pos first last : ℕ)
        → ((i : ℕ) → i < length s → fetch c.sorted_storage i ≡ get_elem? s i)
        → IsTree c.sorted_storage c.storage j pos first
        → last ≡ first + 2 ^ j - 1
        → last ≤ length s
        → Low comp s v first
        → High comp s v last
        → (b r : ℕ) × (descend comp j pos c v ≡ some b)
          × (b + first ≡ pos * 2 ^ j + r)
          × (r ≤ length s)
          × Low comp s v r
          × High comp s v r
    unfolding descend
    descend_lem c zero pos first last same tree el le lo hi =
        let e : last ≡ first = omega arith in
        (pos, first, refl, omega arith, omega arith, lo, rw e at hi)
    descend_lem c (suc j) pos first last same tree el le lo hi =
        let m : ℕ = first + 2 ^ j - 1 in
        let (x, ex) = get_elem?-some s m (omega (arith, two_pow j, two_pow_pos j)) in
        let at : fetch c.storage pos ≡ some x =
          tree.0 ∙ same m (omega (arith, two_pow j, two_pow_pos j)) ∙ ex in
        elim (Bool-cases (comp x v)) [
          | inl less ↦
              let m' : suc m ≡ first + 2 ^ j = omega (arith, two_pow_pos j) in
              let (b, r, run, e, le', lo', hi') =
                descend_lem c j (2 * pos + 1) (first + 2 ^ j) last same tree.2
                  (omega (arith, two_pow j, two_pow_pos j)) le (rw m' at (Low-intro m x ex less))
                  hi in
              (
                b,
                r,
                rw (at, less) run,
                omega (arith, ap (λ (t : ℕ). pos * t) (two_pow j)),
                le',
                lo',
                hi',
              )
          | inr ge ↦
              let (b, r, run, e, le', lo', hi') =
                descend_lem c j (2 * pos) first m same tree.1 refl
                  (omega (arith, two_pow j, two_pow_pos j)) lo (High-intro m x ex ge) in
              (
                b,
                r,
                rw (at, ge, add-zero) run,
                omega (arith, ap (λ (t : ℕ). pos * t) (two_pow j)),
                le',
                lo',
                hi',
              )
        ]

  -- The search from the root
  pub descend_root :
      (s : List A) (c : Classifier A) (v : A)
      → IsBuilt comp s c
      → descend comp c.log_buckets 1 c v ≡ some (c.num_buckets + rank comp s v)
  descend_root s c v b =
      let (d, r, run, e, le, lo, hi) =
        descend_lem s v b.ascending c c.log_buckets 1 0 (length s) b.splitters b.tree
          (omega (arith, b.full, b.buckets)) (omega arith) (λ i x lt p. absurd (omega arith))
          (λ i x ge p. absurd (omega (arith, get_elem?-lt s i p))) in
      let same : d ≡ c.num_buckets + rank comp s v =
        omega (arith, b.buckets, rank-eq comp s v r le lo hi) in
      rw (← same) run
