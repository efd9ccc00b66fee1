-- ===== src/Classifier/Tree.antt =====
-- `build` fills the tree: the node at `pos` with `j` levels below it, for the buckets from `first` on,
-- holds the splitter in the middle of them.
use ps4o.Base.{
  ℕ, zero, suc, ◌+◌, ◌-◌, ◌*◌, ◌/◌, ◌^◌, ◌≤◌, ◌<◌, ◌≡◌, ◌≢◌, refl, sym, ◌∙◌, ap, Option, some,
  arith, lt→ltb, le→ltb, length, Cells, fetch, construct, store-some, fetch-store_self,
  fetch-store_other, length-store,
}
use native.Mathlib.Decide.{dec_lt, ℕ_discrete}
use ps4o.Classifier.{build_tree}
use ps4o.Config.Bounds.{two_pow, two_pow_pos}

-- The node `i` levels above `p`
abbrev pub ancestor : ℕ → ℕ → ℕ
ancestor zero p = p
ancestor (suc i) p = ancestor i p / 2

ancestor-le : (i p : ℕ) → ancestor i p ≤ p
ancestor-le zero p = omega arith
ancestor-le (suc i) p = omega (arith, ancestor-le i p)

ancestor-lt : (i j p : ℕ) → j < i → ancestor i p ≤ ancestor j p / 2
ancestor-lt zero j p h = absurd (omega arith)
ancestor-lt (suc i) j p h = elim (ℕ_discrete i j) [
  | yes e ↦ rw e (omega arith)
  | no ne ↦ omega (arith, ancestor-lt i j p (omega arith))
]

mul-pos : (a b : ℕ) → 0 < b → a ≤ a * b
mul-pos a b h = grind arith

-- No node lies below both children of one.
ancestor-disjoint : (i j p pos : ℕ) → 0 < pos → ancestor i p ≡ 2 * pos → ancestor j p ≢ 2 * pos + 1
ancestor-disjoint i j p pos h a b = elim (ℕ_discrete i j) [
  | yes e ↦ let a' : ancestor j p ≡ 2 * pos = rw e at a in omega arith
  | no ne ↦ elim (dec_lt i j) [
    | yes lt ↦ omega (arith, ancestor-lt j i p lt)
    | no ge ↦ omega (arith, ancestor-lt i j p (omega arith))
  ]
]

-- A call of `build_tree`: the range of splitters is that of the buckets of the node.
record Span (num left right pos first j : ℕ) : Type 0 where
  begins : left ≡ first - 1
  ends : right ≡ first + 2 ^ j - 1
  within : first + 2 ^ j ≤ num
  low : num ≤ pos * 2 ^ j
  high : (pos + 1) * 2 ^ j ≤ 2 * num

module _ {num left right pos first j : ℕ} (s : Span num left right pos first (suc j)) where
  Span-mid : left + (right - left) / 2 ≡ first + 2 ^ j - 1
  Span-mid = omega (arith, s.begins, s.ends, two_pow j, two_pow_pos j)

  Span-left : Span num left (left + (right - left) / 2) (2 * pos) first j
  Span-left = record {
    begins = s.begins;
    ends = Span-mid;
    within = omega (arith, s.within, two_pow j);
    low = omega (arith, s.low, ap (λ (t : ℕ). pos * t) (two_pow j));
    high = omega (arith, s.high, two_pow_pos j, ap (λ (t : ℕ). pos * t) (two_pow j), two_pow j);
  }

  Span-right : Span num (left + (right - left) / 2) right (2 * pos + 1) (first + 2 ^ j) j
  Span-right = record {
    begins = Span-mid;
    ends = omega (arith, s.ends, two_pow j);
    within = omega (arith, s.within, two_pow j);
    low = omega (arith, s.low, ap (λ (t : ℕ). pos * t) (two_pow j));
    high = omega (arith, s.high, two_pow_pos j, ap (λ (t : ℕ). pos * t) (two_pow j), two_pow j);
  }

  Span-pos : pos < num
  Span-pos = omega (
    arith,
    s.high,
    two_pow j,
    two_pow_pos j,
    ap (λ (t : ℕ). pos * t) (two_pow j),
    mul-pos pos (2 ^ j) (two_pow_pos j),
  )

-- A node with two levels below it is not on the last one.
Span-inner :
    {num left right pos first j : ℕ} → Span num left right pos first (suc (suc j)) → 2 * pos < num
Span-inner {pos} {j} s = omega (
  arith,
  s.high,
  two_pow (suc j),
  two_pow j,
  ap (λ (t : ℕ). pos * t) (two_pow (suc j)),
  ap (λ (t : ℕ). pos * t) (two_pow j),
  mul-pos pos (2 ^ j) (two_pow_pos j),
  two_pow_pos j,
)

module _ {ℓ} {A : Type ℓ} where
  abbrev pub IsTree : (sorted tree : Cells A) (j pos first : ℕ) → Type ℓ
  IsTree sorted tree zero pos first = Unit
  IsTree sorted tree (suc j) pos first =
      (fetch tree pos ≡ fetch sorted (first + 2 ^ j - 1))
      × IsTree sorted tree j (2 * pos) first
      × IsTree sorted tree j (2 * pos + 1) (first + 2 ^ j)

  -- What is not at or below `pos` is left alone.
  abbrev pub Frame : (pos : ℕ) (tree t : Cells A) → Type ℓ
  Frame pos tree t = (p : ℕ) → ((i : ℕ) → ancestor i p ≢ pos) → fetch t p ≡ fetch tree p

  IsTree-Frame :
      (sorted tree t : Cells A) (j pos first : ℕ)
      → ((p i : ℕ) → ancestor i p ≡ pos → fetch t p ≡ fetch tree p)
      → IsTree sorted tree j pos first
      → IsTree sorted t j pos first
  IsTree-Frame sorted tree t zero pos first h k = tt
  IsTree-Frame sorted tree t (suc j) pos first h k = (
    h pos 0 refl ∙ k.0,
    IsTree-Frame sorted tree t j (2 * pos) first (λ p i e. h p (suc i) (omega arith)) k.1,
    IsTree-Frame sorted tree t j (2 * pos + 1) (first + 2 ^ j) (λ p i e. h p (suc i) (omega arith))
        k.2,
  )

  -- All splitters are there.
  abbrev pub IsFilled : (num : ℕ) (sorted : Cells A) → Type ℓ
  IsFilled num sorted = (i : ℕ) → i < num → (v : A) × (fetch sorted i ≡ some v)

  -- The node itself, before its children.
  node :
      (sorted tree : Cells A) {num left right pos first j : ℕ}
      → Span num left right pos first (suc j)
      → IsFilled num sorted
      → num ≤ length tree
      → (v : A) × (t : Cells A) × (fetch sorted (left + (right - left) / 2) ≡ some v)
        × (construct tree pos v ≡ some t)
        × (fetch t pos ≡ fetch sorted (first + 2 ^ j - 1))
        × (length t ≡ length tree)
        × Frame pos tree t
  node sorted tree {num} {left} {right} {pos} {first} {j} s full room =
      let (v, ev) = full (first + 2 ^ j - 1) (omega (arith, s.within, two_pow j, two_pow_pos j)) in
      let (t, et) = store-some tree pos (some v) (omega (arith, Span-pos s)) in
      (
        v,
        t,
        rw (Span-mid s) ev,
        et,
        fetch-store_self tree t pos (some v) et ∙ sym ev,
        length-store tree t pos (some v) et,
        λ p apart. fetch-store_other tree t pos p (some v) et (apart 0),
      )

  -- What a call of `build_tree` makes of the storage `tree`.
  abbrev pub Built : (sorted tree : Cells A) (j pos first : ℕ) (result : Option (Cells A)) → Type ℓ
  Built sorted tree j pos first result =
      (t : Cells A) × (result ≡ some t)
      × IsTree sorted t j pos first
      × (length t ≡ length tree)
      × Frame pos tree t

  -- The trees of the children, one built after the other, below a node that is in place.
  Built-children :
      (sorted tree t u r : Cells A) (j pos first : ℕ)
      → 0 < pos
      → (fetch t pos ≡ fetch sorted (first + 2 ^ j - 1))
        × (length t ≡ length tree)
        × Frame pos tree t
      → IsTree sorted u j (2 * pos) first × (length u ≡ length t) × Frame (2 * pos) t u
      → IsTree sorted r j (2 * pos + 1) (first + 2 ^ j)
        × (length r ≡ length u)
        × Frame (2 * pos + 1) u r
      → IsTree sorted r (suc j) pos first × (length r ≡ length tree) × Frame pos tree r
  Built-children sorted tree t u r j pos first h (at, nt, ft) (left, nu, fu) (right, nr, fr) = (
    (
      fr pos (λ i e. omega (arith, ancestor-le i pos))
          ∙ fu pos (λ i e. omega (arith, ancestor-le i pos))
          ∙ at,
      IsTree-Frame sorted u r j (2 * pos) first
          (λ p i e. fr p (λ i'. ancestor-disjoint i i' p pos h e)) left,
      right,
    ),
    nr ∙ nu ∙ nt,
    λ p apart.
        fr p (λ i e. apart (suc i) (omega arith))
        ∙ fu p (λ i e. apart (suc i) (omega arith))
        ∙ ft p apart,
  )

  build_tree_lem :
      (j : ℕ) (sorted tree : Cells A) (num left right pos first : ℕ)
      → Span num left right pos first (suc j)
      → 0 < pos
      → IsFilled num sorted
      → num ≤ length tree
      → Built sorted tree (suc j) pos first (build_tree (suc j) sorted num left right pos tree)
  unfolding build_tree
  build_tree_lem zero sorted tree num left right pos first s p full room =
      let (v, t, ev, et, at, n, apart) = node sorted tree s full room in
      (
        t,
        rw ev (
            rw et (
              rw (
                le→ltb (2 * pos) num (omega (arith, s.low, ap (λ (t : ℕ). pos * t) (two_pow 0)))))),
        (at, tt, tt),
        n,
        apart,
      )
  build_tree_lem (suc j) sorted tree num left right pos first s p full room =
      let (v, t, ev, et, at, n, apart) = node sorted tree s full room in
      let (u, eu, left_tree, nu, fu) =
        build_tree_lem j sorted t num left (left + (right - left) / 2) (2 * pos) first (Span-left s)
          (omega arith) full (omega arith) in
      let (r, er, right_tree, nr, fr) =
        build_tree_lem j sorted u num (left + (right - left) / 2) right (2 * pos + 1)
          (first + 2 ^ suc j) (Span-right s) (omega arith) full (omega arith) in
      let (whole, nw, fw) =
        Built-children sorted tree t u r (suc j) pos first p (at, n, apart) (left_tree, nu, fu)
          (right_tree, nr, fr) in
      (r, rw ev (rw et (rw (lt→ltb (2 * pos) num (Span-inner s)) (rw eu er))), whole, nw, fw)

  -- The tree from the root
  pub build_tree_root :
      (j : ℕ) (sorted tree : Cells A)
      → IsFilled (2 ^ suc j) sorted
      → 2 ^ suc j ≤ length tree
      → Built sorted tree
          (suc j)
          1
          0
          (build_tree (suc j) sorted (2 ^ suc j) 0 (2 ^ suc j - 1) 1 tree)
  build_tree_root j sorted tree full room =
      build_tree_lem j sorted tree (2 ^ suc j) 0 (2 ^ suc j - 1) 1 0 (omega arith) (omega arith)
        full room
