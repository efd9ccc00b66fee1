-- ===== src/Partitioning/Layout.antt =====
-- The regions that a target is cut into by the boundaries of the buckets.
use ps4o.Base.{
  ℕ, zero, suc, ◌+◌, ◌≤◌, ◌<◌, ◌≡◌, refl, ap, ◌∙◌, some, List, [], ◌∷◌, ◌++◌, arith, length,
  get_elem?, take, drop, Cells, length-take, length-drop, take-append-drop,
}
use mathlib.Core.Path.{ap₂}
use ps4o.LocalClassification.Scan.{prefix, prefix_mono}
use ps4o.Partitioning.Regions.{Region, cells_of, starts_of, room_of, filled_of}

module _ {ℓ} {A : Type ℓ} where
  -- The regions before the distribution, of the sizes that have been counted
  abbrev pub regions_of : (rounds k : ℕ) (size : ℕ → ℕ) (cells : Cells A) → List (Region A)
  regions_of zero k size cells = []
  regions_of (suc rounds) k size cells =
      record { filled = []; room = take (size k) cells }
      ∷ regions_of rounds (suc k) size (drop (size k) cells)

  pub length-regions_of :
      (rounds k : ℕ) (size : ℕ → ℕ) (cells : Cells A)
      → length (regions_of rounds k size cells) ≡ rounds
  length-regions_of zero k size cells = refl
  length-regions_of (suc rounds) k size cells =
      ap suc (length-regions_of rounds (suc k) size (drop (size k) cells))

  pub filled_of-regions_of :
      (rounds k j : ℕ) (size : ℕ → ℕ) (cells : Cells A)
      → filled_of (regions_of rounds k size cells) j ≡ []
  filled_of-regions_of zero k j size cells = refl
  filled_of-regions_of (suc rounds) k zero size cells = refl
  filled_of-regions_of (suc rounds) k (suc j) size cells =
      filled_of-regions_of rounds (suc k) j size (drop (size k) cells)

  nil_of_length : (cells : Cells A) → length cells ≡ 0 → [] ≡ cells
  nil_of_length [] h = refl
  nil_of_length (c ∷ cells) h = absurd (omega arith)

  -- `cells` are those of the buckets from `k` up to `last`.
  pub record Covers (rounds k last : ℕ) (size : ℕ → ℕ) (cells : Cells A) : Type ℓ where
    pub count : last ≡ k + rounds
    pub space : prefix size k + length cells ≡ prefix size last

  module _ {rounds k last : ℕ} {size : ℕ → ℕ} {cells : Cells A}
      (c : Covers (suc rounds) k last size cells) where
    Covers-first : size k ≤ length cells
    unfolding prefix
    Covers-first = omega (arith, c.space, prefix_mono size (suc k) last (omega (arith, c.count)))

    Covers-rest : Covers rounds (suc k) last size (drop (size k) cells)
    unfolding prefix
    Covers-rest = record {
      count = omega (arith, c.count);
      space = omega (arith, c.space, length-drop (size k) cells, Covers-first);
    }

  pub cells_of-regions_of :
      (rounds k last : ℕ) (size : ℕ → ℕ) (cells : Cells A)
      → Covers rounds k last size cells
      → cells_of (regions_of rounds k size cells) ≡ cells
  cells_of-regions_of zero k last size cells c =
      let same : last ≡ k = omega (arith, c.count) in
      nil_of_length cells (omega (arith, c.space, ap (prefix size) same))
  cells_of-regions_of (suc rounds) k last size cells c =
      ap (λ d. take (size k) cells ++ d)
        (cells_of-regions_of rounds (suc k) last size (drop (size k) cells) (Covers-rest c))
      ∙ take-append-drop (size k) cells

  pub room_of-regions_of :
      (rounds k last : ℕ) (size : ℕ → ℕ) (cells : Cells A) (j m : ℕ)
      → Covers rounds k last size cells
      → m ≡ k + j
      → j < rounds
      → room_of (regions_of rounds k size cells) j ≡ size m
  room_of-regions_of zero k last size cells j m c e h = absurd (omega arith)
  room_of-regions_of (suc rounds) k last size cells zero m c e h = omega (
    arith,
    length-take (size k) cells,
    Covers-first c,
    ap size (let e' : m ≡ k = omega arith in e'),
  )
  room_of-regions_of (suc rounds) k last size cells (suc j) m c e h =
      room_of-regions_of rounds (suc k) last size (drop (size k) cells) j m (Covers-rest c)
        (omega arith) (omega arith)

  pub room_of-beyond :
      (rounds k : ℕ) (size : ℕ → ℕ) (cells : Cells A) (j : ℕ)
      → rounds ≤ j
      → room_of (regions_of rounds k size cells) j ≡ 0
  room_of-beyond zero k size cells j h = refl
  room_of-beyond (suc rounds) k size cells zero h = absurd (omega arith)
  room_of-beyond (suc rounds) k size cells (suc j) h =
      room_of-beyond rounds (suc k) size (drop (size k) cells) j (omega arith)

  -- The boundaries are where the regions begin.
  pub starts_of-regions_of :
      (rounds k last base : ℕ) (size : ℕ → ℕ) (cells : Cells A) (starts : List ℕ)
      → Covers rounds k last size cells
      → base ≡ prefix size k
      → ((j m : ℕ) → j < rounds → m ≡ k + j → get_elem? starts j ≡ some (prefix size m))
      → starts ≡ starts_of base (regions_of rounds k size cells) (drop rounds starts)
  unfolding prefix
  starts_of-regions_of zero k last base size cells starts c b at = refl
  starts_of-regions_of (suc rounds) k last base size cells [] c b at =
      let e = at 0 k (omega arith) (omega arith) in cc
  starts_of-regions_of (suc rounds) k last base size cells (x ∷ starts) c b at =
      let e = at 0 k (omega arith) (omega arith) in
      let first : x ≡ prefix size k = cc in
      ap₂ ◌∷◌ (omega arith) (
        starts_of-regions_of rounds (suc k) last (base + (0 + length (take (size k) cells))) size
          (drop (size k) cells) starts (Covers-rest c)
          (omega (arith, length-take (size k) cells, Covers-first c))
          (λ j m lt e. at (suc j) m (omega arith) (omega arith)))
