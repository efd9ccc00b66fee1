-- ===== src/LocalClassification/Scan.antt =====
-- `find_boundaries`: the boundaries are the prefix sums of the sizes.
use ps4o.Base.{
  ℕ, zero, suc, ◌+◌, ◌≤◌, ◌<◌, ◌≡◌, refl, sym, ap, ◌∙◌, some, List, arith, length, get_elem?,
  store-some, get_elem?-store_self, get_elem?-store_other, length-store,
}
use ps4o.LocalClassification.{Boundaries, partial_sum, find_boundaries}
use ps4o.LocalClassification.Arrays.{fill_lem}
use native.Mathlib.Decide.{ℕ_discrete}

-- The elements in the buckets below `j`
unfoldable pub prefix : (size : ℕ → ℕ) → ℕ → ℕ
prefix size zero = 0
prefix size (suc j) = prefix size j + size j

pub prefix_zero : (size : ℕ → ℕ) → prefix size 0 ≡ 0
unfolding prefix
prefix_zero size = refl

pub prefix_mono : (size : ℕ → ℕ) (i j : ℕ) → i ≤ j → prefix size i ≤ prefix size j
unfolding prefix
prefix_mono size i zero h = let e : i ≡ 0 = omega arith in rw e (omega arith)
prefix_mono size i (suc j) h = elim (ℕ_discrete i (suc j)) [
  | yes e ↦ rw e (omega arith)
  | no ne ↦ omega (arith, prefix_mono size i j (omega arith))
]

partial_sum_lem :
    (rounds i num : ℕ) (size : ℕ → ℕ) (sizes starts : List ℕ)
    → num ≡ i + rounds
    → num < length starts
    → ((j : ℕ) → j < num → get_elem? sizes j ≡ some (size j))
    → ((j : ℕ) → j ≤ i → get_elem? starts j ≡ some (prefix size j))
    → (b : List ℕ) × (partial_sum rounds i (prefix size i) sizes starts ≡ some b)
      × (length b ≡ length starts)
      × ((j : ℕ) → j ≤ num → get_elem? b j ≡ some (prefix size j))
unfolding partial_sum prefix
partial_sum_lem zero i num size sizes starts e room es before =
    (starts, refl, refl, λ j p. before j (omega arith))
partial_sum_lem (suc rounds) i num size sizes starts e room es before =
    let (c, ec) = store-some starts (suc i) (prefix size (suc i)) (omega arith) in
    let n = length-store starts c (suc i) (prefix size (suc i)) ec in
    let (b, eb, nb, all) =
      partial_sum_lem rounds (suc i) num size sizes c (omega arith) (omega arith) es (λ j p.
        elim (ℕ_discrete j (suc i)) [
          | yes same ↦
              ap (get_elem? c) same
              ∙ get_elem?-store_self starts c (suc i) (prefix size (suc i)) ec
              ∙ ap (λ k. some (prefix size k)) (sym same)
          | no ne ↦
              get_elem?-store_other starts c (suc i) j (prefix size (suc i)) ec ne
              ∙ before j (omega arith)
        ]) in
    (b, rw (es i (omega arith)) (rw ec eb), nb ∙ n, all)

-- The boundaries of `num` buckets in both arrays, the end of the last bucket included
pub record HasBoundaries (num : ℕ) (size : ℕ → ℕ) (b : Boundaries) : Type 0 where
  pub starts : (j : ℕ) → j ≤ num → get_elem? b.bucket_start j ≡ some (prefix size j)
  pub saved : (j : ℕ) → j ≤ num → get_elem? b.bucket_start_save j ≡ some (prefix size j)

-- From the sizes of the buckets, whatever stood before in the two arrays, which have room for one
-- more entry than there are buckets, both get the boundaries.
pub find_boundaries_lem :
    (num : ℕ) (size : ℕ → ℕ) (sizes starts saved : List ℕ)
    → ((j : ℕ) → j < num → get_elem? sizes j ≡ some (size j))
    → num < length starts
    → num < length saved
    → (b : Boundaries) × (find_boundaries num sizes starts saved ≡ some b)
      × HasBoundaries num size b
unfolding find_boundaries prefix
find_boundaries_lem num size sizes starts saved es room room' =
    let (c, ec) = store-some starts 0 0 (omega arith) in
    let n = length-store starts c 0 0 ec in
    let (b, eb, nb, all) =
      partial_sum_lem num 0 num size sizes c (omega arith) (omega arith) es (λ j p.
        let same : j ≡ 0 = omega arith in
        ap (get_elem? c) same
        ∙ get_elem?-store_self starts c 0 0 ec
        ∙ ap (λ k. some (prefix size k)) (sym same)) in
    let (d, ed, f) =
      fill_lem (num + 1) 0 (num + 1) (get_elem? b) saved (omega arith) (omega arith)
        (λ j p. (prefix size j, all j (omega arith))) in
    (
      record { bucket_start = b; bucket_start_save = d },
      rw ec (rw eb (rw ed)),
      record { starts = all; saved = λ j p. f.inside j (omega arith) (omega arith) ∙ all j p },
    )
