-- ===== src/Partitioning/Scatter.antt =====
-- `distribute_elements` from the boundaries of the buckets is a stable counting sort by bucket.
use ps4o.Base.{
  ℕ, ◌≤◌, ◌<◌, ◌≡◌, refl, sym, ap, ◌∙◌, none, some, List, [], ◌++◌, map, arith, length, get_elem?,
  drop, replicate, Cells, All,
}
use mathlib.Core.Path.{ap₂}
use mathlib.Core.List.{append-nil}
use native.Mathlib.Decide.{dec_lt}
use ps4o.LocalClassification.Counts.{count}
use ps4o.LocalClassification.Scan.{prefix, prefix_zero}
use ps4o.LocalClassification.Totals.{count-beyond, prefix-count}
use ps4o.Partitioning.{distribute_elements}
use ps4o.Partitioning.Regions.{Region, cells_of, starts_of, room_of, join_buckets, cells_of_full}
use ps4o.Partitioning.Layout.{
  regions_of, length-regions_of, filled_of-regions_of, Covers, cells_of-regions_of,
  room_of-regions_of, room_of-beyond, starts_of-regions_of,
}
use ps4o.Partitioning.Distribute.{
  pick, push_all, Fits, distribute_lem, length-push_all, filled_of-push_all, room_of-push_all,
}

module _ {ℓ} {A : Type ℓ} (num : ℕ) (oracle : List ℕ) (values : List A) (tmp : Cells A) where
  -- The regions that the counts of the oracle give
  abbrev regions : List (Region A)
  regions = regions_of num 0 (λ b. count b oracle) tmp

  -- As many target cells as elements, and an oracle of `num` buckets for them
  pub record IsTarget : Type ℓ where
    pub labels : length oracle ≡ length values
    pub cells : length tmp ≡ length values
    pub buckets : All (λ o. o < num) oracle

  module _ (t : IsTarget) where
    covers : Covers num 0 num (λ b. count b oracle) tmp
    unfolding prefix
    covers = record {
      count = omega arith;
      space = omega (arith, prefix-count num oracle t.buckets, t.labels, t.cells);
    }

    room : (k : ℕ) → room_of regions k ≡ count k oracle
    room k = elim (dec_lt k num) [
      | yes p ↦ room_of-regions_of num 0 num (λ b. count b oracle) tmp k k covers (omega arith) p
      | no q ↦
          room_of-beyond num 0 (λ b. count b oracle) tmp k (omega arith)
          ∙ sym (count-beyond num k oracle (omega arith) t.buckets)
    ]

    fits : Fits oracle regions
    fits = record {
      inside = rw (length-regions_of num 0 (λ b. count b oracle) tmp) t.buckets;
      enough = λ k. omega (arith, room k);
    }

    final_cells :
        cells_of (push_all oracle values regions)
        ≡ map some (join_buckets num 0 (λ b. pick b oracle values))
    final_cells =
        cells_of_full (push_all oracle values regions) 0 (λ b. pick b oracle values)
          (λ j. room_of-push_all oracle values regions j t.labels (room j))
          (λ j m lt e.
            filled_of-push_all oracle values regions j fits.inside
            ∙ ap (λ l. l ++ pick j oracle values)
                (filled_of-regions_of num 0 j (λ b. count b oracle) tmp)
            ∙ ap (λ k. pick k oracle values) (omega arith))
        ∙ ap (λ n. map some (join_buckets n 0 (λ b. pick b oracle values)))
            (length-push_all oracle values regions
              ∙ length-regions_of num 0 (λ b. count b oracle) tmp)

    -- When the oracle names a bucket below `num` for every element, the target has as many cells as
    -- there are elements, and `bucket_start` holds the boundaries that the counts of the oracle give,
    -- the distribution succeeds: the target holds the elements bucket by bucket, in order within each,
    -- and every source cell is empty.
    pub distribute_elements_lem :
        (starts : List ℕ)
        → ((j : ℕ) → j ≤ num → get_elem? starts j ≡ some (prefix (λ b. count b oracle) j))
        → (ends : List ℕ) × (distribute_elements (length values) 0 oracle (record {
          arrays = record { src = map some values; tmp = tmp };
          bucket_start = starts;
        })
            ≡ some (record {
              arrays = record {
                src = replicate (length values) none;
                tmp = map some (join_buckets num 0 (λ b. pick b oracle values));
              };
              bucket_start = ends;
            }))
    distribute_elements_lem starts at = (
      starts_of 0 (push_all oracle values regions) (drop num starts),
      ap
            (λ (p : Cells A × List ℕ).
              distribute_elements (length values) 0 oracle (record {
                arrays = record { src = map some values; tmp = p.0 };
                bucket_start = p.1;
              }))
            before
          ∙ distribute_lem oracle [] oracle 0 (length values) values regions (drop num starts) refl
              refl (omega arith) t.labels fits
          ∙ ap₂
              (λ s c. some (record {
                arrays = record { src = s; tmp = c };
                bucket_start = starts_of 0 (push_all oracle values regions) (drop num starts);
              }))
              (append-nil (replicate (length values) none)) final_cells,
    )
      where
        before :
            ◌≡◌ {A = Cells A × List ℕ}
              (tmp, starts)
              (cells_of regions, starts_of 0 regions (drop num starts))
        before =
            ap₂ (λ (c : Cells A) (s : List ℕ). (c, s))
              (sym (cells_of-regions_of num 0 num (λ b. count b oracle) tmp covers))
              (starts_of-regions_of num 0 num 0 (λ b. count b oracle) tmp starts covers
                (sym (prefix_zero (λ b. count b oracle)))
                (λ j m lt e.
                  at j (omega arith)
                  ∙ ap (λ k. some (prefix (λ b. count b oracle) k)) (omega arith)))
