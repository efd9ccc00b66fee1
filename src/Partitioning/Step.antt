-- ===== src/Partitioning/Step.antt =====
-- Classification and distribution of a range, one after the other: the partition that a sequential step
-- makes, before it finishes its buckets.
use ps4o.Base.{
  All, Perm, ℕ, suc, ◌+◌, ◌*◌, ◌≤◌, ◌<◌, ◌≡◌, refl, ap, ◌∙◌, Bool, bit, Option, none, some, List,
  [], ◌∷◌, map, arith, length, length-map, get_elem?, take, replicate, map_option, Cells,
  length-replicate, IsStrictWeak,
}
use ps4o.Config.{Config, max_buckets}
use ps4o.Classifier.Rank.{bucket_of, bucket_of-lt}
use ps4o.Classifier.Search.{IsBuilt}
use ps4o.LocalClassification.{sequential_classification}
use ps4o.LocalClassification.Counts.{count, classify_locally_lem, All-of_map}
use ps4o.LocalClassification.Scan.{prefix, find_boundaries_lem}
use ps4o.Memory.{LocalData, read_range}
use ps4o.Sampling.{Buckets}
use ps4o.Partitioning.{Partitioned, classify_and_distribute}
use ps4o.Partitioning.Regions.{join_buckets}
use ps4o.Partitioning.Distribute.{pick}
use ps4o.Partitioning.Grouped.{join_buckets-perm}
use ps4o.Partitioning.Scatter.{distribute_elements_lem}

module _ {ℓ} {A : Type ℓ} where
  take_all :
      (vs : List A) → map_option (λ (c : Option A). c) (take (length vs) (map some vs)) ≡ some vs
  take_all [] = refl
  take_all (v ∷ vs) = rw (take_all vs)

  pub read_all : (vs : List A) → read_range 0 (length vs) (map some vs) ≡ some vs
  unfolding read_range
  read_all vs =
      ap (λ k. map_option (λ (c : Option A). c) (take k (map some vs))) (omega arith) ∙ take_all vs

module _ {ℓ} {A : Type ℓ} {G : Type 0} (comp : A → A → Bool) where
  -- The values have moved to the other array, bucket by bucket, in order within each, and the
  -- boundaries of the buckets have been saved.
  pub record IsPartitioned (num : ℕ) (oracle : List ℕ) (values : List A) (p : Partitioned A G)
      : Type ℓ where
    pub moved : p.arrays.src ≡ replicate (length values) none
    pub grouped : p.arrays.tmp ≡ map some (join_buckets num 0 (λ b. pick b oracle values))
    pub same_elements : Perm (join_buckets num 0 (λ b. pick b oracle values)) values
    pub boundaries :
        (j : ℕ) → j ≤ num → get_elem? p.bucket_start_save j ≡ some (prefix (λ b. count b oracle) j)

  -- What the data of the thread have room for
  pub record HasRoom (cfg : Config) (num : ℕ) (d : LocalData A G) : Type 0 where
    pub sizes : num ≤ length d.bucket_size
    pub starts : num < length d.bucket_start
    pub saved : num < max_buckets cfg + 1

  module _ (w : IsStrictWeak comp) (cfg : Config) (s : List A) (d : LocalData A G)
      (built : IsBuilt comp s d.classifier) where
    -- With a strict weak ordering, a classifier built from the splitters `s`, at most 256 buckets, as
    -- many as that classifier has, for which the thread has room, and a range of live elements that is
    -- as long as the other array and at least as long as a block of the unrolled loop, which is not
    -- empty: the step succeeds, the same elements move to the other array bucket by bucket, in order within
    -- each, their places are left empty, and the boundaries of the buckets are saved.
    pub classify_and_distribute_lem :
        (b : Buckets) (values : List A) (tmp : Cells A)
        → b.num_buckets ≡ suc (length s) * (1 + bit b.use_equal_buckets)
        → b.num_buckets ≤ 256
        → HasRoom cfg b.num_buckets d
        → 0 < cfg.unroll_classifier
        → cfg.unroll_classifier ≤ length values
        → length tmp ≡ length values
        → (p : Partitioned A G) × (classify_and_distribute comp cfg b d
              (record { src = map some values; tmp = tmp })
            ≡ some p)
          × IsPartitioned b.num_buckets (map (bucket_of comp b.use_equal_buckets s) values) values p
    unfolding classify_and_distribute sequential_classification
    classify_and_distribute_lem b values tmp en small room pos long same =
        let (r, er, k) =
          classify_locally_lem comp w s d.classifier built cfg b.use_equal_buckets b.num_buckets
            values d.bucket_size en small room.sizes pos long in
        let (bs, eb, m) =
          find_boundaries_lem b.num_buckets (λ j. count j oracle) r.bucket_size d.bucket_start
            (replicate (max_buckets cfg + 1) 0) k.counts room.starts
            (omega (arith, room.saved, length-replicate {A = ℕ} (max_buckets cfg + 1) 0)) in
        let (ends, ed) =
          distribute_elements_lem b.num_buckets oracle values tmp
            (record { labels = labels; cells = same; buckets = labelled }) bs.bucket_start
            m.starts in
        (
          record {
            local = record d { bucket_start = ends; bucket_size = r.bucket_size };
            arrays = record {
              src = replicate (length values) none;
              tmp = map some (join_buckets b.num_buckets 0 (λ j. pick j oracle values));
            };
            buckets = b;
            bucket_start_save = bs.bucket_start_save;
          },
          rw (length-map some values) (rw (read_all values) (rw er (rw eb (rw k.oracle (rw ed))))),
          record {
            moved = refl;
            grouped = refl;
            same_elements = join_buckets-perm b.num_buckets oracle values labels labelled;
            boundaries = m.saved;
          },
        )
      where
        oracle : List ℕ
        oracle = map (bucket_of comp b.use_equal_buckets s) values

        labels : length oracle ≡ length values
        labels = length-map (bucket_of comp b.use_equal_buckets s) values

        labelled : All (λ o. o < b.num_buckets) oracle
        labelled =
            All-of_map (bucket_of comp b.use_equal_buckets s) b.num_buckets
              (λ x. omega (arith, en, bucket_of-lt comp w b.use_equal_buckets s x)) values
