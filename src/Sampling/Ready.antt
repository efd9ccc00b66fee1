-- ===== src/Sampling/Ready.antt =====
-- What the data of a thread must be like for a sort, and what its classifier is like in between.
use ps4o.Base.{ℕ, ◌+◌, ◌^◌, ◌≤◌, ◌≡◌, none, length, fetch}
use ps4o.Config.{Config, max_buckets}
use ps4o.Classifier.{Classifier}
use ps4o.Memory.{LocalData}

module _ {ℓ} {A : Type ℓ} where
  -- The arrays of a thread have the lengths that the class declares, and the storages of its classifier
  -- have room for as many buckets as one level can ask for.
  pub record IsSized {G : Type 0} (cfg : Config) (d : LocalData A G) : Type 0 where
    pub starts : length d.bucket_start ≡ max_buckets cfg + 1
    pub sizes : length d.bucket_size ≡ max_buckets cfg
    pub tree : 2 ^ cfg.max_log_buckets ≤ length d.classifier.storage
    pub sorted : 2 ^ cfg.max_log_buckets ≤ length d.classifier.sorted_storage

  -- Besides, the classifier is reset: it has no levels, and no cell of its storages has an object.
  pub record IsReady {G : Type 0} (cfg : Config) (d : LocalData A G) : Type ℓ where
    pub sized : IsSized cfg d
    pub levels : d.classifier.log_buckets ≡ 0
    pub tree : (i : ℕ) → fetch d.classifier.storage i ≡ none
    pub sorted : (i : ℕ) → fetch d.classifier.sorted_storage i ≡ none

  -- A classifier has objects only in the cells that its buckets use.
  pub record IsUnusedElsewhere (c : Classifier A) : Type ℓ where
    pub root : fetch c.storage 0 ≡ none
    pub tree : (i : ℕ) → c.num_buckets ≤ i → fetch c.storage i ≡ none
    pub sorted : (i : ℕ) → c.num_buckets ≤ i → fetch c.sorted_storage i ≡ none
