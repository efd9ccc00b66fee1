-- ===== src/Partitioning/Lengths.antt =====
-- What classification and distribution leave of the data of a thread.
use ps4o.Base.{
  ℕ, zero, suc, ◌+◌, ◌≡◌, sym, ap, ◌∙◌, Bool, some, >>=-eq-some, List, length, get_elem?, store,
  replicate, length-store, fetch, construct, destroy,
}
use mathlib.Core.Option.{some-injective}
use ps4o.Config.{Config, max_buckets}
use ps4o.LocalClassification.{
  Sequential, classify_locally, find_boundaries, sequential_classification,
}
use ps4o.LocalClassification.Lengths.{length-classify_locally, length-find_boundaries}
use ps4o.Memory.{Arrays, LocalData, read_range}
use ps4o.Sampling.{Buckets}
use ps4o.Partitioning.{Distributed, distribute_elements, Partitioned, classify_and_distribute}

module _ {ℓ} {A : Type ℓ} where
  length-distribute_elements :
      (rounds i : ℕ) (oracle : List ℕ) (d e : Distributed A)
      → distribute_elements rounds i oracle d ≡ some e
      → length e.bucket_start ≡ length d.bucket_start
  unfolding distribute_elements
  length-distribute_elements zero i oracle d e h =
      ap (λ (c : Distributed A). length c.bucket_start) (sym (some-injective _ _ h))
  length-distribute_elements (suc rounds) i oracle d e h =
      let (b, eb, h1) = >>=-eq-some (get_elem? oracle i) _ h in
      let (at, ea, h2) = >>=-eq-some (get_elem? d.bucket_start b) _ h1 in
      let (v, ev, h3) = >>=-eq-some (fetch d.arrays.src i) _ h2 in
      let (tmp, et, h4) = >>=-eq-some (construct d.arrays.tmp at v) _ h3 in
      let (src, es, h5) = >>=-eq-some (destroy d.arrays.src i) _ h4 in
      let (starts, put, h6) = >>=-eq-some (store d.bucket_start b (at + 1)) _ h5 in
      length-distribute_elements rounds (suc i) oracle
        (record { arrays = record { src = src; tmp = tmp }; bucket_start = starts }) e h6
      ∙ length-store d.bucket_start starts b (at + 1) put

  module _ {G : Type 0} where
    -- The arrays of a thread have kept their lengths, and its classifier is the same.
    pub record KeepsData (d e : LocalData A G) : Type ℓ where
      pub starts : length e.bucket_start ≡ length d.bucket_start
      pub sizes : length e.bucket_size ≡ length d.bucket_size
      pub classifier : e.classifier ≡ d.classifier

    pub classify_and_distribute-KeepsData :
        (comp : A → A → Bool) (cfg : Config) (b : Buckets) (d : LocalData A G) (a : Arrays A)
        (p : Partitioned A G)
        → classify_and_distribute comp cfg b d a ≡ some p
        → KeepsData d p.local
    unfolding classify_and_distribute sequential_classification
    classify_and_distribute-KeepsData comp cfg b d a p h =
        let (values, ev, h1) = >>=-eq-some (read_range 0 (length a.src) a.src) _ h in
        let (r, er, h2) =
          >>=-eq-some
            (sequential_classification comp cfg b.use_equal_buckets b.num_buckets d.classifier
              values d.bucket_size d.bucket_start (replicate (max_buckets cfg + 1) 0))
            _ h1 in
        let (done, ed, h3) =
          >>=-eq-some
            (distribute_elements (length a.src) 0 r.classified.oracle
              (record { arrays = a; bucket_start = r.boundaries.bucket_start }))
            _ h2 in
        let (c, ec, g1) =
          >>=-eq-some
            (classify_locally comp cfg b.use_equal_buckets b.num_buckets d.classifier values
              d.bucket_size)
            _ er in
        let (f, ef, g2) =
          >>=-eq-some
            (find_boundaries b.num_buckets c.bucket_size d.bucket_start
              (replicate (max_buckets cfg + 1) 0))
            _ g1 in
        let same = sym (some-injective _ _ h3) in
        let both = sym (some-injective _ _ g2) in
        record {
          starts =
              ap (λ (q : Partitioned A G). length q.local.bucket_start) same
              ∙ length-distribute_elements (length a.src) 0 r.classified.oracle
                  (record { arrays = a; bucket_start = r.boundaries.bucket_start }) done ed
              ∙ ap (λ (q : Sequential). length q.boundaries.bucket_start) both
              ∙ length-find_boundaries b.num_buckets c.bucket_size d.bucket_start
                  (replicate (max_buckets cfg + 1) 0) f ef;
          sizes =
              ap (λ (q : Partitioned A G). length q.local.bucket_size) same
              ∙ ap (λ (q : Sequential). length q.classified.bucket_size) both
              ∙ length-classify_locally comp cfg b.use_equal_buckets b.num_buckets d.classifier
                  values d.bucket_size c ec;
          classifier = ap (λ (q : Partitioned A G). q.local.classifier) same;
        }
