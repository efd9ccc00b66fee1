-- ===== src/Sequential/LastLevel.antt =====
-- The sequential algorithm on ranges that one level partitions.
use ps4o.Base.{
  ℕ, zero, suc, ◌-◌, ◌*◌, ◌^◌, ◌≤◌, ◌<◌, ◌≡◌, refl, ap, ◌∙◌, max, Bool, true, Option, none, some,
  replicate, length-replicate, le→leb, lt→leb, List, map, arith, length, length-map, length-perm,
  Cells, IsStrictWeak,
}
use native.Mathlib.Decide.{dec_le}
use ps4o.BaseCase.Insertion.{base_case_sort_lem}
use ps4o.Config.{Config, single_level_threshold, log_buckets, oversampling_factor}
use ps4o.Memory.{RandomSource, LocalData}
use ps4o.Partitioning.{Partitioned, partition}
use ps4o.Partitioning.Step.{read_all}
use ps4o.Partitioning.Whole.{IsSortedStep, after_preparation}
use ps4o.Sampling.Ready.{IsReady}
use ps4o.Sampling.Whole.{IsSort, Sorts, build_classifier_lem}
use ps4o.Sequential.{sort_base_case, sequential}

-- For ranges that are no base cases and that one level partitions, the sample is shorter than the range,
-- and the other parameters are in bounds.
pub record IsSampled (cfg : Config) : Type 0 where
  pub base : 0 < cfg.base_case_size
  pub few : cfg.max_log_buckets ≤ 7
  pub unroll : (0 < cfg.unroll_classifier) × (cfg.unroll_classifier ≤ 2 * cfg.base_case_size)
  pub one :
      (n : ℕ) → 2 * cfg.base_case_size < n → n ≤ single_level_threshold cfg → 1 ≤ log_buckets cfg n
  pub top :
      (n : ℕ)
      → 2 * cfg.base_case_size < n
      → n ≤ single_level_threshold cfg
      → log_buckets cfg n ≤ cfg.max_log_buckets
  pub shorter :
      (n : ℕ)
      → 2 * cfg.base_case_size < n
      → n ≤ single_level_threshold cfg
      → max 1 (oversampling_factor cfg n) * 2 ^ log_buckets cfg n ≤ n

module _ {ℓ} {A : Type ℓ} {G : Type 0} (comp : A → A → Bool) (random : RandomSource G)
    (cfg : Config) (w : IsStrictWeak comp) where
  sort_base_case-Sorts : (n : ℕ) → Sorts comp cfg (sort_base_case comp random cfg true) n
  unfolding sort_base_case
  sort_base_case-Sorts n d vs tmp len room ready =
      let (ws, e, asc, p) = base_case_sort_lem comp w vs in
      (
        d,
        ws,
        tmp,
        rw (length-map some vs) (rw (read_all vs) (rw e refl)),
        record { ready = ready; sorted = asc; same_elements = p; same_length = omega arith },
      )

  -- The recursion, for a range that is no base case
  sequential-large :
      (fuel : ℕ) (d : LocalData A G) (vs : List A) (tmp : Cells A) (q : Partitioned A G)
      → 2 * cfg.base_case_size < length vs
      → length vs ≤ single_level_threshold cfg
      → partition comp random cfg
          (sequential comp random cfg fuel true)
          true
          true
          d
          (record { src = map some vs; tmp = tmp })
        ≡ some q
      → sequential comp random cfg (suc fuel) true d (record { src = map some vs; tmp = tmp })
        ≡ some (q.local, q.arrays)
  unfolding sequential
  sequential-large fuel d vs tmp q large fits e = rw (length-map some vs) (
      rw
        (
          lt→leb (length vs) (2 * cfg.base_case_size) large,
          le→leb (length vs) (single_level_threshold cfg) fits,
        )
        (rw e refl))

  sequential-small :
      (fuel : ℕ) (d : LocalData A G) (vs : List A) (tmp : Cells A)
      → length vs ≤ 2 * cfg.base_case_size
      → sequential comp random cfg (suc fuel) true d (record { src = map some vs; tmp = tmp })
        ≡ sort_base_case comp random cfg true d (record { src = map some vs; tmp = tmp })
  unfolding sequential
  sequential-small fuel d vs tmp small =
      rw (length-map some vs) (rw (le→leb (length vs) (2 * cfg.base_case_size) small) refl)

  -- One level, if the recursion sorts the sample
  step-Sorts :
      (fuel : ℕ) (d : LocalData A G) (vs : List A) (tmp : Cells A)
      → IsSampled cfg
      → IsReady cfg d
      → length tmp ≡ length vs
      → 2 * cfg.base_case_size < length vs
      → length vs ≤ single_level_threshold cfg
      → Sorts comp cfg
          (sequential comp random cfg fuel true)
          (max 1 (oversampling_factor cfg (length vs)) * 2 ^ log_buckets cfg (length vs) - 1)
      → (q : Partitioned A G) × (ws : List A) × (partition comp random cfg
            (sequential comp random cfg fuel true)
            true
            true
            d
            (record { src = map some vs; tmp = tmp })
          ≡ some q)
        × IsSortedStep comp random cfg w true vs ws q
  step-Sorts fuel d vs tmp h ready room large fits sorts =
      let top = h.top (length vs) large fits in
      let few : cfg.max_log_buckets ≤ 8 = omega (arith, h.few) in
      let (us, s, e, tmp', b, built, prepared) =
        build_classifier_lem comp cfg random w (sequential comp random cfg fuel true) d vs tmp ready
          room (h.one (length vs) large fits) top few (h.shorter (length vs) large fits) sorts in
      after_preparation comp random cfg w (sequential comp random cfg fuel true) true d e vs us s
        tmp tmp' b built prepared top h.few h.unroll.0 (omega (arith, h.unroll.1))

  -- Every range that one level partitions
  pub sequential-Sorts :
      (fuel n : ℕ)
      → IsSampled cfg
      → 0 < fuel
      → n ≤ fuel
      → n ≤ single_level_threshold cfg
      → Sorts comp cfg (sequential comp random cfg fuel true) n
  sequential-Sorts zero n h pos le fits = absurd (omega arith)
  sequential-Sorts (suc fuel) n h pos le fits = λ d vs tmp len room ready.
      elim (dec_le (length vs) (2 * cfg.base_case_size)) [
        | yes small ↦
            let (e, ws, tmp', eq, k) = sort_base_case-Sorts n d vs tmp len room ready in
            (e, ws, tmp', sequential-small fuel d vs tmp small ∙ eq, k)
        | no large ↦
            let shorter = h.shorter (length vs) (omega arith) (omega arith) in
            let (q, ws, eq, k) =
              step-Sorts fuel d vs tmp h ready (omega arith) (omega arith) (omega arith) (
                sequential-Sorts fuel _ h (omega (arith, h.base)) (omega (arith, shorter))
                  (omega (arith, shorter))) in
            (
              q.local,
              ws,
              replicate (length ws) none,
              sequential-large fuel d vs tmp q (omega arith) (omega arith) eq
                  ∙ ap (λ a. some (q.local, a)) k.arrays,
              record {
                ready = k.ready;
                sorted = k.ascending;
                same_elements = k.same_elements;
                same_length =
                    length-replicate {A = Option A} (length ws) none ∙ length-perm k.same_elements;
              },
            )
      ]

  -- With a strict weak ordering, parameters in bounds, and as much fuel as there are elements, at least
  -- one, and for a thread whose bucket arrays have the declared lengths, whose classifier has in both
  -- storages at least `2 ^ max_log_buckets` cells, no levels and no object: `sequential` sorts in the
  -- user's array every range that one level partitions. It succeeds whatever the generator draws and
  -- whatever the other array holds, leaves the same elements in ascending order, and leaves the thread
  -- as it needs it for the next range: of the same sizes, and with a classifier that is reset, without
  -- levels and without an object in any cell.
  pub sequential_lem :
      (fuel : ℕ) (d : LocalData A G) (vs : List A) (tmp : Cells A)
      → IsSampled cfg
      → IsReady cfg d
      → length tmp ≡ length vs
      → 0 < fuel
      → length vs ≤ fuel
      → length vs ≤ single_level_threshold cfg
      → (e : LocalData A G) × (ws : List A) × (tmp' : Cells A) × (sequential comp random cfg fuel
            true d
            (record { src = map some vs; tmp = tmp })
          ≡ some (e, record { src = map some ws; tmp = tmp' }))
        × IsSort comp cfg vs e ws tmp'
  sequential_lem fuel d vs tmp h ready room pos le fits =
      sequential-Sorts fuel (length vs) h pos le fits d vs tmp refl room ready
