-- ===== src/Sampling/Whole.antt =====
-- The whole of `buildClassifier`, for a sort of the sample that sorts.
use ps4o.Base.{
  ℕ, zero, suc, ◌-◌, ◌*◌, ◌^◌, ◌≤◌, ◌<◌, ◌≡◌, refl, ap, ◌∙◌, max, Bool, Option, some, List, [], ◌∷◌,
  ◌++◌, map, Perm, arith, take, drop, length, length-map, length-take, length-drop, length-append,
  length-perm, take-append-drop, Cells, IsSorted, IsStrictWeak,
}
use mathlib.Core.List.{map-append}
use mathlib.Core.List.Perm
use ps4o.Config.{Config, log_buckets, oversampling_factor}
use ps4o.Config.Bounds.{two_pow_mono, two_pow_pos}
use ps4o.Classifier.{Classifier}
use ps4o.Memory.{RandomSource, LocalData, Arrays}
use ps4o.Sampling.{Buckets, select_sample, build_from_sample, build_classifier}
use ps4o.Sampling.Ready.{IsSized, IsReady, IsUnusedElsewhere}
use ps4o.Sampling.Build.{IsClassifier, build_from_sample_lem}
use ps4o.Sampling.Untouched.{build_from_sample-IsConfined}
use ps4o.Sampling.Select.{select_sample_lem}

mul_pos : (a b : ℕ) → 0 < a → 0 < b → 0 < a * b
mul_pos a b h k = grind arith

module _ {ℓ} {A : Type ℓ} where
  take-map : (n : ℕ) (vs : List A) → take n (map some vs) ≡ map some (take n vs)
  take-map zero vs = refl
  take-map (suc n) [] = refl
  take-map (suc n) (v ∷ vs) = ap (λ l. some v ∷ l) (take-map n vs)

  drop-map : (n : ℕ) (vs : List A) → drop n (map some vs) ≡ map some (drop n vs)
  drop-map zero vs = refl
  drop-map (suc n) [] = refl
  drop-map (suc n) (v ∷ vs) = drop-map n vs

  module _ {G : Type 0} (comp : A → A → Bool) (cfg : Config) where
    -- What a sort in the user's array makes of it and of the thread
    pub record IsSort (vs : List A) (e : LocalData A G) (ws : List A) (tmp : Cells A) : Type ℓ where
      pub ready : IsReady cfg e
      pub sorted : IsSorted comp ws
      pub same_elements : Perm ws vs
      pub same_length : length tmp ≡ length vs

    -- It sorts any range of this length.
    abbrev pub Sorts : (LocalData A G → Arrays A → Option (LocalData A G × Arrays A)) → ℕ → Type ℓ
    Sorts sort n =
        (d : LocalData A G) (vs : List A) (tmp : Cells A)
        → length vs ≡ n
        → length tmp ≡ n
        → IsReady cfg d
        → (e : LocalData A G) × (ws : List A) × (tmp' : Cells A) × (sort d
              (record { src = map some vs; tmp = tmp })
            ≡ some (e, record { src = map some ws; tmp = tmp' }))
          × IsSort vs e ws tmp'

    module _ (random : RandomSource G) (w : IsStrictWeak comp) where
      abbrev step_of : ℕ → ℕ
      step_of n = max 1 (oversampling_factor cfg n)

      -- The classifier, the thread and the permuted range
      pub record IsPrepared (vs us s : List A) (e : LocalData A G) (tmp : Cells A) (b : Buckets)
          : Type ℓ where
        pub sized : IsSized cfg e
        pub unused : IsUnusedElsewhere e.classifier
        pub classifier :
            IsClassifier comp random cfg w
              (log_buckets cfg (length vs))
              (length e.classifier.storage)
              (length e.classifier.sorted_storage)
              s
              e.classifier
              b
        pub same_elements : Perm us vs
        pub same_length : length tmp ≡ length vs

      -- The steps of the code, one after the other
      build_classifier-steps :
          (sort : LocalData A G → Arrays A → Option (LocalData A G × Arrays A))
          (d e : LocalData A G) (vs ws sample : List A) (tmp tmp' : Cells A) (g : G) (m : ℕ)
          (c : Classifier A) (b : Buckets)
          → m ≡ step_of (length vs) * 2 ^ log_buckets cfg (length vs) - 1
          → select_sample random m 0 (length vs) (map some vs) d.random_generator
            ≡ some (map some ws, g)
          → sort
              (record d { random_generator = g })
              (record { src = map some (take m ws); tmp = take m tmp })
            ≡ some (e, record { src = map some sample; tmp = tmp' })
          → build_from_sample comp random cfg
              (step_of (length vs))
              (2 ^ log_buckets cfg (length vs))
              (map some sample)
              e.classifier
            ≡ some (c, b)
          → build_classifier comp random cfg sort d (record { src = map some vs; tmp = tmp })
            ≡ some (
              record e { classifier = c },
              record { src = map some (sample ++ drop m ws); tmp = tmp' ++ drop m tmp },
              b,
            )
      unfolding build_classifier
      build_classifier-steps sort d e vs ws sample tmp tmp' g m c b num drawn sorted built =
          rw (length-map some vs) (
            rw (← num) (
              rw drawn (
                rw (take-map m ws, drop-map m ws)
                  (rw sorted (rw built (rw (map-append some sample (drop m ws)) refl))))))

      -- The sample, `m` elements in front, drawn and sorted
      record IsDrawn (sort : LocalData A G → Arrays A → Option (LocalData A G × Arrays A))
          (d e : LocalData A G) (vs ws sample : List A) (tmp tmp' : Cells A) (g : G) (m : ℕ)
          : Type ℓ where
        drawn :
            select_sample random m 0 (length vs) (map some vs) d.random_generator
            ≡ some (map some ws, g)
        sorts :
            sort
              (record d { random_generator = g })
              (record { src = map some (take m ws); tmp = take m tmp })
            ≡ some (e, record { src = map some sample; tmp = tmp' })
        ready : IsReady cfg e
        ascending : IsSorted comp sample
        sample_elements : Perm sample (take m ws)
        same_elements : Perm ws vs
        size : length sample ≡ m
        room : length tmp' ≡ m

      draw_lem :
          (sort : LocalData A G → Arrays A → Option (LocalData A G × Arrays A)) (d : LocalData A G)
          (vs : List A) (tmp : Cells A) (m : ℕ)
          → IsReady cfg d
          → length tmp ≡ length vs
          → m ≤ length vs
          → Sorts sort m
          → (ws : List A) × (g : G) × (e : LocalData A G) × (sample : List A) × (tmp' : Cells A)
            × IsDrawn sort d e vs ws sample tmp tmp' g m
      draw_lem sort d vs tmp m ready same le sorts =
          let (ws, g, drawn, p) =
            select_sample_lem random m 0 (length vs) vs d.random_generator (omega arith) le in
          let part : length (take m ws) ≡ m = omega (arith, length-take m ws, length-perm p) in
          let (e, sample, tmp', sorted, k) =
            sorts (record d { random_generator = g }) (take m ws) (take m tmp) part
              (omega (arith, length-take m tmp))
              (record {
                sized = record {
                  starts = ready.sized.starts;
                  sizes = ready.sized.sizes;
                  tree = ready.sized.tree;
                  sorted = ready.sized.sorted;
                };
                levels = ready.levels;
                tree = ready.tree;
                sorted = ready.sorted;
              }) in
          (
            ws,
            g,
            e,
            sample,
            tmp',
            record {
              drawn = drawn;
              sorts = sorted;
              ready = k.ready;
              ascending = k.sorted;
              sample_elements = k.same_elements;
              same_elements = p;
              size = omega (arith, length-perm k.same_elements, part);
              room = omega (arith, k.same_length, part);
            },
          )

      prepare_lem :
          {sort : LocalData A G → Arrays A → Option (LocalData A G × Arrays A)} (step : ℕ)
          (d e : LocalData A G) (vs ws sample : List A) (tmp tmp' : Cells A) {g : G} (m : ℕ)
          → IsDrawn sort d e vs ws sample tmp tmp' g m
          → length tmp ≡ length vs
          → suc m ≡ step * 2 ^ log_buckets cfg (length vs)
          → m ≤ length vs
          → 1 ≤ log_buckets cfg (length vs)
          → log_buckets cfg (length vs) ≤ cfg.max_log_buckets
          → cfg.max_log_buckets ≤ 8
          → 0 < step
          → (s : List A) × (c : Classifier A) × (b : Buckets) × (build_from_sample comp random cfg
                step
                (2 ^ log_buckets cfg (length vs))
                (map some sample)
                e.classifier
              ≡ some (c, b))
            × IsPrepared vs
                (sample ++ drop m ws)
                s
                (record e { classifier = c })
                (tmp' ++ drop m tmp)
                b
      prepare_lem step d e vs ws sample tmp tmp' m h same num le one top eight pos =
          let up = two_pow_mono top in
          let (s, c, b, built, cl) =
            build_from_sample_lem comp random cfg w step (log_buckets cfg (length vs)) sample
              e.classifier pos one (omega arith) h.ascending (omega (arith, h.size, num))
              (omega (arith, up, h.ready.sized.tree)) (omega (arith, up, h.ready.sized.sorted)) in
          let two : 2 ≤ 2 ^ log_buckets cfg (length vs) = two_pow_mono {i = 1} one in
          let few : 2 ^ log_buckets cfg (length vs) ≤ 2 ^ 8 = two_pow_mono {j = 8} (omega arith) in
          let same_cells =
            build_from_sample-IsConfined comp random cfg step (2 ^ log_buckets cfg (length vs))
              (map some sample) e.classifier c b two few built in
          (
            s,
            c,
            b,
            built,
            record {
              sized = record {
                starts = h.ready.sized.starts;
                sizes = h.ready.sized.sizes;
                tree = omega (arith, cl.same_tree, h.ready.sized.tree);
                sorted = omega (arith, cl.same_sorted, h.ready.sized.sorted);
              };
              unused = record {
                root = same_cells.root ∙ h.ready.tree 0;
                tree = λ i le. same_cells.tree i le ∙ h.ready.tree i;
                sorted = λ i le. same_cells.sorted i le ∙ h.ready.sorted i;
              };
              classifier = record {
                built = cl.built;
                buckets = cl.buckets;
                bound = cl.bound;
                allowed = cl.allowed;
                same_tree = refl;
                same_sorted = refl;
              };
              same_elements =
                  Perm.trans (Perm.append_right (drop m ws) h.sample_elements)
                    (rw (take-append-drop m ws) h.same_elements);
              same_length =
                  omega (arith, length-append tmp' (drop m tmp), length-drop m tmp, h.room, same);
            },
          )

      pub build_classifier_lem :
          (sort : LocalData A G → Arrays A → Option (LocalData A G × Arrays A)) (d : LocalData A G)
          (vs : List A) (tmp : Cells A)
          → IsReady cfg d
          → length tmp ≡ length vs
          → 1 ≤ log_buckets cfg (length vs)
          → log_buckets cfg (length vs) ≤ cfg.max_log_buckets
          → cfg.max_log_buckets ≤ 8
          → step_of (length vs) * 2 ^ log_buckets cfg (length vs) ≤ length vs
          → Sorts sort (step_of (length vs) * 2 ^ log_buckets cfg (length vs) - 1)
          → (us : List A) × (s : List A) × (e : LocalData A G) × (tmp' : Cells A) × (b : Buckets)
            × (build_classifier comp random cfg sort d (record { src = map some vs; tmp = tmp })
                ≡ some (e, record { src = map some us; tmp = tmp' }, b))
            × IsPrepared vs us s e tmp' b
      build_classifier_lem sort d vs tmp ready same one top eight fits sorts =
          let pos : 0 < step_of (length vs) * 2 ^ log_buckets cfg (length vs) =
            mul_pos (step_of (length vs)) (2 ^ log_buckets cfg (length vs)) (omega arith)
              (two_pow_pos (log_buckets cfg (length vs))) in
          let (ws, g, e, sample, tmp', h) =
            draw_lem sort d vs tmp (step_of (length vs) * 2 ^ log_buckets cfg (length vs) - 1) ready
              same (omega arith) sorts in
          let (s, c, b, built, prepared) =
            prepare_lem (step_of (length vs)) d e vs ws sample tmp tmp' _ h same
              (omega (arith, pos)) (omega arith) one top eight (omega arith) in
          (
            sample ++ drop (step_of (length vs) * 2 ^ log_buckets cfg (length vs) - 1) ws,
            s,
            record e { classifier = c },
            tmp' ++ drop (step_of (length vs) * 2 ^ log_buckets cfg (length vs) - 1) tmp,
            b,
            build_classifier-steps sort d e vs ws sample tmp tmp' g _ c b refl h.drawn h.sorts
                built,
            prepared,
          )
