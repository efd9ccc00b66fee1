-- ===== src/Partitioning/Whole.antt =====
-- The whole of `partition<false>` on the last level.
use ps4o.Base.{
  ℕ, suc, ◌+◌, ◌*◌, ◌^◌, ◌≤◌, ◌<◌, ◌≡◌, refl, sym, ap, ◌∙◌, Bool, true, false, bit, Option, some,
  List, map, Perm, arith, length, length-perm, Cells, IsSorted, IsStrictWeak,
}
use mathlib.Core.List.Perm
use ps4o.Config.{Config, log_buckets}
use ps4o.Config.Bounds.{two_pow, two_pow_mono}
use ps4o.Classifier.{Classifier, reset}
use ps4o.Classifier.Reset.{reset_lem}
use ps4o.Classifier.Search.{IsBuilt}
use ps4o.Memory.{RandomSource, LocalData, Arrays, reset_local}
use ps4o.Sampling.{Buckets, build_classifier}
use ps4o.Sampling.Build.{IsClassifier}
use ps4o.Sampling.Ready.{IsSized, IsReady, IsUnusedElsewhere}
use ps4o.Sampling.Whole.{IsPrepared}
use native.Mathlib.Decide.{dec_lt}
use ps4o.Partitioning.{Partitioned, classify_and_distribute, finish_buckets, partition}
use ps4o.Partitioning.LastLevel.{result, buckets_of, last_level_lem}
use ps4o.Partitioning.Lengths.{KeepsData, classify_and_distribute-KeepsData}
use ps4o.Partitioning.Step.{HasRoom}

-- Room for equality buckets, where they are allowed
enough_buckets :
    (lb top n : ℕ) (equal allow : Bool)
    → (equal ≡ true → allow ≡ true)
    → n ≤ 2 ^ lb
    → lb ≤ top
    → n * (1 + bit equal) ≤ 2 ^ (top + bit allow)
enough_buckets lb top n false allow h le up =
    omega (arith, two_pow_mono {i = lb} {j = top + bit allow} (omega arith))
enough_buckets lb top n true true h le up =
    let more : top + 1 ≡ suc top = omega arith in
    rw more (omega (arith, two_pow top, two_pow_mono {i = lb} {j = top} up))
enough_buckets lb top n true false h le up = let e : false ≡ true = h refl in cc

module _ {ℓ} {A : Type ℓ} {G : Type 0} (comp : A → A → Bool) (random : RandomSource G)
    (cfg : Config) where
  partition-steps :
      (sort : LocalData A G → Arrays A → Option (LocalData A G × Arrays A))
      (last_level in_input_array : Bool) (d e : LocalData A G) (a a' c : Arrays A) (b : Buckets)
      (p : Partitioned A G) (r : Classifier A)
      → build_classifier comp random cfg sort d a ≡ some (e, a', b)
      → classify_and_distribute comp cfg b e a' ≡ some p
      → finish_buckets comp cfg p.bucket_start_save in_input_array last_level b p.arrays ≡ some c
      → reset p.local.classifier ≡ some r
      → partition comp random cfg sort last_level in_input_array d a
        ≡ some (record p { local = record p.local { classifier = r }; arrays = c })
  unfolding partition reset_local
  partition-steps sort last_level in_input_array d e a a' c b p r build distribute finish clear =
      rw build (rw distribute (rw finish (rw clear refl)))

  -- The numbers of buckets agree, and the thread has room for them.
  module _ (w : IsStrictWeak comp) where
    same_buckets :
        {lb m n : ℕ} (s : List A) (c : Classifier A) (b : Buckets)
        → IsClassifier comp random cfg w lb m n s c b
        → b ≡ buckets_of b.use_equal_buckets s
    same_buckets s c b h = λ i. record {
      num_buckets = (h.buckets ∙ ap (λ k. k * (1 + bit b.use_equal_buckets)) (sym h.built.full)) i;
      use_equal_buckets = b.use_equal_buckets;
    }

    HasRoom-buckets :
        {lb m n : ℕ} (s : List A) (e : LocalData A G) (b : Buckets)
        → IsSized cfg e
        → IsClassifier comp random cfg w lb m n s e.classifier b
        → lb ≤ cfg.max_log_buckets
        → HasRoom comp cfg (suc (length s) * (1 + bit b.use_equal_buckets)) e
    HasRoom-buckets {lb} s e b ready h top =
        let enough =
          enough_buckets lb cfg.max_log_buckets (suc (length s)) b.use_equal_buckets
            cfg.allow_equal_buckets h.allowed (omega (arith, h.bound, h.built.full)) top in
        record {
          sizes = omega (arith, ready.sizes, enough);
          starts = omega (arith, ready.starts, enough);
          saved = omega (arith, enough);
        }

    few_buckets :
        {lb m n : ℕ} (s : List A) (c : Classifier A) (b : Buckets)
        → IsClassifier comp random cfg w lb m n s c b
        → lb ≤ cfg.max_log_buckets
        → cfg.max_log_buckets ≤ 7
        → suc (length s) * (1 + bit b.use_equal_buckets) ≤ 256
    few_buckets {lb} s c b h top seven = omega (
      arith,
      enough_buckets lb 7 (suc (length s)) b.use_equal_buckets true (λ e. refl)
          (omega (arith, h.bound, h.built.full)) (omega arith),
    )

    -- A thread after a step
    IsReady-reset :
        (s : List A) (d e : LocalData A G)
        → IsSized cfg d
        → IsUnusedElsewhere d.classifier
        → KeepsData d e
        → IsBuilt comp s d.classifier
        → (r : Classifier A) × (reset e.classifier ≡ some r)
          × IsReady cfg (record e { classifier = r })
    IsReady-reset s d e sized unused keeps built =
        let (r, eq, done, tree, sorted) = reset_lem comp s d.classifier built in
        (
          r,
          ap reset keeps.classifier ∙ eq,
          record {
            sized = record {
              starts = keeps.starts ∙ sized.starts;
              sizes = keeps.sizes ∙ sized.sizes;
              tree = omega (arith, tree.same_length, sized.tree);
              sorted = omega (arith, sorted.same_length, sized.sorted);
            };
            levels = done;
            tree = λ i. elim (dec_lt i d.classifier.num_buckets) [
              | yes lt ↦ elim (dec_lt 0 i) [
                | yes pos ↦ tree.gone i pos lt
                | no zero_cell ↦
                    let first : i ≡ 0 = omega arith in
                    rw first (tree.below 0 (omega arith) ∙ unused.root)
              ]
              | no ge ↦ tree.above i (omega arith) ∙ unused.tree i (omega arith)
            ];
            sorted = λ i. elim (dec_lt i d.classifier.num_buckets) [
              | yes lt ↦ sorted.gone i (omega arith) lt
              | no ge ↦ sorted.above i (omega arith) ∙ unused.sorted i (omega arith)
            ];
          },
        )

    -- What a whole step on the last level leaves
    pub record IsSortedStep (in_input_array : Bool) (vs ws : List A) (q : Partitioned A G)
        : Type ℓ where
      pub arrays : q.arrays ≡ result in_input_array ws
      pub ready : IsReady cfg q.local
      pub ascending : IsSorted comp ws
      pub same_elements : Perm ws vs

    pub after_preparation :
        (sort : LocalData A G → Arrays A → Option (LocalData A G × Arrays A))
        (in_input_array : Bool) (d e : LocalData A G) (vs us s : List A) (tmp tmp' : Cells A)
        (b : Buckets)
        → build_classifier comp random cfg sort d (record { src = map some vs; tmp = tmp })
          ≡ some (e, record { src = map some us; tmp = tmp' }, b)
        → IsPrepared comp cfg random w vs us s e tmp' b
        → log_buckets cfg (length vs) ≤ cfg.max_log_buckets
        → cfg.max_log_buckets ≤ 7
        → 0 < cfg.unroll_classifier
        → cfg.unroll_classifier ≤ length vs
        → (q : Partitioned A G) × (ws : List A) × (partition comp random cfg sort true
              in_input_array d
              (record { src = map some vs; tmp = tmp })
            ≡ some q)
          × IsSortedStep in_input_array vs ws q
    after_preparation sort in_input_array d e vs us s tmp tmp' b built h top seven pos long =
        let len = length-perm h.same_elements in
        let (p, ws, distributed, finished, ascending, perm) =
          last_level_lem comp w cfg s e b.use_equal_buckets in_input_array us tmp'
            h.classifier.built (few_buckets s e.classifier b h.classifier top seven)
            (HasRoom-buckets s e b h.sized h.classifier top) pos (omega (arith, len))
            (omega (arith, len, h.same_length)) in
        let keeps =
          classify_and_distribute-KeepsData comp cfg (buckets_of b.use_equal_buckets s) e
            (record { src = map some us; tmp = tmp' }) p distributed in
        let (r, clear, ready) =
          IsReady-reset s e p.local h.sized h.unused keeps h.classifier.built in
        (
          record p { local = record p.local { classifier = r }; arrays = result in_input_array ws },
          ws,
          partition-steps sort true in_input_array d e _ _ _ (buckets_of b.use_equal_buckets s) p r
              (built
                ∙ ap (λ (x : Buckets). some (e, record { src = map some us; tmp = tmp' }, x))
                    (same_buckets s e.classifier b h.classifier))
              distributed finished clear,
          record {
            arrays = refl;
            ready = ready;
            ascending = ascending;
            same_elements = Perm.trans perm h.same_elements;
          },
        )
