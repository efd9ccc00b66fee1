-- ===== src/Sampling/Build.antt =====
-- `buildClassifier` from the sorted sample on.
use ps4o.Base.{
  ℕ, suc, ◌+◌, ◌-◌, ◌*◌, ◌^◌, ◌≤◌, ◌<◌, ◌≡◌, refl, sym, ap, ◌∙◌, Bool, bit, some, List, [], ◌∷◌,
  map, arith, Cells, IsAbove, construct, leb, ◌&&◌, true, false, length, get_elem?-some, fetch,
  fetch-store_self, store-some, length-store, IsSorted, IsStrictWeak, irrefl,
}
use mathlib.Core.Option.{some-injective}
use ps4o.Config.{Config, log2}
use ps4o.Config.Bounds.{two_pow_mono, log2_bounds, log2-le}
use ps4o.Classifier.{Classifier, build}
use ps4o.Classifier.Lengths.{length-build}
use ps4o.Classifier.Search.{IsBuilt}
use ps4o.Classifier.Classify.{build_lem}
use ps4o.Memory.{RandomSource}
use ps4o.Sampling.{Buckets, Chosen, choose_splitters, pad_splitters, build_from_sample}
use ps4o.Sampling.Select.{fetch-map-some}
use ps4o.Sampling.Choose.{IsChosen, IsStrict-IsSorted, choose_splitters_lem, pad_splitters_lem}

-- The logarithm of the number of buckets that `diff` splitters are filled up to
log2-levels :
    (diff lb : ℕ)
    → 0 < diff
    → diff < 2 ^ lb
    → 1 ≤ lb
    → lb ≤ 8
    → (diff < 2 ^ (log2 diff + 1)) × (log2 diff + 1 ≤ lb) × (2 ^ (log2 diff + 1) ≤ 2 ^ lb)
log2-levels diff lb pos lt one eight =
    let small : diff < 2 ^ 64 = omega (arith, two_pow_mono {i = lb} {j = 64} (omega arith)) in
    let next : log2 diff + 1 ≡ suc (log2 diff) = omega arith in
    let back : suc (lb - 1) ≡ lb = omega arith in
    let le : log2 diff ≤ lb - 1 = log2-le diff (lb - 1) pos small (rw back lt) in
    let up : log2 diff + 1 ≤ lb = omega (arith, le) in
    (rw next (log2_bounds diff pos small).1, up, two_pow_mono up)

both_true : (a b : Bool) → (a && b) ≡ true → a ≡ true
both_true true b h = refl
both_true false b h = cc

two_more : (step k : ℕ) → step * (k + 2) ≡ k * step + 2 * step
two_more step k = grind arith

two_less : (step m : ℕ) → 2 ≤ m → step * m ≡ (m - 2) * step + 2 * step
two_less step m h =
    let e : m ≡ (m - 2) + 2 = omega arith in ap (λ k. step * k) e ∙ two_more step (m - 2)

module _ {ℓ} {A : Type ℓ} {G : Type 0} (comp : A → A → Bool) (random : RandomSource G)
    (cfg : Config) (w : IsStrictWeak comp) where
  -- The first splitter
  first-IsChosen :
      (x : A) (c : Classifier A)
      → 0 < length c.sorted_storage
      → (ds : Cells A) × (construct c.sorted_storage 0 x ≡ some ds)
        × (length ds ≡ length c.sorted_storage)
        × IsChosen comp w (x ∷ []) (record { sorted = ds; last = 0 })
  first-IsChosen x c room =
      let (ds, put) = store-some c.sorted_storage 0 (some x) room in
      (
        ds,
        put,
        length-store c.sorted_storage ds 0 (some x) put,
        record {
          count = refl;
          splitters = λ i lt.
              let start : i ≡ 0 = omega arith in
              rw start (fetch-store_self c.sorted_storage ds 0 (some x) put);
          ascending = (tt, tt);
          greatest =
              λ z e. let same : x ≡ z = some-injective _ _ e in rw (sym same) (irrefl w x, tt);
        },
      )

  -- What `buildClassifier` returns: a classifier of ascending splitters, and the number of its buckets
  pub record IsClassifier (lb tree_room sorted_room : ℕ) (s : List A) (d : Classifier A)
      (b : Buckets) : Type ℓ where
    pub built : IsBuilt comp s d
    pub buckets : b.num_buckets ≡ d.num_buckets * (1 + bit b.use_equal_buckets)
    pub bound : d.num_buckets ≤ 2 ^ lb
    pub allowed : b.use_equal_buckets ≡ true → cfg.allow_equal_buckets ≡ true
    pub same_tree : length d.storage ≡ tree_room
    pub same_sorted : length d.sorted_storage ≡ sorted_room

  -- What the first two loops leave of the sample: the splitters, and the last sample that was seen
  record HasSampled (step n : ℕ) (vs : List A) (c : Classifier A) (x y : A) (first : Cells A)
      (t : List A) (d : Chosen A) : Type ℓ where
    first_sample : fetch (map some vs) (step - 1) ≡ some x
    stored : construct c.sorted_storage 0 x ≡ some first
    chose :
        choose_splitters comp n step (step - 1) (map some vs) (record { sorted = first; last = 0 })
        ≡ some d
    last_sample : fetch (map some vs) (step - 1 + n * step) ≡ some y
    chosen : IsChosen comp w t d
    above : IsAbove comp y t
    few : length t ≤ suc n
    kept : length d.sorted ≡ length c.sorted_storage

  sample_lem :
      (step n : ℕ) (vs : List A) (c : Classifier A)
      → 0 < step
      → IsSorted comp vs
      → step - 1 + n * step < length vs
      → suc n ≤ length c.sorted_storage
      → (x y : A) × (first : Cells A) × (t : List A) × (d : Chosen A) × HasSampled step n vs c x y
          first t d
  sample_lem step n vs c pos asc size room =
      let (x, ex) = get_elem?-some vs (step - 1) (omega arith) in
      let (y, ey) = get_elem?-some vs (step - 1 + n * step) size in
      let (ds, put, kept, first) = first-IsChosen x c (omega arith) in
      let (t, d, chose, has) =
        choose_splitters_lem comp w n step (step - 1) (step - 1 + n * step) vs (x ∷ [])
          (record { sorted = ds; last = 0 }) refl pos asc size first
          (λ z e.
            let same : x ≡ z = some-injective _ _ (sym ex ∙ e) in rw (sym same) (irrefl w x, tt))
          (omega (arith, kept)) in
      (
        x,
        y,
        ds,
        t,
        d,
        record {
          first_sample = fetch-map-some vs (step - 1) ∙ ex;
          stored = put;
          chose = chose;
          last_sample = fetch-map-some vs (step - 1 + n * step) ∙ ey;
          chosen = has.chosen;
          above = has.seen y ey;
          few = omega (arith, has.few);
          kept = omega (arith, has.same_room, kept);
        },
      )

  -- The rest, with the number `k` of levels: the storage is filled and the tree built.
  pad_lem :
      (lb : ℕ) (c : Classifier A) (y : A) (t : List A) (d : Chosen A) (equal_buckets : Bool)
      → (equal_buckets ≡ true → cfg.allow_equal_buckets ≡ true)
      → 1 ≤ lb
      → lb ≤ 8
      → IsChosen comp w t d
      → IsAbove comp y t
      → suc (length t) ≤ 2 ^ lb
      → 2 ^ lb ≤ length c.storage
      → 2 ^ lb ≤ length d.sorted
      → (u : List A) × (e : Chosen A) × (f : Classifier A) × (pad_splitters
            (2 ^ (log2 (d.last + 1) + 1) - (d.last + 1 + 1))
            y
            d
          ≡ some e)
        × (build (log2 (d.last + 1) + 1) (record c { sorted_storage = e.sorted }) ≡ some f)
        × IsClassifier lb (length c.storage) (length d.sorted) u f (record {
          num_buckets = 2 ^ (log2 (d.last + 1) + 1) * (1 + bit equal_buckets);
          use_equal_buckets = equal_buckets;
        })
  pad_lem lb c y t d equal_buckets allowed one eight chosen above few room_tree room =
      let diff : ℕ = d.last + 1 in
      let many : length t ≡ diff = omega (arith, chosen.count) in
      let (fits, levels, up) =
        log2-levels diff lb (omega arith) (omega (arith, many, few)) one eight in
      let k : ℕ = log2 diff + 1 in
      let (u, e, padded, holds, sorted, len, same) =
        pad_splitters_lem comp w (2 ^ k - (diff + 1)) y t d chosen.count chosen.splitters
          (IsStrict-IsSorted comp w t chosen.ascending) above
          (omega (arith, many, fits, up, room)) in
      let full : suc (length u) ≡ 2 ^ k = omega (arith, len, many, fits) in
      let (f, made, is_built) =
        build_lem comp k u (record c { sorted_storage = e.sorted })
          (record {
            ascending = sorted;
            levels = (omega arith, omega (arith, levels));
            full = full;
            splitters = holds;
            room = (omega (arith, up, room_tree), omega (arith, same, up, room));
          }) in
      let kept = length-build k (record c { sorted_storage = e.sorted }) f made in
      let num : f.num_buckets ≡ 2 ^ k = omega (arith, is_built.full, full) in
      (
        u,
        e,
        f,
        padded,
        made,
        record {
          built = is_built;
          buckets = rw num refl;
          bound = omega (arith, num, up);
          allowed = allowed;
          same_tree = kept.0;
          same_sorted = omega (arith, kept.1, same);
        },
      )

  -- From an ascending sample, with room for the buckets in both storages, `buildClassifier` stays inside
  -- the sample and the storages and reads no dead object; it leaves the search tree of ascending
  -- splitters that are one less than a power of two, no more of them than was asked for, and returns
  -- the number of buckets, which equality buckets double.
  pub build_from_sample_lem :
      (step lb : ℕ) (vs : List A) (c : Classifier A)
      → 0 < step
      → 1 ≤ lb
      → lb ≤ 8
      → IsSorted comp vs
      → suc (length vs) ≡ step * 2 ^ lb
      → 2 ^ lb ≤ length c.storage
      → 2 ^ lb ≤ length c.sorted_storage
      → (s : List A) × (d : Classifier A) × (b : Buckets) × (build_from_sample comp random cfg step
            (2 ^ lb)
            (map some vs)
            c
          ≡ some (d, b))
        × IsClassifier lb (length c.storage) (length c.sorted_storage) s d b
  unfolding build_from_sample
  build_from_sample_lem step lb vs c pos one eight asc size room_tree room =
      let two : 2 ≤ 2 ^ lb = two_pow_mono {i = 1} {j = lb} one in
      let total = two_less step (2 ^ lb) two in
      let (x, y, first, t, d, h) =
        sample_lem step (2 ^ lb - 2) vs c pos asc (omega (arith, size, total))
          (omega (arith, room, two)) in
      let equal_buckets =
        cfg.allow_equal_buckets && leb cfg.equal_buckets_threshold (2 ^ lb - 1 - (d.last + 1)) in
      let (u, e, f, padded, made, is_classifier) =
        pad_lem lb c y t d equal_buckets (both_true cfg.allow_equal_buckets _) one eight h.chosen
          h.above (omega (arith, h.few, two)) room_tree (omega (arith, h.kept, room)) in
      (
        u,
        f,
        record {
          num_buckets = 2 ^ (log2 (d.last + 1) + 1) * (1 + bit equal_buckets);
          use_equal_buckets = equal_buckets;
        },
        rw (h.first_sample, h.stored) (rw h.chose (rw h.last_sample (rw padded (rw made refl)))),
        record {
          built = is_classifier.built;
          buckets = is_classifier.buckets;
          bound = is_classifier.bound;
          allowed = is_classifier.allowed;
          same_tree = is_classifier.same_tree;
          same_sorted = omega (arith, is_classifier.same_sorted, h.kept);
        },
      )
