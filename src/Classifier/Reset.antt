-- ===== src/Classifier/Reset.antt =====
-- `reset` destroys the splitters that `build` has made, all of them and nothing else.
use ps4o.Base.{
  ℕ, zero, suc, ◌+◌, ◌-◌, ◌*◌, ◌/◌, ◌^◌, ◌≤◌, ◌<◌, ◌≡◌, Bool, refl, sym, ap, ◌∙◌, lt→ltb, none,
  some, ◌>>=◌, List, arith, length, get_elem?-some, Cells, fetch, destroy, fetch-lt, store,
  store-some, fetch-store_self, fetch-store_other, length-store,
}
use native.Mathlib.Decide.{ℕ_discrete}
use ps4o.Config.Bounds.{two_pow, two_pow_pos}
use ps4o.Classifier.{Classifier, build, destroy_splitters, cleanup, reset}
use ps4o.Classifier.Classify.{IsLoaded, build_lem}
use ps4o.Classifier.Lengths.{length-build}
use ps4o.Classifier.Untouched.{build-IsUntouched}
use ps4o.Classifier.Search.{IsBuilt}
use ps4o.Classifier.Tree.{ancestor, IsTree}

ancestor-half : (m q : ℕ) → ancestor m (q / 2) ≡ ancestor (suc m) q
ancestor-half zero q = refl
ancestor-half (suc m) q = ap (λ a. a / 2) (ancestor-half m q)

-- Every node of a tree of `k` levels lies below the root.
below_root : (k q : ℕ) → 0 < q → q < 2 ^ k → (m : ℕ) × (m < k) × (ancestor m q ≡ 1)
below_root zero q pos lt = absurd (omega arith)
below_root (suc k) q pos lt = elim (ℕ_discrete q 1) [
  | yes one ↦ (0, omega arith, one)
  | no ne ↦
      let (m, less, e) = below_root k (q / 2) (omega arith) (omega (arith, two_pow k)) in
      (suc m, omega arith, sym (ancestor-half m q) ∙ e)
]

module _ {ℓ} {A : Type ℓ} where
  abbrev pub IsLive : Cells A → ℕ → Type ℓ
  IsLive cells i = (x : A) × (fetch cells i ≡ some x)

  -- The objects of [first, stop) are gone, and nothing else has changed.
  pub record IsCleared (first stop : ℕ) (cells after : Cells A) : Type ℓ where
    pub gone : (i : ℕ) → first ≤ i → i < stop → fetch after i ≡ none
    pub below : (i : ℕ) → i < first → fetch after i ≡ fetch cells i
    pub above : (i : ℕ) → stop ≤ i → fetch after i ≡ fetch cells i
    pub same_length : length after ≡ length cells

  IsCleared-cons :
      (first stop : ℕ) (cells next after : Cells A)
      → first < stop
      → store cells first none ≡ some next
      → IsCleared (suc first) stop next after
      → IsCleared first stop cells after
  IsCleared-cons first stop cells next after lt e h = record {
    gone = λ i le less. elim (ℕ_discrete i first) [
      | yes same ↦ rw same (h.below first (omega arith) ∙ fetch-store_self cells next first none e)
      | no ne ↦ h.gone i (omega arith) less
    ];
    below = λ i less.
        h.below i (omega arith) ∙ fetch-store_other cells next first i none e (omega arith);
    above = λ i le. h.above i le ∙ fetch-store_other cells next first i none e (omega arith);
    same_length = h.same_length ∙ length-store cells next first none e;
  }

  IsLive-store :
      (cells next : Cells A) (i j : ℕ)
      → store cells i none ≡ some next
      → i < j
      → IsLive cells j
      → IsLive next j
  IsLive-store cells next i j e lt (x, h) =
      (x, fetch-store_other cells next i j none e (omega arith) ∙ h)

  destroy_one :
      (cells : Cells A) (i : ℕ)
      → IsLive cells i
      → (next : Cells A) × (store cells i none ≡ some next) × (destroy cells i ≡ some next)
  destroy_one cells i (x, h) =
      let (next, e) = store-some cells i none (fetch-lt cells i h) in (next, e, rw h e)

  destroy_splitters_lem :
      (i p : ℕ) (c : Classifier A)
      → ((r : ℕ) → p < r → r ≤ p + i → IsLive c.storage r)
      → ((r : ℕ) → p ≤ r → r ≤ p + i → IsLive c.sorted_storage r)
      → (d : Classifier A) × (destroy_splitters i p c ≡ some d)
        × (d.log_buckets ≡ 0)
        × IsCleared (suc p) (suc p + i) c.storage d.storage
        × IsCleared p (suc p + i) c.sorted_storage d.sorted_storage
  unfolding destroy_splitters
  destroy_splitters_lem zero p c tree sorted =
      let (next, e, f) = destroy_one c.sorted_storage p (sorted p (omega arith) (omega arith)) in
      (
        record c { sorted_storage = next; log_buckets = 0 },
        rw f refl,
        refl,
        record {
          gone = λ i le lt. absurd (omega arith);
          below = λ i lt. refl;
          above = λ i le. refl;
          same_length = refl;
        },
        IsCleared-cons p (suc p + 0) c.sorted_storage next next (omega arith) e (record {
          gone = λ i le lt. absurd (omega arith);
          below = λ i lt. refl;
          above = λ i le. refl;
          same_length = refl;
        }),
      )
  destroy_splitters_lem (suc i) p c tree sorted =
      let (t, et, ft) = destroy_one c.storage (suc p) (tree (suc p) (omega arith) (omega arith)) in
      let (s, es, fs) = destroy_one c.sorted_storage p (sorted p (omega arith) (omega arith)) in
      let (d, e, done, ct, cs) =
        destroy_splitters_lem i (suc p) (record c { storage = t; sorted_storage = s })
          (λ r lt le. IsLive-store c.storage t (suc p) r et lt (tree r (omega arith) (omega arith)))
          (λ r lt le.
            IsLive-store c.sorted_storage s p r es (omega arith)
              (sorted r (omega arith) (omega arith))) in
      let more : suc p + suc i ≡ suc (suc p) + i = omega arith in
      (
        d,
        rw (ft, fs) e,
        done,
        rw more
            (IsCleared-cons (suc p) (suc (suc p) + i) c.storage t d.storage (omega arith) et ct),
        rw more (
            IsCleared-cons p (suc (suc p) + i) c.sorted_storage s d.sorted_storage (omega arith) es
              cs),
      )

  IsTree-IsLive :
      (n : ℕ) (sorted tree : Cells A) (j pos first q m : ℕ)
      → ((i : ℕ) → i < n → IsLive sorted i)
      → IsTree sorted tree j pos first
      → first + 2 ^ j ≤ suc n
      → m < j
      → ancestor m q ≡ pos
      → IsLive tree q
  IsTree-IsLive n sorted tree zero pos first q m live t le lt e = absurd (omega arith)
  IsTree-IsLive n sorted tree (suc j) pos first q zero live t le lt e =
      let (x, h) = live (first + 2 ^ j - 1) (omega (arith, two_pow j, two_pow_pos j)) in
      (x, rw e (t.0 ∙ h))
  IsTree-IsLive n sorted tree (suc j) pos first q (suc m) live t le lt e =
      elim (ℕ_discrete (ancestor m q) (2 * pos)) [
        | yes left ↦
            IsTree-IsLive n sorted tree j (2 * pos) first q m live t.1 (omega (arith, two_pow j))
              (omega arith) left
        | no ne ↦
            IsTree-IsLive n sorted tree j (2 * pos + 1) (first + 2 ^ j) q m live t.2
              (omega (arith, two_pow j)) (omega arith) (omega arith)
      ]

  module _ (comp : A → A → Bool) where
    -- From a classifier that is built, `reset` succeeds: it reads and destroys live objects only, leaves
    -- no splitter in the tree or in the sorted storage, touches no other cell and keeps both lengths.
    pub reset_lem :
        (s : List A) (c : Classifier A)
        → IsBuilt comp s c
        → (d : Classifier A) × (reset c ≡ some d)
          × (d.log_buckets ≡ 0)
          × IsCleared 1 c.num_buckets c.storage d.storage
          × IsCleared 0 c.num_buckets c.sorted_storage d.sorted_storage
    unfolding reset cleanup
    reset_lem s c h =
        let live : (i : ℕ) → i < length s → IsLive c.sorted_storage i =
          λ i lt. let (x, e) = get_elem?-some s i lt in (x, h.splitters i lt ∙ e) in
        let at_end : IsLive c.sorted_storage (length s) =
          let (x, e) = get_elem?-some s (length s - 1) (
            omega (
              arith,
              h.full,
              h.buckets,
              h.levels.0,
              two_pow (c.log_buckets - 1),
              two_pow_pos (c.log_buckets - 1),
              ap (λ k. 2 ^ k) {x = suc (c.log_buckets - 1)} {y = c.log_buckets}
                  (omega (arith, h.levels.0)),
            )) in
          (x, h.duplicate ∙ e) in
        let all : suc 0 + (c.num_buckets - 1) ≡ c.num_buckets = omega (arith, h.full) in
        let (d, e, done, tree, sorted) =
          destroy_splitters_lem (c.num_buckets - 1) 0 c
            (λ r lt le.
              let (m, less, up) =
                below_root c.log_buckets r lt (omega (arith, h.buckets, h.full)) in
              IsTree-IsLive (length s) c.sorted_storage c.storage c.log_buckets 1 0 r m live h.tree
                (omega (arith, h.buckets, h.full)) less up)
            (λ r le less. elim (ℕ_discrete r (length s)) [
              | yes same ↦ rw same at_end
              | no ne ↦ live r (omega (arith, h.full))
            ]) in
        (
          d,
          rw (lt→ltb 0 c.log_buckets (omega (arith, h.levels.0))) e,
          done,
          rw all at tree,
          rw all at sorted,
        )

    -- The classifier after `build` and `reset`, by the one before
    pub record IsRestored (num : ℕ) (c d : Classifier A) : Type ℓ where
      pub levels : d.log_buckets ≡ 0
      pub tree : (i : ℕ) → 1 ≤ i → i < num → fetch d.storage i ≡ none
      pub sorted : (i : ℕ) → i < num → fetch d.sorted_storage i ≡ none
      pub root : fetch d.storage 0 ≡ fetch c.storage 0
      pub tree_rest : (i : ℕ) → num ≤ i → fetch d.storage i ≡ fetch c.storage i
      pub sorted_rest : (i : ℕ) → num ≤ i → fetch d.sorted_storage i ≡ fetch c.sorted_storage i
      pub tree_size : length d.storage ≡ length c.storage
      pub sorted_size : length d.sorted_storage ≡ length c.sorted_storage

    -- From ascending splitters that are loaded, `build` and then `reset` succeed; they leave no levels and
    -- no object in the cells that the classifier has used, from 1 to the number of buckets in the tree and
    -- from 0 in the sorted storage. Every other cell of both storages is as it was before `build`, and
    -- both lengths are the same.
    pub reset-build :
        (k : ℕ) (s : List A) (c : Classifier A)
        → IsLoaded comp k s c
        → (d : Classifier A) × ((build k c >>= reset) ≡ some d) × IsRestored (2 ^ k) c d
    reset-build k s c h =
        let (b, made, is_built) = build_lem comp k s c h in
        let (d, e, done, tree, sorted) = reset_lem s b is_built in
        let same : b.num_buckets ≡ 2 ^ k = omega (arith, is_built.full, h.full) in
        let rest = build-IsUntouched k c b h.levels.0 made in
        let sizes = length-build k c b made in
        (
          d,
          rw made e,
          record {
            levels = done;
            tree = λ i le lt. tree.gone i le (omega (arith, same));
            sorted = λ i lt. sorted.gone i (omega arith) (omega (arith, same));
            root = tree.below 0 (omega arith) ∙ rest.root;
            tree_rest = λ i le. tree.above i (omega (arith, same)) ∙ rest.tree i le;
            sorted_rest = λ i le. sorted.above i (omega (arith, same)) ∙ rest.sorted i le;
            tree_size = tree.same_length ∙ sizes.0;
            sorted_size = sorted.same_length ∙ sizes.1;
          },
        )
