-- ===== src/Classifier.antt =====
-- include/ps4o/classifier.hpp: the branch-free classifier, a search tree in an array. Its two storages
-- are raw cells, of the capacity that the class declares.
pub mod Tree
pub mod Rank
pub mod Search
pub mod Classify
pub mod Unrolled
pub mod Untouched
pub mod Reset
pub mod Lengths
use ps4o.Base.{
  ℕ, zero, suc, ◌+◌, ◌-◌, ◌*◌, ◌/◌, ◌^◌, Bool, true, false, not, bit, if◌then◌else◌, ltb, leb,
  Option, none, some, ◌>>=◌, List, [], ◌∷◌, ◌++◌, map, length, take, drop, replicate, map_option,
  Cells, fetch, fetch_before, construct, destroy,
}
use ps4o.Config.{Config, max_buckets}

pub record Classifier {ℓ} (A : Type ℓ) : Type ℓ where
  pub storage : Cells A  -- filled from 1 to num_buckets
  pub sorted_storage : Cells A  -- filled from 0 to num_buckets, the last one is duplicated
  pub log_buckets : ℕ
  pub num_buckets : ℕ

-- The constructor
unfoldable pub empty_classifier {ℓ} : {A : Type ℓ} → Config → Classifier A
empty_classifier cfg = record {
  storage = replicate (max_buckets cfg / 2) none;
  sorted_storage = replicate (max_buckets cfg / 2) none;
  log_buckets = 0;
  num_buckets = 0;
}

module _ {ℓ} {A : Type ℓ} where
  -- The recursive `build`, from the splitters between `left` and `right`. The fuel bounds the depth.
  pub build_tree :
      (fuel : ℕ) (sorted : Cells A) (num_buckets left right pos : ℕ) (tree : Cells A)
      → Option (Cells A)
  build_tree zero sorted num_buckets left right pos tree = none
  build_tree (suc fuel) sorted num_buckets left right pos tree = do
    let mid = left + (right - left) / 2
    v ← fetch sorted mid
    t ← construct tree pos v
    let children = build_tree fuel sorted num_buckets left mid (2 * pos) t >>= λ u.
        build_tree fuel sorted num_buckets mid right (2 * pos + 1) u
    if ltb (2 * pos) num_buckets then children else some t

  -- The public `build`: it duplicates the last splitter and builds the tree.
  pub build : (log_buckets : ℕ) (c : Classifier A) → Option (Classifier A)
  build log_buckets c = do
    let num_buckets = 2 ^ log_buckets
    let num_splitters = num_buckets - 1
    v ← fetch_before c.sorted_storage num_splitters
    sorted ← construct c.sorted_storage num_splitters v
    tree ← build_tree log_buckets sorted num_buckets 0 num_splitters 1 c.storage
    some (record {
      storage = tree;
      sorted_storage = sorted;
      log_buckets = log_buckets;
      num_buckets = num_buckets;
    })

  -- The loop of `cleanup`, with `i` rounds left, over `p` and `q`.
  destroy_splitters : (i p : ℕ) (c : Classifier A) → Option (Classifier A)
  destroy_splitters zero p c = do
    sorted ← destroy c.sorted_storage p
    some (record c { sorted_storage = sorted; log_buckets = 0 })
  destroy_splitters (suc i) p c = do
    tree ← destroy c.storage (suc p)
    sorted ← destroy c.sorted_storage p
    destroy_splitters i (suc p) (record c { storage = tree; sorted_storage = sorted })

  pub cleanup : Classifier A → Option (Classifier A)
  unfolding destroy_splitters
  cleanup c = destroy_splitters (c.num_buckets - 1) 0 c

  pub reset : Classifier A → Option (Classifier A)
  unfolding cleanup
  reset c = if ltb 0 c.log_buckets then cleanup c else some c

module _ {ℓ} {A : Type ℓ} where
  -- The inner loop over `i`: one level for every element of a block.
  level_block : (step : ℕ → A → Option ℕ) (bs : List ℕ) (values : List A) → Option (List ℕ)
  level_block step [] values = some []
  level_block step (b ∷ bs) [] = none
  level_block step (b ∷ bs) (v ∷ values) = do
    d ← step b v
    ds ← level_block step bs values
    some (d ∷ ds)

module _ {ℓ} {A : Type ℓ} (comp : A → A → Bool) where
  -- The loop over the levels.
  pub descend : (levels b : ℕ) (c : Classifier A) (value : A) → Option ℕ
  descend zero b c value = some b
  descend (suc levels) b c value = do
    s ← fetch c.storage b
    descend levels (2 * b + bit (comp s value)) c value

  -- One more level that tells the elements equal to a splitter.
  equal_level : (sorted_index b : ℕ) (c : Classifier A) (value : A) → Option ℕ
  equal_level sorted_index b c value = do
    s ← fetch c.sorted_storage sorted_index
    some (2 * b + bit (not (comp value s)))

  -- `classify<kEqualBuckets>` of a single element
  pub classify : (equal_buckets : Bool) (c : Classifier A) (value : A) → Option ℕ
  classify equal_buckets c value =
      if ltb c.log_buckets 1 then none else if ltb 9 c.log_buckets then none else do
        b ← descend c.log_buckets 1 c value
        d ← if equal_buckets then equal_level (b - c.num_buckets) b c value else some b
        some (d - (if equal_buckets then 2 * c.num_buckets else c.num_buckets))

  -- The loop over the levels for a block.
  descend_block : (levels : ℕ) (c : Classifier A) (bs : List ℕ) (values : List A) → Option (List ℕ)
  descend_block zero c bs values = some bs
  descend_block (suc levels) c bs values = do
    ds ← level_block (λ b v. fetch c.storage b >>= λ s. some (2 * b + bit (comp s v))) bs values
    descend_block levels c ds values

  -- A round of the unrolled loop: the buckets that it yields.
  classify_block :
      (equal_buckets : Bool) (log_buckets : ℕ) (c : Classifier A) (block : List A) → Option (List ℕ)
  classify_block equal_buckets log_buckets c block = do
    let num_buckets = 2 ^ (log_buckets + bit equal_buckets)
    bs ← descend_block log_buckets c (replicate (length block) 1) block
    ds ←
        if equal_buckets
        then level_block (λ b v. equal_level (b - num_buckets / 2) b c v) bs block
        else some bs
    some (map (λ d. d - num_buckets) ds)

  -- A round of the loop over the rest.
  classify_rest : (equal_buckets : Bool) (log_buckets : ℕ) (c : Classifier A) (value : A) → Option ℕ
  classify_rest equal_buckets log_buckets c value = do
    let num_buckets = 2 ^ (log_buckets + bit equal_buckets)
    b ← descend log_buckets 1 c value
    d ← if equal_buckets then equal_level (b - num_buckets / 2) b c value else some b
    some (d - num_buckets)

  -- The loop while `begin <= cutoff`, then the loop over the rest.
  classify_loop :
      (fuel unroll : ℕ) (equal_buckets : Bool) (log_buckets : ℕ) (c : Classifier A)
      (values : List A)
      → Option (List ℕ)
  classify_loop zero unroll equal_buckets log_buckets c values = none
  classify_loop (suc fuel) unroll equal_buckets log_buckets c values =
      let rounds = (do
        bs ← classify_block equal_buckets log_buckets c (take unroll values)
        rest ← classify_loop fuel unroll equal_buckets log_buckets c (drop unroll values)
        some (bs ++ rest)) in
      if leb unroll (length values)
      then rounds
      else map_option (classify_rest equal_buckets log_buckets c) values

  -- `classifyUnrolled`, with what it assumes of the range.
  classify_unrolled :
      (cfg : Config) (equal_buckets : Bool) (log_buckets : ℕ) (c : Classifier A) (values : List A)
      → Option (List ℕ)
  classify_unrolled cfg equal_buckets log_buckets c values =
      if leb (length values) 0
      then none
      else if ltb (length values) cfg.unroll_classifier
      then none
      else classify_loop (suc (length values)) cfg.unroll_classifier equal_buckets log_buckets c
          values

  -- `classify` of a range: the buckets in the order in which the callback gets them.
  pub classify_range :
      (cfg : Config) (equal_buckets : Bool) (c : Classifier A) (values : List A) → Option (List ℕ)
  classify_range cfg equal_buckets c values =
      if ltb c.log_buckets 1
      then none
      else if ltb 8 c.log_buckets
      then none
      else classify_unrolled cfg equal_buckets c.log_buckets c values
