-- ===== src/Partitioning/LastLevel.antt =====
-- A sequential step on the last level: it sorts.
use ps4o.Base.{
  inl, inr, Bool-cases, Option, ℕ, suc, ◌+◌, ◌-◌, ◌*◌, ◌%◌, ◌/◌, eqb→eq, ◌≤◌, ◌<◌, ◌≡◌, refl, sym,
  ap, ◌∙◌, Bool, true, false, ◌&&◌, bit, if◌then◌else◌, ltb, ltb→lt, ◌==◌, none, some, List, [],
  ◌∷◌, map, Perm, arith, length, length-map, length-perm, replicate, get_elem?, All, All-map,
  All-perm, Cells, IsSorted, IsStrictWeak,
}
use mathlib.Core.List.Perm
use mathlib.Core.List.{append-nil}
use ps4o.BaseCase.{base_case_sort}
use ps4o.BaseCase.Insertion.{base_case_sort_lem}
use ps4o.Classifier.Rank.{bucket_of, bucket-order, bucket-equal}
use ps4o.Classifier.Search.{IsBuilt}
use ps4o.Config.{Config}
use ps4o.LocalClassification.Counts.{count}
use ps4o.LocalClassification.Scan.{prefix}
use ps4o.Memory.{Arrays, LocalData}
use ps4o.Sampling.{Buckets}
use ps4o.Partitioning.{Partitioned, classify_and_distribute, finish_buckets}
use ps4o.Partitioning.Distribute.{pick}
use ps4o.Partitioning.Finish.{progress}
use ps4o.Partitioning.Ordered.{
  length-join_buckets, join_buckets-cong, pick-key, IsSorted-join_buckets,
}
use ps4o.Partitioning.Regions.{join_buckets}
use ps4o.Partitioning.Settle.{Settles, storages, finish_buckets_lem}
use ps4o.Partitioning.Step.{HasRoom, classify_and_distribute_lem}

module _ {ℓ} {A : Type ℓ} (comp : A → A → Bool) (w : IsStrictWeak comp) (s : List A)
    (asc : IsSorted comp s) where
  -- In an equality bucket, any order will do.
  equal_bucket-IsSorted :
      (equal : Bool) (j : ℕ) (l : List A)
      → equal ≡ true
      → j % 2 ≡ 1
      → j < 2 * length s
      → All (λ x. (bucket_of comp equal s x == j) ≡ true) l
      → IsSorted comp l
  equal_bucket-IsSorted false j l e odd lt h = cc
  equal_bucket-IsSorted true j [] e odd lt h = tt
  equal_bucket-IsSorted true j (x ∷ l) e odd lt h = (
    All-map _ _
        (λ y k.
          (bucket-equal comp w s x y (j / 2) asc (omega arith) (omega (arith, eqb→eq _ _ h.0, half))
            (omega (arith, eqb→eq _ _ k, half))).1)
        l h.1,
    equal_bucket-IsSorted true j l e odd lt h.1,
  )
    where
      half : j ≡ 2 * (j / 2) + 1
      half = omega arith

module _ {ℓ} {A : Type ℓ} where
  -- The arrays of a step that has sorted `ws` into the user's array
  abbrev pub result : (in_input_array : Bool) (ws : List A) → Arrays A
  result true ws = record { src = map some ws; tmp = replicate (length ws) none }
  result false ws = record { src = replicate (length ws) none; tmp = map some ws }

  arrays_eq :
      (a : Arrays A) {src tmp : Cells A}
      → a.src ≡ src
      → a.tmp ≡ tmp
      → a ≡ record { src = src; tmp = tmp }
  arrays_eq a e f = λ i. record { src = e i; tmp = f i }

  storages_start :
      (in_input_array : Bool) (num n : ℕ) (f g : ℕ → List A)
      → length (join_buckets num 0 f) ≡ n
      → progress in_input_array (replicate n none) (join_buckets 0 0 g) (join_buckets (num - 0) 0 f)
        ≡ record { src = replicate n none; tmp = map some (join_buckets num 0 f) }
  storages_start true num n f g e = let z : num - 0 ≡ num = omega arith in rw (z, e) refl
  storages_start false num n f g e = let z : num - 0 ≡ num = omega arith in rw z refl

  storages_end :
      (in_input_array : Bool) (num n : ℕ) (f g : ℕ → List A)
      → n ≡ length (join_buckets num 0 g)
      → progress in_input_array
          (replicate n none)
          (join_buckets num 0 g)
          (join_buckets (num - num) num f)
        ≡ result in_input_array (join_buckets num 0 g)
  storages_end true num n f g e =
      let z : num - num ≡ 0 = omega arith in
      rw z (
        rw
          (
            append-nil (map some (join_buckets num 0 g)),
            append-nil (replicate {A = Option A} (length (join_buckets num 0 g)) none),
          )
          refl)
  storages_end false num n f g e =
      let z : num - num ≡ 0 = omega arith in
      rw (z, e) (rw (append-nil (map some (join_buckets num 0 g))) refl)

module _ {ℓ} {A : Type ℓ} (comp : A → A → Bool) (w : IsStrictWeak comp) (equal : Bool)
    (s values : List A) (asc : IsSorted comp s) where
  -- The bucket of a value, the number of buckets, and the buckets
  abbrev key : A → ℕ
  key = bucket_of comp equal s

  abbrev num : ℕ
  num = suc (length s) * (1 + bit equal)

  abbrev bucket : ℕ → List A
  bucket j = pick j (map key values) values

  -- An equality bucket
  abbrev is_equal : ℕ → Bool
  is_equal j = equal && (j % 2 == 1 && ltb j (num - 2))

  -- A bucket after the step
  abbrev settled : ℕ → List A
  settled j = if is_equal j then bucket j else (base_case_sort_lem comp w (bucket j)).0

  settled-perm : (j : ℕ) → Perm (settled j) (bucket j)
  settled-perm j = elim (Bool-cases (is_equal j)) [
    | inl e ↦ rw e Perm.rfl
    | inr e ↦ rw e (base_case_sort_lem comp w (bucket j)).3
  ]

  settled-sorts : (j : ℕ) → is_equal j ≡ false → base_case_sort comp (bucket j) ≡ some (settled j)
  settled-sorts j e = rw e (base_case_sort_lem comp w (bucket j)).1

  settled-stays : (j : ℕ) → is_equal j ≡ true → settled j ≡ bucket j
  settled-stays j e = rw e refl

  settled-keys : (j : ℕ) → All (λ x. (key x == j) ≡ true) (settled j)
  settled-keys j = All-perm (λ x. key x == j) (settled-perm j) (pick-key key j values)

  settled-IsSorted : (j : ℕ) → IsSorted comp (settled j)
  settled-IsSorted j = elim (Bool-cases (is_equal j)) [
    | inl e ↦
        let (on, odd, lt) = is_equal_parts equal (j % 2 == 1) (ltb j (num - 2)) e in
        let two : num ≡ 2 * length s + 2 = rw on (omega arith) in
        equal_bucket-IsSorted comp w s asc equal j (settled j) on (eqb→eq _ _ odd)
          (omega (arith, ltb→lt j (num - 2) lt)) (settled-keys j)
    | inr e ↦ rw e (base_case_sort_lem comp w (bucket j)).2
  ]
    where
      is_equal_parts :
          (a b c : Bool) → (a && (b && c)) ≡ true → (a ≡ true) × (b ≡ true) × (c ≡ true)
      is_equal_parts true true true h = (refl, refl, refl)
      is_equal_parts true true false h = cc
      is_equal_parts true false c h = cc
      is_equal_parts false b c h = cc

  -- The range that the step makes
  abbrev pub outcome : List A
  outcome = join_buckets num 0 settled

  outcome-IsSorted : IsSorted comp outcome
  outcome-IsSorted =
      IsSorted-join_buckets key comp
        (λ x y lt. w.asymm x y (bucket-order comp w equal s x y asc lt)) settled settled-keys
        settled-IsSorted num 0

  outcome-values : Perm (join_buckets num 0 bucket) values → Perm outcome values
  outcome-values p = Perm.trans (join_buckets-cong num 0 bucket settled settled-perm) p

  -- With the boundaries of the buckets, the loops of the step make that range.
  module _ (cfg : Config) (saved : List ℕ) (in_input_array : Bool)
      (boundaries : (j : ℕ)
        → j ≤ num
        → get_elem? saved j ≡ some (prefix (λ b. count b (map key values)) j))
      (same_elements : Perm (join_buckets num 0 bucket) values) where
    settles :
        Settles comp cfg saved
          (replicate (length values) none)
          in_input_array
          true
          bucket
          settled
          num
    settles = record {
      starts = λ j le.
          boundaries j le
          ∙ ap some (sym (length-join_buckets j (map key values) values (length-map key values)));
      same = λ j. length-perm (settled-perm j);
      small = λ j lt. refl;
    }

    before : ℕ → Arrays A
    before =
        storages comp cfg saved (replicate (length values) none) in_input_array true bucket settled
          num settles

    finish_lem :
        finish_buckets comp cfg saved in_input_array true
          (record { num_buckets = num; use_equal_buckets = equal })
          (record {
            src = replicate (length values) none;
            tmp = map some (join_buckets num 0 bucket);
          })
        ≡ some (result in_input_array outcome)
    unfolding storages
    finish_lem =
        ap
          (finish_buckets comp cfg saved in_input_array true
            (record { num_buckets = num; use_equal_buckets = equal }))
          (sym (
            storages_start in_input_array num (length values) bucket settled
              (length-perm same_elements)))
        ∙ finish_buckets_lem comp cfg saved (replicate (length values) none) in_input_array true
            bucket settled num settles equal (length s) refl settled-sorts settled-stays
        ∙ ap some (
            storages_end in_input_array num (length values) bucket settled
              (omega (arith, length-perm (outcome-values same_elements))))

-- What `buildClassifier` returns for the splitters `s`
abbrev pub buckets_of {ℓ} : {A : Type ℓ} (equal : Bool) (s : List A) → Buckets
buckets_of equal s = record {
  num_buckets = suc (length s) * (1 + bit equal);
  use_equal_buckets = equal;
}

module _ {ℓ} {A : Type ℓ} {G : Type 0} (comp : A → A → Bool) (w : IsStrictWeak comp) where
  -- Under the conditions of the distribution, with a strict weak ordering: on the last level the step
  -- succeeds, with and without equality buckets, and whatever the sizes of the buckets; the same elements
  -- are then in ascending order in the user's array, whichever of the two arrays that is, and no object is
  -- left in the other one.
  pub last_level_lem :
      (cfg : Config) (s : List A) (d : LocalData A G) (equal in_input_array : Bool)
      (values : List A) (tmp : Cells A)
      → IsBuilt comp s d.classifier
      → suc (length s) * (1 + bit equal) ≤ 256
      → HasRoom comp cfg (suc (length s) * (1 + bit equal)) d
      → 0 < cfg.unroll_classifier
      → cfg.unroll_classifier ≤ length values
      → length tmp ≡ length values
      → (p : Partitioned A G) × (ws : List A) × (classify_and_distribute comp cfg
            (buckets_of equal s)
            d
            (record { src = map some values; tmp = tmp })
          ≡ some p)
        × (finish_buckets comp cfg p.bucket_start_save in_input_array true
              (buckets_of equal s)
              p.arrays
            ≡ some (result in_input_array ws))
        × IsSorted comp ws
        × Perm ws values
  last_level_lem cfg s d equal in_input_array values tmp built few room pos long same =
      let (p, e, k) =
        classify_and_distribute_lem comp w cfg s d built (buckets_of equal s) values tmp refl few
          room pos long same in
      (
        p,
        outcome comp w equal s values built.ascending,
        e,
        ap (finish_buckets comp cfg p.bucket_start_save in_input_array true (buckets_of equal s))
              (arrays_eq p.arrays k.moved k.grouped)
            ∙ (finish_lem comp w equal s values built.ascending cfg p.bucket_start_save
                in_input_array k.boundaries k.same_elements),
        outcome-IsSorted comp w equal s values built.ascending,
        outcome-values comp w equal s values built.ascending k.same_elements,
      )
