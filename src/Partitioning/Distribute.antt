-- ===== src/Partitioning/Distribute.antt =====
-- `distribute_elements` is a stable counting sort by bucket.
use ps4o.Base.{
  ℕ, zero, suc, ◌+◌, ◌≤◌, ◌<◌, ◌≡◌, refl, sym, ap, ◌∙◌, if◌then◌else◌, ◌==◌, none, some, List, [],
  ◌∷◌, ◌++◌, map, arith, length, get_elem?, store, replicate, Cells, fetch, get_elem?-append,
  length-append, All,
}
use mathlib.Core.List.{append_assoc, append-nil}
use native.Mathlib.Nat.{zero-add}
use ps4o.LocalClassification.Counts.{count}
use ps4o.Partitioning.{distribute_elements}
use ps4o.Partitioning.Regions.{
  Region, cells_of, starts_of, push, offset_of, room_of, filled_of, get_elem?-starts_of,
  store-cells_of, store-starts_of, room_of-push, length-push, filled_of-push,
}

module _ {ℓ} {A : Type ℓ} where
  -- The elements of bucket `b`, in order
  unfoldable pub pick : (b : ℕ) (oracle : List ℕ) (values : List A) → List A
  pick b [] values = []
  pick b (o ∷ oracle) [] = []
  pick b (o ∷ oracle) (v ∷ values) = (if o == b then v ∷ [] else []) ++ pick b oracle values

  pub push_all : (oracle : List ℕ) (values : List A) → List (Region A) → List (Region A)
  push_all [] values rs = rs
  push_all (o ∷ oracle) [] rs = rs
  push_all (o ∷ oracle) (v ∷ values) rs = push_all oracle values (push o v rs)

  -- The source after `i` elements have been moved away
  abbrev pub source : (i : ℕ) (values : List A) → Cells A
  source i values = replicate i none ++ map some values

  fetch-source : (i : ℕ) (v : A) (values : List A) → fetch (source i (v ∷ values)) i ≡ some v
  fetch-source zero v values = refl
  fetch-source (suc i) v values = fetch-source i v values

  destroy-source :
      (i : ℕ) (v : A) (values : List A)
      → store (source i (v ∷ values)) i none ≡ some (source (suc i) values)
  destroy-source zero v values = refl
  destroy-source (suc i) v values = rw (destroy-source i v values)

  -- There is room for what is left, and for no more buckets than there are.
  pub record Fits (oracle : List ℕ) (rs : List (Region A)) : Type ℓ where
    pub inside : All (λ o. o < length rs) oracle
    pub enough : (k : ℕ) → count k oracle ≤ room_of rs k

  Fits-push :
      (o : ℕ) (v : A) (oracle : List ℕ) (rs : List (Region A))
      → Fits (o ∷ oracle) rs
      → (0 < room_of rs o) × Fits oracle (push o v rs)
  unfolding count
  Fits-push o v oracle rs f = (
    ground (arith, f.enough o),
    record {
      inside = rw (length-push o v rs) f.inside.1;
      enough = λ k. ground (arith, f.enough k, room_of-push o k v rs);
    },
  )

  -- The loop from index `i` to `last`, with the part of the oracle before it.
  pub distribute_lem :
      (whole done oracle : List ℕ) (i last : ℕ) (values : List A) (rs : List (Region A))
      (rest : List ℕ)
      → whole ≡ done ++ oracle
      → i ≡ length done
      → last ≡ i + length values
      → length oracle ≡ length values
      → Fits oracle rs
      → distribute_elements (length values) i whole (record {
        arrays = record { src = source i values; tmp = cells_of rs };
        bucket_start = starts_of 0 rs rest;
      })
        ≡ some (record {
          arrays = record { src = source last []; tmp = cells_of (push_all oracle values rs) };
          bucket_start = starts_of 0 (push_all oracle values rs) rest;
        })
  unfolding distribute_elements push_all
  distribute_lem whole done [] i last [] rs rest w e l n f =
      let same : last ≡ i = omega arith in rw same
  distribute_lem whole done [] i last (v ∷ values) rs rest w e l n f = absurd (omega arith)
  distribute_lem whole done (o ∷ oracle) i last [] rs rest w e l n f = absurd (omega arith)
  distribute_lem whole done (o ∷ oracle) i last (v ∷ values) rs rest w e l n f =
      let (room, fits) = Fits-push o v oracle rs f in
      let at : get_elem? whole i ≡ some o =
        ap (λ a. get_elem? a i) w ∙ get_elem?-append done (o ∷ oracle) 0 i (omega arith) in
      let start : get_elem? (starts_of 0 rs rest) o ≡ some (offset_of o rs) =
        rw zero-add at (get_elem?-starts_of o 0 rs rest room) in
      let next : store (starts_of 0 rs rest) o (offset_of o rs + 1)
          ≡ some (starts_of 0 (push o v rs) rest) =
        rw zero-add at (store-starts_of o 0 v rs rest room) in
      rw at (
        rw start (
          rw (fetch-source i v values) (
            rw (store-cells_of o v rs room) (
              rw (destroy-source i v values) (
                rw next (
                  distribute_lem whole (done ++ o ∷ []) oracle (suc i) last values (push o v rs)
                    rest (w ∙ sym (append_assoc done (o ∷ []) oracle))
                    (omega (arith, length-append done (o ∷ []))) (omega arith) (omega arith)
                    fits))))))

  -- What has arrived at the end, and the room that is left
  pub length-push_all :
      (oracle : List ℕ) (values : List A) (rs : List (Region A))
      → length (push_all oracle values rs) ≡ length rs
  unfolding push_all
  length-push_all [] values rs = refl
  length-push_all (o ∷ oracle) [] rs = refl
  length-push_all (o ∷ oracle) (v ∷ values) rs =
      length-push_all oracle values (push o v rs) ∙ length-push o v rs

  pub filled_of-push_all :
      (oracle : List ℕ) (values : List A) (rs : List (Region A)) (k : ℕ)
      → All (λ o. o < length rs) oracle
      → filled_of (push_all oracle values rs) k ≡ filled_of rs k ++ pick k oracle values
  unfolding push_all pick
  filled_of-push_all [] values rs k h = sym (append-nil (filled_of rs k))
  filled_of-push_all (o ∷ oracle) [] rs k h = sym (append-nil (filled_of rs k))
  filled_of-push_all (o ∷ oracle) (v ∷ values) rs k h =
      filled_of-push_all oracle values (push o v rs) k (rw (length-push o v rs) h.1)
      ∙ ap (λ l. l ++ pick k oracle values) (filled_of-push o k v rs h.0)
      ∙ append_assoc (filled_of rs k) (if o == k then v ∷ [] else []) (pick k oracle values)

  pub room_of-push_all :
      (oracle : List ℕ) (values : List A) (rs : List (Region A)) (k : ℕ)
      → length oracle ≡ length values
      → room_of rs k ≡ count k oracle
      → room_of (push_all oracle values rs) k ≡ 0
  unfolding push_all count
  room_of-push_all [] values rs k n h = h
  room_of-push_all (o ∷ oracle) [] rs k n h = absurd (omega arith)
  room_of-push_all (o ∷ oracle) (v ∷ values) rs k n h =
      room_of-push_all oracle values (push o v rs) k (omega arith)
        (omega (arith, room_of-push o k v rs))
