-- ===== src/Partitioning/Regions.antt =====
-- The target of a distribution as one region for each bucket: the elements that have arrived, then
-- cells that are still to be written.
use ps4o.Base.{
  length-map, ℕ, zero, suc, ◌+◌, ◌-◌, ◌<◌, ◌≡◌, refl, sym, ap, ◌∙◌, if◌then◌else◌, ◌==◌, Option,
  some, List, [], ◌∷◌, ◌++◌, map, arith, length, get_elem?, store, drop, cons?, Cells,
  length-append, length-drop,
}
use mathlib.Core.Path.{ap₂}
use mathlib.Core.List.{append_assoc, append-nil, map-append}

pub record Region {ℓ} (A : Type ℓ) : Type ℓ where
  pub filled : List A
  pub room : Cells A

module _ {ℓ} {A : Type ℓ} where
  abbrev pub region_size : Region A → ℕ
  region_size r = length r.filled + length r.room

  abbrev pub cells_of : List (Region A) → Cells A
  cells_of [] = []
  cells_of (r ∷ rs) = map some r.filled ++ (r.room ++ cells_of rs)

  -- Where the next element of each bucket goes, for regions that begin at `base`
  abbrev pub starts_of : (base : ℕ) → List (Region A) → List ℕ → List ℕ
  starts_of base [] rest = rest
  starts_of base (r ∷ rs) rest = (base + length r.filled) ∷ starts_of (base + region_size r) rs rest

  -- An element arrives.
  abbrev pub push : ℕ → A → List (Region A) → List (Region A)
  push o v [] = []
  push zero v (r ∷ rs) = record { filled = r.filled ++ v ∷ []; room = drop 1 r.room } ∷ rs
  push (suc o) v (r ∷ rs) = r ∷ push o v rs

  abbrev pub offset_of : ℕ → List (Region A) → ℕ
  offset_of o [] = 0
  offset_of zero (r ∷ rs) = length r.filled
  offset_of (suc o) (r ∷ rs) = region_size r + offset_of o rs

  abbrev pub room_of : List (Region A) → ℕ → ℕ
  room_of [] k = 0
  room_of (r ∷ rs) zero = length r.room
  room_of (r ∷ rs) (suc k) = room_of rs k

  abbrev pub filled_of : List (Region A) → ℕ → List A
  filled_of [] k = []
  filled_of (r ∷ rs) zero = r.filled
  filled_of (r ∷ rs) (suc k) = filled_of rs k

  pub get_elem?-starts_of :
      (o base : ℕ) (rs : List (Region A)) (rest : List ℕ)
      → 0 < room_of rs o
      → get_elem? (starts_of base rs rest) o ≡ some (base + offset_of o rs)
  get_elem?-starts_of o base [] rest h = absurd (omega arith)
  get_elem?-starts_of zero base (r ∷ rs) rest h = refl
  get_elem?-starts_of (suc o) base (r ∷ rs) rest h =
      get_elem?-starts_of o (base + region_size r) rs rest h ∙ ap some (omega arith)

  store-append :
      (p c d : Cells A) (i j : ℕ) (v : Option A)
      → j ≡ length p + i
      → store c i v ≡ some d
      → store (p ++ c) j v ≡ some (p ++ d)
  store-append [] c d i j v e h = let e' : j ≡ i = omega arith in rw e' h
  store-append (x ∷ p) c d i zero v e h = absurd (omega arith)
  store-append (x ∷ p) c d i (suc j) v e h = ap (cons? x) (store-append p c d i j v (omega arith) h)

  pub store-cells_of :
      (o : ℕ) (v : A) (rs : List (Region A))
      → 0 < room_of rs o
      → store (cells_of rs) (offset_of o rs) (some v) ≡ some (cells_of (push o v rs))
  store-cells_of o v [] h = absurd (omega arith)
  store-cells_of zero v (r ∷ rs) h = first r.room h
    where
      first :
          (room : Cells A)
          → 0 < length room
          → store (map some r.filled ++ (room ++ cells_of rs)) (length r.filled) (some v)
            ≡ some (map some (r.filled ++ v ∷ []) ++ (drop 1 room ++ cells_of rs))
      first [] h = absurd (omega arith)
      first (c ∷ room) h =
          store-append (map some r.filled) (c ∷ (room ++ cells_of rs))
            (some v ∷ (room ++ cells_of rs)) 0 (length r.filled) (some v)
            (omega (arith, length-map some r.filled)) refl
          ∙ ap some (
              sym (
                rw (map-append some r.filled (v ∷ []))
                  (append_assoc (map some r.filled) (some v ∷ []) (room ++ cells_of rs))))
  store-cells_of (suc o) v (r ∷ rs) h =
      store-append (map some r.filled) (r.room ++ cells_of rs) (r.room ++ cells_of (push o v rs))
        (length r.room + offset_of o rs) (region_size r + offset_of o rs) (some v)
        (omega (arith, length-map some r.filled))
        (store-append r.room (cells_of rs) (cells_of (push o v rs)) (offset_of o rs)
          (length r.room + offset_of o rs) (some v) refl (store-cells_of o v rs h))

  pub store-starts_of :
      (o base : ℕ) (v : A) (rs : List (Region A)) (rest : List ℕ)
      → 0 < room_of rs o
      → store (starts_of base rs rest) o (base + offset_of o rs + 1)
        ≡ some (starts_of base (push o v rs) rest)
  store-starts_of o base v [] rest h = absurd (omega arith)
  store-starts_of zero base v (r ∷ rs) rest h =
      ap₂ (λ (b c : ℕ). some (b ∷ starts_of c rs rest))
        (omega (arith, length-append r.filled (v ∷ [])))
        (omega (arith, length-append r.filled (v ∷ []), length-drop 1 r.room))
  store-starts_of (suc o) base v (r ∷ rs) rest h =
      ap
        (λ (t : ℕ).
          cons? (base + length r.filled) (store (starts_of (base + region_size r) rs rest) o t))
        (omega arith)
      ∙ ap (cons? (base + length r.filled)) (store-starts_of o (base + region_size r) v rs rest h)

  pub room_of-push :
      (o k : ℕ) (v : A) (rs : List (Region A))
      → room_of (push o v rs) k ≡ room_of rs k - (if o == k then 1 else 0)
  room_of-push o k v [] = omega arith
  room_of-push zero zero v (r ∷ rs) = length-drop 1 r.room
  room_of-push zero (suc k) v (r ∷ rs) = ground arith
  room_of-push (suc o) zero v (r ∷ rs) = ground arith
  room_of-push (suc o) (suc k) v (r ∷ rs) = ground (arith, room_of-push o k v rs)

  pub length-push : (o : ℕ) (v : A) (rs : List (Region A)) → length (push o v rs) ≡ length rs
  length-push o v [] = refl
  length-push zero v (r ∷ rs) = refl
  length-push (suc o) v (r ∷ rs) = ap suc (length-push o v rs)

  pub filled_of-push :
      (o k : ℕ) (v : A) (rs : List (Region A))
      → o < length rs
      → filled_of (push o v rs) k ≡ filled_of rs k ++ (if o == k then v ∷ [] else [])
  filled_of-push o k v [] h = absurd (omega arith)
  filled_of-push zero zero v (r ∷ rs) h = refl
  filled_of-push zero (suc k) v (r ∷ rs) h = sym (append-nil (filled_of rs k)) ∙ ground arith
  filled_of-push (suc o) zero v (r ∷ rs) h = sym (append-nil r.filled) ∙ ground arith
  filled_of-push (suc o) (suc k) v (r ∷ rs) h =
      filled_of-push o k v rs (omega arith) ∙ ap (λ c. filled_of rs k ++ c) (ground arith)

  -- The elements of the buckets from `k` on, in order
  abbrev pub join_buckets : (rounds k : ℕ) (f : ℕ → List A) → List A
  join_buckets zero k f = []
  join_buckets (suc rounds) k f = f k ++ join_buckets rounds (suc k) f

  -- When no room is left, the cells hold the buckets one after the other.
  pub cells_of_full :
      (rs : List (Region A)) (k : ℕ) (f : ℕ → List A)
      → ((j : ℕ) → room_of rs j ≡ 0)
      → ((j m : ℕ) → j < length rs → m ≡ k + j → filled_of rs j ≡ f m)
      → cells_of rs ≡ map some (join_buckets (length rs) k f)
  cells_of_full [] k f none_left same = refl
  cells_of_full (r ∷ rs) k f none_left same =
      ap₂ (λ a b. map some a ++ b) (same 0 k (omega arith) (omega arith))
        (no_room r.room (none_left 0)
          ∙ cells_of_full rs (suc k) f (λ j. none_left (suc j))
              (λ j m lt e. same (suc j) m (omega arith) (omega arith)))
      ∙ sym (map-append some (f k) (join_buckets (length rs) (suc k) f))
    where
      no_room : (room : Cells A) → length room ≡ 0 → room ++ cells_of rs ≡ cells_of rs
      no_room [] h = refl
      no_room (c ∷ room) h = absurd (omega arith)
