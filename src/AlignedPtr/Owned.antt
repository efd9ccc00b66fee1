-- ===== src/AlignedPtr/Owned.antt =====
-- What it means that every live allocation has exactly one owner, which points to its object, and that a
-- destructor keeps it so.
use ps4o.Base.{
  tally, ℕ, ◌+◌, ◌≤◌, ◌<◌, ◌≡◌, Bool, refl, sym, ap, ◌∙◌, true, false, if◌then◌else◌, ◌==◌, Option,
  none, some, ◌>>=◌, List, [], ◌∷◌, arith, length, get_elem?, store, get_elem?-store_self,
  get_elem?-store_other,
}
use native.Mathlib.Decide.{ℕ_discrete}
use ps4o.AlignedPtr.{
  Heap, AlignedPtr, release, destroy_value, destroy_ptr, Store, Action, declare, allocate,
  move_from, assign, leave_scope,
}
use ps4o.LocalClassification.Counts.{count}

-- Whether a pointer owns the allocation `a`
abbrev pub owns : ℕ → Option ℕ → ℕ
owns a none = 0
owns a (some b) = if b == a then 1 else 0

unfoldable pub owners : ℕ → List AlignedPtr → ℕ
unfolding tally
owners a ps = tally (λ p. owns a p.alloc) ps

-- Whether an owner points elsewhere than into its allocation
abbrev pub stray : Option ℕ → Option ℕ → ℕ
stray none v = 0
stray (some a) none = 1
stray (some a) (some v) = if a == v then 0 else 1

unfoldable pub strays : List AlignedPtr → ℕ
unfolding tally
strays ps = tally (λ p. stray p.alloc p.value) ps

-- A live allocation has one owner and any other has none, an owner points into its own allocation, every
-- live allocation and no other holds an object if the class constructs one, and the next allocation is
-- new.
pub record IsOwned (constructs : Bool) (s : Store) : Type 0 where
  pub owned : (a : ℕ) → owners a s.pointers ≡ count a s.heap.live
  pub single : (a : ℕ) → count a s.heap.live ≤ 1
  pub own_values : strays s.pointers ≡ 0
  pub constructed :
      (a : ℕ) → count a s.heap.objects ≡ (if constructs then count a s.heap.live else 0)
  pub fresh : (a : ℕ) → s.heap.next ≤ a → count a s.heap.live ≡ 0

-- Freeing a live allocation succeeds, and takes it away once.
release_lem :
    (a : ℕ) (live : List ℕ)
    → 0 < count a live
    → (l : List ℕ) × (release a live ≡ some l)
      × ((b : ℕ) → count b l + (if a == b then 1 else 0) ≡ count b live)
unfolding release count
release_lem a [] h = absurd (omega arith)
release_lem a (x ∷ live) h = elim (ℕ_discrete a x) [
  | yes e ↦ let same : (a == x) ≡ true = ground arith in (live, rw same, λ b. ground arith)
  | no ne ↦
      let other : (a == x) ≡ false = ground arith in
      let (l, el, c) = release_lem a live (ground arith) in
      (x ∷ l, rw (other, el), λ b. omega (arith, c b))
]

-- What an action needs: pointers that are there
unfoldable pub Fits : Action → List AlignedPtr → Type 0
Fits declare ps = Unit
Fits allocate ps = Unit
Fits (move_from i) ps = i < length ps
Fits (assign i j) ps = (i < length ps) × (j < length ps)
Fits leave_scope ps = 0 < length ps

stray-zero : (a : ℕ) (v : Option ℕ) → stray (some a) v ≡ 0 → v ≡ some a
stray-zero a none h = absurd (omega arith)
stray-zero a (some v) h = elim (ℕ_discrete a v) [
  | yes e ↦ ap some (sym e)
  | no ne ↦ let other : (a == v) ≡ false = ground arith in absurd (ground arith)
]

-- The end of the object in the allocation of an owner, if there is one
destroy_object :
    (constructs : Bool) (a : ℕ) (v : Option ℕ) (objects live : List ℕ)
    → v ≡ some a
    → ((b : ℕ) → count b objects ≡ (if constructs then count b live else 0))
    → 0 < count a live
    → (l : List ℕ) × ((if constructs then destroy_value v objects else some objects) ≡ some l)
      × ((b : ℕ)
          → count b l + (if constructs then (if a == b then 1 else 0) else 0) ≡ count b objects)
unfolding destroy_value
destroy_object false a v objects live e k lt = (objects, refl, λ b. omega arith)
destroy_object true a v objects live e k lt =
    let (l, el, c) = release_lem a objects (omega (arith, k a)) in (l, rw e el, c)

count-if :
    (constructs : Bool) (m n d x y : ℕ)
    → x + (if constructs then d else 0) ≡ y
    → y ≡ (if constructs then n else 0)
    → m + d ≡ n
    → x ≡ (if constructs then m else 0)
count-if false m n d x y e f g = omega arith
count-if true m n d x y e f g = omega arith

pub leave_lem :
    (constructs : Bool) (h : Heap) (p : AlignedPtr) (ps : List AlignedPtr)
    → IsOwned constructs (record { heap = h; pointers = p ∷ ps })
    → (h' : Heap) × (destroy_ptr constructs p h ≡ some h')
      × IsOwned constructs (record { heap = h'; pointers = ps })
unfolding destroy_ptr owners strays tally
leave_lem constructs h p ps o = go p.alloc o.owned o.own_values
  where
    go :
        (m : Option ℕ)
        → ((a : ℕ) → owns a m + owners a ps ≡ count a h.live)
        → stray m p.value + strays ps ≡ 0
        → (h' : Heap) × ((elim m [
          | none ↦ some h
          | some a ↦ do
            objects ← if constructs then destroy_value p.value h.objects else some h.objects
            live ← release a h.live
            some (record h { live = live; objects = objects })
        ])
            ≡ some h')
          × IsOwned constructs (record { heap = h'; pointers = ps })
    go none k v = (
      h,
      refl,
      record {
        owned = λ a. omega (arith, k a);
        single = o.single;
        own_values = omega (arith, v);
        constructed = o.constructed;
        fresh = o.fresh;
      },
    )
    go (some a) k v =
        let live : 0 < count a h.live = ground (arith, k a) in
        let (l, el, c) = release_lem a h.live live in
        let same = stray-zero a p.value (omega (arith, v)) in
        let (r, er, d) =
          destroy_object constructs a p.value h.objects h.live same o.constructed live in
        (
          record h { live = l; objects = r },
          rw er (rw el refl),
          record {
            owned = λ b. omega (arith, k b, c b);
            single = λ b. omega (arith, c b, o.single b);
            own_values = omega (arith, v);
            constructed = λ b.
                count-if constructs (count b l) (count b h.live) (if a == b then 1 else 0)
                  (count b r) (count b h.objects) (d b) (o.constructed b) (c b);
            fresh = λ b le. omega (arith, c b, o.fresh b le);
          },
        )

-- After the first write of an assignment, the other place still has a pointer to the same allocation.
pub at_other :
    (i j : ℕ) (a b : List AlignedPtr) (p p' q : AlignedPtr)
    → get_elem? a i ≡ some p
    → store a i p' ≡ some b
    → get_elem? a j ≡ some q
    → (p'.alloc ≡ q.alloc) × (p'.value ≡ q.value)
    → (r : AlignedPtr) × (get_elem? b j ≡ some r) × (r.alloc ≡ q.alloc) × (r.value ≡ q.value)
at_other i j a b p p' q e es e' same = elim (ℕ_discrete j i) [
  | yes k ↦ (p', ap (get_elem? b) k ∙ get_elem?-store_self a b i p' es, same.0, same.1)
  | no ne ↦ (q, get_elem?-store_other a b i j p' es ne ∙ e', refl, refl)
]
