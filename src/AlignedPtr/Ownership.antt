-- ===== src/AlignedPtr/Ownership.antt =====
-- Every live allocation has exactly one owner, which points to its object: neither is destroyed twice,
-- and neither is lost.
use ps4o.Base.{
  tally, tally-store, ℕ, ◌+◌, ◌<◌, ◌≡◌, Bool, refl, sym, ap, ◌∙◌, true, false, if◌then◌else◌, ◌==◌,
  none, some, ◌>>=◌, List, [], ◌∷◌, arith, length, get_elem?, get_elem?-some, store-some,
  get_elem?-lt, length-store, >>=-eq-some,
}
use mathlib.Core.Option.{some-injective}
use mathlib.Core.Path.{subst}
use native.Mathlib.Decide.{ℕ_discrete}
use ps4o.AlignedPtr.{
  Heap, AlignedPtr, empty_ptr, make_ptr, move_ptr, assign_ptr, destroy_ptr, Store, Action, declare,
  allocate, move_from, assign, leave_scope, act, act_all,
}
use ps4o.LocalClassification.Counts.{count}
use ps4o.AlignedPtr.Owned.{owns, owners, stray, strays, IsOwned, Fits, leave_lem, at_other}

-- The objects after an allocation
constructed-allocate :
    (constructs : Bool) (a n : ℕ) (live objects : List ℕ)
    → count a objects ≡ (if constructs then count a live else 0)
    → count a (if constructs then n ∷ objects else objects)
      ≡ (if constructs then count a (n ∷ live) else 0)
unfolding count
constructed-allocate false a n live objects h = h
constructed-allocate true a n live objects h = omega arith

own_allocation : (a : ℕ) → stray (some a) (some a) ≡ 0
own_allocation a = ground arith

allocate_lem :
    (constructs : Bool) (s : Store)
    → IsOwned constructs s
    → (t : Store) × (act constructs allocate s ≡ some t) × IsOwned constructs t
unfolding act make_ptr owners strays tally count
allocate_lem constructs s o = (
  _,
  refl,
  record {
    owned = λ a. omega (arith, o.owned a);
    single = λ a. elim (ℕ_discrete s.heap.next a) [
      | yes e ↦
          let none_yet : count a s.heap.live ≡ 0 = o.fresh a (omega arith) in
          let same : (s.heap.next == a) ≡ true = ground arith in rw same (omega (arith, none_yet))
      | no ne ↦
          let other : (s.heap.next == a) ≡ false = ground arith in
          rw other (omega (arith, o.single a))
    ];
    own_values = omega (arith, o.own_values, own_allocation s.heap.next);
    constructed = λ a.
        constructed-allocate constructs a s.heap.next s.heap.live s.heap.objects (o.constructed a);
    fresh = λ a le.
        let other : (s.heap.next == a) ≡ false = ground arith in
        rw other (omega (arith, o.fresh a (omega arith)));
  },
)

-- Pointers change hands, and the heap stays as it is.
same_heap :
    (constructs : Bool) (h : Heap) (ps qs : List AlignedPtr)
    → IsOwned constructs (record { heap = h; pointers = ps })
    → ((a : ℕ) → owners a qs ≡ owners a ps)
    → strays qs ≡ strays ps
    → IsOwned constructs (record { heap = h; pointers = qs })
same_heap constructs h ps qs o e f = record {
  owned = λ a. e a ∙ o.owned a;
  single = o.single;
  own_values = f ∙ o.own_values;
  constructed = o.constructed;
  fresh = o.fresh;
}

move_lem :
    (constructs : Bool) (i : ℕ) (s : Store)
    → IsOwned constructs s
    → i < length s.pointers
    → (t : Store) × (act constructs (move_from i) s ≡ some t) × IsOwned constructs t
unfolding act move_ptr owners strays tally
move_lem constructs i s o f =
    let (p, e) = get_elem?-some s.pointers i f in
    let p' : AlignedPtr = record p { alloc = none } in
    let (ps, es) = store-some s.pointers i p' f in
    let count_of : (g : AlignedPtr → ℕ) → tally g ps + g p ≡ tally g s.pointers + g p' =
      λ g. omega (arith, tally-store g s.pointers ps i p p' e es) in
    (
      record s { pointers = record { alloc = p.alloc; value = p.value } ∷ ps },
      rw (e, es),
      same_heap constructs s.heap s.pointers _ o
          (λ a. omega (arith, count_of (λ (x : AlignedPtr). owns a x.alloc)))
          (omega (arith, count_of (λ (x : AlignedPtr). stray x.alloc x.value))),
    )

assign_lem :
    (constructs : Bool) (i j : ℕ) (s : Store)
    → IsOwned constructs s
    → i < length s.pointers
    → j < length s.pointers
    → (t : Store) × (act constructs (assign i j) s ≡ some t) × IsOwned constructs t
unfolding act assign_ptr owners strays tally
assign_lem constructs i j s o f g =
    let (p, e) = get_elem?-some s.pointers i f in
    let (q, e') = get_elem?-some s.pointers j g in
    let p' : AlignedPtr = record { alloc = q.alloc; value = q.value } in
    let q' : AlignedPtr = record { alloc = p.alloc; value = p.value } in
    let (ps, es) = store-some s.pointers i p' f in
    let (qs, es') = store-some ps j q' (omega (arith, g, length-store s.pointers ps i p' es)) in
    let (r, er, allocs, values) = at_other i j s.pointers ps p p' q e es e' (refl, refl) in
    (
      record s { pointers = qs },
      rw (e, e', es, es'),
      same_heap constructs s.heap s.pointers qs o
          (λ a. omega (
            arith,
            tally-store (λ (p : AlignedPtr). owns a p.alloc) s.pointers ps i p p' e es,
            tally-store (λ (p : AlignedPtr). owns a p.alloc) ps qs j r q' er es',
            ap (owns a) allocs,
          ))
          (omega (
            arith,
            tally-store (λ (p : AlignedPtr). stray p.alloc p.value) s.pointers ps i p p' e es,
            tally-store (λ (p : AlignedPtr). stray p.alloc p.value) ps qs j r q' er es',
            ap (λ m. stray m r.value) allocs,
            ap (stray q.alloc) values,
          )),
    )

-- For each of the classes, every action on pointers that are there succeeds: no allocation is freed and
-- no object is destroyed twice, and a destructor finds the object of its own allocation. Each action
-- keeps exactly one owner for each live allocation and none for another, with `value_` in the
-- allocation of `alloc_`, and an object in each live allocation and no other if the class constructs one.
pub act_lem :
    (constructs : Bool) (x : Action) (s : Store)
    → IsOwned constructs s
    → Fits x s.pointers
    → (t : Store) × (act constructs x s ≡ some t) × IsOwned constructs t
unfolding act Fits empty_ptr owners strays tally
act_lem constructs declare s o f = (
  _,
  refl,
  record {
    owned = λ a. omega (arith, o.owned a);
    single = o.single;
    own_values = omega (arith, o.own_values);
    constructed = o.constructed;
    fresh = o.fresh;
  },
)
act_lem constructs allocate s o f = allocate_lem constructs s o
act_lem constructs (move_from i) s o f = move_lem constructs i s o f
act_lem constructs (assign i j) s o f = assign_lem constructs i j s o f.0 f.1
act_lem constructs leave_scope s o f = go s.pointers o f
  where
    go :
        (ps : List AlignedPtr)
        → IsOwned constructs (record s { pointers = ps })
        → 0 < length ps
        → (t : Store) × (act constructs leave_scope (record s { pointers = ps }) ≡ some t)
          × IsOwned constructs t
    go [] o f = absurd (omega arith)
    go (p ∷ ps) o f =
        let (h, e, o') = leave_lem constructs s.heap p ps o in
        (record { heap = h; pointers = ps }, rw e, o')

act-Fits :
    (constructs : Bool) (x : Action) (s t : Store) → act constructs x s ≡ some t → Fits x s.pointers
unfolding act Fits
act-Fits constructs declare s t e = tt
act-Fits constructs allocate s t e = tt
act-Fits constructs (move_from i) s t e =
    let (p, h, e') = >>=-eq-some (get_elem? s.pointers i) _ e in get_elem?-lt s.pointers i h
act-Fits constructs (assign i j) s t e =
    let (p, h, e') = >>=-eq-some (get_elem? s.pointers i) _ e in
    let (q, k, e'') = >>=-eq-some (get_elem? s.pointers j) _ e' in
    (get_elem?-lt s.pointers i h, get_elem?-lt s.pointers j k)
act-Fits constructs leave_scope s t e = go s.pointers e
  where
    go :
        (ps : List AlignedPtr)
        → (elim ps [
          | [] ↦ none
          | p ∷ rest ↦
              (destroy_ptr constructs p s.heap >>= λ h. some (record { heap = h; pointers = rest }))
        ])
          ≡ some t
        → 0 < length ps
    go [] e = cc
    go (p ∷ ps) e = omega arith

act_all-IsOwned :
    (constructs : Bool) (xs : List Action) (s t : Store)
    → IsOwned constructs s
    → act_all constructs xs s ≡ some t
    → IsOwned constructs t
unfolding act_all
act_all-IsOwned constructs [] s t o e = subst (IsOwned constructs) (some-injective s t e) o
act_all-IsOwned constructs (x ∷ xs) s t o e =
    let (u, h, e') = >>=-eq-some (act constructs x s) _ e in
    let (v, h', o') = act_lem constructs x s o (act-Fits constructs x s u h) in
    act_all-IsOwned constructs xs u t
      (subst (IsOwned constructs) (some-injective v u (sym h' ∙ h)) o') e'

none_counted : (l : List ℕ) → ((a : ℕ) → count a l ≡ 0) → l ≡ []
unfolding count
none_counted [] h = refl
none_counted (x ∷ l) h = absurd (ground (arith, h x))

nothing_constructed : (constructs : Bool) → ◌≡◌ {A = ℕ} 0 (if constructs then 0 else 0)
nothing_constructed false = refl
nothing_constructed true = refl

none_if : (constructs : Bool) (m n : ℕ) → m ≡ (if constructs then n else 0) → n ≡ 0 → m ≡ 0
none_if false m n e f = e
none_if true m n e f = e ∙ f

-- When all pointers that were declared, allocated, moved and assigned in any order have been destroyed,
-- no allocation is live and no object is left.
pub act_all_lem :
    (constructs : Bool) (xs : List Action) (next : ℕ) (t : Store)
    → act_all constructs xs
        (record { heap = record { next = next; live = []; objects = [] }; pointers = [] })
      ≡ some t
    → t.pointers ≡ []
    → (t.heap.live ≡ []) × (t.heap.objects ≡ [])
unfolding owners strays tally count
act_all_lem constructs xs next t e none_left =
    let o =
      act_all-IsOwned constructs xs _ t
        (record {
          owned = λ a. refl;
          single = λ a. omega arith;
          own_values = refl;
          constructed = λ a. nothing_constructed constructs;
          fresh = λ a le. refl;
        })
        e in
    let live : (a : ℕ) → count a t.heap.live ≡ 0 = λ a. sym (o.owned a) ∙ ap (owners a) none_left in
    (
      none_counted t.heap.live live,
      none_counted t.heap.objects (λ a. none_if constructs _ _ (o.constructed a) (live a)),
    )
