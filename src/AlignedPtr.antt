-- ===== src/AlignedPtr.antt =====
-- include/ps4o/memory.hpp: AlignedPtr, AlignedPtr<void> and AlignedRawPtr, owners of an allocation. An
-- allocation is a number; the heap knows which are live, and which of them hold an object. The first
-- class constructs an object in its allocation and destroys it, the others do not: `constructs`.
pub mod Owned
pub mod Ownership
use ps4o.Base.{
  ℕ, zero, suc, ◌+◌, Bool, if◌then◌else◌, ◌==◌, Option, none, some, ◌>>=◌, List, [], ◌∷◌, ◌++◌,
  get_elem?, store,
}

-- `live` are the allocations, `objects` those in which an object has been constructed.
pub record Heap : Type 0 where
  pub next : ℕ
  pub live : List ℕ
  pub objects : List ℕ

-- `alloc_`, and the allocation that `value_` points into; the place in it does not matter here
pub record AlignedPtr : Type 0 where
  pub alloc : Option ℕ
  pub value : Option ℕ

-- `AlignedPtr()`
pub empty_ptr : AlignedPtr
empty_ptr = record { alloc = none; value = none }

-- `AlignedPtr(alignment, ...)`: allocate, then construct at the aligned place
pub make_ptr : (constructs : Bool) → Heap → AlignedPtr × Heap
make_ptr constructs h = (
  record { alloc = some h.next; value = some h.next },
  record {
    next = suc h.next;
    live = h.next ∷ h.live;
    objects = if constructs then h.next ∷ h.objects else h.objects;
  },
)

-- The move constructor: the new pointer, and `rhs` after it
pub move_ptr : (rhs : AlignedPtr) → AlignedPtr × AlignedPtr
move_ptr rhs = (record { alloc = rhs.alloc; value = rhs.value }, record rhs { alloc = none })

-- The move assignment: `this` and `rhs` after it
pub assign_ptr : (this rhs : AlignedPtr) → AlignedPtr × AlignedPtr
assign_ptr this rhs = (
  record { alloc = rhs.alloc; value = rhs.value },
  record { alloc = this.alloc; value = this.value },
)

-- `delete[]` of what is not allocated is a fault.
pub release : ℕ → List ℕ → Option (List ℕ)
release a [] = none
release a (b ∷ live) =
    let rest = release a live >>= λ l. some (b ∷ l) in if a == b then some live else rest

-- `value_->~T()`: a pointer that was never set, or that points to no object, is a fault.
pub destroy_value : Option ℕ → List ℕ → Option (List ℕ)
unfolding release
destroy_value none objects = none
destroy_value (some v) objects = release v objects

-- The destructor
pub destroy_ptr : (constructs : Bool) → AlignedPtr → Heap → Option Heap
unfolding destroy_value
destroy_ptr constructs p h = elim p.alloc [
  | none ↦ some h
  | some a ↦ do
    objects ← if constructs then destroy_value p.value h.objects else some h.objects
    live ← release a h.live
    some (record h { live = live; objects = objects })
]

-- The pointers that are in scope, the newest first, and the heap
pub record Store : Type 0 where
  pub heap : Heap
  pub pointers : List AlignedPtr

-- What a program does with them, of any of the three classes. The newest pointer is destroyed first.
pub data Action : Type 0 where
  declare : Action
  allocate : Action
  move_from : (i : ℕ) → Action
  assign : (i j : ℕ) → Action
  leave_scope : Action

unfoldable pub act : (constructs : Bool) → Action → Store → Option Store
unfolding empty_ptr make_ptr move_ptr assign_ptr destroy_ptr
act constructs declare s = some (record s { pointers = empty_ptr ∷ s.pointers })
act constructs allocate s =
    let (p, h) = make_ptr constructs s.heap in some (record { heap = h; pointers = p ∷ s.pointers })
act constructs (move_from i) s = do
  rhs ← get_elem? s.pointers i
  let (p, rhs') = move_ptr rhs
  ps ← store s.pointers i rhs'
  some (record s { pointers = p ∷ ps })
act constructs (assign i j) s = do
  this ← get_elem? s.pointers i
  rhs ← get_elem? s.pointers j
  let (this', rhs') = assign_ptr this rhs
  ps ← store s.pointers i this'
  qs ← store ps j rhs'
  some (record s { pointers = qs })
act constructs leave_scope s = elim s.pointers [
  | [] ↦ none
  | p ∷ ps ↦ (destroy_ptr constructs p s.heap >>= λ h. some (record { heap = h; pointers = ps }))
]

unfoldable pub act_all : (constructs : Bool) → List Action → Store → Option Store
unfolding act
act_all constructs [] s = some s
act_all constructs (a ∷ as') s = act constructs a s >>= λ t. act_all constructs as' t
