-- ===== src/ThreadPool/Stages.antt =====
-- Between two barriers every thread is in the same part of its loop, which the flag of the barrier tells.
use ps4o.Base.{
  ℕ, ◌+◌, ◌-◌, ◌≤◌, ◌<◌, ◌≡◌, refl, sym, ap, ◌∙◌, Bool, true, false, not, ◌==◌, some, List, arith,
  length, length-store, get_elem?, store, tally, tally-store, tally-ge, tally-add-le, tally-add,
  tally_one,
}
use mathlib.Core.Path.{subst}
use native.Mathlib.Decide.{ℕ_discrete}
use ps4o.Synchronization.{outside, executing, waiting, Barrier, make_barrier, notify_all, arrive}
use ps4o.Synchronization
use ps4o.ThreadPool.{
  Phase, absent, ready, before_first, at_first, started, running, before_second, at_second, ended,
  Pool,
}

-- Phases that do not belong to the part of the loop which a flag stands for. A thread that has not yet
-- woken is in the next part already.
abbrev pub misplaced : Bool → Phase → ℕ
misplaced false absent = 0
misplaced false ready = 0
misplaced false before_first = 0
misplaced false (at_first false) = 0
misplaced false (at_first true) = 1
misplaced false started = 1
misplaced false running = 1
misplaced false before_second = 1
misplaced false (at_second false) = 1
misplaced false (at_second true) = 0
misplaced false ended = 1
misplaced true absent = 1
misplaced true ready = 1
misplaced true before_first = 1
misplaced true (at_first false) = 0
misplaced true (at_first true) = 1
misplaced true started = 0
misplaced true running = 0
misplaced true before_second = 0
misplaced true (at_second false) = 1
misplaced true (at_second true) = 0
misplaced true ended = 0

-- The threads that wait for the others
abbrev pub held : Bool → Phase → ℕ
held false (at_first false) = 1
held true (at_second true) = 1
held f p = 0

abbrev pub taken : Bool → Phase → ℕ
taken f p = misplaced (not f) p + held (not f) p

taken-held : (f : Bool) (p : Phase) → taken f p + held f p ≤ 1
taken-held false absent = omega arith
taken-held false ready = omega arith
taken-held false before_first = omega arith
taken-held false (at_first false) = omega arith
taken-held false (at_first true) = omega arith
taken-held false started = omega arith
taken-held false running = omega arith
taken-held false before_second = omega arith
taken-held false (at_second false) = omega arith
taken-held false (at_second true) = omega arith
taken-held false ended = omega arith
taken-held true absent = omega arith
taken-held true ready = omega arith
taken-held true before_first = omega arith
taken-held true (at_first false) = omega arith
taken-held true (at_first true) = omega arith
taken-held true started = omega arith
taken-held true running = omega arith
taken-held true before_second = omega arith
taken-held true (at_second false) = omega arith
taken-held true (at_second true) = omega arith
taken-held true ended = omega arith

-- The invariant, with the flag: fewer threads than all wait, which `hit` tells, and none is misplaced.
pub record IsStaged (n : ℕ) (f : Bool) (b : Barrier) (ps : List Phase) : Type 0 where
  pub flag : b.flag ≡ f
  pub size : length ps ≡ n
  pub threads : b.init_count ≡ n
  pub hit : b.hit + tally (held f) ps ≡ n + 1
  pub some_missing : 1 < b.hit
  pub placed : tally (misplaced f) ps ≡ 0

-- A step in one part of the loop
pub stay :
    (n : ℕ) (f : Bool) (b : Barrier) (a c : List Phase) (i : ℕ) (p q : Phase)
    → IsStaged n f b a
    → get_elem? a i ≡ some p
    → store a i q ≡ some c
    → held f q ≡ held f p
    → misplaced f q ≤ misplaced f p
    → IsStaged n f b c
stay n f b a c i p q o h e same ok = record {
  flag = o.flag;
  size = length-store a c i q e ∙ o.size;
  threads = o.threads;
  hit = omega (arith, o.hit, tally-store (held f) a c i p q h e);
  some_missing = o.some_missing;
  placed = omega (arith, o.placed, tally-store (misplaced f) a c i p q h e);
}

-- A thread arrives: it waits, or it is the last and all are in the next part.
pub arrive_lem :
    (n : ℕ) (f : Bool) (b : Barrier) (a : List Phase) (i : ℕ) (p : Phase)
    (to : Synchronization.Phase → Phase)
    → IsStaged n f b a
    → get_elem? a i ≡ some p
    → held f p ≡ 0
    → misplaced (not f) p ≡ 1
    → held f (to (waiting f)) ≡ 1
    → misplaced f (to (waiting f)) ≡ 0
    → taken f (to outside) ≡ 0
    → (c : List Phase) → store a i (to (arrive b).0) ≡ some c
    → (g : Bool) × IsStaged n g (arrive b).1 c
unfolding arrive notify_all
arrive_lem n f b a i p to o h none_held away waits fits passes c e = elim (ℕ_discrete b.hit 2) [
  | yes last ↦
      let all : (b.hit - 1 == 1) ≡ true = ground arith in
      let e' : store a i (to outside) ≡ some c = rw all at e in
      let split = tally-add (misplaced (not f)) (held (not f)) (taken f) c (λ x. refl) in
      let gone : tally (taken f) c ≡ 0 = omega (
        arith,
        tally-store (taken f) a c i p (to outside) h e',
        tally-add-le (taken f) (held f) a (taken-held f),
        o.hit,
        o.size,
      ) in
      (
        not f,
        rw all (record {
          flag = ap not o.flag;
          size = length-store a c i (to outside) e' ∙ o.size;
          threads = o.threads;
          hit = omega (arith, o.threads);
          some_missing = omega (arith, o.threads, o.hit, o.size, at_least_one);
          placed = omega arith;
        }),
      )
  | no more ↦
      let some_left : (b.hit - 1 == 1) ≡ false = ground (arith, o.some_missing) in
      let e' : store a i (to (waiting b.flag)) ≡ some c = rw some_left at e in
      let e'' : store a i (to (waiting f)) ≡ some c = rw o.flag at e' in
      (
        f,
        rw some_left (record {
          flag = o.flag;
          size = length-store a c i (to (waiting f)) e'' ∙ o.size;
          threads = o.threads;
          hit =
              omega
                (arith, o.hit, o.some_missing, tally-store (held f) a c i p (to (waiting f)) h e'');
          some_missing = omega (arith, o.some_missing);
          placed =
              omega (arith, o.placed, tally-store (misplaced f) a c i p (to (waiting f)) h e'');
        }),
      )
]
  where
    at_least_one : 1 ≤ length a
    at_least_one = omega (arith, tally-ge (λ x. 1) a i p h, tally_one a)

-- The part of the loop, from a thread's phase
first_part : (f : Bool) → misplaced f before_first ≡ 0 → f ≡ false
first_part false h = refl
first_part true h = absurd (omega (arith, h))

second_part : (f : Bool) → misplaced f started ≡ 0 → f ≡ true
second_part true h = refl
second_part false h = absurd (omega (arith, h))

unfoldable pub Stage : (n : ℕ) (p : Pool) → Type 0
Stage n p = (f : Bool) × IsStaged n f p.pool_barrier p.phases

-- The part is the one that the phase of some thread needs.
pub settled :
    (n : ℕ) (p : Pool) (f : Bool) (i : ℕ) (x : Phase)
    → IsStaged n f p.pool_barrier p.phases
    → get_elem? p.phases i ≡ some x
    → misplaced f x ≡ 0
settled n p f i x o h = omega (arith, o.placed, tally-ge (misplaced f) p.phases i x h)

pub in_first :
    (n : ℕ) (p : Pool) (i : ℕ) (x : Phase)
    → Stage n p
    → get_elem? p.phases i ≡ some x
    → ((f : Bool) → misplaced f x ≡ misplaced f before_first)
    → IsStaged n false p.pool_barrier p.phases
unfolding Stage
in_first n p i x (f, o) h like =
    subst (λ g. IsStaged n g p.pool_barrier p.phases)
      (first_part f (sym (like f) ∙ settled n p f i x o h)) o

pub in_second :
    (n : ℕ) (p : Pool) (i : ℕ) (x : Phase)
    → Stage n p
    → get_elem? p.phases i ≡ some x
    → ((f : Bool) → misplaced f x ≡ misplaced f started)
    → IsStaged n true p.pool_barrier p.phases
unfolding Stage
in_second n p i x (f, o) h like =
    subst (λ g. IsStaged n g p.pool_barrier p.phases)
      (second_part f (sym (like f) ∙ settled n p f i x o h)) o

pub like_first :
    (x : Phase)
    → misplaced false x ≡ 0
    → misplaced true x ≡ 1
    → (f : Bool) → misplaced f x ≡ misplaced f before_first
like_first x a b false = a
like_first x a b true = b

pub like_second :
    (x : Phase)
    → misplaced true x ≡ 0
    → misplaced false x ≡ 1
    → (f : Bool) → misplaced f x ≡ misplaced f started
like_second x a b true = a
like_second x a b false = b

-- A thread that wakes is behind the barrier already.
pub woken_first :
    (n : ℕ) (p : Pool) (i : ℕ) (f : Bool)
    → Stage n p
    → get_elem? p.phases i ≡ some (at_first f)
    → (f ≡ p.pool_barrier.flag → ⊥)
    → IsStaged n true p.pool_barrier p.phases × (f ≡ false)
unfolding Stage
woken_first n p i true (false, o) h ne =
    absurd (omega (arith, settled n p false i (at_first true) o h))
woken_first n p i true (true, o) h ne =
    absurd (omega (arith, settled n p true i (at_first true) o h))
woken_first n p i false (false, o) h ne = absurd (ne (sym o.flag))
woken_first n p i false (true, o) h ne = (o, refl)

pub woken_second :
    (n : ℕ) (p : Pool) (i : ℕ) (f : Bool)
    → Stage n p
    → get_elem? p.phases i ≡ some (at_second f)
    → (f ≡ p.pool_barrier.flag → ⊥)
    → IsStaged n false p.pool_barrier p.phases × (f ≡ true)
unfolding Stage
woken_second n p i false (false, o) h ne =
    absurd (omega (arith, settled n p false i (at_second false) o h))
woken_second n p i false (true, o) h ne =
    absurd (omega (arith, settled n p true i (at_second false) o h))
woken_second n p i true (true, o) h ne = absurd (ne (sym o.flag))
woken_second n p i true (false, o) h ne = (o, refl)
