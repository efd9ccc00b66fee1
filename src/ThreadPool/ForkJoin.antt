-- ===== src/ThreadPool/ForkJoin.antt =====
-- The function of a call is run by the threads of the call only, and while the caller is in the call.
use ps4o.Base.{
  ℕ, zero, suc, ◌-◌, ◌<◌, ◌≡◌, ◌≢◌, refl, sym, ap, ◌∙◌, max, Bool, true, false, if◌then◌else◌, ltb,
  some, List, ◌∷◌, arith, get_elem?, store, get_elem?-store_self, get_elem?-store_other, replicate,
}
use mathlib.Core.Option.{some-injective}
use native.Mathlib.Decide.{ℕ_discrete}
use ps4o.Synchronization.{outside, executing, waiting, arrive}
use ps4o.Synchronization
use ps4o.ThreadPool.{
  Phase, absent, ready, before_first, at_first, started, running, before_second, at_second, ended,
  Pool, make_pool, first_phase, second_phase, after_start, Step, join, run, release, arrive_first,
  wake_first, go_on, return_from, arrive_second, wake_second, Reachable, start, next,
}
use ps4o.ThreadPool.Stages.{misplaced, Stage, settled, in_first, like_first}
use ps4o.ThreadPool.Steps.{Step-Stage, initial_Stage}

abbrev runs : Phase → ℕ
runs absent = 0
runs ready = 0
runs before_first = 0
runs (at_first f) = 0
runs started = 0
runs running = 1
runs before_second = 0
runs (at_second f) = 0
runs ended = 0

-- Every thread in the function is one of the call, and the pool has not been released.
record IsCalled (p : Pool) : Type 0 where
  called : (k : ℕ) → get_elem? p.phases k ≡ some running → (k < p.num_threads) × (p.done ≡ false)

-- A thread that goes elsewhere
elsewhere :
    (a c : List Phase) (i k : ℕ) (x : Phase)
    → store a i x ≡ some c
    → runs x ≡ 0
    → get_elem? c k ≡ some running
    → get_elem? a k ≡ some running
elsewhere a c i k x e no_run h = elim (ℕ_discrete k i) [
  | yes same ↦
      let there : x ≡ running =
        some-injective _ _
          (sym (get_elem?-store_self a c i x e) ∙ ap (get_elem? c) (sym same) ∙ h) in
      absurd (omega (arith, ap runs there))
  | no ne ↦ sym (get_elem?-store_other a c i k x e ne) ∙ h
]

none_runs :
    (n : ℕ) (p : Pool) (i : ℕ) (x : Phase) (k : ℕ)
    → Stage n p
    → get_elem? p.phases i ≡ some x
    → misplaced false x ≡ 0
    → misplaced true x ≡ 1
    → get_elem? p.phases k ≡ some running
    → ⊥
none_runs n p i x k s h a b r =
    omega (arith, settled n p false k running (in_first n p i x s h (like_first x a b)) r)

first_phase-runs : (s : Synchronization.Phase) → runs (first_phase s) ≡ 0
unfolding first_phase
first_phase-runs outside = refl
first_phase-runs executing = refl
first_phase-runs (waiting f) = refl

second_phase-runs : (i : ℕ) (s : Synchronization.Phase) → runs (second_phase i s) ≡ 0
unfolding second_phase
second_phase-runs i outside = ground arith
second_phase-runs i executing = ground arith
second_phase-runs i (waiting f) = refl

after_start-running :
    (i : ℕ) (p : Pool) → runs (after_start i p) ≡ 1 → (i < p.num_threads) × (p.done ≡ false)
unfolding after_start
after_start-running i p = go p.done refl
  where
    go :
        (d : Bool)
        → p.done ≡ d
        → runs (if d then ended else if ltb i p.num_threads then running else before_second) ≡ 1
        → (i < p.num_threads) × (p.done ≡ false)
    go true e h = absurd (omega (arith, h))
    go false e h = (ground arith, e)

Step-IsCalled : (n : ℕ) {p q : Pool} → Stage n p → IsCalled p → Step p q → IsCalled q
Step-IsCalled n {p = p} s o (join i {ps = ps} h e) = record {
  called = λ k r. o.called k (elsewhere p.phases ps i k before_first e refl r);
}
Step-IsCalled n {p = p} s o (run func m {ps = ps} h pos e) = record {
  called = λ k r.
      absurd
        (none_runs n p 0 ready k s h refl refl (elsewhere p.phases ps 0 k before_first e refl r));
}
Step-IsCalled n {p = p} s o (release {ps = ps} h e) = record {
  called = λ k r.
      absurd
        (none_runs n p 0 ready k s h refl refl (elsewhere p.phases ps 0 k before_first e refl r));
}
Step-IsCalled n {p = p} s o (arrive_first i {ps = ps} h e) = record {
  called = λ k r.
      o.called k (elsewhere p.phases ps i k _ e (first_phase-runs (arrive p.pool_barrier).0) r);
}
Step-IsCalled n {p = p} s o (wake_first i f {ps = ps} h ne e) = record {
  called = λ k r. o.called k (elsewhere p.phases ps i k started e refl r);
}
Step-IsCalled n {p = p} s o (go_on i {ps = ps} h e) = record {
  called = λ k r. elim (ℕ_discrete k i) [
    | yes same ↦
        let there : after_start i p ≡ running = some-injective _ _ (
          sym (get_elem?-store_self p.phases ps i (after_start i p) e)
          ∙ ap (get_elem? ps) (sym same)
          ∙ r) in
        let (lt, d) = after_start-running i p (ap runs there) in (omega arith, d)
    | no ne ↦ o.called k (sym (get_elem?-store_other p.phases ps i k (after_start i p) e ne) ∙ r)
  ];
}
Step-IsCalled n {p = p} s o (return_from i {ps = ps} h e) = record {
  called = λ k r. o.called k (elsewhere p.phases ps i k before_second e refl r);
}
Step-IsCalled n {p = p} s o (arrive_second i {ps = ps} h e) = record {
  called = λ k r.
      o.called k (elsewhere p.phases ps i k _ e (second_phase-runs i (arrive p.pool_barrier).0) r);
}
Step-IsCalled n {p = p} s o (wake_second i f {ps = ps} h ne e) = record {
  called = λ k r. o.called k (elsewhere p.phases ps i k _ e (second_phase-runs i outside) r);
}

replicate_absent : (m k : ℕ) → get_elem? (replicate m absent) k ≡ some running → ⊥
replicate_absent zero k h = cc
replicate_absent (suc m) zero h = omega (arith, ap runs (some-injective absent running h))
replicate_absent (suc m) (suc k) h = replicate_absent m k h

initial_IsCalled : (n : ℕ) → IsCalled (make_pool n)
unfolding make_pool
initial_IsCalled n = record { called = go }
  where
    go :
        (k : ℕ)
        → get_elem? (ready ∷ replicate (max 1 n - 1) absent) k ≡ some running
        → (k < n) × (false ≡ false)
    go zero h = absurd (omega (arith, ap runs (some-injective ready running h)))
    go (suc k) h = absurd (replicate_absent (max 1 n - 1) k h)

reached : (n : ℕ) {p : Pool} → Reachable n p → Stage (max 1 n) p × IsCalled p
reached n start = (initial_Stage n, initial_IsCalled n)
reached n (next r s) =
    let (st, c) = reached n r in (Step-Stage (max 1 n) st s, Step-IsCalled (max 1 n) st c s)

-- In every reachable state of a pool of any number of threads: a thread is in the function only if its
-- number is below that of the call, the pool has not been released, and the caller has not returned from
-- the call.
pub fork_join_lem :
    (n : ℕ) (p : Pool) (k : ℕ)
    → Reachable n p
    → get_elem? p.phases k ≡ some running
    → (k < p.num_threads) × (p.done ≡ false) × (get_elem? p.phases 0 ≢ some ready)
fork_join_lem n p k r h =
    let (s, c) = reached n r in
    let (lt, d) = c.called k h in (lt, d, λ z. none_runs (max 1 n) p 0 ready k s z refl refl h)
