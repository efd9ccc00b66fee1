-- ===== src/ThreadPool/Steps.antt =====
-- Every step of a pool leads from a stage to a stage.
use ps4o.Base.{
  ℕ, ◌-◌, ◌≡◌, refl, ap, ◌∙◌, max, true, false, inl, inr, Bool-cases, ◌==◌, ltb, some, arith,
  length-replicate, tally, tally-replicate,
}
use ps4o.Synchronization.{outside, make_barrier}
use ps4o.ThreadPool.{
  absent, ready, before_first, at_first, started, running, before_second, at_second, Pool,
  make_pool, first_phase, second_phase, after_start, Step, join, run, release, arrive_first,
  wake_first, go_on, return_from, arrive_second, wake_second,
}
use ps4o.ThreadPool.Stages.{
  Stage, arrive_lem, held, in_first, in_second, like_first, like_second, misplaced, stay, taken,
  woken_first, woken_second,
}

after_start_kind :
    (i : ℕ) (p : Pool) → (held true (after_start i p) ≡ 0) × (misplaced true (after_start i p) ≡ 0)
unfolding after_start
after_start_kind i p = elim (Bool-cases p.done) [
  | inl e ↦ rw e (refl, refl)
  | inr e ↦ rw e (elim (Bool-cases (ltb i p.num_threads)) [
    | inl l ↦ rw l (refl, refl)
    | inr l ↦ rw l (refl, refl)
  ])
]

second_phase_kind :
    (i : ℕ)
    → (held false (second_phase i outside) ≡ 0)
      × (misplaced false (second_phase i outside) ≡ 0)
      × (taken true (second_phase i outside) ≡ 0)
unfolding second_phase
second_phase_kind i = elim (Bool-cases (i == 0)) [
  | inl e ↦ rw e (refl, refl, refl)
  | inr e ↦ rw e (refl, refl, refl)
]

pub Step-Stage : (n : ℕ) {p q : Pool} → Stage n p → Step p q → Stage n q
unfolding Stage first_phase second_phase
Step-Stage n {p = p} o (join i {ps = ps} h e) = (
  false,
  stay n false p.pool_barrier p.phases ps i absent before_first
      (in_first n p i absent o h (like_first absent refl refl)) h e refl (omega arith),
)
Step-Stage n {p = p} o (run func k {ps = ps} h pos e) = (
  false,
  stay n false p.pool_barrier p.phases ps 0 ready before_first
      (in_first n p 0 ready o h (like_first ready refl refl)) h e refl (omega arith),
)
Step-Stage n {p = p} o (release {ps = ps} h e) = (
  false,
  stay n false p.pool_barrier p.phases ps 0 ready before_first
      (in_first n p 0 ready o h (like_first ready refl refl)) h e refl (omega arith),
)
Step-Stage n {p = p} o (arrive_first i {ps = ps} h e) =
    arrive_lem n false p.pool_barrier p.phases i before_first first_phase
      (in_first n p i before_first o h (λ f. refl)) h refl refl refl refl refl ps e
Step-Stage n {p = p} o (wake_first i f {ps = ps} h ne e) =
    let (s, z) = woken_first n p i f o h ne in
    (
      true,
      stay n true p.pool_barrier p.phases ps i (at_first false) started s
          (h ∙ ap (λ g. some (at_first g)) z) e refl (omega arith),
    )
Step-Stage n {p = p} o (go_on i {ps = ps} h e) =
    let (k, m) = after_start_kind i p in
    (
      true,
      stay n true p.pool_barrier p.phases ps i started (after_start i p)
          (in_second n p i started o h (λ f. refl)) h e k (omega (arith, m)),
    )
Step-Stage n {p = p} o (return_from i {ps = ps} h e) = (
  true,
  stay n true p.pool_barrier p.phases ps i running before_second
      (in_second n p i running o h (like_second running refl refl)) h e refl (omega arith),
)
Step-Stage n {p = p} o (arrive_second i {ps = ps} h e) =
    arrive_lem n true p.pool_barrier p.phases i before_second (second_phase i)
      (in_second n p i before_second o h (like_second before_second refl refl)) h refl refl refl
      refl (second_phase_kind i).2 ps e
Step-Stage n {p = p} o (wake_second i f {ps = ps} h ne e) =
    let (s, z) = woken_second n p i f o h ne in
    let (k, m, t) = second_phase_kind i in
    (
      false,
      stay n false p.pool_barrier p.phases ps i (at_second true) (second_phase i outside) s
          (h ∙ ap (λ g. some (at_second g)) z) e k (omega (arith, m)),
    )

pub initial_Stage : (n : ℕ) → Stage (max 1 n) (make_pool n)
unfolding Stage make_pool make_barrier tally
initial_Stage n = (
  false,
  record {
    flag = refl;
    size = omega (arith, length-replicate (max 1 n - 1) absent);
    threads = refl;
    hit = omega (arith, tally-replicate (held false) (max 1 n - 1) absent refl);
    some_missing = omega arith;
    placed = omega (arith, tally-replicate (misplaced false) (max 1 n - 1) absent refl);
  },
)
