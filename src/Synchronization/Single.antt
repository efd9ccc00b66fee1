-- ===== src/Synchronization/Single.antt =====
-- `single` runs its function in one thread at a time, and never leaves all threads waiting.
use ps4o.Base.{
  tally, tally-find, tally-replicate, store-some, get_elem?-lt, ℕ, ◌+◌, ◌-◌, ◌≤◌, ◌<◌, ◌≡◌, refl,
  Bool, true, false, not, some, inl, inr, List, [], ◌∷◌, arith, length, get_elem?, store,
  length-replicate, >>=-eq-some,
}
use mathlib.Core.Option.{some-injective}
use mathlib.Core.Path.{subst}
use ps4o.Synchronization.Round.{IsRound, enter_single_lem, leave_single_lem, wake_lem}
use ps4o.Synchronization.Tally.{Kind, in_function, waits, waits_outside, waits_executing}
use ps4o.Synchronization.{
  Phase, outside, executing, waiting, Barrier, make_barrier, enter_single, leave_single, System,
  update, Step, enter, leave, wake, Reachable, initial, next,
}

update_lem :
    (n i : ℕ) (p : Phase) (b : Barrier) (ps : List Phase) (t : System)
    → update i (p, b) ps ≡ some t
    → ((qs : List Phase) → store ps i p ≡ some qs → IsRound n b qs)
    → IsRound n t.barrier t.phases
unfolding update
update_lem n i p b ps t e f =
    let (qs, es, et) = >>=-eq-some (store ps i p) _ e in
    let same : record { barrier = b; phases = qs } ≡ t = some-injective _ _ et in
    subst (λ (u : System). IsRound n u.barrier u.phases) same (f qs es)

Step-IsRound :
    (n : ℕ) {s t : System} → Step s t → IsRound n s.barrier s.phases → IsRound n t.barrier t.phases
Step-IsRound n {s = s} {t = t} (enter i h e) r =
    update_lem n i _ _ s.phases t e λ qs es. enter_single_lem n s.barrier s.phases qs i h r es
Step-IsRound n {s = s} {t = t} (leave i h e) r =
    update_lem n i _ _ s.phases t e λ qs es. leave_single_lem n s.barrier s.phases qs i h r es
Step-IsRound n {s = s} {t = t} (wake i f h other e) r =
    update_lem n i _ _ s.phases t e λ qs es. wake_lem n s.barrier s.phases qs i f h other r es

Reachable-IsRound : (n : ℕ) {s : System} → Reachable n s → IsRound n s.barrier s.phases
unfolding make_barrier
Reachable-IsRound n initial = record {
  size = length-replicate n outside;
  threads = refl;
  state = inl (record {
    hit = refl;
    none_waits = tally-replicate (waits false) n outside refl;
    none_executes = tally-replicate in_function n outside refl;
  });
}
Reachable-IsRound n (next r s) = Step-IsRound n s (Reachable-IsRound n r)

-- A thread that is not waiting with the barrier's flag can take a step.
moves :
    (s : System) (i : ℕ) (p : Phase)
    → get_elem? s.phases i ≡ some p
    → waits s.barrier.flag p ≡ 0
    → (t : System) × Step s t
unfolding update
moves s i outside h w =
    let (qs, e) = store-some s.phases i (enter_single s.barrier).0 (get_elem?-lt s.phases i h) in
    (record { barrier = (enter_single s.barrier).1; phases = qs }, enter i h (rw e))
moves s i executing h w =
    let (qs, e) = store-some s.phases i (leave_single s.barrier).0 (get_elem?-lt s.phases i h) in
    (record { barrier = (leave_single s.barrier).1; phases = qs }, leave i h (rw e))
moves s i (waiting f) h w =
    let (qs, e) = store-some s.phases i outside (get_elem?-lt s.phases i h) in
    (record { barrier = s.barrier; phases = qs }, wake i f h (other_flag s.barrier.flag f w) (rw e))
  where
    other_flag : (flag f : Bool) → waits flag (waiting f) ≡ 0 → f ≡ not flag
    other_flag true true h = absurd (omega (arith, h))
    other_flag true false h = refl
    other_flag false true h = refl
    other_flag false false h = absurd (omega (arith, h))

not_waiting : (flag : Bool) → Kind
not_waiting flag p = 1 - waits flag p

tally-not_waiting :
    (flag : Bool) (ps : List Phase)
    → tally (not_waiting flag) ps + tally (waits flag) ps ≡ length ps
unfolding tally not_waiting
tally-not_waiting flag [] = refl
tally-not_waiting flag (p ∷ ps) = omega (arith, tally-not_waiting flag ps, at_most_one flag p)
  where
    at_most_one : (flag : Bool) (p : Phase) → waits flag p ≤ 1
    at_most_one flag outside = omega (arith, waits_outside flag)
    at_most_one flag executing = omega (arith, waits_executing flag)
    at_most_one true (waiting true) = omega arith
    at_most_one true (waiting false) = omega arith
    at_most_one false (waiting true) = omega arith
    at_most_one false (waiting false) = omega arith

progress :
    (s : System) → tally (waits s.barrier.flag) s.phases < length s.phases → (t : System) × Step s t
unfolding not_waiting
progress s h =
    let (i, p, g, pos) =
      tally-find (not_waiting s.barrier.flag) s.phases
        (omega (arith, tally-not_waiting s.barrier.flag s.phases)) in
    moves s i p g (omega arith)

-- In every reachable state of at least one thread that calls `single` again and again, at most one
-- thread is in the function, and there is a step that some thread can take.
pub single_lem :
    (n : ℕ) (s : System)
    → 0 < n
    → Reachable n s
    → (tally in_function s.phases ≤ 1) × ((t : System) × Step s t)
single_lem n s pos reach =
    let r = Reachable-IsRound n reach in
    elim r.state [
      | inl f ↦ (omega (arith, f.none_executes), progress s (omega (arith, f.none_waits, r.size)))
      | inr y ↦ (y.one_executes, progress s (omega (arith, y.hit, y.open_yet, r.size)))
    ]
