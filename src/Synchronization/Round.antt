-- ===== src/Synchronization/Round.antt =====
-- The invariant of a round of `single`, and that every section under the mutex preserves it.
use ps4o.Base.{
  tally, tally-store, tally-ge, ℕ, ◌+◌, ◌-◌, ◌≤◌, ◌<◌, ◌≡◌, refl, ◌∙◌, ap, Bool, true, false, not,
  ◌==◌, some, ◌⊎◌, inl, inr, List, arith, length, get_elem?, store, length-store,
}
use native.Mathlib.Decide.{ℕ_discrete}
use ps4o.Synchronization.Tally.{
  in_function, waits, is_outside, tally-length, waits_self, waits_other, waits_outside,
  waits_executing,
}
use ps4o.Synchronization.{
  Phase, outside, executing, waiting, Barrier, notify_all, finish_single, enter_single,
  leave_single,
}

-- No thread has entered in this round: no thread waits for its end or is in the function.
pub record IsFresh (n : ℕ) (b : Barrier) (ps : List Phase) : Type 0 where
  pub hit : b.hit ≡ n + 1
  pub none_waits : tally (waits b.flag) ps ≡ 0
  pub none_executes : tally in_function ps ≡ 0

-- Some have: the first of them is in the function, or has left it and waits.
pub record IsBusy (n : ℕ) (b : Barrier) (ps : List Phase) : Type 0 where
  pub hit : b.hit + tally (waits b.flag) ps ≡ n
  pub open_yet : 0 < b.hit
  pub one_executes : tally in_function ps ≤ 1
  pub some_entered : 0 < tally in_function ps + tally (waits b.flag) ps

pub record IsRound (n : ℕ) (b : Barrier) (ps : List Phase) : Type 0 where
  pub size : length ps ≡ n
  pub threads : b.init_count ≡ n
  pub state : IsFresh n b ps ⊎ IsBusy n b ps

-- The section at the end of `single`, for a thread that was outside or in the function: `hit` counts
-- those that have not entered.
finish_single_lem :
    (n : ℕ) (b : Barrier) (ps qs : List Phase) (i : ℕ) (p : Phase)
    → get_elem? ps i ≡ some p
    → length ps ≡ n
    → b.init_count ≡ n
    → b.hit + tally (waits b.flag) ps + 1 ≡ n
    → waits b.flag p ≡ 0
    → waits (not b.flag) p ≡ 0
    → tally in_function ps ≤ 1
    → store ps i (finish_single b).0 ≡ some qs
    → IsRound n (finish_single b).1 qs
unfolding finish_single notify_all
finish_single_lem n b ps qs i p h size threads count wp wp' only e = elim (ℕ_discrete b.hit 0) [
  | yes last ↦
      let zero_hit : (b.hit == 0) ≡ true = ground arith in
      let e' : store ps i outside ≡ some qs = rw zero_hit at e in
      rw zero_hit (record {
        size = length-store ps qs i outside e' ∙ size;
        threads = threads;
        state = inl (record {
          hit = omega arith;
          none_waits = omega (
            arith,
            tally-store (waits (not b.flag)) ps qs i p outside h e',
            waits_outside (not b.flag),
            tally-length b.flag ps,
            tally-ge is_outside ps i p h,
            tally-ge in_function ps i p h,
            kinds,
          );
          none_executes = omega (
            arith,
            tally-store in_function ps qs i p outside h e',
            tally-length b.flag ps,
            tally-ge is_outside ps i p h,
            tally-ge in_function ps i p h,
            kinds,
          );
        });
      })
  | no more ↦
      let some_hit : (b.hit == 0) ≡ false = ground arith in
      let e' : store ps i (waiting b.flag) ≡ some qs = rw some_hit at e in
      rw some_hit (record {
        size = length-store ps qs i (waiting b.flag) e' ∙ size;
        threads = threads;
        state = inr (record {
          hit = omega (
            arith,
            tally-store (waits b.flag) ps qs i p (waiting b.flag) h e',
            waits_self b.flag,
          );
          open_yet = omega arith;
          one_executes = omega (arith, tally-store in_function ps qs i p (waiting b.flag) h e');
          some_entered = omega (
            arith,
            tally-store (waits b.flag) ps qs i p (waiting b.flag) h e',
            waits_self b.flag,
          );
        });
      })
]
  where
    kind_of :
        (flag : Bool) (q : Phase)
        → waits flag q ≡ 0
        → waits (not flag) q ≡ 0
        → is_outside q + in_function q ≡ 1
    kind_of flag outside h k = refl
    kind_of flag executing h k = refl
    kind_of true (waiting true) h k = absurd (omega (arith, h))
    kind_of true (waiting false) h k = absurd (omega (arith, k))
    kind_of false (waiting true) h k = absurd (omega (arith, k))
    kind_of false (waiting false) h k = absurd (omega (arith, h))

    kinds : is_outside p + in_function p ≡ 1
    kinds = kind_of b.flag p wp wp'

pub enter_single_lem :
    (n : ℕ) (b : Barrier) (ps qs : List Phase) (i : ℕ)
    → get_elem? ps i ≡ some outside
    → IsRound n b ps
    → store ps i (enter_single b).0 ≡ some qs
    → IsRound n (enter_single b).1 qs
unfolding enter_single
enter_single_lem n b ps qs i h r e = elim r.state [
  | inl f ↦
      let first : (b.hit == b.init_count + 1) ≡ true = ground (arith, f.hit, r.threads) in
      let e' : store ps i executing ≡ some qs = rw first at e in
      let w = tally-store (waits b.flag) ps qs i outside executing h e' in
      let x = tally-store in_function ps qs i outside executing h e' in
      let pos = tally-length b.flag ps in
      rw first (record {
        size = length-store ps qs i executing e' ∙ r.size;
        threads = r.threads;
        state = inr (record {
          hit = omega (arith, w, f.hit, f.none_waits, waits_outside b.flag, waits_executing b.flag);
          open_yet = omega (arith, f.hit, r.size, pos, tally-ge is_outside ps i outside h);
          one_executes = omega (arith, x, f.none_executes);
          some_entered = omega (arith, x, f.none_executes);
        });
      })
  | inr y ↦
      let later : (b.hit == b.init_count + 1) ≡ false = ground (arith, y.hit, r.threads) in
      let e' : store ps i (finish_single (record b { hit = b.hit - 1 })).0 ≡ some qs =
        rw later at e in
      rw later (
        finish_single_lem n (record b { hit = b.hit - 1 }) ps qs i outside h r.size r.threads
          (omega (arith, y.hit, y.open_yet)) (waits_outside b.flag) (waits_outside (not b.flag))
          y.one_executes e')
]

pub leave_single_lem :
    (n : ℕ) (b : Barrier) (ps qs : List Phase) (i : ℕ)
    → get_elem? ps i ≡ some executing
    → IsRound n b ps
    → store ps i (leave_single b).0 ≡ some qs
    → IsRound n (leave_single b).1 qs
unfolding leave_single
leave_single_lem n b ps qs i h r e = elim r.state [
  | inl f ↦ absurd (omega (arith, f.none_executes, tally-ge in_function ps i executing h))
  | inr y ↦
      finish_single_lem n (record b { hit = b.hit - 1 }) ps qs i executing h r.size r.threads
        (omega (arith, y.hit, y.open_yet)) (waits_executing b.flag) (waits_executing (not b.flag))
        y.one_executes e
]

pub wake_lem :
    (n : ℕ) (b : Barrier) (ps qs : List Phase) (i : ℕ) (f : Bool)
    → get_elem? ps i ≡ some (waiting f)
    → f ≡ not b.flag
    → IsRound n b ps
    → store ps i outside ≡ some qs
    → IsRound n b qs
wake_lem n b ps qs i f h other r e =
    let w = tally-store (waits b.flag) ps qs i (waiting f) outside h e in
    let x = tally-store in_function ps qs i (waiting f) outside h e in
    let zero_wait : waits b.flag (waiting f) ≡ 0 =
      ap (λ g. waits b.flag (waiting g)) other ∙ waits_other b.flag in
    let same : tally (waits b.flag) qs ≡ tally (waits b.flag) ps =
      omega (arith, w, zero_wait, waits_outside b.flag) in
    record {
      size = length-store ps qs i outside e ∙ r.size;
      threads = r.threads;
      state = elim r.state [
        | inl k ↦ inl (record {
          hit = k.hit;
          none_waits = same ∙ k.none_waits;
          none_executes = omega (arith, x, k.none_executes);
        })
        | inr k ↦ inr (record {
          hit = ap (λ m. b.hit + m) same ∙ k.hit;
          open_yet = k.open_yet;
          one_executes = omega (arith, x, k.one_executes);
          some_entered = omega (arith, x, same, k.some_entered);
        })
      ];
    }
