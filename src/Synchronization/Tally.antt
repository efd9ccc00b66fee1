-- ===== src/Synchronization/Tally.antt =====
-- How many threads are in a phase of a kind.
use ps4o.Base.{tally, ℕ, ◌+◌, ◌≡◌, refl, Bool, true, false, not, List, [], ◌∷◌, arith, length}
use ps4o.Synchronization.{Phase, outside, executing, waiting}

-- The threads of one kind: those in the function, those that wait with the flag, and with the other one
abbrev pub Kind : Type 0
Kind = Phase → ℕ

abbrev pub in_function : Kind
in_function outside = 0
in_function executing = 1
in_function (waiting f) = 0

abbrev pub waits : Bool → Kind
waits flag outside = 0
waits flag executing = 0
waits true (waiting true) = 1
waits true (waiting false) = 0
waits false (waiting true) = 0
waits false (waiting false) = 1

abbrev pub is_outside : Kind
is_outside outside = 1
is_outside executing = 0
is_outside (waiting f) = 0

-- Every thread is of one kind.
pub tally-length :
    (flag : Bool) (ps : List Phase)
    → tally is_outside ps
        + tally in_function ps
        + tally (waits flag) ps
        + tally (waits (not flag)) ps
      ≡ length ps
unfolding tally
tally-length flag [] = refl
tally-length flag (outside ∷ ps) = omega (arith, tally-length flag ps)
tally-length flag (executing ∷ ps) = omega (arith, tally-length flag ps)
tally-length true (waiting true ∷ ps) = omega (arith, tally-length true ps)
tally-length true (waiting false ∷ ps) = omega (arith, tally-length true ps)
tally-length false (waiting true ∷ ps) = omega (arith, tally-length false ps)
tally-length false (waiting false ∷ ps) = omega (arith, tally-length false ps)

pub waits_self : (flag : Bool) → waits flag (waiting flag) ≡ 1
waits_self true = refl
waits_self false = refl

pub waits_other : (flag : Bool) → waits flag (waiting (not flag)) ≡ 0
waits_other true = refl
waits_other false = refl

pub waits_outside : (flag : Bool) → waits flag outside ≡ 0
waits_outside true = refl
waits_outside false = refl

pub waits_executing : (flag : Bool) → waits flag executing ≡ 0
waits_executing true = refl
waits_executing false = refl
