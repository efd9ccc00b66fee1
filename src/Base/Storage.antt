-- ===== src/Base/Storage.antt =====
-- Raw storage: a cell holds a live object or none. Reading a cell with no live object fails, as does
-- any access out of range.
use Prim.Native.Nat.{ℕ, zero, suc, ◌-◌, ◌<◌}
use mathlib.Core.Path.{◌≡◌, refl, ap}
use mathlib.Core.Logic.{◌≢◌}
use mathlib.Core.Option.{Option, none, some}
use mathlib.Core.List.{List, [], ◌∷◌}
use native.Mathlib.Omega.{arith}
use ps4o.Base.Lists.{length, store, cons?-eq-some}
use ps4o.Base.Options.{◌>>=◌}

abbrev pub Cells {ℓ} : Type ℓ → Type ℓ
Cells A = List (Option A)

module _ {ℓ} {A : Type ℓ} where
  -- The object at `p + i`
  abbrev pub fetch : Cells A → ℕ → Option A
  fetch [] i = none
  fetch (c ∷ cs) zero = c
  fetch (c ∷ cs) (suc i) = fetch cs i

  -- The object before `p + i`
  abbrev pub fetch_before : Cells A → ℕ → Option A
  fetch_before cs zero = none
  fetch_before cs (suc i) = fetch cs i

  -- `new (p + i) T(v)`
  abbrev pub construct : Cells A → ℕ → A → Option (Cells A)
  construct cs i v = store cs i (some v)

  -- `(p + i)->~T()`
  abbrev pub destroy : Cells A → ℕ → Option (Cells A)
  destroy cs i = fetch cs i >>= λ _. store cs i none

  pub fetch-store_self :
      (cs ds : Cells A) (i : ℕ) (c : Option A) → store cs i c ≡ some ds → fetch ds i ≡ c
  fetch-store_self [] ds i c h = cc
  fetch-store_self (d ∷ cs) ds zero c h = let e : ds ≡ c ∷ cs = cc in rw e
  fetch-store_self (d ∷ cs) ds (suc i) c h =
      let (es, e, f) = cons?-eq-some d (store cs i c) h in rw f (fetch-store_self cs es i c e)

  pub fetch-store_other :
      (cs ds : Cells A) (i j : ℕ) (c : Option A)
      → store cs i c ≡ some ds
      → j ≢ i
      → fetch ds j ≡ fetch cs j
  fetch-store_other [] ds i j c h ne = cc
  fetch-store_other (d ∷ cs) ds zero zero c h ne = absurd (ne refl)
  fetch-store_other (d ∷ cs) ds zero (suc j) c h ne = let e : ds ≡ c ∷ cs = cc in rw e
  fetch-store_other (d ∷ cs) ds (suc i) zero c h ne =
      let (es, e, f) = cons?-eq-some d (store cs i c) h in rw f
  fetch-store_other (d ∷ cs) ds (suc i) (suc j) c h ne =
      let (es, e, f) = cons?-eq-some d (store cs i c) h in
      rw f (fetch-store_other cs es i j c e (λ p. ne (ap suc p)))

  pub fetch-lt : (cs : Cells A) (i : ℕ) {x : A} → fetch cs i ≡ some x → i < length cs
  fetch-lt [] i h = cc
  fetch-lt (c ∷ cs) zero h = omega arith
  fetch-lt (c ∷ cs) (suc i) h = omega (arith, fetch-lt cs i h)

  pub fetch_before-eq : (cs : Cells A) (i : ℕ) → 0 < i → fetch_before cs i ≡ fetch cs (i - 1)
  fetch_before-eq cs zero h = absurd (omega arith)
  fetch_before-eq cs (suc i) h = let e : i ≡ suc i - 1 = omega arith in ap (fetch cs) e
