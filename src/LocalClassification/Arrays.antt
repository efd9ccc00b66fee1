-- ===== src/LocalClassification/Arrays.antt =====
-- Reads after writes, and the loops that fill a part of an array.
use ps4o.Base.{
  ℕ, zero, suc, ◌+◌, ◌≤◌, ◌<◌, ◌≡◌, refl, sym, ap, ◌∙◌, Option, some, List, arith, length,
  get_elem?, store-some, get_elem?-store_self, get_elem?-store_other, length-store,
}
use ps4o.LocalClassification.{fill}
use native.Mathlib.Decide.{ℕ_discrete}

-- An array after `fill`: the values where the loop has been, the old ones elsewhere.
pub record Filled (first last : ℕ) (value : ℕ → Option ℕ) (a b : List ℕ) : Type 0 where
  pub size : length b ≡ length a
  pub inside : (j : ℕ) → first ≤ j → j < last → get_elem? b j ≡ value j
  pub below : (j : ℕ) → j < first → get_elem? b j ≡ get_elem? a j
  pub above : (j : ℕ) → last ≤ j → get_elem? b j ≡ get_elem? a j

pub fill_lem :
    (rounds i last : ℕ) (value : ℕ → Option ℕ) (a : List ℕ)
    → last ≡ i + rounds
    → last ≤ length a
    → ((j : ℕ) → j < last → (v : ℕ) × (value j ≡ some v))
    → (b : List ℕ) × (fill rounds i value a ≡ some b) × Filled i last value a b
unfolding fill
fill_lem zero i last value a e room all = (
  a,
  refl,
  record {
    size = refl;
    inside = λ j p q. absurd (omega arith);
    below = λ j p. refl;
    above = λ j p. refl;
  },
)
fill_lem (suc rounds) i last value a e room all =
    let (v, ev) = all i (omega arith) in
    let (c, ec) = store-some a i v (omega arith) in
    let (b, eb, f) =
      fill_lem rounds (suc i) last value c (omega arith) (omega (arith, length-store a c i v ec))
        all in
    (
      b,
      rw ev (rw ec eb),
      record {
        size = f.size ∙ length-store a c i v ec;
        inside = λ j p q. elim (ℕ_discrete j i) [
          | yes same ↦
              ap (get_elem? b) same
              ∙ f.below i (omega arith)
              ∙ get_elem?-store_self a c i v ec
              ∙ sym ev
              ∙ ap value (sym same)
          | no ne ↦ f.inside j (omega arith) q
        ];
        below = λ j p. f.below j (omega arith) ∙ get_elem?-store_other a c i j v ec (omega arith);
        above = λ j p. f.above j p ∙ get_elem?-store_other a c i j v ec (omega arith);
      },
    )
