-- ===== src/Partitioning/Dead.antt =====
-- The distribution leaves no object in the stripe that it reads.
use ps4o.Base.{
  ℕ, zero, suc, ◌+◌, ◌≤◌, ◌<◌, ◌≡◌, refl, sym, ap, ◌∙◌, some, none, >>=-eq-some, List, arith,
  get_elem?, store, Cells, fetch, construct, destroy, fetch-store_self, fetch-store_other,
}
use mathlib.Core.Option.{some-injective}
use native.Mathlib.Decide.{ℕ_discrete}
use ps4o.Partitioning.{Distributed, distribute_elements}

module _ {ℓ} {A : Type ℓ} where
  destroy-none :
      (cells after : Cells A) (i j : ℕ)
      → destroy cells i ≡ some after
      → fetch cells j ≡ none
      → fetch after j ≡ none
  destroy-none cells after i j h dead =
      let (v, ev, es) = >>=-eq-some (fetch cells i) _ h in
      elim (ℕ_discrete j i) [
        | yes e ↦ rw e (fetch-store_self cells after i none es)
        | no ne ↦ fetch-store_other cells after i j none es ne ∙ dead
      ]

  destroy_self :
      (cells after : Cells A) (i : ℕ) → destroy cells i ≡ some after → fetch after i ≡ none
  destroy_self cells after i h =
      let (v, ev, es) = >>=-eq-some (fetch cells i) _ h in fetch-store_self cells after i none es

  -- The steps of one round of the distribution
  record IsRound (rounds i : ℕ) (oracle : List ℕ) (d e : Distributed A) : Type ℓ where
    src : Cells A
    next : Distributed A
    destroyed : destroy d.arrays.src i ≡ some src
    same : next.arrays.src ≡ src
    rest : distribute_elements rounds (suc i) oracle next ≡ some e

  round_lem :
      (rounds i : ℕ) (oracle : List ℕ) (d e : Distributed A)
      → distribute_elements (suc rounds) i oracle d ≡ some e
      → IsRound rounds i oracle d e
  unfolding distribute_elements
  round_lem rounds i oracle d e h =
      let (b, eb, h1) = >>=-eq-some (get_elem? oracle i) _ h in
      let (pos, ep, h2) = >>=-eq-some (get_elem? d.bucket_start b) _ h1 in
      let (v, ev, h3) = >>=-eq-some (fetch d.arrays.src i) _ h2 in
      let (t, et, h4) = >>=-eq-some (construct d.arrays.tmp pos v) _ h3 in
      let (s, es, h5) = >>=-eq-some (destroy d.arrays.src i) _ h4 in
      let (n, en, h6) = >>=-eq-some (store d.bucket_start b (pos + 1)) _ h5 in
      record {
        src = s;
        next = record { arrays = record { src = s; tmp = t }; bucket_start = n };
        destroyed = es;
        same = refl;
        rest = h6;
      }

  -- The distribution makes no object in the input,
  pub distribute_elements-none :
      (rounds i : ℕ) (oracle : List ℕ) (d e : Distributed A) (j : ℕ)
      → distribute_elements rounds i oracle d ≡ some e
      → fetch d.arrays.src j ≡ none
      → fetch e.arrays.src j ≡ none
  unfolding distribute_elements
  distribute_elements-none zero i oracle d e j h dead =
      ap (λ (x : Distributed A). fetch x.arrays.src j) (sym (some-injective d e h)) ∙ dead
  distribute_elements-none (suc rounds) i oracle d e j h dead =
      let r = round_lem rounds i oracle d e h in
      distribute_elements-none rounds (suc i) oracle r.next e j r.rest (
        ap (λ (c : Cells A). fetch c j) r.same
        ∙ destroy-none d.arrays.src r.src i j r.destroyed dead)

  -- and leaves none in its stripe.
  pub distribute_elements-dead :
      (rounds i : ℕ) (oracle : List ℕ) (d e : Distributed A) (j : ℕ)
      → distribute_elements rounds i oracle d ≡ some e
      → i ≤ j
      → j < i + rounds
      → fetch e.arrays.src j ≡ none
  distribute_elements-dead zero i oracle d e j h lo hi = absurd (omega arith)
  distribute_elements-dead (suc rounds) i oracle d e j h lo hi =
      let r = round_lem rounds i oracle d e h in
      elim (ℕ_discrete j i) [
        | yes k ↦ distribute_elements-none rounds (suc i) oracle r.next e j r.rest (
            ap (λ (c : Cells A). fetch c j) r.same
            ∙ ap (fetch r.src) k
            ∙ destroy_self d.arrays.src r.src i r.destroyed)
        | no ne ↦
            distribute_elements-dead rounds (suc i) oracle r.next e j r.rest (omega arith)
              (omega arith)
      ]
