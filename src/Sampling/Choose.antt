-- ===== src/Sampling/Choose.antt =====
-- The loops of `buildClassifier` that choose the splitters and fill the array with the last one.
use ps4o.Base.{
  ℕ, zero, suc, ◌+◌, ◌*◌, ◌≤◌, ◌<◌, ◌≡◌, refl, sym, ap, ◌∙◌, Bool, true, false, Bool-cases, inl,
  inr, some, List, [], ◌∷◌, ◌++◌, map, arith, length, length-append, get_elem?, get_elem?-append,
  get_elem?-some, Cells, fetch, construct, fetch-store_self, fetch-store_other, store-some,
  length-store, All, All-append, All-map, IsAbove, IsSorted, IsStrictWeak, irrefl, le-lt_trans,
}
use mathlib.Core.Option.{some-injective}
use native.Mathlib.Decide.{ℕ_discrete}
use ps4o.Classifier.Rank.{IsSorted-get}
use ps4o.Sampling.{Chosen, choose_splitters, pad_splitters}
use ps4o.Sampling.Select.{fetch-map-some}

-- Each comes before all that follow.
abbrev pub IsStrict {ℓ} : {A : Type ℓ} → (A → A → Bool) → List A → Type 0
IsStrict comp [] = Unit
IsStrict comp (x ∷ xs) = All (λ y. comp x y ≡ true) xs × IsStrict comp xs

module _ {ℓ} {A : Type ℓ} where
  -- The cells begin with the objects of a list.
  abbrev pub Holds : List A → Cells A → Type ℓ
  Holds s cells = (i : ℕ) → i < length s → fetch cells i ≡ get_elem? s i

  get_elem?-append_left :
      (p l : List A) (i : ℕ) → i < length p → get_elem? (p ++ l) i ≡ get_elem? p i
  get_elem?-append_left [] l i h = absurd (omega arith)
  get_elem?-append_left (x ∷ p) l zero h = refl
  get_elem?-append_left (x ∷ p) l (suc i) h = get_elem?-append_left p l i (omega arith)

  pub Holds-snoc :
      (s : List A) (cells ds : Cells A) (y : A)
      → Holds s cells
      → construct cells (length s) y ≡ some ds
      → Holds (s ++ y ∷ []) ds
  Holds-snoc s cells ds y h e i lt = elim (ℕ_discrete i (length s)) [
    | yes same ↦ rw same (
        fetch-store_self cells ds (length s) (some y) e
        ∙ sym (get_elem?-append s (y ∷ []) 0 (length s) (omega arith)))
    | no ne ↦
        let low : i < length s = omega (arith, length-append s (y ∷ [])) in
        fetch-store_other cells ds (length s) i (some y) e ne
        ∙ h i low
        ∙ sym (get_elem?-append_left s (y ∷ []) i low)
  ]

module _ {ℓ} {A : Type ℓ} (comp : A → A → Bool) where
  pub IsSorted-snoc :
      (s : List A) (y : A) → IsSorted comp s → IsAbove comp y s → IsSorted comp (s ++ y ∷ [])
  IsSorted-snoc [] y h k = (tt, tt)
  IsSorted-snoc (x ∷ s) y h k = (All-append _ s (y ∷ []) h.0 (k.0, tt), IsSorted-snoc s y h.1 k.1)

  IsStrict-snoc :
      (s : List A) (y : A)
      → IsStrict comp s
      → All (λ e. comp e y ≡ true) s
      → IsStrict comp (s ++ y ∷ [])
  IsStrict-snoc [] y h k = (tt, tt)
  IsStrict-snoc (x ∷ s) y h k = (All-append _ s (y ∷ []) h.0 (k.0, tt), IsStrict-snoc s y h.1 k.1)

  module _ (w : IsStrictWeak comp) where
    pub IsStrict-IsSorted : (s : List A) → IsStrict comp s → IsSorted comp s
    IsStrict-IsSorted [] h = tt
    IsStrict-IsSorted (x ∷ s) h =
        (All-map _ _ (λ y p. w.asymm x y p) s h.0, IsStrict-IsSorted s h.1)

    IsAbove-le : (a b : A) (l : List A) → comp b a ≡ false → IsAbove comp a l → IsAbove comp b l
    IsAbove-le a b l h = All-map _ _ (λ y p. w.le_trans y a b p h) l

    -- The splitters `s` that have been chosen
    pub record IsChosen (s : List A) (c : Chosen A) : Type ℓ where
      pub count : length s ≡ suc c.last
      pub splitters : Holds s c.sorted
      pub ascending : IsStrict comp s
      pub greatest : (x : A) → get_elem? s c.last ≡ some x → IsAbove comp x s

    IsChosen-snoc :
        (s : List A) (c : Chosen A) (x y : A) (ds : Cells A)
        → IsChosen s c
        → get_elem? s c.last ≡ some x
        → comp x y ≡ true
        → construct c.sorted (suc c.last) y ≡ some ds
        → IsAbove comp y s
        → IsChosen (s ++ y ∷ []) (record { sorted = ds; last = suc c.last })
    IsChosen-snoc s c x y ds h e less put above =
        let at : construct c.sorted (length s) y ≡ some ds =
          ap (λ i. construct c.sorted i y) h.count ∙ put in
        record {
          count = omega (arith, length-append s (y ∷ []), h.count);
          splitters = Holds-snoc s c.sorted ds y h.splitters at;
          ascending =
              IsStrict-snoc s y h.ascending
                (All-map _ _ (λ z p. le-lt_trans w z x y p less) s (h.greatest x e));
          greatest = λ z k.
              let same : y ≡ z =
                some-injective _ _
                  (sym (get_elem?-append s (y ∷ []) 0 (suc c.last) (omega (arith, h.count))) ∙ k) in
              rw (sym same) (All-append _ s (y ∷ []) above (irrefl w y, tt));
        }

    -- What the loop leaves: the splitters, and the last sample that it has seen
    pub record HasChosen (rounds : ℕ) (vs : List A) (last room : ℕ) (t : List A) (d : Chosen A)
        : Type ℓ where
      pub chosen : IsChosen t d
      pub few : length t ≤ rounds
      pub same_room : length d.sorted ≡ room
      pub seen : (y : A) → get_elem? vs last ≡ some y → IsAbove comp y t

    -- From ascending samples, the loop chooses the next sample whenever it comes after the last splitter.
    pub choose_splitters_lem :
        (rounds step at final : ℕ) (vs s : List A) (c : Chosen A)
        → final ≡ at + rounds * step
        → 0 < step
        → IsSorted comp vs
        → final < length vs
        → IsChosen s c
        → ((y : A) → get_elem? vs at ≡ some y → IsAbove comp y s)
        → length s + rounds ≤ length c.sorted
        → (t : List A) × (d : Chosen A) × (choose_splitters comp rounds step at (map some vs) c
            ≡ some d)
          × HasChosen (length s + rounds) vs final (length c.sorted) t d
    unfolding choose_splitters
    choose_splitters_lem zero step at final vs s c same pos asc lt h below room =
        let here : final ≡ at = omega (arith, same) in
        (
          s,
          c,
          refl,
          record { chosen = h; few = omega arith; same_room = refl; seen = rw here below },
        )
    choose_splitters_lem (suc rounds) step at final vs s c same pos asc lt h below room =
        let more : at + suc rounds * step ≡ at + step + rounds * step = grind arith in
        let (p, ep) = get_elem?-some vs at (omega (arith, more)) in
        let (y, ey) = get_elem?-some vs (at + step) (omega (arith, more)) in
        let (x, ex) = get_elem?-some s c.last (omega (arith, h.count)) in
        let fx : fetch c.sorted c.last ≡ some x =
          h.splitters c.last (omega (arith, h.count)) ∙ ex in
        let fy : fetch (map some vs) (at + step) ≡ some y = fetch-map-some vs (at + step) ∙ ey in
        let ge : comp y p ≡ false =
          IsSorted-get comp vs asc at (at + step) p y (omega arith) ep ey in
        let above : IsAbove comp y s = IsAbove-le p y s ge (below p ep) in
        elim (Bool-cases (comp x y)) [
          | inl less ↦
              let (ds, put) = store-some c.sorted (suc c.last) (some y) (omega (arith, h.count)) in
              let len = length-append s (y ∷ []) in
              let (t, d, e, k) =
                choose_splitters_lem rounds step (at + step) final vs (s ++ y ∷ [])
                  (record { sorted = ds; last = suc c.last }) (omega (arith, more)) pos asc lt
                  (IsChosen-snoc s c x y ds h ex less put above)
                  (λ z q.
                    let same : y ≡ z = some-injective _ _ (sym ey ∙ q) in
                    rw (sym same) (All-append _ s (y ∷ []) above (irrefl w y, tt)))
                  (omega (arith, len, length-store c.sorted ds (suc c.last) (some y) put)) in
              (
                t,
                d,
                rw (fx, fy) (rw (less, put) e),
                record {
                  chosen = k.chosen;
                  few = omega (arith, k.few, len);
                  same_room =
                      omega
                        (arith, k.same_room, length-store c.sorted ds (suc c.last) (some y) put);
                  seen = k.seen;
                },
              )
          | inr not_less ↦
              let (t, d, e, k) =
                choose_splitters_lem rounds step (at + step) final vs s c (omega (arith, more)) pos
                  asc lt h
                  (λ z q. let same : y ≡ z = some-injective _ _ (sym ey ∙ q) in rw (sym same) above)
                  (omega arith) in
              (
                t,
                d,
                rw (fx, fy) (rw not_less e),
                record {
                  chosen = k.chosen;
                  few = omega (arith, k.few);
                  same_room = k.same_room;
                  seen = k.seen;
                },
              )
        ]

    pub pad_splitters_lem :
        (rounds : ℕ) (splitter : A) (t : List A) (d : Chosen A)
        → length t ≡ suc d.last
        → Holds t d.sorted
        → IsSorted comp t
        → IsAbove comp splitter t
        → length t + rounds ≤ length d.sorted
        → (u : List A) × (e : Chosen A) × (pad_splitters rounds splitter d ≡ some e)
          × Holds u e.sorted
          × IsSorted comp u
          × (length u ≡ length t + rounds)
          × (length e.sorted ≡ length d.sorted)
    unfolding pad_splitters
    pad_splitters_lem zero splitter t d n h asc above room = (t, d, refl, h, asc, omega arith, refl)
    pad_splitters_lem (suc rounds) splitter t d n h asc above room =
        let (ds, put) = store-some d.sorted (suc d.last) (some splitter) (omega (arith, n)) in
        let at : construct d.sorted (length t) splitter ≡ some ds =
          ap (λ i. construct d.sorted i splitter) n ∙ put in
        let len = length-append t (splitter ∷ []) in
        let kept = length-store d.sorted ds (suc d.last) (some splitter) put in
        let (u, e, done, holds, sorted, size, same) =
          pad_splitters_lem rounds splitter (t ++ splitter ∷ [])
            (record { sorted = ds; last = suc d.last }) (omega (arith, len, n))
            (Holds-snoc t d.sorted ds splitter h at) (IsSorted-snoc t splitter asc above)
            (All-append _ t (splitter ∷ []) above (irrefl w splitter, tt))
            (omega (arith, len, kept)) in
        (u, e, rw put done, holds, sorted, omega (arith, size, len), omega (arith, same, kept))
