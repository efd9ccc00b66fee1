-- ===== src/BaseCase/Presorted.antt =====
-- `sorted_case_sort` takes the ranges that ascend or descend, and leaves any other alone.
use ps4o.Base.{
  ◌≡◌, refl, ◌↔◌, ◌⊎◌, inl, inr, Bool, true, false, Bool-cases, List, [], ◌∷◌, Perm, arith,
  IsStrictWeak, All, All-map, IsSorted, IsDescending, IsAbove, IsSorted-rev_onto, rev_onto-perm,
  All-intro, irrefl,
}
use ps4o.BaseCase.{SortedCase, no_ascent, last_of, sorted_case_sort}
use ps4o.BaseCase.Neighbours.{ascending_of_check, IsSorted→is_sorted_range}
use mathlib.Core.List.Perm
use mathlib.Core.List.{append-nil}

module _ {ℓ} {A : Type ℓ} (comp : A → A → Bool) (w : IsStrictWeak comp) where
  IsAbove-le : (a b : A) (l : List A) → comp a b ≡ false → IsAbove comp b l → IsAbove comp a l
  IsAbove-le a b l h = All-map _ _ (λ y p. w.le_trans y b a p h) l

  no_ascent→IsDescending : (l : List A) → no_ascent comp l ≡ true → IsDescending comp l
  unfolding no_ascent
  no_ascent→IsDescending [] h = tt
  no_ascent→IsDescending (a ∷ []) h = (tt, tt)
  no_ascent→IsDescending (a ∷ b ∷ l) h =
      let tail = no_ascent→IsDescending (b ∷ l) (ground arith) in
      let first : comp a b ≡ false = ground arith in ((first, IsAbove-le a b l first tail.0), tail)

  IsDescending→no_ascent : (l : List A) → IsDescending comp l → no_ascent comp l ≡ true
  unfolding no_ascent
  IsDescending→no_ascent [] d = refl
  IsDescending→no_ascent (a ∷ []) d = refl
  IsDescending→no_ascent (a ∷ b ∷ l) d = rw d.0.0 (IsDescending→no_ascent (b ∷ l) d.1)

  -- The last element comes after the first in an ascending range, and before all in a descending one.
  last_of-ge : (x : A) (l : List A) → IsSorted comp (x ∷ l) → comp (last_of x l) x ≡ false
  unfolding last_of
  last_of-ge x [] s = irrefl w x
  last_of-ge x (y ∷ l) s = w.le_trans x y (last_of y l) s.0.0 (last_of-ge y l s.1)

  last_of-le :
      (x : A) (l : List A)
      → IsDescending comp (x ∷ l)
      → All (λ y. comp y (last_of x l) ≡ false) (x ∷ l)
  unfolding last_of
  last_of-le x [] d = (irrefl w x, tt)
  last_of-le x (y ∷ l) d =
      let tail = last_of-le y l d.1 in (w.le_trans (last_of y l) y x tail.0 d.0.0, tail)

  IsSorted-equal :
      (x : A) (l : List A)
      → All (λ y. comp x y ≡ false) l
      → All (λ y. comp y x ≡ false) l
      → IsSorted comp l
  IsSorted-equal x [] below above = tt
  IsSorted-equal x (y ∷ l) below above = (
    All-map _ _ (λ z p. w.le_trans y x z below.0 p) l above.1,
    IsSorted-equal x l below.1 above.1,
  )

  -- A range that descends and does not end below its first element has equal elements only.
  IsSorted-descending :
      (x : A) (l : List A)
      → IsDescending comp (x ∷ l)
      → comp (last_of x l) x ≡ false
      → IsSorted comp (x ∷ l)
  IsSorted-descending x l d h =
      IsSorted-equal x (x ∷ l) (irrefl w x, d.0)
        (All-map _ _ (λ y p. w.le_trans x (last_of x l) y h p) (x ∷ l) (last_of-le x l d))

  -- What is reported: the elements are the same, a range reported sorted is, any other is as it was.
  abbrev pub Reported : List A → SortedCase A → Type ℓ
  Reported a r =
      Perm r.range a × (r.sorted ≡ true → IsSorted comp r.range) × (r.sorted ≡ false → r.range ≡ a)

  -- With a strict weak ordering, `sorted_case_sort` leaves the same elements, a range that it reports
  -- sorted ascends, and one that it does not is as it was.
  pub sorted_case_sort_lem : (a : List A) → Reported a (sorted_case_sort comp a)
  unfolding sorted_case_sort
  sorted_case_sort_lem [] = (Perm.rfl, (λ _. tt), (λ _. refl))
  sorted_case_sort_lem (x ∷ l) = elim (Bool-cases (comp (last_of x l) x)) [
    | inl less ↦ elim (Bool-cases (no_ascent comp (x ∷ l))) [
      | inl down ↦
          rw (less, down)
            (
              rw append-nil at (rev_onto-perm (x ∷ l) []),
              (λ _.
                  IsSorted-rev_onto comp (x ∷ l) [] (no_ascent→IsDescending (x ∷ l) down) tt
                    (All-intro _ (λ _. tt) (x ∷ l))),
              (λ e. cc),
            )
      | inr mixed ↦ rw (less, mixed) (Perm.rfl, (λ e. cc), (λ _. refl))
    ]
    | inr ge ↦ rw ge (Perm.rfl, ascending_of_check comp w (x ∷ l), (λ _. refl))
  ]

  -- With a strict weak ordering, a range is reported sorted exactly when it ascends or descends.
  pub sorted_case_sort_iff :
      (a : List A)
      → ((sorted_case_sort comp a).sorted ≡ true) ↔ (IsSorted comp a ⊎ IsDescending comp a)
  unfolding sorted_case_sort
  sorted_case_sort_iff [] = ((λ _. inl tt), (λ _. refl))
  sorted_case_sort_iff (x ∷ l) = elim (Bool-cases (comp (last_of x l) x)) [
    | inl less ↦ elim (Bool-cases (no_ascent comp (x ∷ l))) [
      | inl down ↦ rw (less, down) ((λ _. inr (no_ascent→IsDescending (x ∷ l) down)), (λ _. refl))
      | inr mixed ↦
          rw (less, mixed)
            (
              (λ e. cc),
              λ d. elim d [
                | inl s ↦ (let ge = last_of-ge x l s in cc)
                | inr t ↦ (let down = IsDescending→no_ascent (x ∷ l) t in cc)
              ],
            )
    ]
    | inr ge ↦ rw ge (
      (λ e. inl (ascending_of_check comp w (x ∷ l) e)),
      λ d.
          IsSorted→is_sorted_range comp (x ∷ l)
            (elim d [ inl s ↦ s | inr t ↦ IsSorted-descending x l t ge ]),
    )
  ]
