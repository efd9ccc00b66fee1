-- ===== src/BaseCase/Insertion.antt =====
-- `insertion_sort` sorts: its loops on an array, seen from `it`, insert into a descending list.
use ps4o.Base.{
  ℕ, suc, ◌≡◌, refl, Bool, true, false, Bool-cases, inl, inr, if◌then◌else◌, some, ◌>>=◌, ◌∙◌, List,
  [], ◌∷◌, ◌++◌, Perm, arith, length, get_elem?, store, rev_onto, get_elem?-rev_onto,
  store-rev_onto, IsStrictWeak, All, All-map, IsAbove, IsSorted, IsDescending, IsSorted-rev_onto,
  rev_onto-perm, All-intro, lt-le_trans, irrefl,
}
use ps4o.BaseCase.{move_backward, shift_back, insert_from, insertion_sort, base_case_sort}
use mathlib.Core.List
use mathlib.Core.List.Perm
use mathlib.Core.List.{append-nil, perm_middle}

module _ {ℓ} {A : Type ℓ} where
  -- The first element of an array, from the reversed part that is done.
  bottom : A → List A → A
  bottom q [] = q
  bottom q (r ∷ rev) = bottom r rev

  get_elem?-bottom :
      (q : A) (rev l : List A) → get_elem? (rev_onto (q ∷ rev) l) 0 ≡ some (bottom q rev)
  unfolding bottom
  get_elem?-bottom q [] l = refl
  get_elem?-bottom q (r ∷ rev) l = get_elem?-bottom r rev (q ∷ l)

module _ {ℓ} {A : Type ℓ} (comp : A → A → Bool) where
  -- Insertion into the reversed part: `val` goes up past the elements that it comes before.
  insert_down : A → List A → List A
  insert_down val [] = val ∷ []
  insert_down val (q ∷ rev) = if comp val q then q ∷ insert_down val rev else val ∷ q ∷ rev

  insert_down-perm : (val : A) (rev : List A) → Perm (insert_down val rev) (val ∷ rev)
  unfolding insert_down
  insert_down-perm val [] = Perm.rfl
  insert_down-perm val (q ∷ rev) = elim (Bool-cases (comp val q)) [
    | inl e ↦
        rw (e, insert_down)
          (Perm.trans (Perm.cons q (insert_down-perm val rev)) (List.Perm.swap val q rev))
    | inr e ↦ rw (e, insert_down) Perm.rfl
  ]

  length-insert_down : (val : A) (rev : List A) → length (insert_down val rev) ≡ suc (length rev)
  unfolding insert_down
  length-insert_down val [] = refl
  length-insert_down val (q ∷ rev) = ground (arith, length-insert_down val rev)

  -- The unguarded loop stops at the latest at the first element, which `val` does not come before.
  shift_back_lem :
      (val c q : A) (rev l : List A)
      → comp val (bottom q rev) ≡ false
      → shift_back comp (suc (length rev)) val (rev_onto (q ∷ rev) (c ∷ l))
        ≡ some (rev_onto (insert_down val (q ∷ rev)) l)
  unfolding shift_back insert_down bottom
  shift_back_lem val c q [] l s = rw s
  shift_back_lem val c q (r ∷ rev) l s =
      rw (get_elem?-rev_onto rev (r ∷ q ∷ c ∷ l) 1 (suc (length rev)) (omega arith))
        (elim (Bool-cases (comp val q)) [
          | inl e ↦
              rw (e, insert_down)
                (rw
                  (store-rev_onto rev (r ∷ q ∷ c ∷ l) (r ∷ q ∷ q ∷ l) 2 (suc (suc (length rev))) q
                    (omega arith) refl)
                  (shift_back_lem val q r rev (q ∷ l) s))
          | inr e ↦
              rw (e, insert_down)
                (store-rev_onto rev (r ∷ q ∷ c ∷ l) (r ∷ q ∷ val ∷ l) 2 (suc (suc (length rev))) val
                  (omega arith) refl)
        ])

  -- A `val` that comes before all that is done goes to the front.
  move_backward_lem :
      (val c : A) (rev l : List A)
      → All (λ q. comp val q ≡ true) rev
      → (move_backward (length rev) (rev_onto rev (c ∷ l)) >>= λ b. store b 0 val)
        ≡ some (rev_onto (insert_down val rev) l)
  unfolding move_backward insert_down
  move_backward_lem val c [] l h = refl
  move_backward_lem val c (q ∷ rev) l h =
      rw (get_elem?-rev_onto rev (q ∷ c ∷ l) 0 (length rev) (omega arith)) (
        rw (store-rev_onto rev (q ∷ c ∷ l) (q ∷ q ∷ l) 1 (suc (length rev)) q (omega arith) refl)
          (rw (h.0, insert_down) (move_backward_lem val q rev (q ∷ l) h.1)))

  module _ (w : IsStrictWeak comp) where
    IsAbove-insert_down :
        (val q : A) (rev : List A)
        → comp q val ≡ false
        → IsAbove comp q rev
        → IsAbove comp q (insert_down val rev)
    unfolding insert_down
    IsAbove-insert_down val q [] h k = (h, tt)
    IsAbove-insert_down val q (r ∷ rev) h k = elim (Bool-cases (comp val r)) [
      | inl e ↦ rw (e, insert_down) (k.0, IsAbove-insert_down val q rev h k.1)
      | inr e ↦ rw (e, insert_down) (h, k)
    ]

    IsDescending-insert_down :
        (val : A) (rev : List A) → IsDescending comp rev → IsDescending comp (insert_down val rev)
    unfolding insert_down
    IsDescending-insert_down val [] h = (tt, tt)
    IsDescending-insert_down val (q ∷ rev) h = elim (Bool-cases (comp val q)) [
      | inl e ↦
          rw (e, insert_down)
            (
              IsAbove-insert_down val q rev (w.asymm val q e) h.0,
              IsDescending-insert_down val rev h.1,
            )
      | inr e ↦ rw (e, insert_down) ((e, All-map _ _ (λ y p. w.le_trans y q val p e) rev h.0), h)
    ]

    bottom_le :
        (q : A) (rev : List A)
        → IsDescending comp (q ∷ rev)
        → All (λ y. comp y (bottom q rev) ≡ false) (q ∷ rev)
    unfolding bottom
    bottom_le q [] h = (irrefl w q, tt)
    bottom_le q (r ∷ rev) h =
        let below = bottom_le r rev h.1 in (w.le_trans _ r q below.0 h.0.0, below)

    -- One round of the loop over `it`.
    insert_from_round :
        (rounds : ℕ) (val q : A) (rev l : List A)
        → IsDescending comp (q ∷ rev)
        → insert_from comp (suc rounds) (suc (length rev)) (rev_onto (q ∷ rev) (val ∷ l))
          ≡ insert_from comp rounds
              (suc (suc (length rev)))
              (rev_onto (insert_down val (q ∷ rev)) l)
    unfolding insert_from
    insert_from_round rounds val q rev l d =
        rw (get_elem?-rev_onto (q ∷ rev) (val ∷ l) 0 (suc (length rev)) (omega arith)) (
          rw (get_elem?-bottom q rev (val ∷ l)) (elim (Bool-cases (comp val (bottom q rev))) [
            | inl e ↦ rw e (
                rw (
                  move_backward_lem val val (q ∷ rev) l
                    (All-map _ _ (λ y p. lt-le_trans w val _ y e p) (q ∷ rev) (bottom_le q rev d))))
            | inr e ↦ rw e (rw (shift_back_lem val val q rev l e))
          ]))

    insert_down_cons :
        (val q : A) (rev : List A)
        → (r : A) × (done : List A) × (insert_down val (q ∷ rev) ≡ r ∷ done)
          × (length done ≡ suc (length rev))
    unfolding insert_down
    insert_down_cons val q rev = elim (Bool-cases (comp val q)) [
      | inl e ↦ (q, insert_down val rev, rw (e, insert_down), length-insert_down val rev)
      | inr e ↦ (val, q ∷ rev, rw (e, insert_down), refl)
    ]

    -- The whole loop, with `done` the part before `it` and `l` the part from `it` on.
    insert_from_lem :
        (q : A) (rev l : List A)
        → IsDescending comp (q ∷ rev)
        → (b : List A) × (insert_from comp (length l) (suc (length rev)) (rev_onto (q ∷ rev) l)
            ≡ some b)
          × IsSorted comp b
          × Perm b ((q ∷ rev) ++ l)
    unfolding insert_from
    insert_from_lem q rev [] d = (
      rev_onto (q ∷ rev) [],
      refl,
      IsSorted-rev_onto comp (q ∷ rev) [] d tt (All-intro _ (λ _. tt) (q ∷ rev)),
      rev_onto-perm (q ∷ rev) [],
    )
    insert_from_lem q rev (val ∷ l) d =
        let (r, done, e, n) = insert_down_cons val q rev in
        let (b, run, sorted, perm) =
          insert_from_lem r done l (rw e at (IsDescending-insert_down val (q ∷ rev) d)) in
        (
          b,
          insert_from_round (length l) val q rev l d ∙ rw (e, ← n) run,
          sorted,
          Perm.trans perm (
              Perm.trans (Perm.append_right l (rw e at (insert_down-perm val (q ∷ rev))))
                (Perm.symm (perm_middle (q ∷ rev) l))),
        )

    -- On a range that is not empty `insertion_sort` stays inside the range, ends, and leaves the
    -- same elements in ascending order.
    pub insertion_sort_lem :
        (x : A) (xs : List A)
        → (b : List A) × (insertion_sort comp (x ∷ xs) ≡ some b) × IsSorted comp b × Perm b (x ∷ xs)
    unfolding insertion_sort
    insertion_sort_lem x xs = insert_from_lem x [] xs (tt, tt)

    -- With a strict weak ordering, `base_case_sort` stays inside the range, the loop without a bounds
    -- check included, ends, and leaves the same elements in ascending order, on any range.
    pub base_case_sort_lem :
        (a : List A) → (b : List A) × (base_case_sort comp a ≡ some b) × IsSorted comp b × Perm b a
    unfolding base_case_sort
    base_case_sort_lem [] = ([], refl, tt, Perm.rfl)
    base_case_sort_lem (x ∷ xs) = insertion_sort_lem x xs
