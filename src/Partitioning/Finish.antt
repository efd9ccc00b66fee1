-- ===== src/Partitioning/Finish.antt =====
-- What the sequential step does to a bucket, on storage that is partly finished.
use ps4o.Base.{
  Option, ℕ, ◌+◌, ◌-◌, ◌*◌, ◌≡◌, refl, sym, ap, Bool, true, false, ◌||◌, leb, none, some, List, [],
  ◌∷◌, ◌++◌, map, arith, length, length-map, length-replicate, length-append, replicate, get_elem?,
  Cells,
}
use mathlib.Core.List.{append_assoc, map-append}
use ps4o.BaseCase.{base_case_sort}
use ps4o.Config.{Config}
use ps4o.Memory.{Arrays}
use ps4o.Partitioning.{move_bucket, sort_and_move}
use ps4o.Partitioning.Pieces.{read_range_middle, splice_middle, relocate_middle}

module _ {ℓ} {A : Type ℓ} where
  replicate_append :
      {B : Type ℓ} (v w : List A) (c : B)
      → replicate (length (v ++ w)) c ≡ replicate (length v) c ++ replicate (length w) c
  replicate_append [] w c = refl
  replicate_append (x ∷ v) w c = ap (λ l. c ∷ l) (replicate_append v w c)

  -- The storages when the elements `done` are where the caller of the step expects them, and `todo` is
  -- still to do. On a level whose input is the user's array the finished ones are there, in `src`.
  abbrev pub progress : (in_input_array : Bool) (src : Cells A) (done todo : List A) → Arrays A
  progress true src done todo = record {
    src = map some done ++ replicate (length todo) none;
    tmp = replicate (length done) none ++ map some todo;
  }
  progress false src done todo = record { src = src; tmp = map some done ++ map some todo }

  same_todo : (v g rest : List A) → length g ≡ length v → length (v ++ rest) ≡ length (g ++ rest)
  same_todo v g rest h = omega (arith, length-append v rest, length-append g rest)

  -- A bucket of the elements `v` begins behind `done`.
  pub record IsNext (saved : List ℕ) (bucket : ℕ) (done v : List A) : Type 0 where
    pub start : get_elem? saved bucket ≡ some (length done)
    pub stop : get_elem? saved (bucket + 1) ≡ some (length done + length v)

  module _ (comp : A → A → Bool) (cfg : Config) (saved : List ℕ) (src : Cells A) where
    pub move_bucket_lem :
        (in_input_array : Bool) (bucket : ℕ) (done v rest : List A)
        → IsNext saved bucket done v
        → move_bucket comp cfg saved in_input_array bucket
            (progress in_input_array src done (v ++ rest))
          ≡ some (progress in_input_array src (done ++ v) rest)
    unfolding move_bucket
    move_bucket_lem true bucket done v rest h =
        let size : length done + length v - length done ≡ length v = omega arith in
        rw (h.start, h.stop)
          (rw size (
            rw (replicate_append {B = Option A} v rest none, map-append some v rest)
              (rw
                (relocate_middle v (replicate (length done) none) (map some rest) (map some done)
                  (replicate (length v) none) (replicate (length rest) none) (length done)
                  (sym (length-replicate (length done) none)) (sym (length-map some done))
                  (length-replicate (length v) none))
                (rw
                  (
                    map-append some done v,
                    replicate_append {B = Option A} done v none,
                    append_assoc (map some done) (map some v) (replicate (length rest) none),
                    append_assoc (replicate (length done) none) (replicate (length v) none)
                        (map some rest),
                  )
                  refl))))
    move_bucket_lem false bucket done v rest h =
        rw (h.start, h.stop)
          (rw
            (
              map-append some v rest,
              map-append some done v,
              append_assoc (map some done) (map some v) (map some rest),
            )
            refl)

    -- With `g` for the elements in the order of the base case
    pub sort_and_move_lem :
        (in_input_array last_level : Bool) (bucket : ℕ) (done v g rest : List A)
        → IsNext saved bucket done v
        → base_case_sort comp v ≡ some g
        → length g ≡ length v
        → (last_level || leb (length v) (2 * cfg.base_case_size)) ≡ true
        → sort_and_move comp cfg saved in_input_array last_level bucket
            (progress in_input_array src done (v ++ rest))
          ≡ some (progress in_input_array src (done ++ g) rest)
    unfolding sort_and_move
    sort_and_move_lem true last_level bucket done v g rest h sorts same small =
        let size : length done + length v - length done ≡ length v = omega arith in
        let next : IsNext saved bucket done g = record { start = h.start; stop = rw same h.stop } in
        let begins : length done ≡ length (replicate {A = Option A} (length done) none) =
          sym (length-replicate (length done) none) in
        rw (h.start, h.stop)
          (rw size (
            rw small (
              rw (map-append some v rest) (
                rw
                  (read_range_middle (replicate (length done) none) (map some rest) v (length done)
                    (length done + length v) begins refl)
                  (rw sorts (
                    rw
                      (splice_middle (replicate (length done) none) (map some g) (map some v)
                        (map some rest) (length done) (length done + length v) begins
                        (ap (λ n. length done + n) (sym (length-map some v))))
                      (rw (same_todo v g rest same) (
                        rw (sym (map-append some g rest))
                          (move_bucket_lem true bucket done g rest next)))))))))
    sort_and_move_lem false last_level bucket done v g rest h sorts same small =
        let size : length done + length v - length done ≡ length v = omega arith in
        let next : IsNext saved bucket done g = record { start = h.start; stop = rw same h.stop } in
        let begins : length done ≡ length (map some done) = sym (length-map some done) in
        rw (h.start, h.stop)
          (rw size (
            rw small (
              rw (map-append some v rest) (
                rw
                  (read_range_middle (map some done) (map some rest) v (length done)
                    (length done + length v) begins refl)
                  (rw sorts (
                    rw
                      (splice_middle (map some done) (map some g) (map some v) (map some rest)
                        (length done) (length done + length v) begins
                        (ap (λ n. length done + n) (sym (length-map some v))))
                      (rw (sym (map-append some g rest))
                        (move_bucket_lem false bucket done g rest next))))))))
