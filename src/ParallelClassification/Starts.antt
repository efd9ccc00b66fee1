-- ===== src/ParallelClassification/Starts.antt =====
-- The scan gives every thread a region of its own in every bucket: the regions lie bucket by bucket, and
-- within a bucket thread by thread.
use ps4o.Base.{
  ℕ, zero, suc, ◌+◌, ◌*◌, ◌≤◌, ◌<◌, ◌≡◌, ◌≢◌, refl, sym, ◌∙◌, ap, Option, some, ◌>>=◌, List, arith,
  length, get_elem?, get_elem?-some, store-some, length-store, get_elem?-store_self,
  get_elem?-store_other,
}
use native.Mathlib.Decide.{ℕ_discrete}
use native.Mathlib.Numerals.{add-one}
use mathlib.Core.Option.{some-injective}
use mathlib.Core.Path.{subst}
use ps4o.LocalClassification.Scan.{prefix}
use ps4o.ParallelClassification.{Offsets, set_start, scan_threads, scan_buckets, scan}

-- The entry of a thread for a bucket
abbrev pub start_of : List (List ℕ) → (thread bucket : ℕ) → Option ℕ
start_of starts thread bucket = get_elem? starts thread >>= λ row. get_elem? row bucket

-- An array for each thread, with an entry for each bucket
pub record HasRows (threads buckets : ℕ) (starts : List (List ℕ)) : Type 0 where
  pub rows : threads ≤ length starts
  pub wide : (t : ℕ) (row : List ℕ) → get_elem? starts t ≡ some row → buckets ≤ length row

-- What one write does
record IsWritten (threads buckets t b v : ℕ) (a c : List (List ℕ)) : Type 0 where
  self : start_of c t b ≡ some v
  other_thread : (u d : ℕ) → u ≢ t → start_of c u d ≡ start_of a u d
  other_bucket : (u d : ℕ) → d ≢ b → start_of c u d ≡ start_of a u d
  room : HasRows threads buckets c

set_start_lem :
    (threads buckets t b v : ℕ) (a : List (List ℕ))
    → t < threads
    → b < buckets
    → HasRows threads buckets a
    → (c : List (List ℕ)) × (set_start t b v a ≡ some c) × IsWritten threads buckets t b v a c
unfolding set_start
set_start_lem threads buckets t b v a tl bl h =
    let (row, er) = get_elem?-some a t (omega (arith, h.rows)) in
    let wide = h.wide t row er in
    let (row', es) = store-some row b v (omega arith) in
    let (c, ec) = store-some a t row' (omega (arith, h.rows)) in
    let here : get_elem? c t ≡ some row' = get_elem?-store_self a c t row' ec in
    let there : (u : ℕ) → u ≢ t → get_elem? c u ≡ get_elem? a u =
      λ u ne. get_elem?-store_other a c t u row' ec ne in
    (
      c,
      rw er (rw es ec),
      record {
        self = rw here (get_elem?-store_self row row' b v es);
        other_thread = λ u d ne. ap (λ m. m >>= λ r. get_elem? r d) (there u ne);
        other_bucket = λ u d ne. elim (ℕ_discrete u t) [
          | yes e ↦
              ap (λ k. start_of c k d) e
              ∙ ap (λ m. m >>= λ r. get_elem? r d) here
              ∙ get_elem?-store_other row row' b d v es ne
              ∙ sym (ap (λ m. m >>= λ r. get_elem? r d) er)
              ∙ sym (ap (λ k. start_of a k d) e)
          | no n ↦ ap (λ m. m >>= λ r. get_elem? r d) (there u n)
        ];
        room = record {
          rows = omega (arith, h.rows, length-store a c t row' ec);
          wide = λ u r e. elim (ℕ_discrete u t) [
            | yes p ↦
                let same : r ≡ row' = some-injective _ _ (sym e ∙ ap (get_elem? c) p ∙ here) in
                omega (arith, ap length same, length-store row row' b v es)
            | no n ↦ h.wide u r (sym (there u n) ∙ e)
          ];
        };
      },
    )

module _ (max_buckets threads buckets : ℕ) (size : (t b : ℕ) → ℕ) (bucket_size : List ℕ) where
  -- All elements of a bucket
  unfoldable pub total : (bucket : ℕ) → ℕ
  unfolding prefix
  total b = prefix (λ t. size t b) threads

  -- The sizes of all threads stand in the shared array.
  unfoldable pub HasSizes : Type 0
  HasSizes =
      (t b : ℕ)
      → t < threads
      → b < buckets
      → get_elem? bucket_size (t * max_buckets + b) ≡ some (size t b)

  -- After the inner loop for a bucket: the entries of all threads for it, and no other, have been set.
  record IsRow (b off : ℕ) (a c : List (List ℕ)) : Type 0 where
    here : (t : ℕ) → t < threads → start_of c t b ≡ some (off + prefix (λ u. size u b) t)
    others : (u d : ℕ) → d ≢ b → start_of c u d ≡ start_of a u d
    room : HasRows threads buckets c

  scan_threads_lem :
      (rounds thread b off sum : ℕ) (a : List (List ℕ))
      → threads ≡ thread + rounds
      → sum ≡ off + prefix (λ u. size u b) thread
      → b < buckets
      → HasSizes
      → HasRows threads buckets a
      → ((t : ℕ) → t < thread → start_of a t b ≡ some (off + prefix (λ u. size u b) t))
      → (c : List (List ℕ)) × (scan_threads max_buckets bucket_size rounds thread b sum a
          ≡ some (c, off + total b))
        × IsRow b off a c
  unfolding scan_threads prefix HasSizes total
  scan_threads_lem zero thread b off sum a e s bl h r before =
      let all : threads ≡ thread = omega arith in
      (
        a,
        ap (λ n. some (a, n)) (s ∙ ap (λ n. off + prefix (λ u. size u b) n) (sym all)),
        record { here = λ t lt. before t (omega arith); others = λ u d ne. refl; room = r },
      )
  scan_threads_lem (suc rounds) thread b off sum a e s bl h r before =
      let (c, ec, w) = set_start_lem threads buckets thread b sum a (omega arith) bl r in
      let (d, ed, v) =
        scan_threads_lem rounds (suc thread) b off (sum + size thread b) c (omega arith)
          (omega arith) bl h w.room
          (λ t lt. elim (ℕ_discrete t thread) [
            | yes same ↦
                ap (λ k. start_of c k b) same
                ∙ w.self
                ∙ ap some s
                ∙ ap (λ k. some (off + prefix (λ u. size u b) k)) (sym same)
            | no ne ↦ w.other_thread t b ne ∙ before t (omega arith)
          ]) in
      (
        d,
        rw ec (rw (h thread b (omega arith) bl) ed),
        record {
          here = v.here;
          others = λ u k ne. v.others u k ne ∙ w.other_bucket u k ne;
          room = v.room;
        },
      )

  -- Where the first `bucket` buckets end, and where the part of a thread begins in each
  pub record HasOffsets (bucket : ℕ) (o : Offsets) : Type 0 where
    pub starts :
        (t b : ℕ)
        → t < threads
        → b < bucket
        → start_of o.bucket_starts t b ≡ some (prefix total b + prefix (λ u. size u b) t)
    pub saved : (j : ℕ) → j ≤ bucket → get_elem? o.bucket_start_save j ≡ some (prefix total j)

  scan_buckets_lem :
      (rounds b : ℕ) (o : Offsets)
      → buckets ≡ b + rounds
      → buckets < length o.bucket_start_save
      → HasSizes
      → HasRows threads buckets o.bucket_starts
      → HasOffsets b o
      → (p : Offsets) × (scan_buckets max_buckets bucket_size threads rounds b (prefix total b) o
          ≡ some p)
        × HasOffsets buckets p
  unfolding scan_buckets prefix
  scan_buckets_lem zero b o e room h r k =
      let all : buckets ≡ b = omega arith in (o, refl, subst (λ n. HasOffsets n o) (sym all) k)
  scan_buckets_lem (suc rounds) b o e room h r k =
      let (c, ec, w) =
        scan_threads_lem threads 0 b (prefix total b) (prefix total b) o.bucket_starts (omega arith)
          (omega arith) (omega arith) h r (λ t lt. absurd (omega arith)) in
      let (s, es) =
        store-some o.bucket_start_save (suc b) (prefix total b + total b) (omega arith) in
      let (p, ep, f) =
        scan_buckets_lem rounds (suc b) (record { bucket_starts = c; bucket_start_save = s })
          (omega arith)
          (omega (arith, length-store o.bucket_start_save s (suc b) (prefix total b + total b) es))
          h w.room
          (record {
            starts = λ t d tl dl. elim (ℕ_discrete d b) [
              | yes same ↦
                  ap (start_of c t) same
                  ∙ w.here t tl
                  ∙ ap (λ n. some (prefix total n + prefix (λ u. size u n) t)) (sym same)
              | no ne ↦ w.others t d ne ∙ k.starts t d tl (omega arith)
            ];
            saved = λ j jl. elim (ℕ_discrete j (suc b)) [
              | yes same ↦
                  ap (get_elem? s) same
                  ∙ get_elem?-store_self o.bucket_start_save s (suc b) (prefix total b + total b) es
                  ∙ ap (λ n. some (prefix total n)) (sym same)
              | no ne ↦
                  get_elem?-store_other o.bucket_start_save s (suc b) j (prefix total b + total b)
                    es ne
                  ∙ k.saved j (omega arith)
            ];
          }) in
      (p, rw ec (rw (add-one b) (rw es ep)), f)

  -- When the sizes of all threads stand in the shared array, there is a `bucket_start` with an entry for
  -- every bucket for each thread, and `bucket_start_save` has room for one entry more, the scan succeeds:
  -- the part of a thread in a bucket begins after all elements of the buckets before and those of the
  -- threads before it in that bucket, and `bucket_start_save` gets the boundaries of the buckets.
  pub scan_lem :
      (o : Offsets)
      → HasSizes
      → HasRows threads buckets o.bucket_starts
      → buckets < length o.bucket_start_save
      → (p : Offsets) × (scan max_buckets bucket_size buckets threads o ≡ some p)
        × HasOffsets buckets p
  unfolding scan prefix
  scan_lem o h r room =
      let (s, es) = store-some o.bucket_start_save 0 0 (omega arith) in
      let (p, ep, f) =
        scan_buckets_lem buckets 0 (record o { bucket_start_save = s }) (omega arith)
          (omega (arith, length-store o.bucket_start_save s 0 0 es)) h r
          (record {
            starts = λ t b tl bl. absurd (omega arith);
            saved = λ j jl.
                let none_before : j ≡ 0 = omega arith in
                ap (get_elem? s) none_before
                ∙ get_elem?-store_self o.bucket_start_save s 0 0 es
                ∙ ap (λ n. some (prefix total n)) (sym none_before);
          }) in
      (p, rw es ep, f)
