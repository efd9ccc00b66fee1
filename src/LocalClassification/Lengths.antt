-- ===== src/LocalClassification/Lengths.antt =====
-- No step of the classification changes the length of an array.
use ps4o.Base.{
  ℕ, zero, suc, ◌+◌, ◌≡◌, sym, ap, ◌∙◌, Bool, Option, some, >>=-eq-some, List, [], ◌∷◌, length,
  get_elem?, store, length-store,
}
use mathlib.Core.Option.{some-injective}
use ps4o.Config.{Config}
use ps4o.Classifier.{Classifier, classify_range}
use ps4o.LocalClassification.{
  fill, increment, Classified, count_buckets, classify_locally, partial_sum, Boundaries,
  find_boundaries,
}

length-fill :
    (rounds i : ℕ) (value : ℕ → Option ℕ) (a b : List ℕ)
    → fill rounds i value a ≡ some b
    → length b ≡ length a
unfolding fill
length-fill zero i value a b h = ap length (sym (some-injective _ _ h))
length-fill (suc rounds) i value a b h =
    let (v, ev, h1) = >>=-eq-some (value i) _ h in
    let (c, ec, h2) = >>=-eq-some (store a i v) _ h1 in
    length-fill rounds (suc i) value c b h2 ∙ length-store a c i v ec

length-count_buckets :
    (buckets a : List ℕ) (r : Classified)
    → count_buckets buckets a ≡ some r
    → length r.bucket_size ≡ length a
unfolding count_buckets increment
length-count_buckets [] a r h =
    ap (λ (c : Classified). length c.bucket_size) (sym (some-injective _ _ h))
length-count_buckets (b ∷ buckets) a r h =
    let (c, ec, h1) = >>=-eq-some (increment b a) _ h in
    let (n, en, put) = >>=-eq-some (get_elem? a b) _ ec in
    let (rest, er, h2) = >>=-eq-some (count_buckets buckets c) _ h1 in
    ap (λ (c : Classified). length c.bucket_size) (sym (some-injective _ _ h2))
    ∙ length-count_buckets buckets c rest er
    ∙ length-store a c b (n + 1) put

pub length-classify_locally {ℓ} :
    {A : Type ℓ} (comp : A → A → Bool) (cfg : Config) (equal : Bool) (num : ℕ) (c : Classifier A)
    (values : List A) (a : List ℕ) (r : Classified)
    → classify_locally comp cfg equal num c values a ≡ some r
    → length r.bucket_size ≡ length a
unfolding classify_locally
length-classify_locally comp cfg equal num c values a r h =
    let (sizes, es, h1) = >>=-eq-some (fill num 0 (λ _. some 0) a) _ h in
    let (bs, eb, h2) = >>=-eq-some (classify_range comp cfg equal c values) _ h1 in
    length-count_buckets bs sizes r h2 ∙ length-fill num 0 (λ _. some 0) a sizes es

length-partial_sum :
    (rounds i sum : ℕ) (sizes starts b : List ℕ)
    → partial_sum rounds i sum sizes starts ≡ some b
    → length b ≡ length starts
unfolding partial_sum
length-partial_sum zero i sum sizes starts b h = ap length (sym (some-injective _ _ h))
length-partial_sum (suc rounds) i sum sizes starts b h =
    let (n, en, h1) = >>=-eq-some (get_elem? sizes i) _ h in
    let (c, ec, h2) = >>=-eq-some (store starts (suc i) (sum + n)) _ h1 in
    length-partial_sum rounds (suc i) (sum + n) sizes c b h2
    ∙ length-store starts c (suc i) (sum + n) ec

pub length-find_boundaries :
    (num : ℕ) (sizes starts saved : List ℕ) (b : Boundaries)
    → find_boundaries num sizes starts saved ≡ some b
    → length b.bucket_start ≡ length starts
unfolding find_boundaries
length-find_boundaries num sizes starts saved b h =
    let (c, ec, h1) = >>=-eq-some (store starts 0 0) _ h in
    let (d, ed, h2) = >>=-eq-some (partial_sum num 0 0 sizes c) _ h1 in
    let (e, ee, h3) = >>=-eq-some (fill (num + 1) 0 (get_elem? d) saved) _ h2 in
    ap (λ (c : Boundaries). length c.bucket_start) (sym (some-injective _ _ h3))
    ∙ length-partial_sum num 0 0 sizes c d ed
    ∙ length-store starts c 0 0 ec
