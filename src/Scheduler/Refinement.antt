-- ===== src/Scheduler/Refinement.antt =====
-- The private queue implements a double-ended queue: a list of what is between `m_off` and the end.
use ps4o.Base.{
  ℕ, zero, suc, ◌+◌, ◌-◌, ◌≤◌, ◌<◌, ◌≡◌, refl, sym, ap, ◌∙◌, true, false, lt→ltb, le→ltb, ◌==◌,
  Option, none, some, ◌>>=◌, List, [], ◌∷◌, ◌++◌, arith, length, get_elem?, drop, length-append,
  get_elem?-some,
}
use native.Mathlib.Numerals.{add-one}
use mathlib.Core.Path.{subst}
use mathlib.Core.Option.{some-injective, none-ne-some}
use native.Mathlib.Decide.{dec_lt, ℕ_discrete}
use ps4o.Scheduler.{
  PrivateQueue, back, pop_back_vector, push, emplace, clear, clear_if_done, pop_back, pop_front,
}

-- What a thread does with its queue
pub data Request {ℓ} (A : Type ℓ) : Type ℓ where
  push_range : List A → Request A
  emplace_one : A → Request A
  take_back : Request A
  take_front : Request A
  clear_all : Request A

module _ {ℓ} {A : Type ℓ} where
  -- The elements that are in the queue, the oldest first
  abbrev pub contents : PrivateQueue A → List A
  contents q = drop q.off q.v

  -- The offset lies in the vector.
  unfoldable pub IsQueue : PrivateQueue A → Type 0
  IsQueue q = q.off ≤ length q.v

  handle_taken : Option (A × PrivateQueue A) → Option (Option A × PrivateQueue A)
  handle_taken m = m >>= λ (e, q). some (some e, q)

  -- A request to the queue: what it yields, and the queue after it
  unfoldable pub handle : Request A → PrivateQueue A → Option (Option A × PrivateQueue A)
  unfolding handle_taken
  handle (push_range es) q = some (none, push es q)
  handle (emplace_one e) q = some (none, emplace e q)
  handle take_back q = handle_taken (pop_back q)
  handle take_front q = handle_taken (pop_front q)
  handle clear_all q = some (none, clear q)

  -- The same request to a list
  unfoldable pub serve : Request A → List A → Option (Option A × List A)
  serve (push_range es) l = some (none, l ++ es)
  serve (emplace_one e) l = some (none, l ++ e ∷ [])
  serve take_back l = back l >>= λ e. some (some e, pop_back_vector l)
  serve take_front [] = none
  serve take_front (x ∷ l) = some (some x, l)
  serve clear_all l = some (none, [])

  -- Requests one after the other: what they yield, and what is left. One that fails ends all.
  unfoldable pub handle_all :
      List (Request A) → PrivateQueue A → Option (List (Option A) × PrivateQueue A)
  handle_all [] q = some ([], q)
  handle_all (r ∷ rs) q = do (e, q') ← handle r q; (es, p) ← handle_all rs q'; some (e ∷ es, p)

  unfoldable pub serve_all : List (Request A) → List A → Option (List (Option A) × List A)
  serve_all [] l = some ([], l)
  serve_all (r ∷ rs) l = do (e, l') ← serve r l; (es, k) ← serve_all rs l'; some (e ∷ es, k)

  drop-append : (n : ℕ) (l es : List A) → n ≤ length l → drop n (l ++ es) ≡ drop n l ++ es
  drop-append zero l es h = refl
  drop-append (suc n) [] es h = absurd (omega arith)
  drop-append (suc n) (x ∷ l) es h = drop-append n l es (omega arith)

  drop_all : (n : ℕ) (l : List A) → length l ≤ n → drop n l ≡ []
  drop_all zero [] h = refl
  drop_all zero (x ∷ l) h = absurd (omega arith)
  drop_all (suc n) [] h = refl
  drop_all (suc n) (x ∷ l) h = drop_all n l (omega arith)

  drop-next : (n : ℕ) (l : List A) (x : A) → get_elem? l n ≡ some x → drop n l ≡ x ∷ drop (suc n) l
  drop-next n [] x h = cc
  drop-next zero (y ∷ l) x h = ground arith
  drop-next (suc n) (y ∷ l) x h = drop-next n l x h

  back-drop : (n : ℕ) (l : List A) → n < length l → back (drop n l) ≡ back l
  unfolding back
  back-drop zero l h = refl
  back-drop (suc n) [] h = absurd (omega arith)
  back-drop (suc n) (x ∷ []) h = absurd (omega arith)
  back-drop (suc n) (x ∷ y ∷ l) h = back-drop n (y ∷ l) (omega arith)

  back-some : (l : List A) → 0 < length l → (x : A) × (back l ≡ some x)
  unfolding back
  back-some [] h = absurd (omega arith)
  back-some (x ∷ []) h = (x, refl)
  back-some (x ∷ y ∷ l) h = back-some (y ∷ l) (omega arith)

  length-pop_back_vector : (l : List A) → length (pop_back_vector l) ≡ length l - 1
  unfolding pop_back_vector
  length-pop_back_vector [] = refl
  length-pop_back_vector (x ∷ []) = refl
  length-pop_back_vector (x ∷ y ∷ l) = omega (arith, length-pop_back_vector (y ∷ l))

  drop-pop_back_vector :
      (n : ℕ) (l : List A) → n < length l → drop n (pop_back_vector l) ≡ pop_back_vector (drop n l)
  unfolding pop_back_vector
  drop-pop_back_vector zero l h = refl
  drop-pop_back_vector (suc n) [] h = absurd (omega arith)
  drop-pop_back_vector (suc n) (x ∷ []) h = absurd (omega arith)
  drop-pop_back_vector (suc n) (x ∷ y ∷ l) h = drop-pop_back_vector n (y ∷ l) (omega arith)

  clear_if_done_lem :
      (q : PrivateQueue A)
      → IsQueue q
      → (contents (clear_if_done q) ≡ contents q) × IsQueue (clear_if_done q)
  unfolding clear_if_done clear IsQueue
  clear_if_done_lem q h = elim (ℕ_discrete (length q.v) q.off) [
    | yes e ↦
        let done : (length q.v == q.off) ≡ true = ground arith in
        rw done (sym (drop_all q.off q.v (omega arith)), omega arith)
    | no ne ↦ let more : (length q.v == q.off) ≡ false = ground arith in rw more (refl, h)
  ]

  -- A result with the contents in place of the queue
  unfoldable pub forget : {E : Type ℓ} → Option (E × PrivateQueue A) → Option (E × List A)
  forget none = none
  forget (some (e, q)) = some (e, contents q)

  -- A result agrees with that of the list, and leaves a queue that is well-formed.
  record Agrees {E : Type ℓ} (m : Option (E × PrivateQueue A)) (s : Option (E × List A))
      : Type ℓ where
    same : forget m ≡ s
    formed : (e : E) (p : PrivateQueue A) → m ≡ some (e, p) → IsQueue p

  agree :
      {E : Type ℓ} (e : E) (q : PrivateQueue A) (l : List A)
      → contents q ≡ l
      → IsQueue q
      → Agrees (some (e, q)) (some (e, l))
  unfolding forget
  agree {E = E} e q l c h = record {
    same = ap (λ k. some (e, k)) c;
    formed = λ e' p eq.
        let both : ◌≡◌ {A = E × PrivateQueue A} (e, q) (e', p) = some-injective _ _ eq in
        subst IsQueue (ap (λ (x : E × PrivateQueue A). x.1) both) h;
  }

  agree_none : {E : Type ℓ} → Agrees {E = E} none none
  unfolding forget
  agree_none = record { same = refl; formed = λ e p eq. absurd (none-ne-some _ eq) }

  handle_lem :
      (r : Request A) (q : PrivateQueue A) → IsQueue q → Agrees (handle r q) (serve r (contents q))
  unfolding handle handle_taken serve push emplace clear pop_back pop_front IsQueue back
  handle_lem (push_range es) q h =
      agree none _ _ (drop-append q.off q.v es h) (omega (arith, length-append q.v es))
  handle_lem (emplace_one e) q h =
      agree none _ _ (drop-append q.off q.v (e ∷ []) h) (omega (arith, length-append q.v (e ∷ [])))
  handle_lem clear_all q h = agree none _ _ refl (omega arith)
  handle_lem take_back q h = elim (dec_lt q.off (length q.v)) [
    | yes p ↦
        let (x, e) = back-some q.v (omega arith) in
        let left : PrivateQueue A = record q { v = pop_back_vector q.v } in
        let (c, f) = clear_if_done_lem left (omega (arith, length-pop_back_vector q.v)) in
        rw (lt→ltb q.off (length q.v) p, back-drop q.off q.v p, e)
          (agree (some x) (clear_if_done left) _ (c ∙ drop-pop_back_vector q.off q.v p) f)
    | no n ↦
        rw (le→ltb q.off (length q.v) (omega arith), drop_all q.off q.v (omega arith)) agree_none
  ]
  handle_lem take_front q h = elim (dec_lt q.off (length q.v)) [
    | yes p ↦
        let (x, e) = get_elem?-some q.v q.off p in
        let left : PrivateQueue A = record q { off = q.off + 1 } in
        let (c, f) = clear_if_done_lem left (omega arith) in
        rw (lt→ltb q.off (length q.v) p, e, drop-next q.off q.v x e)
          (agree (some x) (clear_if_done left) _ (c ∙ ap (λ n. drop n q.v) (add-one q.off)) f)
    | no n ↦
        rw (le→ltb q.off (length q.v) (omega arith), drop_all q.off q.v (omega arith)) agree_none
  ]

  agree_bind :
      {D E : Type ℓ} (m : Option (D × PrivateQueue A)) (s : Option (D × List A))
      (f : D → PrivateQueue A → Option (E × PrivateQueue A)) (g : D → List A → Option (E × List A))
      → Agrees m s
      → ((d : D) (q : PrivateQueue A) → IsQueue q → Agrees (f d q) (g d (contents q)))
      → Agrees (m >>= λ (d, q). f d q) (s >>= λ (d, l). g d l)
  unfolding forget
  agree_bind none s f g a h = rw (sym a.same) agree_none
  agree_bind (some (d, q)) s f g a h = rw (sym a.same) (h d q (a.formed d q refl))

  handle_all_lem :
      (rs : List (Request A)) (q : PrivateQueue A)
      → IsQueue q
      → Agrees (handle_all rs q) (serve_all rs (contents q))
  unfolding handle_all serve_all
  handle_all_lem [] q h = agree [] _ _ refl h
  handle_all_lem (r ∷ rs) q h =
      agree_bind (handle r q) (serve r (contents q)) _ _ (handle_lem r q h) λ e q' h'.
        agree_bind (handle_all rs q') (serve_all rs (contents q')) _ _ (handle_all_lem rs q' h')
          λ es p h''. agree (e ∷ es) p _ refl h''

  -- A queue whose offset lies in its vector answers any requests, and fails on them, as the list of its
  -- contents does, and is left with the same contents.
  pub handle_all-serve_all :
      (rs : List (Request A)) (q : PrivateQueue A)
      → IsQueue q
      → forget (handle_all rs q) ≡ serve_all rs (contents q)
  handle_all-serve_all rs q h = (handle_all_lem rs q h).same
