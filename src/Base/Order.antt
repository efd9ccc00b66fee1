-- ===== src/Base/Order.antt =====
-- Comparators, ascending lists.
use mathlib.Core.Path.{◌≡◌}
use mathlib.Core.Bool.{Bool, true, false}
use mathlib.Core.List.{List, [], ◌∷◌, ◌++◌, Perm, perm_middle}
use mathlib.Core.List.Perm
use ps4o.Base.Lists.{rev_onto}
use native.Mathlib.Omega.{arith}

-- What the standard asks of a `Compare`: a strict weak ordering.
pub record IsStrictWeak {ℓ} {A : Type ℓ} (comp : A → A → Bool) : Type ℓ where
  pub asymm : (a b : A) → comp a b ≡ true → comp b a ≡ false
  pub le_trans : (a b c : A) → comp b a ≡ false → comp c b ≡ false → comp c a ≡ false

abbrev pub All {ℓ κ} : {A : Type ℓ} → (A → Type κ) → List A → Type κ
All P [] = Unit
All P (x ∷ xs) = P x × All P xs

pub All-append {ℓ κ} :
    {A : Type ℓ} (P : A → Type κ) (xs ys : List A) → All P xs → All P ys → All P (xs ++ ys)
All-append P [] ys hx hy = hy
All-append P (x ∷ xs) ys hx hy = (hx.0, All-append P xs ys hx.1 hy)

pub All-map {ℓ κ μ} :
    {A : Type ℓ} (P : A → Type κ) (Q : A → Type μ)
    → ((x : A) → P x → Q x)
    → (xs : List A) → All P xs
    → All Q xs
All-map P Q f [] h = tt
All-map P Q f (x ∷ xs) h = (f x h.0, All-map P Q f xs h.1)

pub All-zip {ℓ κ μ} :
    {A : Type ℓ} (P : A → Type κ) (Q : A → Type μ) (xs : List A)
    → All P xs
    → All Q xs
    → All (λ x. P x × Q x) xs
All-zip P Q [] hp hq = tt
All-zip P Q (x ∷ xs) hp hq = ((hp.0, hq.0), All-zip P Q xs hp.1 hq.1)

pub All-intro {ℓ κ} : {A : Type ℓ} (P : A → Type κ) → ((x : A) → P x) → (xs : List A) → All P xs
All-intro P f [] = tt
All-intro P f (x ∷ xs) = (f x, All-intro P f xs)

-- `x` does not come after any element of `l`.
abbrev pub IsBelow {ℓ} : {A : Type ℓ} → (A → A → Bool) → A → List A → Type 0
IsBelow comp x l = All (λ y. comp y x ≡ false) l

-- `x` does not come before any element of `l`.
abbrev pub IsAbove {ℓ} : {A : Type ℓ} → (A → A → Bool) → A → List A → Type 0
IsAbove comp x l = All (λ y. comp x y ≡ false) l

abbrev pub IsSorted {ℓ} : {A : Type ℓ} → (A → A → Bool) → List A → Type 0
IsSorted comp [] = Unit
IsSorted comp (x ∷ xs) = IsBelow comp x xs × IsSorted comp xs

-- From the last element to the first.
abbrev pub IsDescending {ℓ} : {A : Type ℓ} → (A → A → Bool) → List A → Type 0
IsDescending comp [] = Unit
IsDescending comp (q ∷ rev) = IsAbove comp q rev × IsDescending comp rev

pub IsSorted-rev_onto {ℓ} :
    {A : Type ℓ} (comp : A → A → Bool) (rev l : List A)
    → IsDescending comp rev
    → IsSorted comp l
    → All (λ q. IsBelow comp q l) rev
    → IsSorted comp (rev_onto rev l)
IsSorted-rev_onto comp [] l d s h = s
IsSorted-rev_onto comp (q ∷ rev) l d s h =
    IsSorted-rev_onto comp rev (q ∷ l) d.1 (h.0, s) (All-zip _ _ rev d.0 h.1)

pub rev_onto-perm {ℓ} : {A : Type ℓ} (rev l : List A) → Perm (rev_onto rev l) (rev ++ l)
rev_onto-perm [] l = Perm.rfl
rev_onto-perm (q ∷ rev) l = Perm.trans (rev_onto-perm rev (q ∷ l)) (perm_middle rev l)

module _ {ℓ} {A : Type ℓ} {comp : A → A → Bool} (w : IsStrictWeak comp) where
  pub irrefl : (a : A) → comp a a ≡ false
  irrefl a = ground (arith, w.asymm a a)

  pub lt-le_trans : (a b c : A) → comp a b ≡ true → comp c b ≡ false → comp a c ≡ true
  lt-le_trans a b c h k = ground (arith, w.asymm a b, w.le_trans b c a)

  pub le-lt_trans : (a b c : A) → comp b a ≡ false → comp b c ≡ true → comp a c ≡ true
  le-lt_trans a b c h k = ground (arith, w.le_trans c a b)

  pub IsBelow-le : (a b : A) (l : List A) → comp b a ≡ false → IsBelow comp b l → IsBelow comp a l
  IsBelow-le a b l h = All-map _ _ (λ y p. w.le_trans a b y h p) l
