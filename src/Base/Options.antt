-- ===== src/Base/Options.antt =====
-- Steps that may fail: `none` stands for undefined behaviour (an access out of range, an access to
-- an object that does not live, a violated `PS4O_ASSUME_NOT`) or for fuel that has run out.
use mathlib.Core.Path.{◌≡◌, refl}
use mathlib.Core.Option.{Option, none, some}
use mathlib.Core.List.{List, [], ◌∷◌, ◌++◌, map}
use native.Mathlib.Omega.{arith}

infixl 5 ◌>>=◌
abbrev pub ◌>>=◌ {ℓ κ} : {A : Type ℓ} {B : Type κ} → Option A → (A → Option B) → Option B
none >>= f = none
some a >>= f = f a

-- Inversion of a successful bind.
pub >>=-eq-some {ℓ κ} :
    {A : Type ℓ} {B : Type κ} (m : Option A) (f : A → Option B) {b : B}
    → (m >>= f) ≡ some b
    → (a : A) × (m ≡ some a) × (f a ≡ some b)
>>=-eq-some none f h = cc
>>=-eq-some (some a) f h = (a, refl, h)

-- What always fails behind a step fails.
pub >>=-none {ℓ κ} :
    {A : Type ℓ} {B : Type κ} (m : Option A) (f : A → Option B)
    → ((a : A) → f a ≡ none)
    → (m >>= f) ≡ none
>>=-none none f h = refl
>>=-none (some a) f h = h a

pub >>=-cong {ℓ κ} :
    {A : Type ℓ} {B : Type κ} (m : Option A) (f g : A → Option B)
    → ((a : A) → m ≡ some a → f a ≡ g a)
    → (m >>= f) ≡ (m >>= g)
>>=-cong none f g h = refl
>>=-cong (some a) f g h = h a refl

pub >>=_assoc {ℓ κ μ} :
    {A : Type ℓ} {B : Type κ} {C : Type μ} (m : Option A) (f : A → Option B) (g : B → Option C)
    → ((m >>= f) >>= g) ≡ (m >>= λ a. f a >>= g)
>>=_assoc none f g = refl
>>=_assoc (some a) f g = refl

-- The results of a step on each element, in order; one failure is a failure of the whole.
module _ {ℓ κ} {A : Type ℓ} {B : Type κ} where
  abbrev pub map_option : (A → Option B) → List A → Option (List B)
  map_option f [] = some []
  map_option f (x ∷ xs) = f x >>= λ y. map_option f xs >>= λ ys. some (y ∷ ys)

  pub map_option-append :
      (f : A → Option B) (xs ys : List A)
      → map_option f (xs ++ ys) ≡ (map_option f xs >>= λ a. map_option f ys >>= λ b. some (a ++ b))
  map_option-append f [] ys = go (map_option f ys)
    where
      go : (m : Option (List B)) → m ≡ (m >>= λ b. some b)
      go none = refl
      go (some b) = refl
  map_option-append f (x ∷ xs) ys = ground (arith, map_option-append f xs ys)

  pub map_option-some :
      (f : A → Option B) (g : A → B) (xs : List A)
      → ((x : A) → f x ≡ some (g x))
      → map_option f xs ≡ some (map g xs)
  map_option-some f g [] h = refl
  map_option-some f g (x ∷ xs) h = rw (h x, map_option-some f g xs h)
