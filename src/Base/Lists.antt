-- ===== src/Base/Lists.antt =====
-- Lists measured by native numbers, Boolean filters, and predicates on every element.
use Prim.Native.Nat.{ℕ, zero, suc, ◌+◌}
use mathlib.Core.Path.{◌≡◌, refl, ap}
use mathlib.Core.Logic.{inl, inr}
use mathlib.Core.Bool.{Bool, false, ◌||◌}
use mathlib.Core.List.{Memᴰ, List, [], ◌∷◌, ◌++◌, map, append-nil, append_assoc}
use native.Mathlib.Omega.{arith}
use unseat.Base.Tests.{if◌then◌else◌, Bool-cases, ltb}

module _ {ℓ} {A : Type ℓ} where
  abbrev pub length : List A → ℕ
  length [] = 0
  length (x ∷ xs) = suc (length xs)

  pub length-append : (xs ys : List A) → length (xs ++ ys) ≡ length xs + length ys
  length-append [] ys = omega arith
  length-append (x ∷ xs) ys = omega (arith, length-append xs ys)

  -- The elements that pass a test, in order.
  unfoldable pub keep : (A → Bool) → List A → List A
  keep p [] = []
  keep p (x ∷ xs) = let rest = keep p xs in if p x then x ∷ rest else rest

  unfoldable pub any : (A → Bool) → List A → Bool
  any p [] = false
  any p (x ∷ xs) = p x || any p xs

  -- The first elements, at most a number of them.
  unfoldable pub take : ℕ → List A → List A
  take zero xs = []
  take (suc n) [] = []
  take (suc n) (x ∷ xs) = x ∷ take n xs

  -- The images of the elements, one after the other.
  unfoldable pub flat_map {κ} : {B : Type κ} → (A → List B) → List A → List B
  flat_map f [] = []
  flat_map f (x ∷ xs) = f x ++ flat_map f xs

  abbrev pub count_of : (A → Bool) → List A → ℕ
  count_of p xs = length (keep p xs)

  abbrev pub All {κ} : (A → Type κ) → List A → Type κ
  All P [] = Unit
  All P (x ∷ xs) = P x × All P xs

  pub All-append {κ} : (P : A → Type κ) (xs ys : List A) → All P xs → All P ys → All P (xs ++ ys)
  All-append P [] ys h k = k
  All-append P (x ∷ xs) ys h k = (h.0, All-append P xs ys h.1 k)

  All-known : (all xs : List A) → ((x : A) → Memᴰ x xs → Memᴰ x all) → All (λ x. Memᴰ x all) xs
  All-known all [] h = tt
  All-known all (x ∷ xs) h = (h x (Memᴰ.head refl), All-known all xs (λ y m. h y (Memᴰ.tail m)))

  -- Every element of a list is one of it.
  pub All-self : (xs : List A) → All (λ x. Memᴰ x xs) xs
  All-self xs = All-known xs xs (λ x m. m)

-- One round of a loop that appends the image of each element that passes a test.
pub append-map-keep {ℓ κ} :
    {A : Type ℓ} {B : Type κ} (f : A → B) (p : A → Bool) (out : List B) (a : A) (xs : List A)
    → (out ++ (if p a then f a ∷ [] else [])) ++ map f (keep p xs) ≡ out ++ map f (keep p (a ∷ xs))
unfolding keep
append-map-keep f p out a xs = elim (Bool-cases (p a)) [
  | inl e ↦ rw (e, append_assoc) refl
  | inr e ↦ rw (e, append-nil) refl
]

-- A test on the images of a map is a test on the arguments.
pub keep-map {ℓ κ} :
    {A : Type ℓ} {B : Type κ} (f : A → B) (p : B → Bool) (xs : List A)
    → keep p (map f xs) ≡ map f (keep (λ a. p (f a)) xs)
unfolding keep
keep-map f p [] = refl
keep-map f p (a ∷ xs) = ground (arith, keep-map f p xs)

pub length-map {ℓ κ} :
    {A : Type ℓ} {B : Type κ} (f : A → B) (xs : List A) → length (map f xs) ≡ length xs
length-map f [] = refl
length-map f (a ∷ xs) = ap suc (length-map f xs)

pub count-pos {ℓ} :
    {A : Type ℓ} (p : A → Bool) (xs : List A) → ltb 0 (length (keep p xs)) ≡ any p xs
unfolding keep any
count-pos p [] = refl
count-pos p (x ∷ xs) = ground (arith, count-pos p xs)

pub append-keep {ℓ} :
    {A : Type ℓ} (p : A → Bool) (out : List A) (x : A) (xs : List A)
    → (out ++ (if p x then x ∷ [] else [])) ++ keep p xs ≡ out ++ keep p (x ∷ xs)
unfolding keep
append-keep p out x xs = elim (Bool-cases (p x)) [
  | inl e ↦ rw (e, append_assoc) refl
  | inr e ↦ rw (e, append-nil) refl
]

pub any-append {ℓ} :
    {A : Type ℓ} (p : A → Bool) (xs ys : List A) → any p (xs ++ ys) ≡ (any p xs || any p ys)
unfolding any
any-append p [] ys = refl
any-append p (x ∷ xs) ys = ground (arith, any-append p xs ys)
