-- ===== src/Base/Sorting.antt =====
-- `sort.SliceStable`, `sort.Slice` and `sort.Strings` of Go, as a stable insertion sort.
use Prim.Native.String.{String, compare}
use mathlib.Core.Path.{◌≡◌, refl}
use Prim.Native.Nat.{ℕ, ◌≤◌}
use mathlib.Core.Bool.{Bool, true, false, ◌||◌}
use mathlib.Core.List.{List, [], ◌∷◌, ◌++◌, Perm, perm_middle, append-nil}
use mathlib.Core.List.Perm
use native.Mathlib.Omega.{arith}
use text.Mathlib.Text.{is_lt}
use unseat.Base.Tests.{if◌then◌else◌, Bool-cases}
use mathlib.Core.Logic.{inl, inr}
use unseat.Base.Lists.{any, All}

-- The order of Go's `<` on strings.
abbrev pub str_lt : String → String → Bool
str_lt s t = is_lt (compare s t)

module _ {ℓ} {A : Type ℓ} (less : A → A → Bool) where
  -- Past every element that is not greater.
  unfoldable pub place_in : A → List A → List A
  place_in x [] = x ∷ []
  place_in x (y ∷ ys) = if less x y then x ∷ y ∷ ys else y ∷ place_in x ys

  unfoldable pub sort_onto : List A → List A → List A
  unfolding place_in
  sort_onto sorted [] = sorted
  sort_onto sorted (x ∷ xs) = sort_onto (place_in x sorted) xs

  unfoldable pub sort_by : List A → List A
  unfolding sort_onto
  sort_by xs = sort_onto [] xs

  place_in-perm : (x : A) (ys : List A) → Perm (place_in x ys) (x ∷ ys)
  unfolding place_in
  place_in-perm x [] = Perm.rfl
  place_in-perm x (y ∷ ys) = elim (Bool-cases (less x y)) [
    | inl e ↦ rw (e) Perm.rfl
    | inr e ↦ rw (e) (Perm.trans (Perm.cons y (place_in-perm x ys)) (Perm.swap x y ys))
  ]

  sort_onto-perm : (sorted xs : List A) → Perm (sort_onto sorted xs) (xs ++ sorted)
  unfolding sort_onto
  sort_onto-perm sorted [] = Perm.rfl
  sort_onto-perm sorted (x ∷ xs) =
      Perm.trans (sort_onto-perm (place_in x sorted) xs)
        (Perm.trans (Perm.append_left xs (place_in-perm x sorted)) (perm_middle xs sorted))

  -- Sorting loses no element and makes none up.
  pub sort_by-perm : (xs : List A) → Perm (sort_by xs) xs
  unfolding sort_by
  sort_by-perm xs = rw (append-nil xs) at (sort_onto-perm [] xs)

unfoldable pub sort_strings : List String → List String
unfolding sort_by
sort_strings xs = sort_by str_lt xs

module _ {ℓ} {A : Type ℓ} (less : A → A → Bool) (p : A → Bool) where
  any-place_in : (x : A) (ys : List A) → any p (place_in less x ys) ≡ (p x || any p ys)
  unfolding place_in any
  any-place_in x [] = refl
  any-place_in x (y ∷ ys) = ground (arith, any-place_in x ys)

  any-sort_onto :
      (sorted xs : List A) → any p (sort_onto less sorted xs) ≡ (any p xs || any p sorted)
  unfolding sort_onto any
  any-sort_onto sorted [] = refl
  any-sort_onto sorted (x ∷ xs) =
      ground (arith, any-sort_onto (place_in less x sorted) xs, any-place_in x sorted)

  pub any-sort_by : (xs : List A) → any p (sort_by less xs) ≡ any p xs
  unfolding sort_by any
  any-sort_by xs = ground (arith, any-sort_onto [] xs)

-- Sorting keeps what holds of every element.
module _ {ℓ κ} {A : Type ℓ} (less : A → A → Bool) (P : A → Type κ) where
  All-place_in : (x : A) (ys : List A) → P x → All P ys → All P (place_in less x ys)
  unfolding place_in
  All-place_in x [] h k = (h, tt)
  All-place_in x (y ∷ ys) h k = elim (Bool-cases (less x y)) [
    | inl e ↦ rw (e) (h, k)
    | inr e ↦ rw (e) (k.0, All-place_in x ys h k.1)
  ]

  All-sort_onto : (sorted xs : List A) → All P sorted → All P xs → All P (sort_onto less sorted xs)
  unfolding sort_onto
  All-sort_onto sorted [] h k = h
  All-sort_onto sorted (x ∷ xs) h k =
      All-sort_onto (place_in less x sorted) xs (All-place_in x sorted k.0 h) k.1

  pub All-sort_by : (xs : List A) → All P xs → All P (sort_by less xs)
  unfolding sort_by
  All-sort_by xs h = All-sort_onto [] xs tt h

-- The elements come in the order of a rank.
abbrev pub Ranked {ℓ} : {A : Type ℓ} → (A → ℕ) → List A → Type 0
Ranked rank [] = Unit
Ranked rank (x ∷ xs) = All (λ y. rank x ≤ rank y) xs × Ranked rank xs

module _ {ℓ} {A : Type ℓ} (rank : A → ℕ) where
  All-above : (m n : ℕ) (xs : List A) → m ≤ n → All (λ y. n ≤ rank y) xs → All (λ y. m ≤ rank y) xs
  All-above m n [] h k = tt
  All-above m n (x ∷ xs) h k = (omega arith, All-above m n xs h k.1)

-- A comparison that never contradicts the rank.
module _ {ℓ} {A : Type ℓ} (rank : A → ℕ) (less : A → A → Bool)
    (le_of_less : (a b : A) → less a b ≡ true → rank a ≤ rank b)
    (ge_of_not_less : (a b : A) → less a b ≡ false → rank b ≤ rank a) where
  place_in-above :
      (n : ℕ) (x : A) (ys : List A)
      → n ≤ rank x
      → All (λ y. n ≤ rank y) ys
      → All (λ y. n ≤ rank y) (place_in less x ys)
  unfolding place_in
  place_in-above n x [] h k = (h, tt)
  place_in-above n x (y ∷ ys) h k = elim (Bool-cases (less x y)) [
    | inl e ↦ rw (e) (h, k)
    | inr e ↦ rw (e) (k.0, place_in-above n x ys h k.1)
  ]

  place_in-Ranked : (x : A) (ys : List A) → Ranked rank ys → Ranked rank (place_in less x ys)
  unfolding place_in
  place_in-Ranked x [] r = (tt, tt)
  place_in-Ranked x (y ∷ ys) r = elim (Bool-cases (less x y)) [
    | inl e ↦ let h = le_of_less x y e in rw (e) ((h, All-above rank (rank x) (rank y) ys h r.0), r)
    | inr e ↦
        rw (e) (place_in-above (rank y) x ys (ge_of_not_less x y e) r.0, place_in-Ranked x ys r.1)
  ]

  sort_onto-Ranked :
      (sorted xs : List A) → Ranked rank sorted → Ranked rank (sort_onto less sorted xs)
  unfolding sort_onto
  sort_onto-Ranked sorted [] r = r
  sort_onto-Ranked sorted (x ∷ xs) r =
      sort_onto-Ranked (place_in less x sorted) xs (place_in-Ranked x sorted r)

  pub sort_by-Ranked : (xs : List A) → Ranked rank (sort_by less xs)
  unfolding sort_by
  sort_by-Ranked xs = sort_onto-Ranked [] xs tt
