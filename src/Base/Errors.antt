-- ===== src/Base/Errors.antt =====
-- A Go function that returns a value and an `error`; the error is its text.
use Prim.Native.String.{String}
use mathlib.Core.Path.{◌≡◌, refl}
use mathlib.Core.Logic.{◌≢◌, ◌⊎◌, inl, inr}
use mathlib.Core.Option.{Option, none, some}

pub data Result {ℓ} (V : Type ℓ) : Type ℓ where
  err : (why : String) → Result V
  ok : (value : V) → Result V

-- `if err != nil { return nil, err }` between two calls.
abbrev pub ◌>>=◌ {κ μ} : {V : Type κ} {W : Type μ} → Result V → (V → Result W) → Result W
err why >>= next = err why
ok value >>= next = next value

infixl 5 ◌>>=◌
-- Two calls that succeed: what the first returned, and that the second succeeded on it.
pub >>=-eq-ok {κ μ} :
    {V : Type κ} {W : Type μ} {out : W} (first : Result V) (next : V → Result W)
    → (first >>= next) ≡ ok out
    → (value : V) × (first ≡ ok value) × (next value ≡ ok out)
>>=-eq-ok (err why) next succeeds = cc
>>=-eq-ok (ok value) next succeeds = (value, refl, succeeds)

pub Result-cases {ℓ} :
    {A : Type ℓ} (r : Result A) → ((a : A) × (r ≡ ok a)) ⊎ ((e : String) × (r ≡ err e))
Result-cases (ok a) = inl (a, refl)
Result-cases (err e) = inr (e, refl)

-- A computation returns a value if no error is due, and fails with the error that is due.
abbrev pub Yields {ℓ} : {A : Type ℓ} → Option String → Result A → Type ℓ
Yields {A} none r = (a : A) × (r ≡ ok a)
Yields (some e) r = r ≡ err e

-- What follows a computation and cannot fail yields the same errors.
pub Yields-bind {ℓ κ} :
    {A : Type ℓ} {B : Type κ} (e : Option String) (r : Result A) (f : A → B)
    → Yields e r
    → Yields e (r >>= λ a. ok (f a))
Yields-bind none r f (a, h) = (f a, rw h refl)
Yields-bind (some e) r f h = rw h refl

pub err-ne-ok {ℓ} : {A : Type ℓ} {why : String} {a : A} → err why ≢ ok a
err-ne-ok h = cc

pub ok-injective {ℓ} : {A : Type ℓ} {a b : A} → ok a ≡ ok b → a ≡ b
ok-injective h = cc
