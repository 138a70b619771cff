-- ===== src/Base/Dict.antt =====
-- Go's `map[string]V`. Entries keep the order of insertion; a `range` visits them in that order.
use Prim.Native.String.{String}
use mathlib.Core.Path.{◌≡◌, refl}
use mathlib.Core.Bool.{Bool}
use mathlib.Core.Option.{Option, none, some}
use mathlib.Core.List.{List, [], ◌∷◌}
use native.Mathlib.Omega.{arith}
use text.Mathlib.Text.{◌==◌}
use text.Mathlib.TextEquality.{eq_iff}
use text.Mathlib.TextPositions.{eq_refl}
use unseat.Base.Lists.{All}
use unseat.Base.Tests.{if◌then◌else◌, is_some}

abbrev pub Dict {ℓ} : Type ℓ → Type ℓ
Dict V = List (String × V)

module _ {ℓ} {V : Type ℓ} where
  unfoldable pub lookup : String → Dict V → Option V
  lookup key [] = none
  lookup key ((other, value) ∷ entries) = if other == key then some value else lookup key entries

  -- `m[k] = v`
  unfoldable pub insert : String → V → Dict V → Dict V
  insert key value [] = (key, value) ∷ []
  insert key value ((other, old) ∷ entries) =
      if other == key then (key, value) ∷ entries else (other, old) ∷ insert key value entries

  -- `delete(m, k)`
  unfoldable pub erase : String → Dict V → Dict V
  erase key [] = []
  erase key ((other, old) ∷ entries) =
      let rest = erase key entries in if other == key then rest else (other, old) ∷ rest

  unfoldable pub has_key : String → Dict V → Bool
  unfolding lookup
  has_key key entries = is_some (lookup key entries)

  pub lookup-insert :
      (key other : String) (value : V) (entries : Dict V)
      → lookup other (insert key value entries)
        ≡ (if key == other then some value else lookup other entries)
  unfolding lookup insert
  lookup-insert key other value [] = refl
  lookup-insert key other value ((head, old) ∷ entries) = ground (
    arith,
    lookup-insert key other value entries,
    eq_iff head other,
    eq_iff head key,
    eq_iff key other,
  )

  pub lookup-erase :
      (key other : String) (entries : Dict V)
      → lookup other (erase key entries) ≡ (if key == other then none else lookup other entries)
  unfolding lookup erase
  lookup-erase key other [] = ground arith
  lookup-erase key other ((head, old) ∷ entries) =
      ground (
        arith,
        eq_iff key other,
        eq_iff head key,
        eq_iff head other,
        lookup-erase key other entries,
      )

  -- No key stands twice.
  abbrev pub Unique : Dict V → Type ℓ
  Unique [] = Unit
  Unique ((key, value) ∷ entries) = (lookup key entries ≡ none) × Unique entries

  pub insert-Unique :
      (key : String) (value : V) (entries : Dict V)
      → Unique entries
      → Unique (insert key value entries)
  unfolding insert lookup
  insert-Unique key value [] h = (refl, tt)
  insert-Unique key value ((other, old) ∷ entries) h = ground (
    arith,
    eq_iff other key,
    eq_iff key other,
    insert-Unique key value entries h.1,
    lookup-insert key other value entries,
  )

  entries-before :
      (key : String) (value : V) (rest entries : Dict V)
      → lookup key rest ≡ none
      → All (λ e. lookup e.0 rest ≡ some e.1) entries
      → All (λ e. lookup e.0 ((key, value) ∷ rest) ≡ some e.1) entries
  unfolding lookup
  entries-before key value rest [] h k = tt
  entries-before key value rest ((other, old) ∷ entries) h k =
      (ground (arith, k.0, eq_iff key other), entries-before key value rest entries h k.1)

  -- Where no key stands twice, every entry is found.
  pub lookup-entries :
      (entries : Dict V) → Unique entries → All (λ e. lookup e.0 entries ≡ some e.1) entries
  unfolding lookup
  lookup-entries [] h = tt
  lookup-entries ((key, value) ∷ entries) h = (
    ground (arith, eq_refl key),
    entries-before key value entries entries h.0 (lookup-entries entries h.1),
  )
