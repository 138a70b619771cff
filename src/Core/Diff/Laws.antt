-- ===== src/Core/Diff/Laws.antt =====
-- `ComputeDiff` compares two user lists by their lowercased addresses.
use unseat.Base.{
  String, List, [], ◌∷◌, Bool, false, not, ◌&&◌, ◌||◌, ◌==◌, eq_iff, arith, ◌≡◌, refl,
  if◌then◌else◌, any, keep, count_of, ◌∙◌,
}
use unseat.Base.Dict.{Dict, insert, has_key, lookup, lookup-insert}
use unseat.Core.Types.{User, key}
use unseat.Core.Diff.{index_users, missing_from, compute_diff}

-- Whether a list holds a user of this key.
abbrev pub listed : String → List User → Bool
listed k us = any (λ u. key u == k) us

has_key-insert :
    (k : String) (u : User) (m : Dict User)
    → has_key k (insert (key u) u m) ≡ (key u == k || has_key k m)
unfolding has_key
has_key-insert k u m = rw lookup-insert (ground arith)

has_key-index_users :
    (k : String) (m : Dict User) (us : List User)
    → has_key k (index_users m us) ≡ (listed k us || has_key k m)
unfolding index_users any
has_key-index_users k m [] = refl
has_key-index_users k m (u ∷ us) =
    ground (arith, has_key-index_users k (insert (key u) u m) us, has_key-insert k u m)

has_key-index : (k : String) (us : List User) → has_key k (index_users [] us) ≡ listed k us
unfolding has_key lookup
has_key-index k us = has_key-index_users k [] us ∙ ground arith

-- Every entry stands under its own key, and no key stands twice.
abbrev Keyed : Dict User → Type 0
Keyed [] = Unit
Keyed ((k, u) ∷ m) = (k ≡ key u) × (has_key k m ≡ false) × Keyed m

insert-Keyed : (u : User) (m : Dict User) → Keyed m → Keyed (insert (key u) u m)
unfolding insert has_key lookup
insert-Keyed u [] h = (refl, refl, tt)
insert-Keyed u ((j, w) ∷ m) h =
    ground
      (arith, eq_iff j (key u), insert-Keyed u m h.2, lookup-insert (key u) j u m, eq_iff (key u) j)

index_users-Keyed : (m : Dict User) (us : List User) → Keyed m → Keyed (index_users m us)
unfolding index_users
index_users-Keyed m [] h = h
index_users-Keyed m (u ∷ us) h = index_users-Keyed (insert (key u) u m) us (insert-Keyed u m h)

count-missing_from :
    (k : String) (other m : Dict User)
    → Keyed m
    → count_of (λ u. key u == k) (missing_from other m)
      ≡ (if has_key k m && not (has_key k other) then 1 else 0)
unfolding missing_from keep has_key lookup
count-missing_from k other [] h = refl
count-missing_from k other ((j, u) ∷ m) h =
    ground (arith, eq_iff (key u) k, eq_iff j k, count-missing_from k other m h.2)

count-missing :
    (k : String) (xs ys : List User)
    → count_of (λ u. key u == k) (missing_from (index_users [] ys) (index_users [] xs))
      ≡ (if listed k xs && not (listed k ys) then 1 else 0)
count-missing k xs ys = ground (
  arith,
  count-missing_from k (index_users [] ys) (index_users [] xs) (index_users-Keyed [] xs tt),
  has_key-index k xs,
  has_key-index k ys,
)

-- For every key, the additions hold exactly one user of it if the desired list has the key and the
-- actual list lacks it, and none otherwise; the removals likewise with the lists exchanged.
pub compute_diff_exact :
    (desired actual : List User) (k : String)
    → (count_of (λ u. key u == k) (compute_diff desired actual).to_add
        ≡ (if listed k desired && not (listed k actual) then 1 else 0))
      × (count_of (λ u. key u == k) (compute_diff desired actual).to_remove
          ≡ (if listed k actual && not (listed k desired) then 1 else 0))
unfolding compute_diff
compute_diff_exact desired actual k =
    (count-missing k desired actual, count-missing k actual desired)
