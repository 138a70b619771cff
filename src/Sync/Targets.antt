-- ===== src/Sync/Targets.antt =====
-- The map of `executeExpiredRemovals` (internal/sync/reconciler.go) from an account to the address under
-- which the provider lists it.
use mathlib.Core.List.{Memᴰ}
use unseat.Base.{
  String, List, [], ◌∷◌, Bool, true, ◌&&◌, ◌||◌, none, some, ◌==◌, ◌≡◌, ◌≢◌, refl, subst, arith,
  to_lower, any, is_some, some-injective, Bool-cases, Option-cases, inl, inr, eq_iff, eq_refl,
}
use unseat.Base.Dict.{Dict, lookup, insert, lookup-insert}
use unseat.Core.Types.{User}
use unseat.Sync.Expiry.{raw_emails, alias_targets, add_targets, targets}

-- An account is listed under an address: it is that of a listed user but for case, or a declared alias
-- of the account is listed under it.
pub data ListedAs (aliases : Dict (List String)) (users : List User)
    : String → String → Type 0 where
  own :
      {key raw : String} (u : User)
      → Memᴰ u users
      → to_lower u.email ≡ key
      → u.email ≡ raw
      → ListedAs aliases users key raw
  by_alias :
      {key raw : String} (canonical alias : String) (names : List String)
      → Memᴰ (canonical, names) aliases
      → Memᴰ alias names
      → to_lower canonical ≡ key
      → ListedAs aliases users (to_lower alias) raw
      → ListedAs aliases users key raw

-- A user with this address, but for case, is listed.
abbrev pub is_listed : List User → String → Bool
is_listed users key = any (λ u. to_lower u.email == key) users

-- A user with this address, or with an alias that is declared for it, is listed.
abbrev pub is_listed_by_any : Dict (List String) → List User → String → Bool
is_listed_by_any aliases users key =
    is_listed users key
    || any (λ entry. to_lower entry.0 == key && any (λ a. is_listed users (to_lower a)) entry.1)
        aliases

none-some : {A : Type 0} {a : A} → none ≢ some a
none-some h = cc

module _ (aliases : Dict (List String)) (users : List User) where
  abbrev Sound : Dict String → Type 0
  Sound m = (key raw : String) → lookup key m ≡ some raw → ListedAs aliases users key raw

  insert-Sound :
      (key raw : String) (m : Dict String)
      → ListedAs aliases users key raw
      → Sound m
      → Sound (insert key raw m)
  insert-Sound key raw m h sound k r e = elim (Bool-cases (key == k)) [
    | inl same ↦
        let stored : some raw ≡ some r = rw (lookup-insert, same) at e in
        subst (λ x. ListedAs aliases users x r) ((eq_iff key k).0 same)
          (subst (λ x. ListedAs aliases users key x) (some-injective _ _ stored) h)
    | inr other ↦ sound k r (rw (lookup-insert, other) at e)
  ]

  raw_emails-Sound :
      (us : List User) (m : Dict String)
      → ((u : User) → Memᴰ u us → Memᴰ u users)
      → Sound m
      → Sound (raw_emails us m)
  unfolding raw_emails
  raw_emails-Sound [] m sub sound = sound
  raw_emails-Sound (u ∷ us) m sub sound =
      raw_emails-Sound us (insert (to_lower u.email) u.email m) (λ v h. sub v (Memᴰ.tail h))
        (insert-Sound (to_lower u.email) u.email m (own u (sub u (Memᴰ.head refl)) refl refl) sound)

  alias_targets-Sound :
      (canonical : String) (all names : List String) (m : Dict String)
      → Memᴰ (canonical, all) aliases
      → ((a : String) → Memᴰ a names → Memᴰ a all)
      → Sound m
      → Sound (alias_targets canonical names m)
  unfolding alias_targets
  alias_targets-Sound canonical all [] m known sub sound = sound
  alias_targets-Sound canonical all (alias ∷ rest) m known sub sound =
      let further = λ (a : String) (h : Memᴰ a rest). sub a (Memᴰ.tail h) in
      elim (Option-cases (lookup (to_lower alias) m)) [
        | inl e ↦ rw (e) (alias_targets-Sound canonical all rest m known further sound)
        | inr (raw, e) ↦ rw (e) (
            alias_targets-Sound canonical all rest (insert (to_lower canonical) raw m) known further
              (insert-Sound (to_lower canonical) raw m
                (by_alias canonical alias all known (sub alias (Memᴰ.head refl)) refl
                  (sound (to_lower alias) raw e))
                sound))
      ]

  add_targets-Sound :
      (entries : Dict (List String)) (m : Dict String)
      → ((x : String × List String) → Memᴰ x entries → Memᴰ x aliases)
      → Sound m
      → Sound (add_targets entries m)
  unfolding add_targets
  add_targets-Sound [] m sub sound = sound
  add_targets-Sound ((canonical, names) ∷ rest) m sub sound =
      add_targets-Sound rest (alias_targets canonical names m) (λ x h. sub x (Memᴰ.tail h))
        (alias_targets-Sound canonical names names m (sub (canonical, names) (Memᴰ.head refl))
          (λ a h. h) sound)

  -- Every address of the map is one under which the account is listed.
  pub targets-Sound : Sound (targets aliases users)
  unfolding targets lookup
  targets-Sound =
      add_targets-Sound aliases (raw_emails users []) (λ x h. h)
        (raw_emails-Sound users [] (λ u h. h) (λ key raw e. absurd (none-some e)))

-- A map has every key that another has.
abbrev Grows : Dict String → Dict String → Type 0
Grows m m' = (key : String) → is_some (lookup key m) ≡ true → is_some (lookup key m') ≡ true

insert-Grows : (key raw : String) (m : Dict String) → Grows m (insert key raw m)
insert-Grows key raw m k h = ground (arith, lookup-insert key k raw m, h)

raw_emails-Grows : (us : List User) (m : Dict String) → Grows m (raw_emails us m)
unfolding raw_emails
raw_emails-Grows [] m k h = h
raw_emails-Grows (u ∷ us) m k h =
    raw_emails-Grows us (insert (to_lower u.email) u.email m) k
      (insert-Grows (to_lower u.email) u.email m k h)

raw_emails-listed :
    (us : List User) (m : Dict String) (k : String)
    → is_listed us k ≡ true
    → is_some (lookup k (raw_emails us m)) ≡ true
unfolding raw_emails any
raw_emails-listed [] m k h = ground (arith, h)
raw_emails-listed (u ∷ us) m k h =
    let m1 = insert (to_lower u.email) u.email m in
    elim (Bool-cases (to_lower u.email == k)) [
      | inl same ↦
          raw_emails-Grows us m1 k
            (ground (arith, lookup-insert (to_lower u.email) k u.email m, same))
      | inr other ↦ raw_emails-listed us m1 k (ground (arith, h, other))
    ]

alias_targets-Grows :
    (canonical : String) (names : List String) (m : Dict String)
    → Grows m (alias_targets canonical names m)
unfolding alias_targets
alias_targets-Grows canonical [] m k h = h
alias_targets-Grows canonical (alias ∷ rest) m k h =
    elim (Option-cases (lookup (to_lower alias) m)) [
      | inl e ↦ rw (e) (alias_targets-Grows canonical rest m k h)
      | inr (raw, e) ↦ rw (e) (
          alias_targets-Grows canonical rest (insert (to_lower canonical) raw m) k
            (insert-Grows (to_lower canonical) raw m k h))
    ]

module _ (users : List User) where
  -- Every listed address has a key.
  abbrev Holds : Dict String → Type 0
  Holds m = (key : String) → is_listed users key ≡ true → is_some (lookup key m) ≡ true

  alias_targets-reached :
      (canonical : String) (names : List String) (m : Dict String)
      → Holds m
      → any (λ a. is_listed users (to_lower a)) names ≡ true
      → is_some (lookup (to_lower canonical) (alias_targets canonical names m)) ≡ true
  unfolding alias_targets any
  alias_targets-reached canonical [] m holds h = ground (arith, h)
  alias_targets-reached canonical (alias ∷ rest) m holds h =
      elim (Option-cases (lookup (to_lower alias) m)) [
        | inr (raw, e) ↦ rw (e) (
            alias_targets-Grows canonical rest (insert (to_lower canonical) raw m)
              (to_lower canonical)
              (ground (
                arith,
                lookup-insert (to_lower canonical) (to_lower canonical) raw m,
                eq_refl (to_lower canonical),
              )))
        | inl e ↦
            let here = holds (to_lower alias) in
            rw (e) (alias_targets-reached canonical rest m holds (ground (arith, h, e, here)))
      ]

  add_targets-Grows :
      (entries : Dict (List String)) (m : Dict String) → Grows m (add_targets entries m)
  unfolding add_targets
  add_targets-Grows [] m k h = h
  add_targets-Grows ((canonical, names) ∷ rest) m k h =
      add_targets-Grows rest (alias_targets canonical names m) k
        (alias_targets-Grows canonical names m k h)

  add_targets-reached :
      (entries : Dict (List String)) (m : Dict String) (key : String)
      → Holds m
      → any
          (λ entry. to_lower entry.0 == key && any (λ a. is_listed users (to_lower a)) entry.1)
          entries
        ≡ true
      → is_some (lookup key (add_targets entries m)) ≡ true
  unfolding add_targets any
  add_targets-reached [] m key holds h = ground (arith, h)
  add_targets-reached ((canonical, names) ∷ rest) m key holds h =
      let m1 = alias_targets canonical names m in
      let holds1 = λ (k : String) (l : is_listed users k ≡ true).
        alias_targets-Grows canonical names m k (holds k l) in
      elim (Bool-cases
        (to_lower canonical == key && any (λ a. is_listed users (to_lower a)) names)) [
          | inr other ↦ add_targets-reached rest m1 key holds1 (rw (other) at h)
          | inl this ↦
              let same : to_lower canonical ≡ key =
                (eq_iff (to_lower canonical) key).0 (ground (arith, this)) in
              let named : any (λ a. is_listed users (to_lower a)) names ≡ true =
                ground (arith, this) in
              add_targets-Grows rest m1 key (
                subst (λ k. is_some (lookup k m1) ≡ true) same
                  (alias_targets-reached canonical names m holds named))
        ]

  -- An account that is listed, itself or under an alias, has an address in the map.
  pub targets-reached :
      (aliases : Dict (List String)) (key : String)
      → is_listed_by_any aliases users key ≡ true
      → is_some (lookup key (targets aliases users)) ≡ true
  unfolding targets
  targets-reached aliases key h =
      let m = raw_emails users [] in
      let holds = λ (k : String) (l : is_listed users k ≡ true). raw_emails-listed users [] k l in
      elim (Bool-cases (is_listed users key)) [
        | inl own_key ↦ add_targets-Grows aliases m key (holds key own_key)
        | inr other ↦ add_targets-reached aliases m key holds (rw (other) at h)
      ]
