-- ===== src/Tests/Stored.antt =====
-- The file of credentials, under an encoding that can write the empty map and one plain API key.
use Prim.Native.Char.{Char, code}
use text.Mathlib.TextLemmas.{cons-ne-nil}
use unseat.Base.{
  ℕ, String, [], ◌∷◌, Bool, true, false, ◌&&◌, Option, none, some, ◌==◌, ◌≡◌, refl, sym, ap,
  byte_length, subst, arith, eq_iff, if◌then◌else◌, is_some, nat_eq, inl, inr, Bool-cases, Result,
  ok, err, err-ne-ok, ok-injective,
}
use unseat.Base.Dict.{Dict, lookup, insert}
use unseat.CredentialStore.{
  Credential, CredentialType, oauth2, api_key, other, Json, Disk, get, set, load, save, stamped,
  mask,
}
use unseat.CredentialStore.Laws.{Change, SameEntries, put, apply_change, expected, apply_change-get}

abbrev plain : String → Credential
plain provider = record {
  provider = provider;
  type = api_key;
  access_token = "";
  refresh_token = "";
  token_expiry = none;
  api_key = "k";
  created_at = some 0;
  updated_at = some 0;
}

abbrev is_key : CredentialType → Bool
is_key api_key = true
is_key oauth2 = false
is_key other = false

abbrev is_zero : Option ℕ → Bool
is_zero none = false
is_zero (some n) = nat_eq n 0

abbrev is_plain : String → Credential → Bool
is_plain provider c =
    (c.provider == provider && is_key c.type)
    && ((c.access_token == "" && c.refresh_token == "")
        && ((c.api_key == "k" && is_zero c.created_at)
            && (is_zero c.updated_at && (if is_some c.token_expiry then false else true))))

is_plain-eq : (provider : String) (c : Credential) → is_plain provider c ≡ true → c ≡ plain provider
is_plain-eq provider c h = ground (
  arith,
  eq_iff c.provider provider,
  eq_iff c.access_token "",
  eq_iff c.refresh_token "",
  eq_iff c.api_key "k",
)

abbrev write_map : Dict Credential → Result String
write_map [] = ok "0"
write_map ((provider, c) ∷ []) =
    if is_plain provider c then ok (String.◌∷◌ "1" provider) else err "unsupported"
write_map (one ∷ two ∷ creds) = err "unsupported"

abbrev read_map : String → Result (Dict Credential)
read_map String.[] = err "empty"
read_map (String.◌∷◌ c s) = if nat_eq (code c) b'0' then ok [] else ok ((s, plain s) ∷ [])

abbrev encoding : Json
encoding = record { marshal = write_map; unmarshal = read_map }

cons-eq-empty : (c : Char) (s : String) → (String.◌∷◌ c s == "") ≡ false
cons-eq-empty c s = elim (Bool-cases (String.◌∷◌ c s == "")) [
  | inr e ↦ e
  | inl e ↦ absurd (cons-ne-nil c s ((eq_iff _ _).0 e))
]

exact :
    (creds : Dict Credential) (text : String)
    → write_map creds ≡ ok text
    → (read_map text ≡ ok creds) × (text == "" ≡ false)
exact [] text h =
    subst (λ t. (read_map t ≡ ok []) × (t == "" ≡ false)) (ok-injective h) (refl, refl)
exact ((provider, c) ∷ []) text h = elim (Bool-cases (is_plain provider c)) [
  | inr e ↦ absurd (err-ne-ok (rw (e) at h))
  | inl e ↦
      subst (λ t. (read_map t ≡ ok ((provider, c) ∷ [])) × (t == "" ≡ false))
        (ok-injective (rw (e) at h))
        (
          ap (λ x. ok ((provider, x) ∷ [])) (sym (is_plain-eq provider c e)),
          cons-eq-empty "1" provider,
        )
]
exact (one ∷ two ∷ creds) text h = absurd (err-ne-ok h)

faithful :
    (creds : Dict Credential) (text : String)
    → write_map creds ≡ ok text
    → ((back : Dict Credential) × (read_map text ≡ ok back) × SameEntries back creds)
      × (text == "" ≡ false)
faithful creds text h =
    let (parses, filled) = exact creds text h in ((creds, parses, λ k. refl), filled)

abbrev blank : Disk
blank = record { file = none; read_error = none; directory_error = none; write_error = none }

abbrev addition : Change
addition = put (record (plain "figma") { created_at = none; updated_at = none })

addition_done : (apply_change encoding 5 addition blank).0 ≡ none
unfolding apply_change set load save insert stamped lookup
addition_done = refl

apply_change-get_example :
    get encoding (apply_change encoding 5 addition blank).1 "figma"
    ≡ expected encoding 5 addition blank "figma"
apply_change-get_example = apply_change-get encoding faithful 5 addition blank addition_done "figma"

secret_masked : mask "lin_api_0123456789" ≡ "lin_****"
unfolding mask byte_length
secret_masked = refl
