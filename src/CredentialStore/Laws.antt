-- ===== src/CredentialStore/Laws.antt =====
-- What is read back from the file of internal/credentials/store.go.
use unseat.Base.{
  ℕ, ◌*◌, ◌/◌, String, false, Option, none, some, ◌==◌, ◌≡◌, ◌≢◌, refl, sym, ap, arith,
  if◌then◌else◌, Bool-cases, Option-cases, Result-cases, inl, inr, ◌∙◌, Result, ok, err, err-ne-ok,
}
use unseat.Base.Dict.{Dict, lookup, insert, erase, lookup-insert, lookup-erase}
use unseat.CredentialStore.{
  Credential, Json, Disk, not_found, load, save, get, set, delete, stamped, created, found, write,
  contents, parsed,
}

-- A change of the store.
pub data Change : Type 0 where
  put : (cred : Credential) → Change
  drop : (provider : String) → Change

unfoldable pub apply_change : Json → ℕ → Change → Disk → Option String × Disk
apply_change json now (put cred) disk = set json now cred disk
apply_change json now (drop provider) disk = delete json provider disk

-- The credential that a read gives.
abbrev stored : Result Credential → Option Credential
stored (ok c) = some c
stored (err why) = none

-- The first time that is there.
abbrev pub first_time : Option ℕ → Option ℕ → Option ℕ
first_time (some t) other = some t
first_time none other = other

-- What is stored of a credential: all that is given, with the second of the change as the time of
-- update, and as the time of creation the one given, or else the one stored before, or else that
-- second.
unfoldable pub as_stored : ℕ → Credential → Option Credential → Credential
as_stored now cred old =
    let second = now / 1000000000 * 1000000000 in
    let before : Option ℕ = elim old [ none ↦ none | some o ↦ o.created_at ] in
    record {
      provider = cred.provider;
      type = cred.type;
      access_token = cred.access_token;
      refresh_token = cred.refresh_token;
      token_expiry = cred.token_expiry;
      api_key = cred.api_key;
      created_at = first_time cred.created_at (first_time before (some second));
      updated_at = some second;
    }

created-first_time :
    (second : ℕ) (given before : Option ℕ) (o : Credential)
    → o.created_at ≡ before
    → created second given (some o) ≡ first_time given (first_time before (some second))
unfolding created
created-first_time second (some t) before o e = refl
created-first_time second none (some t) o e = rw (e) refl
created-first_time second none none o e = rw (e) refl

stamped-as_stored :
    (now : ℕ) (cred : Credential) (old : Option Credential)
    → stamped now cred old ≡ as_stored now cred old
unfolding stamped created as_stored
stamped-as_stored now cred none = ground arith
stamped-as_stored now cred (some o) =
    let second = now / 1000000000 * 1000000000 in
    ap (λ t. record cred { created_at = t; updated_at = some second })
      (created-first_time second cred.created_at o.created_at o refl)

-- What a read of a provider gives after a change, from what it gave before.
unfoldable pub expected : Json → ℕ → Change → Disk → String → Result Credential
expected json now (put cred) disk provider =
    if cred.provider == provider
    then ok (as_stored now cred (stored (get json disk cred.provider)))
    else get json disk provider
expected json now (drop name) disk provider =
    if name == provider then err not_found else get json disk provider

-- Two maps with the same entries, in any order.
abbrev pub SameEntries : Dict Credential → Dict Credential → Type 0
SameEntries one two = (provider : String) → lookup provider one ≡ lookup provider two

some-ne-none {ℓ} : {A : Type ℓ} (a : A) → some a ≢ none
some-ne-none a h = cc

stored-found : (o : Option Credential) → stored (found o) ≡ o
unfolding found
stored-found none = refl
stored-found (some c) = refl

put-expected :
    (cred : Credential) (provider : String) (now : ℕ) (creds : Dict Credential)
    → let old = lookup cred.provider creds in
      found
        (if cred.provider == provider then some (stamped now cred old) else lookup provider creds)
      ≡ (if cred.provider == provider
          then ok (as_stored now cred (stored (found old)))
          else found (lookup provider creds))
unfolding found
put-expected cred provider now creds = elim (Bool-cases (cred.provider == provider)) [
  | inl e ↦
      rw (e, stamped-as_stored now cred (lookup cred.provider creds))
        (ap (λ o. ok (as_stored now cred o)) (sym (stored-found (lookup cred.provider creds))))
  | inr e ↦ rw (e) refl
]

drop-expected :
    (name provider : String) (creds : Dict Credential)
    → found (if name == provider then none else lookup provider creds)
      ≡ (if name == provider then err not_found else found (lookup provider creds))
unfolding found
drop-expected name provider creds = elim (Bool-cases (name == provider)) [
  | inl e ↦ rw (e) refl
  | inr e ↦ rw (e) refl
]

module _ (json : Json)
    (faithful : (creds : Dict Credential) (text : String)
      → json.marshal creds ≡ ok text
      → ((back : Dict Credential) × (json.unmarshal text ≡ ok back) × SameEntries back creds)
        × (text == "" ≡ false)) where
  -- What was saved is loaded.
  load-save :
      (creds old : Dict Credential) (disk : Disk)
      → load json disk ≡ ok old
      → (save json creds disk).0 ≡ none
      → (back : Dict Credential) × (load json (save json creds disk).1 ≡ ok back)
        × SameEntries back creds
  unfolding load save write contents parsed
  load-save creds old disk h done = elim (Option-cases disk.read_error) [
    | inr (why, e) ↦ absurd (err-ne-ok (rw (load, e) at h))
    | inl readable ↦ elim (Result-cases (json.marshal creds)) [
      | inr (why, e) ↦ absurd (some-ne-none _ (rw (save, e) at done))
      | inl (text, e) ↦ elim (Option-cases disk.directory_error) [
        | inr (why, d) ↦ absurd (some-ne-none _ (rw (save, e, write, d) at done))
        | inl made ↦ elim (Option-cases disk.write_error) [
          | inr ((why, left), w) ↦ absurd (some-ne-none _ (rw (save, e, write, made, w) at done))
          | inl written ↦
              let ((back, parses, same), filled) = faithful creds text e in
              let saved : save json creds disk ≡ (none, record disk { file = some text }) =
                ground arith in
              (
                back,
                rw (saved) (rw (load, readable) (rw (contents, filled) (rw (parses) refl))),
                same,
              )
        ]
      ]
    ]
  ]

  get-save :
      (creds old : Dict Credential) (disk : Disk) (provider : String)
      → load json disk ≡ ok old
      → (save json creds disk).0 ≡ none
      → get json (save json creds disk).1 provider ≡ found (lookup provider creds)
  unfolding get
  get-save creds old disk provider h done =
      let (back, loads, same) = load-save creds old disk h done in
      rw (loads) (ap found (same provider))

  -- After a change that succeeds, every provider is read as expected.
  change-get :
      (now : ℕ) (change : Change) (disk : Disk)
      → (apply_change json now change disk).0 ≡ none
      → (provider : String)
      → get json (apply_change json now change disk).1 provider
        ≡ expected json now change disk provider
  unfolding apply_change expected set delete get found
  change-get now (put cred) disk done provider = elim (Result-cases (load json disk)) [
    | inr (why, e) ↦ absurd (some-ne-none _ (rw (set, e) at done))
    | inl (creds, e) ↦
        let new = stamped now cred (lookup cred.provider creds) in
        let read =
          get-save (insert cred.provider new creds) creds disk provider e (rw (set, e) at done) in
        let before : get json disk cred.provider ≡ found (lookup cred.provider creds) =
          rw (get, e) refl in
        let elsewhere : get json disk provider ≡ found (lookup provider creds) = rw (get, e) refl in
        rw (set, e)
          (read
            ∙ (ap found (lookup-insert cred.provider provider new creds)
                ∙ put-expected cred provider now creds))
  ]
  change-get now (drop name) disk done provider = elim (Result-cases (load json disk)) [
    | inr (why, e) ↦ absurd (some-ne-none _ (rw (delete, e) at done))
    | inl (creds, e) ↦
        let read = get-save (erase name creds) creds disk provider e (rw (delete, e) at done) in
        let elsewhere : get json disk provider ≡ found (lookup provider creds) = rw (get, e) refl in
        rw (delete, e)
          (read ∙ (ap found (lookup-erase name provider creds) ∙ drop-expected name provider creds))
  ]

-- Where what is marshalled is not empty and is unmarshalled to a map with the same entries: after a `Set` or
-- a `Delete` that reports no error, a `Get` of the changed provider gives the stored credential, with
-- its two times, or the error that there is none, and a `Get` of any other provider gives what it gave
-- before. The time of creation is the one given, or else the one stored before, or else now.
pub apply_change-get :
    (json : Json)
    → ((creds : Dict Credential) (text : String)
        → json.marshal creds ≡ ok text
        → ((back : Dict Credential) × (json.unmarshal text ≡ ok back) × SameEntries back creds)
          × (text == "" ≡ false))
    → (now : ℕ) (change : Change) (disk : Disk) → (apply_change json now change disk).0 ≡ none
    → (provider : String)
    → get json (apply_change json now change disk).1 provider
      ≡ expected json now change disk provider
apply_change-get json faithful now change disk done provider =
    change-get json faithful now change disk done provider
