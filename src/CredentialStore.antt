-- ===== src/CredentialStore.antt =====
-- internal/credentials/store.go: the file of credentials. The file is a text or is missing; what the
-- operating system refuses, and the reading and writing of JSON, come from outside.
pub mod Laws
use Prim.Native.String.{slice}
use unseat.Base.{
  ℕ, ◌*◌, ◌/◌, String, ◌<>◌, List, [], ◌∷◌, Bool, true, false, not, Option, none, some, ◌==◌,
  if◌then◌else◌, leb, byte_length, map, is_some, Result, ok, err, ◌>>=◌,
}
use unseat.Base.Dict.{Dict, lookup, insert, erase}
use unseat.Config.{ProviderConfig, Config}

pub data CredentialType : Type 0 where
  oauth2 api_key other : CredentialType

-- A zero time is `none`.
pub record Credential : Type 0 where
  pub provider : String
  pub type : CredentialType
  pub access_token : String
  pub refresh_token : String
  pub token_expiry : Option ℕ
  pub api_key : String
  pub created_at : Option ℕ
  pub updated_at : Option ℕ

-- `encoding/json` on the map of credentials. A file that holds `null`, on which `Set` would write to
-- a nil map, is left out.
pub record Json : Type 0 where
  pub marshal : Dict Credential → Result String
  pub unmarshal : String → Result (Dict Credential)

-- The file, and what is refused: a read, the making of the directory, or a write, with what a failed
-- write leaves in the file.
pub record Disk : Type 0 where
  pub file : Option String
  pub read_error : Option String
  pub directory_error : Option String
  pub write_error : Option (String × String)

-- `ErrNotFound`
abbrev pub not_found : String
not_found = "credential not found"

parsed : Result (Dict Credential) → Result (Dict Credential)
parsed (ok creds) = ok creds
parsed (err why) = err ("parse credentials: " <> why)

-- `os.MkdirAll` and `os.WriteFile`
write : String → Disk → Option String × Disk
write text disk = elim disk.directory_error [
  | some why ↦ (some ("create credentials dir: " <> why), disk)
  | none ↦ elim disk.write_error [
    | some (why, left) ↦ (some ("write credentials: " <> why), record disk { file = some left })
    | none ↦ (none, record disk { file = some text })
  ]
]

found : Option Credential → Result Credential
found none = err not_found
found (some cred) = ok cred

-- `CreatedAt` of what is stored: what is given, or what was there, or now.
created : ℕ → Option ℕ → Option Credential → Option ℕ
created now (some t) existing = some t
created now none none = some now
created now none (some cred) = if is_some cred.created_at then cred.created_at else some now

-- The credential that `Set` stores; `now` is cut to seconds.
unfoldable pub stamped : ℕ → Credential → Option Credential → Credential
unfolding created
stamped now cred existing =
    let second = now / 1000000000 * 1000000000 in
    record cred { created_at = created second cred.created_at existing; updated_at = some second }

module _ (json : Json) where
  -- What `load` makes of the content of the file.
  contents : Option String → Result (Dict Credential)
  unfolding parsed
  contents none = ok []
  contents (some text) = if text == "" then ok [] else parsed (json.unmarshal text)

  -- `FileStore.load`
  unfoldable pub load : Disk → Result (Dict Credential)
  unfolding contents
  load disk = elim disk.read_error [
    | some why ↦ err ("read credentials: " <> why)
    | none ↦ contents disk.file
  ]

  -- `FileStore.save`: the error, and the disk after it.
  unfoldable pub save : Dict Credential → Disk → Option String × Disk
  unfolding write
  save creds disk = elim (json.marshal creds) [
    | err why ↦ (some ("marshal credentials: " <> why), disk)
    | ok text ↦ write text disk
  ]

  -- `FileStore.Get`
  unfoldable pub get : Disk → String → Result Credential
  unfolding found
  get disk provider = load disk >>= λ creds. found (lookup provider creds)

  -- `FileStore.Set`
  unfoldable pub set : ℕ → Credential → Disk → Option String × Disk
  set now cred disk = elim (load disk) [
    | err why ↦ (some why, disk)
    | ok creds ↦
        save (insert cred.provider (stamped now cred (lookup cred.provider creds)) creds) disk
  ]

  -- `FileStore.Delete`
  unfoldable pub delete : String → Disk → Option String × Disk
  delete provider disk = elim (load disk) [
    | err why ↦ (some why, disk)
    | ok creds ↦ save (erase provider creds) disk
  ]

-- `mask`; the first four characters are its first four bytes in ASCII.
unfoldable pub mask : String → String
mask s = if s == "" then "" else if leb (byte_length s) 8 then "****" else slice s 0 4 <> "****"

masked : Credential → Credential
masked c = record c {
  access_token = mask c.access_token;
  refresh_token = mask c.refresh_token;
  api_key = mask c.api_key;
}

masked_values : Dict Credential → List Credential
unfolding masked
masked_values [] = []
masked_values ((provider, cred) ∷ creds) = masked cred ∷ masked_values creds

-- `FileStore.List`
unfoldable pub list_credentials : Json → Disk → Result (List Credential)
unfolding masked_values
list_credentials json disk = load json disk >>= λ creds. ok (masked_values creds)

abbrev pub no_provider : ProviderConfig
no_provider = record { api_key = ""; base_url = ""; extra_args = [] }

provider_of : String → Dict ProviderConfig → ProviderConfig
provider_of name providers = elim (lookup name providers) [ none ↦ no_provider | some p ↦ p ]

-- The key that a credential carries.
unfoldable pub key_of : Credential → String
key_of c = elim c.type [ oauth2 ↦ c.access_token | api_key ↦ c.api_key | other ↦ "" ]

-- The body of the loop of `InjectIntoConfig`.
unfoldable pub inject_one : Credential → Dict ProviderConfig → Dict ProviderConfig
unfolding provider_of key_of
inject_one c providers =
    let existing = provider_of c.provider providers in
    if not (existing.api_key == "")
    then providers
    else if key_of c == ""
    then providers
    else insert c.provider (record existing { api_key = key_of c }) providers

unfoldable pub inject_all : Dict Credential → Dict ProviderConfig → Dict ProviderConfig
unfolding inject_one
inject_all [] providers = providers
inject_all ((name, c) ∷ creds) providers = inject_all creds (inject_one c providers)

-- `InjectIntoConfig`
unfoldable pub inject_into_config : Json → Disk → Config → Result Config
unfolding inject_all
inject_into_config json disk cfg =
    load json disk >>= λ creds. ok (record cfg { providers = inject_all creds cfg.providers })
