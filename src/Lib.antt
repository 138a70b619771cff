-- ===== src/Lib.antt =====
-- Verification of unseat, which reclaims the seats and the access of people who have left: it reads
-- who holds a seat at each provider, compares that with the corporate directory and the mapped
-- groups, and removes, recommends or reports.
--
-- The parts, and how they meet:
-- - Base: Go's maps, strings, sorting and 64-bit integers, and results with an error text.
-- - Core, the decisions without effects, one module for each file of internal/core: Objects and
--   Matrix (action.go), Types and Diff (types.go), Alias and Engine (engine.go), Seats
--   (classify.go), Identity (identity.go), Credentials (credential.go, nhi.go), Billing
--   (billing.go, billing_claim.go), Decisions (decision.go), Evidence (evidence.go), Certificate
--   (certificate.go), Correlate (correlate.go), Suggest (suggest.go), Ghosts (ghost.go), Scan
--   (scan.go). A function keeps its name in snake case: `ClassifySeats` is `classify_seats`. The
--   body of a loop, or a switch in it, is a helper that a comment names. Engine classifies through
--   Seats, which resolves addresses through Alias; Decisions reads the seats, credentials and
--   claims that the other modules produce; Certificate sorts the decisions; Ghosts matches names
--   through Suggest.
-- - Config: the queries of config/config.go, and Env with `LoadDotEnv` (config/env.go).
-- - Store, tables as values (internal/store/sqlite.go): Pending for the countdowns, Decisions for the
--   decisions and their events. A statement of SQL is a function on the list of rows, and a
--   transaction that fails leaves the tables as they were. Store/Decisions/Machine compares the five
--   changes of a decision with one machine; Store/Decisions/History has the relation of reachable
--   tables.
-- - Enforce: the execution of an approved decision at a provider (internal/enforce/enforce.go), over
--   the tables of Store/Decisions and the registry of internal/provider/registry.go.
-- - Sync: the reconciler (internal/sync/reconciler.go). World is all that a pass changes, with the
--   requests to providers in order; Actions, Expiry and Pass have the functions of the file; the
--   other modules prove. Every call outside is numbered, and a function from that number decides
--   whether it fails.
-- - Offboarding: the certificate of one person (internal/offboarding/offboarding.go). Inventory asks a
--   provider, Desired reads the mapped groups, Report, Proof and Parts make one provider's share of the
--   certificate out of Core, and Observe is `RunObserve`.
-- - Http: what the connectors share (internal/provider/httpclient). Client is `Do` with its retries, a
--   loop on fuel: one unit more than `maxRetries`, since a round that is not the last leaves one
--   retry less. Json is `DoJSON` and the redaction of URLs, Scim the walk over pages, at most 1000.
-- - CredentialStore: the file of credentials (internal/credentials/store.go), and Laws what is read
--   back from it. The file is a text; what the operating system refuses is part of the state.
-- - Tests: concrete inputs, and the theorems applied to them.
--
-- Given from outside, as arguments: the resolver of group members, what a provider or a server
-- answers, SHA-256, the hash of a recommendation and of evidence, the text of a time, the removal
-- of accents, the classes of characters, the floating-point thresholds of a scan, net/url and the
-- JSON decoder. Strings are lowered and trimmed over ASCII. Numbers are natural; a Go `int` or
-- `int64` of a billing claim or a duration is a number below 2 ^ 64 with the sign in its top bit,
-- and its arithmetic wraps around. A map is a list of entries, visited in its order, where Go
-- leaves the order open. The clock is read once for a pass. Loops run over lists but for `Do` and
-- the decimal printer, whose fuel is the number printed plus one, more than it has digits.
--
-- Not modelled: the connectors of internal/provider (requests and JSON of vendors), internal/auth and
-- internal/notify (network), api and cli (presentation), the tables of internal/store that only cache
-- what was read, the loading of YAML, log output, the scheduler's ticker; and, as further parts of the
-- same library, `ExpandEnv` of config/env.go and config/lint.go.

pub mod Base
pub mod Core
pub mod Config
pub mod CredentialStore
pub mod Store
pub mod Enforce
pub mod Http
pub mod Offboarding
pub mod Sync
pub mod Tests
