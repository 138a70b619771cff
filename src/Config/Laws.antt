-- ===== src/Config/Laws.antt =====
-- The set of exceptions of a provider against the query for one address.
use unseat.Base.Dict.{Dict}
