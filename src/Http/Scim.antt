-- ===== src/Http/Scim.antt =====
-- internal/provider/httpclient/scim.go: the walk over the pages of a SCIM collection. What `DoJSON`
-- returns for a page is an argument, by the number of the page, `startIndex` and `count`; the URL
-- is taken to be well formed.
pub mod Laws
use unseat.Base.{
  ℕ, zero, suc, ◌+◌, ◌-◌, String, ◌<>◌, List, [], ◌++◌, Bool, not, ◌&&◌, Option, none, some,
  if◌then◌else◌, ltb, leb, nat_eq, Result, ok, err, length,
}
use unseat.Base.Decimal.{decimal}

-- The two fields of `SCIMListResponse` that are read. A negative `totalResults` acts as 0 does.
pub record ScimListResponse {ℓ} (A : Type ℓ) : Type ℓ where
  pub resources : List A
  pub total_results : ℕ

-- The page size that is asked for, where the options give one that is not positive.
unfoldable pub page_size : ℕ → ℕ
page_size n = if nat_eq n 0 then 100 else n

abbrev pub max_scim_pages : ℕ
max_scim_pages = 1000

module _ {ℓ} {A : Type ℓ} (provider : String) (fetch : ℕ → ℕ → ℕ → Result (ScimListResponse A))
    (size : ℕ) where
  -- How the walk goes on after a page.
  pub data Turn : Type ℓ where
    finish : (all : List A) (error : Option String) → Turn
    advance : (all : List A) (read : ℕ) → Turn

  stalled : ℕ → ℕ → String
  stalled n total =
      provider
      <> (": SCIM pagination stalled at "
          <> (decimal n
              <> (" of "
                  <> (decimal total
                      <> " reported results — the API returned an empty page while claiming more"))))

  exceeded : String
  exceeded =
      provider
      <> (": SCIM pagination exceeded "
          <> (decimal max_scim_pages
              <> " pages — the API keeps reporting more results than it returns"))

  -- The body of the loop, on what was read before and the page.
  turn : List A → Result (ScimListResponse A) → Turn
  unfolding stalled
  turn all (err why) = finish [] (some why)
  turn all (ok resp) =
      if nat_eq (length resp.resources) 0
      then (if ltb (length all) resp.total_results
          then finish [] (some (stalled (length all) resp.total_results))
          else finish all none)
      else let all' = all ++ resp.resources in
        if ltb 0 resp.total_results && leb resp.total_results (length all')
        then finish all' none
        else if ltb (length resp.resources) size && leb resp.total_results (length all')
        then finish all' none
        else advance all' (length resp.resources)

  -- The loop, by the rounds that are left.
  walk : ℕ → ℕ → ℕ → List A → List A × Option String
  unfolding turn exceeded
  walk zero page start all = (all, some exceeded)
  walk (suc rounds) page start all = elim (turn all (fetch page start size)) [
    | finish result error ↦ (result, error)
    | advance all' read ↦ walk rounds (suc page) (start + read) all'
  ]

-- `ListSCIM`: the resources, and the error.
unfoldable pub list_scim {ℓ} :
    {A : Type ℓ} → String → (ℕ → ℕ → ℕ → Result (ScimListResponse A)) → ℕ → List A × Option String
unfolding walk
list_scim provider fetch size = walk provider fetch (page_size size) max_scim_pages 0 1 []
