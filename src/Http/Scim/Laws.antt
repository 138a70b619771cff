-- ===== src/Http/Scim/Laws.antt =====
-- What `ListSCIM` of internal/provider/httpclient/scim.go returns from a server that serves a list.
use unseat.Base.{
  ℕ, zero, suc, ◌+◌, ◌-◌, ◌*◌, ◌≤◌, ◌<◌, String, List, [], ◌∷◌, ◌++◌, none, ◌≡◌, refl, ap, arith,
  ltb, leb, if◌then◌else◌, Result, ok, length, length-append, take, append-nil, append_assoc, ◌∙◌,
  inl, inr, Bool-cases,
}
use unseat.Http.Scim.{ScimListResponse, page_size, turn, walk, list_scim, finish, advance}

-- The rest of a list from a place on.
unfoldable pub drop {ℓ} : {A : Type ℓ} → ℕ → List A → List A
drop zero xs = xs
drop (suc n) [] = []
drop (suc n) (x ∷ xs) = drop n xs

-- The smaller of two numbers.
unfoldable pub smaller : ℕ → ℕ → ℕ
smaller a b = if ltb a b then a else b

smaller-pos : (size cap : ℕ) → 0 < cap → 0 < smaller (page_size size) cap
unfolding smaller page_size
smaller-pos size cap h = ground arith

-- A server that keeps to RFC 7644: it serves the resources from the place asked for, at most as
-- many as asked for and at most as many as it serves in one page, and it states how many there are.
unfoldable pub serve {ℓ} : {A : Type ℓ} → ℕ → List A → ℕ → ℕ → ℕ → Result (ScimListResponse A)
unfolding drop smaller
serve cap xs page start count = ok (record {
  resources = take (smaller count cap) (drop (start - 1) xs);
  total_results = length xs;
})

rounds-left : (r m n : ℕ) → m < n → n ≤ suc r * m → 0 < r
rounds-left zero m n lt le = absurd (omega arith)
rounds-left (suc r) m n lt le = omega arith

module _ {ℓ} {A : Type ℓ} where
  take-all : (n : ℕ) (xs : List A) → length xs ≤ n → take n xs ≡ xs
  unfolding take
  take-all zero [] h = refl
  take-all zero (x ∷ xs) h = absurd (omega arith)
  take-all (suc n) [] h = refl
  take-all (suc n) (x ∷ xs) h = ap (λ ys. x ∷ ys) (take-all n xs (omega arith))

  drop-length : (n : ℕ) (xs ys : List A) → n ≡ length xs → drop n (xs ++ ys) ≡ ys
  unfolding drop
  drop-length zero [] ys h = refl
  drop-length zero (x ∷ xs) ys h = absurd (omega arith)
  drop-length (suc n) [] ys h = absurd (omega arith)
  drop-length (suc n) (x ∷ xs) ys h = drop-length n xs ys (omega arith)

  take-drop : (n : ℕ) (xs : List A) → take n xs ++ drop n xs ≡ xs
  unfolding take drop
  take-drop zero xs = refl
  take-drop (suc n) [] = refl
  take-drop (suc n) (x ∷ xs) = ap (λ ys. x ∷ ys) (take-drop n xs)

  length-drop : (n : ℕ) (xs : List A) → length (drop n xs) ≡ length xs - n
  unfolding drop
  length-drop zero xs = omega arith
  length-drop (suc n) [] = omega arith
  length-drop (suc n) (x ∷ xs) = omega (arith, length-drop n xs)

  length-take : (n : ℕ) (xs : List A) → n ≤ length xs → length (take n xs) ≡ n
  unfolding take
  length-take zero xs h = omega arith
  length-take (suc n) [] h = absurd (omega arith)
  length-take (suc n) (x ∷ xs) h = omega (arith, length-take n xs)

  serve-rest :
      (cap page size : ℕ) (all rest : List A)
      → serve cap (all ++ rest) page (suc (length all)) size
        ≡ ok (record {
          resources = take (smaller size cap) rest;
          total_results = length (all ++ rest);
        })
  unfolding serve
  serve-rest cap page size all rest =
      let at : suc (length all) - 1 ≡ length all = omega arith in
      rw (at, drop-length (length all) all rest refl) refl

  module _ (provider : String) (fetch : ℕ → ℕ → ℕ → Result (ScimListResponse A)) (size : ℕ) where
    turn-last :
        (all rest : List A)
        → turn provider fetch size all
            (ok (record { resources = rest; total_results = length (all ++ rest) }))
          ≡ finish (all ++ rest) none
    unfolding turn
    turn-last all [] = rw (append-nil all) (ground arith)
    turn-last all (x ∷ rest) = ground (arith, length-append all (x ∷ rest))

    turn-more :
        (all read : List A) (total : ℕ)
        → 0 < length read
        → length all + length read < total
        → turn provider fetch size all (ok (record { resources = read; total_results = total }))
          ≡ advance (all ++ read) (length read)
    unfolding turn
    turn-more all read total some_read more = ground (arith, length-append all read)

  -- The walk over what is left of a list, with rounds enough for it.
  walk-serve :
      (provider : String) (cap size rounds page : ℕ) (all rest : List A)
      → 0 < smaller size cap
      → 0 < rounds
      → length rest ≤ rounds * smaller size cap
      → walk provider (serve cap (all ++ rest)) size rounds page (suc (length all)) all
        ≡ (all ++ rest, none)
  unfolding walk
  walk-serve provider cap size zero page all rest pos few h = absurd (omega arith)
  walk-serve provider cap size (suc rounds) page all rest pos few h =
      let m = smaller size cap in
      let fetch = serve cap (all ++ rest) in
      elim (Bool-cases (leb (length rest) m)) [
        | inl last ↦
            rw
              (
                walk,
                serve-rest cap page size all rest,
                take-all m rest (ground arith),
                turn-last provider fetch size all rest,
              )
              refl
        | inr more ↦
            let long : m < length rest = ground arith in
            let read = take m rest in
            let size_read : length read ≡ m = length-take m rest (omega arith) in
            let whole : (all ++ read) ++ drop m rest ≡ all ++ rest =
              append_assoc all read (drop m rest) ∙ ap (λ r. all ++ r) (take-drop m rest) in
            let next : suc (length (all ++ read)) ≡ suc (length all) + length read =
              omega (arith, length-append all read) in
            let ih =
              walk-serve provider cap size rounds (suc page) (all ++ read) (drop m rest) pos
                (rounds-left rounds m (length rest) long h) (omega (arith, length-drop m rest)) in
            rw
              (
                walk,
                serve-rest cap page size all rest,
                turn-more provider fetch size all read (length (all ++ rest)) (omega arith)
                    (omega (arith, length-append all rest)),
                ← next,
              )
              (rw whole at ih)
      ]

-- From a server that serves a list and states its length, each page of at least one resource,
-- `ListSCIM` returns the whole list in order, with no error, where 1000 pages are enough for it: the
-- server may cap the pages below the size that is asked for.
pub list_scim-serve {ℓ} :
    {A : Type ℓ} (provider : String) (xs : List A) (cap size : ℕ)
    → 0 < cap
    → length xs ≤ 1000 * smaller (page_size size) cap
    → list_scim provider (serve cap xs) size ≡ (xs, none)
unfolding list_scim
list_scim-serve provider xs cap size some_page few =
    walk-serve provider cap (page_size size) 1000 0 [] xs (smaller-pos size cap some_page)
      (omega arith) few
