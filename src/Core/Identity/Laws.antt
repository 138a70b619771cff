-- ===== src/Core/Identity/Laws.antt =====
-- The canonical identity: what its status says of its links.
use unseat.Base.{
  String, List, [], ◌∷◌, ◌++◌, true, ◌||◌, some, arith, ◌≡◌, inl, inr, refl, if◌then◌else◌, any,
  All, All-append, length, Option-cases, count-pos, ltb,
}
use unseat.Base.Dict.{Dict}
use unseat.Base.Sorting.{any-sort_by}
use unseat.Core.Types.{User}
use unseat.Core.Identity.{
  IdentityLink, ResolveIdentityInput, strong, weak, unknown, matched, unmatched, ambiguous,
  resolve_provider_user_link, links_of_users, provider_links, collected_links, judge, alias_link,
  directory_link, known_index, link_less, resolve_canonical_identity, is_strong, is_weak,
  primary_of, is_ambiguous,
}

-- Every link is strong or weak; only a weak one is ambiguous.
abbrev Sound : IdentityLink → Type 0
Sound link =
    (is_strong link || is_weak link ≡ true)
    × ((is_ambiguous link.status ≡ true) → (is_weak link ≡ true))

resolve_provider_user_link-Sound :
    (provider : String) (u : User) (primary : String) (index : Dict String) (link : IdentityLink)
    → resolve_provider_user_link provider u primary index ≡ some link
    → Sound link
unfolding resolve_provider_user_link
resolve_provider_user_link-Sound provider u primary index link h = ground arith

links_of_users-Sound :
    (provider primary : String) (index : Dict String) (us : List User)
    → All Sound (links_of_users provider primary index us)
unfolding links_of_users
links_of_users-Sound provider primary index [] = tt
links_of_users-Sound provider primary index (u ∷ us) =
    elim (Option-cases (resolve_provider_user_link provider u primary index)) [
      | inl e ↦ rw (e, links_of_users) (links_of_users-Sound provider primary index us)
      | inr (link, e) ↦
          rw (e, links_of_users)
            (
              resolve_provider_user_link-Sound provider u primary index link e,
              links_of_users-Sound provider primary index us,
            )
    ]

provider_links-Sound :
    (primary : String) (index : Dict String) (providers : Dict (List User))
    → All Sound (provider_links primary index providers)
unfolding provider_links
provider_links-Sound primary index [] = tt
provider_links-Sound primary index ((name, users) ∷ rest) =
    All-append Sound (links_of_users name primary index users) (provider_links primary index rest)
      (links_of_users-Sound name primary index users) (provider_links-Sound primary index rest)

alias_link-Sound : (input : ResolveIdentityInput) → All Sound (alias_link input)
unfolding alias_link
alias_link-Sound input = ground arith

directory_link-Sound : (input : ResolveIdentityInput) → All Sound (directory_link input)
unfolding directory_link
directory_link-Sound input = ground arith

collected_links-Sound : (input : ResolveIdentityInput) → All Sound (collected_links input)
unfolding collected_links
collected_links-Sound input =
    let found = provider_links (primary_of input) (known_index input) input.provider_users in
    All-append Sound (alias_link input) (directory_link input ++ found) (alias_link-Sound input) (
      All-append Sound (directory_link input) found (directory_link-Sound input)
        (provider_links-Sound (primary_of input) (known_index input) input.provider_users))

some-Sound :
    (links : List IdentityLink)
    → All Sound links
    → ltb 0 (length links) ≡ (any is_strong links || any is_weak links)
unfolding any
some-Sound [] s = refl
some-Sound (link ∷ links) s = ground (arith, some-Sound links s.1)

judge_lem :
    (links : List IdentityLink)
    → All Sound links
    → judge links ≡ (
        if any is_strong links
        then (matched, strong)
        else if any is_weak links
        then (ambiguous, weak)
        else (unmatched, unknown))
unfolding judge
judge_lem links s =
    ground (arith, count-pos is_weak links, count-pos is_strong links, some-Sound links s)

any-true : (links : List IdentityLink) → any (λ link. true) links ≡ ltb 0 (length links)
unfolding any
any-true [] = refl
any-true (link ∷ links) = ground arith

-- An identity is matched, with strong confidence, if some link is strong; ambiguous, with weak
-- confidence, if there are only weak ones; and unmatched, with unknown confidence, if there is none.
pub resolve_canonical_identity_status :
    (input : ResolveIdentityInput)
    → let id = resolve_canonical_identity input in
      (id.status ≡ (
        if any is_strong id.links
        then matched
        else if any is_weak id.links
        then ambiguous
        else unmatched))
      × (id.confidence ≡ (
          if any is_strong id.links
          then strong
          else if any is_weak id.links
          then weak
          else unknown))
      × (any (λ link. true) id.links ≡ (any is_strong id.links || any is_weak id.links))
unfolding resolve_canonical_identity
resolve_canonical_identity_status input = ground (
  arith,
  judge_lem (collected_links input) (collected_links-Sound input),
  any-sort_by link_less is_strong (collected_links input),
  any-sort_by link_less is_weak (collected_links input),
  any-sort_by link_less (λ link. true) (collected_links input),
  some-Sound (collected_links input) (collected_links-Sound input),
  any-true (collected_links input),
)
