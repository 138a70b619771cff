-- ===== src/Tests/Matching.antt =====
-- Seats matched across providers and with the directory.
use unseat.Base.{
  String, List, [], ◌∷◌, false, map, flat_map, has_at, to_lower, trim_space, before_at, keep_chars,
  byte_length, contains, has_prefix, has_suffix, before_char, fields, remove_first, trim_digits,
  trim_suffix, ◌&&◌, ◌||◌, leb, ltb, none, ◌==◌, ◌≡◌, refl, any, All, length,
}
use unseat.Base.Dict.{Dict, insert, lookup}
use unseat.Base.Sorting.{sort_by, sort_strings}
use unseat.Core.Types.{User}
use unseat.Core.Seats.{ClassifiedSeat, external}
use unseat.Core.Correlate.{find_offboarding_gaps, presence, enter}
use unseat.Core.Correlate.Laws.{find_offboarding_gaps-exact, deactivated_at, active_at}
use unseat.Core.Identity.{local_part}
use unseat.Core.Suggest.{
  Unicode, matches_handle, build_directory_keys, has_name, match_handle, first_match, handle_forms,
  match_against, name_key, noise_for, company_label,
}
use unseat.Core.Suggest.Report.{suggest_aliases}
use unseat.Core.Ghosts.{is_external, find_ghost_identities}
use unseat.Core.Ghosts.Laws.{find_ghost_identities-IsGhost, IsGhost}
use unseat.Tests.Fixtures.{user_at}

-- One leaver, suspended at Slack and still active at GitHub.
abbrev seats : Dict (List User)
seats =
    ("slack", user_at "Ann@corp.com" "suspended" ∷ user_at "bob@corp.com" "active" ∷ [])
    ∷ ("github", user_at "ann@corp.com" "active" ∷ [])
    ∷ []

find_offboarding_gaps-exact_example :
    ((email : String)
      → any (λ g. g.email == email) (find_offboarding_gaps seats)
        ≡ (ltb 0 (length (deactivated_at email seats)) && ltb 0 (length (active_at email seats))))
    × All
        (λ g.
          (g.deactivated_in ≡ sort_strings (deactivated_at g.email seats))
          × (g.still_active_in ≡ sort_strings (active_at g.email seats)))
        (find_offboarding_gaps seats)
find_offboarding_gaps-exact_example = find_offboarding_gaps-exact seats

gap_found :
    find_offboarding_gaps seats
    ≡ record {
      email = "ann@corp.com";
      deactivated_in = "slack" ∷ [];
      still_active_in = "github" ∷ [];
    }
      ∷ []
unfolding find_offboarding_gaps presence sort_by has_at to_lower trim_space insert enter lookup
    sort_strings
gap_found = refl

abbrev ascii : Unicode
ascii = record {
  strip_accents = λ s. s;
  is_letter_or_digit =
      λ c. (leb b'a' c && leb c b'z') || ((leb b'A' c && leb c b'Z') || (leb b'0' c && leb c b'9'));
}

abbrev named : String → String → User
named email name = record {
  email = email;
  display_name = name;
  role = "";
  status = "active";
  provider_id = "";
  last_activity_at = none;
  metadata = [];
}

abbrev staff : List User
staff =
    named "will.benton@corp.com" "William Benton" ∷ named "priya@corp.com" "Priya Venkatesan" ∷ []

abbrev outside_seat : String → String → ClassifiedSeat
outside_seat raw name = record {
  provider = "notion";
  email = raw;
  raw_email = raw;
  user = named raw name;
  class = external;
  reason = "";
  protected = false;
}

abbrev personal_seats : List ClassifiedSeat
personal_seats =
    outside_seat "willbenton@gmail.com" "" ∷ outside_seat "jsmith@gmail.com" "Jane Smith" ∷ []

find_ghost_identities-IsGhost_example :
    All
      (IsGhost ascii personal_seats staff "corp.com")
      (find_ghost_identities ascii personal_seats staff "corp.com")
find_ghost_identities-IsGhost_example =
    find_ghost_identities-IsGhost ascii personal_seats staff "corp.com"

ghost_found :
    find_ghost_identities ascii personal_seats staff "corp.com"
    ≡ record {
      provider = "notion";
      identifier = "willbenton@gmail.com";
      display_name = "";
      email = "will.benton@corp.com";
      basis = "local part of external address spells the directory address";
    }
      ∷ []
unfolding find_ghost_identities sort_by flat_map is_external has_name trim_space local_part
    before_at match_handle first_match handle_forms match_against name_key keep_chars to_lower
    build_directory_keys matches_handle byte_length lookup contains has_prefix has_suffix
    before_char fields remove_first trim_digits trim_suffix noise_for company_label
ghost_found = refl

handle_suggested :
    map
      (λ s. s.email)
      (suggest_aliases ascii (outside_seat "priyaven-corp" "" ∷ []) staff "corp.com")
    ≡ "priya@corp.com" ∷ []
unfolding suggest_aliases sort_by has_name trim_space before_at match_handle first_match
    handle_forms match_against name_key keep_chars to_lower build_directory_keys matches_handle
    byte_length lookup contains has_prefix has_suffix before_char fields remove_first trim_digits
    trim_suffix noise_for company_label
handle_suggested = refl
