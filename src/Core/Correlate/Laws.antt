-- ===== src/Core/Correlate/Laws.antt =====
-- Whom `FindOffboardingGaps` of internal/core/correlate.go names, and with which providers.
use unseat.Base.{
  String, List, [], ◌∷◌, ◌++◌, Bool, not, ◌&&◌, some, ◌==◌, ◌≡◌, refl, sym, ap, arith,
  if◌then◌else◌, ltb, length, normal, has_at, keep, map, flat_map, any, All, append_assoc,
  append-nil, ◌∙◌, eq_iff, Bool-cases, inl, inr,
}
use unseat.Base.Dict.{Dict, lookup, insert, lookup-insert, Unique, insert-Unique, lookup-entries}
use unseat.Base.Sorting.{sort_strings, any-sort_by, All-sort_by}
use unseat.Core.Types.{User}
use unseat.Core.Correlate.{
  OffboardingGap, Presence, presence, is_deactivated, enter, note_seat, note_users, note_all,
  is_gap, gap_of, gaps_of, gap_before, find_offboarding_gaps,
}

-- Whether a seat is of the person with an address.
unfoldable pub is_of : String → User → Bool
is_of email u = has_at (normal u.email) && normal u.email == email

-- The provider once for each seat there that is of a person and passes a test.
unfoldable pub seats_of : (User → Bool) → String → String × List User → List String
unfolding is_of
seats_of p email (provider, users) = map (λ u. provider) (keep (λ u. is_of email u && p u) users)

-- The providers at which a person has a deactivated seat.
unfoldable pub deactivated_at : String → Dict (List User) → List String
unfolding seats_of
deactivated_at email seats = flat_map (seats_of is_deactivated email) seats

-- The providers at which a person has a seat that is not deactivated.
unfoldable pub active_at : String → Dict (List User) → List String
unfolding seats_of
active_at email seats = flat_map (seats_of (λ u. not (is_deactivated u)) email) seats

presence-insert :
    (email other : String) (s : Presence) (m : Dict Presence)
    → presence email (insert other s m) ≡ (if other == email then s else presence email m)
unfolding presence
presence-insert email other s m = ground (arith, lookup-insert other email s m)

presence-note_seat :
    (email provider : String) (u : User) (m : Dict Presence)
    → presence email (note_seat provider u m)
      ≡ (if is_of email u then enter provider u (presence email m) else presence email m)
unfolding note_seat is_of
presence-note_seat email provider u m = elim (Bool-cases (has_at (normal u.email))) [
  | inr e ↦ rw (e) refl
  | inl e ↦ elim (Bool-cases (normal u.email == email)) [
    | inl same ↦
        let path : normal u.email ≡ email = (eq_iff _ _).0 same in
        rw
          (
            e,
            presence-insert email (normal u.email) (enter provider u (presence (normal u.email) m))
                m,
            same,
          )
          (ap (λ k. enter provider u (presence k m)) path)
    | inr other ↦
        rw
          (
            e,
            presence-insert email (normal u.email) (enter provider u (presence (normal u.email) m))
                m,
            other,
          )
          refl
  ]
]

-- What a provider's seats add to the entry of an address.
abbrev with_seats : String → String → List User → Presence → Presence
with_seats email provider us s = record {
  active = s.active ++ seats_of (λ u. not (is_deactivated u)) email (provider, us);
  deactivated = s.deactivated ++ seats_of is_deactivated email (provider, us);
}

with_seats-step :
    (email provider : String) (u : User) (us : List User) (s : Presence)
    → with_seats email provider us (if is_of email u then enter provider u s else s)
      ≡ with_seats email provider (u ∷ us) s
unfolding seats_of keep enter
with_seats-step email provider u us s = elim (Bool-cases (is_of email u)) [
  | inr e ↦ rw (e) refl
  | inl e ↦ elim (Bool-cases (is_deactivated u)) [
    | inl d ↦
        rw (e, d)
          (ap
            (λ x. record {
              active =
                  s.active
                  ++ map (λ u. provider) (keep (λ u. is_of email u && not (is_deactivated u)) us);
              deactivated = x;
            })
            (append_assoc s.deactivated (provider ∷ []) _))
    | inr d ↦
        rw (e, d)
          (ap
            (λ x. record {
              active = x;
              deactivated =
                  s.deactivated
                  ++ map (λ u. provider) (keep (λ u. is_of email u && is_deactivated u) us);
            })
            (append_assoc s.active (provider ∷ []) _))
  ]
]

presence-note_users :
    (email provider : String) (us : List User) (m : Dict Presence)
    → presence email (note_users provider us m) ≡ with_seats email provider us (presence email m)
unfolding note_users
presence-note_users email provider [] m = unfold seats_of keep in simp (append-nil)
presence-note_users email provider (u ∷ us) m =
    presence-note_users email provider us (note_seat provider u m)
    ∙ (ap (with_seats email provider us) (presence-note_seat email provider u m)
        ∙ with_seats-step email provider u us (presence email m))

presence-note_all :
    (email : String) (seats : Dict (List User)) (m : Dict Presence)
    → presence email (note_all seats m) ≡ record {
      active = (presence email m).active ++ active_at email seats;
      deactivated = (presence email m).deactivated ++ deactivated_at email seats;
    }
unfolding note_all active_at deactivated_at flat_map
presence-note_all email [] m = simp (append-nil)
presence-note_all email ((provider, users) ∷ seats) m =
    presence-note_all email seats (note_users provider users m)
    ∙ rw (presence-note_users email provider users m) (simp (append_assoc))

note_users-Unique :
    (provider : String) (us : List User) (m : Dict Presence)
    → Unique m
    → Unique (note_users provider us m)
unfolding note_users note_seat
note_users-Unique provider [] m h = h
note_users-Unique provider (u ∷ us) m h =
    note_users-Unique provider us (note_seat provider u m)
      (elim (Bool-cases (has_at (normal u.email))) [
        | inl e ↦ rw (e) (insert-Unique _ _ m h)
        | inr e ↦ rw (e) h
      ])

note_all-Unique :
    (seats : Dict (List User)) (m : Dict Presence) → Unique m → Unique (note_all seats m)
unfolding note_all
note_all-Unique [] m h = h
note_all-Unique ((provider, users) ∷ seats) m h =
    note_all-Unique seats (note_users provider users m) (note_users-Unique provider users m h)

any-gaps_of :
    (email : String) (m : Dict Presence)
    → Unique m
    → any (λ g. g.email == email) (gaps_of m) ≡ is_gap (presence email m)
unfolding any gaps_of gap_of presence lookup is_gap
any-gaps_of email [] h = refl
any-gaps_of email ((key, s) ∷ m) h = ground (arith, h.0, any-gaps_of email m h.1, eq_iff key email)

-- A gap names the providers of its entry.
abbrev Names : Dict Presence → OffboardingGap → Type 0
Names m g =
    (g.deactivated_in ≡ sort_strings (presence g.email m).deactivated)
    × (g.still_active_in ≡ sort_strings (presence g.email m).active)

gaps_of-Names :
    (m entries : Dict Presence)
    → All (λ e. lookup e.0 m ≡ some e.1) entries
    → All (Names m) (gaps_of entries)
unfolding gaps_of gap_of presence
gaps_of-Names m [] h = tt
gaps_of-Names m ((key, s) ∷ entries) h =
    let found : presence key m ≡ s = rw (h.0, presence) refl in
    elim (Bool-cases (is_gap s)) [
      | inl e ↦ rw (e) (
        (
          ap (λ x. sort_strings x.deactivated) (sym found),
          ap (λ x. sort_strings x.active) (sym found),
        ),
        gaps_of-Names m entries h.1,
      )
      | inr e ↦ rw (e) (gaps_of-Names m entries h.1)
    ]

Names-seats :
    (seats : Dict (List User)) (gaps : List OffboardingGap)
    → All (Names (note_all seats [])) gaps
    → All
        (λ g.
          (g.deactivated_in ≡ sort_strings (deactivated_at g.email seats))
          × (g.still_active_in ≡ sort_strings (active_at g.email seats)))
        gaps
unfolding presence lookup
Names-seats seats [] h = tt
Names-seats seats (g ∷ gaps) h =
    let found = presence-note_all g.email seats [] in
    (
      (
        h.0.0 ∙ ap (λ x. sort_strings x.deactivated) found,
        h.0.1 ∙ ap (λ x. sort_strings x.active) found,
      ),
      Names-seats seats gaps h.1,
    )

-- `FindOffboardingGaps` reports an address exactly when it has an `@` in it, some provider has a
-- deactivated seat with it, and some provider one that is not deactivated, both compared in lower
-- case and without space around. Each report lists the providers of the deactivated seats, once for
-- each seat, in order, and likewise those of the other seats.
pub find_offboarding_gaps-exact :
    (seats : Dict (List User))
    → ((email : String)
        → any (λ g. g.email == email) (find_offboarding_gaps seats)
          ≡ (ltb 0 (length (deactivated_at email seats)) && ltb 0 (length (active_at email seats))))
      × All
          (λ g.
            (g.deactivated_in ≡ sort_strings (deactivated_at g.email seats))
            × (g.still_active_in ≡ sort_strings (active_at g.email seats)))
          (find_offboarding_gaps seats)
unfolding find_offboarding_gaps presence lookup is_gap
find_offboarding_gaps-exact seats =
    let m = note_all seats [] in
    let unique = note_all-Unique seats [] tt in
    (
      λ email.
          any-sort_by gap_before (λ g. g.email == email) (gaps_of m)
          ∙ (any-gaps_of email m unique ∙ ap is_gap (presence-note_all email seats [])),
      Names-seats seats (find_offboarding_gaps seats) (
          All-sort_by gap_before (Names m) (gaps_of m)
            (gaps_of-Names m m (lookup-entries m unique))),
    )
