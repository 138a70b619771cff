-- ===== src/Offboarding/Complete.antt =====
-- What a complete certificate of `RunObserve` of internal/offboarding/offboarding.go says of the
-- providers.
use unseat.Base.{
  ◌↔◌, String, [], ◌∷◌, if◌then◌else◌, Bool, true, false, some, ◌==◌, ◌≡◌, refl, sym, arith, any,
  All, normal, ok, Bool-cases, Option-cases, inl, inr, ◌∙◌, ap, err-ne-ok, ok-injective,
}
use unseat.Base.Dict.{Dict, lookup}
use unseat.Base.Sorting.{any-sort_by}
use unseat.Core.Certificate.{
  OffboardingCertificate, complete, has_errors, refresh_certificate_decision_views,
}
use unseat.Core.Certificate.Laws.{is_open, refresh_complete, refresh-frame}
use unseat.Config.{Config}
use unseat.Offboarding.Inventory.{Connector, selected_providers}
use unseat.Offboarding.Report.{Outside}
use unseat.Offboarding.Observe.{
  Input, IdentityProvider, collected, sort_certificate, is_unmatched, run_observe,
}
use unseat.Offboarding.Laws.{
  read_fully, append-is-nil, sort_strings-nil, any-nil, any-is_open, parts-read, parts-decide,
  parts-Unapproved,
}

unsaid : (b : Bool) (text : String) → (if b then text ∷ [] else []) ≡ [] → b ≡ false
unsaid b text h = ground arith

-- What a run comes to where nothing that it needs is missing.
run_observe-ok :
    (out : Outside) (input : Input) (cfg : Config) (registry : Dict Connector)
    (identity : IdentityProvider) (cert : OffboardingCertificate)
    → input.config ≡ some cfg
    → input.registry ≡ some registry
    → input.identity ≡ some identity
    → run_observe out input ≡ ok cert
    → cert
      ≡ refresh_certificate_decision_views
          (sort_certificate (collected out input cfg registry identity (normal input.subject)))
unfolding run_observe
run_observe-ok out input cfg registry identity cert c r i h =
    elim (Bool-cases (normal input.subject == "")) [
      | inl e ↦ absurd (err-ne-ok (rw (run_observe, c, r, i, e) at h))
      | inr e ↦ elim (Option-cases identity.list_users.1) [
        | inr (why, l) ↦ absurd (err-ne-ok (rw (run_observe, c, r, i, e, l) at h))
        | inl l ↦ sym (ok-injective (rw (run_observe, c, r, i, e, l) at h))
      ]
    ]

-- A certificate of `RunObserve` that names nothing unknown and no error of a provider: every selected
-- provider is registered, and its users, its credentials and its billing were read without an error;
-- the person was found in the directory or at a provider; and the certificate is complete exactly if
-- no provider was selected.
pub run_observe-read :
    (out : Outside) (input : Input) (cfg : Config) (registry : Dict Connector)
    (identity : IdentityProvider) (cert : OffboardingCertificate)
    → input.config ≡ some cfg
    → input.registry ≡ some registry
    → input.identity ≡ some identity
    → run_observe out input ≡ ok cert
    → cert.unknowns ≡ []
    → any has_errors cert.providers ≡ false
    → All
        (λ name. (p : Connector) × (lookup name registry ≡ some p) × (read_fully p ≡ true))
        (selected_providers cfg input.providers)
      × (is_unmatched cert.subject.status ≡ false)
      × ((cert.status ≡ some complete) ↔ (selected_providers cfg input.providers ≡ []))
unfolding collected sort_certificate any
run_observe-read out input cfg registry identity cert c r i h nothing_unknown no_errors =
    let c0 = collected out input cfg registry identity (normal input.subject) in
    let c1 = sort_certificate c0 in
    let names = selected_providers cfg input.providers in
    let e = run_observe-ok out input cfg registry identity cert c r i h in
    let (same_decisions, same_subject, same_unknowns, same_providers) = refresh-frame c1 in
    let known : c1.unknowns ≡ [] =
      sym same_unknowns ∙ (sym (ap (λ x. x.unknowns) e) ∙ nothing_unknown) in
    let fine : any has_errors c1.providers ≡ false =
      ap (any has_errors) (sym same_providers)
      ∙ (sym (ap (λ x. any has_errors x.providers) e) ∙ no_errors) in
    let fine0 = sym (any-sort_by _ has_errors c0.providers) ∙ fine in
    let (found, parts_known) = append-is-nil _ _ (sort_strings-nil c0.unknowns known) in
    let decided = parts-decide out _ _ _ registry _ names parts_known fine0 in
    (
      parts-read out _ _ _ registry _ names parts_known fine0,
      ap (λ x. is_unmatched x.subject.status) e
          ∙ (ap (λ x. is_unmatched x.status) same_subject ∙ unsaid _ _ found),
      (
        λ done.
            let closed = ((refresh_complete c1).0 (sym (ap (λ x. x.status) e) ∙ done)).3 in
            let none_open = sym (any-sort_by _ is_open c0.decisions) ∙ closed in
            let none_made =
              any-is_open c0.decisions (parts-Unapproved out _ _ _ registry _ names) none_open in
            any-nil names (sym decided ∙ ap (any (λ d. true)) none_made),
        λ none_selected.
            let none_made = any-nil c0.decisions (decided ∙ ap (any (λ n. true)) none_selected) in
            let none_open = any-sort_by _ is_open c0.decisions ∙ ap (any is_open) none_made in
            ap (λ x. x.status) e ∙ (refresh_complete c1).1 (refl, known, fine, none_open),
      ),
    )
