-- ===== src/Normalise/MatchKey.antt =====
-- When the identifiers that src/gateway/normalise/identifiers.py builds have a match key.
use conversion_gateway.Prelude.{
  Bool-cases, select, truthy, String, ◌≡◌, refl, sym, ap, ◌∙◌, inl, inr, Bool, true, false, ◌&&◌,
  not, Option, List, [], ◌∷◌, ◌++◌, arith,
}
use conversion_gateway.Models.Message.{RawIdentifiers}
use conversion_gateway.Normalise.Libs.{Libs}
use conversion_gateway.Normalise.Fields.{no_match_key}
use conversion_gateway.Normalise.Identifiers.{
  has_match_key, field_rejections, outcomes_of, build_user_identifiers, FieldRejection,
}
use conversion_gateway.Processor.{is_no_match_key, counted_rejections}

select-last-nil :
    (p : FieldRejection → Bool) (xs : List FieldRejection) (y : FieldRejection)
    → select p (xs ++ y ∷ []) ≡ []
    → p y ≡ false
select-last-nil p [] y h = ground arith
select-last-nil p (x ∷ xs) y h = ground (arith, select-last-nil p xs y)

abbrev no_key : FieldRejection
no_key = record { field = "identifiers"; reason = no_match_key }

unmatched-rejections :
    (libs : Libs) (raw : RawIdentifiers)
    → has_match_key (build_user_identifiers libs raw).identifiers ≡ false
    → (build_user_identifiers libs raw).rejections
      ≡ field_rejections (outcomes_of libs raw) ++ no_key ∷ []
unfolding build_user_identifiers
unmatched-rejections libs raw unmatched = rw unmatched refl

-- Identifiers that leave no counted rejection, of an event without a click id, have a match key: an
-- email, a phone or a full name with its postal code and country.
pub counted_rejections-has_match_key :
    (libs : Libs) (raw : RawIdentifiers) (click_id : Option String)
    → truthy click_id ≡ false
    → counted_rejections click_id (build_user_identifiers libs raw).rejections ≡ []
    → has_match_key (build_user_identifiers libs raw).identifiers ≡ true
counted_rejections-has_match_key libs raw click_id none_given clean =
    elim (Bool-cases (has_match_key (build_user_identifiers libs raw).identifiers)) [
      | inl matched ↦ matched
      | inr unmatched ↦
          let counts = λ (r : FieldRejection). not (truthy click_id && is_no_match_key r.reason) in
          let left_out =
            select-last-nil counts (field_rejections (outcomes_of libs raw)) no_key
              (ap (select counts) (sym (unmatched-rejections libs raw unmatched)) ∙ clean) in
          ground arith
    ]
