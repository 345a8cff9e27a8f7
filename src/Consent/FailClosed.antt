-- ===== src/Consent/FailClosed.antt =====
-- What `evaluate_consent` of src/gateway/consent/gate.py decides, by its two signals.
use conversion_gateway.Prelude.{
  Bool-cases, ◌≡◌, refl, ◌⊎◌, inl, inr, ◌↔◌, true, false, Option, none, some, arith,
}
use conversion_gateway.Consent.{
  evaluate_consent, ConsentSignals, ConsentStatus, granted, denied, unspecified, SuppressionReason,
  ad_user_data_denied, ad_user_data_unspecified, ad_user_data_missing, ad_personalization_denied,
  ad_personalization_unspecified, ad_personalization_missing,
}

-- What blocks at one signal, as the design's table has it.
abbrev pub AdUserDataBlocks : Option ConsentStatus → SuppressionReason → Type 0
AdUserDataBlocks none r = r ≡ ad_user_data_missing
AdUserDataBlocks (some granted) r = ⊥
AdUserDataBlocks (some denied) r = r ≡ ad_user_data_denied
AdUserDataBlocks (some unspecified) r = r ≡ ad_user_data_unspecified

abbrev pub AdPersonalizationBlocks : Option ConsentStatus → SuppressionReason → Type 0
AdPersonalizationBlocks none r = r ≡ ad_personalization_missing
AdPersonalizationBlocks (some granted) r = ⊥
AdPersonalizationBlocks (some denied) r = r ≡ ad_personalization_denied
AdPersonalizationBlocks (some unspecified) r = r ≡ ad_personalization_unspecified

-- An upload is permitted exactly when both signals are GRANTED.
pub permitted_iff :
    (signals : ConsentSignals)
    → ((evaluate_consent signals).permitted ≡ true)
      ↔ ((signals.ad_user_data ≡ some granted) × (signals.ad_personalization ≡ some granted))
unfolding evaluate_consent
permitted_iff signals = ground arith

-- The statement of `refused_reason`, at two signals.
abbrev RefusedBy : Option ConsentStatus → Option ConsentStatus → SuppressionReason → Type 0
RefusedBy a p reason =
    AdUserDataBlocks a reason ⊎ ((a ≡ some granted) × AdPersonalizationBlocks p reason)

refused_by :
    (a p : Option ConsentStatus)
    → (evaluate_consent (record { ad_user_data = a; ad_personalization = p })).permitted ≡ false
    → (reason : SuppressionReason) × ((evaluate_consent
          (record { ad_user_data = a; ad_personalization = p })).reason
        ≡ some reason)
      × RefusedBy a p reason
unfolding evaluate_consent
refused_by none p h = (ad_user_data_missing, refl, inl refl)
refused_by (some denied) p h = (ad_user_data_denied, refl, inl refl)
refused_by (some unspecified) p h = (ad_user_data_unspecified, refl, inl refl)
refused_by (some granted) none h = (ad_personalization_missing, refl, inr (refl, refl))
refused_by (some granted) (some denied) h = (ad_personalization_denied, refl, inr (refl, refl))
refused_by (some granted) (some unspecified) h =
    (ad_personalization_unspecified, refl, inr (refl, refl))
refused_by (some granted) (some granted) h = cc

-- A refusal has exactly one reason: that of the first signal in the order ad_user_data,
-- ad_personalization that is not GRANTED.
pub refused_reason :
    (signals : ConsentSignals)
    → (evaluate_consent signals).permitted ≡ false
    → (reason : SuppressionReason) × ((evaluate_consent signals).reason ≡ some reason)
      × (AdUserDataBlocks signals.ad_user_data reason
          ⊎ ((signals.ad_user_data ≡ some granted)
              × AdPersonalizationBlocks signals.ad_personalization reason))
refused_reason signals h = refused_by signals.ad_user_data signals.ad_personalization h

-- An upload is permitted, with both signals GRANTED; or it is refused, and the reason given is that of
-- the first signal in the order ad_user_data, ad_personalization that is not GRANTED.
pub evaluate_consent-decides :
    (signals : ConsentSignals)
    → (((evaluate_consent signals).permitted ≡ true)
        × (signals.ad_user_data ≡ some granted)
        × (signals.ad_personalization ≡ some granted))
      ⊎ (((evaluate_consent signals).permitted ≡ false)
          × ((reason : SuppressionReason) × ((evaluate_consent signals).reason ≡ some reason)
              × (AdUserDataBlocks signals.ad_user_data reason
                  ⊎ ((signals.ad_user_data ≡ some granted)
                      × AdPersonalizationBlocks signals.ad_personalization reason))))
evaluate_consent-decides signals = elim (Bool-cases (evaluate_consent signals).permitted) [
  | inl permitted ↦
      let (use_fine, personal_fine) = (permitted_iff signals).0 permitted in
      inl (permitted, use_fine, personal_fine)
  | inr blocked ↦ inr (blocked, refused_reason signals blocked)
]
