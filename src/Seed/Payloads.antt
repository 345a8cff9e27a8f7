-- ===== src/Seed/Payloads.antt =====
-- The seven posts of a demo run: `_salesforce`, `_hubspot` and the mix of `seed` in
-- src/gateway/seed.py.
use conversion_gateway.Prelude.{
  if◌then◌else◌, ◌<>◌, ℕ, ◌+◌, ◌*◌, String, Bool, true, false, Option, none, some, List, [], ◌∷◌,
  ◌==◌,
}
use conversion_gateway.Upload.Json.{Json, integer, float, text, object, Fields, end, field}
use conversion_gateway.Api.Signature.{Bytes}

-- What is posted, and what is expected of it.
pub record Planned : Type 0 where
  pub label : String
  pub source : String
  pub payload : Json
  pub bad_sig : Bool
  pub expected : Option String

-- `d.update({key: value})`
unfoldable pub updated : String → Json → Fields → Fields
updated key value end = field key value end
updated key value (field k v rest) =
    let later = updated key value rest in if k == key then field k value rest else field k v later

-- The keyword arguments, one after the other.
unfoldable updated_all : List (String × Json) → Fields → Fields
unfolding updated
updated_all [] fields = fields
updated_all ((key, value) ∷ more) fields = updated_all more (updated key value fields)

unfoldable salesforce_payload : String → String → List (String × Json) → Json
unfolding updated_all
salesforce_payload event_id action lead = object (
    field "EventId" (text event_id) (
      field "EventTime" (text "2026-09-22T09:30:00Z") (
        field "Conversion_Action__c" (text action) (
          field "Amount" (float true) (
            field "CurrencyIsoCode" (text "USD") (
              field "Lead"
                (object (
                  updated_all lead (
                    field "Id" (text "00Q5e00000DEMO1") (
                      field "Email" (text "Priya.Natarajan+demo@Gmail.com") (
                        field "Phone" (text "(415) 555-0142") (
                          field "FirstName" (text "Priya") (
                            field "LastName" (text "Natarajan") (
                              field "Street" (text "500 Howard St., Suite 850") (
                                field "City" (text "San Francisco") (
                                  field "StateCode" (text "CA") (
                                    field "PostalCode" (text "94105") (
                                      field "CountryCode" (text "US") (
                                        field "GCLID__c" (text "Cj0KCQjw-demo-click-id") (
                                          field "Consent_Ad_User_Data__c" (text "GRANTED") (
                                            field "Consent_Ad_Personalization__c" (text "GRANTED")
                                              end)))))))))))))))
                end))))))

unfoldable hubspot_payload : ℕ → List (String × Json) → Json
unfolding updated_all
hubspot_payload event_id props = object (
    field "eventId" (integer event_id) (
      field "objectId" (integer 7701) (
        field "occurredAt" (integer 1790069400000) (
          field "conversionAction" (text "qualified_lead") (
            field "properties"
              (object (
                updated_all props (
                  field "email" (text "tom.okafor@outlook.com") (
                    field "phone" (text "+44 20 7946 0958") (
                      field "firstname" (text "Tom") (
                        field "lastname" (text "Okafor") (
                          field "address" (text "14 Rue de l'Église") (
                            field "city" (text "Lyon") (
                              field "state" (text "ARA") (
                                field "zip" (text "69001") (
                                  field "country" (text "FR") (
                                    field "amount" (text "950.00") (
                                      field "deal_currency_code" (text "EUR") (
                                        field "ad_user_data_consent" (text "GRANTED") (
                                          field "ad_personalization_consent" (text "GRANTED")
                                            end)))))))))))))))
              end)))))

-- `int.from_bytes(…, "big")`, from what is read so far
unfoldable pub from_bytes : ℕ → Bytes → ℕ
from_bytes read [] = read
from_bytes read (b ∷ rest) = from_bytes (read * 256 + b) rest

-- The seven posts of a run.
unfoldable pub mix : String → ℕ → List Planned
unfolding salesforce_payload hubspot_payload
mix run_id hs_base =
    let first = salesforce_payload ("seed-" <> (run_id <> "-1")) "closed_won" [] in
    record {
      label = "1 salesforce, click id + identifiers";
      source = "salesforce";
      payload = first;
      bad_sig = false;
      expected = some "UPLOADED";
    }
    ∷ record {
      label = "2 hubspot, identifiers only";
      source = "hubspot";
      payload = hubspot_payload (hs_base + 2) [];
      bad_sig = false;
      expected = some "UPLOADED";
    }
    ∷ record {
      label = "3 salesforce, consent denied";
      source = "salesforce";
      payload =
          salesforce_payload ("seed-" <> (run_id <> "-3")) "closed_won"
            (("Consent_Ad_User_Data__c", text "DENIED") ∷ []);
      bad_sig = false;
      expected = some "SUPPRESSED";
    }
    ∷ record {
      label = "4 hubspot, unparseable phone";
      source = "hubspot";
      payload = hubspot_payload (hs_base + 4) (("phone", text "call me maybe") ∷ []);
      bad_sig = false;
      expected = some "REJECTED";
    }
    ∷ record {
      label = "5 salesforce, unknown conversion action";
      source = "salesforce";
      payload = salesforce_payload ("seed-" <> (run_id <> "-5")) "contract_renewal" [];
      bad_sig = false;
      expected = some "DEAD_LETTERED";
    }
    ∷ record {
      label = "6 event 1 delivered again";
      source = "salesforce";
      payload = first;
      bad_sig = false;
      expected = none;
    }
    ∷ record {
      label = "7 event 1, bad signature";
      source = "salesforce";
      payload = first;
      bad_sig = true;
      expected = none;
    }
    ∷ []
