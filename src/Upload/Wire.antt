-- ===== src/Upload/Wire.antt =====
-- The conversion row as the JSON that the client sends: the dict of src/gateway/upload/conversion.py
-- and the body of `HttpUploadClient.upload`.
use conversion_gateway.Prelude.{
  nat_eq, String, ◌≡◌, refl, ap, true, not, Option, none, some, List, [], ◌∷◌, map,
}
use conversion_gateway.Models.Payload.{
  Decimal, AddressInfo, ConsentBlock, Conversion, UserIdentifier, hashed_email, hashed_phone_number,
  address_info,
}
use conversion_gateway.Upload.Json.{
  elements, Json, null, boolean, float, text, array, object, Items, nil, item, Fields, end, field,
}

-- A key that is set where the value is present.
abbrev pub text_field : String → Option String → Fields → Fields
text_field key none rest = rest
text_field key (some value) rest = field key (text value) rest

-- A column's value: None is null.
abbrev pub or_null : Option String → Json
or_null none = null
or_null (some value) = text value

abbrev pub address_json : AddressInfo → Json
address_json a = object (
    text_field "hashedFirstName" a.hashed_first_name (
      text_field "hashedLastName" a.hashed_last_name (
        text_field "hashedStreetAddress" a.hashed_street_address (
          text_field "city" a.city (
            text_field "state" a.state (
              text_field "postalCode" a.postal_code
                (text_field "countryCode" a.country_code end)))))))

abbrev pub identifier_json : UserIdentifier → Json
identifier_json (hashed_email digest) = object (field "hashedEmail" (text digest) end)
identifier_json (hashed_phone_number digest) = object (field "hashedPhoneNumber" (text digest) end)
identifier_json (address_info a) = object (field "addressInfo" (address_json a) end)

unfoldable pub items_of : List Json → Items
items_of [] = nil
items_of (j ∷ js) = item j (items_of js)

abbrev pub identifiers_json : List UserIdentifier → Json
identifiers_json is = array (items_of (map identifier_json is))

abbrev pub consent_json : ConsentBlock → Json
consent_json c = object (
    field "adUserData" (or_null c.ad_user_data)
      (field "adPersonalization" (or_null c.ad_personalization) end))

abbrev pub value_field : Option Decimal → Fields → Fields
value_field none rest = rest
value_field (some d) rest = field "conversionValue" (float (not (nat_eq d.micros 0))) rest

-- `if identifiers: …`, with the consent block that goes with them
abbrev pub identifier_fields : List UserIdentifier → Option ConsentBlock → Fields
identifier_fields [] consent = end
identifier_fields (i ∷ is) none = field "userIdentifiers" (identifiers_json (i ∷ is)) end
identifier_fields (i ∷ is) (some c) =
    field "userIdentifiers" (identifiers_json (i ∷ is)) (field "consent" (consent_json c) end)

-- The dict that `build_conversion` returns.
unfoldable pub row_json : Conversion → Json
unfolding items_of
row_json c = object (
    field "conversionAction" (text c.conversion_action) (
      field "conversionDateTime" (text c.conversion_date_time) (
        field "orderId" (text c.order_id) (
          value_field c.conversion_value (
            text_field "currencyCode" c.currency_code
              (text_field "gclid" c.gclid (identifier_fields c.user_identifiers c.consent)))))))

-- `{"conversions": conversions, "partialFailure": True}`
unfoldable pub request_json : List Conversion → Json
unfolding row_json items_of
request_json conversions = object (
    field "conversions" (array (items_of (map row_json conversions)))
      (field "partialFailure" (boolean true) end))

pub elements-items_of : (js : List Json) → elements (items_of js) ≡ js
unfolding elements items_of
elements-items_of [] = refl
elements-items_of (j ∷ js) = ap (◌∷◌ j) (elements-items_of js)
