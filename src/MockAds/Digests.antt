-- ===== src/MockAds/Digests.antt =====
-- The digests of the identifiers that the gateway sends, as the mock reads them.
use conversion_gateway.Prelude.{
  if◌then◌else◌, Bool-cases, All, All-append, All-left, All-right, is_blank, String, Char, ◌≡◌,
  refl, sym, ap, ◌∙◌, inl, inr, Bool, true, false, Option, none, some, List, [], ◌∷◌, map, ◌==◌,
}
use conversion_gateway.Models.Payload.{
  AddressInfo, UserIdentifier, hashed_email, hashed_phone_number, address_info,
}
use conversion_gateway.Models.Rows.{HashedIdentifiers}
use conversion_gateway.Exec.{ok}
use conversion_gateway.Upload.Json.{lookup, Json, text, Fields, end}
use conversion_gateway.Upload.Wire.{text_field, identifier_json}
use conversion_gateway.Upload.Conversion.{
  present, as_identifier, address_of, is_full, user_identifiers,
}
use conversion_gateway.MockAds.Validation.{address_keys, is_bad_identifier, has_bad_identifier}
use conversion_gateway.MockAds.Rows.{lookup-text_field, digest_of, digests, IsHex64}
use conversion_gateway.MockAds.Judged.{
  has_bad_digest-none, address_json-address, email-digest, phone-digest,
}

-- A digest that is there has 64 characters of hex.
abbrev MaybeHex64 : Option String → Type 0
MaybeHex64 none = Unit
MaybeHex64 (some digest) = IsHex64 digest

abbrev pub HasDigests : Option HashedIdentifiers → Type 0
HasDigests none = Unit
HasDigests (some h) =
    MaybeHex64 h.hashed_email
    × MaybeHex64 h.hashed_phone
    × MaybeHex64 h.hashed_given_name
    × MaybeHex64 h.hashed_family_name
    × MaybeHex64 h.hashed_street_address

MaybeHex64-present : (digest : Option String) → MaybeHex64 digest → MaybeHex64 (present digest)
MaybeHex64-present none h = tt
MaybeHex64-present (some digest) h = elim (Bool-cases (is_blank digest)) [
  | inl blank ↦ rw blank tt
  | inr filled ↦ rw filled h
]

abbrev pub HexDigests : UserIdentifier → Type 0
HexDigests i = All IsHex64 (digests i)

digest_of-hex : (digest : Option String) → MaybeHex64 digest → All IsHex64 (digest_of digest)
digest_of-hex none h = tt
digest_of-hex (some digest) h = (h, tt)

as_identifier-hex :
    (f : String → UserIdentifier) (digest : Option String)
    → ((d : String) → IsHex64 d → HexDigests (f d))
    → MaybeHex64 digest
    → All HexDigests (as_identifier f digest)
as_identifier-hex f none hex h = tt
as_identifier-hex f (some digest) hex h = (hex digest h, tt)

address-hex :
    (h : HashedIdentifiers) → HasDigests (some h) → HexDigests (address_info (address_of h))
address-hex h (_, _, given, family, street) =
    All-append IsHex64 _ _ (digest_of-hex _ (MaybeHex64-present h.hashed_given_name given)) (
      All-append IsHex64 _ _ (digest_of-hex _ (MaybeHex64-present h.hashed_family_name family))
        (digest_of-hex _ (MaybeHex64-present h.hashed_street_address street)))

pub user_identifiers-hex :
    (hashed : Option HashedIdentifiers)
    → HasDigests hashed
    → All HexDigests (user_identifiers hashed)
unfolding user_identifiers
user_identifiers-hex none h = tt
user_identifiers-hex (some h) hex =
    All-append HexDigests _ _
      (as_identifier-hex hashed_email _ (λ d good. (good, tt))
        (MaybeHex64-present h.hashed_email hex.0))
      (All-append HexDigests _ _
        (as_identifier-hex hashed_phone_number _ (λ d good. (good, tt))
          (MaybeHex64-present h.hashed_phone hex.1))
        (elim (Bool-cases (is_full (address_of h))) [
          | inl full ↦ rw full (address-hex h hex, tt)
          | inr partial ↦ rw partial tt
        ]))

-- The value of a digest's key in the address.
abbrev IsDigestAt : Fields → String → Type 0
IsDigestAt fields key =
    (v : Json) → lookup key fields ≡ some v → (d : String) × (v ≡ text d) × IsHex64 d

own_digest :
    (key : String) (digest : Option String) (rest : Fields)
    → (key == key) ≡ true
    → lookup key rest ≡ none
    → All IsHex64 (digest_of digest)
    → IsDigestAt (text_field key digest rest) key
unfolding lookup
own_digest key none rest same absent good v found = cc
own_digest key (some digest) rest same absent (good, _) v found = (
  digest,
  same_value (ap (λ b. if b then some (text digest) else lookup key rest) (sym same) ∙ found),
  good,
)
  where
    same_value : {a b : Json} → some a ≡ some b → b ≡ a
    same_value h = cc

skipped_digest :
    (key k : String) (value : Option String) (rest : Fields)
    → (k == key) ≡ false
    → IsDigestAt rest key
    → IsDigestAt (text_field k value rest) key
skipped_digest key k value rest differs digest v found =
    digest v (sym (lookup-text_field key k differs rest value) ∙ found)

module _ (a : AddressInfo) where
  abbrev plain_fields : Fields
  plain_fields = text_field "city" a.city (
      text_field "state" a.state
        (text_field "postalCode" a.postal_code (text_field "countryCode" a.country_code end)))

  plain-absent :
      (key : String)
      → ("city" == key) ≡ false
      → ("state" == key) ≡ false
      → ("postalCode" == key) ≡ false
      → ("countryCode" == key) ≡ false
      → lookup key plain_fields ≡ none
  unfolding lookup
  plain-absent key city state postal country =
      lookup-text_field key "city" city _ a.city
      ∙ lookup-text_field key "state" state _ a.state
      ∙ lookup-text_field key "postalCode" postal _ a.postal_code
      ∙ lookup-text_field key "countryCode" country _ a.country_code

  abbrev from_street : Fields
  from_street = text_field "hashedStreetAddress" a.hashed_street_address plain_fields

  abbrev from_last : Fields
  from_last = text_field "hashedLastName" a.hashed_last_name from_street

  address-digests :
      All IsHex64 (digests (address_info a))
      → All (IsDigestAt (text_field "hashedFirstName" a.hashed_first_name from_last)) address_keys
  address-digests good =
      let firsts = digest_of a.hashed_first_name in
      let lasts = digest_of a.hashed_last_name in
      let others = All-right IsHex64 firsts _ good in
      let street : String = "hashedStreetAddress" in
      (
        own_digest "hashedFirstName" a.hashed_first_name from_last refl
            (lookup-text_field "hashedFirstName" "hashedLastName" refl _ a.hashed_last_name
              ∙ lookup-text_field "hashedFirstName" street refl _ a.hashed_street_address
              ∙ plain-absent "hashedFirstName" refl refl refl refl)
            (All-left IsHex64 firsts _ good),
        (
          skipped_digest "hashedLastName" "hashedFirstName" a.hashed_first_name from_last refl (
              own_digest "hashedLastName" a.hashed_last_name from_street refl
                (lookup-text_field "hashedLastName" street refl _ a.hashed_street_address
                  ∙ plain-absent "hashedLastName" refl refl refl refl)
                (All-left IsHex64 lasts _ others)),
          (
            skipped_digest street "hashedFirstName" a.hashed_first_name from_last refl (
                skipped_digest street "hashedLastName" a.hashed_last_name from_street refl (
                  own_digest street a.hashed_street_address plain_fields refl
                    (plain-absent street refl refl refl refl) (All-right IsHex64 lasts _ others))),
            tt,
          ),
        ),
      )

module _ (is_decimal : Char → Bool) (str_of_json : Json → String) where
  identifier-accepted :
      (i : UserIdentifier)
      → HexDigests i
      → is_bad_identifier is_decimal str_of_json (identifier_json i) ≡ ok false
  identifier-accepted (hashed_email digest) (good, _) =
      email-digest is_decimal str_of_json digest true good
  identifier-accepted (hashed_phone_number digest) (good, _) =
      phone-digest is_decimal str_of_json digest true good
  identifier-accepted (address_info a) good =
      address_json-address is_decimal str_of_json a
      ∙ has_bad_digest-none is_decimal str_of_json _ address_keys (address-digests a good)

  pub identifiers-accepted :
      (is : List UserIdentifier)
      → All HexDigests is
      → has_bad_identifier is_decimal str_of_json (map identifier_json is) ≡ ok false
  unfolding has_bad_identifier
  identifiers-accepted [] good = refl
  identifiers-accepted (i ∷ is) (first, rest) =
      rw (identifier-accepted i first, identifiers-accepted is rest) refl
