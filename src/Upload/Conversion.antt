-- ===== src/Upload/Conversion.antt =====
-- The platform's conversion row from a ledger event: src/gateway/upload/conversion.py. A value
-- keeps its exact decimal, where the code rounds it to a float.
use conversion_gateway.Prelude.{
  if◌then◌else◌, is_some, ◌<>◌, is_blank, str_of, ℕ, zero, suc, ◌/◌, ◌%◌, String, Bool, ◌&&◌,
  Option, none, some, List, [], ◌∷◌, ◌++◌,
}
use conversion_gateway.Models.Payload.{
  CivilTime, AddressInfo, ConsentBlock, Conversion, UserIdentifier, hashed_email,
  hashed_phone_number, address_info,
}
use conversion_gateway.Models.Rows.{HashedIdentifiers, Event}
use conversion_gateway.Exec.{Exec, pure, or_raise, ◌>>=◌, assertion_error}

-- A number with zeros before it, to the given width.
unfoldable pub padded : ℕ → ℕ → String
padded zero n = ""
padded (suc width) n = padded width (n / 10) <> str_of (n % 10)

-- `when.replace(microsecond=0).isoformat(sep=" ")`, for an offset of whole minutes
unfoldable pub format_conversion_time : CivilTime → String
unfolding padded
format_conversion_time t =
    padded 4 t.year
    <> ("-"
        <> (padded 2 t.month
            <> ("-"
                <> (padded 2 t.day
                    <> (" "
                        <> (padded 2 t.hour
                            <> (":"
                                <> (padded 2 t.minute
                                    <> (":"
                                        <> (padded 2 t.second
                                            <> ((if t.west_of_utc then "-" else "+")
                                                <> (padded 2 (t.offset_minutes / 60)
                                                    <> (":"
                                                        <> padded 2
                                                            (t.offset_minutes % 60))))))))))))))

unfoldable pub conversion_action_resource : String → String → String
conversion_action_resource customer_id conversion_action =
    "customers/" <> (customer_id <> ("/conversionActions/" <> conversion_action))

-- A key that is set only where the value is present and not empty.
abbrev pub present : Option String → Option String
present none = none
present (some text) = if is_blank text then none else some text

abbrev pub as_identifier : (String → UserIdentifier) → Option String → List UserIdentifier
as_identifier f none = []
as_identifier f (some text) = f text ∷ []

abbrev pub address_of : HashedIdentifiers → AddressInfo
address_of h = record {
  hashed_first_name = present h.hashed_given_name;
  hashed_last_name = present h.hashed_family_name;
  hashed_street_address = present h.hashed_street_address;
  city = present h.city;
  state = present h.region;
  postal_code = present h.postal_code;
  country_code = present h.country;
}

abbrev pub is_full : AddressInfo → Bool
is_full a =
    is_some a.hashed_first_name
    && is_some a.hashed_last_name
    && is_some a.postal_code
    && is_some a.country_code

-- `_user_identifiers`; `none` is the empty dict of `hashed_identifiers or {}`
unfoldable pub user_identifiers : Option HashedIdentifiers → List UserIdentifier
user_identifiers none = []
user_identifiers (some h) =
    as_identifier hashed_email (present h.hashed_email)
    ++ (as_identifier hashed_phone_number (present h.hashed_phone)
        ++ (if is_full (address_of h) then address_info (address_of h) ∷ [] else []))

abbrev pub consent_block : Event → List UserIdentifier → Option ConsentBlock
consent_block event [] = none
consent_block event (i ∷ is) = some (record {
  ad_user_data = event.consent_ad_user_data;
  ad_personalization = event.consent_ad_personalization;
})

-- The row, where the two assertions hold.
unfoldable pub conversion_row : Event → String → String → CivilTime → Conversion
unfolding user_identifiers
conversion_row event customer_id action time = record {
  conversion_action = conversion_action_resource customer_id action;
  conversion_date_time = format_conversion_time time;
  order_id = event.event_id;
  conversion_value = event.conversion_value;
  currency_code = present event.currency;
  gclid = present event.click_id;
  user_identifiers = user_identifiers event.hashed_identifiers;
  consent = consent_block event (user_identifiers event.hashed_identifiers);
}

unfoldable pub build_conversion : Event → String → Exec Conversion
unfolding conversion_row
build_conversion event customer_id = do
  action ← or_raise event.conversion_action assertion_error
  time ← or_raise event.conversion_time assertion_error
  pure (conversion_row event customer_id action time)
