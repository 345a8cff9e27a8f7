-- ===== src/Examples/LogLines.antt =====
-- Log redaction at work.
use conversion_gateway.Prelude.{leb, nat_eq, code, ◌≡◌, refl, true, ◌&&◌}
use conversion_gateway.Observability.Redaction.{key_is_sensitive, scrub_string, hides, LogLibs}

abbrev ascii_libs : LogLibs
ascii_libs = record {
  lower = λ t. t;
  is_decimal = λ c. leb 48 (code c) && leb (code c) 57;
  is_space = λ c. nat_eq (code c) 32;
}

scrubs_email : scrub_string ascii_libs "to ann.b@mail.example.com now" ≡ "to [REDACTED] now"
unfolding scrub_string
scrubs_email = refl

scrubs_phone : scrub_string ascii_libs "call +1 (415) 555-0142." ≡ "call [REDACTED]."
unfolding scrub_string
scrubs_phone = refl

keeps_digest : scrub_string ascii_libs "a1234567890 12" ≡ "a1234567890 12"
unfolding scrub_string
keeps_digest = refl

hides_email : hides ascii_libs "contact_email" ≡ true
unfolding key_is_sensitive
hides_email = refl
