-- ===== src/MockAds/Injection.antt =====
-- What the mock is told to inject: `Control`, `State` and the endpoints that set them in
-- mock_ads_api/app.py. How long the mock sleeps is left out.
use conversion_gateway.Prelude.{
  nat_eq, if◌then◌else◌, length, ℕ, ◌-◌, String, Bool, true, false, ◌||◌, Option, none, some, List,
  [], ◌∷◌,
}
use conversion_gateway.Api.Signature.{Integer}
use conversion_gateway.Upload.Json.{Json}

pub data Mode : Type 0 where
  ok_mode http_401 http_429 http_500 http_503 timeout_mode malformed_mode : Mode

pub record RowFailure : Type 0 where
  pub index : ℕ
  pub error_code : String

pub record Control : Type 0 where
  pub mode : Mode
  pub fail_rows : List RowFailure
  pub times : Option Integer

-- `Control()`
abbrev pub plain_control : Control
plain_control = record { mode = ok_mode; fail_rows = []; times = none }

pub record State : Type 0 where
  pub known_actions : List String
  pub control : Control
  pub uploads : List Json
  pub request_count : ℕ

abbrev is_spent : Integer → Bool
is_spent n = n.below_zero || nat_eq n.magnitude 0

abbrev limited : State → Option Integer → Control × State
limited s none = (s.control, s)
limited s (some n) = if is_spent n then (plain_control, record s { control = plain_control }) else (
  s.control,
  record s {
    control = record s.control {
      times = some (record { below_zero = false; magnitude = n.magnitude - 1 });
    };
  },
)

-- `State.take_control`
unfoldable pub take_control : State → Control × State
take_control s = limited s s.control.times

abbrev pub http_code : Mode → Option ℕ
http_code http_401 = some 401
http_code http_429 = some 429
http_code http_500 = some 500
http_code http_503 = some 503
http_code _ = none

abbrev pub is_malformed : Mode → Bool
is_malformed malformed_mode = true
is_malformed _ = false

-- `injected.get(index)`: the last entry for an index stays.
unfoldable pub injected_code : List RowFailure → ℕ → Option String
injected_code [] index = none
injected_code (f ∷ fs) index = elim (injected_code fs index) [
  | some found ↦ some found
  | none ↦ if nat_eq f.index index then some f.error_code else none
]

abbrev get_control : State → Control
get_control s = s.control

abbrev set_control : Control → State → State
set_control control s = record s { control = control }

abbrev reset_control : State → State
reset_control s = record s { control = plain_control }

-- `count`, `uploads` and `requests`
abbrev list_uploads : State → ℕ × (List Json × ℕ)
list_uploads s = (length s.uploads, (s.uploads, s.request_count))

abbrev clear_uploads : State → State
clear_uploads s = record s { uploads = []; request_count = 0 }
