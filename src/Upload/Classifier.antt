-- ===== src/Upload/Classifier.antt =====
-- Error classification: src/gateway/upload/classifier.py.
use conversion_gateway.Prelude.{
  nat_eq, if◌then◌else◌, ℕ, String, Bool, true, false, ◌||◌, List, [], ◌∷◌,
}
use conversion_gateway.Normalise.Strings.{text_in}

pub data FailureClass : Type 0 where
  transient partial permanent poison : FailureClass

abbrev pub failure_class_value : FailureClass → String
failure_class_value transient = "transient"
failure_class_value partial = "partial"
failure_class_value permanent = "permanent"
failure_class_value poison = "poison"

abbrev transient_statuses : List ℕ
transient_statuses = 408 ∷ 429 ∷ 500 ∷ 502 ∷ 503 ∷ 504 ∷ []

nat_in : ℕ → List ℕ → Bool
nat_in n [] = false
nat_in n (m ∷ ms) = nat_eq n m || nat_in n ms

unfoldable pub classify_http_status : ℕ → FailureClass
unfolding nat_in
classify_http_status status_code =
    if nat_in status_code transient_statuses then transient else permanent

abbrev retryable_row_errors : List String
retryable_row_errors = "TOO_RECENT_CONVERSION" ∷ []

unfoldable pub classify_row_error : String → FailureClass
unfolding text_in
classify_row_error error_code =
    if text_in error_code retryable_row_errors then transient else permanent

-- `failure_class is FailureClass.TRANSIENT`
abbrev pub is_transient : FailureClass → Bool
is_transient transient = true
is_transient _ = false
