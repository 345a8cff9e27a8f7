-- ===== src/Models/Status.antt =====
-- The lifecycle of an event: src/gateway/models/status.py.
use conversion_gateway.Prelude.{
  ℕ, ◌≡◌, refl, Bool, true, false, ◌||◌, List, [], ◌∷◌, String, nat_eq, arith,
}

pub data EventStatus : Type 0 where
  received validated rejected queued suppressed processed uploading uploaded failed_retryable
        dead_lettered :
      EventStatus

abbrev rank : EventStatus → ℕ
rank received = 0
rank validated = 1
rank rejected = 2
rank queued = 3
rank suppressed = 4
rank processed = 5
rank uploading = 6
rank uploaded = 7
rank failed_retryable = 8
rank dead_lettered = 9

-- Equality of two members of the enum.
abbrev pub status_eq : EventStatus → EventStatus → Bool
status_eq s t = nat_eq (rank s) (rank t)

-- The member's `.value`.
abbrev pub status_value : EventStatus → String
status_value received = "RECEIVED"
status_value validated = "VALIDATED"
status_value rejected = "REJECTED"
status_value queued = "QUEUED"
status_value suppressed = "SUPPRESSED"
status_value processed = "PROCESSED"
status_value uploading = "UPLOADING"
status_value uploaded = "UPLOADED"
status_value failed_retryable = "FAILED_RETRYABLE"
status_value dead_lettered = "DEAD_LETTERED"

-- `status in statuses`
abbrev pub status_in : EventStatus → List EventStatus → Bool
status_in s [] = false
status_in s (t ∷ ts) = status_eq s t || status_in s ts

-- `ALLOWED_TRANSITIONS[status]`
abbrev pub allowed_transitions : EventStatus → List EventStatus
allowed_transitions received = validated ∷ rejected ∷ []
allowed_transitions validated = queued ∷ []
allowed_transitions queued = processed ∷ suppressed ∷ rejected ∷ []
allowed_transitions suppressed = queued ∷ []
allowed_transitions processed = uploading ∷ []
allowed_transitions uploading = uploaded ∷ failed_retryable ∷ dead_lettered ∷ []
allowed_transitions failed_retryable = uploading ∷ dead_lettered ∷ []
allowed_transitions dead_lettered = queued ∷ []
allowed_transitions uploaded = []
allowed_transitions rejected = []

pub data Source : Type 0 where
  salesforce hubspot : Source

abbrev pub source_value : Source → String
source_value salesforce = "salesforce"
source_value hubspot = "hubspot"

pub data MatchKeyType : Type 0 where
  click_id user_identifiers : MatchKeyType

abbrev pub match_key_type_value : MatchKeyType → String
match_key_type_value click_id = "click_id"
match_key_type_value user_identifiers = "user_identifiers"

pub status_eq_refl : (s : EventStatus) → status_eq s s ≡ true
status_eq_refl received = refl
status_eq_refl _ = refl

pub eq_of_status_eq : (s t : EventStatus) → status_eq s t ≡ true → s ≡ t
eq_of_status_eq received t h = ground arith
eq_of_status_eq _ t h = ground arith
