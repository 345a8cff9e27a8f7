-- ===== src/MockAds/Uploaded.antt =====
-- One call of `upload_batch` (src/gateway/upload/uploader.py) with the mock in its plain control.
use conversion_gateway.Models.Status
use conversion_gateway.Prelude.{
  length, All, All-map, ℕ, ◌+◌, String, Char, ◌≡◌, refl, sym, ap, ◌∙◌, Bool, Option, none, some,
  List, [], ◌∷◌, map, arith,
}
use conversion_gateway.Models.Payload.{CivilTime}
use conversion_gateway.Models.Rows.{Event}
use conversion_gateway.Models.Status.{uploading}
use conversion_gateway.Exec.{World, ok}
use conversion_gateway.Exec.Returns.{ok-injective}
use conversion_gateway.Ledger.{find_event}
use conversion_gateway.Ledger.Trail.{moved}
use conversion_gateway.Upload.Json.{Json}
use conversion_gateway.Upload.Wire.{row_json}
use conversion_gateway.Upload.Client.{BatchResult}
use conversion_gateway.Upload.Conversion.{build_conversion}
use conversion_gateway.Upload.Backoff.{Tenacity}
use conversion_gateway.Upload.Uploader.{Claimed, CycleReport, Settings, upload_batch}
use conversion_gateway.MockAds.Validation.{validate_row}
use conversion_gateway.MockAds.Server.{judged}
use conversion_gateway.MockAds.Answers.{accepted, JudgedRows}
use conversion_gateway.MockAds.Formats.{KnowsDigits}
use conversion_gateway.MockAds.Digests.{HasDigests}
use conversion_gateway.MockAds.Accepts.{IsMatchable, Addresses, build_conversion-validate_row}
use conversion_gateway.MockAds.Delivered.{mock_client, conversions_of, upload_batch-judged}
use conversion_gateway.Upload.Uploader.Settled.{IsUploading, AreDistinct, Settled, counted_rows}
use conversion_gateway.MockAds.Injection.{plain_control, take_control, State}
use conversion_gateway.MockAds.ReadBack.{row_results}

abbrev nones : {A : Type 0} → List A → List (Option String)
nones xs = map (λ x. none) xs

abbrev pub all_uploaded : ℕ → CycleReport
all_uploaded n = record { uploaded = n; retry_later = 0; dead_lettered = 0 }

counted_rows-nones :
    {A : Type 0} (index : ℕ) (xs : List A)
    → counted_rows (row_results index (nones xs)) ≡ all_uploaded (length xs)
counted_rows-nones index [] = refl
counted_rows-nones index (x ∷ xs) =
    rw (counted_rows-nones (index + 1) xs) (ap all_uploaded (omega arith))

-- The event has moved to UPLOADED.
abbrev pub IsUploaded : List Event → List Event → Claimed → Type 0
IsUploaded before after c =
    (e : Event) × (find_event c.event_id before ≡ some e)
    × (find_event c.event_id after ≡ some (moved e Status.uploaded none))

Settled-nones :
    (before after : List Event) (index : ℕ) (batch : List Claimed)
    → Settled before after batch (row_results index (nones batch))
    → All (IsUploaded before after) batch
Settled-nones before after index [] settled = tt
Settled-nones before after index (c ∷ cs) (first, rest) =
    (first, Settled-nones before after (index + 1) cs rest)

module _ (is_decimal : Char → Bool) (str_of_json : Json → String)
    (known_actions : List String) where
  -- The mock finds no error in the conversion.
  abbrev IsAccepted : Claimed → Type 0
  IsAccepted c = validate_row is_decimal str_of_json known_actions (row_json c.conversion) ≡ ok none

  JudgedRows-nones :
      (index : ℕ) (batch : List Claimed) (codes : List (Option String))
      → JudgedRows is_decimal str_of_json known_actions [] index
          (conversions_of is_decimal str_of_json batch)
          codes
      → All IsAccepted batch
      → codes ≡ nones batch
  unfolding judged
  JudgedRows-nones index [] [] judgement accepted = refl
  JudgedRows-nones index [] (code ∷ codes) judgement accepted = cc
  JudgedRows-nones index (c ∷ cs) [] judgement accepted = cc
  JudgedRows-nones index (c ∷ cs) (code ∷ codes) (judgement, rest) (accepted, others) =
      let first : code ≡ none = ok-injective (sym judgement ∙ accepted) in
      rw (first, JudgedRows-nones (index + 1) cs codes rest others) refl

  -- An event whose row can be sent, and the conversion that was built of it.
  abbrev pub IsSendable : String → World → Claimed → Type 0
  IsSendable customer_id w c =
      (e : Event) × (action : String) × (t : CivilTime) × (find_event c.event_id w.db.events
        ≡ some e)
      × (e.status ≡ uploading)
      × (build_conversion e customer_id w ≡ (ok c.conversion, w))
      × (e.conversion_action ≡ some action)
      × (e.conversion_time ≡ some t)
      × (e.consent_ad_user_data ≡ some "GRANTED")
      × HasDigests e.hashed_identifiers
      × IsMatchable e
      × Addresses is_decimal str_of_json known_actions customer_id action

  IsSendable-IsAccepted :
      (customer_id : String) (w : World) (c : Claimed)
      → KnowsDigits is_decimal
      → IsSendable customer_id w c
      → IsAccepted c
  IsSendable-IsAccepted customer_id w c digits
        (e, action, t, _, _, built, has_action, has_time, granted, hex, matchable, addresses) =
      let (c', built', accepted) =
        build_conversion-validate_row is_decimal str_of_json known_actions customer_id action t e w
          digits addresses has_action has_time granted hex matchable in
      let same : c' ≡ c.conversion = ok-injective (ap (λ o. o.0) (sym built' ∙ built)) in
      rw (sym same) accepted

  -- The mock in its plain control.
  abbrev pub plain_state : List Json → ℕ → State
  plain_state uploads request_count = record {
    known_actions = known_actions;
    control = plain_control;
    uploads = uploads;
    request_count = request_count;
  }

  IsSendable-IsUploading :
      (customer_id : String) (w : World) (c : Claimed)
      → IsSendable customer_id w c
      → IsUploading w.db.events c
  IsSendable-IsUploading customer_id w c (e, _, _, found, state, _, _, _, _, _, _, _) =
      (e, found, state)

  module _ (tenacity : Tenacity BatchResult) (settings : Settings) where
    -- With the mock behind the client, in its plain control: take a batch of UPLOADING events, no
    -- two rows of it of one event, where each event has its required columns, hex digests, consent
    -- to the use of its data and something to match on, where the customer id is of digits and the
    -- action one that the platform knows, and where each conversion is the one that is built of its
    -- event. If the digits of ASCII are decimal digits and a slash is none, one call of
    -- `upload_batch` returns with the whole batch counted as uploaded, and every event of it is
    -- UPLOADED.
    pub upload_batch-IsUploaded :
        (uploads : List Json) (request_count : ℕ) (clock : ℕ → String → ℕ) (customer_id : String)
        (batch : List Claimed) (now : ℕ) (w : World)
        → KnowsDigits is_decimal
        → AreDistinct batch
        → All (IsSendable customer_id w) batch
        → let client = mock_client is_decimal str_of_json (plain_state uploads request_count) in
          ((upload_batch tenacity client settings clock batch now w).0
            ≡ ok (all_uploaded (length batch)))
          × All
              (IsUploaded w.db.events
                (upload_batch tenacity client settings clock batch now w).1.db.events)
              batch
    unfolding take_control
    upload_batch-IsUploaded uploads request_count clock customer_id batch now w digits distinct
          sendable =
        let s = plain_state uploads request_count in
        let sending = All-map batch (λ c h. IsSendable-IsUploading customer_id w c h) sendable in
        let accepted =
          All-map batch (λ c h. IsSendable-IsAccepted customer_id w c digits h) sendable in
        let (codes, judgement, done, settled) =
          upload_batch-judged is_decimal str_of_json tenacity settings s clock batch now w refl refl
            tt distinct sending in
        let clean = JudgedRows-nones 0 batch codes judgement accepted in
        (
          done
              ∙ ap (λ cs. ok (counted_rows (row_results 0 cs))) clean
              ∙ ap ok (counted_rows-nones 0 batch),
          Settled-nones w.db.events _ 0 batch (rw clean at settled),
        )
