-- ===== src/Pipeline/Steps.antt =====
-- The transactions as a step relation, one whole transaction after the other. src/gateway/db.py sets no
-- isolation level, so Postgres runs them as READ COMMITTED: what two transactions on one row do to each
-- other while both are open, where no row lock keeps them apart, is not in the model.
use conversion_gateway.Prelude.{ℕ, String, ◌≡◌, Bool, List, []}
use conversion_gateway.Models.Message.{QueueMessage}
use conversion_gateway.Models.Canonical.{CanonicalLeadEvent}
use conversion_gateway.Exec.{transaction, World}
use conversion_gateway.Normalise.Libs.{Libs}
use conversion_gateway.Dlq.{Publisher, replay}
use conversion_gateway.Processor.{process_message}
use conversion_gateway.Upload.Classifier.{FailureClass}
use conversion_gateway.Upload.Client.{BatchResult}
use conversion_gateway.Upload.Uploader.{
  claim, on_retry, apply_result, dead_letter_all, Claimed, Settings,
}
use conversion_gateway.Models.Status.{Source}
use conversion_gateway.Api.Ingest.{accept_event, record_rejection}

-- A publisher that puts messages on a transport, and does not touch the database.
abbrev pub IsQuiet : Publisher → Type 0
IsQuiet publish = (m : QueueMessage) (w : World) → (publish m w).1.db ≡ w.db

pub data Step (libs : Libs) (w w' : World) : Type 0 where
  ingest :
      (event : CanonicalLeadEvent) (now : ℕ) (correlation_id : String)
      → w' ≡ (accept_event event now correlation_id w).1
      → Step libs w w'
  reject :
      (source : Source) (source_event_id reason : String) (now : ℕ) (correlation_id : String)
      → w' ≡ (record_rejection source source_event_id reason now correlation_id w).1
      → Step libs w w'
  process :
      (message : QueueMessage) (now : ℕ)
      → w' ≡ (transaction (process_message libs message now) w).1
      → Step libs w w'
  claim_rows :
      (settings : Settings) (locked : String → Bool) (now limit : ℕ)
      → w' ≡ (claim settings locked now limit w).1
      → Step libs w w'
  retry_batch :
      (batch : List Claimed) (clock : ℕ → String → ℕ) (reason : String) (attempt : ℕ)
      → w' ≡ (on_retry batch clock reason attempt w).1
      → Step libs w w'
  apply :
      (now : ℕ) (batch : List Claimed) (rows : BatchResult)
      → w' ≡ (apply_result now batch rows w).1
      → Step libs w w'
  bury :
      (batch : List Claimed) (failure_class : FailureClass) (reason code message : String) (now : ℕ)
      → w' ≡ (dead_letter_all batch failure_class reason code message now w).1
      → Step libs w w'
  replay_one :
      (publish : Publisher) (id now : ℕ)
      → IsQuiet publish
      → w' ≡ (transaction (replay publish id now) w).1
      → Step libs w w'
  elsewhere : w'.db ≡ w.db → Step libs w w'

pub data Reach (libs : Libs) (w : World) : World → Type 0 where
  here : Reach libs w w
  next : {v u : World} → Reach libs w v → Step libs v u → Reach libs w u

abbrev pub empty_world : World
empty_world = record {
  db = record { events = []; transitions = []; dead_letters = []; next_dead_letter_id = 1 };
  metrics = [];
  published = [];
}
