-- ===== src/Pipeline/Processes.antt =====
-- Whole runs of the processes, one after the other: requests to the webhook
-- (src/gateway/api/routes.py), runs of the worker (src/gateway/worker.py) and of the uploader
-- (src/gateway/upload/uploader.py), and the operator's commands (src/gateway/cli.py).
use conversion_gateway.Worker
use conversion_gateway.Upload.Uploader
use conversion_gateway.Cli
use conversion_gateway.Prelude.{ℕ, String, ◌≡◌, sym, Bool, Option, some, List, [], append-nil, ◌++◌}
use conversion_gateway.Models.Status.{allowed_transitions}
use conversion_gateway.Models.Rows.{Event, EventTransition}
use conversion_gateway.Exec.{World}
use conversion_gateway.Normalise.Libs.{Libs}
use conversion_gateway.Ledger.{find_event, list_transitions}
use conversion_gateway.Ledger.Trail.{trail, current}
use conversion_gateway.Dlq.{Publisher}
use conversion_gateway.Queue.{Consumer}
use conversion_gateway.Upload.Backoff.{Tenacity}
use conversion_gateway.Upload.Client.{BatchResult}
use conversion_gateway.Upload.Batcher.{Batcher}
use conversion_gateway.Upload.Uploader.{UploadClient, Claimed}
use conversion_gateway.Cli.Commands.{dlq_replay_cmd, ParsedTime, FilterOptions}
use conversion_gateway.Api.Routes.{post_webhook, ApiSettings, Request, Decoders}
use conversion_gateway.Api.Schemas.{Validators}
use conversion_gateway.Api.Signature.{Primitives}
use conversion_gateway.Pipeline.Steps.{IsQuiet, empty_world, Reach}
use conversion_gateway.Pipeline.Runs.{Reach-trans}
use conversion_gateway.Pipeline.History.{
  Reach-IsAudited, empty_world-IsAudited, audit_complete, terminal_forever,
}
use conversion_gateway.Pipeline.UploaderRuns.{IsQuietClient, uploader_run-Reach}
use conversion_gateway.Pipeline.WorkerRuns.{worker_run-Reach}
use conversion_gateway.Pipeline.IngestRuns.{post_webhook-Reach}
use conversion_gateway.Pipeline.OperatorRuns.{dlq_replay_cmd-Reach, reconcile-Reach}

-- A publisher and an upload client may do anything but write to the database.
pub data Run (libs : Libs) {Q : Type 0} (consumer : Consumer Q) (tenacity : Tenacity BatchResult)
    (w w' : World) : Type 0 where
  webhook :
      (prim : Primitives) (settings : ApiSettings) (validators : Validators) (decoders : Decoders)
      (publish : Publisher) (request : Request) (clock now : ℕ) (correlation_id : String)
      → IsQuiet publish
      → w'
        ≡ (post_webhook prim settings validators decoders publish request clock now correlation_id
            w).1
      → Run libs consumer tenacity w w'
  worker :
      (batch_size : ℕ) (times : List ℕ) (q : Q)
      → w' ≡ (Worker.run libs consumer batch_size times q w).2
      → Run libs consumer tenacity w w'
  uploader :
      (client : UploadClient) (settings : Uploader.Settings) (locked : String → Bool)
      (clock : ℕ → ℕ → String → ℕ) (times : List ℕ) (batcher : Batcher Claimed)
      → IsQuietClient client
      → w' ≡ (Uploader.run tenacity client settings locked clock times batcher w).2
      → Run libs consumer tenacity w w'
  dlq_replay :
      (from_iso : String → Option ParsedTime) (publish : Publisher) (options : FilterOptions)
      (id : Option ℕ) (now : ℕ)
      → IsQuiet publish
      → w' ≡ (dlq_replay_cmd from_iso publish options id now w).1
      → Run libs consumer tenacity w w'
  reconcile :
      (publish : Publisher) (older_than : ℕ) (republish : Bool) (now : ℕ)
      → IsQuiet publish
      → w' ≡ (Cli.reconcile publish older_than republish now w).1
      → Run libs consumer tenacity w w'

pub data Runs (libs : Libs) {Q : Type 0} (consumer : Consumer Q) (tenacity : Tenacity BatchResult)
    (w : World) : World → Type 0 where
  none_yet : Runs libs consumer tenacity w w
  then_one :
      {v u : World}
      → Runs libs consumer tenacity w v
      → Run libs consumer tenacity v u
      → Runs libs consumer tenacity w u

module _ (libs : Libs) {Q : Type 0} (consumer : Consumer Q) (tenacity : Tenacity BatchResult) where
  Run-Reach : {w w' : World} → Run libs consumer tenacity w w' → Reach libs w w'
  Run-Reach {w}
        (Run.webhook prim settings validators decoders publish request clock now id quiet e) =
      rw e (
        post_webhook-Reach libs prim settings validators decoders publish quiet request clock now id
          w)
  Run-Reach {w} (Run.worker batch_size times q e) =
      rw e (worker_run-Reach libs consumer batch_size times q w)
  Run-Reach {w} (Run.uploader client settings locked clock times batcher quiet e) =
      rw e (uploader_run-Reach libs tenacity client quiet settings locked clock times batcher w)
  Run-Reach {w} (Run.dlq_replay from_iso publish options id now quiet e) =
      rw e (dlq_replay_cmd-Reach libs publish quiet from_iso options id now w)
  Run-Reach {w} (Run.reconcile publish older_than republish now quiet e) =
      rw e (reconcile-Reach libs publish quiet older_than republish now w)

  Runs-Reach : {w w' : World} → Runs libs consumer tenacity w w' → Reach libs w w'
  Runs-Reach Runs.none_yet = Reach.here
  Runs-Reach (Runs.then_one before run) = Reach-trans libs (Runs-Reach before) (Run-Reach run)

  -- However many requests, runs of the worker and the uploader, replays and reconciliations come
  -- one after the other on an empty database: the transitions of an event lead, each one allowed or
  -- the re-claim of a stale UPLOADING row, to the status in its row; and an event that is UPLOADED
  -- or REJECTED at some point is still so at every later point, with the transitions table only
  -- longer.
  pub Runs-keep_history :
      {w w' : World} (id : String)
      → Runs libs consumer tenacity empty_world w
      → Runs libs consumer tenacity w w'
      → (trail (list_transitions id w'.db.transitions) ≡ current (find_event id w'.db.events))
        × ((later : List EventTransition) × (w'.db.transitions ≡ w.db.transitions ++ later))
        × ((e : Event)
            → find_event id w.db.events ≡ some e
            → allowed_transitions e.status ≡ []
            → (e' : Event) × (find_event id w'.db.events ≡ some e') × (e'.status ≡ e.status))
  Runs-keep_history {w} {w'} id first second =
      let past = Runs-Reach first in
      let onwards = Runs-Reach second in
      let audited = Reach-IsAudited [] libs past empty_world-IsAudited in
      (
        audit_complete libs id (Reach-trans libs past onwards),
        (Reach-IsAudited w.db.transitions libs onwards (record {
          explained = audited.explained;
          appended = ([], sym (append-nil w.db.transitions));
        })).appended,
        λ e found terminal. (terminal_forever libs id e audited onwards found terminal).1,
      )
