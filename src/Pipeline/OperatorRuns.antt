-- ===== src/Pipeline/OperatorRuns.antt =====
-- The operator's commands of src/gateway/cli.py as paths of the pipeline's steps.
use conversion_gateway.Prelude.{
  if◌then◌else◌, Bool-cases, Option-cases, length, ℕ, ◌+◌, ◌-◌, ◌*◌, String, ◌≡◌, refl, ap, inl,
  inr, Bool, false, ◌&&◌, Option, none, some, List, [], ◌∷◌,
}
use conversion_gateway.Models.Rows.{Event}
use conversion_gateway.Exec.{pure, transaction, ◌>>◌, for_each, World}
use conversion_gateway.Normalise.Libs.{Libs}
use conversion_gateway.Dlq.{DlqFilter, Publisher, replay}
use conversion_gateway.Cli.{
  is_recoverable, bare_message, republish_one, reconcile, candidates, replay_each, dlq_replay,
}
use conversion_gateway.Cli.Commands.{
  any_given, parse_when, filter_options, replayed, dlq_replay_cmd, ParsedTime, FilterOptions,
}
use conversion_gateway.Pipeline.Steps.{IsQuiet, Step, Reach}
use conversion_gateway.Pipeline.Runs.{once, quietly, Reach-bind}
use conversion_gateway.Ledger.{find_stuck_queued}

module _ (libs : Libs) (publish : Publisher) (quiet : IsQuiet publish) where
  replay_each-Reach :
      (now : ℕ) (ids : List ℕ) (w : World) → Reach libs w (replay_each publish now ids w).1
  unfolding replay_each
  replay_each-Reach now [] w = Reach.here
  replay_each-Reach now (id ∷ ids) w =
      Reach-bind libs (transaction (replay publish id now)) _ w
        (once libs (Step.replay_one publish id now quiet refl))
        λ done v.
          Reach-bind libs (replay_each publish now ids)
            (λ rest. pure (if done then rest + 1 else rest)) v (replay_each-Reach now ids v)
            λ rest u. Reach.here

  candidates-world :
      (flt : DlqFilter) (dlq_id : Option ℕ) (w : World) → (candidates flt dlq_id w).1 ≡ w
  unfolding candidates
  candidates-world flt none w = refl
  candidates-world flt (some id) w = refl

  -- The replays are steps, also where one of them raises and ends the loop.
  dlq_replay-Reach :
      (flt : DlqFilter) (dlq_id : Option ℕ) (now : ℕ) (w : World)
      → Reach libs w (dlq_replay publish flt dlq_id now w).1
  unfolding dlq_replay
  dlq_replay-Reach flt dlq_id now w =
      Reach-bind libs (candidates flt dlq_id) (replay_each publish now) w
        (quietly libs w (candidates flt dlq_id w).1
          (ap (λ v. v.db) (candidates-world flt dlq_id w)))
        λ ids v. replay_each-Reach now ids v

  module _ (from_iso : String → Option ParsedTime) where
    parse_when-world : (value : Option String) (w : World) → (parse_when from_iso value w).1 ≡ w
    unfolding parse_when
    parse_when-world none w = refl
    parse_when-world (some value) w = elim (Option-cases (from_iso value)) [
      | inl malformed ↦ rw malformed refl
      | inr (parsed, read) ↦ rw read refl
    ]

    parse_when-Reach :
        (value : Option String) (w : World) → Reach libs w (parse_when from_iso value w).1
    parse_when-Reach value w =
        quietly libs w (parse_when from_iso value w).1 (ap (λ v. v.db) (parse_when-world value w))

    filter_options-Reach :
        (o : FilterOptions) (include_replayed : Bool) (w : World)
        → Reach libs w (filter_options from_iso o include_replayed w).1
    unfolding filter_options
    filter_options-Reach o include_replayed w =
        Reach-bind libs (parse_when from_iso o.since) _ w (parse_when-Reach o.since w) λ since v.
          Reach-bind libs (parse_when from_iso o.until) _ v (parse_when-Reach o.until v)
            λ until u. Reach.here

    replayed-Reach :
        (o : FilterOptions) (id : Option ℕ) (now : ℕ) (w : World)
        → Reach libs w (replayed from_iso publish o id now w).1
    unfolding replayed
    replayed-Reach o id now w =
        Reach-bind libs (filter_options from_iso o false) _ w (filter_options-Reach o false w)
          λ flt v.
            Reach-bind libs (dlq_replay publish flt id now) _ v (dlq_replay-Reach flt id now v)
              λ n u. Reach.here

    -- For a publisher that leaves the database alone, whatever else it does, a run of `dlq replay`
    -- is a path of the pipeline's steps.
    pub dlq_replay_cmd-Reach :
        (o : FilterOptions) (id : Option ℕ) (now : ℕ) (w : World)
        → Reach libs w (dlq_replay_cmd from_iso publish o id now w).1
    unfolding dlq_replay_cmd
    dlq_replay_cmd-Reach o (some id) now w = replayed-Reach o (some id) now w
    dlq_replay_cmd-Reach o none now w = elim (Bool-cases (any_given o)) [
      | inl given ↦ rw given (replayed-Reach o none now w)
      | inr bare ↦ rw bare Reach.here
    ]

  republished-Reach :
      (republish : Bool) (now : ℕ) (rows : List Event) (w : World)
      → Reach libs w (for_each rows (republish_one publish republish now) w).1
  unfolding for_each republish_one
  republished-Reach republish now [] w = Reach.here
  republished-Reach republish now (e ∷ rows) w =
      Reach-bind libs (republish_one publish republish now e)
        (λ _. for_each rows (republish_one publish republish now)) w
        (elim (Bool-cases (is_recoverable e && republish)) [
          | inl sends ↦ rw sends (quietly libs w _ (quiet (bare_message e now) w))
          | inr keeps ↦ rw keeps Reach.here
        ])
        (λ _ v. republished-Reach republish now rows v)

  -- So is a run of `reconcile`, for such a publisher.
  pub reconcile-Reach :
      (older_than : ℕ) (republish : Bool) (now : ℕ) (w : World)
      → Reach libs w (reconcile publish older_than republish now w).1
  unfolding reconcile find_stuck_queued
  reconcile-Reach older_than republish now w =
      Reach-bind libs (find_stuck_queued (now - older_than * 1000000))
        (λ stuck. for_each stuck (republish_one publish republish now) >> pure (length stuck)) w
        Reach.here
        λ stuck v.
          Reach-bind libs (for_each stuck (republish_one publish republish now))
            (λ _. pure (length stuck)) v (republished-Reach republish now stuck v) λ _ u. Reach.here
