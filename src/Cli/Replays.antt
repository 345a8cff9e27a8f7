-- ===== src/Cli/Replays.antt =====
-- Which dead letters `dlq_replay_cmd` and `dlq_replay` of src/gateway/cli.py replay.
use conversion_gateway.Prelude.{
  if◌then◌else◌, Bool-cases, Option-cases, length, is_some, All, Has, ℕ, ◌+◌, ◌≤◌, String, ◌≡◌,
  refl, ap, ◌⊎◌, inl, inr, Bool, true, false, Option, none, some, List, [], ◌∷◌, map, arith,
}
use conversion_gateway.Models.Rows.{DeadLetter}
use conversion_gateway.Exec.{
  pure, transaction, continue, World, Error, value_error, Result, ok, err,
}
use conversion_gateway.Dlq.{find_dead_letter, get_dead_letter, DlqFilter, Publisher, replay}
use conversion_gateway.Dlq.Listed.{IsMatch, list_dead_letters-matching}
use conversion_gateway.Cli.{candidates, replay_each, dlq_replay}
use conversion_gateway.Cli.Commands.{
  any_given, parse_when, replayed, dlq_replay_cmd, ParsedTime, FilterOptions,
}

-- The letters that a run is for: the one that the id names, if there is one, or at most 1000 that
-- match the filter, none of which is left out unless the thousand is full.
abbrev AreChosen : DlqFilter → Option ℕ → World → List ℕ → Type 0
AreChosen flt (some id) w ids =
    ((find_dead_letter id w.db.dead_letters ≡ none) × (ids ≡ []))
    ⊎ ((d : DeadLetter) × (find_dead_letter id w.db.dead_letters ≡ some d) × (ids ≡ id ∷ []))
AreChosen flt none w ids =
    (letters : List DeadLetter) × (ids ≡ map (λ (d : DeadLetter). d.id) letters)
    × All (λ d. Has w.db.dead_letters d × IsMatch flt d) letters
    × (length letters ≤ 1000)
    × ((d : DeadLetter)
        → Has w.db.dead_letters d
        → IsMatch flt d
        → Has letters d ⊎ (length letters ≡ 1000))

find_dead_letter-id :
    (id : ℕ) (d : DeadLetter) (ds : List DeadLetter) → find_dead_letter id ds ≡ some d → d.id ≡ id
unfolding find_dead_letter
find_dead_letter-id id d [] found = cc
find_dead_letter-id id d (x ∷ ds) found = ground (arith, find_dead_letter-id id d ds)

candidates-AreChosen :
    (flt : DlqFilter) (dlq_id : Option ℕ) (w : World)
    → (ids : List ℕ) × (candidates flt dlq_id w ≡ (ok ids, w)) × AreChosen flt dlq_id w ids
unfolding candidates get_dead_letter
candidates-AreChosen flt none w =
    let (letters, listed, fitting, few, whole) = list_dead_letters-matching flt 1000 w in
    (
      map (λ (d : DeadLetter). d.id) letters,
      ap (continue (λ (rows : List DeadLetter). pure (map (λ (d : DeadLetter). d.id) rows))) listed,
      (letters, refl, fitting, few, whole),
    )
candidates-AreChosen flt (some id) w = elim (Option-cases (find_dead_letter id w.db.dead_letters)) [
  | inl missing ↦ ([], rw missing refl, inl (missing, refl))
  | inr (d, found) ↦ (
    id ∷ [],
    rw found (rw (find_dead_letter-id id d w.db.dead_letters found) refl),
    inr (d, found, refl),
  )
]

module _ (publish : Publisher) (now : ℕ) where
  -- The replays of these letters, each a transaction of its own, one after the other, up to the
  -- first that raises; where none does, the exit code is 0.
  abbrev AreReplays : List ℕ → World → Result ℕ × World → Type 0
  AreReplays [] w r = r ≡ (ok 0, w)
  AreReplays (id ∷ ids) w r =
      ((e : Error) × (transaction (replay publish id now) w ≡ (err e, r.1)) × (r.0 ≡ err e))
      ⊎ ((done : Bool) × (v : World) × (transaction (replay publish id now) w ≡ (ok done, v))
          × AreReplays ids v r)

  abbrev exit_code : Result ℕ × World → Result ℕ × World
  exit_code r = continue (λ (n : ℕ). pure 0) r

  exit_code-counted :
      (done : Bool) (r : Result ℕ × World)
      → exit_code (continue (λ rest. pure (if done then rest + 1 else rest)) r) ≡ exit_code r
  exit_code-counted done (ok n, w) = refl
  exit_code-counted done (err e, w) = refl

  first_replayed :
      (id : ℕ) (ids : List ℕ) (w : World) (r : Result Bool × World)
      → transaction (replay publish id now) w ≡ r
      → ((v : World) → AreReplays ids v (exit_code (replay_each publish now ids v)))
      → AreReplays (id ∷ ids) w (exit_code (replay_each publish now (id ∷ ids) w))
  unfolding replay_each
  first_replayed id ids w (err e, v) ran rest = rw ran (inl (e, refl, refl))
  first_replayed id ids w (ok done, v) ran rest =
      rw (ran, exit_code-counted done (replay_each publish now ids v)) (inr (done, v, refl, rest v))

  replay_each-AreReplays :
      (ids : List ℕ) (w : World) → AreReplays ids w (exit_code (replay_each publish now ids w))
  unfolding replay_each
  replay_each-AreReplays [] w = refl
  replay_each-AreReplays (id ∷ ids) w =
      first_replayed id ids w (transaction (replay publish id now) w) refl
        (λ v. replay_each-AreReplays ids v)

  module _ (from_iso : String → Option ParsedTime) where
    -- The time that an option stands for.
    abbrev ReadsAs : Option String → Option ℕ → Type 0
    ReadsAs none t = t ≡ none
    ReadsAs (some text) t = (p : ParsedTime) × (from_iso text ≡ some p) × (t ≡ some p.micros)

    abbrev IsNoTime : Option String → Type 0
    IsNoTime none = Path Bool true false
    IsNoTime (some text) = from_iso text ≡ none

    parse_when-cases :
        (o : Option String) (w : World)
        → (IsNoTime o × (parse_when from_iso o w ≡ (err value_error, w)))
          ⊎ ((t : Option ℕ) × ReadsAs o t × (parse_when from_iso o w ≡ (ok t, w)))
    unfolding parse_when
    parse_when-cases none w = inr (none, refl, refl)
    parse_when-cases (some text) w = elim (Option-cases (from_iso text)) [
      | inl malformed ↦ inl (malformed, rw malformed refl)
      | inr (p, read) ↦ inr (some p.micros, (p, read, refl), rw read refl)
    ]

    -- The filter of the options: letters that were replayed before are left out.
    abbrev filter_of : FilterOptions → Option ℕ → Option ℕ → DlqFilter
    filter_of o since until = record {
      event_id = none;
      source = o.source;
      failure_class = o.failure_class;
      reason_prefix = o.reason;
      since = since;
      until = until;
      include_replayed = false;
    }

    -- What a run of the command does: an exit with 2, or an error in an option, or replays.
    abbrev IsRefused : FilterOptions → Option ℕ → World → Result ℕ × World → Type 0
    IsRefused o id w r = (id ≡ none) × (any_given o ≡ false) × (r ≡ (ok 2, w))

    abbrev IsMisread : FilterOptions → World → Result ℕ × World → Type 0
    IsMisread o w r = (IsNoTime o.since ⊎ IsNoTime o.until) × (r ≡ (err value_error, w))

    abbrev HasReplayed : FilterOptions → Option ℕ → World → Result ℕ × World → Type 0
    HasReplayed o id w r =
        (since : Option ℕ) × (until : Option ℕ) × (ids : List ℕ) × ReadsAs o.since since
        × ReadsAs o.until until
        × AreChosen (filter_of o since until) id w ids
        × AreReplays ids w r

    abbrev pub RefusedOrReplayed : FilterOptions → Option ℕ → World → Result ℕ × World → Type 0
    RefusedOrReplayed o id w r =
        IsRefused o id w r
        ⊎ (((is_some id ≡ true) ⊎ (any_given o ≡ true)) × (IsMisread o w r ⊎ HasReplayed o id w r))

    dlq_replay-HasReplayed :
        (o : FilterOptions) (id : Option ℕ) (w : World) (since until : Option ℕ)
        → ReadsAs o.since since
        → ReadsAs o.until until
        → HasReplayed o id w (exit_code (dlq_replay publish (filter_of o since until) id now w))
    unfolding dlq_replay
    dlq_replay-HasReplayed o id w since until reads_since reads_until =
        let (ids, listed, chosen) = candidates-AreChosen (filter_of o since until) id w in
        (
          since,
          until,
          ids,
          reads_since,
          reads_until,
          chosen,
          rw listed (replay_each-AreReplays ids w),
        )

    replayed-cases :
        (o : FilterOptions) (id : Option ℕ) (w : World)
        → IsMisread o w (replayed from_iso publish o id now w)
          ⊎ HasReplayed o id w (replayed from_iso publish o id now w)
    unfolding replayed
    replayed-cases o id w = elim (parse_when-cases o.since w) [
      | inl (malformed, raises) ↦ inl (inl malformed, rw raises refl)
      | inr (since, reads, since_read) ↦ elim (parse_when-cases o.until w) [
        | inl (malformed, raises) ↦ inl (inr malformed, rw (since_read, raises) refl)
        | inr (until, also, until_read) ↦
            inr (rw (since_read, until_read) (dlq_replay-HasReplayed o id w since until reads also))
      ]
    ]

    -- Whatever the options are, `dlq replay` with neither an id nor a filter exits with 2 and
    -- changes nothing. With one of them, either a time in the options cannot be read, it raises and
    -- nothing changes, or it replays one letter after the other, up to the first replay that raises
    -- and with exit code 0 where none does: the letter of the id, where one is given and there is
    -- one, or else at most 1000 letters that were not replayed yet and match every option that is
    -- given, and each such letter unless there are 1000.
    pub dlq_replay_cmd-RefusedOrReplayed :
        (o : FilterOptions) (id : Option ℕ) (w : World)
        → RefusedOrReplayed o id w (dlq_replay_cmd from_iso publish o id now w)
    unfolding dlq_replay_cmd
    dlq_replay_cmd-RefusedOrReplayed o (some id) w = inr (inl refl, replayed-cases o (some id) w)
    dlq_replay_cmd-RefusedOrReplayed o none w = elim (Bool-cases (any_given o)) [
      | inl given ↦ rw given (inr (inr refl, replayed-cases o none w))
      | inr bare ↦ rw bare (inl (refl, refl, refl))
    ]
