-- ===== src/Dlq/Letters.antt =====
-- What `dead_letter` of src/gateway/dlq/store.py records.
use conversion_gateway.Prelude.{
  ℕ, ◌+◌, String, ◌≡◌, refl, ap, true, Option, none, some, List, [], ◌∷◌, ◌++◌, map, eq_refl,
}
use conversion_gateway.Models.Status.{status_in, allowed_transitions, dead_lettered}
use conversion_gateway.Models.Payload.{Conversion}
use conversion_gateway.Models.Rows.{Event, EventTransition, Attempt, DeadLetter}
use conversion_gateway.Exec.{World, conversions_dead_lettered_total, ok}
use conversion_gateway.Ledger.{find_event, list_transitions}
use conversion_gateway.Ledger.Trail.{list_transitions-add, moved, step_row}
use conversion_gateway.Ledger.Transitions.{stepped, transition-allowed, find_event-save_self}
use conversion_gateway.Upload.Classifier.{failure_class_value, FailureClass}
use conversion_gateway.Dlq.{unknown, bounded_message, attempt_of, dead_letter}
use conversion_gateway.Models.Columns.{code_fits}

-- The transitions of the event, as the dead letter keeps them: those so far and the one into
-- DEAD_LETTERED.
abbrev pub history : Event → String → ℕ → World → List Attempt
history e reason now w =
    map attempt_of (list_transitions e.event_id w.db.transitions)
    ++ record { at = now; status = dead_lettered; reason = some reason } ∷ []

abbrev pub letter :
    Event
    → FailureClass
    → String
    → Option String
    → Option String
    → Conversion
    → ℕ
    → World
    → DeadLetter
letter e failure_class reason error_code error_message payload now w = record {
  id = w.db.next_dead_letter_id;
  event_id = e.event_id;
  source = e.source;
  conversion_action = e.conversion_action;
  dead_lettered_at = now;
  failure_class = failure_class_value failure_class;
  reason = reason;
  platform_error_code = error_code;
  platform_error_message = bounded_message error_message;
  payload = payload;
  attempt_history = history e reason now w;
  replayed_at = none;
  replay_count = 0;
}

-- The world with one more dead letter.
abbrev pub with_letter : Event → FailureClass → DeadLetter → World → World
with_letter e failure_class d w = record w {
  db = record w.db {
    dead_letters = w.db.dead_letters ++ d ∷ [];
    next_dead_letter_id = w.db.next_dead_letter_id + 1;
  };
  metrics =
      conversions_dead_lettered_total e.source (unknown e.conversion_action)
        (failure_class_value failure_class)
      ∷ w.metrics;
}

map-append :
    (f : EventTransition → Attempt) (xs ys : List EventTransition)
    → map f (xs ++ ys) ≡ map f xs ++ map f ys
map-append f [] ys = refl
map-append f (x ∷ xs) ys = ap (λ zs. f x ∷ zs) (map-append f xs ys)

history-stepped :
    (e : Event) (reason : String) (now : ℕ) (w : World)
    → map attempt_of
        (list_transitions e.event_id (stepped e dead_lettered (some reason) now w).db.transitions)
      ≡ history e reason now w
history-stepped e reason now w =
    let step = step_row e dead_lettered (some reason) now in
    rw (list_transitions-add e.event_id w.db.transitions step, eq_refl e.event_id)
      (map-append attempt_of (list_transitions e.event_id w.db.transitions) (step ∷ []))

-- Dead-lettering an event from a state that allows it, with a code that fits its column, moves it
-- to DEAD_LETTERED with the reason and writes one dead letter, under the next id, that holds the
-- event's source and action, the payload, the bounded message and the whole history of its
-- transitions, the last one included.
pub dead_letter-writes :
    (failure_class : FailureClass) (reason : String) (error_code error_message : Option String)
    (payload : Conversion) (now : ℕ) (e : Event) (w : World)
    → find_event e.event_id w.db.events ≡ some e
    → status_in dead_lettered (allowed_transitions e.status) ≡ true
    → code_fits error_code ≡ true
    → dead_letter e.event_id failure_class reason error_code error_message payload now w ≡ (
      ok tt,
      with_letter e failure_class
          (letter e failure_class reason error_code error_message payload now w)
          (stepped e dead_lettered (some reason) now w),
    )
unfolding dead_letter
dead_letter-writes failure_class reason error_code error_message payload now e w found fine fits =
    let after = stepped e dead_lettered (some reason) now w in
    rw (transition-allowed e.event_id dead_lettered (some reason) now e w found fine) (
      rw
        (find_event-save_self e.event_id e (moved e dead_lettered (some reason)) w.db.events found
          refl)
        (rw (history-stepped e reason now w, fits) refl))
