-- ===== src/Dlq/Store.antt =====
-- Writing, reading and filtering dead letters: src/gateway/dlq/store.py.
use conversion_gateway.Prelude.{
  ltb, leb, nat_eq, if◌then◌else◌, length, take, select, order_by_desc, is_some, is_blank, left, ℕ,
  ◌+◌, String, Char, code, Bool, true, false, ◌&&◌, ◌||◌, not, Option, none, some, List, [], ◌∷◌,
  ◌++◌, map, ◌==◌,
}
use conversion_gateway.Models.Status.{dead_lettered}
use conversion_gateway.Models.Payload.{Conversion}
use conversion_gateway.Models.Rows.{EventTransition, Attempt, DeadLetter}
use conversion_gateway.Exec.{
  Exec, gets, ◌>>=◌, ◌>>◌, modify, require, count, conversions_dead_lettered_total, data_error,
}
use conversion_gateway.Ledger.{list_transitions, load, transition}
use conversion_gateway.Upload.Classifier.{failure_class_value, FailureClass}
use conversion_gateway.Models.Columns.{code_fits}

-- `metrics.unknown(value)`
abbrev pub unknown : Option String → String
unknown none = "unknown"
unknown (some text) = if is_blank text then "unknown" else text

-- `(message or "")[:1024] or None`
unfoldable pub bounded_message : Option String → Option String
unfolding left
bounded_message none = none
bounded_message (some text) = if is_blank text then none else some (left 1024 text)

abbrev pub attempt_of : EventTransition → Attempt
attempt_of t = record { at = t.occurred_at; status = t.to_status; reason = t.reason }

-- `session.add(DeadLetter(…))`: the sequence gives the id.
unfoldable add_dead_letter : DeadLetter → Exec (Unit {0})
unfolding code_fits
add_dead_letter d =
    require (code_fits d.platform_error_code) data_error
    >> modify (λ w. record w {
      db = record w.db {
        dead_letters = w.db.dead_letters ++ d ∷ [];
        next_dead_letter_id = w.db.next_dead_letter_id + 1;
      };
    })

unfoldable pub dead_letter :
    String
    → FailureClass
    → String
    → Option String
    → Option String
    → Conversion
    → ℕ
    → Exec (Unit {0})
unfolding transition bounded_message add_dead_letter list_transitions
dead_letter event_id failure_class reason error_code error_message payload now = do
  transition event_id dead_lettered (some reason) now
  event ← load event_id
  history ← gets (λ w. map attempt_of (list_transitions event.event_id w.db.transitions))
  id ← gets (λ w. w.db.next_dead_letter_id)
  add_dead_letter (record {
    id = id;
    event_id = event.event_id;
    source = event.source;
    conversion_action = event.conversion_action;
    dead_lettered_at = now;
    failure_class = failure_class_value failure_class;
    reason = reason;
    platform_error_code = error_code;
    platform_error_message = bounded_message error_message;
    payload = payload;
    attempt_history = history;
    replayed_at = none;
    replay_count = 0;
  })
  count (
      conversions_dead_lettered_total event.source (unknown event.conversion_action)
        (failure_class_value failure_class))

pub record DlqFilter : Type 0 where
  pub event_id : Option String
  pub source : Option String
  pub failure_class : Option String
  pub reason_prefix : Option String
  pub since : Option ℕ
  pub until : Option ℕ
  pub include_replayed : Bool

-- Some end of the text passes.
some_end : (String → Bool) → String → Bool
some_end rest String.[] = rest ""
some_end rest (String.◌∷◌ c s) = rest (String.◌∷◌ c s) || some_end rest s

one_char : (Char → Bool) → (String → Bool) → String → Bool
one_char test rest String.[] = false
one_char test rest (String.◌∷◌ c s) = test c && rest s

-- LIKE with "%" appended to the pattern, as `startswith` without autoescape makes it: "_" stands for
-- any character, "%" for any text, and "\" takes the next character as it is, at the end the "%".
unfoldable pub like_prefix : String → String → Bool
unfolding some_end one_char
like_prefix String.[] = λ text. true
like_prefix (String.◌∷◌ p String.[]) =
    if nat_eq (code p) b'%'
    then (λ text. true)
    else if nat_eq (code p) b'_'
    then one_char (λ c. true) (λ text. true)
    else if nat_eq (code p) 92
    then one_char (λ c. nat_eq (code c) b'%') is_blank
    else one_char (λ c. nat_eq (code c) (code p)) (λ text. true)
like_prefix (String.◌∷◌ p (String.◌∷◌ q ps)) =
    let rest = like_prefix (String.◌∷◌ q ps) in
    let escaped = like_prefix ps in
    if nat_eq (code p) b'%'
    then some_end rest
    else if nat_eq (code p) b'_'
    then one_char (λ c. true) rest
    else if nat_eq (code p) 92
    then one_char (λ c. nat_eq (code c) (code q)) escaped
    else one_char (λ c. nat_eq (code c) (code p)) rest

-- A condition that is left out where the filter's field is empty.
abbrev pub if_given : Option String → (String → Bool) → Bool
if_given none test = true
if_given (some text) test = if is_blank text then true else test text

abbrev pub if_set : Option ℕ → (ℕ → Bool) → Bool
if_set none test = true
if_set (some t) test = test t

unfoldable pub matches : DlqFilter → DeadLetter → Bool
unfolding like_prefix
matches flt d =
    (flt.include_replayed || not (is_some d.replayed_at))
    && if_given flt.event_id (λ id. d.event_id == id)
    && if_given flt.source (λ source. d.source == source)
    && if_given flt.failure_class (λ failure_class. d.failure_class == failure_class)
    && if_given flt.reason_prefix (λ prefix. like_prefix prefix d.reason)
    && if_set flt.since (λ since. leb since d.dead_lettered_at)
    && if_set flt.until (λ until. ltb d.dead_lettered_at until)

-- Newest first; rows of one time keep the order of the table.
unfoldable pub list_dead_letters : DlqFilter → ℕ → Exec (List DeadLetter)
unfolding matches
list_dead_letters flt limit = gets (λ w.
    take limit
      (order_by_desc (λ d. d.dead_lettered_at) (select (λ d. matches flt d) w.db.dead_letters)))

unfoldable pub find_dead_letter : ℕ → List DeadLetter → Option DeadLetter
find_dead_letter id [] = none
find_dead_letter id (d ∷ ds) = if nat_eq d.id id then some d else find_dead_letter id ds

unfoldable pub save_dead_letter : DeadLetter → List DeadLetter → List DeadLetter
save_dead_letter d [] = []
save_dead_letter d (x ∷ xs) = if nat_eq x.id d.id then d ∷ xs else x ∷ save_dead_letter d xs

unfoldable pub get_dead_letter : ℕ → Exec (Option DeadLetter)
unfolding find_dead_letter
get_dead_letter id = gets (λ w. find_dead_letter id w.db.dead_letters)

-- `open_depth_by_source(session).get(source, 0)`
unfoldable pub open_depth : String → List DeadLetter → ℕ
open_depth source ds = length (select (λ d. not (is_some d.replayed_at) && d.source == source) ds)
