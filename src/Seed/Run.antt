-- ===== src/Seed/Run.antt =====
-- A demo run: the posts, the wait and the report of `seed` in src/gateway/seed.py.
use package.text.Mathlib.Text.{starts_with}
use conversion_gateway.Prelude.{
  nat_eq, if◌then◌else◌, is_some, str_of, ℕ, zero, suc, ◌*◌, ◌%◌, ◌^◌, String, Bool, true, false,
  ◌&&◌, ◌||◌, Option, none, some, List, [], ◌∷◌, ◌==◌,
}
use conversion_gateway.Exec.{key_error, type_error, Result, ok, err}
use conversion_gateway.Upload.Json.{
  subscript, get, is_true, empty_object, ◌>>?◌, Json, null, text, array, object,
}
use conversion_gateway.Api.Signature.{Bytes, compute_signature, Primitives}
use conversion_gateway.Normalise.Strings.{text_in}
use conversion_gateway.Seed.Payloads.{from_bytes, mix, Planned}

-- What httpx brings back of a post: the status and `resp.json()`.
pub record SeedResponse : Type 0 where
  pub status_code : ℕ
  pub json : Result Json

pub record SignedPost : Type 0 where
  pub source : String
  pub timestamp : String
  pub signature : String
  pub content : Bytes

pub record SeedClient (Q : Type 0) : Type 0 where
  pub post : SignedPost → Q → Result SeedResponse × Q
  -- `client.get(f"/events/{event_id}").json()`
  pub get_json : String → Q → Result Json × Q
  -- `int(time.time())`
  pub seconds : Q → ℕ
  pub dumps : Json → Bytes

-- Without `why`, which is only printed.
pub record Seeded : Type 0 where
  pub label : String
  pub source : String
  -- null for None
  pub event_id : Json
  pub http_status : ℕ
  pub expected_status : Option String

abbrev terminal : List String
terminal = "UPLOADED" ∷ "SUPPRESSED" ∷ "REJECTED" ∷ "DEAD_LETTERED" ∷ []

-- A result and the client's state after it.
abbrev Act : Type 0 → Type 0 → Type 0
Act Q A = Q → Result A × Q

abbrev andthen : {Q A B : Type 0} → (A → Act Q B) → Result A × Q → Result B × Q
andthen next (ok a, q) = next a q
andthen next (err e, q) = (err e, q)

-- The final states, by the event's id.
abbrev pub Final : Type 0
Final = List (String × Json)

unfoldable state_of : String → Final → Option Json
state_of id [] = none
state_of id ((k, state) ∷ rest) = if k == id then some state else state_of id rest

-- `status in TERMINAL`: a list or a dict is not hashable.
abbrev is_terminal : Json → Result Bool
is_terminal (text status) = ok (text_in status terminal)
is_terminal (array items) = err type_error
is_terminal (object fields) = err type_error
is_terminal _ = ok false

unfoldable all_terminal : Final → List String → Result Bool
unfolding state_of subscript
all_terminal final [] = ok true
all_terminal final (id ∷ ids) =
    let others = all_terminal final ids in
    elim (state_of id final) [
      | none ↦ err key_error
      | some state ↦ subscript state "status" >>? λ status.
          is_terminal status >>? λ done. if done then others else ok false
    ]

-- `record`: the id is read of the three answers that have one.
abbrev has_id : ℕ → Bool
has_id status = nat_eq status 200 || nat_eq status 202 || nat_eq status 422

abbrev seeded_of : Planned → ℕ → Json → Seeded
seeded_of planned status event_id = record {
  label = planned.label;
  source = planned.source;
  event_id = event_id;
  http_status = status;
  expected_status = planned.expected;
}

unfoldable pub recorded : Planned → SeedResponse → Result Seeded
unfolding get
recorded planned resp =
    if has_id resp.status_code
    then (resp.json >>? λ body.
        get body "event_id" null >>? λ id. ok (seeded_of planned resp.status_code id))
    else ok (seeded_of planned resp.status_code null)

module _ (str_of_json : Json → String) where
  abbrev id_of : Json → String
  id_of (text id) = id
  id_of id = str_of_json id

  -- `s.event_id or ""`
  abbrev id_or_empty : Json → String
  id_or_empty id = if is_true id then id_of id else ""

  unfoldable tracked : List Seeded → List String
  unfolding is_true
  tracked [] = []
  tracked (s ∷ rest) =
      let others = tracked rest in
      if is_some s.expected_status && is_true s.event_id then id_of s.event_id ∷ others else others

  -- Whether a seeded event has landed where it was to.
  unfoldable pub landed : Final → Seeded → Result Bool
  unfolding state_of get is_true
  landed final s = elim s.expected_status [
    | none ↦ ok (nat_eq s.http_status (if starts_with s.label "6" then 200 else 401))
    | some expected ↦
        get
          (elim (state_of (id_or_empty s.event_id) final) [
            | some state ↦ state
            | none ↦ empty_object
          ])
          "status" (text "?")
        >>? λ actual. ok (is_text_of expected actual)
  ]
    where
      is_text_of : String → Json → Bool
      is_text_of expected (text actual) = actual == expected
      is_text_of expected _ = false

  -- The loop of the report: every event is looked at.
  unfoldable pub report : Final → List Seeded → Result Bool
  unfolding landed
  report final [] = ok true
  report final (s ∷ rest) =
      let others = report final rest in
      landed final s >>? λ good. others >>? λ all_good. ok (good && all_good)

  module _ {Q : Type 0} (prim : Primitives) (client : SeedClient Q) where
    -- `_post`
    unfoldable pub post : String → Planned → Act Q SeedResponse
    unfolding str_of compute_signature
    post secret planned q =
        let content = client.dumps planned.payload in
        let timestamp = str_of (client.seconds q) in
        let signer = if planned.bad_sig then "wrong-secret" else secret in
        client.post
          (record {
            source = planned.source;
            timestamp = timestamp;
            signature = compute_signature prim signer timestamp content;
            content = content;
          })
          q

    unfoldable post_all : String → String → List Planned → Act Q (List Seeded)
    unfolding post recorded
    post_all sf_secret hs_secret [] q = (ok [], q)
    post_all sf_secret hs_secret (planned ∷ rest) q =
        let secret = if planned.source == "salesforce" then sf_secret else hs_secret in
        andthen
          (λ resp v.
            andthen
              (λ seeded u.
                andthen (λ others last. (ok (seeded ∷ others), last))
                  (post_all sf_secret hs_secret rest u))
              (recorded planned resp, v))
          (post secret planned q)

    unfoldable fetch_all : List String → Final → Act Q Final
    fetch_all [] final q = (ok final, q)
    fetch_all (id ∷ ids) final q =
        andthen (λ state v. fetch_all ids ((id, state) ∷ final) v) (client.get_json id q)

    -- The wait, for as many rounds at most.
    unfoldable pub wait : ℕ → List String → Final → Act Q Final
    unfolding fetch_all all_terminal
    wait zero ids final q = (ok final, q)
    wait (suc rounds) ids final q =
        andthen
          (λ fetched v.
            andthen (λ done u. if done then (ok fetched, u) else wait rounds ids fetched u)
              (all_terminal fetched ids, v))
          (fetch_all ids final q)

    unfoldable pub seed : String → String → String → ℕ → Act Q Bool
    unfolding mix from_bytes post_all wait tracked report
    seed sf_secret hs_secret run_id rounds q =
        let hs_base = from_bytes 0 (prim.utf8 run_id) % 10 ^ 12 * 10 in
        andthen
          (λ seeded v.
            andthen (λ final u. (report final seeded, u)) (wait rounds (tracked seeded) [] v))
          (post_all sf_secret hs_secret (mix run_id hs_base) q)
