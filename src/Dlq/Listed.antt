-- ===== src/Dlq/Listed.antt =====
-- Which dead letters `list_dead_letters` of src/gateway/dlq/store.py lists.
use conversion_gateway.Prelude.{
  ltb, leb, Bool-cases, length, take, select, order_by_desc, is_some, length-take-le, All, All-map,
  All-take, All-select, is_blank, Has, All-Has, Has-select, Has-order_by_desc, All-order_by_desc,
  Has-take, ℕ, ◌≤◌, ◌<◌, String, ◌≡◌, refl, ◌⊎◌, inl, inr, Bool, true, false, ◌&&◌, ◌||◌, not,
  Option, none, some, List, arith, ◌==◌, eq_iff,
}
use conversion_gateway.Models.Rows.{DeadLetter}
use conversion_gateway.Exec.{World, ok}
use conversion_gateway.Dlq.{like_prefix, if_given, if_set, matches, list_dead_letters, DlqFilter}

-- An option that is left out or empty asks for nothing.
abbrev Asks : Option String → (String → Type 0) → Type 0
Asks none P = Unit
Asks (some text) P = (is_blank text ≡ true) ⊎ P text

abbrev Bounds : Option ℕ → (ℕ → Type 0) → Type 0
Bounds none P = Unit
Bounds (some t) P = P t

-- What the fields of a filter say of a letter; the reason is matched as SQL's LIKE does.
abbrev pub IsMatch : DlqFilter → DeadLetter → Type 0
IsMatch flt d =
    ((flt.include_replayed ≡ true) ⊎ (d.replayed_at ≡ none))
    × Asks flt.event_id (λ id. d.event_id ≡ id)
    × Asks flt.source (λ source. d.source ≡ source)
    × Asks flt.failure_class (λ failure_class. d.failure_class ≡ failure_class)
    × Asks flt.reason_prefix (λ pattern. like_prefix pattern d.reason ≡ true)
    × Bounds flt.since (λ since. since ≤ d.dead_lettered_at)
    × Bounds flt.until (λ until. d.dead_lettered_at < until)

-- A test and what it is true of.
abbrev Decides : Bool → Type 0 → Type 0
Decides b P = (b ≡ true → P) × (P → b ≡ true)

Decides-and : (a b : Bool) {P Q : Type 0} → Decides a P → Decides b Q → Decides (a && b) (P × Q)
Decides-and true b (f, g) (h, k) = (λ e. (f refl, h e), λ (p, q). k q)
Decides-and false b (f, g) (h, k) = (λ e. cc, λ (p, q). g p)

Decides-given :
    (o : Option String) (test : String → Bool) (P : String → Type 0)
    → ((text : String) → Decides (test text) (P text))
    → Decides (if_given o test) (Asks o P)
Decides-given none test P each = (λ e. tt, λ p. refl)
Decides-given (some text) test P each = elim (Bool-cases (is_blank text)) [
  | inl empty ↦ (λ e. inl empty, λ p. rw empty refl)
  | inr full ↦ (
    λ e. inr ((each text).0 (rw full at e)),
    λ p. elim p [ inl empty ↦ cc | inr holds ↦ rw full ((each text).1 holds) ],
  )
]

Decides-same : (s t : String) → Decides (s == t) (s ≡ t)
Decides-same s t = ((eq_iff s t).0, (eq_iff s t).1)

Decides-set :
    (o : Option ℕ) (test : ℕ → Bool) (P : ℕ → Type 0)
    → ((t : ℕ) → Decides (test t) (P t))
    → Decides (if_set o test) (Bounds o P)
Decides-set none test P each = (λ e. tt, λ p. refl)
Decides-set (some t) test P each = each t

Decides-open : (b : Bool) (o : Option ℕ) → Decides (b || not (is_some o)) ((b ≡ true) ⊎ (o ≡ none))
Decides-open true o = (λ e. inl refl, λ p. refl)
Decides-open false none = (λ e. inr refl, λ p. refl)
Decides-open false (some t) = (λ e. cc, λ p. elim p [ inl h ↦ cc | inr h ↦ cc ])

Decides-all :
    (a b c d e f g : Bool) {A B C D E F G : Type 0}
    → Decides a A
    → Decides b B
    → Decides c C
    → Decides d D
    → Decides e E
    → Decides f F
    → Decides g G
    → Decides (a && b && c && d && e && f && g) (A × B × C × D × E × F × G)
Decides-all true b c d e f g h hb hc hd he hf hg =
    let later =
      Decides-and (b && c && d && e && f) g
        (Decides-and (b && c && d && e) f
          (Decides-and (b && c && d) e (Decides-and (b && c) d (Decides-and b c hb hc) hd) he) hf)
        hg in
    (
      λ t. let (((((p, q), r), s), u), v) = later.0 t in (h.0 refl, p, q, r, s, u, v),
      λ (_, p, q, r, s, u, v). later.1 (((((p, q), r), s), u), v),
    )
Decides-all false b c d e f g h hb hc hd he hf hg = (λ t. cc, λ t. h.1 t.0)

matches-Decides : (flt : DlqFilter) (d : DeadLetter) → Decides (matches flt d) (IsMatch flt d)
unfolding matches like_prefix
matches-Decides flt d =
    let unreplayed = Decides-open flt.include_replayed d.replayed_at in
    let id =
      Decides-given flt.event_id (λ id. d.event_id == id) (λ id. d.event_id ≡ id)
        (Decides-same d.event_id) in
    let source =
      Decides-given flt.source (λ source. d.source == source) (λ source. d.source ≡ source)
        (Decides-same d.source) in
    let kind =
      Decides-given flt.failure_class (λ kind. d.failure_class == kind)
        (λ kind. d.failure_class ≡ kind) (Decides-same d.failure_class) in
    let reason =
      Decides-given flt.reason_prefix (λ pattern. like_prefix pattern d.reason)
        (λ pattern. like_prefix pattern d.reason ≡ true) (λ pattern. (λ e. e, λ p. p)) in
    let since =
      Decides-set flt.since (λ since. leb since d.dead_lettered_at)
        (λ since. since ≤ d.dead_lettered_at) (λ t. (λ e. ground arith, λ p. ground arith)) in
    let until =
      Decides-set flt.until (λ until. ltb d.dead_lettered_at until)
        (λ until. d.dead_lettered_at < until) (λ t. (λ e. ground arith, λ p. ground arith)) in
    Decides-all _ _ _ _ _ _ _ unreplayed id source kind reason since until

-- The listing is of matching rows of the table, and of all of them unless it is full.
pub list_dead_letters-matching :
    (flt : DlqFilter) (limit : ℕ) (w : World)
    → (letters : List DeadLetter) × (list_dead_letters flt limit w ≡ (ok letters, w))
      × All (λ d. Has w.db.dead_letters d × IsMatch flt d) letters
      × (length letters ≤ limit)
      × ((d : DeadLetter)
          → Has w.db.dead_letters d
          → IsMatch flt d
          → Has letters d ⊎ (length letters ≡ limit))
unfolding list_dead_letters
list_dead_letters-matching flt limit w =
    let found = select (λ d. matches flt d) w.db.dead_letters in
    let at = λ (d : DeadLetter). d.dead_lettered_at in
    let listed = λ (d : DeadLetter). Has w.db.dead_letters d × IsMatch flt d in
    let newest = order_by_desc at found in
    (
      take limit newest,
      refl,
      All-take listed limit newest (
          All-order_by_desc at listed found (
            All-map found (λ d (has, e). (has, (matches-Decides flt d).0 e))
              (All-select (Has w.db.dead_letters) (λ d. matches flt d) w.db.dead_letters
                (All-Has w.db.dead_letters)))),
      length-take-le limit newest,
      λ d has fits. Has-take limit d newest (
          Has-order_by_desc at d found (
            Has-select (λ x. matches flt x) d w.db.dead_letters ((matches-Decides flt d).1 fits)
              has)),
    )
