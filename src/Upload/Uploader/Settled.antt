-- ===== src/Upload/Uploader/Settled.antt =====
-- A whole batch response under `apply_result` of src/gateway/upload/uploader.py.
use conversion_gateway.Prelude.{
  length, All, All-map, left, ℕ, String, ◌≡◌, refl, sym, ◌∙◌, subst, ◌≢◌, some, List, [], ◌∷◌,
  arith,
}
use conversion_gateway.Models.Status.{uploading}
use conversion_gateway.Models.Rows.{Event}
use conversion_gateway.Exec.{pure, World, Result, ok}
use conversion_gateway.Exec.Returns.{bind-runs, transaction-runs}
use conversion_gateway.Ledger.{find_event}
use conversion_gateway.Ledger.Trail.{moved}
use conversion_gateway.Upload.Client.{BatchResult, RowResult}
use conversion_gateway.Upload.Uploader.Defs.{
  nothing_done, apply_row, plus, apply_rows, apply_result, Claimed, CycleReport,
}
use conversion_gateway.Upload.Uploader.Fates.{fate, CodeFits, apply_row-fate}

-- The event of the batch is on the ledger and being uploaded.
abbrev pub IsUploading : List Event → Claimed → Type 0
IsUploading es c = (e : Event) × (find_event c.event_id es ≡ some e) × (e.status ≡ uploading)

-- No two rows of the batch are of one event.
abbrev pub AreDistinct : List Claimed → Type 0
AreDistinct [] = Unit
AreDistinct (c ∷ cs) = All (λ (d : Claimed). c.event_id ≢ d.event_id) cs × AreDistinct cs

-- Each event has moved to the state of its row, with that row's reason.
abbrev pub Settled : List Event → List Event → List Claimed → BatchResult → Type 0
Settled before after (c ∷ cs) (row ∷ rows) =
    ((e : Event) × (find_event c.event_id before ≡ some e)
      × (find_event c.event_id after ≡ some (moved e (fate row).status (fate row).reason)))
    × Settled before after cs rows
Settled before after _ _ = Unit

-- The counts of the rows, added up.
abbrev pub counted_rows : BatchResult → CycleReport
counted_rows [] = nothing_done
counted_rows (row ∷ rows) = plus (fate row).counted (counted_rows rows)

abbrev pub KeepsOthers : List Claimed → List Event → List Event → Type 0
KeepsOthers batch before after =
    (id : String)
    → All (λ (c : Claimed). c.event_id ≢ id) batch
    → find_event id after ≡ find_event id before

-- The state of a batch does not depend on other events.
IsUploading-kept :
    (c d : Claimed) (before after : List Event)
    → ((id : String) → c.event_id ≢ id → find_event id after ≡ find_event id before)
    → c.event_id ≢ d.event_id
    → IsUploading before d
    → IsUploading after d
IsUploading-kept c d before after others ne (e, found, state) =
    (e, others d.event_id ne ∙ found, state)

Settled-earlier :
    (c : Claimed) (before mid after : List Event) (cs : List Claimed) (rows : BatchResult)
    → ((id : String) → c.event_id ≢ id → find_event id mid ≡ find_event id before)
    → All (λ (d : Claimed). c.event_id ≢ d.event_id) cs
    → Settled mid after cs rows
    → Settled before after cs rows
Settled-earlier c before mid after [] rows others ne settled = tt
Settled-earlier c before mid after (d ∷ ds) [] others ne settled = tt
Settled-earlier c before mid after (d ∷ ds) (row ∷ rows) others (first, rest)
      ((e, found, left), settled) =
    (
      (e, sym (others d.event_id first) ∙ found, left),
      Settled-earlier c before mid after ds rows others rest settled,
    )

All-IsUploading :
    (c : Claimed) (before after : List Event) (cs : List Claimed)
    → ((id : String) → c.event_id ≢ id → find_event id after ≡ find_event id before)
    → All (λ (d : Claimed). c.event_id ≢ d.event_id) cs
    → All (IsUploading before) cs
    → All (IsUploading after) cs
All-IsUploading c before after [] others ne sending = tt
All-IsUploading c before after (d ∷ ds) others (first, rest) (sends, sending) = (
  IsUploading-kept c d before after others first sends,
  All-IsUploading c before after ds others rest sending,
)

-- What the loop over a batch leaves.
abbrev Settles : List Claimed → BatchResult → World → Result CycleReport × World → Type 0
Settles batch rows w (r, w') =
    (r ≡ ok (counted_rows rows))
    × Settled w.db.events w'.db.events batch rows
    × KeepsOthers batch w.db.events w'.db.events

two_rounds :
    (now : ℕ) (c : Claimed) (cs : List Claimed) (row : RowResult) (rows : BatchResult) (w : World)
    {a b : CycleReport}
    → (apply_row now c row w).0 ≡ ok a
    → (apply_rows now cs rows (apply_row now c row w).1).0 ≡ ok b
    → apply_rows now (c ∷ cs) (row ∷ rows) w
      ≡ (ok (plus a b), (apply_rows now cs rows (apply_row now c row w).1).1)
unfolding apply_rows
two_rounds now c cs row rows w {a = a} {b = b} done rest =
    bind-runs (apply_row now c row) _ a w done
    ∙ bind-runs (apply_rows now cs rows) (λ more. pure (plus a more)) b _ rest

apply_rows-Settles :
    (now : ℕ) (batch : List Claimed) (rows : BatchResult) (w : World)
    → length rows ≡ length batch
    → AreDistinct batch
    → All (IsUploading w.db.events) batch
    → All CodeFits rows
    → Settles batch rows w (apply_rows now batch rows w)
unfolding apply_rows
apply_rows-Settles now [] [] w same distinct sending fit = (refl, tt, λ id h. refl)
apply_rows-Settles now [] (row ∷ rows) w same distinct sending fit = absurd (omega arith)
apply_rows-Settles now (c ∷ cs) [] w same distinct sending fit = absurd (omega arith)
apply_rows-Settles now (c ∷ cs) (row ∷ rows) w same (ne, distinct) ((e, found, state), sending)
      (first_fits, fit) =
    let (done, left, _, others) = apply_row-fate now c row e w found state first_fits in
    let mid = (apply_row now c row w).1 in
    let onwards = All-IsUploading c w.db.events mid.db.events cs others ne sending in
    let (rest, settled, kept) =
      apply_rows-Settles now cs rows mid (omega arith) distinct onwards fit in
    let last = (apply_rows now cs rows mid).1 in
    let untouched = All-map cs (λ d differs h. differs (sym h)) ne in
    subst (Settles (c ∷ cs) (row ∷ rows) w) (sym (two_rounds now c cs row rows w done rest)) (
      refl,
      (
        (e, found, kept c.event_id untouched ∙ left),
        Settled-earlier c w.db.events mid.db.events last.db.events cs rows others ne settled,
      ),
      λ id (first, others_too). kept id others_too ∙ others id first,
    )

pub apply_result-Settled :
    (now : ℕ) (batch : List Claimed) (rows : BatchResult) (w : World)
    → length rows ≡ length batch
    → AreDistinct batch
    → All (IsUploading w.db.events) batch
    → All CodeFits rows
    → ((apply_result now batch rows w).0 ≡ ok (counted_rows rows))
      × Settled w.db.events (apply_result now batch rows w).1.db.events batch rows
      × KeepsOthers batch w.db.events (apply_result now batch rows w).1.db.events
unfolding apply_result
apply_result-Settled now batch rows w same distinct sending fit =
    let settles = apply_rows-Settles now batch rows w same distinct sending fit in
    subst (Settles batch rows w)
      (sym (transaction-runs (apply_rows now batch rows) (counted_rows rows) w settles.0)) settles
