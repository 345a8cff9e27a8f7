-- ===== src/Upload/Uploader/Answered.antt =====
-- `upload_batch` of src/gateway/upload/uploader.py where the platform answers at once.
use conversion_gateway.Prelude.{ℕ, String, ◌≡◌, refl, ap, List, ◌∷◌, map}
use conversion_gateway.Exec.{Exec, World, upload_latency_seconds, Result, ok}
use conversion_gateway.Upload.Client.{BatchResult}
use conversion_gateway.Upload.Backoff.{
  retrying, as_poison, call_with_retry, Retrying, Tenacity, Retries, returned, raised, stopped,
  sleep_raised, again,
}
use conversion_gateway.Upload.Uploader.Defs.{
  UploadClient, on_retry, timed_upload, apply_result, Claimed, Settings,
}
use conversion_gateway.Upload.Uploader.Cycle.{settle_batch, upload_batch}

module _ {A : Type 0} (options : Retrying) (fn : Exec A) where
  Retries-returns :
      {k : ℕ} {w : World} {r : Result A × World} {a : A} {w' : World}
      → fn w ≡ (ok a, w')
      → Retries options fn k w r
      → r ≡ (ok a, w')
  Retries-returns answers (returned b ran e) = cc
  Retries-returns answers (raised er ran skip e) = cc
  Retries-returns answers (stopped er s ran retry at_end e) = cc
  Retries-returns answers (sleep_raised er er' s ran retry on slept e) = cc
  Retries-returns answers (again er s ran retry on slept more) = cc

module _ (tenacity : Tenacity BatchResult) (client : UploadClient) (settings : Settings) where
  abbrev pub timed : World → World
  timed w = record w { metrics = upload_latency_seconds "ok" ∷ w.metrics }

  call_with_retry-returns :
      (clock : ℕ → String → ℕ) (batch : List Claimed) (rows : BatchResult) (w w' : World)
      → client (map (λ (c : Claimed). c.conversion) batch) w ≡ (ok rows, w')
      → call_with_retry tenacity settings.policy
          (timed_upload client batch)
          (on_retry batch clock)
          w
        ≡ (ok rows, timed w')
  unfolding call_with_retry timed_upload
  call_with_retry-returns clock batch rows w w' answers =
      let options = retrying settings.policy (on_retry batch clock) in
      let fn = timed_upload client batch in
      let sent : fn w ≡ (ok rows, timed w') = rw answers refl in
      ap as_poison (Retries-returns options fn sent (tenacity.documented options fn w))

  -- A request that the platform answers is followed by the transaction that applies the answer.
  pub upload_batch-apply_result :
      (clock : ℕ → String → ℕ) (batch : List Claimed) (now : ℕ) (rows : BatchResult) (w w' : World)
      → client (map (λ (c : Claimed). c.conversion) batch) w ≡ (ok rows, w')
      → upload_batch tenacity client settings clock batch now w
        ≡ apply_result now batch rows (timed w')
  unfolding upload_batch settle_batch
  upload_batch-apply_result clock batch now rows w w' answers =
      rw (call_with_retry-returns clock batch rows w w' answers) refl
