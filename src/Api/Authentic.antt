-- ===== src/Api/Authentic.antt =====
-- What `verify` of src/gateway/api/signature.py lets through.
use text.Mathlib.Text.{starts_with}
use text.Mathlib.TextPositions.{starts_with-append}
use conversion_gateway.Prelude.{
  nat_eq, if◌then◌else◌, is_blank, ℕ, String, ◌≡◌, refl, ◌∙◌, Bool, true, false, ◌||◌, not, Option,
  none, some, ◌∷◌, ◌++◌, arith, ◌==◌, eq_iff, eq_refl,
}
use conversion_gateway.Normalise.Strings.{char_count}
use conversion_gateway.Api.Signature.{
  Bytes, is_ascii, codes, out_of_window, is_huge, compute_signature, compared, windowed, structured,
  headers, verify, Integer, Primitives, malformed_signature, timestamp_out_of_window,
  signature_mismatch, source_not_configured, Verdict, answer, unicode_encode_error, type_error,
  overflow_error,
}

same_text :
    (s t : String)
    → (if s == t then answer none else answer (some signature_mismatch)) ≡ answer none
    → s ≡ t
same_text s t h = ground (arith, eq_iff s t)

module _ (prim : Primitives) where
  -- A request that is signed and fresh.
  abbrev pub IsAuthentic : String → String → String → Bytes → ℕ → ℕ → Type 0
  IsAuthentic secret timestamp signature body now tolerance_seconds =
      (is_blank secret ≡ false)
      × ((sent : Integer) × (prim.parse_int timestamp ≡ some sent)
          × (out_of_window now sent tolerance_seconds ≡ false)
          × (compute_signature prim secret timestamp body ≡ prim.lower signature))

  if_yes :
      (b : Bool) (x y : Verdict)
      → ¬ (x ≡ answer none)
      → (if b then x else y) ≡ answer none
      → (b ≡ false) × (y ≡ answer none)
  if_yes true x y refused h = elim (refused h) [ ]
  if_yes false x y refused h = (refl, h)

  compared-signed :
      (secret timestamp signature : String) (body : Bytes)
      → compared prim secret timestamp signature body ≡ answer none
      → compute_signature prim secret timestamp body ≡ prim.lower signature
  unfolding compared
  compared-signed secret timestamp signature body h =
      let (_, h1) = if_yes (not (is_ascii timestamp)) unicode_encode_error _ (λ e. cc) h in
      let (_, h2) = if_yes (not (is_ascii (prim.lower signature))) type_error _ (λ e. cc) h1 in
      same_text (compute_signature prim secret timestamp body) (prim.lower signature) h2

  windowed-authentic :
      (secret timestamp : String) (sent : Integer) (signature : String) (body : Bytes)
      (now tolerance_seconds : ℕ)
      → windowed prim secret timestamp sent signature body now tolerance_seconds ≡ answer none
      → (out_of_window now sent tolerance_seconds ≡ false)
        × (compute_signature prim secret timestamp body ≡ prim.lower signature)
  unfolding windowed
  windowed-authentic secret timestamp sent signature body now tolerance_seconds h =
      let (_, h1) = if_yes (is_huge sent) overflow_error _ (λ e. cc) h in
      let (fresh, h2) =
        if_yes (out_of_window now sent tolerance_seconds) (answer (some timestamp_out_of_window)) _
          (λ e. cc) h1 in
      (fresh, compared-signed secret timestamp signature body h2)

  structured-authentic :
      (secret timestamp : String) (parsed : Option Integer) (signature : String) (body : Bytes)
      (now tolerance_seconds : ℕ)
      → structured prim secret timestamp parsed signature body now tolerance_seconds ≡ answer none
      → (sent : Integer) × (parsed ≡ some sent)
        × (out_of_window now sent tolerance_seconds ≡ false)
        × (compute_signature prim secret timestamp body ≡ prim.lower signature)
  unfolding structured
  structured-authentic secret timestamp none signature body now tolerance_seconds h = cc
  structured-authentic secret timestamp (some sent) signature body now tolerance_seconds h =
      let (_, h1) =
        if_yes (not (starts_with signature "sha256=") || not (nat_eq (char_count signature) 71))
          (answer (some malformed_signature)) _ (λ e. cc) h in
      let (fresh, signed) =
        windowed-authentic secret timestamp sent signature body now tolerance_seconds h1 in
      (sent, refl, fresh, signed)

  headers-authentic :
      (secret : String) (timestamp_header signature_header : Option String) (body : Bytes)
      (now tolerance_seconds : ℕ)
      → headers prim secret timestamp_header signature_header body now tolerance_seconds
        ≡ answer none
      → (timestamp signature : String) × (timestamp_header ≡ some timestamp)
        × (signature_header ≡ some signature)
        × (structured prim secret timestamp
              (prim.parse_int timestamp)
              signature
              body
              now
              tolerance_seconds
            ≡ answer none)
  unfolding headers
  headers-authentic secret none signature_header body now tolerance_seconds h = cc
  headers-authentic secret (some timestamp) none body now tolerance_seconds h = cc
  headers-authentic secret (some timestamp) (some signature) body now tolerance_seconds h =
      (timestamp, signature, refl, refl, h)

  -- `verify` finds no failure only where the source has a secret, both headers are there, the timestamp
  -- is a number within the tolerance of the clock, on either side, and the signature header, in lower
  -- case, is the HMAC of exactly that timestamp and that body under the secret.
  pub verify-IsAuthentic :
      (secret : String) (timestamp_header signature_header : Option String) (body : Bytes)
      (now tolerance_seconds : ℕ)
      → verify prim secret timestamp_header signature_header body now tolerance_seconds
        ≡ answer none
      → (timestamp signature : String) × (timestamp_header ≡ some timestamp)
        × (signature_header ≡ some signature)
        × IsAuthentic secret timestamp signature body now tolerance_seconds
  unfolding verify
  verify-IsAuthentic secret timestamp_header signature_header body now tolerance_seconds h =
      let (configured, h1) =
        if_yes (is_blank secret) (answer (some source_not_configured)) _ (λ e. cc) h in
      let (timestamp, signature, given, signed, h2) =
        headers-authentic secret timestamp_header signature_header body now tolerance_seconds h1 in
      (
        timestamp,
        signature,
        given,
        signed,
        (
          configured,
          structured-authentic secret timestamp (prim.parse_int timestamp) signature body now
              tolerance_seconds h2,
        ),
      )

  compute_signature-prefix :
      (secret timestamp : String) (body : Bytes)
      → starts_with (compute_signature prim secret timestamp body) "sha256=" ≡ true
  unfolding compute_signature
  compute_signature-prefix secret timestamp body =
      starts_with-append "sha256="
        (prim.hmac_sha256_hex (prim.utf8 secret) (codes timestamp ++ b'.' ∷ body))

  compared-fine :
      (secret timestamp signature : String) (body : Bytes)
      → is_ascii timestamp ≡ true
      → is_ascii signature ≡ true
      → prim.lower signature ≡ signature
      → compute_signature prim secret timestamp body ≡ signature
      → compared prim secret timestamp signature body ≡ answer none
  unfolding compared
  compared-fine secret timestamp signature body ascii plain low same =
      rw (ascii, low) (rw plain (rw (same ∙ refl) (rw (eq_refl signature) refl)))

  structured-fine :
      (secret timestamp : String) (sent : Integer) (signature : String) (body : Bytes)
      (now tolerance_seconds : ℕ)
      → starts_with signature "sha256=" ≡ true
      → char_count signature ≡ 71
      → is_huge sent ≡ false
      → out_of_window now sent tolerance_seconds ≡ false
      → compared prim secret timestamp signature body ≡ answer none
      → structured prim secret timestamp (some sent) signature body now tolerance_seconds
        ≡ answer none
  unfolding structured
  structured-fine secret timestamp sent signature body now tolerance_seconds begins long held fresh
        fine =
      rw (begins, long) (rw (held, fresh) fine)

  -- A sender that signs with `compute_signature` under a secret that is set, with an ASCII
  -- timestamp that is a number within the tolerance and no more than a float holds, is let through,
  -- if an HMAC in hex is 64 ASCII characters in lower case.
  pub verify-compute_signature :
      (secret timestamp : String) (sent : Integer) (body : Bytes) (now tolerance_seconds : ℕ)
      → is_blank secret ≡ false
      → is_ascii timestamp ≡ true
      → prim.parse_int timestamp ≡ some sent
      → is_huge sent ≡ false
      → out_of_window now sent tolerance_seconds ≡ false
      → char_count (compute_signature prim secret timestamp body) ≡ 71
      → prim.lower (compute_signature prim secret timestamp body)
        ≡ compute_signature prim secret timestamp body
      → is_ascii (compute_signature prim secret timestamp body) ≡ true
      → verify prim secret
          (some timestamp)
          (some (compute_signature prim secret timestamp body))
          body
          now
          tolerance_seconds
        ≡ answer none
  unfolding verify
  verify-compute_signature secret timestamp sent body now tolerance_seconds configured ascii parsed
        held fresh long low plain =
      let signature = compute_signature prim secret timestamp body in
      rw (configured, parsed)
        (structured-fine secret timestamp sent signature body now tolerance_seconds
          (compute_signature-prefix secret timestamp body) long held fresh
          (compared-fine secret timestamp signature body ascii plain low refl))
