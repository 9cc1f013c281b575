-- ===== src/Capture/Redaction.antt =====
-- Secrets in captured headers.
use vexlo.Common.{
  ◌≡◌, ◌≢◌, refl, sym, ◌∙◌, Bytes, Bool, true, false, List, [], ◌∷◌, Option, none, some, arith,
  str_eq, str_eq_iff, if◌then◌else◌, get,
}
use vexlo.Capture.{
  is_sensitive_header, Headers, redacted, redact, HeaderJson, sanitize_parsed, sanitize_header_json,
}

-- What a header's values become.
abbrev pub redacted_values : Bytes → Option (List Bytes) → Option (List Bytes)
redacted_values key none = none
redacted_values key (some values) = some (if is_sensitive_header key then redacted else values)

redact-get :
    (key : Bytes) (headers : Headers)
    → get key (redact headers) ≡ redacted_values key (get key headers)
unfolding redact get
redact-get key [] = refl
redact-get key ((k, values) ∷ rest) = ground (arith, redact-get key rest, str_eq_iff k key)

-- The text that is shown for a stored text of headers.
abbrev pub IsShown : HeaderJson → Bytes → Bytes → Option Headers → Type 0
IsShown json raw shown none = shown ≡ raw
IsShown json raw shown (some headers) =
    (safe : Headers) × (((key : Bytes) → get key safe ≡ redacted_values key (get key headers)))
    × ((json.marshal safe ≡ none → shown ≡ raw)
        × ((buf : Bytes) → json.marshal safe ≡ some buf → shown ≡ buf))

sanitize_parsed-IsShown :
    (json : HeaderJson) (raw : Bytes) (o : Option Headers)
    → IsShown json raw (sanitize_parsed json raw o) o
unfolding sanitize_parsed
sanitize_parsed-IsShown json raw none = refl
sanitize_parsed-IsShown json raw (some headers) =
    (redact headers, λ key. redact-get key headers, (λ e. rw e, λ buf e. rw e))

no_flip : false ≡ true → ⊥
no_flip h = cc

-- An empty text is shown as it is, and so is one that is no JSON of headers. Otherwise what is shown is
-- the JSON of the headers with the same keys, the values of exactly the sensitive ones replaced, or
-- the text as it is if that cannot be encoded.
pub sanitize_header_json-IsShown :
    (json : HeaderJson) (raw : Bytes)
    → (raw ≡ [] → sanitize_header_json json raw ≡ raw)
      × (raw ≢ [] → IsShown json raw (sanitize_header_json json raw) (json.unmarshal raw))
unfolding sanitize_header_json
sanitize_header_json-IsShown json raw = by_empty (str_eq raw []) refl
  where
    by_empty :
        (b : Bool)
        → str_eq raw [] ≡ b
        → let shown = if b then raw else sanitize_parsed json raw (json.unmarshal raw) in
          (raw ≡ [] → shown ≡ raw) × (raw ≢ [] → IsShown json raw shown (json.unmarshal raw))
    by_empty true e = (λ h. refl, λ h. absurd (h ((str_eq_iff raw []).0 e)))
    by_empty false e = (
      λ h. absurd (no_flip (sym e ∙ (str_eq_iff raw []).1 h)),
      λ h. sanitize_parsed-IsShown json raw (json.unmarshal raw),
    )
