-- ===== src/Vendor/Classify.antt =====
-- internal/vendor/classify.go: the class of a failed attempt, from what the invoker wrote. The JSON
-- decoder is an argument: for a line it says whether it is a JSON object, and gives the raw text of
-- the field `error` if there is one. A line of 16 MiB or more, at which the scanner of the source
-- stops, is outside the model.
pub mod Scope
use espur.Base.{
  ℕ, ◌≡◌, refl, ap, ◌∙◌, sym, ◌≢◌, ◌⊎◌, inl, inr, Bool, true, false, not, ◌&&◌, ◌||◌, List, [], ◌∷◌,
  ◌++◌, Bytes, codes, same, is_empty, contains, trim_space, to_lower, split_at, if◌then◌else◌,
}
use espur.Vendor.{FailureClass, class_none, class_rate_limit, class_server_5xx, class_auth}

abbrev pub rate_limit_phrases : List Bytes
rate_limit_phrases =
    codes "429"
    ∷ codes "quota exceeded"
    ∷ codes "usage limit"
    ∷ codes "rate limit"
    ∷ codes "rate-limit"
    ∷ codes "rate_limit"
    ∷ codes "high concurrency"
    ∷ codes "overloaded"
    ∷ codes "try again later"
    ∷ codes "too many requests"
    ∷ codes "resource has been exhausted"
    ∷ []

abbrev pub plain_auth_phrases : List Bytes
plain_auth_phrases =
    codes "invalid api key"
    ∷ codes "unauthorized"
    ∷ codes "expired token"
    ∷ codes "revoked"
    ∷ codes "authentication_error"
    ∷ codes "authentication failed"
    ∷ codes "model not found"
    ∷ codes "unknown provider"
    ∷ codes "provider not configured"
    ∷ codes "no provider for"
    ∷ []

abbrev pub auth_phrases : List Bytes
auth_phrases = codes "401" ∷ codes "403" ∷ plain_auth_phrases

-- What the decoder makes of a line.
pub data Line : Type 0 where
  not_json no_error : Line
  error_field : Bytes → Line

unfoldable pub keep_error : Bytes → Line → Bytes
keep_error line not_json = line ++ 0x0a ∷ []
keep_error line no_error = []
keep_error line (error_field raw) =
    let s = trim_space raw in
    if not (is_empty s) && not (same s (codes "null")) then s ++ 0x0a ∷ [] else []

unfoldable pub envelope_line : (Bytes → Line) → Bytes → Bytes
unfolding keep_error
envelope_line decode raw =
    let line = trim_space raw in if is_empty line then [] else keep_error line (decode line)

unfoldable pub envelope_lines : (Bytes → Line) → List Bytes → Bytes
envelope_lines decode [] = []
envelope_lines decode (l ∷ ls) = envelope_line decode l ++ envelope_lines decode ls

unfoldable pub error_envelope : (Bytes → Line) → Bytes → Bytes
unfolding envelope_lines envelope_line
error_envelope decode stdout = envelope_lines decode (split_at 0x0a stdout)

abbrev pub has_context : Bytes → Bool
has_context hay =
    contains hay (codes "statuscode")
    || contains hay (codes "status code")
    || contains hay (codes "http")

-- The loop over `authPhrases`, with its `continue`.
unfoldable pub auth_hit : Bytes → List Bytes → Bool
auth_hit hay [] = false
auth_hit hay (p ∷ ps) =
    let rest = auth_hit hay ps in
    if contains hay p
    then (if same p (codes "401") || same p (codes "403")
        then (if not (has_context hay) then rest else true)
        else true)
    else rest

unfoldable pub any_phrase : Bytes → List Bytes → Bool
any_phrase hay [] = false
any_phrase hay (p ∷ ps) = contains hay p || any_phrase hay ps

unfoldable pub code_hit : Bytes → List Bytes → Bool
code_hit hay [] = false
code_hit hay (code ∷ cs) =
    let rest = code_hit hay cs in
    if contains hay (codes "\"statuscode\":" ++ code)
      || contains hay (codes "status code " ++ code)
      || contains hay (codes "status " ++ code)
      || contains hay (codes "http " ++ code)
    then true
    else rest

abbrev pub server_codes : List Bytes
server_codes = codes "500" ∷ codes "502" ∷ codes "503" ∷ codes "504" ∷ codes "529" ∷ []

abbrev pub reason_phrases : List Bytes
reason_phrases =
    codes "internal server error"
    ∷ codes "bad gateway"
    ∷ codes "service unavailable"
    ∷ codes "gateway timeout"
    ∷ []

unfoldable pub has_5xx : Bytes → Bool
unfolding code_hit any_phrase
has_5xx hay = if code_hit hay server_codes then true else any_phrase hay reason_phrases

unfoldable pub classify_hay : Bytes → FailureClass
unfolding auth_hit any_phrase has_5xx
classify_hay hay =
    if auth_hit hay auth_phrases
    then class_auth
    else if any_phrase hay rate_limit_phrases
    then class_rate_limit
    else if has_5xx hay
    then class_server_5xx
    else class_none

unfoldable pub classify : (Bytes → Line) → Bytes → Bytes → FailureClass
unfolding classify_hay error_envelope
classify decode stdout stderr =
    classify_hay (to_lower (error_envelope decode stdout ++ 0x0a ∷ stderr))
