-- ===== src/Vendor/Classify/Scope.antt =====
-- What `Classify` decides, and which parts of the output it looks at.
use espur.Base.{
  ◌≡◌, refl, ap, ◌∙◌, sym, ◌≢◌, Bool, true, false, not, ◌&&◌, ◌||◌, List, [], ◌∷◌, ◌++◌, Bytes,
  codes, same, contains, contains-append_right, trim_space, to_lower, to_lower-append, split_at,
  split_at-append, split_at-plain, if◌then◌else◌, All, arith, append_assoc, append-nil,
}
use espur.Vendor.{FailureClass, class_none, class_rate_limit, class_server_5xx, class_auth}
use espur.Vendor.Classify.{
  rate_limit_phrases, plain_auth_phrases, auth_phrases, Line, no_error, envelope_line,
  envelope_lines, error_envelope, has_context, auth_hit, any_phrase, has_5xx, code_hit,
  server_codes, reason_phrases, classify_hay, classify,
}

auth_hit_plain :
    (hay : Bytes) (ps : List Bytes)
    → All (λ p. (same p (codes "401") || same p (codes "403")) ≡ false) ps
    → auth_hit hay ps ≡ any_phrase hay ps
unfolding auth_hit any_phrase
auth_hit_plain hay [] h = refl
auth_hit_plain hay (p ∷ ps) h = ground (arith, auth_hit_plain hay ps h.1)

auth_hit_number :
    (hay p : Bytes) (ps : List Bytes)
    → (same p (codes "401") || same p (codes "403")) ≡ true
    → auth_hit hay (p ∷ ps) ≡ (contains hay p && has_context hay || auth_hit hay ps)
unfolding auth_hit
auth_hit_number hay p ps h = number_test (contains hay p) (has_context hay) (auth_hit hay ps) h
  where
    number_test :
        (a c d : Bool) {b : Bool}
        → b ≡ true
        → (if a then (if b then (if not c then d else true) else true) else d) ≡ (a && c || d)
    number_test a c d h = ground arith

plain_phrases : All (λ p. (same p (codes "401") || same p (codes "403")) ≡ false) plain_auth_phrases
unfolding same
plain_phrases = (refl, (refl, (refl, (refl, (refl, (refl, (refl, (refl, (refl, (refl, tt))))))))))

regroup : (a b c d : Bool) → (a && c || (b && c || d)) ≡ ((a || b) && c || d)
regroup a b c d = ground arith

auth_hit_lem :
    (hay : Bytes)
    → auth_hit hay auth_phrases ≡ (
        (contains hay (codes "401") || contains hay (codes "403")) && has_context hay
        || any_phrase hay plain_auth_phrases)
auth_hit_lem hay =
    auth_hit_number hay (codes "401") (codes "403" ∷ plain_auth_phrases) (unfold same in refl)
    ∙ (ap (λ d. contains hay (codes "401") && has_context hay || d)
          (auth_hit_number hay (codes "403") plain_auth_phrases (unfold same in refl))
        ∙ (ap
              (λ d.
                contains hay (codes "401") && has_context hay
                || (contains hay (codes "403") && has_context hay || d))
              (auth_hit_plain hay plain_auth_phrases plain_phrases)
            ∙ regroup (contains hay (codes "401")) (contains hay (codes "403")) (has_context hay)
                (any_phrase hay plain_auth_phrases)))

-- The signs of a 5xx answer: one of five codes behind one of four words, or the phrase of an answer.
abbrev pub server_signs : List Bytes
server_signs =
    codes "\"statuscode\":500"
    ∷ codes "status code 500"
    ∷ codes "status 500"
    ∷ codes "http 500"
    ∷ codes "\"statuscode\":502"
    ∷ codes "status code 502"
    ∷ codes "status 502"
    ∷ codes "http 502"
    ∷ codes "\"statuscode\":503"
    ∷ codes "status code 503"
    ∷ codes "status 503"
    ∷ codes "http 503"
    ∷ codes "\"statuscode\":504"
    ∷ codes "status code 504"
    ∷ codes "status 504"
    ∷ codes "http 504"
    ∷ codes "\"statuscode\":529"
    ∷ codes "status code 529"
    ∷ codes "status 529"
    ∷ codes "http 529"
    ∷ codes "internal server error"
    ∷ codes "bad gateway"
    ∷ codes "service unavailable"
    ∷ codes "gateway timeout"
    ∷ []

abbrev signs_of : List Bytes → List Bytes → List Bytes
signs_of [] more = more
signs_of (code ∷ cs) more =
    (codes "\"statuscode\":" ++ code)
    ∷ (codes "status code " ++ code)
    ∷ (codes "status " ++ code)
    ∷ (codes "http " ++ code)
    ∷ signs_of cs more

code_hit_lem :
    (hay : Bytes) (cs more : List Bytes)
    → (if code_hit hay cs then true else any_phrase hay more) ≡ any_phrase hay (signs_of cs more)
unfolding code_hit any_phrase
code_hit_lem hay [] more = refl
code_hit_lem hay (code ∷ cs) more =
    four (contains hay (codes "\"statuscode\":" ++ code))
      (contains hay (codes "status code " ++ code)) (contains hay (codes "status " ++ code))
      (contains hay (codes "http " ++ code)) _ _ (code_hit_lem hay cs more)
  where
    four :
        (a b c d e f : Bool) {g : Bool}
        → (if e then true else f) ≡ g
        → (if (if a || b || c || d then true else e) then true else f)
          ≡ (a || (b || (c || (d || g))))
    four a b c d h = ground arith

has_5xx_lem : (hay : Bytes) → has_5xx hay ≡ any_phrase hay server_signs
unfolding has_5xx
has_5xx_lem hay = code_hit_lem hay server_codes reason_phrases

-- The words that say that a number is the status of an answer.
abbrev pub context_words : List Bytes
context_words = codes "statuscode" ∷ codes "status code" ∷ codes "http" ∷ []

has_context_lem : (hay : Bytes) → has_context hay ≡ any_phrase hay context_words
unfolding any_phrase
has_context_lem hay = ground arith

-- The class of every text: an auth phrase, or the number 401 or 403 where the text also speaks of
-- HTTP or of a status code, is an authentication failure; failing that, a rate-limit phrase is a
-- rate limit; failing that, a sign of a 5xx answer is a server failure: one of the codes 500, 502,
-- 503, 504 and 529 behind a word for a status, or the phrase of such an answer.
pub classify_hay_lem :
    (hay : Bytes)
    → classify_hay hay ≡ (
        if (contains hay (codes "401") || contains hay (codes "403"))
            && any_phrase hay context_words
          || any_phrase hay plain_auth_phrases
        then class_auth
        else if any_phrase hay rate_limit_phrases
        then class_rate_limit
        else if any_phrase hay server_signs
        then class_server_5xx
        else class_none)
unfolding classify_hay
classify_hay_lem hay = rw (auth_hit_lem hay, has_context_lem hay, has_5xx_lem hay) refl

envelope_lines-append :
    (decode : Bytes → Line) (ls ms : List Bytes)
    → envelope_lines decode (ls ++ ms) ≡ envelope_lines decode ls ++ envelope_lines decode ms
unfolding envelope_lines
envelope_lines-append decode [] ms = refl
envelope_lines-append decode (l ∷ ls) ms =
    ap (◌++◌ (envelope_line decode l)) (envelope_lines-append decode ls ms)
    ∙ sym (
        append_assoc (envelope_line decode l) (envelope_lines decode ls) (envelope_lines decode ms))

envelope_line_event :
    (decode : Bytes → Line) (line : Bytes)
    → decode (trim_space line) ≡ no_error
    → envelope_line decode line ≡ []
unfolding envelope_line
envelope_line_event decode line h = ground arith

error_envelope-append :
    (decode : Bytes → Line) (r s : Bytes)
    → error_envelope decode (r ++ 0x0a ∷ s) ≡ error_envelope decode r ++ error_envelope decode s
unfolding error_envelope
error_envelope-append decode r s =
    ap (envelope_lines decode) (split_at-append 0x0a r s)
    ∙ envelope_lines-append decode (split_at 0x0a r) (split_at 0x0a s)

error_envelope_line :
    (decode : Bytes → Line) (line : Bytes)
    → All (λ c. c ≢ 0x0a) line
    → decode (trim_space line) ≡ no_error
    → error_envelope decode line ≡ []
unfolding error_envelope envelope_lines
error_envelope_line decode line plain h =
    ap (envelope_lines decode) (split_at-plain 0x0a line plain)
    ∙ ap (λ e. e ++ []) (envelope_line_event decode line h)

error_envelope_event :
    (decode : Bytes → Line) (before line after : Bytes)
    → All (λ c. c ≢ 0x0a) line
    → decode (trim_space line) ≡ no_error
    → error_envelope decode ((before ++ 0x0a ∷ line) ++ 0x0a ∷ after)
      ≡ error_envelope decode (before ++ 0x0a ∷ after)
error_envelope_event decode before line after plain h =
    error_envelope-append decode (before ++ 0x0a ∷ line) after
    ∙ (ap (λ e. e ++ error_envelope decode after)
          (error_envelope-append decode before line
            ∙ (ap (◌++◌ (error_envelope decode before)) (error_envelope_line decode line plain h)
                ∙ append-nil (error_envelope decode before)))
        ∙ sym (error_envelope-append decode before after))

-- An event line that carries no error object, whatever assistant text or tool output it holds,
-- makes no difference to the class, wherever it stands in the output.
pub classify_ignores_event :
    (decode : Bytes → Line) (before line after stderr : Bytes)
    → All (λ c. c ≢ 0x0a) line
    → decode (trim_space line) ≡ no_error
    → classify decode ((before ++ 0x0a ∷ line) ++ 0x0a ∷ after) stderr
      ≡ classify decode (before ++ 0x0a ∷ after) stderr
unfolding classify
classify_ignores_event decode before line after stderr plain h =
    ap (λ e. classify_hay (to_lower (e ++ 0x0a ∷ stderr)))
      (error_envelope_event decode before line after plain h)

any_phrase-append :
    (r s : Bytes) (ps : List Bytes) → any_phrase s ps ≡ true → any_phrase (r ++ s) ps ≡ true
unfolding any_phrase
any_phrase-append r s [] h = cc
any_phrase-append r s (p ∷ ps) h =
    ground (arith, contains-append_right r s p, any_phrase-append r s ps)

auth_first :
    (text : Bytes)
    → any_phrase (to_lower text) plain_auth_phrases ≡ true
    → classify_hay (to_lower text) ≡ class_auth
auth_first text h = rw (classify_hay_lem (to_lower text), h) (or_true _ _)
  where
    or_true : (a : FailureClass) (b : Bool) → (if b || true then class_auth else a) ≡ class_auth
    or_true a b = ground arith

-- Auth wins: an auth phrase in the failure text gives an authentication failure, also where the
-- output has the signs of a rate limit or of a 5xx answer too.
pub classify_auth_wins :
    (decode : Bytes → Line) (stdout stderr : Bytes)
    → any_phrase (to_lower stderr) plain_auth_phrases ≡ true
    → classify decode stdout stderr ≡ class_auth
unfolding classify
classify_auth_wins decode stdout stderr h =
    auth_first (error_envelope decode stdout ++ 0x0a ∷ stderr) (
      rw (to_lower-append (error_envelope decode stdout) stderr) (
        any_phrase-append (to_lower (error_envelope decode stdout)) (0x0a ∷ to_lower stderr)
          plain_auth_phrases
          (any_phrase-append (0x0a ∷ []) (to_lower stderr) plain_auth_phrases h)))
