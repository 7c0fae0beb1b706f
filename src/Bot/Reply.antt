-- ===== src/Bot/Reply.antt =====
-- internal/bot/reply.go: the request id and the texts of the replies. The random bytes are an
-- argument. A duration is a number of nanoseconds; one that is negative, for a deadline that has
-- passed, is zero here and prints alike. `humanize_duration` counts whole nanoseconds where the
-- source computes in floating point.
pub mod Texts
use espur.Base.{
  ℕ, zero, suc, ◌+◌, ◌-◌, ◌*◌, ◌/◌, ◌%◌, ◌^◌, Bool, true, false, not, ◌&&◌, List, [], ◌∷◌, ◌++◌,
  Option, none, some, Bytes, codes, is_empty, length, ltb, ◌==◌, if◌then◌else◌,
}
use espur.Store.{PenaltyStatus, eligible, cooldown, auth_locked, other, second}
use espur.Vendor.{PenalizedSnapshot}

abbrev pub crockford : Bytes
crockford = codes "0123456789ABCDEFGHJKMNPQRSTVWXYZ"

abbrev pub byte_at : Bytes → ℕ → ℕ
byte_at [] i = 0
byte_at (c ∷ s) zero = c
byte_at (c ∷ s) (suc i) = byte_at s i

-- The loop from the last place to the first; `v & 0x1f` and `v >>= 5`.
unfoldable pub id_digits : ℕ → ℕ → Bytes → Bytes
id_digits zero v out = out
id_digits (suc i) v out = id_digits i (v / 32) (byte_at crockford (v % 32) ∷ out)

unfoldable pub big_endian : ℕ → Bytes → ℕ
big_endian v [] = v
big_endian v (b ∷ bs) = big_endian (v * 256 + b) bs

unfoldable pub new_request_id : Bytes → Bytes
unfolding id_digits big_endian
new_request_id b = id_digits 8 (big_endian 0 b) []

abbrev pub timeout_reply : Bytes
timeout_reply = codes "Took too long, aborted. Try again or rephrase."

unfoldable pub crash_reply : Bytes → Bytes
crash_reply request_id =
    codes "Internal error. Check logs. Request ID: `" ++ (request_id ++ codes "`.")

-- `%d`; the digits run on fuel, one more than the number, which is enough as each digit divides it.
unfoldable pub digits : ℕ → ℕ → Bytes → Bytes
digits zero n out = out
digits (suc fuel) n out =
    let rest = digits fuel (n / 10) ((b'0' + n % 10) ∷ out) in if n == 0 then out else rest

unfoldable pub decimal : ℕ → Bytes
unfolding digits
decimal n = if n == 0 then codes "0" else digits (suc n) n []

abbrev pub minute : ℕ
minute = 60 * second

abbrev pub hour : ℕ
hour = 60 * minute

unfoldable pub humanize_duration : ℕ → Bytes
unfolding decimal
humanize_duration d =
    if ltb d minute
    then codes "<1m"
    else if ltb d hour
    then decimal ((d + 30 * second) / minute) ++ codes "m"
    else decimal (d / hour) ++ (codes "h" ++ (decimal (d / minute % 60) ++ codes "m"))

abbrev pub is_auth_locked : PenaltyStatus → Bool
is_auth_locked auth_locked = true
is_auth_locked _ = false

unfoldable pub all_auth : List PenalizedSnapshot → Bool
all_auth [] = true
all_auth (s ∷ snaps) = is_auth_locked s.status && all_auth snaps

abbrev pub rate_limited : Option ℕ → ℕ → Bytes
rate_limited none now = codes " — rate-limited\n"
rate_limited (some until) now =
    codes " — rate-limited, retry in ~" ++ (humanize_duration (until - now) ++ codes "\n")

abbrev pub status_text : PenaltyStatus → Option ℕ → ℕ → Bytes
status_text auth_locked until now = codes " — auth failed, needs reconfigure\n"
status_text cooldown until now = rate_limited until now
status_text eligible until now = codes " — eligible\n"
status_text (other s) until now = codes " — " ++ (s ++ codes "\n")

unfoldable pub vendor_lines : List PenalizedSnapshot → ℕ → Bytes
unfolding humanize_duration
vendor_lines [] now = []
vendor_lines (s ∷ snaps) now =
    codes "- "
    ++ (s.vendor_id ++ (status_text s.status s.cooldown_until now ++ vendor_lines snaps now))

abbrev pub headline : List PenalizedSnapshot → Bytes
headline snaps =
    if all_auth snaps && ltb 0 (length snaps)
    then codes "All configured vendors need reconfiguration (auth failed).\n"
    else codes "All vendors exhausted (rate-limited or out of quota).\n"

abbrev pub dashboard_text : Bytes → Bytes
dashboard_text dashboard_url =
    if not (is_empty dashboard_url)
    then codes "Check the dashboard at " ++ (dashboard_url ++ codes ".")
    else codes "Check the dashboard."

unfoldable pub drained_reply : List PenalizedSnapshot → Bytes → ℕ → Bytes
unfolding vendor_lines all_auth
drained_reply snaps dashboard_url now =
    headline snaps ++ (vendor_lines snaps now ++ dashboard_text dashboard_url)
