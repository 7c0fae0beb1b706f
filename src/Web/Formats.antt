-- ===== src/Web/Formats.antt =====
-- internal/web/web.go: the texts for sizes, durations and times, and two small renderings of names.
-- time.Time.Format and strings.ToUpper are arguments. A size is below 2^53, where float64 is exact.
use espur.Base.{
  ℕ, ◌≡◌, refl, ◌+◌, ◌-◌, ◌*◌, ◌/◌, ◌%◌, Bool, ◌&&◌, ◌||◌, List, [], ◌∷◌, ◌++◌, Option, none, some,
  Bytes, codes, same, to_lower, take, length, ltb, leb, ◌==◌, if◌then◌else◌,
}
use espur.Store.{second}
use espur.Vendor.Penalty.{minute}
use espur.Opencode.Accumulator.{itoa}

abbrev pub hour : ℕ
hour = 60 * minute

abbrev pub day : ℕ
day = 24 * hour

unfoldable pub human_duration : ℕ → Bytes
unfolding itoa
human_duration d =
    if ltb d minute
    then itoa (d / second) ++ codes "s"
    else if ltb d hour
    then itoa (d / minute) ++ codes "m"
    else if ltb d day
    then itoa (d / hour) ++ (codes "h " ++ (itoa (d / minute - d / hour * 60) ++ codes "m"))
    else itoa (d / hour / 24) ++ (codes "d " ++ (itoa (d / hour - d / hour / 24 * 24) ++ codes "h"))

-- The time that has passed since `t`; a time to come is written out.
abbrev pub passed_since : (ℕ → Bytes) → (ℕ → Bytes) → ℕ → ℕ → Bytes
passed_since to_minute to_day now t =
    if ltb now t
    then to_minute t
    else if ltb (now - t) minute
    then codes "just now"
    else if ltb (now - t) hour
    then itoa ((now - t) / minute) ++ codes " min ago"
    else if ltb (now - t) day
    then itoa ((now - t) / hour) ++ codes " hr ago"
    else if ltb (now - t) (7 * day)
    then itoa ((now - t) / hour / 24) ++ codes " days ago"
    else to_day t

-- humanTime: none is the zero time, shown as a dash.
unfoldable pub human_time : (ℕ → Bytes) → (ℕ → Bytes) → ℕ → Option ℕ → Bytes
unfolding itoa
human_time to_minute to_day now none = 0xe2 ∷ 0x80 ∷ 0x94 ∷ []
human_time to_minute to_day now (some t) = passed_since to_minute to_day now t

-- `%.1f` of n / unit: tenths, the nearest and of two the even one.
abbrev pub tenths : ℕ → ℕ → ℕ
tenths n unit =
    let q = 10 * n / unit in
    let r = 2 * (10 * n % unit) in
    if ltb unit r then q + 1 else if r == unit && q % 2 == 1 then q + 1 else q

abbrev pub with_unit : ℕ → ℕ → Bytes → Bytes
with_unit n unit name =
    itoa (tenths n unit / 10) ++ (codes "." ++ (itoa (tenths n unit % 10) ++ (codes " " ++ name)))

abbrev pub kilo : ℕ
kilo = 1024

unfoldable pub human_bytes : ℕ → Bytes
unfolding itoa
human_bytes n =
    if n == 0
    then codes "0 B"
    else if ltb n kilo
    then itoa n ++ codes " B"
    else if ltb n (kilo * kilo)
    then with_unit n kilo (codes "KB")
    else if ltb n (kilo * kilo * kilo)
    then with_unit n (kilo * kilo) (codes "MB")
    else if ltb n (kilo * kilo * kilo * kilo)
    then with_unit n (kilo * kilo * kilo) (codes "GB")
    else with_unit n (kilo * kilo * kilo * kilo) (codes "TB")

abbrev pub short_names : List (Bytes × Bytes)
short_names =
    (codes "anthropic", codes "ANTH")
    ∷ (codes "openai", codes "OAI")
    ∷ (codes "google", codes "GOOG")
    ∷ (codes "github copilot", codes "COPILOT")
    ∷ (codes "xai", codes "XAI")
    ∷ (codes "deepseek", codes "DEEPSEEK")
    ∷ (codes "mistral", codes "MISTRAL")
    ∷ (codes "groq", codes "GROQ")
    ∷ (codes "cerebras", codes "CEREBRAS")
    ∷ (codes "openrouter", codes "OROUTE")
    ∷ []

abbrev pub short_in : List (Bytes × Bytes) → Bytes → Bytes → Bytes
short_in [] name otherwise = otherwise
short_in ((n, s) ∷ rest) name otherwise = if same n name then s else short_in rest name otherwise

unfoldable pub provider_short : (Bytes → Bytes) → Bytes → Bytes
provider_short upper name =
    short_in short_names (to_lower name)
      (if ltb 6 (length name) then upper (take 6 name) else upper name)

abbrev pub stays : ℕ → Bool
stays c =
    leb b'a' c && leb c b'z'
    || (leb b'A' c && leb c b'Z' || (leb b'0' c && leb c b'9' || (c == b'_' || c == b'-')))

-- escapeForData, of the code points of a text.
unfoldable pub escape_for_data : List ℕ → Bytes
unfolding itoa
escape_for_data [] = []
escape_for_data (c ∷ s) =
    let rest = escape_for_data s in if stays c then c ∷ rest else codes "_" ++ (itoa c ++ rest)

eighty_minutes : human_duration (80 * minute) ≡ codes "1h 20m"
unfolding human_duration
eighty_minutes = refl

half_kilobytes : human_bytes 1536 ≡ codes "1.5 KB"
unfolding human_bytes
half_kilobytes = refl

-- Two names with one rendering.
escapes_alike : escape_for_data (codes "a b") ≡ escape_for_data (codes "a_32b")
unfolding escape_for_data
escapes_alike = refl
