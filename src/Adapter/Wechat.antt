-- ===== src/Adapter/Wechat.antt =====
-- internal/adapter/wechat/wechat.go: the session, inbound normalisation, the login and long-poll
-- loop, and Post. The iLink SDK and the JSON of a session are arguments.
pub mod Fuel
pub mod Sessions
pub mod FileStore
use espur.Base.{
  ℕ, suc, zero, ◌≡◌, Bool, true, false, not, ◌&&◌, ◌||◌, List, [], ◌∷◌, ◌++◌, Option, none, some,
  Bytes, codes, join, is_empty, trim_space, ◌==◌, length, if◌then◌else◌, lookup, insert, bytes_eq,
}
use espur.Transcript.{Author}
use espur.TextChunk.{split}
use espur.Bot.{MessageEvent}
use espur.Bot.Dispatch.{Event}
use espur.Adapter.Events.{Room, emit, Typings, pause_typing, resume_typing, platform_key}
use espur.Adapter.Send.{Platform, Wire, Posted, SendError, post_chunks}

abbrev pub max_chunk : ℕ
max_chunk = 1800

pub record Session : Type 0 where
  pub bot_token : Bytes
  pub bot_id : Bytes
  pub user_id : Bytes
  pub base_url : Bytes
  pub cursor : Bytes

abbrev pub no_session : Session
no_session = record { bot_token = []; bot_id = []; user_id = []; base_url = []; cursor = [] }

-- json.Marshal and json.Unmarshal of a session; the documents say that the second undoes the first.
pub record Json : Type 0 where
  pub encode : Session → Bytes
  pub decode : Bytes → Option Session
  pub decode-encode : (s : Session) → decode (encode s) ≡ some s

-- What the store holds, and whether its calls fail.
pub record Store : Type 0 where
  pub blob : Bytes
  pub load_fails : Bool
  pub save_fails : Bool

-- `started` says whether the client is set.
pub record Adapter : Type 0 where
  pub platform : Bytes
  pub started : Bool
  pub threads : List (Bytes × Bytes)
  pub typing_tickets : List (Bytes × Bytes)
  pub typing : Typings
  pub sess : Session
  pub events : List Event
  pub healthy : Bool
  pub store : Store

unfoldable pub new_adapter : Bytes → Store → Adapter
new_adapter key store = record {
  platform = platform_key key (codes "wechat");
  started = false;
  threads = [];
  typing_tickets = [];
  typing = record { active = []; states = []; next = 0 };
  sess = no_session;
  events = [];
  healthy = false;
  store = store;
}

abbrev pub session_or_none : Option Session → Session
session_or_none none = no_session
session_or_none (some s) = s

unfoldable pub load_session : Json → Store → Session
load_session j store =
    if store.load_fails
    then no_session
    else if is_empty store.blob
    then no_session
    else session_or_none (j.decode store.blob)

-- A save that fails is only logged, by every caller.
unfoldable pub save_session : Json → Session → Adapter → Adapter
save_session j s a =
    if a.store.save_fails then a else record a { store = record a.store { blob = j.encode s } }

unfoldable pub save_cursor : Json → Bytes → Adapter → Adapter
save_cursor j cursor a =
    let s = record a.sess { cursor = cursor } in save_session j s (record a { sess = s })

unfoldable pub clear_auth : Json → Adapter → Adapter
clear_auth j a = save_session j no_session (record a { sess = no_session })

pub data ItemType : Type 0 where
  item_text item_image item_video item_voice item_file : ItemType

-- The fields of the SDK's message that the code reads; `text` is what ExtractText gives, and
-- `message_id` the number in decimal.
pub record WeixinMessage : Type 0 where
  pub from_bot : Bool
  pub group_id : Bytes
  pub from_user_id : Bytes
  pub message_id : Bytes
  pub context_token : Bytes
  pub text : Bytes
  pub item_list : List ItemType

abbrev placeholder_of : ItemType → List Bytes
placeholder_of ItemType.item_text = []
placeholder_of ItemType.item_image = codes "[image]" ∷ []
placeholder_of ItemType.item_video = codes "[video]" ∷ []
placeholder_of ItemType.item_voice = codes "[voice]" ∷ []
placeholder_of ItemType.item_file = codes "[file]" ∷ []

abbrev placeholders : List ItemType → List Bytes
placeholders [] = []
placeholders (t ∷ ts) = placeholder_of t ++ placeholders ts

unfoldable pub media_placeholder : List ItemType → Bytes
media_placeholder items = join (codes " ") (placeholders items)

abbrev pub is_blank : ℕ → Bool
is_blank c = c == 0x09 || c == 0x0a || c == 0x0c || c == 0x0d || c == 0x20

-- Whether U+2005 stands at the start, in UTF-8.
abbrev pub at_space : Bytes → Bool
at_space (a ∷ b ∷ c ∷ s) = a == 0xe2 && b == 0x80 && c == 0x85
at_space s = false

-- The length of `[^\s\x{2005}]+` at the start, 0 where there is none, and what follows it.
unfoldable pub nickname : Bytes → ℕ × Bytes
nickname [] = (0, [])
nickname (c ∷ s) =
    let r = nickname s in if is_blank c || at_space (c ∷ s) then (0, c ∷ s) else (suc r.0, r.1)

abbrev pub without_space : Bytes → Bytes
without_space (a ∷ b ∷ c ∷ s) = if a == 0xe2 && b == 0x80 && c == 0x85 then s else a ∷ b ∷ c ∷ s
without_space s = s

-- mentionTrailer at the start, after its `@`: what follows the match.
unfoldable pub trailer : ℕ × Bytes → Option Bytes
trailer (zero, s) = none
trailer (suc n, s) = some (without_space s)

-- ReplaceAllString of mentionTrailer by nothing; the number of bytes is fuel enough.
unfoldable pub strip_trailers : ℕ → Bytes → Bytes
unfolding nickname trailer
strip_trailers zero s = s
strip_trailers (suc n) [] = []
strip_trailers (suc n) (c ∷ s) = elim (c == 0x40) [
  | false ↦ c ∷ strip_trailers n s
  | true ↦ elim (trailer (nickname s)) [
    | none ↦ c ∷ strip_trailers n s
    | some rest ↦ strip_trailers n rest
  ]
]

unfoldable pub normalize_body : Bytes → Bytes
unfolding strip_trailers
normalize_body content = trim_space (strip_trailers (length content) content)

unfoldable pub normalize_message : WeixinMessage → Bytes
unfolding normalize_body media_placeholder
normalize_message m =
    normalize_body (if is_empty m.text then media_placeholder m.item_list else m.text)

abbrev event_of : WeixinMessage → Adapter → MessageEvent
event_of m a = record {
  platform = a.platform;
  thread_id = m.from_user_id;
  platform_message_id = m.message_id;
  author = record { id = m.from_user_id; label = m.from_user_id };
  body = normalize_message m;
  mention = true;
}

abbrev pub with_token : WeixinMessage → Adapter → Adapter
with_token m a =
    if is_empty m.context_token
    then a
    else record a { threads = insert m.from_user_id m.context_token a.threads }

unfoldable pub on_message : Room → WeixinMessage → Adapter → Adapter
on_message room m a =
    if m.from_bot
    then a
    else if not (is_empty m.group_id)
    then a
    else (let a' = with_token m a in
        record a' { events = emit room (Event.message (event_of m a')) a'.events })

unfoldable pub lifecycle : Room → Bytes → Adapter → Adapter
lifecycle room kind a = record a { events = emit room (Event.lifecycle kind) a.events }

-- What LoginWithQR returns.
pub data Login : Type 0 where
  login_error : Login
  not_connected : Login
  logged_in : Session → Login

-- The calls that Monitor makes back; `returns` is its end, and says whether the parent context has
-- ended.
pub data Poll : Type 0 where
  message : WeixinMessage → Poll
  cursor : Bytes → Poll
  expired : Poll
  returns : Bool → Poll

unfoldable pub on_expired : Json → Room → Adapter → Adapter
unfolding clear_auth
on_expired j room a =
    clear_auth j (lifecycle room (codes "auth_revoked") (record a { healthy = false }))

-- The end of run after a Monitor that returned by itself.
abbrev pub monitor_ended : Room → Bool → Adapter → Adapter
monitor_ended room over a =
    let a' = record a { healthy = false } in
    if over then a' else lifecycle room (codes "disconnected") a'

-- Monitor, whose context is cancelled once the session has expired. A list that ends is a Monitor
-- that has not returned yet.
unfoldable pub monitor : Json → Room → List Poll → Adapter → Adapter
unfolding on_expired save_cursor lifecycle on_message
monitor j room [] a = a
monitor j room (message m ∷ ps) a = monitor j room ps (on_message room m a)
monitor j room (cursor c ∷ ps) a = monitor j room ps (save_cursor j c a)
monitor j room (expired ∷ ps) a = on_expired j room a
monitor j room (returns over ∷ ps) a = monitor_ended room over a

abbrev pub connected : Room → Session → Adapter → Adapter
connected room s a = lifecycle room (codes "connected") (record a { sess = s; healthy = true })

abbrev pub logged : Json → Room → Login → List Poll → Session → Adapter → Adapter
logged j room login_error ps s a =
    lifecycle room (codes "disconnected") (record a { healthy = false })
logged j room not_connected ps s a = lifecycle room (codes "auth_revoked") a
logged j room (logged_in t) ps s a =
    let s' = record t { cursor = s.cursor } in
    monitor j room ps (connected room s' (save_session j s' a))

unfoldable pub run : Json → Room → Login → List Poll → Adapter → Adapter
unfolding load_session lifecycle save_session monitor
run j room login ps a =
    let s = load_session j a.store in
    let a' = record a { started = true; sess = s } in
    if is_empty s.bot_token
    then logged j room login ps s a'
    else monitor j room ps (connected room s a')

abbrev pub refused_at_once : SendError → Wire → Posted × Wire
refused_at_once e w = (record { id = []; error = some e }, w)

-- The calls carry the context token of the thread.
abbrev pub with_token_of :
    (Bytes → Platform) → (ℕ → Bool) → Bytes → Wire → Option Bytes → Posted × Wire
with_token_of p over body w none = refused_at_once SendError.gone w
with_token_of p over body w (some token) =
    post_chunks true over (p token) 0 [] (split body max_chunk) w

abbrev posted : Option ℕ → Posted × Wire → Adapter → Posted × Wire × Adapter
posted found r a = (r.0, r.1, record a { typing = resume_typing found a.typing })

unfoldable pub post :
    (Bytes → Platform) → (ℕ → Bool) → Bytes → Bytes → Wire → Adapter → Posted × Wire × Adapter
post p over thread body w a =
    let found = lookup thread a.typing.active in
    posted found
      (if not a.started
        then refused_at_once SendError.not_started w
        else with_token_of p over body w (lookup thread a.threads))
      (record a { typing = pause_typing found a.typing })

-- StartTyping, in its goroutine: the ticket with which the loop runs, none where it does not run;
-- `config` is what GetConfig gives for a thread and its token, none for an error.
abbrev ticket_from : Bytes → Option Bytes → Adapter → Option Bytes × Adapter
ticket_from thread none a = (none, a)
ticket_from thread (some ticket) a =
    if is_empty ticket
    then (none, a)
    else (some ticket, record a { typing_tickets = insert thread ticket a.typing_tickets })

abbrev cached_or :
    (Bytes → Bytes → Option Bytes) → Bytes → Bytes → Option Bytes → Adapter → Option Bytes × Adapter
cached_or config thread token none a = ticket_from thread (config thread token) a
cached_or config thread token (some t) a =
    if is_empty t then ticket_from thread (config thread token) a else (some t, a)

abbrev ticket_with :
    (Bytes → Bytes → Option Bytes) → Bytes → Option Bytes → Adapter → Option Bytes × Adapter
ticket_with config thread none a = (none, a)
ticket_with config thread (some token) a =
    if not a.started
    then (none, a)
    else cached_or config thread token (lookup thread a.typing_tickets) a

unfoldable pub typing_ticket :
    (Bytes → Bytes → Option Bytes) → Bytes → Adapter → Option Bytes × Adapter
typing_ticket config thread a = ticket_with config thread (lookup thread a.threads) a
