-- ===== src/Opencode/Client.antt =====
-- internal/opencode/client.go: the requests of a connection and the stream of events, from its lines
-- to the sessions that listen. HTTP and JSON are arguments.
pub mod Stream
mod Examples
use espur.Base.{
  ℕ, ◌*◌, Bool, true, false, not, ◌&&◌, ◌||◌, List, [], ◌∷◌, ◌++◌, Option, none, some, Bytes, codes,
  same, is_empty, has_prefix, trim_space, length, take, drop, ltb, leb, ◌==◌, if◌then◌else◌, lookup,
  insert, delete, update, bytes_eq, map_some,
}
use espur.Opencode.{Event, EventType, ApiMessage}

-- What the transport gives for a method, a path and a body: none for an error, else a status and a
-- body.
abbrev pub Transport : Type 0
Transport = Bytes → Bytes → Option Bytes → Option (ℕ × Bytes)

pub data Failure : Type 0 where
  transport_failed : Failure
  http_error : ℕ → Bytes → Failure
  bad_json empty_id : Failure

pub data Result {ℓ} (A : Type ℓ) : Type ℓ where
  failed : Failure → Result A
  done : A → Result A

abbrev pub body_limit : ℕ
body_limit = 8 * 1024 * 1024

abbrev pub decoded {ℓ} : {A : Type ℓ} → Option A → Result A
decoded none = failed Failure.bad_json
decoded (some a) = done a

abbrev pub answered {ℓ} : {A : Type ℓ} → (Bytes → Option A) → A → Option (ℕ × Bytes) → Result A
answered decode zero_value none = failed Failure.transport_failed
answered decode zero_value (some (status, body)) =
    let text = take body_limit body in
    if ltb status 200 || leb 300 status
    then failed (Failure.http_error status text)
    else if is_empty (trim_space text)
    then done zero_value
    else decoded (decode text)

-- doJSON; `zero_value` is what `out` holds where nothing is decoded into it.
unfoldable pub do_json {ℓ} :
    {A : Type ℓ} → Transport → (Bytes → Option A) → A → Bytes → Bytes → Option Bytes → Result A
do_json http decode zero_value method path body = answered decode zero_value (http method path body)

abbrev pub with_id : Result Bytes → Result Bytes
with_id (failed f) = failed f
with_id (done id) = if is_empty id then failed Failure.empty_id else done id

-- `decode` reads the field id, and `escape` is url.QueryEscape.
unfoldable pub create_session :
    Transport → (Bytes → Option Bytes) → (Bytes → Bytes) → Bytes → Result Bytes
create_session http decode escape dir =
    let path =
      if is_empty dir then codes "/session" else codes "/session?directory=" ++ escape dir in
    with_id (do_json http decode [] (codes "POST") path (some (codes "{}")))

unfoldable pub send_message :
    Transport → (Bytes → Option ApiMessage) → ApiMessage → Bytes → Bytes → Result ApiMessage
send_message http decode zero_value sid body =
    do_json http decode zero_value (codes "POST") (codes "/session/" ++ sid ++ codes "/message")
      (some body)

unfoldable pub list_messages :
    Transport → (Bytes → Option (List ApiMessage)) → Bytes → Result (List ApiMessage)
list_messages http decode sid =
    do_json http decode [] (codes "GET") (codes "/session/" ++ sid ++ codes "/message?limit=200")
      none

unfoldable pub abort : Transport → Bytes → Result Bytes
abort http sid =
    do_json http (λ b. some b) [] (codes "POST") (codes "/session/" ++ sid ++ codes "/abort")
      (some (codes "{}"))

abbrev pub is_up : Result Bool → Bool
is_up (failed f) = false
is_up (done b) = b

-- `decode` reads the field healthy.
unfoldable pub healthy : Transport → (Bytes → Option Bool) → Bool
healthy http decode = is_up (do_json http decode false (codes "GET") (codes "/global/health") none)

-- The room of a listener's channel.
abbrev pub room : ℕ
room = 256

-- A listener: `waiting` is the channel, oldest first, and `taken` what the turn has read from it.
pub record Listener : Type 0 where
  pub waiting : List Event
  pub taken : List Event
  pub dropped : Bool

abbrev pub new_listener : Listener
new_listener = record { waiting = []; taken = []; dropped = false }

abbrev pub Listeners : Type 0
Listeners = List (Bytes × Listener)

unfoldable pub subscribe : Bytes → Listeners → Listeners
subscribe sid ls = insert sid new_listener ls

unfoldable pub unsubscribe : Bytes → Listeners → Listeners
unsubscribe sid ls = delete sid ls

unfoldable pub offer : Event → Listener → Listener
offer ev l =
    if ltb (length l.waiting) room
    then record l { waiting = l.waiting ++ ev ∷ [] }
    else record l { dropped = true }

-- route; the update of an absent listener does nothing.
unfoldable pub route : Bytes → Event → Listeners → Listeners
unfolding offer
route sid ev ls = if is_empty sid then ls else update sid (offer ev) ls

-- The turn reads one event, if there is one.
unfoldable pub take_one : Listener → Listener
take_one l = elim l.waiting [
  | [] ↦ l
  | ev ∷ rest ↦ record l { waiting = rest; taken = l.taken ++ ev ∷ [] }
]

-- A payload of the stream, parsed: its type, its session and the event.
pub record Envelope : Type 0 where
  pub type : Bytes
  pub session_id : Bytes
  pub event : Event

abbrev pub is_routed : Bytes → Bool
is_routed t =
    same t (codes "message.part.updated")
    || (same t (codes "message.updated")
        || (same t (codes "session.error") || same t (codes "session.idle")))

abbrev pub routed : Option Envelope → Listeners → Listeners
routed none ls = ls
routed (some e) ls = if is_routed e.type then route e.session_id e.event ls else ls

unfoldable pub dispatch : (Bytes → Option Envelope) → Bytes → Listeners → Listeners
dispatch parse payload ls = routed (parse payload) ls

abbrev pub after_prefix : Bytes → Bytes → Bytes
after_prefix p s = if has_prefix s p then drop (length p) s else s

-- One line of the stream: a payload that is complete, and what is gathered for the next.
abbrev pub read_line : Bytes → Bytes → Option Bytes × Bytes
read_line line gathered =
    if has_prefix line (codes "data:")
    then (none, gathered ++ after_prefix (codes " ") (after_prefix (codes "data:") line))
    else if is_empty line
    then ((if is_empty gathered then none else some gathered), [])
    else (none, gathered)

abbrev pub push : Option Bytes → List Bytes → List Bytes
push none ps = ps
push (some p) ps = p ∷ ps

-- The payloads of the lines of a stream.
unfoldable pub payloads : List Bytes → Bytes → List Bytes
payloads [] gathered = []
payloads (line ∷ ls) gathered =
    push (read_line line gathered).0 (payloads ls (read_line line gathered).1)

unfoldable pub dispatch_all : (Bytes → Option Envelope) → List Bytes → Listeners → Listeners
dispatch_all parse [] ls = ls
dispatch_all parse (p ∷ ps) ls = dispatch_all parse ps (dispatch parse p ls)

-- streamOnce, of a response with a status and its lines; none for a request that failed.
unfoldable pub stream_once :
    (Bytes → Option Envelope) → Option (ℕ × List Bytes) → Listeners → Listeners
stream_once parse none ls = ls
stream_once parse (some (status, lines)) ls =
    if not (status == 200) then ls else dispatch_all parse (payloads lines []) ls

-- One round of runSSE: whether the connection is open at its start, what the stream gives, and
-- whether the connection ends in it or in the pause behind it.
pub record Round : Type 0 where
  pub opened : Bool
  pub response : Option (ℕ × List Bytes)
  pub ends : Bool

unfoldable pub run_sse : (Bytes → Option Envelope) → List Round → Listeners → Listeners
unfolding stream_once
run_sse parse [] ls = ls
run_sse parse (r ∷ rs) ls =
    let after = stream_once parse r.response ls in
    let rest = run_sse parse rs after in if not r.opened then ls else if r.ends then after else rest
