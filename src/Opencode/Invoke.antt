-- ===== src/Opencode/Invoke.antt =====
-- internal/opencode/invoker.go: Invoke, one turn against the vendor's server. What the server and the
-- clock do is the record `Session`: the errors of the first calls, the events that the loop takes
-- before the answer to the prompt, the answer, or none if the deadline or a cancellation comes first,
-- the events that are taken after it, and the list of messages. With each event comes whether the
-- stream has lost one by then.
use espur.Base.{
  Bool, true, false, not, ◌&&◌, List, [], ◌∷◌, ◌++◌, Option, none, some, Bytes, codes, is_empty,
  join, length, last?, ltb, ◌==◌, if◌then◌else◌, bytes_eq,
}
use espur.Vendor.{InvokeOutcome, invoke_success, invoke_timeout, invoke_crash, InvokeResult}
use espur.Opencode.{
  ApiMessage, Event, EventType, is_null, message_part_updated, message_text, message_updated,
  other_type, session_error, session_idle,
}
use espur.Opencode.Accumulator.{
  MsgAccumulator, add_part, assemble, emit_text, is_assistant, new_msg_accumulator, take_info,
  take_part, text_at,
}

-- The accumulator, the error of the session, and whether the end of the turn was seen.
pub record Turn : Type 0 where
  pub acc : MsgAccumulator
  pub sess_err : Bytes
  pub idle_seen : Bool

abbrev pub note_error : Bytes → Turn → Turn
note_error error t = if not (is_null error) then record t { sess_err = error } else t

abbrev pub handle_type : EventType → Bool → Bool → Event → Turn → Turn
handle_type message_part_updated has_callback lossy ev t = elim ev.part [
  | none ↦ t
  | some p ↦ record t { acc = take_part p t.acc }
]
handle_type message_updated has_callback lossy ev t = elim ev.info [
  | none ↦ t
  | some i ↦ note_error i.error (record t { acc = take_info has_callback lossy i t.acc })
]
handle_type session_error has_callback lossy ev t = note_error ev.error t
handle_type session_idle has_callback lossy ev t = t
handle_type other_type has_callback lossy ev t = t

unfoldable pub handle : Bool → Bool → Event → Turn → Turn
unfolding add_part emit_text assemble
handle has_callback lossy ev t = handle_type ev.type has_callback lossy ev t

abbrev pub is_idle : EventType → Bool
is_idle session_idle = true
is_idle _ = false

-- One event of the loop before the answer.
abbrev pub consume : Bool → Event × Bool → Turn → Turn
consume has_callback (ev, lossy) t =
    if is_idle ev.type then record t { idle_seen = true } else handle has_callback lossy ev t

unfoldable pub consume_all : Bool → List (Event × Bool) → Turn → Turn
unfolding handle
consume_all has_callback [] t = t
consume_all has_callback (e ∷ es) t = consume_all has_callback es (consume has_callback e t)

-- The events that are taken after the answer: through the end of the turn if it was not seen.
unfoldable pub drain : Bool → List (Event × Bool) → Turn → Turn
unfolding handle
drain has_callback [] t = t
drain has_callback (e ∷ es) t =
    let rest = drain has_callback es (consume has_callback e t) in
    if is_idle e.0.type then consume has_callback e t else rest

abbrev pub drained : Bool → List (Event × Bool) → Turn → Turn
drained has_callback es t =
    if not t.idle_seen then drain has_callback es t else consume_all has_callback es t

-- The reconcile with the list of messages.
unfoldable pub reconcile : Bool → List ApiMessage → Turn → Turn
unfolding emit_text message_text
reconcile has_callback [] t = t
reconcile has_callback (m ∷ ms) t =
    let error =
      if is_null t.sess_err && not (is_null m.info.error) then m.info.error else t.sess_err in
    reconcile has_callback ms (
      if is_assistant m.info.role
      then record t {
        acc = emit_text has_callback m.info.id (message_text m.parts) t.acc;
        sess_err = error;
      }
      else t)

-- The answer to the prompt: a message, or the text of an error.
pub data SendResult : Type 0 where
  sent : ApiMessage → SendResult
  send_error : Bytes → SendResult

pub record Session : Type 0 where
  pub acquire_error : Option Bytes
  pub create_error : Option Bytes
  pub live : List (Event × Bool)
  pub send : Option SendResult
  pub trailing : List (Event × Bool)
  pub list : Option (List ApiMessage)

abbrev pub send_parts : SendResult → List Bytes
send_parts (send_error e) = e ∷ []
send_parts (sent m) =
    if not (is_null m.info.error) then (codes "message error: " ++ m.info.error) ∷ [] else []

-- After an answer; `gotSend` is true wherever the source calls this.
unfoldable pub classify_failure : Bytes → SendResult → Bytes
classify_failure sess_err send = join (0x0a ∷ []) (
    (if not (is_null sess_err) then (codes "session error: " ++ sess_err) ∷ [] else [])
    ++ send_parts send)

unfoldable pub texts_of : List Bytes → List (Bytes × Bytes) → List Bytes
texts_of [] m = []
texts_of (mid ∷ mids) m = text_at mid m ∷ texts_of mids m

abbrev pub messages : MsgAccumulator → List Bytes
messages a = texts_of a.seq a.by_id

abbrev pub last_text : List Bytes → Bytes
last_text texts = elim (last? texts) [ none ↦ [] | some t ↦ t ]

abbrev pub result_of : InvokeOutcome → Bytes → Bytes → MsgAccumulator → InvokeResult
result_of outcome stderr crash_reason a = record {
  outcome = outcome;
  assistant_text = last_text (messages a);
  delivered = a.delivered;
  streamed = ltb 0 (length a.seq);
  stdout = [];
  stderr = stderr;
  crash_reason = crash_reason;
}

abbrev pub failed_start : Bytes → Bytes → InvokeResult × Bool
failed_start reason error = (result_of invoke_crash error reason new_msg_accumulator, true)

abbrev pub reconciled : Bool → Turn → Turn → Option (List ApiMessage) → Turn
reconciled has_callback fallback t none = fallback
reconciled has_callback fallback t (some ms) = reconcile has_callback ms t

-- The list of messages, or where it cannot be read the message of the answer.
abbrev pub listed : Bool → Session → SendResult → Turn → Turn
listed has_callback s (send_error e) t = reconciled has_callback t t s.list
listed has_callback s (sent m) t =
    reconciled has_callback
      (if is_assistant m.info.role
        then record t { acc = emit_text has_callback m.info.id (message_text m.parts) t.acc }
        else t)
      t s.list

abbrev pub verdict : Bytes → MsgAccumulator → InvokeResult × Bool
verdict err_text a =
    if not (is_empty err_text)
    then (result_of invoke_crash err_text (codes "vendor_error") a, true)
    else if length (messages a) == 0
    then (result_of invoke_crash [] (codes "no_assistant_text") a, false)
    else (result_of invoke_success [] [] a, false)

abbrev pub new_turn : Turn
new_turn = record { acc = new_msg_accumulator; sess_err = []; idle_seen = false }

unfoldable pub finish : Bool → Session → SendResult → Turn → InvokeResult × Bool
unfolding reconcile drain consume_all classify_failure
finish has_callback s send t =
    let u = listed has_callback s send (drained has_callback s.trailing t) in
    verdict (classify_failure u.sess_err send) u.acc

abbrev pub after_live : Bool → Session → Option SendResult → Turn → InvokeResult × Bool
after_live has_callback s none t = (result_of invoke_timeout [] [] t.acc, false)
after_live has_callback s (some send) t = finish has_callback s send t

abbrev pub started : Bool → Session → Option Bytes → InvokeResult × Bool
started has_callback s (some error) = failed_start (codes "session_create_failed") error
started has_callback s none =
    after_live has_callback s s.send (consume_all has_callback s.live new_turn)

abbrev pub acquired : Bool → Session → Option Bytes → InvokeResult × Bool
acquired has_callback s (some error) = failed_start (codes "server_unavailable") error
acquired has_callback s none = started has_callback s s.create_error

-- The result, and whether the call returned an error.
unfoldable pub invoke : Bool → Session → InvokeResult × Bool
unfolding finish consume_all
invoke has_callback s = acquired has_callback s s.acquire_error
