-- ===== src/Opencode/Kept.antt =====
-- What the steps of the accumulator keep, a whole turn keeps.
use espur.Base.{
  Bool, not, ◌&&◌, List, [], ◌∷◌, Option, none, some, Bytes, if_rule, is_empty, same, ltb, codes,
}
use espur.Opencode.{
  EventType, message_part_updated, message_updated, session_error, session_idle, other_type,
  EvtPart, MsgInfo, Event, ApiMessage, message_text, is_null,
}
use espur.Opencode.Invoke.{
  Turn, note_error, handle_type, handle, is_idle, consume, consume_all, drain, drained, reconcile,
  SendResult, sent, send_error, Session, reconciled, listed,
}
use espur.Opencode.Accumulator.{
  MsgAccumulator, add_part, assemble, emit_text, is_assistant, take_part, take_info,
}

module _ (has_callback : Bool) (P : MsgAccumulator → Type 0)
    (emits : (mid text : Bytes) (a : MsgAccumulator) → P a → P (emit_text has_callback mid text a))
    (adds : (mid pid text : Bytes) (a : MsgAccumulator) → P a → P (add_part mid pid text a)) where
  take_part-kept : (p : EvtPart) (a : MsgAccumulator) → P a → P (take_part p a)
  take_part-kept p a h =
      if_rule P (same p.type (codes "text") && not (is_empty p.message_id))
        (λ _. adds p.message_id p.id p.text a h) (λ _. h)

  take_info-kept :
      (lossy : Bool) (i : MsgInfo) (a : MsgAccumulator) → P a → P (take_info has_callback lossy i a)
  take_info-kept lossy i a h =
      if_rule P (is_assistant i.role && ltb 0 i.completed && not (is_empty i.id) && not lossy)
        (λ _. emits i.id (assemble i.id a) a h) (λ _. h)

  note_error-kept : (error : Bytes) (t : Turn) → P t.acc → P (note_error error t).acc
  note_error-kept error t h =
      if_rule (λ (u : Turn). P u.acc) (not (is_null error)) (λ _. h) (λ _. h)

  handle_part-kept :
      (lossy : Bool) (part : Option EvtPart) (info : Option MsgInfo) (error : Bytes) (t : Turn)
      → P t.acc
      → P
          (handle_type message_part_updated has_callback lossy
            (record { type = message_part_updated; part = part; info = info; error = error })
            t).acc
  handle_part-kept lossy none info error t h = h
  handle_part-kept lossy (some p) info error t h = take_part-kept p t.acc h

  handle_info-kept :
      (lossy : Bool) (part : Option EvtPart) (info : Option MsgInfo) (error : Bytes) (t : Turn)
      → P t.acc
      → P
          (handle_type message_updated has_callback lossy
            (record { type = message_updated; part = part; info = info; error = error })
            t).acc
  handle_info-kept lossy part none error t h = h
  handle_info-kept lossy part (some i) error t h =
      note_error-kept i.error (record t { acc = take_info has_callback lossy i t.acc })
        (take_info-kept lossy i t.acc h)

  handle_type-kept :
      (type : EventType) (lossy : Bool) (ev : Event) (t : Turn)
      → P t.acc
      → P (handle_type type has_callback lossy ev t).acc
  handle_type-kept message_part_updated lossy ev t h =
      handle_part-kept lossy ev.part ev.info ev.error t h
  handle_type-kept message_updated lossy ev t h =
      handle_info-kept lossy ev.part ev.info ev.error t h
  handle_type-kept session_error lossy ev t h = note_error-kept ev.error t h
  handle_type-kept session_idle lossy ev t h = h
  handle_type-kept other_type lossy ev t h = h

  consume-kept : (e : Event × Bool) (t : Turn) → P t.acc → P (consume has_callback e t).acc
  unfolding handle
  consume-kept (ev, lossy) t h =
      if_rule (λ (u : Turn). P u.acc) (is_idle ev.type) (λ _. h)
        (λ _. handle_type-kept ev.type lossy ev t h)

  pub consume_all-kept :
      (es : List (Event × Bool)) (t : Turn) → P t.acc → P (consume_all has_callback es t).acc
  unfolding consume_all
  consume_all-kept [] t h = h
  consume_all-kept (e ∷ es) t h =
      consume_all-kept es (consume has_callback e t) (consume-kept e t h)

  drain-kept : (es : List (Event × Bool)) (t : Turn) → P t.acc → P (drain has_callback es t).acc
  unfolding drain
  drain-kept [] t h = h
  drain-kept (e ∷ es) t h =
      if_rule (λ (u : Turn). P u.acc) (is_idle e.0.type) (λ _. consume-kept e t h)
        (λ _. drain-kept es (consume has_callback e t) (consume-kept e t h))

  pub drained-kept :
      (es : List (Event × Bool)) (t : Turn) → P t.acc → P (drained has_callback es t).acc
  drained-kept es t h =
      if_rule (λ (u : Turn). P u.acc) (not t.idle_seen) (λ _. drain-kept es t h)
        (λ _. consume_all-kept es t h)

  pub reconcile-kept :
      (ms : List ApiMessage) (t : Turn) → P t.acc → P (reconcile has_callback ms t).acc
  unfolding reconcile
  reconcile-kept [] t h = h
  reconcile-kept (m ∷ ms) t h = reconcile-kept ms _ (
      if_rule (λ (u : Turn). P u.acc) (is_assistant m.info.role)
        (λ _. emits m.info.id (message_text m.parts) t.acc h) (λ _. h))

  reconciled-kept :
      (list : Option (List ApiMessage)) (u t : Turn)
      → P u.acc
      → P t.acc
      → P (reconciled has_callback u t list).acc
  reconciled-kept none u t g h = g
  reconciled-kept (some ms) u t g h = reconcile-kept ms t h

  pub listed-kept :
      (s : Session) (send : SendResult) (t : Turn) → P t.acc → P (listed has_callback s send t).acc
  listed-kept s (sent m) t h =
      reconciled-kept s.list _ t
        (if_rule (λ (u : Turn). P u.acc) (is_assistant m.info.role)
          (λ _. emits m.info.id (message_text m.parts) t.acc h) (λ _. h))
        h
  listed-kept s (send_error e) t h = reconciled-kept s.list t t h h
