-- ===== src/Opencode/Reported.antt =====
-- What the server reports of a turn is delivered, and once.
use espur.Base.{
  ◌≡◌, ◌⊎◌, Bool, true, false, List, [], ◌∷◌, Option, none, some, Bytes, is_empty, trim_space,
  if◌then◌else◌, bytes_eq,
}
use espur.Opencode.{ApiMessage, message_text}
use espur.Opencode.Invoke.{Turn, send_error, sent, SendResult}
use espur.Opencode.Accumulator.{MsgAccumulator, emit_text, emitted_at, is_assistant}

abbrev pub IsIn : Bytes → List Bytes → Type 0
IsIn k [] = ⊥
IsIn k (j ∷ js) = (j ≡ k) ⊎ IsIn k js

-- What is marked as delivered was delivered.
abbrev IsMarked : MsgAccumulator → Type 0
IsMarked a = (k : Bytes) → emitted_at k a.emitted ≡ true → IsIn k a.seq

module _ (has_callback : Bool) where
  -- An assistant's message with an id and a text.
  abbrev pub IsText : ApiMessage → Type 0
  IsText m =
      (is_assistant m.info.role ≡ true)
      × (is_empty m.info.id ≡ false)
      × (is_empty (trim_space (message_text m.parts)) ≡ false)

  abbrev pub IsDelivered : MsgAccumulator → ApiMessage → Type 0
  IsDelivered a m = IsText m → IsIn m.info.id a.seq

  -- What the server reports at the end of a turn: the list of messages, or where it cannot be read
  -- the message that answers the prompt.
  abbrev pub reported : Option (List ApiMessage) → SendResult → List ApiMessage
  reported (some ms) send = ms
  reported none (sent m) = m ∷ []
  reported none (send_error e) = []

  abbrev answer : ApiMessage → Turn → Turn
  answer m t =
      if is_assistant m.info.role
      then record t { acc = emit_text has_callback m.info.id (message_text m.parts) t.acc }
      else t
