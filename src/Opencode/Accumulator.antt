-- ===== src/Opencode/Accumulator.antt =====
-- internal/opencode/invoker.go: msgAccumulator, which puts the assistant's messages together.
use espur.Base.{
  ℕ, zero, suc, ◌+◌, ◌/◌, ◌%◌, Bool, true, false, not, ◌&&◌, ◌||◌, List, [], ◌∷◌, ◌++◌, none, some,
  Bytes, codes, same, is_empty, trim_space, ltb, ◌==◌, if◌then◌else◌, is_some, lookup, insert,
  bytes_eq,
}
use espur.Opencode.{EvtPart, MsgInfo}

-- `lossy` and the error of the session are state outside the accumulator in the source; `delivered`
-- is what went to onMessage.
pub record MsgAccumulator : Type 0 where
  pub parts : List (Bytes × List (Bytes × Bytes))
  pub order : List (Bytes × List Bytes)
  pub emitted : List (Bytes × Bool)
  pub seq : List Bytes
  pub by_id : List (Bytes × Bytes)
  pub ext_seq : ℕ
  pub delivered : List Bytes

abbrev pub new_msg_accumulator : MsgAccumulator
new_msg_accumulator = record {
  parts = [];
  order = [];
  emitted = [];
  seq = [];
  by_id = [];
  ext_seq = 0;
  delivered = [];
}

-- A missing key of a Go map.
abbrev pub parts_at : Bytes → List (Bytes × List (Bytes × Bytes)) → List (Bytes × Bytes)
parts_at mid m = elim (lookup mid m) [ none ↦ [] | some ps ↦ ps ]

abbrev pub order_at : Bytes → List (Bytes × List Bytes) → List Bytes
order_at mid m = elim (lookup mid m) [ none ↦ [] | some ps ↦ ps ]

abbrev pub text_at : Bytes → List (Bytes × Bytes) → Bytes
text_at k m = elim (lookup k m) [ none ↦ [] | some t ↦ t ]

abbrev pub emitted_at : Bytes → List (Bytes × Bool) → Bool
emitted_at mid m = elim (lookup mid m) [ none ↦ false | some b ↦ b ]

unfoldable pub add_part : Bytes → Bytes → Bytes → MsgAccumulator → MsgAccumulator
add_part mid pid text a =
    let ps = parts_at mid a.parts in
    let order =
      if not (is_some (lookup pid ps))
      then insert mid (order_at mid a.order ++ pid ∷ []) a.order
      else a.order in
    record a { parts = insert mid (insert pid text ps) a.parts; order = order }

unfoldable pub concat_parts : List Bytes → List (Bytes × Bytes) → Bytes
concat_parts [] ps = []
concat_parts (pid ∷ pids) ps = text_at pid ps ++ concat_parts pids ps

unfoldable pub assemble : Bytes → MsgAccumulator → Bytes
unfolding concat_parts
assemble mid a = concat_parts (order_at mid a.order) (parts_at mid a.parts)

-- The digits run on fuel, one more than the number.
unfoldable pub digits : ℕ → ℕ → Bytes → Bytes
digits zero n out = out
digits (suc fuel) n out =
    let rest = digits fuel (n / 10) ((b'0' + n % 10) ∷ out) in if n == 0 then out else rest

unfoldable pub itoa : ℕ → Bytes
unfolding digits
itoa n = if n == 0 then codes "0" else digits (suc n) n []

-- The message is known by an id that is not empty.
unfoldable pub emit_known : Bool → Bytes → Bytes → MsgAccumulator → MsgAccumulator
emit_known has_callback mid text a =
    if emitted_at mid a.emitted || is_empty (trim_space text) then a else record a {
      emitted = insert mid true a.emitted;
      seq = a.seq ++ mid ∷ [];
      by_id = insert mid text a.by_id;
      delivered = if has_callback then a.delivered ++ text ∷ [] else a.delivered;
    }

unfoldable pub emit_text : Bool → Bytes → Bytes → MsgAccumulator → MsgAccumulator
unfolding emit_known itoa
emit_text has_callback mid text a =
    if is_empty mid
    then emit_known has_callback (codes "__ext_" ++ itoa a.ext_seq) text
        (record a { ext_seq = suc a.ext_seq })
    else emit_known has_callback mid text a

abbrev pub is_assistant : Bytes → Bool
is_assistant role = same role (codes "assistant")

abbrev pub take_part : EvtPart → MsgAccumulator → MsgAccumulator
take_part p a =
    if same p.type (codes "text") && not (is_empty p.message_id)
    then add_part p.message_id p.id p.text a
    else a

abbrev pub take_info : Bool → Bool → MsgInfo → MsgAccumulator → MsgAccumulator
take_info has_callback lossy i a =
    if is_assistant i.role && ltb 0 i.completed && not (is_empty i.id) && not lossy
    then emit_text has_callback i.id (assemble i.id a) a
    else a
