-- ===== src/Opencode.antt =====
-- internal/opencode: the events and messages of the server (client.go), and two small functions of
-- invoker.go. Accumulator has msgAccumulator and Invoke the rest of invoker.go; Server is server.go
-- and Client the rest of client.go.
pub mod Auth
pub mod Server
pub mod Client
pub mod Invoke
pub mod Accumulator
pub mod Kept
pub mod Once
pub mod Reported
pub mod Outcomes
pub mod Served
pub mod Env
pub mod Spawn
mod Examples
mod SpawnTests
use espur.Base.{
  ℕ, zero, suc, ◌+◌, ◌/◌, ◌%◌, Bool, true, false, not, ◌&&◌, ◌||◌, List, [], ◌∷◌, ◌++◌, Option,
  none, some, Bytes, codes, same, is_empty, trim_space, join, length, last?, ltb, ◌==◌,
  if◌then◌else◌, is_some, lookup, insert, bytes_eq,
}
use espur.Vendor.{
  InvokeOutcome, invoke_unknown, invoke_success, invoke_timeout, invoke_crash, InvokeResult,
}

pub data EventType : Type 0 where
  message_part_updated message_updated session_error session_idle other_type : EventType

pub record EvtPart : Type 0 where
  pub id : Bytes
  pub message_id : Bytes
  pub type : Bytes
  pub text : Bytes

-- apiMsgInfo; `error` is raw JSON.
pub record MsgInfo : Type 0 where
  pub id : Bytes
  pub role : Bytes
  pub completed : ℕ
  pub error : Bytes

pub record Event : Type 0 where
  pub type : EventType
  pub part : Option EvtPart
  pub info : Option MsgInfo
  pub error : Bytes

-- apiPart and apiMessage.
pub record ApiPart : Type 0 where
  pub type : Bytes
  pub text : Bytes

pub record ApiMessage : Type 0 where
  pub info : MsgInfo
  pub parts : List ApiPart

-- apiMessage.text of client.go.
unfoldable pub message_text : List ApiPart → Bytes
message_text [] = []
message_text (p ∷ ps) =
    let rest = message_text ps in if same p.type (codes "text") then p.text ++ rest else rest

-- The JSON `null`, or nothing.
abbrev pub is_null : Bytes → Bool
is_null r = let s = trim_space r in is_empty s || same s (codes "null")

-- `none` stands for no slash, and an empty provider.
unfoldable pub split_model : Bytes → Bytes × Bytes
split_model model = elim (first_slash model) [
  | none ↦ ([], model)
  | some (provider, rest) ↦ (provider, rest)
]
  where
    first_slash : Bytes → Option (Bytes × Bytes)
    first_slash [] = none
    first_slash (c ∷ s) =
        let rest = first_slash s in
        if c == b'/'
        then some ([], s)
        else elim rest [ none ↦ none | some (p, m) ↦ some (c ∷ p, m) ]
