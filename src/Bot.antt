-- ===== src/Bot.antt =====
-- internal/bot: the core that turns an inbound message into replies. The events are those of
-- internal/adapter/adapter.go; the time of receipt, which nothing reads, is left out.
pub mod Queue
pub mod Dispatch
pub mod Abort
pub mod Reply
pub mod Turn
mod Examples
use espur.Base.{ℕ, Bool, List, [], ◌∷◌, ◌++◌, Bytes, codes}
use espur.Transcript.{Author}

pub record MessageEvent : Type 0 where
  pub platform : Bytes
  pub thread_id : Bytes
  pub platform_message_id : Bytes
  pub author : Author
  pub body : Bytes
  pub mention : Bool

-- `<platform>:<thread_id>`, the key of a thread's queue.
abbrev pub queue_key : MessageEvent → Bytes
queue_key m = m.platform ++ b':' ∷ m.thread_id

abbrev pub message_key : MessageEvent → Bytes
message_key m = m.platform ++ b':' ∷ m.platform_message_id
