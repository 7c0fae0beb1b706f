-- ===== src/Vendor.antt =====
-- internal/vendor: the failure classes, and what the pool takes from internal/opencode.
pub mod Penalty
pub mod Classify
pub mod Pool
mod Examples
use espur.Base.{ℕ, Bool, List, Option, Bytes}
use espur.Store.{PenaltyStatus}

pub data FailureClass : Type 0 where
  class_none class_rate_limit class_server_5xx class_auth : FailureClass

-- opencode.Outcome.
pub data InvokeOutcome : Type 0 where
  invoke_unknown invoke_success invoke_timeout invoke_crash : InvokeOutcome

-- opencode.Result, with the texts that went to `Request.OnMessage`, in order. The fields that
-- nothing reads are left out.
pub record InvokeResult : Type 0 where
  pub outcome : InvokeOutcome
  pub assistant_text : Bytes
  pub delivered : List Bytes
  pub streamed : Bool
  pub stdout : Bytes
  pub stderr : Bytes
  pub crash_reason : Bytes

-- vendor.Outcome.
pub data Outcome : Type 0 where
  outcome_unknown outcome_success outcome_timeout outcome_all_drained outcome_crash : Outcome

pub record Attempt : Type 0 where
  pub vendor_id : Bytes
  pub outcome : InvokeOutcome
  pub class : FailureClass
  pub crash_reason : Bytes

pub record PenalizedSnapshot : Type 0 where
  pub vendor_id : Bytes
  pub status : PenaltyStatus
  pub cooldown_until : Option ℕ

pub record Result : Type 0 where
  pub outcome : Outcome
  pub vendor_id : Bytes
  pub text : Bytes
  pub crash_reason : Bytes
  pub attempts : List Attempt
  pub penalized : List PenalizedSnapshot
