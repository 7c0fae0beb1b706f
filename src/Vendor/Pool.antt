-- ===== src/Vendor/Pool.antt =====
-- internal/vendor/pool.go: the walk over the priority list. What lies outside the repository's Go
-- code, or runs beside the walk, is the record `Env`: the clock, the random jitter, whether a
-- database call fails, the decryption, the JSON decoder, and the invoker. Each is read at a program
-- point, a number that the world counts up, so that nothing is assumed to stay the same between two
-- readings. The invoker also returns the database as other turns left it meanwhile.
pub mod Walk
pub mod Cases
pub mod Order
pub mod Drained
pub mod Locks
pub mod Stream
pub mod Sink
use espur.Base.{
  ℕ, suc, ◌+◌, Bool, true, false, not, ◌||◌, List, [], ◌∷◌, ◌++◌, Option, none, some, Bytes, codes,
  same, is_empty, if◌then◌else◌,
}
use espur.Store.{Vendor, Penalty, PenaltyStatus, eligible, Db, vendor_scope}
use espur.Store.Vendors.{list_vendors, get_penalty, put_penalty, clear_penalty_on_success}
use espur.Store.Credentials.{get_credential}
use espur.Vendor.{
  FailureClass, class_none, InvokeOutcome, invoke_unknown, invoke_success, invoke_timeout,
  invoke_crash, InvokeResult, Outcome, outcome_unknown, outcome_success, outcome_timeout,
  outcome_all_drained, outcome_crash, Attempt, PenalizedSnapshot, Result,
}
use espur.Vendor.Penalty.{apply_failure, is_eligible}
use espur.Vendor.Classify.{Line, classify}

-- opencode.Request with its Vendor; `has_callback` stands for `OnMessage != nil`.
pub record Request : Type 0 where
  pub vendor_id : Bytes
  pub model : Bytes
  pub cred_env : List (Bytes × Bytes)
  pub work_dir : Bytes
  pub user_msg : Bytes
  pub timeout : ℕ
  pub has_callback : Bool

pub data PoolError : Type 0 where
  cancelled db_error credential_error invoke_error : PoolError

pub record Env : Type 0 where
  pub slot : Bool
  pub now : ℕ → ℕ
  pub fails : ℕ → Bool
  pub jitter : ℕ → ℕ → ℕ
  pub decrypt : ℕ → Bytes → Option Bytes
  pub decode : Bytes → Line
  pub invoke : ℕ → Request → Db → InvokeResult × Bool × Db

-- `sink` is what the stream callback works on; `calls` are the vendors that the invoker was called
-- for, in order.
pub record World (S : Type 0) : Type 0 where
  pub db : Db
  pub point : ℕ
  pub sink : S
  pub calls : List Bytes

-- What `Run` returns, and the world it leaves.
pub record Run (S : Type 0) : Type 0 where
  pub result : Result
  pub error : Option PoolError
  pub world : World S

-- One turn of the loop returns, or goes on.
pub data Turn (S : Type 0) : Type 0 where
  return : Run S → Turn S
  continue : Result → World S → Turn S

abbrev pub no_result : Result
no_result = record {
  outcome = outcome_unknown;
  vendor_id = [];
  text = [];
  crash_reason = [];
  attempts = [];
  penalized = [];
}

env_entries : Bytes → List Bytes → List (Bytes × Bytes)
env_entries plain [] = []
env_entries plain (k ∷ ks) =
    let rest = env_entries plain ks in if is_empty k then rest else (k, plain) ∷ rest

-- `none` is an error; a vendor with no credential gets no entries.
unfoldable pub load_cred_env : Env → ℕ → Bytes → Db → Option (List (Bytes × Bytes))
unfolding env_entries
load_cred_env env point vendor_id db =
    if env.fails point then none else elim (get_credential vendor_scope vendor_id db) [
      | none ↦ some []
      | some c ↦
          if is_empty c.blob || not (same c.status (codes "set"))
          then some []
          else elim (env.decrypt point c.blob) [
            | none ↦ none
            | some plain ↦ some (env_entries plain c.env_keys)
          ]
    ]

abbrev pub snapshot_of : Penalty → Bytes → PenalizedSnapshot
snapshot_of p vendor_id = record {
  vendor_id = vendor_id;
  status = p.status;
  cooldown_until = p.cooldown_until;
}

abbrev pub add_attempt : Result → Attempt → Result
add_attempt res att = record res { attempts = res.attempts ++ att ∷ [] }

abbrev pub add_penalized : Result → PenalizedSnapshot → Result
add_penalized res snap = record res { penalized = res.penalized ++ snap ∷ [] }

abbrev pub attempt_of : Bytes → InvokeResult → FailureClass → Attempt
attempt_of vendor_id oc class = record {
  vendor_id = vendor_id;
  outcome = oc.outcome;
  class = class;
  crash_reason = oc.crash_reason;
}

abbrev pub tick : {S : Type 0} → World S → World S
tick w = record w { point = suc w.point }

-- The messages of one invocation, handed to the callback one by one.
unfoldable pub feed : {S : Type 0} → (Bytes → Bytes → S → S) → Bytes → List Bytes → S → S
feed stream vendor_id [] s = s
feed stream vendor_id (text ∷ texts) s = feed stream vendor_id texts (stream vendor_id text s)

abbrev pub is_none : FailureClass → Bool
is_none class_none = true
is_none _ = false

abbrev pub credential_attempt : Bytes → Attempt
credential_attempt vendor_id = record {
  vendor_id = vendor_id;
  outcome = invoke_crash;
  class = class_none;
  crash_reason = codes "credential_load_failed";
}

-- For the web UI; a failed read gives an empty snapshot.
snapshots_of : Env → ℕ → List Vendor → Db → List PenalizedSnapshot
snapshots_of env point [] db = []
snapshots_of env point (v ∷ vs) db =
    (if env.fails point
      then record {
        vendor_id = v.vendor_id;
        status = PenaltyStatus.other [];
        cooldown_until = none;
      }
      else snapshot_of (get_penalty (env.now point) v.vendor_id db) v.vendor_id)
    ∷ snapshots_of env (suc point) vs db

unfoldable pub penalized_snapshots_all : Env → ℕ → Db → Option (List PenalizedSnapshot)
unfolding snapshots_of
penalized_snapshots_all env point db =
    if env.fails point then none else some (snapshots_of env (suc point) (list_vendors db) db)

-- The "Clear penalty" button.
unfoldable pub clear_penalty : ℕ → Bytes → Db → Db
clear_penalty now vendor_id db =
    put_penalty now
      (record {
        vendor_id = vendor_id;
        status = eligible;
        failure_streak = 0;
        cooldown_until = none;
        updated_at = now;
      })
      db
