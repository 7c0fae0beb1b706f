-- ===== src/Store.antt =====
-- internal/store: the tables of the database. A table with a primary key is an association list
-- over the key. Times are nanoseconds since the epoch; a row holds whole seconds, as the schema
-- does. The timestamps of the vendor rows, which nothing reads, are left out. A statement that
-- fails changes nothing; failures are the callers' matter (see Vendor and Bot).
pub mod Vendors
pub mod Credentials
pub mod Connections
pub mod Dedup
mod Examples
use espur.Base.{ℕ, ◌*◌, ◌/◌, Bool, List, [], Option, Bytes, codes}

abbrev pub second : ℕ
second = 1000000000

-- time.Time.Unix and time.Unix(s, 0).
abbrev pub unix : ℕ → ℕ
unix t = t / second

abbrev pub from_unix : ℕ → ℕ
from_unix s = s * second

pub record Vendor : Type 0 where
  pub vendor_id : Bytes
  pub model : Bytes
  pub enabled : Bool
  pub position : ℕ
  pub cred_kind : Bytes

-- The type is a string in the source; `other` stands for any text but the three constants.
pub data PenaltyStatus : Type 0 where
  eligible cooldown auth_locked : PenaltyStatus
  other : Bytes → PenaltyStatus

pub record Penalty : Type 0 where
  pub vendor_id : Bytes
  pub status : PenaltyStatus
  pub failure_streak : ℕ
  pub cooldown_until : Option ℕ
  pub updated_at : ℕ

-- A row of the table `penalty`; its times are seconds.
pub record PenaltyRow : Type 0 where
  pub status : PenaltyStatus
  pub failure_streak : ℕ
  pub cooldown_until : Option ℕ
  pub updated_at : ℕ

-- `created_at` is none for the zero time.
pub record Credential : Type 0 where
  pub scope : Bytes
  pub id : Bytes
  pub kind : Bytes
  pub status : Bytes
  pub blob : Bytes
  pub env_keys : List Bytes
  pub created_at : Option ℕ
  pub updated_at : ℕ

pub record CredentialRow : Type 0 where
  pub kind : Bytes
  pub status : Bytes
  pub blob : Bytes
  pub env_keys : Bytes
  pub created_at : ℕ
  pub updated_at : ℕ

pub record Connection : Type 0 where
  pub id : Bytes
  pub kind : Bytes
  pub label : Bytes
  pub enabled : Bool
  pub config : Bytes
  pub created_at : Option ℕ
  pub updated_at : ℕ

pub record ConnectionRow : Type 0 where
  pub kind : Bytes
  pub label : Bytes
  pub enabled : Bool
  pub config : Bytes
  pub created_at : ℕ
  pub updated_at : ℕ

pub record Db : Type 0 where
  pub vendors : List (Bytes × Vendor)
  pub credentials : List ((Bytes × Bytes) × CredentialRow)
  pub penalty : List (Bytes × PenaltyRow)
  pub dedup : List ((Bytes × Bytes) × ℕ)
  pub connections : List (Bytes × ConnectionRow)

-- The database after the migrations of a first boot.
abbrev pub empty_db : Db
empty_db = record { vendors = []; credentials = []; penalty = []; dedup = []; connections = [] }

abbrev pub vendor_scope : Bytes
vendor_scope = codes "vendor"

-- ConnScope.
abbrev pub conn_scope : Bytes
conn_scope = codes "connection"
