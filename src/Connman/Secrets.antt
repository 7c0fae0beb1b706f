-- ===== src/Connman/Secrets.antt =====
-- internal/connman: what the manager does with the stored secrets (putSecret, build, deriveLabel,
-- session_store.go) and the calls that leave its code.
use espur.Base.{
  ℕ, Bool, not, [], ◌++◌, Option, none, some, Bytes, codes, same, is_empty, if◌then◌else◌,
}
use espur.Store.{Connection, Credential, Db, conn_scope}
use espur.Store.Credentials.{get_credential, put_credential}
use espur.Store.Connections.{set_connection_label}
use espur.Connman.{kind_discord, kind_wechat}

-- The errors that the operations return.
pub data Fault : Type 0 where
  not_booted no_token decrypt_failed encrypt_failed no_adapter start_failed : Fault
  unknown_kind token_required not_found database_failed plaintext_left : Fault

-- What the manager's operations meet: the vault, the database, the packages of the platforms, the
-- random bytes and the file system. `bot_id` reads the field bot_id of a session, none for a text
-- that does not parse.
pub record World : Type 0 where
  pub now : ℕ
  pub encrypt : Bytes → Option Bytes
  pub decrypt : Bytes → Option Bytes
  pub bot_id : Bytes → Option Bytes
  pub random : Bytes
  pub read_fails : Bool
  pub session_read_fails : Bool
  pub secret_fails : Bool
  pub row_fails : Bool
  pub new_discord_fails : Bytes → Bool
  pub new_wechat_fails : Bool
  pub start_fails : Connection → Bool
  pub remove_fails : Bool
  pub write_fails : Bool

abbrev pub platform_token : Bytes
platform_token = codes "platform_token"

abbrev pub platform_session : Bytes
platform_session = codes "platform_session"

abbrev pub secret_row : Bytes → Bytes → Bytes → Credential
secret_row id kind blob = record {
  scope = conn_scope;
  id = id;
  kind = kind;
  status = codes "set";
  blob = blob;
  env_keys = [];
  created_at = none;
  updated_at = 0;
}

abbrev pub stored : World → Bytes → Bytes → Option Bytes → Db → Option Fault × Db
stored w id kind none db = (some Fault.encrypt_failed, db)
stored w id kind (some blob) db =
    if w.secret_fails
    then (some Fault.database_failed, db)
    else (none, put_credential w.now (secret_row id kind blob) db)

unfoldable pub put_secret : World → Bytes → Bytes → Bytes → Db → Option Fault × Db
put_secret w id kind plaintext db = stored w id kind (w.encrypt plaintext) db

-- vaultSessionStore.Save
unfoldable pub save_session : World → Bytes → Bytes → Db → Option Fault × Db
save_session w id blob db = stored w id platform_session (w.encrypt blob) db

pub data Session : Type 0 where
  failed : Fault → Session
  absent : Session
  loaded : Bytes → Session

abbrev pub decrypted : Option Bytes → Session
decrypted none = Session.failed Fault.decrypt_failed
decrypted (some blob) = Session.loaded blob

abbrev pub session_of : World → Option Credential → Session
session_of w none = Session.absent
session_of w (some cred) =
    if is_empty cred.blob then Session.absent else decrypted (w.decrypt cred.blob)

-- vaultSessionStore.Load
unfoldable pub load_session : World → Bytes → Db → Session
load_session w id db =
    if w.read_fails
    then Session.failed Fault.database_failed
    else session_of w (get_credential conn_scope id db)

abbrev pub labelled : World → Connection → Option Bytes → Db → Db
labelled w conn none db = db
labelled w conn (some bot) db =
    if is_empty bot
    then db
    else if w.row_fails
    then db
    else set_connection_label w.now conn.id (codes "WeChat " ++ bot) db

abbrev pub derive_from : World → Connection → Session → Db → Db
derive_from w conn (failed e) db = db
derive_from w conn absent db = db
derive_from w conn (loaded blob) db =
    if is_empty blob then db else labelled w conn (w.bot_id blob) db

unfoldable pub derive_label : World → Connection → Db → Db
derive_label w conn db =
    if not (same conn.kind kind_wechat)
    then db
    else derive_from w conn (load_session w conn.id db) db

abbrev pub discord_adapter : World → Option Bytes → Option Fault
discord_adapter w none = some Fault.decrypt_failed
discord_adapter w (some token) = if w.new_discord_fails token then some Fault.no_adapter else none

abbrev pub discord_from : World → Option Credential → Option Fault
discord_from w none = some Fault.no_token
discord_from w (some cred) = discord_adapter w (w.decrypt cred.blob)

-- Whether an adapter can be made for a connection; none is success.
unfoldable pub build : World → Connection → Db → Option Fault
build w conn db =
    if same conn.kind kind_discord
    then (if w.read_fails
        then some Fault.no_token
        else discord_from w (get_credential conn_scope conn.id db))
    else if same conn.kind kind_wechat
    then (if w.new_wechat_fails then some Fault.no_adapter else none)
    else some Fault.unknown_kind
