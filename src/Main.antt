-- ===== src/Main.antt =====
-- cmd/espur/main.go: the settings, the boot up to the point where every part is built, and the
-- shutdown. What the parts answer are arguments.
pub mod Shutdown
pub mod Login
mod Examples
use espur.Base.{
  ℕ, ◌*◌, Bool, true, false, not, ◌&&◌, ◌||◌, List, [], ◌∷◌, ◌++◌, Option, none, some, Bytes, codes,
  same, is_empty, trim_space, to_lower, ltb, if◌then◌else◌,
}
use espur.Store.{Db, second}
use espur.Store.Credentials.{any_credential_blob}

abbrev pub exit_ok : ℕ
exit_ok = 0

abbrev pub exit_drain_exceeded : ℕ
exit_drain_exceeded = 1

abbrev pub exit_resource_close : ℕ
exit_resource_close = 2

abbrev pub exit_boot_failed : ℕ
exit_boot_failed = 3

-- os.Getenv, empty for a variable that is not set.
abbrev pub Environment : Type 0
Environment = Bytes → Bytes

unfoldable pub env_or : Environment → Bytes → Bytes → Bytes
env_or env k default_value = if is_empty (env k) then default_value else env k

abbrev pub or_else : Option ℕ → ℕ → ℕ
or_else none d = d
or_else (some n) d = n

-- `scan` is fmt.Sscanf with `%d`, for a number that is not negative.
unfoldable pub parse_int_or : (Bytes → Option ℕ) → Environment → Bytes → ℕ → ℕ
parse_int_or scan env k default_value =
    if is_empty (env k) then default_value else or_else (scan (env k)) default_value

-- `parse` is time.ParseDuration.
unfoldable pub parse_duration : (Bytes → Option ℕ) → Bytes → ℕ → ℕ
parse_duration parse s default_value =
    if is_empty s then default_value else or_else (parse s) default_value

pub data Level : Type 0 where
  debug info warn error : Level

-- newLogger's choice of the level.
unfoldable pub log_level : Bytes → Level
log_level level =
    if same (to_lower level) (codes "debug")
    then Level.debug
    else if same (to_lower level) (codes "warn")
    then Level.warn
    else if same (to_lower level) (codes "error")
    then Level.error
    else Level.info

pub record Settings : Type 0 where
  pub data_dir : Bytes
  pub xdg_data_home : Bytes
  pub web_port : Bytes
  pub level : Level
  pub dashboard_url : Bytes
  pub invoke_timeout : ℕ
  pub max_concurrent : ℕ
  pub drain_deadline : ℕ

-- The drain deadline is at least the timeout of an invocation.
abbrev pub at_least : ℕ → ℕ → ℕ
at_least drain invoke = if ltb drain invoke then invoke else drain

unfoldable pub settings : (Bytes → Option ℕ) → (Bytes → Option ℕ) → ℕ → Environment → Settings
unfolding env_or parse_int_or parse_duration log_level
settings parse scan default_concurrent env =
    let invoke = parse_duration parse (env (codes "ESPUR_OPENCODE_TIMEOUT")) (120 * second) in
    let data_dir = env_or env (codes "ESPUR_DATA_DIR") (codes "./data") in
    record {
      data_dir = data_dir;
      xdg_data_home =
          if is_empty (env (codes "XDG_DATA_HOME"))
          then data_dir ++ codes "/xdg-data"
          else env (codes "XDG_DATA_HOME");
      web_port = env_or env (codes "ESPUR_WEB_PORT") (codes "8080");
      level = log_level (env_or env (codes "ESPUR_LOG_LEVEL") (codes "info"));
      dashboard_url = env (codes "ESPUR_DASHBOARD_URL");
      invoke_timeout = invoke;
      max_concurrent =
          parse_int_or scan env (codes "ESPUR_OPENCODE_MAX_CONCURRENT") default_concurrent;
      drain_deadline =
          at_least (parse_duration parse (env (codes "ESPUR_SHUTDOWN_DRAIN")) (30 * second)) invoke;
    }

-- What the calls of the boot answer. `opens` is store.Open, `new_vault` secrets.New and `decrypts`
-- Vault.Decrypt with the vault of the given key.
pub record Host : Type 0 where
  pub makes_dirs : Bool
  pub opens : Option Db
  pub new_vault : Bytes → Bool
  pub decrypts : Bytes → Bytes → Bool

pub data Boot : Type 0 where
  no_master_key no_data_dir no_db : Boot
  bad_master_key self_test_failed : Boot
  booted : Db → Boot

abbrev pub blob_or_none : Option Bytes → Bytes
blob_or_none none = []
blob_or_none (some b) = b

-- Vault.SelfTest
unfoldable pub self_test : (Bytes → Bool) → Bytes → Bool
self_test decrypts blob = if is_empty blob then true else decrypts blob

abbrev pub with_vault : Host → Bytes → Option Db → Boot
with_vault h key none = Boot.no_db
with_vault h key (some db) =
    if not (h.new_vault key)
    then Boot.bad_master_key
    else if self_test (h.decrypts key) (blob_or_none (any_credential_blob db))
    then Boot.booted db
    else Boot.self_test_failed

-- run, up to the construction of the pool. Every outcome but the last is exit_boot_failed.
unfoldable pub boot : Host → Environment → Boot
unfolding self_test
boot h env =
    let key = trim_space (env (codes "ESPUR_MASTER_KEY")) in
    if is_empty key
    then Boot.no_master_key
    else if not h.makes_dirs
    then Boot.no_data_dir
    else with_vault h key h.opens
