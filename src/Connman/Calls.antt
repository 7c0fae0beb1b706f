-- ===== src/Connman/Calls.antt =====
-- internal/connman/connman.go: the manager's operations, each run from its call to its return with
-- no other operation in between. The moves of several at a time are in Moves.
use espur.Base.{
  ℕ, ◌+◌, ◌/◌, ◌%◌, Bool, true, false, not, List, [], ◌∷◌, ◌++◌, Option, none, some, Bytes, codes,
  same, is_empty, trim_space, ltb, if◌then◌else◌, map, bytes_eq,
}
use espur.Store.{Connection, Db}
use espur.Store.Connections.{
  list_connections, get_connection, put_connection, set_connection_enabled, delete_connection,
}
use espur.Bot.Dispatch.{Event}
use espur.Connman.{
  Manager, Slot, Reservation, Taken, kind_discord, kind_wechat, state_connected, state_disconnected,
  state_auth_revoked, reserve, roll_back, check_ours, register, unregister, take_over, set_slot,
  with_adapter, with_state, cancel, closed, still_ours, running_slot, snapshot, healthy,
}
use espur.Connman.Secrets.{Fault, World, put_secret, build, derive_label, platform_token}

abbrev pub Answer : Type 0
Answer = Option Fault × Manager

-- The rest of an operation runs if no error came before.
abbrev pub and_then : Answer → (Manager → Answer) → Answer
and_then (some e, m) k = (some e, m)
and_then (none, m) k = k m

abbrev pub with_db : Option Fault × Db → Manager → Answer
with_db (e, db) m = (e, record m { db = db })

abbrev pub finished : Connection → ℕ → Manager → Manager
finished conn n m = if still_ours conn.id n m then register conn.id n m else m

abbrev pub started : World → Connection → ℕ → Manager → Answer
started w conn n m =
    if w.start_fails conn
    then (some Fault.start_failed, roll_back conn.id n (set_slot n cancel m))
    else (none, finished conn n (check_ours conn.id n m))

abbrev pub built : World → Connection → ℕ → Option Fault → Manager → Answer
built w conn n (some e) m = (some e, roll_back conn.id n m)
built w conn n none m = started w conn n (set_slot n with_adapter m)

abbrev pub launched : World → Connection → Reservation × Manager → Answer
launched w conn (Reservation.not_booted, m) = (some Fault.not_booted, m)
launched w conn (Reservation.already_running, m) = (none, m)
launched w conn (Reservation.reserved n, m) = built w conn n (build w conn m.db) m

unfoldable pub start : World → Connection → Manager → Answer
start w conn m = launched w conn (reserve conn m)

-- The wait for done ends when the cancelled adapter has closed its channel and fanIn has ended.
abbrev pub halted : Bytes → Taken × Manager → Manager
halted id (Taken.idle, m) = m
halted id (Taken.panics, m) = m
halted id (Taken.waiting n, m) = unregister id (set_slot n closed m)

unfoldable pub stop : Bytes → Manager → Manager
stop id m = halted id (take_over id m)

abbrev pub start_one : World → Connection → Manager → Manager
start_one w c m = if not c.enabled then m else (start w c m).1

unfoldable pub start_enabled : World → List Connection → Manager → Manager
start_enabled w [] m = m
start_enabled w (c ∷ cs) m = start_enabled w cs (start_one w c m)

unfoldable pub boot : World → Manager → Answer
boot w m =
    let m' = record m { booted = true } in
    if w.read_fails
    then (some Fault.database_failed, m')
    else (none, start_enabled w (list_connections m'.db) m')

abbrev pub hex_digit : ℕ → ℕ
hex_digit d = if ltb d 10 then 0x30 + d else 0x57 + d

abbrev pub hex : Bytes → Bytes
hex [] = []
hex (b ∷ s) = hex_digit (b / 16) ∷ hex_digit (b % 16) ∷ hex s

-- `w.random` is the three bytes of rand.Read.
unfoldable pub new_id : World → Bytes → Bytes
new_id w kind = kind ++ codes ":" ++ hex w.random

abbrev pub new_connection : Bytes → Bytes → Bytes → Connection
new_connection id kind label = record {
  id = id;
  kind = kind;
  label = label;
  enabled = true;
  config = [];
  created_at = none;
  updated_at = 0;
}

abbrev pub put_row : World → Connection → Db → Option Fault × Db
put_row w conn db =
    if w.row_fails then (some Fault.database_failed, db) else (none, put_connection w.now conn db)

unfoldable pub add_discord : World → Bytes → Manager → Answer
unfolding new_id
add_discord w given m =
    let token = trim_space given in
    let conn = new_connection (new_id w kind_discord) kind_discord (codes "Discord") in
    if is_empty token
    then (some Fault.token_required, m)
    else and_then (with_db (put_secret w conn.id platform_token token m.db) m)
        (λ m'. and_then (with_db (put_row w conn m'.db) m') (start w conn))

unfoldable pub add_wechat : World → Manager → Answer
unfolding new_id
add_wechat w m =
    let conn = new_connection (new_id w kind_wechat) kind_wechat (codes "WeChat") in
    and_then (with_db (put_row w conn m.db) m) (start w conn)

abbrev pub set_enabled : World → Bytes → Bool → Manager → Answer
set_enabled w id enabled m =
    if w.row_fails
    then (some Fault.database_failed, m)
    else (none, record m { db = set_connection_enabled w.now id enabled m.db })

abbrev pub enabled_found : World → Bytes → Option Connection → Manager → Answer
enabled_found w id none m = (some Fault.not_found, m)
enabled_found w id (some conn) m =
    and_then (set_enabled w id true m) (start w (record conn { enabled = true }))

unfoldable pub enable : World → Bytes → Manager → Answer
enable w id m =
    if w.read_fails
    then (some Fault.database_failed, m)
    else enabled_found w id (get_connection id m.db) m

unfoldable pub disable : World → Bytes → Manager → Answer
disable w id m = set_enabled w id false (stop id m)

-- Delete
unfoldable pub remove : World → Bytes → Manager → Answer
remove w id m =
    let m' = stop id m in
    if w.row_fails
    then (some Fault.database_failed, m')
    else (none, record m' { db = delete_connection id m'.db })

abbrev pub lifecycle_state : World → Connection → ℕ → Bytes → Manager → Manager
lifecycle_state w conn n kind m =
    if same kind (codes "connected")
    then (let m' = set_slot n (with_state state_connected []) m in
        record m' { db = derive_label w conn m'.db })
    else if same kind (codes "disconnected")
    then set_slot n (with_state state_disconnected []) m
    else if same kind (codes "auth_revoked")
    then set_slot n (with_state state_auth_revoked []) m
    else m

abbrev pub after_lifecycle : World → Connection → ℕ → Event → Manager → Manager
after_lifecycle w conn n (Event.lifecycle kind) m = lifecycle_state w conn n kind m
after_lifecycle w conn n (Event.message e) m = m

-- `panics` says that the bot core panics on the event: the panic is caught, and nothing is handed on.
unfoldable pub handle_event : World → Bool → Connection → ℕ → Event → Manager → Manager
handle_event w panics conn n ev m =
    let m' = after_lifecycle w conn n ev m in
    if panics then m' else record m' { handed = ev ∷ m'.handed }

pub record ConnInfo : Type 0 where
  pub id : Bytes
  pub kind : Bytes
  pub label : Bytes
  pub enabled : Bool
  pub state : Bytes
  pub qr : Bytes
  pub healthy : Bool

abbrev pub info : (Bytes → Bool) → Connection → Option Slot → ConnInfo
info adapter_healthy c r = record {
  id = c.id;
  kind = c.kind;
  label = c.label;
  enabled = c.enabled;
  state = (snapshot r).0;
  qr = (snapshot r).1;
  healthy = healthy adapter_healthy r;
}

-- List, where the database answers.
unfoldable pub list : (Bytes → Bool) → Manager → List ConnInfo
list adapter_healthy m =
    map (λ (c : Connection). info adapter_healthy c (running_slot c.id m)) (list_connections m.db)
