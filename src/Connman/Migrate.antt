-- ===== src/Connman/Migrate.antt =====
-- internal/connman/connman.go: Migrate, the connections of the old environment variables.
use espur.Base.{
  ℕ, ◌+◌, Bool, not, ltb, [], Option, none, some, Bytes, codes, is_empty, trim_space, if◌then◌else◌,
}
use espur.Store.{Db}
use espur.Store.Connections.{count_connections}
use espur.Connman.{kind_discord, kind_wechat}
use espur.Connman.Secrets.{Fault, World, put_secret, save_session, platform_token}
use espur.Connman.Calls.{new_connection, put_row}

-- `legacy` is the plaintext session file, none where it is absent.
pub record Seeding : Type 0 where
  pub db : Db
  pub legacy : Option Bytes
  pub seeded : ℕ

abbrev pub counted : Option Fault × Db → Seeding → Option Fault × Seeding
counted (none, db) s = (none, record s { db = db; seeded = s.seeded + 1 })
counted (some e, db) s = (some e, record s { db = db })

abbrev pub kept : Option Fault × Db → Seeding → Option Fault × Seeding
kept (e, db) s = (e, record s { db = db })

abbrev pub step_then :
    Option Fault × Seeding → (Seeding → Option Fault × Seeding) → Option Fault × Seeding
step_then (some e, s) k = (some e, s)
step_then (none, s) k = k s

unfoldable pub seed_discord : World → Bytes → Seeding → Option Fault × Seeding
seed_discord w given s =
    let token = trim_space given in
    if is_empty token
    then (none, s)
    else step_then (kept (put_secret w kind_discord platform_token token s.db) s) (λ s'.
      counted (put_row w (new_connection kind_discord kind_discord (codes "Discord")) s'.db) s')

-- The file is removed, or else emptied, or else the boot fails.
abbrev pub removed : World → Seeding → Option Fault × Seeding
removed w s =
    if not w.remove_fails
    then (none, record s { legacy = none })
    else if not w.write_fails
    then (none, record s { legacy = some [] })
    else (some Fault.plaintext_left, s)

abbrev pub imported : World → Option Bytes → Seeding → Option Fault × Seeding
imported w none s = (none, s)
imported w (some session) s =
    if is_empty session
    then (none, s)
    else step_then (kept (save_session w kind_wechat session s.db) s) (removed w)

-- os.ReadFile, whose failure is taken for a file that is absent.
abbrev pub session_read : World → Option Bytes → Option Bytes
session_read w file = if w.session_read_fails then none else file

unfoldable pub seed_wechat : World → Bool → Seeding → Option Fault × Seeding
seed_wechat w enabled s =
    if not enabled
    then (none, s)
    else step_then (imported w (session_read w s.legacy) s) (λ s'.
      counted (put_row w (new_connection kind_wechat kind_wechat (codes "WeChat")) s'.db) s')

-- The number returned is `seeded`.
unfoldable pub migrate : World → Bytes → Bool → Option Bytes → Db → Option Fault × Seeding
unfolding seed_discord seed_wechat
migrate w token wechat legacy db =
    let s : Seeding = record { db = db; legacy = legacy; seeded = 0 } in
    if w.read_fails
    then (some Fault.database_failed, s)
    else if ltb 0 (count_connections db)
    then (none, s)
    else step_then (seed_discord w token s) (seed_wechat w wechat)
