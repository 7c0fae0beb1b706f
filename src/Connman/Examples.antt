-- ===== src/Connman/Examples.antt =====
-- Runs of the connection manager.
use espur.Base.{
  ◌<◌, ◌≡◌, refl, ◌↔◌, true, false, List, [], ◌∷◌, none, some, codes, lookup, insert, delete,
  update, bytes_eq, trim_space, same, arith,
}
use espur.Store.{Connection, Db}
use espur.Store.Connections.{count_connections, put_connection}
use espur.Store.Credentials.{put_credential, upsert_credential, get_credential}
use espur.Connman.{
  Manager, Slot, Phase, Taken, new_manager, take_over, check_ours, kind_discord, register,
  still_ours, reserve, set_slot, with_adapter, unregister, closed,
}
use espur.Connman.Secrets.{World, Session, load_session, save_session}
use espur.Connman.Calls.{new_connection, new_id}
use espur.Connman.Migrate.{migrate, seed_discord, seed_wechat, Seeding}
use espur.Connman.Moves.{Step, Runs, IsCalm, find}
use espur.Connman.Single.{stop_panics_iff, overtaken_start_aborts}
use espur.Connman.Settled.{IsSettled}
use espur.Connman.Plan.{Request, serve_all, promise_all, view, Agree, serve_all-promise_all}
use espur.Connman.Seeded.{migrate_once, migrate_leaves_no_plaintext, IsClean}

abbrev no_db : Db
no_db = record { vendors = []; credentials = []; penalty = []; dedup = []; connections = [] }

-- A vault that marks its texts, with everything else at work.
abbrev sunny : World
sunny = record {
  now = 1000000000;
  encrypt = λ s. some (1 ∷ s);
  decrypt = λ s. elim s [ [] ↦ none | c ∷ t ↦ some t ];
  bot_id = λ s. some s;
  random = 0x0a ∷ 0xff ∷ 0x10 ∷ [];
  read_fails = false;
  secret_fails = false;
  row_fails = false;
  session_read_fails = false;
  new_discord_fails = λ _. false;
  new_wechat_fails = false;
  start_fails = λ _. false;
  remove_fails = false;
  write_fails = false;
}

abbrev chat : Connection
chat = new_connection (codes "wechat") (codes "wechat") (codes "WeChat")

-- The third byte of an id is written in two digits.
new_id_test : new_id sunny kind_discord ≡ codes "discord:0aff10"
unfolding new_id
new_id_test = refl

-- A new manager, booted, with one connection reserved, and then built.
abbrev booted_on : Db → Manager
booted_on db = record (new_manager db) { booted = true }

abbrev m1 : Manager
m1 = booted_on no_db

abbrev m2 : Manager
m2 = (reserve chat m1).1

abbrev m3 : Manager
m3 = set_slot 0 with_adapter m2

abbrev m4 : Manager
m4 = (take_over chat.id m3).1

abbrev to_m2 : Runs (new_manager no_db) m2
to_m2 = Runs.moves (Runs.moves Runs.rest Step.boots) (Step.reserves chat)

abbrev slot2 : Slot
slot2 = record {
  conn = chat;
  phase = Phase.building;
  cancel_set = false;
  cancelled = false;
  done = false;
  ad = false;
  state = codes "starting";
  qr = [];
}

find-slot2 : find 0 m2 ≡ some slot2
unfolding new_manager reserve lookup insert
find-slot2 = refl

to_m4 : Runs (new_manager no_db) m4
unfolding new_manager reserve lookup insert update set_slot take_over
to_m4 =
    Runs.moves (Runs.moves to_m2 (Step.builds 0 slot2 find-slot2 refl))
      (Step.stops chat.id (λ e. absurd (ground arith)))

abbrev slot4 : Slot
slot4 = record slot2 { phase = Phase.starting; ad = true; cancel_set = true; cancelled = true }

find-slot4 : find 0 m4 ≡ some slot4
unfolding new_manager reserve lookup insert update set_slot take_over same
find-slot4 = refl

runs_chat : lookup chat.id m2.running ≡ some 0
unfolding new_manager reserve lookup insert same
runs_chat = refl

calm2 : IsCalm to_m2
calm2 = ((tt, tt), tt)

calm4 : IsCalm to_m4
unfolding to_m4
calm4 = ((((tt, tt), tt), tt), tt)

stop_panics_iff_example :
    ((take_over chat.id m2).0 ≡ Taken.panics)
    ↔ ((s : Slot) × (find 0 m2 ≡ some s) × (s.phase ≡ Phase.building))
stop_panics_iff_example = stop_panics_iff no_db m2 chat.id 0 to_m2 calm2 runs_chat

overtaken_start_aborts_example :
    let m' = check_ours chat.id 0 m4 in
    (find 0 m' ≡ some (closed slot4)) × (m'.posters ≡ m4.posters) × (m'.shown ≡ m4.shown)
overtaken_start_aborts_example = overtaken_start_aborts no_db m4 0 slot4 to_m4 calm4 find-slot4 refl

-- What a migration of a WeChat session leaves.
abbrev seeding : Seeding
seeding = (migrate sunny [] true (some (codes "old")) no_db).1

seeds_one : (migrate sunny [] true (some (codes "old")) no_db).0 ≡ none × seeding.seeded ≡ 1
unfolding migrate seed_discord seed_wechat count_connections trim_space save_session
seeds_one = (refl, refl)

-- The session is then in the vault.
load_session_test : load_session sunny (codes "wechat") seeding.db ≡ Session.loaded (codes "old")
unfolding migrate seed_discord seed_wechat count_connections trim_space save_session load_session
    put_credential upsert_credential put_connection get_credential lookup insert same
load_session_test = refl

migrate_once_example :
    (0 < count_connections seeding.db)
    × (migrate sunny (codes "token") true (some (codes "new")) seeding.db
        ≡ (none, record { db = seeding.db; legacy = some (codes "new"); seeded = 0 }))
migrate_once_example =
    let both =
      migrate_once sunny sunny [] (codes "token") true true (some (codes "old"))
        (some (codes "new")) no_db seeding.db in
    let stored = both.0 (omega (arith, seeds_one.1)) in (stored, both.1 stored refl)

migrate_leaves_no_plaintext_example : IsClean seeding.legacy
unfolding count_connections
migrate_leaves_no_plaintext_example =
    migrate_leaves_no_plaintext sunny [] (some (codes "old")) no_db refl refl no_rows seeds_one.0
  where
    no_rows : count_connections no_db ≡ 0
    no_rows = refl

new_manager-IsSettled : (db : Db) → IsSettled (booted_on db)
unfolding new_manager lookup
new_manager-IsSettled db = record {
  posted = λ id. refl;
  displayed = λ id. refl;
  ready = λ id n e. absurd (ground arith);
}

abbrev requests : List (World × Request)
requests =
    (sunny, Request.enables chat.id)
    ∷ (sunny, Request.disables chat.id)
    ∷ (sunny, Request.removes (codes "discord"))
    ∷ []

serve_all-promise_all_example :
    let a = serve_all requests (booted_on seeding.db) in
    Agree (view a.1) (promise_all a.0 requests (view (booted_on seeding.db))) × IsSettled a.1
serve_all-promise_all_example =
    serve_all-promise_all requests (booted_on seeding.db) (new_manager-IsSettled seeding.db) refl
      ((refl, refl), ((refl, refl), ((refl, refl), tt)))

-- A stop that waits while the connection is started again: what it unregisters at its end is the new
-- adapter, so that the connection runs and no answer can be posted to it.
abbrev m5 : Manager
m5 = register chat.id 1 (check_ours chat.id 1 (set_slot 1 with_adapter (reserve chat m4).1))

raced : let m' = unregister chat.id m5 in (lookup chat.id m'.running ≡ some 1) × (m'.posters ≡ [])
unfolding new_manager reserve lookup insert update delete set_slot take_over check_ours register
    unregister same still_ours
raced = (refl, refl)
