-- ===== src/Connman/Seeded.antt =====
-- Migrate: it seeds once, and the old session ends up in the vault and not on the disk. AddDiscord.
use espur.Base.{
  ◌<◌, ◌≡◌, refl, ◌∙◌, sym, subst, ◌⊎◌, inl, inr, Bool, true, false, not, ◌&&◌, ◌||◌, ltb, length,
  [], ◌∷◌, Option, none, some, Bytes, codes, same, is_empty, trim_space, if_rule, if_true, if_false,
  is_some, bytes_eq, pair_eq, arith,
}
use espur.Store.{Connection, Db}
use espur.Store.Connections.{count_connections, count-put_connection}
use espur.Store.Credentials.{put_credential}
use espur.Connman.{Manager, kind_discord, kind_wechat}
use espur.Connman.Secrets.{
  Fault, World, stored, put_secret, save_session, platform_token, platform_session,
}
use espur.Connman.Calls.{
  Answer, new_connection, put_row, new_id, start, add_discord, and_then, with_db,
}
use espur.Connman.Migrate.{
  Seeding, counted, kept, step_then, removed, imported, session_read, seed_discord, seed_wechat,
  migrate,
}
use espur.Connman.Settled.{is_entered, IsSettled, Starts, start-Starts}

abbrev Result : Type 0
Result = Option Fault × Seeding

-- What was seeded stands in the table.
abbrev pub IsCounted : Seeding → Type 0
IsCounted s = 0 < s.seeded → 0 < count_connections s.db

connections-stored :
    (w : World) (id kind : Bytes) (blob : Option Bytes) (db : Db)
    → (stored w id kind blob db).1.connections ≡ db.connections
unfolding put_credential
connections-stored w id kind none db = refl
connections-stored w id kind (some blob) db =
    if_rule (λ (r : Option Fault × Db). r.1.connections ≡ db.connections) w.secret_fails (λ _. refl)
      (λ _. ground arith)

then-IsCounted :
    (r : Result) (k : Seeding → Result)
    → IsCounted r.1
    → ((s : Seeding) → IsCounted s → IsCounted (k s).1)
    → IsCounted (step_then r k).1
then-IsCounted (some e, s) k h next = h
then-IsCounted (none, s) k h next = next s h

stored-IsCounted :
    (w : World) (id kind : Bytes) (blob : Option Bytes) (s : Seeding)
    → IsCounted s
    → IsCounted (kept (stored w id kind blob s.db) s).1
unfolding count_connections
stored-IsCounted w id kind blob s h q =
    subst (λ t. 0 < length t) (sym (connections-stored w id kind blob s.db)) (h q)

put_row-IsCounted :
    (w : World) (c : Connection) (s : Seeding)
    → IsCounted s
    → IsCounted (counted (put_row w c s.db) s).1
put_row-IsCounted w c s h =
    if_rule (λ (r : Option Fault × Db). IsCounted (counted r s).1) w.row_fails (λ _. h)
      (λ _ _. count-put_connection w.now c s.db)

seed_discord-IsCounted :
    (w : World) (token : Bytes) (s : Seeding) → IsCounted s → IsCounted (seed_discord w token s).1
unfolding seed_discord put_secret
seed_discord-IsCounted w token s h =
    if_rule (λ (r : Result). IsCounted r.1) (is_empty (trim_space token)) (λ _. h)
      (λ _.
        then-IsCounted _ _ (stored-IsCounted w kind_discord platform_token _ s h)
          (put_row-IsCounted w (new_connection kind_discord kind_discord (codes "Discord"))))

removed-IsCounted : (w : World) (s : Seeding) → IsCounted s → IsCounted (removed w s).1
removed-IsCounted w s h =
    if_rule (λ (r : Result). IsCounted r.1) (not w.remove_fails) (λ _. h)
      (λ _. if_rule (λ (r : Result). IsCounted r.1) (not w.write_fails) (λ _. h) (λ _. h))

imported-IsCounted :
    (w : World) (file : Option Bytes) (s : Seeding) → IsCounted s → IsCounted (imported w file s).1
unfolding save_session
imported-IsCounted w none s h = h
imported-IsCounted w (some session) s h =
    if_rule (λ (r : Result). IsCounted r.1) (is_empty session) (λ _. h)
      (λ _.
        then-IsCounted _ _ (stored-IsCounted w kind_wechat platform_session _ s h)
          (removed-IsCounted w))

seed_wechat-IsCounted :
    (w : World) (enabled : Bool) (s : Seeding) → IsCounted s → IsCounted (seed_wechat w enabled s).1
unfolding seed_wechat
seed_wechat-IsCounted w enabled s h =
    if_rule (λ (r : Result). IsCounted r.1) (not enabled) (λ _. h)
      (λ _.
        then-IsCounted _ _ (imported-IsCounted w (session_read w s.legacy) s h)
          (put_row-IsCounted w (new_connection kind_wechat kind_wechat (codes "WeChat"))))

migrate-IsCounted :
    (w : World) (token : Bytes) (wechat : Bool) (legacy : Option Bytes) (db : Db)
    → IsCounted (migrate w token wechat legacy db).1
unfolding migrate
migrate-IsCounted w token wechat legacy db =
    let none_yet : IsCounted (record { db = db; legacy = legacy; seeded = 0 }) =
      λ q. omega (arith, q) in
    if_rule (λ (r : Result). IsCounted r.1) w.read_fails (λ _. none_yet)
      (λ _.
        if_rule (λ (r : Result). IsCounted r.1) (ltb 0 (count_connections db)) (λ _. none_yet)
          (λ _.
            then-IsCounted _ _ (seed_discord-IsCounted w token _ none_yet)
              (seed_wechat-IsCounted w wechat)))

-- Migration does not happen twice over stored connections: a run that seeded one, whether or not it
-- ended in an error, leaves a connection in the database; and as long as one is there, a run, with
-- whatever configuration, file and failures of writes, seeds nothing, returns no error and leaves the
-- database and the file as they are, if the database can be read. Once all connections are deleted a
-- later run may seed again.
pub migrate_once :
    (w later : World) (token again : Bytes) (wechat too : Bool) (legacy file : Option Bytes)
    (db db' : Db)
    → let s = (migrate w token wechat legacy db).1 in
      (0 < s.seeded → 0 < count_connections s.db)
      × (0 < count_connections db'
          → later.read_fails ≡ false
          → migrate later again too file db'
            ≡ (none, record { db = db'; legacy = file; seeded = 0 }))
unfolding migrate
migrate_once w later token again wechat too legacy file db db' = (
  migrate-IsCounted w token wechat legacy db,
  λ stored reads.
      if_false _ _ reads ∙ if_true {b = ltb 0 (count_connections db')} _ _ (ground arith),
)

abbrev pub IsClean : Option Bytes → Type 0
IsClean file = (file ≡ none) ⊎ (file ≡ some [])

abbrev CleanIfOk : Result → Type 0
CleanIfOk r = r.0 ≡ none → IsClean r.1.legacy

then-CleanIfOk :
    (r : Result) (k : Seeding → Result)
    → CleanIfOk r
    → ((s : Seeding) → IsClean s.legacy → CleanIfOk (k s))
    → CleanIfOk (step_then r k)
then-CleanIfOk (some e, s) k h next = λ q. absurd (ground arith)
then-CleanIfOk (none, s) k h next = next s (h refl)

always-CleanIfOk :
    (r : Result) (k : Seeding → Result)
    → ((s : Seeding) → CleanIfOk (k s))
    → CleanIfOk (step_then r k)
always-CleanIfOk (some e, s) k next = λ q. absurd (ground arith)
always-CleanIfOk (none, s) k next = next s

removed-CleanIfOk : (w : World) (s : Seeding) → CleanIfOk (removed w s)
removed-CleanIfOk w s =
    if_rule CleanIfOk (not w.remove_fails) (λ _ _. inl refl)
      (λ _. if_rule CleanIfOk (not w.write_fails) (λ _ _. inr refl) (λ _ q. absurd (ground arith)))

imported-CleanIfOk :
    (w : World) (s : Seeding) (file : Option Bytes)
    → s.legacy ≡ file
    → CleanIfOk (imported w file s)
imported-CleanIfOk w s none e = λ _. inl e
imported-CleanIfOk w s (some []) e = λ _. inr e
imported-CleanIfOk w s (some (c ∷ session)) e =
    always-CleanIfOk (kept (save_session w kind_wechat (c ∷ session) s.db) s) (removed w)
      (removed-CleanIfOk w)

seed_wechat-CleanIfOk :
    (w : World) (s : Seeding) → w.session_read_fails ≡ false → CleanIfOk (seed_wechat w true s)
unfolding seed_wechat
seed_wechat-CleanIfOk w s reads =
    then-CleanIfOk (imported w (session_read w s.legacy) s) _
      (subst (λ file. CleanIfOk (imported w file s)) (sym (if_false _ _ reads))
        (imported-CleanIfOk w s s.legacy refl))
      (λ t clean.
        row t (put_row w (new_connection kind_wechat kind_wechat (codes "WeChat")) t.db) clean)
  where
    row : (t : Seeding) (r : Option Fault × Db) → IsClean t.legacy → CleanIfOk (counted r t)
    row t (none, db) clean _ = clean
    row t (some e, db) clean q = absurd (ground arith)

-- A migration that returns no error leaves no readable session on the disk: where WeChat is enabled,
-- the database can be read and holds no connection yet, and the old session file can be read if it is
-- there, it is then absent or empty, whatever it held and whichever of the other calls failed.
pub migrate_leaves_no_plaintext :
    (w : World) (token : Bytes) (legacy : Option Bytes) (db : Db)
    → w.read_fails ≡ false
    → w.session_read_fails ≡ false
    → count_connections db ≡ 0
    → let r = migrate w token true legacy db in r.0 ≡ none → IsClean r.1.legacy
unfolding migrate
migrate_leaves_no_plaintext w token legacy db reads file_reads empty =
    subst CleanIfOk
      (sym (if_false _ _ reads ∙ if_false {b = ltb 0 (count_connections db)} _ _ (ground arith)))
      (always-CleanIfOk (seed_discord w token (record { db = db; legacy = legacy; seeded = 0 }))
        (seed_wechat w true) (λ s. seed_wechat-CleanIfOk w s file_reads))

-- What adding a connection leads to.
abbrev Adds : Connection → Manager → Answer → Type 0
Adds conn m a =
    IsSettled a.1
    × ((i : Bytes) → is_entered i a.1 ≡ (same conn.id i && not (is_some a.0) || is_entered i m))

module _ (conn : Connection) (m : Manager) where
  and_then-Adds :
      (r : Option Fault × Db) (t : Manager) (k : Manager → Answer)
      → ((db : Db) → Adds conn m (some Fault.database_failed, record t { db = db }))
      → ((db : Db) → Adds conn m (k (record t { db = db })))
      → Adds conn m (and_then (with_db r t) k)
  and_then-Adds (none, db) t k fails goes = goes db
  and_then-Adds (some e, db) t k fails goes = ((fails db).0, (fails db).1)

-- Adding a Discord connection gives all or says why not: a blank token is refused and changes nothing;
-- otherwise, with the manager booted and settled, what ran before runs, the new connection runs as
-- well exactly if no error is returned, and what is in the map is what is registered.
pub add_discord_lem :
    (w : World) (given : Bytes) (m : Manager)
    → IsSettled m
    → m.booted ≡ true
    → let a = add_discord w given m in
      (is_empty (trim_space given) ≡ true → a ≡ (some Fault.token_required, m))
      × Adds (new_connection (new_id w kind_discord) kind_discord (codes "Discord")) m a
unfolding add_discord
add_discord_lem w given m settled booted = (
  λ blank. if_true _ _ blank,
  if_rule (Adds conn m) (is_empty (trim_space given)) (λ _. (settled, λ i. ground arith))
      (λ _.
        and_then-Adds conn m (put_secret w conn.id platform_token (trim_space given) m.db) m _
          (λ db. failed db)
          (λ db.
            and_then-Adds conn m (put_row w conn db) (record m { db = db }) (start w conn)
              (λ db'. failed db') (λ db'. starts db'))),
)
  where
    conn : Connection
    conn = new_connection (new_id w kind_discord) kind_discord (codes "Discord")

    on_db : (db : Db) → IsSettled (record m { db = db })
    on_db db = record {
      posted = settled.posted;
      displayed = settled.displayed;
      ready = settled.ready;
    }

    failed : (db : Db) → Adds conn m (some Fault.database_failed, record m { db = db })
    failed db = (on_db db, λ i. ground arith)

    starts : (db : Db) → Adds conn m (start w conn (record m { db = db }))
    starts db =
        let s : Starts conn (record m { db = db })
            (not (is_some (start w conn (record m { db = db })).0))
            (start w conn (record m { db = db })).1 =
          start-Starts w conn (record m { db = db }) (on_db db) booted in
        (s.0, s.1)
