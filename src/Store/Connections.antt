-- ===== src/Store/Connections.antt =====
-- internal/store/connections.go: the configured adapter instances.
use espur.Base.{
  ℕ, ◌≡◌, ap, ◌≢◌, inl, inr, Bool, true, false, ◌||◌, ◌&&◌, List, [], ◌∷◌, Option, none, some,
  Bytes, same_iff, same_ne, ltb, ◌==◌, if◌then◌else◌, if_rule, same, ◌<◌, map_some, lookup, insert,
  delete, update, lookup-insert_self, lookup-delete_self, lookup-delete_ne, lookup-update, bytes_eq,
  pair_eq, length, arith, Option-cases,
}
use espur.Store.{Connection, ConnectionRow, Db, unix, from_unix, conn_scope}
use espur.Store.Credentials.{get_credential}

-- scanConnection.
abbrev pub connection_of : Bytes → ConnectionRow → Connection
connection_of id r = record {
  id = id;
  kind = r.kind;
  label = r.label;
  enabled = r.enabled;
  config = r.config;
  created_at = some (from_unix r.created_at);
  updated_at = from_unix r.updated_at;
}

-- The order of texts by their bytes.
text_lt : Bytes → Bytes → Bool
text_lt [] [] = false
text_lt [] (b ∷ s) = true
text_lt (a ∷ r) [] = false
text_lt (a ∷ r) (b ∷ s) = ltb a b || a == b && text_lt r s

-- `ORDER BY created_at, id`.
stands_before : Bytes × ConnectionRow → Bytes × ConnectionRow → Bool
stands_before (i, r) (j, s) =
    ltb r.created_at s.created_at || r.created_at == s.created_at && text_lt i j

insert_in_order :
    Bytes × ConnectionRow → List (Bytes × ConnectionRow) → List (Bytes × ConnectionRow)
insert_in_order c [] = c ∷ []
insert_in_order c (d ∷ ds) =
    let later = d ∷ insert_in_order c ds in if stands_before d c then later else c ∷ d ∷ ds

sort_connections : List (Bytes × ConnectionRow) → List (Bytes × ConnectionRow)
sort_connections [] = []
sort_connections (c ∷ cs) = insert_in_order c (sort_connections cs)

connections_of : List (Bytes × ConnectionRow) → List Connection
connections_of [] = []
connections_of ((id, r) ∷ m) = connection_of id r ∷ connections_of m

unfoldable pub list_connections : Db → List Connection
unfolding text_lt stands_before insert_in_order sort_connections connections_of
list_connections db = connections_of (sort_connections db.connections)

-- `none` is ErrNotFound.
unfoldable pub get_connection : Bytes → Db → Option Connection
get_connection id db = map_some (connection_of id) (lookup id db.connections)

unfoldable pub count_connections : Db → ℕ
count_connections db = length db.connections

abbrev proposed : ℕ → Connection → ConnectionRow
proposed now c = record {
  kind = c.kind;
  label = c.label;
  enabled = c.enabled;
  config = c.config;
  created_at = elim c.created_at [ none ↦ unix now | some t ↦ unix t ];
  updated_at = unix now;
}

-- On a conflict the time of creation stays.
unfoldable pub put_connection : ℕ → Connection → Db → Db
put_connection now c db = elim (lookup c.id db.connections) [
  | none ↦ record db { connections = insert c.id (proposed now c) db.connections }
  | some old ↦ record db {
    connections =
        insert c.id (record (proposed now c) { created_at = old.created_at }) db.connections;
  }
]

abbrev pub with_enabled : Bool → ℕ → ConnectionRow → ConnectionRow
with_enabled enabled now r = record r { enabled = enabled; updated_at = unix now }

abbrev pub with_label : Bytes → ℕ → ConnectionRow → ConnectionRow
with_label label now r = record r { label = label; updated_at = unix now }

unfoldable pub set_connection_enabled : ℕ → Bytes → Bool → Db → Db
set_connection_enabled now id enabled db = record db {
  connections = update id (with_enabled enabled now) db.connections;
}

unfoldable pub set_connection_label : ℕ → Bytes → Bytes → Db → Db
set_connection_label now id label db = record db {
  connections = update id (with_label label now) db.connections;
}

-- One transaction: the connection and its secret.
unfoldable pub delete_connection : Bytes → Db → Db
delete_connection id db = record db {
  connections = delete id db.connections;
  credentials = delete (conn_scope, id) db.credentials;
}

-- Deleting a connection takes its row and its secret, and no other connection's.
pub delete_connection_lem :
    (id other_id : Bytes) (db : Db)
    → id ≢ other_id
    → let db' = delete_connection id db in
      (get_connection id db' ≡ none)
      × (get_credential conn_scope id db' ≡ none)
      × (get_connection other_id db' ≡ get_connection other_id db)
      × (get_credential conn_scope other_id db' ≡ get_credential conn_scope other_id db)
unfolding delete_connection get_connection get_credential
delete_connection_lem id other_id db ne = (
  ground (arith, lookup-delete_self id db.connections),
  ground (arith, lookup-delete_self (conn_scope, id) db.credentials),
  ground (arith, lookup-delete_ne id other_id db.connections ne),
  ground (
    arith,
    lookup-delete_ne (conn_scope, id) (conn_scope, other_id) db.credentials
        (λ e. ne (ap (λ p. p.1) e)),
  ),
)

-- Storing a connection again keeps the time at which it was first stored.
pub get_connection-put_connection :
    (now : ℕ) (c old : Connection) (db : Db)
    → get_connection c.id db ≡ some old
    → get_connection c.id (put_connection now c db)
      ≡ some (record c { created_at = old.created_at; updated_at = from_unix (unix now) })
unfolding get_connection put_connection
get_connection-put_connection now c old db h = elim (Option-cases (lookup c.id db.connections)) [
  | inl e ↦ ground arith
  | inr (r, e) ↦
      let row : ConnectionRow = record (proposed now c) { created_at = r.created_at } in
      ground (arith, lookup-insert_self c.id row db.connections)
]

-- Switching a connection on or off changes its flag and its time of update, and nothing else of it;
-- other connections stay as they are.
pub get_connection-set_connection_enabled :
    (now : ℕ) (id other_id : Bytes) (enabled : Bool) (db : Db)
    → id ≢ other_id
    → let db' = set_connection_enabled now id enabled db in
      (get_connection id db'
        ≡ map_some
            (λ (c : Connection). record c { enabled = enabled; updated_at = from_unix (unix now) })
            (get_connection id db))
      × (get_connection other_id db' ≡ get_connection other_id db)
unfolding get_connection set_connection_enabled
get_connection-set_connection_enabled now id other_id enabled db ne = (
  ground (arith, lookup-update id id (with_enabled enabled now) db.connections, same_iff id id),
  ground (
    arith,
    lookup-update id other_id (with_enabled enabled now) db.connections,
    same_ne id other_id ne,
  ),
)

length-insert :
    (k : Bytes) (v : ConnectionRow) (m : List (Bytes × ConnectionRow)) → 0 < length (insert k v m)
unfolding insert
length-insert k v [] = omega arith
length-insert k v ((j, r) ∷ m) =
    if_rule (λ (t : List (Bytes × ConnectionRow)). 0 < length t) (same j k) (λ _. omega arith)
      (λ _. omega arith)

-- A table to which a connection was written is not empty.
pub count-put_connection :
    (now : ℕ) (c : Connection) (db : Db) → 0 < count_connections (put_connection now c db)
unfolding count_connections put_connection
count-put_connection now c db = elim (Option-cases (lookup c.id db.connections)) [
  | inl e ↦ ground (arith, length-insert c.id (proposed now c) db.connections)
  | inr (r, e) ↦
      let row : ConnectionRow = record (proposed now c) { created_at = r.created_at } in
      ground (arith, length-insert c.id row db.connections)
]
