-- ===== src/Store/Credentials.antt =====
-- internal/store/credentials.go: one encrypted secret for each scope and id.
use espur.Base.{
  ℕ, ◌≡◌, refl, ◌≢◌, inl, inr, not, List, [], ◌∷◌, Option, none, some, Bytes, same, same_iff,
  is_empty, if◌then◌else◌, lookup, insert, lookup-insert_self, lookup-insert_ne, pair_eq, bytes_eq,
  All, All-map, arith, Option-cases, join, split_at, split_at-join,
}
use espur.Store.{Credential, CredentialRow, Db, eligible, unix, from_unix, conn_scope}
use espur.Store.Vendors.{clear_row, get_penalty}

abbrev comma : ℕ
comma = 0x2c

-- The empty column is no key, and not one empty key.
unfoldable pub read_env_keys : Bytes → List Bytes
read_env_keys s = if is_empty s then [] else split_at comma s

unfoldable pub write_env_keys : List Bytes → Bytes
write_env_keys ks = join (comma ∷ []) ks

-- `none` is ErrNotFound.
unfoldable pub get_credential : Bytes → Bytes → Db → Option Credential
get_credential scope id db = elim (lookup (scope, id) db.credentials) [
  | none ↦ none
  | some r ↦ some (record {
    scope = scope;
    id = id;
    kind = r.kind;
    status = r.status;
    blob = r.blob;
    env_keys = read_env_keys r.env_keys;
    created_at = some (from_unix r.created_at);
    updated_at = from_unix r.updated_at;
  })
]

-- The row that the INSERT proposes.
abbrev excluded : ℕ → Credential → CredentialRow
excluded now c = record {
  kind = c.kind;
  status = c.status;
  blob = c.blob;
  env_keys = write_env_keys c.env_keys;
  created_at = elim c.created_at [ none ↦ unix now | some t ↦ unix t ];
  updated_at = unix now;
}

-- On a conflict the time of creation stays.
unfoldable pub upsert_credential :
    ℕ → Credential → List ((Bytes × Bytes) × CredentialRow) → List ((Bytes × Bytes) × CredentialRow)
upsert_credential now c m = elim (lookup (c.scope, c.id) m) [
  | none ↦ insert (c.scope, c.id) (excluded now c) m
  | some old ↦ insert (c.scope, c.id) (record (excluded now c) { created_at = old.created_at }) m
]

unfoldable pub put_credential : ℕ → Credential → Db → Db
unfolding upsert_credential
put_credential now c db = record db { credentials = upsert_credential now c db.credentials }

-- One transaction: the credential, and for all but a connection's the penalty.
unfoldable pub put_credential_clear_penalty : ℕ → Credential → Db → Db
unfolding upsert_credential
put_credential_clear_penalty now c db =
    let db' = record db { credentials = upsert_credential now c db.credentials } in
    if not (same c.scope conn_scope)
    then record db' { penalty = insert c.id (clear_row now) db.penalty }
    else db'

first_blob : List ((Bytes × Bytes) × CredentialRow) → Option Bytes
first_blob [] = none
first_blob ((k, r) ∷ m) = let rest = first_blob m in if is_empty r.blob then rest else some r.blob

-- `LIMIT 1` with no order; here the first.
unfoldable pub any_credential_blob : Db → Option Bytes
unfolding first_blob
any_credential_blob db = first_blob db.credentials

-- A key list that the column can hold: no empty key, and no comma in a key.
abbrev pub IsPlain : Bytes → Type 0
IsPlain k = (k ≢ []) × All (λ c. c ≢ 0x2c) k

read_env_keys-write_env_keys :
    (ks : List Bytes) → All IsPlain ks → read_env_keys (write_env_keys ks) ≡ ks
unfolding read_env_keys write_env_keys join
read_env_keys-write_env_keys [] h = refl
read_env_keys-write_env_keys ([] ∷ ks) h = absurd (h.0.0 refl)
read_env_keys-write_env_keys ((c ∷ k) ∷ []) h =
    split_at-join comma (c ∷ k) [] (All-map IsPlain _ ((c ∷ k) ∷ []) (λ _ p. p.1) h)
read_env_keys-write_env_keys ((c ∷ k) ∷ l ∷ ks) h =
    split_at-join comma (c ∷ k) (l ∷ ks) (All-map IsPlain _ ((c ∷ k) ∷ l ∷ ks) (λ _ p. p.1) h)

-- The time of creation that a write leaves, given what was read before it.
abbrev pub creation : ℕ → Option ℕ → Option Credential → Option ℕ
creation now given (some old) = old.created_at
creation now none none = some (from_unix (unix now))
creation now (some t) none = some (from_unix (unix t))

-- A credential is read back as it was written, if its key names are not empty and hold no comma;
-- its time of creation is that of the row that was there, or for a new row the one given or the
-- time of the write, in whole seconds. No other credential changes.
pub get_credential-put_credential :
    (now : ℕ) (c : Credential) (scope id : Bytes) (db : Db)
    → All IsPlain c.env_keys
    → ◌≢◌ {A = Bytes × Bytes} (c.scope, c.id) (scope, id)
    → let db' = put_credential now c db in
      (get_credential c.scope c.id db'
        ≡ some (record c {
          created_at = creation now c.created_at (get_credential c.scope c.id db);
          updated_at = from_unix (unix now);
        }))
      × (get_credential scope id db' ≡ get_credential scope id db)
unfolding get_credential put_credential upsert_credential
get_credential-put_credential now c scope id db plain ne =
    elim (Option-cases (lookup (c.scope, c.id) db.credentials)) [
      | inl e ↦ (
        ground (
          arith,
          lookup-insert_self (c.scope, c.id) (excluded now c) db.credentials,
          read_env_keys-write_env_keys c.env_keys plain,
        ),
        ground (
          arith,
          lookup-insert_ne (c.scope, c.id) (scope, id) (excluded now c) db.credentials ne,
        ),
      )
      | inr (r, e) ↦
          let row : CredentialRow = record (excluded now c) { created_at = r.created_at } in
          (
            ground (
              arith,
              lookup-insert_self (c.scope, c.id) row db.credentials,
              read_env_keys-write_env_keys c.env_keys plain,
            ),
            ground (arith, lookup-insert_ne (c.scope, c.id) (scope, id) row db.credentials ne),
          )
    ]

-- Setting a vendor's key stores it and leaves the vendor eligible, whatever its penalty was.
pub put_credential_clear_penalty_lem :
    (now later : ℕ) (c : Credential) (db : Db)
    → c.scope ≢ conn_scope
    → let db' = put_credential_clear_penalty now c db in
      ((get_penalty later c.id db').status ≡ eligible)
      × (get_credential c.scope c.id db' ≡ get_credential c.scope c.id (put_credential now c db))
unfolding get_credential put_credential put_credential_clear_penalty get_penalty
put_credential_clear_penalty_lem now later c db ne = (
  ground (arith, same_iff c.scope conn_scope, lookup-insert_self c.id (clear_row now) db.penalty),
  ground (arith, same_iff c.scope conn_scope),
)
