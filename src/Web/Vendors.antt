-- ===== src/Web/Vendors.antt =====
-- internal/web/web.go: the handlers that change the vendors.
use espur.Base.{
  ℕ, ◌≡◌, ◌≢◌, refl, ◌∙◌, sym, ap, subst, ◌⊎◌, inl, inr, Bool, true, false, not, ◌&&◌, ◌||◌, List,
  [], ◌∷◌, Option, none, some, Bytes, codes, same, is_empty, trim_space, length, if◌then◌else◌,
  if_rule, if_true, if_false, All, arith,
}
use espur.Store.{Vendor, Credential, Db, unix, from_unix, vendor_scope, conn_scope, eligible}
use espur.Store.Vendors.{list_vendors, upsert_vendor, delete_vendor, reorder_vendors, get_penalty}
use espur.Store.Credentials.{
  get_credential, put_credential, put_credential_clear_penalty, put_credential_clear_penalty_lem,
  get_credential-put_credential, IsPlain, creation,
}
use espur.Vendor.Pool.{clear_penalty}
use espur.Providers.{Provider, lookup_model}
use espur.Web.{Reply}

-- What the handlers meet: the time, the vault, and the failures of the database.
pub record Weather : Type 0 where
  pub now : ℕ
  pub encrypt : Bytes → Option Bytes
  pub read_fails : Bool
  pub write_fails : Bool
  pub credential_fails : Bool

abbrev pub Answer : Type 0
Answer = Reply × Db

abbrev pub bad_request : Db → Answer
bad_request db = (Reply.status 400, db)

abbrev pub danger : Bytes
danger = codes "danger"

abbrev pub credential_row : Bytes → Bytes → Bytes → Bytes → List Bytes → Credential
credential_row id kind status blob env_keys = record {
  scope = vendor_scope;
  id = id;
  kind = kind;
  status = status;
  blob = blob;
  env_keys = env_keys;
  created_at = none;
  updated_at = 0;
}

abbrev pub listed : Weather → Db → List Vendor
listed w db = if w.read_fails then [] else list_vendors db

-- A failure of PutCredential is passed over.
abbrev pub put_quietly : Weather → Credential → Db → Db
put_quietly w c db = if w.credential_fails then db else put_credential w.now c db

abbrev pub key_kind : Bytes
key_kind = codes "byo_key"

abbrev pub first_credential : Bytes → Bytes → Bytes → Credential
first_credential id kind env_key =
    if same kind key_kind
    then credential_row id key_kind (codes "missing") [] (env_key ∷ [])
    else credential_row id (codes "oauth") (codes "pending") [] []

abbrev pub add_with : Weather → Bytes → Bytes → Bytes → Provider → Db → Answer
add_with w id model kind p db =
    let row : Vendor = record {
      vendor_id = id;
      model = model;
      enabled = true;
      position = length (listed w db);
      cred_kind = kind;
    } in
    if same kind (codes "oauth") && not p.supports_oauth
    then bad_request db
    else if same kind key_kind && is_empty p.env_key
    then bad_request db
    else if w.write_fails
    then (Reply.status 500, db)
    else (
      Reply.redirect (codes "info"),
      put_quietly w (first_credential id kind p.env_key) (upsert_vendor row db),
    )

abbrev pub add_found : Weather → Bytes → Bytes → Bytes → Option (Provider × Bytes) → Db → Answer
add_found w id model kind none db = bad_request db
add_found w id model kind (some (p, m)) db = add_with w id model kind p db

abbrev pub kind_of : Bytes → Bytes
kind_of given = if is_empty (trim_space given) then key_kind else trim_space given

unfoldable pub vendor_add : Weather → Bytes → Bytes → Bytes → Db → Answer
vendor_add w given_id given_model given_kind db =
    let id = trim_space given_id in
    let model = trim_space given_model in
    let kind = kind_of given_kind in
    if not (same kind key_kind) && not (same kind (codes "oauth"))
    then bad_request db
    else if is_empty id || is_empty model
    then bad_request db
    else add_found w id model kind (lookup_model model) db

abbrev pub env_keys_of : Option Credential → List Bytes
env_keys_of none = []
env_keys_of (some c) = c.env_keys

-- The names under which a key is given to the vendor: the one in the form, or those stored.
abbrev pub chosen_keys : Weather → Bytes → Bytes → Db → List Bytes
chosen_keys w id env_key db =
    if is_empty (trim_space env_key)
    then (if w.read_fails then [] else env_keys_of (get_credential vendor_scope id db))
    else trim_space env_key ∷ []

abbrev pub key_set : Weather → Bytes → Bytes → Option Bytes → Db → Answer
key_set w id env_key none db = (Reply.status 500, db)
key_set w id env_key (some blob) db = if w.write_fails then (Reply.status 500, db) else (
  Reply.redirect (codes "ok"),
  put_credential_clear_penalty w.now
      (credential_row id key_kind (codes "set") blob (chosen_keys w id env_key db)) db,
)

unfoldable pub vendor_set_key : Weather → Bytes → Bytes → Bytes → Db → Answer
vendor_set_key w id plain env_key db =
    if is_empty plain then bad_request db else key_set w id env_key (w.encrypt plain) db

abbrev pub toggled : Vendor → Vendor
toggled v = record v { enabled = not v.enabled }

-- The first vendor of the list with the id.
unfoldable pub find_vendor : Bytes → List Vendor → Option Vendor
find_vendor id [] = none
find_vendor id (v ∷ vs) =
    let rest = find_vendor id vs in if same v.vendor_id id then some v else rest

abbrev pub toggle_found : Weather → Option Vendor → Db → Answer
toggle_found w none db = (Reply.silent_redirect, db)
toggle_found w (some v) db =
    if w.write_fails
    then (Reply.redirect danger, db)
    else (Reply.silent_redirect, upsert_vendor (toggled v) db)

unfoldable pub vendor_toggle : Weather → Bytes → Db → Answer
unfolding find_vendor
vendor_toggle w id db =
    if w.read_fails
    then (Reply.redirect danger, db)
    else toggle_found w (find_vendor id (list_vendors db)) db

abbrev pub attempted : Bool → Db → Db → Answer
attempted fails before after =
    if fails then (Reply.redirect danger, before) else (Reply.redirect (codes "ok"), after)

unfoldable pub vendor_delete : Weather → Bytes → Db → Answer
vendor_delete w id db = attempted w.write_fails db (delete_vendor id db)

unfoldable pub vendor_clear_penalty : Weather → Bytes → Db → Answer
vendor_clear_penalty w id db = attempted w.write_fails db (clear_penalty w.now id db)

abbrev pub ids_of : List Vendor → List Bytes
ids_of [] = []
ids_of (v ∷ vs) = v.vendor_id ∷ ids_of vs

-- One place up: the item with the id changes places with the one before it.
unfoldable pub move_up : Bytes → List Bytes → List Bytes
move_up id [] = []
move_up id (a ∷ []) = a ∷ []
move_up id (a ∷ b ∷ s) =
    let rest = a ∷ move_up id (b ∷ s) in
    if same a id then a ∷ b ∷ s else if same b id then b ∷ a ∷ s else rest

unfoldable pub move_down : Bytes → List Bytes → List Bytes
move_down id [] = []
move_down id (a ∷ []) = a ∷ []
move_down id (a ∷ b ∷ s) =
    let rest = a ∷ move_down id (b ∷ s) in if same a id then b ∷ a ∷ s else rest

abbrev pub moved : Bytes → Bytes → List Bytes → List Bytes
moved dir id ids =
    if same dir (codes "up")
    then move_up id ids
    else if same dir (codes "down")
    then move_down id ids
    else ids

abbrev pub reordered : Weather → List Bytes → Db → Answer
reordered w ids db =
    if w.write_fails
    then (Reply.redirect danger, db)
    else (Reply.silent_redirect, reorder_vendors ids db)

abbrev pub has_id : Bytes → List Bytes → Bool
has_id id [] = false
has_id id (a ∷ s) = same a id || has_id id s

unfoldable pub vendors_reorder : Weather → Bytes → Bytes → Db → Answer
unfolding move_up move_down
vendors_reorder w id dir db =
    let ids = ids_of (listed w db) in
    if has_id id ids then reordered w (moved dir id ids) db else (Reply.silent_redirect, db)

unfoldable pub vendors_reorder_all : Weather → List Bytes → Db → Answer
vendors_reorder_all w [] db = (Reply.silent_redirect, db)
vendors_reorder_all w (id ∷ ids) db = attempted w.write_fails db (reorder_vendors (id ∷ ids) db)

move_down-cons :
    (id a : Bytes) (s : List Bytes) → same a id ≡ false → move_down id (a ∷ s) ≡ a ∷ move_down id s
unfolding move_down
move_down-cons id a [] ne = refl
move_down-cons id a (b ∷ s) ne = if_false _ _ ne

-- Moving a vendor up and then down again gives the old order, if it was not the first.
pub move_down-move_up :
    (id a : Bytes) (s : List Bytes) → same a id ≡ false → move_down id (move_up id (a ∷ s)) ≡ a ∷ s
unfolding move_up move_down
move_down-move_up id a [] ne = refl
move_down-move_up id a (b ∷ s) ne =
    ap (move_down id) (if_false _ _ ne)
    ∙ if_rule (λ t. move_down id t ≡ a ∷ b ∷ s) (same b id) (λ e. if_true _ _ e)
        (λ other.
          move_down-cons id a (move_up id (b ∷ s)) ne ∙ ap (◌∷◌ a) (move_down-move_up id b s other))

-- The names that the operator means: the one in the form without the spaces around it, or where the
-- form has none those of the stored credential.
abbrev pub AreMeant : List Bytes → Bytes → Bytes → Db → Type 0
AreMeant keys id env_key db =
    ((trim_space env_key ≢ []) × (keys ≡ trim_space env_key ∷ []))
    ⊎ ((trim_space env_key ≡ [])
        × ((get_credential vendor_scope id db ≡ none) × (keys ≡ [])
            ⊎ (c : Credential) × (get_credential vendor_scope id db ≡ some c)
              × (keys ≡ c.env_keys)))

chosen_keys-AreMeant :
    (w : Weather) (keys : List Bytes) (id env_key : Bytes) (db : Db)
    → w.read_fails ≡ false
    → AreMeant keys id env_key db
    → chosen_keys w id env_key db ≡ keys
chosen_keys-AreMeant w keys id env_key db reads (inl (given, e)) =
    if_false _ _ (is_empty_false (trim_space env_key) given) ∙ sym e
  where
    is_empty_false : (s : Bytes) → s ≢ [] → is_empty s ≡ false
    is_empty_false [] ne = absurd (ne refl)
    is_empty_false (c ∷ s) ne = refl
chosen_keys-AreMeant w keys id env_key db reads (inr (blank, stored)) =
    if_true _ _ (ap is_empty blank)
    ∙ (if_false _ _ reads ∙ elim stored [
      | inl (e, k) ↦ ap env_keys_of e ∙ sym k
      | inr (c, e, k) ↦ ap env_keys_of e ∙ sym k
    ])

-- A vendor's new key is stored and makes the vendor eligible: if the form holds a key, the vault
-- encrypts it, the database works, and the key names meant are neither empty nor hold a comma, the
-- credential read back is the encrypted key under the name in the form without the spaces around it,
-- or where the form has none under the names that were stored, and whatever the vendor's penalty was,
-- it is over.
pub vendor_set_key_lem :
    (w : Weather) (id plain env_key blob : Bytes) (keys : List Bytes) (later : ℕ) (db : Db)
    → is_empty plain ≡ false
    → w.encrypt plain ≡ some blob
    → w.write_fails ≡ false
    → w.read_fails ≡ false
    → AreMeant keys id env_key db
    → All IsPlain keys
    → let a = vendor_set_key w id plain env_key db in
      let c = credential_row id key_kind (codes "set") blob keys in
      (a.0 ≡ Reply.redirect (codes "ok"))
      × ((get_penalty later id a.1).status ≡ eligible)
      × (get_credential vendor_scope id a.1
          ≡ some (record c {
            created_at = creation w.now none (get_credential vendor_scope id db);
            updated_at = from_unix (unix w.now);
          }))
unfolding vendor_set_key
vendor_set_key_lem w id plain env_key blob keys later db given encrypts writes reads meant
      plain_keys =
    subst (λ (a : Answer). P a)
      (sym (
        if_false _ _ given
        ∙ ap (λ o. key_set w id env_key o db) encrypts
        ∙ if_false _ _ writes
        ∙ ap (λ ks. stored_as ks) (chosen_keys-AreMeant w keys id env_key db reads meant)))
      (
        refl,
        (put_credential_clear_penalty_lem w.now later c db scopes_differ).0,
        (put_credential_clear_penalty_lem w.now later c db scopes_differ).1
            ∙ (get_credential-put_credential w.now c conn_scope id db plain_keys
                (λ e. scopes_differ (ap (λ (q : Bytes × Bytes). q.0) e))).0,
      )
  where
    stored_as : List Bytes → Answer
    stored_as ks = (
      Reply.redirect (codes "ok"),
      put_credential_clear_penalty w.now (credential_row id key_kind (codes "set") blob ks) db,
    )

    c : Credential
    c = credential_row id key_kind (codes "set") blob keys

    P : Answer → Type 0
    P a =
        (a.0 ≡ Reply.redirect (codes "ok"))
        × ((get_penalty later id a.1).status ≡ eligible)
        × (get_credential vendor_scope id a.1
            ≡ some (record c {
              created_at = creation w.now none (get_credential vendor_scope id db);
              updated_at = from_unix (unix w.now);
            }))

    scopes_differ : vendor_scope ≢ conn_scope
    scopes_differ e = absurd (ground arith)
