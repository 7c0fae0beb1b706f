-- ===== src/Store/Examples.antt =====
-- A small database, and runs of the statements.
use espur.Base.{
  ℕ, ◌+◌, ◌*◌, ◌≡◌, refl, true, List, [], ◌∷◌, none, some, Bytes, codes, same, lookup, insert,
  bytes_eq, pair_eq,
}
use espur.Store.{
  Vendor, auth_locked, Penalty, Credential, Connection, Db, empty_db, second, vendor_scope,
}
use espur.Store.Vendors.{list_vendors, upsert_vendor, put_penalty}
use espur.Store.Credentials.{put_credential}
use espur.Store.Connections.{get_connection, put_connection}
use espur.Store.Dedup.{seen_message, accepted}

abbrev kimi : Bytes
kimi = codes "kimi"

abbrev zai : Bytes
zai = codes "zai"

abbrev vendor_row : Bytes → ℕ → Vendor
vendor_row id n = record {
  vendor_id = id;
  model = codes "m";
  enabled = true;
  position = n;
  cred_kind = codes "api_key";
}

abbrev locked_zai : Penalty
locked_zai = record {
  vendor_id = zai;
  status = auth_locked;
  failure_streak = 2;
  cooldown_until = some (7 * second + 5);
  updated_at = 0;
}

abbrev key_of : Bytes → Credential
key_of id = record {
  scope = vendor_scope;
  id = id;
  kind = codes "api_key";
  status = codes "set";
  blob = 1 ∷ 2 ∷ [];
  env_keys = codes "A_KEY" ∷ codes "B_KEY" ∷ [];
  created_at = none;
  updated_at = 0;
}

abbrev bot_conn : Bytes → Connection
bot_conn id = record {
  id = id;
  kind = codes "discord";
  label = codes "bot";
  enabled = true;
  config = [];
  created_at = none;
  updated_at = 0;
}

abbrev shop : Db
shop = put_connection (4 * second) (bot_conn (codes "c1")) (
    put_connection (3 * second) (bot_conn (codes "c2")) (
      put_credential second (key_of zai) (
        put_penalty second locked_zai
          (upsert_vendor (vendor_row zai 0) (upsert_vendor (vendor_row kimi 1) empty_db)))))

list_vendors-shop : list_vendors shop ≡ vendor_row zai 0 ∷ vendor_row kimi 1 ∷ []
unfolding list_vendors put_connection put_credential put_penalty upsert_vendor lookup insert same
list_vendors-shop = refl

abbrev stored_c1 : Connection
stored_c1 = record (bot_conn (codes "c1")) {
  created_at = some (4 * second);
  updated_at = 4 * second;
}

c1_stored : get_connection (codes "c1") shop ≡ some stored_c1
unfolding get_connection put_connection put_credential put_penalty upsert_vendor lookup insert same
c1_stored = refl

abbrev twice : List (ℕ × Bytes × Bytes)
twice = (1, codes "d", codes "7") ∷ (2, codes "d", codes "7") ∷ (3, codes "w", codes "7") ∷ []

accepted-twice : accepted twice empty_db ≡ (codes "d", codes "7") ∷ (codes "w", codes "7") ∷ []
unfolding accepted seen_message lookup insert same
accepted-twice = refl
