-- ===== src/Web/RotationTests.antt =====
-- Two vendors, the first cooling down or without its key, on the pages and in the pool.
use espur.Base.{
  ℕ, ◌*◌, ◌≡◌, refl, true, false, List, [], ◌∷◌, none, some, Bytes, codes, same, lookup, insert,
  bytes_eq, pair_eq, arith,
}
use espur.Store.{Vendor, Db, empty_db, cooldown, second}
use espur.Store.Vendors.{list_vendors, upsert_vendor, get_penalty, put_penalty}
use espur.Store.Credentials.{get_credential}
use espur.Vendor.{invoke_success, InvokeResult}
use espur.Vendor.Penalty.{is_eligible}
use espur.Vendor.Classify.{not_json}
use espur.Vendor.Pool.{Env, World, load_cred_env}
use espur.Vendor.Pool.Walk.{run, walk, visit, attempt, invoked, settle, on_success}
use espur.Vendor.Pool.Order.{tried}
use espur.Web.Rotation.{build_strip, strip_from, strip_ready, cred_ok, home_rotation}
use espur.Web.Rotation.Shown.{calm, pages_agree, first_row}
use espur.Web.Rotation.Tried.{rotation_is_tried}

abbrev vendor_of : Bytes → Bytes → ℕ → Vendor
vendor_of id kind place = record {
  vendor_id = id;
  model = codes "m";
  enabled = true;
  position = place;
  cred_kind = kind;
}

abbrev two : Bytes → Db
two kind =
    upsert_vendor (vendor_of (codes "a") kind 0)
      (upsert_vendor (vendor_of (codes "b") (codes "oauth") 1) empty_db)

-- The vendor a cools down for fifty seconds.
abbrev cooled : Db
cooled =
    put_penalty second
      (record {
        vendor_id = codes "a";
        status = cooldown;
        failure_streak = 1;
        cooldown_until = some (50 * second);
        updated_at = second;
      })
      (two (codes "oauth"))

abbrev answer : InvokeResult
answer = record {
  outcome = invoke_success;
  assistant_text = codes "hi";
  delivered = [];
  streamed = false;
  stdout = [];
  stderr = [];
  crash_reason = [];
}

abbrev env : Env
env = record {
  slot = true;
  now = λ n. 10 * second;
  fails = λ n. false;
  jitter = λ n d. d;
  decrypt = λ n b. some b;
  decode = λ l. not_json;
  invoke = λ n q db. (answer, false, db);
}

abbrev start : Db → World (List Bytes)
start db = record { db = db; point = 0; sink = []; calls = [] }

pages_agree_example :
    (build_strip (calm (10 * second)) [] [] cooled).in_rotation
    ≡ first_row (home_rotation (calm (10 * second)) (10 * second) cooled).rows
unfolding list_vendors get_penalty put_penalty upsert_vendor lookup insert same
pages_agree_example =
    (pages_agree (10 * second) [] [] cooled
      ((ground arith, ground arith), ((ground arith, tt), tt))).4

rotation_is_tried_example :
    (rest : List Bytes) × (tried (run env none [] [] 5 (start cooled)).result.attempts
      ≡ (build_strip (calm (10 * second)) [] [] cooled).in_rotation ∷ rest)
unfolding list_vendors get_penalty put_penalty upsert_vendor lookup insert same build_strip
    strip_from strip_ready cred_ok
rotation_is_tried_example =
    rotation_is_tried env none [] [] 5 (10 * second) (λ p. refl) (λ p. refl) (λ p req db. (λ e. cc))
      [] [] (start cooled) refl (λ e. cc) ((ground arith, ground arith), ((ground arith, tt), tt))
      (((λ on. refl), ((λ on. refl), tt)))

-- Where a vendor has no key, the pages pass over it, and the pool does not.
no_key_is_tried :
    (build_strip (calm (10 * second)) [] [] (two (codes "byo_key"))).in_rotation ≡ codes "b"
unfolding list_vendors get_penalty upsert_vendor lookup insert same build_strip strip_from
    strip_ready cred_ok get_credential
no_key_is_tried = refl

no_key_is_run :
    tried (run env none [] [] 5 (start (two (codes "byo_key")))).result.attempts ≡ codes "a" ∷ []
unfolding list_vendors get_penalty upsert_vendor lookup insert same get_credential run walk visit
    attempt invoked settle on_success is_eligible load_cred_env
no_key_is_run = refl
