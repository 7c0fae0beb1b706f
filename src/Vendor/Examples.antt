-- ===== src/Vendor/Examples.antt =====
-- A walk over two vendors, the first of which answers with a rate limit, and the theorems at
-- concrete inputs.
use espur.Base.{
  ℕ, ◌*◌, ◌≢◌, ◌≡◌, refl, arith, inl, Bool, true, false, ◌&&◌, ◌||◌, if◌then◌else◌, [], ◌∷◌, none,
  some, Bytes, codes, same, lookup, insert, bytes_eq, contains, to_lower, trim_space, split_at,
}
use espur.Store.{Vendor, eligible, auth_locked, Penalty, Db, empty_db, second}
use espur.Store.Vendors.{list_vendors, upsert_vendor, get_penalty, put_penalty}
use espur.Vendor.{
  class_none, class_rate_limit, class_server_5xx, class_auth, invoke_success, invoke_crash,
  invoke_unknown, InvokeResult, outcome_all_drained,
}
use espur.Vendor.Penalty.{base_for, apply_failure, is_eligible, cooldown_window}
use espur.Vendor.Classify.{
  not_json, classify, classify_hay, any_phrase, plain_auth_phrases, rate_limit_phrases,
  error_envelope,
}
use espur.Vendor.Classify.Scope.{context_words, server_signs, classify_hay_lem}
use espur.Vendor.Pool.{Env, World, Request, load_cred_env}
use espur.Vendor.Pool.Walk.{run, visit, attempt, settle, on_crash, penalize, invoked, walk}
use espur.Store.Credentials.{get_credential}
use espur.Vendor.Pool.Order.{IsSublist, tried, enabled_ids, run_tries_in_order}
use espur.Vendor.Pool.Stream.{Heard, hear}
use espur.Vendor.Pool.Locks.{IsLocked, Spared, run_spares_locked}

abbrev kimi : Bytes
kimi = codes "kimi"

abbrev zai : Bytes
zai = codes "zai"

abbrev vendor_row : Bytes → ℕ → Vendor
vendor_row id n = record {
  vendor_id = id;
  model = codes "m";
  enabled = true;
  position = n;
  cred_kind = codes "api_key";
}

abbrev two_vendors : Db
two_vendors = upsert_vendor (vendor_row zai 0) (upsert_vendor (vendor_row kimi 1) empty_db)

abbrev limited : InvokeResult
limited = record {
  outcome = invoke_crash;
  assistant_text = [];
  delivered = [];
  streamed = false;
  stdout = [];
  stderr = codes "429";
  crash_reason = codes "exit";
}

abbrev answered : InvokeResult
answered = record {
  outcome = invoke_success;
  assistant_text = codes "hi";
  delivered = codes "hi" ∷ [];
  streamed = true;
  stdout = [];
  stderr = [];
  crash_reason = [];
}

-- Only kimi answers, and only where `up`.
abbrev reply : Bool → Request → InvokeResult
reply up q = if up && same q.vendor_id kimi then answered else limited

abbrev env_of : Bool → Env
env_of up = record {
  slot = true;
  now = λ n. n * second;
  fails = λ n. false;
  jitter = λ n d. d;
  decrypt = λ n b. some b;
  decode = λ l. not_json;
  invoke = λ n q db. (reply up q, false, db);
}

abbrev start : World Heard
start = record { db = two_vendors; point = 1; sink = []; calls = [] }

reply_known : (up : Bool) (q : Request) → (reply up q).outcome ≢ invoke_unknown
reply_known up q = ground arith

reply_reported :
    (up : Bool) (q : Request) → (reply up q).streamed ≡ false → (reply up q).delivered ≡ []
reply_reported up q h = ground arith

abbrev fresh : Penalty
fresh = record {
  vendor_id = zai;
  status = eligible;
  failure_streak = 0;
  cooldown_until = none;
  updated_at = 0;
}

cooldown_window_example :
    let q =
      get_penalty second zai
        (put_penalty second (apply_failure fresh class_rate_limit second (λ d. d)) two_vendors) in
    (is_eligible q (10 * second) ≡ false)
    × (is_eligible q (60 * second) ≡ true)
    × (q.failure_streak ≡ 1)
unfolding base_for
cooldown_window_example =
    cooldown_window fresh class_rate_limit second second (10 * second) (60 * second) (λ d. d)
      two_vendors (inl refl) (omega arith) (omega arith) (omega arith) (omega arith)

classify_hay_lem_example : classify_hay (codes "http 401") ≡ (
    if (contains (codes "http 401") (codes "401") || contains (codes "http 401") (codes "403"))
        && any_phrase (codes "http 401") context_words
      || any_phrase (codes "http 401") plain_auth_phrases
    then class_auth
    else if any_phrase (codes "http 401") rate_limit_phrases
    then class_rate_limit
    else if any_phrase (codes "http 401") server_signs
    then class_server_5xx
    else class_none)
classify_hay_lem_example = classify_hay_lem (codes "http 401")

revoked_429 : any_phrase (to_lower (codes "429 Revoked")) plain_auth_phrases ≡ true
unfolding any_phrase to_lower contains
revoked_429 = refl

run_tries_in_order_example :
    let r = run (env_of true) hear [] (codes "q") 120 start in
    IsSublist r.world.calls (enabled_ids (list_vendors two_vendors))
    × IsSublist (tried r.result.attempts) (enabled_ids (list_vendors two_vendors))
run_tries_in_order_example = run_tries_in_order (env_of true) hear [] (codes "q") 120 start refl

drained_run :
    (run (env_of false) hear [] (codes "q") 120 start).result.outcome ≡ outcome_all_drained
unfolding run list_vendors get_penalty put_penalty upsert_vendor lookup insert same is_eligible
    apply_failure base_for classify error_envelope contains to_lower trim_space split_at
    load_cred_env get_credential visit attempt settle on_crash penalize invoked walk
drained_run = refl

abbrev locked_db : Db
locked_db = put_penalty 1 (record fresh { status = auth_locked }) two_vendors

zai-IsLocked : IsLocked zai locked_db
unfolding get_penalty put_penalty upsert_vendor lookup insert same
zai-IsLocked = refl

run_spares_locked_example :
    let r = run (env_of true) hear [] (codes "q") 120 (record start { db = locked_db }) in
    Spared zai r.result r.world
run_spares_locked_example =
    run_spares_locked (env_of true) hear zai [] (codes "q") 120 (λ n q db l. l)
      (record start { db = locked_db }) zai-IsLocked
