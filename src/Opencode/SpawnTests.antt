-- ===== src/Opencode/SpawnTests.antt =====
-- A server that is up at the second poll, and one that never is.
use espur.Base.{
  ◌*◌, ◌≡◌, refl, inl, Bool, true, false, [], ◌∷◌, none, some, Bytes, codes, same, same_iff, ap,
  split_at, trim_space, bytes_eq, pair_eq, ◌==◌, if◌then◌else◌, arith,
}
use espur.Store.{Credential, empty_db, second, vendor_scope}
use espur.Vendor.Classify.{not_json}
use espur.Vendor.{InvokeResult, invoke_success}
use espur.Vendor.Pool.{Env}
use espur.Store.Credentials.{put_credential}
use espur.Opencode.Env.{
  Variables, with_value, master_key, passed, child_env, child_env_blind, passthrough,
}
use espur.Opencode.Spawn.{
  Launch, Polls, Spawn, spawn, wait_healthy, wait_from, kill_process, spawn_lem, IsSettled, Ticks,
  millisecond, not_healthy, too_late, sigterm, sigkill,
}

abbrev polls : Bool → Polls
polls up = record {
  answers = λ i. if i == 1 then up else false;
  clock = λ i. i * (200 * millisecond);
  ends = λ i. false;
}

abbrev launch : Bool → Launch
launch up = record {
  port = some 4096;
  starts = some (record { pid = 7; ends_in_grace = false });
  begun = 0;
  polls = polls up;
}

launch-Ticks : (up : Bool) → Ticks (polls up) 0
launch-Ticks up = (omega arith, λ i. omega arith)

spawn_lem_example : (s : Spawn) × (spawn (launch true) ≡ some s) × IsSettled (launch true) s
spawn_lem_example = spawn_lem (launch true) (launch-Ticks true)

never_up :
    spawn (launch false)
    ≡ some (record {
      result = inl (not_healthy too_late);
      signals = sigterm ∷ sigkill ∷ [];
      reads = false;
    })
unfolding spawn wait_healthy wait_from kill_process
never_up = refl

abbrev variables : Variables
variables k =
    if same k (codes "PATH")
    then some (codes "/bin")
    else if same k passthrough
    then some (codes "SKILL_KEY, ")
    else if same k master_key
    then some (codes "secret")
    else none

abbrev answer : InvokeResult
answer = record {
  outcome = invoke_success;
  assistant_text = [];
  delivered = [];
  streamed = false;
  stdout = [];
  stderr = [];
  crash_reason = [];
}

abbrev env : Env
env = record {
  slot = true;
  now = λ n. second;
  fails = λ n. false;
  jitter = λ n d. d;
  decrypt = λ n b. some b;
  decode = λ l. not_json;
  invoke = λ n q db. (answer, false, db);
}

abbrev other_key : Credential
other_key = record {
  scope = vendor_scope;
  id = codes "b";
  kind = codes "byo_key";
  status = codes "set";
  blob = codes "hidden";
  env_keys = codes "KEY" ∷ [];
  created_at = none;
  updated_at = 0;
}

child_env_blind_example :
    (child_env (with_value master_key (some (codes "new")) variables) env 0 (codes "a") empty_db
      ≡ child_env variables env 0 (codes "a") empty_db)
    × (child_env variables env 0 (codes "a") (put_credential second other_key empty_db)
        ≡ child_env variables env 0 (codes "a") empty_db)
unfolding passed split_at trim_space same
child_env_blind_example =
    child_env_blind variables (some (codes "new")) env 0 (codes "a") second other_key empty_db
      (ground arith) (ground arith)
      (λ e.
        let x : same (codes "b") (codes "a") ≡ true =
          (same_iff _ _).1 (ap (λ (q : Bytes × Bytes). q.1) e) in
        cc)
