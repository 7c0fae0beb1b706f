-- ===== src/Vendor/Pool/Walk.antt =====
-- internal/vendor/pool.go: Run. The loop is `walk`, and one turn of it is `visit`.
use espur.Base.{
  ℕ, suc, Bool, true, false, not, List, [], ◌∷◌, ◌++◌, Option, none, some, Bytes, codes,
  if◌then◌else◌,
}
use espur.Store.{Vendor, Penalty}
use espur.Store.Vendors.{list_vendors, get_penalty, put_penalty, clear_penalty_on_success}
use espur.Vendor.{
  FailureClass, class_none, InvokeOutcome, invoke_unknown, invoke_success, invoke_timeout,
  invoke_crash, InvokeResult, outcome_success, outcome_timeout, outcome_all_drained, outcome_crash,
  Result,
}
use espur.Vendor.Penalty.{apply_failure, is_eligible}
use espur.Vendor.Classify.{classify}
use espur.Vendor.Pool.{
  Env, Request, Run, Turn, World, add_attempt, add_penalized, attempt_of, cancelled, continue,
  credential_attempt, credential_error, db_error, feed, invoke_error, is_none, load_cred_env,
  no_result, return, snapshot_of, tick,
}

module _ {S : Type 0} (env : Env) (stream : Option (Bytes → Bytes → S → S)) where
  -- `case opencode.OutcomeCrash`: a failure of the vendor's side is written to the penalty box.
  unfoldable pub penalize : Vendor → Penalty → FailureClass → Result → World S → Turn S
  penalize v pen class res w =
      let updated = apply_failure pen class (env.now w.point) (env.jitter w.point) in
      if env.fails w.point
      then return (record { result = res; error = some db_error; world = tick w })
      else continue (add_penalized res (snapshot_of updated v.vendor_id))
          (record (tick w) { db = put_penalty (env.now w.point) updated w.db })

  abbrev pub crashed : Vendor → InvokeResult → Bool → Result → World S → Turn S
  crashed v oc failed res w = return (record {
    result = record res {
      outcome = outcome_crash;
      vendor_id = v.vendor_id;
      crash_reason = oc.crash_reason;
    };
    error = if failed then some invoke_error else none;
    world = w;
  })

  unfoldable pub on_crash : Vendor → Penalty → InvokeResult → Bool → Result → World S → Turn S
  unfolding penalize
  on_crash v pen oc failed res w =
      let class = classify env.decode oc.stdout oc.stderr in
      let res' = add_attempt res (attempt_of v.vendor_id oc class) in
      if oc.streamed
      then crashed v oc failed res' w
      else if is_none class
      then crashed v oc failed res' w
      else penalize v pen class res' w

  -- A failure to clear the penalty is only logged.
  unfoldable pub on_success : Vendor → InvokeResult → Result → World S → Turn S
  on_success v oc res w = return (record {
    result = record (add_attempt res (attempt_of v.vendor_id oc class_none)) {
      outcome = outcome_success;
      vendor_id = v.vendor_id;
      text = oc.assistant_text;
    };
    error = none;
    world = record (tick w) {
      db =
          if env.fails w.point
          then w.db
          else clear_penalty_on_success v.vendor_id (env.now w.point) w.db;
    };
  })

  unfoldable pub on_timeout : Vendor → InvokeResult → Result → World S → Turn S
  on_timeout v oc res w = return (record {
    result = record (add_attempt res (attempt_of v.vendor_id oc class_none)) {
      outcome = outcome_timeout;
      vendor_id = v.vendor_id;
    };
    error = none;
    world = w;
  })

  -- The `switch`; it has no case for the unknown outcome, after which the loop goes on.
  unfoldable pub settle :
      InvokeOutcome → Vendor → Penalty → InvokeResult → Bool → Result → World S → Turn S
  unfolding on_crash on_success on_timeout
  settle invoke_success v pen oc failed res w = on_success v oc res w
  settle invoke_timeout v pen oc failed res w = on_timeout v oc res w
  settle invoke_crash v pen oc failed res w = on_crash v pen oc failed res w
  settle invoke_unknown v pen oc failed res w = continue res w

  abbrev pub fed : Bytes → InvokeResult → S → S
  fed vendor_id oc s = elim stream [ none ↦ s | some f ↦ feed f vendor_id oc.delivered s ]

  abbrev pub request_of : Bytes → Bytes → ℕ → Vendor → List (Bytes × Bytes) → Request
  request_of work_dir user_msg timeout v cred_env = record {
    vendor_id = v.vendor_id;
    model = v.model;
    cred_env = cred_env;
    work_dir = work_dir;
    user_msg = user_msg;
    timeout = timeout;
    has_callback = elim stream [ none ↦ false | some f ↦ true ];
  }

  abbrev pub credential_crash : Vendor → Result → World S → Turn S
  credential_crash v res w = return (record {
    result = record (add_attempt res (credential_attempt v.vendor_id)) {
      outcome = outcome_crash;
      vendor_id = v.vendor_id;
      crash_reason = codes "credential_load_failed";
    };
    error = some credential_error;
    world = w;
  })

  module _ (work_dir user_msg : Bytes) (timeout : ℕ) where
    -- One invocation: its result, whether it returned an error, and the world after it.
    unfoldable pub invoked : Vendor → List (Bytes × Bytes) → World S → InvokeResult × Bool × World S
    invoked v cred_env w =
        let (oc, failed, db) =
          env.invoke w.point (request_of work_dir user_msg timeout v cred_env) w.db in
        (
          oc,
          failed,
          record {
            db = db;
            point = suc w.point;
            sink = fed v.vendor_id oc w.sink;
            calls = w.calls ++ v.vendor_id ∷ [];
          },
        )

    abbrev pub settled : Vendor → Penalty → Result → InvokeResult × Bool × World S → Turn S
    settled v pen res i = settle i.0.outcome v pen i.0 i.1 res i.2

    -- The rest of the loop's body for an eligible vendor.
    unfoldable pub attempt : Vendor → Penalty → Result → World S → Turn S
    unfolding settle
    attempt v pen res w = elim (load_cred_env env w.point v.vendor_id w.db) [
      | none ↦ credential_crash v res (tick w)
      | some cred_env ↦ settled v pen res (invoked v cred_env (tick w))
    ]

    unfoldable pub visit : Vendor → Result → World S → Turn S
    unfolding attempt
    visit v res w =
        if not v.enabled
        then continue res w
        else if env.fails w.point
        then return (record { result = no_result; error = some db_error; world = tick w })
        else (let pen = get_penalty (env.now w.point) v.vendor_id w.db in
            if not (is_eligible pen (env.now w.point))
            then continue (add_penalized res (snapshot_of pen v.vendor_id)) (tick w)
            else attempt v pen res (tick w))

    -- After the loop both branches report the same outcome.
    unfoldable pub walk : List Vendor → Result → World S → Run S
    unfolding visit
    walk [] res w = record {
      result = record res { outcome = outcome_all_drained };
      error = none;
      world = w;
    }
    walk (v ∷ vs) res w = elim (visit v res w) [ return r ↦ r | continue res' w' ↦ walk vs res' w' ]

    unfoldable pub run : World S → Run S
    unfolding walk
    run w =
        if not env.slot
        then record { result = no_result; error = some cancelled; world = w }
        else if env.fails w.point
        then record { result = no_result; error = some db_error; world = tick w }
        else walk (list_vendors w.db) no_result (tick w)
