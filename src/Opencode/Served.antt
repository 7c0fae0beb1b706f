-- ===== src/Opencode/Served.antt =====
-- The pool over the invoker of this repository: the walk of Vendor.Pool with `invoke` as its invoker,
-- which gives the walk's theorems without assumptions on the invoker.
use espur.Base.{ℕ, ◌≡◌, Bool, [], Bytes}
use espur.Store.{Db}
use espur.Store.Vendors.{list_vendors}
use espur.Vendor.{InvokeResult, outcome_all_drained}
use espur.Vendor.Pool.{Env, Request, World}
use espur.Vendor.Pool.Walk.{run}
use espur.Vendor.Pool.Order.{enabled_ids, listed}
use espur.Vendor.Pool.Drained.{run_drained_lists_all}
use espur.Vendor.Pool.Stream.{Heard, hear, From, run_one_voice}
use espur.Opencode.Invoke.{Session, invoke}
use espur.Opencode.Outcomes.{invoke_known, invoke_reported}

-- realInvoker.Invoke; `meanwhile` is what other turns write to the database during the call.
abbrev pub served :
    (ℕ → Request → Session) → (ℕ → Db → Db) → ℕ → Request → Db → InvokeResult × Bool × Db
served sessions meanwhile n q db =
    let r = invoke q.has_callback (sessions n q) in (r.0, r.1, meanwhile n db)

abbrev pub serve : (ℕ → Request → Session) → (ℕ → Db → Db) → Env → Env
serve sessions meanwhile env = record env { invoke = served sessions meanwhile }

-- With the repository's own invoker, whatever the server does: every message that one run of the pool
-- passes on comes from the vendor that its result names.
pub served_one_voice :
    (sessions : ℕ → Request → Session) (meanwhile : ℕ → Db → Db) (env : Env)
    (work_dir user_msg : Bytes) (timeout : ℕ) (w : World Heard)
    → w.sink ≡ []
    → let r = run (serve sessions meanwhile env) hear work_dir user_msg timeout w in
      From r.result.vendor_id r.world.sink
served_one_voice sessions meanwhile env work_dir user_msg timeout =
    run_one_voice (serve sessions meanwhile env) work_dir user_msg timeout
      (λ n q db. invoke_known q.has_callback (sessions n q))
      (λ n q db. invoke_reported q.has_callback (sessions n q))

-- With the repository's own invoker, whatever the server does: a run that ends as all drained lists
-- every enabled vendor of the priority list, in its order.
pub served_drained_lists_all :
    (sessions : ℕ → Request → Session) (meanwhile : ℕ → Db → Db) (env : Env)
    (work_dir user_msg : Bytes) (timeout : ℕ) (w : World Heard)
    → (run (serve sessions meanwhile env) hear work_dir user_msg timeout w).result.outcome
      ≡ outcome_all_drained
    → listed (run (serve sessions meanwhile env) hear work_dir user_msg timeout w).result.penalized
      ≡ enabled_ids (list_vendors w.db)
served_drained_lists_all sessions meanwhile env work_dir user_msg timeout =
    run_drained_lists_all (serve sessions meanwhile env) hear work_dir user_msg timeout
      (λ n q db. invoke_known q.has_callback (sessions n q))
