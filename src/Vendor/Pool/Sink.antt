-- ===== src/Vendor/Pool/Sink.antt =====
-- What the stream callback keeps, a run keeps.
use espur.Base.{ℕ, subst, Bool, List, [], ◌∷◌, some, Bytes, if_rule}
use espur.Store.{Vendor, Penalty}
use espur.Store.Vendors.{list_vendors}
use espur.Vendor.{
  InvokeOutcome, invoke_unknown, invoke_success, invoke_timeout, invoke_crash, InvokeResult,
  FailureClass, Result,
}
use espur.Vendor.Classify.{classify}
use espur.Vendor.Pool.{Env, World, Turn, no_result, tick, add_attempt, attempt_of, feed}
use espur.Vendor.Pool.Walk.{invoked, settle, penalize, visit, run}
use espur.Vendor.Pool.Cases.{world_of, pen_of, on_crash_cases, visit_cases, walk_inv, run_cases}

module _ {S : Type 0} (env : Env) (f : Bytes → Bytes → S → S) (P : S → Type 0)
    (keeps : (vendor_id text : Bytes) (s : S) → P s → P (f vendor_id text s)) where
  abbrev Kept : Turn S → Type 0
  Kept t = P (world_of t).sink

  feed-Kept : (vendor_id : Bytes) (texts : List Bytes) (s : S) → P s → P (feed f vendor_id texts s)
  unfolding feed
  feed-Kept vendor_id [] s p = p
  feed-Kept vendor_id (t ∷ ts) s p =
      feed-Kept vendor_id ts (f vendor_id t s) (keeps vendor_id t s p)

  penalize-Kept :
      (v : Vendor) (pen : Penalty) (class : FailureClass) (res : Result) (w : World S)
      → P w.sink
      → Kept (penalize env (some f) v pen class res w)
  unfolding penalize
  penalize-Kept v pen class res w p = if_rule Kept (env.fails w.point) (λ _. p) (λ _. p)

  settle-Kept :
      (o : InvokeOutcome) (v : Vendor) (pen : Penalty) (oc : InvokeResult) (failed : Bool)
      (res : Result) (w : World S)
      → P w.sink
      → Kept (settle env (some f) o v pen oc failed res w)
  unfolding settle
  settle-Kept invoke_success v pen oc failed res w p = p
  settle-Kept invoke_timeout v pen oc failed res w p = p
  settle-Kept invoke_unknown v pen oc failed res w p = p
  settle-Kept invoke_crash v pen oc failed res w p =
      let class = classify env.decode oc.stdout oc.stderr in
      on_crash_cases env (some f) Kept v pen oc failed res w p
        (λ _. penalize-Kept v pen class (add_attempt res (attempt_of v.vendor_id oc class)) w p)

  module _ (work_dir user_msg : Bytes) (timeout : ℕ) where
    invoked-Kept :
        (v : Vendor) (cred_env : List (Bytes × Bytes)) (w : World S)
        → P w.sink
        → P (invoked env (some f) work_dir user_msg timeout v cred_env w).2.sink
    unfolding invoked
    invoked-Kept v cred_env w p = feed-Kept v.vendor_id _ w.sink p

    visit-Kept :
        (v : Vendor) (res : Result) (w : World S)
        → P w.sink
        → Kept (visit env (some f) work_dir user_msg timeout v res w)
    visit-Kept v res w p =
        visit_cases env (some f) work_dir user_msg timeout Kept v res w (λ off. p) p (λ on out. p)
          (λ on ok. p)
          (λ cred_env on ok.
            let w' = tick (tick w) in
            let i = invoked env (some f) work_dir user_msg timeout v cred_env w' in
            settle-Kept i.0.outcome v (pen_of env (some f) work_dir user_msg timeout v w) i.0 i.1
              res i.2 (invoked-Kept v cred_env w' p))

    pub run-Kept :
        (w : World S) → P w.sink → P (run env (some f) work_dir user_msg timeout w).world.sink
    run-Kept w p =
        run_cases env (some f) work_dir user_msg timeout (λ r. P r.world.sink) w p p
          (walk_inv env (some f) work_dir user_msg timeout (λ vs res w'. P w'.sink)
            (λ r. P r.world.sink) (λ v vs res w' r q h. subst Kept h (visit-Kept v res w' q))
            (λ v vs res res' w' w'' q h. subst Kept h (visit-Kept v res w' q)) (λ res w' q. q)
            (list_vendors w.db) no_result (tick w) p)
