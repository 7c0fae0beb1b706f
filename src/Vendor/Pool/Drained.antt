-- ===== src/Vendor/Pool/Drained.antt =====
-- What an all-drained result says: it lists every enabled vendor.
use espur.Base.{
  ℕ, ◌≡◌, refl, sym, subst, ap, ◌∙◌, ◌≢◌, Bool, List, [], ◌∷◌, ◌++◌, append_assoc, append-nil,
  Option, Bytes, arith, if_rule,
}
use espur.Store.{Vendor, Penalty, Db}
use espur.Store.Vendors.{list_vendors}
use espur.Vendor.{
  InvokeOutcome, invoke_unknown, invoke_success, invoke_timeout, invoke_crash, InvokeResult,
  FailureClass, outcome_unknown, outcome_all_drained, Result,
}
use espur.Vendor.Classify.{classify}
use espur.Vendor.Pool.{
  Env, World, Run, Turn, return, continue, Request, no_result, tick, snapshot_of, add_attempt,
  attempt_of,
}
use espur.Vendor.Pool.Walk.{invoked, settle, penalize, visit, run}
use espur.Vendor.Pool.Cases.{pen_of, on_crash_cases, visit_cases, walk_inv, run_cases}
use espur.Vendor.Pool.Order.{enabled_ids, enabled_ids_on, listed, listed-append}

-- A turn that goes on has listed its vendor, if it is enabled; one that returns is not drained.
abbrev Lists : {S : Type 0} → List Bytes → Turn S → Type 0
Lists ids (return r) = r.result.outcome ≢ outcome_all_drained
Lists ids (continue res w) = (listed res.penalized ≡ ids) × (res.outcome ≡ outcome_unknown)

module _ {S : Type 0} (env : Env) (stream : Option (Bytes → Bytes → S → S)) where
  penalize-Lists :
      (v : Vendor) (pen : Penalty) (class : FailureClass) (res : Result) (w : World S)
      → res.outcome ≡ outcome_unknown
      → Lists (listed res.penalized ++ v.vendor_id ∷ []) (penalize env stream v pen class res w)
  unfolding penalize
  penalize-Lists v pen class res w u =
      if_rule (Lists (listed res.penalized ++ v.vendor_id ∷ [])) (env.fails w.point)
        (λ _. ground arith) (λ _. (listed-append res.penalized _, u))

  settle-Lists :
      (o : InvokeOutcome) (v : Vendor) (pen : Penalty) (oc : InvokeResult) (failed : Bool)
      (res : Result) (w : World S)
      → o ≢ invoke_unknown
      → res.outcome ≡ outcome_unknown
      → Lists (listed res.penalized ++ v.vendor_id ∷ []) (settle env stream o v pen oc failed res w)
  unfolding settle
  settle-Lists invoke_success v pen oc failed res w known u = λ e. cc
  settle-Lists invoke_timeout v pen oc failed res w known u = λ e. cc
  settle-Lists invoke_crash v pen oc failed res w known u =
      on_crash_cases env stream (Lists (listed res.penalized ++ v.vendor_id ∷ [])) v pen oc failed
        res w (λ e. cc)
        (λ _.
          let class = classify env.decode oc.stdout oc.stderr in
          penalize-Lists v pen class (add_attempt res (attempt_of v.vendor_id oc class)) w u)
  settle-Lists invoke_unknown v pen oc failed res w known u = absurd (known refl)

  module _ (work_dir user_msg : Bytes) (timeout : ℕ)
      (known : (n : ℕ) (q : Request) (db : Db)
        → (env.invoke n q db).0.outcome ≢ invoke_unknown) where
    invoked_known :
        (v : Vendor) (cred_env : List (Bytes × Bytes)) (w : World S)
        → (invoked env stream work_dir user_msg timeout v cred_env w).0.outcome ≢ invoke_unknown
    unfolding invoked
    invoked_known v cred_env w = known w.point _ w.db

    visit-Lists :
        (v : Vendor) (res : Result) (w : World S)
        → res.outcome ≡ outcome_unknown
        → Lists
            (listed res.penalized ++ enabled_ids (v ∷ []))
            (visit env stream work_dir user_msg timeout v res w)
    visit-Lists v res w u =
        visit_cases env stream work_dir user_msg timeout
          (Lists (listed res.penalized ++ enabled_ids (v ∷ []))) v res w
          (λ off. ground (arith, append-nil (listed res.penalized))) (λ e. cc)
          (λ on out. ground (
            arith,
            listed-append res.penalized
                (snapshot_of (pen_of env stream work_dir user_msg timeout v w) v.vendor_id ∷ []),
          ))
          (λ on ok e. cc)
          (λ cred_env on ok.
            let (oc, failed, w') =
              invoked env stream work_dir user_msg timeout v cred_env (tick (tick w)) in
            let pen = pen_of env stream work_dir user_msg timeout v w in
            subst
              (λ l.
                Lists (listed res.penalized ++ l)
                  (settle env stream oc.outcome v pen oc failed res w'))
              (sym (enabled_ids_on v on))
              (settle-Lists oc.outcome v pen oc failed res w'
                (invoked_known v cred_env (tick (tick w))) u))

    abbrev Progress : List Bytes → List Vendor → Result → World S → Type 0
    Progress all vs res w =
        (listed res.penalized ++ enabled_ids vs ≡ all) × (res.outcome ≡ outcome_unknown)

    abbrev Complete : List Bytes → Run S → Type 0
    Complete all r = r.result.outcome ≡ outcome_all_drained → listed r.result.penalized ≡ all

    enabled_ids-cons :
        (v : Vendor) (vs : List Vendor)
        → enabled_ids (v ∷ vs) ≡ enabled_ids (v ∷ []) ++ enabled_ids vs
    enabled_ids-cons v vs = ground arith

    go_on :
        (all : List Bytes) (v : Vendor) (vs : List Vendor) (res res' : Result) (w w' : World S)
        → Progress all (v ∷ vs) res w
        → visit env stream work_dir user_msg timeout v res w ≡ continue res' w'
        → Progress all vs res' w'
    go_on all v vs res res' w w' (e, u) h =
        let (l, u') : Lists (listed res.penalized ++ enabled_ids (v ∷ [])) (continue res' w') =
          subst (Lists (listed res.penalized ++ enabled_ids (v ∷ []))) h (visit-Lists v res w u) in
        (
          ap (λ x. x ++ enabled_ids vs) l
              ∙ (append_assoc (listed res.penalized) (enabled_ids (v ∷ [])) (enabled_ids vs)
                  ∙ (ap (◌++◌ (listed res.penalized)) (sym (enabled_ids-cons v vs)) ∙ e)),
          u',
        )

    -- If the invoker reports one of its three outcomes, a run that ends as all drained lists every
    -- enabled vendor of the priority list, each once for each of its rows and in their order.
    pub run_drained_lists_all :
        (w : World S)
        → (run env stream work_dir user_msg timeout w).result.outcome ≡ outcome_all_drained
        → listed (run env stream work_dir user_msg timeout w).result.penalized
          ≡ enabled_ids (list_vendors w.db)
    run_drained_lists_all w =
        run_cases env stream work_dir user_msg timeout (Complete (enabled_ids (list_vendors w.db)))
          w (λ e. cc) (λ e. cc)
          (walk_inv env stream work_dir user_msg timeout
            (Progress (enabled_ids (list_vendors w.db)))
            (Complete (enabled_ids (list_vendors w.db)))
            (λ v vs res w r (e, u) h d. absurd (
              subst (Lists (listed res.penalized ++ enabled_ids (v ∷ []))) h (visit-Lists v res w u)
                d))
            (go_on (enabled_ids (list_vendors w.db)))
            (λ res w (e, u) d. sym (append-nil (listed res.penalized)) ∙ e) (list_vendors w.db)
            no_result (tick w) (refl, refl))
