-- ===== src/Vendor/Pool/Locks.antt =====
-- A vendor that is locked after an authentication failure stays locked and is left alone.
use espur.Base.{
  ℕ, ◌≡◌, sym, subst, ap, ◌∙◌, ◌≢◌, Bool, true, List, [], ◌∷◌, ◌++◌, Option, Bytes, if◌then◌else◌,
  if_rule, All, All-append,
}
use espur.Store.{Vendor, Penalty, auth_locked, Db}
use espur.Store.Vendors.{
  list_vendors, get_penalty, clear_penalty_on_success, status-get_penalty, vendor_id-get_penalty,
  status-put_penalty_ne, status-clear_penalty_on_success_ne,
}
use espur.Vendor.{
  InvokeOutcome, invoke_unknown, invoke_success, invoke_timeout, invoke_crash, InvokeResult,
  FailureClass, Attempt, Result,
}
use espur.Vendor.Penalty.{is_eligible, is_eligible_locked, apply_failure, vendor_id-apply_failure}
use espur.Vendor.Classify.{classify}
use espur.Vendor.Pool.{
  Env, World, Turn, Request, no_result, tick, add_attempt, attempt_of, credential_attempt,
}
use espur.Vendor.Pool.Walk.{invoked, settle, penalize, visit, run}
use espur.Vendor.Pool.Cases.{
  result_of, world_of, pen_of, on_crash_cases, visit_cases, walk_inv, run_cases,
}

abbrev pub IsLocked : Bytes → Db → Type 0
IsLocked id db = (get_penalty 0 id db).status ≡ auth_locked

-- Not tried, and still locked.
abbrev pub Spared : {S : Type 0} → Bytes → Result → World S → Type 0
Spared id res w = All (λ (a : Attempt). a.vendor_id ≢ id) res.attempts × IsLocked id w.db

abbrev SparedBy : {S : Type 0} → Bytes → Turn S → Type 0
SparedBy id t = Spared id (result_of t) (world_of t)

cleared-IsLocked :
    (id vendor_id : Bytes) (now : ℕ) (db : Db)
    → IsLocked id db
    → vendor_id ≢ id
    → IsLocked id (clear_penalty_on_success vendor_id now db)
cleared-IsLocked id vendor_id now db l ne =
    status-clear_penalty_on_success_ne vendor_id id now 0 db ne ∙ l

module _ {S : Type 0} (env : Env) (stream : Option (Bytes → Bytes → S → S)) (id : Bytes) where
  add_spared :
      (xs : List Attempt) (a : Attempt)
      → All (λ (b : Attempt). b.vendor_id ≢ id) xs
      → a.vendor_id ≢ id
      → All (λ (b : Attempt). b.vendor_id ≢ id) (xs ++ a ∷ [])
  add_spared xs a h n = All-append (λ (b : Attempt). b.vendor_id ≢ id) xs (a ∷ []) h (n, tt)

  penalize_spares :
      (v : Vendor) (pen : Penalty) (class : FailureClass) (res : Result) (w : World S)
      → pen.vendor_id ≢ id
      → Spared id res w
      → SparedBy id (penalize env stream v pen class res w)
  unfolding penalize
  penalize_spares v pen class res w ne s =
      if_rule (SparedBy id) (env.fails w.point) (λ _. s)
        (λ _. (
          s.0,
          status-put_penalty_ne (env.now w.point) 0
                (apply_failure pen class (env.now w.point) (env.jitter w.point)) id w.db
                (λ e. ne (
                  sym (vendor_id-apply_failure pen class (env.now w.point) (env.jitter w.point))
                  ∙ e))
              ∙ s.1,
        ))

  success_spares :
      (v : Vendor) (w : World S)
      → v.vendor_id ≢ id
      → IsLocked id w.db
      → IsLocked id (
          if env.fails w.point
          then w.db
          else clear_penalty_on_success v.vendor_id (env.now w.point) w.db)
  success_spares v w ne l =
      if_rule (IsLocked id) (env.fails w.point) (λ _. l)
        (λ _. cleared-IsLocked id v.vendor_id (env.now w.point) w.db l ne)

  settle_spares :
      (o : InvokeOutcome) (v : Vendor) (pen : Penalty) (oc : InvokeResult) (failed : Bool)
      (res : Result) (w : World S)
      → v.vendor_id ≢ id
      → pen.vendor_id ≢ id
      → Spared id res w
      → SparedBy id (settle env stream o v pen oc failed res w)
  unfolding settle
  settle_spares invoke_success v pen oc failed res w ne pne s =
      (add_spared res.attempts _ s.0 ne, success_spares v w ne s.1)
  settle_spares invoke_timeout v pen oc failed res w ne pne s =
      (add_spared res.attempts _ s.0 ne, s.1)
  settle_spares invoke_crash v pen oc failed res w ne pne s =
      let class = classify env.decode oc.stdout oc.stderr in
      let tried_it = attempt_of v.vendor_id oc class in
      let s' : Spared id (add_attempt res tried_it) w =
        (add_spared res.attempts tried_it s.0 ne, s.1) in
      on_crash_cases env stream (SparedBy id) v pen oc failed res w s'
        (λ _. penalize_spares v pen class (add_attempt res tried_it) w pne s')
  settle_spares invoke_unknown v pen oc failed res w ne pne s = s

  module _ (work_dir user_msg : Bytes) (timeout : ℕ)
      (respects : (n : ℕ) (q : Request) (db : Db)
        → IsLocked id db
        → IsLocked id (env.invoke n q db).2) where
    invoked-IsLocked :
        (v : Vendor) (cred_env : List (Bytes × Bytes)) (w : World S)
        → IsLocked id w.db
        → IsLocked id (invoked env stream work_dir user_msg timeout v cred_env w).2.db
    unfolding invoked
    invoked-IsLocked v cred_env w l = respects w.point _ w.db l

    eligible_ne :
        (v : Vendor) (w : World S)
        → IsLocked id w.db
        → is_eligible (pen_of env stream work_dir user_msg timeout v w) (env.now w.point) ≡ true
        → v.vendor_id ≢ id
    eligible_ne v w l ok e = cc (
        is_eligible_locked (pen_of env stream work_dir user_msg timeout v w) (env.now w.point) (
          status-get_penalty (env.now w.point) 0 v.vendor_id w.db
          ∙ (ap (λ k. (get_penalty 0 k w.db).status) e ∙ l)))

    visit_spares :
        (v : Vendor) (res : Result) (w : World S)
        → Spared id res w
        → SparedBy id (visit env stream work_dir user_msg timeout v res w)
    visit_spares v res w s =
        visit_cases env stream work_dir user_msg timeout (SparedBy id) v res w (λ off. s) (tt, s.1)
          (λ on out. s)
          (λ on ok. (
            add_spared res.attempts (credential_attempt v.vendor_id) s.0 (eligible_ne v w s.1 ok),
            s.1,
          ))
          (λ cred_env on ok.
            let w' = tick (tick w) in
            let i = invoked env stream work_dir user_msg timeout v cred_env w' in
            let ne = eligible_ne v w s.1 ok in
            settle_spares i.0.outcome v (pen_of env stream work_dir user_msg timeout v w) i.0 i.1
              res i.2 ne
              (λ e. ne (sym (vendor_id-get_penalty (env.now w.point) v.vendor_id w.db) ∙ e))
              (s.0, invoked-IsLocked v cred_env w' s.1))

    -- A vendor that is locked when a run begins, and that no other turn unlocks meanwhile, is not
    -- tried by the run and is locked when it ends.
    pub run_spares_locked :
        (w : World S)
        → IsLocked id w.db
        → let r = run env stream work_dir user_msg timeout w in Spared id r.result r.world
    run_spares_locked w l =
        run_cases env stream work_dir user_msg timeout (λ r. Spared id r.result r.world) w (tt, l)
          (tt, l)
          (walk_inv env stream work_dir user_msg timeout (λ vs res w'. Spared id res w')
            (λ r. Spared id r.result r.world)
            (λ v vs res w' r p h. subst (SparedBy id) h (visit_spares v res w' p))
            (λ v vs res res' w' w'' p h. subst (SparedBy id) h (visit_spares v res w' p))
            (λ res w' p. p) (list_vendors w.db) no_result (tick w) (tt, l))
