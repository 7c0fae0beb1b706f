-- ===== src/Vendor/Pool/Stream.antt =====
-- Progressive posting: the messages that reach the user in one run come from one vendor.
use espur.Base.{
  ℕ, ◌≡◌, refl, subst, ◌≢◌, Bool, false, List, [], ◌∷◌, ◌++◌, Option, some, Bytes, if_rule, All,
  All-append,
}
use espur.Store.{Vendor, Penalty, Db}
use espur.Store.Vendors.{list_vendors}
use espur.Vendor.{
  InvokeOutcome, invoke_unknown, invoke_success, invoke_timeout, invoke_crash, InvokeResult,
  FailureClass, Result,
}
use espur.Vendor.Classify.{classify}
use espur.Vendor.Pool.{
  Env, World, Turn, return, continue, Request, no_result, tick, add_attempt, attempt_of, feed,
}
use espur.Vendor.Pool.Walk.{invoked, settle, penalize, visit, run}
use espur.Vendor.Pool.Cases.{pen_of, on_crash_cases, visit_cases, walk_inv, run_cases}

-- What the callback was given: each message with its vendor.
abbrev pub Heard : Type 0
Heard = List (Bytes × Bytes)

abbrev pub hear : Option (Bytes → Bytes → Heard → Heard)
hear = some (λ vendor_id text s. s ++ (vendor_id, text) ∷ [])

abbrev pub From : Bytes → Heard → Type 0
From vendor_id s = All (λ (e : Bytes × Bytes). e.0 ≡ vendor_id) s

abbrev heard_by : Heard → Bytes × Bytes → Heard
heard_by s e = s ++ e ∷ []

feed-From :
    (vendor_id : Bytes) (texts : List Bytes) (s : Heard)
    → From vendor_id s
    → From vendor_id (feed (λ v text t. t ++ (v, text) ∷ []) vendor_id texts s)
unfolding feed
feed-From vendor_id [] s h = h
feed-From vendor_id (text ∷ texts) s h =
    feed-From vendor_id texts (s ++ (vendor_id, text) ∷ [])
      (All-append (λ (e : Bytes × Bytes). e.0 ≡ vendor_id) s ((vendor_id, text) ∷ []) h (refl, tt))

-- A turn that goes on has passed nothing on; one that returns names the vendor of all it passed on.
abbrev OneVoice : Turn Heard → Type 0
OneVoice (return r) = From r.result.vendor_id r.world.sink
OneVoice (continue res w) = w.sink ≡ []

module _ (env : Env) where
  penalize_voice :
      (v : Vendor) (pen : Penalty) (class : FailureClass) (res : Result) (w : World Heard)
      → w.sink ≡ []
      → OneVoice (penalize env hear v pen class res w)
  unfolding penalize
  penalize_voice v pen class res w e = if_rule OneVoice (env.fails w.point) (λ _. rw e tt) (λ _. e)

  settle_voice :
      (o : InvokeOutcome) (v : Vendor) (pen : Penalty) (oc : InvokeResult) (failed : Bool)
      (res : Result) (w : World Heard)
      → o ≢ invoke_unknown
      → From v.vendor_id w.sink
      → (oc.streamed ≡ false → w.sink ≡ [])
      → OneVoice (settle env hear o v pen oc failed res w)
  unfolding settle
  settle_voice invoke_success v pen oc failed res w known h q = h
  settle_voice invoke_timeout v pen oc failed res w known h q = h
  settle_voice invoke_crash v pen oc failed res w known h q =
      on_crash_cases env hear OneVoice v pen oc failed res w h (λ s.
        let class = classify env.decode oc.stdout oc.stderr in
        penalize_voice v pen class (add_attempt res (attempt_of v.vendor_id oc class)) w (q s))
  settle_voice invoke_unknown v pen oc failed res w known h q = absurd (known refl)

  module _ (work_dir user_msg : Bytes) (timeout : ℕ)
      (known : (n : ℕ) (q : Request) (db : Db) → (env.invoke n q db).0.outcome ≢ invoke_unknown)
      (reported : (n : ℕ) (q : Request) (db : Db)
        → (env.invoke n q db).0.streamed ≡ false
        → (env.invoke n q db).0.delivered ≡ []) where
    invoked_known :
        (v : Vendor) (cred_env : List (Bytes × Bytes)) (w : World Heard)
        → (invoked env hear work_dir user_msg timeout v cred_env w).0.outcome ≢ invoke_unknown
    unfolding invoked
    invoked_known v cred_env w = known w.point _ w.db

    invoked-From :
        (v : Vendor) (cred_env : List (Bytes × Bytes)) (w : World Heard)
        → w.sink ≡ []
        → From v.vendor_id (invoked env hear work_dir user_msg timeout v cred_env w).2.sink
    unfolding invoked
    invoked-From v cred_env w e = feed-From v.vendor_id _ w.sink (rw e tt)

    invoked_quiet :
        (v : Vendor) (cred_env : List (Bytes × Bytes)) (w : World Heard)
        → w.sink ≡ []
        → (invoked env hear work_dir user_msg timeout v cred_env w).0.streamed ≡ false
        → (invoked env hear work_dir user_msg timeout v cred_env w).2.sink ≡ []
    unfolding invoked feed
    invoked_quiet v cred_env w e q = rw (reported w.point _ w.db q) e

    visit_voice :
        (v : Vendor) (res : Result) (w : World Heard)
        → w.sink ≡ []
        → OneVoice (visit env hear work_dir user_msg timeout v res w)
    visit_voice v res w e =
        visit_cases env hear work_dir user_msg timeout OneVoice v res w (λ off. e) (rw e tt)
          (λ on out. e) (λ on ok. rw e tt)
          (λ cred_env on ok.
            let w' = tick (tick w) in
            let i = invoked env hear work_dir user_msg timeout v cred_env w' in
            settle_voice i.0.outcome v (pen_of env hear work_dir user_msg timeout v w) i.0 i.1 res
              i.2 (invoked_known v cred_env w') (invoked-From v cred_env w' e)
              (invoked_quiet v cred_env w' e))

    -- If the invoker reports one of its three outcomes, and reports that it streamed whenever it
    -- delivered a message, then every message that a run passes on comes from the vendor that its
    -- result names: no second vendor speaks after a first one that failed.
    pub run_one_voice :
        (w : World Heard)
        → w.sink ≡ []
        → let r = run env hear work_dir user_msg timeout w in From r.result.vendor_id r.world.sink
    run_one_voice w e =
        run_cases env hear work_dir user_msg timeout (λ r. From r.result.vendor_id r.world.sink) w
          (rw e tt) (rw e tt)
          (walk_inv env hear work_dir user_msg timeout (λ vs res w'. w'.sink ≡ [])
            (λ r. From r.result.vendor_id r.world.sink)
            (λ v vs res w' r p h. subst OneVoice h (visit_voice v res w' p))
            (λ v vs res res' w' w'' p h. subst OneVoice h (visit_voice v res w' p))
            (λ res w' p. rw p tt) (list_vendors w.db) no_result (tick w) e)
