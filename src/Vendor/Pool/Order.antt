-- ===== src/Vendor/Pool/Order.antt =====
-- Which vendors a run tries, in which order, and what an all-drained result lists.
use espur.Base.{
  ℕ, ◌≡◌, refl, subst, sym, ap, ◌∙◌, ◌⊎◌, inl, inr, Bool, true, List, [], ◌∷◌, ◌++◌, append_assoc,
  append-nil, Option, Bytes, if◌then◌else◌, if_rule, arith,
}
use espur.Store.{Vendor, Penalty}
use espur.Store.Vendors.{list_vendors}
use espur.Vendor.{
  InvokeOutcome, invoke_unknown, invoke_success, invoke_timeout, invoke_crash, InvokeResult,
  class_none, Attempt, PenalizedSnapshot, Result,
}
use espur.Vendor.Classify.{classify}
use espur.Vendor.Pool.Cases.{
  result_of, world_of, pen_of, visit_cases, walk_inv, run_cases, on_crash_cases,
}
use espur.Vendor.Pool.{Env, World, Turn, no_result, tick, attempt_of, credential_attempt}
use espur.Vendor.Pool.Walk.{invoked, settle, penalize, visit, walk, run, on_crash}

-- The items of the first list stand in the second, in its order.
pub data IsSublist {ℓ} {A : Type ℓ} : List A → List A → Type ℓ where
  nil : {ys : List A} → IsSublist [] ys
  keep : {a : A} {xs ys : List A} → IsSublist xs ys → IsSublist (a ∷ xs) (a ∷ ys)
  skip : {a : A} {xs ys : List A} → IsSublist xs ys → IsSublist xs (a ∷ ys)

IsSublist-right {ℓ} :
    {A : Type ℓ} {xs ys : List A} (zs : List A) → IsSublist xs ys → IsSublist xs (ys ++ zs)
IsSublist-right zs nil = nil
IsSublist-right zs (keep s) = keep (IsSublist-right zs s)
IsSublist-right zs (skip s) = skip (IsSublist-right zs s)

IsSublist-single {ℓ} : {A : Type ℓ} (a : A) (ys : List A) → IsSublist (a ∷ []) (ys ++ a ∷ [])
IsSublist-single a [] = keep nil
IsSublist-single a (y ∷ ys) = skip (IsSublist-single a ys)

IsSublist-last {ℓ} :
    {A : Type ℓ} (a : A) {xs ys : List A}
    → IsSublist xs ys
    → IsSublist (xs ++ a ∷ []) (ys ++ a ∷ [])
IsSublist-last a (nil {ys = ys}) = IsSublist-single a ys
IsSublist-last a (keep s) = keep (IsSublist-last a s)
IsSublist-last a (skip s) = skip (IsSublist-last a s)

abbrev pub enabled_ids : List Vendor → List Bytes
enabled_ids [] = []
enabled_ids (v ∷ vs) = if v.enabled then v.vendor_id ∷ enabled_ids vs else enabled_ids vs

pub enabled_ids_on : (v : Vendor) → v.enabled ≡ true → enabled_ids (v ∷ []) ≡ v.vendor_id ∷ []
enabled_ids_on v e = ground arith

abbrev pub tried : List Attempt → List Bytes
tried [] = []
tried (a ∷ rest) = a.vendor_id ∷ tried rest

abbrev pub listed : List PenalizedSnapshot → List Bytes
listed [] = []
listed (p ∷ ps) = p.vendor_id ∷ listed ps

pub tried-append : (xs ys : List Attempt) → tried (xs ++ ys) ≡ tried xs ++ tried ys
tried-append [] ys = refl
tried-append (a ∷ rest) ys = ap (◌∷◌ a.vendor_id) (tried-append rest ys)

pub listed-append : (xs ys : List PenalizedSnapshot) → listed (xs ++ ys) ≡ listed xs ++ listed ys
listed-append [] ys = refl
listed-append (a ∷ rest) ys = ap (◌∷◌ a.vendor_id) (listed-append rest ys)

-- A turn tries no vendor or its own, and drops what was tried where a read of a penalty fails.
abbrev Extends : Vendor → List Attempt → List Attempt → Type 0
Extends v xs ys =
    (tried ys ≡ tried xs) ⊎ (tried ys ≡ []) ⊎ (tried ys ≡ tried xs ++ v.vendor_id ∷ [])

module _ {S : Type 0} (env : Env) (stream : Option (Bytes → Bytes → S → S)) where
  pub on_crash_attempts :
      (v : Vendor) (pen : Penalty) (oc : InvokeResult) (failed : Bool) (res : Result) (w : World S)
      → tried (result_of (on_crash env stream v pen oc failed res w)).attempts
        ≡ tried res.attempts ++ v.vendor_id ∷ []
  unfolding on_crash
  on_crash_attempts v pen oc failed res w = ground (
    arith,
    tried-append res.attempts
        (attempt_of v.vendor_id oc (classify env.decode oc.stdout oc.stderr) ∷ []),
  )

  -- What follows an invocation makes no other.
  settle_calls :
      (o : InvokeOutcome) (v : Vendor) (pen : Penalty) (oc : InvokeResult) (failed : Bool)
      (res : Result) (w : World S)
      → (world_of (settle env stream o v pen oc failed res w)).calls ≡ w.calls
  unfolding settle penalize
  settle_calls invoke_success v pen oc failed res w = refl
  settle_calls invoke_timeout v pen oc failed res w = refl
  settle_calls invoke_crash v pen oc failed res w =
      on_crash_cases env stream (λ t. (world_of t).calls ≡ w.calls) v pen oc failed res w refl
        (λ _.
          if_rule (λ (t : Turn S). (world_of t).calls ≡ w.calls) (env.fails w.point) (λ _. refl)
            (λ _. refl))
  settle_calls invoke_unknown v pen oc failed res w = refl

  settle_attempts :
      (o : InvokeOutcome) (v : Vendor) (pen : Penalty) (oc : InvokeResult) (failed : Bool)
      (res : Result) (w : World S)
      → Extends v res.attempts (result_of (settle env stream o v pen oc failed res w)).attempts
  unfolding settle
  settle_attempts invoke_success v pen oc failed res w =
      inr (inr (tried-append res.attempts (attempt_of v.vendor_id oc class_none ∷ [])))
  settle_attempts invoke_timeout v pen oc failed res w =
      inr (inr (tried-append res.attempts (attempt_of v.vendor_id oc class_none ∷ [])))
  settle_attempts invoke_crash v pen oc failed res w =
      inr (inr (on_crash_attempts v pen oc failed res w))
  settle_attempts invoke_unknown v pen oc failed res w = inl refl

  Extends-IsSublist :
      (v : Vendor) (ids : List Bytes) (xs ys : List Attempt)
      → IsSublist (tried xs) ids
      → Extends v xs ys
      → IsSublist (tried ys) (ids ++ v.vendor_id ∷ [])
  Extends-IsSublist v ids xs ys s (inl e) = rw e (IsSublist-right (v.vendor_id ∷ []) s)
  Extends-IsSublist v ids xs ys s (inr (inl e)) = rw e nil
  Extends-IsSublist v ids xs ys s (inr (inr e)) = rw e (IsSublist-last v.vendor_id s)

  Extends-enabled :
      (v : Vendor) (ids : List Bytes) (xs ys : List Attempt)
      → v.enabled ≡ true
      → IsSublist (tried xs) ids
      → Extends v xs ys
      → IsSublist (tried ys) (ids ++ enabled_ids (v ∷ []))
  Extends-enabled v ids xs ys e s x =
      subst (λ l. IsSublist (tried ys) (ids ++ l)) (sym (enabled_ids_on v e))
        (Extends-IsSublist v ids xs ys s x)

  module _ (work_dir user_msg : Bytes) (timeout : ℕ) where
    -- What a turn leaves, for the vendors up to and with its own.
    visit_attempts :
        (v : Vendor) (ids : List Bytes) (res : Result) (w : World S)
        → IsSublist (tried res.attempts) ids
        → IsSublist
            (tried (result_of (visit env stream work_dir user_msg timeout v res w)).attempts)
            (ids ++ enabled_ids (v ∷ []))
    visit_attempts v ids res w s =
        visit_cases env stream work_dir user_msg timeout
          (λ t. IsSublist (tried (result_of t).attempts) (ids ++ enabled_ids (v ∷ []))) v res w
          (λ off. IsSublist-right (enabled_ids (v ∷ [])) s) nil
          (λ on out. IsSublist-right (enabled_ids (v ∷ [])) s)
          (λ on ok.
            Extends-enabled v ids res.attempts (res.attempts ++ credential_attempt v.vendor_id ∷ [])
              on s (inr (inr (tried-append res.attempts (credential_attempt v.vendor_id ∷ [])))))
          (λ cred_env on ok.
            let (oc, failed, w') =
              invoked env stream work_dir user_msg timeout v cred_env (tick (tick w)) in
            let pen = pen_of env stream work_dir user_msg timeout v w in
            Extends-enabled v ids res.attempts
              (result_of (settle env stream oc.outcome v pen oc failed res w')).attempts on s
              (settle_attempts oc.outcome v pen oc failed res w'))

    -- The same of the invocations: a turn makes none, or one of its vendor.
    visit_calls :
        (v : Vendor) (ids : List Bytes) (res : Result) (w : World S)
        → IsSublist w.calls ids
        → IsSublist
            (world_of (visit env stream work_dir user_msg timeout v res w)).calls
            (ids ++ enabled_ids (v ∷ []))
    unfolding invoked
    visit_calls v ids res w s =
        visit_cases env stream work_dir user_msg timeout
          (λ t. IsSublist (world_of t).calls (ids ++ enabled_ids (v ∷ []))) v res w
          (λ off. same_calls) same_calls (λ on out. same_calls) (λ on ok. same_calls)
          (λ cred_env on ok.
            let (oc, failed, w') =
              invoked env stream work_dir user_msg timeout v cred_env (tick (tick w)) in
            let pen = pen_of env stream work_dir user_msg timeout v w in
            subst (λ l. IsSublist l (ids ++ enabled_ids (v ∷ [])))
              (sym (settle_calls oc.outcome v pen oc failed res w'))
              (subst (λ l. IsSublist (w.calls ++ v.vendor_id ∷ []) (ids ++ l))
                (sym (enabled_ids_on v on)) (IsSublist-last v.vendor_id s)))
      where
        same_calls : IsSublist w.calls (ids ++ enabled_ids (v ∷ []))
        same_calls = IsSublist-right (enabled_ids (v ∷ [])) s

    enabled_ids-cons :
        (v : Vendor) (vs : List Vendor)
        → enabled_ids (v ∷ vs) ≡ enabled_ids (v ∷ []) ++ enabled_ids vs
    enabled_ids-cons v vs = ground arith

    -- Two lists that follow the walk: what was invoked, and what the result lists.
    abbrev AreInOrder : List Bytes → World S → Result → Type 0
    AreInOrder ids w res = IsSublist w.calls ids × IsSublist (tried res.attempts) ids

    visit_extends :
        (v : Vendor) (ids : List Bytes) (res : Result) (w : World S)
        → AreInOrder ids w res
        → let t = visit env stream work_dir user_msg timeout v res w in
          AreInOrder (ids ++ enabled_ids (v ∷ [])) (world_of t) (result_of t)
    visit_extends v ids res w (c, s) = (visit_calls v ids res w c, visit_attempts v ids res w s)

    abbrev Progress : List Bytes → List Vendor → Result → World S → Type 0
    Progress all vs res w =
        (ids : List Bytes) × AreInOrder ids w res × (ids ++ enabled_ids vs ≡ all)

    walk_attempts :
        (all : List Bytes) (vs : List Vendor) (res : Result) (w : World S)
        → Progress all vs res w
        → let r = walk env stream work_dir user_msg timeout vs res w in
          AreInOrder all r.world r.result
    walk_attempts all =
        walk_inv env stream work_dir user_msg timeout (Progress all)
          (λ r. AreInOrder all r.world r.result)
          (λ v vs res w r (ids, s, e) h.
            let b =
              subst (λ t. AreInOrder (ids ++ enabled_ids (v ∷ [])) (world_of t) (result_of t)) h
                (visit_extends v ids res w s) in
            let whole = next ids v vs all e in
            (
              subst (IsSublist r.world.calls) whole (IsSublist-right (enabled_ids vs) b.0),
              subst (IsSublist (tried r.result.attempts)) whole
                  (IsSublist-right (enabled_ids vs) b.1),
            ))
          (λ v vs res res' w w' (ids, s, e) h. (
            ids ++ enabled_ids (v ∷ []),
            subst (λ t. AreInOrder (ids ++ enabled_ids (v ∷ [])) (world_of t) (result_of t)) h
                (visit_extends v ids res w s),
            next ids v vs all e,
          ))
          (λ res w (ids, s, e). subst (λ a. AreInOrder a w res) (sym (append-nil ids) ∙ e) s)
      where
        next :
            (ids : List Bytes) (v : Vendor) (vs : List Vendor) (all : List Bytes)
            → ids ++ enabled_ids (v ∷ vs) ≡ all
            → (ids ++ enabled_ids (v ∷ [])) ++ enabled_ids vs ≡ all
        next ids v vs all e =
            append_assoc ids (enabled_ids (v ∷ [])) (enabled_ids vs)
            ∙ (ap (◌++◌ ids) (sym (enabled_ids-cons v vs)) ∙ e)

    -- The vendors that a run calls the invoker for are enabled ones, called in the order of the
    -- priority list and none more often than the list has it, whatever the clock, the database and
    -- the invoker do; and so are those that its result lists as attempts.
    pub run_tries_in_order :
        (w : World S)
        → w.calls ≡ []
        → let r = run env stream work_dir user_msg timeout w in
          IsSublist r.world.calls (enabled_ids (list_vendors w.db))
          × IsSublist (tried r.result.attempts) (enabled_ids (list_vendors w.db))
    run_tries_in_order w none_yet =
        let ids = enabled_ids (list_vendors w.db) in
        let idle : IsSublist w.calls ids = subst (λ l. IsSublist l ids) (sym none_yet) nil in
        run_cases env stream work_dir user_msg timeout (λ r. AreInOrder ids r.world r.result) w
          (idle, nil) (idle, nil)
          (walk_attempts ids (list_vendors w.db) no_result (tick w)
            ([], (subst (λ l. IsSublist l []) (sym none_yet) nil, nil), refl))
