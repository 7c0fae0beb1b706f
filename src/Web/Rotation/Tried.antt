-- ===== src/Web/Rotation/Tried.antt =====
-- The vendor that the strip names is the one that the pool tries first.
use espur.Base.{
  ℕ, suc, ◌+◌, ◌≡◌, ◌≢◌, refl, ◌∙◌, sym, ap, subst, inl, inr, ◌⊎◌, Bool, true, false, not, ◌&&◌,
  List, [], ◌∷◌, ◌++◌, Option, none, some, Bytes, if_false, Bool-cases, Option-cases, All, arith,
}
use espur.Store.{Vendor, Penalty, PenaltyStatus, eligible, cooldown, auth_locked, other, Db}
use espur.Store.Vendors.{list_vendors, get_penalty}
use espur.Vendor.{
  InvokeOutcome, invoke_unknown, invoke_success, invoke_timeout, invoke_crash, InvokeResult,
  class_none, Result,
}
use espur.Vendor.Penalty.{is_eligible}
use espur.Vendor.Pool.{
  Env, Request, World, Run, Turn, return, continue, no_result, tick, attempt_of, credential_attempt,
  load_cred_env, add_penalized, snapshot_of,
}
use espur.Vendor.Pool.Cases.{result_of, pen_of, walk_inv}
use espur.Vendor.Pool.Order.{tried, tried-append, on_crash_attempts}
use espur.Vendor.Pool.Walk.{request_of, settle, invoked, attempt, visit, walk, run}
use espur.Web.Rotation.{no_tally, strip_ready, cred_ok, build_strip, ready_by}
use espur.Web.Rotation.Shown.{calm, first_ready, in_rotation-strip_from, IsPlain, PlainVendor}

-- The strip's test of a penalty is the pool's, but for the instant at which a cooldown ends.
strip_ready_lem :
    (pen : Penalty) (t : ℕ)
    → IsPlain t pen.status pen.cooldown_until
    → strip_ready pen t ≡ is_eligible pen t
unfolding strip_ready is_eligible
strip_ready_lem pen t plain = by_status pen.status pen.cooldown_until plain
  where
    by_status :
        (s : PenaltyStatus) (until : Option ℕ)
        → IsPlain t s until
        → ready_by s until t ≡ is_eligible (record pen { status = s; cooldown_until = until }) t
    by_status eligible until plain = refl
    by_status cooldown none plain = refl
    by_status cooldown (some u) plain = ground arith
    by_status auth_locked until plain = refl
    by_status (other s) until plain = absurd plain

-- The first item of a list is the one given.
abbrev pub BeginsWith : Bytes → List Bytes → Type 0
BeginsWith id ids = (rest : List Bytes) × (ids ≡ id ∷ rest)

-- The credential that the strip asks for.
abbrev pub HasCredential : ℕ → Db → Vendor → Type 0
HasCredential t db v = v.enabled ≡ true → cred_ok (calm t) 0 v db ≡ true

first_ready_on :
    (t i : ℕ) (v : Vendor) (vs : List Vendor) (db : Db)
    → v.vendor_id ≢ []
    → v.enabled ≡ true
    → strip_ready (get_penalty t v.vendor_id db) t ≡ true
    → cred_ok (calm t) 0 v db ≡ true
    → first_ready (calm t) i (v ∷ vs) db ≡ v.vendor_id
unfolding cred_ok
first_ready_on t i v vs db named on ready cred = ground arith

first_ready_off :
    (t i : ℕ) (v : Vendor) (vs : List Vendor) (db : Db)
    → (v.enabled && strip_ready (get_penalty t v.vendor_id db) t) ≡ false
    → first_ready (calm t) i (v ∷ vs) db ≡ first_ready (calm t) (i + 2) vs db
first_ready_off t i v vs db off = ground arith

and_left : (a b : Bool) → (a && b) ≡ true → a ≡ true
and_left a b h = ground arith

and_right : (a b : Bool) → (a && b) ≡ true → b ≡ true
and_right a b h = ground arith

module _ {S : Type 0} (env : Env) (stream : Option (Bytes → Bytes → S → S))
    (work_dir user_msg : Bytes) (timeout t : ℕ) (quiet : (p : ℕ) → env.fails p ≡ false)
    (still : (p : ℕ) → env.now p ≡ t)
    (known : (p : ℕ) (req : Request) (db : Db)
      → (env.invoke p req db).0.outcome ≢ invoke_unknown) where
  tried-settle :
      (o : InvokeOutcome) (v : Vendor) (pen : Penalty) (oc : InvokeResult) (failed : Bool)
      (res : Result) (w : World S)
      → o ≢ invoke_unknown
      → tried (result_of (settle env stream o v pen oc failed res w)).attempts
        ≡ tried res.attempts ++ v.vendor_id ∷ []
  unfolding settle
  tried-settle invoke_success v pen oc failed res w ne =
      tried-append res.attempts (attempt_of v.vendor_id oc class_none ∷ [])
  tried-settle invoke_timeout v pen oc failed res w ne =
      tried-append res.attempts (attempt_of v.vendor_id oc class_none ∷ [])
  tried-settle invoke_crash v pen oc failed res w ne =
      on_crash_attempts env stream v pen oc failed res w
  tried-settle invoke_unknown v pen oc failed res w ne = absurd (ne refl)

  tried-attempt :
      (v : Vendor) (pen : Penalty) (res : Result) (w : World S)
      → tried (result_of (attempt env stream work_dir user_msg timeout v pen res w)).attempts
        ≡ tried res.attempts ++ v.vendor_id ∷ []
  unfolding attempt invoked
  tried-attempt v pen res w = elim (Option-cases (load_cred_env env w.point v.vendor_id w.db)) [
    | inl e ↦ rw (e, attempt) (tried-append res.attempts (credential_attempt v.vendor_id ∷ []))
    | inr (c, e) ↦
        let i = invoked env stream work_dir user_msg timeout v c (tick w) in
        rw (e, attempt)
          (tried-settle i.0.outcome v pen i.0 i.1 res i.2
            (known (suc w.point) (request_of env stream work_dir user_msg timeout v c) w.db))
  ]

  visit_on :
      (v : Vendor) (res : Result) (w : World S)
      → v.enabled ≡ true
      → is_eligible (pen_of env stream work_dir user_msg timeout v w) (env.now w.point) ≡ true
      → visit env stream work_dir user_msg timeout v res w
        ≡ attempt env stream work_dir user_msg timeout v
            (pen_of env stream work_dir user_msg timeout v w)
            res
            (tick w)
  unfolding visit
  visit_on v res w e g = rw (e, quiet w.point, g, visit) refl

  visit_off :
      (v : Vendor) (res : Result) (w : World S)
      → (v.enabled
          && is_eligible (pen_of env stream work_dir user_msg timeout v w) (env.now w.point))
        ≡ false
      → (res' : Result) × (w' : World S) × (visit env stream work_dir user_msg timeout v res w
          ≡ continue res' w')
        × (res'.attempts ≡ res.attempts)
        × (w'.db ≡ w.db)
  unfolding visit
  visit_off v res w h = elim (Bool-cases v.enabled) [
    | inr e ↦ (res, w, rw (e, visit) refl, refl, refl)
    | inl e ↦
        let pen = pen_of env stream work_dir user_msg timeout v w in
        (
          add_penalized res (snapshot_of pen v.vendor_id),
          tick w,
          rw (e, quiet w.point, (rw e at h), visit) refl,
          refl,
          refl,
        )
  ]

  visit-tried :
      (v : Vendor) (res : Result) (w : World S)
      → (tried (result_of (visit env stream work_dir user_msg timeout v res w)).attempts
          ≡ tried res.attempts)
        ⊎ (tried (result_of (visit env stream work_dir user_msg timeout v res w)).attempts
            ≡ tried res.attempts ++ v.vendor_id ∷ [])
  visit-tried v res w =
      let pen = pen_of env stream work_dir user_msg timeout v w in
      elim (Bool-cases (v.enabled && is_eligible pen (env.now w.point))) [
        | inr h ↦ let (res', w', e, a, d) = visit_off v res w h in inl (rw e (ap tried a))
        | inl h ↦ inr (
            rw (visit_on v res w (and_left v.enabled _ h) (and_right v.enabled _ h))
              (tried-attempt v pen res (tick w)))
      ]

  Begins-append : (id : Bytes) (xs ys : List Bytes) → BeginsWith id xs → BeginsWith id (xs ++ ys)
  Begins-append id xs ys (rest, e) = (rest ++ ys, ap (λ l. l ++ ys) e)

  walk_begins :
      (id : Bytes) (vs : List Vendor) (res : Result) (w : World S)
      → BeginsWith id (tried res.attempts)
      → BeginsWith id (tried (walk env stream work_dir user_msg timeout vs res w).result.attempts)
  walk_begins id =
      walk_inv env stream work_dir user_msg timeout (λ vs res w. BeginsWith id (tried res.attempts))
        (λ r. BeginsWith id (tried r.result.attempts))
        (λ v vs res w r b e.
          subst (λ u. BeginsWith id (tried (result_of u).attempts)) e (step v res w b))
        (λ v vs res res' w w' b e.
          subst (λ u. BeginsWith id (tried (result_of u).attempts)) e (step v res w b))
        (λ res w b. b)
    where
      step :
          (v : Vendor) (res : Result) (w : World S)
          → BeginsWith id (tried res.attempts)
          → BeginsWith id
              (tried (result_of (visit env stream work_dir user_msg timeout v res w)).attempts)
      step v res w b = elim (visit-tried v res w) [
        | inl e ↦ rw e b
        | inr e ↦ rw e (Begins-append id (tried res.attempts) (v.vendor_id ∷ []) b)
      ]

  after_visit :
      (id : Bytes) (v : Vendor) (vs : List Vendor) (res : Result) (w : World S) (u : Turn S)
      → visit env stream work_dir user_msg timeout v res w ≡ u
      → BeginsWith id (tried (result_of u).attempts)
      → BeginsWith id
          (tried (walk env stream work_dir user_msg timeout (v ∷ vs) res w).result.attempts)
  unfolding walk
  after_visit id v vs res w (return r) e b = rw (e, walk) b
  after_visit id v vs res w (continue res' w') e b = rw (e, walk) (walk_begins id vs res' w' b)

  same_test :
      (v : Vendor) (db : Db) (w : World S)
      → w.db ≡ db
      → PlainVendor t db v
      → is_eligible (pen_of env stream work_dir user_msg timeout v w) (env.now w.point)
        ≡ strip_ready (get_penalty t v.vendor_id db) t
  same_test v db w d plain =
      ap (λ (d : Db). is_eligible (get_penalty (env.now w.point) v.vendor_id d) (env.now w.point)) d
      ∙ ap (λ (n : ℕ). is_eligible (get_penalty n v.vendor_id db) n) (still w.point)
      ∙ sym (strip_ready_lem (get_penalty t v.vendor_id db) t plain.1)

  walk_first :
      (i : ℕ) (id : Bytes) (db : Db) (vs : List Vendor) (res : Result) (w : World S)
      → w.db ≡ db
      → tried res.attempts ≡ []
      → id ≢ []
      → first_ready (calm t) i vs db ≡ id
      → All (PlainVendor t db) vs
      → All (HasCredential t db) vs
      → BeginsWith id (tried (walk env stream work_dir user_msg timeout vs res w).result.attempts)
  unfolding walk
  walk_first i id db [] res w d none_yet named first plain cred = absurd (named (sym first))
  walk_first i id db (v ∷ vs) res w d none_yet named first plain cred =
      let pen = get_penalty t v.vendor_id db in
      let test = same_test v db w d plain.0 in
      elim (Bool-cases (v.enabled && strip_ready pen t)) [
        | inl h ↦
            let on = and_left v.enabled _ h in
            let ready = and_right v.enabled _ h in
            let name = first_ready_on t i v vs db plain.0.0 on ready (cred.0 on) in
            after_visit id v vs res w (visit env stream work_dir user_msg timeout v res w) refl (
              rw (visit_on v res w on (test ∙ ready)) (
                [],
                tried-attempt v (pen_of env stream work_dir user_msg timeout v w) res (tick w)
                    ∙ ap (λ l. l ++ v.vendor_id ∷ []) none_yet
                    ∙ ap (λ n. n ∷ []) (sym name ∙ first),
              ))
        | inr h ↦
            let (res', w', e, a, d') = visit_off v res w (ap (λ b. v.enabled && b) test ∙ h) in
            rw (e, walk)
              (walk_first (i + 2) id db vs res' w' (d' ∙ d) (ap tried a ∙ none_yet) named
                (sym (first_ready_off t i v vs db h) ∙ first) plain.1 cred.1)
      ]

  -- The strip tells the truth: if it names a vendor, then a run of the pool that gets a slot tries
  -- that vendor first. Asked is that the page and the run work on one database without faults and
  -- at one instant, at which no cooldown ends; that the vendors have names and known statuses; that
  -- the invoker knows its outcomes; and that every enabled vendor has its credential.
  pub rotation_is_tried :
      (version : Bytes) (adapters : List (Bytes × Bool)) (w : World S)
      → env.slot ≡ true
      → (build_strip (calm t) version adapters w.db).in_rotation ≢ []
      → All (PlainVendor t w.db) (list_vendors w.db)
      → All (HasCredential t w.db) (list_vendors w.db)
      → BeginsWith
          (build_strip (calm t) version adapters w.db).in_rotation
          (tried (run env stream work_dir user_msg timeout w).result.attempts)
  unfolding run build_strip
  rotation_is_tried version adapters w slot named plain cred =
      let id = (build_strip (calm t) version adapters w.db).in_rotation in
      let shown =
        in_rotation-strip_from (calm t) 0 (list_vendors w.db) w.db
          (record { adapters = adapters; tally = no_tally; in_rotation = []; version = version }) in
      subst (λ (r : Run S). BeginsWith id (tried r.result.attempts))
        (sym (if_false _ _ (ap not slot) ∙ if_false _ _ (quiet w.point)))
        (walk_first 0 id w.db (list_vendors w.db) no_result (tick w) refl refl named (sym shown)
          plain cred)
