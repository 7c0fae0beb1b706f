-- ===== src/Vendor/Pool/Cases.antt =====
-- The ways in which a turn of the loop can go, as rules that the proofs about runs apply.
use espur.Base.{
  ℕ, suc, ◌≡◌, refl, Bool, true, false, not, List, [], ◌∷◌, ◌⊎◌, inl, inr, Option, none, some,
  Bytes, if_rule, Bool-cases, Option-cases,
}
use espur.Store.{Vendor, Penalty}
use espur.Store.Vendors.{get_penalty, list_vendors}
use espur.Vendor.{InvokeResult, Result, outcome_all_drained}
use espur.Vendor.Penalty.{is_eligible}
use espur.Vendor.Classify.{classify}
use espur.Vendor.Pool.{
  Env, World, Run, Turn, return, continue, cancelled, db_error, no_result, load_cred_env,
  snapshot_of, add_penalized, tick, is_none, add_attempt, attempt_of,
}
use espur.Vendor.Pool.Walk.{
  credential_crash, crashed, penalize, on_crash, invoked, settled, attempt, visit, walk, run,
}

abbrev pub result_of : {S : Type 0} → Turn S → Result
result_of (return r) = r.result
result_of (continue res w) = res

abbrev pub world_of : {S : Type 0} → Turn S → World S
world_of (return r) = r.world
world_of (continue res w) = w

-- A crash ends the run, or is written to the penalty box if nothing was streamed.
pub on_crash_cases {κ} :
    {S : Type 0} (env : Env) (stream : Option (Bytes → Bytes → S → S)) (P : Turn S → Type κ)
    (v : Vendor) (pen : Penalty) (oc : InvokeResult) (failed : Bool) (res : Result) (w : World S)
    → let class = classify env.decode oc.stdout oc.stderr in
      let res' = add_attempt res (attempt_of v.vendor_id oc class) in
      P (crashed env stream v oc failed res' w)
      → (oc.streamed ≡ false → P (penalize env stream v pen class res' w))
      → P (on_crash env stream v pen oc failed res w)
unfolding on_crash
on_crash_cases env stream P v pen oc failed res w ends goes =
    if_rule P oc.streamed (λ _. ends)
      (λ s. if_rule P (is_none (classify env.decode oc.stdout oc.stderr)) (λ _. ends) (λ _. goes s))

module _ {S : Type 0} (env : Env) (stream : Option (Bytes → Bytes → S → S))
    (work_dir user_msg : Bytes) (timeout : ℕ) where
  abbrev pub pen_of : Vendor → World S → Penalty
  pen_of v w = get_penalty (env.now w.point) v.vendor_id w.db

  -- A turn passes over a disabled vendor, stops at a read that fails, lists a vendor that is not
  -- eligible, stops at a credential that cannot be read, or invokes the vendor.
  pub visit_cases {κ} :
      (P : Turn S → Type κ) (v : Vendor) (res : Result) (w : World S)
      → (v.enabled ≡ false → P (continue res w))
      → P (return (record { result = no_result; error = some db_error; world = tick w }))
      → (v.enabled ≡ true
          → is_eligible (pen_of v w) (env.now w.point) ≡ false
          → P (continue (add_penalized res (snapshot_of (pen_of v w) v.vendor_id)) (tick w)))
      → (v.enabled ≡ true
          → is_eligible (pen_of v w) (env.now w.point) ≡ true
          → P (credential_crash env stream v res (tick (tick w))))
      → ((cred_env : List (Bytes × Bytes))
          → v.enabled ≡ true
          → is_eligible (pen_of v w) (env.now w.point) ≡ true
          → P (
              settled env stream work_dir user_msg timeout v
                (pen_of v w)
                res
                (invoked env stream work_dir user_msg timeout v cred_env (tick (tick w)))))
      → P (visit env stream work_dir user_msg timeout v res w)
  unfolding visit attempt
  visit_cases P v res w off fault out cred on = elim (Bool-cases v.enabled) [
    | inr e ↦ rw (e, visit) (off e)
    | inl e ↦ elim (Bool-cases (env.fails w.point)) [
      | inl f ↦ rw (e, f, visit) fault
      | inr f ↦ elim (Bool-cases (is_eligible (pen_of v w) (env.now w.point))) [
        | inr g ↦ rw (e, f, g, visit) (out e g)
        | inl g ↦ elim (Option-cases (load_cred_env env (suc w.point) v.vendor_id w.db)) [
          | inl h ↦ rw (e, f, g, visit, h, attempt) (cred e g)
          | inr (c, h) ↦ rw (e, f, g, visit, h, attempt) (on c e g)
        ]
      ]
    ]
  ]

  -- An invariant of the loop that holds of what a run returns.
  pub walk_inv {κ μ} :
      (P : List Vendor → Result → World S → Type κ) (Q : Run S → Type μ)
      → ((v : Vendor) (vs : List Vendor) (res : Result) (w : World S) (r : Run S)
          → P (v ∷ vs) res w
          → visit env stream work_dir user_msg timeout v res w ≡ return r
          → Q r)
      → ((v : Vendor) (vs : List Vendor) (res res' : Result) (w w' : World S)
          → P (v ∷ vs) res w
          → visit env stream work_dir user_msg timeout v res w ≡ continue res' w'
          → P vs res' w')
      → ((res : Result) (w : World S)
          → P [] res w
          → Q (record {
            result = record res { outcome = outcome_all_drained };
            error = none;
            world = w;
          }))
      → (vs : List Vendor) (res : Result) (w : World S) → P vs res w
      → Q (walk env stream work_dir user_msg timeout vs res w)
  unfolding walk
  walk_inv P Q stop go end [] res w p = end res w p
  walk_inv P Q stop go end (v ∷ vs) res w p =
      elim (Turn-cases (visit env stream work_dir user_msg timeout v res w)) [
        | inl (r, e) ↦ rw (e, walk) (stop v vs res w r p e)
        | inr (res', w', e) ↦
            rw (e, walk) (walk_inv P Q stop go end vs res' w' (go v vs res res' w w' p e))
      ]
    where
      Turn-cases :
          (t : Turn S)
          → ((r : Run S) × (t ≡ return r))
            ⊎ ((res' : Result) × (w' : World S) × (t ≡ continue res' w'))
      Turn-cases (return r) = inl (r, refl)
      Turn-cases (continue res' w') = inr (res', w', refl)

  -- A run gets no slot, cannot read the list, or walks it.
  pub run_cases {κ} :
      (P : Run S → Type κ) (w : World S)
      → P (record { result = no_result; error = some cancelled; world = w })
      → P (record { result = no_result; error = some db_error; world = tick w })
      → P (walk env stream work_dir user_msg timeout (list_vendors w.db) no_result (tick w))
      → P (run env stream work_dir user_msg timeout w)
  unfolding run
  run_cases P w refused fault walked =
      if_rule P (not env.slot) (λ _. refused)
        (λ _. if_rule P (env.fails w.point) (λ _. fault) (λ _. walked))
