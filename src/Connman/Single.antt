-- ===== src/Connman/Single.antt =====
-- The interleavings of the connection manager: one live object for each id, when a stop panics, and
-- what becomes of a start that a stop has overtaken.
use espur.Base.{
  ℕ, ◌≡◌, ◌≢◌, refl, ◌∙◌, sym, ap, subst, ◌↔◌, inl, inr, true, false, not, Option, none, some,
  Bytes, if◌then◌else◌, if_rule, if_true, if_false, lookup, bytes_eq, ◌==◌, nat_eq, ==_iff, arith,
  Bool-cases,
}
use espur.Store.{Db}
use espur.Connman.{
  Manager, Slot, Phase, Taken, take_over, taken, call_cancel, check_ours, still_ours, cancel,
  closed, forget, set_slot, new_manager, unregister,
}
use espur.Connman.Moves.{Step, Runs, IsCalmStep, IsCalm, find}
use espur.Connman.Owner.{is_building, IsHeld, IsSound}
use espur.Connman.Edits.{
  reserve-IsSound, roll_back-IsSound, fail_start-IsSound, check-IsSound, shown-IsSound,
  handle-IsSound, live-IsSound, adapter-IsSound, drain-IsSound, cancel-IsSound, still_ours_iff,
  found-set_slot,
}

booted-IsSound : {m : Manager} → IsSound m → IsSound (record m { booted = true })
booted-IsSound sound = record {
  fresh = sound.fresh;
  staged = sound.staged;
  owned = sound.owned;
  held = sound.held;
}

released-IsSound : {m : Manager} (id : Bytes) → IsSound m → IsSound (unregister id m)
unfolding unregister
released-IsSound id sound = record {
  fresh = sound.fresh;
  staged = sound.staged;
  owned = sound.owned;
  held = sound.held;
}

call_cancel-IsSound :
    (id : Bytes) (n : ℕ) (m : Manager)
    → IsSound m
    → lookup id m.running ≡ some n
    → (s : Slot) × (find n m ≡ some s) × (s.conn.id ≡ id) × IsHeld s
    → (call_cancel n (find n m) (forget id m)).0 ≢ Taken.panics
    → IsSound (call_cancel n (find n m) (forget id m)).1
unfolding set_slot
call_cancel-IsSound id n m sound e (s, f, i, h) calm =
    subst (λ (r : Option Slot). IsSound (call_cancel n r (forget id m)).1) (sym f)
      (subst (λ j. IsSound (call_cancel n (some s) (forget j m)).1) i
        (if_rule (λ (r : Taken × Manager). IsSound r.1) s.cancel_set
          (λ _. cancel-IsSound m n s sound f (ap (λ j. lookup j m.running) i ∙ e))
          (λ unset. absurd (
            calm (
              subst (λ (r : Option Slot). (call_cancel n r (forget id m)).0 ≡ Taken.panics) (sym f)
                (ap (λ (r : Taken × Manager). r.0) (if_false _ _ unset)))))))

taken-IsSound :
    (id : Bytes) (o : Option ℕ) (m : Manager)
    → IsSound m
    → lookup id m.running ≡ o
    → (taken id o m).0 ≢ Taken.panics
    → IsSound (taken id o m).1
taken-IsSound id none m sound e calm = sound
taken-IsSound id (some n) m sound e calm =
    call_cancel-IsSound id n m sound e (sound.held id n e) calm

Step-IsSound : {m m' : Manager} → IsSound m → (s : Step m m') → IsCalmStep s → IsSound m'
unfolding take_over
Step-IsSound sound Step.boots c = booted-IsSound sound
Step-IsSound {m} sound (Step.reserves conn) c = reserve-IsSound conn m sound
Step-IsSound {m} sound (Step.build_fails n s f p) c = roll_back-IsSound m n s sound f
Step-IsSound {m} sound (Step.builds n s f p) c = adapter-IsSound m n s sound f p
Step-IsSound {m} sound (Step.start_fails n s f p) c = fail_start-IsSound m n s sound f
Step-IsSound {m} sound (Step.checks n s f p) c = check-IsSound m n s sound f p
Step-IsSound {m} sound (Step.registers n s f p) c = live-IsSound m n s sound f p
Step-IsSound {m} sound (Step.shows_qr n s content f) c = shown-IsSound m n s sound f _ content
Step-IsSound {m} sound (Step.handles w panics n s ev f p) c =
    handle-IsSound m n s sound f w panics ev
Step-IsSound {m} sound (Step.drains n s f p) c = drain-IsSound m n s sound f p
Step-IsSound {m} sound (Step.stops id calm) c =
    taken-IsSound id (lookup id m.running) m sound refl calm
Step-IsSound {m} sound (Step.releases n s f d) c = released-IsSound s.conn.id sound
Step-IsSound {m} sound (Step.panics id p) c = absurd c

Runs-IsSound : {m m' : Manager} → IsSound m → (r : Runs m m') → IsCalm r → IsSound m'
Runs-IsSound sound Runs.rest calm = sound
Runs-IsSound sound (Runs.moves r step) calm = Step-IsSound (Runs-IsSound sound r calm.0) step calm.1

new_manager-IsSound : (db : Db) → IsSound (new_manager db)
unfolding new_manager lookup
new_manager-IsSound db = record {
  fresh = λ n s e. absurd (ground arith);
  staged = λ n s e. absurd (ground arith);
  owned = λ n s e. absurd (ground arith);
  held = λ id n e. absurd (ground arith);
}

-- After any moves from a new manager on in which no stop has panicked yet, a stop of a connection
-- panics exactly when the object that
-- runs under its id is still being built, since the field cancel is not assigned before.
pub stop_panics_iff :
    (db : Db) (m : Manager) (id : Bytes) (n : ℕ)
    → (runs : Runs (new_manager db) m) → IsCalm runs
    → lookup id m.running ≡ some n
    → ((take_over id m).0 ≡ Taken.panics)
      ↔ ((s : Slot) × (find n m ≡ some s) × (s.phase ≡ Phase.building))
unfolding take_over
stop_panics_iff db m id n runs calm e =
    let sound : IsSound m = Runs-IsSound (new_manager-IsSound db) runs calm in
    panics_when (sound.held id n e)
  where
    building : (p : Phase) → is_building p ≡ true → p ≡ Phase.building
    building p e = ground arith

    panics_when :
        (s : Slot) × (find n m ≡ some s) × (s.conn.id ≡ id) × IsHeld s
        → ((taken id (lookup id m.running) m).0 ≡ Taken.panics)
          ↔ ((s : Slot) × (find n m ≡ some s) × (s.phase ≡ Phase.building))
    panics_when (s, f, i, h) =
        let outcome : (taken id (lookup id m.running) m).0
            ≡ (if s.cancel_set then Taken.waiting n else Taken.panics) =
          ap (λ o. (taken id o m).0) e
          ∙ ap (λ (o : Option Slot). (call_cancel n o (forget id m)).0) f
          ∙ if_rule
              (λ (r : Taken × Manager).
                r.0 ≡ (if s.cancel_set then Taken.waiting n else Taken.panics))
              s.cancel_set (λ b. sym (if_true _ _ b)) (λ b. sym (if_false _ _ b)) in
        (
          λ p. (s, f, building s.phase (ground arith)),
          λ t. outcome ∙ if_false _ _ (unset t.0 t.1 t.2),
        )
      where
        unset : (r : Slot) → find n m ≡ some r → r.phase ≡ Phase.building → s.cancel_set ≡ false
        unset r g q =
            let same_slot : r ≡ s = ground arith in
            h.1
            ∙ ap (λ (t : Slot). not (is_building t.phase)) (sym same_slot)
            ∙ ap (λ t. not (is_building t)) q

-- A start that a stop has overtaken by the time of its check is given up: after any moves from a new
-- manager on in which no stop has panicked, an object that was cancelled before the check is closed by
-- it, and the adapters registered with the bot core and with the web server stay as they are. A stop
-- between the check and the registration is not seen by it.
pub overtaken_start_aborts :
    (db : Db) (m : Manager) (n : ℕ) (s : Slot)
    → (runs : Runs (new_manager db) m) → IsCalm runs
    → find n m ≡ some s
    → s.cancelled ≡ true
    → let m' = check_ours s.conn.id n m in
      (find n m' ≡ some (closed s)) × (m'.posters ≡ m.posters) × (m'.shown ≡ m.shown)
unfolding check_ours
overtaken_start_aborts db m n s runs calm f c =
    let sound : IsSound m = Runs-IsSound (new_manager-IsSound db) runs calm in
    let lost : still_ours s.conn.id n m ≡ false = elim (Bool-cases (still_ours s.conn.id n m)) [
      | inl b ↦ absurd (not_held (sound.held s.conn.id n ((still_ours_iff s.conn.id n m).0 b)))
      | inr b ↦ b
    ] in
    subst
      (λ (t : Manager).
        (find n t ≡ some (closed s)) × (t.posters ≡ m.posters) × (t.shown ≡ m.shown))
      (sym (if_false _ _ lost)) (closed_now, refl, refl)
  where
    not_held : (r : Slot) × (find n m ≡ some r) × (r.conn.id ≡ s.conn.id) × IsHeld r → ⊥
    not_held (r, g, i, h) = let same_slot : r ≡ s = ground arith in absurd (ground arith)

    closed_now : find n (set_slot n (λ r. closed (cancel r)) m) ≡ some (closed s)
    closed_now =
        found-set_slot n (λ r. closed (cancel r)) m s f n
        ∙ if_true {b = n == n} _ _ (ground (arith, ==_iff n n))
        ∙ ap (λ b. some (record s { cancelled = b; done = true; phase = Phase.ended })) (sym c)
