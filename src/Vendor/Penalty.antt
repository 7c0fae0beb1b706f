-- ===== src/Vendor/Penalty.antt =====
-- internal/vendor/penalty.go: the penalty box. The draw of the random jitter is an argument, a
-- function from the base duration to time.Duration(float64(base) * jitter); what the proofs use of
-- it is that the factor lies between a half and one and a half.
use native.Mathlib.Nat.{one-le-pow}
use native.Mathlib.Numerals.{towards_suc}
use espur.Base.{
  ℕ, zero, suc, ◌+◌, ◌-◌, ◌*◌, ◌^◌, min, ◌≤◌, ◌≡◌, refl, ◌⊎◌, Bool, true, false, not, List, [], ◌∷◌,
  Option, none, some, ltb, leb, if◌then◌else◌, length, arith,
}
use espur.Store.{Penalty, PenaltyStatus, eligible, cooldown, auth_locked, other, Db, second}
use espur.Store.Vendors.{get_penalty, put_penalty, get_penalty-put_penalty}
use espur.Vendor.{FailureClass, class_none, class_rate_limit, class_server_5xx, class_auth}

abbrev pub minute : ℕ
minute = 60 * second

abbrev pub backoff_steps : List ℕ
backoff_steps =
    30 * second
    ∷ 60 * second
    ∷ 2 * minute
    ∷ 4 * minute
    ∷ 8 * minute
    ∷ 16 * minute
    ∷ 32 * minute
    ∷ 60 * minute
    ∷ []

-- Indexing of a slice; the index is always in range here.
step_at : List ℕ → ℕ → ℕ
step_at [] i = 0
step_at (d ∷ ds) zero = d
step_at (d ∷ ds) (suc i) = step_at ds i

-- The part of `backoffFor` before the jitter.
unfoldable pub base_for : ℕ → ℕ
unfolding step_at
base_for streak =
    let s = if ltb streak 1 then 1 else streak in
    let i = s - 1 in
    let j = if leb (length backoff_steps) i then length backoff_steps - 1 else i in
    step_at backoff_steps j

unfoldable pub backoff_for : ℕ → (ℕ → ℕ) → ℕ
backoff_for streak jitter = jitter (base_for streak)

unfoldable pub cool_down : Penalty → ℕ → (ℕ → ℕ) → Penalty
unfolding backoff_for
cool_down p now jitter = record p {
  failure_streak = p.failure_streak + 1;
  status = cooldown;
  cooldown_until = some (now + backoff_for (p.failure_streak + 1) jitter);
}

by_class : FailureClass → Penalty → ℕ → (ℕ → ℕ) → Penalty
unfolding cool_down
by_class class_auth p now jitter = record p { status = auth_locked; cooldown_until = none }
by_class class_rate_limit p now jitter = cool_down p now jitter
by_class class_server_5xx p now jitter = cool_down p now jitter
by_class class_none p now jitter = p

unfoldable pub apply_failure : Penalty → FailureClass → ℕ → (ℕ → ℕ) → Penalty
unfolding by_class
apply_failure p class now jitter =
    let q = by_class class p now jitter in record q { updated_at = now }

lapsed : Option ℕ → ℕ → Bool
lapsed none now = true
lapsed (some until) now = not (ltb now until)

eligible_by : PenaltyStatus → Option ℕ → ℕ → Bool
unfolding lapsed
eligible_by auth_locked until now = false
eligible_by cooldown until now = lapsed until now
eligible_by eligible until now = true
eligible_by (other s) until now = true

unfoldable pub is_eligible : Penalty → ℕ → Bool
unfolding eligible_by
is_eligible p now = eligible_by p.status p.cooldown_until now

base_for_late : (n : ℕ) → 8 ≤ n → base_for n ≡ 60 * minute
unfolding base_for
base_for_late n h = ground arith

pow_late : (n : ℕ) → 120 ≤ 2 ^ (n + 7)
pow_late n = let pos = one-le-pow n 2 (omega arith) in simp towards_suc (omega arith)

seven : (n : ℕ) → suc (suc (suc (suc (suc (suc (suc (suc n))))))) - 1 ≡ n + 7
seven n = omega arith

late_min : (x : ℕ) → 120 ≤ x → 60 * minute ≡ min (30 * second * x) (60 * minute)
late_min x h = omega arith

-- For every streak the base duration is half a minute doubled with each failure after the first,
-- and at most an hour.
pub base_for_lem :
    (streak : ℕ) → base_for streak ≡ min (30 * second * 2 ^ (streak - 1)) (60 * minute)
unfolding base_for
base_for_lem zero = refl
base_for_lem (suc zero) = refl
base_for_lem (suc (suc zero)) = refl
base_for_lem (suc (suc (suc zero))) = refl
base_for_lem (suc (suc (suc (suc zero)))) = refl
base_for_lem (suc (suc (suc (suc (suc zero))))) = refl
base_for_lem (suc (suc (suc (suc (suc (suc zero)))))) = refl
base_for_lem (suc (suc (suc (suc (suc (suc (suc zero))))))) = refl
base_for_lem (suc (suc (suc (suc (suc (suc (suc (suc n)))))))) =
    rw (base_for_late (suc (suc (suc (suc (suc (suc (suc (suc n)))))))) (omega arith)) (
      late_min (2 ^ (suc (suc (suc (suc (suc (suc (suc (suc n))))))) - 1))
        (rw (seven n) (pow_late n)))

apply_failure_cooling :
    (p : Penalty) (class : FailureClass) (now : ℕ) (jitter : ℕ → ℕ)
    → (class ≡ class_rate_limit) ⊎ (class ≡ class_server_5xx)
    → let q = apply_failure p class now jitter in
      (q.vendor_id ≡ p.vendor_id)
      × (q.status ≡ cooldown)
      × (q.failure_streak ≡ p.failure_streak + 1)
      × (q.cooldown_until ≡ some (now + jitter (base_for (p.failure_streak + 1))))
unfolding apply_failure
apply_failure_cooling p class now jitter c = ground arith

apply_failure_auth :
    (p : Penalty) (now : ℕ) (jitter : ℕ → ℕ)
    → let q = apply_failure p class_auth now jitter in
      (q.vendor_id ≡ p.vendor_id) × (q.status ≡ auth_locked)
unfolding apply_failure
apply_failure_auth p now jitter = (refl, refl)

-- A failure of a cooling class, stored: as long as the wall clock is a second short of the smallest
-- jittered deadline the vendor stays out, and from the largest one on it is eligible again.
pub cooldown_window :
    (p : Penalty) (class : FailureClass) (now later early late : ℕ) (jitter : ℕ → ℕ) (db : Db)
    → (class ≡ class_rate_limit) ⊎ (class ≡ class_server_5xx)
    → base_for (p.failure_streak + 1) ≤ 2 * jitter (base_for (p.failure_streak + 1))
    → 2 * jitter (base_for (p.failure_streak + 1)) ≤ 3 * base_for (p.failure_streak + 1)
    → 2 * (early + second) ≤ 2 * now + base_for (p.failure_streak + 1)
    → 2 * now + 3 * base_for (p.failure_streak + 1) ≤ 2 * late
    → let q =
        get_penalty later p.vendor_id (put_penalty now (apply_failure p class now jitter) db) in
      (is_eligible q early ≡ false)
      × (is_eligible q late ≡ true)
      × (q.failure_streak ≡ p.failure_streak + 1)
unfolding is_eligible
cooldown_window p class now later early late jitter db c low high e l = ground (
  arith,
  get_penalty-put_penalty now later (apply_failure p class now jitter) db,
  apply_failure_cooling p class now jitter c,
)

-- An authentication failure, stored, keeps the vendor out at every time.
pub auth_lock_lasts :
    (p : Penalty) (now later t : ℕ) (jitter : ℕ → ℕ) (db : Db)
    → is_eligible
        (get_penalty later p.vendor_id (put_penalty now (apply_failure p class_auth now jitter) db))
        t
      ≡ false
unfolding is_eligible
auth_lock_lasts p now later t jitter db = ground (
  arith,
  get_penalty-put_penalty now later (apply_failure p class_auth now jitter) db,
  apply_failure_auth p now jitter,
)

pub vendor_id-apply_failure :
    (p : Penalty) (class : FailureClass) (now : ℕ) (jitter : ℕ → ℕ)
    → (apply_failure p class now jitter).vendor_id ≡ p.vendor_id
unfolding apply_failure
vendor_id-apply_failure p class now jitter = ground arith

pub is_eligible_locked :
    (p : Penalty) (now : ℕ) → p.status ≡ auth_locked → is_eligible p now ≡ false
unfolding is_eligible
is_eligible_locked p now h = ground arith
