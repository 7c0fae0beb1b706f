-- ===== src/Web/Rotation.antt =====
-- internal/web/web.go: the status strip, and what the home, health and vendor pages say of the
-- vendors. A page reads the clock and the database several times; each read is made at a program
-- point, numbered by the vendor's place in the list.
pub mod Shown
pub mod Tried
use espur.Base.{
  ℕ, suc, ◌+◌, Bool, true, false, not, ◌&&◌, ◌||◌, List, [], ◌∷◌, ◌++◌, Option, none, some, Bytes,
  codes, same, is_empty, ltb, if◌then◌else◌,
}
use espur.Store.{
  Vendor, Penalty, PenaltyStatus, eligible, cooldown, auth_locked, other, Credential, Db,
  vendor_scope,
}
use espur.Store.Vendors.{list_vendors, get_penalty}
use espur.Store.Credentials.{get_credential}

pub record Reading : Type 0 where
  pub now : ℕ → ℕ
  pub list_fails : Bool
  pub penalty_fails : ℕ → Bool
  pub credential_fails : ℕ → Bool

-- ListVendors returns no vendors with an error, which the pages pass over.
abbrev pub listed : Reading → Db → List Vendor
listed r db = if r.list_fails then [] else list_vendors db

-- store.Penalty{}, which stands with an error of GetPenalty.
abbrev pub zero_penalty : Penalty
zero_penalty = record {
  vendor_id = [];
  status = other [];
  failure_streak = 0;
  cooldown_until = none;
  updated_at = 0;
}

abbrev pub penalty_read : Reading → ℕ → Vendor → Db → Penalty
penalty_read r i v db =
    if r.penalty_fails i then zero_penalty else get_penalty (r.now i) v.vendor_id db

pub data Standing : Type 0 where
  locked cooling free : Standing

abbrev pub cooling_until : Option ℕ → ℕ → Standing
cooling_until none now = free
cooling_until (some until) now = if ltb now until then cooling else free

-- The switch over the status that each of the pages has.
abbrev pub standing_by : PenaltyStatus → Option ℕ → ℕ → Standing
standing_by auth_locked until now = locked
standing_by cooldown until now = cooling_until until now
standing_by eligible until now = free
standing_by (other s) until now = free

unfoldable pub standing : Penalty → ℕ → Standing
standing pen now = standing_by pen.status pen.cooldown_until now

pub record Tally : Type 0 where
  pub free : ℕ
  pub cooling : ℕ
  pub locked : ℕ

abbrev pub count_in : Standing → Tally → Tally
count_in Standing.locked t = record t { locked = t.locked + 1 }
count_in Standing.cooling t = record t { cooling = t.cooling + 1 }
count_in Standing.free t = record t { free = t.free + 1 }

abbrev pub no_tally : Tally
no_tally = record { free = 0; cooling = 0; locked = 0 }

pub record Strip : Type 0 where
  pub adapters : List (Bytes × Bool)
  pub tally : Tally
  pub in_rotation : Bytes
  pub version : Bytes

abbrev pub before_now : Option ℕ → ℕ → Bool
before_now none now = true
before_now (some until) now = ltb until now

abbrev pub ready_by : PenaltyStatus → Option ℕ → ℕ → Bool
ready_by eligible until now = true
ready_by cooldown until now = before_now until now
ready_by auth_locked until now = false
ready_by (other s) until now = false

-- `ready` of the strip.
unfoldable pub strip_ready : Penalty → ℕ → Bool
strip_ready pen now = ready_by pen.status pen.cooldown_until now

abbrev pub is_set : Option Credential → Bool
is_set none = false
is_set (some c) = same c.status (codes "set")

unfoldable pub cred_ok : Reading → ℕ → Vendor → Db → Bool
cred_ok r i v db =
    same v.cred_kind (codes "oauth")
    || not (r.credential_fails i) && is_set (get_credential vendor_scope v.vendor_id db)

-- The vendor's turn in the loop of buildStrip; its two reads of the clock are at `i` and `suc i`.
unfoldable pub strip_vendor : Reading → ℕ → Vendor → Db → Strip → Strip
unfolding standing strip_ready cred_ok
strip_vendor r i v db sd =
    let pen = penalty_read r i v db in
    record sd {
      tally = count_in (standing pen (r.now i)) sd.tally;
      in_rotation =
          if is_empty sd.in_rotation
            && v.enabled
            && strip_ready pen (r.now (suc i))
            && cred_ok r i v db
          then v.vendor_id
          else sd.in_rotation;
    }

unfoldable pub strip_from : Reading → ℕ → List Vendor → Db → Strip → Strip
unfolding strip_vendor
strip_from r i [] db sd = sd
strip_from r i (v ∷ vs) db sd = strip_from r (i + 2) vs db (strip_vendor r i v db sd)

unfoldable pub build_strip : Reading → Bytes → List (Bytes × Bool) → Db → Strip
unfolding strip_from
build_strip r version adapters db =
    strip_from r 0 (listed r db) db
      (record { adapters = adapters; tally = no_tally; in_rotation = []; version = version })

pub record RotationRow : Type 0 where
  pub vendor_id : Bytes
  pub ready : Bool
  pub why : Bytes

-- What the home page says of the vendors.
pub record Rotation : Type 0 where
  pub tally : Tally
  pub enabled : ℕ
  pub rows : List RotationRow

abbrev pub reason : Standing → Bytes
reason locked = codes "auth-locked"
reason cooling = codes "cooldown"
reason free = []

abbrev pub row_of : Reading → ℕ → Standing → Vendor → Db → RotationRow
row_of r i free v db =
    if cred_ok r i v db
    then record { vendor_id = v.vendor_id; ready = true; why = [] }
    else record { vendor_id = v.vendor_id; ready = false; why = codes "no key" }
row_of r i s v db = record { vendor_id = v.vendor_id; ready = false; why = reason s }

-- The vendor's turn in the loop of home, whose clock is read once.
unfoldable pub home_vendor : Reading → ℕ → ℕ → Vendor → Db → Rotation → Rotation
unfolding standing cred_ok
home_vendor r now i v db h =
    let s = standing (penalty_read r i v db) now in
    record {
      tally = count_in s h.tally;
      enabled = if v.enabled then h.enabled + 1 else h.enabled;
      rows = if v.enabled then h.rows ++ row_of r i s v db ∷ [] else h.rows;
    }

unfoldable pub home_from : Reading → ℕ → ℕ → List Vendor → Db → Rotation → Rotation
unfolding home_vendor
home_from r now i [] db h = h
home_from r now i (v ∷ vs) db h = home_from r now (i + 2) vs db (home_vendor r now i v db h)

unfoldable pub home_rotation : Reading → ℕ → Db → Rotation
unfolding home_from
home_rotation r now db =
    home_from r now 0 (listed r db) db (record { tally = no_tally; enabled = 0; rows = [] })

-- The loop of healthPage.
unfoldable pub tally_from : Reading → ℕ → ℕ → List Vendor → Db → Tally → Tally
unfolding standing
tally_from r now i [] db t = t
tally_from r now i (v ∷ vs) db t =
    tally_from r now (i + 2) vs db (count_in (standing (penalty_read r i v db) now) t)

unfoldable pub health_tally : Reading → ℕ → Db → Tally
unfolding tally_from
health_tally r now db = tally_from r now 0 (listed r db) db no_tally
