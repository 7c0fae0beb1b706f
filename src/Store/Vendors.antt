-- ===== src/Store/Vendors.antt =====
-- internal/store/vendor.go: the priority list and the penalty box.
pub mod Order
use mathlib.Core.List.{Perm}
use mathlib.Core.List.Perm
use native.Mathlib.Nat.{add-zero, zero-add, add-suc, suc-add}
use espur.Base.{
  ℕ, suc, ◌+◌, ◌≤◌, ◌≡◌, refl, ap, ◌≢◌, inl, inr, List, [], ◌∷◌, ◌++◌, ◌∙◌, length, none, some,
  Bytes, same_refl, same_ne, leb, if◌then◌else◌, map_some, lookup, insert, delete, update,
  lookup-insert_self, lookup-insert_ne, lookup-delete_self, lookup-delete_ne, lookup-update,
  bytes_eq, pair_eq, All, arith, Bool-cases, Option-cases,
}
use espur.Store.{
  Vendor, PenaltyStatus, eligible, auth_locked, Penalty, PenaltyRow, Db, unix, from_unix,
  vendor_scope,
}

-- `ORDER BY position ASC`.
insert_by_position : Vendor → List Vendor → List Vendor
insert_by_position v [] = v ∷ []
insert_by_position v (w ∷ ws) =
    let later = w ∷ insert_by_position v ws in
    if leb v.position w.position then v ∷ w ∷ ws else later

sort_by_position : List Vendor → List Vendor
unfolding insert_by_position
sort_by_position [] = []
sort_by_position (v ∷ vs) = insert_by_position v (sort_by_position vs)

abbrev pub rows : List (Bytes × Vendor) → List Vendor
rows [] = []
rows ((k, v) ∷ m) = v ∷ rows m

unfoldable pub list_vendors : Db → List Vendor
unfolding sort_by_position
list_vendors db = sort_by_position (rows db.vendors)

-- The position of a row that is there already is kept.
unfoldable pub upsert_vendor : Vendor → Db → Db
upsert_vendor v db = elim (lookup v.vendor_id db.vendors) [
  | none ↦ record db { vendors = insert v.vendor_id v db.vendors }
  | some old ↦ record db {
    vendors =
        insert v.vendor_id
          (record old { model = v.model; enabled = v.enabled; cred_kind = v.cred_kind }) db.vendors;
  }
]

unfoldable pub delete_vendor : Bytes → Db → Db
delete_vendor vendor_id db = record db {
  vendors = delete vendor_id db.vendors;
  credentials = delete (vendor_scope, vendor_id) db.credentials;
  penalty = delete vendor_id db.penalty;
}

abbrev pub placed : ℕ → Vendor → Vendor
placed i v = record v { position = i }

reorder_from : ℕ → List Bytes → List (Bytes × Vendor) → List (Bytes × Vendor)
reorder_from i [] m = m
reorder_from i (id ∷ ids) m = reorder_from (suc i) ids (update id (placed i) m)

unfoldable pub reorder_vendors : List Bytes → Db → Db
unfolding reorder_from
reorder_vendors ids db = record db { vendors = reorder_from 0 ids db.vendors }

abbrev pub penalty_of : Bytes → PenaltyRow → Penalty
penalty_of vendor_id r = record {
  vendor_id = vendor_id;
  status = r.status;
  failure_streak = r.failure_streak;
  cooldown_until = map_some from_unix r.cooldown_until;
  updated_at = from_unix r.updated_at;
}

-- A vendor with no row is eligible. (No row is written.)
unfoldable pub get_penalty : ℕ → Bytes → Db → Penalty
get_penalty now vendor_id db = elim (lookup vendor_id db.penalty) [
  | none ↦ record {
    vendor_id = vendor_id;
    status = eligible;
    failure_streak = 0;
    cooldown_until = none;
    updated_at = now;
  }
  | some r ↦ penalty_of vendor_id r
]

abbrev pub clear_row : ℕ → PenaltyRow
clear_row now = record {
  status = eligible;
  failure_streak = 0;
  cooldown_until = none;
  updated_at = unix now;
}

-- `ON CONFLICT … WHERE penalty.status != 'auth_locked'`.
abbrev cleared : ℕ → PenaltyStatus → PenaltyRow → PenaltyRow
cleared now auth_locked r = r
cleared now _ r = clear_row now

unfoldable pub clear_penalty_on_success : Bytes → ℕ → Db → Db
clear_penalty_on_success vendor_id now db = elim (lookup vendor_id db.penalty) [
  | none ↦ record db { penalty = insert vendor_id (clear_row now) db.penalty }
  | some r ↦ record db { penalty = insert vendor_id (cleared now r.status r) db.penalty }
]

abbrev row_of : ℕ → Penalty → PenaltyRow
row_of now p = record {
  status = p.status;
  failure_streak = p.failure_streak;
  cooldown_until = map_some unix p.cooldown_until;
  updated_at = unix now;
}

unfoldable pub put_penalty : ℕ → Penalty → Db → Db
put_penalty now p db = record db { penalty = insert p.vendor_id (row_of now p) db.penalty }

abbrev pub IsSorted : List Vendor → Type 0
IsSorted [] = Unit {0}
IsSorted (v ∷ vs) = All (λ w. v.position ≤ w.position) vs × IsSorted vs

-- Deleting a vendor takes its row, its credential and its penalty, and leaves those of every other
-- vendor.
pub delete_vendor_lem :
    (vendor_id other_id : Bytes) (db : Db)
    → vendor_id ≢ other_id
    → let db' = delete_vendor vendor_id db in
      (lookup vendor_id db'.vendors ≡ none)
      × (lookup (vendor_scope, vendor_id) db'.credentials ≡ none)
      × (lookup vendor_id db'.penalty ≡ none)
      × (lookup other_id db'.vendors ≡ lookup other_id db.vendors)
      × (lookup (vendor_scope, other_id) db'.credentials
          ≡ lookup (vendor_scope, other_id) db.credentials)
      × (lookup other_id db'.penalty ≡ lookup other_id db.penalty)
unfolding delete_vendor
delete_vendor_lem vendor_id other_id db ne = (
  lookup-delete_self vendor_id db.vendors,
  lookup-delete_self (vendor_scope, vendor_id) db.credentials,
  lookup-delete_self vendor_id db.penalty,
  lookup-delete_ne vendor_id other_id db.vendors ne,
  lookup-delete_ne (vendor_scope, vendor_id) (vendor_scope, other_id) db.credentials
      (λ e. ne (ap (λ p. p.1) e)),
  lookup-delete_ne vendor_id other_id db.penalty ne,
)

-- What is read after a write is the record written, its deadline cut to whole seconds and its
-- time of update set to the time of the write.
pub get_penalty-put_penalty :
    (now later : ℕ) (p : Penalty) (db : Db)
    → get_penalty later p.vendor_id (put_penalty now p db) ≡ record p {
      cooldown_until = map_some (λ t. from_unix (unix t)) p.cooldown_until;
      updated_at = from_unix (unix now);
    }
unfolding get_penalty put_penalty
get_penalty-put_penalty now later p db =
    ground (arith, lookup-insert_self p.vendor_id (row_of now p) db.penalty)

abbrev pub after_success : PenaltyStatus → PenaltyStatus
after_success auth_locked = auth_locked
after_success _ = eligible

-- A success lifts a cooldown, but not a lock that stands in the table by then.
pub status-clear_penalty_on_success :
    (vendor_id : Bytes) (now later : ℕ) (db : Db)
    → (get_penalty later vendor_id (clear_penalty_on_success vendor_id now db)).status
      ≡ after_success (get_penalty later vendor_id db).status
unfolding get_penalty clear_penalty_on_success
status-clear_penalty_on_success vendor_id now later db =
    elim (Option-cases (lookup vendor_id db.penalty)) [
      | inl e ↦ ground (arith, lookup-insert_self vendor_id (clear_row now) db.penalty)
      | inr (r, e) ↦
          ground (arith, lookup-insert_self vendor_id (cleared now r.status r) db.penalty)
    ]

pub status-clear_penalty_on_success_ne :
    (vendor_id other_id : Bytes) (now later : ℕ) (db : Db)
    → vendor_id ≢ other_id
    → (get_penalty later other_id (clear_penalty_on_success vendor_id now db)).status
      ≡ (get_penalty later other_id db).status
unfolding get_penalty clear_penalty_on_success
status-clear_penalty_on_success_ne vendor_id other_id now later db ne =
    elim (Option-cases (lookup vendor_id db.penalty)) [
      | inl e ↦ ground (arith, lookup-insert_ne vendor_id other_id (clear_row now) db.penalty ne)
      | inr (r, e) ↦
          ground (arith, lookup-insert_ne vendor_id other_id (cleared now r.status r) db.penalty ne)
    ]

reorder_from_ne :
    (i : ℕ) (id : Bytes) (ids : List Bytes) (m : List (Bytes × Vendor))
    → All (λ j. j ≢ id) ids
    → lookup id (reorder_from i ids m) ≡ lookup id m
unfolding reorder_from
reorder_from_ne i id [] m h = refl
reorder_from_ne i id (j ∷ ids) m h =
    reorder_from_ne (suc i) id ids (update j (placed i) m) h.1
    ∙ (lookup-update j id (placed i) m ∙ rw (same_ne j id h.0))

reorder_from_at :
    (i : ℕ) (before after : List Bytes) (id : Bytes) (m : List (Bytes × Vendor))
    → All (λ j. j ≢ id) before
    → All (λ j. j ≢ id) after
    → lookup id (reorder_from i (before ++ id ∷ after) m)
      ≡ map_some (placed (i + length before)) (lookup id m)
unfolding reorder_from
reorder_from_at i [] after id m b a =
    reorder_from_ne (suc i) id after (update id (placed i) m) a
    ∙ (lookup-update id id (placed i) m ∙ rw (same_refl id, add-zero))
reorder_from_at i (j ∷ before) after id m b a =
    reorder_from_at (suc i) before after id (update j (placed i) m) b.1 a
    ∙ rw (lookup-update j id (placed i) m, same_ne j id b.0, add-suc, suc-add)

-- After a reorder the position of a vendor that the list names once is its place in the list, and
-- the rest of its row is as before; a vendor that the list does not name keeps its whole row.
pub reorder_vendors_lem :
    (before after : List Bytes) (id stranger : Bytes) (db : Db)
    → All (λ j. j ≢ id) before
    → All (λ j. j ≢ id) after
    → All (λ j. j ≢ stranger) (before ++ id ∷ after)
    → let db' = reorder_vendors (before ++ id ∷ after) db in
      (lookup id db'.vendors ≡ map_some (placed (length before)) (lookup id db.vendors))
      × (lookup stranger db'.vendors ≡ lookup stranger db.vendors)
unfolding reorder_vendors
reorder_vendors_lem before after id stranger db b a s = (
  reorder_from_at 0 before after id db.vendors b a
      ∙ ap (λ n. map_some (placed n) (lookup id db.vendors)) (zero-add (length before)),
  reorder_from_ne 0 stranger (before ++ id ∷ after) db.vendors s,
)

-- The status of a vendor in the penalty box, which does not depend on the time of reading.
pub status-get_penalty :
    (now later : ℕ) (vendor_id : Bytes) (db : Db)
    → (get_penalty now vendor_id db).status ≡ (get_penalty later vendor_id db).status
unfolding get_penalty
status-get_penalty now later vendor_id db = ground arith

pub vendor_id-get_penalty :
    (now : ℕ) (vendor_id : Bytes) (db : Db) → (get_penalty now vendor_id db).vendor_id ≡ vendor_id
unfolding get_penalty
vendor_id-get_penalty now vendor_id db = ground arith

pub status-put_penalty_ne :
    (now later : ℕ) (p : Penalty) (vendor_id : Bytes) (db : Db)
    → p.vendor_id ≢ vendor_id
    → (get_penalty later vendor_id (put_penalty now p db)).status
      ≡ (get_penalty later vendor_id db).status
unfolding get_penalty put_penalty
status-put_penalty_ne now later p vendor_id db ne =
    ground (arith, lookup-insert_ne p.vendor_id vendor_id (row_of now p) db.penalty ne)
