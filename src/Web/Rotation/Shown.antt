-- ===== src/Web/Rotation/Shown.antt =====
-- What the strip, the home page and the health page show of the vendors, described apart from their
-- loops.
use espur.Base.{
  ℕ, suc, ◌+◌, ◌≡◌, ◌≢◌, refl, ◌∙◌, sym, ap, Bool, true, false, not, ◌&&◌, List, [], ◌∷◌, ◌++◌,
  append_assoc, append-nil, Option, none, some, Bytes, is_empty, length, length-append,
  if◌then◌else◌, All, arith,
}
use espur.Store.{Vendor, PenaltyStatus, eligible, cooldown, auth_locked, other, Db}
use espur.Store.Vendors.{list_vendors, get_penalty}
use espur.Web.Rotation.{
  Reading, Standing, standing_by, ready_by, Strip, Tally, no_tally, Rotation, RotationRow,
  penalty_read, standing, count_in, strip_ready, cred_ok, strip_vendor, strip_from, build_strip,
  row_of, home_vendor, home_from, home_rotation, tally_from, health_tally,
}

-- All reads of a page succeed and are made at one instant.
abbrev pub calm : ℕ → Reading
calm t = record {
  now = λ _. t;
  list_fails = false;
  penalty_fails = λ _. false;
  credential_fails = λ _. false;
}

-- The first vendor of the list that is on, ready and has its credential, and a name.
abbrev pub first_ready : Reading → ℕ → List Vendor → Db → Bytes
first_ready r i [] db = []
first_ready r i (v ∷ vs) db =
    let rest = first_ready r (i + 2) vs db in
    if not (is_empty v.vendor_id)
      && v.enabled
      && strip_ready (penalty_read r i v db) (r.now (suc i))
      && cred_ok r i v db
    then v.vendor_id
    else rest

pub in_rotation-strip_from :
    (r : Reading) (i : ℕ) (vs : List Vendor) (db : Db) (sd : Strip)
    → (strip_from r i vs db sd).in_rotation
      ≡ (if is_empty sd.in_rotation then first_ready r i vs db else sd.in_rotation)
unfolding strip_from
in_rotation-strip_from r i [] db sd = ground arith
in_rotation-strip_from r i (v ∷ vs) db sd =
    ground (arith, in_rotation-strip_from r (i + 2) vs db (strip_vendor r i v db sd))

abbrev pub total : Tally → ℕ
total t = t.free + t.cooling + t.locked

total-count_in : (s : Standing) (t : Tally) → total (count_in s t) ≡ total t + 1
total-count_in Standing.locked t = omega arith
total-count_in Standing.cooling t = omega arith
total-count_in Standing.free t = omega arith

total-tally_from :
    (r : Reading) (now i : ℕ) (vs : List Vendor) (db : Db) (t : Tally)
    → total (tally_from r now i vs db t) ≡ total t + length vs
unfolding tally_from
total-tally_from r now i [] db t = omega arith
total-tally_from r now i (v ∷ vs) db t =
    let s = standing (penalty_read r i v db) now in
    omega (arith, total-tally_from r now (i + 2) vs db (count_in s t), total-count_in s t)

strip_tally :
    (now i : ℕ) (vs : List Vendor) (db : Db) (sd : Strip)
    → (strip_from (calm now) i vs db sd).tally ≡ tally_from (calm now) now i vs db sd.tally
unfolding strip_from tally_from
strip_tally now i [] db sd = refl
strip_tally now i (v ∷ vs) db sd = strip_tally now (i + 2) vs db (strip_vendor (calm now) i v db sd)

home_tally :
    (r : Reading) (now i : ℕ) (vs : List Vendor) (db : Db) (h : Rotation)
    → (home_from r now i vs db h).tally ≡ tally_from r now i vs db h.tally
unfolding home_from tally_from
home_tally r now i [] db h = refl
home_tally r now i (v ∷ vs) db h = home_tally r now (i + 2) vs db (home_vendor r now i v db h)

-- The rows that the home page's loop adds for the vendors.
abbrev rows_of : Reading → ℕ → ℕ → List Vendor → Db → List RotationRow
rows_of r now i [] db = []
rows_of r now i (v ∷ vs) db =
    let rest = rows_of r now (i + 2) vs db in
    if v.enabled then row_of r i (standing (penalty_read r i v db) now) v db ∷ rest else rest

home_rows_step :
    (b : Bool) (h rest : List RotationRow) (x : RotationRow)
    → (if b then h ++ x ∷ [] else h) ++ rest ≡ h ++ (if b then x ∷ rest else rest)
home_rows_step true h rest x = append_assoc h (x ∷ []) rest
home_rows_step false h rest x = refl

home_rows :
    (r : Reading) (now i : ℕ) (vs : List Vendor) (db : Db) (h : Rotation)
    → (home_from r now i vs db h).rows ≡ h.rows ++ rows_of r now i vs db
unfolding home_from
home_rows r now i [] db h = sym (append-nil h.rows)
home_rows r now i (v ∷ vs) db h =
    home_rows r now (i + 2) vs db (home_vendor r now i v db h)
    ∙ home_rows_step v.enabled h.rows (rows_of r now (i + 2) vs db)
        (row_of r i (standing (penalty_read r i v db) now) v db)

home_enabled :
    (r : Reading) (now i : ℕ) (vs : List Vendor) (db : Db) (h : Rotation)
    → (home_from r now i vs db h).enabled + length h.rows
      ≡ h.enabled + length (home_from r now i vs db h).rows
unfolding home_from
home_enabled r now i [] db h = refl
home_enabled r now i (v ∷ vs) db h = ground (
  arith,
  home_enabled r now (i + 2) vs db (home_vendor r now i v db h),
  length-append h.rows (row_of r i (standing (penalty_read r i v db) now) v db ∷ []),
)

abbrev pub first_row : List RotationRow → Bytes
first_row [] = []
first_row (x ∷ xs) = let rest = first_row xs in if x.ready then x.vendor_id else rest

-- The status is one that the program writes, and no cooldown ends at this very instant.
abbrev pub IsPlain : ℕ → PenaltyStatus → Option ℕ → Type 0
IsPlain t eligible until = Unit
IsPlain t cooldown until = until ≢ some t
IsPlain t auth_locked until = Unit
IsPlain t (other s) until = ⊥

abbrev pub PlainVendor : ℕ → Db → Vendor → Type 0
PlainVendor t db v =
    (v.vendor_id ≢ [])
    × IsPlain t (get_penalty t v.vendor_id db).status (get_penalty t v.vendor_id db).cooldown_until

ready_row :
    (t i : ℕ) (v : Vendor) (db : Db) (s : PenaltyStatus) (until : Option ℕ)
    → IsPlain t s until
    → (row_of (calm t) i (standing_by s until t) v db).ready
      ≡ (ready_by s until t && cred_ok (calm t) i v db)
ready_row t i v db eligible until plain = ground arith
ready_row t i v db cooldown none plain = ground arith
ready_row t i v db cooldown (some u) plain = ground arith
ready_row t i v db auth_locked until plain = refl
ready_row t i v db (other s) until plain = absurd plain

row_name :
    (t i : ℕ) (v : Vendor) (db : Db) (s : Standing)
    → (row_of (calm t) i s v db).vendor_id ≡ v.vendor_id
row_name t i v db Standing.free = ground arith
row_name t i v db Standing.cooling = refl
row_name t i v db Standing.locked = refl

first_row-rows_of :
    (t i : ℕ) (vs : List Vendor) (db : Db)
    → All (PlainVendor t db) vs
    → first_ready (calm t) i vs db ≡ first_row (rows_of (calm t) t i vs db)
unfolding strip_ready standing
first_row-rows_of t i [] db plain = refl
first_row-rows_of t i (v ∷ vs) db plain =
    let pen = get_penalty t v.vendor_id db in
    ground (
      arith,
      first_row-rows_of t (i + 2) vs db plain.1,
      ready_row t i v db pen.status pen.cooldown_until plain.0.1,
      row_name t i v db (standing_by pen.status pen.cooldown_until t),
    )

-- The pages agree: if all reads succeed, at one instant at which no cooldown ends, and the vendors
-- have names and known statuses, then the strip, the home page and the health page count the same
-- vendors as free, cooling and locked, all vendors together; the home page has a row for each
-- enabled vendor that it counts; and the strip names the first vendor whose row is ready, or none.
pub pages_agree :
    (t : ℕ) (version : Bytes) (adapters : List (Bytes × Bool)) (db : Db)
    → All (PlainVendor t db) (list_vendors db)
    → let strip = build_strip (calm t) version adapters db in
      let home = home_rotation (calm t) t db in
      (strip.tally ≡ home.tally)
      × (health_tally (calm t) t db ≡ home.tally)
      × (total home.tally ≡ length (list_vendors db))
      × (length home.rows ≡ home.enabled)
      × (strip.in_rotation ≡ first_row home.rows)
unfolding build_strip home_rotation health_tally
pages_agree t version adapters db plain =
    let vs = list_vendors db in
    let none_yet : Rotation = record { tally = no_tally; enabled = 0; rows = [] } in
    let start : Strip = record {
      adapters = adapters;
      tally = no_tally;
      in_rotation = [];
      version = version;
    } in
    let tallies = home_tally (calm t) t 0 vs db none_yet in
    (
      strip_tally t 0 vs db start ∙ sym tallies,
      sym tallies,
      ap total tallies ∙ (total-tally_from (calm t) t 0 vs db no_tally ∙ omega arith),
      omega (arith, home_enabled (calm t) t 0 vs db none_yet),
      in_rotation-strip_from (calm t) 0 vs db start
          ∙ (first_row-rows_of t 0 vs db plain
              ∙ ap first_row (sym (home_rows (calm t) t 0 vs db none_yet))),
    )
