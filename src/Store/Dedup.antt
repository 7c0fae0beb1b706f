-- ===== src/Store/Dedup.antt =====
-- internal/store/dedup.go: the messages that were seen.
use espur.Base.{
  ℕ, ◌-◌, ◌≡◌, ◌≢◌, inl, inr, Bool, true, false, List, [], ◌∷◌, none, some, Bytes, ltb,
  if◌then◌else◌, lookup, insert, lookup-insert_self, lookup-insert_ne, pair_eq, All, arith,
  Option-cases, Bool-cases,
}
use espur.Store.{Db, unix}

-- `INSERT OR IGNORE`; whether a row was added.
unfoldable pub seen_message : ℕ → Bytes → Bytes → Db → Bool × Db
seen_message now platform message_id db = elim (lookup (platform, message_id) db.dedup) [
  | none ↦ (true, record db { dedup = insert (platform, message_id) (unix now) db.dedup })
  | some t ↦ (false, db)
]

keep_since : ℕ → List ((Bytes × Bytes) × ℕ) → List ((Bytes × Bytes) × ℕ)
keep_since cutoff [] = []
keep_since cutoff ((k, t) ∷ m) =
    let rest = keep_since cutoff m in if ltb t cutoff then rest else (k, t) ∷ rest

unfoldable pub purge_dedup_older_than : ℕ → ℕ → Db → Db
unfolding keep_since
purge_dedup_older_than now age db = record db { dedup = keep_since (unix (now - age)) db.dedup }

-- A delivery is a time, a platform and a message id.
abbrev pub Delivery : Type 0
Delivery = ℕ × Bytes × Bytes

-- The deliveries that are reported as new, in a run of them.
unfoldable pub accepted : List Delivery → Db → List (Bytes × Bytes)
accepted [] db = []
accepted ((now, platform, id) ∷ ds) db =
    let rest = accepted ds (seen_message now platform id db).1 in
    if (seen_message now platform id db).0 then (platform, id) ∷ rest else rest

abbrev pub Distinct : List (Bytes × Bytes) → Type 0
Distinct [] = Unit {0}
Distinct (k ∷ ks) = All (λ j. j ≢ k) ks × Distinct ks

-- A row that stands stays.
seen_message_keeps :
    (now t : ℕ) (platform id : Bytes) (k : Bytes × Bytes) (db : Db)
    → lookup k db.dedup ≡ some t
    → lookup k (seen_message now platform id db).1.dedup ≡ some t
unfolding seen_message
seen_message_keeps now t platform id k db h = elim (Option-cases (lookup (platform, id) db.dedup)) [
  | inl e ↦ ground (arith, lookup-insert_ne (platform, id) k (unix now) db.dedup)
  | inr (u, e) ↦ ground arith
]

seen_message_new :
    (now : ℕ) (platform id : Bytes) (db : Db)
    → (seen_message now platform id db).0 ≡ true
    → (lookup (platform, id) db.dedup ≡ none)
      × (lookup (platform, id) (seen_message now platform id db).1.dedup ≡ some (unix now))
unfolding seen_message
seen_message_new now platform id db h = elim (Option-cases (lookup (platform, id) db.dedup)) [
  | inl e ↦ ground (arith, lookup-insert_self (platform, id) (unix now) db.dedup)
  | inr (u, e) ↦ ground arith
]

accepted_ne :
    (ds : List Delivery) (db : Db) (k : Bytes × Bytes) (t : ℕ)
    → lookup k db.dedup ≡ some t
    → All (λ j. j ≢ k) (accepted ds db)
unfolding accepted
accepted_ne [] db k t h = tt
accepted_ne ((now, platform, id) ∷ ds) db k t h =
    let db' = (seen_message now platform id db).1 in
    let rest = accepted_ne ds db' k t (seen_message_keeps now t platform id k db h) in
    elim (Bool-cases (seen_message now platform id db).0) [
      | inl e ↦ rw e (λ same_key. ground (arith, seen_message_new now platform id db), rest)
      | inr e ↦ rw e rest
    ]

-- In any run of deliveries, redeliveries included, a message is reported as new once at most.
pub accepted-Distinct : (ds : List Delivery) (db : Db) → Distinct (accepted ds db)
unfolding accepted
accepted-Distinct [] db = tt
accepted-Distinct ((now, platform, id) ∷ ds) db =
    let db' = (seen_message now platform id db).1 in
    elim (Bool-cases (seen_message now platform id db).0) [
      | inl e ↦ rw e (
        accepted_ne ds db' (platform, id) (unix now) (seen_message_new now platform id db e).1,
        accepted-Distinct ds db',
      )
      | inr e ↦ rw e (accepted-Distinct ds db')
    ]

-- A message that is not in the table is reported as new by its next delivery, and by no delivery
-- after that.
pub seen_message_lem :
    (now : ℕ) (platform id : Bytes) (db : Db) (ds : List Delivery)
    → lookup (platform, id) db.dedup ≡ none
    → ((seen_message now platform id db).0 ≡ true)
      × All (λ j. j ≢ (platform, id)) (accepted ds (seen_message now platform id db).1)
unfolding seen_message
seen_message_lem now platform id db ds h = (
  ground arith,
  accepted_ne ds _ (platform, id) (unix now)
      (ground (arith, lookup-insert_self (platform, id) (unix now) db.dedup)),
)
