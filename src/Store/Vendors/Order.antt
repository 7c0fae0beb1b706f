-- ===== src/Store/Vendors/Order.antt =====
-- The order in which the vendors are listed.
use mathlib.Core.List.{Perm}
use mathlib.Core.List.Perm
use espur.Base.{ℕ, ◌≤◌, inl, inr, List, [], ◌∷◌, leb, bytes_eq, pair_eq, All, arith, Bool-cases}
use espur.Store.{Vendor, Db}
use espur.Store.Vendors.{IsSorted, insert_by_position, list_vendors, rows, sort_by_position}

insert_by_position-perm : (v : Vendor) (ws : List Vendor) → Perm (insert_by_position v ws) (v ∷ ws)
unfolding insert_by_position
insert_by_position-perm v [] = Perm.refl (v ∷ [])
insert_by_position-perm v (w ∷ ws) = elim (Bool-cases (leb v.position w.position)) [
  | inl e ↦ rw e (Perm.refl (v ∷ w ∷ ws))
  | inr e ↦ rw e (Perm.trans (Perm.cons w (insert_by_position-perm v ws)) (Perm.swap v w ws))
]

sort_by_position-perm : (vs : List Vendor) → Perm (sort_by_position vs) vs
unfolding sort_by_position
sort_by_position-perm [] = Perm.refl []
sort_by_position-perm (v ∷ vs) =
    Perm.trans (insert_by_position-perm v (sort_by_position vs))
      (Perm.cons v (sort_by_position-perm vs))

insert_by_position-All :
    (P : Vendor → Type 0) (v : Vendor) (ws : List Vendor)
    → P v
    → All P ws
    → All P (insert_by_position v ws)
unfolding insert_by_position
insert_by_position-All P v [] h hs = (h, hs)
insert_by_position-All P v (w ∷ ws) h hs = ground (arith, insert_by_position-All P v ws h hs.1)

All-le :
    (n m : ℕ) (ws : List Vendor)
    → n ≤ m
    → All (λ w. m ≤ w.position) ws
    → All (λ w. n ≤ w.position) ws
All-le n m [] h hs = tt
All-le n m (w ∷ ws) h hs = (omega arith, All-le n m ws h hs.1)

insert_by_position-IsSorted :
    (v : Vendor) (ws : List Vendor) → IsSorted ws → IsSorted (insert_by_position v ws)
unfolding insert_by_position
insert_by_position-IsSorted v [] h = (tt, tt)
insert_by_position-IsSorted v (w ∷ ws) h = elim (Bool-cases (leb v.position w.position)) [
  | inl e ↦ rw e ((ground arith, All-le v.position w.position ws (ground arith) h.0), h)
  | inr e ↦ rw e (
    insert_by_position-All (λ u. w.position ≤ u.position) v ws (ground arith) h.0,
    insert_by_position-IsSorted v ws h.1,
  )
]

sort_by_position-IsSorted : (vs : List Vendor) → IsSorted (sort_by_position vs)
unfolding sort_by_position
sort_by_position-IsSorted [] = tt
sort_by_position-IsSorted (v ∷ vs) =
    insert_by_position-IsSorted v (sort_by_position vs) (sort_by_position-IsSorted vs)

-- The list of vendors holds every row once, in ascending order of position.
pub list_vendors_lem :
    (db : Db) → IsSorted (list_vendors db) × Perm (list_vendors db) (rows db.vendors)
unfolding list_vendors
list_vendors_lem db =
    (sort_by_position-IsSorted (rows db.vendors), sort_by_position-perm (rows db.vendors))
