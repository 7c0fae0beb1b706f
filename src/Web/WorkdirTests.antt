-- ===== src/Web/WorkdirTests.antt =====
-- A sort that does what is documented of Go's, and the pages of two platforms with three threads.
use mathlib.Core.List.{Perm}
use mathlib.Core.List.Perm
use espur.Base.{
  ℕ, ◌+◌, ◌≡◌, refl, inl, inr, Bool, true, false, List, [], ◌∷◌, Option, Bytes, codes, bytes_eq,
  length, if◌then◌else◌, Bool-cases, All, All-map, Sorts, Ordered, arith,
}
use espur.Web.Workdirs.{
  unreadable, dirs, Entries, file, dir, end, entry, newer_row, is_after, count_threads,
  list_threads,
}
use espur.Web.Workdirs.Counted.{count_threads_lem, unreadable_below}

module _ {ℓ} {A : Type ℓ} (less : A → A → Bool) where
  insert_by : A → List A → List A
  insert_by x [] = x ∷ []
  insert_by x (y ∷ ys) = let rest = y ∷ insert_by x ys in if less y x then rest else x ∷ y ∷ ys

  sort_by : List A → List A
  unfolding insert_by
  sort_by [] = []
  sort_by (x ∷ xs) = insert_by x (sort_by xs)

  insert_by-perm : (x : A) (ys : List A) → Perm (insert_by x ys) (x ∷ ys)
  unfolding insert_by
  insert_by-perm x [] = Perm.refl (x ∷ [])
  insert_by-perm x (y ∷ ys) = elim (Bool-cases (less y x)) [
    | inl e ↦ rw e (Perm.trans (Perm.cons y (insert_by-perm x ys)) (Perm.swap x y ys))
    | inr e ↦ rw e (Perm.refl (x ∷ y ∷ ys))
  ]

  sort_by-perm : (xs : List A) → Perm (sort_by xs) xs
  unfolding sort_by
  sort_by-perm [] = Perm.refl []
  sort_by-perm (x ∷ xs) = Perm.trans (insert_by-perm x (sort_by xs)) (Perm.cons x (sort_by-perm xs))

  module _ (asym : (x y : A) → less y x ≡ true → less x y ≡ false)
      (chain : (x y z : A) → less y x ≡ false → less z y ≡ false → less z x ≡ false) where
    All-insert_by :
        (z x : A) (ys : List A)
        → less x z ≡ false
        → All (λ y. less y z ≡ false) ys
        → All (λ y. less y z ≡ false) (insert_by x ys)
    unfolding insert_by
    All-insert_by z x [] p h = (p, tt)
    All-insert_by z x (y ∷ ys) p h = elim (Bool-cases (less y x)) [
      | inl e ↦ rw e (h.0, All-insert_by z x ys p h.1)
      | inr e ↦ rw e (p, h)
    ]

    insert_by-Ordered : (x : A) (ys : List A) → Ordered less ys → Ordered less (insert_by x ys)
    unfolding insert_by
    insert_by-Ordered x [] h = (tt, tt)
    insert_by-Ordered x (y ∷ ys) h = elim (Bool-cases (less y x)) [
      | inl e ↦ rw e (All-insert_by y x ys (asym x y e) h.0, insert_by-Ordered x ys h.1)
      | inr e ↦ rw e ((e, All-map _ _ ys (λ z. chain x y z e) h.0), h)
    ]

    sort_by-Ordered : (xs : List A) → Ordered less (sort_by xs)
    unfolding sort_by
    sort_by-Ordered [] = tt
    sort_by-Ordered (x ∷ xs) = insert_by-Ordered x (sort_by xs) (sort_by-Ordered xs)

    sort_by-Sorts : Sorts less sort_by
    sort_by-Sorts = record { same_items = sort_by-perm; in_order = sort_by-Ordered }

rows_sort : Sorts newer_row (sort_by newer_row)
rows_sort =
    sort_by-Sorts newer_row (λ x y h. ground arith)
      (λ x y z h k. rows_chain x.last_activity y.last_activity z.last_activity h k)
  where
    rows_chain :
        (x y z : Option ℕ) → is_after y x ≡ false → is_after z y ≡ false → is_after z x ≡ false
    rows_chain x y z h k = ground arith

abbrev thread : Bytes → Entries
thread text = entry (codes "transcript.jsonl") (file text 7) end

abbrev root : Entries
root =
    entry (codes "discord")
      (dir 1 (
        entry (codes "t1") (dir 2 (thread (codes "aa"))) (
          entry (codes "t0") (unreadable 8)
            (entry (codes "t2") (dir 3 (thread (codes "bbbb"))) end))))
      (entry (codes "note") (file [] 4) (
        entry (codes "wechat") (dir 5 (entry (codes "t3") (dir 6 (thread (codes "ccc"))) end)) end))

count_threads_lem_example :
    count_threads 0 root + unreadable_below (dirs root)
    ≡ length (list_threads (sort_by newer_row) root)
count_threads_lem_example = (count_threads_lem 0 root (sort_by newer_row) rows_sort).1

three_threads : count_threads 0 root ≡ 3
unfolding count_threads
three_threads = refl
