-- ===== src/Web/Workdirs/Counted.antt =====
-- The three ways in which the pages count the threads.
use espur.Base.{
  ℕ, suc, ◌+◌, ◌≡◌, refl, List, [], ◌∷◌, Bytes, length, length-append, lookup, insert, bytes_eq,
  Sorts, Perm-length, arith,
}
use espur.Web.Workdirs.{
  Entry, Entries, file, dir, unreadable, end, entry, walk_count, walk_counts, count_threads, dirs,
  bump, bump_each, by_platform, threads_by_platform, ThreadRow, rows_in, all_rows, newer_row,
  list_threads,
}

abbrev pub total : List (Bytes × ℕ) → ℕ
total [] = 0
total ((name, n) ∷ m) = n + total m

total-bump : (name : Bytes) (out : List (Bytes × ℕ)) → total (bump name out) ≡ total out + 1
unfolding lookup insert
total-bump name [] = omega arith
total-bump name ((k, n) ∷ out) = ground (arith, total-bump name out)

total-bump_each :
    (name : Bytes) (ds : List (Bytes × Entries)) (out : List (Bytes × ℕ))
    → total (bump_each name ds out) ≡ total out + length ds
total-bump_each name [] out = omega arith
total-bump_each name (d ∷ ds) out =
    omega (arith, total-bump_each name ds (bump name out), total-bump name out)

-- The directories in the directories.
abbrev inner_count : List (Bytes × Entries) → ℕ
inner_count [] = 0
inner_count ((name, inner) ∷ ps) = length (dirs inner) + inner_count ps

total-by_platform :
    (ps : List (Bytes × Entries)) (out : List (Bytes × ℕ))
    → total (by_platform ps out) ≡ total out + inner_count ps
total-by_platform [] out = omega arith
total-by_platform ((name, inner) ∷ ps) out = omega (
  arith,
  total-by_platform ps (bump_each name (dirs inner) out),
  total-bump_each name (dirs inner) out,
)

mutual
  unfolding walk_count

  walk_count_deep : (e : Entry) (d : ℕ) → walk_count (suc (suc (suc d))) e ≡ 0
  walk_count_deep (file text t) d = refl
  walk_count_deep (unreadable t) d = refl
  walk_count_deep (dir t es) d = ground (arith, walk_counts_deep es (suc d))

  walk_counts_deep : (es : Entries) (d : ℕ) → walk_counts (suc (suc (suc d))) es ≡ 0
  walk_counts_deep end d = refl
  walk_counts_deep (entry name e es) d = omega (arith, walk_count_deep e d, walk_counts_deep es d)

-- The directories among the entries that cannot be read.
abbrev pub unreadable_in : Entries → ℕ
unreadable_in end = 0
unreadable_in (entry name (file text t) es) = unreadable_in es
unreadable_in (entry name (unreadable t) es) = unreadable_in es + 1
unreadable_in (entry name (dir t inner) es) = unreadable_in es

abbrev pub unreadable_below : List (Bytes × Entries) → ℕ
unreadable_below [] = 0
unreadable_below ((name, inner) ∷ ps) = unreadable_in inner + unreadable_below ps

walk_counts_two : (es : Entries) → walk_counts 2 es + unreadable_in es ≡ length (dirs es)
unfolding walk_count
walk_counts_two end = refl
walk_counts_two (entry name (file text t) es) = omega (arith, walk_counts_two es)
walk_counts_two (entry name (unreadable t) es) = omega (arith, walk_counts_two es)
walk_counts_two (entry name (dir t inner) es) =
    omega (arith, walk_counts_deep inner 0, walk_counts_two es)

walk_counts_one :
    (es : Entries) → walk_counts 1 es + unreadable_below (dirs es) ≡ inner_count (dirs es)
unfolding walk_count
walk_counts_one end = refl
walk_counts_one (entry name (file text t) es) = omega (arith, walk_counts_one es)
walk_counts_one (entry name (unreadable t) es) = omega (arith, walk_counts_one es)
walk_counts_one (entry name (dir t inner) es) =
    omega (arith, walk_counts_two inner, walk_counts_one es)

length-rows_in :
    (platform : Bytes) (ds : List (Bytes × Entries)) → length (rows_in platform ds) ≡ length ds
length-rows_in platform [] = refl
length-rows_in platform (d ∷ ds) = omega (arith, length-rows_in platform ds)

length-all_rows : (ps : List (Bytes × Entries)) → length (all_rows ps) ≡ inner_count ps
length-all_rows [] = refl
length-all_rows ((name, inner) ∷ ps) = omega (
  arith,
  length-append (rows_in name (dirs inner)) (all_rows ps),
  length-rows_in name (dirs inner),
  length-all_rows ps,
)

-- The pages count the same threads but for those that cannot be read: for every tree of files the
-- counts of the platforms together and the rows of the list are as many, and the walk below the
-- directory finds as many less the directories of threads that cannot be read; asked is that the sort
-- keeps the items.
pub count_threads_lem :
    (t : ℕ) (root : Entries) (sort : List ThreadRow → List ThreadRow)
    → Sorts newer_row sort
    → (count_threads t root + unreadable_below (dirs root) ≡ total (threads_by_platform root))
      × (count_threads t root + unreadable_below (dirs root) ≡ length (list_threads sort root))
unfolding count_threads threads_by_platform list_threads
count_threads_lem t root sort sorts =
    let walked = walk_counts_one root in
    let counted = total-by_platform (dirs root) [] in
    let rows = length-all_rows (dirs root) in
    let kept = Perm-length (sorts.same_items (all_rows (dirs root))) in
    (omega (arith, walked, counted), omega (arith, walked, rows, kept))
