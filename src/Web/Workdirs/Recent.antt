-- ===== src/Web/Workdirs/Recent.antt =====
-- The feed of the home page holds the newest replies.
use mathlib.Core.List.{Perm}
use espur.Base.{
  ℕ, zero, suc, ◌≤◌, min, ◌≡◌, refl, ◌∙◌, sym, ap, false, List, [], ◌∷◌, ◌++◌, Option, Bytes,
  length, take, drop, take-append-drop, length-take, ltb, if_rule, All, Sorts, Ordered,
  Ordered-take, Ordered-drop, Perm-length, arith,
}
use espur.Transcript.{Record}
use espur.Web.Workdirs.{Entries, Dated, dirs, feed_entries, newer, cut, recent}

take_all : (n : ℕ) (xs : List Dated) → length xs ≤ n → take n xs ≡ xs
take_all zero [] h = refl
take_all zero (x ∷ xs) h = absurd (omega arith)
take_all (suc n) [] h = refl
take_all (suc n) (x ∷ xs) h = ap (◌∷◌ x) (take_all n xs (omega arith))

module _ (decode : Bytes → Option Record) (time : Bytes → Option ℕ) where
  cut-take : (n : ℕ) (xs : List Dated) → cut decode time n xs ≡ take n xs
  cut-take n xs =
      if_rule (λ l. l ≡ take n xs) (ltb n (length xs)) (λ _. refl)
        (λ h. sym (take_all n xs (ground arith)))

  -- The feed shows the newest replies: of the entries of all threads it shows as many as there are,
  -- up to n, the newest first, and none that is left out is newer than one that is shown; asked is
  -- that the sort does what is documented of it.
  pub recent_lem :
      (sort : List Dated → List Dated) (root : Entries) (n : ℕ)
      → Sorts (newer decode time) sort
      → let shown = recent decode time sort root n in
        let all = feed_entries decode time (dirs root) in
        (rest : List Dated) × Perm (shown ++ rest) all
        × (length shown ≡ min n (length all))
        × Ordered (newer decode time) shown
        × All (λ (s : Dated). All (λ (r : Dated). newer decode time r s ≡ false) rest) shown
  unfolding recent
  recent_lem sort root n sorts =
      let all = feed_entries decode time (dirs root) in
      let less = newer decode time in
      (
        drop n (sort all),
        rw (cut-take n (sort all)) (rw (take-append-drop n (sort all)) (sorts.same_items all)),
        rw (cut-take n (sort all))
            (length-take n (sort all) ∙ ap (min n) (Perm-length (sorts.same_items all))),
        rw (cut-take n (sort all)) (Ordered-take less n (sort all) (sorts.in_order all)),
        rw (cut-take n (sort all)) (Ordered-drop less n (sort all) (sorts.in_order all)),
      )
