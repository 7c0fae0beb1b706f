-- ===== src/Web/Atomic.antt =====
-- internal/web/web.go: writeFileAtomic, call by call. What a reader, or a crash, can find between two
-- calls is a list of directories, the first of them the one after the first call.
use espur.Base.{
  ℕ, ◌≡◌, ◌≢◌, refl, ◌∙◌, sym, ap, subst, ◌⊎◌, inl, inr, Bool, true, false, List, [], ◌∷◌, ◌++◌,
  Option, none, some, Bytes, take, if◌then◌else◌, lookup, insert, delete, bytes_eq,
  lookup-insert_self, lookup-insert_ne, lookup-delete, lookup-insert, lookup-delete_self,
  lookup-delete_ne, if_rule, Bool-cases, same, same_iff, All, All-append, arith,
}
use espur.Memory.Seed.{Dir}

-- What the calls answer: the name that os.CreateTemp gives; the number of bytes that a failing Write
-- has written; and whether Chmod, Close, Rename and the deferred Remove fail. The code ignores that
-- the Remove fails.
pub record Calls : Type 0 where
  pub temp : Option Bytes
  pub write_stops : Option ℕ
  pub chmod_fails : Bool
  pub close_fails : Bool
  pub rename_fails : Bool
  pub remove_fails : Bool

-- Whether the write succeeded, the directory at its end, and those on the way.
pub record Written : Type 0 where
  pub ok : Bool
  pub dir : Dir
  pub seen : List Dir

-- os.Rename within the directory: the file goes under its new name.
abbrev pub renamed : Bytes → Bytes → Bytes → Dir → Dir
renamed temp base text d = insert base text (delete temp d)

-- An error path: the temporary file is removed by the deferred call.
abbrev pub given_up : Calls → Bytes → Dir → List Dir → Written
given_up c temp d seen =
    if c.remove_fails
    then record { ok = false; dir = d; seen = seen }
    else record { ok = false; dir = delete temp d; seen = seen ++ delete temp d ∷ [] }

abbrev pub finished : Calls → Bytes → Bytes → Bytes → Dir → List Dir → Written
finished c temp base text d seen =
    if c.chmod_fails
    then given_up c temp d seen
    else if c.close_fails
    then given_up c temp d seen
    else if c.rename_fails
    then given_up c temp d seen
    else record {
      ok = true;
      dir = delete temp (renamed temp base text d);
      seen = seen ++ renamed temp base text d ∷ delete temp (renamed temp base text d) ∷ [];
    }

abbrev pub filled : Calls → Option ℕ → Bytes → Bytes → Bytes → Dir → List Dir → Written
filled c none temp base text d seen =
    let d' = insert temp text d in finished c temp base text d' (seen ++ d' ∷ [])
filled c (some n) temp base text d seen =
    let d' = insert temp (take n text) d in given_up c temp d' (seen ++ d' ∷ [])

abbrev pub created : Calls → Option Bytes → Bytes → Bytes → Dir → Written
created c none base text d = record { ok = false; dir = d; seen = [] }
created c (some temp) base text d =
    filled c c.write_stops temp base text (insert temp [] d) (insert temp [] d ∷ [])

unfoldable pub write_file_atomic : Calls → Bytes → Bytes → Dir → Written
write_file_atomic c base text d = created c c.temp base text d

module _ (base text : Bytes) (d : Dir) where
  -- A reader finds the old file, whole, or the new one.
  abbrev pub IsWhole : Dir → Type 0
  IsWhole d' = (lookup base d' ≡ lookup base d) ⊎ (lookup base d' ≡ some text)

  abbrev pub IsAtomic : Calls → Written → Type 0
  IsAtomic c w =
      All IsWhole w.seen
      × (w.ok ≡ true → lookup base w.dir ≡ some text)
      × (w.ok ≡ false → lookup base w.dir ≡ lookup base d)
      × ((k : Bytes)
          → k ≢ base
          → (c.remove_fails ≡ false) ⊎ (c.temp ≢ some k)
          → lookup k w.dir ≡ lookup k d)

  module _ (c : Calls) (temp : Bytes) (is_temp : c.temp ≡ some temp) (other : temp ≢ base)
      (fresh : lookup temp d ≡ none) where
    -- Only the temporary file differs.
    abbrev Keeps : Dir → Type 0
    Keeps d' = (k : Bytes) → k ≢ temp → lookup k d' ≡ lookup k d

    Keeps-insert : (s : Bytes) (d' : Dir) → Keeps d' → Keeps (insert temp s d')
    Keeps-insert s d' h k ne = lookup-insert_ne temp k s d' (λ e. ne (sym e)) ∙ h k ne

    Keeps-IsWhole : (d' : Dir) → Keeps d' → IsWhole d'
    Keeps-IsWhole d' h = inl (h base (λ e. other (sym e)))

    delete-all : (d' : Dir) → Keeps d' → (k : Bytes) → lookup k (delete temp d') ≡ lookup k d
    delete-all d' h k = elim (Bool-cases (same k temp)) [
      | inl y ↦
          let e : k ≡ temp = (same_iff k temp).0 y in
          subst (λ (x : Bytes). lookup x (delete temp d') ≡ lookup x d) (sym e)
            (lookup-delete_self temp d' ∙ sym fresh)
      | inr n ↦
          let ne : k ≢ temp = (λ e. let x : same k temp ≡ true = (same_iff k temp).1 e in cc) in
          lookup-delete_ne temp k d' (λ e. ne (sym e)) ∙ h k ne
    ]

    given_up-IsAtomic :
        (d' : Dir) (seen : List Dir)
        → Keeps d'
        → All IsWhole seen
        → IsAtomic c (given_up c temp d' seen)
    given_up-IsAtomic d' seen h w =
        if_rule (IsAtomic c) c.remove_fails
          (λ left. (
            w,
            λ e. cc,
            λ e. h base (λ e. other (sym e)),
            λ k ne gone. h k (λ e. elim gone [
              | inl removed ↦ absurd (ground arith)
              | inr apart ↦ absurd (apart (is_temp ∙ ap some (sym e)))
            ]),
          ))
          (λ _. (
            All-append IsWhole seen (delete temp d' ∷ []) w (inl (delete-all d' h base), tt),
            λ e. cc,
            λ e. delete-all d' h base,
            λ k ne gone. delete-all d' h k,
          ))

    renamed-other :
        (d' : Dir) (k : Bytes)
        → Keeps d'
        → k ≢ base
        → lookup k (delete temp (renamed temp base text d')) ≡ lookup k d
    renamed-other d' k h ne = ground (
      arith,
      lookup-delete temp k (renamed temp base text d'),
      lookup-insert base k text (delete temp d'),
      delete-all d' h k,
      same_iff base k,
      same_iff temp k,
      fresh,
    )

    finished-IsAtomic :
        (d' : Dir) (seen : List Dir)
        → Keeps d'
        → All IsWhole seen
        → IsAtomic c (finished c temp base text d' seen)
    finished-IsAtomic d' seen h w =
        let fails = λ (_ : Unit {0}). given_up-IsAtomic d' seen h w in
        let d'' = renamed temp base text d' in
        let new : lookup base d'' ≡ some text = lookup-insert_self base text (delete temp d') in
        let kept : lookup base (delete temp d'') ≡ some text =
          lookup-delete_ne temp base d'' other ∙ new in
        if_rule (IsAtomic c) c.chmod_fails (λ _. fails tt)
          (λ _.
            if_rule (IsAtomic c) c.close_fails (λ _. fails tt)
              (λ _.
                if_rule (IsAtomic c) c.rename_fails (λ _. fails tt)
                  (λ _. (
                    All-append IsWhole seen (d'' ∷ delete temp d'' ∷ []) w
                        (inr new, (inr kept, tt)),
                    λ e. kept,
                    λ e. cc,
                    λ k ne _. renamed-other d' k h ne,
                  ))))

    created-Keeps : Keeps (insert temp [] d)
    created-Keeps = Keeps-insert [] d (λ k ne. refl)

    abbrev written_seen : Bytes → List Dir
    written_seen s = insert temp [] d ∷ insert temp s (insert temp [] d) ∷ []

    written-IsWhole : (s : Bytes) → All IsWhole (written_seen s)
    written-IsWhole s = (
      Keeps-IsWhole (insert temp [] d) created-Keeps,
      (
        Keeps-IsWhole (insert temp s (insert temp [] d))
            (Keeps-insert s (insert temp [] d) created-Keeps),
        tt,
      ),
    )

    filled-IsAtomic :
        (o : Option ℕ)
        → IsAtomic c (filled c o temp base text (insert temp [] d) (insert temp [] d ∷ []))
    filled-IsAtomic none =
        finished-IsAtomic (insert temp text (insert temp [] d)) (written_seen text)
          (Keeps-insert text (insert temp [] d) created-Keeps) (written-IsWhole text)
    filled-IsAtomic (some n) =
        given_up-IsAtomic (insert temp (take n text) (insert temp [] d))
          (written_seen (take n text)) (Keeps-insert (take n text) (insert temp [] d) created-Keeps)
          (written-IsWhole (take n text))

  -- What os.CreateTemp is documented to give: the name of a file that was not there.
  abbrev pub IsFresh : Calls → Type 0
  IsFresh c = (t : Bytes) → c.temp ≡ some t → (t ≢ base) × (lookup t d ≡ none)

  -- The write is atomic: whichever call fails, and wherever a reader looks between the calls or the
  -- program is killed, the file is whole, with the old bytes (or absent, as before) or the new ones.
  -- A write that succeeds leaves the new ones and one that fails the old ones, and in both cases
  -- every other file is as before; only where the removal of the temporary file fails that file may
  -- be left.
  pub write_file_atomic_lem : (c : Calls) → IsFresh c → IsAtomic c (write_file_atomic c base text d)
  unfolding write_file_atomic
  write_file_atomic_lem c fresh = by_temp c.temp refl
    where
      by_temp : (o : Option Bytes) → c.temp ≡ o → IsAtomic c (created c o base text d)
      by_temp none e = (tt, λ f. cc, λ f. refl, λ k ne gone. refl)
      by_temp (some t) e = filled-IsAtomic c t e (fresh t e).0 (fresh t e).1 c.write_stops
