-- ===== src/Connman/Owner.antt =====
-- The manager's objects and its map of running connections: which object owns an id, under every
-- interleaving of the operations.
use espur.Base.{
  ℕ, ◌<◌, ◌≡◌, ◌≢◌, ◌∙◌, sym, ap, subst, ◌⊎◌, inl, inr, Bool, true, false, not, ◌||◌, some, Bytes,
  ◌==◌, ==_iff, if◌then◌else◌, lookup, delete, lookup-delete, lookup-delete_ne, lookup-delete_self,
  bytes_eq, nat_eq, arith, Bool-cases,
}
use espur.Connman.{Manager, Slot, Phase}
use espur.Connman.Moves.{find}

abbrev pub is_building : Phase → Bool
is_building Phase.building = true
is_building p = false

abbrev pub is_ended : Phase → Bool
is_ended Phase.ended = true
is_ended p = false

abbrev pub over : Slot → Bool
over s = s.cancelled || s.done

abbrev pub IsStaged : Slot → Type 0
IsStaged s = s.done ≡ is_ended s.phase

abbrev pub IsHeld : Slot → Type 0
IsHeld s = (s.cancelled ≡ false) × (s.cancel_set ≡ not (is_building s.phase))

-- Objects are numbered below `next`; an object that is neither cancelled nor done is the one that
-- runs under its id, and what runs under an id is an object of that id that is not cancelled.
pub record IsSound (m : Manager) : Type 0 where
  pub fresh : (n : ℕ) (s : Slot) → find n m ≡ some s → n < m.next
  pub staged : (n : ℕ) (s : Slot) → find n m ≡ some s → IsStaged s
  pub owned :
      (n : ℕ) (s : Slot) → find n m ≡ some s → over s ≡ false → lookup s.conn.id m.running ≡ some n
  pub held :
      (id : Bytes) (n : ℕ)
      → lookup id m.running ≡ some n
      → (s : Slot) × (find n m ≡ some s) × (s.conn.id ≡ id) × IsHeld s

-- One object changes from `s` to `t`, and the map of running connections loses it at most.
module _ (m m' : Manager) (n : ℕ) (s t : Slot) (sound : IsSound m) (at_n : find n m ≡ some s)
    (found : (k : ℕ) → find k m' ≡ (if n == k then some t else find k m)) (next : m'.next ≡ m.next)
    (conn : t.conn ≡ s.conn) (staged : IsStaged t) where
  found_after :
      (k : ℕ) (r : Slot)
      → find k m' ≡ some r
      → ((n ≡ k) × (t ≡ r)) ⊎ ((n ≢ k) × (find k m ≡ some r))
  found_after k r e = elim (Bool-cases (n == k)) [
    | inl b ↦ inl (ground (arith, ==_iff n k), ground (arith, found k))
    | inr b ↦ inr ((λ q. absurd (ground (arith, ==_iff n k))), ground (arith, found k))
  ]

  pub change-IsSound :
      ((id : Bytes) (k : ℕ) → lookup id m'.running ≡ some k → lookup id m.running ≡ some k)
      → ((id : Bytes) (k : ℕ)
          → lookup id m.running ≡ some k
          → n ≢ k
          → lookup id m'.running ≡ some k)
      → (over t ≡ false → lookup s.conn.id m'.running ≡ some n)
      → (lookup s.conn.id m'.running ≡ some n → IsHeld t)
      → IsSound m'
  change-IsSound sub keep own hold = record {
    fresh = λ k r e. fresh_after k r (found_after k r e);
    staged = λ k r e. staged_after k r (found_after k r e);
    owned = λ k r e. owned_after k r (found_after k r e);
    held = λ id k e. held_after id k e (sound.held id k (sub id k e)) (Bool-cases (n == k));
  }
    where
      fresh_after :
          (k : ℕ) (r : Slot) → ((n ≡ k) × (t ≡ r)) ⊎ ((n ≢ k) × (find k m ≡ some r)) → k < m'.next
      fresh_after k r (inl (e, f)) =
          subst (λ j. k < j) (sym next) (subst (λ j. j < m.next) e (sound.fresh n s at_n))
      fresh_after k r (inr (e, f)) = subst (λ j. k < j) (sym next) (sound.fresh k r f)

      staged_after :
          (k : ℕ) (r : Slot) → ((n ≡ k) × (t ≡ r)) ⊎ ((n ≢ k) × (find k m ≡ some r)) → IsStaged r
      staged_after k r (inl (e, f)) = subst IsStaged f staged
      staged_after k r (inr (e, f)) = sound.staged k r f

      owned_after :
          (k : ℕ) (r : Slot)
          → ((n ≡ k) × (t ≡ r)) ⊎ ((n ≢ k) × (find k m ≡ some r))
          → over r ≡ false
          → lookup r.conn.id m'.running ≡ some k
      owned_after k r (inl (e, f)) o =
          subst (λ (q : Slot). lookup q.conn.id m'.running ≡ some k) f
            (subst (λ j. lookup t.conn.id m'.running ≡ some j) e
              (subst (λ c. lookup c.id m'.running ≡ some n) (sym conn)
                (own (subst (λ q. over q ≡ false) (sym f) o))))
      owned_after k r (inr (e, f)) o = keep r.conn.id k (sound.owned k r f o) e

      held_after :
          (id : Bytes) (k : ℕ)
          → lookup id m'.running ≡ some k
          → (r : Slot) × (find k m ≡ some r) × (r.conn.id ≡ id) × IsHeld r
          → ((n == k) ≡ true) ⊎ ((n == k) ≡ false)
          → (r : Slot) × (find k m' ≡ some r) × (r.conn.id ≡ id) × IsHeld r
      held_after id k e (r, f, i, h) (inl b) =
          let q : n ≡ k = ground (arith, ==_iff n k) in
          let same_slot : r ≡ s = ground arith in
          let own_id : s.conn.id ≡ id = ap (λ (u : Slot). u.conn.id) (sym same_slot) ∙ i in
          (
            t,
            ground (arith, found k),
            ap (λ c. c.id) conn ∙ own_id,
            hold (
                subst (λ j. lookup s.conn.id m'.running ≡ some j) (sym q)
                  (subst (λ j. lookup j m'.running ≡ some k) (sym own_id) e)),
          )
      held_after id k e (r, f, i, h) (inr b) = (r, ground (arith, found k), i, h)

  -- The map stays as it is.
  pub edit-IsSound :
      m'.running ≡ m.running
      → (over t ≡ false → over s ≡ false)
      → (IsHeld s → IsHeld t)
      → IsSound m'
  edit-IsSound running own hold =
      change-IsSound (λ id k e. subst (λ r. lookup id r ≡ some k) running e)
        (λ id k e _. subst (λ r. lookup id r ≡ some k) (sym running) e)
        (λ o. subst (λ r. lookup s.conn.id r ≡ some n) (sym running) (sound.owned n s at_n (own o)))
        (λ e.
          hold (
            held_slot
              (sound.held s.conn.id n (subst (λ r. lookup s.conn.id r ≡ some n) running e))))
    where
      held_slot : (r : Slot) × (find n m ≡ some r) × (r.conn.id ≡ s.conn.id) × IsHeld r → IsHeld s
      held_slot (r, f, i, h) = let same_slot : r ≡ s = ground arith in subst IsHeld same_slot h

  -- The object is given up, and no id leads to it any more.
  pub retire-IsSound :
      over t ≡ true
      → lookup s.conn.id m.running ≡ some n
      → m'.running ≡ delete s.conn.id m.running
      → IsSound m'
  retire-IsSound gone ours running =
      change-IsSound
        (λ id k e. ground (arith, lookup-delete s.conn.id id m.running, ap (lookup id) running))
        (λ id k e ne.
          ap (lookup id) running
          ∙ lookup-delete_ne s.conn.id id m.running (λ q. ne (ground arith))
          ∙ e)
        (λ o. absurd (ground arith))
        (λ e.
          absurd
            (ground (arith, lookup-delete_self s.conn.id m.running, ap (lookup s.conn.id) running)))

  -- The object is given up where no id led to it.
  pub lost-IsSound :
      over t ≡ true → lookup s.conn.id m.running ≢ some n → m'.running ≡ m.running → IsSound m'
  lost-IsSound gone lost running =
      change-IsSound (λ id k e. subst (λ r. lookup id r ≡ some k) running e)
        (λ id k e _. subst (λ r. lookup id r ≡ some k) (sym running) e) (λ o. absurd (ground arith))
        (λ e. absurd (lost (subst (λ r. lookup s.conn.id r ≡ some n) running e)))
