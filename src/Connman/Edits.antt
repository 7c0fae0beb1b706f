-- ===== src/Connman/Edits.antt =====
-- What each move of the connection manager does to the objects and to the map of those that run.
use espur.Base.{
  ℕ, suc, ◌≡◌, refl, ◌∙◌, sym, ap, subst, ◌↔◌, inl, inr, Bool, true, not, List, [], none, some,
  Bytes, ◌==◌, ==_iff, if◌then◌else◌, if_rule, if_true, if_false, is_some, lookup, insert, delete,
  update, lookup-insert, lookup-update, bytes_eq, nat_eq, arith, Bool-cases, Option-cases, same,
  same_iff, codes,
}
use espur.Store.{Connection, Db}
use espur.Bot.Dispatch.{Event}
use espur.Connman.{
  Manager, Slot, Phase, Reservation, reserve, roll_back, check_ours, register, set_slot,
  with_adapter, with_state, cancel, closed, at, new_slot, still_ours, forget,
}
use espur.Connman.Secrets.{World, derive_label}
use espur.Connman.Calls.{handle_event, after_lifecycle, lifecycle_state}
use espur.Connman.Moves.{find}
use espur.Connman.Owner.{
  is_building, is_ended, over, IsStaged, IsHeld, IsSound, edit-IsSound, retire-IsSound,
  lost-IsSound,
}

pub found-set_slot :
    (n : ℕ) (f : Slot → Slot) (m : Manager) (s : Slot)
    → find n m ≡ some s
    → (k : ℕ) → find k (set_slot n f m) ≡ (if n == k then some (f s) else find k m)
unfolding set_slot
found-set_slot n f m s e k = ground (arith, lookup-update n k f m.slots, ==_iff n k)

pub still_ours_iff :
    (id : Bytes) (n : ℕ) (m : Manager) → (still_ours id n m ≡ true) ↔ (lookup id m.running ≡ some n)
unfolding still_ours
still_ours_iff id n m = elim (Option-cases (lookup id m.running)) [
  | inl e ↦ ground arith
  | inr (k, e) ↦ ground (arith, ==_iff k n)
]

-- An object that is given up, with the id forgotten where it led to the object.
module _ (m m' : Manager) (n : ℕ) (s t : Slot) (sound : IsSound m) (at_n : find n m ≡ some s)
    (found : (k : ℕ) → find k m' ≡ (if n == k then some t else find k m)) (next : m'.next ≡ m.next)
    (conn : t.conn ≡ s.conn) (staged : IsStaged t) (gone : over t ≡ true) where
  given_up :
      m'.running ≡ (if still_ours s.conn.id n m then delete s.conn.id m.running else m.running)
      → IsSound m'
  given_up running = elim (Bool-cases (still_ours s.conn.id n m)) [
    | inl b ↦
        retire-IsSound m m' n s t sound at_n found next conn staged gone
          (ground (arith, still_ours_iff s.conn.id n m)) (ground arith)
    | inr b ↦
        lost-IsSound m m' n s t sound at_n found next conn staged gone
          (λ q. absurd (ground (arith, still_ours_iff s.conn.id n m))) (ground arith)
  ]

pub reserve-IsSound : (conn : Connection) (m : Manager) → IsSound m → IsSound (reserve conn m).1
unfolding reserve
reserve-IsSound conn m sound =
    if_rule (λ (r : Reservation × Manager). IsSound r.1) (not m.booted) (λ _. sound)
      (λ _.
        if_rule (λ (r : Reservation × Manager). IsSound r.1) (is_some (lookup conn.id m.running))
          (λ _. sound)
          (λ free. added (elim (Option-cases (lookup conn.id m.running)) [
            | inl e ↦ e
            | inr (k, e) ↦ absurd (ground arith)
          ])))
  where
    added :
        lookup conn.id m.running ≡ none
        → IsSound (record m {
          running = insert conn.id m.next m.running;
          slots = insert m.next (new_slot conn) m.slots;
          next = suc m.next;
        })
    added free = record {
      fresh = λ k r e.
          ground (
            arith,
            lookup-insert m.next k (new_slot conn) m.slots,
            sound.fresh k r,
            ==_iff m.next k,
          );
      staged = λ k r e. elim (Bool-cases (m.next == k)) [
        | inl b ↦
            let q : new_slot conn ≡ r =
              ground (arith, lookup-insert m.next k (new_slot conn) m.slots) in
            subst IsStaged q refl
        | inr b ↦ sound.staged k r (ground (arith, lookup-insert m.next k (new_slot conn) m.slots))
      ];
      owned = λ k r e o. elim (Bool-cases (m.next == k)) [
        | inl b ↦
            let q : new_slot conn ≡ r =
              ground (arith, lookup-insert m.next k (new_slot conn) m.slots) in
            subst (λ (u : Slot). lookup u.conn.id (insert conn.id m.next m.running) ≡ some k) q
              (ground (
                arith,
                lookup-insert conn.id conn.id m.next m.running,
                same_iff conn.id conn.id,
                ==_iff m.next k,
              ))
        | inr b ↦
            let old : lookup r.conn.id m.running ≡ some k =
              sound.owned k r (ground (arith, lookup-insert m.next k (new_slot conn) m.slots)) o in
            ground (
              arith,
              lookup-insert conn.id r.conn.id m.next m.running,
              same_iff conn.id r.conn.id,
              ap (λ i. lookup i m.running),
            )
      ];
      held = λ id k e. held_after id k e;
    }
      where
        held_after :
            (id : Bytes) (k : ℕ)
            → lookup id (insert conn.id m.next m.running) ≡ some k
            → (r : Slot) × (lookup k (insert m.next (new_slot conn) m.slots) ≡ some r)
              × (r.conn.id ≡ id)
              × IsHeld r
        held_after id k e = elim (Bool-cases (same conn.id id)) [
          | inl b ↦ (
            new_slot conn,
            ground (
              arith,
              lookup-insert m.next k (new_slot conn) m.slots,
              lookup-insert conn.id id m.next m.running,
              ==_iff m.next k,
            ),
            ground (arith, same_iff conn.id id),
            (refl, refl),
          )
          | inr b ↦
              held_before id k
                (sound.held id k (ground (arith, lookup-insert conn.id id m.next m.running)))
        ]
          where
            held_before :
                (id : Bytes) (k : ℕ)
                → (r : Slot) × (find k m ≡ some r) × (r.conn.id ≡ id) × IsHeld r
                → (r : Slot) × (lookup k (insert m.next (new_slot conn) m.slots) ≡ some r)
                  × (r.conn.id ≡ id)
                  × IsHeld r
            held_before id k (r, f, i, h) = (
              r,
              ground (
                arith,
                lookup-insert m.next k (new_slot conn) m.slots,
                sound.fresh k r f,
                ==_iff m.next k,
              ),
              i,
              h,
            )

-- An object that changes by `f` only, in what a call of the manager leaves.
module _ (m : Manager) (n : ℕ) (s : Slot) (sound : IsSound m) (at_n : find n m ≡ some s) where
  pub roll_back-IsSound : IsSound (roll_back s.conn.id n m)
  unfolding roll_back set_slot
  roll_back-IsSound =
      given_up m (roll_back s.conn.id n m) n s (closed s) sound at_n
        (λ k. ground (arith, lookup-update n k closed m.slots, ==_iff n k)) (ground arith) refl refl
        (ground arith) (ground arith)

  pub fail_start-IsSound : IsSound (roll_back s.conn.id n (set_slot n cancel m))
  unfolding roll_back set_slot still_ours
  fail_start-IsSound =
      given_up m (roll_back s.conn.id n (set_slot n cancel m)) n s (closed (cancel s)) sound at_n
        (λ k. ground (
          arith,
          lookup-update n k closed (update n cancel m.slots),
          lookup-update n k cancel m.slots,
          ==_iff n k,
        ))
        (ground arith) refl refl refl (ground arith)

  pub check-IsSound : s.phase ≡ Phase.starting → IsSound (check_ours s.conn.id n m)
  unfolding check_ours
  check-IsSound p = elim (Bool-cases (still_ours s.conn.id n m)) [
    | inl b ↦ subst IsSound (sym (if_true _ _ b)) (
        edit-IsSound m (set_slot n (at Phase.checked) m) n s (at Phase.checked s) sound at_n
          (found-set_slot n (at Phase.checked) m s at_n) refl refl
          (ground (arith, sound.staged n s at_n, ap is_ended p)) refl (λ o. o)
          (λ h. (h.0, h.1 ∙ ap (λ q. not (is_building q)) p)))
    | inr b ↦ subst IsSound (sym (if_false _ _ b)) (
        lost-IsSound m (set_slot n (λ r. closed (cancel r)) m) n s (closed (cancel s)) sound at_n
          (found-set_slot n (λ r. closed (cancel r)) m s at_n) refl refl refl refl
          (λ q. absurd (ground (arith, still_ours_iff s.conn.id n m))) refl)
  ]

pub other_db : {m : Manager} (db : Db) → IsSound m → IsSound (record m { db = db })
other_db db sound = record {
  fresh = sound.fresh;
  staged = sound.staged;
  owned = sound.owned;
  held = sound.held;
}

other_log : {m : Manager} {ev : List Event} → IsSound m → IsSound (record m { handed = ev })
other_log sound = record {
  fresh = sound.fresh;
  staged = sound.staged;
  owned = sound.owned;
  held = sound.held;
}

-- What an event or a QR code changes of an object: its state and its code.
module _ (m : Manager) (n : ℕ) (s : Slot) (sound : IsSound m) (at_n : find n m ≡ some s) where
  pub shown-IsSound : (state qr : Bytes) → IsSound (set_slot n (with_state state qr) m)
  unfolding set_slot
  shown-IsSound state qr =
      edit-IsSound m (set_slot n (with_state state qr) m) n s (with_state state qr s) sound at_n
        (found-set_slot n (with_state state qr) m s at_n) refl refl (sound.staged n s at_n) refl
        (λ o. o) (λ h. h)

  lifecycle-IsSound : (w : World) (kind : Bytes) → IsSound (lifecycle_state w s.conn n kind m)
  unfolding set_slot
  lifecycle-IsSound w kind =
      if_rule IsSound (same kind (codes "connected"))
        (λ _. other_db (derive_label w s.conn m.db) (shown-IsSound (codes "connected") []))
        (λ _.
          if_rule IsSound (same kind (codes "disconnected"))
            (λ _. shown-IsSound (codes "disconnected") [])
            (λ _.
              if_rule IsSound (same kind (codes "auth_revoked"))
                (λ _. shown-IsSound (codes "auth_revoked") []) (λ _. sound)))

  event-IsSound : (w : World) (ev : Event) → IsSound (after_lifecycle w s.conn n ev m)
  event-IsSound w (Event.lifecycle kind) = lifecycle-IsSound w kind
  event-IsSound w (Event.message e) = sound

  pub handle-IsSound :
      (w : World) (panics : Bool) (ev : Event) → IsSound (handle_event w panics s.conn n ev m)
  unfolding handle_event
  handle-IsSound w panics ev =
      if_rule IsSound panics (λ _. event-IsSound w ev) (λ _. other_log (event-IsSound w ev))

  pub live-IsSound : s.phase ≡ Phase.checked → IsSound (register s.conn.id n m)
  unfolding register set_slot
  live-IsSound p =
      edit-IsSound m (register s.conn.id n m) n s (at Phase.live s) sound at_n
        (found-set_slot n (at Phase.live) m s at_n) refl refl
        (ground (arith, sound.staged n s at_n, ap is_ended p)) refl (λ o. o)
        (λ h. (h.0, h.1 ∙ ap (λ q. not (is_building q)) p))

  pub adapter-IsSound : s.phase ≡ Phase.building → IsSound (set_slot n with_adapter m)
  unfolding set_slot
  adapter-IsSound p =
      edit-IsSound m (set_slot n with_adapter m) n s (with_adapter s) sound at_n
        (found-set_slot n with_adapter m s at_n) refl refl
        (ground (arith, sound.staged n s at_n, ap is_ended p)) refl (λ o. o) (λ h. (h.0, refl))

  pub drain-IsSound : s.phase ≡ Phase.live → IsSound (set_slot n closed m)
  unfolding set_slot
  drain-IsSound p =
      edit-IsSound m (set_slot n closed m) n s (closed s) sound at_n
        (found-set_slot n closed m s at_n) refl refl refl refl (λ o. absurd (ground arith))
        (λ h. (h.0, h.1 ∙ ap (λ q. not (is_building q)) p))

  pub cancel-IsSound :
      lookup s.conn.id m.running ≡ some n → IsSound (set_slot n cancel (forget s.conn.id m))
  unfolding set_slot
  cancel-IsSound ours =
      retire-IsSound m (set_slot n cancel (forget s.conn.id m)) n s (cancel s) sound at_n
        (found-set_slot n cancel m s at_n) refl refl (sound.staged n s at_n) refl ours refl
