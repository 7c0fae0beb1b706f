-- ===== src/Connman/Settled.antt =====
-- What a start and a stop of the connection manager lead to, where no other operation comes in
-- between: what is in the map of running ones is what is registered.
use espur.Base.{
  ℕ, suc, ◌<◌, ◌≤◌, ◌≡◌, refl, ◌∙◌, sym, ap, subst, inl, inr, Bool, true, false, not, ◌&&◌, ◌||◌,
  List, Option, none, some, Bytes, same, same_iff, ◌==◌, ==_iff, if_rule, if_true, is_some, lookup,
  insert, delete, update, lookup-insert, lookup-delete, lookup-update, lookup-insert_self, bytes_eq,
  nat_eq, arith, Bool-cases, Option-cases,
}
use espur.Store.{Connection}
use espur.Connman.{
  Manager, Slot, Phase, Reservation, reserve, roll_back, check_ours, register, unregister,
  take_over, taken, call_cancel, set_slot, with_adapter, cancel, closed, at, new_slot, still_ours,
  forget,
}
use espur.Connman.Secrets.{Fault, World, build}
use espur.Connman.Calls.{Answer, start, stop, started, built, launched, finished, halted}
use espur.Connman.Moves.{find}

-- Whether the map of running connections has an entry for the id; an entry whose adapter has ended by
-- itself stays.
abbrev pub is_entered : Bytes → Manager → Bool
is_entered id m = is_some (lookup id m.running)

-- Between two operations: what is in the map of running ones is what is registered, and it can be cancelled.
pub record IsSettled (m : Manager) : Type 0 where
  pub posted : (id : Bytes) → lookup id m.posters ≡ lookup id m.running
  pub displayed : (id : Bytes) → lookup id m.shown ≡ lookup id m.running
  pub ready :
      (id : Bytes) (n : ℕ)
      → lookup id m.running ≡ some n
      → (n < m.next) × (s : Slot) × (find n m ≡ some s) × (s.cancel_set ≡ true)

-- The maps and the objects numbered so far are as they were.
alike-IsSettled :
    (m m' : Manager)
    → IsSettled m
    → ((id : Bytes) → lookup id m'.running ≡ lookup id m.running)
    → m'.posters ≡ m.posters
    → m'.shown ≡ m.shown
    → m.next ≤ m'.next
    → ((k : ℕ) → k < m.next → find k m' ≡ find k m)
    → IsSettled m'
alike-IsSettled m m' settled running posters shown next old = record {
  posted = λ id. ap (lookup id) posters ∙ settled.posted id ∙ sym (running id);
  displayed = λ id. ap (lookup id) shown ∙ settled.displayed id ∙ sym (running id);
  ready = λ id n e.
      let r = settled.ready id n (sym (running id) ∙ e) in
      (omega (arith, r.0), r.1, old n r.0 ∙ r.2, r.3);
}

-- What a start of a connection leads to: it runs if the start succeeds, and nothing else changes.
abbrev pub Starts : Connection → Manager → Bool → Manager → Type 0
Starts conn m ok m' =
    IsSettled m'
    × ((i : Bytes) → is_entered i m' ≡ (same conn.id i && ok || is_entered i m))
    × (m'.db ≡ m.db)
    × (m'.booted ≡ true)

module _ (conn : Connection) (m : Manager) (settled : IsSettled m) (booted : m.booted ≡ true)
    (free : lookup conn.id m.running ≡ none) where
  abbrev reserved_one : Manager
  reserved_one = record m {
    running = insert conn.id m.next m.running;
    slots = insert m.next (new_slot conn) m.slots;
    next = suc m.next;
  }

  reserve_free : reserve conn m ≡ (Reservation.reserved m.next, reserved_one)
  unfolding reserve
  reserve_free = ground arith

  -- The objects made before this one.
  abbrev Agrees : List (ℕ × Slot) → Type 0
  Agrees t = (k : ℕ) → k < m.next → lookup k t ≡ find k m

  insert-Agrees : (r : Slot) → Agrees (insert m.next r m.slots)
  insert-Agrees r k lt = ground (arith, lookup-insert m.next k r m.slots, ==_iff m.next k)

  update-Agrees : (f : Slot → Slot) (t : List (ℕ × Slot)) → Agrees t → Agrees (update m.next f t)
  update-Agrees f t old k lt = ground (arith, lookup-update m.next k f t, ==_iff m.next k, old k lt)

  undone : (i : Bytes) → lookup i (delete conn.id reserved_one.running) ≡ lookup i m.running
  undone i = ground (
    arith,
    lookup-delete conn.id i reserved_one.running,
    lookup-insert conn.id i m.next m.running,
    same_iff conn.id i,
    ap (λ j. lookup j m.running),
  )

  ours :
      (t : List (ℕ × Slot)) → still_ours conn.id m.next (record reserved_one { slots = t }) ≡ true
  unfolding still_ours
  ours t = ground (arith, lookup-insert_self conn.id m.next m.running, ==_iff m.next m.next)

  rolled_back :
      (t : List (ℕ × Slot))
      → Agrees t
      → Starts conn m false (roll_back conn.id m.next (record reserved_one { slots = t }))
  unfolding roll_back set_slot
  rolled_back t old = subst (Starts conn m false) (sym (if_true _ _ (ours t))) (
    alike-IsSettled m (set_slot m.next closed (forget conn.id (record reserved_one { slots = t })))
        settled undone refl refl (omega arith) (update-Agrees closed t old),
    λ i. ap is_some (undone i) ∙ ground arith,
    refl,
    booted,
  )

  abbrev live_slots : List (ℕ × Slot)
  live_slots =
      update m.next (at Phase.live)
        (update m.next (at Phase.checked) (update m.next with_adapter reserved_one.slots))

  live-Agrees : Agrees live_slots
  live-Agrees = update-Agrees (at Phase.live) _ (
      update-Agrees (at Phase.checked) _
        (update-Agrees with_adapter _ (insert-Agrees (new_slot conn))))

  abbrev live_slot : Slot
  live_slot = at Phase.live (at Phase.checked (with_adapter (new_slot conn)))

  found_live : lookup m.next live_slots ≡ some live_slot
  found_live = ground (
    arith,
    lookup-update m.next m.next (at Phase.live)
        (update m.next (at Phase.checked) (update m.next with_adapter reserved_one.slots)),
    lookup-update m.next m.next (at Phase.checked) (update m.next with_adapter reserved_one.slots),
    lookup-update m.next m.next with_adapter reserved_one.slots,
    lookup-insert_self m.next (new_slot conn) m.slots,
    ==_iff m.next m.next,
  )

  ready_now :
      (i : Bytes) (k : ℕ)
      → lookup i reserved_one.running ≡ some k
      → (k < suc m.next) × (s : Slot) × (lookup k live_slots ≡ some s) × (s.cancel_set ≡ true)
  ready_now i k e = elim (Bool-cases (same conn.id i)) [
    | inl b ↦
        let q : m.next ≡ k = ground (arith, lookup-insert conn.id i m.next m.running) in
        (
          omega arith,
          live_slot,
          subst (λ j. lookup j live_slots ≡ some live_slot) q found_live,
          refl,
        )
    | inr b ↦
        let r = settled.ready i k (ground (arith, lookup-insert conn.id i m.next m.running)) in
        (omega (arith, r.0), r.1, live-Agrees k r.0 ∙ r.2, r.3)
  ]

  live_now : Starts conn m true (
      register conn.id m.next (record reserved_one {
        slots = update m.next (at Phase.checked) (update m.next with_adapter reserved_one.slots);
      }))
  unfolding register set_slot
  live_now = (
    record {
      posted = λ i. ground (
        arith,
        lookup-insert conn.id i m.next m.running,
        lookup-insert conn.id i m.next m.posters,
        settled.posted i,
      );
      displayed = λ i. ground (
        arith,
        lookup-insert conn.id i m.next m.running,
        lookup-insert conn.id i m.next m.shown,
        settled.displayed i,
      );
      ready = ready_now;
    },
    λ i. ground (arith, lookup-insert conn.id i m.next m.running),
    refl,
    booted,
  )

  abbrev StartsAs : Answer → Type 0
  StartsAs a = Starts conn m (not (is_some a.0)) a.1

  started_lem :
      (w : World)
      → StartsAs (
          started w conn m.next
            (record reserved_one { slots = update m.next with_adapter reserved_one.slots }))
  unfolding set_slot check_ours
  started_lem w =
      if_rule StartsAs (w.start_fails conn)
        (λ _.
          rolled_back (update m.next cancel (update m.next with_adapter reserved_one.slots))
            (update-Agrees cancel _ (update-Agrees with_adapter _ (insert-Agrees (new_slot conn)))))
        (λ _.
          let t = update m.next with_adapter reserved_one.slots in
          subst (Starts conn m true)
            (sym (
              ap (finished conn m.next) (if_true _ _ (ours t))
              ∙ if_true _ _ (ours (update m.next (at Phase.checked) t))))
            live_now)

  built_lem : (w : World) (e : Option Fault) → StartsAs (built w conn m.next e reserved_one)
  unfolding set_slot
  built_lem w (some e) = rolled_back reserved_one.slots (insert-Agrees (new_slot conn))
  built_lem w none = started_lem w

  launched_lem : (w : World) → StartsAs (launched w conn (reserve conn m))
  launched_lem w =
      subst (λ r. StartsAs (launched w conn r)) (sym reserve_free) (built_lem w (build w conn m.db))

-- A start makes its connection run or returns an error: with the manager booted and settled, it
-- leaves the manager settled, the database as it is, and running what ran before and, if it returns
-- no error, the connection.
pub start-Starts :
    (w : World) (conn : Connection) (m : Manager)
    → IsSettled m
    → m.booted ≡ true
    → Starts conn m (not (is_some (start w conn m).0)) (start w conn m).1
unfolding start reserve
start-Starts w conn m settled booted = elim (Option-cases (lookup conn.id m.running)) [
  | inl free ↦ launched_lem conn m settled booted free w
  | inr (n, e) ↦
      subst (λ (a : Answer). Starts conn m (not (is_some a.0)) a.1) (sym (already n e))
        (settled, λ i. again n e i, refl, booted)
]
  where
    already :
        (n : ℕ) → lookup conn.id m.running ≡ some n → launched w conn (reserve conn m) ≡ (none, m)
    already n e =
        let taken_up : reserve conn m ≡ (Reservation.already_running, m) = ground arith in
        ap (launched w conn) taken_up

    again :
        (n : ℕ)
        → lookup conn.id m.running ≡ some n
        → (i : Bytes) → is_entered i m ≡ (same conn.id i && true || is_entered i m)
    again n e i = ground (arith, same_iff conn.id i, ap (λ j. lookup j m.running))

-- What a stop leaves.
abbrev pub Stops : Bytes → Manager → Manager → Type 0
Stops id m m' =
    IsSettled m'
    × ((i : Bytes) → is_entered i m' ≡ (not (same id i) && is_entered i m))
    × (m'.db ≡ m.db)
    × (m'.booted ≡ m.booted)

-- A stop ends its connection and nothing else: with the manager settled, it leaves the manager
-- settled, the database as it is, and running what ran before but the connection.
pub stop-Stops : (id : Bytes) (m : Manager) → IsSettled m → Stops id m (stop id m)
unfolding stop take_over unregister set_slot
stop-Stops id m settled = taken_lem (lookup id m.running) refl
  where
    halted_lem :
        (n : ℕ) (s : Slot)
        → lookup id m.running ≡ some n
        → find n m ≡ some s
        → s.cancel_set ≡ true
        → halted id (taken id (some n) m)
          ≡ unregister id (set_slot n closed (set_slot n cancel (forget id m)))
    halted_lem n s e f c =
        ap (λ o. halted id (call_cancel n o (forget id m))) f ∙ ap (halted id) (if_true _ _ c)

    gone :
        (n : ℕ)
        → lookup id m.running ≡ some n
        → Stops id m (unregister id (set_slot n closed (set_slot n cancel (forget id m))))
    gone n e = (
      record {
        posted = λ i.
            ground
              (arith, lookup-delete id i m.running, lookup-delete id i m.posters, settled.posted i);
        displayed = λ i.
            ground (
              arith,
              lookup-delete id i m.running,
              lookup-delete id i m.shown,
              settled.displayed i,
            );
        ready = λ i k e'. ready_after i k (ground (arith, lookup-delete id i m.running));
      },
      λ i. ground (arith, lookup-delete id i m.running),
      refl,
      refl,
    )
      where
        ready_after :
            (i : Bytes) (k : ℕ)
            → lookup i m.running ≡ some k
            → (k < m.next)
              × (s : Slot) × (lookup k (update n closed (update n cancel m.slots)) ≡ some s)
              × (s.cancel_set ≡ true)
        ready_after i k e' =
            let r = settled.ready i k e' in
            elim (Bool-cases (n == k)) [
              | inl b ↦ (
                r.0,
                closed (cancel r.1),
                ground (
                  arith,
                  lookup-update n k closed (update n cancel m.slots),
                  lookup-update n k cancel m.slots,
                  r.2,
                ),
                r.3,
              )
              | inr b ↦ (
                r.0,
                r.1,
                ground (
                  arith,
                  lookup-update n k closed (update n cancel m.slots),
                  lookup-update n k cancel m.slots,
                  r.2,
                ),
                r.3,
              )
            ]

    taken_lem : (o : Option ℕ) → lookup id m.running ≡ o → Stops id m (halted id (taken id o m))
    taken_lem none e =
        (settled, λ i. ground (arith, same_iff id i, ap (λ j. lookup j m.running)), refl, refl)
    taken_lem (some n) e =
        let r = settled.ready id n e in
        subst (Stops id m) (sym (halted_lem n r.1 e r.2 r.3)) (gone n e)
