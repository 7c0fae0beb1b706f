-- ===== src/Bot/Queue/Drain.antt =====
-- The shutdown of the queues, and what becomes of a burst of messages.
use espur.Base.{
  ◌↔◌, ℕ, zero, suc, ◌+◌, ◌-◌, ◌≡◌, refl, ap, ◌∙◌, sym, subst, true, false, not, List, [], ◌∷◌,
  ◌++◌, none, some, Bytes, same_refl, length, is_some, if_true, if_false, lookup,
  lookup-insert_self, bytes_eq, arith,
}
use espur.Bot.{MessageEvent, queue_key}
use espur.Bot.Queue.{
  ThreadQueue, Core, new_core, coalesce_onto, queue_of, enqueue, leave, go_on, note_of, after,
  after_trigger, one_done, Move, enqueued, trigger_returned, worker_done, stop_accepting, step,
  run_moves,
}
use espur.Bot.Queue.Invariant.{
  IsValid, workers_at, run_moves-IsValid, new_core-IsValid, queue_there,
}

-- WaitDrain's condition is exact: in every state that a core can reach, the drain counter is zero if
-- and only if no worker is in HandleTrigger and none has its Done still to run; and then no thread
-- is in the map of queues.
pub drained_idle :
    (ms : List Move) (key : Bytes)
    → let c = run_moves ms new_core in
      ((c.inflight ≡ 0) ↔ ((c.active ≡ []) × (c.retiring ≡ 0)))
      × (c.inflight ≡ 0 → lookup key c.queues ≡ none)
unfolding workers_at
drained_idle ms key = idle (run_moves ms new_core) (run_moves-IsValid ms new_core new_core-IsValid)
  where
    no_worker : (ws : List (Bytes × MessageEvent)) → length ws ≡ 0 → ws ≡ []
    no_worker [] e = refl
    no_worker (w ∷ ws) e = absurd (omega arith)

    idle :
        (c : Core)
        → IsValid c
        → ((c.inflight ≡ 0) ↔ ((c.active ≡ []) × (c.retiring ≡ 0)))
          × (c.inflight ≡ 0 → lookup key c.queues ≡ none)
    idle c v = (
      (
        λ e. (no_worker c.active (omega (arith, v.1)), omega (arith, v.1)),
        λ h. omega (arith, v.1, ap length h.0),
      ),
      λ e.
          let nobody : c.active ≡ [] = no_worker c.active (omega (arith, v.1)) in
          ground (arith, v.0 key, nobody),
    )

step_stopped :
    (move : Move) (c : Core)
    → c.stopped ≡ true
    → ((step move c).started ≡ c.started) × ((step move c).stopped ≡ true)
unfolding step enqueue after_trigger
step_stopped (enqueued m) c s = ground arith
step_stopped (trigger_returned key) c s = ground arith
step_stopped worker_done c s = ground arith
step_stopped stop_accepting c s = (refl, refl)

-- Once the core is stopped, no trigger starts any more, whatever arrives and returns; neither does a
-- message that was waiting.
pub stopped_starts_nothing :
    (ms : List Move) (c : Core)
    → c.stopped ≡ true
    → ((run_moves ms c).started ≡ c.started) × ((run_moves ms c).stopped ≡ true)
unfolding run_moves
stopped_starts_nothing [] c s = (refl, s)
stopped_starts_nothing (m ∷ ms) c s =
    let (same_list, still) = step_stopped m c s in
    let (rest, end) = stopped_starts_nothing ms (step m c) still in (rest ∙ same_list, end)

abbrev pub returns : List (Bytes × MessageEvent) → List Move
returns [] = []
returns ((key, m) ∷ ws) = trigger_returned key ∷ returns ws

abbrev pub dones : ℕ → List Move
dones zero = []
dones (suc n) = worker_done ∷ dones n

run_moves-append :
    (ms ns : List Move) (c : Core) → run_moves (ms ++ ns) c ≡ run_moves ns (run_moves ms c)
unfolding run_moves
run_moves-append [] ns c = refl
run_moves-append (m ∷ ms) ns c = run_moves-append ms ns (step m c)

-- When a worker's trigger returns in a stopped core, it leaves.
leaves :
    (key : Bytes) (m : MessageEvent) (ws : List (Bytes × MessageEvent)) (c : Core)
    → c.stopped ≡ true
    → c.active ≡ (key, m) ∷ ws
    → let d = step (trigger_returned key) c in
      (d.stopped ≡ true)
      × (d.active ≡ ws)
      × (d.retiring ≡ suc c.retiring)
      × (d.inflight ≡ c.inflight)
unfolding step after_trigger leave lookup
leaves key m ws c s e = ground (arith, same_refl key)

all_leave :
    (ws : List (Bytes × MessageEvent)) (c : Core)
    → c.stopped ≡ true
    → c.active ≡ ws
    → let d = run_moves (returns ws) c in
      (d.active ≡ []) × (d.retiring ≡ c.retiring + length ws) × (d.inflight ≡ c.inflight)
unfolding run_moves
all_leave [] c s e = (e, omega arith, refl)
all_leave ((key, m) ∷ ws) c s e =
    let (s', a, r, i) = leaves key m ws c s e in
    let (a', r', i') = all_leave ws (step (trigger_returned key) c) s' a in
    (a', omega (arith, r, r'), i' ∙ i)

all_done :
    (n : ℕ) (c : Core) → c.retiring ≡ n → c.inflight ≡ n → (run_moves (dones n) c).inflight ≡ 0
unfolding run_moves step
all_done zero c r i = i
all_done (suc n) c r i =
    rw (r, one_done)
      (all_done n (record c { retiring = n; inflight = c.inflight - 1 }) refl (omega arith))

-- The drain ends: from every state that a core can reach and in which it is stopped, it is enough
-- that each running trigger returns once and that each worker then runs its Done.
pub drain_ends :
    (ms : List Move)
    → (run_moves ms new_core).stopped ≡ true
    → let c = run_moves ms new_core in
      (run_moves (returns c.active ++ dones c.inflight) c).inflight ≡ 0
drain_ends ms s =
    let c = run_moves ms new_core in
    let v = run_moves-IsValid ms new_core new_core-IsValid in
    let (a, r, i) = all_leave c.active c s refl in
    rw (run_moves-append (returns c.active) (dones c.inflight) c)
      (all_done c.inflight (run_moves (returns c.active) c) (omega (arith, r, v.1)) i)

enqueue_busy :
    (m : MessageEvent) (c : Core)
    → c.stopped ≡ false
    → not (queue_of (queue_key m) c).running ≡ false
    → enqueue m c ≡ coalesce_onto (queue_key m) (queue_of (queue_key m) c) m c
unfolding enqueue
enqueue_busy m c s busy = if_false _ _ s ∙ if_false _ _ busy

enqueue_at :
    (key : Bytes) (q : ThreadQueue) (m : MessageEvent) (c : Core)
    → queue_key m ≡ key
    → c.stopped ≡ false
    → queue_of key c ≡ q
    → not q.running ≡ false
    → enqueue m c ≡ coalesce_onto key q m c
enqueue_at key q m c k s e busy =
    enqueue_busy m c s (
      subst (λ j. not (queue_of j c).running ≡ false) (sym k)
        (subst (λ r. not r.running ≡ false) (sym e) busy))
    ∙ (ap (λ j. coalesce_onto j (queue_of j c) m c) k ∙ ap (λ r. coalesce_onto key r m c) e)

returned_waiting :
    (key : Bytes) (m : MessageEvent) (c : Core)
    → c.stopped ≡ false
    → is_some (lookup key c.active) ≡ true
    → (queue_of key c).coalesce ≡ some m
    → step (trigger_returned key) c ≡ go_on key (queue_of key c) m c
unfolding step after_trigger
returned_waiting key m c s w e = if_true _ _ w ∙ (ap (after key c) e ∙ if_true _ _ (ap not s))

queue_of-found :
    (key : Bytes) (q : ThreadQueue) (c : Core) → lookup key c.queues ≡ some q → queue_of key c ≡ q
queue_of-found key q c e = ground arith

-- The newest of a burst wins. While a worker is at a thread and the core accepts, of two messages to
-- that thread the first is folded into the second, with a note of it, and the second is the one that
-- is started when the worker's trigger returns.
pub burst_newest_wins :
    (ms : List Move) (first second : MessageEvent)
    → (run_moves ms new_core).stopped ≡ false
    → is_some (lookup (queue_key first) (run_moves ms new_core).active) ≡ true
    → queue_key second ≡ queue_key first
    → let c = run_moves ms new_core in
      let d = step (trigger_returned (queue_key first)) (enqueue second (enqueue first c)) in
      (d.started ≡ c.started ++ second ∷ [])
      × (d.notes
          ≡ (c.notes ++ note_of (queue_of (queue_key first) c).coalesce first)
            ++ (first, second) ∷ [])
      × ((queue_of (queue_key first) d).coalesce ≡ none)
burst_newest_wins ms first second s w same_thread =
    let c = run_moves ms new_core in
    let v = run_moves-IsValid ms new_core new_core-IsValid in
    let key = queue_key first in
    let there = queue_there key c v w in
    let q = queue_of key c in
    let busy : not q.running ≡ false = ground (arith, v.0 key) in
    let c1 = coalesce_onto key q first c in
    let q1 : ThreadQueue = record q { coalesce = some first } in
    let e1 : queue_of key c1 ≡ q1 = queue_of-found key q1 c1 (lookup-insert_self key q1 c.queues) in
    let c2 = coalesce_onto key q1 second c1 in
    let q2 : ThreadQueue = record q { coalesce = some second } in
    let e2 : queue_of key c2 ≡ q2 =
      queue_of-found key q2 c2 (lookup-insert_self key q2 c1.queues) in
    let d = go_on key (queue_of key c2) second c2 in
    let q3 : ThreadQueue = record (queue_of key c2) { coalesce = none } in
    let got : enqueue second (enqueue first c) ≡ c2 =
      ap (enqueue second) (enqueue_at key q first c refl s refl busy)
      ∙ enqueue_at key q1 second c1 same_thread s e1 busy in
    let went : step (trigger_returned key) c2 ≡ d =
      returned_waiting key second c2 s w (ap (λ x. x.coalesce) e2) in
    rw (got, went)
      (
        refl,
        refl,
        ap (λ x. x.coalesce) (queue_of-found key q3 d (lookup-insert_self key q3 c2.queues)),
      )
