-- ===== src/Bot/Queue/Invariant.antt =====
-- The invariant of the queues: the map holds exactly the threads that a worker is at.
use espur.Base.{
  ℕ, zero, suc, ◌+◌, ◌-◌, ◌≤◌, ◌≡◌, refl, sym, subst, inl, inr, Bool, true, false, not, List, [],
  ◌∷◌, Option, none, some, Bytes, same, same_iff, length, if◌then◌else◌, if_rule, is_some, lookup,
  lookup-insert, lookup-delete, bytes_eq, arith, Option-cases,
}
use espur.Bot.{MessageEvent, queue_key}
use espur.Bot.Queue.{
  ThreadQueue, Core, new_core, start_worker, coalesce_onto, queue_of, enqueue, turn_to, leave,
  go_on, retire, after, after_trigger, one_done, Move, enqueued, trigger_returned, worker_done,
  stop_accepting, step, run_moves,
}

-- How many workers are at a key.
unfoldable pub workers_at : Bytes → List (Bytes × MessageEvent) → ℕ
workers_at key [] = 0
workers_at key ((k, n) ∷ ws) = let rest = workers_at key ws in if same k key then suc rest else rest

abbrev pub slots : Option ThreadQueue → ℕ
slots none = 0
slots (some q) = 1

abbrev pub runs : Option ThreadQueue → Bool
runs none = true
runs (some q) = q.running

-- Each queue in the map is running and has one worker, no other key has a worker, and the drain
-- counter counts the workers that have not yet called Done.
abbrev pub IsValid : Core → Type 0
IsValid c =
    ((key : Bytes)
      → (workers_at key c.active ≡ slots (lookup key c.queues))
        × (runs (lookup key c.queues) ≡ true))
    × (c.inflight ≡ length c.active + c.retiring)

workers_at-turn_to :
    (k key : Bytes) (m : MessageEvent) (ws : List (Bytes × MessageEvent))
    → workers_at k (turn_to key m ws) ≡ workers_at k ws
unfolding workers_at turn_to
workers_at-turn_to k key m [] = refl
workers_at-turn_to k key m ((j, n) ∷ ws) = ground (arith, workers_at-turn_to k key m ws)

length-turn_to :
    (key : Bytes) (m : MessageEvent) (ws : List (Bytes × MessageEvent))
    → length (turn_to key m ws) ≡ length ws
unfolding turn_to
length-turn_to key m [] = refl
length-turn_to key m ((j, n) ∷ ws) = ground (arith, length-turn_to key m ws)

workers_at-leave :
    (k key : Bytes) (ws : List (Bytes × MessageEvent))
    → workers_at k (leave key ws) ≡ (if same key k then workers_at k ws - 1 else workers_at k ws)
unfolding workers_at leave
workers_at-leave k key [] = ground arith
workers_at-leave k key ((j, n) ∷ ws) =
    ground (arith, workers_at-leave k key ws, same_iff j key, same_iff j k, same_iff key k)

length-leave :
    (key : Bytes) (ws : List (Bytes × MessageEvent))
    → is_some (lookup key ws) ≡ true
    → suc (length (leave key ws)) ≡ length ws
unfolding leave lookup
length-leave key [] h = cc
length-leave key ((j, n) ∷ ws) h = ground (arith, length-leave key ws)

start_worker-IsValid :
    (key : Bytes) (q : ThreadQueue) (m : MessageEvent) (c : Core)
    → IsValid c
    → lookup key c.queues ≡ none
    → IsValid (start_worker key q m c)
unfolding workers_at
start_worker-IsValid key q m c (h, n) e = (
  λ k.
      ground
        (arith, lookup-insert key k (record q { running = true }) c.queues, h k, same_iff key k),
  omega (arith, n),
)

coalesce_onto-IsValid :
    (key : Bytes) (q : ThreadQueue) (m : MessageEvent) (c : Core)
    → IsValid c
    → lookup key c.queues ≡ some q
    → IsValid (coalesce_onto key q m c)
coalesce_onto-IsValid key q m c (h, n) e = (
  λ k.
      ground
        (arith, lookup-insert key k (record q { coalesce = some m }) c.queues, h k, same_iff key k),
  n,
)

-- A queue that is not running is not in the map.
not_running :
    (key : Bytes) (c : Core)
    → runs (lookup key c.queues) ≡ true
    → not (queue_of key c).running ≡ true
    → lookup key c.queues ≡ none
not_running key c h idle = ground arith

pub is_running :
    (key : Bytes) (c : Core)
    → not (queue_of key c).running ≡ false
    → lookup key c.queues ≡ some (queue_of key c)
is_running key c busy = ground arith

enqueue-IsValid : (m : MessageEvent) (c : Core) → IsValid c → IsValid (enqueue m c)
unfolding enqueue
enqueue-IsValid m c v =
    let key = queue_key m in
    let q = queue_of key c in
    if_rule IsValid c.stopped (λ s. v)
      (λ s.
        if_rule IsValid (not q.running)
          (λ idle. start_worker-IsValid key q m c v (not_running key c (v.0 key).1 idle))
          (λ busy. coalesce_onto-IsValid key q m c v (is_running key c busy)))

go_on-IsValid :
    (key : Bytes) (q : ThreadQueue) (m : MessageEvent) (c : Core)
    → IsValid c
    → lookup key c.queues ≡ some q
    → IsValid (go_on key q m c)
go_on-IsValid key q m c (h, n) e = (
  λ k. ground (
    arith,
    lookup-insert key k (record q { coalesce = none }) c.queues,
    workers_at-turn_to k key m c.active,
    h k,
    same_iff key k,
  ),
  omega (arith, n, length-turn_to key m c.active),
)

retire-IsValid :
    (key : Bytes) (c : Core)
    → IsValid c
    → is_some (lookup key c.active) ≡ true
    → IsValid (retire key c)
retire-IsValid key c (h, n) w = (
  λ k.
      ground
        (arith, lookup-delete key k c.queues, workers_at-leave k key c.active, h k, same_iff key k),
  omega (arith, n, length-leave key c.active w),
)

workers_at_pos :
    (key : Bytes) (ws : List (Bytes × MessageEvent))
    → is_some (lookup key ws) ≡ true
    → 1 ≤ workers_at key ws
unfolding workers_at lookup
workers_at_pos key [] h = cc
workers_at_pos key ((j, n) ∷ ws) h = ground (arith, workers_at_pos key ws)

-- A worker's queue is in the map.
pub queue_there :
    (key : Bytes) (c : Core)
    → IsValid c
    → is_some (lookup key c.active) ≡ true
    → lookup key c.queues ≡ some (queue_of key c)
queue_there key c v w = ground (arith, workers_at_pos key c.active w, v.0 key)

after_trigger-IsValid :
    (key : Bytes) (c : Core)
    → IsValid c
    → is_some (lookup key c.active) ≡ true
    → IsValid (after_trigger key c)
unfolding after_trigger
after_trigger-IsValid key c v w = elim (Option-cases (queue_of key c).coalesce) [
  | inl e ↦ subst (λ o. IsValid (after key c o)) (sym e) (retire-IsValid key c v w)
  | inr (m, e) ↦
      subst (λ o. IsValid (after key c o)) (sym e)
        (if_rule IsValid (not c.stopped)
          (λ s. go_on-IsValid key (queue_of key c) m c v (queue_there key c v w))
          (λ s. retire-IsValid key c v w))
]

step-IsValid : (move : Move) (c : Core) → IsValid c → IsValid (step move c)
unfolding step
step-IsValid (enqueued m) c v = enqueue-IsValid m c v
step-IsValid (trigger_returned key) c v =
    if_rule IsValid (is_some (lookup key c.active)) (after_trigger-IsValid key c v) (λ w. v)
step-IsValid worker_done c v = done_case c.retiring refl
  where
    done_case : (n : ℕ) → c.retiring ≡ n → IsValid (one_done n c)
    done_case zero e = v
    done_case (suc n) e = (v.0, omega (arith, v.1, e))
step-IsValid stop_accepting c v = v

-- The invariant holds after any sequence of moves from the state of a new core.
pub run_moves-IsValid : (ms : List Move) (c : Core) → IsValid c → IsValid (run_moves ms c)
unfolding run_moves
run_moves-IsValid [] c v = v
run_moves-IsValid (m ∷ ms) c v = run_moves-IsValid ms (step m c) (step-IsValid m c v)

pub new_core-IsValid : IsValid new_core
unfolding workers_at lookup
new_core-IsValid = (λ key. (refl, refl), refl)

-- Whatever is enqueued, returns and stops, in any order: no two workers are ever at one thread, and a
-- thread is in the map exactly while a worker is at it.
pub run_moves_serial :
    (ms : List Move) (key : Bytes)
    → let c = run_moves ms new_core in
      (workers_at key c.active ≤ 1) × (workers_at key c.active ≡ slots (lookup key c.queues))
run_moves_serial ms key =
    let v = run_moves-IsValid ms new_core new_core-IsValid in (ground (arith, v.0 key), (v.0 key).0)
