-- ===== src/Bot/Queue.antt =====
-- internal/bot/queue.go, with StopAccepting of bot.go: the queues of the threads as a machine whose
-- moves are the critical sections of the lock, in any order. A worker is the goroutine of `work`; it
-- holds its queue by the key under which the queue is in the map. `started` is the list of the calls
-- of HandleTrigger, and `notes` that of the back-pointer records of coalesced messages, each with
-- the message that took its place; `acks` are the threads that were told to wait.
pub mod Invariant
pub mod Drain
use espur.Base.{
  ℕ, zero, suc, ◌+◌, ◌-◌, Bool, true, false, not, ◌&&◌, List, [], ◌∷◌, ◌++◌, Option, none, some,
  Bytes, same, length, if◌then◌else◌, is_some, lookup, insert, delete, bytes_eq,
}
use espur.Bot.{MessageEvent, queue_key}

pub record ThreadQueue : Type 0 where
  pub running : Bool
  pub coalesce : Option MessageEvent

-- `active` are the workers that are in HandleTrigger, `retiring` counts those that have left their
-- queue and have not yet run the deferred Done.
pub record Core : Type 0 where
  pub stopped : Bool
  pub queues : List (Bytes × ThreadQueue)
  pub active : List (Bytes × MessageEvent)
  pub retiring : ℕ
  pub inflight : ℕ
  pub started : List MessageEvent
  pub notes : List (MessageEvent × MessageEvent)
  pub acks : List Bytes

abbrev pub new_core : Core
new_core = record {
  stopped = false;
  queues = [];
  active = [];
  retiring = 0;
  inflight = 0;
  started = [];
  notes = [];
  acks = [];
}

abbrev pub start_worker : Bytes → ThreadQueue → MessageEvent → Core → Core
start_worker key q m c = record c {
  queues = insert key (record q { running = true }) c.queues;
  active = (key, m) ∷ c.active;
  inflight = suc c.inflight;
  started = c.started ++ m ∷ [];
}

abbrev pub note_of : Option MessageEvent → MessageEvent → List (MessageEvent × MessageEvent)
note_of none m = []
note_of (some superseded) m = (superseded, m) ∷ []

abbrev pub ack_of : Option MessageEvent → MessageEvent → List Bytes
ack_of none m = m.thread_id ∷ []
ack_of (some superseded) m = []

abbrev pub coalesce_onto : Bytes → ThreadQueue → MessageEvent → Core → Core
coalesce_onto key q m c = record c {
  queues = insert key (record q { coalesce = some m }) c.queues;
  notes = c.notes ++ note_of q.coalesce m;
  acks = c.acks ++ ack_of q.coalesce m;
}

abbrev new_queue : ThreadQueue
new_queue = record { running = false; coalesce = none }

abbrev pub queue_of : Bytes → Core → ThreadQueue
queue_of key c = elim (lookup key c.queues) [ none ↦ new_queue | some q ↦ q ]

unfoldable pub enqueue : MessageEvent → Core → Core
enqueue m c =
    let key = queue_key m in
    let q = queue_of key c in
    if c.stopped
    then c
    else if not q.running
    then start_worker key q m c
    else coalesce_onto key q m c

-- The worker of a key goes on with another message, or leaves.
unfoldable pub turn_to :
    Bytes → MessageEvent → List (Bytes × MessageEvent) → List (Bytes × MessageEvent)
turn_to key m [] = []
turn_to key m ((k, n) ∷ ws) =
    let rest = turn_to key m ws in if same k key then (k, m) ∷ ws else (k, n) ∷ rest

unfoldable pub leave : Bytes → List (Bytes × MessageEvent) → List (Bytes × MessageEvent)
leave key [] = []
leave key ((k, n) ∷ ws) = let rest = leave key ws in if same k key then ws else (k, n) ∷ rest

abbrev pub go_on : Bytes → ThreadQueue → MessageEvent → Core → Core
go_on key q m c = record c {
  queues = insert key (record q { coalesce = none }) c.queues;
  active = turn_to key m c.active;
  started = c.started ++ m ∷ [];
}

abbrev pub retire : Bytes → Core → Core
retire key c = record c {
  queues = delete key c.queues;
  active = leave key c.active;
  retiring = suc c.retiring;
}

abbrev pub after : Bytes → Core → Option MessageEvent → Core
after key c none = retire key c
after key c (some m) = if not c.stopped then go_on key (queue_of key c) m c else retire key c

-- The critical section after a HandleTrigger of the key's worker has returned.
unfoldable pub after_trigger : Bytes → Core → Core
unfolding turn_to leave
after_trigger key c = after key c (queue_of key c).coalesce

-- The deferred `inflight.Done()` of one of the workers that have left.
abbrev pub one_done : ℕ → Core → Core
one_done zero c = c
one_done (suc n) c = record c { retiring = n; inflight = c.inflight - 1 }

-- One move of the machine. A worker that is not there makes none.
pub data Move : Type 0 where
  enqueued : MessageEvent → Move
  trigger_returned : Bytes → Move
  worker_done : Move
  stop_accepting : Move

unfoldable pub step : Move → Core → Core
unfolding enqueue after_trigger
step (enqueued m) c = enqueue m c
step (trigger_returned key) c = if is_some (lookup key c.active) then after_trigger key c else c
step worker_done c = one_done c.retiring c
step stop_accepting c = record c { stopped = true }

unfoldable pub run_moves : List Move → Core → Core
unfolding step
run_moves [] c = c
run_moves (m ∷ ms) c = run_moves ms (step m c)
