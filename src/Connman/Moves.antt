-- ===== src/Connman/Moves.antt =====
-- The operations of the connection manager as they interleave: a move is what one goroutine does
-- between two points at which another may run.
use espur.Base.{ℕ, ◌≡◌, Bool, true, Option, some, Bytes, lookup, nat_eq, ◌≢◌}
use espur.Store.{Connection}
use espur.Bot.Dispatch.{Event}
use espur.Connman.{
  Manager, Slot, Phase, Taken, reserve, roll_back, check_ours, register, unregister, take_over,
  set_slot, with_adapter, with_state, cancel, closed, state_qr,
}
use espur.Connman.Secrets.{World}
use espur.Connman.Calls.{handle_event}

abbrev pub find : ℕ → Manager → Option Slot
find n m = lookup n m.slots

-- One move. A stop that calls a cancel function not yet assigned panics; the program goes on, since
-- net/http recovers the panic of a handler, and the entry of the id is gone.
pub data Step (m : Manager) : Manager → Type 0 where
  boots : Step m (record m { booted = true })
  reserves : (conn : Connection) → Step m (reserve conn m).1
  build_fails :
      (n : ℕ) (s : Slot)
      → find n m ≡ some s
      → s.phase ≡ Phase.building
      → Step m (roll_back s.conn.id n m)
  builds :
      (n : ℕ) (s : Slot)
      → find n m ≡ some s
      → s.phase ≡ Phase.building
      → Step m (set_slot n with_adapter m)
  start_fails :
      (n : ℕ) (s : Slot)
      → find n m ≡ some s
      → s.phase ≡ Phase.starting
      → Step m (roll_back s.conn.id n (set_slot n cancel m))
  checks :
      (n : ℕ) (s : Slot)
      → find n m ≡ some s
      → s.phase ≡ Phase.starting
      → Step m (check_ours s.conn.id n m)
  registers :
      (n : ℕ) (s : Slot)
      → find n m ≡ some s
      → s.phase ≡ Phase.checked
      → Step m (register s.conn.id n m)
  shows_qr :
      (n : ℕ) (s : Slot) (content : Bytes)
      → find n m ≡ some s
      → Step m (set_slot n (with_state state_qr content) m)
  handles :
      (w : World) (panics : Bool) (n : ℕ) (s : Slot) (ev : Event)
      → find n m ≡ some s
      → s.phase ≡ Phase.live
      → Step m (handle_event w panics s.conn n ev m)
  drains :
      (n : ℕ) (s : Slot) → find n m ≡ some s → s.phase ≡ Phase.live → Step m (set_slot n closed m)
  stops : (id : Bytes) → (take_over id m).0 ≢ Taken.panics → Step m (take_over id m).1
  panics : (id : Bytes) → (take_over id m).0 ≡ Taken.panics → Step m (take_over id m).1
  releases :
      (n : ℕ) (s : Slot) → find n m ≡ some s → s.done ≡ true → Step m (unregister s.conn.id m)

-- Any number of moves, the last one outermost.
pub data Runs (m : Manager) : Manager → Type 0 where
  rest : Runs m m
  moves : {a b : Manager} → Runs m a → Step a b → Runs m b

abbrev pub IsCalmStep : {m m' : Manager} → Step m m' → Type 0
IsCalmStep (Step.panics id p) = ⊥
IsCalmStep _ = Unit

-- No stop has panicked.
abbrev pub IsCalm : {m m' : Manager} → Runs m m' → Type 0
IsCalm Runs.rest = Unit
IsCalm (Runs.moves r s) = IsCalm r × IsCalmStep s
