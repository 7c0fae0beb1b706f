-- ===== src/Connman.antt =====
-- internal/connman/connman.go: the manager of the connections, and the life of one connection as
-- the pieces of code that run without interruption. A running object is named by a number, since
-- the code compares such objects by identity; `slots` holds every object that was made.
pub mod Secrets
pub mod Calls
pub mod Migrate
pub mod Moves
pub mod Owner
pub mod Edits
pub mod Single
pub mod Settled
pub mod Plan
pub mod Seeded
mod Examples
use espur.Base.{
  ℕ, suc, Bool, true, false, not, ◌&&◌, List, [], ◌∷◌, Option, none, some, Bytes, codes, same, ◌==◌,
  if◌then◌else◌, is_some, lookup, insert, delete, update, bytes_eq, nat_eq,
}
use espur.Store.{Connection, Db}
use espur.Bot.Dispatch.{Event}

abbrev pub kind_discord : Bytes
kind_discord = codes "discord"

abbrev pub kind_wechat : Bytes
kind_wechat = codes "wechat"

abbrev pub state_stopped : Bytes
state_stopped = codes "stopped"

abbrev pub state_starting : Bytes
state_starting = codes "starting"

abbrev pub state_qr : Bytes
state_qr = codes "qr"

abbrev pub state_connected : Bytes
state_connected = codes "connected"

abbrev pub state_disconnected : Bytes
state_disconnected = codes "disconnected"

abbrev pub state_auth_revoked : Bytes
state_auth_revoked = codes "auth_revoked"

-- How far the goroutine of `start` and then of `fanIn` has come with an object.
pub data Phase : Type 0 where
  building starting checked live ended : Phase

-- An object of type running. `cancel_set` says whether the field cancel is assigned, `cancelled`
-- whether it was called, `done` whether the channel done is closed.
pub record Slot : Type 0 where
  pub conn : Connection
  pub phase : Phase
  pub cancel_set : Bool
  pub cancelled : Bool
  pub done : Bool
  pub ad : Bool
  pub state : Bytes
  pub qr : Bytes

-- `posters` are the adapters registered with the bot core, `shown` those with the web server, each
-- named by its object; `handed` are the events given to the core, newest first.
pub record Manager : Type 0 where
  pub db : Db
  pub booted : Bool
  pub running : List (Bytes × ℕ)
  pub slots : List (ℕ × Slot)
  pub next : ℕ
  pub posters : List (Bytes × ℕ)
  pub shown : List (Bytes × ℕ)
  pub handed : List Event

unfoldable pub new_manager : Db → Manager
new_manager db = record {
  db = db;
  booted = false;
  running = [];
  slots = [];
  next = 0;
  posters = [];
  shown = [];
  handed = [];
}

-- running.set
abbrev pub with_state : Bytes → Bytes → Slot → Slot
with_state state qr r = record r { state = state; qr = qr }

-- setAdapter, and the assignment of cancel.
abbrev pub with_adapter : Slot → Slot
with_adapter r = record r { ad = true; cancel_set = true; phase = Phase.starting }

abbrev pub closed : Slot → Slot
closed r = record r { done = true; phase = Phase.ended }

abbrev pub cancel : Slot → Slot
cancel r = record r { cancelled = true }

abbrev pub at : Phase → Slot → Slot
at p r = record r { phase = p }

unfoldable pub set_slot : ℕ → (Slot → Slot) → Manager → Manager
set_slot n f m = record m { slots = update n f m.slots }

abbrev pub new_slot : Connection → Slot
new_slot conn = record {
  conn = conn;
  phase = Phase.building;
  cancel_set = false;
  cancelled = false;
  done = false;
  ad = false;
  state = state_starting;
  qr = [];
}

pub data Reservation : Type 0 where
  not_booted already_running : Reservation
  reserved : ℕ → Reservation

-- start, up to the release of the lock.
unfoldable pub reserve : Connection → Manager → Reservation × Manager
reserve conn m =
    if not m.booted
    then (Reservation.not_booted, m)
    else if is_some (lookup conn.id m.running)
    then (Reservation.already_running, m)
    else (
      Reservation.reserved m.next,
      record m {
        running = insert conn.id m.next m.running;
        slots = insert m.next (new_slot conn) m.slots;
        next = suc m.next;
      },
    )

unfoldable pub still_ours : Bytes → ℕ → Manager → Bool
still_ours id n m = elim (lookup id m.running) [ none ↦ false | some k ↦ k == n ]

abbrev pub forget : Bytes → Manager → Manager
forget id m = record m { running = delete id m.running }

-- fail, in start.
unfoldable pub roll_back : Bytes → ℕ → Manager → Manager
unfolding still_ours set_slot
roll_back id n m =
    if still_ours id n m then set_slot n closed (forget id m) else set_slot n closed m

-- start, after the adapter has started: the check whether a stop has come in between.
unfoldable pub check_ours : Bytes → ℕ → Manager → Manager
unfolding still_ours set_slot
check_ours id n m =
    if still_ours id n m
    then set_slot n (at Phase.checked) m
    else set_slot n (λ r. closed (cancel r)) m

-- RegisterAdapter of the bot core and of the web server; then fanIn runs.
unfoldable pub register : Bytes → ℕ → Manager → Manager
unfolding set_slot
register id n m =
    set_slot n (at Phase.live)
      (record m { posters = insert id n m.posters; shown = insert id n m.shown })

-- UnregisterAdapter of both.
unfoldable pub unregister : Bytes → Manager → Manager
unregister id m = record m { posters = delete id m.posters; shown = delete id m.shown }

pub data Taken : Type 0 where
  idle panics : Taken
  waiting : ℕ → Taken

abbrev pub call_cancel : ℕ → Option Slot → Manager → Taken × Manager
call_cancel n none m = (Taken.panics, m)
call_cancel n (some r) m =
    if r.cancel_set then (Taken.waiting n, set_slot n cancel m) else (Taken.panics, m)

abbrev pub taken : Bytes → Option ℕ → Manager → Taken × Manager
taken id none m = (Taken.idle, m)
taken id (some n) m = call_cancel n (lookup n m.slots) (forget id m)

-- stop, up to the wait for done: the call of a cancel function that is not assigned panics.
unfoldable pub take_over : Bytes → Manager → Taken × Manager
take_over id m = taken id (lookup id m.running) m

-- snapshot, of an object that may be absent.
unfoldable pub snapshot : Option Slot → Bytes × Bytes
snapshot none = (state_stopped, [])
snapshot (some r) = (r.state, r.qr)

abbrev pub running_slot : Bytes → Manager → Option Slot
running_slot id m = elim (lookup id m.running) [ none ↦ none | some n ↦ lookup n m.slots ]

unfoldable pub status : Bytes → Manager → Bytes × Bytes
unfolding snapshot
status id m = snapshot (running_slot id m)

-- running.healthy; whether an adapter is healthy is its own matter.
unfoldable pub healthy : (Bytes → Bool) → Option Slot → Bool
healthy adapter_healthy none = false
healthy adapter_healthy (some r) = r.ad && adapter_healthy r.conn.id
