-- ===== src/Opencode/Server.antt =====
-- internal/opencode/server.go and the life of a connection in internal/opencode/client.go: one server
-- process for each vendor. Connections are named by numbers, and `objects` holds every one that was
-- made; an operation is cut where it releases the lock.
pub mod Awaited
pub mod Close
mod Examples
use espur.Base.{
  ℕ, suc, ◌≡◌, Bool, true, false, not, ◌&&◌, List, [], ◌∷◌, Option, none, some, Bytes,
  if◌then◌else◌, lookup, insert, delete, update, bytes_eq, nat_eq,
}

-- A serverConn: `cancelled` says whether its context has ended.
pub record ServerConn : Type 0 where
  pub vendor : Bytes
  pub cancelled : Bool
  pub closed : Bool
  pub exited : Bool

unfoldable pub alive : ServerConn → Bool
alive c = not c.cancelled && (not c.closed && not c.exited)

-- close: it also kills the process, which `closed` stands for.
abbrev pub close_conn : ServerConn → ServerConn
close_conn c = if c.closed then c else record c { closed = true; cancelled = true }

-- What the reaper does when the process has ended.
abbrev pub exit_conn : ServerConn → ServerConn
exit_conn c = record c { exited = true; cancelled = true }

abbrev pub new_conn : Bytes → ServerConn
new_conn vendor = record { vendor = vendor; cancelled = false; closed = false; exited = false }

-- What a pendingSpawn holds once it is done: the connection, or none for an error.
abbrev pub Spawned : Type 0
Spawned = Option ℕ

-- `starting` holds the processes of spawns under way, by the number of the pendingSpawn, each with its
-- vendor: the process of a connection is part of the connection.
pub record Servers : Type 0 where
  pub conns : List (Bytes × ℕ)
  pub pending : List (Bytes × ℕ)
  pub starting : List (ℕ × Bytes)
  pub done : List (ℕ × Spawned)
  pub objects : List (ℕ × ServerConn)
  pub next : ℕ
  pub closed : Bool

unfoldable pub new_servers : Servers
new_servers = record {
  conns = [];
  pending = [];
  starting = [];
  done = [];
  objects = [];
  next = 0;
  closed = false;
}

pub data Found : Type 0 where
  ready waits owns : ℕ → Found

abbrev pub alive_at : Option ServerConn → Bool
alive_at none = false
alive_at (some c) = alive c

-- The entry of a vendor is used if it is alive; else it is closed and taken out.
abbrev pub usable : Option ℕ → Servers → Option ℕ
usable none s = none
usable (some n) s = if alive_at (lookup n s.objects) then some n else none

abbrev pub drop_dead : Bytes → Option ℕ → Servers → Servers
drop_dead id none s = s
drop_dead id (some n) s = record s {
  conns = delete id s.conns;
  objects = update n close_conn s.objects;
}

abbrev pub pended : Bytes → Option ℕ → Servers → Found × Servers
pended id (some p) s = (Found.waits p, s)
pended id none s =
    (Found.owns s.next, record s { pending = insert id s.next s.pending; next = suc s.next })

abbrev pub looked : Bytes → Option ℕ → Servers → Found × Servers
looked id (some n) s = (Found.ready n, s)
looked id none s = pended id (lookup id s.pending) (drop_dead id (lookup id s.conns) s)

-- acquire, from the taking of the lock to its release: a connection, or a spawn to wait for, or a
-- spawn to do.
unfoldable pub look : Bytes → Servers → Found × Servers
unfolding alive
look id s = looked id (usable (lookup id s.conns) s) s

abbrev pub published : ℕ → Spawned → Servers → Servers
published p r s = record s { done = insert p r s.done }

-- spawn, at cmd.Start, which comes before the wait for health.
abbrev pub start_process : Bytes → ℕ → Servers → Servers
start_process id p s = record s { starting = insert p id s.starting }

-- acquire, after spawn: `ok` says whether it gave a connection, to which its process then belongs; a
-- spawn that fails has killed its process.
unfoldable pub complete : Bytes → ℕ → Bool → Servers → Servers
complete id p ok s =
    let s' = record s { pending = delete id s.pending; starting = delete p s.starting } in
    if not ok
    then published p none s'
    else if s.closed
    then published p none (record s' {
      objects = insert s.next (close_conn (new_conn id)) s.objects;
      next = suc s.next;
    })
    else published p (some s.next) (record s' {
      conns = insert id s.next s.conns;
      objects = insert s.next (new_conn id) s.objects;
      next = suc s.next;
    })

abbrev pub close_each : List (Bytes × ℕ) → List (ℕ × ServerConn) → List (ℕ × ServerConn)
close_each [] t = t
close_each ((id, n) ∷ cs) t = close_each cs (update n close_conn t)

-- Close
unfoldable pub close_all : Servers → Servers
close_all s = record s { conns = []; closed = true; objects = close_each s.conns s.objects }

-- One move of the callers of acquire, of the processes and of Close. A spawn gives a connection only
-- after its process was started.
pub data Step (s : Servers) : Servers → Type 0 where
  looks : (id : Bytes) → Step s (look id s).1
  starts : (id : Bytes) (p : ℕ) → lookup id s.pending ≡ some p → Step s (start_process id p s)
  completes :
      (id : Bytes) (p : ℕ) (ok : Bool)
      → lookup id s.pending ≡ some p
      → (ok ≡ true → lookup p s.starting ≡ some id)
      → Step s (complete id p ok s)
  exits : (n : ℕ) → Step s (record s { objects = update n exit_conn s.objects })
  closes : Step s (close_all s)

pub data Runs (s : Servers) : Servers → Type 0 where
  rest : Runs s s
  moves : {a b : Servers} → Runs s a → Step a b → Runs s b
