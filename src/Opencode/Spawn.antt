-- ===== src/Opencode/Spawn.antt =====
-- internal/opencode/server.go: spawn, waitHealthy and killProcess. The port, the start of the
-- process, its answers, the clock and the caller's context are arguments, each read once for a poll.
use espur.Base.{
  ℕ, zero, suc, ◌+◌, ◌*◌, ◌≤◌, ◌<◌, ◌≡◌, ◌≢◌, refl, sym, ap, subst, ◌⊎◌, inl, inr, Bool, true,
  false, List, [], ◌∷◌, Option, none, some, ltb, ◌==◌, if◌then◌else◌, Bool-cases, arith,
}
use espur.Store.{second}

abbrev pub millisecond : ℕ
millisecond = 1000000

abbrev pub health_deadline : ℕ
health_deadline = 20 * second

abbrev pub poll_pause : ℕ
poll_pause = 150 * millisecond

-- What the polls meet: the answer to the i-th, the clock after it, and whether the caller's context
-- ends in the pause behind it.
pub record Polls : Type 0 where
  pub answers : ℕ → Bool
  pub clock : ℕ → ℕ
  pub ends : ℕ → Bool

pub data Waited : Type 0 where
  healthy too_late cancelled : Waited

-- waitHealthy, from the i-th poll on; none means that the fuel is spent.
unfoldable pub wait_from : Polls → ℕ → ℕ → ℕ → Option Waited
wait_from w deadline i zero = none
wait_from w deadline i (suc fuel) =
    let rest = wait_from w deadline (suc i) fuel in
    if w.answers i
    then some healthy
    else if ltb deadline (w.clock i)
    then some too_late
    else if w.ends i
    then some cancelled
    else rest

-- One more than the pauses that the deadline has room for, and the last poll.
abbrev pub poll_fuel : ℕ
poll_fuel = 135

unfoldable pub wait_healthy : Polls → ℕ → Option Waited
wait_healthy w start = wait_from w (start + health_deadline) 0 poll_fuel

-- The process: the pid, zero where there is none, and whether it ends within the grace period.
pub record Process : Type 0 where
  pub pid : ℕ
  pub ends_in_grace : Bool

pub data Signal : Type 0 where
  sigterm sigkill : Signal

-- killProcess: the signals that the process group is sent.
unfoldable pub kill_process : Process → List Signal
kill_process h = if h.pid == 0 then [] else sigterm ∷ (if h.ends_in_grace then [] else sigkill ∷ [])

-- What spawn meets.
pub record Launch : Type 0 where
  pub port : Option ℕ
  pub starts : Option Process
  pub begun : ℕ
  pub polls : Polls

pub data SpawnError : Type 0 where
  no_port not_started : SpawnError
  not_healthy : Waited → SpawnError

-- The port of the connection, or an error; the signals that its process was sent by close; and
-- whether the reader of events was started.
pub record Spawn : Type 0 where
  pub result : SpawnError ⊎ ℕ
  pub signals : List Signal
  pub reads : Bool

abbrev pub spawn_error : SpawnError → List Signal → Spawn
spawn_error e s = record { result = inl e; signals = s; reads = false }

abbrev pub health_checked : ℕ → Process → Waited → Spawn
health_checked port h healthy = record { result = inr port; signals = []; reads = true }
health_checked port h too_late = spawn_error (not_healthy too_late) (kill_process h)
health_checked port h cancelled = spawn_error (not_healthy cancelled) (kill_process h)

abbrev pub waited_for : ℕ → Process → Option Waited → Option Spawn
waited_for port h none = none
waited_for port h (some r) = some (health_checked port h r)

abbrev pub started : ℕ → Option Process → Polls → ℕ → Option Spawn
started port none w begun = some (spawn_error not_started [])
started port (some h) w begun = waited_for port h (wait_healthy w begun)

abbrev pub on_port : Option ℕ → Launch → Option Spawn
on_port none l = some (spawn_error no_port [])
on_port (some port) l = started port l.starts l.polls l.begun

-- spawn; none means that the wait ran out of fuel.
unfoldable pub spawn : Launch → Option Spawn
unfolding wait_healthy kill_process
spawn l = on_port l.port l

-- The clock does not go back, and a pause takes its time.
abbrev pub Ticks : Polls → ℕ → Type 0
Ticks w start = (start ≤ w.clock 0) × ((i : ℕ) → w.clock i + poll_pause ≤ w.clock (suc i))

clock_after : (w : Polls) (start i : ℕ) → Ticks w start → start + i * poll_pause ≤ w.clock i
clock_after w start zero t = omega (arith, t.0)
clock_after w start (suc i) t = omega (arith, clock_after w start i t, t.1 i)

-- With the fuel that is left the clock would pass the deadline.
wait_from_ends :
    (w : Polls) (start i fuel : ℕ)
    → Ticks w start
    → 134 < i + fuel
    → i ≤ 134
    → (r : Waited) × (wait_from w (start + health_deadline) i fuel ≡ some r)
unfolding wait_from
wait_from_ends w start i zero t f b = absurd (omega arith)
wait_from_ends w start i (suc fuel) t f b = elim (Bool-cases (w.answers i)) [
  | inl e ↦ (healthy, rw (e, wait_from) refl)
  | inr e ↦ elim (Bool-cases (ltb (start + health_deadline) (w.clock i))) [
    | inl g ↦ (too_late, rw (e, g, wait_from) refl)
    | inr g ↦ elim (Bool-cases (w.ends i)) [
      | inl h ↦ (cancelled, rw (e, g, h, wait_from) refl)
      | inr h ↦
          let early : w.clock i ≤ start + health_deadline = ground arith in
          let (r, q) =
            wait_from_ends w start (suc i) fuel t (omega arith)
              (omega (arith, clock_after w start i t)) in
          (r, rw (e, g, h, wait_from) q)
    ]
  ]
]

wait_from_healthy :
    (w : Polls) (deadline i fuel : ℕ)
    → wait_from w deadline i fuel ≡ some healthy
    → (j : ℕ) × (w.answers j ≡ true)
unfolding wait_from
wait_from_healthy w deadline i zero e = cc
wait_from_healthy w deadline i (suc fuel) e = elim (Bool-cases (w.answers i)) [
  | inl a ↦ (i, a)
  | inr a ↦ wait_from_healthy w deadline (suc i) fuel (ground arith)
]

abbrev pub is_right : SpawnError ⊎ ℕ → Bool
is_right (inl e) = false
is_right (inr port) = true

-- A process that was given up is told to end, and killed if it does not.
abbrev pub IsPutDown : Process → List Signal → Type 0
IsPutDown h signals =
    (signals ≡ sigterm ∷ []) × (h.ends_in_grace ≡ true) ⊎ (signals ≡ sigterm ∷ sigkill ∷ [])

abbrev pub IsSettled : Launch → Spawn → Type 0
IsSettled l s =
    (s.reads ≡ is_right s.result)
    × (is_right s.result ≡ true → (s.signals ≡ []) × ((j : ℕ) × (l.polls.answers j ≡ true)))
    × ((h : Process)
        → is_right s.result ≡ false
        → l.port ≢ none
        → l.starts ≡ some h
        → h.pid ≢ 0
        → IsPutDown h s.signals)

put_down : (h : Process) → h.pid ≢ 0 → IsPutDown h (kill_process h)
unfolding kill_process
put_down h n = elim (Bool-cases h.ends_in_grace) [
  | inl e ↦ inl (ground arith, e)
  | inr e ↦ inr (ground arith)
]

-- A spawn comes to an end and leaves no server behind that nobody owns: if the clock runs, it gives
-- a connection or an error. A connection is given only for a server that answered a poll; its
-- process is sent no signal, and its events are read. After an error no events are read, and a
-- process that was started was sent SIGTERM, and SIGKILL if it outlived the grace period.
pub spawn_lem :
    (l : Launch) → Ticks l.polls l.begun → (s : Spawn) × (spawn l ≡ some s) × IsSettled l s
unfolding spawn
spawn_lem l ticks = by_port l.port refl
  where
    ended : (r : Waited) × (wait_healthy l.polls l.begun ≡ some r)
    ended = wait_from_ends l.polls l.begun 0 poll_fuel ticks (omega arith) (omega arith)

    no_process :
        (e : SpawnError) → (l.port ≡ none) ⊎ (l.starts ≡ none) → IsSettled l (spawn_error e [])
    no_process e h = (refl, λ f. cc, λ p f g k n. elim h [ inl x ↦ absurd (g x) | inr x ↦ cc ])

    same_process :
        (h p : Process)
        → l.starts ≡ some h
        → l.starts ≡ some p
        → p.pid ≢ 0
        → IsPutDown p (kill_process h)
    same_process h p e k n =
        let q : h ≡ p = cc in
        subst (λ (x : Process). IsPutDown p (kill_process x)) (sym q) (put_down p n)

    checked :
        (port : ℕ) (h : Process) (r : Waited)
        → l.starts ≡ some h
        → wait_healthy l.polls l.begun ≡ some r
        → IsSettled l (health_checked port h r)
    checked port h healthy e w = (
      refl,
      λ _. (refl, wait_from_healthy l.polls (l.begun + health_deadline) 0 poll_fuel w),
      λ p f. cc,
    )
    checked port h too_late e w = (refl, λ f. cc, λ p f g k n. same_process h p e k n)
    checked port h cancelled e w = (refl, λ f. cc, λ p f g k n. same_process h p e k n)

    by_process :
        (port : ℕ) (o : Option Process)
        → l.starts ≡ o
        → (s : Spawn) × (started port o l.polls l.begun ≡ some s) × IsSettled l s
    by_process port none e = (spawn_error not_started [], refl, no_process not_started (inr e))
    by_process port (some h) e = (
      health_checked port h ended.0,
      ap (waited_for port h) ended.1,
      checked port h ended.0 e ended.1,
    )

    by_port : (o : Option ℕ) → l.port ≡ o → (s : Spawn) × (on_port o l ≡ some s) × IsSettled l s
    by_port none e = (spawn_error no_port [], refl, no_process no_port (inl e))
    by_port (some port) e = by_process port l.starts refl
