-- ===== src/Main/Shutdown.antt =====
-- cmd/espur/main.go: the shutdown, from the first signal on. The channel drainDone carries the one
-- value that its goroutine sends, whether the drain ended before its deadline, and webErrCh the one
-- that the web server's goroutine sends when it returns.
use espur.Base.{
  ℕ, ◌≡◌, refl, sym, ap, ◌↔◌, ◌⊎◌, inl, inr, Bool, true, false, List, [], ◌∷◌, ◌++◌, Option, none,
  some, if◌then◌else◌, ◌==◌, arith,
}
use espur.Main.{exit_ok, exit_drain_exceeded, exit_resource_close}

-- Which case of the select of phase 2 is taken: the drain's result, or a second signal.
pub data Wait : Type 0 where
  result second_signal : Wait

-- What began it: a signal, or the return of the web server, whose value is then taken.
pub data First : Type 0 where
  signal web_returned : First

-- What the shutdown meets. `drains` says whether all invocations end before the deadline of the
-- drain, `after` whether they do once they were aborted by the second signal.
pub record Meets : Type 0 where
  pub first : First
  pub wait : Wait
  pub drains : Bool
  pub after : Bool
  pub db_close_fails : Bool

-- What is done, in order.
pub data Act : Type 0 where
  stop_accepting cancel_adapters abort_in_flight close_web close_pool checkpoint close_db : Act

-- A receive from drainDone: the value, and what is left in the channel; none where it waits forever.
abbrev receive : List Bool → Option (Bool × List Bool)
receive [] = none
receive (b ∷ ch) = some (b, ch)

pub record Finished : Type 0 where
  pub exit_code : ℕ
  pub acts : List Act

-- What is in webErrCh once the adapters' context is cancelled, which ends the web server: its value,
-- unless it was the one that began the shutdown.
abbrev web_channel : First → List Bool
web_channel First.signal = true ∷ []
web_channel First.web_returned = []

abbrev closed_db : Bool → ℕ → List Act → Finished
closed_db db_close_fails code acts = record {
  exit_code =
      if db_close_fails then (if code == exit_ok then exit_resource_close else code) else code;
  acts = acts;
}

-- Phase 3, which first waits for the web server.
abbrev closing : Bool → ℕ → List Act → List Bool → Option Finished
closing db_close_fails code acts [] = none
closing db_close_fails code acts (v ∷ ch) = some (closed_db db_close_fails code acts)

abbrev phase_1 : List Act
phase_1 = Act.stop_accepting ∷ Act.cancel_adapters ∷ []

abbrev phase_3 : List Act
phase_3 = Act.close_web ∷ Act.close_pool ∷ Act.checkpoint ∷ Act.close_db ∷ []

-- The receive after an abort, whose value is not used.
abbrev after_abort : First → Bool → Option (Bool × List Bool) → Option Finished
after_abort first fails none = none
after_abort first fails (some r) =
    closing fails exit_drain_exceeded (phase_1 ++ Act.abort_in_flight ∷ phase_3) (web_channel first)

abbrev on_result : First → Bool → Option (Bool × List Bool) → Option Finished
on_result first fails none = none
on_result first fails (some (true, ch)) =
    closing fails exit_ok (phase_1 ++ phase_3) (web_channel first)
on_result first fails (some (false, ch)) = after_abort first fails (receive ch)

abbrev waited : First → Wait → Bool → Bool → Bool → Option Finished
waited first Wait.result drains after fails = on_result first fails (receive (drains ∷ []))
waited first Wait.second_signal drains after fails = after_abort first fails (receive (after ∷ []))

-- Phases 1 to 3: what the program returns, none where it waits forever.
unfoldable pub shutdown : Meets → Option Finished
shutdown m = waited m.first m.wait m.drains m.after m.db_close_fails

abbrev Stuck : First → Wait → Bool → Type 0
Stuck first v d = (first ≡ First.web_returned) ⊎ ((v ≡ Wait.result) × (d ≡ false))

waited_iff :
    (first : First) (v : Wait) (d a f : Bool) → (waited first v d a f ≡ none) ↔ Stuck first v d
waited_iff First.web_returned Wait.second_signal d a f = (λ q. inl refl, λ q. refl)
waited_iff First.web_returned Wait.result true a f = (λ q. inl refl, λ q. refl)
waited_iff First.web_returned Wait.result false a f = (λ q. inl refl, λ q. refl)
waited_iff First.signal Wait.second_signal d a f =
    (λ q. cc, λ q. elim q [ inl e ↦ cc | inr e ↦ cc ])
waited_iff First.signal Wait.result true a f = (λ q. cc, λ q. elim q [ inl e ↦ cc | inr e ↦ cc ])
waited_iff First.signal Wait.result false a f = (λ _. inr (refl, refl), λ _. refl)

-- The shutdown hangs exactly in two cases. Where the return of the web server began it: phase 3 then
-- waits for a value that was already taken. And where the deadline of the drain passes with no second
-- signal: the second receive of the drain's one value then waits forever. In all other cases it ends,
-- if the web server returns once its context is cancelled.
pub shutdown_hangs_iff :
    (m : Meets)
    → (shutdown m ≡ none)
      ↔ ((m.first ≡ First.web_returned) ⊎ ((m.wait ≡ Wait.result) × (m.drains ≡ false)))
unfolding shutdown
shutdown_hangs_iff m = waited_iff m.first m.wait m.drains m.after m.db_close_fails

-- What the exit code 0 tells.
abbrev pub IsClean : Wait → Bool → Bool → Finished → Type 0
IsClean v d f r = (v ≡ Wait.result) × (d ≡ true) × (f ≡ false) × (r.acts ≡ phase_1 ++ phase_3)

waited-IsClean :
    (first : First) (v : Wait) (d a f : Bool) (r : Finished)
    → waited first v d a f ≡ some r
    → r.exit_code ≡ exit_ok
    → IsClean v d f r
waited-IsClean First.web_returned Wait.second_signal d a f r e ok = cc
waited-IsClean First.web_returned Wait.result true a f r e ok = cc
waited-IsClean First.web_returned Wait.result false a f r e ok = cc
waited-IsClean First.signal Wait.second_signal d a true r e ok = absurd (ground arith)
waited-IsClean First.signal Wait.second_signal d a false r e ok = absurd (ground arith)
waited-IsClean First.signal Wait.result false a f r e ok = absurd (ground arith)
waited-IsClean First.signal Wait.result true a true r e ok = absurd (ground arith)
waited-IsClean First.signal Wait.result true a false r e ok =
    let q : record { exit_code = 0; acts = phase_1 ++ phase_3 } ≡ r = ground arith in
    (refl, refl, refl, ap (λ (x : Finished). x.acts) (sym q))

-- A shutdown that ends with code 0 has drained: no invocation was aborted, the bot stopped accepting
-- before the connections were cancelled, and the database was closed last and without an error.
pub exit_ok-shutdown :
    (m : Meets) (r : Finished)
    → shutdown m ≡ some r
    → r.exit_code ≡ exit_ok
    → IsClean m.wait m.drains m.db_close_fails r
unfolding shutdown
exit_ok-shutdown m r e ok = waited-IsClean m.first m.wait m.drains m.after m.db_close_fails r e ok
