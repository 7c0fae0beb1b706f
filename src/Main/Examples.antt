-- ===== src/Main/Examples.antt =====
-- Shutdowns.
use espur.Base.{◌≡◌, refl, ◌↔◌, ◌⊎◌, inr, true, false, none}
use espur.Main.Shutdown.{First, Meets, Wait, shutdown, shutdown_hangs_iff}

-- An invocation that outlives the deadline of the drain.
abbrev stuck : Meets
stuck = record {
  first = First.signal;
  wait = Wait.result;
  drains = false;
  after = true;
  db_close_fails = false;
}

shutdown_hangs_iff_example :
    (shutdown stuck ≡ none)
    ↔ ((stuck.first ≡ First.web_returned) ⊎ ((stuck.wait ≡ Wait.result) × (stuck.drains ≡ false)))
shutdown_hangs_iff_example = shutdown_hangs_iff stuck

stuck_hangs : shutdown stuck ≡ none
stuck_hangs = (shutdown_hangs_iff stuck).1 (inr (refl, refl))
