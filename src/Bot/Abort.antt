-- ===== src/Bot/Abort.antt =====
-- internal/bot/bot.go: the contexts of the running invocations. They are the children of one context,
-- which is made with the first of them and which AbortInFlight cancels.
use espur.Base.{◌≡◌, refl, Bool, true, false, Option, none, some, arith}

-- hardCtx: none before the first call of execContext, else whether it is cancelled.
pub record Contexts : Type 0 where
  pub hard : Option Bool

unfoldable pub exec_context : Contexts → Contexts
exec_context c = elim c.hard [ none ↦ record { hard = some false } | some b ↦ c ]

unfoldable pub abort_in_flight : Contexts → Contexts
abort_in_flight c = elim c.hard [ none ↦ c | some b ↦ record { hard = some true } ]

-- Whether an invocation with a context of the core is cancelled.
unfoldable pub is_cancelled : Contexts → Bool
is_cancelled c = elim c.hard [ none ↦ false | some b ↦ b ]

-- An abort after the first invocation reaches all of them, those that come later too.
pub abort_lasts :
    (c : Contexts) → is_cancelled (exec_context (abort_in_flight (exec_context c))) ≡ true
unfolding exec_context abort_in_flight is_cancelled
abort_lasts c = by_hard c.hard refl
  where
    by_hard :
        (h : Option Bool)
        → c.hard ≡ h
        → is_cancelled (exec_context (abort_in_flight (exec_context c))) ≡ true
    by_hard none e = ground (arith)
    by_hard (some b) e = ground (arith)
