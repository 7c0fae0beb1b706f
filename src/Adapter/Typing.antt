-- ===== src/Adapter/Typing.antt =====
-- internal/adapter/typing.go: the typing indicator of a thread. The counter of posts in flight is an
-- int32, kept as its bits; the channel `resume` holds at most one nudge. One turn of the loop's
-- select, to the check whether a post is in flight, is one move, and which of its ready cases is taken
-- is the choice of the next move; the call of fire after the check is a move of its own, before which
-- a post can begin.
use espur.Base.{ℕ, ◌+◌, ◌-◌, ◌%◌, ◌^◌, Bool, true, false, ◌||◌, List, [], ◌∷◌, ◌==◌, if◌then◌else◌}

pub record TypingState : Type 0 where
  pub posting : ℕ
  pub resume : Bool

unfoldable pub new_typing_state : TypingState
new_typing_state = record { posting = 0; resume = false }

unfoldable pub begin_post : TypingState → TypingState
begin_post s = record s { posting = (s.posting + 1) % 2 ^ 32 }

unfoldable pub end_post : TypingState → TypingState
end_post s =
    let n = (s.posting + (2 ^ 32 - 1)) % 2 ^ 32 in
    if n == 0 then record s { posting = n; resume = true } else record s { posting = n }

unfoldable pub idle : TypingState → Bool
idle s = s.posting == 0

-- RunTypingLoop: `fires` holds, newest first, the number of posts in flight at each call of fire;
-- `cleared` counts the calls of onStop.
pub record Loop : Type 0 where
  pub state : TypingState
  pub fires : List ℕ
  pub cleared : ℕ
  pub ended : Bool
  pub firing : Bool

-- The check of fireIfIdle, after which the loop is about to fire or back at its select.
abbrev pub fire_if_idle : Loop → Loop
fire_if_idle l = record l { firing = idle l.state }

abbrev pub fire : Loop → Loop
fire l = record l { fires = l.state.posting ∷ l.fires; firing = false }

unfoldable pub start_loop : TypingState → Loop
start_loop s =
    fire_if_idle (record { state = s; fires = []; cleared = 0; ended = false; firing = false })

pub data Move : Type 0 where
  begins ends ticks wakes cancels fires_now : Move

abbrev pub wake : Loop → Loop
wake l =
    if l.state.resume
    then fire_if_idle (record l { state = record l.state { resume = false } })
    else l

-- `on_stop` says whether onStop is given. A case of the select whose channel is empty is not taken.
unfoldable pub step_loop : Bool → Move → Loop → Loop
step_loop on_stop Move.begins l = record l { state = begin_post l.state }
step_loop on_stop Move.ends l = record l { state = end_post l.state }
step_loop on_stop Move.ticks l = if l.ended || l.firing then l else fire_if_idle l
step_loop on_stop Move.wakes l = if l.ended || l.firing then l else wake l
step_loop on_stop Move.cancels l =
    if l.ended || l.firing
    then l
    else record l { cleared = if on_stop then l.cleared + 1 else l.cleared; ended = true }
step_loop on_stop Move.fires_now l = if l.firing then fire l else l

unfoldable pub run_loop : Bool → List Move → Loop → Loop
run_loop on_stop [] l = l
run_loop on_stop (m ∷ ms) l = run_loop on_stop ms (step_loop on_stop m l)
