-- ===== src/Adapter/Events.antt =====
-- What both adapters keep and send inward: the channel of events with its backpressure, and the
-- typing states of the threads. A typing state is named by a number, since a post holds on to the one
-- it found.
use espur.Base.{
  ℕ, suc, Bool, List, [], ◌∷◌, ◌++◌, Option, none, some, Bytes, codes, is_empty, trim_space,
  if◌then◌else◌, insert, delete, update, bytes_eq, nat_eq,
}
use espur.Bot.Dispatch.{Event}
use espur.Adapter.Typing.{TypingState, new_typing_state, begin_post, end_post}

-- Whether an event, and after it the signal of a drop, finds room in the channel within a second.
pub record Room : Type 0 where
  pub first : Bool
  pub second : Bool

abbrev pub lifecycle_disconnected : Event
lifecycle_disconnected = Event.lifecycle (codes "disconnected")

-- The events sent, newest last.
unfoldable pub emit : Room → Event → List Event → List Event
emit room ev events =
    if room.first
    then events ++ ev ∷ []
    else if room.second
    then events ++ lifecycle_disconnected ∷ []
    else events

-- WithPlatformKey
unfoldable pub platform_key : Bytes → Bytes → Bytes
platform_key key platform = if is_empty (trim_space key) then platform else trim_space key

pub record Typings : Type 0 where
  pub active : List (Bytes × ℕ)
  pub states : List (ℕ × TypingState)
  pub next : ℕ

-- StartTyping, up to the launch of the loop.
unfoldable pub start_typing : Bytes → Typings → Typings
start_typing thread t = record {
  active = insert thread t.next t.active;
  states = insert t.next new_typing_state t.states;
  next = suc t.next;
}

-- The function that StartTyping returns.
unfoldable pub stop_typing : Bytes → Typings → Typings
stop_typing thread t = record t { active = delete thread t.active }

abbrev pub on_state : (TypingState → TypingState) → Option ℕ → Typings → Typings
on_state f none t = t
on_state f (some n) t = record t { states = update n f t.states }

-- BeginPost on the state that Post found, and EndPost on the same.
unfoldable pub pause_typing : Option ℕ → Typings → Typings
pause_typing found t = on_state begin_post found t

unfoldable pub resume_typing : Option ℕ → Typings → Typings
resume_typing found t = on_state end_post found t
