-- ===== src/Opencode/Client/Examples.antt =====
-- Streams of events.
use espur.Base.{
  ◌≡◌, refl, true, false, List, [], ◌∷◌, none, some, codes, same, has_prefix, lookup, insert,
  update, bytes_eq,
}
use espur.Opencode.{Event, session_idle}
use espur.Opencode.Client.{
  Envelope, subscribe, run_sse, payloads, dispatch_all, dispatch, route, offer,
}
use espur.Opencode.Client.Stream.{Happens, happen_all, events_of, Sees, listener_misses_nothing}

abbrev ping : Event
ping = record { type = session_idle; part = none; info = none; error = [] }

abbrev story : List Happens
story =
    Happens.comes (codes "s") ping
    ∷ Happens.comes (codes "t") ping
    ∷ Happens.reads (codes "s")
    ∷ Happens.comes (codes "s") ping
    ∷ []

listener_misses_nothing_example :
    Sees (codes "s") (events_of (codes "s") story) (happen_all story (subscribe (codes "s") []))
listener_misses_nothing_example = listener_misses_nothing (codes "s") story [] refl

abbrev envelope : Envelope
envelope = record { type = codes "session.idle"; session_id = codes "s"; event = ping }

-- The stream breaks within a frame and is connected again: the frame is lost, and the listener is
-- not marked.
broken_frame :
    run_sse
      (λ b. some envelope)
      (record {
        opened = true;
        response = some (200, codes "data:1" ∷ [] ∷ codes "data:2" ∷ []);
        ends = false;
      }
        ∷ record { opened = true; response = some (200, codes "data:3" ∷ [] ∷ []); ends = true }
        ∷ [])
      (subscribe (codes "s") [])
    ≡ (codes "s", record { waiting = ping ∷ ping ∷ []; taken = []; dropped = false }) ∷ []
unfolding run_sse payloads dispatch_all dispatch route offer subscribe has_prefix same lookup insert
    update
broken_frame = refl
