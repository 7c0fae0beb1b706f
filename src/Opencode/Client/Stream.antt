-- ===== src/Opencode/Client/Stream.antt =====
-- What a session's listener sees of the stream of events.
use espur.Base.{
  ◌≤◌, ◌≡◌, ◌≢◌, refl, ◌∙◌, sym, ap, subst, inl, inr, true, false, List, [], ◌∷◌, ◌++◌, some, Bytes,
  codes, same, same_iff, is_empty, has_prefix, length, length-append, ltb, All, append-nil,
  append_assoc, if◌then◌else◌, if_rule, if_true, if_false, lookup, update, lookup-update,
  lookup-insert_self, bytes_eq, arith, Bool-cases,
}
use espur.Opencode.{Event}
use espur.Opencode.Client.{
  Listener, Listeners, new_listener, subscribe, offer, route, take_one, payloads, room,
}

-- What happens to the listeners: an event of a session, or one read by the turn of a session.
pub data Happens : Type 0 where
  comes : Bytes → Event → Happens
  reads : Bytes → Happens

unfoldable pub happen : Happens → Listeners → Listeners
happen (comes sid ev) ls = route sid ev ls
happen (reads sid) ls = update sid take_one ls

unfoldable pub happen_all : List Happens → Listeners → Listeners
happen_all [] ls = ls
happen_all (h ∷ hs) ls = happen_all hs (happen h ls)

-- The events of a session, in order.
unfoldable pub events_of : Bytes → List Happens → List Event
events_of sid [] = []
events_of sid (comes s ev ∷ hs) =
    let rest = events_of sid hs in if same s sid then ev ∷ rest else rest
events_of sid (reads s ∷ hs) = events_of sid hs

-- A listener that has seen exactly these events, if it dropped none, and keeps to its room.
abbrev pub HasSeen : List Event → Listener → Type 0
HasSeen evs l = (l.dropped ≡ false → l.taken ++ l.waiting ≡ evs) × (length l.waiting ≤ 256)

offer-HasSeen :
    (evs : List Event) (ev : Event) (l : Listener)
    → HasSeen evs l
    → HasSeen (evs ++ ev ∷ []) (offer ev l)
unfolding offer
offer-HasSeen evs ev l h =
    if_rule (HasSeen (evs ++ ev ∷ [])) (ltb (length l.waiting) room)
      (λ fits. (
        λ kept. sym (append_assoc l.taken l.waiting (ev ∷ [])) ∙ ap (λ t. t ++ ev ∷ []) (h.0 kept),
        omega (arith, length-append l.waiting (ev ∷ []), small fits),
      ))
      (λ _. ((λ kept. absurd (ground arith)), h.1))
  where
    small : ltb (length l.waiting) room ≡ true → length l.waiting ≤ 255
    small fits = ground arith

take_one-HasSeen : (evs : List Event) (l : Listener) → HasSeen evs l → HasSeen evs (take_one l)
unfolding take_one
take_one-HasSeen evs l h = by_channel l.waiting refl
  where
    by_channel :
        (w : List Event)
        → l.waiting ≡ w
        → HasSeen evs (elim w [
          | [] ↦ l
          | ev ∷ rest ↦ record l { waiting = rest; taken = l.taken ++ ev ∷ [] }
        ])
    by_channel [] e = h
    by_channel (ev ∷ rest) e = (
      λ kept. append_assoc l.taken (ev ∷ []) rest ∙ ap (λ t. l.taken ++ t) (sym e) ∙ h.0 kept,
      omega (arith, h.1, ap length e),
    )

-- What the listener of a session has seen.
abbrev pub Sees : Bytes → List Event → Listeners → Type 0
Sees sid evs ls = (l : Listener) × (lookup sid ls ≡ some l) × HasSeen evs l

update-Sees :
    (sid s : Bytes) (evs evs' : List Event) (f : Listener → Listener) (ls : Listeners)
    → ((l : Listener) → HasSeen evs l → s ≡ sid → HasSeen evs' (f l))
    → (s ≢ sid → evs' ≡ evs)
    → Sees sid evs ls
    → Sees sid evs' (update s f ls)
update-Sees sid s evs evs' f ls changes others (l, e, h) = elim (Bool-cases (same s sid)) [
  | inl b ↦
      (f l, ground (arith, lookup-update s sid f ls), changes l h (ground (arith, same_iff s sid)))
  | inr b ↦ (
    l,
    ground (arith, lookup-update s sid f ls),
    subst (λ t. HasSeen t l) (sym (others (λ q. absurd (ground (arith, same_iff s sid))))) h,
  )
]

after : Bytes → Happens → List Event → List Event
after sid (comes s ev) evs = if same s sid then evs ++ ev ∷ [] else evs
after sid (reads s) evs = evs

happen-Sees :
    (sid : Bytes) (h : Happens) (evs : List Event) (ls : Listeners)
    → is_empty sid ≡ false
    → Sees sid evs ls
    → Sees sid (after sid h evs) (happen h ls)
unfolding happen after route
happen-Sees sid (reads s) evs ls real sees =
    update-Sees sid s evs evs take_one ls (λ l h _. take_one-HasSeen evs l h) (λ _. refl) sees
happen-Sees sid (comes s ev) evs ls real sees =
    if_rule (Sees sid (if same s sid then evs ++ ev ∷ [] else evs)) (is_empty s)
      (λ blank. subst (λ t. Sees sid t ls) (sym (if_false _ _ (stranger blank))) sees)
      (λ _.
        update-Sees sid s evs (if same s sid then evs ++ ev ∷ [] else evs) (offer ev) ls
          (λ l h q.
            subst (λ t. HasSeen t (offer ev l))
              (sym (if_true {b = same s sid} _ _ (ground (arith, same_iff s sid))))
              (offer-HasSeen evs ev l h))
          (λ ne. if_false {b = same s sid} _ _ (ground (arith, same_iff s sid))) sees)
  where
    stranger : is_empty s ≡ true → same s sid ≡ false
    stranger blank = elim (Bool-cases (same s sid)) [
      | inr b ↦ b
      | inl b ↦
          let q : s ≡ sid = ground (arith, same_iff s sid) in absurd (ground (arith, ap is_empty q))
    ]

events_of-after :
    (sid : Bytes) (h : Happens) (hs : List Happens) (evs : List Event)
    → after sid h evs ++ events_of sid hs ≡ evs ++ events_of sid (h ∷ hs)
unfolding after events_of
events_of-after sid (reads s) hs evs = refl
events_of-after sid (comes s ev) hs evs = elim (Bool-cases (same s sid)) [
  | inl b ↦
      ap (λ t. t ++ events_of sid hs) (if_true _ _ b)
      ∙ append_assoc evs (ev ∷ []) (events_of sid hs)
      ∙ ap (λ t. evs ++ t) (sym (if_true _ _ b))
  | inr b ↦
      ap (λ t. t ++ events_of sid hs) (if_false _ _ b) ∙ ap (λ t. evs ++ t) (sym (if_false _ _ b))
]

happen_all-Sees :
    (sid : Bytes) (hs : List Happens) (evs : List Event) (ls : Listeners)
    → is_empty sid ≡ false
    → Sees sid evs ls
    → Sees sid (evs ++ events_of sid hs) (happen_all hs ls)
unfolding happen_all events_of
happen_all-Sees sid [] evs ls real sees = subst (λ t. Sees sid t ls) (sym (append-nil evs)) sees
happen_all-Sees sid (h ∷ hs) evs ls real sees =
    subst (λ t. Sees sid t (happen_all hs (happen h ls))) (events_of-after sid h hs evs)
      (happen_all-Sees sid hs (after sid h evs) (happen h ls) real
        (happen-Sees sid h evs ls real sees))

-- A listener that is not marked lossy has lost none of the events that the reader of the stream got
-- (what the server sent while the stream was broken is not among them): from a subscription on,
-- however the events of all sessions and the reads of the turns interleave, what a session's turn has read and what still
-- waits are together exactly the session's events in their order, or the listener is marked; and at
-- most 256 events wait.
pub listener_misses_nothing :
    (sid : Bytes) (hs : List Happens) (ls : Listeners)
    → is_empty sid ≡ false
    → Sees sid (events_of sid hs) (happen_all hs (subscribe sid ls))
unfolding subscribe
listener_misses_nothing sid hs ls real =
    happen_all-Sees sid hs [] (subscribe sid ls) real
      (new_listener, lookup-insert_self sid new_listener ls, ((λ _. refl), omega arith))

-- The lines of server-sent events with these payloads.
abbrev pub sse_lines : List Bytes → List Bytes
sse_lines [] = []
sse_lines (p ∷ ps) = (codes "data: " ++ p) ∷ [] ∷ sse_lines ps

-- Server-sent events are read back as they were written: the payloads of the lines that carry them are
-- they, in order, if none is empty.
pub payloads-sse_lines : (ps : List Bytes) → All (λ p. p ≢ []) ps → payloads (sse_lines ps) [] ≡ ps
unfolding payloads has_prefix
payloads-sse_lines [] h = refl
payloads-sse_lines ([] ∷ ps) h = absurd (h.0 refl)
payloads-sse_lines ((c ∷ p) ∷ ps) h = ap (◌∷◌ (c ∷ p)) (payloads-sse_lines ps h.1)
