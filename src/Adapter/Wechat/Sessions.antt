-- ===== src/Adapter/Wechat/Sessions.antt =====
-- The sessions of the WeChat adapter: an expired one forces a new login, and the adapter only
-- replies.
use espur.Base.{
  ℕ, ◌≡◌, ◌≢◌, refl, ◌∙◌, ap, Bool, true, false, not, List, [], ◌∷◌, ◌++◌, Option, none, some,
  Bytes, is_empty, if◌then◌else◌, if_rule, lookup, lookup-insert_ne, bytes_eq, All, arith,
}
use espur.Adapter.Events.{Room}
use espur.Adapter.Send.{Platform, Wire, Posted, SendError}
use espur.Adapter.Wechat.{
  Session, no_session, Json, Store, Adapter, WeixinMessage, Poll, load_session, save_session,
  save_cursor, clear_auth, on_message, session_or_none, refused_at_once, with_token_of, on_expired,
  monitor, monitor_ended, lifecycle, post,
}

-- A call back of Monitor that is not its end.
unfoldable pub goes_on : Poll → Bool
goes_on (Poll.message m) = true
goes_on (Poll.cursor c) = true
goes_on Poll.expired = false
goes_on (Poll.returns over) = false

store-on_message :
    (room : Room) (m : WeixinMessage) (a : Adapter) → (on_message room m a).store ≡ a.store
unfolding on_message
store-on_message room m a =
    if_rule (λ (b : Adapter). b.store ≡ a.store) m.from_bot (λ _. refl)
      (λ _.
        if_rule (λ (b : Adapter). b.store ≡ a.store) (not (is_empty m.group_id)) (λ _. refl)
          (λ _.
            if_rule (λ (b : Adapter). b.store ≡ a.store) (is_empty m.context_token) (λ _. refl)
              (λ _. refl)))

save_fails-save_cursor :
    (j : Json) (c : Bytes) (a : Adapter) → (save_cursor j c a).store.save_fails ≡ a.store.save_fails
unfolding save_cursor save_session
save_fails-save_cursor j c a =
    if_rule (λ (b : Adapter). b.store.save_fails ≡ a.store.save_fails) a.store.save_fails
      (λ _. refl) (λ _. refl)

-- The adapter is logged out: nothing of the session is kept, in the adapter or in the store.
abbrev pub IsLoggedOut : Json → Adapter → Type 0
IsLoggedOut j a = (a.healthy ≡ false) × (a.sess ≡ no_session) × (a.store.blob ≡ j.encode no_session)

on_expired-IsLoggedOut :
    (j : Json) (room : Room) (a : Adapter)
    → a.store.save_fails ≡ false
    → IsLoggedOut j (on_expired j room a)
unfolding on_expired clear_auth save_session lifecycle
on_expired-IsLoggedOut j room a saves =
    if_rule (IsLoggedOut j) a.store.save_fails (λ e. absurd (ground arith))
      (λ _. (refl, refl, refl))

monitor-IsLoggedOut :
    (j : Json) (room : Room) (ps rest : List Poll) (a : Adapter)
    → All (λ p. goes_on p ≡ true) ps
    → a.store.save_fails ≡ false
    → IsLoggedOut j (monitor j room (ps ++ Poll.expired ∷ rest) a)
unfolding monitor goes_on
monitor-IsLoggedOut j room [] rest a goes saves = on_expired-IsLoggedOut j room a saves
monitor-IsLoggedOut j room (Poll.message m ∷ ps) rest a goes saves =
    monitor-IsLoggedOut j room ps rest (on_message room m a) goes.1
      (ap (λ (t : Store). t.save_fails) (store-on_message room m a) ∙ saves)
monitor-IsLoggedOut j room (Poll.cursor c ∷ ps) rest a goes saves =
    monitor-IsLoggedOut j room ps rest (save_cursor j c a) goes.1
      (save_fails-save_cursor j c a ∙ saves)
monitor-IsLoggedOut j room (Poll.expired ∷ ps) rest a goes saves = absurd (ground (arith, goes.0))
monitor-IsLoggedOut j room (Poll.returns over ∷ ps) rest a goes saves =
    absurd (ground (arith, goes.0))

-- An expired session forces a new login: once Monitor has reported the expiry, after any messages and
-- cursors, the adapter is unhealthy, it does not go on with what Monitor still has, and the session
-- that the next run loads is empty, so that it asks for a scan; if the store works.
pub expired_forces_login :
    (j : Json) (room : Room) (ps rest : List Poll) (a : Adapter)
    → All (λ p. goes_on p ≡ true) ps
    → a.store.save_fails ≡ false
    → let a' = monitor j room (ps ++ Poll.expired ∷ rest) a in
      (a'.healthy ≡ false) × (load_session j a'.store ≡ no_session)
unfolding load_session
expired_forces_login j room ps rest a goes saves =
    let out = monitor-IsLoggedOut j room ps rest a goes saves in
    (out.0, loaded (monitor j room (ps ++ Poll.expired ∷ rest) a).store out.2)
  where
    loaded : (t : Store) → t.blob ≡ j.encode no_session → load_session j t ≡ no_session
    loaded t e =
        if_rule (λ (s : Session). s ≡ no_session) t.load_fails (λ _. refl)
          (λ _.
            if_rule (λ (s : Session). s ≡ no_session) (is_empty t.blob) (λ _. refl)
              (λ _. ap session_or_none (ap j.decode e ∙ j.decode-encode no_session)))

threads-on_message :
    (room : Room) (m : WeixinMessage) (a : Adapter) (thread : Bytes)
    → m.from_user_id ≢ thread
    → lookup thread (on_message room m a).threads ≡ lookup thread a.threads
unfolding on_message
threads-on_message room m a thread ne =
    if_rule P m.from_bot (λ _. refl)
      (λ _.
        if_rule P (not (is_empty m.group_id)) (λ _. refl)
          (λ _.
            if_rule P (is_empty m.context_token) (λ _. refl)
              (λ _. lookup-insert_ne m.from_user_id thread m.context_token a.threads ne)))
  where
    P : Adapter → Type 0
    P b = lookup thread b.threads ≡ lookup thread a.threads

-- A call back that brings no message of the thread.
abbrev pub IsNotFrom : Bytes → Poll → Type 0
IsNotFrom thread (Poll.message m) = m.from_user_id ≢ thread
IsNotFrom thread p = Unit

threads-save_session :
    (j : Json) (s : Session) (a : Adapter) → (save_session j s a).threads ≡ a.threads
unfolding save_session
threads-save_session j s a =
    if_rule (λ (b : Adapter). b.threads ≡ a.threads) a.store.save_fails (λ _. refl) (λ _. refl)

threads-monitor_ended :
    (room : Room) (over : Bool) (a : Adapter) → (monitor_ended room over a).threads ≡ a.threads
unfolding lifecycle
threads-monitor_ended room over a =
    if_rule (λ (b : Adapter). b.threads ≡ a.threads) over (λ _. refl) (λ _. refl)

threads-monitor :
    (j : Json) (room : Room) (thread : Bytes) (ps : List Poll) (a : Adapter)
    → All (IsNotFrom thread) ps
    → lookup thread (monitor j room ps a).threads ≡ lookup thread a.threads
unfolding monitor on_expired clear_auth save_cursor lifecycle
threads-monitor j room thread [] a absent = refl
threads-monitor j room thread (Poll.message m ∷ ps) a absent =
    threads-monitor j room thread ps (on_message room m a) absent.1
    ∙ threads-on_message room m a thread absent.0
threads-monitor j room thread (Poll.cursor c ∷ ps) a absent =
    threads-monitor j room thread ps (save_cursor j c a) absent.1
    ∙ ap (lookup thread) (
        threads-save_session j (record a.sess { cursor = c })
          (record a { sess = record a.sess { cursor = c } }))
threads-monitor j room thread (Poll.expired ∷ ps) a absent =
    ap (lookup thread) (threads-save_session j no_session _)
threads-monitor j room thread (Poll.returns over ∷ ps) a absent =
    ap (lookup thread) (threads-monitor_ended room over a)

-- The adapter only replies: after a Monitor that brought no message of a thread, to an adapter that
-- had no token for the thread, a post to the thread makes no call of the platform and returns that
-- the thread is gone, or that the adapter is not started.
pub post_only_replies :
    (j : Json) (room : Room) (thread body : Bytes) (ps : List Poll) (a : Adapter)
    (p : Bytes → Platform) (over : ℕ → Bool) (w : Wire)
    → All (IsNotFrom thread) ps
    → lookup thread a.threads ≡ none
    → let a' = monitor j room ps a in
      let r = post p over thread body w a' in
      (r.1 ≡ w) × (r.0.error ≡ some (if a'.started then SendError.gone else SendError.not_started))
unfolding post
post_only_replies j room thread body ps a p over w absent unknown =
    by_start (monitor j room ps a).started (lookup thread (monitor j room ps a).threads)
      (threads-monitor j room thread ps a absent ∙ unknown)
  where
    by_start :
        (b : Bool) (o : Option Bytes)
        → o ≡ none
        → let r : Posted × Wire =
            if not b
            then refused_at_once SendError.not_started w
            else with_token_of p over body w o in
          (r.1 ≡ w) × (r.0.error ≡ some (if b then SendError.gone else SendError.not_started))
    by_start false o e = (refl, refl)
    by_start true none e = (refl, refl)
    by_start true (some t) e = absurd (ground arith)
