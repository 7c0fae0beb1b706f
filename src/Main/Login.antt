-- ===== src/Main/Login.antt =====
-- cmd/wechat-login/main.go: the program that logs in once and saves the session to a file, over the
-- adapter's own run.
use espur.Base.{
  ℕ, ◌≡◌, ◌↔◌, refl, ap, Bool, true, false, not, List, [], ◌∷◌, codes, same, if◌then◌else◌, arith,
}
use espur.Bot.Dispatch.{Event}
use espur.Adapter.Events.{Room, emit}
use espur.Adapter.Wechat.{
  Json, Store, Adapter, Session, Login, not_connected, login_error, logged_in, returns, new_adapter,
  run, monitor, load_session, save_session, lifecycle,
}

-- What an event makes of the exit status.
abbrev pub status_after : ℕ → Event → ℕ
status_after n (Event.message m) = n
status_after n (Event.lifecycle kind) = if same kind (codes "auth_revoked") then 1 else n

abbrev pub exit_of : ℕ → List Event → ℕ
exit_of n [] = n
exit_of n (e ∷ es) = exit_of (status_after n e) es

-- The exit status, and the adapter with what the store then holds. The first event that says that
-- the login worked or was refused cancels the context, so that Monitor returns.
unfoldable pub wechat_login : Bool → Json → Room → Login → Store → ℕ × Adapter
wechat_login makes_dir j room login store =
    let a = new_adapter [] store in
    if not makes_dir
    then (1, a)
    else (let a' = run j room login (returns true ∷ []) a in (exit_of 0 a'.events, a'))

abbrev pub ready : Room
ready = record { first = true; second = true }

-- A first login, with a directory, an empty store that works and a channel that takes its events:
-- the status is 1 exactly where the login ends without being connected. A login that connects ends
-- with 0 and leaves its session in the store. A login that ends with an error ends with 0 as well,
-- and leaves the store empty.
pub wechat_login_lem :
    (j : Json) (login : Login)
    → let store : Store = record { blob = []; load_fails = false; save_fails = false } in
      let r = wechat_login true j ready login store in
      ((r.0 ≡ 1) ↔ (login ≡ not_connected))
      × ((s : Session)
          → login ≡ logged_in s
          → (r.0 ≡ 0) × (r.1.store.blob ≡ j.encode (record s { cursor = [] })))
      × (login ≡ login_error → (r.0 ≡ 0) × (r.1.store.blob ≡ []))
unfolding wechat_login new_adapter run monitor load_session save_session lifecycle emit same
wechat_login_lem j login_error =
    ((λ e. absurd (omega arith), λ e. cc), λ s e. cc, λ e. (refl, refl))
wechat_login_lem j not_connected = ((λ e. refl, λ e. refl), λ s e. cc, λ e. cc)
wechat_login_lem j (logged_in t) = (
  (λ e. absurd (omega arith), λ e. cc),
  λ s e. let q : t ≡ s = cc in (refl, ap (λ (x : Session). j.encode (record x { cursor = [] })) q),
  λ e. cc,
)
