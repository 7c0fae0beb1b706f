-- ===== src/Connman/Plan.antt =====
-- What the web UI's calls of the connection manager promise, said without adapters and goroutines:
-- which connections are on and which are in the map of running ones. The operations, one after another, implement it.
use espur.Base.{
  ◌≡◌, refl, ◌∙◌, sym, ap, subst, inl, inr, Bool, true, false, not, ◌&&◌, ◌||◌, List, [], ◌∷◌,
  Option, none, some, Bytes, same, same_iff, if◌then◌else◌, if_false, map_some, All, is_some,
  lookup, lookup-delete, lookup-update, bytes_eq, arith, Option-cases,
}
use espur.Store.{Connection, Db}
use espur.Store.Connections.{
  get_connection, set_connection_enabled, delete_connection, with_enabled, connection_of,
}
use espur.Connman.{Manager}
use espur.Connman.Secrets.{World}
use espur.Connman.Calls.{Answer, start, stop, enable, enabled_found, disable, remove, and_then}
use espur.Connman.Settled.{is_entered, IsSettled, Starts, Stops, start-Starts, stop-Stops}

pub data Request : Type 0 where
  enables disables removes : Bytes → Request

unfoldable pub serve : World → Request → Manager → Answer
serve w (enables id) m = enable w id m
serve w (disables id) m = disable w id m
serve w (removes id) m = remove w id m

-- `on id` is none where there is no such connection, else whether it is enabled.
pub record Plan : Type 0 where
  pub on : Bytes → Option Bool
  pub live : Bytes → Bool

-- `ok` says that the adapter starts, where one has to be started.
unfoldable pub promise : Bool → Request → Plan → Plan
promise ok (enables id) p = record {
  on = λ i. if same id i then map_some (λ _. true) (p.on i) else p.on i;
  live = λ i. same id i && ok && is_some (p.on i) || p.live i;
}
promise ok (disables id) p = record {
  on = λ i. if same id i then map_some (λ _. false) (p.on i) else p.on i;
  live = λ i. not (same id i) && p.live i;
}
promise ok (removes id) p = record {
  on = λ i. if same id i then none else p.on i;
  live = λ i. not (same id i) && p.live i;
}

abbrev pub is_on : Bytes → Db → Option Bool
is_on id db = map_some (λ (c : Connection). c.enabled) (get_connection id db)

abbrev pub view : Manager → Plan
view m = record { on = λ id. is_on id m.db; live = λ id. is_entered id m }

-- Two plans that agree on every id.
abbrev pub Agree : Plan → Plan → Type 0
Agree p q = ((i : Bytes) → p.on i ≡ q.on i) × ((i : Bytes) → p.live i ≡ q.live i)

is_on-set :
    (w : World) (id i : Bytes) (b : Bool) (db : Db)
    → is_on i (set_connection_enabled w.now id b db)
      ≡ (if same id i then map_some (λ _. b) (is_on i db) else is_on i db)
unfolding get_connection set_connection_enabled
is_on-set w id i b db = elim (Option-cases (lookup i db.connections)) [
  | inl e ↦ ground (arith, lookup-update id i (with_enabled b w.now) db.connections)
  | inr (r, e) ↦ ground (arith, lookup-update id i (with_enabled b w.now) db.connections)
]

is_on-delete :
    (id i : Bytes) (db : Db)
    → is_on i (delete_connection id db) ≡ (if same id i then none else is_on i db)
unfolding get_connection delete_connection
is_on-delete id i db = ground (arith, lookup-delete id i db.connections)

id-get_connection :
    (id : Bytes) (db : Db) (c : Connection) → get_connection id db ≡ some c → c.id ≡ id
unfolding get_connection
id-get_connection id db c e = elim (Option-cases (lookup id db.connections)) [
  | inl f ↦ absurd (ground arith)
  | inr (r, f) ↦
      let q : connection_of id r ≡ c = ground arith in sym (ap (λ (d : Connection). d.id) q)
]

promise-Agree :
    (ok : Bool) (r : Request) (p q : Plan) → Agree p q → Agree (promise ok r p) (promise ok r q)
unfolding promise
promise-Agree ok (enables id) p q a = (
  λ i. ap (λ o. if same id i then map_some (λ _. true) o else o) (a.0 i),
  λ i. (λ j. same id i && ok && is_some (a.0 i j) || a.1 i j),
)
promise-Agree ok (disables id) p q a = (
  λ i. ap (λ o. if same id i then map_some (λ _. false) o else o) (a.0 i),
  λ i. ap (λ b. not (same id i) && b) (a.1 i),
)
promise-Agree ok (removes id) p q a = (
  λ i. ap (λ o. if same id i then none else o) (a.0 i),
  λ i. ap (λ b. not (same id i) && b) (a.1 i),
)

-- What one request leaves.
abbrev pub Serves : Request → Manager → Answer → Type 0
Serves r m a =
    IsSettled a.1 × (a.1.booted ≡ true) × Agree (view a.1) (promise (not (is_some a.0)) r (view m))

module _ (w : World) (m : Manager) (settled : IsSettled m) (booted : m.booted ≡ true)
    (reads : w.read_fails ≡ false) (writes : w.row_fails ≡ false) where
  with_db-IsSettled : (m : Manager) (db : Db) → IsSettled m → IsSettled (record m { db = db })
  with_db-IsSettled m db settled = record {
    posted = settled.posted;
    displayed = settled.displayed;
    ready = settled.ready;
  }

  disables-Serves : (id : Bytes) → Serves (disables id) m (disable w id m)
  unfolding disable promise
  disables-Serves id =
      let s : Stops id m (stop id m) = stop-Stops id m settled in
      subst (Serves (disables id) m) (sym (if_false _ _ writes)) (
        with_db-IsSettled (stop id m) _ s.0,
        s.3 ∙ booted,
        (
          λ i.
              is_on-set w id i false (stop id m).db
              ∙ ap (λ db. if same id i then map_some (λ _. false) (is_on i db) else is_on i db) s.2,
          s.1,
        ),
      )

  removes-Serves : (id : Bytes) → Serves (removes id) m (remove w id m)
  unfolding remove promise
  removes-Serves id =
      let s : Stops id m (stop id m) = stop-Stops id m settled in
      subst (Serves (removes id) m) (sym (if_false _ _ writes)) (
        with_db-IsSettled (stop id m) _ s.0,
        s.3 ∙ booted,
        (
          λ i.
              is_on-delete id i (stop id m).db
              ∙ ap (λ db. if same id i then none else is_on i db) s.2,
          s.1,
        ),
      )

  enabled-Serves :
      (id : Bytes) (o : Option Connection)
      → get_connection id m.db ≡ o
      → Serves (enables id) m (enabled_found w id o m)
  unfolding promise
  enabled-Serves id none e = (settled, booted, (λ i. absent i, λ i. ground (arith)))
    where
      absent :
          (i : Bytes)
          → is_on i m.db
            ≡ (if same id i then map_some {A = Bool} (λ _. true) (is_on i m.db) else is_on i m.db)
      absent i = ground (
        arith,
        same_iff id i,
        ap (λ j. is_on j m.db),
        ap (map_some (λ (c : Connection). c.enabled)) e,
      )
  enabled-Serves id (some c) e =
      let c' : Connection = record c { enabled = true } in
      let m' : Manager = record m { db = set_connection_enabled w.now id true m.db } in
      let s : Starts c' m' (not (is_some (start w c' m').0)) (start w c' m').1 =
        start-Starts w c' m' (with_db-IsSettled m m'.db settled) booted in
      subst (λ (a : Answer). Serves (enables id) m (and_then a (start w c')))
        (sym (if_false _ _ writes))
        (
          s.0,
          s.3,
          (
            λ i. ap (is_on i) s.2 ∙ is_on-set w id i true m.db,
            λ i. s.1 i ∙ known i (not (is_some (start w c' m').0)),
          ),
        )
    where
      known :
          (i : Bytes) (ok : Bool)
          → (same c.id i && ok || is_entered i m)
            ≡ (same id i && ok && is_some (is_on i m.db) || is_entered i m)
      known i ok = ground (
        arith,
        same_iff id i,
        ap (λ j. is_on j m.db),
        ap (map_some (λ (c : Connection). c.enabled)) e,
        id-get_connection id m.db c e,
      )

  serve-Serves : (r : Request) → Serves r m (serve w r m)
  unfolding serve enable
  serve-Serves (enables id) =
      subst (Serves (enables id) m) (sym (if_false _ _ reads))
        (enabled-Serves id (get_connection id m.db) refl)
  serve-Serves (disables id) = disables-Serves id
  serve-Serves (removes id) = removes-Serves id

-- A sequence of requests, each with what it meets; the answers say which returned no error.
unfoldable pub serve_all : List (World × Request) → Manager → List Bool × Manager
serve_all [] m = ([], m)
serve_all ((w, r) ∷ rs) m =
    let a = serve w r m in let rest = serve_all rs a.1 in (not (is_some a.0) ∷ rest.0, rest.1)

unfoldable pub promise_all : List Bool → List (World × Request) → Plan → Plan
promise_all (ok ∷ oks) ((w, r) ∷ rs) p = promise_all oks rs (promise ok r p)
promise_all oks rs p = p

abbrev pub IsUp : World × Request → Type 0
IsUp (w, r) = (w.read_fails ≡ false) × (w.row_fails ≡ false)

promise_all-Agree :
    (oks : List Bool) (rs : List (World × Request)) (p q : Plan)
    → Agree p q
    → Agree (promise_all oks rs p) (promise_all oks rs q)
unfolding promise_all
promise_all-Agree [] rs p q a = a
promise_all-Agree (ok ∷ oks) [] p q a = a
promise_all-Agree (ok ∷ oks) ((w, r) ∷ rs) p q a =
    promise_all-Agree oks rs (promise ok r p) (promise ok r q) (promise-Agree ok r p q a)

-- The manager implements the plan: from a booted and settled manager, with the database at work, any
-- sequence of enables, disables and removes leaves exactly those connections present, enabled and in
-- the manager's map of running ones that the plan says, a connection being put there if its request
-- returned no error; and what is in the map is what is registered with the bot core and with the web
-- server. An entry stays in the map, and an enable leaves it alone, also where its adapter has ended
-- by itself.
pub serve_all-promise_all :
    (rs : List (World × Request)) (m : Manager)
    → IsSettled m
    → m.booted ≡ true
    → All IsUp rs
    → let a = serve_all rs m in Agree (view a.1) (promise_all a.0 rs (view m)) × IsSettled a.1
unfolding serve_all promise_all
serve_all-promise_all [] m settled booted up = ((λ i. refl, λ i. refl), settled)
serve_all-promise_all ((w, r) ∷ rs) m settled booted up =
    let a = serve w r m in
    let s : Serves r m a = serve-Serves w m settled booted up.0.0 up.0.1 r in
    let rest = serve_all-promise_all rs a.1 s.0 s.1 up.1 in
    let oks = (serve_all rs a.1).0 in
    let q = promise_all-Agree oks rs (view a.1) (promise (not (is_some a.0)) r (view m)) s.2 in
    ((λ i. rest.0.0 i ∙ q.0 i, λ i. rest.0.1 i ∙ q.1 i), rest.1)
