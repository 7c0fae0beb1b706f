-- ===== src/Web/Site.antt =====
-- internal/web/web.go: Handler, the table of routes behind the guard against other origins, and the
-- state that the handlers share. What a page shows is in the modules beside; here it is its status.
-- The matching of a request to a pattern is that of net/http, an argument.
pub mod Guarded
use espur.Base.{
  ℕ, ◌≡◌, Bool, true, false, not, ◌&&◌, ◌||◌, List, [], ◌∷◌, ◌++◌, Option, none, some, Bytes, codes,
  same, is_empty, has_prefix, lookup, insert, bytes_eq, is_some, if◌then◌else◌,
}
use espur.Store.{Db}
use espur.Connman.{Manager}
use espur.Connman.Calls.{ConnInfo}
use espur.Connman.Secrets.{World}
use espur.Memory.Seed.{Dir, Faults}
use espur.Web.{Request, Reply, csrf_guard, trusted_origins}
use espur.Web.Connections
use espur.Web.Connections.{
  Reaction, conn_add_discord, conn_add_wechat, conn_enable, conn_disable, conn_delete, conn_qr,
}
use espur.Web.Health.{Snapshot, healthz}
use espur.Web.Threads.{thread_dir, thread_wipe_memory, thread_instructions, thread_delete}
use espur.Web.Vendors.{
  Weather, vendor_add, vendor_set_key, vendor_toggle, vendor_delete, vendor_clear_penalty,
  vendors_reorder, vendors_reorder_all,
}

-- The handlers, with the values of the pattern's wildcards.
pub data Route : Type 0 where
  static : Bytes → Route
  healthz_route home vendors_list oauth threads settings health : Route
  thread_detail : Bytes → Bytes → Route
  qr_png : Bytes → Route
  add_vendor reorder reorder_all : Route
  set_key toggle delete_vendor clear_penalty : Bytes → Route
  wipe_memory instructions delete_thread : Bytes → Bytes → Route
  connect_discord connect_wechat : Route
  enable disable delete_connection : Bytes → Route

-- The method of the pattern under which Handler registers a route.
abbrev pub get : Bytes
get = codes "GET"

abbrev pub post : Bytes
post = codes "POST"

unfoldable pub method_of : Route → Bytes
method_of (static file) = get
method_of healthz_route = get
method_of home = get
method_of vendors_list = get
method_of oauth = get
method_of threads = get
method_of settings = get
method_of health = get
method_of (thread_detail platform enc) = get
method_of (qr_png id) = get
method_of add_vendor = post
method_of reorder = post
method_of reorder_all = post
method_of (set_key id) = post
method_of (toggle id) = post
method_of (delete_vendor id) = post
method_of (clear_penalty id) = post
method_of (wipe_memory platform enc) = post
method_of (instructions platform enc) = post
method_of (delete_thread platform enc) = post
method_of connect_discord = post
method_of connect_wechat = post
method_of (enable id) = post
method_of (disable id) = post
method_of (delete_connection id) = post

-- The database is one: the manager's copy of it is the site's.
pub record Site : Type 0 where
  pub db : Db
  pub manager : Option Manager
  pub workdirs : List (Bytes × Dir)

-- The form of a request: its fields, and r.Form["ids"]; a missing field is empty.
pub record Form : Type 0 where
  pub parses : Bool
  pub value : Bytes → Bytes
  pub ids : List Bytes

-- What the handlers meet that is not the site's own.
pub record Surroundings : Type 0 where
  pub weather : Weather
  pub world : World
  pub faults : Faults
  pub atomic_write_fails : Bool
  pub remove_all_fails : Bool
  pub base_dir : Bytes
  pub clean : Bytes → Bytes
  pub encode_qr : Bytes → Option Bytes
  pub file_status : Bytes → ℕ
  pub auth_reads : Bool
  pub list_fails : Bool
  pub adapters : Snapshot

abbrev pub Served : Type 0
Served = Reply × Site

abbrev pub page : ℕ → Site → Served
page n s = (Reply.status n, s)

-- ParseForm first, where a handler calls it.
abbrev pub with_form : Form → Site → Served → Served
with_form f s a = if f.parses then a else page 400 s

abbrev pub on_db : Site → Reply × Db → Served
on_db s (r, db) = (r, record s { db = db })

abbrev pub linked : Site → Option Manager
linked s = elim s.manager [ none ↦ none | some m ↦ some (record m { db = s.db }) ]

abbrev pub on_manager : Site → Reaction → Served
on_manager s (r, none) = (r, s)
on_manager s (r, some m) = (r, record s { db = m.db; manager = some m })

-- A directory that is not there after a handler was not there before it. The file system resolves a
-- path as filepath.Clean does, so the directories stand under paths that are clean; symbolic links
-- are left out.
abbrev pub put_dir : Bytes → Option Dir → List (Bytes × Dir) → List (Bytes × Dir)
put_dir path none ds = ds
put_dir path (some d) ds = insert path d ds

-- A handler of a thread, on the directory that threadDir accepts.
abbrev pub ThreadHandler : Type 0
ThreadHandler = Option Bytes → Option Dir → Reply × Option Dir

abbrev pub on_dir : (Bytes → Bytes) → Option Bytes → ThreadHandler → Site → Served
on_dir resolve none h s = ((h none none).0, s)
on_dir resolve (some path) h s =
    let r = h (some path) (lookup (resolve path) s.workdirs) in
    (r.0, record s { workdirs = put_dir (resolve path) r.1 s.workdirs })

abbrev pub on_thread : Surroundings → Bytes → Bytes → ThreadHandler → Site → Served
on_thread u platform enc h s = on_dir u.clean (thread_dir u.clean u.base_dir platform enc) h s

-- threadInstructions parses the form once the directory is accepted.
abbrev pub instruct : Surroundings → Form → ThreadHandler
instruct u f path dir =
    if is_some path && not f.parses
    then (Reply.status 400, dir)
    else thread_instructions u.faults u.atomic_write_fails path (f.value (codes "body")) dir

-- os.RemoveAll: the directory and all that is below it.
unfoldable pub remove_all : Bytes → List (Bytes × Dir) → List (Bytes × Dir)
remove_all path [] = []
remove_all path ((k, d) ∷ ds) =
    let rest = remove_all path ds in
    if same k path || has_prefix k (path ++ codes "/") then rest else (k, d) ∷ rest

abbrev pub delete_in :
    (Bytes → Bytes)
    → Bool
    → Option Bytes
    → (List (Bytes × Dir) → Reply)
    → List (Bytes × Dir)
    → Reply × List (Bytes × Dir)
delete_in resolve fails none reply ds = (reply ds, ds)
delete_in resolve fails (some path) reply ds =
    (reply ds, if fails then ds else remove_all (resolve path) ds)

-- settings: a connection that starts or shows a code makes the page refresh.
abbrev pub is_pending : ConnInfo → Bool
is_pending c = same c.state (codes "starting") || same c.state (codes "qr")

unfoldable pub any_pending : List ConnInfo → Bool
any_pending [] = false
any_pending (c ∷ cs) = is_pending c || any_pending cs

abbrev pub settings_status : Surroundings → Option Manager → ℕ
settings_status u none = 200
settings_status u (some m) = if u.list_fails then 500 else 200

abbrev pub thread_status : Option Bytes → ℕ
thread_status none = 400
thread_status (some path) = 200

abbrev pub status_of : Reply × Bytes → Reply
status_of (r, body) = r

unfoldable pub routed : Surroundings → Form → Route → Site → Served
routed u f (static file) s = page (u.file_status file) s
routed u f healthz_route s = page (healthz u.adapters).0 s
routed u f home s = page 200 s
routed u f vendors_list s = page 200 s
routed u f oauth s = page (if u.auth_reads then 200 else 500) s
routed u f threads s = page 200 s
routed u f settings s = page (settings_status u s.manager) s
routed u f health s = page 200 s
routed u f (thread_detail platform enc) s =
    page (thread_status (thread_dir u.clean u.base_dir platform enc)) s
routed u f (qr_png id) s = (status_of (conn_qr u.encode_qr id (linked s)), s)
routed u f add_vendor s = with_form f s (
    on_db s (
      vendor_add u.weather (f.value (codes "vendor_id")) (f.value (codes "model"))
        (f.value (codes "cred_kind")) s.db))
routed u f (set_key id) s =
    with_form f s (
      on_db s
        (vendor_set_key u.weather id (f.value (codes "key")) (f.value (codes "env_key")) s.db))
routed u f (toggle id) s = on_db s (vendor_toggle u.weather id s.db)
routed u f (delete_vendor id) s = on_db s (vendor_delete u.weather id s.db)
routed u f (clear_penalty id) s = on_db s (vendor_clear_penalty u.weather id s.db)
routed u f reorder s =
    with_form f s (
      on_db s
        (vendors_reorder u.weather (f.value (codes "vendor_id")) (f.value (codes "dir")) s.db))
routed u f reorder_all s = with_form f s (on_db s (vendors_reorder_all u.weather f.ids s.db))
routed u f (wipe_memory platform enc) s = on_thread u platform enc thread_wipe_memory s
routed u f (instructions platform enc) s = on_thread u platform enc (instruct u f) s
routed u f (delete_thread platform enc) s =
    let path = thread_dir u.clean u.base_dir platform enc in
    let d =
      delete_in u.clean u.remove_all_fails path
        (λ ds. (thread_delete u.remove_all_fails path none).0) s.workdirs in
    (d.0, record s { workdirs = d.1 })
routed u f connect_discord s =
    on_manager s (conn_add_discord u.world (f.value (codes "token")) (linked s))
routed u f connect_wechat s = on_manager s (conn_add_wechat u.world (linked s))
routed u f (enable id) s = on_manager s (conn_enable u.world id (linked s))
routed u f (disable id) s = on_manager s (conn_disable u.world id (linked s))
routed u f (delete_connection id) s = on_manager s (conn_delete u.world id (linked s))

-- Handler: `match` gives the route of a method and a path; without one the answer is 404 or 405.
abbrev pub muxed : Option Route → Surroundings → Form → ℕ → Site → Served
muxed none u f missing s = page missing s
muxed (some r) u f missing s = routed u f r s

unfoldable pub handler :
    (Bytes → Bytes → Option Route)
    → (Bytes → Option Bytes)
    → Bytes
    → Surroundings
    → ℕ
    → Request
    → Bytes
    → Form
    → Site
    → Served
handler match host_of setting u missing r path f s =
    csrf_guard host_of (trusted_origins setting) r (muxed (match r.method path) u f missing) s
