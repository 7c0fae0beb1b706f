-- ===== src/Web/SiteTests.antt =====
-- A request of another site, and one whose path leaves the threads' root.
use espur.Base.{
  inl, ◌≡◌, refl, inr, true, false, [], ◌∷◌, Option, none, some, Bytes, codes, same, same_iff,
  bytes_eq, trim_space, split_at, if◌then◌else◌, arith,
}
use espur.Store.{empty_db, second}
use espur.Connman.Secrets.{World}
use espur.Web.{Request, Reply, same_origin, is_among, trusted_origins}
use espur.Web.Site.{Route, Form, Site, Surroundings, method_of, delete_thread, handler}
use espur.Web.Site.Guarded.{MatchesMethod, foreign_changes_nothing}

abbrev quiet : World
quiet = record {
  now = second;
  encrypt = λ b. some b;
  decrypt = λ b. some b;
  bot_id = λ b. none;
  random = codes "r";
  read_fails = false;
  secret_fails = false;
  row_fails = false;
  session_read_fails = false;
  new_discord_fails = λ b. false;
  new_wechat_fails = false;
  start_fails = λ c. false;
  remove_fails = false;
  write_fails = false;
}

-- filepath.Clean at the path below.
abbrev clean : Bytes → Bytes
clean s = if same s (codes "/d/threads/../../etc") then codes "/etc" else s

abbrev around : Surroundings
around = record {
  weather = record {
    now = second;
    encrypt = λ b. some b;
    read_fails = false;
    write_fails = false;
    credential_fails = false;
  };
  world = quiet;
  faults = record { make_fails = false; stat_fails = false; write_fails = false };
  atomic_write_fails = false;
  remove_all_fails = false;
  base_dir = codes "/d";
  clean = clean;
  encode_qr = λ b. none;
  file_status = λ b. 200;
  auth_reads = true;
  list_fails = false;
  adapters = [];
}

abbrev site : Site
site = record {
  db = empty_db;
  manager = none;
  workdirs = (codes "/etc", []) ∷ (codes "/d/threads/p/t", []) ∷ [];
}

abbrev no_fields : Form
no_fields = record { parses = true; value = λ k. []; ids = [] }

-- Two paths, for the deletion of a thread.
abbrev match : Bytes → Bytes → Option Route
match m p =
    if same m (codes "POST")
    then (if same p (codes "/in")
        then some (delete_thread (codes "p") (codes "t"))
        else some (delete_thread (codes "..") (codes "../etc")))
    else none

match_method : MatchesMethod match
unfolding method_of
match_method m p r e = ground (arith, same_iff m (codes "POST"))

abbrev from_site : Bytes → Request
from_site origin = record {
  method = codes "POST";
  origin = origin;
  referer = [];
  host = codes "espur";
}

abbrev ask : Bytes → Bytes → Reply × Site
ask origin path = handler match (λ s. some s) [] around 404 (from_site origin) path no_fields site

foreign_changes_nothing_example :
    ((ask (codes "evil") (codes "/in")).1 ≡ site)
    × ((ask (codes "evil") (codes "/in")).0 ≡ Reply.status 403)
unfolding same_origin is_among same trusted_origins trim_space split_at
foreign_changes_nothing_example =
    let t =
      foreign_changes_nothing match (λ s. some s) [] around 404 (from_site (codes "evil"))
        (codes "/in") no_fields site match_method in
    let a = t.1 (codes "evil") refl ((λ e. cc), inl refl) (inr ((λ e. cc), tt)) in (a.1, a.0)
