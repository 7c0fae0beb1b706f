-- ===== src/Web/Pages.antt =====
-- internal/web/web.go: the rows of the vendor page, the page of one thread without the texts of sizes
-- and times, and the adapters of the home page. The render of the templates, which only lay them out, is not modelled.
use espur.Base.{
  lookup, bytes_eq, ℕ, suc, ◌+◌, ◌-◌, ◌/◌, ◌%◌, ◌≡◌, ◌↔◌, refl, Bool, true, false, not, ◌&&◌, ◌||◌,
  List, [], ◌∷◌, ◌++◌, map, Option, none, some, Bytes, codes, same, is_empty, length, has_suffix,
  ltb, ◌==◌, if◌then◌else◌, arith,
}
use espur.Store.{
  Vendor, Penalty, PenaltyStatus, eligible, cooldown, auth_locked, other, Credential, Db,
  vendor_scope, unix, second,
}
use espur.Store.Credentials.{get_credential}
use espur.Vendor.Penalty.{is_eligible, minute}
use espur.ContextAsm.{default_tail_n}
use espur.Memory.{extract_user_instructions}
use espur.Memory.Seed.{agents_name}
use espur.Opencode.Accumulator.{itoa}
use espur.Opencode.Auth.{AuthEntry}
use espur.Providers.{Provider, lookup_model}
use espur.Transcript.{Record, Kind, Author}
use espur.Web.Formats.{provider_short, escape_for_data}
use espur.Web.Rotation.{Reading, Standing, listed, penalty_read, standing, standing_by}
use espur.Web.Health.{Snapshot}
use espur.Web.Workdirs.{
  unreadable, Entries, file, dir, end, entry, read_file, tail_jsonl, value_of, threads_by_platform,
}

-- The providers of auth.json that have a key; without the file there are none.
unfoldable pub is_authed : Bytes → List AuthEntry → Bool
is_authed id [] = false
is_authed id (e ∷ es) = e.has_key && same e.provider id || is_authed id es

-- The name, the short name and the id of the provider of a model, and its variable.
pub record Shown : Type 0 where
  pub name : Bytes
  pub short : Bytes
  pub id : Bytes
  pub env_key : Bytes

-- strings.IndexByte(model, '/'), as the text before the first slash.
unfoldable pub before_slash : Bytes → Option Bytes
before_slash [] = none
before_slash (c ∷ s) =
    let rest = before_slash s in
    if c == b'/' then some [] else elim rest [ none ↦ none | some p ↦ some (c ∷ p) ]

abbrev pub named_by : (Bytes → Bytes) → Option Bytes → Shown
named_by upper none = record { name = []; short = []; id = []; env_key = [] }
named_by upper (some p) =
    if is_empty p
    then record { name = []; short = []; id = []; env_key = [] }
    else record { name = p; short = provider_short upper p; id = p; env_key = [] }

abbrev pub shown_as : (Bytes → Bytes) → Option (Provider × Bytes) → Bytes → Shown
shown_as upper none model = named_by upper (before_slash model)
shown_as upper (some (p, m)) model = record {
  name = p.name;
  short = provider_short upper p.name;
  id = p.id;
  env_key = p.env_key;
}

abbrev pub first_key : List Bytes → Bytes
first_key [] = []
first_key (k ∷ ks) = k

-- The status and the variable of the stored credential.
abbrev pub credential_shown : Option Credential → Bytes × Bytes
credential_shown none = (codes "missing", [])
credential_shown (some c) = (c.status, first_key c.env_keys)

pub record VendorRow : Type 0 where
  pub vendor : Vendor
  pub cred_status : Bytes
  pub env_key : Bytes
  pub provider_name : Bytes
  pub provider_short : Bytes
  pub penalty_kind : Bytes
  pub cooldown_until_unix : ℕ
  pub cooldown_remaining : Bytes

abbrev pub kind_name : Standing → Bytes
kind_name Standing.locked = codes "auth_locked"
kind_name Standing.cooling = codes "cooldown"
kind_name Standing.free = codes "eligible"

-- "%d:%02d" of the minutes and seconds that are left when the clock is read again, which is before
-- the deadline.
abbrev pub remaining : ℕ → ℕ → Bytes
remaining until later =
    let left = until - later in
    let s = left / second % 60 in
    itoa (left / minute) ++ (codes ":" ++ (if ltb s 10 then codes "0" ++ itoa s else itoa s))

-- The deadline that a row shows, in seconds, and the time that is left.
abbrev pub countdown : Standing → Option ℕ → ℕ → ℕ × Bytes
countdown Standing.cooling (some until) later = (unix until, remaining until later)
countdown _ until later = (0, [])

-- The vendor's turn in the loop; the row's second read of the clock is at `suc i`.
unfoldable pub vendor_row :
    (Bytes → Bytes) → List AuthEntry → Reading → ℕ → ℕ → Vendor → Db → VendorRow
unfolding standing itoa
vendor_row upper auth r now i v db =
    let cred = if r.credential_fails i then none else get_credential vendor_scope v.vendor_id db in
    let seen = credential_shown cred in
    let prov = shown_as upper (lookup_model v.model) v.model in
    let pen = penalty_read r i v db in
    let s = standing pen now in
    let left = countdown s pen.cooldown_until (r.now (suc i)) in
    record {
      vendor = v;
      cred_status =
          if same v.cred_kind (codes "oauth")
          then (if is_authed prov.id auth then codes "linked" else codes "pending")
          else seen.0;
      env_key = if is_empty seen.1 then prov.env_key else seen.1;
      provider_name = prov.name;
      provider_short = prov.short;
      penalty_kind = kind_name s;
      cooldown_until_unix = left.0;
      cooldown_remaining = left.1;
    }

abbrev pub vendor_rows :
    (Bytes → Bytes) → List AuthEntry → Reading → ℕ → ℕ → List Vendor → Db → List VendorRow
vendor_rows upper auth r now i [] db = []
vendor_rows upper auth r now i (v ∷ vs) db =
    vendor_row upper auth r now i v db ∷ vendor_rows upper auth r now (i + 2) vs db

-- vendorsList
unfoldable pub vendors_page : (Bytes → Bytes) → List AuthEntry → Reading → ℕ → Db → List VendorRow
unfolding vendor_row
vendors_page upper auth r now db = vendor_rows upper auth r now 0 (listed r db) db

abbrev pub IsKnown : PenaltyStatus → Type 0
IsKnown (other s) = ⊥
IsKnown _ = Unit

-- A row says that a vendor is eligible exactly if the pool would take it at that instant.
pub penalty_kind-vendor_row :
    (upper : Bytes → Bytes) (auth : List AuthEntry) (r : Reading) (now i : ℕ) (v : Vendor) (db : Db)
    → IsKnown (penalty_read r i v db).status
    → ((vendor_row upper auth r now i v db).penalty_kind ≡ codes "eligible")
      ↔ (is_eligible (penalty_read r i v db) now ≡ true)
unfolding vendor_row standing is_eligible same
penalty_kind-vendor_row upper auth r now i v db known =
    by_status (penalty_read r i v db).status (penalty_read r i v db).cooldown_until known
  where
    pen : Penalty
    pen = penalty_read r i v db

    by_status :
        (s : PenaltyStatus) (until : Option ℕ)
        → IsKnown s
        → (kind_name (standing_by s until now) ≡ codes "eligible")
          ↔ (is_eligible (record pen { status = s; cooldown_until = until }) now ≡ true)
    by_status eligible until k = (λ _. refl, λ _. refl)
    by_status auth_locked until k = (λ e. cc, λ e. cc)
    by_status cooldown none k = (λ _. refl, λ _. refl)
    by_status cooldown (some u) k = ground arith
    by_status (other s) until k = absurd k

pub record FactRow : Type 0 where
  pub name : Bytes
  pub escaped_name : Bytes
  pub size : ℕ
  pub body : Bytes

pub record WorkdirFile : Type 0 where
  pub name : Bytes
  pub is_dir : Bool

pub record TailItem : Type 0 where
  pub kind : Kind
  pub ts : Bytes
  pub author : Author
  pub body : Bytes

pub record ThreadDetail : Type 0 where
  pub platform : Bytes
  pub enc_id : Bytes
  pub turns : ℕ
  pub instructions : Bytes
  pub facts : List FactRow
  pub tail : List TailItem
  pub workdir_files : List WorkdirFile

-- The files with the name ".md" at the end, but for AGENTS.md. `points` are the code points of a
-- name.
unfoldable pub facts_in : (Bytes → List ℕ) → Entries → List FactRow
unfolding escape_for_data
facts_in points end = []
facts_in points (entry name (unreadable t) es) = facts_in points es
facts_in points (entry name (dir t inner) es) = facts_in points es
facts_in points (entry name (file text t) es) =
    let rest = facts_in points es in
    if has_suffix name (codes ".md") && not (same name agents_name)
    then record {
      name = name;
      escaped_name = escape_for_data (points name);
      size = length text;
      body = text;
    }
      ∷ rest
    else rest

unfoldable pub files_in : Entries → List WorkdirFile
files_in end = []
files_in (entry name (unreadable t) es) = record { name = name; is_dir = true } ∷ files_in es
files_in (entry name (dir t inner) es) = record { name = name; is_dir = true } ∷ files_in es
files_in (entry name (file text t) es) = record { name = name; is_dir = false } ∷ files_in es

abbrev pub tail_item : Record → TailItem
tail_item r = record { kind = r.kind; ts = r.ts; author = r.author; body = r.body }

abbrev pub bytes_of : Option Bytes → Bytes
bytes_of none = []
bytes_of (some text) = text

-- threadDetail, of a directory that threadDir accepts.
unfoldable pub thread_detail :
    (Bytes → Option Record) → (Bytes → List ℕ) → Bytes → Bytes → Entries → ThreadDetail
unfolding facts_in files_in extract_user_instructions tail_jsonl
thread_detail decode points platform enc_id es =
    let raw_tail = tail_jsonl decode (read_file (codes "transcript.jsonl") es) default_tail_n in
    record {
      platform = platform;
      enc_id = enc_id;
      turns = length (map tail_item raw_tail);
      instructions = extract_user_instructions (bytes_of (read_file agents_name es));
      facts = facts_in points es;
      tail = map tail_item raw_tail;
      workdir_files = files_in es;
    }

pub record HomeAdapter : Type 0 where
  pub platform : Bytes
  pub up : Bool
  pub threads : ℕ

abbrev pub with_threads : List (Bytes × ℕ) → Bytes × Bool → HomeAdapter
with_threads counts (platform, healthy) = record {
  platform = platform;
  up = healthy;
  threads = value_of (lookup platform counts);
}

abbrev pub unwired : Bytes × ℕ → HomeAdapter
unwired (platform, n) = record { platform = platform; up = false; threads = n }

-- The adapters of the home page; without any, the platforms that have threads, in any order.
unfoldable pub home_adapters : Snapshot → Entries → List HomeAdapter
unfolding threads_by_platform
home_adapters [] root = map unwired (threads_by_platform root)
home_adapters (a ∷ adapters) root = map (with_threads (threads_by_platform root)) (a ∷ adapters)
