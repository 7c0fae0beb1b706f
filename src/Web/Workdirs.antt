-- ===== src/Web/Workdirs.antt =====
-- internal/web/web.go: what the pages read below the directory of the threads. A directory is the
-- list of its entries in the order in which os.ReadDir gives them; a directory that cannot be read is
-- an entry of its own, for which os.ReadDir gives none and filepath.Walk an error. The sort of Go's library is an argument.
pub mod Counted
pub mod Recent
use espur.Base.{
  ℕ, zero, suc, ◌+◌, ◌-◌, Bool, true, false, not, ◌&&◌, List, [], ◌∷◌, ◌++◌, map, Option, none,
  some, Bytes, codes, same, is_empty, length, take, split_at, has_suffix, ltb, ◌==◌, if◌then◌else◌,
  lookup, insert, bytes_eq,
}
use espur.Transcript.{Record, Kind, Author, last_n}

-- A file has its bytes, a directory its entries, and each the time of its last change.
mutual
  pub data Entry : Type 0 where
    file : Bytes → ℕ → Entry
    dir : ℕ → Entries → Entry
    unreadable : ℕ → Entry

  pub data Entries : Type 0 where
    end : Entries
    entry : Bytes → Entry → Entries → Entries

-- The number of separators in the path from the root to an entry of this depth: the root's is ".".
abbrev pub separators : ℕ → ℕ
separators depth = depth - 1

-- countThreads: filepath.Walk below an entry of the given depth.
unfoldable mutual
  pub walk_count : ℕ → Entry → ℕ
  walk_count depth (file text t) = 0
  walk_count depth (unreadable t) = 0
  walk_count depth (dir t es) =
      (if separators depth == 1 then 1 else 0) + walk_counts (suc depth) es

  pub walk_counts : ℕ → Entries → ℕ
  walk_counts depth end = 0
  walk_counts depth (entry name e es) = walk_count depth e + walk_counts depth es

unfoldable pub count_threads : ℕ → Entries → ℕ
unfolding walk_count
count_threads t root = walk_count 0 (dir t root)

-- The names and entries of the directories among the entries.
abbrev pub dirs : Entries → List (Bytes × Entries)
dirs end = []
dirs (entry name (file text t) es) = dirs es
dirs (entry name (unreadable t) es) = (name, end) ∷ dirs es
dirs (entry name (dir t inner) es) = (name, inner) ∷ dirs es

-- out[name]++
abbrev pub value_of : Option ℕ → ℕ
value_of none = 0
value_of (some n) = n

abbrev pub bump : Bytes → List (Bytes × ℕ) → List (Bytes × ℕ)
bump name out = insert name (value_of (lookup name out) + 1) out

abbrev pub bump_each : Bytes → List (Bytes × Entries) → List (Bytes × ℕ) → List (Bytes × ℕ)
bump_each name [] out = out
bump_each name (d ∷ ds) out = bump_each name ds (bump name out)

abbrev pub by_platform : List (Bytes × Entries) → List (Bytes × ℕ) → List (Bytes × ℕ)
by_platform [] out = out
by_platform ((name, inner) ∷ ps) out = by_platform ps (bump_each name (dirs inner) out)

unfoldable pub threads_by_platform : Entries → List (Bytes × ℕ)
threads_by_platform root = by_platform (dirs root) []

-- Time.After, where none is the zero time.
abbrev pub is_after : Option ℕ → Option ℕ → Bool
is_after none t = false
is_after (some s) none = true
is_after (some s) (some t) = ltb t s

-- dirSize: the bytes of all files below, and the time of the newest.
unfoldable mutual
  pub size_of : Entry → ℕ × Option ℕ → ℕ × Option ℕ
  size_of (file text t) (size, last) =
      (size + length text, if is_after (some t) last then some t else last)
  size_of (unreadable t) acc = acc
  size_of (dir t es) acc = sizes_of es acc

  pub sizes_of : Entries → ℕ × Option ℕ → ℕ × Option ℕ
  sizes_of end acc = acc
  sizes_of (entry name e es) acc = sizes_of es (size_of e acc)

unfoldable pub dir_size : Entries → ℕ × Option ℕ
unfolding size_of
dir_size es = sizes_of es (0, none)

-- A row of the list, without the texts of its size and time.
pub record ThreadRow : Type 0 where
  pub platform : Bytes
  pub enc_id : Bytes
  pub size_bytes : ℕ
  pub last_activity : Option ℕ

abbrev pub rows_in : Bytes → List (Bytes × Entries) → List ThreadRow
rows_in platform [] = []
rows_in platform ((name, inner) ∷ ds) =
    record {
      platform = platform;
      enc_id = name;
      size_bytes = (dir_size inner).0;
      last_activity = (dir_size inner).1;
    }
    ∷ rows_in platform ds

abbrev pub all_rows : List (Bytes × Entries) → List ThreadRow
all_rows [] = []
all_rows ((name, inner) ∷ ps) = rows_in name (dirs inner) ++ all_rows ps

abbrev pub newer_row : ThreadRow → ThreadRow → Bool
newer_row a b = is_after a.last_activity b.last_activity

unfoldable pub list_threads : (List ThreadRow → List ThreadRow) → Entries → List ThreadRow
unfolding dir_size
list_threads sort root = sort (all_rows (dirs root))

-- The bytes of the file of a name, if the directory has one.
abbrev pub read_file : Bytes → Entries → Option Bytes
read_file name end = none
read_file name (entry n (file text t) es) =
    let rest = read_file name es in if same n name then some text else rest
read_file name (entry n (unreadable t) es) = read_file name es
read_file name (entry n (dir t inner) es) = read_file name es

-- tailJSONL; a line that does not parse is passed over.
abbrev pub parsed : (Bytes → Option Record) → List Bytes → List Record
parsed decode [] = []
parsed decode (l ∷ ls) =
    let rest = parsed decode ls in
    if is_empty l then rest else elim (decode l) [ none ↦ rest | some r ↦ r ∷ rest ]

unfoldable pub tail_jsonl : (Bytes → Option Record) → Option Bytes → ℕ → List Record
unfolding last_n
tail_jsonl decode none n = []
tail_jsonl decode (some text) n = last_n n (parsed decode (split_at 0x0a text))

-- A line of the feed, without its label, which is the id again, and its age.
pub record FeedItem : Type 0 where
  pub platform : Bytes
  pub enc_id : Bytes
  pub vendor : Bytes
  pub outcome : Bytes

abbrev pub Dated : Type 0
Dated = FeedItem × ℕ

abbrev pub is_bot : Kind → Bool
is_bot Kind.bot = true
is_bot _ = false

abbrev pub dated : Bytes → Bytes → Record → ℕ → Dated
dated platform enc_id r ts = (
  record {
    platform = platform;
    enc_id = enc_id;
    vendor = r.meta.vendor_id;
    outcome = r.meta.reply_outcome;
  },
  ts,
)

-- `time` is time.Parse of a record's stamp.
abbrev pub bot_entries : (Bytes → Option ℕ) → Bytes → Bytes → List Record → List Dated
bot_entries time platform enc_id [] = []
bot_entries time platform enc_id (r ∷ rs) =
    let rest = bot_entries time platform enc_id rs in
    if is_bot r.kind
    then elim (time r.ts) [ none ↦ rest | some t ↦ dated platform enc_id r t ∷ rest ]
    else rest

module _ (decode : Bytes → Option Record) (time : Bytes → Option ℕ) where
  abbrev pub thread_entries : Bytes → List (Bytes × Entries) → List Dated
  thread_entries platform [] = []
  thread_entries platform ((name, inner) ∷ ds) =
      bot_entries time platform name
        (tail_jsonl decode (read_file (codes "transcript.jsonl") inner) 50)
      ++ thread_entries platform ds

  abbrev pub feed_entries : List (Bytes × Entries) → List Dated
  feed_entries [] = []
  feed_entries ((name, inner) ∷ ps) = thread_entries name (dirs inner) ++ feed_entries ps

  abbrev pub newer : Dated → Dated → Bool
  newer a b = ltb b.1 a.1

  abbrev pub cut : ℕ → List Dated → List Dated
  cut n entries = if ltb n (length entries) then take n entries else entries

  -- recentFeed, with the times.
  unfoldable pub recent : (List Dated → List Dated) → Entries → ℕ → List Dated
  unfolding tail_jsonl
  recent sort root n = cut n (sort (feed_entries (dirs root)))

  unfoldable pub recent_feed : (List Dated → List Dated) → Entries → ℕ → List FeedItem
  unfolding recent
  recent_feed sort root n = map (λ (d : Dated). d.0) (recent sort root n)
