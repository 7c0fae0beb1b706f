-- ===== src/Transcript.antt =====
-- internal/transcript/transcript.go: the log of a thread, a file of one JSON record for each line.
-- A file is its path and its bytes. The JSON codec, the path join, the base64 and SHA-256 encoders
-- and the wall clock's text are the record `Codec`; whether a call of the file system fails is an
-- argument, and a failed write leaves the file as it was.
pub mod Log
mod Examples
use espur.Base.{
  ℕ, ◌+◌, ◌-◌, Bool, true, false, List, [], ◌∷◌, ◌++◌, Option, none, some, Bytes, codes, is_empty,
  length, take, drop, select, leb, ltb, ◌==◌, if◌then◌else◌, lookup, insert, bytes_eq,
}

-- Any text may stand in a file.
pub data Kind : Type 0 where
  user bot system : Kind
  other : Bytes → Kind

pub record Author : Type 0 where
  pub id : Bytes
  pub label : Bytes

pub record Meta : Type 0 where
  pub mention : Bool
  pub coalesced_into : Bytes
  pub reply_outcome : Bytes
  pub request_id : Bytes
  pub vendor_id : Bytes
  pub note : Bytes

pub record Record : Type 0 where
  pub ts : Bytes
  pub kind : Kind
  pub platform_message_id : Bytes
  pub author : Author
  pub body : Bytes
  pub meta : Meta

pub record Codec : Type 0 where
  pub marshal : Record → Option Bytes
  pub unmarshal : Bytes → Option Record
  pub join_path : List Bytes → Bytes
  pub base64 : Bytes → Bytes
  pub sha256_hex : Bytes → Bytes
  pub now_text : Bytes

abbrev pub Files : Type 0
Files = List (Bytes × Bytes)

unfoldable pub encode_thread_id : Codec → Bytes → Bytes
encode_thread_id codec raw =
    let enc = codec.base64 raw in
    if leb (length enc) 64 then enc else take (64 - 9) enc ++ b'-' ∷ take 8 (codec.sha256_hex raw)

unfoldable pub thread_dir : Codec → Bytes → Bytes → Bytes → Bytes
unfolding encode_thread_id
thread_dir codec base_dir platform thread_id =
    codec.join_path (base_dir ∷ codes "threads" ∷ platform ∷ encode_thread_id codec thread_id ∷ [])

abbrev pub log_path : Codec → Bytes → Bytes → Bytes → Bytes
log_path codec base_dir platform thread_id =
    codec.join_path (thread_dir codec base_dir platform thread_id ∷ codes "transcript.jsonl" ∷ [])

abbrev pub stamped : Codec → Record → Record
stamped codec r = if is_empty r.ts then record r { ts = codec.now_text } else r

abbrev pub contents : Bytes → Files → Bytes
contents path files = elim (lookup path files) [ none ↦ [] | some s ↦ s ]

-- Whether the call succeeded, and the files after it.
unfoldable pub append : Codec → Bool → Bytes → Bytes → Bytes → Record → Files → Bool × Files
append codec fails base_dir platform thread_id r files =
    let path = log_path codec base_dir platform thread_id in
    if fails then (false, files) else elim (codec.marshal (stamped codec r)) [
      | none ↦ (false, files)
      | some line ↦ (true, insert path (contents path files ++ (line ++ 0x0a ∷ [])) files)
    ]

-- bufio.Reader.ReadBytes('\n') up to the end of the file: each line with its newline.
push_byte : ℕ → List Bytes → List Bytes
push_byte c [] = (c ∷ []) ∷ []
push_byte c (l ∷ ls) = (c ∷ l) ∷ ls

unfoldable pub read_lines : Bytes → List Bytes
unfolding push_byte
read_lines [] = []
read_lines (c ∷ s) =
    let rest = read_lines s in if c == 0x0a then (c ∷ []) ∷ rest else push_byte c rest

-- A line that is not a record is skipped.
unfoldable pub records : Codec → (Record → Bool) → List Bytes → List Record
records codec keep [] = []
records codec keep (l ∷ ls) =
    let rest = records codec keep ls in
    elim (codec.unmarshal l) [ none ↦ rest | some r ↦ if keep r then r ∷ rest else rest ]

unfoldable pub last_n : ℕ → List Record → List Record
last_n n all = if ltb n (length all) then drop (length all - n) all else all

-- `none` is an error of the file system other than a missing file.
unfoldable pub tail :
    Codec → Bool → Bytes → Bytes → Bytes → ℕ → (Record → Bool) → Files → Option (List Record)
unfolding read_lines records last_n
tail codec fails base_dir platform thread_id n keep files =
    if n == 0 then some [] else elim (lookup (log_path codec base_dir platform thread_id) files) [
      | none ↦ some []
      | some s ↦ if fails then none else some (last_n n (records codec keep (read_lines s)))
    ]

abbrev pub is_user : Kind → Bool
is_user user = true
is_user _ = false

unfoldable pub tail_user_messages :
    Codec → Bool → Bytes → Bytes → Bytes → ℕ → Files → Option (List Record)
tail_user_messages codec fails base_dir platform thread_id n files =
    tail codec fails base_dir platform thread_id n (λ r. is_user r.kind) files

unfoldable pub tail_all : Codec → Bool → Bytes → Bytes → Bytes → ℕ → Files → Option (List Record)
tail_all codec fails base_dir platform thread_id n files =
    tail codec fails base_dir platform thread_id n (λ r. true) files

unfoldable pub format : Record → Bytes
format r =
    let label = if is_empty r.author.label then r.author.id else r.author.label in
    let named = if is_empty label then codes "user" else label in named ++ (codes ": " ++ r.body)
