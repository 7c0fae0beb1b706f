-- ===== src/Transcript/Examples.antt =====
-- A log of one record, and the theorems at it. The codec writes the body of a record only.
use espur.Base.{
  ◌≡◌, ◌≢◌, refl, ap, false, true, [], ◌∷◌, ◌++◌, some, Bytes, codes, same, lookup, bytes_eq, arith,
  join,
}
use espur.Transcript.{
  Record, user, Codec, Files, encode_thread_id, log_path, thread_dir, contents, append, read_lines,
  records, last_n, tail, is_user,
}
use espur.Transcript.Log.{IsWhole, tail-append}

abbrev record_of : Bytes → Record
record_of body = record {
  ts = codes "t";
  kind = user;
  platform_message_id = [];
  author = record { id = []; label = [] };
  body = body;
  meta = record {
    mention = true;
    coalesced_into = [];
    reply_outcome = [];
    request_id = [];
    vendor_id = [];
    note = [];
  };
}

abbrev without_last : Bytes → Bytes
without_last [] = []
without_last (c ∷ []) = []
without_last (c ∷ d ∷ s) = c ∷ without_last (d ∷ s)

abbrev codec : Codec
codec = record {
  marshal = λ r. some r.body;
  unmarshal = λ line. some (record_of (without_last line));
  join_path = λ ps. join (b'/' ∷ []) ps;
  base64 = λ s. s;
  sha256_hex = λ s. codes "0123456789";
  now_text = codes "now";
}

abbrev d_path : Bytes
d_path = codes "b/threads/d/t/transcript.jsonl"

abbrev one_line : Files
one_line = (d_path, codes "hi\n") ∷ []

log_path_d : log_path codec (codes "b") (codes "d") (codes "t") ≡ d_path
unfolding thread_dir encode_thread_id join
log_path_d = refl

IsWhole-d : IsWhole (contents (log_path codec (codes "b") (codes "d") (codes "t")) one_line)
unfolding thread_dir encode_thread_id join lookup same
IsWhole-d = refl

log_path-ne : log_path codec (codes "b") (codes "d") (codes "t") ≢ codes "x"
unfolding thread_dir encode_thread_id join same
log_path-ne e = cc (ap (λ s. same s (codes "x")) e)

tail-append_example :
    let path = log_path codec (codes "b") (codes "d") (codes "t") in
    let files =
      (append codec false
        (codes "b")
        (codes "d")
        (codes "t")
        (record_of (codes "yo"))
        one_line).1 in
    (tail codec false (codes "b") (codes "d") (codes "t") 5 (λ r. is_user r.kind) files
      ≡ some (
          last_n 5 (
            records codec (λ r. is_user r.kind) (read_lines (contents path one_line))
            ++ record_of (codes "yo") ∷ [])))
    × IsWhole (contents path files)
    × (lookup (codes "x") files ≡ lookup (codes "x") one_line)
tail-append_example =
    tail-append codec (codes "b") (codes "d") (codes "t") (codes "x") 5 (λ r. is_user r.kind)
      (record_of (codes "yo")) (codes "yo") one_line (omega arith) refl (ground arith) refl
      IsWhole-d log_path-ne
