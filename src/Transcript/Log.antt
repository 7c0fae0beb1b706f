-- ===== src/Transcript/Log.antt =====
-- What is read back from a log after a record is appended, and the length of a directory's name.
use espur.Base.{
  ℕ, ◌≤◌, ◌≡◌, refl, ap, ◌∙◌, sym, ◌≢◌, inl, inr, Bool, true, false, List, [], ◌∷◌, ◌++◌, some,
  Bytes, length, length-append, length-take, take, leb, ◌==◌, if◌then◌else◌, lookup, insert,
  lookup-insert_self, lookup-insert_ne, bytes_eq, All, arith, Bool-cases, if_rule, subst,
}
use espur.Transcript.{
  Record, Codec, Files, encode_thread_id, log_path, stamped, contents, append, push_byte,
  read_lines, records, last_n, tail,
}

-- A log that ends with a newline, or is empty.
abbrev pub IsWhole : Bytes → Type 0
IsWhole [] = Unit {0}
IsWhole (c ∷ []) = c ≡ 0x0a
IsWhole (c ∷ d ∷ s) = IsWhole (d ∷ s)

push_byte-append :
    (c : ℕ) (ls ms : List Bytes) → ls ≢ [] → push_byte c (ls ++ ms) ≡ push_byte c ls ++ ms
unfolding push_byte
push_byte-append c [] ms h = absurd (h refl)
push_byte-append c (l ∷ ls) ms h = refl

push_byte-ne : (c : ℕ) (ls : List Bytes) → push_byte c ls ≢ []
unfolding push_byte
push_byte-ne c [] = λ e. cc
push_byte-ne c (l ∷ ls) = λ e. cc

read_lines-ne : (c : ℕ) (s : Bytes) → read_lines (c ∷ s) ≢ []
unfolding read_lines
read_lines-ne c s = ground (arith, push_byte-ne c (read_lines s))

-- Lines written after a whole log do not run into the lines before.
read_lines-append : (s t : Bytes) → IsWhole s → read_lines (s ++ t) ≡ read_lines s ++ read_lines t
unfolding read_lines
read_lines-append [] t h = refl
read_lines-append (c ∷ []) t h = ground arith
read_lines-append (c ∷ d ∷ s) t h = elim (Bool-cases (c == 0x0a)) [
  | inl e ↦ rw e (ap (◌∷◌ (c ∷ [])) (read_lines-append (d ∷ s) t h))
  | inr e ↦ rw e (
      ap (push_byte c) (read_lines-append (d ∷ s) t h)
      ∙ push_byte-append c (read_lines (d ∷ s)) (read_lines t) (read_lines-ne d s))
]

read_lines-line :
    (l : Bytes) → All (λ c. c ≢ 0x0a) l → read_lines (l ++ 0x0a ∷ []) ≡ (l ++ 0x0a ∷ []) ∷ []
unfolding read_lines push_byte
read_lines-line [] h = refl
read_lines-line (c ∷ l) h = ground (arith, read_lines-line l h.1)

records-append :
    (codec : Codec) (keep : Record → Bool) (ls ms : List Bytes)
    → records codec keep (ls ++ ms) ≡ records codec keep ls ++ records codec keep ms
unfolding records
records-append codec keep [] ms = refl
records-append codec keep (l ∷ ls) ms = ground (arith, records-append codec keep ls ms)

IsWhole-append : (s t : Bytes) → IsWhole (s ++ (t ++ 0x0a ∷ []))
IsWhole-append [] [] = refl
IsWhole-append [] (d ∷ []) = refl
IsWhole-append [] (d ∷ e ∷ t) = IsWhole-append [] (e ∷ t)
IsWhole-append (c ∷ []) [] = refl
IsWhole-append (c ∷ []) (d ∷ t) = IsWhole-append [] (d ∷ t)
IsWhole-append (c ∷ d ∷ s) t = IsWhole-append (d ∷ s) t

contents-insert : (path s : Bytes) (files : Files) → contents path (insert path s files) ≡ s
contents-insert path s files = rw (lookup-insert_self path s files, contents)

tail_found :
    (codec : Codec) (base_dir platform thread_id : Bytes) (n : ℕ) (keep : Record → Bool)
    (files : Files) (s : Bytes)
    → n ≢ 0
    → lookup (log_path codec base_dir platform thread_id) files ≡ some s
    → tail codec false base_dir platform thread_id n keep files
      ≡ some (last_n n (records codec keep (read_lines s)))
unfolding tail
tail_found codec base_dir platform thread_id n keep files s h e = ground arith

append_done :
    (codec : Codec) (base_dir platform thread_id : Bytes) (r : Record) (line : Bytes)
    (files : Files)
    → codec.marshal (stamped codec r) ≡ some line
    → append codec false base_dir platform thread_id r files ≡ (
      true,
      insert
          (log_path codec base_dir platform thread_id)
          (contents (log_path codec base_dir platform thread_id) files ++ (line ++ 0x0a ∷ []))
          files,
    )
unfolding append
append_done codec base_dir platform thread_id r line files h = ground arith

-- After an append that succeeds, to a log that is whole, the log is whole, and the last n records of
-- a kind are those of the records before it with the new one behind them, if it is of that kind.
-- Asked is that the codec reads back the line that it wrote, and writes no newline within it. No
-- other file changes.
pub tail-append :
    (codec : Codec) (base_dir platform thread_id other_path : Bytes) (n : ℕ) (keep : Record → Bool)
    (r : Record) (line : Bytes) (files : Files)
    → n ≢ 0
    → codec.marshal (stamped codec r) ≡ some line
    → All (λ c. c ≢ 0x0a) line
    → codec.unmarshal (line ++ 0x0a ∷ []) ≡ some (stamped codec r)
    → IsWhole (contents (log_path codec base_dir platform thread_id) files)
    → log_path codec base_dir platform thread_id ≢ other_path
    → let files' = (append codec false base_dir platform thread_id r files).1 in
      let path = log_path codec base_dir platform thread_id in
      (tail codec false base_dir platform thread_id n keep files'
        ≡ some (
            last_n n (
              records codec keep (read_lines (contents path files))
              ++ (if keep (stamped codec r) then stamped codec r ∷ [] else []))))
      × IsWhole (contents path files')
      × (lookup other_path files' ≡ lookup other_path files)
tail-append codec base_dir platform thread_id other_path n keep r line files pos m plain u whole
      ne =
    let path = log_path codec base_dir platform thread_id in
    let old = contents path files in
    let written = old ++ (line ++ 0x0a ∷ []) in
    rw (append_done codec base_dir platform thread_id r line files m) (
      tail_found codec base_dir platform thread_id n keep (insert path written files) written pos
            (lookup-insert_self path written files)
          ∙ ap (λ rs. some (last_n n rs))
              (ap (records codec keep) (read_lines-append old (line ++ 0x0a ∷ []) whole)
                ∙ (records-append codec keep (read_lines old) (read_lines (line ++ 0x0a ∷ []))
                    ∙ ap (◌++◌ (records codec keep (read_lines old))) (one_record))),
      subst IsWhole (sym (contents-insert path written files)) (IsWhole-append old line),
      lookup-insert_ne path other_path written files ne,
    )
  where
    one_record :
        records codec keep (read_lines (line ++ 0x0a ∷ []))
        ≡ (if keep (stamped codec r) then stamped codec r ∷ [] else [])
    one_record = rw (read_lines-line line plain) (unfold records in (ground arith))

capped-le : (enc hash : Bytes) → length (take 55 enc ++ b'-' ∷ take 8 hash) ≤ 64
capped-le enc hash =
    rw (length-append (take 55 enc) (b'-' ∷ take 8 hash))
      (omega (arith, length-take 55 enc, length-take 8 hash))

-- The name of a thread's directory has at most 64 bytes, whatever the thread's id.
pub encode_thread_id-le : (codec : Codec) (raw : Bytes) → length (encode_thread_id codec raw) ≤ 64
unfolding encode_thread_id
encode_thread_id-le codec raw =
    if_rule (λ s. length s ≤ 64) (leb (length (codec.base64 raw)) 64) {x = codec.base64 raw}
      (λ h. ground arith) (λ h. capped-le (codec.base64 raw) (codec.sha256_hex raw))
