-- ===== src/Opencode/Auth.antt =====
-- internal/opencode/auth.go: the providers that opencode's auth.json names. Reading and parsing the
-- file are arguments.
use espur.Base.{
  ◌≡◌, refl, ◌∙◌, ap, Bool, true, false, not, ◌||◌, ◌&&◌, List, [], ◌∷◌, ◌++◌, Option, none, some,
  Bytes, codes, is_empty, ltb, ◌==◌, if◌then◌else◌, if_rule, length, suc, lookup, bytes_eq,
}

pub record AuthEntry : Type 0 where
  pub provider : Bytes
  pub type : Bytes
  pub has_key : Bool

-- AuthFilePath; `env` is os.Getenv.
unfoldable pub auth_file_path : (Bytes → Bytes) → Bytes
auth_file_path env =
    if not (is_empty (env (codes "XDG_DATA_HOME")))
    then env (codes "XDG_DATA_HOME") ++ codes "/opencode/auth.json"
    else if not (is_empty (env (codes "HOME")))
    then env (codes "HOME") ++ codes "/.local/share/opencode/auth.json"
    else []

-- The members of one provider's object: a text, or none for a value of another type.
abbrev pub Members : Type 0
Members = List (Bytes × Option Bytes)

abbrev pub text_or_empty : Option (Option Bytes) → Bytes
text_or_empty (some (some t)) = t
text_or_empty o = []

unfoldable pub any_key : List Bytes → Members → Bool
any_key [] m = false
any_key (k ∷ ks) m = not (is_empty (text_or_empty (lookup k m))) || any_key ks m

abbrev pub key_names : List Bytes
key_names = codes "key" ∷ codes "access" ∷ codes "refresh" ∷ codes "access_token" ∷ []

abbrev pub entry_of : Bytes → Members → AuthEntry
entry_of p m = record {
  provider = p;
  type = text_or_empty (lookup (codes "type") m);
  has_key = any_key key_names m;
}

-- The order of texts by their bytes.
unfoldable pub stands_first : Bytes → Bytes → Bool
stands_first [] [] = false
stands_first [] (b ∷ t) = true
stands_first (a ∷ s) [] = false
stands_first (a ∷ s) (b ∷ t) = ltb a b || a == b && stands_first s t

unfoldable pub insert_entry : AuthEntry → List AuthEntry → List AuthEntry
unfolding stands_first
insert_entry e [] = e ∷ []
insert_entry e (f ∷ fs) =
    let later = f ∷ insert_entry e fs in
    if stands_first f.provider e.provider then later else e ∷ f ∷ fs

unfoldable pub entries_of : List (Bytes × Members) → List AuthEntry
unfolding insert_entry any_key
entries_of [] = []
entries_of ((p, m) ∷ raw) = insert_entry (entry_of p m) (entries_of raw)

-- What os.ReadFile gives.
pub data ReadResult : Type 0 where
  no_file read_error : ReadResult
  contents : Bytes → ReadResult

abbrev pub parsed : Option (List (Bytes × Members)) → Option (List AuthEntry)
parsed none = none
parsed (some raw) = some (entries_of raw)

abbrev pub entries_in :
    (Bytes → Option (List (Bytes × Members))) → ReadResult → Option (List AuthEntry)
entries_in parse ReadResult.no_file = some []
entries_in parse ReadResult.read_error = none
entries_in parse (ReadResult.contents b) = parsed (parse b)

-- ReadAuthEntries; none is an error.
unfoldable pub read_auth_entries :
    (Bytes → Bytes)
    → (Bytes → ReadResult)
    → (Bytes → Option (List (Bytes × Members)))
    → Option (List AuthEntry)
unfolding entries_of
read_auth_entries env read parse =
    let path = auth_file_path env in if is_empty path then some [] else entries_in parse (read path)

-- Every provider of the file has its entry.
length-insert_entry :
    (e : AuthEntry) (es : List AuthEntry) → length (insert_entry e es) ≡ suc (length es)
unfolding insert_entry
length-insert_entry e [] = refl
length-insert_entry e (f ∷ fs) =
    if_rule (λ (t : List AuthEntry). length t ≡ suc (suc (length fs)))
      (stands_first f.provider e.provider) (λ _. ap suc (length-insert_entry e fs)) (λ _. refl)

-- The entries are as many as the providers of the file.
pub length-entries_of : (raw : List (Bytes × Members)) → length (entries_of raw) ≡ length raw
unfolding entries_of
length-entries_of [] = refl
length-entries_of ((p, m) ∷ raw) =
    length-insert_entry (entry_of p m) (entries_of raw) ∙ ap suc (length-entries_of raw)
