-- ===== src/Adapter/Wechat/FileStore.antt =====
-- internal/adapter/wechat/session_store.go: the store of a session in one file. The files are those
-- of the file system, by their paths.
use espur.Base.{
  ℕ, ◌≡◌, ◌≢◌, refl, ap, ◌⊎◌, inl, inr, Bool, true, false, List, [], ◌∷◌, ◌++◌, Option, none, some,
  Bytes, codes, length, length-append, take, if◌then◌else◌, if_rule, lookup, insert, delete,
  bytes_eq, lookup-insert_self, lookup-insert_ne, All, arith,
}
use espur.Transcript.{Files}

abbrev pub content : Option Bytes → Option Bytes
content none = some []
content (some b) = some b

-- Load: none is an error, and no bytes stand for no session.
unfoldable pub load : Bool → Bytes → Files → Option Bytes
load fails path files = if fails then none else content (lookup path files)

-- How WriteFile ends: it cannot open the file, stops after some bytes, or writes all of them.
pub data Write : Type 0 where
  not_opened whole : Write
  stopped : ℕ → Write

-- What the calls of Save answer.
pub record Calls : Type 0 where
  pub write : Write
  pub rename_fails : Bool

abbrev pub temp_of : Bytes → Bytes
temp_of path = path ++ codes ".tmp"

-- Whether the save succeeded, the files at its end, and those on the way.
pub record Saved : Type 0 where
  pub ok : Bool
  pub files : Files
  pub seen : List Files

abbrev pub moved : Bytes → Bytes → Files → Files
moved path text files = insert path text (delete (temp_of path) files)

abbrev pub saved : Calls → Write → Bytes → Bytes → Files → Saved
saved c not_opened path text files = record { ok = false; files = files; seen = [] }
saved c whole path text files =
    let written = insert (temp_of path) text files in
    if c.rename_fails then record { ok = false; files = written; seen = written ∷ [] } else record {
      ok = true;
      files = moved path text written;
      seen = written ∷ moved path text written ∷ [];
    }
saved c (stopped n) path text files =
    let written = insert (temp_of path) (take n text) files in
    record { ok = false; files = written; seen = written ∷ [] }

unfoldable pub save : Calls → Bytes → Bytes → Files → Saved
save c path text files = saved c c.write path text files

temp_of-ne : (path : Bytes) → temp_of path ≢ path
temp_of-ne path e = absurd (omega (arith, ap length e, length-append path (codes ".tmp")))

-- A saved session is what is loaded again: after a save that returns no error a load gives the new
-- bytes, and after one that fails what it gave before; and wherever the program is stopped between
-- the calls a load gives the one or the other, never a part.
pub load-save :
    (c : Calls) (path text : Bytes) (files : Files)
    → let s = save c path text files in
      (load false path s.files ≡ (if s.ok then some text else load false path files))
      × All
          (λ fs. (load false path fs ≡ load false path files) ⊎ (load false path fs ≡ some text))
          s.seen
unfolding load save
load-save c path text files = by_write c.write
  where
    P : Saved → Type 0
    P s =
        (load false path s.files ≡ (if s.ok then some text else load false path files))
        × All
            (λ (fs : Files).
              (load false path fs ≡ load false path files) ⊎ (load false path fs ≡ some text))
            s.seen

    kept : (b : Bytes) → load false path (insert (temp_of path) b files) ≡ load false path files
    kept b = ap content (lookup-insert_ne (temp_of path) path b files (temp_of-ne path))

    new : (fs : Files) → load false path (moved path text fs) ≡ some text
    new fs = ap content (lookup-insert_self path text (delete (temp_of path) fs))

    by_write : (o : Write) → P (saved c o path text files)
    by_write not_opened = (refl, tt)
    by_write (stopped n) = (kept (take n text), (inl (kept (take n text)), tt))
    by_write whole =
        if_rule P c.rename_fails (λ _. (kept text, (inl (kept text), tt)))
          (λ _.
            let w = insert (temp_of path) text files in
            (new w, (inl (kept text), (inr (new w), tt))))
