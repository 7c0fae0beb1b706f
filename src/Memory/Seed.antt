-- ===== src/Memory/Seed.antt =====
-- internal/memory/seed.go: the working directory of a thread and its first AGENTS.md.
use espur.Base.{
  Bool, true, false, List, [], ◌∷◌, ◌++◌, Option, none, some, Bytes, codes, if◌then◌else◌, lookup,
  insert, bytes_eq, is_some,
}
use espur.Memory.{user_instructions_start, user_instructions_end}

-- U+2014 in UTF-8.
abbrev em_dash : Bytes
em_dash = 0xe2 ∷ 0x80 ∷ 0x94 ∷ []

-- Each text with an end of line after it.
lines_of : List Bytes → Bytes
lines_of [] = []
lines_of (l ∷ ls) = l ++ 0x0a ∷ lines_of ls

seed_lines : List Bytes
seed_lines =
    codes "# How to use your memory"
    ∷ []
    ∷ codes "This thread has a working directory you can write to. It survives across"
    ∷ codes "invocations and process restarts. Use it as your durable memory for this one"
    ∷ codes "conversation thread; it is not shared with other threads."
    ∷ []
    ∷ codes "## Files"
    ∷ []
    ∷ (codes "- `memory_index.md` " ++ em_dash ++ codes " the index. One line per entry:")
    ∷ (codes "  `- [short title](<slug>.md) " ++ em_dash ++ codes " one-sentence gloss`.")
    ∷ (codes "- `<slug>.md` "
        ++ em_dash
        ++ codes " one file per long-form fact, sitting next to the index.")
    ∷ []
    ∷ codes "## Hygiene rules"
    ∷ []
    ∷ (codes "1. **Index, not notebook.** `memory_index.md` is an index "
        ++ em_dash
        ++ codes " short lines")
    ∷ codes "   pointing at slug files. Detail lives in the slug file, not the index."
    ∷ []
    ∷ codes "2. **Slugs are kebab-case**, short, stable. If a slug must change, rename the"
    ∷ codes "   file and update the index entry to match."
    ∷ []
    ∷ codes "3. **Read detail on demand.** Open `<slug>.md` with your read tool when"
    ∷ codes "   you need the detail. Don't paste detail-file content inline into the index."
    ∷ []
    ∷ codes "4. **Update, don't append blindly.** If a fact changes, edit the entry or the"
    ∷ codes "   detail file. If it's no longer true, delete both. Stale memory is worse"
    ∷ codes "   than no memory."
    ∷ []
    ∷ codes "5. **What belongs here:** preferences, recurring projects, names of people /"
    ∷ codes "   repos / services that come up often, decisions the user wants you to"
    ∷ codes "   remember, file paths the user keeps pointing at."
    ∷ []
    ∷ codes "6. **What does not belong here:** minute-by-minute conversation (Espur shows"
    ∷ codes "   you the recent transcript on every turn); secrets, credentials, API keys,"
    ∷ (codes "   or tokens "
        ++ em_dash
        ++ codes " even if the user pastes them. Acknowledge and forget them.")
    ∷ []
    ∷ codes "## Custom instructions from the operator"
    ∷ []
    ∷ codes "Anything between the two markers below is operator-authored guidance for this"
    ∷ codes "specific thread (persona, tone, do/don't rules). Treat it as authoritative."
    ∷ codes "It may be empty."
    ∷ []
    ∷ user_instructions_start
    ∷ user_instructions_end
    ∷ []

-- agentsMD
unfoldable pub agents_md : Bytes
unfolding lines_of seed_lines
agents_md = lines_of seed_lines

abbrev pub agents_name : Bytes
agents_name = codes "AGENTS.md"

-- The files of a working directory, by name; none where there is no directory yet.
abbrev pub Dir : Type 0
Dir = List (Bytes × Bytes)

-- Which of the calls fail: MkdirAll, Stat with another error than that there is no file, WriteFile.
pub record Faults : Type 0 where
  pub make_fails : Bool
  pub stat_fails : Bool
  pub write_fails : Bool

abbrev pub files_of : Option Dir → Dir
files_of none = []
files_of (some d) = d

-- EnsureWorkDir: whether it succeeds, and the directory after it.
unfoldable pub ensure_work_dir : Faults → Option Dir → Bool × Option Dir
ensure_work_dir f dir =
    let d = files_of dir in
    if f.make_fails
    then (false, dir)
    else if is_some (lookup agents_name d)
    then (true, some d)
    else if f.stat_fails
    then (false, some d)
    else if f.write_fails
    then (false, some d)
    else (true, some (insert agents_name agents_md d))
