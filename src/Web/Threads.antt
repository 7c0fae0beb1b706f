-- ===== src/Web/Threads.antt =====
-- internal/web/web.go: the handlers that change a thread's working directory.
use espur.Base.{
  ℕ, ◌≡◌, refl, ◌∙◌, sym, ap, subst, Bool, true, false, not, ◌&&◌, [], ◌∷◌, ◌++◌, Option, none,
  some, Bytes, codes, same, same_iff, has_prefix, has_suffix, if◌then◌else◌, if_true, if_false,
  lookup, insert, lookup-insert_self, index, contains, map_some, is_some, bytes_eq, arith,
}
use espur.Memory.{
  replace_user_instructions, extract_user_instructions, trim_newlines, user_instructions_start,
  user_instructions_end,
}
use espur.Memory.Block.{extract-replace}
use espur.Memory.Seed.{Dir, Faults, agents_name, agents_md, ensure_work_dir, files_of}
use espur.Web.{Reply}

-- threadDir; `clean` is filepath.Clean after a join of its parts
-- with slashes; the base directory is not empty.
unfoldable pub thread_dir : (Bytes → Bytes) → Bytes → Bytes → Bytes → Option Bytes
thread_dir clean base platform enc =
    let root = clean (base ++ codes "/threads") in
    let dir = clean (base ++ codes "/threads/" ++ platform ++ codes "/" ++ enc) in
    if has_prefix dir (root ++ codes "/") then some dir else none

-- What the wipe removes; a directory in the working directory is no file of `Dir`.
unfoldable pub is_wiped : Bytes → Bool
is_wiped name = has_suffix name (codes ".md") && not (same name agents_name)

abbrev pub without_wiped : Dir → Dir
without_wiped [] = []
without_wiped ((name, text) ∷ d) =
    let rest = without_wiped d in if is_wiped name then rest else (name, text) ∷ rest

-- threadWipeMemory, in a directory that threadDir has accepted.
unfoldable pub thread_wipe_memory : Option Bytes → Option Dir → Reply × Option Dir
unfolding is_wiped
thread_wipe_memory none dir = (Reply.status 400, dir)
thread_wipe_memory (some path) none = (Reply.redirect (codes "ok"), none)
thread_wipe_memory (some path) (some d) = (Reply.redirect (codes "ok"), some (without_wiped d))

abbrev pub saved : Bool → Bytes → Dir → Option Bytes → Reply × Option Dir
saved write_fails body d none = (Reply.status 500, some d)
saved write_fails body d (some old) = if write_fails then (Reply.status 500, some d) else (
  Reply.redirect (codes "ok"),
  some (insert agents_name (replace_user_instructions old body) d),
)

abbrev pub ensured : Bool → Bytes → Bool × Option Dir → Reply × Option Dir
ensured write_fails body (false, dir) = (Reply.status 500, dir)
ensured write_fails body (true, dir) =
    saved write_fails body (files_of dir) (lookup agents_name (files_of dir))

-- threadInstructions; `write_fails` says whether the atomic write fails.
unfoldable pub thread_instructions :
    Faults → Bool → Option Bytes → Bytes → Option Dir → Reply × Option Dir
thread_instructions f write_fails none body dir = (Reply.status 400, dir)
thread_instructions f write_fails (some path) body dir =
    ensured write_fails body (ensure_work_dir f dir)

unfoldable pub thread_delete : Bool → Option Bytes → Option Dir → Reply × Option Dir
thread_delete fails none dir = (Reply.status 400, dir)
thread_delete fails (some path) dir =
    if fails then (Reply.redirect (codes "danger"), dir) else (Reply.redirect (codes "ok"), none)

-- A wipe of the memory removes every text of the bot and nothing else: a file of the directory is
-- gone if its name ends in .md, except AGENTS.md with the operator's instructions, and all other
-- files are as they were.
pub lookup-without_wiped :
    (name : Bytes) (d : Dir)
    → lookup name (without_wiped d) ≡ (if is_wiped name then none else lookup name d)
unfolding lookup
lookup-without_wiped name [] = ground arith
lookup-without_wiped name ((n, t) ∷ d) =
    ground (arith, lookup-without_wiped name d, same_iff n name, ap is_wiped)

-- AGENTS.md of a directory as a turn would find it: the one there, or the one that is seeded.
abbrev pub text_or_seed : Option Bytes → Bytes
text_or_seed none = agents_md
text_or_seed (some t) = t

abbrev pub agents_text : Option Dir → Bytes
agents_text dir = text_or_seed (lookup agents_name (files_of dir))

ensure_work_dir_lem :
    (f : Faults) (dir : Option Dir)
    → f.make_fails ≡ false
    → f.stat_fails ≡ false
    → f.write_fails ≡ false
    → (d : Dir) × (ensure_work_dir f dir ≡ (true, some d))
      × (lookup agents_name d ≡ some (agents_text dir))
unfolding ensure_work_dir
ensure_work_dir_lem f dir makes stats writes = by_file (lookup agents_name (files_of dir)) refl
  where
    by_file :
        (o : Option Bytes)
        → lookup agents_name (files_of dir) ≡ o
        → (d : Dir) × (ensure_work_dir f dir ≡ (true, some d))
          × (lookup agents_name d ≡ some (text_or_seed (lookup agents_name (files_of dir))))
    by_file none e = (
      insert agents_name agents_md (files_of dir),
      if_false _ _ makes
          ∙ if_false {b = is_some (lookup agents_name (files_of dir))} _ _ (ap is_some e)
          ∙ if_false _ _ stats
          ∙ if_false _ _ writes,
      lookup-insert_self agents_name agents_md (files_of dir)
          ∙ ap (λ o. some (text_or_seed o)) (sym e),
    )
    by_file (some t) e = (
      files_of dir,
      if_false _ _ makes
          ∙ if_true {b = is_some (lookup agents_name (files_of dir))} _ _ (ap is_some e),
      e ∙ ap (λ o. some (text_or_seed o)) (sym e),
    )

-- The operator's instructions are what is read back: if all calls of the file system succeed, saving
-- instructions for a thread leaves an AGENTS.md from which they are extracted but for the newlines
-- around them, whether the thread had a directory or an AGENTS.md before or not; if the text to be
-- changed, which may be the seed, has its start mark, and the instructions do not hold the end mark.
pub thread_instructions_lem :
    (f : Faults) (path body : Bytes) (dir : Option Dir) (i : ℕ)
    → f.make_fails ≡ false
    → f.stat_fails ≡ false
    → f.write_fails ≡ false
    → index (agents_text dir) user_instructions_start ≡ some i
    → contains (0x0a ∷ trim_newlines body) user_instructions_end ≡ false
    → let r = thread_instructions f false (some path) body dir in
      (r.0 ≡ Reply.redirect (codes "ok"))
      × (map_some extract_user_instructions (lookup agents_name (files_of r.1))
          ≡ some (trim_newlines body))
unfolding thread_instructions
thread_instructions_lem f path body dir i makes stats writes marked plain =
    let w = ensure_work_dir_lem f dir makes stats writes in
    subst (λ a. P (ensured false body a)) (sym w.1)
      (subst (λ o. P (saved false body w.0 o)) (sym w.2)
        (
          refl,
          ap (map_some extract_user_instructions) (
                lookup-insert_self agents_name (replace_user_instructions (agents_text dir) body)
                  w.0)
              ∙ ap some (extract-replace (agents_text dir) body i marked plain),
        ))
  where
    P : Reply × Option Dir → Type 0
    P r =
        (r.0 ≡ Reply.redirect (codes "ok"))
        × (map_some extract_user_instructions (lookup agents_name (files_of r.1))
            ≡ some (trim_newlines body))
