-- ===== src/Web/ThreadTests.antt =====
-- The pages of a thread.
use espur.Base.{
  ◌≡◌, refl, false, ◌∷◌, some, none, codes, map_some, lookup, index, contains, has_prefix, bytes_eq,
}
use espur.Memory.{
  extract_user_instructions, trim_newlines, user_instructions_start, user_instructions_end,
}
use espur.Memory.Seed.{agents_md, agents_name, files_of, Faults}
use espur.Web.{Reply}
use espur.Web.Threads.{thread_instructions, thread_instructions_lem}

-- The place of the start mark in the seed.
seed_marked : index agents_md user_instructions_start ≡ some 1692
unfolding index has_prefix agents_md
seed_marked = refl

brief_plain : contains (0x0a ∷ trim_newlines (codes "be brief\n")) user_instructions_end ≡ false
unfolding contains index has_prefix trim_newlines
brief_plain = refl

-- A thread with no directory yet.
thread_instructions_lem_example :
    let f : Faults = record { make_fails = false; stat_fails = false; write_fails = false } in
    let r = thread_instructions f false (some (codes "t")) (codes "be brief\n") none in
    (r.0 ≡ Reply.redirect (codes "ok"))
    × (map_some extract_user_instructions (lookup agents_name (files_of r.1))
        ≡ some (trim_newlines (codes "be brief\n")))
unfolding lookup
thread_instructions_lem_example =
    thread_instructions_lem (record { make_fails = false; stat_fails = false; write_fails = false })
      (codes "t") (codes "be brief\n") none 1692 refl refl refl seed_marked brief_plain
