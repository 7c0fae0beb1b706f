-- ===== src/Web/AtomicTests.antt =====
-- A file of two bytes is replaced.
use espur.Base.{
  ◌≡◌, refl, false, [], ◌∷◌, none, some, codes, same, lookup, insert, delete, bytes_eq, arith,
}
use espur.Memory.Seed.{Dir}
use espur.Web.Atomic.{Calls, IsAtomic, write_file_atomic, write_file_atomic_lem}

abbrev calls : Calls
calls = record {
  temp = some (codes ".tmp-1");
  write_stops = none;
  chmod_fails = false;
  close_fails = false;
  rename_fails = false;
  remove_fails = false;
}

abbrev dir : Dir
dir = (codes "AGENTS.md", codes "ab") ∷ []

write_file_atomic_lem_example :
    IsAtomic
      (codes "AGENTS.md")
      (codes "cde")
      dir
      calls
      (write_file_atomic calls (codes "AGENTS.md") (codes "cde") dir)
unfolding lookup same
write_file_atomic_lem_example =
    write_file_atomic_lem (codes "AGENTS.md") (codes "cde") dir calls
      (λ t e. let x : codes ".tmp-1" ≡ t = ground (arith, e) in rw (← x) (ground arith, refl))

-- A write that stops after a byte leaves the old file.
disk_full :
    (write_file_atomic
      (record calls { write_stops = some 1 })
      (codes "AGENTS.md")
      (codes "cde")
      dir).dir
    ≡ dir
unfolding write_file_atomic insert delete same
disk_full = refl
