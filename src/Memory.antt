-- ===== src/Memory.antt =====
-- internal/memory/instructions.go: the block of user instructions within AGENTS.md. Seed has the
-- seeding of the file (seed.go).
pub mod Block
pub mod Seed
mod Examples
use espur.Base.{
  ℕ, ◌+◌, not, List, [], ◌∷◌, ◌++◌, Option, none, some, Bytes, codes, index, has_suffix, length,
  take, drop, reverse, ◌==◌, if◌then◌else◌,
}

abbrev pub user_instructions_start : Bytes
user_instructions_start = codes "<!-- espur:user-instructions:start -->"

abbrev pub user_instructions_end : Bytes
user_instructions_end = codes "<!-- espur:user-instructions:end -->"

drop_newlines : Bytes → Bytes
drop_newlines [] = []
drop_newlines (c ∷ s) = let rest = drop_newlines s in if c == 0x0a then rest else c ∷ s

-- strings.Trim(s, "\n").
unfoldable pub trim_newlines : Bytes → Bytes
unfolding drop_newlines
trim_newlines s = reverse (drop_newlines (reverse (drop_newlines s)))

abbrev pub inside : Bytes → Option ℕ → Bytes
inside rest none = []
inside rest (some j) = trim_newlines (take j rest)

abbrev pub behind : Bytes → Option ℕ → Bytes
behind agents none = []
behind agents (some i) =
    let rest = drop (i + length user_instructions_start) agents in
    inside rest (index rest user_instructions_end)

unfoldable pub extract_user_instructions : Bytes → Bytes
unfolding trim_newlines
extract_user_instructions agents = behind agents (index agents user_instructions_start)

abbrev pub block_of : Bytes → Bytes
block_of body =
    user_instructions_start ++ (0x0a ∷ (trim_newlines body ++ 0x0a ∷ user_instructions_end))

abbrev pub swap_block : Bytes → Bytes → ℕ → Option ℕ → Bytes
swap_block agents body i none = take i agents ++ (block_of body ++ 0x0a ∷ [])
swap_block agents body i (some j) =
    take i agents ++ (block_of body ++ drop (i + j + length user_instructions_end) agents)

abbrev pub place_block : Bytes → Bytes → Option ℕ → Bytes
place_block agents body none =
    (if not (has_suffix agents (0x0a ∷ [])) then agents ++ 0x0a ∷ [] else agents)
    ++ (0x0a ∷ (block_of body ++ 0x0a ∷ []))
place_block agents body (some i) =
    swap_block agents body i (index (drop i agents) user_instructions_end)

unfoldable pub replace_user_instructions : Bytes → Bytes → Bytes
unfolding trim_newlines
replace_user_instructions agents body =
    place_block agents body (index agents user_instructions_start)
