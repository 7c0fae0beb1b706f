-- ===== src/Memory/Examples.antt =====
-- A file with the two marks: what is written between them is read back.
use espur.Base.{◌≡◌, refl, false, some, ◌++◌, Bytes, codes, index, contains, has_prefix}
use espur.Memory.{
  user_instructions_start, user_instructions_end, trim_newlines, extract_user_instructions,
  replace_user_instructions,
}
use espur.Memory.Block.{extract-replace}

abbrev agents : Bytes
agents = codes "rules\n" ++ (user_instructions_start ++ (codes "\nold\n" ++ user_instructions_end))

agents_marked : index agents user_instructions_start ≡ some 6
unfolding index has_prefix
agents_marked = refl

be_brief_plain : contains (codes "\nbe brief") user_instructions_end ≡ false
unfolding contains has_prefix
be_brief_plain = refl

read_back :
    extract_user_instructions (replace_user_instructions agents (codes "be brief"))
    ≡ codes "be brief"
unfolding trim_newlines
read_back = extract-replace agents (codes "be brief") 6 agents_marked be_brief_plain
