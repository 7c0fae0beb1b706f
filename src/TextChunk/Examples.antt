-- ===== src/TextChunk/Examples.antt =====
-- Runs of the splitter, and its theorems at concrete texts.
use espur.Base.{
  ◌≤◌, ◌≡◌, refl, [], ◌∷◌, ◌++◌, Bytes, codes, same, has_prefix, trim_space, split_at, All, length,
  arith,
}
use espur.TextChunk.{hard_split, split, cut_at, rest_after, leftover}
use espur.TextChunk.Bounds.{split-chunks-le}
use espur.TextChunk.Content.{ink, concat, ink-split}

abbrev fenced : Bytes
fenced =
    codes "intro"
    ++ (0x0a ∷ codes "```go")
    ++ (0x0a ∷ codes "x := 1")
    ++ (0x0a ∷ codes "y := 2")
    ++ (0x0a ∷ codes "```")

-- The open fence is closed where the text is cut.
split-fenced :
    split fenced 22
    ≡ (codes "intro" ++ (0x0a ∷ codes "```go") ++ (0x0a ∷ codes "x := 1") ++ (0x0a ∷ codes "```"))
      ∷ (codes "y := 2" ++ (0x0a ∷ codes "```"))
      ∷ []
unfolding split same has_prefix trim_space split_at
split-fenced = refl

split_words : split (codes "hello wide world") 7 ≡ codes "hello" ∷ codes "wide" ∷ codes "world" ∷ []
unfolding split has_prefix trim_space split_at espur.TextChunk.cut_at espur.TextChunk.rest_after
split_words = refl

split-chunks-le_example : All (λ c. length c ≤ 7) (split (codes "hello wide world") 7)
split-chunks-le_example = split-chunks-le (codes "hello wide world") 7 (omega arith)

ink-split_example : ink (concat (split fenced 22)) ≡ ink fenced
ink-split_example = ink-split fenced 22
