-- ===== src/TextChunk.antt =====
-- internal/adapter/textchunk/chunk.go: the splitting of a reply into chunks of at most `max_len`
-- bytes. The loop over the lines is a fold of `add_line`, whose state holds the loop's variables.
-- The loop of `hardSplit` runs on fuel, one more than the length of its text.
pub mod HardSplit
pub mod Bounds
pub mod Content
mod Examples
use espur.Base.{
  ℕ, zero, suc, ◌+◌, ◌-◌, ◌/◌, Bool, true, false, not, ◌&&◌, ◌||◌, List, [], ◌∷◌, ◌++◌, Option,
  none, some, Bytes, codes, same, is_empty, has_prefix, trim_space, split_at, length, take, drop,
  ltb, leb, ◌==◌, if◌then◌else◌,
}

-- strings.LastIndex(s, " ").
unfoldable pub last_space : Bytes → Option ℕ
last_space [] = none
last_space (c ∷ s) = elim (last_space s) [
  | some i ↦ some (suc i)
  | none ↦ if c == 0x20 then some 0 else none
]

-- strings.TrimPrefix(s, " ").
unfoldable pub trim_one_space : Bytes → Bytes
trim_one_space [] = []
trim_one_space (c ∷ s) = if c == 0x20 then s else c ∷ s

-- `cut` is -1 where no space stands, which is below `max_len / 2` in any case.
unfoldable pub cut_at : ℕ → Bytes → ℕ
unfolding last_space
cut_at max_len s = elim (last_space (take max_len s)) [
  | none ↦ max_len
  | some cut ↦ if ltb cut (max_len / 2) then max_len else cut
]

unfoldable pub rest_after : ℕ → Bytes → Bytes
unfolding trim_one_space cut_at
rest_after max_len s = trim_one_space (drop (cut_at max_len s) s)

abbrev pub leftover : Bytes → List Bytes
leftover s = if is_empty s then [] else s ∷ []

unfoldable pub hard_split_loop : ℕ → ℕ → Bytes → List Bytes
hard_split_loop zero max_len s = leftover s
hard_split_loop (suc fuel) max_len s =
    let pieces = take (cut_at max_len s) s ∷ hard_split_loop fuel max_len (rest_after max_len s) in
    if ltb max_len (length s) then pieces else leftover s

unfoldable pub hard_split : ℕ → Bytes → List Bytes
unfolding hard_split_loop
hard_split max_len s = hard_split_loop (suc (length s)) max_len s

-- The variables of the loop in `Split`; `out` in order.
pub record Splitter : Type 0 where
  pub out : List Bytes
  pub current : Bytes
  pub in_fence : Bool
  pub fence_tag : Bytes

abbrev pub fence : Bytes
fence = 0x60 ∷ 0x60 ∷ 0x60 ∷ []

abbrev pub closer : Bytes
closer = 0x0a ∷ fence

unfoldable pub flush : Splitter → Splitter
flush p =
    if is_empty p.current then p else record p { out = p.out ++ (p.current ∷ []); current = [] }

-- A line that starts with a fence opens one, or closes the open one.
unfoldable pub toggle_fence : Bytes → Splitter → Splitter
toggle_fence trimmed p =
    if has_prefix trimmed fence
    then (if not p.in_fence
        then record p { in_fence = true; fence_tag = trimmed }
        else if same trimmed fence || same trimmed p.fence_tag
        then record p { in_fence = false }
        else p)
    else p

-- `was_in_fence` is the state before the line.
unfoldable pub close_fence : ℕ → Bool → Splitter → Splitter
close_fence max_len was_in_fence p =
    if was_in_fence && leb (length p.current + length closer) max_len
    then record p { current = p.current ++ closer }
    else p

-- The tail of the loop's body.
unfoldable pub place : ℕ → Bytes → Splitter → Splitter
unfolding flush
place max_len addition p =
    if ltb max_len (length addition)
    then (let q = flush p in record q { out = q.out ++ hard_split max_len addition })
    else record p { current = p.current ++ addition }

-- `first` stands for `i == 0`.
unfoldable pub add_line : ℕ → Bool → Bytes → Splitter → Splitter
unfolding flush toggle_fence close_fence place
add_line max_len first line p =
    let q = toggle_fence (trim_space line) p in
    let addition = if first then line else 0x0a ∷ line in
    if ltb max_len (length q.current + length addition) && not (is_empty q.current)
    then place max_len line (flush (close_fence max_len p.in_fence q))
    else place max_len addition q

unfoldable pub add_lines : ℕ → Bool → List Bytes → Splitter → Splitter
add_lines max_len first [] p = p
add_lines max_len first (line ∷ lines) p =
    add_lines max_len false lines (add_line max_len first line p)

abbrev pub new_splitter : Splitter
new_splitter = record { out = []; current = []; in_fence = false; fence_tag = [] }

-- `max_len <= 0` is `max_len == 0` here.
unfoldable pub split : Bytes → ℕ → List Bytes
unfolding add_lines add_line flush hard_split
split body max_len =
    if max_len == 0
    then body ∷ []
    else if leb (length body) max_len
    then (if is_empty body then [] else body ∷ [])
    else (flush (add_lines max_len true (split_at 0x0a body) new_splitter)).out
