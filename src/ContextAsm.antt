-- ===== src/ContextAsm.antt =====
-- internal/contextasm/assemble.go: the one message that the coding agent is given.
pub mod Budget
mod Examples
use espur.Base.{
  ℕ, ◌+◌, ◌-◌, ◌*◌, Bool, true, false, not, List, [], ◌∷◌, ◌++◌, Option, none, some, Bytes, codes,
  is_empty, has_suffix, length, take, drop, leb, ltb, ◌==◌, if◌then◌else◌,
}
use espur.Transcript.{Record, format}

abbrev pub default_tail_n : ℕ
default_tail_n = 15

abbrev pub max_bytes : ℕ
max_bytes = 8 * 1024

abbrev pub max_agents_md_bytes : ℕ
max_agents_md_bytes = 16 * 1024

pub record Prefix : Type 0 where
  pub platform : Bytes
  pub thread_id : Bytes
  pub agents_md : Bytes

pub record Trigger : Type 0 where
  pub author_label : Bytes
  pub body : Bytes

unfoldable pub escape_attr : Bytes → Bytes
escape_attr [] = []
escape_attr (c ∷ s) =
    (if c == 0x22 then codes "&quot;" else if c == 0x5c then 0x5c ∷ 0x5c ∷ [] else c ∷ [])
    ++ escape_attr s

-- What stands behind the first newline, if there is one: `out[i+1:]`.
unfoldable pub after_newline : Bytes → Option Bytes
after_newline [] = none
after_newline (c ∷ s) = let rest = after_newline s in if c == 0x0a then some s else rest

unfoldable pub trim_from_head : Bytes → ℕ → Bytes
unfolding after_newline
trim_from_head s n =
    if leb (length s) n
    then []
    else elim (after_newline (drop n s)) [ none ↦ drop n s | some out ↦ out ]

abbrev pub memory_open : Bytes
memory_open =
    codes
      "<memory note=\"AGENTS.md for this thread; the memory_index.md index and its &lt;slug&gt;.md fact files live alongside it\">\n"

unfoldable pub memory_block : Bytes → Bytes
memory_block agents_md =
    if is_empty agents_md
    then []
    else (let md =
          if ltb max_agents_md_bytes (length agents_md)
          then take max_agents_md_bytes agents_md
          else agents_md in
        memory_open
        ++ (md ++ ((if has_suffix md (0x0a ∷ []) then [] else 0x0a ∷ []) ++ codes "</memory>\n")))

unfoldable pub stable_prefix : Prefix → Bytes
unfolding escape_attr memory_block
stable_prefix p =
    codes "<thread platform=\""
    ++ (escape_attr p.platform
        ++ (codes "\" id=\""
            ++ (escape_attr p.thread_id
                ++ (codes "\">\n" ++ (memory_block p.agents_md ++ codes "</thread>\n")))))

unfoldable pub formatted : List Record → Bytes
formatted [] = []
formatted (r ∷ rs) = format r ++ (0x0a ∷ []) ++ formatted rs

-- The text between the marks of the thread context, within its budget.
unfoldable pub context_text : List Record → Bytes
unfolding formatted trim_from_head
context_text tail_records =
    let body = formatted tail_records in
    let extra = length body - max_bytes in if ltb 0 extra then trim_from_head body extra else body

abbrev pub context_open : Bytes
context_open = codes "<thread-context note=\"recent user messages on this thread, oldest first\">\n"

unfoldable pub request_text : Trigger → Bytes
unfolding escape_attr
request_text current =
    let author = if is_empty current.author_label then codes "user" else current.author_label in
    codes "<request from=\""
    ++ (escape_attr author ++ (codes "\">\n" ++ (current.body ++ codes "\n</request>\n")))

unfoldable pub assemble : Prefix → List Record → Trigger → Bytes
unfolding stable_prefix context_text request_text
assemble prefix tail_records current =
    stable_prefix prefix
    ++ (context_open
        ++ (context_text tail_records ++ (codes "</thread-context>\n" ++ request_text current)))
