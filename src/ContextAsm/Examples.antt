-- ===== src/ContextAsm/Examples.antt =====
-- A message for one request, and the theorems at small inputs.
use espur.Base.{◌≤◌, ◌≡◌, refl, true, [], ◌∷◌, codes, length}
use espur.Transcript.{Record, user, format}
use espur.ContextAsm.{
  escape_attr, stable_prefix, formatted, context_text, max_bytes, assemble, memory_block,
  request_text,
}
use espur.ContextAsm.Budget.{CutAtLine, context_text_lem}

abbrev hello : Record
hello = record {
  ts = [];
  kind = user;
  platform_message_id = [];
  author = record { id = codes "u1"; label = [] };
  body = codes "hello";
  meta = record {
    mention = true;
    coalesced_into = [];
    reply_outcome = [];
    request_id = [];
    vendor_id = [];
    note = [];
  };
}

context_text-hello : context_text (hello ∷ []) ≡ codes "u1: hello\n"
unfolding context_text formatted format
context_text-hello = refl

assemble_short :
    assemble
      (record { platform = codes "d"; thread_id = codes "t"; agents_md = [] })
      []
      (record { author_label = codes "a\"b"; body = codes "hi" })
    ≡ codes
        "<thread platform=\"d\" id=\"t\">\n</thread>\n<thread-context note=\"recent user messages on this thread, oldest first\">\n</thread-context>\n<request from=\"a&quot;b\">\nhi\n</request>\n"
unfolding assemble stable_prefix memory_block escape_attr context_text formatted request_text
assemble_short = refl

context_text_lem_example :
    (length (context_text (hello ∷ hello ∷ [])) ≤ max_bytes)
    × CutAtLine (formatted (hello ∷ hello ∷ [])) (context_text (hello ∷ hello ∷ []))
context_text_lem_example = context_text_lem (hello ∷ hello ∷ [])
