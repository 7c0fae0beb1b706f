-- ===== src/Adapter/Discord.antt =====
-- internal/adapter/discord/discord.go: inbound normalisation, the handlers, and Post.
pub mod Fuel
use espur.Base.{
  ℕ, suc, zero, ◌-◌, ◌≡◌, ◌≢◌, refl, ◌∙◌, sym, ap, Bool, true, false, not, ◌&&◌, ◌||◌, List, [],
  ◌∷◌, ◌++◌, Option, none, some, Bytes, codes, same, is_empty, has_prefix, trim_space, leb, ◌==◌,
  length, take, if◌then◌else◌, if_rule, if_true, if_false, lookup, bytes_eq, arith, Bool-cases,
}
use espur.Transcript.{Author}
use espur.TextChunk.{split}
use espur.Bot.{MessageEvent}
use espur.Bot.Dispatch.{Event}
use espur.Adapter.Events.{Room, emit, Typings, pause_typing, resume_typing, platform_key}
use espur.Adapter.Send.{Platform, Wire, Posted, post_chunks}

abbrev pub max_chunk : ℕ
max_chunk = 2000

-- The fields of discordgo's message that the code reads.
pub record DiscordAuthor : Type 0 where
  pub id : Bytes
  pub bot : Bool
  pub username : Bytes

pub record DiscordMessage : Type 0 where
  pub id : Bytes
  pub channel_id : Bytes
  pub guild_id : Bytes
  pub author : Option DiscordAuthor
  pub content : Bytes
  pub mentions : List Bytes
  pub attachments : List Bytes

pub record Adapter : Type 0 where
  pub user_id : Bytes
  pub platform : Bytes
  pub healthy : Bool
  pub events : List Event
  pub typing : Typings

-- New, with WithPlatformKey.
unfoldable pub new_adapter : Bytes → Adapter
new_adapter key = record {
  user_id = [];
  platform = platform_key key (codes "discord");
  healthy = false;
  events = [];
  typing = record { active = []; states = []; next = 0 };
}

abbrev lifecycle : Room → Bytes → Adapter → Adapter
lifecycle room kind a = record a { events = emit room (Event.lifecycle kind) a.events }

-- The handlers of Start.
unfoldable pub on_ready : Room → Bytes → Adapter → Adapter
on_ready room id a = lifecycle room (codes "connected") (record a { user_id = id; healthy = true })

unfoldable pub on_disconnect : Room → Adapter → Adapter
on_disconnect room a = lifecycle room (codes "reconnecting") (record a { healthy = false })

unfoldable pub on_resumed : Room → Adapter → Adapter
on_resumed room a = lifecycle room (codes "connected") (record a { healthy = true })

is_digit : ℕ → Bool
is_digit c = leb 0x30 c && leb c 0x39

-- The digits at the start, and the rest.
unfoldable pub digits : Bytes → Bytes × Bytes
unfolding is_digit
digits [] = ([], [])
digits (c ∷ s) = let r = digits s in if is_digit c then (c ∷ r.0, r.1) else ([], c ∷ s)

abbrev pub closes : Bytes → Bytes → Option (Bytes × Bytes)
closes id [] = none
closes id (c ∷ s) = if not (is_empty id) && c == 0x3e then some (id, s) else none

abbrev pub id_then : Bytes → Option (Bytes × Bytes)
id_then s = closes (digits s).0 (digits s).1

abbrev pub after_bang : Bytes → Option (Bytes × Bytes)
after_bang [] = none
after_bang (c ∷ s) = if c == 0x21 then id_then s else id_then (c ∷ s)

-- `<@!?(\d+)>` at the start: the digits and what follows.
unfoldable pub mention_at : Bytes → Option (Bytes × Bytes)
unfolding digits
mention_at [] = none
mention_at (a ∷ []) = none
mention_at (a ∷ b ∷ s) = if a == 0x3c && b == 0x40 then after_bang s else none

-- ReplaceAllStringFunc; the number of bytes is fuel enough, since every step takes one at least.
unfoldable pub strip_mentions : ℕ → Bytes → Bytes → Bytes
strip_mentions zero bot s = s
strip_mentions (suc n) bot [] = []
strip_mentions (suc n) bot (c ∷ s) = elim (mention_at (c ∷ s)) [
  | none ↦ c ∷ strip_mentions n bot s
  | some (id, rest) ↦
      (if same id bot then [] else take (suc (length s) - length rest) (c ∷ s))
      ++ strip_mentions n bot rest
]

abbrev placeholder : Bytes → Bytes
placeholder content_type =
    if has_prefix content_type (codes "image/") then codes "[image]" else codes "[attachment]"

unfoldable pub with_attachments : List Bytes → Bytes → Bytes
with_attachments [] body = body
with_attachments (t ∷ ts) body =
    with_attachments ts
      (if is_empty body then placeholder t else body ++ codes " " ++ placeholder t)

unfoldable pub names : Bytes → List Bytes → Bool
names id [] = false
names id (u ∷ us) = same u id || names id us

unfoldable pub normalize_body : DiscordMessage → Bytes → Bytes × Bool
unfolding strip_mentions with_attachments names
normalize_body m bot = (
  trim_space (with_attachments m.attachments (strip_mentions (length m.content) bot m.content)),
  names bot m.mentions,
)

abbrev pub event_of : DiscordMessage → DiscordAuthor → Adapter → MessageEvent
event_of m author a = record {
  platform = a.platform;
  thread_id = m.channel_id;
  platform_message_id = m.id;
  author = record { id = author.id; label = author.username };
  body = (normalize_body m a.user_id).0;
  mention = if is_empty m.guild_id then true else (normalize_body m a.user_id).1;
}

abbrev pub from_author : Room → DiscordMessage → Option DiscordAuthor → Adapter → Adapter
from_author room m none a = a
from_author room m (some author) a =
    if author.bot
    then a
    else if same author.id a.user_id
    then a
    else record a { events = emit room (Event.message (event_of m author a)) a.events }

unfoldable pub on_message : Room → DiscordMessage → Adapter → Adapter
unfolding normalize_body
on_message room m a = from_author room m m.author a

abbrev posted : Option ℕ → Posted × Wire → Adapter → Posted × Wire × Adapter
posted found r a = (r.0, r.1, record a { typing = resume_typing found a.typing })

unfoldable pub post : Platform → Bytes → Bytes → Wire → Adapter → Posted × Wire × Adapter
post p thread body w a =
    let found = lookup thread a.typing.active in
    posted found (post_chunks false (λ _. false) p 0 [] (split body max_chunk) w)
      (record a { typing = pause_typing found a.typing })
