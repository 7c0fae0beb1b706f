-- ===== src/Bot/Turn.antt =====
-- internal/bot/bot.go: HandleTrigger, postCrash and appendBotReply. The record `Host` holds what the
-- turn takes from outside: the pool's environment, the codec of the log, the outcome of each call of
-- the platform and of the file system, the random bytes and the clock. Calls that may come out
-- differently each time are read at a program point that the turn counts up. Typing indicators and
-- the log of the process are left out.
pub mod Replies
use espur.Base.{
  ℕ, suc, ◌+◌, ◌-◌, Bool, true, false, not, ◌&&◌, List, [], ◌∷◌, ◌++◌, Option, none, some, Bytes,
  codes, same, is_empty, last?, take, length, ◌==◌, if◌then◌else◌,
}
use espur.Vendor.{
  Result, Outcome, outcome_unknown, outcome_success, outcome_timeout, outcome_all_drained,
  outcome_crash,
}
use espur.Vendor.Pool.{Env, World, Run}
use espur.Vendor.Pool.Walk.{run}
use espur.Transcript.{Record, Kind, Codec, Files, append, tail_user_messages, thread_dir, last_n}
use espur.ContextAsm.{assemble}
use espur.Bot.{MessageEvent, message_key}
use espur.Bot.Reply.{new_request_id, timeout_reply, crash_reply, drained_reply}

-- `post` gives the id of the platform, empty if nothing was posted, and whether there was an error;
-- `poster` says whether an adapter is registered for the platform.
pub record Host : Type 0 where
  pub pool : Env
  pub codec : Codec
  pub base_dir : Bytes
  pub dashboard_url : Bytes
  pub invoke_timeout : ℕ
  pub tail_n : ℕ
  pub seed_fails : Bool
  pub tail_fails : Bool
  pub agents_md : Bytes
  pub poster : ℕ → Bool
  pub post : ℕ → Bytes → Bytes → Bytes × Bool
  pub append_fails : ℕ → Bool
  pub random : ℕ → Bytes
  pub now : ℕ → ℕ

-- `sent` are the texts that were handed to the adapter, in order.
pub record Chat : Type 0 where
  pub files : Files
  pub sent : List Bytes
  pub streamed : ℕ
  pub point : ℕ

abbrev pub aborted_record : Bytes → Record
aborted_record request_id = record {
  ts = [];
  kind = Kind.system;
  platform_message_id = [];
  author = record { id = []; label = [] };
  body = codes "previous turn aborted: adapter post failed";
  meta = record {
    mention = false;
    coalesced_into = [];
    reply_outcome = [];
    request_id = request_id;
    vendor_id = [];
    note = codes "previous-turn-aborted";
  };
}

abbrev pub bot_record : Bytes → Bytes → Bytes → Bytes → Bytes → Record
bot_record platform_message_id body outcome request_id vendor_id = record {
  ts = [];
  kind = Kind.bot;
  platform_message_id = platform_message_id;
  author = record { id = codes "bot"; label = codes "espur" };
  body = body;
  meta = record {
    mention = false;
    coalesced_into = [];
    reply_outcome = outcome;
    request_id = request_id;
    vendor_id = vendor_id;
    note = [];
  };
}

abbrev pub add_record : Host → MessageEvent → Record → Chat → Chat
add_record host m r chat = record chat {
  files =
      (append host.codec (host.append_fails chat.point) host.base_dir m.platform m.thread_id r
        chat.files).1;
  point = suc chat.point;
}

unfoldable pub append_bot_reply :
    Host → MessageEvent → Bytes → Bytes → Bytes → Bytes → Bytes → Bool → Chat → Chat
append_bot_reply host m platform_message_id body outcome request_id vendor_id failed chat =
    if failed && is_empty platform_message_id
    then add_record host m (aborted_record request_id) chat
    else add_record host m (bot_record platform_message_id body outcome request_id vendor_id) chat

-- A post and the record of it.
unfoldable pub say : Host → MessageEvent → Bytes → Bytes → Bytes → Bytes → Chat → Chat
unfolding append_bot_reply
say host m body outcome request_id vendor_id chat =
    let (platform_message_id, failed) = host.post chat.point m.thread_id body in
    append_bot_reply host m platform_message_id body outcome request_id vendor_id failed
      (record chat { sent = chat.sent ++ body ∷ []; point = suc chat.point })

abbrev pub request_id : Host → Chat → Bytes
request_id host chat = new_request_id (host.random chat.point)

abbrev pub say_crash : Host → MessageEvent → Bytes → Chat → Chat
say_crash host m vendor_id chat =
    let rid = request_id host chat in
    say host m (crash_reply rid) (codes "crash") rid vendor_id chat

unfoldable pub post_crash : Host → MessageEvent → Chat → Chat
unfolding say
post_crash host m chat =
    if not (host.poster chat.point)
    then chat
    else say_crash host m [] (record chat { point = suc chat.point })

-- The callback that posts each message as it is completed.
unfoldable pub stream : Host → MessageEvent → Bytes → Bytes → Chat → Chat
unfolding say
stream host m vendor_id text chat =
    say host m text (codes "success") [] vendor_id (record chat { streamed = suc chat.streamed })

abbrev pub reply_success : Host → MessageEvent → Result → Chat → Chat
reply_success host m res chat =
    if chat.streamed == 0 then say host m res.text (codes "success") [] res.vendor_id chat else chat

abbrev pub reply_for : Outcome → Host → MessageEvent → Result → Chat → Chat
reply_for outcome_success host m res chat = reply_success host m res chat
reply_for outcome_timeout host m res chat =
    say host m timeout_reply (codes "timeout") (request_id host chat) res.vendor_id chat
reply_for outcome_all_drained host m res chat =
    say host m (drained_reply res.penalized host.dashboard_url (host.now chat.point))
      (codes "drained") (request_id host chat) [] chat
reply_for outcome_crash host m res chat = say_crash host m res.vendor_id chat
reply_for outcome_unknown host m res chat = post_crash host m chat

-- The `switch` on the outcome of the pool.
unfoldable pub reply : Host → MessageEvent → Result → Chat → Chat
unfolding say post_crash
reply host m res chat = reply_for res.outcome host m res chat

abbrev pub drop_last : List Record → List Record
drop_last tail = take (length tail - 1) tail

-- The message itself is the last record of the tail, and is left out of the context.
unfoldable pub without_current : MessageEvent → List Record → List Record
without_current m tail = elim (last? tail) [
  | none ↦ tail
  | some r ↦ if same r.platform_message_id (message_key m) then drop_last tail else tail
]

abbrev pub context_tail : Host → MessageEvent → List Record → List Record
context_tail host m tail = last_n host.tail_n (without_current m tail)

abbrev pub user_message : Host → MessageEvent → List Record → Bytes
user_message host m tail =
    assemble (record { platform = m.platform; thread_id = m.thread_id; agents_md = host.agents_md })
      (context_tail host m tail) (record { author_label = m.author.label; body = m.body })

-- From the lookup of the adapter on.
unfoldable pub invoke_and_reply : Host → MessageEvent → List Record → World Chat → World Chat
unfolding stream reply
invoke_and_reply host m tail w =
    if not (host.poster w.sink.point)
    then w
    else (let r =
          run host.pool (some (stream host m))
            (thread_dir host.codec host.base_dir m.platform m.thread_id) (user_message host m tail)
            host.invoke_timeout
            (record w { sink = record w.sink { point = suc w.sink.point; streamed = 0 } }) in
        record r.world { sink = reply host m r.result r.world.sink })

-- `none` is a tail that could not be read.
abbrev pub after_tail : Host → MessageEvent → World Chat → Option (List Record) → World Chat
after_tail host m w none = record w { sink = post_crash host m w.sink }
after_tail host m w (some tail) = invoke_and_reply host m tail w

unfoldable pub handle_trigger : Host → MessageEvent → World Chat → World Chat
unfolding post_crash invoke_and_reply
handle_trigger host m w =
    if host.seed_fails
    then record w { sink = post_crash host m w.sink }
    else after_tail host m w (
        tail_user_messages host.codec host.tail_fails host.base_dir m.platform m.thread_id
          (host.tail_n + 1) w.sink.files)
