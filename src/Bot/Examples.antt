-- ===== src/Bot/Examples.antt =====
-- Two messages to one thread and a shutdown, a turn that streams, and the theorems at them.
use espur.Base.{
  ◌*◌, ◌≤◌, ◌≡◌, refl, Bool, true, false, List, [], ◌∷◌, ◌++◌, none, some, Bytes, codes, same,
  length, lookup, insert, delete, bytes_eq, is_some,
}
use espur.Store.{empty_db, auth_locked, cooldown, second}
use espur.Vendor.{PenalizedSnapshot, InvokeResult, invoke_success}
use espur.Vendor.Classify.{not_json}
use espur.Vendor.Pool.{World}
use espur.Transcript.{Codec}
use espur.Bot.{MessageEvent, queue_key}
use espur.Bot.Queue.{
  new_core, Move, enqueued, trigger_returned, worker_done, stop_accepting, run_moves, queue_of,
  note_of, step, enqueue, turn_to, leave, after_trigger,
}
use espur.Bot.Queue.Invariant.{workers_at, slots, run_moves_serial}
use espur.Bot.Queue.Drain.{
  drained_idle, stopped_starts_nothing, returns, dones, drain_ends, burst_newest_wins,
}
use espur.Bot.Dispatch.{Inbox, Weather, on_message, on_message-redelivered}
use espur.Bot.Reply.{humanize_duration, new_request_id, digits, decimal, id_digits, big_endian}
use espur.Bot.Turn.{Host, Chat, invoke_and_reply, handle_trigger}
use espur.Bot.Turn.Replies.{turn_run, IsReply, invoke_and_reply_lem, handle_trigger_answers}

abbrev says : Bytes → Bool → MessageEvent
says id mention = record {
  platform = codes "d";
  thread_id = codes "t";
  platform_message_id = id;
  author = record { id = codes "u"; label = codes "ann" };
  body = codes "hi";
  mention = mention;
}

abbrev one : MessageEvent
one = says (codes "1") true

abbrev two : MessageEvent
two = says (codes "2") true

abbrev three : MessageEvent
three = says (codes "3") true

abbrev key : Bytes
key = queue_key one

-- The second of three messages is folded into the third, which waits when the core stops.
abbrev busy : List Move
busy = enqueued one ∷ enqueued two ∷ enqueued three ∷ stop_accepting ∷ []

abbrev over : List Move
over = enqueued one ∷ trigger_returned key ∷ worker_done ∷ []

started_busy : (run_moves busy new_core).started ≡ one ∷ []
unfolding run_moves step enqueue lookup insert same
started_busy = refl

run_moves_serial_example :
    (workers_at key (run_moves busy new_core).active ≤ 1)
    × (workers_at key (run_moves busy new_core).active
        ≡ slots (lookup key (run_moves busy new_core).queues))
run_moves_serial_example = run_moves_serial busy key

over_idle : (run_moves over new_core).inflight ≡ 0
unfolding run_moves step enqueue after_trigger turn_to leave lookup insert delete same
over_idle = refl

drained_idle_example :
    ((run_moves over new_core).active ≡ []) × (lookup key (run_moves over new_core).queues ≡ none)
drained_idle_example =
    (((drained_idle over key).0.0 over_idle).0, (drained_idle over key).1 over_idle)

busy_stopped : (run_moves busy new_core).stopped ≡ true
unfolding run_moves step enqueue lookup insert same
busy_stopped = refl

stopped_starts_nothing_example :
    ((run_moves (trigger_returned key ∷ enqueued two ∷ []) (run_moves busy new_core)).started
      ≡ (run_moves busy new_core).started)
    × ((run_moves (trigger_returned key ∷ enqueued two ∷ []) (run_moves busy new_core)).stopped
        ≡ true)
stopped_starts_nothing_example =
    stopped_starts_nothing (trigger_returned key ∷ enqueued two ∷ []) (run_moves busy new_core)
      busy_stopped

drain_ends_example :
    let c = run_moves busy new_core in
    (run_moves (returns c.active ++ dones c.inflight) c).inflight ≡ 0
drain_ends_example = drain_ends busy busy_stopped

abbrev first_only : List Move
first_only = enqueued one ∷ []

first_accepting : (run_moves first_only new_core).stopped ≡ false
unfolding run_moves step enqueue lookup insert same
first_accepting = refl

first_at_work : is_some (lookup (queue_key two) (run_moves first_only new_core).active) ≡ true
unfolding run_moves step enqueue lookup insert same
first_at_work = refl

burst_newest_wins_example :
    let c = run_moves first_only new_core in
    let d = step (trigger_returned key) (enqueue three (enqueue two c)) in
    (d.started ≡ c.started ++ three ∷ [])
    × (d.notes ≡ (c.notes ++ note_of (queue_of key c).coalesce two) ++ (two, three) ∷ [])
    × ((queue_of key d).coalesce ≡ none)
burst_newest_wins_example =
    burst_newest_wins first_only two three first_accepting first_at_work refl

abbrev codec : Codec
codec = record {
  marshal = λ r. some r.body;
  unmarshal = λ line. none;
  join_path = λ ps. [];
  base64 = λ s. s;
  sha256_hex = λ s. s;
  now_text = codes "now";
}

abbrev inbox : Inbox
inbox = record { db = empty_db; files = []; core = new_core }

abbrev fine : Weather
fine = record { now = second; db_fails = false; append_fails = false }

on_message-redelivered_example :
    let s' = on_message codec [] fine one inbox in
    on_message codec [] fine (record one { body = codes "hi again" }) s' ≡ s'
on_message-redelivered_example =
    on_message-redelivered codec [] fine fine one (record one { body = codes "hi again" }) inbox
      refl refl refl refl

abbrev snaps : List PenalizedSnapshot
snaps =
    record { vendor_id = codes "zai"; status = auth_locked; cooldown_until = none }
    ∷ record { vendor_id = codes "kimi"; status = cooldown; cooldown_until = some (200 * second) }
    ∷ []

humanize_90s : humanize_duration (90 * second) ≡ codes "2m"
unfolding humanize_duration decimal digits
humanize_90s = refl

request_id_of : new_request_id (0 ∷ 0 ∷ 0 ∷ 0 ∷ 255 ∷ []) ≡ codes "0000007Z"
unfolding new_request_id id_digits big_endian
request_id_of = refl

abbrev answered : InvokeResult
answered = record {
  outcome = invoke_success;
  assistant_text = codes "b";
  delivered = codes "a" ∷ codes "b" ∷ [];
  streamed = true;
  stdout = [];
  stderr = [];
  crash_reason = [];
}

abbrev host : Host
host = record {
  pool = record {
    slot = true;
    now = λ n. n;
    fails = λ n. false;
    jitter = λ n d. d;
    decrypt = λ n b. some b;
    decode = λ l. not_json;
    invoke = λ n q db. (answered, false, db);
  };
  codec = codec;
  base_dir = [];
  dashboard_url = [];
  invoke_timeout = 120 * second;
  tail_n = 15;
  seed_fails = false;
  tail_fails = false;
  agents_md = [];
  poster = λ n. true;
  post = λ n thread text. (codes "p", false);
  append_fails = λ n. false;
  random = λ n. 1 ∷ 2 ∷ 3 ∷ 4 ∷ 5 ∷ [];
  now = λ n. n;
}

abbrev quiet : World Chat
quiet = record {
  db = record empty_db {
    vendors =
        (
          codes "kimi",
          record {
            vendor_id = codes "kimi";
            model = codes "m";
            enabled = true;
            position = 0;
            cred_kind = [];
          },
        )
        ∷ [];
  };
  point = 0;
  sink = record { files = []; sent = []; streamed = 0; point = 0 };
  calls = [];
}

invoke_and_reply_lem_example :
    let r = turn_run host one [] quiet in
    let n = r.world.sink.streamed in
    (texts posts : List Bytes) × ((invoke_and_reply host one [] quiet).sink.sent
      ≡ (quiet.sink.sent ++ texts) ++ posts)
    × (length texts ≡ n)
    × IsReply host one r.result.outcome r.result n posts
invoke_and_reply_lem_example = (invoke_and_reply_lem host one [] quiet (λ p. refl)).1

handle_trigger_answers_example : 1 ≤ length (handle_trigger host one quiet).sink.sent
handle_trigger_answers_example = handle_trigger_answers host one quiet (λ p. refl)
