-- ===== src/Opencode/Examples.antt =====
-- A turn that reports one message three times, and the theorems at it.
use espur.Base.{
  ap, bytes_eq, pair_eq, ◌≡◌, refl, true, false, [], ◌∷◌, none, some, Bytes, codes, same, lookup,
  insert, trim_space, join,
}
use espur.Store.{empty_db}
use espur.Vendor.{invoke_success}
use espur.Vendor.Classify.{not_json}
use espur.Vendor.Pool.{Env, World}
use espur.Vendor.Pool.Walk.{run}
use espur.Vendor.Pool.Stream.{Heard, hear, From}
use espur.Opencode.{message_part_updated, message_updated, MsgInfo, Event, ApiMessage, message_text}
use espur.Opencode.Invoke.{
  sent, Session, consume_all, invoke, handle, reconcile, classify_failure, texts_of, finish, drain,
}
use espur.Opencode.Accumulator.{add_part, emit_text, assemble, emit_known, concat_parts}
use espur.Opencode.Served.{serve, served_one_voice}

abbrev part_of : Bytes → Event
part_of text = record {
  type = message_part_updated;
  part =
      some (record { id = codes "p1"; message_id = codes "m1"; type = codes "text"; text = text });
  info = none;
  error = [];
}

abbrev info_m1 : MsgInfo
info_m1 = record { id = codes "m1"; role = codes "assistant"; completed = 7; error = [] }

abbrev completed_m1 : Event
completed_m1 = record { type = message_updated; part = none; info = some info_m1; error = [] }

abbrev message_m1 : ApiMessage
message_m1 = record {
  info = info_m1;
  parts = record { type = codes "text"; text = codes "hello" } ∷ [];
}

abbrev good : Session
good = record {
  acquire_error = none;
  create_error = none;
  live =
      (part_of (codes "he"), false)
      ∷ (part_of (codes "hello"), false)
      ∷ (completed_m1, false)
      ∷ (completed_m1, false)
      ∷ [];
  send = some (sent message_m1);
  trailing = (completed_m1, false) ∷ [];
  list = some (message_m1 ∷ []);
}

good_result : (invoke true good).0 ≡ record {
  outcome = invoke_success;
  assistant_text = codes "hello";
  delivered = codes "hello" ∷ [];
  streamed = true;
  stdout = [];
  stderr = [];
  crash_reason = [];
}
unfolding invoke finish consume_all handle add_part emit_text emit_known assemble concat_parts drain
    reconcile message_text classify_failure texts_of lookup insert same trim_space join
good_result = refl

abbrev late : Session
late = record good { live = []; send = none }

late_quiet : (invoke true late).0.streamed ≡ false
unfolding invoke consume_all
late_quiet = refl

good_success : (invoke true good).0.outcome ≡ invoke_success
good_success = ap (λ r. r.outcome) good_result

abbrev env : Env
env = record {
  slot = true;
  now = λ n. n;
  fails = λ n. false;
  jitter = λ n d. d;
  decrypt = λ n b. some b;
  decode = λ l. not_json;
  invoke = λ n q db. ((invoke true late).0, false, db);
}

abbrev start : World Heard
start = record {
  db = record empty_db {
    vendors =
        (
          codes "kimi",
          record {
            vendor_id = codes "kimi";
            model = codes "m";
            enabled = true;
            position = 0;
            cred_kind = [];
          },
        )
        ∷ [];
  };
  point = 0;
  sink = [];
  calls = [];
}

served_one_voice_example :
    let r = run (serve (λ n q. good) (λ n db. db) env) hear [] [] 5 start in
    From r.result.vendor_id r.world.sink
served_one_voice_example = served_one_voice (λ n q. good) (λ n db. db) env [] [] 5 start refl
