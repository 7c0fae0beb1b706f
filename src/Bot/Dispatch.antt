-- ===== src/Bot/Dispatch.antt =====
-- internal/bot/bot.go: Dispatch and onMessage, from an adapter's event to the queues. Whether a call
-- of the database or of the file system fails is an argument.
use espur.Base.{
  ℕ, ◌≡◌, refl, ap, ◌∙◌, inl, inr, Bool, true, false, not, [], Bytes, if◌then◌else◌, if_rule,
  if_true, if_false, subst, sym, lookup, lookup-insert_self, bytes_eq, pair_eq, arith, Option-cases,
  is_some,
}
use espur.Store.{Db, unix}
use espur.Store.Dedup.{seen_message}
use espur.Transcript.{Record, Kind, Codec, Files, append}
use espur.Bot.{MessageEvent, message_key}
use espur.Bot.Queue.{Core, enqueue}

-- A change of the transport's state is only logged.
pub data Event : Type 0 where
  message : MessageEvent → Event
  lifecycle : Bytes → Event

pub record Inbox : Type 0 where
  pub db : Db
  pub files : Files
  pub core : Core

-- What the calls meet that one event leads to.
pub record Weather : Type 0 where
  pub now : ℕ
  pub db_fails : Bool
  pub append_fails : Bool

abbrev pub user_record : MessageEvent → Record
user_record m = record {
  ts = [];
  kind = Kind.user;
  platform_message_id = message_key m;
  author = m.author;
  body = m.body;
  meta = record {
    mention = m.mention;
    coalesced_into = [];
    reply_outcome = [];
    request_id = [];
    vendor_id = [];
    note = [];
  };
}

abbrev pub routed : MessageEvent → Bool × Files → Inbox → Inbox
routed m (ok, files) s =
    let s' = record s { files = files } in
    if not ok then s' else if not m.mention then s' else record s' { core = enqueue m s.core }

abbrev pub accept : Codec → Bytes → Weather → MessageEvent → Inbox → Inbox
accept codec base_dir weather m s =
    routed m
      (append codec weather.append_fails base_dir m.platform m.thread_id (user_record m) s.files) s

unfoldable pub on_message : Codec → Bytes → Weather → MessageEvent → Inbox → Inbox
on_message codec base_dir weather m s =
    let seen = seen_message weather.now m.platform m.platform_message_id s.db in
    let s' = record s { db = seen.1 } in
    if s.core.stopped
    then s
    else if weather.db_fails
    then s
    else if not seen.0
    then s'
    else accept codec base_dir weather m s'

unfoldable pub dispatch : Codec → Bytes → Weather → Event → Inbox → Inbox
unfolding on_message
dispatch codec base_dir weather (message m) s = on_message codec base_dir weather m s
dispatch codec base_dir weather (lifecycle kind) s = s

seen_after :
    (now : ℕ) (platform id : Bytes) (db : Db)
    → is_some (lookup (platform, id) (seen_message now platform id db).1.dedup) ≡ true
unfolding seen_message
seen_after now platform id db = elim (Option-cases (lookup (platform, id) db.dedup)) [
  | inl e ↦ ground (arith, lookup-insert_self (platform, id) (unix now) db.dedup)
  | inr (t, e) ↦ ground arith
]

seen_again :
    (now : ℕ) (platform id : Bytes) (db : Db)
    → is_some (lookup (platform, id) db.dedup) ≡ true
    → seen_message now platform id db ≡ (false, db)
unfolding seen_message
seen_again now platform id db h = ground arith

db-accept :
    (codec : Codec) (base_dir : Bytes) (weather : Weather) (m : MessageEvent) (s : Inbox)
    → (accept codec base_dir weather m s).db ≡ s.db
db-accept codec base_dir weather m s =
    let a =
      append codec weather.append_fails base_dir m.platform m.thread_id (user_record m) s.files in
    if_rule (λ (t : Inbox). t.db ≡ s.db) (not a.0) (λ _. refl)
      (λ _. if_rule (λ (t : Inbox). t.db ≡ s.db) (not m.mention) (λ _. refl) (λ _. refl))

seen_by :
    (codec : Codec) (base_dir : Bytes) (weather : Weather) (m : MessageEvent) (s : Inbox)
    → s.core.stopped ≡ false
    → weather.db_fails ≡ false
    → is_some (
        lookup (m.platform, m.platform_message_id) (on_message codec base_dir weather m s).db.dedup)
      ≡ true
unfolding on_message
seen_by codec base_dir weather m s up ok =
    let key : Bytes × Bytes = (m.platform, m.platform_message_id) in
    let seen = seen_message weather.now m.platform m.platform_message_id s.db in
    let known = seen_after weather.now m.platform m.platform_message_id s.db in
    subst (λ (t : Inbox). is_some (lookup key t.db.dedup) ≡ true)
      (sym (if_false _ _ up ∙ if_false _ _ ok))
      (if_rule (λ (t : Inbox). is_some (lookup key t.db.dedup) ≡ true) (not seen.0) (λ _. known)
        (λ _.
          subst (λ (d : Db). is_some (lookup key d.dedup) ≡ true)
            (sym (db-accept codec base_dir weather m (record s { db = seen.1 }))) known))

-- A redelivery changes nothing: after a message has been taken up, by a core that accepts and with
-- the database at work, another delivery under the same platform and message id leaves the tables,
-- the transcript and the queues as they are, whatever its text and at whatever time it comes.
pub on_message-redelivered :
    (codec : Codec) (base_dir : Bytes) (weather later : Weather) (m again : MessageEvent)
    (s : Inbox)
    → s.core.stopped ≡ false
    → weather.db_fails ≡ false
    → again.platform ≡ m.platform
    → again.platform_message_id ≡ m.platform_message_id
    → let s' = on_message codec base_dir weather m s in
      on_message codec base_dir later again s' ≡ s'
unfolding on_message
on_message-redelivered codec base_dir weather later m again s up ok p i =
    let s' = on_message codec base_dir weather m s in
    let known = seen_by codec base_dir weather m s up ok in
    let old : seen_message later.now again.platform again.platform_message_id s'.db
        ≡ (false, s'.db) =
      seen_again later.now again.platform again.platform_message_id s'.db
        (subst (λ q. is_some (lookup q s'.db.dedup) ≡ true) (λ j. (sym p j, sym i j)) known) in
    if_rule (λ t. t ≡ s') s'.core.stopped (λ _. refl)
      (λ _.
        if_rule (λ t. t ≡ s') later.db_fails (λ _. refl) (λ _. if_false_seen s' later again old))
  where
    if_false_seen :
        (t : Inbox) (w : Weather) (n : MessageEvent)
        → seen_message w.now n.platform n.platform_message_id t.db ≡ (false, t.db)
        → (if not (seen_message w.now n.platform n.platform_message_id t.db).0
            then record t { db = (seen_message w.now n.platform n.platform_message_id t.db).1 }
            else accept codec base_dir w n
                (record t { db = (seen_message w.now n.platform n.platform_message_id t.db).1 }))
          ≡ t
    if_false_seen t w n e =
        if_true _ _ (ap (λ (r : Bool × Db). not r.0) e)
        ∙ ap (λ (r : Bool × Db). record t { db = r.1 }) e

core-routed :
    (m : MessageEvent) (r : Bool × Files) (s : Inbox)
    → m.mention ≡ false
    → (routed m r s).core ≡ s.core
core-routed m (ok, files) s quiet =
    let kept : Inbox = record s { files = files } in
    let P : Inbox → Type 0 = λ t. t.core ≡ s.core in
    if_rule P (not ok) {x = kept} (λ _. refl)
      (λ _.
        if_rule P (not m.mention) {x = kept} {y = record kept { core = enqueue m s.core }}
          (λ _. refl) (λ loud. absurd (ground arith)))

-- A message that does not mention the bot never reaches the queues.
pub core-on_message :
    (codec : Codec) (base_dir : Bytes) (weather : Weather) (m : MessageEvent) (s : Inbox)
    → m.mention ≡ false
    → (on_message codec base_dir weather m s).core ≡ s.core
unfolding on_message
core-on_message codec base_dir weather m s quiet =
    let P : Inbox → Type 0 = λ t. t.core ≡ s.core in
    if_rule P s.core.stopped (λ _. refl)
      (λ _.
        if_rule P weather.db_fails (λ _. refl)
          (λ _.
            if_rule P (not (seen_message weather.now m.platform m.platform_message_id s.db).0)
              (λ _. refl)
              (λ _.
                core-routed m
                  (append codec weather.append_fails base_dir m.platform m.thread_id (user_record m)
                    s.files)
                  (record s {
                    db = (seen_message weather.now m.platform m.platform_message_id s.db).1;
                  })
                  quiet)))
