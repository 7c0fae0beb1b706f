-- ===== src/Adapter/Examples.antt =====
-- Runs of the adapters.
use espur.Base.{
  ◌≡◌, refl, ap, true, false, [], ◌∷◌, ◌++◌, Option, some, Bytes, codes, take, length, bytes_eq,
  same, arith, ltb, drop, if◌then◌else◌,
}
use espur.Adapter.Typing.{
  Move, new_typing_state, run_loop, start_loop, step_loop, idle, begin_post, end_post,
}
use espur.Adapter.Send.{Sent, Platform, Wire, post_chunks, PostsInOrder, post_in_order}
use espur.Adapter.Events.{Room}
use espur.Adapter.Discord.{digits, mention_at, strip_mentions}
use espur.Adapter.Wechat.{
  Poll, Json, Session, Store, WeixinMessage, monitor, load_session, no_session,
}
use espur.Adapter.Wechat
use espur.Adapter.Wechat.Sessions.{goes_on, expired_forces_login}

-- Two failures, then success; the context never ends.
abbrev flaky : Platform
flaky = record {
  answer = λ n. if ltb n 2 then Sent.failed else Sent.delivered (codes "m");
  ends = λ _. false;
}

abbrev fresh : Wire
fresh = record { calls = 0; log = [] }

-- A post that begins between the check and the call is fired over.
fires_over_post :
    (run_loop true
      (Move.begins ∷ Move.fires_now ∷ Move.ticks ∷ Move.ends ∷ Move.wakes ∷ [])
      (start_loop new_typing_state)).fires
    ≡ 1 ∷ []
unfolding run_loop start_loop step_loop idle begin_post end_post new_typing_state
fires_over_post = refl

post_in_order_example :
    PostsInOrder
      (codes "a" ∷ codes "b" ∷ [])
      fresh
      (post_chunks true (λ _. false) flaky 0 [] (codes "a" ∷ codes "b" ∷ []) fresh)
post_in_order_example =
    post_in_order true (λ _. false) flaky 0 [] (codes "a" ∷ codes "b" ∷ []) fresh

-- Only the bot's own mention is taken out, in both its forms.
strip_mentions_test : strip_mentions 20 (codes "12") (codes "<@12> a <@!12><@3>") ≡ codes " a <@3>"
unfolding strip_mentions mention_at digits same
strip_mentions_test = refl

field : Bytes → Bytes × Bytes
field [] = ([], [])
field (n ∷ s) = (take n s, drop n s)

put : Bytes → Bytes → Bytes
put f rest = length f ∷ f ++ rest

take_here : (f rest : Bytes) → take (length f) (f ++ rest) ≡ f
take_here [] rest = refl
take_here (c ∷ f) rest = ap (◌∷◌ c) (take_here f rest)

drop_here : (f rest : Bytes) → drop (length f) (f ++ rest) ≡ rest
drop_here [] rest = refl
drop_here (c ∷ f) rest = drop_here f rest

field-put : (f rest : Bytes) → ◌≡◌ {A = Bytes × Bytes} (field (put f rest)) (f, rest)
unfolding field put
field-put f rest = λ i. (take_here f rest i, drop_here f rest i)

decode_fields : Bytes → Option Session
decode_fields b =
    let a = field b in
    let c = field a.1 in
    let d = field c.1 in
    let e = field d.1 in
    let f = field e.1 in
    some (record { bot_token = a.0; bot_id = c.0; user_id = d.0; base_url = e.0; cursor = f.0 })

encode_fields : Session → Bytes
encode_fields s = put s.bot_token (put s.bot_id (put s.user_id (put s.base_url (put s.cursor []))))

decode_fields-encode : (s : Session) → decode_fields (encode_fields s) ≡ some s
unfolding decode_fields encode_fields
decode_fields-encode s =
    let e = field-put s.cursor [] in
    let d = field-put s.base_url (put s.cursor []) in
    let c = field-put s.user_id (put s.base_url (put s.cursor [])) in
    let b = field-put s.bot_id (put s.user_id (put s.base_url (put s.cursor []))) in
    let a =
      field-put s.bot_token (put s.bot_id (put s.user_id (put s.base_url (put s.cursor [])))) in
    ground (arith, a, b, c, d, e)

-- A session as its fields, each after its length.
abbrev json : Json
json = record {
  encode = encode_fields;
  decode = decode_fields;
  decode-encode = decode_fields-encode;
}

abbrev roomy : Room
roomy = record { first = true; second = true }

abbrev hello : WeixinMessage
hello = record {
  from_bot = false;
  group_id = [];
  from_user_id = codes "ann";
  message_id = codes "7";
  context_token = codes "t";
  text = codes "@bot hi";
  item_list = [];
}

abbrev wechat : espur.Adapter.Wechat.Adapter
wechat =
    record (espur.Adapter.Wechat.new_adapter []
      (record { blob = []; load_fails = false; save_fails = false })) { started = true }

expired_forces_login_example :
    let a' =
      monitor json roomy
        (Poll.message hello ∷ Poll.cursor (codes "c") ∷ Poll.expired ∷ [])
        wechat in
    (a'.healthy ≡ false) × (load_session json a'.store ≡ no_session)
unfolding goes_on espur.Adapter.Wechat.new_adapter
expired_forces_login_example =
    expired_forces_login json roomy (Poll.message hello ∷ Poll.cursor (codes "c") ∷ []) [] wechat
      (refl, (refl, tt)) refl
