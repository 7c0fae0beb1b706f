-- ===== src/Bot/Turn/Replies.antt =====
-- How many replies a turn posts.
use espur.Base.{
  ℕ, suc, ◌+◌, max, ◌≤◌, ◌≡◌, refl, ap, ◌∙◌, true, not, List, [], ◌∷◌, ◌++◌, Option, none, some,
  Bytes, codes, length, length-append, append-nil, append_assoc, ==_iff, sym, ◌≢◌, ◌⊎◌, inl, inr,
  if_rule, if_false, ◌==◌, arith,
}
use espur.Vendor.{
  Result, Outcome, outcome_unknown, outcome_success, outcome_timeout, outcome_all_drained,
  outcome_crash,
}
use espur.Vendor.Pool.{World, Run}
use espur.Vendor.Pool.Walk.{run}
use espur.Vendor.Pool.Sink.{run-Kept}
use espur.Transcript.{Record, thread_dir}
use espur.Bot.{MessageEvent}
use espur.Bot.Reply.{crash_reply, timeout_reply, drained_reply}
use espur.Bot.Turn.{
  Host, Chat, append_bot_reply, say, post_crash, stream, reply_for, reply, user_message,
  invoke_and_reply, after_tail, handle_trigger, request_id,
}

-- How many texts a turn posts, by its outcome and the number of streamed ones.
abbrev pub posts_of : Outcome → ℕ → ℕ
posts_of outcome_success streamed = max 1 streamed
posts_of _ streamed = suc streamed

posts_of-pos : (o : Outcome) (n : ℕ) → 1 ≤ posts_of o n
posts_of-pos o n = ground arith

module _ (host : Host) (m : MessageEvent) where
  say-sent :
      (body outcome rid vendor_id : Bytes) (chat : Chat)
      → ((say host m body outcome rid vendor_id chat).sent ≡ chat.sent ++ body ∷ [])
        × ((say host m body outcome rid vendor_id chat).streamed ≡ chat.streamed)
  unfolding say append_bot_reply
  say-sent body outcome rid vendor_id chat =
      if_rule (λ (c : Chat). (c.sent ≡ chat.sent ++ body ∷ []) × (c.streamed ≡ chat.streamed)) _
        (λ _. (refl, refl)) (λ _. (refl, refl))

  say-length :
      (body outcome rid vendor_id : Bytes) (chat : Chat)
      → length (say host m body outcome rid vendor_id chat).sent ≡ suc (length chat.sent)
  say-length body outcome rid vendor_id chat =
      ap length (say-sent body outcome rid vendor_id chat).0
      ∙ omega (arith, length-append chat.sent (body ∷ []))

  post_crash-length :
      (chat : Chat)
      → host.poster chat.point ≡ true
      → length (post_crash host m chat).sent ≡ suc (length chat.sent)
  unfolding post_crash
  post_crash-length chat h =
      ap (λ (c : Chat). length c.sent) (if_false chat _ (ap not h))
      ∙ say-length _ (codes "crash") _ [] (record chat { point = suc chat.point })

  -- The posts of a turn before its end are those of the stream.
  abbrev Counted : ℕ → Chat → Type 0
  Counted n chat = length chat.sent ≡ n + chat.streamed

  stream-Counted :
      (n : ℕ) (vendor_id text : Bytes) (chat : Chat)
      → Counted n chat
      → Counted n (stream host m vendor_id text chat)
  unfolding stream
  stream-Counted n vendor_id text chat h =
      let next : Chat = record chat { streamed = suc chat.streamed } in
      omega (
        arith,
        h,
        say-length text (codes "success") [] vendor_id next,
        (say-sent text (codes "success") [] vendor_id next).1,
      )

  reply_for-length :
      (o : Outcome) (res : Result) (n : ℕ) (chat : Chat)
      → Counted n chat
      → ((p : ℕ) → host.poster p ≡ true)
      → length (reply_for o host m res chat).sent ≡ n + posts_of o chat.streamed
  reply_for-length outcome_success res n chat h up =
      if_rule (λ (c : Chat). length c.sent ≡ n + max 1 chat.streamed) (chat.streamed == 0)
        {y = chat}
        (λ quiet. ground (arith, say-length res.text (codes "success") [] res.vendor_id chat))
        (λ spoke. ground arith)
  reply_for-length outcome_timeout res n chat h up = omega (
    arith,
    h,
    say-length timeout_reply (codes "timeout") (request_id host chat) res.vendor_id chat,
  )
  reply_for-length outcome_all_drained res n chat h up = omega (
    arith,
    h,
    say-length (drained_reply res.penalized host.dashboard_url (host.now chat.point))
        (codes "drained") (request_id host chat) [] chat,
  )
  reply_for-length outcome_crash res n chat h up = omega (
    arith,
    h,
    say-length (crash_reply (request_id host chat)) (codes "crash") (request_id host chat)
        res.vendor_id chat,
  )
  reply_for-length outcome_unknown res n chat h up =
      omega (arith, h, post_crash-length chat (up chat.point))

  -- The run of the pool within a turn.
  abbrev pub turn_run : List Record → World Chat → Run Chat
  turn_run tail w =
      run host.pool (some (stream host m))
        (thread_dir host.codec host.base_dir m.platform m.thread_id) (user_message host m tail)
        host.invoke_timeout
        (record w { sink = record w.sink { point = suc w.sink.point; streamed = 0 } })

  -- How many texts a turn posts that runs the pool.
  length-invoke_and_reply :
      (tail : List Record) (w : World Chat)
      → ((p : ℕ) → host.poster p ≡ true)
      → let r = turn_run tail w in
        length (invoke_and_reply host m tail w).sink.sent
        ≡ length w.sink.sent + posts_of r.result.outcome r.world.sink.streamed
  unfolding invoke_and_reply reply
  length-invoke_and_reply tail w up =
      let r = turn_run tail w in
      ap (λ (v : World Chat). length v.sink.sent) (if_false w _ (ap not (up w.sink.point)))
      ∙ reply_for-length r.result.outcome r.result (length w.sink.sent) r.world.sink
          (run-Kept host.pool (stream host m) (Counted (length w.sink.sent))
            (stream-Counted (length w.sink.sent))
            (thread_dir host.codec host.base_dir m.platform m.thread_id) (user_message host m tail)
            host.invoke_timeout _ (omega arith))
          up

  -- What is posted after a run, by its outcome.
  abbrev pub IsReply : Outcome → Result → ℕ → List Bytes → Type 0
  IsReply outcome_success res n posts =
      ((n ≡ 0) × (posts ≡ res.text ∷ [])) ⊎ ((n ≢ 0) × (posts ≡ []))
  IsReply outcome_timeout res n posts = posts ≡ timeout_reply ∷ []
  IsReply outcome_all_drained res n posts =
      (now : ℕ) × (posts ≡ drained_reply res.penalized host.dashboard_url now ∷ [])
  IsReply outcome_crash res n posts = (rid : Bytes) × (posts ≡ crash_reply rid ∷ [])
  IsReply outcome_unknown res n posts = (rid : Bytes) × (posts ≡ crash_reply rid ∷ [])

  reply_for-IsReply :
      (o : Outcome) (res : Result) (chat : Chat)
      → ((p : ℕ) → host.poster p ≡ true)
      → (posts : List Bytes) × ((reply_for o host m res chat).sent ≡ chat.sent ++ posts)
        × IsReply o res chat.streamed posts
  reply_for-IsReply outcome_success res chat up =
      if_rule
        (λ (c : Chat).
          (posts : List Bytes) × (c.sent ≡ chat.sent ++ posts)
          × IsReply outcome_success res chat.streamed posts)
        (chat.streamed == 0) {y = chat}
        (λ quiet. (
          res.text ∷ [],
          (say-sent res.text (codes "success") [] res.vendor_id chat).0,
          inl (ground (arith, ==_iff chat.streamed 0), refl),
        ))
        (λ spoke. (
          [],
          sym (append-nil chat.sent),
          inr ((λ e. absurd (ground (arith, ==_iff chat.streamed 0))), refl),
        ))
  reply_for-IsReply outcome_timeout res chat up = (
    timeout_reply ∷ [],
    (say-sent timeout_reply (codes "timeout") (request_id host chat) res.vendor_id chat).0,
    refl,
  )
  reply_for-IsReply outcome_all_drained res chat up =
      let text = drained_reply res.penalized host.dashboard_url (host.now chat.point) in
      (
        text ∷ [],
        (say-sent text (codes "drained") (request_id host chat) [] chat).0,
        (host.now chat.point, refl),
      )
  reply_for-IsReply outcome_crash res chat up =
      let rid = request_id host chat in
      (
        crash_reply rid ∷ [],
        (say-sent (crash_reply rid) (codes "crash") rid res.vendor_id chat).0,
        (rid, refl),
      )
  reply_for-IsReply outcome_unknown res chat up =
      let next : Chat = record chat { point = suc chat.point } in
      let rid = request_id host next in
      (
        crash_reply rid ∷ [],
        unfold post_crash in
            (ap (λ (c : Chat). c.sent) (if_false chat _ (ap not (up chat.point)))
              ∙ (say-sent (crash_reply rid) (codes "crash") rid [] next).0),
        (rid, refl),
      )

  -- What was posted since the texts `before` is what was streamed, in order.
  abbrev Told : List Bytes → Chat → Type 0
  Told before chat =
      (texts : List Bytes) × (chat.sent ≡ before ++ texts) × (length texts ≡ chat.streamed)

  stream-Told :
      (before : List Bytes) (vendor_id text : Bytes) (chat : Chat)
      → Told before chat
      → Told before (stream host m vendor_id text chat)
  unfolding stream
  stream-Told before vendor_id text chat (texts, e, n) =
      let next : Chat = record chat { streamed = suc chat.streamed } in
      let said = say-sent text (codes "success") [] vendor_id next in
      (
        texts ++ text ∷ [],
        said.0 ∙ (ap (λ l. l ++ text ∷ []) e ∙ append_assoc before texts (text ∷ [])),
        omega (arith, n, said.1, length-append texts (text ∷ [])),
      )

  stream-sent :
      (vendor_id text : Bytes) (chat : Chat)
      → (stream host m vendor_id text chat).sent ≡ chat.sent ++ text ∷ []
  unfolding stream
  stream-sent vendor_id text chat =
      (say-sent text (codes "success") [] vendor_id
        (record chat { streamed = suc chat.streamed })).0

  -- Where the platform has an adapter, a turn that runs the pool posts each message as it is streamed
  -- and nothing else during the run; after the run it posts what the outcome asks for: a success its
  -- text if nothing was streamed, and else nothing; a timeout, the exhaustion of the vendors and a
  -- crash each its own reply, and an outcome that is not known the reply of a crash.
  pub invoke_and_reply_lem :
      (tail : List Record) (w : World Chat)
      → ((p : ℕ) → host.poster p ≡ true)
      → let r = turn_run tail w in
        let n = r.world.sink.streamed in
        ((vendor_id text : Bytes) (chat : Chat)
          → (stream host m vendor_id text chat).sent ≡ chat.sent ++ text ∷ [])
        × ((texts posts : List Bytes) × ((invoke_and_reply host m tail w).sink.sent
              ≡ (w.sink.sent ++ texts) ++ posts)
            × (length texts ≡ n)
            × IsReply r.result.outcome r.result n posts)
  unfolding invoke_and_reply reply
  invoke_and_reply_lem tail w up =
      let r = turn_run tail w in
      let (texts, told, count) =
        run-Kept host.pool (stream host m) (Told w.sink.sent) (stream-Told w.sink.sent)
          (thread_dir host.codec host.base_dir m.platform m.thread_id) (user_message host m tail)
          host.invoke_timeout
          (record w { sink = record w.sink { point = suc w.sink.point; streamed = 0 } })
          ([], sym (append-nil w.sink.sent), refl) in
      let (posts, sent, is) = reply_for-IsReply r.result.outcome r.result r.world.sink up in
      (
        stream-sent,
        (
          texts,
          posts,
          ap (λ (v : World Chat). v.sink.sent) (if_false w _ (ap not (up w.sink.point)))
              ∙ (sent ∙ ap (λ l. l ++ posts) told),
          count,
          is,
        ),
      )

  after_tail_answers :
      (w : World Chat)
      → ((p : ℕ) → host.poster p ≡ true)
      → (o : Option (List Record))
      → suc (length w.sink.sent) ≤ length (after_tail host m w o).sink.sent
  after_tail_answers w up none = omega (arith, post_crash-length w.sink (up w.sink.point))
  after_tail_answers w up (some tail) =
      let r = turn_run tail w in
      omega (
        arith,
        length-invoke_and_reply tail w up,
        posts_of-pos r.result.outcome r.world.sink.streamed,
      )

  -- Where the platform has an adapter, every trigger is answered: also where the directory cannot be
  -- seeded, the transcript cannot be read, or the pool reports no outcome, at least one text is posted.
  pub handle_trigger_answers :
      (w : World Chat)
      → ((p : ℕ) → host.poster p ≡ true)
      → suc (length w.sink.sent) ≤ length (handle_trigger host m w).sink.sent
  unfolding handle_trigger
  handle_trigger_answers w up =
      if_rule (λ (v : World Chat). suc (length w.sink.sent) ≤ length v.sink.sent) host.seed_fails
        (λ _. omega (arith, post_crash-length w.sink (up w.sink.point)))
        (λ _. after_tail_answers w up _)
