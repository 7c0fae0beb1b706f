-- ===== src/Adapter/Send.antt =====
-- The outbound side of internal/adapter/discord/discord.go and internal/adapter/wechat/wechat.go:
-- one chunk with its retries, and a body in chunks. The platform is an argument: what it answers to
-- the n-th call. Whether the context ends during a wait is an argument as well.
use espur.Base.{
  ℕ, zero, suc, ◌⊎◌, inl, inr, ◌≢◌, ◌+◌, ◌≤◌, ◌≡◌, refl, ◌∙◌, sym, ap, Bool, true, false, List, [],
  ◌∷◌, ◌++◌, Option, none, some, Bytes, length, ◌==◌, ◌&&◌, if◌then◌else◌, if_rule, append-nil,
  append_assoc, bytes_eq, arith,
}

pub data Sent : Type 0 where
  delivered : Bytes → Sent
  thread_gone failed : Sent

-- `answer n` is the platform's answer to the n-th call, `ends n` whether the context ends in the
-- wait after it.
pub record Platform : Type 0 where
  pub answer : ℕ → Sent
  pub ends : ℕ → Bool

-- How many calls were made, and for each, oldest first, its text and whether the platform answered
-- with an id. A call that failed may still have delivered its text.
pub record Wire : Type 0 where
  pub calls : ℕ
  pub log : List (Bytes × Bool)

pub data SendError : Type 0 where
  gone transient cancelled not_started : SendError

pub data SendResult : Type 0 where
  sent : Bytes → SendResult
  refused : SendError → SendResult

-- postBackoff, in seconds.
abbrev pub post_backoff : List ℕ
post_backoff = 1 ∷ 3 ∷ 9 ∷ []

abbrev pub called : Sent → Bytes → Wire → Wire
called (Sent.delivered id) text w = record { calls = w.calls + 1; log = w.log ++ (text, true) ∷ [] }
called s text w = record { calls = w.calls + 1; log = w.log ++ (text, false) ∷ [] }

abbrev pub is_failed : Sent → Bool
is_failed Sent.failed = true
is_failed s = false

-- What the loop returns for an answer after which it does not go on.
abbrev pub ends_with : Sent → SendError → SendResult
ends_with (Sent.delivered id) e = SendResult.sent id
ends_with Sent.thread_gone e = SendResult.refused SendError.gone
ends_with Sent.failed e = SendResult.refused e

-- sendWithRetry, from an attempt on: `waits` are the waits that are left.
unfoldable pub send_with_retry : Platform → List ℕ → Bytes → Wire → SendResult × Wire
send_with_retry p [] text w =
    (ends_with (p.answer w.calls) SendError.transient, called (p.answer w.calls) text w)
send_with_retry p (d ∷ waits) text w =
    let s = p.answer w.calls in
    let w' = called s text w in
    let again = send_with_retry p waits text w' in
    if is_failed s
    then (if p.ends w.calls then (SendResult.refused SendError.cancelled, w') else again)
    else (ends_with s SendError.transient, w')

pub record Posted : Type 0 where
  pub id : Bytes
  pub error : Option SendError

-- The loop of Post over the chunks from the i-th on. `checks` says whether the context is looked at
-- before each chunk, as the WeChat adapter does, and `over n` whether it has ended after n calls.
unfoldable pub post_chunks :
    Bool → (ℕ → Bool) → Platform → ℕ → Bytes → List Bytes → Wire → Posted × Wire
unfolding send_with_retry
post_chunks checks over p i first [] w = (record { id = first; error = none }, w)
post_chunks checks over p i first (c ∷ cs) w = elim (checks && over w.calls) [
  | true ↦ (record { id = first; error = some SendError.cancelled }, w)
  | false ↦ elim (send_with_retry p post_backoff c w).0 [
    | SendResult.sent id ↦
        post_chunks checks over p (suc i) (if i == 0 then id else first) cs
          (send_with_retry p post_backoff c w).1
    | SendResult.refused e ↦
        (record { id = first; error = some e }, (send_with_retry p post_backoff c w).1)
  ]
]

abbrev pub failures : ℕ → Bytes → List (Bytes × Bool)
failures zero c = []
failures (suc j) c = (c, false) ∷ failures j c

-- The calls that one chunk leads to.
abbrev IsSent : List ℕ → Bytes → SendResult → List (Bytes × Bool) → Type 0
IsSent waits c (SendResult.sent id) new =
    (j : ℕ) × (j ≤ length waits) × (new ≡ failures j c ++ (c, true) ∷ [])
IsSent waits c (SendResult.refused e) new =
    (j : ℕ) × (j ≤ suc (length waits))
    × (e ≡ SendError.transient → j ≡ suc (length waits))
    × (new ≡ failures j c)

abbrev SendsOnce : List ℕ → Bytes → Wire → SendResult × Wire → Type 0
SendsOnce waits c w r =
    (new : List (Bytes × Bool)) × (r.1.log ≡ w.log ++ new) × IsSent waits c r.0 new

not_retried :
    (s : Sent) (waits : List ℕ) (c : Bytes) (w : Wire)
    → is_failed s ≡ false
    → SendsOnce waits c w (ends_with s SendError.transient, called s c w)
not_retried (Sent.delivered id) waits c w e = ((c, true) ∷ [], refl, (0, omega arith, refl))
not_retried Sent.thread_gone waits c w e = ((c, false) ∷ [], refl, (1, omega arith, λ q. cc, refl))
not_retried Sent.failed waits c w e = absurd (ground arith)

last_try :
    (s : Sent) (c : Bytes) (w : Wire)
    → SendsOnce [] c w (ends_with s SendError.transient, called s c w)
last_try (Sent.delivered id) c w = not_retried (Sent.delivered id) [] c w refl
last_try Sent.thread_gone c w = not_retried Sent.thread_gone [] c w refl
last_try Sent.failed c w = ((c, false) ∷ [], refl, (1, omega arith, λ q. refl, refl))

after_failure :
    (d : ℕ) (waits : List ℕ) (c : Bytes) (r : SendResult) (new : List (Bytes × Bool))
    → IsSent waits c r new
    → IsSent (d ∷ waits) c r ((c, false) ∷ new)
after_failure d waits c (SendResult.sent id) new (j, b, e) =
    (suc j, omega arith, ap (◌∷◌ (c, false)) e)
after_failure d waits c (SendResult.refused f) new (j, b, all, e) =
    (suc j, omega arith, λ q. ap suc (all q), ap (◌∷◌ (c, false)) e)

send-SendsOnce :
    (p : Platform) (waits : List ℕ) (c : Bytes) (w : Wire)
    → SendsOnce waits c w (send_with_retry p waits c w)
unfolding send_with_retry
send-SendsOnce p [] c w = last_try (p.answer w.calls) c w
send-SendsOnce p (d ∷ waits) c w =
    retried (send-SendsOnce p waits c (called Sent.failed c w)) (p.answer w.calls)
  where
    retried :
        SendsOnce waits c
          (called Sent.failed c w)
          (send_with_retry p waits c (called Sent.failed c w))
        → (s : Sent)
        → SendsOnce (d ∷ waits) c w (
            if is_failed s
            then (if p.ends w.calls
                then (SendResult.refused SendError.cancelled, called s c w)
                else send_with_retry p waits c (called s c w))
            else (ends_with s SendError.transient, called s c w))
    retried h (Sent.delivered id) = not_retried (Sent.delivered id) (d ∷ waits) c w refl
    retried h Sent.thread_gone = not_retried Sent.thread_gone (d ∷ waits) c w refl
    retried (new, e, is) Sent.failed =
        if_rule (SendsOnce (d ∷ waits) c w) (p.ends w.calls)
          (λ _. ((c, false) ∷ [], refl, (1, omega arith, λ q. cc, refl)))
          (λ _. (
            (c, false) ∷ new,
            e ∙ append_assoc w.log ((c, false) ∷ []) new,
            after_failure d waits c (send_with_retry p waits c (called Sent.failed c w)).0 new is,
          ))

-- The calls that a body leads to: for each chunk at most three that fail and one that is answered,
-- and with an error at most four that fail for the first chunk that is not, four for one that is
-- given up as transient.
abbrev pub ArePosted : List Bytes → Option SendError → List (Bytes × Bool) → Type 0
ArePosted [] error new = (new ≡ []) × (error ≡ none)
ArePosted (c ∷ cs) error new =
    ((j : ℕ) × (j ≤ 4)
      × (error ≡ some SendError.transient → j ≡ 4)
      × (new ≡ failures j c)
      × (error ≢ none))
    ⊎ ((j : ℕ) × (rest : List (Bytes × Bool)) × (j ≤ 3)
        × (new ≡ failures j c ++ (c, true) ∷ rest)
        × ArePosted cs error rest)

abbrev pub PostsInOrder : List Bytes → Wire → Posted × Wire → Type 0
PostsInOrder cs w r =
    (new : List (Bytes × Bool)) × (r.1.log ≡ w.log ++ new) × ArePosted cs r.0.error new

-- Post sends the chunks of a body in order, whatever the platform answers and whenever the context
-- ends: for each chunk in turn it makes at most three calls that fail and then one that the platform
-- answers with an id, and goes on to the next chunk; the first chunk for which it gets no id, after
-- four calls at most, ends it with an error, and a chunk is given up as transient only after all four.
-- Without an error every chunk got one id. A call that failed may have delivered its text all the
-- same, which a retry then repeats.
pub post_in_order :
    (checks : Bool) (over : ℕ → Bool) (p : Platform) (i : ℕ) (first : Bytes) (cs : List Bytes)
    (w : Wire)
    → PostsInOrder cs w (post_chunks checks over p i first cs w)
unfolding post_chunks
post_in_order checks over p i first [] w = ([], sym (append-nil w.log), (refl, refl))
post_in_order checks over p i first (c ∷ cs) w =
    by_context (λ id w'. post_in_order checks over p (suc i) (if i == 0 then id else first) cs w')
      (checks && over w.calls)
  where
    Rest : Type 0
    Rest =
        (id : Bytes) (w' : Wire)
        → PostsInOrder cs w'
            (post_chunks checks over p (suc i) (if i == 0 then id else first) cs w')

    by_result :
        Rest
        → (r : SendResult × Wire) → SendsOnce post_backoff c w r
        → PostsInOrder (c ∷ cs) w (elim r.0 [
          | SendResult.sent id ↦
              post_chunks checks over p (suc i) (if i == 0 then id else first) cs r.1
          | SendResult.refused e ↦ (record { id = first; error = some e }, r.1)
        ])
    by_result rest_of (SendResult.refused e, w') (new, q, (j, b, all, is)) =
        (new, q, inl (j, b, λ t. all cc, is, λ n. cc))
    by_result rest_of (SendResult.sent id, w') (new, q, (j, b, is)) =
        let (rest, q', are) = rest_of id w' in
        (
          new ++ rest,
          q' ∙ (ap (λ l. l ++ rest) q ∙ append_assoc w.log new rest),
          inr (
            j,
            rest,
            b,
            ap (λ l. l ++ rest) is ∙ append_assoc (failures j c) ((c, true) ∷ []) rest,
            are,
          ),
        )

    by_context :
        Rest
        → (b : Bool)
        → PostsInOrder (c ∷ cs) w (elim b [
          | true ↦ (record { id = first; error = some SendError.cancelled }, w)
          | false ↦ elim (send_with_retry p post_backoff c w).0 [
            | SendResult.sent id ↦
                post_chunks checks over p
                  (suc i)
                  (if i == 0 then id else first)
                  cs
                  (send_with_retry p post_backoff c w).1
            | SendResult.refused e ↦
                (record { id = first; error = some e }, (send_with_retry p post_backoff c w).1)
          ]
        ])
    by_context rest_of true =
        ([], sym (append-nil w.log), inl (0, omega arith, λ t. cc, refl, λ n. cc))
    by_context rest_of false =
        by_result rest_of (send_with_retry p post_backoff c w) (send-SendsOnce p post_backoff c w)
