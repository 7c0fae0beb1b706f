-- ===== src/Opencode/Outcomes.antt =====
-- What one invocation reports.
use espur.Base.{
  ◌≡◌, refl, ap, ◌∙◌, sym, ◌≢◌, Bool, true, false, not, List, [], ◌∷◌, Option, none, some, Bytes,
  length, is_empty, if_rule, arith, ltb, ◌==◌,
}
use espur.Vendor.{invoke_unknown, invoke_success, invoke_timeout, invoke_crash, InvokeResult}
use espur.Opencode.Invoke.{
  SendResult, Session, texts_of, messages, last_text, result_of, verdict, classify_failure, listed,
  drained, consume_all, new_turn, finish, after_live, started, acquired, invoke,
}
use espur.Opencode.Accumulator.{MsgAccumulator, new_msg_accumulator}
use espur.Opencode.Once.{IsOnce, heard, live-IsOnce, turn-IsOnce, new-IsOnce}

-- A result is that of a timeout, of a failure, or of an answer that has a text.
module _ {κ} (has_callback : Bool) (P : InvokeResult → Type κ)
    (late : (a : MsgAccumulator) → IsOnce has_callback a → P (result_of invoke_timeout [] [] a))
    (failed : (stderr reason : Bytes) (a : MsgAccumulator)
      → IsOnce has_callback a
      → P (result_of invoke_crash stderr reason a))
    (answered : (a : MsgAccumulator)
      → IsOnce has_callback a
      → (length (messages a) == 0) ≡ false
      → P (result_of invoke_success [] [] a)) where
  verdict_rule :
      (err_text : Bytes) (a : MsgAccumulator) → IsOnce has_callback a → P (verdict err_text a).0
  verdict_rule err_text a h =
      if_rule (λ (r : InvokeResult × Bool). P r.0) (not (is_empty err_text))
        (λ _. failed err_text _ a h)
        (λ _.
          if_rule (λ (r : InvokeResult × Bool). P r.0) (length (messages a) == 0)
            (λ _. failed [] _ a h) (λ some_text. answered a h some_text))

  after_live_rule :
      (s : Session) (send : Option SendResult)
      → P (after_live has_callback s send (consume_all has_callback s.live new_turn)).0
  unfolding finish
  after_live_rule s none =
      late (consume_all has_callback s.live new_turn).acc (live-IsOnce has_callback s.live)
  after_live_rule s (some send) =
      let u =
        listed has_callback s send
          (drained has_callback s.trailing (consume_all has_callback s.live new_turn)) in
      verdict_rule (classify_failure u.sess_err send) u.acc (turn-IsOnce has_callback s send)

  started_rule : (s : Session) (error : Option Bytes) → P (started has_callback s error).0
  started_rule s none = after_live_rule s s.send
  started_rule s (some error) = failed error _ new_msg_accumulator (new-IsOnce has_callback)

  acquired_rule : (s : Session) (error : Option Bytes) → P (acquired has_callback s error).0
  acquired_rule s none = started_rule s s.create_error
  acquired_rule s (some error) = failed error _ new_msg_accumulator (new-IsOnce has_callback)

  pub invoke_rule : (s : Session) → P (invoke has_callback s).0
  unfolding invoke
  invoke_rule s = acquired_rule s s.acquire_error

-- An invocation always reports one of the three outcomes: success, timeout or crash.
pub invoke_known :
    (has_callback : Bool) (s : Session) → (invoke has_callback s).0.outcome ≢ invoke_unknown
invoke_known has_callback =
    invoke_rule has_callback (λ r. r.outcome ≢ invoke_unknown) (λ a h e. cc)
      (λ stderr reason a h e. cc) (λ a h n e. cc)

-- What went to the callback, if there is one, is known from `seq`.
nothing_heard :
    (has_callback : Bool) (a : MsgAccumulator)
    → IsOnce has_callback a
    → ltb 0 (length a.seq) ≡ false
    → a.delivered ≡ []
unfolding texts_of
nothing_heard has_callback a h quiet = h.2 ∙ no_text has_callback a.seq quiet
  where
    no_text :
        (b : Bool) (ks : List Bytes)
        → ltb 0 (length ks) ≡ false
        → heard b (texts_of ks a.by_id) ≡ []
    no_text true [] q = refl
    no_text false [] q = refl
    no_text b (k ∷ ks) q = absurd (ground arith)

-- An invocation that does not report that it streamed has passed no message to the callback.
pub invoke_reported :
    (has_callback : Bool) (s : Session)
    → (invoke has_callback s).0.streamed ≡ false
    → (invoke has_callback s).0.delivered ≡ []
invoke_reported has_callback s =
    invoke_rule has_callback (λ r. r.streamed ≡ false → r.delivered ≡ [])
      (nothing_heard has_callback) (λ stderr reason. nothing_heard has_callback)
      (λ a h n. nothing_heard has_callback a h) s

-- A successful invocation with a callback has delivered at least one message, and its text is the one
-- delivered last.
pub invoke_success_text :
    (s : Session)
    → (invoke true s).0.outcome ≡ invoke_success
    → ((invoke true s).0.delivered ≢ [])
      × ((invoke true s).0.assistant_text ≡ last_text (invoke true s).0.delivered)
invoke_success_text s =
    invoke_rule true
      (λ r.
        r.outcome ≡ invoke_success
        → (r.delivered ≢ []) × (r.assistant_text ≡ last_text r.delivered))
      (λ a h e. cc) (λ stderr reason a h e. cc)
      (λ a h n e. (λ z. ground (arith, sym h.2 ∙ z), ap last_text (sym h.2))) s
