-- ===== src/Opencode/Once.antt =====
-- Each message of a turn is delivered once, and in the order in which it is reported.
use espur.Base.{
  suc, ◌≡◌, refl, ap, ◌∙◌, sym, subst, ◌≢◌, Bool, true, false, ◌||◌, List, [], ◌∷◌, ◌++◌, Bytes,
  codes, is_empty, trim_space, if◌then◌else◌, if_rule, insert, lookup-insert, lookup-insert_self,
  lookup-insert_ne, bytes_eq, All, All-append, All-map, arith,
}
use espur.Opencode.{Event}
use espur.Opencode.Invoke.{consume_all, drained, texts_of, new_turn, SendResult, Session, listed}
use espur.Opencode.Accumulator.{
  MsgAccumulator, new_msg_accumulator, text_at, emitted_at, add_part, itoa, emit_known, emit_text,
}
use espur.Opencode.Kept.{consume_all-kept, drained-kept, listed-kept}

abbrev pub DistinctIds : List Bytes → Type 0
DistinctIds [] = Unit {0}
DistinctIds (k ∷ ks) = All (λ j. j ≢ k) ks × DistinctIds ks

abbrev pub heard : Bool → List Bytes → List Bytes
heard true texts = texts
heard false texts = []

-- The ids of the delivered messages are distinct and marked as delivered, and what went to the
-- callback, if there is one, are their texts in order.
abbrev pub IsOnce : Bool → MsgAccumulator → Type 0
IsOnce has_callback a =
    All (λ k. emitted_at k a.emitted ≡ true) a.seq
    × DistinctIds a.seq
    × (a.delivered ≡ heard has_callback (texts_of a.seq a.by_id))

DistinctIds-append :
    (ks : List Bytes) (k : Bytes)
    → DistinctIds ks
    → All (λ j. j ≢ k) ks
    → DistinctIds (ks ++ k ∷ [])
DistinctIds-append [] k d h = (tt, tt)
DistinctIds-append (j ∷ ks) k d h = (
  All-append (λ i. i ≢ j) ks (k ∷ []) d.0 (λ e. h.0 (sym e), tt),
  DistinctIds-append ks k d.1 h.1,
)

texts_of-append :
    (ks ls : List Bytes) (m : List (Bytes × Bytes))
    → texts_of (ks ++ ls) m ≡ texts_of ks m ++ texts_of ls m
unfolding texts_of
texts_of-append [] ls m = refl
texts_of-append (k ∷ ks) ls m = ap (◌∷◌ (text_at k m)) (texts_of-append ks ls m)

texts_of-insert :
    (ks : List Bytes) (mid text : Bytes) (m : List (Bytes × Bytes))
    → All (λ j. j ≢ mid) ks
    → texts_of ks (insert mid text m) ≡ texts_of ks m
unfolding texts_of
texts_of-insert [] mid text m h = refl
texts_of-insert (k ∷ ks) mid text m h =
    ground
      (arith, texts_of-insert ks mid text m h.1, lookup-insert_ne mid k text m (λ e. h.0 (sym e)))

-- The texts after one more delivery.
texts_of-new :
    (ks : List Bytes) (mid text : Bytes) (m : List (Bytes × Bytes))
    → All (λ j. j ≢ mid) ks
    → texts_of (ks ++ mid ∷ []) (insert mid text m) ≡ texts_of ks m ++ text ∷ []
texts_of-new ks mid text m h =
    texts_of-append ks (mid ∷ []) (insert mid text m)
    ∙ (ap (λ ts. ts ++ texts_of (mid ∷ []) (insert mid text m)) (texts_of-insert ks mid text m h)
        ∙ ap (◌++◌ (texts_of ks m))
            (unfold texts_of in (ground (arith, lookup-insert_self mid text m))))

emitted_at-insert :
    (k mid : Bytes) (m : List (Bytes × Bool))
    → emitted_at k m ≡ true
    → emitted_at k (insert mid true m) ≡ true
emitted_at-insert k mid m h = ground (arith, lookup-insert mid k true m)

emitted_at_self :
    (mid : Bytes) (m : List (Bytes × Bool)) → emitted_at mid (insert mid true m) ≡ true
emitted_at_self mid m = ground (arith, lookup-insert_self mid true m)

heard-new :
    (has_callback : Bool) (texts : List Bytes) (text : Bytes) (delivered : List Bytes)
    → delivered ≡ heard has_callback texts
    → (if has_callback then delivered ++ text ∷ [] else delivered)
      ≡ heard has_callback (texts ++ text ∷ [])
heard-new true texts text delivered h = ap (λ ts. ts ++ text ∷ []) h
heard-new false texts text delivered h = h

module _ (has_callback : Bool) where
  emit_known-IsOnce :
      (mid text : Bytes) (a : MsgAccumulator)
      → IsOnce has_callback a
      → IsOnce has_callback (emit_known has_callback mid text a)
  unfolding emit_known
  emit_known-IsOnce mid text a (marked, distinct, told) =
      if_rule (IsOnce has_callback) (emitted_at mid a.emitted || is_empty (trim_space text))
        (λ _. (marked, distinct, told))
        (λ new.
          let fresh : All (λ j. j ≢ mid) a.seq =
            All-map (λ k. emitted_at k a.emitted ≡ true) (λ j. j ≢ mid) a.seq
              (λ k on e. not_yet _ (subst (λ j. emitted_at j a.emitted ≡ true) e on) new) marked in
          (
            All-append (λ k. emitted_at k (insert mid true a.emitted) ≡ true) a.seq (mid ∷ [])
                (All-map _ _ a.seq (λ k. emitted_at-insert k mid a.emitted) marked)
                (emitted_at_self mid a.emitted, tt),
            DistinctIds-append a.seq mid distinct fresh,
            heard-new has_callback (texts_of a.seq a.by_id) text a.delivered told
                ∙ ap (heard has_callback) (sym (texts_of-new a.seq mid text a.by_id fresh)),
          ))
    where
      not_yet : {b : Bool} (c : Bool) → b ≡ true → (b || c) ≡ false → ⊥
      not_yet c h k = ground arith

  emit_text-IsOnce :
      (mid text : Bytes) (a : MsgAccumulator)
      → IsOnce has_callback a
      → IsOnce has_callback (emit_text has_callback mid text a)
  unfolding emit_text
  emit_text-IsOnce mid text a h =
      if_rule (IsOnce has_callback) (is_empty mid)
        (λ _.
          emit_known-IsOnce (codes "__ext_" ++ itoa a.ext_seq) text
            (record a { ext_seq = suc a.ext_seq }) h)
        (λ _. emit_known-IsOnce mid text a h)

  add_part-IsOnce :
      (mid pid text : Bytes) (a : MsgAccumulator)
      → IsOnce has_callback a
      → IsOnce has_callback (add_part mid pid text a)
  unfolding add_part
  add_part-IsOnce mid pid text a h = h

  pub new-IsOnce : IsOnce has_callback new_msg_accumulator
  unfolding texts_of
  new-IsOnce = (tt, tt, nothing has_callback)
    where
      nothing : (b : Bool) → [] ≡ heard b []
      nothing true = refl
      nothing false = refl

  pub live-IsOnce :
      (live : List (Event × Bool))
      → IsOnce has_callback (consume_all has_callback live new_turn).acc
  live-IsOnce live =
      consume_all-kept has_callback (IsOnce has_callback) emit_text-IsOnce add_part-IsOnce live
        new_turn new-IsOnce

  pub turn-IsOnce :
      (s : Session) (send : SendResult)
      → IsOnce has_callback
          (listed has_callback s send
            (drained has_callback s.trailing (consume_all has_callback s.live new_turn))).acc
  turn-IsOnce s send =
      listed-kept has_callback (IsOnce has_callback) emit_text-IsOnce add_part-IsOnce s send _ (
        drained-kept has_callback (IsOnce has_callback) emit_text-IsOnce add_part-IsOnce s.trailing
          _ (live-IsOnce s.live))
