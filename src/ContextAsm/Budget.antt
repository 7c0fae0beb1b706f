-- ===== src/ContextAsm/Budget.antt =====
-- What the budget cuts from the thread context, and what a request cannot forge.
use espur.Base.{
  ℕ, zero, suc, codes, ◌-◌, ◌≤◌, ◌≡◌, refl, ap, ◌∙◌, sym, ◌≢◌, ◌⊎◌, inl, inr, false, List, [], ◌∷◌,
  ◌++◌, none, some, Bytes, length, length-drop, take, drop, take-append-drop, leb, ltb, ◌==◌,
  if_rule, All, All-append, arith, Bool-cases, Option-cases, append_assoc,
}
use espur.Transcript.{Record, format}
use espur.ContextAsm.{
  max_bytes, escape_attr, after_newline, trim_from_head, formatted, context_text,
}

after_newline_cut :
    (s out : Bytes) → after_newline s ≡ some out → (before : Bytes) × (s ≡ before ++ 0x0a ∷ out)
unfolding after_newline
after_newline_cut [] out h = cc
after_newline_cut (c ∷ s) out h = elim (Bool-cases (c == 0x0a)) [
  | inl e ↦ ([], ground arith)
  | inr e ↦ let (before, p) = after_newline_cut s out (ground arith) in (c ∷ before, ap (◌∷◌ c) p)
]

after_newline_le : (s out : Bytes) → after_newline s ≡ some out → length out ≤ length s
unfolding after_newline
after_newline_le [] out h = cc
after_newline_le (c ∷ s) out h = ground (arith, after_newline_le s out)

-- A text that has a newline behind every point, as one whose last byte is a newline has.
abbrev pub EndsLine : Bytes → Type 0
EndsLine [] = Unit {0}
EndsLine (c ∷ []) = c ≡ 0x0a
EndsLine (c ∷ d ∷ s) = EndsLine (d ∷ s)

EndsLine-append : (s t : Bytes) → EndsLine t → EndsLine (s ++ (0x0a ∷ []) ++ t)
EndsLine-append [] [] h = refl
EndsLine-append [] (d ∷ t) h = h
EndsLine-append (c ∷ []) t h = EndsLine-append [] t h
EndsLine-append (c ∷ d ∷ s) t h = EndsLine-append (d ∷ s) t h

formatted-EndsLine : (rs : List Record) → EndsLine (formatted rs)
unfolding formatted
formatted-EndsLine [] = tt
formatted-EndsLine (r ∷ rs) = EndsLine-append (format r) (formatted rs) (formatted-EndsLine rs)

EndsLine-drop : (n : ℕ) (s : Bytes) → EndsLine s → EndsLine (drop n s)
EndsLine-drop zero s h = h
EndsLine-drop (suc n) [] h = tt
EndsLine-drop (suc n) (c ∷ []) h = EndsLine-drop n [] tt
EndsLine-drop (suc n) (c ∷ d ∷ s) h = EndsLine-drop n (d ∷ s) h

EndsLine-after_newline : (s : Bytes) → s ≢ [] → EndsLine s → after_newline s ≢ none
unfolding after_newline
EndsLine-after_newline [] ne h = absurd (ne refl)
EndsLine-after_newline (c ∷ []) ne h = ground arith
EndsLine-after_newline (c ∷ d ∷ s) ne h = ground (arith, EndsLine-after_newline (d ∷ s) (λ e. cc) h)

-- Whole lines only: what is cut off before the kept text is nothing, or ends with a newline.
abbrev pub CutAtLine : Bytes → Bytes → Type 0
CutAtLine s kept = (kept ≡ s) ⊎ ((before : Bytes) × (s ≡ before ++ 0x0a ∷ kept))

trim_from_head_lem :
    (s : Bytes) (n : ℕ)
    → EndsLine s
    → suc n ≤ length s
    → (length (trim_from_head s n) ≤ length s - n) × CutAtLine s (trim_from_head s n)
unfolding trim_from_head
trim_from_head_lem s n h short = elim (Option-cases (after_newline (drop n s))) [
  | inl e ↦ absurd (
      EndsLine-after_newline (drop n s) (λ z. ground (arith, length-drop n s)) (EndsLine-drop n s h)
        e)
  | inr (out, e) ↦
      let (before, cut) = after_newline_cut (drop n s) out e in
      let test : leb (length s) n ≡ false = ground arith in
      rw (test, e)
        (
          omega (arith, after_newline_le (drop n s) out e, length-drop n s),
          inr (
            take n s ++ before,
            sym (take-append-drop n s)
                ∙ (ap (◌++◌ (take n s)) cut ∙ sym (append_assoc (take n s) before (0x0a ∷ out))),
          ),
        )
]

-- The text of the thread context has at most 8 KiB, and it is the formatted tail of the transcript or
-- what stands in it behind one of its newlines, so that no line is cut.
pub context_text_lem :
    (rs : List Record)
    → (length (context_text rs) ≤ max_bytes) × CutAtLine (formatted rs) (context_text rs)
unfolding context_text
context_text_lem rs =
    if_rule (λ t. (length t ≤ max_bytes) × CutAtLine (formatted rs) t)
      (ltb 0 (length (formatted rs) - max_bytes))
      {x = trim_from_head (formatted rs) (length (formatted rs) - max_bytes)}
      (λ long.
        let (short, cut) =
          trim_from_head_lem (formatted rs) (length (formatted rs) - max_bytes)
            (formatted-EndsLine rs) (ground arith) in
        (ground arith, cut))
      (λ fits. (ground arith, inl refl))

-- A quotation mark never stands in an escaped attribute, so that no name can end it.
pub escape_attr_lem : (s : Bytes) → All (λ c. c ≢ 0x22) (escape_attr s)
unfolding escape_attr
escape_attr_lem [] = tt
escape_attr_lem (c ∷ s) =
    All-append (λ d. d ≢ 0x22) _ (escape_attr s)
      (if_rule (All (λ d. d ≢ 0x22)) (c == 0x22) {x = codes "&quot;"} (λ h. ground arith)
        (λ h. ground arith))
      (escape_attr_lem s)
