-- ===== src/TextChunk/Content.antt =====
-- What `Split` keeps of a text: all but spaces, newlines and the fence marks that it adds.
use espur.Base.{
  ℕ, zero, suc, ◌+◌, ◌<◌, ◌≡◌, refl, sym, ap, ◌∙◌, inl, inr, Bool, true, false, not, ◌&&◌, ◌||◌,
  List, [], ◌∷◌, ◌++◌, Bytes, is_empty, length, take, drop, take-append-drop, select, select-append,
  append-nil, append_assoc, ltb, leb, ◌==◌, if◌then◌else◌, arith, Bool-cases, split_at, trim_space,
  join, join-split_at,
}
use espur.TextChunk.{
  trim_one_space, cut_at, rest_after, leftover, hard_split, Splitter, closer, flush, toggle_fence,
  close_fence, place, add_line, add_lines, new_splitter, split,
}
use espur.TextChunk.HardSplit.{hard_split_lem, rest_after-lt}

abbrev pub concat : List Bytes → Bytes
concat [] = []
concat (l ∷ ls) = l ++ concat ls

concat-append : (ls ms : List Bytes) → concat (ls ++ ms) ≡ concat ls ++ concat ms
concat-append [] ms = refl
concat-append (l ∷ ls) ms = rw (concat-append ls ms) (sym (append_assoc l (concat ls) (concat ms)))

-- Every byte but the space, the newline and the backquote.
abbrev pub is_ink : ℕ → Bool
is_ink c = not (c == 0x20 || c == 0x0a || c == 0x60)

abbrev pub ink : Bytes → Bytes
ink = select is_ink

ink-append : (r s : Bytes) → ink (r ++ s) ≡ ink r ++ ink s
ink-append = select-append is_ink

ink-trim_one_space : (s : Bytes) → ink (trim_one_space s) ≡ ink s
unfolding trim_one_space
ink-trim_one_space [] = refl
ink-trim_one_space (c ∷ s) = ground arith

ink-leftover : (s : Bytes) → ink (concat (leftover s)) ≡ ink s
ink-leftover [] = refl
ink-leftover (c ∷ s) = ap ink (append-nil (c ∷ s))

ink-rest_after :
    (max_len : ℕ) (s : Bytes)
    → ink (take (cut_at max_len s) s) ++ ink (rest_after max_len s) ≡ ink s
unfolding rest_after
ink-rest_after max_len s = rw (ink-trim_one_space (drop (cut_at max_len s) s)) (
    sym (ink-append (take (cut_at max_len s) s) (drop (cut_at max_len s) s))
    ∙ ap ink (take-append-drop (cut_at max_len s) s))

ink-hard_split_below :
    (n max_len : ℕ) (s : Bytes)
    → 0 < max_len
    → length s < n
    → ink (concat (hard_split max_len s)) ≡ ink s
ink-hard_split_below zero max_len s pos h = absurd (omega arith)
ink-hard_split_below (suc n) max_len s pos h = elim (Bool-cases (ltb max_len (length s))) [
  | inl long ↦
      rw (hard_split_lem max_len s pos, long)
        (ink-append (take (cut_at max_len s) s) (concat (hard_split max_len (rest_after max_len s)))
          ∙ (ap (◌++◌ (ink (take (cut_at max_len s) s))) (
                ink-hard_split_below n max_len (rest_after max_len s) pos
                  (ground (arith, rest_after-lt max_len s pos)))
              ∙ ink-rest_after max_len s))
  | inr short ↦ rw (hard_split_lem max_len s pos, short) (ink-leftover s)
]

ink-hard_split :
    (max_len : ℕ) (s : Bytes) → 0 < max_len → ink (concat (hard_split max_len s)) ≡ ink s
ink-hard_split max_len s pos = ink-hard_split_below (suc (length s)) max_len s pos (omega arith)

-- The ink that a state holds.
abbrev held : Splitter → Bytes
held p = ink (concat p.out) ++ ink p.current

ink-out : (ls ms : List Bytes) → ink (concat (ls ++ ms)) ≡ ink (concat ls) ++ ink (concat ms)
ink-out ls ms = ap ink (concat-append ls ms) ∙ ink-append (concat ls) (concat ms)

held-flush : (p : Splitter) → ink (concat (flush p).out) ≡ held p
unfolding flush
held-flush p = elim (Bool-cases (is_empty p.current)) [
  | inl e ↦ rw e (ground (arith, append-nil (ink (concat p.out))))
  | inr e ↦ rw e (
      ink-out p.out (p.current ∷ []) ∙ ap (λ s. ink (concat p.out) ++ ink s) (append-nil p.current))
]

current-flush : (p : Splitter) → (flush p).current ≡ []
unfolding flush
current-flush p = ground arith

held-toggle_fence : (trimmed : Bytes) (p : Splitter) → held (toggle_fence trimmed p) ≡ held p
unfolding toggle_fence
held-toggle_fence trimmed p = ground arith

held-close_fence :
    (max_len : ℕ) (was : Bool) (p : Splitter) → held (close_fence max_len was p) ≡ held p
unfolding close_fence
held-close_fence max_len was p =
    ground (arith, ink-append p.current closer, append-nil (ink p.current))

held-place :
    (max_len : ℕ) (addition : Bytes) (p : Splitter)
    → 0 < max_len
    → held (place max_len addition p) ≡ held p ++ ink addition
unfolding place
held-place max_len addition p pos = elim (Bool-cases (ltb max_len (length addition))) [
  | inl long ↦
      rw (long, current-flush p)
        (append-nil (ink (concat ((flush p).out ++ hard_split max_len addition)))
          ∙ (ink-out (flush p).out (hard_split max_len addition)
              ∙ (ap (λ s. s ++ ink (concat (hard_split max_len addition))) (held-flush p)
                  ∙ ap (◌++◌ (held p)) (ink-hard_split max_len addition pos))))
  | inr short ↦ rw short (
      ap (◌++◌ (ink (concat p.out))) (ink-append p.current addition)
      ∙ sym (append_assoc (ink (concat p.out)) (ink p.current) (ink addition)))
]

held_of_flush : (p : Splitter) → held (flush p) ≡ held p
held_of_flush p = rw (current-flush p) (append-nil (ink (concat (flush p).out)) ∙ held-flush p)

ink-newline : (first : Bool) (line : Bytes) → ink (if first then line else 0x0a ∷ line) ≡ ink line
ink-newline true line = refl
ink-newline false line = refl

held-add_line :
    (max_len : ℕ) (first : Bool) (line : Bytes) (p : Splitter)
    → 0 < max_len
    → held (add_line max_len first line p) ≡ held p ++ ink line
unfolding add_line
held-add_line max_len first line p pos =
    let q = toggle_fence (trim_space line) p in
    let same_held = held-toggle_fence (trim_space line) p in
    let addition = if first then line else 0x0a ∷ line in
    let closed = close_fence max_len p.in_fence q in
    elim (Bool-cases
      (ltb max_len (length q.current + length addition) && not (is_empty q.current))) [
        | inl over ↦ rw over (
            held-place max_len line (flush closed) pos
            ∙ ap (λ s. s ++ ink line)
                (held_of_flush closed ∙ (held-close_fence max_len p.in_fence q ∙ same_held)))
        | inr room ↦ rw room (
            held-place max_len addition q pos
            ∙ (ap (λ s. s ++ ink addition) same_held ∙ ap (◌++◌ (held p)) (ink-newline first line)))
      ]

held-add_lines :
    (max_len : ℕ) (first : Bool) (lines : List Bytes) (p : Splitter)
    → 0 < max_len
    → held (add_lines max_len first lines p) ≡ held p ++ ink (concat lines)
unfolding add_lines
held-add_lines max_len first [] p pos = sym (append-nil (held p))
held-add_lines max_len first (line ∷ lines) p pos =
    held-add_lines max_len false lines (add_line max_len first line p) pos
    ∙ (ap (λ s. s ++ ink (concat lines)) (held-add_line max_len first line p pos)
        ∙ (append_assoc (held p) (ink line) (ink (concat lines))
            ∙ ap (◌++◌ (held p)) (sym (ink-append line (concat lines)))))

ink-join : (ls : List Bytes) → ink (join (0x0a ∷ []) ls) ≡ ink (concat ls)
unfolding join
ink-join [] = refl
ink-join (l ∷ []) = ap ink (sym (append-nil l))
ink-join (l ∷ m ∷ ls) =
    ink-append l (0x0a ∷ join (0x0a ∷ []) (m ∷ ls))
    ∙ (ap (◌++◌ (ink l)) (ink-join (m ∷ ls)) ∙ sym (ink-append l (concat (m ∷ ls))))

ink-split_at : (body : Bytes) → ink (concat (split_at 0x0a body)) ≡ ink body
ink-split_at body = sym (ink-join (split_at 0x0a body)) ∙ ap ink (join-split_at 0x0a body)

-- For every text and every limit, the chunks in order hold the bytes of the text other than
-- spaces, newlines and backquotes: each once and in the order of the text.
pub ink-split : (body : Bytes) (max_len : ℕ) → ink (concat (split body max_len)) ≡ ink body
unfolding split
ink-split body max_len = elim (Bool-cases (max_len == 0)) [
  | inl e ↦ rw e (ap ink (append-nil body))
  | inr e ↦ elim (Bool-cases (leb (length body) max_len)) [
    | inl short ↦ rw (e, short) (ink-leftover body)
    | inr long ↦
        rw (e, long)
          (held-flush (add_lines max_len true (split_at 0x0a body) new_splitter)
            ∙ (held-add_lines max_len true (split_at 0x0a body) new_splitter (ground arith)
                ∙ ink-split_at body))
  ]
]
