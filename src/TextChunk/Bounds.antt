-- ===== src/TextChunk/Bounds.antt =====
-- The sizes of the chunks that `Split` makes.
use espur.Base.{
  ℕ, zero, suc, ◌+◌, ◌≤◌, ◌<◌, ◌≡◌, ◌⊎◌, inl, inr, Bool, true, false, ◌&&◌, not, List, [], ◌∷◌,
  Bytes, is_empty, length, take, All, All-append, All-map, refl, length-take, length-append, ltb,
  leb, ◌==◌, if◌then◌else◌, arith, Bool-cases, split_at, trim_space,
}
use espur.TextChunk.{
  cut_at, rest_after, leftover, hard_split, Splitter, closer, flush, toggle_fence, close_fence,
  place, add_line, add_lines, new_splitter, split,
}
use espur.TextChunk.HardSplit.{hard_split_lem, rest_after-lt, cut_at-le, cut_at-pos}

-- A chunk of at most `max_len` bytes, and of at least `low`.
abbrev pub IsChunk : ℕ → ℕ → Bytes → Type 0
IsChunk low max_len c = (low ≤ length c) × (length c ≤ max_len)

module _ (low max_len : ℕ) (one : low ≤ 1) (wide : low + low ≤ max_len) (pos : 0 < max_len) where
  leftover_chunks : (s : Bytes) → length s ≤ max_len → All (IsChunk low max_len) (leftover s)
  leftover_chunks [] h = tt
  leftover_chunks (c ∷ s) h = ((omega arith, h), tt)

  cut-IsChunk : (s : Bytes) → max_len < length s → IsChunk low max_len (take (cut_at max_len s) s)
  cut-IsChunk s h = (
    ground (arith, length-take (cut_at max_len s) s, cut_at-pos max_len s, cut_at-le max_len s),
    ground (arith, length-take (cut_at max_len s) s, cut_at-le max_len s),
  )

  hard_split_chunks_below :
      (n : ℕ) (s : Bytes) → length s < n → All (IsChunk low max_len) (hard_split max_len s)
  hard_split_chunks_below zero s h = absurd (omega arith)
  hard_split_chunks_below (suc n) s h = elim (Bool-cases (ltb max_len (length s))) [
    | inl long ↦
        rw (hard_split_lem max_len s pos, long)
          (
            cut-IsChunk s (ground arith),
            hard_split_chunks_below n (rest_after max_len s)
                (ground (arith, rest_after-lt max_len s pos)),
          )
    | inr short ↦ rw (hard_split_lem max_len s pos, short) (leftover_chunks s (ground arith))
  ]

  hard_split_chunks : (s : Bytes) → All (IsChunk low max_len) (hard_split max_len s)
  hard_split_chunks s = hard_split_chunks_below (suc (length s)) s (omega arith)

  record Bounded (p : Splitter) : Type 0 where
    chunks : All (IsChunk low max_len) p.out
    fits : length p.current ≤ max_len

  flush-Bounded : (p : Splitter) → Bounded p → Bounded (flush p)
  unfolding flush
  flush-Bounded p b = elim (Bool-cases (is_empty p.current)) [
    | inl e ↦ rw e b
    | inr e ↦ rw e (record {
      chunks =
          All-append (IsChunk low max_len) p.out (p.current ∷ []) b.chunks
            ((ground arith, b.fits), tt);
      fits = omega arith;
    })
  ]

  toggle_fence-Bounded :
      (trimmed : Bytes) (p : Splitter) → Bounded p → Bounded (toggle_fence trimmed p)
  unfolding toggle_fence
  toggle_fence-Bounded trimmed p b = ground arith

  close_fence-Bounded :
      (was : Bool) (p : Splitter) → Bounded p → Bounded (close_fence max_len was p)
  unfolding close_fence
  close_fence-Bounded was p b = ground (arith, length-append p.current closer)

  place-Bounded :
      (addition : Bytes) (p : Splitter)
      → Bounded p
      → (length p.current + length addition ≤ max_len) ⊎ (length p.current ≡ 0)
      → Bounded (place max_len addition p)
  unfolding place
  place-Bounded addition p b room = elim (Bool-cases (ltb max_len (length addition))) [
    | inl long ↦ rw long (record {
      chunks =
          All-append (IsChunk low max_len) (flush p).out (hard_split max_len addition)
            (flush-Bounded p b).chunks (hard_split_chunks addition);
      fits = (flush-Bounded p b).fits;
    })
    | inr short ↦
        rw short
          (record { chunks = b.chunks; fits = ground (arith, length-append p.current addition) })
  ]

  has_room :
      (n : ℕ) (s : Bytes)
      → (ltb max_len (length s + n) && not (is_empty s)) ≡ false
      → (length s + n ≤ max_len) ⊎ (length s ≡ 0)
  has_room n [] e = inr refl
  has_room n (c ∷ s) e = inl (ground arith)

  length-current-flush : (p : Splitter) → length (flush p).current ≡ 0
  unfolding flush
  length-current-flush p = ground arith

  add_line-Bounded :
      (first : Bool) (line : Bytes) (p : Splitter)
      → Bounded p
      → Bounded (add_line max_len first line p)
  unfolding add_line
  add_line-Bounded first line p b =
      let q = toggle_fence (trim_space line) p in
      let kept = toggle_fence-Bounded (trim_space line) p b in
      let addition = if first then line else 0x0a ∷ line in
      elim (Bool-cases
        (ltb max_len (length q.current + length addition) && not (is_empty q.current))) [
          | inl over ↦ rw over (
              place-Bounded line _ (flush-Bounded _ (close_fence-Bounded p.in_fence q kept))
                (inr (length-current-flush _)))
          | inr room ↦
              rw room (place-Bounded addition q kept (has_room (length addition) q.current room))
        ]

  add_lines-Bounded :
      (first : Bool) (lines : List Bytes) (p : Splitter)
      → Bounded p
      → Bounded (add_lines max_len first lines p)
  unfolding add_lines
  add_lines-Bounded first [] p b = b
  add_lines-Bounded first (line ∷ lines) p b =
      add_lines-Bounded false lines (add_line max_len first line p)
        (add_line-Bounded first line p b)

  split_chunks : (body : Bytes) → All (IsChunk low max_len) (split body max_len)
  unfolding split
  split_chunks body = elim (Bool-cases (leb (length body) max_len)) [
    | inl short ↦ rw (zero_test, short) (leftover_chunks body (ground arith))
    | inr long ↦
        rw (zero_test, long)
          (flush-Bounded _ (
            add_lines-Bounded true (split_at 0x0a body) new_splitter
              (record { chunks = tt; fits = omega arith }))).chunks
  ]
    where
      zero_test : (max_len == 0) ≡ false
      zero_test = ground arith

-- With a positive limit every chunk of every text is within the limit.
pub split-chunks-le :
    (body : Bytes) (max_len : ℕ) → 0 < max_len → All (λ c. length c ≤ max_len) (split body max_len)
split-chunks-le body max_len h =
    All-map (IsChunk 0 max_len) _ (split body max_len) (λ c k. k.1)
      (split_chunks 0 max_len (omega arith) (omega arith) h body)

-- With a limit of at least two bytes no chunk of any text is empty.
pub split-chunks-pos :
    (body : Bytes) (max_len : ℕ) → 2 ≤ max_len → All (λ c. 0 < length c) (split body max_len)
split-chunks-pos body max_len h =
    All-map (IsChunk 1 max_len) _ (split body max_len) (λ c k. k.0)
      (split_chunks 1 max_len (omega arith) (omega arith) (omega arith) body)
