-- ===== src/Memory/Block.antt =====
-- What is written into the block of user instructions is read back.
use espur.Base.{
  ℕ, zero, suc, ◌+◌, ◌≤◌, ◌<◌, ◌≡◌, refl, ap, ◌∙◌, sym, ◌≢◌, inl, inr, true, false, [], ◌∷◌, ◌++◌,
  append_assoc, some, Bytes, index, contains, has_prefix, length, length-append, length-take, take,
  drop, All, arith, reverse, Option-cases,
}
use mathlib.Core.List.{reverse-cons, reverse-append, reverse-reverse}
use espur.Memory.{
  user_instructions_start, user_instructions_end, drop_newlines, trim_newlines, inside, behind,
  extract_user_instructions, block_of, replace_user_instructions,
}

prefix_self : (p t : Bytes) → has_prefix (p ++ t) p ≡ true
unfolding has_prefix
prefix_self [] t = refl
prefix_self (c ∷ p) t = ground (arith, prefix_self p t)

-- Whether a text begins with p depends on as many bytes as p has.
prefix_local :
    (r t u p : Bytes) → length p ≤ length r → has_prefix (r ++ t) p ≡ has_prefix (r ++ u) p
unfolding has_prefix
prefix_local r t u [] h = ground arith
prefix_local [] t u (q ∷ p) h = absurd (omega arith)
prefix_local (c ∷ r) t u (q ∷ p) h = ground (arith, prefix_local r t u p)

prefix_newline :
    (x u p : Bytes) → All (λ c. c ≢ 0x0a) p → has_prefix (x ++ 0x0a ∷ u) p ≡ has_prefix x p
unfolding has_prefix
prefix_newline x u [] h = ground arith
prefix_newline [] u (q ∷ p) h = ground (arith, h.0)
prefix_newline (c ∷ x) u (q ∷ p) h = ground (arith, prefix_newline x u p h.1)

index_here : (p t : Bytes) → index (p ++ t) p ≡ some 0
unfolding index
index_here [] [] = unfold has_prefix in refl
index_here [] (c ∷ t) = unfold has_prefix in refl
index_here (q ∷ p) t = ground (arith, prefix_self (q ∷ p) t)

prefix_split : (s p : Bytes) → has_prefix s p ≡ true → (u : Bytes) × (s ≡ p ++ u)
unfolding has_prefix
prefix_split s [] h = (s, refl)
prefix_split [] (q ∷ p) h = cc
prefix_split (c ∷ s) (q ∷ p) h = let (u, e) = prefix_split s p (ground arith) in (u, ground arith)

index_nil : (p : Bytes) (i : ℕ) → index [] p ≡ some i → (i ≡ 0) × (has_prefix [] p ≡ true)
unfolding index
index_nil p i h = ground arith

index_zero : (c : ℕ) (s p : Bytes) → index (c ∷ s) p ≡ some 0 → has_prefix (c ∷ s) p ≡ true
unfolding index
index_zero c s p h = ground arith

index-suc :
    (c : ℕ) (s p : Bytes) (i : ℕ)
    → index (c ∷ s) p ≡ some (suc i)
    → (has_prefix (c ∷ s) p ≡ false) × (index s p ≡ some i)
unfolding index
index-suc c s p i h = ground arith

index_found : (s p : Bytes) (i : ℕ) → index s p ≡ some i → (u : Bytes) × (s ≡ take i s ++ (p ++ u))
index_found [] p zero h = prefix_split [] p (index_nil p zero h).1
index_found [] p (suc i) h = absurd (ground (arith, index_nil p (suc i) h))
index_found (c ∷ s) p zero h = prefix_split (c ∷ s) p (index_zero c s p h)
index_found (c ∷ s) p (suc i) h =
    let (u, e) = index_found s p i (index-suc c s p i h).1 in (u, ap (◌∷◌ c) e)

not_before :
    (c i : ℕ) (s p t u : Bytes)
    → s ≡ take i s ++ (p ++ u)
    → has_prefix (c ∷ s) p ≡ false
    → has_prefix (c ∷ (take i s ++ (p ++ t))) p ≡ false
not_before c i s p t u e h =
    ap (λ r. has_prefix (c ∷ r) p) (sym (append_assoc (take i s) p t))
    ∙ (prefix_local (c ∷ (take i s ++ p)) t u p (omega (arith, length-append (take i s) p))
        ∙ (ap (λ r. has_prefix (c ∷ r) p) (append_assoc (take i s) p u ∙ sym e) ∙ h))

index_step :
    (c i : ℕ) (s p : Bytes)
    → has_prefix (c ∷ s) p ≡ false
    → index s p ≡ some i
    → index (c ∷ s) p ≡ some (suc i)
unfolding index
index_step c i s p h k = ground arith

-- The first place of p stays the first when what stands behind it changes.
index_kept : (s p t : Bytes) (i : ℕ) → index s p ≡ some i → index (take i s ++ (p ++ t)) p ≡ some i
index_kept s p t zero h = index_here p t
index_kept [] p t (suc i) h = absurd (ground (arith, index_nil p (suc i) h))
index_kept (c ∷ s) p t (suc i) h =
    let (later, there) = index-suc c s p i h in
    let (u, e) = index_found s p i there in
    index_step c i (take i s ++ (p ++ t)) p (not_before c i s p t u e later)
      (index_kept s p t i there)

-- p is found behind a newline, if it does not stand before it and holds none.
index_line :
    (x t : Bytes) (q : ℕ) (p : Bytes)
    → contains x (q ∷ p) ≡ false
    → All (λ c. c ≢ 0x0a) (q ∷ p)
    → index (x ++ 0x0a ∷ ((q ∷ p) ++ t)) (q ∷ p) ≡ some (suc (length x))
unfolding index contains
index_line [] t q p h n =
    ground (arith, prefix_newline [] ((q ∷ p) ++ t) (q ∷ p) n, index_here (q ∷ p) t)
index_line (c ∷ x) t q p h n =
    ground (arith, prefix_newline (c ∷ x) ((q ∷ p) ++ t) (q ∷ p) n, index_line x t q p)

drop_past : (r t : Bytes) → drop (length r) (r ++ t) ≡ t
drop_past [] t = refl
drop_past (c ∷ r) t = drop_past r t

take_past : (r t : Bytes) → take (length r) (r ++ t) ≡ r
take_past [] t = refl
take_past (c ∷ r) t = ap (◌∷◌ c) (take_past r t)

length-before : (s p : Bytes) (i : ℕ) → index s p ≡ some i → 0 < length p → length (take i s) ≡ i
length-before s p i h some_byte =
    let (u, e) = index_found s p i h in
    omega
      (arith, length-take i s, ap length e, length-append (take i s) (p ++ u), length-append p u)

drop_found :
    (s p y : Bytes) (i : ℕ)
    → index s p ≡ some i
    → 0 < length p
    → drop (i + length p) (take i s ++ (p ++ y)) ≡ y
drop_found s p y i h pos =
    ap (λ r. drop (i + length p) r) (sym (append_assoc (take i s) p y))
    ∙ (ap (λ n. drop n ((take i s ++ p) ++ y))
          (omega (arith, length-before s p i h pos, length-append (take i s) p))
        ∙ drop_past (take i s ++ p) y)

take_line : (t u : Bytes) → take (suc (length t)) (t ++ 0x0a ∷ u) ≡ t ++ 0x0a ∷ []
take_line [] u = refl
take_line (c ∷ t) u = ap (◌∷◌ c) (take_line t u)

end_plain : All (λ c. c ≢ 0x0a) user_instructions_end
end_plain = ground arith

inside_block :
    (t after : Bytes)
    → contains (0x0a ∷ t) user_instructions_end ≡ false
    → let y = 0x0a ∷ (t ++ 0x0a ∷ (user_instructions_end ++ after)) in
      inside y (index y user_instructions_end) ≡ trim_newlines (0x0a ∷ (t ++ 0x0a ∷ []))
inside_block t after plain =
    let y = 0x0a ∷ (t ++ 0x0a ∷ (user_instructions_end ++ after)) in
    ap (inside y) (index_line (0x0a ∷ t) after b'<' _ plain end_plain)
    ∙ ap (λ r. trim_newlines (0x0a ∷ r)) (take_line t (user_instructions_end ++ after))

-- The block that stands at the first start mark is the one that is read.
behind_block :
    (agents t after : Bytes) (i : ℕ)
    → index agents user_instructions_start ≡ some i
    → contains (0x0a ∷ t) user_instructions_end ≡ false
    → extract_user_instructions (
        take i agents
        ++ (user_instructions_start ++ (0x0a ∷ (t ++ 0x0a ∷ (user_instructions_end ++ after)))))
      ≡ trim_newlines (0x0a ∷ (t ++ 0x0a ∷ []))
unfolding extract_user_instructions
behind_block agents t after i h plain =
    let y : Bytes = 0x0a ∷ (t ++ 0x0a ∷ (user_instructions_end ++ after)) in
    let x = take i agents ++ (user_instructions_start ++ y) in
    ap (behind x) (index_kept agents user_instructions_start y i h)
    ∙ (ap (λ r. inside r (index r user_instructions_end))
          (drop_found agents user_instructions_start y i h (omega arith))
        ∙ inside_block t after plain)

drop_newlines-last :
    (s : Bytes) (c : ℕ) → c ≢ 0x0a → drop_newlines (s ++ c ∷ []) ≡ drop_newlines s ++ c ∷ []
unfolding drop_newlines
drop_newlines-last [] c h = ground arith
drop_newlines-last (d ∷ s) c h = ground (arith, drop_newlines-last s c h)

drop_newlines-again : (s : Bytes) → drop_newlines (drop_newlines s) ≡ drop_newlines s
unfolding drop_newlines
drop_newlines-again [] = refl
drop_newlines-again (c ∷ s) = ground (arith, drop_newlines-again s)

-- A text is trimmed if it begins and ends with no newline.
abbrev IsTrimmed : Bytes → Type 0
IsTrimmed t = (drop_newlines t ≡ t) × (drop_newlines (reverse t) ≡ reverse t)

drop_newlines-le : (s : Bytes) → length (drop_newlines s) ≤ length s
unfolding drop_newlines
drop_newlines-le [] = omega arith
drop_newlines-le (c ∷ s) = ground (arith, drop_newlines-le s)

drop_keeps : (c : ℕ) (s : Bytes) → c ≢ 0x0a → drop_newlines (c ∷ s) ≡ c ∷ s
unfolding drop_newlines
drop_keeps c s h = ground arith

no_newline_first : (c : ℕ) (s : Bytes) → drop_newlines (c ∷ s) ≡ c ∷ s → c ≢ 0x0a
unfolding drop_newlines
no_newline_first c s h e = ground (arith, drop_newlines-le s, ap length h)

head_kept :
    (d : Bytes)
    → drop_newlines d ≡ d
    → drop_newlines (reverse (drop_newlines (reverse d))) ≡ reverse (drop_newlines (reverse d))
head_kept [] h = unfold drop_newlines in refl
head_kept (c ∷ d) h =
    let ne = no_newline_first c d h in
    let q : reverse (drop_newlines (reverse (c ∷ d))) ≡ c ∷ reverse (drop_newlines (reverse d)) =
      ap (λ r. reverse (drop_newlines r)) (reverse-cons c d)
      ∙ (ap reverse (drop_newlines-last (reverse d) c ne)
          ∙ reverse-append (drop_newlines (reverse d)) (c ∷ [])) in
    ap drop_newlines q ∙ (drop_keeps c (reverse (drop_newlines (reverse d))) ne ∙ sym q)

trim_newlines-IsTrimmed : (s : Bytes) → IsTrimmed (trim_newlines s)
unfolding trim_newlines
trim_newlines-IsTrimmed s =
    let e = drop_newlines (reverse (drop_newlines s)) in
    (
      head_kept (drop_newlines s) (drop_newlines-again s),
      ap drop_newlines (reverse-reverse e)
          ∙ (drop_newlines-again (reverse (drop_newlines s)) ∙ sym (reverse-reverse e)),
    )

drop_first : (s : Bytes) → drop_newlines (0x0a ∷ s) ≡ drop_newlines s
unfolding drop_newlines
drop_first s = refl

trim_block : (t : Bytes) → IsTrimmed t → trim_newlines (0x0a ∷ (t ++ 0x0a ∷ [])) ≡ t
unfolding trim_newlines
trim_block [] h = unfold drop_newlines in refl
trim_block (c ∷ t) h =
    let kept = drop_keeps c (t ++ 0x0a ∷ []) (no_newline_first c t h.0) in
    ap (λ r. reverse (drop_newlines (reverse r))) (drop_first (c ∷ (t ++ 0x0a ∷ [])) ∙ kept)
    ∙ (ap (λ r. reverse (drop_newlines r)) (reverse-append (c ∷ t) (0x0a ∷ []))
        ∙ (ap reverse (drop_first (reverse (c ∷ t)) ∙ h.1) ∙ reverse-reverse (c ∷ t)))

-- Where AGENTS.md has a start mark, the instructions that are written are read back, but for the
-- newlines around them, if the text does not hold the end mark; also where the end mark was missing.
pub extract-replace :
    (agents body : Bytes) (i : ℕ)
    → index agents user_instructions_start ≡ some i
    → contains (0x0a ∷ trim_newlines body) user_instructions_end ≡ false
    → extract_user_instructions (replace_user_instructions agents body) ≡ trim_newlines body
unfolding replace_user_instructions
extract-replace agents body i h plain =
    let t = trim_newlines body in
    let read : (after : Bytes)
        → extract_user_instructions (take i agents ++ (block_of body ++ after)) ≡ t =
      λ after.
        ap
          (λ r.
            extract_user_instructions (take i agents ++ (user_instructions_start ++ (0x0a ∷ r))))
          (append_assoc t (0x0a ∷ user_instructions_end) after)
        ∙ (behind_block agents t after i h plain ∙ trim_block t (trim_newlines-IsTrimmed body)) in
    rw h (elim (Option-cases (index (drop i agents) user_instructions_end)) [
      | inl e ↦ rw e (read (0x0a ∷ []))
      | inr (j, e) ↦ rw e (read (drop (i + j + length user_instructions_end) agents))
    ])
