-- ===== src/TextChunk/HardSplit.antt =====
-- `hardSplit`: the loop ends, its pieces are within the limit, and only spaces are lost.
use espur.Base.{
  ℕ, zero, suc, ◌≤◌, ◌<◌, ◌≡◌, ap, inl, inr, [], ◌∷◌, some, Bytes, length, take, drop, length-take,
  length-drop, ltb, if◌then◌else◌, arith, Option-cases, Bool-cases,
}
use espur.TextChunk.{
  last_space, trim_one_space, cut_at, rest_after, leftover, hard_split_loop, hard_split,
}

last_space-lt : (s : Bytes) (i : ℕ) → last_space s ≡ some i → i < length s
unfolding last_space
last_space-lt [] i e = cc
last_space-lt (c ∷ s) i e = elim (Option-cases (last_space s)) [
  | inl h ↦ ground arith
  | inr (j, h) ↦ ground (arith, last_space-lt s j h)
]

pub cut_at-le : (max_len : ℕ) (s : Bytes) → cut_at max_len s ≤ max_len
unfolding cut_at
cut_at-le max_len s = elim (Option-cases (last_space (take max_len s))) [
  | inl h ↦ ground arith
  | inr (j, h) ↦ ground (arith, last_space-lt (take max_len s) j h, length-take max_len s)
]

-- From the limit 2 on a cut is never empty.
pub cut_at-pos : (max_len : ℕ) (s : Bytes) → 2 ≤ max_len → 0 < cut_at max_len s
unfolding cut_at
cut_at-pos max_len s h = ground arith

length-trim_one_space : (s : Bytes) → length (trim_one_space s) ≤ length s
unfolding trim_one_space
length-trim_one_space [] = omega arith
length-trim_one_space (c ∷ s) = ground arith

last_space_hit : (s : Bytes) → last_space s ≡ some 0 → length (trim_one_space s) < length s
unfolding last_space trim_one_space
last_space_hit [] e = cc
last_space_hit (c ∷ s) e = ground arith

last_space-take :
    (n : ℕ) (s : Bytes) → last_space (take n s) ≡ some 0 → length (trim_one_space s) < length s
unfolding last_space trim_one_space
last_space-take zero s e = cc
last_space-take (suc n) [] e = cc
last_space-take (suc n) (c ∷ s) e = ground arith

-- Every turn of the loop takes at least one byte off.
pub rest_after-lt :
    (max_len : ℕ) (s : Bytes)
    → 0 < max_len
    → max_len < length s
    → length (rest_after max_len s) < length s
unfolding rest_after cut_at
rest_after-lt max_len s h l = elim (Option-cases (last_space (take max_len s))) [
  | inl e ↦
      rw (e, cut_at) (omega (arith, length-trim_one_space (drop max_len s), length-drop max_len s))
  | inr (zero, e) ↦
      rw (e, cut_at)
        (ground (
          arith,
          last_space-take max_len s e,
          length-trim_one_space (drop max_len s),
          length-drop max_len s,
        ))
  | inr (suc j, e) ↦
      rw (e, cut_at)
        (ground (
          arith,
          length-trim_one_space (drop max_len s),
          length-trim_one_space (drop (suc j) s),
          length-drop max_len s,
          length-drop (suc j) s,
        ))
]

-- Enough fuel gives the same pieces, whatever the fuel.
fuel_enough :
    (f g max_len : ℕ) (s : Bytes)
    → 0 < max_len
    → length s < f
    → length s < g
    → hard_split_loop f max_len s ≡ hard_split_loop g max_len s
unfolding hard_split_loop
fuel_enough zero g max_len s h p q = absurd (omega arith)
fuel_enough (suc f) zero max_len s h p q = absurd (omega arith)
fuel_enough (suc f) (suc g) max_len s h p q = elim (Bool-cases (ltb max_len (length s))) [
  | inl long ↦ rw long (
      ap (◌∷◌ (take (cut_at max_len s) s)) (
        fuel_enough f g max_len (rest_after max_len s) h (ground (arith, rest_after-lt max_len s h))
          (ground (arith, rest_after-lt max_len s h))))
  | inr short ↦ rw short
]

-- The function satisfies the equation of the source's loop, for every text: the fuel never runs
-- out.
pub hard_split_lem :
    (max_len : ℕ) (s : Bytes)
    → 0 < max_len
    → hard_split max_len s ≡ (
        if ltb max_len (length s)
        then take (cut_at max_len s) s ∷ hard_split max_len (rest_after max_len s)
        else leftover s)
unfolding hard_split
hard_split_lem max_len s h = elim (Bool-cases (ltb max_len (length s))) [
  | inl long ↦
      unfold hard_split_loop in
      (rw long (
        ap (◌∷◌ (take (cut_at max_len s) s)) (
          fuel_enough (length s) (suc (length (rest_after max_len s))) max_len
            (rest_after max_len s) h (ground (arith, rest_after-lt max_len s h)) (omega arith))))
  | inr short ↦ unfold hard_split_loop in (rw short)
]
