-- ===== src/Adapter/Discord/Fuel.antt =====
-- The fuel of the mention scanner of the Discord adapter is enough.
use espur.Base.{
  ℕ, suc, zero, ◌-◌, ◌≤◌, ◌<◌, ◌≡◌, refl, ap, ◌&&◌, not, [], ◌∷◌, ◌++◌, Option, none, some, Bytes,
  same, is_empty, ◌==◌, length, take, if◌then◌else◌, if_rule, arith,
}
use espur.Adapter.Discord.{digits, closes, id_then, after_bang, mention_at, strip_mentions}

length-digits : (s : Bytes) → length (digits s).1 ≤ length s
unfolding digits
length-digits [] = omega arith
length-digits (c ∷ s) = ground (arith, length-digits s)

-- The rest after a match, if there is one, is shorter than a bound.
abbrev Shorter : ℕ → Option (Bytes × Bytes) → Type 0
Shorter n none = Unit
Shorter n (some (id, rest)) = length rest < n

closes-Shorter : (id s : Bytes) (n : ℕ) → length s ≤ n → Shorter (suc n) (closes id s)
closes-Shorter id [] n h = tt
closes-Shorter id (c ∷ s) n h =
    if_rule (Shorter (suc n)) (not (is_empty id) && c == 0x3e) (λ _. omega (arith, h)) (λ _. tt)

id_then-Shorter : (s : Bytes) → Shorter (suc (length s)) (id_then s)
id_then-Shorter s = closes-Shorter (digits s).0 (digits s).1 (length s) (length-digits s)

after_bang-Shorter : (s : Bytes) → Shorter (suc (length s)) (after_bang s)
after_bang-Shorter [] = tt
after_bang-Shorter (c ∷ s) =
    if_rule (Shorter (suc (suc (length s)))) (c == 0x21)
      (λ _. weaker (suc (length s)) (id_then s) (id_then-Shorter s)) (λ _. id_then-Shorter (c ∷ s))
  where
    weaker : (n : ℕ) (o : Option (Bytes × Bytes)) → Shorter n o → Shorter (suc n) o
    weaker n none h = tt
    weaker n (some (id, rest)) h = omega (arith, h)

mention_at-Shorter : (c : ℕ) (s : Bytes) → Shorter (suc (length s)) (mention_at (c ∷ s))
unfolding mention_at
mention_at-Shorter c [] = tt
mention_at-Shorter c (d ∷ s) =
    if_rule (Shorter (suc (suc (length s)))) (c == 0x3c && d == 0x40)
      (λ _. weaker (suc (length s)) (after_bang s) (after_bang-Shorter s)) (λ _. tt)
  where
    weaker : (n : ℕ) (o : Option (Bytes × Bytes)) → Shorter n o → Shorter (suc n) o
    weaker n none h = tt
    weaker n (some (id, rest)) h = omega (arith, h)

-- The scan for mentions never stops for want of fuel: with at least as many steps as there are bytes,
-- a larger number of steps gives the same.
pub strip_mentions_fuel :
    (n m : ℕ) (bot s : Bytes)
    → length s ≤ n
    → n ≤ m
    → strip_mentions m bot s ≡ strip_mentions n bot s
unfolding strip_mentions
strip_mentions_fuel zero zero bot [] h le = refl
strip_mentions_fuel zero (suc m) bot [] h le = refl
strip_mentions_fuel zero m bot (c ∷ s) h le = absurd (omega (arith, h))
strip_mentions_fuel (suc n) zero bot s h le = absurd (omega (arith, le))
strip_mentions_fuel (suc n) (suc m) bot [] h le = refl
strip_mentions_fuel (suc n) (suc m) bot (c ∷ s) h le =
    scanned (mention_at (c ∷ s)) (mention_at-Shorter c s)
      (λ t short. strip_mentions_fuel n m bot t short (omega (arith, le)))
  where
    scanned :
        (o : Option (Bytes × Bytes))
        → Shorter (suc (length s)) o
        → ((t : Bytes) → length t ≤ n → strip_mentions m bot t ≡ strip_mentions n bot t)
        → (elim o [
          | none ↦ c ∷ strip_mentions m bot s
          | some (id, rest) ↦
              (if same id bot then [] else take (suc (length s) - length rest) (c ∷ s))
              ++ strip_mentions m bot rest
        ])
          ≡ (elim o [
            | none ↦ c ∷ strip_mentions n bot s
            | some (id, rest) ↦
                (if same id bot then [] else take (suc (length s) - length rest) (c ∷ s))
                ++ strip_mentions n bot rest
          ])
    scanned none shorter ih = ap (◌∷◌ c) (ih s (omega (arith, h)))
    scanned (some (id, rest)) shorter ih =
        ap (λ t. (if same id bot then [] else take (suc (length s) - length rest) (c ∷ s)) ++ t)
          (ih rest (omega (arith, h, shorter)))
